-- ===== src/Glib.antt =====
-- The part of GLib that the plug-ins use: a hash table from `gint` keys to pointers. GLib is not
-- code of the repository, so the table is a parameter with the laws that its documentation gives.
use shadow_tor_eavesdropping.Base.{
  ℕ, Option, none, some, ◌≡◌, ◌==◌, if◌then◌else◌, List, [], ◌∷◌, refl, arith,
}

-- `g_hash_table_new(g_int_hash, g_int_equal)`, `lookup`, `replace` and `remove`.
pub record HashTable (V : Type 0) : Type 1 where
  pub Table : Type 0
  pub new : Table
  pub lookup : ℕ → Table → Option V
  pub replace : ℕ → V → Table → Table
  pub remove : ℕ → Table → Table
  pub lookup-new : (j : ℕ) → lookup j new ≡ none
  pub lookup-replace :
      (k j : ℕ) (v : V) (m : Table)
      → lookup j (replace k v m) ≡ (if k == j then some v else lookup j m)
  pub lookup-remove :
      (k j : ℕ) (m : Table) → lookup j (remove k m) ≡ (if k == j then none else lookup j m)

-- An association list meets the laws.
module _ {V : Type 0} where
  abbrev pub find : ℕ → List (ℕ × V) → Option V
  find j [] = none
  find j ((k, v) ∷ m) = if k == j then some v else find j m

  abbrev pub erase : ℕ → List (ℕ × V) → List (ℕ × V)
  erase k [] = []
  erase k ((i, w) ∷ m) = if i == k then erase k m else (i, w) ∷ erase k m

  pub find-erase :
      (k j : ℕ) (m : List (ℕ × V)) → find j (erase k m) ≡ (if k == j then none else find j m)
  find-erase k j [] = ground arith
  find-erase k j ((i, w) ∷ m) = ground (arith, find-erase k j m)

abbrev pub assoc_table : {V : Type 0} → HashTable V
assoc_table {V} = record {
  Table = List (ℕ × V);
  new = [];
  lookup = find;
  replace = λ k v m. (k, v) ∷ m;
  remove = erase;
  lookup-new = λ j. refl;
  lookup-replace = λ k j v m. refl;
  lookup-remove = find-erase;
}
