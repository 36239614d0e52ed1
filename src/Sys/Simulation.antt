-- ===== src/Sys/Simulation.antt =====
-- Programs that do the same on two types of states: the same calls, the same result, the same end,
-- and states that correspond.
use shadow_tor_eavesdropping.Base.{Bool, true, false, if◌then◌else◌, ◌≡◌, refl, ap, ◌∙◌, sym}
use shadow_tor_eavesdropping.Sys.{
  Kernel, Trace, Outcome, ok, exited, faulted, M, ◌>>=◌, after, >>=-after, Fault, Post,
}
use shadow_tor_eavesdropping.Sys.Ends.{Ends}

module _ {S T : Type 0} (φ : S → T) where
  -- The end of a run on `S`, as the end of a run on `T`.
  abbrev pub along : {A : Type 0} → Outcome S A → Outcome T A
  along (ok a s t) = ok a (φ s) t
  along (exited c s t) = exited c (φ s) t
  along (faulted e s t) = faulted e (φ s) t

  abbrev pub Simulates : {A : Type 0} → M S A → M T A → Type 0
  Simulates m n = (k : Kernel) (s : S) (t : Trace) → along (m k s t) ≡ n k (φ s) t

  along-after :
      {A B : Type 0} (f : A → M S B) (g : A → M T B)
      → ((a : A) → Simulates (f a) (g a))
      → (k : Kernel) (o : Outcome S A) → along (after f k o) ≡ after g k (along o)
  along-after f g same k (ok a s t) = same a k s t
  along-after f g same k (exited c s t) = refl
  along-after f g same k (faulted e s t) = refl

  -- One function after another.
  pub >>=-Simulates :
      {A B : Type 0} (m : M S A) (n : M T A) (f : A → M S B) (g : A → M T B)
      → Simulates m n
      → ((a : A) → Simulates (f a) (g a))
      → Simulates (m >>= f) (n >>= g)
  >>=-Simulates m n f g first rest k s t =
      ap along (>>=-after m f k s t)
      ∙ along-after f g rest k (m k s t)
      ∙ ap (after g k) (first k s t)
      ∙ sym (>>=-after n g k (φ s) t)

  pub if-Simulates :
      {A : Type 0} (b : Bool) (m m' : M S A) (n n' : M T A)
      → Simulates m n
      → Simulates m' n'
      → Simulates (if b then m else m') (if b then n else n')
  if-Simulates true m m' n n' p q = p
  if-Simulates false m m' n n' p q = q

  -- What the run on `T` ends with, the run on `S` ends with.
  pub Post-along :
      {A : Type 0} (Q : A → T → Type 0) (E : Fault → Type 0) (o : Outcome S A)
      → Post Q E (along o)
      → Post (λ a s. Q a (φ s)) E o
  Post-along Q E (ok a s t) p = p
  Post-along Q E (exited c s t) p = p
  Post-along Q E (faulted e s t) p = p

  pub Ends-along :
      {A : Type 0} (Q : A → T → Trace → Type 0) (E : Fault → Type 0) (o : Outcome S A)
      → Ends Q E (along o)
      → Ends (λ a s t. Q a (φ s) t) E o
  Ends-along Q E (ok a s t) p = p
  Ends-along Q E (exited c s t) p = p
  Ends-along Q E (faulted e s t) p = p
