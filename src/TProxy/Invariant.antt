-- ===== src/TProxy/Invariant.antt =====
-- The table and the buffers of tropeaproxy/tproxy.c between two events.
use shadow_tor_eavesdropping.Base.{
  ℕ, zero, suc, ◌<◌, some, ℤ, pos, negsuc, length, ◌≡◌, ◌≢◌, arith, ◌⊎◌, inl, inr, sym,
}
use native.Mathlib.Decide.{ℕ_discrete}
use shadow_tor_eavesdropping.Glib.{HashTable}
use shadow_tor_eavesdropping.TProxy.Buffers.{Buffer, null, live, freed}
use shadow_tor_eavesdropping.TProxy.State.{
  Partner, TProxy, update, update_same, update_other, blank,
}
use shadow_tor_eavesdropping.TProxy.Handlers.{link}

-- A buffer size that is positive is the size of a block in use.
abbrev pub IsSized : ℤ → Buffer → Type 0
IsSized (pos zero) buf = Unit
IsSized (pos (suc n)) null = ⊥
IsSized (pos (suc n)) (live bs) = length bs ≡ suc n
IsSized (pos (suc n)) (freed bs) = ⊥
IsSized (negsuc n) buf = ⊥

abbrev pub IsCoherent : Partner → Type 0
IsCoherent p = IsSized p.bufsize p.buf

-- The invariant, but for the partner at the address `x`.
pub record InvBut (g : HashTable ℕ) (x : ℕ) (h : TProxy g) : Type 0 where
  pub bounded : (a p : ℕ) → g.lookup a h.hashmap ≡ some p → p < h.next
  pub injective :
      (a b p : ℕ) → g.lookup a h.hashmap ≡ some p → g.lookup b h.hashmap ≡ some p → a ≡ b
  pub coherent : (a p : ℕ) → g.lookup a h.hashmap ≡ some p → p ≢ x → IsCoherent (h.partners p)

-- Each descriptor of the table has a partner of its own, at an address that was handed out, and
-- each partner's buffer holds as many bytes as its size says.
pub record Inv (g : HashTable ℕ) (h : TProxy g) : Type 0 where
  pub bounded : (a p : ℕ) → g.lookup a h.hashmap ≡ some p → p < h.next
  pub injective :
      (a b p : ℕ) → g.lookup a h.hashmap ≡ some p → g.lookup b h.hashmap ≡ some p → a ≡ b
  pub coherent : (a p : ℕ) → g.lookup a h.hashmap ≡ some p → IsCoherent (h.partners p)

module _ (g : HashTable ℕ) where
  pub Inv-InvBut : (x : ℕ) (h : TProxy g) → Inv g h → InvBut g x h
  Inv-InvBut x h v = record {
    bounded = v.bounded;
    injective = v.injective;
    coherent = λ a p e ne. v.coherent a p e;
  }

  -- Whatever is written to the partner at `x`.
  pub update-InvBut :
      (x : ℕ) (h : TProxy g) (v : Partner)
      → InvBut g x h
      → InvBut g x (record h { partners = update h.partners x v })
  update-InvBut x h v i = record {
    bounded = i.bounded;
    injective = i.injective;
    coherent =
        λ a p e ne. rw (update_other h.partners x p v (λ q. ne (sym q))) (i.coherent a p e ne);
  }

  -- A coherent partner written to `x` mends the invariant.
  pub update-Inv :
      (x : ℕ) (h : TProxy g) (v : Partner)
      → IsCoherent v
      → InvBut g x h
      → Inv g (record h { partners = update h.partners x v })
  update-Inv x h v c i = record {
    bounded = i.bounded;
    injective = i.injective;
    coherent = λ a p e. elim (ℕ_discrete p x) [
      | yes q ↦ rw (q, update_same) c
      | no ne ↦ rw (update_other h.partners x p v (λ q. ne (sym q))) (i.coherent a p e ne)
    ];
  }

  -- No other descriptor than `sd` has its partner at `x`.
  abbrev pub Owns : ℕ → ℕ → TProxy g → Type 0
  Owns sd x h = (a : ℕ) → g.lookup a h.hashmap ≡ some x → a ≡ sd

  pub kept :
      (sd a p : ℕ) (m : g.Table) → g.lookup a (g.remove sd m) ≡ some p → g.lookup a m ≡ some p
  kept sd a p m e = ground (arith, g.lookup-remove sd a m)

  -- So does taking its descriptor out of the table.
  pub remove-Inv :
      (x sd d : ℕ) (h : TProxy g)
      → Owns sd x h
      → InvBut g x h
      → Inv g (record h { hashmap = g.remove sd h.hashmap; is_done = d })
  remove-Inv x sd d h owns i = record {
    bounded = λ a p e. i.bounded a p (kept sd a p h.hashmap e);
    injective = λ a b p e f. i.injective a b p (kept sd a p h.hashmap e) (kept sd b p h.hashmap f);
    coherent = λ a p e. i.coherent a p (kept sd a p h.hashmap e) (other a p e);
  }
    where
      other : (a p : ℕ) → g.lookup a (g.remove sd h.hashmap) ≡ some p → p ≢ x
      other a p e q =
          ground (arith, g.lookup-remove sd a h.hashmap, owns a, kept sd a p h.hashmap e)

  pub link_lookup :
      (h : TProxy g) (cin cout j p : ℕ)
      → g.lookup j (link g cin cout h).hashmap ≡ some p
      → (p ≡ h.next × j ≡ cout) ⊎ (p ≡ suc h.next × j ≡ cin) ⊎ (g.lookup j h.hashmap ≡ some p)
  unfolding link
  link_lookup h cin cout j p e = ground (
    arith,
    g.lookup-replace cout j h.next (g.replace cin (suc h.next) h.hashmap),
    g.lookup-replace cin j (suc h.next) h.hashmap,
  )

  link_partner :
      (h : TProxy g) (cin cout p : ℕ)
      → p ≢ h.next
      → p ≢ suc h.next
      → (link g cin cout h).partners p ≡ h.partners p
  unfolding link update
  link_partner h cin cout p n m = ground arith

  link_partner_in :
      (h : TProxy g) (cin cout : ℕ)
      → (link g cin cout h).partners h.next ≡ record blank { sd = cin }
  unfolding link update
  link_partner_in h cin cout = ground arith

  link_partner_out :
      (h : TProxy g) (cin cout : ℕ)
      → (link g cin cout h).partners (suc h.next) ≡ record blank { sd = cout }
  unfolding link update
  link_partner_out h cin cout = ground arith

  link_bounded :
      (h : TProxy g) (cin cout a p : ℕ)
      → Inv g h
      → g.lookup a (link g cin cout h).hashmap ≡ some p
      → p < suc (suc h.next)
  link_bounded h cin cout a p v e = elim (link_lookup h cin cout a p e) [
    | inl q ↦ omega arith
    | inr (inl q) ↦ omega arith
    | inr (inr old) ↦ omega (arith, v.bounded a p old)
  ]

  link-IsCoherent :
      (h : TProxy g) (cin cout a p : ℕ)
      → Inv g h
      → g.lookup a (link g cin cout h).hashmap ≡ some p
      → IsCoherent ((link g cin cout h).partners p)
  link-IsCoherent h cin cout a p v e = elim (link_lookup h cin cout a p e) [
    | inl q ↦ rw (q.0, link_partner_in) tt
    | inr (inl q) ↦ rw (q.0, link_partner_out) tt
    | inr (inr old) ↦
        let lt = v.bounded a p old in
        rw (link_partner h cin cout p (omega arith) (omega arith)) (v.coherent a p old)
  ]

  link_injective :
      (h : TProxy g) (cin cout a b p : ℕ)
      → Inv g h
      → g.lookup a (link g cin cout h).hashmap ≡ some p
      → g.lookup b (link g cin cout h).hashmap ≡ some p
      → a ≡ b
  link_injective h cin cout a b p v e f = ground (
    arith,
    link_lookup h cin cout a p e,
    link_lookup h cin cout b p f,
    v.bounded a p,
    v.bounded b p,
    v.injective a b p,
  )

  -- A new connection keeps the invariant, whatever its descriptors are.
  pub link-Inv : (h : TProxy g) (cin cout : ℕ) → Inv g h → Inv g (link g cin cout h)
  unfolding link
  link-Inv h cin cout v = record {
    bounded = λ a p e. link_bounded h cin cout a p v e;
    injective = λ a b p e f. link_injective h cin cout a b p v e f;
    coherent = λ a p e. link-IsCoherent h cin cout a p v e;
  }

  pub link-Owns :
      (h : TProxy g) (cin cout sd x : ℕ) → x < h.next → Owns sd x h → Owns sd x (link g cin cout h)
  link-Owns h cin cout sd x lt owns a e = elim (link_lookup h cin cout a x e) [
    | inl q ↦ absurd (omega arith)
    | inr (inl q) ↦ absurd (omega arith)
    | inr (inr old) ↦ owns a old
  ]
