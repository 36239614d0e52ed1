-- ===== src/Host/Fuel.antt =====
-- How many turns of `main` are looked at, and what a `main` that has ended is.
use shadow_tor_eavesdropping.Base.{
  ℕ, zero, suc, ◌≤◌, ◌==◌, if◌then◌else◌, Bool, true, false, Option, none, some, List, ◌∷◌, Bytes,
  ◌≡◌, refl, sym, ◌∙◌, arith,
}
use shadow_tor_eavesdropping.Sys.{
  Kernel, M, Trace, Call, Outcome, ok, exited, faulted, minus_one, ◌>>=◌, pure, after, >>=-after,
}
use shadow_tor_eavesdropping.Host.{Node}
use shadow_tor_eavesdropping.Host.Main.{
  clean_up, serve_node, turn, turns, close_main, watch_node, with_descriptor, started, main,
}

-- The run has ended: it is not still in the loop.
abbrev pub IsFinal : {S : Type 0} → Outcome S (Option ℕ) → Type 0
IsFinal (ok none s t) = ⊥
IsFinal (ok (some r) s t) = Unit
IsFinal (exited c s t) = Unit
IsFinal (faulted e s t) = Unit

module _ {S : Type 0} (k : Kernel) where
  -- `m` ends as `n` does, once `n` has ended.
  abbrev Settles : M S (Option ℕ) → M S (Option ℕ) → Type 0
  Settles m n = (s : S) (t : Trace) → IsFinal (n k s t) → m k s t ≡ n k s t

  after-Settles :
      {A : Type 0} (f f' : A → M S (Option ℕ)) (o : Outcome S A)
      → ((a : A) → Settles (f' a) (f a))
      → IsFinal (after f k o)
      → after f' k o ≡ after f k o
  after-Settles f f' (ok a s t) same final = same a s t final
  after-Settles f f' (exited c s t) same final = refl
  after-Settles f f' (faulted e s t) same final = refl

  >>=-Settles :
      {A : Type 0} (m : M S A) (f f' : A → M S (Option ℕ))
      → ((a : A) → Settles (f' a) (f a))
      → Settles (m >>= f') (m >>= f)
  >>=-Settles m f f' same s t final =
      >>=-after m f' k s t
      ∙ after-Settles f f' (m k s t) same (rw (>>=-after m f k s t) at final)
      ∙ sym (>>=-after m f k s t)

  if-Settles :
      (b : Bool) (m n n' : M S (Option ℕ))
      → Settles n' n
      → Settles (if b then m else n') (if b then m else n)
  if-Settles true m n n' same s t final = refl
  if-Settles false m n n' same s t final = same s t final

  module _ (node : Node S) (interest : ℕ) (check : M S Bool) where
    turn-Settles :
        (events : Option (List (ℕ × ℕ))) (rest rest' : M S (Option ℕ)) (ed : ℕ)
        → Settles rest' rest
        → Settles
            (turn node interest check rest' ed events)
            (turn node interest check rest ed events)
    unfolding turn
    turn-Settles none rest rest' ed same s t final = refl
    turn-Settles (some events) rest rest' ed same s t final =
        >>=-Settles (serve_node node interest check events)
          (λ _. check >>= λ stop. if stop then clean_up node interest check ed else rest)
          (λ _. check >>= λ stop. if stop then clean_up node interest check ed else rest')
          (λ _.
            >>=-Settles check (λ stop. if stop then clean_up node interest check ed else rest)
              (λ stop. if stop then clean_up node interest check ed else rest')
              λ stop. if-Settles stop (clean_up node interest check ed) rest rest' same)
          s t final

    turns-Settles :
        (n m ed : ℕ)
        → n ≤ m
        → Settles (turns node interest check m ed) (turns node interest check n ed)
    unfolding turns
    turns-Settles zero m ed le s t final = absurd final
    turns-Settles (suc n) zero ed le s t final = absurd (omega arith)
    turns-Settles (suc n) (suc m) ed le s t final =
        turn-Settles _ (turns node interest check n ed) (turns node interest check m ed) ed
          (turns-Settles n m ed (omega arith)) s _ final

    with_descriptor-Settles :
        (n m ed : ℕ)
        → n ≤ m
        → Settles
            (with_descriptor node interest check m ed)
            (with_descriptor node interest check n ed)
    unfolding with_descriptor watch_node
    with_descriptor-Settles n m ed le s t final =
        if-Settles (node.descriptor s == 0) (close_main node interest check ed)
          (watch_node node interest check n ed) (watch_node node interest check m ed)
          (λ s' t' final'. turns-Settles n m ed le s' _ final') s t final

    started-Settles :
        (n m : ℕ) → n ≤ m → Settles (started node interest check m) (started node interest check n)
    unfolding started
    started-Settles n m le s t final =
        let c = Call.epoll_create 1 in
        let ed = k.returns t c in
        if-Settles (ed == minus_one) (close_main node interest check ed)
          (with_descriptor node interest check n ed) (with_descriptor node interest check m ed)
          (with_descriptor-Settles n m ed le) s (c ∷ t) final

    made-Settles :
        (made : Bool) (n m : ℕ)
        → n ≤ m
        → Settles
            (if made then started node interest check m else pure (some minus_one))
            (if made then started node interest check n else pure (some minus_one))
    made-Settles true n m le s t final = started-Settles n m le s t final
    made-Settles false n m le s t final = refl

    -- The number of turns only says how far a run is looked at: if `main` has returned, or has
    -- ended otherwise, within `n` turns, then it ends the same way, in the same state and with the
    -- same calls, within any greater number of turns.
    pub main-Settles :
        (n m : ℕ) (argv : List Bytes) (s : S) (t : Trace)
        → n ≤ m
        → IsFinal (main node interest check n argv k s t)
        → main node interest check m argv k s t ≡ main node interest check n argv k s t
    unfolding main
    main-Settles n m argv s t le =
        >>=-Settles (node.create argv)
          (λ made. if made then started node interest check n else pure (some minus_one))
          (λ made. if made then started node interest check m else pure (some minus_one))
          (λ made. made-Settles made n m le) s t
