-- ===== src/Host/Turns.antt =====
-- A property of the state and of the calls that a program keeps, through its whole `main`.
use shadow_tor_eavesdropping.Base.{
  ℕ, zero, suc, ◌==◌, ◌/=◌, if◌then◌else◌, Bool, true, false, Option, none, some, List, [], ◌∷◌,
  Bytes, inl, inr, Bool-cases,
}
use shadow_tor_eavesdropping.Sys.{Kernel, M, Trace, Call, Fault, minus_one, ◌>>=◌, ◌>>◌, pure}
use shadow_tor_eavesdropping.Sys.Ends.{Ends, >>=-Ends}
use shadow_tor_eavesdropping.Host.{Node}
use shadow_tor_eavesdropping.Host.Main.{
  clean_up, serve_node, turn, turns, close_main, watch_node, with_descriptor, started, main,
}

-- The calls that `main` makes for itself.
abbrev pub IsOwn : Call → Type 0
IsOwn (Call.epoll_create n) = Unit
IsOwn (Call.epoll_ctl op ed sd events) = Unit
IsOwn (Call.epoll_wait ed n) = Unit
IsOwn (Call.close sd) = Unit
IsOwn _ = ⊥

-- What is to be shown of a program: that it starts with the property, and keeps it; `E` is what
-- its faults are.
pub record Keeps {S : Type 0} (k : Kernel) (node : Node S) (check : M S Bool)
    (I : S → Trace → Type 0) (E : Fault → Type 0) : Type 0 where
  pub own : (s : S) (t : Trace) (c : Call) → IsOwn c → I s t → I s (c ∷ t)
  pub served : (s : S) (t : Trace) → I s t → Ends (λ _. I) E (node.ready k s t)
  pub checked : (s : S) (t : Trace) → I s t → Ends (λ _. I) E (check k s t)
  pub ended : (s : S) (t : Trace) → I s t → Ends (λ _ _ _. Unit {0}) E (node.release k s t)

-- What holds when `create` has returned, and when `main` has returned or is still in its loop.
abbrev pub IfMade : {S : Type 0} → (S → Trace → Type 0) → Bool → S → Trace → Type 0
IfMade I true s t = I s t
IfMade I false s t = Unit

abbrev pub IfRunning : {S : Type 0} → (S → Trace → Type 0) → Option ℕ → S → Trace → Type 0
IfRunning I none s t = I s t
IfRunning I (some status) s t = Unit

module _ {S : Type 0} (k : Kernel) (node : Node S) (interest : ℕ) (check : M S Bool)
    (I : S → Trace → Type 0) (E : Fault → Type 0) (keeps : Keeps k node check I E) where
  abbrev Runs : M S (Option ℕ) → Type 0
  Runs m = (s : S) (t : Trace) → I s t → Ends (IfRunning I) E (m k s t)

  close_main-Runs : (ed : ℕ) → Runs (close_main node interest check ed)
  unfolding close_main
  close_main-Runs ed s t i = tt

  clean_up-Runs : (ed : ℕ) → Runs (clean_up node interest check ed)
  unfolding clean_up
  clean_up-Runs ed s t i = elim (Bool-cases (node.descriptor s /= 0)) [
    | inl e ↦ simp (e, ◌>>=◌) (last (Call.close ed ∷ _) (keeps.own s _ _ tt (keeps.own s t _ tt i)))
    | inr e ↦ simp (e, ◌>>=◌) (last (Call.close ed ∷ t) (keeps.own s t _ tt i))
  ]
    where
      last : (t' : Trace) → I s t' → Ends (IfRunning I) E ((node.release >> pure (some 0)) k s t')
      last t' i' =
          >>=-Ends (λ _ _ _. Unit {0}) (IfRunning I) E node.release (λ _. pure (some 0)) k s t'
            (keeps.ended s t' i') λ a s'' t'' u. tt

  serve_node-Ends :
      (events : List (ℕ × ℕ)) (s : S) (t : Trace)
      → I s t
      → Ends (λ _. I) E (serve_node node interest check events k s t)
  unfolding serve_node
  serve_node-Ends [] s t i = i
  serve_node-Ends (e ∷ es) s t i = keeps.served s t i

  stop-Runs :
      (stop : Bool) (rest : M S (Option ℕ)) (ed : ℕ)
      → Runs rest
      → Runs (if stop then clean_up node interest check ed else rest)
  stop-Runs true rest ed r = clean_up-Runs ed
  stop-Runs false rest ed r = r

  turn-Runs :
      (events : Option (List (ℕ × ℕ))) (rest : M S (Option ℕ)) (ed : ℕ)
      → Runs rest
      → Runs (turn node interest check rest ed events)
  unfolding turn
  turn-Runs none rest ed r s t i = tt
  turn-Runs (some events) rest ed r s t i =
      >>=-Ends (λ _. I) (IfRunning I) E (serve_node node interest check events)
        (λ _. check >>= λ stop. if stop then clean_up node interest check ed else rest) k s t
        (serve_node-Ends events s t i)
        λ a s₁ t₁ i₁.
          >>=-Ends (λ _. I) (IfRunning I) E check
            (λ stop. if stop then clean_up node interest check ed else rest) k s₁ t₁
            (keeps.checked s₁ t₁ i₁) λ stop s₂ t₂ i₂. stop-Runs stop rest ed r s₂ t₂ i₂

  turns-Runs : (n ed : ℕ) → Runs (turns node interest check n ed)
  unfolding turns
  turns-Runs zero ed s t i = i
  turns-Runs (suc n) ed s t i =
      turn-Runs _ (turns node interest check n ed) ed (turns-Runs n ed) s _
        (keeps.own s t (Call.epoll_wait ed 100) tt i)

  with_descriptor-Runs : (n ed : ℕ) → Runs (with_descriptor node interest check n ed)
  unfolding with_descriptor watch_node
  with_descriptor-Runs n ed s t i = elim (Bool-cases (node.descriptor s == 0)) [
    | inl e ↦ simp (e, ◌>>=◌) (close_main-Runs ed s t i)
    | inr e ↦ simp (e, ◌>>=◌) (turns-Runs n ed s _ (keeps.own s t _ tt i))
  ]

  started-Runs : (n : ℕ) → Runs (started node interest check n)
  unfolding started
  started-Runs n s t i =
      let c = Call.epoll_create 1 in
      elim (Bool-cases (k.returns t c == minus_one)) [
        | inl e ↦ simp (e, ◌>>=◌) (close_main-Runs _ s (c ∷ t) (keeps.own s t c tt i))
        | inr e ↦ simp (e, ◌>>=◌) (with_descriptor-Runs n _ s (c ∷ t) (keeps.own s t c tt i))
      ]

  made-Runs :
      (made : Bool) (n : ℕ) (s : S) (t : Trace)
      → IfMade I made s t
      → Ends
          (IfRunning I)
          E
          ((if made then started node interest check n else pure (some minus_one)) k s t)
  made-Runs true n s t i = started-Runs n s t i
  made-Runs false n s t i = tt

  pub main-IfRunning :
      (n : ℕ) (argv : List Bytes) (s : S) (t : Trace)
      → Ends (IfMade I) E (node.create argv k s t)
      → Ends (IfRunning I) E (main node interest check n argv k s t)
  unfolding main
  main-IfRunning n argv s t create =
      >>=-Ends (IfMade I) (IfRunning I) E (node.create argv)
        (λ made. if made then started node interest check n else pure (some minus_one)) k s t create
        λ made s' t' i. made-Runs made n s' t' i
