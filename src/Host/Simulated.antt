-- ===== src/Host/Simulated.antt =====
-- The `main` of two programs that do the same on two types of states.
use shadow_tor_eavesdropping.Base.{
  ℕ, zero, suc, ◌==◌, ◌/=◌, if◌then◌else◌, Bool, true, false, Option, none, some, List, [], ◌∷◌,
  Bytes, ◌≡◌, refl, inl, inr, Bool-cases,
}
use shadow_tor_eavesdropping.Sys.{
  Outcome, ok, exited, faulted, Fault, Kernel, M, Trace, Call, minus_one, ◌>>=◌, ◌>>◌, pure,
}
use shadow_tor_eavesdropping.Sys.Simulation.{
  along, Ends-along, Simulates, >>=-Simulates, if-Simulates,
}
use shadow_tor_eavesdropping.Sys.Ends.{Ends}
use shadow_tor_eavesdropping.Host.Turns.{Keeps, IfMade}
use shadow_tor_eavesdropping.Host.{Node}
use shadow_tor_eavesdropping.Host.Main.{
  clean_up, serve_node, turn, turns, close_main, watch_node, with_descriptor, started, main,
}

-- Functions that do the same, and the same descriptor.
pub record Alike {S T : Type 0} (φ : S → T) (m : Node S) (n : Node T) : Type 0 where
  pub creates : (argv : List Bytes) → Simulates φ (m.create argv) (n.create argv)
  pub releases : Simulates φ m.release n.release
  pub readies : Simulates φ m.ready n.ready
  pub describes : (s : S) → m.descriptor s ≡ n.descriptor (φ s)

module _ {S T : Type 0} (φ : S → T) (a : Node S) (b : Node T) (alike : Alike φ a b) (interest : ℕ)
    (check : M S Bool) (check' : M T Bool) (checks : Simulates φ check check') where
  outcome-IfMade :
      (k : Kernel) (I : T → Trace → Type 0) (E : Fault → Type 0) (o : Outcome S Bool)
      → Ends (IfMade I) E (along φ o)
      → Ends (IfMade (λ s'. I (φ s'))) E o
  outcome-IfMade k I E (ok true s t) p = p
  outcome-IfMade k I E (ok false s t) p = p
  outcome-IfMade k I E (exited c s t) p = p
  outcome-IfMade k I E (faulted e s t) p = p

  -- What one of them keeps, the other keeps.
  pub Keeps-along :
      (k : Kernel) (I : T → Trace → Type 0) (E : Fault → Type 0)
      → Keeps k b check' I E
      → Keeps k a check (λ s. I (φ s)) E
  Keeps-along k I E keeps = record {
    own = λ s t c o i. keeps.own (φ s) t c o i;
    served = λ s t i. Ends-along φ (λ _. I) E _ (rw (alike.readies k s t) (keeps.served (φ s) t i));
    checked = λ s t i. Ends-along φ (λ _. I) E _ (rw (checks k s t) (keeps.checked (φ s) t i));
    ended = λ s t i.
        Ends-along φ (λ _ _ _. Unit {0}) E _ (rw (alike.releases k s t) (keeps.ended (φ s) t i));
  }

  pub IfMade-along :
      (k : Kernel) (I : T → Trace → Type 0) (E : Fault → Type 0) (argv : List Bytes) (s : S)
      (t : Trace)
      → Ends (IfMade I) E (b.create argv k (φ s) t)
      → Ends (IfMade (λ s'. I (φ s'))) E (a.create argv k s t)
  IfMade-along k I E argv s t made =
      outcome-IfMade k I E (a.create argv k s t) (rw (alike.creates argv k s t) made)

  close_main-Simulates :
      (ed : ℕ) → Simulates φ (close_main a interest check ed) (close_main b interest check' ed)
  unfolding close_main
  close_main-Simulates ed k s t = refl

  last-Simulates :
      Simulates φ
        (a.release >> pure {A = Option ℕ} (some 0))
        (b.release >> pure {A = Option ℕ} (some 0))
  last-Simulates =
      >>=-Simulates φ a.release b.release (λ _. pure (some 0)) (λ _. pure (some 0)) alike.releases
        λ _ k s t. refl

  clean_up-Simulates :
      (ed : ℕ) → Simulates φ (clean_up a interest check ed) (clean_up b interest check' ed)
  unfolding clean_up
  clean_up-Simulates ed k s t = elim (Bool-cases (b.descriptor (φ s) /= 0)) [
    | inl e ↦ simp (alike.describes s, e, ◌>>=◌) (last-Simulates k s _)
    | inr e ↦ simp (alike.describes s, e, ◌>>=◌) (last-Simulates k s _)
  ]

  serve_node-Simulates :
      (events : List (ℕ × ℕ))
      → Simulates φ (serve_node a interest check events) (serve_node b interest check' events)
  unfolding serve_node
  serve_node-Simulates [] k s t = refl
  serve_node-Simulates (e ∷ es) k s t = alike.readies k s t

  turn-Simulates :
      (events : Option (List (ℕ × ℕ))) (m : M S (Option ℕ)) (n : M T (Option ℕ)) (ed : ℕ)
      → Simulates φ m n
      → Simulates φ (turn a interest check m ed events) (turn b interest check' n ed events)
  unfolding turn
  turn-Simulates none m n ed rest k s t = refl
  turn-Simulates (some events) m n ed rest k s t =
      >>=-Simulates φ (serve_node a interest check events) (serve_node b interest check' events)
        (λ _. check >>= λ stop. if stop then clean_up a interest check ed else m)
        (λ _. check' >>= λ stop. if stop then clean_up b interest check' ed else n)
        (serve_node-Simulates events)
        (λ _.
          >>=-Simulates φ check check' (λ stop. if stop then clean_up a interest check ed else m)
            (λ stop. if stop then clean_up b interest check' ed else n) checks
            λ stop.
              if-Simulates φ stop (clean_up a interest check ed) m (clean_up b interest check' ed) n
                (clean_up-Simulates ed) rest)
        k s t

  turns-Simulates :
      (n ed : ℕ) → Simulates φ (turns a interest check n ed) (turns b interest check' n ed)
  unfolding turns
  turns-Simulates zero ed k s t = refl
  turns-Simulates (suc n) ed k s t =
      turn-Simulates (k.polls t (Call.epoll_wait ed 100)) (turns a interest check n ed)
        (turns b interest check' n ed) ed (turns-Simulates n ed) k s _

  with_descriptor-Simulates :
      (n ed : ℕ)
      → Simulates φ (with_descriptor a interest check n ed) (with_descriptor b interest check' n ed)
  unfolding with_descriptor watch_node
  with_descriptor-Simulates n ed k s t = elim (Bool-cases (b.descriptor (φ s) == 0)) [
    | inl e ↦ simp (alike.describes s, e, ◌>>=◌) (close_main-Simulates ed k s t)
    | inr e ↦ simp (alike.describes s, e, ◌>>=◌) (turns-Simulates n ed k s _)
  ]

  started-Simulates :
      (n : ℕ) → Simulates φ (started a interest check n) (started b interest check' n)
  unfolding started
  started-Simulates n k s t =
      let c = Call.epoll_create 1 in
      let ed = k.returns t c in
      if-Simulates φ (ed == minus_one) (close_main a interest check ed)
        (with_descriptor a interest check n ed) (close_main b interest check' ed)
        (with_descriptor b interest check' n ed) (close_main-Simulates ed)
        (with_descriptor-Simulates n ed) k s (c ∷ t)

  pub main-Simulates :
      (n : ℕ) (argv : List Bytes)
      → Simulates φ (main a interest check n argv) (main b interest check' n argv)
  unfolding main
  main-Simulates n argv =
      >>=-Simulates φ (a.create argv) (b.create argv)
        (λ made. if made then started a interest check n else pure (some minus_one))
        (λ made. if made then started b interest check' n else pure (some minus_one))
        (alike.creates argv)
        λ made.
          if-Simulates φ made (started a interest check n) (pure (some minus_one))
            (started b interest check' n) (pure (some minus_one)) (started-Simulates n)
            λ k s t. refl
