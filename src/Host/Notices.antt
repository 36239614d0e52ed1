-- ===== src/Host/Notices.antt =====
-- What becomes of a program that the simulator starts, notifies and frees through its plug-in.
use shadow_tor_eavesdropping.Base.{
  ℕ, zero, suc, if◌then◌else◌, Bool, true, false, List, Bytes, ◌≡◌, ◌⊎◌, inl, inr, refl,
}
use shadow_tor_eavesdropping.Sys.{
  Kernel, M, Trace, Outcome, ok, exited, faulted, Fault, ◌>>=◌, ◌>>◌, skip, get, put,
}
use shadow_tor_eavesdropping.Sys.Ends.{Ends, >>=-Ends}
use shadow_tor_eavesdropping.Sys.Simulation.{along}
use shadow_tor_eavesdropping.Host.{Node}
use shadow_tor_eavesdropping.Host.Plugin.{
  Instance, absent, present, released, Plugin, Registered, plugin_init, inside, with_instance,
  plugin_new, plugin_ready,
}
use shadow_tor_eavesdropping.Host.Turns.{Keeps, IfMade}

along-Ends :
    {S T A : Type 0} (φ : S → T) (Q : A → T → Trace → Type 0) (E : Fault → Type 0) (o : Outcome S A)
    → Ends (λ a s t. Q a (φ s) t) E o
    → Ends Q E (along φ o)
along-Ends φ Q E (ok a s t) p = p
along-Ends φ Q E (exited c s t) p = p
along-Ends φ Q E (faulted e s t) p = p

weaker-Ends :
    {S A : Type 0} (Q : A → S → Trace → Type 0) (E F : Fault → Type 0) (o : Outcome S A)
    → ((e : Fault) → E e → F e)
    → Ends Q E o
    → Ends Q F o
weaker-Ends Q E F (ok a s t) h p = p
weaker-Ends Q E F (exited c s t) h p = p
weaker-Ends Q E F (faulted e s t) h p = h e p

-- A property of the memory behind the pointer, where there is one.
abbrev pub IfPresent : {S : Type 0} → (S → Trace → Type 0) → Instance → S → Trace → Type 0
IfPresent I absent s t = Unit
IfPresent I present s t = I s t
IfPresent I released s t = ⊥

-- The faults of a program, and a failed assertion.
abbrev pub OrAssertion : (Fault → Type 0) → Fault → Type 0
OrAssertion E e = (e ≡ Fault.assertion) ⊎ E e

module _ {S : Type 0} (registered : Registered S) where
  unfoldable pub notices : ℕ → M (Plugin S) (Unit {0})
  notices zero = skip
  notices (suc n) = do registered.ready; notices n

  -- The life of a node, up to the notice `n`.
  abbrev pub noticed : List Bytes → ℕ → M (Plugin S) (Unit {0})
  noticed argv n = registered.new argv >> notices n

module _ {S : Type 0} (node : Node S) where
  module _ (check : M S Bool) (I : S → Trace → Type 0) (E : Fault → Type 0) (k : Kernel)
      (keeps : Keeps k node check I E) where
    abbrev Good : Unit {0} → Plugin S → Trace → Type 0
    Good _ p t = IfPresent I p.instance_of p.memory t

    ready-Ends :
        (i : Instance) (s : S) (t : Trace)
        → IfPresent I i s t
        → Ends Good
            (OrAssertion E)
            (with_instance node node.ready i k (record { instance_of = i; memory = s }) t)
    unfolding with_instance
    ready-Ends absent s t g = inl refl
    ready-Ends present s t g =
        along-Ends (λ m. record { instance_of = present; memory = m }) Good (OrAssertion E)
          (node.ready k s t)
          (weaker-Ends (λ _. I) E (OrAssertion E) (node.ready k s t) (λ e f. inr f)
            (keeps.served s t g))
    ready-Ends released s t g = absurd g

    notices-Ends :
        (n : ℕ) (p : Plugin S) (t : Trace)
        → Good tt p t
        → Ends Good (OrAssertion E) (notices (plugin_init node) n k p t)
    unfolding notices plugin_init plugin_ready
    notices-Ends zero p t g = g
    notices-Ends (suc n) p t g =
        >>=-Ends Good Good (OrAssertion E) (plugin_ready node) (λ _. notices (plugin_init node) n) k
          p t (ready-Ends p.instance_of p.memory t g) λ a p' t' g'. notices-Ends n p' t' g'

    settled :
        (made : Bool) (s : S) (t : Trace)
        → IfMade I made s t
        → IfPresent I (if made then present else absent) s t
    settled true s t i = i
    settled false s t i = tt

    plugin_new-Ends :
        (argv : List Bytes) (p : Plugin S) (t : Trace)
        → Ends (IfMade I) E (node.create argv k p.memory t)
        → Ends Good (OrAssertion E) (plugin_new node argv k p t)
    unfolding plugin_new
    plugin_new-Ends argv p t c =
        >>=-Ends (λ made q. IfMade I made q.memory) Good (OrAssertion E) (inside (node.create argv))
          (λ made. get >>= λ q. put (record q { instance_of = if made then present else absent })) k
          p t
          (along-Ends (λ s. record p { memory = s }) (λ made q. IfMade I made q.memory)
            (OrAssertion E) (node.create argv k p.memory t)
            (weaker-Ends (IfMade I) E (OrAssertion E) _ (λ e f. inr f) c))
          λ made q t' i. settled made q.memory t' i

    -- A property that a program has from its start on and keeps at each notice holds, after the
    -- start by the simulator and any number of notices, of the memory of a node that was made. A
    -- fault before that is one of the program's own or a failed assertion.
    pub noticed-IfPresent :
        (argv : List Bytes) (n : ℕ) (p : Plugin S) (t : Trace)
        → Ends (IfMade I) E (node.create argv k p.memory t)
        → Ends Good (OrAssertion E) (noticed (plugin_init node) argv n k p t)
    unfolding plugin_init
    noticed-IfPresent argv n p t c =
        >>=-Ends Good Good (OrAssertion E) (plugin_new node argv)
          (λ _. notices (plugin_init node) n) k p t (plugin_new-Ends argv p t c)
          λ a p' t' g. notices-Ends n p' t' g
