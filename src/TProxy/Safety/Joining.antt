-- ===== src/TProxy/Safety/Joining.antt =====
-- What `handleNewConnection` of tropeaproxy/tproxy.c keeps.
use shadow_tor_eavesdropping.Base.{
  ℕ, Bool, true, false, ◌==◌, if◌then◌else◌, ◌≡◌, arith, Bool-cases, inl, inr,
}
use mathlib.Core.Path.{subst, sym}
use shadow_tor_eavesdropping.Sys.{Kernel, Trace, Call, SockType, Post, >>=-Post, ◌>>=◌, ◌>>◌}
use shadow_tor_eavesdropping.Glib.{HashTable}
use shadow_tor_eavesdropping.TProxy.State.{TProxy}
use shadow_tor_eavesdropping.TProxy.Package.{build_trace_package, udp_trace}
use shadow_tor_eavesdropping.TProxy.Handlers.{
  link, admit, refuse, connect_out, handle_new_connection,
}
use shadow_tor_eavesdropping.TProxy.Relay.{set_epoll_lem}
use shadow_tor_eavesdropping.TProxy.Safety.Transfers.{Reads}

module _ (g : HashTable ℕ) where
  pub udp_trace-Post :
      (k : Kernel) (h : TProxy g) (t : Trace) → Post (λ _ h'. h' ≡ h) Reads (udp_trace g k h t)
  unfolding udp_trace build_trace_package
  udp_trace-Post k h t = ground arith

  -- What `handleNewConnection` makes of `isDone`.
  abbrev pub clear_done : TProxy g → TProxy g
  clear_done h = if h.is_done == 1 then record h { is_done = 0 } else h

  -- A property that new entries keep is kept by `handleNewConnection`. `N` is what is known of the
  -- descriptors that the kernel hands out.
  module _ (k : Kernel) (N : ℕ → Type 0) (Q : TProxy g → Type 0)
      (new_in : (t : Trace) (sd : ℕ) → N (k.returns t (Call.accept sd)))
      (new_out : (t : Trace) → N (k.returns t (Call.socket SockType.stream)))
      (linked : (h : TProxy g) (cin cout : ℕ) → N cin → N cout → Q h → Q (link g cin cout h)) where
    admit-Post :
        (h : TProxy g) (t : Trace) (cin cout : ℕ)
        → N cin
        → N cout
        → Q h
        → Post (λ _ h'. Q h') Reads (admit g cin cout k h t)
    unfolding admit
    admit-Post h t cin cout i o v = simp (set_epoll_lem, ◌>>=◌) (linked h cin cout i o v)

    refuse-Post :
        (h : TProxy g) (t : Trace) (cin cout : ℕ)
        → Q h
        → Post (λ _ h'. Q h') Reads (refuse g cin cout k h t)
    unfolding refuse
    refuse-Post h t cin cout v = v

    join-Post :
        (b : Bool) (h : TProxy g) (t : Trace) (cin cout : ℕ)
        → N cin
        → N cout
        → Q h
        → Post (λ _ h'. Q h') Reads ((if b then refuse g cin cout else admit g cin cout) k h t)
    join-Post true h t cin cout i o v = refuse-Post h t cin cout v
    join-Post false h t cin cout i o v = admit-Post h t cin cout i o v

    connect-Post :
        (h : TProxy g) (t : Trace) (cin ip port : ℕ)
        → N cin
        → Q h
        → Post (λ _ h'. Q h') Reads ((udp_trace g >> connect_out g cin ip port) k h t)
    unfolding connect_out
    connect-Post h t cin ip port i v =
        >>=-Post (λ _ h'. h' ≡ h) (λ _ h'. Q h') Reads (udp_trace g)
          (λ _. connect_out g cin ip port) k h t (udp_trace-Post k h t)
          (λ _ h' t' e. join-Post _ h' _ cin _ i (new_out _) (subst Q (sym e) v))

    pub handle_new_connection-Post :
        (h : TProxy g) (t : Trace) (sd : ℕ)
        → Q (clear_done h)
        → Post (λ _ h'. Q h') Reads (handle_new_connection g sd k h t)
    unfolding handle_new_connection
    handle_new_connection-Post h t sd v = elim (Bool-cases (h.is_done == 1)) [
      | inl e ↦ simp (e, ◌>>=◌) (connect-Post _ _ _ _ _ (new_in _ _) (rw (e, clear_done) at v))
      | inr e ↦ simp (e, ◌>>=◌) (connect-Post _ _ _ _ _ (new_in _ _) (rw (e, clear_done) at v))
    ]
