-- ===== src/AutoSys/SameStart.antt =====
-- The start of autosys/autosys.c beside that of tropeaproxy/tproxy.c.
use shadow_tor_eavesdropping.Base.{
  ℕ, ◌==◌, false, List, [], ◌∷◌, Bytes, refl, arith, inl, inr, Bool-cases,
}
use shadow_tor_eavesdropping.Sys.{Kernel, Trace, Call, M, Post, ◌>>=◌, pure, minus_one}
use shadow_tor_eavesdropping.Sys.Simulation.{>>=-Simulates, Post-along}
use shadow_tor_eavesdropping.Glib.{HashTable}
use shadow_tor_eavesdropping.TProxy.State.{TProxy}
use shadow_tor_eavesdropping.TProxy.Handlers.{max_clients}
use shadow_tor_eavesdropping.TProxy.Startup.{
  is_server, prepare_to_trace, watch_reader, listen_reader, bind_reader, start_reader, tproxy_free,
  finish, fill, addresses, ports, bring_up, set_up, give_up, open_up, tproxy_new, tproxy_node,
  tproxy_main,
}
use shadow_tor_eavesdropping.Resolve.{Strings, dns_query, port_of}
use shadow_tor_eavesdropping.Resolve.Laws.{dns_query-Simulates, port_of-Simulates}
use shadow_tor_eavesdropping.AutoSys.State.{As}
use shadow_tor_eavesdropping.AutoSys.Startup.{
  as_is_server, as_prepare_to_trace, as_watch_reader, as_listen_reader, as_bind_reader,
  as_start_reader, as_free, as_finish, as_fill, as_addresses, as_ports, as_bring_up, as_set_up,
  as_give_up, as_open_up, as_new, as_node, as_main,
}
use shadow_tor_eavesdropping.AutoSys.Same.{as_tproxy, Same, as_ready-Same}
use shadow_tor_eavesdropping.AutoSys.Handlers.{as_get_epoll_descriptor}
use shadow_tor_eavesdropping.TProxy.Handlers.{tproxy_get_epoll_descriptor}
use shadow_tor_eavesdropping.Sys.{epollin}
use shadow_tor_eavesdropping.Host.Simulated.{Alike, main-Simulates}
use shadow_tor_eavesdropping.TProxy.Safety.Transfers.{Reads}
use shadow_tor_eavesdropping.TProxy.Lifetime.{IsStarted, live-IsStarted}

module _ (g : HashTable ℕ) (lib : Strings) where
  start_reader-Same : Same g (as_start_reader g lib) (start_reader g lib)
  unfolding as_start_reader start_reader as_bind_reader bind_reader as_listen_reader listen_reader
      as_watch_reader watch_reader
  start_reader-Same k h t = ground arith

  finish-Same : (r : ℕ) → Same g (as_finish g lib r) (finish g lib r)
  unfolding as_finish finish as_free tproxy_free
  finish-Same r k h t = ground arith

  -- One question three times.
  three-Same :
      {X : Type 0} (m : X → M (As g) ℕ) (n : X → M (TProxy g) ℕ) (x y z : X)
      (f : ℕ → ℕ → ℕ → ℕ × ℕ × ℕ)
      → ((w : X) → Same g (m w) (n w))
      → Same g
          (m x >>= λ a. m y >>= λ b. m z >>= λ c. pure (f a b c))
          (n x >>= λ a. n y >>= λ b. n z >>= λ c. pure (f a b c))
  three-Same m n x y z f same =
      >>=-Simulates (as_tproxy g) (m x) (n x) (λ a. m y >>= λ b. m z >>= λ c. pure (f a b c))
        (λ a. n y >>= λ b. n z >>= λ c. pure (f a b c)) (same x)
        λ a.
          >>=-Simulates (as_tproxy g) (m y) (n y) (λ b. m z >>= λ c. pure (f a b c))
            (λ b. n z >>= λ c. pure (f a b c)) (same y)
            λ b.
              >>=-Simulates (as_tproxy g) (m z) (n z) (λ c. pure (f a b c)) (λ c. pure (f a b c))
                (same z) λ c k s t. refl

  addresses-Same :
      (own out logger : Bytes)
      → Same g (as_addresses g lib own out logger) (addresses g lib own out logger)
  unfolding as_addresses addresses
  addresses-Same own out logger =
      three-Same (dns_query lib) (dns_query lib) (lib.strsep_colon own).0 (lib.strsep_colon out).0
        (lib.strsep_colon logger).0 (λ a b c. (a, b, c)) (dns_query-Simulates (as_tproxy g) lib)

  ports-Same :
      (own out logger : Bytes) → Same g (as_ports g lib own out logger) (ports g lib own out logger)
  unfolding as_ports ports
  ports-Same own out logger =
      three-Same (port_of lib) (port_of lib) (lib.strsep_colon out).1 (lib.strsep_colon own).1
        (lib.strsep_colon logger).1 (λ a b c. (b, a, c)) (port_of-Simulates (as_tproxy g) lib)

  bring_up-Same :
      (ed : ℕ) (at through : ℕ × ℕ × ℕ) (argv : List Bytes)
      → Same g (as_bring_up g lib ed at through argv) (bring_up g lib ed at through argv)
  unfolding as_bring_up bring_up as_fill fill as_prepare_to_trace prepare_to_trace as_is_server
      is_server
  bring_up-Same ed at through argv k h t =
      >>=-Simulates (as_tproxy g) (as_start_reader g lib) (start_reader g lib) (as_finish g lib)
        (finish g lib) start_reader-Same finish-Same k _ _

  set_up-Same :
      (ed : ℕ) (own out logger : Bytes) (argv : List Bytes)
      → Same g (as_set_up g lib ed own out logger argv) (set_up g lib ed own out logger argv)
  unfolding as_set_up set_up
  set_up-Same ed own out logger argv =
      >>=-Simulates (as_tproxy g) (as_addresses g lib own out logger)
        (addresses g lib own out logger)
        (λ at. as_ports g lib own out logger >>= λ through. as_bring_up g lib ed at through argv)
        (λ at. ports g lib own out logger >>= λ through. bring_up g lib ed at through argv)
        (addresses-Same own out logger)
        λ at.
          >>=-Simulates (as_tproxy g) (as_ports g lib own out logger) (ports g lib own out logger)
            (λ through. as_bring_up g lib ed at through argv)
            (λ through. bring_up g lib ed at through argv) (ports-Same own out logger)
            λ through. bring_up-Same ed at through argv

  open_up-Same :
      (own out logger : Bytes) (argv : List Bytes)
      → Same g (as_open_up g lib own out logger argv) (open_up g lib own out logger argv)
  unfolding as_open_up open_up as_give_up give_up
  open_up-Same own out logger argv k h t =
      let t' : Trace = Call.gethostname 1024 ∷ t in
      let ed = k.returns t' (Call.epoll_create max_clients) in
      elim (Bool-cases (ed == minus_one)) [
        | inl e ↦ simp (e, ◌>>=◌)
        | inr e ↦ simp (e, ◌>>=◌) (set_up-Same ed own out logger argv k h _)
      ]

  -- For every kernel, memory and history, and all arguments, `as_new` makes the same calls as
  -- `tproxy_new`, ends the same way, and leaves the same state.
  pub as_new-Same : (argv : List Bytes) → Same g (as_new g lib argv) (tproxy_new g lib argv)
  unfolding as_new tproxy_new
  as_new-Same [] k h t = refl
  as_new-Same (a ∷ []) k h t = refl
  as_new-Same (a ∷ b ∷ []) k h t = refl
  as_new-Same (a ∷ b ∷ c ∷ []) k h t = refl
  as_new-Same (a ∷ b ∷ c ∷ d ∷ rest) k h t = open_up-Same b c d (a ∷ b ∷ c ∷ d ∷ rest) k h t

  pub as_node-Alike : Alike (as_tproxy g) (as_node g lib) (tproxy_node g lib)
  unfolding as_free tproxy_free as_get_epoll_descriptor tproxy_get_epoll_descriptor
  as_node-Alike = record {
    creates = as_new-Same;
    releases = λ k h t. ground arith;
    readies = as_ready-Same g;
    describes = λ h. refl;
  }

  -- For every kernel, memory and history, all arguments and any number of turns of its loop, `main`
  -- of the autonomous system makes the same calls as `main` of the transparent proxy, ends the same
  -- way, and leaves the same state.
  pub as_main-Same :
      (n : ℕ) (argv : List Bytes) → Same g (as_main g lib n argv) (tproxy_main g lib n argv)
  unfolding as_main tproxy_main
  as_main-Same =
      main-Simulates (as_tproxy g) (as_node g lib) (tproxy_node g lib) as_node-Alike epollin
        (pure false) (pure false) (λ k h t. refl)

  -- For all arguments, every kernel and whatever stood in memory before: when `main` of the
  -- autonomous system has come through its start and any number of turns of its loop, and has not
  -- returned, the invariant of the transparent proxy holds of its state; and if it ends in a fault,
  -- that is not a read from a message that is not there in full.
  pub as_main-IsStarted :
      (n : ℕ) (argv : List Bytes) (k : Kernel) (h : As g) (t : Trace)
      → Post (λ r h'. IsStarted g r (as_tproxy g h')) Reads (as_main g lib n argv k h t)
  as_main-IsStarted n argv k h t =
      Post-along (as_tproxy g) (IsStarted g) Reads (as_main g lib n argv k h t)
        (rw (as_main-Same n argv k h t) (live-IsStarted g lib argv n k (as_tproxy g h) t))
