-- ===== src/AutoSys/Same.antt =====
-- The handlers of autosys/autosys.c beside those of tropeaproxy/tproxy.c.
use shadow_tor_eavesdropping.Base.{
  ℕ, zero, suc, ◌==◌, ◌/=◌, ◌&&◌, not, if◌then◌else◌, Bool, Option, none, some, List, [], ◌∷◌, ℤ,
  pos, negsuc, refl, arith, inl, inr, Bool-cases, Option-cases,
}
use shadow_tor_eavesdropping.Sys.{
  Call, SockType, M, ◌>>=◌, ◌>>◌, skip, pure, quit, has, epollin, epollout, einprogress,
}
use shadow_tor_eavesdropping.Sys.Simulation.{Simulates, >>=-Simulates, if-Simulates}
use shadow_tor_eavesdropping.Glib.{HashTable}
use shadow_tor_eavesdropping.TProxy.Buffers.{free, payload, memset_zero}
use shadow_tor_eavesdropping.TProxy.State.{TProxy}
use shadow_tor_eavesdropping.TProxy.Package.{side, build_trace_package, udp_trace}
use shadow_tor_eavesdropping.TProxy.Epoll.{set_epoll}
use shadow_tor_eavesdropping.TProxy.Relay.{set_epoll_lem}
use shadow_tor_eavesdropping.TProxy.Handlers.{
  page_size, max_clients, is_nonzero, is_null, disaster_recovery, forget, close_connections, link,
  refuse, admit, connect_out, handle_new_connection, shrink, handle_read, handle_write, settle,
  read_from, on_input, write_to, on_output, activate_tproxy, activate_all, tproxy_ready,
}
use shadow_tor_eavesdropping.AutoSys.State.{As}
use shadow_tor_eavesdropping.AutoSys.Package.{as_side, as_build_trace_package, as_udp_trace}
use shadow_tor_eavesdropping.AutoSys.Handlers.{
  as_disaster_recovery, as_forget, as_close_connections, as_link, as_refuse, as_admit,
  as_connect_out, as_handle_new_connection, as_shrink, as_handle_read, as_handle_write, as_settle,
  as_read_from, as_on_input, as_write_to, as_on_output, as_activate, as_activate_all, as_ready,
}

module _ (g : HashTable ℕ) where
  -- A state of the autonomous system, as one of the transparent proxy.
  abbrev pub as_tproxy : As g → TProxy g
  as_tproxy a = record {
    ined = a.ined;
    is_done = a.is_done;
    asockin = a.asockin;
    outport = a.outport;
    inport = a.inport;
    traceport = a.traceport;
    host_ip = a.host_ip;
    remote_ip = a.remote_ip;
    trace_ip = a.trace_ip;
    server_mode = a.server_mode;
    tracer_socket = a.tracer_socket;
    tracer_port = a.tracer_port;
    tracer_addr = a.tracer_addr;
    hashmap = a.hashmap;
    partners = a.partners;
    next = a.next;
  }

  abbrev pub Same : {A : Type 0} → M (As g) A → M (TProxy g) A → Type 0
  Same = Simulates as_tproxy

  pub set_epoll-Same : (ed sd events : ℕ) → Same (set_epoll ed sd events) (set_epoll ed sd events)
  set_epoll-Same ed sd events k h t = simp set_epoll_lem

  udp_trace-Same : Same (as_udp_trace g) (udp_trace g)
  unfolding as_udp_trace udp_trace as_build_trace_package build_trace_package as_side side
  udp_trace-Same k h t = ground arith

  disaster_recovery-Same : (p : ℕ) → Same (as_disaster_recovery g p) (disaster_recovery g p)
  unfolding as_disaster_recovery disaster_recovery
  disaster_recovery-Same p k h t = ground arith

  forget-Same : (sd : ℕ) → Same (as_forget g sd) (forget g sd)
  forget-Same sd k h t = refl

  close_connections-Same :
      (sd p : ℕ) → Same (as_close_connections g sd p) (close_connections g sd p)
  unfolding as_close_connections close_connections
  close_connections-Same sd p k h t =
      >>=-Simulates as_tproxy
        (if is_nonzero (h.partners p).bufsize then as_disaster_recovery g p else skip)
        (if is_nonzero (h.partners p).bufsize then disaster_recovery g p else skip)
        (λ _. as_forget g sd) (λ _. forget g sd)
        (if-Simulates as_tproxy (is_nonzero (h.partners p).bufsize) _ _ _ _
          (disaster_recovery-Same p) (λ k s t. refl))
        (λ _. forget-Same sd) k h _

  admit-Same : (cin cout : ℕ) → Same (as_admit g cin cout) (admit g cin cout)
  unfolding as_admit admit as_link link
  admit-Same cin cout k h t = simp (set_epoll_lem, ◌>>=◌)

  refuse-Same : (cin cout : ℕ) → Same (as_refuse g cin cout) (refuse g cin cout)
  unfolding as_refuse refuse
  refuse-Same cin cout k h t = refl

  connect_out-Same :
      (cin ip port : ℕ) → Same (as_connect_out g cin ip port) (connect_out g cin ip port)
  unfolding as_connect_out connect_out
  connect_out-Same cin ip port k h t =
      let c = Call.socket SockType.stream in
      let cout = k.returns t c in
      let d = Call.connect cout ip port in
      if-Simulates as_tproxy (k.returns (c ∷ t) d /= 0 && k.errno (d ∷ c ∷ t) /= einprogress) _ _ _
        _ (refuse-Same cin cout) (admit-Same cin cout) k h (d ∷ c ∷ t)

  join-Same :
      (cin ip port : ℕ)
      → Same
          (as_udp_trace g >> as_connect_out g cin ip port)
          (udp_trace g >> connect_out g cin ip port)
  join-Same cin ip port =
      >>=-Simulates as_tproxy (as_udp_trace g) (udp_trace g) (λ _. as_connect_out g cin ip port)
        (λ _. connect_out g cin ip port) udp_trace-Same (λ _. connect_out-Same cin ip port)

  handle_new_connection-Same :
      (sd : ℕ) → Same (as_handle_new_connection g sd) (handle_new_connection g sd)
  unfolding as_handle_new_connection handle_new_connection
  handle_new_connection-Same sd k h t = elim (Bool-cases (h.is_done == 1)) [
    | inl e ↦ simp (e, ◌>>=◌) (join-Same _ _ _ k _ _)
    | inr e ↦ simp (e, ◌>>=◌) (join-Same _ _ _ k _ _)
  ]

  shrink-Same : (p : ℕ) → Same (as_shrink g p) (shrink g p)
  unfolding as_shrink shrink
  shrink-Same p k h t = ground arith

  handle_read-Same : (sd p : ℕ) → Same (as_handle_read g sd p) (handle_read g sd p)
  unfolding as_handle_read handle_read
  handle_read-Same sd p k h t = elim (Option-cases (k.memory t page_size)) [
    | inl e ↦ simp (e, ◌>>=◌)
    | inr (m, e) ↦
        simp (e, set_epoll_lem, ◌>>=◌)
          (if-Simulates as_tproxy _ (pure (pos 1)) (as_shrink g p) (pure (pos 1)) (shrink g p)
            (λ k s t. refl) (shrink-Same p) k _ _)
  ]

  handle_write-Same :
      (sd out me : ℕ) → Same (as_handle_write g sd out me) (handle_write g sd out me)
  unfolding as_handle_write handle_write
  handle_write-Same sd out me k h t =
      let m = h.partners me in
      elim (Option-cases (payload m.buf m.bufsize)) [
        | inl e ↦ simp (e, ◌>>=◌)
        | inr (bytes, e) ↦ elim (Option-cases (free (memset_zero 0 m.buf))) [
          | inl f ↦ simp (e, f, ◌>>=◌)
          | inr (buf, f) ↦ simp (e, f, set_epoll_lem, ◌>>=◌)
        ]
      ]

  settle-Same : (res : ℤ) (sd p : ℕ) → Same (as_settle g sd p res) (settle g sd p res)
  unfolding as_settle settle
  settle-Same (pos zero) sd p k h t = refl
  settle-Same (pos (suc n)) sd p k h t = close_connections-Same sd p k h t
  settle-Same (negsuc n) sd p k h t = refl

  read_from-Same :
      (partner : Option ℕ) (sd : ℕ) → Same (as_read_from g sd partner) (read_from g sd partner)
  unfolding as_read_from read_from
  read_from-Same none sd k h t = refl
  read_from-Same (some p) sd k h t =
      >>=-Simulates as_tproxy (as_handle_read g sd p) (handle_read g sd p) (as_settle g sd p)
        (settle g sd p) (handle_read-Same sd p) (λ res. settle-Same res sd p) k h t

  on_input-Same :
      (sd : ℕ) (partner : Option ℕ) → Same (as_on_input g sd partner) (on_input g sd partner)
  unfolding as_on_input on_input
  on_input-Same sd partner k h t =
      if-Simulates as_tproxy (sd == h.asockin) (as_handle_new_connection g sd)
        (as_read_from g sd partner) (handle_new_connection g sd) (read_from g sd partner)
        (handle_new_connection-Same sd) (read_from-Same partner sd) k h t

  write_to-Same :
      (me : Option ℕ) (sd p other : ℕ)
      → Same (as_write_to g sd p other me) (write_to g sd p other me)
  unfolding as_write_to write_to
  write_to-Same none sd p other k h t =
      if-Simulates as_tproxy (h.is_done == 1) (as_close_connections g sd p) (quit 1)
        (close_connections g sd p) (quit 1) (close_connections-Same sd p) (λ k s t. refl) k h t
  write_to-Same (some me) sd p other k h t =
      >>=-Simulates as_tproxy (as_handle_write g sd other me) (handle_write g sd other me)
        (λ _. skip) (λ _. skip) (handle_write-Same sd other me) (λ _ k s t. refl) k h t

  on_output-Same :
      (sd : ℕ) (partner : Option ℕ) → Same (as_on_output g sd partner) (on_output g sd partner)
  unfolding as_on_output on_output
  on_output-Same sd none k h t = refl
  on_output-Same sd (some p) k h t =
      let other = (h.partners p).sd in write_to-Same (g.lookup other h.hashmap) sd p other k h t

  branch-Same :
      (b : Bool) (m : M (As g) (Unit {0})) (n : M (TProxy g) (Unit {0}))
      → Same m n
      → Same (if b then m else skip) (if b then n else skip)
  branch-Same b m n same = if-Simulates as_tproxy b m skip n skip same (λ k s t. refl)

  -- What is done for `sd` once its partner was looked up.
  branches-Same :
      (i o : Bool) (sd : ℕ) (partner : Option ℕ)
      → Same
          ((if i then as_on_input g sd partner else skip)
            >> (if o then as_on_output g sd partner else skip))
          ((if i then on_input g sd partner else skip)
            >> (if o then on_output g sd partner else skip))
  branches-Same i o sd partner =
      >>=-Simulates as_tproxy (if i then as_on_input g sd partner else skip)
        (if i then on_input g sd partner else skip)
        (λ _. if o then as_on_output g sd partner else skip)
        (λ _. if o then on_output g sd partner else skip)
        (branch-Same i _ _ (on_input-Same sd partner))
        (λ _. branch-Same o _ _ (on_output-Same sd partner))

  pub activate-Same : (sd events : ℕ) → Same (as_activate g sd events) (activate_tproxy g sd events)
  unfolding as_activate activate_tproxy
  activate-Same sd events k h t =
      elim (Bool-cases (is_null (g.lookup sd h.hashmap) && not (sd == h.asockin))) [
        | inl e ↦ simp (e, ◌>>=◌)
        | inr e ↦
            simp (e, ◌>>=◌)
              (branches-Same (has events epollin) (has events epollout) sd (g.lookup sd h.hashmap) k
                h t)
      ]

  activate_all-Same : (ready : List (ℕ × ℕ)) → Same (as_activate_all g ready) (activate_all g ready)
  unfolding as_activate_all activate_all
  activate_all-Same [] k h t = refl
  activate_all-Same ((sd, events) ∷ rest) k h t =
      >>=-Simulates as_tproxy (as_activate g sd events) (activate_tproxy g sd events)
        (λ _. as_activate_all g rest) (λ _. activate_all g rest) (activate-Same sd events)
        (λ _. activate_all-Same rest) k h t

  -- For every kernel, state and history, a run of `as_ready` makes the same calls and ends the same
  -- way as a run of `tproxy_ready` from the same state, and leaves the same state.
  pub as_ready-Same : Same (as_ready g) (tproxy_ready g)
  unfolding as_ready tproxy_ready
  as_ready-Same k h t = elim (Option-cases (k.polls t (Call.epoll_wait h.ined max_clients))) [
    | inl e ↦ simp e
    | inr (ready, e) ↦ simp e (activate_all-Same ready k h _)
  ]
