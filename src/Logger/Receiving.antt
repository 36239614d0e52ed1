-- ===== src/Logger/Receiving.antt =====
-- loggerserver/loggerserver.c on a machine that has what it needs, and on which messages come.
use shadow_tor_eavesdropping.Base.{
  ℕ, zero, suc, ◌+◌, ◌<◌, ◌^◌, ◌==◌, ltb, Option, none, some, [], ◌∷◌, pos, Bytes, length, codes,
  ◌≡◌, refl, ap, ◌∙◌, arith, true, false, inl, inr, Bool-cases,
}
use shadow_tor_eavesdropping.Sys.{
  Kernel, Trace, Call, SockType, EpollOp, FileMode, ok, minus_one, epollin, has_in, ◌>>=◌,
}
use shadow_tor_eavesdropping.Resolve.{
  Strings, last_addr, last_found, look_up, find_addr, port_of, none_addr, loopback_addr, any_addr,
}
use shadow_tor_eavesdropping.SimpleTcp.Packets.{htons}
use shadow_tor_eavesdropping.Host.Main.{
  main, started, with_descriptor, watch_node, turns, turn, serve_node,
}
use shadow_tor_eavesdropping.TProxy.Handlers.{page_size, result_size}
use shadow_tor_eavesdropping.Logger.LoggerServer.{
  LoggerServer, loggerserver_store, loggerserver_log, loggerserver_read, loggerserver_activate,
  loggerserver_activate_all, loggerserver_ready, loggerserver_start_reader, loggerserver_bind,
  loggerserver_watch, loggerserver_get_epoll_descriptor, loggerserver_is_done,
}
use shadow_tor_eavesdropping.Logger.LoggerStart.{
  copy_path, loggerserver_fill, loggerserver_clean, loggerserver_finish, loggerserver_set_up,
  loggerserver_found, loggerserver_look_up, loggerserver_open, loggerserver_new, loggerserver_node,
  loggerserver_check, loggerserver_main,
}
use shadow_tor_eavesdropping.Logger.Path.{copy_path_lem}

-- How often `recv` was called.
unfoldable pub recvs : Trace → ℕ
recvs [] = 0
recvs (Call.recv sd n ∷ t) = suc (recvs t)
recvs (_ ∷ t) = recvs t

-- A machine on which a logger can start, with more memory than is asked for, and on which a socket
-- can be read whenever epoll is asked.
pub record IsReceiving (k : Kernel) : Type 0 where
  pub resolves :
      (t : Trace) (host : Bytes) → ltb (k.returns t (Call.getaddrinfo host)) (2 ^ 31) ≡ true
  pub finds : (t : Trace) (host : Bytes) → (ip : ℕ) × (last_addr (k.addresses t host) ≡ some ip)
  pub block : Trace → ℕ → Bytes
  pub allocates : (t : Trace) (n : ℕ) → k.memory t n ≡ some (block t n)
  pub longer : (t : Trace) (n : ℕ) → n < length (block t n)
  pub makes : (t : Trace) → (k.returns t (Call.epoll_create 1) == minus_one) ≡ false
  pub real : (t : Trace) → (k.returns t (Call.epoll_create 1) == 0) ≡ false
  pub opens : (t : Trace) → (k.returns t (Call.socket SockType.dgram) == minus_one) ≡ false
  pub binds : (t : Trace) (sd ip port : ℕ) → k.returns t (Call.bind sd ip port) ≡ 0
  pub adds :
      (t : Trace) (ed sd : ℕ)
      → (k.returns t (Call.epoll_ctl EpollOp.ctl_add ed sd epollin) == minus_one) ≡ false
  pub socket : Trace → ℕ
  pub wakes :
      (t : Trace) (ed n : ℕ) → k.polls t (Call.epoll_wait ed n) ≡ some ((socket t, epollin) ∷ [])

module _ (lib : Strings) (k : Kernel) (machine : IsReceiving k) where
  find_addr_lem :
      (host : Bytes) (h : LoggerServer) (t : Trace)
      → (ip : ℕ) × (t' : Trace) × (find_addr lib host k h t ≡ ok (some ip) h t')
        × (recvs t' ≡ recvs t)
  unfolding find_addr look_up last_found recvs
  find_addr_lem host h t =
      let (ip, last) = machine.finds t host in
      elim (Bool-cases (lib.strncasecmp_equal host (codes "none") 4)) [
        | inl nothing ↦ (none_addr, t, simp (nothing, ◌>>=◌), refl)
        | inr thing ↦ elim (Bool-cases (lib.strncasecmp_equal host (codes "localhost") 9)) [
          | inl loop ↦ (loopback_addr, t, simp (thing, loop, ◌>>=◌), refl)
          | inr not_loop ↦ elim (Bool-cases (lib.strncasecmp_equal host (codes "any") 9)) [
            | inl wild ↦ (any_addr, t, simp (thing, not_loop, wild, ◌>>=◌), refl)
            | inr named ↦ (
              ip,
              Call.getaddrinfo host ∷ t,
              simp (thing, not_loop, named, machine.resolves t host, last, ◌>>=◌),
              refl,
            )
          ]
        ]
      ]

  -- A logger that has its epoll descriptor and has read as much as before.
  abbrev Stands : ℕ → LoggerServer → Trace → Type 0
  Stands n h t = ((h.ined == 0) ≡ false) × (h.is_done ≡ 0) × (recvs t ≡ n)

  set_up_lem :
      (ed : ℕ) (text path : Bytes) (ip : ℕ) (h : LoggerServer) (t : Trace)
      → (ed == 0) ≡ false
      → (h' : LoggerServer) × (t' : Trace) × (loggerserver_set_up lib ed (some text) path ip k h t
          ≡ ok true h' t')
        × Stands (recvs t) h' t'
  unfolding loggerserver_set_up port_of loggerserver_fill loggerserver_clean
      loggerserver_start_reader loggerserver_bind loggerserver_watch loggerserver_finish recvs
  set_up_lem ed text path ip h t real =
      let room : ltb (length path) (length (machine.block t (length path))) ≡ true =
        let l = machine.longer t (length path) in ground arith in
      let copied : copy_path path k h t ≡ ok tt h (Call.allocate (length path) ∷ t) =
        copy_path_lem k h t path (machine.block t (length path)) (machine.allocates t (length path))
        ∙ simp room in
      let file = Call.open_file FileMode.creating path in
      let t1 : Trace = Call.allocate (length path) ∷ t in
      let t2 : Trace = Call.close (k.returns t1 file) ∷ file ∷ t1 in
      let sd = k.returns t2 (Call.socket SockType.dgram) in
      let port = htons (lib.atoi text) in
      let h' : LoggerServer = record {
        ined = ed;
        is_done = 0;
        ain = 0;
        asockin = sd;
        inport = port;
        good_data = pos 0;
        endread = 0;
        log_path = path;
        host_ip = ip;
      } in
      let t' : Trace =
        Call.epoll_ctl EpollOp.ctl_add ed sd epollin
        ∷ Call.bind sd ip port
        ∷ Call.socket SockType.dgram
        ∷ t2 in
      (h', t', simp (copied, machine.opens, machine.binds, machine.adds, ◌>>=◌), (real, refl, refl))

  new_lem :
      (name own text path : Bytes) (h : LoggerServer) (t : Trace)
      → (lib.strsep_colon own).1 ≡ some text
      → (h' : LoggerServer) × (t' : Trace) × (loggerserver_new lib (name ∷ own ∷ path ∷ []) k h t
          ≡ ok true h' t')
        × Stands (recvs t) h' t'
  unfolding loggerserver_new loggerserver_open loggerserver_look_up loggerserver_found recvs
  new_lem name own text path h t port =
      let c = Call.epoll_create 1 in
      let (ip, t1, found, quiet) = find_addr_lem (lib.strsep_colon own).0 h (c ∷ t) in
      let (h', t', ran, (real, going, same)) =
        set_up_lem (k.returns t c) text path ip h t1 (machine.real t) in
      (h', t', simp (machine.makes t, found, port, ◌>>=◌) ran, (real, going, same ∙ quiet))

  log_lem :
      (got : Option Bytes) (h : LoggerServer) (t : Trace)
      → (t' : Trace) × (loggerserver_log got k h t ≡ ok tt h t') × (recvs t' ≡ recvs t)
  unfolding loggerserver_log loggerserver_store recvs
  log_lem none h t = (t, refl, refl)
  log_lem (some []) h t = (t, refl, refl)
  log_lem (some (b ∷ bs)) h t = (_, refl, refl)

  -- A turn reads once.
  ready_lem :
      (n : ℕ) (h : LoggerServer) (t : Trace)
      → Stands n h t
      → (h' : LoggerServer) × (t' : Trace) × (loggerserver_ready k h t ≡ ok tt h' t')
        × Stands (suc n) h' t'
  unfolding loggerserver_ready loggerserver_activate_all loggerserver_activate loggerserver_read
      recvs
  ready_lem n h t (real, going, read) =
      let t1 : Trace = Call.epoll_wait h.ined 10 ∷ t in
      let c = Call.recv (machine.socket t) page_size in
      let h1 : LoggerServer = record h { endread = 0; good_data = result_size (k.receives t1 c) } in
      let (t', ran, same) = log_lem (k.receives t1 c) h1 (c ∷ t1) in
      (h1, t', simp (machine.wakes, has_in, ran, ◌>>=◌), (real, going, same ∙ ap suc read))

  turns_lem :
      (n m ed : ℕ) (h : LoggerServer) (t : Trace)
      → Stands m h t
      → (h' : LoggerServer) × (t' : Trace) × (turns
            (loggerserver_node lib)
            epollin
            (loggerserver_check lib)
            n
            ed
            k
            h
            t
          ≡ ok none h' t')
        × (recvs t' ≡ n + m)
  unfolding turns turn serve_node loggerserver_check loggerserver_is_done recvs
  turns_lem zero m ed h t (real, going, read) = (h, t, refl, omega (arith, read))
  turns_lem (suc n) m ed h t stands =
      let (h1, t1, ran, (real, going, read)) = ready_lem m h (Call.epoll_wait ed 100 ∷ t) stands in
      let (h2, t2, ran2, all) = turns_lem n (suc m) ed h1 t1 (real, going, read) in
      (h2, t2, simp (machine.wakes, ran, going, ◌>>=◌) ran2, omega (arith, all))

  -- `main` starts, and after `n` turns it is in its loop and has called `recv` `n` times.
  pub main_receives :
      (n : ℕ) (name own text path : Bytes) (h : LoggerServer)
      → (lib.strsep_colon own).1 ≡ some text
      → (h' : LoggerServer) × (t' : Trace) × (loggerserver_main lib n
            (name ∷ own ∷ path ∷ [])
            k
            h
            []
          ≡ ok none h' t')
        × (recvs t' ≡ n)
  unfolding loggerserver_main main started with_descriptor watch_node recvs
      loggerserver_get_epoll_descriptor
  main_receives n name own text path h port =
      let (h1, t1, made, (real, going, read)) = new_lem name own text path h [] port in
      let c = Call.epoll_create 1 in
      let ed = k.returns t1 c in
      let watch = Call.epoll_ctl EpollOp.ctl_add ed h1.ined epollin in
      let (h2, t2, ran, all) = turns_lem n 0 ed h1 (watch ∷ c ∷ t1) (real, going, read) in
      (h2, t2, simp (made, machine.makes, real, ◌>>=◌) ran, omega (arith, all))
