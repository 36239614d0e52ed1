-- ===== src/TProxy/Flow/Start.antt =====
-- How tropeaproxy/tproxy.c starts on a machine that has what it needs.
use shadow_tor_eavesdropping.Base.{
  ℕ, suc, ◌==◌, ◌/=◌, ◌&&◌, not, ◌^◌, ltb, if◌then◌else◌, true, false, none, some, List, [], ◌∷◌,
  Bytes, codes, ◌≡◌, ◌≢◌, refl, sym, ap, inl, inr, Bool-cases, eq_true, eq_false,
}
use shadow_tor_eavesdropping.Sys.{
  Kernel, Trace, Call, SockType, EpollOp, ok, minus_one, epollin, einprogress, ◌>>=◌,
}
use shadow_tor_eavesdropping.Glib.{HashTable}
use shadow_tor_eavesdropping.Resolve.{
  Strings, last_addr, last_found, look_up, find_addr, dns_query, port_of, none_addr, loopback_addr,
  any_addr,
}
use shadow_tor_eavesdropping.SimpleTcp.Packets.{htons}
use shadow_tor_eavesdropping.TProxy.State.{TProxy}
use shadow_tor_eavesdropping.TProxy.Handlers.{max_clients, is_null}
use shadow_tor_eavesdropping.TProxy.Relay.{sends, receipts}
use shadow_tor_eavesdropping.TProxy.Watching.{watched}
use shadow_tor_eavesdropping.TProxy.Startup.{
  is_server, prepare_to_trace, watch_reader, listen_reader, bind_reader, start_reader, finish, fill,
  addresses, ports, bring_up, set_up, open_up, tproxy_new,
}

-- How many sockets for streams were asked for.
abbrev counted : SockType → ℕ → ℕ
counted SockType.stream n = suc n
counted SockType.dgram n = n

unfoldable pub streams : Trace → ℕ
streams [] = 0
streams (Call.socket type ∷ t) = let rest = streams t in counted type rest
streams (_ ∷ t) = streams t

-- A machine on which a proxy can start and take a connection: every name has an address, the epoll
-- sets of the program and of `main` differ, the socket that listens, the one to the server and the
-- one that `accept` gives differ, and ports can be bound and servers reached.
pub record HasSockets (k : Kernel) : Type 0 where
  pub own_set : ℕ
  pub main_set : ℕ
  pub listener : ℕ
  pub near : ℕ
  pub far : ℕ
  pub finds : (t : Trace) (host : Bytes) → (ip : ℕ) × (last_addr (k.addresses t host) ≡ some ip)
  pub makes_own : (t : Trace) → k.returns t (Call.epoll_create max_clients) ≡ own_set
  pub makes_main : (t : Trace) → k.returns t (Call.epoll_create 1) ≡ main_set
  pub first_socket :
      (t : Trace) → streams t ≡ 0 → k.returns t (Call.socket SockType.stream) ≡ listener
  pub second_socket : (t : Trace) → streams t ≡ 1 → k.returns t (Call.socket SockType.stream) ≡ far
  pub accepts : (t : Trace) (sd : ℕ) → k.returns t (Call.accept sd) ≡ near
  pub binds : (t : Trace) (sd ip port : ℕ) → k.returns t (Call.bind sd ip port) ≡ 0
  pub hears : (t : Trace) (sd n : ℕ) → k.returns t (Call.listen sd n) ≡ 0
  pub adds :
      (t : Trace) (ed sd events : ℕ)
      → (k.returns t (Call.epoll_ctl EpollOp.ctl_add ed sd events) == minus_one)
        ≡ not (is_null (watched ed t sd))
  pub reaches :
      (t : Trace) (sd ip port : ℕ)
      → (k.returns t (Call.connect sd ip port) /= 0
          && k.errno (Call.connect sd ip port ∷ t) /= einprogress)
        ≡ false
  pub own_real : own_set ≢ 0
  pub own_made : own_set ≢ minus_one
  pub main_made : main_set ≢ minus_one
  pub sets_differ : main_set ≢ own_set
  pub listener_made : listener ≢ minus_one
  pub ends_differ : near ≢ far
  pub near_new : near ≢ listener
  pub far_new : far ≢ listener

-- An argument `host:port`.
abbrev pub IsPlace : Strings → Bytes → Type 0
IsPlace lib address = (text : Bytes) × ((lib.strsep_colon address).1 ≡ some text)

module _ (g : HashTable ℕ) (lib : Strings) (k : Kernel) (machine : HasSockets k) where
  -- The program has its epoll set, and nothing else was done yet.
  abbrev Quiet : Trace → Type 0
  Quiet t =
      (sends t ≡ [])
      × (receipts k t ≡ [])
      × (streams t ≡ 0)
      × ((j : ℕ) → watched machine.own_set t j ≡ none)

  dns_query_lem :
      (host : Bytes) (h : TProxy g) (t : Trace)
      → Quiet t
      → (ip : ℕ) × (t' : Trace) × (dns_query lib host k h t ≡ ok ip h t') × Quiet t'
  unfolding dns_query find_addr look_up last_found sends receipts streams watched
  dns_query_lem host h t quiet = elim (Bool-cases (lib.strncasecmp_equal host (codes "none") 4)) [
    | inl nothing ↦ (none_addr, t, simp (nothing, ◌>>=◌), quiet)
    | inr thing ↦ elim (Bool-cases (lib.strncasecmp_equal host (codes "localhost") 9)) [
      | inl loop ↦ (loopback_addr, t, simp (thing, loop, ◌>>=◌), quiet)
      | inr not_loop ↦ elim (Bool-cases (lib.strncasecmp_equal host (codes "any") 9)) [
        | inl wild ↦ (any_addr, t, simp (thing, not_loop, wild, ◌>>=◌), quiet)
        | inr named ↦
            let (ip, last) = machine.finds t host in
            let t1 : Trace = Call.getaddrinfo host ∷ t in
            elim (Bool-cases (ltb (k.returns t (Call.getaddrinfo host)) (2 ^ 31))) [
              | inl fine ↦ (ip, t1, simp (thing, not_loop, named, fine, last, ◌>>=◌), quiet)
              | inr lost ↦ (minus_one, t1, simp (thing, not_loop, named, lost, ◌>>=◌), quiet)
            ]
      ]
    ]
  ]

  addresses_lem :
      (own out logger : Bytes) (h : TProxy g) (t : Trace)
      → Quiet t
      → (at : ℕ × ℕ × ℕ) × (t' : Trace) × (addresses g lib own out logger k h t ≡ ok at h t')
        × Quiet t'
  unfolding addresses
  addresses_lem own out logger h t quiet =
      let (a, t1, ran1, quiet1) = dns_query_lem (lib.strsep_colon own).0 h t quiet in
      let (b, t2, ran2, quiet2) = dns_query_lem (lib.strsep_colon out).0 h t1 quiet1 in
      let (c, t3, ran3, quiet3) = dns_query_lem (lib.strsep_colon logger).0 h t2 quiet2 in
      ((a, b, c), t3, simp (ran1, ran2, ran3, ◌>>=◌), quiet3)

  ports_lem :
      (own out logger : Bytes) (h : TProxy g) (t : Trace)
      → IsPlace lib own
      → IsPlace lib out
      → IsPlace lib logger
      → (through : ℕ × ℕ × ℕ) × (ports g lib own out logger k h t ≡ ok through h t)
  unfolding ports port_of
  ports_lem own out logger h t (a, own_port) (b, out_port) (c, logger_port) = (
    (htons (lib.atoi a), htons (lib.atoi b), htons (lib.atoi c)),
    simp (own_port, out_port, logger_port, ◌>>=◌),
  )

  -- A proxy that was made: it waits for connections and has none.
  abbrev pub IsReady : TProxy g → Trace → Type 0
  IsReady h t =
      (h.ined ≡ machine.own_set)
      × (h.is_done ≡ 0)
      × (h.asockin ≡ machine.listener)
      × (sends t ≡ [])
      × (receipts k t ≡ [])
      × (streams t ≡ 1)
      × (watched machine.own_set t machine.near ≡ none)
      × (watched machine.own_set t machine.far ≡ none)

  bring_up_lem :
      (at through : ℕ × ℕ × ℕ) (argv : List Bytes) (h : TProxy g) (t : Trace)
      → Quiet t
      → (h' : TProxy g) × (t' : Trace) × (bring_up g lib machine.own_set at through argv k h t
          ≡ ok true h' t')
        × IsReady h' t'
  unfolding bring_up fill prepare_to_trace start_reader bind_reader listen_reader watch_reader
      finish sends receipts streams watched
  bring_up_lem (inaddr, outaddr, traceaddr) (inport, outport, traceport) argv h t
        (said, heard, none_yet, unwatched) =
      let ed = machine.own_set in
      let sd = machine.listener in
      let tracer = k.returns t (Call.socket SockType.dgram) in
      let t1 : Trace = Call.socket SockType.dgram ∷ t in
      let t2 : Trace = Call.socket SockType.stream ∷ t1 in
      let t3 : Trace = Call.bind sd inaddr inport ∷ t2 in
      let t4 : Trace = Call.listen sd 10 ∷ t3 in
      let h' : TProxy g = record {
        ined = ed;
        is_done = 0;
        asockin = sd;
        outport = outport;
        inport = inport;
        traceport = traceport;
        host_ip = inaddr;
        remote_ip = outaddr;
        trace_ip = traceaddr;
        server_mode = if is_server g lib argv then 1 else 0;
        tracer_socket = tracer;
        tracer_port = traceport;
        tracer_addr = traceaddr;
        hashmap = g.new;
        partners = h.partners;
        next = h.next;
      } in
      (
        h',
        Call.epoll_ctl EpollOp.ctl_add ed sd epollin ∷ t4,
        simp (
          machine.first_socket t1 none_yet,
          eq_false sd minus_one machine.listener_made,
          machine.binds t2 sd inaddr inport,
          machine.hears t3 sd 10,
          machine.adds t4 ed sd epollin,
          unwatched sd,
          ◌>>=◌,
        ),
        (
          refl,
          refl,
          refl,
          said,
          heard,
          ap suc none_yet,
          simp (eq_false sd machine.near (λ e. machine.near_new (sym e)), eq_true ed)
              (unwatched machine.near),
          simp (eq_false sd machine.far (λ e. machine.far_new (sym e)), eq_true ed)
              (unwatched machine.far),
        ),
      )

  pub tproxy_new_lem :
      (name own out logger : Bytes) (rest : List Bytes) (h : TProxy g)
      → IsPlace lib own
      → IsPlace lib out
      → IsPlace lib logger
      → (h' : TProxy g) × (t' : Trace) × (tproxy_new g lib (name ∷ own ∷ out ∷ logger ∷ rest) k h []
          ≡ ok true h' t')
        × IsReady h' t'
  unfolding tproxy_new open_up set_up sends receipts streams watched
  tproxy_new_lem name own out logger rest h own_place out_place logger_place =
      let argv = name ∷ own ∷ out ∷ logger ∷ rest in
      let t1 : Trace = Call.epoll_create max_clients ∷ Call.gethostname 1024 ∷ [] in
      let (at, t2, ran2, quiet) = addresses_lem own out logger h t1 (refl, refl, refl, λ j. refl) in
      let (through, ran3) = ports_lem own out logger h t2 own_place out_place logger_place in
      let (h', t', ran, is_ready) = bring_up_lem at through argv h t2 quiet in
      (
        h',
        t',
        simp
            (
              machine.makes_own (Call.gethostname 1024 ∷ []),
              eq_false machine.own_set minus_one machine.own_made,
              ran2,
              ran3,
              ◌>>=◌,
            )
            ran,
        is_ready,
      )
