-- ===== src/TProxy/Flow/Opening.antt =====
-- A connection through the main loop of tropeaproxy/tproxy.c, from its `accept` on.
use shadow_tor_eavesdropping.Base.{
  ℕ, suc, ◌*◌, ◌/=◌, ◌&&◌, ◌≤◌, false, Option, none, some, [], ◌∷◌, ◌++◌, Bytes, length, ◌≡◌, ◌≢◌,
  sym, ap, ◌∙◌, arith, eq_true, eq_false,
}
use shadow_tor_eavesdropping.Sys.{
  Kernel, M, Trace, Call, SockType, Outcome, ok, epollin, einprogress, event_bits, ◌>>=◌, ◌>>◌,
  pure,
}
use shadow_tor_eavesdropping.Glib.{HashTable}
use shadow_tor_eavesdropping.Resolve.{Strings}
use shadow_tor_eavesdropping.Host.Main.{turns}
use shadow_tor_eavesdropping.TProxy.State.{TProxy, update_same, update_other}
use shadow_tor_eavesdropping.TProxy.Handlers.{
  max_clients, link, admit, connect_out, handle_new_connection, on_input, activate_tproxy,
}
use shadow_tor_eavesdropping.TProxy.Startup.{tproxy_node}
use shadow_tor_eavesdropping.TProxy.Relay.{
  sends, receipts, HasMemory, epoll_set, set_epoll_lem, sends-epoll_set, receipts-epoll_set,
}
use shadow_tor_eavesdropping.TProxy.Package.{udp_trace}
use shadow_tor_eavesdropping.TProxy.Tracing.{IsText, IsTime, trace_line, udp_trace_line}
use shadow_tor_eavesdropping.TProxy.Exchange.{IsLinked, listening_guard}
use shadow_tor_eavesdropping.TProxy.Conversation.{IsTalking}
use shadow_tor_eavesdropping.TProxy.Watching.{IsEpoll, set_epoll_watched}
use shadow_tor_eavesdropping.TProxy.Flow.{
  IsIdle, IsAlternating, IsWaking, waits, step_lem, alone_lem, IsFlowing, turns-Carries,
}

-- The calls of `udpTrace`, for a host with this name.
abbrev pub report_trace : {g : HashTable ℕ} → Kernel → TProxy g → Bytes → Trace → Trace
report_trace k h name t =
    Call.sendto h.tracer_socket
      (trace_line h.server_mode name (k.clock (Call.gethostname 256 ∷ Call.allocate 512 ∷ t)))
      h.tracer_addr h.tracer_port
    ∷ Call.gettimeofday
    ∷ Call.gethostname 256
    ∷ Call.allocate 512
    ∷ t

-- A machine whose host has the name `name`, with a clock and blocks of memory of the right size.
pub record CanReport (k : Kernel) (name : Bytes) : Type 0 where
  pub block : Trace → Bytes
  pub allocates : (t : Trace) → k.memory t 512 ≡ some (block t)
  pub sized : (t : Trace) → length (block t) ≡ 512
  pub host : (t : Trace) → k.hostname t 256 ≡ name ++ 0 ∷ []
  pub text : IsText name
  pub short : length name ≤ 255
  pub time : (t : Trace) → IsTime (k.clock t)

first_lem :
    {S B : Type 0} (m : M S (Unit {0})) (n : M S B) (k : Kernel) (s : S) (t : Trace) (s' : S)
    (t' : Trace) (o : Outcome S B)
    → m k s t ≡ ok tt s' t'
    → n k s' t' ≡ o
    → (m >> n) k s t ≡ o
first_lem m n k s t s' t' o ran rest = simp (ran, ◌>>=◌) rest

module _ (g : HashTable ℕ) (k : Kernel) (name : Bytes) (reports : CanReport k name) where
  report_lem : (h : TProxy g) (t : Trace) → udp_trace g k h t ≡ ok tt h (report_trace k h name t)
  report_lem h t =
      udp_trace_line g k h t (reports.block t) name (reports.allocates t) (reports.sized t)
        (reports.host (Call.allocate 512 ∷ t)) reports.text reports.short (reports.time _)

  -- The two descriptors of a new connection.
  abbrev pub near_end : TProxy g → Trace → ℕ
  near_end h t = k.returns t (Call.accept h.asockin)

  abbrev pub reported : TProxy g → Trace → Trace
  reported h t = report_trace k h name (Call.accept h.asockin ∷ t)

  abbrev pub far_end : TProxy g → Trace → ℕ
  far_end h t = k.returns (reported h t) (Call.socket SockType.stream)

  abbrev connected : TProxy g → Trace → Trace
  connected h t =
      Call.connect (far_end h t) h.remote_ip h.outport ∷ Call.socket SockType.stream ∷ reported h t

  -- The server is there, and the descriptors of the connection and the listening one differ.
  pub record CanConnect (h : TProxy g) (t : Trace) : Type 0 where
    pub reaches :
        (k.returns
              (Call.socket SockType.stream ∷ reported h t)
              (Call.connect (far_end h t) h.remote_ip h.outport)
            /= 0
          && k.errno (connected h t) /= einprogress)
        ≡ false
    pub ends_differ : near_end h t ≢ far_end h t
    pub near_new : near_end h t ≢ h.asockin
    pub far_new : far_end h t ≢ h.asockin

  abbrev pub admitted : TProxy g → Trace → Trace
  admitted h t =
      epoll_set k h.ined (far_end h t) epollin
        (epoll_set k h.ined (near_end h t) epollin (connected h t))

  connect_out_lem :
      (h : TProxy g) (t : Trace)
      → CanConnect h t
      → connect_out g (near_end h t) h.remote_ip h.outport k h (reported h t)
        ≡ ok tt (link g (near_end h t) (far_end h t) h) (admitted h t)
  unfolding connect_out admit
  connect_out_lem h t can = simp (can.reaches, set_epoll_lem, ◌>>=◌)

  handle_new_connection_lem :
      (h : TProxy g) (t : Trace) (sd : ℕ)
      → h.is_done ≡ 0
      → CanConnect h t
      → handle_new_connection g sd k h t
        ≡ ok tt (link g (near_end h t) (far_end h t) h) (admitted h t)
  unfolding handle_new_connection
  handle_new_connection_lem h t sd fresh can =
      simp (fresh, ◌>>=◌)
        (first_lem (udp_trace g) (connect_out g (near_end h t) h.remote_ip h.outport) k h
          (Call.accept h.asockin ∷ t) h (reported h t) _ (report_lem h (Call.accept h.asockin ∷ t))
          (connect_out_lem h t can))

  accept_lem :
      (h : TProxy g) (t : Trace)
      → h.is_done ≡ 0
      → CanConnect h t
      → activate_tproxy g h.asockin epollin k h t
        ≡ ok tt (link g (near_end h t) (far_end h t) h) (admitted h t)
  unfolding activate_tproxy on_input
  accept_lem h t fresh can = rw (listening_guard (g.lookup h.asockin h.hashmap) h.asockin) (
      simp
        (eq_true h.asockin, event_bits, handle_new_connection_lem h t h.asockin fresh can, ◌>>=◌))

  link-IsLinked :
      (h : TProxy g) (t : Trace)
      → CanConnect h t
      → IsLinked g
          (link g (near_end h t) (far_end h t) h)
          (near_end h t)
          (far_end h t)
          (suc h.next)
          h.next
  unfolding link
  link-IsLinked h t can =
      let cin = near_end h t in
      let cout = far_end h t in
      let ends = eq_false cout cin (λ e. can.ends_differ (sym e)) in
      record {
        found = simp (g.lookup-replace, ends, eq_true cin);
        found_back = simp (g.lookup-replace, eq_true cout);
        leads =
            ap (λ p. p.sd)
              (update_other _ h.next (suc h.next) _ (omega arith)
                ∙ update_same h.partners (suc h.next) _);
        leads_back = ap (λ p. p.sd) (update_same _ h.next _);
        apart = omega arith;
        accepted = can.near_new;
        connected = can.far_new;
      }

  admitted-IsIdle :
      (h : TProxy g) (t : Trace)
      → IsEpoll k h.ined
      → CanConnect h t
      → IsIdle h.ined (near_end h t) (far_end h t) (admitted h t)
  admitted-IsIdle h t law can =
      let cin = near_end h t in
      let cout = far_end h t in
      let t1 = connected h t in
      let t2 = epoll_set k h.ined cin epollin t1 in
      let far = λ (j : ℕ). set_epoll_watched k h.ined cout epollin j t2 law in
      let near = λ (j : ℕ). set_epoll_watched k h.ined cin epollin j t1 law in
      (
        far cin
            ∙ simp (eq_false cout cin (λ e. can.ends_differ (sym e)))
                (near cin ∙ simp (eq_true cin)),
        far cout ∙ simp (eq_true cout),
      )

  sends-admitted : (h : TProxy g) (t : Trace) → sends (admitted h t) ≡ sends t
  unfolding sends
  sends-admitted h t =
      sends-epoll_set k h.ined (far_end h t) epollin
        (epoll_set k h.ined (near_end h t) epollin (connected h t))
      ∙ sends-epoll_set k h.ined (near_end h t) epollin (connected h t)

  receipts-admitted : (h : TProxy g) (t : Trace) → receipts k (admitted h t) ≡ receipts k t
  unfolding receipts
  receipts-admitted h t =
      receipts-epoll_set k h.ined (far_end h t) epollin
        (epoll_set k h.ined (near_end h t) epollin (connected h t))
      ∙ receipts-epoll_set k h.ined (near_end h t) epollin (connected h t)

  module _ (lib : Strings) (waking : IsWaking k) (m : ℕ) (mem : HasMemory k)
      (talk : IsTalking k) where
    -- The loop has taken a connection and carried `n` messages across.
    abbrev pub Connects : ℕ → TProxy g → Trace → Outcome (TProxy g) (Option ℕ) → Type 0
    Connects n h t o =
        (h' : TProxy g) × (t' : Trace) × (o ≡ ok none h' t')
        × IsFlowing g lib k waking m mem talk h' (near_end h t) (far_end h t) (suc h.next) h.next t'
        × (length (sends t') ≡ n)

    -- A new connection works for ever. If nothing was sent or received yet, the host can be
    -- reported, allocations succeed, every `recv` gives at least one byte, epoll refuses to add a
    -- descriptor just when it is there, the listening descriptor is ready, the server is there, the
    -- descriptors of the new connection and the listening one differ, and the kernel lets the two
    -- ends of the connection speak in turns, then `2 * n + 1` turns of the main loop of the
    -- transparent proxy take the connection and carry `n` messages across; the loop goes on, both
    -- ends are linked and waited for, and what was sent is what was received, each message at the
    -- other end and in order.
    pub turns-Connects :
        (n : ℕ) (h : TProxy g) (t : Trace)
        → IsEpoll k h.ined
        → h.is_done ≡ 0
        → sends t ≡ []
        → receipts k t ≡ []
        → k.polls (Call.epoll_wait m 100 ∷ t) (Call.epoll_wait h.ined max_clients)
          ≡ some ((h.asockin, epollin) ∷ [])
        → CanConnect h (waits g lib k waking m h.ined t)
        → IsAlternating k h.ined
            (near_end h (waits g lib k waking m h.ined t))
            (far_end h (waits g lib k waking m h.ined t))
        → Connects n h
            (waits g lib k waking m h.ined t)
            (turns (tproxy_node g lib) epollin (pure false) (suc (2 * n)) m k h t)
    unfolding sends receipts link
    turns-Connects n h t law fresh quiet unheard polled can turnwise =
        let t1 = waits g lib k waking m h.ined t in
        let h2 = link g (near_end h t1) (far_end h t1) h in
        let t2 = admitted h t1 in
        let sent : sends t2 ≡ [] = sends-admitted h t1 ∙ quiet in
        let got : receipts k t2 ≡ [] = receipts-admitted h t1 ∙ unheard in
        let first =
          step_lem g lib k waking m (2 * n) h t ((h.asockin, epollin) ∷ []) h2 t2 polled
            (alone_lem g lib k waking m h.asockin epollin h t1 h2 t2 (accept_lem h t1 fresh can)) in
        let (h', t', ran, flowing, count) =
          turns-Carries g lib k waking m mem talk n h2 t2 (near_end h t1) (far_end h t1)
            (suc h.next) h.next law turnwise
            (link-IsLinked h t1 can, admitted-IsIdle h t1 law can, simp (sent, got)) in
        (h', t', first ∙ ran, flowing, count ∙ simp sent (omega arith))
