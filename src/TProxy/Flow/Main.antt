-- ===== src/TProxy/Flow/Main.antt =====
-- `main` of tropeaproxy/tproxy.c, from its arguments through a connection.
use shadow_tor_eavesdropping.Base.{
  ℕ, suc, ◌*◌, Option, none, some, List, [], ◌∷◌, Bytes, map, length, ◌≡◌, sym, ap, ◌∙◌, eq_false,
}
use shadow_tor_eavesdropping.Sys.{
  Kernel, Trace, Call, EpollOp, Outcome, ok, minus_one, epollin, ◌>>=◌,
}
use shadow_tor_eavesdropping.Glib.{HashTable}
use shadow_tor_eavesdropping.Resolve.{Strings}
use shadow_tor_eavesdropping.Host.Main.{main, started, with_descriptor, watch_node}
use shadow_tor_eavesdropping.TProxy.State.{TProxy}
use shadow_tor_eavesdropping.TProxy.Handlers.{max_clients, tproxy_get_epoll_descriptor}
use shadow_tor_eavesdropping.TProxy.Relay.{sends, receipts, HasMemory}
use shadow_tor_eavesdropping.TProxy.Exchange.{IsLinked}
use shadow_tor_eavesdropping.TProxy.Conversation.{IsTalking, across}
use shadow_tor_eavesdropping.TProxy.Watching.{watched, IsEpoll}
use shadow_tor_eavesdropping.TProxy.Startup.{tproxy_main}
use shadow_tor_eavesdropping.TProxy.Flow.{IsIdle, IsAlternating, IsWaking, waits, runs}
use shadow_tor_eavesdropping.TProxy.Flow.Start.{
  HasSockets, IsPlace, IsReady, streams, tproxy_new_lem,
}
use shadow_tor_eavesdropping.TProxy.Flow.Opening.{
  CanReport, CanConnect, Connects, near_end, far_end, reported, turns-Connects,
}

same-IsAlternating :
    (k : Kernel) (ed ed' a a' b b' : ℕ)
    → ed ≡ ed'
    → a ≡ a'
    → b ≡ b'
    → IsAlternating k ed' a' b'
    → IsAlternating k ed a b
same-IsAlternating k ed ed' a a' b b' e f i turnwise = rw (e, f, i) turnwise

module _ (g : HashTable ℕ) (lib : Strings) (k : Kernel) (machine : HasSockets k) (name : Bytes)
    (reports : CanReport k name) (waking : IsWaking k) (mem : HasMemory k)
    (talk : IsTalking k) where
  abbrev begun : TProxy g → Trace → Trace
  begun h t = waits g lib k waking machine.main_set h.ined t

  near_end_lem : (h : TProxy g) (t : Trace) → near_end g k name reports h t ≡ machine.near
  near_end_lem h t = machine.accepts t h.asockin

  far_end_lem :
      (h : TProxy g) (t : Trace)
      → streams t ≡ 1
      → far_end g k name reports h (begun h t) ≡ machine.far
  unfolding streams
  far_end_lem h t one = machine.second_socket (reported g k name reports h (begun h t)) one

  IsReady-CanConnect :
      (h : TProxy g) (t : Trace)
      → streams t ≡ 1
      → h.asockin ≡ machine.listener
      → CanConnect g k name reports h (begun h t)
  IsReady-CanConnect h t one heard =
      let near = near_end_lem h (begun h t) in
      let far = far_end_lem h t one in
      record {
        reaches = machine.reaches _ _ _ _;
        ends_differ = rw (near, far) machine.ends_differ;
        near_new = rw (near, heard) machine.near_new;
        far_new = rw (far, heard) machine.far_new;
      }

  -- The loop goes on, and `n` messages have crossed a connection.
  abbrev pub Relays : ℕ → Outcome (TProxy g) (Option ℕ) → Type 0
  Relays n o =
      (h : TProxy g) × (t : Trace) × (pa pb : ℕ) × (o ≡ ok none h t)
      × IsLinked g h machine.near machine.far pa pb
      × IsIdle h.ined machine.near machine.far t
      × (sends t ≡ map (across machine.near machine.far) (receipts k t))
      × (length (sends t) ≡ n)

  Connects-Relays :
      (n : ℕ) (h : TProxy g) (t : Trace) (o : Outcome (TProxy g) (Option ℕ))
      → streams t ≡ 1
      → Connects g k name reports lib waking machine.main_set mem talk n h (begun h t) o
      → Relays n o
  Connects-Relays n h t o one (h', t', ran, (linked, idle, same), count) =
      let near = near_end_lem h (begun h t) in
      let far = far_end_lem h t one in
      (
        h',
        t',
        suc h.next,
        h.next,
        ran,
        (rw (near, far) at linked),
        (rw (near, far) at idle),
        (rw (near, far) at same),
        count,
      )

  looped_lem :
      (n : ℕ) (h : TProxy g) (t : Trace)
      → IsEpoll k machine.own_set
      → IsAlternating k machine.own_set machine.near machine.far
      → ((t' : Trace)
          → watched machine.own_set t' machine.near ≡ none
          → watched machine.own_set t' machine.far ≡ none
          → k.polls t' (Call.epoll_wait machine.own_set max_clients)
            ≡ some ((machine.listener, epollin) ∷ []))
      → IsReady g lib k machine h t
      → Relays n (
          runs g lib k waking machine.main_set (suc (2 * n)) h (
            Call.epoll_ctl EpollOp.ctl_add machine.main_set h.ined epollin
            ∷ Call.epoll_create 1
            ∷ t))
  unfolding watched sends receipts streams
  looped_lem n h t law turnwise calls
        (own, fresh, heard, quiet, unheard, one, near_none, far_none) =
      let m = machine.main_set in
      let t1 : Trace = Call.epoll_ctl EpollOp.ctl_add m h.ined epollin ∷ Call.epoll_create 1 ∷ t in
      let near = near_end_lem h (begun h t1) in
      let far = far_end_lem h t1 one in
      let apart = eq_false m machine.own_set machine.sets_differ in
      let t2 : Trace = Call.epoll_wait m 100 ∷ t1 in
      let polled = calls t2 (simp apart near_none) (simp apart far_none) in
      Connects-Relays n h t1 _ one (
        turns-Connects g k name reports lib waking m mem talk n h t1 (rw own law) fresh quiet
          unheard
          (ap (λ e. k.polls t2 (Call.epoll_wait e max_clients)) own
            ∙ polled
            ∙ ap (λ sd. some ((sd, epollin) ∷ [])) (sym heard))
          (IsReady-CanConnect h t1 one heard)
          (same-IsAlternating k h.ined machine.own_set _ machine.near _ machine.far own near far
            turnwise))

  -- From its arguments, the proxy takes a connection and relays for ever. If its own address, the
  -- server and the logger are given as `host:port`, every name has an address, ports can be bound
  -- and servers reached, the descriptors that the kernel gives differ where they must, the host can
  -- be reported, allocations succeed, every `recv` gives at least one byte, epoll refuses to add a
  -- descriptor just when it is there, the listening descriptor is ready as long as neither end of
  -- the connection is watched, and then the two ends speak in turns, then `main`, looked at for
  -- `2 * n + 1` turns, is still in its loop, the two ends of the connection are linked and waited
  -- for, and `n` messages have crossed: what was sent is what was received, each message at the
  -- other end and in order.
  pub tproxy_main-Relays :
      (n : ℕ) (program own out logger : Bytes) (rest : List Bytes) (h : TProxy g)
      → IsPlace lib own
      → IsPlace lib out
      → IsPlace lib logger
      → IsEpoll k machine.own_set
      → IsAlternating k machine.own_set machine.near machine.far
      → ((t' : Trace)
          → watched machine.own_set t' machine.near ≡ none
          → watched machine.own_set t' machine.far ≡ none
          → k.polls t' (Call.epoll_wait machine.own_set max_clients)
            ≡ some ((machine.listener, epollin) ∷ []))
      → Relays n (tproxy_main g lib (suc (2 * n)) (program ∷ own ∷ out ∷ logger ∷ rest) k h [])
  unfolding tproxy_main main started with_descriptor watch_node tproxy_get_epoll_descriptor
  tproxy_main-Relays n program own out logger rest h a b c law turnwise calls =
      let (h', t', ran, is_ready) =
        tproxy_new_lem g lib k machine program own out logger rest h a b c in
      let (at, _, _, _, _, _, _, _) = is_ready in
      simp
        (
          ran,
          machine.makes_main t',
          eq_false machine.main_set minus_one machine.main_made,
          eq_false h'.ined 0 (rw at machine.own_real),
          ◌>>=◌,
        )
        (looped_lem n h' t' law turnwise calls is_ready)
