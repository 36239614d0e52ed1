-- ===== src/TProxy/Flow.antt =====
-- The main loop of tropeaproxy/tproxy.c on an epoll that is level-triggered: two ends that speak in
-- turns are always waited for.
pub mod Start
pub mod Opening
pub mod Main
mod Runs
use shadow_tor_eavesdropping.Base.{
  ℕ, zero, suc, ◌+◌, ◌*◌, false, Option, none, some, List, [], ◌∷◌, Bytes, length, ◌≡◌, ◌⊎◌, inl,
  inr, refl, sym, ap, ◌∙◌, arith, eq_true, eq_false,
}
use shadow_tor_eavesdropping.Sys.{
  Kernel, Trace, Call, Outcome, ok, epollin, epollout, epollall, ◌>>=◌, pure,
}
use shadow_tor_eavesdropping.Glib.{HashTable}
use shadow_tor_eavesdropping.Resolve.{Strings}
use shadow_tor_eavesdropping.Host.Main.{turns, turn, serve_node}
use shadow_tor_eavesdropping.TProxy.State.{TProxy, Partner, update, update_same}
use shadow_tor_eavesdropping.TProxy.Handlers.{
  page_size, max_clients, activate_tproxy, activate_all, tproxy_ready,
}
use shadow_tor_eavesdropping.TProxy.Startup.{tproxy_node}
use shadow_tor_eavesdropping.TProxy.Relay.{
  sends, receipts, HasMemory, holding, spent, read_trace, write_trace, sends-read_trace,
  receipts-read_trace, sends-write_trace, receipts-write_trace,
}
use shadow_tor_eavesdropping.TProxy.Exchange.{
  IsLinked, IsLinked-update, IsLinked-symm, linked_ends_ne, activate_read_lem, activate_write_lem,
}
use shadow_tor_eavesdropping.TProxy.Conversation.{IsTalking, Faithful, across_first, across_second}
use shadow_tor_eavesdropping.TProxy.Watching.{watched, IsEpoll, read_AfterRead, write_AfterWrite}

-- Both ends are waited for, to be read.
abbrev pub IsIdle : ℕ → ℕ → ℕ → Trace → Type 0
IsIdle ed a b t = (watched ed t a ≡ some epollin) × (watched ed t b ≡ some epollin)

-- One end was read and is left alone, and the other one is waited for.
abbrev pub IsFull : ℕ → ℕ → ℕ → Trace → Type 0
IsFull ed a b t = (watched ed t a ≡ none) × (watched ed t b ≡ some epollall)

-- A kernel on which the two ends of a connection speak in turns: when both are waited for, one of
-- them can be read; while a message is on its way, only its receiver is ready, and can be written.
pub record IsAlternating (k : Kernel) (ed a b : ℕ) : Type 0 where
  pub speaks :
      (t : Trace)
      → IsIdle ed a b t
      → (k.polls t (Call.epoll_wait ed max_clients) ≡ some ((a, epollin) ∷ []))
        ⊎ (k.polls t (Call.epoll_wait ed max_clients) ≡ some ((b, epollin) ∷ []))
  pub listens :
      (t : Trace)
      → IsFull ed a b t
      → k.polls t (Call.epoll_wait ed max_clients) ≡ some ((b, epollout) ∷ [])
  pub listens_back :
      (t : Trace)
      → IsFull ed b a t
      → k.polls t (Call.epoll_wait ed max_clients) ≡ some ((a, epollout) ∷ [])

abbrev pub twice : ℕ → ℕ
twice zero = zero
twice (suc n) = suc (suc (twice n))

pub twice_lem : (n : ℕ) → twice n ≡ 2 * n
twice_lem zero = refl
twice_lem (suc n) = omega (arith, twice_lem n)

-- The `epoll_wait` of `main` reports the epoll set of the program.
abbrev pub IsWaking : Kernel → Type 0
IsWaking k =
    (t : Trace) (ed : ℕ)
    → (e : ℕ × ℕ) × (es : List (ℕ × ℕ)) × (k.polls t (Call.epoll_wait ed 100) ≡ some (e ∷ es))

module _ (g : HashTable ℕ) (lib : Strings) (k : Kernel) (waking : IsWaking k) (m : ℕ) where
  abbrev pub runs : ℕ → TProxy g → Trace → Outcome (TProxy g) (Option ℕ)
  runs n h t = turns (tproxy_node g lib) epollin (pure false) n m k h t

  -- The calls with which a turn begins.
  abbrev pub waits : ℕ → Trace → Trace
  waits ed t = Call.epoll_wait ed max_clients ∷ Call.epoll_wait m 100 ∷ t

  -- One turn of the loop.
  pub step_lem :
      (n : ℕ) (h : TProxy g) (t : Trace) (ready : List (ℕ × ℕ)) (h' : TProxy g) (t' : Trace)
      → k.polls (Call.epoll_wait m 100 ∷ t) (Call.epoll_wait h.ined max_clients) ≡ some ready
      → activate_all g ready k h (waits h.ined t) ≡ ok tt h' t'
      → runs (suc n) h t ≡ runs n h' t'
  unfolding turns turn serve_node tproxy_ready
  step_lem n h t ready h' t' polled ran = simp ((waking t m).2, polled, ran, ◌>>=◌)

  pub alone_lem :
      (sd events : ℕ) (h : TProxy g) (t : Trace) (h' : TProxy g) (t' : Trace)
      → activate_tproxy g sd events k h t ≡ ok tt h' t'
      → activate_all g ((sd, events) ∷ []) k h t ≡ ok tt h' t'
  unfolding activate_all
  alone_lem sd events h t h' t' ran = simp (ran, ◌>>=◌)

  module _ (mem : HasMemory k) (talk : IsTalking k) where
    -- The first of the two turns in which `a` speaks to `b`.
    reading_lem :
        (n : ℕ) (h : TProxy g) (t : Trace) (a b pa pb : ℕ)
        → IsEpoll k h.ined
        → IsLinked g h a b pa pb
        → k.polls (Call.epoll_wait m 100 ∷ t) (Call.epoll_wait h.ined max_clients)
          ≡ some ((a, epollin) ∷ [])
        → (c : ℕ) × (cs : Bytes) × (t' : Trace) × (runs (suc n) h t
            ≡ runs n (record h { partners = update h.partners pa (holding b (c ∷ cs)) }) t')
          × IsFull h.ined a b t'
          × (sends t' ≡ sends t)
          × (receipts k t' ≡ (a, c ∷ cs) ∷ receipts k t)
    unfolding watched sends receipts
    reading_lem n h t a b pa pb law link polled =
        let t1 = waits h.ined t in
        let (c, cs, got) = talk (Call.allocate page_size ∷ t1) a in
        let bs : Bytes = c ∷ cs in
        let ran =
          rw link.leads at
            (activate_read_lem g k h t1 a pa c cs mem link.accepted link.found got) in
        let t2 = read_trace k h.ined a b (suc (length cs)) t1 in
        let h2 : TProxy g = record h { partners = update h.partners pa (holding b bs) } in
        let after = read_AfterRead g k h.ined law a b page_size t1 in
        let ne = linked_ends_ne g h a b pa pb link in
        (
          c,
          cs,
          t2,
          step_lem n h t ((a, epollin) ∷ []) h2 t2 polled (alone_lem a epollin h t1 h2 t2 ran),
          (after a ∙ simp (eq_true a), after b ∙ simp (eq_false a b ne, eq_true b)),
          sends-read_trace k h.ined a b (suc (length cs)) t1,
          receipts-read_trace k h.ined a b (suc (length cs)) bs t1 got,
        )

    -- The second one.
    writing_lem :
        (n : ℕ) (h : TProxy g) (t : Trace) (a b pa pb c : ℕ) (cs : Bytes)
        → IsEpoll k h.ined
        → IsLinked g h a b pa pb
        → h.partners pa ≡ holding b (c ∷ cs)
        → k.polls (Call.epoll_wait m 100 ∷ t) (Call.epoll_wait h.ined max_clients)
          ≡ some ((b, epollout) ∷ [])
        → (t' : Trace) × (runs (suc n) h t
            ≡ runs n (record h { partners = update h.partners pa (spent b (c ∷ cs)) }) t')
          × IsIdle h.ined a b t'
          × (sends t' ≡ (b, c ∷ cs) ∷ sends t)
          × (receipts k t' ≡ receipts k t)
    unfolding watched sends receipts
    writing_lem n h t a b pa pb c cs law link held polled =
        let t1 = waits h.ined t in
        let bs : Bytes = c ∷ cs in
        let t2 = write_trace k h.ined b a bs t1 in
        let h2 : TProxy g = record h { partners = update h.partners pa (spent b bs) } in
        let ran = activate_write_lem g k h t1 a b pa pb c cs link held in
        let after = write_AfterWrite g k h.ined law b a bs t1 in
        let ne = linked_ends_ne g h a b pa pb link in
        (
          t2,
          step_lem n h t ((b, epollout) ∷ []) h2 t2 polled (alone_lem b epollout h t1 h2 t2 ran),
          (after a ∙ simp (eq_true a), after b ∙ simp (eq_false a b ne, eq_true b)),
          sends-write_trace k h.ined b a bs t1,
          receipts-write_trace k h.ined b a bs t1,
        )

    -- The two turns together.
    crossing_lem :
        (n : ℕ) (h : TProxy g) (t : Trace) (a b pa pb : ℕ)
        → IsEpoll k h.ined
        → IsLinked g h a b pa pb
        → k.polls (Call.epoll_wait m 100 ∷ t) (Call.epoll_wait h.ined max_clients)
          ≡ some ((a, epollin) ∷ [])
        → ((t' : Trace)
            → IsFull h.ined a b t'
            → k.polls t' (Call.epoll_wait h.ined max_clients) ≡ some ((b, epollout) ∷ []))
        → (bs : Bytes) × (f : ℕ → Partner) × (t' : Trace) × (runs (suc (suc n)) h t
            ≡ runs n (record h { partners = f }) t')
          × IsLinked g (record h { partners = f }) a b pa pb
          × IsIdle h.ined a b t'
          × (sends t' ≡ (b, bs) ∷ sends t)
          × (receipts k t' ≡ (a, bs) ∷ receipts k t)
    unfolding watched
    crossing_lem n h t a b pa pb law link polled listens =
        let (c, cs, t1, ran1, full, sent1, got1) =
          reading_lem (suc n) h t a b pa pb law link polled in
        let bs : Bytes = c ∷ cs in
        let h1 : TProxy g = record h { partners = update h.partners pa (holding b bs) } in
        let link1 = IsLinked-update g h a b pa pb (holding b bs) refl link in
        let (t2, ran2, idle, sent2, got2) =
          writing_lem n h1 t1 a b pa pb c cs law link1 (update_same _ _ _)
            (listens (Call.epoll_wait m 100 ∷ t1) full) in
        (
          bs,
          update h1.partners pa (spent b bs),
          t2,
          ran1 ∙ ran2,
          IsLinked-update g h1 a b pa pb (spent b bs) refl link1,
          idle,
          sent2 ∙ ap (λ r. (b, bs) ∷ r) sent1,
          got2 ∙ got1,
        )

    -- What holds between two messages.
    abbrev pub IsFlowing : TProxy g → ℕ → ℕ → ℕ → ℕ → Trace → Type 0
    IsFlowing h a b pa pb t = IsLinked g h a b pa pb × IsIdle h.ined a b t × Faithful g k a b t

    -- The loop after `n` messages.
    abbrev pub Carries :
        ℕ → TProxy g → ℕ → ℕ → ℕ → ℕ → Trace → Outcome (TProxy g) (Option ℕ) → Type 0
    Carries n h a b pa pb t o =
        (h' : TProxy g) × (t' : Trace) × (o ≡ ok none h' t')
        × IsFlowing h' a b pa pb t'
        × (length (sends t') ≡ n + length (sends t))

    pub carries_lem :
        (n : ℕ) (h : TProxy g) (t : Trace) (a b pa pb : ℕ)
        → IsEpoll k h.ined
        → IsAlternating k h.ined a b
        → IsFlowing h a b pa pb t
        → Carries n h a b pa pb t (runs (twice n) h t)
    unfolding watched turns
    carries_lem zero h t a b pa pb law turnwise flowing = (h, t, refl, flowing, omega arith)
    carries_lem (suc n) h t a b pa pb law turnwise (link, (idle, idle_back), same) =
        elim (turnwise.speaks (Call.epoll_wait m 100 ∷ t) (idle, idle_back)) [
          | inl polled ↦
              let (bs, f, t1, ran, link1, idle1, sent, got) =
                crossing_lem (twice n) h t a b pa pb law link polled turnwise.listens in
              let same1 : Faithful g k a b t1 = simp (sent, got, same, across_first g) in
              let (h', t', run, flowing, count) =
                carries_lem n (record h { partners = f }) t1 a b pa pb law turnwise
                  (link1, idle1, same1) in
              (h', t', ran ∙ run, flowing, omega (arith, count, ap length sent))
          | inr polled ↦
              let ne = linked_ends_ne g h a b pa pb link in
              let (bs, f, t1, ran, link1, idle1, sent, got) =
                crossing_lem (twice n) h t b a pb pa law (IsLinked-symm g h a b pa pb link) polled
                  turnwise.listens_back in
              let same1 : Faithful g k a b t1 = simp (sent, got, same, across_second g a b bs ne) in
              let h1 : TProxy g = record h { partners = f } in
              let (h', t', run, flowing, count) =
                carries_lem n h1 t1 a b pa pb law turnwise
                  (IsLinked-symm g h1 b a pb pa link1, (idle1.1, idle1.0), same1) in
              (h', t', ran ∙ run, flowing, omega (arith, count, ap length sent))
        ]

    -- The two ends of a connection can go on speaking in turns for ever. If allocations succeed,
    -- every `recv` gives at least one byte, epoll refuses to add a descriptor just when it is there,
    -- the kernel lets the two ends speak in turns, and between two messages (the ends are linked,
    -- both are waited for, and what was sent is what was received, each message at the other end and
    -- in order), then `2 * n` turns of the main loop of the transparent proxy carry `n` messages
    -- across, the loop goes on, and the same holds again.
    pub turns-Carries :
        (n : ℕ) (h : TProxy g) (t : Trace) (a b pa pb : ℕ)
        → IsEpoll k h.ined
        → IsAlternating k h.ined a b
        → IsFlowing h a b pa pb t
        → Carries n h a b pa pb t (turns (tproxy_node g lib) epollin (pure false) (2 * n) m k h t)
    turns-Carries n h t a b pa pb law turnwise flowing =
        rw (sym (twice_lem n)) (carries_lem n h t a b pa pb law turnwise flowing)
