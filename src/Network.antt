-- ===== src/Network.antt =====
-- The transparent proxy and the logger together: the datagrams that tropeaproxy/tproxy.c sends, and
-- the file that loggerserver/loggerserver.c writes.
mod Runs
use mathlib.Core.Path.{subst}
use mathlib.Core.List.{append_assoc, append-nil}
use shadow_tor_eavesdropping.Base.{
  ℕ, zero, suc, ◌+◌, ◌≤◌, ◌==◌, ◌&&◌, if◌then◌else◌, Bool, true, false, Option, none, some, List,
  [], ◌∷◌, ◌++◌, Bytes, length, take, take-length, pos, get_elem?, ◌≡◌, refl, sym, ap, ◌∙◌, arith,
  inl, inr, Bool-cases,
}
use shadow_tor_eavesdropping.Sys.{
  Kernel, FileMode, minus_one, Trace, Call, Outcome, ok, exited, faulted,
}
use shadow_tor_eavesdropping.Sys.Ends.{AnyFault, Ends}
use shadow_tor_eavesdropping.Glib.{HashTable}
use shadow_tor_eavesdropping.Resolve.{Strings}
use shadow_tor_eavesdropping.Host.Turns.{IfRunning}
use shadow_tor_eavesdropping.TProxy.State.{TProxy}
use shadow_tor_eavesdropping.TProxy.Package.{udp_trace}
use shadow_tor_eavesdropping.TProxy.Relay.{received}
use shadow_tor_eavesdropping.TProxy.Tracing.{IsText, IsTime, trace_line, udp_trace_line}
use shadow_tor_eavesdropping.Logger.LoggerServer.{LoggerServer}
use shadow_tor_eavesdropping.Logger.LoggerStart.{loggerserver_main}
use shadow_tor_eavesdropping.Logger.File.{contents, stored, taken}
use shadow_tor_eavesdropping.Logger.Journal.{arrived}
use shadow_tor_eavesdropping.Logger.Receiving.{IsReceiving, recvs, main_receives}
use shadow_tor_eavesdropping.Logger.Life.{IsLogging, loggerserver_main-IfRunning}

-- The datagrams sent to an address, the first one first.
unfoldable pub sent_to : ℕ → ℕ → Trace → List Bytes
sent_to ip port [] = []
sent_to ip port (Call.sendto sd bs ip' port' ∷ t) =
    let before = sent_to ip port t in
    if ip' == ip && port' == port then before ++ bs ∷ [] else before
sent_to ip port (_ ∷ t) = sent_to ip port t

-- The bytes of some datagrams, one after another.
unfoldable pub bytes_of : List Bytes → Bytes
bytes_of [] = []
bytes_of (d ∷ ds) = d ++ bytes_of ds

-- A network that brings these datagrams, each by one `recv`, in order and in full, and then no more.
abbrev pub Delivers : Kernel → List Bytes → Type 0
Delivers k ds = (t : Trace) (sd n : ℕ) → k.receives t (Call.recv sd n) ≡ get_elem? ds (recvs t)

-- One datagram more.
next_bytes :
    (ds : List Bytes) (n : ℕ)
    → bytes_of (take n ds) ++ received (get_elem? ds n) ≡ bytes_of (take (suc n) ds)
unfolding bytes_of received
next_bytes [] zero = refl
next_bytes [] (suc n) = refl
next_bytes (d ∷ ds) zero = sym (append-nil d)
next_bytes (d ∷ ds) (suc n) =
    append_assoc d (bytes_of (take n ds)) (received (get_elem? ds n))
    ∙ ap (λ r. d ++ r) (next_bytes ds n)

-- A machine on which the file at `path` always opens, and a `write` writes what it is given.
abbrev pub IsStoring : Kernel → Bytes → Type 0
IsStoring k path =
    ((t : Trace) → (k.returns t (Call.open_file FileMode.appending path) == minus_one) ≡ false)
    × ((t : Trace) (fd : ℕ) (bs : Bytes) → k.transfers t (Call.write fd bs) ≡ pos (length bs))

stored-IsStoring :
    (k : Kernel) (path bs : Bytes) (t : Trace) → IsStoring k path → stored k path t bs ≡ bs
unfolding stored taken
stored-IsStoring k path bs t (opens, writes) = simp (opens, writes, take-length)

arrived-Delivers :
    (k : Kernel) (path : Bytes) (ds : List Bytes) (t : Trace)
    → Delivers k ds
    → IsStoring k path
    → arrived k path t ≡ bytes_of (take (recvs t) ds)
unfolding arrived recvs bytes_of
arrived-Delivers k path ds [] law stores = refl
arrived-Delivers k path ds (Call.recv sd n ∷ t) law stores =
    rw
      (
        arrived-Delivers k path ds t law stores,
        stored-IsStoring k path (received (k.receives t (Call.recv sd n))) (Call.recv sd n ∷ t)
            stores,
        law t sd n,
      )
      (next_bytes ds (recvs t))
arrived-Delivers k path ds (c ∷ t) law stores = arrived-Delivers k path ds t law stores

take_all : (ds : List Bytes) (n : ℕ) → length ds ≤ n → take n ds ≡ ds
take_all [] zero le = refl
take_all [] (suc n) le = refl
take_all (d ∷ ds) zero le = absurd (omega arith)
take_all (d ∷ ds) (suc n) le = ap (λ r. d ∷ r) (take_all ds n (omega arith))

bytes_of-append : (ds : List Bytes) (d : Bytes) → bytes_of (ds ++ d ∷ []) ≡ bytes_of ds ++ d
unfolding bytes_of
bytes_of-append [] d = append-nil d
bytes_of-append (e ∷ ds) d =
    ap (λ r. e ++ r) (bytes_of-append ds d) ∙ sym (append_assoc e (bytes_of ds) d)

-- The `main` of a logger, looked at for that many turns, has not returned, and the file at `path`
-- holds `held`.
abbrev pub Holds : Kernel → Bytes → Bytes → Bytes → Outcome LoggerServer (Option ℕ) → Type 0
Holds k path old held o =
    (h' : LoggerServer) × (t' : Trace) × (o ≡ ok none h' t') × (contents k path old t' ≡ some held)

-- On a network that brings the datagrams `ds`, the file of a logger holds them after as many turns.
main-Holds :
    (lib : Strings) (k : Kernel) (ds : List Bytes) (n : ℕ) (name own text path old : Bytes)
    (h : LoggerServer)
    → Delivers k ds
    → IsStoring k path
    → IsReceiving k
    → (lib.strsep_colon own).1 ≡ some text
    → length ds ≤ n
    → Holds k path old
        (old ++ bytes_of ds)
        (loggerserver_main lib n (name ∷ own ∷ path ∷ []) k h [])
main-Holds lib k ds n name own text path old h law stores machine port le =
    let argv : List Bytes = name ∷ own ∷ path ∷ [] in
    let (h', t', ran, read) = main_receives lib k machine n name own text path h port in
    let all : take (recvs t') ds ≡ ds = take_all ds (recvs t') (omega (arith, le, read)) in
    let logging : IsLogging k path old h' t' =
      subst (Ends (IfRunning (IsLogging k path old)) AnyFault) ran
        (loggerserver_main-IfRunning lib k old n argv h) in
    (
      h',
      t',
      ran,
      logging.0
          ∙ ap (λ r. some (old ++ r)) (arrived-Delivers k path ds t' law stores ∙ ap bytes_of all),
    )

abbrev trace_of : {S A : Type 0} → Outcome S A → Trace
trace_of (ok a s t) = t
trace_of (exited c s t) = t
trace_of (faulted e s t) = t

sent_one :
    (ip port sd : ℕ) (bs : Bytes) (t : Trace)
    → sent_to ip port (
        Call.sendto sd bs ip port
        ∷ Call.gettimeofday
        ∷ Call.gethostname 256
        ∷ Call.allocate 512
        ∷ t)
      ≡ sent_to ip port t ++ bs ∷ []
unfolding sent_to
sent_one ip port sd bs t = ground arith

module _ (g : HashTable ℕ) (k : Kernel) (h : TProxy g) (t : Trace) (block name : Bytes) where
  -- What the proxy reports now.
  abbrev pub report : Bytes
  report = trace_line h.server_mode name (k.clock (Call.gethostname 256 ∷ Call.allocate 512 ∷ t))

  abbrev pub sent : List Bytes
  sent = sent_to h.tracer_addr h.tracer_port t ++ report ∷ []

  sent_lem :
      (t' : Trace)
      → k.memory t 512 ≡ some block
      → length block ≡ 512
      → k.hostname (Call.allocate 512 ∷ t) 256 ≡ name ++ 0 ∷ []
      → IsText name
      → length name ≤ 255
      → IsTime (k.clock (Call.gethostname 256 ∷ Call.allocate 512 ∷ t))
      → udp_trace g k h t ≡ ok tt h t'
      → sent_to h.tracer_addr h.tracer_port t' ≡ sent
  unfolding sent_to
  sent_lem t' mem size host text short time ran =
      ap (λ o. sent_to h.tracer_addr h.tracer_port (trace_of o))
        (sym ran ∙ udp_trace_line g k h t block name mem size host text short time)
      ∙ sent_one h.tracer_addr h.tracer_port h.tracer_socket report t

  -- A proxy reports a connection, with memory, a host name of at most 255 bytes and a time of
  -- `gettimeofday`, and the network brings all that it has sent to its logger, in order and in full.
  -- The logger runs on a machine where it can start, given its own address as `host:port`, where
  -- its file opens and takes what is written, and where a socket can be read whenever epoll is
  -- asked. Then the `main` of the logger, looked at for as many turns as there were datagrams or
  -- more, is still in its loop, and its file holds what it held at first, the datagrams of before,
  -- and then the line with the side, the host and the time.
  pub udp_trace-Arrives :
      (t' : Trace) (lib : Strings) (l : Kernel) (n : ℕ) (own_name own text path old : Bytes)
      (logger : LoggerServer)
      → k.memory t 512 ≡ some block
      → length block ≡ 512
      → k.hostname (Call.allocate 512 ∷ t) 256 ≡ name ++ 0 ∷ []
      → IsText name
      → length name ≤ 255
      → IsTime (k.clock (Call.gethostname 256 ∷ Call.allocate 512 ∷ t))
      → udp_trace g k h t ≡ ok tt h t'
      → Delivers l (sent_to h.tracer_addr h.tracer_port t')
      → IsStoring l path
      → IsReceiving l
      → (lib.strsep_colon own).1 ≡ some text
      → length (sent_to h.tracer_addr h.tracer_port t') ≤ n
      → Holds l path old
          (old ++ (bytes_of (sent_to h.tracer_addr h.tracer_port t) ++ report))
          (loggerserver_main lib n (own_name ∷ own ∷ path ∷ []) l logger [])
  udp_trace-Arrives t' lib l n own_name own text path old logger mem size host text_ok short time
        ran law stores machine port le =
      let all = sent_lem t' mem size host text_ok short time ran in
      let (h', t'', runs, held) =
        main-Holds lib l (sent_to h.tracer_addr h.tracer_port t') n own_name own text path old
          logger law stores machine port le in
      (
        h',
        t'',
        runs,
        held
            ∙ ap (λ ds. some (old ++ bytes_of ds)) all
            ∙ ap (λ r. some (old ++ r))
                (bytes_of-append (sent_to h.tracer_addr h.tracer_port t) report),
      )
