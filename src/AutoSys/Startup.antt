-- ===== src/AutoSys/Startup.antt =====
-- How autosys/autosys.c starts (`as_new`) and ends (`as_free`).
use shadow_tor_eavesdropping.Base.{
  ℕ, ◌==◌, ◌/=◌, if◌then◌else◌, Option, none, some, List, ◌∷◌, Bool, true, false, Bytes, codes,
  get_elem?,
}
use shadow_tor_eavesdropping.Sys.{
  M, Call, SockType, EpollOp, minus_one, epollin, ◌>>=◌, ◌>>◌, pure, skip, get, put, call, perform,
}
use shadow_tor_eavesdropping.Glib.{HashTable}
use shadow_tor_eavesdropping.AutoSys.State.{As}
use shadow_tor_eavesdropping.TProxy.Handlers.{max_clients}
use shadow_tor_eavesdropping.Host.{Node}
use shadow_tor_eavesdropping.Host.Main.{main}
use shadow_tor_eavesdropping.AutoSys.Handlers.{as_ready, as_get_epoll_descriptor}
use shadow_tor_eavesdropping.Resolve.{Strings, dns_query, port_of}

module _ (g : HashTable ℕ) (lib : Strings) where
  -- `argc > 4 && !strcmp("server", argv[4])`
  unfoldable pub as_is_server : List Bytes → Bool
  as_is_server argv = elim (get_elem? argv 4) [
    | none ↦ false
    | some word ↦ lib.strcmp_equal (codes "server") word
  ]

  unfoldable pub as_prepare_to_trace : List Bytes → M (As g) (Unit {0})
  as_prepare_to_trace argv = do
    sd ← call (Call.socket SockType.dgram)
    h ← get
    put (record h {
      server_mode = if as_is_server argv then 1 else h.server_mode;
      tracer_socket = sd;
      tracer_port = h.traceport;
      tracer_addr = h.trace_ip;
    })

  -- `startReader` once its socket listens.
  unfoldable pub as_watch_reader : ℕ → M (As g) ℕ
  as_watch_reader sd = do
    h ← get
    res ← call (Call.epoll_ctl EpollOp.ctl_add h.ined sd epollin)
    if res == minus_one then pure minus_one else pure 0

  -- `startReader` once its socket is bound.
  unfoldable pub as_listen_reader : ℕ → M (As g) ℕ
  as_listen_reader sd = do
    res ← call (Call.listen sd 10)
    if res /= 0 then pure minus_one else as_watch_reader sd

  -- `startReader` once it has a socket.
  unfoldable pub as_bind_reader : ℕ → M (As g) ℕ
  as_bind_reader sd = do
    h ← get
    res ← call (Call.bind sd h.host_ip h.inport)
    if res /= 0 then pure minus_one else as_listen_reader sd

  -- `startWriter` only prints, so `startAs` is `startReader`.
  unfoldable pub as_start_reader : M (As g) ℕ
  as_start_reader = do
    h ← get
    sd ← call (Call.socket SockType.stream)
    put (record h { asockin = sd })
    if sd == minus_one then pure minus_one else as_bind_reader sd

  unfoldable pub as_free : M (As g) (Unit {0})
  as_free = do
    h ← get
    if h.ined /= 0 then perform (Call.close h.ined) else skip
    perform (Call.close h.tracer_socket)

  -- The end of `as_new`; `false` stands for a null pointer.
  unfoldable pub as_finish : ℕ → M (As g) Bool
  as_finish is_fail = if is_fail /= 0 then (do as_free; pure false) else pure true

  -- The new state, from `calloc` to `prepareToTrace`. No partner is reachable yet.
  unfoldable pub as_fill : ℕ → ℕ × ℕ × ℕ → ℕ × ℕ × ℕ → M (As g) (Unit {0})
  as_fill input_ed (inaddr, outaddr, traceaddr) (inport, outport, traceport) = do
    h ← get
    put (record {
      ined = input_ed;
      is_done = 0;
      asockin = 0;
      outport = outport;
      inport = inport;
      traceport = traceport;
      host_ip = inaddr;
      remote_ip = outaddr;
      trace_ip = traceaddr;
      server_mode = 0;
      tracer_socket = 0;
      tracer_port = 0;
      tracer_addr = 0;
      hashmap = g.new;
      partners = h.partners;
      next = h.next;
    })

  -- The three host names and the three as_ports of the arguments.
  unfoldable pub as_addresses : Bytes → Bytes → Bytes → M (As g) (ℕ × ℕ × ℕ)
  as_addresses own out logger = do
    inaddr ← dns_query lib (lib.strsep_colon own).0
    outaddr ← dns_query lib (lib.strsep_colon out).0
    traceaddr ← dns_query lib (lib.strsep_colon logger).0
    pure (inaddr, outaddr, traceaddr)

  unfoldable pub as_ports : Bytes → Bytes → Bytes → M (As g) (ℕ × ℕ × ℕ)
  as_ports own out logger = do
    outport ← port_of lib (lib.strsep_colon out).1
    inport ← port_of lib (lib.strsep_colon own).1
    traceport ← port_of lib (lib.strsep_colon logger).1
    pure (inport, outport, traceport)

  -- `as_new` once it has an epoll descriptor, the as_addresses and the as_ports.
  unfoldable pub as_bring_up : ℕ → ℕ × ℕ × ℕ → ℕ × ℕ × ℕ → List Bytes → M (As g) Bool
  as_bring_up input_ed at through argv = do
    as_fill input_ed at through
    as_prepare_to_trace argv
    is_fail ← as_start_reader
    as_finish is_fail

  -- `as_new` once it has an epoll descriptor.
  unfoldable pub as_set_up : ℕ → Bytes → Bytes → Bytes → List Bytes → M (As g) Bool
  as_set_up input_ed own out logger argv = do
    at ← as_addresses own out logger
    through ← as_ports own out logger
    as_bring_up input_ed at through argv

  -- `as_new` without an epoll descriptor.
  unfoldable pub as_give_up : ℕ → M (As g) Bool
  as_give_up input_ed = do perform (Call.close input_ed); pure false

  -- The part of `as_new` after the test of `argc`.
  unfoldable pub as_open_up : Bytes → Bytes → Bytes → List Bytes → M (As g) Bool
  as_open_up own out logger argv = do
    perform (Call.gethostname 1024)
    input_ed ← call (Call.epoll_create max_clients)
    if input_ed == minus_one then as_give_up input_ed else as_set_up input_ed own out logger argv

  unfoldable pub as_new : List Bytes → M (As g) Bool
  as_new (name ∷ own ∷ out ∷ logger ∷ rest) =
      as_open_up own out logger (name ∷ own ∷ out ∷ logger ∷ rest)
  as_new argv = pure false

  -- The functions that the plug-in registers and `main` calls. `main` waits for EPOLLIN, and nothing
  -- is done after a turn.
  abbrev pub as_node : Node (As g)
  as_node = record {
    create = as_new;
    release = as_free;
    ready = as_ready g;
    descriptor = as_get_epoll_descriptor;
  }

  unfoldable pub as_main : ℕ → List Bytes → M (As g) (Option ℕ)
  as_main = main as_node epollin (pure false)
