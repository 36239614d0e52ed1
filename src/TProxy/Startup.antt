-- ===== src/TProxy/Startup.antt =====
-- How tropeaproxy/tproxy.c starts (`tproxy_new`), runs (`main`) and ends (`tproxy_free`).
use shadow_tor_eavesdropping.Base.{
  ℕ, ◌==◌, ◌/=◌, if◌then◌else◌, Bool, true, false, Option, none, some, List, ◌∷◌, Bytes, codes,
  get_elem?,
}
use shadow_tor_eavesdropping.Sys.{
  M, Call, SockType, EpollOp, minus_one, epollin, ◌>>=◌, ◌>>◌, pure, skip, get, put, call, perform,
}
use shadow_tor_eavesdropping.Glib.{HashTable}
use shadow_tor_eavesdropping.Resolve.{Strings, dns_query, port_of}
use shadow_tor_eavesdropping.TProxy.State.{TProxy}
use shadow_tor_eavesdropping.TProxy.Handlers.{
  max_clients, tproxy_ready, tproxy_get_epoll_descriptor,
}
use shadow_tor_eavesdropping.Host.{Node}
use shadow_tor_eavesdropping.Host.Main.{main}

module _ (g : HashTable ℕ) (lib : Strings) where
  -- `argc > 4 && !strcmp("server", argv[4])`
  unfoldable pub is_server : List Bytes → Bool
  is_server argv = elim (get_elem? argv 4) [
    | none ↦ false
    | some word ↦ lib.strcmp_equal (codes "server") word
  ]

  unfoldable pub prepare_to_trace : List Bytes → M (TProxy g) (Unit {0})
  prepare_to_trace argv = do
    sd ← call (Call.socket SockType.dgram)
    h ← get
    put (record h {
      server_mode = if is_server argv then 1 else h.server_mode;
      tracer_socket = sd;
      tracer_port = h.traceport;
      tracer_addr = h.trace_ip;
    })

  -- `startReader` once its socket listens.
  unfoldable pub watch_reader : ℕ → M (TProxy g) ℕ
  watch_reader sd = do
    h ← get
    res ← call (Call.epoll_ctl EpollOp.ctl_add h.ined sd epollin)
    if res == minus_one then pure minus_one else pure 0

  -- `startReader` once its socket is bound.
  unfoldable pub listen_reader : ℕ → M (TProxy g) ℕ
  listen_reader sd = do
    res ← call (Call.listen sd 10)
    if res /= 0 then pure minus_one else watch_reader sd

  -- `startReader` once it has a socket.
  unfoldable pub bind_reader : ℕ → M (TProxy g) ℕ
  bind_reader sd = do
    h ← get
    res ← call (Call.bind sd h.host_ip h.inport)
    if res /= 0 then pure minus_one else listen_reader sd

  -- `startWriter` only prints, so `startTProxy` is `startReader`.
  unfoldable pub start_reader : M (TProxy g) ℕ
  start_reader = do
    h ← get
    sd ← call (Call.socket SockType.stream)
    put (record h { asockin = sd })
    if sd == minus_one then pure minus_one else bind_reader sd

  unfoldable pub tproxy_free : M (TProxy g) (Unit {0})
  tproxy_free = do
    h ← get
    if h.ined /= 0 then perform (Call.close h.ined) else skip
    perform (Call.close h.tracer_socket)

  -- The end of `tproxy_new`; `false` stands for a null pointer.
  unfoldable pub finish : ℕ → M (TProxy g) Bool
  finish is_fail = if is_fail /= 0 then (do tproxy_free; pure false) else pure true

  -- The new state, from `calloc` to `prepareToTrace`. No partner is reachable yet.
  unfoldable pub fill : ℕ → ℕ × ℕ × ℕ → ℕ × ℕ × ℕ → M (TProxy g) (Unit {0})
  fill input_ed (inaddr, outaddr, traceaddr) (inport, outport, traceport) = do
    h ← get
    put (record {
      ined = input_ed;
      is_done = 0;
      asockin = 0;
      outport = outport;
      inport = inport;
      traceport = traceport;
      host_ip = inaddr;
      remote_ip = outaddr;
      trace_ip = traceaddr;
      server_mode = 0;
      tracer_socket = 0;
      tracer_port = 0;
      tracer_addr = 0;
      hashmap = g.new;
      partners = h.partners;
      next = h.next;
    })

  -- The three host names and the three ports of the arguments.
  unfoldable pub addresses : Bytes → Bytes → Bytes → M (TProxy g) (ℕ × ℕ × ℕ)
  addresses own out logger = do
    inaddr ← dns_query lib (lib.strsep_colon own).0
    outaddr ← dns_query lib (lib.strsep_colon out).0
    traceaddr ← dns_query lib (lib.strsep_colon logger).0
    pure (inaddr, outaddr, traceaddr)

  unfoldable pub ports : Bytes → Bytes → Bytes → M (TProxy g) (ℕ × ℕ × ℕ)
  ports own out logger = do
    outport ← port_of lib (lib.strsep_colon out).1
    inport ← port_of lib (lib.strsep_colon own).1
    traceport ← port_of lib (lib.strsep_colon logger).1
    pure (inport, outport, traceport)

  -- `tproxy_new` once it has an epoll descriptor, the addresses and the ports.
  unfoldable pub bring_up : ℕ → ℕ × ℕ × ℕ → ℕ × ℕ × ℕ → List Bytes → M (TProxy g) Bool
  bring_up input_ed at through argv = do
    fill input_ed at through
    prepare_to_trace argv
    is_fail ← start_reader
    finish is_fail

  -- `tproxy_new` once it has an epoll descriptor.
  unfoldable pub set_up : ℕ → Bytes → Bytes → Bytes → List Bytes → M (TProxy g) Bool
  set_up input_ed own out logger argv = do
    at ← addresses own out logger
    through ← ports own out logger
    bring_up input_ed at through argv

  -- `tproxy_new` without an epoll descriptor.
  unfoldable pub give_up : ℕ → M (TProxy g) Bool
  give_up input_ed = do perform (Call.close input_ed); pure false

  -- The part of `tproxy_new` after the test of `argc`.
  unfoldable pub open_up : Bytes → Bytes → Bytes → List Bytes → M (TProxy g) Bool
  open_up own out logger argv = do
    perform (Call.gethostname 1024)
    input_ed ← call (Call.epoll_create max_clients)
    if input_ed == minus_one then give_up input_ed else set_up input_ed own out logger argv

  unfoldable pub tproxy_new : List Bytes → M (TProxy g) Bool
  tproxy_new (name ∷ own ∷ out ∷ logger ∷ rest) =
      open_up own out logger (name ∷ own ∷ out ∷ logger ∷ rest)
  tproxy_new argv = pure false

  -- What `main` uses of the proxy. It waits for EPOLLIN, and nothing is done after a turn.
  abbrev pub tproxy_node : Node (TProxy g)
  tproxy_node = record {
    create = tproxy_new;
    release = tproxy_free;
    ready = tproxy_ready g;
    descriptor = tproxy_get_epoll_descriptor;
  }

  unfoldable pub tproxy_main : ℕ → List Bytes → M (TProxy g) (Option ℕ)
  tproxy_main = main tproxy_node epollin (pure false)
