-- ===== src/Network/Runs.antt =====
-- A run of a proxy and its logger.
use shadow_tor_eavesdropping.Base.{
  ℕ, suc, [], ◌∷◌, ◌++◌, length-replicate, codes, pos, get_elem?, replicate, refl, arith,
}
use shadow_tor_eavesdropping.Sys.{Kernel, Trace, Call}
use shadow_tor_eavesdropping.Samples.{hosting, recording, lower_case}
use shadow_tor_eavesdropping.Glib.{HashTable, assoc_table}
use shadow_tor_eavesdropping.TProxy.State.{TProxy}
use shadow_tor_eavesdropping.TProxy.Buffers.{null}
use shadow_tor_eavesdropping.TProxy.Tracing.{udp_trace_line}
use shadow_tor_eavesdropping.Logger.LoggerServer.{LoggerServer}
use shadow_tor_eavesdropping.Logger.LoggerStart.{loggerserver_main}
use shadow_tor_eavesdropping.Network.{
  sent_to, bytes_of, report, Holds, IsStoring, udp_trace-Arrives,
}
use shadow_tor_eavesdropping.Logger.Receiving.{IsReceiving, recvs}
use shadow_tor_eavesdropping.Resolve.{last_addr}

abbrev table : HashTable ℕ
table = assoc_table

-- A proxy without connections, whose logger is at address 2 and port 9999.
abbrev proxy : TProxy table
proxy = record {
  ined = 3;
  is_done = 0;
  asockin = 4;
  outport = 80;
  inport = 8080;
  traceport = 9999;
  host_ip = 0;
  remote_ip = 1;
  trace_ip = 2;
  server_mode = 0;
  tracer_socket = 7;
  tracer_port = 9999;
  tracer_addr = 2;
  hashmap = [];
  partners = λ p. record { sd = 0; bufsize = pos 0; buf = null };
  next = 0;
}

abbrev logger : LoggerServer
logger = record {
  ined = 3;
  is_done = 0;
  ain = 0;
  asockin = 4;
  inport = 9999;
  good_data = pos 0;
  endread = 0;
  log_path = codes "log";
  host_ip = 0;
}

-- The calls of the report, the last one first.
abbrev reported : Trace
reported =
    Call.sendto 7 (report table hosting proxy [] (replicate 512 170) (codes "relay")) 2 9999
    ∷ Call.gettimeofday
    ∷ Call.gethostname 256
    ∷ Call.allocate 512
    ∷ []

-- The kernel of the logger, which gets what the proxy has sent.
abbrev receiving : Kernel
receiving = record recording {
  returns = λ t c. elim c [
    | Call.epoll_create n ↦ 3
    | Call.open_file mode path ↦ 9
    | Call.socket type ↦ 12
    | _ ↦ 0
  ];
  receives = λ t c. get_elem? (sent_to 2 9999 reported) (recvs t);
}

receiving-IsReceiving : IsReceiving receiving
unfolding last_addr
receiving-IsReceiving = record {
  resolves = λ t host. refl;
  finds = λ t host. (16777343, refl);
  block = λ t n. replicate (suc n) 170;
  allocates = λ t n. refl;
  longer = λ t n. omega (arith, length-replicate {A = ℕ} (suc n) 170);
  makes = λ t. refl;
  real = λ t. refl;
  opens = λ t. refl;
  binds = λ t sd ip port. refl;
  adds = λ t ed sd. refl;
  socket = λ t. 12;
  wakes = λ t ed n. refl;
}

receiving-IsStoring : IsStoring receiving (codes "log")
receiving-IsStoring = (λ t. refl, λ t fd bs. refl)

udp_trace-Arrives_example :
    Holds receiving
      (codes "log")
      (codes "s;relay;1\n")
      (codes "s;relay;1\n"
        ++ ([] ++ report table hosting proxy [] (replicate 512 170) (codes "relay")))
      (loggerserver_main lower_case 3
        (codes "loggerserver" ∷ codes "any:9999" ∷ codes "log" ∷ [])
        receiving
        logger
        [])
unfolding sent_to bytes_of
udp_trace-Arrives_example =
    udp_trace-Arrives table hosting proxy [] (replicate 512 170) (codes "relay") reported lower_case
      receiving 3 (codes "loggerserver") (codes "any:9999") (codes "9999") (codes "log")
      (codes "s;relay;1\n") logger refl refl refl (omega arith) (omega arith)
      (omega arith, omega arith)
      (udp_trace_line table hosting proxy [] (replicate 512 170) (codes "relay") refl refl refl
        (omega arith) (omega arith) (omega arith, omega arith))
      (λ t sd n. refl) receiving-IsStoring receiving-IsReceiving refl (omega arith)
