-- ===== src/AutoSys/Examples.antt =====
-- Runs of autosys/autosys.c on small kernels.
use shadow_tor_eavesdropping.Base.{ℕ, [], ◌∷◌, List, Bytes, codes, pos, ◌≡◌, refl, true}
use shadow_tor_eavesdropping.Sys.{Post}
use shadow_tor_eavesdropping.Sys.Ends.{Ends}
use shadow_tor_eavesdropping.Sys.Simulation.{along}
use shadow_tor_eavesdropping.Glib.{HashTable, assoc_table}
use shadow_tor_eavesdropping.Samples.{made, hosting, lower_case}
use shadow_tor_eavesdropping.Resolve.{dns_query, find_addr, port_of}
use shadow_tor_eavesdropping.SimpleTcp.Packets.{htons}
use shadow_tor_eavesdropping.Host.Plugin.{Plugin, Instance}
use shadow_tor_eavesdropping.Host.Notices.{IfPresent, OrAssertion, noticed}
use shadow_tor_eavesdropping.TProxy.Buffers.{null}
use shadow_tor_eavesdropping.TProxy.Startup.{tproxy_main}
use shadow_tor_eavesdropping.TProxy.Safety.Transfers.{Reads}
use shadow_tor_eavesdropping.TProxy.Lifetime.{IsStarted}
use shadow_tor_eavesdropping.AutoSys.State.{As}
use shadow_tor_eavesdropping.AutoSys.Startup.{
  as_is_server, as_prepare_to_trace, as_watch_reader, as_listen_reader, as_bind_reader,
  as_start_reader, as_finish, as_fill, as_addresses, as_ports, as_bring_up, as_set_up, as_open_up,
  as_new, as_main,
}
use shadow_tor_eavesdropping.AutoSys.Same.{as_tproxy}
use shadow_tor_eavesdropping.AutoSys.SameStart.{as_main-Same, as_main-IsStarted}
use shadow_tor_eavesdropping.AutoSys.Plugin.{asplugin_init}
use shadow_tor_eavesdropping.AutoSys.Hosted.{AsInv, as_noticed-IfPresent}

abbrev table : HashTable ℕ
table = assoc_table

-- A border that listens on 12, without connections.
abbrev border : As table
border = record {
  ined = 3;
  is_done = 0;
  asockin = 12;
  outport = 80;
  inport = 8080;
  traceport = 9999;
  host_ip = 0;
  remote_ip = 1;
  trace_ip = 2;
  server_mode = 0;
  tracer_socket = 7;
  tracer_port = 9999;
  tracer_addr = 2;
  hashmap = [];
  partners = λ p. record { sd = 0; bufsize = pos 0; buf = null };
  next = 0;
}

abbrev arguments : List Bytes
arguments = codes "autosys" ∷ codes "any:8080" ∷ codes "localhost:80" ∷ codes "localhost:9999" ∷ []

abbrev plugin : Plugin (As table)
plugin = record { instance_of = Instance.absent; memory = border }

as_main-Same_example :
    along (as_tproxy table) (as_main table lower_case 2 arguments hosting border [])
    ≡ tproxy_main table lower_case 2 arguments hosting (as_tproxy table border) []
as_main-Same_example = as_main-Same table lower_case 2 arguments hosting border []

as_main-IsStarted_example :
    Post
      (λ r h. IsStarted table r (as_tproxy table h))
      Reads
      (as_main table lower_case 2 arguments hosting border [])
as_main-IsStarted_example = as_main-IsStarted table lower_case 2 arguments hosting border []

-- The start is made.
start_made : made (as_new table lower_case arguments hosting border []) ≡ true
unfolding as_new as_open_up as_set_up as_addresses as_ports dns_query find_addr port_of as_bring_up
    as_fill as_prepare_to_trace as_start_reader as_bind_reader as_listen_reader as_watch_reader
    as_finish htons as_is_server
start_made = refl

as_noticed-IfPresent_example :
    Ends
      (λ _ p. IfPresent (AsInv table lower_case) p.instance_of p.memory)
      (OrAssertion Reads)
      (noticed (asplugin_init table lower_case) arguments 2 hosting plugin [])
as_noticed-IfPresent_example = as_noticed-IfPresent table lower_case arguments 2 hosting plugin []
