-- ===== src/TProxy/Scenarios.antt =====
-- Runs of tropeaproxy/tproxy.c on small kernels.
use shadow_tor_eavesdropping.Base.{
  true, List, ℕ, ◌==◌, if◌then◌else◌, ◌^◌, ◌+◌, ◌*◌, none, some, [], ◌∷◌, map, Bytes, codes, pos,
  ◌≡◌, ◌≢◌, refl, arith, replicate,
}
use shadow_tor_eavesdropping.Sys.{
  Kernel, Trace, Call, Fault, ok, faulted, Post, epollin, epollout, epollall,
}
use shadow_tor_eavesdropping.Glib.{HashTable, assoc_table}
use shadow_tor_eavesdropping.TProxy.Buffers.{null}
use shadow_tor_eavesdropping.Format.{decimal, padded, timestamp}
use shadow_tor_eavesdropping.TProxy.State.{Partner, TProxy}
use shadow_tor_eavesdropping.Format.Stamp.{IsLineOf, timestamp_value}
use shadow_tor_eavesdropping.Format.{timestamp}
use shadow_tor_eavesdropping.Sys.{Timeval}
use shadow_tor_eavesdropping.TProxy.Package.{side, udp_trace}
use shadow_tor_eavesdropping.TProxy.Tracing.{trace_line, udp_trace_line}
use shadow_tor_eavesdropping.TProxy.Handlers.{activate_tproxy, activate_all}
use shadow_tor_eavesdropping.TProxy.Relay.{sends, receipts, holding}
use shadow_tor_eavesdropping.TProxy.Exchange.{IsLinked}
use shadow_tor_eavesdropping.TProxy.Conversation.{
  forth, back, events_of, across, conversation-Faithful,
}
use shadow_tor_eavesdropping.TProxy.Invariant.{Inv}
use shadow_tor_eavesdropping.TProxy.Safety.{activate_all-Inv}
use shadow_tor_eavesdropping.TProxy.Safety.Transfers.{Reads}
use shadow_tor_eavesdropping.TProxy.Closing.{closes, close_both}
use shadow_tor_eavesdropping.TProxy.Orphans.{orphan_double_free, new_connection_kills}
use shadow_tor_eavesdropping.Resolve.{dns_query, find_addr, port_of}
use shadow_tor_eavesdropping.TProxy.Startup.{
  tproxy_new, open_up, set_up, addresses, ports, bring_up, fill, prepare_to_trace, start_reader,
  bind_reader, listen_reader, watch_reader, finish, tproxy_main,
}
use shadow_tor_eavesdropping.SimpleTcp.Packets.{htons}
use shadow_tor_eavesdropping.TProxy.Lifetime.{IsStarted, live-IsStarted}
use shadow_tor_eavesdropping.TProxy.Duplex.{asked, duplex_loses}
use shadow_tor_eavesdropping.Samples.{made, answering, talker, hosting, lower_case}

abbrev pub table : HashTable ℕ
table = assoc_table

abbrev ender : Kernel
ender = answering (some [])

abbrev failer : Kernel
failer = answering none

abbrev pub partner_at : ℕ → Partner
partner_at p =
    if p == 0
    then record { sd = 6; bufsize = pos 0; buf = null }
    else record { sd = 5; bufsize = pos 0; buf = null }

-- A proxy that listens on 4, with one connection, from 5 to 6.
abbrev pub pair : TProxy table
pair = record {
  ined = 3;
  is_done = 0;
  asockin = 4;
  outport = 80;
  inport = 8080;
  traceport = 9999;
  host_ip = 0;
  remote_ip = 1;
  trace_ip = 2;
  server_mode = 0;
  tracer_socket = 7;
  tracer_port = 9999;
  tracer_addr = 2;
  hashmap = (6, 1) ∷ (5, 0) ∷ [];
  partners = partner_at;
  next = 2;
}

pub pair-IsLinked : IsLinked table pair 5 6 0 1
pair-IsLinked = record {
  found = refl;
  found_back = refl;
  leads = refl;
  leads_back = refl;
  apart = omega arith;
  accepted = omega arith;
  connected = omega arith;
}

pair-Inv : Inv table pair
pair-Inv = record {
  bounded = λ a p e. ground arith;
  injective = λ a b p e f. ground arith;
  coherent = λ a p e. ground arith;
}

conversation-Faithful_example :
    (h' : TProxy table) × (t' : Trace) × (activate_all table
        (events_of 5 6 (forth ∷ back ∷ []))
        talker
        pair
        []
      ≡ ok tt h' t')
    × IsLinked table h' 5 6 0 1
    × (sends t' ≡ map (across 5 6) (receipts talker t'))
unfolding sends receipts
conversation-Faithful_example =
    conversation-Faithful table (forth ∷ back ∷ []) talker pair [] 5 6 0 1 (λ t n e. cc)
      (λ t sd. (b'h', b'i' ∷ [], refl)) pair-IsLinked refl

activate_all-Inv_example :
    Post
      (λ _ h'. Inv table h')
      Reads
      (activate_all table ((5, epollall) ∷ (4, epollin) ∷ (6, epollout) ∷ []) talker pair [])
activate_all-Inv_example =
    activate_all-Inv table ((5, epollall) ∷ (4, epollin) ∷ (6, epollout) ∷ []) talker pair []
      pair-Inv

close_both_example :
    (h' : TProxy table) × (t' : Trace) × (activate_all table
        ((5, epollin) ∷ (6, epollout) ∷ [])
        ender
        pair
        []
      ≡ ok tt h' t')
    × (closes t' ≡ 6 ∷ 5 ∷ closes [])
    × (table.lookup 5 h'.hashmap ≡ none)
    × (table.lookup 6 h'.hashmap ≡ none)
    × ((j : ℕ) → 5 ≢ j → 6 ≢ j → table.lookup j h'.hashmap ≡ table.lookup j pair.hashmap)
close_both_example = close_both table ender pair [] 5 6 0 1 (λ t n e. cc) pair-IsLinked refl refl

-- The connection of `pair`, with 5 closed.
abbrev orphan : TProxy table
orphan = record pair { hashmap = (6, 1) ∷ [] }

orphan_double_free_example :
    (h' : TProxy table) × (t' : Trace) × (activate_tproxy table 6 epollall failer orphan []
      ≡ faulted Fault.double_free h' t')
orphan_double_free_example =
    orphan_double_free table failer orphan [] 6 1 (λ t n e. cc) (omega arith) refl refl refl

new_connection_kills_example :
    Post
      (λ _ h'. ⊥)
      Reads
      (activate_all table ((5, epollin) ∷ (4, epollin) ∷ (6, epollout) ∷ []) ender pair [])
new_connection_kills_example =
    new_connection_kills table ender pair [] 5 6 0 1 (λ t n e. cc) pair-Inv pair-IsLinked refl
      (λ t sd. (omega arith, omega arith)) (λ t. (omega arith, omega arith))

-- The connection of `pair`, with a message from 5 on its way.
abbrev waiting : TProxy table
waiting = record pair { partners = λ p. if p == 0 then holding 6 (codes "yo") else partner_at p }

waiting-IsLinked : IsLinked table waiting 5 6 0 1
waiting-IsLinked = record {
  found = refl;
  found_back = refl;
  leads = refl;
  leads_back = refl;
  apart = omega arith;
  accepted = omega arith;
  connected = omega arith;
}

duplex_loses_example :
    (h₁ h₂ : TProxy table) × (t₁ t₂ : Trace) × (first second : Bytes) × (activate_tproxy table 6
        epollall talker waiting []
      ≡ ok tt h₁ t₁)
    × (asked 5 t₁ ≡ some epollin)
    × (h₁.partners 1 ≡ holding 5 first)
    × (activate_tproxy table 6 epollin talker h₁ t₁ ≡ ok tt h₂ t₂)
    × (h₂.partners 1 ≡ holding 5 second)
    × (first ≢ [])
    × (receipts talker t₂ ≡ (6, second) ∷ (6, first) ∷ receipts talker [])
    × (sends t₂ ≡ (6, codes "yo") ∷ sends [])
duplex_loses_example =
    duplex_loses table talker waiting [] 5 6 0 1 b'y' (b'o' ∷ []) (λ t n e. cc)
      (λ t sd. (b'h', b'i' ∷ [], refl)) waiting-IsLinked refl

abbrev noon : Timeval
noon = record { tv_sec = 1457654400; tv_usec = 42 }

timestamp_value_example : IsLineOf (1457654400 * 10 ^ 6 + 42) (timestamp noon)
timestamp_value_example = timestamp_value noon (omega arith)

udp_trace_line_example :
    udp_trace table talker pair []
    ≡ ok tt pair (
        Call.sendto 7
          (trace_line 0 (codes "relay") (record { tv_sec = 1457654400; tv_usec = 42 }))
          2
          9999
        ∷ Call.gettimeofday
        ∷ Call.gethostname 256
        ∷ Call.allocate 512
        ∷ [])
udp_trace_line_example =
    udp_trace_line table talker pair [] (replicate 512 170) (codes "relay") refl refl refl
      (omega arith) (omega arith) (omega arith, omega arith)

-- The line that the logger gets.
trace_line_test :
    trace_line 1 (codes "relay") (record { tv_sec = 1457654400; tv_usec = 42 })
    ≡ codes "s;relay;1457654400000042\n"
unfolding side timestamp decimal padded
trace_line_test = refl

abbrev arguments : List Bytes
arguments =
    codes "tproxy"
    ∷ codes "any:8080"
    ∷ codes "localhost:80"
    ∷ codes "localhost:9999"
    ∷ codes "server"
    ∷ []

-- The start is made, in server mode.
start_made : made (tproxy_new table lower_case arguments hosting pair []) ≡ true
unfolding tproxy_new open_up set_up addresses ports dns_query find_addr port_of bring_up fill
    prepare_to_trace start_reader bind_reader listen_reader watch_reader finish htons
start_made = refl

live-IsStarted_example :
    Post (IsStarted table) Reads (tproxy_main table lower_case 2 arguments hosting pair [])
live-IsStarted_example = live-IsStarted table lower_case arguments 2 hosting pair []
