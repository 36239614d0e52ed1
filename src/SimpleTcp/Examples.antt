-- ===== src/SimpleTcp/Examples.antt =====
-- Runs of simpletcp/simpletcp.c on small kernels.
use shadow_tor_eavesdropping.Base.{
  inl, true, ℕ, ◌+◌, ◌%◌, ◌^◌, Option, none, some, List, [], ◌∷◌, ◌++◌, Bytes, codes, pos, length,
  ◌≡◌, ◌⊎◌, inr, refl, arith, replicate, All,
}
use shadow_tor_eavesdropping.Sys.{
  Kernel, Trace, Call, EpollOp, Timeval, Fault, ok, faulted, Post, epollin, epollout,
}
use shadow_tor_eavesdropping.Glib.{HashTable, assoc_table}
use shadow_tor_eavesdropping.TProxy.Tracing.{IsText}
use shadow_tor_eavesdropping.SimpleTcp.State.{
  SimpleTcp, socks5_init, socks5_done, socks5_method_negotation_req, socks5_method_negotation_ok,
}
use shadow_tor_eavesdropping.SimpleTcp.Packets.{htons, request_packet}
use shadow_tor_eavesdropping.SimpleTcp.Starting.{requested}
use shadow_tor_eavesdropping.SimpleTcp.Client.{client_read, activate_client, hang_up}
use shadow_tor_eavesdropping.SimpleTcp.Server.{log_line, server_read}
use shadow_tor_eavesdropping.SimpleTcp.Loop.{dispatch_all}
use shadow_tor_eavesdropping.SimpleTcp.Arguments.{
  Numbers, refused, passed, check_client_args, check_nconn, check_sleep, check_range, check_bounds,
  IsChecked, check_client_args-IsChecked,
}
use shadow_tor_eavesdropping.SimpleTcp.Status.{
  Step, activate_client-Step, eof_agrees, equal_sleep_faults,
}
use shadow_tor_eavesdropping.SimpleTcp.Handshake.{
  asked_ip, asked_port, request_packet_roundtrip, round, round_trace, round_lem,
}
use shadow_tor_eavesdropping.SimpleTcp.Speeches.{said, naps, IsNap, speech, speeches}
use shadow_tor_eavesdropping.SimpleTcp.Rounds.{visits, visits_lem}
use shadow_tor_eavesdropping.Samples.{made, split, number, lower_case}
use shadow_tor_eavesdropping.Sys.Ends.{Ends}
use shadow_tor_eavesdropping.Host.Turns.{IfMade}
use shadow_tor_eavesdropping.Resolve.{last_addr, dns_query, find_addr, port_of}
use shadow_tor_eavesdropping.SimpleTcp.Starting.{start_client, connect_client, watch}
use shadow_tor_eavesdropping.SimpleTcp.New.{
  client_mode, client_asked, asked_mode, simpletcp_new, with_mode, own_hostname, open_epoll,
  new_mode, new_client, fresh_state, bring_up_client, finish_start,
}
use shadow_tor_eavesdropping.SimpleTcp.Leak.{Answers, Leaves, simpletcp_new-Leaves}
use shadow_tor_eavesdropping.SimpleTcp.Started.{Serves, simpletcp_new-Serves}
use shadow_tor_eavesdropping.SimpleTcp.Budget.{Moment, moments, rounds, moments-Balance}
use shadow_tor_eavesdropping.SimpleTcp.Logging.{
  arrival, accept_trace, log_trace, visit_logged, failed_recv_logged,
}

abbrev pub times : HashTable Timeval
times = assoc_table

-- A kernel on which every call succeeds and every input is `answer`.
abbrev pub granting : Option Bytes → Kernel
granting answer = record {
  returns = λ t c. length t + 10;
  receives = λ t c. answer;
  transfers = λ t c. pos 0;
  polls = λ t c. none;
  hostname = λ t n. codes "web" ++ 0 ∷ [];
  addresses = λ t n. [];
  clock = λ t. record { tv_sec = 1457654400; tv_usec = 42 };
  memory = λ t n. some (replicate n 170);
  errno = λ t. 115;
  rand = λ t. 17;
}

abbrev pub willing : Kernel
willing = granting (some (5 ∷ 0 ∷ []))

-- A client on 5 that is to make three connections.
abbrev pub client : SimpleTcp times
client = record {
  ed = 3;
  is_done = 0;
  hostname = codes "web" ++ 0 ∷ [];
  client_sd = 5;
  client_nconn = pos 3;
  client_sleep_min = 100;
  client_sleep_max = 110;
  client_server_port = 20480;
  client_proxy_port = 9050;
  client_socks5_status = socks5_init;
  client_server_ip = 16777343;
  client_proxy_ip = 1;
  server_sd = 0;
  server_bind_port = 0;
  server_hashtab = [];
  server_log_path = [];
}

-- A server that listens on 4.
abbrev server : SimpleTcp times
server = record client { client_sd = 0; server_sd = 4; server_log_path = codes "log/web" }

pub web-IsText : IsText (codes "web")
web-IsText = (omega arith, (omega arith, (omega arith, tt)))

request_packet_roundtrip_example :
    (length (request_packet 16777343 (htons 80)) ≡ 10)
    × (asked_ip (request_packet 16777343 (htons 80)) ≡ 16777343)
    × (asked_port (request_packet 16777343 (htons 80)) ≡ 80 % 2 ^ 16)
request_packet_roundtrip_example = request_packet_roundtrip 16777343 80 (omega arith)

round_lem_example :
    dispatch_all times (requested times) (round 5) willing client []
    ≡ hang_up times
        (requested times)
        5
        willing
        (record client { client_socks5_status = socks5_done })
        (round_trace 3 5 16777343 20480 (codes "web") [])
round_lem_example =
    round_lem times (requested times) willing client [] (codes "web")
      ((λ t sd. refl), (λ t sd. ([], refl))) ([], refl, web-IsText, omega arith) refl

visits_lem_example :
    (h' : SimpleTcp times) × (t' : Trace) × (sleeps : List ℕ) × (visits times 2 willing client []
      ≡ ok tt h' t')
    × (h'.is_done ≡ 1)
    × (said t' ≡ speeches 3 (speech 16777343 20480 (codes "web")) ++ said [])
    × (naps t' ≡ sleeps ++ naps [])
    × (length sleeps ≡ 2)
    × All (IsNap 100 110) sleeps
visits_lem_example =
    visits_lem times 2 willing client [] (codes "web") ((λ t sd. refl), (λ t sd. ([], refl)))
      ([], refl, web-IsText, omega arith) (inr (omega arith)) refl refl

activate_client-Step_example :
    Post
      (λ a s. (socks5_init ≡ s.client_socks5_status) ⊎ Step socks5_init s.client_socks5_status)
      (λ e. Unit {0})
      (activate_client times (requested times) 5 epollout willing client [])
activate_client-Step_example = activate_client-Step times willing client [] 5 epollout

-- The client of `client`, after its greeting.
abbrev greeter : SimpleTcp times
greeter = record client { client_socks5_status = socks5_method_negotation_req }

eof_agrees_example :
    client_read times (requested times) 5 (granting (some [])) greeter []
    ≡ ok tt
        (record greeter { client_socks5_status = socks5_method_negotation_ok })
        (Call.epoll_ctl EpollOp.ctl_mod 3 5 epollout ∷ Call.read 5 2 ∷ [])
eof_agrees_example = eof_agrees times (requested times) (granting (some [])) greeter [] 5 refl refl

-- The same client with equal bounds, at the end of its first connection.
abbrev steady : SimpleTcp times
steady = record client {
  client_socks5_status = socks5_done;
  client_sleep_min = 100;
  client_sleep_max = 100;
}

equal_sleep_faults_example :
    client_read times (requested times) 5 willing steady []
    ≡ faulted Fault.division_by_zero
        (record steady { client_sd = 0; client_socks5_status = socks5_init; client_nconn = pos 2 })
        (Call.random ∷ Call.close 5 ∷ Call.epoll_ctl EpollOp.ctl_del 3 5 0 ∷ [])
equal_sleep_faults_example =
    equal_sleep_faults times (requested times) willing steady [] 5 1 refl refl refl (omega arith)

abbrev naming : Kernel
naming = granting (some (codes "web"))

visit_logged_example :
    dispatch_all times (requested times) ((4, epollin) ∷ (10, epollin) ∷ []) naming server []
    ≡ ok tt
        (record server {
          server_hashtab = times.replace 10 (arrival naming server []) server.server_hashtab;
        })
        (log_trace 3 10
          (codes "log/web")
          14
          (log_line (codes "web") (arrival naming server []))
          (accept_trace naming server []))
visit_logged_example =
    visit_logged times (requested times) naming server [] b'w' (codes "eb") 14 (omega arith)
      (omega arith) (omega arith) refl web-IsText (omega arith) refl (omega arith)

-- The server of `server` with a connection on 9.
abbrev visited : SimpleTcp times
visited = record server { server_hashtab = (9, record { tv_sec = 1; tv_usec = 2 }) ∷ [] }

failed_recv_logged_example :
    server_read times 9 (granting none) visited []
    ≡ ok tt visited
        (log_trace 3 9 (codes "log/web") 11 (log_line [] (record { tv_sec = 1; tv_usec = 2 })) [])
failed_recv_logged_example =
    failed_recv_logged times (granting none) visited [] 9 11 (record { tv_sec = 1; tv_usec = 2 })
      refl refl refl (omega arith)

abbrev pub decimal_texts : Numbers
decimal_texts = record { to_int = λ text. pos (number 0 text); strsep_comma = split b',' }

abbrev arguments : Bytes → List Bytes
arguments range =
    codes "simpletcp" ∷ codes "client" ∷ codes "p:1" ∷ codes "s:2" ∷ codes "3" ∷ range ∷ []

range_passed :
    check_client_args decimal_texts (arguments (codes "100,110"))
    ≡ passed (pos 3) (pos 100) (pos 110)
unfolding check_client_args check_nconn check_sleep check_range check_bounds
range_passed = refl

range_refused : check_client_args decimal_texts (arguments (codes "110,100")) ≡ refused 5
unfolding check_client_args check_nconn check_sleep check_range check_bounds
range_refused = refl

check_client_args-IsChecked_example :
    IsChecked (check_client_args decimal_texts (arguments (codes "100,110")))
check_client_args-IsChecked_example =
    check_client_args-IsChecked decimal_texts (arguments (codes "100,110"))

-- A kernel that also gives each call the same descriptor.
abbrev steadfast : Kernel
steadfast = record willing { returns = λ t c. 7 }

-- The arguments of a client for three connections, with names that need no look-up.
abbrev pub local_arguments : List Bytes
local_arguments =
    codes "simpletcp"
    ∷ codes "client"
    ∷ codes "localhost:9050"
    ∷ codes "any:80"
    ∷ codes "3"
    ∷ codes "100,110"
    ∷ []

pub local_asked :
    asked_mode lower_case decimal_texts local_arguments
    ≡ some (client_mode (codes "localhost:9050") (codes "any:80") (pos 3) (pos 100) (pos 110))
unfolding asked_mode client_asked check_client_args check_nconn check_sleep check_range check_bounds
local_asked = refl

simpletcp_new-Serves_example :
    Ends
      (IfMade (Serves times lower_case steadfast (codes "web") 2 100 110 (codes "any:80")))
      (λ e. Unit {0})
      (simpletcp_new times lower_case decimal_texts local_arguments steadfast client [])
simpletcp_new-Serves_example =
    simpletcp_new-Serves times lower_case steadfast (codes "web") 2 100 110 (codes "any:80")
      decimal_texts local_arguments (codes "localhost:9050") client local_asked
      (λ t. (([], refl, web-IsText, omega arith), refl)) ((λ t sd. refl), (λ t sd. ([], refl)))
      (inr (omega arith))

-- The client is made.
client_starts :
    made (simpletcp_new times lower_case decimal_texts local_arguments steadfast client []) ≡ true
unfolding asked_mode client_asked check_client_args check_nconn check_sleep check_range check_bounds
    simpletcp_new with_mode own_hostname open_epoll new_mode new_client fresh_state bring_up_client
    finish_start dns_query find_addr port_of start_client connect_client watch htons
client_starts = refl

moments-Balance_example :
    Ends
      (λ _ h' t'. length (naps t') + rounds h'.client_nconn ≡ 2)
      (λ e. Unit {0})
      (moments times
        (Moment.ready (round 5) ∷ Moment.due ∷ Moment.ready ((9, epollin) ∷ []) ∷ [])
        willing
        client
        [])
unfolding naps
moments-Balance_example =
    moments-Balance times willing
      (Moment.ready (round 5) ∷ Moment.due ∷ Moment.ready ((9, epollin) ∷ []) ∷ []) client []

-- A client that cannot find its server.
abbrev lost_arguments : List Bytes
lost_arguments =
    codes "simpletcp"
    ∷ codes "client"
    ∷ codes "localhost:9050"
    ∷ codes "nonesuch:80"
    ∷ codes "3"
    ∷ codes "100,110"
    ∷ []

lost_asked :
    asked_mode lower_case decimal_texts lost_arguments
    ≡ some (client_mode (codes "localhost:9050") (codes "nonesuch:80") (pos 3) (pos 100) (pos 110))
unfolding asked_mode client_asked check_client_args check_nconn check_sleep check_range check_bounds
lost_asked = refl

-- A kernel that finds an address for every name.
abbrev finding : Kernel
finding = record steadfast { addresses = λ t host. 1 ∷ [] }

finds_one : Answers lower_case finding
unfolding last_addr
finds_one t host fine = (1, refl)

simpletcp_new-Leaves_example :
    Leaves lower_case finding finds_one times 1 []
      (simpletcp_new times lower_case decimal_texts lost_arguments finding client [])
simpletcp_new-Leaves_example =
    simpletcp_new-Leaves lower_case finding finds_one times decimal_texts lost_arguments
      (replicate 256 170) (codes "localhost:9050") (codes "nonesuch:80") (pos 3) (pos 100) (pos 110)
      client [] lost_asked (codes "80", refl) (codes "9050", refl) (inl (inl refl)) refl (λ t. refl)
      (λ t. refl)
