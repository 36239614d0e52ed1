-- ===== src/SimpleTcp/Visitors/Runs.antt =====
-- A run of a server of simpletcp/simpletcp.c on a small machine.
use shadow_tor_eavesdropping.Base.{
  ℕ, ◌==◌, if◌then◌else◌, none, some, List, [], ◌∷◌, Bytes, codes, ◌≡◌, refl,
}
use shadow_tor_eavesdropping.Sys.{Kernel, Trace, Call, Outcome, ok, exited, faulted, epollin}
use shadow_tor_eavesdropping.Sys.Ends.{AnyFault, Ends}
use shadow_tor_eavesdropping.Host.Turns.{IfRunning}
use shadow_tor_eavesdropping.Samples.{lower_case}
use shadow_tor_eavesdropping.Sys.{has}
use shadow_tor_eavesdropping.Format.{timestamp, padded, decimal, emit}
use shadow_tor_eavesdropping.Host.Main.{
  main, started, with_descriptor, watch_node, turns, turn, serve_node,
}
use shadow_tor_eavesdropping.Resolve.{port_of}
use shadow_tor_eavesdropping.TProxy.Buffers.{strlen}
use shadow_tor_eavesdropping.SimpleTcp.Starting.{start_server, bind_server, listen_server, watch}
use shadow_tor_eavesdropping.SimpleTcp.Server.{
  log_line, append_log, log_found, log_server_connection, server_read, accept_client, serve,
  welcome, activate_server,
}
use shadow_tor_eavesdropping.SimpleTcp.Loop.{
  dispatch, dispatch_all, simpletcp_ready, simpletcp_is_done, simpletcp_get_epoll_descriptor,
}
use shadow_tor_eavesdropping.SimpleTcp.New.{
  server_mode, asked_mode, server_asked, simpletcp_new, with_mode, own_hostname, open_epoll,
  new_mode, new_server, server_path, close_log, bring_up_server, fresh_state, finish_start,
}
use shadow_tor_eavesdropping.SimpleTcp.Standalone.{simpletcp_main, simpletcp_check}
use shadow_tor_eavesdropping.SimpleTcp.Standalone.Turns.{awaited}
use shadow_tor_eavesdropping.SimpleTcp.Standalone.Start.{sets}
use shadow_tor_eavesdropping.SimpleTcp.Examples.{times, granting, client, decimal_texts}
use shadow_tor_eavesdropping.SimpleTcp.Visitors.{writes, IsServing}
use shadow_tor_eavesdropping.SimpleTcp.Visitors.Life.{server_main-IfRunning}

-- The socket that was registered last is ready: first the listening one on 7, then the visitor on
-- 8, who says its name.
abbrev visited_machine : Kernel
visited_machine = record (granting (some (codes "web"))) {
  returns = λ t c. elim c [
    | Call.epoll_create n ↦ if sets t == 0 then 3 else 4
    | Call.accept sd ↦ 8
    | _ ↦ 7
  ];
  polls = λ t c. elim c [
    | Call.epoll_wait ed n ↦ if n == 10 then some (awaited ed t) else some ((ed, epollin) ∷ [])
    | _ ↦ none
  ];
}

abbrev server_arguments : List Bytes
server_arguments = codes "simpletcp" ∷ codes "server" ∷ codes "any:80" ∷ codes "log" ∷ []

server_is_asked :
    asked_mode lower_case decimal_texts server_arguments
    ≡ some (server_mode (codes "any:80") (codes "log"))
unfolding asked_mode server_asked
server_is_asked = refl

server_main-IfRunning_example :
    Ends
      (IfRunning (IsServing times visited_machine))
      AnyFault
      (simpletcp_main times lower_case decimal_texts 2 server_arguments visited_machine client [])
server_main-IfRunning_example =
    server_main-IfRunning times visited_machine lower_case decimal_texts 2 server_arguments
      (codes "any:80") (codes "log") client server_is_asked

abbrev lines : List (ℕ × Bytes × Trace) → List Bytes
lines [] = []
lines ((fd, line, t) ∷ rest) = line ∷ lines rest

abbrev log_lines : {S A : Type 0} → Outcome S A → List Bytes
log_lines (ok a s t) = lines (writes t)
log_lines (exited c s t) = []
log_lines (faulted e s t) = []

-- Two turns log the visitor.
visitor_logged :
    log_lines
      (simpletcp_main times lower_case decimal_texts 2 server_arguments visited_machine client [])
    ≡ codes "web;1457654400000042\n" ∷ []
unfolding simpletcp_main main simpletcp_new with_mode asked_mode server_asked own_hostname
    open_epoll new_mode new_server server_path strlen close_log bring_up_server fresh_state port_of
    start_server bind_server listen_server watch finish_start started with_descriptor watch_node
    turns turn serve_node simpletcp_check simpletcp_is_done simpletcp_get_epoll_descriptor
    simpletcp_ready dispatch_all dispatch activate_server welcome serve accept_client server_read
    log_server_connection log_found append_log log_line writes awaited has timestamp padded decimal
    emit sets
visitor_logged = refl
