-- ===== src/Logger/Runs.antt =====
-- Runs of loggerserver/loggerserver.c and analyzer/analyzer.c on a small kernel.
use shadow_tor_eavesdropping.Base.{
  List, Bytes, Option, none, some, [], ◌∷◌, codes, pos, ◌≡◌, refl, replicate,
}
use shadow_tor_eavesdropping.Sys.{Kernel, epollin, has}
use shadow_tor_eavesdropping.Logger.LoggerServer.{
  LoggerServer, loggerserver_ready, loggerserver_start_reader, loggerserver_bind,
  loggerserver_watch, loggerserver_activate_all, loggerserver_activate, loggerserver_read,
  loggerserver_log, loggerserver_store, loggerserver_is_done, loggerserver_get_epoll_descriptor,
}
use shadow_tor_eavesdropping.Host.Main.{
  main, started, with_descriptor, watch_node, turns, turn, serve_node,
}
use shadow_tor_eavesdropping.TProxy.Buffers.{write_at}
use shadow_tor_eavesdropping.Resolve.{find_addr, port_of}
use shadow_tor_eavesdropping.Logger.Analyzer.{
  Analyzer, analyzer_ready, analyzer_start_reader, analyzer_bind, analyzer_watch,
  analyzer_activate_all, analyzer_activate, analyzer_read, analyzer_log, analyzer_store,
  analyzer_is_done, analyzer_get_epoll_descriptor,
}
use shadow_tor_eavesdropping.Logger.File.{contents, opened, same_path, taken, with_bytes}
use shadow_tor_eavesdropping.Logger.Journal.{IsFaithful, arrived, loggerserver_ready-IsFaithful}
use shadow_tor_eavesdropping.Sys.{Call, Fault, Outcome, ok, exited, faulted}
use shadow_tor_eavesdropping.Sys.Ends.{Ends}
use shadow_tor_eavesdropping.Host.Plugin.{Plugin, Instance}
use shadow_tor_eavesdropping.Host.Notices.{IfPresent, OrAssertion, noticed}
use shadow_tor_eavesdropping.Host.Turns.{IfRunning}
use shadow_tor_eavesdropping.Samples.{lower_case, recording}
use shadow_tor_eavesdropping.Logger.LoggerStart.{
  copy_path, loggerserver_main, loggerserver_new, loggerserver_open, loggerserver_look_up,
  loggerserver_found, loggerserver_set_up, loggerserver_fill, loggerserver_clean,
  loggerserver_finish, loggerserver_check,
}
use shadow_tor_eavesdropping.Logger.Life.{IsLogging, loggerserver_main-IfRunning}
use shadow_tor_eavesdropping.Logger.AnalyzerStart.{
  analyzer_main, analyzer_new, analyzer_open, analyzer_look_up, analyzer_found, analyzer_set_up,
  analyzer_fill, analyzer_clean, analyzer_finish, analyzer_check,
}
use shadow_tor_eavesdropping.Logger.AnalyzerPlugin.{analyzerplugin_init}
use shadow_tor_eavesdropping.Logger.AnalyzerLife.{
  IsAnalyzing, analyzer_main-IfRunning, analyzer_noticed-IfPresent,
}
use shadow_tor_eavesdropping.Logger.Path.{copy_path_lem}
use shadow_tor_eavesdropping.Sys.Simulation.{along}
use shadow_tor_eavesdropping.Logger.Same.{as_logger, analyzer_ready-Same}

-- A kernel with two messages to read on 4.
abbrev busy : Kernel
busy = record recording {
  receives = λ t c. some (codes "c;relay;1\n");
  polls = λ t c. some ((4, epollin) ∷ (4, epollin) ∷ []);
}

-- One on which there is no more memory than is asked for.
abbrev tight : Kernel
tight = record busy { memory = λ t n. some (replicate n 0) }

-- What the files held before.
abbrev before : Bytes
before = codes "c;relay;0\n"

abbrev logger : LoggerServer
logger = record {
  ined = 3;
  is_done = 0;
  ain = 0;
  asockin = 4;
  inport = 9999;
  good_data = pos 0;
  endread = 0;
  log_path = codes "log";
  host_ip = 0;
}

abbrev analyst : Analyzer
analyst = record {
  ined = 3;
  is_done = 0;
  ain = 0;
  asockin = 4;
  inport = 9999;
  good_data = pos 0;
  endread = 0;
  log_path = codes "log";
  host_ip = 0;
}

loggerserver_ready-IsFaithful_example :
    IsFaithful busy before before logger (loggerserver_ready busy logger [])
unfolding arrived contents
loggerserver_ready-IsFaithful_example =
    loggerserver_ready-IsFaithful busy before before logger [] refl

analyzer_ready-Same_example :
    along as_logger (analyzer_ready busy analyst [])
    ≡ loggerserver_ready busy (as_logger analyst) []
analyzer_ready-Same_example = analyzer_ready-Same busy analyst []

abbrev arguments : List Bytes
arguments = codes "loggerserver" ∷ codes "any:9999" ∷ codes "log" ∷ []

-- What the file at `path` holds at the end of a run that returns.
abbrev file_after : {S A : Type 0} → Outcome S A → Option Bytes
file_after (ok a s t) = contents busy (codes "log") before t
file_after (exited c s t) = none
file_after (faulted e s t) = none

-- The logger adds to the file.
logger_appends :
    file_after (loggerserver_main lower_case 1 arguments busy logger [])
    ≡ some (codes "c;relay;0\nc;relay;1\nc;relay;1\n")
unfolding contents opened same_path taken with_bytes main started with_descriptor watch_node turns
    turn serve_node loggerserver_main loggerserver_new loggerserver_open loggerserver_look_up
    loggerserver_found loggerserver_set_up loggerserver_fill loggerserver_clean loggerserver_finish
    loggerserver_start_reader loggerserver_bind loggerserver_watch loggerserver_ready
    loggerserver_activate_all loggerserver_activate loggerserver_read loggerserver_log
    loggerserver_store loggerserver_check loggerserver_is_done loggerserver_get_epoll_descriptor
    copy_path write_at find_addr port_of has
logger_appends = refl

-- The analyzer empties the file first.
analyzer_empties :
    file_after (analyzer_main lower_case 1 arguments busy analyst [])
    ≡ some (codes "c;relay;1\nc;relay;1\n")
unfolding contents opened same_path taken with_bytes main started with_descriptor watch_node turns
    turn serve_node analyzer_main analyzer_new analyzer_open analyzer_look_up analyzer_found
    analyzer_set_up analyzer_fill analyzer_clean analyzer_finish analyzer_start_reader analyzer_bind
    analyzer_watch analyzer_ready analyzer_activate_all analyzer_activate analyzer_read analyzer_log
    analyzer_store analyzer_check analyzer_is_done analyzer_get_epoll_descriptor copy_path write_at
    find_addr port_of has
analyzer_empties = refl

loggerserver_main-IfRunning_example :
    Ends
      (IfRunning (IsLogging busy (codes "log") before))
      (λ e. Unit {0})
      (loggerserver_main lower_case 3 arguments busy logger [])
loggerserver_main-IfRunning_example =
    loggerserver_main-IfRunning lower_case busy before 3 arguments logger

analyzer_main-IfRunning_example :
    Ends
      (IfRunning (IsAnalyzing busy (codes "log") before))
      (λ e. Unit {0})
      (analyzer_main lower_case 3 arguments busy analyst [])
analyzer_main-IfRunning_example = analyzer_main-IfRunning lower_case busy before 3 arguments analyst

abbrev plugin : Plugin Analyzer
plugin = record { instance_of = Instance.absent; memory = analyst }

analyzer_noticed-IfPresent_example :
    Ends
      (λ _ p. IfPresent (IsAnalyzing busy (codes "log") before) p.instance_of p.memory)
      (OrAssertion (λ e. Unit {0}))
      (noticed (analyzerplugin_init lower_case) arguments 3 busy plugin [])
unfolding arrived
analyzer_noticed-IfPresent_example =
    analyzer_noticed-IfPresent lower_case busy before 3 arguments plugin [] refl

copy_path_lem_example :
    copy_path (codes "log") tight logger [] ≡ faulted Fault.bad_write logger (Call.allocate 3 ∷ [])
copy_path_lem_example = copy_path_lem tight logger [] (codes "log") (0 ∷ 0 ∷ 0 ∷ []) refl
