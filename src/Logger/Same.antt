-- ===== src/Logger/Same.antt =====
-- The handlers of analyzer/analyzer.c beside those of loggerserver/loggerserver.c.
use shadow_tor_eavesdropping.Base.{
  ℕ, Option, none, some, List, [], ◌∷◌, Bytes, refl, inl, inr, Option-cases, arith,
}
use shadow_tor_eavesdropping.Sys.{Call, M, skip, has, epollin}
use shadow_tor_eavesdropping.Sys.Simulation.{Simulates, >>=-Simulates, if-Simulates}
use shadow_tor_eavesdropping.Logger.LoggerServer.{
  LoggerServer, loggerserver_store, loggerserver_log, loggerserver_read, loggerserver_activate,
  loggerserver_activate_all, loggerserver_ready, loggerserver_start_reader, loggerserver_bind,
  loggerserver_watch,
}
use shadow_tor_eavesdropping.Logger.Analyzer.{
  Analyzer, analyzer_store, analyzer_log, analyzer_read, analyzer_activate, analyzer_activate_all,
  analyzer_ready, analyzer_start_reader, analyzer_bind, analyzer_watch,
}
use shadow_tor_eavesdropping.TProxy.Handlers.{page_size}

-- A state of the analyzer, as one of the logger.
abbrev pub as_logger : Analyzer → LoggerServer
as_logger a = record {
  ined = a.ined;
  is_done = a.is_done;
  ain = a.ain;
  asockin = a.asockin;
  inport = a.inport;
  good_data = a.good_data;
  endread = a.endread;
  log_path = a.log_path;
  host_ip = a.host_ip;
}

abbrev pub Same : {A : Type 0} → M Analyzer A → M LoggerServer A → Type 0
Same = Simulates as_logger

log-Same : (got : Option Bytes) → Same (analyzer_log got) (loggerserver_log got)
unfolding analyzer_log loggerserver_log analyzer_store loggerserver_store
log-Same none k h t = refl
log-Same (some []) k h t = refl
log-Same (some (b ∷ bs)) k h t = refl

read-Same : (d : ℕ) → Same (analyzer_read d) (loggerserver_read d)
unfolding analyzer_read loggerserver_read
read-Same d k h t = log-Same (k.receives t (Call.recv d page_size)) k _ _

activate-Same : (d e : ℕ) → Same (analyzer_activate d e) (loggerserver_activate d e)
unfolding analyzer_activate loggerserver_activate
activate-Same d e =
    if-Simulates as_logger (has e epollin) (analyzer_read d) skip (loggerserver_read d) skip
      (read-Same d) λ k h t. refl

activate_all-Same :
    (ready : List (ℕ × ℕ)) → Same (analyzer_activate_all ready) (loggerserver_activate_all ready)
unfolding analyzer_activate_all loggerserver_activate_all
activate_all-Same [] k h t = refl
activate_all-Same ((d, e) ∷ rest) k h t =
    >>=-Simulates as_logger (analyzer_activate d e) (loggerserver_activate d e)
      (λ _. analyzer_activate_all rest) (λ _. loggerserver_activate_all rest) (activate-Same d e)
      (λ _. activate_all-Same rest) k h t

-- For every kernel, state and history, a run of `analyzer_ready` makes the same calls and ends the
-- same way as a run of `loggerserver_ready` from the same state, and leaves the same state.
pub analyzer_ready-Same : Same analyzer_ready loggerserver_ready
unfolding analyzer_ready loggerserver_ready
analyzer_ready-Same k h t = elim (Option-cases (k.polls t (Call.epoll_wait h.ined 10))) [
  | inl failed ↦ simp failed
  | inr (ready, polled) ↦ simp polled (activate_all-Same ready k h _)
]

-- For every kernel, state and history, `startReader` of the analyzer and of the logger make the
-- same calls, return the same result and leave the same state.
pub analyzer_start_reader-Same : Same analyzer_start_reader loggerserver_start_reader
unfolding analyzer_start_reader loggerserver_start_reader analyzer_bind loggerserver_bind
    analyzer_watch loggerserver_watch
analyzer_start_reader-Same k h t = ground arith
