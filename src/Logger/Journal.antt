-- ===== src/Logger/Journal.antt =====
-- What the log file of loggerserver/loggerserver.c holds.
use shadow_tor_eavesdropping.Base.{
  ℕ, Option, none, some, List, [], ◌∷◌, ◌++◌, Bytes, ◌≡◌, refl, sym, ap, ◌∙◌, inl, inr,
  Option-cases, Bool-cases,
}
use mathlib.Core.List.{append-nil, append_assoc}
use shadow_tor_eavesdropping.Sys.{Kernel, Trace, Call, Outcome, ok, ◌>>=◌, has, epollin}
use shadow_tor_eavesdropping.TProxy.Relay.{received}
use shadow_tor_eavesdropping.TProxy.Handlers.{page_size}
use shadow_tor_eavesdropping.Logger.File.{contents, stored, stored_empty, contents-stored}
use shadow_tor_eavesdropping.Logger.LoggerServer.{
  LoggerServer, loggerserver_store, loggerserver_log, loggerserver_read, loggerserver_activate,
  loggerserver_activate_all, loggerserver_ready,
}

-- What the program has stored: of each message that came by `recv`, in order, as much as the calls
-- let through that store it, if they come next. Nothing is lost while the file opens and each
-- `write` takes what it is given.
unfoldable pub arrived : Kernel → Bytes → Trace → Bytes
arrived k path [] = []
arrived k path (Call.recv sd n ∷ t) =
    arrived k path t
    ++ stored k path (Call.recv sd n ∷ t) (received (k.receives t (Call.recv sd n)))
arrived k path (_ ∷ t) = arrived k path t

-- The file at `path`, which held `old` at first, holds `kept` and then what arrived.
abbrev pub Kept : Kernel → Bytes → Bytes → Bytes → Trace → Type 0
Kept k path old kept t = contents k path old t ≡ some (kept ++ arrived k path t)

-- The run returns, what arrived is in the file at the path of the state, and the path and
-- `is_done` are what they were.
abbrev pub IsFaithful :
    Kernel → Bytes → Bytes → LoggerServer → Outcome LoggerServer (Unit {0}) → Type 0
IsFaithful k old kept h o =
    (h' : LoggerServer) × (t' : Trace) × (o ≡ ok tt h' t')
    × Kept k h.log_path old kept t'
    × (h'.is_done ≡ h.is_done)
    × (h'.log_path ≡ h.log_path)

-- The message `got`, which has just come, is the last that arrived.
log_IsFaithful :
    (k : Kernel) (old kept a : Bytes) (h : LoggerServer) (t : Trace) (got : Option Bytes)
    → contents k h.log_path old t ≡ some (kept ++ a)
    → arrived k h.log_path t ≡ a ++ stored k h.log_path t (received got)
    → IsFaithful k old kept h (loggerserver_log got k h t)
unfolding loggerserver_log loggerserver_store contents arrived received
log_IsFaithful k old kept a h t none e came =
    (h, t, refl, simp (e, came, stored_empty, append-nil), refl, refl)
log_IsFaithful k old kept a h t (some []) e came =
    (h, t, refl, simp (e, came, stored_empty, append-nil), refl, refl)
log_IsFaithful k old kept a h t (some (b ∷ bs)) e came =
    let after = contents-stored k h.log_path old (kept ++ a) (b ∷ bs) t e in
    (
      h,
      _,
      refl,
      after ∙ ap some (append_assoc kept a _ ∙ ap (λ r. kept ++ r) (sym came)),
      refl,
      refl,
    )

read_IsFaithful :
    (k : Kernel) (old kept : Bytes) (h : LoggerServer) (t : Trace) (sd : ℕ)
    → Kept k h.log_path old kept t
    → IsFaithful k old kept h (loggerserver_read sd k h t)
unfolding loggerserver_read contents arrived
read_IsFaithful k old kept h t sd e =
    log_IsFaithful k old kept (arrived k h.log_path t) _ _ (k.receives t (Call.recv sd page_size)) e
      refl

activate_IsFaithful :
    (k : Kernel) (old kept : Bytes) (h : LoggerServer) (t : Trace) (sd events : ℕ)
    → Kept k h.log_path old kept t
    → IsFaithful k old kept h (loggerserver_activate sd events k h t)
unfolding loggerserver_activate
activate_IsFaithful k old kept h t sd events e = elim (Bool-cases (has events epollin)) [
  | inl on ↦ rw on (read_IsFaithful k old kept h t sd e)
  | inr off ↦ rw off (h, t, refl, e, refl, refl)
]

activate_all_IsFaithful :
    (ready : List (ℕ × ℕ)) (k : Kernel) (old kept : Bytes) (h : LoggerServer) (t : Trace)
    → Kept k h.log_path old kept t
    → IsFaithful k old kept h (loggerserver_activate_all ready k h t)
unfolding loggerserver_activate_all
activate_all_IsFaithful [] k old kept h t e = (h, t, refl, e, refl, refl)
activate_all_IsFaithful ((d, events) ∷ rest) k old kept h t e =
    let (h1, t1, ran, holds, same, path) = activate_IsFaithful k old kept h t d events e in
    let (h2, t2, ran', holds', same', path') =
      activate_all_IsFaithful rest k old kept h1 t1 (rw path holds) in
    (h2, t2, simp (ran, ◌>>=◌) ran', rw path at holds', same' ∙ same, path' ∙ path)

-- If the file at the path of the state holds some bytes and then what arrived, that is, of each message that came by `recv`, in order, as much as the `open` of that file and the `write`
-- after it let through, then `loggerserver_ready` returns, whatever the kernel answers, the same is
-- true when it has, and `isDone` and the path are what they were.
pub loggerserver_ready-IsFaithful :
    (k : Kernel) (old kept : Bytes) (h : LoggerServer) (t : Trace)
    → Kept k h.log_path old kept t
    → IsFaithful k old kept h (loggerserver_ready k h t)
unfolding loggerserver_ready contents arrived
loggerserver_ready-IsFaithful k old kept h t e =
    elim (Option-cases (k.polls t (Call.epoll_wait h.ined 10))) [
      | inl failed ↦ (h, Call.epoll_wait h.ined 10 ∷ t, simp failed, e, refl, refl)
      | inr (ready, polled) ↦
          let (h', t', ran, holds, same, path) =
            activate_all_IsFaithful ready k old kept h (Call.epoll_wait h.ined 10 ∷ t) e in
          (h', t', simp polled ran, holds, same, path)
    ]
