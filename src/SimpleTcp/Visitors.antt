-- ===== src/SimpleTcp/Visitors.antt =====
-- What the log file of a server of simpletcp/simpletcp.c holds, on any kernel.
pub mod Handlers
pub mod Events
pub mod Life
mod Runs
use shadow_tor_eavesdropping.Base.{
  ℕ, ◌==◌, if◌then◌else◌, Option, none, some, List, [], ◌∷◌, take, All, ℤ, pos, Bytes, ◌≡◌, refl,
  arith, Bool, true, false, inl, inr, Bool-cases, Option-cases,
}
use shadow_tor_eavesdropping.Sys.{
  Kernel, M, Trace, Call, FileMode, EpollOp, Timeval, Fault, minus_one, ◌>>=◌, ◌>>◌, pure, has,
  perform, epollin, epollout,
}
use shadow_tor_eavesdropping.Sys.Ends.{AnyFault, Ends, >>=-Ends}
use shadow_tor_eavesdropping.Glib.{HashTable}
use shadow_tor_eavesdropping.TProxy.Buffers.{strlen}
use shadow_tor_eavesdropping.TProxy.Handlers.{filled, result_size, is_nonzero}
use shadow_tor_eavesdropping.SimpleTcp.State.{SimpleTcp, Status, socks5_done}
use shadow_tor_eavesdropping.SimpleTcp.Starting.{Later}
use shadow_tor_eavesdropping.SimpleTcp.Client.{
  client_msg_size, client_send_msg, client_turn, await, client_write, next_round, hang_up,
  client_answer, client_read, client_event, activate_client,
}
use shadow_tor_eavesdropping.SimpleTcp.Server.{
  log_line, append_log, log_found, log_server_connection, drop_client, server_read, server_write,
  accept_client, serve, welcome, activate_server,
}
use shadow_tor_eavesdropping.SimpleTcp.Loop.{dispatch, dispatch_all, simpletcp_ready}

-- The time of the last `accept` that gave the descriptor.
unfoldable pub accepted : Kernel → ℕ → Trace → Option Timeval
accepted k sd [] = none
accepted k sd (Call.accept s ∷ t) =
    let before = accepted k sd t in
    if k.returns t (Call.accept s) == sd then some (k.clock (Call.accept s ∷ t)) else before
accepted k sd (_ ∷ t) = accepted k sd t

-- What was written to files: the descriptor, the bytes, and the calls before.
unfoldable pub writes : Trace → List (ℕ × Bytes × Trace)
writes [] = []
writes (Call.write fd line ∷ t) = (fd, line, t) ∷ writes t
writes (_ ∷ t) = writes t

-- A line of the log at `path`: the file was opened to append to it, after a `recv` on a connection
-- that has left a text in the message; the line is that text with the time at which the connection
-- was accepted.
abbrev pub IsVisit : Kernel → Bytes → ℕ × Bytes × Trace → Type 0
IsVisit k path (fd, line, t) =
    (sd : ℕ) × (time : Timeval) × (len : ℕ) × (before : Trace) × (t
      ≡ Call.open_file FileMode.appending path ∷ Call.recv sd client_msg_size ∷ before)
    × (fd
        ≡ k.returns (Call.recv sd client_msg_size ∷ before)
            (Call.open_file FileMode.appending path))
    × (accepted k sd before ≡ some time)
    × (strlen (filled client_msg_size (k.receives before (Call.recv sd client_msg_size)))
        ≡ some len)
    × (line
        ≡ log_line
            (take len (filled client_msg_size (k.receives before (Call.recv sd client_msg_size))))
            time)

module _ (g : HashTable Timeval) (k : Kernel) where
  -- A server whose table holds the times of its connections, and whose log only holds visits. It
  -- has no connections of its own to make.
  pub record IsServing (h : SimpleTcp g) (t : Trace) : Type 0 where
    pub visits : All (IsVisit k h.server_log_path) (writes t)
    pub timed :
        (sd : ℕ) (time : Timeval)
        → g.lookup sd h.server_hashtab ≡ some time
        → accepted k sd t ≡ some time
    pub at_rest : h.client_socks5_status ≡ socks5_done
    pub alone : h.client_nconn ≡ pos 0

  abbrev pub StaysServing : {A : Type 0} → M (SimpleTcp g) A → Type 0
  StaysServing m =
      (h : SimpleTcp g) (t : Trace) → IsServing h t → Ends (λ _. IsServing) AnyFault (m k h t)

  -- The other calls do not matter.
  pub kept :
      (h h' : SimpleTcp g) (t t' : Trace)
      → h'.server_log_path ≡ h.server_log_path
      → h'.server_hashtab ≡ h.server_hashtab
      → h'.client_socks5_status ≡ socks5_done
      → h'.client_nconn ≡ h.client_nconn
      → writes t' ≡ writes t
      → ((sd : ℕ) → accepted k sd t' ≡ accepted k sd t)
      → IsServing h t
      → IsServing h' t'
  kept h h' t t' path table done nconn written same i = record {
    visits = rw (path, written) i.visits;
    timed = λ sd time found. rw (same sd) (i.timed sd time (rw table at found));
    at_rest = done;
    alone = rw nconn i.alone;
  }
