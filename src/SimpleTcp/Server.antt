-- ===== src/SimpleTcp/Server.antt =====
-- The server of simpletcp/simpletcp.c, and its log of who connected when.
use shadow_tor_eavesdropping.Base.{
  ℕ, ◌==◌, if◌then◌else◌, Option, none, some, [], ◌∷◌, ◌++◌, take, Bytes,
}
use shadow_tor_eavesdropping.Sys.{
  M, Call, EpollOp, FileMode, Timeval, Fault, minus_one, has, epollin, epollout, ◌>>=◌, ◌>>◌, skip,
  get, put, quit, fault, call, perform, receive, time_of_day,
}
use shadow_tor_eavesdropping.Glib.{HashTable}
use shadow_tor_eavesdropping.Format.{timestamp}
use shadow_tor_eavesdropping.TProxy.Buffers.{strlen}
use shadow_tor_eavesdropping.Sys.{or_fault}
use shadow_tor_eavesdropping.TProxy.Handlers.{result_size, filled, is_nonzero}
use shadow_tor_eavesdropping.SimpleTcp.State.{SimpleTcp}
use shadow_tor_eavesdropping.SimpleTcp.Client.{client_msg_size}

-- `"%s;%ld%06ld\n"`
unfoldable pub log_line : Bytes → Timeval → Bytes
log_line host time = host ++ (b';' ∷ timestamp time)

-- `"World!"`
abbrev pub world : Bytes
world = b'W' ∷ b'o' ∷ b'r' ∷ b'l' ∷ b'd' ∷ b'!' ∷ []

module _ (g : HashTable Timeval) where
  -- The writing of `logServerConnection`.
  unfoldable pub append_log : Bytes → M (SimpleTcp g) (Unit {0})
  append_log logbuf = do
    h ← get
    logfd ← call (Call.open_file FileMode.appending h.server_log_path)
    if logfd == minus_one then quit 1 else skip
    perform (Call.write logfd logbuf)
    perform (Call.close logfd)

  unfoldable pub log_found : Bytes → Option Timeval → M (SimpleTcp g) (Unit {0})
  log_found message none = quit 1
  log_found message (some time) = do
    len ← or_fault Fault.unterminated (strlen message)
    append_log (log_line (take len message) time)

  unfoldable pub log_server_connection : ℕ → Bytes → M (SimpleTcp g) (Unit {0})
  log_server_connection sd message = do h ← get; log_found message (g.lookup sd h.server_hashtab)

  -- The branch of `serverRead` for a client that has closed.
  unfoldable pub drop_client : ℕ → M (SimpleTcp g) (Unit {0})
  drop_client sd = do
    h ← get
    perform (Call.epoll_ctl EpollOp.ctl_del h.ed sd 0)
    perform (Call.close sd)
    put (record h { server_hashtab = g.remove sd h.server_hashtab })

  -- `numBytes` is a `size_t`, so its test `> 0` holds of every result but 0, -1 included, and
  -- the last branch of the source is never taken.
  unfoldable pub server_read : ℕ → M (SimpleTcp g) (Unit {0})
  server_read sd = do
    h ← get
    got ← receive (Call.recv sd client_msg_size)
    let message = filled client_msg_size got
    if is_nonzero (result_size got) then log_server_connection sd message else drop_client sd
    perform (Call.epoll_ctl EpollOp.ctl_mod h.ed sd epollout)

  unfoldable pub server_write : ℕ → M (SimpleTcp g) (Unit {0})
  server_write sd = do
    h ← get
    perform (Call.send sd world)
    perform (Call.epoll_ctl EpollOp.ctl_mod h.ed sd epollin)

  -- A new connection, with the time at which it came.
  unfoldable pub accept_client : ℕ → M (SimpleTcp g) (Unit {0})
  accept_client sd = do
    new_client_sd ← call (Call.accept sd)
    time ← time_of_day
    h ← get
    put (record h { server_hashtab = g.replace new_client_sd time h.server_hashtab })
    perform (Call.epoll_ctl EpollOp.ctl_add h.ed new_client_sd epollin)

  -- Events on a connection.
  unfoldable pub serve : ℕ → ℕ → M (SimpleTcp g) (Unit {0})
  serve sd events =
      if has events epollin
      then server_read sd
      else if has events epollout
      then server_write sd
      else skip

  -- Events on the listening socket.
  unfoldable pub welcome : ℕ → ℕ → M (SimpleTcp g) (Unit {0})
  welcome sd events = if has events epollin then accept_client sd else fault Fault.assertion

  unfoldable pub activate_server : ℕ → ℕ → M (SimpleTcp g) (Unit {0})
  activate_server sd events = do
    h ← get
    if sd == h.server_sd then welcome sd events else serve sd events
