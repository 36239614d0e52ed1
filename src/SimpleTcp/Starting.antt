-- ===== src/SimpleTcp/Starting.antt =====
-- How simpletcp/simpletcp.c opens its sockets (`startClient`, `startServer`) and wakes its client.
use shadow_tor_eavesdropping.Base.{ℕ, ◌==◌, ◌/=◌, ◌&&◌, if◌then◌else◌}
use shadow_tor_eavesdropping.Sys.{
  M, Call, SockType, EpollOp, Timeval, minus_one, epollin, epollout, einprogress, ◌>>=◌, ◌>>◌, pure,
  skip, get, put, call, perform, last_error,
}
use shadow_tor_eavesdropping.Glib.{HashTable}
use shadow_tor_eavesdropping.SimpleTcp.State.{SimpleTcp}

-- `INADDR_ANY`
abbrev pub inaddr_any : ℕ
inaddr_any = 0

module _ (g : HashTable Timeval) where
  -- The registration that ends both functions.
  unfoldable pub watch : ℕ → ℕ → M (SimpleTcp g) ℕ
  watch sd events = do
    h ← get
    res ← call (Call.epoll_ctl EpollOp.ctl_add h.ed sd events)
    if res == minus_one then pure minus_one else pure 0

  -- `startClient` once it has a socket.
  unfoldable pub connect_client : ℕ → M (SimpleTcp g) ℕ
  connect_client sd = do
    h ← get
    res ← call (Call.connect sd h.client_proxy_ip h.client_proxy_port)
    errno ← last_error
    if res == minus_one && errno /= einprogress then pure minus_one else watch sd epollout

  unfoldable pub start_client : M (SimpleTcp g) ℕ
  start_client = do
    h ← get
    sd ← call (Call.socket SockType.stream)
    put (record h { client_sd = sd })
    if sd == minus_one then pure minus_one else connect_client sd

  -- `startServer` once its socket is bound.
  unfoldable pub listen_server : ℕ → M (SimpleTcp g) ℕ
  listen_server sd = do
    res ← call (Call.listen sd 100)
    if res == minus_one then pure minus_one else watch sd epollin

  -- `startServer` once it has a socket.
  unfoldable pub bind_server : ℕ → M (SimpleTcp g) ℕ
  bind_server sd = do
    h ← get
    res ← call (Call.bind sd inaddr_any h.server_bind_port)
    if res == minus_one then pure minus_one else listen_server sd

  unfoldable pub start_server : M (SimpleTcp g) ℕ
  start_server = do
    h ← get
    sd ← call (Call.socket SockType.stream)
    put (record h { server_sd = sd })
    if sd == minus_one then pure minus_one else bind_server sd

  -- What the host does when the time of a callback has come.
  unfoldable pub wakeup_client : M (SimpleTcp g) (Unit {0})
  wakeup_client = do _ ← start_client; skip

  -- The pointer `createCallback` of the table that the host passes on, for `wakeupClient` and the
  -- state: what it does is up to the host.
  abbrev pub Later : Type 0
  Later = ℕ → M (SimpleTcp g) (Unit {0})

  unfoldable pub sleep_callback : Later → ℕ → M (SimpleTcp g) (Unit {0})
  sleep_callback later millisecs = later millisecs

  -- The pointer of the simulator, which calls `wakeupClient` by itself when the time has come.
  unfoldable pub requested : Later
  requested millisecs = perform (Call.create_callback millisecs)
