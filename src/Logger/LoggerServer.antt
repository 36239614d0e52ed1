-- ===== src/Logger/LoggerServer.antt =====
-- The state and the handlers of loggerserver/loggerserver.c.
use shadow_tor_eavesdropping.Base.{
  ℕ, ◌==◌, ◌/=◌, if◌then◌else◌, Option, none, some, List, [], ◌∷◌, ℤ, Bytes,
}
use shadow_tor_eavesdropping.Sys.{
  M, Call, SockType, EpollOp, FileMode, minus_one, has, epollin, ◌>>=◌, ◌>>◌, pure, skip, get, put,
  call, perform, receive, poll,
}
use shadow_tor_eavesdropping.TProxy.Handlers.{page_size, result_size}

-- `struct _LoggerServer`. The page `buf` of the struct is never used, and is left out.
pub record LoggerServer : Type 0 where
  pub ined : ℕ
  pub is_done : ℕ
  pub ain : ℕ
  pub asockin : ℕ
  pub inport : ℕ
  pub good_data : ℤ
  pub endread : ℕ
  pub log_path : Bytes
  pub host_ip : ℕ

-- `startReader` once its socket is bound.
unfoldable pub loggerserver_watch : M LoggerServer ℕ
loggerserver_watch = do
  h ← get
  res ← call (Call.epoll_ctl EpollOp.ctl_add h.ined h.asockin epollin)
  if res == minus_one then pure minus_one else pure 0

-- `startReader` once it has a socket.
unfoldable pub loggerserver_bind : M LoggerServer ℕ
loggerserver_bind = do
  h ← get
  res ← call (Call.bind h.asockin h.host_ip h.inport)
  if res /= 0 then pure minus_one else loggerserver_watch

unfoldable pub loggerserver_start_reader : M LoggerServer ℕ
loggerserver_start_reader = do
  h ← get
  sd ← call (Call.socket SockType.dgram)
  put (record h { asockin = sd })
  if sd == minus_one then pure minus_one else loggerserver_bind

unfoldable pub loggerserver_free : M LoggerServer (Unit {0})
loggerserver_free = do h ← get; if h.ined /= 0 then perform (Call.close h.ined) else skip

-- What is done with a message that is not empty; the result of `open` is not looked at.
unfoldable pub loggerserver_store : Bytes → M LoggerServer (Unit {0})
loggerserver_store bytes = do
  h ← get
  logfd ← call (Call.open_file FileMode.appending h.log_path)
  perform (Call.write logfd bytes)
  perform (Call.close logfd)

-- `if(h->good_data > 0)`
unfoldable pub loggerserver_log : Option Bytes → M LoggerServer (Unit {0})
loggerserver_log none = skip
loggerserver_log (some []) = skip
loggerserver_log (some (b ∷ bs)) = loggerserver_store (b ∷ bs)

-- The branch for EPOLLIN.
unfoldable pub loggerserver_read : ℕ → M LoggerServer (Unit {0})
loggerserver_read sd = do
  h ← get
  got ← receive (Call.recv sd page_size)
  put (record h { endread = 0; good_data = result_size got })
  loggerserver_log got

unfoldable pub loggerserver_activate : ℕ → ℕ → M LoggerServer (Unit {0})
loggerserver_activate sd events = if has events epollin then loggerserver_read sd else skip

-- The loop over the descriptors that are ready.
unfoldable pub loggerserver_activate_all : List (ℕ × ℕ) → M LoggerServer (Unit {0})
loggerserver_activate_all [] = skip
loggerserver_activate_all ((d, e) ∷ rest) = do
  loggerserver_activate d e
  loggerserver_activate_all rest

unfoldable pub loggerserver_ready : M LoggerServer (Unit {0})
loggerserver_ready = do
  h ← get
  epevs ← poll (Call.epoll_wait h.ined 10)
  elim epevs [ none ↦ skip | some ready ↦ loggerserver_activate_all ready ]

unfoldable pub loggerserver_get_epoll_descriptor : LoggerServer → ℕ
loggerserver_get_epoll_descriptor h = h.ined

unfoldable pub loggerserver_is_done : LoggerServer → ℕ
loggerserver_is_done h = h.is_done

unfoldable pub loggerserver_reset_accept : M LoggerServer ℕ
unfolding loggerserver_watch
loggerserver_reset_accept = loggerserver_watch
