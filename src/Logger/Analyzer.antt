-- ===== src/Logger/Analyzer.antt =====
-- The state and the handlers of analyzer/analyzer.c.
use shadow_tor_eavesdropping.Base.{
  ℕ, ◌==◌, ◌/=◌, if◌then◌else◌, Option, none, some, List, [], ◌∷◌, ℤ, Bytes,
}
use shadow_tor_eavesdropping.Sys.{
  M, Call, SockType, EpollOp, FileMode, minus_one, has, epollin, ◌>>=◌, ◌>>◌, pure, skip, get, put,
  call, perform, receive, poll,
}
use shadow_tor_eavesdropping.TProxy.Handlers.{page_size, result_size}

-- `struct _Analyzer`. The page `buf` of the struct is never used, and is left out.
pub record Analyzer : Type 0 where
  pub ined : ℕ
  pub is_done : ℕ
  pub ain : ℕ
  pub asockin : ℕ
  pub inport : ℕ
  pub good_data : ℤ
  pub endread : ℕ
  pub log_path : Bytes
  pub host_ip : ℕ

-- `startReader` once its socket is bound.
unfoldable pub analyzer_watch : M Analyzer ℕ
analyzer_watch = do
  h ← get
  res ← call (Call.epoll_ctl EpollOp.ctl_add h.ined h.asockin epollin)
  if res == minus_one then pure minus_one else pure 0

-- `startReader` once it has a socket.
unfoldable pub analyzer_bind : M Analyzer ℕ
analyzer_bind = do
  h ← get
  res ← call (Call.bind h.asockin h.host_ip h.inport)
  if res /= 0 then pure minus_one else analyzer_watch

unfoldable pub analyzer_start_reader : M Analyzer ℕ
analyzer_start_reader = do
  h ← get
  sd ← call (Call.socket SockType.dgram)
  put (record h { asockin = sd })
  if sd == minus_one then pure minus_one else analyzer_bind

unfoldable pub analyzer_free : M Analyzer (Unit {0})
analyzer_free = do h ← get; if h.ined /= 0 then perform (Call.close h.ined) else skip

-- What is done with a message that is not empty; the result of `open` is not looked at.
unfoldable pub analyzer_store : Bytes → M Analyzer (Unit {0})
analyzer_store bytes = do
  h ← get
  logfd ← call (Call.open_file FileMode.appending h.log_path)
  perform (Call.write logfd bytes)
  perform (Call.close logfd)

-- `if(h->good_data > 0)`
unfoldable pub analyzer_log : Option Bytes → M Analyzer (Unit {0})
analyzer_log none = skip
analyzer_log (some []) = skip
analyzer_log (some (b ∷ bs)) = analyzer_store (b ∷ bs)

-- The branch for EPOLLIN.
unfoldable pub analyzer_read : ℕ → M Analyzer (Unit {0})
analyzer_read sd = do
  h ← get
  got ← receive (Call.recv sd page_size)
  put (record h { endread = 0; good_data = result_size got })
  analyzer_log got

unfoldable pub analyzer_activate : ℕ → ℕ → M Analyzer (Unit {0})
analyzer_activate sd events = if has events epollin then analyzer_read sd else skip

-- The loop over the descriptors that are ready.
unfoldable pub analyzer_activate_all : List (ℕ × ℕ) → M Analyzer (Unit {0})
analyzer_activate_all [] = skip
analyzer_activate_all ((d, e) ∷ rest) = do analyzer_activate d e; analyzer_activate_all rest

unfoldable pub analyzer_ready : M Analyzer (Unit {0})
analyzer_ready = do
  h ← get
  epevs ← poll (Call.epoll_wait h.ined 10)
  elim epevs [ none ↦ skip | some ready ↦ analyzer_activate_all ready ]

unfoldable pub analyzer_get_epoll_descriptor : Analyzer → ℕ
analyzer_get_epoll_descriptor h = h.ined

unfoldable pub analyzer_is_done : Analyzer → ℕ
analyzer_is_done h = h.is_done

unfoldable pub analyzer_reset_accept : M Analyzer ℕ
unfolding analyzer_watch
analyzer_reset_accept = analyzer_watch
