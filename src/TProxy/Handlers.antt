-- ===== src/TProxy/Handlers.antt =====
-- The event handlers of tropeaproxy/tproxy.c.
use shadow_tor_eavesdropping.Base.{
  ℕ, zero, suc, ◌-◌, ◌==◌, ◌/=◌, if◌then◌else◌, Option, none, some, List, [], ◌∷◌, ◌++◌, ℤ, pos,
  negsuc, length, take, replicate, ◌&&◌, not, Bool, true, false, Bytes,
}
use shadow_tor_eavesdropping.Sys.{
  M, Call, SockType, Fault, has, epollin, epollout, epollall, einprogress, ◌>>=◌, ◌>>◌, pure, skip,
  get, put, quit, fault, call, perform, receive, allocation, last_error, poll,
}
use shadow_tor_eavesdropping.Glib.{HashTable}
use shadow_tor_eavesdropping.TProxy.Buffers.{Buffer, null, live, freed, free, memset_zero, payload}
use shadow_tor_eavesdropping.TProxy.State.{Partner, TProxy, update, blank}
use shadow_tor_eavesdropping.TProxy.Package.{udp_trace}
use shadow_tor_eavesdropping.Sys.{or_fault}
use shadow_tor_eavesdropping.TProxy.Epoll.{set_epoll, reset_epoll}

abbrev pub page_size : ℕ
page_size = 4096

abbrev pub max_clients : ℕ
max_clients = 1024

-- `recv`'s result, as the `ssize_t` that is kept of it.
abbrev pub result_size : Option Bytes → ℤ
result_size none = negsuc 0
result_size (some bs) = pos (length bs)

-- What stands in a block of zeros after `recv` has written to it.
abbrev pub filled : ℕ → Option Bytes → Bytes
filled n none = replicate n 0
filled n (some bs) = bs ++ replicate (n - length bs) 0

-- `n != 0` and `n <= 0` on an `ssize_t`, and its value where it is positive.
abbrev pub is_nonzero : ℤ → Bool
is_nonzero (pos zero) = false
is_nonzero (pos (suc n)) = true
is_nonzero (negsuc n) = true

abbrev pub is_nonpositive : ℤ → Bool
is_nonpositive (pos zero) = true
is_nonpositive (pos (suc n)) = false
is_nonpositive (negsuc n) = true

abbrev pub size : ℤ → ℕ
size (pos n) = n
size (negsuc n) = 0

-- The contents of a block that `realloc` makes smaller.
abbrev pub shrunk : ℕ → Buffer → Buffer
shrunk n null = null
shrunk n (live bs) = live (take n bs)
shrunk n (freed bs) = freed bs

abbrev pub is_null : Option ℕ → Bool
is_null none = true
is_null (some p) = false

module _ (g : HashTable ℕ) where
  -- A write through the pointer `p`.
  abbrev pub store : ℕ → Partner → M (TProxy g) (Unit {0})
  store p v = do h ← get; put (record h { partners = update h.partners p v })

  -- The free of a buffer that should hold nothing.
  unfoldable pub disaster_recovery : ℕ → M (TProxy g) (Unit {0})
  disaster_recovery partner = do
    h ← get
    let p = h.partners partner
    buf ← or_fault Fault.double_free (free p.buf)
    store partner (record p { buf = buf })

  -- The end of `closeConnections`.
  abbrev pub forget : ℕ → M (TProxy g) (Unit {0})
  forget sd = do h ← get; put (record h { hashmap = g.remove sd h.hashmap; is_done = 1 })

  unfoldable pub close_connections : ℕ → ℕ → M (TProxy g) (Unit {0})
  unfolding reset_epoll
  close_connections sd partner = do
    h ← get
    _ ← reset_epoll h.ined sd
    perform (Call.close sd)
    if is_nonzero (h.partners partner).bufsize then disaster_recovery partner else skip
    forget sd

  -- The two ends of a connection, each under the other's descriptor.
  unfoldable pub link : ℕ → ℕ → TProxy g → TProxy g
  link cin cout h =
      let in_end = h.next in
      let out_end = suc h.next in
      record h {
        hashmap = g.replace cout in_end (g.replace cin out_end h.hashmap);
        partners =
            update (update h.partners out_end (record blank { sd = cout })) in_end
              (record blank { sd = cin });
        next = suc (suc h.next);
      }

  -- The branch of `handleNewConnection` for a `connect` that failed.
  unfoldable pub refuse : ℕ → ℕ → M (TProxy g) (Unit {0})
  refuse cin cout = do perform (Call.close cin); perform (Call.close cout)

  -- Its rest: the two entries, and EPOLLIN for both ends.
  unfoldable pub admit : ℕ → ℕ → M (TProxy g) (Unit {0})
  admit cin cout = do
    h ← get
    put (link cin cout h)
    _ ← set_epoll h.ined cin epollin
    _ ← set_epoll h.ined cout epollin
    skip

  -- Its part after the trace: the connection to the server.
  unfoldable pub connect_out : ℕ → ℕ → ℕ → M (TProxy g) (Unit {0})
  connect_out cin ip port = do
    cout ← call (Call.socket SockType.stream)
    connected ← call (Call.connect cout ip port)
    errno ← last_error
    if connected /= 0 && errno /= einprogress then refuse cin cout else admit cin cout

  unfoldable pub handle_new_connection : ℕ → M (TProxy g) (Unit {0})
  handle_new_connection sd = do
    h ← get
    if h.is_done == 1 then put (record h { is_done = 0 }) else skip
    cin ← call (Call.accept h.asockin)
    udp_trace g
    connect_out cin h.remote_ip h.outport

  -- `realloc` to the size of the message, and the result of `handleRead` after it.
  unfoldable pub shrink : ℕ → M (TProxy g) ℤ
  shrink partner = do
    h ← get
    let p = h.partners partner
    block ← allocation (size p.bufsize)
    elim block [
      | none ↦ (do store partner (record p { buf = null }); pure (negsuc 0))
      | some _ ↦ (do store partner (record p { buf = shrunk (size p.bufsize) p.buf }); pure (pos 0))
    ]

  unfoldable pub handle_read : ℕ → ℕ → M (TProxy g) ℤ
  unfolding reset_epoll
  handle_read sd partner = do
    h ← get
    let p = h.partners partner
    block ← allocation page_size
    elim block [
      | none ↦ (do store partner (record p { buf = null }); pure (negsuc 0))
      | some _ ↦ (do
        got ← receive (Call.recv sd page_size)
        store partner (record p { bufsize = result_size got; buf = live (filled page_size got) })
        _ ← set_epoll h.ined p.sd epollall
        _ ← reset_epoll h.ined sd
        if is_nonpositive (result_size got) then pure (pos 1) else shrink partner)
    ]

  unfoldable pub handle_write : ℕ → ℕ → ℕ → M (TProxy g) ℤ
  handle_write sd outsd me = do
    h ← get
    let m = h.partners me
    bytes ← or_fault Fault.bad_read (payload m.buf m.bufsize)
    perform (Call.send sd bytes)
    buf ← or_fault Fault.double_free (free (memset_zero 0 m.buf))
    store me (record m { bufsize = pos 0; buf = buf })
    _ ← set_epoll h.ined sd epollin
    _ ← set_epoll h.ined outsd epollin
    pure (pos 0)

  -- What `_tproxy_activateTProxy` does with the result of `handleRead`.
  unfoldable pub settle : ℕ → ℕ → ℤ → M (TProxy g) (Unit {0})
  settle sd partner (pos zero) = skip
  settle sd partner (pos (suc n)) = close_connections sd partner
  settle sd partner (negsuc n) = quit 1

  -- The read branch for a descriptor that is not the listening one.
  unfoldable pub read_from : ℕ → Option ℕ → M (TProxy g) (Unit {0})
  read_from sd none = fault Fault.null_pointer
  read_from sd (some partner) = do res ← handle_read sd partner; settle sd partner res

  -- The branch of `_tproxy_activateTProxy` for EPOLLIN.
  unfoldable pub on_input : ℕ → Option ℕ → M (TProxy g) (Unit {0})
  on_input sd partner = do
    h ← get
    if sd == h.asockin then handle_new_connection sd else read_from sd partner

  -- What is done for a descriptor that can be written, by the entry of the other end.
  unfoldable pub write_to : ℕ → ℕ → ℕ → Option ℕ → M (TProxy g) (Unit {0})
  write_to sd partner other none = do
    h ← get
    if h.is_done == 1 then close_connections sd partner else quit 1
  write_to sd partner other (some me) = do _ ← handle_write sd other me; skip

  -- The branch for EPOLLOUT.
  unfoldable pub on_output : ℕ → Option ℕ → M (TProxy g) (Unit {0})
  on_output sd none = fault Fault.null_pointer
  on_output sd (some partner) = do
    h ← get
    let other = (h.partners partner).sd
    write_to sd partner other (g.lookup other h.hashmap)

  unfoldable pub activate_tproxy : ℕ → ℕ → M (TProxy g) (Unit {0})
  activate_tproxy sd events = do
    h ← get
    let partner = g.lookup sd h.hashmap
    if is_null partner && not (sd == h.asockin) then quit 1 else skip
    if has events epollin then on_input sd partner else skip
    if has events epollout then on_output sd partner else skip

  -- The loop over the descriptors that are ready.
  unfoldable pub activate_all : List (ℕ × ℕ) → M (TProxy g) (Unit {0})
  activate_all [] = skip
  activate_all ((sd, events) ∷ rest) = do activate_tproxy sd events; activate_all rest

  unfoldable pub tproxy_ready : M (TProxy g) (Unit {0})
  tproxy_ready = do
    h ← get
    epevs ← poll (Call.epoll_wait h.ined max_clients)
    elim epevs [ none ↦ skip | some ready ↦ activate_all ready ]

unfoldable pub tproxy_get_epoll_descriptor : {g : HashTable ℕ} → TProxy g → ℕ
tproxy_get_epoll_descriptor h = h.ined

unfoldable pub tproxy_is_done : {g : HashTable ℕ} → TProxy g → ℕ
tproxy_is_done h = h.is_done
