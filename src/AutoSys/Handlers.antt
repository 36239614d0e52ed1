-- ===== src/AutoSys/Handlers.antt =====
-- The event handlers of autosys/autosys.c.
use shadow_tor_eavesdropping.Base.{
  ℕ, zero, suc, ◌==◌, ◌/=◌, if◌then◌else◌, Option, none, some, List, [], ◌∷◌, ℤ, pos, negsuc, ◌&&◌,
  not,
}
use shadow_tor_eavesdropping.Sys.{
  M, Call, SockType, Fault, has, epollin, epollout, epollall, einprogress, ◌>>=◌, ◌>>◌, pure, skip,
  get, put, quit, fault, call, perform, receive, allocation, last_error, poll,
}
use shadow_tor_eavesdropping.Glib.{HashTable}
use shadow_tor_eavesdropping.AutoSys.State.{As}
use shadow_tor_eavesdropping.TProxy.Buffers.{null, live, free, memset_zero, payload}
use shadow_tor_eavesdropping.TProxy.State.{Partner, update, blank}
use shadow_tor_eavesdropping.Sys.{or_fault}
use shadow_tor_eavesdropping.TProxy.Epoll.{set_epoll, reset_epoll}
use shadow_tor_eavesdropping.TProxy.Handlers.{
  page_size, max_clients, result_size, filled, is_nonzero, is_nonpositive, size, shrunk, is_null,
}
use shadow_tor_eavesdropping.AutoSys.Package.{as_udp_trace}

module _ (g : HashTable ℕ) where
  -- A write through the pointer `p`.
  abbrev pub as_store : ℕ → Partner → M (As g) (Unit {0})
  as_store p v = do h ← get; put (record h { partners = update h.partners p v })

  -- The free of a buffer that should hold nothing.
  unfoldable pub as_disaster_recovery : ℕ → M (As g) (Unit {0})
  as_disaster_recovery partner = do
    h ← get
    let p = h.partners partner
    buf ← or_fault Fault.double_free (free p.buf)
    as_store partner (record p { buf = buf })

  -- The end of `closeConnections`.
  abbrev pub as_forget : ℕ → M (As g) (Unit {0})
  as_forget sd = do h ← get; put (record h { hashmap = g.remove sd h.hashmap; is_done = 1 })

  unfoldable pub as_close_connections : ℕ → ℕ → M (As g) (Unit {0})
  unfolding reset_epoll
  as_close_connections sd partner = do
    h ← get
    _ ← reset_epoll h.ined sd
    perform (Call.close sd)
    if is_nonzero (h.partners partner).bufsize then as_disaster_recovery partner else skip
    as_forget sd

  -- The two ends of a connection, each under the other's descriptor.
  unfoldable pub as_link : ℕ → ℕ → As g → As g
  as_link cin cout h =
      let in_end = h.next in
      let out_end = suc h.next in
      record h {
        hashmap = g.replace cout in_end (g.replace cin out_end h.hashmap);
        partners =
            update (update h.partners out_end (record blank { sd = cout })) in_end
              (record blank { sd = cin });
        next = suc (suc h.next);
      }

  -- The branch of `handleNewConnection` for a `connect` that failed.
  unfoldable pub as_refuse : ℕ → ℕ → M (As g) (Unit {0})
  as_refuse cin cout = do perform (Call.close cin); perform (Call.close cout)

  -- Its rest: the two entries, and EPOLLIN for both ends.
  unfoldable pub as_admit : ℕ → ℕ → M (As g) (Unit {0})
  as_admit cin cout = do
    h ← get
    put (as_link cin cout h)
    _ ← set_epoll h.ined cin epollin
    _ ← set_epoll h.ined cout epollin
    skip

  -- Its part after the trace: the connection to the server.
  unfoldable pub as_connect_out : ℕ → ℕ → ℕ → M (As g) (Unit {0})
  as_connect_out cin ip port = do
    cout ← call (Call.socket SockType.stream)
    connected ← call (Call.connect cout ip port)
    errno ← last_error
    if connected /= 0 && errno /= einprogress then as_refuse cin cout else as_admit cin cout

  unfoldable pub as_handle_new_connection : ℕ → M (As g) (Unit {0})
  as_handle_new_connection sd = do
    h ← get
    if h.is_done == 1 then put (record h { is_done = 0 }) else skip
    cin ← call (Call.accept h.asockin)
    as_udp_trace g
    as_connect_out cin h.remote_ip h.outport

  -- `realloc` to the size of the message, and the result of `handleRead` after it.
  unfoldable pub as_shrink : ℕ → M (As g) ℤ
  as_shrink partner = do
    h ← get
    let p = h.partners partner
    block ← allocation (size p.bufsize)
    elim block [
      | none ↦ (do as_store partner (record p { buf = null }); pure (negsuc 0))
      | some _ ↦ (do
        as_store partner (record p { buf = shrunk (size p.bufsize) p.buf })
        pure (pos 0))
    ]

  unfoldable pub as_handle_read : ℕ → ℕ → M (As g) ℤ
  unfolding reset_epoll
  as_handle_read sd partner = do
    h ← get
    let p = h.partners partner
    block ← allocation page_size
    elim block [
      | none ↦ (do as_store partner (record p { buf = null }); pure (negsuc 0))
      | some _ ↦ (do
        got ← receive (Call.recv sd page_size)
        as_store partner (record p { bufsize = result_size got; buf = live (filled page_size got) })
        _ ← set_epoll h.ined p.sd epollall
        _ ← reset_epoll h.ined sd
        if is_nonpositive (result_size got) then pure (pos 1) else as_shrink partner)
    ]

  unfoldable pub as_handle_write : ℕ → ℕ → ℕ → M (As g) ℤ
  as_handle_write sd outsd me = do
    h ← get
    let m = h.partners me
    bytes ← or_fault Fault.bad_read (payload m.buf m.bufsize)
    perform (Call.send sd bytes)
    buf ← or_fault Fault.double_free (free (memset_zero 0 m.buf))
    as_store me (record m { bufsize = pos 0; buf = buf })
    _ ← set_epoll h.ined sd epollin
    _ ← set_epoll h.ined outsd epollin
    pure (pos 0)

  -- What `_tproxy_activateTProxy` does with the result of `handleRead`.
  unfoldable pub as_settle : ℕ → ℕ → ℤ → M (As g) (Unit {0})
  as_settle sd partner (pos zero) = skip
  as_settle sd partner (pos (suc n)) = as_close_connections sd partner
  as_settle sd partner (negsuc n) = quit 1

  -- The read branch for a descriptor that is not the listening one.
  unfoldable pub as_read_from : ℕ → Option ℕ → M (As g) (Unit {0})
  as_read_from sd none = fault Fault.null_pointer
  as_read_from sd (some partner) = do res ← as_handle_read sd partner; as_settle sd partner res

  -- The branch of `_tproxy_activateTProxy` for EPOLLIN.
  unfoldable pub as_on_input : ℕ → Option ℕ → M (As g) (Unit {0})
  as_on_input sd partner = do
    h ← get
    if sd == h.asockin then as_handle_new_connection sd else as_read_from sd partner

  -- What is done for a descriptor that can be written, by the entry of the other end.
  unfoldable pub as_write_to : ℕ → ℕ → ℕ → Option ℕ → M (As g) (Unit {0})
  as_write_to sd partner other none = do
    h ← get
    if h.is_done == 1 then as_close_connections sd partner else quit 1
  as_write_to sd partner other (some me) = do _ ← as_handle_write sd other me; skip

  -- The branch for EPOLLOUT.
  unfoldable pub as_on_output : ℕ → Option ℕ → M (As g) (Unit {0})
  as_on_output sd none = fault Fault.null_pointer
  as_on_output sd (some partner) = do
    h ← get
    let other = (h.partners partner).sd
    as_write_to sd partner other (g.lookup other h.hashmap)

  unfoldable pub as_activate : ℕ → ℕ → M (As g) (Unit {0})
  as_activate sd events = do
    h ← get
    let partner = g.lookup sd h.hashmap
    if is_null partner && not (sd == h.asockin) then quit 1 else skip
    if has events epollin then as_on_input sd partner else skip
    if has events epollout then as_on_output sd partner else skip

  -- The loop over the descriptors that are ready.
  unfoldable pub as_activate_all : List (ℕ × ℕ) → M (As g) (Unit {0})
  as_activate_all [] = skip
  as_activate_all ((sd, events) ∷ rest) = do as_activate sd events; as_activate_all rest

  unfoldable pub as_ready : M (As g) (Unit {0})
  as_ready = do
    h ← get
    epevs ← poll (Call.epoll_wait h.ined max_clients)
    elim epevs [ none ↦ skip | some ready ↦ as_activate_all ready ]

unfoldable pub as_get_epoll_descriptor : {g : HashTable ℕ} → As g → ℕ
as_get_epoll_descriptor h = h.ined

unfoldable pub as_is_done : {g : HashTable ℕ} → As g → ℕ
as_is_done h = h.is_done
