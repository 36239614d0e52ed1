-- ===== src/SimpleTcp/Client.antt =====
-- The client of simpletcp/simpletcp.c: the SOCKS5 handshake, the message and the next connection.
use shadow_tor_eavesdropping.Base.{
  ℕ, zero, suc, ◌+◌, ◌-◌, ◌%◌, ◌==◌, ◌/=◌, ◌||◌, if◌then◌else◌, Bool, Option, none, some, ℤ, pos,
  negsuc, take, replicate, Bytes,
}
use shadow_tor_eavesdropping.Sys.{
  M, Call, EpollOp, Timeval, Fault, minus_one, has, epollin, epollout, ◌>>=◌, ◌>>◌, pure, skip, get,
  put, quit, fault, perform, receive, transfer, random_number,
}
use shadow_tor_eavesdropping.Glib.{HashTable}
use shadow_tor_eavesdropping.TProxy.Buffers.{write_at, strlen}
use shadow_tor_eavesdropping.Sys.{or_fault}
use shadow_tor_eavesdropping.SimpleTcp.State.{
  SimpleTcp, Status, socks5_done, socks5_connection_ok, socks5_connection_fail,
  socks5_connection_req, socks5_method_negotation_fail, socks5_method_negotation_ok,
  socks5_method_negotation_req, socks5_init,
}
use shadow_tor_eavesdropping.SimpleTcp.Packets.{negotation_packet, request_packet, reply}
use shadow_tor_eavesdropping.SimpleTcp.Starting.{Later, sleep_callback}

abbrev pub client_msg_size : ℕ
client_msg_size = 256

abbrev pub default_sleep_conn_time : ℕ
default_sleep_conn_time = 1000

-- The result of a `write`, and of a `read` whose answer failed a test.
abbrev pub failed : ℤ → ℕ
failed (pos n) = 0
failed (negsuc n) = minus_one

abbrev pub judged : Option Bytes → Bool → ℕ
judged none bad = minus_one
judged (some bs) bad = if bad then minus_one else 0

module _ (g : HashTable Timeval) where
  unfoldable pub socks5_negotation : ℕ → ℕ → M (SimpleTcp g) ℕ
  socks5_negotation sd event =
      if has event epollout
      then (do res ← transfer (Call.write sd negotation_packet); pure (failed res))
      else if has event epollin
      then (do
        got ← receive (Call.read sd 2)
        pure (judged got (reply got negotation_packet == 255)))
      else pure 0

  -- `socks5ConnRequest` once its packet stands.
  unfoldable pub request_turn : ℕ → ℕ → Bytes → M (SimpleTcp g) ℕ
  request_turn sd event packet =
      if has event epollout
      then (do res ← transfer (Call.write sd packet); pure (failed res))
      else if has event epollin
      then (do got ← receive (Call.read sd 10); pure (judged got (reply got packet /= 0)))
      else pure 0

  unfoldable pub socks5_conn_request : ℕ → ℕ → M (SimpleTcp g) ℕ
  socks5_conn_request sd event = do
    h ← get
    request_turn sd event (request_packet h.client_server_ip h.client_server_port)

  -- `memset`, `strcpy` and `send` of the client's name.
  unfoldable pub client_send_msg : ℕ → M (SimpleTcp g) (Unit {0})
  client_send_msg sd = do
    h ← get
    len ← or_fault Fault.unterminated (strlen h.hostname)
    let name = take (suc len) h.hostname
    message ← or_fault Fault.bad_write (write_at 0 name (replicate client_msg_size 0))
    size ← or_fault Fault.unterminated (strlen message)
    perform (Call.send sd (take size message))

  -- The switch of `clientWrite`, with the status it leaves.
  unfoldable pub client_turn : ℕ → Status → M (SimpleTcp g) Status
  client_turn sd socks5_init = do
    _ ← socks5_negotation sd epollout
    pure socks5_method_negotation_req
  client_turn sd socks5_method_negotation_ok = do
    _ ← socks5_conn_request sd epollout
    pure socks5_connection_req
  client_turn sd socks5_connection_ok = do client_send_msg sd; pure socks5_done
  client_turn sd socks5_done = do client_send_msg sd; pure socks5_done
  client_turn sd _ = quit 1

  -- What follows a packet: the new status, and the event that the client waits for next.
  unfoldable pub await : ℕ → ℕ → Status → M (SimpleTcp g) (Unit {0})
  await sd event status = do
    h ← get
    put (record h { client_socks5_status = status })
    perform (Call.epoll_ctl EpollOp.ctl_mod h.ed sd event)

  unfoldable pub client_write : ℕ → M (SimpleTcp g) (Unit {0})
  client_write sd = do
    h ← get
    status ← client_turn sd h.client_socks5_status
    await sd epollin status

  -- `rand() % (smax - smin) + smin`
  unfoldable pub sleep_time : ℕ → ℕ → M (SimpleTcp g) ℕ
  sleep_time smin smax = do
    n ← random_number
    if smax == smin then fault Fault.division_by_zero else pure (n % (smax - smin) + smin)

module _ (g : HashTable Timeval) (later : Later g) where
  -- The part of `clientRead` for a client that will connect again.
  unfoldable pub again : ℕ → M (SimpleTcp g) (Unit {0})
  again n = do
    h ← get
    put (record h { client_socks5_status = socks5_init; client_nconn = pos n })
    let smin = h.client_sleep_min
    let smax = h.client_sleep_max
    time ← if smin /= 0 || smax /= 0 then sleep_time g smin smax else pure default_sleep_conn_time
    sleep_callback g later time

  -- The end of a connection, by the number of connections still to make.
  unfoldable pub next_round : ℤ → M (SimpleTcp g) (Unit {0})
  next_round (pos zero) = do h ← get; put (record h { is_done = 1 })
  next_round (pos (suc zero)) = do h ← get; put (record h { is_done = 1 })
  next_round (pos (suc (suc n))) = again (suc n)
  next_round (negsuc n) = do h ← get; put (record h { is_done = 1 })

  -- The branch of `clientRead` for an answer of the server.
  unfoldable pub hang_up : ℕ → M (SimpleTcp g) (Unit {0})
  hang_up sd = do
    h ← get
    perform (Call.epoll_ctl EpollOp.ctl_del h.ed sd 0)
    perform (Call.close sd)
    put (record h { client_sd = 0 })
    next_round h.client_nconn

  -- The switch of `clientRead`.
  unfoldable pub client_answer : ℕ → Status → M (SimpleTcp g) (Unit {0})
  client_answer sd socks5_method_negotation_req = do
    res ← socks5_negotation g sd epollin
    await g sd epollout
        (if res == minus_one then socks5_method_negotation_fail else socks5_method_negotation_ok)
  client_answer sd socks5_connection_req = do
    res ← socks5_conn_request g sd epollin
    await g sd epollout (if res == minus_one then socks5_connection_fail else socks5_connection_ok)
  client_answer sd socks5_done = hang_up sd
  client_answer sd _ = quit 1

  unfoldable pub client_read : ℕ → M (SimpleTcp g) (Unit {0})
  client_read sd = do h ← get; client_answer sd h.client_socks5_status

  -- The tests of `activateClient` after its assertion.
  unfoldable pub client_event : ℕ → ℕ → M (SimpleTcp g) (Unit {0})
  client_event sd events =
      if has events epollout
      then client_write g sd
      else if has events epollin
      then client_read sd
      else skip

  unfoldable pub activate_client : ℕ → ℕ → M (SimpleTcp g) (Unit {0})
  activate_client sd events = do
    h ← get
    if h.client_sd == sd then client_event sd events else fault Fault.assertion
