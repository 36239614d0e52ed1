-- ===== src/SimpleTcp/Handshake.antt =====
-- What a client of simpletcp/simpletcp.c tells the proxy and the server, connection by connection.
use shadow_tor_eavesdropping.Base.{
  ℕ, suc, ◌+◌, ◌*◌, ◌/◌, ◌%◌, ◌^◌, ◌<◌, ◌≤◌, some, List, [], ◌∷◌, ◌++◌, Bytes, ◌≡◌, refl, ap, ◌∙◌,
  arith, length, take, take-append_length, replicate, length-replicate, get_or, eq_true,
}
use shadow_tor_eavesdropping.Sys.{
  Kernel, M, Trace, Call, EpollOp, Timeval, Outcome, ok, ◌>>=◌, ◌>>◌, skip, epollin, epollout,
  event_bits,
}
use shadow_tor_eavesdropping.Glib.{HashTable}
use shadow_tor_eavesdropping.TProxy.Tracing.{IsText, strlen-append, write_text}
use shadow_tor_eavesdropping.SimpleTcp.State.{
  SimpleTcp, socks5_connection_ok, socks5_connection_req, socks5_method_negotation_ok,
  socks5_method_negotation_req, socks5_init, socks5_done,
}
use shadow_tor_eavesdropping.SimpleTcp.Starting.{Later}
use shadow_tor_eavesdropping.SimpleTcp.Packets.{
  htons, le_bytes, overlaid, negotation_packet, request_packet,
}
use shadow_tor_eavesdropping.SimpleTcp.Client.{
  socks5_negotation, socks5_conn_request, request_turn, client_send_msg, client_turn, await,
  client_write, client_answer, client_read, client_event, activate_client, client_msg_size, hang_up,
}
use shadow_tor_eavesdropping.SimpleTcp.Loop.{dispatch, dispatch_all}

-- What a SOCKS5 proxy reads in a request: the address, as the host keeps it, and the port, in
-- network order.
unfoldable pub asked_ip : Bytes → ℕ
asked_ip packet =
    get_or packet 4 0
    + 256 * (get_or packet 5 0 + 256 * (get_or packet 6 0 + 256 * get_or packet 7 0))

unfoldable pub asked_port : Bytes → ℕ
asked_port packet = 256 * get_or packet 8 0 + get_or packet 9 0

le_bytes_four :
    (v : ℕ)
    → v < 2 ^ 32
    → v % 256
        + 256
          * ((v / 256) % 256 + 256 * ((v / 256 / 256) % 256 + 256 * ((v / 256 / 256 / 256) % 256)))
      ≡ v
le_bytes_four v h = omega arith

swapped :
    (p : ℕ)
    → 256 * (((p % 256) * 256 + (p / 256) % 256) % 256)
        + (((p % 256) * 256 + (p / 256) % 256) / 256) % 256
      ≡ p % 2 ^ 16
swapped p = omega arith

-- For an address of 32 bits and any port: the request has ten bytes, and a proxy that reads it
-- finds the address and the port modulo 2^16 that were put in, the port by `htons`.
pub request_packet_roundtrip :
    (ip port : ℕ)
    → ip < 2 ^ 32
    → (length (request_packet ip (htons port)) ≡ 10)
      × (asked_ip (request_packet ip (htons port)) ≡ ip)
      × (asked_port (request_packet ip (htons port)) ≡ port % 2 ^ 16)
unfolding request_packet htons le_bytes asked_ip asked_port
request_packet_roundtrip ip port h = (refl, le_bytes_four ip h, swapped port)

-- The block that `gethostname` filled holds this name.
abbrev pub HoldsName : Bytes → Bytes → Type 0
HoldsName block name =
    (r : Bytes) × (block ≡ name ++ 0 ∷ r) × IsText name × (length name < client_msg_size)

-- A proxy that grants what it is asked.
abbrev pub IsWilling : Kernel → Type 0
IsWilling k =
    ((t : Trace) (sd : ℕ) → k.receives t (Call.read sd 2) ≡ some (5 ∷ 0 ∷ []))
    × ((t : Trace) (sd : ℕ) → (r : Bytes) × (k.receives t (Call.read sd 10) ≡ some (5 ∷ 0 ∷ r)))

-- The events of one connection: the socket can be written and read, three times.
abbrev pub round : ℕ → List (ℕ × ℕ)
round sd =
    (sd, epollout)
    ∷ (sd, epollin)
    ∷ (sd, epollout)
    ∷ (sd, epollin)
    ∷ (sd, epollout)
    ∷ (sd, epollin)
    ∷ []

-- The calls that a connection makes up to the answer of the server, the last one first.
abbrev pub round_trace : ℕ → ℕ → ℕ → ℕ → Bytes → Trace → Trace
round_trace ed sd ip port name t =
    Call.epoll_ctl EpollOp.ctl_mod ed sd epollin
    ∷ Call.send sd name
    ∷ Call.epoll_ctl EpollOp.ctl_mod ed sd epollout
    ∷ Call.read sd 10
    ∷ Call.epoll_ctl EpollOp.ctl_mod ed sd epollin
    ∷ Call.write sd (request_packet ip port)
    ∷ Call.epoll_ctl EpollOp.ctl_mod ed sd epollout
    ∷ Call.read sd 2
    ∷ Call.epoll_ctl EpollOp.ctl_mod ed sd epollin
    ∷ Call.write sd negotation_packet
    ∷ t

take_terminated : (name r : Bytes) → take (suc (length name)) (name ++ 0 ∷ r) ≡ name ++ 0 ∷ []
take_terminated [] r = refl
take_terminated (c ∷ name) r = ap (λ q. c ∷ q) (take_terminated name r)

fits :
    (name : Bytes)
    → length name < client_msg_size
    → length name + 1 ≤ length {A = ℕ} (replicate client_msg_size 0)
fits name short = rw (length-replicate {A = ℕ} client_msg_size 0) (omega (arith, short))

-- A function and then nothing more.
finally_skip :
    {S : Type 0} (m : M S (Unit {0})) (k : Kernel) (s : S) (t : Trace) → (m >> skip) k s t ≡ m k s t
finally_skip m k s t = ground arith

module _ (g : HashTable Timeval) (later : Later g) where
  client_send_msg_lem :
      (k : Kernel) (h : SimpleTcp g) (t : Trace) (sd : ℕ) (name : Bytes)
      → HoldsName h.hostname name
      → client_send_msg g sd k h t ≡ ok tt h (Call.send sd name ∷ t)
  unfolding client_send_msg
  client_send_msg_lem k h t sd name (r, block, text, short) =
      let (r', stored, _) = write_text [] name (replicate client_msg_size 0) (fits name short) in
      simp (
        block,
        strlen-append name r text,
        take_terminated name r,
        stored,
        strlen-append name r' text,
        take-append_length,
        ◌>>=◌,
      )

  client_event_lem :
      (k : Kernel) (h : SimpleTcp g) (t : Trace) (e : ℕ)
      → dispatch g later h.client_sd e k h t ≡ client_event g later h.client_sd e k h t
  unfolding dispatch activate_client
  client_event_lem k h t e = simp (eq_true h.client_sd, ◌>>=◌)

  pub greet_lem :
      (k : Kernel) (h : SimpleTcp g) (t : Trace)
      → h.client_socks5_status ≡ socks5_init
      → dispatch g later h.client_sd epollout k h t
        ≡ ok tt
            (record h { client_socks5_status = socks5_method_negotation_req })
            (Call.epoll_ctl EpollOp.ctl_mod h.ed h.client_sd epollin
              ∷ Call.write h.client_sd negotation_packet
              ∷ t)
  unfolding client_event client_write client_turn socks5_negotation await
  greet_lem k h t at = client_event_lem k h t epollout ∙ simp (at, event_bits, ◌>>=◌)

  pub greeted_lem :
      (k : Kernel) (h : SimpleTcp g) (t : Trace)
      → IsWilling k
      → h.client_socks5_status ≡ socks5_method_negotation_req
      → dispatch g later h.client_sd epollin k h t
        ≡ ok tt
            (record h { client_socks5_status = socks5_method_negotation_ok })
            (Call.epoll_ctl EpollOp.ctl_mod h.ed h.client_sd epollout ∷ Call.read h.client_sd 2 ∷ t)
  unfolding client_event client_read client_answer socks5_negotation await overlaid
  greeted_lem k h t willing at =
      client_event_lem k h t epollin ∙ simp (at, willing.0 t h.client_sd, event_bits, ◌>>=◌)

  pub ask_lem :
      (k : Kernel) (h : SimpleTcp g) (t : Trace)
      → h.client_socks5_status ≡ socks5_method_negotation_ok
      → dispatch g later h.client_sd epollout k h t
        ≡ ok tt
            (record h { client_socks5_status = socks5_connection_req })
            (Call.epoll_ctl EpollOp.ctl_mod h.ed h.client_sd epollin
              ∷ Call.write h.client_sd (request_packet h.client_server_ip h.client_server_port)
              ∷ t)
  unfolding client_event client_write client_turn socks5_conn_request request_turn await
  ask_lem k h t at = client_event_lem k h t epollout ∙ simp (at, event_bits, ◌>>=◌)

  pub granted_lem :
      (k : Kernel) (h : SimpleTcp g) (t : Trace)
      → IsWilling k
      → h.client_socks5_status ≡ socks5_connection_req
      → dispatch g later h.client_sd epollin k h t
        ≡ ok tt
            (record h { client_socks5_status = socks5_connection_ok })
            (Call.epoll_ctl EpollOp.ctl_mod h.ed h.client_sd epollout
              ∷ Call.read h.client_sd 10
              ∷ t)
  unfolding client_event client_read client_answer socks5_conn_request request_turn await overlaid
  granted_lem k h t willing at =
      client_event_lem k h t epollin ∙ simp (at, (willing.1 t h.client_sd).1, event_bits, ◌>>=◌)

  pub tell_lem :
      (k : Kernel) (h : SimpleTcp g) (t : Trace) (name : Bytes)
      → HoldsName h.hostname name
      → h.client_socks5_status ≡ socks5_connection_ok
      → dispatch g later h.client_sd epollout k h t
        ≡ ok tt
            (record h { client_socks5_status = socks5_done })
            (Call.epoll_ctl EpollOp.ctl_mod h.ed h.client_sd epollin
              ∷ Call.send h.client_sd name
              ∷ t)
  unfolding client_event client_write client_turn await
  tell_lem k h t name held at =
      client_event_lem k h t epollout
      ∙ simp (at, event_bits, client_send_msg_lem k h t h.client_sd name held, ◌>>=◌)

  pub hang_up_lem :
      (k : Kernel) (h : SimpleTcp g) (t : Trace)
      → h.client_socks5_status ≡ socks5_done
      → dispatch g later h.client_sd epollin k h t ≡ hang_up g later h.client_sd k h t
  unfolding client_event client_read client_answer
  hang_up_lem k h t at = client_event_lem k h t epollin ∙ simp (at, event_bits, ◌>>=◌)

  dispatch_all_lem :
      (k : Kernel) (s : SimpleTcp g) (t : Trace) (d e : ℕ) (rest : List (ℕ × ℕ)) (s' : SimpleTcp g)
      (t' : Trace) (o : Outcome (SimpleTcp g) (Unit {0}))
      → dispatch g later d e k s t ≡ ok tt s' t'
      → dispatch_all g later rest k s' t' ≡ o
      → dispatch_all g later ((d, e) ∷ rest) k s t ≡ o
  unfolding dispatch_all
  dispatch_all_lem k s t d e more s' t' o ran rest = simp (ran, ◌>>=◌) rest

  dispatch_last :
      (k : Kernel) (h : SimpleTcp g) (t : Trace) (e : ℕ)
      → dispatch_all g later ((h.client_sd, e) ∷ []) k h t ≡ dispatch g later h.client_sd e k h t
  unfolding dispatch_all
  dispatch_last k h t e = finally_skip (dispatch g later h.client_sd e) k h t

  -- With a proxy that grants what it is asked, a name that fits the message and the status
  -- SOCKS5_INIT, the events of one connection make the client write the greeting and then the
  -- request, send its name, and hang up; nothing else is written or sent before it hangs up.
  pub round_lem :
      (k : Kernel) (h : SimpleTcp g) (t : Trace) (name : Bytes)
      → IsWilling k
      → HoldsName h.hostname name
      → h.client_socks5_status ≡ socks5_init
      → dispatch_all g later (round h.client_sd) k h t
        ≡ hang_up g later h.client_sd k
            (record h { client_socks5_status = socks5_done })
            (round_trace h.ed h.client_sd h.client_server_ip h.client_server_port name t)
  round_lem k h t name willing held at =
      let h1 : SimpleTcp g = record h { client_socks5_status = socks5_method_negotation_req } in
      let h2 : SimpleTcp g = record h { client_socks5_status = socks5_method_negotation_ok } in
      let h3 : SimpleTcp g = record h { client_socks5_status = socks5_connection_req } in
      let h4 : SimpleTcp g = record h { client_socks5_status = socks5_connection_ok } in
      let h5 : SimpleTcp g = record h { client_socks5_status = socks5_done } in
      dispatch_all_lem k _ _ _ _ _ _ _ _ (greet_lem k h t at) (
        dispatch_all_lem k _ _ _ _ _ _ _ _ (greeted_lem k h1 _ willing refl) (
          dispatch_all_lem k _ _ _ _ _ _ _ _ (ask_lem k h2 _ refl) (
            dispatch_all_lem k _ _ _ _ _ _ _ _ (granted_lem k h3 _ willing refl) (
              dispatch_all_lem k _ _ _ _ _ _ _ _ (tell_lem k h4 _ name held refl)
                (dispatch_last k h5 _ epollin ∙ hang_up_lem k h5 _ refl)))))
