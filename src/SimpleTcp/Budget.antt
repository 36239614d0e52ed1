-- ===== src/SimpleTcp/Budget.antt =====
-- How often a client of simpletcp/simpletcp.c can go to sleep, on any kernel.
use shadow_tor_eavesdropping.Base.{
  ℕ, zero, suc, ◌+◌, ◌==◌, List, [], ◌∷◌, ℤ, pos, negsuc, length, ◌≡◌, refl, arith, inl, inr,
  Bool-cases,
}
use shadow_tor_eavesdropping.Sys.{
  Kernel, M, Trace, Timeval, ◌>>=◌, ◌>>◌, pure, skip, has, epollin, epollout,
}
use shadow_tor_eavesdropping.Sys.Ends.{AnyFault, Ends, >>=-Ends}
use shadow_tor_eavesdropping.Glib.{HashTable}
use shadow_tor_eavesdropping.SimpleTcp.State.{
  SimpleTcp, Status, socks5_done, socks5_connection_ok, socks5_connection_req,
  socks5_method_negotation_ok, socks5_method_negotation_req, socks5_init,
}
use shadow_tor_eavesdropping.SimpleTcp.Starting.{wakeup_client, sleep_callback, requested}
use shadow_tor_eavesdropping.SimpleTcp.Client.{
  socks5_negotation, request_turn, socks5_conn_request, client_send_msg, client_turn, await,
  client_write, sleep_time, again, next_round, hang_up, client_answer, client_read, client_event,
  activate_client,
}
use shadow_tor_eavesdropping.SimpleTcp.Server.{
  append_log, log_found, log_server_connection, drop_client, server_read, server_write,
  accept_client, serve, welcome, activate_server,
}
use shadow_tor_eavesdropping.SimpleTcp.Loop.{dispatch, dispatch_all}
use shadow_tor_eavesdropping.SimpleTcp.Speeches.{naps}
use shadow_tor_eavesdropping.SimpleTcp.Rounds.{wakeup_lem}

-- The connections that are to be made after the one that is under way.
abbrev pub rounds : ℤ → ℕ
rounds (pos zero) = 0
rounds (pos (suc n)) = n
rounds (negsuc n) = 0

module _ (g : HashTable Timeval) (k : Kernel) (c : ℕ) where
  -- The sleeps that were asked for and those to come.
  abbrev pub Balance : SimpleTcp g → Trace → Type 0
  Balance h t = length (naps t) + rounds h.client_nconn ≡ c

  abbrev KeepsBalance : {A : Type 0} → M (SimpleTcp g) A → Type 0
  KeepsBalance m =
      (h : SimpleTcp g) (t : Trace) → Balance h t → Ends (λ _. Balance) AnyFault (m k h t)

  send_msg-KeepsBalance : (sd : ℕ) → KeepsBalance (client_send_msg g sd)
  unfolding client_send_msg naps
  send_msg-KeepsBalance sd h t b = ground arith

  message-KeepsBalance : (sd : ℕ) → KeepsBalance (client_send_msg g sd >> pure socks5_done)
  message-KeepsBalance sd h t b =
      >>=-Ends (λ _. Balance) (λ _. Balance) AnyFault (client_send_msg g sd) (λ _. pure socks5_done)
        k h t (send_msg-KeepsBalance sd h t b) λ a h' t' b'. b'

  turn-KeepsBalance : (sd : ℕ) (status : Status) → KeepsBalance (client_turn g sd status)
  unfolding client_turn socks5_negotation socks5_conn_request request_turn naps
  turn-KeepsBalance sd socks5_init h t b = ground arith
  turn-KeepsBalance sd socks5_method_negotation_ok h t b = ground arith
  turn-KeepsBalance sd socks5_connection_ok h t b = message-KeepsBalance sd h t b
  turn-KeepsBalance sd socks5_done h t b = message-KeepsBalance sd h t b
  turn-KeepsBalance sd _ h t b = tt

  write-KeepsBalance : (sd : ℕ) → KeepsBalance (client_write g sd)
  unfolding client_write await naps
  write-KeepsBalance sd h t b =
      >>=-Ends (λ _. Balance) (λ _. Balance) AnyFault (client_turn g sd h.client_socks5_status)
        (await g sd epollin) k h t (turn-KeepsBalance sd h.client_socks5_status h t b)
        λ status h' t' b'. b'

  next_round-KeepsBalance :
      (z : ℤ) (h : SimpleTcp g) (t : Trace)
      → length (naps t) + rounds z ≡ c
      → h.client_nconn ≡ z
      → Ends (λ _. Balance) AnyFault (next_round g (requested g) z k h t)
  unfolding next_round again sleep_time sleep_callback requested naps
  next_round-KeepsBalance (pos zero) h t b e = rw e b
  next_round-KeepsBalance (pos (suc zero)) h t b e = rw e b
  next_round-KeepsBalance (pos (suc (suc n))) h t b e = ground arith
  next_round-KeepsBalance (negsuc n) h t b e = rw e b

  answer-KeepsBalance :
      (sd : ℕ) (status : Status) → KeepsBalance (client_answer g (requested g) sd status)
  unfolding client_answer hang_up socks5_negotation socks5_conn_request request_turn await naps
  answer-KeepsBalance sd socks5_method_negotation_req h t b = ground arith
  answer-KeepsBalance sd socks5_connection_req h t b = ground arith
  answer-KeepsBalance sd socks5_done h t b =
      next_round-KeepsBalance h.client_nconn (record h { client_sd = 0 }) _ b refl
  answer-KeepsBalance sd _ h t b = tt

  activate_client-KeepsBalance :
      (sd events : ℕ) → KeepsBalance (activate_client g (requested g) sd events)
  unfolding activate_client client_event client_read
  activate_client-KeepsBalance sd events h t b = elim (Bool-cases (h.client_sd == sd)) [
    | inr e ↦ simp (e, ◌>>=◌) tt
    | inl e ↦ elim (Bool-cases (has events epollout)) [
      | inl out ↦ simp (e, out, ◌>>=◌) (write-KeepsBalance sd h t b)
      | inr not_out ↦ elim (Bool-cases (has events epollin)) [
        | inl on ↦
            simp (e, not_out, on, ◌>>=◌) (answer-KeepsBalance sd h.client_socks5_status h t b)
        | inr off ↦ simp (e, not_out, off, ◌>>=◌) b
      ]
    ]
  ]

  activate_server-KeepsBalance : (sd events : ℕ) → KeepsBalance (activate_server g sd events)
  unfolding activate_server serve welcome accept_client server_read server_write drop_client
      log_server_connection log_found append_log naps
  activate_server-KeepsBalance sd events h t b = ground arith

  dispatch-KeepsBalance : (sd events : ℕ) → KeepsBalance (dispatch g (requested g) sd events)
  unfolding dispatch
  dispatch-KeepsBalance sd events h t b = elim (Bool-cases (sd == h.client_sd)) [
    | inl e ↦ simp (e, ◌>>=◌) (activate_client-KeepsBalance sd events h t b)
    | inr e ↦ simp (e, ◌>>=◌) (activate_server-KeepsBalance sd events h t b)
  ]

  dispatch_all-KeepsBalance :
      (ready : List (ℕ × ℕ)) → KeepsBalance (dispatch_all g (requested g) ready)
  unfolding dispatch_all
  dispatch_all-KeepsBalance [] h t b = b
  dispatch_all-KeepsBalance ((sd, events) ∷ rest) h t b =
      >>=-Ends (λ _. Balance) (λ _. Balance) AnyFault (dispatch g (requested g) sd events)
        (λ _. dispatch_all g (requested g) rest) k h t (dispatch-KeepsBalance sd events h t b)
        λ a h' t' b'. dispatch_all-KeepsBalance rest h' t' b'

  wakeup-KeepsBalance : KeepsBalance (wakeup_client g)
  wakeup-KeepsBalance h t b =
      let (sd, t', ran, napped, spoke) = wakeup_lem g k h t in rw (ran, napped) b

-- What comes to a program from outside: descriptors that are ready, or the time of a callback.
pub data Moment : Type 0 where
  ready : List (ℕ × ℕ) → Moment
  due : Moment

module _ (g : HashTable Timeval) where
  abbrev pub moment : Moment → M (SimpleTcp g) (Unit {0})
  moment (Moment.ready events) = dispatch_all g (requested g) events
  moment Moment.due = wakeup_client g

  unfoldable pub moments : List Moment → M (SimpleTcp g) (Unit {0})
  moments [] = skip
  moments (m ∷ ms) = moment m >> moments ms

  moment-KeepsBalance : (k : Kernel) (c : ℕ) (m : Moment) → KeepsBalance g k c (moment m)
  moment-KeepsBalance k c (Moment.ready events) h t b = dispatch_all-KeepsBalance g k c events h t b
  moment-KeepsBalance k c Moment.due h t b = wakeup-KeepsBalance g k c h t b

  moments-KeepsBalance : (k : Kernel) (c : ℕ) (ms : List Moment) → KeepsBalance g k c (moments ms)
  unfolding moments
  moments-KeepsBalance k c [] h t b = b
  moments-KeepsBalance k c (m ∷ ms) h t b =
      >>=-Ends (λ _. Balance g k c) (λ _. Balance g k c) AnyFault (moment m) (λ _. moments ms) k h t
        (moment-KeepsBalance k c m h t b) λ a h' t' b'. moments-KeepsBalance k c ms h' t' b'

  -- For every kernel, and all events and callbacks in any order: if the program has come through
  -- them, the sleeps that it has asked for since and the connections that it still has to make
  -- after the one under way are together as many as the connections that it had to make before.
  pub moments-Balance :
      (k : Kernel) (ms : List Moment) (h : SimpleTcp g) (t : Trace)
      → Ends
          (λ _ h' t'.
            length (naps t') + rounds h'.client_nconn ≡ length (naps t) + rounds h.client_nconn)
          AnyFault
          (moments ms k h t)
  moments-Balance k ms h t =
      moments-KeepsBalance k (length (naps t) + rounds h.client_nconn) ms h t refl
