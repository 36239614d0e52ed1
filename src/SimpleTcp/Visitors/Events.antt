-- ===== src/SimpleTcp/Visitors/Events.antt =====
-- All events that reach a server of simpletcp/simpletcp.c keep its log of visits.
use shadow_tor_eavesdropping.Base.{
  ℕ, ◌==◌, List, [], ◌∷◌, ℤ, pos, ◌≡◌, refl, arith, inl, inr, Bool-cases, Option-cases,
}
use shadow_tor_eavesdropping.Sys.{Kernel, Trace, Call, Timeval, ◌>>=◌, has, epollin, epollout}
use shadow_tor_eavesdropping.Sys.Ends.{AnyFault, Ends, >>=-Ends}
use shadow_tor_eavesdropping.Glib.{HashTable}
use shadow_tor_eavesdropping.TProxy.Buffers.{strlen}
use shadow_tor_eavesdropping.SimpleTcp.State.{SimpleTcp, Status, socks5_done}
use shadow_tor_eavesdropping.SimpleTcp.Starting.{Later}
use shadow_tor_eavesdropping.SimpleTcp.Client.{
  client_send_msg, client_turn, await, client_write, next_round, hang_up, client_answer,
  client_read, client_event, activate_client,
}
use shadow_tor_eavesdropping.SimpleTcp.Loop.{dispatch, dispatch_all, simpletcp_ready}
use shadow_tor_eavesdropping.SimpleTcp.Visitors.{accepted, writes, IsServing, StaysServing, kept}
use shadow_tor_eavesdropping.SimpleTcp.Visitors.Handlers.{activate_server-Serves}

module _ (g : HashTable Timeval) (k : Kernel) where
  -- A client that is at rest only talks.
  send_msg-Serves :
      (sd : ℕ) (h : SimpleTcp g) (t : Trace)
      → IsServing g k h t
      → Ends
          (λ status h' t'. IsServing g k h' t' × (status ≡ socks5_done))
          AnyFault
          (client_turn g sd socks5_done k h t)
  unfolding client_turn client_send_msg writes accepted
  send_msg-Serves sd h t i = elim (Option-cases (strlen h.hostname)) [
    | inl endless ↦ simp (endless, ◌>>=◌) tt
    | inr (len, text) ↦ ground arith
  ]

  turn-Serves :
      (sd : ℕ) (status : Status) (h : SimpleTcp g) (t : Trace)
      → status ≡ socks5_done
      → IsServing g k h t
      → Ends
          (λ status' h' t'. IsServing g k h' t' × (status' ≡ socks5_done))
          AnyFault
          (client_turn g sd status k h t)
  turn-Serves sd status h t done i = rw done (send_msg-Serves sd h t i)

  client_write-Serves : (sd : ℕ) → StaysServing g k (client_write g sd)
  unfolding client_write await writes accepted
  client_write-Serves sd h t i =
      >>=-Ends (λ status h' t'. IsServing g k h' t' × (status ≡ socks5_done)) (λ _. IsServing g k)
        AnyFault (client_turn g sd h.client_socks5_status) (await g sd epollin) k h t
        (turn-Serves sd h.client_socks5_status h t i.at_rest i)
        λ status h' t' (i', done).
          kept g k h' (record h' { client_socks5_status = status }) t' _ refl refl done refl refl
            (λ sd'. refl) i'

  module _ (later : Later g) where
    next_round-Serves :
        (n : ℤ) (h : SimpleTcp g) (t : Trace)
        → n ≡ pos 0
        → IsServing g k h t
        → Ends (λ _. IsServing g k) AnyFault (next_round g later n k h t)
    unfolding next_round
    next_round-Serves n h t zero_left i =
        rw zero_left
          (kept g k h (record h { is_done = 1 }) t t refl refl i.at_rest refl refl (λ sd'. refl) i)

    answer-Serves :
        (sd : ℕ) (status : Status) (h : SimpleTcp g) (t : Trace)
        → status ≡ socks5_done
        → IsServing g k h t
        → Ends (λ _. IsServing g k) AnyFault (client_answer g later sd status k h t)
    unfolding client_answer hang_up writes accepted
    answer-Serves sd status h t done i = rw done (
        next_round-Serves h.client_nconn (record h { client_sd = 0 }) _ i.alone
          (kept g k h (record h { client_sd = 0 }) t _ refl refl i.at_rest refl refl (λ sd'. refl)
            i))

    activate_client-Serves : (sd events : ℕ) → StaysServing g k (activate_client g later sd events)
    unfolding activate_client client_event client_read
    activate_client-Serves sd events h t i = elim (Bool-cases (h.client_sd == sd)) [
      | inr other ↦ simp (other, ◌>>=◌) tt
      | inl own ↦ elim (Bool-cases (has events epollout)) [
        | inl out ↦ simp (own, out, ◌>>=◌) (client_write-Serves sd h t i)
        | inr not_out ↦ elim (Bool-cases (has events epollin)) [
          | inl on ↦
              simp (own, not_out, on, ◌>>=◌)
                (answer-Serves sd h.client_socks5_status h t i.at_rest i)
          | inr off ↦ simp (own, not_out, off, ◌>>=◌) i
        ]
      ]
    ]

    dispatch-Serves : (sd events : ℕ) → StaysServing g k (dispatch g later sd events)
    unfolding dispatch
    dispatch-Serves sd events h t i = elim (Bool-cases (sd == h.client_sd)) [
      | inl own ↦ simp (own, ◌>>=◌) (activate_client-Serves sd events h t i)
      | inr other ↦ simp (other, ◌>>=◌) (activate_server-Serves g k sd events h t i)
    ]

    dispatch_all-Serves : (ready : List (ℕ × ℕ)) → StaysServing g k (dispatch_all g later ready)
    unfolding dispatch_all
    dispatch_all-Serves [] h t i = i
    dispatch_all-Serves ((sd, events) ∷ rest) h t i =
        >>=-Ends (λ _. IsServing g k) (λ _. IsServing g k) AnyFault (dispatch g later sd events)
          (λ _. dispatch_all g later rest) k h t (dispatch-Serves sd events h t i)
          λ a h' t' i'. dispatch_all-Serves rest h' t' i'

    pub simpletcp_ready-Serves : StaysServing g k (simpletcp_ready g later)
    unfolding simpletcp_ready writes accepted
    simpletcp_ready-Serves h t i =
        let c = Call.epoll_wait h.ed 10 in
        let i' = kept g k h h t (c ∷ t) refl refl i.at_rest refl refl (λ sd'. refl) i in
        elim (Option-cases (k.polls t c)) [
          | inl failed ↦ simp (failed, ◌>>=◌) i'
          | inr (ready, polled) ↦ simp (polled, ◌>>=◌) (dispatch_all-Serves ready h (c ∷ t) i')
        ]
