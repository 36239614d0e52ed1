-- ===== src/SimpleTcp/Status.antt =====
-- The SOCKS5 handshake of simpletcp/simpletcp.c as a state machine: the steps that the client may
-- take, and where it can stop.
use shadow_tor_eavesdropping.Base.{
  ℕ, zero, suc, ◌==◌, ◌/=◌, ◌||◌, if◌then◌else◌, some, [], ◌∷◌, ℤ, pos, negsuc, ◌≡◌, ◌≢◌, ◌⊎◌, refl,
  sym, Bool, true, false, inl, inr, Bool-cases, eq_true, ne_true,
}
use shadow_tor_eavesdropping.Sys.{
  Kernel, Trace, Call, Timeval, Fault, Outcome, Post, ok, exited, faulted, ◌>>=◌, >>=-Post, pure,
  has, epollin, epollout, event_bits, EpollOp,
}
use shadow_tor_eavesdropping.Glib.{HashTable}
use shadow_tor_eavesdropping.SimpleTcp.State.{
  SimpleTcp, Status, socks5_done, socks5_connection_ok, socks5_connection_fail,
  socks5_connection_req, socks5_method_negotation_fail, socks5_method_negotation_ok,
  socks5_method_negotation_req, socks5_init,
}
use shadow_tor_eavesdropping.SimpleTcp.Packets.{overlaid, negotation_packet}
use shadow_tor_eavesdropping.SimpleTcp.Starting.{Later, sleep_callback, requested}
use shadow_tor_eavesdropping.SimpleTcp.Client.{
  socks5_negotation, socks5_conn_request, request_turn, client_send_msg, client_turn, await,
  client_write, sleep_time, again, next_round, hang_up, client_answer, client_read, client_event,
  activate_client,
}

-- One event of the client's life.
pub data Step : Status → Status → Type 0 where
  greeting : Step socks5_init socks5_method_negotation_req
  greeted : Step socks5_method_negotation_req socks5_method_negotation_ok
  shunned : Step socks5_method_negotation_req socks5_method_negotation_fail
  asking : Step socks5_method_negotation_ok socks5_connection_req
  granted : Step socks5_connection_req socks5_connection_ok
  denied : Step socks5_connection_req socks5_connection_fail
  telling : Step socks5_connection_ok socks5_done
  staying : Step socks5_done socks5_done
  starting_over : Step socks5_done socks5_init

verdict-negotation :
    (bad : Bool)
    → Step socks5_method_negotation_req
        (if bad then socks5_method_negotation_fail else socks5_method_negotation_ok)
verdict-negotation true = shunned
verdict-negotation false = greeted

verdict-connection :
    (bad : Bool)
    → Step socks5_connection_req (if bad then socks5_connection_fail else socks5_connection_ok)
verdict-connection true = denied
verdict-connection false = granted

trivial : {S A : Type 0} (o : Outcome S A) → Post (λ a s. Unit {0}) (λ e. Unit {0}) o
trivial (ok a s t) = tt
trivial (exited c s t) = tt
trivial (faulted e s t) = tt

module _ (g : HashTable Timeval) where
  -- The status after a run, as it follows from the one before.
  abbrev Goes : Status → Outcome (SimpleTcp g) (Unit {0}) → Type 0
  Goes from = Post (λ a s. Step from s.client_socks5_status) (λ e. Unit {0})

  moved :
      (from : Status) (o : Outcome (SimpleTcp g) (Unit {0}))
      → Goes from o
      → Post
          (λ a s. (from ≡ s.client_socks5_status) ⊎ Step from s.client_socks5_status)
          (λ e. Unit {0})
          o
  moved from (ok a s t) p = inr p
  moved from (exited c s t) p = tt
  moved from (faulted e s t) p = tt

  message_turn :
      (k : Kernel) (h : SimpleTcp g) (t : Trace) (sd : ℕ) (from : Status)
      → Step from socks5_done
      → Post
          (λ to s. Step from to)
          (λ e. Unit {0})
          ((client_send_msg g sd >>= λ _. pure socks5_done) k h t)
  message_turn k h t sd from step =
      >>=-Post (λ _ _. Unit {0}) (λ to s. Step from to) (λ e. Unit {0}) (client_send_msg g sd)
        (λ _. pure socks5_done) k h t (trivial _) λ a s' t' p. step

  client_turn-Step :
      (k : Kernel) (h : SimpleTcp g) (t : Trace) (sd : ℕ) (from : Status)
      → Post (λ to s. Step from to) (λ e. Unit {0}) (client_turn g sd from k h t)
  unfolding client_turn socks5_negotation socks5_conn_request request_turn has
  client_turn-Step k h t sd socks5_init = greeting
  client_turn-Step k h t sd socks5_method_negotation_ok = asking
  client_turn-Step k h t sd socks5_connection_ok =
      message_turn k h t sd socks5_connection_ok telling
  client_turn-Step k h t sd socks5_done = message_turn k h t sd socks5_done staying
  client_turn-Step k h t sd socks5_connection_fail = tt
  client_turn-Step k h t sd socks5_connection_req = tt
  client_turn-Step k h t sd socks5_method_negotation_fail = tt
  client_turn-Step k h t sd socks5_method_negotation_req = tt

  client_write-Step :
      (k : Kernel) (h : SimpleTcp g) (t : Trace) (sd : ℕ)
      → Goes h.client_socks5_status (client_write g sd k h t)
  unfolding client_write await
  client_write-Step k h t sd =
      >>=-Post (λ to s. Step h.client_socks5_status to)
        (λ a s. Step h.client_socks5_status s.client_socks5_status) (λ e. Unit {0})
        (client_turn g sd h.client_socks5_status) (await g sd epollin) k h t
        (client_turn-Step k h t sd h.client_socks5_status) λ to s' t' p. p

  again-Step :
      (k : Kernel) (h : SimpleTcp g) (t : Trace) (n : ℕ)
      → Goes socks5_done (again g (requested g) n k h t)
  unfolding again sleep_time sleep_callback requested
  again-Step k h t n = elim (Bool-cases (h.client_sleep_min /= 0 || h.client_sleep_max /= 0)) [
    | inl asked ↦ elim (Bool-cases (h.client_sleep_max == h.client_sleep_min)) [
      | inl equal ↦ simp (asked, equal, ◌>>=◌) tt
      | inr apart ↦ simp (asked, apart, ◌>>=◌) starting_over
    ]
    | inr default ↦ simp (default, ◌>>=◌) starting_over
  ]

  next_round-Step :
      (k : Kernel) (h : SimpleTcp g) (t : Trace) (nconn : ℤ)
      → h.client_socks5_status ≡ socks5_done
      → Goes socks5_done (next_round g (requested g) nconn k h t)
  unfolding next_round
  next_round-Step k h t (pos zero) done = rw done staying
  next_round-Step k h t (pos (suc zero)) done = rw done staying
  next_round-Step k h t (pos (suc (suc n))) done = again-Step k h t (suc n)
  next_round-Step k h t (negsuc n) done = rw done staying

  client_answer-Step :
      (k : Kernel) (h : SimpleTcp g) (t : Trace) (sd : ℕ) (from : Status)
      → h.client_socks5_status ≡ from
      → Goes from (client_answer g (requested g) sd from k h t)
  unfolding client_answer socks5_negotation socks5_conn_request request_turn await hang_up
  client_answer-Step k h t sd socks5_method_negotation_req at =
      simp (event_bits, ◌>>=◌) (verdict-negotation _)
  client_answer-Step k h t sd socks5_connection_req at =
      simp (event_bits, ◌>>=◌) (verdict-connection _)
  client_answer-Step k h t sd socks5_done at = next_round-Step k _ _ h.client_nconn at
  client_answer-Step k h t sd socks5_init at = tt
  client_answer-Step k h t sd socks5_connection_ok at = tt
  client_answer-Step k h t sd socks5_connection_fail at = tt
  client_answer-Step k h t sd socks5_method_negotation_fail at = tt
  client_answer-Step k h t sd socks5_method_negotation_ok at = tt

  -- Whatever the kernel answers: when `activateClient` returns, the SOCKS5 status is what it was
  -- or one step of the state machine on.
  pub activate_client-Step :
      (k : Kernel) (h : SimpleTcp g) (t : Trace) (sd events : ℕ)
      → Post
          (λ a s.
            (h.client_socks5_status ≡ s.client_socks5_status)
            ⊎ Step h.client_socks5_status s.client_socks5_status)
          (λ e. Unit {0})
          (activate_client g (requested g) sd events k h t)
  unfolding activate_client client_event client_read
  activate_client-Step k h t sd events = elim (Bool-cases (h.client_sd == sd)) [
    | inr other ↦ simp (other, ◌>>=◌) tt
    | inl own ↦ elim (Bool-cases (has events epollout)) [
      | inl out ↦
          simp (own, out, ◌>>=◌)
            (moved h.client_socks5_status (client_write g sd k h t) (client_write-Step k h t sd))
      | inr not_out ↦ elim (Bool-cases (has events epollin)) [
        | inl in_bit ↦
            simp (own, not_out, in_bit, ◌>>=◌)
              (moved h.client_socks5_status (client_read g (requested g) sd k h t)
                (client_answer-Step k h t sd h.client_socks5_status refl))
        | inr neither ↦ simp (own, not_out, neither, ◌>>=◌) (inl refl)
      ]
    ]
  ]

  -- A proxy that ends the stream where its answer to the greeting should come is taken to have
  -- agreed: if the client waits for that answer and `read` returns no byte, `clientRead` returns
  -- with the status SOCKS5_METHOD_NEGOTATION_OK, waits for EPOLLOUT, and changes nothing else.
  pub eof_agrees :
      (later : Later g) (k : Kernel) (h : SimpleTcp g) (t : Trace) (sd : ℕ)
      → h.client_socks5_status ≡ socks5_method_negotation_req
      → k.receives t (Call.read sd 2) ≡ some []
      → client_read g later sd k h t
        ≡ ok tt
            (record h { client_socks5_status = socks5_method_negotation_ok })
            (Call.epoll_ctl EpollOp.ctl_mod h.ed sd epollout ∷ Call.read sd 2 ∷ t)
  unfolding client_read client_answer socks5_negotation await overlaid negotation_packet
  eof_agrees later k h t sd at eof = simp (at, eof, event_bits, ◌>>=◌)

  -- Two equal bounds on the sleep that are not 0 stop the client: when a connection that is not
  -- the last one has had its answer, `clientRead` closes it and then divides by zero.
  pub equal_sleep_faults :
      (later : Later g) (k : Kernel) (h : SimpleTcp g) (t : Trace) (sd n : ℕ)
      → h.client_socks5_status ≡ socks5_done
      → h.client_nconn ≡ pos (suc (suc n))
      → h.client_sleep_min ≡ h.client_sleep_max
      → h.client_sleep_min ≢ 0
      → client_read g later sd k h t
        ≡ faulted Fault.division_by_zero
            (record h {
              client_sd = 0;
              client_socks5_status = socks5_init;
              client_nconn = pos (suc n);
            })
            (Call.random ∷ Call.close sd ∷ Call.epoll_ctl EpollOp.ctl_del h.ed sd 0 ∷ t)
  unfolding client_read client_answer hang_up next_round again sleep_time
  equal_sleep_faults later k h t sd n at more equal nonzero =
      simp (
        at,
        more,
        sym equal,
        ne_true h.client_sleep_min 0 nonzero,
        eq_true h.client_sleep_min,
        ◌>>=◌,
      )
