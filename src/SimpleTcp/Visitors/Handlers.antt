-- ===== src/SimpleTcp/Visitors/Handlers.antt =====
-- The handlers of the server of simpletcp/simpletcp.c keep a log of visits.
use shadow_tor_eavesdropping.Base.{
  ℕ, ◌==◌, if◌then◌else◌, Option, none, some, ◌∷◌, take, ◌≡◌, refl, arith, Bool, true, false, inl,
  inr, Bool-cases, Option-cases,
}
use shadow_tor_eavesdropping.Sys.{
  Kernel, Trace, Call, FileMode, EpollOp, Timeval, minus_one, ◌>>=◌, has, perform, epollin,
  epollout,
}
use shadow_tor_eavesdropping.Sys.Ends.{AnyFault, Ends, >>=-Ends}
use shadow_tor_eavesdropping.Glib.{HashTable}
use shadow_tor_eavesdropping.TProxy.Buffers.{strlen}
use shadow_tor_eavesdropping.TProxy.Handlers.{filled, result_size, is_nonzero}
use shadow_tor_eavesdropping.SimpleTcp.State.{SimpleTcp}
use shadow_tor_eavesdropping.SimpleTcp.Client.{client_msg_size}
use shadow_tor_eavesdropping.SimpleTcp.Server.{
  log_line, append_log, log_found, log_server_connection, drop_client, server_read, server_write,
  accept_client, serve, welcome, activate_server,
}
use shadow_tor_eavesdropping.SimpleTcp.Visitors.{accepted, writes, IsServing, StaysServing, kept}

kept_in :
    {A : Type 0} (b : Bool) (o : Option A) (a : A) → (if b then none else o) ≡ some a → o ≡ some a
kept_in true o a e = ground arith
kept_in false o a e = e

kept_beside :
    {A : Type 0} (b : Bool) (v a : A) (o p : Option A)
    → (o ≡ some a → p ≡ some a)
    → (if b then some v else o) ≡ some a
    → (if b then some v else p) ≡ some a
kept_beside true v a o p f e = e
kept_beside false v a o p f e = f e

module _ (g : HashTable Timeval) (k : Kernel) where
  append_log-Serves :
      (h : SimpleTcp g) (t : Trace) (sd : ℕ) (time : Timeval) (len : ℕ)
      → IsServing g k h t
      → accepted k sd t ≡ some time
      → strlen (filled client_msg_size (k.receives t (Call.recv sd client_msg_size))) ≡ some len
      → Ends
          (λ _. IsServing g k)
          AnyFault
          (append_log g
            (log_line
              (take len (filled client_msg_size (k.receives t (Call.recv sd client_msg_size))))
              time)
            k
            h
            (Call.recv sd client_msg_size ∷ t))
  unfolding append_log writes accepted
  append_log-Serves h t sd time len i came text =
      let c = Call.open_file FileMode.appending h.server_log_path in
      elim (Bool-cases (k.returns (Call.recv sd client_msg_size ∷ t) c == minus_one)) [
        | inl failed ↦ simp (failed, ◌>>=◌) tt
        | inr fine ↦
            simp (fine, ◌>>=◌)
              (record {
                visits = ((sd, time, len, t, refl, refl, came, text, refl), i.visits);
                timed = i.timed;
                at_rest = i.at_rest;
                alone = i.alone;
              })
      ]

  log_server_connection-Serves :
      (h : SimpleTcp g) (t : Trace) (sd : ℕ)
      → IsServing g k h t
      → Ends
          (λ _. IsServing g k)
          AnyFault
          (log_server_connection g sd
            (filled client_msg_size (k.receives t (Call.recv sd client_msg_size)))
            k
            h
            (Call.recv sd client_msg_size ∷ t))
  unfolding log_server_connection log_found
  log_server_connection-Serves h t sd i =
      let message = filled client_msg_size (k.receives t (Call.recv sd client_msg_size)) in
      elim (Option-cases (g.lookup sd h.server_hashtab)) [
        | inl unknown ↦ simp (unknown, ◌>>=◌) tt
        | inr (time, known) ↦ elim (Option-cases (strlen message)) [
          | inl endless ↦ simp (known, endless, ◌>>=◌) tt
          | inr (len, text) ↦
              simp (known, text, ◌>>=◌)
                (append_log-Serves h t sd time len i (i.timed sd time known) text)
        ]
      ]

  drop_client-Serves : (sd : ℕ) → StaysServing g k (drop_client g sd)
  unfolding drop_client writes accepted
  drop_client-Serves sd h t i = record {
    visits = i.visits;
    timed = λ sd' time found. i.timed sd' time (
        kept_in (sd == sd') (g.lookup sd' h.server_hashtab) time
          (rw (g.lookup-remove sd sd' h.server_hashtab) at found));
    at_rest = i.at_rest;
    alone = i.alone;
  }

  accept_client-Serves : (sd : ℕ) → StaysServing g k (accept_client g sd)
  unfolding accept_client writes accepted
  accept_client-Serves sd h t i =
      let new_sd = k.returns t (Call.accept sd) in
      let time = k.clock (Call.accept sd ∷ t) in
      record {
        visits = i.visits;
        timed = λ sd' time' found.
            kept_beside (new_sd == sd') time time' (g.lookup sd' h.server_hashtab)
              (accepted k sd' t) (i.timed sd' time')
              (rw (g.lookup-replace new_sd sd' time h.server_hashtab) at found);
        at_rest = i.at_rest;
        alone = i.alone;
      }

  read_branch-Serves :
      (there : Bool) (sd : ℕ) (h : SimpleTcp g) (t : Trace)
      → IsServing g k h t
      → Ends
          (λ _. IsServing g k)
          AnyFault
          ((if there
              then log_server_connection g sd
                  (filled client_msg_size (k.receives t (Call.recv sd client_msg_size)))
              else drop_client g sd)
            k h
            (Call.recv sd client_msg_size ∷ t))
  unfolding writes accepted
  read_branch-Serves true sd h t i = log_server_connection-Serves h t sd i
  read_branch-Serves false sd h t i =
      drop_client-Serves sd h (Call.recv sd client_msg_size ∷ t)
        (kept g k h h t _ refl refl i.at_rest refl refl (λ sd'. refl) i)

  server_read-Serves : (sd : ℕ) → StaysServing g k (server_read g sd)
  unfolding server_read writes accepted
  server_read-Serves sd h t i =
      let got = k.receives t (Call.recv sd client_msg_size) in
      >>=-Ends (λ _. IsServing g k) (λ _. IsServing g k) AnyFault
        (if is_nonzero (result_size got)
          then log_server_connection g sd (filled client_msg_size got)
          else drop_client g sd)
        (λ _. perform (Call.epoll_ctl EpollOp.ctl_mod h.ed sd epollout)) k h
        (Call.recv sd client_msg_size ∷ t)
        (read_branch-Serves (is_nonzero (result_size got)) sd h t i)
        λ a h' t' i'. kept g k h' h' t' _ refl refl i'.at_rest refl refl (λ sd'. refl) i'

  pub activate_server-Serves : (sd events : ℕ) → StaysServing g k (activate_server g sd events)
  unfolding activate_server serve welcome server_write writes accepted
  activate_server-Serves sd events h t i = elim (Bool-cases (sd == h.server_sd)) [
    | inl new ↦ elim (Bool-cases (has events epollin)) [
      | inl on ↦ simp (new, on, ◌>>=◌) (accept_client-Serves sd h t i)
      | inr off ↦ simp (new, off, ◌>>=◌) tt
    ]
    | inr old ↦ elim (Bool-cases (has events epollin)) [
      | inl on ↦ simp (old, on, ◌>>=◌) (server_read-Serves sd h t i)
      | inr off ↦ elim (Bool-cases (has events epollout)) [
        | inl out ↦
            simp (old, off, out, ◌>>=◌)
              (kept g k h h t _ refl refl i.at_rest refl refl (λ sd'. refl) i)
        | inr neither ↦ simp (old, off, neither, ◌>>=◌) i
      ]
    ]
  ]
