-- ===== src/SimpleTcp/Standalone/Rounds.antt =====
-- A client that simpletcp/simpletcp-main.c runs, from the first of its connections to the end.
use shadow_tor_eavesdropping.Base.{
  ℕ, zero, suc, ◌+◌, ◌*◌, Option, some, List, [], ◌∷◌, ◌++◌, pos, Bytes, ◌≡◌, ◌≢◌, refl, sym, ap,
  ◌∙◌, arith, length, All, length-append, eq_true, ne_true,
}
use mathlib.Core.List.{append_assoc}
use shadow_tor_eavesdropping.Sys.{
  Kernel, Trace, Call, EpollOp, Timeval, Outcome, ok, ◌>>=◌, epollin, epollout, epollall,
}
use shadow_tor_eavesdropping.Glib.{HashTable}
use shadow_tor_eavesdropping.Resolve.{Strings}
use shadow_tor_eavesdropping.Host.Main.{clean_up}
use shadow_tor_eavesdropping.SimpleTcp.State.{
  SimpleTcp, socks5_init, socks5_done, socks5_method_negotation_req, socks5_method_negotation_ok,
  socks5_connection_req, socks5_connection_ok,
}
use shadow_tor_eavesdropping.SimpleTcp.Packets.{negotation_packet, request_packet}
use shadow_tor_eavesdropping.SimpleTcp.Arguments.{Numbers}
use shadow_tor_eavesdropping.SimpleTcp.Starting.{wakeup_client}
use shadow_tor_eavesdropping.SimpleTcp.Client.{hang_up, next_round}
use shadow_tor_eavesdropping.SimpleTcp.Loop.{
  dispatch, simpletcp_free, simpletcp_get_epoll_descriptor,
}
use shadow_tor_eavesdropping.SimpleTcp.Speeches.{
  said, IsNap, AreBounds, speech, speeches, speeches_last, All-last, same-MayDraw, again_lem,
}
use shadow_tor_eavesdropping.SimpleTcp.Handshake.{
  HoldsName, IsWilling, greet_lem, greeted_lem, ask_lem, granted_lem, tell_lem, hang_up_lem,
}
use shadow_tor_eavesdropping.SimpleTcp.Standalone.{main_create_callback, microseconds}
use shadow_tor_eavesdropping.SimpleTcp.Standalone.Turns.{
  awaited, slept, IsLively, new_socket, start_trace, start_client_lem, waits, looping, turn_lem,
  last_turn_lem,
}

-- A time for which the process sleeps, in microseconds.
abbrev pub IsDoze : ℕ → ℕ → ℕ → Type 0
IsDoze smin smax us = (ms : ℕ) × IsNap smin smax ms × (us ≡ microseconds ms)

-- The turns of a client that is to make `n + 1` connections: six for each.
unfoldable pub turns_for : ℕ → ℕ
turns_for zero = suc (suc (suc (suc (suc (suc zero)))))
turns_for (suc n) = suc (suc (suc (suc (suc (suc (turns_for n))))))

pub turns_for_lem : (n : ℕ) → turns_for n ≡ 6 * n + 6
unfolding turns_for
turns_for_lem zero = refl
turns_for_lem (suc n) = omega (arith, turns_for_lem n)

module _ (g : HashTable Timeval) (lib : Strings) (numbers : Numbers) (k : Kernel)
    (lively : IsLively k) (m : ℕ) (name : Bytes) (willing : IsWilling k) where
  abbrev runs : ℕ → SimpleTcp g → Trace → Outcome (SimpleTcp g) (Option ℕ)
  runs n h t = looping g lib numbers k lively m n k h t

  -- The first five turns of a connection.
  speaking_turns :
      (n : ℕ) (h : SimpleTcp g) (t : Trace)
      → HoldsName h.hostname name
      → h.client_socks5_status ≡ socks5_init
      → h.is_done ≡ 0
      → awaited h.ed t ≡ (h.client_sd, epollout) ∷ []
      → (t' : Trace) × (runs (suc (suc (suc (suc (suc n))))) h t
          ≡ runs n (record h { client_socks5_status = socks5_done }) t')
        × (awaited h.ed t' ≡ (h.client_sd, epollin) ∷ [])
        × (said t' ≡ speech h.client_server_ip h.client_server_port name ++ said t)
        × (slept t' ≡ slept t)
  unfolding awaited said slept
  speaking_turns n h t held at going due =
      let later = main_create_callback g in
      let sd = h.client_sd in
      let w : Trace → Trace = λ r. waits g lib numbers k lively m h r in
      let h1 : SimpleTcp g = record h { client_socks5_status = socks5_method_negotation_req } in
      let h2 : SimpleTcp g = record h { client_socks5_status = socks5_method_negotation_ok } in
      let h3 : SimpleTcp g = record h { client_socks5_status = socks5_connection_req } in
      let h4 : SimpleTcp g = record h { client_socks5_status = socks5_connection_ok } in
      let h5 : SimpleTcp g = record h { client_socks5_status = socks5_done } in
      let modified : ℕ → Call = λ events. Call.epoll_ctl EpollOp.ctl_mod h.ed sd events in
      let request = request_packet h.client_server_ip h.client_server_port in
      let t1 : Trace = modified epollin ∷ Call.write sd negotation_packet ∷ w t in
      let t2 : Trace = modified epollout ∷ Call.read sd 2 ∷ w t1 in
      let t3 : Trace = modified epollin ∷ Call.write sd request ∷ w t2 in
      let t4 : Trace = modified epollout ∷ Call.read sd 10 ∷ w t3 in
      let t5 : Trace = modified epollin ∷ Call.send sd name ∷ w t4 in
      let step = turn_lem g lib numbers k lively m in
      (
        t5,
        step (suc (suc (suc (suc n)))) h t epollout h1 t1 due (greet_lem g later k h (w t) at) going
            ∙ step (suc (suc (suc n))) h1 t1 epollin h2 t2 (simp (eq_true h.ed))
                (greeted_lem g later k h1 (w t1) willing refl) going
            ∙ step (suc (suc n)) h2 t2 epollout h3 t3 (simp (eq_true h.ed))
                (ask_lem g later k h2 (w t2) refl) going
            ∙ step (suc n) h3 t3 epollin h4 t4 (simp (eq_true h.ed))
                (granted_lem g later k h3 (w t3) willing refl) going
            ∙ step n h4 t4 epollout h5 t5 (simp (eq_true h.ed))
                (tell_lem g later k h4 (w t4) name held refl) going,
        simp (eq_true h.ed),
        refl,
        refl,
      )

  wakeup_lem :
      (h : SimpleTcp g) (t : Trace)
      → (sd : ℕ) × (t' : Trace) × (wakeup_client g k h t ≡ ok tt (record h { client_sd = sd }) t')
        × (awaited h.ed t' ≡ (sd, epollout) ∷ [])
        × (said t' ≡ said t)
        × (slept t' ≡ slept t)
  unfolding wakeup_client awaited said slept
  wakeup_lem h t = (
    new_socket k t,
    start_trace h (new_socket k t) t,
    simp (start_client_lem g k h t lively, ◌>>=◌),
    simp (eq_true h.ed),
    refl,
    refl,
  )

  -- The sixth turn of a connection that is not the last one: the handler sleeps and wakes the
  -- client.
  further_turn :
      (n j : ℕ) (h : SimpleTcp g) (t : Trace)
      → AreBounds h.client_sleep_min h.client_sleep_max
      → h.client_socks5_status ≡ socks5_done
      → h.client_nconn ≡ pos (suc (suc j))
      → h.is_done ≡ 0
      → awaited h.ed t ≡ (h.client_sd, epollin) ∷ []
      → (sd : ℕ) × (us : ℕ) × (t' : Trace) × (runs (suc n) h t
          ≡ runs n
              (record h {
                client_socks5_status = socks5_init;
                client_sd = sd;
                client_nconn = pos (suc j);
              })
              t')
        × (awaited h.ed t' ≡ (sd, epollout) ∷ [])
        × (said t' ≡ said t)
        × IsDoze h.client_sleep_min h.client_sleep_max us
        × (slept t' ≡ us ∷ slept t)
  unfolding hang_up next_round main_create_callback said slept
  further_turn n j h t bounds at more going due =
      let later = main_create_callback g in
      let h0 : SimpleTcp g = record h { client_sd = 0; client_nconn = pos (suc (suc j)) } in
      let h1 : SimpleTcp g = record h {
        client_sd = 0;
        client_socks5_status = socks5_init;
        client_nconn = pos (suc j);
      } in
      let w : Trace = waits g lib numbers k lively m h t in
      let t1 : Trace =
        Call.close h.client_sd ∷ Call.epoll_ctl EpollOp.ctl_del h.ed h.client_sd 0 ∷ w in
      let (t2, ms, ran, allowed, drawn) = again_lem g later k h0 t1 (suc j) bounds in
      let us = microseconds ms in
      let (sd, t3, woken, waiting, spoke, dozed) = wakeup_lem h1 (Call.usleep us ∷ t2) in
      let h3 : SimpleTcp g = record h1 { client_sd = sd } in
      let called : dispatch g later h.client_sd epollin k h w ≡ ok tt h3 t3 =
        hang_up_lem g later k h w at ∙ simp (more, ran, ◌>>=◌) woken in
      (
        sd,
        us,
        t3,
        turn_lem g lib numbers k lively m n h t epollin h3 t3 due called going,
        waiting,
        spoke ∙ same-MayDraw said t1 t2 refl drawn,
        (ms, allowed, refl),
        dozed ∙ ap (λ r. us ∷ r) (same-MayDraw slept t1 t2 refl drawn),
      )

  free_lem :
      (h : SimpleTcp g) (t : Trace)
      → h.ed ≢ 0
      → h.client_sd ≡ 0
      → simpletcp_free g k h t ≡ ok tt h (Call.close h.ed ∷ t)
  unfolding simpletcp_free
  free_lem h t real hung_up = simp (hung_up, ne_true h.ed 0 real, ◌>>=◌)

  -- The sixth turn of the last connection, and what follows the loop.
  final_turn :
      (n : ℕ) (h : SimpleTcp g) (t : Trace)
      → h.ed ≢ 0
      → h.client_socks5_status ≡ socks5_done
      → h.client_nconn ≡ pos 1
      → awaited h.ed t ≡ (h.client_sd, epollin) ∷ []
      → (t' : Trace) × (runs (suc n) h t ≡ ok (some 0) (record h { client_sd = 0; is_done = 1 }) t')
        × (said t' ≡ said t)
        × (slept t' ≡ slept t)
  unfolding hang_up next_round clean_up simpletcp_get_epoll_descriptor said slept
  final_turn n h t real at one due =
      let h1 : SimpleTcp g = record h { client_sd = 0; is_done = 1 } in
      let w : Trace = waits g lib numbers k lively m h t in
      let t1 : Trace =
        Call.close h.client_sd ∷ Call.epoll_ctl EpollOp.ctl_del h.ed h.client_sd 0 ∷ w in
      let called : dispatch g (main_create_callback g) h.client_sd epollin k h w ≡ ok tt h1 t1 =
        hang_up_lem g (main_create_callback g) k h w at ∙ simp (one, ◌>>=◌) in
      (
        Call.close h.ed ∷ Call.close m ∷ Call.epoll_ctl EpollOp.ctl_del m h.ed epollall ∷ t1,
        last_turn_lem g lib numbers k lively m n h t epollin h1 t1 due called refl
            ∙ simp (ne_true h.ed 0 real, free_lem h1 _ real refl, ◌>>=◌),
        refl,
        refl,
      )

  -- With a client that is to make `n + 1` connections and whose socket is awaited, the loop ends,
  -- after as many turns as `turns_for` says.
  pub rounds_lem :
      (n : ℕ) (h : SimpleTcp g) (t : Trace)
      → HoldsName h.hostname name
      → AreBounds h.client_sleep_min h.client_sleep_max
      → h.ed ≢ 0
      → h.client_socks5_status ≡ socks5_init
      → h.client_nconn ≡ pos (suc n)
      → h.is_done ≡ 0
      → awaited h.ed t ≡ (h.client_sd, epollout) ∷ []
      → (h' : SimpleTcp g) × (t' : Trace) × (sleeps : List ℕ) × (runs (turns_for n) h t
          ≡ ok (some 0) h' t')
        × (said t'
            ≡ speeches (suc n) (speech h.client_server_ip h.client_server_port name) ++ said t)
        × (slept t' ≡ sleeps ++ slept t)
        × (length sleeps ≡ n)
        × All (IsDoze h.client_sleep_min h.client_sleep_max) sleeps
  unfolding turns_for speeches
  rounds_lem zero h t held bounds real at one going due =
      let h5 : SimpleTcp g = record h { client_socks5_status = socks5_done } in
      let (t5, ran5, due5, spoke5, dozed5) = speaking_turns (suc zero) h t held at going due in
      let (t6, ran6, spoke6, dozed6) = final_turn zero h5 t5 real refl one due5 in
      (
        record h5 { client_sd = 0; is_done = 1 },
        t6,
        [],
        ran5 ∙ ran6,
        spoke6 ∙ spoke5,
        dozed6 ∙ dozed5,
        refl,
        tt,
      )
  rounds_lem (suc n) h t held bounds real at more going due =
      let one = speech h.client_server_ip h.client_server_port name in
      let h5 : SimpleTcp g = record h { client_socks5_status = socks5_done } in
      let (t5, ran5, due5, spoke5, dozed5) =
        speaking_turns (suc (turns_for n)) h t held at going due in
      let (sd, us, t6, ran6, due6, spoke6, nap, dozed6) =
        further_turn (turns_for n) n h5 t5 bounds refl more going due5 in
      let h6 : SimpleTcp g = record h5 {
        client_socks5_status = socks5_init;
        client_sd = sd;
        client_nconn = pos (suc n);
      } in
      let (h7, t7, sleeps, ran7, spoke7, dozed7, count, nice) =
        rounds_lem n h6 t6 held bounds real refl refl going due6 in
      (
        h7,
        t7,
        sleeps ++ us ∷ [],
        ran5 ∙ ran6 ∙ ran7,
        spoke7
            ∙ ap (λ r. speeches (suc n) one ++ r) (spoke6 ∙ spoke5)
            ∙ speeches_last (suc n) one (said t),
        dozed7
            ∙ ap (λ r. sleeps ++ r) (dozed6 ∙ ap (λ r. us ∷ r) dozed5)
            ∙ sym (append_assoc sleeps (us ∷ []) (slept t)),
        omega (arith, length-append {A = ℕ} sleeps (us ∷ []), count),
        All-last (IsDoze h.client_sleep_min h.client_sleep_max) sleeps us nice nap,
      )
