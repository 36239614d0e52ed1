-- ===== src/SimpleTcp/Rounds.antt =====
-- The whole life of a client of simpletcp/simpletcp.c: as many connections as it was told to make,
-- and a sleep between two of them.
use shadow_tor_eavesdropping.Base.{
  ℕ, zero, suc, ◌==◌, ◌/=◌, ◌&&◌, List, [], ◌∷◌, ◌++◌, pos, Bytes, ◌≡◌, refl, sym, ap,
  length-append, ◌∙◌, arith, length, All, inl, inr, Bool-cases,
}
use mathlib.Core.List.{append_assoc}
use shadow_tor_eavesdropping.Sys.{
  Kernel, M, Trace, Call, EpollOp, SockType, Timeval, Outcome, ok, ◌>>=◌, ◌>>◌, get, minus_one,
  epollout, einprogress,
}
use shadow_tor_eavesdropping.Glib.{HashTable}
use shadow_tor_eavesdropping.SimpleTcp.State.{SimpleTcp, socks5_init, socks5_done}
use shadow_tor_eavesdropping.SimpleTcp.Starting.{
  watch, connect_client, start_client, wakeup_client, requested,
}
use shadow_tor_eavesdropping.SimpleTcp.Client.{next_round, hang_up}
use shadow_tor_eavesdropping.SimpleTcp.Loop.{dispatch_all}
use shadow_tor_eavesdropping.SimpleTcp.Handshake.{
  HoldsName, IsWilling, round, round_trace, round_lem,
}
use shadow_tor_eavesdropping.SimpleTcp.Speeches.{
  said, naps, IsNap, AreBounds, speech, speeches, speeches_last, All-last, same-MayDraw, again_lem,
}

module _ (g : HashTable Timeval) where
  -- A run that says nothing, asks for no sleep, and changes at most the client's descriptor.
  abbrev pub IsQuiet : SimpleTcp g → Trace → Outcome (SimpleTcp g) ℕ → Type 0
  IsQuiet h t o =
      (r : ℕ) × (sd : ℕ) × (t' : Trace) × (o ≡ ok r (record h { client_sd = sd }) t')
      × (naps t' ≡ naps t)
      × (said t' ≡ said t)

  watch-IsQuiet :
      (k : Kernel) (h : SimpleTcp g) (t : Trace) (sd e : ℕ) → IsQuiet h t (watch g sd e k h t)
  unfolding watch naps said
  watch-IsQuiet k h t sd e =
      let c = Call.epoll_ctl EpollOp.ctl_add h.ed sd e in
      elim (Bool-cases (k.returns t c == minus_one)) [
        | inl failed ↦ (minus_one, h.client_sd, c ∷ t, simp failed, refl, refl)
        | inr fine ↦ (0, h.client_sd, c ∷ t, simp fine, refl, refl)
      ]

  connect_client-IsQuiet :
      (k : Kernel) (h : SimpleTcp g) (t : Trace) (sd : ℕ) → IsQuiet h t (connect_client g sd k h t)
  unfolding connect_client naps said
  connect_client-IsQuiet k h t sd =
      let c = Call.connect sd h.client_proxy_ip h.client_proxy_port in
      elim (Bool-cases (k.returns t c == minus_one && k.errno (c ∷ t) /= einprogress)) [
        | inl failed ↦ (minus_one, h.client_sd, c ∷ t, simp failed, refl, refl)
        | inr fine ↦
            let (r, sd', t', ran, napped, spoke) = watch-IsQuiet k h (c ∷ t) sd epollout in
            (r, sd', t', simp fine ran, napped, spoke)
      ]

  pub start_client-IsQuiet :
      (k : Kernel) (h : SimpleTcp g) (t : Trace) → IsQuiet h t (start_client g k h t)
  unfolding start_client naps said
  start_client-IsQuiet k h t =
      let c = Call.socket SockType.stream in
      let sd = k.returns t c in
      elim (Bool-cases (sd == minus_one)) [
        | inl failed ↦ (minus_one, sd, c ∷ t, simp (failed, ◌>>=◌), refl, refl)
        | inr fine ↦
            let h' : SimpleTcp g = record h { client_sd = sd } in
            let (r, sd', t', ran, napped, spoke) = connect_client-IsQuiet k h' (c ∷ t) sd in
            (r, sd', t', simp (fine, ◌>>=◌) ran, napped, spoke)
      ]

  pub wakeup_lem :
      (k : Kernel) (h : SimpleTcp g) (t : Trace)
      → (sd : ℕ) × (t' : Trace) × (wakeup_client g k h t ≡ ok tt (record h { client_sd = sd }) t')
        × (naps t' ≡ naps t)
        × (said t' ≡ said t)
  unfolding wakeup_client
  wakeup_lem k h t =
      let (r, sd, t', ran, napped, spoke) = start_client-IsQuiet k h t in
      (sd, t', simp (ran, ◌>>=◌), napped, spoke)

  -- The events of one connection, and of `n` more, each after the client was woken.
  unfoldable pub visit : M (SimpleTcp g) (Unit {0})
  visit = do h ← get; dispatch_all g (requested g) (round h.client_sd)

  unfoldable pub visits : ℕ → M (SimpleTcp g) (Unit {0})
  visits zero = visit
  visits (suc n) = do visit; wakeup_client g; visits n

  -- The trace behind a connection, and the state of a client that will make `n` more.
  abbrev left : SimpleTcp g → Bytes → Trace → Trace
  left h name t =
      Call.close h.client_sd
      ∷ Call.epoll_ctl EpollOp.ctl_del h.ed h.client_sd 0
      ∷ round_trace h.ed h.client_sd h.client_server_ip h.client_server_port name t

  abbrev again_with : SimpleTcp g → ℕ → SimpleTcp g
  again_with h n = record h {
    client_socks5_status = socks5_init;
    client_sd = 0;
    client_nconn = pos n;
  }

  last_visit :
      (k : Kernel) (h : SimpleTcp g) (t : Trace) (name : Bytes)
      → IsWilling k
      → HoldsName h.hostname name
      → h.client_socks5_status ≡ socks5_init
      → h.client_nconn ≡ pos 1
      → (t' : Trace) × (visit k h t
          ≡ ok tt (record h { client_socks5_status = socks5_done; client_sd = 0; is_done = 1 }) t')
        × (naps t' ≡ naps t)
        × (said t' ≡ speech h.client_server_ip h.client_server_port name ++ said t)
  unfolding visit hang_up next_round naps said
  last_visit k h t name willing held at one = (
    left h name t,
    round_lem g (requested g) k h t name willing held at ∙ simp (one, ◌>>=◌),
    refl,
    refl,
  )

  next_visit :
      (k : Kernel) (h : SimpleTcp g) (t : Trace) (name : Bytes) (n : ℕ)
      → IsWilling k
      → HoldsName h.hostname name
      → AreBounds h.client_sleep_min h.client_sleep_max
      → h.client_socks5_status ≡ socks5_init
      → h.client_nconn ≡ pos (suc (suc n))
      → (ms : ℕ) × (t' : Trace) × (visit k h t ≡ ok tt (again_with h (suc n)) t')
        × IsNap h.client_sleep_min h.client_sleep_max ms
        × (naps t' ≡ ms ∷ naps t)
        × (said t' ≡ speech h.client_server_ip h.client_server_port name ++ said t)
  unfolding visit hang_up next_round requested naps said
  next_visit k h t name n willing held bounds at more =
      let h' : SimpleTcp g = record h {
        client_socks5_status = socks5_done;
        client_sd = 0;
        client_nconn = pos (suc (suc n));
      } in
      let (t', ms, ran, allowed, drawn) =
        again_lem g (requested g) k h' (left h name t) (suc n) bounds in
      (
        ms,
        Call.create_callback ms ∷ t',
        round_lem g (requested g) k h t name willing held at ∙ simp (more, ◌>>=◌) ran,
        allowed,
        ap (λ r. ms ∷ r) (same-MayDraw naps (left h name t) t' refl drawn),
        same-MayDraw said (left h name t) t' refl drawn,
      )

  -- With a proxy that grants what it is asked, a name that fits the message, bounds on the sleep
  -- that are both 0 or of which the first is less, and the status SOCKS5_INIT: a client that is to
  -- make `n + 1` connections, given the events of `n + 1` connections with a wake-up between any
  -- two, returns and is done. It has said greeting, request and name `n + 1` times and nothing
  -- else, and has asked for `n` sleeps, each of them the default where the bounds are 0, and
  -- otherwise from the lower bound up to below the upper one.
  pub visits_lem :
      (n : ℕ) (k : Kernel) (h : SimpleTcp g) (t : Trace) (name : Bytes)
      → IsWilling k
      → HoldsName h.hostname name
      → AreBounds h.client_sleep_min h.client_sleep_max
      → h.client_socks5_status ≡ socks5_init
      → h.client_nconn ≡ pos (suc n)
      → (h' : SimpleTcp g) × (t' : Trace) × (sleeps : List ℕ) × (visits n k h t ≡ ok tt h' t')
        × (h'.is_done ≡ 1)
        × (said t'
            ≡ speeches (suc n) (speech h.client_server_ip h.client_server_port name) ++ said t)
        × (naps t' ≡ sleeps ++ naps t)
        × (length sleeps ≡ n)
        × All (IsNap h.client_sleep_min h.client_sleep_max) sleeps
  unfolding visits speeches
  visits_lem zero k h t name willing held bounds at one =
      let (t', ran, napped, spoke) = last_visit k h t name willing held at one in
      (
        record h { client_socks5_status = socks5_done; client_sd = 0; is_done = 1 },
        t',
        [],
        ran,
        refl,
        spoke,
        napped,
        refl,
        tt,
      )
  visits_lem (suc n) k h t name willing held bounds at more =
      let one = speech h.client_server_ip h.client_server_port name in
      let (ms, t1, ran1, allowed, napped1, spoke1) =
        next_visit k h t name n willing held bounds at more in
      let (sd, t2, ran2, napped2, spoke2) = wakeup_lem k (again_with h (suc n)) t1 in
      let h2 : SimpleTcp g = record (again_with h (suc n)) { client_sd = sd } in
      let (h3, t3, sleeps, ran3, done, spoke3, napped3, count, nice) =
        visits_lem n k h2 t2 name willing held bounds refl refl in
      (
        h3,
        t3,
        sleeps ++ ms ∷ [],
        simp (ran1, ran2, ◌>>=◌) ran3,
        done,
        spoke3
            ∙ ap (λ r. speeches (suc n) one ++ r) (spoke2 ∙ spoke1)
            ∙ speeches_last (suc n) one (said t),
        napped3
            ∙ ap (λ r. sleeps ++ r) (napped2 ∙ napped1)
            ∙ sym (append_assoc sleeps (ms ∷ []) (naps t)),
        omega (arith, length-append {A = ℕ} sleeps (ms ∷ []), count),
        All-last (IsNap h.client_sleep_min h.client_sleep_max) sleeps ms nice allowed,
      )
