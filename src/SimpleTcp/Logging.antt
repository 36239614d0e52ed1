-- ===== src/SimpleTcp/Logging.antt =====
-- What the server of simpletcp/simpletcp.c writes into its log.
use shadow_tor_eavesdropping.Base.{
  ℕ, zero, suc, ◌-◌, ◌<◌, none, some, [], ◌∷◌, ◌++◌, Bytes, ◌≡◌, ◌≢◌, refl, ap, arith, length,
  take-append_length, replicate, eq_false, eq_true,
}
use shadow_tor_eavesdropping.Sys.{
  Kernel, Trace, Call, EpollOp, FileMode, Timeval, ok, ◌>>=◌, minus_one, epollin, epollout,
  event_bits,
}
use shadow_tor_eavesdropping.Glib.{HashTable}
use shadow_tor_eavesdropping.TProxy.Handlers.{filled}
use shadow_tor_eavesdropping.TProxy.Tracing.{IsText, strlen-append}
use shadow_tor_eavesdropping.SimpleTcp.State.{SimpleTcp}
use shadow_tor_eavesdropping.SimpleTcp.Starting.{Later}
use shadow_tor_eavesdropping.SimpleTcp.Client.{client_msg_size}
use shadow_tor_eavesdropping.SimpleTcp.Server.{
  log_line, append_log, log_found, log_server_connection, server_read, accept_client, welcome,
  serve, activate_server,
}
use shadow_tor_eavesdropping.SimpleTcp.Loop.{dispatch, dispatch_all}

-- The descriptor that `accept` gives, and the time that is kept with it.
abbrev pub newcomer : {g : HashTable Timeval} → Kernel → SimpleTcp g → Trace → ℕ
newcomer k h t = k.returns t (Call.accept h.server_sd)

abbrev pub arrival : {g : HashTable Timeval} → Kernel → SimpleTcp g → Trace → Timeval
arrival k h t = k.clock (Call.accept h.server_sd ∷ t)

-- The calls of an accepted connection, and of a message that is logged.
abbrev pub accept_trace : {g : HashTable Timeval} → Kernel → SimpleTcp g → Trace → Trace
accept_trace k h t =
    Call.epoll_ctl EpollOp.ctl_add h.ed (newcomer k h t) epollin
    ∷ Call.gettimeofday
    ∷ Call.accept h.server_sd
    ∷ t

abbrev pub log_trace : ℕ → ℕ → Bytes → ℕ → Bytes → Trace → Trace
log_trace ed sd path fd line t =
    Call.epoll_ctl EpollOp.ctl_mod ed sd epollout
    ∷ Call.close fd
    ∷ Call.write fd line
    ∷ Call.open_file FileMode.appending path
    ∷ Call.recv sd client_msg_size
    ∷ t

some_zeros : (n : ℕ) → 0 < n → (r : Bytes) × (replicate {A = ℕ} n 0 ≡ 0 ∷ r)
some_zeros zero h = absurd (omega arith)
some_zeros (suc n) h = (replicate n 0, refl)

room : (n : ℕ) → n < client_msg_size → 0 < client_msg_size - n
room n h = omega (arith, h)

filled_text :
    (name : Bytes)
    → length name < client_msg_size
    → (r : Bytes) × (filled client_msg_size (some name) ≡ name ++ 0 ∷ r)
filled_text name h =
    let (r, zeros) = some_zeros (client_msg_size - length name) (room (length name) h) in
    (r, ap (λ q. name ++ q) zeros)

module _ (g : HashTable Timeval) where
  append_log_lem :
      (k : Kernel) (h : SimpleTcp g) (t : Trace) (line : Bytes) (fd : ℕ)
      → k.returns t (Call.open_file FileMode.appending h.server_log_path) ≡ fd
      → fd ≢ minus_one
      → append_log g line k h t
        ≡ ok tt h (
            Call.close fd
            ∷ Call.write fd line
            ∷ Call.open_file FileMode.appending h.server_log_path
            ∷ t)
  unfolding append_log
  append_log_lem k h t line fd opened usable = simp (opened, eq_false fd minus_one usable, ◌>>=◌)

  log_found_lem :
      (k : Kernel) (h : SimpleTcp g) (t : Trace) (name r : Bytes) (time : Timeval)
      → IsText name
      → log_found g (name ++ 0 ∷ r) (some time) k h t ≡ append_log g (log_line name time) k h t
  unfolding log_found
  log_found_lem k h t name r time text = simp (strlen-append name r text, take-append_length, ◌>>=◌)

  server_read_lem :
      (k : Kernel) (h : SimpleTcp g) (t : Trace) (sd c : ℕ) (name : Bytes) (time : Timeval) (fd : ℕ)
      → k.receives t (Call.recv sd client_msg_size) ≡ some (c ∷ name)
      → IsText (c ∷ name)
      → length (c ∷ name) < client_msg_size
      → g.lookup sd h.server_hashtab ≡ some time
      → k.returns
          (Call.recv sd client_msg_size ∷ t)
          (Call.open_file FileMode.appending h.server_log_path)
        ≡ fd
      → fd ≢ minus_one
      → server_read g sd k h t
        ≡ ok tt h (log_trace h.ed sd h.server_log_path fd (log_line (c ∷ name) time) t)
  unfolding server_read log_server_connection
  server_read_lem k h t sd c name time fd got text short known opened usable =
      let (r, padded) = filled_text (c ∷ name) short in
      let t' : Trace = Call.recv sd client_msg_size ∷ t in
      let logged = log_found_lem k h t' (c ∷ name) r time text in
      let appended = append_log_lem k h t' (log_line (c ∷ name) time) fd opened usable in
      simp (got, known, padded, logged, appended, ◌>>=◌)

  -- A `recv` that fails is logged as a visit of a host without a name: if a connection is known,
  -- its `recv` returns -1 and the log file opens, `serverRead` appends the line of the empty name.
  pub failed_recv_logged :
      (k : Kernel) (h : SimpleTcp g) (t : Trace) (sd fd : ℕ) (time : Timeval)
      → k.receives t (Call.recv sd client_msg_size) ≡ none
      → g.lookup sd h.server_hashtab ≡ some time
      → k.returns
          (Call.recv sd client_msg_size ∷ t)
          (Call.open_file FileMode.appending h.server_log_path)
        ≡ fd
      → fd ≢ minus_one
      → server_read g sd k h t
        ≡ ok tt h (log_trace h.ed sd h.server_log_path fd (log_line [] time) t)
  unfolding server_read log_server_connection
  failed_recv_logged k h t sd fd time lost known opened usable =
      let t' : Trace = Call.recv sd client_msg_size ∷ t in
      let logged = log_found_lem k h t' [] (replicate 255 0) time tt in
      let appended = append_log_lem k h t' (log_line [] time) fd opened usable in
      simp (lost, known, logged, appended, ◌>>=◌)

module _ (g : HashTable Timeval) (later : Later g) where
  accept_lem :
      (k : Kernel) (h : SimpleTcp g) (t : Trace)
      → h.server_sd ≢ h.client_sd
      → dispatch g later h.server_sd epollin k h t
        ≡ ok tt
            (record h {
              server_hashtab = g.replace (newcomer k h t) (arrival k h t) h.server_hashtab;
            })
            (accept_trace k h t)
  unfolding dispatch activate_server welcome accept_client
  accept_lem k h t other =
      simp (eq_false h.server_sd h.client_sd other, eq_true h.server_sd, event_bits, ◌>>=◌)

  serve_lem :
      (k : Kernel) (h : SimpleTcp g) (t : Trace) (sd : ℕ)
      → sd ≢ h.client_sd
      → sd ≢ h.server_sd
      → dispatch g later sd epollin k h t ≡ server_read g sd k h t
  unfolding dispatch activate_server serve
  serve_lem k h t sd other new =
      simp (eq_false sd h.client_sd other, eq_false sd h.server_sd new, event_bits, ◌>>=◌)

  known_later :
      (t : g.Table) (sd : ℕ) (time : Timeval) → g.lookup sd (g.replace sd time t) ≡ some time
  known_later t sd time = simp (g.lookup-replace, eq_true sd)

  -- A connection that is accepted and then sends its name is logged with the time at which it was
  -- accepted: for a listening descriptor that is not the client's and is not the new one, a new
  -- descriptor that is not the client's, a name of 1 to 255 bytes of which none is 0, and a log
  -- file that opens, the two events append one line, the name and the time of the `accept`.
  pub visit_logged :
      (k : Kernel) (h : SimpleTcp g) (t : Trace) (c : ℕ) (name : Bytes) (fd : ℕ)
      → h.server_sd ≢ h.client_sd
      → newcomer k h t ≢ h.client_sd
      → newcomer k h t ≢ h.server_sd
      → k.receives (accept_trace k h t) (Call.recv (newcomer k h t) client_msg_size)
        ≡ some (c ∷ name)
      → IsText (c ∷ name)
      → length (c ∷ name) < client_msg_size
      → k.returns
          (Call.recv (newcomer k h t) client_msg_size ∷ accept_trace k h t)
          (Call.open_file FileMode.appending h.server_log_path)
        ≡ fd
      → fd ≢ minus_one
      → dispatch_all g later ((h.server_sd, epollin) ∷ (newcomer k h t, epollin) ∷ []) k h t
        ≡ ok tt
            (record h {
              server_hashtab = g.replace (newcomer k h t) (arrival k h t) h.server_hashtab;
            })
            (log_trace h.ed
              (newcomer k h t)
              h.server_log_path
              fd
              (log_line (c ∷ name) (arrival k h t))
              (accept_trace k h t))
  unfolding dispatch_all
  visit_logged k h t c name fd other new_other new_listen got text short opened usable =
      let sd = newcomer k h t in
      let h' : SimpleTcp g = record h {
        server_hashtab = g.replace sd (arrival k h t) h.server_hashtab;
      } in
      let known = known_later h.server_hashtab sd (arrival k h t) in
      let logged =
        server_read_lem g k h' (accept_trace k h t) sd c name (arrival k h t) fd got text short
          known opened usable in
      let served = serve_lem k h' (accept_trace k h t) sd new_other new_listen in
      simp (accept_lem k h t other, served, logged, ◌>>=◌)
