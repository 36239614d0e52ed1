-- ===== src/Logger/Life.antt =====
-- What the log file of loggerserver/loggerserver.c holds, from the start of the program on.
use shadow_tor_eavesdropping.Base.{
  ℕ, ◌==◌, Option, none, some, List, [], ◌∷◌, Bytes, ◌≡◌, refl, ap, sym, ◌∙◌, arith, inl, inr,
  Bool-cases,
}
use mathlib.Core.List.{append-nil}
use mathlib.Core.Path.{subst}
use shadow_tor_eavesdropping.Sys.{Kernel, M, Trace, Call, minus_one, ◌>>=◌, ◌>>◌, epollin}
use shadow_tor_eavesdropping.Sys.Ends.{AnyFault, Ends, >>=-Ends}
use shadow_tor_eavesdropping.Logger.LoggerServer.{
  LoggerServer, loggerserver_ready, loggerserver_start_reader, loggerserver_bind,
  loggerserver_watch, loggerserver_free, loggerserver_is_done,
}
use shadow_tor_eavesdropping.Logger.LoggerStart.{
  copy_path, loggerserver_fill, loggerserver_clean, loggerserver_finish, loggerserver_give_up,
  loggerserver_set_up, loggerserver_found, loggerserver_look_up, loggerserver_open,
  loggerserver_new, loggerserver_node, loggerserver_check, loggerserver_main,
}
use shadow_tor_eavesdropping.Logger.File.{contents}
use shadow_tor_eavesdropping.Logger.Journal.{arrived, Kept, loggerserver_ready-IsFaithful}
use shadow_tor_eavesdropping.Resolve.{Strings, find_addr, port_of}
use shadow_tor_eavesdropping.Host.Turns.{Keeps, IfMade, IfRunning, main-IfRunning}
use shadow_tor_eavesdropping.Logger.Kept.{
  log_argument, own-Kept, Kept-early, find_addr-Early, port_of-Early, copy_path-Early,
}

-- The file at `path` holds what it held at first and what arrived, nobody has asked for the
-- listening socket to be watched again, and messages go to `path`.
abbrev pub IsLogging : Kernel → Bytes → Bytes → LoggerServer → Trace → Type 0
IsLogging k path old h t = Kept k path old old t × (h.is_done ≡ 0) × (h.log_path ≡ path)

served-IsLogging :
    (k : Kernel) (path old : Bytes) (h : LoggerServer) (t : Trace)
    → IsLogging k path old h t
    → Ends (λ _. IsLogging k path old) AnyFault (loggerserver_ready k h t)
served-IsLogging k path old h t (i, d, f) =
    let (h', t', ran, kept, same, stays) = loggerserver_ready-IsFaithful k old old h t (rw f i) in
    rw ran (subst (λ p. Kept k p old old t') f kept, same ∙ d, stays ∙ f)

checked-IsLogging :
    (lib : Strings) (k : Kernel) (path old : Bytes) (h : LoggerServer) (t : Trace)
    → IsLogging k path old h t
    → Ends (λ _. IsLogging k path old) AnyFault (loggerserver_check lib k h t)
unfolding loggerserver_check loggerserver_is_done
checked-IsLogging lib k path old h t (i, d, f) = simp (d, ◌>>=◌) (i, refl, f)

loggerserver-Keeps :
    (k : Kernel) (path old : Bytes) (lib : Strings)
    → Keeps k (loggerserver_node lib) (loggerserver_check lib) (IsLogging k path old) AnyFault
unfolding loggerserver_free
loggerserver-Keeps k path old lib = record {
  own = λ h t c o (i, d, f). (own-Kept k path old old t c o i, d, f);
  served = served-IsLogging k path old;
  checked = checked-IsLogging lib k path old;
  ended = λ h t i. ground arith;
}

module _ (k : Kernel) (old : Bytes) where
  -- A part of the start with a state.
  abbrev KeepsUp : {A : Type 0} → Bytes → M LoggerServer A → Type 0
  KeepsUp path m =
      (h : LoggerServer) (t : Trace)
      → IsLogging k path old h t
      → Ends (λ _. IsLogging k path old) AnyFault (m k h t)

  start_reader-KeepsUp : (path : Bytes) → KeepsUp path loggerserver_start_reader
  unfolding loggerserver_start_reader loggerserver_bind loggerserver_watch contents arrived
  start_reader-KeepsUp path h t i = ground arith

  finish-IfMade :
      (path : Bytes) (r : ℕ) (h : LoggerServer) (t : Trace)
      → IsLogging k path old h t
      → Ends (IfMade (IsLogging k path old)) AnyFault (loggerserver_finish r k h t)
  unfolding loggerserver_finish loggerserver_free
  finish-IfMade path r h t i = ground arith

  set_up-IfMade :
      (lib : Strings) (input_ed : ℕ) (port : Option Bytes) (path : Bytes) (inaddr : ℕ)
      (h : LoggerServer) (t : Trace)
      → Kept k path old old t
      → Ends
          (IfMade (IsLogging k path old))
          AnyFault
          (loggerserver_set_up lib input_ed port path inaddr k h t)
  unfolding loggerserver_set_up loggerserver_fill loggerserver_clean contents arrived
  set_up-IfMade lib input_ed port path inaddr h t i =
      >>=-Ends (λ _ _. Kept k path old old) (IfMade (IsLogging k path old)) AnyFault
        (port_of lib port)
        (λ inport.
          copy_path path
          >> (loggerserver_fill input_ed inaddr inport path
              >> (loggerserver_clean path >> (loggerserver_start_reader >>= loggerserver_finish))))
        k h t (port_of-Early k (Kept k path old old) (Kept-early k path old old) lib port h t i)
        λ inport h₁ t₁ i₁.
          >>=-Ends (λ _ _. Kept k path old old) (IfMade (IsLogging k path old)) AnyFault
            (copy_path path)
            (λ _.
              loggerserver_fill input_ed inaddr inport path
              >> (loggerserver_clean path >> (loggerserver_start_reader >>= loggerserver_finish)))
            k h₁ t₁
            (copy_path-Early k (Kept k path old old) (Kept-early k path old old) path h₁ t₁ i₁)
            λ u h₂ t₂ i₂.
              >>=-Ends (λ _. IsLogging k path old) (IfMade (IsLogging k path old)) AnyFault
                loggerserver_start_reader loggerserver_finish k _ _
                (start_reader-KeepsUp path _ _ (i₂, refl, refl)) (finish-IfMade path)

  found-IfMade :
      (lib : Strings) (input_ed : ℕ) (port : Option Bytes) (path : Bytes) (addr : Option ℕ)
      (h : LoggerServer) (t : Trace)
      → Kept k path old old t
      → Ends
          (IfMade (IsLogging k path old))
          AnyFault
          (loggerserver_found lib input_ed port path addr k h t)
  unfolding loggerserver_found loggerserver_give_up
  found-IfMade lib input_ed port path none h t i = tt
  found-IfMade lib input_ed port path (some inaddr) h t i =
      set_up-IfMade lib input_ed port path inaddr h t i

  look_up-IfMade :
      (lib : Strings) (input_ed : ℕ) (own : Bytes × Option Bytes) (path : Bytes) (h : LoggerServer)
      (t : Trace)
      → Kept k path old old t
      → Ends
          (IfMade (IsLogging k path old))
          AnyFault
          (loggerserver_look_up lib input_ed own path k h t)
  unfolding loggerserver_look_up
  look_up-IfMade lib input_ed (name, port) path h t i =
      >>=-Ends (λ _ _. Kept k path old old) (IfMade (IsLogging k path old)) AnyFault
        (find_addr lib name) (loggerserver_found lib input_ed port path) k h t
        (find_addr-Early k (Kept k path old old) (Kept-early k path old old) lib name h t i)
        (found-IfMade lib input_ed port path)

  open-IfMade :
      (lib : Strings) (own path : Bytes) (h : LoggerServer) (t : Trace)
      → Kept k path old old t
      → Ends (IfMade (IsLogging k path old)) AnyFault (loggerserver_open lib own path k h t)
  unfolding loggerserver_open loggerserver_give_up contents arrived
  open-IfMade lib own path h t i =
      elim (Bool-cases (k.returns t (Call.epoll_create 1) == minus_one)) [
        | inl failed ↦ simp (failed, ◌>>=◌) tt
        | inr fine ↦
            simp (fine, ◌>>=◌)
              (look_up-IfMade lib _ (lib.strsep_colon own) path h (Call.epoll_create 1 ∷ t) i)
      ]

  new-IfMade :
      (lib : Strings) (argv : List Bytes) (h : LoggerServer) (t : Trace)
      → Kept k (log_argument argv) old old t
      → Ends
          (IfMade (IsLogging k (log_argument argv) old))
          AnyFault
          (loggerserver_new lib argv k h t)
  unfolding loggerserver_new
  new-IfMade lib [] h t i = tt
  new-IfMade lib (a ∷ []) h t i = tt
  new-IfMade lib (a ∷ b ∷ []) h t i = tt
  new-IfMade lib (a ∷ own ∷ path ∷ []) h t i = open-IfMade lib own path h t i
  new-IfMade lib (a ∷ b ∷ c ∷ d ∷ rest) h t i = tt

-- From its first call on, whatever the kernel answers and whatever the arguments, as long as the
-- `main` of the logger has not returned, the file at the path in its arguments holds what it held
-- at first and then what arrived: of each message that came by `recv`, in order, as much as the
-- `open` of that file and the `write` after it let through. `isDone` is 0, and the path is that of
-- the arguments.
pub loggerserver_main-IfRunning :
    (lib : Strings) (k : Kernel) (old : Bytes) (n : ℕ) (argv : List Bytes) (h : LoggerServer)
    → Ends
        (IfRunning (IsLogging k (log_argument argv) old))
        AnyFault
        (loggerserver_main lib n argv k h [])
unfolding loggerserver_main contents arrived
loggerserver_main-IfRunning lib k old n argv h =
    main-IfRunning k (loggerserver_node lib) epollin (loggerserver_check lib)
      (IsLogging k (log_argument argv) old) AnyFault
      (loggerserver-Keeps k (log_argument argv) old lib) n argv h []
      (new-IfMade k old lib argv h [] (ap some (sym (append-nil old))))
