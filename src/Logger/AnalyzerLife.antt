-- ===== src/Logger/AnalyzerLife.antt =====
-- What the log file of analyzer/analyzer.c holds, from the start of the program on.
use shadow_tor_eavesdropping.Base.{
  ℕ, ◌==◌, Option, none, some, List, [], ◌∷◌, Bytes, ◌≡◌, refl, ◌∙◌, arith, inl, inr, Bool-cases,
}
use mathlib.Core.Path.{subst}
use shadow_tor_eavesdropping.Sys.{Kernel, M, FileMode, Trace, Call, minus_one, ◌>>=◌, ◌>>◌, epollin}
use shadow_tor_eavesdropping.Sys.Ends.{AnyFault, Ends, >>=-Ends}
use shadow_tor_eavesdropping.Logger.Analyzer.{
  Analyzer, analyzer_ready, analyzer_start_reader, analyzer_bind, analyzer_watch, analyzer_free,
  analyzer_is_done,
}
use shadow_tor_eavesdropping.Logger.AnalyzerStart.{
  analyzer_fill, analyzer_clean, analyzer_finish, analyzer_give_up, analyzer_set_up, analyzer_found,
  analyzer_look_up, analyzer_open, analyzer_new, analyzer_node, analyzer_check, analyzer_main,
}
use shadow_tor_eavesdropping.Logger.AnalyzerPlugin.{
  analyzerplugin_new, analyzerplugin_free, analyzerplugin_ready, analyzerplugin_init,
}
use shadow_tor_eavesdropping.Logger.LoggerStart.{copy_path}
use shadow_tor_eavesdropping.Logger.Same.{as_logger, analyzer_ready-Same}
use shadow_tor_eavesdropping.Sys.Simulation.{Ends-along}
use shadow_tor_eavesdropping.Logger.File.{contents, same_path_refl}
use shadow_tor_eavesdropping.Logger.Journal.{arrived, Kept, loggerserver_ready-IsFaithful}
use shadow_tor_eavesdropping.Resolve.{Strings, find_addr, port_of}
use shadow_tor_eavesdropping.Host.Plugin.{Plugin, plugin_init}
use shadow_tor_eavesdropping.Host.Notices.{IfPresent, OrAssertion, noticed, noticed-IfPresent}
use shadow_tor_eavesdropping.Host.Turns.{Keeps, IfMade, IfRunning, main-IfRunning}
use shadow_tor_eavesdropping.Logger.Kept.{
  log_argument, own-Kept, IsFresh, IsFresh-early, find_addr-Early, port_of-Early, copy_path-Early,
}

-- The file at `path` holds what arrived, nobody has asked for the listening socket to be
-- watched again, and messages go to `path`.
abbrev pub IsAnalyzing : Kernel → Bytes → Bytes → Analyzer → Trace → Type 0
IsAnalyzing k path old h t = Kept k path old [] t × (h.is_done ≡ 0) × (h.log_path ≡ path)

served-IsAnalyzing :
    (k : Kernel) (path old : Bytes) (h : Analyzer) (t : Trace)
    → IsAnalyzing k path old h t
    → Ends (λ _. IsAnalyzing k path old) AnyFault (analyzer_ready k h t)
served-IsAnalyzing k path old h t (i, d, f) =
    let (h', t', ran, kept, same, stays) =
      loggerserver_ready-IsFaithful k old [] (as_logger h) t (rw f i) in
    Ends-along as_logger (λ _ a t₁. Kept k path old [] t₁ × (a.is_done ≡ 0) × (a.log_path ≡ path))
      AnyFault (analyzer_ready k h t)
      (rw (analyzer_ready-Same k h t, ran)
        (subst (λ p. Kept k p old [] t') f kept, same ∙ d, stays ∙ f))

checked-IsAnalyzing :
    (lib : Strings) (k : Kernel) (path old : Bytes) (h : Analyzer) (t : Trace)
    → IsAnalyzing k path old h t
    → Ends (λ _. IsAnalyzing k path old) AnyFault (analyzer_check lib k h t)
unfolding analyzer_check analyzer_is_done
checked-IsAnalyzing lib k path old h t (i, d, f) = simp (d, ◌>>=◌) (i, refl, f)

analyzer-Keeps :
    (k : Kernel) (path old : Bytes) (lib : Strings)
    → Keeps k (analyzer_node lib) (analyzer_check lib) (IsAnalyzing k path old) AnyFault
unfolding analyzer_free
analyzer-Keeps k path old lib = record {
  own = λ h t c o (i, d, f). (own-Kept k path old [] t c o i, d, f);
  served = served-IsAnalyzing k path old;
  checked = checked-IsAnalyzing lib k path old;
  ended = λ h t i. ground arith;
}

module _ (k : Kernel) (old : Bytes) where
  -- A part of the start with a state.
  abbrev KeepsUp : {A : Type 0} → Bytes → M Analyzer A → Type 0
  KeepsUp path m =
      (h : Analyzer) (t : Trace)
      → IsAnalyzing k path old h t
      → Ends (λ _. IsAnalyzing k path old) AnyFault (m k h t)

  start_reader-KeepsUp : (path : Bytes) → KeepsUp path analyzer_start_reader
  unfolding analyzer_start_reader analyzer_bind analyzer_watch contents arrived
  start_reader-KeepsUp path h t i = ground arith

  finish-IfMade :
      (path : Bytes) (r : ℕ) (h : Analyzer) (t : Trace)
      → IsAnalyzing k path old h t
      → Ends (IfMade (IsAnalyzing k path old)) AnyFault (analyzer_finish r k h t)
  unfolding analyzer_finish analyzer_free
  finish-IfMade path r h t i = ground arith

  clean-Empties :
      (path : Bytes) (h : Analyzer) (t : Trace)
      → IsFresh k path t
      → (h.is_done ≡ 0) × (h.log_path ≡ path)
      → Ends (λ _. IsAnalyzing k path old) AnyFault (analyzer_clean path k h t)
  unfolding analyzer_clean contents arrived
  clean-Empties path h t fresh (d, f) =
      elim (Bool-cases (k.returns t (Call.open_file FileMode.truncating path) == minus_one)) [
        | inl failed ↦ simp (failed, ◌>>=◌) tt
        | inr fine ↦ simp (fine, ◌>>=◌) (simp (same_path_refl, fresh), d, f)
      ]

  cleaned-IfMade :
      (path : Bytes) (h : Analyzer) (t : Trace)
      → IsFresh k path t
      → (h.is_done ≡ 0) × (h.log_path ≡ path)
      → Ends
          (IfMade (IsAnalyzing k path old))
          AnyFault
          ((analyzer_clean path >> (analyzer_start_reader >>= analyzer_finish)) k h t)
  cleaned-IfMade path h t i stands =
      >>=-Ends (λ _. IsAnalyzing k path old) (IfMade (IsAnalyzing k path old)) AnyFault
        (analyzer_clean path) (λ _. analyzer_start_reader >>= analyzer_finish) k h t
        (clean-Empties path h t i stands)
        λ u h₁ t₁ i₁.
          >>=-Ends (λ _. IsAnalyzing k path old) (IfMade (IsAnalyzing k path old)) AnyFault
            analyzer_start_reader analyzer_finish k h₁ t₁ (start_reader-KeepsUp path h₁ t₁ i₁)
            (finish-IfMade path)

  set_up-IfMade :
      (lib : Strings) (input_ed : ℕ) (port : Option Bytes) (path : Bytes) (inaddr : ℕ)
      (h : Analyzer) (t : Trace)
      → IsFresh k path t
      → Ends
          (IfMade (IsAnalyzing k path old))
          AnyFault
          (analyzer_set_up lib input_ed port path inaddr k h t)
  unfolding analyzer_set_up analyzer_fill analyzer_clean contents arrived
  set_up-IfMade lib input_ed port path inaddr h t i =
      >>=-Ends (λ _ _. IsFresh k path) (IfMade (IsAnalyzing k path old)) AnyFault (port_of lib port)
        (λ inport.
          copy_path path
          >> (analyzer_fill input_ed inaddr inport path
              >> (analyzer_clean path >> (analyzer_start_reader >>= analyzer_finish))))
        k h t (port_of-Early k (IsFresh k path) (IsFresh-early k path) lib port h t i)
        λ inport h₁ t₁ i₁.
          >>=-Ends (λ _ _. IsFresh k path) (IfMade (IsAnalyzing k path old)) AnyFault
            (copy_path path)
            (λ _.
              analyzer_fill input_ed inaddr inport path
              >> (analyzer_clean path >> (analyzer_start_reader >>= analyzer_finish)))
            k h₁ t₁ (copy_path-Early k (IsFresh k path) (IsFresh-early k path) path h₁ t₁ i₁)
            λ u h₂ t₂ i₂. cleaned-IfMade path _ t₂ i₂ (refl, refl)

  found-IfMade :
      (lib : Strings) (input_ed : ℕ) (port : Option Bytes) (path : Bytes) (addr : Option ℕ)
      (h : Analyzer) (t : Trace)
      → IsFresh k path t
      → Ends
          (IfMade (IsAnalyzing k path old))
          AnyFault
          (analyzer_found lib input_ed port path addr k h t)
  unfolding analyzer_found analyzer_give_up
  found-IfMade lib input_ed port path none h t i = tt
  found-IfMade lib input_ed port path (some inaddr) h t i =
      set_up-IfMade lib input_ed port path inaddr h t i

  look_up-IfMade :
      (lib : Strings) (input_ed : ℕ) (own : Bytes × Option Bytes) (path : Bytes) (h : Analyzer)
      (t : Trace)
      → IsFresh k path t
      → Ends
          (IfMade (IsAnalyzing k path old))
          AnyFault
          (analyzer_look_up lib input_ed own path k h t)
  unfolding analyzer_look_up
  look_up-IfMade lib input_ed (name, port) path h t i =
      >>=-Ends (λ _ _. IsFresh k path) (IfMade (IsAnalyzing k path old)) AnyFault
        (find_addr lib name) (analyzer_found lib input_ed port path) k h t
        (find_addr-Early k (IsFresh k path) (IsFresh-early k path) lib name h t i)
        (found-IfMade lib input_ed port path)

  open-IfMade :
      (lib : Strings) (own path : Bytes) (h : Analyzer) (t : Trace)
      → IsFresh k path t
      → Ends (IfMade (IsAnalyzing k path old)) AnyFault (analyzer_open lib own path k h t)
  unfolding analyzer_open analyzer_give_up contents arrived
  open-IfMade lib own path h t i =
      elim (Bool-cases (k.returns t (Call.epoll_create 1) == minus_one)) [
        | inl failed ↦ simp (failed, ◌>>=◌) tt
        | inr fine ↦
            simp (fine, ◌>>=◌)
              (look_up-IfMade lib _ (lib.strsep_colon own) path h (Call.epoll_create 1 ∷ t) i)
      ]

  new-IfMade :
      (lib : Strings) (argv : List Bytes) (h : Analyzer) (t : Trace)
      → IsFresh k (log_argument argv) t
      → Ends (IfMade (IsAnalyzing k (log_argument argv) old)) AnyFault (analyzer_new lib argv k h t)
  unfolding analyzer_new
  new-IfMade lib [] h t i = tt
  new-IfMade lib (a ∷ []) h t i = tt
  new-IfMade lib (a ∷ b ∷ []) h t i = tt
  new-IfMade lib (a ∷ own ∷ path ∷ []) h t i = open-IfMade lib own path h t i
  new-IfMade lib (a ∷ b ∷ c ∷ d ∷ rest) h t i = tt

-- From its first call on, whatever the kernel answers and whatever the arguments, as long as the
-- `main` of the analyzer has not returned, the file at the path in its arguments, whatever it held
-- before, holds what arrived: of each message that came by `recv`, in order, as much as the `open`
-- of that file and the `write` after it let through. `isDone` is 0, and the path is that of the
-- arguments.
pub analyzer_main-IfRunning :
    (lib : Strings) (k : Kernel) (old : Bytes) (n : ℕ) (argv : List Bytes) (h : Analyzer)
    → Ends
        (IfRunning (IsAnalyzing k (log_argument argv) old))
        AnyFault
        (analyzer_main lib n argv k h [])
unfolding analyzer_main contents arrived
analyzer_main-IfRunning lib k old n argv h =
    main-IfRunning k (analyzer_node lib) epollin (analyzer_check lib)
      (IsAnalyzing k (log_argument argv) old) AnyFault
      (analyzer-Keeps k (log_argument argv) old lib) n argv h []
      (new-IfMade k old lib argv h [] refl)

-- If nothing has arrived yet, and the simulator starts an analyzer and notifies it any number of
-- times, then, if the node was made and the notices have returned, the file at the path in the
-- arguments, whatever it held before, holds what arrived: of each message that came by `recv`, in
-- order, as much as the `open` of that file and the `write` after it let through. `isDone` is 0, and
-- the path of the node is that of the arguments.
pub analyzer_noticed-IfPresent :
    (lib : Strings) (k : Kernel) (old : Bytes) (n : ℕ) (argv : List Bytes) (p : Plugin Analyzer)
    (t : Trace)
    → IsFresh k (log_argument argv) t
    → Ends
        (λ _ q. IfPresent (IsAnalyzing k (log_argument argv) old) q.instance_of q.memory)
        (OrAssertion AnyFault)
        (noticed (analyzerplugin_init lib) argv n k p t)
unfolding analyzerplugin_init analyzerplugin_new analyzerplugin_free analyzerplugin_ready
    plugin_init
analyzer_noticed-IfPresent lib k old n argv p t kept =
    noticed-IfPresent (analyzer_node lib) (analyzer_check lib)
      (IsAnalyzing k (log_argument argv) old) AnyFault k
      (analyzer-Keeps k (log_argument argv) old lib) argv n p t
      (new-IfMade k old lib argv p.memory t kept)
