-- ===== src/Logger/AnalyzerStart.antt =====
-- How analyzer/analyzer.c starts (`analyzer_new`), and its `main`.
use shadow_tor_eavesdropping.Base.{
  ℕ, ◌==◌, ◌/=◌, if◌then◌else◌, Bool, true, false, Option, none, some, List, [], ◌∷◌, pos, Bytes,
}
use shadow_tor_eavesdropping.Sys.{
  M, Call, FileMode, Fault, minus_one, epollin, ◌>>=◌, ◌>>◌, pure, put, get, fault, call, perform,
}
use shadow_tor_eavesdropping.Resolve.{Strings, find_addr, port_of}
use shadow_tor_eavesdropping.Host.{Node}
use shadow_tor_eavesdropping.Host.Main.{main}
use shadow_tor_eavesdropping.Logger.LoggerStart.{copy_path}
use shadow_tor_eavesdropping.Logger.Analyzer.{
  Analyzer, analyzer_start_reader, analyzer_free, analyzer_ready, analyzer_get_epoll_descriptor,
  analyzer_is_done, analyzer_reset_accept,
}

-- The state, from `calloc` to the copy of the path.
unfoldable pub analyzer_fill : ℕ → ℕ → ℕ → Bytes → M Analyzer (Unit {0})
analyzer_fill input_ed inaddr inport path = put (record {
  ined = input_ed;
  is_done = 0;
  ain = 0;
  asockin = 0;
  inport = inport;
  good_data = pos 0;
  endread = 0;
  log_path = path;
  host_ip = inaddr;
})

-- `fopen(h->log_path, "w+")` and `fclose`, without a test for the null pointer of a failure.
unfoldable pub analyzer_clean : Bytes → M Analyzer (Unit {0})
analyzer_clean path = do
  file ← call (Call.open_file FileMode.truncating path)
  if file == minus_one then fault Fault.null_pointer else perform (Call.close file)

-- `false` stands for a null pointer.
unfoldable pub analyzer_finish : ℕ → M Analyzer Bool
analyzer_finish is_fail = if is_fail /= 0 then (do analyzer_free; pure false) else pure true

unfoldable pub analyzer_give_up : ℕ → M Analyzer Bool
analyzer_give_up input_ed = do perform (Call.close input_ed); pure false

module _ (lib : Strings) where
  -- `analyzer_new` once the address is known.
  unfoldable pub analyzer_set_up : ℕ → Option Bytes → Bytes → ℕ → M Analyzer Bool
  analyzer_set_up input_ed port path inaddr = do
    inport ← port_of lib port
    copy_path path
    analyzer_fill input_ed inaddr inport path
    analyzer_clean path
    is_fail ← analyzer_start_reader
    analyzer_finish is_fail

  -- The end of the look-up of the host: a failure closes the epoll descriptor.
  unfoldable pub analyzer_found : ℕ → Option Bytes → Bytes → Option ℕ → M Analyzer Bool
  analyzer_found input_ed port path none = analyzer_give_up input_ed
  analyzer_found input_ed port path (some inaddr) = analyzer_set_up input_ed port path inaddr

  unfoldable pub analyzer_look_up : ℕ → Bytes × Option Bytes → Bytes → M Analyzer Bool
  analyzer_look_up input_ed (hostname_bind, port) path = do
    addr ← find_addr lib hostname_bind
    analyzer_found input_ed port path addr

  -- `analyzer_new` after the test of `argc`.
  unfoldable pub analyzer_open : Bytes → Bytes → M Analyzer Bool
  analyzer_open own path = do
    input_ed ← call (Call.epoll_create 1)
    if input_ed == minus_one
        then analyzer_give_up input_ed
        else analyzer_look_up input_ed (lib.strsep_colon own) path

  unfoldable pub analyzer_new : List Bytes → M Analyzer Bool
  analyzer_new (name ∷ own ∷ path ∷ []) = analyzer_open own path
  analyzer_new argv = pure false

  -- The functions that `main` or the plug-in uses.
  abbrev pub analyzer_node : Node Analyzer
  analyzer_node = record {
    create = analyzer_new;
    release = analyzer_free;
    ready = analyzer_ready;
    descriptor = analyzer_get_epoll_descriptor;
  }

  -- What follows a turn of the loop; the loop is never left.
  unfoldable pub analyzer_check : M Analyzer Bool
  analyzer_check = do
    h ← get
    if analyzer_is_done h /= 0 then (do _ ← analyzer_reset_accept; pure false) else pure false

  unfoldable pub analyzer_main : ℕ → List Bytes → M Analyzer (Option ℕ)
  analyzer_main = main analyzer_node epollin analyzer_check
