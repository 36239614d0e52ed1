-- ===== src/Logger/LoggerStart.antt =====
-- How loggerserver/loggerserver.c starts (`loggerserver_new`), and its `main`.
use shadow_tor_eavesdropping.Base.{
  ℕ, ◌==◌, ◌/=◌, if◌then◌else◌, Bool, true, false, Option, none, some, List, [], ◌∷◌, pos, Bytes,
  length, ◌++◌,
}
use shadow_tor_eavesdropping.Sys.{
  M, Call, FileMode, Fault, minus_one, epollin, ◌>>=◌, ◌>>◌, pure, skip, put, get, call, perform,
  allocation, or_fault,
}
use shadow_tor_eavesdropping.Resolve.{Strings, find_addr, port_of}
use shadow_tor_eavesdropping.Host.{Node}
use shadow_tor_eavesdropping.Host.Main.{main}
use shadow_tor_eavesdropping.TProxy.Buffers.{write_at}
use shadow_tor_eavesdropping.Logger.LoggerServer.{
  LoggerServer, loggerserver_start_reader, loggerserver_free, loggerserver_ready,
  loggerserver_get_epoll_descriptor, loggerserver_is_done, loggerserver_reset_accept,
}

-- `malloc(strlen(argv[2]))` and `strcpy`: the path and its end are written to a block that was
-- asked for with the length of the path alone. How long the block is, is the kernel's answer.
unfoldable pub copy_path : {S : Type 0} → Bytes → M S (Unit {0})
copy_path path = do
  block ← allocation (length path)
  fresh ← or_fault Fault.null_pointer block
  _ ← or_fault Fault.bad_write (write_at 0 (path ++ 0 ∷ []) fresh)
  skip

-- The state, from `calloc` to the copy of the path.
unfoldable pub loggerserver_fill : ℕ → ℕ → ℕ → Bytes → M LoggerServer (Unit {0})
loggerserver_fill input_ed inaddr inport path = put (record {
  ined = input_ed;
  is_done = 0;
  ain = 0;
  asockin = 0;
  inport = inport;
  good_data = pos 0;
  endread = 0;
  log_path = path;
  host_ip = inaddr;
})

-- `open(h->log_path, O_RDWR | O_CREAT)` and `close`.
unfoldable pub loggerserver_clean : Bytes → M LoggerServer (Unit {0})
loggerserver_clean path = do
  nfd ← call (Call.open_file FileMode.creating path)
  perform (Call.close nfd)

-- `false` stands for a null pointer.
unfoldable pub loggerserver_finish : ℕ → M LoggerServer Bool
loggerserver_finish is_fail = if is_fail /= 0 then (do loggerserver_free; pure false) else pure true

unfoldable pub loggerserver_give_up : ℕ → M LoggerServer Bool
loggerserver_give_up input_ed = do perform (Call.close input_ed); pure false

module _ (lib : Strings) where
  -- `loggerserver_new` once the address is known.
  unfoldable pub loggerserver_set_up : ℕ → Option Bytes → Bytes → ℕ → M LoggerServer Bool
  loggerserver_set_up input_ed port path inaddr = do
    inport ← port_of lib port
    copy_path path
    loggerserver_fill input_ed inaddr inport path
    loggerserver_clean path
    is_fail ← loggerserver_start_reader
    loggerserver_finish is_fail

  -- The end of the look-up of the host: a failure closes the epoll descriptor.
  unfoldable pub loggerserver_found : ℕ → Option Bytes → Bytes → Option ℕ → M LoggerServer Bool
  loggerserver_found input_ed port path none = loggerserver_give_up input_ed
  loggerserver_found input_ed port path (some inaddr) =
      loggerserver_set_up input_ed port path inaddr

  unfoldable pub loggerserver_look_up : ℕ → Bytes × Option Bytes → Bytes → M LoggerServer Bool
  loggerserver_look_up input_ed (hostname_bind, port) path = do
    addr ← find_addr lib hostname_bind
    loggerserver_found input_ed port path addr

  -- `loggerserver_new` after the test of `argc`.
  unfoldable pub loggerserver_open : Bytes → Bytes → M LoggerServer Bool
  loggerserver_open own path = do
    input_ed ← call (Call.epoll_create 1)
    if input_ed == minus_one
        then loggerserver_give_up input_ed
        else loggerserver_look_up input_ed (lib.strsep_colon own) path

  unfoldable pub loggerserver_new : List Bytes → M LoggerServer Bool
  loggerserver_new (name ∷ own ∷ path ∷ []) = loggerserver_open own path
  loggerserver_new argv = pure false

  -- The functions that `main` uses.
  abbrev pub loggerserver_node : Node LoggerServer
  loggerserver_node = record {
    create = loggerserver_new;
    release = loggerserver_free;
    ready = loggerserver_ready;
    descriptor = loggerserver_get_epoll_descriptor;
  }

  -- What follows a turn of the loop; the loop is never left.
  unfoldable pub loggerserver_check : M LoggerServer Bool
  loggerserver_check = do
    h ← get
    if loggerserver_is_done h /= 0
        then (do _ ← loggerserver_reset_accept; pure false)
        else pure false

  unfoldable pub loggerserver_main : ℕ → List Bytes → M LoggerServer (Option ℕ)
  loggerserver_main = main loggerserver_node epollin loggerserver_check
