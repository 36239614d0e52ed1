-- ===== src/SimpleTcp/New.antt =====
-- How simpletcp/simpletcp.c starts (`simpletcp_new`). The texts that `asprintf` copies are the
-- arguments themselves.
use shadow_tor_eavesdropping.Base.{
  ℕ, ◌-◌, ◌==◌, ◌/=◌, ◌||◌, if◌then◌else◌, Bool, true, false, Option, none, some, List, [], ◌∷◌,
  ◌++◌, take, ℤ, pos, negsuc, Bytes, codes,
}
use shadow_tor_eavesdropping.Sys.{
  M, Call, FileMode, Fault, Timeval, minus_one, ◌>>=◌, ◌>>◌, pure, put, call, perform, allocation,
  or_fault, host_name_result, last_error,
}
use shadow_tor_eavesdropping.Glib.{HashTable}
use shadow_tor_eavesdropping.Resolve.{Strings, dns_query, port_of}
use shadow_tor_eavesdropping.Host.{Node}
use shadow_tor_eavesdropping.TProxy.Buffers.{write_at, strlen}
use shadow_tor_eavesdropping.SimpleTcp.State.{SimpleTcp, socks5_done, socks5_init}
use shadow_tor_eavesdropping.SimpleTcp.Arguments.{Numbers, Checked, passed, check_client_args}
use shadow_tor_eavesdropping.SimpleTcp.Starting.{Later, start_client, start_server}
use shadow_tor_eavesdropping.SimpleTcp.Loop.{
  simpletcp_free, simpletcp_ready, simpletcp_get_epoll_descriptor,
}

abbrev pub hostname_max_len : ℕ
hostname_max_len = 256

abbrev pub enametoolong : ℕ
enametoolong = 36

-- What the arguments ask for: a client, with the proxy, the server, the number of connections and
-- the bounds on the sleep, or a server, with its address and the directory of its log.
pub data Mode : Type 0 where
  client_mode : Bytes → Bytes → ℤ → ℤ → ℤ → Mode
  server_mode : Bytes → Bytes → Mode

-- A bound on the sleep, as it is stored. `checkClientArgs` passes none below 0.
abbrev pub bound : ℤ → ℕ
bound (pos n) = n
bound (negsuc n) = 0

-- The arguments that follow from the mode `client`, once they are checked.
unfoldable pub client_asked : List Bytes → Checked → Option Mode
client_asked (name ∷ mode ∷ proxy ∷ server ∷ rest) (passed nconn smin smax) =
    some (client_mode proxy server nconn smin smax)
client_asked argv checked = none

-- `argc < 4` in the mode `server`.
unfoldable pub server_asked : List Bytes → Option Mode
server_asked (name ∷ mode ∷ own ∷ folder ∷ rest) = some (server_mode own folder)
server_asked argv = none

-- The tests on the arguments; `none` is `_simpletcp_exitUsage`.
unfoldable pub asked_mode : Strings → Numbers → List Bytes → Option Mode
asked_mode lib numbers (name ∷ mode ∷ first ∷ rest) =
    let argv = name ∷ mode ∷ first ∷ rest in
    if lib.strncmp_equal mode (codes "client") 6
    then client_asked argv (check_client_args numbers argv)
    else if lib.strncmp_equal mode (codes "server") 6
    then server_asked argv
    else none
asked_mode lib numbers argv = none

module _ (g : HashTable Timeval) where
  -- `gethostname` failed: a name that is too long is cut, any other failure ends the start.
  unfoldable pub cut_hostname : Bytes → ℕ → M (SimpleTcp g) (Option Bytes)
  cut_hostname block errno =
      if errno == enametoolong
      then (do
        cut ← or_fault Fault.bad_write (write_at (hostname_max_len - 1) (0 ∷ []) block)
        pure (some cut))
      else pure none

  -- The block with the name of the host. `gethostname` must not get a null pointer.
  unfoldable pub own_hostname : M (SimpleTcp g) (Option Bytes)
  own_hostname = do
    block ← allocation hostname_max_len
    _ ← or_fault Fault.null_pointer block
    (res, name) ← host_name_result hostname_max_len
    errno ← last_error
    if res == minus_one then cut_hostname name errno else pure (some name)

  -- The end of `simpletcp_new`; `false` stands for a null pointer.
  unfoldable pub finish_start : ℕ → M (SimpleTcp g) Bool
  finish_start is_fail = if is_fail /= 0 then (do simpletcp_free g; pure false) else pure true

  -- The state after `calloc`, with the fields that both modes set. The table that a client does
  -- not have is empty here.
  unfoldable pub fresh_state : ℕ → Bytes → SimpleTcp g
  fresh_state main_epoll_descriptor myhostname = record {
    ed = main_epoll_descriptor;
    is_done = 0;
    hostname = myhostname;
    client_sd = 0;
    client_nconn = pos 0;
    client_sleep_min = 0;
    client_sleep_max = 0;
    client_server_port = 0;
    client_proxy_port = 0;
    client_socks5_status = socks5_done;
    client_server_ip = 0;
    client_proxy_ip = 0;
    server_sd = 0;
    server_bind_port = 0;
    server_hashtab = g.new;
    server_log_path = [];
  }

  -- What the mode `client` makes of it.
  unfoldable pub client_state : ℕ → Bytes → ℤ → ℤ → ℤ → ℕ → ℕ → ℕ → ℕ → SimpleTcp g
  client_state ed myhostname nconn smin smax server_ip server_port proxy_ip proxy_port =
      record (fresh_state ed myhostname) {
        client_server_ip = server_ip;
        client_server_port = server_port;
        client_proxy_ip = proxy_ip;
        client_proxy_port = proxy_port;
        client_nconn = nconn;
        client_sleep_min = bound smin;
        client_sleep_max = bound smax;
        client_socks5_status = socks5_init;
      }

  -- `asprintf(&(h->server.log_path), "%s/%s", ...)`
  unfoldable pub server_path : Bytes → Bytes → M (SimpleTcp g) Bytes
  server_path folder myhostname = do
    len ← or_fault Fault.unterminated (strlen myhostname)
    pure (folder ++ codes "/" ++ take len myhostname)

  module _ (lib : Strings) where
    unfoldable pub bring_up_client : M (SimpleTcp g) Bool
    bring_up_client = do is_fail ← start_client g; finish_start is_fail

    -- The branch for the mode `client`: it is left without a `free` if a name is not found.
    unfoldable pub new_client : ℕ → Bytes → Bytes → Bytes → ℤ → ℤ → ℤ → M (SimpleTcp g) Bool
    new_client ed myhostname proxy server nconn smin smax = do
      server_ip ← dns_query lib (lib.strsep_colon server).0
      server_port ← port_of lib (lib.strsep_colon server).1
      proxy_ip ← dns_query lib (lib.strsep_colon proxy).0
      proxy_port ← port_of lib (lib.strsep_colon proxy).1
      put (client_state ed myhostname nconn smin smax server_ip server_port proxy_ip proxy_port)
      if server_ip == minus_one || proxy_ip == minus_one then pure false else bring_up_client

    -- The branch for the mode `server`, behind `fopen`.
    unfoldable pub bring_up_server : ℕ → Bytes → Bytes → Bytes → M (SimpleTcp g) Bool
    bring_up_server ed myhostname path own = do
      port ← port_of lib (lib.strsep_colon own).1
      put (record (fresh_state ed myhostname) {
        server_log_path = path;
        server_hashtab = g.new;
        server_bind_port = port;
      })
      is_fail ← start_server g
      finish_start is_fail

    unfoldable pub close_log : ℕ → ℕ → Bytes → Bytes → Bytes → M (SimpleTcp g) Bool
    close_log file ed myhostname path own = do
      perform (Call.close file)
      bring_up_server ed myhostname path own

    -- The branch for the mode `server`: the file is emptied.
    unfoldable pub new_server : ℕ → Bytes → Bytes → Bytes → M (SimpleTcp g) Bool
    new_server ed myhostname own folder = do
      path ← server_path folder myhostname
      file ← call (Call.open_file FileMode.truncating path)
      if file == minus_one then pure false else close_log file ed myhostname path own

    unfoldable pub new_mode : ℕ → Bytes → Mode → M (SimpleTcp g) Bool
    new_mode ed myhostname (client_mode proxy server nconn smin smax) =
        new_client ed myhostname proxy server nconn smin smax
    new_mode ed myhostname (server_mode own folder) = new_server ed myhostname own folder

    unfoldable pub close_epoll : ℕ → M (SimpleTcp g) Bool
    close_epoll main_epoll_descriptor = do perform (Call.close main_epoll_descriptor); pure false

    -- `simpletcp_new` once it has the name of the host.
    unfoldable pub open_epoll : Mode → Option Bytes → M (SimpleTcp g) Bool
    open_epoll mode none = pure false
    open_epoll mode (some myhostname) = do
      main_epoll_descriptor ← call (Call.epoll_create 1)
      if main_epoll_descriptor == minus_one
          then close_epoll main_epoll_descriptor
          else new_mode main_epoll_descriptor myhostname mode

    -- `simpletcp_new` behind the tests on the arguments.
    unfoldable pub with_mode : Option Mode → M (SimpleTcp g) Bool
    with_mode none = pure false
    with_mode (some mode) = do myhostname ← own_hostname; open_epoll mode myhostname

    module _ (numbers : Numbers) where
      unfoldable pub simpletcp_new : List Bytes → M (SimpleTcp g) Bool
      simpletcp_new argv = with_mode (asked_mode lib numbers argv)

      -- The functions that a host uses, which has passed its table to `simpletcp_new`.
      abbrev pub simpletcp_node : Later g → Node (SimpleTcp g)
      simpletcp_node later = record {
        create = simpletcp_new;
        release = simpletcp_free g;
        ready = simpletcp_ready g later;
        descriptor = simpletcp_get_epoll_descriptor;
      }
