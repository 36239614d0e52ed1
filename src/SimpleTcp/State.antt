-- ===== src/SimpleTcp/State.antt =====
-- The state of simpletcp/simpletcp.c: `struct _SimpleTCP` and the status of the handshake.
use shadow_tor_eavesdropping.Base.{ℕ, ℤ, Bytes}
use shadow_tor_eavesdropping.Sys.{Timeval}
use shadow_tor_eavesdropping.Glib.{HashTable}

-- The `enum` of SOCKS5 states.
pub data Status : Type 0 where
  socks5_done : Status
  socks5_connection_ok : Status
  socks5_connection_fail : Status
  socks5_connection_req : Status
  socks5_method_negotation_fail : Status
  socks5_method_negotation_ok : Status
  socks5_method_negotation_req : Status
  socks5_init : Status

-- `hostname` is the block that `gethostname` filled. The fields of the two inner structs carry
-- their names in front; `hashtab` holds the time at which each descriptor was accepted. The two
-- bounds on the sleep are not negative once `checkClientArgs` has passed them.
pub record SimpleTcp (g : HashTable Timeval) : Type 0 where
  pub ed : ℕ
  pub is_done : ℕ
  pub hostname : Bytes
  pub client_sd : ℕ
  pub client_nconn : ℤ
  pub client_sleep_min : ℕ
  pub client_sleep_max : ℕ
  pub client_server_port : ℕ
  pub client_proxy_port : ℕ
  pub client_socks5_status : Status
  pub client_server_ip : ℕ
  pub client_proxy_ip : ℕ
  pub server_sd : ℕ
  pub server_bind_port : ℕ
  pub server_hashtab : g.Table
  pub server_log_path : Bytes
