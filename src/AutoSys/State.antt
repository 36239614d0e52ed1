-- ===== src/AutoSys/State.antt =====
-- The state of autosys/autosys.c: `struct _AS`. `struct partner_s` is that of tropeaproxy/tproxy.c.
use shadow_tor_eavesdropping.Base.{ℕ}
use shadow_tor_eavesdropping.Glib.{HashTable}
use shadow_tor_eavesdropping.TProxy.State.{Partner}

-- `hashmap` takes a descriptor to the address of its partner. `partners` is what stands at each
-- address, and `next` the first address that was not handed out.
pub record As (g : HashTable ℕ) : Type 0 where
  pub ined : ℕ
  pub is_done : ℕ
  pub asockin : ℕ
  pub outport : ℕ
  pub inport : ℕ
  pub traceport : ℕ
  pub host_ip : ℕ
  pub remote_ip : ℕ
  pub trace_ip : ℕ
  pub server_mode : ℕ
  pub tracer_socket : ℕ
  pub tracer_port : ℕ
  pub tracer_addr : ℕ
  pub hashmap : g.Table
  pub partners : ℕ → Partner
  pub next : ℕ
