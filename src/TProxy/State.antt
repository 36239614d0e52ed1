-- ===== src/TProxy/State.antt =====
-- The state of tropeaproxy/tproxy.c: `struct _TProxy`, `struct partner_s` and the memory in which
-- the partners live.
use shadow_tor_eavesdropping.Base.{ℕ, if◌then◌else◌, ◌==◌, ℤ, pos, ◌≡◌, ◌≢◌, arith}
use mathlib.Core.Path.{fun_ext}
use shadow_tor_eavesdropping.Glib.{HashTable}
use shadow_tor_eavesdropping.TProxy.Buffers.{Buffer, null}

pub record Partner : Type 0 where
  pub sd : ℕ
  pub bufsize : ℤ
  pub buf : Buffer

-- A write through a pointer: the partners are numbered by address.
unfoldable pub update : (ℕ → Partner) → ℕ → Partner → ℕ → Partner
update f p v q = if p == q then v else f q

-- `g_new0(struct partner_s, 1)`
abbrev pub blank : Partner
blank = record { sd = 0; bufsize = pos 0; buf = null }

-- `hashmap` takes a descriptor to the address of its partner. `partners` is what stands at each
-- address, and `next` the first address that was not handed out.
pub record TProxy (g : HashTable ℕ) : Type 0 where
  pub ined : ℕ
  pub is_done : ℕ
  pub asockin : ℕ
  pub outport : ℕ
  pub inport : ℕ
  pub traceport : ℕ
  pub host_ip : ℕ
  pub remote_ip : ℕ
  pub trace_ip : ℕ
  pub server_mode : ℕ
  pub tracer_socket : ℕ
  pub tracer_port : ℕ
  pub tracer_addr : ℕ
  pub hashmap : g.Table
  pub partners : ℕ → Partner
  pub next : ℕ

-- Two writes to one address leave the second.
pub update-update :
    (f : ℕ → Partner) (p : ℕ) (v w : Partner) → update (update f p v) p w ≡ update f p w
unfolding update
update-update f p v w = fun_ext λ q. ground arith

pub update_same : (f : ℕ → Partner) (p : ℕ) (v : Partner) → update f p v p ≡ v
unfolding update
update_same f p v = ground arith

pub update_other : (f : ℕ → Partner) (p q : ℕ) (v : Partner) → p ≢ q → update f p v q ≡ f q
unfolding update
update_other f p q v h = ground arith
