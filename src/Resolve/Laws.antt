-- ===== src/Resolve/Laws.antt =====
-- How name resolution ends, on any type of states.
use shadow_tor_eavesdropping.Base.{Option, none, some, Bytes, refl, arith}
use shadow_tor_eavesdropping.Sys.{Kernel, Trace, Fault, null_pointer, Post}
use shadow_tor_eavesdropping.Sys.Simulation.{Simulates}
use shadow_tor_eavesdropping.Resolve.{Strings, last_found, look_up, find_addr, dns_query, port_of}

module _ {S T : Type 0} (φ : S → T) (lib : Strings) where
  pub dns_query-Simulates : (name : Bytes) → Simulates φ (dns_query lib name) (dns_query lib name)
  unfolding dns_query find_addr look_up last_found
  dns_query-Simulates name k h t = ground arith

  pub port_of-Simulates : (text : Option Bytes) → Simulates φ (port_of lib text) (port_of lib text)
  unfolding port_of
  port_of-Simulates none k h t = refl
  port_of-Simulates (some text) k h t = refl

module _ {S : Type 0} (E : Fault → Type 0) (null : E null_pointer) (lib : Strings) where
  -- The only fault is a null pointer.
  pub dns_query-Post :
      (name : Bytes) (k : Kernel) (s : S) (t : Trace)
      → Post (λ _ s'. Unit {0}) E (dns_query lib name k s t)
  unfolding dns_query find_addr look_up last_found
  dns_query-Post name k s t = ground (arith, null)

  pub port_of-Post :
      (text : Option Bytes) (k : Kernel) (s : S) (t : Trace)
      → Post (λ _ s'. Unit {0}) E (port_of lib text k s t)
  unfolding port_of
  port_of-Post none k s t = null
  port_of-Post (some text) k s t = tt
