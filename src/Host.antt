-- ===== src/Host.antt =====
-- What runs a program: its own `main`, or the Shadow simulator through a plug-in. Both use the same
-- few functions of the program.
pub mod Main
pub mod Plugin
pub mod Turns
pub mod Fuel
pub mod Notices
pub mod Simulated
use shadow_tor_eavesdropping.Base.{ℕ, Bool, List, Bytes}
use shadow_tor_eavesdropping.Sys.{M}

-- `..._new`, where `false` stands for a null pointer, `..._free`, `..._ready` and
-- `..._getEpollDescriptor`.
pub record Node (S : Type 0) : Type 0 where
  pub create : List Bytes → M S Bool
  pub release : M S (Unit {0})
  pub ready : M S (Unit {0})
  pub descriptor : S → ℕ
