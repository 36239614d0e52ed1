-- ===== src/AutoSys.antt =====
-- autosys/autosys.c: a TCP proxy for the border of an autonomous system, from the same text as
-- tropeaproxy/tproxy.c.
pub mod State
pub mod Package
pub mod Handlers
pub mod Startup
pub mod Plugin
pub mod Same
pub mod SameStart
pub mod Hosted
mod Examples
