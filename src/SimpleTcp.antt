-- ===== src/SimpleTcp.antt =====
-- The traffic generator, simpletcp/simpletcp.c: a client that connects to a server through a
-- SOCKS5 proxy, as often as it is told, and a server that logs who connected and when.
pub mod State
pub mod Packets
pub mod Starting
pub mod Client
pub mod Server
pub mod Loop
pub mod New
pub mod Speeches
pub mod Standalone
pub mod Started
pub mod Leak
pub mod Handshake
pub mod Rounds
pub mod Budget
pub mod Arguments
pub mod Status
pub mod Logging
pub mod Visitors
mod Examples
