-- ===== src/TProxy.antt =====
-- tropeaproxy/tproxy.c: a TCP proxy that reports each connection to a logger over UDP.
pub mod Buffers
pub mod State
pub mod Package
pub mod Tracing
pub mod Epoll
pub mod Handlers
pub mod Relay
pub mod Touches
pub mod Watching
pub mod Flow
pub mod Exchange
pub mod Conversation
pub mod Peers
pub mod Refinement
pub mod Invariant
pub mod Safety
pub mod Closing
pub mod Orphans
pub mod Duplex
pub mod Startup
pub mod Lifetime
mod Scenarios
mod Runs
