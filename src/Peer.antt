-- ===== src/Peer.antt =====
-- packages/transport/src/AbstractPeer.ts: how two peers negotiate, and how a connection is kept.
pub mod State
pub mod Flows
pub mod Events
pub mod Sessions
pub mod Server
pub mod Client
pub mod Providers
pub mod Latency
pub mod Known
pub mod Connection
mod Tests
unfoldable pub use State.*
unfoldable pub use Flows.*
unfoldable pub use Events.*
