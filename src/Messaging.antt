-- ===== src/Messaging.antt =====
-- packages/core/src/topology/Messaging.ts: messages sent and forwarded over the topology, and their
-- acknowledgements. A handler returns the new state and what it does to the outside, in order.
pub mod Defs
pub mod Settling
pub mod Promises
pub mod Answers
pub mod Loops
pub mod Hops
mod Tests
unfoldable pub use Defs.*
