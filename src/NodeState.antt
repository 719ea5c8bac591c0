-- ===== src/NodeState.antt =====
-- packages/core/src/state/PerNodeState.ts: a value for each node, which the other nodes follow.
pub mod Defs
pub mod Sender
pub mod Receiver
pub mod Following
pub mod Rounds
mod Tests
