-- ===== src/Groups.antt =====
-- packages/core/src/group: the groups that the nodes of a network join and leave.
pub mod Shared
pub mod Manager
pub mod Unique
pub mod Sweeps
pub mod Membership
pub mod Tracking
pub mod Histories
mod Tests
