-- ===== src/Services.antt =====
-- packages/services: services that nodes offer to each other, by messages in a group.
pub mod Defs
pub mod Handlers
pub mod Events
pub mod Telling
pub mod Announced
pub mod Local
pub mod Subscribers
pub mod Staying
pub mod Held
pub mod Keeping
pub mod Subscribing
pub mod Listing
pub mod Updating
mod Tests
