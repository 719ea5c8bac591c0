-- ===== src/Topology.antt =====
-- packages/core/src/topology: what a node knows of the network, its routes, and how nodes tell each
-- other. Messaging, which stands on the routes, is a part of its own.
pub mod Graph
pub mod Nodes
pub mod Search
pub mod Entries
pub mod Relaxing
pub mod Shortest
pub mod Starting
pub mod Ways
pub mod Paths
pub mod Routes
pub mod Routing
pub mod Handlers
pub mod Valid
pub mod Changing
pub mod Sound
pub mod Listing
pub mod Handling
pub mod Peering
pub mod Joining
pub mod Dropping
pub mod Linking
pub mod Available
pub mod Refreshing
pub mod Events
pub mod Running
pub mod Requesting
pub mod Trails
mod ListHeap
mod Tests
pub mod Serving
