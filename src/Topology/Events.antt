-- ===== src/Topology/Events.antt =====
-- What happens to a topology, in any order.
use ataraxia.Base.{ℕ, Option, none, some, List, [], ◌∷◌, ◌++◌}
use ataraxia.Codec.{PeerMessage}
use ataraxia.Topology.Graph.{Peer}
use ataraxia.Topology.Search.{Heap}
use ataraxia.Topology.Routing.{Topology, Effect, refresh}
use ataraxia.Topology.Handlers.{
  add_peer, on_data, handle_disconnect, gossip_latencies, broadcast_routing,
}

-- A peer connects, sends a message or disconnects; latencies are gossiped; the timer of a broadcast
-- goes off; a route is asked for. The latencies are those that the peers have at the time.
pub data Event : Type 0 where
  connects : (ℕ → ℕ) → Peer → Event
  receives : Peer → PeerMessage → Event
  disconnects : (ℕ → ℕ) → Peer → Event
  gossips : (ℕ → ℕ) → ℕ → Event
  timer_fires refreshes : Event

-- `none` where the code throws.
unfoldable pub step : Heap → Event → Topology → Option (Topology × List Effect)
unfolding add_peer on_data handle_disconnect gossip_latencies broadcast_routing refresh
step heap (connects latency p) t = some (add_peer latency p t)
step heap (receives p message) t = some (on_data p message t)
step heap (disconnects latency p) t = some (handle_disconnect latency p t)
step heap (gossips latency choice) t = some (gossip_latencies latency choice t)
step heap timer_fires t = broadcast_routing heap t
step heap refreshes t = refresh heap t

unfoldable pub run : Heap → List Event → Topology → Option (Topology × List Effect)
unfolding step
run heap [] t = some (t, [])
run heap (e ∷ events) t = elim (step heap e t) [
  | none ↦ none
  | some (u, effects) ↦ elim (run heap events u) [
    | none ↦ none
    | some (v, more) ↦ some (v, effects ++ more)
  ]
]
