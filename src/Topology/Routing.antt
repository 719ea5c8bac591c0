-- ===== src/Topology/Routing.antt =====
-- The rest of Routing.ts: the refresh of the routes, with the events for nodes that come and go.
use ataraxia.Base.{
  ℕ, Option, none, some, Bool, true, false, List, [], ◌∷◌, ◌++◌, ◌==◌, if◌then◌else◌, bytes_eq,
}
use ataraxia.Codec.{PeerMessage}
use ataraxia.IdMap
use ataraxia.IdMap.{IdMap}
use ataraxia.Map
use ataraxia.Topology.Graph.{Peer, Graph, put}
use ataraxia.Topology.Search.{Heap, calculate_paths}

-- What the topology does to others: messages to peers, a timer for a broadcast, events for nodes, and
-- messages that Messaging handles.
pub data Effect : Type 0 where
  sends : Peer → PeerMessage → Effect
  starts_timer : Effect
  available unavailable : ℕ → Effect
  hands_over : Peer → PeerMessage → Effect

pub record Topology : Type 0 where
  pub graph : Graph
  pub self : ℕ
  pub peers : IdMap (List Peer)
  pub dirty : Bool
  pub queued : Bool
  pub endpoint : Bool

-- The function that the constructor of Topology gives to Routing; it throws at an entry with no
-- peers, which is taken for none.
unfoldable pub peer_of : IdMap (List Peer) → List ℕ → Option Peer
unfolding IdMap.get
peer_of peers id = elim (IdMap.get id peers) [
  | none ↦ none
  | some [] ↦ none
  | some (p ∷ ps) ↦ some p
]

unfoldable pub mark_dirty : Topology → Topology
mark_dirty t = record t { dirty = true }

-- The turn of the loop for one node.
unfoldable pub refresh_node : ℕ → ℕ → Graph → Graph × List Effect
unfolding IdMap.delete
refresh_node self n g =
    let is_available : Bool = elim (g.peer n) [ none ↦ n == self | some p ↦ true ] in
    if is_available
    then (if g.previous_reachable n then (g, []) else (
      record g { previous_reachable = put n true g.previous_reachable },
      if n == self then [] else available n ∷ [],
    ))
    else (
      record g {
        previous_reachable = put n false g.previous_reachable;
        nodes = IdMap.delete (g.id n) g.nodes;
      },
      unavailable n ∷ [],
    )

unfoldable pub refresh_nodes : ℕ → List ℕ → Graph → Graph × List Effect
unfolding refresh_node
refresh_nodes self [] g = (g, [])
refresh_nodes self (n ∷ nodes) g =
    let (h, effects) = refresh_node self n g in
    let (k, more) = refresh_nodes self nodes h in (k, effects ++ more)

-- `refresh`; `none` where it throws.
unfoldable pub refresh : Heap → Topology → Option (Topology × List Effect)
unfolding calculate_paths refresh_nodes peer_of
refresh heap t =
    if t.dirty
    then elim (calculate_paths heap (peer_of t.peers) t.self t.graph) [
      | none ↦ none
      | some g ↦
          let (h, effects) = refresh_nodes t.self (Map.values g.nodes) g in
          some (record t { graph = h; dirty = false }, effects)
    ]
    else some (t, [])

-- `findPeerForTarget`
unfoldable pub find_peer_for_target :
    Heap → List ℕ → Topology → Option (Topology × List Effect × Option Peer)
unfolding refresh IdMap.get
find_peer_for_target heap id t = elim (refresh heap t) [
  | none ↦ none
  | some (u, effects) ↦
      some (u, effects, elim (IdMap.get id u.graph.nodes) [ none ↦ none | some n ↦ u.graph.peer n ])
]
