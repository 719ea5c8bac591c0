-- ===== src/Topology/Nodes.antt =====
-- The methods of TopologyNode.ts.
use ataraxia.Base.{
  ℕ, zero, suc, ◌+◌, reverse, Option, none, some, Bool, true, false, not, ◌&&◌, List, [], ◌∷◌, ◌++◌,
  map, ◌==◌, if◌then◌else◌, ltb, bytes_eq,
}
use ataraxia.IdMap
use ataraxia.Map
use ataraxia.Codec.{NodeRoutingDetails, NodeWithLatency}
use ataraxia.Topology.Graph.{Edge, Peer, Graph, put, get_or_create}

-- `incoming.splice(idx, 1)` at the first edge from the node, if there is one.
unfoldable pub remove_source : ℕ → List Edge → List Edge
remove_source n [] = []
remove_source n (e ∷ edges) =
    let rest = remove_source n edges in if e.source == n then edges else e ∷ rest

-- The loop of `clearOutgoingEdges`.
unfoldable pub clear_incoming : ℕ → List Edge → (ℕ → List Edge) → ℕ → List Edge
unfolding remove_source
clear_incoming n [] incoming = incoming
clear_incoming n (e ∷ edges) incoming =
    clear_incoming n edges (put e.target (remove_source n (incoming e.target)) incoming)

unfoldable pub clear_outgoing_edges : ℕ → Graph → Graph
unfolding clear_incoming
clear_outgoing_edges n g = record g {
  outgoing = put n [] g.outgoing;
  incoming = clear_incoming n (g.outgoing n) g.incoming;
}

unfoldable pub add_outgoing_edge : ℕ → ℕ → ℕ → Graph → Graph
add_outgoing_edge n cost target g =
    let edge : Edge = record { source = n; cost = cost; target = target } in
    record g {
      outgoing = put n (g.outgoing n ++ edge ∷ []) g.outgoing;
      incoming = put target (g.incoming target ++ edge ∷ []) g.incoming;
    }

-- The loops that add an edge to each neighbour.
unfoldable pub add_neighbors : ℕ → List NodeWithLatency → Graph → Graph
unfolding get_or_create add_outgoing_edge
add_neighbors n [] g = g
add_neighbors n (neighbor ∷ neighbors) g =
    let t = get_or_create neighbor.id g in
    add_neighbors n neighbors (add_outgoing_edge n neighbor.latency t.0 t.1)

-- `updateRouting`
unfoldable pub update_routing : ℕ → Peer → NodeRoutingDetails → Graph → Bool × Graph
unfolding clear_outgoing_edges add_neighbors IdMap.add
update_routing n peer details g =
    let reached = record g {
      reachable_via = put n (IdMap.add peer.id (g.reachable_via n)) g.reachable_via;
    } in
    let h = add_neighbors n details.neighbors (clear_outgoing_edges n reached) in
    if ltb (h.version n) details.version
    then (true, record h { version = put n details.version h.version })
    else (false, h)

-- `removeRouting`
unfoldable pub remove_routing : ℕ → Peer → Graph → Bool × Graph
unfolding clear_outgoing_edges IdMap.has IdMap.remove
remove_routing n peer g =
    if IdMap.has peer.id (g.reachable_via n)
    then (let via = IdMap.remove peer.id (g.reachable_via n) in
        let h = record g { reachable_via = put n via g.reachable_via } in
        (
          true,
          if not (g.direct n) && Map.size via == 0
              then clear_outgoing_edges n (record h { version = put n 0 h.version })
              else h,
        ))
    else (false, g)

-- `toRoutingDetails`
unfoldable pub to_routing_details : ℕ → Graph → NodeRoutingDetails
to_routing_details n g = record {
  id = g.id n;
  version = g.version n;
  neighbors = map (λ e. record { id = g.id e.target; latency = e.cost }) (g.outgoing n);
}

-- Peers as neighbours, each with its latency at the time.
abbrev pub as_neighbors : (ℕ → ℕ) → List Peer → List NodeWithLatency
as_neighbors latency peers =
    map (λ (p : Peer). record { id = p.id; latency = latency p.number }) peers

-- `updateSelfLatencies`
unfoldable pub update_self_latencies : ℕ → (ℕ → ℕ) → List Peer → Graph → Graph
unfolding clear_outgoing_edges add_neighbors
update_self_latencies n latency peers g =
    add_neighbors n (as_neighbors latency peers) (clear_outgoing_edges n g)

-- `updateSelf`
unfoldable pub update_self : ℕ → (ℕ → ℕ) → List Peer → Graph → Graph
unfolding update_self_latencies
update_self n latency peers g =
    update_self_latencies n latency peers (record g { version = put n (g.version n + 1) g.version })

-- The loop of `toPath`, back to a node with none before it; `none` where the fuel does not reach.
unfoldable pub collect_previous : ℕ → (ℕ → Option ℕ) → Option ℕ → List ℕ → Option (List ℕ)
collect_previous fuel previous none result = some result
collect_previous zero previous (some n) result = none
collect_previous (suc fuel) previous (some n) result =
    collect_previous fuel previous (previous n) (result ++ n ∷ [])

-- `toPath`
unfoldable pub to_path : ℕ → ℕ → Graph → Option (List ℕ)
unfolding collect_previous
to_path fuel n g = elim (collect_previous fuel g.search_previous (g.search_previous n) []) [
  | none ↦ none
  | some result ↦ some (reverse result)
]
