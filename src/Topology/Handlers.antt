-- ===== src/Topology/Handlers.antt =====
-- The operations and handlers of Topology.ts.
use ataraxia.Base.{
  ℕ, zero, suc, Option, none, some, Bool, true, false, List, [], ◌∷◌, ◌++◌, ◌==◌, ◌||◌, ◌&&◌, not,
  if◌then◌else◌, ltb, map, bytes_eq,
}
use ataraxia.Codec.{
  PeerMessage, NodeRoutingSummary, NodeRoutingDetails, node_summary, node_request, node_details,
  data_message, data_ack, data_reject,
}
use ataraxia.Ids.{same_id}
use ataraxia.IdMap
use ataraxia.IdMap.{IdMap, IdSet}
use ataraxia.Map
use ataraxia.Topology.Graph.{Peer, Graph, put, create_node, get_or_create}
use ataraxia.Topology.Nodes.{
  update_routing, remove_routing, to_routing_details, update_self, update_self_latencies,
}
use ataraxia.Topology.Search.{Heap}
use ataraxia.Topology.Routing.{
  Effect, sends, starts_timer, hands_over, Topology, mark_dirty, refresh,
}

-- The constructor, for the identifier of this node.
unfoldable pub create : List ℕ → Bool → Topology
unfolding create_node
create id endpoint =
    let empty : Graph = record {
      id = λ n. [];
      outgoing = λ n. [];
      incoming = λ n. [];
      peer = λ n. none;
      search_cost = λ n. 0;
      search_previous = λ n. none;
      search_node = λ n. false;
      direct = λ n. false;
      version = λ n. 0;
      reachable_via = λ n. [];
      previous_reachable = λ n. false;
      nodes = [];
      next = 0;
    } in
    let g = create_node id empty in
    record {
      graph = record g { direct = put 0 true g.direct };
      self = 0;
      peers = [];
      dirty = true;
      queued = false;
      endpoint = endpoint;
    }

-- `peerArray`
unfoldable pub peer_array : List (List Peer) → List Peer
peer_array [] = []
peer_array (ps ∷ peers) = ps ++ peer_array peers

-- `updateRouting`
unfoldable pub queue_broadcast : Bool → Topology → Topology × List Effect
unfolding mark_dirty
queue_broadcast broadcast t =
    let u = mark_dirty t in
    if broadcast && not u.queued then (record u { queued = true }, starts_timer ∷ []) else (u, [])

-- The summaries of a broadcast.
unfoldable pub summaries : ℕ → Graph → List ℕ → List NodeRoutingSummary
summaries self g [] = []
summaries self g (n ∷ nodes) =
    let rest = summaries self g nodes in
    if n == self || Map.size (g.reachable_via n) == 0
    then rest
    else record { id = g.id n; version = g.version n } ∷ rest

-- The timer of a queued broadcast; `none` where the refresh throws.
unfoldable pub broadcast_routing : Heap → Topology → Option (Topology × List Effect)
unfolding refresh summaries peer_array
broadcast_routing heap t = elim (refresh heap t) [
  | none ↦ none
  | some (u, effects) ↦
      let done : Topology = record u { queued = false } in
      let message =
        node_summary (u.graph.version u.self)
          (summaries u.self u.graph (Map.values u.graph.nodes)) in
      if u.endpoint
      then some (done, effects)
      else some (done, effects ++ map (λ p. sends p message) (peer_array (Map.values u.peers)))
]

unfoldable pub add_peer : (ℕ → ℕ) → Peer → Topology → Topology × List Effect
unfolding IdMap.get IdMap.set get_or_create update_self peer_array queue_broadcast
add_peer latency p t =
    let old : List Peer = elim (IdMap.get p.id t.peers) [ none ↦ [] | some ps ↦ ps ] in
    let peers = IdMap.set p.id (old ++ p ∷ []) t.peers in
    let (n, g) = get_or_create p.id t.graph in
    let h = record g { direct = put n true g.direct } in
    queue_broadcast true (record t {
      peers = peers;
      graph = update_self t.self latency (peer_array (Map.values peers)) h;
    })

-- What a summary makes of the nodes: the graph, the identifiers found, and those to request.
unfoldable pub compare_summaries :
    List NodeRoutingSummary → Graph → IdSet → List (List ℕ) → Graph × IdSet × List (List ℕ)
unfolding get_or_create IdMap.add
compare_summaries [] g found ids = (g, found, ids)
compare_summaries (s ∷ nodes) g found ids =
    let (n, h) = get_or_create s.id g in
    compare_summaries nodes h (IdMap.add s.id found)
      (if ltb (h.version n) s.version then ids ++ s.id ∷ [] else ids)

-- The loop that removes a peer from the nodes that its summary does not name.
unfoldable pub remove_unfound : Peer → ℕ → IdSet → IdMap (List Peer) → List ℕ → Graph → Bool × Graph
unfolding IdMap.has IdMap.get remove_routing
remove_unfound p self found peers [] g = (false, g)
remove_unfound p self found peers (n ∷ nodes) g =
    let is_peer : Bool = elim (IdMap.get (g.id n) peers) [ none ↦ false | some ps ↦ true ] in
    let (changed, h) =
      if n == self || IdMap.has (g.id n) found || is_peer
      then (false, g)
      else remove_routing n p g in
    let (more, k) = remove_unfound p self found peers nodes h in (changed || more, k)

unfoldable pub handle_node_summary :
    Peer → ℕ → List NodeRoutingSummary → Topology → Topology × List Effect
unfolding IdMap.add get_or_create compare_summaries remove_unfound queue_broadcast
handle_node_summary p own_version nodes t =
    let (n, g) = get_or_create p.id t.graph in
    let first = if ltb (g.version n) own_version then g.id n ∷ [] else [] in
    let (h, found, ids) = compare_summaries nodes g (IdMap.add p.id []) first in
    let (changed, k) = remove_unfound p t.self found t.peers (Map.values h.nodes) h in
    let u : Topology = record t { graph = k } in
    let (v, effects) = if changed then queue_broadcast true u else (u, []) in
    (v, elim ids [ [] ↦ effects | id ∷ rest ↦ effects ++ sends p (node_request (id ∷ rest)) ∷ [] ])

-- The details of the nodes asked for that are known.
unfoldable pub collect_details : List (List ℕ) → Graph → List NodeRoutingDetails
unfolding IdMap.get to_routing_details
collect_details [] g = []
collect_details (id ∷ ids) g = elim (IdMap.get id g.nodes) [
  | none ↦ collect_details ids g
  | some n ↦ to_routing_details n g ∷ collect_details ids g
]

unfoldable pub handle_node_request : Peer → List (List ℕ) → Topology → Topology × List Effect
unfolding collect_details
handle_node_request p ids t = (t, sends p (node_details (collect_details ids t.graph)) ∷ [])

unfoldable pub update_nodes : Peer → ℕ → List NodeRoutingDetails → Graph → Bool × Graph
unfolding get_or_create update_routing
update_nodes p self [] g = (false, g)
update_nodes p self (details ∷ nodes) g =
    let (n, h) = get_or_create details.id g in
    let (changed, k) = if n == self then (false, h) else update_routing n p details h in
    let (more, l) = update_nodes p self nodes k in (changed || more, l)

unfoldable pub handle_node_details :
    Peer → List NodeRoutingDetails → Topology → Topology × List Effect
unfolding IdMap.get update_nodes queue_broadcast
handle_node_details p nodes t = elim (IdMap.get p.id t.peers) [
  | none ↦ (t, [])
  | some ps ↦
      let (changed, g) = update_nodes p t.self nodes t.graph in
      queue_broadcast changed (record t { graph = g })
]

-- `findIndex` and `splice`: the list without the first entry of the instance, if it has one.
unfoldable pub splice_peer : ℕ → List Peer → Option (List Peer)
splice_peer number [] = none
splice_peer number (q ∷ ps) =
    let rest : Option (List Peer) = elim (splice_peer number ps) [
      | none ↦ none
      | some qs ↦ some (q ∷ qs)
    ] in
    if q.number == number then some ps else rest

unfoldable pub remove_all : Peer → List ℕ → Graph → Graph
unfolding remove_routing
remove_all p [] g = g
remove_all p (n ∷ nodes) g = remove_all p nodes (remove_routing n p g).1

unfoldable pub handle_disconnect : (ℕ → ℕ) → Peer → Topology → Topology × List Effect
unfolding IdMap.get IdMap.set IdMap.delete splice_peer get_or_create remove_all update_self
    peer_array queue_broadcast
handle_disconnect latency p t = elim (IdMap.get p.id t.peers) [
  | none ↦ (t, [])
  | some ps ↦ elim (splice_peer p.number ps) [
    | none ↦ (t, [])
    | some [] ↦
        let peers = IdMap.delete p.id t.peers in
        let (n, g) = get_or_create p.id t.graph in
        let h = record g { direct = put n false g.direct } in
        queue_broadcast true (record t {
          peers = peers;
          graph =
              update_self t.self latency (peer_array (Map.values peers))
                (remove_all p (Map.values h.nodes) h);
        })
    | some (q ∷ qs) ↦
        let peers = IdMap.set p.id (q ∷ qs) t.peers in
        queue_broadcast true (record t {
          peers = peers;
          graph = update_self t.self latency (peer_array (Map.values peers)) t.graph;
        })
  ]
]

-- The details that are sent on: those of all nodes but this one and the peer's.
unfoldable pub gossip_details : ℕ → List ℕ → List ℕ → Graph → List NodeRoutingDetails
unfolding to_routing_details same_id
gossip_details self id [] g = []
gossip_details self id (n ∷ nodes) g =
    let rest = gossip_details self id nodes g in
    if n == self || same_id (g.id n) id then rest else to_routing_details n g ∷ rest

abbrev pub pick : ℕ → List Peer → Option Peer
pick n [] = none
pick zero (p ∷ peers) = some p
pick (suc n) (p ∷ peers) = pick n peers

-- `gossipLatencies`; `choice` is the place of the peer that chance picks.
unfoldable pub gossip_latencies : (ℕ → ℕ) → ℕ → Topology → Topology × List Effect
unfolding update_self_latencies peer_array gossip_details
gossip_latencies latency choice t =
    if Map.size t.peers == 0
    then (t, [])
    else (let peers = peer_array (Map.values t.peers) in
        let u : Topology = record t {
          graph = update_self_latencies t.self latency peers t.graph;
        } in
        elim (pick choice peers) [
          | none ↦ (u, [])
          | some p ↦ elim (gossip_details u.self p.id (Map.values u.graph.nodes) u.graph) [
            | [] ↦ (u, [])
            | d ∷ ds ↦ (u, sends p (node_details (d ∷ ds)) ∷ [])
          ]
        ])

-- The listener for what a peer receives.
unfoldable pub on_data : Peer → PeerMessage → Topology → Topology × List Effect
unfolding handle_node_summary handle_node_request handle_node_details
on_data p (node_summary version nodes) t = handle_node_summary p version nodes t
on_data p (node_request ids) t = handle_node_request p ids t
on_data p (node_details nodes) t = handle_node_details p nodes t
on_data p (data_message m) t = (t, hands_over p (data_message m) ∷ [])
on_data p (data_ack id) t = (t, hands_over p (data_ack id) ∷ [])
on_data p (data_reject id) t = (t, hands_over p (data_reject id) ∷ [])
on_data p message t = (t, [])
