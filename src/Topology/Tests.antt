-- ===== src/Topology/Tests.antt =====
-- Concrete topologies, and the theorems at them.
use ataraxia.Base.{
  ℕ, ◌≡◌, ◌≢◌, refl, ap, subst, ◌∙◌, some, true, false, List, [], ◌∷◌, ◌==◌, if◌then◌else◌, ltb,
  reverse, length, arith, Bool-cases, inl, inr, bytes_eq, Text,
}
use ataraxia.Codec.{NodeRoutingDetails, NodeRoutingSummary, node_details}
use ataraxia.Topology.Graph.{Edge, Peer, Graph, create_node, get_or_create}
use ataraxia.Topology.Nodes.{
  to_path, update_self, update_self_latencies, update_routing, clear_outgoing_edges, clear_incoming,
  remove_source, add_neighbors, add_outgoing_edge,
}
use ataraxia.IdMap
use ataraxia.Ids.{encode_id}
use ataraxia.Map
use ataraxia.Topology.Entries.{mem}
use ataraxia.Topology.Relaxing.{Among}
use ataraxia.Topology.Paths.{Known, IsShortest, search_graph-IsShortest}
use ataraxia.Topology.Routes.{Same, Routed, calculate_paths-Routed}
use ataraxia.Topology.Listing.{valid-Known}
use ataraxia.Topology.Routing.{Topology, Effect, peer_of, refresh, mark_dirty}
use ataraxia.Topology.Handlers.{
  create, add_peer, handle_node_details, handle_node_summary, update_nodes, queue_broadcast,
  peer_array, on_data,
}
use ataraxia.Topology.Sound.{IsSound, text}
use ataraxia.Topology.Handling.{handle_node_details-IsSound}
use ataraxia.Topology.Peering.{add_peer-IsSound}
use ataraxia.Topology.Available.{IsBounded}
use ataraxia.Topology.Refreshing.{KeepsReached, refresh-KeepsReached}
use ataraxia.Messaging.Loops.{NoSelfPeer}
use ataraxia.Topology.Serving.{routes_of, routes_of-NoSelfPeer}
use ataraxia.Topology.Running.{create-IsSound, AreAllowed, run-IsSound}
use ataraxia.Topology.Events.{Event, connects, receives, timer_fires, step, run}
use ataraxia.Topology.Requesting.{
  requests, one_request, version_of, bytes_of, outdated, handle_node_summary-requests,
}
use ataraxia.Topology.ListHeap.{list_heap}
use ataraxia.Topology.Trails.{IsBack, to_path-IsBack}
use ataraxia.Topology.Search.{
  search_graph, search, insert_all, relax, relax_all, decrease_key, calculate_paths,
}

abbrev peer_two : Peer
peer_two = record { number = 7; id = 2 ∷ [] }

abbrev latency : ℕ → ℕ
latency n = 10

abbrev node_two : NodeRoutingDetails
node_two = record {
  id = 2 ∷ [];
  version = 1;
  neighbors = record { id = 1 ∷ []; latency = 10 } ∷ record { id = 3 ∷ []; latency = 5 } ∷ [];
}

abbrev alone : Topology
alone = create (1 ∷ []) false

-- A peer, and a node behind it.
abbrev joined : Topology
joined = (handle_node_details peer_two (node_two ∷ []) (add_peer latency peer_two alone).0).0

other_id : encode_id (2 ∷ []) ≢ text alone.graph alone.self
unfolding create create_node IdMap.set encode_id
other_id e = absurd (let c : ◌≡◌ {A = Text} (50 ∷ []) (49 ∷ []) = e in ground (arith, c))

joined-IsSound : IsSound joined
joined-IsSound =
    handle_node_details-IsSound peer_two (node_two ∷ []) (add_peer latency peer_two alone).0
      (add_peer-IsSound latency peer_two alone (create-IsSound (1 ∷ []) false) other_id)

joined-Known : Known joined.self joined.graph
joined-Known = valid-Known joined.self joined.graph joined-IsSound.joined.valid

search_graph-IsShortest_example :
    IsShortest joined.self joined.graph (search_graph list_heap joined.self joined.graph)
search_graph-IsShortest_example =
    search_graph-IsShortest list_heap joined.self joined.graph joined-Known

joined-direct : joined.graph.direct joined.self ≡ true
joined-direct =
    ground (arith, joined-IsSound.joined.direct joined.self joined-IsSound.joined.valid.own)

calculate_paths-Routed_example :
    (h : Graph) × (calculate_paths list_heap (peer_of joined.peers) joined.self joined.graph
      ≡ some h)
    × Same joined.graph h
    × ((n : ℕ)
        → mem n (Map.values joined.graph.nodes) ≡ true
        → Routed
            (peer_of joined.peers)
            (search_graph list_heap joined.self joined.graph).cost
            joined.graph
            h
            n)
calculate_paths-Routed_example =
    calculate_paths-Routed list_heap (peer_of joined.peers) joined.self joined.graph joined-Known
      joined-direct

edge_to : ℕ → ℕ → ℕ → Edge
edge_to n cost target = record { cost = cost; source = n; target = target }

joined-outgoing :
    (n : ℕ)
    → joined.graph.outgoing n ≡ (
        if n == 0
        then edge_to 0 10 1 ∷ []
        else (if n == 1 then edge_to 1 10 0 ∷ edge_to 1 5 2 ∷ [] else []))
unfolding edge_to create create_node add_peer handle_node_details update_nodes update_self
    update_self_latencies update_routing clear_outgoing_edges clear_incoming remove_source
    add_neighbors add_outgoing_edge get_or_create queue_broadcast mark_dirty peer_array IdMap.get
    IdMap.set IdMap.add Map.get Map.set encode_id
joined-outgoing n = ground arith

joined-cost : (search_graph list_heap joined.self joined.graph).cost 1 ≡ 10
unfolding create create_node add_peer handle_node_details update_nodes update_self
    update_self_latencies update_routing clear_outgoing_edges clear_incoming remove_source
    add_neighbors add_outgoing_edge get_or_create queue_broadcast mark_dirty peer_array IdMap.get
    IdMap.set IdMap.add Map.get Map.set encode_id search_graph search insert_all relax relax_all
    decrease_key
joined-cost = refl

joined-own_cost : (search_graph list_heap joined.self joined.graph).cost 0 ≡ 0
unfolding create create_node add_peer handle_node_details update_nodes update_self
    update_self_latencies update_routing clear_outgoing_edges clear_incoming remove_source
    add_neighbors add_outgoing_edge get_or_create queue_broadcast mark_dirty peer_array IdMap.get
    IdMap.set IdMap.add Map.get Map.set encode_id search_graph search insert_all relax relax_all
    decrease_key
joined-own_cost = refl

joined-dirty : joined.dirty ≡ true
unfolding create create_node add_peer handle_node_details queue_broadcast mark_dirty update_nodes
    IdMap.get IdMap.set Map.get Map.set encode_id
joined-dirty = refl

joined-IsBounded : IsBounded (search_graph list_heap joined.self joined.graph).cost joined.graph
unfolding edge_to
joined-IsBounded n e l a =
    let b = subst (Among e) (joined-outgoing n) a in
    elim (Bool-cases (n == 0)) [
      | inl s ↦
          let c : Among e (edge_to 0 10 1 ∷ []) = rw s at b in
          let q : n ≡ 0 = ground (arith, s) in
          elim c [
            | inl d ↦
                let f : 10 ≡ e.cost = ap (λ (x : Edge). x.cost) d in
                omega (
                  arith,
                  ap (search_graph list_heap joined.self joined.graph).cost q,
                  joined-own_cost,
                  f,
                )
            | inr d ↦ absurd d
          ]
      | inr s ↦ elim (Bool-cases (n == 1)) [
        | inl r ↦
            let c : Among e (edge_to 1 10 0 ∷ edge_to 1 5 2 ∷ []) = rw (s, r) at b in
            let q : n ≡ 1 = ground (arith, r) in
            let k = ap (search_graph list_heap joined.self joined.graph).cost q in
            elim c [
              | inl d ↦
                  (let f : 10 ≡ e.cost = ap (λ (x : Edge). x.cost) d in
                    omega (arith, k, joined-cost, f))
              | inr (inl d) ↦
                  (let f : 5 ≡ e.cost = ap (λ (x : Edge). x.cost) d in
                    omega (arith, k, joined-cost, f))
              | inr (inr d) ↦ absurd d
            ]
        | inr r ↦ absurd (let c : Among e [] = rw (s, r) at b in c)
      ]
    ]

refresh-KeepsReached_example :
    (u : Topology) × (effects : List Effect) × (refresh list_heap joined ≡ some (u, effects))
    × IsSound u
    × KeepsReached joined u
refresh-KeepsReached_example =
    refresh-KeepsReached list_heap joined joined-IsSound joined-IsBounded joined-dirty

routes_of-NoSelfPeer_example :
    NoSelfPeer (routes_of list_heap joined)
    × ((u : Topology) × (effects : List Effect) × (refresh list_heap joined ≡ some (u, effects))
        × NoSelfPeer (routes_of list_heap u))
routes_of-NoSelfPeer_example = routes_of-NoSelfPeer list_heap joined joined-IsSound joined-dirty

joined-mem : mem 2 (Map.values joined.graph.nodes) ≡ true
unfolding create create_node add_peer handle_node_details update_nodes update_self
    update_self_latencies update_routing clear_outgoing_edges clear_incoming remove_source
    add_neighbors add_outgoing_edge get_or_create queue_broadcast mark_dirty peer_array IdMap.get
    IdMap.set IdMap.add Map.get Map.set encode_id
joined-mem = refl

abbrev searched : Graph
searched = record joined.graph {
  search_previous = (search_graph list_heap joined.self joined.graph).previous;
}

to_path-IsBack_example :
    (back : List ℕ) × (to_path (length (Map.values joined.graph.nodes)) 2 searched
      ≡ some (reverse back))
    × IsBack searched.search_previous 2 back
to_path-IsBack_example =
    to_path-IsBack list_heap joined.self joined.graph searched 2 joined-Known refl joined-mem

abbrev told : List NodeRoutingSummary
told = record { id = 3 ∷ []; version = 4 } ∷ record { id = 1 ∷ []; version = 0 } ∷ []

handle_node_summary-requests_example :
    requests (handle_node_summary peer_two 2 told joined).1
    ≡ one_request peer_two (
        if ltb (version_of (encode_id (2 ∷ [])) joined.graph) 2
        then bytes_of (2 ∷ []) joined.graph ∷ outdated joined.graph told
        else outdated joined.graph told)
handle_node_summary-requests_example =
    handle_node_summary-requests peer_two 2 told joined joined-IsSound.joined.valid

-- The peer connects and tells of itself; then the routes are broadcast.
abbrev happens : List Event
happens =
    connects latency peer_two ∷ receives peer_two (node_details (node_two ∷ [])) ∷ timer_fires ∷ []

state_of :
    (r : Topology × List Effect) (u : Topology) (effects : List Effect)
    → some r ≡ some (u, effects)
    → r.0 ≡ u
state_of r u effects q = let e : r ≡ (u, effects) = cc in ap (λ (x : Topology × List Effect). x.0) e

happens-AreAllowed : AreAllowed list_heap happens (create (1 ∷ []) false)
unfolding step on_data
happens-AreAllowed = (
  other_id,
  λ u effects q. (
    tt,
    λ v more r. (
      (let first = state_of (add_peer latency peer_two alone) u effects q in
          let second = state_of (handle_node_details peer_two (node_two ∷ []) u) v more r in
          let a : joined ≡ v =
            ap (λ (x : Topology). (handle_node_details peer_two (node_two ∷ []) x).0) first
            ∙ second in
          subst (λ (x : Topology). IsBounded (search_graph list_heap x.self x.graph).cost x.graph) a
            joined-IsBounded),
      λ w last c. tt,
    ),
  ),
)

run-IsSound_example :
    (u : Topology) × (effects : List Effect) × (run list_heap happens (create (1 ∷ []) false)
      ≡ some (u, effects))
    × IsSound u
run-IsSound_example = run-IsSound list_heap (1 ∷ []) false happens happens-AreAllowed
