-- ===== src/Topology/Running.antt =====
-- The invariant of the topology in every run.
use ataraxia.Base.{
  ℕ, ◌≡◌, ◌≢◌, refl, subst, Option, none, some, Bool, false, List, [], ◌∷◌, ◌++◌, map, All, arith,
  Bool-cases, inl, inr, bytes_eq,
}
use ataraxia.Codec.{
  PeerMessage, ok, reject, bye, ping, pong, begin, hello, select, auth, auth_data, node_summary,
  node_request, node_details, data_message, data_ack, data_reject,
}
use ataraxia.IdMap
use ataraxia.Ids.{encode_id}
use ataraxia.Map
use ataraxia.Topology.Graph.{Edge, Peer, create_node}
use ataraxia.Topology.Search.{Heap, search_graph}
use ataraxia.Topology.Valid.{IsKnown}
use ataraxia.Topology.Routing.{Topology, Effect, sends, refresh}
use ataraxia.Topology.Handlers.{
  create, on_data, broadcast_routing, handle_node_request, summaries, peer_array, add_peer,
  handle_disconnect, gossip_latencies,
}
use ataraxia.Topology.Sound.{IsSound, text}
use ataraxia.Topology.Handling.{
  flags-IsSound, handle_node_summary-IsSound, handle_node_details-IsSound,
}
use ataraxia.Topology.Peering.{
  add_peer-IsSound, handle_disconnect-IsSound, gossip_latencies-IsSound,
}
use ataraxia.Topology.Available.{IsBounded}
use ataraxia.Topology.Refreshing.{refresh-KeepsReached}
use ataraxia.Topology.Events.{
  Event, connects, receives, disconnects, gossips, timer_fires, refreshes, step, run,
}

pub create-IsSound : (id : List ℕ) (endpoint : Bool) → IsSound (create id endpoint)
unfolding create create_node IdMap.set Map.get Map.set Map.has peer_array
create-IsSound id endpoint = record {
  joined = record {
    valid = record {
      once = (refl, tt);
      placed = λ key n q. ground (arith, q, bytes_eq.beq_iff (encode_id id) key);
      own = ground (arith, bytes_eq.beq_iff (encode_id id) (encode_id id));
      closed = λ n k.
          subst (All (λ (e : Edge). IsKnown (create id endpoint).graph e.target))
            (let e : [] ≡ (create id endpoint).graph.outgoing n = ground arith in e) tt;
    };
    direct = λ n k. ground (arith, k);
    peered =
        λ key peers q. absurd (let c : ◌≡◌ {A = Option (List Peer)} none (some peers) = q in cc);
    filled =
        λ key peers q. absurd (let c : ◌≡◌ {A = Option (List Peer)} none (some peers) = q in cc);
    peers_once = tt;
    alone = refl;
  };
  linked = tt;
}

on_data-IsSound :
    (p : Peer) (message : PeerMessage) (t : Topology) → IsSound t → IsSound (on_data p message t).0
unfolding on_data handle_node_request
on_data-IsSound p (node_summary version nodes) t s = handle_node_summary-IsSound p version nodes t s
on_data-IsSound p (node_request ids) t s = s
on_data-IsSound p (node_details nodes) t s = handle_node_details-IsSound p nodes t s
on_data-IsSound p (data_message m) t s = s
on_data-IsSound p (data_ack id) t s = s
on_data-IsSound p (data_reject id) t s = s
on_data-IsSound p ok t s = s
on_data-IsSound p reject t s = s
on_data-IsSound p bye t s = s
on_data-IsSound p ping t s = s
on_data-IsSound p pong t s = s
on_data-IsSound p begin t s = s
on_data-IsSound p (hello id capabilities) t s = s
on_data-IsSound p (select id capabilities) t s = s
on_data-IsSound p (auth method message) t s = s
on_data-IsSound p (auth_data message) t s = s

-- What the invariant needs of an event: no peer has this node's identifier, and where routes are
-- refreshed, costs are below the greatest number.
abbrev pub IsAllowed : Heap → Event → Topology → Type 0
IsAllowed heap (connects latency p) t = encode_id p.id ≢ text t.graph t.self
IsAllowed heap (disconnects latency p) t = encode_id p.id ≢ text t.graph t.self
IsAllowed heap timer_fires t = IsBounded (search_graph heap t.self t.graph).cost t.graph
IsAllowed heap refreshes t = IsBounded (search_graph heap t.self t.graph).cost t.graph
IsAllowed heap (receives p message) t = Unit
IsAllowed heap (gossips latency choice) t = Unit

-- What a step or a run gives.
abbrev pub Gives : Option (Topology × List Effect) → Type 0
Gives r = (u : Topology) × (effects : List Effect) × (r ≡ some (u, effects)) × IsSound u

refresh-Gives :
    (heap : Heap) (t : Topology)
    → IsSound t
    → IsBounded (search_graph heap t.self t.graph).cost t.graph
    → Gives (refresh heap t)
unfolding refresh
refresh-Gives heap t s b = elim (Bool-cases t.dirty) [
  | inl d ↦ let (u, effects, q, v, k) = refresh-KeepsReached heap t s b d in (u, effects, q, v)
  | inr d ↦ (t, [], rw (d, refresh) refl, s)
]

broadcast_routing-Gives :
    (heap : Heap) (t : Topology)
    → IsSound t
    → IsBounded (search_graph heap t.self t.graph).cost t.graph
    → Gives (broadcast_routing heap t)
unfolding broadcast_routing
broadcast_routing-Gives heap t s b =
    let (u, effects, q, v) = refresh-Gives heap t s b in
    let done : Topology = record u { queued = false } in
    let message =
      node_summary (u.graph.version u.self) (summaries u.self u.graph (Map.values u.graph.nodes)) in
    elim (Bool-cases u.endpoint) [
      | inl e ↦
          (done, effects, rw (q, broadcast_routing) (rw e refl), flags-IsSound u u.dirty false v)
      | inr e ↦ (
        done,
        effects ++ map (λ p. sends p message) (peer_array (Map.values u.peers)),
        rw (q, broadcast_routing) (rw e refl),
        flags-IsSound u u.dirty false v,
      )
    ]

step-Gives :
    (heap : Heap) (e : Event) (t : Topology)
    → IsSound t
    → IsAllowed heap e t
    → Gives (step heap e t)
unfolding step
step-Gives heap (connects latency p) t s a =
    ((add_peer latency p t).0, (add_peer latency p t).1, refl, add_peer-IsSound latency p t s a)
step-Gives heap (receives p message) t s a =
    ((on_data p message t).0, (on_data p message t).1, refl, on_data-IsSound p message t s)
step-Gives heap (disconnects latency p) t s a = (
  (handle_disconnect latency p t).0,
  (handle_disconnect latency p t).1,
  refl,
  handle_disconnect-IsSound latency p t s a,
)
step-Gives heap (gossips latency choice) t s a = (
  (gossip_latencies latency choice t).0,
  (gossip_latencies latency choice t).1,
  refl,
  gossip_latencies-IsSound latency choice t s,
)
step-Gives heap timer_fires t s a = broadcast_routing-Gives heap t s a
step-Gives heap refreshes t s a = refresh-Gives heap t s a

-- Each event of a run is allowed where it happens.
abbrev pub AreAllowed : Heap → List Event → Topology → Type 0
AreAllowed heap [] t = Unit
AreAllowed heap (e ∷ events) t =
    IsAllowed heap e t
    × ((u : Topology) (effects : List Effect)
        → step heap e t ≡ some (u, effects)
        → AreAllowed heap events u)

run-Gives :
    (heap : Heap) (events : List Event) (t : Topology)
    → IsSound t
    → AreAllowed heap events t
    → Gives (run heap events t)
unfolding run
run-Gives heap [] t s a = (t, [], refl, s)
run-Gives heap (e ∷ events) t s a =
    let (u, effects, q, v) = step-Gives heap e t s a.0 in
    let (w, more, r, x) = run-Gives heap events u v (a.1 u effects q) in
    (w, effects ++ more, rw (q, run) (rw r refl), x)

-- Whatever happens to a new topology, in any order, nothing is thrown and the invariant holds: the
-- edges of known nodes lead to known nodes, each under its own identifier; this node and the nodes
-- of peers are direct and no others; and this node has one edge to each peer. No peer has this
-- node's identifier, and at each refresh one more edge keeps the cost of a reached node below the
-- greatest number.
pub run-IsSound :
    (heap : Heap) (id : List ℕ) (endpoint : Bool) (events : List Event)
    → AreAllowed heap events (create id endpoint)
    → (u : Topology) × (effects : List Effect) × (run heap events (create id endpoint)
        ≡ some (u, effects))
      × IsSound u
run-IsSound heap id endpoint events a =
    run-Gives heap events (create id endpoint) (create-IsSound id endpoint) a
