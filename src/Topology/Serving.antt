-- ===== src/Topology/Serving.antt =====
-- The routes that Messaging.ts is given: those of Routing.ts, by which Topology.ts makes it.
use ataraxia.Base.{
  ℕ, ◌≡◌, ◌≢◌, refl, sym, ap, subst, ◌∙◌, Option, none, some, true, false, List, [], ◌∷◌, arith,
  Bool-cases, Option-cases, inl, inr, bytes_eq, Text,
}
use ataraxia.IdMap
use ataraxia.IdMap.{IdMap}
use ataraxia.Ids.{encode_id}
use ataraxia.Map
use ataraxia.Messaging.Defs.{Routes}
use ataraxia.Messaging.Loops.{NoSelfPeer}
use ataraxia.Topology.Graph.{Peer, Graph}
use ataraxia.Topology.Search.{Heap, search_graph, max_safe_integer}
use ataraxia.Topology.Entries.{mem}
use ataraxia.Topology.Routes.{Same, Routed, calculate_paths-Routed}
use ataraxia.Topology.Valid.{lt-cases}
use ataraxia.Topology.Listing.{get-mem, valid-Known}
use ataraxia.Topology.Routing.{
  Topology, Effect, peer_of, refresh, refresh_nodes, find_peer_for_target,
}
use ataraxia.Topology.Sound.{IsSound, text}
use ataraxia.Topology.Dropping.{refresh_nodes-Steady, refresh_nodes-old}

-- A peer goes by its identifier in Messaging.
abbrev pub peer_id : Option Peer → Option (List ℕ)
peer_id none = none
peer_id (some p) = some p.id

abbrev pub found : Option (Topology × List Effect × Option Peer) → Option Peer
found none = none
found (some (t, effects, p)) = p

abbrev pub routes_of : Heap → Topology → Routes
routes_of heap t = record {
  self = t.graph.id t.self;
  find_peer_for_target = λ id. peer_id (found (find_peer_for_target heap id t));
  get_peer = λ id. peer_id (peer_of t.peers id);
}

-- No entry of the peers is this node's.
peer_of-other :
    (t : Topology) (id : List ℕ) (p : Peer)
    → IsSound t
    → peer_of t.peers id ≡ some p
    → p.id ≢ t.graph.id t.self
unfolding peer_of IdMap.get
peer_of-other t id p s q = elim (Option-cases (Map.get (encode_id id) t.peers)) [
  | inl f ↦ absurd (let c : none ≡ some p = sym (rw (f, peer_of) refl) ∙ q in cc)
  | inr ([], f) ↦ absurd ((s.joined.filled (encode_id id) [] f).0 refl)
  | inr (r ∷ ps, f) ↦
      let same : some r ≡ some p = sym (rw (f, peer_of) refl) ∙ q in
      let named = (s.joined.filled (encode_id id) (r ∷ ps) f).1.0 in
      λ e. absurd (
        let alone : Map.get (text t.graph t.self) t.peers ≡ none = s.joined.alone in
        let key : encode_id r.id ≡ text t.graph t.self =
          ap (λ (x : Option Peer). elim x [ none ↦ text t.graph t.self | some y ↦ encode_id y.id ])
            same
          ∙ ap encode_id e in
        let c : some (r ∷ ps) ≡ none =
          sym f ∙ ap (λ (x : Text). Map.get x t.peers) (sym named ∙ key) ∙ alone in
        cc)
]

Routed-other :
    (heap : Heap) (t : Topology) (h : Graph) (n : ℕ) (p : Peer)
    → IsSound t
    → Routed (peer_of t.peers) (search_graph heap t.self t.graph).cost t.graph h n
    → h.peer n ≡ some p
    → p.id ≢ t.graph.id t.self
Routed-other heap t h n p s r q = elim (Bool-cases (t.graph.direct n)) [
  | inl d ↦ peer_of-other t (t.graph.id n) p s (sym (r.to_direct d) ∙ q)
  | inr d ↦ elim (lt-cases ((search_graph heap t.self t.graph).cost n) max_safe_integer) [
    | inl l ↦
        let (m, dm, known, f, b, plain) = r.by_way d l in
        peer_of-other t (t.graph.id m) p s (sym f ∙ q)
    | inr l ↦ absurd (let c : none ≡ some p = sym (r.lost d l).0 ∙ q in cc)
  ]
]

peer_id-cases :
    (o : Option ℕ) (f : ℕ → Option Peer) (peer : List ℕ)
    → peer_id (elim o as (λ x. Option Peer) [ none ↦ none | some n ↦ f n ]) ≡ some peer
    → (n : ℕ) × (p : Peer) × (o ≡ some n) × (f n ≡ some p) × (p.id ≡ peer)
peer_id-cases none f peer q = absurd (let c : ◌≡◌ {A = Option (List ℕ)} none (some peer) = q in cc)
peer_id-cases (some n) f peer q = elim (Option-cases (f n)) [
  | inl e ↦ absurd (let c : none ≡ some peer = sym (ap peer_id e) ∙ q in cc)
  | inr (p, e) ↦ let same : some p.id ≡ some peer = sym (ap peer_id e) ∙ q in (n, p, refl, e, cc)
]

-- The peer that is found for a target after the refresh is not this node.
found-other :
    (heap : Heap) (t : Topology) (h : Graph) (target peer : List ℕ)
    → IsSound t
    → Same t.graph h
    → ((n : ℕ)
        → mem n (Map.values t.graph.nodes) ≡ true
        → Routed (peer_of t.peers) (search_graph heap t.self t.graph).cost t.graph h n)
    → (let k : Graph = (refresh_nodes t.self (Map.values h.nodes) h).0 in
        peer_id (elim (Map.get (encode_id target) k.nodes) as (λ x. Option Peer) [
          | none ↦ none
          | some n ↦ k.peer n
        ])
        ≡ some peer)
    → peer ≢ t.graph.id t.self
found-other heap t h target peer s same routed q =
    let nodes = Map.values h.nodes in
    let k : Graph = (refresh_nodes t.self nodes h).0 in
    let (n, p, found, via, named) =
      peer_id-cases (Map.get (encode_id target) k.nodes) k.peer peer q in
    let known =
      sym (ap (λ (x : IdMap ℕ). Map.get (encode_id target) x) same.3)
      ∙ refresh_nodes-old t.self nodes n (encode_id target) h found in
    let steady = refresh_nodes-Steady t.self nodes h in
    subst (λ (x : List ℕ). x ≢ t.graph.id t.self) named
      (Routed-other heap t h n p s (routed n (get-mem (encode_id target) n t.graph.nodes known))
        (sym (ap (λ (x : ℕ → Option Peer). x n) steady.1) ∙ via))

-- The routes of a topology in which the invariant holds, and whose routes have changed, never send
-- a message to the node itself, which is what the messaging over them asks for; and those of the
-- topology that the refresh leaves do not either.
pub routes_of-NoSelfPeer :
    (heap : Heap) (t : Topology)
    → IsSound t
    → t.dirty ≡ true
    → NoSelfPeer (routes_of heap t)
      × ((u : Topology) × (effects : List Effect) × (refresh heap t ≡ some (u, effects))
          × NoSelfPeer (routes_of heap u))
unfolding find_peer_for_target refresh IdMap.get
routes_of-NoSelfPeer heap t s d =
    let (h, r, same, routed) =
      calculate_paths-Routed heap (peer_of t.peers) t.self t.graph
        (valid-Known t.self t.graph s.joined.valid)
        (ground (arith, s.joined.direct t.self s.joined.valid.own)) in
    let nodes = Map.values h.nodes in
    let k : Graph = (refresh_nodes t.self nodes h).0 in
    let ids = (refresh_nodes-Steady t.self nodes h).0 ∙ same.1 in
    (
      λ target peer q.
          found-other heap t h target peer s same routed
            (sym (rw (d, r, refresh, find_peer_for_target) refl) ∙ q),
      (
        record t { graph = k; dirty = false },
        (refresh_nodes t.self nodes h).1,
        rw (d, r, refresh) refl,
        λ target peer q.
            subst (λ (id : ℕ → List ℕ). peer ≢ id t.self) (sym ids)
              (found-other heap t h target peer s same routed q),
      ),
    )
