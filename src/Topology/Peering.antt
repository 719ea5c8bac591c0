-- ===== src/Topology/Peering.antt =====
-- Peers that come and go keep the invariant of the topology.
use ataraxia.Base.{
  ℕ, ◌+◌, ◌≡◌, ◌≢◌, refl, sym, ap, subst, ◌∙◌, none, some, Bool, true, false, List, [], ◌∷◌, ◌++◌,
  append-nil, append_assoc, ◌==◌, if◌then◌else◌, All, All-append, arith, Bool-cases, Option-cases,
  inl, inr, bytes_eq, Text,
}
use ataraxia.IdMap
use ataraxia.IdMap.{IdMap}
use ataraxia.Ids.{encode_id}
use ataraxia.Map
use ataraxia.Topology.Graph.{Edge, Peer, Graph, put, get_or_create}
use ataraxia.Topology.Nodes.{
  as_neighbors, clear_outgoing_edges, add_outgoing_edge, add_neighbors, update_self,
  update_self_latencies,
}
use ataraxia.Topology.Valid.{IsValid, get-IsKnown, get_or_create-IsValid}
use ataraxia.Topology.Changing.{
  versions-Goes, clear-Goes, add-Goes, update_self-Goes, update_self_latencies-Goes,
}
use ataraxia.Topology.Routing.{Topology}
use ataraxia.Topology.Handlers.{
  splice_peer, remove_all, peer_array, add_peer, handle_disconnect, gossip_latencies,
}
use ataraxia.Topology.Sound.{IsLinked, IsJoined, IsSound, text, grown-IsJoined, keep-IsLinked}
use ataraxia.Topology.Joining.{peers-IsJoined, no_peers-IsJoined, splice_peer-All, remove_all-Goes}
use ataraxia.Topology.Listing.{mem-IsKnown}
use ataraxia.Topology.Handling.{all-IsKnown, queue_broadcast-IsSound}

abbrev pub none_free : ℕ → Bool
none_free n = false

snoc-IsLinked :
    (nodes : IdMap ℕ) (edges : List Edge) (peers : List Peer) (e : Edge) (p : Peer)
    → IsLinked nodes edges peers
    → Map.get (encode_id p.id) nodes ≡ some e.target
    → IsLinked nodes (edges ++ e ∷ []) (peers ++ p ∷ [])
snoc-IsLinked nodes [] [] e p l q = (q, tt)
snoc-IsLinked nodes [] (x ∷ peers) e p l q = absurd l
snoc-IsLinked nodes (d ∷ edges) [] e p l q = absurd l
snoc-IsLinked nodes (d ∷ edges) (x ∷ peers) e p l q =
    (l.0, snoc-IsLinked nodes edges peers e p l.1 q)

module _ (self : ℕ) (latency : ℕ → ℕ) where
  added-IsLinked :
      (t : Graph) (cost target : ℕ) (old : List Peer) (p : Peer)
      → IsLinked t.nodes (t.outgoing self) old
      → Map.get (encode_id p.id) t.nodes ≡ some target
      → let u = add_outgoing_edge self cost target t in
        IsLinked u.nodes (u.outgoing self) (old ++ p ∷ [])
  unfolding add_outgoing_edge
  added-IsLinked t cost target old p l q =
      let e : Edge = record { source = self; cost = cost; target = target } in
      subst (λ (es : List Edge). IsLinked t.nodes es (old ++ p ∷ []))
        (let f : t.outgoing self ++ e ∷ [] ≡ (add_outgoing_edge self cost target t).outgoing self =
            ground arith in
          f)
        (snoc-IsLinked t.nodes (t.outgoing self) old e p l q)

  cleared-IsLinked :
      (g : Graph)
      → IsLinked
          (clear_outgoing_edges self g).nodes
          ((clear_outgoing_edges self g).outgoing self)
          []
  unfolding clear_outgoing_edges
  cleared-IsLinked g =
      subst (λ (es : List Edge). IsLinked g.nodes es [])
        (let f : [] ≡ (clear_outgoing_edges self g).outgoing self = ground arith in f) tt

  add_neighbors-IsLinked :
      (peers old : List Peer) (g : Graph)
      → IsValid self g
      → IsLinked g.nodes (g.outgoing self) old
      → let h = add_neighbors self (as_neighbors latency peers) g in
        IsLinked h.nodes (h.outgoing self) (old ++ peers)
  unfolding add_neighbors
  add_neighbors-IsLinked [] old g v l =
      subst (IsLinked g.nodes (g.outgoing self)) (sym (append-nil old)) l
  add_neighbors-IsLinked (p ∷ peers) old g v l =
      let (w, k, x, q) = get_or_create-IsValid (λ m. true) self p.id g v in
      let (target, t) = get_or_create p.id g in
      let e : Edge = record { source = self; cost = latency p.number; target = target } in
      let u = add_outgoing_edge self (latency p.number) target t in
      let own = (v.placed (text g self) self v.own).1 in
      let a =
        add-Goes none_free self self refl t (latency p.number) target w (x.known self v.own) k in
      let before : IsLinked t.nodes (t.outgoing self) old =
        subst (λ (es : List Edge). IsLinked t.nodes es old) (sym (x.edges self own refl))
          (keep-IsLinked g.nodes t.nodes (g.outgoing self) old x.keys l) in
      let named : Map.get (encode_id p.id) t.nodes ≡ some target =
        ap (λ (y : Text). Map.get y t.nodes) (sym q) ∙ k in
      let one : IsLinked u.nodes (u.outgoing self) (old ++ p ∷ []) =
        added-IsLinked t (latency p.number) target old p before named in
      subst
        (IsLinked (add_neighbors self (as_neighbors latency peers) u).nodes
          ((add_neighbors self (as_neighbors latency peers) u).outgoing self))
        (append_assoc old (p ∷ []) peers)
        (add_neighbors-IsLinked peers (old ++ p ∷ []) u a.valid one)

  pub latencies-IsLinked :
      (peers : List Peer) (g : Graph)
      → IsValid self g
      → let h = update_self_latencies self latency peers g in
        IsLinked h.nodes (h.outgoing self) peers
  unfolding update_self_latencies
  latencies-IsLinked peers g v =
      let h = clear_outgoing_edges self g in
      let a = clear-Goes none_free self self refl g v in
      add_neighbors-IsLinked peers [] h a.valid (cleared-IsLinked g)

-- When the peers have changed, this node's edges follow.
update_self-IsSound :
    (t : Topology) (latency : ℕ → ℕ)
    → IsJoined t
    → IsSound
        (record t { graph = update_self t.self latency (peer_array (Map.values t.peers)) t.graph })
unfolding update_self
update_self-IsSound t latency s =
    let peers = peer_array (Map.values t.peers) in
    let raised = record t.graph {
      version = put t.self (t.graph.version t.self + 1) t.graph.version;
    } in
    let v =
      versions-Goes none_free t.self t.graph
        (put t.self (t.graph.version t.self + 1) t.graph.version) t.graph.reachable_via s.valid
        (λ m f. cc) in
    record {
      joined =
          grown-IsJoined none_free t (update_self t.self latency peers t.graph) s (
            update_self-Goes none_free t.self t.self refl latency peers t.graph s.valid
              s.valid.own);
      linked = latencies-IsLinked t.self latency peers raised v.valid;
    }

gossip-state :
    (latency : ℕ → ℕ) (choice : ℕ) (t : Topology)
    → (gossip_latencies latency choice t).0 ≡ (
        if Map.size t.peers == 0 then t else record t {
          graph = update_self_latencies t.self latency (peer_array (Map.values t.peers)) t.graph;
        })
unfolding gossip_latencies
gossip-state latency choice t = ground arith

-- The peers under a key that may not be there.
old_peers :
    (id : List ℕ) (t : Topology)
    → IsJoined t
    → All
        (λ (q : Peer). encode_id q.id ≡ encode_id id)
        (elim (IdMap.get id t.peers) as (λ x. List Peer) [ none ↦ [] | some ps ↦ ps ])
unfolding IdMap.get
old_peers id t s = elim (Option-cases (Map.get (encode_id id) t.peers)) [
  | inl q ↦ rw q tt
  | inr (ps, q) ↦ rw q (s.filled (encode_id id) ps q).1
]

snoc_full : (peers : List Peer) (p : Peer) → peers ++ p ∷ [] ≢ []
snoc_full [] p e = cc
snoc_full (q ∷ peers) p e = cc

pub gossip_latencies-IsSound :
    (latency : ℕ → ℕ) (choice : ℕ) (t : Topology)
    → IsSound t
    → IsSound (gossip_latencies latency choice t).0
gossip_latencies-IsSound latency choice t s =
    let peers = peer_array (Map.values t.peers) in
    let own = s.joined.valid.own in
    subst IsSound (sym (gossip-state latency choice t)) (elim (Bool-cases (Map.size t.peers == 0)) [
      | inl q ↦ rw q s
      | inr q ↦ rw q (record {
        joined =
            grown-IsJoined none_free t (update_self_latencies t.self latency peers t.graph) s.joined
              (update_self_latencies-Goes none_free t.self t.self refl latency peers t.graph
                s.joined.valid own);
        linked = latencies-IsLinked t.self latency peers t.graph s.joined.valid;
      })
    ])

pub add_peer-IsSound :
    (latency : ℕ → ℕ) (p : Peer) (t : Topology)
    → IsSound t
    → encode_id p.id ≢ text t.graph t.self
    → IsSound (add_peer latency p t).0
unfolding add_peer
add_peer-IsSound latency p t s other =
    let (v, known, x, named) = get_or_create-IsValid none_free t.self p.id t.graph s.joined.valid in
    let (n, g) = get_or_create p.id t.graph in
    let grown = grown-IsJoined none_free t g s.joined (record { valid = v; extends = x }) in
    let old : List Peer = elim (IdMap.get p.id t.peers) [ none ↦ [] | some ps ↦ ps ] in
    let all : All (λ (q : Peer). encode_id q.id ≡ encode_id p.id) old = old_peers p.id t s.joined in
    let u : Topology = record t {
      graph = record g { direct = put n true g.direct };
      peers = Map.set (encode_id p.id) (old ++ p ∷ []) t.peers;
    } in
    let joined : IsJoined u =
      peers-IsJoined (record t { graph = g }) grown n (encode_id p.id) known named
        (λ e. other (
          e
          ∙ ap encode_id (
              x.ids t.self
                (s.joined.valid.placed (text t.graph t.self) t.self s.joined.valid.own).1)))
        (old ++ p ∷ []) (put n true g.direct) (ground arith) (λ m d. ground (arith, d))
        (snoc_full old p)
        (All-append (λ (q : Peer). encode_id q.id ≡ encode_id p.id) old (p ∷ []) all (refl, tt)) in
    queue_broadcast-IsSound true
      (record u { graph = update_self t.self latency (peer_array (Map.values u.peers)) u.graph })
      (update_self-IsSound u latency joined)

-- Where other peers of a node are left.
parted-IsSound :
    (latency : ℕ → ℕ) (p : Peer) (t : Topology) (q : Peer) (old rest : List Peer)
    → IsSound t
    → encode_id p.id ≢ text t.graph t.self
    → Map.get (encode_id p.id) t.peers ≡ some old
    → All (λ (r : Peer). encode_id r.id ≡ encode_id p.id) (q ∷ rest)
    → let peers = Map.set (encode_id p.id) (q ∷ rest) t.peers in
      IsSound (record t {
        peers = peers;
        graph = update_self t.self latency (peer_array (Map.values peers)) t.graph;
      })
parted-IsSound latency p t q old rest s other has all =
    let (n, e) = s.joined.peered (encode_id p.id) old has in
    let named = (s.joined.valid.placed (encode_id p.id) n e).0 in
    let known = get-IsKnown t.self t.graph (encode_id p.id) n s.joined.valid e in
    let on : t.graph.direct n ≡ true =
      ground
        (arith, s.joined.direct n known, named, Map.has_of_some (encode_id p.id) old t.peers has) in
    let u : Topology = record t { peers = Map.set (encode_id p.id) (q ∷ rest) t.peers } in
    let joined : IsJoined u =
      peers-IsJoined t s.joined n (encode_id p.id) known named other (q ∷ rest) t.graph.direct on
        (λ m d. refl) (λ f. cc) all in
    update_self-IsSound u latency joined

-- Where the last peer of a node is gone.
last_gone-IsSound :
    (latency : ℕ → ℕ) (p : Peer) (t : Topology)
    → IsSound t
    → encode_id p.id ≢ text t.graph t.self
    → let peers = Map.delete (encode_id p.id) t.peers in
      let (n, g) = get_or_create p.id t.graph in
      let h = record g { direct = put n false g.direct } in
      IsSound (record t {
        peers = peers;
        graph =
            update_self t.self latency
              (peer_array (Map.values peers))
              (remove_all p (Map.values h.nodes) h);
      })
last_gone-IsSound latency p t s other =
    let (v, known, x, named) = get_or_create-IsValid none_free t.self p.id t.graph s.joined.valid in
    let own = (s.joined.valid.placed (text t.graph t.self) t.self s.joined.valid.own).1 in
    let (n, g) = get_or_create p.id t.graph in
    let grown = grown-IsJoined none_free t g s.joined (record { valid = v; extends = x }) in
    let u : Topology = record t {
      graph = record g { direct = put n false g.direct };
      peers = Map.delete (encode_id p.id) t.peers;
    } in
    let joined : IsJoined u =
      no_peers-IsJoined (record t { graph = g }) grown n (encode_id p.id) known named
        (λ e. other (e ∙ ap encode_id (x.ids t.self own))) in
    let known =
      all-IsKnown t.self u.graph (Map.values u.graph.nodes)
        (λ m k. mem-IsKnown t.self m u.graph joined.valid k) in
    let removed = remove_all p (Map.values u.graph.nodes) u.graph in
    let a =
      remove_all-Goes none_free t.self p (Map.values u.graph.nodes) u.graph (λ m. refl) joined.valid
        known in
    update_self-IsSound (record u { graph = removed }) latency
      (grown-IsJoined none_free u removed joined a)

pub handle_disconnect-IsSound :
    (latency : ℕ → ℕ) (p : Peer) (t : Topology)
    → IsSound t
    → encode_id p.id ≢ text t.graph t.self
    → IsSound (handle_disconnect latency p t).0
unfolding handle_disconnect IdMap.get IdMap.set IdMap.delete
handle_disconnect-IsSound latency p t s other =
    elim (Option-cases (Map.get (encode_id p.id) t.peers)) [
      | inl q ↦ rw (q, handle_disconnect) s
      | inr (ps, q) ↦ elim (Option-cases (splice_peer p.number ps)) [
        | inl f ↦ rw (q, f, handle_disconnect) s
        | inr ([], f) ↦
            let (n, g) = get_or_create p.id t.graph in
            let h = record g { direct = put n false g.direct } in
            let peers = Map.delete (encode_id p.id) t.peers in
            rw (q, f, handle_disconnect)
              (queue_broadcast-IsSound true
                (record t {
                  peers = peers;
                  graph =
                      update_self t.self latency (peer_array (Map.values peers))
                        (remove_all p (Map.values h.nodes) h);
                })
                (last_gone-IsSound latency p t s other))
        | inr (r ∷ rest, f) ↦
            let peers = Map.set (encode_id p.id) (r ∷ rest) t.peers in
            let all =
              splice_peer-All (λ (r : Peer). encode_id r.id ≡ encode_id p.id) p.number ps (r ∷ rest)
                f (s.joined.filled (encode_id p.id) ps q).1 in
            rw (q, f, handle_disconnect)
              (queue_broadcast-IsSound true
                (record t {
                  peers = peers;
                  graph = update_self t.self latency (peer_array (Map.values peers)) t.graph;
                })
                (parted-IsSound latency p t r ps rest s other q all))
      ]
    ]
