-- ===== src/Topology/Refreshing.antt =====
-- What refresh of Routing.ts does to a topology in which the invariant holds.
use ataraxia.Base.{
  ℕ, ◌<◌, ◌≡◌, ◌↔◌, refl, sym, ap, subst, ◌∙◌, none, some, true, false, List, [], ◌∷◌, All, arith,
  inl, inr, bytes_eq, Text,
}
use ataraxia.IdMap.{IdMap}
use ataraxia.Ids.{encode_id}
use ataraxia.Map
use ataraxia.Map.Once.{HasKeysOnce}
use ataraxia.Topology.Graph.{Edge, Peer, Graph}
use ataraxia.Topology.Search.{Heap, search_graph, max_safe_integer}
use ataraxia.Topology.Entries.{mem}
use ataraxia.Topology.Relaxing.{Among}
use ataraxia.Topology.Ways.{IsWay, total}
use ataraxia.Topology.Paths.{search_graph-IsShortest}
use ataraxia.Topology.Routes.{Same, Routed, calculate_paths-Routed}
use ataraxia.Topology.Valid.{IsKnown, IsValid, get-IsKnown, lt-cases}
use ataraxia.Topology.Listing.{get-mem, mem-IsKnown, valid-Known}
use ataraxia.Topology.Handling.{all-IsKnown}
use ataraxia.Topology.Routing.{Topology, Effect, peer_of, refresh, refresh_nodes}
use ataraxia.Topology.Handlers.{peer_array}
use ataraxia.Topology.Sound.{IsSound, IsLinked, text}
use ataraxia.Topology.Dropping.{
  refresh_nodes-Steady, refresh_nodes-HasKeysOnce, refresh_nodes-old, refresh_nodes-stays,
  refresh_nodes-goes,
}
use ataraxia.Topology.Available.{
  IsBounded, edge-reached, direct-reached, reached-is_available, unreached-is_available,
}

-- The known nodes after a refresh: those that a way from this node leads to.
abbrev pub KeepsReached : Topology → Topology → Type 0
KeepsReached t u =
    (n : ℕ)
    → IsKnown t.graph n
    → (Map.get (text t.graph n) u.graph.nodes ≡ some n) ↔ (
        (edges : List Edge) × IsWay t.graph.outgoing t.self edges n
        × (total edges < max_safe_integer))

-- The invariant looks at these fields only.
same_fields-IsSound :
    (t : Topology) (g h : Graph)
    → h.id ≡ g.id
    → h.outgoing ≡ g.outgoing
    → h.direct ≡ g.direct
    → h.next ≡ g.next
    → h.nodes ≡ g.nodes
    → IsSound (record t { graph = g })
    → IsSound (record t { graph = h })
same_fields-IsSound t g h a b c d e s =
    let direct : IsSound (record t {
      graph = record h {
        id = g.id;
        outgoing = g.outgoing;
        direct = g.direct;
        next = g.next;
        nodes = g.nodes;
      };
    }) =
      record {
        joined = record {
          valid = record {
            once = s.joined.valid.once;
            placed = s.joined.valid.placed;
            own = s.joined.valid.own;
            closed = s.joined.valid.closed;
          };
          direct = s.joined.direct;
          peered = s.joined.peered;
          filled = s.joined.filled;
          peers_once = s.joined.peers_once;
          alone = s.joined.alone;
        };
        linked = s.linked;
      } in
    let same : record h {
      id = g.id;
      outgoing = g.outgoing;
      direct = g.direct;
      next = g.next;
      nodes = g.nodes;
    }
        ≡ h =
      λ i. record h {
        id = sym a i;
        outgoing = sym b i;
        direct = sym c i;
        next = sym d i;
        nodes = sym e i;
      } in
    subst (λ (k : Graph). IsSound (record t { graph = k })) same direct

module _ (heap : Heap) (t : Topology) (s : IsSound t)
    (bound : IsBounded (search_graph heap t.self t.graph).cost t.graph) (h : Graph)
    (same : Same t.graph h)
    (routed : (n : ℕ)
      → mem n (Map.values t.graph.nodes) ≡ true
      → Routed (peer_of t.peers) (search_graph heap t.self t.graph).cost t.graph h n) where
  after : Graph
  after = (refresh_nodes t.self (Map.values t.graph.nodes) h).0

  ids : after.id ≡ t.graph.id
  unfolding after
  ids = (refresh_nodes-Steady t.self (Map.values t.graph.nodes) h).0 ∙ same.1

  old : (key : Text) (n : ℕ) → Map.get key after.nodes ≡ some n → Map.get key t.graph.nodes ≡ some n
  unfolding after
  old key n q =
      ap (λ (x : IdMap ℕ). Map.get key x) (sym same.3)
      ∙ refresh_nodes-old t.self (Map.values t.graph.nodes) n key h q

  -- A node that was reached stays,
  stays :
      (n : ℕ)
      → IsKnown t.graph n
      → (search_graph heap t.self t.graph).cost n < max_safe_integer
      → Map.get (text t.graph n) after.nodes ≡ some n
  unfolding after
  stays n k l =
      let known =
        all-IsKnown t.self t.graph (Map.values t.graph.nodes)
          (λ m a. mem-IsKnown t.self m t.graph s.joined.valid a) in
      refresh_nodes-stays t.self (Map.values t.graph.nodes) n (text t.graph n) t.graph.nodes h
        (subst
          (λ (id : ℕ → List ℕ).
            All (λ m. Map.get (encode_id (id m)) t.graph.nodes ≡ some m) (Map.values t.graph.nodes))
          (sym same.1) known)
        k
        (reached-is_available heap t s bound h n k
          (routed n (get-mem (text t.graph n) n t.graph.nodes k)) l)
        (ap (λ (x : IdMap ℕ). Map.get (text t.graph n) x) same.3 ∙ k)

  -- and no other one does.
  reached :
      (n : ℕ)
      → Map.get (text t.graph n) after.nodes ≡ some n
      → (search_graph heap t.self t.graph).cost n < max_safe_integer
  unfolding after
  reached n q = elim (lt-cases ((search_graph heap t.self t.graph).cost n) max_safe_integer) [
    | inl l ↦ l
    | inr l ↦
        let k = old (text t.graph n) n q in
        let a = get-mem (text t.graph n) n t.graph.nodes k in
        let out = unreached-is_available heap t s bound h n k (routed n a) l in
        let gone = refresh_nodes-goes t.self (Map.values t.graph.nodes) n h a out in
        let name : text h n ≡ text t.graph n = ap (λ (id : ℕ → List ℕ). encode_id (id n)) same.1 in
        absurd (
          let c : none ≡ some n = sym gone ∙ ap (λ (y : Text). Map.get y after.nodes) name ∙ q in
          cc)
  ]

  closed_edges :
      (n : ℕ) (edges : List Edge)
      → ((e : Edge) → Among e edges → Among e (t.graph.outgoing n))
      → IsKnown t.graph n
      → (search_graph heap t.self t.graph).cost n < max_safe_integer
      → All (λ (e : Edge). IsKnown t.graph e.target) edges
      → All (λ (e : Edge). Map.get (text t.graph e.target) after.nodes ≡ some e.target) edges
  closed_edges n [] f k l a = tt
  closed_edges n (e ∷ edges) f k l a = (
    stays e.target a.0 (edge-reached heap t s bound n e k (f e (inl refl)) l),
    closed_edges n edges (λ d b. f d (inr b)) k l a.1,
  )

  -- The edges of this node lead to nodes that stay.
  IsLinked-edges :
      (edges : List Edge) (peers : List Peer)
      → All (λ (e : Edge). Map.get (text t.graph e.target) after.nodes ≡ some e.target) edges
      → IsLinked t.graph.nodes edges peers
      → IsLinked after.nodes edges peers
  IsLinked-edges [] [] a l = tt
  IsLinked-edges [] (p ∷ peers) a l = l
  IsLinked-edges (e ∷ edges) [] a l = l
  IsLinked-edges (e ∷ edges) (p ∷ peers) a l =
      let named = (s.joined.valid.placed (encode_id p.id) e.target l.0).0 in
      (
        ap (λ (y : Text). Map.get y after.nodes) (sym named) ∙ a.0,
        IsLinked-edges edges peers a.1 l.1,
      )

  self_reached : (search_graph heap t.self t.graph).cost t.self < max_safe_integer
  self_reached =
      direct-reached heap t s bound t.self s.joined.valid.own
        (ground (arith, s.joined.direct t.self s.joined.valid.own))

  kept : Graph
  kept = record t.graph { nodes = after.nodes }

  kept-IsValid : IsValid t.self kept
  unfolding kept after
  kept-IsValid = record {
    once =
        refresh_nodes-HasKeysOnce t.self (Map.values t.graph.nodes) h
          (subst HasKeysOnce (sym same.3) s.joined.valid.once);
    placed = λ key n q. s.joined.valid.placed key n (old key n q);
    own = stays t.self s.joined.valid.own self_reached;
    closed = λ n q.
        (let k = old (text t.graph n) n q in
          closed_edges n (t.graph.outgoing n) (λ e a. a) k (reached n q)
            (s.joined.valid.closed n k));
  }

  kept-IsSound : IsSound (record t { graph = kept; dirty = false })
  unfolding kept
  kept-IsSound = record {
    joined = record {
      valid = kept-IsValid;
      direct = λ n q. s.joined.direct n (old (text t.graph n) n q);
      peered = λ key peers q.
          (let (n, k) = s.joined.peered key peers q in
            let (named, l) = s.joined.valid.placed key n k in
            let known = get-IsKnown t.self t.graph key n s.joined.valid k in
            let d : t.graph.direct n ≡ true =
              ground (arith, s.joined.direct n known, named, Map.has_of_some key peers t.peers q) in
            (
              n,
              ap (λ (y : Text). Map.get y after.nodes) (sym named)
                  ∙ stays n known (direct-reached heap t s bound n known d),
            ));
      filled = s.joined.filled;
      peers_once = s.joined.peers_once;
      alone = s.joined.alone;
    };
    linked =
        IsLinked-edges (t.graph.outgoing t.self) (peer_array (Map.values t.peers))
          (closed_edges t.self (t.graph.outgoing t.self) (λ e a. a) s.joined.valid.own self_reached
            (s.joined.valid.closed t.self s.joined.valid.own))
          s.linked;
  }

  after-IsSound : IsSound (record t { graph = after; dirty = false })
  unfolding kept after
  after-IsSound =
      let (a, b, c, d, e, f) = refresh_nodes-Steady t.self (Map.values t.graph.nodes) h in
      same_fields-IsSound (record t { dirty = false }) kept after (a ∙ same.1) (c ∙ same.2)
        (d ∙ same.0) (e ∙ same.4) refl kept-IsSound

  after-KeepsReached : KeepsReached t (record t { graph = after; dirty = false })
  after-KeepsReached n k =
      let w =
        search_graph-IsShortest heap t.self t.graph (valid-Known t.self t.graph s.joined.valid) in
      (
        λ q.
            (let b = w.found n (get-mem (text t.graph n) n t.graph.nodes k) (reached n q) in
              (b.edges, b.is_way, omega (arith, b.length_of, reached n q))),
        λ r. (let (edges, way, l) = r in stays n k (omega (arith, w.least n edges way, l))),
      )

-- A refresh of routes that have changed throws nothing and keeps the invariant, and afterwards
-- exactly those nodes are known, of the ones before, that a way shorter than the greatest number
-- leads to from this node. One more edge keeps the cost of a reached node below that number.
pub refresh-KeepsReached :
    (heap : Heap) (t : Topology)
    → IsSound t
    → IsBounded (search_graph heap t.self t.graph).cost t.graph
    → t.dirty ≡ true
    → (u : Topology) × (effects : List Effect) × (refresh heap t ≡ some (u, effects))
      × IsSound u
      × KeepsReached t u
unfolding refresh after
refresh-KeepsReached heap t s bound d =
    let (h, q, same, routed) =
      calculate_paths-Routed heap (peer_of t.peers) t.self t.graph
        (valid-Known t.self t.graph s.joined.valid)
        (ground (arith, s.joined.direct t.self s.joined.valid.own)) in
    let nodes = Map.values t.graph.nodes in
    (
      record t { graph = (refresh_nodes t.self nodes h).0; dirty = false },
      (refresh_nodes t.self nodes h).1,
      rw (d, q, refresh)
          (ap
            (λ (m : IdMap ℕ). some (
              record t { graph = (refresh_nodes t.self (Map.values m) h).0; dirty = false },
              (refresh_nodes t.self (Map.values m) h).1,
            ))
            same.3),
      after-IsSound heap t s bound h same routed,
      after-KeepsReached heap t s bound h same routed,
    )
