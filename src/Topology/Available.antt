-- ===== src/Topology/Available.antt =====
-- Which nodes are available after the paths have been calculated.
use ataraxia.Base.{
  ℕ, ◌+◌, ◌<◌, ◌≤◌, ◌≡◌, refl, sym, ap, subst, ◌∙◌, some, true, false, List, [], ◌∷◌, ◌==◌, All,
  arith, Bool-cases, inl, inr, bytes_eq,
}
use ataraxia.Map
use ataraxia.Topology.Graph.{Edge, Peer, Graph}
use ataraxia.Topology.Search.{Heap, search_graph, max_safe_integer}
use ataraxia.Topology.Relaxing.{Among}
use ataraxia.Topology.Ways.{IsWay, Among-IsRelaxed}
use ataraxia.Topology.Paths.{Ended, search_graph-Ended, Ended-mem}
use ataraxia.Topology.Routes.{Routed}
use ataraxia.Topology.Valid.{IsKnown}
use ataraxia.Topology.Listing.{get-mem, mem-IsKnown, valid-Known}
use ataraxia.Topology.Routing.{Topology, peer_of}
use ataraxia.Topology.Sound.{IsSound, text}
use ataraxia.Topology.Linking.{direct-peer, edge-direct}
use ataraxia.Topology.Dropping.{is_available}

-- One more edge keeps the cost of a node that was reached below the greatest number.
abbrev pub IsBounded : (ℕ → ℕ) → Graph → Type 0
IsBounded cost g =
    (n : ℕ) (e : Edge)
    → cost n < max_safe_integer
    → Among e (g.outgoing n)
    → cost n + e.cost < max_safe_integer

module _ (heap : Heap) (t : Topology) (s : IsSound t)
    (bound : IsBounded (search_graph heap t.self t.graph).cost t.graph) where
  costs : ℕ → ℕ
  costs = (search_graph heap t.self t.graph).cost

  ended :
      Ended t.graph.outgoing (Map.values t.graph.nodes) t.self (search_graph heap t.self t.graph)
  ended = search_graph-Ended heap t.self t.graph (valid-Known t.self t.graph s.joined.valid)

  -- An edge from a node that was reached leads to one that was.
  pub edge-reached :
      (n : ℕ) (e : Edge)
      → IsKnown t.graph n
      → Among e (t.graph.outgoing n)
      → (search_graph heap t.self t.graph).cost n < max_safe_integer
      → (search_graph heap t.self t.graph).cost e.target < max_safe_integer
  edge-reached n e k a l =
      let all =
        Ended-mem heap t.graph.outgoing (Map.values t.graph.nodes) t.self
          (search_graph heap t.self t.graph) ended in
      let relaxed = ended.all_relaxed n (all n (get-mem (text t.graph n) n t.graph.nodes k)) in
      omega (
        arith,
        Among-IsRelaxed (search_graph heap t.self t.graph).cost n e (t.graph.outgoing n) a relaxed,
        bound n e l a,
      )

  pub direct-reached :
      (n : ℕ)
      → IsKnown t.graph n
      → t.graph.direct n ≡ true
      → (search_graph heap t.self t.graph).cost n < max_safe_integer
  direct-reached n k d = elim (Bool-cases (n == t.self)) [
    | inl same ↦ ground (arith, same, ended.sound.source)
    | inr other ↦
        let (p, q, e, a, f) = direct-peer t s n k d other in
        subst (λ m. (search_graph heap t.self t.graph).cost m < max_safe_integer) f
          (edge-reached t.self e s.joined.valid.own a (ground (arith, ended.sound.source)))
  ]

  -- A way from this node with no direct node after it is no way.
  plain-self :
      (edges : List Edge) (n : ℕ)
      → IsWay t.graph.outgoing t.self edges n
      → All (λ (e : Edge). t.graph.direct e.target ≡ false) edges
      → n ≡ t.self
  plain-self [] n w p = sym w
  plain-self (e ∷ edges) n w p =
      absurd (let c : false ≡ true = sym p.0 ∙ edge-direct t s e w.0 in cc)

  self-direct : t.graph.direct t.self ≡ true
  self-direct = ground (arith, s.joined.direct t.self s.joined.valid.own)

  peer_available :
      (h : Graph) (n : ℕ) (p : Peer) → h.peer n ≡ some p → is_available t.self h n ≡ true
  peer_available h n p q = rw (q, is_available) refl

  module _ (h : Graph) (n : ℕ) (k : IsKnown t.graph n)
      (r : Routed (peer_of t.peers) (search_graph heap t.self t.graph).cost t.graph h n) where
    -- A node that was reached is available,
    pub reached-is_available :
        (search_graph heap t.self t.graph).cost n < max_safe_integer
        → is_available t.self h n ≡ true
    reached-is_available l = elim (Bool-cases (n == t.self)) [
      | inl same ↦ ground (arith, same)
      | inr other ↦ elim (Bool-cases (t.graph.direct n)) [
        | inl d ↦
            let (p, q, e, a, f) = direct-peer t s n k d other in
            peer_available h n p (r.to_direct d ∙ q)
        | inr d ↦
            let (m, dm, known, q, b, plain) = r.by_way d l in
            let km = mem-IsKnown t.self m t.graph s.joined.valid known in
            elim (Bool-cases (m == t.self)) [
              | inl self ↦ absurd (
                  let e : m ≡ t.self = ground (arith, self) in
                  let w = subst (λ x. IsWay t.graph.outgoing x b.edges n) e b.is_way in
                  let c : n ≡ t.self = plain-self b.edges n w plain in
                  let f : false ≡ true = sym d ∙ ap t.graph.direct c ∙ self-direct in cc)
              | inr o ↦
                  let (p, q', e, a, f) = direct-peer t s m km dm o in peer_available h n p (q ∙ q')
            ]
      ]
    ]

    -- and no other one is.
    pub unreached-is_available :
        max_safe_integer ≤ (search_graph heap t.self t.graph).cost n
        → is_available t.self h n ≡ false
    unreached-is_available l = elim (Bool-cases (t.graph.direct n)) [
      | inl d ↦ absurd (omega (arith, l, direct-reached n k d))
      | inr d ↦
          let other : n == t.self ≡ false = elim (Bool-cases (n == t.self)) [
            | inr o ↦ o
            | inl same ↦ absurd (
                let e : n ≡ t.self = ground (arith, same) in
                let f : false ≡ true = sym d ∙ ap t.graph.direct e ∙ self-direct in cc)
          ] in
          rw ((r.lost d l).0, is_available) other
    ]
