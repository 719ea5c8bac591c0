-- ===== src/Topology/Changing.antt =====
-- The methods of TopologyNode.ts keep the invariant of the graph.
use ataraxia.Base.{
  ℕ, ◌+◌, ◌≡◌, refl, subst, Bool, true, false, not, List, [], ◌∷◌, ◌++◌, ◌==◌, ◌&&◌, ltb, All,
  All-append, arith, Bool-cases, inl, inr, bytes_eq,
}
use ataraxia.Codec.{NodeRoutingDetails, NodeWithLatency}
use ataraxia.IdMap
use ataraxia.IdMap.{IdSet}
use ataraxia.Ids.{encode_id}
use ataraxia.Map
use ataraxia.Topology.Graph.{Edge, Peer, Graph, put, get_or_create}
use ataraxia.Topology.Nodes.{
  clear_outgoing_edges, add_outgoing_edge, add_neighbors, update_routing, remove_routing,
  update_self, update_self_latencies, as_neighbors,
}
use ataraxia.Topology.Valid.{
  IsKnown, IsValid, Extends, refl-Extends, trans-Extends, get_or_create-IsValid,
}

-- What an operation gives: a valid graph, with what was known before.
pub record Goes (free : ℕ → Bool) (self : ℕ) (g h : Graph) : Type 0 where
  pub valid : IsValid self h
  pub extends : Extends free g h

module _ (free : ℕ → Bool) (self : ℕ) where
  -- Other versions, for objects that are not free, and other peers that they are reached by.
  pub versions-Goes :
      (g : Graph) (version : ℕ → ℕ) (via : ℕ → IdSet)
      → IsValid self g
      → ((m : ℕ) → free m ≡ true → version m ≡ g.version m)
      → Goes free self g (record g { version = version; reachable_via = via })
  versions-Goes g version via v same = record {
    valid = record { once = v.once; placed = v.placed; own = v.own; closed = v.closed };
    extends = record {
      keys = λ key m q. q;
      known = λ m k. k;
      back = λ m l k. k;
      fresh = λ m l k. absurd (omega (arith, l, (v.placed (encode_id (g.id m)) m k).1));
      ids = λ m l. refl;
      directs = λ m l. refl;
      edges = λ m l f. refl;
      versions = λ m l f. same m f;
      later = omega arith;
    };
  }

  pub then-Goes : (g h k : Graph) → Goes free self g h → Goes free self h k → Goes free self g k
  then-Goes g h k a b = record {
    valid = b.valid;
    extends = trans-Extends free g h k a.extends b.extends;
  }

  pub keep-IsKnown :
      (g h : Graph) (nodes : List ℕ)
      → Goes free self g h
      → All (IsKnown g) nodes
      → All (IsKnown h) nodes
  keep-IsKnown g h [] a k = tt
  keep-IsKnown g h (n ∷ nodes) a k = (a.extends.known n k.0, keep-IsKnown g h nodes a k.1)

  module _ (n : ℕ) (changes : free n ≡ false) where
    -- Other edges for one node, which lead to known nodes.
    edges-Goes :
        (g : Graph) (edges : List Edge) (incoming : ℕ → List Edge)
        → IsValid self g
        → All (λ (e : Edge). IsKnown g e.target) edges
        → Goes free self g (record g { outgoing = put n edges g.outgoing; incoming = incoming })
    edges-Goes g edges incoming v a = record {
      valid = record {
        once = v.once;
        placed = v.placed;
        own = v.own;
        closed = λ m k. elim (Bool-cases (m == n)) [
          | inl same ↦
              subst (All (λ (e : Edge). IsKnown g e.target))
                (let q : edges ≡ put n edges g.outgoing m = ground (arith, same) in q) a
          | inr other ↦
              subst (All (λ (e : Edge). IsKnown g e.target))
                (let q : g.outgoing m ≡ put n edges g.outgoing m = ground (arith, other) in q)
                (v.closed m k)
        ];
      };
      extends = record {
        keys = λ key m q. q;
        known = λ m k. k;
        back = λ m l k. k;
        fresh = λ m l k. absurd (omega (arith, l, (v.placed (encode_id (g.id m)) m k).1));
        ids = λ m l. refl;
        directs = λ m l. refl;
        edges = λ m l f. ground (arith, changes, f);
        versions = λ m l f. refl;
        later = omega arith;
      };
    }

    pub clear-Goes : (g : Graph) → IsValid self g → Goes free self g (clear_outgoing_edges n g)
    unfolding clear_outgoing_edges
    clear-Goes g v = edges-Goes g [] (clear_outgoing_edges n g).incoming v tt

    pub add-Goes :
        (g : Graph) (cost target : ℕ)
        → IsValid self g
        → IsKnown g n
        → IsKnown g target
        → Goes free self g (add_outgoing_edge n cost target g)
    unfolding add_outgoing_edge
    add-Goes g cost target v here k =
        edges-Goes g (g.outgoing n ++ record { source = n; cost = cost; target = target } ∷ [])
          (add_outgoing_edge n cost target g).incoming v
          (All-append (λ (e : Edge). IsKnown g e.target) (g.outgoing n)
            (record { source = n; cost = cost; target = target } ∷ []) (v.closed n here) (k, tt))

    pub add_neighbors-Goes :
        (neighbors : List NodeWithLatency) (g : Graph)
        → IsValid self g
        → IsKnown g n
        → Goes free self g (add_neighbors n neighbors g)
    unfolding add_neighbors
    add_neighbors-Goes [] g v here = record { valid = v; extends = refl-Extends free self g v }
    add_neighbors-Goes (neighbor ∷ neighbors) g v here =
        let (w, k, x, q) = get_or_create-IsValid free self neighbor.id g v in
        let (target, t) = get_or_create neighbor.id g in
        let a = add-Goes t neighbor.latency target w (x.known n here) k in
        let u = add_outgoing_edge n neighbor.latency target t in
        let rest = add_neighbors-Goes neighbors u a.valid (a.extends.known n (x.known n here)) in
        record {
          valid = rest.valid;
          extends =
              trans-Extends free g t (add_neighbors n neighbors u) x
                (trans-Extends free t u (add_neighbors n neighbors u) a.extends rest.extends);
        }

    pub update_routing-Goes :
        (p : Peer) (details : NodeRoutingDetails) (g : Graph)
        → IsValid self g
        → IsKnown g n
        → Goes free self g (update_routing n p details g).1
    unfolding update_routing
    update_routing-Goes p details g v here =
        let via = put n (IdMap.add p.id (g.reachable_via n)) g.reachable_via in
        let reached = record g { reachable_via = via } in
        let a = versions-Goes g g.version via v (λ m f. refl) in
        let cleared = clear_outgoing_edges n reached in
        let b = clear-Goes reached a.valid in
        let ab = then-Goes g reached cleared a b in
        let h = add_neighbors n details.neighbors cleared in
        let c = add_neighbors-Goes details.neighbors cleared b.valid (ab.extends.known n here) in
        let abc = then-Goes g cleared h ab c in
        elim (Bool-cases (ltb (h.version n) details.version)) [
          | inl l ↦ rw l (
              then-Goes g h (record h { version = put n details.version h.version }) abc
                (versions-Goes h (put n details.version h.version) h.reachable_via abc.valid
                  (λ m f. ground (arith, changes, f))))
          | inr l ↦ rw l abc
        ]

    pub remove_routing-Goes :
        (p : Peer) (g : Graph)
        → IsValid self g
        → IsKnown g n
        → Goes free self g (remove_routing n p g).1
    unfolding remove_routing
    remove_routing-Goes p g v here =
        let via = IdMap.remove p.id (g.reachable_via n) in
        let h = record g { reachable_via = put n via g.reachable_via } in
        let low = record h { version = put n 0 h.version } in
        let a = versions-Goes g g.version (put n via g.reachable_via) v (λ m f. refl) in
        let b =
          versions-Goes g (put n 0 g.version) (put n via g.reachable_via) v
            (λ m f. ground (arith, changes, f)) in
        let c = then-Goes g low (clear_outgoing_edges n low) b (clear-Goes low b.valid) in
        elim (Bool-cases (IdMap.has p.id (g.reachable_via n))) [
          | inl l ↦ elim (Bool-cases (not (g.direct n) && Map.size via == 0)) [
            | inl d ↦ rw (l, d) c
            | inr d ↦ rw (l, d) a
          ]
          | inr l ↦ rw l (record { valid = v; extends = refl-Extends free self g v })
        ]

    pub update_self_latencies-Goes :
        (latency : ℕ → ℕ) (peers : List Peer) (g : Graph)
        → IsValid self g
        → IsKnown g n
        → Goes free self g (update_self_latencies n latency peers g)
    unfolding update_self_latencies
    update_self_latencies-Goes latency peers g v here =
        let cleared = clear_outgoing_edges n g in
        let a = clear-Goes g v in
        then-Goes g cleared (update_self_latencies n latency peers g) a
          (add_neighbors-Goes (as_neighbors latency peers) cleared a.valid (a.extends.known n here))

    pub update_self-Goes :
        (latency : ℕ → ℕ) (peers : List Peer) (g : Graph)
        → IsValid self g
        → IsKnown g n
        → Goes free self g (update_self n latency peers g)
    unfolding update_self update_self_latencies
    update_self-Goes latency peers g v here =
        let h = record g { version = put n (g.version n + 1) g.version } in
        let a =
          versions-Goes g (put n (g.version n + 1) g.version) g.reachable_via v
            (λ m f. ground (arith, changes, f)) in
        then-Goes g h (update_self n latency peers g) a
          (update_self_latencies-Goes latency peers h a.valid (a.extends.known n here))
