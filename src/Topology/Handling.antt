-- ===== src/Topology/Handling.antt =====
-- What the handlers of Topology.ts do to the invariant, where they leave the peers as they are.
use ataraxia.Base.{
  ℕ, ◌≡◌, none, some, Bool, true, false, not, List, [], ◌∷◌, ◌++◌, ◌==◌, ◌||◌, ◌&&◌, ltb,
  if◌then◌else◌, All, arith, Bool-cases, Option-cases, inl, inr, bytes_eq,
}
use ataraxia.Codec.{NodeRoutingSummary, NodeRoutingDetails}
use ataraxia.IdMap
use ataraxia.IdMap.{IdMap, IdSet}
use ataraxia.Map
use ataraxia.Topology.Graph.{Peer, Graph, get_or_create}
use ataraxia.Topology.Nodes.{update_routing, remove_routing}
use ataraxia.Topology.Entries.{mem}
use ataraxia.Topology.Valid.{IsKnown, IsValid, refl-Extends, get_or_create-IsValid}
use ataraxia.Topology.Listing.{mem-IsKnown}
use ataraxia.Topology.Changing.{
  Goes, then-Goes, keep-IsKnown, update_routing-Goes, remove_routing-Goes,
}
use ataraxia.Topology.Routing.{Topology}
use ataraxia.Topology.Handlers.{
  compare_summaries, remove_unfound, update_nodes, queue_broadcast, handle_node_summary,
  handle_node_details,
}
use ataraxia.Topology.Sound.{IsSound, only, grown-IsSound, flags-IsJoined}

module _ (self : ℕ) where
  pub refl-Goes : (g : Graph) → IsValid self g → Goes (only self) self g g
  refl-Goes g v = record { valid = v; extends = refl-Extends (only self) self g v }

  pub create-Goes :
      (id : List ℕ) (g : Graph) → IsValid self g → Goes (only self) self g (get_or_create id g).1
  create-Goes id g v =
      let (w, k, x, q) = get_or_create-IsValid (only self) self id g v in
      record { valid = w; extends = x }

  compare_summaries-Goes :
      (nodes : List NodeRoutingSummary) (g : Graph) (found : IdSet) (ids : List (List ℕ))
      → IsValid self g
      → Goes (only self) self g (compare_summaries nodes g found ids).0
  unfolding compare_summaries
  compare_summaries-Goes [] g found ids v = refl-Goes g v
  compare_summaries-Goes (s ∷ nodes) g found ids v =
      let a = create-Goes s.id g v in
      let (n, h) = get_or_create s.id g in
      let more = if ltb (h.version n) s.version then ids ++ s.id ∷ [] else ids in
      then-Goes (only self) self g h (compare_summaries nodes h (IdMap.add s.id found) more).0 a
        (compare_summaries-Goes nodes h (IdMap.add s.id found) more a.valid)

  -- One node of a loop that removes a peer from nodes.
  remove_one-Goes :
      (p : Peer) (skip : Bool) (n : ℕ) (g : Graph)
      → IsValid self g
      → IsKnown g n
      → (n == self ≡ true → skip ≡ true)
      → Goes (only self) self g (if skip then (false, g) else remove_routing n p g).1
  remove_one-Goes p skip n g v k own = elim (Bool-cases skip) [
    | inl s ↦ rw s (refl-Goes g v)
    | inr s ↦ rw s (remove_routing-Goes (only self) self n (ground (arith, own, s)) p g v k)
  ]

  pub all-IsKnown :
      (g : Graph) (nodes : List ℕ)
      → ((n : ℕ) → mem n nodes ≡ true → IsKnown g n)
      → All (IsKnown g) nodes
  all-IsKnown g [] k = tt
  all-IsKnown g (n ∷ nodes) k =
      (k n (ground arith), all-IsKnown g nodes (λ m a. k m (ground (arith, a))))

  remove_unfound-Goes :
      (p : Peer) (found : IdSet) (peers : IdMap (List Peer)) (nodes : List ℕ) (g : Graph)
      → IsValid self g
      → All (IsKnown g) nodes
      → Goes (only self) self g (remove_unfound p self found peers nodes g).1
  unfolding remove_unfound
  remove_unfound-Goes p found peers [] g v k = refl-Goes g v
  remove_unfound-Goes p found peers (n ∷ nodes) g v k =
      let is_peer : Bool = elim (IdMap.get (g.id n) peers) [ none ↦ false | some ps ↦ true ] in
      let skip = n == self || IdMap.has (g.id n) found || is_peer in
      let h = (if skip then (false, g) else remove_routing n p g).1 in
      let a = remove_one-Goes p skip n g v k.0 (λ q. ground (arith, q)) in
      then-Goes (only self) self g h (remove_unfound p self found peers nodes h).1 a (
        remove_unfound-Goes p found peers nodes h a.valid
          (keep-IsKnown (only self) self g h nodes a k.1))

  update_nodes-Goes :
      (p : Peer) (nodes : List NodeRoutingDetails) (g : Graph)
      → IsValid self g
      → Goes (only self) self g (update_nodes p self nodes g).1
  unfolding update_nodes
  update_nodes-Goes p [] g v = refl-Goes g v
  update_nodes-Goes p (details ∷ nodes) g v =
      let (w, k, x, q) = get_or_create-IsValid (only self) self details.id g v in
      let (n, h) = get_or_create details.id g in
      let t = (if n == self then (false, h) else update_routing n p details h).1 in
      let b : Goes (only self) self h t = elim (Bool-cases (n == self)) [
        | inl s ↦ rw s (refl-Goes h w)
        | inr s ↦ rw s (update_routing-Goes (only self) self n s p details h w k)
      ] in
      let a = then-Goes (only self) self g h t (record { valid = w; extends = x }) b in
      then-Goes (only self) self g t (update_nodes p self nodes t).1 a
        (update_nodes-Goes p nodes t a.valid)

-- The flags are no part of the invariant.
pub flags-IsSound :
    (t : Topology) (dirty queued : Bool)
    → IsSound t
    → IsSound (record t { dirty = dirty; queued = queued })
flags-IsSound t dirty queued s = record {
  joined = flags-IsJoined t dirty queued s.joined;
  linked = s.linked;
}

pub queue_broadcast-IsSound :
    (broadcast : Bool) (t : Topology) → IsSound t → IsSound (queue_broadcast broadcast t).0
unfolding queue_broadcast
queue_broadcast-IsSound broadcast t s = elim (Bool-cases (broadcast && not t.queued)) [
  | inl q ↦ rw q (flags-IsSound t true true s)
  | inr q ↦ rw q (flags-IsSound t true t.queued s)
]

pub handle_node_details-IsSound :
    (p : Peer) (nodes : List NodeRoutingDetails) (t : Topology)
    → IsSound t
    → IsSound (handle_node_details p nodes t).0
unfolding handle_node_details
handle_node_details-IsSound p nodes t s = elim (Option-cases (IdMap.get p.id t.peers)) [
  | inl q ↦ rw (q, handle_node_details) s
  | inr (ps, q) ↦
      let (changed, g) = update_nodes p t.self nodes t.graph in
      rw (q, handle_node_details)
        (queue_broadcast-IsSound changed (record t { graph = g })
          (grown-IsSound t g s (update_nodes-Goes t.self p nodes t.graph s.joined.valid)))
]

pub handle_node_summary-IsSound :
    (p : Peer) (own_version : ℕ) (nodes : List NodeRoutingSummary) (t : Topology)
    → IsSound t
    → IsSound (handle_node_summary p own_version nodes t).0
unfolding handle_node_summary
handle_node_summary-IsSound p own_version nodes t s =
    let (n, g) = get_or_create p.id t.graph in
    let first = if ltb (g.version n) own_version then g.id n ∷ [] else [] in
    let a = create-Goes t.self p.id t.graph s.joined.valid in
    let (h, found, ids) = compare_summaries nodes g (IdMap.add p.id []) first in
    let b = compare_summaries-Goes t.self nodes g (IdMap.add p.id []) first a.valid in
    let known =
      all-IsKnown t.self h (Map.values h.nodes) (λ n k. mem-IsKnown t.self n h b.valid k) in
    let (changed, k) = remove_unfound p t.self found t.peers (Map.values h.nodes) h in
    let c = remove_unfound-Goes t.self p found t.peers (Map.values h.nodes) h b.valid known in
    let all =
      then-Goes (only t.self) t.self t.graph g k a (then-Goes (only t.self) t.self g h k b c) in
    let sound = grown-IsSound t k s all in
    elim (Bool-cases changed) [
      | inl q ↦ rw q (queue_broadcast-IsSound true (record t { graph = k }) sound)
      | inr q ↦ rw q sound
    ]
