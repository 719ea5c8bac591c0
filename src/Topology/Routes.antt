-- ===== src/Topology/Routes.antt =====
-- The peers that calculatePaths of Routing.ts gives the nodes.
use ataraxia.Base.{
  ℕ, ◌≤◌, ◌<◌, ◌≡◌, refl, sym, ap, subst, ap₂, ◌∙◌, Option, none, some, Bool, true, false, List, [],
  ◌∷◌, ◌==◌, length, All, arith, Bool-cases, Option-cases, inl, inr, bytes_eq,
}
use ataraxia.Map
use ataraxia.Topology.Graph.{Edge, Peer, Graph}
use ataraxia.Topology.Search.{
  Search, Heap, walk, assign, assign_all, calculate_paths, search_graph, max_safe_integer,
}
use ataraxia.Topology.Entries.{mem}
use ataraxia.Topology.Starting.{IsUnique}
use ataraxia.Topology.Relaxing.{Leads}
use ataraxia.Topology.Ways.{Between, Finds, walk-Finds, Finds-longer}
use ataraxia.Topology.Paths.{Known, Ended, search_graph-Ended, Ended-mem, Ended-traced}

-- The fields that stay as they are.
abbrev pub Same : Graph → Graph → Type 0
Same g h =
    (h.direct ≡ g.direct)
    × (h.id ≡ g.id)
    × (h.outgoing ≡ g.outgoing)
    × (h.nodes ≡ g.nodes)
    × (h.next ≡ g.next)
    × (h.previous_reachable ≡ g.previous_reachable)

abbrev pub SameRoutes : Graph → Graph → Type 0
SameRoutes g h = Same g h × (h.search_previous ≡ g.search_previous)

trans-Same : (g h k : Graph) → Same g h → Same h k → Same g k
trans-Same g h k (a, b, c, d, e, f) (a', b', c', d', e', f') =
    (a' ∙ a, b' ∙ b, c' ∙ c, d' ∙ d, e' ∙ e, f' ∙ f)

-- Where messages for a node go by, with costs that a search gave: its peer if it is direct,
-- else that of a direct node on a way that is as long as the cost, else none.
pub record Routed (peers : List ℕ → Option Peer) (cost : ℕ → ℕ) (g h : Graph) (n : ℕ) : Type 0 where
  pub to_direct : g.direct n ≡ true → h.peer n ≡ peers (g.id n)
  pub by_way :
      g.direct n ≡ false
      → cost n < max_safe_integer
      → (p : ℕ) × (g.direct p ≡ true)
        × (mem p (Map.values g.nodes) ≡ true)
        × (h.peer n ≡ peers (g.id p))
        × (b : Between g.outgoing cost p n) × All (λ (e : Edge). g.direct e.target ≡ false) b.edges
  pub lost : g.direct n ≡ false → max_safe_integer ≤ cost n → (h.peer n ≡ none) × (h.version n ≡ 0)

keep-Routed :
    (peers : List ℕ → Option Peer) (cost : ℕ → ℕ) (g h t : Graph) (n : ℕ)
    → t.peer n ≡ h.peer n
    → t.version n ≡ h.version n
    → Routed peers cost g h n
    → Routed peers cost g t n
keep-Routed peers cost g h t n p v r = record {
  to_direct = λ e. p ∙ r.to_direct e;
  by_way = λ e l. (let (m, d, k, q, b, c) = r.by_way e l in (m, d, k, p ∙ q, b, c));
  lost = λ e l. (p ∙ (r.lost e l).0, v ∙ (r.lost e l).1);
}

module _ (peers : List ℕ → Option Peer) (fuel : ℕ) where
  assign-SameRoutes : (n : ℕ) (g : Graph) → SameRoutes g (assign peers fuel n g)
  unfolding assign
  assign-SameRoutes n g = ground arith

  assign-others :
      (n m : ℕ) (g : Graph)
      → n == m ≡ false
      → ((assign peers fuel n g).peer m ≡ g.peer m)
        × ((assign peers fuel n g).version m ≡ g.version m)
  unfolding assign
  assign-others n m g d = ground (arith, d)

  assign_all-Same : (nodes : List ℕ) (g : Graph) → Same g (assign_all peers fuel nodes g)
  unfolding assign_all
  assign_all-Same [] g = (refl, refl, refl, refl, refl, refl)
  assign_all-Same (n ∷ nodes) g =
      trans-Same g (assign peers fuel n g) (assign_all peers fuel nodes (assign peers fuel n g))
        (assign-SameRoutes n g).0 (assign_all-Same nodes (assign peers fuel n g))

  assign_all-others :
      (m : ℕ) (nodes : List ℕ) (g : Graph)
      → mem m nodes ≡ false
      → ((assign_all peers fuel nodes g).peer m ≡ g.peer m)
        × ((assign_all peers fuel nodes g).version m ≡ g.version m)
  unfolding assign_all
  assign_all-others m [] g k = (refl, refl)
  assign_all-others m (n ∷ nodes) g k =
      let a = assign-others n m g (ground (arith, k)) in
      let b = assign_all-others m nodes (assign peers fuel n g) (ground (arith, k)) in
      (b.0 ∙ a.0, b.1 ∙ a.1)

  assign-direct :
      (n : ℕ) (h : Graph) → h.direct n ≡ true → (assign peers fuel n h).peer n ≡ peers (h.id n)
  unfolding assign
  assign-direct n h d = ground (arith, d)

  assign-lost :
      (n : ℕ) (h : Graph)
      → h.direct n ≡ false
      → h.search_previous n ≡ none
      → ((assign peers fuel n h).peer n ≡ none) × ((assign peers fuel n h).version n ≡ 0)
  unfolding assign
  assign-lost n h d q = ground (arith, d, q)

  assign-way :
      (n m p : ℕ) (h : Graph)
      → h.direct n ≡ false
      → h.search_previous n ≡ some m
      → walk fuel h.direct h.search_previous (some m) ≡ some p
      → h.direct p ≡ true
      → (assign peers fuel n h).peer n ≡ peers (h.id p)
  unfolding assign
  assign-way n m p h d q w e = ground (arith, d, q, w, e)

  module _ (cost : ℕ → ℕ) (g : Graph) (previous : ℕ → Option ℕ) where
    -- What the walk back from a node finds.
    pub record Walks (n : ℕ) : Type 0 where
      pub before : ℕ
      pub is_before : previous n ≡ some before
      pub passed : ℕ
      pub ends : walk fuel g.direct previous (some before) ≡ some passed
      pub direct : g.direct passed ≡ true
      pub known : mem passed (Map.values g.nodes) ≡ true
      pub between : Between g.outgoing cost passed n
      pub plain : All (λ (e : Edge). g.direct e.target ≡ false) between.edges

    -- A search has left the node with no node before it, or with one.
    pub record Searched (n : ℕ) : Type 0 where
      pub unreached : max_safe_integer ≤ cost n → previous n ≡ none
      pub reached : cost n < max_safe_integer → g.direct n ≡ false → Walks n

    assign-Routed :
        (h : Graph) (n : ℕ)
        → h.direct ≡ g.direct
        → h.id ≡ g.id
        → h.search_previous ≡ previous
        → Searched n
        → Routed peers cost g (assign peers fuel n h) n
    assign-Routed h n d i q s = record {
      to_direct = λ e.
          assign-direct n h (ap (λ (f : ℕ → Bool). f n) d ∙ e)
          ∙ ap (λ (f : ℕ → List ℕ). peers (f n)) i;
      by_way = λ e l.
          (let w = s.reached l e in
            (
              w.passed,
              w.direct,
              w.known,
              assign-way n w.before w.passed h (ap (λ (f : ℕ → Bool). f n) d ∙ e)
                    (ap (λ (f : ℕ → Option ℕ). f n) q ∙ w.is_before)
                    (ap₂ (λ (f : ℕ → Bool) (k : ℕ → Option ℕ). walk fuel f k (some w.before)) d q
                      ∙ w.ends)
                    (ap (λ (f : ℕ → Bool). f w.passed) d ∙ w.direct)
                  ∙ ap (λ (f : ℕ → List ℕ). peers (f w.passed)) i,
              w.between,
              w.plain,
            ));
      lost = λ e l.
          assign-lost n h (ap (λ (f : ℕ → Bool). f n) d ∙ e)
            (ap (λ (f : ℕ → Option ℕ). f n) q ∙ s.unreached l);
    }

    pub assign_all-Routed :
        (nodes : List ℕ) (h : Graph)
        → h.direct ≡ g.direct
        → h.id ≡ g.id
        → h.search_previous ≡ previous
        → IsUnique nodes
        → ((n : ℕ) → mem n nodes ≡ true → Searched n)
        → (n : ℕ) → mem n nodes ≡ true
        → Routed peers cost g (assign_all peers fuel nodes h) n
    unfolding assign_all
    assign_all-Routed [] h d i q u s n k = absurd (let q : false ≡ true = k in cc)
    assign_all-Routed (m ∷ nodes) h d i q u s n k = elim (Bool-cases (m == n)) [
      | inl same ↦
          let e : m ≡ n = ground (arith, same) in
          let r = assign-Routed h n d i q (s n k) in
          let (o, v) = assign_all-others m nodes (assign peers fuel m h) u.0 in
          subst (λ x. Routed peers cost g (assign_all peers fuel nodes (assign peers fuel m h)) x) e
            (keep-Routed peers cost g (assign peers fuel m h)
              (assign_all peers fuel nodes (assign peers fuel m h)) m o v
              (subst (λ x. Routed peers cost g (assign peers fuel x h) x) (sym e) r))
      | inr other ↦
          let (same, q') = assign-SameRoutes m h in
          assign_all-Routed nodes (assign peers fuel m h) (same.0 ∙ d) (same.1 ∙ i) (q' ∙ q) u.1
            (λ x a. s x (ground (arith, a))) n (ground (arith, k, other))
    ]

searched :
    (s : Search) (g : Graph) (self : ℕ)
    → (e : Ended g.outgoing (Map.values g.nodes) self s)
    → ((n : ℕ) → mem n (Map.values g.nodes) ≡ true → mem n e.order ≡ true)
    → ((m n : ℕ)
        → mem n (Map.values g.nodes) ≡ true
        → s.previous n ≡ some m
        → mem m (Map.values g.nodes) ≡ true × Leads g.outgoing s.cost m n)
    → g.direct self ≡ true
    → (peers : List ℕ → Option Peer) (n : ℕ) → mem n (Map.values g.nodes) ≡ true
    → Searched peers (length (Map.values g.nodes)) s.cost g s.previous n
searched s g self e all traced ds peers n k = elim (Option-cases (s.previous n)) [
  | inl q ↦ record {
    unreached = λ l. q;
    reached = λ l d. absurd (elim (e.sound.untraced n k q) [
      | inl i ↦ (let f : false ≡ true = sym d ∙ ap g.direct i ∙ ds in cc)
      | inr i ↦ omega (arith, i, l)
    ]);
  }
  | inr (m, q) ↦
      let (known, d) = traced m n k q in
      let below = e.sound.reached m n k q in
      let found =
        walk-Finds g.outgoing s.cost s.previous (Map.values g.nodes) traced g.direct self
          (length (Map.values g.nodes)) e.order m ds e.sound.untraced e.sound.ordered
          (omega (arith, e.count)) (all m known) known (omega (arith, d.sum, below)) in
      record {
        unreached = λ l. absurd (omega (arith, below, l));
        reached = λ l f.
            elim (Option-cases (walk (length (Map.values g.nodes)) g.direct s.previous (some m))) [
              | inl w ↦ absurd (
                  subst (Finds g.outgoing s.cost s.previous (Map.values g.nodes) traced g.direct m)
                    w found)
              | inr (p, w) ↦
                  let (dp, mp, b, c) =
                    subst
                      (Finds g.outgoing s.cost s.previous (Map.values g.nodes) traced g.direct n) w
                      (Finds-longer g.outgoing s.cost s.previous (Map.values g.nodes) traced
                        g.direct m n
                        (walk (length (Map.values g.nodes)) g.direct s.previous (some m)) found d
                        f) in
                  record {
                    before = m;
                    is_before = q;
                    passed = p;
                    ends = w;
                    direct = dp;
                    known = mp;
                    between = b;
                    plain = c;
                  }
            ];
      }
]

-- The paths are calculated, with nothing thrown, where this node is direct and the graph is known:
-- then each known node that is direct gets its own peer, each other one to which a way shorter than
-- the greatest number leads gets the peer of a direct node on such a way of the least length, and
-- each that no such way leads to loses its peer and its version.
pub calculate_paths-Routed :
    (heap : Heap) (peers : List ℕ → Option Peer) (self : ℕ) (g : Graph)
    → Known self g
    → g.direct self ≡ true
    → (h : Graph) × (calculate_paths heap peers self g ≡ some h)
      × Same g h
      × ((n : ℕ)
          → mem n (Map.values g.nodes) ≡ true
          → Routed peers (search_graph heap self g).cost g h n)
unfolding calculate_paths
calculate_paths-Routed heap peers self g k ds =
    let nodes = Map.values g.nodes in
    let s = search_graph heap self g in
    let e = search_graph-Ended heap self g k in
    let h : Graph = record g {
      search_cost = s.cost;
      search_previous = s.previous;
      search_node = s.inserted;
    } in
    let walks : (n : ℕ) → mem n nodes ≡ true → Searched peers (length nodes) s.cost g s.previous n =
      searched s g self e (Ended-mem heap g.outgoing nodes self s e)
        (Ended-traced heap g.outgoing nodes self s e) ds peers in
    (
      assign_all peers (length nodes) nodes h,
      rw e.sound.fine refl,
      assign_all-Same peers (length nodes) nodes h,
      assign_all-Routed peers (length nodes) s.cost g s.previous nodes h refl refl refl k.unique
          walks,
    )
