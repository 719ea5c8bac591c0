-- ===== src/Topology/Paths.antt =====
-- What calculatePaths of Routing.ts gives on a graph whose edges lead to known nodes.
use ataraxia.Base.{
  ℕ, zero, suc, ◌+◌, ◌≤◌, ◌<◌, ◌≡◌, refl, ap, some, true, false, List, [], ◌∷◌, length, arith,
  Option-cases, inl, inr, bytes_eq,
}
use ataraxia.Map
use ataraxia.Topology.Graph.{Edge, Graph}
use ataraxia.Topology.Search.{
  Entry, Search, Heap, search, start_search, search_graph, relax_all, max_safe_integer,
}
use ataraxia.Topology.Entries.{mem, holds, length-Without}
use ataraxia.Topology.Relaxing.{IsClosed, Leads, Sound}
use ataraxia.Topology.Shortest.{AllRelaxed, round-Sound}
use ataraxia.Topology.Starting.{IsUnique, insert_all-Started, Started-Sound}
use ataraxia.Topology.Ways.{IsWay, total, Between, way-least, traced-Between}

-- The search when its loop has ended.
pub record Ended (outgoing : ℕ → List Edge) (nodes : List ℕ) (self : ℕ) (s : Search) : Type 0 where
  pub order : List ℕ
  pub sound : Sound outgoing nodes self order s
  pub all_relaxed : AllRelaxed outgoing nodes self s.cost order
  pub empty : s.heap ≡ []
  pub count : length order ≡ length nodes

length-zero : (h : List Entry) → length h ≡ 0 → h ≡ []
length-zero [] q = refl
length-zero (e ∷ h) q = absurd (omega (arith, q))

module _ (heap : Heap) (outgoing : ℕ → List Edge) (nodes : List ℕ) (self : ℕ) where
  search-Ended :
      (fuel : ℕ) (order : List ℕ) (s : Search)
      → length s.heap ≤ fuel
      → length order + length s.heap ≡ length nodes
      → IsClosed outgoing nodes
      → Sound outgoing nodes self order s
      → AllRelaxed outgoing nodes self s.cost order
      → Ended outgoing nodes self (search heap fuel outgoing s)
  unfolding search
  search-Ended zero order s l n closed w r =
      let none_left = length-zero s.heap (omega (arith, l)) in
      record {
        order = order;
        sound = w;
        all_relaxed = r;
        empty = none_left;
        count = ground (arith, none_left, n);
      }
  search-Ended (suc fuel) order s l n closed w r =
      elim (Option-cases (heap.extract_minimum s.heap)) [
        | inl q ↦
            rw (q, search)
              (record {
                order = order;
                sound = w;
                all_relaxed = r;
                empty = heap.extract_none s.heap q;
                count = ground (arith, heap.extract_none s.heap q, n);
              })
        | inr ((e, rest), q) ↦
            let (t, least) = heap.extract_some s.heap rest e q in
            let (one, relaxed) =
              round-Sound outgoing nodes self order s e rest t least closed w r in
            let len = length-Without e t in
            let size : length (relax_all e.node (outgoing e.node) (record s { heap = rest })).heap
                ≡ length rest =
              one.size in
            rw (q, search, one.sound.fine)
              (search-Ended fuel (e.node ∷ order)
                (relax_all e.node (outgoing e.node) (record s { heap = rest }))
                (omega (arith, l, len, size)) (omega (arith, n, len, size)) closed one.sound
                relaxed)
      ]

  -- All nodes have been taken.
  pub Ended-mem :
      (s : Search)
      → (e : Ended outgoing nodes self s) → (n : ℕ) → mem n nodes ≡ true
      → mem n e.order ≡ true
  Ended-mem s e n k = ground (arith, e.sound.waits n k, ap (holds n) e.empty)

  pub Ended-traced :
      (s : Search)
      → Ended outgoing nodes self s
      → (m n : ℕ) → mem n nodes ≡ true
      → s.previous n ≡ some m
      → mem m nodes ≡ true × Leads outgoing s.cost m n
  Ended-traced s e m n k q =
      let (taken, d) = e.sound.traced m n k q in (ground (arith, taken, e.sound.unknown m), d)

-- A graph whose known nodes are different objects, this node among them, with edges to known nodes.
pub record Known (self : ℕ) (g : Graph) : Type 0 where
  pub unique : IsUnique (Map.values g.nodes)
  pub here : mem self (Map.values g.nodes) ≡ true
  pub closed : IsClosed g.outgoing (Map.values g.nodes)

pub search_graph-Ended :
    (heap : Heap) (self : ℕ) (g : Graph)
    → Known self g
    → Ended g.outgoing (Map.values g.nodes) self (search_graph heap self g)
unfolding search_graph
search_graph-Ended heap self g k =
    let nodes = Map.values g.nodes in
    let empty : Search = record {
      cost = g.search_cost;
      previous = g.search_previous;
      inserted = g.search_node;
      heap = [];
      thrown = false;
    } in
    let (w, size) =
      insert_all-Started self nodes (λ n. false) (λ n. mem n nodes) empty k.unique (λ n a. refl)
        (λ n. refl)
        (record {
          keyed = tt;
          one_each = tt;
          waits = λ n. refl;
          inserted = λ n a. cc;
          costs = λ n a. cc;
          no_previous = λ n a. cc;
          fine = refl;
        }) in
    search-Ended heap g.outgoing nodes self (length nodes) [] (start_search self g)
      (omega (arith, size)) (omega (arith, size)) k.closed
      (Started-Sound self g.outgoing nodes (start_search self g) k.here w) (λ m a. cc)

-- What the search over a graph finds: costs that no way is below, each the length of a way.
pub record IsShortest (self : ℕ) (g : Graph) (s : Search) : Type 0 where
  pub fine : s.thrown ≡ false
  pub all_taken : s.heap ≡ []
  pub least : (n : ℕ) (edges : List Edge) → IsWay g.outgoing self edges n → s.cost n ≤ total edges
  pub found :
      (n : ℕ)
      → mem n (Map.values g.nodes) ≡ true
      → s.cost n < max_safe_integer
      → Between g.outgoing s.cost self n

-- The search throws nothing, empties the heap and finds the length of a shortest way to each node
-- that a way shorter than the greatest number leads to, if the edges of known nodes lead to known
-- nodes, this node is one of them, and no object is known twice.
pub search_graph-IsShortest :
    (heap : Heap) (self : ℕ) (g : Graph)
    → Known self g
    → IsShortest self g (search_graph heap self g)
search_graph-IsShortest heap self g k =
    let nodes = Map.values g.nodes in
    let s = search_graph heap self g in
    let e = search_graph-Ended heap self g k in
    let all = Ended-mem heap g.outgoing nodes self s e in
    record {
      fine = e.sound.fine;
      all_taken = e.empty;
      least = λ n edges w.
          (let b =
              way-least g.outgoing s.cost nodes self n edges (λ m a. e.all_relaxed m (all m a))
                k.closed k.here w in
            omega (arith, b, e.sound.source));
      found = λ n a l.
          traced-Between g.outgoing s.cost s.previous nodes
            (Ended-traced heap g.outgoing nodes self s e) self e.order n e.sound.untraced
            e.sound.ordered (all n a) a l;
    }
