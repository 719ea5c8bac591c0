-- ===== src/Topology/Shortest.antt =====
-- The search over a graph whose edges lead to known nodes, against the paths of the graph.
use ataraxia.Base.{ℕ, ◌≤◌, ◌≡◌, inl, inr, subst, true, false, List, ◌∷◌, ◌==◌, arith, Bool-cases}
use ataraxia.Topology.Graph.{Edge}
use ataraxia.Topology.Search.{Entry, Search, Without, IsLeast, relax_all}
use ataraxia.Topology.Entries.{
  mem, holds, holds-Without, Without-OneEach, Without-IsKeyed, Without-IsLeast, least_cost,
}
use ataraxia.Topology.Relaxing.{
  IsClosed, IsRelaxed, Sound, Relaxes, keep-IsRelaxed, relax_all-Relaxes,
}

module _ (outgoing : ℕ → List Edge) (nodes : List ℕ) (self : ℕ) where
  -- The least entry is taken from the heap.
  taken-Sound :
      (order : List ℕ) (s : Search) (e : Entry) (rest : List Entry)
      → Without e s.heap rest
      → IsLeast e s.heap
      → Sound outgoing nodes self order s
      → Sound outgoing nodes self (e.node ∷ order) (record s { heap = rest })
        × (mem e.node nodes ≡ true)
        × ((m : ℕ) → mem m (e.node ∷ order) ≡ true → s.cost m ≤ s.cost e.node)
  taken-Sound order s e rest t l w =
      let u = e.node in
      let one = Without-OneEach e t w.one_each in
      let keys = Without-IsKeyed s.cost e t w.keyed in
      let known : mem u nodes ≡ true = w.held u (ground (arith, holds-Without u e t)) in
      let new : mem u order ≡ false = ground (arith, w.waits u known, holds-Without u e t) in
      (
        record {
          keyed = keys.1;
          one_each = one.1;
          waits = λ n k. ground (arith, w.waits n k, holds-Without n e t, one.0);
          held = λ n h. w.held n (ground (arith, holds-Without n e t, h));
          unknown = λ n k. ground (arith, w.unknown n k, known, k);
          inserted = w.inserted;
          source = w.source;
          least = λ m n a k b.
              (let wait : holds n rest ≡ true =
                  ground (arith, w.waits n k, holds-Without u e t, holds-Without n e t, b) in
                let cheap = least_cost s.cost e n rest keys.1 (Without-IsLeast e e t l) wait in
                ground (arith, a, b, cheap, keys.0, w.least m n, k));
          traced = λ m n k p. (ground (arith, w.traced m n k p), (w.traced m n k p).1);
          untraced = w.untraced;
          bounded = w.bounded;
          reached = w.reached;
          ordered = (λ m p. (w.traced m u known p).0, w.ordered);
          fine = w.fine;
        },
        known,
        λ m a. ground (arith, a, w.least m u, known, new),
      )

  -- A node that was taken offers no shorter way.
  abbrev pub AllRelaxed : (ℕ → ℕ) → List ℕ → Type 0
  AllRelaxed cost order = (m : ℕ) → mem m order ≡ true → IsRelaxed cost m (outgoing m)

  -- One round of the loop on the heap.
  pub round-Sound :
      (order : List ℕ) (s : Search) (e : Entry) (rest : List Entry)
      → Without e s.heap rest
      → IsLeast e s.heap
      → IsClosed outgoing nodes
      → Sound outgoing nodes self order s
      → AllRelaxed s.cost order
      → Relaxes outgoing nodes self
          (e.node ∷ order)
          e.node
          (outgoing e.node)
          (record s { heap = rest })
          (relax_all e.node (outgoing e.node) (record s { heap = rest }))
        × AllRelaxed
            (relax_all e.node (outgoing e.node) (record s { heap = rest })).cost
            (e.node ∷ order)
  round-Sound order s e rest t l closed w r =
      let (v, known, top) = taken-Sound order s e rest t l w in
      let one =
        relax_all-Relaxes outgoing nodes self (e.node ∷ order) e.node (outgoing e.node)
          (record s { heap = rest }) (ground arith) (closed e.node known) (λ d a. a) v top in
      (
        one,
        λ m a. elim (Bool-cases (e.node == m)) [
          | inl same ↦
              let q : e.node ≡ m = ground (arith, same) in
              subst
                (λ x.
                  IsRelaxed (relax_all e.node (outgoing e.node) (record s { heap = rest })).cost x
                    (outgoing x))
                q one.relaxed
          | inr other ↦
              let old : mem m order ≡ true = ground (arith, a, other) in
              keep-IsRelaxed outgoing nodes self s.cost
                (relax_all e.node (outgoing e.node) (record s { heap = rest })).cost m (outgoing m)
                one.less (one.fixed m a) (r m old)
        ],
      )
