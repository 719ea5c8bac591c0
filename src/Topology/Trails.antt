-- ===== src/Topology/Trails.antt =====
-- The path to a node, as toPath of TopologyNode.ts collects it.
use ataraxia.Base.{
  ℕ, zero, suc, ◌≤◌, ◌≡◌, refl, sym, subst, ap, ◌∙◌, Option, none, some, true, false, List, [], ◌∷◌,
  ◌++◌, append-nil, append_assoc, reverse, ◌==◌, length, arith, Bool-cases, Option-cases, inl, inr,
  bytes_eq,
}
use ataraxia.Map
use ataraxia.Topology.Graph.{Graph}
use ataraxia.Topology.Nodes.{collect_previous, to_path}
use ataraxia.Topology.Search.{Heap, search_graph}
use ataraxia.Topology.Entries.{mem}
use ataraxia.Topology.Relaxing.{IsOrdered}
use ataraxia.Topology.Paths.{Known, search_graph-Ended, Ended-mem}

-- The nodes before a node, one after the other, up to one with none before it.
abbrev pub IsBack : (ℕ → Option ℕ) → ℕ → List ℕ → Type 0
IsBack previous n [] = previous n ≡ none
IsBack previous n (m ∷ back) = (previous n ≡ some m) × IsBack previous m back

collect_previous-IsBack :
    (previous : ℕ → Option ℕ) (fuel : ℕ) (order : List ℕ) (n : ℕ) (result : List ℕ)
    → IsOrdered previous order
    → length order ≤ fuel
    → mem n order ≡ true
    → (back : List ℕ) × (collect_previous fuel previous (previous n) result ≡ some (result ++ back))
      × IsBack previous n back
unfolding collect_previous
collect_previous-IsBack previous fuel [] n result o l a = absurd (let c : false ≡ true = a in cc)
collect_previous-IsBack previous zero (x ∷ order) n result o l a = absurd (omega (arith, l))
collect_previous-IsBack previous (suc fuel) (x ∷ order) n result o l a =
    elim (Bool-cases (x == n)) [
      | inr other ↦
          collect_previous-IsBack previous (suc fuel) order n result o.1 (omega (arith, l))
            (ground (arith, a, other))
      | inl same ↦ elim (Option-cases (previous n)) [
        | inl q ↦ ([], rw q (ap some (sym (append-nil result))), q)
        | inr (m, q) ↦
            let before : mem m order ≡ true = o.0 m (ap previous (ground (arith, same)) ∙ q) in
            let (back, r, b) =
              collect_previous-IsBack previous fuel order m (result ++ m ∷ []) o.1
                (omega (arith, l)) before in
            (m ∷ back, rw q (r ∙ ap some (append_assoc result (m ∷ []) back)), (q, b))
      ]
    ]

-- After a search of a known graph the path to a known node ends, with no more turns than there are
-- known nodes: it is the nodes before it on its way, the first one first.
pub to_path-IsBack :
    (heap : Heap) (self : ℕ) (g h : Graph) (n : ℕ)
    → Known self g
    → h.search_previous ≡ (search_graph heap self g).previous
    → mem n (Map.values g.nodes) ≡ true
    → (back : List ℕ) × (to_path (length (Map.values g.nodes)) n h ≡ some (reverse back))
      × IsBack h.search_previous n back
unfolding to_path
to_path-IsBack heap self g h n k q a =
    let s = search_graph heap self g in
    let nodes = Map.values g.nodes in
    let e = search_graph-Ended heap self g k in
    let taken = Ended-mem heap g.outgoing nodes self s e n a in
    let (back, r, b) =
      collect_previous-IsBack h.search_previous (length nodes) e.order n []
        (subst (λ (f : ℕ → Option ℕ). IsOrdered f e.order) (sym q) e.sound.ordered)
        (omega (arith, e.count)) taken in
    (back, rw (r, to_path) refl, b)
