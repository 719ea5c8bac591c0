-- ===== src/Topology/Ways.antt =====
-- Ways through the graph, and what the end of the search says of them.
use ataraxia.Base.{
  ℕ, zero, suc, ◌+◌, ◌≤◌, ◌<◌, ◌≡◌, ◌⊎◌, refl, sym, ap, subst, ◌∙◌, Option, none, some, Bool, true,
  false, List, [], ◌∷◌, ◌++◌, ◌==◌, length, All, All-append, arith, Bool-cases, Option-cases, inl,
  inr,
}
use ataraxia.Topology.Graph.{Edge}
use ataraxia.Topology.Search.{walk, max_safe_integer}
use ataraxia.Topology.Entries.{mem}
use ataraxia.Topology.Relaxing.{Among, IsRelaxed, Leads, IsOrdered}

-- A way from a node to another one, edge by edge.
abbrev pub IsWay : (ℕ → List Edge) → ℕ → List Edge → ℕ → Type 0
IsWay outgoing from [] to = from ≡ to
IsWay outgoing from (e ∷ edges) to = Among e (outgoing from) × IsWay outgoing e.target edges to

abbrev pub total : List Edge → ℕ
total [] = 0
total (e ∷ edges) = e.cost + total edges

pub Among-IsRelaxed :
    (cost : ℕ → ℕ) (n : ℕ) (e : Edge) (edges : List Edge)
    → Among e edges
    → IsRelaxed cost n edges
    → cost e.target ≤ cost n + e.cost
Among-IsRelaxed cost n e [] a r = absurd a
Among-IsRelaxed cost n e (x ∷ edges) (inl q) r =
    subst (λ (y : Edge). cost y.target ≤ cost n + y.cost) q r.0
Among-IsRelaxed cost n e (x ∷ edges) (inr a) r = Among-IsRelaxed cost n e edges a r.1

Among-closed :
    (nodes : List ℕ) (e : Edge) (edges : List Edge)
    → Among e edges
    → All (λ (e : Edge). mem e.target nodes ≡ true) edges
    → mem e.target nodes ≡ true
Among-closed nodes e [] a c = absurd a
Among-closed nodes e (x ∷ edges) (inl q) c = subst (λ (y : Edge). mem y.target nodes ≡ true) q c.0
Among-closed nodes e (x ∷ edges) (inr a) c = Among-closed nodes e edges a c.1

module _ (outgoing : ℕ → List Edge) where
  -- One more edge at the end of a way.
  pub snoc-IsWay :
      (from m to : ℕ) (e : Edge) (edges : List Edge)
      → IsWay outgoing from edges m
      → Among e (outgoing m)
      → e.target ≡ to
      → IsWay outgoing from (edges ++ e ∷ []) to × (total (edges ++ e ∷ []) ≡ total edges + e.cost)
  snoc-IsWay from m to e [] w a q = ((subst (λ x. Among e (outgoing x)) (sym w) a, q), omega arith)
  snoc-IsWay from m to e (x ∷ edges) w a q =
      let r = snoc-IsWay x.target m to e edges w.1 a q in ((w.0, r.0), omega (arith, r.1))

  -- Where no edge offers a shorter way, no way is shorter.
  pub way-least :
      (cost : ℕ → ℕ) (nodes : List ℕ) (from to : ℕ) (edges : List Edge)
      → ((n : ℕ) → mem n nodes ≡ true → IsRelaxed cost n (outgoing n))
      → ((n : ℕ) → mem n nodes ≡ true → All (λ (e : Edge). mem e.target nodes ≡ true) (outgoing n))
      → mem from nodes ≡ true
      → IsWay outgoing from edges to
      → cost to ≤ cost from + total edges
  way-least cost nodes from to [] r c k w = omega (arith, ap cost w)
  way-least cost nodes from to (e ∷ edges) r c k w =
      let known = Among-closed nodes e (outgoing from) w.0 (c from k) in
      let step = Among-IsRelaxed cost from e (outgoing from) w.0 (r from k) in
      omega (arith, step, way-least cost nodes e.target to edges r c known w.1)

  -- A way between two nodes that is as long as their costs are apart.
  pub record Between (cost : ℕ → ℕ) (from to : ℕ) : Type 0 where
    pub edges : List Edge
    pub is_way : IsWay outgoing from edges to
    pub length_of : cost from + total edges ≡ cost to

  pub longer :
      (cost : ℕ → ℕ) (from m to : ℕ)
      → Between cost from m
      → Leads outgoing cost m to
      → Between cost from to
  longer cost from m to b d =
      let r = snoc-IsWay from m to d.edge b.edges b.is_way d.leaves d.arrives in
      record {
        edges = b.edges ++ d.edge ∷ [];
        is_way = r.0;
        length_of = omega (arith, r.1, b.length_of, d.sum);
      }

  module _ (cost : ℕ → ℕ) (previous : ℕ → Option ℕ) (nodes : List ℕ)
      (traced : (m n : ℕ)
        → mem n nodes ≡ true
        → previous n ≡ some m
        → mem m nodes ≡ true × Leads outgoing cost m n) where
    -- A node that has been reached has a way of its cost.
    pub traced-Between :
        (self : ℕ) (order : List ℕ) (n : ℕ)
        → ((n : ℕ)
            → mem n nodes ≡ true
            → previous n ≡ none
            → (n ≡ self) ⊎ (cost n ≡ max_safe_integer))
        → IsOrdered previous order
        → mem n order ≡ true
        → mem n nodes ≡ true
        → cost n < max_safe_integer
        → Between cost self n
    traced-Between self [] n u o a k l = cc
    traced-Between self (x ∷ order) n u o a k l = elim (Bool-cases (x == n)) [
      | inr other ↦ traced-Between self order n u o.1 (ground (arith, a, other)) k l
      | inl same ↦ elim (Option-cases (previous n)) [
        | inl q ↦ elim (u n k q) [
          | inl e ↦ record { edges = []; is_way = sym e; length_of = omega (arith, ap cost e) }
          | inr e ↦ absurd (omega (arith, e, l))
        ]
        | inr (m, q) ↦
            let (known, d) = traced m n k q in
            let before : mem m order ≡ true = o.0 m (ap previous (ground (arith, same)) ∙ q) in
            longer cost self m n
              (traced-Between self order m u o.1 before known (omega (arith, d.sum, l))) d
      ]
    ]

    -- What a walk back from a node finds: a direct node, and a way from it on which no node after it
    -- is direct.
    abbrev pub Finds : (ℕ → Bool) → ℕ → Option ℕ → Type 0
    Finds direct n none = ⊥
    Finds direct n (some p) =
        (direct p ≡ true)
        × (mem p nodes ≡ true)
        × (b : Between cost p n) × All (λ (e : Edge). direct e.target ≡ false) b.edges

    pub Finds-longer :
        (direct : ℕ → Bool) (m n : ℕ) (found : Option ℕ)
        → Finds direct m found
        → Leads outgoing cost m n
        → direct n ≡ false
        → Finds direct n found
    unfolding longer
    Finds-longer direct m n none f d k = f
    Finds-longer direct m n (some p) f d k = (
      f.0,
      f.1,
      longer cost p m n f.2 d,
      All-append (λ (e : Edge). direct e.target ≡ false) f.2.edges (d.edge ∷ []) f.3
          (ap direct d.arrives ∙ k, tt),
    )

    -- The walk back from a node that has been reached ends at a direct one, where this node counts
    -- as direct.
    pub walk-Finds :
        (direct : ℕ → Bool) (self fuel : ℕ) (order : List ℕ) (n : ℕ)
        → direct self ≡ true
        → ((n : ℕ)
            → mem n nodes ≡ true
            → previous n ≡ none
            → (n ≡ self) ⊎ (cost n ≡ max_safe_integer))
        → IsOrdered previous order
        → length order ≤ fuel
        → mem n order ≡ true
        → mem n nodes ≡ true
        → cost n < max_safe_integer
        → Finds direct n (walk fuel direct previous (some n))
    unfolding walk
    walk-Finds direct self fuel [] n ds u o l a k b = absurd (let q : false ≡ true = a in cc)
    walk-Finds direct self zero (x ∷ order) n ds u o l a k b = absurd (omega (arith, l))
    walk-Finds direct self (suc fuel) (x ∷ order) n ds u o l a k b = elim (Bool-cases (x == n)) [
      | inr other ↦
          walk-Finds direct self (suc fuel) order n ds u o.1 (omega (arith, l))
            (ground (arith, a, other)) k b
      | inl same ↦ elim (Bool-cases (direct n)) [
        | inl d ↦ rw d (d, k, record { edges = []; is_way = refl; length_of = omega arith }, tt)
        | inr d ↦ elim (Option-cases (previous n)) [
          | inl q ↦ absurd (elim (u n k q) [
            | inl e ↦ (let f : false ≡ true = sym d ∙ ap direct e ∙ ds in cc)
            | inr e ↦ omega (arith, e, b)
          ])
          | inr (m, q) ↦
              let (known, e) = traced m n k q in
              let before : mem m order ≡ true = o.0 m (ap previous (ground (arith, same)) ∙ q) in
              rw (d, q)
                (Finds-longer direct m n (walk fuel direct previous (some m))
                  (walk-Finds direct self fuel order m ds u o.1 (omega (arith, l)) before known
                    (omega (arith, e.sum, b)))
                  e d)
        ]
      ]
    ]
