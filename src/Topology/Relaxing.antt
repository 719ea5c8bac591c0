-- ===== src/Topology/Relaxing.antt =====
-- The state of the search between two rounds, and the loop over the edges of one node.
use ataraxia.Base.{
  ℕ, ◌+◌, ◌≤◌, ◌<◌, ◌≡◌, ◌⊎◌, inl, inr, refl, sym, subst, ◌∙◌, Option, none, some, true, false,
  List, [], ◌∷◌, ◌==◌, not, if◌then◌else◌, ltb, length, All, arith, Bool-cases,
}
use ataraxia.Topology.Graph.{Edge, put}
use ataraxia.Topology.Search.{Search, decrease_key, relax, relax_all, max_safe_integer}
use ataraxia.Topology.Entries.{
  mem, holds, OneEach, IsKeyed, holds-decrease_key, decrease_key-OneEach, length-decrease_key,
  decrease_key-IsKeyed,
}

abbrev pub Among : {A : Type 0} → A → List A → Type 0
Among x [] = ⊥
Among x (y ∷ ys) = (y ≡ x) ⊎ Among x ys

-- The edges of known nodes lead to known nodes.
abbrev pub IsClosed : (ℕ → List Edge) → List ℕ → Type 0
IsClosed outgoing nodes =
    (n : ℕ) → mem n nodes ≡ true → All (λ (e : Edge). mem e.target nodes ≡ true) (outgoing n)

-- No edge offers a shorter way to its target.
abbrev pub IsRelaxed : (ℕ → ℕ) → ℕ → List Edge → Type 0
IsRelaxed cost n = All (λ (e : Edge). cost e.target ≤ cost n + e.cost)

-- The node before another one on its way, with the edge between them.
pub record Leads (outgoing : ℕ → List Edge) (cost : ℕ → ℕ) (m n : ℕ) : Type 0 where
  pub edge : Edge
  pub leaves : Among edge (outgoing m)
  pub arrives : edge.target ≡ n
  pub sum : cost m + edge.cost ≡ cost n

-- Every node before another one was taken from the heap before it.
abbrev pub IsOrdered : (ℕ → Option ℕ) → List ℕ → Type 0
IsOrdered previous [] = Unit
IsOrdered previous (n ∷ order) =
    ((m : ℕ) → previous n ≡ some m → mem m order ≡ true) × IsOrdered previous order

module _ (outgoing : ℕ → List Edge) (nodes : List ℕ) (self : ℕ) where
  -- The search when the nodes in `order` have been taken from the heap, the last one first.
  pub record Sound (order : List ℕ) (s : Search) : Type 0 where
    pub keyed : IsKeyed s.cost s.heap
    pub one_each : OneEach s.heap
    pub waits : (n : ℕ) → mem n nodes ≡ true → holds n s.heap ≡ not (mem n order)
    pub held : (n : ℕ) → holds n s.heap ≡ true → mem n nodes ≡ true
    pub unknown : (n : ℕ) → mem n nodes ≡ false → mem n order ≡ false
    pub inserted : (n : ℕ) → mem n nodes ≡ true → s.inserted n ≡ true
    pub source : s.cost self ≡ 0
    pub least :
        (m n : ℕ)
        → mem m order ≡ true
        → mem n nodes ≡ true
        → mem n order ≡ false
        → s.cost m ≤ s.cost n
    pub traced :
        (m n : ℕ)
        → mem n nodes ≡ true
        → s.previous n ≡ some m
        → (mem m order ≡ true) × Leads outgoing s.cost m n
    pub untraced :
        (n : ℕ)
        → mem n nodes ≡ true
        → s.previous n ≡ none
        → (n ≡ self) ⊎ (s.cost n ≡ max_safe_integer)
    pub bounded : (n : ℕ) → mem n nodes ≡ true → s.cost n ≤ max_safe_integer
    pub reached :
        (m n : ℕ) → mem n nodes ≡ true → s.previous n ≡ some m → s.cost n < max_safe_integer
    pub ordered : IsOrdered s.previous order
    pub fine : s.thrown ≡ false

  -- What the loop over some edges of the node `u` gives.
  pub record Relaxes (order : List ℕ) (u : ℕ) (edges : List Edge) (s t : Search) : Type 0 where
    pub sound : Sound order t
    pub less : (n : ℕ) → t.cost n ≤ s.cost n
    pub fixed : (n : ℕ) → mem n order ≡ true → t.cost n ≡ s.cost n
    pub relaxed : IsRelaxed t.cost u edges
    pub size : length t.heap ≡ length s.heap

  put_previous-IsOrdered :
      (t u : ℕ) (previous : ℕ → Option ℕ) (order : List ℕ)
      → mem t order ≡ false
      → IsOrdered previous order
      → IsOrdered (put t (some u) previous) order
  put_previous-IsOrdered t u previous [] f o = tt
  put_previous-IsOrdered t u previous (n ∷ order) f o = (
    λ m e. o.0 m (ground (arith, e, f)),
    put_previous-IsOrdered t u previous order (ground (arith, f)) o.1,
  )

  module _ (order : List ℕ) (u : ℕ) (taken : mem u order ≡ true) (edge : Edge)
      (known : mem edge.target nodes ≡ true) (leaves : Among edge (outgoing u)) (s : Search)
      (w : Sound order s) (top : (m : ℕ) → mem m order ≡ true → s.cost m ≤ s.cost u) where
    -- A node that gets a shorter way still waits.
    shorter : s.cost u + edge.cost < s.cost edge.target → mem edge.target order ≡ false
    shorter l = elim (Bool-cases (mem edge.target order)) [
      | inl old ↦ absurd (omega (arith, l, top edge.target old))
      | inr new ↦ new
    ]

    lower : Search
    lower = record s {
      cost = put edge.target (s.cost u + edge.cost) s.cost;
      previous = put edge.target (some u) s.previous;
      heap = decrease_key edge.target (s.cost u + edge.cost) s.heap;
    }

    -- A node that was taken keeps its cost.
    lower-fixed :
        s.cost u + edge.cost < s.cost edge.target
        → (n : ℕ) → mem n order ≡ true
        → lower.cost n ≡ s.cost n
    unfolding lower
    lower-fixed l n a = ground (arith, shorter l, a)

    lower_traced :
        s.cost u + edge.cost < s.cost edge.target
        → (m n : ℕ) → mem n nodes ≡ true
        → lower.previous n ≡ some m
        → (mem m order ≡ true) × Leads outgoing lower.cost m n
    unfolding lower
    lower_traced l m n k e = elim (Bool-cases (n == edge.target)) [
      | inl same ↦
          let q : u ≡ m = ground (arith, e, same) in
          let t : edge.target ≡ n = ground (arith, same) in
          (
            subst (λ x. mem x order ≡ true) q taken,
            record {
              edge = edge;
              leaves = subst (λ x. Among edge (outgoing x)) q leaves;
              arrives = t;
              sum = ground (arith, lower-fixed l u taken, q, same);
            },
          )
      | inr other ↦
          let (a, d) = w.traced m n k (ground (arith, e, other)) in
          (
            a,
            record {
              edge = d.edge;
              leaves = d.leaves;
              arrives = d.arrives;
              sum = ground (arith, lower-fixed l m a, d.sum, other);
            },
          )
    ]

    lower-Sound : s.cost u + edge.cost < s.cost edge.target → Sound order lower
    unfolding lower
    lower-Sound l =
        let new = shorter l in
        record {
          keyed =
              decrease_key-IsKeyed s.cost edge.target (s.cost u + edge.cost) s.heap w.one_each
                w.keyed;
          one_each = decrease_key-OneEach edge.target (s.cost u + edge.cost) s.heap w.one_each;
          waits =
              λ n k. holds-decrease_key n edge.target (s.cost u + edge.cost) s.heap ∙ w.waits n k;
          held = λ n h.
              w.held n (sym (holds-decrease_key n edge.target (s.cost u + edge.cost) s.heap) ∙ h);
          unknown = w.unknown;
          inserted = w.inserted;
          source = ground (arith, w.source, l);
          least = λ m n a k b. ground (arith, w.least m n a k b, top m a, a, new);
          traced = λ m n k e. lower_traced l m n k e;
          untraced = λ n k e. ground (arith, w.untraced n k, e);
          bounded = λ n k. ground (arith, w.bounded n k, w.bounded edge.target known, l);
          reached = λ m n k e. ground (arith, w.reached m n k, w.bounded edge.target known, l, e);
          ordered = put_previous-IsOrdered edge.target u s.previous order new w.ordered;
          fine = w.fine;
        }

    relax-lem :
        relax u edge s ≡ (if ltb (s.cost u + edge.cost) (s.cost edge.target) then lower else s)
    unfolding relax lower
    relax-lem = ground (arith, w.inserted edge.target known)

    relax-Relaxes : Relaxes order u (edge ∷ []) s (relax u edge s)
    unfolding lower
    relax-Relaxes = elim (Bool-cases (ltb (s.cost u + edge.cost) (s.cost edge.target))) [
      | inl l ↦
          let less : s.cost u + edge.cost < s.cost edge.target = ground (arith, l) in
          rw (relax-lem, l)
            (record {
              sound = lower-Sound less;
              less = λ n. ground (arith, less);
              fixed = lower-fixed less;
              relaxed = (ground (arith, lower-fixed less u taken), tt);
              size = length-decrease_key edge.target (s.cost u + edge.cost) s.heap;
            })
      | inr l ↦
          rw (relax-lem, l)
            (record {
              sound = w;
              less = λ n. omega arith;
              fixed = λ n a. refl;
              relaxed = (ground (arith, l), tt);
              size = refl;
            })
    ]

  -- A node whose cost stays, and whose targets only get cheaper, stays relaxed.
  pub keep-IsRelaxed :
      (cost less : ℕ → ℕ) (n : ℕ) (edges : List Edge)
      → ((m : ℕ) → less m ≤ cost m)
      → less n ≡ cost n
      → IsRelaxed cost n edges
      → IsRelaxed less n edges
  keep-IsRelaxed cost less n [] l e r = tt
  keep-IsRelaxed cost less n (edge ∷ edges) l e r =
      (omega (arith, l edge.target, e, r.0), keep-IsRelaxed cost less n edges l e r.1)

  pub relax_all-Relaxes :
      (order : List ℕ) (u : ℕ) (edges : List Edge) (s : Search)
      → mem u order ≡ true
      → All (λ (e : Edge). mem e.target nodes ≡ true) edges
      → ((e : Edge) → Among e edges → Among e (outgoing u))
      → Sound order s
      → ((m : ℕ) → mem m order ≡ true → s.cost m ≤ s.cost u)
      → Relaxes order u edges s (relax_all u edges s)
  unfolding relax_all
  relax_all-Relaxes order u [] s taken known leaves w top = record {
    sound = w;
    less = λ n. omega arith;
    fixed = λ n a. refl;
    relaxed = tt;
    size = refl;
  }
  relax_all-Relaxes order u (edge ∷ edges) s taken known leaves w top =
      let t = relax u edge s in
      let one = relax-Relaxes order u taken edge known.0 (leaves edge (inl refl)) s w top in
      let more =
        relax_all-Relaxes order u edges t taken known.1 (λ e a. leaves e (inr a)) one.sound
          (λ m a. omega (arith, top m a, one.fixed m a, one.fixed u taken)) in
      let first =
        keep-IsRelaxed t.cost (relax_all u edges t).cost u (edge ∷ []) more.less
          (more.fixed u taken) one.relaxed in
      rw one.sound.fine (record {
        sound = more.sound;
        less = λ n. omega (arith, more.less n, one.less n);
        fixed = λ n a. more.fixed n a ∙ one.fixed n a;
        relaxed = (first.0, more.relaxed);
        size = more.size ∙ one.size;
      })
