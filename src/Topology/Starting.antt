-- ===== src/Topology/Starting.antt =====
-- The first loop of the search, which inserts every known node.
use ataraxia.Base.{
  ℕ, suc, ◌+◌, ◌≡◌, refl, ap, ◌∙◌, Option, none, some, Bool, true, false, List, [], ◌∷◌, ◌++◌, ◌==◌,
  ◌||◌, if◌then◌else◌, length, arith, Bool-cases, inl, inr,
}
use ataraxia.Topology.Graph.{put}
use ataraxia.Topology.Search.{Entry, Search, insert_all, max_safe_integer}
use ataraxia.Topology.Entries.{mem, holds, OneEach, IsKeyed, put-IsKeyed}
use ataraxia.Topology.Relaxing.{Sound}
use ataraxia.Topology.Graph.{Edge}

abbrev pub IsUnique : List ℕ → Type 0
IsUnique [] = Unit
IsUnique (n ∷ nodes) = (mem n nodes ≡ false) × IsUnique nodes

holds-append :
    (n : ℕ) (e : Entry) (h : List Entry) → holds n (h ++ e ∷ []) ≡ (holds n h || e.node == n)
holds-append n e [] = ground arith
holds-append n e (x ∷ h) = ground (arith, holds-append n e h)

append-OneEach :
    (e : Entry) (h : List Entry) → holds e.node h ≡ false → OneEach h → OneEach (h ++ e ∷ [])
append-OneEach e [] n o = (refl, tt)
append-OneEach e (x ∷ h) n o =
    (ground (arith, holds-append x.node e h, o.0, n), append-OneEach e h (ground (arith, n)) o.1)

append-IsKeyed :
    (cost : ℕ → ℕ) (e : Entry) (h : List Entry)
    → e.key ≡ cost e.node
    → IsKeyed cost h
    → IsKeyed cost (h ++ e ∷ [])
append-IsKeyed cost e [] q k = (q, tt)
append-IsKeyed cost e (x ∷ h) q k = (k.0, append-IsKeyed cost e h q k.1)

pub length-append_one : (e : Entry) (h : List Entry) → length (h ++ e ∷ []) ≡ suc (length h)
length-append_one e [] = refl
length-append_one e (x ∷ h) = ap suc (length-append_one e h)

module _ (self : ℕ) where
  abbrev pub first_cost : ℕ → ℕ
  first_cost n = if self == n then 0 else max_safe_integer

  -- The search when some nodes have been inserted.
  pub record Started (known : ℕ → Bool) (s : Search) : Type 0 where
    pub keyed : IsKeyed s.cost s.heap
    pub one_each : OneEach s.heap
    pub waits : (n : ℕ) → holds n s.heap ≡ known n
    pub inserted : (n : ℕ) → known n ≡ true → s.inserted n ≡ true
    pub costs : (n : ℕ) → known n ≡ true → s.cost n ≡ first_cost n
    pub no_previous : (n : ℕ) → known n ≡ true → s.previous n ≡ none
    pub fine : s.thrown ≡ false

  pub insert_all-Started :
      (nodes : List ℕ) (known all : ℕ → Bool) (s : Search)
      → IsUnique nodes
      → ((n : ℕ) → mem n nodes ≡ true → known n ≡ false)
      → ((n : ℕ) → all n ≡ (known n || mem n nodes))
      → Started known s
      → Started all (insert_all self nodes s)
        × (length (insert_all self nodes s).heap ≡ length nodes + length s.heap)
  unfolding insert_all
  insert_all-Started [] known all s u new q w = (
    record {
      keyed = w.keyed;
      one_each = w.one_each;
      waits = λ n. ground (arith, w.waits n, q n);
      inserted = λ n k. w.inserted n (ground (arith, q n, k));
      costs = λ n k. w.costs n (ground (arith, q n, k));
      no_previous = λ n k. w.no_previous n (ground (arith, q n, k));
      fine = w.fine;
    },
    omega arith,
  )
  insert_all-Started (n ∷ nodes) known all s u new q w =
      let e : Entry = record { key = first_cost n; node = n } in
      let fresh : known n ≡ false = new n (ground arith) in
      let out : holds n s.heap ≡ false = w.waits n ∙ fresh in
      let t : Search = record s {
        cost = put n (first_cost n) s.cost;
        previous = put n none s.previous;
        inserted = put n true s.inserted;
        heap = s.heap ++ e ∷ [];
      } in
      let v : Started (λ m. known m || n == m) t = record {
        keyed =
            append-IsKeyed t.cost e s.heap (ground arith)
              (put-IsKeyed s.cost n (first_cost n) s.heap out w.keyed);
        one_each = append-OneEach e s.heap out w.one_each;
        waits = λ m. ground (arith, holds-append m e s.heap, w.waits m);
        inserted = λ m k. ground (arith, w.inserted m, k);
        costs = λ m k. ground (arith, w.costs m, k);
        no_previous = λ m k. ground (arith, w.no_previous m, k);
        fine = w.fine;
      } in
      let r =
        insert_all-Started nodes (λ m. known m || n == m) all t u.1
          (λ m k. ground (arith, new m, k, u.0)) (λ m. ground (arith, q m)) v in
      (r.0, ground (arith, r.1, length-append_one e s.heap))

  -- With that the loop on the heap can begin.
  pub Started-Sound :
      (outgoing : ℕ → List Edge) (nodes : List ℕ) (s : Search)
      → mem self nodes ≡ true
      → Started (λ n. mem n nodes) s
      → Sound outgoing nodes self [] s
  Started-Sound outgoing nodes s here w = record {
    keyed = w.keyed;
    one_each = w.one_each;
    waits = λ n k. ground (arith, w.waits n, k);
    held = λ n h. ground (arith, w.waits n, h);
    unknown = λ n k. refl;
    inserted = w.inserted;
    source = ground (arith, w.costs self here);
    least = λ m n a k b. cc;
    traced = λ m n k p.
        absurd
          (let q : ◌≡◌ {A = Option ℕ} none (some m) = ground (arith, w.no_previous n k, p) in cc);
    untraced = λ n k p. elim (Bool-cases (self == n)) [
      | inl same ↦ inl (ground (arith, same))
      | inr other ↦ inr (ground (arith, w.costs n k, other))
    ];
    bounded = λ n k. ground (arith, w.costs n k);
    reached = λ m n k p.
        absurd
          (let q : ◌≡◌ {A = Option ℕ} none (some m) = ground (arith, w.no_previous n k, p) in cc);
    ordered = tt;
    fine = w.fine;
  }
