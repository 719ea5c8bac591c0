-- ===== src/Topology/Valid.antt =====
-- The invariant of the graph that every operation of the topology keeps.
use ataraxia.Base.{
  ℕ, ◌<◌, ◌≤◌, ◌≡◌, ◌⊎◌, refl, sym, ap, subst, ◌∙◌, none, some, Bool, true, false, List, [], ◌∷◌,
  ◌==◌, All, arith, Bool-cases, Option-cases, inl, inr, bytes_eq, Text,
}
use ataraxia.IdMap
use ataraxia.Ids.{encode_id}
use ataraxia.Map
use ataraxia.Map.Once.{HasKeysOnce, set-HasKeysOnce}
use ataraxia.Topology.Graph.{Edge, Graph, create_node, get_or_create}

-- An object that is known, under the text of its own identifier.
abbrev pub IsKnown : Graph → ℕ → Type 0
IsKnown g n = Map.get (encode_id (g.id n)) g.nodes ≡ some n

pub record IsValid (self : ℕ) (g : Graph) : Type 0 where
  pub once : HasKeysOnce g.nodes
  pub placed :
      (key : Text) (n : ℕ)
      → Map.get key g.nodes ≡ some n
      → (encode_id (g.id n) ≡ key) × (n < g.next)
  pub own : IsKnown g self
  pub closed : (n : ℕ) → IsKnown g n → All (λ (e : Edge). IsKnown g e.target) (g.outgoing n)

pub get-IsKnown :
    (self : ℕ) (g : Graph) (key : Text) (n : ℕ)
    → IsValid self g
    → Map.get key g.nodes ≡ some n
    → IsKnown g n
get-IsKnown self g key n v q = ap (λ k. Map.get k g.nodes) (v.placed key n q).0 ∙ q

pub map_All :
    {A : Type 0} {P Q : A → Type 0} (xs : List A) → ((x : A) → P x → Q x) → All P xs → All Q xs
map_All [] f a = tt
map_All (x ∷ xs) f a = (f x a.0, map_All xs f a.1)

-- What is known stays known, and what becomes known is new; the free objects keep their edges and
-- versions.
pub record Extends (free : ℕ → Bool) (g h : Graph) : Type 0 where
  pub keys : (key : Text) (n : ℕ) → Map.get key g.nodes ≡ some n → Map.get key h.nodes ≡ some n
  pub known : (n : ℕ) → IsKnown g n → IsKnown h n
  pub back : (n : ℕ) → n < g.next → IsKnown h n → IsKnown g n
  pub fresh :
      (n : ℕ)
      → g.next ≤ n
      → IsKnown h n
      → (h.direct n ≡ false) × (Map.get (encode_id (h.id n)) g.nodes ≡ none)
  pub ids : (n : ℕ) → n < g.next → h.id n ≡ g.id n
  pub directs : (n : ℕ) → n < g.next → h.direct n ≡ g.direct n
  pub edges : (n : ℕ) → n < g.next → free n ≡ true → h.outgoing n ≡ g.outgoing n
  pub versions : (n : ℕ) → n < g.next → free n ≡ true → h.version n ≡ g.version n
  pub later : g.next ≤ h.next

pub refl-Extends : (free : ℕ → Bool) (self : ℕ) (g : Graph) → IsValid self g → Extends free g g
refl-Extends free self g v = record {
  keys = λ key n q. q;
  known = λ n k. k;
  back = λ n l k. k;
  fresh = λ n l k. absurd (omega (arith, l, (v.placed (encode_id (g.id n)) n k).1));
  ids = λ n l. refl;
  directs = λ n l. refl;
  edges = λ n l f. refl;
  versions = λ n l f. refl;
  later = omega arith;
}

not_before :
    (free : ℕ → Bool) (g h : Graph) (key : Text)
    → Extends free g h
    → Map.get key h.nodes ≡ none
    → Map.get key g.nodes ≡ none
not_before free g h key a q = elim (Option-cases (Map.get key g.nodes)) [
  | inl e ↦ e
  | inr (m, e) ↦ absurd (let f : none ≡ some m = sym q ∙ a.keys key m e in cc)
]

pub lt-cases : (a b : ℕ) → (a < b) ⊎ (b ≤ a)
lt-cases a b = ground arith

trans_fresh :
    (free : ℕ → Bool) (g h k : Graph)
    → Extends free g h
    → Extends free h k
    → (n : ℕ) → g.next ≤ n
    → IsKnown k n
    → (k.direct n ≡ false) × (Map.get (encode_id (k.id n)) g.nodes ≡ none)
trans_fresh free g h k a b n l q = elim (lt-cases n h.next) [
  | inl old ↦
      let (d, e) = a.fresh n l (b.back n old q) in
      (b.directs n old ∙ d, ap (λ x. Map.get (encode_id x) g.nodes) (b.ids n old) ∙ e)
  | inr new ↦ let (d, e) = b.fresh n new q in (d, not_before free g h (encode_id (k.id n)) a e)
]

pub trans-Extends :
    (free : ℕ → Bool) (g h k : Graph) → Extends free g h → Extends free h k → Extends free g k
trans-Extends free g h k a b = record {
  keys = λ key n q. b.keys key n (a.keys key n q);
  known = λ n q. b.known n (a.known n q);
  back = λ n l q. a.back n l (b.back n (omega (arith, l, a.later)) q);
  fresh = λ n l q. trans_fresh free g h k a b n l q;
  ids = λ n l. b.ids n (omega (arith, l, a.later)) ∙ a.ids n l;
  directs = λ n l. b.directs n (omega (arith, l, a.later)) ∙ a.directs n l;
  edges = λ n l f. b.edges n (omega (arith, l, a.later)) f ∙ a.edges n l f;
  versions = λ n l f. b.versions n (omega (arith, l, a.later)) f ∙ a.versions n l f;
  later = omega (arith, a.later, b.later);
}

module _ (free : ℕ → Bool) (self : ℕ) (id : List ℕ) (g : Graph) where
  old_IsKnown : (n : ℕ) → g.next == n ≡ false → IsKnown (create_node id g) n → IsKnown g n
  unfolding create_node IdMap.set
  old_IsKnown n other k =
      ground (arith, other, k, Map.get-set (encode_id id) (encode_id (g.id n)) g.next g.nodes)

  create_node-id : (create_node id g).id g.next ≡ id
  unfolding create_node
  create_node-id = ground arith

  create_node-IsValid :
      IsValid self g
      → Map.get (encode_id id) g.nodes ≡ none
      → IsValid self (create_node id g)
        × IsKnown (create_node id g) g.next
        × Extends free g (create_node id g)
  unfolding create_node IdMap.set
  create_node-IsValid v q =
      let keep : (n : ℕ) → IsKnown g n → IsKnown (create_node id g) n = λ n k. ground (
        arith,
        (v.placed (encode_id (g.id n)) n k).1,
        k,
        q,
        Map.get-set (encode_id id) (encode_id (g.id n)) g.next g.nodes,
        bytes_eq.beq_iff (encode_id id) (encode_id (g.id n)),
      ) in
      (
        record {
          once = set-HasKeysOnce (encode_id id) g.next g.nodes v.once;
          placed = λ key n k. ground (
            arith,
            Map.get-set (encode_id id) key g.next g.nodes,
            bytes_eq.beq_iff (encode_id id) key,
            v.placed key n,
            k,
          );
          own = keep self v.own;
          closed = λ n k. elim (Bool-cases (g.next == n)) [
            | inl same ↦
                subst (All (λ (e : Edge). IsKnown (create_node id g) e.target))
                  (let e : [] ≡ (create_node id g).outgoing n = ground (arith, same) in e) tt
            | inr other ↦
                subst (All (λ (e : Edge). IsKnown (create_node id g) e.target))
                  (let e : g.outgoing n ≡ (create_node id g).outgoing n = ground (arith, other) in
                    e)
                  (map_All (g.outgoing n) (λ (e : Edge) a. keep e.target a)
                    (v.closed n (old_IsKnown n other k)))
          ];
        },
        ground (
          arith,
          Map.get-set (encode_id id) (encode_id id) g.next g.nodes,
          bytes_eq.beq_iff (encode_id id) (encode_id id),
        ),
        record {
          keys = λ key n k. ground (
            arith,
            k,
            q,
            Map.get-set (encode_id id) key g.next g.nodes,
            bytes_eq.beq_iff (encode_id id) key,
          );
          known = keep;
          back = λ n l k. old_IsKnown n (ground (arith, l)) k;
          fresh = λ n l k. ground (
            arith,
            l,
            k,
            q,
            v.placed (encode_id (g.id n)) n,
            Map.get-set (encode_id id) (encode_id (g.id n)) g.next g.nodes,
            Map.get-set (encode_id id) (encode_id id) g.next g.nodes,
          );
          ids = λ n l. ground (arith, l);
          directs = λ n l. ground (arith, l);
          edges = λ n l f. ground (arith, l);
          versions = λ n l f. ground (arith, l);
          later = omega arith;
        },
      )

  pub get_or_create-IsValid :
      IsValid self g
      → let r = get_or_create id g in
        IsValid self r.1
        × IsKnown r.1 r.0
        × Extends free g r.1
        × (encode_id (r.1.id r.0) ≡ encode_id id)
  unfolding get_or_create IdMap.get
  get_or_create-IsValid v = elim (Option-cases (Map.get (encode_id id) g.nodes)) [
    | inl q ↦
        rw (q, get_or_create)
          (let (w, k, x) = create_node-IsValid v q in (w, k, x, ap encode_id create_node-id))
    | inr (n, q) ↦
        rw (q, get_or_create)
          (
            v,
            get-IsKnown self g (encode_id id) n v q,
            refl-Extends free self g v,
            (v.placed (encode_id id) n q).0,
          )
  ]
