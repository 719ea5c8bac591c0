-- ===== src/Topology/Listing.antt =====
-- The list of the known nodes, against the map.
use ataraxia.Base.{
  ℕ, ◌≡◌, Option, none, some, true, false, [], ◌∷◌, ◌==◌, arith, Bool-cases, inl, inr, bytes_eq,
  Text,
}
use ataraxia.IdMap.{IdMap}
use ataraxia.Ids.{encode_id}
use ataraxia.Map
use ataraxia.Map.Once.{HasKeysOnce}
use ataraxia.Topology.Graph.{Edge, Graph}
use ataraxia.Topology.Entries.{mem}
use ataraxia.Topology.Starting.{IsUnique}
use ataraxia.Topology.Paths.{Known}
use ataraxia.Topology.Valid.{IsKnown, IsValid, get-IsKnown, map_All}

pub get-mem :
    (key : Text) (n : ℕ) (m : IdMap ℕ) → Map.get key m ≡ some n → mem n (Map.values m) ≡ true
unfolding Map.get
get-mem key n [] q = absurd (let f : ◌≡◌ {A = Option ℕ} none (some n) = q in cc)
get-mem key n ((j, v) ∷ m) q = ground (arith, q, get-mem key n m)

pub mem-get :
    (n : ℕ) (m : IdMap ℕ)
    → HasKeysOnce m
    → mem n (Map.values m) ≡ true
    → (key : Text) × (Map.get key m ≡ some n)
unfolding Map.get
mem-get n [] o k = absurd (let f : false ≡ true = k in cc)
mem-get n ((j, v) ∷ m) o k = elim (Bool-cases (v == n)) [
  | inl same ↦ (j, ground (arith, same, bytes_eq.beq_iff j j))
  | inr other ↦
      let (key, q) = mem-get n m o.1 (ground (arith, k, other)) in
      let have = Map.has_of_some key n m q in
      (key, ground (arith, q, have, o.0, bytes_eq.beq_iff j key))
]

pub mem-IsKnown :
    (self n : ℕ) (g : Graph) → IsValid self g → mem n (Map.values g.nodes) ≡ true → IsKnown g n
mem-IsKnown self n g v k = let (key, q) = mem-get n g.nodes v.once k in get-IsKnown self g key n v q

-- Different keys hold different objects.
values-IsUnique :
    (name : ℕ → Text) (m : IdMap ℕ)
    → HasKeysOnce m
    → ((key : Text) (n : ℕ) → Map.get key m ≡ some n → name n ≡ key)
    → IsUnique (Map.values m)
unfolding Map.get
values-IsUnique name [] o p = tt
values-IsUnique name ((j, v) ∷ m) o p =
    let tail : (key : Text) (n : ℕ) → Map.get key m ≡ some n → Map.get key ((j, v) ∷ m) ≡ some n =
      λ key n q. ground (arith, q, Map.has_of_some key n m q, o.0, bytes_eq.beq_iff j key) in
    (
      elim (Bool-cases (mem v (Map.values m))) [
        | inr no_more ↦ no_more
        | inl k ↦
            let (key, q) = mem-get v m o.1 k in
            let here : Map.get j ((j, v) ∷ m) ≡ some v = ground (arith, bytes_eq.beq_iff j j) in
            ground (arith, p j v here, p key v (tail key v q), Map.has_of_some key v m q, o.0)
      ],
      values-IsUnique name m o.1 (λ key n q. p key n (tail key n q)),
    )

pub valid-Known : (self : ℕ) (g : Graph) → IsValid self g → Known self g
valid-Known self g v = record {
  unique =
      values-IsUnique (λ n. encode_id (g.id n)) g.nodes v.once (λ key n q. (v.placed key n q).0);
  here = get-mem (encode_id (g.id self)) self g.nodes v.own;
  closed = λ n k.
      map_All (g.outgoing n)
        (λ (e : Edge) q. get-mem (encode_id (g.id e.target)) e.target g.nodes q)
        (v.closed n (mem-IsKnown self n g v k));
}
