-- ===== src/Topology/Dropping.antt =====
-- The loop of refresh in Routing.ts, which drops the nodes that are not available.
use ataraxia.Base.{
  ℕ, ◌≡◌, refl, sym, ap, subst, ◌∙◌, Option, none, some, Bool, true, false, List, [], ◌∷◌, ◌==◌,
  if◌then◌else◌, All, arith, Bool-cases, Option-cases, inl, inr, bytes_eq, Text,
}
use ataraxia.IdMap
use ataraxia.IdMap.{IdMap}
use ataraxia.Ids.{encode_id}
use ataraxia.Map
use ataraxia.Map.Once.{HasKeysOnce, delete-HasKeysOnce}
use ataraxia.Topology.Graph.{Peer, Graph}
use ataraxia.Topology.Entries.{mem}
use ataraxia.Topology.Routing.{refresh_node, refresh_nodes}
use ataraxia.Topology.Sound.{text}

-- `!! node.peer || node === this.self`
abbrev pub is_available : ℕ → Graph → ℕ → Bool
is_available self g n = elim (g.peer n) [ none ↦ n == self | some p ↦ true ]

-- The fields that the loop leaves alone.
abbrev pub Steady : Graph → Graph → Type 0
Steady g h =
    (h.id ≡ g.id)
    × (h.peer ≡ g.peer)
    × (h.outgoing ≡ g.outgoing)
    × (h.direct ≡ g.direct)
    × (h.next ≡ g.next)
    × (h.version ≡ g.version)

module _ (self : ℕ) where
  refresh_node-Steady : (n : ℕ) (g : Graph) → Steady g (refresh_node self n g).0
  unfolding refresh_node
  refresh_node-Steady n g = ground arith

  refresh_node-nodes :
      (n : ℕ) (g : Graph)
      → (refresh_node self n g).0.nodes
        ≡ (if is_available self g n then g.nodes else Map.delete (text g n) g.nodes)
  unfolding refresh_node IdMap.delete
  refresh_node-nodes n g = ground arith

  pub refresh_nodes-Steady : (nodes : List ℕ) (g : Graph) → Steady g (refresh_nodes self nodes g).0
  unfolding refresh_nodes
  refresh_nodes-Steady [] g = (refl, refl, refl, refl, refl, refl)
  refresh_nodes-Steady (n ∷ nodes) g =
      let (a, b, c, d, e, f) = refresh_node-Steady n g in
      let (a', b', c', d', e', f') = refresh_nodes-Steady nodes (refresh_node self n g).0 in
      (a' ∙ a, b' ∙ b, c' ∙ c, d' ∙ d, e' ∙ e, f' ∙ f)

  pub refresh_nodes-HasKeysOnce :
      (nodes : List ℕ) (g : Graph)
      → HasKeysOnce g.nodes
      → HasKeysOnce (refresh_nodes self nodes g).0.nodes
  unfolding refresh_nodes
  refresh_nodes-HasKeysOnce [] g o = o
  refresh_nodes-HasKeysOnce (n ∷ nodes) g o =
      refresh_nodes-HasKeysOnce nodes (refresh_node self n g).0 (
        subst HasKeysOnce (sym (refresh_node-nodes n g))
          (elim (Bool-cases (is_available self g n)) [
            | inl q ↦ rw q o
            | inr q ↦ rw q (delete-HasKeysOnce (text g n) g.nodes o)
          ]))

  -- No node is added.
  refresh_node-old :
      (n m : ℕ) (key : Text) (g : Graph)
      → Map.get key (refresh_node self n g).0.nodes ≡ some m
      → Map.get key g.nodes ≡ some m
  refresh_node-old n m key g q = ground (
    arith,
    ap (λ (x : IdMap ℕ). Map.get key x) (refresh_node-nodes n g),
    q,
    Map.get-delete (text g n) key g.nodes,
  )

  pub refresh_nodes-old :
      (nodes : List ℕ) (m : ℕ) (key : Text) (g : Graph)
      → Map.get key (refresh_nodes self nodes g).0.nodes ≡ some m
      → Map.get key g.nodes ≡ some m
  unfolding refresh_nodes
  refresh_nodes-old [] m key g q = q
  refresh_nodes-old (n ∷ nodes) m key g q =
      refresh_node-old n m key g (refresh_nodes-old nodes m key (refresh_node self n g).0 q)

  refresh_node-stays :
      (n m : ℕ) (key : Text) (known : IdMap ℕ) (g : Graph)
      → Map.get (text g n) known ≡ some n
      → Map.get key known ≡ some m
      → is_available self g m ≡ true
      → Map.get key g.nodes ≡ some m
      → Map.get key (refresh_node self n g).0.nodes ≡ some m
  refresh_node-stays n m key known g a k v q =
      ap (λ (x : IdMap ℕ). Map.get key x) (refresh_node-nodes n g)
      ∙ elim (Bool-cases (is_available self g n)) [
        | inl f ↦ rw f q
        | inr f ↦ rw f (elim (Bool-cases (bytes_eq.beq (text g n) key)) [
          | inr e ↦ ground (arith, e, q, Map.get-delete (text g n) key g.nodes)
          | inl e ↦
              let same : text g n ≡ key = (bytes_eq.beq_iff (text g n) key).0 e in
              let one : some n ≡ some m = sym a ∙ ap (λ (y : Text). Map.get y known) same ∙ k in
              let name : n ≡ m = cc in
              absurd (let c : false ≡ true = sym f ∙ ap (is_available self g) name ∙ v in cc)
        ])
      ]

  -- A node that is available stays.
  pub refresh_nodes-stays :
      (nodes : List ℕ) (m : ℕ) (key : Text) (known : IdMap ℕ) (g : Graph)
      → All (λ n. Map.get (text g n) known ≡ some n) nodes
      → Map.get key known ≡ some m
      → is_available self g m ≡ true
      → Map.get key g.nodes ≡ some m
      → Map.get key (refresh_nodes self nodes g).0.nodes ≡ some m
  unfolding refresh_nodes
  refresh_nodes-stays [] m key known g a k v q = q
  refresh_nodes-stays (n ∷ nodes) m key known g a k v q =
      let h = (refresh_node self n g).0 in
      let (ids, peers, o, d, x, v') = refresh_node-Steady n g in
      let kept : Map.get key h.nodes ≡ some m = refresh_node-stays n m key known g a.0 k v q in
      refresh_nodes-stays nodes m key known h
        (subst (λ (id : ℕ → List ℕ). All (λ n. Map.get (encode_id (id n)) known ≡ some n) nodes)
          (sym ids) a.1)
        k
        (ap
            (λ (p : ℕ → Option Peer). elim (p m) as (λ x. Bool) [
              | none ↦ m == self
              | some p ↦ true
            ])
            peers
          ∙ v)
        kept

  refresh_node-goes :
      (n m : ℕ) (g : Graph)
      → n ≡ m
      → is_available self g m ≡ false
      → Map.get (text g m) (refresh_node self n g).0.nodes ≡ none
  refresh_node-goes n m g e v =
      ap (λ (x : IdMap ℕ). Map.get (text g m) x) (refresh_node-nodes n g)
      ∙ rw e (
          rw v (
            ground (
              arith,
              Map.get-delete (text g m) (text g m) g.nodes,
              bytes_eq.beq_iff (text g m) (text g m),
            )))

  -- One that is not available goes.
  pub refresh_nodes-goes :
      (nodes : List ℕ) (m : ℕ) (g : Graph)
      → mem m nodes ≡ true
      → is_available self g m ≡ false
      → Map.get (text g m) (refresh_nodes self nodes g).0.nodes ≡ none
  unfolding refresh_nodes
  refresh_nodes-goes [] m g k v = absurd (let c : false ≡ true = k in cc)
  refresh_nodes-goes (n ∷ nodes) m g k v =
      let h = (refresh_node self n g).0 in
      let (ids, peers, o, d, x, v') = refresh_node-Steady n g in
      elim (Bool-cases (n == m)) [
        | inl same ↦
            let e : n ≡ m = ground (arith, same) in
            let gone : Map.get (text g m) h.nodes ≡ none = refresh_node-goes n m g e v in
            elim (Option-cases (Map.get (text g m) (refresh_nodes self nodes h).0.nodes)) [
              | inl q ↦ q
              | inr (j, q) ↦ absurd (
                  let c : none ≡ some j = sym gone ∙ refresh_nodes-old nodes j (text g m) h q in cc)
            ]
        | inr other ↦
            ap
              (λ (id : ℕ → List ℕ). Map.get (encode_id (id m)) (refresh_nodes self nodes h).0.nodes)
              (sym ids)
            ∙ refresh_nodes-goes nodes m h (ground (arith, k, other)) (
                ap
                  (λ (p : ℕ → Option Peer). elim (p m) as (λ x. Bool) [
                    | none ↦ m == self
                    | some p ↦ true
                  ])
                  peers
                ∙ v)
      ]
