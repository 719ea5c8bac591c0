-- ===== src/Topology/Linking.antt =====
-- What the edges of this node say of its peers.
use ataraxia.Base.{
  ℕ, ◌≡◌, ◌⊎◌, refl, sym, ap, subst, ◌∙◌, Option, none, some, true, false, List, [], ◌∷◌, ◌++◌,
  ◌==◌, All, arith, Bool-cases, Option-cases, inl, inr, bytes_eq, Text,
}
use ataraxia.IdMap
use ataraxia.IdMap.{IdMap}
use ataraxia.Ids.{encode_id}
use ataraxia.Map
use ataraxia.Map.Once.{HasKeysOnce}
use ataraxia.Topology.Graph.{Edge, Peer}
use ataraxia.Topology.Relaxing.{Among}
use ataraxia.Topology.Valid.{IsKnown}
use ataraxia.Topology.Routing.{Topology, peer_of}
use ataraxia.Topology.Handlers.{peer_array}
use ataraxia.Topology.Sound.{IsSound, IsLinked, text}

Among-append_left : {A : Type 0} (x : A) (xs ys : List A) → Among x xs → Among x (xs ++ ys)
Among-append_left x [] ys a = absurd a
Among-append_left x (y ∷ xs) ys (inl q) = inl q
Among-append_left x (y ∷ xs) ys (inr a) = inr (Among-append_left x xs ys a)

Among-append_right : {A : Type 0} (x : A) (xs ys : List A) → Among x ys → Among x (xs ++ ys)
Among-append_right x [] ys a = a
Among-append_right x (y ∷ xs) ys a = inr (Among-append_right x xs ys a)

Among-append : {A : Type 0} (x : A) (xs ys : List A) → Among x (xs ++ ys) → Among x xs ⊎ Among x ys
Among-append x [] ys a = inr a
Among-append x (y ∷ xs) ys (inl q) = inl (inl q)
Among-append x (y ∷ xs) ys (inr a) = elim (Among-append x xs ys a) [
  | inl b ↦ inl (inr b)
  | inr b ↦ inr b
]

get-Among :
    (key : Text) (p : Peer) (ps : List Peer) (m : IdMap (List Peer))
    → Map.get key m ≡ some ps
    → Among p ps
    → Among p (peer_array (Map.values m))
unfolding Map.get peer_array
get-Among key p ps [] q a = absurd (let f : ◌≡◌ {A = Option (List Peer)} none (some ps) = q in cc)
get-Among key p ps ((j, qs) ∷ m) q a = elim (Bool-cases (bytes_eq.beq j key)) [
  | inl same ↦
      let e : ps ≡ qs = ground (arith, same, q) in
      Among-append_left p qs (peer_array (Map.values m)) (subst (Among p) e a)
  | inr other ↦
      Among-append_right p qs (peer_array (Map.values m))
        (get-Among key p ps m (ground (arith, other, q)) a)
]

Among-get :
    (p : Peer) (m : IdMap (List Peer))
    → HasKeysOnce m
    → Among p (peer_array (Map.values m))
    → (key : Text) × (ps : List Peer) × (Map.get key m ≡ some ps) × Among p ps
unfolding Map.get peer_array
Among-get p [] o a = absurd a
Among-get p ((j, qs) ∷ m) o a = elim (Among-append p qs (peer_array (Map.values m)) a) [
  | inl b ↦ (j, qs, ground (arith, bytes_eq.beq_iff j j), b)
  | inr b ↦
      let (key, ps, q, c) = Among-get p m o.1 b in
      (key, ps, ground (arith, q, Map.has_of_some key ps m q, o.0, bytes_eq.beq_iff j key), c)
]

linked-edge :
    (nodes : IdMap ℕ) (edges : List Edge) (peers : List Peer) (p : Peer) (n : ℕ)
    → IsLinked nodes edges peers
    → Among p peers
    → Map.get (encode_id p.id) nodes ≡ some n
    → (e : Edge) × Among e edges × (e.target ≡ n)
linked-edge nodes edges [] p n l a q = absurd a
linked-edge nodes [] (r ∷ peers) p n l a q = absurd l
linked-edge nodes (e ∷ edges) (r ∷ peers) p n l (inl f) q =
    let g : some e.target ≡ some n =
      sym l.0 ∙ ap (λ (x : Peer). Map.get (encode_id x.id) nodes) f ∙ q in
    (e, inl refl, ground (arith, g))
linked-edge nodes (e ∷ edges) (r ∷ peers) p n l (inr a) q =
    let (d, b, f) = linked-edge nodes edges peers p n l.1 a q in (d, inr b, f)

linked-peer :
    (nodes : IdMap ℕ) (edges : List Edge) (peers : List Peer) (e : Edge)
    → IsLinked nodes edges peers
    → Among e edges
    → (p : Peer) × Among p peers × (Map.get (encode_id p.id) nodes ≡ some e.target)
linked-peer nodes [] peers e l a = absurd a
linked-peer nodes (d ∷ edges) [] e l a = absurd l
linked-peer nodes (d ∷ edges) (r ∷ peers) e l (inl f) =
    (r, inl refl, l.0 ∙ ap (λ (x : Edge). some x.target) f)
linked-peer nodes (d ∷ edges) (r ∷ peers) e l (inr a) =
    let (p, b, q) = linked-peer nodes edges peers e l.1 a in (p, inr b, q)

all-Among : {A : Type 0} (P : A → Type 0) (x : A) (xs : List A) → All P xs → Among x xs → P x
all-Among P x [] a b = absurd b
all-Among P x (y ∷ xs) a (inl q) = subst P q a.0
all-Among P x (y ∷ xs) a (inr b) = all-Among P x xs a.1 b

module _ (t : Topology) (s : IsSound t) where
  -- A direct node other than this one has a peer, and an edge leads to it.
  pub direct-peer :
      (n : ℕ)
      → IsKnown t.graph n
      → t.graph.direct n ≡ true
      → n == t.self ≡ false
      → (p : Peer) × (peer_of t.peers (t.graph.id n) ≡ some p)
        × (e : Edge) × Among e (t.graph.outgoing t.self)
        × (e.target ≡ n)
  unfolding peer_of IdMap.get Map.has
  direct-peer n k d other =
      let has : Map.has (text t.graph n) t.peers ≡ true =
        ground (arith, s.joined.direct n k, d, other) in
      elim (Option-cases (Map.get (text t.graph n) t.peers)) [
        | inl q ↦
            absurd
              (let c : false ≡ true = sym (Map.has_of_none (text t.graph n) t.peers q) ∙ has in cc)
        | inr ([], q) ↦ absurd ((s.joined.filled (text t.graph n) [] q).0 refl)
        | inr (p ∷ ps, q) ↦
            let named = (s.joined.filled (text t.graph n) (p ∷ ps) q).1.0 in
            let a = get-Among (text t.graph n) p (p ∷ ps) t.peers q (inl refl) in
            let (d, b, f) =
              linked-edge t.graph.nodes (t.graph.outgoing t.self) (peer_array (Map.values t.peers))
                p n s.linked a (ap (λ (y : Text). Map.get y t.graph.nodes) named ∙ k) in
            (p, rw (q, peer_of) refl, d, b, f)
      ]

  -- The edges of this node lead to direct nodes.
  pub edge-direct : (e : Edge) → Among e (t.graph.outgoing t.self) → t.graph.direct e.target ≡ true
  edge-direct e a =
      let (p, b, q) =
        linked-peer t.graph.nodes (t.graph.outgoing t.self) (peer_array (Map.values t.peers)) e
          s.linked a in
      let (key, ps, r, c) = Among-get p t.peers s.joined.peers_once b in
      let named : encode_id p.id ≡ key =
        all-Among (λ (r : Peer). encode_id r.id ≡ key) p ps (s.joined.filled key ps r).1 c in
      let (text_of, old) = s.joined.valid.placed (encode_id p.id) e.target q in
      let known : IsKnown t.graph e.target =
        ap (λ (y : Text). Map.get y t.graph.nodes) text_of ∙ q in
      let has = Map.has_of_some key ps t.peers r in
      ground (arith, s.joined.direct e.target known, text_of, named, has)
