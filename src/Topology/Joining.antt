-- ===== src/Topology/Joining.antt =====
-- Peers added, replaced and removed, before this node's edges follow.
use ataraxia.Base.{
  ℕ, ◌≡◌, ◌≢◌, sym, ap, subst, ◌∙◌, none, some, Bool, true, false, List, [], ◌∷◌, ◌==◌, All, arith,
  Bool-cases, Option-cases, inl, inr, bytes_eq, Text,
}
use ataraxia.Ids.{encode_id}
use ataraxia.Map
use ataraxia.Map.Once.{set-HasKeysOnce, delete-HasKeysOnce}
use ataraxia.Topology.Graph.{Peer, Graph, put}
use ataraxia.Topology.Nodes.{remove_routing}
use ataraxia.Topology.Valid.{IsKnown, IsValid, refl-Extends}
use ataraxia.Topology.Changing.{Goes, then-Goes, keep-IsKnown, remove_routing-Goes}
use ataraxia.Topology.Routing.{Topology}
use ataraxia.Topology.Handlers.{remove_all, splice_peer}
use ataraxia.Topology.Sound.{IsJoined, text}

direct-IsValid :
    (self : ℕ) (g : Graph) (direct : ℕ → Bool)
    → IsValid self g
    → IsValid self (record g { direct = direct })
direct-IsValid self g direct v = record {
  once = v.once;
  placed = v.placed;
  own = v.own;
  closed = v.closed;
}

module _ (t : Topology) (s : IsJoined t) (n : ℕ) (key : Text) (known : IsKnown t.graph n)
    (named : text t.graph n ≡ key) (other : key ≢ text t.graph t.self) where
  -- Another known node has another text.
  others : (m : ℕ) → IsKnown t.graph m → m == n ≡ false → bytes_eq.beq key (text t.graph m) ≡ false
  others m k d = elim (Bool-cases (bytes_eq.beq key (text t.graph m))) [
    | inr q ↦ q
    | inl q ↦
        let e : text t.graph n ≡ text t.graph m =
          named ∙ (bytes_eq.beq_iff key (text t.graph m)).0 q in
        let f : some n ≡ some m = sym known ∙ ap (λ (y : Text). Map.get y t.graph.nodes) e ∙ k in
        ground (arith, f, d)
  ]

  not_self : n == t.self ≡ false
  not_self = elim (Bool-cases (n == t.self)) [
    | inr q ↦ q
    | inl q ↦
        absurd (other (sym named ∙ ap (text t.graph) (let e : n ≡ t.self = ground (arith, q) in e)))
  ]

  not_own : bytes_eq.beq key (text t.graph t.self) ≡ false
  not_own = others t.self s.valid.own (ground (arith, not_self))

  -- The peers of a node, which is direct from then on.
  pub peers-IsJoined :
      (peers : List Peer) (direct : ℕ → Bool)
      → direct n ≡ true
      → ((m : ℕ) → m == n ≡ false → direct m ≡ t.graph.direct m)
      → peers ≢ []
      → All (λ (p : Peer). encode_id p.id ≡ key) peers
      → IsJoined (record t {
        graph = record t.graph { direct = direct };
        peers = Map.set key peers t.peers;
      })
  peers-IsJoined peers direct on same_direct full all = record {
    valid = direct-IsValid t.self t.graph direct s.valid;
    direct = λ m k. elim (Bool-cases (m == n)) [
      | inl same ↦ ground (
        arith,
        same,
        on,
        named,
        Map.has-set key (text t.graph m) peers t.peers,
        bytes_eq.beq_iff key (text t.graph n),
      )
      | inr d ↦ ground (
        arith,
        d,
        s.direct m k,
        same_direct m d,
        others m k d,
        Map.has-set key (text t.graph m) peers t.peers,
      )
    ];
    peered = λ j ps q. elim (Bool-cases (bytes_eq.beq key j)) [
      | inl same ↦ (
        n,
        ap (λ (y : Text). Map.get y t.graph.nodes) (sym (named ∙ (bytes_eq.beq_iff key j).0 same))
            ∙ known,
      )
      | inr d ↦ s.peered j ps (ground (arith, d, q, Map.get-set key j peers t.peers))
    ];
    filled = λ j ps q. elim (Bool-cases (bytes_eq.beq key j)) [
      | inl same ↦
          let e : peers ≡ ps = ground (arith, same, q, Map.get-set key j peers t.peers) in
          let f = (bytes_eq.beq_iff key j).0 same in
          (
            λ g. full (e ∙ g),
            subst (λ (y : Text). All (λ (p : Peer). encode_id p.id ≡ y) ps) f
                (subst (All (λ (p : Peer). encode_id p.id ≡ key)) e all),
          )
      | inr d ↦ s.filled j ps (ground (arith, d, q, Map.get-set key j peers t.peers))
    ];
    peers_once = set-HasKeysOnce key peers t.peers s.peers_once;
    alone = ground (arith, not_own, s.alone, Map.get-set key (text t.graph t.self) peers t.peers);
  }

  -- A node whose last peer is gone.
  pub no_peers-IsJoined : IsJoined (record t {
    graph = record t.graph { direct = put n false t.graph.direct };
    peers = Map.delete key t.peers;
  })
  no_peers-IsJoined = record {
    valid = direct-IsValid t.self t.graph (put n false t.graph.direct) s.valid;
    direct = λ m k. elim (Bool-cases (m == n)) [
      | inl same ↦ ground (
        arith,
        same,
        named,
        not_self,
        Map.has-delete key (text t.graph m) t.peers,
        bytes_eq.beq_iff key (text t.graph n),
      )
      | inr d ↦
          ground (arith, d, s.direct m k, others m k d, Map.has-delete key (text t.graph m) t.peers)
    ];
    peered = λ j ps q. s.peered j ps (ground (arith, q, Map.get-delete key j t.peers));
    filled = λ j ps q. s.filled j ps (ground (arith, q, Map.get-delete key j t.peers));
    peers_once = delete-HasKeysOnce key t.peers s.peers_once;
    alone = ground (arith, s.alone, Map.get-delete key (text t.graph t.self) t.peers);
  }

pub splice_peer-All :
    (P : Peer → Type 0) (number : ℕ) (peers rest : List Peer)
    → splice_peer number peers ≡ some rest
    → All P peers
    → All P rest
unfolding splice_peer
splice_peer-All P number [] rest q a = absurd (let f : none ≡ some rest = q in cc)
splice_peer-All P number (p ∷ peers) rest q a = elim (Bool-cases (p.number == number)) [
  | inl same ↦
      let e : peers ≡ rest = ground (arith, same, q) in subst (λ (ps : List Peer). All P ps) e a.1
  | inr d ↦ elim (Option-cases (splice_peer number peers)) [
    | inl f ↦ absurd (let g : none ≡ some rest = ground (arith, d, f, q) in cc)
    | inr (ps, f) ↦
        let e : p ∷ ps ≡ rest = ground (arith, d, f, q) in
        subst (λ (ps : List Peer). All P ps) e (a.0, splice_peer-All P number peers ps f a.1)
  ]
]

pub remove_all-Goes :
    (free : ℕ → Bool) (self : ℕ) (p : Peer) (nodes : List ℕ) (g : Graph)
    → ((n : ℕ) → free n ≡ false)
    → IsValid self g
    → All (IsKnown g) nodes
    → Goes free self g (remove_all p nodes g)
unfolding remove_all
remove_all-Goes free self p [] g c v k = record { valid = v; extends = refl-Extends free self g v }
remove_all-Goes free self p (n ∷ nodes) g c v k =
    let h = (remove_routing n p g).1 in
    let a = remove_routing-Goes free self n (c n) p g v k.0 in
    then-Goes free self g h (remove_all p nodes h) a
      (remove_all-Goes free self p nodes h c a.valid (keep-IsKnown free self g h nodes a k.1))
