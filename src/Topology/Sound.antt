-- ===== src/Topology/Sound.antt =====
-- The invariant of a topology, and what changes the graph but not the peers.
use ataraxia.Base.{
  ℕ, ◌≡◌, ◌≢◌, sym, ap, subst, ◌∙◌, none, some, Bool, List, [], ◌∷◌, ◌==◌, ◌||◌, All, arith,
  Option-cases, inl, inr, bytes_eq, Text,
}
use ataraxia.IdMap.{IdMap}
use ataraxia.Ids.{encode_id}
use ataraxia.Map
use ataraxia.Map.Once.{HasKeysOnce}
use ataraxia.Topology.Graph.{Edge, Peer, Graph}
use ataraxia.Topology.Valid.{IsKnown, IsValid, lt-cases}
use ataraxia.Topology.Changing.{Goes}
use ataraxia.Topology.Routing.{Topology}
use ataraxia.Topology.Handlers.{peer_array}

-- The edges of this node, one for each peer, to the node of the peer.
abbrev pub IsLinked : IdMap ℕ → List Edge → List Peer → Type 0
IsLinked nodes [] [] = Unit
IsLinked nodes [] (p ∷ peers) = ⊥
IsLinked nodes (e ∷ edges) [] = ⊥
IsLinked nodes (e ∷ edges) (p ∷ peers) =
    (Map.get (encode_id p.id) nodes ≡ some e.target) × IsLinked nodes edges peers

abbrev pub text : Graph → ℕ → Text
text g n = encode_id (g.id n)

-- A valid graph in which this node and the nodes of peers, and no others, are direct, and each list
-- of peers has members, all of one identifier that is not this node's.
pub record IsJoined (t : Topology) : Type 0 where
  pub valid : IsValid t.self t.graph
  pub direct :
      (n : ℕ)
      → IsKnown t.graph n
      → t.graph.direct n ≡ (n == t.self || Map.has (text t.graph n) t.peers)
  pub peered :
      (key : Text) (peers : List Peer)
      → Map.get key t.peers ≡ some peers
      → (n : ℕ) × (Map.get key t.graph.nodes ≡ some n)
  pub filled :
      (key : Text) (peers : List Peer)
      → Map.get key t.peers ≡ some peers
      → (peers ≢ []) × All (λ (p : Peer). encode_id p.id ≡ key) peers
  pub peers_once : HasKeysOnce t.peers
  pub alone : Map.get (text t.graph t.self) t.peers ≡ none

-- And this node's edges are those to its peers.
pub record IsSound (t : Topology) : Type 0 where
  pub joined : IsJoined t
  pub linked : IsLinked t.graph.nodes (t.graph.outgoing t.self) (peer_array (Map.values t.peers))

pub keep-IsLinked :
    (nodes later : IdMap ℕ) (edges : List Edge) (peers : List Peer)
    → ((key : Text) (n : ℕ) → Map.get key nodes ≡ some n → Map.get key later ≡ some n)
    → IsLinked nodes edges peers
    → IsLinked later edges peers
keep-IsLinked nodes later [] [] k l = tt
keep-IsLinked nodes later [] (p ∷ peers) k l = l
keep-IsLinked nodes later (e ∷ edges) [] k l = l
keep-IsLinked nodes later (e ∷ edges) (p ∷ peers) k l =
    (k (encode_id p.id) e.target l.0, keep-IsLinked nodes later edges peers k l.1)

abbrev pub only : ℕ → ℕ → Bool
only self n = n == self

no_peers :
    (key : Text) (t : Topology)
    → IsJoined t
    → Map.get key t.graph.nodes ≡ none
    → Map.get key t.peers ≡ none
no_peers key t s q = elim (Option-cases (Map.get key t.peers)) [
  | inl e ↦ e
  | inr (peers, e) ↦
      let (n, f) = s.peered key peers e in absurd (let g : none ≡ some n = sym q ∙ f in cc)
]

-- The direct nodes of a graph that grew.
grown-direct :
    (free : ℕ → Bool) (t : Topology) (h : Graph)
    → IsJoined t
    → Goes free t.self t.graph h
    → (n : ℕ) → IsKnown h n
    → h.direct n ≡ (n == t.self || Map.has (text h n) t.peers)
grown-direct free t h s g n k = elim (lt-cases n t.graph.next) [
  | inl old ↦
      g.extends.directs n old
      ∙ s.direct n (g.extends.back n old k)
      ∙ ap (λ x. n == t.self || Map.has (encode_id x) t.peers) (sym (g.extends.ids n old))
  | inr new ↦
      let (d, e) = g.extends.fresh n new k in
      let f = Map.has_of_none (text h n) t.peers (no_peers (text h n) t s e) in
      let own = (s.valid.placed (text t.graph t.self) t.self s.valid.own).1 in
      d ∙ ground (arith, f, new, own)
]

pub grown-IsJoined :
    (free : ℕ → Bool) (t : Topology) (h : Graph)
    → IsJoined t
    → Goes free t.self t.graph h
    → IsJoined (record t { graph = h })
grown-IsJoined free t h s g =
    let own = (s.valid.placed (text t.graph t.self) t.self s.valid.own).1 in
    record {
      valid = g.valid;
      direct = grown-direct free t h s g;
      peered = λ key peers q. (let (n, e) = s.peered key peers q in (n, g.extends.keys key n e));
      filled = s.filled;
      peers_once = s.peers_once;
      alone = ap (λ x. Map.get (encode_id x) t.peers) (g.extends.ids t.self own) ∙ s.alone;
    }

pub grown-IsSound :
    (t : Topology) (h : Graph)
    → IsSound t
    → Goes (only t.self) t.self t.graph h
    → IsSound (record t { graph = h })
grown-IsSound t h s g =
    let own = (s.joined.valid.placed (text t.graph t.self) t.self s.joined.valid.own).1 in
    record {
      joined = grown-IsJoined (only t.self) t h s.joined g;
      linked =
          subst (λ (es : List Edge). IsLinked h.nodes es (peer_array (Map.values t.peers)))
            (sym (g.extends.edges t.self own (ground arith)))
            (keep-IsLinked t.graph.nodes h.nodes (t.graph.outgoing t.self)
              (peer_array (Map.values t.peers)) g.extends.keys s.linked);
    }

pub flags-IsJoined :
    (t : Topology) (dirty queued : Bool)
    → IsJoined t
    → IsJoined (record t { dirty = dirty; queued = queued })
flags-IsJoined t dirty queued s = record {
  valid = s.valid;
  direct = s.direct;
  peered = s.peered;
  filled = s.filled;
  peers_once = s.peers_once;
  alone = s.alone;
}
