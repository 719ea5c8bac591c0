-- ===== src/Topology/Requesting.antt =====
-- What a summary of a peer makes this node ask for.
use ataraxia.Base.{
  ℕ, ◌≡◌, ◌⊎◌, refl, sym, ap, ◌∙◌, none, some, Bool, true, false, not, List, [], ◌∷◌, ◌++◌,
  append-nil, append_assoc, ◌&&◌, ltb, if◌then◌else◌, arith, Bool-cases, Option-cases, inl, inr,
  bytes_eq, Text,
}
use ataraxia.Codec.{NodeRoutingSummary, node_request}
use ataraxia.IdMap
use ataraxia.IdMap.{IdSet}
use ataraxia.Ids.{encode_id}
use ataraxia.Map
use ataraxia.Topology.Graph.{Peer, Graph, create_node, get_or_create}
use ataraxia.Topology.Valid.{IsValid, get_or_create-IsValid}
use ataraxia.Topology.Routing.{Topology, Effect, sends, starts_timer}
use ataraxia.Topology.Handlers.{
  compare_summaries, remove_unfound, queue_broadcast, handle_node_summary,
}

-- The version that is known of a node, 0 where the node is not known.
abbrev pub version_of : Text → Graph → ℕ
version_of key g = elim (Map.get key g.nodes) [ none ↦ 0 | some n ↦ g.version n ]

-- The bytes under which a node is known.
abbrev pub bytes_of : List ℕ → Graph → List ℕ
bytes_of id g = elim (Map.get (encode_id id) g.nodes) [ none ↦ id | some n ↦ g.id n ]

-- The identifiers of the summaries that are newer than what is known.
abbrev pub outdated : Graph → List NodeRoutingSummary → List (List ℕ)
outdated g [] = []
outdated g (s ∷ nodes) =
    let rest = outdated g nodes in
    if ltb (version_of (encode_id s.id) g) s.version then s.id ∷ rest else rest

-- The requests for nodes among the effects, each with the peer that it is sent to.
abbrev pub requests : List Effect → List (Peer × List (List ℕ))
requests [] = []
requests (sends p (node_request ids) ∷ effects) = (p, ids) ∷ requests effects
requests (e ∷ effects) = requests effects

-- One request to a peer, or none where there is nothing to ask for.
abbrev pub one_request : Peer → List (List ℕ) → List (Peer × List (List ℕ))
one_request p [] = []
one_request p (id ∷ ids) = (p, id ∷ ids) ∷ []

module _ (self : ℕ) (id : List ℕ) (g : Graph) (v : IsValid self g) where
  created-version_of : (key : Text) → version_of key (get_or_create id g).1 ≡ version_of key g
  unfolding get_or_create create_node IdMap.get IdMap.set
  created-version_of key = elim (Option-cases (Map.get (encode_id id) g.nodes)) [
    | inr (n, q) ↦ rw (q, get_or_create) refl
    | inl q ↦ elim (Option-cases (Map.get key g.nodes)) [
      | inl r ↦ ground (arith, q, r, Map.get-set (encode_id id) key g.next g.nodes)
      | inr (n, r) ↦ ground (
        arith,
        q,
        r,
        Map.get-set (encode_id id) key g.next g.nodes,
        v.placed key n r,
        bytes_eq.beq_iff (encode_id id) key,
      )
    ]
  ]

  found-version :
      (get_or_create id g).1.version (get_or_create id g).0 ≡ version_of (encode_id id) g
  unfolding get_or_create create_node IdMap.get IdMap.set
  found-version = ground arith

  found-bytes : (get_or_create id g).1.id (get_or_create id g).0 ≡ bytes_of id g
  unfolding get_or_create create_node IdMap.get IdMap.set
  found-bytes = ground arith

same-outdated :
    (g h : Graph) (nodes : List NodeRoutingSummary)
    → ((key : Text) → version_of key h ≡ version_of key g)
    → outdated h nodes ≡ outdated g nodes
same-outdated g h [] q = refl
same-outdated g h (s ∷ nodes) q = ground (arith, q (encode_id s.id), same-outdated g h nodes q)

choose :
    (a b version : ℕ) (ids : List (List ℕ)) (id : List ℕ) (rest : List (List ℕ))
    → a ≡ b
    → (if ltb a version then ids ++ id ∷ [] else ids) ++ rest
      ≡ ids ++ (if ltb b version then id ∷ rest else rest)
choose a b version ids id rest q = elim (Bool-cases (ltb a version)) [
  | inl l ↦
      let m : ltb b version ≡ true = ground (arith, l, q) in
      rw (l, m) (append_assoc ids (id ∷ []) rest)
  | inr l ↦ let m : ltb b version ≡ false = ground (arith, l, q) in rw (l, m) refl
]

-- A queued broadcast at most.
abbrev Quiet : List Effect → Type 0
Quiet effects = (effects ≡ []) ⊎ (effects ≡ starts_timer ∷ [])

queue_broadcast-Quiet : (broadcast : Bool) (t : Topology) → Quiet (queue_broadcast broadcast t).1
unfolding queue_broadcast
queue_broadcast-Quiet broadcast t = elim (Bool-cases (broadcast && not t.queued)) [
  | inl q ↦ inr (rw q refl)
  | inr q ↦ inl (rw q refl)
]

asks :
    (p : Peer) (effects : List Effect) (ids : List (List ℕ))
    → Quiet effects
    → requests (elim ids as (λ x. List Effect) [
      | [] ↦ effects
      | id ∷ rest ↦ effects ++ sends p (node_request (id ∷ rest)) ∷ []
    ])
      ≡ one_request p ids
asks p effects [] (inl q) = rw q refl
asks p effects [] (inr q) = rw q refl
asks p effects (id ∷ rest) (inl q) = rw q refl
asks p effects (id ∷ rest) (inr q) = rw q refl

first_choice :
    (a b version : ℕ) (x y : List ℕ) (rest : List (List ℕ))
    → a ≡ b
    → x ≡ y
    → (if ltb a version then x ∷ [] else []) ++ rest ≡ (if ltb b version then y ∷ rest else rest)
first_choice a b version x y rest q r =
    choose a b version [] x rest q ∙ ap (λ (z : List ℕ). if ltb b version then z ∷ rest else rest) r

compare_summaries-outdated :
    (self : ℕ) (nodes : List NodeRoutingSummary) (g : Graph) (found : IdSet) (ids : List (List ℕ))
    → IsValid self g
    → (compare_summaries nodes g found ids).2 ≡ ids ++ outdated g nodes
unfolding compare_summaries
compare_summaries-outdated self [] g found ids v = sym (append-nil ids)
compare_summaries-outdated self (s ∷ nodes) g found ids v =
    let (w, k, x, q) = get_or_create-IsValid (λ m. true) self s.id g v in
    let (n, h) = get_or_create s.id g in
    let more = if ltb (h.version n) s.version then ids ++ s.id ∷ [] else ids in
    let rest = compare_summaries-outdated self nodes h (IdMap.add s.id found) more w in
    let same = same-outdated g h nodes (created-version_of self s.id g v) in
    let version = found-version self s.id g v in
    rest
    ∙ ap (λ (l : List (List ℕ)). more ++ l) same
    ∙ choose (h.version n) (version_of (encode_id s.id) g) s.version ids s.id (outdated g nodes)
        version

-- A summary makes this node send one request, to the peer that the summary came from, and none to
-- any other; it is for exactly the nodes of which the summary has a newer version than was known
-- before it, in the summary's order, the peer itself first. A node that was not known counts as
-- version 0. Where no node has a newer version, no request is sent.
pub handle_node_summary-requests :
    (p : Peer) (own_version : ℕ) (nodes : List NodeRoutingSummary) (t : Topology)
    → IsValid t.self t.graph
    → requests (handle_node_summary p own_version nodes t).1
      ≡ one_request p (
          if ltb (version_of (encode_id p.id) t.graph) own_version
          then bytes_of p.id t.graph ∷ outdated t.graph nodes
          else outdated t.graph nodes)
unfolding handle_node_summary queue_broadcast
handle_node_summary-requests p own_version nodes t v =
    let (w, known, x, q) = get_or_create-IsValid (λ m. true) t.self p.id t.graph v in
    let (n, g) = get_or_create p.id t.graph in
    let first = if ltb (g.version n) own_version then g.id n ∷ [] else [] in
    let (h, found, ids) = compare_summaries nodes g (IdMap.add p.id []) first in
    let (changed, k) = remove_unfound p t.self found t.peers (Map.values h.nodes) h in
    let u : Topology = record t { graph = k } in
    let (a, effects) = if changed then queue_broadcast true u else (u, []) in
    let quiet : Quiet effects = elim (Bool-cases changed) [
      | inl c ↦ rw c (queue_broadcast-Quiet true u)
      | inr c ↦ rw c (inl refl)
    ] in
    asks p effects ids quiet
    ∙ ap (one_request p) (
        compare_summaries-outdated t.self nodes g (IdMap.add p.id []) first w
        ∙ ap (λ (l : List (List ℕ)). first ++ l)
            (same-outdated t.graph g nodes (created-version_of t.self p.id t.graph v))
        ∙ first_choice (g.version n) (version_of (encode_id p.id) t.graph) own_version (g.id n)
            (bytes_of p.id t.graph) (outdated t.graph nodes) (found-version t.self p.id t.graph v)
            (found-bytes t.self p.id t.graph v))
