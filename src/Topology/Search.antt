-- ===== src/Topology/Search.antt =====
-- Routing.calculatePaths: the search for the shortest paths, and the peers that follow from it.
use ataraxia.Base.{
  ℕ, zero, suc, ◌+◌, ◌-◌, ◌^◌, ◌≤◌, ◌≡◌, Option, none, some, Bool, true, false, List, [], ◌∷◌, ◌++◌,
  ◌==◌, if◌then◌else◌, ltb, length, bytes_eq,
}
use ataraxia.Map
use ataraxia.Topology.Graph.{Edge, Peer, Graph, put}

-- `INode` of the heap: a key and the object it was inserted with.
pub record Entry : Type 0 where
  pub key : ℕ
  pub node : ℕ

-- A list without one entry.
pub data Without (e : Entry) : List Entry → List Entry → Type 0 where
  here : {rest : List Entry} → Without e (e ∷ rest) rest
  there :
      {entries rest : List Entry} (x : Entry)
      → Without e entries rest
      → Without e (x ∷ entries) (x ∷ rest)

abbrev pub IsLeast : Entry → List Entry → Type 0
IsLeast e [] = Unit
IsLeast e (x ∷ entries) = (e.key ≤ x.key) × IsLeast e entries

-- What is used of @tyriar/fibonacci-heap, a heap being the list of its entries: an entry of least
-- key is extracted, if there is any.
pub record Heap : Type 0 where
  pub extract_minimum : List Entry → Option (Entry × List Entry)
  pub extract_none : (h : List Entry) → extract_minimum h ≡ none → h ≡ []
  pub extract_some :
      (h rest : List Entry) (e : Entry)
      → extract_minimum h ≡ some (e, rest)
      → Without e h rest × IsLeast e h

-- `decreaseKey` of the entry of a node.
unfoldable pub decrease_key : ℕ → ℕ → List Entry → List Entry
decrease_key n key [] = []
decrease_key n key (e ∷ h) =
    let rest = decrease_key n key h in
    if e.node == n then record { key = key; node = n } ∷ h else e ∷ rest

-- `Number.MAX_SAFE_INTEGER`
abbrev pub max_safe_integer : ℕ
max_safe_integer = 2 ^ 53 - 1

-- The fields that the search writes, and its heap.
pub record Search : Type 0 where
  pub cost : ℕ → ℕ
  pub previous : ℕ → Option ℕ
  pub inserted : ℕ → Bool
  pub heap : List Entry
  pub thrown : Bool

-- The first loop, over the known nodes.
unfoldable pub insert_all : ℕ → List ℕ → Search → Search
insert_all self [] s = s
insert_all self (n ∷ nodes) s =
    let cost = if self == n then 0 else max_safe_integer in
    insert_all self nodes (record s {
      cost = put n cost s.cost;
      previous = put n none s.previous;
      inserted = put n true s.inserted;
      heap = s.heap ++ record { key = cost; node = n } ∷ [];
    })

unfoldable pub relax : ℕ → Edge → Search → Search
unfolding decrease_key
relax n edge s =
    let cost = s.cost n + edge.cost in
    if ltb cost (s.cost edge.target)
    then (let t = record s {
      cost = put edge.target cost s.cost;
      previous = put edge.target (some n) s.previous;
    } in
        if s.inserted edge.target
        then record t { heap = decrease_key edge.target cost s.heap }
        else record t { thrown = true })
    else s

-- The loop over the edges of a node, which ends where one throws.
unfoldable pub relax_all : ℕ → List Edge → Search → Search
unfolding relax
relax_all n [] s = s
relax_all n (edge ∷ edges) s =
    let t = relax n edge s in let rest = relax_all n edges t in if t.thrown then t else rest

abbrev pub start_search : ℕ → Graph → Search
start_search self g = insert_all self (Map.values g.nodes) (record {
  cost = g.search_cost;
  previous = g.search_previous;
  inserted = g.search_node;
  heap = [];
  thrown = false;
})

module _ (heap : Heap) where
  -- The loop on the heap: a round takes an entry out, so their number is fuel enough.
  unfoldable pub search : ℕ → (ℕ → List Edge) → Search → Search
  unfolding relax_all
  search zero outgoing s = s
  search (suc fuel) outgoing s = elim (heap.extract_minimum s.heap) [
    | none ↦ s
    | some (e, rest) ↦
        let t = relax_all e.node (outgoing e.node) (record s { heap = rest }) in
        let more = search fuel outgoing t in if t.thrown then t else more
  ]

  unfoldable pub search_graph : ℕ → Graph → Search
  unfolding search insert_all
  search_graph self g = search (length (Map.values g.nodes)) g.outgoing (start_search self g)

-- `while(previous && ! previous.direct) previous = previous.searchPrevious`
unfoldable pub walk : ℕ → (ℕ → Bool) → (ℕ → Option ℕ) → Option ℕ → Option ℕ
walk fuel direct previous none = none
walk zero direct previous (some n) = some n
walk (suc fuel) direct previous (some n) =
    let rest = walk fuel direct previous (previous n) in if direct n then some n else rest

-- The peer of a node after the search; with `peers` the function that the constructor is given.
unfoldable pub assign : (List ℕ → Option Peer) → ℕ → ℕ → Graph → Graph
unfolding walk
assign peers fuel n g =
    let h = record g { search_node = put n false g.search_node } in
    let lost = record h { peer = put n none g.peer; version = put n 0 g.version } in
    if g.direct n
    then record h { peer = put n (peers (g.id n)) g.peer }
    else elim (g.search_previous n) [
      | none ↦ lost
      | some m ↦ elim (walk fuel g.direct g.search_previous (some m)) [
        | none ↦ lost
        | some p ↦ if g.direct p then record h { peer = put n (peers (g.id p)) g.peer } else lost
      ]
    ]

unfoldable pub assign_all : (List ℕ → Option Peer) → ℕ → List ℕ → Graph → Graph
unfolding assign
assign_all peers fuel [] g = g
assign_all peers fuel (n ∷ nodes) g = assign_all peers fuel nodes (assign peers fuel n g)

-- `calculatePaths`; `none` where it throws. A path goes through known nodes, so their number is
-- fuel enough for each walk.
unfoldable pub calculate_paths : Heap → (List ℕ → Option Peer) → ℕ → Graph → Option Graph
unfolding search_graph assign_all
calculate_paths heap peers self g =
    let s = search_graph heap self g in
    let h = record g {
      search_cost = s.cost;
      search_previous = s.previous;
      search_node = s.inserted;
    } in
    if s.thrown
    then none
    else some (assign_all peers (length (Map.values g.nodes)) (Map.values g.nodes) h)
