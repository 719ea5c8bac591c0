-- ===== src/Topology/Graph.antt =====
-- The objects of TopologyNode.ts, and the map of those that are known.
use ataraxia.Base.{ℕ, ◌+◌, Option, none, some, Bool, false, List, [], ◌==◌, if◌then◌else◌, bytes_eq}
use ataraxia.IdMap.{IdMap, IdSet}
use ataraxia.IdMap

-- An object goes by its number, as two objects may have the same identifier: one that was dropped
-- and one that came later.
pub record Edge : Type 0 where
  pub cost : ℕ
  pub source : ℕ
  pub target : ℕ

-- The instance of a peer, and the identifier of the node at its other end.
pub record Peer : Type 0 where
  pub number : ℕ
  pub id : List ℕ

-- Each field of TopologyNode as a function of the object; `nodes` is the map of the known ones, and
-- objects from `next` on have not been created yet.
pub record Graph : Type 0 where
  pub id : ℕ → List ℕ
  pub outgoing : ℕ → List Edge
  pub incoming : ℕ → List Edge
  pub peer : ℕ → Option Peer
  pub search_cost : ℕ → ℕ
  pub search_previous : ℕ → Option ℕ
  pub search_node : ℕ → Bool
  pub direct : ℕ → Bool
  pub version : ℕ → ℕ
  pub reachable_via : ℕ → IdSet
  pub previous_reachable : ℕ → Bool
  pub nodes : IdMap ℕ
  pub next : ℕ

-- A write to a field of one object.
abbrev pub put {ℓ} : {A : Type ℓ} → ℕ → A → (ℕ → A) → ℕ → A
put n v f m = if m == n then v else f m

-- `new TopologyNode(id)`, which is put into the map.
unfoldable pub create_node : List ℕ → Graph → Graph
unfolding IdMap.set
create_node id g = record g {
  id = put g.next id g.id;
  outgoing = put g.next [] g.outgoing;
  incoming = put g.next [] g.incoming;
  peer = put g.next none g.peer;
  search_cost = put g.next 0 g.search_cost;
  search_previous = put g.next none g.search_previous;
  search_node = put g.next false g.search_node;
  direct = put g.next false g.direct;
  version = put g.next 0 g.version;
  reachable_via = put g.next [] g.reachable_via;
  previous_reachable = put g.next false g.previous_reachable;
  nodes = IdMap.set id g.next g.nodes;
  next = g.next + 1;
}

-- `getOrCreate`
unfoldable pub get_or_create : List ℕ → Graph → ℕ × Graph
unfolding create_node IdMap.get
get_or_create id g = elim (IdMap.get id g.nodes) [
  | none ↦ (g.next, create_node id g)
  | some n ↦ (n, g)
]
