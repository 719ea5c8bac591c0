-- ===== src/NodeState/Defs.antt =====
-- The state of PerNodeState and its operations.
use ataraxia.Base.{
  ℕ, ◌+◌, Option, none, some, Bool, true, false, List, [], ◌∷◌, ◌++◌, if◌then◌else◌, Text, nat_eq,
  bytes_eq, ltb,
}
use ataraxia.Map
use ataraxia.Map.{Map}

-- What is known of another node; `expires` says whether the timer of its removal is kept.
pub record NodeState (V : Type 0) : Type 0 where
  pub available : Bool
  pub expires : Bool
  pub assumed_local_version : ℕ
  pub version : ℕ
  pub value : Option V

pub record PerNodeState (V : Type 0) : Type 0 where
  pub name : Text
  pub nodes : Map Text (NodeState V)
  pub local_version : ℕ
  pub local_value : Option V

pub data Message (P : Type 0) : Type 0 where
  request : Text → ℕ → Message P
  patch : Text → ℕ → ℕ → P → Message P

pub data Effect (V P : Type 0) : Type 0 where
  send : Text → Message P → Effect V P
  start_removal clear_removal : Text → Effect V P
  emit_update : Text → Option V → Effect V P

abbrev pub new_node : {V : Type 0} → NodeState V
new_node = record {
  available = true;
  expires = false;
  assumed_local_version = 0;
  version = 0;
  value = none;
}

unfoldable pub create : {V : Type 0} → Text → Option V → PerNodeState V
create name none = record { name = name; nodes = []; local_version = 0; local_value = none }
create name (some value) = record {
  name = name;
  nodes = [];
  local_version = 1;
  local_value = some value;
}

-- `generatePatch` and `applyPatch` are given; what they are by default stands in Tests.
module _ {V P : Type 0} (generate : V → ℕ → P) (apply : Option V → P → V) where
  abbrev pub Acts : Type 0
  Acts = PerNodeState V × List (Effect V P)

  unfoldable pub handle_node_available : Text → PerNodeState V → Acts
  handle_node_available node s = elim (Map.get node s.nodes) [
    | none ↦ (record s { nodes = Map.set node new_node s.nodes }, send node (request s.name 0) ∷ [])
    | some n ↦ (
      record s { nodes = Map.set node (record n { available = true; expires = false }) s.nodes },
      (if n.expires then clear_removal node ∷ [] else [])
          ++ send node (request s.name n.version) ∷ [],
    )
  ]

  unfoldable pub handle_node_unavailable : Text → PerNodeState V → Acts
  handle_node_unavailable node s = elim (Map.get node s.nodes) [
    | none ↦ (s, [])
    | some n ↦ (
      record s { nodes = Map.set node (record n { available = false; expires = true }) s.nodes },
      start_removal node ∷ emit_update node none ∷ [],
    )
  ]

  -- The timer of a removal goes off.
  unfoldable pub remove : Text → PerNodeState V → Acts
  remove node s = (record s { nodes = Map.delete node s.nodes }, [])

  unfoldable pub get : Text → PerNodeState V → Option V
  get node s = elim (Map.get node s.nodes) [
    | none ↦ none
    | some n ↦ if n.available then n.value else none
  ]

  -- `sendStatePatch`, of the state `n` of a node.
  unfoldable pub send_state_patch : Text → NodeState V → PerNodeState V → Acts
  send_state_patch node n s = elim s.local_value [
    | none ↦ (record s { nodes = Map.set node n s.nodes }, [])
    | some value ↦ (
      record s {
        nodes = Map.set node (record n { assumed_local_version = s.local_version }) s.nodes;
      },
      send node (
            patch s.name n.assumed_local_version s.local_version
              (generate value n.assumed_local_version))
          ∷ [],
    )
  ]

  unfoldable pub send_to : Text → PerNodeState V → Acts
  unfolding send_state_patch
  send_to node s = elim (Map.get node s.nodes) [
    | none ↦ (s, [])
    | some n ↦ send_state_patch node n s
  ]

  -- The loop of `setLocal`.
  unfoldable pub send_all : List Text → PerNodeState V → Acts
  unfolding send_to
  send_all [] s = (s, [])
  send_all (node ∷ group) s =
      let sent = send_to node s in let rest = send_all group sent.0 in (rest.0, sent.1 ++ rest.1)

  -- `setLocal`, with the nodes that the group has.
  unfoldable pub set_local : List Text → V → PerNodeState V → Acts
  unfolding send_all
  set_local group value s =
      send_all group (record s { local_version = s.local_version + 1; local_value = some value })

  unfoldable pub update_local : List Text → (Option V → ℕ → V) → PerNodeState V → Acts
  unfolding set_local
  update_local group f s = set_local group (f s.local_value s.local_version) s

  unfoldable pub request_value : Text → PerNodeState V → Acts
  request_value node s = elim (Map.get node s.nodes) [
    | none ↦ (s, [])
    | some n ↦ (s, send node (request s.name n.version) ∷ [])
  ]

  unfoldable pub handle_request : Text → ℕ → PerNodeState V → Acts
  unfolding send_state_patch
  handle_request source last_version s = elim (Map.get source s.nodes) [
    | none ↦ (s, [])
    | some n ↦
        if ltb last_version s.local_version
        then send_state_patch source (record n { assumed_local_version = last_version }) s
        else (s, [])
  ]

  unfoldable pub handle_patch : Text → ℕ → ℕ → P → PerNodeState V → Acts
  unfolding request_value
  handle_patch source base version p s = elim (Map.get source s.nodes) [
    | none ↦ (s, [])
    | some n ↦
        let value = apply n.value p in
        if nat_eq.beq base n.version
        then (
          record s {
            nodes = Map.set source (record n { value = some value; version = version }) s.nodes;
          },
          emit_update source (some value) ∷ [],
        )
        else request_value source s
  ]

  unfoldable pub handle_message : Text → Message P → PerNodeState V → Acts
  unfolding handle_request handle_patch
  handle_message source (request name last_version) s =
      if bytes_eq.beq name s.name then handle_request source last_version s else (s, [])
  handle_message source (patch name base version p) s =
      if bytes_eq.beq name s.name then handle_patch source base version p s else (s, [])

  -- `destroy`, past the subscriptions and the gossip: the timers of removals are stopped.
  unfoldable pub destroy : Map Text (NodeState V) → List (Effect V P)
  destroy [] = []
  destroy ((node, n) ∷ nodes) = (if n.expires then clear_removal node ∷ [] else []) ++ destroy nodes

  -- The constructor, with the nodes that the group has: each is asked for its value.
  unfoldable pub track : List Text → PerNodeState V → Acts
  unfolding handle_node_available
  track [] s = (s, [])
  track (node ∷ group) s =
      let a = handle_node_available node s in let rest = track group a.0 in (rest.0, a.1 ++ rest.1)
