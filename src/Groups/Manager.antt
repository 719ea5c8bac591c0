-- ===== src/Groups/Manager.antt =====
-- GroupManager: what this node knows of the groups of the network, and its handlers.
use ataraxia.Base.{
  ℕ, ◌+◌, none, some, Bool, true, false, List, [], ◌∷◌, ◌++◌, any, if◌then◌else◌, Text, nat_eq,
  bytes_eq, length,
}
use ataraxia.Map
use ataraxia.Map.{Map}
use ataraxia.Groups.Shared.{
  SharedGroup, GroupEffect, no_members, is_joined, has_members, handle_node_join, handle_node_leave,
  handle_message, add_instance, remove_instance,
}

-- `nodes` holds the version of the membership that was observed of each node.
pub record Manager : Type 0 where
  pub groups : Map Text SharedGroup
  pub nodes : Map Text ℕ
  pub version : ℕ
  pub gossip_timer : Bool

pub data Effect : Type 0 where
  group : Text → GroupEffect → Effect
  query : Text → ℕ → Effect
  membership : Text → ℕ → List Text → Effect
  broadcast_join broadcast_leave : Text → ℕ → Effect

abbrev pub Acts : Type 0
Acts = Manager × List Effect

abbrev pub create : Manager
create = record { groups = []; nodes = []; version = 0; gossip_timer = false }

abbrev pub of_group : Text → List GroupEffect → List Effect
of_group id [] = []
of_group id (e ∷ effects) = group id e ∷ of_group id effects

-- `ensureSharedGroup`
unfoldable pub ensure_shared_group : Text → Map Text SharedGroup → Map Text SharedGroup
ensure_shared_group id groups = if Map.has id groups then groups else Map.set id no_members groups

-- What `handle` makes of the group `id`, if there is one.
unfoldable pub update :
    Text
    → (SharedGroup → SharedGroup × List GroupEffect)
    → Map Text SharedGroup
    → Map Text SharedGroup × List Effect
update id handle groups = elim (Map.get id groups) [
  | none ↦ (groups, [])
  | some g ↦ (Map.set id (handle g).0 groups, of_group id (handle g).1)
]

-- A group without members is dropped.
unfoldable pub drop_empty : Text → Map Text SharedGroup → Map Text SharedGroup
drop_empty id groups = elim (Map.get id groups) [
  | none ↦ groups
  | some g ↦ if has_members g then groups else Map.delete id groups
]

abbrev pub keys : Map Text SharedGroup → List Text
keys [] = []
keys ((id, g) ∷ groups) = id ∷ keys groups

abbrev pub is_listed : Text → List Text → Bool
is_listed id ids = any (λ j. bytes_eq.beq j id) ids

unfoldable pub handle_node_available : Text → Manager → Acts
handle_node_available node m = elim (Map.get node m.nodes) [
  | none ↦ (record m { nodes = Map.set node 0 m.nodes; gossip_timer = true }, query node 0 ∷ [])
  | some observed ↦ (record m { gossip_timer = true }, query node observed ∷ [])
]

-- The loop of `handleNodeUnavailable` over the groups.
unfoldable pub leave_all :
    Text → List Text → Map Text SharedGroup → Map Text SharedGroup × List Effect
unfolding update handle_node_leave
leave_all node [] groups = (groups, [])
leave_all node (id ∷ ids) groups =
    let left = update id (handle_node_leave node) groups in
    let rest = leave_all node ids left.0 in (rest.0, left.1 ++ rest.1)

unfoldable pub handle_node_unavailable : Text → Manager → Acts
unfolding leave_all
handle_node_unavailable node m = elim (Map.get node m.nodes) [
  | none ↦ (m, [])
  | some observed ↦
      let left = leave_all node (keys m.groups) m.groups in
      let nodes = Map.delete node m.nodes in
      (
        record m {
          groups = left.0;
          nodes = nodes;
          gossip_timer = if nat_eq.beq (Map.size nodes) 0 then false else m.gossip_timer;
        },
        left.1,
      )
]

-- `gossip`, of the node that was chosen at random.
unfoldable pub gossip : Text → Manager → Acts
gossip node m = elim (Map.get node m.nodes) [
  | none ↦ (m, [])
  | some observed ↦ (m, query node observed ∷ [])
]

unfoldable pub handle_group_join : Text → Text → ℕ → Manager → Acts
unfolding ensure_shared_group update handle_node_join
handle_group_join node id version m = elim (Map.get node m.nodes) [
  | none ↦ (m, [])
  | some observed ↦
      let joined = update id (handle_node_join node) (ensure_shared_group id m.groups) in
      (record m { nodes = Map.set node version m.nodes; groups = joined.0 }, joined.1)
]

unfoldable pub observe : Text → ℕ → Map Text ℕ → Map Text ℕ
observe node version nodes = if Map.has node nodes then Map.set node version nodes else nodes

unfoldable pub handle_group_leave : Text → Text → ℕ → Manager → Acts
unfolding observe update handle_node_leave drop_empty
handle_group_leave node id version m =
    let left = update id (handle_node_leave node) m.groups in
    (record m { nodes = observe node version m.nodes; groups = drop_empty id left.0 }, left.1)

-- The first loop of `handleGroupMembership`.
unfoldable pub join_all :
    Text → List Text → Map Text SharedGroup → Map Text SharedGroup × List Effect
unfolding ensure_shared_group update handle_node_join
join_all node [] groups = (groups, [])
join_all node (id ∷ ids) groups =
    let joined = update id (handle_node_join node) (ensure_shared_group id groups) in
    let rest = join_all node ids joined.0 in (rest.0, joined.1 ++ rest.1)

-- One turn of the second loop.
unfoldable pub leave_other :
    Text → List Text → Text → Map Text SharedGroup → Map Text SharedGroup × List Effect
unfolding update handle_node_leave drop_empty
leave_other node set id groups =
    let left = update id (handle_node_leave node) groups in
    if is_listed id set then (groups, []) else (drop_empty id left.0, left.1)

-- The second loop, over the groups that there are when it begins: it drops no other group than the
-- one that it stands at.
unfoldable pub leave_others :
    Text → List Text → List Text → Map Text SharedGroup → Map Text SharedGroup × List Effect
unfolding leave_other
leave_others node set [] groups = (groups, [])
leave_others node set (id ∷ ids) groups =
    let left = leave_other node set id groups in
    let rest = leave_others node set ids left.0 in (rest.0, left.1 ++ rest.1)

-- `new Set(ids)`
abbrev pub distinct : List Text → List Text → List Text
distinct seen [] = []
distinct seen (id ∷ ids) =
    let rest = distinct (id ∷ seen) ids in if is_listed id seen then rest else id ∷ rest

unfoldable pub handle_group_membership : Text → ℕ → List Text → Manager → Acts
unfolding join_all leave_others
handle_group_membership node version ids m = elim (Map.get node m.nodes) [
  | none ↦ (m, [])
  | some observed ↦
      let set = distinct [] ids in
      let joined = join_all node set m.groups in
      let left = leave_others node set (keys joined.0) joined.0 in
      (record m { nodes = Map.set node version m.nodes; groups = left.0 }, joined.1 ++ left.1)
]

abbrev pub member_of : Map Text SharedGroup → List Text
member_of [] = []
member_of ((id, g) ∷ groups) = if is_joined g then id ∷ member_of groups else member_of groups

unfoldable pub handle_group_query : Text → ℕ → Manager → Acts
handle_group_query node version m =
    if nat_eq.beq m.version version
    then (m, [])
    else (m, membership node m.version (member_of m.groups) ∷ [])

-- Any other message goes to the groups.
unfoldable pub forward : Text → Map Text SharedGroup → List Effect
unfolding handle_message
forward source [] = []
forward source ((id, g) ∷ groups) = of_group id (handle_message source g) ++ forward source groups

-- An instance joins a group, `join` and the callback.
unfoldable pub join : Text → ℕ → Manager → Acts
unfolding ensure_shared_group
join id instance_id m =
    let groups = ensure_shared_group id m.groups in
    elim (Map.get id groups) [
      | none ↦ (m, [])
      | some g ↦
          let instances = add_instance instance_id g.instances in
          let next = record m { groups = Map.set id (record g { instances = instances }) groups } in
          if nat_eq.beq (length instances) 1
          then (record next { version = m.version + 1 }, broadcast_join id (m.version + 1) ∷ [])
          else (next, [])
    ]

-- An instance leaves its group. When the broadcast has ended, `left` follows.
unfoldable pub leave : Text → ℕ → Manager → Acts
leave id instance_id m = elim (Map.get id m.groups) [
  | none ↦ (m, [])
  | some g ↦
      let instances = remove_instance instance_id g.instances in
      let next = record m { groups = Map.set id (record g { instances = instances }) m.groups } in
      if nat_eq.beq (length instances) 0
      then (record next { version = m.version + 1 }, broadcast_leave id (m.version + 1) ∷ [])
      else (next, [])
]

unfoldable pub left : Text → Manager → Acts
unfolding drop_empty
left id m = (record m { groups = drop_empty id m.groups }, [])

pub data Event : Type 0 where
  available unavailable gossips : Text → Event
  joins leaves : Text → Text → ℕ → Event
  lists : Text → ℕ → List Text → Event
  queries : Text → ℕ → Event
  other : Text → Event
  joins_here leaves_here : Text → ℕ → Event
  ensures broadcast_done : Text → Event

unfoldable pub step : Event → Manager → Acts
unfolding handle_node_available handle_node_unavailable gossip handle_group_join handle_group_leave
    handle_group_membership handle_group_query forward join leave left ensure_shared_group
step (available node) m = handle_node_available node m
step (unavailable node) m = handle_node_unavailable node m
step (gossips node) m = gossip node m
step (joins node id version) m = handle_group_join node id version m
step (leaves node id version) m = handle_group_leave node id version m
step (lists node version ids) m = handle_group_membership node version ids m
step (queries node version) m = handle_group_query node version m
step (other source) m = (m, forward source m.groups)
step (joins_here id i) m = join id i m
step (leaves_here id i) m = leave id i m
step (ensures id) m = (record m { groups = ensure_shared_group id m.groups }, [])
step (broadcast_done id) m = left id m

unfoldable pub run : List Event → Manager → Manager
unfolding step
run [] m = m
run (e ∷ events) m = run events (step e m).0
