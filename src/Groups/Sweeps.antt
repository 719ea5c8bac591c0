-- ===== src/Groups/Sweeps.antt =====
-- What the changes of one group, and the loops over the groups, make of the membership.
use ataraxia.Base.{
  ◌≡◌, ◌≢◌, refl, none, some, Bool, true, false, not, List, [], ◌∷◌, ◌&&◌, ltb, if◌then◌else◌, Text,
  nat_eq, bytes_eq, arith, Option-cases, inl, inr,
}
use ataraxia.Map
use ataraxia.Map.{Map}
use ataraxia.Groups.Shared.{
  SharedGroup, GroupEffect, no_members, is_member, has_members, handle_node_join, handle_node_leave,
  handle_node_join-is_member, handle_node_leave-is_member,
}
use ataraxia.Groups.Manager.{
  update, drop_empty, ensure_shared_group, is_listed, join_all, leave_all, leave_other,
  leave_others,
}

-- Whether a node is known to be a member of a group.
abbrev pub member : Text → Text → Map Text SharedGroup → Bool
member id node groups = elim (Map.get id groups) [ none ↦ false | some g ↦ is_member node g ]

abbrev pub same : Text → Text → Bool
same a b = bytes_eq.beq a b

pub ensure-member :
    (id j node : Text) (groups : Map Text SharedGroup)
    → member j node (ensure_shared_group id groups) ≡ member j node groups
unfolding ensure_shared_group Map.has
ensure-member id j node groups =
    ground (arith, Map.get-set id j no_members groups, bytes_eq.beq_iff id j)

-- The groups after a change of one of them.
pub update-member :
    (id j n : Text) (handle : SharedGroup → SharedGroup × List GroupEffect) (g : SharedGroup)
    (groups : Map Text SharedGroup)
    → Map.get id groups ≡ some g
    → member j n (update id handle groups).0
      ≡ (if same id j then is_member n (handle g).0 else member j n groups)
unfolding update
update-member id j n handle g groups e = ground (arith, e, Map.get-set id j (handle g).0 groups)

ensure-some :
    (id : Text) (groups : Map Text SharedGroup) → Map.get id (ensure_shared_group id groups) ≢ none
unfolding ensure_shared_group Map.has
ensure-some id groups =
    λ e. ground (arith, e, Map.get-set id id no_members groups, bytes_eq.beq_iff id id)

pub join_one-member :
    (node id j n : Text) (groups : Map Text SharedGroup)
    → member j n (update id (handle_node_join node) (ensure_shared_group id groups)).0
      ≡ (if same id j && same node n then true else member j n groups)
join_one-member node id j n groups =
    let ensured = ensure_shared_group id groups in
    elim (Option-cases (Map.get id ensured)) [
      | inl e ↦ absurd (ensure-some id groups e)
      | inr (g, e) ↦ ground (
        arith,
        e,
        update-member id j n (handle_node_join node) g ensured e,
        handle_node_join-is_member node n g,
        ensure-member id j n groups,
        bytes_eq.beq_iff id j,
      )
    ]

pub leave_one-member :
    (node id j n : Text) (groups : Map Text SharedGroup)
    → member j n (update id (handle_node_leave node) groups).0
      ≡ (if same id j && same node n then false else member j n groups)
unfolding update
leave_one-member node id j n groups = elim (Option-cases (Map.get id groups)) [
  | inl e ↦ ground (arith, e, bytes_eq.beq_iff id j)
  | inr (g, e) ↦ ground (
    arith,
    e,
    update-member id j n (handle_node_leave node) g groups e,
    handle_node_leave-is_member node n g,
    bytes_eq.beq_iff id j,
  )
]

empty-has :
    (n : Text) (nodes : Map Text (Unit {0}))
    → ltb 0 (Map.size nodes) ≡ false
    → Map.has n nodes ≡ false
unfolding Map.has Map.get
empty-has n [] h = refl
empty-has n (x ∷ nodes) h = absurd (ground (arith, h))

no_member : (n : Text) (g : SharedGroup) → has_members g ≡ false → is_member n g ≡ false
no_member n g h = empty-has n g.nodes (ground (arith, h))

pub drop_empty-member :
    (id j n : Text) (groups : Map Text SharedGroup)
    → member j n (drop_empty id groups) ≡ member j n groups
unfolding drop_empty
drop_empty-member id j n groups = elim (Option-cases (Map.get id groups)) [
  | inl e ↦ ground (arith, e)
  | inr (g, e) ↦ ground (arith, e, no_member n g, Map.get-delete id j groups, bytes_eq.beq_iff id j)
]

pub join_all-member :
    (node j n : Text) (ids : List Text) (groups : Map Text SharedGroup)
    → member j n (join_all node ids groups).0
      ≡ (if is_listed j ids && same node n then true else member j n groups)
unfolding join_all
join_all-member node j n [] groups = refl
join_all-member node j n (id ∷ ids) groups =
    let joined = update id (handle_node_join node) (ensure_shared_group id groups) in
    ground (arith, join_all-member node j n ids joined.0, join_one-member node id j n groups)

pub leave_all-member :
    (node j n : Text) (ids : List Text) (groups : Map Text SharedGroup)
    → member j n (leave_all node ids groups).0
      ≡ (if is_listed j ids && same node n then false else member j n groups)
unfolding leave_all
leave_all-member node j n [] groups = refl
leave_all-member node j n (id ∷ ids) groups =
    let left = update id (handle_node_leave node) groups in
    ground (arith, leave_all-member node j n ids left.0, leave_one-member node id j n groups)

leave_other-member :
    (node id j n : Text) (set : List Text) (groups : Map Text SharedGroup)
    → member j n (leave_other node set id groups).0
      ≡ (if same id j && same node n && not (is_listed j set) then false else member j n groups)
unfolding leave_other
leave_other-member node id j n set groups =
    let left = update id (handle_node_leave node) groups in
    ground (
      arith,
      drop_empty-member id j n left.0,
      leave_one-member node id j n groups,
      bytes_eq.beq_iff id j,
    )

pub leave_others-member :
    (node j n : Text) (set ids : List Text) (groups : Map Text SharedGroup)
    → member j n (leave_others node set ids groups).0 ≡ (
        if is_listed j ids && same node n && not (is_listed j set)
        then false
        else member j n groups)
unfolding leave_others
leave_others-member node j n set [] groups = refl
leave_others-member node j n set (id ∷ ids) groups =
    let left = leave_other node set id groups in
    ground (
      arith,
      leave_others-member node j n set ids left.0,
      leave_other-member node id j n set groups,
    )
