-- ===== src/Groups/Unique.antt =====
-- Maps of groups without a double key, and the changes and loops of the manager on them.
use ataraxia.Base.{
  ◌≡◌, refl, false, not, List, [], ◌∷◌, ◌||◌, ◌&&◌, Text, nat_eq, bytes_eq, arith, Option-cases,
  Bool-cases, inl, inr,
}
use ataraxia.Map
use ataraxia.Map.{Map}
use ataraxia.Groups.Shared.{
  SharedGroup, GroupEffect, no_members, has_members, handle_node_join, handle_node_leave,
}
use ataraxia.Groups.Manager.{
  update, drop_empty, ensure_shared_group, keys, is_listed, join_all, leave_all, leave_other,
  leave_others,
}

-- No group is there twice.
abbrev pub Unique : Map Text SharedGroup → Type 0
Unique [] = Unit
Unique ((id, g) ∷ groups) = (is_listed id (keys groups) ≡ false) × Unique groups

keys-set :
    (id j : Text) (g : SharedGroup) (groups : Map Text SharedGroup)
    → is_listed j (keys (Map.set id g groups)) ≡ is_listed j (keys groups) || bytes_eq.beq id j
unfolding Map.set
keys-set id j g [] = ground arith
keys-set id j g ((i, h) ∷ groups) = ground (
  arith,
  keys-set id j g groups,
  bytes_eq.beq_iff i id,
  bytes_eq.beq_iff i j,
  bytes_eq.beq_iff id j,
)

keys-delete :
    (id j : Text) (groups : Map Text SharedGroup)
    → is_listed j (keys (Map.delete id groups))
      ≡ is_listed j (keys groups) && not (bytes_eq.beq id j)
unfolding Map.delete
keys-delete id j [] = refl
keys-delete id j ((i, h) ∷ groups) = ground (
  arith,
  keys-delete id j groups,
  bytes_eq.beq_iff i id,
  bytes_eq.beq_iff i j,
  bytes_eq.beq_iff id j,
)

pub set-Unique :
    (id : Text) (g : SharedGroup) (groups : Map Text SharedGroup)
    → Unique groups
    → Unique (Map.set id g groups)
unfolding Map.set
set-Unique id g [] u = (refl, tt)
set-Unique id g ((i, h) ∷ groups) u = elim (Bool-cases (bytes_eq.beq i id)) [
  | inl e ↦ rw e u
  | inr e ↦ rw e (
    ground (arith, keys-set id i g groups, u.0, e, bytes_eq.beq_iff i id, bytes_eq.beq_iff id i),
    set-Unique id g groups u.1,
  )
]

pub delete-Unique :
    (id : Text) (groups : Map Text SharedGroup) → Unique groups → Unique (Map.delete id groups)
unfolding Map.delete
delete-Unique id [] u = tt
delete-Unique id ((i, h) ∷ groups) u = elim (Bool-cases (bytes_eq.beq i id)) [
  | inl e ↦ rw e (delete-Unique id groups u.1)
  | inr e ↦ rw e (ground (arith, keys-delete id i groups, u.0), delete-Unique id groups u.1)
]

pub ensure-Unique :
    (id : Text) (groups : Map Text SharedGroup)
    → Unique groups
    → Unique (ensure_shared_group id groups)
unfolding ensure_shared_group
ensure-Unique id groups u = elim (Bool-cases (Map.has id groups)) [
  | inl e ↦ rw e u
  | inr e ↦ rw e (set-Unique id no_members groups u)
]

pub update-Unique :
    (id : Text) (handle : SharedGroup → SharedGroup × List GroupEffect)
    (groups : Map Text SharedGroup)
    → Unique groups
    → Unique (update id handle groups).0
unfolding update
update-Unique id handle groups u = elim (Option-cases (Map.get id groups)) [
  | inl e ↦ rw (e, update) u
  | inr (g, e) ↦ rw (e, update) (set-Unique id (handle g).0 groups u)
]

pub drop_empty-Unique :
    (id : Text) (groups : Map Text SharedGroup) → Unique groups → Unique (drop_empty id groups)
unfolding drop_empty
drop_empty-Unique id groups u = elim (Option-cases (Map.get id groups)) [
  | inl e ↦ rw (e, drop_empty) u
  | inr (g, e) ↦ elim (Bool-cases (has_members g)) [
    | inl k ↦ rw (e, drop_empty) (rw k u)
    | inr k ↦ rw (e, drop_empty) (rw k (delete-Unique id groups u))
  ]
]

pub leave_all-Unique :
    (node : Text) (ids : List Text) (groups : Map Text SharedGroup)
    → Unique groups
    → Unique (leave_all node ids groups).0
unfolding leave_all
leave_all-Unique node [] groups u = u
leave_all-Unique node (id ∷ ids) groups u =
    leave_all-Unique node ids (update id (handle_node_leave node) groups).0
      (update-Unique id (handle_node_leave node) groups u)

pub join_all-Unique :
    (node : Text) (ids : List Text) (groups : Map Text SharedGroup)
    → Unique groups
    → Unique (join_all node ids groups).0
unfolding join_all
join_all-Unique node [] groups u = u
join_all-Unique node (id ∷ ids) groups u =
    let ensured = ensure_shared_group id groups in
    join_all-Unique node ids (update id (handle_node_join node) ensured).0
      (update-Unique id (handle_node_join node) ensured (ensure-Unique id groups u))

leave_other-Unique :
    (node : Text) (set : List Text) (id : Text) (groups : Map Text SharedGroup)
    → Unique groups
    → Unique (leave_other node set id groups).0
unfolding leave_other
leave_other-Unique node set id groups u = elim (Bool-cases (is_listed id set)) [
  | inl e ↦ rw e u
  | inr e ↦ rw e (
      drop_empty-Unique id (update id (handle_node_leave node) groups).0
        (update-Unique id (handle_node_leave node) groups u))
]

pub leave_others-Unique :
    (node : Text) (set ids : List Text) (groups : Map Text SharedGroup)
    → Unique groups
    → Unique (leave_others node set ids groups).0
unfolding leave_others
leave_others-Unique node set [] groups u = u
leave_others-Unique node set (id ∷ ids) groups u =
    leave_others-Unique node set ids (leave_other node set id groups).0
      (leave_other-Unique node set id groups u)
