-- ===== src/Groups/Histories.antt =====
-- What holds for the manager at any time of a history.
use ataraxia.Base.{
  ℕ, ◌≡◌, sym, ◌∙◌, ◌+◌, some, List, [], ◌∷◌, length, Text, nat_eq, bytes_eq, arith, Option-cases,
  Bool-cases, inl, inr,
}
use ataraxia.Map
use ataraxia.Map.{Map}
use ataraxia.Groups.Shared.{SharedGroup, add_instance, remove_instance}
use ataraxia.Groups.Manager.{
  Manager, drop_empty, ensure_shared_group, handle_group_query, create, Event, available,
  unavailable, gossips, joins, leaves, lists, queries, other, joins_here, leaves_here, ensures,
  broadcast_done, step, run, join, leave, left, gossip,
}
use ataraxia.Groups.Sweeps.{member, drop_empty-member, ensure-member}
use ataraxia.Groups.Unique.{Unique, set-Unique, ensure-Unique, drop_empty-Unique}
use ataraxia.Groups.Tracking.{
  IsTracked, available-IsTracked, unavailable-IsTracked, joins-IsTracked, lists-IsTracked,
  leaves-IsTracked,
}

-- Other groups with the same members.
same_members :
    (groups : Map Text SharedGroup) (version : ℕ) (m : Manager)
    → IsTracked m
    → ((j n : Text) → member j n groups ≡ member j n m.groups)
    → Unique groups
    → IsTracked (record m { groups = groups; version = version })
same_members groups version m v h u = record {
  known = λ j n k. v.known j n (sym (h j n) ∙ k);
  timed = v.timed;
  unique = u;
}

instances-member :
    (id j n : Text) (g : SharedGroup) (instances : List ℕ) (groups : Map Text SharedGroup)
    → Map.get id groups ≡ some g
    → member j n (Map.set id (record g { instances = instances }) groups) ≡ member j n groups
instances-member id j n g instances groups e =
    ground (
      arith,
      e,
      Map.get-set id j (record g { instances = instances }) groups,
      bytes_eq.beq_iff id j,
    )

ensures-IsTracked :
    (id : Text) (m : Manager)
    → IsTracked m
    → IsTracked (record m { groups = ensure_shared_group id m.groups })
ensures-IsTracked id m v =
    same_members (ensure_shared_group id m.groups) m.version m v
      (λ j n. ensure-member id j n m.groups) (ensure-Unique id m.groups v.unique)

with_instances :
    (id : Text) (version : ℕ) (g : SharedGroup) (instances : List ℕ) (m : Manager)
    → IsTracked m
    → Map.get id m.groups ≡ some g
    → IsTracked (record m {
      groups = Map.set id (record g { instances = instances }) m.groups;
      version = version;
    })
with_instances id version g instances m v e =
    same_members (Map.set id (record g { instances = instances }) m.groups) version m v
      (λ j n. instances-member id j n g instances m.groups e)
      (set-Unique id (record g { instances = instances }) m.groups v.unique)

join-IsTracked : (id : Text) (i : ℕ) (m : Manager) → IsTracked m → IsTracked (join id i m).0
unfolding join
join-IsTracked id i m v =
    let ensured : Manager = record m { groups = ensure_shared_group id m.groups } in
    elim (Option-cases (Map.get id ensured.groups)) [
      | inl e ↦ rw (e, join) v
      | inr (g, e) ↦
          let instances = add_instance i g.instances in
          elim (Bool-cases (nat_eq.beq (length instances) 1)) [
            | inl one ↦
                rw (e, join)
                  (rw one (
                    with_instances id (m.version + 1) g instances ensured (ensures-IsTracked id m v)
                      e))
            | inr more ↦
                rw (e, join)
                  (rw more
                    (with_instances id m.version g instances ensured (ensures-IsTracked id m v) e))
          ]
    ]

leave-IsTracked : (id : Text) (i : ℕ) (m : Manager) → IsTracked m → IsTracked (leave id i m).0
unfolding leave
leave-IsTracked id i m v = elim (Option-cases (Map.get id m.groups)) [
  | inl e ↦ rw (e, leave) v
  | inr (g, e) ↦
      let instances = remove_instance i g.instances in
      elim (Bool-cases (nat_eq.beq (length instances) 0)) [
        | inl one ↦ rw (e, leave) (rw one (with_instances id (m.version + 1) g instances m v e))
        | inr more ↦ rw (e, leave) (rw more (with_instances id m.version g instances m v e))
      ]
]

step-IsTracked : (e : Event) (m : Manager) → IsTracked m → IsTracked (step e m).0
unfolding step gossip handle_group_query left
step-IsTracked (available node) m v = available-IsTracked node m v
step-IsTracked (unavailable node) m v = unavailable-IsTracked node m v
step-IsTracked (gossips node) m v = elim (Option-cases (Map.get node m.nodes)) [
  | inl e ↦ rw (e, gossip) v
  | inr (observed, e) ↦ rw (e, gossip) v
]
step-IsTracked (joins node id version) m v = joins-IsTracked node id version m v
step-IsTracked (leaves node id version) m v = leaves-IsTracked node id version m v
step-IsTracked (lists node version ids) m v = lists-IsTracked node version ids m v
step-IsTracked (queries node version) m v = elim (Bool-cases (nat_eq.beq m.version version)) [
  | inl e ↦ rw e v
  | inr e ↦ rw e v
]
step-IsTracked (other source) m v = v
step-IsTracked (joins_here id i) m v = join-IsTracked id i m v
step-IsTracked (leaves_here id i) m v = leave-IsTracked id i m v
step-IsTracked (ensures id) m v = ensures-IsTracked id m v
step-IsTracked (broadcast_done id) m v =
    same_members (drop_empty id m.groups) m.version m v (λ j n. drop_empty-member id j n m.groups)
      (drop_empty-Unique id m.groups v.unique)

run_from-IsTracked : (events : List Event) (m : Manager) → IsTracked m → IsTracked (run events m)
unfolding run
run_from-IsTracked [] m v = v
run_from-IsTracked (e ∷ events) m v = run_from-IsTracked events (step e m).0 (step-IsTracked e m v)

-- Whatever the nodes of the network announce and this node does: the known members of any group
-- are nodes that are available, so that none is left once a node is gone; the gossip timer runs
-- exactly while there are nodes; and no group is in the map twice.
pub run-IsTracked : (events : List Event) → IsTracked (run events create)
unfolding Map.get
run-IsTracked events =
    run_from-IsTracked events create
      (record { known = λ j n h. cc; timed = ground arith; unique = tt })
