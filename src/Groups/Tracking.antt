-- ===== src/Groups/Tracking.antt =====
-- GroupManager: how its groups, nodes and timer belong together, and the messages about groups.
use ataraxia.Base.{
  ℕ, ◌≡◌, ◌⊎◌, some, true, List, [], ltb, Text, nat_eq, bytes_eq, arith, Option-cases, inl, inr,
}
use ataraxia.Map
use ataraxia.Map.{Map}
use ataraxia.Groups.Shared.{SharedGroup, handle_node_join, handle_node_leave}
use ataraxia.Groups.Manager.{
  Manager, update, ensure_shared_group, keys, join_all, leave_others, distinct,
  handle_group_membership, handle_node_unavailable, handle_group_join, handle_group_leave,
  handle_node_available, observe,
}
use ataraxia.Groups.Sweeps.{
  member, join_all-member, leave_others-member, leave_all-member, join_one-member, leave_one-member,
  drop_empty-member,
}
use ataraxia.Groups.Unique.{
  Unique, ensure-Unique, update-Unique, drop_empty-Unique, leave_all-Unique, join_all-Unique,
  leave_others-Unique,
}
use ataraxia.Groups.Membership.{unlisted-member}

pub record IsTracked (m : Manager) : Type 0 where
  pub known : (j n : Text) → member j n m.groups ≡ true → Map.has n m.nodes ≡ true
  pub timed : m.gossip_timer ≡ ltb 0 (Map.size m.nodes)
  pub unique : Unique m.groups

pub available-IsTracked :
    (node : Text) (m : Manager) → IsTracked m → IsTracked (handle_node_available node m).0
unfolding handle_node_available
available-IsTracked node m v = elim (Option-cases (Map.get node m.nodes)) [
  | inl e ↦
      rw (e, handle_node_available)
        (record {
          known = λ j n h. ground (arith, v.known j n, h, Map.has-set node n 0 m.nodes);
          timed = ground (arith, Map.size-set node 0 m.nodes);
          unique = v.unique;
        })
  | inr (observed, e) ↦
      rw (e, handle_node_available)
        (record {
          known = v.known;
          timed =
              ground (arith, Map.size_of_has node m.nodes, Map.has_of_some node observed m.nodes e);
          unique = v.unique;
        })
]

pub unavailable-IsTracked :
    (node : Text) (m : Manager) → IsTracked m → IsTracked (handle_node_unavailable node m).0
unfolding handle_node_unavailable
unavailable-IsTracked node m v = elim (Option-cases (Map.get node m.nodes)) [
  | inl e ↦ rw (e, handle_node_unavailable) v
  | inr (observed, e) ↦
      rw (e, handle_node_unavailable)
        (record {
          known = λ j n h. ground (
            arith,
            v.known j n,
            h,
            Map.has-delete node n m.nodes,
            leave_all-member node j n (keys m.groups) m.groups,
            unlisted-member j n m.groups,
          );
          timed = ground (
            arith,
            v.timed,
            Map.size_of_has node m.nodes,
            Map.has_of_some node observed m.nodes e,
          );
          unique = leave_all-Unique node (keys m.groups) m.groups v.unique;
        })
]

-- The nodes stay, and the members are old ones or a tracked node.
kept_nodes :
    (node : Text) (version observed : ℕ) (groups : Map Text SharedGroup) (m : Manager)
    → IsTracked m
    → Map.get node m.nodes ≡ some observed
    → ((j n : Text) → member j n groups ≡ true → (node ≡ n) ⊎ (member j n m.groups ≡ true))
    → Unique groups
    → IsTracked (record m { nodes = Map.set node version m.nodes; groups = groups })
kept_nodes node version observed groups m v e h u = record {
  known = λ j n k. elim (h j n k) [
    | inl same_node ↦
        ground (arith, Map.has-set node n version m.nodes, bytes_eq.beq_iff node n, same_node)
    | inr old ↦ ground (arith, Map.has-set node n version m.nodes, v.known j n old)
  ];
  timed = ground (
    arith,
    v.timed,
    Map.size-set node version m.nodes,
    Map.size_of_has node m.nodes,
    Map.has_of_some node observed m.nodes e,
  );
  unique = u;
}

pub joins-IsTracked :
    (node id : Text) (version : ℕ) (m : Manager)
    → IsTracked m
    → IsTracked (handle_group_join node id version m).0
unfolding handle_group_join
joins-IsTracked node id version m v = elim (Option-cases (Map.get node m.nodes)) [
  | inl e ↦ rw (e, handle_group_join) v
  | inr (observed, e) ↦
      rw (e, handle_group_join)
        (let ensured = ensure_shared_group id m.groups in
          kept_nodes node version observed (update id (handle_node_join node) ensured).0 m v e
            (λ j n h.
              ground (arith, join_one-member node id j n m.groups, bytes_eq.beq_iff node n, h))
            (update-Unique id (handle_node_join node) ensured (ensure-Unique id m.groups v.unique)))
]

pub lists-IsTracked :
    (node : Text) (version : ℕ) (ids : List Text) (m : Manager)
    → IsTracked m
    → IsTracked (handle_group_membership node version ids m).0
unfolding handle_group_membership
lists-IsTracked node version ids m v = elim (Option-cases (Map.get node m.nodes)) [
  | inl e ↦ rw (e, handle_group_membership) v
  | inr (observed, e) ↦
      rw (e, handle_group_membership)
        (let set = distinct [] ids in
          let after_join = (join_all node set m.groups).0 in
          kept_nodes node version observed (leave_others node set (keys after_join) after_join).0 m
            v e
            (λ j n h. ground (
              arith,
              leave_others-member node j n set (keys after_join) after_join,
              join_all-member node j n set m.groups,
              bytes_eq.beq_iff node n,
              h,
            ))
            (leave_others-Unique node set (keys after_join) after_join
              (join_all-Unique node set m.groups v.unique)))
]

observe_lem :
    (node n : Text) (version : ℕ) (nodes : Map Text ℕ)
    → (Map.has n (observe node version nodes) ≡ Map.has n nodes)
      × (ltb 0 (Map.size (observe node version nodes)) ≡ ltb 0 (Map.size nodes))
unfolding observe
observe_lem node n version nodes = ground (
  arith,
  Map.has-set node n version nodes,
  Map.size-set node version nodes,
  Map.size_of_has node nodes,
  bytes_eq.beq_iff node n,
)

pub leaves-IsTracked :
    (node id : Text) (version : ℕ) (m : Manager)
    → IsTracked m
    → IsTracked (handle_group_leave node id version m).0
unfolding handle_group_leave
leaves-IsTracked node id version m v =
    let after = (update id (handle_node_leave node) m.groups).0 in
    record {
      known = λ j n h. ground (
        arith,
        observe_lem node n version m.nodes,
        drop_empty-member id j n after,
        leave_one-member node id j n m.groups,
        v.known j n,
        h,
      );
      timed = ground (arith, observe_lem node node version m.nodes, v.timed);
      unique =
          drop_empty-Unique id after (update-Unique id (handle_node_leave node) m.groups v.unique);
    }
