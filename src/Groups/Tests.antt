-- ===== src/Groups/Tests.antt =====
-- Tests of the groups, and their theorems on concrete managers.
use ataraxia.Base.{◌≡◌, ◌≢◌, refl, true, List, [], ◌∷◌, Text, nat_eq, bytes_eq, some}
use ataraxia.Map
use ataraxia.Groups.Manager.{
  Manager, Event, available, joins, joins_here, create, run, step, is_listed, member_of,
  handle_group_membership, handle_group_query, membership,
}
use ataraxia.Groups.Sweeps.{member}
use ataraxia.Groups.Membership.{joined, handle_group_membership-member, query_answered}
use ataraxia.Groups.Tracking.{IsTracked}
use ataraxia.Groups.Histories.{run-IsTracked}

-- Nodes 1 and 2, groups 7, 8 and 9.
abbrev n1 : Text
n1 = 1 ∷ []

abbrev n2 : Text
n2 = 2 ∷ []

abbrev g7 : Text
g7 = 7 ∷ []

abbrev g8 : Text
g8 = 8 ∷ []

abbrev both : List Event
both = available n1 ∷ available n2 ∷ joins n1 g7 1 ∷ joins n2 g7 1 ∷ joins_here g8 5 ∷ []

abbrev busy : Manager
busy = record {
  groups =
      (g7, record { nodes = (n1, tt) ∷ (n2, tt) ∷ []; instances = [] })
      ∷ (g8, record { nodes = []; instances = 5 ∷ [] })
      ∷ [];
  nodes = (n1, 1) ∷ (n2, 1) ∷ [];
  version = 1;
  gossip_timer = true;
}

both_reached : run both create ≡ busy
unfolding run step Map.get Map.has Map.set
both_reached = refl

run-IsTracked_example : IsTracked (run both create)
run-IsTracked_example = run-IsTracked both

handle_group_membership-member_example :
    let after = (handle_group_membership n1 4 (g8 ∷ []) busy).0 in
    ((j : Text) → member j n1 after.groups ≡ is_listed j (g8 ∷ []))
    × ((j n : Text) → n1 ≢ n → member j n after.groups ≡ member j n busy.groups)
    × (Map.get n1 after.nodes ≡ some 4)
unfolding Map.has Map.get
handle_group_membership-member_example = handle_group_membership-member n1 4 (g8 ∷ []) busy refl

abbrev asker : Manager
asker = record create { nodes = (n2, 0) ∷ [] }

query_answered_example :
    let reply = member_of busy.groups in
    let after = (handle_group_membership n2 busy.version reply asker).0 in
    (handle_group_query n1 0 busy ≡ (busy, membership n1 busy.version reply ∷ []))
    × ((j : Text) → member j n2 after.groups ≡ joined j busy.groups)
    × (Map.get n2 after.nodes ≡ some busy.version)
    × (handle_group_query n1 busy.version busy ≡ (busy, []))
unfolding Map.get
query_answered_example = query_answered n1 n2 0 asker busy refl (λ e. cc) (refl, (refl, tt))
