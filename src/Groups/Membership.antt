-- ===== src/Groups/Membership.antt =====
-- What a message about the membership of a node makes of the groups.
use ataraxia.Base.{
  ℕ, ◌≡◌, ◌≢◌, refl, ◌∙◌, none, some, Bool, true, false, List, [], ◌∷◌, ◌||◌, if◌then◌else◌, Text,
  nat_eq, bytes_eq, arith, Option-cases, inl, inr,
}
use ataraxia.Map
use ataraxia.Map.{Map}
use ataraxia.Groups.Shared.{SharedGroup, is_joined}
use ataraxia.Groups.Manager.{
  Manager, keys, is_listed, join_all, distinct, handle_group_membership, handle_group_query,
  member_of, membership,
}
use ataraxia.Groups.Unique.{Unique}
use ataraxia.Groups.Sweeps.{member, same, join_all-member, leave_others-member}

pub unlisted-member :
    (j n : Text) (groups : Map Text SharedGroup)
    → is_listed j (keys groups) ≡ false
    → member j n groups ≡ false
unfolding Map.get
unlisted-member j n [] h = refl
unlisted-member j n ((id, g) ∷ groups) h = ground (arith, unlisted-member j n groups)

distinct-listed :
    (j : Text) (seen ids : List Text)
    → is_listed j (distinct seen ids) || is_listed j seen ≡ is_listed j ids || is_listed j seen
distinct-listed j seen [] = refl
distinct-listed j seen (id ∷ ids) =
    ground (arith, distinct-listed j (id ∷ seen) ids, bytes_eq.beq_iff id j)

listed_member :
    (node j n : Text) (version observed : ℕ) (ids : List Text) (m : Manager)
    → Map.get node m.nodes ≡ some observed
    → member j n (handle_group_membership node version ids m).0.groups
      ≡ (if same node n then is_listed j ids else member j n m.groups)
unfolding handle_group_membership
listed_member node j n version observed ids m e =
    let set = distinct [] ids in
    let joined = join_all node set m.groups in
    ground (
      arith,
      e,
      leave_others-member node j n set (keys joined.0) joined.0,
      join_all-member node j n set m.groups,
      distinct-listed j [] ids,
      unlisted-member j n joined.0,
    )

-- A message of a known node about its groups: afterwards it is a member of the groups it names, and
-- of no others, whatever was known before; the membership of the other nodes is as before; and the
-- version of the message is the one observed.
pub handle_group_membership-member :
    (node : Text) (version : ℕ) (ids : List Text) (m : Manager)
    → Map.has node m.nodes ≡ true
    → let after = (handle_group_membership node version ids m).0 in
      ((j : Text) → member j node after.groups ≡ is_listed j ids)
      × ((j n : Text) → node ≢ n → member j n after.groups ≡ member j n m.groups)
      × (Map.get node after.nodes ≡ some version)
unfolding handle_group_membership Map.has
handle_group_membership-member node version ids m h = elim (Option-cases (Map.get node m.nodes)) [
  | inl e ↦ absurd (ground (arith, h, e))
  | inr (observed, e) ↦ (
    λ j.
        ground
          (arith, listed_member node j node version observed ids m e, bytes_eq.beq_iff node node),
    λ j n d.
        ground (arith, listed_member node j n version observed ids m e, bytes_eq.beq_iff node n, d),
    ground (arith, e, Map.get-set node node version m.nodes, bytes_eq.beq_iff node node),
  )
]

-- A group is joined here, by some instance.
abbrev pub joined : Text → Map Text SharedGroup → Bool
joined id groups = elim (Map.get id groups) [ none ↦ false | some g ↦ is_joined g ]

unlisted_joined :
    (j : Text) (groups : Map Text SharedGroup)
    → is_listed j (keys groups) ≡ false
    → is_listed j (member_of groups) ≡ false
unlisted_joined j [] h = refl
unlisted_joined j ((id, g) ∷ groups) h = ground (arith, unlisted_joined j groups)

pub member_of-listed :
    (j : Text) (groups : Map Text SharedGroup)
    → Unique groups
    → is_listed j (member_of groups) ≡ joined j groups
unfolding Map.get
member_of-listed j [] h = refl
member_of-listed j ((id, g) ∷ groups) h =
    ground
      (arith, member_of-listed j groups h.1, unlisted_joined j groups, h.0, bytes_eq.beq_iff id j)

-- A node that tracks another one, and has observed another version of its membership than the
-- present one, asks which groups it is in. If the map of the other holds no group twice, then once
-- the answer is handled the node knows the other as a member of exactly the groups that the other
-- has joined, has observed its version, and would get no answer to a query with that version.
pub query_answered :
    (asker answerer : Text) (observed : ℕ) (a b : Manager)
    → Map.get answerer a.nodes ≡ some observed
    → observed ≢ b.version
    → Unique b.groups
    → let reply = member_of b.groups in
      let after = (handle_group_membership answerer b.version reply a).0 in
      (handle_group_query asker observed b ≡ (b, membership asker b.version reply ∷ []))
      × ((j : Text) → member j answerer after.groups ≡ joined j b.groups)
      × (Map.get answerer after.nodes ≡ some b.version)
      × (handle_group_query asker b.version b ≡ (b, []))
unfolding handle_group_query
query_answered asker answerer observed a b e d u =
    let h =
      handle_group_membership-member answerer b.version (member_of b.groups) a
        (Map.has_of_some answerer observed a.nodes e) in
    (ground (arith, d), λ j. h.0 j ∙ member_of-listed j b.groups u, h.2, ground arith)
