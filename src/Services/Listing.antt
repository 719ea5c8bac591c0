-- ===== src/Services/Listing.antt =====
-- What a list of services makes of the services of a node.
use ataraxia.Base.{
  ℕ, ◌≡◌, refl, ◌∙◌, Option, none, some, not, List, [], ◌∷◌, ◌||◌, ◌&&◌, any, arith, Bool-cases,
  Option-cases, inl, inr, Text, bytes_eq,
}
use ataraxia.Map
use ataraxia.Map.{Map}
use ataraxia.Services.Defs.{ServiceDef, Reflect, NodeData, Services}
use ataraxia.Services.Handlers.{
  unregister_service_reflect, take_defs, drop_unlisted, keys, is_listed, handle_service_list_reply,
}

-- The services that are known of a node, and the version.
abbrev pub services_of : Text → Services → Option (Map Text Reflect)
services_of node s = elim (Map.get node s.nodes) [ none ↦ none | some d ↦ some d.services ]

take_defs-has :
    (id : Text) (defs : List ServiceDef) (services : Map Text Reflect) (s : Services)
    → Map.has id (take_defs defs services s).0 ≡ is_listed id defs || Map.has id services
unfolding take_defs
take_defs-has id [] services s = refl
take_defs-has id (def ∷ defs) services s =
    let r : Reflect = record { number = s.next; def = def } in
    take_defs-has id defs (Map.set def.id r services) _
    ∙ ground (arith, Map.has-set def.id id r services)

drop_unlisted-has :
    (id : Text) (ids : List Text) (defs : List ServiceDef) (services : Map Text Reflect)
    (s : Services)
    → Map.has id (drop_unlisted ids defs services s).0
      ≡ Map.has id services && (is_listed id defs || not (any (λ j. bytes_eq.beq j id) ids))
unfolding drop_unlisted
drop_unlisted-has id [] defs services s = ground arith
drop_unlisted-has id (j ∷ ids) defs services s = elim (Bool-cases (is_listed j defs)) [
  | inl l ↦
      rw (l, drop_unlisted)
        (drop_unlisted-has id ids defs services s ∙ ground (arith, bytes_eq.beq_iff j id, l))
  | inr l ↦ elim (Option-cases (Map.get j services)) [
    | inl q ↦
        rw (l, q, drop_unlisted)
          (drop_unlisted-has id ids defs services s
            ∙ ground (arith, bytes_eq.beq_iff j id, Map.has_of_none j services q))
    | inr (r, q) ↦
        rw (l, q, drop_unlisted)
          (drop_unlisted-has id ids defs (Map.delete j services) (unregister_service_reflect r s).0
            ∙ ground (arith, Map.has-delete j id services, bytes_eq.beq_iff j id, l))
  ]
]

keys-has :
    (id : Text) (services : Map Text Reflect)
    → any (λ j. bytes_eq.beq j id) (keys services) ≡ Map.has id services
unfolding Map.has Map.get
keys-has id [] = refl
keys-has id ((j, r) ∷ services) = ground (arith, keys-has id services)

-- After a list exactly the listed services are known of the node that sent it, at its version.
pub handle_service_list_reply-listed :
    (node : Text) (version : ℕ) (defs : List ServiceDef) (s : Services) (d : NodeData)
    → Map.get node s.nodes ≡ some d
    → (e : NodeData) × (Map.get node (handle_service_list_reply node version defs s).0.nodes
        ≡ some e)
      × (e.version ≡ version)
      × ((id : Text) → Map.has id e.services ≡ any (λ (f : ServiceDef). bytes_eq.beq f.id id) defs)
unfolding handle_service_list_reply
handle_service_list_reply-listed node version defs s d q =
    let (services, t, effects) = take_defs defs d.services s in
    let (rest, u, more) = drop_unlisted (keys d.services) defs services t in
    let e : NodeData = record { version = version; services = rest } in
    (
      e,
      rw (q, handle_service_list_reply)
          (Map.get-set node node e u.nodes ∙ ground (arith, bytes_eq.beq_iff node node)),
      refl,
      λ id. ground (
        arith,
        drop_unlisted-has id (keys d.services) defs services t,
        take_defs-has id defs d.services s,
        keys-has id d.services,
      ),
    )
