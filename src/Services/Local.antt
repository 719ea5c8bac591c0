-- ===== src/Services/Local.antt =====
-- What the operations of Services.ts for other nodes leave: the local services.
use ataraxia.Base.{
  ℕ, ◌+◌, ◌≡◌, refl, ◌∙◌, List, [], ◌∷◌, arith, Bool-cases, Option-cases, inl, inr, Text, bytes_eq,
  nat_eq,
}
use ataraxia.Map
use ataraxia.Map.{Map}
use ataraxia.Services.Defs.{
  ServiceDef, Reflect, NodeData, list_request, list_reply, available, unavailable, ServiceMessage,
  Services,
}
use ataraxia.Services.Handlers.{
  register_service_reflect, update_service_reflect, unregister_service_reflect, unregister_all,
  take_defs, drop_unlisted, is_listed, keys, handle_service_list_reply, follow_version,
  handle_service_available, handle_service_unavailable, handle_service_list_request,
}
use ataraxia.Services.Events.{handle_message}

pub register_service_reflect-local :
    (r : Reflect) (s : Services) → (register_service_reflect r s).0.local ≡ s.local
unfolding register_service_reflect
register_service_reflect-local r s = ground arith

update_service_reflect-local :
    (r q : Reflect) (s : Services) → (update_service_reflect r q s).0.local ≡ s.local
unfolding update_service_reflect
update_service_reflect-local r q s = ground arith

pub unregister_service_reflect-local :
    (r : Reflect) (s : Services) → (unregister_service_reflect r s).0.local ≡ s.local
unfolding unregister_service_reflect
unregister_service_reflect-local r s = ground arith

follow_version-local :
    (node : Text) (version : ℕ) (d : NodeData) (s : Services)
    → (follow_version node version d s).0.local ≡ s.local
unfolding follow_version
follow_version-local node version d s = ground arith

pub unregister_all-local :
    (reflects : List Reflect) (s : Services) → (unregister_all reflects s).0.local ≡ s.local
unfolding unregister_all
unregister_all-local [] s = refl
unregister_all-local (r ∷ reflects) s =
    unregister_all-local reflects (unregister_service_reflect r s).0
    ∙ unregister_service_reflect-local r s

take_defs-local :
    (defs : List ServiceDef) (services : Map Text Reflect) (s : Services)
    → (take_defs defs services s).1.local ≡ s.local
unfolding take_defs
take_defs-local [] services s = refl
take_defs-local (def ∷ defs) services s =
    let r : Reflect = record { number = s.next; def = def } in
    let t = record s { next = s.next + 1 } in
    elim (Option-cases (Map.get def.id services)) [
      | inl q ↦ rw q (
          take_defs-local defs (Map.set def.id r services) (register_service_reflect r t).0
          ∙ register_service_reflect-local r t)
      | inr (old, q) ↦ rw q (
          take_defs-local defs (Map.set def.id r services) (update_service_reflect old r t).0
          ∙ update_service_reflect-local old r t)
    ]

drop_unlisted-local :
    (ids : List Text) (defs : List ServiceDef) (services : Map Text Reflect) (s : Services)
    → (drop_unlisted ids defs services s).1.local ≡ s.local
unfolding drop_unlisted
drop_unlisted-local [] defs services s = refl
drop_unlisted-local (id ∷ ids) defs services s = elim (Bool-cases (is_listed id defs)) [
  | inl l ↦ rw (l, drop_unlisted) (drop_unlisted-local ids defs services s)
  | inr l ↦ elim (Option-cases (Map.get id services)) [
    | inl q ↦ rw (l, q, drop_unlisted) (drop_unlisted-local ids defs services s)
    | inr (r, q) ↦
        rw (l, q, drop_unlisted)
          (drop_unlisted-local ids defs (Map.delete id services) (unregister_service_reflect r s).0
            ∙ unregister_service_reflect-local r s)
  ]
]

handle_service_list_reply-local :
    (node : Text) (version : ℕ) (defs : List ServiceDef) (s : Services)
    → (handle_service_list_reply node version defs s).0.local ≡ s.local
unfolding handle_service_list_reply
handle_service_list_reply-local node version defs s = elim (Option-cases (Map.get node s.nodes)) [
  | inl q ↦ rw (q, handle_service_list_reply) refl
  | inr (d, q) ↦
      let t = (take_defs defs d.services s).1 in
      let services = (take_defs defs d.services s).0 in
      rw (q, handle_service_list_reply)
        (drop_unlisted-local (keys d.services) defs services t ∙ take_defs-local defs d.services s)
]

handle_service_available-local :
    (node : Text) (version : ℕ) (def : ServiceDef) (s : Services)
    → (handle_service_available node version def s).0.local ≡ s.local
unfolding handle_service_available
handle_service_available-local node version def s = elim (Option-cases (Map.get node s.nodes)) [
  | inl q ↦ rw (q, handle_service_available) refl
  | inr (d, q) ↦
      let r : Reflect = record { number = s.next; def = def } in
      let t = record s { next = s.next + 1 } in
      elim (Option-cases (Map.get def.id d.services)) [
        | inl f ↦
            let e = record d { services = Map.set def.id r d.services } in
            rw (q, f, handle_service_available)
              (follow_version-local node version e (register_service_reflect r t).0
                ∙ register_service_reflect-local r t)
        | inr (old, f) ↦
            rw (q, f, handle_service_available)
              (follow_version-local node version d (update_service_reflect old r t).0
                ∙ update_service_reflect-local old r t)
      ]
]

handle_service_unavailable-local :
    (node : Text) (version : ℕ) (id : Text) (s : Services)
    → (handle_service_unavailable node version id s).0.local ≡ s.local
unfolding handle_service_unavailable
handle_service_unavailable-local node version id s = elim (Option-cases (Map.get node s.nodes)) [
  | inl q ↦ rw (q, handle_service_unavailable) refl
  | inr (d, q) ↦ elim (Option-cases (Map.get id d.services)) [
    | inl f ↦ rw (q, f, handle_service_unavailable) (follow_version-local node version d s)
    | inr (old, f) ↦
        let e = record d { services = Map.delete id d.services } in
        rw (q, f, handle_service_unavailable)
          (follow_version-local node version e (unregister_service_reflect old s).0
            ∙ unregister_service_reflect-local old s)
  ]
]

pub handle_message-local :
    (node : Text) (message : ServiceMessage) (s : Services)
    → (handle_message node message s).0.local ≡ s.local
unfolding handle_message handle_service_list_request
handle_message-local node (list_request version) s = ground arith
handle_message-local node (list_reply version defs) s =
    handle_service_list_reply-local node version defs s
handle_message-local node (available version def) s =
    handle_service_available-local node version def s
handle_message-local node (unavailable version id) s =
    handle_service_unavailable-local node version id s
