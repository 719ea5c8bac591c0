-- ===== src/Services/Telling.antt =====
-- The events for services against the services that are known.
use ataraxia.Base.{
  ℕ, ◌+◌, ◌≡◌, refl, ap, ◌∙◌, Bool, true, false, List, [], ◌∷◌, ◌++◌, if◌then◌else◌, arith,
  Bool-cases, Option-cases, inl, inr, Text, bytes_eq, nat_eq,
}
use ataraxia.Map
use ataraxia.Map.{Map}
use ataraxia.Services.Defs.{
  ServiceDef, Reflect, add_reflect, remove_reflect, has_reflects, NodeData, LocalService, Effect,
  sends, broadcasts, service_available, service_unavailable, service_updated, subscribes,
  unsubscribes, Services,
}
use ataraxia.Services.Handlers.{
  register_service_reflect, update_service_reflect, unregister_service_reflect, unregister,
  unregister_all, unsubscribe_all, drop_subscriptions, handle_node_unavailable, take_defs,
  drop_unlisted, keys, is_listed, handle_service_list_reply, follow_version,
  handle_service_available, handle_service_unavailable,
}

-- Whether a service is available, as one knows who hears the events and knew it before.
abbrev pub told : Text → Bool → List Effect → Bool
told id before [] = before
told id before (service_available j ∷ effects) =
    told id (if bytes_eq.beq j id then true else before) effects
told id before (service_unavailable j ∷ effects) =
    told id (if bytes_eq.beq j id then false else before) effects
told id before (service_updated j ∷ effects) = told id before effects
told id before (sends node message ∷ effects) = told id before effects
told id before (broadcasts message ∷ effects) = told id before effects
told id before (subscribes reflects event handler ∷ effects) = told id before effects
told id before (unsubscribes reflects event handler ∷ effects) = told id before effects

told-append :
    (id : Text) (before : Bool) (effects more : List Effect)
    → told id before (effects ++ more) ≡ told id (told id before effects) more
told-append id before [] more = refl
told-append id before (service_available j ∷ effects) more =
    told-append id (if bytes_eq.beq j id then true else before) effects more
told-append id before (service_unavailable j ∷ effects) more =
    told-append id (if bytes_eq.beq j id then false else before) effects more
told-append id before (service_updated j ∷ effects) more = told-append id before effects more
told-append id before (sends node message ∷ effects) more = told-append id before effects more
told-append id before (broadcasts message ∷ effects) more = told-append id before effects more
told-append id before (subscribes reflects event handler ∷ effects) more =
    told-append id before effects more
told-append id before (unsubscribes reflects event handler ∷ effects) more =
    told-append id before effects more

-- The events tell of the services that are known after, to one who knows those before.
abbrev pub Tells : Map Text (List Reflect) → Map Text (List Reflect) → List Effect → Type 0
Tells known after effects = (id : Text) → told id (Map.has id known) effects ≡ Map.has id after

pub Tells-append :
    (a b c : Map Text (List Reflect)) (effects more : List Effect)
    → Tells a b effects
    → Tells b c more
    → Tells a c (effects ++ more)
Tells-append a b c effects more h k id =
    told-append id (Map.has id a) effects more ∙ ap (λ x. told id x more) (h id) ∙ k id

module _ (s : Services) where
  pub register-Tells :
      (r : Reflect)
      → let (t, effects) = register_service_reflect r s in Tells s.known t.known effects
  unfolding register_service_reflect
  register-Tells r id = elim (Option-cases (Map.get r.def.id s.known)) [
    | inl q ↦
        rw (q, register_service_reflect)
          (ground (arith, Map.has-set r.def.id id (add_reflect r []) s.known))
    | inr (reflects, q) ↦
        rw (q, register_service_reflect)
          (ground (
            arith,
            Map.has-set r.def.id id (add_reflect r reflects) s.known,
            Map.has_of_some r.def.id reflects s.known q,
            bytes_eq.beq_iff r.def.id id,
          ))
  ]

  update-Tells :
      (current new : Reflect)
      → let (t, effects) = update_service_reflect current new s in Tells s.known t.known effects
  unfolding update_service_reflect
  update-Tells current new id = elim (Option-cases (Map.get current.def.id s.known)) [
    | inl q ↦ rw (q, update_service_reflect) refl
    | inr (reflects, q) ↦
        rw (q, update_service_reflect)
          (ground (
            arith,
            Map.has-set current.def.id id (add_reflect new (remove_reflect current reflects))
                s.known,
            Map.has_of_some current.def.id reflects s.known q,
            bytes_eq.beq_iff current.def.id id,
          ))
  ]

  unregister-Tells :
      (r : Reflect)
      → let (t, effects) = unregister_service_reflect r s in Tells s.known t.known effects
  unfolding unregister_service_reflect
  unregister-Tells r id = elim (Option-cases (Map.get r.def.id s.known)) [
    | inl q ↦ rw (q, unregister_service_reflect) refl
    | inr (reflects, q) ↦ elim (Bool-cases (has_reflects (remove_reflect r reflects))) [
      | inl h ↦
          rw (q, h, unregister_service_reflect)
            (ground (
              arith,
              Map.has-set r.def.id id (remove_reflect r reflects) s.known,
              Map.has_of_some r.def.id reflects s.known q,
              bytes_eq.beq_iff r.def.id id,
            ))
      | inr h ↦
          rw (q, h, unregister_service_reflect) (ground (arith, Map.has-delete r.def.id id s.known))
    ]
  ]

unregister_all-Tells :
    (reflects : List Reflect) (s : Services)
    → let (t, effects) = unregister_all reflects s in Tells s.known t.known effects
unfolding unregister_all
unregister_all-Tells [] s = λ id. refl
unregister_all-Tells (r ∷ reflects) s =
    let (t, effects) = unregister_service_reflect r s in
    let (u, more) = unregister_all reflects t in
    Tells-append s.known t.known u.known effects more (unregister-Tells s r)
      (unregister_all-Tells reflects t)

unsubscribe_all-told :
    (id : Text) (before : Bool) (reflects : List Reflect) (events : Map Text ℕ) (more : List Effect)
    → told id before (unsubscribe_all reflects events ++ more) ≡ told id before more
unfolding unsubscribe_all
unsubscribe_all-told id before reflects [] more = refl
unsubscribe_all-told id before reflects ((event, handler) ∷ events) more =
    unsubscribe_all-told id before reflects events more

drop_subscriptions-told :
    (id node : Text) (before : Bool) (local : Map Text LocalService)
    → told id before (drop_subscriptions node local).1 ≡ before
unfolding drop_subscriptions
drop_subscriptions-told id node before [] = refl
drop_subscriptions-told id node before ((service, l) ∷ local) =
    elim (Option-cases (Map.get node l.subscriptions)) [
      | inl q ↦ rw (q, drop_subscriptions, told) (drop_subscriptions-told id node before local)
      | inr (events, q) ↦
          rw (q, drop_subscriptions, told)
            (unsubscribe_all-told id before l.reflects events (drop_subscriptions node local).1
              ∙ drop_subscriptions-told id node before local)
    ]

pub handle_node_unavailable-Tells :
    (node : Text) (s : Services)
    → let (t, effects) = handle_node_unavailable node s in Tells s.known t.known effects
unfolding handle_node_unavailable
handle_node_unavailable-Tells node s = elim (Option-cases (Map.get node s.nodes)) [
  | inl q ↦ rw (q, handle_node_unavailable) (λ id. refl)
  | inr (d, q) ↦
      let t = record s { nodes = Map.delete node s.nodes } in
      let (u, effects) = unregister_all (Map.values d.services) t in
      rw (q, handle_node_unavailable)
        (Tells-append s.known u.known u.known effects (drop_subscriptions node u.local).1
          (unregister_all-Tells (Map.values d.services) t)
          (λ id. drop_subscriptions-told id node (Map.has id u.known) u.local))
]

take_defs-Tells :
    (defs : List ServiceDef) (services : Map Text Reflect) (s : Services)
    → let (rest, t, effects) = take_defs defs services s in Tells s.known t.known effects
unfolding take_defs
take_defs-Tells [] services s = λ id. refl
take_defs-Tells (def ∷ defs) services s =
    let r : Reflect = record { number = s.next; def = def } in
    let t = record s { next = s.next + 1 } in
    let rest = Map.set def.id r services in
    elim (Option-cases (Map.get def.id services)) [
      | inl q ↦
          let (u, effects) = register_service_reflect r t in
          let (last, v, more) = take_defs defs rest u in
          rw q (
            Tells-append s.known u.known v.known effects more (register-Tells t r)
              (take_defs-Tells defs rest u))
      | inr (existing, q) ↦
          let (u, effects) = update_service_reflect existing r t in
          let (last, v, more) = take_defs defs rest u in
          rw q (
            Tells-append s.known u.known v.known effects more (update-Tells t existing r)
              (take_defs-Tells defs rest u))
    ]

drop_unlisted-Tells :
    (ids : List Text) (defs : List ServiceDef) (services : Map Text Reflect) (s : Services)
    → let (rest, t, effects) = drop_unlisted ids defs services s in Tells s.known t.known effects
unfolding drop_unlisted
drop_unlisted-Tells [] defs services s = λ id. refl
drop_unlisted-Tells (id ∷ ids) defs services s = elim (Bool-cases (is_listed id defs)) [
  | inl l ↦ rw (l, drop_unlisted) (drop_unlisted-Tells ids defs services s)
  | inr l ↦ elim (Option-cases (Map.get id services)) [
    | inl q ↦ rw (l, q, drop_unlisted) (drop_unlisted-Tells ids defs services s)
    | inr (r, q) ↦
        let (t, effects) = unregister_service_reflect r s in
        let rest = Map.delete id services in
        let (last, u, more) = drop_unlisted ids defs rest t in
        rw (l, q, drop_unlisted)
          (Tells-append s.known t.known u.known effects more (unregister-Tells s r)
            (drop_unlisted-Tells ids defs rest t))
  ]
]

pub handle_service_list_reply-Tells :
    (node : Text) (version : ℕ) (defs : List ServiceDef) (s : Services)
    → let (t, effects) = handle_service_list_reply node version defs s in
      Tells s.known t.known effects
unfolding handle_service_list_reply
handle_service_list_reply-Tells node version defs s = elim (Option-cases (Map.get node s.nodes)) [
  | inl q ↦ rw (q, handle_service_list_reply) (λ id. refl)
  | inr (d, q) ↦
      let (services, t, effects) = take_defs defs d.services s in
      let (rest, u, more) = drop_unlisted (keys d.services) defs services t in
      rw (q, handle_service_list_reply)
        (Tells-append s.known t.known u.known effects more (take_defs-Tells defs d.services s)
          (drop_unlisted-Tells (keys d.services) defs services t))
]

follow_version-Tells :
    (node : Text) (version : ℕ) (d : NodeData) (s : Services)
    → let (t, effects) = follow_version node version d s in Tells s.known t.known effects
unfolding follow_version
follow_version-Tells node version d s = elim (Bool-cases (nat_eq.beq (d.version + 1) version)) [
  | inl q ↦ rw q (λ id. refl)
  | inr q ↦ rw q (λ id. refl)
]

pub handle_service_available-Tells :
    (node : Text) (version : ℕ) (def : ServiceDef) (s : Services)
    → let (t, effects) = handle_service_available node version def s in
      Tells s.known t.known effects
unfolding handle_service_available
handle_service_available-Tells node version def s = elim (Option-cases (Map.get node s.nodes)) [
  | inl q ↦ rw (q, handle_service_available) (λ id. refl)
  | inr (d, q) ↦
      let r : Reflect = record { number = s.next; def = def } in
      let t = record s { next = s.next + 1 } in
      elim (Option-cases (Map.get def.id d.services)) [
        | inl f ↦
            let (u, effects) = register_service_reflect r t in
            let e = record d { services = Map.set def.id r d.services } in
            let (v, more) = follow_version node version e u in
            rw (q, f, handle_service_available)
              (Tells-append s.known u.known v.known effects more (register-Tells t r)
                (follow_version-Tells node version e u))
        | inr (existing, f) ↦
            let (u, effects) = update_service_reflect existing r t in
            let (v, more) = follow_version node version d u in
            rw (q, f, handle_service_available)
              (Tells-append s.known u.known v.known effects more (update-Tells t existing r)
                (follow_version-Tells node version d u))
      ]
]

pub handle_service_unavailable-Tells :
    (node : Text) (version : ℕ) (id : Text) (s : Services)
    → let (t, effects) = handle_service_unavailable node version id s in
      Tells s.known t.known effects
unfolding handle_service_unavailable
handle_service_unavailable-Tells node version id s = elim (Option-cases (Map.get node s.nodes)) [
  | inl q ↦ rw (q, handle_service_unavailable) (λ j. refl)
  | inr (d, q) ↦ elim (Option-cases (Map.get id d.services)) [
    | inl f ↦ rw (q, f, handle_service_unavailable) (follow_version-Tells node version d s)
    | inr (existing, f) ↦
        let (t, effects) = unregister_service_reflect existing s in
        let e = record d { services = Map.delete id d.services } in
        let (u, more) = follow_version node version e t in
        rw (q, f, handle_service_unavailable)
          (Tells-append s.known t.known u.known effects more (unregister-Tells s existing)
            (follow_version-Tells node version e t))
  ]
]

pub unregister_here-Tells :
    (r : Reflect) (s : Services)
    → let (t, effects) = unregister r s in Tells s.known t.known effects
unfolding unregister
unregister_here-Tells r s = elim (Option-cases (Map.get r.def.id s.local)) [
  | inl q ↦ rw (q, unregister) (λ id. refl)
  | inr (l, q) ↦
      let rest = remove_reflect r l.reflects in
      let local =
        if has_reflects rest
        then Map.set r.def.id (record l { reflects = rest }) s.local
        else Map.delete r.def.id s.local in
      rw (q, unregister) (unregister-Tells (record s { version = s.version + 1; local = local }) r)
]
