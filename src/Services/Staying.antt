-- ===== src/Services/Staying.antt =====
-- What the operations of Services.ts leave of the subscriptions to local services.
use ataraxia.Base.{
  ℕ, ◌+◌, ◌≡◌, refl, sym, ap, ◌∙◌, none, some, Bool, true, false, List, [], ◌∷◌, if◌then◌else◌,
  arith, All, Bool-cases, Option-cases, inl, inr, Text, bytes_eq, nat_eq,
}
use ataraxia.Map
use ataraxia.Map.{Map}
use ataraxia.Services.Defs.{
  ServiceDef, Reflect, add_reflect, remove_reflect, has_reflects, LocalService, Services,
}
use ataraxia.Services.Handlers.{
  unregister_all, drop_subscriptions, handle_node_unavailable, register, unregister,
  handle_service_event_subscribe, handle_service_event_unsubscribe, handle_node_available,
}
use ataraxia.Services.Events.{
  Event, registers, unregisters, node_comes, node_goes, receives, asks_events, ends_events, step,
  run,
}
use ataraxia.Services.Local.{
  register_service_reflect-local, unregister_service_reflect-local, unregister_all-local,
  handle_message-local,
}
use ataraxia.Services.Subscribers.{is_subscriber, added-subscriber, removed-subscriber}

-- A node is subscribed to an event of one of the local services.
abbrev pub is_subscribed_in : Text → Text → Text → Map Text LocalService → Bool
is_subscribed_in node service event local = elim (Map.get service local) [
  | none ↦ false
  | some l ↦ is_subscriber node event l.subscriptions
]

module _ (node service event : Text) where
  set-in :
      (id : Text) (l : LocalService) (local : Map Text LocalService)
      → is_subscribed_in node service event (Map.set id l local) ≡ (
          if bytes_eq.beq id service
          then is_subscriber node event l.subscriptions
          else is_subscribed_in node service event local)
  set-in id l local = ground (arith, Map.get-set id service l local)

  delete-in :
      (id : Text) (local : Map Text LocalService)
      → is_subscribed_in node service event (Map.delete id local)
        ≡ (if bytes_eq.beq id service then false else is_subscribed_in node service event local)
  delete-in id local = ground (arith, Map.get-delete id service local)

  old-in :
      (id : Text) (l : LocalService) (local : Map Text LocalService)
      → Map.get id local ≡ some l
      → bytes_eq.beq id service ≡ true
      → is_subscribed_in node service event local ≡ is_subscriber node event l.subscriptions
  old-in id l local q e =
      ap
        (λ (k : Text). elim (Map.get k local) as (λ x. Bool) [
          | none ↦ false
          | some l ↦ is_subscriber node event l.subscriptions
        ])
        (sym ((bytes_eq.beq_iff id service).0 e))
      ∙ rw q refl

  set-keeps :
      (id : Text) (old new : LocalService) (local : Map Text LocalService)
      → Map.get id local ≡ some old
      → (is_subscriber node event old.subscriptions ≡ true
          → is_subscriber node event new.subscriptions ≡ true)
      → is_subscribed_in node service event local ≡ true
      → is_subscribed_in node service event (Map.set id new local) ≡ true
  set-keeps id old new local q k h = elim (Bool-cases (bytes_eq.beq id service)) [
    | inl e ↦ set-in id new local ∙ rw e (k (sym (old-in id old local q e) ∙ h))
    | inr e ↦ set-in id new local ∙ rw e h
  ]

  drop_subscriptions-keeps :
      (n : Text) (local : Map Text LocalService)
      → bytes_eq.beq n node ≡ false
      → is_subscribed_in node service event (drop_subscriptions n local).0
        ≡ is_subscribed_in node service event local
  unfolding drop_subscriptions Map.get
  drop_subscriptions-keeps n [] d = refl
  drop_subscriptions-keeps n ((id, l) ∷ local) d =
      ground (arith, drop_subscriptions-keeps n local d, Map.get-delete n node l.subscriptions, d)

  register-keeps :
      (def : ServiceDef) (s : Services)
      → is_subscribed_in node service event s.local ≡ true
      → is_subscribed_in node service event (register def s).1.local ≡ true
  unfolding register
  register-keeps def s h =
      let r : Reflect = record { number = s.next; def = def } in
      let old : LocalService = elim (Map.get def.id s.local) as (λ x. LocalService) [
        | none ↦ record { reflects = []; subscriptions = [] }
        | some l ↦ l
      ] in
      let new = record old { reflects = add_reflect r old.reflects } in
      let t = record s {
        local = Map.set def.id new s.local;
        version = s.version + 1;
        next = s.next + 1;
      } in
      ap (is_subscribed_in node service event) (register_service_reflect-local r t)
      ∙ elim (Option-cases (Map.get def.id s.local)) [
        | inl q ↦ elim (Bool-cases (bytes_eq.beq def.id service)) [
          | inl e ↦
              let gone : Map.get service s.local ≡ none =
                ap (λ (k : Text). Map.get k s.local) (sym ((bytes_eq.beq_iff def.id service).0 e))
                ∙ q in
              absurd (let c : false ≡ true = rw (gone, is_subscribed_in) at h in cc)
          | inr e ↦ set-in def.id new s.local ∙ rw e h
        ]
        | inr (l, q) ↦ set-keeps def.id l new s.local q (λ k. rw q k) h
      ]

  unregister-keeps :
      (r : Reflect) (s : Services)
      → bytes_eq.beq r.def.id service ≡ false
      → is_subscribed_in node service event (unregister r s).0.local
        ≡ is_subscribed_in node service event s.local
  unfolding unregister
  unregister-keeps r s d = elim (Option-cases (Map.get r.def.id s.local)) [
    | inl q ↦ rw (q, unregister) refl
    | inr (l, q) ↦
        let rest = remove_reflect r l.reflects in
        let local =
          if has_reflects rest
          then Map.set r.def.id (record l { reflects = rest }) s.local
          else Map.delete r.def.id s.local in
        let t = record s { version = s.version + 1; local = local } in
        rw (q, unregister)
          (ap (is_subscribed_in node service event) (unregister_service_reflect-local r t)
            ∙ elim (Bool-cases (has_reflects rest)) [
              | inl e ↦ rw e (set-in r.def.id (record l { reflects = rest }) s.local ∙ rw d refl)
              | inr e ↦ rw e (delete-in r.def.id s.local ∙ rw d refl)
            ])
  ]

  subscribe-keeps :
      (n i e : Text) (s : Services)
      → is_subscribed_in node service event s.local ≡ true
      → is_subscribed_in node service event (handle_service_event_subscribe n i e s).0.local ≡ true
  unfolding handle_service_event_subscribe
  subscribe-keeps n i e s h = elim (Option-cases (Map.get i s.local)) [
    | inl q ↦ rw (q, handle_service_event_subscribe) h
    | inr (l, q) ↦
        let events : Map Text ℕ = elim (Map.get n l.subscriptions) as (λ x. Map Text ℕ) [
          | none ↦ []
          | some e ↦ e
        ] in
        let new = record l {
          subscriptions = Map.set n (Map.set e s.next events) l.subscriptions;
        } in
        elim (Bool-cases (Map.has e events)) [
          | inl f ↦ rw (q, f, handle_service_event_subscribe) h
          | inr f ↦
              rw (q, f, handle_service_event_subscribe)
                (set-keeps i l new s.local q
                  (added-subscriber node event n e s.next l.subscriptions) h)
        ]
  ]

  unsubscribe-keeps :
      (n i e : Text) (s : Services)
      → bytes_eq.beq node event ≡ false
      → is_subscribed_in node service event s.local ≡ true
      → is_subscribed_in node service event (handle_service_event_unsubscribe n i e s).0.local
        ≡ true
  unfolding handle_service_event_unsubscribe
  unsubscribe-keeps n i e s d h = elim (Option-cases (Map.get i s.local)) [
    | inl q ↦ rw (q, handle_service_event_unsubscribe) h
    | inr (l, q) ↦ elim (Option-cases (Map.get n l.subscriptions)) [
      | inl f ↦ rw (q, f, handle_service_event_unsubscribe) h
      | inr (events, f) ↦ elim (Option-cases (Map.get e events)) [
        | inl g ↦ rw (q, f, g, handle_service_event_unsubscribe) h
        | inr (handler, g) ↦
            rw (q, f, g, handle_service_event_unsubscribe)
              (set-keeps i l _ s.local q
                (removed-subscriber node event n events l.subscriptions f d) h)
      ]
    ]
  ]

  -- What ends the subscriptions of the node, or drops the service.
  abbrev pub is_end : Event → Bool
  is_end (node_goes n) = bytes_eq.beq n node
  is_end (unregisters r) = bytes_eq.beq r.def.id service
  is_end _ = false

  node_goes-keeps :
      (n : Text) (s : Services)
      → bytes_eq.beq n node ≡ false
      → is_subscribed_in node service event (handle_node_unavailable n s).0.local
        ≡ is_subscribed_in node service event s.local
  unfolding handle_node_unavailable
  node_goes-keeps n s d = elim (Option-cases (Map.get n s.nodes)) [
    | inl q ↦ rw (q, handle_node_unavailable) refl
    | inr (b, q) ↦
        let t = record s { nodes = Map.delete n s.nodes } in
        let reflects = Map.values b.services in
        rw (q, handle_node_unavailable)
          (drop_subscriptions-keeps n (unregister_all reflects t).0.local d
            ∙ ap (is_subscribed_in node service event) (unregister_all-local reflects t))
  ]

  step-keeps :
      (e : Event) (s : Services)
      → bytes_eq.beq node event ≡ false
      → is_end e ≡ false
      → is_subscribed_in node service event s.local ≡ true
      → is_subscribed_in node service event (step e s).0.local ≡ true
  unfolding step handle_node_available
  step-keeps (registers def) s d k h = register-keeps def s h
  step-keeps (unregisters r) s d k h = unregister-keeps r s k ∙ h
  step-keeps (node_comes n) s d k h = h
  step-keeps (node_goes n) s d k h = node_goes-keeps n s k ∙ h
  step-keeps (receives n message) s d k h =
      ap (is_subscribed_in node service event) (handle_message-local n message s) ∙ h
  step-keeps (asks_events n i e) s d k h = subscribe-keeps n i e s h
  step-keeps (ends_events n i e) s d k h = unsubscribe-keeps n i e s d h

  pub run-keeps :
      (events : List Event) (s : Services)
      → bytes_eq.beq node event ≡ false
      → All (λ (e : Event). is_end e ≡ false) events
      → is_subscribed_in node service event s.local ≡ true
      → is_subscribed_in node service event (run events s).0.local ≡ true
  unfolding run
  run-keeps [] s d k h = h
  run-keeps (e ∷ events) s d k h = run-keeps events (step e s).0 d k.1 (step-keeps e s d k.0 h)
