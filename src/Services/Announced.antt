-- ===== src/Services/Announced.antt =====
-- The events for services in every run.
use ataraxia.Base.{
  ℕ, ◌+◌, ◌≡◌, refl, none, some, false, List, [], ◌∷◌, ◌==◌, Bool-cases, Option-cases, inl, inr,
  Text, bytes_eq,
}
use ataraxia.Map
use ataraxia.Map.{Map}
use ataraxia.Services.Defs.{
  ServiceDef, Reflect, add_reflect, LocalService, ServiceMessage, list_request, list_reply,
  available, unavailable, Services,
}
use ataraxia.Services.Handlers.{
  register, handle_node_available, handle_service_list_request, handle_service_event_subscribe,
  handle_service_event_unsubscribe,
}
use ataraxia.Services.Events.{
  handle_message, Event, registers, unregisters, node_comes, node_goes, receives, asks_events,
  ends_events, step, run, create,
}
use ataraxia.Services.Telling.{
  told, Tells, Tells-append, register-Tells, handle_node_unavailable-Tells,
  handle_service_list_reply-Tells, handle_service_available-Tells, handle_service_unavailable-Tells,
  unregister_here-Tells,
}

handle_message-Tells :
    (node : Text) (message : ServiceMessage) (s : Services)
    → let (t, effects) = handle_message node message s in Tells s.known t.known effects
unfolding handle_message handle_service_list_request
handle_message-Tells node (list_request version) s = elim (Bool-cases (version == s.version)) [
  | inl q ↦ rw q (λ id. refl)
  | inr q ↦ rw q (λ id. refl)
]
handle_message-Tells node (list_reply version defs) s =
    handle_service_list_reply-Tells node version defs s
handle_message-Tells node (available version def) s =
    handle_service_available-Tells node version def s
handle_message-Tells node (unavailable version id) s =
    handle_service_unavailable-Tells node version id s

handle_service_event_subscribe-Tells :
    (node service event : Text) (s : Services)
    → let (t, effects) = handle_service_event_subscribe node service event s in
      Tells s.known t.known effects
unfolding handle_service_event_subscribe
handle_service_event_subscribe-Tells node service event s =
    elim (Option-cases (Map.get service s.local)) [
      | inl q ↦ rw (q, handle_service_event_subscribe) (λ id. refl)
      | inr (l, q) ↦
          let events : Map Text ℕ = elim (Map.get node l.subscriptions) [
            | none ↦ []
            | some e ↦ e
          ] in
          elim (Bool-cases (Map.has event events)) [
            | inl h ↦ rw (q, h, handle_service_event_subscribe) (λ id. refl)
            | inr h ↦ rw (q, h, handle_service_event_subscribe) (λ id. refl)
          ]
    ]

handle_service_event_unsubscribe-Tells :
    (node service event : Text) (s : Services)
    → let (t, effects) = handle_service_event_unsubscribe node service event s in
      Tells s.known t.known effects
unfolding handle_service_event_unsubscribe
handle_service_event_unsubscribe-Tells node service event s =
    elim (Option-cases (Map.get service s.local)) [
      | inl q ↦ rw (q, handle_service_event_unsubscribe) (λ id. refl)
      | inr (l, q) ↦ elim (Option-cases (Map.get node l.subscriptions)) [
        | inl f ↦ rw (q, f, handle_service_event_unsubscribe) (λ id. refl)
        | inr (events, f) ↦ elim (Option-cases (Map.get event events)) [
          | inl g ↦ rw (q, f, g, handle_service_event_unsubscribe) (λ id. refl)
          | inr (handler, g) ↦ rw (q, f, g, handle_service_event_unsubscribe) (λ id. refl)
        ]
      ]
    ]

register_here-Tells :
    (def : ServiceDef) (s : Services)
    → let (r, t, effects) = register def s in Tells s.known t.known effects
unfolding register
register_here-Tells def s =
    let r : Reflect = record { number = s.next; def = def } in
    let old : LocalService = elim (Map.get def.id s.local) [
      | none ↦ record { reflects = []; subscriptions = [] }
      | some l ↦ l
    ] in
    register-Tells
      (record s {
        local = Map.set def.id (record old { reflects = add_reflect r old.reflects }) s.local;
        version = s.version + 1;
        next = s.next + 1;
      })
      r

step-Tells :
    (e : Event) (s : Services) → let (t, effects) = step e s in Tells s.known t.known effects
unfolding step handle_node_available
step-Tells (registers def) s = register_here-Tells def s
step-Tells (unregisters r) s = unregister_here-Tells r s
step-Tells (node_comes node) s = λ id. refl
step-Tells (node_goes node) s = handle_node_unavailable-Tells node s
step-Tells (receives node message) s = handle_message-Tells node message s
step-Tells (asks_events node service event) s =
    handle_service_event_subscribe-Tells node service event s
step-Tells (ends_events node service event) s =
    handle_service_event_unsubscribe-Tells node service event s

run-Tells :
    (events : List Event) (s : Services)
    → let (t, effects) = run events s in Tells s.known t.known effects
unfolding run
run-Tells [] s = λ id. refl
run-Tells (e ∷ events) s =
    let (t, effects) = step e s in
    let (u, more) = run events t in
    Tells-append s.known t.known u.known effects more (step-Tells e s) (run-Tells events t)

-- Whatever happens, who only hears the events for services knows of each service whether it is one
-- that get finds an instance of: it is one if and only if it was last said to be available.
pub run-told :
    (events : List Event) (id : Text)
    → let (s, effects) = run events create in told id false effects ≡ Map.has id s.known
unfolding Map.has Map.get
run-told events id = run-Tells events create id
