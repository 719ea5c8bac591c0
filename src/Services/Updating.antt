-- ===== src/Services/Updating.antt =====
-- A service of another node that is announced again, as after a change of its definition.
use ataraxia.Base.{
  ℕ, ◌+◌, ◌≤◌, ◌≡◌, refl, sym, ap, subst, ◌∙◌, none, some, Bool, true, false, List, [], ◌∷◌, ◌==◌,
  if◌then◌else◌, arith, All, Bool-cases, Option-cases, inl, inr, Text, bytes_eq, nat_eq,
}
use ataraxia.Map
use ataraxia.Map.{Map}
use ataraxia.Services.Defs.{
  ServiceDef, Reflect, add_reflect, remove_reflect, has_reflects, NodeData, LocalService,
  ServiceMessage, list_request, list_reply, available, unavailable, Services,
}
use ataraxia.Services.Handlers.{
  register_service_reflect, update_service_reflect, unregister_service_reflect, unregister_all,
  take_defs, drop_unlisted, drop_subscriptions, keys, register, unregister, handle_node_available,
  handle_node_unavailable, handle_service_list_request, handle_service_list_reply,
  handle_service_available, handle_service_unavailable, handle_service_event_subscribe,
  handle_service_event_unsubscribe,
}
use ataraxia.Services.Events.{
  Event, registers, unregisters, node_comes, node_goes, receives, asks_events, ends_events,
  handle_message, step, run,
}
use ataraxia.Services.Held.{
  is_held, is_told, add-number, delete-number, get-number, set-number, set-told, delete-told,
  get-told,
}
use ataraxia.Services.Keeping.{
  Stays, then-Keeps, Keeps-Stays, register-Keeps, update-Keeps, unregister-Keeps,
  unregister_all-Keeps, take_defs-Keeps, drop_unlisted-Keeps, follow_version-Stays,
}

-- An instance is unregistered here.
abbrev pub is_unregister : ℕ → Event → Bool
is_unregister n (unregisters r) = r.number == n
is_unregister n _ = false

module _ (n : ℕ) (id : Text) where
  -- What `Stays` looks at.
  same-Stays :
      (s t : Services)
      → t.known ≡ s.known
      → t.nodes ≡ s.nodes
      → s.next ≤ t.next
      → Stays n id s
      → Stays n id t
  same-Stays s t a b c w =
      Keeps-Stays n id s t (record { held = λ h. ap (is_held n id) a ∙ h; nodes = b; next = c }) w

  available-Stays :
      (node : Text) (version : ℕ) (def : ServiceDef) (s : Services)
      → Stays n id s
      → Stays n id (handle_service_available node version def s).0
  unfolding handle_service_available
  available-Stays node version def s w = elim (Option-cases (Map.get node s.nodes)) [
    | inl q ↦ rw (q, handle_service_available) w
    | inr (d, q) ↦
        let r : Reflect = record { number = s.next; def = def } in
        let t = record s { next = s.next + 1 } in
        let v = same-Stays s t refl refl (omega arith) w in
        let untold = get-told n node d s.nodes q w.untold in
        let other : (r.number == n) ≡ false = ground (arith, w.taken) in
        elim (Option-cases (Map.get def.id d.services)) [
          | inl f ↦
              let u = (register_service_reflect r t).0 in
              let e = record d { services = Map.set def.id r d.services } in
              rw (q, f, handle_service_available)
                (follow_version-Stays n id node version e u
                  (set-number n def.id r d.services untold other)
                  (Keeps-Stays n id t u (register-Keeps n id r t) v))
          | inr (old, f) ↦
              let u = (update_service_reflect old r t).0 in
              rw (q, f, handle_service_available)
                (follow_version-Stays n id node version d u untold (
                  Keeps-Stays n id t u
                    (update-Keeps n id old r t (get-number n def.id old d.services f untold)) v))
        ]
  ]

  unavailable-Stays :
      (node : Text) (version : ℕ) (key : Text) (s : Services)
      → Stays n id s
      → Stays n id (handle_service_unavailable node version key s).0
  unfolding handle_service_unavailable
  unavailable-Stays node version key s w = elim (Option-cases (Map.get node s.nodes)) [
    | inl q ↦ rw (q, handle_service_unavailable) w
    | inr (d, q) ↦
        let untold = get-told n node d s.nodes q w.untold in
        elim (Option-cases (Map.get key d.services)) [
          | inl f ↦
              rw (q, f, handle_service_unavailable)
                (follow_version-Stays n id node version d s untold w)
          | inr (old, f) ↦
              let t = (unregister_service_reflect old s).0 in
              let e = record d { services = Map.delete key d.services } in
              rw (q, f, handle_service_unavailable)
                (follow_version-Stays n id node version e t (delete-number n key d.services untold)
                  (Keeps-Stays n id s t
                    (unregister-Keeps n id old s (get-number n key old d.services f untold)) w))
        ]
  ]

  list_reply-Stays :
      (node : Text) (version : ℕ) (defs : List ServiceDef) (s : Services)
      → Stays n id s
      → Stays n id (handle_service_list_reply node version defs s).0
  unfolding handle_service_list_reply
  list_reply-Stays node version defs s w = elim (Option-cases (Map.get node s.nodes)) [
    | inl q ↦ rw (q, handle_service_list_reply) w
    | inr (d, q) ↦
        let untold = get-told n node d s.nodes q w.untold in
        let services = (take_defs defs d.services s).0 in
        let t = (take_defs defs d.services s).1 in
        let (k, a) = take_defs-Keeps n id defs d.services s w.taken untold in
        let (l, b) = drop_unlisted-Keeps n id (keys d.services) defs services t a in
        let u = (drop_unlisted (keys d.services) defs services t).1 in
        let rest = (drop_unlisted (keys d.services) defs services t).0 in
        let v = Keeps-Stays n id s u (then-Keeps n id s t u k l) w in
        rw (q, handle_service_list_reply)
          (record {
            held = v.held;
            taken = v.taken;
            untold =
                set-told n node (record { version = version; services = rest }) u.nodes v.untold b;
          })
  ]

  node_goes-Stays :
      (node : Text) (s : Services) → Stays n id s → Stays n id (handle_node_unavailable node s).0
  unfolding handle_node_unavailable
  node_goes-Stays node s w = elim (Option-cases (Map.get node s.nodes)) [
    | inl q ↦ rw (q, handle_node_unavailable) w
    | inr (d, q) ↦
        let t = record s { nodes = Map.delete node s.nodes } in
        let reflects = Map.values d.services in
        let u = (unregister_all reflects t).0 in
        let v : Stays n id t = record {
          held = w.held;
          taken = w.taken;
          untold = delete-told n node s.nodes w.untold;
        } in
        let left =
          Keeps-Stays n id t u
            (unregister_all-Keeps n id reflects t (get-told n node d s.nodes q w.untold)) v in
        rw (q, handle_node_unavailable)
          (same-Stays u (record u { local = (drop_subscriptions node u.local).0 }) refl refl
            (omega arith) left)
  ]

  unregister-Stays :
      (r : Reflect) (s : Services)
      → r.number == n ≡ false
      → Stays n id s
      → Stays n id (unregister r s).0
  unfolding unregister
  unregister-Stays r s d w = elim (Option-cases (Map.get r.def.id s.local)) [
    | inl q ↦ rw (q, unregister) w
    | inr (l, q) ↦
        let rest = remove_reflect r l.reflects in
        let local =
          if has_reflects rest
          then Map.set r.def.id (record l { reflects = rest }) s.local
          else Map.delete r.def.id s.local in
        let t = record s { version = s.version + 1; local = local } in
        rw (q, unregister)
          (Keeps-Stays n id t (unregister_service_reflect r t).0 (unregister-Keeps n id r t d)
            (same-Stays s t refl refl (omega arith) w))
  ]

  register-Stays : (def : ServiceDef) (s : Services) → Stays n id s → Stays n id (register def s).1
  unfolding register
  register-Stays def s w =
      let r : Reflect = record { number = s.next; def = def } in
      let old : LocalService = elim (Map.get def.id s.local) as (λ x. LocalService) [
        | none ↦ record { reflects = []; subscriptions = [] }
        | some l ↦ l
      ] in
      let t = record s {
        local = Map.set def.id (record old { reflects = add_reflect r old.reflects }) s.local;
        version = s.version + 1;
        next = s.next + 1;
      } in
      Keeps-Stays n id t (register_service_reflect r t).0 (register-Keeps n id r t)
        (same-Stays s t refl refl (omega arith) w)

  message-Stays :
      (node : Text) (message : ServiceMessage) (s : Services)
      → Stays n id s
      → Stays n id (handle_message node message s).0
  unfolding handle_message handle_service_list_request
  message-Stays node (list_request version) s w = elim (Bool-cases (version == s.version)) [
    | inl q ↦ rw q w
    | inr q ↦ rw q w
  ]
  message-Stays node (list_reply version defs) s w = list_reply-Stays node version defs s w
  message-Stays node (available version def) s w = available-Stays node version def s w
  message-Stays node (unavailable version key) s w = unavailable-Stays node version key s w

  step-Stays :
      (e : Event) (s : Services)
      → is_unregister n e ≡ false
      → Stays n id s
      → Stays n id (step e s).0
  unfolding step handle_node_available handle_service_event_subscribe
      handle_service_event_unsubscribe
  step-Stays (registers def) s d w = register-Stays def s w
  step-Stays (unregisters r) s d w = unregister-Stays r s d w
  step-Stays (node_comes node) s d w = record {
    held = w.held;
    taken = w.taken;
    untold = set-told n node (record { version = 0; services = [] }) s.nodes w.untold refl;
  }
  step-Stays (node_goes node) s d w = node_goes-Stays node s w
  step-Stays (receives node message) s d w = message-Stays node message s w
  step-Stays (asks_events node service event) s d w =
      let t = (handle_service_event_subscribe node service event s).0 in
      same-Stays s t (ground arith) (ground arith) (ground arith) w
  step-Stays (ends_events node service event) s d w =
      let t = (handle_service_event_unsubscribe node service event s).0 in
      same-Stays s t (ground arith) (ground arith) (ground arith) w

  run-Stays :
      (events : List Event) (s : Services)
      → All (λ (e : Event). is_unregister n e ≡ false) events
      → Stays n id s
      → Stays n id (run events s).0
  unfolding run
  run-Stays [] s d w = w
  run-Stays (e ∷ events) s d w = run-Stays events (step e s).0 d.1 (step-Stays e s d.0 w)

-- The instance of a second announcement is among those of the service, but not of the node's.
again-Stays :
    (node : Text) (version : ℕ) (def : ServiceDef) (s : Services) (d : NodeData) (old : Reflect)
    → Map.get node s.nodes ≡ some d
    → Map.get def.id d.services ≡ some old
    → old.def.id ≡ def.id
    → Map.has def.id s.known ≡ true
    → is_told s.next s.nodes ≡ false
    → Stays s.next def.id (handle_service_available node version def s).0
unfolding handle_service_available update_service_reflect
again-Stays node version def s d old q f e h k = elim (Option-cases (Map.get def.id s.known)) [
  | inl g ↦ absurd (let c : false ≡ true = sym (Map.has_of_none def.id s.known g) ∙ h in cc)
  | inr (reflects, g) ↦
      let r : Reflect = record { number = s.next; def = def } in
      let rest = remove_reflect old reflects in
      let t = record s { next = s.next + 1 } in
      let there : Map.get old.def.id s.known ≡ some reflects =
        ap (λ (x : Text). Map.get x s.known) e ∙ g in
      let u = record t { known = Map.set old.def.id (add_reflect r rest) s.known } in
      let updated : (update_service_reflect old r t).0 ≡ u =
        rw (there, update_service_reflect) refl in
      let w : Stays s.next def.id u = record {
        held = ground (
          arith,
          Map.get-set old.def.id def.id (add_reflect r rest) s.known,
          bytes_eq.beq_iff old.def.id def.id,
          e,
          add-number s.next r rest,
        );
        taken = omega arith;
        untold = k;
      } in
      rw (q, f, handle_service_available)
        (follow_version-Stays s.next def.id node version d (update_service_reflect old r t).0
          (get-told s.next node d s.nodes q k) (subst (Stays s.next def.id) (sym updated) w))
]

-- A node announces again a service that is known, and that it is taken to offer by an instance of
-- that service; the number that the new instance gets is one that no node's instances have. Whatever
-- happens then, as long as no instance of that number is unregistered here, the new instance is
-- among those of the service, so that the service stays known, also when the node has left or its
-- services have been listed anew; and no node is taken to offer it.
pub announced_twice :
    (node : Text) (version : ℕ) (def : ServiceDef) (s : Services) (d : NodeData) (old : Reflect)
    (events : List Event)
    → Map.get node s.nodes ≡ some d
    → Map.get def.id d.services ≡ some old
    → old.def.id ≡ def.id
    → Map.has def.id s.known ≡ true
    → is_told s.next s.nodes ≡ false
    → All (λ (e : Event). is_unregister s.next e ≡ false) events
    → let t = (run (receives node (available version def) ∷ events) s).0 in
      (is_held s.next def.id t.known ≡ true) × (is_told s.next t.nodes ≡ false)
unfolding run step handle_message
announced_twice node version def s d old events q f e h k a =
    let t = (handle_service_available node version def s).0 in
    let w = run-Stays s.next def.id events t a (again-Stays node version def s d old q f e h k) in
    (w.held, w.untold)
