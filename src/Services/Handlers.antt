-- ===== src/Services/Handlers.antt =====
-- The operations and handlers of packages/services/src/Services.ts.
use ataraxia.Base.{
  ℕ, ◌+◌, none, some, Bool, true, false, List, [], ◌∷◌, ◌++◌, ◌==◌, if◌then◌else◌, Text, bytes_eq,
  nat_eq, any,
}
use ataraxia.Map
use ataraxia.Map.{Map}
use ataraxia.Services.Defs.{
  ServiceDef, Reflect, add_reflect, remove_reflect, has_reflects, merged_def, NodeData,
  LocalService, list_request, list_reply, available, unavailable, Effect, sends, broadcasts,
  service_available, service_unavailable, service_updated, subscribes, unsubscribes, Services,
}

-- `registerServiceReflect`
unfoldable pub register_service_reflect : Reflect → Services → Services × List Effect
unfolding add_reflect
register_service_reflect r s = elim (Map.get r.def.id s.known) [
  | none ↦ (
    record s { known = Map.set r.def.id (add_reflect r []) s.known },
    service_available r.def.id ∷ [],
  )
  | some reflects ↦ (
    record s { known = Map.set r.def.id (add_reflect r reflects) s.known },
    service_updated r.def.id ∷ [],
  )
]

-- `updateServiceReflect`
unfoldable pub update_service_reflect : Reflect → Reflect → Services → Services × List Effect
unfolding add_reflect remove_reflect
update_service_reflect current new s = elim (Map.get current.def.id s.known) [
  | none ↦ (s, [])
  | some reflects ↦ (
    record s {
      known = Map.set current.def.id (add_reflect new (remove_reflect current reflects)) s.known;
    },
    service_updated current.def.id ∷ [],
  )
]

-- `unregisterServiceReflect`
unfoldable pub unregister_service_reflect : Reflect → Services → Services × List Effect
unfolding remove_reflect has_reflects
unregister_service_reflect r s = elim (Map.get r.def.id s.known) [
  | none ↦ (s, [])
  | some reflects ↦
      let rest = remove_reflect r reflects in
      if has_reflects rest
      then (record s { known = Map.set r.def.id rest s.known }, [])
      else (record s { known = Map.delete r.def.id s.known }, service_unavailable r.def.id ∷ [])
]

-- `register`, once the service and its contract have been found.
unfoldable pub register : ServiceDef → Services → Reflect × Services × List Effect
unfolding add_reflect register_service_reflect
register def s =
    let r : Reflect = record { number = s.next; def = def } in
    let old : LocalService = elim (Map.get def.id s.local) [
      | none ↦ record { reflects = []; subscriptions = [] }
      | some l ↦ l
    ] in
    let t = record s {
      local = Map.set def.id (record old { reflects = add_reflect r old.reflects }) s.local;
      version = s.version + 1;
      next = s.next + 1;
    } in
    let (u, effects) = register_service_reflect r t in
    (r, u, broadcasts (available t.version def) ∷ effects)

-- `unregister`
unfoldable pub unregister : Reflect → Services → Services × List Effect
unfolding remove_reflect has_reflects unregister_service_reflect
unregister r s = elim (Map.get r.def.id s.local) [
  | none ↦ (s, [])
  | some l ↦
      let rest = remove_reflect r l.reflects in
      let version = s.version + 1 in
      let left = has_reflects rest in
      let local =
        if left
        then Map.set r.def.id (record l { reflects = rest }) s.local
        else Map.delete r.def.id s.local in
      let message = if left then available version r.def else unavailable version r.def.id in
      let (u, effects) =
        unregister_service_reflect r (record s { version = version; local = local }) in
      (u, broadcasts message ∷ effects)
]

unfoldable pub handle_node_available : Text → Services → Services × List Effect
handle_node_available node s = (
  record s { nodes = Map.set node (record { version = 0; services = [] }) s.nodes },
  sends node (list_request 0) ∷ [],
)

-- The loop over the services of a node that is gone.
unfoldable pub unregister_all : List Reflect → Services → Services × List Effect
unfolding unregister_service_reflect
unregister_all [] s = (s, [])
unregister_all (r ∷ reflects) s =
    let (t, effects) = unregister_service_reflect r s in
    let (u, more) = unregister_all reflects t in (u, effects ++ more)

-- The unsubscribers of one local service for a node.
unfoldable pub unsubscribe_all : List Reflect → Map Text ℕ → List Effect
unsubscribe_all reflects [] = []
unsubscribe_all reflects ((event, handler) ∷ events) =
    unsubscribes reflects event handler ∷ unsubscribe_all reflects events

-- The loop over the local services for a node that is gone.
unfoldable pub drop_subscriptions :
    Text → Map Text LocalService → Map Text LocalService × List Effect
unfolding unsubscribe_all
drop_subscriptions node [] = ([], [])
drop_subscriptions node ((id, l) ∷ local) =
    let (rest, more) = drop_subscriptions node local in
    elim (Map.get node l.subscriptions) [
      | none ↦ ((id, l) ∷ rest, more)
      | some events ↦ (
        (id, record l { subscriptions = Map.delete node l.subscriptions }) ∷ rest,
        unsubscribe_all l.reflects events ++ more,
      )
    ]

unfoldable pub handle_node_unavailable : Text → Services → Services × List Effect
unfolding unregister_all drop_subscriptions
handle_node_unavailable node s = elim (Map.get node s.nodes) [
  | none ↦ (s, [])
  | some d ↦
      let (t, effects) =
        unregister_all (Map.values d.services) (record s { nodes = Map.delete node s.nodes }) in
      let (local, more) = drop_subscriptions node t.local in
      (record t { local = local }, effects ++ more)
]

-- The definitions of all local services.
unfoldable pub local_defs : Map Text LocalService → List ServiceDef
unfolding merged_def
local_defs [] = []
local_defs ((id, l) ∷ local) = merged_def id l.reflects ∷ local_defs local

unfoldable pub handle_service_list_request : Text → ℕ → Services → Services × List Effect
unfolding local_defs
handle_service_list_request node last_version s =
    if last_version == s.version
    then (s, [])
    else (s, sends node (list_reply s.version (local_defs s.local)) ∷ [])

-- The first loop of a list: each service is updated or registered.
unfoldable pub take_defs :
    List ServiceDef → Map Text Reflect → Services → Map Text Reflect × Services × List Effect
unfolding update_service_reflect register_service_reflect
take_defs [] services s = (services, s, [])
take_defs (def ∷ defs) services s =
    let r : Reflect = record { number = s.next; def = def } in
    let t = record s { next = s.next + 1 } in
    let (u, effects) : Services × List Effect = elim (Map.get def.id services) [
      | none ↦ register_service_reflect r t
      | some existing ↦ update_service_reflect existing r t
    ] in
    let (rest, v, more) = take_defs defs (Map.set def.id r services) u in (rest, v, effects ++ more)

abbrev pub is_listed : Text → List ServiceDef → Bool
is_listed id = any (λ (d : ServiceDef). bytes_eq.beq d.id id)

-- The second loop: the services that were there before and are not listed.
unfoldable pub drop_unlisted :
    List Text
    → List ServiceDef
    → Map Text Reflect
    → Services
    → Map Text Reflect × Services × List Effect
unfolding unregister_service_reflect
drop_unlisted [] defs services s = (services, s, [])
drop_unlisted (id ∷ ids) defs services s = elim (is_listed id defs) [
  | true ↦ drop_unlisted ids defs services s
  | false ↦ elim (Map.get id services) [
    | none ↦ drop_unlisted ids defs services s
    | some r ↦
        let (t, effects) = unregister_service_reflect r s in
        let (rest, u, more) = drop_unlisted ids defs (Map.delete id services) t in
        (rest, u, effects ++ more)
  ]
]

abbrev pub keys : Map Text Reflect → List Text
keys [] = []
keys ((id, r) ∷ services) = id ∷ keys services

unfoldable pub handle_service_list_reply :
    Text → ℕ → List ServiceDef → Services → Services × List Effect
unfolding take_defs drop_unlisted
handle_service_list_reply node version defs s = elim (Map.get node s.nodes) [
  | none ↦ (s, [])
  | some d ↦
      let (services, t, effects) = take_defs defs d.services s in
      let (rest, u, more) = drop_unlisted (keys d.services) defs services t in
      (
        record u { nodes = Map.set node (record { version = version; services = rest }) u.nodes },
        effects ++ more,
      )
]

-- What a change does to the version that is known of a node: it is taken if it is the next one,
-- else the list is asked for.
unfoldable pub follow_version : Text → ℕ → NodeData → Services → Services × List Effect
follow_version node version d s =
    if nat_eq.beq (d.version + 1) version
    then (record s { nodes = Map.set node (record d { version = version }) s.nodes }, [])
    else (record s { nodes = Map.set node d s.nodes }, sends node (list_request d.version) ∷ [])

unfoldable pub handle_service_available : Text → ℕ → ServiceDef → Services → Services × List Effect
unfolding update_service_reflect register_service_reflect follow_version
handle_service_available node version def s = elim (Map.get node s.nodes) [
  | none ↦ (s, [])
  | some d ↦
      let r : Reflect = record { number = s.next; def = def } in
      let t = record s { next = s.next + 1 } in
      elim (Map.get def.id d.services) [
        | none ↦
            let (u, effects) = register_service_reflect r t in
            let (v, more) =
              follow_version node version (record d { services = Map.set def.id r d.services }) u in
            (v, effects ++ more)
        | some existing ↦
            let (u, effects) = update_service_reflect existing r t in
            let (v, more) = follow_version node version d u in (v, effects ++ more)
      ]
]

unfoldable pub handle_service_unavailable : Text → ℕ → Text → Services → Services × List Effect
unfolding unregister_service_reflect follow_version
handle_service_unavailable node version id s = elim (Map.get node s.nodes) [
  | none ↦ (s, [])
  | some d ↦ elim (Map.get id d.services) [
    | none ↦ follow_version node version d s
    | some existing ↦
        let (t, effects) = unregister_service_reflect existing s in
        let (u, more) =
          follow_version node version (record d { services = Map.delete id d.services }) t in
        (u, effects ++ more)
  ]
]

unfoldable pub handle_service_event_subscribe :
    Text → Text → Text → Services → Services × List Effect
handle_service_event_subscribe node service event s = elim (Map.get service s.local) [
  | none ↦ (s, [])
  | some l ↦
      let events : Map Text ℕ = elim (Map.get node l.subscriptions) [ none ↦ [] | some e ↦ e ] in
      if Map.has event events then (s, []) else (
        record s {
          local =
              Map.set service
                (record l {
                  subscriptions = Map.set node (Map.set event s.next events) l.subscriptions;
                })
                s.local;
          next = s.next + 1;
        },
        subscribes l.reflects event s.next ∷ [],
      )
]

unfoldable pub handle_service_event_unsubscribe :
    Text → Text → Text → Services → Services × List Effect
handle_service_event_unsubscribe node service event s = elim (Map.get service s.local) [
  | none ↦ (s, [])
  | some l ↦ elim (Map.get node l.subscriptions) [
    | none ↦ (s, [])
    | some events ↦ elim (Map.get event events) [
      | none ↦ (s, [])
      | some handler ↦
          let rest = Map.delete node events in
          (
            record s {
              local =
                  Map.set service
                    (record l {
                      subscriptions =
                          if Map.size rest == 0
                          then Map.delete node l.subscriptions
                          else Map.set node rest l.subscriptions;
                    })
                    s.local;
            },
            unsubscribes l.reflects event handler ∷ [],
          )
    ]
  ]
]
