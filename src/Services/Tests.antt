-- ===== src/Services/Tests.antt =====
-- Services of concrete nodes, and the theorems at them.
use ataraxia.Base.{◌≡◌, refl, some, All, true, false, List, [], ◌∷◌, any, Text, bytes_eq}
use ataraxia.Map
use ataraxia.Services.Defs.{
  ServiceDef, Reflect, NodeData, Services, add_reflect, target_of, merged_def, list_reply,
  available, unavailable, merge_methods, merge_events, merge_names,
}
use ataraxia.Services.Handlers.{
  handle_node_available, handle_service_available, register_service_reflect, follow_version,
  handle_service_list_reply,
}
use ataraxia.Services.Events.{
  step, handle_message, Event, registers, node_comes, node_goes, receives, asks_events, run, create,
}
use ataraxia.Services.Telling.{told}
use ataraxia.Services.Announced.{run-told}
use ataraxia.Services.Listing.{handle_service_list_reply-listed}
use ataraxia.Services.Held.{is_held, is_told}
use ataraxia.Services.Updating.{announced_twice, is_unregister}

abbrev printer : ServiceDef
printer = record { id = 5 ∷ []; methods = (1 ∷ []) ∷ (2 ∷ []) ∷ []; events = (3 ∷ []) ∷ [] }

abbrev scanner : ServiceDef
scanner = record { id = 6 ∷ []; methods = (2 ∷ []) ∷ []; events = [] }

abbrev offered : Reflect
offered = record { number = 1; def = scanner }

abbrev printing : Reflect
printing = record { number = 0; def = printer }

target_test : target_of (2 ∷ []) (printing ∷ offered ∷ []) ≡ some printing
unfolding target_of
target_test = refl

merged_test :
    merged_def (5 ∷ []) (offered ∷ printing ∷ [])
    ≡ record { id = 5 ∷ []; methods = (2 ∷ []) ∷ (1 ∷ []) ∷ []; events = (3 ∷ []) ∷ [] }
unfolding merged_def merge_methods merge_events merge_names Map.set
merged_test = refl

abbrev history : List Event
history =
    registers printer
    ∷ node_comes (9 ∷ [])
    ∷ receives (9 ∷ []) (list_reply 2 (scanner ∷ []))
    ∷ receives (9 ∷ []) (unavailable 3 (6 ∷ []))
    ∷ []

run-told_example :
    told (6 ∷ []) false (run history create).1 ≡ Map.has (6 ∷ []) (run history create).0.known
run-told_example = run-told history (6 ∷ [])

abbrev subscribed : Services
subscribed = record create {
  local =
      (5 ∷ [], record { reflects = printing ∷ []; subscriptions = (9 ∷ [], (3 ∷ [], 4) ∷ []) ∷ [] })
      ∷ [];
  next = 5;
}

-- Another node comes, and subscribes.
abbrev others : List Event
others = node_comes (8 ∷ []) ∷ asks_events (8 ∷ []) (5 ∷ []) (3 ∷ []) ∷ []

abbrev visited : Services
visited = record create { nodes = (9 ∷ [], record { version = 0; services = [] }) ∷ [] }

has_visited : Map.get (9 ∷ []) visited.nodes ≡ some (record { version = 0; services = [] })
unfolding Map.get
has_visited = refl

handle_service_list_reply-listed_example :
    (e : NodeData) × (Map.get
        (9 ∷ [])
        (handle_service_list_reply (9 ∷ []) 2 (scanner ∷ []) visited).0.nodes
      ≡ some e)
    × (e.version ≡ 2)
    × ((id : Text)
        → Map.has id e.services ≡ any (λ (f : ServiceDef). bytes_eq.beq f.id id) (scanner ∷ []))
handle_service_list_reply-listed_example =
    handle_service_list_reply-listed (9 ∷ []) 2 (scanner ∷ []) visited
      (record { version = 0; services = [] }) has_visited

abbrev faster : ServiceDef
faster = record { id = 6 ∷ []; methods = (2 ∷ []) ∷ (7 ∷ []) ∷ []; events = [] }

-- A node comes and announces a service.
abbrev offering : Services
offering = (run (node_comes (9 ∷ []) ∷ receives (9 ∷ []) (available 1 scanner) ∷ []) create).0

-- It leaves, comes again, and has no services.
abbrev leaving : List Event
leaving = node_goes (9 ∷ []) ∷ node_comes (9 ∷ []) ∷ receives (9 ∷ []) (list_reply 2 []) ∷ []

abbrev scanning : Reflect
scanning = record { number = 0; def = scanner }

abbrev offered_services : NodeData
offered_services = record { version = 1; services = (6 ∷ [], scanning) ∷ [] }

offering-node : Map.get (9 ∷ []) offering.nodes ≡ some offered_services
unfolding run step handle_message handle_node_available handle_service_available
    register_service_reflect follow_version add_reflect Map.get Map.set
offering-node = refl

offering-service : Map.get (6 ∷ []) offered_services.services ≡ some scanning
unfolding Map.get
offering-service = refl

offering-known : Map.has (6 ∷ []) offering.known ≡ true
unfolding run step handle_message handle_node_available handle_service_available
    register_service_reflect follow_version add_reflect Map.get Map.set Map.has
offering-known = refl

offering-untold : is_told offering.next offering.nodes ≡ false
unfolding run step handle_message handle_node_available handle_service_available
    register_service_reflect follow_version add_reflect Map.get Map.set
offering-untold = refl

leaving-others : All (λ (e : Event). is_unregister offering.next e ≡ false) leaving
leaving-others = (refl, (refl, (refl, tt)))

announced_twice_example :
    let t = (run (receives (9 ∷ []) (available 2 faster) ∷ leaving) offering).0 in
    (is_held offering.next (6 ∷ []) t.known ≡ true) × (is_told offering.next t.nodes ≡ false)
announced_twice_example =
    announced_twice (9 ∷ []) 2 faster offering offered_services scanning leaving offering-node
      offering-service refl offering-known offering-untold leaving-others
