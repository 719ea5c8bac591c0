-- ===== src/Services/Events.antt =====
-- What happens to the services of a node, in any order.
use ataraxia.Base.{List, [], ◌∷◌, ◌++◌, Text}
use ataraxia.Services.Defs.{
  ServiceDef, Reflect, ServiceMessage, list_request, list_reply, available, unavailable, Effect,
  Services,
}
use ataraxia.Services.Handlers.{
  register, unregister, handle_node_available, handle_node_unavailable, handle_service_list_request,
  handle_service_list_reply, handle_service_available, handle_service_unavailable,
  handle_service_event_subscribe, handle_service_event_unsubscribe,
}

-- `handleMessage`, for the messages of the registry.
unfoldable pub handle_message : Text → ServiceMessage → Services → Services × List Effect
unfolding handle_service_list_request handle_service_list_reply handle_service_available
    handle_service_unavailable
handle_message node (list_request version) s = handle_service_list_request node version s
handle_message node (list_reply version defs) s = handle_service_list_reply node version defs s
handle_message node (available version def) s = handle_service_available node version def s
handle_message node (unavailable version id) s = handle_service_unavailable node version id s

-- A service is registered or unregistered here; a node of the group comes, goes or sends a message;
-- a node subscribes to an event of a local service, or ends that.
pub data Event : Type 0 where
  registers : ServiceDef → Event
  unregisters : Reflect → Event
  node_comes node_goes : Text → Event
  receives : Text → ServiceMessage → Event
  asks_events ends_events : Text → Text → Text → Event

unfoldable pub step : Event → Services → Services × List Effect
unfolding register unregister handle_node_available handle_node_unavailable handle_message
    handle_service_event_subscribe handle_service_event_unsubscribe
step (registers def) s = let (r, t, effects) = register def s in (t, effects)
step (unregisters r) s = unregister r s
step (node_comes node) s = handle_node_available node s
step (node_goes node) s = handle_node_unavailable node s
step (receives node message) s = handle_message node message s
step (asks_events node service event) s = handle_service_event_subscribe node service event s
step (ends_events node service event) s = handle_service_event_unsubscribe node service event s

unfoldable pub run : List Event → Services → Services × List Effect
unfolding step
run [] s = (s, [])
run (e ∷ events) s =
    let (t, effects) = step e s in let (u, more) = run events t in (u, effects ++ more)

-- The constructor.
abbrev pub create : Services
create = record { nodes = []; version = 0; local = []; known = []; next = 0 }
