-- ===== src/Services/Defs.antt =====
-- packages/services/src: the state of Services.ts, and the services of several instances
-- (MergedServiceReflect.ts, ServiceInfo.ts).
use ataraxia.Base.{
  ℕ, Option, none, some, Bool, true, false, List, [], ◌∷◌, ◌++◌, ◌==◌, if◌then◌else◌, Text,
  bytes_eq, any,
}
use ataraxia.Map
use ataraxia.Map.{Map}

-- A method and an event go by their names.
pub record ServiceDef : Type 0 where
  pub id : Text
  pub methods : List Text
  pub events : List Text

-- An instance of a service, here or on another node; no two have the same number.
pub record Reflect : Type 0 where
  pub number : ℕ
  pub def : ServiceDef

-- `addReflect` of MergedServiceReflect, which is the list of its instances.
unfoldable pub add_reflect : Reflect → List Reflect → List Reflect
add_reflect r reflects = reflects ++ r ∷ []

-- `removeReflect`
unfoldable pub remove_reflect : Reflect → List Reflect → List Reflect
remove_reflect r [] = []
remove_reflect r (q ∷ reflects) =
    let rest = remove_reflect r reflects in if q.number == r.number then reflects else q ∷ rest

-- `hasReflects`
unfoldable pub has_reflects : List Reflect → Bool
has_reflects [] = false
has_reflects (r ∷ reflects) = true

-- `hasMethod` and `apply`: the instance that a call goes to.
unfoldable pub target_of : Text → List Reflect → Option Reflect
target_of method [] = none
target_of method (r ∷ reflects) =
    let rest = target_of method reflects in
    if any (λ m. bytes_eq.beq m method) r.def.methods then some r else rest

-- One turn of the loops of `mergeMetadata`: the names of an instance are set one after the other.
unfoldable pub merge_names : List Text → Map Text Text → Map Text Text
merge_names [] names = names
merge_names (n ∷ rest) names = merge_names rest (Map.set n n names)

-- `mergeMetadata`, for the methods.
unfoldable pub merge_methods : List Reflect → Map Text Text → Map Text Text
unfolding merge_names
merge_methods [] names = names
merge_methods (r ∷ reflects) names = merge_methods reflects (merge_names r.def.methods names)

-- `mergeMetadata`, for the events.
unfoldable pub merge_events : List Reflect → Map Text Text → Map Text Text
unfolding merge_names
merge_events [] names = names
merge_events (r ∷ reflects) names = merge_events reflects (merge_names r.def.events names)

-- `toServiceDef` of a merged service.
unfoldable pub merged_def : Text → List Reflect → ServiceDef
unfolding merge_methods merge_events
merged_def id reflects = record {
  id = id;
  methods = Map.values (merge_methods reflects []);
  events = Map.values (merge_events reflects []);
}

-- ServiceNodeData
pub record NodeData : Type 0 where
  pub version : ℕ
  pub services : Map Text Reflect

-- LocalServiceData; an unsubscriber goes by the number of its handler.
pub record LocalService : Type 0 where
  pub reflects : List Reflect
  pub subscriptions : Map Text (Map Text ℕ)

-- What nodes tell each other.
pub data ServiceMessage : Type 0 where
  list_request : ℕ → ServiceMessage
  list_reply : ℕ → List ServiceDef → ServiceMessage
  available : ℕ → ServiceDef → ServiceMessage
  unavailable : ℕ → Text → ServiceMessage

-- Messages to a node or to the group; events for a service; listeners of a service's instances.
pub data Effect : Type 0 where
  sends : Text → ServiceMessage → Effect
  broadcasts : ServiceMessage → Effect
  service_available service_unavailable service_updated : Text → Effect
  subscribes unsubscribes : List Reflect → Text → ℕ → Effect

-- `known` is the map _services; numbers from `next` on are new.
pub record Services : Type 0 where
  pub nodes : Map Text NodeData
  pub version : ℕ
  pub local : Map Text LocalService
  pub known : Map Text (List Reflect)
  pub next : ℕ
