-- ===== src/Messaging/Defs.antt =====
-- The state of `Messaging`, its handlers and what they do to the outside.
use ataraxia.Base.{
  ℕ, ◌+◌, Option, none, some, Bool, false, List, [], ◌∷◌, ◌++◌, ◌||◌, nat_eq, Text, if◌then◌else◌,
}
use ataraxia.Ids.{same_id}
use ataraxia.Codec.{DataMessage, DataMessagePathEntry}
use ataraxia.Map
use ataraxia.Map.{Map}

-- `previous` of a message that is forwarded: the peer that it came from, and its number there.
pub record Previous : Type 0 where
  pub peer : List ℕ
  pub id : ℕ

-- `own` has `resolve` and `reject`; the promise of a message that is sent goes by the message's
-- number. `routed` has `previous` instead. Each has a timer, which goes by the number too.
pub data SentMessage : Type 0 where
  own : SentMessage
  routed : Previous → SentMessage

pub record Messaging : Type 0 where
  pub pending : Map ℕ SentMessage
  pub id_counter : ℕ

pub data SendError : Type 0 where
  timed_out could_not_forward : SendError

-- A peer goes by its identifier.
pub data Effect : Type 0 where
  send_data : List ℕ → DataMessage → Effect
  send_ack send_reject : List ℕ → ℕ → Effect
  refresh_routing : Effect
  emit_data : List ℕ → Text → List ℕ → Effect
  start_timer clear_timer : ℕ → Effect
  resolve : ℕ → Effect
  fail : ℕ → SendError → Effect
  throw_type_error : Effect

-- What is used of the routing, as it stands when a handler runs.
pub record Routes : Type 0 where
  pub self : List ℕ
  pub find_peer_for_target : List ℕ → Option (List ℕ)
  pub get_peer : List ℕ → Option (List ℕ)

unfoldable pub create : Messaging
create = record { pending = []; id_counter = 0 }

-- `containsNode`
unfoldable pub contains_node : List DataMessagePathEntry → List ℕ → Bool
contains_node [] id = false
contains_node (p ∷ path) id = same_id p.node id || contains_node path id

-- `releaseId`
unfoldable pub release_id : ℕ → Messaging → Messaging × List Effect
release_id id m = elim (Map.get id m.pending) [
  | none ↦ (m, [])
  | some _ ↦ (record m { pending = Map.delete id m.pending }, clear_timer id ∷ [])
]

abbrev pub and_do : Messaging × List Effect → List Effect → Messaging × List Effect
and_do (m, done) more = (m, done ++ more)

-- What `setTimeout` in `queueTimeout` runs.
unfoldable pub time_out : ℕ → Messaging → Messaging × List Effect
unfolding release_id
time_out id m = elim (Map.get id m.pending) [
  | none ↦ (m, [])
  | some own ↦ and_do (release_id id m) (fail id timed_out ∷ [])
  | some (routed _) ↦ release_id id m
]

abbrev next_message : List DataMessagePathEntry → List ℕ → ℕ → DataMessage → DataMessage
next_message path self id m = record m { path = path ++ record { node = self; id = id } ∷ [] }

-- `send`; `none` is the promise that is rejected at once, with 'Node not reachable'.
unfoldable pub send :
    Routes → List ℕ → Text → List ℕ → Messaging → Option ℕ × (Messaging × List Effect)
send routes target type payload m = elim (routes.find_peer_for_target target) [
  | none ↦ (none, (m, []))
  | some peer ↦
      let message : DataMessage = record {
        path = record { node = routes.self; id = m.id_counter } ∷ [];
        target = target;
        type = type;
        payload = payload;
      } in
      (
        some m.id_counter,
        (
          record { pending = Map.set m.id_counter own m.pending; id_counter = m.id_counter + 1 },
          start_timer m.id_counter ∷ send_data peer message ∷ [],
        ),
      )
]

-- The `catch` of sending a message, both in `send` and in `handleData`.
unfoldable pub send_failed : ℕ → Messaging → Messaging × List Effect
unfolding release_id
send_failed id m = release_id id m

-- `data.path[data.path.length - 1]`
abbrev pub last_entry : List DataMessagePathEntry → Option DataMessagePathEntry
last_entry [] = none
last_entry (p ∷ []) = some p
last_entry (p ∷ q ∷ path) = last_entry (q ∷ path)

abbrev pub first_node : List DataMessagePathEntry → List ℕ
first_node [] = []
first_node (p ∷ path) = p.node

unfoldable pub forward :
    Routes → List ℕ → List ℕ → ℕ → DataMessage → Messaging → Messaging × List Effect
forward routes peer target_peer last_id message m = (
  record {
    pending = Map.set m.id_counter (routed (record { peer = peer; id = last_id })) m.pending;
    id_counter = m.id_counter + 1;
  },
  start_timer m.id_counter
      ∷ send_data target_peer (next_message message.path routes.self m.id_counter message)
      ∷ [],
)

-- `handleData` where the path has a last entry.
unfoldable pub handle_from : Routes → List ℕ → ℕ → DataMessage → Messaging → Messaging × List Effect
unfolding forward
handle_from routes peer last_id message m =
    if same_id message.target routes.self
    then (
      m,
      send_ack peer last_id
          ∷ refresh_routing
          ∷ emit_data (first_node message.path) message.type message.payload
          ∷ [],
    )
    else elim (routes.find_peer_for_target message.target) [
      | none ↦ (m, send_reject peer last_id ∷ [])
      | some target_peer ↦
          if contains_node message.path target_peer
          then (m, send_reject peer last_id ∷ [])
          else forward routes peer target_peer last_id message m
    ]

-- `handleData` where the path is empty: `lastPathEntry.id` throws, after a forwarded message has
-- taken its number.
unfoldable pub handle_no_path : Routes → DataMessage → Messaging → Messaging × List Effect
handle_no_path routes message m =
    if same_id message.target routes.self
    then (m, throw_type_error ∷ [])
    else elim (routes.find_peer_for_target message.target) [
      | none ↦ (m, throw_type_error ∷ [])
      | some target_peer ↦ (record m { id_counter = m.id_counter + 1 }, throw_type_error ∷ [])
    ]

-- `handleData`, for a message from `peer`
unfoldable pub handle_data : Routes → List ℕ → DataMessage → Messaging → Messaging × List Effect
unfolding handle_from handle_no_path
handle_data routes peer message m = elim (last_entry message.path) [
  | none ↦ handle_no_path routes message m
  | some last ↦ handle_from routes peer last.id message m
]

-- The end of `handleAck` and `handleReject` for a message that was forwarded.
unfoldable pub pass_back : Routes → (List ℕ → ℕ → Effect) → Previous → List Effect
pass_back routes answer previous = elim (routes.get_peer previous.peer) [
  | none ↦ []
  | some peer ↦ answer peer previous.id ∷ []
]

unfoldable pub handle_ack : Routes → ℕ → Messaging → Messaging × List Effect
unfolding release_id pass_back
handle_ack routes id m = elim (Map.get id m.pending) [
  | none ↦ (m, [])
  | some own ↦ and_do (release_id id m) (resolve id ∷ [])
  | some (routed previous) ↦ and_do (release_id id m) (pass_back routes send_ack previous)
]

unfoldable pub handle_reject : Routes → ℕ → Messaging → Messaging × List Effect
unfolding release_id pass_back
handle_reject routes id m = elim (Map.get id m.pending) [
  | none ↦ (m, [])
  | some own ↦ and_do (release_id id m) (fail id could_not_forward ∷ [])
  | some (routed previous) ↦ and_do (release_id id m) (pass_back routes send_reject previous)
]

-- What can happen to an instance.
pub data Event : Type 0 where
  sends : List ℕ → Text → List ℕ → Event
  sending_fails : ℕ → Event
  receives : List ℕ → DataMessage → Event
  acknowledged rejected times_out : ℕ → Event

unfoldable pub step : Routes → Event → Messaging → Messaging × List Effect
step routes (sends target type payload) m = (send routes target type payload m).1
step routes (sending_fails id) m = send_failed id m
step routes (receives peer message) m = handle_data routes peer message m
step routes (acknowledged id) m = handle_ack routes id m
step routes (rejected id) m = handle_reject routes id m
step routes (times_out id) m = time_out id m

-- A history, each event with the routing at its time: the state and all effects at its end.
unfoldable pub run : List (Routes × Event) → Messaging × List Effect → Messaging × List Effect
unfolding step send time_out send_failed handle_data handle_ack handle_reject
run [] s = s
run ((routes, e) ∷ events) s = run events ((step routes e s.0).0, s.1 ++ (step routes e s.0).1)
