-- ===== src/Peer/State.antt =====
-- The state of a peer, what it does to the outside, and the small steps that its handlers share.
use ataraxia.Base.{
  ℕ, ◌+◌, ◌-◌, ◌/◌, Option, none, some, Bool, List, [], ◌∷◌, ◌++◌, ltb, Text, if◌then◌else◌, length,
  drop,
}
use ataraxia.Codec.{PeerMessage}

pub data Phase : Type 0 where
  initial waiting_for_hello waiting_for_select_ack waiting_for_auth waiting_for_auth_data
        waiting_for_begin waiting_for_select waiting_for_auth_ack active :
      Phase

pub data DisconnectReason : Type 0 where
  manual error ping_timeout negotiation_failed auth_reject : DisconnectReason

-- An `AuthProvider`: its method, and whether it has `createClientFlow` and `createServerFlow`.
pub record Provider : Type 0 where
  pub method : Text
  pub client : Bool
  pub server : Bool

-- A flow goes by the provider that created it.
pub record Peer : Type 0 where
  pub network_id : List ℕ
  pub auth_providers : List Provider
  pub id : List ℕ
  pub state : Phase
  pub last_latency_time : ℕ
  pub latency_values : List ℕ
  pub last_ping : ℕ
  pub remaining_auth_providers : Option (List Provider)
  pub auth_client_flow : Option Provider
  pub auth_server_flow : Option Provider

-- What a handler does: messages, timers, events, and calls of a flow whose result comes later.
-- `destroy_flow_for` is the end of a flow that a new AUTH waits for.
pub data Effect : Type 0 where
  send : PeerMessage → Effect
  queue_negotiation_timeout clear_negotiation_timeout start_pings clear_pings : Effect
  register_heartbeat : Effect
  request_disconnect : DisconnectReason → Effect
  emit_connect emit_disconnect : Effect
  emit_data : PeerMessage → Effect
  ask_initial_message : Provider → Effect
  ask_receive_initial : Provider → List ℕ → Effect
  ask_client_data ask_server_data : Provider → List ℕ → Effect
  destroy_flow : Provider → Effect
  destroy_flow_for : Provider → Text → List ℕ → Effect

abbrev pub Acts : Type 0
Acts = Peer × List Effect

-- A handler's later part.
abbrev pub then_do : Acts → (Peer → Acts) → Acts
then_do a k = let b = k a.0 in (b.0, a.1 ++ b.1)

unfoldable pub create : List ℕ → List Provider → ℕ → Peer
create network_id providers now = record {
  network_id = network_id;
  auth_providers = providers;
  id = [];
  state = initial;
  last_latency_time = now;
  latency_values = [];
  last_ping = 0;
  remaining_auth_providers = none;
  auth_client_flow = none;
  auth_server_flow = none;
}

-- `abort`
unfoldable pub abort_with : DisconnectReason → Peer → Acts
abort_with reason p = (p, clear_negotiation_timeout ∷ request_disconnect reason ∷ [])

abbrev pub abort : Peer → Acts
abort = abort_with negotiation_failed

abbrev pub queue_timeout : Peer → Acts
queue_timeout p = (p, queue_negotiation_timeout ∷ [])

unfoldable pub register_latency_send : ℕ → Peer → Peer
register_latency_send now p = record p { last_latency_time = now }

-- The clock does not run backwards, so the difference is that of the source.
unfoldable pub register_latency_reply : ℕ → Peer → Peer
register_latency_reply now p =
    let kept =
      if ltb 5 (length p.latency_values) then drop 1 p.latency_values else p.latency_values in
    record p { latency_values = kept ++ (now - p.last_latency_time) ∷ [] }

abbrev pub sum : List ℕ → ℕ
sum [] = 0
sum (v ∷ vs) = v + sum vs

-- `latency`; `none` where it throws.
unfoldable pub latency : Peer → Option ℕ
latency p = elim p.latency_values [ [] ↦ none | v ∷ vs ↦ some (sum (v ∷ vs) / length (v ∷ vs)) ]

abbrev pub destroy_all : Option Provider → List Effect
destroy_all none = []
destroy_all (some flow) = destroy_flow flow ∷ []

unfoldable pub switch_to_active : ℕ → Peer → Acts
switch_to_active now p = (
  record p { state = active; last_ping = now },
  clear_negotiation_timeout
      ∷ (destroy_all p.auth_client_flow
          ++ (destroy_all p.auth_server_flow
              ++ register_heartbeat ∷ start_pings ∷ emit_connect ∷ [])),
)

unfoldable pub handle_disconnect : DisconnectReason → Peer → Acts
handle_disconnect reason p = (
  record p { state = initial },
  clear_negotiation_timeout ∷ clear_pings ∷ elim p.state [ active ↦ emit_disconnect ∷ [] | _ ↦ [] ],
)
