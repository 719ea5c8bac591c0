-- ===== src/Peer/Events.antt =====
-- The handlers of a peer's messages, and everything else that can happen to it.
use ataraxia.Base.{ℕ, ◌+◌, some, Bool, List, [], ◌∷◌, ◌++◌, ◌||◌, ltb, Text, if◌then◌else◌}
use ataraxia.Codec.{
  PeerMessage, ok, reject, bye, ping, pong, begin, hello, select, auth, auth_data, node_summary,
  node_request, node_details, data_message, data_ack, data_reject,
}
use ataraxia.Peer.State.{
  waiting_for_hello, waiting_for_select_ack, waiting_for_auth, waiting_for_auth_data,
  waiting_for_begin, waiting_for_select, waiting_for_auth_ack, DisconnectReason, manual,
  ping_timeout, Provider, Peer, send, register_heartbeat, request_disconnect, emit_data, Acts,
  then_do, abort_with, abort, queue_timeout, register_latency_send, register_latency_reply,
  switch_to_active, handle_disconnect,
}
use ataraxia.Peer.Flows.{
  send_initial_auth, choose_server_flow, receive_auth, ServerReply, ClientReply,
  handle_sending_auth_reply, receive_client_auth_data, receive_server_auth_data,
  handle_client_reply,
}

unfoldable pub negotiate_as_server : Peer → Acts
negotiate_as_server p =
    then_do (record p { state = waiting_for_select }, send (hello p.network_id []) ∷ [])
      queue_timeout

unfoldable pub negotiate_as_client : ℕ → Peer → Acts
unfolding register_latency_send
negotiate_as_client now p =
    queue_timeout (record (register_latency_send now p) { state = waiting_for_hello })

unfoldable pub receive_hello : ℕ → List ℕ → Peer → Acts
unfolding register_latency_send
receive_hello now id p =
    then_do
      (
        register_latency_send now (record p { id = id; state = waiting_for_select_ack }),
        send (select p.network_id []) ∷ [],
      )
      queue_timeout

unfoldable pub receive_select : List ℕ → Peer → Acts
receive_select id p =
    then_do (record p { id = id; state = waiting_for_auth }, send ok ∷ []) queue_timeout

unfoldable pub receive_select_ok : ℕ → Peer → Acts
unfolding register_latency_reply send_initial_auth
receive_select_ok now p = send_initial_auth (record (register_latency_reply now p) {
  state = waiting_for_auth_ack;
  remaining_auth_providers = some p.auth_providers;
})

-- Sending BEGIN; its success is the event `begin_sent`.
unfoldable pub receive_auth_ok : Peer → Acts
receive_auth_ok p = (p, send begin ∷ [])

unfoldable pub receive_ping : ℕ → Peer → Acts
receive_ping now p = (record p { last_ping = now }, register_heartbeat ∷ send pong ∷ [])

-- `receiveData`
unfoldable pub receive_data : ℕ → PeerMessage → Peer → Acts
unfolding abort_with receive_ping register_latency_reply receive_hello receive_select receive_auth
    receive_client_auth_data receive_server_auth_data switch_to_active receive_select_ok
    receive_auth_ok send_initial_auth
receive_data now bye p = (p, request_disconnect manual ∷ [])
receive_data now ping p = receive_ping now p
receive_data now pong p = (register_latency_reply now p, [])
receive_data now (hello id capabilities) p = elim p.state [
  | waiting_for_hello ↦ receive_hello now id p
  | _ ↦ abort p
]
receive_data now (select id capabilities) p = elim p.state [
  | waiting_for_select ↦ receive_select id p
  | _ ↦ abort p
]
receive_data now (auth method payload) p = elim p.state [
  | waiting_for_auth ↦ receive_auth method payload p
  | _ ↦ abort p
]
receive_data now (auth_data payload) p = elim p.state [
  | waiting_for_auth_data ↦ receive_client_auth_data payload p
  | waiting_for_auth_ack ↦ receive_server_auth_data payload p
  | _ ↦ abort p
]
receive_data now begin p = elim p.state [
  | waiting_for_begin ↦ switch_to_active now (register_latency_reply now p)
  | _ ↦ abort p
]
receive_data now ok p = elim p.state [
  | waiting_for_select_ack ↦ receive_select_ok now p
  | waiting_for_auth_ack ↦ receive_auth_ok p
  | _ ↦ abort p
]
receive_data now reject p = elim p.state [
  | waiting_for_auth_ack ↦ send_initial_auth p
  | _ ↦ abort p
]
receive_data now (node_summary version nodes) p = (p, emit_data (node_summary version nodes) ∷ [])
receive_data now (node_request nodes) p = (p, emit_data (node_request nodes) ∷ [])
receive_data now (node_details nodes) p = (p, emit_data (node_details nodes) ∷ [])
receive_data now (data_message m) p = (p, emit_data (data_message m) ∷ [])
receive_data now (data_ack id) p = (p, emit_data (data_ack id) ∷ [])
receive_data now (data_reject id) p = (p, emit_data (data_reject id) ∷ [])

-- `forceConnect`
unfoldable pub force_connect : ℕ → List ℕ → Peer → Acts
unfolding switch_to_active
force_connect now id p =
    switch_to_active now (record p { id = id; latency_values = p.latency_values ++ 0 ∷ [] })

unfoldable pub send_ping : ℕ → Peer → Acts
unfolding register_latency_send
send_ping now p = (register_latency_send now p, send ping ∷ [])

-- `checkFailure`; `detected` is the answer of the failure detector, and `pingMaxTime` is 90 s.
unfoldable pub check_failure : Bool → ℕ → Peer → Acts
check_failure detected now p =
    if detected || ltb (p.last_ping + 90000) now
    then (p, request_disconnect ping_timeout ∷ [])
    else (p, [])

-- What can happen to a peer once it negotiates: messages, the results of what it started, timers,
-- and the end of the connection. A failed send or flow, and a timeout of the negotiation, abort.
pub data Event : Type 0 where
  receives : PeerMessage → Event
  begin_sent : Event
  initial_message : Provider → List ℕ → Event
  server_flow_destroyed : Text → List ℕ → Event
  server_replies : ServerReply → Event
  client_replies : ClientReply → Event
  aborts ping_due : Event
  ping_check : Bool → Event
  disconnects : DisconnectReason → Event

unfoldable pub step : ℕ → Event → Peer → Acts
unfolding receive_data switch_to_active choose_server_flow handle_sending_auth_reply
    handle_client_reply abort_with send_ping check_failure handle_disconnect
step now (receives message) p = receive_data now message p
step now begin_sent p = switch_to_active now p
step now (initial_message provider payload) p = (p, send (auth provider.method payload) ∷ [])
step now (server_flow_destroyed method payload) p = choose_server_flow method payload p
step now (server_replies reply) p = handle_sending_auth_reply now reply p
step now (client_replies reply) p = handle_client_reply reply p
step now aborts p = abort p
step now ping_due p = send_ping now p
step now (ping_check detected) p = check_failure detected now p
step now (disconnects reason) p = handle_disconnect reason p

-- A history, each event with its time.
unfoldable pub run : List (ℕ × Event) → Acts → Acts
unfolding step
run [] a = a
run ((now, e) ∷ events) a = let b = step now e a.0 in run events (b.0, a.1 ++ b.1)
