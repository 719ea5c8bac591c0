-- ===== src/Peer/Flows.antt =====
-- The authentication of a peer: the client's choice of a provider, the server's answers.
use ataraxia.Base.{ℕ, Option, none, some, List, [], ◌∷◌, Text, if◌then◌else◌, bytes_eq}
use ataraxia.Codec.{ok, reject, auth_data}
use ataraxia.Peer.State.{
  waiting_for_auth, waiting_for_auth_data, waiting_for_begin, auth_reject, Provider, Peer, send,
  ask_initial_message, ask_receive_initial, ask_client_data, ask_server_data, destroy_flow_for,
  Acts, then_do, abort_with, abort, queue_timeout, register_latency_send,
}

-- The loop of `pickNextAuthProvider`: the provider, and those that remain.
unfoldable pub pick : List Provider → Option Provider × List Provider
pick [] = (none, [])
pick (p ∷ providers) = let rest = pick providers in if p.client then (some p, providers) else rest

unfoldable pub pick_next_auth_provider : Peer → Option Provider × Peer
unfolding pick
pick_next_auth_provider p = elim p.remaining_auth_providers [
  | none ↦ (none, p)
  | some providers ↦
      let picked = pick providers in
      (picked.0, record p { remaining_auth_providers = some picked.1 })
]

unfoldable pub start_flow : Option Provider → Peer → Acts
start_flow none p = abort_with auth_reject p
start_flow (some provider) p =
    then_do (record p { auth_client_flow = some provider }, ask_initial_message provider ∷ [])
      queue_timeout

unfoldable pub send_initial_auth : Peer → Acts
unfolding pick_next_auth_provider start_flow
send_initial_auth p = let picked = pick_next_auth_provider p in start_flow picked.0 picked.1

abbrev pub find_provider : Text → List Provider → Option Provider
find_provider method [] = none
find_provider method (p ∷ providers) =
    if bytes_eq.beq p.method method then some p else find_provider method providers

-- The part of `receiveAuth` behind the release of an earlier flow.
unfoldable pub choose_server_flow : Text → List ℕ → Peer → Acts
choose_server_flow method payload p = elim (find_provider method p.auth_providers) [
  | none ↦ then_do (p, send reject ∷ []) queue_timeout
  | some provider ↦
      if provider.server
      then (
        record p { auth_server_flow = some provider },
        ask_receive_initial provider payload ∷ [],
      )
      else then_do (p, send reject ∷ []) queue_timeout
]

unfoldable pub receive_auth : Text → List ℕ → Peer → Acts
unfolding choose_server_flow
receive_auth method payload p =
    then_do
      (elim p.auth_server_flow [
        | none ↦ choose_server_flow method payload p
        | some flow ↦ (p, destroy_flow_for flow method payload ∷ [])
      ])
      queue_timeout

-- `AuthServerReply`; the data may be missing.
pub data ServerReply : Type 0 where
  accept decline : ServerReply
  more : Option (List ℕ) → ServerReply

pub data ClientReply : Type 0 where
  decline : ClientReply
  more : List ℕ → ClientReply

unfoldable pub handle_sending_auth_reply : ℕ → ServerReply → Peer → Acts
unfolding register_latency_send abort_with
handle_sending_auth_reply now accept p =
    (record (register_latency_send now p) { state = waiting_for_begin }, send ok ∷ [])
handle_sending_auth_reply now decline p = (record p { state = waiting_for_auth }, send reject ∷ [])
handle_sending_auth_reply now (more (some payload)) p =
    (record p { state = waiting_for_auth_data }, send (auth_data payload) ∷ [])
handle_sending_auth_reply now (more none) p =
    then_do (abort (record p { state = waiting_for_auth_data })) abort

unfoldable pub receive_client_auth_data : List ℕ → Peer → Acts
unfolding abort_with
receive_client_auth_data payload p =
    then_do
      (elim p.auth_server_flow [
        | none ↦ abort p
        | some flow ↦ (p, ask_server_data flow payload ∷ [])
      ])
      queue_timeout

unfoldable pub receive_server_auth_data : List ℕ → Peer → Acts
unfolding abort_with
receive_server_auth_data payload p =
    then_do
      (elim p.auth_client_flow [
        | none ↦ abort p
        | some flow ↦ (p, ask_client_data flow payload ∷ [])
      ])
      queue_timeout

-- What follows the reply of a client flow.
unfoldable pub handle_client_reply : ClientReply → Peer → Acts
unfolding send_initial_auth
handle_client_reply decline p = send_initial_auth p
handle_client_reply (more payload) p = (p, send (auth_data payload) ∷ [])
