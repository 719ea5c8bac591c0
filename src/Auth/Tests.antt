-- ===== src/Auth/Tests.antt =====
-- Handshakes over a plain item format, with a message code that only joins key and message.
use ataraxia.Base.{ℕ, ◌≡◌, ◌↔◌, refl, List, [], ◌∷◌, ◌++◌, some, none}
use ataraxia.Codec.Plain.{plain}
use ataraxia.Peer.Flows.{accept, decline, more}
use ataraxia.Auth.{
  Context, calculate_response, initial_message, client_receive_data, receive_initial,
  server_receive_data, anonymous_receive_initial,
}
use ataraxia.Auth.Handshake.{
  server_message, server_receive_data-accept_iff, handshake_accepts, handshake_crossed,
}

abbrev join : List ℕ → List ℕ → List ℕ
join key message = key ++ message

abbrev secret : List ℕ
secret = 5 ∷ 6 ∷ []

abbrev one_byte : List ℕ
one_byte = 1 ∷ []

abbrev two_bytes : List ℕ
two_bytes = 1 ∷ 0 ∷ []

abbrev open_context : Context
open_context = record { local_public_security = none; remote_public_security = none }

anonymous_test : anonymous_receive_initial [] ≡ accept
unfolding anonymous_receive_initial
anonymous_test = refl

anonymous_data_test : anonymous_receive_initial (1 ∷ []) ≡ decline
unfolding anonymous_receive_initial
anonymous_data_test = refl

server_receive_data-accept_iff_example :
    (server_receive_data plain join secret
        (2 ∷ [])
        open_context
        (plain.encode_bytes (5 ∷ 6 ∷ 2 ∷ []))
      ≡ some (accept, []))
    ↔ (5 ∷ 6 ∷ 2 ∷ [] ≡ calculate_response plain join secret (2 ∷ []) none)
server_receive_data-accept_iff_example =
    server_receive_data-accept_iff plain join secret (2 ∷ []) (5 ∷ 6 ∷ 2 ∷ []) open_context

-- Both name the client's security as local and the server's as remote.
abbrev agreed_context : Context
agreed_context = record {
  local_public_security = some (8 ∷ []);
  remote_public_security = some (9 ∷ []);
}

handshake_accepts_example :
    let first = initial_message plain join (1 ∷ []) in
    let answer = calculate_response plain join secret (1 ∷ []) (some (9 ∷ [])) in
    let second = server_message plain join (2 ∷ []) answer in
    let reply = calculate_response plain join secret (2 ∷ []) (some (8 ∷ [])) in
    let third = plain.encode_bytes reply in
    (receive_initial plain join secret (2 ∷ []) agreed_context first
      ≡ some (more (some second), []))
    × ((client_receive_data plain join secret (1 ∷ []) agreed_context second
          ≡ some (more third, []))
        ↔ (answer ≡ calculate_response plain join secret (1 ∷ []) (some (9 ∷ []))))
    × ((server_receive_data plain join secret (2 ∷ []) agreed_context third ≡ some (accept, []))
        ↔ (reply ≡ calculate_response plain join secret (2 ∷ []) (some (8 ∷ []))))
handshake_accepts_example =
    handshake_accepts plain join secret (1 ∷ []) (2 ∷ []) agreed_context agreed_context

handshake_crossed_example :
    let client : Context = record {
      local_public_security = some (8 ∷ []);
      remote_public_security = some (9 ∷ []);
    } in
    let server : Context = record {
      local_public_security = some (9 ∷ []);
      remote_public_security = some (8 ∷ []);
    } in
    let second = server_message plain join (2 ∷ []) (join secret ((1 ∷ []) ++ 8 ∷ [])) in
    (receive_initial plain join secret (2 ∷ []) server (initial_message plain join (1 ∷ []))
      ≡ some (more (some second), []))
    × (client_receive_data plain join secret (1 ∷ []) client second ≡ some (decline, []))
handshake_crossed_example =
    handshake_crossed plain join secret (1 ∷ []) (2 ∷ []) (8 ∷ []) (9 ∷ []) (λ e. cc)
