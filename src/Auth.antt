-- ===== src/Auth.antt =====
-- packages/transport/src/auth: authentication by a shared secret, and none at all.
pub mod Handshake
mod Tests
use ataraxia.Base.{
  ℕ, zero, suc, ◌+◌, max, Option, none, some, Bool, true, false, not, List, [], ◌∷◌, ◌++◌, ◌&&◌,
  if◌then◌else◌, length, nat_eq, is_empty,
}
use ataraxia.Codec.{Cbor}
use ataraxia.Codec.Reading.{Reader, ◌>>=◌, give}
use ataraxia.Peer.Flows.{ServerReply, accept, decline, more, ClientReply}

-- `bytes[i]`; `none` for `undefined`
abbrev pub byte_at : List ℕ → ℕ → Option ℕ
byte_at [] i = none
byte_at (b ∷ bs) zero = some b
byte_at (b ∷ bs) (suc i) = byte_at bs i

-- `===` of bytes
abbrev pub same_byte : Option ℕ → Option ℕ → Bool
same_byte none none = true
same_byte none (some b) = false
same_byte (some a) none = false
same_byte (some a) (some b) = nat_eq.beq a b

-- The loop of `isEqual`, with the number of turns that are left.
unfoldable pub compare_from : ℕ → ℕ → List ℕ → List ℕ → Bool → Bool
compare_from zero i o1 o2 result = result
compare_from (suc n) i o1 o2 result =
    let differs = not (same_byte (byte_at o1 i) (byte_at o2 i)) && result in
    compare_from n (suc i) o1 o2 (if differs then false else result)

unfoldable pub is_equal : List ℕ → List ℕ → Bool
unfolding compare_from
is_equal o1 o2 =
    compare_from (max (length o1) (length o2)) 0 o1 o2 (nat_eq.beq (length o1) (length o2))

-- `AuthContext`
pub record Context : Type 0 where
  pub local_public_security : Option (List ℕ)
  pub remote_public_security : Option (List ℕ)

-- The library fast-sha256 gives `hmac`, of a key and a message.
module _ (cbor : Cbor) (hmac : List ℕ → List ℕ → List ℕ) where
  unfoldable pub calculate_response : List ℕ → List ℕ → Option (List ℕ) → List ℕ
  calculate_response key challenge none = hmac key challenge
  calculate_response key challenge (some security) = hmac key (challenge ++ security)

  -- The flows read what they get, and may throw, also on an item that is not of the type that is
  -- read; what follows the items is ignored. `challenge` is the flow's random challenge.
  unfoldable pub initial_message : List ℕ → List ℕ
  initial_message challenge = cbor.encode_integer 1 ++ cbor.encode_bytes challenge

  unfoldable pub client_receive_data : List ℕ → List ℕ → Context → Reader ClientReply
  unfolding is_equal calculate_response
  client_receive_data secret challenge context = do
    version ← cbor.decode_integer
    if nat_eq.beq version 1
        then (do
          server_challenge ← cbor.decode_bytes
          server_response ← cbor.decode_bytes
          let calculated = calculate_response secret challenge context.remote_public_security
          let response = calculate_response secret server_challenge context.local_public_security
          give (
              if is_equal server_response calculated
              then more (cbor.encode_bytes response)
              else decline))
        else (λ bytes. none)

  unfoldable pub receive_initial : List ℕ → List ℕ → Context → Reader ServerReply
  unfolding calculate_response
  receive_initial secret challenge context = do
    version ← cbor.decode_integer
    if nat_eq.beq version 1
        then (do
          client_challenge ← cbor.decode_bytes
          let response = calculate_response secret client_challenge context.remote_public_security
          give (
              more (
                some (
                  cbor.encode_integer 1
                  ++ (cbor.encode_bytes challenge ++ cbor.encode_bytes response)))))
        else give decline

  unfoldable pub server_receive_data : List ℕ → List ℕ → Context → Reader ServerReply
  unfolding is_equal calculate_response
  server_receive_data secret challenge context = do
    client_response ← cbor.decode_bytes
    let calculated = calculate_response secret challenge context.local_public_security
    give (if is_equal client_response calculated then accept else decline)

-- The server's flow of AnonymousAuth.
unfoldable pub anonymous_receive_initial : List ℕ → ServerReply
anonymous_receive_initial bytes = if nat_eq.beq (length bytes) 0 then accept else decline
