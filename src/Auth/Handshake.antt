-- ===== src/Auth/Handshake.antt =====
-- The comparison of buffers, and the handshake of a client and a server that share the secret.
use ataraxia.Base.{
  ℕ, zero, suc, ◌≡◌, ◌≢◌, ◌↔◌, max, refl, ap, ap₂, subst, ◌∙◌, Option, some, Bool, true, false, not,
  List, [], ◌∷◌, ◌++◌, ◌&&◌, if◌then◌else◌, length, nat_eq, bytes_eq, arith, append-nil, Bool-cases,
  inl, inr,
}
use ataraxia.Codec.{Cbor}
use ataraxia.Peer.Flows.{accept, decline, more}
use ataraxia.Auth.{
  byte_at, same_byte, compare_from, is_equal, Context, calculate_response, initial_message,
  client_receive_data, receive_initial, server_receive_data,
}

compare_from-false : (n i : ℕ) (xs ys : List ℕ) → compare_from n i xs ys false ≡ false
unfolding compare_from
compare_from-false zero i xs ys = refl
compare_from-false (suc n) i xs ys = ground (arith, compare_from-false n (suc i) xs ys)

-- The comparison past the first byte of both.
compare_from-suc :
    (n i a b : ℕ) (xs ys : List ℕ) (result : Bool)
    → compare_from n (suc i) (a ∷ xs) (b ∷ ys) result ≡ compare_from n i xs ys result
unfolding compare_from
compare_from-suc zero i a b xs ys result = refl
compare_from-suc (suc n) i a b xs ys result =
    compare_from-suc n (suc i) a b xs ys
      (if not (same_byte (byte_at xs i) (byte_at ys i)) && result then false else result)

is_equal-cons :
    (a b : ℕ) (xs ys : List ℕ)
    → is_equal (a ∷ xs) (b ∷ ys) ≡ (if nat_eq.beq a b then is_equal xs ys else false)
unfolding is_equal compare_from
is_equal-cons a b xs ys =
    let turns : max (suc (length xs)) (suc (length ys)) ≡ suc (max (length xs) (length ys)) =
      omega arith in
    let one : nat_eq.beq (suc (length xs)) (suc (length ys)) ≡ nat_eq.beq (length xs) (length ys) =
      ground arith in
    let n = max (length xs) (length ys) in
    let r = nat_eq.beq (length xs) (length ys) in
    ap (λ m. compare_from m 0 (a ∷ xs) (b ∷ ys) (nat_eq.beq (suc (length xs)) (suc (length ys))))
      turns
    ∙ (ap (compare_from (suc n) 0 (a ∷ xs) (b ∷ ys)) one
        ∙ (compare_from-suc n 0 a b xs ys (if not (nat_eq.beq a b) && r then false else r)
            ∙ ground (arith, compare_from-false n 0 xs ys)))

-- The comparison of two buffers, which always looks at all bytes, tells whether they are equal.
pub is_equal-eq_iff : (xs ys : List ℕ) → (is_equal xs ys ≡ true) ↔ (xs ≡ ys)
unfolding is_equal
is_equal-eq_iff [] [] = (λ h. refl, λ h. refl)
is_equal-eq_iff [] (b ∷ ys) =
    (λ h. ground (arith, h, compare_from-false (max 0 (suc (length ys))) 0 [] (b ∷ ys)), λ h. cc)
is_equal-eq_iff (a ∷ xs) [] =
    (λ h. ground (arith, h, compare_from-false (max (suc (length xs)) 0) 0 (a ∷ xs) []), λ h. cc)
is_equal-eq_iff (a ∷ xs) (b ∷ ys) =
    let e = is_equal-cons a b xs ys in
    let rest = is_equal-eq_iff xs ys in
    elim (Bool-cases (nat_eq.beq a b)) [
      | inl same ↦ (
        λ h. ap₂ ◌∷◌ ((nat_eq.beq_iff a b).0 same) (rest.0 (ground (arith, h, e, same))),
        λ h. ground (arith, e, same, rest, h),
      )
      | inr other ↦ (λ h. ground (arith, h, e, other), λ h. ground (arith, h, other))
    ]

not_equal : (xs ys : List ℕ) → xs ≢ ys → is_equal xs ys ≡ false
not_equal xs ys d = elim (Bool-cases (is_equal xs ys)) [
  | inl e ↦ absurd (d ((is_equal-eq_iff xs ys).0 e))
  | inr e ↦ e
]

module _ (cbor : Cbor) (hmac : List ℕ → List ℕ → List ℕ) where
  abbrev response : List ℕ → List ℕ → Option (List ℕ) → List ℕ
  response = calculate_response cbor hmac

  -- What a server answers to the initial message of a client.
  abbrev pub server_message : List ℕ → List ℕ → List ℕ
  server_message challenge answer =
      cbor.encode_integer 1 ++ (cbor.encode_bytes challenge ++ cbor.encode_bytes answer)

  last_bytes : (bs : List ℕ) → cbor.decode_bytes (cbor.encode_bytes bs) ≡ some (bs, [])
  last_bytes bs =
      subst (λ x. cbor.decode_bytes x ≡ some (bs, [])) (append-nil (cbor.encode_bytes bs))
        (cbor.bytes_law bs [])

  initial_answered :
      (secret client_challenge server_challenge : List ℕ) (context : Context)
      → receive_initial cbor hmac secret server_challenge context
          (initial_message cbor hmac client_challenge)
        ≡ some (
          more (
              some (
                server_message server_challenge
                  (response secret client_challenge context.remote_public_security))),
          [],
        )
  unfolding receive_initial initial_message
  initial_answered secret client_challenge server_challenge context =
      ground (
        arith,
        cbor.integer_law 1 (cbor.encode_bytes client_challenge),
        last_bytes client_challenge,
      )

  -- What a client answers to the message of a server.
  client_answered :
      (secret challenge server_challenge answer : List ℕ) (context : Context)
      → client_receive_data cbor hmac secret challenge context
          (server_message server_challenge answer)
        ≡ some (
          (if is_equal answer (response secret challenge context.remote_public_security)
              then more (
                  cbor.encode_bytes
                    (response secret server_challenge context.local_public_security))
              else decline),
          [],
        )
  unfolding client_receive_data
  client_answered secret challenge server_challenge answer context = ground (
    arith,
    cbor.integer_law 1 (cbor.encode_bytes server_challenge ++ cbor.encode_bytes answer),
    cbor.bytes_law server_challenge (cbor.encode_bytes answer),
    last_bytes answer,
  )

  -- A server that gets a response, with nothing behind it, accepts the client exactly if it is the
  -- response to its own challenge by its own secret and security.
  pub server_receive_data-accept_iff :
      (secret challenge answer : List ℕ) (context : Context)
      → (server_receive_data cbor hmac secret challenge context (cbor.encode_bytes answer)
          ≡ some (accept, []))
        ↔ (answer ≡ response secret challenge context.local_public_security)
  unfolding server_receive_data
  server_receive_data-accept_iff secret challenge answer context =
      let e = is_equal-eq_iff answer (response secret challenge context.local_public_security) in
      let l = last_bytes answer in (λ h. ground (arith, h, e, l), λ h. ground (arith, h, e, l))

  -- A client and a server that have the same secret. The server answers the first message of the
  -- client. The client goes on, with its response to the server's challenge, exactly if the responses
  -- to its own challenge are the same for its remote public security and for that of the server; and
  -- the server accepts that response exactly if the responses to the server's challenge are the same
  -- for the local public security of the client and for that of the server.
  pub handshake_accepts :
      (secret client_challenge server_challenge : List ℕ) (client server : Context)
      → let first = initial_message cbor hmac client_challenge in
        let answer = response secret client_challenge server.remote_public_security in
        let second = server_message server_challenge answer in
        let reply = response secret server_challenge client.local_public_security in
        let third = cbor.encode_bytes reply in
        (receive_initial cbor hmac secret server_challenge server first
          ≡ some (more (some second), []))
        × ((client_receive_data cbor hmac secret client_challenge client second
              ≡ some (more third, []))
            ↔ (answer ≡ response secret client_challenge client.remote_public_security))
        × ((server_receive_data cbor hmac secret server_challenge server third ≡ some (accept, []))
            ↔ (reply ≡ response secret server_challenge server.local_public_security))
  handshake_accepts secret client_challenge server_challenge client server =
      let expected = response secret client_challenge client.remote_public_security in
      let given = response secret client_challenge server.remote_public_security in
      let reply = response secret server_challenge client.local_public_security in
      let e = is_equal-eq_iff given expected in
      let answered = client_answered secret client_challenge server_challenge given client in
      (
        initial_answered secret client_challenge server_challenge server,
        (λ h. ground (arith, h, e, answered), λ h. ground (arith, h, e, answered)),
        server_receive_data-accept_iff secret server_challenge reply server,
      )

  -- At the two ends of one connection, where the local security of the one is the remote security of
  -- the other, and the responses for the two differ: the server mixes that of the client into its
  -- answer while the client expects its own remote one, so that the client turns the server down,
  -- although both have the same secret.
  pub handshake_crossed :
      (secret client_challenge server_challenge of_client of_server : List ℕ)
      → hmac secret (client_challenge ++ of_client) ≢ hmac secret (client_challenge ++ of_server)
      → let client : Context = record {
        local_public_security = some of_client;
        remote_public_security = some of_server;
      } in
        let server : Context = record {
          local_public_security = some of_server;
          remote_public_security = some of_client;
        } in
        let second =
          server_message server_challenge (hmac secret (client_challenge ++ of_client)) in
        (receive_initial cbor hmac secret server_challenge server
            (initial_message cbor hmac client_challenge)
          ≡ some (more (some second), []))
        × (client_receive_data cbor hmac secret client_challenge client second ≡ some (decline, []))
  unfolding calculate_response
  handshake_crossed secret client_challenge server_challenge of_client of_server d =
      let client : Context = record {
        local_public_security = some of_client;
        remote_public_security = some of_server;
      } in
      let server : Context = record {
        local_public_security = some of_server;
        remote_public_security = some of_client;
      } in
      let third = cbor.encode_bytes (response secret server_challenge (some of_client)) in
      (
        initial_answered secret client_challenge server_challenge server,
        client_answered secret client_challenge server_challenge
              (hmac secret (client_challenge ++ of_client)) client
            ∙ ap (λ b. some (if b then more third else decline, []))
                (not_equal (hmac secret (client_challenge ++ of_client))
                  (hmac secret (client_challenge ++ of_server)) d),
      )
