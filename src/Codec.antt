-- ===== src/Codec.antt =====
-- packages/transport/src/binary and src/messages: peer messages and their binary form.
pub mod Reading
pub mod RoundTrip
pub mod Streams
pub mod Plain
mod Tests
use ataraxia.Base.{
  ℕ, zero, suc, Option, none, some, Bool, List, [], ◌∷◌, ◌++◌, ◌==◌, if◌then◌else◌, length, Text,
  any, true, false, Eq, bytes_eq, ◌≡◌,
}
use Reading.{Reader, ◌>>=◌, give}

pub record NodeRoutingSummary : Type 0 where
  pub id : List ℕ
  pub version : ℕ

pub record NodeWithLatency : Type 0 where
  pub id : List ℕ
  pub latency : ℕ

pub record NodeRoutingDetails : Type 0 where
  pub id : List ℕ
  pub version : ℕ
  pub neighbors : List NodeWithLatency

pub record DataMessagePathEntry : Type 0 where
  pub node : List ℕ
  pub id : ℕ

pub record DataMessage : Type 0 where
  pub path : List DataMessagePathEntry
  pub target : List ℕ
  pub type : Text
  pub payload : List ℕ

-- A message type with its data. A set of capabilities is the list of its members in the order of
-- their insertion.
pub data PeerMessage : Type 0 where
  ok reject bye ping pong begin : PeerMessage
  hello select : List ℕ → List Text → PeerMessage
  auth : Text → List ℕ → PeerMessage
  auth_data : List ℕ → PeerMessage
  node_summary : ℕ → List NodeRoutingSummary → PeerMessage
  node_request : List (List ℕ) → PeerMessage
  node_details : List NodeRoutingDetails → PeerMessage
  data_message : DataMessage → PeerMessage
  data_ack data_reject : ℕ → PeerMessage

-- What is used of @stablelib/cbor: items are written one after the other, and an item that was
-- written is read back, whatever follows it. A reader fails where the library throws, and on an
-- item of another type than the field that is read.
pub record Cbor : Type 0 where
  pub encode_integer : ℕ → List ℕ
  pub encode_bytes : List ℕ → List ℕ
  pub encode_string : Text → List ℕ
  pub decode_integer : List ℕ → Option (ℕ × List ℕ)
  pub decode_bytes : List ℕ → Option (List ℕ × List ℕ)
  pub decode_string : List ℕ → Option (Text × List ℕ)
  pub integer_law :
      (n : ℕ) (rest : List ℕ) → decode_integer (encode_integer n ++ rest) ≡ some (n, rest)
  pub bytes_law : (bs rest : List ℕ) → decode_bytes (encode_bytes bs ++ rest) ≡ some (bs, rest)
  pub string_law :
      (s : Text) (rest : List ℕ) → decode_string (encode_string s ++ rest) ≡ some (s, rest)

-- `new Set(items)`: a later copy of an item is dropped.
pub add_all : List Text → List Text → List Text
add_all set [] = set
add_all set (s ∷ items) =
    add_all (if any (λ t. bytes_eq.beq t s) set then set else set ++ s ∷ []) items

-- tags.ts
abbrev pub tag_ping : ℕ
tag_ping = 0

abbrev pub tag_pong : ℕ
tag_pong = 1

abbrev pub tag_data : ℕ
tag_data = 2

abbrev pub tag_data_ack : ℕ
tag_data_ack = 3

abbrev pub tag_data_reject : ℕ
tag_data_reject = 4

abbrev pub tag_ok : ℕ
tag_ok = 10

abbrev pub tag_reject : ℕ
tag_reject = 11

abbrev pub tag_hello : ℕ
tag_hello = 12

abbrev pub tag_select : ℕ
tag_select = 13

abbrev pub tag_auth : ℕ
tag_auth = 14

abbrev pub tag_auth_data : ℕ
tag_auth_data = 15

abbrev pub tag_begin : ℕ
tag_begin = 16

abbrev pub tag_bye : ℕ
tag_bye = 17

abbrev pub tag_node_summary : ℕ
tag_node_summary = 18

abbrev pub tag_node_request : ℕ
tag_node_request = 19

abbrev pub tag_node_details : ℕ
tag_node_details = 20

-- `null` is the result for an unknown tag.
pub data Decoded : Type 0 where
  thrown null : Decoded
  message : PeerMessage → Decoded

-- The body of a loop that encodes the items of an array.
pub encode_all {ℓ} : {A : Type ℓ} → (A → List ℕ) → List A → List ℕ
encode_all f [] = []
encode_all f (a ∷ items) = f a ++ encode_all f items

module _ (c : Cbor) where
  open c use {
    encode_integer, encode_bytes, encode_string, decode_integer, decode_bytes, decode_string,
  }

  pub encode_array {ℓ} : {A : Type ℓ} → (A → List ℕ) → List A → List ℕ
  unfolding encode_all
  encode_array f items = encode_integer (length items) ++ encode_all f items

  pub encode_summary : NodeRoutingSummary → List ℕ
  encode_summary s = encode_bytes s.id ++ encode_integer s.version

  pub encode_neighbor : NodeWithLatency → List ℕ
  encode_neighbor n = encode_bytes n.id ++ encode_integer n.latency

  pub encode_details : NodeRoutingDetails → List ℕ
  encode_details n =
      encode_bytes n.id ++ (encode_integer n.version ++ encode_array encode_neighbor n.neighbors)

  pub encode_entry : DataMessagePathEntry → List ℕ
  encode_entry e = encode_bytes e.node ++ encode_integer e.id

  unfoldable pub encode_binary_peer_message : PeerMessage → List ℕ
  unfolding encode_array encode_summary encode_neighbor encode_details encode_entry
  encode_binary_peer_message ping = encode_integer tag_ping
  encode_binary_peer_message pong = encode_integer tag_pong
  encode_binary_peer_message ok = encode_integer tag_ok
  encode_binary_peer_message reject = encode_integer tag_reject
  encode_binary_peer_message (hello id capabilities) =
      encode_integer tag_hello ++ (encode_bytes id ++ encode_array encode_string capabilities)
  encode_binary_peer_message (select id capabilities) =
      encode_integer tag_select ++ (encode_bytes id ++ encode_array encode_string capabilities)
  encode_binary_peer_message (auth method payload) =
      encode_integer tag_auth ++ (encode_string method ++ encode_bytes payload)
  encode_binary_peer_message (auth_data payload) =
      encode_integer tag_auth_data ++ encode_bytes payload
  encode_binary_peer_message begin = encode_integer tag_begin
  encode_binary_peer_message bye = encode_integer tag_bye
  encode_binary_peer_message (node_summary own_version nodes) =
      encode_integer tag_node_summary
      ++ (encode_integer own_version ++ encode_array encode_summary nodes)
  encode_binary_peer_message (node_request nodes) =
      encode_integer tag_node_request ++ encode_array encode_bytes nodes
  encode_binary_peer_message (node_details nodes) =
      encode_integer tag_node_details ++ encode_array encode_details nodes
  encode_binary_peer_message (data_message m) =
      encode_integer tag_data
      ++ (encode_bytes m.target
          ++ (encode_string m.type ++ (encode_bytes m.payload ++ encode_array encode_entry m.path)))
  encode_binary_peer_message (data_ack id) = encode_integer tag_data_ack ++ encode_integer id
  encode_binary_peer_message (data_reject id) = encode_integer tag_data_reject ++ encode_integer id

  -- `decodeArray`: the loop of `n` rounds, and the whole.
  pub decode_items {ℓ} : {A : Type ℓ} → Reader A → ℕ → Reader (List A)
  decode_items item zero = give []
  decode_items item (suc n) =
      let rest = decode_items item n in item >>= λ a. rest >>= λ items. give (a ∷ items)

  pub decode_array {ℓ} : {A : Type ℓ} → Reader A → Reader (List A)
  unfolding decode_items
  decode_array item = decode_integer >>= λ n. decode_items item n

  pub decode_summary : Reader NodeRoutingSummary
  decode_summary = do
    id ← decode_bytes
    version ← decode_integer
    give (record { id = id; version = version })

  pub decode_neighbor : Reader NodeWithLatency
  decode_neighbor = do
    id ← decode_bytes
    latency ← decode_integer
    give (record { id = id; latency = latency })

  pub decode_details : Reader NodeRoutingDetails
  decode_details = do
    id ← decode_bytes
    version ← decode_integer
    neighbors ← decode_array decode_neighbor
    give (record { id = id; version = version; neighbors = neighbors })

  pub decode_entry : Reader DataMessagePathEntry
  decode_entry = do node ← decode_bytes; id ← decode_integer; give (record { node = node; id = id })

  pub decode_data : Reader DataMessage
  decode_data = do
    target ← decode_bytes
    type ← decode_string
    payload ← decode_bytes
    path ← decode_array decode_entry
    give (record { path = path; target = target; type = type; payload = payload })

  -- `{ id, capabilities: new Set(...) }`
  pub decode_capabilities : (List ℕ → List Text → PeerMessage) → Reader PeerMessage
  unfolding add_all
  decode_capabilities make = do
    id ← decode_bytes
    items ← decode_array decode_string
    give (make id (add_all [] items))

  -- The cases of the switch over the tag, `none` for its default.
  pub decode_body : ℕ → Option (Reader PeerMessage)
  decode_body tag =
      if tag == tag_ping
      then some (give ping)
      else if tag == tag_pong
      then some (give pong)
      else if tag == tag_ok
      then some (give ok)
      else if tag == tag_reject
      then some (give reject)
      else if tag == tag_hello
      then some (decode_capabilities hello)
      else if tag == tag_select
      then some (decode_capabilities select)
      else if tag == tag_auth
      then some (decode_string >>= λ method. decode_bytes >>= λ payload. give (auth method payload))
      else if tag == tag_auth_data
      then some (decode_bytes >>= λ payload. give (auth_data payload))
      else if tag == tag_begin
      then some (give begin)
      else if tag == tag_bye
      then some (give bye)
      else if tag == tag_node_summary
      then some (
          decode_integer >>= λ own_version.
          decode_array decode_summary >>= λ nodes. give (node_summary own_version nodes))
      else if tag == tag_node_request
      then some (decode_array decode_bytes >>= λ nodes. give (node_request nodes))
      else if tag == tag_node_details
      then some (decode_array decode_details >>= λ nodes. give (node_details nodes))
      else if tag == tag_data
      then some (decode_data >>= λ m. give (data_message m))
      else if tag == tag_data_ack
      then some (decode_integer >>= λ id. give (data_ack id))
      else if tag == tag_data_reject
      then some (decode_integer >>= λ id. give (data_reject id))
      else none

  -- What is left behind the message is ignored.
  finish : Option (PeerMessage × List ℕ) → Decoded
  finish none = thrown
  finish (some (m, rest)) = message m

  unfoldable pub decode_binary_peer_message : List ℕ → Decoded
  unfolding decode_body finish
  decode_binary_peer_message bytes = elim (decode_integer bytes) [
    | none ↦ thrown
    | some (tag, rest) ↦ elim (decode_body tag) [ none ↦ null | some body ↦ finish (body rest) ]
  ]
