-- ===== src/Codec/RoundTrip.antt =====
-- What decoding makes of an encoded message.
use ataraxia.Base.{
  ℕ, ◌≡◌, refl, sym, ap, ◌∙◌, Option, some, List, [], ◌∷◌, ◌++◌, Text, length, append_assoc,
  append-nil, arith, Bool, false, any, bytes_eq,
}
use ataraxia.Codec.Reading.{Reader, ◌>>=◌, give, bind_some}
use ataraxia.Codec.{
  Cbor, DataMessage, PeerMessage, ok, reject, bye, ping, pong, begin, hello, select, auth,
  auth_data, node_summary, node_request, node_details, data_message, data_ack, data_reject, message,
  add_all, encode_all, encode_array, encode_summary, encode_neighbor, encode_details, encode_entry,
  encode_binary_peer_message, decode_items, decode_array, decode_summary, decode_neighbor,
  decode_details, decode_entry, decode_data, decode_capabilities, decode_body,
  decode_binary_peer_message, tag_ping, tag_pong, tag_data, tag_data_ack, tag_data_reject, tag_ok,
  tag_reject, tag_hello, tag_select, tag_auth, tag_auth_data, tag_begin, tag_bye, tag_node_summary,
  tag_node_request, tag_node_details,
}

-- A reader reads what a writer wrote, and leaves what follows.
abbrev Reads {ℓ} : {A : Type ℓ} → (A → List ℕ) → Reader A → Type ℓ
Reads write read = (a : _) (rest : List ℕ) → read (write a ++ rest) ≡ some (a, rest)

-- Reading one field, with others behind it and as the last one.
field_then {ℓ κ} :
    {A : Type ℓ} {B : Type κ} (read : Reader A) (k : A → Reader B) (written others rest : List ℕ)
    (a : A) {out : Option (B × List ℕ)}
    → read (written ++ (others ++ rest)) ≡ some (a, others ++ rest)
    → k a (others ++ rest) ≡ out
    → (read >>= k) ((written ++ others) ++ rest) ≡ out
field_then read k written others rest a p q =
    bind_some read k _ (others ++ rest) a (ap read (append_assoc written others rest) ∙ p) q

abbrev holds : Text → List Text → Bool
holds s = any (λ t. bytes_eq.beq t s)

-- No member stands twice.
abbrev pub IsDistinct : List Text → Type 0
IsDistinct [] = Unit
IsDistinct (s ∷ items) = (holds s items ≡ false) × IsDistinct items

abbrev Apart : List Text → List Text → Type 0
Apart set [] = Unit
Apart set (s ∷ items) = (holds s set ≡ false) × Apart set items

Apart-snoc :
    (set items : List Text) (s : Text)
    → Apart set items
    → holds s items ≡ false
    → Apart (set ++ s ∷ []) items
Apart-snoc set [] s h k = tt
Apart-snoc set (t ∷ items) s h k = (
  snoc_apart set h.0 (ground (arith, bytes_eq.beq_iff t s, bytes_eq.beq_iff s t)),
  Apart-snoc set items s h.1 (ground arith),
)
  where
    snoc_apart :
        (set : List Text)
        → holds t set ≡ false
        → bytes_eq.beq s t ≡ false
        → holds t (set ++ s ∷ []) ≡ false
    snoc_apart [] h k = ground arith
    snoc_apart (u ∷ set) h k = ground (arith, snoc_apart set)

-- A set is copied as it is.
add_all_distinct :
    (set items : List Text) → Apart set items → IsDistinct items → add_all set items ≡ set ++ items
unfolding add_all
add_all_distinct set [] h k = sym (append-nil set)
add_all_distinct set (s ∷ items) h k = rw h.0 (
    add_all_distinct (set ++ s ∷ []) items (Apart-snoc set items s h.1 k.0) k.1
    ∙ append_assoc set (s ∷ []) items)

Apart-nil : (items : List Text) → Apart [] items
Apart-nil [] = tt
Apart-nil (s ∷ items) = (refl, Apart-nil items)

set_lem : (items : List Text) → IsDistinct items → add_all [] items ≡ items
set_lem items h = add_all_distinct [] items (Apart-nil items) h

-- The capabilities of a message are a set.
abbrev pub HasSets : PeerMessage → Type 0
HasSets (hello id capabilities) = IsDistinct capabilities
HasSets (select id capabilities) = IsDistinct capabilities
HasSets _ = Unit

module _ (c : Cbor) where
  open c use {
    encode_integer, encode_bytes, encode_string, decode_integer, decode_bytes, decode_string,
    integer_law, bytes_law, string_law,
  }

  items_Reads {ℓ} :
      {A : Type ℓ} (write : A → List ℕ) (read : Reader A)
      → Reads write read
      → (items : List A) (rest : List ℕ)
      → decode_items c read (length items) (encode_all write items ++ rest) ≡ some (items, rest)
  unfolding decode_items encode_all
  items_Reads write read h [] rest = refl
  items_Reads write read h (a ∷ items) rest =
      field_then read _ (write a) (encode_all write items) rest a (h a _) (
        bind_some (decode_items c read (length items)) _ _ rest items
          (items_Reads write read h items rest) refl)

  array_Reads {ℓ} :
      {A : Type ℓ} (write : A → List ℕ) (read : Reader A)
      → Reads write read
      → Reads (encode_array c write) (decode_array c read)
  unfolding decode_array encode_array
  array_Reads write read h items rest =
      field_then decode_integer _ (encode_integer (length items)) (encode_all write items) rest
        (length items) (integer_law _ _) (items_Reads write read h items rest)

  -- The item's own fields.
  bytes_and_integer {ℓ} :
      {B : Type ℓ} (make : List ℕ → ℕ → B) (id : List ℕ) (n : ℕ) (rest : List ℕ)
      → (decode_bytes >>= λ id. decode_integer >>= λ n. give (make id n))
          ((encode_bytes id ++ encode_integer n) ++ rest)
        ≡ some (make id n, rest)
  bytes_and_integer make id n rest =
      field_then decode_bytes _ (encode_bytes id) (encode_integer n) rest id (bytes_law _ _)
        (bind_some decode_integer _ _ rest n (integer_law n rest) refl)

  summary_Reads : Reads (encode_summary c) (decode_summary c)
  unfolding encode_summary decode_summary
  summary_Reads s rest =
      bytes_and_integer (λ id n. record { id = id; version = n }) s.id s.version rest

  neighbor_Reads : Reads (encode_neighbor c) (decode_neighbor c)
  unfolding encode_neighbor decode_neighbor
  neighbor_Reads n rest =
      bytes_and_integer (λ id n. record { id = id; latency = n }) n.id n.latency rest

  entry_Reads : Reads (encode_entry c) (decode_entry c)
  unfolding encode_entry decode_entry
  entry_Reads e rest = bytes_and_integer (λ id n. record { node = id; id = n }) e.node e.id rest

  details_Reads : Reads (encode_details c) (decode_details c)
  unfolding encode_details decode_details
  details_Reads n rest = field_then decode_bytes _ (encode_bytes n.id) _ rest n.id (bytes_law _ _) (
      field_then decode_integer _ (encode_integer n.version) _ rest n.version (integer_law _ _) (
        bind_some (decode_array c (decode_neighbor c)) _ _ rest n.neighbors
          (array_Reads (encode_neighbor c) (decode_neighbor c) neighbor_Reads n.neighbors rest)
          refl))

  data_Reads :
      (m : DataMessage) (rest : List ℕ)
      → decode_data c (
          (encode_bytes m.target
            ++ (encode_string m.type
                ++ (encode_bytes m.payload ++ encode_array c (encode_entry c) m.path)))
          ++ rest)
        ≡ some (m, rest)
  unfolding decode_data
  data_Reads m rest =
      field_then decode_bytes _ (encode_bytes m.target) _ rest m.target (bytes_law _ _) (
        field_then decode_string _ (encode_string m.type) _ rest m.type (string_law _ _) (
          field_then decode_bytes _ (encode_bytes m.payload) _ rest m.payload (bytes_law _ _) (
            bind_some (decode_array c (decode_entry c)) _ _ rest m.path
              (array_Reads (encode_entry c) (decode_entry c) entry_Reads m.path rest) refl)))

  capabilities_Reads :
      (make : List ℕ → List Text → PeerMessage) (id : List ℕ) (items : List Text) (rest : List ℕ)
      → decode_capabilities c make ((encode_bytes id ++ encode_array c encode_string items) ++ rest)
        ≡ some (make id (add_all [] items), rest)
  unfolding decode_capabilities
  capabilities_Reads make id items rest =
      field_then decode_bytes _ (encode_bytes id) _ rest id (bytes_law _ _) (
        bind_some (decode_array c decode_string) _ _ rest items
          (array_Reads encode_string decode_string string_law items rest) refl)

  -- The tag comes first, and selects the body.
  tag_then :
      (tag : ℕ) (body rest : List ℕ) (read : Reader PeerMessage) (m : PeerMessage)
      → decode_body c tag ≡ some read
      → read (body ++ rest) ≡ some (m, rest)
      → decode_binary_peer_message c ((encode_integer tag ++ body) ++ rest) ≡ message m
  unfolding decode_binary_peer_message
  tag_then tag body rest read m p q =
      rw (append_assoc (encode_integer tag) body rest)
        (rw (integer_law tag (body ++ rest), decode_binary_peer_message) (rw p (rw q)))

  -- A message of a tag alone.
  tag_only :
      (tag : ℕ) (rest : List ℕ) (m : PeerMessage)
      → decode_body c tag ≡ some (give m)
      → decode_binary_peer_message c (encode_integer tag ++ rest) ≡ message m
  unfolding decode_binary_peer_message
  tag_only tag rest m p = rw (integer_law tag rest, decode_binary_peer_message) (rw p)

  -- An encoded message is decoded as itself, whatever bytes follow it.
  pub decode-encode :
      (m : PeerMessage) (rest : List ℕ)
      → HasSets m
      → decode_binary_peer_message c (encode_binary_peer_message c m ++ rest) ≡ message m
  unfolding encode_binary_peer_message decode_body
  decode-encode ok rest h = tag_only tag_ok rest ok refl
  decode-encode reject rest h = tag_only tag_reject rest reject refl
  decode-encode bye rest h = tag_only tag_bye rest bye refl
  decode-encode ping rest h = tag_only tag_ping rest ping refl
  decode-encode pong rest h = tag_only tag_pong rest pong refl
  decode-encode begin rest h = tag_only tag_begin rest begin refl
  decode-encode (hello id items) rest h =
      tag_then tag_hello _ rest (decode_capabilities c hello) (hello id items) refl (
        capabilities_Reads hello id items rest
        ∙ ap (λ l. some (hello id l, rest)) (set_lem items h))
  decode-encode (select id items) rest h =
      tag_then tag_select _ rest (decode_capabilities c select) (select id items) refl (
        capabilities_Reads select id items rest
        ∙ ap (λ l. some (select id l, rest)) (set_lem items h))
  decode-encode (auth method payload) rest h =
      tag_then tag_auth _ rest _ (auth method payload) refl (
        field_then decode_string _ (encode_string method) _ rest method (string_law _ _)
          (bind_some decode_bytes _ _ rest payload (bytes_law payload rest) refl))
  decode-encode (auth_data payload) rest h =
      tag_then tag_auth_data _ rest _ (auth_data payload) refl
        (bind_some decode_bytes _ _ rest payload (bytes_law payload rest) refl)
  decode-encode (node_summary version nodes) rest h =
      tag_then tag_node_summary _ rest _ (node_summary version nodes) refl (
        field_then decode_integer _ (encode_integer version) _ rest version (integer_law _ _) (
          bind_some (decode_array c (decode_summary c)) _ _ rest nodes
            (array_Reads (encode_summary c) (decode_summary c) summary_Reads nodes rest) refl))
  decode-encode (node_request nodes) rest h =
      tag_then tag_node_request _ rest _ (node_request nodes) refl (
        bind_some (decode_array c decode_bytes) _ _ rest nodes
          (array_Reads encode_bytes decode_bytes bytes_law nodes rest) refl)
  decode-encode (node_details nodes) rest h =
      tag_then tag_node_details _ rest _ (node_details nodes) refl (
        bind_some (decode_array c (decode_details c)) _ _ rest nodes
          (array_Reads (encode_details c) (decode_details c) details_Reads nodes rest) refl)
  decode-encode (data_message m) rest h =
      tag_then tag_data _ rest _ (data_message m) refl
        (bind_some (decode_data c) _ _ rest m (data_Reads m rest) refl)
  decode-encode (data_ack id) rest h =
      tag_then tag_data_ack _ rest _ (data_ack id) refl
        (bind_some decode_integer _ _ rest id (integer_law id rest) refl)
  decode-encode (data_reject id) rest h =
      tag_then tag_data_reject _ rest _ (data_reject id) refl
        (bind_some decode_integer _ _ rest id (integer_law id rest) refl)
