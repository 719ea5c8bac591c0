-- ===== src/Codec/Streams.antt =====
-- Messages on a byte stream: `encodePeerPacket`, and the messages that the decoding stream pushes.
use ataraxia.Base.{
  ℕ, ◌≡◌, refl, ap, ap₂, ◌∙◌, Option, some, List, [], ◌∷◌, ◌++◌, map, concat, sym, append-nil,
}
use ataraxia.Codec.{
  Cbor, PeerMessage, Decoded, message, encode_binary_peer_message, decode_binary_peer_message,
}
use ataraxia.Codec.RoundTrip.{HasSets, decode-encode}
use ataraxia.Framing.{Scanned, feed, encode_packet}
use ataraxia.Framing.RoundTrip.{Encoded, nothing, one_more, feed_of_Encoded}

module _ (c : Cbor) where
  unfoldable pub encode_peer_packet : PeerMessage → Option (List ℕ)
  encode_peer_packet m = encode_packet (encode_binary_peer_message c m)

  -- What a new stream pushes for some chunks.
  unfoldable pub pushed : List (List ℕ) → List Decoded
  pushed chunks = map (decode_binary_peer_message c) (feed [] chunks).packets

  -- The packets of some messages, each with its sets, one after the other.
  pub data Sent : List PeerMessage → List ℕ → Type 0 where
    no_message : Sent [] []
    send :
        {m : PeerMessage} {packet bytes : List ℕ} {messages : List PeerMessage}
        → HasSets m
        → encode_peer_packet m ≡ some packet
        → Sent messages bytes
        → Sent (m ∷ messages) (packet ++ bytes)

  Sent-Encoded :
      {messages : List PeerMessage} {bytes : List ℕ}
      → Sent messages bytes
      → Encoded (map (encode_binary_peer_message c) messages) bytes
  unfolding encode_peer_packet
  Sent-Encoded no_message = nothing
  Sent-Encoded (send h e more) = one_more e (Sent-Encoded more)

  decode_all :
      {messages : List PeerMessage} {bytes : List ℕ}
      → Sent messages bytes
      → map (decode_binary_peer_message c) (map (encode_binary_peer_message c) messages)
        ≡ map message messages
  decode_all no_message = refl
  decode_all (send {m = m} h e more) =
      ap₂ ◌∷◌
        (ap (decode_binary_peer_message c) (sym (append-nil (encode_binary_peer_message c m)))
          ∙ decode-encode c m [] h)
        (decode_all more)

  -- The messages that one side writes to a byte stream are those that the other side's stream
  -- pushes, in the same order, however the bytes are cut into chunks on the way.
  pub pushed_of_Sent :
      (messages : List PeerMessage) (chunks : List (List ℕ))
      → Sent messages (concat chunks)
      → pushed chunks ≡ map message messages
  unfolding pushed
  pushed_of_Sent messages chunks s =
      ap (λ (r : Scanned). map (decode_binary_peer_message c) r.packets)
        (feed_of_Encoded (map (encode_binary_peer_message c) messages) chunks (Sent-Encoded s))
      ∙ decode_all s
