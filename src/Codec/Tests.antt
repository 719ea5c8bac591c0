-- ===== src/Codec/Tests.antt =====
-- Runs of the codec over a plain item format, and the theorems at concrete messages.
use ataraxia.Base.{◌≡◌, refl, [], ◌∷◌, ◌++◌}
use ataraxia.Codec.{
  PeerMessage, ping, hello, data_message, data_ack, message, null, thrown,
  encode_binary_peer_message, decode_binary_peer_message,
}
use ataraxia.Codec.Plain.{plain}
use ataraxia.Codec.RoundTrip.{decode-encode}
use ataraxia.Codec.Streams.{encode_peer_packet, pushed, no_message, send, pushed_of_Sent}
use ataraxia.Framing.{encode_packet}

abbrev greeting : PeerMessage
greeting = hello (7 ∷ 8 ∷ []) ((1 ∷ []) ∷ (2 ∷ 3 ∷ []) ∷ [])

abbrev forwarded : PeerMessage
forwarded = data_message (record {
  path = record { node = 7 ∷ []; id = 0 } ∷ record { node = 9 ∷ []; id = 4 } ∷ [];
  target = 5 ∷ [];
  type = 1 ∷ [];
  payload = 0 ∷ 255 ∷ [];
})

encode_greeting :
    encode_binary_peer_message plain greeting ≡ 12 ∷ 2 ∷ 7 ∷ 8 ∷ 2 ∷ 1 ∷ 1 ∷ 2 ∷ 2 ∷ 3 ∷ []
unfolding encode_binary_peer_message
encode_greeting = refl

unknown_tag_test : decode_binary_peer_message plain (9 ∷ 1 ∷ []) ≡ null
unfolding decode_binary_peer_message
unknown_tag_test = refl

cut_short_test : decode_binary_peer_message plain (3 ∷ []) ≡ thrown
unfolding decode_binary_peer_message
cut_short_test = refl

decode-encode_example :
    decode_binary_peer_message plain (encode_binary_peer_message plain greeting ++ 1 ∷ [])
    ≡ message greeting
decode-encode_example = decode-encode plain greeting (1 ∷ []) (refl, (refl, tt))

pushed_of_Sent_example :
    pushed plain ((1 ∷ 0 ∷ 2 ∷ []) ∷ (3 ∷ []) ∷ (6 ∷ []) ∷ [])
    ≡ message ping ∷ message (data_ack 6) ∷ []
unfolding encode_peer_packet encode_packet encode_binary_peer_message
pushed_of_Sent_example =
    pushed_of_Sent plain (ping ∷ data_ack 6 ∷ []) ((1 ∷ 0 ∷ 2 ∷ []) ∷ (3 ∷ []) ∷ (6 ∷ []) ∷ []) (
      send {m = ping} {packet = 1 ∷ 0 ∷ []} tt refl
        (send {m = data_ack 6} {packet = 2 ∷ 3 ∷ 6 ∷ []} tt refl no_message))
