-- ===== src/Framing/Tests.antt =====
-- Runs of the framing, and the theorems at concrete streams.
use ataraxia.Base.{◌≡◌, refl, none, some, [], ◌∷◌}
use ataraxia.Framing.{next, transform, feed, encode_packet}
use ataraxia.Framing.Scan.{stop, read}
use ataraxia.Framing.Chunks.{feed_of_Reads}
use ataraxia.Framing.RoundTrip.{nothing, one_more, feed_of_Encoded}

-- A packet of two bytes, and a byte of the next one.
transform_test :
    transform (2 ∷ []) (5 ∷ 6 ∷ 1 ∷ [])
    ≡ record { packets = (5 ∷ 6 ∷ []) ∷ []; rest = 1 ∷ []; thrown = none }
unfolding transform next
transform_test = refl

unknown_size_test : (transform [] (0 ∷ 27 ∷ [])).thrown ≡ some 27
unfolding transform next
unknown_size_test = refl

feed_of_Reads_example :
    feed (2 ∷ []) ((5 ∷ []) ∷ (6 ∷ 1 ∷ []) ∷ [])
    ≡ record { packets = (5 ∷ 6 ∷ []) ∷ []; rest = 1 ∷ []; thrown = none }
unfolding next
feed_of_Reads_example =
    feed_of_Reads ((5 ∷ []) ∷ (6 ∷ 1 ∷ []) ∷ []) (2 ∷ []) refl (read refl (stop refl))

feed_of_Encoded_example :
    feed [] ((2 ∷ 5 ∷ []) ∷ (6 ∷ 0 ∷ []) ∷ [])
    ≡ record { packets = (5 ∷ 6 ∷ []) ∷ [] ∷ []; rest = []; thrown = none }
unfolding encode_packet
feed_of_Encoded_example =
    feed_of_Encoded ((5 ∷ 6 ∷ []) ∷ [] ∷ []) ((2 ∷ 5 ∷ []) ∷ (6 ∷ 0 ∷ []) ∷ []) (
      one_more {payload = 5 ∷ 6 ∷ []} {coded = 2 ∷ 5 ∷ 6 ∷ []} refl
        (one_more {payload = []} {coded = 0 ∷ []} refl nothing))
