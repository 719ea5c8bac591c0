-- ===== src/Ids/Tests.antt =====
-- Runs of the printing of identifiers, and the theorems at concrete ones.
use ataraxia.Base.{◌≡◌, refl, [], ◌∷◌, arith}
use ataraxia.Ids.{codes, encode_id, decode_id}
use ataraxia.Ids.RoundTrip.{decode_id-encode_id}

encode_test : encode_id (255 ∷ 1 ∷ []) ≡ codes "gYV"
unfolding encode_id
encode_test = refl

decode_test : decode_id (codes "gYV") ≡ 255 ∷ 1 ∷ []
unfolding decode_id
decode_test = refl

decode_zeros_test : decode_id (codes "005") ≡ 0 ∷ 0 ∷ 5 ∷ []
unfolding decode_id
decode_zeros_test = refl

encode_empty_test : encode_id [] ≡ codes "0"
unfolding encode_id
encode_empty_test = refl

decode_id-encode_id_example : decode_id (encode_id (3 ∷ 0 ∷ [])) ≡ 3 ∷ 0 ∷ []
decode_id-encode_id_example = decode_id-encode_id (3 ∷ 0 ∷ []) (omega arith)
