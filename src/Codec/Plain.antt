-- ===== src/Codec/Plain.antt =====
-- A plain item format, by which the hypotheses on the CBOR library can hold.
use ataraxia.Base.{
  ℕ, ◌≡◌, refl, Option, none, some, List, [], ◌∷◌, ◌++◌, length, take, drop, take-append,
  drop-append, ap₂,
}
use ataraxia.Codec.{Cbor}

-- An integer as itself, bytes and texts behind their length.
abbrev pub read_one : List ℕ → Option (ℕ × List ℕ)
read_one [] = none
read_one (n ∷ rest) = some (n, rest)

abbrev pub read_many : List ℕ → Option (List ℕ × List ℕ)
read_many [] = none
read_many (n ∷ rest) = some (take n rest, drop n rest)

pub read_many_law : (bs rest : List ℕ) → read_many ((length bs ∷ bs) ++ rest) ≡ some (bs, rest)
read_many_law bs rest =
    let pair : List ℕ → List ℕ → Option (List ℕ × List ℕ) = λ a b. some (a, b) in
    ap₂ pair (take-append bs rest) (drop-append bs rest)

pub plain_integer_law : (n : ℕ) (rest : List ℕ) → read_one ((n ∷ []) ++ rest) ≡ some (n, rest)
plain_integer_law n rest = refl

abbrev pub plain : Cbor
plain = record {
  encode_integer = λ n. n ∷ [];
  encode_bytes = λ bs. length bs ∷ bs;
  encode_string = λ s. length s ∷ s;
  decode_integer = read_one;
  decode_bytes = read_many;
  decode_string = read_many;
  integer_law = plain_integer_law;
  bytes_law = read_many_law;
  string_law = read_many_law;
}
