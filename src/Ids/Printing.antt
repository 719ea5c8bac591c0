-- ===== src/Ids/Printing.antt =====
-- What `encodeId` computes: the canonical base 62 text of the identifier read as a number.
use mathlib.Core.List.{reverse-reverse}
use ataraxia.Base.{
  ℕ, zero, suc, ◌+◌, ◌*◌, ◌/◌, ◌%◌, ◌<◌, ◌≡◌, refl, sym, ap, ap₂, subst, ◌∙◌, ◌↔◌, true, false,
  List, [], ◌∷◌, map, reverse, ◌==◌, length, arith, All, Bool, none, some, ◌&&◌,
}
use ataraxia.Ids.{
  extend, absorb, digits_of, encode_digit, encode_id, decode_char, same_id, same_bytes,
}
use ataraxia.Ids.Digits.{
  value, horner, IsCanonical, value_unique, spread, mul_add, value-mul_add, mul_add-IsCanonical,
}

-- An identifier as a number, its first byte the most significant.
abbrev pub number_of : List ℕ → ℕ
number_of = horner 256 0

extend-eq-spread : (fuel carry : ℕ) → extend fuel carry ≡ spread 62 fuel carry
unfolding extend spread
extend-eq-spread zero carry = refl
extend-eq-spread (suc fuel) carry = ground (arith, extend-eq-spread fuel (carry / 62))

pub absorb-eq-mul_add : (carry : ℕ) (ds : List ℕ) → absorb carry ds ≡ mul_add 62 256 carry ds
unfolding absorb mul_add
absorb-eq-mul_add carry [] = extend-eq-spread carry carry
absorb-eq-mul_add carry (d ∷ ds) =
    ap (◌∷◌ ((d * 256 + carry) % 62)) (absorb-eq-mul_add ((d * 256 + carry) / 62) ds)

pub digits_of-IsCanonical : (ds id : List ℕ) → IsCanonical 62 ds → IsCanonical 62 (digits_of ds id)
unfolding digits_of
digits_of-IsCanonical ds [] h = h
digits_of-IsCanonical ds (byte ∷ id) h = digits_of-IsCanonical (absorb byte ds) id (
    rw (absorb-eq-mul_add byte ds)
      (mul_add-IsCanonical 62 (omega arith) 256 byte ds (omega arith) h))

pub value-digits_of : (ds id : List ℕ) → value 62 (digits_of ds id) ≡ horner 256 (value 62 ds) id
unfolding digits_of
value-digits_of ds [] = refl
value-digits_of ds (byte ∷ id) =
    value-digits_of (absorb byte ds) id
    ∙ ap (λ n. horner 256 n id)
        (ap (value 62) (absorb-eq-mul_add byte ds) ∙ value-mul_add 62 (omega arith) 256 byte ds)

-- Every character of the alphabet stands for its own digit.
reads_back : ℕ → Bool
reads_back d = elim (decode_char (encode_digit d)) [ none ↦ false | some e ↦ e == d ]

all_read_back : ℕ → Bool
all_read_back zero = true
all_read_back (suc n) = reads_back n && all_read_back n

all_read_back_sound : (n d : ℕ) → all_read_back n ≡ true → d < n → reads_back d ≡ true
unfolding all_read_back
all_read_back_sound zero d h less = absurd (omega arith)
all_read_back_sound (suc n) d h less = ground (arith, all_read_back_sound n d)

alphabet_reads_back : all_read_back 62 ≡ true
unfolding all_read_back reads_back encode_digit decode_char
alphabet_reads_back = refl

reads_back-some : (d : ℕ) → reads_back d ≡ true → decode_char (encode_digit d) ≡ some d
unfolding reads_back
reads_back-some d e = ground arith

pub decode_char-encode_digit : (d : ℕ) → d < 62 → decode_char (encode_digit d) ≡ some d
decode_char-encode_digit d h = reads_back-some d (all_read_back_sound 62 d alphabet_reads_back h)

pub encode_digit_injective : (d e : ℕ) → d < 62 → e < 62 → encode_digit d ≡ encode_digit e → d ≡ e
encode_digit_injective d e h k p =
    let same : some d ≡ some e =
      sym (decode_char-encode_digit d h) ∙ ap decode_char p ∙ decode_char-encode_digit e k in
    cc

pub IsCanonical-All : (base : ℕ) (ds : List ℕ) → IsCanonical base ds → All (λ d. d < base) ds
IsCanonical-All base [] h = absurd h
IsCanonical-All base (d ∷ []) h = (h, tt)
IsCanonical-All base (d ∷ e ∷ ds) h = (h.0, IsCanonical-All base (e ∷ ds) h.2)

encode_digits_injective :
    (ds es : List ℕ)
    → All (λ d. d < 62) ds
    → All (λ d. d < 62) es
    → map encode_digit ds ≡ map encode_digit es
    → ds ≡ es
encode_digits_injective [] [] h k p = refl
encode_digits_injective [] (e ∷ es) h k p = cc
encode_digits_injective (d ∷ ds) [] h k p = cc
encode_digits_injective (d ∷ ds) (e ∷ es) h k p =
    ap₂ ◌∷◌ (encode_digit_injective d e h.0 k.0 (cc)) (encode_digits_injective ds es h.1 k.1 (cc))

pub start-IsCanonical : (id : List ℕ) → IsCanonical 62 (digits_of (0 ∷ []) id)
start-IsCanonical id = digits_of-IsCanonical (0 ∷ []) id (omega arith)

-- Two identifiers have the same text exactly when they are the same number.
pub encode_id-eq_iff :
    (id id' : List ℕ) → (encode_id id ≡ encode_id id') ↔ (number_of id ≡ number_of id')
unfolding encode_id
encode_id-eq_iff id id' = (to, from)
  where
    ds : List ℕ
    ds = digits_of (0 ∷ []) id

    es : List ℕ
    es = digits_of (0 ∷ []) id'

    to : encode_id id ≡ encode_id id' → number_of id ≡ number_of id'
    to p =
        sym (value-digits_of (0 ∷ []) id)
        ∙ ap (value 62) (
            encode_digits_injective ds es (IsCanonical-All 62 ds (start-IsCanonical id))
              (IsCanonical-All 62 es (start-IsCanonical id'))
              (sym (reverse-reverse _) ∙ ap reverse p ∙ reverse-reverse _))
        ∙ value-digits_of (0 ∷ []) id'

    from : number_of id ≡ number_of id' → encode_id id ≡ encode_id id'
    from p =
        ap (λ ds. reverse (map encode_digit ds))
          (value_unique 62 ds es (start-IsCanonical id) (start-IsCanonical id')
            (value-digits_of (0 ∷ []) id ∙ p ∙ sym (value-digits_of (0 ∷ []) id')))

abbrev pub IsBytes : List ℕ → Type 0
IsBytes = All (λ byte. byte < 256)

horner_injective :
    (m n : ℕ) (id id' : List ℕ)
    → IsBytes id
    → IsBytes id'
    → length id ≡ length id'
    → horner 256 m id ≡ horner 256 n id'
    → (m ≡ n) × (id ≡ id')
horner_injective m n [] [] h k l p = (p, refl)
horner_injective m n [] (b ∷ id') h k l p = absurd (omega arith)
horner_injective m n (a ∷ id) [] h k l p = absurd (omega arith)
horner_injective m n (a ∷ id) (b ∷ id') h k l p =
    let q = horner_injective (256 * m + a) (256 * n + b) id id' h.1 k.1 (omega arith) p in
    (omega (arith, h.0, k.0, q.0), ap₂ ◌∷◌ (omega (arith, h.0, k.0, q.0)) q.1)

-- Identifiers of one length have the same text only if they are the same.
pub encode_id_injective :
    (id id' : List ℕ)
    → IsBytes id
    → IsBytes id'
    → length id ≡ length id'
    → encode_id id ≡ encode_id id'
    → id ≡ id'
encode_id_injective id id' h k l p =
    (horner_injective 0 0 id id' h k l ((encode_id-eq_iff id id').0 p)).1

same_bytes_sound : (a b : List ℕ) → length a ≡ length b → same_bytes a b ≡ true → a ≡ b
same_bytes_sound [] [] l h = refl
same_bytes_sound [] (y ∷ b) l h = absurd (omega arith)
same_bytes_sound (x ∷ a) [] l h = absurd (omega arith)
same_bytes_sound (x ∷ a) (y ∷ b) l h = ground (arith, same_bytes_sound a b (omega arith))

same_bytes_refl : (a : List ℕ) → same_bytes a a ≡ true
same_bytes_refl [] = refl
same_bytes_refl (x ∷ a) = ground (arith, same_bytes_refl a)

-- `sameId` decides equality.
pub same_id-eq_iff : (a b : List ℕ) → (same_id a b ≡ true) ↔ (a ≡ b)
unfolding same_id
same_id-eq_iff a b = (
  λ h. same_bytes_sound a b (ground arith) (ground arith),
  λ e. subst (λ b. same_id a b ≡ true) e (ground (arith, same_bytes_refl a)),
)

-- Two identifiers of one length are the same for `sameId` exactly when they have the same text, by
-- which the maps of identifiers tell their keys apart.
pub same_id-encode_id_iff :
    (a b : List ℕ)
    → IsBytes a
    → IsBytes b
    → length a ≡ length b
    → (same_id a b ≡ true) ↔ (encode_id a ≡ encode_id b)
same_id-encode_id_iff a b h k l = (
  λ e. ap encode_id ((same_id-eq_iff a b).0 e),
  λ e. (same_id-eq_iff a b).1 (encode_id_injective a b h k l e),
)
