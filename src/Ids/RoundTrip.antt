-- ===== src/Ids/RoundTrip.antt =====
-- `decodeId` on what `encodeId` printed.
use mathlib.Core.List.{reverse-reverse, reverse-cons, map-append}
use native.Mathlib.Nat.{mul-pos}
use ataraxia.Base.{
  ℕ, zero, suc, ◌+◌, ◌*◌, ◌/◌, ◌%◌, ◌<◌, ◌≡◌, refl, sym, ap, ◌∙◌, some, List, [], ◌∷◌, ◌++◌, map,
  reverse, arith, All, All-append, append-nil, ◌⊎◌, inl, inr, ◌≢◌, subst,
}
use ataraxia.Ids.{
  spill, propagate, add_first, bytes_of, leading_zeros, decode_id, encode_digit, encode_id,
  digits_of,
}
use ataraxia.Ids.Digits.{
  value, horner, horner-reverse, IsCanonical, IsTail, cons-IsCanonical, value_unique, spread,
  mul_add, value-mul_add, mul_add-IsCanonical,
}
use ataraxia.Ids.Printing.{
  IsBytes, decode_char-encode_digit, encode_digit_injective, IsCanonical-All, start-IsCanonical,
  value-digits_of, encode_id-eq_iff,
}

spill-eq-spread : (fuel carry : ℕ) → spill fuel carry ≡ spread 256 fuel carry
unfolding spill spread
spill-eq-spread zero carry = refl
spill-eq-spread (suc fuel) carry = ground (arith, spill-eq-spread fuel (carry / 256))

propagate-eq-mul_add :
    (carry : ℕ) (bs : List ℕ) → propagate carry (map (λ b. b * 62) bs) ≡ mul_add 256 62 carry bs
unfolding propagate mul_add
propagate-eq-mul_add carry [] = spill-eq-spread carry carry
propagate-eq-mul_add carry (b ∷ bs) =
    ap (◌∷◌ ((b * 62 + carry) % 256)) (propagate-eq-mul_add ((b * 62 + carry) / 256) bs)

-- One round of the outer loop multiplies by 62 and adds the digit.
round-eq-mul_add :
    (digit b : ℕ) (bs : List ℕ)
    → propagate 0 (add_first (some digit) (map (λ b. b * 62) (b ∷ bs)))
      ≡ mul_add 256 62 digit (b ∷ bs)
unfolding propagate mul_add add_first
round-eq-mul_add digit b bs =
    let same : b * 62 + digit + 0 ≡ b * 62 + digit = omega arith in
    rw same (ap (◌∷◌ ((b * 62 + digit) % 256)) (propagate-eq-mul_add ((b * 62 + digit) / 256) bs))

-- The loop keeps a canonical list with the value of the digits read so far.
bytes_of_lem :
    (bs ds : List ℕ)
    → IsCanonical 256 bs
    → All (λ d. d < 62) ds
    → IsCanonical 256 (bytes_of bs (map encode_digit ds))
      × (value 256 (bytes_of bs (map encode_digit ds)) ≡ horner 62 (value 256 bs) ds)
unfolding bytes_of
bytes_of_lem bs [] c h = (c, refl)
bytes_of_lem [] (d ∷ ds) c h = absurd c
bytes_of_lem (b ∷ bs) (d ∷ ds) c h =
    let next = mul_add 256 62 d (b ∷ bs) in
    let rest =
      bytes_of_lem next ds (mul_add-IsCanonical 256 (omega arith) 62 d (b ∷ bs) (omega arith) c)
        h.1 in
    let step : bytes_of (b ∷ bs) (map encode_digit (d ∷ ds)) ≡ bytes_of next (map encode_digit ds) =
      ap
        (λ o.
          bytes_of (propagate 0 (add_first o (map (λ b. b * 62) (b ∷ bs)))) (map encode_digit ds))
        (decode_char-encode_digit d h.0)
      ∙ ap (λ l. bytes_of l (map encode_digit ds)) (round-eq-mul_add d b bs) in
    (
      subst (IsCanonical 256) (sym step) rest.0,
      ap (value 256) step
          ∙ rest.1
          ∙ ap (λ n. horner 62 n ds) (value-mul_add 256 (omega arith) 62 d (b ∷ bs)),
    )

module _ (base : ℕ) where
  -- The first printed digit of a number above zero is no zero.
  pub leading_digit :
      (ds : List ℕ)
      → IsTail base ds
      → (ds ≡ []) ⊎ ((t : ℕ) × (rest : List ℕ) × (reverse ds ≡ t ∷ rest) × (0 < t) × (t < base))
  leading_digit [] h = inl refl
  leading_digit (d ∷ []) h = inr (d, [], refl, omega (arith, h.0), h.1)
  leading_digit (d ∷ e ∷ ds) h = elim (leading_digit (e ∷ ds) (h.1.1, h.1.2)) [
    | inl p ↦ cc
    | inr (t, rest, p, pos, less) ↦
        inr (t, rest ++ d ∷ [], reverse-cons d (e ∷ ds) ∙ ap (λ l. l ++ d ∷ []) p, pos, less)
  ]

encode_digit_zero : encode_digit 0 ≡ b'0'
unfolding encode_digit
encode_digit_zero = refl

encode_digit_ne_zero : (d : ℕ) → 0 < d → d < 62 → encode_digit d ≢ b'0'
encode_digit_ne_zero d pos h e =
    omega (arith, encode_digit_injective d 0 h (omega arith) (e ∙ sym encode_digit_zero))

leading_zeros_none : (c : ℕ) (text : List ℕ) → c ≢ b'0' → leading_zeros (c ∷ text) ≡ []
unfolding leading_zeros
leading_zeros_none c [] h = refl
leading_zeros_none c (d ∷ text) h = ground arith

leading_zeros_of_canonical :
    (ds : List ℕ) → IsCanonical 62 ds → leading_zeros (map encode_digit (reverse ds)) ≡ []
unfolding leading_zeros
leading_zeros_of_canonical [] h = absurd h
leading_zeros_of_canonical (d ∷ []) h = refl
leading_zeros_of_canonical (d ∷ e ∷ ds) h = elim (leading_digit 62 (e ∷ ds) (h.1, h.2)) [
  | inl p ↦ cc
  | inr (t, rest, p, pos, less) ↦
      rw (reverse-cons d (e ∷ ds), p)
        (leading_zeros_none (encode_digit t) (map encode_digit (rest ++ d ∷ []))
          (encode_digit_ne_zero t pos less))
]

All-reverse : (base : ℕ) (ds : List ℕ) → All (λ d. d < base) ds → All (λ d. d < base) (reverse ds)
All-reverse base [] h = tt
All-reverse base (d ∷ ds) h =
    rw (reverse-cons d ds)
      (All-append (λ d. d < base) (reverse ds) (d ∷ []) (All-reverse base ds h.1) (h.0, tt))

IsTail-of_canonical :
    (base : ℕ) (ds : List ℕ) → (0 < value base ds) × IsCanonical base ds → IsTail base ds
IsTail-of_canonical base [] h = tt
IsTail-of_canonical base (d ∷ ds) h = (h.0, h.1)

-- Any digits behind a leading digit above zero are canonical.
snoc-IsCanonical :
    (base d : ℕ) (ds : List ℕ)
    → 0 < d
    → d < base
    → All (λ e. e < base) ds
    → (0 < value base (ds ++ d ∷ [])) × IsCanonical base (ds ++ d ∷ [])
snoc-IsCanonical base d [] pos h k = (omega arith, h)
snoc-IsCanonical base d (e ∷ ds) pos h k =
    let rest = snoc-IsCanonical base d ds pos h k.1 in
    let prod = mul-pos {m = base} (omega arith) rest.0 in
    (
      omega (arith, prod),
      cons-IsCanonical base e (ds ++ d ∷ []) k.0 (IsTail-of_canonical base (ds ++ d ∷ []) rest),
    )

reverse-map : (f : ℕ → ℕ) (ds : List ℕ) → reverse (map f ds) ≡ map f (reverse ds)
reverse-map f [] = refl
reverse-map f (d ∷ ds) =
    reverse-cons (f d) (map f ds)
    ∙ ap (λ l. l ++ f d ∷ []) (reverse-map f ds)
    ∙ sym (map-append f (reverse ds) (d ∷ []))
    ∙ ap (map f) (sym (reverse-cons d ds))

decode_id_lem :
    (text : List ℕ)
    → text ≢ []
    → decode_id text ≡ reverse (bytes_of (0 ∷ []) text ++ leading_zeros text)
unfolding decode_id
decode_id_lem [] h = absurd (h refl)
decode_id_lem (c ∷ text) h = refl

canonical_text_ne_nil : (ds : List ℕ) → IsCanonical 62 ds → map encode_digit (reverse ds) ≢ []
canonical_text_ne_nil ds c e = nil_not_canonical ds (map_nil (reverse ds) e) c
  where
    map_nil : (l : List ℕ) → map encode_digit l ≡ [] → l ≡ []
    map_nil [] e = refl
    map_nil (x ∷ l) e = cc

    nil_not_canonical : (ds : List ℕ) → reverse ds ≡ [] → IsCanonical 62 ds → ⊥
    nil_not_canonical ds e c = subst (IsCanonical 62) (sym (reverse-reverse ds) ∙ ap reverse e) c

-- Decoding a text of canonical digits gives the canonical bytes of the same number.
decode_canonical :
    (ds bs : List ℕ)
    → IsCanonical 62 ds
    → IsCanonical 256 bs
    → value 62 ds ≡ value 256 bs
    → decode_id (map encode_digit (reverse ds)) ≡ reverse bs
decode_canonical ds bs c k p =
    let read =
      bytes_of_lem (0 ∷ []) (reverse ds) (omega arith)
        (All-reverse 62 ds (IsCanonical-All 62 ds c)) in
    decode_id_lem (map encode_digit (reverse ds)) (canonical_text_ne_nil ds c)
    ∙ ap reverse (
        ap (◌++◌ (bytes_of (0 ∷ []) (map encode_digit (reverse ds))))
          (leading_zeros_of_canonical ds c)
        ∙ append-nil _
        ∙ value_unique 256 _ bs read.0 k (read.1 ∙ horner-reverse 62 ds ∙ p))

-- The identifiers that begin with a byte above zero come back.
decode_id-encode_id_cons :
    (byte : ℕ) (id : List ℕ)
    → 0 < byte
    → IsBytes (byte ∷ id)
    → decode_id (encode_id (byte ∷ id)) ≡ byte ∷ id
unfolding encode_id
decode_id-encode_id_cons byte id pos h =
    let ds = digits_of (0 ∷ []) (byte ∷ id) in
    let bs = reverse id ++ byte ∷ [] in
    let same : reverse bs ≡ byte ∷ id =
      ap reverse (sym (reverse-cons byte id)) ∙ reverse-reverse (byte ∷ id) in
    let canonical = snoc-IsCanonical 256 byte (reverse id) pos h.0 (All-reverse 256 id h.1) in
    ap decode_id (reverse-map encode_digit ds)
    ∙ decode_canonical ds bs (start-IsCanonical (byte ∷ id)) canonical.1 (
        value-digits_of (0 ∷ []) (byte ∷ id) ∙ ap (horner 256 0) (sym same) ∙ horner-reverse 256 bs)
    ∙ same

-- The bytes of an identifier without the zeros in front, and one zero where no byte is left.
abbrev pub significant : List ℕ → List ℕ
significant [] = 0 ∷ []
significant (zero ∷ id) = significant id
significant (suc byte ∷ id) = suc byte ∷ id

decode_empty : decode_id (encode_id []) ≡ 0 ∷ []
unfolding decode_id encode_id
decode_empty = refl

-- Decoding the text of an identifier gives its bytes without the zeros in front of them, so an
-- identifier that begins with a byte above zero comes back as it was; the empty identifier and those
-- of zeros alone come back as one zero.
pub decode_id-encode_id : (id : List ℕ) → IsBytes id → decode_id (encode_id id) ≡ significant id
decode_id-encode_id [] h = decode_empty
decode_id-encode_id (zero ∷ id) h =
    ap decode_id ((encode_id-eq_iff (0 ∷ id) id).1 refl) ∙ decode_id-encode_id id h.1
decode_id-encode_id (suc byte ∷ id) h = decode_id-encode_id_cons (suc byte) id (omega arith) h
