-- ===== src/Ids.antt =====
-- packages/transport/src/ids.ts: identifiers are byte strings, printed in base 62.
-- A text is the list of its character codes; a byte string the list of its bytes.
pub mod Digits
pub mod Printing
pub mod RoundTrip
mod Tests
use ataraxia.Base.{
  ℕ, zero, suc, ◌+◌, ◌*◌, ◌/◌, ◌%◌, Bool, true, false, ◌&&◌, ◌≡◌, Option, none, some, List, [], ◌∷◌,
  ◌++◌, map, reverse, ◌==◌, if◌then◌else◌, length, String, refl,
}
use Prim.Native.Char.{code}
use Prim.Native.String

abbrev pub codes : String → List ℕ
codes String.[] = []
codes (String.◌∷◌ c s) = code c ∷ codes s

-- `l` stands before `k` in the source, too.
abbrev pub encoding : List ℕ
encoding = codes "0123456789abcdefghijlkmnopqrstuvwxyzABCDEFGHIJKLMNOPQRSTUVWXYZ"

abbrev char_at : List ℕ → ℕ → ℕ
char_at [] i = 0
char_at (c ∷ cs) zero = c
char_at (c ∷ cs) (suc i) = char_at cs i

-- `ENCODING[digit]`
pub encode_digit : ℕ → ℕ
encode_digit d = char_at encoding d

-- `REVERSE_ENCODING[character]`, `none` for `undefined`
position : ℕ → ℕ → List ℕ → Option ℕ
position i c [] = none
position i c (x ∷ xs) = if x == c then some i else position (i + 1) c xs

pub decode_char : ℕ → Option ℕ
unfolding position
decode_char c = position 0 c encoding

-- The inner loop of `encodeId` past the digits there are: it runs while there is a carry.
pub extend : ℕ → ℕ → List ℕ
extend zero carry = []
extend (suc fuel) carry = elim (carry == 0) [
  | true ↦ []
  | false ↦ (carry % 62) ∷ extend fuel (carry / 62)
]

-- The inner loop of `encodeId`, with the least digit first. A digit is below 62, so neither
-- `n << 8` nor the carry leaves 32 bits; a carry is above its 62nd part, so it is enough fuel.
pub absorb : ℕ → List ℕ → List ℕ
unfolding extend
absorb carry [] = extend carry carry
absorb carry (d ∷ ds) = let n = d * 256 + carry in (n % 62) ∷ absorb (n / 62) ds

pub digits_of : List ℕ → List ℕ → List ℕ
digits_of digits [] = digits
digits_of digits (byte ∷ id) = digits_of (absorb byte digits) id

unfoldable pub encode_id : List ℕ → List ℕ
unfolding digits_of absorb encode_digit
encode_id id = reverse (map encode_digit (digits_of (0 ∷ []) id))

-- `while(carry) { bytes.push(carry & 0xFF); carry >>= 8; }`
pub spill : ℕ → ℕ → List ℕ
spill zero carry = []
spill (suc fuel) carry = elim (carry == 0) [
  | true ↦ []
  | false ↦ (carry % 256) ∷ spill fuel (carry / 256)
]

-- The carry loop of `decodeId`, and the spill after it.
pub propagate : ℕ → List ℕ → List ℕ
unfolding spill
propagate carry [] = spill carry carry
propagate carry (b ∷ bs) = let n = b + carry in (n % 256) ∷ propagate (n / 256) bs

-- `bytes[0] += REVERSE_ENCODING[character]`. An unknown character makes it NaN, whose low byte and
-- carry are 0.
pub add_first : Option ℕ → List ℕ → List ℕ
add_first digit [] = []
add_first none (b ∷ bs) = 0 ∷ bs
add_first (some digit) (b ∷ bs) = (b + digit) ∷ bs

pub bytes_of : List ℕ → List ℕ → List ℕ
bytes_of bytes [] = bytes
bytes_of bytes (c ∷ input) =
    bytes_of (propagate 0 (add_first (decode_char c) (map (λ b. b * 62) bytes))) input

-- `while(input.charAt(i) === first && i < input.length - 1) bytes.push(0)`
pub leading_zeros : List ℕ → List ℕ
leading_zeros [] = []
leading_zeros (c ∷ []) = []
leading_zeros (c ∷ d ∷ input) = if c == b'0' then 0 ∷ leading_zeros (d ∷ input) else []

unfoldable pub decode_id : List ℕ → List ℕ
unfolding bytes_of propagate add_first decode_char leading_zeros
decode_id [] = []
decode_id (c ∷ input) = reverse (bytes_of (0 ∷ []) (c ∷ input) ++ leading_zeros (c ∷ input))

-- The lengths are compared first, then byte by byte.
abbrev pub same_bytes : List ℕ → List ℕ → Bool
same_bytes [] bs = true
same_bytes (a ∷ u1) [] = false
same_bytes (a ∷ u1) (b ∷ u2) = elim (a == b) [ true ↦ same_bytes u1 u2 | false ↦ false ]

unfoldable pub same_id : List ℕ → List ℕ → Bool
same_id o1 o2 = length o1 == length o2 && same_bytes o1 o2
