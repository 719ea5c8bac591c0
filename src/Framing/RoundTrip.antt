-- ===== src/Framing/RoundTrip.antt =====
-- Streams of encoded packets at the decoding stream.
use ataraxia.Base.{
  ℕ, suc, ◌/◌, ◌%◌, ◌^◌, ◌≤◌, ◌<◌, ◌≡◌, refl, sym, ap, ap₂, ◌∙◌, none, some, List, [], ◌∷◌, ◌++◌,
  length, take, drop, arith, append_assoc, concat, length-append, take-append, drop-append,
  Option-cases, ◌⊎◌, ◌↔◌, inl, inr,
}
use ataraxia.Framing.{packet, next, feed, packet_header, encode_packet, read_header, cut, sized}
use ataraxia.Framing.Scan.{Reads, stop, read, cut_sized, next-nil}
use ataraxia.Framing.Chunks.{feed_of_Reads}

cut_front :
    (header : List ℕ) (payload rest : List ℕ)
    → cut (sized (length payload) (length header)) (header ++ (payload ++ rest))
      ≡ packet payload rest
cut_front header payload rest =
    let after = drop-append header (payload ++ rest) in
    cut_sized (length payload) (length header) (header ++ (payload ++ rest))
      (omega (arith, length-append header (payload ++ rest), length-append payload rest))
    ∙ ap₂ packet (ap (take (length payload)) after ∙ take-append payload rest)
        (ap (drop (length payload)) after ∙ drop-append payload rest)

header_first :
    (first : ℕ) (header payload rest : List ℕ)
    → read_header first (header ++ (payload ++ rest)) ≡ sized (length payload) (suc (length header))
    → next (first ∷ (header ++ (payload ++ rest))) ≡ packet payload rest
unfolding next
header_first first header payload rest e = rw e (cut_front (first ∷ header) payload rest)

abbrev header_16 : ℕ → List ℕ
header_16 n = (n / 2 ^ 8) ∷ (n % 2 ^ 8) ∷ []

abbrev header_32 : ℕ → List ℕ
header_32 n = (n / 2 ^ 24) ∷ (n / 2 ^ 16 % 2 ^ 8) ∷ (n / 2 ^ 8 % 2 ^ 8) ∷ (n % 2 ^ 8) ∷ []

packet_header_cases :
    (n : ℕ) (header : List ℕ)
    → packet_header n ≡ some header
    → ((n < 24) × (header ≡ n ∷ []))
      ⊎ (header ≡ 24 ∷ n ∷ [])
      ⊎ (header ≡ 25 ∷ header_16 n)
      ⊎ (header ≡ 26 ∷ header_32 n)
unfolding packet_header
packet_header_cases n header e = ground arith

module _ (n : ℕ) (bytes : List ℕ) where
  read_small : n < 24 → read_header n bytes ≡ sized n 1
  unfolding read_header
  read_small h = ground arith

  read_8 : read_header 24 (n ∷ bytes) ≡ sized n 2
  unfolding read_header
  read_8 = refl

  read_16 : read_header 25 (header_16 n ++ bytes) ≡ sized n 3
  unfolding read_header
  read_16 = ap (λ t. sized t 3) (omega arith)

  read_32 : read_header 26 (header_32 n ++ bytes) ≡ sized n 5
  unfolding read_header
  read_32 = ap (λ t. sized t 5) (omega arith)

module _ (n : ℕ) (payload rest : List ℕ) (same : length payload ≡ n) where
  next_behind :
      (first : ℕ) (header : List ℕ)
      → read_header first (header ++ (payload ++ rest)) ≡ sized n (suc (length header))
      → next ((first ∷ header) ++ (payload ++ rest)) ≡ packet payload rest
  next_behind first header e =
      header_first first header payload rest
        (e ∙ ap (λ t. sized t (suc (length header))) (sym same))

  -- A header reads back as the length that it was written for.
  next-packet_header :
      (header : List ℕ)
      → packet_header n ≡ some header
      → next (header ++ (payload ++ rest)) ≡ packet payload rest
  next-packet_header header e = elim (packet_header_cases n header e) [
    | inl (small, h) ↦ rw h (next_behind n [] (read_small n _ small))
    | inr (inl h) ↦ rw h (next_behind 24 (n ∷ []) (read_8 n _))
    | inr (inr (inl h)) ↦ rw h (next_behind 25 (header_16 n) (read_16 n _))
    | inr (inr (inr h)) ↦ rw h (next_behind 26 (header_32 n) (read_32 n _))
  ]

-- The next packet on a stream that begins with an encoded message is that message.
pub next-encode_packet :
    (payload rest coded : List ℕ)
    → encode_packet payload ≡ some coded
    → next (coded ++ rest) ≡ packet payload rest
unfolding encode_packet
next-encode_packet payload rest coded e = elim (Option-cases (packet_header (length payload))) [
  | inl failed ↦ let e' = rw (failed, encode_packet) at e in cc
  | inr (header, p) ↦
      let e' : header ++ payload ≡ coded = let q = rw (p, encode_packet) at e in cc in
      ap (λ l. next (l ++ rest)) (sym e')
      ∙ ap next (append_assoc header payload rest)
      ∙ next-packet_header (length payload) payload rest refl header p
]

-- The bytes of some packets, one after the other; none if one is too large.
pub data Encoded : List (List ℕ) → List ℕ → Type 0 where
  nothing : Encoded [] []
  one_more :
      {payload coded bytes : List ℕ} {payloads : List (List ℕ)}
      → encode_packet payload ≡ some coded
      → Encoded payloads bytes
      → Encoded (payload ∷ payloads) (coded ++ bytes)

Encoded-Reads :
    {payloads : List (List ℕ)} {bytes : List ℕ} → Encoded payloads bytes → Reads bytes payloads []
Encoded-Reads nothing = stop next-nil
Encoded-Reads (one_more {payload = p} {coded = c} {bytes = b} e more) =
    read (next-encode_packet p b c e) (Encoded-Reads more)

-- Whatever the chunks in which the bytes of some encoded messages arrive, a new stream puts out
-- these messages in their order, keeps no byte and throws nothing.
pub feed_of_Encoded :
    (payloads : List (List ℕ)) (chunks : List (List ℕ))
    → Encoded payloads (concat chunks)
    → feed [] chunks ≡ record { packets = payloads; rest = []; thrown = none }
feed_of_Encoded payloads chunks e = feed_of_Reads chunks [] next-nil (Encoded-Reads e)

-- `encodePeerPacket` throws for the messages of 2 ^ 32 bytes or more, and for no other.
encode_packet-eq-none_iff :
    (encoded : List ℕ) → (encode_packet encoded ≡ none) ↔ (2 ^ 32 ≤ length encoded)
unfolding encode_packet packet_header
encode_packet-eq-none_iff encoded = (λ h. ground arith, λ h. ground arith)
