-- ===== src/Framing.antt =====
-- packages/transport-streams/src/binaryStreams.ts: packets on a byte stream, each behind its length
-- as a CBOR number. The payload of a packet is its bytes.
pub mod Scan
pub mod Chunks
pub mod RoundTrip
mod Tests
use ataraxia.Base.{
  ℕ, zero, suc, ◌+◌, ◌-◌, ◌*◌, ◌/◌, ◌%◌, ◌^◌, Option, none, some, List, [], ◌∷◌, ◌++◌, ltb, leb,
  ◌==◌, true, false, if◌then◌else◌, length, take, drop,
}

-- The length of a packet and of its header; `short` where the loop breaks for more bytes.
pub data Header : Type 0 where
  short : Header
  unknown_size : ℕ → Header
  sized : ℕ → ℕ → Header

abbrev pub u16_be : ℕ → ℕ → ℕ
u16_be a b = a * 256 + b

abbrev pub u32_be : ℕ → ℕ → ℕ → ℕ → ℕ
u32_be a b c d = ((a * 256 + b) * 256 + c) * 256 + d

header_8 : List ℕ → Header
header_8 [] = short
header_8 (a ∷ rest) = sized a 2

header_16 : List ℕ → Header
header_16 (a ∷ b ∷ rest) = sized (u16_be a b) 3
header_16 _ = short

header_32 : List ℕ → Header
header_32 (a ∷ b ∷ c ∷ d ∷ rest) = sized (u32_be a b c d) 5
header_32 _ = short

-- `firstByte & 31` is the remainder by 32.
pub read_header : ℕ → List ℕ → Header
unfolding header_8 header_16 header_32
read_header first rest =
    let info = first % 32 in
    if ltb info 24
    then sized info 1
    else if info == 24
    then header_8 rest
    else if info == 25
    then header_16 rest
    else if info == 26
    then header_32 rest
    else unknown_size info

-- One round of the loop on the bytes from `offset` on: the packet and what follows it.
pub data Next : Type 0 where
  wait : Next
  unknown : ℕ → Next
  packet : List ℕ → List ℕ → Next

pub cut : Header → List ℕ → Next
cut short buffer = wait
cut (unknown_size info) buffer = unknown info
cut (sized len header) buffer =
    if ltb (length buffer) (len + header)
    then wait
    else packet (take len (drop header buffer)) (drop len (drop header buffer))

pub next : List ℕ → Next
unfolding read_header cut
next [] = wait
next (first ∷ rest) = cut (read_header first rest) (first ∷ rest)

-- What the loop pushed, the bytes that it did not consume, and the error that it threw.
pub record Scanned : Type 0 where
  pub packets : List (List ℕ)
  pub rest : List ℕ
  pub thrown : Option ℕ

-- The loop of `_transform`. A round consumes a byte at least, so the buffer's length is fuel enough.
pub scan : ℕ → List ℕ → Scanned
scan zero buffer = record { packets = []; rest = buffer; thrown = none }
scan (suc fuel) buffer = elim (next buffer) [
  | wait ↦ record { packets = []; rest = buffer; thrown = none }
  | unknown info ↦ record { packets = []; rest = buffer; thrown = some info }
  | packet payload rest ↦
      let s = scan fuel rest in
      record { packets = payload ∷ s.packets; rest = s.rest; thrown = s.thrown }
]

-- The stream: the buffer kept between chunks. An error leaves it as it was joined, unsliced.
abbrev kept : List ℕ → Scanned → List ℕ
kept joined s = elim s.thrown [ none ↦ s.rest | some info ↦ joined ]

unfoldable pub transform : List ℕ → List ℕ → Scanned
unfolding scan
transform buffer chunk =
    let joined = buffer ++ chunk in
    let s = scan (length joined) joined in record s { rest = kept joined s }

-- What a chunk brings, and then what the later chunks bring, unless an error was thrown.
pub join : Scanned → Scanned → Scanned
join s later = elim s.thrown [
  | none ↦ record { packets = s.packets ++ later.packets; rest = later.rest; thrown = later.thrown }
  | some info ↦ s
]

-- A stream of chunks, up to the first error.
pub feed : List ℕ → List (List ℕ) → Scanned
unfolding join
feed buffer [] = record { packets = []; rest = buffer; thrown = none }
feed buffer (chunk ∷ chunks) =
    let s = transform buffer chunk in let later = feed s.rest chunks in join s later

-- The header for a length; `none` where `encodePeerPacket` throws.
pub packet_header : ℕ → Option (List ℕ)
packet_header n =
    if ltb n 24
    then some (n ∷ [])
    else if leb n 255
    then some (24 ∷ n ∷ [])
    else if leb n (2 ^ 16 - 1)
    then some (25 ∷ (n / 2 ^ 8) ∷ (n % 2 ^ 8) ∷ [])
    else if leb n (2 ^ 32 - 1)
    then some (26 ∷ (n / 2 ^ 24) ∷ (n / 2 ^ 16 % 2 ^ 8) ∷ (n / 2 ^ 8 % 2 ^ 8) ∷ (n % 2 ^ 8) ∷ [])
    else none

-- `encodePeerPacket`, on the encoded message.
unfoldable pub encode_packet : List ℕ → Option (List ℕ)
unfolding packet_header
encode_packet encoded = elim (packet_header (length encoded)) [
  | none ↦ none
  | some header ↦ some (header ++ encoded)
]
