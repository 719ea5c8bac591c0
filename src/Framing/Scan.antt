-- ===== src/Framing/Scan.antt =====
-- The packets that stand on a byte string, as a relation, and the loop that finds them.
use ataraxia.Base.{
  ℕ, zero, suc, ◌+◌, ◌≤◌, ◌<◌, ◌≡◌, refl, sym, ap, ap₂, ◌⊎◌, ◌∙◌, ◌≢◌, none, List, [], ◌∷◌, ◌++◌,
  inl, inr, length, take, drop, arith, length-append, length-drop, take-append_le, drop-append_le,
}
use ataraxia.Framing.{
  Header, short, unknown_size, sized, read_header, Next, wait, unknown, packet, cut, next, Scanned,
  scan,
}

-- `Reads buffer packets rest`: the packets lie on the buffer one after the other, and then `rest`,
-- on which no packet is complete yet.
pub data Reads : List ℕ → List (List ℕ) → List ℕ → Type 0 where
  stop : {buffer : List ℕ} → next buffer ≡ wait → Reads buffer [] buffer
  read :
      {buffer rest end : List ℕ} {payload : List ℕ} {packets : List (List ℕ)}
      → next buffer ≡ packet payload rest
      → Reads rest packets end
      → Reads buffer (payload ∷ packets) end

read_header-append :
    (first : ℕ) (rest more : List ℕ) (len header : ℕ)
    → read_header first rest ≡ sized len header
    → read_header first (rest ++ more) ≡ sized len header
unfolding read_header
read_header-append first [] more len header h = ground arith
read_header-append first (a ∷ []) more len header h = ground arith
read_header-append first (a ∷ b ∷ []) more len header h = ground arith
read_header-append first (a ∷ b ∷ c ∷ []) more len header h = ground arith
read_header-append first (a ∷ b ∷ c ∷ d ∷ rest) more len header h = ground arith

read_header_unknown :
    (first : ℕ) (rest more : List ℕ) (info : ℕ)
    → read_header first rest ≡ unknown_size info
    → read_header first (rest ++ more) ≡ unknown_size info
unfolding read_header
read_header_unknown first [] more info h = ground arith
read_header_unknown first (a ∷ []) more info h = ground arith
read_header_unknown first (a ∷ b ∷ []) more info h = ground arith
read_header_unknown first (a ∷ b ∷ c ∷ []) more info h = ground arith
read_header_unknown first (a ∷ b ∷ c ∷ d ∷ rest) more info h = ground arith

-- A header is at least one byte long.
read_header_pos :
    (first : ℕ) (rest : List ℕ) (len header : ℕ)
    → read_header first rest ≡ sized len header
    → 0 < header
unfolding read_header
read_header_pos first [] len header h = ground arith
read_header_pos first (a ∷ []) len header h = ground arith
read_header_pos first (a ∷ b ∷ []) len header h = ground arith
read_header_pos first (a ∷ b ∷ c ∷ []) len header h = ground arith
read_header_pos first (a ∷ b ∷ c ∷ d ∷ rest) len header h = ground arith

-- What a packet that is found says of the buffer.
record Cut (buffer payload rest : List ℕ) (h : Header) : Type 0 where
  len : ℕ
  header : ℕ
  is_sized : h ≡ sized len header
  fits : len + header ≤ length buffer
  is_payload : payload ≡ take len (drop header buffer)
  is_rest : rest ≡ drop len (drop header buffer)

cut-Cut :
    (h : Header) (buffer payload rest : List ℕ)
    → cut h buffer ≡ packet payload rest
    → Cut buffer payload rest h
unfolding cut
cut-Cut short buffer payload rest e = cc
cut-Cut (unknown_size info) buffer payload rest e = cc
cut-Cut (sized len header) buffer payload rest e = record {
  len = len;
  header = header;
  is_sized = refl;
  fits = ground arith;
  is_payload = ground arith;
  is_rest = ground arith;
}

pub cut_sized :
    (len header : ℕ) (buffer : List ℕ)
    → len + header ≤ length buffer
    → cut (sized len header) buffer
      ≡ packet (take len (drop header buffer)) (drop len (drop header buffer))
unfolding cut
cut_sized len header buffer h = ground arith

cut_unknown :
    (h : Header) (buffer : List ℕ) (info : ℕ) → cut h buffer ≡ unknown info → h ≡ unknown_size info
unfolding cut
cut_unknown short buffer info e = cc
cut_unknown (unknown_size i) buffer info e = cc
cut_unknown (sized len header) buffer info e = ground arith

-- More bytes behind a complete packet do not change it.
pub next-append :
    (buffer more payload rest : List ℕ)
    → next buffer ≡ packet payload rest
    → next (buffer ++ more) ≡ packet payload (rest ++ more)
unfolding next
next-append [] more payload rest e = cc
next-append (first ∷ tail) more payload rest e =
    let buffer = first ∷ tail in
    let c = cut-Cut (read_header first tail) buffer payload rest e in
    let room : c.len ≤ length (drop c.header buffer) =
      omega (arith, c.fits, length-drop c.header buffer) in
    let dropped : drop c.header (buffer ++ more) ≡ drop c.header buffer ++ more =
      drop-append_le c.header buffer more (omega (arith, c.fits)) in
    rw (read_header-append first tail more c.len c.header c.is_sized) (
      cut_sized c.len c.header (buffer ++ more) (omega (arith, c.fits, length-append buffer more))
      ∙ ap₂ packet
          (ap (take c.len) dropped
            ∙ take-append_le c.len (drop c.header buffer) more room
            ∙ sym c.is_payload)
          (ap (drop c.len) dropped
            ∙ drop-append_le c.len (drop c.header buffer) more room
            ∙ ap (λ l. l ++ more) (sym c.is_rest)))

pub next-append_unknown :
    (buffer more : List ℕ) (info : ℕ)
    → next buffer ≡ unknown info
    → next (buffer ++ more) ≡ unknown info
unfolding next
next-append_unknown [] more info e = cc
next-append_unknown (first ∷ tail) more info e =
    let h = cut_unknown (read_header first tail) (first ∷ tail) info e in
    rw (read_header_unknown first tail more info h) (unfold cut in refl)

-- A packet takes a byte at least.
pub next-shorter :
    (buffer payload rest : List ℕ) → next buffer ≡ packet payload rest → length rest < length buffer
unfolding next
next-shorter [] payload rest e = cc
next-shorter (first ∷ tail) payload rest e =
    let c = cut-Cut (read_header first tail) (first ∷ tail) payload rest e in
    omega (
      arith,
      c.fits,
      read_header_pos first tail c.len c.header c.is_sized,
      ap length c.is_rest,
      length-drop c.len (drop c.header (first ∷ tail)),
      length-drop c.header (first ∷ tail),
    )

pub next-nil : next [] ≡ wait
unfolding next
next-nil = refl

scan_unknown :
    (fuel : ℕ) (buffer : List ℕ) (info : ℕ)
    → next buffer ≡ unknown info
    → (scan (suc fuel) buffer).thrown ≢ none
unfolding scan
scan_unknown fuel buffer info u e = let e' = rw (u, scan) at e in cc

scan_wait :
    (fuel : ℕ) (buffer : List ℕ)
    → next buffer ≡ wait
    → scan fuel buffer ≡ record { packets = []; rest = buffer; thrown = none }
unfolding scan
scan_wait zero buffer e = refl
scan_wait (suc fuel) buffer e = rw (e, scan)

scan_packet :
    (fuel : ℕ) (buffer payload rest : List ℕ)
    → next buffer ≡ packet payload rest
    → scan (suc fuel) buffer ≡ record {
      packets = payload ∷ (scan fuel rest).packets;
      rest = (scan fuel rest).rest;
      thrown = (scan fuel rest).thrown;
    }
unfolding scan
scan_packet fuel buffer payload rest e = rw (e, scan)

-- The loop finds the packets that lie on the buffer,
pub scan_of_Reads :
    {buffer rest : List ℕ} {packets : List (List ℕ)}
    → Reads buffer packets rest
    → (fuel : ℕ) → length buffer ≤ fuel
    → scan fuel buffer ≡ record { packets = packets; rest = rest; thrown = none }
scan_of_Reads (stop {buffer = b} e) fuel h = scan_wait fuel b e
scan_of_Reads (read {buffer = b} {rest = r} {payload = p} e more) zero h =
    absurd (omega (arith, next-shorter b p r e))
scan_of_Reads (read {buffer = b} {rest = r} {payload = p} e more) (suc fuel) h =
    let later = scan_of_Reads more fuel (omega (arith, next-shorter b p r e)) in
    scan_packet fuel b p r e
    ∙ ap
        (λ (s : Scanned).
          let t : Scanned = record { packets = p ∷ s.packets; rest = s.rest; thrown = s.thrown } in
          t)
        later

pub Next-cases :
    (n : Next)
    → (n ≡ wait)
      ⊎ ((info : ℕ) × (n ≡ unknown info))
      ⊎ ((payload : List ℕ) × (rest : List ℕ) × (n ≡ packet payload rest))
Next-cases wait = inl refl
Next-cases (unknown info) = inr (inl (info, refl))
Next-cases (packet payload rest) = inr (inr (payload, rest, refl))

-- and throws, or finds nothing else.
pub scan-Reads :
    (fuel : ℕ) (buffer : List ℕ)
    → length buffer ≤ fuel
    → (scan fuel buffer).thrown ≡ none
    → Reads buffer (scan fuel buffer).packets (scan fuel buffer).rest
unfolding scan
scan-Reads zero [] h e = stop next-nil
scan-Reads zero (a ∷ buffer) h e = absurd (omega arith)
scan-Reads (suc fuel) buffer h e = elim (Next-cases (next buffer)) [
  | inl w ↦ rw (scan_wait (suc fuel) buffer w) (stop w)
  | inr (inl (info, u)) ↦ absurd (scan_unknown fuel buffer info u e)
  | inr (inr (p, r, q)) ↦ rw (scan_packet fuel buffer p r q) (
      read q (
        scan-Reads fuel r (omega (arith, next-shorter buffer p r q))
          (rw (scan_packet fuel buffer p r q) at e)))
]
