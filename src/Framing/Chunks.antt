-- ===== src/Framing/Chunks.antt =====
-- Streams that are cut into chunks in different ways.
use ataraxia.Base.{
  ℕ, ◌≡◌, refl, sym, ap, ap₂, ◌∙◌, none, some, List, [], ◌∷◌, ◌++◌, inl, inr, length, arith,
  append_assoc, append-nil, concat, subst,
}
use ataraxia.Framing.{wait, packet, next, Scanned, transform, feed, join}
use ataraxia.Framing.Scan.{
  Reads, stop, read, next-append, next-append_unknown, Next-cases, scan_of_Reads,
}

-- The packets on `front ++ back` are those on `front`, and then those on what they leave of it
-- followed by `back`.
record Split (front back : List ℕ) (packets : List (List ℕ)) (end : List ℕ) : Type 0 where
  first : List (List ℕ)
  later : List (List ℕ)
  left : List ℕ
  on_front : Reads front first left
  on_rest : Reads (left ++ back) later end
  joined : packets ≡ first ++ later

Split-read :
    (front back rest payload : List ℕ) {packets : List (List ℕ)} {end : List ℕ}
    → next front ≡ packet payload rest
    → Split rest back packets end
    → Split front back (payload ∷ packets) end
Split-read front back rest payload e s = record {
  first = payload ∷ s.first;
  later = s.later;
  left = s.left;
  on_front = read e s.on_front;
  on_rest = s.on_rest;
  joined = ap (◌∷◌ payload) s.joined;
}

Reads-Split :
    {buffer : List ℕ} {packets : List (List ℕ)} {end : List ℕ} (front back : List ℕ)
    → buffer ≡ front ++ back
    → Reads buffer packets end
    → Split front back packets end
Reads-Split front back p (stop {buffer = b} e) = elim (Next-cases (next front)) [
  | inl w ↦ record {
    first = [];
    later = [];
    left = front;
    on_front = stop w;
    on_rest = subst (λ l. Reads l [] b) p (stop e);
    joined = refl;
  }
  | inr (inl (info, u)) ↦ let u' = next-append_unknown front back info u in let e' = ap next p in cc
  | inr (inr (q, r, f)) ↦ let f' = next-append front back q r f in let e' = ap next p in cc
]
Reads-Split front back p
      (read {buffer = b} {rest = r} {end = end} {payload = q} {packets = ps} e more) =
    elim (Next-cases (next front)) [
      | inl w ↦ record {
        first = [];
        later = q ∷ ps;
        left = front;
        on_front = stop w;
        on_rest = subst (λ l. Reads l (q ∷ ps) end) p (read e more);
        joined = refl;
      }
      | inr (inl (info, u)) ↦
          let u' = next-append_unknown front back info u in let e' = ap next p in cc
      | inr (inr (q', r', f)) ↦
          let f' = next-append front back q' r' f in
          let e' = ap next p in
          let same : q' ≡ q = cc in
          subst (λ z. Split front back (z ∷ ps) end) same
            (Split-read front back r' q' f (Reads-Split r' back (cc) more))
    ]

scanned : List (List ℕ) → List ℕ → Scanned
scanned packets rest = record { packets = packets; rest = rest; thrown = none }

transform_of_Reads :
    (buffer chunk : List ℕ) {packets : List (List ℕ)} {end : List ℕ}
    → Reads (buffer ++ chunk) packets end
    → transform buffer chunk ≡ scanned packets end
unfolding transform scanned
transform_of_Reads buffer chunk r =
    ap
      (λ (s : Scanned).
        let t : Scanned = record s {
          rest = elim s.thrown [ none ↦ s.rest | some info ↦ buffer ++ chunk ];
        } in
        t)
      (scan_of_Reads r (length (buffer ++ chunk)) (omega arith))

-- The bytes left hold no complete packet.
pub Reads-wait :
    {buffer : List ℕ} {packets : List (List ℕ)} {end : List ℕ}
    → Reads buffer packets end
    → next end ≡ wait
Reads-wait (stop e) = e
Reads-wait (read e more) = Reads-wait more

Reads-of_wait :
    {buffer : List ℕ} {packets : List (List ℕ)} {end : List ℕ}
    → next buffer ≡ wait
    → Reads buffer packets end
    → (packets ≡ []) × (end ≡ buffer)
Reads-of_wait w (stop e) = (refl, refl)
Reads-of_wait w (read e more) = cc

feed_step :
    (buffer chunk : List ℕ) (chunks : List (List ℕ)) (first later : List (List ℕ))
    (left end : List ℕ)
    → transform buffer chunk ≡ scanned first left
    → feed left chunks ≡ scanned later end
    → feed buffer (chunk ∷ chunks) ≡ scanned (first ++ later) end
unfolding feed scanned
feed_step buffer chunk chunks first later left end p q =
    ap (λ (s : Scanned). join s (feed s.rest chunks)) p ∙ ap (join (scanned first left)) q

-- A stream that carries the packets of a byte string puts them out, however it is cut into chunks:
-- if `packets` and then an incomplete rest `end` lie on the bytes kept and those of the chunks, then
-- these packets are put out, `end` is kept, and nothing is thrown.
pub feed_of_Reads :
    (chunks : List (List ℕ)) (buffer : List ℕ) {packets : List (List ℕ)} {end : List ℕ}
    → next buffer ≡ wait
    → Reads (buffer ++ concat chunks) packets end
    → feed buffer chunks ≡ record { packets = packets; rest = end; thrown = none }
unfolding feed scanned
feed_of_Reads [] buffer {packets} {end} w r =
    let e = Reads-of_wait w (subst (λ b. Reads b packets end) (append-nil buffer) r) in
    ap₂ scanned (sym e.0) (sym e.1)
feed_of_Reads (chunk ∷ chunks) buffer {end} w r =
    let s =
      Reads-Split (buffer ++ chunk) (concat chunks)
        (sym (append_assoc buffer chunk (concat chunks))) r in
    feed_step buffer chunk chunks s.first s.later s.left end
      (transform_of_Reads buffer chunk s.on_front)
      (feed_of_Reads chunks s.left (Reads-wait s.on_front) s.on_rest)
    ∙ ap (λ ps. scanned ps end) (sym s.joined)
