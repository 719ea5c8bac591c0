-- ===== src/BackOff/Delays.antt =====
-- The delays in closed form, and what a reset leaves of them.
use ataraxia.Base.{
  ℕ, suc, ◌+◌, ◌*◌, ◌^◌, ◌≤◌, ◌≡◌, min, refl, sym, ap, ap₂, subst, ◌∙◌, Option, List, [], ◌∷◌,
  nat_eq, length, arith,
}
use native.Mathlib.Nat.{mul_assoc, pow-suc}
use ataraxia.BackOff.{BackOff, create, reset, grow, take_delay, attempts}

-- A back-off that has given out some delays, the first without one.
record HasGrown (delay max_delay k : ℕ) (b : BackOff) : Type 0 where
  initial : b.initial_delay ≡ delay
  most : b.max_delay ≡ max_delay
  tried : 1 ≤ b.attempt
  next : b.next_delay ≡ min max_delay (delay * 2 ^ k)

grow-double :
    (x : ℕ) (b : BackOff)
    → 1 ≤ b.attempt
    → b.next_delay ≡ min b.max_delay x
    → grow b ≡ min b.max_delay (x * 2)
unfolding grow
grow-double x b h e = ground (arith, h, e)

times_two : (delay k : ℕ) → delay * 2 ^ k * 2 ≡ delay * 2 ^ suc k
times_two delay k = mul_assoc delay (2 ^ k) 2 ∙ ap (λ p. delay * p) (sym (pow-suc 2 k))

take_delay-HasGrown :
    (delay max_delay k jitter : ℕ) (b : BackOff)
    → HasGrown delay max_delay k b
    → HasGrown delay max_delay (suc k) (take_delay jitter b).1
unfolding take_delay
take_delay-HasGrown delay max_delay k jitter b h = record {
  initial = h.initial;
  most = h.most;
  tried = omega arith;
  next =
      grow-double (delay * 2 ^ k) b h.tried (h.next ∙ ap (λ d. min d (delay * 2 ^ k)) (sym h.most))
      ∙ ap₂ min h.most (times_two delay k);
}

attempts-HasGrown :
    (delay max_delay k : ℕ) (jitters : List ℕ) (b : BackOff)
    → HasGrown delay max_delay k b
    → HasGrown delay max_delay (length jitters + k) (attempts jitters b)
unfolding attempts
attempts-HasGrown delay max_delay k [] b h =
    subst (λ n. HasGrown delay max_delay n b) (omega arith) h
attempts-HasGrown delay max_delay k (jitter ∷ jitters) b h =
    let e : length jitters + suc k ≡ suc (length jitters) + k = omega arith in
    subst (λ n. HasGrown delay max_delay n (attempts jitters (take_delay jitter b).1)) e
      (attempts-HasGrown delay max_delay (suc k) jitters (take_delay jitter b).1
        (take_delay-HasGrown delay max_delay k jitter b h))

created :
    (delay max_delay jitter : ℕ) (max_jitter : Option ℕ)
    → delay ≤ max_delay
    → HasGrown delay max_delay 0 (take_delay jitter (create delay max_delay max_jitter)).1
unfolding take_delay create grow
created delay max_delay jitter max_jitter h = record {
  initial = refl;
  most = refl;
  tried = omega arith;
  next = omega (arith, h);
}

-- With a first delay of at most the largest: after the first attempt, which waits for its jitter
-- only, the delay is the first one, doubled at each attempt that follows, and never above the
-- largest; the jitter comes on top of that.
pub delay_closed :
    (delay max_delay first next : ℕ) (max_jitter : Option ℕ) (jitters : List ℕ)
    → delay ≤ max_delay
    → let fresh = create delay max_delay max_jitter in
      ((take_delay first fresh).0 ≡ first)
      × ((take_delay next (attempts (first ∷ jitters) fresh)).0
          ≡ min max_delay (delay * 2 ^ length jitters) + next)
unfolding take_delay create attempts
delay_closed delay max_delay first next max_jitter jitters h =
    let b = (take_delay first (create delay max_delay max_jitter)).1 in
    let g =
      attempts-HasGrown delay max_delay 0 jitters b (created delay max_delay first max_jitter h) in
    let z : length jitters + 0 ≡ length jitters = omega arith in
    (omega arith, ap (λ d. d + next) (g.next ∙ ap (λ k. min max_delay (delay * 2 ^ k)) z))

-- With a first delay of at most the largest: a reset after some attempts forgets their number, but
-- not the delay. The first attempt after it waits as long as the next one would have without it,
-- and the one after that waits for the first delay.
pub delay_reset :
    (delay max_delay first next later : ℕ) (max_jitter : Option ℕ) (jitters : List ℕ)
    → delay ≤ max_delay
    → let b = reset (attempts (first ∷ jitters) (create delay max_delay max_jitter)) in
      ((take_delay next b).0 ≡ min max_delay (delay * 2 ^ length jitters) + next)
      × ((take_delay later (take_delay next b).1).0 ≡ delay + later)
unfolding take_delay create attempts reset grow
delay_reset delay max_delay first next later max_jitter jitters h =
    let b = (take_delay first (create delay max_delay max_jitter)).1 in
    let g =
      attempts-HasGrown delay max_delay 0 jitters b (created delay max_delay first max_jitter h) in
    let z : length jitters + 0 ≡ length jitters = omega arith in
    (
      ap (λ d. d + next) (g.next ∙ ap (λ k. min max_delay (delay * 2 ^ k)) z),
      ap (λ d. d + later) g.initial,
    )
