-- ===== src/BackOff.antt =====
-- packages/transport/src/BackOff.ts: the delays between attempts.
pub mod Delays
mod Tests
use ataraxia.Base.{
  ℕ, zero, suc, ◌+◌, ◌*◌, Option, none, some, Bool, true, false, List, [], ◌∷◌, leb, nat_eq,
  if◌then◌else◌,
}

pub record BackOff : Type 0 where
  pub max_delay : ℕ
  pub initial_delay : ℕ
  pub max_jitter : ℕ
  pub attempt : ℕ
  pub next_delay : ℕ

unfoldable pub create : ℕ → ℕ → Option ℕ → BackOff
create delay max_delay max_jitter = record {
  max_delay = max_delay;
  initial_delay = delay;
  max_jitter = elim max_jitter [ none ↦ 100 | some j ↦ j ];
  attempt = 0;
  next_delay = 0;
}

unfoldable pub reset : BackOff → BackOff
reset b = record b { attempt = 0 }

-- The delay after the one that is given out.
unfoldable pub grow : BackOff → ℕ
grow b =
    if nat_eq.beq b.attempt 0
    then b.initial_delay
    else if leb b.max_delay (b.next_delay * 2)
    then b.max_delay
    else b.next_delay * 2

-- `nextDelay`; `jitter` is `Math.floor(this.maxJitter * Math.random())`.
unfoldable pub take_delay : ℕ → BackOff → ℕ × BackOff
unfolding grow
take_delay jitter b =
    (b.next_delay + jitter, record b { attempt = b.attempt + 1; next_delay = grow b })

-- Attempts one after the other, each with its jitter, and the object after them.
unfoldable pub attempts : List ℕ → BackOff → BackOff
unfolding take_delay
attempts [] b = b
attempts (jitter ∷ jitters) b = attempts jitters (take_delay jitter b).1
