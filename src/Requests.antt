-- ===== src/Requests.antt =====
-- packages/core/src/RequestReplyHelper.ts: requests and replies matched by a number.
pub mod Settling
mod Tests
use ataraxia.Base.{
  ℕ, suc, ◌+◌, ◌≡◌, Option, none, some, Bool, List, [], ◌∷◌, ◌++◌, nat_eq, true, false,
}
use ataraxia.Map
use ataraxia.Map.{Map}

pub data Failure : Type 0 where
  timed_out : Failure
  given : Option ℕ → Failure

pub data Outcome (R : Type 0) : Type 0 where
  resolved : R → Outcome R
  rejected : Failure → Outcome R

-- A helper. The promise of a request goes by the request's number, and so does its timer: `timers`
-- holds the delays of the timers that have neither fired nor been cleared. `settled` is the log of
-- the calls of `resolve` and `reject`, the last call first.
pub record Helper (R : Type 0) : Type 0 where
  pub default_timeout : ℕ
  pub pending : Map ℕ (Unit {0})
  pub id_counter : ℕ
  pub timers : Map ℕ ℕ
  pub settled : List (ℕ × Outcome R)

abbrev pub or_default : Option ℕ → ℕ → ℕ
or_default none d = d
or_default (some t) d = t

module _ {R : Type 0} where
  pub create : Option ℕ → Helper R
  create timeout = record {
    default_timeout = or_default timeout 30000;
    pending = [];
    id_counter = 0;
    timers = [];
    settled = [];
  }

  pub release_id : ℕ → Helper R → Helper R
  release_id id h = elim (Map.get id h.pending) [
    | none ↦ h
    | some _ ↦ record h { pending = Map.delete id h.pending; timers = Map.delete id h.timers }
  ]

  pub prepare_request : Option ℕ → Helper R → ℕ × Helper R
  prepare_request timeout h = (
    h.id_counter,
    record h {
      id_counter = h.id_counter + 1;
      pending = Map.set h.id_counter tt h.pending;
      timers = Map.set h.id_counter (or_default timeout h.default_timeout) h.timers;
    },
  )

  abbrev settle : ℕ → Outcome R → Helper R → Helper R
  settle id outcome h = record h { settled = (id, outcome) ∷ h.settled }

  pub register_reply : ℕ → R → Helper R → Helper R
  unfolding release_id
  register_reply id result h = elim (Map.get id h.pending) [
    | none ↦ h
    | some _ ↦ settle id (resolved result) (release_id id h)
  ]

  pub register_error : ℕ → Failure → Helper R → Helper R
  unfolding release_id
  register_error id error h = elim (Map.get id h.pending) [
    | none ↦ h
    | some _ ↦ settle id (rejected error) (release_id id h)
  ]

  -- The timer of a request goes off, if it is running.
  pub fire : ℕ → Helper R → Helper R
  unfolding register_error
  fire id h = elim (Map.get id h.timers) [
    | none ↦ h
    | some _ ↦ register_error id timed_out (record h { timers = Map.delete id h.timers })
  ]

-- What can happen to a helper.
pub data Call (R : Type 0) : Type 0 where
  prepare : Option ℕ → Call R
  reply : ℕ → R → Call R
  error : ℕ → Option ℕ → Call R
  timer : ℕ → Call R

module _ {R : Type 0} where
  pub step : Call R → Helper R → Helper R
  unfolding prepare_request register_reply register_error fire
  step (prepare timeout) h = (prepare_request timeout h).1
  step (reply id result) h = register_reply id result h
  step (error id e) h = register_error id (given e) h
  step (timer id) h = fire id h

  pub run : List (Call R) → Helper R → Helper R
  unfolding step
  run [] h = h
  run (c ∷ calls) h = run calls (step c h)
