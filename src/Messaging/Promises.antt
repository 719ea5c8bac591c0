-- ===== src/Messaging/Promises.antt =====
-- The promises of the messages that are sent, over a history.
use ataraxia.Base.{
  ℕ, ◌+◌, ◌<◌, ◌≤◌, ◌≡◌, refl, ◌∙◌, ltb, List, [], ◌∷◌, ◌++◌, nat_eq, true, false, arith,
  Bool-cases, inl, inr,
}
use ataraxia.Map
use ataraxia.Map.{Map}
use ataraxia.Messaging.Defs.{Messaging, Effect, Routes, create, Event, sending_fails, step, run}
use ataraxia.Messaging.Settling.{
  one_if, times, times-append, waits, IsFresh, is_failure, step-Settles,
}

-- What holds of a message at any time of a history.
record InHistory (id : ℕ) (s : Messaging × List Effect) : Type 0 where
  fresh : IsFresh s.0
  once : times id s.1 + one_if (waits id s.0) ≤ 1
  new : s.0.id_counter ≤ id → times id s.1 ≡ 0

module _ (id : ℕ) where
  step-InHistory :
      (routes : Routes) (e : Event) (s : Messaging × List Effect)
      → InHistory id s
      → InHistory id ((step routes e s.0).0, s.1 ++ (step routes e s.0).1)
  step-InHistory routes e s h =
      let k = step-Settles id s.0 h.fresh routes e in
      let sum = times-append id s.1 (step routes e s.0).1 in
      record {
        fresh = k.fresh;
        once = elim (Bool-cases (ltb id s.0.id_counter)) [
          | inl old ↦ ground (arith, k.exact, h.once, sum)
          | inr young ↦ ground (arith, k.new, h.new, sum)
        ];
        new = λ young.
            omega (arith, k.new (omega (arith, k.grows)), h.new (omega (arith, k.grows)), sum);
      }

  run-InHistory :
      (events : List (Routes × Event)) (s : Messaging × List Effect)
      → InHistory id s
      → InHistory id (run events s)
  unfolding run
  run-InHistory [] s h = h
  run-InHistory ((routes, e) ∷ events) s h = run-InHistory events _ (step-InHistory routes e s h)

  create-InHistory : InHistory id (create, [])
  unfolding create Map.get
  create-InHistory = record { fresh = λ i young. refl; once = omega arith; new = λ young. refl }

  -- In no history of a new instance is the promise of a message settled twice, or settled while the
  -- message still waits.
  pub run_at_most_once :
      (events : List (Routes × Event))
      → let s = run events (create, []) in times id s.1 + one_if (waits id s.0) ≤ 1
  run_at_most_once events = (run-InHistory events (create, []) create-InHistory).once

  abbrev pub NoFailure : List (Routes × Event) → Type 0
  NoFailure [] = Unit
  NoFailure ((routes, e) ∷ events) = (is_failure id e ≡ false) × NoFailure events

  -- As long as sending a message does not fail, it waits until its promise is settled: a message
  -- that waits at the start of a history waits at its end, or its promise has been settled once.
  pub run_kept :
      (events : List (Routes × Event)) (m : Messaging) (log : List Effect)
      → IsFresh m
      → id < m.id_counter
      → NoFailure events
      → let s = run events (m, log) in
        times id s.1 + one_if (waits id s.0) ≡ times id log + one_if (waits id m)
  unfolding run
  run_kept [] m log f old n = refl
  run_kept ((routes, e) ∷ events) m log f old n =
      let k = step-Settles id m f routes e in
      let m' = (step routes e m).0 in
      let more = (step routes e m).1 in
      let rest = run_kept events m' (log ++ more) k.fresh (omega (arith, k.grows)) n.1 in
      let now : times id more + one_if (waits id m') ≡ one_if (waits id m) =
        ground (arith, k.exact old, n.0) in
      omega (arith, rest, now, times-append id log more)

  -- A message that does not wait any more is not settled later.
  run_over :
      (events : List (Routes × Event)) (m : Messaging) (log : List Effect)
      → IsFresh m
      → id < m.id_counter
      → waits id m ≡ false
      → times id (run events (m, log)).1 ≡ times id log
  unfolding run
  run_over [] m log f old w = refl
  run_over ((routes, e) ∷ events) m log f old w =
      let k = step-Settles id m f routes e in
      let m' = (step routes e m).0 in
      let more = (step routes e m).1 in
      let w' : waits id m' ≡ false = ground (arith, k.exact old) in
      let none_now : times id more ≡ 0 = ground (arith, k.exact old) in
      omega (
        arith,
        run_over events m' (log ++ more) k.fresh (omega (arith, k.grows)) w',
        none_now,
        times-append id log more,
      )

  -- When the peer cannot take a message that waits, the message is dropped and its promise is
  -- settled neither then nor at any later time, whatever happens.
  pub send_failed_never_settled :
      (events : List (Routes × Event)) (routes : Routes) (m : Messaging)
      → IsFresh m
      → waits id m ≡ true
      → times id (run ((routes, sending_fails id) ∷ events) (m, [])).1 ≡ 0
  unfolding run
  send_failed_never_settled events routes m f w =
      let k = step-Settles id m f routes (sending_fails id) in
      let old : id < m.id_counter = ground (arith, f id) in
      let failed = step routes (sending_fails id) m in
      let gone : waits id failed.0 ≡ false = ground (arith, k.exact old) in
      let quiet_now : times id failed.1 ≡ 0 = ground (arith, k.exact old) in
      run_over events failed.0 failed.1 k.fresh (omega (arith, k.grows)) gone ∙ quiet_now
