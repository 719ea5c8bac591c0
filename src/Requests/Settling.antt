-- ===== src/Requests/Settling.antt =====
-- The promises and timers of the requests.
use ataraxia.Base.{
  ℕ, ◌+◌, ◌≡◌, refl, sym, subst, Option, some, Bool, List, [], ◌∷◌, nat_eq, true, false, ltb, ◌==◌,
  if◌then◌else◌, arith, Option-cases, inl, inr,
}
use ataraxia.Map
use ataraxia.Map.{Map}
use ataraxia.Requests.{
  Failure, timed_out, given, Outcome, resolved, rejected, Helper, create, release_id,
  prepare_request, register_reply, register_error, fire, or_default, Call, prepare, reply, error,
  timer, step, run,
}

abbrev pub one_if : Bool → ℕ
one_if true = 1
one_if false = 0

module _ {R : Type 0} where
  -- How often the promise of a request has been settled.
  abbrev pub times : ℕ → List (ℕ × Outcome R) → ℕ
  times id [] = 0
  times id ((j, o) ∷ log) = one_if (j == id) + times id log

  -- Every request that was handed out waits, with its timer running, or has been settled once;
  -- no other number waits or is settled.
  pub record IsValid (h : Helper R) : Type 0 where
    pub once :
        (id : ℕ) → times id h.settled + one_if (Map.has id h.pending) ≡ one_if (ltb id h.id_counter)
    pub timed : (id : ℕ) → Map.has id h.timers ≡ Map.has id h.pending

  create-IsValid : (timeout : Option ℕ) → IsValid (create timeout)
  unfolding create Map.has Map.get
  create-IsValid timeout = record { once = λ id. ground arith; timed = λ id. refl }

  prepare_request-IsValid :
      (timeout : Option ℕ) (h : Helper R) → IsValid h → IsValid (prepare_request timeout h).1
  unfolding prepare_request
  prepare_request-IsValid timeout h v = record {
    once = λ id. ground (arith, v.once id, Map.has-set h.id_counter id tt h.pending);
    timed = λ id. ground (
      arith,
      v.timed id,
      Map.has-set h.id_counter id tt h.pending,
      Map.has-set h.id_counter id (or_default timeout h.default_timeout) h.timers,
    );
  }

  release_id-some :
      (id : ℕ) (h : Helper R) (u : Unit {0})
      → Map.get id h.pending ≡ some u
      → release_id id h
        ≡ record h { pending = Map.delete id h.pending; timers = Map.delete id h.timers }
  unfolding release_id
  release_id-some id h u e = rw (e, release_id)

  register_error-some :
      (id : ℕ) (failure : Failure) (h : Helper R) (u : Unit {0})
      → Map.get id h.pending ≡ some u
      → register_error id failure h ≡ record h {
        pending = Map.delete id h.pending;
        timers = Map.delete id h.timers;
        settled = (id, rejected failure) ∷ h.settled;
      }
  unfolding register_error release_id
  register_error-some id failure h u e = ground (arith, e)

  -- Settling a request that waits, and stopping its timer.
  settled_once :
      (id : ℕ) (o : Outcome R) (timers : Map ℕ ℕ) (h : Helper R)
      → IsValid h
      → Map.has id h.pending ≡ true
      → ((j : ℕ) → Map.has j timers ≡ (if id == j then false else Map.has j h.timers))
      → IsValid (record h {
        pending = Map.delete id h.pending;
        timers = timers;
        settled = (id, o) ∷ h.settled;
      })
  settled_once id o timers h v e t = record {
    once = λ j. ground (arith, v.once j, v.once id, Map.has-delete id j h.pending);
    timed = λ j. ground (arith, v.timed j, Map.has-delete id j h.pending, t j);
  }

  register_reply-IsValid :
      (id : ℕ) (result : R) (h : Helper R) → IsValid h → IsValid (register_reply id result h)
  unfolding register_reply
  register_reply-IsValid id result h v = elim (Option-cases (Map.get id h.pending)) [
    | inl e ↦ rw (e, register_reply) v
    | inr (u, e) ↦
        rw (e, register_reply, release_id-some id h u e)
          (settled_once id (resolved result) (Map.delete id h.timers) h v
            (Map.has_of_some id u h.pending e) (λ j. Map.has-delete id j h.timers))
  ]

  register_error-IsValid :
      (id : ℕ) (failure : Failure) (h : Helper R)
      → IsValid h
      → IsValid (register_error id failure h)
  unfolding register_error
  register_error-IsValid id failure h v = elim (Option-cases (Map.get id h.pending)) [
    | inl e ↦ rw (e, register_error) v
    | inr (u, e) ↦
        rw (e, register_error, release_id-some id h u e)
          (settled_once id (rejected failure) (Map.delete id h.timers) h v
            (Map.has_of_some id u h.pending e) (λ j. Map.has-delete id j h.timers))
  ]

  fire-IsValid : (id : ℕ) (h : Helper R) → IsValid h → IsValid (fire id h)
  unfolding fire register_error
  fire-IsValid id h v = elim (Option-cases (Map.get id h.timers)) [
    | inl e ↦ rw (e, fire) v
    | inr (t, e) ↦ elim (Option-cases (Map.get id h.pending)) [
      | inl p ↦
          let no_timer = Map.has_of_none id h.pending p in
          let running = Map.has_of_some id t h.timers e in let same = v.timed id in cc
      | inr (u, p) ↦
          rw (e, fire)
            (subst IsValid
              (sym (
                register_error-some id timed_out (record h { timers = Map.delete id h.timers }) u
                  p))
              (settled_once id (rejected timed_out) (Map.delete id (Map.delete id h.timers)) h v
                (Map.has_of_some id u h.pending p)
                (λ j. ground (
                  arith,
                  Map.has-delete id j h.timers,
                  Map.has-delete id j (Map.delete id h.timers),
                ))))
    ]
  ]

  step-IsValid : (c : Call R) (h : Helper R) → IsValid h → IsValid (step c h)
  unfolding step
  step-IsValid (prepare timeout) h v = prepare_request-IsValid timeout h v
  step-IsValid (reply id result) h v = register_reply-IsValid id result h v
  step-IsValid (error id e) h v = register_error-IsValid id (given e) h v
  step-IsValid (timer id) h v = fire-IsValid id h v

  run_from-IsValid : (calls : List (Call R)) (h : Helper R) → IsValid h → IsValid (run calls h)
  unfolding run
  run_from-IsValid [] h v = v
  run_from-IsValid (c ∷ calls) h v = run_from-IsValid calls (step c h) (step-IsValid c h v)

  -- Whatever replies, errors and timeouts come in whatever order: every request that was handed out
  -- either waits with its timer running, or its promise has been settled exactly once; a number that
  -- was not handed out neither waits nor has been settled; and a timer runs exactly for the
  -- requests that wait.
  pub run-IsValid :
      (timeout : Option ℕ) (calls : List (Call R)) → IsValid (run calls (create timeout))
  run-IsValid timeout calls = run_from-IsValid calls (create timeout) (create-IsValid timeout)

  -- Only the first answer to a request that waits counts: it settles the promise, and no later
  -- reply, error or timeout for the same number changes anything.
  pub first_answer :
      (id : ℕ) (result later : R) (e : Failure) (h : Helper R)
      → Map.has id h.pending ≡ true
      → let answered = register_reply id result h in
        (answered.settled ≡ (id, resolved result) ∷ h.settled)
        × (register_reply id later answered ≡ answered)
        × (register_error id e answered ≡ answered)
        × (fire id answered ≡ answered)
  unfolding register_reply register_error fire release_id
  first_answer id result later e h w = elim (Option-cases (Map.get id h.pending)) [
    | inl p ↦ let w' = Map.has_of_none id h.pending p in cc
    | inr (u, p) ↦
        let gone = Map.get-delete id id h.pending in
        let stopped = Map.get-delete id id h.timers in
        (
          ground (arith, p),
          ground (arith, p, gone),
          ground (arith, p, gone),
          ground (arith, p, stopped),
        )
  ]
