-- ===== src/Messaging/Settling.antt =====
-- What each step does to the promise of a message.
use ataraxia.Base.{
  ℕ, ◌+◌, ◌<◌, ◌≤◌, ◌≡◌, refl, Option, none, some, Bool, List, [], ◌∷◌, ◌++◌, nat_eq, true, false,
  ◌==◌, if◌then◌else◌, arith, Option-cases, Bool-cases, inl, inr, Text,
}
use ataraxia.Map
use ataraxia.Map.{Map}
use ataraxia.Ids.{same_id}
use ataraxia.Codec.{DataMessage}
use ataraxia.Messaging.Defs.{
  Previous, SentMessage, own, routed, Messaging, timed_out, could_not_forward, Effect, send_ack,
  send_reject, clear_timer, resolve, fail, Routes, release_id, time_out, send, send_failed,
  last_entry, forward, handle_from, handle_no_path, handle_data, pass_back, handle_ack,
  handle_reject, Event, contains_node, sends, sending_fails, receives, acknowledged, rejected,
  times_out, step,
}

abbrev pub one_if : Bool → ℕ
one_if true = 1
one_if false = 0

abbrev settles : ℕ → Effect → ℕ
settles id (resolve j) = one_if (j == id)
settles id (fail j e) = one_if (j == id)
settles id e = 0

-- How often the promise of a message has been settled.
abbrev pub times : ℕ → List Effect → ℕ
times id [] = 0
times id (e ∷ log) = settles id e + times id log

pub times-append :
    (id : ℕ) (log more : List Effect) → times id (log ++ more) ≡ times id log + times id more
times-append id [] more = omega arith
times-append id (e ∷ log) more = omega (arith, times-append id log more)

abbrev is_own : Option SentMessage → Bool
is_own none = false
is_own (some own) = true
is_own (some (routed p)) = false

-- The message was sent from here, and its promise waits.
abbrev pub waits : ℕ → Messaging → Bool
waits id m = is_own (Map.get id m.pending)

-- No number that is still to be given out is in use.
abbrev pub IsFresh : Messaging → Type 0
IsFresh m = (id : ℕ) → m.id_counter ≤ id → Map.get id m.pending ≡ none

abbrev pub is_failure : ℕ → Event → Bool
is_failure id (sending_fails j) = j == id
is_failure id e = false

-- One event, from `m` to `m'` with the effects `more`: what it does to the message `id`, where
-- `failure` says that sending it has failed.
pub record Settles (id : ℕ) (failure : Bool) (m m' : Messaging) (more : List Effect) : Type 0 where
  pub fresh : IsFresh m'
  pub grows : m.id_counter ≤ m'.id_counter
  pub exact :
      id < m.id_counter
      → times id more + one_if (waits id m') ≡ (if failure then 0 else one_if (waits id m))
  pub new : m.id_counter ≤ id → times id more ≡ 0

-- Nothing is pending under `j`: the handler does nothing.
ignored :
    (id : ℕ) (failure : Bool) (m : Messaging)
    → IsFresh m
    → (failure ≡ true → Map.get id m.pending ≡ none)
    → Settles id failure m m []
ignored id failure m f h = record {
  fresh = f;
  grows = omega arith;
  exact = λ old. ground (arith, h);
  new = λ new. refl;
}

-- The message `j` is taken off.
taken :
    (id j : ℕ) (failure : Bool) (m : Messaging) (s : SentMessage) (more : List Effect)
    → IsFresh m
    → Map.get j m.pending ≡ some s
    → (failure ≡ true → j ≡ id)
    → times id more ≡ (if failure then 0 else if j == id then one_if (is_own (some s)) else 0)
    → Settles id failure m (record m { pending = Map.delete j m.pending }) more
taken id j failure m s more f p h t = record {
  fresh = λ i new. ground (arith, Map.get-delete j i m.pending, f i new);
  grows = omega arith;
  exact = λ old. ground (arith, Map.get-delete j id m.pending);
  new = λ new. ground (arith, f id new);
}

-- A message is added under the next number.
added :
    (id : ℕ) (m : Messaging) (s : SentMessage) (more : List Effect)
    → IsFresh m
    → times id more ≡ 0
    → Settles id false m
        (record { pending = Map.set m.id_counter s m.pending; id_counter = m.id_counter + 1 })
        more
added id m s more f t = record {
  fresh = λ i new. ground (arith, Map.get-set m.id_counter i s m.pending, f i);
  grows = omega arith;
  exact = λ old. ground (arith, Map.get-set m.id_counter id s m.pending);
  new = λ new. t;
}

-- Passing an answer back settles no promise here.
pass_back_quiet :
    (id : ℕ) (routes : Routes) (answer : List ℕ → ℕ → Effect) (q : Previous)
    → ((peer : List ℕ) (n : ℕ) → settles id (answer peer n) ≡ 0)
    → times id (pass_back routes answer q) ≡ 0
unfolding pass_back
pass_back_quiet id routes answer q h = elim (Option-cases (routes.get_peer q.peer)) [
  | inl p ↦ rw (p, pass_back)
  | inr (peer, p) ↦ rw (p, pass_back) (omega (arith, h peer q.id))
]

module _ (id j : ℕ) (m : Messaging) (f : IsFresh m) where
  send_failed-Settles : Settles id (j == id) m (send_failed j m).0 (send_failed j m).1
  unfolding send_failed
  send_failed-Settles = elim (Option-cases (Map.get j m.pending)) [
    | inl p ↦ rw (p, release_id) (ignored id (j == id) m f (λ e. ground arith))
    | inr (s, p) ↦
        rw (p, release_id)
          (taken id j (j == id) m s (clear_timer j ∷ []) f p (λ e. ground arith) (ground arith))
  ]

  time_out-Settles : Settles id false m (time_out j m).0 (time_out j m).1
  unfolding time_out
  time_out-Settles = elim (Option-cases (Map.get j m.pending)) [
    | inl p ↦ rw (p, time_out) (ignored id false m f (λ e. cc))
    | inr (own, p) ↦
        rw (p, time_out)
          (rw (p, release_id)
            (taken id j false m own (clear_timer j ∷ fail j timed_out ∷ []) f p (λ e. cc)
              (ground arith)))
    | inr (routed q, p) ↦
        rw (p, time_out)
          (rw (p, release_id)
            (taken id j false m (routed q) (clear_timer j ∷ []) f p (λ e. cc) (ground arith)))
  ]

  handle_ack-Settles :
      (routes : Routes) → Settles id false m (handle_ack routes j m).0 (handle_ack routes j m).1
  unfolding handle_ack
  handle_ack-Settles routes = elim (Option-cases (Map.get j m.pending)) [
    | inl p ↦ rw (p, handle_ack) (ignored id false m f (λ e. cc))
    | inr (own, p) ↦
        rw (p, handle_ack)
          (rw (p, release_id)
            (taken id j false m own (clear_timer j ∷ resolve j ∷ []) f p (λ e. cc) (ground arith)))
    | inr (routed q, p) ↦
        rw (p, handle_ack)
          (rw (p, release_id)
            (taken id j false m (routed q) (clear_timer j ∷ pass_back routes send_ack q) f p
              (λ e. cc) (ground (arith, pass_back_quiet id routes send_ack q (λ a b. refl)))))
  ]

  handle_reject-Settles :
      (routes : Routes)
      → Settles id false m (handle_reject routes j m).0 (handle_reject routes j m).1
  unfolding handle_reject
  handle_reject-Settles routes = elim (Option-cases (Map.get j m.pending)) [
    | inl p ↦ rw (p, handle_reject) (ignored id false m f (λ e. cc))
    | inr (own, p) ↦
        rw (p, handle_reject)
          (rw (p, release_id)
            (taken id j false m own (clear_timer j ∷ fail j could_not_forward ∷ []) f p (λ e. cc)
              (ground arith)))
    | inr (routed q, p) ↦
        rw (p, handle_reject)
          (rw (p, release_id)
            (taken id j false m (routed q) (clear_timer j ∷ pass_back routes send_reject q) f p
              (λ e. cc) (ground (arith, pass_back_quiet id routes send_reject q (λ a b. refl)))))
  ]

module _ (id : ℕ) (m : Messaging) (f : IsFresh m) (routes : Routes) where
  send-Settles :
      (target : List ℕ) (type : Text) (payload : List ℕ)
      → let r = (send routes target type payload m).1 in Settles id false m r.0 r.1
  unfolding send
  send-Settles target type payload = elim (Option-cases (routes.find_peer_for_target target)) [
    | inl p ↦ rw (p, send) (ignored id false m f (λ e. cc))
    | inr (peer, p) ↦ rw (p, send) (added id m own _ f refl)
  ]

  quiet : (more : List Effect) → times id more ≡ 0 → Settles id false m m more
  quiet more t = record {
    fresh = f;
    grows = omega arith;
    exact = λ old. omega (arith, t);
    new = λ new. t;
  }

  handle_from-Settles :
      (peer : List ℕ) (last : ℕ) (message : DataMessage)
      → let r = handle_from routes peer last message m in Settles id false m r.0 r.1
  unfolding handle_from forward
  handle_from-Settles peer last message = elim (Bool-cases (same_id message.target routes.self)) [
    | inl here ↦ rw here (quiet _ refl)
    | inr there ↦ elim (Option-cases (routes.find_peer_for_target message.target)) [
      | inl p ↦ rw there (rw (p, handle_from) (quiet _ refl))
      | inr (target_peer, p) ↦ elim (Bool-cases (contains_node message.path target_peer)) [
        | inl loop ↦ rw there (rw (p, handle_from) (rw loop (quiet _ refl)))
        | inr open_way ↦ rw there (rw (p, handle_from) (rw open_way (added id m _ _ f refl)))
      ]
    ]
  ]

  handle_no_path-Settles :
      (message : DataMessage)
      → let r = handle_no_path routes message m in Settles id false m r.0 r.1
  unfolding handle_no_path
  handle_no_path-Settles message = elim (Bool-cases (same_id message.target routes.self)) [
    | inl here ↦ rw here (quiet _ refl)
    | inr there ↦ elim (Option-cases (routes.find_peer_for_target message.target)) [
      | inl p ↦ rw there (rw (p, handle_no_path) (quiet _ refl))
      | inr (target_peer, p) ↦ rw there (
          rw (p, handle_no_path)
            (record {
              fresh = λ i new. f i (omega arith);
              grows = omega arith;
              exact = λ old. omega arith;
              new = λ new. refl;
            }))
    ]
  ]

  handle_data-Settles :
      (peer : List ℕ) (message : DataMessage)
      → let r = handle_data routes peer message m in Settles id false m r.0 r.1
  unfolding handle_data
  handle_data-Settles peer message = elim (Option-cases (last_entry message.path)) [
    | inl p ↦ rw (p, handle_data) (handle_no_path-Settles message)
    | inr (last, p) ↦ rw (p, handle_data) (handle_from-Settles peer last.id message)
  ]

  pub step-Settles :
      (e : Event) → Settles id (is_failure id e) m (step routes e m).0 (step routes e m).1
  unfolding step
  step-Settles (sends target type payload) = send-Settles target type payload
  step-Settles (sending_fails j) = send_failed-Settles id j m f
  step-Settles (receives peer message) = handle_data-Settles peer message
  step-Settles (acknowledged j) = handle_ack-Settles id j m f routes
  step-Settles (rejected j) = handle_reject-Settles id j m f routes
  step-Settles (times_out j) = time_out-Settles id j m f
