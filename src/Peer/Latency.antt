-- ===== src/Peer/Latency.antt =====
-- The latency of a peer: the measurements that each step keeps, and what the average lies between.
use ataraxia.Base.{
  ℕ, ◌+◌, ◌*◌, ◌/◌, ◌-◌, ◌≤◌, ◌≡◌, ◌⊎◌, refl, subst, Option, none, some, List, [], ◌∷◌, ltb, arith,
  All, if◌then◌else◌, length, drop, length-append, length-drop, inl, inr, Text,
}
use native.Mathlib.Nat.{le-div_iff_mul-le, div-le_of_le-mul}
use ataraxia.Codec.{PeerMessage, ok, reject, ping, pong, begin, hello, select, auth, auth_data}
use ataraxia.Peer.State.{
  Provider, Peer, Acts, abort_with, register_latency_reply, switch_to_active, latency, sum,
  handle_disconnect, waiting_for_auth_ack,
}
use ataraxia.Peer.Flows.{
  pick_next_auth_provider, start_flow, send_initial_auth, choose_server_flow, receive_auth,
  handle_client_reply, decline, more, handle_sending_auth_reply, accept,
}
use ataraxia.Peer.Events.{
  Event, receives, server_flow_destroyed, server_replies, client_replies, ping_check, step,
  receive_data, receive_select_ok, send_ping, check_failure, receive_hello,
}

abbrev pub measured : Peer → ℕ
measured p = length p.latency_values

pub register_latency_reply-measured :
    (now : ℕ) (p : Peer)
    → measured (register_latency_reply now p)
      ≡ (if ltb 5 (measured p) then measured p else measured p + 1)
unfolding register_latency_reply
register_latency_reply-measured now p = ground (
  arith,
  length-append (drop 1 p.latency_values) ((now - p.last_latency_time) ∷ []),
  length-append p.latency_values ((now - p.last_latency_time) ∷ []),
  length-drop 1 p.latency_values,
)

-- A handler takes at most one measurement, and keeps six at most.
unfoldable pub Kept : Peer → Acts → Type 0
Kept p a =
    (measured a.0 ≡ measured p)
    ⊎ (measured a.0 ≡ (if ltb 5 (measured p) then measured p else measured p + 1))

pick_next-measured : (p : Peer) → measured (pick_next_auth_provider p).1 ≡ measured p
unfolding pick_next_auth_provider
pick_next-measured p = ground arith

start_flow-measured :
    (picked : Option Provider) (p : Peer) → measured (start_flow picked p).0 ≡ measured p
unfolding start_flow abort_with
start_flow-measured none p = refl
start_flow-measured (some q) p = refl

pub send_initial_auth-measured : (p : Peer) → measured (send_initial_auth p).0 ≡ measured p
unfolding send_initial_auth
send_initial_auth-measured p = ground (
  arith,
  pick_next-measured p,
  start_flow-measured (pick_next_auth_provider p).0 (pick_next_auth_provider p).1,
)

choose_server_flow-measured :
    (method : Text) (payload : List ℕ) (p : Peer)
    → measured (choose_server_flow method payload p).0 ≡ measured p
unfolding choose_server_flow
choose_server_flow-measured method payload p = ground arith

receive_auth-measured :
    (method : Text) (payload : List ℕ) (p : Peer)
    → measured (receive_auth method payload p).0 ≡ measured p
unfolding receive_auth
receive_auth-measured method payload p =
    ground (arith, choose_server_flow-measured method payload p)

receives-Kept : (now : ℕ) (m : PeerMessage) (p : Peer) → Kept p (receive_data now m p)
unfolding receive_data Kept receive_select_ok switch_to_active receive_hello
receives-Kept now ok p = ground (
  arith,
  register_latency_reply-measured now p,
  send_initial_auth-measured (record (register_latency_reply now p) {
    state = waiting_for_auth_ack;
    remaining_auth_providers = some p.auth_providers;
  }),
)
receives-Kept now reject p = ground (arith, send_initial_auth-measured p)
receives-Kept now begin p = ground (arith, register_latency_reply-measured now p)
receives-Kept now (hello id c) p = ground arith
receives-Kept now (select id c) p = ground arith
receives-Kept now (auth method payload) p = ground (arith, receive_auth-measured method payload p)
receives-Kept now (auth_data payload) p = ground arith
receives-Kept now ping p = ground arith
receives-Kept now pong p = inr (register_latency_reply-measured now p)
receives-Kept now _ p = inl refl

pub step-Kept : (now : ℕ) (e : Event) (p : Peer) → Kept p (step now e p)
unfolding step Kept handle_sending_auth_reply handle_client_reply send_ping check_failure
    handle_disconnect switch_to_active
step-Kept now (receives m) p = receives-Kept now m p
step-Kept now (server_flow_destroyed method payload) p =
    inl (choose_server_flow-measured method payload p)
step-Kept now (server_replies accept) p = ground arith
step-Kept now (server_replies decline) p = ground arith
step-Kept now (server_replies (more none)) p = ground arith
step-Kept now (server_replies (more (some payload))) p = ground arith
step-Kept now (client_replies decline) p = inl (send_initial_auth-measured p)
step-Kept now (client_replies (more payload)) p = ground arith
step-Kept now (ping_check detected) p = ground arith
step-Kept now _ p = inl refl

abbrev pub Between : ℕ → ℕ → List ℕ → Type 0
Between low high = All (λ v. (low ≤ v) × (v ≤ high))

sum-Between :
    (low high : ℕ) (vs : List ℕ)
    → Between low high vs
    → (low * length vs ≤ sum vs) × (sum vs ≤ length vs * high)
sum-Between low high [] h = (omega arith, omega arith)
sum-Between low high (v ∷ vs) h =
    let rest = sum-Between low high vs h.1 in (grind (arith, h.0, rest), grind (arith, h.0, rest))

average-Between :
    (low high l : ℕ) (vs : List ℕ)
    → Between low high vs
    → (elim vs [ [] ↦ none | v ∷ vs ↦ some (sum (v ∷ vs) / length (v ∷ vs)) ]) ≡ some l
    → (low ≤ l) × (l ≤ high)
average-Between low high l [] h e = absurd cc
average-Between low high l (v ∷ vs) h e =
    let n = length (v ∷ vs) in
    let q : sum (v ∷ vs) / n ≡ l = cc in
    let b = sum-Between low high (v ∷ vs) h in
    (
      subst (λ x. low ≤ x) q ((le-div_iff_mul-le (omega arith)).1 b.0),
      subst (λ x. x ≤ high) q (div-le_of_le-mul n b.1),
    )

-- The latency that a peer reports lies between any two bounds of the measurements that it keeps.
pub latency-Between :
    (low high l : ℕ) (p : Peer)
    → Between low high p.latency_values
    → latency p ≡ some l
    → (low ≤ l) × (l ≤ high)
unfolding latency
latency-Between low high l p h e = average-Between low high l p.latency_values h e
