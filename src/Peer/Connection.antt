-- ===== src/Peer/Connection.antt =====
-- What a peer refuses, and the events that tell of a connection and of its end.
use ataraxia.Base.{
  ℕ, ◌+◌, ◌≤◌, ◌≡◌, ◌∙◌, refl, Option, none, some, Bool, true, false, List, [], ◌∷◌, ◌++◌, arith,
  if◌then◌else◌, Text,
}
use ataraxia.Codec.{PeerMessage, ok, reject, begin, hello, select, auth, auth_data}
use ataraxia.Peer.State.{
  Phase, Provider, Peer, Effect, Acts, abort_with, abort, register_latency_reply, switch_to_active,
  handle_disconnect, waiting_for_auth_ack, emit_disconnect, start_pings, queue_negotiation_timeout,
  waiting_for_hello, waiting_for_select_ack, waiting_for_auth, waiting_for_auth_data,
  waiting_for_begin, waiting_for_select, active,
}
use ataraxia.Peer.Flows.{
  pick_next_auth_provider, start_flow, send_initial_auth, choose_server_flow, receive_auth,
  handle_client_reply, decline, more, handle_sending_auth_reply,
}
use ataraxia.Peer.Events.{
  Event, receives, begin_sent, server_flow_destroyed, client_replies, step, run, receive_data,
  receive_select_ok, receive_auth_ok, send_ping, check_failure,
}
use ataraxia.Peer.Sessions.{is_connect, is_begin}

-- The messages of a negotiation, and the phases in which each is welcome.
abbrev pub negotiates : PeerMessage → Bool
negotiates ok = true
negotiates reject = true
negotiates begin = true
negotiates (hello id capabilities) = true
negotiates (select id capabilities) = true
negotiates (auth method payload) = true
negotiates (auth_data payload) = true
negotiates _ = false

abbrev pub is_welcome : PeerMessage → Phase → Bool
is_welcome (hello id capabilities) waiting_for_hello = true
is_welcome (select id capabilities) waiting_for_select = true
is_welcome ok waiting_for_select_ack = true
is_welcome (auth method payload) waiting_for_auth = true
is_welcome (auth_data payload) waiting_for_auth_data = true
is_welcome ok waiting_for_auth_ack = true
is_welcome reject waiting_for_auth_ack = true
is_welcome (auth_data payload) waiting_for_auth_ack = true
is_welcome begin waiting_for_begin = true
is_welcome _ _ = false

-- A message of the negotiation that comes in a phase in which it is not welcome ends the
-- negotiation by a disconnect, and leaves the peer as it was.
pub receive_data-unwelcome :
    (now : ℕ) (m : PeerMessage) (p : Peer)
    → negotiates m ≡ true
    → is_welcome m p.state ≡ false
    → receive_data now m p ≡ abort p
unfolding receive_data
receive_data-unwelcome now ok p n h = ground arith
receive_data-unwelcome now reject p n h = ground arith
receive_data-unwelcome now begin p n h = ground arith
receive_data-unwelcome now (hello id c) p n h = ground arith
receive_data-unwelcome now (select id c) p n h = ground arith
receive_data-unwelcome now (auth method payload) p n h = ground arith
receive_data-unwelcome now (auth_data payload) p n h = ground arith
receive_data-unwelcome now _ p n h = cc

abbrev pub is_disconnect : Effect → Bool
is_disconnect emit_disconnect = true
is_disconnect _ = false

abbrev pub is_start_pings : Effect → Bool
is_start_pings start_pings = true
is_start_pings _ = false

abbrev pub count : (Effect → Bool) → List Effect → ℕ
count f [] = 0
count f (e ∷ log) = (if f e then 1 else 0) + count f log

abbrev pub is_active : Phase → Bool
is_active active = true
is_active _ = false

count-append :
    (f : Effect → Bool) (xs ys : List Effect) → count f (xs ++ ys) ≡ count f xs + count f ys
count-append f [] ys = omega arith
count-append f (x ∷ xs) ys = ground (arith, count-append f xs ys)

-- The phases and the events of one step.
Balanced : Peer → Acts → Type 0
Balanced p a =
    count is_disconnect a.1 + (if is_active a.0.state then 1 else 0)
    ≤ count is_connect a.1 + (if is_active p.state then 1 else 0)

switch_to_active-Balanced : (now : ℕ) (p q : Peer) → Balanced p (switch_to_active now q)
unfolding Balanced switch_to_active
switch_to_active-Balanced now p q = ground arith

start_flow-Balanced :
    (picked : Option Provider) (p q : Peer) → q.state ≡ p.state → Balanced p (start_flow picked q)
unfolding Balanced start_flow abort_with
start_flow-Balanced none p q e = ground (arith, e)
start_flow-Balanced (some provider) p q e = ground (arith, e)

pick_next-state : (p : Peer) → (pick_next_auth_provider p).1.state ≡ p.state
unfolding pick_next_auth_provider
pick_next-state p = ground arith

send_initial_auth-Balanced : (p q : Peer) → q.state ≡ p.state → Balanced p (send_initial_auth q)
unfolding send_initial_auth
send_initial_auth-Balanced p q e =
    start_flow-Balanced (pick_next_auth_provider q).0 p (pick_next_auth_provider q).1
      (pick_next-state q ∙ e)

choose_server_flow-Balanced :
    (method : Text) (payload : List ℕ) (p : Peer) → Balanced p (choose_server_flow method payload p)
unfolding Balanced choose_server_flow
choose_server_flow-Balanced method payload p = ground arith

receive_auth-Balanced :
    (method : Text) (payload : List ℕ) (p : Peer) → Balanced p (receive_auth method payload p)
unfolding Balanced receive_auth
receive_auth-Balanced method payload p =
    let log = (choose_server_flow method payload p).1 in
    ground (
      arith,
      choose_server_flow-Balanced method payload p,
      count-append is_disconnect log (queue_negotiation_timeout ∷ []),
      count-append is_connect log (queue_negotiation_timeout ∷ []),
    )

-- A selected client asks in another phase than before, which is not the active one either.
asked_first : (now : ℕ) (p : Peer) → Balanced p (receive_select_ok now p)
unfolding Balanced receive_select_ok
asked_first now p =
    let q : Peer = record (register_latency_reply now p) {
      state = waiting_for_auth_ack;
      remaining_auth_providers = some p.auth_providers;
    } in
    let b = send_initial_auth-Balanced q q refl in ground (arith, b)

receives-Balanced : (now : ℕ) (m : PeerMessage) (p : Peer) → Balanced p (receive_data now m p)
unfolding Balanced receive_data
receives-Balanced now ok p = ground (arith, asked_first now p)
receives-Balanced now reject p = ground (arith, send_initial_auth-Balanced p p refl)
receives-Balanced now begin p =
    ground (arith, switch_to_active-Balanced now p (register_latency_reply now p))
receives-Balanced now (auth method payload) p =
    ground (arith, receive_auth-Balanced method payload p)
receives-Balanced now _ p = ground arith

step-Balanced : (now : ℕ) (e : Event) (p : Peer) → Balanced p (step now e p)
unfolding Balanced step handle_sending_auth_reply handle_client_reply send_ping check_failure
    handle_disconnect
step-Balanced now (receives m) p = receives-Balanced now m p
step-Balanced now begin_sent p = switch_to_active-Balanced now p p
step-Balanced now (server_flow_destroyed method payload) p =
    choose_server_flow-Balanced method payload p
step-Balanced now (client_replies decline) p = send_initial_auth-Balanced p p refl
step-Balanced now (client_replies (more payload)) p = ground arith
step-Balanced now _ p = ground arith

run-Balanced :
    (events : List (ℕ × Event)) (p q : Peer) (log : List Effect)
    → Balanced p (q, log)
    → Balanced p (run events (q, log))
unfolding run Balanced
run-Balanced [] p q log h = h
run-Balanced ((now, e) ∷ events) p q log h =
    let b = step now e q in
    run-Balanced events p b.0 (log ++ b.1) (
      omega (
        arith,
        h,
        step-Balanced now e q,
        count-append is_disconnect log b.1,
        count-append is_connect log b.1,
      ))

-- Whatever happens to a peer that is not active yet: it never tells of more disconnects than of
-- connects, and of at least one connect more while it is active.
pub run_disconnects :
    (events : List (ℕ × Event)) (p : Peer)
    → is_active p.state ≡ false
    → let a = run events (p, []) in
      count is_disconnect a.1 + (if is_active a.0.state then 1 else 0) ≤ count is_connect a.1
unfolding Balanced
run_disconnects events p h =
    let b = run-Balanced events p p [] (omega arith) in ground (arith, b, h)

-- A client that waits for the answer to AUTH and receives OK a second time before BEGIN has been
-- sent: it sends BEGIN twice, and once both are sent it tells of two connects, and starts its ping
-- timers twice.
pub second_ok :
    (t₁ t₂ t₃ t₄ : ℕ) (p : Peer)
    → p.state ≡ waiting_for_auth_ack
    → let a =
        run
          ((t₁, receives ok) ∷ (t₂, receives ok) ∷ (t₃, begin_sent) ∷ (t₄, begin_sent) ∷ [])
          (p, []) in
      (count is_begin a.1 ≡ 2) × (count is_connect a.1 ≡ 2) × (count is_start_pings a.1 ≡ 2)
unfolding run step receive_data receive_auth_ok switch_to_active
second_ok t₁ t₂ t₃ t₄ p h = ground (arith, h)
