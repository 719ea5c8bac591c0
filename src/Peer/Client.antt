-- ===== src/Peer/Client.antt =====
-- A peer that negotiates as a client, over a session.
use ataraxia.Base.{
  ℕ, ◌+◌, ◌≤◌, ◌≡◌, ◌==◌, refl, some, Bool, true, false, List, [], ◌∷◌, ◌++◌, ◌||◌, ◌&&◌, arith,
  any, if◌then◌else◌,
}
use ataraxia.Codec.{PeerMessage, ok, reject, ping, pong, begin, hello, select, auth, auth_data}
use ataraxia.Peer.State.{
  Phase, initial, waiting_for_hello, waiting_for_select_ack, waiting_for_auth_ack, active, Peer,
  Effect, send, Acts, switch_to_active, register_latency_reply, handle_disconnect,
}
use ataraxia.Peer.Flows.{decline, more, ClientReply, send_initial_auth, handle_client_reply}
use ataraxia.Peer.Events.{
  negotiate_as_client, Event, receives, begin_sent, initial_message, server_flow_destroyed,
  server_replies, client_replies, aborts, ping_due, ping_check, disconnects, step, receive_data,
  receive_select_ok, send_ping, check_failure,
}
use ataraxia.Peer.Sessions.{
  is_begin, is_connect, is_question, is_ok, is_begin_sent, any-append, is_selected, begin_sent-due,
  IsQuiet, send_initial_auth-IsQuiet, implies, is_due, Session, negotiated, happened,
  handle_client_reply-IsQuiet,
}

abbrev pub asks : Phase → Bool
asks waiting_for_hello = true
asks waiting_for_select_ack = true
asks waiting_for_auth_ack = true
asks active = true
asks initial = true
asks _ = false

abbrev pub is_hello : Event → Bool
is_hello (receives (hello id capabilities)) = true
is_hello _ = false

unfoldable is_selecting : Phase → Bool
is_selecting waiting_for_select_ack = true
is_selecting _ = false

abbrev pub is_select : Effect → Bool
is_select (send (select id capabilities)) = true
is_select _ = false

-- How much of HELLO, an OK and another OK has come in, in this order, whatever else came between.
abbrev after : Event → ℕ → ℕ
after e n = if is_hello e && n == 0 then 1 else if is_ok e && (n == 1 || n == 2) then n + 1 else n

abbrev pub progress : List Event → ℕ
progress [] = 0
progress (e ∷ history) = after e (progress history)

progress-bound : (history : List Event) → progress history ≤ 3
progress-bound [] = omega arith
progress-bound (e ∷ history) = ground (arith, progress-bound history)

is_server_reply : Event → Bool
is_server_reply (server_replies reply) = true
is_server_reply (server_flow_destroyed method payload) = true
is_server_reply _ = false

-- What one event does to a peer that asks.
Asked : Event → Peer → Acts → Type 0
Asked e p a =
    (asks a.0.state ≡ true)
    × (any is_question a.1 ≡ false)
    × (implies (is_selecting a.0.state) (is_selecting p.state || (is_hello e && any is_select a.1))
        ≡ true)
    × (implies (is_selected a.0.state) (is_selected p.state || (is_selecting p.state && is_ok e))
        ≡ true)
    × (implies (any is_begin a.1) (is_selected p.state && is_ok e) ≡ true)
    × (implies (any is_connect a.1) (is_begin_sent e) ≡ true)

quiet-Asked :
    (e : Event) (p : Peer) (a : Acts)
    → asks p.state ≡ true
    → IsQuiet p a
    → any is_question a.1 ≡ false
    → Asked e p a
unfolding IsQuiet Asked implies is_selecting
quiet-Asked e p a h q k = ground arith

receive_select_ok-Asked :
    (now : ℕ) (p : Peer)
    → is_selecting p.state ≡ true
    → Asked (receives ok) p (receive_select_ok now p)
unfolding receive_select_ok Asked implies register_latency_reply IsQuiet is_selected is_selecting
receive_select_ok-Asked now p h = ground (
  arith,
  h,
  send_initial_auth-IsQuiet (record (register_latency_reply now p) {
    state = waiting_for_auth_ack;
    remaining_auth_providers = some p.auth_providers;
  }),
)

receives-Asked :
    (now : ℕ) (m : PeerMessage) (p : Peer)
    → asks p.state ≡ true
    → Asked (receives m) p (receive_data now m p)
unfolding receive_data Asked implies register_latency_reply is_selected is_selecting
receives-Asked now ok p h = ground (arith, receive_select_ok-Asked now p)
receives-Asked now reject p h = ground (
  arith,
  quiet-Asked (receives reject) p (send_initial_auth p) h (send_initial_auth-IsQuiet p).0
      (send_initial_auth-IsQuiet p).1,
)
receives-Asked now begin p h = ground arith
receives-Asked now (hello id c) p h = ground arith
receives-Asked now (select id c) p h = ground arith
receives-Asked now (auth method payload) p h = ground arith
receives-Asked now (auth_data payload) p h = ground arith
receives-Asked now ping p h = ground arith
receives-Asked now pong p h = ground arith
receives-Asked now _ p h = ground arith

handle_client_reply-question :
    (reply : ClientReply) (p : Peer) → any is_question (handle_client_reply reply p).1 ≡ false
unfolding handle_client_reply
handle_client_reply-question decline p = (send_initial_auth-IsQuiet p).1
handle_client_reply-question (more payload) p = refl

step-Asked :
    (now : ℕ) (e : Event) (p : Peer)
    → asks p.state ≡ true
    → is_server_reply e ≡ false
    → Asked e p (step now e p)
unfolding step Asked implies is_begin_sent is_server_reply send_ping check_failure handle_disconnect
    is_selected switch_to_active is_selecting
step-Asked now (receives m) p h k = receives-Asked now m p h
step-Asked now begin_sent p h k = ground arith
step-Asked now (initial_message provider payload) p h k = ground arith
step-Asked now (server_flow_destroyed method payload) p h k = cc
step-Asked now (server_replies reply) p h k = cc
step-Asked now (client_replies reply) p h k =
    quiet-Asked (client_replies reply) p (handle_client_reply reply p) h
      (handle_client_reply-IsQuiet reply p) (handle_client_reply-question reply p)
step-Asked now aborts p h k = ground arith
step-Asked now ping_due p h k = ground arith
step-Asked now (ping_check detected) p h k = ground arith
step-Asked now (disconnects reason) p h k = ground arith

record HasAsked (p : Peer) (log : List Effect) (history : List Event) : Type 0 where
  phase : asks p.state ≡ true
  quiet : any is_question log ≡ false
  selecting : is_selecting p.state ≡ true → (1 ≤ progress history) × (any is_select log ≡ true)
  selected : is_selected p.state ≡ true → (2 ≤ progress history) × (any is_select log ≡ true)
  began : any is_begin log ≡ true → (progress history ≡ 3) × (any is_select log ≡ true)
  connected : any is_connect log ≡ true → any is_begin log ≡ true

not_server_reply :
    (e : Event) (log : List Effect)
    → is_due e log ≡ true
    → any is_question log ≡ false
    → is_server_reply e ≡ false
unfolding is_server_reply
not_server_reply (server_replies reply) log d h = cc
not_server_reply (server_flow_destroyed method payload) log d h = cc
not_server_reply _ log d h = refl

HasAsked-step :
    (now : ℕ) (e : Event) (p : Peer) (log : List Effect) (history : List Event)
    → HasAsked p log history
    → is_due e log ≡ true
    → Asked e p (step now e p)
    → HasAsked (step now e p).0 (log ++ (step now e p).1) (e ∷ history)
unfolding implies Asked is_selecting
HasAsked-step now e p log history w d v = record {
  phase = v.0;
  quiet = ground (arith, any-append is_question log (step now e p).1, w.quiet, v);
  selecting = λ c. ground (arith, any-append is_select log (step now e p).1, w.selecting, v, c);
  selected =
      λ c. ground (arith, any-append is_select log (step now e p).1, w.selecting, w.selected, v, c);
  began = λ c. ground (
    arith,
    any-append is_begin log (step now e p).1,
    any-append is_select log (step now e p).1,
    progress-bound history,
    w.selected,
    w.began,
    v,
    c,
  );
  connected = λ c. ground (
    arith,
    any-append is_begin log (step now e p).1,
    any-append is_connect log (step now e p).1,
    w.connected,
    begin_sent-due e log d,
    v,
    c,
  );
}

Session-HasAsked :
    (client : Peer) (now : ℕ) {p : Peer} {log : List Effect} {history : List Event}
    → Session (negotiate_as_client now client) p log history
    → HasAsked p log history
unfolding negotiate_as_client is_selected is_selecting
Session-HasAsked client at negotiated = record {
  phase = refl;
  quiet = refl;
  selecting = λ c. cc;
  selected = λ c. cc;
  began = λ c. cc;
  connected = λ c. cc;
}
Session-HasAsked client at (happened {p} {log} {history} now e d s) =
    let w = Session-HasAsked client at s in
    HasAsked-step now e p log history w d
      (step-Asked now e p w.phase (not_server_reply e log d w.quiet))

-- Whatever a server sends to a client, and in whatever order the client's flows reply: the client
-- sends BEGIN only after HELLO of the server, then an OK, and then another OK have come in, in this
-- order, and after it has sent SELECT; and it connects only after it has sent BEGIN.
pub client_accepted :
    (client p : Peer) (now : ℕ) (log : List Effect) (history : List Event)
    → Session (negotiate_as_client now client) p log history
    → (any is_begin log ≡ true → (progress history ≡ 3) × (any is_select log ≡ true))
      × (any is_connect log ≡ true → any is_begin log ≡ true)
client_accepted client p now log history s =
    let w = Session-HasAsked client now s in (w.began, w.connected)
