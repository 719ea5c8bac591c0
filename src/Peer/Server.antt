-- ===== src/Peer/Server.antt =====
-- A peer that negotiates as a server, over a session.
use ataraxia.Base.{ℕ, ◌≡◌, refl, Bool, true, false, List, ◌∷◌, ◌++◌, ◌||◌, arith, any}
use ataraxia.Codec.{PeerMessage, ok, reject, ping, pong, begin, hello, select, auth, auth_data}
use ataraxia.Peer.State.{
  Phase, initial, waiting_for_auth, waiting_for_auth_data, waiting_for_begin, waiting_for_select,
  active, Peer, Effect, Acts, register_latency_reply, handle_disconnect,
}
use ataraxia.Peer.Flows.{
  choose_server_flow, handle_client_reply, handle_sending_auth_reply, receive_auth,
}
use ataraxia.Peer.Events.{
  negotiate_as_server, Event, receives, begin_sent, initial_message, server_flow_destroyed,
  server_replies, client_replies, aborts, ping_due, ping_check, disconnects, step, receive_data,
  send_ping, check_failure,
}
use ataraxia.Peer.Sessions.{
  is_begin, is_connect, is_accept, is_begin_sent, any-append, IsQuiet, choose_server_flow-IsQuiet,
  receive_auth-IsQuiet, switch_to_active-effects, implies, is_due, Session, negotiated, happened,
  handle_client_reply-IsQuiet,
}

abbrev pub serves : Phase → Bool
serves waiting_for_select = true
serves waiting_for_auth = true
serves waiting_for_auth_data = true
serves waiting_for_begin = true
serves active = true
serves initial = true
serves _ = false

-- The phases behind the acceptance.
abbrev pub is_past : Phase → Bool
is_past waiting_for_begin = true
is_past active = true
is_past _ = false

-- What one event does to a peer that serves.
Served : Event → Peer → Acts → Type 0
Served e p a =
    (serves a.0.state ≡ true)
    × (any is_begin a.1 ≡ false)
    × (implies (is_past a.0.state || any is_connect a.1) (is_past p.state || is_accept e) ≡ true)

quiet-Served :
    (e : Event) (p : Peer) (a : Acts) → serves p.state ≡ true → IsQuiet p a → Served e p a
unfolding IsQuiet Served implies
quiet-Served e p a h q = ground arith

receives-Served :
    (now : ℕ) (m : PeerMessage) (p : Peer)
    → serves p.state ≡ true
    → Served (receives m) p (receive_data now m p)
unfolding receive_data Served implies register_latency_reply
receives-Served now ok p h = ground arith
receives-Served now reject p h = ground arith
receives-Served now begin p h =
    ground (arith, switch_to_active-effects now (register_latency_reply now p))
receives-Served now (hello id c) p h = ground arith
receives-Served now (select id c) p h = ground arith
receives-Served now (auth method payload) p h =
    let q =
      quiet-Served (receives (auth method payload)) p (receive_auth method payload p) h
        (receive_auth-IsQuiet method payload p) in
    ground arith
receives-Served now (auth_data payload) p h = ground arith
receives-Served now ping p h = ground arith
receives-Served now pong p h = ground arith
receives-Served now _ p h = ground arith

step-Served :
    (now : ℕ) (e : Event) (p : Peer)
    → serves p.state ≡ true
    → is_begin_sent e ≡ false
    → Served e p (step now e p)
unfolding step Served implies is_begin_sent handle_sending_auth_reply send_ping check_failure
    handle_disconnect
step-Served now (receives m) p h k = receives-Served now m p h
step-Served now begin_sent p h k = cc
step-Served now (initial_message provider payload) p h k = ground arith
step-Served now (server_flow_destroyed method payload) p h k =
    quiet-Served (server_flow_destroyed method payload) p (choose_server_flow method payload p) h
      (choose_server_flow-IsQuiet method payload p)
step-Served now (server_replies reply) p h k = ground arith
step-Served now (client_replies reply) p h k =
    quiet-Served (client_replies reply) p (handle_client_reply reply p) h
      (handle_client_reply-IsQuiet reply p)
step-Served now aborts p h k = ground arith
step-Served now ping_due p h k = ground arith
step-Served now (ping_check detected) p h k = ground arith
step-Served now (disconnects reason) p h k = ground arith

record HasServed (p : Peer) (log : List Effect) (history : List Event) : Type 0 where
  phase : serves p.state ≡ true
  quiet : any is_begin log ≡ false
  past : implies (is_past p.state || any is_connect log) (any is_accept history) ≡ true

not_begin_sent :
    (e : Event) (log : List Effect)
    → is_due e log ≡ true
    → any is_begin log ≡ false
    → is_begin_sent e ≡ false
unfolding is_begin_sent
not_begin_sent begin_sent log d h = cc
not_begin_sent _ log d h = refl

HasServed-step :
    (now : ℕ) (e : Event) (p : Peer) (log : List Effect) (history : List Event)
    → HasServed p log history
    → Served e p (step now e p)
    → HasServed (step now e p).0 (log ++ (step now e p).1) (e ∷ history)
unfolding implies Served
HasServed-step now e p log history w v = record {
  phase = v.0;
  quiet = ground (arith, any-append is_begin log (step now e p).1, w.quiet, v);
  past = ground (arith, any-append is_connect log (step now e p).1, w.past, v);
}

Session-HasServed :
    (server : Peer) {p : Peer} {log : List Effect} {history : List Event}
    → Session (negotiate_as_server server) p log history
    → HasServed p log history
unfolding implies negotiate_as_server
Session-HasServed server negotiated = record { phase = refl; quiet = refl; past = refl }
Session-HasServed server (happened {p} {log} {history} now e d s) =
    let w = Session-HasServed server s in
    HasServed-step now e p log history w
      (step-Served now e p w.phase (not_begin_sent e log d w.quiet))

-- Whatever a client sends to a server, and in whatever order the server's flows reply: the server
-- never sends BEGIN, and it connects, or waits for BEGIN, only after a flow of it has accepted.
pub server_accepted :
    (server p : Peer) (log : List Effect) (history : List Event)
    → Session (negotiate_as_server server) p log history
    → (any is_begin log ≡ false)
      × (any is_connect log ≡ true → any is_accept history ≡ true)
      × (is_past p.state ≡ true → any is_accept history ≡ true)
unfolding implies
server_accepted server p log history s =
    let w = Session-HasServed server s in
    (w.quiet, λ c. ground (arith, w.past, c), λ c. ground (arith, w.past, c))
