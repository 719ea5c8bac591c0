-- ===== src/Peer/Known.antt =====
-- When the latency of a peer is known.
use ataraxia.Base.{
  ℕ, ◌≤◌, ◌≡◌, ◌≢◌, ◌⊎◌, none, some, true, List, ◌++◌, ltb, ◌||◌, arith, any, inl, inr,
}
use ataraxia.Codec.{PeerMessage, ok, reject, begin, auth}
use ataraxia.Peer.State.{
  Provider, Peer, Effect, Acts, register_latency_reply, switch_to_active, latency,
  handle_disconnect, create, waiting_for_auth_ack,
}
use ataraxia.Peer.Flows.{
  send_initial_auth, choose_server_flow, receive_auth, handle_client_reply,
  handle_sending_auth_reply,
}
use ataraxia.Peer.Events.{
  Event, receives, begin_sent, server_flow_destroyed, server_replies, client_replies, step,
  receive_data, receive_select_ok, send_ping, check_failure, negotiate_as_client,
  negotiate_as_server,
}
use ataraxia.Peer.Sessions.{
  Session, negotiated, happened, is_begin, is_connect, implies, any-append, is_begin_sent, is_due,
  begin_sent-due, is_selected, switch_to_active-effects, IsQuiet, send_initial_auth-IsQuiet,
  choose_server_flow-IsQuiet, receive_auth-IsQuiet, handle_client_reply-IsQuiet,
}
use ataraxia.Peer.Latency.{
  measured, Kept, register_latency_reply-measured, send_initial_auth-measured, step-Kept,
}

-- Where a measurement is taken: the phase after a SELECT, BEGIN, and connecting have one.
Measures : Event → Peer → Acts → Type 0
Measures e p a =
    (implies (is_selected a.0.state) (is_selected p.state || ltb 0 (measured a.0)) ≡ true)
    × (implies (any is_begin a.1) (is_selected p.state) ≡ true)
    × (implies (any is_connect a.1) (is_begin_sent e || ltb 0 (measured a.0)) ≡ true)

quiet-Measures : (e : Event) (p : Peer) (a : Acts) → IsQuiet p a → Measures e p a
unfolding Measures IsQuiet implies
quiet-Measures e p a q = ground arith

receive_select_ok-Measures :
    (now : ℕ) (p : Peer) → Measures (receives ok) p (receive_select_ok now p)
unfolding receive_select_ok Measures IsQuiet implies is_selected
receive_select_ok-Measures now p =
    let q : Peer = record (register_latency_reply now p) {
      state = waiting_for_auth_ack;
      remaining_auth_providers = some p.auth_providers;
    } in
    ground (
      arith,
      register_latency_reply-measured now p,
      send_initial_auth-measured q,
      send_initial_auth-IsQuiet q,
    )

receives-Measures :
    (now : ℕ) (m : PeerMessage) (p : Peer) → Measures (receives m) p (receive_data now m p)
unfolding receive_data Measures switch_to_active implies is_selected
receives-Measures now ok p = ground (arith, receive_select_ok-Measures now p)
receives-Measures now reject p = ground (
  arith,
  quiet-Measures (receives reject) p (send_initial_auth p) (send_initial_auth-IsQuiet p).0,
)
receives-Measures now begin p = ground (arith, register_latency_reply-measured now p)
receives-Measures now (auth method payload) p = ground (
  arith,
  quiet-Measures (receives (auth method payload)) p (receive_auth method payload p)
      (receive_auth-IsQuiet method payload p),
)
receives-Measures now _ p = ground arith

step-Measures : (now : ℕ) (e : Event) (p : Peer) → Measures e p (step now e p)
unfolding step Measures implies is_begin_sent handle_sending_auth_reply send_ping check_failure
    handle_disconnect is_selected
step-Measures now (receives m) p = receives-Measures now m p
step-Measures now begin_sent p = ground (arith, switch_to_active-effects now p)
step-Measures now (server_flow_destroyed method payload) p =
    quiet-Measures (server_flow_destroyed method payload) p (choose_server_flow method payload p)
      (choose_server_flow-IsQuiet method payload p)
step-Measures now (client_replies reply) p =
    quiet-Measures (client_replies reply) p (handle_client_reply reply p)
      (handle_client_reply-IsQuiet reply p)
step-Measures now (server_replies reply) p = ground arith
step-Measures now _ p = ground arith

-- A client that waits for the answer to AUTH, or has sent BEGIN, and a connected peer, have a
-- measurement; no more than six are kept.
record IsKnown (p : Peer) (log : List Effect) : Type 0 where
  few : measured p ≤ 6
  selected : is_selected p.state ≡ true → 1 ≤ measured p
  began : any is_begin log ≡ true → 1 ≤ measured p
  connected : any is_connect log ≡ true → 1 ≤ measured p

IsKnown-step :
    (now : ℕ) (e : Event) (p : Peer) (log : List Effect)
    → is_due e log ≡ true
    → IsKnown p log
    → IsKnown (step now e p).0 (log ++ (step now e p).1)
unfolding Measures Kept implies
IsKnown-step now e p log d w =
    let k = step-Kept now e p in
    let m = step-Measures now e p in
    record {
      few = ground (arith, w.few, k);
      selected = λ c. ground (arith, w.selected, k, m, c);
      began = λ c.
          ground (arith, any-append is_begin log (step now e p).1, w.selected, w.began, k, m, c);
      connected = λ c. ground (
        arith,
        any-append is_connect log (step now e p).1,
        w.connected,
        w.began,
        begin_sent-due e log d,
        k,
        m,
        c,
      );
    }

Session-IsKnown :
    (start : Acts) {p : Peer} {log : List Effect} {history : List Event}
    → IsKnown start.0 start.1
    → Session start p log history
    → IsKnown p log
Session-IsKnown start w negotiated = w
Session-IsKnown start w (happened {p} {log} {history} now e d s) =
    IsKnown-step now e p log d (Session-IsKnown start w s)

latency_known : (p : Peer) → 1 ≤ measured p → latency p ≢ none
unfolding latency
latency_known p h = λ e. ground (arith, h, e)

-- A peer that was created and negotiated, as a server or as a client, keeps six measurements at
-- most, and once it has connected its latency is known: asking for it does not throw.
pub connected_latency :
    (network_id : List ℕ) (providers : List Provider) (now at : ℕ) (p : Peer) (log : List Effect)
    (history : List Event)
    → let fresh = create network_id providers now in
      (Session (negotiate_as_server fresh) p log history)
        ⊎ (Session (negotiate_as_client at fresh) p log history)
      → (measured p ≤ 6) × (any is_connect log ≡ true → latency p ≢ none)
unfolding negotiate_as_server negotiate_as_client create latency is_selected
connected_latency network_id providers now at p log history s =
    let fresh = create network_id providers now in
    let w : IsKnown p log = elim s [
      | inl t ↦
          Session-IsKnown (negotiate_as_server fresh)
            (record { few = omega arith; selected = λ c. cc; began = λ c. cc; connected = λ c. cc })
            t
      | inr t ↦
          Session-IsKnown (negotiate_as_client at fresh)
            (record { few = omega arith; selected = λ c. cc; began = λ c. cc; connected = λ c. cc })
            t
    ] in
    (w.few, λ c. latency_known p (w.connected c))
