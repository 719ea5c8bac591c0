-- ===== src/Peer/Sessions.antt =====
-- What a peer does over time, and the steps that leave its phase as it is.
use ataraxia.Base.{
  ℕ, ◌≡◌, refl, Option, none, some, Bool, true, false, List, [], ◌∷◌, ◌++◌, ◌||◌, not, arith, Text,
  any,
}
use ataraxia.Codec.{ok, begin}
use ataraxia.Peer.State.{
  Phase, waiting_for_auth_ack, Provider, Peer, Effect, send, emit_connect, ask_receive_initial,
  ask_server_data, destroy_flow_for, Acts, abort_with, queue_negotiation_timeout, switch_to_active,
}
use ataraxia.Peer.Flows.{
  accept, decline, more, ClientReply, start_flow, pick_next_auth_provider, send_initial_auth,
  choose_server_flow, handle_client_reply, receive_auth,
}
use ataraxia.Peer.Events.{Event, receives, begin_sent, server_flow_destroyed, server_replies, step}

abbrev pub is_begin : Effect → Bool
is_begin (send begin) = true
is_begin _ = false

abbrev pub is_connect : Effect → Bool
is_connect emit_connect = true
is_connect _ = false

-- The effects that ask a server flow for something.
abbrev pub is_question : Effect → Bool
is_question (ask_receive_initial provider payload) = true
is_question (ask_server_data provider payload) = true
is_question (destroy_flow_for provider method payload) = true
is_question _ = false

abbrev pub is_accept : Event → Bool
is_accept (server_replies accept) = true
is_accept _ = false

abbrev pub is_ok : Event → Bool
is_ok (receives ok) = true
is_ok _ = false

unfoldable pub is_begin_sent : Event → Bool
is_begin_sent begin_sent = true
is_begin_sent _ = false

pub any-append : (f : Effect → Bool) (xs ys : List Effect) → any f (xs ++ ys) ≡ any f xs || any f ys
any-append f [] ys = refl
any-append f (x ∷ xs) ys = ground (arith, any-append f xs ys)

-- What a handler leaves as it is: the phase; and what it does not do.
unfoldable pub IsQuiet : Peer → Acts → Type 0
IsQuiet p a = (a.0.state ≡ p.state) × (any is_begin a.1 ≡ false) × (any is_connect a.1 ≡ false)

pub start_flow-IsQuiet :
    (provider : Option Provider) (p : Peer)
    → IsQuiet p (start_flow provider p) × (any is_question (start_flow provider p).1 ≡ false)
unfolding IsQuiet start_flow abort_with
start_flow-IsQuiet none p = ((refl, refl, refl), refl)
start_flow-IsQuiet (some provider) p = ((refl, refl, refl), refl)

pick_next-state : (p : Peer) → (pick_next_auth_provider p).1.state ≡ p.state
unfolding pick_next_auth_provider
pick_next-state p = ground arith

pub send_initial_auth-IsQuiet :
    (p : Peer) → IsQuiet p (send_initial_auth p) × (any is_question (send_initial_auth p).1 ≡ false)
unfolding IsQuiet send_initial_auth
send_initial_auth-IsQuiet p = ground (
  arith,
  pick_next-state p,
  start_flow-IsQuiet (pick_next_auth_provider p).0 (pick_next_auth_provider p).1,
)

pub choose_server_flow-IsQuiet :
    (method : Text) (payload : List ℕ) (p : Peer) → IsQuiet p (choose_server_flow method payload p)
unfolding IsQuiet choose_server_flow
choose_server_flow-IsQuiet method payload p = ground arith

pub receive_auth-IsQuiet :
    (method : Text) (payload : List ℕ) (p : Peer) → IsQuiet p (receive_auth method payload p)
unfolding IsQuiet receive_auth
receive_auth-IsQuiet method payload p = ground (
  arith,
  choose_server_flow-IsQuiet method payload p,
  any-append is_begin (choose_server_flow method payload p).1 (queue_negotiation_timeout ∷ []),
  any-append is_connect (choose_server_flow method payload p).1 (queue_negotiation_timeout ∷ []),
)

pub switch_to_active-effects :
    (now : ℕ) (p : Peer)
    → (any is_begin (switch_to_active now p).1 ≡ false)
      × (any is_question (switch_to_active now p).1 ≡ false)
unfolding switch_to_active
switch_to_active-effects now p = ground arith

unfoldable pub implies : Bool → Bool → Bool
implies a b = not a || b

-- The results of what a peer has started: BEGIN has been sent only after it was sent, and a server
-- flow replies, or has been destroyed for a new AUTH, only when it was asked.
abbrev pub is_due : Event → List Effect → Bool
is_due begin_sent log = any is_begin log
is_due (server_replies reply) log = any is_question log
is_due (server_flow_destroyed method payload) log = any is_question log
is_due _ log = true

-- `Session start p log history`: what a peer that negotiated by `start` has become, what it has
-- done, and what happened to it, the last event first.
pub data Session (start : Acts) : Peer → List Effect → List Event → Type 0 where
  negotiated : Session start start.0 start.1 []
  happened :
      {p : Peer} {log : List Effect} {history : List Event} (now : ℕ) (e : Event)
      → is_due e log ≡ true
      → Session start p log history
      → Session start (step now e p).0 (log ++ (step now e p).1) (e ∷ history)

pub handle_client_reply-IsQuiet :
    (reply : ClientReply) (p : Peer) → IsQuiet p (handle_client_reply reply p)
unfolding IsQuiet handle_client_reply
handle_client_reply-IsQuiet decline p = (send_initial_auth-IsQuiet p).0
handle_client_reply-IsQuiet (more payload) p = (refl, refl, refl)

unfoldable pub is_selected : Phase → Bool
is_selected waiting_for_auth_ack = true
is_selected _ = false

pub begin_sent-due :
    (e : Event) (log : List Effect)
    → is_due e log ≡ true
    → is_begin_sent e ≡ true
    → any is_begin log ≡ true
unfolding is_begin_sent
begin_sent-due begin_sent log d h = d
begin_sent-due _ log d h = cc
