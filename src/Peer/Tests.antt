-- ===== src/Peer/Tests.antt =====
-- Tests of the peer, and its theorems on concrete negotiations.
use ataraxia.Base.{
  ℕ, ◌+◌, ◌≤◌, ◌≡◌, refl, true, false, List, [], ◌∷◌, ◌++◌, any, take, length, ltb, if◌then◌else◌,
}
use ataraxia.Base.{select as filter}
use ataraxia.Codec.{ok, begin, hello, select, auth}
use ataraxia.Peer.State.{
  waiting_for_select_ack, waiting_for_auth_ack, Provider, Peer, Effect, Acts, create,
}
use ataraxia.Peer.Flows.{accept}
use ataraxia.Peer.Events.{
  negotiate_as_server, negotiate_as_client, Event, receives, begin_sent, server_replies, step, run,
}
use ataraxia.Peer.Sessions.{is_begin, is_connect, is_accept, Session, negotiated, happened}
use ataraxia.Peer.Server.{server_accepted, is_past}
use ataraxia.Peer.Client.{client_accepted, is_select, progress}
use ataraxia.Peer.Providers.{select_ok_rejections, rejections, asked, gives_up, can_ask}
use ataraxia.Peer.Connection.{
  run_disconnects, second_ok, count, is_disconnect, is_active, is_start_pings,
}

abbrev anonymous : Provider
anonymous = record { method = 97 ∷ []; client = true; server = true }

abbrev server_only : Provider
server_only = record { method = 98 ∷ []; client = false; server = true }

abbrev providers : List Provider
providers = server_only ∷ anonymous ∷ []

abbrev fresh : Peer
fresh = create (7 ∷ []) providers 1000

abbrev server_at : List (ℕ × Event) → Acts
server_at events = run events (negotiate_as_server fresh)

-- SELECT, AUTH, the flow's reply and BEGIN.
abbrev s₁ : Acts
s₁ = step 1010 (receives (select (8 ∷ []) [])) (negotiate_as_server fresh).0

abbrev s₂ : Acts
s₂ = step 1020 (receives (auth (97 ∷ []) [])) s₁.0

abbrev s₃ : Acts
s₃ = step 1030 (server_replies accept) s₂.0

abbrev s₄ : Acts
s₄ = step 1050 (receives begin) s₃.0

abbrev server_log : List Effect
server_log = ((((negotiate_as_server fresh).1 ++ s₁.1) ++ s₂.1) ++ s₃.1) ++ s₄.1

abbrev server_history : List Event
server_history =
    receives begin
    ∷ server_replies accept
    ∷ receives (auth (97 ∷ []) [])
    ∷ receives (select (8 ∷ []) [])
    ∷ []

served : Session (negotiate_as_server fresh) s₄.0 server_log server_history
unfolding step negotiate_as_server create
served = happened 1050 (receives begin) refl (
    happened 1030 (server_replies accept) refl (
      happened 1020 (receives (auth (97 ∷ []) [])) refl
        (happened 1010 (receives (select (8 ∷ []) [])) refl negotiated)))

server_accepted_example :
    (any is_begin server_log ≡ false)
    × (any is_connect server_log ≡ true → any is_accept server_history ≡ true)
    × (is_past s₄.0.state ≡ true → any is_accept server_history ≡ true)
server_accepted_example = server_accepted fresh s₄.0 server_log server_history served

server_connects : any is_connect server_log ≡ true
unfolding step negotiate_as_server create
server_connects = refl

-- HELLO, the OK to SELECT, the OK to AUTH.
abbrev c₁ : Acts
c₁ = step 1010 (receives (hello (9 ∷ []) [])) (negotiate_as_client 1000 fresh).0

abbrev c₂ : Acts
c₂ = step 1040 (receives ok) c₁.0

abbrev c₃ : Acts
c₃ = step 1060 (receives ok) c₂.0

abbrev client_log : List Effect
client_log = (((negotiate_as_client 1000 fresh).1 ++ c₁.1) ++ c₂.1) ++ c₃.1

abbrev c₄ : Acts
c₄ = step 1070 begin_sent c₃.0

abbrev client_history : List Event
client_history = begin_sent ∷ receives ok ∷ receives ok ∷ receives (hello (9 ∷ []) []) ∷ []

asked_client : Session (negotiate_as_client 1000 fresh) c₄.0 (client_log ++ c₄.1) client_history
unfolding step negotiate_as_client create
asked_client = happened 1070 begin_sent refl (
    happened 1060 (receives ok) refl (
      happened 1040 (receives ok) refl
        (happened 1010 (receives (hello (9 ∷ []) [])) refl negotiated)))

client_accepted_example :
    (any is_begin (client_log ++ c₄.1) ≡ true
      → (progress client_history ≡ 3) × (any is_select (client_log ++ c₄.1) ≡ true))
    × (any is_connect (client_log ++ c₄.1) ≡ true → any is_begin (client_log ++ c₄.1) ≡ true)
client_accepted_example =
    client_accepted fresh c₄.0 1000 (client_log ++ c₄.1) client_history asked_client

abbrev selecting : Peer
selecting = record fresh { state = waiting_for_select_ack }

select_ok_rejections_example :
    let a = run ((5, receives ok) ∷ rejections (6 ∷ [])) (selecting, []) in
    let clients = filter can_ask providers in
    (asked a.1 ≡ take 2 clients) × (any gives_up a.1 ≡ ltb (length clients) 2)
unfolding create
select_ok_rejections_example = select_ok_rejections 5 (6 ∷ []) selecting refl

gives_up_example : ltb (length (filter can_ask providers)) 2 ≡ true
gives_up_example = refl

abbrev awaiting : Peer
awaiting = record fresh { state = waiting_for_auth_ack }

run_disconnects_example :
    let a = run ((5, receives ok) ∷ (6, begin_sent) ∷ []) (awaiting, []) in
    count is_disconnect a.1 + (if is_active a.0.state then 1 else 0) ≤ count is_connect a.1
run_disconnects_example = run_disconnects ((5, receives ok) ∷ (6, begin_sent) ∷ []) awaiting refl

second_ok_example :
    let a =
      run
        ((5, receives ok) ∷ (6, receives ok) ∷ (7, begin_sent) ∷ (8, begin_sent) ∷ [])
        (awaiting, []) in
    (count is_begin a.1 ≡ 2) × (count is_connect a.1 ≡ 2) × (count is_start_pings a.1 ≡ 2)
second_ok_example = second_ok 5 6 7 8 awaiting refl
