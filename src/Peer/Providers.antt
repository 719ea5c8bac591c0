-- ===== src/Peer/Providers.antt =====
-- Which ways of authentication a client tries, and when it gives up.
use ataraxia.Base.{
  ℕ, suc, zero, ◌≡◌, refl, sym, ap, ◌∙◌, Option, none, some, Bool, true, false, List, [], ◌∷◌, ◌++◌,
  ltb, ◌||◌, arith, any, select, take, length, append_assoc, append-nil,
}
use ataraxia.Codec.{ok, reject}
use ataraxia.Peer.State.{
  waiting_for_select_ack, waiting_for_auth_ack, auth_reject, Provider, Peer, Effect,
  request_disconnect, ask_initial_message, abort_with, register_latency_reply,
}
use ataraxia.Peer.Flows.{pick, pick_next_auth_provider, start_flow, send_initial_auth}
use ataraxia.Peer.Events.{Event, receives, step, run, receive_data, receive_select_ok}

-- The providers that a client flow was asked of, in order.
abbrev pub asked : List Effect → List Provider
asked [] = []
asked (ask_initial_message provider ∷ log) = provider ∷ asked log
asked (_ ∷ log) = asked log

abbrev pub gives_up : Effect → Bool
gives_up (request_disconnect auth_reject) = true
gives_up _ = false

abbrev pub can_ask : Provider → Bool
can_ask provider = provider.client

-- So many REJECTs, at any times.
abbrev pub rejections : List ℕ → List (ℕ × Event)
rejections [] = []
rejections (now ∷ times) = (now, receives reject) ∷ rejections times

asked-append : (xs ys : List Effect) → asked (xs ++ ys) ≡ asked xs ++ asked ys
asked-append [] ys = refl
asked-append (x ∷ xs) ys = ground (arith, asked-append xs ys)

gives_up-append :
    (xs ys : List Effect) → any gives_up (xs ++ ys) ≡ any gives_up xs || any gives_up ys
gives_up-append [] ys = refl
gives_up-append (x ∷ xs) ys = ground (arith, gives_up-append xs ys)

or_empty : Option Provider → List Provider → List Provider
or_empty none rest = []
or_empty (some q) rest = q ∷ rest

pick-select :
    (ps : List Provider) → select can_ask ps ≡ or_empty (pick ps).0 (select can_ask (pick ps).1)
unfolding pick or_empty
pick-select [] = refl
pick-select (p ∷ ps) = ground (arith, pick-select ps)

-- A client that waits for the answer to an AUTH, and the providers it may still ask.
record Waits (ps : List Provider) (p : Peer) : Type 0 where
  phase : p.state ≡ waiting_for_auth_ack
  left : p.remaining_auth_providers ≡ some ps

start_flow-Waits :
    (picked : Option Provider) (ps : List Provider) (p : Peer)
    → Waits ps p
    → Waits ps (start_flow picked p).0
      × (asked (start_flow picked p).1 ≡ or_empty picked [])
      × (any gives_up (start_flow picked p).1 ≡ elim picked [ none ↦ true | some q ↦ false ])
unfolding start_flow abort_with or_empty
start_flow-Waits none ps p w = (w, refl, refl)
start_flow-Waits (some q) ps p w = (record { phase = w.phase; left = w.left }, refl, refl)

send_initial_auth_lem :
    (ps : List Provider) (p : Peer)
    → p.remaining_auth_providers ≡ some ps
    → send_initial_auth p
      ≡ start_flow (pick ps).0 (record p { remaining_auth_providers = some (pick ps).1 })
unfolding send_initial_auth pick_next_auth_provider
send_initial_auth_lem ps p e = rw (e, pick_next_auth_provider, send_initial_auth)

send_initial_auth-Waits :
    (ps : List Provider) (p : Peer)
    → Waits ps p
    → Waits (pick ps).1 (send_initial_auth p).0
      × (asked (send_initial_auth p).1 ≡ or_empty (pick ps).0 [])
      × (any gives_up (send_initial_auth p).1 ≡ elim (pick ps).0 [ none ↦ true | some q ↦ false ])
send_initial_auth-Waits ps p w = rw (send_initial_auth_lem ps p w.left) (
    start_flow-Waits (pick ps).0 (pick ps).1
      (record p { remaining_auth_providers = some (pick ps).1 })
      (record { phase = w.phase; left = refl }))

rejected_lem :
    (now : ℕ) (p : Peer)
    → p.state ≡ waiting_for_auth_ack
    → step now (receives reject) p ≡ send_initial_auth p
unfolding step receive_data
rejected_lem now p e = ground (arith, e)

pick-none : (ps : List Provider) → (pick ps).0 ≡ none → select can_ask (pick ps).1 ≡ []
unfolding pick
pick-none [] e = refl
pick-none (p ∷ ps) e = ground (arith, pick-none ps, e)

take-nil : (n : ℕ) → take {A = Provider} n [] ≡ []
take-nil zero = refl
take-nil (suc n) = refl

-- One attempt, and those that are left.
take-or_empty :
    (n : ℕ) (picked : Option Provider) (left log more : List Provider)
    → more ≡ or_empty picked []
    → (picked ≡ none → left ≡ [])
    → (log ++ more) ++ take n left ≡ log ++ take (suc n) (or_empty picked left)
unfolding or_empty
take-or_empty n none left log more e h = rw (e, h refl, append-nil log, take-nil n) (append-nil log)
take-or_empty n (some q) left log more e h = rw (e, append_assoc) refl

ltb-or_empty :
    (n : ℕ) (picked : Option Provider) (left : List Provider)
    → (picked ≡ none → left ≡ [])
    → (elim picked [ none ↦ true | some q ↦ false ]) || ltb (length left) n
      ≡ ltb (length (or_empty picked left)) (suc n)
unfolding or_empty
ltb-or_empty n none left h = ground arith
ltb-or_empty n (some q) left h = ground arith

rejections_none :
    (ps : List Provider) (p : Peer) (log : List Effect)
    → (asked (run [] (p, log)).1 ≡ asked log ++ [])
      × (any gives_up (run [] (p, log)).1 ≡ any gives_up log || ltb (length (select can_ask ps)) 0)
unfolding run
rejections_none ps p log = (sym (append-nil (asked log)), ground arith)

run-rejected :
    (now : ℕ) (times : List ℕ) (p : Peer) (log : List Effect)
    → p.state ≡ waiting_for_auth_ack
    → run (rejections (now ∷ times)) (p, log)
      ≡ run (rejections times) ((send_initial_auth p).0, log ++ (send_initial_auth p).1)
unfolding run
run-rejected now times p log e =
    ap (λ b. run (rejections times) (b.0, log ++ b.1)) (rejected_lem now p e)

rejections_lem :
    (times : List ℕ) (ps : List Provider) (p : Peer) (log : List Effect)
    → Waits ps p
    → let a = run (rejections times) (p, log) in
      (asked a.1 ≡ asked log ++ take (length times) (select can_ask ps))
      × (any gives_up a.1 ≡ any gives_up log || ltb (length (select can_ask ps)) (length times))
rejections_lem [] ps p log w = rejections_none ps p log
rejections_lem (now ∷ times) ps p log w =
    let a = send_initial_auth-Waits ps p w in
    let rest =
      rejections_lem times (pick ps).1 (send_initial_auth p).0 (log ++ (send_initial_auth p).1)
        a.0 in
    (
      ap (λ b. asked b.1) (run-rejected now times p log w.phase)
          ∙ (rest.0
              ∙ (ap (λ l. l ++ take (length times) (select can_ask (pick ps).1))
                    (asked-append log (send_initial_auth p).1)
                  ∙ (take-or_empty (length times) (pick ps).0 (select can_ask (pick ps).1)
                        (asked log) (asked (send_initial_auth p).1) a.1 (pick-none ps)
                      ∙ ap (λ l. asked log ++ take (suc (length times)) l)
                          (sym (pick-select ps))))),
      ap (λ b. any gives_up b.1) (run-rejected now times p log w.phase)
          ∙ (rest.1
              ∙ ground (
                arith,
                gives_up-append log (send_initial_auth p).1,
                a.1,
                ltb-or_empty (length times) (pick ps).0 (select can_ask (pick ps).1) (pick-none ps),
                pick-select ps,
              )),
    )

-- The peer at the end of a SELECT that was accepted, before it asks its first provider.
selected : ℕ → Peer → Peer
selected now p = record (register_latency_reply now p) {
  state = waiting_for_auth_ack;
  remaining_auth_providers = some p.auth_providers;
}

select_ok_lem :
    (now : ℕ) (p : Peer)
    → p.state ≡ waiting_for_select_ack
    → step now (receives ok) p ≡ send_initial_auth (selected now p)
unfolding step receive_data receive_select_ok selected
select_ok_lem now p e = ground (arith, e)

run-select_ok :
    (now : ℕ) (times : List ℕ) (p : Peer)
    → p.state ≡ waiting_for_select_ack
    → run ((now, receives ok) ∷ rejections times) (p, [])
      ≡ run (rejections (now ∷ times)) (selected now p, [])
unfolding run selected
run-select_ok now times p e =
    ap (λ b. run (rejections times) (b.0, b.1)) (select_ok_lem now p e)
    ∙ sym (run-rejected now times (selected now p) [] refl)

-- A client whose SELECT was accepted, and that is then rejected any number of times, at any times,
-- asks its providers with a client flow one after the other, in their order, none twice, one for
-- each answer; it gives up, by a disconnect for authentication, exactly when it runs out of them.
pub select_ok_rejections :
    (now : ℕ) (times : List ℕ) (p : Peer)
    → p.state ≡ waiting_for_select_ack
    → let a = run ((now, receives ok) ∷ rejections times) (p, []) in
      let clients = select can_ask p.auth_providers in
      (asked a.1 ≡ take (suc (length times)) clients)
      × (any gives_up a.1 ≡ ltb (length clients) (suc (length times)))
unfolding selected
select_ok_rejections now times p e = rw (run-select_ok now times p e) (
    rejections_lem (now ∷ times) p.auth_providers (selected now p) []
      (record { phase = refl; left = refl }))
