-- ===== src/Messaging/Tests.antt =====
-- Runs of the messaging, and the theorems at concrete ones.
use ataraxia.Base.{
  ℕ, ◌+◌, ◌≤◌, ◌<◌, ◌≡◌, ◌≢◌, refl, some, List, [], ◌∷◌, ◌++◌, arith, nat_eq, inl, inr, length,
}
use ataraxia.Ids.{same_id}
use ataraxia.Codec.{DataMessage}
use ataraxia.Map
use ataraxia.Messaging.Defs.{
  own, Messaging, send_data, send_ack, send_reject, emit_data, refresh_routing, start_timer,
  clear_timer, resolve, fail, timed_out, could_not_forward, Routes, Event, sends, sending_fails,
  acknowledged, rejected, times_out, create, send, handle_data, handle_ack, handle_reject, time_out,
  contains_node, run, throw_type_error,
}
use ataraxia.Messaging.Settling.{times, waits, one_if, IsFresh}
use ataraxia.Messaging.Promises.{run_at_most_once, run_kept, send_failed_never_settled}
use ataraxia.Messaging.Answers.{IsForwarded, handle_data-forwarded, send_answers}
use ataraxia.Messaging.Hops.{Travels-bound}
use ataraxia.Messaging.Loops.{NoSelfPeer, IsOnItsWay, Travels, sent, forwarded, Travels-IsOnItsWay}

-- Node 1 reaches everything over node 2, node 2 over node 3.
abbrev routes_of : ℕ → ℕ → Routes
routes_of self next = record {
  self = self ∷ [];
  find_peer_for_target = λ target. some (next ∷ []);
  get_peer = λ id. some id;
}

abbrev message : DataMessage
message = record {
  path = record { node = 1 ∷ []; id = 0 } ∷ [];
  target = 3 ∷ [];
  type = 7 ∷ [];
  payload = 8 ∷ [];
}

abbrev started : Messaging
started = record { pending = (0, own) ∷ []; id_counter = 1 }

send_test :
    send (routes_of 1 2) (3 ∷ []) (7 ∷ []) (8 ∷ []) create
    ≡ (some 0, (started, start_timer 0 ∷ send_data (2 ∷ []) message ∷ []))
unfolding send create Map.set
send_test = refl

delivered_test :
    (handle_data (routes_of 3 9) (2 ∷ []) message create).1
    ≡ send_ack (2 ∷ []) 0 ∷ refresh_routing ∷ emit_data (1 ∷ []) (7 ∷ []) (8 ∷ []) ∷ []
unfolding handle_data same_id
delivered_test = refl

loop_test : (handle_data (routes_of 2 1) (1 ∷ []) message create).1 ≡ send_reject (1 ∷ []) 0 ∷ []
unfolding handle_data contains_node same_id
loop_test = refl

no_path_test :
    (handle_data (routes_of 2 1) (1 ∷ []) (record message { path = [] }) create).1
    ≡ throw_type_error ∷ []
unfolding handle_data same_id
no_path_test = refl

abbrev history : List (Routes × Event)
history =
    (routes_of 1 2, sends (3 ∷ []) [] [])
    ∷ (routes_of 1 2, acknowledged 0)
    ∷ (routes_of 1 2, times_out 0)
    ∷ []

run_at_most_once_example :
    let s = run history (create, []) in times 0 s.1 + one_if (waits 0 s.0) ≤ 1
run_at_most_once_example = run_at_most_once 0 history

started-IsFresh : IsFresh started
unfolding Map.get
started-IsFresh id h = ground arith

run_kept_example :
    let s = run ((routes_of 1 2, rejected 0) ∷ []) (started, []) in
    times 0 s.1 + one_if (waits 0 s.0) ≡ times 0 [] + one_if (waits 0 started)
run_kept_example =
    run_kept 0 ((routes_of 1 2, rejected 0) ∷ []) started [] started-IsFresh (omega arith)
      (refl, tt)

send_failed_never_settled_example :
    times 0
      (run ((routes_of 1 2, sending_fails 0) ∷ (routes_of 1 2, times_out 0) ∷ []) (started, [])).1
    ≡ 0
unfolding Map.get
send_failed_never_settled_example =
    send_failed_never_settled 0 ((routes_of 1 2, times_out 0) ∷ []) (routes_of 1 2) started
      started-IsFresh refl

on_the_way :
    IsForwarded
      (routes_of 2 3)
      (record message { target = 4 ∷ [] })
      (record { node = 1 ∷ []; id = 0 })
      (3 ∷ [])
unfolding contains_node same_id
on_the_way = record { has_last = refl; not_here = refl; on_the_way = refl; no_loop = refl }

handle_data-forwarded_example :
    let m = record message { target = 4 ∷ [] } in
    let s = handle_data (routes_of 2 3) (1 ∷ []) m started in
    (s.1
      ≡ start_timer 1
        ∷ send_data (3 ∷ []) (record m { path = m.path ++ record { node = 2 ∷ []; id = 1 } ∷ [] })
        ∷ [])
    × ((handle_ack (routes_of 2 3) 1 s.0).1 ≡ clear_timer 1 ∷ send_ack (1 ∷ []) 0 ∷ [])
    × ((handle_reject (routes_of 2 3) 1 s.0).1 ≡ clear_timer 1 ∷ send_reject (1 ∷ []) 0 ∷ [])
    × ((handle_ack (routes_of 2 3) 1 (handle_ack (routes_of 2 3) 1 s.0).0).1 ≡ [])
    × ((handle_reject (routes_of 2 3) 1 (handle_ack (routes_of 2 3) 1 s.0).0).1 ≡ [])
    × ((handle_ack (routes_of 2 3) 1 (handle_reject (routes_of 2 3) 1 s.0).0).1 ≡ [])
    × ((handle_reject (routes_of 2 3) 1 (handle_reject (routes_of 2 3) 1 s.0).0).1 ≡ [])
handle_data-forwarded_example =
    handle_data-forwarded (routes_of 2 3) (1 ∷ []) (3 ∷ []) (record message { target = 4 ∷ [] })
      (record { node = 1 ∷ []; id = 0 }) started on_the_way (routes_of 2 3) (1 ∷ []) refl

send_answers_example :
    let s = send (routes_of 1 2) (3 ∷ []) [] [] started in
    (s.0 ≡ some 1)
    × ((handle_ack (routes_of 1 2) 1 s.1.0).1 ≡ clear_timer 1 ∷ resolve 1 ∷ [])
    × ((handle_reject (routes_of 1 2) 1 s.1.0).1 ≡ clear_timer 1 ∷ fail 1 could_not_forward ∷ [])
    × ((time_out 1 s.1.0).1 ≡ clear_timer 1 ∷ fail 1 timed_out ∷ [])
send_answers_example =
    send_answers (routes_of 1 2) (routes_of 1 2) (3 ∷ []) [] [] (2 ∷ []) started refl

no_self : (a b : ℕ) → a ≢ b → NoSelfPeer (routes_of a b)
no_self a b h target peer p e = h (sym_head e p)
  where
    sym_head : peer ≡ a ∷ [] → some (b ∷ []) ≡ some peer → a ≡ b
    sym_head e p = ground arith

abbrev second_hop : DataMessage
second_hop = record message {
  path = record { node = 1 ∷ []; id = 0 } ∷ record { node = 2 ∷ []; id = 1 } ∷ [];
}

traveller : Travels (3 ∷ []) second_hop
unfolding send handle_data same_id contains_node create
traveller =
    forwarded (routes_of 2 3) (1 ∷ []) started (no_self 2 3 (omega arith)) refl
      (sent (routes_of 1 2) (3 ∷ []) (7 ∷ []) (8 ∷ []) create (no_self 1 2 (omega arith))
        (inr (inl refl)))
      (inr (inl refl))

Travels-IsOnItsWay_example : IsOnItsWay (3 ∷ []) second_hop
Travels-IsOnItsWay_example = Travels-IsOnItsWay traveller

abbrev nodes : List (List ℕ)
nodes = (1 ∷ []) ∷ (2 ∷ []) ∷ (3 ∷ []) ∷ []

Travels-bound_example : length second_hop.path < length nodes
unfolding same_id
Travels-bound_example = Travels-bound nodes traveller refl (refl, (refl, tt))
