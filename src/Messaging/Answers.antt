-- ===== src/Messaging/Answers.antt =====
-- Acknowledgements and rejections on the way back.
use ataraxia.Base.{ℕ, ◌≡◌, some, false, List, [], ◌∷◌, ◌++◌, nat_eq, arith, Text}
use ataraxia.Ids.{same_id}
use ataraxia.Codec.{DataMessage, DataMessagePathEntry}
use ataraxia.Map
use ataraxia.Messaging.Defs.{
  own, routed, Messaging, send_data, send_ack, send_reject, start_timer, clear_timer, resolve, fail,
  timed_out, could_not_forward, Routes, release_id, time_out, send, last_entry, contains_node,
  forward, handle_from, handle_data, pass_back, handle_ack, handle_reject,
}

-- A message that reaches `routes.self` from `from` and can be forwarded to `to`.
pub record IsForwarded (routes : Routes) (message : DataMessage) (last : DataMessagePathEntry)
    (to : List ℕ) : Type 0 where
  pub has_last : last_entry message.path ≡ some last
  pub not_here : same_id message.target routes.self ≡ false
  pub on_the_way : routes.find_peer_for_target message.target ≡ some to
  pub no_loop : contains_node message.path to ≡ false

module _ (routes : Routes) (from to : List ℕ) (message : DataMessage) (last : DataMessagePathEntry)
    (m : Messaging) (w : IsForwarded routes message last to) where
  -- A message that can be forwarded is sent on under a new number, with this node at the end of its
  -- path, and nothing else is sent. An acknowledgement of that number is passed back to the peer
  -- that the message came from, under the number that the message had there, and a rejection
  -- likewise; either stops the timer, and after either of them a further acknowledgement or rejection
  -- of that number does nothing.
  pub handle_data-forwarded :
      (later : Routes) (back : List ℕ)
      → later.get_peer from ≡ some back
      → let s = handle_data routes from message m in
        let id = m.id_counter in
        (s.1
          ≡ start_timer id
            ∷ send_data to (record message {
              path = message.path ++ record { node = routes.self; id = id } ∷ [];
            })
            ∷ [])
        × ((handle_ack later id s.0).1 ≡ clear_timer id ∷ send_ack back last.id ∷ [])
        × ((handle_reject later id s.0).1 ≡ clear_timer id ∷ send_reject back last.id ∷ [])
        × ((handle_ack later id (handle_ack later id s.0).0).1 ≡ [])
        × ((handle_reject later id (handle_ack later id s.0).0).1 ≡ [])
        × ((handle_ack later id (handle_reject later id s.0).0).1 ≡ [])
        × ((handle_reject later id (handle_reject later id s.0).0).1 ≡ [])
  unfolding handle_data handle_from forward handle_ack handle_reject pass_back release_id
  handle_data-forwarded later back there =
      let id = m.id_counter in
      let entry = routed (record { peer = from; id = last.id }) in
      let stored = Map.get-set id id entry m.pending in
      let gone = Map.get-delete id id (Map.set id entry m.pending) in
      (
        ground (arith, w.has_last, w.not_here, w.on_the_way, w.no_loop),
        ground (arith, w.has_last, w.not_here, w.on_the_way, w.no_loop, stored, there),
        ground (arith, w.has_last, w.not_here, w.on_the_way, w.no_loop, stored, there),
        ground (arith, w.has_last, w.not_here, w.on_the_way, w.no_loop, stored, there, gone),
        ground (arith, w.has_last, w.not_here, w.on_the_way, w.no_loop, stored, there, gone),
        ground (arith, w.has_last, w.not_here, w.on_the_way, w.no_loop, stored, there, gone),
        ground (arith, w.has_last, w.not_here, w.on_the_way, w.no_loop, stored, there, gone),
      )

-- A message that is sent to a reachable target gets the next number, which waits; an acknowledgement
-- resolves its promise, a rejection or a timeout rejects it.
pub send_answers :
    (routes later : Routes) (target : List ℕ) (type : Text) (payload peer : List ℕ) (m : Messaging)
    → routes.find_peer_for_target target ≡ some peer
    → let s = send routes target type payload m in
      let id = m.id_counter in
      (s.0 ≡ some id)
      × ((handle_ack later id s.1.0).1 ≡ clear_timer id ∷ resolve id ∷ [])
      × ((handle_reject later id s.1.0).1 ≡ clear_timer id ∷ fail id could_not_forward ∷ [])
      × ((time_out id s.1.0).1 ≡ clear_timer id ∷ fail id timed_out ∷ [])
unfolding send handle_ack handle_reject time_out release_id
send_answers routes later target type payload peer m p =
    let stored = Map.get-set m.id_counter m.id_counter own m.pending in
    (
      ground (arith, p),
      ground (arith, p, stored),
      ground (arith, p, stored),
      ground (arith, p, stored),
    )
