-- ===== src/Messaging/Loops.antt =====
-- The paths of the messages that travel a network.
use ataraxia.Base.{
  ℕ, ◌≡◌, ◌≢◌, refl, sym, subst, ◌⊎◌, inl, inr, some, false, List, [], ◌∷◌, ◌++◌, ◌||◌, arith,
  Bool-cases, Option-cases, Text, All,
}
use ataraxia.Ids.{same_id}
use ataraxia.Ids.Printing.{same_id-eq_iff}
use ataraxia.Codec.{DataMessage, DataMessagePathEntry}
use ataraxia.Messaging.Defs.{
  Messaging, Effect, send_data, Routes, send, last_entry, contains_node, forward, handle_from,
  handle_no_path, handle_data,
}

-- The nodes of a path are different from one another.
abbrev pub IsSimple : List DataMessagePathEntry → Type 0
IsSimple [] = Unit
IsSimple (p ∷ path) = (contains_node path p.node ≡ false) × IsSimple path

contains_node-append :
    (path more : List DataMessagePathEntry) (id : List ℕ)
    → contains_node (path ++ more) id ≡ contains_node path id || contains_node more id
unfolding contains_node
contains_node-append [] more id = refl
contains_node-append (p ∷ path) more id = ground (arith, contains_node-append path more id)

IsSimple-snoc :
    (path : List DataMessagePathEntry) (p : DataMessagePathEntry)
    → IsSimple path
    → contains_node path p.node ≡ false
    → IsSimple (path ++ p ∷ [])
unfolding contains_node
IsSimple-snoc [] p h k = (refl, tt)
IsSimple-snoc (q ∷ path) p h k = (
  ground (
    arith,
    contains_node-append path (p ∷ []) q.node,
    same_id-eq_iff p.node q.node,
    same_id-eq_iff q.node p.node,
    h.0,
  ),
  IsSimple-snoc path p h.1 (ground arith),
)

-- A message on its way to `to`: its path visits no node twice, and not yet `to`.
pub record IsOnItsWay (to : List ℕ) (message : DataMessage) : Type 0 where
  pub simple : IsSimple message.path
  pub ahead : contains_node message.path to ≡ false

-- A node has no peer that is the node itself.
abbrev pub NoSelfPeer : Routes → Type 0
NoSelfPeer routes =
    (target peer : List ℕ) → routes.find_peer_for_target target ≡ some peer → peer ≢ routes.self

abbrev OnItsWay : Effect → Type 0
OnItsWay (send_data to message) = IsOnItsWay to message
OnItsWay _ = Unit

abbrev AllOnTheirWay : List Effect → Type 0
AllOnTheirWay = All OnItsWay

self_ne_peer : (self peer : List ℕ) → peer ≢ self → same_id self peer ≡ false
self_ne_peer self peer h = elim (Bool-cases (same_id self peer)) [
  | inl e ↦ absurd (h (sym ((same_id-eq_iff self peer).0 e)))
  | inr e ↦ e
]

contains_node-snoc :
    (path : List DataMessagePathEntry) (peer self : List ℕ) (id : ℕ)
    → contains_node path peer ≡ false
    → same_id self peer ≡ false
    → contains_node (path ++ record { node = self; id = id } ∷ []) peer ≡ false
unfolding contains_node
contains_node-snoc path peer self id h k =
    ground (arith, contains_node-append path (record { node = self; id = id } ∷ []) peer)

send-OnTheirWay :
    (routes : Routes) (target : List ℕ) (type : Text) (payload : List ℕ) (m : Messaging)
    → NoSelfPeer routes
    → AllOnTheirWay (send routes target type payload m).1.1
unfolding send contains_node
send-OnTheirWay routes target type payload m h =
    elim (Option-cases (routes.find_peer_for_target target)) [
      | inl p ↦ rw (p, send) tt
      | inr (peer, p) ↦
          rw (p, send)
            (
              tt,
              (
                record {
                  simple = (refl, tt);
                  ahead = ground (arith, self_ne_peer routes.self peer (h target peer p));
                },
                tt,
              ),
            )
    ]

handle_from-OnTheirWay :
    (routes : Routes) (from : List ℕ) (last : ℕ) (message : DataMessage) (m : Messaging)
    → NoSelfPeer routes
    → IsOnItsWay routes.self message
    → AllOnTheirWay (handle_from routes from last message m).1
unfolding handle_from forward
handle_from-OnTheirWay routes from last message m h w =
    elim (Bool-cases (same_id message.target routes.self)) [
      | inl here ↦ rw here (tt, (tt, (tt, tt)))
      | inr there ↦ elim (Option-cases (routes.find_peer_for_target message.target)) [
        | inl p ↦ rw there (rw (p, handle_from) (tt, tt))
        | inr (peer, p) ↦ elim (Bool-cases (contains_node message.path peer)) [
          | inl loop ↦ rw there (rw (p, handle_from) (rw loop (tt, tt)))
          | inr free ↦ rw there (
              rw (p, handle_from)
                (rw free (
                  tt,
                  (
                    record {
                      simple =
                          IsSimple-snoc message.path
                            (record { node = routes.self; id = m.id_counter }) w.simple w.ahead;
                      ahead =
                          contains_node-snoc message.path peer routes.self m.id_counter free
                            (self_ne_peer routes.self peer (h message.target peer p));
                    },
                    tt,
                  ),
                )))
        ]
      ]
    ]

no_path :
    (routes : Routes) (message : DataMessage) (m : Messaging)
    → AllOnTheirWay (handle_no_path routes message m).1
unfolding handle_no_path
no_path routes message m = elim (Bool-cases (same_id message.target routes.self)) [
  | inl here ↦ rw here (tt, tt)
  | inr there ↦ elim (Option-cases (routes.find_peer_for_target message.target)) [
    | inl p ↦ rw there (rw (p, handle_no_path) (tt, tt))
    | inr (peer, p) ↦ rw there (rw (p, handle_no_path) (tt, tt))
  ]
]

handle_data-OnTheirWay :
    (routes : Routes) (from : List ℕ) (message : DataMessage) (m : Messaging)
    → NoSelfPeer routes
    → IsOnItsWay routes.self message
    → AllOnTheirWay (handle_data routes from message m).1
unfolding handle_data
handle_data-OnTheirWay routes from message m h w = elim (Option-cases (last_entry message.path)) [
  | inl p ↦ rw (p, handle_data) (no_path routes message m)
  | inr (last, p) ↦ rw (p, handle_data) (handle_from-OnTheirWay routes from last.id message m h w)
]

-- A handler sends a message to a peer.
abbrev pub Sends : List ℕ → DataMessage → List Effect → Type 0
Sends to message [] = ⊥
Sends to message (e ∷ effects) = (e ≡ send_data to message) ⊎ Sends to message effects

Sends-IsOnItsWay :
    (to : List ℕ) (message : DataMessage) (effects : List Effect)
    → AllOnTheirWay effects
    → Sends to message effects
    → IsOnItsWay to message
Sends-IsOnItsWay to message [] h s = absurd s
Sends-IsOnItsWay to message (e ∷ effects) h (inl p) = subst OnItsWay p h.0
Sends-IsOnItsWay to message (e ∷ effects) h (inr s) = Sends-IsOnItsWay to message effects h.1 s

-- `Travels to message`: some node of the network sends the message to `to`, be it the first or one
-- that forwards what travels to it. The nodes, their state and their routing are any, but that no
-- routing names the node itself as a peer.
pub data Travels : List ℕ → DataMessage → Type 0 where
  sent :
      {to : List ℕ} {message : DataMessage} (routes : Routes) (target : List ℕ) (type : Text)
      (payload : List ℕ) (m : Messaging)
      → NoSelfPeer routes
      → Sends to message (send routes target type payload m).1.1
      → Travels to message
  forwarded :
      {to at : List ℕ} {message next : DataMessage} (routes : Routes) (from : List ℕ)
      (m : Messaging)
      → NoSelfPeer routes
      → routes.self ≡ at
      → Travels at message
      → Sends to next (handle_data routes from message m).1
      → Travels to next

-- A message that travels has visited no node twice, and is not sent to a node that it has visited.
pub Travels-IsOnItsWay :
    {to : List ℕ} {message : DataMessage} → Travels to message → IsOnItsWay to message
Travels-IsOnItsWay (sent {to = to} {message = message} routes target type payload m h s) =
    Sends-IsOnItsWay to message _ (send-OnTheirWay routes target type payload m h) s
Travels-IsOnItsWay
      (forwarded {to = to} {at = at} {message = message} {next = next} routes from m h e t s) =
    Sends-IsOnItsWay to next _
      (handle_data-OnTheirWay routes from message m h
        (subst (λ i. IsOnItsWay i message) (sym e) (Travels-IsOnItsWay t)))
      s
