-- ===== src/NodeState/Following.antt =====
-- Two nodes and the messages between them, any of which may be lost, delayed, doubled or overtaken.
use ataraxia.Base.{
  ℕ, ◌+◌, ◌≤◌, ◌≡◌, ◌≢◌, ◌⊎◌, refl, sym, subst, Option, none, some, Bool, true, false, List, [],
  ◌∷◌, ◌++◌, Text, nat_eq, bytes_eq, arith, Bool-cases, inl, inr, All, All-append,
}
use ataraxia.Map
use ataraxia.Map.{Map}
use ataraxia.NodeState.Defs.{
  NodeState, PerNodeState, Message, request, patch, Effect, send, start_removal, clear_removal,
  emit_update, create, Acts, handle_node_available, handle_node_unavailable, remove, set_local,
  handle_message,
}
use ataraxia.NodeState.Sender.{
  value_at, IsGenuine, HasSet, Sends, set_local-Sends, handle_message-Sends,
  handle_node_available-Sends, handle_node_unavailable-Sends, remove-Sends,
}
use ataraxia.NodeState.Receiver.{
  Patches, Follows, later, set_local-Follows, handle_request-Follows, handle_patch-Follows,
  handle_node_available-Follows, handle_node_unavailable-Follows, remove-Follows,
}

-- What can happen to a node, besides that it sets its value.
pub data Event (P : Type 0) : Type 0 where
  gets : Text → Message P → Event P
  appears disappears removed : Text → Event P

module _ {V P : Type 0} (generate : V → ℕ → P) (apply : Option V → P → V) where
  unfoldable pub step : Event P → PerNodeState V → Acts generate apply
  unfolding handle_message handle_node_available handle_node_unavailable remove
  step (gets source message) s = handle_message generate apply source message s
  step (appears node) s = handle_node_available generate apply node s
  step (disappears node) s = handle_node_unavailable generate apply node s
  step (removed node) s = remove generate apply node s

-- An event that is no message of the node.
abbrev pub IsOther : {P : Type 0} → Text → Event P → Type 0
IsOther sender (gets source message) = source ≢ sender
IsOther sender _ = Unit

abbrev pub Among : {V P : Type 0} → Effect V P → List (Effect V P) → Type 0
Among e [] = ⊥
Among e (x ∷ log) = (x ≡ e) ⊎ Among e log

abbrev pub first_value : {V : Type 0} → (ℕ → V) → Bool → Option V
first_value history true = some (history 1)
first_value history false = none

-- `Reached … s r log`: the states of a node that sets its values as the history says and of one that
-- follows it, and all that the first has sent.
pub data Reached {V P : Type 0} (generate : V → ℕ → P) (apply : Option V → P → V) (history : ℕ → V)
    (sender receiver : Text) : PerNodeState V → PerNodeState V → List (Effect V P) → Type 0 where
  started :
      (name : Text) (initial : Bool) (own : Option V)
      → Reached generate apply history sender receiver
          (create name (first_value history initial))
          (create name own)
          []
  sender_sets :
      {s r : PerNodeState V} {log : List (Effect V P)} (group : List Text)
      → Reached generate apply history sender receiver s r log
      → Reached generate apply history sender receiver
          (set_local generate apply group (history (s.local_version + 1)) s).0
          r
          (log ++ (set_local generate apply group (history (s.local_version + 1)) s).1)
  sender_steps :
      {s r : PerNodeState V} {log : List (Effect V P)} (e : Event P)
      → Reached generate apply history sender receiver s r log
      → Reached generate apply history sender receiver
          (step generate apply e s).0
          r
          (log ++ (step generate apply e s).1)
  receiver_sets :
      {s r : PerNodeState V} {log : List (Effect V P)} (group : List Text) (value : V)
      → Reached generate apply history sender receiver s r log
      → Reached generate apply history sender receiver s
          (set_local generate apply group value r).0
          log
  receiver_steps :
      {s r : PerNodeState V} {log : List (Effect V P)} (e : Event P)
      → IsOther sender e
      → Reached generate apply history sender receiver s r log
      → Reached generate apply history sender receiver s (step generate apply e r).0 log
  delivered :
      {s r : PerNodeState V} {log : List (Effect V P)} (message : Message P)
      → Among (send receiver message) log
      → Reached generate apply history sender receiver s r log
      → Reached generate apply history sender receiver s
          (handle_message generate apply sender message r).0
          log

module _ {V P : Type 0} (generate : V → ℕ → P) (apply : Option V → P → V) (history : ℕ → V) where
  step-Sends :
      (e : Event P) (s : PerNodeState V)
      → HasSet generate apply history s
      → Sends generate apply history s.local_version (step generate apply e s)
  unfolding step
  step-Sends (gets source message) s h =
      handle_message-Sends generate apply history source message s h
  step-Sends (appears node) s h = handle_node_available-Sends generate apply history node s h
  step-Sends (disappears node) s h = handle_node_unavailable-Sends generate apply history node s h
  step-Sends (removed node) s h = remove-Sends generate apply history node s h

  -- A message of the node that is genuine, and any message of another one.
  handle_message-Follows :
      (node source : Text) (message : Message P) (now : ℕ) (s : PerNodeState V)
      → Patches generate apply history
      → Follows generate apply history node now s
      → (source ≡ node → IsGenuine generate apply history now (send [] message))
      → Follows generate apply history node now (handle_message generate apply source message s).0
  unfolding handle_message
  handle_message-Follows node source (request name last) now s h f g =
      elim (Bool-cases (bytes_eq.beq name s.name)) [
        | inl e ↦ rw e (handle_request-Follows generate apply history node source last now s f)
        | inr e ↦ rw e f
      ]
  handle_message-Follows node source (patch name base version p) now s h f g =
      elim (Bool-cases (bytes_eq.beq name s.name)) [
        | inl e ↦
            rw e
              (handle_patch-Follows generate apply history node source base version now p s h f g)
        | inr e ↦ rw e f
      ]

  step-Follows :
      (node : Text) (e : Event P) (now : ℕ) (s : PerNodeState V)
      → Patches generate apply history
      → IsOther node e
      → Follows generate apply history node now s
      → Follows generate apply history node now (step generate apply e s).0
  unfolding step
  step-Follows node (gets source message) now s h o f =
      handle_message-Follows node source message now s h f (λ q. absurd (o q))
  step-Follows node (appears j) now s h o f =
      handle_node_available-Follows generate apply history node j now s f
  step-Follows node (disappears j) now s h o f =
      handle_node_unavailable-Follows generate apply history node j now s f
  step-Follows node (removed j) now s h o f = remove-Follows generate apply history node j now s f

  IsGenuine-later :
      (now soon : ℕ) (log : List (Effect V P))
      → now ≤ soon
      → All (IsGenuine generate apply history now) log
      → All (IsGenuine generate apply history soon) log
  IsGenuine-later now soon [] l h = tt
  IsGenuine-later now soon (send node (patch name base version p) ∷ log) l h =
      ((h.0.0, h.0.1, omega (arith, h.0.2, l), h.0.3), IsGenuine-later now soon log l h.1)
  IsGenuine-later now soon (send node (request name last) ∷ log) l h =
      (tt, IsGenuine-later now soon log l h.1)
  IsGenuine-later now soon (start_removal node ∷ log) l h = (tt, IsGenuine-later now soon log l h.1)
  IsGenuine-later now soon (clear_removal node ∷ log) l h = (tt, IsGenuine-later now soon log l h.1)
  IsGenuine-later now soon (emit_update node value ∷ log) l h =
      (tt, IsGenuine-later now soon log l h.1)

  unaddressed :
      (node : Text) (message : Message P) (now : ℕ)
      → IsGenuine generate apply history now (send node message)
      → IsGenuine generate apply history now (send [] message)
  unaddressed node (request name last) now h = tt
  unaddressed node (patch name base version p) now h = h

  among :
      (node : Text) (message : Message P) (now : ℕ) (log : List (Effect V P))
      → All (IsGenuine generate apply history now) log
      → Among (send node message) log
      → IsGenuine generate apply history now (send [] message)
  among node message now [] h a = absurd a
  among node message now (x ∷ log) h (inl e) =
      unaddressed node message now (subst (IsGenuine generate apply history now) e h.0)
  among node message now (x ∷ log) h (inr a) = among node message now log h.1 a

  record Holds (sender : Text) (s r : PerNodeState V) (log : List (Effect V P)) : Type 0 where
    own : HasSet generate apply history s
    genuine : All (IsGenuine generate apply history s.local_version) log
    follows : Follows generate apply history sender s.local_version r

  create-HasSet :
      (name : Text) (initial : Bool)
      → HasSet generate apply history (create name (first_value history initial))
  unfolding create Map.get
  create-HasSet name true = record { local = refl; behind = λ node n e. cc }
  create-HasSet name false = record { local = refl; behind = λ node n e. cc }

  create-Follows :
      (name sender : Text) (own : Option V) (now : ℕ)
      → Follows generate apply history sender now (create name own)
  unfolding create Map.get
  create-Follows name sender none now = record { known = λ n e. cc }
  create-Follows name sender (some value) now = record { known = λ n e. cc }

  -- The node has moved on, and sent something.
  moved :
      (sender : Text) (s r : PerNodeState V) (log : List (Effect V P)) (now : ℕ)
      (a : Acts generate apply)
      → Holds sender s r log
      → s.local_version ≤ now
      → Sends generate apply history now a
      → Holds sender a.0 r (log ++ a.1)
  moved sender s r log now a h l m = record {
    own = m.state;
    genuine =
        subst (λ v. All (IsGenuine generate apply history v) (log ++ a.1)) (sym m.at)
          (All-append (IsGenuine generate apply history now) log a.1
            (IsGenuine-later s.local_version now log l h.genuine) m.genuine);
    follows =
        subst (λ v. Follows generate apply history sender v r) (sym m.at)
          (later generate apply history sender s.local_version now r l h.follows);
  }

  Reached-Holds :
      (sender receiver : Text) {s r : PerNodeState V} {log : List (Effect V P)}
      → Patches generate apply history
      → Reached generate apply history sender receiver s r log
      → Holds sender s r log
  Reached-Holds sender receiver h (started name initial own) = record {
    own = create-HasSet name initial;
    genuine = tt;
    follows = create-Follows name sender own _;
  }
  Reached-Holds sender receiver h (sender_sets {s} {r} {log} group t) =
      let w = Reached-Holds sender receiver h t in
      moved sender s r log (s.local_version + 1) _ w (omega arith)
        (set_local-Sends generate apply history group s w.own)
  Reached-Holds sender receiver h (sender_steps {s} {r} {log} e t) =
      let w = Reached-Holds sender receiver h t in
      moved sender s r log s.local_version _ w (omega arith) (step-Sends e s w.own)
  Reached-Holds sender receiver h (receiver_sets {s} {r} {log} group value t) =
      let w = Reached-Holds sender receiver h t in
      record {
        own = w.own;
        genuine = w.genuine;
        follows =
            set_local-Follows generate apply history sender group value s.local_version r w.follows;
      }
  Reached-Holds sender receiver h (receiver_steps {s} {r} {log} e o t) =
      let w = Reached-Holds sender receiver h t in
      record {
        own = w.own;
        genuine = w.genuine;
        follows = step-Follows sender e s.local_version r h o w.follows;
      }
  Reached-Holds sender receiver h (delivered {s} {r} {log} message a t) =
      let w = Reached-Holds sender receiver h t in
      record {
        own = w.own;
        genuine = w.genuine;
        follows =
            handle_message-Follows sender sender message s.local_version r h w.follows
              (λ q. among receiver message s.local_version log w.genuine a);
      }

  -- If a patch, applied to the value that it starts from, gives the value that it was made of: then
  -- whatever is lost, delayed, doubled or overtaken between a node and one that follows it, and
  -- whatever else happens to them, what the follower knows of the node is the very value that the
  -- node had at the version known, and the version is not from the future.
  pub Reached-IsKnown :
      (sender receiver : Text) (s r : PerNodeState V) (log : List (Effect V P))
      → Patches generate apply history
      → Reached generate apply history sender receiver s r log
      → (n : NodeState V) → Map.get sender r.nodes ≡ some n
      → (n.value ≡ value_at generate apply history n.version) × (n.version ≤ s.local_version)
  Reached-IsKnown sender receiver s r log h t n e =
      (Reached-Holds sender receiver h t).follows.known n e
