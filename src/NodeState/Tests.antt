-- ===== src/NodeState/Tests.antt =====
-- Tests of the state for each node, and its theorems with the patches that are the default.
use ataraxia.Base.{
  ℕ, ◌+◌, ◌≡◌, ◌≤◌, refl, true, false, List, [], ◌∷◌, ◌++◌, Text, Option, some, none, arith,
  bytes_eq, inl, inr,
}
use ataraxia.Map
use ataraxia.NodeState.Defs.{
  NodeState, PerNodeState, request, patch, Effect, send, emit_update, create, set_local,
  handle_message, request_value,
}
use ataraxia.NodeState.Sender.{value_at, HasSet}
use ataraxia.NodeState.Receiver.{Patches}
use ataraxia.NodeState.Following.{
  Reached, started, sender_sets, sender_steps, receiver_steps, delivered, appears, step,
  Reached-IsKnown,
}
use ataraxia.NodeState.Rounds.{next_patch, round_updates}

-- `currentValue => currentValue`
abbrev pub default_generate : ℕ → ℕ → ℕ
default_generate value version = value

-- `(_, patch) => patch`
abbrev pub default_apply : Option ℕ → ℕ → ℕ
default_apply value p = p

abbrev squares : ℕ → ℕ
squares v = v + 100

default-Patches : Patches default_generate default_apply squares
default-Patches base version h k = refl

abbrev s1 : Text
s1 = 1 ∷ []

abbrev r2 : Text
r2 = 2 ∷ []

abbrev sender : PerNodeState ℕ
sender = record {
  name = [];
  nodes =
      (
        r2,
        record {
          available = true;
          expires = false;
          assumed_local_version = 0;
          version = 0;
          value = none;
        },
      )
      ∷ [];
  local_version = 2;
  local_value = some 102;
}

abbrev follower : PerNodeState ℕ
follower = record {
  name = [];
  nodes =
      (
        s1,
        record {
          available = true;
          expires = false;
          assumed_local_version = 0;
          version = 1;
          value = some 101;
        },
      )
      ∷ [];
  local_version = 0;
  local_value = none;
}

abbrev known_of_sender : NodeState ℕ
known_of_sender = record {
  available = true;
  expires = false;
  assumed_local_version = 0;
  version = 1;
  value = some 101;
}

abbrev known_of_follower : NodeState ℕ
known_of_follower = record {
  available = true;
  expires = false;
  assumed_local_version = 0;
  version = 0;
  value = none;
}

sender-HasSet : HasSet default_generate default_apply squares sender
unfolding Map.get
sender-HasSet = record { local = refl; behind = λ j n e. ground (arith, e) }

round_updates_example :
    let after =
      handle_message default_generate default_apply s1
        (next_patch default_generate default_apply squares [] 1 2)
        follower in
    (request_value default_generate default_apply s1 follower
      ≡ (follower, send s1 (request [] 1) ∷ []))
    × ((handle_message default_generate default_apply r2 (request [] 1) sender).1
        ≡ send r2 (next_patch default_generate default_apply squares [] 1 2) ∷ [])
    × (Map.get s1 after.0.nodes ≡ some (record known_of_sender { value = some 102; version = 2 }))
    × (after.1 ≡ emit_update s1 (some 102) ∷ [])
unfolding Map.get
round_updates_example =
    round_updates default_generate default_apply squares s1 r2 known_of_follower known_of_sender
      sender follower default-Patches sender-HasSet refl refl refl (refl, omega arith) (omega arith)

-- Both appear, the sender sets its first value, and the patch arrives.
abbrev fresh : PerNodeState ℕ
fresh = create [] none

abbrev met : PerNodeState ℕ × List (Effect ℕ ℕ)
met = step default_generate default_apply (appears r2) fresh

abbrev following : PerNodeState ℕ × List (Effect ℕ ℕ)
following = step default_generate default_apply (appears s1) fresh

abbrev having_set : PerNodeState ℕ × List (Effect ℕ ℕ)
having_set =
    set_local default_generate default_apply (r2 ∷ []) (squares (met.0.local_version + 1)) met.0

abbrev log : List (Effect ℕ ℕ)
log = ([] ++ met.1) ++ having_set.1

abbrev arrived : PerNodeState ℕ × List (Effect ℕ ℕ)
arrived = handle_message default_generate default_apply s1 (patch [] 0 1 101) following.0

reached : Reached default_generate default_apply squares s1 r2 having_set.0 arrived.0 log
unfolding step set_local create Map.get Map.set
reached = delivered (patch [] 0 1 101) (inr (inl refl)) (
    sender_sets (r2 ∷ [])
      (receiver_steps (appears s1) tt (sender_steps (appears r2) (started [] false none))))

abbrev known_then : NodeState ℕ
known_then = record known_of_sender { value = some 101 }

known_after : Map.get s1 arrived.0.nodes ≡ some known_then
unfolding step set_local create Map.get Map.set
known_after = refl

Reached-IsKnown_example :
    (some 101 ≡ value_at default_generate default_apply squares 1)
    × (1 ≤ having_set.0.local_version)
Reached-IsKnown_example =
    Reached-IsKnown default_generate default_apply squares s1 r2 having_set.0 arrived.0 log
      default-Patches reached known_then known_after
