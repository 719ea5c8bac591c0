-- ===== src/NodeState/Rounds.antt =====
-- A request, its answer, and the follower that gets the answer.
use ataraxia.Base.{
  ℕ, suc, ◌-◌, ◌≤◌, ◌<◌, ◌≡◌, refl, ap, subst, ◌∙◌, Option, some, [], ◌∷◌, Text, nat_eq, bytes_eq,
  arith,
}
use ataraxia.Map
use ataraxia.NodeState.Defs.{
  NodeState, PerNodeState, Message, request, patch, send, emit_update, send_state_patch,
  handle_request, handle_patch, handle_message, request_value,
}
use ataraxia.NodeState.Sender.{value_at, HasSet}
use ataraxia.NodeState.Receiver.{Patches, IsKnown}

module _ {V P : Type 0} (generate : V → ℕ → P) (apply : Option V → P → V) (history : ℕ → V) where
  pub next_patch : Text → ℕ → ℕ → Message P
  next_patch name base version = patch name base version (generate (history version) base)

  some_value :
      (s : PerNodeState V)
      → HasSet generate apply history s
      → 1 ≤ s.local_version
      → s.local_value ≡ some (history s.local_version)
  some_value s h l =
      let e : suc (s.local_version - 1) ≡ s.local_version = omega (arith, l) in
      h.local ∙ subst (λ v. value_at generate apply history v ≡ some (history v)) e refl

  -- A node that is asked for its value since an older version, by a node it tracks, answers with the
  -- patch from that version to its own, and with nothing else.
  answered :
      (receiver : Text) (base : ℕ) (m : NodeState V) (s : PerNodeState V)
      → HasSet generate apply history s
      → Map.get receiver s.nodes ≡ some m
      → base < s.local_version
      → (handle_message generate apply receiver (request s.name base) s).1
        ≡ send receiver (next_patch s.name base s.local_version) ∷ []
  unfolding handle_message handle_request send_state_patch next_patch
  answered receiver base m s h e l =
      let v = some_value s h (omega (arith, l)) in
      ground (arith, e, v, l, bytes_eq.beq_iff s.name s.name)

  get_after_set :
      (node : Text) (n : NodeState V) (s : PerNodeState V)
      → Map.get node (Map.set node n s.nodes) ≡ some n
  get_after_set node n s =
      ground (arith, Map.get-set node node n s.nodes, bytes_eq.beq_iff node node)

  -- The patch at its receiver.
  updated :
      (sender : Text) (version : ℕ) (n : NodeState V) (r : PerNodeState V)
      → Patches generate apply history
      → Map.get sender r.nodes ≡ some n
      → IsKnown generate apply history version n
      → 1 ≤ version
      → let a = handle_message generate apply sender (next_patch r.name n.version version) r in
        (Map.get sender a.0.nodes
          ≡ some (record n { value = some (history version); version = version }))
        × (a.1 ≡ emit_update sender (some (history version)) ∷ [])
  unfolding handle_message handle_patch next_patch
  updated sender version n r h e k l =
      let q : apply n.value (generate (history version) n.version) ≡ history version =
        ap (λ o. apply o (generate (history version) n.version)) k.0 ∙ h n.version version k.1 l in
      let new : NodeState V = record n { value = some (history version); version = version } in
      rw ((bytes_eq.beq_iff r.name r.name).1 refl) (
        rw (e, handle_patch)
          (rw ((nat_eq.beq_iff n.version n.version).1 refl)
            (rw q (get_after_set sender new r, refl))))

  -- Two nodes that track each other use the same name, patches do what they are for, the first has
  -- set its values as the history says, and what the second knows of it is a value of an older
  -- version. Then the second asks for what came after that version, the answer is one patch, and
  -- once it has arrived the second knows the very value and version that the first has, and tells
  -- of it.
  pub round_updates :
      (sender receiver : Text) (m n : NodeState V) (s r : PerNodeState V)
      → Patches generate apply history
      → HasSet generate apply history s
      → r.name ≡ s.name
      → Map.get receiver s.nodes ≡ some m
      → Map.get sender r.nodes ≡ some n
      → IsKnown generate apply history s.local_version n
      → n.version < s.local_version
      → let now = s.local_version in
        let p = next_patch s.name n.version now in
        let after = handle_message generate apply sender p r in
        (request_value generate apply sender r ≡ (r, send sender (request s.name n.version) ∷ []))
        × ((handle_message generate apply receiver (request s.name n.version) s).1
            ≡ send receiver p ∷ [])
        × (Map.get sender after.0.nodes
            ≡ some (record n { value = some (history now); version = now }))
        × (after.1 ≡ emit_update sender (some (history now)) ∷ [])
  unfolding request_value
  round_updates sender receiver m n s r h own same tracked known k l =
      let after = updated sender s.local_version n r h known k (omega (arith, l)) in
      (
        rw (known, request_value) (ap (λ x. (r, send sender (request x n.version) ∷ [])) same),
        answered receiver n.version m s own tracked l,
        subst
            (λ x.
              Map.get sender
                (handle_message generate apply sender (next_patch x n.version s.local_version)
                  r).0.nodes
              ≡ some
                  (record n { value = some (history s.local_version); version = s.local_version }))
            same after.0,
        subst
            (λ x.
              (handle_message generate apply sender (next_patch x n.version s.local_version) r).1
              ≡ emit_update sender (some (history s.local_version)) ∷ [])
            same after.1,
      )
