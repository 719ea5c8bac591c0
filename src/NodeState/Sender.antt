-- ===== src/NodeState/Sender.antt =====
-- What a node sends of its own value, whoever asks and whatever the group.
use ataraxia.Base.{
  ℕ, zero, suc, ◌+◌, ◌≤◌, ◌≡◌, refl, sym, ap, subst, ◌∙◌, Option, none, some, true, false, List, [],
  ◌∷◌, Text, nat_eq, bytes_eq, ltb, All, All-append, arith, Option-cases, Bool-cases, inl, inr,
}
use ataraxia.Map
use ataraxia.NodeState.Defs.{
  NodeState, PerNodeState, Message, request, patch, Effect, send, new_node, Acts,
  handle_node_available, handle_node_unavailable, remove, send_state_patch, send_to, send_all,
  set_local, request_value, handle_request, handle_patch, handle_message,
}

module _ {V P : Type 0} (generate : V → ℕ → P) (apply : Option V → P → V) (history : ℕ → V) where
  -- The value at a version: none at 0, and the one that was set for every other.
  abbrev pub value_at : ℕ → Option V
  value_at zero = none
  value_at (suc v) = some (history (suc v))

  -- A patch that takes the value at a version to the one at another, no older one.
  abbrev pub IsGenuine : ℕ → Effect V P → Type 0
  IsGenuine now (send node (patch name base version p)) =
      (base ≤ version) × (1 ≤ version) × (version ≤ now) × (p ≡ generate (history version) base)
  IsGenuine now _ = Unit

  -- A node that has set its values as the history says.
  pub record HasSet (s : PerNodeState V) : Type 0 where
    pub local : s.local_value ≡ value_at s.local_version
    pub behind :
        (node : Text) (n : NodeState V)
        → Map.get node s.nodes ≡ some n
        → n.assumed_local_version ≤ s.local_version

  -- What an operation of the node gives.
  pub record Sends (now : ℕ) (a : Acts generate apply) : Type 0 where
    pub state : HasSet a.0
    pub at : a.0.local_version ≡ now
    pub genuine : All (IsGenuine now) a.1

  -- A change of what is known of one node.
  set-HasSet :
      (node : Text) (n : NodeState V) (s : PerNodeState V)
      → HasSet s
      → n.assumed_local_version ≤ s.local_version
      → HasSet (record s { nodes = Map.set node n s.nodes })
  set-HasSet node n s h b = record {
    local = h.local;
    behind = λ j k e. ground (arith, h.behind j k, b, e, Map.get-set node j n s.nodes);
  }

  value_at-some :
      (version : ℕ) (value : V)
      → value_at version ≡ some value
      → (1 ≤ version) × (value ≡ history version)
  value_at-some zero value e = absurd cc
  value_at-some (suc v) value e = (omega arith, cc)

  send_state_patch-Sends :
      (node : Text) (n : NodeState V) (s : PerNodeState V)
      → HasSet s
      → n.assumed_local_version ≤ s.local_version
      → Sends s.local_version (send_state_patch generate apply node n s)
  unfolding send_state_patch
  send_state_patch-Sends node n s h b = elim (Option-cases s.local_value) [
    | inl e ↦
        rw (e, send_state_patch)
          (record { state = set-HasSet node n s h b; at = refl; genuine = tt })
    | inr (value, e) ↦
        let known = value_at-some s.local_version value (sym h.local ∙ e) in
        rw (e, send_state_patch)
          (record {
            state =
                set-HasSet node (record n { assumed_local_version = s.local_version }) s h
                  (omega arith);
            at = refl;
            genuine = (
              (b, known.0, omega arith, ap (λ v. generate v n.assumed_local_version) known.1),
              tt,
            );
          })
  ]

  -- An operation that sends no patch and leaves the value.
  quiet-Sends :
      (s : PerNodeState V) (effects : List (Effect V P))
      → HasSet s
      → All (IsGenuine s.local_version) effects
      → Sends s.local_version (s, effects)
  quiet-Sends s effects h g = record { state = h; at = refl; genuine = g }

  send_to-Sends :
      (node : Text) (s : PerNodeState V)
      → HasSet s
      → Sends s.local_version (send_to generate apply node s)
  unfolding send_to
  send_to-Sends node s h = elim (Option-cases (Map.get node s.nodes)) [
    | inl e ↦ rw (e, send_to) (quiet-Sends s [] h tt)
    | inr (n, e) ↦ rw (e, send_to) (send_state_patch-Sends node n s h (h.behind node n e))
  ]

  send_all-Sends :
      (group : List Text) (now : ℕ) (s : PerNodeState V)
      → HasSet s
      → s.local_version ≡ now
      → Sends now (send_all generate apply group s)
  unfolding send_all
  send_all-Sends [] now s h e = record { state = h; at = e; genuine = tt }
  send_all-Sends (node ∷ group) now s h e =
      let sent = send_to-Sends node s h in
      let first = send_to generate apply node s in
      let rest = send_all-Sends group now first.0 sent.state (sent.at ∙ e) in
      record {
        state = rest.state;
        at = rest.at;
        genuine =
            All-append (IsGenuine now) first.1 (send_all generate apply group first.0).1
              (subst (λ v. All (IsGenuine v) first.1) e sent.genuine) rest.genuine;
      }

  value_at-next : (v : ℕ) → some (history (v + 1)) ≡ value_at (v + 1)
  value_at-next v =
      let e : suc v ≡ v + 1 = omega arith in subst (λ w. some (history w) ≡ value_at w) e refl

  pub set_local-Sends :
      (group : List Text) (s : PerNodeState V)
      → HasSet s
      → Sends
          (s.local_version + 1)
          (set_local generate apply group (history (s.local_version + 1)) s)
  unfolding set_local
  set_local-Sends group s h =
      send_all-Sends group (s.local_version + 1)
        (record s {
          local_version = s.local_version + 1;
          local_value = some (history (s.local_version + 1));
        })
        (record {
          local = value_at-next s.local_version;
          behind = λ node n e. omega (arith, h.behind node n e);
        })
        refl

  handle_request-Sends :
      (source : Text) (last_version : ℕ) (s : PerNodeState V)
      → HasSet s
      → Sends s.local_version (handle_request generate apply source last_version s)
  unfolding handle_request
  handle_request-Sends source last_version s h = elim (Option-cases (Map.get source s.nodes)) [
    | inl e ↦ rw (e, handle_request) (quiet-Sends s [] h tt)
    | inr (n, e) ↦ elim (Bool-cases (ltb last_version s.local_version)) [
      | inl older ↦
          rw (e, handle_request)
            (rw older (
              send_state_patch-Sends source (record n { assumed_local_version = last_version }) s h
                (ground (arith, older))))
      | inr newer ↦ rw (e, handle_request) (rw newer (quiet-Sends s [] h tt))
    ]
  ]

  request_value-Sends :
      (node : Text) (s : PerNodeState V)
      → HasSet s
      → Sends s.local_version (request_value generate apply node s)
  unfolding request_value
  request_value-Sends node s h = elim (Option-cases (Map.get node s.nodes)) [
    | inl e ↦ rw (e, request_value) (quiet-Sends s [] h tt)
    | inr (n, e) ↦
        rw (e, request_value) (quiet-Sends s (send node (request s.name n.version) ∷ []) h (tt, tt))
  ]

  handle_patch-Sends :
      (source : Text) (base version : ℕ) (p : P) (s : PerNodeState V)
      → HasSet s
      → Sends s.local_version (handle_patch generate apply source base version p s)
  unfolding handle_patch
  handle_patch-Sends source base version p s h = elim (Option-cases (Map.get source s.nodes)) [
    | inl e ↦ rw (e, handle_patch) (quiet-Sends s [] h tt)
    | inr (n, e) ↦ elim (Bool-cases (nat_eq.beq base n.version)) [
      | inl same ↦
          rw (e, handle_patch)
            (rw same (record {
              state =
                  set-HasSet source (record n { value = some (apply n.value p); version = version })
                    s h (h.behind source n e);
              at = refl;
              genuine = (tt, tt);
            }))
      | inr other ↦ rw (e, handle_patch) (rw other (request_value-Sends source s h))
    ]
  ]

  pub handle_message-Sends :
      (source : Text) (m : Message P) (s : PerNodeState V)
      → HasSet s
      → Sends s.local_version (handle_message generate apply source m s)
  unfolding handle_message
  handle_message-Sends source (request name last_version) s h =
      elim (Bool-cases (bytes_eq.beq name s.name)) [
        | inl e ↦ rw e (handle_request-Sends source last_version s h)
        | inr e ↦ rw e (quiet-Sends s [] h tt)
      ]
  handle_message-Sends source (patch name base version p) s h =
      elim (Bool-cases (bytes_eq.beq name s.name)) [
        | inl e ↦ rw e (handle_patch-Sends source base version p s h)
        | inr e ↦ rw e (quiet-Sends s [] h tt)
      ]

  pub handle_node_available-Sends :
      (node : Text) (s : PerNodeState V)
      → HasSet s
      → Sends s.local_version (handle_node_available generate apply node s)
  unfolding handle_node_available
  handle_node_available-Sends node s h = elim (Option-cases (Map.get node s.nodes)) [
    | inl e ↦
        rw (e, handle_node_available)
          (record {
            state = set-HasSet node new_node s h (omega arith);
            at = refl;
            genuine = (tt, tt);
          })
    | inr (n, e) ↦ elim (Bool-cases n.expires) [
      | inl k ↦
          rw (e, handle_node_available)
            (rw k (record {
              state =
                  set-HasSet node (record n { available = true; expires = false }) s h
                    (h.behind node n e);
              at = refl;
              genuine = (tt, (tt, tt));
            }))
      | inr k ↦
          rw (e, handle_node_available)
            (rw k (record {
              state =
                  set-HasSet node (record n { available = true; expires = false }) s h
                    (h.behind node n e);
              at = refl;
              genuine = (tt, tt);
            }))
    ]
  ]

  pub handle_node_unavailable-Sends :
      (node : Text) (s : PerNodeState V)
      → HasSet s
      → Sends s.local_version (handle_node_unavailable generate apply node s)
  unfolding handle_node_unavailable
  handle_node_unavailable-Sends node s h = elim (Option-cases (Map.get node s.nodes)) [
    | inl e ↦ rw (e, handle_node_unavailable) (quiet-Sends s [] h tt)
    | inr (n, e) ↦
        rw (e, handle_node_unavailable)
          (record {
            state =
                set-HasSet node (record n { available = false; expires = true }) s h
                  (h.behind node n e);
            at = refl;
            genuine = (tt, (tt, tt));
          })
  ]

  pub remove-Sends :
      (node : Text) (s : PerNodeState V)
      → HasSet s
      → Sends s.local_version (remove generate apply node s)
  unfolding remove
  remove-Sends node s h = record {
    state = record {
      local = h.local;
      behind = λ j k e. ground (arith, h.behind j k, e, Map.get-delete node j s.nodes);
    };
    at = refl;
    genuine = tt;
  }
