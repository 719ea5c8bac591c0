-- ===== src/NodeState/Receiver.antt =====
-- What a node knows of the value of another one, whatever else happens to it.
use ataraxia.Base.{
  ℕ, zero, suc, ◌+◌, ◌≤◌, ◌≡◌, refl, sym, ap, subst, ◌∙◌, Option, some, true, false, List, [], ◌∷◌,
  Text, nat_eq, bytes_eq, ltb, arith, Option-cases, Bool-cases, inl, inr,
}
use ataraxia.Map
use ataraxia.Map.{Map}
use ataraxia.NodeState.Defs.{
  NodeState, PerNodeState, patch, send, new_node, handle_node_available, handle_node_unavailable,
  remove, send_state_patch, send_to, send_all, set_local, request_value, handle_request,
  handle_patch,
}
use ataraxia.NodeState.Sender.{value_at, IsGenuine}

module _ {V P : Type 0} (generate : V → ℕ → P) (apply : Option V → P → V) (history : ℕ → V) where
  abbrev val : ℕ → Option V
  val = value_at generate apply history

  -- A patch does what it is for: applied to the value at its base, it gives the value it was made of.
  abbrev pub Patches : Type 0
  Patches =
      (base version : ℕ)
      → base ≤ version
      → 1 ≤ version
      → apply (val base) (generate (history version) base) ≡ history version

  -- What is known of the node is the value that it had at the version known, not from the future.
  abbrev pub IsKnown : ℕ → NodeState V → Type 0
  IsKnown now n = (n.value ≡ val n.version) × (n.version ≤ now)

  pub record Follows (node : Text) (now : ℕ) (s : PerNodeState V) : Type 0 where
    pub known : (n : NodeState V) → Map.get node s.nodes ≡ some n → IsKnown now n

  pub later :
      (node : Text) (now soon : ℕ) (s : PerNodeState V)
      → now ≤ soon
      → Follows node now s
      → Follows node soon s
  later node now soon s l f = record {
    known = λ n e. ((f.known n e).0, omega (arith, (f.known n e).1));
  }

  -- A change of what is known of one node, be it the one that is followed or another.
  set-Follows :
      (node j : Text) (n : NodeState V) (now : ℕ) (s : PerNodeState V)
      → Follows node now s
      → (j ≡ node → IsKnown now n)
      → (t : PerNodeState V) → t.nodes ≡ Map.set j n s.nodes
      → Follows node now t
  set-Follows node j n now s f h t e = record {
    known = λ k g. elim (Bool-cases (bytes_eq.beq j node)) [
      | inl same ↦
          let q : n ≡ k = ground (arith, g, e, same, Map.get-set j node n s.nodes) in
          subst (IsKnown now) q (h ((bytes_eq.beq_iff j node).0 same))
      | inr other ↦ f.known k (ground (arith, g, e, other, Map.get-set j node n s.nodes))
    ];
  }

  send_state_patch-Follows :
      (node j : Text) (n : NodeState V) (now : ℕ) (s : PerNodeState V)
      → Follows node now s
      → (j ≡ node → IsKnown now n)
      → Follows node now (send_state_patch generate apply j n s).0
  unfolding send_state_patch
  send_state_patch-Follows node j n now s f h = elim (Option-cases s.local_value) [
    | inl e ↦ rw (e, send_state_patch) (set-Follows node j n now s f h _ refl)
    | inr (value, e) ↦
        rw (e, send_state_patch)
          (set-Follows node j (record n { assumed_local_version = s.local_version }) now s f h _
            refl)
  ]

  -- What is known of a node that is tracked.
  of_tracked :
      (node j : Text) (n : NodeState V) (now : ℕ) (s : PerNodeState V)
      → Follows node now s
      → Map.get j s.nodes ≡ some n
      → j ≡ node
      → IsKnown now n
  of_tracked node j n now s f e same = f.known n (subst (λ k. Map.get k s.nodes ≡ some n) same e)

  send_all-Follows :
      (node : Text) (group : List Text) (now : ℕ) (s : PerNodeState V)
      → Follows node now s
      → Follows node now (send_all generate apply group s).0
  unfolding send_all send_to
  send_all-Follows node [] now s f = f
  send_all-Follows node (j ∷ group) now s f =
      send_all-Follows node group now (send_to generate apply j s).0
        (elim (Option-cases (Map.get j s.nodes)) [
          | inl e ↦ rw (e, send_to) f
          | inr (n, e) ↦
              rw (e, send_to)
                (send_state_patch-Follows node j n now s f (of_tracked node j n now s f e))
        ])

  pub set_local-Follows :
      (node : Text) (group : List Text) (value : V) (now : ℕ) (s : PerNodeState V)
      → Follows node now s
      → Follows node now (set_local generate apply group value s).0
  unfolding set_local
  set_local-Follows node group value now s f =
      send_all-Follows node group now
        (record s { local_version = s.local_version + 1; local_value = some value })
        (record { known = f.known })

  pub handle_request-Follows :
      (node source : Text) (last_version now : ℕ) (s : PerNodeState V)
      → Follows node now s
      → Follows node now (handle_request generate apply source last_version s).0
  unfolding handle_request
  handle_request-Follows node source last_version now s f =
      elim (Option-cases (Map.get source s.nodes)) [
        | inl e ↦ rw (e, handle_request) f
        | inr (n, e) ↦ elim (Bool-cases (ltb last_version s.local_version)) [
          | inl older ↦
              rw (e, handle_request)
                (rw older (
                  send_state_patch-Follows node source
                    (record n { assumed_local_version = last_version }) now s f
                    (of_tracked node source n now s f e)))
          | inr newer ↦ rw (e, handle_request) (rw newer f)
        ]
      ]

  request_value-Follows :
      (node j : Text) (now : ℕ) (s : PerNodeState V)
      → Follows node now s
      → Follows node now (request_value generate apply j s).0
  unfolding request_value
  request_value-Follows node j now s f = elim (Option-cases (Map.get j s.nodes)) [
    | inl e ↦ rw (e, request_value) f
    | inr (n, e) ↦ rw (e, request_value) f
  ]

  value_at-of : (version : ℕ) → 1 ≤ version → some (history version) ≡ val version
  value_at-of zero h = absurd (omega (arith, h))
  value_at-of (suc v) h = refl

  -- The value that a genuine patch gives.
  patched :
      (base version now : ℕ) (p : P) (n : NodeState V)
      → Patches
      → IsKnown now n
      → base ≡ n.version
      → IsGenuine generate apply history now (send [] (patch [] base version p))
      → IsKnown now (record n { value = some (apply n.value p); version = version })
  patched base version now p n h k e g = (
    ap some (
          ap (λ o. apply o p) (k.0 ∙ ap val (sym e))
          ∙ (ap (apply (val base)) g.3 ∙ h base version g.0 g.1))
        ∙ value_at-of version g.1,
    g.2,
  )

  pub handle_patch-Follows :
      (node source : Text) (base version now : ℕ) (p : P) (s : PerNodeState V)
      → Patches
      → Follows node now s
      → (source ≡ node → IsGenuine generate apply history now (send [] (patch [] base version p)))
      → Follows node now (handle_patch generate apply source base version p s).0
  unfolding handle_patch
  handle_patch-Follows node source base version now p s h f g =
      elim (Option-cases (Map.get source s.nodes)) [
        | inl e ↦ rw (e, handle_patch) f
        | inr (n, e) ↦ elim (Bool-cases (nat_eq.beq base n.version)) [
          | inl same ↦
              rw (e, handle_patch)
                (rw same (
                  set-Follows node source
                    (record n { value = some (apply n.value p); version = version }) now s f
                    (λ q.
                      patched base version now p n h (of_tracked node source n now s f e q)
                        ((nat_eq.beq_iff base n.version).0 same) (g q))
                    _ refl))
          | inr other ↦ rw (e, handle_patch) (rw other (request_value-Follows node source now s f))
        ]
      ]

  pub handle_node_available-Follows :
      (node j : Text) (now : ℕ) (s : PerNodeState V)
      → Follows node now s
      → Follows node now (handle_node_available generate apply j s).0
  unfolding handle_node_available
  handle_node_available-Follows node j now s f = elim (Option-cases (Map.get j s.nodes)) [
    | inl e ↦
        rw (e, handle_node_available)
          (set-Follows node j new_node now s f (λ q. (refl, omega arith)) _ refl)
    | inr (n, e) ↦
        rw (e, handle_node_available)
          (set-Follows node j (record n { available = true; expires = false }) now s f
            (of_tracked node j n now s f e) _ refl)
  ]

  pub handle_node_unavailable-Follows :
      (node j : Text) (now : ℕ) (s : PerNodeState V)
      → Follows node now s
      → Follows node now (handle_node_unavailable generate apply j s).0
  unfolding handle_node_unavailable
  handle_node_unavailable-Follows node j now s f = elim (Option-cases (Map.get j s.nodes)) [
    | inl e ↦ rw (e, handle_node_unavailable) f
    | inr (n, e) ↦
        rw (e, handle_node_unavailable)
          (set-Follows node j (record n { available = false; expires = true }) now s f
            (of_tracked node j n now s f e) _ refl)
  ]

  pub remove-Follows :
      (node j : Text) (now : ℕ) (s : PerNodeState V)
      → Follows node now s
      → Follows node now (remove generate apply j s).0
  unfolding remove
  remove-Follows node j now s f = record {
    known = λ k g. f.known k (ground (arith, g, Map.get-delete j node s.nodes));
  }
