-- ===== src/Services/Subscribers.antt =====
-- The nodes that are subscribed to an event of one local service of Services.ts.
use ataraxia.Base.{
  ℕ, ◌≡◌, refl, sym, ap, ◌∙◌, none, some, Bool, true, false, [], ◌==◌, if◌then◌else◌, arith,
  Bool-cases, Option-cases, inl, inr, Text, bytes_eq, nat_eq,
}
use ataraxia.Map
use ataraxia.Map.{Map}

-- A node is among the subscribers of an event.
abbrev pub is_subscriber : Text → Text → Map Text (Map Text ℕ) → Bool
is_subscriber node event subscriptions = elim (Map.get node subscriptions) [
  | none ↦ false
  | some events ↦ Map.has event events
]

module _ (node event : Text) where
  own-subscriber :
      (n : Text) (events : Map Text ℕ) (subscriptions : Map Text (Map Text ℕ))
      → Map.get n subscriptions ≡ some events
      → bytes_eq.beq n node ≡ true
      → is_subscriber node event subscriptions ≡ Map.has event events
  own-subscriber n events subscriptions q e =
      ap
        (λ (k : Text). elim (Map.get k subscriptions) as (λ x. Bool) [
          | none ↦ false
          | some events ↦ Map.has event events
        ])
        (sym ((bytes_eq.beq_iff n node).0 e))
      ∙ rw q refl

  none-subscriber :
      (n : Text) (subscriptions : Map Text (Map Text ℕ))
      → Map.get n subscriptions ≡ none
      → bytes_eq.beq n node ≡ true
      → is_subscriber node event subscriptions ≡ false
  none-subscriber n subscriptions q e =
      ap
        (λ (k : Text). elim (Map.get k subscriptions) as (λ x. Bool) [
          | none ↦ false
          | some events ↦ Map.has event events
        ])
        (sym ((bytes_eq.beq_iff n node).0 e))
      ∙ rw q refl

  set-subscriber :
      (n : Text) (events : Map Text ℕ) (subscriptions : Map Text (Map Text ℕ))
      → is_subscriber node event (Map.set n events subscriptions) ≡ (
          if bytes_eq.beq n node
          then Map.has event events
          else is_subscriber node event subscriptions)
  set-subscriber n events subscriptions = ground (arith, Map.get-set n node events subscriptions)

  delete-subscriber :
      (n : Text) (subscriptions : Map Text (Map Text ℕ))
      → is_subscriber node event (Map.delete n subscriptions)
        ≡ (if bytes_eq.beq n node then false else is_subscriber node event subscriptions)
  delete-subscriber n subscriptions = ground (arith, Map.get-delete n node subscriptions)

  -- A subscription more keeps the others.
  pub added-subscriber :
      (n e : Text) (number : ℕ) (subscriptions : Map Text (Map Text ℕ))
      → is_subscriber node event subscriptions ≡ true
      → is_subscriber node event (
          Map.set n
            (Map.set e number (elim (Map.get n subscriptions) as (λ x. Map Text ℕ) [
              | none ↦ []
              | some events ↦ events
            ]))
            subscriptions)
        ≡ true
  added-subscriber n e number subscriptions h = elim (Bool-cases (bytes_eq.beq n node)) [
    | inr d ↦ set-subscriber n _ subscriptions ∙ rw d h
    | inl d ↦ elim (Option-cases (Map.get n subscriptions)) [
      | inl q ↦ absurd (let c : false ≡ true = sym (none-subscriber n subscriptions q d) ∙ h in cc)
      | inr (events, q) ↦
          let has : Map.has event events ≡ true =
            sym (own-subscriber n events subscriptions q d) ∙ h in
          set-subscriber n _ subscriptions
          ∙ rw d (rw q (ground (arith, Map.has-set e event number events, has)))
    ]
  ]

  -- What the end of a subscription takes out is named like a node, so it keeps an event that is not.
  pub removed-subscriber :
      (n : Text) (events : Map Text ℕ) (subscriptions : Map Text (Map Text ℕ))
      → Map.get n subscriptions ≡ some events
      → bytes_eq.beq node event ≡ false
      → is_subscriber node event subscriptions ≡ true
      → is_subscriber node event (
          if Map.size (Map.delete n events) == 0
          then Map.delete n subscriptions
          else Map.set n (Map.delete n events) subscriptions)
        ≡ true
  removed-subscriber n events subscriptions q d h = elim (Bool-cases (bytes_eq.beq n node)) [
    | inr e ↦ elim (Bool-cases (Map.size (Map.delete n events) == 0)) [
      | inl z ↦ rw z (delete-subscriber n subscriptions ∙ rw e h)
      | inr z ↦ rw z (set-subscriber n (Map.delete n events) subscriptions ∙ rw e h)
    ]
    | inl e ↦
        let same = (bytes_eq.beq_iff n node).0 e in
        let has : Map.has event events ≡ true =
          sym (own-subscriber n events subscriptions q e) ∙ h in
        let other : bytes_eq.beq n event ≡ false =
          ap (λ (k : Text). bytes_eq.beq k event) same ∙ d in
        let left : Map.has event (Map.delete n events) ≡ true =
          ground (arith, Map.has-delete n event events, other, has) in
        let full : (Map.size (Map.delete n events) == 0) ≡ false =
          ground (arith, Map.size_of_has event (Map.delete n events) left) in
        rw full (set-subscriber n (Map.delete n events) subscriptions ∙ rw e left)
  ]
