-- ===== src/Map/Once.antt =====
-- Maps in which no key stands twice, as in every map that was made by setting and deleting.
use ataraxia.Base.{◌≡◌, refl, ◌∙◌, false, [], ◌∷◌, arith, Eq, Bool-cases, inl, inr}
use ataraxia.Map.{Map, get, set, delete, has, has-set, has-delete}

module _ {ℓ κ} {K : Type ℓ} {V : Type κ} ⦃e : Eq K⦄ where
  abbrev pub HasKeysOnce : Map K V → Type 0
  HasKeysOnce [] = Unit
  HasKeysOnce ((k, v) ∷ m) = (has k m ≡ false) × HasKeysOnce m

  pub set-HasKeysOnce : (k : K) (v : V) (m : Map K V) → HasKeysOnce m → HasKeysOnce (set k v m)
  unfolding set has get
  set-HasKeysOnce k v [] o = (refl, tt)
  set-HasKeysOnce k v ((j, w) ∷ m) o = elim (Bool-cases (e.beq j k)) [
    | inl q ↦ rw q o
    | inr q ↦ rw q (
      has-set k j v m ∙ ground (arith, e.beq_iff k j, e.beq_iff j k, q, o.0),
      set-HasKeysOnce k v m o.1,
    )
  ]

  pub delete-HasKeysOnce : (k : K) (m : Map K V) → HasKeysOnce m → HasKeysOnce (delete k m)
  unfolding delete
  delete-HasKeysOnce k [] o = tt
  delete-HasKeysOnce k ((j, w) ∷ m) o = elim (Bool-cases (e.beq j k)) [
    | inl q ↦ rw q (delete-HasKeysOnce k m o.1)
    | inr q ↦ rw q (has-delete k j m ∙ ground (arith, o.0), delete-HasKeysOnce k m o.1)
  ]
