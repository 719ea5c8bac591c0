-- ===== src/Map.antt =====
-- JavaScript's `Map`: entries in insertion order, keys compared by an equality test.
pub mod Once
use ataraxia.Base.{
  ℕ, ◌≡◌, refl, Bool, true, false, Option, none, some, List, [], ◌∷◌, arith, if◌then◌else◌, length,
  ltb, Eq,
}

abbrev pub Map {ℓ κ} : Type ℓ → Type κ → Type (ℓ ⊔ κ)
Map K V = List (K × V)

module _ {ℓ κ} {K : Type ℓ} {V : Type κ} ⦃e : Eq K⦄ where
  unfoldable pub get : K → Map K V → Option V
  get k [] = none
  get k ((j, v) ∷ m) = if e.beq j k then some v else get k m

  -- An old key keeps its place, a new one goes to the end.
  unfoldable pub set : K → V → Map K V → Map K V
  set k v [] = (k, v) ∷ []
  set k v ((j, w) ∷ m) = if e.beq j k then (j, v) ∷ m else (j, w) ∷ set k v m

  unfoldable pub delete : K → Map K V → Map K V
  delete k [] = []
  delete k ((j, w) ∷ m) = if e.beq j k then delete k m else (j, w) ∷ delete k m

  unfoldable pub has : K → Map K V → Bool
  unfolding get
  has k m = elim (get k m) [ none ↦ false | some v ↦ true ]

  abbrev pub values : Map K V → List V
  values [] = []
  values ((j, v) ∷ m) = v ∷ values m

  abbrev pub size : Map K V → ℕ
  size m = length m

  pub get-set :
      (k j : K) (v : V) (m : Map K V) → get j (set k v m) ≡ (if e.beq k j then some v else get j m)
  unfolding get set
  get-set k j v [] = refl
  get-set k j v ((i, w) ∷ m) =
      ground (arith, e.beq_iff k j, e.beq_iff i k, e.beq_iff i j, get-set k j v m)

  pub get-delete :
      (k j : K) (m : Map K V) → get j (delete k m) ≡ (if e.beq k j then none else get j m)
  unfolding get delete
  get-delete k j [] = ground arith
  get-delete k j ((i, w) ∷ m) =
      ground (arith, e.beq_iff k j, e.beq_iff i k, e.beq_iff i j, get-delete k j m)

  pub has-set :
      (k j : K) (v : V) (m : Map K V) → has j (set k v m) ≡ (if e.beq k j then true else has j m)
  unfolding has
  has-set k j v m = ground (arith, get-set k j v m)

  pub has-delete :
      (k j : K) (m : Map K V) → has j (delete k m) ≡ (if e.beq k j then false else has j m)
  unfolding has
  has-delete k j m = ground (arith, get-delete k j m)

  pub has_of_some : (k : K) (v : V) (m : Map K V) → get k m ≡ some v → has k m ≡ true
  unfolding has
  has_of_some k v m e = rw (e, has)

  pub has_of_none : (k : K) (m : Map K V) → get k m ≡ none → has k m ≡ false
  unfolding has
  has_of_none k m e = rw (e, has)

  pub size-set : (k : K) (v : V) (m : Map K V) → ltb 0 (size (set k v m)) ≡ true
  unfolding set
  size-set k v [] = ground arith
  size-set k v ((i, w) ∷ m) = ground (arith, size-set k v m)

  pub size_of_has : (k : K) (m : Map K V) → has k m ≡ true → ltb 0 (size m) ≡ true
  unfolding has get
  size_of_has k [] h = absurd cc
  size_of_has k (x ∷ m) h = ground arith
