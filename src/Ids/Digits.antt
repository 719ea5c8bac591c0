-- ===== src/Ids/Digits.antt =====
-- Numbers as lists of digits, the least first: values, canonical lists, and the loops that multiply
-- such a list by a number and add a carry.
use native.Mathlib.Nat.{
  add-mul-mod_self_left, add-mul-div_left, mod-eq_of_lt, div-eq_of_lt, div-lt_self, mod-add-div,
  mod-lt, mul-pos,
}
use mathlib.Core.List.{reverse-cons}
use ataraxia.Base.{
  ℕ, zero, suc, ◌+◌, ◌*◌, ◌/◌, ◌%◌, ◌≤◌, ◌<◌, ◌≡◌, refl, ap, ap₂, true, false, List, [], ◌∷◌, ◌++◌,
  reverse, ◌==◌, arith, Bool-cases, inl, inr, sym, ◌∙◌,
}

abbrev pub value : ℕ → List ℕ → ℕ
value base [] = 0
value base (d ∷ ds) = d + base * value base ds

-- The number of some digits, the most significant first, behind those that make up `n`.
abbrev pub horner : ℕ → ℕ → List ℕ → ℕ
horner base n [] = n
horner base n (d ∷ ds) = horner base (base * n + d) ds

horner-append :
    (base n : ℕ) (ds es : List ℕ) → horner base n (ds ++ es) ≡ horner base (horner base n ds) es
horner-append base n [] es = refl
horner-append base n (d ∷ ds) es = horner-append base (base * n + d) ds es

pub horner-reverse : (base : ℕ) (ds : List ℕ) → horner base 0 (reverse ds) ≡ value base ds
horner-reverse base [] = refl
horner-reverse base (d ∷ ds) =
    ap (horner base 0) (reverse-cons d ds)
    ∙ horner-append base 0 (reverse ds) (d ∷ [])
    ∙ omega (arith, ap (λ t. base * t) (horner-reverse base ds))

-- Some digits, each below the base, and no zero in front, unless the number is the digit 0.
abbrev pub IsCanonical : ℕ → List ℕ → Type 0
IsCanonical base [] = ⊥
IsCanonical base (d ∷ []) = d < base
IsCanonical base (d ∷ e ∷ ds) = (d < base) × (0 < value base (e ∷ ds)) × IsCanonical base (e ∷ ds)

-- What may follow a digit: nothing, or a canonical list that is not zero.
abbrev pub IsTail : ℕ → List ℕ → Type 0
IsTail base [] = Unit
IsTail base (d ∷ ds) = (0 < value base (d ∷ ds)) × IsCanonical base (d ∷ ds)

pub cons-IsCanonical :
    (base d : ℕ) (ds : List ℕ) → d < base → IsTail base ds → IsCanonical base (d ∷ ds)
cons-IsCanonical base d [] h t = h
cons-IsCanonical base d (e ∷ ds) h t = (h, t.0, t.1)

pub IsCanonical-IsTail : (base d : ℕ) (ds : List ℕ) → IsCanonical base (d ∷ ds) → IsTail base ds
IsCanonical-IsTail base d [] h = tt
IsCanonical-IsTail base d (e ∷ ds) h = (h.1, h.2)

digit_mod : (base d m : ℕ) → d < base → (d + base * m) % base ≡ d
digit_mod base d m h = add-mul-mod_self_left d base m ∙ mod-eq_of_lt h

digit_div : (base d m : ℕ) → d < base → (d + base * m) / base ≡ m
digit_div base d m h = add-mul-div_left d m (omega arith) ∙ omega (arith, div-eq_of_lt h)

digit_unique :
    (base d e m n : ℕ) → d < base → e < base → d + base * m ≡ e + base * n → (d ≡ e) × (m ≡ n)
digit_unique base d e m n h k p = (
  sym (digit_mod base d m h) ∙ ap (λ t. t % base) p ∙ digit_mod base e n k,
  sym (digit_div base d m h) ∙ ap (λ t. t / base) p ∙ digit_div base e n k,
)

-- A number has one canonical list.
pub value_unique :
    (base : ℕ) (ds es : List ℕ)
    → IsCanonical base ds
    → IsCanonical base es
    → value base ds ≡ value base es
    → ds ≡ es
value_unique base [] es h k p = absurd h
value_unique base (d ∷ ds) [] h k p = absurd k
value_unique base (d ∷ []) (e ∷ []) h k p = ap (λ x. x ∷ []) (digit_unique base d e 0 0 h k p).0
value_unique base (d ∷ []) (e ∷ e' ∷ es) h k p =
    absurd (omega (arith, k.1, digit_unique base d e 0 (value base (e' ∷ es)) h k.0 p))
value_unique base (d ∷ d' ∷ ds) (e ∷ []) h k p =
    absurd (omega (arith, h.1, digit_unique base d e (value base (d' ∷ ds)) 0 h.0 k p))
value_unique base (d ∷ d' ∷ ds) (e ∷ e' ∷ es) h k p =
    let q = digit_unique base d e (value base (d' ∷ ds)) (value base (e' ∷ es)) h.0 k.0 p in
    ap₂ ◌∷◌ q.0 (value_unique base (d' ∷ ds) (e' ∷ es) h.2 k.2 q.1)

-- The digits of a number, least first, and none for 0.
unfoldable pub spread : ℕ → ℕ → ℕ → List ℕ
spread base zero n = []
spread base (suc fuel) n = elim (n == 0) [
  | true ↦ []
  | false ↦ (n % base) ∷ spread base fuel (n / base)
]

-- Multiply by `factor` and add `carry`.
unfoldable pub mul_add : ℕ → ℕ → ℕ → List ℕ → List ℕ
unfolding spread
mul_add base factor carry [] = spread base carry carry
mul_add base factor carry (d ∷ ds) =
    ((d * factor + carry) % base) ∷ mul_add base factor ((d * factor + carry) / base) ds

module _ (base : ℕ) (big : 1 < base) where
  value-spread : (fuel n : ℕ) → n ≤ fuel → value base (spread base fuel n) ≡ n
  unfolding spread
  value-spread zero n h = omega arith
  value-spread (suc fuel) n h = elim (Bool-cases (n == 0)) [
    | inl e ↦ ground arith
    | inr e ↦
        let pos : 0 < n = ground arith in
        let less : n / base < n = div-lt_self pos big in
        rw (e, spread)
          (ap (λ t. n % base + base * t) (value-spread fuel (n / base) (omega arith))
            ∙ mod-add-div n base)
  ]

  spread-IsTail : (fuel n : ℕ) → n ≤ fuel → IsTail base (spread base fuel n)
  unfolding spread
  spread-IsTail zero n h = tt
  spread-IsTail (suc fuel) n h = elim (Bool-cases (n == 0)) [
    | inl e ↦ rw (e, spread) tt
    | inr e ↦
        let pos : 0 < n = ground arith in
        let less : n / base < n = div-lt_self pos big in
        let same = value-spread (suc fuel) n h in
        rw (e, spread)
          (
            omega (arith, rw (e, spread) at same),
            cons-IsCanonical base (n % base) (spread base fuel (n / base)) (mod-lt n (omega arith))
                (spread-IsTail fuel (n / base) (omega arith)),
          )
  ]

  module _ (factor : ℕ) where
    pub value-mul_add :
        (carry : ℕ) (ds : List ℕ)
        → value base (mul_add base factor carry ds) ≡ factor * value base ds + carry
    unfolding mul_add
    value-mul_add carry [] = omega (arith, value-spread carry carry (omega arith))
    value-mul_add carry (d ∷ ds) =
        let n = d * factor + carry in
        omega (arith, ap (λ t. base * t) (value-mul_add (n / base) ds), mod-add-div n base)

    mul_add-IsTail :
        (carry : ℕ) (ds : List ℕ)
        → 0 < factor
        → IsTail base ds
        → IsTail base (mul_add base factor carry ds)
    unfolding mul_add
    mul_add-IsTail carry [] pos t = spread-IsTail carry carry (omega arith)
    mul_add-IsTail carry (d ∷ ds) pos t =
        let n = d * factor + carry in
        let prod : 0 < factor * value base (d ∷ ds) = mul-pos pos t.0 in
        (
          omega (arith, prod, value-mul_add carry (d ∷ ds)),
          cons-IsCanonical base (n % base) (mul_add base factor (n / base) ds)
              (mod-lt n (omega arith))
              (mul_add-IsTail (n / base) ds pos (IsCanonical-IsTail base d ds t.1)),
        )

    pub mul_add-IsCanonical :
        (carry : ℕ) (ds : List ℕ)
        → 0 < factor
        → IsCanonical base ds
        → IsCanonical base (mul_add base factor carry ds)
    unfolding mul_add
    mul_add-IsCanonical carry [] pos h = absurd h
    mul_add-IsCanonical carry (d ∷ ds) pos h =
        let n = d * factor + carry in
        cons-IsCanonical base (n % base) (mul_add base factor (n / base) ds)
          (mod-lt n (omega arith))
          (mul_add-IsTail (n / base) ds pos (IsCanonical-IsTail base d ds h))
