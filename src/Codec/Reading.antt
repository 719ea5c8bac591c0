-- ===== src/Codec/Reading.antt =====
-- A decoder as a function of the bytes that are left; `none` where it throws.
use ataraxia.Base.{ℕ, Option, none, some, List, ◌≡◌}

abbrev pub Reader {ℓ} : Type ℓ → Type ℓ
Reader A = List ℕ → Option (A × List ℕ)

infixl 5 ◌>>=◌
abbrev pub ◌>>=◌ {ℓ κ} : {A : Type ℓ} {B : Type κ} → Reader A → (A → Reader B) → Reader B
◌>>=◌ r k bytes = elim (r bytes) [ none ↦ none | some (a, rest) ↦ k a rest ]

abbrev pub give {ℓ} : {A : Type ℓ} → A → Reader A
give a bytes = some (a, bytes)

-- A reader that succeeds hands on what it read and what it left.
pub bind_some {ℓ κ} :
    {A : Type ℓ} {B : Type κ} (r : Reader A) (k : A → Reader B) (bytes rest : List ℕ) (a : A)
    {out : Option (B × List ℕ)}
    → r bytes ≡ some (a, rest)
    → k a rest ≡ out
    → (r >>= k) bytes ≡ out
bind_some r k bytes rest a p q = rw (p, ◌>>=◌) q
