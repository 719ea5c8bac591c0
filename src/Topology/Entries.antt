-- ===== src/Topology/Entries.antt =====
-- The entries of the heap: which nodes they hold, and under which keys.
use ataraxia.Base.{
  ℕ, suc, ◌≤◌, ◌≡◌, refl, ap, Bool, true, false, List, [], ◌∷◌, ◌==◌, ◌||◌, length, All, arith,
  Bool-cases, inl, inr,
}
use ataraxia.Topology.Graph.{put}
use ataraxia.Topology.Search.{Entry, Without, here, there, IsLeast, decrease_key}

abbrev pub mem : ℕ → List ℕ → Bool
mem n [] = false
mem n (m ∷ ms) = m == n || mem n ms

abbrev pub holds : ℕ → List Entry → Bool
holds n [] = false
holds n (e ∷ h) = e.node == n || holds n h

abbrev pub OneEach : List Entry → Type 0
OneEach [] = Unit
OneEach (e ∷ h) = (holds e.node h ≡ false) × OneEach h

abbrev pub IsKeyed : (ℕ → ℕ) → List Entry → Type 0
IsKeyed cost = All (λ e. e.key ≡ cost e.node)

pub holds-Without :
    (n : ℕ) (e : Entry) {h rest : List Entry}
    → Without e h rest
    → holds n h ≡ (e.node == n || holds n rest)
holds-Without n e here = refl
holds-Without n e (there x w) = ground (arith, holds-Without n e w)

pub Without-OneEach :
    (e : Entry) {h rest : List Entry}
    → Without e h rest
    → OneEach h
    → (holds e.node rest ≡ false) × OneEach rest
Without-OneEach e here o = o
Without-OneEach e (there x w) o =
    let r = Without-OneEach e w o.1 in
    let q = holds-Without x.node e w in (ground (arith, r.0, q, o.0), (ground (arith, q, o.0), r.1))

pub Without-IsKeyed :
    (cost : ℕ → ℕ) (e : Entry) {h rest : List Entry}
    → Without e h rest
    → IsKeyed cost h
    → (e.key ≡ cost e.node) × IsKeyed cost rest
Without-IsKeyed cost e here k = k
Without-IsKeyed cost e (there x w) k = let r = Without-IsKeyed cost e w k.1 in (r.0, (k.0, r.1))

pub length-Without :
    (e : Entry) {h rest : List Entry} → Without e h rest → length h ≡ suc (length rest)
length-Without e here = refl
length-Without e (there x w) = ap suc (length-Without e w)

pub Without-IsLeast :
    (e : Entry) {h rest : List Entry} (d : Entry) → Without e h rest → IsLeast d h → IsLeast d rest
Without-IsLeast e d here l = l.1
Without-IsLeast e d (there x w) l = (l.0, Without-IsLeast e d w l.1)

-- The key of an entry that is held is no less than the least.
pub least_cost :
    (cost : ℕ → ℕ) (d : Entry) (n : ℕ) (h : List Entry)
    → IsKeyed cost h
    → IsLeast d h
    → holds n h ≡ true
    → d.key ≤ cost n
least_cost cost d n [] k l p = cc
least_cost cost d n (x ∷ h) k l p = ground (arith, k.0, l.0, p, least_cost cost d n h k.1 l.1)

pub holds-decrease_key : (n t key : ℕ) (h : List Entry) → holds n (decrease_key t key h) ≡ holds n h
unfolding decrease_key
holds-decrease_key n t key [] = refl
holds-decrease_key n t key (e ∷ h) = ground (arith, holds-decrease_key n t key h)

pub decrease_key-OneEach : (t key : ℕ) (h : List Entry) → OneEach h → OneEach (decrease_key t key h)
unfolding decrease_key
decrease_key-OneEach t key [] o = o
decrease_key-OneEach t key (e ∷ h) o = elim (Bool-cases (e.node == t)) [
  | inl same ↦ rw same (ground (arith, same, o.0), o.1)
  | inr other ↦
      rw other
        (ground (arith, holds-decrease_key e.node t key h, o.0), decrease_key-OneEach t key h o.1)
]

pub length-decrease_key : (t key : ℕ) (h : List Entry) → length (decrease_key t key h) ≡ length h
unfolding decrease_key
length-decrease_key t key [] = refl
length-decrease_key t key (e ∷ h) = ground (arith, length-decrease_key t key h)

pub put-IsKeyed :
    (cost : ℕ → ℕ) (t key : ℕ) (h : List Entry)
    → holds t h ≡ false
    → IsKeyed cost h
    → IsKeyed (put t key cost) h
put-IsKeyed cost t key [] n k = tt
put-IsKeyed cost t key (e ∷ h) n k =
    (ground (arith, n, k.0), put-IsKeyed cost t key h (ground (arith, n)) k.1)

pub decrease_key-IsKeyed :
    (cost : ℕ → ℕ) (t key : ℕ) (h : List Entry)
    → OneEach h
    → IsKeyed cost h
    → IsKeyed (put t key cost) (decrease_key t key h)
unfolding decrease_key
decrease_key-IsKeyed cost t key [] o k = tt
decrease_key-IsKeyed cost t key (e ∷ h) o k = elim (Bool-cases (e.node == t)) [
  | inl same ↦ rw same (ground arith, put-IsKeyed cost t key h (ground (arith, o.0, same)) k.1)
  | inr other ↦ rw other (ground (arith, k.0, other), decrease_key-IsKeyed cost t key h o.1 k.1)
]
