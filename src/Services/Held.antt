-- ===== src/Services/Held.antt =====
-- Which instances of a service are known, and what leaves a given one there (Services.ts).
use ataraxia.Base.{
  ℕ, ◌≡◌, refl, none, some, Bool, true, false, List, [], ◌∷◌, ◌==◌, ◌||◌, arith, any, Text,
  bytes_eq,
}
use ataraxia.Map
use ataraxia.Map.{Map}
use ataraxia.Services.Defs.{Reflect, add_reflect, remove_reflect, has_reflects, NodeData}

-- An instance goes by its number.
abbrev pub has_number : ℕ → List Reflect → Bool
has_number n reflects = any (λ (r : Reflect). r.number == n) reflects

-- An instance is among those of a service that is known,
abbrev pub is_held : ℕ → Text → Map Text (List Reflect) → Bool
is_held n id known = elim (Map.get id known) [
  | none ↦ false
  | some reflects ↦ has_number n reflects
]

-- or among those that nodes have told of.
abbrev pub is_told : ℕ → Map Text NodeData → Bool
is_told n nodes = any (λ (d : NodeData). has_number n (Map.values d.services)) (Map.values nodes)

pub add-number :
    (n : ℕ) (r : Reflect) (reflects : List Reflect)
    → has_number n (add_reflect r reflects) ≡ has_number n reflects || r.number == n
unfolding add_reflect
add-number n r [] = ground arith
add-number n r (q ∷ reflects) = ground (arith, add-number n r reflects)

pub remove-number :
    (n : ℕ) (r : Reflect) (reflects : List Reflect)
    → r.number == n ≡ false
    → has_number n (remove_reflect r reflects) ≡ has_number n reflects
unfolding remove_reflect
remove-number n r [] d = refl
remove-number n r (q ∷ reflects) d = ground (arith, remove-number n r reflects d, d)

pub number-has_reflects :
    (n : ℕ) (reflects : List Reflect) → has_number n reflects ≡ true → has_reflects reflects ≡ true
unfolding has_reflects
number-has_reflects n [] h = cc
number-has_reflects n (r ∷ reflects) h = refl

pub set-number :
    (n : ℕ) (key : Text) (r : Reflect) (services : Map Text Reflect)
    → has_number n (Map.values services) ≡ false
    → r.number == n ≡ false
    → has_number n (Map.values (Map.set key r services)) ≡ false
unfolding Map.set
set-number n key r [] h d = ground (arith, d)
set-number n key r ((k, q) ∷ services) h d = ground (arith, set-number n key r services, h, d)

pub delete-number :
    (n : ℕ) (key : Text) (services : Map Text Reflect)
    → has_number n (Map.values services) ≡ false
    → has_number n (Map.values (Map.delete key services)) ≡ false
unfolding Map.delete
delete-number n key [] h = refl
delete-number n key ((k, q) ∷ services) h = ground (arith, delete-number n key services, h)

pub get-number :
    (n : ℕ) (key : Text) (r : Reflect) (services : Map Text Reflect)
    → Map.get key services ≡ some r
    → has_number n (Map.values services) ≡ false
    → r.number == n ≡ false
unfolding Map.get
get-number n key r [] q h = cc
get-number n key r ((k, p) ∷ services) q h = ground (arith, get-number n key r services, q, h)

pub set-told :
    (n : ℕ) (node : Text) (d : NodeData) (nodes : Map Text NodeData)
    → is_told n nodes ≡ false
    → has_number n (Map.values d.services) ≡ false
    → is_told n (Map.set node d nodes) ≡ false
unfolding Map.set
set-told n node d [] h k = ground (arith, k)
set-told n node d ((j, e) ∷ nodes) h k = ground (arith, set-told n node d nodes, h, k)

pub delete-told :
    (n : ℕ) (node : Text) (nodes : Map Text NodeData)
    → is_told n nodes ≡ false
    → is_told n (Map.delete node nodes) ≡ false
unfolding Map.delete
delete-told n node [] h = refl
delete-told n node ((j, e) ∷ nodes) h = ground (arith, delete-told n node nodes, h)

pub get-told :
    (n : ℕ) (node : Text) (d : NodeData) (nodes : Map Text NodeData)
    → Map.get node nodes ≡ some d
    → is_told n nodes ≡ false
    → has_number n (Map.values d.services) ≡ false
unfolding Map.get
get-told n node d [] q h = cc
get-told n node d ((j, e) ∷ nodes) q h = ground (arith, get-told n node d nodes, q, h)
