-- ===== src/IdMap/Tests.antt =====
-- Maps of two identifiers.
use ataraxia.Base.{ℕ, ◌≡◌, refl, true, List, [], ◌∷◌, arith, bytes_eq}
use ataraxia.Ids.{encode_id}
use ataraxia.Map
use ataraxia.IdMap.{get, changes, Change, sets, deletes, id_set_of, has}
use ataraxia.IdMap.Keys.{IsId, plain_changes, changes_refine}

abbrev history : List (Change ℕ)
history =
    sets (1 ∷ 2 ∷ []) 5 ∷ sets (3 ∷ 4 ∷ []) 6 ∷ sets (1 ∷ 2 ∷ []) 7 ∷ deletes (3 ∷ 4 ∷ []) ∷ []

has_test : has (1 ∷ 2 ∷ []) (id_set_of ((3 ∷ []) ∷ (1 ∷ 2 ∷ []) ∷ []) []) ≡ true
unfolding has id_set_of encode_id Map.has Map.get Map.set
has_test = refl

first-IsId : IsId 2 (1 ∷ 2 ∷ [])
first-IsId = ((omega arith, (omega arith, tt)), refl)

second-IsId : IsId 2 (3 ∷ 4 ∷ [])
second-IsId = ((omega arith, (omega arith, tt)), refl)

changes_refine_example :
    (get (1 ∷ 2 ∷ []) (changes history []) ≡ Map.get (1 ∷ 2 ∷ []) (plain_changes history []))
    × (Map.values (changes history []) ≡ Map.values (plain_changes history []))
changes_refine_example =
    changes_refine 2 history (1 ∷ 2 ∷ [])
      (first-IsId, (second-IsId, (first-IsId, (second-IsId, tt)))) first-IsId
