-- ===== src/IdMap.antt =====
-- packages/core/src/id: maps and sets of identifiers, kept by the text of an identifier.
pub mod Keys
mod Tests
use ataraxia.Base.{ℕ, Option, none, Bool, List, [], ◌∷◌, Text, bytes_eq}
use ataraxia.Map
use ataraxia.Map.{Map}
use ataraxia.Ids.{encode_id}

abbrev pub IdMap : Type 0 → Type 0
IdMap V = Map Text V

module _ {V : Type 0} where
  unfoldable pub set : List ℕ → V → IdMap V → IdMap V
  set id value m = Map.set (encode_id id) value m

  unfoldable pub get : List ℕ → IdMap V → Option V
  get id m = Map.get (encode_id id) m

  unfoldable pub delete : List ℕ → IdMap V → IdMap V
  delete id m = Map.delete (encode_id id) m

  abbrev pub values : IdMap V → List V
  values m = Map.values m

  abbrev pub size : IdMap V → ℕ
  size m = Map.size m

-- `IdSet`: under each text, the identifier that was added last.
abbrev pub IdSet : Type 0
IdSet = Map Text (List ℕ)

unfoldable pub add : List ℕ → IdSet → IdSet
add id s = Map.set (encode_id id) id s

unfoldable pub has : List ℕ → IdSet → Bool
has id s = Map.has (encode_id id) s

unfoldable pub remove : List ℕ → IdSet → IdSet
remove id s = Map.delete (encode_id id) s

-- The constructor, with the identifiers to begin with.
unfoldable pub id_set_of : List (List ℕ) → IdSet → IdSet
unfolding add
id_set_of [] s = s
id_set_of (id ∷ ids) s = id_set_of ids (add id s)

-- What can be done to a map.
pub data Change (V : Type 0) : Type 0 where
  sets : List ℕ → V → Change V
  deletes : List ℕ → Change V

unfoldable pub change : {V : Type 0} → Change V → IdMap V → IdMap V
unfolding set delete
change (sets id value) m = set id value m
change (deletes id) m = delete id m

unfoldable pub changes : {V : Type 0} → List (Change V) → IdMap V → IdMap V
unfolding change
changes [] m = m
changes (c ∷ cs) m = changes cs (change c m)
