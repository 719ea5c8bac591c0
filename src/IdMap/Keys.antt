-- ===== src/IdMap/Keys.antt =====
-- The maps of identifiers against maps whose keys are the identifiers themselves.
use ataraxia.Base.{
  ℕ, ◌≡◌, refl, sym, ap, ◌∙◌, Bool, List, [], ◌∷◌, length, All, bytes_eq, arith, Bool-cases, inl,
  inr,
}
use ataraxia.Map
use ataraxia.Map.{Map}
use ataraxia.Ids.{encode_id}
use ataraxia.Ids.Printing.{IsBytes, encode_id_injective}
use ataraxia.IdMap.{IdMap, set, get, delete, Change, sets, deletes, change, changes}

-- The identifiers of a network: byte strings of one length.
abbrev pub IsId : ℕ → List ℕ → Type 0
IsId n id = IsBytes id × (length id ≡ n)

abbrev same : List ℕ → List ℕ → Bool
same a b = bytes_eq.beq a b

pub same-encode_id :
    (n : ℕ) (a b : List ℕ) → IsId n a → IsId n b → same (encode_id a) (encode_id b) ≡ same a b
same-encode_id n a b h k = elim (Bool-cases (same a b)) [
  | inl e ↦
      (bytes_eq.beq_iff (encode_id a) (encode_id b)).1 (ap encode_id ((bytes_eq.beq_iff a b).0 e))
      ∙ sym e
  | inr e ↦ elim (Bool-cases (same (encode_id a) (encode_id b))) [
    | inl f ↦
        let q =
          encode_id_injective a b h.0 k.0 (h.1 ∙ sym k.1)
            ((bytes_eq.beq_iff (encode_id a) (encode_id b)).0 f) in
        f ∙ sym ((bytes_eq.beq_iff a b).1 q)
    | inr f ↦ f ∙ sym e
  ]
]

module _ {V : Type 0} where
  -- A map with the texts of its keys for the keys.
  abbrev pub by_text : Map (List ℕ) V → IdMap V
  by_text [] = []
  by_text ((id, v) ∷ m) = (encode_id id, v) ∷ by_text m

  abbrev pub HasIds : ℕ → Map (List ℕ) V → Type 0
  HasIds n = All (λ e. IsId n e.0)

  set-by_text :
      (n : ℕ) (id : List ℕ) (v : V) (m : Map (List ℕ) V)
      → IsId n id
      → HasIds n m
      → set id v (by_text m) ≡ by_text (Map.set id v m)
  unfolding set Map.set
  set-by_text n id v [] h k = refl
  set-by_text n id v ((j, w) ∷ m) h k =
      ground (arith, same-encode_id n j id k.0 h, set-by_text n id v m h k.1)

  delete-by_text :
      (n : ℕ) (id : List ℕ) (m : Map (List ℕ) V)
      → IsId n id
      → HasIds n m
      → delete id (by_text m) ≡ by_text (Map.delete id m)
  unfolding delete Map.delete
  delete-by_text n id [] h k = refl
  delete-by_text n id ((j, w) ∷ m) h k =
      ground (arith, same-encode_id n j id k.0 h, delete-by_text n id m h k.1)

  get-by_text :
      (n : ℕ) (id : List ℕ) (m : Map (List ℕ) V)
      → IsId n id
      → HasIds n m
      → get id (by_text m) ≡ Map.get id m
  unfolding get Map.get
  get-by_text n id [] h k = refl
  get-by_text n id ((j, w) ∷ m) h k =
      ground (arith, same-encode_id n j id k.0 h, get-by_text n id m h k.1)

  set-HasIds :
      (n : ℕ) (id : List ℕ) (v : V) (m : Map (List ℕ) V)
      → IsId n id
      → HasIds n m
      → HasIds n (Map.set id v m)
  unfolding Map.set
  set-HasIds n id v [] h k = (h, tt)
  set-HasIds n id v ((j, w) ∷ m) h k = elim (Bool-cases (same j id)) [
    | inl e ↦ rw e (k.0, k.1)
    | inr e ↦ rw e (k.0, set-HasIds n id v m h k.1)
  ]

  delete-HasIds :
      (n : ℕ) (id : List ℕ) (m : Map (List ℕ) V) → HasIds n m → HasIds n (Map.delete id m)
  unfolding Map.delete
  delete-HasIds n id [] k = tt
  delete-HasIds n id ((j, w) ∷ m) k = elim (Bool-cases (same j id)) [
    | inl e ↦ rw e (delete-HasIds n id m k.1)
    | inr e ↦ rw e (k.0, delete-HasIds n id m k.1)
  ]

  -- The changes of a map whose keys are the identifiers themselves.
  abbrev pub plain_changes : List (Change V) → Map (List ℕ) V → Map (List ℕ) V
  plain_changes [] m = m
  plain_changes (sets id v ∷ cs) m = plain_changes cs (Map.set id v m)
  plain_changes (deletes id ∷ cs) m = plain_changes cs (Map.delete id m)

  abbrev pub ChangesId : ℕ → Change V → Type 0
  ChangesId n (sets id v) = IsId n id
  ChangesId n (deletes id) = IsId n id

  changes-by_text :
      (n : ℕ) (cs : List (Change V)) (m : Map (List ℕ) V)
      → All (ChangesId n) cs
      → HasIds n m
      → (changes cs (by_text m) ≡ by_text (plain_changes cs m)) × HasIds n (plain_changes cs m)
  unfolding changes change
  changes-by_text n [] m h k = (refl, k)
  changes-by_text n (sets id v ∷ cs) m h k =
      let rest = changes-by_text n cs (Map.set id v m) h.1 (set-HasIds n id v m h.0 k) in
      (ap (changes cs) (set-by_text n id v m h.0 k) ∙ rest.0, rest.1)
  changes-by_text n (deletes id ∷ cs) m h k =
      let rest = changes-by_text n cs (Map.delete id m) h.1 (delete-HasIds n id m k) in
      (ap (changes cs) (delete-by_text n id m h.0 k) ∙ rest.0, rest.1)

  values-by_text : (m : Map (List ℕ) V) → Map.values (by_text m) ≡ Map.values m
  values-by_text [] = refl
  values-by_text ((id, v) ∷ m) = ap (◌∷◌ v) (values-by_text m)

  -- With identifiers of one length, a map of identifiers is after any changes what a map would be
  -- whose keys are the identifiers themselves: it gives the same value for every identifier, and the
  -- same values in the same order.
  pub changes_refine :
      (n : ℕ) (cs : List (Change V)) (id : List ℕ)
      → All (ChangesId n) cs
      → IsId n id
      → let plain = plain_changes cs [] in
        (get id (changes cs []) ≡ Map.get id plain)
        × (Map.values (changes cs []) ≡ Map.values plain)
  changes_refine n cs id h k =
      let c = changes-by_text n cs [] h tt in
      (
        ap (get id) c.0 ∙ get-by_text n id (plain_changes cs []) k c.1,
        ap Map.values c.0 ∙ values-by_text (plain_changes cs []),
      )
