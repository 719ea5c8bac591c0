-- ===== src/Topology/ListHeap.antt =====
-- A heap for the search of Routing.ts: a list, whose least entry is extracted.
use ataraxia.Base.{
  ◌≤◌, ◌≡◌, refl, subst, Option, none, some, Bool, true, false, List, [], ◌∷◌, if◌then◌else◌, leb,
  arith, bytes_eq,
}
use ataraxia.Topology.Search.{Entry, Without, here, there, IsLeast, Heap}

abbrev least : Entry → List Entry → Entry × List Entry
least e [] = (e, [])
least e (x ∷ h) = let r = least x h in if leb e.key r.0.key then (e, x ∷ h) else (r.0, e ∷ r.1)

below : (d e : Entry) (h : List Entry) → d.key ≤ e.key → IsLeast e h → IsLeast d h
below d e [] l k = tt
below d e (x ∷ h) l k = (omega (arith, l, k.0), below d e h l k.1)

IsLeast-choice :
    (e m : Entry) (entries rest : List Entry)
    → Without m entries rest
    → IsLeast m entries
    → (first : Bool) → leb e.key m.key ≡ first
    → let r : Entry × List Entry = if first then (e, entries) else (m, e ∷ rest) in
      Without r.0 (e ∷ entries) r.1 × IsLeast r.0 (e ∷ entries)
IsLeast-choice e m entries rest w l true q =
    (here, (omega arith, below e m entries (ground (arith, q)) l))
IsLeast-choice e m entries rest w l false q = (there e w, (ground (arith, q), l))

least_lem :
    (e : Entry) (h : List Entry)
    → Without (least e h).0 (e ∷ h) (least e h).1 × IsLeast (least e h).0 (e ∷ h)
least_lem e [] = (here, (omega arith, tt))
least_lem e (x ∷ h) =
    let (w, l) = least_lem x h in
    let r = least x h in IsLeast-choice e r.0 (x ∷ h) r.1 w l (leb e.key r.0.key) refl

abbrev extract : List Entry → Option (Entry × List Entry)
extract [] = none
extract (e ∷ h) = some (least e h)

pub extract-none : (h : List Entry) → extract h ≡ none → h ≡ []
extract-none [] q = refl
extract-none (e ∷ h) q =
    absurd (let c : ◌≡◌ {A = Option (Entry × List Entry)} (some (least e h)) none = q in cc)

pub extract-some :
    (h rest : List Entry) (e : Entry) → extract h ≡ some (e, rest) → Without e h rest × IsLeast e h
extract-some [] rest e q =
    absurd (let c : ◌≡◌ {A = Option (Entry × List Entry)} none (some (e, rest)) = q in cc)
extract-some (x ∷ h) rest e q =
    let f : least x h ≡ (e, rest) = cc in
    subst (λ (r : Entry × List Entry). Without r.0 (x ∷ h) r.1 × IsLeast r.0 (x ∷ h)) f
      (least_lem x h)

abbrev pub list_heap : Heap
list_heap = record {
  extract_minimum = extract;
  extract_none = extract-none;
  extract_some = extract-some;
}
