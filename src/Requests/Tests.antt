-- ===== src/Requests/Tests.antt =====
-- Runs of the request helper, and the theorems at concrete ones.
use ataraxia.Base.{ℕ, ◌≡◌, refl, none, some, List, [], ◌∷◌, nat_eq}
use ataraxia.Map
use ataraxia.Requests.{
  Call, prepare, reply, error, timer, create, timed_out, resolved, rejected, run,
}
use ataraxia.Requests.Settling.{IsValid, run-IsValid}

abbrev calls : List (Call ℕ)
calls =
    prepare none ∷ prepare (some 10) ∷ reply 1 7 ∷ timer 1 ∷ timer 0 ∷ error 0 none ∷ reply 5 1 ∷ []

run_test : (run calls (create none)).settled ≡ (0, rejected timed_out) ∷ (1, resolved 7) ∷ []
unfolding run create Map.get Map.set Map.delete
run_test = refl

run-IsValid_example : IsValid (run calls (create none))
run-IsValid_example = run-IsValid none calls
