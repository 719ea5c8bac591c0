-- ===== src/BackOff/Tests.antt =====
-- The delays of a concrete back-off.
use ataraxia.Base.{◌+◌, ◌*◌, ◌^◌, ◌≡◌, min, none, [], ◌∷◌, arith}
use ataraxia.BackOff.{create, reset, take_delay, attempts}
use ataraxia.BackOff.Delays.{delay_closed, delay_reset}

delay_closed_example :
    ((take_delay 7 (create 50 300 none)).0 ≡ 7)
    × ((take_delay 1 (attempts (7 ∷ 8 ∷ 9 ∷ 4 ∷ []) (create 50 300 none))).0
        ≡ min 300 (50 * 2 ^ 3) + 1)
delay_closed_example = delay_closed 50 300 7 1 none (8 ∷ 9 ∷ 4 ∷ []) (omega arith)

delay_reset_example :
    ((take_delay 1 (reset (attempts (7 ∷ 8 ∷ []) (create 50 300 none)))).0
      ≡ min 300 (50 * 2 ^ 1) + 1)
    × ((take_delay 2 (take_delay 1 (reset (attempts (7 ∷ 8 ∷ []) (create 50 300 none)))).1).0
        ≡ 50 + 2)
delay_reset_example = delay_reset 50 300 7 1 2 none (8 ∷ []) (omega arith)
