-- ===== src/Dashboard/Spend/Tests.antt =====
-- A run of the spend monitor: a row of another agent and two that cross the threshold.
use x402guard.Base.{ℕ, ◌+◌, ◌≤◌, ◌≡◌, ◌⊎◌, true, false, some, List, [], ◌∷◌, arith}
use x402guard.Js.Text.{Text, text}
use x402guard.Js.Float.{from_fraction}
use x402guard.Dashboard.Spend.{Insert, warning_text, start_monitor, run, total_of}
use x402guard.Dashboard.Spend.Laws.{is_near}
use x402guard.Dashboard.Spend.Warns.{run-Warns}

abbrev row : Text → ℕ → Insert
row id n = record { agent_id = id; amount = n }

abbrev rows : List Insert
rows = row (text "b") 900 ∷ row (text "a") 500 ∷ row (text "a") 400 ∷ []

run-Warns_example :
    let m = run (text "a") (text "A") (some 1000) rows (start_monitor (text "A") (some 1000) 0) in
    (m.spent ≡ 0 + total_of (text "a") rows)
    × (((is_near 1000 0 ≡ true) × (m.warnings ≡ []))
        ⊎ ((is_near 1000 m.spent ≡ false) × (m.warnings ≡ []))
        ⊎ ((is_near 1000 0 ≡ false)
            × (u : ℕ) × (0 ≤ u)
            × (u ≤ m.spent)
            × (is_near 1000 u ≡ true)
            × (m.warnings ≡ warning_text (text "A") (some (from_fraction false u 1000)))))
run-Warns_example = run-Warns (text "a") (text "A") 1000 (omega arith) 0 rows
