-- ===== src/Examples/Logs.antt =====
-- The theorems on the log, at the log of one line.
use rof_harness.Base.{ℕ, ◌≡◌, refl, some, List, [], ◌∷◌, ◌++◌, ◌↔◌}
use rof_harness.Log.Types.{ok}
use rof_harness.Log.Writer.{append_all, open_log, append_item}
use rof_harness.Log.Reader.{read_log, validate_log}
use rof_harness.Log.Validity.{IsLog, validate_log_iff}
use rof_harness.Log.Recovery.{crash_recovery, append_after_crash, unterminated_line}
use rof_harness.Log.Recovery.Bytes.{lines}
use rof_harness.Examples.OneLine.{first, line, one_line, one_line-laws}

abbrev torn : List ℕ
torn = 123 ∷ []

abbrev lost : List ℕ
lost = 125 ∷ []

crash_recovery_example :
    (append_all one_line [] (first ∷ []) ≡ ok (lines (line ∷ [])))
    × (read_log one_line (lines (line ∷ [])) ≡ ok (first ∷ []))
    × (read_log one_line (lines (line ∷ []) ++ torn) ≡ ok (first ∷ []))
    × (open_log (some (lines (line ∷ []) ++ torn)) ≡ lines (line ∷ []))
crash_recovery_example =
    crash_recovery one_line one_line-laws (first ∷ []) (line ∷ []) first torn lost
      ((refl, refl), tt) (refl, (refl, tt)) refl (λ h. cc)

append_after_crash_example :
    (file : List ℕ) × (append_item one_line (some (lines [] ++ torn)) first ≡ ok file)
    × (read_log one_line file ≡ ok ([] ++ first ∷ []))
append_after_crash_example =
    append_after_crash one_line one_line-laws [] [] first first torn lost line tt refl (refl, refl)
      (refl, (refl, tt))

unterminated_line_example :
    (read_log one_line (lines [] ++ line) ≡ ok ([] ++ first ∷ []))
    × (open_log (some (lines [] ++ line)) ≡ lines [])
unterminated_line_example =
    unterminated_line one_line one_line-laws [] [] first line tt (refl, refl) (refl, (refl, tt))

validate_log_iff_example : (validate_log (first ∷ []) ≡ ok tt) ↔ IsLog (first ∷ [])
validate_log_iff_example = validate_log_iff (first ∷ [])
