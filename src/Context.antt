-- ===== src/Context.antt =====
-- crates/context/src/collapse.rs: which tool rows of a transcript are stubbed. Its children are the rest of
-- crates/context.
pub mod Window
pub mod Assemble
pub mod Compact
pub mod Cut
pub mod Fit
use Prim.Native.Nat.{max}
use native.Mathlib.Nat.{div-add-mod, mod-lt}
use rof_harness.Base.{ℕ, suc, zero, ◌+◌, ◌-◌, ◌*◌, ◌/◌, ◌≤◌, ◌<◌, ◌≡◌, arith, ◌==◌, if◌then◌else◌}

abbrev pub collapse_keep : ℕ
collapse_keep = 5

abbrev pub collapse_hysteresis : ℕ
collapse_hysteresis = 0

unfoldable pub collapse_boundary : ℕ → ℕ → ℕ → ℕ
collapse_boundary tool_count keep hysteresis =
    if hysteresis == 0 then tool_count - keep else hysteresis * ((tool_count - keep) / hysteresis)

-- How far the rows past `keep` are above the last multiple of the hysteresis.
left_over : (n h : ℕ) → 0 < h → (h * (n / h) ≤ n) × (n < h * (n / h) + h)
left_over n h p = omega (arith, div-add-mod n h, mod-lt n p)

-- Once the history holds `keep` rows, the rows left verbatim are at least `keep` and less than
-- `keep` and the hysteresis together, or exactly `keep` without one; before that no row collapses.
pub collapse_boundary_window :
    (tool_count keep hysteresis : ℕ)
    → (keep ≤ tool_count
        → (keep ≤ tool_count - collapse_boundary tool_count keep hysteresis)
          × (tool_count - collapse_boundary tool_count keep hysteresis < keep + max hysteresis 1)
          × (collapse_boundary tool_count keep hysteresis ≤ tool_count))
      × (tool_count ≤ keep → collapse_boundary tool_count keep hysteresis ≡ 0)
unfolding collapse_boundary
collapse_boundary_window n k zero = (λ p. omega arith, λ p. omega arith)
collapse_boundary_window n k (suc h) =
    let l = left_over (n - k) (suc h) (omega arith) in (λ p. ground arith, λ p. ground arith)
