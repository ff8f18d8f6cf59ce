-- ===== src/Loop/Invariant/Bounds.antt =====
-- The bounds on the state of a run.
use rof_harness.Base.{Bool, ◌≤◌, ◌≡◌, true, false, length, is_some}
use rof_harness.Host.{Host}
use rof_harness.Loop.Gate.{is_open}
use rof_harness.Loop.State.{LoopState}
use rof_harness.Loop.Types.{directive_cap, verify_nudge_cap, step_retry_budget}

module _ {H : Host} where
  pub record Inv (shut : Bool) (s : LoopState H) : Type 0 where
    -- At most three directives wait.
    pub queue_bounded : length s.pending_directives ≤ directive_cap
    -- At most two declares have been held.
    pub nudges_bounded : s.verify.nudges_used ≤ verify_nudge_cap
    pub retries_bounded : s.step_retries ≤ step_retry_budget
    -- Where the gate is known to be shut.
    pub gate_shut : shut ≡ true → is_open s.gate ≡ false
    -- A fatal error has closed the gate, and a hard stop has at least begun to.
    pub fatal_closed : is_some s.fatal_error ≡ true → is_open s.gate ≡ false
    pub stop_closing : s.stop_hard ≡ true → is_open s.gate ≡ false
