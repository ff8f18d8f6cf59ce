-- ===== src/Loop/Draining.antt =====
-- What each answer of `terminate` in crates/agent-loop means.
use rof_harness.Base.{◌+◌, ◌≤◌, ◌≡◌, ◌↔◌, ◌⊎◌, String, true, false, none, some, [], arith}
use rof_harness.Host.{Host}
use rof_harness.Budget.Guard.{exceeded, halt_name, BudgetExceeded}
use rof_harness.Loop.State.{LoopState, open_tools}
use rof_harness.Loop.Terminate.{
  deadline, terminate, drain, check_fatal, check_budget, settle_turn, poll_followups, error_reason,
  is_max_tokens,
}
use rof_harness.Loop.Types.{
  Clock, RunConfig, returns, breaks, done, cancelled, halted, failed, provider,
}

module _ {H : Host} where
  -- Nothing is left to do, and the driver was asked to stop when idle.
  pub record IsDone (t : Clock) (s : LoopState H) : Type 0 where
    pub unstopped : s.stop_hard ≡ false
    pub no_error : s.fatal_error ≡ none
    pub in_budget : exceeded s.budget t.instant ≡ none
    pub no_reason : error_reason s.turn_reason ≡ none
    pub not_truncated : is_max_tokens s.turn_reason ≡ false
    pub unlatched : s.call_model ≡ false
    pub no_call : s.in_flight ≡ none
    pub no_tools : open_tools s ≡ 0
    pub no_steering : s.steering ≡ []
    pub no_followups : s.followups ≡ []
    pub asked : s.stop_when_idle ≡ true

  -- `terminate` ends a run as done exactly when nothing is left to do: no hard stop, fatal error,
  -- tripped cap, sticky failure or truncation, no latched or flying call, no open tool, no queued
  -- input or follow-up, and the wish to stop when idle.
  pub terminate_done_iff :
      (t : Clock) (cfg : RunConfig H) (s : LoopState H)
      → ((terminate t cfg s).1 ≡ returns done) ↔ IsDone t s
  unfolding terminate drain check_fatal check_budget settle_turn poll_followups
  terminate_done_iff t cfg s = (λ h. ground arith, λ d. ground arith)

  -- From a first answer to a hard stop, the next answer is to go on draining or to be cancelled,
  -- and it is to be cancelled once the drain timeout has passed since the first; the first is
  -- already to be cancelled where nothing is in flight and no tool is open.
  pub hard_stop_drains :
      (t u : Clock) (cfg : RunConfig H) (s : LoopState H)
      → s.stop_hard ≡ true
      → s.drain_until ≡ none
      → let (s', v) = terminate t cfg s in
        let w = (terminate u cfg s').1 in
        ((w ≡ breaks) ⊎ (w ≡ returns cancelled))
        × (t.instant + cfg.drain_timeout ≤ u.instant → w ≡ returns cancelled)
        × (s.in_flight ≡ none → open_tools s ≡ 0 → v ≡ returns cancelled)
  unfolding terminate drain
  hard_stop_drains t u cfg s h d = (ground arith, λ p. ground arith, λ p q. ground arith)

  -- A failure is the fatal error, or else the sticky one of the turn where no cap has tripped.
  abbrev pub IsFailing : Clock → LoopState H → String → Type 0
  IsFailing t s e =
      (s.stop_hard ≡ false)
      × ((s.fatal_error ≡ some e)
          ⊎ ((s.fatal_error ≡ none)
              × (exceeded s.budget t.instant ≡ none)
              × (error_reason s.turn_reason ≡ some e)))

  -- A halt is that of the cap that has tripped, or else of a truncated turn that has drained.
  abbrev pub IsHalting : Clock → LoopState H → String → Type 0
  IsHalting t s label =
      (s.stop_hard ≡ false)
      × (s.fatal_error ≡ none)
      × (((b : BudgetExceeded) × (exceeded s.budget t.instant ≡ some b)
            × (label ≡ halt_name b.halt))
          ⊎ ((exceeded s.budget t.instant ≡ none)
              × (error_reason s.turn_reason ≡ none)
              × (is_max_tokens s.turn_reason ≡ true)
              × (s.in_flight ≡ none)
              × (open_tools s ≡ 0)
              × (label ≡ "max-tokens")))

  -- A cancelled run was stopped hard and has drained, or its deadline is over.
  abbrev pub IsCancelling : Clock → RunConfig H → LoopState H → Type 0
  IsCancelling t cfg s =
      (s.stop_hard ≡ true)
      × (((s.in_flight ≡ none) × (open_tools s ≡ 0))
          ⊎ (deadline s.drain_until (t.instant + cfg.drain_timeout) ≤ t.instant))

  terminate_failed_iff :
      (t : Clock) (cfg : RunConfig H) (s : LoopState H) (e : String)
      → ((terminate t cfg s).1 ≡ returns (failed provider e)) ↔ IsFailing t s e
  unfolding terminate drain check_fatal check_budget settle_turn poll_followups
  terminate_failed_iff t cfg s e = (λ h. ground arith, λ d. ground arith)

  terminate_cancelled_iff :
      (t : Clock) (cfg : RunConfig H) (s : LoopState H)
      → ((terminate t cfg s).1 ≡ returns cancelled) ↔ IsCancelling t cfg s
  unfolding terminate drain check_fatal check_budget settle_turn poll_followups
  terminate_cancelled_iff t cfg s = (λ h. ground arith, λ d. ground arith)

  terminate_halted_iff :
      (t : Clock) (cfg : RunConfig H) (s : LoopState H) (label : String)
      → ((terminate t cfg s).1 ≡ returns (halted label)) ↔ IsHalting t s label
  unfolding terminate drain check_fatal check_budget settle_turn poll_followups
  terminate_halted_iff t cfg s label = (λ h. ground arith, λ d. ground arith)

  -- Which runs `terminate` ends other than as done. It fails a run with an error exactly where there
  -- is no hard stop and the error is the fatal one, or, without a fatal error and a tripped cap, the
  -- sticky one of the turn. It halts a run exactly under the name of the cap that has tripped, where
  -- there is neither hard stop nor fatal error, or, where no cap has tripped either and no error
  -- stuck, for a truncated turn with nothing in flight and no open tool. It cancels a run exactly
  -- where there is a hard stop and nothing is in flight and open, or the drain deadline is over.
  pub terminate_ends_iff :
      (t : Clock) (cfg : RunConfig H) (s : LoopState H) (text : String)
      → (((terminate t cfg s).1 ≡ returns (failed provider text)) ↔ IsFailing t s text)
        × (((terminate t cfg s).1 ≡ returns (halted text)) ↔ IsHalting t s text)
        × (((terminate t cfg s).1 ≡ returns cancelled) ↔ IsCancelling t cfg s)
  terminate_ends_iff t cfg s text = (
    terminate_failed_iff t cfg s text,
    terminate_halted_iff t cfg s text,
    terminate_cancelled_iff t cfg s,
  )
