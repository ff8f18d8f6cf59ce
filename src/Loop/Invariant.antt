-- ===== src/Loop/Invariant.antt =====
-- The bounds that every operation of crates/agent-loop keeps.
pub mod Bounds
mod Inputs
mod Claims
mod Tail
mod Turns
use rof_harness.Base.{
  ◌||◌, ℕ, suc, ◌+◌, ◌≤◌, ◌≡◌, refl, String, Bool, true, false, Option, none, some, List, [], ◌∷◌,
  ◌++◌, arith, length, length-append, is_some, if_both,
}
use rof_harness.Host.{Host}
use rof_harness.Budget.Guard.{
  BudgetGuard, BudgetExceeded, StepAnswer, Nudge, ok, err, wrap_up, may_step, exceeded, nudge_due,
}
use rof_harness.Log.Types
use rof_harness.Provider.{AssistantMessage, ToolCallRef, StopReason, Usage}
use rof_harness.Loop.Batch.{note_tool_execution, settle_tool_tail, refund_batch}
use rof_harness.Loop.Claim.{
  Serde, step_claim, record_tool_result, push_assistant, truncate_call, truncate_calls, claim_call,
  claim_calls, nudge_vetoed, verify_nudge_due, settle_declare, settle_calls, stop_label,
}
use rof_harness.Loop.Directives.{
  observe_action, count_action, push_directive, queue_half, queue_late, queue_directives,
  deliver_directives, append_to_tail, land_nudge, apply_budget_nudge, drop_first,
}
use rof_harness.Loop.Gate
use rof_harness.Loop.Gate.{begin_abort, close, is_open, closed}
use rof_harness.Loop.Ops.{
  Op, inputs, admits, starts, lands, claims, records, notes, settles_tail, terminates, repairs,
  refunds, rows, directs, sticks, spends_retries, exits, bills, books, Setting, perform,
  perform_all,
}
use rof_harness.Loop.Provider.{
  start_step, start_provider_call, record_usage, record_some, fail_attempt, land,
  finish_provider_msg,
}
use rof_harness.Loop.State.{LoopState, open_turn, enqueue, apply_input, admit_steering, new}
use rof_harness.Loop.Terminate.{
  terminate, crash_repair, stick_turn_reason, drain, poll_followups, settle_turn, check_budget,
  check_fatal, error_reason,
}
use rof_harness.Loop.Types.{
  Clock, RunConfig, Phase, idle, running, maintenance, Input, user, crash, stop_hard,
  stop_when_idle, QueuedInput, ProviderMsg, partial, settled, failed_call, ToolMsg, PhaseVerdict,
  directive_cap, verify_nudge_cap, step_retry_budget,
}
use rof_harness.Loop.Invariant.Bounds.{Inv}
use rof_harness.Loop.Invariant.Inputs.{apply_input-Inv, admit_steering-Inv, start-Inv, finish-Inv}
use rof_harness.Loop.Invariant.Claims.{step_claim-Inv, record_tool_result-Inv, note-Inv}
use rof_harness.Loop.Invariant.Tail.{push_directive-Inv, settle_tool_tail-Inv}
use rof_harness.Loop.Invariant.Turns.{terminate-Inv}

module _ {H : Host} {shut : Bool} (env : Setting H) where
  perform-Inv :
      (t : Clock) (s : LoopState H) (op : Op H) → Inv shut s → Inv shut (perform env t s op)
  unfolding perform refund_batch stick_turn_reason crash_repair close record_usage
  perform-Inv t s (inputs i) v = apply_input-Inv t s i v
  perform-Inv t s admits v = admit_steering-Inv t s v
  perform-Inv t s (starts root) v = start-Inv t s root v
  perform-Inv t s (lands msg) v = finish-Inv t s msg v
  perform-Inv t s (claims m reason) v = step_claim-Inv t env.serde s m reason env.config v
  perform-Inv t s (records msg) v = record_tool_result-Inv t s msg v
  perform-Inv t s (notes name args r) v = note-Inv s name args r v
  perform-Inv t s settles_tail v = settle_tool_tail-Inv t s env.config v
  perform-Inv t s terminates v = terminate-Inv t env.config s v
  perform-Inv t s (repairs reason) v = ground arith
  perform-Inv t s (refunds snap) v = ground arith
  perform-Inv t s (rows kind) v = ground arith
  perform-Inv t s (directs text) v = push_directive-Inv s text env.config v
  perform-Inv t s (sticks reason) v = ground arith
  perform-Inv t s spends_retries v = ground arith
  perform-Inv t s (exits label) v = ground arith
  perform-Inv t s (bills u) v = ground arith
  perform-Inv t s (books b) v = ground arith

  -- From a state within these bounds, any sequence of operations at any times leaves a state
  -- within them: at most three directives wait, at most two declares have been held, at most two
  -- retries are left, a fatal error or a hard stop means that the gate is not open, and a gate
  -- that is known not to be open stays so.
  pub perform_all-Inv :
      (s : LoopState H) (ops : List (Clock × Op H)) → Inv shut s → Inv shut (perform_all env s ops)
  unfolding perform_all
  perform_all-Inv s [] v = v
  perform_all-Inv s ((t, op) ∷ ops) v =
      perform_all-Inv (perform env t s op) ops (perform-Inv t s op v)
