-- ===== src/Loop/Rows.antt =====
-- Every operation of crates/agent-loop leaves the item list as it was, or grown.
mod Inputs
mod Claims
mod Tail
mod Turns
use rof_harness.Base.{
  ℕ, ◌+◌, ◌≡◌, refl, String, Bool, true, false, ◌&&◌, ◌||◌, not, Option, none, some, List, [], ◌∷◌,
  if◌then◌else◌, if_both, subst, arith, Bool-cases, inl, inr, is_some, is_none, is_empty, ltb, ◌==◌,
  str_eq, leb,
}
use rof_harness.Host.{Host}
use rof_harness.Budget.Guard.{
  BudgetGuard, BudgetExceeded, StepAnswer, Nudge, ok, err, wrap_up, may_step, nudge_due, exceeded,
}
use rof_harness.Log.Types.{Item, ItemKind, completed, turn_end, max_tokens}
use rof_harness.Log.Types
use rof_harness.Log.Validity.{IsLog, validate_log_iff}
use rof_harness.Log.Reader.{validate_log}
use rof_harness.Provider.{AssistantMessage, ToolCallRef, StopReason, Usage}
use rof_harness.Tools.{ToolResult, tool_edit, tool_write}
use rof_harness.Loop.Batch.{note_tool_execution, settle_tool_tail, refund_batch}
use rof_harness.Loop.Claim.{
  Serde, step_claim, record_tool_result, push_assistant, truncate_call, truncate_calls, claim_call,
  claim_calls, nudge_vetoed, verify_nudge_due, settle_declare, settle_calls, get_call,
  is_open_entry, stop_label,
}
use rof_harness.Loop.Directives.{
  observe_action, push_directive, queue_half, queue_late, queue_directives, extend_all,
  has_tool_tail, extend_tail, deliver_directives, append_to_tail, land_nudge, apply_budget_nudge,
}
use rof_harness.Loop.Gate.{admit}
use rof_harness.Loop.Grows.{
  Keeps, Grows, same, adds, amends, Grows-trans, IsOpenLog, Grows-IsOpenLog,
}
use rof_harness.Loop.Ops.{
  Op, inputs, admits, starts, lands, claims, records, notes, settles_tail, terminates, repairs,
  refunds, rows, directs, sticks, spends_retries, exits, bills, books, Setting, perform,
  perform_all,
}
use rof_harness.Loop.Provider.{
  start_step, start_provider_call, record_usage, record_some, fail_attempt, land,
  finish_provider_msg, is_admitted,
}
use rof_harness.Loop.State.{
  LoopState, append_to, open_tools, open_turn, enqueue, apply_input, admit_rows, admit_steering,
  is_idle_phase,
}
use rof_harness.Loop.Terminate.{
  terminate, crash_repair, stick_turn_reason, repair_row, repair_rows, drain, poll_followups,
  settle_turn, check_budget, check_fatal, error_reason, is_max_tokens,
}
use rof_harness.Loop.Types.{
  Clock, RunConfig, PhaseVerdict, Phase, idle, running, maintenance, Input, user, crash, stop_hard,
  stop_when_idle, QueuedInput, ProviderMsg, partial, settled, failed_call, turn_of, ToolMsg,
  ToolCallState, below_full,
}
use rof_harness.Loop.Rows.Inputs.{
  apply_input-Grows, admit_steering-Grows, start_provider_call-Grows, finish_provider_msg-Grows,
}
use rof_harness.Loop.Rows.Claims.{
  step_claim-Grows, record_tool_result-Grows, note_tool_execution-Grows,
}
use rof_harness.Loop.Rows.Tail.{push_directive-Grows, settle_tool_tail-Grows}
use rof_harness.Loop.Rows.Turns.{repair_rows-Grows, terminate-Grows}

module _ {H : Host} (env : Setting H) where
  -- Every operation leaves the item list as it was, or grown by rows and by lines on a ToolResult.
  pub perform-Grows :
      (t : Clock) (s : LoopState H) (op : Op H) → Grows s.items (perform env t s op).items
  unfolding perform refund_batch stick_turn_reason crash_repair record_usage
  perform-Grows t s (inputs i) = apply_input-Grows t s i
  perform-Grows t s admits = admit_steering-Grows t s
  perform-Grows t s (starts root) = start_provider_call-Grows t s root
  perform-Grows t s (lands msg) = finish_provider_msg-Grows t s msg
  perform-Grows t s (claims m reason) = step_claim-Grows t env.serde s m reason env.config
  perform-Grows t s (records msg) = record_tool_result-Grows t s msg
  perform-Grows t s (notes name args r) = note_tool_execution-Grows s name args r
  perform-Grows t s settles_tail = settle_tool_tail-Grows t s env.config
  perform-Grows t s terminates = terminate-Grows t env.config s
  perform-Grows t s (repairs reason) = repair_rows-Grows t.system reason s.items s.tool_calls
  perform-Grows t s (refunds snap) = same
  perform-Grows t s (rows kind) = adds same t.system kind
  perform-Grows t s (directs text) = push_directive-Grows s text env.config
  perform-Grows t s (sticks reason) = same
  perform-Grows t s spends_retries = same
  perform-Grows t s (exits label) = same
  perform-Grows t s (bills u) = same
  perform-Grows t s (books b) = same

  pub perform_all-Grows :
      (s : LoopState H) (ops : List (Clock × Op H)) → Grows s.items (perform_all env s ops).items
  unfolding perform_all
  perform_all-Grows s [] = same
  perform_all-Grows s ((t, op) ∷ ops) =
      Grows-trans (perform-Grows t s op) (perform_all-Grows (perform env t s op) ops)

  IsOpenLog-IsLog : (is : List (Item H)) → IsOpenLog is → IsLog is
  IsOpenLog-IsLog [] h = tt
  IsOpenLog-IsLog (i ∷ is) h = h

  -- From items that begin with a Header of this version and have no gap in their numbers, any
  -- sequence of operations, at any times, leaves items that `validate_log` accepts.
  pub perform_all-validate_log :
      (s : LoopState H) (ops : List (Clock × Op H))
      → IsOpenLog s.items
      → validate_log (perform_all env s ops).items ≡ Types.ok tt
  perform_all-validate_log s ops h =
      let is = (perform_all env s ops).items in
      (validate_log_iff is).1 (IsOpenLog-IsLog is (Grows-IsOpenLog (perform_all-Grows s ops) h))
