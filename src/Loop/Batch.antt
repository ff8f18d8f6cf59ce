-- ===== src/Loop/Batch.antt =====
-- crates/agent-loop/src/proof.rs: the step helpers around one tool call, and the counters that a
-- rolled-back batch gives back.
use rof_harness.Base.{ℕ, ◌+◌, String, Bool, ◌&&◌, ◌||◌, not, Option, if◌then◌else◌, str_eq, u32}
use rof_harness.Base.Text.{◌<>◌}
use rof_harness.Host.{Host}
use rof_harness.Budget.Guard.{BudgetHalt}
use rof_harness.Tools.{ToolOutcome, ToolResult, tool_edit, tool_write}
use rof_harness.Loop.Directives.{
  observe_action, queue_directives, apply_budget_nudge, deliver_directives,
}
use rof_harness.Loop.State.{LoopState}
use rof_harness.Loop.Types.{Clock, RunConfig}

unfoldable pub outcome_to_result : ToolOutcome → ToolResult
unfolding ◌<>◌
outcome_to_result o = record {
  content = if o.truncated then o.content <> "\n[truncated]" else o.content;
  is_error = not o.success;
}

pub record BatchSnapshot : Type 0 where
  pub edits : ℕ
  pub actions_this_trial : ℕ
  pub same_action_streak : ℕ
  pub last_sig : String
  pub last_obs : ℕ
  pub verified_since_write : Bool

unfoldable pub signature : String → String → String
unfolding ◌<>◌
signature name args = name <> ":" <> args

module _ {H : Host} where
  unfoldable pub note_tool_execution :
      LoopState H → String → String → ToolResult → LoopState H × Option BudgetHalt
  unfolding observe_action signature
  note_tool_execution s name args result =
      let (s', halt) = observe_action s (signature name args) result.content in
      (
        if not result.is_error && (str_eq name tool_edit || str_eq name tool_write)
            then record s' { edits = u32 (s'.edits + 1) }
            else s',
        halt,
      )

  unfoldable pub settle_tool_tail : Clock → LoopState H → RunConfig H → LoopState H
  unfolding queue_directives apply_budget_nudge deliver_directives
  settle_tool_tail t s cfg =
      (deliver_directives (apply_budget_nudge t (queue_directives s cfg)).0).0

  unfoldable pub snapshot_batch : LoopState H → BatchSnapshot
  snapshot_batch s = record {
    edits = s.edits;
    actions_this_trial = s.budget.counters.actions_this_trial;
    same_action_streak = s.budget.counters.same_action_streak;
    last_sig = s.last_sig;
    last_obs = s.last_obs;
    verified_since_write = s.verify.verified_since_write;
  }

  unfoldable pub refund_batch : LoopState H → BatchSnapshot → LoopState H
  refund_batch s snap =
      let g = s.budget in
      let c = g.counters in
      let v = s.verify in
      record s {
        edits = snap.edits;
        budget = record g {
          counters = record c {
            actions_this_trial = snap.actions_this_trial;
            same_action_streak = snap.same_action_streak;
          };
        };
        last_sig = snap.last_sig;
        last_obs = snap.last_obs;
        verify = record v { verified_since_write = snap.verified_since_write };
      }
