-- ===== src/Loop/Rows/Claims.antt =====
-- The rows that a claim and its results add.
use rof_harness.Base.{
  String, ◌&&◌, ◌||◌, not, Option, none, some, List, [], ◌∷◌, Bool-cases, inl, inr, str_eq,
}
use rof_harness.Host.{Host}
use rof_harness.Log.Types.{max_tokens}
use rof_harness.Provider.{AssistantMessage, ToolCallRef, StopReason}
use rof_harness.Tools.{ToolResult, tool_edit, tool_write}
use rof_harness.Loop.Batch.{note_tool_execution}
use rof_harness.Loop.Claim.{
  Serde, step_claim, record_tool_result, push_assistant, truncate_call, truncate_calls, claim_call,
  claim_calls, nudge_vetoed, verify_nudge_due, settle_declare, settle_calls, get_call,
  is_open_entry, stop_label,
}
use rof_harness.Loop.Directives.{observe_action}
use rof_harness.Loop.Grows.{Keeps, same, adds, Grows-trans}
use rof_harness.Loop.State.{LoopState}
use rof_harness.Loop.Terminate.{stick_turn_reason}
use rof_harness.Loop.Types.{Clock, RunConfig, ToolMsg}

module _ {H : Host} where
  truncate_calls-Grows :
      (t : Clock) (s : LoopState H) (tcs : List (ToolCallRef H)) → Keeps s (truncate_calls t s tcs)
  unfolding truncate_calls truncate_call
  truncate_calls-Grows t s [] = same
  truncate_calls-Grows t s (tc ∷ tcs) =
      Grows-trans (adds (adds same t.system _) t.system _)
        (truncate_calls-Grows t (truncate_call t s tc) tcs)

  claim_calls-Grows :
      (t : Clock) (s : LoopState H) (tcs : List (ToolCallRef H)) → Keeps s (claim_calls t s tcs)
  unfolding claim_calls claim_call
  claim_calls-Grows t s [] = same
  claim_calls-Grows t s (tc ∷ tcs) =
      Grows-trans (adds same t.system _) (claim_calls-Grows t (claim_call t s tc) tcs)

  settle_declare-Grows :
      (t : Clock) (a : LoopState H × Option String) → Keeps a.0 (settle_declare t a).0
  unfolding settle_declare
  settle_declare-Grows t (s, none) = same
  settle_declare-Grows t (s, some text) = adds same t.system _

  verify_nudge_due-Grows :
      (t : Clock) (s : LoopState H) (cfg : RunConfig H) → Keeps s (verify_nudge_due t s cfg).0
  unfolding verify_nudge_due
  verify_nudge_due-Grows t s cfg = elim (Bool-cases (nudge_vetoed t s cfg)) [
    | inl e ↦ rw e same
    | inr e ↦ rw e same
  ]

  settle_calls-Grows :
      (t : Clock) (s : LoopState H) (cfg : RunConfig H) (tcs : List (ToolCallRef H))
      → Keeps s (settle_calls t s cfg tcs).0
  unfolding settle_calls
  settle_calls-Grows t s cfg [] =
      Grows-trans (verify_nudge_due-Grows t s cfg)
        (settle_declare-Grows t (verify_nudge_due t s cfg))
  settle_calls-Grows t s cfg (tc ∷ tcs) = claim_calls-Grows t s (tc ∷ tcs)

  push_assistant-Grows :
      (t : Clock) (serde : Serde H) (s : LoopState H) (m : AssistantMessage H) (label : String)
      → Keeps s (push_assistant t serde s m label)
  unfolding push_assistant
  push_assistant-Grows t serde s m label = adds same t.system _

  pub step_claim-Grows :
      (t : Clock) (serde : Serde H) (s : LoopState H) (m : AssistantMessage H) (stop : StopReason)
      (cfg : RunConfig H)
      → Keeps s (step_claim t serde s m stop cfg).0
  unfolding step_claim stick_turn_reason
  step_claim-Grows t serde s m StopReason.max_tokens cfg =
      let stuck = stick_turn_reason (truncate_calls t s m.tool_calls) max_tokens in
      Grows-trans (truncate_calls-Grows t s m.tool_calls)
        (push_assistant-Grows t serde stuck m (stop_label StopReason.max_tokens))
  step_claim-Grows t serde s m StopReason.refused cfg =
      push_assistant-Grows t serde s m (stop_label StopReason.refused)
  step_claim-Grows t serde s m StopReason.error cfg = same
  step_claim-Grows t serde s m StopReason.aborted cfg = same
  step_claim-Grows t serde s m reason cfg =
      let pushed = push_assistant t serde s m (stop_label reason) in
      Grows-trans (push_assistant-Grows t serde s m (stop_label reason))
        (settle_calls-Grows t pushed cfg m.tool_calls)

  pub record_tool_result-Grows :
      (t : Clock) (s : LoopState H) (m : ToolMsg) → Keeps s (record_tool_result t s m).0
  unfolding record_tool_result
  record_tool_result-Grows t s m =
      elim (Bool-cases (not (is_open_entry (get_call m.call_id s.tool_calls)))) [
        | inl e ↦ rw e same
        | inr e ↦ rw e (adds same t.system _)
      ]

  pub note_tool_execution-Grows :
      (s : LoopState H) (name args : String) (r : ToolResult)
      → Keeps s (note_tool_execution s name args r).0
  unfolding note_tool_execution observe_action
  note_tool_execution-Grows s name args r =
      elim (Bool-cases (not r.is_error && (str_eq name tool_edit || str_eq name tool_write))) [
        | inl e ↦ rw e same
        | inr e ↦ rw e same
      ]
