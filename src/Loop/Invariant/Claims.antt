-- ===== src/Loop/Invariant/Claims.antt =====
-- A claim and its results keep the bounds.
use rof_harness.Base.{
  Bool, Bool-cases, inl, inr, suc, ◌≤◌, ◌≡◌, String, true, false, Option, none, some, List, [], ◌∷◌,
  arith, leb,
}
use rof_harness.Host.{Host}
use rof_harness.Provider.{AssistantMessage, ToolCallRef, StopReason}
use rof_harness.Loop.Batch.{note_tool_execution}
use rof_harness.Loop.Claim.{
  Serde, step_claim, record_tool_result, push_assistant, truncate_call, truncate_calls, claim_call,
  claim_calls, nudge_vetoed, verify_nudge_due, settle_declare, settle_calls, stop_label,
}
use rof_harness.Loop.Directives.{observe_action, count_action}
use rof_harness.Loop.State.{LoopState}
use rof_harness.Loop.Terminate.{stick_turn_reason}
use rof_harness.Tools.{ToolResult}
use rof_harness.Loop.Types.{below_full, Clock, RunConfig, ToolMsg, verify_nudge_cap}
use rof_harness.Loop.Invariant.Bounds.{Inv}

bool_clash : true ≡ false → ⊥
bool_clash e = cc

module _ {H : Host} where
  not_vetoed-nudges :
      (t : Clock) (s : LoopState H) (cfg : RunConfig H)
      → nudge_vetoed t s cfg ≡ false
      → suc s.verify.nudges_used ≤ verify_nudge_cap
  unfolding nudge_vetoed
  not_vetoed-nudges t s cfg h = elim (Bool-cases (leb verify_nudge_cap s.verify.nudges_used)) [
    | inl e ↦ elim (Bool-cases (below_full cfg.incentives)) [
      | inl b ↦ absurd (bool_clash (rw (b, nudge_vetoed) at h))
      | inr b ↦ absurd (bool_clash (rw (b, e, nudge_vetoed) at h))
    ]
    | inr e ↦ ground arith
  ]

module _ {H : Host} {shut : Bool} where
  truncate_calls-Inv :
      (t : Clock) (s : LoopState H) (tcs : List (ToolCallRef H))
      → Inv shut s
      → Inv shut (truncate_calls t s tcs)
  unfolding truncate_calls truncate_call
  truncate_calls-Inv t s [] v = v
  truncate_calls-Inv t s (tc ∷ tcs) v = truncate_calls-Inv t (truncate_call t s tc) tcs (record {
    queue_bounded = v.queue_bounded;
    nudges_bounded = v.nudges_bounded;
    retries_bounded = v.retries_bounded;
    fatal_closed = v.fatal_closed;
    stop_closing = v.stop_closing;
    gate_shut = v.gate_shut;
  })

  claim_calls-Inv :
      (t : Clock) (s : LoopState H) (tcs : List (ToolCallRef H))
      → Inv shut s
      → Inv shut (claim_calls t s tcs)
  unfolding claim_calls claim_call
  claim_calls-Inv t s [] v = v
  claim_calls-Inv t s (tc ∷ tcs) v = claim_calls-Inv t (claim_call t s tc) tcs (record {
    queue_bounded = v.queue_bounded;
    nudges_bounded = v.nudges_bounded;
    retries_bounded = v.retries_bounded;
    fatal_closed = v.fatal_closed;
    stop_closing = v.stop_closing;
    gate_shut = v.gate_shut;
  })

  verify_nudge_due-Inv :
      (t : Clock) (s : LoopState H) (cfg : RunConfig H)
      → Inv shut s
      → Inv shut (verify_nudge_due t s cfg).0
  unfolding verify_nudge_due
  verify_nudge_due-Inv t s cfg v = ground (arith, not_vetoed-nudges t s cfg)

  settle_declare-Inv :
      (t : Clock) (a : LoopState H × Option String) → Inv shut a.0 → Inv shut (settle_declare t a).0
  unfolding settle_declare
  settle_declare-Inv t (s, none) v = v
  settle_declare-Inv t (s, some text) v = ground arith

  settle_calls-Inv :
      (t : Clock) (s : LoopState H) (cfg : RunConfig H) (tcs : List (ToolCallRef H))
      → Inv shut s
      → Inv shut (settle_calls t s cfg tcs).0
  unfolding settle_calls
  settle_calls-Inv t s cfg [] v =
      settle_declare-Inv t (verify_nudge_due t s cfg) (verify_nudge_due-Inv t s cfg v)
  settle_calls-Inv t s cfg (tc ∷ tcs) v = claim_calls-Inv t s (tc ∷ tcs) v

  push_assistant-Inv :
      (t : Clock) (serde : Serde H) (s : LoopState H) (m : AssistantMessage H) (label : String)
      → Inv shut s
      → Inv shut (push_assistant t serde s m label)
  unfolding push_assistant
  push_assistant-Inv t serde s m label v = ground arith

  pub step_claim-Inv :
      (t : Clock) (serde : Serde H) (s : LoopState H) (m : AssistantMessage H) (stop : StopReason)
      (cfg : RunConfig H)
      → Inv shut s
      → Inv shut (step_claim t serde s m stop cfg).0
  unfolding step_claim stick_turn_reason push_assistant
  step_claim-Inv t serde s m StopReason.max_tokens cfg v =
      let w = truncate_calls-Inv t s m.tool_calls v in ground arith
  step_claim-Inv t serde s m StopReason.refused cfg v = ground arith
  step_claim-Inv t serde s m StopReason.error cfg v = v
  step_claim-Inv t serde s m StopReason.aborted cfg v = v
  step_claim-Inv t serde s m reason cfg v =
      settle_calls-Inv t (push_assistant t serde s m (stop_label reason)) cfg m.tool_calls
        (push_assistant-Inv t serde s m (stop_label reason) v)

  pub record_tool_result-Inv :
      (t : Clock) (s : LoopState H) (m : ToolMsg)
      → Inv shut s
      → Inv shut (record_tool_result t s m).0
  unfolding record_tool_result
  record_tool_result-Inv t s m v = ground arith

  pub note-Inv :
      (s : LoopState H) (name args : String) (r : ToolResult)
      → Inv shut s
      → Inv shut (note_tool_execution s name args r).0
  unfolding note_tool_execution observe_action count_action
  note-Inv s name args r v = ground arith
