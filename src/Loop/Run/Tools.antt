-- ===== src/Loop/Run/Tools.antt =====
-- crates/agent-loop/src/run.rs: `execute_call`, `tool_batch` and `proof_gate`.
use rof_harness.Base.{
  String, Bool, true, false, not, ◌||◌, Option, none, some, List, [], ◌∷◌, is_empty, if◌then◌else◌,
  ◌⊎◌, inl, inr,
}
use rof_harness.Base.Text.{◌<>◌}
use rof_harness.Host.{Host}
use rof_harness.Bets.{
  Claim, CommitVerdict, committed, partial, aborted, assess_claim, note_assessment, note_commit,
}
use rof_harness.Event.Types.{tool_end}
use rof_harness.Log.Types.{IoResult, ok, err, attempt}
use rof_harness.Registry.{error_result, prepare, resolve, Tool}
use rof_harness.Tools.{
  ToolCall, ToolResult, ToolError, ToolOutcome, Invocation, CallStatus, dispatch, result,
  display_error,
}
use rof_harness.Loop.Batch.{
  BatchSnapshot, note_tool_execution, outcome_to_result, refund_batch, settle_tool_tail,
  snapshot_batch,
}
use rof_harness.Loop.Claim.{record_tool_result, get_call}
use rof_harness.Loop.Directives.{push_directive}
use rof_harness.Loop.Gate.{begin_abort}
use rof_harness.Loop.Run.{
  Driver, Action, next, pure, halt, ask, get_state, set_state, on_state, when, ◌>>=◌, ◌>>◌,
}
use rof_harness.Loop.Run.Closing.{sync, record_row, settle_terminal}
use rof_harness.Loop.Run.Frames.{emit}
use rof_harness.Loop.Run.Opening.{or_fail}
use rof_harness.Loop.Run.Proof.{rollback_notice, batch_hunks, incremental_hunks}
use rof_harness.Loop.Types.{
  failed, snapshot, PhaseVerdict, returns, breaks, continues, ToolCallState,
}

pub record BatchReport : Type 0 where
  pub claim : Claim
  pub hunks : List (String × Bool)
  pub batch_failed : Bool
  pub snap : BatchSnapshot

abbrev pub batch_claim : Claim
batch_claim = record {
  predicted_verdict = "tool batch results all passed";
  on_mismatch = "roll back the batch; keep only proven hunks";
}

abbrev pub observation_of : Bool → String
observation_of batch_failed =
    if batch_failed then "tool batch results not all passed" else "tool batch results all passed"

module _ {H : Host} {d : Driver H} where
  -- `stop_hard = true; gate.begin_abort()`.
  unfoldable pub stop_now : Action d (Unit {0})
  unfolding begin_abort
  stop_now = set_state λ s. record s { stop_hard = true; gate = begin_abort s.gate }

  -- The per-turn token goes with it.
  unfoldable pub cancel_turn : H.Token → Action d (Unit {0})
  unfolding stop_now
  cancel_turn turn_token = do
    λ c. (next tt, record c { world = d.services.cancel_token c.world turn_token })
    stop_now

  abbrev pub raced_result : H.Token → Option (ToolError ⊎ ToolOutcome) → Action d ToolResult
  raced_result turn_token none = do
    cancel_turn turn_token
    pure (record { content = "cancelled"; is_error = true })
  raced_result turn_token (some (inr o)) = pure (outcome_to_result o)
  raced_result turn_token (some (inl e)) = pure (error_result (display_error e))

  abbrev pub execute_tool : Invocation H → H.Token → Option (Tool H) → Action d ToolResult
  execute_tool inv turn_token none =
      pure (record { content = "unknown tool: " <> inv.name; is_error = true })
  execute_tool inv turn_token (some tool) = do
    raced ← ask λ w. d.services.execute w tool inv (H.child_token turn_token)
    raced_result turn_token raced

  unfoldable pub execute_call : Invocation H → H.Token → Action d ToolResult
  unfolding resolve cancel_turn outcome_to_result error_result display_error ◌<>◌
  execute_call inv turn_token = execute_tool inv turn_token (resolve d.registry inv.name)

  abbrev pub record_result : String → ToolResult → Action d Bool
  record_result id r = on_state λ t s. record_tool_result t s (record { call_id = id; result = r })

  -- A call that was prepared: whether it failed.
  abbrev pub run_prepared : String → H.Token → CallStatus H → Action d Bool
  run_prepared id turn_token (result r) = do record_result id r; pure r.is_error
  run_prepared id turn_token (dispatch inv) = do
    r ← execute_call inv turn_token
    on_state λ t s. note_tool_execution s inv.name (H.value_text inv.args) r
    record_result id r
    pure r.is_error

  unfoldable pub run_one : H.Token → ToolCall H → Action d Bool
  unfolding execute_call note_tool_execution record_tool_result prepare
  run_one turn_token c = do
    stop ← ask d.services.is_cancelled
    if stop
        then (do
          record_result c.call_id (record { content = "aborted before dispatch"; is_error = true })
          pure true)
        else run_prepared c.call_id turn_token (prepare d.quote d.registry d.agent c)

  abbrev pub emit_done : String → Option ToolResult → Action d (Unit {0})
  emit_done id none = pure tt
  emit_done id (some r) = emit (tool_end id (H.text_value r.content) r.is_error)

  abbrev pub emit_result : String → Option ToolCallState → Action d (Unit {0})
  emit_result id none = pure tt
  emit_result id (some e) = emit_done id e.result

  -- One call of the batch: its row, its tail, the sync and then its frame.
  unfoldable pub batch_call : H.Token → ToolCall H → Action d Bool
  unfolding run_one settle_tool_tail sync emit get_call
  batch_call turn_token c = do
    bad ← run_one turn_token c
    on_state λ t s. (settle_tool_tail t s d.setting.config, tt)
    sync
    s ← get_state
    emit_result c.call_id (get_call c.call_id s.tool_calls)
    pure bad

  unfoldable pub batch_calls : H.Token → List (ToolCall H) → Action d Bool
  unfolding batch_call
  batch_calls turn_token [] = pure false
  batch_calls turn_token (c ∷ cs) = do
    bad ← batch_call turn_token c
    rest ← batch_calls turn_token cs
    pure (bad || rest)

  abbrev pub probe : Option String → Bool → Action d (IoResult (List (String × Bool)))
  probe none batch_failed = batch_hunks (not batch_failed)
  probe (some cmd) batch_failed = incremental_hunks cmd

  abbrev pub or_snapshot_failure : IoResult (List (String × Bool)) → Action d (List (String × Bool))
  or_snapshot_failure (err e) = halt (failed snapshot e)
  or_snapshot_failure (ok hunks) = pure hunks

  -- The tree goes back to the baseline, and the counters with it.
  unfoldable pub roll_back : BatchSnapshot → Action d (Unit {0})
  unfolding refund_batch
  roll_back snap = do
    r ← ask d.services.rollback
    or_fail "snapshot rollback" r
    set_state λ s. refund_batch s snap

  -- The notice is durable before the tree moves.
  unfoldable pub revert_batch : BatchSnapshot → Action d (Unit {0})
  unfolding record_row push_directive roll_back
  revert_batch snap = do
    record_row (attempt rollback_notice true) none
    set_state λ s. push_directive s rollback_notice d.setting.config
    roll_back snap

  unfoldable pub tool_batch : List (ToolCall H) → H.Token → Action d BatchReport
  unfolding snapshot_batch batch_calls batch_hunks incremental_hunks revert_batch
  tool_batch calls turn_token = do
    r ← ask d.services.baseline
    or_fail "snapshot baseline" r
    s ← get_state
    let snap = snapshot_batch s
    bad ← batch_calls turn_token calls
    probed ← probe d.setting.config.proof_cmd bad
    hunks ← or_snapshot_failure probed
    when bad (revert_batch snap)
    pure (record { claim = batch_claim; hunks = hunks; batch_failed = bad; snap = snap })

  abbrev pub note_ablation : BatchReport → Action d (Unit {0})
  note_ablation report = set_state λ s.
      let e = s.experiment in
      record s {
        experiment = record e {
          ablation =
              note_assessment e.ablation
                (assess_claim H report.claim (observation_of report.batch_failed));
        };
      }

  abbrev pub note_verdict : BatchReport → CommitVerdict → Action d (Unit {0})
  note_verdict report verdict = when (not (is_empty report.hunks)) (
      set_state λ s.
        let e = s.experiment in
        record s { experiment = record e { ablation = note_commit e.ablation verdict } })

  abbrev pub apply_verdict : BatchSnapshot → CommitVerdict → Action d (Unit {0})
  apply_verdict snap committed = pure tt
  apply_verdict snap (partial savepoint) = do
    r ← ask λ w. d.services.restore_hunks w savepoint.kept_hunks
    or_fail "snapshot restore" r
  apply_verdict snap (aborted reason) = roll_back snap

  -- A verdict that ends the run.
  abbrev pub or_return : PhaseVerdict → Action d (Unit {0})
  or_return (returns o) = halt o
  or_return breaks = pure tt
  or_return continues = pure tt

  unfoldable pub proof_gate : BatchReport → Action d (Unit {0})
  unfolding assess_claim note_assessment note_commit roll_back settle_terminal
  proof_gate report = do
    note_ablation report
    verdict ← ask λ w. d.services.on_post_batch w report.claim report.hunks
    note_verdict report verdict
    apply_verdict report.snap verdict
    step ← ask d.services.on_step
    or_return step
    s ← get_state
    settle_terminal s.turn
