-- ===== src/Loop/Run/Follows/Batches.antt =====
-- The tool batch of crates/agent-loop/src/run.rs moves the state by operations.
use rof_harness.Base.{
  ℕ, ◌+◌, String, Bool, true, false, Option, none, some, List, [], ◌∷◌, ◌⊎◌, inl, inr, ◌||◌,
}
use rof_harness.Host.{Host}
use rof_harness.Bets.{
  CommitVerdict, committed, partial, aborted, assess_claim, note_assessment, note_commit,
}
use rof_harness.Log.Types.{IoResult, ok, err}
use rof_harness.Registry.{Tool, prepare}
use rof_harness.Tools.{
  ToolCall, ToolResult, ToolError, ToolOutcome, Invocation, CallStatus, dispatch, result,
}
use rof_harness.Loop.Batch.{BatchSnapshot}
use rof_harness.Loop.Ops.{
  inputs, records, notes, settles_tail, refunds, directs, books, perform, books_of,
}
use rof_harness.Loop.Run.{Driver, Action}
use rof_harness.Loop.Run.Follows.{
  stays, moves, epoch, Follows, bind-Follows, pure-Follows, halt-Follows, get_state-Follows,
  ask-Follows, on_state-Follows, set_state-Follows, when-Follows, if-Follows, emit-Follows,
  sync-Follows, record_row-Follows, settle_terminal-Follows,
}
use rof_harness.Loop.Run.Opening.{or_fail}
use rof_harness.Loop.Run.Proof.{
  patch_of, read_fragments, batch_hunks, prove_with, after_restore, probe_prefix, flag_then,
  probe_from, probe_all, incremental_hunks,
}
use rof_harness.Loop.Run.Tools.{
  BatchReport, observation_of, stop_now, cancel_turn, raced_result, execute_tool, execute_call,
  record_result, run_prepared, run_one, emit_done, emit_result, batch_call, batch_calls, probe,
  or_snapshot_failure, roll_back, revert_batch, tool_batch, note_ablation, note_verdict,
  apply_verdict, or_return, proof_gate,
}
use rof_harness.Loop.State.{apply_input}
use rof_harness.Loop.Types.{stop_hard, PhaseVerdict, returns, breaks, continues, ToolCallState}

module _ {H : Host} {d : Driver H} where
  patch_of-Follows : (r : IoResult (d.services.Diff)) → Follows (patch_of {d = d} r)
  patch_of-Follows (err e) = pure-Follows _
  patch_of-Follows (ok x) = bind-Follows (ask-Follows _) λ r. pure-Follows _

  read_fragments-Follows : Follows (read_fragments {d = d})
  unfolding read_fragments
  read_fragments-Follows =
      bind-Follows (ask-Follows _) λ r. bind-Follows (patch_of-Follows r) λ p. pure-Follows _

  batch_hunks-Follows : (b : Bool) → Follows (batch_hunks {d = d} b)
  unfolding batch_hunks
  batch_hunks-Follows b = bind-Follows read_fragments-Follows λ r. pure-Follows _

  prove_with-Follows : (argv : List String) → Follows (prove_with {d = d} argv)
  prove_with-Follows [] = pure-Follows _
  prove_with-Follows (bin ∷ args) = bind-Follows (ask-Follows _) λ r. pure-Follows _

  after_restore-Follows :
      (argv : List String) (r : IoResult (Unit {0})) → Follows (after_restore {d = d} argv r)
  after_restore-Follows argv (err e) = pure-Follows _
  after_restore-Follows argv (ok u) = prove_with-Follows argv

  probe_prefix-Follows :
      (argv : List String) (prefix : List String) → Follows (probe_prefix {d = d} argv prefix)
  unfolding probe_prefix
  probe_prefix-Follows argv prefix = bind-Follows (ask-Follows _) λ r. after_restore-Follows argv r

  flag_then-Follows :
      (h : String) {later : Action d (IoResult (List (String × Bool)))} (r : IoResult Bool)
      → Follows later
      → Follows (flag_then h later r)
  flag_then-Follows h (err e) f = pure-Follows _
  flag_then-Follows h (ok b) f = bind-Follows f λ r. pure-Follows _

  probe_from-Follows :
      (argv hunks : List String) (k : ℕ) (rest : List String)
      → Follows (probe_from {d = d} argv hunks k rest)
  unfolding probe_from
  probe_from-Follows argv hunks k [] = pure-Follows _
  probe_from-Follows argv hunks k (h ∷ rest) =
      bind-Follows (probe_prefix-Follows argv _)
        λ r. flag_then-Follows h r (probe_from-Follows argv hunks (k + 1) rest)

  probe_all-Follows :
      (cmd : String) (r : IoResult (List String)) → Follows (probe_all {d = d} cmd r)
  probe_all-Follows cmd (err e) = pure-Follows _
  probe_all-Follows cmd (ok hunks) = probe_from-Follows _ hunks 0 hunks

  incremental_hunks-Follows : (cmd : String) → Follows (incremental_hunks {d = d} cmd)
  unfolding incremental_hunks
  incremental_hunks-Follows cmd = bind-Follows read_fragments-Follows (probe_all-Follows cmd)

  pub or_fail-Follows : (what : String) (r : IoResult (Unit {0})) → Follows (or_fail {d = d} what r)
  or_fail-Follows what (ok u) = pure-Follows tt
  or_fail-Follows what (err e) = halt-Follows _

  pub stop_now-Follows : Follows (stop_now {d = d})
  unfolding stop_now perform apply_input
  stop_now-Follows = set_state-Follows _ λ s. moves stays epoch (inputs stop_hard)

  pub cancel_turn-Follows : (token : H.Token) → Follows (cancel_turn {d = d} token)
  unfolding cancel_turn
  cancel_turn-Follows token = bind-Follows (record { follow = λ c. stays }) λ _. stop_now-Follows

  raced_result-Follows :
      (token : H.Token) (r : Option (ToolError ⊎ ToolOutcome))
      → Follows (raced_result {d = d} token r)
  raced_result-Follows token none = bind-Follows (cancel_turn-Follows token) λ _. pure-Follows _
  raced_result-Follows token (some (inr o)) = pure-Follows _
  raced_result-Follows token (some (inl e)) = pure-Follows _

  execute_tool-Follows :
      (inv : Invocation H) (token : H.Token) (tool : Option (Tool H))
      → Follows (execute_tool {d = d} inv token tool)
  execute_tool-Follows inv token none = pure-Follows _
  execute_tool-Follows inv token (some tool) =
      bind-Follows (ask-Follows _) (raced_result-Follows token)

  execute_call-Follows :
      (inv : Invocation H) (token : H.Token) → Follows (execute_call {d = d} inv token)
  unfolding execute_call
  execute_call-Follows inv token = execute_tool-Follows inv token _

  record_result-Follows : (id : String) (r : ToolResult) → Follows (record_result {d = d} id r)
  unfolding perform
  record_result-Follows id r = on_state-Follows _ λ t s. moves stays t (records _)

  run_prepared-Follows :
      (id : String) (token : H.Token) (s : CallStatus H) → Follows (run_prepared {d = d} id token s)
  unfolding perform
  run_prepared-Follows id token (result r) =
      bind-Follows (record_result-Follows id r) λ _. pure-Follows _
  run_prepared-Follows id token (dispatch inv) = bind-Follows (execute_call-Follows inv token) λ r.
      bind-Follows (on_state-Follows _ λ t s. moves stays t (notes _ _ r))
        λ _. bind-Follows (record_result-Follows id r) λ _. pure-Follows _

  run_one-Follows : (token : H.Token) (c : ToolCall H) → Follows (run_one {d = d} token c)
  unfolding run_one
  run_one-Follows token c = bind-Follows (ask-Follows _) λ stop.
      if-Follows stop (bind-Follows (record_result-Follows _ _) λ _. pure-Follows true)
        (run_prepared-Follows c.call_id token (prepare d.quote d.registry d.agent c))

  emit_result-Follows :
      (id : String) (o : Option ToolCallState) → Follows (emit_result {d = d} id o)
  emit_result-Follows id none = pure-Follows tt
  emit_result-Follows id (some e) = by_result e.result
    where
      by_result : (r : Option ToolResult) → Follows (emit_done {d = d} id r)
      by_result none = pure-Follows tt
      by_result (some r) = emit-Follows _

  batch_call-Follows : (token : H.Token) (c : ToolCall H) → Follows (batch_call {d = d} token c)
  unfolding batch_call perform
  batch_call-Follows token c = bind-Follows (run_one-Follows token c) λ bad.
      bind-Follows (on_state-Follows _ λ t s. moves stays t settles_tail) λ _.
        bind-Follows sync-Follows λ _.
          bind-Follows get_state-Follows
            λ s. bind-Follows (emit_result-Follows c.call_id _) λ _. pure-Follows bad

  batch_calls-Follows :
      (token : H.Token) (cs : List (ToolCall H)) → Follows (batch_calls {d = d} token cs)
  unfolding batch_calls
  batch_calls-Follows token [] = pure-Follows false
  batch_calls-Follows token (c ∷ cs) =
      bind-Follows (batch_call-Follows token c)
        λ bad. bind-Follows (batch_calls-Follows token cs) λ rest. pure-Follows (bad || rest)

  probe-Follows : (cmd : Option String) (b : Bool) → Follows (probe {d = d} cmd b)
  probe-Follows none b = batch_hunks-Follows _
  probe-Follows (some cmd) b = incremental_hunks-Follows cmd

  or_snapshot_failure-Follows :
      (r : IoResult (List (String × Bool))) → Follows (or_snapshot_failure {d = d} r)
  or_snapshot_failure-Follows (err e) = halt-Follows _
  or_snapshot_failure-Follows (ok hs) = pure-Follows hs

  roll_back-Follows : (snap : BatchSnapshot) → Follows (roll_back {d = d} snap)
  unfolding roll_back perform
  roll_back-Follows snap = bind-Follows (ask-Follows _) λ r.
      bind-Follows (or_fail-Follows _ r)
        λ _. set_state-Follows _ λ s. moves stays epoch (refunds snap)

  revert_batch-Follows : (snap : BatchSnapshot) → Follows (revert_batch {d = d} snap)
  unfolding revert_batch perform
  revert_batch-Follows snap = bind-Follows (record_row-Follows _ none) λ _.
      bind-Follows (set_state-Follows _ λ s. moves stays epoch (directs _))
        λ _. roll_back-Follows snap

  pub tool_batch-Follows :
      (calls : List (ToolCall H)) (token : H.Token) → Follows (tool_batch {d = d} calls token)
  unfolding tool_batch
  tool_batch-Follows calls token = bind-Follows (ask-Follows _) λ r.
      bind-Follows (or_fail-Follows _ r) λ _. bind-Follows get_state-Follows λ s.
        bind-Follows (batch_calls-Follows token calls) λ bad.
          bind-Follows (probe-Follows _ bad) λ probed.
            bind-Follows (or_snapshot_failure-Follows probed)
              λ hunks. bind-Follows (when-Follows bad (revert_batch-Follows _)) λ _. pure-Follows _

  note_ablation-Follows : (r : BatchReport) → Follows (note_ablation {d = d} r)
  unfolding perform
  note_ablation-Follows r = set_state-Follows _ λ s. moves stays epoch (
      books (record (books_of s) {
        ablation =
            note_assessment s.experiment.ablation
              (assess_claim H r.claim (observation_of r.batch_failed));
      }))

  note_verdict-Follows : (r : BatchReport) (v : CommitVerdict) → Follows (note_verdict {d = d} r v)
  unfolding perform
  note_verdict-Follows r v = when-Follows _ (
      set_state-Follows _ λ s.
        moves stays epoch
          (books (record (books_of s) { ablation = note_commit s.experiment.ablation v })))

  apply_verdict-Follows :
      (snap : BatchSnapshot) (v : CommitVerdict) → Follows (apply_verdict {d = d} snap v)
  apply_verdict-Follows snap committed = pure-Follows tt
  apply_verdict-Follows snap (partial p) = bind-Follows (ask-Follows _) λ r. or_fail-Follows _ r
  apply_verdict-Follows snap (aborted reason) = roll_back-Follows snap

  pub or_return-Follows : (v : PhaseVerdict) → Follows (or_return {d = d} v)
  or_return-Follows (returns o) = halt-Follows o
  or_return-Follows breaks = pure-Follows tt
  or_return-Follows continues = pure-Follows tt

  pub proof_gate-Follows : (r : BatchReport) → Follows (proof_gate {d = d} r)
  unfolding proof_gate
  proof_gate-Follows r = bind-Follows (note_ablation-Follows r) λ _.
      bind-Follows (ask-Follows _) λ verdict. bind-Follows (note_verdict-Follows r verdict) λ _.
        bind-Follows (apply_verdict-Follows r.snap verdict) λ _.
          bind-Follows (ask-Follows _) λ step.
            bind-Follows (or_return-Follows step)
              λ _. bind-Follows get_state-Follows λ s. settle_terminal-Follows s.turn
