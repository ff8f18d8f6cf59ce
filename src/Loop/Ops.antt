-- ===== src/Loop/Ops.antt =====
-- The operations on `LoopState` that the two drivers of crates/agent-loop (`run` and `drive_tick`)
-- are composed of, as one type of calls.
use rof_harness.Base.{ℕ, String, List, [], ◌∷◌, Option, some}
use rof_harness.Host.{Host}
use rof_harness.Log.Types.{ItemKind, TurnEndReason}
use rof_harness.Provider.{AssistantMessage, StopReason, Usage}
use rof_harness.Tools.{ToolResult}
use rof_harness.Loop.Batch.{BatchSnapshot, note_tool_execution, settle_tool_tail, refund_batch}
use rof_harness.Loop.Claim.{Serde, step_claim, record_tool_result}
use rof_harness.Loop.Directives.{push_directive}
use rof_harness.Loop.Gate.{close}
use rof_harness.Loop.Provider.{start_provider_call, finish_provider_msg, record_usage}
use rof_harness.Loop.State.{LoopState, apply_input, admit_steering, append_to}
use rof_harness.Loop.Terminate.{terminate, crash_repair, stick_turn_reason}
use rof_harness.Loop.Types.{Clock, RunConfig, Input, ProviderMsg, ToolMsg, Checkpoint, BudgetShape}
use rof_harness.Bets.{AblationMetrics}
use rof_harness.Context.Compact.{UsageAnchor}

pub record Books : Type 0 where
  pub emit_next : ℕ
  pub open_msg : Option ℕ
  pub file_map : Option String
  pub pins : Option (List (String × String))
  pub ablation : AblationMetrics
  pub checkpoint : Option Checkpoint
  pub anchor : Option UsageAnchor
  pub compacted_turn : Option ℕ
  pub budget_shape : BudgetShape
  pub hold : Option String

-- `rows` is the append of `RunCtx::record`, `spends_retries` what an exhausted ladder does in
-- `settle_provider_error`, `exits` the hard exit of `settle_success`, `bills` the usage of a
-- summary call, and `books` a change of what no other operation decides by.
pub data Op (H : Host) : Type 0 where
  inputs : Input → Op H
  admits : Op H
  starts : H.Token → Op H
  lands : ProviderMsg H → Op H
  claims : AssistantMessage H → StopReason → Op H
  records : ToolMsg → Op H
  notes : String → String → ToolResult → Op H
  settles_tail : Op H
  terminates : Op H
  repairs : String → Op H
  refunds : BatchSnapshot → Op H
  rows : ItemKind H → Op H
  directs : String → Op H
  sticks : TurnEndReason → Op H
  spends_retries : Op H
  exits : String → Op H
  bills : Usage H → Op H
  books : Books → Op H

-- What a run has at hand besides its state.
pub record Setting (H : Host) : Type 0 where
  pub config : RunConfig H
  pub serde : Serde H

module _ {H : Host} where
  abbrev pub books_of : LoopState H → Books
  books_of s = record {
    emit_next = s.emit_next;
    open_msg = s.open_msg;
    file_map = s.file_map;
    pins = s.pins;
    ablation = s.experiment.ablation;
    checkpoint = s.checkpoint;
    anchor = s.anchor;
    compacted_turn = s.compacted_turn;
    budget_shape = s.budget_shape;
    hold = s.verify.hold;
  }

  abbrev pub set_books : LoopState H → Books → LoopState H
  set_books s b =
      let e = s.experiment in
      let v = s.verify in
      record s {
        emit_next = b.emit_next;
        open_msg = b.open_msg;
        file_map = b.file_map;
        pins = b.pins;
        experiment = record e { ablation = b.ablation };
        checkpoint = b.checkpoint;
        anchor = b.anchor;
        compacted_turn = b.compacted_turn;
        budget_shape = b.budget_shape;
        verify = record v { hold = b.hold };
      }

module _ {H : Host} (env : Setting H) where
  unfoldable pub perform : Clock → LoopState H → Op H → LoopState H
  unfolding apply_input admit_steering start_provider_call finish_provider_msg step_claim
      record_tool_result note_tool_execution settle_tool_tail terminate crash_repair refund_batch
      append_to push_directive stick_turn_reason close record_usage
  perform t s (inputs i) = apply_input t s i
  perform t s admits = (admit_steering t s).0
  perform t s (starts root) = (start_provider_call t s root).0
  perform t s (lands msg) = (finish_provider_msg t s msg).0
  perform t s (claims message reason) = (step_claim t env.serde s message reason env.config).0
  perform t s (records msg) = (record_tool_result t s msg).0
  perform t s (notes name args r) = (note_tool_execution s name args r).0
  perform t s settles_tail = settle_tool_tail t s env.config
  perform t s terminates = (terminate t env.config s).0
  perform t s (repairs reason) = (crash_repair t s reason).0
  perform t s (refunds snap) = refund_batch s snap
  perform t s (rows kind) = record s { items = append_to t.system s.items kind }
  perform t s (directs text) = push_directive s text env.config
  perform t s (sticks reason) = stick_turn_reason s reason
  perform t s spends_retries = record s { step_retries = 0 }
  perform t s (exits label) = record s { fatal_error = some label; gate = close s.gate label }
  perform t s (bills u) = record_usage s u
  perform t s (books b) = set_books s b

  unfoldable pub perform_all : LoopState H → List (Clock × Op H) → LoopState H
  perform_all s [] = s
  perform_all s ((t, op) ∷ ops) = perform_all (perform t s op) ops
