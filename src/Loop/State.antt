-- ===== src/Loop/State.antt =====
-- crates/agent-loop/src/state.rs: the state, its inbox and its item list. `tool_calls` is the list
-- of the map's entries, in the order in which the map would be walked.
use rof_harness.Base.{
  ℕ, suc, ◌+◌, ◌-◌, String, Bool, true, false, ◌&&◌, ◌||◌, not, Option, none, some, List, [], ◌∷◌,
  ◌++◌, length, is_empty, is_none, ltb, ◌==◌, if◌then◌else◌, u64,
}
use rof_harness.Base.Text.{◌<>◌, decimal}
use rof_harness.Host.{Host}
use rof_harness.Budget.Config.{config_for, unattended_batch}
use rof_harness.Budget.Guard.{BudgetGuard}
use rof_harness.Budget.Guard
use rof_harness.Context.Compact.{UsageAnchor}
use rof_harness.Event.Types.{UsageReport}
use rof_harness.Log.Types.{
  Item, ItemKind, TurnEndReason, turn_start, external, crash as crash_source,
}
use rof_harness.Log.Types
use rof_harness.Loop.Gate.{EffectGate, is_open, begin_abort}
use rof_harness.Loop.Gate
use rof_harness.Loop.Types.{
  Phase, idle, running, maintenance, Input, user, crash, stop_hard, stop_when_idle, QueuedInput,
  InFlight, ToolCallState, Checkpoint, BudgetShape, gross, VerifyState, Experiment, Clock,
  fresh_verify, fresh_experiment, step_retry_budget,
}

pub record LoopState (H : Host) : Type 0 where
  pub turn : ℕ
  pub step : ℕ
  pub phase : Phase
  pub items : List (Item H)
  pub file_map : Option String
  pub pins : Option (List (String × String))
  pub steering : List QueuedInput
  pub followups : List String
  pub wake_requested : Bool
  pub call_model : Bool
  pub in_flight : Option (InFlight H)
  pub tool_calls : List (String × ToolCallState)
  pub gate : EffectGate
  pub stop_hard : Bool
  pub stop_when_idle : Bool
  pub turn_reason : Option TurnEndReason
  pub budget : BudgetGuard
  pub budget_shape : BudgetShape
  pub usage_totals : UsageReport H
  pub emit_next : ℕ
  pub open_msg : Option ℕ
  pub step_retries : ℕ
  pub fatal_error : Option String
  pub last_sig : String
  pub last_obs : ℕ
  pub pending_directives : List String
  pub edits : ℕ
  pub verify : VerifyState
  pub experiment : Experiment
  pub drain_until : Option ℕ
  pub checkpoint : Option Checkpoint
  pub anchor : Option UsageAnchor
  pub compacted_turn : Option ℕ

-- Without a result the call is open.
abbrev pub is_open_call : String × ToolCallState → Bool
is_open_call (id, c) = is_none c.result

abbrev pub count_open : List (String × ToolCallState) → ℕ
count_open [] = 0
count_open (c ∷ cs) = let rest = count_open cs in if is_open_call c then suc rest else rest

unfoldable pub turn_id : ℕ → String
unfolding ◌<>◌ decimal
turn_id turn = "turn-" <> decimal turn

unfoldable pub item_id : ℕ → String
unfolding ◌<>◌ decimal
item_id seq = "item-" <> decimal seq

unfoldable pub input_id : ℕ → ℕ → String
unfolding ◌<>◌ decimal
input_id turn admitted = "input-" <> decimal turn <> "-" <> decimal admitted

abbrev pub is_idle_phase : Phase → Bool
is_idle_phase idle = true
is_idle_phase _ = false

module _ {H : Host} where
  -- A list is never longer than a u64 can count, so the `seq` does not wrap.
  unfoldable pub append_to : ℕ → List (Item H) → ItemKind H → List (Item H)
  append_to system items kind = items ++ item ∷ []
    where
      item : Item H
      item = record {
        seq = length items + 1;
        id = item_id (length items + 1);
        parent_id = none;
        recorded_at = system;
        kind = kind;
      }

  -- `LoopState::new()` at an instant.
  unfoldable pub new : ℕ → LoopState H
  new now = record {
    turn = 0;
    step = 0;
    phase = idle;
    items = [];
    file_map = none;
    pins = none;
    steering = [];
    followups = [];
    wake_requested = false;
    call_model = false;
    in_flight = none;
    tool_calls = [];
    gate = Gate.new;
    stop_hard = false;
    stop_when_idle = false;
    turn_reason = none;
    budget = Guard.new (config_for unattended_batch) now;
    budget_shape = gross;
    usage_totals = record {
      input_tokens = 0;
      output_tokens = 0;
      cache_read_tokens = 0;
      reasoning_tokens = none;
      cost_usd = none;
    };
    emit_next = 0;
    open_msg = none;
    step_retries = step_retry_budget;
    fatal_error = none;
    last_sig = "";
    last_obs = 0;
    pending_directives = [];
    edits = 0;
    verify = fresh_verify;
    experiment = fresh_experiment;
    drain_until = none;
    checkpoint = none;
    anchor = none;
    compacted_turn = none;
  }

  unfoldable pub open_tools : LoopState H → ℕ
  open_tools s = count_open s.tool_calls

  unfoldable pub batch_complete : LoopState H → Bool
  unfolding open_tools
  batch_complete s = not (is_empty s.tool_calls) && open_tools s == 0

  unfoldable pub should_call_model : LoopState H → Bool
  unfolding open_tools
  should_call_model s =
      if not (is_open s.gate) || s.stop_hard
      then false
      else s.call_model || not (is_empty s.steering) && is_none s.in_flight && open_tools s == 0

  unfoldable pub is_idle : LoopState H → Bool
  unfolding open_tools
  is_idle s =
      is_none s.in_flight && open_tools s == 0 && is_empty s.steering && is_empty s.followups

  unfoldable pub open_turn : Clock → LoopState H → LoopState H
  unfolding append_to turn_id
  open_turn t s =
      let turn' = u64 (s.turn + 1) in
      record s {
        turn = turn';
        phase = running;
        items =
            append_to t.system s.items (
              turn_start (turn_id turn')
                (if ltb 1 turn' then some (turn_id (turn' - 1)) else none));
      }

  -- The match on the phase in `apply_input`.
  unfoldable pub enqueue : Clock → Phase → LoopState H → QueuedInput → LoopState H
  unfolding open_turn
  enqueue t idle s q = let o = open_turn t s in record o { steering = o.steering ++ q ∷ [] }
  enqueue t running s q = record s { steering = s.steering ++ q ∷ [] }
  enqueue t maintenance s q = record s { steering = s.steering ++ q ∷ []; wake_requested = true }

  unfoldable pub apply_input : Clock → LoopState H → Input → LoopState H
  unfolding enqueue begin_abort
  apply_input t s (user text) = enqueue t s.phase s (record { text = text; source = external })
  apply_input t s (crash text) = enqueue t s.phase s (record { text = text; source = crash_source })
  apply_input t s stop_hard = record s { stop_hard = true; gate = begin_abort s.gate }
  apply_input t s stop_when_idle = record s { stop_when_idle = true }

  -- The loop of `admit_steering`: one Input row for each queued line, numbered from `admitted`.
  unfoldable pub admit_rows : ℕ → ℕ → ℕ → List (Item H) → List QueuedInput → List (Item H)
  unfolding append_to input_id
  admit_rows system turn admitted items [] = items
  admit_rows system turn admitted items (q ∷ qs) =
      admit_rows system turn (admitted + 1)
        (append_to system items (Types.input (input_id turn admitted) q.text q.source)) qs

  unfoldable pub admit_steering : Clock → LoopState H → LoopState H × ℕ
  unfolding admit_rows open_turn
  admit_steering t s =
      let s' = record s {
        items = admit_rows t.system s.turn 0 s.items s.steering;
        steering = [];
      } in
      (
        if s.wake_requested && is_idle_phase s.phase
            then open_turn t (record s' { wake_requested = false })
            else s',
        length s.steering,
      )
