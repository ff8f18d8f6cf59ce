-- ===== src/Loop/Terminate.antt =====
-- crates/agent-loop/src/state.rs: the sticky turn reason, crash repair and the ordered termination.
use rof_harness.Base.{
  ℕ, ◌+◌, String, Bool, true, false, ◌&&◌, ◌||◌, not, Option, none, some, List, [], ◌∷◌, ◌++◌,
  is_some, is_none, is_empty, ltb, ◌==◌, str_eq, if◌then◌else◌,
}
use rof_harness.Base.Text.{◌<>◌}
use rof_harness.Host.{Host}
use rof_harness.Budget.Guard.{BudgetExceeded, exceeded, halt_name}
use rof_harness.Event.Types
use rof_harness.Log.Types.{
  TurnEndReason, completed, error, interrupted, budget, max_tokens, Item, tool_result, turn_end,
  tool_outcome_unknown,
}
use rof_harness.Loop.State.{LoopState, is_open_call, open_tools, open_turn, append_to, turn_id}
use rof_harness.Loop.Types.{
  Clock, Outcome, done, halted, cancelled, failed, provider, PhaseVerdict, returns, breaks,
  continues, ToolCallState, RunConfig, idle, queued_from,
}

abbrev pub first_reason : Option TurnEndReason → TurnEndReason → TurnEndReason
first_reason none r = r
first_reason (some q) r = q

abbrev pub is_max_tokens : Option TurnEndReason → Bool
is_max_tokens (some max_tokens) = true
is_max_tokens _ = false

-- The text of `Some(TurnEndReason::Error(reason))`.
abbrev pub error_reason : Option TurnEndReason → Option String
error_reason (some (error reason)) = some reason
error_reason _ = none

unfoldable pub turn_end_reason_to_event : TurnEndReason → Types.TurnEndReason
turn_end_reason_to_event completed = Types.completed
turn_end_reason_to_event (error reason) = Types.error
turn_end_reason_to_event interrupted = Types.TurnEndReason.aborted
turn_end_reason_to_event budget = Types.budget_exceeded
turn_end_reason_to_event max_tokens = Types.max_steps

-- `outcome_log_reason` where no reason stuck.
unfoldable pub reason_of : Outcome → TurnEndReason
reason_of done = completed
reason_of (halted label) = if str_eq label "max-tokens" then max_tokens else budget
reason_of cancelled = interrupted
reason_of (failed kind message) = error message

unfoldable pub outcome_log_reason : Outcome → Option TurnEndReason → TurnEndReason
unfolding reason_of
outcome_log_reason outcome sticky = first_reason sticky (reason_of outcome)

unfoldable pub unanswered : String → String
unfolding ◌<>◌
unanswered reason = "unanswered tool call (" <> reason <> ")"

unfoldable pub repair_call : String → String × ToolCallState → String × ToolCallState
unfolding unanswered
repair_call reason (id, c) =
    if is_none c.result
    then (id, record c { result = some (record { content = unanswered reason; is_error = true }) })
    else (id, c)

unfoldable pub repair_calls : String → List (String × ToolCallState) → List (String × ToolCallState)
unfolding repair_call
repair_calls reason [] = []
repair_calls reason (c ∷ cs) = repair_call reason c ∷ repair_calls reason cs

-- How many calls `crash_repair` answers: the entries that were open and have a result afterwards.
unfoldable pub repair_count : String → List (String × ToolCallState) → ℕ
unfolding repair_call
repair_count reason [] = 0
repair_count reason (c ∷ cs) =
    let repaired = repair_count reason cs in
    if is_open_call c && not (is_open_call (repair_call reason c)) then repaired + 1 else repaired

abbrev pub deadline : Option ℕ → ℕ → ℕ
deadline none fresh = fresh
deadline (some until) fresh = until

module _ {H : Host} where
  unfoldable pub stick_turn_reason : LoopState H → TurnEndReason → LoopState H
  stick_turn_reason s reason = record s { turn_reason = some (first_reason s.turn_reason reason) }

  -- The error row of one repaired call.
  abbrev pub repair_row : ℕ → String → List (Item H) → String → List (Item H)
  repair_row system reason items id =
      append_to system items (tool_result id (unanswered reason) true (some tool_outcome_unknown))

  -- The rows of the open calls, in the order of the map.
  unfoldable pub repair_rows :
      ℕ → String → List (Item H) → List (String × ToolCallState) → List (Item H)
  unfolding append_to unanswered
  repair_rows system reason items [] = items
  repair_rows system reason items ((id, c) ∷ cs) =
      repair_rows system reason
        (if is_none c.result then repair_row system reason items id else items) cs

  unfoldable pub crash_repair : Clock → LoopState H → String → LoopState H × ℕ
  unfolding repair_rows repair_calls repair_count
  crash_repair t s reason = (
    record s {
      items = repair_rows t.system reason s.items s.tool_calls;
      tool_calls = repair_calls reason s.tool_calls;
    },
    repair_count reason s.tool_calls,
  )

  -- Step 1: a hard stop drains until its deadline.
  unfoldable pub drain : Clock → RunConfig H → LoopState H → LoopState H × PhaseVerdict
  unfolding open_tools
  drain t cfg s =
      let until = deadline s.drain_until (t.instant + cfg.drain_timeout) in
      (
        record s { drain_until = some until },
        if (is_some s.in_flight || ltb 0 (open_tools s)) && ltb t.instant until
            then breaks
            else returns cancelled,
      )

  -- Step 5: a drained turn polls the follow-ups.
  unfoldable pub poll_followups : Clock → LoopState H → List String → LoopState H × PhaseVerdict
  unfolding append_to open_turn turn_id queued_from
  poll_followups t s (text ∷ rest) =
      let closed = record s {
        followups = rest;
        turn_reason = none;
        items =
            append_to t.system s.items
              (turn_end (turn_id s.turn) (first_reason s.turn_reason completed));
      } in
      let opened = open_turn t closed in
      (record opened { steering = opened.steering ++ queued_from text ∷ [] }, continues)
  poll_followups t s [] =
      if s.stop_when_idle then (s, returns done) else (record s { phase = idle }, continues)

  -- Step 4 and on: the sticky reasons, the latches and the drained turn.
  unfoldable pub settle_turn : Clock → LoopState H → Option String → LoopState H × PhaseVerdict
  unfolding poll_followups open_tools
  settle_turn t s (some reason) = (s, returns (failed provider reason))
  settle_turn t s none =
      if is_max_tokens s.turn_reason && is_none s.in_flight && open_tools s == 0
      then (s, returns (halted "max-tokens"))
      else if s.call_model
      then (s, continues)
      else if is_none s.in_flight && open_tools s == 0 && is_empty s.steering
      then poll_followups t s s.followups
      else (s, continues)

  -- Step 3: a tripped cap.
  unfoldable pub check_budget :
      Clock → LoopState H → Option BudgetExceeded → LoopState H × PhaseVerdict
  unfolding settle_turn halt_name
  check_budget t s (some e) = (s, returns (halted (halt_name e.halt)))
  check_budget t s none = settle_turn t s (error_reason s.turn_reason)

  -- Step 2: exhausted retries.
  unfoldable pub check_fatal : Clock → LoopState H → Option String → LoopState H × PhaseVerdict
  unfolding check_budget exceeded
  check_fatal t s (some e) = (s, returns (failed provider e))
  check_fatal t s none = check_budget t s (exceeded s.budget t.instant)

  unfoldable pub terminate : Clock → RunConfig H → LoopState H → LoopState H × PhaseVerdict
  unfolding drain check_fatal
  terminate t cfg s = if s.stop_hard then drain t cfg s else check_fatal t s s.fatal_error
