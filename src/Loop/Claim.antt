-- ===== src/Loop/Claim.antt =====
-- crates/agent-loop/src/verify.rs: the claim of a settled message, the verification nudge and the
-- record of a tool's result.
use rof_harness.Base.{
  ◌+◌, ◌-◌, String, Bool, true, false, ◌&&◌, ◌||◌, not, Option, none, some, List, [], ◌∷◌, length,
  is_some, is_none, ltb, leb, str_eq, if◌then◌else◌, sat_mul32, u32,
}
use rof_harness.Base.Text.{◌<>◌}
use rof_harness.Host.{Host}
use rof_harness.Budget.Guard.{exceeded, elapsed, spend_tripped}
use rof_harness.Log.Types.{
  IoResult, ok, err, error, max_tokens, assistant, attempt, tool_call, tool_result,
}
use rof_harness.Provider.{AssistantMessage, ToolCallRef, StopReason}
use rof_harness.Tools.{ToolCall, ToolResult, tool_edit, tool_write}
use rof_harness.Loop.State.{LoopState, append_to, batch_complete}
use rof_harness.Loop.Terminate.{stick_turn_reason}
use rof_harness.Loop.Types.{
  Clock, RunConfig, below_full, ClaimOutcome, dispatch, truncated, declared, verify_hold, refused,
  hard_exit, ToolCallState, ToolMsg, verify_nudge_cap,
}
use rof_harness.Loop.Verification.{is_verification_call}

abbrev pub verify_nudge : String
verify_nudge =
    "Unverified declare held: no passing verification run since your last write. Either run the task's verification now, or state exactly what blocks it (missing tool/package/file) and what you verified instead. Declaring without one of those two is not completing."

abbrev pub truncated_text : String
truncated_text = "tool call truncated: re-issue with complete arguments"

unfoldable pub stop_label : StopReason → String
stop_label StopReason.pending = "Pending"
stop_label StopReason.stop = "Stop"
stop_label StopReason.tool_use = "ToolUse"
stop_label StopReason.max_tokens = "MaxTokens"
stop_label StopReason.refused = "Refused"
stop_label StopReason.error = "Error"
stop_label StopReason.aborted = "Aborted"
stop_label StopReason.deferred = "Deferred"

-- `serde_json::to_value` at an assistant message, and the `json!` object of the fallback around its
-- content.
pub record Serde (H : Host) : Type 0 where
  pub to_value : AssistantMessage H → IoResult H.Value
  pub marker : String → H.Value

-- `HashMap::insert` and `HashMap::get`.
unfoldable pub insert_call :
    String → ToolCallState → List (String × ToolCallState) → List (String × ToolCallState)
insert_call id c [] = (id, c) ∷ []
insert_call id c ((j, d) ∷ cs) =
    let rest = insert_call id c cs in if str_eq j id then (id, c) ∷ cs else (j, d) ∷ rest

unfoldable pub get_call : String → List (String × ToolCallState) → Option ToolCallState
get_call id [] = none
get_call id ((j, d) ∷ cs) = let rest = get_call id cs in if str_eq j id then some d else rest

abbrev pub is_open_entry : Option ToolCallState → Bool
is_open_entry none = false
is_open_entry (some c) = is_none c.result

-- `c.result = Some(result)` on the entry of the id.
unfoldable pub answer_call :
    String → ToolResult → List (String × ToolCallState) → List (String × ToolCallState)
answer_call id r [] = []
answer_call id r ((j, c) ∷ cs) =
    let rest = answer_call id r cs in
    if str_eq j id then (j, record c { result = some r }) ∷ cs else (j, c) ∷ rest

-- What an ok result of the probed call does to the flag.
unfoldable pub verified_after : Bool → Option ToolCallState → Bool
verified_after old none = old
verified_after old (some c) =
    if str_eq c.name tool_edit || str_eq c.name tool_write
    then false
    else if c.is_verification
    then true
    else old

module _ {H : Host} where
  unfoldable pub message_value : Serde H → IoResult H.Value → H.Value
  unfolding ◌<>◌
  message_value serde (ok v) = v
  message_value serde (err e) = serde.marker ("[assistant serialization failed: " <> e <> "]")

  unfoldable pub push_assistant :
      Clock → Serde H → LoopState H → AssistantMessage H → String → LoopState H
  unfolding append_to message_value
  push_assistant t serde s message label = record s {
    items =
        append_to t.system s.items
          (assistant (message_value serde (serde.to_value message)) label false);
  }

  -- One call of a batch that the provider cut off: its row, its error result and its closed entry.
  unfoldable pub truncate_call : Clock → LoopState H → ToolCallRef H → LoopState H
  unfolding append_to insert_call
  truncate_call t s tc = record s {
    items =
        append_to t.system (append_to t.system s.items (tool_call tc.id tc.name tc.args))
          (tool_result tc.id truncated_text true none);
    tool_calls =
        insert_call tc.id
          (record {
            name = tc.name;
            args = H.value_text tc.args;
            is_verification = false;
            result = some (record { content = truncated_text; is_error = true });
          })
          s.tool_calls;
  }

  unfoldable pub truncate_calls : Clock → LoopState H → List (ToolCallRef H) → LoopState H
  unfolding truncate_call
  truncate_calls t s [] = s
  truncate_calls t s (tc ∷ tcs) = truncate_calls t (truncate_call t s tc) tcs

  -- One dispatched call: its row and its open entry.
  unfoldable pub claim_call : Clock → LoopState H → ToolCallRef H → LoopState H
  unfolding append_to insert_call is_verification_call
  claim_call t s tc = record s {
    items = append_to t.system s.items (tool_call tc.id tc.name tc.args);
    tool_calls =
        insert_call tc.id
          (record {
            name = tc.name;
            args = H.value_text tc.args;
            is_verification = is_verification_call H tc.name tc.args;
            result = none;
          })
          s.tool_calls;
  }

  unfoldable pub claim_calls : Clock → LoopState H → List (ToolCallRef H) → LoopState H
  unfolding claim_call
  claim_calls t s [] = s
  claim_calls t s (tc ∷ tcs) = claim_calls t (claim_call t s tc) tcs

  unfoldable pub to_calls : List (ToolCallRef H) → List (ToolCall H)
  to_calls [] = []
  to_calls (tc ∷ tcs) = record { call_id = tc.id; name = tc.name; args = tc.args } ∷ to_calls tcs

  -- The guards of `verify_nudge_due`, in their order: true where one of them returns `None`.
  unfoldable pub nudge_vetoed : Clock → LoopState H → RunConfig H → Bool
  unfolding exceeded
  nudge_vetoed t s cfg =
      below_full cfg.incentives
      || leb verify_nudge_cap s.verify.nudges_used
      || leb s.edits s.verify.edits_at_last_nudge
      || s.verify.verified_since_write
      || ltb 0 caps.actions_per_trial
        && leb (sat_mul32 caps.actions_per_trial 9) (sat_mul32 counters.actions_this_trial 10)
      || is_some (exceeded s.budget t.instant)
      || ltb (caps.max_steps - counters.steps) 2
      || ltb 0 caps.max_tokens && leb caps.max_tokens counters.tokens
      || spend_tripped caps.max_spend_cents counters.spent_cents
      || ltb 0 caps.max_wallclock && leb caps.max_wallclock (elapsed s.budget t.instant)
    where
      open s.budget use {config as caps, counters}

  unfoldable pub verify_nudge_due : Clock → LoopState H → RunConfig H → LoopState H × Option String
  unfolding nudge_vetoed
  verify_nudge_due t s cfg =
      if nudge_vetoed t s cfg
      then (s, none)
      else let v = s.verify in
        (
          record s {
            verify = record v {
              nudges_used = u32 (v.nudges_used + 1);
              edits_at_last_nudge = s.edits;
            };
          },
          some verify_nudge,
        )

  -- A declare: it is held if the nudge is due.
  unfoldable pub settle_declare : Clock → LoopState H × Option String → LoopState H × ClaimOutcome H
  unfolding append_to
  settle_declare t (s, none) = (s, declared)
  settle_declare t (s, some text) =
      let v = s.verify in
      (
        record s {
          verify = record v { hold = some text };
          items = append_to t.system s.items (attempt text true);
          call_model = true;
        },
        verify_hold,
      )

  unfoldable pub settle_calls :
      Clock → LoopState H → RunConfig H → List (ToolCallRef H) → LoopState H × ClaimOutcome H
  unfolding claim_calls to_calls verify_nudge_due settle_declare
  settle_calls t s cfg [] = settle_declare t (verify_nudge_due t s cfg)
  settle_calls t s cfg (tc ∷ tcs) = (claim_calls t s (tc ∷ tcs), dispatch (to_calls (tc ∷ tcs)))

  unfoldable pub step_claim :
      Clock
      → Serde H
      → LoopState H
      → AssistantMessage H
      → StopReason
      → RunConfig H
      → LoopState H × ClaimOutcome H
  unfolding truncate_calls push_assistant stick_turn_reason settle_calls stop_label
  step_claim t serde s message StopReason.max_tokens cfg = (
    push_assistant t serde (stick_turn_reason (truncate_calls t s message.tool_calls) max_tokens)
        message (stop_label StopReason.max_tokens),
    truncated (length message.tool_calls),
  )
  step_claim t serde s message StopReason.refused cfg = (
    stick_turn_reason (push_assistant t serde s message (stop_label StopReason.refused))
        (error "refused"),
    refused,
  )
  step_claim t serde s message StopReason.error cfg = (s, hard_exit (stop_label StopReason.error))
  step_claim t serde s message StopReason.aborted cfg =
      (s, hard_exit (stop_label StopReason.aborted))
  step_claim t serde s message reason cfg =
      settle_calls t (push_assistant t serde s message (stop_label reason)) cfg message.tool_calls

  unfoldable pub record_tool_result : Clock → LoopState H → ToolMsg → LoopState H × Bool
  unfolding append_to get_call answer_call verified_after batch_complete
  record_tool_result t s msg =
      let entry = get_call msg.call_id s.tool_calls in
      if not (is_open_entry entry)
      then (s, false)
      else let r = msg.result in
        let v = s.verify in
        let s' = record s {
          items = append_to t.system s.items (tool_result msg.call_id r.content r.is_error none);
          tool_calls = answer_call msg.call_id r s.tool_calls;
          verify = record v {
            verified_since_write =
                if not r.is_error
                then verified_after v.verified_since_write entry
                else v.verified_since_write;
          };
        } in
        (record s' { call_model = if batch_complete s' then true else s'.call_model }, true)
