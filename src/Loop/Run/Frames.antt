-- ===== src/Loop/Run/Frames.antt =====
-- crates/agent-loop/src/run.rs: the live frames of a settled message.
use rof_harness.Base.{ℕ, String, false, Option, none, some, List, [], ◌∷◌, ◌++◌}
use rof_harness.Host.{Host}
use rof_harness.Event.Emitter
use rof_harness.Event.Types.{
  AgentEvent, Message, UsageReport, assistant, text, message_start, message_update, message_end,
  error_event, tool_start,
}
use rof_harness.Provider.{AssistantMessage, Usage}
use rof_harness.Tools.{ToolCall}
use rof_harness.Loop.Directives.{next_emit_id}
use rof_harness.Loop.Report.{usage_report}
use rof_harness.Loop.Run.{Driver, Action, next, pure, set_state, get_state, ◌>>=◌, ◌>>◌}

abbrev pub assistant_text : String → Message
assistant_text content = record { role = assistant; content = content }

module _ {H : Host} where
  abbrev pub report_of : Option (Usage H) → Option (UsageReport H)
  report_of none = none
  report_of (some u) = some (usage_report u)

module _ {H : Host} {d : Driver H} where
  unfoldable pub emit : AgentEvent H → Action d (Unit {0})
  unfolding Emitter.emit
  emit event c = (
    next tt,
    record c { emitter = Emitter.emit c.emitter event; synced_at = c.synced_at ++ c.synced ∷ [] },
  )

  unfoldable pub fresh_id : Action d ℕ
  unfolding next_emit_id
  fresh_id c = let (s, id) = next_emit_id c.state in (next id, record c { state = s })

  unfoldable pub emit_error : String → String → Action d (Unit {0})
  unfolding emit
  emit_error code message = emit (error_event (record { code = code; message = message }))

  -- The id of the open message, or a fresh one with its start.
  unfoldable pub message_id : Option ℕ → Action d ℕ
  unfolding fresh_id emit
  message_id (some id) = pure id
  message_id none = do id ← fresh_id; emit (message_start id assistant (assistant_text "")); pure id

  unfoldable pub emit_message_frames : AssistantMessage H → Option (Usage H) → Action d (Unit {0})
  unfolding message_id emit usage_report
  emit_message_frames message usage = do
    s ← get_state
    set_state λ s. record s { open_msg = none }
    id ← message_id s.open_msg
    emit (
        message_update id (record { kind = text; text = some message.content })
          (assistant_text message.content))
    emit (message_end id (assistant_text message.content) false (report_of usage))

  unfoldable pub emit_tool_starts : List (ToolCall H) → Action d (Unit {0})
  unfolding emit
  emit_tool_starts [] = pure tt
  emit_tool_starts (c ∷ cs) = do emit (tool_start c.call_id c.name c.args); emit_tool_starts cs
