-- ===== src/Loop/Request/Compaction.antt =====
-- crates/agent-loop/src/request.rs: the compaction checkpoint, around its one provider call.
use rof_harness.Base.{
  ℕ, ◌+◌, ◌-◌, String, Bool, true, false, ◌||◌, not, Option, none, some, List, [], ◌∷◌, ◌++◌, map,
  ◌==◌, str_eq, if◌then◌else◌, ◌⊎◌, inl, inr,
}
use rof_harness.Base.Text.{◌<>◌}
use rof_harness.Base.Chars.{is_empty_text, join, trim}
use rof_harness.Host.{Host}
use rof_harness.Context.Compact.{
  CompactMessage, estimate_tokens, compaction_due, cut_point, summary_system, summary_prompt,
  summary_payload, take,
}
use rof_harness.Provider.{StopReason, stop, Response, Usage, billed_usage, ToolCallRef}
use rof_harness.Provider.Errors.{LlmError, metered}
use rof_harness.Provider.Request.{ProviderMessage, Request, off}
use rof_harness.Loop.Claim.{stop_label}
use rof_harness.Loop.Request.{FromValue, derived_messages, plain_message}
use rof_harness.Loop.State.{LoopState}
use rof_harness.Loop.Types.{RunConfig, Checkpoint}

abbrev pub thinking_parts : Option String → List String
thinking_parts none = []
thinking_parts (some t) = if is_empty_text t then [] else ("[thinking] " <> t) ∷ []

abbrev pub is_turn : Option ℕ → ℕ → Bool
is_turn none turn = false
is_turn (some n) turn = n == turn

abbrev pub is_stop : StopReason → Bool
is_stop stop = true
is_stop _ = false

abbrev pub composed : Option Checkpoint → ℕ → ℕ
composed none cut = cut
composed (some prev) cut = prev.keep_from + cut - 1

module _ {H : Host} where
  unfoldable pub call_part : ToolCallRef H → String
  unfolding ◌<>◌
  call_part c = c.name <> "(" <> H.value_text c.args <> ")"

  unfoldable pub compact_content : ProviderMessage H → String
  unfolding ◌<>◌ call_part join
  compact_content m = join "\n" (
      thinking_parts m.thinking
      ++ (if is_empty_text m.content then [] else m.content ∷ [])
      ++ map call_part m.tool_calls)

  unfoldable pub compact_message : ProviderMessage H → CompactMessage
  unfolding compact_content
  compact_message m = record {
    role = m.role;
    content = if str_eq m.role "assistant" then compact_content m else m.content;
  }

  unfoldable pub compact_view : List (ProviderMessage H) → List CompactMessage
  unfolding compact_message
  compact_view messages = map compact_message messages

  -- The cut of a checkpoint that is due, with the view that is cut.
  unfoldable pub due_cut :
      FromValue H → LoopState H → RunConfig H → Option (List CompactMessage × ℕ)
  unfolding derived_messages compact_view estimate_tokens compaction_due cut_point
  due_cut from_value s cfg =
      let cc = cfg.compaction in
      let view = compact_view (derived_messages from_value s cfg) in
      if not cc.enabled || is_turn s.compacted_turn s.turn
      then none
      else if not (compaction_due (estimate_tokens view s.anchor) s.budget.config.max_tokens cc)
      then none
      else with_cut view (cut_point view cc.keep_tokens)
    where
      with_cut : List CompactMessage → Option ℕ → Option (List CompactMessage × ℕ)
      with_cut view none = none
      with_cut view (some cut) = some (view, cut)

  unfoldable pub summary_request : RunConfig H → List CompactMessage → ℕ → Request H
  unfolding ◌<>◌ summary_payload
  summary_request cfg view cut = record {
    messages =
        plain_message "system" summary_system
        ∷ plain_message "user" (
            "<conversation>\n"
            <> summary_payload (take cut view)
            <> "\n</conversation>\n\n"
            <> summary_prompt)
        ∷ [];
    tools = [];
    max_tokens = cfg.max_tokens;
    thinking = off;
    extras = H.null_value;
  }

  -- The usage that a failure carries.
  abbrev pub error_usage : LlmError H → Option (Usage H)
  error_usage (metered source usage exhausted) = usage
  error_usage _ = none

  -- `Err(why)` on the left. `debug` prints an error by `{:?}`.
  unfoldable pub summary_of : (LlmError H → String) → LlmError H ⊎ Response H → String ⊎ String
  unfolding ◌<>◌ trim stop_label
  summary_of debug (inl e) = inl ("summary call failed: " <> debug e)
  summary_of debug (inr resp) =
      let text = trim resp.message.content in
      if is_stop resp.stop
      then if is_empty_text text then inl ("summary stop " <> stop_label resp.stop) else inr text
      else inl ("summary stop " <> stop_label resp.stop)

  abbrev pub answer_usage : LlmError H ⊎ Response H → Option (Usage H)
  answer_usage (inl e) = error_usage e
  answer_usage (inr resp) = some (billed_usage resp)

  unfoldable pub apply_summary : LoopState H → ℕ → String → LoopState H
  apply_summary s cut summary = record s {
    checkpoint = some (record { keep_from = composed s.checkpoint cut; summary = summary });
    anchor = none;
  }
