-- ===== src/Provider/Protocol/Answers.antt =====
-- crates/provider-openai/src/protocol.rs: `parse_body`, and what its two answers mean.
use rof_harness.Base.{
  ℕ, suc, ◌≡◌, ◌⊎◌, refl, Bool-cases, String, Bool, true, false, ◌&&◌, Option, none, some, List, [],
  ◌∷◌, is_empty, inl, inr, if◌then◌else◌,
}
use rof_harness.Base.Text.{◌<>◌, decimal}
use rof_harness.Base.Chars.{byte_len, is_blank, trim}
use rof_harness.Host.{Host}
use rof_harness.Log.Types.{IoResult, ok, err}
use rof_harness.Provider.{AssistantMessage, Response, ToolCallRef, Usage, StopReason}
use rof_harness.Provider.Json.{parse_streaming_json}
use rof_harness.Provider.Request.{infer_stop}
use rof_harness.Provider.Protocol.{
  BodyFail, ChatResp, Choice, ChoiceMsg, Wire, WireToolCall, is_cut_off, text_or, wire_usage,
}

abbrev pub reasoning_of : ChoiceMsg → String
reasoning_of m = if is_blank m.reasoning_content then m.reasoning else m.reasoning_content

module _ {H : Host} (W : Wire H) where
  unfoldable pub read_calls : ℕ → List WireToolCall → List (ToolCallRef H)
  unfolding parse_streaming_json decimal ◌<>◌
  read_calls i [] = []
  read_calls i (tc ∷ rest) =
      record {
        id = text_or ("call-" <> decimal i) tc.id;
        name = text_or "" tc.function.name;
        args = parse_streaming_json W.json (text_or "{}" tc.function.arguments);
      }
      ∷ read_calls (suc i) rest

  unfoldable pub read_message : ChoiceMsg → AssistantMessage H
  unfolding read_calls is_blank
  read_message m =
      let reasoning = reasoning_of m in
      record {
        content = m.content;
        tool_calls = read_calls 0 m.tool_calls;
        thinking = if is_blank reasoning then none else some reasoning;
      }

  -- The counts of the body, or zeros where it has none.
  abbrev pub usage_or_zeros : Option (Usage H) → Usage H
  usage_or_zeros none = record {
    input = 0;
    output = 0;
    cache_read = 0;
    cache_write = 0;
    reasoning = none;
    cost_usd = none;
  }
  usage_or_zeros (some u) = record u { cache_write = 0 }

  abbrev pub debug_finish : Option String → String
  debug_finish none = "None"
  debug_finish (some s) = "Some(" <> W.json.debug_text s <> ")"

  abbrev pub size : String → String
  size s = decimal (byte_len (trim s))

  unfoldable pub truncated_msg : ℕ → Choice → String
  unfolding decimal byte_len trim ◌<>◌
  truncated_msg limit c =
      "output truncated at "
      <> decimal limit
      <> " tokens (finish_reason=length; content="
      <> size c.message.content
      <> " chars; reasoning_content="
      <> size (reasoning_of c.message)
      <> " chars); raise max_tokens"

  unfoldable pub empty_msg : String → String → String → String
  unfolding ◌<>◌
  empty_msg model finish chars =
      "empty content from " <> model <> " (finish_reason=" <> finish <> "; reasoning_content="
      <> chars <> " chars); the endpoint shipped no text"

  -- The checks and the answer, once message and stop reason are read.
  unfoldable pub answer_of :
      String
      → ℕ
      → Option (Usage H)
      → Choice
      → AssistantMessage H
      → StopReason
      → BodyFail H ⊎ Response H
  unfolding truncated_msg empty_msg is_blank decimal byte_len trim
  answer_of model limit wire c message reason =
      if is_cut_off reason
      then inl (record { msg = truncated_msg limit c; usage = wire })
      else if is_blank c.message.content && is_empty message.tool_calls
      then inl (record {
        msg = empty_msg model (debug_finish c.finish_reason) (size (reasoning_of c.message));
        usage = wire;
      })
      else inr (record {
        message = message;
        stop = reason;
        usage = usage_or_zeros wire;
        latency_ms = 0;
        attempts = 1;
        raw_stop_reason = c.finish_reason;
        retry_usage = none;
      })

  unfoldable pub of_choices : String → ℕ → Option (Usage H) → List Choice → BodyFail H ⊎ Response H
  unfolding answer_of read_message infer_stop empty_msg
  of_choices model limit wire [] = inl (record { msg = empty_msg model "None" "0"; usage = wire })
  of_choices model limit wire (c ∷ rest) =
      let message = read_message c.message in
      answer_of model limit wire c message (infer_stop H c.finish_reason message)

  abbrev pub after_read : String → ℕ → IoResult ChatResp → BodyFail H ⊎ Response H
  after_read model limit (err e) = inl (record { msg = "bad chat body: " <> e; usage = none })
  after_read model limit (ok resp) =
      of_choices model limit (wire_usage W resp.usage model) resp.choices

  unfoldable pub parse_body : H.Value → String → ℕ → BodyFail H ⊎ Response H
  unfolding of_choices wire_usage ◌<>◌
  parse_body v model limit = after_read model limit (W.read_chat v)

  -- What an answer of `parse_body` says of a body with the usage `wire`.
  abbrev pub IsBodyAnswer : Option (Usage H) → BodyFail H ⊎ Response H → Type 0
  IsBodyAnswer wire (inl f) = f.usage ≡ wire
  IsBodyAnswer wire (inr r) =
      (is_cut_off r.stop ≡ false)
      × ((is_blank r.message.content ≡ false) ⊎ (is_empty r.message.tool_calls ≡ false))
      × (r.stop ≡ infer_stop H r.raw_stop_reason r.message)
      × (r.usage ≡ usage_or_zeros wire)

  and-false : (a b : Bool) → a && b ≡ false → (a ≡ false) ⊎ (b ≡ false)
  and-false true b h = inr h
  and-false false b h = inl refl

  of_choices-IsBodyAnswer :
      (model : String) (limit : ℕ) (wire : Option (Usage H)) (choices : List Choice)
      → IsBodyAnswer wire (of_choices model limit wire choices)
  unfolding of_choices answer_of read_message
  of_choices-IsBodyAnswer model limit wire [] = refl
  of_choices-IsBodyAnswer model limit wire (c ∷ rest) =
      let message = read_message c.message in
      elim (Bool-cases (is_cut_off (infer_stop H c.finish_reason message))) [
        | inl e ↦ rw e refl
        | inr e ↦ elim (Bool-cases (is_blank c.message.content && is_empty message.tool_calls)) [
          | inl f ↦ rw (e, f) refl
          | inr f ↦ rw (e, f) (e, and-false _ _ f, refl, refl)
        ]
      ]

  -- A body that serde reads is answered in one of two ways. A failure carries the usage that the
  -- body shipped, and none where it shipped none. A response is not cut off, has a text that is not
  -- blank or a call, has the stop reason that its finish reason and its message tell, and bills the
  -- usage of the body, or zeros where there is none.
  pub parse_body-IsBodyAnswer :
      (v : H.Value) (model : String) (limit : ℕ) (resp : ChatResp)
      → W.read_chat v ≡ ok resp
      → IsBodyAnswer (wire_usage W resp.usage model) (parse_body v model limit)
  unfolding parse_body
  parse_body-IsBodyAnswer v model limit resp h =
      rw h (of_choices-IsBodyAnswer model limit (wire_usage W resp.usage model) resp.choices)
