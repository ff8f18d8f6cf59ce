-- ===== src/Provider/Client.antt =====
-- crates/provider-openai/src/client.rs: one attempt and the loop of `complete` over attempts. The
-- HTTP library, the clock and the credentials are a `Transport`, each call of which moves the world
-- `S` on.
pub mod Ends
use rof_harness.Base.{
  ℕ, zero, suc, ◌+◌, ◌*◌, ◌-◌, String, Bool, true, false, ◌&&◌, ◌||◌, Option, none, some, List, [],
  ◌∷◌, inl, inr, ◌⊎◌, leb, ltb, ◌==◌, any, is_empty, if◌then◌else◌,
}
use rof_harness.Base.Text.{◌<>◌, decimal}
use rof_harness.Base.Chars.{contains_text, find_text, take_chars, drop_chars, char_count}
use rof_harness.Host.{Host}
use rof_harness.Provider.{Response, Usage}
use rof_harness.Provider.Errors.{
  ErrorClass, LlmError, retryable, overload, auth_stale, transport, auth, http, metered,
  classify_error,
}
use rof_harness.Provider.Protocol.{BodyFail, ChatResp, Wire, wire_body, wire_usage}
use rof_harness.Provider.Protocol.Answers.{parse_body}
use rof_harness.Provider.Request.{Request}
use rof_harness.Provider.Retry.{
  WireKnobs, apply_ladder, chars_after, from_req, is_cold_start, merge_usage, schedule_delay,
}

-- What becomes of a request, with the delay that `parse_retry_after` reads off its header: it is not sent, the status is no success, the answer is not read, or
-- there is a body.
pub data Sent (H : Host) : Type 0 where
  unsent : String → Sent H
  refused_status : ℕ → String → Option ℕ → String → Sent H
  unread : String → Sent H
  received : H.Value → Sent H

pub record Transport (H : Host) (S : Type 0) : Type 0 where
  pub wire : Wire H
  -- `serde_json::from_str::<ChatResp>(&text).ok()`.
  pub chat_of_text : String → Option ChatResp
  -- The error of `self.creds.resolve()`, if any, and its `Debug` text.
  pub resolve : S → Option (LlmError H)
  pub debug_error : LlmError H → String
  pub is_refreshable : Bool
  -- `self.profile.thinking_off`.
  pub thinking_off : Option H.Value
  pub post : H.Value → S → S × Sent H
  pub sleep : ℕ → S → S
  -- The delay that `backoff_delay` draws for an attempt.
  pub backoff : S → ℕ → ℕ
  -- `t.elapsed().as_millis() as u64`.
  pub elapsed_ms : S → ℕ

pub record OnceFail (H : Host) : Type 0 where
  pub error : LlmError H
  pub msg : String
  pub after : Option ℕ
  pub is_retryable : Bool
  pub truncated : Bool
  pub content_chars : ℕ
  pub reasoning_chars : ℕ
  pub usage : Option (Usage H)

abbrev pub is_retried : ErrorClass → Bool
is_retried retryable = true
is_retried overload = true
is_retried auth_stale = true
is_retried _ = false

unfoldable pub is_stale_msg : Host → String → Bool
unfolding contains_text
is_stale_msg H s = let t = H.to_lowercase s in contains_text t "expired" || contains_text t "stale"

abbrev pub attempt_cap : String → ℕ
attempt_cap msg = if is_cold_start msg then 7 else 4

module _ {H : Host} where
  -- A failure that is not of a truncated body.
  abbrev pub plain_fail : LlmError H → String → Option ℕ → Bool → Option (Usage H) → OnceFail H
  plain_fail e msg after again usage = record {
    error = e;
    msg = msg;
    after = after;
    is_retryable = again;
    truncated = false;
    content_chars = 0;
    reasoning_chars = 0;
    usage = usage;
  }

  unfoldable pub body_fail : BodyFail H → OnceFail H
  unfolding contains_text classify_error chars_after
  body_fail f =
      let cut_off = contains_text f.msg "finish_reason=length" in
      record {
        error = transport f.msg;
        msg = f.msg;
        after = none;
        is_retryable = cut_off || is_retried (classify_error H (transport f.msg));
        truncated = cut_off;
        content_chars = chars_after f.msg "; content=";
        reasoning_chars = chars_after f.msg "; reasoning_content=";
        usage = f.usage;
      }

  abbrev pub or_body_fail : BodyFail H ⊎ Response H → OnceFail H ⊎ Response H
  or_body_fail (inl f) = inl (body_fail f)
  or_body_fail (inr r) = inr r

module _ {H : Host} {S : Type 0} (T : Transport H S) (model : String) where
  abbrev pub error_body_usage : Option ChatResp → Option (Usage H)
  error_body_usage none = none
  error_body_usage (some r) = wire_usage T.wire r.usage model

  unfoldable pub status_fail : ℕ → String → Option ℕ → String → OnceFail H
  unfolding is_stale_msg classify_error ◌<>◌ wire_usage
  status_fail status code after text =
      let short = take_chars 300 text in
      let msg = code <> ": " <> short in
      let usage = error_body_usage (T.chat_of_text text) in
      if status == 401 || status == 403
      then if T.is_refreshable && is_stale_msg H text
        then plain_fail (transport msg) msg after true usage
        else plain_fail (auth msg) msg none false usage
      else let e = http status after short in
        plain_fail e msg after (is_retried (classify_error H e)) usage

  unfoldable pub of_sent : WireKnobs H → Sent H → OnceFail H ⊎ Response H
  unfolding status_fail body_fail parse_body
  of_sent k (unsent msg) = inl (plain_fail (transport msg) msg none true none)
  of_sent k (refused_status status code after text) = inl (status_fail status code after text)
  of_sent k (unread msg) = inl (plain_fail (transport msg) msg none true none)
  of_sent k (received v) = or_body_fail (parse_body T.wire v model k.max_tokens)

  abbrev pub with_key :
      Request H → WireKnobs H → Option (LlmError H) → S → S × (OnceFail H ⊎ Response H)
  with_key req k (some e) s = (s, inl (plain_fail e (T.debug_error e) none false none))
  with_key req k none s =
      let (s', sent) = T.post (wire_body T.wire model req k) s in (s', of_sent k sent)

  unfoldable pub once : Request H → WireKnobs H → S → S × (OnceFail H ⊎ Response H)
  unfolding of_sent wire_body
  once req k s = with_key req k (T.resolve s) s

  -- The variables of the loop.
  pub record Attempts : Type 0 where
    pub knobs : WireKnobs H
    pub last_err : LlmError H
    pub last_label : String
    pub last_after : Option ℕ
    pub usage_acc : Option (Usage H)
    pub last_retryable : Bool
    pub attempt : ℕ

  abbrev pub Completed : Type 0
  Completed = S × (LlmError H ⊎ Response H)

  -- What stands behind the loop.
  unfoldable pub give_up : Attempts → S → Completed
  give_up a s = (s, inl (metered a.last_err a.usage_acc a.last_retryable))

  unfoldable pub note_fail : OnceFail H → Attempts → Attempts
  unfolding merge_usage
  note_fail f a = record a {
    last_label = f.msg;
    last_err = f.error;
    last_retryable = f.is_retryable;
    usage_acc = merge_usage a.usage_acc f.usage;
  }

  -- The attempt behind a failed one, or none where the loop breaks.
  unfoldable pub next_attempt : OnceFail H → Attempts → Option Attempts
  unfolding apply_ladder is_cold_start
  next_attempt f a =
      let (k, applied) = apply_ladder a.knobs f.content_chars f.reasoning_chars in
      let again = record a { last_after = f.after; attempt = a.attempt + 1 } in
      if f.is_retryable
      then if f.truncated
        then (if applied then some (record again { knobs = k }) else none)
        else (if leb (attempt_cap f.msg) a.attempt then none else some again)
      else none

  abbrev pub finish_response : Attempts → S → Response H → Completed
  finish_response a s r = (
    s,
    inr (record r {
      latency_ms = T.elapsed_ms s;
      attempts = a.attempt + 1;
      retry_usage = a.usage_acc;
    }),
  )

  abbrev pub go_on :
      (Attempts → S → Option Completed) → Attempts → S → Option Attempts → Option Completed
  go_on more a s none = some (give_up a s)
  go_on more a s (some a') = more a' s

  abbrev pub after_once :
      (Attempts → S → Option Completed)
      → Attempts
      → S × (OnceFail H ⊎ Response H)
      → Option Completed
  after_once more a (s, inr r) = some (finish_response a s r)
  after_once more a (s, inl f) = let a' = note_fail f a in go_on more a' s (next_attempt f a')

  -- How long the loop sleeps before the attempt; none ends it.
  unfoldable pub wait_before : Attempts → S → Option S
  unfolding schedule_delay
  wait_before a s =
      if a.attempt == 0
      then some s
      else elim (schedule_delay (T.backoff s) a.last_after a.last_label a.attempt) [
        | none ↦ none
        | some d ↦ some (T.sleep d s)
      ]

  abbrev pub after_wait :
      (Attempts → S → Option Completed) → Request H → Attempts → S → Option S → Option Completed
  after_wait more req a s none = some (give_up a s)
  after_wait more req a s (some s') = after_once more a (once req a.knobs s')

  -- The loop, on fuel.
  unfoldable pub attempts_loop : ℕ → Request H → Attempts → S → Option Completed
  unfolding once wait_before next_attempt note_fail give_up
  attempts_loop zero req a s = none
  attempts_loop (suc fuel) req a s = after_wait (attempts_loop fuel req) req a s (wait_before a s)

  unfoldable pub first_attempt : Request H → Attempts
  unfolding from_req
  first_attempt req = record {
    knobs = from_req req T.thinking_off;
    last_err = transport "no attempts";
    last_label = "no attempts";
    last_after = none;
    usage_acc = none;
    last_retryable = false;
    attempt = 0;
  }

  unfoldable pub complete : ℕ → Request H → S → Option Completed
  unfolding attempts_loop first_attempt
  complete fuel req s = attempts_loop fuel req (first_attempt req) s
