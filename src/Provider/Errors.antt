-- ===== src/Provider/Errors.antt =====
-- crates/provider-core/src/errors.rs: the failures of a provider call and their classes.
use rof_harness.Base.{
  ℕ, ◌≡◌, refl, ◌⊎◌, arith, String, Bool, true, false, ◌&&◌, ◌||◌, Option, List, [], ◌∷◌, ◌==◌, leb,
  if◌then◌else◌,
}
use rof_harness.Base.Text.{◌<>◌, decimal}
use rof_harness.Base.Chars.{contains_text}
use rof_harness.Host.{Host}
use rof_harness.Provider.{Usage}
use rof_harness.Provider.Request.{any_of}

pub data ErrorClass : Type 0 where
  retryable overload auth_stale context_overflow fatal : ErrorClass

-- A `Duration` is its number of nanoseconds.
pub data LlmError (H : Host) : Type 0 where
  transport auth : String → LlmError H
  http : ℕ → Option ℕ → String → LlmError H
  cancelled : LlmError H
  all_failed : String → LlmError H
  metered : LlmError H → Option (Usage H) → Bool → LlmError H

-- `Display`.
unfoldable pub display : {H : Host} → LlmError H → String
unfolding ◌<>◌ decimal
display (transport m) = m
display (auth m) = m
display (http status retry_after body) = decimal status <> ": " <> body
display cancelled = "cancelled"
display (all_failed m) = m
display (metered source usage exhausted) = display source

abbrev pub overflow_keys : List String
overflow_keys =
    "context_length_exceeded" ∷ "context_overflow" ∷ "context overflow" ∷ "context window"
    ∷ "prompt too long" ∷ "input too long" ∷ "too many tokens" ∷ "out of context" ∷ "token limit"
    ∷ []

abbrev pub overload_keys : List String
overload_keys = "server_is_overloaded" ∷ "slow_down" ∷ "server overloaded" ∷ "overloaded" ∷ []

abbrev pub stale_keys : List String
stale_keys = "expired" ∷ "stale" ∷ []

abbrev pub fatal_keys : List String
fatal_keys =
    "invalid_prompt" ∷ "invalid_api_key" ∷ "invalid_token" ∷ "authentication_error"
    ∷ "permission_error" ∷ "insufficient_quota" ∷ "usage_limit_reached" ∷ "credit_balance_exhausted"
    ∷ "billing_hard_limit" ∷ "unauthorized" ∷ "forbidden" ∷ " 401" ∷ " 403" ∷ "(401" ∷ "(403"
    ∷ "account_disabled" ∷ []

-- The table of `classify_message`, on the text in lower case.
unfoldable pub class_of_text : String → ErrorClass
unfolding contains_text
class_of_text t =
    if any_of overflow_keys t
    then context_overflow
    else if any_of overload_keys t
    then overload
    else if any_of stale_keys t
    then auth_stale
    else if contains_text t "402"
    then retryable
    else if any_of fatal_keys t
    then fatal
    else retryable

abbrev pub is_denied : ℕ → Bool
is_denied status = status == 401 || status == 403

abbrev pub is_transient : ℕ → Bool
is_transient status = status == 429 || status == 402 || leb 500 status && leb status 599

module _ (H : Host) where
  unfoldable pub classify_message : String → ErrorClass
  unfolding class_of_text
  classify_message s = class_of_text (H.to_lowercase s)

  unfoldable pub classify_http : ℕ → String → ErrorClass
  unfolding classify_message contains_text
  classify_http status body =
      let t = H.to_lowercase body in
      if any_of overflow_keys t
      then context_overflow
      else if is_denied status
      then fatal
      else if any_of overload_keys t
      then overload
      else if is_transient status
      then retryable
      else classify_message body

  unfoldable pub classify_error : LlmError H → ErrorClass
  unfolding classify_message classify_http
  classify_error cancelled = fatal
  classify_error (auth m) = fatal
  classify_error (all_failed m) = retryable
  classify_error (transport msg) = classify_message msg
  classify_error (http status retry_after body) = classify_http status body
  classify_error (metered source usage exhausted) = classify_error source

  -- The failure, wrapped once for each usage and verdict of the list.
  unfoldable pub wrapped : List (Option (Usage H) × Bool) → LlmError H → LlmError H
  wrapped [] e = e
  wrapped ((usage, exhausted) ∷ ws) e = metered (wrapped ws e) usage exhausted

  classify_error-wrapped :
      (ws : List (Option (Usage H) × Bool)) (e : LlmError H)
      → classify_error (wrapped ws e) ≡ classify_error e
  unfolding wrapped classify_error
  classify_error-wrapped [] e = refl
  classify_error-wrapped (w ∷ ws) e = classify_error-wrapped ws e

  classify_http-denied :
      (status : ℕ) (body : String)
      → (is_denied status ≡ true
          → (classify_http status body ≡ fatal) ⊎ (classify_http status body ≡ context_overflow))
        × (is_denied status ≡ false
            → is_transient status ≡ true
            → (classify_http status body ≡ retryable)
              ⊎ ((classify_http status body ≡ overload)
                  ⊎ (classify_http status body ≡ context_overflow)))
  unfolding classify_http
  classify_http-denied status body = (λ h. ground arith, λ h k. ground arith)

  -- A failure is classed as what it wraps, however often it is wrapped. Where that is an answer of
  -- the server, a denied status is never retried: it is fatal, or an overflow; and a failure of the
  -- service is never fatal: it is retried, an overload or an overflow, whatever its body says.
  pub classify_error_http :
      (ws : List (Option (Usage H) × Bool)) (e : LlmError H) (status : ℕ) (after : Option ℕ)
      (body : String)
      → let c = classify_error (wrapped ws (http status after body)) in
        (classify_error (wrapped ws e) ≡ classify_error e)
        × (is_denied status ≡ true → (c ≡ fatal) ⊎ (c ≡ context_overflow))
        × (is_denied status ≡ false
            → is_transient status ≡ true
            → (c ≡ retryable) ⊎ ((c ≡ overload) ⊎ (c ≡ context_overflow)))
  unfolding classify_error
  classify_error_http ws e status after body =
      let same = classify_error-wrapped ws (http status after body) in
      let (denied, transient) = classify_http-denied status body in
      (classify_error-wrapped ws e, rw same denied, rw same transient)
