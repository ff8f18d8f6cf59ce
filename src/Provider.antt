-- ===== src/Provider.antt =====
-- crates/provider-core/src/types.rs: what the loop reads of a provider's answer. Its
-- children are the request, the errors, the broken JSON of tool arguments, and the retries and the
-- wire format of crates/provider-openai.
pub mod Request
pub mod Errors
pub mod Retry
pub mod Json
pub mod Protocol
pub mod Client
use rof_harness.Base.{
  ℕ, ◌+◌, ◌-◌, String, Bool, true, false, Option, none, some, List, sat_add64, u64,
}
use rof_harness.Host.{Host}
use Prim.Native.Nat.{min}

pub data StopReason : Type 0 where
  pending stop tool_use max_tokens refused error aborted deferred : StopReason

unfoldable pub is_terminal : StopReason → Bool
is_terminal pending = false
is_terminal _ = true

unfoldable pub is_error : StopReason → Bool
is_error refused = true
is_error error = true
is_error aborted = true
is_error _ = false

pub record Usage (H : Host) : Type 0 where
  pub input : ℕ
  pub output : ℕ
  pub cache_read : ℕ
  pub cache_write : ℕ
  pub reasoning : Option ℕ
  pub cost_usd : Option H.Float

pub record ToolCallRef (H : Host) : Type 0 where
  pub id : String
  pub name : String
  pub args : H.Value

pub record AssistantMessage (H : Host) : Type 0 where
  pub content : String
  pub tool_calls : List (ToolCallRef H)
  pub thinking : Option String

pub record Response (H : Host) : Type 0 where
  pub message : AssistantMessage H
  pub stop : StopReason
  pub usage : Usage H
  pub latency_ms : ℕ
  pub attempts : ℕ
  pub raw_stop_reason : Option String
  pub retry_usage : Option (Usage H)

abbrev pub count_or_zero : Option ℕ → ℕ
count_or_zero none = 0
count_or_zero (some n) = n

-- `if let Some(r) = next { total = Some(total.unwrap_or(0).saturating_add(r)) }`.
abbrev pub add_count : Option ℕ → Option ℕ → Option ℕ
add_count total none = total
add_count total (some r) = some (sat_add64 (count_or_zero total) r)

module _ (H : Host) where
  abbrev pub cost_or_zero : Option H.Float → H.Float
  cost_or_zero none = H.float_zero
  cost_or_zero (some c) = c

  abbrev pub add_cost : Option H.Float → Option H.Float → Option H.Float
  add_cost total none = total
  add_cost total (some c) = some (H.float_add (cost_or_zero total) c)

module _ {H : Host} where
  -- Input and output add without saturation, as u64.
  unfoldable pub total_tokens : Usage H → ℕ
  total_tokens u = u64 (u.input + u.output)

  unfoldable pub content_tokens : Usage H → ℕ
  content_tokens u = u.output - min (count_or_zero u.reasoning) u.output

  unfoldable pub plus : Usage H → Usage H → Usage H
  plus u next = record {
    input = sat_add64 u.input next.input;
    output = sat_add64 u.output next.output;
    cache_read = sat_add64 u.cache_read next.cache_read;
    cache_write = sat_add64 u.cache_write next.cache_write;
    reasoning = add_count u.reasoning next.reasoning;
    cost_usd = add_cost H u.cost_usd next.cost_usd;
  }

  abbrev pub billed : Option (Usage H) → Usage H → Usage H
  billed none final = final
  billed (some extra) final = plus extra final

  unfoldable pub billed_usage : Response H → Usage H
  unfolding plus
  billed_usage r = billed r.retry_usage r.usage
