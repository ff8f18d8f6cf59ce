-- ===== src/Loop/Provider.antt =====
-- crates/agent-loop/src/state.rs: the single provider call in flight, its answer and its bill.
use rof_harness.Base.{
  ℕ, ◌+◌, ◌-◌, String, Bool, true, false, ◌||◌, not, Option, none, some, is_some, ltb, ◌==◌,
  if◌then◌else◌, keep, sat_add64, u32, u64,
}
use rof_harness.Host.{Host}
use rof_harness.Budget.Guard.{
  BudgetGuard, StepAnswer, ok, err, may_step, record_step, refund_step, record_tokens,
  record_spend_cents,
}
use rof_harness.Event.Types.{UsageReport}
use rof_harness.Log.Types.{attempt}
use rof_harness.Provider.{Usage, total_tokens, add_count, add_cost}
use rof_harness.Loop.Gate.{Admission, admitted, admit, close}
use rof_harness.Loop.State.{LoopState, is_open_call, append_to}
use rof_harness.Loop.Types.{
  BudgetShape, gross, miss_plus_out, Clock, ProviderMsg, partial, settled, failed_call, turn_of,
  step_retry_budget,
}

abbrev pub is_admitted : Admission → Bool
is_admitted admitted = true
is_admitted _ = false

abbrev pub spend_cost : (H : Host) → BudgetGuard → Option H.Float → BudgetGuard
spend_cost H g none = g
spend_cost H g (some cost) = record_spend_cents g (H.cents cost)

module _ {H : Host} where
  -- What `start_provider_call` does once the guard has answered.
  unfoldable pub start_step :
      LoopState H → H.Token → BudgetGuard × StepAnswer → LoopState H × Option H.Token
  unfolding record_step
  start_step s root (g, err halt) = (record s { budget = g }, none)
  start_step s root (g, ok) =
      let token = H.child_token root in
      (
        record s {
          in_flight = some (record { turn = s.turn; token = token });
          step = u32 (s.step + 1);
          budget = record_step g;
          step_retries = if not s.call_model then step_retry_budget else s.step_retries;
          call_model = false;
          tool_calls = keep is_open_call s.tool_calls;
        },
        some token,
      )

  unfoldable pub start_provider_call : Clock → LoopState H → H.Token → LoopState H × Option H.Token
  unfolding start_step admit may_step
  start_provider_call t s root =
      if is_some s.in_flight || not (is_admitted (admit s.gate))
      then (s, none)
      else start_step s root (may_step s.budget t.instant)

  -- What the token cap counts. The subtraction saturates, the addition does not.
  unfoldable pub charged_tokens : BudgetShape → Usage H → ℕ
  unfolding total_tokens
  charged_tokens gross u = total_tokens u
  charged_tokens miss_plus_out u = u64 (u.input - u.cache_read + u.output)

  unfoldable pub add_usage : UsageReport H → Usage H → UsageReport H
  add_usage totals u = record {
    input_tokens = sat_add64 totals.input_tokens u.input;
    output_tokens = sat_add64 totals.output_tokens u.output;
    cache_read_tokens = sat_add64 totals.cache_read_tokens u.cache_read;
    reasoning_tokens = add_count totals.reasoning_tokens u.reasoning;
    cost_usd = add_cost H totals.cost_usd u.cost_usd;
  }

  unfoldable pub record_usage : LoopState H → Usage H → LoopState H
  unfolding charged_tokens add_usage record_tokens record_spend_cents
  record_usage s u = record s {
    budget = spend_cost H (record_tokens s.budget (charged_tokens s.budget_shape u)) u.cost_usd;
    usage_totals = add_usage s.usage_totals u;
  }

  abbrev pub record_some : LoopState H → Option (Usage H) → LoopState H
  record_some s none = s
  record_some s (some u) = record_usage s u

  -- A failed attempt that was not cancelled: the retry fork.
  unfoldable pub fail_attempt : Clock → LoopState H → String → LoopState H
  unfolding append_to close
  fail_attempt t s error =
      let retry = ltb 0 s.step_retries in
      let s' = record s {
        step_retries = if retry then s.step_retries - 1 else s.step_retries;
        items = append_to t.system s.items (attempt error retry);
      } in
      if retry
      then record s' { call_model = true }
      else record s' { fatal_error = some error; gate = close s'.gate error }

  -- The body of `finish_provider_msg` behind the stale guard, `in_flight` already cleared.
  unfoldable pub land : Clock → LoopState H → ProviderMsg H → LoopState H
  unfolding record_usage fail_attempt refund_step
  land t s (partial _ _) = s
  land t s (settled _ _ _ usage) = record_some s usage
  land t s (failed_call _ error was_cancelled usage) =
      let s' = record_some s usage in
      if was_cancelled
      then record s' { budget = refund_step s'.budget }
      else fail_attempt t s' error

  unfoldable pub finish_provider_msg : Clock → LoopState H → ProviderMsg H → LoopState H × Bool
  unfolding land turn_of
  finish_provider_msg t s msg =
      if not (turn_of msg == s.turn)
      then (s, false)
      else (land t (record s { in_flight = none }) msg, true)
