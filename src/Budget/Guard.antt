-- ===== src/Budget/Guard.antt =====
-- crates/agent-budget/src/guard.rs and types.rs. A method takes the instant at which it reads the
-- clock and returns the new guard, since the two `Cell`s and the counters are its state.
use Prim.Native.Nat.{min, max}
use rof_harness.Base.{
  ℕ, ◌-◌, ◌*◌, ◌/◌, Bool, true, false, ◌&&◌, ◌||◌, not, Option, none, some, String, ltb, leb,
  if◌then◌else◌, sat_add32, sat_add64,
}
use rof_harness.Base.Text.{◌<>◌, decimal}
use rof_harness.Budget.Config.{BudgetConfig, second}

pub record BudgetCounters : Type 0 where
  pub steps : ℕ
  pub tokens : ℕ
  pub spent_cents : ℕ
  pub refunds : ℕ
  pub same_action_streak : ℕ
  pub actions_this_trial : ℕ

pub data BudgetHalt : Type 0 where
  steps tokens wallclock spend same_action trial_actions : BudgetHalt

pub data Nudge : Type 0 where
  wrap_up : String → Nudge

pub record BudgetExceeded : Type 0 where
  pub halt : BudgetHalt
  pub spent : ℕ
  pub limit : ℕ

unfoldable pub halt_name : BudgetHalt → String
halt_name steps = "steps"
halt_name tokens = "tokens"
halt_name wallclock = "wallclock"
halt_name spend = "spend"
halt_name same_action = "same-action"
halt_name trial_actions = "trial-actions"

pub record BudgetGuard : Type 0 where
  pub config : BudgetConfig
  pub counters : BudgetCounters
  pub started : ℕ
  pub grace_used : Bool
  pub nudge_fired : Bool

abbrev pub no_counts : BudgetCounters
no_counts = record {
  steps = 0;
  tokens = 0;
  spent_cents = 0;
  refunds = 0;
  same_action_streak = 0;
  actions_this_trial = 0;
}

unfoldable pub new : BudgetConfig → ℕ → BudgetGuard
new config started = record {
  config = config;
  counters = no_counts;
  started = started;
  grace_used = false;
  nudge_fired = false;
}

-- `Instant::elapsed`: zero where the clock reads before the start.
abbrev pub elapsed : BudgetGuard → ℕ → ℕ
elapsed g now = now - g.started

-- `if let Some(limit) = … { if c.spent_cents >= limit … }`.
abbrev pub spend_tripped : Option ℕ → ℕ → Bool
spend_tripped none spent = false
spend_tripped (some limit) spent = leb limit spent

unfoldable pub peek : BudgetGuard → ℕ → Option BudgetHalt
peek g now =
    if leb cfg.max_steps c.steps
    then some steps
    else if ltb 0 cfg.max_tokens && leb cfg.max_tokens c.tokens
    then some tokens
    else if ltb 0 cfg.max_wallclock && leb cfg.max_wallclock (elapsed g now)
    then some wallclock
    else if spend_tripped cfg.max_spend_cents c.spent_cents
    then some spend
    else if ltb 0 cfg.same_action_cycles && leb cfg.same_action_cycles c.same_action_streak
    then some same_action
    else if ltb 0 cfg.actions_per_trial && leb cfg.actions_per_trial c.actions_this_trial
    then some trial_actions
    else none
  where
    c : BudgetCounters
    c = g.counters

    cfg : BudgetConfig
    cfg = g.config

pub data StepAnswer : Type 0 where
  ok : StepAnswer
  err : BudgetHalt → StepAnswer

-- The match on `peek` in `may_step`.
unfoldable pub admit_halt : BudgetGuard → Option BudgetHalt → BudgetGuard × StepAnswer
admit_halt g none = (g, ok)
admit_halt g (some halt) =
    if not g.grace_used then (record g { grace_used = true }, ok) else (g, err halt)

unfoldable pub may_step : BudgetGuard → ℕ → BudgetGuard × StepAnswer
unfolding admit_halt
may_step g now = admit_halt g (peek g now)

abbrev pub unwrap_or : Option ℕ → ℕ → ℕ
unwrap_or none d = d
unwrap_or (some a) d = a

unfoldable pub spent_limit : BudgetGuard → ℕ → BudgetHalt → ℕ × ℕ
spent_limit g now steps = (g.counters.steps, g.config.max_steps)
spent_limit g now tokens = (g.counters.tokens, g.config.max_tokens)
spent_limit g now wallclock = (elapsed g now / second, g.config.max_wallclock / second)
spent_limit g now spend = (g.counters.spent_cents, unwrap_or g.config.max_spend_cents 0)
spent_limit g now same_action = (g.counters.same_action_streak, g.config.same_action_cycles)
spent_limit g now trial_actions = (g.counters.actions_this_trial, g.config.actions_per_trial)

abbrev pub detail : BudgetGuard → ℕ → Option BudgetHalt → Option BudgetExceeded
detail g now none = none
detail g now (some halt) =
    let (spent, limit) = spent_limit g now halt in
    some (record { halt = halt; spent = spent; limit = limit })

unfoldable pub exceeded : BudgetGuard → ℕ → Option BudgetExceeded
exceeded g now = detail g now (peek g now)

unfoldable pub record_step : BudgetGuard → BudgetGuard
record_step g =
    let c = g.counters in record g { counters = record c { steps = sat_add32 c.steps 1 } }

unfoldable pub refund_step : BudgetGuard → BudgetGuard
refund_step g =
    let c = g.counters in
    if leb g.config.max_refunds c.refunds
    then g
    else if ltb 0 c.steps
    then record g { counters = record c { steps = c.steps - 1; refunds = sat_add32 c.refunds 1 } }
    else g

unfoldable pub record_tokens : BudgetGuard → ℕ → BudgetGuard
record_tokens g n =
    let c = g.counters in record g { counters = record c { tokens = sat_add64 c.tokens n } }

unfoldable pub record_spend_cents : BudgetGuard → ℕ → BudgetGuard
record_spend_cents g n =
    let c = g.counters in
    record g { counters = record c { spent_cents = sat_add64 c.spent_cents n } }

-- The step at which the wrap-up notice is due.
abbrev pub nudge_threshold : BudgetConfig → ℕ
nudge_threshold cfg = min cfg.warn_steps (max (cfg.max_steps - 1) 1)

unfoldable pub wrap_up_text : ℕ → ℕ → String
unfolding ◌<>◌ decimal
wrap_up_text done cap = "wrap up: step " <> decimal done <> "/" <> decimal cap <> "; close out now"

unfoldable pub nudge_due : BudgetGuard → ℕ → BudgetGuard × Option Nudge
nudge_due g now =
    if g.nudge_fired
    then (g, none)
    else if leb (nudge_threshold cfg) g.counters.steps
        || ltb 0 cfg.max_wallclock && leb (cfg.max_wallclock / 5 * 4) (elapsed g now)
    then (
      record g { nudge_fired = true },
      some (wrap_up (wrap_up_text g.counters.steps cfg.max_steps)),
    )
    else (g, none)
  where
    cfg : BudgetConfig
    cfg = g.config
