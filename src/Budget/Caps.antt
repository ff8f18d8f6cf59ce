-- ===== src/Budget/Caps.antt =====
-- What the presets and the step override of crates/agent-budget promise, and what the guard's
-- comparison of the counters with the caps means.
use rof_harness.Base.{ℕ, ◌≤◌, ◌<◌, ◌≡◌, refl, ◌⊎◌, ◌↔◌, none, some, arith}
use rof_harness.Budget.Config.{
  BudgetConfig, Capability, interactive, unattended_batch, long_task, subagent, eval, config_for,
  with_steps, IsConfig,
}
use rof_harness.Budget.Guard.{
  BudgetGuard, BudgetExceeded, peek, exceeded, spent_limit, elapsed, nudge_threshold,
}

-- Every preset has steps caps above zero, a warning with headroom and refunds of at most a
-- quarter of the step cap.
pub config_for-IsConfig : (cap : Capability) → IsConfig (config_for cap)
unfolding config_for
config_for-IsConfig interactive = omega arith
config_for-IsConfig unattended_batch = omega arith
config_for-IsConfig long_task = omega arith
config_for-IsConfig subagent = omega arith
config_for-IsConfig eval = omega arith

-- An explicit step budget gives a configuration that again has headroom and a quarter of refunds,
-- whose warning step is the threshold that the guard compares with and is never later than the
-- base's, and which leaves the other caps as they were.
pub with_steps-IsConfig :
    (base : BudgetConfig) (steps : ℕ)
    → 0 < steps
    → 0 < base.warn_steps
    → IsConfig (with_steps base steps)
      × (nudge_threshold (with_steps base steps) ≡ (with_steps base steps).warn_steps)
      × ((with_steps base steps).warn_steps ≤ base.warn_steps)
      × ((with_steps base steps).max_tokens ≡ base.max_tokens)
      × ((with_steps base steps).max_wallclock ≡ base.max_wallclock)
      × ((with_steps base steps).max_spend_cents ≡ base.max_spend_cents)
unfolding with_steps
with_steps-IsConfig base steps p w = (omega arith, omega arith, omega arith, refl, refl, refl)

-- Every cap that is on is above its counter. A cap of zero is off, except that of the steps.
pub record IsWithin (g : BudgetGuard) (now : ℕ) : Type 0 where
  pub steps_left : g.counters.steps < g.config.max_steps
  pub tokens_left : (g.config.max_tokens ≡ 0) ⊎ (g.counters.tokens < g.config.max_tokens)
  pub wall_left : (g.config.max_wallclock ≡ 0) ⊎ (elapsed g now < g.config.max_wallclock)
  pub spend_left :
      (g.config.max_spend_cents ≡ none)
      ⊎ ((l : ℕ) × (g.config.max_spend_cents ≡ some l) × (g.counters.spent_cents < l))
  pub streak_left :
      (g.config.same_action_cycles ≡ 0)
      ⊎ (g.counters.same_action_streak < g.config.same_action_cycles)
  pub actions_left :
      (g.config.actions_per_trial ≡ 0)
      ⊎ (g.counters.actions_this_trial < g.config.actions_per_trial)

pub peek-IsWithin : (g : BudgetGuard) (now : ℕ) → peek g now ≡ none → IsWithin g now
unfolding peek
peek-IsWithin g now h = ground arith

pub IsWithin-peek : (g : BudgetGuard) (now : ℕ) → IsWithin g now → peek g now ≡ none
unfolding peek
IsWithin-peek g now w = ground arith

-- The guard reports no exhaustion exactly when every cap that is on is above its counter.
pub exceeded-none_iff : (g : BudgetGuard) (now : ℕ) → (exceeded g now ≡ none) ↔ IsWithin g now
unfolding exceeded
exceeded-none_iff g now =
    (λ h. peek-IsWithin g now (ground arith), λ w. ground (arith, IsWithin-peek g now w))

-- A reported exhaustion carries the halted counter's own reading and its cap, and the reading has
-- reached the cap.
pub exceeded_reached :
    (g : BudgetGuard) (now : ℕ) (e : BudgetExceeded)
    → exceeded g now ≡ some e
    → (spent_limit g now e.halt ≡ (e.spent, e.limit)) × (e.limit ≤ e.spent)
unfolding exceeded peek spent_limit
exceeded_reached g now e h = ground arith
