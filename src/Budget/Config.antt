-- ===== src/Budget/Config.antt =====
-- crates/agent-budget/src/config.rs. A `Duration` is its number of nanoseconds; a `NonZeroU32` is
-- a number, and `IsConfig` says where it is not zero.
use Prim.Native.Nat.{min, max}
use rof_harness.Base.{ℕ, ◌-◌, ◌*◌, ◌/◌, ◌≤◌, ◌<◌, Option, none, some}

pub record BudgetConfig : Type 0 where
  pub max_steps : ℕ
  pub warn_steps : ℕ
  pub max_tokens : ℕ
  pub max_wallclock : ℕ
  pub max_spend_cents : Option ℕ
  pub same_action_cycles : ℕ
  pub actions_per_trial : ℕ
  pub max_refunds : ℕ

pub data Capability : Type 0 where
  interactive unattended_batch long_task subagent eval : Capability

abbrev pub spend_on_cents : ℕ
spend_on_cents = 400

abbrev pub second : ℕ
second = 1000000000

-- The tuple that `config_for` matches out: steps, warn, wall seconds, spend.
unfoldable pub preset : Capability → ℕ × ℕ × ℕ × Option ℕ
preset interactive = (100, 80, 3600, none)
preset unattended_batch = (20, 12, 900, some spend_on_cents)
preset long_task = (40, 25, 3600, some spend_on_cents)
preset subagent = (50, 40, 300, none)
preset eval = (20, 12, 3600, some spend_on_cents)

unfoldable pub config_for : Capability → BudgetConfig
unfolding preset
config_for cap =
    let (steps, warn, wall_secs, spend) = preset cap in
    record {
      max_steps = steps;
      warn_steps = warn;
      max_tokens = 50000;
      max_wallclock = wall_secs * second;
      max_spend_cents = spend;
      same_action_cycles = 3;
      actions_per_trial = 30;
      max_refunds = steps / 4;
    }

unfoldable pub with_steps : BudgetConfig → ℕ → BudgetConfig
with_steps base steps = record base {
  warn_steps = min base.warn_steps (max (steps - 1) 1);
  max_refunds = steps / 4;
  max_steps = steps;
}

-- What the types and the constructors promise: the steps caps are not zero, the warning comes no
-- later than one step before the cap where there is room, and refunds are at most a quarter.
pub record IsConfig (c : BudgetConfig) : Type 0 where
  pub steps_pos : 0 < c.max_steps
  pub warn_pos : 0 < c.warn_steps
  pub headroom : c.warn_steps ≤ max (c.max_steps - 1) 1
  pub quarter : c.max_refunds ≤ c.max_steps / 4
