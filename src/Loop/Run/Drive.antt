-- ===== src/Loop/Run/Drive.antt =====
-- crates/agent-loop/src/run.rs: `drive` and `run`. The loop ends where a phase is terminal, and
-- otherwise goes on as long as the world does: it runs on fuel, and without fuel it has no outcome.
use rof_harness.Base.{ℕ, zero, suc, Option, none, some, List}
use rof_harness.Host.{Host}
use rof_harness.Loop.Run.{Driver, Ctx, Action, Flow, next, exit, pure, halt, ◌>>=◌}
use rof_harness.Loop.Run.Closing.{finish}
use rof_harness.Loop.Run.Opening.{open_run}
use rof_harness.Loop.Run.Round.{Head, call, yields, again, leaves, step_head, provider_round}
use rof_harness.Loop.Types.{Input, Outcome}

module _ {H : Host} {d : Driver H} where
  abbrev pub follow_head : Head H → Action d (Unit {0})
  follow_head (leaves o) = halt o
  follow_head yields = pure tt
  follow_head again = pure tt
  follow_head (call token) = provider_round token

  -- One round of the loop. An exit is unfinished.
  unfoldable pub lap : Action d (Unit {0})
  unfolding step_head provider_round
  lap = do head ← step_head; follow_head head

  -- What follows one round: `later` is the rest of the loop.
  abbrev pub after_lap :
      (Ctx d → Option Outcome × Ctx d) → Flow (Unit {0}) × Ctx d → Option Outcome × Ctx d
  after_lap later (next u, c) = later c
  after_lap later (exit o, c) = (some o, (finish o c).1)

  unfoldable pub drive : ℕ → Ctx d → Option Outcome × Ctx d
  unfolding lap finish
  drive zero c = (none, c)
  drive (suc fuel) c = after_lap (drive fuel) (lap c)

  -- `open_run` has closed the run where it exits.
  abbrev pub after_open :
      (Ctx d → Option Outcome × Ctx d) → Flow (Unit {0}) × Ctx d → Option Outcome × Ctx d
  after_open later (next u, c) = later c
  after_open later (exit o, c) = (some o, c)

  abbrev pub shaped : Ctx d → Ctx d
  shaped c =
      let s = c.state in
      record c { state = record s { budget_shape = d.setting.config.budget_shape } }

  unfoldable pub run : ℕ → List Input → Ctx d → Option Outcome × Ctx d
  unfolding open_run drive
  run fuel inputs c = after_open (drive fuel) (open_run inputs (shaped c))
