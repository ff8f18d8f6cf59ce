-- ===== src/Loop/Invariant/Turns.antt =====
-- The end of a turn keeps the bounds.
use rof_harness.Base.{Bool, String, Option, none, some, List, [], ◌∷◌, arith}
use rof_harness.Host.{Host}
use rof_harness.Budget.Guard.{BudgetExceeded, exceeded}
use rof_harness.Loop.State.{LoopState, open_turn}
use rof_harness.Loop.Terminate.{
  terminate, drain, poll_followups, settle_turn, check_budget, check_fatal, error_reason,
}
use rof_harness.Loop.Types.{Clock, RunConfig}
use rof_harness.Loop.Invariant.Bounds.{Inv}

module _ {H : Host} {shut : Bool} where
  poll_followups-Inv :
      (t : Clock) (s : LoopState H) (texts : List String)
      → Inv shut s
      → Inv shut (poll_followups t s texts).0
  unfolding poll_followups open_turn
  poll_followups-Inv t s (text ∷ rest) v = ground arith
  poll_followups-Inv t s [] v = ground arith

  settle_turn-Inv :
      (t : Clock) (s : LoopState H) (r : Option String)
      → Inv shut s
      → Inv shut (settle_turn t s r).0
  unfolding settle_turn
  settle_turn-Inv t s (some reason) v = v
  settle_turn-Inv t s none v = ground (arith, poll_followups-Inv t s s.followups v)

  check_budget-Inv :
      (t : Clock) (s : LoopState H) (e : Option BudgetExceeded)
      → Inv shut s
      → Inv shut (check_budget t s e).0
  unfolding check_budget
  check_budget-Inv t s (some e) v = v
  check_budget-Inv t s none v = settle_turn-Inv t s (error_reason s.turn_reason) v

  check_fatal-Inv :
      (t : Clock) (s : LoopState H) (e : Option String)
      → Inv shut s
      → Inv shut (check_fatal t s e).0
  unfolding check_fatal
  check_fatal-Inv t s (some e) v = v
  check_fatal-Inv t s none v = check_budget-Inv t s (exceeded s.budget t.instant) v

  pub terminate-Inv :
      (t : Clock) (cfg : RunConfig H) (s : LoopState H)
      → Inv shut s
      → Inv shut (terminate t cfg s).0
  unfolding terminate drain
  terminate-Inv t cfg s v = ground (arith, check_fatal-Inv t s s.fatal_error v)
