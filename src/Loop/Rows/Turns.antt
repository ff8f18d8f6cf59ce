-- ===== src/Loop/Rows/Turns.antt =====
-- The rows that the end of a turn and the repair of a crash add.
use rof_harness.Base.{
  ℕ, String, ◌&&◌, Option, none, some, List, [], ◌∷◌, if_both, Bool-cases, inl, inr, is_none,
  is_empty, ◌==◌,
}
use rof_harness.Host.{Host}
use rof_harness.Budget.Guard.{BudgetExceeded, exceeded}
use rof_harness.Log.Types.{Item}
use rof_harness.Loop.Grows.{Keeps, Grows, same, adds, Grows-trans}
use rof_harness.Loop.State.{LoopState, open_tools, open_turn}
use rof_harness.Loop.Terminate.{
  terminate, repair_row, repair_rows, drain, poll_followups, settle_turn, check_budget, check_fatal,
  error_reason, is_max_tokens,
}
use rof_harness.Loop.Types.{Clock, RunConfig, PhaseVerdict, ToolCallState}

module _ {H : Host} where
  pub repair_rows-Grows :
      (system : ℕ) (reason : String) (items : List (Item H)) (cs : List (String × ToolCallState))
      → Grows items (repair_rows system reason items cs)
  unfolding repair_rows
  repair_rows-Grows system reason items [] = same
  repair_rows-Grows system reason items ((id, c) ∷ cs) = elim (Bool-cases (is_none c.result)) [
    | inl e ↦ rw e (
        Grows-trans (adds same system _)
          (repair_rows-Grows system reason (repair_row system reason items id) cs))
    | inr e ↦ rw e (repair_rows-Grows system reason items cs)
  ]

  poll_followups-Grows :
      (t : Clock) (s : LoopState H) (texts : List String) → Keeps s (poll_followups t s texts).0
  unfolding poll_followups open_turn
  poll_followups-Grows t s (text ∷ rest) = adds (adds same t.system _) t.system _
  poll_followups-Grows t s [] = elim (Bool-cases s.stop_when_idle) [
    | inl e ↦ rw e same
    | inr e ↦ rw e same
  ]

  settle_turn-Grows :
      (t : Clock) (s : LoopState H) (r : Option String) → Keeps s (settle_turn t s r).0
  unfolding settle_turn
  settle_turn-Grows t s (some reason) = same
  settle_turn-Grows t s none =
      if_both P (is_max_tokens s.turn_reason && is_none s.in_flight && open_tools s == 0) same (
        if_both P s.call_model same (
          if_both P (is_none s.in_flight && open_tools s == 0 && is_empty s.steering)
            (poll_followups-Grows t s s.followups) same))
    where
      P : LoopState H × PhaseVerdict → Type 0
      P r = Keeps s r.0

  check_budget-Grows :
      (t : Clock) (s : LoopState H) (e : Option BudgetExceeded) → Keeps s (check_budget t s e).0
  unfolding check_budget
  check_budget-Grows t s (some e) = same
  check_budget-Grows t s none = settle_turn-Grows t s (error_reason s.turn_reason)

  check_fatal-Grows :
      (t : Clock) (s : LoopState H) (e : Option String) → Keeps s (check_fatal t s e).0
  unfolding check_fatal
  check_fatal-Grows t s (some e) = same
  check_fatal-Grows t s none = check_budget-Grows t s (exceeded s.budget t.instant)

  pub terminate-Grows :
      (t : Clock) (cfg : RunConfig H) (s : LoopState H) → Keeps s (terminate t cfg s).0
  unfolding terminate drain
  terminate-Grows t cfg s =
      if_both (λ (r : LoopState H × PhaseVerdict). Keeps s r.0) s.stop_hard same
        (check_fatal-Grows t s s.fatal_error)
