-- ===== src/Loop/Invariant/Tail.antt =====
-- The tail of a batch keeps the bounds.
use rof_harness.Base.{
  Bool, ℕ, suc, ◌≤◌, ◌≡◌, refl, String, true, Option, none, some, List, [], ◌∷◌, arith, length,
  length-append, if_both, ◌==◌,
}
use rof_harness.Host.{Host}
use rof_harness.Budget.Guard.{BudgetGuard, Nudge, wrap_up, nudge_due}
use rof_harness.Loop.Batch.{settle_tool_tail}
use rof_harness.Loop.Directives.{
  push_directive, queue_half, queue_late, queue_directives, deliver_directives, append_to_tail,
  land_nudge, apply_budget_nudge, drop_first, half_text, late_text, actions_left,
}
use rof_harness.Loop.State.{LoopState}
use rof_harness.Loop.Types.{Clock, RunConfig, directive_cap}
use rof_harness.Loop.Invariant.Bounds.{Inv}

drop_first-length :
    (xs : List String) → directive_cap ≤ length xs → suc (length (drop_first xs)) ≡ length xs
drop_first-length [] h = absurd (omega arith)
drop_first-length (x ∷ xs) h = refl

module _ {H : Host} {shut : Bool} where
  pub push_directive-Inv :
      (s : LoopState H) (text : String) (cfg : RunConfig H)
      → Inv shut s
      → Inv shut (push_directive s text cfg)
  unfolding push_directive
  push_directive-Inv s text cfg v = ground (
    arith,
    drop_first-length s.pending_directives,
    length-append s.pending_directives (text ∷ []),
    length-append (drop_first s.pending_directives) (text ∷ []),
  )

  queue_half-Inv :
      (s : LoopState H) (cfg : RunConfig H) (cap actions : ℕ)
      → Inv shut s
      → Inv shut (queue_half s cfg cap actions)
  unfolding queue_half
  queue_half-Inv s cfg cap actions v =
      let e = s.experiment in
      let sent = record s { experiment = record e { half_directive_sent = true } } in
      ground (arith, push_directive-Inv sent (half_text actions) cfg)

  queue_late-Inv :
      (s : LoopState H) (cfg : RunConfig H) (cap actions : ℕ)
      → Inv shut s
      → Inv shut (queue_late s cfg cap actions)
  unfolding queue_late
  queue_late-Inv s cfg cap actions v =
      let e = s.experiment in
      let sent = record s { experiment = record e { late_directive_sent = true } } in
      ground (arith, push_directive-Inv sent (late_text (actions_left cap actions)) cfg)

  queue_directives-Inv :
      (s : LoopState H) (cfg : RunConfig H) → Inv shut s → Inv shut (queue_directives s cfg)
  unfolding queue_directives
  queue_directives-Inv s cfg v =
      let cap = s.budget.config.actions_per_trial in
      let actions = s.budget.counters.actions_this_trial in
      if_both (Inv shut) (cap == 0) v (
        queue_late-Inv (queue_half s cfg cap actions) cfg cap actions
          (queue_half-Inv s cfg cap actions v))

  deliver_directives-Inv : (s : LoopState H) → Inv shut s → Inv shut (deliver_directives s).0
  unfolding deliver_directives
  deliver_directives-Inv s v = ground arith

  land_nudge-Inv :
      (s : LoopState H) (a : BudgetGuard × Option Nudge) → Inv shut s → Inv shut (land_nudge s a).0
  unfolding append_to_tail
  land_nudge-Inv s (g, none) v = ground arith
  land_nudge-Inv s (g, some (wrap_up text)) v = ground arith

  apply_budget_nudge-Inv :
      (t : Clock) (s : LoopState H) → Inv shut s → Inv shut (apply_budget_nudge t s).0
  unfolding apply_budget_nudge
  apply_budget_nudge-Inv t s v = ground (arith, land_nudge-Inv s (nudge_due s.budget t.instant) v)

  pub settle_tool_tail-Inv :
      (t : Clock) (s : LoopState H) (cfg : RunConfig H)
      → Inv shut s
      → Inv shut (settle_tool_tail t s cfg)
  unfolding settle_tool_tail
  settle_tool_tail-Inv t s cfg v =
      deliver_directives-Inv (apply_budget_nudge t (queue_directives s cfg)).0
        (apply_budget_nudge-Inv t (queue_directives s cfg) (queue_directives-Inv s cfg v))
