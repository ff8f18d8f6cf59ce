-- ===== src/Loop/Rows/Tail.antt =====
-- What the tail of a batch does to the rows.
use rof_harness.Base.{
  ◌≡◌, String, not, Option, none, some, List, [], ◌∷◌, subst, arith, Bool-cases, inl, inr,
}
use rof_harness.Host.{Host}
use rof_harness.Budget.Guard.{BudgetGuard, Nudge, wrap_up, nudge_due}
use rof_harness.Log.Types.{Item}
use rof_harness.Loop.Batch.{settle_tool_tail}
use rof_harness.Loop.Directives.{
  push_directive, queue_half, queue_late, queue_directives, extend_all, has_tool_tail, extend_tail,
  deliver_directives, append_to_tail, land_nudge, apply_budget_nudge,
}
use rof_harness.Loop.Grows.{Keeps, Grows, same, amends, Grows-trans}
use rof_harness.Loop.State.{LoopState}
use rof_harness.Loop.Types.{Clock, RunConfig, below_full}

module _ {H : Host} where
  pub push_directive-Grows :
      (s : LoopState H) (text : String) (cfg : RunConfig H) → Keeps s (push_directive s text cfg)
  unfolding push_directive
  push_directive-Grows s text cfg = elim (Bool-cases (below_full cfg.incentives)) [
    | inl e ↦ rw e same
    | inr e ↦ rw e same
  ]

  queue_directives-items :
      (s : LoopState H) (cfg : RunConfig H) → (queue_directives s cfg).items ≡ s.items
  unfolding queue_directives queue_half queue_late push_directive
  queue_directives-items s cfg = ground arith

  extend_all-Grows :
      (items : List (Item H)) (texts : List String) → Grows items (extend_all items texts)
  unfolding extend_all
  extend_all-Grows items [] = same
  extend_all-Grows items (text ∷ texts) =
      Grows-trans (amends same text) (extend_all-Grows (extend_tail text items) texts)

  deliver_directives-Grows : (s : LoopState H) → Keeps s (deliver_directives s).0
  unfolding deliver_directives
  deliver_directives-Grows s = elim (Bool-cases (not (has_tool_tail s))) [
    | inl e ↦ rw e same
    | inr e ↦ rw e (extend_all-Grows s.items s.pending_directives)
  ]

  land_nudge-Grows : (s : LoopState H) (a : BudgetGuard × Option Nudge) → Keeps s (land_nudge s a).0
  unfolding append_to_tail
  land_nudge-Grows s (g, none) = same
  land_nudge-Grows s (g, some (wrap_up text)) = amends same text

  apply_budget_nudge-Grows : (t : Clock) (s : LoopState H) → Keeps s (apply_budget_nudge t s).0
  unfolding apply_budget_nudge
  apply_budget_nudge-Grows t s = elim (Bool-cases (not (has_tool_tail s))) [
    | inl e ↦ rw e same
    | inr e ↦ rw e (land_nudge-Grows s (nudge_due s.budget t.instant))
  ]

  pub settle_tool_tail-Grows :
      (t : Clock) (s : LoopState H) (cfg : RunConfig H) → Keeps s (settle_tool_tail t s cfg)
  unfolding settle_tool_tail
  settle_tool_tail-Grows t s cfg =
      let q = queue_directives s cfg in
      subst (λ is. Grows is (settle_tool_tail t s cfg).items) (queue_directives-items s cfg)
        (Grows-trans (apply_budget_nudge-Grows t q)
          (deliver_directives-Grows (apply_budget_nudge t q).0))
