-- ===== src/Loop/Directives.antt =====
-- crates/agent-loop/src/budget_nudge.rs: the action tripwire, the directives and the wrap-up nudge.
use rof_harness.Base.{
  ℕ, ◌+◌, ◌-◌, ◌*◌, ◌/◌, String, Bool, true, false, ◌&&◌, ◌||◌, not, Option, none, some, List, [],
  ◌∷◌, ◌++◌, length, ltb, leb, ◌==◌, str_eq, if◌then◌else◌, u32, u64,
}
use rof_harness.Base.Text.{◌<>◌, decimal}
use rof_harness.Host.{Host}
use rof_harness.Budget.Guard.{
  BudgetGuard, BudgetHalt, trial_actions, same_action, Nudge, wrap_up, nudge_due,
}
use rof_harness.Log.Types.{Item, ItemKind, tool_result}
use rof_harness.Loop.State.{LoopState}
use rof_harness.Loop.Types.{Clock, RunConfig, below_full, directive_cap}

abbrev pub drop_first : List String → List String
drop_first [] = []
drop_first (x ∷ xs) = xs

unfoldable pub half_text : ℕ → String
unfolding ◌<>◌ decimal
half_text actions =
    "0 edits so far after "
    <> decimal actions
    <> " actions. Stop reading. Apply your first edit with the edit tool NOW."

unfoldable pub late_text : ℕ → String
unfolding ◌<>◌ decimal
late_text left =
    "only "
    <> decimal left
    <> " actions remain before the run is stopped. Finish and submit your patch now."

-- `cap - actions` on u32, which wraps where `actions` is larger.
abbrev pub actions_left : ℕ → ℕ → ℕ
actions_left cap actions = u32 (cap + 4294967296 - actions)

-- `cap * 4 / 5`, whose product wraps.
abbrev pub late_threshold : ℕ → ℕ
late_threshold cap = u32 (cap * 4) / 5

module _ {H : Host} where
  -- The counters after an action, and the signature that it leaves.
  unfoldable pub count_action : LoopState H → String → ℕ → LoopState H
  count_action s sig obs =
      let c = s.budget.counters in
      let same = str_eq sig s.last_sig && obs == s.last_obs in
      let g = s.budget in
      record s {
        budget = record g {
          counters = record c {
            same_action_streak = if same then u32 (c.same_action_streak + 1) else 0;
            actions_this_trial = u32 (c.actions_this_trial + 1);
          };
        };
        last_sig = if same then s.last_sig else sig;
        last_obs = if same then s.last_obs else obs;
      }

  unfoldable pub action_halt : LoopState H → Option BudgetHalt
  action_halt s =
      let cfg = s.budget.config in
      let c = s.budget.counters in
      if ltb 0 cfg.actions_per_trial && leb cfg.actions_per_trial c.actions_this_trial
      then some trial_actions
      else if ltb 0 cfg.same_action_cycles && leb cfg.same_action_cycles c.same_action_streak
      then some same_action
      else none

  unfoldable pub observe_action : LoopState H → String → String → LoopState H × Option BudgetHalt
  unfolding count_action action_halt
  observe_action s sig observation =
      let s' = count_action s sig (H.hash observation) in (s', action_halt s')

  unfoldable pub push_directive : LoopState H → String → RunConfig H → LoopState H
  push_directive s text cfg =
      if below_full cfg.incentives
      then s
      else let queue =
          if leb directive_cap (length s.pending_directives)
          then drop_first s.pending_directives
          else s.pending_directives in
        record s { pending_directives = queue ++ text ∷ [] }

  unfoldable pub queue_half : LoopState H → RunConfig H → ℕ → ℕ → LoopState H
  unfolding push_directive half_text
  queue_half s cfg cap actions =
      let e = s.experiment in
      if not e.half_directive_sent && leb (cap / 2) actions && s.edits == 0
      then push_directive (record s { experiment = record e { half_directive_sent = true } })
          (half_text actions) cfg
      else s

  unfoldable pub queue_late : LoopState H → RunConfig H → ℕ → ℕ → LoopState H
  unfolding push_directive late_text
  queue_late s cfg cap actions =
      let e = s.experiment in
      if not e.late_directive_sent && leb (late_threshold cap) actions
      then push_directive (record s { experiment = record e { late_directive_sent = true } })
          (late_text (actions_left cap actions)) cfg
      else s

  unfoldable pub queue_directives : LoopState H → RunConfig H → LoopState H
  unfolding queue_half queue_late
  queue_directives s cfg =
      let cap = s.budget.config.actions_per_trial in
      let actions = s.budget.counters.actions_this_trial in
      if cap == 0 then s else queue_late (queue_half s cfg cap actions) cfg cap actions

  abbrev pub is_tool_result : ItemKind H → Bool
  is_tool_result (tool_result _ _ _ _) = true
  is_tool_result _ = false

  unfoldable pub any_tool_result : List (Item H) → Bool
  any_tool_result [] = false
  any_tool_result (i ∷ is) = is_tool_result i.kind || any_tool_result is

  unfoldable pub has_tool_tail : LoopState H → Bool
  unfolding any_tool_result
  has_tool_tail s = any_tool_result s.items

  unfoldable pub extend_kind : String → ItemKind H → ItemKind H
  unfolding ◌<>◌
  extend_kind text (tool_result id content e r) = tool_result id (content <> "\n" <> text) e r
  extend_kind text kind = kind

  -- The last ToolResult row, wherever it stands, takes the text.
  unfoldable pub extend_tail : String → List (Item H) → List (Item H)
  unfolding any_tool_result extend_kind
  extend_tail text [] = []
  extend_tail text (i ∷ is) =
      let rest = extend_tail text is in
      if any_tool_result is then i ∷ rest else record i { kind = extend_kind text i.kind } ∷ is

  unfoldable pub append_to_tail : LoopState H → String → LoopState H
  unfolding extend_tail
  append_to_tail s text = record s { items = extend_tail text s.items }

  unfoldable pub extend_all : List (Item H) → List String → List (Item H)
  unfolding extend_tail
  extend_all items [] = items
  extend_all items (text ∷ texts) = extend_all (extend_tail text items) texts

  unfoldable pub deliver_directives : LoopState H → LoopState H × ℕ
  unfolding has_tool_tail extend_all
  deliver_directives s = if not (has_tool_tail s) then (s, 0) else (
    record s { items = extend_all s.items s.pending_directives; pending_directives = [] },
    length s.pending_directives,
  )

  unfoldable pub next_emit_id : LoopState H → LoopState H × ℕ
  next_emit_id s = (record s { emit_next = u64 (s.emit_next + 1) }, s.emit_next)

  abbrev pub land_nudge : LoopState H → BudgetGuard × Option Nudge → LoopState H × Option String
  land_nudge s (g, none) = (record s { budget = g }, none)
  land_nudge s (g, some (wrap_up text)) = (append_to_tail (record s { budget = g }) text, some text)

  unfoldable pub apply_budget_nudge : Clock → LoopState H → LoopState H × Option String
  unfolding has_tool_tail append_to_tail nudge_due
  apply_budget_nudge t s =
      if not (has_tool_tail s) then (s, none) else land_nudge s (nudge_due s.budget t.instant)
