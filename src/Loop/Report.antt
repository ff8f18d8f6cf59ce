-- ===== src/Loop/Report.antt =====
-- crates/agent-loop/src/run.rs: what the live events say of a turn that the log has closed.
use rof_harness.Base.{
  ℕ, ◌≡◌, refl, sym, ap, ◌∙◌, String, Option, none, some, List, [], ◌∷◌, ◌++◌, str_eq, str_eq_refl,
  if◌then◌else◌,
}
use rof_harness.Host.{Host}
use rof_harness.Event.Types.{UsageReport, RunOutcome, passed, aborted}
use rof_harness.Event.Types
use rof_harness.Log.Types.{Item, ItemKind, turn_end, TurnEndReason, completed}
use rof_harness.Provider.{Usage}
use rof_harness.Loop.State.{LoopState, turn_id, append_to, open_turn}
use rof_harness.Loop.Terminate.{turn_end_reason_to_event, poll_followups, first_reason}
use rof_harness.Loop.Types.{Clock, Outcome, done, halted, cancelled, failed}

unfoldable pub usage_report : {H : Host} → Usage H → UsageReport H
usage_report u = record {
  input_tokens = u.input;
  output_tokens = u.output;
  cache_read_tokens = u.cache_read;
  reasoning_tokens = u.reasoning;
  cost_usd = u.cost_usd;
}

unfoldable pub event_outcome : Outcome → RunOutcome
event_outcome done = passed
event_outcome (halted s) = Types.failed s
event_outcome (failed kind message) = Types.failed message
event_outcome cancelled = aborted

abbrev pub or_else : {A : Type 0} → Option A → Option A → Option A
or_else none y = y
or_else (some x) y = some x

abbrev pub unwrap_reason : Option Types.TurnEndReason → Types.TurnEndReason
unwrap_reason none = Types.completed
unwrap_reason (some r) = r

or_else-none : {A : Type 0} (x : Option A) → or_else x none ≡ x
or_else-none none = refl
or_else-none (some x) = refl

or_else_assoc : {A : Type 0} (x y z : Option A) → or_else x (or_else y z) ≡ or_else (or_else x y) z
or_else_assoc none y z = refl
or_else_assoc (some x) y z = refl

module _ {H : Host} where
  -- The closure of `find_map`.
  unfoldable pub closes : String → ItemKind H → Option Types.TurnEndReason
  unfolding turn_end_reason_to_event
  closes id (turn_end tid reason) =
      if str_eq tid id then some (turn_end_reason_to_event reason) else none
  closes id _ = none

  -- `items.iter().rev().find_map(…)`.
  unfoldable pub last_closer : String → List (Item H) → Option Types.TurnEndReason
  unfolding closes
  last_closer id [] = none
  last_closer id (i ∷ is) = or_else (last_closer id is) (closes id i.kind)

  unfoldable pub hopped_turn_reason : LoopState H → ℕ → Types.TurnEndReason
  unfolding last_closer turn_id
  hopped_turn_reason s before = unwrap_reason (last_closer (turn_id before) s.items)

  last_closer-append :
      (id : String) (is js : List (Item H))
      → last_closer id (is ++ js) ≡ or_else (last_closer id js) (last_closer id is)
  unfolding last_closer
  last_closer-append id [] js = sym (or_else-none (last_closer id js))
  last_closer-append id (i ∷ is) js =
      ap (λ x. or_else x (closes id i.kind)) (last_closer-append id is js)
      ∙ sym (or_else_assoc (last_closer id js) (last_closer id is) (closes id i.kind))

  last_closer-closed :
      (system : ℕ) (id : String) (items : List (Item H)) (r : TurnEndReason)
      → last_closer id (append_to system items (turn_end id r)) ≡ some (turn_end_reason_to_event r)
  unfolding append_to closes last_closer
  last_closer-closed system id items r = rw (last_closer-append id, str_eq_refl id) refl

  -- Where a drained turn hops to a follow-up, the live closer that is read back from the log is
  -- the sticky reason of the turn, or completed where there is none.
  pub hop_closes_turn :
      (t : Clock) (s : LoopState H) (text : String) (rest : List String)
      → hopped_turn_reason (poll_followups t s (text ∷ rest)).0 s.turn
        ≡ turn_end_reason_to_event (first_reason s.turn_reason completed)
  unfolding hopped_turn_reason poll_followups open_turn append_to last_closer closes
  hop_closes_turn t s text rest =
      let id = turn_id s.turn in
      let closed =
        append_to t.system s.items (turn_end id (first_reason s.turn_reason completed)) in
      ap unwrap_reason (
        last_closer-append id closed _
        ∙ last_closer-closed t.system id s.items (first_reason s.turn_reason completed))
