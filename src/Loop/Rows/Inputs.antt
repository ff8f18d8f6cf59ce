-- ===== src/Loop/Rows/Inputs.antt =====
-- The rows that inputs and the provider call add.
use rof_harness.Base.{
  ℕ, ◌+◌, String, ◌&&◌, ◌||◌, not, Option, none, some, List, [], ◌∷◌, Bool-cases, inl, inr, is_some,
  ltb, ◌==◌,
}
use rof_harness.Host.{Host}
use rof_harness.Budget.Guard.{BudgetGuard, StepAnswer, ok, err, may_step}
use rof_harness.Log.Types.{Item}
use rof_harness.Provider.{Usage}
use rof_harness.Loop.Gate.{admit}
use rof_harness.Loop.Grows.{Keeps, Grows, same, adds, Grows-trans}
use rof_harness.Loop.Provider.{
  start_step, start_provider_call, record_usage, record_some, fail_attempt, land,
  finish_provider_msg, is_admitted,
}
use rof_harness.Loop.State.{
  LoopState, open_turn, enqueue, apply_input, admit_rows, admit_steering, is_idle_phase,
}
use rof_harness.Loop.Types.{
  Clock, Phase, idle, running, maintenance, Input, user, crash, stop_hard, stop_when_idle,
  QueuedInput, ProviderMsg, partial, settled, failed_call, turn_of,
}

module _ {H : Host} where
  open_turn-Grows : (t : Clock) (s : LoopState H) → Keeps s (open_turn t s)
  unfolding open_turn
  open_turn-Grows t s = adds same t.system _

  enqueue-Grows :
      (t : Clock) (p : Phase) (s : LoopState H) (q : QueuedInput) → Keeps s (enqueue t p s q)
  unfolding enqueue
  enqueue-Grows t idle s q = open_turn-Grows t s
  enqueue-Grows t running s q = same
  enqueue-Grows t maintenance s q = same

  pub apply_input-Grows : (t : Clock) (s : LoopState H) (i : Input) → Keeps s (apply_input t s i)
  unfolding apply_input
  apply_input-Grows t s (user text) = enqueue-Grows t s.phase s _
  apply_input-Grows t s (crash text) = enqueue-Grows t s.phase s _
  apply_input-Grows t s stop_hard = same
  apply_input-Grows t s stop_when_idle = same

  admit_rows-Grows :
      (system turn n : ℕ) (items : List (Item H)) (qs : List QueuedInput)
      → Grows items (admit_rows system turn n items qs)
  unfolding admit_rows
  admit_rows-Grows system turn n items [] = same
  admit_rows-Grows system turn n items (q ∷ qs) =
      Grows-trans (adds same system _) (admit_rows-Grows system turn (n + 1) _ qs)

  pub admit_steering-Grows : (t : Clock) (s : LoopState H) → Keeps s (admit_steering t s).0
  unfolding admit_steering open_turn
  admit_steering-Grows t s =
      let g = admit_rows-Grows t.system s.turn 0 s.items s.steering in
      elim (Bool-cases (s.wake_requested && is_idle_phase s.phase)) [
        | inl e ↦ rw e (adds g t.system _)
        | inr e ↦ rw e g
      ]

  start_step-Grows :
      (s : LoopState H) (root : H.Token) (a : BudgetGuard × StepAnswer)
      → Keeps s (start_step s root a).0
  unfolding start_step
  start_step-Grows s root (g, ok) = same
  start_step-Grows s root (g, err h) = same

  pub start_provider_call-Grows :
      (t : Clock) (s : LoopState H) (root : H.Token) → Keeps s (start_provider_call t s root).0
  unfolding start_provider_call
  start_provider_call-Grows t s root =
      elim (Bool-cases (is_some s.in_flight || not (is_admitted (admit s.gate)))) [
        | inl e ↦ rw e same
        | inr e ↦ rw e (start_step-Grows s root (may_step s.budget t.instant))
      ]

  record_some-Grows : (s : LoopState H) (u : Option (Usage H)) → Keeps s (record_some s u)
  unfolding record_usage
  record_some-Grows s none = same
  record_some-Grows s (some u) = same

  fail_attempt-Grows :
      (t : Clock) (s : LoopState H) (text : String) → Keeps s (fail_attempt t s text)
  unfolding fail_attempt
  fail_attempt-Grows t s text = elim (Bool-cases (ltb 0 s.step_retries)) [
    | inl e ↦ rw e (adds same t.system _)
    | inr e ↦ rw e (adds same t.system _)
  ]

  land-Grows : (t : Clock) (s : LoopState H) (m : ProviderMsg H) → Keeps s (land t s m)
  unfolding land
  land-Grows t s (partial _ _) = same
  land-Grows t s (settled _ _ _ usage) = record_some-Grows s usage
  land-Grows t s (failed_call _ text c usage) =
      let g = record_some-Grows s usage in
      elim (Bool-cases (c)) [
        | inl e ↦ rw e g
        | inr e ↦ rw e (Grows-trans g (fail_attempt-Grows t (record_some s usage) text))
      ]

  pub finish_provider_msg-Grows :
      (t : Clock) (s : LoopState H) (m : ProviderMsg H) → Keeps s (finish_provider_msg t s m).0
  unfolding finish_provider_msg
  finish_provider_msg-Grows t s m = elim (Bool-cases (not (turn_of m == s.turn))) [
    | inl e ↦ rw e same
    | inr e ↦ rw e (land-Grows t (record s { in_flight = none }) m)
  ]
