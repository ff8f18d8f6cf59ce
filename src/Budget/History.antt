-- ===== src/Budget/History.antt =====
-- What the guard of crates/agent-budget promises over a run: the one grace step, the one notice,
-- and a bound on the steps that it ever admits.
use rof_harness.Base.{
  ℕ, ◌+◌, ◌-◌, ◌≤◌, ◌<◌, ◌≡◌, Bool, true, false, none, some, List, [], ◌∷◌, arith, if◌then◌else◌,
  u32_max, is_some, one_if,
}
use rof_harness.Budget.Caps.{peek-IsWithin}
use rof_harness.Budget.Guard.{
  BudgetGuard, BudgetHalt, StepAnswer, ok, err, peek, may_step, record_step, refund_step,
  record_tokens, record_spend_cents, nudge_due,
}

-- One call of a method of the guard, with the clock that it reads. `sets_actions` is what the
-- callers of `counters_mut` write.
pub data GuardCall : Type 0 where
  asks : ℕ → GuardCall
  steps_on refunds : GuardCall
  spends_tokens spends_cents : ℕ → GuardCall
  sets_actions : ℕ → ℕ → GuardCall
  asks_nudge : ℕ → GuardCall

unfoldable pub set_actions : BudgetGuard → ℕ → ℕ → BudgetGuard
set_actions g streak actions =
    let c = g.counters in
    record g { counters = record c { same_action_streak = streak; actions_this_trial = actions } }

unfoldable pub call : BudgetGuard → GuardCall → BudgetGuard
call g (asks now) = (may_step g now).0
call g steps_on = record_step g
call g refunds = refund_step g
call g (spends_tokens n) = record_tokens g n
call g (spends_cents n) = record_spend_cents g n
call g (sets_actions streak actions) = set_actions g streak actions
call g (asks_nudge now) = (nudge_due g now).0

abbrev is_ok : StepAnswer → Bool
is_ok ok = true
is_ok (err h) = false

-- 1 where the call admits a step although a cap is tripped.
unfoldable pub grace_of : BudgetGuard → GuardCall → ℕ
grace_of g (asks now) = if is_some (peek g now) then one_if (is_ok (may_step g now).1) else 0
grace_of g _ = 0

-- 1 where the call hands out a wrap-up notice.
unfoldable pub notice_of : BudgetGuard → GuardCall → ℕ
notice_of g (asks_nudge now) = one_if (is_some (nudge_due g now).1)
notice_of g _ = 0

-- The sum of a count over a history of calls.
unfoldable pub total : (BudgetGuard → GuardCall → ℕ) → BudgetGuard → List GuardCall → ℕ
total count g [] = 0
total count g (c ∷ cs) = count g c + total count (call g c) cs

grace_step :
    (g : BudgetGuard) (c : GuardCall)
    → grace_of g c + one_if g.grace_used ≤ one_if (call g c).grace_used
unfolding call grace_of may_step record_step refund_step record_tokens record_spend_cents
    set_actions nudge_due
grace_step g (asks now) = ground arith
grace_step g c = ground arith

notice_step :
    (g : BudgetGuard) (c : GuardCall)
    → notice_of g c + one_if g.nudge_fired ≤ one_if (call g c).nudge_fired
unfolding call notice_of may_step record_step refund_step record_tokens record_spend_cents
    set_actions nudge_due
notice_step g (asks now) = ground arith
notice_step g c = ground arith

one_if_le : (b : Bool) → one_if b ≤ 1
one_if_le true = omega arith
one_if_le false = omega arith

grace_total :
    (g : BudgetGuard) (cs : List GuardCall) → total grace_of g cs + one_if g.grace_used ≤ 1
unfolding total
grace_total g [] = omega (arith, one_if_le g.grace_used)
grace_total g (c ∷ cs) = omega (arith, grace_step g c, grace_total (call g c) cs)

notice_total :
    (g : BudgetGuard) (cs : List GuardCall) → total notice_of g cs + one_if g.nudge_fired ≤ 1
unfolding total
notice_total g [] = omega (arith, one_if_le g.nudge_fired)
notice_total g (c ∷ cs) = omega (arith, notice_step g c, notice_total (call g c) cs)

-- Over any history of calls at any times, a guard admits at most one step while a cap is tripped,
-- and hands out at most one wrap-up notice.
pub grace_once :
    (g : BudgetGuard) (cs : List GuardCall) → (total grace_of g cs ≤ 1) × (total notice_of g cs ≤ 1)
grace_once g cs = (omega (arith, grace_total g cs), omega (arith, notice_total g cs))

-- Once the grace step is spent, a step is refused exactly when a cap is tripped, with the cap that
-- `peek` names, and asking changes nothing.
pub may_step_after_grace :
    (g : BudgetGuard) (now : ℕ)
    → g.grace_used ≡ true
    → ((may_step g now).0 ≡ g)
      × ((h : BudgetHalt) → peek g now ≡ some h → (may_step g now).1 ≡ err h)
      × (peek g now ≡ none → (may_step g now).1 ≡ ok)
unfolding may_step
may_step_after_grace g now u = ground arith

-- One round of a driver: it asks at an instant, records the step where it is admitted, and refunds
-- it where the round made no progress.
unfoldable pub after_answer : BudgetGuard × StepAnswer → Bool → BudgetGuard × ℕ
after_answer (g, ok) refunded = (if refunded then refund_step (record_step g) else record_step g, 1)
after_answer (g, err h) refunded = (g, 0)

unfoldable pub round : BudgetGuard → ℕ × Bool → BudgetGuard × ℕ
unfolding after_answer
round g (now, refunded) = after_answer (may_step g now) refunded

-- How many of the rounds are admitted.
unfoldable pub admitted : BudgetGuard → List (ℕ × Bool) → ℕ
admitted g [] = 0
admitted g (r ∷ rs) = (round g r).1 + admitted (round g r).0 rs

-- What is left to admit: steps under the cap, refunds, and the grace step.
abbrev credit : BudgetGuard → ℕ
credit g =
    (g.config.max_steps - g.counters.steps)
    + (g.config.max_refunds - g.counters.refunds)
    + (1 - one_if g.grace_used)

peek_steps : (g : BudgetGuard) (now : ℕ) → peek g now ≡ none → g.counters.steps < g.config.max_steps
peek_steps g now h = (peek-IsWithin g now h).steps_left

credit-round :
    (g : BudgetGuard) (r : ℕ × Bool)
    → g.config.max_steps ≤ u32_max
    → g.config.max_refunds ≤ u32_max
    → (round g r).1 + credit (round g r).0 ≤ credit g
unfolding round may_step record_step refund_step
credit-round g (now, refunded) s f = ground (arith, peek_steps g now)

config-round : (g : BudgetGuard) (r : ℕ × Bool) → (round g r).0.config ≡ g.config
unfolding round may_step record_step refund_step
config-round g (now, refunded) = ground arith

admitted-credit :
    (g : BudgetGuard) (rs : List (ℕ × Bool))
    → g.config.max_steps ≤ u32_max
    → g.config.max_refunds ≤ u32_max
    → admitted g rs ≤ credit g
unfolding admitted
admitted-credit g [] s f = omega arith
admitted-credit g (r ∷ rs) s f =
    let e = config-round g r in
    let later = admitted-credit (round g r).0 rs (rw e s) (rw e f) in
    omega (arith, credit-round g r s f, later)

-- However many rounds a driver asks for, and whichever of them it refunds, the guard admits at
-- most `max_steps + max_refunds + 1` of them, where the caps are u32 values.
pub admitted-le :
    (g : BudgetGuard) (rs : List (ℕ × Bool))
    → g.config.max_steps ≤ u32_max
    → g.config.max_refunds ≤ u32_max
    → admitted g rs ≤ g.config.max_steps + g.config.max_refunds + 1
admitted-le g rs s f = omega (arith, admitted-credit g rs s f)
