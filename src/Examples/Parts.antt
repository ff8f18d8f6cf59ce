-- ===== src/Examples/Parts.antt =====
-- The theorems on the budget, the events and the bets, at concrete values.
use rof_harness.Base.{
  ◌-◌, ℕ, ◌+◌, ◌≤◌, ◌<◌, ◌≡◌, ◌≢◌, ◌↔◌, String, Bool, true, false, none, some, List, [], ◌∷◌, ◌++◌,
  map, arith,
}
use rof_harness.Host.{plain_host}
use rof_harness.Budget.Config.{config_for, unattended_batch}
use rof_harness.Budget.Guard.{BudgetGuard, new, exceeded}
use rof_harness.Budget.Caps.{exceeded-none_iff, IsWithin}
use rof_harness.Budget.History.{
  GuardCall, asks, steps_on, asks_nudge, total, grace_of, notice_of, grace_once, admitted,
  admitted-le,
}
use rof_harness.Event.Types.{AgentEvent, run_start, run_end, passed}
use rof_harness.Event.Emitter.{Emitter, Tap, emit_all}
use rof_harness.Event.Delivery.{frames_of, offer, live, history-emit_all, taps-emit_all}
use rof_harness.Event.Pairing.{check_pairing}
use rof_harness.Event.Pairing.Meaning.{IsPaired, check_pairing_iff}
use rof_harness.Bets.{Claim, committed, split_savepoint, gate_batch_commit, hunk_names}
use Prim.Native.Nat.{max}
use rof_harness.Context.{collapse_boundary, collapse_boundary_window}
use rof_harness.Bets.Race.{
  ScoreLaws, BranchOutcome, pick_winner, default_race, qualified, IsIn, Unbeaten, pick_winner_lem,
}
use rof_harness.Bets.Gate.{AllProven, StartsUnproven, split_savepoint_lem, gate_batch_commit_iff}

abbrev guard : BudgetGuard
guard = new (config_for unattended_batch) 0

abbrev spent : BudgetGuard
spent = record guard {
  counters = record {
    steps = 20;
    tokens = 0;
    spent_cents = 0;
    refunds = 0;
    same_action_streak = 0;
    actions_this_trial = 0;
  };
  grace_used = true;
}

abbrev rounds : List (ℕ × Bool)
rounds = (1, false) ∷ (2, true) ∷ (3, false) ∷ []

admitted-le_example : admitted guard rounds ≤ guard.config.max_steps + guard.config.max_refunds + 1
unfolding new config_for
admitted-le_example = admitted-le guard rounds (omega arith) (omega arith)

abbrev guard_calls : List GuardCall
guard_calls = asks 1 ∷ steps_on ∷ asks_nudge 2 ∷ asks 3 ∷ []

grace_once_example :
    (total grace_of spent guard_calls ≤ 1) × (total notice_of spent guard_calls ≤ 1)
grace_once_example = grace_once spent guard_calls

exceeded-none_iff_example : (exceeded guard 5 ≡ none) ↔ IsWithin guard 5
exceeded-none_iff_example = exceeded-none_iff guard 5

abbrev starts_run : AgentEvent plain_host
starts_run = run_start 1 "m"

abbrev ends_run : AgentEvent plain_host
ends_run = run_end passed []

abbrev small_tap : Tap plain_host
small_tap = record { capacity = 2; queued = []; alive = true }

abbrev panicky : Emitter plain_host
panicky = record { history = []; listeners = (λ past e. true) ∷ []; taps = small_tap ∷ [] }

history-emit_all_example :
    ((emit_all panicky (starts_run ∷ ends_run ∷ [])).history
      ≡ panicky.history ++ frames_of panicky.listeners panicky.history (starts_run ∷ ends_run ∷ []))
    × ((emit_all panicky (starts_run ∷ ends_run ∷ [])).listeners ≡ panicky.listeners)
history-emit_all_example = history-emit_all panicky (starts_run ∷ ends_run ∷ [])

taps-emit_all_example :
    (emit_all panicky (starts_run ∷ ends_run ∷ [])).taps
    ≡ map
        (offer (frames_of panicky.listeners panicky.history (starts_run ∷ ends_run ∷ [])))
        (live panicky.taps)
taps-emit_all_example = taps-emit_all panicky starts_run (ends_run ∷ [])

check_pairing_iff_example :
    (check_pairing (ends_run ∷ starts_run ∷ []) ≡ true) ↔ IsPaired (ends_run ∷ starts_run ∷ [])
check_pairing_iff_example = check_pairing_iff (ends_run ∷ starts_run ∷ []) (omega arith)

abbrev claim : Claim
claim = record { predicted_verdict = "passes"; on_mismatch = "revert" }

abbrev hunks : List (String × Bool)
hunks = ("a", true) ∷ ("b", false) ∷ ("c", true) ∷ []

split_savepoint_lem_example :
    (kept : List (String × Bool)) × (reverted : List (String × Bool)) × (kept ++ reverted ≡ hunks)
    × AllProven kept
    × StartsUnproven reverted
    × ((split_savepoint hunks).kept_hunks ≡ hunk_names kept)
    × ((split_savepoint hunks).reverted_hunks ≡ hunk_names reverted)
split_savepoint_lem_example = split_savepoint_lem hunks

gate_batch_commit_iff_example :
    (gate_batch_commit claim hunks ≡ committed) ↔ ((hunks ≢ []) × AllProven hunks)
gate_batch_commit_iff_example = gate_batch_commit_iff claim hunks

score_laws : ScoreLaws plain_host
score_laws = record { gt_irrefl = λ a. ground arith; gt_trans = λ a b c h g. ground arith }

abbrev branches : List (BranchOutcome plain_host)
branches =
    record { branch_id = 1; verifier_score = 3; spend_cents = 10 }
    ∷ record { branch_id = 2; verifier_score = 5; spend_cents = 20 }
    ∷ []

pick_winner_lem_example :
    (pick_winner branches default_race ≡ none → qualified branches default_race ≡ [])
    × ((id : ℕ)
        → pick_winner branches default_race ≡ some id
        → (w : BranchOutcome plain_host) × (w.branch_id ≡ id)
          × IsIn w (qualified branches default_race)
          × Unbeaten w (qualified branches default_race))
pick_winner_lem_example = pick_winner_lem score_laws branches default_race

collapse_boundary_window_example :
    (5 ≤ 12
      → (5 ≤ 12 - collapse_boundary 12 5 3)
        × (12 - collapse_boundary 12 5 3 < 5 + max 3 1)
        × (collapse_boundary 12 5 3 ≤ 12))
    × (12 ≤ 5 → collapse_boundary 12 5 3 ≡ 0)
collapse_boundary_window_example = collapse_boundary_window 12 5 3
