-- ===== src/Bets.antt =====
-- crates/bets: the commit gate over a batch's hunks (commit.rs) and the counters of the ablation
-- (metrics.rs).
pub mod Gate
pub mod Race
use rof_harness.Base.{
  ℕ, ◌+◌, ◌≤◌, ◌++◌, ◌||◌, ◌&&◌, not, leb, arith, length-append, String, Bool, true, false, List,
  [], ◌∷◌, map, length, if◌then◌else◌, is_empty, u64,
}
use rof_harness.Base.Text.{◌<>◌}
use rof_harness.Base.Chars.{contains_text, is_empty_text, is_blank, trim}
use rof_harness.Host.{Host}

pub record Claim : Type 0 where
  pub predicted_verdict : String
  pub on_mismatch : String

pub data ClaimAssessment : Type 0 where
  agrees mismatch : ClaimAssessment

-- On the two texts in lower case.
unfoldable pub assess_texts : String → String → ClaimAssessment
unfolding contains_text
assess_texts predicted observed =
    if is_empty_text predicted
      || contains_text observed predicted
      || not (is_empty_text observed) && contains_text predicted observed
    then agrees
    else mismatch

unfoldable pub assess_claim : Host → Claim → String → ClaimAssessment
unfolding assess_texts trim
assess_claim H claim observation =
    assess_texts (H.to_lowercase (trim claim.predicted_verdict)) (H.to_lowercase (trim observation))

abbrev pub max_claim_history : ℕ
max_claim_history = 3

pub record ClaimHistory : Type 0 where
  pub recent : List ClaimAssessment
  pub filed : ℕ
  pub abstained : ℕ

abbrev drop_oldest : List ClaimAssessment → List ClaimAssessment
drop_oldest [] = []
drop_oldest (x ∷ xs) = xs

unfoldable pub push : ClaimHistory → Claim → ClaimAssessment → ClaimHistory
unfolding is_blank
push h claim assessment =
    let blank = is_blank claim.predicted_verdict in
    record {
      recent =
          (if leb max_claim_history (length h.recent) then drop_oldest h.recent else h.recent)
          ++ assessment ∷ [];
      filed = if blank then h.filed else u64 (h.filed + 1);
      abstained = if blank then u64 (h.abstained + 1) else h.abstained;
    }

-- However many assessments are pushed, a history holds the newest three at most.
pub push-bounded :
    (h : ClaimHistory) (claim : Claim) (a : ClaimAssessment)
    → length h.recent ≤ max_claim_history
    → length (push h claim a).recent ≤ max_claim_history
unfolding push
push-bounded h claim a l = ground (arith, length-append h.recent (a ∷ []))

pub record Savepoint : Type 0 where
  pub kept_hunks : List String
  pub reverted_hunks : List String

pub data CommitVerdict : Type 0 where
  committed : CommitVerdict
  partial : Savepoint → CommitVerdict
  aborted : String → CommitVerdict

unfoldable pub gate_commit : Claim → Bool → CommitVerdict
unfolding ◌<>◌
gate_commit claim proof_passed =
    if proof_passed then committed else aborted ("claim unsatisfied: " <> claim.predicted_verdict)

-- `hunks[..first_fail]` and `hunks[first_fail..]`, where `first_fail` is the position of the first
-- unproven hunk, or the end.
unfoldable pub before_first_fail : List (String × Bool) → List (String × Bool)
before_first_fail [] = []
before_first_fail ((h, proven) ∷ hs) =
    let rest = before_first_fail hs in if proven then (h, proven) ∷ rest else []

unfoldable pub from_first_fail : List (String × Bool) → List (String × Bool)
from_first_fail [] = []
from_first_fail ((h, proven) ∷ hs) =
    let rest = from_first_fail hs in if proven then rest else (h, proven) ∷ hs

abbrev pub hunk_names : List (String × Bool) → List String
hunk_names = map λ h. h.0

unfoldable pub split_savepoint : List (String × Bool) → Savepoint
unfolding before_first_fail from_first_fail
split_savepoint hunks = record {
  kept_hunks = hunk_names (before_first_fail hunks);
  reverted_hunks = hunk_names (from_first_fail hunks);
}

unfoldable pub gate_batch_commit : Claim → List (String × Bool) → CommitVerdict
unfolding split_savepoint ◌<>◌
gate_batch_commit claim hunks =
    if is_empty hunks
    then aborted "no hunks proven"
    else let savepoint = split_savepoint hunks in
      if is_empty savepoint.reverted_hunks
      then committed
      else if is_empty savepoint.kept_hunks
      then aborted ("claim unsatisfied at first hunk: " <> claim.predicted_verdict)
      else partial savepoint

pub record AblationMetrics : Type 0 where
  pub rollbacks : ℕ
  pub proven_hunks : ℕ
  pub claim_mismatches : ℕ
  pub branch_wins : ℕ
  pub branch_spend_cents : ℕ

unfoldable pub note_assessment : AblationMetrics → ClaimAssessment → AblationMetrics
note_assessment m mismatch = record m { claim_mismatches = u64 (m.claim_mismatches + 1) }
note_assessment m agrees = m

unfoldable pub note_commit : AblationMetrics → CommitVerdict → AblationMetrics
note_commit m committed = record m { proven_hunks = u64 (m.proven_hunks + 1) }
note_commit m (partial savepoint) = record m {
  proven_hunks = u64 (m.proven_hunks + length savepoint.kept_hunks);
  rollbacks = u64 (m.rollbacks + 1);
}
note_commit m (aborted reason) = record m { rollbacks = u64 (m.rollbacks + 1) }
