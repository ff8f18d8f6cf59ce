-- ===== src/Loop/Types.antt =====
-- The data of crates/agent-loop/src/state.rs, run.rs, verify.rs and budget_nudge.rs.
use rof_harness.Base.{ℕ, String, Bool, false, Option, none, List, ltb}
use rof_harness.Host.{Host}
use rof_harness.Bets.{AblationMetrics}
use rof_harness.Context.Compact.{CompactionConfig}
use rof_harness.Log.Types.{InputSource, external}
use rof_harness.Provider.{AssistantMessage, StopReason, Usage}
use rof_harness.Tools.{ToolCall, ToolResult}

abbrev pub step_retry_budget : ℕ
step_retry_budget = 2

abbrev pub directive_cap : ℕ
directive_cap = 3

abbrev pub verify_nudge_cap : ℕ
verify_nudge_cap = 2

-- What an operation reads of the two clocks: `Instant::now()` and `SystemTime::now()`.
pub record Clock : Type 0 where
  pub instant : ℕ
  pub system : ℕ

pub data Phase : Type 0 where
  idle running maintenance : Phase

pub data FailureKind : Type 0 where
  log snapshot provider input : FailureKind

pub data Outcome : Type 0 where
  done : Outcome
  halted : String → Outcome
  cancelled : Outcome
  failed : FailureKind → String → Outcome

pub data PhaseVerdict : Type 0 where
  returns : Outcome → PhaseVerdict
  breaks continues : PhaseVerdict

pub data Input : Type 0 where
  user crash : String → Input
  stop_hard stop_when_idle : Input

pub record QueuedInput : Type 0 where
  pub text : String
  pub source : InputSource

-- `QueuedInput::from`.
unfoldable pub queued_from : String → QueuedInput
queued_from text = record { text = text; source = external }

pub data ProviderMsg (H : Host) : Type 0 where
  partial : ℕ → String → ProviderMsg H
  settled : ℕ → AssistantMessage H → StopReason → Option (Usage H) → ProviderMsg H
  failed_call : ℕ → String → Bool → Option (Usage H) → ProviderMsg H

unfoldable pub turn_of : {H : Host} → ProviderMsg H → ℕ
turn_of (partial turn text) = turn
turn_of (settled turn _ _ _) = turn
turn_of (failed_call turn _ _ _) = turn

pub record ToolMsg : Type 0 where
  pub call_id : String
  pub result : ToolResult

pub data ClaimOutcome (H : Host) : Type 0 where
  dispatch : List (ToolCall H) → ClaimOutcome H
  truncated : ℕ → ClaimOutcome H
  declared : ClaimOutcome H
  verify_hold refused : ClaimOutcome H
  hard_exit : String → ClaimOutcome H

pub record InFlight (H : Host) : Type 0 where
  pub turn : ℕ
  pub token : H.Token

pub record ToolCallState : Type 0 where
  pub name : String
  pub args : String
  pub is_verification : Bool
  pub result : Option ToolResult

pub record Checkpoint : Type 0 where
  pub keep_from : ℕ
  pub summary : String

pub data BudgetShape : Type 0 where
  gross miss_plus_out : BudgetShape

-- In the order of the derived `Ord`.
pub data IncentivesLevel : Type 0 where
  base contract full : IncentivesLevel

abbrev pub level_rank : IncentivesLevel → ℕ
level_rank base = 0
level_rank contract = 1
level_rank full = 2

-- `cfg.incentives < IncentivesLevel::Full`.
abbrev pub below_full : IncentivesLevel → Bool
below_full level = ltb (level_rank level) (level_rank full)

pub record RunConfig (H : Host) : Type 0 where
  pub goal : String
  pub model : String
  pub max_tokens : ℕ
  pub context_budget_chars : ℕ
  pub context_files : List String
  pub drain_timeout : ℕ
  pub log_path : Option String
  pub incentives : IncentivesLevel
  pub proof_cmd : Option String
  pub compaction : CompactionConfig H
  pub thinking_keep : ℕ
  pub collapse_hysteresis : ℕ
  pub budget_shape : BudgetShape

pub record VerifyState : Type 0 where
  pub nudges_used : ℕ
  pub edits_at_last_nudge : ℕ
  pub verified_since_write : Bool
  pub hold : Option String

pub record Experiment : Type 0 where
  pub ablation : AblationMetrics
  pub half_directive_sent : Bool
  pub late_directive_sent : Bool

abbrev pub fresh_verify : VerifyState
fresh_verify = record {
  nudges_used = 0;
  edits_at_last_nudge = 0;
  verified_since_write = false;
  hold = none;
}

abbrev pub fresh_experiment : Experiment
fresh_experiment = record {
  ablation = record {
    rollbacks = 0;
    proven_hunks = 0;
    claim_mismatches = 0;
    branch_wins = 0;
    branch_spend_cents = 0;
  };
  half_directive_sent = false;
  late_directive_sent = false;
}
