-- ===== src/Event/Types.antt =====
-- crates/agent-event/src/types.rs and event.rs. `RunId`, `TurnId` and `MessageId` are u64.
use rof_harness.Base.{ℕ, String, Bool, Option, List}
use rof_harness.Host.{Host}

pub data Role : Type 0 where
  system user assistant tool : Role

pub record Message : Type 0 where
  pub role : Role
  pub content : String

pub data DeltaKind : Type 0 where
  text thinking tool_call : DeltaKind

pub record MessageDelta : Type 0 where
  pub kind : DeltaKind
  pub text : Option String

pub data TurnEndReason : Type 0 where
  completed error aborted stopped max_steps budget_exceeded : TurnEndReason

pub data RunOutcome : Type 0 where
  passed : RunOutcome
  failed : String → RunOutcome
  aborted : RunOutcome

pub data ControlKind : Type 0 where
  steer queue stop : ControlKind

pub data ControlStatus : Type 0 where
  applied rejected : ControlStatus

pub record ControlAck : Type 0 where
  pub id : ℕ
  pub kind : ControlKind
  pub status : ControlStatus
  pub note : String

pub record AgentError : Type 0 where
  pub code : String
  pub message : String

pub record UsageReport (H : Host) : Type 0 where
  pub input_tokens : ℕ
  pub output_tokens : ℕ
  pub cache_read_tokens : ℕ
  pub reasoning_tokens : Option ℕ
  pub cost_usd : Option H.Float

pub data AgentEvent (H : Host) : Type 0 where
  run_start : ℕ → String → AgentEvent H
  run_end : RunOutcome → List Message → AgentEvent H
  turn_start : ℕ → AgentEvent H
  turn_end : ℕ → TurnEndReason → UsageReport H → AgentEvent H
  message_start : ℕ → Role → Message → AgentEvent H
  message_update : ℕ → MessageDelta → Message → AgentEvent H
  message_end : ℕ → Message → Bool → Option (UsageReport H) → AgentEvent H
  tool_start : String → String → H.Value → AgentEvent H
  tool_end : String → H.Value → Bool → AgentEvent H
  control : ControlAck → AgentEvent H
  error_event : AgentError → AgentEvent H
