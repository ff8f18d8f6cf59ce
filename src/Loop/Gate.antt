-- ===== src/Loop/Gate.antt =====
-- crates/agent-loop/src/gate.rs: the two-phase effect gate. The mutex is left out, since the driver
-- is sequential.
use rof_harness.Base.{String, Bool, true, false}

pub data GateStatus : Type 0 where
  open_gate aborting closed : GateStatus

pub record EffectGate : Type 0 where
  pub status : GateStatus
  pub closed_err : String

pub data Admission : Type 0 where
  admitted : Admission
  abort_requested : Admission
  closed_with : String → Admission

unfoldable pub new : EffectGate
new = record { status = open_gate; closed_err = "" }

abbrev pub is_open_status : GateStatus → Bool
is_open_status open_gate = true
is_open_status _ = false

abbrev pub is_open : EffectGate → Bool
is_open g = is_open_status g.status

abbrev admit_status : GateStatus → String → Admission
admit_status open_gate e = admitted
admit_status aborting e = abort_requested
admit_status closed e = closed_with e

unfoldable pub admit : EffectGate → Admission
admit g = admit_status g.status g.closed_err

abbrev abort_status : GateStatus → GateStatus
abort_status open_gate = aborting
abort_status aborting = aborting
abort_status closed = closed

unfoldable pub begin_abort : EffectGate → EffectGate
begin_abort g = record g { status = abort_status g.status }

unfoldable pub close : EffectGate → String → EffectGate
close g e = record g { status = closed; closed_err = e }
