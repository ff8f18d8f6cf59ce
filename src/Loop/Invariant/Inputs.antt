-- ===== src/Loop/Invariant/Inputs.antt =====
-- Inputs and the provider call keep the bounds.
use rof_harness.Base.{Bool, String, Option, none, some, arith, if_both}
use rof_harness.Host.{Host}
use rof_harness.Provider.{Usage}
use rof_harness.Loop.Gate.{begin_abort, close}
use rof_harness.Loop.Provider.{
  start_step, start_provider_call, record_usage, record_some, fail_attempt, land,
  finish_provider_msg,
}
use rof_harness.Loop.State.{LoopState, open_turn, enqueue, apply_input, admit_steering}
use rof_harness.Loop.Types.{
  Clock, Phase, idle, Input, user, crash, stop_hard, stop_when_idle, QueuedInput, ProviderMsg,
  partial, settled, failed_call,
}
use rof_harness.Loop.Invariant.Bounds.{Inv}

module _ {H : Host} {shut : Bool} where
  enqueue-Inv :
      (t : Clock) (p : Phase) (s : LoopState H) (q : QueuedInput)
      → Inv shut s
      → Inv shut (enqueue t p s q)
  unfolding enqueue open_turn
  enqueue-Inv t idle s q v = ground arith
  enqueue-Inv t _ s q v = ground arith

  pub apply_input-Inv :
      (t : Clock) (s : LoopState H) (i : Input) → Inv shut s → Inv shut (apply_input t s i)
  unfolding apply_input begin_abort
  apply_input-Inv t s (user text) v = enqueue-Inv t s.phase s _ v
  apply_input-Inv t s (crash text) v = enqueue-Inv t s.phase s _ v
  apply_input-Inv t s stop_hard v = ground arith
  apply_input-Inv t s stop_when_idle v = ground arith

  pub admit_steering-Inv :
      (t : Clock) (s : LoopState H) → Inv shut s → Inv shut (admit_steering t s).0
  unfolding admit_steering open_turn
  admit_steering-Inv t s v = ground arith

  pub start-Inv :
      (t : Clock) (s : LoopState H) (root : H.Token)
      → Inv shut s
      → Inv shut (start_provider_call t s root).0
  unfolding start_provider_call start_step
  start-Inv t s root v = ground arith

  record_some-Inv :
      (s : LoopState H) (u : Option (Usage H)) → Inv shut s → Inv shut (record_some s u)
  unfolding record_usage
  record_some-Inv s none v = v
  record_some-Inv s (some u) v = ground arith

  fail_attempt-Inv :
      (t : Clock) (s : LoopState H) (text : String) → Inv shut s → Inv shut (fail_attempt t s text)
  unfolding fail_attempt close
  fail_attempt-Inv t s text v = ground arith

  land-Inv : (t : Clock) (s : LoopState H) (m : ProviderMsg H) → Inv shut s → Inv shut (land t s m)
  unfolding land
  land-Inv t s (partial _ _) v = v
  land-Inv t s (settled _ _ _ u) v = record_some-Inv s u v
  land-Inv t s (failed_call _ text c u) v =
      let w = record_some-Inv s u v in
      if_both (Inv shut) c (ground arith) (fail_attempt-Inv t (record_some s u) text w)

  pub finish-Inv :
      (t : Clock) (s : LoopState H) (m : ProviderMsg H)
      → Inv shut s
      → Inv shut (finish_provider_msg t s m).0
  unfolding finish_provider_msg
  finish-Inv t s m v = ground (arith, land-Inv t (record s { in_flight = none }) m)
