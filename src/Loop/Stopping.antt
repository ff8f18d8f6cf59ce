-- ===== src/Loop/Stopping.antt =====
-- What a stop means for the calls of a run.
use rof_harness.Base.{◌||◌, ℕ, ◌≡◌, refl, true, false, none, List, arith, is_some}
use rof_harness.Host.{Host}
use rof_harness.Loop.Gate
use rof_harness.Loop.Gate.{begin_abort, close, is_open, closed}
use rof_harness.Loop.Ops.{Op, Setting, perform_all}
use rof_harness.Loop.Provider.{start_provider_call}
use rof_harness.Loop.State.{LoopState, new}
use rof_harness.Loop.Types.{Clock}
use rof_harness.Loop.Invariant.Bounds.{Inv}
use rof_harness.Loop.Invariant.{perform_all-Inv}

module _ (H : Host) where
  -- A fresh state satisfies the bounds.
  pub new-Inv : (now : ℕ) → Inv false (new {H = H} now)
  unfolding new Gate.new
  new-Inv now = ground arith

module _ {H : Host} where
  shut-Inv :
      (s : LoopState H) → Inv false s → (is_some s.fatal_error || s.stop_hard) ≡ true → Inv true s
  shut-Inv s v h = ground arith

  closed_admits_none :
      (t : Clock) (s : LoopState H) (root : H.Token)
      → is_open s.gate ≡ false
      → start_provider_call t s root ≡ (s, none)
  unfolding start_provider_call Gate.admit
  closed_admits_none t s root h = ground arith

module _ {H : Host} (env : Setting H) where
  -- Once a fatal error or a hard stop stands in a state within the bounds, no provider call is
  -- started after any further operations: `start_provider_call` answers `None` and leaves the
  -- state as it is.
  pub no_call_after_stop :
      (s : LoopState H) (ops : List (Clock × Op H)) (t : Clock) (root : H.Token)
      → Inv false s
      → (is_some s.fatal_error || s.stop_hard) ≡ true
      → let s' = perform_all env s ops in start_provider_call t s' root ≡ (s', none)
  no_call_after_stop s ops t root v h =
      let shut = shut-Inv s v h in
      closed_admits_none t (perform_all env s ops) root
        (Inv.gate_shut (perform_all-Inv {shut = true} env s ops shut) refl)
