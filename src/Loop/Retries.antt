-- ===== src/Loop/Retries.antt =====
-- The retry ladder of crates/agent-loop: what a run of failed attempts of one step leads to.
use rof_harness.Base.{
  ℕ, zero, suc, ◌≡◌, refl, String, true, false, Option, none, some, List, [], ◌∷◌, arith, length,
}
use rof_harness.Host.{Host}
use rof_harness.Provider.{Usage}
use rof_harness.Loop.Gate.{close, is_open}
use rof_harness.Loop.Provider.{
  start_step, start_provider_call, finish_provider_msg, land, fail_attempt, record_usage,
  record_some,
}
use rof_harness.Loop.State.{LoopState}
use rof_harness.Loop.Types.{Clock, failed_call}

-- One attempt that fails: its clock, its error and what it was billed.
pub record Failure (H : Host) : Type 0 where
  pub clock : Clock
  pub text : String
  pub billed : Option (Usage H)

module _ {H : Host} where
  -- The attempt is started, and its failure lands in the same turn.
  abbrev pub fail_once : H.Token → LoopState H → Failure H → LoopState H
  fail_once root s f =
      let started = (start_provider_call f.clock s root).0 in
      (finish_provider_msg f.clock started (failed_call started.turn f.text false f.billed)).0

  abbrev pub fail_all : H.Token → LoopState H → List (Failure H) → LoopState H
  fail_all root s [] = s
  fail_all root s (f ∷ fs) = fail_all root (fail_once root s f) fs

  abbrev last_text : String → List (Failure H) → String
  last_text text [] = text
  last_text text (f ∷ fs) = last_text f.text fs

  -- What a start leaves as it was, where the latch is set.
  start-keeps :
      (t : Clock) (s : LoopState H) (root : H.Token)
      → s.call_model ≡ true
      → ((start_provider_call t s root).0.step_retries ≡ s.step_retries)
        × ((start_provider_call t s root).0.items ≡ s.items)
  unfolding start_provider_call start_step
  start-keeps t s root h = ground arith

  record_some-keeps :
      (s : LoopState H) (u : Option (Usage H))
      → ((record_some s u).step_retries ≡ s.step_retries) × ((record_some s u).items ≡ s.items)
  unfolding record_usage
  record_some-keeps s none = (refl, refl)
  record_some-keeps s (some u) = (refl, refl)

  finish-retries :
      (t : Clock) (s : LoopState H) (k : ℕ) (text : String) (u : Option (Usage H))
      → s.step_retries ≡ suc k
      → let s' = (finish_provider_msg t s (failed_call s.turn text false u)).0 in
        (s'.step_retries ≡ k) × (s'.call_model ≡ true)
  unfolding finish_provider_msg land fail_attempt
  finish-retries t s k text u h =
      ground (arith, record_some-keeps (record s { in_flight = none }) u)

  finish-fatal :
      (t : Clock) (s : LoopState H) (text : String) (u : Option (Usage H))
      → s.step_retries ≡ 0
      → let s' = (finish_provider_msg t s (failed_call s.turn text false u)).0 in
        (s'.fatal_error ≡ some text) × (is_open s'.gate ≡ false)
  unfolding finish_provider_msg land fail_attempt close
  finish-fatal t s text u h = ground (arith, record_some-keeps (record s { in_flight = none }) u)

  -- A latched step that has `k` retries left and whose next `k + 1` attempts fail ends the run: the
  -- last error is the fatal one, and the gate is no longer open. The guard may refuse any of the
  -- starts, and each attempt may be billed.
  pub retries_exhausted :
      (k : ℕ) (root : H.Token) (s : LoopState H) (f : Failure H) (fs : List (Failure H))
      → s.call_model ≡ true
      → s.step_retries ≡ k
      → length fs ≡ k
      → ((fail_all root s (f ∷ fs)).fatal_error ≡ some (last_text f.text fs))
        × (is_open (fail_all root s (f ∷ fs)).gate ≡ false)
  retries_exhausted k root s f [] c r l =
      let started = (start_provider_call f.clock s root).0 in
      finish-fatal f.clock started f.text f.billed (ground (arith, start-keeps f.clock s root c))
  retries_exhausted zero root s f (g ∷ gs) c r l = absurd (omega arith)
  retries_exhausted (suc k) root s f (g ∷ gs) c r l =
      let started = (start_provider_call f.clock s root).0 in
      let (r', c') =
        finish-retries f.clock started k f.text f.billed
          (ground (arith, start-keeps f.clock s root c)) in
      retries_exhausted k root (fail_once root s f) g gs c' r' (omega arith)
