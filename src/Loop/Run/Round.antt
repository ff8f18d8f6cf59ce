-- ===== src/Loop/Run/Round.antt =====
-- crates/agent-loop/src/run.rs: `step_head`, `provider_round` and what settles a provider's answer.
use rof_harness.Base.{
  ℕ, ◌-◌, String, Bool, true, false, ◌&&◌, ◌||◌, not, Option, none, some, List, is_empty, is_none,
  length, ◌==◌, if◌then◌else◌, ◌⊎◌, inl, inr,
}
use rof_harness.Host.{Host}
use rof_harness.Budget.Guard.{BudgetExceeded, BudgetHalt, exceeded}
use rof_harness.Context.Compact.{CompactMessage}
use rof_harness.Provider.{Response, billed_usage}
use rof_harness.Provider.Errors.{LlmError, cancelled, metered, display}
use rof_harness.Provider.Request.{Request}
use rof_harness.Registry.{definitions}
use rof_harness.Loop.Claim.{step_claim}
use rof_harness.Loop.Gate.{close}
use rof_harness.Loop.Provider.{record_some, record_usage, start_provider_call, finish_provider_msg}
use rof_harness.Loop.Request.{build_request}
use rof_harness.Loop.Request.Compaction.{
  due_cut, summary_request, summary_of, answer_usage, apply_summary, error_usage,
}
use rof_harness.Loop.Run.{
  Driver, Action, next, pure, halt, ask, get_state, set_state, on_state, when, ◌>>=◌, ◌>>◌,
}
use rof_harness.Loop.Run.Closing.{sync, ask_verdict, done_if_parked, settle_terminal}
use rof_harness.Loop.Run.Frames.{emit_error, emit_message_frames, emit_tool_starts}
use rof_harness.Loop.Run.Tools.{stop_now, cancel_turn, tool_batch, proof_gate, or_return}
use rof_harness.Loop.State.{LoopState, admit_steering, is_idle, is_idle_phase, open_tools}
use rof_harness.Loop.Types.{
  Clock, Outcome, done, PhaseVerdict, returns, breaks, continues, ClaimOutcome, dispatch, truncated,
  declared, verify_hold, refused, hard_exit, failed_call, settled,
}

pub data Head (H : Host) : Type 0 where
  call : H.Token → Head H
  yields again : Head H
  leaves : Outcome → Head H

abbrev pub is_steps : Option BudgetExceeded → Bool
is_steps none = false
is_steps (some e) = elim e.halt [ BudgetHalt.steps ↦ true | _ ↦ false ]

module _ {H : Host} where
  abbrev pub is_exhausted : LlmError H → Bool
  is_exhausted (metered source usage exhausted) = exhausted
  is_exhausted _ = false

  unfoldable pub error_text : (LlmError H → String) → LlmError H → String
  unfolding display
  error_text debug (metered source usage exhausted) = display source
  error_text debug e = debug e

  abbrev pub parked_head : LoopState H → Head H
  parked_head s = if is_idle_phase s.phase && is_idle s then leaves done else again

  -- The declare of an admitted last step wins over the step cap.
  unfoldable pub declare_wins : Clock → LoopState H → Bool
  unfolding open_tools exceeded
  declare_wins t s =
      is_none s.in_flight
      && open_tools s == 0
      && not s.call_model
      && is_empty s.steering
      && is_empty s.followups
      && is_steps (exceeded s.budget t.instant)

module _ {H : Host} {d : Driver H} where
  abbrev pub head_of_verdict : PhaseVerdict → Action d (Head H)
  head_of_verdict (returns o) = pure (leaves o)
  head_of_verdict breaks = pure yields
  head_of_verdict continues = do s ← get_state; pure (parked_head s)

  abbrev pub head_of : Option H.Token → Action d (Head H)
  head_of (some token) = pure (call token)
  head_of none = do verdict ← ask_verdict; head_of_verdict verdict

  abbrev pub start_call : Action d (Head H)
  start_call = do started ← on_state λ t s. start_provider_call t s d.root; head_of started

  abbrev pub head_after : PhaseVerdict → Action d (Head H)
  head_after (returns o) = pure (leaves o)
  head_after breaks = start_call
  head_after continues = start_call

  unfoldable pub step_head : Action d (Head H)
  unfolding stop_now admit_steering sync start_provider_call ask_verdict is_idle
  step_head = do
    stop ← ask d.services.is_cancelled
    when stop stop_now
    on_state λ t s. admit_steering t s
    sync
    s ← get_state
    verdict ← ask λ w. d.services.on_step_head w s.step
    head_after verdict

  abbrev pub use_summary : ℕ → String ⊎ String → Action d (Unit {0})
  use_summary cut (inl why) = emit_error "compaction-refused" why
  use_summary cut (inr text) = set_state λ s. apply_summary s cut text

  -- The race that the caller's token won drops the call.
  abbrev pub settle_summary : ℕ → Option (LlmError H ⊎ Response H) → Action d (Unit {0})
  settle_summary cut none = pure tt
  settle_summary cut (some answer) = do
    set_state λ s. record_some s (answer_usage answer)
    use_summary cut (summary_of d.debug answer)

  abbrev pub summarize : Option (List CompactMessage × ℕ) → Action d (Unit {0})
  summarize none = pure tt
  summarize (some (view, cut)) = do
    set_state λ s. record s { compacted_turn = some s.turn }
    answer ← ask λ w.
        d.services.complete w d.setting.config.model (summary_request d.setting.config view cut)
    settle_summary cut answer

  unfoldable pub checkpoint : Action d (Unit {0})
  unfolding due_cut summary_request summary_of apply_summary record_usage emit_error billed_usage
  checkpoint = do s ← get_state; summarize (due_cut d.from_value s d.setting.config)

  unfoldable pub build : Action d (Request H)
  unfolding build_request definitions
  build c =
      let (s, req) =
        build_request d.from_value (d.services.files c.world) (definitions d.registry) c.state
          d.setting.config in
      (next req, record c { state = s })

  abbrev pub settle_failed : PhaseVerdict → Action d (Unit {0})
  settle_failed (returns o) = halt o
  settle_failed breaks = done_if_parked
  settle_failed continues = done_if_parked

  abbrev pub root_cancelled : Action d Bool
  root_cancelled c = (next (d.services.token_cancelled c.world d.root), c)

  unfoldable pub settle_provider_error : LlmError H → Action d (Unit {0})
  unfolding error_text finish_provider_msg sync emit_error ask_verdict done_if_parked
  settle_provider_error e = do
    stop ← ask d.services.is_cancelled
    root_stop ← root_cancelled
    when (is_exhausted e) (set_state λ s. record s { step_retries = 0 })
    on_state λ t s.
        finish_provider_msg t s
          (failed_call s.turn (error_text d.debug e) (stop || root_stop) (error_usage e))
    sync
    emit_error "provider-failed" (error_text d.debug e)
    s ← get_state
    if s.call_model then pure tt else (ask_verdict >>= settle_failed)

  abbrev pub settle_here : Action d (Unit {0})
  settle_here = do s ← get_state; settle_terminal s.turn

  unfoldable pub settle_declare : Action d (Unit {0})
  unfolding declare_wins settle_terminal
  settle_declare = do
    wins ← on_state λ t s. (s, declare_wins t s)
    if wins then halt done else settle_here

  unfoldable pub settle_claim : H.Token → ClaimOutcome H → Action d (Unit {0})
  unfolding sync settle_declare settle_terminal close ask_verdict emit_tool_starts tool_batch
      proof_gate
  settle_claim turn_token verify_hold = sync
  settle_claim turn_token declared = settle_declare
  settle_claim turn_token (truncated n) = settle_here
  settle_claim turn_token refused = settle_here
  settle_claim turn_token (hard_exit label) = do
    set_state λ s. record s { fatal_error = some label; gate = close s.gate label }
    verdict ← ask_verdict
    or_return verdict
  settle_claim turn_token (dispatch calls) = do
    emit_tool_starts calls
    report ← tool_batch calls turn_token
    proof_gate report

  -- The hold is consumed and the anchor is set: the request has reached the provider.
  abbrev pub note_sent : Response H → Request H → Action d (Unit {0})
  note_sent resp req = set_state λ s.
      let v = s.verify in
      record s {
        verify = record v { hold = none };
        anchor =
            some (record { messages = length req.messages - 1; input_tokens = resp.usage.input });
      }

  unfoldable pub settle_success : Response H → Request H → H.Token → Action d (Unit {0})
  unfolding billed_usage finish_provider_msg step_claim sync emit_message_frames settle_claim
  settle_success resp req turn_token = do
    note_sent resp req
    on_state λ t s.
        finish_provider_msg t s (settled s.turn resp.message resp.stop (some (billed_usage resp)))
    outcome ← on_state λ t s. step_claim t d.setting.serde s resp.message resp.stop d.setting.config
    sync
    emit_message_frames resp.message (some (billed_usage resp))
    settle_claim turn_token outcome

  abbrev pub settle_completed :
      Request H → H.Token → Option (LlmError H ⊎ Response H) → Action d (Unit {0})
  settle_completed req turn_token none = do
    cancel_turn turn_token
    settle_provider_error (metered cancelled none false)
  settle_completed req turn_token (some (inl e)) = settle_provider_error e
  settle_completed req turn_token (some (inr resp)) = settle_success resp req turn_token

  unfoldable pub provider_round : H.Token → Action d (Unit {0})
  unfolding checkpoint cancel_turn build settle_provider_error settle_success
  provider_round turn_token = do
    stop ← ask d.services.is_cancelled
    when (not stop) checkpoint
    stopped ← ask d.services.is_cancelled
    when stopped (cancel_turn turn_token)
    req ← build
    completed ← ask λ w. d.services.complete w d.setting.config.model req
    settle_completed req turn_token completed
