-- ===== src/Loop/Run/Follows/Rounds.antt =====
-- A round of crates/agent-loop/src/run.rs moves the state by operations.
use rof_harness.Base.{ℕ, String, ◌||◌, Option, none, some, List, ◌⊎◌, inl, inr}
use rof_harness.Host.{Host}
use rof_harness.Context.Compact.{CompactMessage}
use rof_harness.Provider.{Response, Usage, billed_usage}
use rof_harness.Provider.Errors.{LlmError}
use rof_harness.Provider.Request.{Request}
use rof_harness.Loop.Ops.{
  admits, starts, lands, claims, spends_retries, exits, bills, books, Setting, perform, books_of,
}
use rof_harness.Loop.Provider.{record_some}
use rof_harness.Loop.Request.{build_request, freeze}
use rof_harness.Loop.Request.Compaction.{apply_summary, summary_of, answer_usage, error_usage}
use rof_harness.Loop.Run.{Driver}
use rof_harness.Loop.Run.Follows.{
  Reaches, stays, moves, epoch, Follows, bind-Follows, pure-Follows, halt-Follows,
  get_state-Follows, ask-Follows, on_state-Follows, set_state-Follows, when-Follows, if-Follows,
  sync-Follows, ask_verdict-Follows, done_if_parked-Follows, settle_terminal-Follows,
  emit_error-Follows, emit_message_frames-Follows, emit_tool_starts-Follows,
}
use rof_harness.Loop.Run.Follows.Batches.{
  stop_now-Follows, cancel_turn-Follows, tool_batch-Follows, proof_gate-Follows, or_return-Follows,
}
use rof_harness.Loop.Run.Round.{
  head_of_verdict, head_of, start_call, head_after, step_head, use_summary, settle_summary,
  summarize, checkpoint, build, settle_failed, settle_provider_error, settle_here, settle_declare,
  settle_claim, note_sent, settle_success, settle_completed, provider_round, error_text,
}
use rof_harness.Loop.State.{LoopState}
use rof_harness.Loop.Types.{
  PhaseVerdict, returns, breaks, continues, ClaimOutcome, dispatch, truncated, declared,
  verify_hold, refused, hard_exit, failed_call, settled,
}

module _ {H : Host} (env : Setting H) where
  record_some-Reaches : (s : LoopState H) (u : Option (Usage H)) → Reaches env s (record_some s u)
  unfolding perform
  record_some-Reaches s none = stays
  record_some-Reaches s (some u) = moves stays epoch (bills u)

module _ {H : Host} {d : Driver H} where
  head_of_verdict-Follows : (v : PhaseVerdict) → Follows (head_of_verdict {d = d} v)
  head_of_verdict-Follows (returns o) = pure-Follows _
  head_of_verdict-Follows breaks = pure-Follows _
  head_of_verdict-Follows continues = bind-Follows get_state-Follows λ s. pure-Follows _

  head_of-Follows : (o : Option H.Token) → Follows (head_of {d = d} o)
  head_of-Follows (some token) = pure-Follows _
  head_of-Follows none = bind-Follows ask_verdict-Follows head_of_verdict-Follows

  start_call-Follows : Follows (start_call {d = d})
  unfolding perform
  start_call-Follows =
      bind-Follows (on_state-Follows _ λ t s. moves stays t (starts d.root)) head_of-Follows

  head_after-Follows : (v : PhaseVerdict) → Follows (head_after {d = d} v)
  head_after-Follows (returns o) = pure-Follows _
  head_after-Follows breaks = start_call-Follows
  head_after-Follows continues = start_call-Follows

  pub step_head-Follows : Follows (step_head {d = d})
  unfolding step_head perform
  step_head-Follows = bind-Follows (ask-Follows _) λ stop.
      bind-Follows (when-Follows stop stop_now-Follows) λ _.
        bind-Follows (on_state-Follows _ λ t s. moves stays t admits) λ _.
          bind-Follows sync-Follows
            λ _. bind-Follows get_state-Follows λ s. bind-Follows (ask-Follows _) head_after-Follows

  use_summary-Follows : (cut : ℕ) (r : String ⊎ String) → Follows (use_summary {d = d} cut r)
  unfolding perform apply_summary
  use_summary-Follows cut (inl why) = emit_error-Follows _ why
  use_summary-Follows cut (inr text) = set_state-Follows _ λ s. moves stays epoch (
      books
        (record (books_of s) { checkpoint = (apply_summary s cut text).checkpoint; anchor = none }))

  settle_summary-Follows :
      (cut : ℕ) (r : Option (LlmError H ⊎ Response H)) → Follows (settle_summary {d = d} cut r)
  settle_summary-Follows cut none = pure-Follows tt
  settle_summary-Follows cut (some answer) =
      bind-Follows (set_state-Follows _ λ s. record_some-Reaches d.setting s (answer_usage answer))
        λ _. use_summary-Follows cut (summary_of d.debug answer)

  summarize-Follows : (o : Option (List CompactMessage × ℕ)) → Follows (summarize {d = d} o)
  unfolding perform
  summarize-Follows none = pure-Follows tt
  summarize-Follows (some (view, cut)) =
      bind-Follows
        (set_state-Follows _
          λ s. moves stays epoch (books (record (books_of s) { compacted_turn = some s.turn })))
        λ _. bind-Follows (ask-Follows _) (settle_summary-Follows cut)

  checkpoint-Follows : Follows (checkpoint {d = d})
  unfolding checkpoint
  checkpoint-Follows = bind-Follows get_state-Follows λ s. summarize-Follows _

  build-Follows : Follows (build {d = d})
  unfolding build build_request freeze perform
  build-Follows = record {
    follow = λ c.
        let fs = d.services.files c.world in
        moves stays epoch (
          books (record (books_of c.state) {
            file_map = (freeze fs c.state d.setting.config).file_map;
            pins = (freeze fs c.state d.setting.config).pins;
          }));
  }

  settle_failed-Follows : (v : PhaseVerdict) → Follows (settle_failed {d = d} v)
  settle_failed-Follows (returns o) = halt-Follows o
  settle_failed-Follows breaks = done_if_parked-Follows
  settle_failed-Follows continues = done_if_parked-Follows

  settle_provider_error-Follows : (e : LlmError H) → Follows (settle_provider_error {d = d} e)
  unfolding settle_provider_error perform
  settle_provider_error-Follows e = bind-Follows (ask-Follows _) λ stop.
      bind-Follows (record { follow = λ c. stays })
        λ root_stop.
          bind-Follows (when-Follows _ (set_state-Follows _ λ s. moves stays epoch spends_retries))
            λ _.
              bind-Follows
                (on_state-Follows _ λ t s. moves stays t (
                  lands (
                    failed_call s.turn (error_text d.debug e) (stop || root_stop) (error_usage e))))
                λ _. bind-Follows sync-Follows λ _. bind-Follows (emit_error-Follows _ _) λ _.
                  bind-Follows get_state-Follows λ s.
                    if-Follows s.call_model (pure-Follows tt)
                      (bind-Follows ask_verdict-Follows settle_failed-Follows)

  settle_here-Follows : Follows (settle_here {d = d})
  settle_here-Follows = bind-Follows get_state-Follows λ s. settle_terminal-Follows s.turn

  settle_declare-Follows : Follows (settle_declare {d = d})
  unfolding settle_declare
  settle_declare-Follows =
      bind-Follows (on_state-Follows _ λ t s. stays)
        λ wins. if-Follows wins (halt-Follows _) settle_here-Follows

  settle_claim-Follows :
      (token : H.Token) (o : ClaimOutcome H) → Follows (settle_claim {d = d} token o)
  unfolding settle_claim perform
  settle_claim-Follows token verify_hold = sync-Follows
  settle_claim-Follows token declared = settle_declare-Follows
  settle_claim-Follows token (truncated n) = settle_here-Follows
  settle_claim-Follows token refused = settle_here-Follows
  settle_claim-Follows token (hard_exit label) =
      bind-Follows (set_state-Follows _ λ s. moves stays epoch (exits label))
        λ _. bind-Follows ask_verdict-Follows or_return-Follows
  settle_claim-Follows token (dispatch calls) =
      bind-Follows (emit_tool_starts-Follows calls)
        λ _. bind-Follows (tool_batch-Follows calls token) proof_gate-Follows

  note_sent-Follows : (resp : Response H) (req : Request H) → Follows (note_sent {d = d} resp req)
  unfolding perform
  note_sent-Follows resp req =
      set_state-Follows _
        λ s. moves stays epoch (books (record (books_of s) { hold = none; anchor = some _ }))

  settle_success-Follows :
      (resp : Response H) (req : Request H) (token : H.Token)
      → Follows (settle_success {d = d} resp req token)
  unfolding settle_success perform
  settle_success-Follows resp req token = bind-Follows (note_sent-Follows resp req) λ _.
      bind-Follows
        (on_state-Follows _ λ t s.
          moves stays t (lands (settled s.turn resp.message resp.stop (some (billed_usage resp)))))
        λ _.
          bind-Follows (on_state-Follows _ λ t s. moves stays t (claims resp.message resp.stop))
            λ outcome. bind-Follows sync-Follows λ _.
              bind-Follows (emit_message_frames-Follows resp.message (some (billed_usage resp)))
                λ _. settle_claim-Follows token outcome

  settle_completed-Follows :
      (req : Request H) (token : H.Token) (r : Option (LlmError H ⊎ Response H))
      → Follows (settle_completed {d = d} req token r)
  settle_completed-Follows req token none =
      bind-Follows (cancel_turn-Follows token) λ _. settle_provider_error-Follows _
  settle_completed-Follows req token (some (inl e)) = settle_provider_error-Follows e
  settle_completed-Follows req token (some (inr resp)) = settle_success-Follows resp req token

  pub provider_round-Follows : (token : H.Token) → Follows (provider_round {d = d} token)
  unfolding provider_round
  provider_round-Follows token = bind-Follows (ask-Follows _) λ stop.
      bind-Follows (when-Follows _ checkpoint-Follows) λ _. bind-Follows (ask-Follows _) λ stopped.
        bind-Follows (when-Follows stopped (cancel_turn-Follows token)) λ _.
          bind-Follows build-Follows
            λ req. bind-Follows (ask-Follows _) (settle_completed-Follows req token)
