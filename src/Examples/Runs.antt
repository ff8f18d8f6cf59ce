-- ===== src/Examples/Runs.antt =====
-- The theorems on the loop, at short runs.
use rof_harness.Base.{
  ◌||◌, str_eq_refl, ℕ, suc, ◌+◌, ◌≤◌, ◌≡◌, ◌↔◌, ◌⊎◌, refl, true, false, none, some, List, [], ◌∷◌,
  arith, length, is_some,
}
use rof_harness.Host.{plain_host}
use rof_harness.Budget.Guard.{exceeded, BudgetExceeded, steps, halt_name}
use rof_harness.Log.Types.{ok, TurnEndReason}
use rof_harness.Log.Reader.{validate_log}
use rof_harness.Provider.{AssistantMessage, ToolCallRef, StopReason}
use rof_harness.Tools.{ToolResult}
use rof_harness.Loop.Admission.{IsStarted, single_flight}
use rof_harness.Loop.Claim.{Serde, step_claim, record_tool_result}
use rof_harness.Loop.Draining.{
  IsDone, terminate_done_iff, hard_stop_drains, terminate_ends_iff, IsFailing, IsHalting,
  IsCancelling,
}
use rof_harness.Loop.Gate
use rof_harness.Budget.Guard
use rof_harness.Budget.Config.{config_for}
use rof_harness.Loop.Gate.{is_open}
use rof_harness.Loop.Invariant.{perform_all-Inv}
use rof_harness.Loop.Invariant.Bounds.{Inv}
use rof_harness.Loop.Open.{crash_repair_closes, record_tool_result_once, truncated_opens_nothing}
use rof_harness.Loop.Ops.{
  Op, inputs, admits, starts, lands, claims, records, settles_tail, terminates, Setting, perform,
  perform_all,
}
use rof_harness.Loop.Provider.{start_provider_call}
use rof_harness.Loop.Report.{hopped_turn_reason, hop_closes_turn}
use rof_harness.Loop.Terminate.{poll_followups, turn_end_reason_to_event, first_reason}
use rof_harness.Loop.Retries.{Failure, fail_all, retries_exhausted}
use rof_harness.Loop.Rows.{perform_all-validate_log}
use rof_harness.Loop.State.{LoopState, new, open_tools}
use rof_harness.Loop.Stopping.{new-Inv, no_call_after_stop}
use rof_harness.Loop.Terminate.{terminate, crash_repair}
use rof_harness.Loop.Types.{
  Clock, RunConfig, gross, full, user, Input, settled, returns, breaks, cancelled, done, halted,
  failed, provider,
}
use rof_harness.Examples.OneLine.{first}

abbrev config : RunConfig plain_host
config = record {
  goal = "g";
  model = "m";
  max_tokens = 100;
  context_budget_chars = 1000;
  context_files = [];
  drain_timeout = 5;
  log_path = none;
  incentives = full;
  proof_cmd = none;
  compaction = record { enabled = false; frac = 1; keep_tokens = 10 };
  thinking_keep = 1;
  collapse_hysteresis = 0;
  budget_shape = gross;
}

abbrev serde : Serde plain_host
serde = record { to_value = λ m. ok m.content; marker = λ text. text }

abbrev pub setting : Setting plain_host
setting = record { config = config; serde = serde }

abbrev pub at : ℕ → Clock
at n = record { instant = n; system = n }

abbrev fresh : LoopState plain_host
fresh = new 0

abbrev with_header : LoopState plain_host
with_header = record fresh { items = first ∷ [] }

abbrev call_a : ToolCallRef plain_host
call_a = record { id = "a"; name = "edit"; args = "x" }

abbrev asks_tool : AssistantMessage plain_host
asks_tool = record { content = "go"; tool_calls = call_a ∷ []; thinking = none }

abbrev edited : ToolResult
edited = record { content = "edited"; is_error = false }

abbrev ops : List (Clock × Op plain_host)
ops =
    (at 1, inputs (user "hi"))
    ∷ (at 2, admits)
    ∷ (at 3, starts 7)
    ∷ (at 4, lands (settled 1 asks_tool StopReason.tool_use none))
    ∷ (at 5, claims asks_tool StopReason.tool_use)
    ∷ (at 6, records (record { call_id = "a"; result = edited }))
    ∷ (at 7, settles_tail)
    ∷ (at 8, terminates)
    ∷ []

perform_all-validate_log_example : validate_log (perform_all setting with_header ops).items ≡ ok tt
perform_all-validate_log_example =
    perform_all-validate_log setting with_header ops (refl, (refl, tt))

perform_all-Inv_example : Inv false (perform_all setting fresh ops)
perform_all-Inv_example = perform_all-Inv {shut = false} setting fresh ops (new-Inv plain_host 0)

abbrev stopped : LoopState plain_host
stopped = perform_all setting fresh ((at 0, inputs Input.stop_hard) ∷ [])

stopped-Inv : Inv false stopped
stopped-Inv =
    perform_all-Inv {shut = false} setting fresh ((at 0, inputs Input.stop_hard) ∷ [])
      (new-Inv plain_host 0)

stopped-stop : (is_some stopped.fatal_error || stopped.stop_hard) ≡ true
unfolding perform_all perform new
stopped-stop = refl

no_call_after_stop_example :
    start_provider_call (at 9) (perform_all setting stopped ops) 7
    ≡ (perform_all setting stopped ops, none)
no_call_after_stop_example =
    no_call_after_stop setting stopped ops (at 9) 7 stopped-Inv stopped-stop

abbrev latched : LoopState plain_host
latched = record fresh { call_model = true }

abbrev down : ℕ → Failure plain_host
down n = record { clock = at n; text = "down"; billed = none }

retries_exhausted_example :
    ((fail_all 7 latched (down 1 ∷ down 2 ∷ down 3 ∷ [])).fatal_error ≡ some "down")
    × (is_open (fail_all 7 latched (down 1 ∷ down 2 ∷ down 3 ∷ [])).gate ≡ false)
unfolding new
retries_exhausted_example =
    retries_exhausted 2 7 latched (down 1) (down 2 ∷ down 3 ∷ []) refl refl refl

terminate_done_iff_example :
    ((terminate (at 1) config fresh).1 ≡ returns done) ↔ IsDone (at 1) fresh
terminate_done_iff_example = terminate_done_iff (at 1) config fresh

abbrev stopping : LoopState plain_host
stopping = record latched { stop_hard = true }

hard_stop_drains_example :
    let (s', v) = terminate (at 1) config stopping in
    let w = (terminate (at 9) config s').1 in
    ((w ≡ breaks) ⊎ (w ≡ returns cancelled))
    × (1 + 5 ≤ 9 → w ≡ returns cancelled)
    × (stopping.in_flight ≡ none → open_tools stopping ≡ 0 → v ≡ returns cancelled)
unfolding new
hard_stop_drains_example = hard_stop_drains (at 1) (at 9) config stopping refl refl

abbrev tripped : BudgetExceeded
tripped = record { halt = steps; spent = 20; limit = 20 }

-- The sticky error of the turn, behind no hard stop, fatal error or tripped cap.
abbrev stuck : LoopState plain_host
stuck = record fresh { turn_reason = some (TurnEndReason.error "e") }

terminate_ends_iff_example :
    (((terminate (at 1) config stuck).1 ≡ returns (failed provider "e"))
      ↔ IsFailing (at 1) stuck "e")
    × (((terminate (at 1) config stuck).1 ≡ returns (halted "e")) ↔ IsHalting (at 1) stuck "e")
    × (((terminate (at 1) config stuck).1 ≡ returns cancelled) ↔ IsCancelling (at 1) config stuck)
terminate_ends_iff_example = terminate_ends_iff (at 1) config stuck "e"

abbrev open_a : LoopState plain_host
open_a = record fresh {
  tool_calls =
      ("a", record { name = "edit"; args = "x"; is_verification = false; result = none }) ∷ [];
}

crash_repair_closes_example :
    let (s', n) = crash_repair (at 1) open_a "crash" in
    (open_tools s' ≡ 0)
    × (n ≡ open_tools open_a)
    × (length s'.items ≡ length open_a.items + open_tools open_a)
    × ((crash_repair (at 2) s' "again").1 ≡ 0)
    × (length (crash_repair (at 2) s' "again").0.items ≡ length s'.items)
crash_repair_closes_example = crash_repair_closes (at 1) (at 2) open_a "crash" "again"

taken : (record_tool_result (at 1) open_a (record { call_id = "a"; result = edited })).1 ≡ true
unfolding record_tool_result
taken = ground (arith, str_eq_refl "a")

record_tool_result_once_example :
    let (s', _) = record_tool_result (at 1) open_a (record { call_id = "a"; result = edited }) in
    (suc (open_tools s') ≡ open_tools open_a)
    × (length s'.items ≡ suc (length open_a.items))
    × (record_tool_result (at 2) s' (record { call_id = "a"; result = edited }) ≡ (s', false))
record_tool_result_once_example =
    record_tool_result_once (at 1) (at 2) open_a "a" edited edited taken

truncated_opens_nothing_example :
    open_tools (step_claim (at 1) serde fresh asks_tool StopReason.max_tokens config).0
    ≤ open_tools fresh
truncated_opens_nothing_example = truncated_opens_nothing (at 1) serde fresh asks_tool config

started : (start_provider_call (at 1) fresh 7).1 ≡ some 8
unfolding start_provider_call new Gate.new Guard.peek Guard.new config_for
started = refl

single_flight_example :
    IsStarted fresh (start_provider_call (at 1) fresh 7).0 8
    × (start_provider_call (at 2) (start_provider_call (at 1) fresh 7).0 9
        ≡ ((start_provider_call (at 1) fresh 7).0, none))
single_flight_example = single_flight (at 1) (at 2) fresh 7 9 8 started

hop_closes_turn_example :
    hopped_turn_reason (poll_followups (at 1) fresh ("next" ∷ [])).0 fresh.turn
    ≡ turn_end_reason_to_event (first_reason fresh.turn_reason TurnEndReason.completed)
hop_closes_turn_example = hop_closes_turn (at 1) fresh "next" []
