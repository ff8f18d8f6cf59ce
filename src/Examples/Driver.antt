-- ===== src/Examples/Driver.antt =====
-- The theorems on the driver, at a provider that answers at once and a disk that takes every write.
use rof_harness.Base.{
  length, ◌++◌, ℕ, ◌+◌, ◌≤◌, ◌<◌, ◌≡◌, ◌⊎◌, inr, refl, true, false, none, some, List, [], ◌∷◌, ◌++◌,
  arith, inr,
}
use rof_harness.Host.{plain_host}
use rof_harness.Bets.{committed}
use rof_harness.Event.Emitter
use rof_harness.Event.Emitter.{emit_all}
use rof_harness.Event.Types.{run_end, turn_end}
use rof_harness.Log.Types.{Codec, ok, err, Item, input, external}
use rof_harness.Log.Types
use rof_harness.Log.Reader.{validate_log}
use rof_harness.Log.Writer.{append_all, append}
use rof_harness.Provider.{Response, stop, Usage}
use rof_harness.Registry.{allow}
use rof_harness.Loop.Ops.{perform_all, Op}
use rof_harness.Loop.Report.{event_outcome}
use rof_harness.Loop.Run.{Services, Driver, Ctx, next, exit}
use rof_harness.Loop.Run.Closing.{sync, finish, log_failure}
use rof_harness.Loop.Run.Drive.{run}
use rof_harness.Loop.Run.Durable.{sync-bounds, sync-append_all, finish_lem}
use rof_harness.Loop.Run.Follows.Whole.{run-perform_all}
use rof_harness.Loop.Run.Valid.{run-validate_log}
use rof_harness.Loop.State.{new, append_to, turn_id}
use rof_harness.Loop.Terminate.{outcome_log_reason, turn_end_reason_to_event}
use rof_harness.Loop.Types.{Clock, Outcome, done, continues, user}
use rof_harness.Examples.OneLine.{first}
use rof_harness.Examples.Runs.{setting, at}

abbrev no_usage : Usage plain_host
no_usage = record {
  input = 10;
  output = 5;
  cache_read = 0;
  cache_write = 0;
  reasoning = none;
  cost_usd = none;
}

abbrev answer : Response plain_host
answer = record {
  message = record { content = "done"; tool_calls = []; thinking = none };
  stop = stop;
  usage = no_usage;
  latency_ms = 1;
  attempts = 1;
  raw_stop_reason = none;
  retry_usage = none;
}

-- The world is the number of calls made of it.
abbrev services : Services plain_host
services = record {
  World = ℕ;
  clock = λ w. (at w, w + 1);
  is_cancelled = λ w. (false, w);
  token_cancelled = λ w token. false;
  cancel_token = λ w token. w;
  read_log = λ w path. ok none;
  write_all = λ w file bytes. (file ++ bytes, true, w + 1);
  complete = λ w model req. (some (inr answer), w + 1);
  execute = λ w tool inv token.
      (some (inr (record { content = "ran"; truncated = false; success = true })), w + 1);
  on_step_head = λ w step. (continues, w);
  on_step = λ w. (continues, w);
  on_post_batch = λ w claim hunks. (committed, w);
  Diff = Unit {0};
  ensure = λ w. (ok tt, w);
  baseline = λ w. (ok tt, w);
  rollback = λ w. (ok tt, w);
  restore_hunks = λ w hunks. (ok tt, w);
  diff = λ w. (ok tt, w);
  patch = λ w d. (ok (record { text = ""; truncated = false }), w);
  prove = λ w bin args. (true, w);
  files = λ w. record { file_map = λ n. []; named_file_contents = λ path room. none };
}

abbrev codec : Codec plain_host
codec = record { render = λ i. ok (7 ∷ []); parse = λ bytes. err "none" }

abbrev driver : Driver plain_host
driver = record {
  services = services;
  setting = setting;
  registry = record { tools = []; gate = λ agent tool args. allow };
  agent = "main";
  workdir = "/w";
  root = 0;
  codec = codec;
  from_value = λ v. ok (record { content = v; tool_calls = []; thinking = none });
  quote = λ s. s;
  debug = λ e. "error";
}

abbrev start : Ctx driver
start = record {
  state = new 0;
  emitter = Emitter.new;
  writer = none;
  synced = 0;
  synced_at = [];
  run_id = 0;
  world = 0;
}

-- One row waits for the sync.
abbrev pending : Ctx driver
pending =
    let s = new {H = plain_host} 0 in
    record start { state = record s { items = first ∷ [] }; writer = some (1 ∷ []) }

run-validate_log_example :
    validate_log (run {d = driver} 20 (user "go" ∷ []) start).1.state.items ≡ ok tt
unfolding new
run-validate_log_example = run-validate_log 20 (user "go" ∷ []) start tt

run-perform_all_example :
    (ops : List (Clock × Op plain_host)) × (perform_all setting start.state ops
      ≡ (run {d = driver} 20 (user "go" ∷ []) start).1.state)
run-perform_all_example = run-perform_all 20 (user "go" ∷ []) start

sync-bounds_example :
    let (r, c') = sync pending in
    (c'.state ≡ pending.state)
    × (0 ≤ c'.synced)
    × (c'.synced ≤ 1)
    × (r ≡ next tt → (pending.writer ≡ none) ⊎ (c'.synced ≡ 1))
    × ((o : Outcome) → r ≡ exit o → (o ≡ log_failure) × (c'.synced < 1))
sync-bounds_example = sync-bounds driver pending (omega arith)

sync-append_all_example :
    ((sync pending).0 ≡ next tt) × ((sync pending).1.writer ≡ some (1 ∷ 7 ∷ 10 ∷ []))
unfolding append_all append
sync-append_all_example =
    sync-append_all driver pending (1 ∷ []) (1 ∷ 7 ∷ 10 ∷ []) (λ w file bytes. (refl, refl)) refl
      (omega arith) refl

finish_lem_example :
    let s = pending.state in
    let reason = outcome_log_reason done s.turn_reason in
    let rows = append_to 0 s.items (Types.turn_end (turn_id s.turn) reason) in
    let (r, c') = finish done pending in
    (r ≡ next done)
    × (c'.state.items ≡ rows)
    × (c'.writer ≡ some (1 ∷ 7 ∷ 10 ∷ 7 ∷ 10 ∷ []))
    × (c'.synced ≡ length rows)
    × (c'.emitter
        ≡ emit_all pending.emitter (
            turn_end s.turn (turn_end_reason_to_event reason) s.usage_totals
            ∷ run_end (event_outcome done) []
            ∷ []))
    × (c'.synced_at ≡ pending.synced_at ++ length rows ∷ length rows ∷ [])
unfolding append_to append_all append
finish_lem_example =
    finish_lem driver done pending (1 ∷ []) (1 ∷ 7 ∷ 10 ∷ 7 ∷ 10 ∷ [])
      (λ w file bytes. (refl, refl)) refl (omega arith) refl
