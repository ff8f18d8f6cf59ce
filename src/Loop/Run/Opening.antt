-- ===== src/Loop/Run/Opening.antt =====
-- crates/agent-loop/src/run.rs: `open_run`.
use rof_harness.Base.{ℕ, String, Option, none, some, List, [], ◌∷◌, is_empty, ◌==◌, if◌then◌else◌}
use rof_harness.Base.Text.{◌<>◌, decimal}
use rof_harness.Base.Chars.{join}
use rof_harness.Host.{Host}
use rof_harness.Event.Types.{run_start, turn_start}
use rof_harness.Log.Types.{IoResult, ok, err, header, log_version}
use rof_harness.Log.Writer.{open_log}
use rof_harness.Loop.Request.{pin_snapshot}
use rof_harness.Loop.Run.{
  Driver, Ctx, Action, Flow, next, exit, pure, halt, ask, get_state, on_state, ◌>>=◌, ◌>>◌,
}
use rof_harness.Loop.Run.Closing.{sync, finish, record_row, emit_run_end}
use rof_harness.Loop.Run.Frames.{emit, fresh_id}
use rof_harness.Loop.State.{apply_input}
use rof_harness.Loop.Types.{Input, Outcome, failed, log, snapshot, input}

module _ {H : Host} {d : Driver H} where
  -- What an exit still has to do.
  unfoldable pub close_exit : {A : Type 0} → Flow A × Ctx d → Flow A × Ctx d
  unfolding finish
  close_exit (next a, c) = (next a, c)
  close_exit (exit o, c) = (exit o, (finish o c).1)

  -- A step whose failure ends the run through `finish`.
  unfoldable pub or_finish : {A : Type 0} → Action d A → Action d A
  unfolding close_exit
  or_finish m c = close_exit (m c)

  -- An exit that has emitted its own end.
  unfoldable pub exit_unlogged : Outcome → Action d (Unit {0})
  unfolding emit_run_end
  exit_unlogged o = do emit_run_end o; halt o

  abbrev pub set_writer : IoResult (Option (List ℕ)) → Action d (Unit {0})
  set_writer (err e) = exit_unlogged (failed log ("log open: " <> e))
  set_writer (ok file) = λ c. (next tt, record c { writer = some (open_log file) })

  unfoldable pub open_writer : Option String → Action d (Unit {0})
  unfolding exit_unlogged open_log
  open_writer none c = (next tt, c)
  open_writer (some path) c = set_writer (d.services.read_log c.world path) c

  unfoldable pub write_header : Action d (Unit {0})
  unfolding or_finish record_row ◌<>◌ decimal
  write_header c =
      if is_empty c.state.items
      then or_finish
          (record_row
            (header log_version ("run-" <> decimal c.run_id) d.workdir d.setting.config.model) none)
          c
      else (next tt, c)

  -- An `io::Result` of the snapshot service, whose error ends the run.
  abbrev pub or_fail : String → IoResult (Unit {0}) → Action d (Unit {0})
  or_fail what (ok _) = pure tt
  or_fail what (err e) = halt (failed snapshot (what <> ": " <> e))

  unfoldable pub ensure_tree : Action d (Unit {0})
  ensure_tree = do r ← ask d.services.ensure; or_fail "snapshot ensure" r

  unfoldable pub seed_input : Input → Action d (Unit {0})
  unfolding or_finish apply_input sync emit
  seed_input i = do
    before ← get_state
    on_state λ t s. (apply_input t s i, tt)
    or_finish sync
    after ← get_state
    if after.turn == before.turn then pure tt else emit (turn_start after.turn)

  unfoldable pub seed_inputs : List Input → Action d (Unit {0})
  unfolding seed_input
  seed_inputs [] = pure tt
  seed_inputs (i ∷ is) = do seed_input i; seed_inputs is

  -- The file map and the pins freeze before the first request.
  unfoldable pub freeze_prefix : Action d (Unit {0})
  unfolding pin_snapshot join
  freeze_prefix c =
      let fs = d.services.files c.world in
      let s = c.state in
      (
        next tt,
        record c {
          state = record s {
            file_map = some (join "\n" (fs.file_map 200));
            pins = some (pin_snapshot fs d.setting.config.context_files);
          };
        },
      )

  unfoldable pub start_run : Action d (Unit {0})
  unfolding fresh_id emit
  start_run = do
    id ← fresh_id
    λ c. (next tt, record c { run_id = id })
    emit (run_start id d.setting.config.goal)

  unfoldable pub need_input : Action d (Unit {0})
  unfolding exit_unlogged
  need_input = do
    s ← get_state
    if s.turn == 0 then exit_unlogged (failed input "run needs at least one input") else pure tt

  unfoldable pub behind_header : List Input → Action d (Unit {0})
  unfolding or_finish ensure_tree sync seed_inputs need_input freeze_prefix
  behind_header inputs = do
    or_finish ensure_tree
    or_finish sync
    seed_inputs inputs
    need_input
    freeze_prefix

  -- An exit is what the source returns as `Some`, its closing done.
  unfoldable pub open_run : List Input → Action d (Unit {0})
  unfolding start_run open_writer write_header behind_header
  open_run inputs = do
    start_run
    open_writer d.setting.config.log_path
    write_header
    behind_header inputs
