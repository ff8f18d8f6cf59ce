-- ===== src/Loop/Run/Closing.antt =====
-- crates/agent-loop/src/run.rs: the durable rows and the terminal frames.
use rof_harness.Base.{
  ℕ, ◌+◌, Bool, true, false, ◌&&◌, ◌||◌, Option, none, some, List, [], ◌∷◌, ◌++◌, length, leb, ◌==◌,
  if◌then◌else◌,
}
use rof_harness.Host.{Host}
use rof_harness.Context.Compact.{drop}
use rof_harness.Event.Types.{AgentEvent, run_end, turn_end, turn_start}
use rof_harness.Log.Types.{Item, ItemKind, IoResult, ok, err}
use rof_harness.Log.Types
use rof_harness.Log.Writer.{lf}
use rof_harness.Loop.Report.{event_outcome, hopped_turn_reason}
use rof_harness.Loop.Run.{
  Driver, Ctx, Action, Flow, next, exit, pure, halt, get_state, set_state, on_state, ◌>>=◌, ◌>>◌,
}
use rof_harness.Loop.Run.Frames.{emit}
use rof_harness.Loop.State.{append_to, is_idle, is_idle_phase, turn_id}
use rof_harness.Loop.Terminate.{
  terminate, outcome_log_reason, stick_turn_reason, turn_end_reason_to_event,
}
use rof_harness.Loop.Types.{Outcome, done, failed, log, PhaseVerdict, returns, breaks, continues}

-- How far the writing of the pending rows came.
pub record Progress (W : Type 0) : Type 0 where
  pub file : List ℕ
  pub done : ℕ
  pub failed : Bool
  pub world : W

abbrev pub log_failure : Outcome
log_failure = failed log "log append failed"

module _ {H : Host} (d : Driver H) where
  -- `LogWriter::append` of one row: its bytes and LF in one write.
  abbrev pub write_row :
      d.services.World → List ℕ → IoResult (List ℕ) → List ℕ × Bool × d.services.World
  write_row w file (err e) = (file, false, w)
  write_row w file (ok body) = d.services.write_all w file (body ++ lf ∷ [])

  -- The loop over the pending rows, which stops at the first that fails.
  unfoldable pub write_rows :
      d.services.World → List ℕ → ℕ → List (Item H) → Progress d.services.World
  write_rows w file n [] = record { file = file; done = n; failed = false; world = w }
  write_rows w file n (i ∷ is) =
      let (file', fine, w') = write_row w file (d.codec.render i) in
      let rest = write_rows w' file' (n + 1) is in
      if fine then rest else record { file = file'; done = n; failed = true; world = w' }

module _ {H : Host} {d : Driver H} where
  abbrev pub after_write : Ctx d → Progress d.services.World → Flow (Unit {0}) × Ctx d
  after_write c p = (
    if p.failed then exit log_failure else next tt,
    record c { writer = some p.file; synced = p.done; world = p.world },
  )

  abbrev pub sync_to : Option (List ℕ) → Action d (Unit {0})
  sync_to none c = (next tt, c)
  sync_to (some file) c =
      if leb (length c.state.items) c.synced
      then (next tt, c)
      else after_write c (write_rows d c.world file c.synced (drop c.synced c.state.items))

  unfoldable pub sync : Action d (Unit {0})
  unfolding write_rows
  sync c = sync_to c.writer c

  -- `let _ = self.sync().await`.
  unfoldable pub try_sync : Action d (Unit {0})
  unfolding sync
  try_sync c = (next tt, (sync c).1)

  abbrev pub append_row : ItemKind H → Action d (Unit {0})
  append_row kind = on_state λ t s. (record s { items = append_to t.system s.items kind }, tt)

  unfoldable pub emit_run_end : Outcome → Action d (Unit {0})
  unfolding emit event_outcome
  emit_run_end outcome = emit (run_end (event_outcome outcome) [])

  unfoldable pub finish : Outcome → Action d Outcome
  unfolding outcome_log_reason stick_turn_reason append_to turn_id try_sync emit emit_run_end
      turn_end_reason_to_event
  finish outcome = do
    s ← get_state
    let reason = outcome_log_reason outcome s.turn_reason
    set_state λ s. stick_turn_reason s reason
    append_row (Types.turn_end (turn_id s.turn) reason)
    try_sync
    emit (turn_end s.turn (turn_end_reason_to_event reason) s.usage_totals)
    emit_run_end outcome
    pure outcome

  abbrev pub emit_some : Option (AgentEvent H) → Action d (Unit {0})
  emit_some none = pure tt
  emit_some (some frame) = emit frame

  unfoldable pub record_row : ItemKind H → Option (AgentEvent H) → Action d (Unit {0})
  unfolding append_to sync emit
  record_row kind frame = do append_row kind; sync; emit_some frame

  unfoldable pub close_hop : ℕ → Action d (Unit {0})
  unfolding sync emit hopped_turn_reason
  close_hop before = do
    s ← get_state
    if s.turn == before || before == 0 then pure tt else (do
      sync
      emit (turn_end before (hopped_turn_reason s before) s.usage_totals)
      emit (turn_start s.turn))

  unfoldable pub ask_verdict : Action d PhaseVerdict
  unfolding terminate
  ask_verdict = on_state λ t s. terminate t d.setting.config s

  -- Parked idle without input is done.
  unfoldable pub done_if_parked : Action d (Unit {0})
  unfolding is_idle
  done_if_parked = do
    s ← get_state
    if is_idle_phase s.phase && is_idle s then halt done else pure tt

  abbrev pub settle_verdict : ℕ → PhaseVerdict → Action d (Unit {0})
  settle_verdict before (returns o) = halt o
  settle_verdict before breaks = do close_hop before; done_if_parked
  settle_verdict before continues = do close_hop before; done_if_parked

  unfoldable pub settle_terminal : ℕ → Action d (Unit {0})
  unfolding ask_verdict close_hop done_if_parked
  settle_terminal before = do verdict ← ask_verdict; settle_verdict before verdict
