-- ===== src/Loop/Run/Valid.antt =====
-- The log that a run of crates/agent-loop/src/run.rs leaves is one that its reader accepts.
use rof_harness.Base.{
  ℕ, ◌≡◌, refl, subst, sym, String, Option, none, some, List, [], ◌∷◌, is_empty, if◌then◌else◌,
}
use rof_harness.Host.{Host}
use rof_harness.Log.Types.{Item, IoResult, ok, err, header, log_version}
use rof_harness.Log.Reader.{validate_log}
use rof_harness.Log.Validity.{IsLog, validate_log_iff}
use rof_harness.Loop.Grows.{IsOpenLog, Grows-IsOpenLog}
use rof_harness.Loop.Rows.{perform_all-Grows}
use rof_harness.Loop.Run.{Driver, Ctx, Action, Flow, next, exit, flow, halt, on_state, ◌>>=◌}
use rof_harness.Loop.Directives.{next_emit_id}
use rof_harness.Loop.Run.Closing.{emit_run_end, record_row}
use rof_harness.Loop.Run.Frames.{emit, fresh_id}
use rof_harness.Loop.Run.Opening.{
  behind_header, exit_unlogged, set_writer, open_writer, write_header, start_run, open_run,
  or_finish,
}
use rof_harness.Loop.State.{LoopState, append_to}
use rof_harness.Loop.Run.Follows.{
  Reaches, Reaches-perform_all, Follows, bind-Follows, sync-Follows, pure-Follows,
}
use rof_harness.Loop.Run.Follows.Whole.{or_finish-Follows, behind_header-Follows, drive-Reaches}
use rof_harness.Loop.Run.Drive.{run, drive, after_open, shaped}
use rof_harness.Loop.Types.{Input}
use rof_harness.Loop.Ops.{Setting}
use rof_harness.Base.Text.{◌<>◌, decimal}

-- The first row is the Header.
header_row-IsOpenLog :
    (H : Host) (system : ℕ) (session cwd model : String)
    → IsOpenLog (append_to {H = H} system [] (header log_version session cwd model))
unfolding append_to
header_row-IsOpenLog H system session cwd model = (refl, (refl, tt))

module _ {H : Host} where
  IsOpenLog-IsLog : (is : List (Item H)) → IsOpenLog is → IsLog is
  IsOpenLog-IsLog [] h = tt
  IsOpenLog-IsLog (i ∷ is) h = h

  Reaches-valid :
      {env : Setting H} {s s' : LoopState H}
      → Reaches env s s'
      → IsOpenLog s.items
      → IsOpenLog s'.items
  Reaches-valid {env = env} r h =
      let (ops, e) = Reaches-perform_all r in
      subst (λ x. IsOpenLog x.items) e (Grows-IsOpenLog (perform_all-Grows env _ ops) h)

module _ {H : Host} {d : Driver H} where
  -- The answer satisfies a predicate on the items, or the exit leaves a log.
  abbrev Leaves : {A : Type 0} → (List (Item H) → Type 0) → Flow A × Ctx d → Type 0
  Leaves Q (next a, c) = Q c.state.items
  Leaves Q (exit o, c) = IsLog c.state.items

  flow-Leaves :
      {A B : Type 0} (P Q : List (Item H) → Type 0) (f : A → Action d B) (p : Flow A × Ctx d)
      → Leaves P p
      → ((a : A) (c : Ctx d) → P c.state.items → Leaves Q (f a c))
      → Leaves Q (flow f p)
  unfolding flow
  flow-Leaves P Q f (next a, c) h g = g a c h
  flow-Leaves P Q f (exit o, c) h g = h

  by_flow : {A : Type 0} (p : Flow A × Ctx d) → IsOpenLog p.1.state.items → Leaves IsOpenLog p
  by_flow (next a, c) h = h
  by_flow (exit o, c) h = IsOpenLog-IsLog c.state.items h

  Follows-Leaves :
      {A : Type 0} {m : Action d A}
      → Follows m
      → (c : Ctx d) → IsOpenLog c.state.items
      → Leaves IsOpenLog (m c)
  Follows-Leaves {m = m} f c h = by_flow (m c) (Reaches-valid (Follows.follow f c) h)

  Leaves-IsLog : {A : Type 0} (p : Flow A × Ctx d) → Leaves IsOpenLog p → IsLog p.1.state.items
  Leaves-IsLog (next a, c) h = IsOpenLog-IsLog c.state.items h
  Leaves-IsLog (exit o, c) h = h

  start_run-Leaves : (c : Ctx d) → IsLog c.state.items → Leaves IsLog (start_run c)
  unfolding start_run ◌>>=◌ flow fresh_id next_emit_id emit
  start_run-Leaves c h = h

  set_writer-Leaves :
      (r : IoResult (Option (List ℕ))) (c : Ctx d)
      → IsLog c.state.items
      → Leaves IsLog (set_writer r c)
  unfolding exit_unlogged ◌>>=◌ flow emit_run_end emit halt
  set_writer-Leaves (err e) c h = h
  set_writer-Leaves (ok file) c h = h

  open_writer-Leaves :
      (path : Option String) (c : Ctx d) → IsLog c.state.items → Leaves IsLog (open_writer path c)
  unfolding open_writer
  open_writer-Leaves none c h = h
  open_writer-Leaves (some path) c h = set_writer-Leaves (d.services.read_log c.world path) c h

  -- On an empty list the Header is appended before anything else is done.
  first_row-Leaves :
      (c : Ctx d) (session cwd model : String)
      → c.state.items ≡ []
      → Leaves IsOpenLog (or_finish (record_row (header log_version session cwd model) none) c)
  unfolding or_finish record_row ◌>>=◌ flow on_state
  first_row-Leaves c session cwd model e =
      let (t, w) = d.services.clock c.world in
      let s = c.state in
      let c' = record c {
        state = record s {
          items = append_to t.system s.items (header log_version session cwd model);
        };
        world = w;
      } in
      by_flow (or_finish (record_row (header log_version session cwd model) none) c) (
        Reaches-valid
          (Follows.follow (or_finish-Follows (bind-Follows sync-Follows λ _. pure-Follows tt)) c')
          (rw e (header_row-IsOpenLog H t.system session cwd model)))

  write_header-Leaves : (c : Ctx d) → IsLog c.state.items → Leaves IsOpenLog (write_header c)
  unfolding write_header
  write_header-Leaves c h = by_items c.state.items refl h
    where
      by_items :
          (is : List (Item H))
          → c.state.items ≡ is
          → IsLog is
          → Leaves IsOpenLog (
              if is_empty is
              then or_finish
                  (record_row
                    (header log_version
                      ("run-" <> decimal c.run_id)
                      d.workdir
                      d.setting.config.model)
                    none)
                  c
              else (next tt, c))
      by_items [] e h = first_row-Leaves c _ d.workdir d.setting.config.model e
      by_items (i ∷ is) e h = subst IsOpenLog (sym e) h

  bind-Leaves :
      {A B : Type 0} (P Q : List (Item H) → Type 0) (m : Action d A) (f : A → Action d B)
      (c : Ctx d)
      → Leaves P (m c)
      → ((a : A) (c : Ctx d) → P c.state.items → Leaves Q (f a c))
      → Leaves Q ((m >>= f) c)
  unfolding ◌>>=◌
  bind-Leaves P Q m f c h g = flow-Leaves P Q f (m c) h g

  abbrev headed : List Input → Action d (Unit {0})
  headed is = write_header >>= λ _. behind_header is

  headed-Leaves :
      (is : List Input) (c : Ctx d)
      → IsLog c.state.items
      → Leaves IsOpenLog ((write_header >>= λ _. behind_header is) c)
  headed-Leaves is c h =
      bind-Leaves IsOpenLog IsOpenLog write_header (λ _. behind_header is) c
        (write_header-Leaves c h) (λ _ c h. Follows-Leaves (behind_header-Follows is) c h)

  open_run-Leaves :
      (is : List Input) (c : Ctx d) → IsLog c.state.items → Leaves IsOpenLog (open_run is c)
  unfolding open_run
  open_run-Leaves is c h =
      let path = d.setting.config.log_path in
      bind-Leaves IsLog IsOpenLog start_run (λ _. open_writer path >>= λ _. headed is) c
        (start_run-Leaves c h)
        (λ _ c h.
          bind-Leaves IsLog IsOpenLog (open_writer path) (λ _. headed is) c
            (open_writer-Leaves path c h) (λ _ c h. headed-Leaves is c h))

  after_open-IsLog :
      (fuel : ℕ) (p : Flow (Unit {0}) × Ctx d)
      → Leaves IsOpenLog p
      → IsLog (after_open (drive fuel) p).1.state.items
  after_open-IsLog fuel (next u, c) h = IsOpenLog-IsLog _ (Reaches-valid (drive-Reaches fuel c) h)
  after_open-IsLog fuel (exit o, c) h = h

  -- From no items, or from those of a log that is resumed, a run leaves items that `validate_log`
  -- accepts: whatever the world answers, and after any number of rounds.
  pub run-validate_log :
      (fuel : ℕ) (is : List Input) (c : Ctx d)
      → IsLog c.state.items
      → validate_log (run fuel is c).1.state.items ≡ ok tt
  unfolding run
  run-validate_log fuel is c h =
      (validate_log_iff (run fuel is c).1.state.items).1
        (after_open-IsLog fuel (open_run is (shaped c)) (open_run-Leaves is (shaped c) h))
