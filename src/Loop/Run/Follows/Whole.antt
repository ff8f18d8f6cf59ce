-- ===== src/Loop/Run/Follows/Whole.antt =====
-- What holds of a whole run of crates/agent-loop/src/run.rs, whatever the provider, the tools, the
-- disk, the snapshot service, the bets hook and the clocks do.
use rof_harness.Base.{
  ℕ, zero, suc, ◌≡◌, subst, String, Bool, true, false, Option, none, some, List, [], ◌∷◌, is_empty,
  ◌==◌, if◌then◌else◌,
}
use rof_harness.Host.{Host}
use rof_harness.Log.Types.{IoResult, ok, err}
use rof_harness.Loop.Invariant.{perform_all-Inv}
use rof_harness.Loop.Invariant.Bounds.{Inv}
use rof_harness.Loop.Ops.{Op, inputs, books, perform, perform_all, books_of}
use rof_harness.Loop.Run.{Driver, Ctx, Action, Flow, next, exit}
use rof_harness.Loop.Run.Drive.{follow_head, lap, after_lap, after_open, shaped, drive, run}
use rof_harness.Loop.Run.Follows.{
  Reaches, stays, moves, epoch, Reaches-trans, Reaches-perform_all, Follows, bind-Follows,
  pure-Follows, halt-Follows, get_state-Follows, ask-Follows, on_state-Follows, if-Follows,
  emit-Follows, fresh_id-Follows, sync-Follows, finish-Follows, record_row-Follows,
  emit_run_end-Follows,
}
use rof_harness.Loop.Run.Follows.Batches.{or_fail-Follows}
use rof_harness.Loop.Run.Follows.Rounds.{step_head-Follows, provider_round-Follows}
use rof_harness.Loop.Run.Opening.{
  close_exit, behind_header, or_finish, exit_unlogged, set_writer, open_writer, write_header,
  ensure_tree, seed_input, seed_inputs, freeze_prefix, start_run, need_input, open_run,
}
use rof_harness.Loop.Run.Round.{Head, call, yields, again, leaves}
use rof_harness.Loop.State.{LoopState}
use rof_harness.Loop.Types.{Clock, Input, Outcome, failed, input}

module _ {H : Host} {d : Driver H} where
  or_finish-Reaches :
      {A : Type 0} {s : LoopState H} (p : Flow A × Ctx d)
      → Reaches d.setting s p.1.state
      → Reaches d.setting s (close_exit p).1.state
  unfolding close_exit
  or_finish-Reaches (next a, c) r = r
  or_finish-Reaches (exit o, c) r = Reaches-trans r (Follows.follow (finish-Follows o) c)

  pub or_finish-Follows : {A : Type 0} {m : Action d A} → Follows m → Follows (or_finish m)
  unfolding or_finish
  or_finish-Follows {A} {m} h = record {
    follow = λ c. or_finish-Reaches (m c) (Follows.follow h c);
  }

  exit_unlogged-Follows : (o : Outcome) → Follows (exit_unlogged {d = d} o)
  unfolding exit_unlogged
  exit_unlogged-Follows o = bind-Follows (emit_run_end-Follows o) λ _. halt-Follows o

  set_writer-Reaches :
      (r : IoResult (Option (List ℕ))) (c : Ctx d)
      → Reaches d.setting c.state (set_writer r c).1.state
  set_writer-Reaches (err e) c = Follows.follow (exit_unlogged-Follows _) c
  set_writer-Reaches (ok file) c = stays

  open_writer-Follows : (path : Option String) → Follows (open_writer {d = d} path)
  unfolding open_writer
  open_writer-Follows none = record { follow = λ c. stays }
  open_writer-Follows (some path) = record {
    follow = λ c. set_writer-Reaches (d.services.read_log c.world path) c;
  }

  write_header-Reaches :
      (b : Bool) (c : Ctx d) {m : Action d (Unit {0})}
      → Follows m
      → Reaches d.setting c.state (if b then m c else (next tt, c)).1.state
  write_header-Reaches true c h = Follows.follow h c
  write_header-Reaches false c h = stays

  write_header-Follows : Follows (write_header {d = d})
  unfolding write_header
  write_header-Follows = record {
    follow = λ c.
        write_header-Reaches (is_empty c.state.items) c
          (or_finish-Follows (record_row-Follows _ none));
  }

  ensure_tree-Follows : Follows (ensure_tree {d = d})
  unfolding ensure_tree
  ensure_tree-Follows = bind-Follows (ask-Follows _) (or_fail-Follows _)

  seed_input-Follows : (i : Input) → Follows (seed_input {d = d} i)
  unfolding seed_input perform
  seed_input-Follows i = bind-Follows get_state-Follows λ before.
      bind-Follows (on_state-Follows _ λ t s. moves stays t (inputs i)) λ _.
        bind-Follows (or_finish-Follows sync-Follows) λ _.
          bind-Follows get_state-Follows
            λ after. if-Follows (after.turn == before.turn) (pure-Follows tt) (emit-Follows _)

  seed_inputs-Follows : (is : List Input) → Follows (seed_inputs {d = d} is)
  unfolding seed_inputs
  seed_inputs-Follows [] = pure-Follows tt
  seed_inputs-Follows (i ∷ is) = bind-Follows (seed_input-Follows i) λ _. seed_inputs-Follows is

  freeze_prefix-Follows : Follows (freeze_prefix {d = d})
  unfolding freeze_prefix perform
  freeze_prefix-Follows = record {
    follow = λ c.
        let s = (freeze_prefix c).1.state in
        moves stays epoch
          (books (record (books_of c.state) { file_map = s.file_map; pins = s.pins }));
  }

  start_run-Follows : Follows (start_run {d = d})
  unfolding start_run
  start_run-Follows =
      bind-Follows fresh_id-Follows
        λ id. bind-Follows (record { follow = λ c. stays }) λ _. emit-Follows _

  need_input-Follows : Follows (need_input {d = d})
  unfolding need_input
  need_input-Follows = bind-Follows get_state-Follows λ s.
      if-Follows (s.turn == 0) (exit_unlogged-Follows (failed input "run needs at least one input"))
        (pure-Follows tt)

  -- What follows the Header row.
  pub behind_header-Follows : (is : List Input) → Follows (behind_header {d = d} is)
  unfolding behind_header
  behind_header-Follows is = bind-Follows (or_finish-Follows ensure_tree-Follows) λ _.
      bind-Follows (or_finish-Follows sync-Follows) λ _.
        bind-Follows (seed_inputs-Follows is)
          λ _. bind-Follows need_input-Follows λ _. freeze_prefix-Follows

  open_run-Follows : (is : List Input) → Follows (open_run {d = d} is)
  unfolding open_run
  open_run-Follows is = bind-Follows start_run-Follows λ _.
      bind-Follows (open_writer-Follows d.setting.config.log_path)
        λ _. bind-Follows write_header-Follows λ _. behind_header-Follows is

  follow_head-Follows : (h : Head H) → Follows (follow_head {d = d} h)
  follow_head-Follows (leaves o) = halt-Follows o
  follow_head-Follows yields = pure-Follows tt
  follow_head-Follows again = pure-Follows tt
  follow_head-Follows (call token) = provider_round-Follows token

  lap-Follows : Follows (lap {d = d})
  unfolding lap
  lap-Follows = bind-Follows step_head-Follows follow_head-Follows

  after_lap-Reaches :
      (later : Ctx d → Option Outcome × Ctx d) {s : LoopState H} (p : Flow (Unit {0}) × Ctx d)
      → Reaches d.setting s p.1.state
      → ((c : Ctx d) → Reaches d.setting c.state (later c).1.state)
      → Reaches d.setting s (after_lap later p).1.state
  after_lap-Reaches later (next u, c) r h = Reaches-trans r (h c)
  after_lap-Reaches later (exit o, c) r h = Reaches-trans r (Follows.follow (finish-Follows o) c)

  pub drive-Reaches : (fuel : ℕ) (c : Ctx d) → Reaches d.setting c.state (drive fuel c).1.state
  unfolding drive
  drive-Reaches zero c = stays
  drive-Reaches (suc fuel) c =
      after_lap-Reaches (drive fuel) (lap c) (Follows.follow lap-Follows c) (drive-Reaches fuel)

  after_open-Reaches :
      (later : Ctx d → Option Outcome × Ctx d) {s : LoopState H} (p : Flow (Unit {0}) × Ctx d)
      → Reaches d.setting s p.1.state
      → ((c : Ctx d) → Reaches d.setting c.state (later c).1.state)
      → Reaches d.setting s (after_open later p).1.state
  after_open-Reaches later (next u, c) r h = Reaches-trans r (h c)
  after_open-Reaches later (exit o, c) r h = r

  shaped-Reaches : (c : Ctx d) → Reaches d.setting c.state (shaped c).state
  unfolding perform
  shaped-Reaches c =
      moves stays epoch
        (books (record (books_of c.state) { budget_shape = d.setting.config.budget_shape }))

  run-Reaches :
      (fuel : ℕ) (is : List Input) (c : Ctx d) → Reaches d.setting c.state (run fuel is c).1.state
  unfolding run
  run-Reaches fuel is c =
      after_open-Reaches (drive fuel) (open_run is (shaped c))
        (Reaches-trans (shaped-Reaches c) (Follows.follow (open_run-Follows is) (shaped c)))
        (drive-Reaches fuel)

  -- Whatever the world answers, and after any number of rounds, the state of a run is what some
  -- sequence of operations, each at some time, makes of the state that it began with.
  pub run-perform_all :
      (fuel : ℕ) (is : List Input) (c : Ctx d)
      → (ops : List (Clock × Op H)) × (perform_all d.setting c.state ops ≡ (run fuel is c).1.state)
  run-perform_all fuel is c = Reaches-perform_all (run-Reaches fuel is c)

  -- A run keeps the bounds of the state: at most three directives wait, at most two declares have
  -- been held, at most two retries are left, and a fatal error or a hard stop means that the gate
  -- is not open.
  pub run-Inv :
      (fuel : ℕ) (is : List Input) (c : Ctx d)
      → Inv false c.state
      → Inv false (run fuel is c).1.state
  run-Inv fuel is c v =
      let (ops, e) = run-perform_all fuel is c in
      subst (Inv false) e (perform_all-Inv d.setting c.state ops v)
