-- ===== src/Loop/Run/Durable.antt =====
-- What the log file of crates/agent-loop/src/run.rs holds behind a sync, and how a run is closed.
use mathlib.Core.List.{append_assoc}
use rof_harness.Base.{
  ℕ, zero, suc, ◌+◌, ◌-◌, ◌≤◌, ◌<◌, ◌≡◌, refl, ap, true, false, Option, none, some, List, [], ◌∷◌,
  ◌++◌, arith, length, length-append, leb, Bool-cases, inl, inr, ◌⊎◌, if◌then◌else◌,
}
use rof_harness.Host.{Host}
use rof_harness.Context.Compact.{drop}
use rof_harness.Event.Emitter.{emit_all}
use rof_harness.Event.Types.{run_end, turn_end}
use rof_harness.Log.Types.{Item, IoResult, ok, err, ◌>>=◌ as ◌>>>=◌}
use rof_harness.Log.Types
use rof_harness.Log.Writer.{append_all, append, lf}
use rof_harness.Loop.Report.{event_outcome}
use rof_harness.Loop.Run.{
  Driver, Ctx, next, exit, flow, pure, get_state, set_state, on_state, ◌>>=◌,
}
use rof_harness.Loop.Run.Closing.{
  Progress, log_failure, write_row, write_rows, after_write, sync, sync_to, finish, try_sync,
  emit_run_end,
}
use rof_harness.Loop.Run.Frames.{emit}
use rof_harness.Loop.State.{append_to, turn_id}
use rof_harness.Loop.Terminate.{outcome_log_reason, turn_end_reason_to_event, stick_turn_reason}
use rof_harness.Loop.Types.{Outcome}

module _ {H : Host} (d : Driver H) where
  -- How far the writing of rows comes.
  write_rows-bounds :
      (w : d.services.World) (file : List ℕ) (n : ℕ) (is : List (Item H))
      → let p = write_rows d w file n is in
        (n ≤ p.done)
        × (p.failed ≡ false → p.done ≡ n + length is)
        × (p.failed ≡ true → p.done < n + length is)
  unfolding write_rows
  write_rows-bounds w file n [] = (omega arith, λ h. omega arith, λ h. cc)
  write_rows-bounds w file n (i ∷ is) =
      let (file', fine, w') = write_row d w file (d.codec.render i) in
      ground (arith, write_rows-bounds w' file' (n + 1) is)

  length-drop : {A : Type 0} (n : ℕ) (xs : List A) → length (drop n xs) ≡ length xs - n
  length-drop zero xs = omega arith
  length-drop (suc n) [] = omega arith
  length-drop (suc n) (x ∷ xs) = omega (arith, length-drop n xs)

  -- A disk that takes every write.
  abbrev pub IsHonest : Type 0
  IsHonest =
      (w : d.services.World) (file bytes : List ℕ)
      → ((d.services.write_all w file bytes).0 ≡ file ++ bytes)
        × ((d.services.write_all w file bytes).1 ≡ true)

  -- The row is written, and `later` is what is known of the rows behind it.
  row-append_all :
      IsHonest
      → (w : d.services.World) (file : List ℕ) (n : ℕ) (is : List (Item H)) {file' : List ℕ}
      → ((v : d.services.World) (f : List ℕ)
          → append_all d.codec f is ≡ ok file'
          → let p = write_rows d v f (n + 1) is in (p.file ≡ file') × (p.failed ≡ false))
      → (r : IoResult (List ℕ))
      → ((r >>>= λ body. ok (file ++ (body ++ lf ∷ []))) >>>= λ more. append_all d.codec more is)
        ≡ ok file'
      → let (f, fine, v) = write_row d w file r in
        let p =
          if fine
          then write_rows d v f (n + 1) is
          else record { file = f; done = n; failed = true; world = v } in
        (p.file ≡ file') × (p.failed ≡ false)
  row-append_all honest w file n is later (err e) h = cc
  row-append_all honest w file n is later (ok body) h =
      let (f, g) = honest w file (body ++ lf ∷ []) in
      let v = (d.services.write_all w file (body ++ lf ∷ [])).2 in
      rw (g, f) (later v (file ++ (body ++ lf ∷ [])) h)

  write_rows-append_all :
      IsHonest
      → (w : d.services.World) (file : List ℕ) (n : ℕ) (is : List (Item H)) {file' : List ℕ}
      → append_all d.codec file is ≡ ok file'
      → let p = write_rows d w file n is in (p.file ≡ file') × (p.failed ≡ false)
  unfolding write_rows append_all append
  write_rows-append_all honest w file n [] h = (cc, refl)
  write_rows-append_all honest w file n (i ∷ is) {file'} h =
      row-append_all honest w file n is {file' = file'}
        (λ v f g. write_rows-append_all honest v f (n + 1) is g) (d.codec.render i) h

  after_write-bounds :
      (c : Ctx d) (p : Progress d.services.World)
      → c.synced ≤ p.done
      → (p.failed ≡ false → p.done ≡ length c.state.items)
      → (p.failed ≡ true → p.done < length c.state.items)
      → let (r, c') = after_write c p in
        (c'.state ≡ c.state)
        × (c.synced ≤ c'.synced)
        × (c'.synced ≤ length c.state.items)
        × (r ≡ next tt → (c.writer ≡ none) ⊎ (c'.synced ≡ length c.state.items))
        × ((o : Outcome) → r ≡ exit o → (o ≡ log_failure) × (c'.synced < length c.state.items))
  after_write-bounds c p a b f = elim (Bool-cases p.failed) [
    | inl e ↦ rw e (refl, a, omega (arith, f e), λ g. cc, λ o g. (cc, f e))
    | inr e ↦ rw e (refl, a, omega (arith, b e), λ g. inr (b e), λ o g. cc)
  ]

  -- A sync leaves the state as it is, never takes back what is synced, and never counts more rows
  -- than there are. It goes on with every row synced where there is a writer; it exits only with
  -- the failure of the log, at a row that is not synced.
  pub sync-bounds :
      (c : Ctx d)
      → c.synced ≤ length c.state.items
      → let (r, c') = sync c in
        (c'.state ≡ c.state)
        × (c.synced ≤ c'.synced)
        × (c'.synced ≤ length c.state.items)
        × (r ≡ next tt → (c.writer ≡ none) ⊎ (c'.synced ≡ length c.state.items))
        × ((o : Outcome) → r ≡ exit o → (o ≡ log_failure) × (c'.synced < length c.state.items))
  unfolding sync
  sync-bounds c h = by_writer c h c.writer refl
    where
      by_writer :
          (c : Ctx d)
          → c.synced ≤ length c.state.items
          → (o : Option (List ℕ)) → c.writer ≡ o
          → let (r, c') = sync_to o c in
            (c'.state ≡ c.state)
            × (c.synced ≤ c'.synced)
            × (c'.synced ≤ length c.state.items)
            × (r ≡ next tt → (c.writer ≡ none) ⊎ (c'.synced ≡ length c.state.items))
            × ((o : Outcome) → r ≡ exit o → (o ≡ log_failure) × (c'.synced < length c.state.items))
      by_writer c h none e = (refl, omega arith, h, λ g. inl e, λ o g. cc)
      by_writer c h (some file) e = elim (Bool-cases (leb (length c.state.items) c.synced)) [
        | inl k ↦ rw k (refl, omega arith, h, λ g. inr (ground arith), λ o g. cc)
        | inr k ↦
            let pending = drop c.synced c.state.items in
            let (a, b, f) = write_rows-bounds c.world file c.synced pending in
            let l = length-drop c.synced c.state.items in
            rw k (
              after_write-bounds c (write_rows d c.world file c.synced pending) a
                (λ g. omega (arith, b g)) (λ g. omega (arith, f g)))
      ]

  not_leb : (m n : ℕ) → m < n → leb n m ≡ false
  not_leb m n h = ground arith

  -- Where the disk takes every write and every pending row renders, the writer's file after a sync
  -- is what `append_all` makes of it, and the sync goes on.
  pub sync-append_all :
      (c : Ctx d) (file file' : List ℕ)
      → IsHonest
      → c.writer ≡ some file
      → c.synced < length c.state.items
      → append_all d.codec file (drop c.synced c.state.items) ≡ ok file'
      → ((sync c).0 ≡ next tt) × ((sync c).1.writer ≡ some file')
  unfolding sync
  sync-append_all c file file' honest e l h =
      let (f, g) =
        write_rows-append_all honest c.world file c.synced (drop c.synced c.state.items) h in
      rw (e, not_leb c.synced (length c.state.items) l, f, g) (refl, refl)

  -- A sync touches neither the state nor what was emitted.
  abbrev Keeps : Ctx d → Ctx d → Type 0
  Keeps c c' = (c'.state ≡ c.state) × (c'.emitter ≡ c.emitter) × (c'.synced_at ≡ c.synced_at)

  sync_to-Keeps : (c : Ctx d) (o : Option (List ℕ)) → Keeps c (sync_to o c).1
  sync_to-Keeps c none = (refl, refl, refl)
  sync_to-Keeps c (some file) = elim (Bool-cases (leb (length c.state.items) c.synced)) [
    | inl e ↦ rw e (refl, refl, refl)
    | inr e ↦ rw e (refl, refl, refl)
  ]

  sync-Keeps : (c : Ctx d) → Keeps c (sync c).1
  unfolding sync
  sync-Keeps c = sync_to-Keeps c c.writer

  all_synced :
      (c : Ctx d) (file : List ℕ)
      → c.writer ≡ some file
      → c.synced ≤ length c.state.items
      → (sync c).0 ≡ next tt
      → (sync c).1.synced ≡ length c.state.items
  all_synced c file w l go = elim ((sync-bounds c l).3 go) [ inl e ↦ cc | inr e ↦ e ]

  -- Where a run has a writer, the disk takes every write and every pending row renders, closing the
  -- run adds all pending rows to the file and, as the last one, the TurnEnd row of the turn with the
  -- sticky reason, or the outcome's own where none stuck. The last two frames are the turn's end with
  -- the same reason and the run's end with the outcome, and when each of them was emitted all these
  -- rows had been synced.
  pub finish_lem :
      (outcome : Outcome) (c : Ctx d) (file file' : List ℕ)
      → IsHonest
      → c.writer ≡ some file
      → c.synced ≤ length c.state.items
      → let s = c.state in
        let reason = outcome_log_reason outcome s.turn_reason in
        let rows =
          append_to
            (d.services.clock c.world).0.system
            s.items
            (Types.turn_end (turn_id s.turn) reason) in
        append_all d.codec file (drop c.synced rows) ≡ ok file'
        → let (r, c') = finish outcome c in
          (r ≡ next outcome)
          × (c'.state.items ≡ rows)
          × (c'.writer ≡ some file')
          × (c'.synced ≡ length rows)
          × (c'.emitter
              ≡ emit_all c.emitter (
                  turn_end s.turn (turn_end_reason_to_event reason) s.usage_totals
                  ∷ run_end (event_outcome outcome) []
                  ∷ []))
          × (c'.synced_at ≡ c.synced_at ++ length rows ∷ length rows ∷ [])
  unfolding finish ◌>>=◌ flow get_state set_state on_state pure emit emit_run_end try_sync
      stick_turn_reason emit_all append_to
  finish_lem outcome c file file' honest w n h =
      let s = c.state in
      let reason = outcome_log_reason outcome s.turn_reason in
      let (t, world) = d.services.clock c.world in
      let mid : Ctx d = record c {
        state = record (stick_turn_reason s reason) {
          items = append_to t.system s.items (Types.turn_end (turn_id s.turn) reason);
        };
        world = world;
      } in
      let l : c.synced < length mid.state.items = omega (arith, n, length-append s.items _) in
      let (go, wrote) = sync-append_all mid file file' honest w l h in
      let (same, kept, before) = sync-Keeps mid in
      let all : (sync mid).1.synced ≡ length mid.state.items =
        all_synced mid file w (omega (arith, l)) go in
      (
        refl,
        ap (λ s. s.items) same,
        wrote,
        all,
        rw kept refl,
        rw (before, all) (append_assoc c.synced_at _ _),
      )
