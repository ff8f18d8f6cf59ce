-- ===== src/Loop/Run/Proof.antt =====
-- crates/agent-loop/src/proof.rs: the fragments of a batch's patch, with their proof flags.
use rof_harness.Base.{
  ℕ, ◌+◌, String, Bool, Option, none, some, List, [], ◌∷◌, ◌++◌, map, if◌then◌else◌,
}
use rof_harness.Base.Text.{◌<>◌}
use rof_harness.Base.Chars.{starts_with, lines, words}
use rof_harness.Context.Compact.{take}
use rof_harness.Host.{Host}
use rof_harness.Log.Types.{IoResult, ok, err}
use rof_harness.Loop.Run.{Driver, Action, PatchText, pure, ask, ◌>>=◌}

abbrev pub rollback_notice : String
rollback_notice =
    "a tool in your last batch failed and the whole batch was reverted — your successful changes in it are gone; re-apply them"

-- The fragments that are complete, the header of the current file, and the open fragment.
pub record Splitting : Type 0 where
  pub out : List String
  pub header : String
  pub cur : Option String

abbrev pub flush : List String → Option String → List String
flush out none = out
flush out (some done) = out ++ done ∷ []

abbrev pub other_line : Splitting → String → Option String → Splitting
other_line p line (some hunk) = record p { cur = some (hunk <> "\n" <> line) }
other_line p line none = record p { header = p.header <> "\n" <> line }

unfoldable pub split_line : Splitting → String → Splitting
unfolding starts_with ◌<>◌
split_line p line =
    if starts_with line "diff --git"
    then record { out = flush p.out p.cur; header = line; cur = none }
    else if starts_with line "@@"
    then record p { out = flush p.out p.cur; cur = some (p.header <> "\n" <> line) }
    else other_line p line p.cur

unfoldable pub split_lines : Splitting → List String → Splitting
unfolding split_line
split_lines p [] = p
split_lines p (line ∷ rest) = split_lines (split_line p line) rest

-- `out.pop()`.
unfoldable pub without_last : List String → List String
without_last [] = []
without_last (x ∷ []) = []
without_last (x ∷ y ∷ ys) = x ∷ without_last (y ∷ ys)

unfoldable pub split_patch : PatchText → List String
unfolding split_lines without_last lines
split_patch patch =
    let p = split_lines (record { out = []; header = ""; cur = none }) (lines patch.text) in
    let out = flush p.out p.cur in if patch.truncated then without_last out else out

-- The error of a step, with the step's name in front.
abbrev pub map_err : {A : Type 0} → String → IoResult A → IoResult A
map_err what (ok a) = ok a
map_err what (err e) = err (what <> ": " <> e)

abbrev pub fragments : IoResult PatchText → IoResult (List String)
fragments (err e) = err e
fragments (ok p) = ok (split_patch p)

abbrev pub with_flag : Bool → IoResult (List String) → IoResult (List (String × Bool))
with_flag flag (err e) = err e
with_flag flag (ok hs) = ok (map (λ h. (h, flag)) hs)

abbrev pub cons_flag :
    String → Bool → IoResult (List (String × Bool)) → IoResult (List (String × Bool))
cons_flag h flag (err e) = err e
cons_flag h flag (ok hs) = ok ((h, flag) ∷ hs)

module _ {H : Host} {d : Driver H} where
  abbrev pub patch_of : IoResult (d.services.Diff) → Action d (IoResult PatchText)
  patch_of (err e) = pure (err ("snapshot diff: " <> e))
  patch_of (ok diff) = do r ← ask λ w. d.services.patch w diff; pure (map_err "snapshot patch" r)

  -- The diff, its patch and the patch's fragments.
  unfoldable pub read_fragments : Action d (IoResult (List String))
  unfolding split_patch ◌<>◌
  read_fragments = do r ← ask d.services.diff; p ← patch_of r; pure (fragments p)

  unfoldable pub batch_hunks : Bool → Action d (IoResult (List (String × Bool)))
  unfolding read_fragments
  batch_hunks proof_passed = do r ← read_fragments; pure (with_flag proof_passed r)

  -- One run of the proof command on the tree that a prefix leaves.
  abbrev pub prove_with : List String → Action d (IoResult Bool)
  prove_with [] = pure (err "proof-cmd empty")
  prove_with (bin ∷ args) = do fine ← ask λ w. d.services.prove w bin args; pure (ok fine)

  abbrev pub after_restore : List String → IoResult (Unit {0}) → Action d (IoResult Bool)
  after_restore argv (err e) = pure (err ("snapshot restore: " <> e))
  after_restore argv (ok _) = prove_with argv

  unfoldable pub probe_prefix : List String → List String → Action d (IoResult Bool)
  unfolding ◌<>◌
  probe_prefix argv prefix = do r ← ask λ w. d.services.restore_hunks w prefix; after_restore argv r

  -- The flag of one hunk, and the later ones where there is one.
  abbrev pub flag_then :
      String
      → Action d (IoResult (List (String × Bool)))
      → IoResult Bool
      → Action d (IoResult (List (String × Bool)))
  flag_then h later (err e) = pure (err e)
  flag_then h later (ok flag) = do rest ← later; pure (cons_flag h flag rest)

  -- The loop over the hunks from the index `k` on.
  unfoldable pub probe_from :
      List String → List String → ℕ → List String → Action d (IoResult (List (String × Bool)))
  unfolding probe_prefix
  probe_from argv hunks k [] = pure (ok [])
  probe_from argv hunks k (h ∷ rest) =
      probe_prefix argv (take (k + 1) hunks) >>= flag_then h (probe_from argv hunks (k + 1) rest)

  abbrev pub probe_all :
      String → IoResult (List String) → Action d (IoResult (List (String × Bool)))
  probe_all proof_cmd (err e) = pure (err e)
  probe_all proof_cmd (ok hunks) = probe_from (words proof_cmd) hunks 0 hunks

  unfoldable pub incremental_hunks : String → Action d (IoResult (List (String × Bool)))
  unfolding read_fragments probe_from words
  incremental_hunks proof_cmd = do r ← read_fragments; probe_all proof_cmd r
