-- ===== src/ToolsStd/Hunk.antt =====
-- crates/tools-std/src/common.rs: the one span that an edit replaces. Positions are counted in
-- characters.
pub mod Matches
use Prim.Native.Char.{Char, code}
use rof_harness.Base.{
  ℕ, zero, suc, ◌+◌, ◌-◌, ◌≡◌, refl, sym, subst, String, Bool, true, false, ◌&&◌, ◌||◌, not, List,
  [], ◌∷◌, arith, length, ltb, leb, ◌==◌, str_eq, any, if◌then◌else◌, ◌⊎◌, inl, inr, Bool-cases,
}
use rof_harness.Base.Text.{◌<>◌, decimal}
use rof_harness.Base.Chars.{
  char_count, take_chars, drop_chars, starts_with, is_empty_text, trim, is_blank,
}
use rof_harness.Log.Types.{IoResult, ok, err}

-- `' ' | '\t' | '\n' | '\r'`.
abbrev pub is_gap : ℕ → Bool
is_gap c = c == 32 || c == 9 || c == 10 || c == 13

-- `text.match_indices(search)` from a position on: `skip` characters belong to the match before.
unfoldable pub match_from : ℕ → ℕ → String → String → List ℕ
unfolding starts_with
match_from skip i String.[] search = if is_empty_text search then i ∷ [] else []
match_from zero i (String.◌∷◌ c s) search =
    let hit = i ∷ match_from (char_count search - 1) (suc i) s search in
    let on = match_from 0 (suc i) s search in
    if starts_with (String.◌∷◌ c s) search then hit else on
match_from (suc skip) i (String.◌∷◌ c s) search = match_from skip (suc i) s search

unfoldable pub match_indices : String → String → List ℕ
unfolding match_from
match_indices text search = match_from 0 0 text search

-- Each run of gaps is one space; `in_run` where the character before is a gap.
unfoldable pub collapse_from : Bool → ℕ → String → String × List ℕ
collapse_from in_run i String.[] = ("", [])
collapse_from in_run i (String.◌∷◌ c s) =
    let gap = is_gap (code c) in
    let (out, places) = collapse_from gap (suc i) s in
    if gap && in_run
    then (out, places)
    else ((if gap then " " <> out else String.◌∷◌ c out), i ∷ places)

unfoldable pub collapse_ws : String → String × List ℕ
unfolding collapse_from
collapse_ws s = collapse_from false 0 s

-- `map[i]`, or the length where there is no such place.
abbrev pub place_or : ℕ → ℕ → List ℕ → ℕ
place_or fallback i [] = fallback
place_or fallback zero (p ∷ ps) = p
place_or fallback (suc i) (p ∷ ps) = place_or fallback i ps

-- The gaps that follow within the run.
unfoldable pub extend_end : ℕ → ℕ → String → ℕ
extend_end e run_end String.[] = e
extend_end e run_end (String.◌∷◌ c s) =
    let on = extend_end (suc e) run_end s in if ltb e run_end && is_gap (code c) then on else e

unfoldable pub ambiguous : ℕ → String
unfolding ◌<>◌ decimal
ambiguous n = "search matches " <> decimal n <> " spans, refusing ambiguous patch"

-- The span of a match in the collapsed text.
unfoldable pub original_span : String → List ℕ → ℕ → ℕ → ℕ × ℕ
unfolding extend_end
original_span text places at n =
    let e = place_or 0 (at + n - 1) places + 1 in
    let run_end = place_or (char_count text) (at + n) places in
    (place_or 0 at places, extend_end e run_end (drop_chars e text))

abbrev pub collapsed_span : String → List ℕ → ℕ → List ℕ → IoResult (ℕ × ℕ)
collapsed_span text places n [] = err "search string not found"
collapsed_span text places n (at ∷ []) = ok (original_span text places at n)
collapsed_span text places n (a ∷ b ∷ rest) = err (ambiguous (length (a ∷ b ∷ rest)))

unfoldable pub loose_span : String → String → IoResult (ℕ × ℕ)
unfolding collapse_ws match_indices original_span ambiguous
loose_span text search =
    let (ntext, places) = collapse_ws text in
    let nsearch = (collapse_ws search).0 in
    if is_empty_text search
    then err "missing search"
    else if is_empty_text nsearch
    then err "search is only whitespace"
    else collapsed_span text places (char_count nsearch) (match_indices ntext nsearch)

abbrev pub span_of : String → String → List ℕ → IoResult (ℕ × ℕ)
span_of text search [] = loose_span text search
span_of text search (s ∷ []) = ok (s, s + char_count search)
span_of text search (a ∷ b ∷ rest) = err (ambiguous (length (a ∷ b ∷ rest)))

abbrev pub splice : String → String → IoResult (ℕ × ℕ) → IoResult String
splice text replace (err e) = err e
splice text replace (ok (start, end)) = ok (take_chars start text <> replace <> drop_chars end text)

unfoldable pub apply_hunk : String → String → String → IoResult String
unfolding match_indices loose_span ambiguous ◌<>◌
apply_hunk text search replace =
    splice text replace (span_of text search (match_indices text search))

-- `prefix_allowed`: the command is the prefix, or continues it behind a space.
unfoldable pub prefix_allowed : List String → String → Bool
unfolding starts_with trim is_blank ◌<>◌
prefix_allowed prefixes cmd =
    any (λ p. not (is_blank p) && (str_eq cmd (trim p) || starts_with cmd (trim p <> " "))) prefixes

unfoldable pub cap_chars : String → ℕ → String × Bool
cap_chars s n = if leb (char_count s) n then (s, false) else (take_chars n s, true)
