-- ===== src/ToolsStd/Condense.antt =====
-- crates/tools-std/src/condense.rs: what is kept of a tool's output.
use rof_harness.Base.{
  ℕ, suc, ◌+◌, ◌-◌, ◌/◌, ◌%◌, String, Bool, true, false, ◌&&◌, ◌||◌, not, Option, none, some, List,
  [], ◌∷◌, ◌++◌, map, length, ltb, leb, any, str_eq, is_empty, if◌then◌else◌,
}
use rof_harness.Base.Text.{◌<>◌, decimal}
use rof_harness.Base.Chars.{
  byte_len, starts_with, contains_text, trim, join, lines, is_empty_text, drop_chars, char_count,
}
use rof_harness.Context.Compact.{take, drop}

-- `t.ends_with(suffix)`.
unfoldable pub ends_with : String → String → Bool
unfolding starts_with
ends_with t suffix =
    leb (char_count suffix) (char_count t)
    && str_eq (drop_chars (char_count t - char_count suffix) t) suffix

abbrev pub starts_with_any : List String → String → Bool
starts_with_any keys t = any (starts_with t) keys

unfoldable pub is_noise : String → Bool
unfolding starts_with ends_with
is_noise t =
    is_empty_text t
    || starts_with_any ("Compiling" ∷ "Finished" ∷ "Running" ∷ "Doc-tests" ∷ "Blocking" ∷ []) t
    || starts_with t "test " && ends_with t "... ok"

abbrev pub tail_lines : ℕ
tail_lines = 12

abbrev pub tail_bytes : ℕ
tail_bytes = 2000

unfoldable pub no_lines : ℕ → String
unfolding ◌<>◌ decimal
no_lines n = "(no actionable lines in " <> decimal n <> " lines of output)"

-- The last lines within both limits: the lines, their bytes, and whether the walk has stopped.
abbrev pub keep_line : String → List String × ℕ × Bool → List String × ℕ × Bool
keep_line l (kept, bytes, stopped) =
    let cost = byte_len l + 1 in
    if stopped || leb tail_lines (length kept) || ltb tail_bytes (bytes + cost)
    then (kept, bytes, true)
    else (l ∷ kept, bytes + cost, false)

unfoldable pub keep_back : List String → List String × ℕ × Bool
unfolding byte_len
keep_back [] = ([], 0, false)
keep_back (l ∷ ls) = keep_line l (keep_back ls)

-- The longest end of a line within the bytes: `from` moves up to a character boundary.
unfoldable pub end_within : ℕ → String → String
unfolding byte_len
end_within limit String.[] = ""
end_within limit (String.◌∷◌ c s) =
    let shorter = end_within limit s in
    if leb (byte_len (String.◌∷◌ c s)) limit then String.◌∷◌ c s else shorter

abbrev pub last_or : String → List String → String
last_or fallback [] = fallback
last_or fallback (l ∷ ls) = last_or l ls

abbrev pub shown_tail : List String → List String → List String
shown_tail all [] = end_within tail_bytes (last_or "" all) ∷ []
shown_tail all (l ∷ ls) = l ∷ ls

-- The raw lines that the tail stands for.
abbrev pub raw_tail : List String → List String → List String
raw_tail all [] = last_or "" all ∷ []
raw_tail all (l ∷ ls) = l ∷ ls

unfoldable pub omitted_note : ℕ → String
unfolding ◌<>◌ decimal
omitted_note n = "\n[..." <> decimal n <> " earlier lines omitted]"

abbrev pub tail_text : List String → List String → String
tail_text all kept =
    let first = length all - length (raw_tail all kept) in
    if not (any (λ l. not (is_noise (trim l))) (raw_tail all kept))
    then no_lines (length all)
    else join "\n" (shown_tail all kept) <> (if ltb 0 first then omitted_note first else "")

unfoldable pub condense_tail : String → String
unfolding lines keep_back end_within is_noise trim no_lines join omitted_note ◌<>◌
condense_tail s =
    if is_empty (lines s) then no_lines 0 else tail_text (lines s) (keep_back (lines s)).0

abbrev pub keep_keys : List String
keep_keys =
    "FAILED" ∷ "error" ∷ "panicked" ∷ "assertion" ∷ "warning" ∷ "test result" ∷ "failures:"
    ∷ "left:" ∷ "right:" ∷ []

abbrev pub specific_keys : List String
specific_keys =
    "FAILED" ∷ "panicked" ∷ "assertion" ∷ "test result" ∷ "failures:" ∷ "left:" ∷ "right:" ∷ []

abbrev pub has_key : List String → String → Bool
has_key keys t = any (contains_text t) keys

unfoldable pub is_specific : String → Bool
unfolding contains_text
is_specific t = has_key specific_keys t

-- The loop over the lines: the kept ones, how many matched, and how many were dropped.
abbrev pub sift_line : List String → String → List String × ℕ × ℕ → List String × ℕ × ℕ
sift_line base line (kept, matched, dropped) =
    let t = trim line in
    if is_noise t
    then (kept, matched, dropped + 1)
    else if has_key keep_keys t
    then (if any (str_eq line) base
        then (kept, matched + 1, dropped + 1)
        else (line ∷ kept, matched + 1, dropped))
    else (kept, matched, dropped + 1)

unfoldable pub sift : List String → List String → List String × ℕ × ℕ
unfolding trim is_noise contains_text
sift base [] = ([], 0, 0)
sift base (l ∷ ls) = sift_line base l (sift base ls)

-- The first and the last entries, the extra slot on the head side.
unfoldable pub head_tail : List (ℕ × String) → ℕ → List (ℕ × String)
head_tail idx budget =
    let head = budget / 2 + budget % 2 in
    if leb (length idx) budget
    then idx
    else take head idx ++ drop (length idx - (budget - head)) idx

abbrev pub kept_cap : ℕ
kept_cap = 80

-- The lines but the last with their places, divided by `is_specific`.
unfoldable pub divide : Bool → ℕ → List String → List (ℕ × String)
unfolding is_specific trim
divide specific i [] = []
divide specific i (l ∷ []) = []
divide specific i (l ∷ m ∷ ls) =
    let rest = divide specific (suc i) (m ∷ ls) in
    if is_specific (trim l)
    then (if specific then (i, l) ∷ rest else rest)
    else (if specific then rest else (i, l) ∷ rest)

abbrev pub insert_place : ℕ × String → List (ℕ × String) → List (ℕ × String)
insert_place p [] = p ∷ []
insert_place (i, l) ((j, m) ∷ rest) =
    let on = insert_place (i, l) rest in if leb i j then (i, l) ∷ (j, m) ∷ rest else (j, m) ∷ on

-- `picked.sort_unstable()`, whose places all differ.
unfoldable pub sort_places : List (ℕ × String) → List (ℕ × String)
sort_places [] = []
sort_places (p ∷ ps) = insert_place p (sort_places ps)

unfoldable pub pick_kept : List String → List String
unfolding divide head_tail sort_places
pick_kept ls =
    let specific = divide true 0 ls in
    let generic = divide false 0 ls in
    let picked =
      if leb (kept_cap - 1) (length specific)
      then head_tail specific (kept_cap - 1)
      else specific ++ head_tail generic (kept_cap - 1 - length specific) in
    map (λ p. p.1) (sort_places ((length ls - 1, last_or "" ls) ∷ picked))

unfoldable pub over_cap_note : ℕ → ℕ → String
unfolding ◌<>◌ decimal
over_cap_note dropped omitted =
    "\n[..."
    <> decimal dropped
    <> " noise lines and "
    <> decimal omitted
    <> " kept-lines over cap omitted]"

abbrev pub condensed : String → List String × ℕ × ℕ → String
condensed s (kept, matched, dropped) =
    let omitted = length kept - kept_cap in
    if is_empty kept
    then (if leb matched 0 then condense_tail s else no_lines (length (lines s)))
    else join "\n" (if ltb 0 omitted then pick_kept kept else kept)
      <> (if ltb 0 omitted || ltb 0 dropped then over_cap_note dropped omitted else "")

abbrev pub base_lines : Option String → List String
base_lines none = []
base_lines (some b) = lines b

unfoldable pub condense_output : String → Option String → String
unfolding sift condense_tail no_lines pick_kept over_cap_note join lines ◌<>◌
condense_output s baseline = condensed s (sift (base_lines baseline) (lines s))
