-- ===== src/Provider/Json.antt =====
-- crates/provider-core/src/json.rs: how the arguments of a tool call are read where they are broken
-- or cut off.
use Prim.Native.Char.{Char, code}
use rof_harness.Base.{
  ℕ, ◌/◌, ◌%◌, String, Bool, true, false, ◌&&◌, ◌||◌, not, Option, none, some, List, [], ◌∷◌, any,
  ltb, ◌==◌, if◌then◌else◌,
}
use rof_harness.Base.Text.{◌<>◌}
use rof_harness.Base.Chars.{
  is_whitespace, is_empty_text, trim_end, take_chars, drop_chars, char_count,
}
use rof_harness.Host.{Host}

-- What is used of `serde_json`: reading a text, and building values.
pub record Json (H : Host) : Type 0 where
  -- `serde_json::from_str(s).ok()`.
  pub from_str : String → Option H.Value
  -- `Value::Object`, from its entries; `Value::Array`; `Value::from(n)`.
  pub object : List (String × H.Value) → H.Value
  pub array : List H.Value → H.Value
  pub number : ℕ → H.Value
  -- `format!("{s:?}")`.
  pub debug_text : String → String

abbrev pub is_quote : Char → Bool
is_quote c = code c == 34

abbrev pub is_backslash : Char → Bool
is_backslash c = code c == 92

-- `"`, `\`, `/` and the letters b, f, n, r, t, u.
abbrev pub escapes : List ℕ
escapes = 34 ∷ 92 ∷ 47 ∷ 98 ∷ 102 ∷ 110 ∷ 114 ∷ 116 ∷ 117 ∷ []

abbrev pub peeks_escape : String → Bool
peeks_escape String.[] = false
peeks_escape (String.◌∷◌ c s) = any (λ n. code c == n) escapes

abbrev pub one_char : Char → String
one_char c = String.◌∷◌ c String.[]

abbrev pub hex_digit : ℕ → String
hex_digit n = take_chars 1 (drop_chars n "0123456789abcdef")

-- A character inside a string, as it is written back.
abbrev pub escaped : Char → String
escaped c =
    if code c == 10
    then "\\n"
    else if code c == 13
    then "\\r"
    else if code c == 9
    then "\\t"
    else if ltb (code c) 32
    then "\\u00" <> hex_digit (code c / 16) <> hex_digit (code c % 16)
    else one_char c

-- One character of `repair_json`, before the text behind it: what is written, and whether the next
-- one is in a string and behind a backslash.
unfoldable pub repair_char : Bool → Bool → Char → String → String × Bool × Bool
unfolding ◌<>◌
repair_char false esc c s = (one_char c, is_quote c, false)
repair_char true true c s = (one_char c, true, false)
repair_char true false c s =
    if is_backslash c
    then (if peeks_escape s then (one_char c, true, true) else ("\\\\", true, false))
    else if is_quote c
    then (one_char c, false, false)
    else (escaped c, true, false)

unfoldable pub repair_from : Bool → Bool → String → String
unfolding repair_char ◌<>◌
repair_from in_str esc String.[] = String.[]
repair_from in_str esc (String.◌∷◌ c s) =
    let (out, in_str', esc') = repair_char in_str esc c s in out <> repair_from in_str' esc' s

unfoldable pub repair_json : String → String
unfolding repair_from
repair_json s = repair_from false false s

-- `s.trim_end_matches(p)`.
unfoldable pub trim_end_matches : (Char → Bool) → String → String
trim_end_matches p String.[] = String.[]
trim_end_matches p (String.◌∷◌ c s) =
    let rest = trim_end_matches p s in
    if is_empty_text rest && p c then String.[] else String.◌∷◌ c rest

-- `stack.pop()` where the top is `c`.
abbrev pub pop_closer : Char → String → String
pop_closer c String.[] = String.[]
pop_closer c (String.◌∷◌ d stack) = if code d == code c then stack else String.◌∷◌ d stack

-- One character of `close_truncated`: the closers that are due, the last opened first, and whether
-- the next character is in a string and behind a backslash.
unfoldable pub close_char : Char → String × Bool × Bool → String × Bool × Bool
close_char c (stack, true, true) = (stack, true, false)
close_char c (stack, true, false) = (stack, not (is_quote c), is_backslash c)
close_char c (stack, false, esc) =
    if is_quote c
    then (stack, true, esc)
    else if code c == 123
    then ("}" <> stack, false, esc)
    else if code c == 91
    then ("]" <> stack, false, esc)
    else if code c == 125 || code c == 93
    then (pop_closer c stack, false, esc)
    else (stack, false, esc)

unfoldable pub close_scan : String × Bool × Bool → String → String × Bool × Bool
unfolding close_char
close_scan state String.[] = state
close_scan state (String.◌∷◌ c s) = close_scan (close_char c state) s

-- What the loop of `close_truncated` drops at the end: white space, commas and colons.
abbrev pub is_dangling : Char → Bool
is_dangling c = is_whitespace (code c) || code c == 44 || code c == 58

unfoldable pub close_truncated : String → String
unfolding close_scan trim_end_matches ◌<>◌
close_truncated s =
    let (stack, in_str, esc) = close_scan (String.[], false, false) s in
    trim_end_matches is_dangling s <> (if in_str then "\"" else "") <> stack

module _ {H : Host} (J : Json H) where
  -- `c.is_alphanumeric() || matches!(c, '.' | '+' | '-' | '_')`.
  abbrev pub is_literal : Char → Bool
  is_literal c =
      not (is_empty_text (H.alphanumeric (one_char c)))
      || any (λ n. code c == n) (46 ∷ 43 ∷ 45 ∷ 95 ∷ [])

  abbrev pub or_else : Option H.Value → Option H.Value → Option H.Value
  or_else (some v) next = some v
  or_else none next = next

  unfoldable pub without_literal : String → String
  unfolding trim_end trim_end_matches
  without_literal t = trim_end (
      trim_end_matches (λ c. code c == 58)
        (trim_end_matches (λ c. code c == 44) (trim_end (trim_end_matches is_literal t))))

  unfoldable pub partial_parse : String → Option H.Value
  unfolding close_truncated without_literal trim_end
  partial_parse s =
      let t = trim_end s in
      let cut = without_literal t in
      or_else (J.from_str (close_truncated s))
        (if ltb (char_count cut) (char_count t) then J.from_str (close_truncated cut) else none)

  abbrev pub value_or : H.Value → Option H.Value → H.Value
  value_or v none = v
  value_or v (some w) = w

  unfoldable pub parse_streaming_json : String → H.Value
  unfolding repair_json partial_parse
  parse_streaming_json s =
      let repaired = repair_json s in
      value_or (J.object []) (
        or_else (J.from_str s)
          (or_else (J.from_str repaired) (or_else (partial_parse s) (partial_parse repaired))))
