-- ===== src/Base/Chars.antt =====
-- Texts as sequences of characters: what the program uses of Rust's `str`.
use Prim.Native.Char.{Char, code}
use Prim.Native.Nat.{ℕ, zero, suc, ◌+◌, ◌-◌, min}
use Prim.Native.String.{String}
use mathlib.Core.Path.{◌≡◌}
use mathlib.Core.Bool.{Bool, true, false, ◌&&◌, ◌||◌, not}
use mathlib.Core.List.{List, [], ◌∷◌}
use mathlib.Core.Option.{Option, none, some}
use text.Mathlib.TextLemmas.{nil-append, cons-append}
use native.Mathlib.Omega.{arith}
use rof_harness.Base.Tests.{ltb, leb, ◌==◌, if◌then◌else◌}
use rof_harness.Base.Text.{◌<>◌}

-- `s.chars().count()`.
abbrev pub char_count : String → ℕ
char_count String.[] = 0
char_count (String.◌∷◌ c s) = suc (char_count s)

-- `s.chars().take(n)` and `s.chars().skip(n)`, collected.
abbrev pub take_chars : ℕ → String → String
take_chars zero s = ""
take_chars (suc n) String.[] = ""
take_chars (suc n) (String.◌∷◌ c s) = String.◌∷◌ c (take_chars n s)

abbrev pub drop_chars : ℕ → String → String
drop_chars zero s = s
drop_chars (suc n) String.[] = ""
drop_chars (suc n) (String.◌∷◌ c s) = drop_chars n s

-- `s.len()`: the bytes of the UTF-8 encoding.
abbrev utf8_width : ℕ → ℕ
utf8_width c = if ltb c 0x80 then 1 else if ltb c 0x800 then 2 else if ltb c 0x10000 then 3 else 4

unfoldable pub byte_len : String → ℕ
byte_len String.[] = 0
byte_len (String.◌∷◌ c s) = utf8_width (code c) + byte_len s

unfoldable pub starts_with : String → String → Bool
starts_with s String.[] = true
starts_with String.[] (String.◌∷◌ d p) = false
starts_with (String.◌∷◌ c s) (String.◌∷◌ d p) = code c == code d && starts_with s p

-- `s.contains(key)`.
unfoldable pub contains_text : String → String → Bool
unfolding starts_with
contains_text String.[] key = starts_with "" key
contains_text (String.◌∷◌ c s) key = starts_with (String.◌∷◌ c s) key || contains_text s key

-- `s.find(key)`, counted in characters.
unfoldable pub find_text : String → String → Option ℕ
unfolding starts_with
find_text String.[] key = if starts_with "" key then some 0 else none
find_text (String.◌∷◌ c s) key = elim (starts_with (String.◌∷◌ c s) key) [
  | true ↦ some 0
  | false ↦ elim (find_text s key) [ none ↦ none | some n ↦ some (suc n) ]
]

-- `char::is_whitespace`: the code points with the property White_Space.
unfoldable pub is_whitespace : ℕ → Bool
is_whitespace c =
    leb 9 c && leb c 13
    || c == 32
    || c == 0x85
    || c == 0xa0
    || c == 0x1680
    || leb 0x2000 c && leb c 0x200a
    || c == 0x2028
    || c == 0x2029
    || c == 0x202f
    || c == 0x205f
    || c == 0x3000

unfoldable pub is_blank : String → Bool
unfolding is_whitespace
is_blank String.[] = true
is_blank (String.◌∷◌ c s) = is_whitespace (code c) && is_blank s

unfoldable pub trim_start : String → String
unfolding is_whitespace
trim_start String.[] = ""
trim_start (String.◌∷◌ c s) = if is_whitespace (code c) then trim_start s else String.◌∷◌ c s

unfoldable pub trim_end : String → String
unfolding is_blank
trim_end String.[] = ""
trim_end (String.◌∷◌ c s) =
    let rest = trim_end s in if is_blank (String.◌∷◌ c s) then "" else String.◌∷◌ c rest

unfoldable pub trim : String → String
unfolding trim_start trim_end
trim s = trim_end (trim_start s)

-- `parts.join(separator)`.
unfoldable pub join : String → List String → String
unfolding ◌<>◌
join separator [] = ""
join separator (p ∷ []) = p
join separator (p ∷ q ∷ ps) = p <> separator <> join separator (q ∷ ps)

abbrev pub is_empty_text : String → Bool
is_empty_text String.[] = true
is_empty_text (String.◌∷◌ c s) = false

-- A character in front of the first line or word.
abbrev cons_char : Char → List String → List String
cons_char c [] = String.◌∷◌ c "" ∷ []
cons_char c (l ∷ ls) = String.◌∷◌ c l ∷ ls

abbrev starts_lf : String → Bool
starts_lf String.[] = false
starts_lf (String.◌∷◌ c s) = code c == 10

-- `s.lines()`: a CR goes where it stands before an LF.
unfoldable pub lines : String → List String
lines String.[] = []
lines (String.◌∷◌ c s) =
    let rest = lines s in
    if code c == 10
    then "" ∷ rest
    else if code c == 13 && starts_lf s
    then rest
    else cons_char c rest

unfoldable starts_word : String → Bool
unfolding is_whitespace
starts_word String.[] = false
starts_word (String.◌∷◌ c s) = not (is_whitespace (code c))

-- `s.split_whitespace()`.
unfoldable pub words : String → List String
unfolding is_whitespace starts_word
words String.[] = []
words (String.◌∷◌ c s) =
    let rest = words s in
    if is_whitespace (code c)
    then rest
    else if starts_word s
    then cons_char c rest
    else String.◌∷◌ c "" ∷ rest

-- `a <= b` on texts: the order of the bytes in UTF-8 is that of the code points.
unfoldable pub text_leb : String → String → Bool
text_leb String.[] t = true
text_leb (String.◌∷◌ c s) String.[] = false
text_leb (String.◌∷◌ c s) (String.◌∷◌ d t) =
    let rest = text_leb s t in if ltb (code c) (code d) then true else code c == code d && rest

pub char_count-take_chars :
    (n : ℕ) (s : String) → char_count (take_chars n s) ≡ min n (char_count s)
char_count-take_chars zero s = omega arith
char_count-take_chars (suc n) String.[] = omega arith
char_count-take_chars (suc n) (String.◌∷◌ c s) = omega (arith, char_count-take_chars n s)

pub char_count-drop_chars : (n : ℕ) (s : String) → char_count (drop_chars n s) ≡ char_count s - n
char_count-drop_chars zero s = omega arith
char_count-drop_chars (suc n) String.[] = omega arith
char_count-drop_chars (suc n) (String.◌∷◌ c s) = omega (arith, char_count-drop_chars n s)

pub char_count-append : (s t : String) → char_count (s <> t) ≡ char_count s + char_count t
unfolding ◌<>◌
char_count-append String.[] t = rw (nil-append t) (omega arith)
char_count-append (String.◌∷◌ c s) t = rw (cons-append c s t) (omega (arith, char_count-append s t))
