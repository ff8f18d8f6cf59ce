-- ===== src/Context/Window.antt =====
-- crates/context/src/window.rs: the window around an anchor.
use Prim.Native.Nat.{min}
use rof_harness.Base.{ℕ, ◌+◌, ◌-◌, ◌/◌, String, Option, none, some, leb, if◌then◌else◌}
use rof_harness.Base.Text.{◌<>◌, decimal}
use rof_harness.Base.Chars.{char_count, take_chars, drop_chars, find_text, is_empty_text}

abbrev pub min_window : ℕ
min_window = 2000

abbrev pub window_lines : ℕ
window_lines = 100

-- `text.find(anchor)` behind `!anchor.is_empty()`.
unfoldable pub anchor_at : String → String → Option ℕ
unfolding find_text
anchor_at text anchor = if is_empty_text anchor then none else find_text text anchor

abbrev pub window_start : ℕ → ℕ → ℕ
window_start at cap = at - cap / 2

-- Head and tail, where the anchor is absent.
unfoldable pub elided : String → ℕ → String
unfolding ◌<>◌ decimal
elided text cap =
    take_chars (cap / 2) text
    <> "\n...["
    <> decimal (char_count text - cap)
    <> " chars elided]...\n"
    <> drop_chars (char_count text - cap / 2) text

unfoldable pub window_from : String → ℕ → ℕ → String
unfolding ◌<>◌ decimal
window_from text cap start =
    "...[chars "
    <> decimal start
    <> ".."
    <> decimal (start + min cap (char_count text - start))
    <> " of "
    <> decimal (char_count text)
    <> "]...\n"
    <> take_chars cap (drop_chars start text)

abbrev pub window_at : String → ℕ → Option ℕ → String
window_at text cap none = elided text cap
window_at text cap (some at) = window_from text cap (window_start at cap)

unfoldable pub window_anchored : String → String → ℕ → String
unfolding anchor_at elided window_from
window_anchored text anchor cap =
    if leb (char_count text) cap then text else window_at text cap (anchor_at text anchor)

unfoldable pub cut_chars : String → ℕ → String
cut_chars text max_chars = take_chars max_chars text
