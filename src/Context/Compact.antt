-- ===== src/Context/Compact.antt =====
-- crates/context/src/compact.rs: the token estimate, the trigger and the cut of a checkpoint.
use rof_harness.Base.{
  ℕ, zero, suc, ◌+◌, ◌-◌, ◌/◌, String, Bool, ◌&&◌, not, Option, none, some, List, [], ◌∷◌, map, leb,
  length, str_eq, if◌then◌else◌, u64,
}
use rof_harness.Base.Text.{◌<>◌, decimal}
use rof_harness.Base.Chars.{char_count, take_chars, join}
use rof_harness.Host.{Host}

abbrev pub summary_tool_cap : ℕ
summary_tool_cap = 2000

pub record CompactionConfig (H : Host) : Type 0 where
  pub enabled : Bool
  pub frac : H.Float
  pub keep_tokens : ℕ

pub record UsageAnchor : Type 0 where
  pub messages : ℕ
  pub input_tokens : ℕ

pub record CompactMessage : Type 0 where
  pub role : String
  pub content : String

unfoldable pub chars_to_tokens : ℕ → ℕ
chars_to_tokens chars = (chars + 3) / 4

unfoldable pub total_chars : List CompactMessage → ℕ
total_chars [] = 0
total_chars (m ∷ ms) = char_count m.content + total_chars ms

module _ {ℓ} {A : Type ℓ} where
  -- The slices `xs[n..]` and `xs[..n]`.
  abbrev pub drop : ℕ → List A → List A
  drop zero xs = xs
  drop (suc n) [] = []
  drop (suc n) (x ∷ xs) = drop n xs

  abbrev pub take : ℕ → List A → List A
  take zero xs = []
  take (suc n) [] = []
  take (suc n) (x ∷ xs) = x ∷ take n xs

abbrev pub valid_anchor : List CompactMessage → Option UsageAnchor → Option UsageAnchor
valid_anchor messages none = none
valid_anchor messages (some a) = if leb a.messages (length messages) then some a else none

abbrev pub estimate_from : List CompactMessage → Option UsageAnchor → ℕ
estimate_from messages none = chars_to_tokens (total_chars messages)
estimate_from messages (some a) =
    u64 (a.input_tokens + chars_to_tokens (total_chars (drop a.messages messages)))

unfoldable pub estimate_tokens : List CompactMessage → Option UsageAnchor → ℕ
unfolding chars_to_tokens total_chars
estimate_tokens messages anchor = estimate_from messages (valid_anchor messages anchor)

unfoldable pub compaction_due : {H : Host} → ℕ → ℕ → CompactionConfig H → Bool
compaction_due {H} estimate budget_tokens cfg =
    cfg.enabled
    && H.float_gt (H.float_of estimate) (H.float_mul (H.float_of budget_tokens) cfg.frac)

-- The first loop of `cut_point`, over the messages from the index `i` on, walked back from the
-- last: the tokens accumulated down to there, and the crossing if one was met.
abbrev pub cross_here : ℕ → ℕ → ℕ → ℕ × Option ℕ → ℕ × Option ℕ
cross_here keep i tokens (acc, some c) = (acc, some c)
cross_here keep i tokens (acc, none) =
    (acc + tokens, if leb keep (acc + tokens) then some i else none)

unfoldable pub cross_back : ℕ → ℕ → List CompactMessage → ℕ × Option ℕ
unfolding chars_to_tokens
cross_back keep i [] = (0, none)
cross_back keep i (m ∷ ms) =
    cross_here keep i (chars_to_tokens (char_count m.content)) (cross_back keep (suc i) ms)

unfoldable pub is_cut : CompactMessage → Bool
is_cut m = not (str_eq m.role "tool")

-- `(i..i + len).find(valid)`, over the messages from the index `i` on.
unfoldable pub find_cut : ℕ → List CompactMessage → Option ℕ
unfolding is_cut
find_cut i [] = none
find_cut i (m ∷ ms) = let rest = find_cut (suc i) ms in if is_cut m then some i else rest

abbrev pub or_cut : Option ℕ → Option ℕ → Option ℕ
or_cut (some c) other = some c
or_cut none other = other

-- `(i..i + len).rev().find(valid)`.
unfoldable pub find_cut_back : ℕ → List CompactMessage → Option ℕ
unfolding is_cut
find_cut_back i [] = none
find_cut_back i (m ∷ ms) = or_cut (find_cut_back (suc i) ms) (if is_cut m then some i else none)

-- The search from the crossing, over the messages from the index 1 on.
abbrev pub cut_from : List CompactMessage → Option ℕ → Option ℕ
cut_from rest none = none
cut_from rest (some crossing) =
    or_cut (find_cut crossing (drop (crossing - 1) rest))
      (find_cut_back 1 (take (crossing - 1) rest))

unfoldable pub cut_point : List CompactMessage → ℕ → Option ℕ
unfolding cross_back find_cut find_cut_back
cut_point [] keep_tokens = none
cut_point (m ∷ []) keep_tokens = none
cut_point (m ∷ n ∷ rest) keep_tokens = cut_from (n ∷ rest) (cross_back keep_tokens 1 (n ∷ rest)).1

unfoldable pub truncate_for_summary : String → String
unfolding ◌<>◌ decimal
truncate_for_summary text =
    if leb (char_count text) summary_tool_cap
    then text
    else take_chars summary_tool_cap text
      <> "\n\n[... "
      <> decimal (char_count text - summary_tool_cap)
      <> " more characters truncated]"

unfoldable pub payload_part : CompactMessage → String
unfolding ◌<>◌ truncate_for_summary
payload_part m =
    "["
    <> m.role
    <> "]: "
    <> (if str_eq m.role "tool" then truncate_for_summary m.content else m.content)

unfoldable pub summary_payload : List CompactMessage → String
unfolding payload_part join
summary_payload messages = join "\n\n" (map payload_part messages)

abbrev pub summary_prompt : String
summary_prompt =
    "Summarize the conversation above as a context checkpoint for an agent that must continue the work. Do not continue the conversation or answer anything in it. Use this exact format:\n## Goal\n[the task being accomplished]\n## Progress\n[done / in progress / blocked, with exact file paths and commands]\n## Key decisions\n[what was decided and why, including errors hit and how they were resolved]\n## Next steps\n[the immediate next action]"

abbrev pub summary_system : String
summary_system =
    "You are a context summarization assistant. Read the conversation and output only the structured summary requested; never continue the conversation and never call a tool."
