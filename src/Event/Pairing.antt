-- ===== src/Event/Pairing.antt =====
-- crates/agent-event/src/pairing.rs: every Start is paired with an End. A `HashSet` is the list of
-- its elements, in the order of their insertion.
mod Sets
pub mod Meaning
use rof_harness.Base.{
  ℕ, ◌+◌, ◌%◌, ◌≤◌, ◌≡◌, refl, sym, ◌∙◌, ◌↔◌, inl, inr, Bool, true, false, ◌&&◌, ◌||◌, String, List,
  [], ◌∷◌, arith, leb, ◌==◌, ==_iff, str_eq, str_eq_iff, if◌then◌else◌, all, any, Bool-cases,
}
use rof_harness.Host.{Host}
use rof_harness.Event.Types.{
  AgentEvent, run_start, run_end, turn_start, turn_end, message_start, message_end, tool_start,
  tool_end,
}

-- The sets, over any key with a Boolean equality.
module _ {K : Type 0} (eq : K → K → Bool) where
  unfoldable pub contains : K → List K → Bool
  contains k [] = false
  contains k (j ∷ ks) = eq j k || contains k ks

  unfoldable pub insert : K → List K → List K
  unfolding contains
  insert k ks = if contains k ks then ks else k ∷ ks

-- An `i32`, as its bits: `n += 1`, and `a <= b` with the sign that the bits stand for. An addition
-- that overflows wraps, as it does where the checks of a debug build are off.
abbrev pub i32_next : ℕ → ℕ
i32_next n = (n + 1) % 4294967296

abbrev pub i32_leb : ℕ → ℕ → Bool
i32_leb a b = leb ((a + 2147483648) % 4294967296) ((b + 2147483648) % 4294967296)

pub record Seen : Type 0 where
  pub run_starts : ℕ
  pub run_ends : ℕ
  pub turn_starts : List ℕ
  pub turn_ends : List ℕ
  pub msg_starts : List ℕ
  pub msg_ends : List ℕ
  pub tool_starts : List String
  pub tool_ends : List String

abbrev nothing_seen : Seen
nothing_seen = record {
  run_starts = 0;
  run_ends = 0;
  turn_starts = [];
  turn_ends = [];
  msg_starts = [];
  msg_ends = [];
  tool_starts = [];
  tool_ends = [];
}

module _ {H : Host} where
  -- The body of the loop.
  unfoldable pub see : Seen → AgentEvent H → Seen
  unfolding insert
  see s (run_start _ _) = record s { run_starts = i32_next s.run_starts }
  see s (run_end _ _) = record s { run_ends = i32_next s.run_ends }
  see s (turn_start turn) = record s { turn_starts = insert ◌==◌ turn s.turn_starts }
  see s (turn_end turn _ _) = record s { turn_ends = insert ◌==◌ turn s.turn_ends }
  see s (message_start id _ _) = record s { msg_starts = insert ◌==◌ id s.msg_starts }
  see s (message_end id _ _ _) = record s { msg_ends = insert ◌==◌ id s.msg_ends }
  see s (tool_start id _ _) = record s { tool_starts = insert str_eq id s.tool_starts }
  see s (tool_end id _ _) = record s { tool_ends = insert str_eq id s.tool_ends }
  see s _ = s

  unfoldable pub scan : Seen → List (AgentEvent H) → Seen
  unfolding see
  scan s [] = s
  scan s (e ∷ es) = scan (see s e) es

unfoldable pub balanced : Seen → Bool
unfolding contains
balanced s =
    i32_leb s.run_starts s.run_ends
    && all (λ t. contains ◌==◌ t s.turn_ends) s.turn_starts
    && all (λ m. contains ◌==◌ m s.msg_ends) s.msg_starts
    && all (λ t. contains str_eq t s.tool_ends) s.tool_starts

unfoldable pub check_pairing : {H : Host} → List (AgentEvent H) → Bool
unfolding scan balanced
check_pairing es = balanced (scan nothing_seen es)
