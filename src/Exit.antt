-- ===== src/Exit.antt =====
-- crates/rof/src/exit.rs: exit codes of a run and the summary of its events.
use rof_harness.Base.{ℕ, zero, suc, String, List, [], ◌∷◌, map, keep, ltb}
use rof_harness.Base.Text.{◌<>◌, decimal}
use rof_harness.Base.Chars.{join}
use rof_harness.Event.Types.{
  AgentEvent, run_start, run_end, turn_start, turn_end, message_start, message_update, message_end,
  tool_start, tool_end, control, error_event,
}
use rof_harness.Host.{Host}
use rof_harness.Loop.Types.{
  Outcome, log, snapshot, provider, input, done, halted, cancelled, failed,
}

abbrev pub exit_no_credentials : ℕ
exit_no_credentials = 4

unfoldable pub exit_code : Outcome → ℕ
exit_code done = 0
exit_code (halted detail) = 3
exit_code cancelled = 3
exit_code (failed log message) = 5
exit_code (failed snapshot message) = 6
exit_code (failed provider message) = 3
exit_code (failed input message) = 7

abbrev pub names : List String
names =
    "RunStart" ∷ "RunEnd" ∷ "TurnStart" ∷ "TurnEnd" ∷ "MessageStart" ∷ "MessageUpdate"
    ∷ "MessageEnd" ∷ "ToolStart" ∷ "ToolEnd" ∷ "Control" ∷ "Error" ∷ []

unfoldable pub name_index : {H : Host} → AgentEvent H → ℕ
name_index (run_start run_id goal) = 0
name_index (run_end outcome messages) = 1
name_index (turn_start turn) = 2
name_index (turn_end turn reason usage) = 3
name_index (message_start id role message) = 4
name_index (message_update id delta message) = 5
name_index (message_end id message complete usage) = 6
name_index (tool_start id name args) = 7
name_index (tool_end id result failed_call) = 8
name_index (control ack) = 9
name_index (error_event error) = 10

-- `counts[i] += 1`.
unfoldable pub count_at : ℕ → List ℕ → List ℕ
count_at i [] = []
count_at zero (n ∷ ns) = suc n ∷ ns
count_at (suc i) (n ∷ ns) = n ∷ count_at i ns

unfoldable pub counts_of : {H : Host} → List ℕ → List (AgentEvent H) → List ℕ
unfolding name_index count_at
counts_of counts [] = counts
counts_of counts (e ∷ es) = counts_of (count_at (name_index e) counts) es

unfoldable pub zip_counts : List String → List ℕ → List (String × ℕ)
zip_counts [] ns = []
zip_counts (s ∷ ss) [] = []
zip_counts (s ∷ ss) (n ∷ ns) = (s, n) ∷ zip_counts ss ns

abbrev pub zero_counts : List ℕ
zero_counts = 0 ∷ 0 ∷ 0 ∷ 0 ∷ 0 ∷ 0 ∷ 0 ∷ 0 ∷ 0 ∷ 0 ∷ 0 ∷ []

unfoldable pub summarize : {H : Host} → List (AgentEvent H) → String
unfolding counts_of zip_counts join decimal ◌<>◌
summarize events = join " " (
    map (λ entry. entry.0 <> "=" <> decimal entry.1)
      (keep (λ entry. ltb 0 entry.1) (zip_counts names (counts_of zero_counts events))))
