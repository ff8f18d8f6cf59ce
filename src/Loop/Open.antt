-- ===== src/Loop/Open.antt =====
-- How crates/agent-loop opens and closes tool calls.
use rof_harness.Base.{
  ℕ, suc, ◌+◌, ◌≤◌, ◌≡◌, refl, ◌∙◌, String, true, false, none, List, [], ◌∷◌, arith, length,
  length-append, is_none, Bool-cases, inl, inr,
}
use rof_harness.Host.{Host}
use rof_harness.Log.Types.{Item, ItemKind, tool_result}
use rof_harness.Provider.{AssistantMessage, ToolCallRef, StopReason}
use rof_harness.Tools.{ToolResult}
use rof_harness.Loop.Claim.{
  Serde, step_claim, record_tool_result, push_assistant, truncate_call, truncate_calls, claim_call,
  claim_calls, insert_call, get_call, answer_call, is_open_entry,
}
use rof_harness.Loop.State.{LoopState, append_to, open_tools, count_open}
use rof_harness.Loop.Terminate.{
  crash_repair, repair_count, repair_rows, repair_row, repair_calls, repair_call, stick_turn_reason,
}
use rof_harness.Loop.Types.{Clock, RunConfig, ToolCallState}

repaired-closed :
    (reason : String) (cs : List (String × ToolCallState)) → count_open (repair_calls reason cs) ≡ 0
unfolding repair_calls repair_call
repaired-closed reason [] = refl
repaired-closed reason ((id, c) ∷ cs) = ground (arith, repaired-closed reason cs)

repair_count-open :
    (reason : String) (cs : List (String × ToolCallState)) → repair_count reason cs ≡ count_open cs
unfolding repair_count repair_call
repair_count-open reason [] = refl
repair_count-open reason ((id, c) ∷ cs) = ground (arith, repair_count-open reason cs)

insert-open :
    (id : String) (c : ToolCallState) (cs : List (String × ToolCallState))
    → count_open (insert_call id c cs) ≤ count_open cs + count_open ((id, c) ∷ [])
unfolding insert_call
insert-open id c [] = ground arith
insert-open id c ((j, d) ∷ cs) = ground (arith, insert-open id c cs)

answer-open :
    (id : String) (r : ToolResult) (cs : List (String × ToolCallState))
    → is_open_entry (get_call id cs) ≡ true
    → suc (count_open (answer_call id r cs)) ≡ count_open cs
unfolding get_call answer_call
answer-open id r [] h = absurd (cc)
answer-open id r ((j, d) ∷ cs) h = ground (arith, answer-open id r cs)

answered-closed :
    (id : String) (r : ToolResult) (cs : List (String × ToolCallState))
    → is_open_entry (get_call id (answer_call id r cs)) ≡ false
unfolding get_call answer_call
answered-closed id r [] = refl
answered-closed id r ((j, d) ∷ cs) = ground (arith, answered-closed id r cs)

module _ {H : Host} where
  length-append_to :
      (system : ℕ) (items : List (Item H)) (k : ItemKind H)
      → length (append_to system items k) ≡ suc (length items)
  unfolding append_to
  length-append_to system items k = omega (arith, length-append items _)

  repair_rows-length :
      (system : ℕ) (reason : String) (items : List (Item H)) (cs : List (String × ToolCallState))
      → length (repair_rows system reason items cs) ≡ length items + count_open cs
  unfolding repair_rows append_to
  repair_rows-length system reason items [] = omega arith
  repair_rows-length system reason items ((id, c) ∷ cs) = elim (Bool-cases (is_none c.result)) [
    | inl e ↦ rw e (
        omega (
          arith,
          repair_rows-length system reason (repair_row system reason items id) cs,
          length-append items _,
        ))
    | inr e ↦ rw e (repair_rows-length system reason items cs)
  ]

  -- A repaired state has no open tool call, one more row for each call that was open, and reports
  -- their number; repairing it again adds nothing.
  pub crash_repair_closes :
      (t u : Clock) (s : LoopState H) (reason again : String)
      → let (s', n) = crash_repair t s reason in
        (open_tools s' ≡ 0)
        × (n ≡ open_tools s)
        × (length s'.items ≡ length s.items + open_tools s)
        × ((crash_repair u s' again).1 ≡ 0)
        × (length (crash_repair u s' again).0.items ≡ length s'.items)
  unfolding crash_repair open_tools
  crash_repair_closes t u s reason again = (
    repaired-closed reason s.tool_calls,
    repair_count-open reason s.tool_calls,
    repair_rows-length t.system reason s.items s.tool_calls,
    repair_count-open again (repair_calls reason s.tool_calls)
        ∙ repaired-closed reason s.tool_calls,
    omega (
      arith,
      repair_rows-length u.system again (crash_repair t s reason).0.items
          (repair_calls reason s.tool_calls),
      repaired-closed reason s.tool_calls,
    ),
  )

  -- A result that is taken closes exactly one open call and adds one row; a second result for the
  -- same call is not taken and changes nothing.
  pub record_tool_result_once :
      (t u : Clock) (s : LoopState H) (id : String) (r again : ToolResult)
      → let (s', taken) = record_tool_result t s (record { call_id = id; result = r }) in
        taken ≡ true
        → (suc (open_tools s') ≡ open_tools s)
          × (length s'.items ≡ suc (length s.items))
          × (record_tool_result u s' (record { call_id = id; result = again }) ≡ (s', false))
  unfolding record_tool_result open_tools
  record_tool_result_once t u s id r again h =
      let closed = answered-closed id r s.tool_calls in
      (
        ground (arith, answer-open id r s.tool_calls),
        ground
            (arith, length-append_to t.system s.items (tool_result id r.content r.is_error none)),
        ground (arith, closed),
      )

  truncate_calls-open :
      (t : Clock) (s : LoopState H) (tcs : List (ToolCallRef H))
      → open_tools (truncate_calls t s tcs) ≤ open_tools s
  unfolding truncate_calls truncate_call open_tools
  truncate_calls-open t s [] = omega arith
  truncate_calls-open t s (tc ∷ tcs) =
      omega
        (arith, truncate_calls-open t (truncate_call t s tc) tcs, insert-open tc.id _ s.tool_calls)

  claim_calls-open :
      (t : Clock) (s : LoopState H) (tcs : List (ToolCallRef H))
      → open_tools (claim_calls t s tcs) ≤ open_tools s + length tcs
  unfolding claim_calls claim_call open_tools
  claim_calls-open t s [] = omega arith
  claim_calls-open t s (tc ∷ tcs) =
      omega (arith, claim_calls-open t (claim_call t s tc) tcs, insert-open tc.id _ s.tool_calls)

  -- Claiming a message that hit the output limit does not raise the number of open tool calls,
  -- whatever calls it carries.
  pub truncated_opens_nothing :
      (t : Clock) (serde : Serde H) (s : LoopState H) (m : AssistantMessage H) (cfg : RunConfig H)
      → open_tools (step_claim t serde s m StopReason.max_tokens cfg).0 ≤ open_tools s
  unfolding step_claim push_assistant stick_turn_reason open_tools
  truncated_opens_nothing t serde s m cfg = truncate_calls-open t s m.tool_calls
