-- ===== src/Loop/Admission.antt =====
-- When crates/agent-loop starts a provider call, and what failed attempts lead to.
use rof_harness.Base.{
  ◌+◌, ◌≡◌, refl, String, true, false, none, some, arith, u32, sat_add32, List, [], ◌∷◌, all, keep,
  length,
}
use rof_harness.Budget.Guard.{may_step, record_step}
use rof_harness.Host.{Host}
use rof_harness.Loop.Gate.{admit, is_open}
use rof_harness.Loop.Provider.{start_step, start_provider_call}
use rof_harness.Loop.State.{LoopState, count_open, is_open_call, open_tools}
use rof_harness.Loop.Types.{Clock, ToolCallState, step_retry_budget}

-- The calls that `retain` keeps are the open ones, and all of them.
keep-open :
    (cs : List (String × ToolCallState))
    → (all is_open_call (keep is_open_call cs) ≡ true)
      × (count_open (keep is_open_call cs) ≡ count_open cs)
      × (length (keep is_open_call cs) ≡ count_open cs)
keep-open [] = (refl, refl, refl)
keep-open ((id, c) ∷ cs) =
    let (a, n, l) = keep-open cs in (ground (arith, a), ground (arith, n), ground (arith, l))

module _ {H : Host} where
  -- A call that was started is the only one in flight and belongs to the turn; the latch is cleared,
  -- the step and the guard's step are counted, a fresh step has all its retries where a continued
  -- one keeps what it had, and of the tool calls exactly the open ones are left.
  pub record IsStarted (s s' : LoopState H) (token : H.Token) : Type 0 where
    pub was_free : s.in_flight ≡ none
    pub was_open : is_open s.gate ≡ true
    pub flies : s'.in_flight ≡ some (record { turn = s.turn; token = token })
    pub unlatched : s'.call_model ≡ false
    pub counted : s'.step ≡ u32 (s.step + 1)
    pub guard_counted : s'.budget.counters.steps ≡ sat_add32 s.budget.counters.steps 1
    pub fresh_retries : s.call_model ≡ false → s'.step_retries ≡ step_retry_budget
    pub kept_retries : s.call_model ≡ true → s'.step_retries ≡ s.step_retries
    pub only_open : all is_open_call s'.tool_calls ≡ true
    pub all_open : (open_tools s' ≡ open_tools s) × (length s'.tool_calls ≡ open_tools s)
    pub same_rows : s'.items ≡ s.items

  -- If a provider call starts, the slot was free and the gate open; the call is then in flight in
  -- its turn, the latch is cleared, the step is counted, also by the guard, the answered tool calls
  -- have left the table and all open ones stay, and the rows are unchanged; and a second start right
  -- after it is refused and changes nothing.
  pub single_flight :
      (t u : Clock) (s : LoopState H) (root other token : H.Token)
      → (start_provider_call t s root).1 ≡ some token
      → IsStarted s (start_provider_call t s root).0 token
        × (start_provider_call u (start_provider_call t s root).0 other
            ≡ ((start_provider_call t s root).0, none))
  unfolding start_provider_call start_step admit may_step record_step open_tools
  single_flight t u s root other token h = (ground (arith, keep-open s.tool_calls), ground arith)
