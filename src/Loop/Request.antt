-- ===== src/Loop/Request.antt =====
-- crates/agent-loop/src/request.rs: the request that is derived from the log.
pub mod Compaction
use rof_harness.Base.{
  ℕ, zero, suc, ◌+◌, ◌-◌, String, Bool, true, false, ◌&&◌, not, Option, none, some, List, [], ◌∷◌,
  ◌++◌, map, leb, ltb, str_eq, if◌then◌else◌,
}
use rof_harness.Base.Text.{◌<>◌, decimal}
use rof_harness.Base.Chars.{byte_len, take_chars, join}
use rof_harness.Host.{Host}
use rof_harness.Budget.Guard.{BudgetGuard}
use rof_harness.Context.{collapse_boundary, collapse_keep}
use rof_harness.Context.Assemble.{ContextItem, ContextAssembler, exact, add, add_volatile, assemble}
use rof_harness.Context.Assemble
use rof_harness.Context.Compact.{drop}
use rof_harness.Log.Types.{Item, ItemKind, IoResult, ok, err, input, assistant, tool_result}
use rof_harness.Provider.{AssistantMessage}
use rof_harness.Provider.Request.{ProviderMessage, Request, auto}
use rof_harness.Tools.{ToolDeclaration}
use rof_harness.Loop.State.{LoopState}
use rof_harness.Loop.Types.{RunConfig, Checkpoint, contract, level_rank}

-- `serde_json::from_value` at an assistant message.
abbrev pub FromValue : Host → Type 0
FromValue H = H.Value → IoResult (AssistantMessage H)

-- `context::file_map(workdir, n)` and `context::named_file_contents(workdir, path, cap).ok()`.
pub record Files : Type 0 where
  pub file_map : ℕ → List String
  pub named_file_contents : String → ℕ → Option String

abbrev pub pin_cap_chars : ℕ
pin_cap_chars = 8000

abbrev pub checkpoint_prefix : String
checkpoint_prefix =
    "[context checkpoint: earlier turns were summarized to save tokens; the durable log still holds them]"

abbrev pub workflow_contract : String
workflow_contract =
    "WORKFLOW CONTRACT\nbudgets remaining are printed on the last line of the newest message; read them there.\ntool results older than the last 5 are collapsed to one line; re-open a file immediately before editing it.\nwork file-by-file: view -> edit immediately -> next file. `edit` and `write` are the ONLY patch mechanisms — never write files via exec; exec/test are for checks only.\nwhen your patch is complete, reply with a text message and NO tool calls — that finishes the run."

-- `pin_snapshot`: the named files that can be read.
abbrev pub pinned : String → Option String → List (String × String) → List (String × String)
pinned f none rest = rest
pinned f (some c) rest = (f, c) ∷ rest

unfoldable pub pin_snapshot : Files → List String → List (String × String)
pin_snapshot fs [] = []
pin_snapshot fs (f ∷ names) =
    pinned f (fs.named_file_contents f pin_cap_chars) (pin_snapshot fs names)

abbrev pub get_or : {A : Type 0} → Option A → A → A
get_or none fresh = fresh
get_or (some old) fresh = old

-- An item of the system message.
abbrev pub system_item : String → String → String → ContextItem
system_item path region text = record {
  key = record { path = path; region = region; role = "system" };
  fidelity = exact;
  must_include = true;
  text = text;
}

abbrev pub is_unchanged : Option String → String → Bool
is_unchanged none start = false
is_unchanged (some now) start = str_eq now start

-- The pins whose file still reads as it did at the start.
unfoldable pub add_pins : Files → ContextAssembler → List (String × String) → ContextAssembler
unfolding add_volatile
add_pins fs a [] = a
add_pins fs a ((f, start) ∷ rest) =
    add_pins fs
      (if is_unchanged (fs.named_file_contents f pin_cap_chars) start
        then add_volatile a (system_item f "named" start)
        else a)
      rest

unfoldable pub stub : String → String
unfolding ◌<>◌ decimal byte_len
stub content =
    "[collapsed: "
    <> decimal (byte_len content)
    <> "b — re-open to edit] "
    <> take_chars 120 content

module _ {H : Host} where
  abbrev pub plain_message : String → String → ProviderMessage H
  plain_message role content = record {
    role = role;
    content = content;
    tool_calls = [];
    tool_call_id = none;
    thinking = none;
  }

  -- A row that cannot be read back surfaces a marker.
  unfoldable pub recovered : IoResult (AssistantMessage H) → AssistantMessage H
  unfolding ◌<>◌
  recovered (ok am) = am
  recovered (err e) = record {
    content = "[corrupt assistant row: " <> e <> "]";
    tool_calls = [];
    thinking = none;
  }

  abbrev pub assistant_row : AssistantMessage H → ProviderMessage H
  assistant_row am = record {
    role = "assistant";
    content = am.content;
    tool_calls = am.tool_calls;
    tool_call_id = none;
    thinking = am.thinking;
  }

  -- What one row adds to the conversation.
  unfoldable pub row_messages : FromValue H → ItemKind H → List (ProviderMessage H)
  unfolding recovered
  row_messages from_value (input id text source) = plain_message "user" text ∷ []
  row_messages from_value (assistant message label hidden) =
      assistant_row (recovered (from_value message)) ∷ []
  row_messages from_value (tool_result id content failed code) =
      record {
        role = "tool";
        content = content;
        tool_calls = [];
        tool_call_id = some id;
        thinking = none;
      }
      ∷ []
  row_messages from_value _ = []

  unfoldable pub fold_rows : FromValue H → List (Item H) → List (ProviderMessage H)
  unfolding row_messages
  fold_rows from_value [] = []
  fold_rows from_value (i ∷ is) = row_messages from_value i.kind ++ fold_rows from_value is

  abbrev pub has_role : String → ProviderMessage H → Bool
  has_role role m = str_eq m.role role

  unfoldable pub count_role : String → List (ProviderMessage H) → ℕ
  count_role role [] = 0
  count_role role (m ∷ ms) =
      let rest = count_role role ms in if has_role role m then suc rest else rest

  -- The first `n` assistant rows lose their reasoning.
  unfoldable pub blank_thinking : ℕ → List (ProviderMessage H) → List (ProviderMessage H)
  blank_thinking zero ms = ms
  blank_thinking (suc n) [] = []
  blank_thinking (suc n) (m ∷ ms) =
      let here = record m { thinking = none } ∷ blank_thinking n ms in
      let on = m ∷ blank_thinking (suc n) ms in if has_role "assistant" m then here else on

  -- The first `n` tool rows shrink to a stub.
  unfoldable pub collapse_rows : ℕ → List (ProviderMessage H) → List (ProviderMessage H)
  unfolding stub
  collapse_rows zero ms = ms
  collapse_rows (suc n) [] = []
  collapse_rows (suc n) (m ∷ ms) =
      let here = record m { content = stub m.content } ∷ collapse_rows n ms in
      let on = m ∷ collapse_rows (suc n) ms in if has_role "tool" m then here else on

  unfoldable pub raw_messages_with :
      FromValue H → LoopState H → RunConfig H → ℕ → List (ProviderMessage H)
  unfolding fold_rows count_role blank_thinking collapse_rows collapse_boundary
  raw_messages_with from_value s cfg hysteresis =
      let out = fold_rows from_value s.items in
      let trimmed = blank_thinking (count_role "assistant" out - cfg.thinking_keep) out in
      collapse_rows (collapse_boundary (count_role "tool" trimmed) collapse_keep hysteresis) trimmed

  unfoldable pub raw_messages : FromValue H → LoopState H → RunConfig H → List (ProviderMessage H)
  unfolding raw_messages_with
  raw_messages from_value s cfg = raw_messages_with from_value s cfg cfg.collapse_hysteresis

  unfoldable pub summary_message : String → ProviderMessage H
  unfolding ◌<>◌
  summary_message summary = plain_message "user" (checkpoint_prefix <> "\n" <> summary)

  -- `raw[cp.keep_from..]`, which the source takes of a list at least that long.
  abbrev pub behind : Option Checkpoint → List (ProviderMessage H) → List (ProviderMessage H)
  behind none raw = raw
  behind (some cp) raw = summary_message cp.summary ∷ drop cp.keep_from raw

  unfoldable pub derived_messages :
      FromValue H → LoopState H → RunConfig H → List (ProviderMessage H)
  unfolding raw_messages summary_message
  derived_messages from_value s cfg = behind s.checkpoint (raw_messages from_value s cfg)

  unfoldable pub budget_line : LoopState H → String
  unfolding ◌<>◌ decimal
  budget_line s =
      let cfg = s.budget.config in
      let c = s.budget.counters in
      "budgets remaining: steps "
      <> decimal (cfg.max_steps - c.steps)
      <> "/"
      <> decimal cfg.max_steps
      <> "; actions "
      <> decimal (cfg.actions_per_trial - c.actions_this_trial)
      <> "/"
      <> decimal cfg.actions_per_trial
      <> "; tokens "
      <> decimal (cfg.max_tokens - c.tokens)
      <> "/"
      <> decimal cfg.max_tokens

  -- The line lands on the last message of the history, or is its one message.
  unfoldable pub add_budget_line : String → List (ProviderMessage H) → List (ProviderMessage H)
  unfolding ◌<>◌
  add_budget_line line [] = plain_message "user" line ∷ []
  add_budget_line line (m ∷ []) = record m { content = m.content <> "\n" <> line } ∷ []
  add_budget_line line (m ∷ n ∷ ms) = m ∷ add_budget_line line (n ∷ ms)

  abbrev pub held_row : Option String → List (ProviderMessage H)
  held_row none = []
  held_row (some nudge) = plain_message "user" nudge ∷ []

  -- The system message.
  unfoldable pub system_text : Files → RunConfig H → String → List (String × String) → String
  unfolding add add_pins assemble Assemble.new
  system_text fs cfg map_text pins =
      let asm = Assemble.new cfg.context_budget_chars in
      let head =
        if leb (level_rank contract) (level_rank cfg.incentives)
        then add asm (system_item "workflow-contract" "contract" workflow_contract)
        else asm in
      assemble (add_pins fs (add head (system_item "file-map" "map" map_text)) pins)

  -- `get_or_insert_with` freezes the file map and the pins where `run` has not.
  unfoldable pub freeze : Files → LoopState H → RunConfig H → LoopState H
  unfolding pin_snapshot join
  freeze fs s cfg = record s {
    file_map = some (get_or s.file_map (join "\n" (fs.file_map 200)));
    pins = some (get_or s.pins (pin_snapshot fs cfg.context_files));
  }

  -- `definitions` is `registry.definitions()`.
  unfoldable pub build_request :
      FromValue H
      → Files
      → List (ToolDeclaration H)
      → LoopState H
      → RunConfig H
      → LoopState H × Request H
  unfolding freeze system_text derived_messages budget_line add_budget_line
  build_request from_value fs definitions s cfg =
      let s' = freeze fs s cfg in
      (
        s',
        record {
          messages =
              plain_message "system"
                  (system_text fs cfg (get_or s'.file_map "") (get_or s'.pins []))
                ∷ add_budget_line (budget_line s') (derived_messages from_value s' cfg)
              ++ held_row s'.verify.hold;
          tools = definitions;
          max_tokens = cfg.max_tokens;
          thinking = auto;
          extras = H.null_value;
        },
      )
