-- ===== src/Examples/Calls.antt =====
-- The theorems on the registry, the context and the provider's errors, at concrete values.
use rof_harness.Base.{
  ℕ, ◌+◌, arith, ◌≤◌, ◌≡◌, ◌↔◌, ◌⊎◌, refl, true, false, none, some, List, [], ◌∷◌, inl, inr,
  Bool-cases, str_eq, str_eq_iff,
}
use rof_harness.Base.Text.{decimal}
use rof_harness.Base.Chars.{starts_with}
use rof_harness.ToolsStd.Hunk.{apply_hunk}
use rof_harness.ToolsStd.Hunk.Matches.{Occurs, OnlyAt, replaced_at, apply_hunk_iff}
use rof_harness.Host.{plain_host}
use rof_harness.Context.Assemble.{ContextItem, shape, windowed}
use rof_harness.Context.Compact.{
  CompactMessage, cut_point, cross_back, find_cut, is_cut, chars_to_tokens,
}
use rof_harness.Context.Cut.{IsCutAt, cut_point-IsCutAt}
use rof_harness.Context.Fit.{IsFitted, shape-IsFitted}
use rof_harness.Log.Types.{ok}
use rof_harness.Provider.Errors
use rof_harness.Provider.Errors.{
  wrapped, cancelled, LlmError, classify_error, metered, http, is_denied, is_transient, fatal,
  retryable, overload, context_overflow,
}
use rof_harness.Provider.{Response}
use rof_harness.Provider.Client.{Transport, unsent, complete}
use rof_harness.Provider.Client.Ends.{IsEnd, complete-IsEnd}
use rof_harness.Provider.Request.{Request, auto}
use rof_harness.Provider.Json.{Json}
use rof_harness.Provider.Protocol.{ChatResp, Wire, wire_usage}
use rof_harness.Provider.Protocol.Answers.{IsBodyAnswer, parse_body, parse_body-IsBodyAnswer}
use rof_harness.Provider.Retry.{
  below, from_req, WireKnobs, apply_ladder, apply_ladder_lem, rungs, max_tokens_ceiling,
}
use rof_harness.Registry.{Registry, Tool, allow, get_tool, prepare, validate_strict}
use rof_harness.Registry.Prepare.{prepare_iff}
use rof_harness.Tools.{ToolCall, Invocation, dispatch}

abbrev view_call : ToolCall plain_host
view_call = record { call_id = "1"; name = "view"; args = "a" }

abbrev view_inv : Invocation plain_host
view_inv = record { call_id = "1"; name = "view"; args = "a" }

abbrev view_tool : Tool plain_host
view_tool = record {
  definition = record { name = "view"; description = "reads"; schema = "s" };
  prepare_call = λ call. dispatch view_inv;
}

abbrev registry : Registry plain_host
registry = record { tools = ("view", view_tool) ∷ []; gate = λ agent tool args. allow }

prepare_iff_example : (prepare (λ s. s) registry "main" view_call ≡ dispatch view_inv) ↔ (
    (registry.gate "main" "view" "a" ≡ allow)
    × (tool : Tool plain_host) × (get_tool "view" registry.tools ≡ some tool)
    × (validate_strict plain_host (λ s. s) tool.definition.schema "a" ≡ ok tt)
    × (tool.prepare_call view_call ≡ dispatch view_inv))
prepare_iff_example = prepare_iff (λ s. s) registry "main" view_call view_inv

abbrev talk : List CompactMessage
talk =
    record { role = "user"; content = "fix it" }
    ∷ record { role = "tool"; content = "ran" }
    ∷ record { role = "assistant"; content = "done" }
    ∷ []

assistant_is_cut : str_eq "assistant" "tool" ≡ false
assistant_is_cut = elim (Bool-cases (str_eq "assistant" "tool")) [
  | inl e ↦ let h = (str_eq_iff "assistant" "tool").0 e in absurd (cc)
  | inr e ↦ e
]

cut_point-IsCutAt_example : (1 ≤ 2) × IsCutAt talk 2
unfolding cut_point cross_back find_cut is_cut chars_to_tokens
cut_point-IsCutAt_example = cut_point-IsCutAt talk 1 2 (rw assistant_is_cut refl)

abbrev log_item : ContextItem
log_item = record {
  key = record { path = "log"; region = "tail"; role = "system" };
  fidelity = windowed "error" 5000;
  must_include = true;
  text = "an error";
}

shape-IsFitted_example : IsFitted log_item log_item.fidelity 4 (shape log_item 4)
shape-IsFitted_example = shape-IsFitted log_item 4

classify_error_http_example :
    let c = classify_error plain_host (metered (http 429 none "wait") none true) in
    (classify_error plain_host (metered cancelled none true) ≡ fatal)
    × (is_denied 429 ≡ true → (c ≡ fatal) ⊎ (c ≡ context_overflow))
    × (is_denied 429 ≡ false
        → is_transient 429 ≡ true
        → (c ≡ retryable) ⊎ ((c ≡ overload) ⊎ (c ≡ context_overflow)))
unfolding wrapped classify_error
classify_error_http_example =
    Errors.classify_error_http plain_host ((none, true) ∷ []) cancelled 429 none "wait"

abbrev knobs : WireKnobs plain_host
knobs = record { max_tokens = 2000; thinking_off = some "off"; thinking_suppressed = false }

apply_ladder_lem_example :
    let (k', applied) = apply_ladder knobs 0 10 in
    (applied ≡ true
      → (rungs knobs ≡ rungs k' + 1)
        × (2000 ≤ k'.max_tokens)
        × ((k'.max_tokens ≡ 2000) ⊎ (k'.max_tokens ≤ max_tokens_ceiling))
        × ((k'.thinking_suppressed ≡ false) ⊎ (k'.max_tokens ≡ 2000)))
    × (applied ≡ false → (k' ≡ knobs) × ((knobs.max_tokens ≡ 0) ⊎ (max_tokens_ceiling ≤ 2000)))
apply_ladder_lem_example = apply_ladder_lem knobs 0 10

b_stands : Occurs "a bc" "b" 2
unfolding starts_with
b_stands = refl

apply_hunk_iff_example :
    (apply_hunk "a bc" "b" "x" ≡ ok "a xc")
    ↔ ((start : ℕ) × OnlyAt "a bc" "b" start × ("a xc" ≡ replaced_at "a bc" "b" "x" refl start))
apply_hunk_iff_example = apply_hunk_iff "a bc" "b" "x" refl 2 "a xc" b_stands

abbrev plain_json : Json plain_host
plain_json = record {
  from_str = λ s. some s;
  object = λ entries. "{}";
  array = λ items. "[]";
  number = decimal;
  debug_text = λ s. s;
}

abbrev body : ChatResp
body = record {
  choices =
      record {
        message = record {
          content = "hi";
          reasoning_content = "";
          reasoning = "r";
          tool_calls = [];
        };
        finish_reason = some "stop";
      }
      ∷ [];
  usage = some (record {
    prompt_tokens = 10;
    completion_tokens = 4;
    prompt_tokens_details = none;
    completion_tokens_details = none;
  });
}

abbrev plain_wire : Wire plain_host
plain_wire = record {
  json = plain_json;
  literal = λ n k. n;
  float_div = λ a b. a;
  read_chat = λ v. ok body;
}

parse_body-IsBodyAnswer_example :
    IsBodyAnswer plain_wire
      (wire_usage plain_wire body.usage "m")
      (parse_body plain_wire "v" "m" 64)
parse_body-IsBodyAnswer_example = parse_body-IsBodyAnswer plain_wire "v" "m" 64 body refl

abbrev plain_transport : Transport plain_host ℕ
plain_transport = record {
  wire = plain_wire;
  chat_of_text = λ s. none;
  resolve = λ s. none;
  debug_error = λ e. "";
  is_refreshable = false;
  thinking_off = none;
  post = λ v s. (s + 1, unsent "refused");
  sleep = λ d s. s + d;
  backoff = λ s attempt. 1;
  elapsed_ms = λ s. s;
}

abbrev question : Request plain_host
question = record { messages = []; tools = []; max_tokens = 32768; thinking = auto; extras = "" }

complete-IsEnd_example :
    (answer : ℕ × (LlmError plain_host ⊎ Response plain_host)) × (complete plain_transport "m" 24
        question 0
      ≡ some answer)
    × IsEnd plain_transport "m" question (rungs (from_req question none) + 8) answer
    × (rungs (from_req question none) + 8 ≤ 24)
unfolding from_req below
complete-IsEnd_example = complete-IsEnd plain_transport "m" question 0 24 (omega arith)
