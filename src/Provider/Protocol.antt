-- ===== src/Provider/Protocol.antt =====
-- crates/provider-openai/src/protocol.rs and pricing.rs: the body of a request, and how the body of an
-- answer is read. `serde` reads the body into `ChatResp`.
pub mod Answers
use rof_harness.Base.{
  ℕ, suc, ◌-◌, String, Bool, true, false, ◌&&◌, ◌||◌, not, Option, none, some, List, [], ◌∷◌, ◌++◌,
  map, any, ltb, is_empty, str_eq, inl, inr, ◌⊎◌, if◌then◌else◌,
}
use rof_harness.Base.Text.{◌<>◌, decimal}
use rof_harness.Base.Chars.{byte_len, is_blank, trim, starts_with}
use rof_harness.Host.{Host}
use rof_harness.Log.Types.{IoResult, ok, err}
use rof_harness.Provider.{
  AssistantMessage, Response, StopReason, ToolCallRef, Usage, max_tokens, count_or_zero,
}
use rof_harness.Provider.Json.{Json, parse_streaming_json}
use rof_harness.Provider.Request.{ProviderMessage, Request, infer_stop}
use rof_harness.Provider.Retry.{WireKnobs}
use rof_harness.Tools.{ToolDeclaration}

pub record WireFunc : Type 0 where
  pub name : Option String
  pub arguments : Option String

pub record WireToolCall : Type 0 where
  pub id : Option String
  pub function : WireFunc

pub record ChoiceMsg : Type 0 where
  pub content : String
  pub reasoning_content : String
  pub reasoning : String
  pub tool_calls : List WireToolCall

pub record Choice : Type 0 where
  pub message : ChoiceMsg
  pub finish_reason : Option String

pub record CachedDetail : Type 0 where
  pub cached_tokens : ℕ

pub record ReasonDetail : Type 0 where
  pub reasoning_tokens : ℕ

pub record WireUsage : Type 0 where
  pub prompt_tokens : ℕ
  pub completion_tokens : ℕ
  pub prompt_tokens_details : Option CachedDetail
  pub completion_tokens_details : Option ReasonDetail

pub record ChatResp : Type 0 where
  pub choices : List Choice
  pub usage : Option WireUsage

pub record BodyFail (H : Host) : Type 0 where
  pub msg : String
  pub usage : Option (Usage H)

-- What the wire takes from elsewhere: JSON values, the constants and the division of `f64`, and
-- `serde_json::from_value` for a body.
pub record Wire (H : Host) : Type 0 where
  pub json : Json H
  -- `literal n k` is the constant n / 10 ^ k.
  pub literal : ℕ → ℕ → H.Float
  pub float_div : H.Float → H.Float → H.Float
  pub read_chat : H.Value → IoResult ChatResp

abbrev pub text_or : String → Option String → String
text_or d none = d
text_or d (some s) = s

-- `.filter(|&n| n > 0)`.
abbrev pub positive : Option ℕ → Option ℕ
positive none = none
positive (some n) = if ltb 0 n then some n else none

abbrev pub cached : Option CachedDetail → ℕ
cached none = 0
cached (some d) = d.cached_tokens

abbrev pub reasoned : Option ReasonDetail → Option ℕ
reasoned none = none
reasoned (some d) = some d.reasoning_tokens

abbrev pub is_cut_off : StopReason → Bool
is_cut_off max_tokens = true
is_cut_off _ = false

-- `b[key] = value` on the entries of an object.
unfoldable pub set_entry {ℓ} : {A : Type ℓ} → String → A → List (String × A) → List (String × A)
set_entry key value [] = (key, value) ∷ []
set_entry key value ((k, v) ∷ rest) =
    let tail = set_entry key value rest in if str_eq key k then (k, value) ∷ rest else (k, v) ∷ tail

unfoldable pub set_entries {ℓ} :
    {A : Type ℓ} → List (String × A) → List (String × A) → List (String × A)
unfolding set_entry
set_entries [] entries = entries
set_entries ((k, v) ∷ more) entries = set_entries more (set_entry k v entries)

abbrev pub entries_of {ℓ} : {A : Type ℓ} → Option (List (String × A)) → List (String × A)
entries_of none = []
entries_of (some entries) = entries

abbrev pub is_thinking : Option String → Bool
is_thinking none = false
is_thinking (some t) = not (is_blank t)

-- The text that a row echoes under the key `reasoning_content`.
unfoldable pub echoed : Option String → String
unfolding is_blank
echoed none = ""
echoed (some t) = if is_blank t then "" else t

module _ {H : Host} where
  unfoldable pub thinking_mode : List (ProviderMessage H) → Bool
  unfolding is_blank
  thinking_mode messages = any (λ m. str_eq m.role "assistant" && is_thinking m.thinking) messages

  unfoldable pub ends_on_tool : List (ProviderMessage H) → Bool
  ends_on_tool [] = false
  ends_on_tool (m ∷ []) = str_eq m.role "tool"
  ends_on_tool (m ∷ n ∷ rest) = ends_on_tool (n ∷ rest)

  unfoldable pub echo_key : List (ProviderMessage H) → Bool
  unfolding thinking_mode ends_on_tool
  echo_key messages = thinking_mode messages || ends_on_tool messages

module _ {H : Host} (W : Wire H) where
  abbrev pub args_text : H.Value → Option String → String
  args_text v none = H.value_text v
  args_text v (some s) = s

  abbrev pub text : String → H.Value
  text s = H.text_value s

  abbrev pub object : List (String × H.Value) → H.Value
  object entries = W.json.object entries

  unfoldable pub wire_call : ToolCallRef H → H.Value
  wire_call tc = object (
      ("id", text tc.id)
      ∷ ("type", text "function")
      ∷ (
        "function",
        object (
            ("name", text tc.name)
            ∷ ("arguments", text (args_text tc.args (H.as_text tc.args)))
            ∷ []),
      )
      ∷ [])

  abbrev pub id_entry : Option String → List (String × H.Value)
  id_entry none = []
  id_entry (some id) = ("tool_call_id", text id) ∷ []

  -- The entries of one row; no two of them have the same key.
  unfoldable pub wire_row : Bool → ProviderMessage H → List (String × H.Value)
  unfolding wire_call echoed
  wire_row echo m =
      ("role", text m.role) ∷ ("content", text m.content) ∷ []
      ++ (if is_empty m.tool_calls
          then []
          else ("tool_calls", W.json.array (map wire_call m.tool_calls)) ∷ [])
      ++ id_entry m.tool_call_id
      ++ (if str_eq m.role "assistant" && echo
          then ("reasoning_content", text (echoed m.thinking)) ∷ []
          else [])

  abbrev pub wire_tool : ToolDeclaration H → H.Value
  wire_tool t = object (
      ("type", text "function")
      ∷ (
        "function",
        object (
            ("name", text t.name)
            ∷ ("description", text t.description)
            ∷ ("parameters", t.schema)
            ∷ []),
      )
      ∷ [])

  abbrev pub off_entries : Option H.Value → List (String × H.Value)
  off_entries none = []
  off_entries (some frag) = entries_of (H.object_entries frag)

  unfoldable pub wire_entries : String → Request H → WireKnobs H → List (String × H.Value)
  unfolding wire_row set_entry set_entries echo_key
  wire_entries model req k =
      let rows = map (λ m. object (wire_row (echo_key req.messages) m)) req.messages in
      let start =
        ("model", text model)
        ∷ ("messages", W.json.array rows)
        ∷ ("max_tokens", W.json.number k.max_tokens)
        ∷ [] in
      let quiet =
        if k.thinking_suppressed then set_entries (off_entries k.thinking_off) start else start in
      let tooled =
        if is_empty req.tools
        then quiet
        else set_entry "tools" (W.json.array (map wire_tool req.tools)) quiet in
      set_entries (entries_of (H.object_entries req.extras)) tooled

  unfoldable pub wire_body : String → Request H → WireKnobs H → H.Value
  unfolding wire_entries
  wire_body model req k = object (wire_entries model req k)

  -- The rates of a model for a hit, a miss and the output.
  unfoldable pub rates : String → Option (H.Float × H.Float × H.Float)
  unfolding starts_with
  rates m =
      if starts_with m "deepseek-flash"
        || starts_with m "deepseek-v4-flash"
        || starts_with m "deepseek-v4.1-flash"
      then some (W.literal 6 3, W.literal 30 2, W.literal 120 2)
      else if starts_with m "deepseek-v4-pro"
      then some (W.literal 44 3, W.literal 132 2, W.literal 396 2)
      else if starts_with m "glm-5.3-flash"
      then some (W.literal 3 2, W.literal 15 2, W.literal 50 2)
      else none

  abbrev pub price_at : Option (H.Float × H.Float × H.Float) → ℕ → ℕ → ℕ → Option H.Float
  price_at none input cache_read output = none
  price_at (some (hit, miss, out)) input cache_read output = some (
      W.float_div
        (H.float_add
          (H.float_add (H.float_mul (H.float_of cache_read) hit)
            (H.float_mul (H.float_of (input - cache_read)) miss))
          (H.float_mul (H.float_of output) out))
        (W.literal 1000000 0))

  unfoldable pub price_usd : String → ℕ → ℕ → ℕ → Option H.Float
  unfolding rates
  price_usd model input cache_read output = price_at (rates model) input cache_read output

  unfoldable pub wire_usage : Option WireUsage → String → Option (Usage H)
  unfolding price_usd
  wire_usage none model = none
  wire_usage (some u) model =
      let cache_read = cached u.prompt_tokens_details in
      some (record {
        input = u.prompt_tokens;
        output = u.completion_tokens;
        cache_read = cache_read;
        cache_write = 0;
        reasoning = positive (reasoned u.completion_tokens_details);
        cost_usd = price_usd model u.prompt_tokens cache_read u.completion_tokens;
      })
