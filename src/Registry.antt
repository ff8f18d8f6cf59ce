-- ===== src/Registry.antt =====
-- crates/tool-core/src: the permission gate, the registry and the strict validation of arguments.
pub mod Prepare
use rof_harness.Base.{
  ℕ, ◌+◌, ◌-◌, ◌/◌, ◌%◌, ◌≤◌, ◌≡◌, refl, String, Bool, true, false, ◌&&◌, ◌||◌, not, Option, none,
  some, List, [], ◌∷◌, arith, leb, any, map, is_some, str_eq, if◌then◌else◌,
}
use rof_harness.Base.Text.{◌<>◌}
use rof_harness.Base.Chars.{
  char_count, take_chars, drop_chars, text_leb, char_count-take_chars, char_count-drop_chars,
  char_count-append,
}
use rof_harness.Host.{Host}
use rof_harness.Log.Types.{IoResult, ok, err, ◌>>=◌, ◌>>◌}
use rof_harness.Tools.{
  ToolCall, ToolResult, ToolDeclaration, Invocation, CallStatus, dispatch, result,
}

pub data GateDecision : Type 0 where
  allow : GateDecision
  deny : String → Bool → GateDecision
  ask : String → String → GateDecision

abbrev pub max_model_chars : ℕ
max_model_chars = 40000

abbrev pub omitted : String
omitted = "\n...[omitted]...\n"

unfoldable pub bound_text : String → ℕ → String
unfolding ◌<>◌
bound_text s max =
    let n = char_count s in
    let m = char_count omitted in
    let rest = max - m in
    if leb n max
    then s
    else if leb max m
    then take_chars max s
    else take_chars (rest / 2 + rest % 2) s <> omitted <> drop_chars (n - rest / 2) s

unfoldable pub error_result : String → ToolResult
unfolding bound_text
error_result content = record { content = bound_text content max_model_chars; is_error = true }

-- `GrantGate`: the tools that each agent was granted.
unfoldable pub lookup_grants : String → List (String × List String) → Option (List String)
lookup_grants agent [] = none
lookup_grants agent ((a, tools) ∷ rest) =
    let later = lookup_grants agent rest in if str_eq a agent then some tools else later

abbrev pub granted : String → String → Option (List String) → GateDecision
granted agent tool none = deny ("unknown agent: " <> agent) false
granted agent tool (some tools) =
    if any (λ t. str_eq t tool) tools
    then allow
    else deny ("tool not granted to " <> agent <> ": " <> tool) false

unfoldable pub grant_check : List (String × List String) → String → String → GateDecision
unfolding lookup_grants ◌<>◌
grant_check grants agent tool = granted agent tool (lookup_grants agent grants)

-- What the registry asks of a tool: `definition` and `prepare`.
pub record Tool (H : Host) : Type 0 where
  pub definition : ToolDeclaration H
  pub prepare_call : ToolCall H → CallStatus H

pub record Registry (H : Host) : Type 0 where
  pub tools : List (String × Tool H)
  -- `gate.check(agent, tool, args, None)`.
  pub gate : String → String → H.Value → GateDecision

unfoldable pub insert_tool :
    {H : Host} → String → Tool H → List (String × Tool H) → List (String × Tool H)
insert_tool name tool [] = (name, tool) ∷ []
insert_tool name tool ((n, t) ∷ rest) =
    let later = insert_tool name tool rest in
    if str_eq n name then (name, tool) ∷ rest else (n, t) ∷ later

unfoldable pub get_tool : {H : Host} → String → List (String × Tool H) → Option (Tool H)
get_tool name [] = none
get_tool name ((n, t) ∷ rest) =
    let later = get_tool name rest in if str_eq n name then some t else later

module _ (H : Host) where
  -- `obj.get(key)`.
  unfoldable pub get_entry : String → List (String × H.Value) → Option H.Value
  get_entry key [] = none
  get_entry key ((k, v) ∷ rest) =
      let later = get_entry key rest in if str_eq k key then some v else later

  unfoldable pub check_required :
      List (String × H.Value) → List (Option String) → IoResult (Unit {0})
  unfolding get_entry ◌<>◌
  check_required obj [] = ok tt
  check_required obj (none ∷ rest) = check_required obj rest
  check_required obj (some k ∷ rest) =
      let later = check_required obj rest in
      if is_some (get_entry k obj) then later else err ("missing required property: " <> k)

  unfoldable pub check_allowed :
      List (String × H.Value) → List (String × H.Value) → IoResult (Unit {0})
  unfolding get_entry ◌<>◌
  check_allowed allowed [] = ok tt
  check_allowed allowed ((k, v) ∷ rest) =
      let later = check_allowed allowed rest in
      if is_some (get_entry k allowed) then later else err ("unexpected property: " <> k)

  abbrev pub entries_or_empty : Option (List (String × H.Value)) → List (String × H.Value)
  entries_or_empty none = []
  entries_or_empty (some es) = es

  abbrev pub bind_value : {A : Type 0} → Option H.Value → (H.Value → Option A) → Option A
  bind_value none f = none
  bind_value (some v) f = f v

  -- The match on the type's name.
  unfoldable pub has_type : String → H.Value → Bool
  has_type t v =
      if str_eq t "string"
      then is_some (H.as_text v)
      else if str_eq t "integer"
      then H.is_integer v
      else if str_eq t "number"
      then H.is_number v
      else if str_eq t "boolean"
      then is_some (H.as_bool v)
      else if str_eq t "array"
      then is_some (H.array_items v)
      else if str_eq t "object"
      then is_some (H.object_entries v)
      else if str_eq t "null"
      then H.is_null v
      else true

  -- The property is printed in quotes by `{prop:?}`, which is `quote`.
  abbrev pub type_verdict :
      (String → String) → String → H.Value → Option String → IoResult (Unit {0})
  type_verdict quote prop v none = ok tt
  type_verdict quote prop v (some t) =
      if has_type t v then ok tt else err ("property " <> quote prop <> " must be " <> t)

  unfoldable pub check_json_type :
      (String → String) → String → H.Value → H.Value → IoResult (Unit {0})
  unfolding has_type ◌<>◌
  check_json_type quote prop sub v = type_verdict quote prop v (H.str_field sub "type")

  abbrev pub check_entry :
      (String → String) → String → H.Value → Option H.Value → IoResult (Unit {0})
  check_entry quote k sub none = ok tt
  check_entry quote k sub (some v) = check_json_type quote k sub v

  unfoldable pub check_types :
      (String → String) → List (String × H.Value) → List (String × H.Value) → IoResult (Unit {0})
  unfolding check_json_type get_entry
  check_types quote obj [] = ok tt
  check_types quote obj ((k, sub) ∷ rest) = do
    check_entry quote k sub (get_entry k obj)
    check_types quote obj rest

  abbrev pub required_keys : Option (List H.Value) → List (Option String)
  required_keys none = []
  required_keys (some items) = map H.as_text items

  abbrev pub forbids_more : Option Bool → Bool
  forbids_more (some b) = not b
  forbids_more none = false

  -- The three checks, at the entries of the schema and of the arguments.
  unfoldable pub validate_entries :
      (String → String) → List (String × H.Value) → List (String × H.Value) → IoResult (Unit {0})
  unfolding check_required check_allowed check_types get_entry
  validate_entries quote def obj = do
    let properties = entries_or_empty (bind_value (get_entry "properties" def) H.object_entries)
    check_required obj (required_keys (bind_value (get_entry "required" def) H.array_items))
    if forbids_more (bind_value (get_entry "additionalProperties" def) H.as_bool)
        then check_allowed properties obj
        else ok tt
    check_types quote obj properties

  abbrev pub validate_object :
      (String → String)
      → Option (List (String × H.Value))
      → Option (List (String × H.Value))
      → IoResult (Unit {0})
  validate_object quote def none = err "args must be an object"
  validate_object quote none (some obj) = ok tt
  validate_object quote (some def) (some obj) = validate_entries quote def obj

  unfoldable pub validate_strict : (String → String) → H.Value → H.Value → IoResult (Unit {0})
  unfolding validate_entries
  validate_strict quote schema args =
      validate_object quote (H.object_entries schema) (H.object_entries args)

module _ {H : Host} where
  unfoldable pub register : Registry H → Tool H → Registry H
  unfolding insert_tool
  register r tool = record r { tools = insert_tool tool.definition.name tool r.tools }

  unfoldable pub resolve : Registry H → String → Option (Tool H)
  unfolding get_tool
  resolve r name = get_tool name r.tools

  -- A declaration in its place among declarations in the order of their names.
  unfoldable pub insert_declaration :
      ToolDeclaration H → List (ToolDeclaration H) → List (ToolDeclaration H)
  unfolding text_leb
  insert_declaration d [] = d ∷ []
  insert_declaration d (e ∷ es) =
      let later = insert_declaration d es in
      if text_leb d.name e.name then d ∷ e ∷ es else e ∷ later

  unfoldable pub sort_declarations : List (ToolDeclaration H) → List (ToolDeclaration H)
  unfolding insert_declaration
  sort_declarations [] = []
  sort_declarations (d ∷ ds) = insert_declaration d (sort_declarations ds)

  -- `values()` walks the map in an order that the sort then forgets, since no two names are equal.
  unfoldable pub definitions : Registry H → List (ToolDeclaration H)
  unfolding sort_declarations
  definitions r = sort_declarations (map (λ (n, t). t.definition) r.tools)

  -- What `prepare` makes of the tool's own answer.
  abbrev pub bounded : CallStatus H → CallStatus H
  bounded (dispatch inv) = dispatch inv
  bounded (result r) = result (record r { content = bound_text r.content max_model_chars })

  abbrev pub after_validation : Tool H → ToolCall H → IoResult (Unit {0}) → CallStatus H
  after_validation tool call (err e) = result (error_result ("invalid args: " <> e))
  after_validation tool call (ok _) = bounded (tool.prepare_call call)

  abbrev pub after_lookup : (String → String) → ToolCall H → Option (Tool H) → CallStatus H
  after_lookup quote call none = result (error_result ("unknown tool: " <> call.name))
  after_lookup quote call (some tool) =
      after_validation tool call (validate_strict H quote tool.definition.schema call.args)

  abbrev pub after_gate : (String → String) → Registry H → ToolCall H → GateDecision → CallStatus H
  after_gate quote r call (deny reason fatal) = result (error_result ("denied: " <> reason))
  after_gate quote r call (ask prompt shown) =
      result (error_result ("ask denied (non-interactive, no approver): " <> prompt))
  after_gate quote r call allow = after_lookup quote call (get_tool call.name r.tools)

  unfoldable pub prepare : (String → String) → Registry H → String → ToolCall H → CallStatus H
  unfolding get_tool validate_strict error_result bound_text ◌<>◌
  prepare quote r agent call = after_gate quote r call (r.gate agent call.name call.args)
