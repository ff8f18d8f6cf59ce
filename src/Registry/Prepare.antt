-- ===== src/Registry/Prepare.antt =====
-- crates/tool-core/src: what a tool call meets before it is dispatched.
use rof_harness.Base.{
  ℕ, ◌+◌, ◌-◌, ◌<◌, ◌/◌, ◌%◌, ◌≤◌, ◌≡◌, refl, String, Option, none, some, arith, ◌↔◌,
}
use rof_harness.Base.Text.{◌<>◌}
use rof_harness.Base.Chars.{
  char_count, take_chars, drop_chars, char_count-take_chars, char_count-drop_chars,
  char_count-append,
}
use rof_harness.Host.{Host}
use rof_harness.Log.Types.{IoResult, ok, err}
use rof_harness.Tools.{ToolCall, Invocation, CallStatus, dispatch, result}
use rof_harness.Registry.{
  GateDecision, allow, deny, ask, bound_text, max_model_chars, omitted, Tool, Registry, get_tool,
  validate_strict, prepare, error_result, after_gate, after_lookup, after_validation, bounded,
}

-- Head, mark and tail together.
bound_text_cut :
    (s : String) (max : ℕ)
    → char_count omitted < max
    → char_count (
        take_chars ((max - 17) / 2 + (max - 17) % 2) s
        <> omitted
        <> drop_chars (char_count s - (max - 17) / 2) s)
      ≤ max
bound_text_cut s max h =
    rw
      (
        char_count-append (take_chars ((max - 17) / 2 + (max - 17) % 2) s)
            (omitted <> drop_chars (char_count s - (max - 17) / 2) s),
        char_count-append omitted (drop_chars (char_count s - (max - 17) / 2) s),
        char_count-take_chars ((max - 17) / 2 + (max - 17) % 2) s,
        char_count-drop_chars (char_count s - (max - 17) / 2) s,
      )
      (omega arith)

-- A text is cut to at most `max` characters.
pub bound_text_le : (s : String) (max : ℕ) → char_count (bound_text s max) ≤ max
unfolding bound_text
bound_text_le s max = ground (arith, char_count-take_chars max s, bound_text_cut s max)

-- What a call that was not dispatched answers with.
abbrev pub IsBounded : {H : Host} → CallStatus H → Type 0
IsBounded (dispatch inv) = Unit
IsBounded (result r) = char_count r.content ≤ max_model_chars

module _ {H : Host} (quote : String → String) (r : Registry H) (agent : String)
    (call : ToolCall H) where
  error_result-IsBounded : (e : String) → char_count (error_result e).content ≤ max_model_chars
  unfolding error_result
  error_result-IsBounded e = bound_text_le e max_model_chars

  bounded-IsBounded : (s : CallStatus H) → IsBounded (bounded s)
  bounded-IsBounded (dispatch inv) = tt
  bounded-IsBounded (result a) = bound_text_le a.content max_model_chars

  after_validation-IsBounded :
      (tool : Tool H) (v : IoResult (Unit {0})) → IsBounded (after_validation tool call v)
  after_validation-IsBounded tool (err e) = error_result-IsBounded ("invalid args: " <> e)
  after_validation-IsBounded tool (ok u) = bounded-IsBounded (tool.prepare_call call)

  after_lookup-IsBounded : (o : Option (Tool H)) → IsBounded (after_lookup quote call o)
  after_lookup-IsBounded none = error_result-IsBounded ("unknown tool: " <> call.name)
  after_lookup-IsBounded (some tool) =
      after_validation-IsBounded tool (validate_strict H quote tool.definition.schema call.args)

  after_gate-IsBounded : (d : GateDecision) → IsBounded (after_gate quote r call d)
  after_gate-IsBounded (deny reason fatal) = error_result-IsBounded ("denied: " <> reason)
  after_gate-IsBounded (ask prompt shown) =
      error_result-IsBounded ("ask denied (non-interactive, no approver): " <> prompt)
  after_gate-IsBounded allow = after_lookup-IsBounded (get_tool call.name r.tools)

  pub prepare-IsBounded : IsBounded (prepare quote r agent call)
  unfolding prepare error_result
  prepare-IsBounded = after_gate-IsBounded (r.gate agent call.name call.args)

  bounded_iff :
      (inv : Invocation H) (s : CallStatus H) → (bounded s ≡ dispatch inv) ↔ (s ≡ dispatch inv)
  bounded_iff inv (dispatch i) = (λ h. h, λ h. h)
  bounded_iff inv (result a) = (λ h. cc, λ h. cc)

  after_validation_iff :
      (inv : Invocation H) (tool : Tool H) (v : IoResult (Unit {0}))
      → (after_validation tool call v ≡ dispatch inv)
        ↔ ((v ≡ ok tt) × (tool.prepare_call call ≡ dispatch inv))
  after_validation_iff inv tool (err e) = (λ h. cc, λ (a, b). cc)
  after_validation_iff inv tool (ok tt) =
      let (f, g) = bounded_iff inv (tool.prepare_call call) in (λ h. (refl, f h), λ (a, b). g b)

  verdict_same :
      (t : Tool H) {tool : Tool H}
      → validate_strict H quote t.definition.schema call.args ≡ ok tt
      → some tool ≡ some t
      → validate_strict H quote tool.definition.schema call.args ≡ ok tt
  verdict_same t u e = cc

  after_lookup_iff :
      (inv : Invocation H) (o : Option (Tool H))
      → (after_lookup quote call o ≡ dispatch inv) ↔ (
          (tool : Tool H) × (o ≡ some tool)
          × (validate_strict H quote tool.definition.schema call.args ≡ ok tt)
          × (tool.prepare_call call ≡ dispatch inv))
  after_lookup_iff inv none = (λ h. cc, λ (t, e, u, v). cc)
  after_lookup_iff inv (some tool) =
      let (f, g) =
        after_validation_iff inv tool (validate_strict H quote tool.definition.schema call.args) in
      (λ h. let (a, b) = f h in (tool, refl, a, b), λ (t, e, u, v). g (verdict_same t u e, cc))

  after_gate_iff :
      (inv : Invocation H) (d : GateDecision)
      → (after_gate quote r call d ≡ dispatch inv) ↔ (
          (d ≡ allow)
          × (tool : Tool H) × (get_tool call.name r.tools ≡ some tool)
          × (validate_strict H quote tool.definition.schema call.args ≡ ok tt)
          × (tool.prepare_call call ≡ dispatch inv))
  after_gate_iff inv (deny reason fatal) = (λ h. cc, λ (e, u, _, _, _). cc)
  after_gate_iff inv (ask prompt shown) = (λ h. cc, λ (e, u, _, _, _). cc)
  after_gate_iff inv allow =
      let (f, g) = after_lookup_iff inv (get_tool call.name r.tools) in
      (λ h. let (t, e, u, v) = f h in (refl, t, e, u, v), λ (a, t, e, u, v). g (t, e, u, v))

  -- A call is dispatched where the gate allows it, the registry has a tool of that name, the
  -- arguments pass its schema, and that tool dispatches it; and there alone.
  pub prepare_iff :
      (inv : Invocation H)
      → (prepare quote r agent call ≡ dispatch inv) ↔ (
          (r.gate agent call.name call.args ≡ allow)
          × (tool : Tool H) × (get_tool call.name r.tools ≡ some tool)
          × (validate_strict H quote tool.definition.schema call.args ≡ ok tt)
          × (tool.prepare_call call ≡ dispatch inv))
  unfolding prepare
  prepare_iff inv = after_gate_iff inv (r.gate agent call.name call.args)
