-- ===== src/Tools.antt =====
-- crates/tool-core/src/tool.rs: the vocabulary of tool calls.
use rof_harness.Base.{String, Bool}
use rof_harness.Base.Text.{◌<>◌}
use rof_harness.Host.{Host}

abbrev pub tool_edit : String
tool_edit = "edit"

abbrev pub tool_write : String
tool_write = "write"

abbrev pub tool_test : String
tool_test = "test"

abbrev pub tool_exec : String
tool_exec = "exec"

pub record ToolCall (H : Host) : Type 0 where
  pub call_id : String
  pub name : String
  pub args : H.Value

pub record ToolOutcome : Type 0 where
  pub content : String
  pub truncated : Bool
  pub success : Bool

pub record ToolResult : Type 0 where
  pub content : String
  pub is_error : Bool

pub record ToolDeclaration (H : Host) : Type 0 where
  pub name : String
  pub description : String
  pub schema : H.Value

pub record Invocation (H : Host) : Type 0 where
  pub call_id : String
  pub name : String
  pub args : H.Value

pub data ToolError : Type 0 where
  denied failed : String → ToolError

-- `Display` of a tool's error.
unfoldable pub display_error : ToolError → String
unfolding ◌<>◌
display_error (denied m) = "denied: " <> m
display_error (failed m) = "failed: " <> m

pub data CallStatus (H : Host) : Type 0 where
  dispatch : Invocation H → CallStatus H
  result : ToolResult → CallStatus H
