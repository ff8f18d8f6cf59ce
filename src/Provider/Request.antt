-- ===== src/Provider/Request.antt =====
-- crates/provider-core/src/types.rs: what is sent to a provider, and how its finish reason is read.
use rof_harness.Base.{
  ℕ, String, Bool, Option, none, some, List, [], ◌∷◌, any, is_empty, str_eq, if◌then◌else◌,
}
use rof_harness.Base.Chars.{trim, is_blank, contains_text}
use rof_harness.Host.{Host}
use rof_harness.Provider.{
  StopReason, pending, stop, tool_use, max_tokens, refused, error, aborted, deferred, ToolCallRef,
  AssistantMessage,
}
use rof_harness.Tools.{ToolDeclaration}

pub data Thinking : Type 0 where
  off auto : Thinking

pub record ProviderMessage (H : Host) : Type 0 where
  pub role : String
  pub content : String
  pub tool_calls : List (ToolCallRef H)
  pub tool_call_id : Option String
  pub thinking : Option String

pub record Request (H : Host) : Type 0 where
  pub messages : List (ProviderMessage H)
  pub tools : List (ToolDeclaration H)
  pub max_tokens : ℕ
  pub thinking : Thinking
  pub extras : H.Value

abbrev pub any_of : List String → String → Bool
any_of keys text = any (contains_text text) keys

abbrev pub one_of : List String → String → Bool
one_of texts text = any (str_eq text) texts

module _ (H : Host) where
  -- The closure `infer`.
  unfoldable pub infer : AssistantMessage H → StopReason
  infer message = if is_empty message.tool_calls then stop else tool_use

  -- The match on the normalised reason.
  unfoldable pub named_stop : String → AssistantMessage H → StopReason
  unfolding infer contains_text
  named_stop n message =
      if one_of ("length" ∷ "maxtokens" ∷ "truncated" ∷ "outputlimit" ∷ []) n
      then max_tokens
      else if any_of ("tool" ∷ "function" ∷ []) n
      then tool_use
      else if any_of ("refus" ∷ "contentfilter" ∷ "safety" ∷ "policy" ∷ []) n
      then refused
      else if contains_text n "defer"
      then deferred
      else if any_of ("abort" ∷ "cancel" ∷ []) n
      then aborted
      else if any_of ("error" ∷ "fail" ∷ []) n
      then error
      else if contains_text n "pending"
      then pending
      else if one_of
          ("stop" ∷ "endturn" ∷ "stopsequence" ∷ "eos" ∷ "done" ∷ "complete" ∷ "finished" ∷ []) n
      then stop
      else infer message

  unfoldable pub infer_stop : Option String → AssistantMessage H → StopReason
  unfolding infer named_stop
  infer_stop none message = infer message
  infer_stop (some raw) message =
      if is_blank raw
      then infer message
      else named_stop (H.alphanumeric (H.to_lowercase (trim raw))) message
