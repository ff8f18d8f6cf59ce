-- ===== src/Host.antt =====
-- What the program takes from code outside the repository: the JSON value type of `serde_json`,
-- `f64`, the cancellation tokens of `tokio_util`, and the two tables of the Rust standard library
-- that a model cannot write out (the keyed hash and the Unicode lower-case mapping).
use rof_harness.Base.{ℕ, ◌+◌, ◌*◌, ltb, Bool, String, Option, some, none, false, List, []}

pub record Host : Type 1 where
  pub Value : Type 0
  pub Float : Type 0
  pub Token : Type 0
  -- `Value::to_string`.
  pub value_text : Value → String
  -- `Value::String(s)`.
  pub text_value : String → Value
  -- `v.get(key).and_then(Value::as_str)`.
  pub str_field : Value → String → Option String
  -- `v.as_object()`, as its entries; `v.as_array()`; `v.as_str()`; `v.as_bool()`.
  pub object_entries : Value → Option (List (String × Value))
  pub array_items : Value → Option (List Value)
  pub as_text : Value → Option String
  pub as_bool : Value → Option Bool
  -- `v.as_i64().is_some() || v.as_u64().is_some()`, `v.is_number()`, `v.is_null()`.
  pub is_integer : Value → Bool
  pub is_number : Value → Bool
  pub is_null : Value → Bool
  -- `Value::Null`.
  pub null_value : Value
  -- `token.child_token()`.
  pub child_token : Token → Token
  -- `(cost * 100.0).round().max(0.0) as u64`.
  pub cents : Float → ℕ
  pub float_zero : Float
  pub float_add : Float → Float → Float
  -- `a > b` on `f64`.
  pub float_gt : Float → Float → Bool
  pub float_mul : Float → Float → Float
  -- `n as f64`.
  pub float_of : ℕ → Float
  -- `DefaultHasher::new()`, fed with one text.
  pub hash : String → ℕ
  pub to_lowercase : String → String
  -- `s.chars().filter(|c| c.is_alphanumeric())`, collected.
  pub alphanumeric : String → String

-- A host for tests: a JSON value is the text of its one field, costs are in cents, and every text
-- has the same hash.
abbrev pub plain_host : Host
plain_host = record {
  Value = String;
  Float = ℕ;
  Token = ℕ;
  value_text = λ v. v;
  text_value = λ s. s;
  str_field = λ v key. some v;
  object_entries = λ v. some [];
  array_items = λ v. none;
  as_text = λ v. some v;
  as_bool = λ v. none;
  is_integer = λ v. false;
  is_number = λ v. false;
  is_null = λ v. false;
  null_value = "";
  child_token = λ t. t + 1;
  cents = λ c. c;
  float_zero = 0;
  float_add = λ a b. a + b;
  float_gt = λ a b. ltb b a;
  float_mul = λ a b. a * b;
  float_of = λ n. n;
  hash = λ s. 0;
  to_lowercase = λ s. s;
  alphanumeric = λ s. s;
}
