-- ===== src/Log/Types.antt =====
-- crates/agent-log/src/types.rs, and the results of its fallible operations. A `SystemTime` is a
-- number of nanoseconds.
use rof_harness.Base.{ℕ, String, Bool, Option, List, ◌≡◌, refl}
use rof_harness.Host.{Host}

pub data InputSource : Type 0 where
  external control crash : InputSource

pub data TurnEndReason : Type 0 where
  completed : TurnEndReason
  error : String → TurnEndReason
  interrupted budget max_tokens : TurnEndReason

pub data RecoveryCode : Type 0 where
  tool_not_started tool_outcome_unknown : RecoveryCode

-- The fields of each kind stand in the source's order.
pub data ItemKind (H : Host) : Type 0 where
  header : ℕ → String → String → String → ItemKind H
  input : String → String → InputSource → ItemKind H
  turn_start : String → Option String → ItemKind H
  assistant : H.Value → String → Bool → ItemKind H
  attempt : String → Bool → ItemKind H
  tool_call : String → String → H.Value → ItemKind H
  tool_result : String → String → Bool → Option RecoveryCode → ItemKind H
  turn_end : String → TurnEndReason → ItemKind H

pub record Item (H : Host) : Type 0 where
  pub seq : ℕ
  pub id : String
  pub parent_id : Option String
  pub recorded_at : ℕ
  pub kind : ItemKind H

abbrev pub log_version : ℕ
log_version = 1

-- An `io::Result`, with the text of its error.
pub data IoResult {ℓ} (A : Type ℓ) : Type ℓ where
  ok : A → IoResult A
  err : String → IoResult A

infixl 5 ◌>>=◌
abbrev pub ◌>>=◌ {ℓ κ} : {A : Type ℓ} {B : Type κ} → IoResult A → (A → IoResult B) → IoResult B
ok a >>= f = f a
err e >>= f = err e

infixl 5 ◌>>◌
abbrev pub ◌>>◌ {ℓ κ} : {A : Type ℓ} {B : Type κ} → IoResult A → IoResult B → IoResult B
ok a >> m = m
err e >> m = err e

-- A bind that succeeds has two parts that do.
pub >>=-eq-ok {ℓ} :
    {A : Type ℓ} (m : IoResult (Unit {0})) (f : Unit {0} → IoResult A) {b : A}
    → (m >>= f) ≡ ok b
    → (u : Unit {0}) × (m ≡ ok tt) × (f tt ≡ ok b)
>>=-eq-ok (ok tt) f h = (tt, refl, h)
>>=-eq-ok (err e) f h = cc

-- `serde_json::to_vec` and `serde_json::from_slice` at the type of an item.
pub record Codec (H : Host) : Type 0 where
  pub render : Item H → IoResult (List ℕ)
  pub parse : List ℕ → IoResult (Item H)
