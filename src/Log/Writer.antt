-- ===== src/Log/Writer.antt =====
-- crates/agent-log/src/writer.rs. A file is its bytes, `none` where the path does not exist. The
-- operating system's own failures (a file that cannot be opened, a full disk) are not modelled.
use rof_harness.Base.{
  ℕ, Bool, false, List, [], ◌∷◌, ◌++◌, Option, none, some, ◌==◌, if◌then◌else◌, last?, any,
}
use rof_harness.Host.{Host}
use rof_harness.Log.Types.{Item, Codec, IoResult, ok, ◌>>=◌}

abbrev pub lf : ℕ
lf = 10

-- The bytes up to and with the last LF: `set_len(rposition + 1)`, and 0 where there is none.
unfoldable pub up_to_last_lf : List ℕ → List ℕ
up_to_last_lf [] = []
up_to_last_lf (b ∷ bs) =
    let rest = up_to_last_lf bs in
    if b == lf then b ∷ rest else if any (λ c. c == lf) bs then b ∷ rest else []

unfoldable pub ends_in_lf : Option ℕ → Bool
ends_in_lf none = false
ends_in_lf (some b) = b == lf

unfoldable pub truncate_torn_tail : Option (List ℕ) → Option (List ℕ)
unfolding up_to_last_lf ends_in_lf
truncate_torn_tail none = none
truncate_torn_tail (some []) = some []
truncate_torn_tail (some (b ∷ bs)) =
    if ends_in_lf (last? (b ∷ bs)) then some (b ∷ bs) else some (up_to_last_lf (b ∷ bs))

-- `OpenOptions::create(true).append(true)`.
abbrev pub or_created : Option (List ℕ) → List ℕ
or_created none = []
or_created (some bytes) = bytes

unfoldable pub open_log : Option (List ℕ) → List ℕ
unfolding truncate_torn_tail
open_log file = or_created (truncate_torn_tail file)

module _ {H : Host} (codec : Codec H) where
  unfoldable pub append : List ℕ → Item H → IoResult (List ℕ)
  append file item = codec.render item >>= λ body. ok (file ++ (body ++ lf ∷ []))

  unfoldable pub append_item : Option (List ℕ) → Item H → IoResult (List ℕ)
  unfolding append open_log
  append_item file item = append (open_log file) item

  -- The successive appends of one writer.
  unfoldable pub append_all : List ℕ → List (Item H) → IoResult (List ℕ)
  append_all file [] = ok file
  append_all file (i ∷ is) = append file i >>= λ next. append_all next is
