-- ===== src/Log/Reader.antt =====
-- crates/agent-log/src/reader.rs.
use rof_harness.Base.{ℕ, suc, ◌+◌, Bool, not, String, List, [], ◌∷◌, ◌==◌, if◌then◌else◌, is_empty}
use rof_harness.Base.Text.{◌<>◌, decimal}
use rof_harness.Host.{Host}
use rof_harness.Log.Types.{
  Item, ItemKind, header, input, turn_start, assistant, attempt, tool_call, tool_result, turn_end,
  Codec, IoResult, ok, err, ◌>>=◌, log_version,
}
use rof_harness.Log.Writer.{lf}

abbrev pub cr : ℕ
cr = 13

unfoldable pub kind_name : {H : Host} → ItemKind H → String
kind_name (header _ _ _ _) = "Header"
kind_name (input _ _ _) = "Input"
kind_name (turn_start _ _) = "TurnStart"
kind_name (assistant _ _ _) = "Assistant"
kind_name (attempt _ _) = "Attempt"
kind_name (tool_call _ _ _) = "ToolCall"
kind_name (tool_result _ _ _ _) = "ToolResult"
kind_name (turn_end _ _) = "TurnEnd"

-- Drops one CR at the end.
unfoldable pub strip_cr : List ℕ → List ℕ
strip_cr [] = []
strip_cr (b ∷ []) = if b == cr then [] else b ∷ []
strip_cr (b ∷ c ∷ bs) = b ∷ strip_cr (c ∷ bs)

abbrev pub onto_first : ℕ → List (List ℕ) → List (List ℕ)
onto_first b [] = (b ∷ []) ∷ []
onto_first b (l ∷ ls) = (b ∷ l) ∷ ls

-- `raw.split(|b| *b == b'\n')`: one piece more than there are LFs.
unfoldable pub split_lf : List ℕ → List (List ℕ)
split_lf [] = [] ∷ []
split_lf (b ∷ bs) = let rest = split_lf bs in if b == lf then [] ∷ rest else onto_first b rest

-- `enumerate`, the numbers from `n`, `strip_cr`, and the filter on what is left.
unfoldable pub chunks_from : ℕ → List (List ℕ) → List (ℕ × List ℕ)
unfolding strip_cr
chunks_from n [] = []
chunks_from n (l ∷ ls) =
    let rest = chunks_from (suc n) ls in
    if is_empty (strip_cr l) then rest else (n, strip_cr l) ∷ rest

unfoldable pub corrupt : ℕ → String → String
unfolding ◌<>◌ decimal
corrupt lineno e = "line " <> decimal lineno <> ": corrupt entry: " <> e

abbrev pub and_then_push : {H : Host} → Item H → IoResult (List (Item H)) → IoResult (List (Item H))
and_then_push item (ok items) = ok (item ∷ items)
and_then_push item (err e) = err e

module _ {H : Host} (codec : Codec H) where
  -- What the loop does with one chunk: an unparseable one ends the log if it is the last.
  unfoldable pub parse_one :
      ℕ → Bool → IoResult (Item H) → IoResult (List (Item H)) → IoResult (List (Item H))
  unfolding corrupt
  parse_one lineno is_last (ok item) rest = and_then_push item rest
  parse_one lineno is_last (err e) rest = if is_last then ok [] else err (corrupt lineno e)

  unfoldable pub parse_chunks : List (ℕ × List ℕ) → IoResult (List (Item H))
  unfolding parse_one
  parse_chunks [] = ok []
  parse_chunks ((lineno, chunk) ∷ rest) =
      parse_one lineno (is_empty rest) (codec.parse chunk) (parse_chunks rest)

unfoldable pub seq_gap : ℕ → ℕ → String
unfolding ◌<>◌ decimal
seq_gap want found = "seq gap: expected " <> decimal want <> ", found " <> decimal found

module _ {H : Host} where
  -- The loop over the items, from the number that the next one must have.
  unfoldable pub validate_seqs : ℕ → List (Item H) → IoResult (Unit {0})
  unfolding seq_gap
  validate_seqs want [] = ok tt
  validate_seqs want (i ∷ is) =
      let rest = validate_seqs (want + 1) is in
      if not (i.seq == want) then err (seq_gap want i.seq) else rest

  unfoldable pub validate_header : ItemKind H → IoResult (Unit {0})
  unfolding ◌<>◌ decimal kind_name
  validate_header (header version _ _ _) =
      if not (version == log_version)
      then err (
          "unsupported log version "
          <> decimal version
          <> ", expected "
          <> decimal log_version
          <> "; no migrations")
      else ok tt
  validate_header kind = err ("first entry must be Header, found " <> kind_name kind)

  unfoldable pub validate_log : List (Item H) → IoResult (Unit {0})
  unfolding validate_seqs validate_header
  validate_log [] = ok tt
  validate_log (first ∷ rest) = validate_header first.kind >>= λ _. validate_seqs 1 (first ∷ rest)

  unfoldable pub read_log : Codec H → List ℕ → IoResult (List (Item H))
  unfolding split_lf chunks_from parse_chunks validate_log
  read_log codec raw = parse_chunks codec (chunks_from 1 (split_lf raw)) >>= λ items.
      validate_log items >>= λ _. ok items
