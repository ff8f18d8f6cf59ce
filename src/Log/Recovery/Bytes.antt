-- ===== src/Log/Recovery/Bytes.antt =====
-- Lines of bytes: how the LF framing of crates/agent-log splits, strips and truncates them.
use mathlib.Core.List.{append_assoc}
use rof_harness.Base.{
  ℕ, ◌≤◌, ◌≡◌, refl, sym, ap, ◌∙◌, true, false, List, [], ◌∷◌, ◌++◌, some, arith, ◌==◌, any, last?,
}
use rof_harness.Log.Writer.{lf, up_to_last_lf, ends_in_lf, truncate_torn_tail, open_log}
use rof_harness.Log.Reader.{strip_cr, split_lf}

-- No control characters, so neither LF nor CR.
abbrev pub IsPlain : List ℕ → Type 0
IsPlain [] = Unit {0}
IsPlain (b ∷ bs) = (32 ≤ b) × IsPlain bs

-- The file of these lines.
unfoldable pub lines : List (List ℕ) → List ℕ
lines [] = []
lines (b ∷ bs) = b ++ (lf ∷ lines bs)

pub lines-append : (bs cs : List (List ℕ)) → lines (bs ++ cs) ≡ lines bs ++ lines cs
unfolding lines
lines-append [] cs = refl
lines-append (b ∷ bs) cs =
    ap (λ r. b ++ (lf ∷ r)) (lines-append bs cs) ∙ sym (append_assoc b (lf ∷ lines bs) (lines cs))

pub IsPlain-append : (p q : List ℕ) → IsPlain (p ++ q) → IsPlain p
IsPlain-append [] q h = tt
IsPlain-append (b ∷ p) q h = (h.0, IsPlain-append p q h.1)

pub strip_cr-plain : (b : List ℕ) → IsPlain b → strip_cr b ≡ b
unfolding strip_cr
strip_cr-plain [] h = refl
strip_cr-plain (b ∷ []) h = ground arith
strip_cr-plain (b ∷ c ∷ bs) h = ap (◌∷◌ b) (strip_cr-plain (c ∷ bs) h.1)

pub split_lf-plain : (b : List ℕ) → IsPlain b → split_lf b ≡ b ∷ []
unfolding split_lf
split_lf-plain [] h = refl
split_lf-plain (b ∷ bs) h = ground (arith, split_lf-plain bs h.1)

pub split_lf-line : (b rest : List ℕ) → IsPlain b → split_lf (b ++ (lf ∷ rest)) ≡ b ∷ split_lf rest
unfolding split_lf
split_lf-line [] rest h = refl
split_lf-line (b ∷ bs) rest h = ground (arith, split_lf-line bs rest h.1)

any-line : (b rest : List ℕ) → any (λ c. c == lf) (b ++ (lf ∷ rest)) ≡ true
any-line [] rest = refl
any-line (b ∷ bs) rest = ground (arith, any-line bs rest)

any-plain : (b : List ℕ) → IsPlain b → any (λ c. c == lf) b ≡ false
any-plain [] h = refl
any-plain (b ∷ bs) h = ground (arith, any-plain bs h.1)

up_to_last_lf-plain : (b : List ℕ) → IsPlain b → up_to_last_lf b ≡ []
unfolding up_to_last_lf
up_to_last_lf-plain [] h = refl
up_to_last_lf-plain (b ∷ bs) h = ground (arith, any-plain bs h.1)

up_to_last_lf-line :
    (b rest : List ℕ) → up_to_last_lf (b ++ (lf ∷ rest)) ≡ b ++ (lf ∷ up_to_last_lf rest)
unfolding up_to_last_lf
up_to_last_lf-line [] rest = refl
up_to_last_lf-line (b ∷ bs) rest = ground (arith, any-line bs rest, up_to_last_lf-line bs rest)

up_to_last_lf-lines :
    (bs : List (List ℕ)) (p : List ℕ) → IsPlain p → up_to_last_lf (lines bs ++ p) ≡ lines bs
unfolding lines
up_to_last_lf-lines [] p h = up_to_last_lf-plain p h
up_to_last_lf-lines (b ∷ bs) p h =
    ap up_to_last_lf (append_assoc b (lf ∷ lines bs) p)
    ∙ up_to_last_lf-line b (lines bs ++ p)
    ∙ ap (λ r. b ++ (lf ∷ r)) (up_to_last_lf-lines bs p h)

any_of_last : (xs : List ℕ) → ends_in_lf (last? xs) ≡ true → any (λ c. c == lf) xs ≡ true
unfolding ends_in_lf
any_of_last [] h = cc
any_of_last (x ∷ []) h = ground arith
any_of_last (x ∷ y ∷ ys) h = ground (arith, any_of_last (y ∷ ys) h)

up_to_last_lf_whole : (xs : List ℕ) → ends_in_lf (last? xs) ≡ true → up_to_last_lf xs ≡ xs
unfolding up_to_last_lf ends_in_lf
up_to_last_lf_whole [] h = refl
up_to_last_lf_whole (x ∷ []) h = ground arith
up_to_last_lf_whole (x ∷ y ∷ ys) h =
    ground (arith, up_to_last_lf_whole (y ∷ ys) h, any_of_last (y ∷ ys) h)

truncate_lem : (xs : List ℕ) → truncate_torn_tail (some xs) ≡ some (up_to_last_lf xs)
unfolding truncate_torn_tail
truncate_lem [] = refl
truncate_lem (x ∷ xs) = ground (arith, up_to_last_lf_whole (x ∷ xs))

pub open_log-lines :
    (bs : List (List ℕ)) (p : List ℕ) → IsPlain p → open_log (some (lines bs ++ p)) ≡ lines bs
unfolding open_log
open_log-lines bs p h = rw (truncate_lem (lines bs ++ p)) (up_to_last_lf-lines bs p h)
