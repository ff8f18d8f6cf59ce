-- ===== src/Context/Cut.antt =====
-- crates/context/src/compact.rs: where a checkpoint may cut the conversation.
use rof_harness.Base.{
  ℕ, zero, suc, ◌+◌, ◌-◌, ◌≤◌, ◌≡◌, refl, sym, subst, true, some, List, [], ◌∷◌, arith, Bool-cases,
  Option-cases, inl, inr,
}
use rof_harness.Context.Compact.{
  CompactMessage, drop, take, is_cut, find_cut, find_cut_back, cross_back, cut_from, cut_point,
}

-- The message at the index `j` may open the part that is kept.
abbrev pub IsCutAt : List CompactMessage → ℕ → Type 0
IsCutAt ms j =
    (m : CompactMessage) × (rest : List CompactMessage) × (drop j ms ≡ m ∷ rest) × (is_cut m ≡ true)

take-IsCutAt : (k j : ℕ) (ms : List CompactMessage) → IsCutAt (take k ms) j → IsCutAt ms j
take-IsCutAt zero zero ms (m, rest, e, h) = cc
take-IsCutAt zero (suc j) ms (m, rest, e, h) = cc
take-IsCutAt (suc k) zero [] (m, rest, e, h) = cc
take-IsCutAt (suc k) (suc j) [] (m, rest, e, h) = cc
take-IsCutAt (suc k) zero (x ∷ xs) (m, rest, e, h) = (x, xs, refl, cc)
take-IsCutAt (suc k) (suc j) (x ∷ xs) h = take-IsCutAt k j xs h

drop-IsCutAt :
    (k j : ℕ) (ms : List CompactMessage)
    → IsCutAt (drop k ms) j
    → (c : ℕ) × (c ≡ k + j) × IsCutAt ms c
drop-IsCutAt zero j ms h = (j, omega arith, h)
drop-IsCutAt (suc k) zero [] (m, rest, e, h) = cc
drop-IsCutAt (suc k) (suc j) [] (m, rest, e, h) = cc
drop-IsCutAt (suc k) j (x ∷ xs) h = let (c, e, g) = drop-IsCutAt k j xs h in (suc c, omega arith, g)

-- A search from the index `i` on that finds `c` has a cut there.
at_suc :
    (m : CompactMessage) (ms : List CompactMessage) {j c : ℕ}
    → c ≡ suc j
    → IsCutAt ms j
    → (1 ≤ c) × IsCutAt (m ∷ ms) c
at_suc m ms {j} e h = (omega arith, subst (IsCutAt (m ∷ ms)) (sym e) h)

find_cut-IsCutAt :
    (i : ℕ) (ms : List CompactMessage) {c : ℕ}
    → find_cut i ms ≡ some c
    → (j : ℕ) × (c ≡ i + j) × IsCutAt ms j
unfolding find_cut
find_cut-IsCutAt i [] h = cc
find_cut-IsCutAt i (m ∷ ms) {c} h = elim (Bool-cases (is_cut m)) [
  | inl e ↦ (0, ground arith, (m, ms, refl, e))
  | inr e ↦
      let (j, f, g) = find_cut-IsCutAt (suc i) ms {c = c} (ground arith) in (suc j, omega arith, g)
]

find_cut_back-IsCutAt :
    (i : ℕ) (ms : List CompactMessage) {c : ℕ}
    → find_cut_back i ms ≡ some c
    → (j : ℕ) × (c ≡ i + j) × IsCutAt ms j
unfolding find_cut_back
find_cut_back-IsCutAt i [] h = cc
find_cut_back-IsCutAt i (m ∷ ms) {c} h = elim (Option-cases (find_cut_back (suc i) ms)) [
  | inl e ↦ (0, ground arith, (m, ms, refl, ground arith))
  | inr (c', e) ↦
      let (j, f, g) = find_cut_back-IsCutAt (suc i) ms {c = c} (ground arith) in
      (suc j, omega arith, g)
]

cross_back_le :
    (keep i : ℕ) (ms : List CompactMessage) {c : ℕ} → (cross_back keep i ms).1 ≡ some c → i ≤ c
unfolding cross_back
cross_back_le keep i [] h = cc
cross_back_le keep i (m ∷ ms) h = elim (Option-cases (cross_back keep (suc i) ms).1) [
  | inl e ↦ ground arith
  | inr (c', e) ↦ ground (arith, cross_back_le keep (suc i) ms e)
]

cut_from-IsCutAt :
    (m : CompactMessage) (ms : List CompactMessage) (x : ℕ) {c : ℕ}
    → 1 ≤ x
    → cut_from ms (some x) ≡ some c
    → (1 ≤ c) × IsCutAt (m ∷ ms) c
cut_from-IsCutAt m ms x {c} l h = elim (Option-cases (find_cut x (drop (x - 1) ms))) [
  | inl e ↦
      let (j, f, g) = find_cut_back-IsCutAt 1 (take (x - 1) ms) {c = c} (ground arith) in
      at_suc m ms (omega arith) (take-IsCutAt (x - 1) j ms g)
  | inr (c', e) ↦
      let (j, f, g) = find_cut-IsCutAt x (drop (x - 1) ms) {c = c} (ground arith) in
      let (k, f', g') = drop-IsCutAt (x - 1) j ms g in at_suc m ms (omega arith) g'
]

-- A cut is the index of a message behind the first one that is not the answer of a tool: nothing
-- that a checkpoint keeps starts with an orphaned tool result.
pub cut_point-IsCutAt :
    (messages : List CompactMessage) (keep_tokens c : ℕ)
    → cut_point messages keep_tokens ≡ some c
    → (1 ≤ c) × IsCutAt messages c
unfolding cut_point
cut_point-IsCutAt [] keep_tokens c h = cc
cut_point-IsCutAt (m ∷ []) keep_tokens c h = cc
cut_point-IsCutAt (m ∷ n ∷ rest) keep_tokens c h =
    elim (Option-cases (cross_back keep_tokens 1 (n ∷ rest)).1) [
      | inl e ↦ cc
      | inr (x, e) ↦
          cut_from-IsCutAt m (n ∷ rest) x (cross_back_le keep_tokens 1 (n ∷ rest) e) (ground arith)
    ]
