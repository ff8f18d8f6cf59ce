-- ===== src/ToolsStd/Hunk/Matches.antt =====
-- When `apply_hunk` of crates/tools-std/src/common.rs applies an edit, and to which span.
use Prim.Native.Char.{Char}
use rof_harness.Base.{
  ℕ, zero, suc, ◌+◌, ◌-◌, ◌≤◌, ◌<◌, ◌≡◌, ◌↔◌, refl, sym, subst, String, true, false, List, [], ◌∷◌,
  arith, ◌⊎◌, inl, inr, Bool-cases, leb,
}
use rof_harness.Base.Text.{◌<>◌}
use rof_harness.Base.Chars.{char_count, take_chars, drop_chars, starts_with, is_empty_text}
use rof_harness.Log.Types.{ok}
use rof_harness.ToolsStd.Hunk.{apply_hunk, match_from, match_indices, span_of, splice}

-- The search stands in the text at a position.
abbrev pub Occurs : String → String → ℕ → Type 0
Occurs text search j = starts_with (drop_chars j text) search ≡ true

-- The search stands at the position, and wherever else it stands it overlaps with it from behind.
abbrev pub OnlyAt : String → String → ℕ → Type 0
OnlyAt text search start =
    Occurs text search start
    × ((i : ℕ) → Occurs text search i → (start ≤ i) × (i < start + char_count search))

-- A match of the search stands at every position that is found.
abbrev AllMatch : String → ℕ → String → List ℕ → Type 0
AllMatch s i search [] = Unit {0}
AllMatch s i search (j ∷ js) =
    ((k : ℕ) × (j ≡ i + k) × (starts_with (drop_chars k s) search ≡ true)) × AllMatch s i search js

AllMatch-cons :
    (c : Char) (s : String) (i : ℕ) (search : String) (js : List ℕ)
    → AllMatch s (suc i) search js
    → AllMatch (String.◌∷◌ c s) i search js
AllMatch-cons c s i search [] h = tt
AllMatch-cons c s i search (j ∷ js) ((k, e, m), h) =
    ((suc k, omega arith, m), AllMatch-cons c s i search js h)

starts_with-empty : (s search : String) → is_empty_text search ≡ true → starts_with s search ≡ true
unfolding starts_with
starts_with-empty s String.[] h = refl
starts_with-empty s (String.◌∷◌ c t) h = cc

match_from-AllMatch :
    (skip i : ℕ) (s search : String) → AllMatch s i search (match_from skip i s search)
unfolding match_from
match_from-AllMatch skip i String.[] search = elim (Bool-cases (is_empty_text search)) [
  | inl e ↦ rw e ((0, omega arith, starts_with-empty "" search e), tt)
  | inr e ↦ rw e tt
]
match_from-AllMatch zero i (String.◌∷◌ c s) search =
    elim (Bool-cases (starts_with (String.◌∷◌ c s) search)) [
      | inl e ↦ rw e (
        (0, omega arith, e),
        AllMatch-cons c s i search _ (match_from-AllMatch (char_count search - 1) (suc i) s search),
      )
      | inr e ↦ rw e (AllMatch-cons c s i search _ (match_from-AllMatch 0 (suc i) s search))
    ]
match_from-AllMatch (suc skip) i (String.◌∷◌ c s) search =
    AllMatch-cons c s i search _ (match_from-AllMatch skip (suc i) s search)

-- Some position of the list has the place p within the w characters from it on.
abbrev Covered : List ℕ → ℕ → ℕ → Type 0
Covered [] p w = ⊥
Covered (k ∷ ks) p w = ((k ≤ p) × (p < k + w)) ⊎ Covered ks p w

nonempty : (search : String) → is_empty_text search ≡ false → 1 ≤ char_count search
nonempty String.[] h = cc
nonempty (String.◌∷◌ c s) h = omega arith

not_in_empty :
    (j : ℕ) (search : String) → is_empty_text search ≡ false → Occurs String.[] search j → ⊥
unfolding starts_with
not_in_empty zero String.[] n h = cc
not_in_empty zero (String.◌∷◌ c s) n h = cc
not_in_empty (suc j) String.[] n h = cc
not_in_empty (suc j) (String.◌∷◌ c s) n h = cc

-- Every occurrence is covered by one that is found.
match_from-Covered :
    (skip i : ℕ) (s search : String) (j p : ℕ)
    → is_empty_text search ≡ false
    → Occurs s search j
    → skip ≤ j
    → p ≡ i + j
    → Covered (match_from skip i s search) p (char_count search)
unfolding match_from
match_from-Covered skip i String.[] search j p n h l e = absurd (not_in_empty j search n h)
match_from-Covered (suc skip) i (String.◌∷◌ c s) search zero p n h l e = absurd (omega (arith, l))
match_from-Covered (suc skip) i (String.◌∷◌ c s) search (suc j) p n h l e =
    match_from-Covered skip (suc i) s search j p n h (omega (arith, l)) (omega (arith, e))
match_from-Covered zero i (String.◌∷◌ c s) search zero p n h l e =
    rw h (inl (omega (arith, e), omega (arith, e, nonempty search n)))
match_from-Covered zero i (String.◌∷◌ c s) search (suc j) p n h l e =
    elim (Bool-cases (starts_with (String.◌∷◌ c s) search)) [
      | inr f ↦
          rw f (match_from-Covered 0 (suc i) s search j p n h (omega arith) (omega (arith, e)))
      | inl f ↦ elim (Bool-cases (leb (char_count search) (suc j))) [
        | inr g ↦ rw f (inl (omega (arith, e), ground (arith, e)))
        | inl g ↦ rw f (
            inr (
              match_from-Covered (char_count search - 1) (suc i) s search j p n h (ground arith)
                (omega (arith, e))))
      ]
    ]

-- The positions start at `low` or later and are at least w apart.
abbrev Spread : ℕ → ℕ → List ℕ → Type 0
Spread low w [] = Unit {0}
Spread low w (k ∷ ks) = (low ≤ k) × Spread (k + w) w ks

lower-Spread : (low high w : ℕ) (ks : List ℕ) → low ≤ high → Spread high w ks → Spread low w ks
lower-Spread low high w [] l h = tt
lower-Spread low high w (k ∷ ks) l (a, h) = (omega (arith, l, a), h)

match_from-Spread :
    (skip i : ℕ) (s search : String)
    → is_empty_text search ≡ false
    → Spread (i + skip) (char_count search) (match_from skip i s search)
unfolding match_from
match_from-Spread skip i String.[] search n = rw n tt
match_from-Spread (suc skip) i (String.◌∷◌ c s) search n =
    lower-Spread (i + suc skip) (suc i + skip) (char_count search) _ (omega arith)
      (match_from-Spread skip (suc i) s search n)
match_from-Spread zero i (String.◌∷◌ c s) search n =
    elim (Bool-cases (starts_with (String.◌∷◌ c s) search)) [
      | inl f ↦ rw f (
        omega arith,
        lower-Spread (i + char_count search) (suc i + (char_count search - 1)) (char_count search) _
            (omega (arith, nonempty search n))
            (match_from-Spread (char_count search - 1) (suc i) s search n),
      )
      | inr f ↦ rw f (
          lower-Spread (i + 0) (suc i + 0) (char_count search) _ (omega arith)
            (match_from-Spread 0 (suc i) s search n))
    ]

found-Occurs :
    (text search : String) (a : ℕ) (js : List ℕ)
    → AllMatch text 0 search (a ∷ js)
    → Occurs text search a
found-Occurs text search a js ((k, e, o), rest) =
    let same : k ≡ a = omega (arith, e) in
    subst (λ n. starts_with (drop_chars n text) search ≡ true) same o

ok_inj : {A : Type 0} {a b : A} → ok a ≡ ok b → a ≡ b
ok_inj h = cc

module _ (text search : String) where
  -- A list of matches that covers the only place has it alone.
  sole :
      (start : ℕ) (js : List ℕ)
      → OnlyAt text search start
      → AllMatch text 0 search js
      → Spread 0 (char_count search) js
      → Covered js start (char_count search)
      → js ≡ start ∷ []
  sole start [] only all spread c = absurd c
  sole start (a ∷ []) (o, only) all spread (inr c) = absurd c
  sole start (a ∷ []) (o, only) all spread (inl (l, u)) =
      let (l', u') = only a (found-Occurs text search a [] all) in
      let same : a ≡ start = omega (arith, l, l') in rw same refl
  sole start (a ∷ b ∷ rest) (o, only) all spread c =
      let (l, u) = only a (found-Occurs text search a (b ∷ rest) all) in
      let (l', u') = only b (found-Occurs text search b rest all.1) in
      absurd (omega (arith, l, u', spread.1.0))

module _ (text search replace : String) (filled : is_empty_text search ≡ false) where
  -- The text with the search at a position replaced.
  abbrev pub replaced_at : ℕ → String
  replaced_at start =
      take_chars start text <> replace <> drop_chars (start + char_count search) text

  covered :
      (j : ℕ) → Occurs text search j → Covered (match_indices text search) j (char_count search)
  unfolding match_indices
  covered j h = match_from-Covered 0 0 text search j j filled h (omega arith) (omega arith)

  -- What the list of matches says of one that is alone.
  one-OnlyAt : (start : ℕ) → match_indices text search ≡ start ∷ [] → OnlyAt text search start
  unfolding match_indices
  one-OnlyAt start m =
      let all = subst (AllMatch text 0 search) m (match_from-AllMatch 0 0 text search) in
      (found-Occurs text search start [] all, λ i h. within i (rw m at (covered i h)))
    where
      within :
          (i : ℕ)
          → Covered (start ∷ []) i (char_count search)
          → (start ≤ i) × (i < start + char_count search)
      within i (inl p) = p
      within i (inr c) = absurd c

  OnlyAt-one : (start : ℕ) → OnlyAt text search start → match_indices text search ≡ start ∷ []
  unfolding match_indices
  OnlyAt-one start only =
      sole text search start _ only (match_from-AllMatch 0 0 text search)
        (match_from-Spread 0 0 text search filled) (covered start only.0)

  by_matches :
      (j : ℕ) (out : String) (js : List ℕ)
      → match_indices text search ≡ js
      → Covered js j (char_count search)
      → splice text replace (span_of text search js) ≡ ok out
      → (start : ℕ) × OnlyAt text search start × (out ≡ replaced_at start)
  by_matches j out [] m c h = absurd c
  by_matches j out (start ∷ []) m c h = (start, one-OnlyAt start m, sym (ok_inj h))
  by_matches j out (a ∷ b ∷ rest) m c h = cc

  -- Where a search that is not empty stands in the text, an edit is applied exactly if all its
  -- occurrences overlap with the first of them; then that one is replaced, and what stands before
  -- it and behind it is left as it was.
  pub apply_hunk_iff :
      (j : ℕ) (out : String)
      → Occurs text search j
      → (apply_hunk text search replace ≡ ok out)
        ↔ ((start : ℕ) × OnlyAt text search start × (out ≡ replaced_at start))
  unfolding apply_hunk
  apply_hunk_iff j out h = (
    by_matches j out (match_indices text search) refl (covered j h),
    λ (start, only, e). rw (OnlyAt-one start only, e) refl,
  )
