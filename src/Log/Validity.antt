-- ===== src/Log/Validity.antt =====
-- What `validate_log` of crates/agent-log/src/reader.rs accepts.
use rof_harness.Base.{ℕ, ◌+◌, ◌≡◌, refl, ◌↔◌, List, [], ◌∷◌, arith}
use rof_harness.Host.{Host}
use rof_harness.Log.Types.{Item, ItemKind, header, ok, >>=-eq-ok, log_version}
use rof_harness.Log.Reader.{validate_seqs, validate_header, validate_log}

module _ {H : Host} where
  -- The numbers of the items run on from `n` without a gap.
  abbrev pub IsGapless : ℕ → List (Item H) → Type 0
  IsGapless n [] = Unit {0}
  IsGapless n (i ∷ is) = (i.seq ≡ n) × IsGapless (n + 1) is

  abbrev pub IsHeader : ItemKind H → Type 0
  IsHeader (header version _ _ _) = version ≡ log_version
  IsHeader _ = ⊥

  abbrev pub IsLog : List (Item H) → Type 0
  IsLog [] = Unit {0}
  IsLog (i ∷ is) = IsHeader i.kind × IsGapless 1 (i ∷ is)

  seqs-IsGapless : (n : ℕ) (is : List (Item H)) → (validate_seqs n is ≡ ok tt) ↔ IsGapless n is
  unfolding validate_seqs
  seqs-IsGapless n [] = (λ _. tt, λ _. refl)
  seqs-IsGapless n (i ∷ is) =
      let (to, from) = seqs-IsGapless (n + 1) is in
      (λ h. (ground arith, to (ground arith)), λ g. ground (arith, from g.1))

  validate_header-IsHeader : (k : ItemKind H) → (validate_header k ≡ ok tt) ↔ IsHeader k
  unfolding validate_header
  validate_header-IsHeader (header v s c m) = (λ h. ground arith, λ h. ground arith)
  validate_header-IsHeader _ = (λ h. cc, λ h. elim h [ ])

  -- An empty log passes; any other passes exactly when it begins with a Header of this version and
  -- its numbers run from 1 without a gap.
  pub validate_log_iff : (is : List (Item H)) → (validate_log is ≡ ok tt) ↔ IsLog is
  unfolding validate_log
  validate_log_iff [] = (λ _. tt, λ _. refl)
  validate_log_iff (i ∷ is) =
      let (h, h') = validate_header-IsHeader i.kind in
      let (s, s') = seqs-IsGapless 1 (i ∷ is) in
      (
        λ e.
            let (_, a, b) = >>=-eq-ok (validate_header i.kind) (λ _. validate_seqs 1 (i ∷ is)) e in
            (h a, s b),
        λ (a, b). rw (h' a, s' b) refl,
      )
