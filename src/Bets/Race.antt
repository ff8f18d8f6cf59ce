-- ===== src/Bets/Race.antt =====
-- crates/bets/src/race.rs and metrics.rs: the winner of a race between branches, and its count.
use rof_harness.Base.{
  u64, is_some, ◌+◌, ℕ, suc, zero, ◌≡◌, refl, Bool, true, false, Option, none, some, List, [], ◌∷◌,
  leb, keep, if◌then◌else◌, Bool-cases, inl, inr,
}
use rof_harness.Host.{Host}
use rof_harness.Bets.{AblationMetrics}

pub record RaceConfig : Type 0 where
  pub max_branches : ℕ
  pub max_extra_spend_cents : ℕ

abbrev pub default_race : RaceConfig
default_race = record { max_branches = 2; max_extra_spend_cents = 200 }

pub record BranchOutcome (H : Host) : Type 0 where
  pub branch_id : ℕ
  pub verifier_score : H.Float
  pub spend_cents : ℕ

module _ {ℓ} {A : Type ℓ} where
  unfoldable pub take : ℕ → List A → List A
  take zero xs = []
  take (suc n) [] = []
  take (suc n) (x ∷ xs) = x ∷ take n xs

module _ {H : Host} where
  abbrev pub fits : RaceConfig → BranchOutcome H → Bool
  fits config o = leb o.spend_cents config.max_extra_spend_cents

  -- The closure of `reduce`: a strict win only.
  unfoldable pub better : BranchOutcome H → BranchOutcome H → BranchOutcome H
  better best o = if H.float_gt o.verifier_score best.verifier_score then o else best

  unfoldable pub reduce_from : BranchOutcome H → List (BranchOutcome H) → BranchOutcome H
  unfolding better
  reduce_from best [] = best
  reduce_from best (o ∷ os) = reduce_from (better best o) os

  unfoldable pub reduce : List (BranchOutcome H) → Option (BranchOutcome H)
  unfolding reduce_from
  reduce [] = none
  reduce (o ∷ os) = some (reduce_from o os)

  -- The branches that may win.
  unfoldable pub qualified : List (BranchOutcome H) → RaceConfig → List (BranchOutcome H)
  unfolding take
  qualified outcomes config = keep (fits config) (take config.max_branches outcomes)

  abbrev pub id_of : Option (BranchOutcome H) → Option ℕ
  id_of none = none
  id_of (some o) = some o.branch_id

  unfoldable pub pick_winner : List (BranchOutcome H) → RaceConfig → Option ℕ
  unfolding reduce qualified
  pick_winner outcomes config = id_of (reduce (qualified outcomes config))

  unfoldable pub total_spend : List (BranchOutcome H) → ℕ
  total_spend [] = 0
  total_spend (b ∷ bs) = u64 (b.spend_cents + total_spend bs)

  unfoldable pub note_race : AblationMetrics → Option ℕ → List (BranchOutcome H) → AblationMetrics
  unfolding total_spend
  note_race m winner raced = record m {
    branch_wins = if is_some winner then u64 (m.branch_wins + 1) else m.branch_wins;
    branch_spend_cents = u64 (m.branch_spend_cents + total_spend raced);
  }

-- What the race relies on of `>` on `f64`, a NaN included.
pub record ScoreLaws (H : Host) : Type 0 where
  pub gt_irrefl : (a : H.Float) → H.float_gt a a ≡ false
  pub gt_trans :
      (a b c : H.Float) → H.float_gt a b ≡ true → H.float_gt b c ≡ true → H.float_gt a c ≡ true

module _ {H : Host} where
  -- The branch stands in the list.
  pub data IsIn (o : BranchOutcome H) : List (BranchOutcome H) → Type 0 where
    here : {os : List (BranchOutcome H)} → IsIn o (o ∷ os)
    there : {p : BranchOutcome H} {os : List (BranchOutcome H)} → IsIn o os → IsIn o (p ∷ os)

  -- No branch of the list scores more than the given one.
  abbrev pub Unbeaten : BranchOutcome H → List (BranchOutcome H) → Type 0
  Unbeaten w [] = Unit {0}
  Unbeaten w (o ∷ os) = (H.float_gt o.verifier_score w.verifier_score ≡ false) × Unbeaten w os

  reduce_from-IsIn :
      (best : BranchOutcome H) (os : List (BranchOutcome H))
      → IsIn (reduce_from best os) (best ∷ os)
  unfolding reduce_from better
  reduce_from-IsIn best [] = here
  reduce_from-IsIn best (o ∷ os) =
      elim (Bool-cases (H.float_gt o.verifier_score best.verifier_score)) [
        | inl e ↦ rw e (there (reduce_from-IsIn o os))
        | inr e ↦ rw e (skip_second (reduce_from-IsIn best os))
      ]
    where
      skip_second :
          {w p q : BranchOutcome H} {rest : List (BranchOutcome H)}
          → IsIn w (p ∷ rest)
          → IsIn w (p ∷ q ∷ rest)
      skip_second here = here
      skip_second (there i) = there (there i)

module _ {H : Host} (laws : ScoreLaws H) where
  -- What does not beat a branch does not beat one that beats it.
  stays_beaten :
      (a b c : H.Float) → H.float_gt b c ≡ true → H.float_gt a c ≡ false → H.float_gt a b ≡ false
  stays_beaten a b c h n = elim (Bool-cases (H.float_gt a b)) [
    | inl e ↦ let t = laws.gt_trans a b c e h in cc
    | inr e ↦ e
  ]

  reduce_from-rises :
      (a : H.Float) (best : BranchOutcome H) (os : List (BranchOutcome H))
      → H.float_gt a best.verifier_score ≡ false
      → H.float_gt a (reduce_from best os).verifier_score ≡ false
  unfolding reduce_from better
  reduce_from-rises a best [] n = n
  reduce_from-rises a best (o ∷ os) n =
      elim (Bool-cases (H.float_gt o.verifier_score best.verifier_score)) [
        | inl e ↦
            rw (e, reduce_from)
              (reduce_from-rises a o os (stays_beaten a o.verifier_score best.verifier_score e n))
        | inr e ↦ rw (e, reduce_from) (reduce_from-rises a best os n)
      ]

  better-unbeaten :
      (best o : BranchOutcome H)
      → H.float_gt o.verifier_score (better best o).verifier_score ≡ false
  unfolding better
  better-unbeaten best o = elim (Bool-cases (H.float_gt o.verifier_score best.verifier_score)) [
    | inl e ↦ rw e (laws.gt_irrefl o.verifier_score)
    | inr e ↦ rw e e
  ]

  reduce_from-Unbeaten :
      (best : BranchOutcome H) (os : List (BranchOutcome H)) → Unbeaten (reduce_from best os) os
  unfolding reduce_from
  reduce_from-Unbeaten best [] = tt
  reduce_from-Unbeaten best (o ∷ os) = (
    reduce_from-rises o.verifier_score (better best o) os (better-unbeaten best o),
    reduce_from-Unbeaten (better best o) os,
  )

  -- Where `>` on scores is irreflexive and transitive: no branch wins only where none qualifies,
  -- and a winner is the number of a qualified branch that no qualified branch outscores.
  pub pick_winner_lem :
      (outcomes : List (BranchOutcome H)) (config : RaceConfig)
      → (pick_winner outcomes config ≡ none → qualified outcomes config ≡ [])
        × ((id : ℕ)
            → pick_winner outcomes config ≡ some id
            → (w : BranchOutcome H) × (w.branch_id ≡ id)
              × IsIn w (qualified outcomes config)
              × Unbeaten w (qualified outcomes config))
  unfolding pick_winner reduce
  pick_winner_lem outcomes config = go (qualified outcomes config)
    where
      go :
          (os : List (BranchOutcome H))
          → (id_of (reduce os) ≡ none → os ≡ [])
            × ((id : ℕ)
                → id_of (reduce os) ≡ some id
                → (w : BranchOutcome H) × (w.branch_id ≡ id) × IsIn w os × Unbeaten w os)
      go [] = (λ h. refl, λ id h. cc)
      go (o ∷ os) = (
        λ h. cc,
        λ id h. (
          reduce_from o os,
          cc,
          reduce_from-IsIn o os,
          (
            reduce_from-rises o.verifier_score o os (laws.gt_irrefl o.verifier_score),
            reduce_from-Unbeaten o os,
          ),
        ),
      )
