-- ===== src/Bets/Gate.antt =====
-- What the commit gate of crates/bets/src/commit.rs keeps of a batch.
use rof_harness.Base.{
  ◌≡◌, refl, ap, ◌↔◌, ◌≢◌, String, Bool, true, false, List, [], ◌∷◌, ◌++◌, arith, is_empty,
}
use rof_harness.Bets.{
  Claim, committed, before_first_fail, from_first_fail, hunk_names, split_savepoint,
  gate_batch_commit,
}

-- Every hunk is proven.
abbrev pub AllProven : List (String × Bool) → Type 0
AllProven [] = Unit {0}
AllProven ((h, proven) ∷ hs) = (proven ≡ true) × AllProven hs

-- The list is empty or starts with an unproven hunk.
abbrev pub StartsUnproven : List (String × Bool) → Type 0
StartsUnproven [] = Unit {0}
StartsUnproven ((h, proven) ∷ hs) = proven ≡ false

split_lem :
    (hs : List (String × Bool))
    → (before_first_fail hs ++ from_first_fail hs ≡ hs)
      × AllProven (before_first_fail hs)
      × StartsUnproven (from_first_fail hs)
unfolding before_first_fail from_first_fail
split_lem [] = (refl, tt, tt)
split_lem ((h, true) ∷ hs) =
    let (whole, proven, rest) = split_lem hs in (ap (◌∷◌ (h, true)) whole, (refl, proven), rest)
split_lem ((h, false) ∷ hs) = (refl, tt, refl)

-- A savepoint divides the batch at one place: the kept hunks are the longest leading run of proven
-- ones and the reverted hunks are all from the first unproven one on, proven or not.
pub split_savepoint_lem :
    (hunks : List (String × Bool))
    → (kept : List (String × Bool)) × (reverted : List (String × Bool)) × (kept ++ reverted ≡ hunks)
      × AllProven kept
      × StartsUnproven reverted
      × ((split_savepoint hunks).kept_hunks ≡ hunk_names kept)
      × ((split_savepoint hunks).reverted_hunks ≡ hunk_names reverted)
unfolding split_savepoint
split_savepoint_lem hunks =
    let (whole, proven, rest) = split_lem hunks in
    (before_first_fail hunks, from_first_fail hunks, whole, proven, rest, refl, refl)

AllProven-nil : (hs : List (String × Bool)) → AllProven hs → from_first_fail hs ≡ []
unfolding from_first_fail
AllProven-nil [] h = refl
AllProven-nil ((n, p) ∷ hs) h = ground (arith, AllProven-nil hs h.1)

nil-AllProven : (hs : List (String × Bool)) → from_first_fail hs ≡ [] → AllProven hs
unfolding from_first_fail
nil-AllProven [] h = tt
nil-AllProven ((n, true) ∷ hs) h = (refl, nil-AllProven hs h)
nil-AllProven ((n, false) ∷ hs) h = absurd (cc)

names_nil : (hs : List (String × Bool)) → is_empty (hunk_names hs) ≡ is_empty hs
names_nil [] = refl
names_nil (h ∷ hs) = refl

-- The gate commits a batch exactly when it has a hunk and all its hunks are proven.
pub gate_batch_commit_iff :
    (claim : Claim) (hunks : List (String × Bool))
    → (gate_batch_commit claim hunks ≡ committed) ↔ ((hunks ≢ []) × AllProven hunks)
unfolding gate_batch_commit split_savepoint
gate_batch_commit_iff claim [] = (λ h. cc, λ h. absurd (h.0 refl))
gate_batch_commit_iff claim (x ∷ xs) =
    let hs = x ∷ xs in
    (
      λ h. (λ e. cc, nil-AllProven hs (ground (arith, names_nil (from_first_fail hs)))),
      λ h. ground (arith, AllProven-nil hs h.1),
    )
