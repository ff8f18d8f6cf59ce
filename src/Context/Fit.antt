-- ===== src/Context/Fit.antt =====
-- crates/context/src/assemble.rs: how an item is fitted to the room that is left.
use Prim.Native.Nat.{max}
use rof_harness.Base.{
  ℕ, zero, suc, ◌+◌, ◌/◌, ◌≤◌, ◌<◌, ◌≡◌, refl, String, true, false, Option, none, some, arith, ◌⊎◌,
  leb, Bool-cases, inl, inr,
}
use rof_harness.Base.Chars.{char_count}
use rof_harness.Context.Window.{min_window, window_anchored}
use rof_harness.Context.Assemble.{ContextItem, Fidelity, exact, windowed, narrow, shape, shape_as}

not-lt-zero : {n : ℕ} → n < 0 → ⊥
not-lt-zero h = omega arith

suc_shift : (m n : ℕ) → suc m + n ≡ suc (m + n)
suc_shift m n = omega arith

-- The caps that are tried: each is half of the one before it, and not below the floor.
abbrev pub cap_at : ℕ → ℕ → ℕ
cap_at zero room = room
cap_at (suc n) room = cap_at n (max (room / 2) min_window)

-- The windows of the first n caps are all too long, and none of these caps is the last one.
abbrev pub TooLong : ContextItem → String → ℕ → ℕ → ℕ → Type 0
TooLong item anchor room remaining n =
    (m : ℕ)
    → m < n
    → (remaining < char_count (window_anchored item.text anchor (cap_at m room)))
      × (min_window < cap_at m room)

-- What is left of a windowed item: the window of the first cap in the row of halves that is short
-- enough, or, where there is none, of the cap at the floor, which is kept only if it must be.
abbrev pub IsNarrowed : ContextItem → String → ℕ → ℕ → Option String → Type 0
IsNarrowed item anchor room remaining (some w) =
    (n : ℕ) × (w ≡ window_anchored item.text anchor (cap_at n room))
    × TooLong item anchor room remaining n
    × ((char_count w ≤ remaining)
        ⊎ ((remaining < char_count w) × (cap_at n room ≤ min_window) × (item.must_include ≡ true)))
IsNarrowed item anchor room remaining none =
    (n : ℕ) × TooLong item anchor room remaining n
    × (remaining < char_count (window_anchored item.text anchor (cap_at n room)))
    × (cap_at n room ≤ min_window)
    × (item.must_include ≡ false)

-- What is kept of an item for the room that remains.
abbrev pub IsFitted : ContextItem → Fidelity → ℕ → Option String → Type 0
IsFitted item exact remaining (some w) =
    (w ≡ item.text) × ((char_count w ≤ remaining) ⊎ (item.must_include ≡ true))
IsFitted item exact remaining none =
    (remaining < char_count item.text) × (item.must_include ≡ false)
IsFitted item (windowed anchor room) remaining out = IsNarrowed item anchor room remaining out

later-TooLong :
    (item : ContextItem) (anchor : String) (room remaining n : ℕ)
    → remaining < char_count (window_anchored item.text anchor room)
    → min_window < room
    → TooLong item anchor (max (room / 2) min_window) remaining n
    → TooLong item anchor room remaining (suc n)
later-TooLong item anchor room remaining n h k t zero l = (h, k)
later-TooLong item anchor room remaining n h k t (suc m) l = t m (omega (arith, l))

later-IsNarrowed :
    (item : ContextItem) (anchor : String) (room remaining : ℕ) (out : Option String)
    → remaining < char_count (window_anchored item.text anchor room)
    → min_window < room
    → IsNarrowed item anchor (max (room / 2) min_window) remaining out
    → IsNarrowed item anchor room remaining out
later-IsNarrowed item anchor room remaining none h k (n, t, w, f, i) =
    (suc n, later-TooLong item anchor room remaining n h k t, w, f, i)
later-IsNarrowed item anchor room remaining (some v) h k (n, e, t, f) =
    (suc n, e, later-TooLong item anchor room remaining n h k t, f)

no_round :
    (item : ContextItem) (anchor : String) (room remaining : ℕ)
    → TooLong item anchor room remaining 0
no_round item anchor room remaining m l = absurd (omega (arith, l))

narrow-IsNarrowed :
    (fuel : ℕ) (item : ContextItem) (anchor : String) (room remaining : ℕ)
    → room < fuel
    → IsNarrowed item anchor room remaining (narrow fuel item anchor room remaining)
unfolding narrow
narrow-IsNarrowed zero item anchor room remaining h = absurd (omega arith)
narrow-IsNarrowed (suc fuel) item anchor room remaining h =
    let w = window_anchored item.text anchor room in
    let first = no_round item anchor room remaining in
    elim (Bool-cases (leb (char_count w) remaining)) [
      | inl e ↦ rw e (0, refl, first, inl (ground arith))
      | inr e ↦
          let long : remaining < char_count w = ground arith in
          elim (Bool-cases (leb room min_window)) [
            | inl f ↦ elim (Bool-cases item.must_include) [
              | inl g ↦ rw (e, f, g) (0, refl, first, inr (long, ground arith, refl))
              | inr g ↦ rw (e, f, g) (0, first, long, ground arith, refl)
            ]
            | inr f ↦
                rw (e, f)
                  (later-IsNarrowed item anchor room remaining _ long (ground arith) (
                    narrow-IsNarrowed fuel item anchor (max (room / 2) min_window) remaining
                      (ground arith)))
          ]
    ]

-- Rounds beyond the room change nothing.
pub narrow_enough :
    (fuel more : ℕ) (item : ContextItem) (anchor : String) (room remaining : ℕ)
    → room < fuel
    → narrow (fuel + more) item anchor room remaining ≡ narrow fuel item anchor room remaining
unfolding narrow
narrow_enough zero more item anchor room remaining h = elim (not-lt-zero h) [ ]
narrow_enough (suc fuel) more item anchor room remaining h =
    rw (suc_shift fuel more) (elim (Bool-cases (leb room 2000)) [
      | inl e ↦ ground arith
      | inr e ↦ ground (
        arith,
        narrow_enough fuel more item anchor (max (room / 2) 2000) remaining (ground arith),
      )
    ])

-- An exact item is kept as it is where it fits or must be included. Of a windowed one the window
-- is kept whose cap is the first in the row of halves that is short enough; where even the cap at
-- the floor is too long, its window is kept if it must be included, and nothing otherwise.
pub shape-IsFitted :
    (item : ContextItem) (remaining : ℕ)
    → IsFitted item item.fidelity remaining (shape item remaining)
unfolding shape
shape-IsFitted item remaining = by_fidelity item.fidelity
  where
    by_fidelity : (f : Fidelity) → IsFitted item f remaining (shape_as f item remaining)
    by_fidelity exact = elim (Bool-cases (leb (char_count item.text) remaining)) [
      | inl e ↦ rw e (refl, inl (ground arith))
      | inr e ↦ elim (Bool-cases item.must_include) [
        | inl g ↦ rw (e, g) (refl, inr refl)
        | inr g ↦ rw (e, g) (ground arith, refl)
      ]
    ]
    by_fidelity (windowed anchor room) =
        narrow-IsNarrowed (suc room) item anchor room remaining (omega arith)
