-- ===== src/Context/Assemble.antt =====
-- crates/context/src/types.rs and assemble.rs: the evidence that is fitted to a budget.
use Prim.Native.Nat.{max}
use rof_harness.Base.{
  ℕ, zero, suc, ◌+◌, ◌-◌, ◌/◌, String, Bool, true, false, ◌&&◌, ◌||◌, Option, none, some, List, [],
  ◌∷◌, ◌++◌, leb, any, str_eq, if◌then◌else◌,
}
use rof_harness.Base.Text.{◌<>◌}
use rof_harness.Base.Chars.{char_count, join}
use rof_harness.Context.Window.{window_anchored, min_window}

pub record ItemKey : Type 0 where
  pub path : String
  pub region : String
  pub role : String

pub data Fidelity : Type 0 where
  exact : Fidelity
  windowed : String → ℕ → Fidelity

pub record ContextItem : Type 0 where
  pub key : ItemKey
  pub fidelity : Fidelity
  pub must_include : Bool
  pub text : String

pub record ContextAssembler : Type 0 where
  pub budget : ℕ
  pub items : List ContextItem
  pub volatile_items : List ContextItem
  pub seen : List ItemKey

unfoldable pub new : ℕ → ContextAssembler
new budget_chars = record { budget = budget_chars; items = []; volatile_items = []; seen = [] }

unfoldable pub same_key : ItemKey → ItemKey → Bool
same_key a b = str_eq a.path b.path && str_eq a.region b.region && str_eq a.role b.role

unfoldable pub place : ContextAssembler → ContextItem → Bool → ContextAssembler
unfolding same_key
place a item volatile =
    if any (same_key item.key) a.seen
    then a
    else if volatile
    then record a { seen = item.key ∷ a.seen; volatile_items = a.volatile_items ++ item ∷ [] }
    else record a { seen = item.key ∷ a.seen; items = a.items ++ item ∷ [] }

unfoldable pub add : ContextAssembler → ContextItem → ContextAssembler
unfolding place
add a item = place a item false

unfoldable pub add_volatile : ContextAssembler → ContextItem → ContextAssembler
unfolding place
add_volatile a item = place a item true

abbrev pub kept_if : Bool → String → Option String
kept_if b w = if b then some w else none

-- The halving loop. The cap falls until it is at the floor, so `cap` rounds are enough.
unfoldable pub narrow : ℕ → ContextItem → String → ℕ → ℕ → Option String
unfolding window_anchored
narrow zero item anchor cap remaining = none
narrow (suc fuel) item anchor cap remaining =
    let rest = narrow fuel item anchor (max (cap / 2) min_window) remaining in
    let w = window_anchored item.text anchor cap in
    if leb (char_count w) remaining
    then some w
    else if leb cap min_window
    then kept_if item.must_include w
    else rest

abbrev pub shape_as : Fidelity → ContextItem → ℕ → Option String
shape_as exact item remaining =
    kept_if (leb (char_count item.text) remaining || item.must_include) item.text
shape_as (windowed anchor cap) item remaining = narrow (suc cap) item anchor cap remaining

unfoldable pub shape : ContextItem → ℕ → Option String
unfolding narrow
shape item remaining = shape_as item.fidelity item remaining

-- What one section costs, and how it reads.
unfoldable pub section_cost : ItemKey → String → ℕ
unfolding ◌<>◌
section_cost key text = char_count ("--- " <> key.path <> "\n" <> text <> "\n")

unfoldable pub section : ContextItem → String → String
unfolding ◌<>◌
section item text = "--- " <> item.key.path <> "\n" <> text

abbrev pub cost_of : ContextItem → Option String → ℕ
cost_of item none = 0
cost_of item (some text) = section_cost item.key text

-- The texts of a list, each fitted to what the ones before it leave, and what is used after them.
unfoldable pub fit_list : List ContextItem → ℕ → ℕ → List (Option String) × ℕ
unfolding shape section_cost
fit_list [] used budget = ([], used)
fit_list (item ∷ items) used budget =
    let text = shape item (budget - used) in
    let (rest, used') = fit_list items (used + cost_of item text) budget in (text ∷ rest, used')

unfoldable pub sections : List ContextItem → List (Option String) → List String
unfolding section
sections [] texts = []
sections (item ∷ items) [] = []
sections (item ∷ items) (none ∷ texts) = sections items texts
sections (item ∷ items) (some text ∷ texts) = section item text ∷ sections items texts

unfoldable pub assemble : ContextAssembler → String
unfolding fit_list sections join
assemble a =
    let (stable, used) = fit_list a.items 0 a.budget in
    let (vol, used') = fit_list a.volatile_items used a.budget in
    join "\n\n" (sections a.items stable ++ sections a.volatile_items vol)
