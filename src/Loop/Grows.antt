-- ===== src/Loop/Grows.antt =====
-- How an item list of crates/agent-loop changes: a row is appended with the next number, or the
-- newest ToolResult row takes one more line.
use rof_harness.Base.{ℕ, ◌+◌, ◌≡◌, String, List, [], ◌∷◌, ◌++◌, arith, length, Bool-cases, inl, inr}
use rof_harness.Host.{Host}
use rof_harness.Log.Types.{Item, ItemKind, header}
use rof_harness.Log.Validity.{IsGapless, IsHeader}
use rof_harness.Loop.Directives.{extend_tail, extend_kind, any_tool_result}
use rof_harness.Loop.State.{LoopState, append_to}

module _ {H : Host} where
  pub data Grows (is : List (Item H)) : List (Item H) → Type 0 where
    same : Grows is is
    adds :
        {js : List (Item H)}
        → Grows is js
        → (system : ℕ) (k : ItemKind H) → Grows is (append_to system js k)
    amends : {js : List (Item H)} → Grows is js → (text : String) → Grows is (extend_tail text js)

  abbrev pub Keeps : LoopState H → LoopState H → Type 0
  Keeps s s' = Grows s.items s'.items

  pub Grows-trans : {is js ks : List (Item H)} → Grows is js → Grows js ks → Grows is ks
  Grows-trans g same = g
  Grows-trans g (adds h system k) = adds (Grows-trans g h) system k
  Grows-trans g (amends h text) = amends (Grows-trans g h) text

  -- The numbers of the rows run from `n`.
  IsGapless-append :
      (n : ℕ) (is : List (Item H)) (i : Item H)
      → IsGapless n is
      → i.seq ≡ n + length is
      → IsGapless n (is ++ i ∷ [])
  IsGapless-append n [] i g e = (omega arith, tt)
  IsGapless-append n (j ∷ js) i g e = (g.0, IsGapless-append (n + 1) js i g.1 (omega arith))

  append_to-IsGapless :
      (system : ℕ) (is : List (Item H)) (k : ItemKind H)
      → IsGapless 1 is
      → IsGapless 1 (append_to system is k)
  unfolding append_to
  append_to-IsGapless system is k g = IsGapless-append 1 is _ g (omega arith)

  extend_tail-IsGapless :
      (n : ℕ) (text : String) (is : List (Item H))
      → IsGapless n is
      → IsGapless n (extend_tail text is)
  unfolding extend_tail
  extend_tail-IsGapless n text [] g = tt
  extend_tail-IsGapless n text (i ∷ is) g =
      ground (arith, extend_tail-IsGapless (n + 1) text is g.1)

  extend_kind-IsHeader :
      (text : String) (k : ItemKind H) → IsHeader k → IsHeader (extend_kind text k)
  unfolding extend_kind
  extend_kind-IsHeader text (header v s c m) h = h
  extend_kind-IsHeader text _ h = elim h [ ]

  -- A non-empty log stays a log: its Header is the first row, its numbers have no gap.
  abbrev pub IsOpenLog : List (Item H) → Type 0
  IsOpenLog [] = ⊥
  IsOpenLog (i ∷ is) = IsHeader i.kind × IsGapless 1 (i ∷ is)

  append_to-IsOpenLog :
      (system : ℕ) (is : List (Item H)) (k : ItemKind H)
      → IsOpenLog is
      → IsOpenLog (append_to system is k)
  unfolding append_to
  append_to-IsOpenLog system [] k h = elim h [ ]
  append_to-IsOpenLog system (i ∷ is) k (h, g) = (h, append_to-IsGapless system (i ∷ is) k g)

  extend_tail-IsOpenLog :
      (text : String) (is : List (Item H)) → IsOpenLog is → IsOpenLog (extend_tail text is)
  unfolding extend_tail
  extend_tail-IsOpenLog text [] h = elim h [ ]
  extend_tail-IsOpenLog text (i ∷ is) (h, g) = elim (Bool-cases (any_tool_result is)) [
    | inl e ↦ rw e (h, (g.0, extend_tail-IsGapless 2 text is g.1))
    | inr e ↦ rw e (extend_kind-IsHeader text i.kind h, g)
  ]

  pub Grows-IsOpenLog : {is js : List (Item H)} → Grows is js → IsOpenLog is → IsOpenLog js
  Grows-IsOpenLog same h = h
  Grows-IsOpenLog (adds g system k) h = append_to-IsOpenLog system _ k (Grows-IsOpenLog g h)
  Grows-IsOpenLog (amends g text) h = extend_tail-IsOpenLog text _ (Grows-IsOpenLog g h)
