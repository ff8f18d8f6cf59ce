-- ===== src/Base/Text.antt =====
-- Texts as Rust's `format!` makes them: joined strings and decimal numbers.
use Prim.Native.Nat.{ℕ, zero, suc, ◌/◌, ◌%◌}
use Prim.Native.String.{String, ◌++◌}
use mathlib.Core.Bool.{true, false}
use rof_harness.Base.Tests.{ltb}

infixr 65 ◌<>◌
unfoldable pub ◌<>◌ : String → String → String
s <> t = s ++ t

unfoldable pub digit : ℕ → String
digit zero = "0"
digit (suc zero) = "1"
digit (suc (suc zero)) = "2"
digit (suc (suc (suc zero))) = "3"
digit (suc (suc (suc (suc zero)))) = "4"
digit (suc (suc (suc (suc (suc zero))))) = "5"
digit (suc (suc (suc (suc (suc (suc zero)))))) = "6"
digit (suc (suc (suc (suc (suc (suc (suc zero))))))) = "7"
digit (suc (suc (suc (suc (suc (suc (suc (suc zero)))))))) = "8"
digit _ = "9"

-- The decimal digits of `n`, most significant first, before `tail`. Every round divides by ten, so
-- `n + 1` rounds are more than enough.
unfoldable pub decimal_from : ℕ → ℕ → String → String
unfolding ◌<>◌ digit
decimal_from zero n tail = tail
decimal_from (suc fuel) n tail = elim (ltb n 10) [
  | true ↦ digit n <> tail
  | false ↦ decimal_from fuel (n / 10) (digit (n % 10) <> tail)
]

-- `{n}` in a format string.
unfoldable pub decimal : ℕ → String
unfolding decimal_from
decimal n = decimal_from (suc n) n ""
