-- ===== src/Base/Words.antt =====
-- Arithmetic of the machine words u32 and u64, as the source writes it: `saturating_add` stops at
-- the largest word, a plain `+` wraps, and `saturating_sub` is the subtraction on ℕ.
use Prim.Native.Nat.{ℕ, ◌+◌, ◌*◌, ◌%◌, min}

abbrev pub u32_max : ℕ
u32_max = 4294967295

abbrev pub u64_max : ℕ
u64_max = 18446744073709551615

abbrev pub u32 : ℕ → ℕ
u32 n = n % 4294967296

abbrev pub u64 : ℕ → ℕ
u64 n = n % 18446744073709551616

-- `a.saturating_add(b)` and `a.saturating_mul(b)` on u32, and `a.saturating_add(b)` on u64.
abbrev pub sat_add32 : ℕ → ℕ → ℕ
sat_add32 a b = min (a + b) u32_max

abbrev pub sat_mul32 : ℕ → ℕ → ℕ
sat_mul32 a b = min (a * b) u32_max

abbrev pub sat_add64 : ℕ → ℕ → ℕ
sat_add64 a b = min (a + b) u64_max
