-- ===== src/Base/Word.antt =====
-- Unsigned machine words as native numbers below a power of two, with their wrap-around.
use Prim.Native.Nat.{ℕ, ◌+◌, ◌-◌, ◌%◌}
use mathlib.Core.Bool.{Bool, ◌||◌}
use my_lwip_poc.Base.Tests.{leb}

abbrev pub u8_mod : ℕ
u8_mod = 256

abbrev pub u16_mod : ℕ
u16_mod = 65536

abbrev pub u32_mod : ℕ
u32_mod = 4294967296

abbrev pub add16 : ℕ → ℕ → ℕ
add16 a b = (a + b) % u16_mod

abbrev pub sub16 : ℕ → ℕ → ℕ
sub16 a b = (a + u16_mod - b) % u16_mod

abbrev pub add32 : ℕ → ℕ → ℕ
add32 a b = (a + b) % u32_mod

abbrev pub sub32 : ℕ → ℕ → ℕ
sub32 a b = (a + u32_mod - b) % u32_mod

-- `(s32_t)(a - b) <= 0` for two words: the difference is zero or its sign bit is set.
abbrev pub s32_diff_le_zero : ℕ → ℕ → Bool
s32_diff_le_zero a b = leb (sub32 a b) 0 || leb 2147483648 (sub32 a b)
