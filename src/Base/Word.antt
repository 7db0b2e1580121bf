-- ===== src/Base/Word.antt =====
-- 64-bit words: an `i64` is its two's-complement bit pattern.
use Prim.Native.Nat.{ℕ, ◌+◌, ◌-◌, ◌%◌, ◌^◌, ◌<◌}
use mathlib.Core.Bool.{Bool}
use libtrading.Base.Tests.{leb, ltb, if◌then◌else◌}

abbrev pub word : ℕ
word = 2 ^ 64

abbrev pub IsWord : ℕ → Type 0
IsWord x = x < 2 ^ 64

abbrev pub add64 : ℕ → ℕ → ℕ
add64 a b = (a + b) % 2 ^ 64

abbrev pub sub64 : ℕ → ℕ → ℕ
sub64 a b = (a + 2 ^ 64 - b) % 2 ^ 64

-- `x < 0` of the signed reading.
abbrev pub is_negative : ℕ → Bool
is_negative x = leb (2 ^ 63) x

-- A 64-bit word passed as an `int`, and used as an unsigned long again.
abbrev pub int_of : ℕ → ℕ
int_of len = if ltb (len % 2 ^ 32) (2 ^ 31) then len % 2 ^ 32 else len % 2 ^ 32 + (2 ^ 64 - 2 ^ 32)
