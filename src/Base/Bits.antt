-- ===== src/Base/Bits.antt =====
-- Masks and shifted fields of machine words as arithmetic.
use Prim.Native.Nat.{
  ℕ, zero, suc, ◌+◌, ◌*◌, ◌/◌, ◌%◌, ◌^◌, ◌≤◌, ◌<◌, max, bit_and, bit_or, digits, bit_or-bitwise,
}
use mathlib.Core.Path.{◌≡◌, refl, ap}
use mathlib.Core.Bool.{Bool, true, ◌&&◌}
use native.Mathlib.Omega.{arith}
use native.Mathlib.Nat.{le_refl, pow-suc}
use libtrading.Base.Tests.{◌==◌, ==_iff}

-- A table: every value below a bound, checked by evaluation.
unfoldable pub all_below : ℕ → (ℕ → Bool) → Bool
all_below zero p = true
all_below (suc n) p = p n && all_below n p

pub all_below→ : (n : ℕ) (p : ℕ → Bool) → all_below n p ≡ true → (x : ℕ) → x < n → p x ≡ true
unfolding all_below
all_below→ zero p e x h = absurd (omega arith)
all_below→ (suc n) p e x h = ground (arith, all_below→ n p (ground arith) x)

-- `byte & 0x7F`, `byte & 0x80`, `byte & 0x40` and `septet | 0x80`.
pub bit_and-0x7f : (b : ℕ) → b < 256 → bit_and b 0x7f ≡ b % 128
unfolding all_below
bit_and-0x7f b h = (==_iff _ _).0 (all_below→ 256 (λ x. bit_and x 0x7f == x % 128) refl b h)

pub bit_and-0x80 : (b : ℕ) → b < 256 → bit_and b 0x80 ≡ b / 128 * 128
unfolding all_below
bit_and-0x80 b h = (==_iff _ _).0 (all_below→ 256 (λ x. bit_and x 0x80 == x / 128 * 128) refl b h)

pub bit_and-0x40 : (b : ℕ) → b < 256 → bit_and b 0x40 ≡ b / 64 % 2 * 64
unfolding all_below
bit_and-0x40 b h = (==_iff _ _).0 (all_below→ 256 (λ x. bit_and x 0x40 == x / 64 % 2 * 64) refl b h)

pub bit_or-0x80 : (b : ℕ) → b < 128 → bit_or b 0x80 ≡ b + 128
unfolding all_below
bit_or-0x80 b h = (==_iff _ _).0 (all_below→ 128 (λ x. bit_or x 0x80 == x + 128) refl b h)

-- `|` digit by digit: the fuel of the native operation does not matter once it is enough.
or_digits : (n m a b : ℕ) → a ≤ n → a ≤ m → digits (λ y. y) max n a b ≡ digits (λ y. y) max m a b
or_digits zero zero a b p q = refl
or_digits zero (suc m) zero b p q = refl
or_digits zero (suc m) (suc a) b p q = absurd (omega arith)
or_digits (suc n) zero zero b p q = refl
or_digits (suc n) zero (suc a) b p q = absurd (omega arith)
or_digits (suc n) (suc m) zero b p q = refl
or_digits (suc n) (suc m) (suc a) b p q =
    rw (or_digits n m (suc a / 2) (b / 2) (omega arith) (omega arith))

bit_or-halves : (a b : ℕ) → bit_or a b ≡ bit_or (a / 2) (b / 2) * 2 + max (a % 2) (b % 2)
bit_or-halves zero b = simp bit_or-bitwise (omega arith)
bit_or-halves (suc a) b =
    simp bit_or-bitwise
      (omega (arith, or_digits a (suc a / 2) (suc a / 2) (b / 2) (omega arith) (le_refl _)))

bit_or-zero_fuel : (n a : ℕ) → a ≤ n → bit_or a 0 ≡ a
bit_or-zero_fuel n zero h = refl
bit_or-zero_fuel zero (suc a) h = absurd (omega arith)
bit_or-zero_fuel (suc n) (suc a) h =
    omega (arith, bit_or-halves (suc a) 0, bit_or-zero_fuel n (suc a / 2) (omega arith))

-- `(q << k) | r` is a sum when `r` fits the `k` bits that the shift left clear.
pub bit_or-shifted : (k q r : ℕ) → r < 2 ^ k → bit_or (q * 2 ^ k) r ≡ q * 2 ^ k + r
bit_or-shifted zero q r h = ground (arith, bit_or-zero_fuel q q (le_refl q))
bit_or-shifted (suc k) q r h = ground (
  arith,
  bit_or-halves (q * 2 ^ suc k) r,
  twice,
  pow-suc 2 k,
  bit_or-shifted k q (r / 2) (omega (arith, pow-suc 2 k)),
)
  where
    twice : q * 2 ^ suc k ≡ q * 2 ^ k * 2
    twice = omega (arith, ap (λ (t : ℕ). q * t) (pow-suc 2 k))

pub septet_in : (q c : ℕ) → c < 128 → bit_or (q * 128 % 2 ^ 64) c ≡ q * 128 % 2 ^ 64 + c
septet_in q c h =
    let aligned : q * 128 % 2 ^ 64 ≡ q % 2 ^ 57 * 2 ^ 7 = omega arith in
    rw aligned (bit_or-shifted 7 (q % 2 ^ 57) c (omega arith))

or_comm : (n a b : ℕ) → a ≤ n → b ≤ n → bit_or a b ≡ bit_or b a
or_comm zero zero zero h k = refl
or_comm zero zero (suc b) h k = absurd (omega arith)
or_comm zero (suc a) b h k = absurd (omega arith)
or_comm (suc n) a b h k = omega (
  arith,
  bit_or-halves a b,
  bit_or-halves b a,
  or_comm n (a / 2) (b / 2) (omega arith) (omega arith),
)

pub bit_or_comm : (a b : ℕ) → bit_or a b ≡ bit_or b a
bit_or_comm a b = or_comm (a + b) a b (omega arith) (omega arith)
