-- ===== src/Fast/Book.antt =====
-- decimal_to_int and price_align of lib/proto/fast_book.c. An i64 is its 64-bit pattern.
pub mod Prices
pub mod Entries
mod Tests
use libtrading.Base.{
  ℕ, zero, suc, ◌+◌, ◌-◌, ◌*◌, ◌/◌, ◌%◌, ◌^◌, Bool, true, false, Option, none, some, ltb, ◌==◌,
  if◌then◌else◌, is_negative, add64, sub64,
}
use libtrading.Fast.Decimal.{Decimal}

-- `a < b` of the signed readings.
abbrev pub signed_lt : ℕ → ℕ → Bool
signed_lt a b = ltb (add64 a (2 ^ 63)) (add64 b (2 ^ 63))

abbrev pub times_ten : ℕ → ℕ
times_ten x = x * 10 % 2 ^ 64

-- `x % 10` is 0.
abbrev pub ends_in_zero : ℕ → Bool
ends_in_zero x = (if is_negative x then sub64 0 x else x) % 10 == 0

-- `x / 10`
abbrev pub tenth : ℕ → ℕ
tenth x = if is_negative x then sub64 0 (sub64 0 x / 10) else x / 10

-- `while (exp--) *out *= 10;`
unfoldable pub scale_by : ℕ → ℕ → ℕ
scale_by zero out = out
scale_by (suc n) out = scale_by n (times_ten out)

-- `*out`, or none where -1 is returned.
unfoldable pub decimal_to_int : Decimal → Option ℕ
unfolding scale_by
decimal_to_int d = if is_negative d.exp then none else some (scale_by d.exp d.mnt)

-- The loop over the exponents above the tick's; there are as many rounds as the exponents are apart.
unfoldable pub scale_up : ℕ → Decimal → Decimal
scale_up zero price = price
scale_up (suc n) price = scale_up n (record { exp = sub64 price.exp 1; mnt = times_ten price.mnt })

-- The loop over the exponents below it; none where -1 is returned.
unfoldable pub scale_down : ℕ → Decimal → Option Decimal
scale_down zero price = some price
scale_down (suc n) price =
    let rest = scale_down n (record { exp = add64 price.exp 1; mnt = tenth price.mnt }) in
    if ends_in_zero price.mnt then rest else none

unfoldable pub price_align : Decimal → Decimal → Option Decimal
unfolding scale_up scale_down
price_align price tick =
    if price.exp == tick.exp
    then some price
    else if signed_lt tick.exp price.exp
    then some (scale_up (sub64 price.exp tick.exp) price)
    else scale_down (sub64 tick.exp price.exp) price
