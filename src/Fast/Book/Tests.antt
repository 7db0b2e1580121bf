-- ===== src/Fast/Book/Tests.antt =====
-- Prices that are aligned to a tick.
use libtrading.Base.{ℕ, ◌-◌, ◌^◌, ◌≡◌, refl, some, none, arith}
use libtrading.Fast.Decimal.{Decimal}
use libtrading.Fast.Book.{price_align, scale_up, scale_down, decimal_to_int, scale_by}
use libtrading.Fast.Book.Prices.{Aligned, price_align-Aligned}

abbrev amount : ℕ → ℕ → Decimal
amount exp mnt = record { exp = exp; mnt = mnt }

-- 125.00 in units, and in cents; 125.50 is no number of units.
lowered : price_align (amount (2 ^ 64 - 2) 12500) (amount 0 1) ≡ some (amount 0 125)
unfolding price_align scale_down
lowered = refl

raised : price_align (amount 0 125) (amount (2 ^ 64 - 2) 1) ≡ some (amount (2 ^ 64 - 2) 12500)
unfolding price_align scale_up
raised = refl

between : price_align (amount (2 ^ 64 - 2) 12550) (amount 0 1) ≡ none
unfolding price_align scale_down
between = refl

hundreds : decimal_to_int (amount 2 7) ≡ some 700
unfolding decimal_to_int scale_by
hundreds = refl

price_align-Aligned_example :
    Aligned
      (amount 0 125)
      (amount (2 ^ 64 - 2) 1)
      (price_align (amount 0 125) (amount (2 ^ 64 - 2) 1))
price_align-Aligned_example =
    price_align-Aligned (amount 0 125) (amount (2 ^ 64 - 2) 1) (omega arith) (omega arith)
      (omega arith)
