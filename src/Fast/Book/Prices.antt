-- ===== src/Fast/Book/Prices.antt =====
-- What price_align of lib/proto/fast_book.c makes of a price.
use libtrading.Base.{
  ℕ, zero, suc, ◌*◌, ◌/◌, ◌%◌, ◌^◌, ◌≤◌, ◌<◌, ◌≡◌, refl, sym, ap, ◌∙◌, ◌≢◌, true, false, Option,
  none, some, inl, inr, Bool-cases, ltb→lt, ltb→le, lt→ltb, le→ltb, ◌==◌, ==_iff, ==→ne,
  if◌then◌else◌, add64, sub64, IsWord, arith,
}
use mathlib.Core.Path.{subst}
use native.Mathlib.Nat.{mul_assoc, mul_comm}
use libtrading.Fast.Decimal.{Decimal}
use libtrading.Fast.Book.{
  signed_lt, times_ten, ends_in_zero, tenth, scale_up, scale_down, price_align,
}

-- Ten to the power of n.
abbrev pub tens : ℕ → ℕ
tens zero = 1
tens (suc n) = 10 * tens n

-- How far the exponent of the price is above the tick's, and how far below.
abbrev pub above : Decimal → Decimal → ℕ
above price tick = if signed_lt tick.exp price.exp then sub64 price.exp tick.exp else 0

-- Of the same worth with the exponent of the tick, or of a worth that no mantissa has with that exponent.
abbrev pub Aligned : Decimal → Decimal → Option Decimal → Type 0
Aligned price tick (some p) =
    (p.exp ≡ tick.exp) × (p.mnt * tens (above tick price) ≡ price.mnt * tens (above price tick))
Aligned price tick none = (m : ℕ) → m * tens (above tick price) ≢ price.mnt

tens-suc : (a n : ℕ) → a * tens (suc n) ≡ a * 10 * tens n
tens-suc a n = sym (mul_assoc a 10 (tens n))

ten_times : (a n : ℕ) → a * tens (suc n) ≡ 10 * (a * tens n)
ten_times a n = tens-suc a n ∙ ap (λ (t : ℕ). t * tens n) (mul_comm a 10) ∙ mul_assoc 10 a (tens n)

le-tens : (a n : ℕ) → a ≤ a * tens n
le-tens a zero = omega arith
le-tens a (suc n) = omega (arith, ten_times a n, le-tens a n)

scale_up_lem :
    (n : ℕ) (p : Decimal)
    → IsWord p.exp
    → n < 2 ^ 64
    → p.mnt * tens n < 2 ^ 63
    → scale_up n p ≡ record { exp = sub64 p.exp n; mnt = p.mnt * tens n }
unfolding scale_up
scale_up_lem zero p w few h =
    let e : p.exp ≡ sub64 p.exp 0 = omega arith in
    let m : p.mnt ≡ p.mnt * 1 = omega arith in λ i. record { exp = e i; mnt = m i }
scale_up_lem (suc n) p w few h =
    let whole : times_ten p.mnt ≡ p.mnt * 10 =
      omega (arith, tens-suc p.mnt n, le-tens (p.mnt * 10) n) in
    let fits : times_ten p.mnt * tens n < 2 ^ 63 = rw whole (omega (arith, tens-suc p.mnt n)) in
    let e : sub64 (sub64 p.exp 1) n ≡ sub64 p.exp (suc n) = omega arith in
    let m : times_ten p.mnt * tens n ≡ p.mnt * tens (suc n) =
      ap (λ (t : ℕ). t * tens n) whole ∙ sym (tens-suc p.mnt n) in
    scale_up_lem n (record { exp = sub64 p.exp 1; mnt = times_ten p.mnt }) (omega arith)
      (omega arith) fits
    ∙ (λ i. record { exp = e i; mnt = m i })

-- What the loop downwards leaves behind `n` rounds.
abbrev Lowered : ℕ → Decimal → Option Decimal → Type 0
Lowered n p (some q) = (q.exp ≡ add64 p.exp n) × (q.mnt * tens n ≡ p.mnt)
Lowered n p none = (m : ℕ) → m * tens n ≢ p.mnt

Lowered-suc :
    (n : ℕ) (p : Decimal) (r : Option Decimal)
    → n < 2 ^ 64
    → p.mnt % 10 ≡ 0
    → Lowered n (record { exp = add64 p.exp 1; mnt = p.mnt / 10 }) r
    → Lowered (suc n) p r
Lowered-suc n p (some q) few e (exp, mnt) =
    (exp ∙ omega arith, omega (arith, ten_times q.mnt n, mnt))
Lowered-suc n p none few e no_tick = λ m same. no_tick m (omega (arith, ten_times m n, same))

scale_down-Lowered :
    (n : ℕ) (p : Decimal)
    → IsWord p.exp
    → n < 2 ^ 64
    → p.mnt < 2 ^ 63
    → Lowered n p (scale_down n p)
unfolding scale_down
scale_down-Lowered zero p w few h = (omega arith, omega arith)
scale_down-Lowered (suc n) p w few h =
    let plain : tenth p.mnt ≡ p.mnt / 10 = ground arith in
    let zero_end : ends_in_zero p.mnt ≡ (p.mnt % 10 == 0) = ground arith in
    elim (Bool-cases (p.mnt % 10 == 0)) [
      | inl e ↦
          rw (zero_end, e, plain)
            (Lowered-suc n p _ (omega arith) ((==_iff _ _).0 e) (
              scale_down-Lowered n (record { exp = add64 p.exp 1; mnt = p.mnt / 10 }) (omega arith)
                (omega arith) (omega arith)))
      | inr ne ↦ rw (zero_end, ne) (λ m same. ==→ne _ _ ne (omega (arith, ten_times m n, same)))
    ]

module _ (a b : ℕ) (wa : IsWord a) (wb : IsWord b) where
  signed_lt_self : a ≡ b → signed_lt a b ≡ false
  signed_lt_self e = le→ltb _ _ (omega arith)

  signed_lt_asym : signed_lt a b ≡ true → signed_lt b a ≡ false
  signed_lt_asym h = le→ltb _ _ (omega (arith, ltb→lt (add64 a (2 ^ 63)) (add64 b (2 ^ 63)) h))

  signed_lt_total : a ≢ b → signed_lt a b ≡ false → signed_lt b a ≡ true
  signed_lt_total ne h =
      lt→ltb _ _ (omega (arith, ne, ltb→le (add64 a (2 ^ 63)) (add64 b (2 ^ 63)) h))

Aligned-Lowered :
    (n : ℕ) (price tick : Decimal) (r : Option Decimal)
    → above tick price ≡ n
    → above price tick ≡ 0
    → add64 price.exp n ≡ tick.exp
    → Lowered n price r
    → Aligned price tick r
Aligned-Lowered n price tick (some q) up down same (exp, mnt) =
    rw (up, down) (exp ∙ same, omega (arith, mnt))
Aligned-Lowered n price tick none up down same no_tick = rw up no_tick

-- price_align gives a price the exponent of the tick and keeps its worth, and refuses it exactly when no
-- mantissa with that exponent is worth as much: the new mantissa times the power of ten by which the price's
-- exponent is below the tick's is the old one times the power by which it is above. The mantissa of the tick
-- plays no part, so a price that is taken need not be a number of ticks. It holds for a price that is not
-- negative and whose scaled mantissa fits an i64.
pub price_align-Aligned :
    (price tick : Decimal)
    → IsWord price.exp
    → IsWord tick.exp
    → price.mnt * tens (above price tick) < 2 ^ 63
    → Aligned price tick (price_align price tick)
unfolding price_align
price_align-Aligned price tick wp wt fits =
    let small : price.mnt < 2 ^ 63 = omega (arith, le-tens price.mnt (above price tick)) in
    elim (Bool-cases (price.exp == tick.exp)) [
      | inl e ↦
          let same : price.exp ≡ tick.exp = (==_iff _ _).0 e in
          rw e (
            rw
              (
                signed_lt_self price.exp tick.exp wp wt same,
                signed_lt_self tick.exp price.exp wt wp (sym same),
              )
              (same, refl))
      | inr ne ↦ rw ne (elim (Bool-cases (signed_lt tick.exp price.exp)) [
        | inl up ↦
            let n = sub64 price.exp tick.exp in
            let down = signed_lt_asym tick.exp price.exp wt wp up in
            let raised = scale_up_lem n price wp (omega arith) (rw up at fits) in
            rw up (
              subst (Aligned price tick) (sym (ap some raised))
                (omega arith, rw (down, up) (omega arith)))
        | inr not_up ↦
            let down =
              signed_lt_total tick.exp price.exp wt wp (λ e. ==→ne _ _ ne (sym e)) not_up in
            let n = sub64 tick.exp price.exp in
            rw not_up (
              Aligned-Lowered n price tick (scale_down n price) (rw down refl) (rw not_up refl)
                (omega arith) (scale_down-Lowered n price wp (omega arith) small))
      ])
    ]
