-- ===== src/Itoa/Tests.antt =====
-- The theorems on printed numbers at concrete numbers.
use libtrading.Base.{
  ℕ, ◌-◌, ◌^◌, ◌<◌, refl, List, [], ◌∷◌, All, arith, ltb, ltb→lt, ltb→le, if◌then◌else◌, Bool-cases,
  inl, inr,
}
use libtrading.Itoa.{Memory, uitoa, checksumtoa}
use libtrading.Itoa.Digits.{dig, decimal, dig-IsDigit, length-dig, value_from-dig, IsDigit}
use libtrading.Itoa.Print.{PrintsAll, uitoa-PrintsAll, checksumtoa-PrintsAll}
use libtrading.Itoa.Signed.{IsNumber, PrintsNumbers}

abbrev blank : Memory
blank i = 0

uitoa-PrintsAll_example : PrintsAll blank 8 (decimal 4294967295) (uitoa 4294967295 blank 8)
uitoa-PrintsAll_example = uitoa-PrintsAll 4294967295 blank 8 (omega arith)

checksumtoa-PrintsAll_example : PrintsAll blank 8 (dig 3 7) (checksumtoa 7 blank 8)
checksumtoa-PrintsAll_example = checksumtoa-PrintsAll 7 blank 8 (omega arith)

-- A sprintf that prints twenty digits.
abbrev pub twenty_digits : ℕ → List ℕ
twenty_digits n = if ltb n (2 ^ 63) then dig 20 n else b'-' ∷ dig 20 (2 ^ 64 - n)

dig-IsNumber : (n : ℕ) → n < 10 ^ 20 → IsNumber (dig 20 n) n
dig-IsNumber n h = record {
  digits = dig-IsDigit 20 n;
  some_digit = omega (arith, length-dig 20 n);
  value = value_from-dig 20 n h;
}

pub twenty_digits-PrintsNumbers : PrintsNumbers twenty_digits
twenty_digits-PrintsNumbers n word = elim (Bool-cases (ltb n (2 ^ 63))) [
  | inl plus ↦ rw plus (inl (ltb→lt n (2 ^ 63) plus, dig-IsNumber n (omega arith)))
  | inr minus ↦ rw minus (
      inr (
        ltb→le n (2 ^ 63) minus,
        (dig 20 (2 ^ 64 - n), refl, dig-IsNumber (2 ^ 64 - n) (omega arith)),
      ))
]

digits-small : (cs : List ℕ) → All IsDigit cs → All (λ c. c < 256) cs
digits-small [] h = tt
digits-small (c ∷ cs) h = (omega (arith, h.0), digits-small cs h.1)

pub twenty_digits-small : (n : ℕ) → All (λ c. c < 256) (twenty_digits n)
twenty_digits-small n = elim (Bool-cases (ltb n (2 ^ 63))) [
  | inl plus ↦ rw plus (digits-small (dig 20 n) (dig-IsDigit 20 n))
  | inr minus ↦
      rw minus (omega arith, digits-small (dig 20 (2 ^ 64 - n)) (dig-IsDigit 20 (2 ^ 64 - n)))
]
