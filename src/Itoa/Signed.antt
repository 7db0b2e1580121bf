-- ===== src/Itoa/Signed.antt =====
-- What itoa, i64toa and the parameter for sprintf leave in memory.
use libtrading.Base.{
  true, false, ℕ, suc, ◌+◌, ◌-◌, ◌%◌, ◌^◌, ◌≤◌, ◌<◌, ◌≡◌, refl, ap, ◌∙◌, List, [], ◌∷◌, length,
  arith, All, Bool-cases, inl, inr, ◌⊎◌, ltb, leb, ltb→lt, ltb→le, if◌then◌else◌,
}
use libtrading.Buffer.{write_at}
use libtrading.Buffer.Contents.{window}
use libtrading.Itoa.{Memory, print, itoa, i64toa, uilog_10}
use libtrading.Itoa.Digits.{
  IsDigit, value_from, decimal, dig-IsDigit, value_from-decimal, uilog_10_lem, length-dig,
}
use libtrading.Itoa.Print.{PrintsAll, Prints-one, Prints-then, uitoa-PrintsAll}

-- The characters `ds` at `s`, with everything in front of them as it was.
pub record Leaves (m : Memory) (s : ℕ) (ds : List ℕ) (r : ℕ × Memory) : Type 0 where
  pub count : r.0 ≡ length ds
  pub text : window r.1 s (length ds) ≡ ds
  pub below : (i : ℕ) → i < s → r.1 i ≡ m i

pub PrintsAll-Leaves :
    (m : Memory) (s : ℕ) (ds : List ℕ) (r : ℕ × Memory) → PrintsAll m s ds r → Leaves m s ds r
PrintsAll-Leaves m s ds r p = record {
  count = p.count;
  text = p.written.text;
  below = p.written.below;
}

pub print-Leaves :
    (cs : List ℕ) (m : Memory) (s : ℕ) → All (λ c. c < 256) cs → Leaves m s cs (print cs m s)
unfolding print
print-Leaves [] m s h = record { count = refl; text = refl; below = λ i p. ground arith }
print-Leaves (c ∷ cs) m s h =
    let rest = print-Leaves cs (write_at m s c) (s + 1) h.1 in
    record {
      count = ap suc rest.count;
      text = first (print cs (write_at m s c) (s + 1)).1 (rest.below s (omega arith)) rest.text;
      below = λ i p. rest.below i (omega arith) ∙ ground arith;
    }
  where
    next : s + 1 ≡ suc s
    next = omega arith

    first :
        (m' : Memory)
        → m' s ≡ write_at m s c s
        → window m' (s + 1) (length cs) ≡ cs
        → window m' s (suc (length cs)) ≡ c ∷ cs
    first m' here rest =
        let rest' : window m' (suc s) (length cs) ≡ cs = rw next at rest in
        let e : m' s % 256 ≡ c = ap (λ (x : ℕ). x % 256) here ∙ ground (arith, h.0) in cc

-- An int of pattern `n`, in decimal.
abbrev pub int_text : ℕ → List ℕ
int_text n = if ltb n (2 ^ 31) then decimal n else b'-' ∷ decimal (2 ^ 32 - n)

itoa-PrintsAll : (n : ℕ) (m : Memory) (s : ℕ) → n < 2 ^ 32 → PrintsAll m s (int_text n) (itoa n m s)
unfolding itoa
itoa-PrintsAll n m s word = elim (Bool-cases (ltb n (2 ^ 31))) [
  | inl plus ↦
      let sign : leb (2 ^ 31) n ≡ false = ground (arith, ltb→lt n (2 ^ 31) plus) in
      rw (plus, sign) (uitoa-PrintsAll n m s word)
  | inr minus ↦
      let big = ltb→le n (2 ^ 31) minus in
      let sign : leb (2 ^ 31) n ≡ true = ground (arith, big) in
      let digits = uitoa-PrintsAll (2 ^ 32 - n) (write_at m s b'-') (s + 1) (omega arith) in
      rw (minus, sign)
        (record {
          count = omega (arith, digits.count);
          written =
              Prints-then m (write_at m s b'-') _ s (b'-' ∷ []) (decimal (2 ^ 32 - n))
                (Prints-one m s b'-' (omega arith)) digits.written;
        })
]

-- An `int64_t` of pattern `n`: in decimal where it is an int, else what sprintf makes of it.
abbrev pub i64_text : (ℕ → List ℕ) → ℕ → List ℕ
i64_text sprintf n =
    if ltb n (2 ^ 31)
    then decimal n
    else if leb (2 ^ 64 - 2 ^ 31) n
    then b'-' ∷ decimal (2 ^ 64 - n)
    else sprintf n

pub i64toa-Leaves :
    (sprintf : ℕ → List ℕ) (n : ℕ) (m : Memory) (s : ℕ)
    → n < 2 ^ 64
    → All (λ c. c < 256) (sprintf n)
    → Leaves m s (i64_text sprintf n) (i64toa sprintf n m s)
unfolding i64toa
i64toa-Leaves sprintf n m s word chars = elim (Bool-cases (ltb n (2 ^ 31))) [
  | inl plus ↦ rw plus (
      PrintsAll-Leaves m s _ _
        (rw plus at (itoa-PrintsAll n m s (omega (arith, ltb→lt n (2 ^ 31) plus)))))
  | inr more ↦ elim (Bool-cases (leb (2 ^ 64 - 2 ^ 31) n)) [
    | inl minus ↦
        let big : 2 ^ 64 - 2 ^ 31 ≤ n = ground (arith, minus) in
        let sign : ltb (n % 2 ^ 32) (2 ^ 31) ≡ false = ground (arith, big) in
        let size : 2 ^ 32 - n % 2 ^ 32 ≡ 2 ^ 64 - n = omega (arith, big) in
        rw (more, minus)
          (PrintsAll-Leaves m s _ _
            (rw (sign, size) at (itoa-PrintsAll (n % 2 ^ 32) m s (omega arith))))
    | inr far ↦ rw (more, far) (print-Leaves (sprintf n) m s chars)
  ]
]

-- A number as text: its digits, behind a '-' where it is negative.
pub record IsNumber (ds : List ℕ) (v : ℕ) : Type 0 where
  pub digits : All IsDigit ds
  pub some_digit : 0 < length ds
  pub value : value_from 0 ds ≡ v

pub decimal-IsNumber : (n : ℕ) → n < 2 ^ 32 → IsNumber (decimal n) n
decimal-IsNumber n word = record {
  digits = dig-IsDigit (uilog_10 n) n;
  some_digit = omega (arith, length-dig (uilog_10 n) n, uilog_10_lem n word);
  value = value_from-decimal n word;
}

abbrev pub Shows : List ℕ → ℕ → Type 0
Shows cs n =
    ((n < 2 ^ 63) × IsNumber cs n)
    ⊎ ((2 ^ 63 ≤ n) × ((ds : List ℕ) × (cs ≡ b'-' ∷ ds) × IsNumber ds (2 ^ 64 - n)))

-- What `"%" PRId64` is documented to print.
abbrev pub PrintsNumbers : (ℕ → List ℕ) → Type 0
PrintsNumbers sprintf = (n : ℕ) → n < 2 ^ 64 → Shows (sprintf n) n

pub i64_text-Shows :
    (sprintf : ℕ → List ℕ) (n : ℕ)
    → PrintsNumbers sprintf
    → n < 2 ^ 64
    → Shows (i64_text sprintf n) n
i64_text-Shows sprintf n law word = elim (Bool-cases (ltb n (2 ^ 31))) [
  | inl plus ↦
      let small = ltb→lt n (2 ^ 31) plus in
      rw plus (inl (omega arith, decimal-IsNumber n (omega arith)))
  | inr more ↦ elim (Bool-cases (leb (2 ^ 64 - 2 ^ 31) n)) [
    | inl minus ↦
        let big : 2 ^ 64 - 2 ^ 31 ≤ n = ground (arith, minus) in
        rw (more, minus)
          (inr (
            omega arith,
            (decimal (2 ^ 64 - n), refl, decimal-IsNumber (2 ^ 64 - n) (omega arith)),
          ))
    | inr far ↦ rw (more, far) (law n word)
  ]
]
