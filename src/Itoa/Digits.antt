-- ===== src/Itoa/Digits.antt =====
-- Decimal digits, the reference that lib/itoa.c is compared with.
use libtrading.Base.{
  &&→, ℕ, zero, suc, ◌+◌, ◌-◌, ◌*◌, ◌/◌, ◌%◌, ◌^◌, ◌≤◌, ◌<◌, ◌≡◌, refl, ◌&&◌, true, List, [], ◌∷◌,
  ◌++◌, append_assoc, length, length-append, All, arith, all_below, all_below→, ◌==◌, ==_iff, ap,
  ◌∙◌,
}
use native.Mathlib.Nat.{pow-suc}
use libtrading.Itoa.{tab, uilog_10}

-- The last `k` decimal digits of `n`, highest first.
abbrev pub dig : ℕ → ℕ → List ℕ
dig zero n = []
dig (suc k) n = dig k (n / 10) ++ ((b'0' + n % 10) ∷ [])

-- `n` in decimal.
abbrev pub decimal : ℕ → List ℕ
decimal n = dig (uilog_10 n) n

abbrev pub IsDigit : ℕ → Type 0
IsDigit c = (b'0' ≤ c) × (c ≤ b'9')

-- The number that digits stand for, behind `r`.
abbrev pub value_from : ℕ → List ℕ → ℕ
value_from r [] = r
value_from r (c ∷ cs) = value_from (r * 10 + (c - b'0')) cs

tab_table :
    all_below 100 (λ n. tab (2 * n) == b'0' + n / 10 && tab (2 * n + 1) == b'0' + n % 10) ≡ true
unfolding all_below
tab_table = refl

-- The table holds the two digits of each number below 100.
pub tab_lem : (n : ℕ) → n < 100 → (tab (2 * n) ≡ b'0' + n / 10) × (tab (2 * n + 1) ≡ b'0' + n % 10)
tab_lem n h =
    let (tens, ones) =
      &&→ (tab (2 * n) == b'0' + n / 10) (tab (2 * n + 1) == b'0' + n % 10)
        (all_below→ 100 _ tab_table n h) in
    ((==_iff _ _).0 tens, (==_iff _ _).0 ones)

pub length-dig : (k n : ℕ) → length (dig k n) ≡ k
length-dig zero n = refl
length-dig (suc k) n =
    omega (arith, length-append (dig k (n / 10)) ((b'0' + n % 10) ∷ []), length-dig k (n / 10))

pub All-append {κ} : (P : ℕ → Type κ) (xs ys : List ℕ) → All P xs → All P ys → All P (xs ++ ys)
All-append P [] ys h k = k
All-append P (x ∷ xs) ys h k = (h.0, All-append P xs ys h.1 k)

pub dig-IsDigit : (k n : ℕ) → All IsDigit (dig k n)
dig-IsDigit zero n = tt
dig-IsDigit (suc k) n =
    All-append IsDigit (dig k (n / 10)) ((b'0' + n % 10) ∷ []) (dig-IsDigit k (n / 10))
      ((omega arith, omega arith), tt)

pub value_from-append :
    (xs ys : List ℕ) (r : ℕ) → value_from r (xs ++ ys) ≡ value_from (value_from r xs) ys
value_from-append [] ys r = refl
value_from-append (x ∷ xs) ys r = value_from-append xs ys (r * 10 + (x - b'0'))

pub value_from-dig : (k n : ℕ) → n < 10 ^ k → value_from 0 (dig k n) ≡ n
value_from-dig zero n h = omega arith
value_from-dig (suc k) n h =
    value_from-append (dig k (n / 10)) ((b'0' + n % 10) ∷ []) 0
    ∙ ap (λ (r : ℕ). r * 10 + (b'0' + n % 10 - b'0'))
        (value_from-dig k (n / 10) (omega (arith, pow-suc 10 k)))
    ∙ omega arith

pub uilog_10_lem :
    (n : ℕ) → n < 2 ^ 32 → (n < 10 ^ uilog_10 n) × (uilog_10 n ≤ 10) × (0 < uilog_10 n)
unfolding uilog_10
uilog_10_lem n h = ground arith

-- The digits of a number have its value, and the first is not 0 unless it is the only one.
pub value_from-decimal : (n : ℕ) → n < 2 ^ 32 → value_from 0 (decimal n) ≡ n
value_from-decimal n h = value_from-dig (uilog_10 n) n (uilog_10_lem n h).0

pub uilog_10_step : (n : ℕ) → 100 ≤ n → n < 2 ^ 32 → uilog_10 n ≡ suc (suc (uilog_10 (n / 100)))
unfolding uilog_10
uilog_10_step n h k = ground arith

pub uilog_one : (n : ℕ) → n < 10 → uilog_10 n ≡ 1
unfolding uilog_10
uilog_one n h = ground arith

pub uilog_two : (n : ℕ) → 10 ≤ n → n < 100 → uilog_10 n ≡ 2
unfolding uilog_10
uilog_two n h k = ground arith

pub dig_step :
    (j n : ℕ)
    → dig (suc (suc j)) n ≡ dig j (n / 100) ++ ((b'0' + n / 10 % 10) ∷ (b'0' + n % 10) ∷ [])
dig_step j n =
    append_assoc (dig j (n / 10 / 10)) ((b'0' + n / 10 % 10) ∷ []) ((b'0' + n % 10) ∷ [])
    ∙ ap (λ (q : ℕ). dig j q ++ ((b'0' + n / 10 % 10) ∷ (b'0' + n % 10) ∷ [])) (omega arith)
