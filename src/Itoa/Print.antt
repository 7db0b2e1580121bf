-- ===== src/Itoa/Print.antt =====
-- What uitoa, uitoa_general and checksumtoa leave in memory.
use libtrading.Base.{
  ℕ, zero, suc, ◌+◌, ◌-◌, ◌*◌, ◌/◌, ◌%◌, ◌^◌, ◌≤◌, ◌<◌, ◌≡◌, refl, sym, ap, ◌∙◌, List, [], ◌∷◌,
  ◌++◌, length, length-append, arith, Bool-cases, inl, inr, ltb, ltb→lt, ltb→le, lt→ltb, le→ltb,
}
use mathlib.Core.Path.{subst}
use native.Mathlib.Nat.{pow-suc}
use libtrading.Buffer.{write_at}
use libtrading.Buffer.Contents.{window, window-add, window_cong}
use libtrading.Itoa.{
  Memory, tab, last_digits, general_loop, uilog_10, uitoa_general, uitoa, checksumtoa,
}
use libtrading.Itoa.Digits.{
  dig, decimal, tab_lem, length-dig, uilog_10_step, uilog_one, uilog_two, dig_step,
}

-- `m'` is `m` with the characters `ds` at `s`.
pub record Prints (m : Memory) (s : ℕ) (ds : List ℕ) (m' : Memory) : Type 0 where
  pub text : window m' s (length ds) ≡ ds
  pub below : (i : ℕ) → i < s → m' i ≡ m i
  pub above : (i : ℕ) → s + length ds ≤ i → m' i ≡ m i

-- One digit, and two.
pub Prints-one : (m : Memory) (s c : ℕ) → c < 256 → Prints m s (c ∷ []) (write_at m s c)
Prints-one m s c byte = record {
  text = ap (λ (x : ℕ). x ∷ []) (ground arith);
  below = λ i h. ground arith;
  above = λ i h. ground arith;
}

Prints-two :
    (m m' : Memory) (s c d : ℕ)
    → c < 256
    → d < 256
    → m' s ≡ c
    → m' (suc s) ≡ d
    → ((i : ℕ) → i < s → m' i ≡ m i)
    → ((i : ℕ) → s + 2 ≤ i → m' i ≡ m i)
    → Prints m s (c ∷ d ∷ []) m'
Prints-two m m' s c d p q first second below above = record {
  text = rw (first, second) (ap₂' (omega arith) (omega arith));
  below = below;
  above = above;
}
  where
    ap₂' : {a b x y : ℕ} → a ≡ x → b ≡ y → (a ∷ b ∷ []) ≡ x ∷ y ∷ []
    ap₂' e f = cc

-- Characters in front of others that are there already.
pub Prints-append :
    (m m₁ m₂ : Memory) (s : ℕ) (ds es : List ℕ)
    → Prints m₁ s ds m₂
    → Prints m (s + length ds) es m₁
    → Prints m s (ds ++ es) m₂
Prints-append m m₁ m₂ s ds es f g = record {
  text =
      ap (window m₂ s) (length-append ds es)
      ∙ window-add m₂ s (length ds) (length es)
      ∙ ap (λ (xs : List ℕ). xs ++ window m₂ (s + length ds) (length es)) f.text
      ∙ ap (λ (xs : List ℕ). ds ++ xs)
          (window_cong m₂ m₁ (s + length ds) (length es) (λ i p q. f.above i p) ∙ g.text);
  below = λ i h. f.below i h ∙ g.below i (omega arith);
  above = λ i h.
      f.above i (omega (arith, length-append ds es))
      ∙ g.above i (omega (arith, length-append ds es));
}

-- Characters behind others that are there already.
pub Prints-then :
    (m m₁ m₂ : Memory) (s : ℕ) (ds es : List ℕ)
    → Prints m s ds m₁
    → Prints m₁ (s + length ds) es m₂
    → Prints m s (ds ++ es) m₂
Prints-then m m₁ m₂ s ds es f g = record {
  text =
      ap (window m₂ s) (length-append ds es)
      ∙ window-add m₂ s (length ds) (length es)
      ∙ ap (λ (xs : List ℕ). xs ++ window m₂ (s + length ds) (length es))
          (window_cong m₂ m₁ s (length ds) (λ i p q. g.below i q) ∙ f.text)
      ∙ ap (λ (xs : List ℕ). ds ++ xs) g.text;
  below = λ i h. g.below i (omega arith) ∙ f.below i h;
  above = λ i h.
      g.above i (omega (arith, length-append ds es))
      ∙ f.above i (omega (arith, length-append ds es));
}

-- The two digits of `n % 100` at `p - 2` and `p - 1`.
tab-byte : (n : ℕ) → n < 100 → (tab (2 * n) < 256) × (tab (2 * n + 1) < 256)
tab-byte n h = (omega (arith, tab_lem n h), omega (arith, tab_lem n h))

Prints-pair :
    (m : Memory) (s n : ℕ)
    → n < 100
    → Prints m s
        ((b'0' + n / 10) ∷ (b'0' + n % 10) ∷ [])
        (write_at (write_at m s (tab (2 * n))) (suc s) (tab (2 * n + 1)))
Prints-pair m s n h =
    let (tens, ones) = tab_lem n h in
    Prints-two m _ s (b'0' + n / 10) (b'0' + n % 10) (omega arith) (omega arith)
      (ground (arith, tens)) (ground (arith, ones)) (λ i p. ground arith) (λ i p. ground arith)

last_digits-Prints :
    (n s : ℕ) (m : Memory) → n < 100 → Prints m s (decimal n) (last_digits n (s + uilog_10 n) m)
last_digits-Prints n s m h = elim (Bool-cases (ltb n 10)) [
  | inl one ↦
      let small = ltb→lt n 10 one in
      subst (λ (r : List ℕ × Memory). Prints m s r.0 r.1) (one_digit small)
        (Prints-one m s (b'0' + n % 10) (omega arith))
  | inr two ↦
      let big = ltb→le n 10 two in
      subst (λ (r : List ℕ × Memory). Prints m s r.0 r.1) (two_digits big)
        (Prints-two m _ s (b'0' + n / 10) (b'0' + n % 10) (omega arith) (omega arith)
          (ground (arith, (tab_lem n h).0)) (ground (arith, (tab_lem n h).1)) (λ i p. ground arith)
          (λ i p. ground arith))
]
  where
    one_digit :
        n < 10
        → ◌≡◌ {A = List ℕ × Memory}
            ((b'0' + n % 10) ∷ [], write_at m s (b'0' + n % 10))
            (decimal n, last_digits n (s + uilog_10 n) m)
    one_digit small =
        let src : (n + 1) * 2 - 1 ≡ 2 * n + 1 = omega arith in
        let at' : s + 1 - 1 ≡ s = omega arith in
        rw (uilog_one n small, lt→ltb n 10 small, src, at', (tab_lem n h).1) refl

    two_digits :
        10 ≤ n
        → ◌≡◌ {A = List ℕ × Memory}
            (
              (b'0' + n / 10) ∷ (b'0' + n % 10) ∷ [],
              write_at (write_at m (suc s) (tab (2 * n + 1))) s (tab (2 * n)),
            )
            (decimal n, last_digits n (s + uilog_10 n) m)
    two_digits big =
        let src : (n + 1) * 2 - 1 ≡ 2 * n + 1 = omega arith in
        let src' : 2 * n + 1 - 1 ≡ 2 * n = omega arith in
        let at' : s + 2 - 1 ≡ suc s = omega arith in
        let at'' : s + 2 - 2 ≡ s = omega arith in
        let tens : n / 10 % 10 ≡ n / 10 = omega arith in
        rw (uilog_two n big h, le→ltb n 10 big, src, src', at', at'', tens) refl

pub general_loop-Prints :
    (rounds n s : ℕ) (m : Memory)
    → n < 100 ^ suc rounds
    → n < 2 ^ 32
    → Prints m s (decimal n) (general_loop rounds n (s + uilog_10 n) m)
unfolding general_loop
general_loop-Prints zero n s m fits word = last_digits-Prints n s m (omega arith)
general_loop-Prints (suc rounds) n s m fits word = elim (Bool-cases (ltb n 100)) [
  | inl small ↦ rw small (last_digits-Prints n s m (ltb→lt n 100 small))
  | inr big ↦ rw big (
      step (ltb→le n 100 big) (λ m'.
        general_loop-Prints rounds (n / 100) s m' (omega (arith, pow-suc 100 (suc rounds)))
          (omega arith)))
]
  where
    step :
        100 ≤ n
        → ((m' : Memory)
            → Prints m' s
                (decimal (n / 100))
                (general_loop rounds (n / 100) (s + uilog_10 (n / 100)) m'))
        → Prints m s (decimal n) (
            general_loop rounds (n / 100) (s + uilog_10 n - 2) (
              write_at
                (write_at m (s + uilog_10 n - 2) (tab (2 * (n % 100))))
                (s + uilog_10 n - 1)
                (tab (2 * (n % 100) + 1))))
    step big upper =
        let j : ℕ = uilog_10 (n / 100) in
        let log : uilog_10 n ≡ suc (suc j) = uilog_10_step n big word in
        let p2 : s + suc (suc j) - 2 ≡ s + j = omega arith in
        let p1 : s + suc (suc j) - 1 ≡ suc (s + j) = omega arith in
        let tens : n % 100 / 10 ≡ n / 10 % 10 = omega arith in
        let ones : n % 100 % 10 ≡ n % 10 = omega arith in
        let len : length (dig j (n / 100)) ≡ j = length-dig j (n / 100) in
        rw (log, p2, p1, dig_step j n, ← tens, ← ones)
          (Prints-append m _ _ s (dig j (n / 100)) _ (upper _)
            (rw len (Prints-pair m (s + j) (n % 100) (omega arith))))

-- A function that prints `ds`: it counts them and leaves them in memory.
pub record PrintsAll (m : Memory) (s : ℕ) (ds : List ℕ) (r : ℕ × Memory) : Type 0 where
  pub count : r.0 ≡ length ds
  pub written : Prints m s ds r.1

pub uitoa_general-PrintsAll :
    (n : ℕ) (m : Memory) (s : ℕ) → n < 2 ^ 32 → PrintsAll m s (decimal n) (uitoa_general n m s)
unfolding uitoa_general
uitoa_general-PrintsAll n m s word = record {
  count = sym (length-dig (uilog_10 n) n);
  written = general_loop-Prints 4 n s m (omega arith) word;
}

-- uitoa leaves the decimal digits of every unsigned int at the address that it is given, returns their count,
-- and changes nothing before and behind them.
pub uitoa-PrintsAll :
    (n : ℕ) (m : Memory) (s : ℕ) → n < 2 ^ 32 → PrintsAll m s (decimal n) (uitoa n m s)
unfolding uitoa
uitoa-PrintsAll n m s word = elim (Bool-cases (ltb n 10)) [
  | inl one ↦
      let small = ltb→lt n 10 one in
      rw (one, uilog_one n small)
        (record {
          count = refl;
          written = rw (tab_lem n (omega arith)).1 (Prints-one m s (b'0' + n % 10) (omega arith));
        })
  | inr more ↦ elim (Bool-cases (ltb n 100)) [
    | inl two ↦
        let small = ltb→lt n 100 two in
        let tens : n / 10 % 10 ≡ n / 10 = omega arith in
        let next : s + 1 ≡ suc s = omega arith in
        rw (more, two, uilog_two n (ltb→le n 10 more) small, tens, next)
          (record { count = refl; written = Prints-pair m s n small })
    | inr many ↦ rw (more, many) (uitoa_general-PrintsAll n m s word)
  ]
]

-- checksumtoa leaves the three digits of every number below 256 at the address that it is given, returns 3,
-- and changes nothing before and behind them.
pub checksumtoa-PrintsAll :
    (n : ℕ) (m : Memory) (s : ℕ) → n < 256 → PrintsAll m s (dig 3 n) (checksumtoa n m s)
unfolding checksumtoa
checksumtoa-PrintsAll n m s byte = elim (Bool-cases (ltb n 100)) [
  | inl two ↦
      let small = ltb→lt n 100 two in
      let hundreds : n / 10 / 10 % 10 ≡ 0 = omega arith in
      let tens : n / 10 % 10 ≡ n / 10 = omega arith in
      let next : s + 2 ≡ suc (s + 1) = omega arith in
      rw (two, hundreds, tens, next)
        (record {
          count = refl;
          written =
              Prints-then m _ _ s (b'0' ∷ []) ((b'0' + n / 10) ∷ (b'0' + n % 10) ∷ [])
                (Prints-one m s b'0' (omega arith))
                (Prints-pair (write_at m s b'0') (s + 1) n small);
        })
  | inr three ↦
      let log : uilog_10 n ≡ 3 = unfold uilog_10 in ground (arith, ltb→le n 100 three) in
      rw three (rw log at (uitoa_general-PrintsAll n m s (omega arith)))
]
