-- ===== src/Fix/Scan/Numbers.antt =====
-- fix_uatoi and fix_atoi64 of lib/proto/fix_message.c on the digits that lib/itoa.c prints.
use libtrading.Base.{
  inl, inr, ℕ, zero, suc, ◌+◌, ◌-◌, ◌*◌, ◌/◌, ◌%◌, ne→==, ◌^◌, ◌<◌, ◌≡◌, refl, sym, ap, ◌∙◌, true,
  false, List, [], ◌∷◌, ◌++◌, length, All, arith, ◌==◌,
}
use native.Mathlib.Nat.{
  mod-eq_of_lt, mod-lt, mod-mod, div-add-mod, mul_assoc, add-mul-mod_self_left,
}
use libtrading.Buffer.Contents.{window}
use libtrading.Itoa.{i64toa}
use libtrading.Itoa.Signed.{Shows, PrintsNumbers, i64_text, i64_text-Shows, i64toa-Leaves}
use libtrading.Itoa.Digits.{IsDigit, value_from}
use libtrading.Fix.Scan.{is_digit, atoi_loop, fix_uatoi, fix_atoi64}
use libtrading.Fix.Scan.Memory.{At}

is_digit-IsDigit : (c : ℕ) → IsDigit c → is_digit c ≡ true
is_digit-IsDigit c h = ground arith

-- The number that is read so far may be cut to `m` values.
step_mod : (m r d : ℕ) → (r * 10 + d) % m ≡ (r % m * 10 + d) % m
step_mod m r d =
    ap (λ (x : ℕ). x % m) (omega (arith, div-add-mod r m, mul_assoc m (r / m) 10))
    ∙ add-mul-mod_self_left (r % m * 10 + d) m (r / m * 10)

value_mod :
    (m : ℕ) (cs : List ℕ) (r s : ℕ) → r % m ≡ s % m → value_from r cs % m ≡ value_from s cs % m
value_mod m [] r s e = e
value_mod m (c ∷ cs) r s e = value_mod m cs (r * 10 + (c - b'0')) (s * 10 + (c - b'0')) (
    step_mod m r (c - b'0')
    ∙ ap (λ (x : ℕ). (x * 10 + (c - b'0')) % m) e
    ∙ sym (step_mod m s (c - b'0')))

pub atoi_loop-value :
    (w n : ℕ) (f : ℕ → ℕ) (p r c : ℕ) (ds : List ℕ)
    → At f p (ds ++ (c ∷ []))
    → All IsDigit ds
    → is_digit c ≡ false
    → length ds < n
    → r < 2 ^ w
    → atoi_loop w n f p r ≡ (value_from r ds % 2 ^ w, p + length ds)
unfolding atoi_loop
atoi_loop-value w zero f p r c ds h digits stop short small = absurd (omega arith)
atoi_loop-value w (suc n) f p r c [] h digits stop short small =
    let e : p + 0 ≡ p = omega arith in rw (h.0, stop, e, mod-eq_of_lt small) refl
atoi_loop-value w (suc n) f p r c (d ∷ ds) h digits stop short small =
    let next : p + 1 ≡ suc p = omega arith in
    let e : p + suc (length ds) ≡ suc p + length ds = omega arith in
    let m : ℕ = 2 ^ w in
    let cut : (r * 10 + (d - b'0')) % 2 ^ w < 2 ^ w = mod-lt _ (omega (arith, small)) in
    rw (h.0, is_digit-IsDigit d digits.0, next, e)
      (atoi_loop-value w n f (suc p) ((r * 10 + (d - b'0')) % 2 ^ w) c ds h.1 digits.1 stop
          (omega arith) cut
        ∙ ap (λ (x : ℕ). (x, suc p + length ds))
            (value_mod (2 ^ w) ds ((r * 10 + (d - b'0')) % 2 ^ w) (r * 10 + (d - b'0'))
              (mod-mod (r * 10 + (d - b'0')) (2 ^ w))))

-- fix_uatoi on digits and a character behind them that is none: it stops there, with the number.
pub fix_uatoi-value :
    (n : ℕ) (f : ℕ → ℕ) (p c : ℕ) (ds : List ℕ)
    → At f p (ds ++ (c ∷ []))
    → All IsDigit ds
    → is_digit c ≡ false
    → length ds < n
    → value_from 0 ds < 2 ^ 32
    → fix_uatoi n f p ≡ (value_from 0 ds, p + length ds)
unfolding fix_uatoi
fix_uatoi-value n f p c ds h digits stop short small =
    atoi_loop-value 32 n f p 0 c ds h digits stop short (omega arith)
    ∙ ap (λ (x : ℕ). (x, p + length ds)) (mod-eq_of_lt small)

abbrev pub negated : ℕ → ℕ
negated v = (2 ^ 64 - v) % 2 ^ 64

pub fix_atoi64-positive :
    (n : ℕ) (f : ℕ → ℕ) (p c d : ℕ) (ds : List ℕ)
    → At f p ((d ∷ ds) ++ (c ∷ []))
    → All IsDigit (d ∷ ds)
    → is_digit c ≡ false
    → length (d ∷ ds) < n
    → value_from 0 (d ∷ ds) < 2 ^ 64
    → (fix_atoi64 n f p).0 ≡ value_from 0 (d ∷ ds)
unfolding fix_atoi64
fix_atoi64-positive n f p c d ds h digits stop short small =
    let sign : (d == b'-') ≡ false = ne→== d b'-' (omega (arith, digits.0)) in
    rw (h.0, sign, atoi_loop-value 64 n f p 0 c (d ∷ ds) h digits stop short (omega arith))
      (mod-eq_of_lt small)

pub fix_atoi64-negative :
    (n : ℕ) (f : ℕ → ℕ) (p c : ℕ) (ds : List ℕ)
    → At f p (b'-' ∷ (ds ++ (c ∷ [])))
    → All IsDigit ds
    → is_digit c ≡ false
    → length ds < n
    → value_from 0 ds < 2 ^ 64
    → (fix_atoi64 n f p).0 ≡ negated (value_from 0 ds)
unfolding fix_atoi64
fix_atoi64-negative n f p c ds h digits stop short small =
    let next : p + 1 ≡ suc p = omega arith in
    rw (h.0, next, atoi_loop-value 64 n f (suc p) 0 c ds h.1 digits stop short (omega arith))
      (ap negated (mod-eq_of_lt small))

pub fix_atoi64-Shows :
    (n : ℕ) (f : ℕ → ℕ) (p c x : ℕ) (cs : List ℕ)
    → Shows cs x
    → x < 2 ^ 64
    → At f p (cs ++ (c ∷ []))
    → is_digit c ≡ false
    → length cs < n
    → (fix_atoi64 n f p).0 ≡ x
fix_atoi64-Shows n f p c x [] (inl (small, num)) word h stop short =
    absurd (omega (arith, num.some_digit))
fix_atoi64-Shows n f p c x (d ∷ ds) (inl (small, num)) word h stop short =
    fix_atoi64-positive n f p c d ds h num.digits stop short (omega (arith, num.value)) ∙ num.value
fix_atoi64-Shows n f p c x cs (inr (big, (ds, e, num))) word h stop short =
    fix_atoi64-negative n f p c ds (rw e at h) num.digits stop (omega (arith, ap length e))
      (omega (arith, num.value))
    ∙ ap negated num.value
    ∙ twice
  where
    twice : negated (2 ^ 64 - x) ≡ x
    twice = omega arith

-- fix_atoi64 on the text of an int64_t, and a character behind it that is no digit, is the number: with
-- i64toa and a sprintf that prints numbers in decimal, what is printed is read back.
pub fix_atoi64-i64toa :
    (sprintf : ℕ → List ℕ) (x c n s : ℕ) (m f : ℕ → ℕ) (p : ℕ)
    → PrintsNumbers sprintf
    → All (λ d. d < 256) (sprintf x)
    → x < 2 ^ 64
    → is_digit c ≡ false
    → (i64toa sprintf x m s).0 < n
    → At f p (window (i64toa sprintf x m s).1 s (i64toa sprintf x m s).0 ++ (c ∷ []))
    → (fix_atoi64 n f p).0 ≡ x
fix_atoi64-i64toa sprintf x c n s m f p law chars word stop short h =
    let l = i64toa-Leaves sprintf x m s word chars in
    let e : window (i64toa sprintf x m s).1 s (i64toa sprintf x m s).0 ≡ i64_text sprintf x =
      ap (window (i64toa sprintf x m s).1 s) l.count ∙ l.text in
    fix_atoi64-Shows n f p c x (i64_text sprintf x) (i64_text-Shows sprintf x law word) word
      (rw e at h) stop (omega (arith, l.count))
