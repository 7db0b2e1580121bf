-- ===== src/Fast/Decimal/Bounds.antt =====
-- The exponent that a decoded decimal has, and the exponents that are refused.
use libtrading.Base.{
  ℕ, ◌-◌, ◌≤◌, ◌^◌, ◌≡◌, refl, sym, ◌⊎◌, inl, inr, false, arith, is_negative, if◌then◌else◌, add64,
  sub64, Bool-cases, ◌==◌,
}
use mathlib.Core.Path.{subst}
use libtrading.Buffer.{Buffer}
use libtrading.Fast.Codec.{Parsed, ok, garbled, partial, parse_int}
use libtrading.Fast.Pmap.{Pmap, advance, pmap_is_set, next_bit}
use libtrading.Fast.Field.{
  Op, none, copy, incr, delta, default, constant, assigned, Field, Decoded, is_mandatory, use_reset,
  use_previous, decode_constant,
}
use libtrading.Fast.Decimal.{
  Decimal, out_of_scale, store_mantissa, take_exponent, store_exponent, plain, plus,
  fast_decode_decimal_atomic,
}

-- From -63 to 63.
abbrev pub InScale : ℕ → Type 0
InScale x = (x ≤ 63) ⊎ (2 ^ 64 - 63 ≤ x)

pub out_of_scale→ : (x : ℕ) → out_of_scale x ≡ false → InScale x
unfolding out_of_scale
out_of_scale→ x e = ground arith

-- A decimal field whose value and reset value are in scale.
pub record IsScaled (f : Field Decimal) : Type 0 where
  pub value : InScale f.value.exp
  pub reset : InScale f.reset.exp

module _ (sum : ℕ → ℕ) (make : ℕ → ℕ → Decimal) (checked : (e m : ℕ) → (make e m).exp ≡ sum e) where
  store_mantissa-IsScaled :
      (exp : ℕ) (r : Parsed ℕ × Buffer) (p : Pmap) (f : Field Decimal)
      → out_of_scale (sum exp) ≡ false
      → IsScaled f
      → IsScaled (store_mantissa (make exp) r p f).field
  store_mantissa-IsScaled exp (ok mnt, b) p f good s = record {
    value = rw (checked exp mnt) (out_of_scale→ (sum exp) good);
    reset = s.reset;
  }
  store_mantissa-IsScaled exp (garbled, b) p f good s = s
  store_mantissa-IsScaled exp (partial, b) p f good s = s

  take_exponent-IsScaled :
      (exp : ℕ) (b : Buffer) (p : Pmap) (f : Field Decimal)
      → IsScaled f
      → IsScaled (take_exponent sum make exp b p f).field
  take_exponent-IsScaled exp b p f s = elim (Bool-cases (out_of_scale (sum exp))) [
    | inl bad ↦ rw bad s
    | inr good ↦ rw good (store_mantissa-IsScaled exp (parse_int b) p f good s)
  ]

  store_exponent-IsScaled :
      (r : Parsed ℕ × Buffer) (p : Pmap) (f : Field Decimal)
      → IsScaled f
      → IsScaled (store_exponent sum make r p f).field
  store_exponent-IsScaled (garbled, b) p f s = s
  store_exponent-IsScaled (partial, b) p f s = s
  store_exponent-IsScaled (ok exp, b) p f s = elim (Bool-cases (is_mandatory f)) [
    | inl must ↦ rw must (take_exponent-IsScaled exp b p (record f { state = assigned }) kept)
    | inr may ↦ elim (Bool-cases (exp == 0)) [
      | inl null ↦ rw (may, null) (record { value = s.value; reset = s.reset })
      | inr some' ↦
          rw (may, some')
            (take_exponent-IsScaled (if is_negative exp then exp else sub64 exp 1) b p
              (record f { state = assigned }) kept)
    ]
  ]
    where
      kept : IsScaled (record f { state = assigned })
      kept = record { value = s.value; reset = s.reset }

-- The cases that read nothing take the value or the reset value.
use_reset-IsScaled :
    (b : Buffer) (p : Pmap) (f : Field Decimal)
    → IsScaled f
    → IsScaled (use_reset f.reset b p f).field
use_reset-IsScaled b p f s = ground (arith, s.value, s.reset)

use_previous-IsScaled :
    (b : Buffer) (p : Pmap) (f : Field Decimal)
    → IsScaled f
    → IsScaled (use_previous f.reset f b p f).field
use_previous-IsScaled b p f s = ground (arith, s.value, s.reset)

decode_constant-IsScaled :
    (b : Buffer) (p : Pmap) (f : Field Decimal)
    → IsScaled f
    → IsScaled (decode_constant f.reset b p f).field
decode_constant-IsScaled b p f s = ground (arith, s.value, s.reset)

-- Whatever its input, fast_decode_decimal_atomic keeps the exponent of a field's value between
-- -63 and 63, when it and the exponent of the reset value are there before: on every operator, and
-- also when it fails.
pub fast_decode_decimal_atomic-IsScaled :
    (b : Buffer) (p : Pmap) (f : Field Decimal)
    → IsScaled f
    → IsScaled (fast_decode_decimal_atomic b p f).field
unfolding fast_decode_decimal_atomic
fast_decode_decimal_atomic-IsScaled b p f s = by_op f.op refl
  where
    is :
        (r : Decoded Decimal)
        → fast_decode_decimal_atomic b p f ≡ r
        → IsScaled r.field
        → IsScaled (fast_decode_decimal_atomic b p f).field
    is r e h = subst (λ (t : Decoded Decimal). IsScaled t.field) (sym e) h

    read : (q : Pmap) → IsScaled (store_exponent (λ exp. exp) plain (parse_int b) q f).field
    read q = store_exponent-IsScaled (λ exp. exp) plain (λ e m. refl) (parse_int b) q f s

    by_op : (o : Op) → f.op ≡ o → IsScaled (fast_decode_decimal_atomic b p f).field
    by_op none e = is (store_exponent (λ exp. exp) plain (parse_int b) p f) (ground arith) (read p)
    by_op copy e = elim (Bool-cases (pmap_is_set p (next_bit p))) [
      | inl bit ↦
          is (store_exponent (λ exp. exp) plain (parse_int b) (advance p) f) (ground arith)
            (read (advance p))
      | inr bit ↦
          is (use_previous f.reset f b (advance p) f) (ground arith)
            (use_previous-IsScaled b (advance p) f s)
    ]
    by_op incr e = is (record { ret = garbled; buffer = b; pmap = p; field = f }) (ground arith) s
    by_op delta e =
        is (store_exponent (add64 f.value.exp) (plus f.value) (parse_int b) p f) (ground arith) (
          store_exponent-IsScaled (add64 f.value.exp) (plus f.value) (λ e m. refl) (parse_int b) p f
            s)
    by_op default e = elim (Bool-cases (pmap_is_set p (next_bit p))) [
      | inl bit ↦
          is (store_exponent (λ exp. exp) plain (parse_int b) (advance p) f) (ground arith)
            (read (advance p))
      | inr bit ↦
          is (use_reset f.reset b (advance p) f) (ground arith)
            (use_reset-IsScaled b (advance p) f s)
    ]
    by_op constant e =
        is (decode_constant f.reset b p f) (ground arith) (decode_constant-IsScaled b p f s)
