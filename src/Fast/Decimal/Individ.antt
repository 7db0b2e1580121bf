-- ===== src/Fast/Decimal/Individ.antt =====
-- The range of exponents that fast_decode_decimal_individ accepts.
use libtrading.Base.{ℕ, ◌≡◌, ◌⊎◌, false, arith}
use libtrading.Buffer.{Buffer}
use libtrading.Fast.Codec.{ok}
use libtrading.Fast.Pmap.{Pmap}
use libtrading.Fast.Field.{Decoded, assigned, empty}
use libtrading.Fast.Integer.{fast_decode_int}
use libtrading.Fast.Decimal.{
  DecimalField, DecimalDecoded, out_of_scale, join_exponent, join_mantissa,
  fast_decode_decimal_individ,
}
use libtrading.Fast.Decimal.Bounds.{InScale, out_of_scale→}

-- An accepted decimal: empty, or a value with an exponent in scale, made of the two fields.
abbrev pub Accepted : DecimalDecoded → Type 0
Accepted d =
    (d.result.field.state ≡ empty)
    ⊎ ((d.result.field.state ≡ assigned)
        × InScale d.result.field.value.exp
        × (d.result.field.value.exp ≡ d.result.exponent.value)
        × (d.result.field.value.mnt ≡ d.result.mantissa.value))

join_mantissa-Accepted :
    (r : Decoded ℕ) (f : DecimalField)
    → out_of_scale f.exponent.value ≡ false
    → (join_mantissa r f).ret ≡ ok tt
    → Accepted (join_mantissa r f)
join_mantissa-Accepted r f good e = ground (arith, out_of_scale→ f.exponent.value good)

join_exponent-Accepted :
    (r : Decoded ℕ) (f : DecimalField)
    → (join_exponent r f).ret ≡ ok tt
    → Accepted (join_exponent r f)
join_exponent-Accepted r f e = ground (
  arith,
  join_mantissa-Accepted (fast_decode_int r.buffer r.pmap f.mantissa)
      (record f { exponent = r.field }),
)

-- When fast_decode_decimal_individ returns 0, the field is empty, or it is assigned the values of its
-- exponent field and its mantissa field, and the exponent is between -63 and 63.
pub fast_decode_decimal_individ-Accepted :
    (b : Buffer) (p : Pmap) (f : DecimalField)
    → (fast_decode_decimal_individ b p f).ret ≡ ok tt
    → Accepted (fast_decode_decimal_individ b p f)
unfolding fast_decode_decimal_individ
fast_decode_decimal_individ-Accepted b p f e =
    join_exponent-Accepted (fast_decode_int b p f.exponent) f e
