-- ===== src/Fast/Decimal/Tests.antt =====
-- The bound on exponents at a delta that would leave it.
use libtrading.Base.{ℕ, ◌≡◌, refl, true, false, [], ◌∷◌, replicate, inl, arith}
use libtrading.Buffer.{buffer_size, buffer_get_8, buffer_peek_8}
use libtrading.Fast.Samples.{wire_of}
use libtrading.Fast.Codec.{garbled, parse_int, parse_loop}
use libtrading.Fast.Pmap.{Pmap}
use libtrading.Fast.Field.{none, undefined, delta, mandatory, assigned, Field}
use libtrading.Fast.Decimal.{
  DecimalField, fast_decode_decimal_individ, Decimal, plain, out_of_scale,
  fast_decode_decimal_atomic,
}
use libtrading.Fast.Integer.{fast_decode_int}
use libtrading.Fast.Decimal.Individ.{Accepted, fast_decode_decimal_individ-Accepted}
use libtrading.Fast.Decimal.Bounds.{IsScaled, fast_decode_decimal_atomic-IsScaled}

abbrev clear_map : Pmap
clear_map = record { is_valid = true; pmap_bit = 0; nr_bytes = 8; bytes = replicate 8 0 }

-- A mandatory delta field at 5 * 10 ^ 60.
abbrev at_60 : Field Decimal
at_60 = record {
  presence = mandatory;
  op = delta;
  state = assigned;
  state_previous = assigned;
  has_reset = false;
  value = plain 60 5;
  reset = plain 0 0;
  previous = plain 60 5;
}

at_60-IsScaled : IsScaled at_60
at_60-IsScaled = record { value = inl (omega arith); reset = inl (omega arith) }

fast_decode_decimal_atomic-IsScaled_example :
    IsScaled (fast_decode_decimal_atomic (wire_of (0x84 ∷ 0x81 ∷ [])) clear_map at_60).field
fast_decode_decimal_atomic-IsScaled_example =
    fast_decode_decimal_atomic-IsScaled (wire_of (0x84 ∷ 0x81 ∷ [])) clear_map at_60 at_60-IsScaled

-- 60 + 4 is refused, 60 + 3 is not.
refused : (fast_decode_decimal_atomic (wire_of (0x84 ∷ 0x81 ∷ [])) clear_map at_60).ret ≡ garbled
unfolding fast_decode_decimal_atomic parse_int parse_loop buffer_size buffer_get_8 buffer_peek_8
    out_of_scale
refused = refl

taken :
    (fast_decode_decimal_atomic (wire_of (0x83 ∷ 0x81 ∷ [])) clear_map at_60).field.value
    ≡ plain 63 6
unfolding fast_decode_decimal_atomic parse_int parse_loop buffer_size buffer_get_8 buffer_peek_8
    out_of_scale
taken = refl

-- 0x82 0x85 is 5 * 10 ^ 2 by two mandatory fields without operator.
abbrev int_field : Field ℕ
int_field = record {
  presence = mandatory;
  op = none;
  state = undefined;
  state_previous = undefined;
  has_reset = false;
  value = 0;
  reset = 0;
  previous = 0;
}

abbrev two_fields : DecimalField
two_fields = record { field = at_60; exponent = int_field; mantissa = int_field; individ = true }

fast_decode_decimal_individ-Accepted_example :
    Accepted (fast_decode_decimal_individ (wire_of (0x82 ∷ 0x85 ∷ [])) clear_map two_fields)
unfolding fast_decode_decimal_individ fast_decode_int parse_int parse_loop buffer_size buffer_get_8
    buffer_peek_8 out_of_scale
fast_decode_decimal_individ-Accepted_example =
    fast_decode_decimal_individ-Accepted (wire_of (0x82 ∷ 0x85 ∷ [])) clear_map two_fields refl
