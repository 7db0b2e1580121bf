-- ===== src/Fast/Decimal.antt =====
-- The decimals of lib/proto/fast_message.c: fast_decode_decimal_atomic, fast_decode_decimal_individ,
-- fast_encode_decimal_atomic, fast_encode_decimal_individ and their dispatchers.
pub mod Encoders
pub mod Bounds
pub mod Individ
mod Tests
use libtrading.Base.{
  ℕ, ◌+◌, ◌-◌, ◌%◌, ◌^◌, Bool, true, false, not, ◌&&◌, ltb, ◌==◌, if◌then◌else◌, is_negative, add64,
  sub64,
}
use libtrading.Buffer.{Buffer}
use libtrading.Fast.Codec.{Parsed, ok, garbled, partial, parse_int, transfer_int}
use libtrading.Fast.Pmap.{Pmap, pmap_is_set, pmap_set, next_bit, advance}
use libtrading.Fast.Field.{
  none, copy, incr, delta, default, constant, State, undefined, assigned, empty, Field,
  is_mandatory, is_empty, Decoded, use_reset, use_previous, decode_constant, Exit, transfer,
  to_empty, stop, fail, Encoded, encode_always, encode_expected, encode_default, encode_constant,
}
use libtrading.Fast.Integer.{fast_decode_int, fast_encode_int}

-- `exp` and `mnt` of `struct fast_decimal`, as 64-bit patterns.
pub record Decimal : Type 0 where
  pub exp : ℕ
  pub mnt : ℕ

-- `exp > 63 || exp < -63`
unfoldable pub out_of_scale : ℕ → Bool
out_of_scale exp = if is_negative exp then ltb exp (2 ^ 64 - 63) else ltb 63 exp

-- The mantissa, behind a good exponent: `make` is the decimal that both make.
abbrev pub store_mantissa :
    (ℕ → Decimal) → Parsed ℕ × Buffer → Pmap → Field Decimal → Decoded Decimal
store_mantissa make (ok mnt, b) p f = record {
  ret = ok tt;
  buffer = b;
  pmap = p;
  field = record f { value = make mnt };
}
store_mantissa make (garbled, b) p f = record { ret = garbled; buffer = b; pmap = p; field = f }
store_mantissa make (partial, b) p f = record { ret = partial; buffer = b; pmap = p; field = f }

-- The exponent `exp` as it is to be used; `sum exp` is what the range check looks at.
abbrev pub take_exponent :
    (ℕ → ℕ) → (ℕ → ℕ → Decimal) → ℕ → Buffer → Pmap → Field Decimal → Decoded Decimal
take_exponent sum make exp b p f =
    if out_of_scale (sum exp)
    then record { ret = garbled; buffer = b; pmap = p; field = f }
    else store_mantissa (make exp) (parse_int b) p f

abbrev pub store_exponent :
    (ℕ → ℕ) → (ℕ → ℕ → Decimal) → Parsed ℕ × Buffer → Pmap → Field Decimal → Decoded Decimal
store_exponent sum make (ok exp, b) p f =
    let g : Field Decimal = record f { state = assigned } in
    if is_mandatory f
    then take_exponent sum make exp b p g
    else if exp == 0
    then record { ret = ok tt; buffer = b; pmap = p; field = record f { state = empty } }
    else take_exponent sum make (if is_negative exp then exp else sub64 exp 1) b p g
store_exponent sum make (garbled, b) p f = record { ret = garbled; buffer = b; pmap = p; field = f }
store_exponent sum make (partial, b) p f = record { ret = partial; buffer = b; pmap = p; field = f }

abbrev pub plain : ℕ → ℕ → Decimal
plain exp mnt = record { exp = exp; mnt = mnt }

abbrev pub plus : Decimal → ℕ → ℕ → Decimal
plus v exp mnt = record { exp = add64 v.exp exp; mnt = add64 v.mnt mnt }

unfoldable pub fast_decode_decimal_atomic : Buffer → Pmap → Field Decimal → Decoded Decimal
fast_decode_decimal_atomic b p f =
    let q = advance p in
    elim f.op [
      | none ↦ store_exponent (λ exp. exp) plain (parse_int b) p f
      | copy ↦
          if pmap_is_set p (next_bit p)
          then store_exponent (λ exp. exp) plain (parse_int b) q f
          else use_previous f.reset f b q f
      | incr ↦ record { ret = garbled; buffer = b; pmap = p; field = f }
      | delta ↦ store_exponent (add64 f.value.exp) (plus f.value) (parse_int b) p f
      | default ↦
          if pmap_is_set p (next_bit p)
          then store_exponent (λ exp. exp) plain (parse_int b) q f
          else use_reset f.reset b q f
      | constant ↦ decode_constant f.reset b p f
    ]

-- A decimal field with the two fields behind `decimal_value.fields`; `individ` is
-- FAST_FIELD_FLAGS_DECIMAL_INDIVID.
pub record DecimalField : Type 0 where
  pub field : Field Decimal
  pub exponent : Field ℕ
  pub mantissa : Field ℕ
  pub individ : Bool

pub record DecimalDecoded : Type 0 where
  pub ret : Parsed (Unit {0})
  pub buffer : Buffer
  pub pmap : Pmap
  pub result : DecimalField

-- Behind the second fast_decode_int.
abbrev pub join_mantissa : Decoded ℕ → DecimalField → DecimalDecoded
join_mantissa r f = elim r.ret [
  | ok _ ↦ record {
    ret = ok tt;
    buffer = r.buffer;
    pmap = r.pmap;
    result = record f {
      mantissa = r.field;
      field = record (f.field) { state = assigned; value = plain f.exponent.value r.field.value };
    };
  }
  | garbled ↦ record {
    ret = garbled;
    buffer = r.buffer;
    pmap = r.pmap;
    result = record f { mantissa = r.field };
  }
  | partial ↦ record {
    ret = partial;
    buffer = r.buffer;
    pmap = r.pmap;
    result = record f { mantissa = r.field };
  }
]

-- Behind the first fast_decode_int.
abbrev pub join_exponent : Decoded ℕ → DecimalField → DecimalDecoded
join_exponent r f =
    let g : DecimalField = record f { exponent = r.field } in
    elim r.ret [
      | ok _ ↦
          if is_empty r.field.state
          then record {
            ret = if is_mandatory f.field then garbled else ok tt;
            buffer = r.buffer;
            pmap = r.pmap;
            result = record g { field = record (f.field) { state = empty } };
          }
          else if out_of_scale r.field.value
          then record { ret = garbled; buffer = r.buffer; pmap = r.pmap; result = g }
          else join_mantissa (fast_decode_int r.buffer r.pmap f.mantissa) g
      | garbled ↦ record { ret = garbled; buffer = r.buffer; pmap = r.pmap; result = g }
      | partial ↦ record { ret = partial; buffer = r.buffer; pmap = r.pmap; result = g }
    ]

unfoldable pub fast_decode_decimal_individ : Buffer → Pmap → DecimalField → DecimalDecoded
fast_decode_decimal_individ b p f = join_exponent (fast_decode_int b p f.exponent) f

unfoldable pub fast_decode_decimal : Buffer → Pmap → DecimalField → DecimalDecoded
fast_decode_decimal b p f =
    let r = fast_decode_decimal_atomic b p f.field in
    if f.individ then fast_decode_decimal_individ b p f else record {
      ret = r.ret;
      buffer = r.buffer;
      pmap = r.pmap;
      result = record f { field = r.field };
    }
