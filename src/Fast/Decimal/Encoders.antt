-- ===== src/Fast/Decimal/Encoders.antt =====
-- fast_encode_decimal_atomic, fast_encode_decimal_individ and fast_encode_decimal of
-- lib/proto/fast_message.c.
use libtrading.Base.{ℕ, Bool, true, false, ◌&&◌, ◌==◌, if◌then◌else◌, is_negative, add64, sub64}
use libtrading.Buffer.{Buffer}
use libtrading.Fast.Codec.{transfer_int}
use libtrading.Fast.Pmap.{Pmap, pmap_set, advance}
use libtrading.Fast.Field.{
  none, copy, incr, delta, default, constant, assigned, Field, is_mandatory, is_empty, Exit,
  transfer, to_empty, stop, fail, Encoded, encode_always, encode_expected, encode_default,
  encode_constant,
}
use libtrading.Fast.Integer.{fast_encode_int}
use libtrading.Fast.Decimal.{Decimal, DecimalField}

-- `exp >= 0 ? exp + 1 : exp` of an optional field
abbrev raise_exp : Field Decimal → ℕ → ℕ
raise_exp f exp = if is_mandatory f then exp else if is_negative exp then exp else add64 exp 1

-- The variables `exp` and `mnt`, from the value or from its difference to the previous one.
abbrev of_value : Field Decimal → Decimal
of_value f = record { exp = raise_exp f f.value.exp; mnt = f.value.mnt }

abbrev of_delta : Field Decimal → Decimal
of_delta f = record {
  exp = raise_exp f (sub64 f.value.exp f.previous.exp);
  mnt = sub64 f.value.mnt f.previous.mnt;
}

-- FAST_OP_INCR breaks out of the switch, and nothing is sent.
abbrev decimal_switch : Pmap → Field Decimal → Pmap × Exit Decimal Decimal
decimal_switch p f = elim f.op [
  | none ↦ (p, encode_always (of_value f) f)
  | copy ↦ (
    advance p,
    encode_expected (of_value f) (f.value.exp == f.previous.exp && f.value.mnt == f.previous.mnt) f
        f,
  )
  | incr ↦ (p, stop f)
  | delta ↦ (p, encode_always (of_delta f) f)
  | default ↦ (advance p, encode_default (of_value f) f)
  | constant ↦ encode_constant p f
]

abbrev finish_decimal : Bool → Bool × Buffer → Pmap → Field Decimal → Encoded Decimal
finish_decimal pset (true, b) p f = record {
  success = true;
  buffer = b;
  pmap = if pset then pmap_set p p.pmap_bit else p;
  field = f;
}
finish_decimal pset (false, b) p f = record { success = false; buffer = b; pmap = p; field = f }

-- The mantissa goes behind the exponent, when that went out.
abbrev then_mantissa : ℕ → Bool × Buffer → Bool × Buffer
then_mantissa mnt (true, b) = transfer_int b mnt
then_mantissa mnt (false, b) = (false, b)

-- The labels: an empty decimal is an exponent of 0 alone, and leaves the previous value.
abbrev decimal_exit : Buffer → Field Decimal → Pmap × Exit Decimal Decimal → Encoded Decimal
decimal_exit b old (p, transfer pset tmp f) =
    finish_decimal pset (then_mantissa tmp.mnt (transfer_int b tmp.exp)) p
      (record f { previous = f.value; state_previous = f.state })
decimal_exit b old (p, to_empty pset f) =
    finish_decimal pset (transfer_int b 0) p (record f { state_previous = f.state })
decimal_exit b old (p, stop f) = record { success = true; buffer = b; pmap = p; field = f }
decimal_exit b old (p, fail) = record { success = false; buffer = b; pmap = p; field = old }

unfoldable pub fast_encode_decimal_atomic : Buffer → Pmap → Field Decimal → Encoded Decimal
fast_encode_decimal_atomic b p f = decimal_exit b f (decimal_switch p f)

pub record DecimalEncoded : Type 0 where
  pub success : Bool
  pub buffer : Buffer
  pub pmap : Pmap
  pub result : DecimalField

-- The values that the two fields are given before the first fast_encode_int.
abbrev prepared : DecimalField → DecimalField
prepared f =
    let state' = f.field.state in
    if is_empty state'
    then record f {
      exponent = record (f.exponent) { state = state' };
      mantissa = record (f.mantissa) { state = state' };
    }
    else record f {
      exponent = record (f.exponent) { state = state'; value = f.field.value.exp };
      mantissa = record (f.mantissa) { state = state'; value = f.field.value.mnt };
    }

abbrev second_half : Encoded ℕ → DecimalField → DecimalEncoded
second_half r g =
    let h : DecimalField = record g { field = record (g.field) { state = assigned } } in
    let m = fast_encode_int r.buffer r.pmap g.mantissa in
    if r.success
    then (if is_empty r.field.state
        then record { success = true; buffer = r.buffer; pmap = r.pmap; result = g }
        else record {
          success = m.success;
          buffer = m.buffer;
          pmap = m.pmap;
          result = record h { mantissa = m.field };
        })
    else record { success = false; buffer = r.buffer; pmap = r.pmap; result = g }

unfoldable pub fast_encode_decimal_individ : Buffer → Pmap → DecimalField → DecimalEncoded
fast_encode_decimal_individ b p f =
    let r = fast_encode_int b p (prepared f).exponent in
    second_half r (record (prepared f) { exponent = r.field })

unfoldable pub fast_encode_decimal : Buffer → Pmap → DecimalField → DecimalEncoded
fast_encode_decimal b p f =
    let r = fast_encode_decimal_atomic b p f.field in
    if f.individ then fast_encode_decimal_individ b p f else record {
      success = r.success;
      buffer = r.buffer;
      pmap = r.pmap;
      result = record f { field = r.field };
    }
