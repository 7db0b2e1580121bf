-- ===== src/Fast/Integer.antt =====
-- fast_decode_uint, fast_decode_int, fast_encode_uint and fast_encode_int of
-- lib/proto/fast_message.c. An i64 value is its 64-bit pattern.
pub mod Channel
pub mod Encoding
pub mod Decoding
pub mod Operators
pub mod RoundTrip
mod Tests
use libtrading.Base.{
  ℕ, ◌+◌, ◌-◌, ◌%◌, ◌^◌, Bool, true, false, ◌==◌, if◌then◌else◌, is_negative, add64, sub64,
}
use libtrading.Buffer.{Buffer}
use libtrading.Fast.Codec.{
  Parsed, ok, garbled, partial, parse_uint, parse_int, transfer_uint, transfer_int,
}
use libtrading.Fast.Pmap.{Pmap, Ret, pmap_is_set, pmap_set, next_bit, advance}
use libtrading.Fast.Field.{
  Op, none, copy, incr, delta, default, constant, State, undefined, assigned, empty, Field,
  is_mandatory, is_empty, Decoded, use_reset, use_previous, decode_constant, Exit, transfer,
  to_empty, stop, fail, Encoded, or_empty, encode_always, encode_expected, encode_default,
  encode_constant,
}

-- The value that a nullable u64 is sent for, and the one that a received u64 stands for.
abbrev pub lower_uint : Field ℕ → ℕ → Field ℕ
lower_uint f v =
    if is_mandatory f
    then record f { state = assigned; value = v }
    else if v == 0
    then record f { state = empty; value = v }
    else record f { state = assigned; value = sub64 v 1 }

-- The same for an i64: only positive values are moved.
abbrev pub lower_int : Field ℕ → ℕ → Field ℕ
lower_int f v =
    if is_mandatory f
    then record f { state = assigned; value = v }
    else if v == 0
    then record f { state = empty; value = v }
    else if is_negative v
    then record f { state = assigned; value = v }
    else record f { state = assigned; value = sub64 v 1 }

-- Behind `if (ret) goto fail`: the field that a parsed value makes.
abbrev pub store : (ℕ → Field ℕ) → Parsed ℕ × Buffer → Pmap → Field ℕ → Decoded ℕ
store make (ok v, b) p f = record { ret = ok tt; buffer = b; pmap = p; field = make v }
store make (garbled, b) p f = record { ret = garbled; buffer = b; pmap = p; field = f }
store make (partial, b) p f = record { ret = partial; buffer = b; pmap = p; field = f }

-- FAST_OP_DELTA of fast_decode_uint, on the difference received.
abbrev pub add_delta_uint : Field ℕ → ℕ → Field ℕ
add_delta_uint f tmp =
    let sum = if is_negative tmp then sub64 f.value (sub64 0 tmp) else add64 f.value tmp in
    if is_mandatory f
    then record f { state = assigned; value = sum }
    else if tmp == 0
    then record f { state = empty; value = sum }
    else if is_negative tmp
    then record f { state = assigned; value = sum }
    else record f { state = assigned; value = sub64 sum 1 }

abbrev pub add_delta_int : Field ℕ → ℕ → Field ℕ
add_delta_int f tmp =
    let sum = add64 f.value tmp in
    if is_mandatory f
    then record f { state = assigned; value = sum }
    else if tmp == 0
    then record f { state = empty; value = sum }
    else if is_negative tmp
    then record f { state = assigned; value = sum }
    else record f { state = assigned; value = sub64 sum 1 }

-- One operator's case of a decoder whose values are parsed by `parse` and stored by `lower`.
abbrev pub when_present :
    (Buffer → Parsed ℕ × Buffer)
    → (Field ℕ → ℕ → Field ℕ)
    → Decoded ℕ
    → Buffer
    → Pmap
    → Field ℕ
    → Decoded ℕ
when_present parse lower absent b p f =
    if pmap_is_set p (next_bit p) then store (lower f) (parse b) (advance p) f else absent

-- The `switch (field->op)` that both decoders write out.
abbrev pub decode_switch :
    (Buffer → Parsed ℕ × Buffer)
    → (Field ℕ → ℕ → Field ℕ)
    → (Field ℕ → ℕ → Field ℕ)
    → Buffer
    → Pmap
    → Field ℕ
    → Decoded ℕ
decode_switch parse lower add_delta b p f = elim f.op [
  | none ↦ store (lower f) (parse b) p f
  | copy ↦ when_present parse lower (use_previous f.reset f b (advance p) f) b p f
  | incr ↦
      when_present parse lower
        (use_previous f.reset (record f { value = add64 f.value 1 }) b (advance p) f) b p f
  | delta ↦ store (add_delta f) (parse_int b) p f
  | default ↦ when_present parse lower (use_reset f.reset b (advance p) f) b p f
  | constant ↦ decode_constant f.reset b p f
]

unfoldable pub fast_decode_uint : Buffer → Pmap → Field ℕ → Decoded ℕ
fast_decode_uint = decode_switch parse_uint lower_uint add_delta_uint

unfoldable pub fast_decode_int : Buffer → Pmap → Field ℕ → Decoded ℕ
fast_decode_int = decode_switch parse_int lower_int add_delta_int

-- `tmp` of an optional field: 0 is left for the empty value.
abbrev pub raise_uint : Field ℕ → ℕ → ℕ
raise_uint f x = if is_mandatory f then x else add64 x 1

-- `tmp >= 0 ? tmp + 1 : tmp`
abbrev pub raise_int : Field ℕ → ℕ → ℕ
raise_int f x = if is_mandatory f then x else if is_negative x then x else add64 x 1

-- The `switch (field->op)`, with the map that it leaves; `raise` makes `tmp` of the value, and
-- `raise_delta` of the difference.
abbrev pub encode_switch : (Field ℕ → ℕ → ℕ) → Pmap → Field ℕ → Pmap × Exit ℕ ℕ
encode_switch raise p f = elim f.op [
  | none ↦ (p, encode_always (raise f f.value) f)
  | copy ↦ (advance p, encode_expected (raise f f.value) (f.value == f.previous) f f)
  | incr ↦ (
    advance p,
    encode_expected (raise f f.value) (f.value == add64 f.previous 1)
        (record f { previous = add64 f.previous 1 }) f,
  )
  | delta ↦ (p, encode_always (raise_int f (sub64 f.value f.previous)) f)
  | default ↦ (advance p, encode_default (raise f f.value) f)
  | constant ↦ encode_constant p f
]

-- Behind the label `transfer`.
abbrev pub finish_transfer : Bool → Bool × Buffer → Pmap → Field ℕ → Encoded ℕ
finish_transfer pset (true, b) p f = record {
  success = true;
  buffer = b;
  pmap = if pset then pmap_set p p.pmap_bit else p;
  field = f;
}
finish_transfer pset (false, b) p f = record { success = false; buffer = b; pmap = p; field = f }

-- The labels `empty`, `transfer` and `fail`.
abbrev pub run_exit : (Buffer → ℕ → Bool × Buffer) → Buffer → Field ℕ → Pmap × Exit ℕ ℕ → Encoded ℕ
run_exit send b old (p, transfer pset tmp f) =
    finish_transfer pset (send b tmp) p (record f { previous = f.value; state_previous = f.state })
run_exit send b old (p, to_empty pset f) =
    finish_transfer pset (send b 0) p (record f { value = f.previous; state_previous = f.state })
run_exit send b old (p, stop f) = record { success = true; buffer = b; pmap = p; field = f }
run_exit send b old (p, fail) = record { success = false; buffer = b; pmap = p; field = old }

-- `if (field->op != FAST_OP_DELTA) transfer_uint(…) else transfer_int(…)`
abbrev pub send_by : (Buffer → ℕ → Bool × Buffer) → Op → Buffer → ℕ → Bool × Buffer
send_by send none = send
send_by send copy = send
send_by send incr = send
send_by send delta = transfer_int
send_by send default = send
send_by send constant = send

abbrev pub encode_by :
    (Buffer → ℕ → Bool × Buffer) → (Field ℕ → ℕ → ℕ) → Buffer → Pmap → Field ℕ → Encoded ℕ
encode_by send raise b p f = run_exit (send_by send f.op) b f (encode_switch raise p f)

unfoldable pub fast_encode_uint : Buffer → Pmap → Field ℕ → Encoded ℕ
fast_encode_uint = encode_by transfer_uint raise_uint

unfoldable pub fast_encode_int : Buffer → Pmap → Field ℕ → Encoded ℕ
fast_encode_int = encode_by transfer_int raise_int
