-- ===== src/Fast/Text.antt =====
-- The strings of lib/proto/fast_message.c: parse_string, parse_bytes, transfer_string,
-- fast_decode_unicode, fast_decode_ascii, fast_decode_string and fast_encode_string.
-- A `char` array is a function from offsets to bytes.
pub mod Arrays
pub mod Wire
mod Tests
use libtrading.Base.{
  c_string, int_of, ℕ, zero, suc, ◌+◌, ◌-◌, ◌*◌, ◌/◌, ◌%◌, ◌^◌, bit_and, Bool, true, false, not,
  ◌&&◌, List, [], ◌∷◌, length, ltb, leb, ◌==◌, if◌then◌else◌, is_negative, sub64,
}
use libtrading.Buffer.{
  Buffer, write_at, copy_in, buffer_size, buffer_get_8, buffer_put, buffer_remaining,
}
use libtrading.Buffer.Contents.{window}
use mathlib.Core.Option
use mathlib.Core.Option.{Option}
use libtrading.Fast.Codec.{Parsed, ok, garbled, partial, parse_uint, parse_int}
use libtrading.Fast.Pmap.{Pmap, Ret, pmap_is_set, pmap_set, next_bit, advance}
use libtrading.Fast.Field.{
  none, copy, incr, delta, default, constant, State, undefined, assigned, empty, Field,
  is_mandatory, is_empty, Decoded, use_reset, use_previous, decode_constant, Exit, transfer,
  to_empty, stop, fail, Encoded, encode_always, encode_expected, encode_default, encode_constant,
}

abbrev pub Chars : Type 0
Chars = ℕ → ℕ

abbrev pub fast_string_max_bytes : ℕ
fast_string_max_bytes = 256

-- The C string in an array of FAST_STRING_MAX_BYTES.
unfoldable pub text : Chars → List ℕ
text s = c_string (window s 0 fast_string_max_bytes)

abbrev pub strlen : Chars → ℕ
strlen s = length (text s)

-- `memcpy(dst, src, strlen(src) + 1)`
abbrev pub copy_text : Chars → Chars → Chars
copy_text dst src = copy_in dst 0 src 0 (strlen src + 1)

-- The loop of parse_string over the rounds that are left. The array is written as it goes, also
-- when the input then ends.
unfoldable pub parse_string_loop : ℕ → ℕ → Buffer → Chars → Parsed ℕ × Buffer × Chars
parse_string_loop zero len b value = (garbled, b, value)
parse_string_loop (suc rounds) len b value =
    let c = (buffer_get_8 b).0 in
    let b' = (buffer_get_8 b).1 in
    let more = parse_string_loop rounds (suc len) b' (write_at value len c) in
    if buffer_size b == 0
    then (partial, b, value)
    else if bit_and c 0x80 == 0
    then more
    else (ok (suc len), b', write_at (write_at value len (bit_and c 0x7f)) (suc len) 0)

unfoldable pub parse_string : Buffer → Chars → ℕ → Parsed ℕ × Buffer × Chars
unfolding parse_string_loop
parse_string b value size = parse_string_loop (size - 1) 0 b value

parse_bytes_loop : ℕ → ℕ → Buffer → Chars → Buffer × Chars
parse_bytes_loop zero i b value = (b, value)
parse_bytes_loop (suc n) i b value =
    parse_bytes_loop n (suc i) (buffer_get_8 b).1 (write_at value i (buffer_get_8 b).0)

unfoldable pub parse_bytes : Buffer → Chars → ℕ → Ret × Buffer × Chars
unfolding parse_bytes_loop
parse_bytes b value len =
    if ltb (buffer_size b) (int_of len)
    then (partial, b, value)
    else (let (b', value') = parse_bytes_loop (int_of len) 0 b value in (ok tt, b', value'))

-- Behind parse_string: a nullable string of one NUL byte is no string.
abbrev pub store_text : Parsed ℕ × Buffer × Chars → Pmap → Field Chars → Decoded Chars
store_text (ok len, b, value) p f =
    let null = len == 1 && value 0 == 0 in
    record {
      ret = ok tt;
      buffer = b;
      pmap = p;
      field = record f {
        state = if not (is_mandatory f) && null then empty else assigned;
        value = value;
      };
    }
store_text (garbled, b, value) p f = record {
  ret = garbled;
  buffer = b;
  pmap = p;
  field = record f { value = value };
}
store_text (partial, b, value) p f = record {
  ret = partial;
  buffer = b;
  pmap = p;
  field = record f { value = value };
}

-- Behind parse_bytes: eight NUL bytes end the string.
abbrev store_bytes : ℕ → Ret × Buffer × Chars → Pmap → Field Chars → Decoded Chars
store_bytes len (ok _, b, value) p f = record {
  ret = ok tt;
  buffer = b;
  pmap = p;
  field = record f { value = copy_in value len (λ _. 0) 0 8 };
}
store_bytes len (garbled, b, value) p f = record {
  ret = garbled;
  buffer = b;
  pmap = p;
  field = record f { value = value };
}
store_bytes len (partial, b, value) p f = record {
  ret = partial;
  buffer = b;
  pmap = p;
  field = record f { value = value };
}

-- A length and its bytes: the branches of fast_decode_unicode and fast_decode_vector that read.
abbrev pub read_bytes : Parsed ℕ × Buffer → Pmap → Field Chars → Decoded Chars
read_bytes (ok len, b) p f =
    let g : Field Chars = record f { state = assigned } in
    if is_mandatory f
    then store_bytes len (parse_bytes b f.value len) p g
    else if len == 0
    then record { ret = ok tt; buffer = b; pmap = p; field = record f { state = empty } }
    else store_bytes (len - 1) (parse_bytes b f.value (len - 1)) p g
read_bytes (garbled, b) p f = record { ret = garbled; buffer = b; pmap = p; field = f }
read_bytes (partial, b) p f = record { ret = partial; buffer = b; pmap = p; field = f }

abbrev pub refuse : Buffer → Pmap → Field Chars → Decoded Chars
refuse b p f = record { ret = garbled; buffer = b; pmap = p; field = f }

unfoldable pub fast_decode_unicode : Buffer → Pmap → Field Chars → Decoded Chars
fast_decode_unicode b p f =
    let loaded = copy_text f.value f.reset in
    let q = advance p in
    elim f.op [
      | none ↦ read_bytes (parse_uint b) p f
      | copy ↦
          if pmap_is_set p (next_bit p)
          then read_bytes (parse_uint b) q f
          else use_previous loaded f b q f
      | incr ↦ refuse b p f
      | delta ↦ refuse b p f
      | default ↦
          if pmap_is_set p (next_bit p)
          then read_bytes (parse_uint b) q f
          else use_reset loaded b q f
      | constant ↦ decode_constant loaded b p f
    ]

-- FAST_OP_DELTA of fast_decode_ascii behind the length: `cut` characters of the base go at its end,
-- or at its front where the length was negative.
abbrev cut_back : ℕ → Chars → Chars → Chars
cut_back cut base tail = copy_in base (strlen base - cut) tail 0 (strlen tail + 1)

abbrev cut_front : ℕ → Chars → Chars → Chars
cut_front cut base front =
    copy_in (copy_in base (strlen front) base cut (strlen base - cut + 1)) 0 front 0 (strlen front)

abbrev splice : ℕ → Chars → Chars → Parsed Chars
splice length' base change =
    if is_negative length'
    then (let cut = 2 ^ 64 - 1 - length' in
        if ltb (strlen base) cut
        then garbled
        else if ltb fast_string_max_bytes (strlen base + strlen change - cut + 1)
        then garbled
        else ok (cut_front cut base change))
    else (if ltb (strlen base) length'
        then garbled
        else if ltb fast_string_max_bytes (strlen base + strlen change - length' + 1)
        then garbled
        else ok (cut_back length' base change))

abbrev spliced : Parsed Chars → Buffer → Pmap → Field Chars → Decoded Chars
spliced (ok v) b p f = record { ret = ok tt; buffer = b; pmap = p; field = record f { value = v } }
spliced garbled b p f = record { ret = garbled; buffer = b; pmap = p; field = f }
spliced partial b p f = record { ret = partial; buffer = b; pmap = p; field = f }

abbrev read_change : ℕ → Parsed ℕ × Buffer × Chars → Pmap → Field Chars → Decoded Chars
read_change length' (ok _, b, change) p f = spliced (splice length' f.value change) b p f
read_change length' (garbled, b, change) p f = record {
  ret = garbled;
  buffer = b;
  pmap = p;
  field = f;
}
read_change length' (partial, b, change) p f = record {
  ret = partial;
  buffer = b;
  pmap = p;
  field = f;
}

-- `char delta[32]`, whose first bytes are indeterminate before parse_string writes them.
abbrev read_delta : Chars → Parsed ℕ × Buffer → Pmap → Field Chars → Decoded Chars
read_delta scratch (ok length', b) p f =
    let g : Field Chars = record f { state = assigned } in
    if is_mandatory f
    then read_change length' (parse_string b scratch 32) p g
    else if length' == 0
    then record { ret = ok tt; buffer = b; pmap = p; field = record f { state = empty } }
    else if is_negative length'
    then read_change length' (parse_string b scratch 32) p g
    else read_change (sub64 length' 1) (parse_string b scratch 32) p g
read_delta scratch (garbled, b) p f = record { ret = garbled; buffer = b; pmap = p; field = f }
read_delta scratch (partial, b) p f = record { ret = partial; buffer = b; pmap = p; field = f }

unfoldable pub fast_decode_ascii : Chars → Buffer → Pmap → Field Chars → Decoded Chars
fast_decode_ascii scratch b p f =
    let loaded = copy_text f.value f.reset in
    let q = advance p in
    elim f.op [
      | none ↦ store_text (parse_string b f.value fast_string_max_bytes) p f
      | copy ↦
          if pmap_is_set p (next_bit p)
          then store_text (parse_string b f.value fast_string_max_bytes) q f
          else use_previous loaded f b q f
      | incr ↦ refuse b p f
      | delta ↦ read_delta scratch (parse_int b) p f
      | default ↦
          if pmap_is_set p (next_bit p)
          then store_text (parse_string b f.value fast_string_max_bytes) q f
          else use_reset loaded b q f
      | constant ↦ decode_constant loaded b p f
    ]

-- `field_has_flags(field, FAST_FIELD_FLAGS_UNICODE)` is the first argument.
unfoldable pub fast_decode_string : Bool → Chars → Buffer → Pmap → Field Chars → Decoded Chars
fast_decode_string unicode scratch b p f =
    if unicode then fast_decode_unicode b p f else fast_decode_ascii scratch b p f

-- transfer_string on `tmp`, or on NULL. An empty string is sent as its NUL byte.
unfoldable pub put_text : List ℕ → Buffer → Buffer
put_text [] b = b
put_text (c ∷ cs) b = put_text cs (buffer_put b c)

unfoldable pub put_null : Buffer → Bool × Buffer
put_null b = if ltb (buffer_remaining b) 1 then (false, b) else (true, buffer_put b 0x80)

unfoldable pub transfer_string : Buffer → Option (List ℕ) → Bool × Buffer
unfolding put_null
transfer_string b Option.none = put_null b
transfer_string b (Option.some cs) =
    let size = if length cs == 0 then 1 else length cs in
    if ltb (buffer_remaining b) size
    then (false, b)
    else put_null (put_text (if length cs == 0 then 0 ∷ [] else cs) b)

-- The `switch (field->op)` of fast_encode_string. `strcmp` compares the strings in the arrays.
abbrev pub same_text : List ℕ → List ℕ → Bool
same_text [] [] = true
same_text [] (y ∷ ys) = false
same_text (x ∷ xs) [] = false
same_text (x ∷ xs) (y ∷ ys) = x == y && same_text xs ys

abbrev string_switch : Pmap → Field Chars → Pmap × Exit (List ℕ) Chars
string_switch p f =
    let tmp = text f.value in
    elim f.op [
      | none ↦ (p, encode_always tmp f)
      | copy ↦ (advance p, encode_expected tmp (same_text tmp (text f.previous)) f f)
      | incr ↦ (p, fail)
      | delta ↦ (p, fail)
      | default ↦ (advance p, encode_default tmp f)
      | constant ↦ encode_constant p f
    ]

abbrev finish_string : Bool → Bool × Buffer → Pmap → Field Chars → Encoded Chars
finish_string pset (true, b) p f = record {
  success = true;
  buffer = b;
  pmap = if pset then pmap_set p p.pmap_bit else p;
  field = f;
}
finish_string pset (false, b) p f = record { success = false; buffer = b; pmap = p; field = f }

-- Behind the label `transfer`: the value becomes the previous one.
abbrev remember : Field Chars → Field Chars
remember f = record f { previous = copy_text f.previous f.value; state_previous = f.state }

abbrev string_exit : Buffer → Field Chars → Pmap × Exit (List ℕ) Chars → Encoded Chars
string_exit b old (p, transfer pset tmp f) =
    finish_string pset (transfer_string b (Option.some tmp)) p (remember f)
string_exit b old (p, to_empty pset f) =
    finish_string pset (transfer_string b Option.none) p
      (remember (record f { value = copy_text f.value f.previous }))
string_exit b old (p, stop f) = record { success = true; buffer = b; pmap = p; field = f }
string_exit b old (p, fail) = record { success = false; buffer = b; pmap = p; field = old }

unfoldable pub fast_encode_string : Buffer → Pmap → Field Chars → Encoded Chars
fast_encode_string b p f = string_exit b f (string_switch p f)
