-- ===== src/Fast/Vector.antt =====
-- fast_decode_vector of lib/proto/fast_message.c. There is no encoder for vectors.
use libtrading.Base.{if◌then◌else◌}
use libtrading.Buffer.{Buffer}
use libtrading.Fast.Codec.{parse_uint}
use libtrading.Fast.Pmap.{Pmap, pmap_is_set, next_bit, advance}
use libtrading.Fast.Field.{
  none, copy, incr, delta, default, constant, Field, Decoded, use_reset, use_previous,
  decode_constant,
}
use libtrading.Fast.Text.{Chars, read_bytes, refuse}

-- The whole reset array is copied.
unfoldable pub fast_decode_vector : Buffer → Pmap → Field Chars → Decoded Chars
fast_decode_vector b p f =
    let q = advance p in
    elim f.op [
      | none ↦ read_bytes (parse_uint b) p f
      | copy ↦
          if pmap_is_set p (next_bit p)
          then read_bytes (parse_uint b) q f
          else use_previous f.reset f b q f
      | incr ↦ refuse b p f
      | delta ↦ refuse b p f
      | default ↦
          if pmap_is_set p (next_bit p)
          then read_bytes (parse_uint b) q f
          else use_reset f.reset b q f
      | constant ↦ decode_constant f.reset b p f
    ]
