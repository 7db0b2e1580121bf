-- ===== src/Fix/Field.antt =====
-- `struct fix_field`, the types of tags, and fix_field_unparse of lib/proto/fix_message.c.
-- `S` is the type of the pointers to strings and `D` that of doubles.
pub mod Written
use libtrading.Base.{
  c_string, ℕ, zero, suc, ◌+◌, ◌%◌, List, [], ◌∷◌, ◌==◌, if◌then◌else◌, take, add64,
}
use libtrading.Buffer.{Buffer, buffer_put}
use libtrading.Itoa.{Memory, print, uitoa, i64toa, checksumtoa}
use libtrading.Fix.Scan.{soh}

-- `enum fix_type`
pub data FieldType : Type 0 where
  int float char string checksum msg_seq_num string_8 : FieldType

-- The type of a field with the member of the union that it selects: an `int_value` is a 64-bit pattern.
pub data Value (S D : Type 0) : Type 0 where
  int_value : ℕ → Value S D
  float_value : D → Value S D
  char_value : ℕ → Value S D
  string_value : S → Value S D
  checksum_value : ℕ → Value S D
  no_value : Value S D
  string_8_value : List ℕ → Value S D

-- `tag` is a 32-bit pattern.
pub record Field (S D : Type 0) : Type 0 where
  pub tag : ℕ
  pub value : Value S D

-- What other libraries do with numbers: `sprintf` with "%" PRId64, modp_dtoa2 to 7 places, and strtod on an
-- address in memory.
pub record Externals (D : Type 0) : Type 0 where
  pub sprintf : ℕ → List ℕ
  pub modp_dtoa2 : D → List ℕ
  pub strtod : (ℕ → ℕ) → ℕ → D

unfoldable pub fix_tag_type : ℕ → FieldType
fix_tag_type tag =
    if tag == 10
    then checksum
    else if tag == 369
    then int
    else if tag == 1023
    then int
    else if tag == 7
    then int
    else if tag == 45
    then int
    else if tag == 16
    then int
    else if tag == 36
    then int
    else if tag == 83
    then int
    else if tag == 123
    then string
    else if tag == 43
    then string
    else if tag == 48
    then string
    else if tag == 112
    then string
    else if tag == 34
    then msg_seq_num
    else if tag == 271
    then float
    else if tag == 32
    then float
    else if tag == 151
    then float
    else if tag == 270
    then float
    else if tag == 38
    then float
    else if tag == 14
    then float
    else if tag == 31
    then float
    else if tag == 6
    then float
    else if tag == 44
    then float
    else if tag == 336
    then string
    else if tag == 279
    then string
    else if tag == 60
    then string
    else if tag == 20
    then string
    else if tag == 41
    then string
    else if tag == 269
    then string
    else if tag == 39
    then string
    else if tag == 150
    then string
    else if tag == 554
    then string
    else if tag == 1
    then string
    else if tag == 11
    then string
    else if tag == 37
    then string
    else if tag == 40
    then string
    else if tag == 17
    then string
    else if tag == 55
    then string
    else if tag == 54
    then string
    else if tag == 58
    then string
    else if tag == 103
    then int
    else if tag == 442
    then char
    else string

-- `buffer->end += print(…, buffer_end(buffer))`
abbrev pub print_at : (Memory → ℕ → ℕ × Memory) → Buffer → Buffer
print_at pr b = let (count, m) = pr b.bytes b.end in record b { bytes = m; end = add64 b.end count }

-- `while (*p) buffer_put(buffer, *p++)` on the characters in front of the NUL.
unfoldable pub put_all : List ℕ → Buffer → Buffer
put_all [] b = b
put_all (c ∷ cs) b = put_all cs (buffer_put b c)

module _ {D : Type 0} (ext : Externals D) where
  -- The `switch (self->type)`. The array of a FIX_TYPE_STRING_8 has eight characters.
  unfoldable pub unparse_value : Value (List ℕ) D → Buffer → Buffer
  unfolding put_all
  unparse_value (int_value n) b = print_at (i64toa ext.sprintf n) b
  unparse_value (float_value x) b = print_at (print (ext.modp_dtoa2 x)) b
  unparse_value (char_value c) b = buffer_put b c
  unparse_value (string_value cs) b = put_all cs b
  unparse_value (checksum_value n) b = print_at (checksumtoa n) b
  unparse_value no_value b = b
  unparse_value (string_8_value cs) b = put_all (c_string (take 8 cs)) b

  unfoldable pub fix_field_unparse : Field (List ℕ) D → Buffer → Buffer
  fix_field_unparse f b =
      buffer_put (unparse_value f.value (buffer_put (print_at (uitoa f.tag) b) b'=')) soh
