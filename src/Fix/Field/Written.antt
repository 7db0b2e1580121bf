-- ===== src/Fix/Field/Written.antt =====
-- What fix_field_unparse appends to a buffer.
use libtrading.Base.{
  c_string, ℕ, ◌+◌, ◌-◌, ◌%◌, ◌^◌, ◌≤◌, ◌<◌, ◌≡◌, ap, ◌∙◌, List, [], ◌∷◌, ◌++◌, append_assoc,
  append-nil, length, length-append, All, arith, take,
}
use libtrading.Buffer.{Buffer, IsValid, buffer_put, buffer_remaining}
use libtrading.Buffer.Contents.{Holds, contents, window, window-add, window_cong, buffer_put-Holds}
use libtrading.Itoa.{Memory, print, uitoa, i64toa, checksumtoa}
use libtrading.Itoa.Digits.{dig, decimal}
use libtrading.Itoa.Print.{uitoa-PrintsAll, checksumtoa-PrintsAll}
use libtrading.Itoa.Signed.{Leaves, PrintsAll-Leaves, i64_text, i64toa-Leaves, print-Leaves}
use libtrading.Fix.Scan.{soh}
use libtrading.Fix.Scan.Fields.{field_bytes, length-field_bytes}
use libtrading.Fix.Field.{
  Value, int_value, float_value, char_value, string_value, checksum_value, no_value, string_8_value,
  Field, Externals, print_at, put_all, unparse_value, fix_field_unparse,
}

abbrev pub AreBytes : List ℕ → Type 0
AreBytes cs = All (λ c. c < 256) cs

-- The bytes `ds` are appended to the contents `cs`.
pub record Appends (b : Buffer) (cs ds : List ℕ) (b' : Buffer) : Type 0 where
  pub holds : Holds b' (cs ++ ds)
  pub left : buffer_remaining b' ≡ buffer_remaining b - length ds

pub Appends-trans :
    (b b' b'' : Buffer) (cs ds es : List ℕ)
    → Appends b cs ds b'
    → Appends b' (cs ++ ds) es b''
    → Appends b cs (ds ++ es) b''
Appends-trans b b' b'' cs ds es f g = record {
  holds = rw append_assoc at g.holds;
  left = omega (arith, f.left, g.left, length-append ds es);
}

pub print_at-Appends :
    (pr : Memory → ℕ → ℕ × Memory) (b : Buffer) (cs ds : List ℕ)
    → Holds b cs
    → length ds ≤ buffer_remaining b
    → Leaves b.bytes b.end ds (pr b.bytes b.end)
    → Appends b cs ds (print_at pr b)
unfolding buffer_remaining
print_at-Appends pr b cs ds h room l = record {
  holds = record {
    valid = record {
      ordered = omega (arith, grown, v.ordered);
      bounded = omega (arith, grown, roomy);
      addressable = v.addressable;
    };
    reads = whole;
  };
  left = omega (arith, grown, roomy, v.addressable, v.bounded);
}
  where
    v : IsValid b
    v = h.valid

    roomy : b.end + length ds ≤ b.capacity
    roomy = omega (arith, v.bounded, v.addressable)

    grown : (b.end + (pr b.bytes b.end).0) % 2 ^ 64 ≡ b.end + length ds
    grown = omega (arith, l.count, roomy, v.addressable)

    longer : (b.end + (pr b.bytes b.end).0) % 2 ^ 64 - b.start ≡ (b.end - b.start) + length ds
    longer = omega (arith, grown, v.ordered)

    at_end : b.start + (b.end - b.start) ≡ b.end
    at_end = omega (arith, v.ordered)

    whole : contents (print_at pr b) ≡ cs ++ ds
    whole =
        ap (window (pr b.bytes b.end).1 b.start) longer
        ∙ window-add (pr b.bytes b.end).1 b.start (b.end - b.start) (length ds)
        ∙ ap
            (λ (xs : List ℕ).
              xs ++ window (pr b.bytes b.end).1 (b.start + (b.end - b.start)) (length ds))
            (window_cong (pr b.bytes b.end).1 b.bytes b.start (b.end - b.start)
                (λ i p q. l.below i (omega (arith, v.ordered)))
              ∙ h.reads)
        ∙ ap (λ (i : ℕ). cs ++ window (pr b.bytes b.end).1 i (length ds)) at_end
        ∙ ap (λ (xs : List ℕ). cs ++ xs) l.text

pub buffer_put-Appends :
    (b : Buffer) (cs : List ℕ) (c : ℕ)
    → Holds b cs
    → c < 256
    → 0 < buffer_remaining b
    → Appends b cs (c ∷ []) (buffer_put b c)
buffer_put-Appends b cs c h byte room =
    let (grown, less) = buffer_put-Holds cs c h byte room in record { holds = grown; left = less }

pub put_all-Appends :
    (ds : List ℕ) (b : Buffer) (cs : List ℕ)
    → Holds b cs
    → AreBytes ds
    → length ds ≤ buffer_remaining b
    → Appends b cs ds (put_all ds b)
unfolding put_all
put_all-Appends [] b cs h chars room = record { holds = rw append-nil h; left = omega arith }
put_all-Appends (d ∷ ds) b cs h chars room =
    let first = buffer_put-Appends b cs d h chars.0 (omega arith) in
    Appends-trans b (buffer_put b d) _ cs (d ∷ []) ds first (
      put_all-Appends ds (buffer_put b d) (cs ++ (d ∷ [])) first.holds chars.1
        (omega (arith, first.left)))

module _ {D : Type 0} (ext : Externals D) where
  -- The bytes of a value.
  abbrev pub value_text : Value (List ℕ) D → List ℕ
  value_text (int_value n) = i64_text ext.sprintf n
  value_text (float_value x) = ext.modp_dtoa2 x
  value_text (char_value c) = c ∷ []
  value_text (string_value cs) = cs
  value_text (checksum_value n) = dig 3 n
  value_text no_value = []
  value_text (string_8_value cs) = c_string (take 8 cs)

  -- Values of the C types, whose texts are of `char`s.
  abbrev pub IsPrintable : Value (List ℕ) D → Type 0
  IsPrintable (int_value n) = (n < 2 ^ 64) × AreBytes (ext.sprintf n)
  IsPrintable (float_value x) = AreBytes (ext.modp_dtoa2 x)
  IsPrintable (char_value c) = c < 256
  IsPrintable (string_value cs) = AreBytes cs
  IsPrintable (checksum_value n) = n < 256
  IsPrintable no_value = Unit {0}
  IsPrintable (string_8_value cs) = AreBytes (c_string (take 8 cs))

  unparse_value-Appends :
      (v : Value (List ℕ) D) (b : Buffer) (cs : List ℕ)
      → Holds b cs
      → IsPrintable v
      → length (value_text v) ≤ buffer_remaining b
      → Appends b cs (value_text v) (unparse_value ext v b)
  unfolding unparse_value
  unparse_value-Appends (int_value n) b cs h (word, chars) room =
      print_at-Appends (i64toa ext.sprintf n) b cs _ h room
        (i64toa-Leaves ext.sprintf n b.bytes b.end word chars)
  unparse_value-Appends (float_value x) b cs h chars room =
      print_at-Appends (print (ext.modp_dtoa2 x)) b cs _ h room (print-Leaves _ b.bytes b.end chars)
  unparse_value-Appends (char_value c) b cs h byte room = buffer_put-Appends b cs c h byte room
  unparse_value-Appends (string_value ds) b cs h chars room = put_all-Appends ds b cs h chars room
  unparse_value-Appends (checksum_value n) b cs h byte room =
      print_at-Appends (checksumtoa n) b cs _ h room
        (PrintsAll-Leaves _ _ _ _ (checksumtoa-PrintsAll n b.bytes b.end byte))
  unparse_value-Appends no_value b cs h tt room = record {
    holds = rw append-nil h;
    left = omega arith;
  }
  unparse_value-Appends (string_8_value ds) b cs h chars room =
      put_all-Appends (c_string (take 8 ds)) b cs h chars room

  -- A field as it goes over the wire.
  abbrev pub field_text : Field (List ℕ) D → List ℕ
  field_text f = field_bytes (decimal f.tag) (value_text f.value)

  abbrev pub IsWritable : Field (List ℕ) D → Type 0
  IsWritable f = (f.tag < 2 ^ 32) × IsPrintable f.value

  -- On a buffer with room for it, fix_field_unparse appends the tag in decimal, '=', the text of the value
  -- and a SOH.
  pub fix_field_unparse-Appends :
      (f : Field (List ℕ) D) (b : Buffer) (cs : List ℕ)
      → Holds b cs
      → IsWritable f
      → length (field_text f) ≤ buffer_remaining b
      → Appends b cs (field_text f) (fix_field_unparse ext f b)
  unfolding fix_field_unparse
  fix_field_unparse-Appends f b cs h (word, chars) room =
      let ds : List ℕ = decimal f.tag in
      let vs : List ℕ = value_text f.value in
      let size : length (field_bytes ds vs) ≡ length ds + 1 + (length vs + 1) =
        length-field_bytes b ds vs [] 0 in
      let b1 : Buffer = print_at (uitoa f.tag) b in
      let b2 : Buffer = buffer_put b1 b'=' in
      let b3 : Buffer = unparse_value ext f.value b2 in
      let tag =
        print_at-Appends (uitoa f.tag) b cs ds h (omega (arith, size))
          (PrintsAll-Leaves _ _ _ _ (uitoa-PrintsAll f.tag b.bytes b.end word)) in
      let equals =
        buffer_put-Appends b1 (cs ++ ds) b'=' tag.holds (omega arith)
          (omega (arith, size, tag.left)) in
      let value =
        unparse_value-Appends f.value b2 ((cs ++ ds) ++ (b'=' ∷ [])) equals.holds chars
          (omega (arith, size, tag.left, equals.left)) in
      let last =
        buffer_put-Appends b3 (((cs ++ ds) ++ (b'=' ∷ [])) ++ vs) soh value.holds (omega arith)
          (omega (arith, size, tag.left, equals.left, value.left)) in
      Appends-trans b b1 (buffer_put b3 soh) cs ds (b'=' ∷ (vs ++ (soh ∷ []))) tag (
        Appends-trans b1 b2 (buffer_put b3 soh) (cs ++ ds) (b'=' ∷ []) (vs ++ (soh ∷ [])) equals (
          Appends-trans b2 b3 (buffer_put b3 soh) ((cs ++ ds) ++ (b'=' ∷ [])) vs (soh ∷ []) value
            last))
