-- ===== src/Fix/Message/Checked.antt =====
-- The first three fields and the checksum of fix_message_parse on fields as fix_field_unparse writes them.
use libtrading.Base.{
  ℕ, ◌+◌, ◌%◌, ◌≤◌, ◌<◌, ◌≡◌, refl, ap, ◌∙◌, false, List, [], ◌∷◌, ◌++◌, append_assoc, length,
  length-append, arith, int_of, if◌then◌else◌, Bool-cases, inl, inr,
}
use libtrading.Buffer.{Buffer}
use libtrading.Buffer.Contents.{Holds}
use libtrading.Buffer.Moves.{total}
use libtrading.Itoa.Digits.{dig, decimal}
use libtrading.Fix.Scan.{ok, soh, readable, fix_uatoi}
use libtrading.Fix.Scan.Memory.{Holds-capacity, skip-Holds}
use libtrading.Fix.Scan.Numbers.{fix_uatoi-value}
use libtrading.Fix.Scan.Fields.{
  field_bytes, length-field_bytes, IsValue, IsTag, value_at, value-At, behind, match_field-field,
}
use libtrading.Fix.Kind.{MsgType, unknown, fix_msg_type_parse}
use libtrading.Fix.Message.{
  Message, Flags, is_unknown, bad_length, parse_begin_string, parse_body_length, parse_msg_type,
  first_three_fields,
}
use libtrading.Fix.Message.Typed.{decimal-IsTag, digits-IsValue}

-- A number in the value of a field.
pub fix_uatoi-field :
    (b : Buffer) (ds vs rest : List ℕ) (tag n : ℕ)
    → IsTag vs n
    → Holds b (field_bytes ds vs ++ rest)
    → (fix_uatoi (readable b (value_at b ds)) b.bytes (value_at b ds)).0 ≡ n
fix_uatoi-field b ds vs rest tag n num h =
    let room : length vs < readable b (value_at b ds) = omega (
      arith,
      Holds-capacity _ h,
      length-append (field_bytes ds vs) rest,
      length-field_bytes b ds vs [] 0,
    ) in
    ap (λ (r : ℕ × ℕ). r.0)
      (fix_uatoi-value (readable b (value_at b ds)) b.bytes (value_at b ds) soh vs
        (value-At b ds vs rest tag h) num.digits refl room (omega (arith, num.value, num.small)))
    ∙ num.value

abbrev pub received_type : Flags → MsgType → MsgType
received_type flags t = if flags.no_type then unknown else t

module _ {D : Type 0} (self : Message ℕ D) (b : Buffer) (vs rest : List ℕ) where
  parse_begin_string-field :
      IsValue vs
      → Holds b (field_bytes (decimal 8) vs ++ rest)
      → parse_begin_string self b
        ≡ (ok tt, record self { begin_string = value_at b (decimal 8) }, behind b (decimal 8) vs)
  unfolding parse_begin_string
  parse_begin_string-field value h =
      rw (match_field-field b (decimal 8) vs rest 8 (decimal-IsTag 8 (omega arith)) value h) refl

  parse_msg_type-field :
      (t : MsgType) (flags : Flags)
      → IsValue vs
      → is_unknown t ≡ false
      → fix_msg_type_parse b.bytes (value_at b (decimal 35)) soh ≡ t
      → Holds b (field_bytes (decimal 35) vs ++ rest)
      → parse_msg_type self b flags ≡ (
        ok tt,
        record self { msg_type = value_at b (decimal 35); type = received_type flags t },
        behind b (decimal 35) vs,
      )
  unfolding parse_msg_type
  parse_msg_type-field t flags value known type h =
      let matched =
        match_field-field b (decimal 35) vs rest 35 (decimal-IsTag 35 (omega arith)) value h in
      elim (Bool-cases flags.no_type) [
        | inl free ↦ rw (matched, free) refl
        | inr named ↦ rw (matched, named, type, known) refl
      ]

parse_body_length-field :
    {D : Type 0} (self : Message ℕ D) (b : Buffer) (len : ℕ) (rest : List ℕ)
    → 0 < len
    → len ≤ 1280
    → Holds b (field_bytes (decimal 9) (decimal len) ++ rest)
    → parse_body_length self b
      ≡ (ok tt, record self { body_length = len }, behind b (decimal 9) (decimal len))
unfolding parse_body_length
parse_body_length-field self b len rest some_bytes small h =
    let num = decimal-IsTag len (omega arith) in
    let matched =
      match_field-field b (decimal 9) (decimal len) rest 9 (decimal-IsTag 9 (omega arith))
        (digits-IsValue (decimal len) num.digits) h in
    let read = fix_uatoi-field b (decimal 9) (decimal len) rest 9 len num h in
    let good : bad_length len ≡ false = ground arith in
    let same : int_of len ≡ len = ground arith in rw (matched, read, good, same) refl

pub total-append : (xs ys : List ℕ) → total (xs ++ ys) ≡ total xs + total ys
total-append [] ys = omega arith
total-append (x ∷ xs) ys = omega (arith, total-append xs ys)

-- A message up to its checksum: BeginString, the type, and the bytes behind the type.
module _ (begin type other : List ℕ) where
  abbrev pub type_field : List ℕ
  type_field = field_bytes (decimal 35) type

  abbrev pub length_of : ℕ
  length_of = length type_field + length other

  abbrev pub begin_field : List ℕ
  begin_field = field_bytes (decimal 8) begin

  abbrev pub length_field : List ℕ
  length_field = field_bytes (decimal 9) (decimal length_of)

  abbrev pub message_text : List ℕ
  message_text = begin_field ++ (length_field ++ (type_field ++ other))

  abbrev pub sum_field : List ℕ
  sum_field = field_bytes (decimal 10) (dig 3 (total message_text % 256))

  pub message_text-append :
      (tail : List ℕ)
      → message_text ++ tail ≡ begin_field ++ (length_field ++ (type_field ++ (other ++ tail)))
  message_text-append tail =
      append_assoc begin_field (length_field ++ (type_field ++ other)) tail
      ∙ ap (λ (xs : List ℕ). begin_field ++ xs)
          (append_assoc length_field (type_field ++ other) tail
            ∙ ap (λ (xs : List ℕ). length_field ++ xs) (append_assoc type_field other tail))

  -- The buffer behind each of the first three fields.
  module _ (b : Buffer) where
    abbrev pub at_length : Buffer
    at_length = behind b (decimal 8) begin

    abbrev pub at_type : Buffer
    at_type = behind at_length (decimal 9) (decimal length_of)

    abbrev pub at_other : Buffer
    at_other = behind at_type (decimal 35) type

  module _ {D : Type 0} (self : Message ℕ D) (b : Buffer) (t : MsgType) (flags : Flags) where
    abbrev pub with_three : Message ℕ D
    with_three = record self {
      begin_string = value_at b (decimal 8);
      body_length = length_of;
      msg_type = value_at (at_type b) (decimal 35);
      type = received_type flags t;
    }

    pub first_three_fields-fields :
        (rest : List ℕ)
        → IsValue begin
        → IsValue type
        → length_of ≤ 1280
        → is_unknown t ≡ false
        → fix_msg_type_parse b.bytes (value_at (at_type b) (decimal 35)) soh ≡ t
        → Holds b (begin_field ++ (length_field ++ (type_field ++ rest)))
        → first_three_fields self b flags ≡ (ok tt, with_three, at_other b)
    unfolding first_three_fields
    first_three_fields-fields rest value value' short known kind h =
        let h' = skip-Holds b begin_field _ h in
        let h'' = skip-Holds (at_length b) length_field _ h' in
        let some_bytes : 0 < length_of =
          omega (arith, length-field_bytes b (decimal 35) type [] 0) in
        let self' : Message ℕ D = record self { begin_string = value_at b (decimal 8) } in
        rw
          (
            parse_begin_string-field self b begin _ value h,
            parse_body_length-field self' (at_length b) length_of _ some_bytes short h',
          )
          (parse_msg_type-field (record self' { body_length = length_of }) (at_type b) type rest t
            flags value' known kind h'')
