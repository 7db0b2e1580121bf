-- ===== src/Fix/Message/Conveyed.antt =====
-- The messages that go over the wire and back, and their bytes.
use libtrading.Base.{
  ℕ, ◌%◌, ◌^◌, ◌≤◌, ◌<◌, ◌≡◌, ◌≢◌, refl, sym, ap, ◌∙◌, true, false, List, [], ◌∷◌, ◌++◌,
  append_assoc, append-nil, length, length-append, All, arith, take, lt→ltb,
}
use mathlib.Core.Bool.{false≢true}
use libtrading.Buffer.{Buffer}
use libtrading.Buffer.Contents.{Holds}
use libtrading.Buffer.Moves.{total}
use libtrading.Itoa.Digits.{dig, decimal}
use libtrading.Itoa.Signed.{PrintsNumbers}
use libtrading.Fix.Scan.{soh}
use libtrading.Fix.Scan.Memory.{At}
use libtrading.Fix.Scan.Fields.{field_bytes, IsValue}
use libtrading.Fix.Kind.{MsgType, unknown, fix_msg_types}
use libtrading.Fix.Field.{FieldType, string, checksum, msg_seq_num, Field, Externals}
use libtrading.Fix.Field.Written.{field_text}
use libtrading.Fix.Message.{
  Message, Flags, Outcome, is_unknown, string_field, int_field, fix_max_message_size,
  fix_max_field_number,
}
use libtrading.Fix.Message.Unparsed.{texts, body_text, head_text, checksum_text}
use libtrading.Fix.Message.Typed.{SameFields, IsTyped}
use libtrading.Fix.Message.Checked.{
  received_type, begin_field, length_field, type_field, length_of, message_text, sum_field,
  total-append,
}

-- What the parser takes for the fields of the standard header and the checksum.
pub record IsDialect (tag_type : ℕ → FieldType) : Type 0 where
  pub sender : tag_type 49 ≡ string
  pub target : tag_type 56 ≡ string
  pub time : tag_type 52 ≡ string
  pub sequence : tag_type 34 ≡ msg_seq_num
  pub sum : tag_type 10 ≡ checksum

pub known-ne : (t : MsgType) → is_unknown t ≡ false → t ≢ unknown
known-ne t known e = false≢true (sym known ∙ ap is_unknown e)

pub texts-append :
    {D : Type 0} (ext : Externals D) (fs gs : List (Field (List ℕ) D))
    → texts ext (fs ++ gs) ≡ texts ext fs ++ texts ext gs
texts-append ext [] gs = refl
texts-append ext (f ∷ fs) gs =
    ap (λ (xs : List ℕ). field_text ext f ++ xs) (texts-append ext fs gs)
    ∙ sym (append_assoc (field_text ext f) _ _)

module _ {D : Type 0} (ext : Externals D) (tag_type : ℕ → FieldType)
    (law : PrintsNumbers ext.sprintf) where
  abbrev pub front_fields : Message (List ℕ) D → List (Field (List ℕ) D)
  front_fields self =
      string_field ext 49 self.sender_comp_id ∷ string_field ext 56 self.target_comp_id ∷ []

  abbrev pub back_fields : Message (List ℕ) D → List (Field (List ℕ) D)
  back_fields self = string_field ext 52 (take 64 self.str_now) ∷ self.fields

  abbrev pub other_text : Message (List ℕ) D → List ℕ
  other_text self =
      texts ext (front_fields self ++ (int_field ext 34 self.msg_seq_num ∷ back_fields self))

  -- A message that goes over the wire and back: of a known type and of a size that is accepted, with
  -- fields of the types that the parser takes for their tags, as many as it has room for.
  pub record IsConveyable (self : Message (List ℕ) D) : Type 0 where
    pub known : is_unknown self.type ≡ false
    pub begin : IsValue self.begin_string
    pub sequence : self.msg_seq_num < 2 ^ 31
    pub front : All (IsTyped ext tag_type law) (front_fields self)
    pub back : All (IsTyped ext tag_type law) (back_fields self)
    pub size : length (body_text ext self) ≤ fix_max_message_size
    pub room : length (front_fields self ++ back_fields self) ≤ fix_max_field_number

  -- The outcome of parsing it at the front of `b`, with `rest` behind it.
  pub record IsReceived (self : Message (List ℕ) D) (flags : Flags) (b : Buffer) (rest : List ℕ)
      (o : Outcome ext tag_type) : Type 0 where
    pub success : o.success ≡ true
    pub type : o.self.type ≡ received_type flags self.type
    pub begin_string : At b.bytes o.self.begin_string (self.begin_string ++ (soh ∷ []))
    pub msg_type : At b.bytes o.self.msg_type (fix_msg_types self.type ++ (soh ∷ []))
    pub body_length : o.self.body_length ≡ length (body_text ext self)
    pub msg_seq_num : o.self.msg_seq_num ≡ self.msg_seq_num
    pub fields : SameFields b.bytes (front_fields self ++ back_fields self) o.self.fields
    pub remains : Holds o.buffer rest

  module _ (self : Message (List ℕ) D) (c : IsConveyable self) where
    pub type_text :
        body_text ext self
        ≡ type_field [] (fix_msg_types self.type) (other_text self) ++ other_text self
    type_text = rw (c.known) refl

    pub length_lem :
        length (body_text ext self) ≡ length_of [] (fix_msg_types self.type) (other_text self)
    length_lem =
        ap length type_text
        ∙ length-append (type_field [] (fix_msg_types self.type) (other_text self))
            (other_text self)

    pub head_bytes :
        head_text ext self
        ≡ begin_field self.begin_string (fix_msg_types self.type) (other_text self)
          ++ length_field self.begin_string (fix_msg_types self.type) (other_text self)
    head_bytes =
        ap
          (λ (n : ℕ).
            field_bytes (decimal 8) self.begin_string ++ (field_text ext (int_field ext 9 n) ++ []))
          length_lem
        ∙ rw
            (
              append-nil,
              lt→ltb (length_of [] (fix_msg_types self.type) (other_text self)) (2 ^ 31) small,
            )
            refl
      where
        small : length_of [] (fix_msg_types self.type) (other_text self) < 2 ^ 31
        small = omega (arith, c.size, length_lem)

    pub whole :
        head_text ext self ++ body_text ext self
        ≡ message_text self.begin_string (fix_msg_types self.type) (other_text self)
    whole =
        rw (head_bytes, type_text)
          (append_assoc (begin_field self.begin_string (fix_msg_types self.type) (other_text self))
            (length_field self.begin_string (fix_msg_types self.type) (other_text self))
            (type_field [] (fix_msg_types self.type) (other_text self) ++ other_text self))

    pub sum_bytes :
        checksum_text ext self
        ≡ sum_field self.begin_string (fix_msg_types self.type) (other_text self)
    sum_bytes =
        ap (λ (n : ℕ). field_bytes (decimal 10) (dig 3 (n % 256)))
          (sym (total-append (head_text ext self) (body_text ext self)) ∙ ap total whole)
