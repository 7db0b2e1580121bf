-- ===== src/Fix/Message/RoundTrip.antt =====
-- fix_message_parse on what fix_message_unparse writes.
use libtrading.Base.{
  ℕ, ◌+◌, ◌%◌, ◌≤◌, ◌≡◌, refl, sym, ap, ◌∙◌, false, List, [], ◌∷◌, ◌++◌, append_assoc, length,
  length-append, arith, ◌==◌, ne→==,
}
use libtrading.Buffer.{Buffer, buffer_size, buffer_remaining}
use libtrading.Buffer.Contents.{Holds, buffer_size-length, contents}
use libtrading.Buffer.Moves.{total}
use libtrading.Itoa.Digits.{dig, decimal}
use libtrading.Itoa.Signed.{PrintsNumbers}
use libtrading.Fix.Scan.{ok}
use libtrading.Fix.Scan.Memory.{skip, skip-Holds}
use libtrading.Fix.Scan.Fields.{field_bytes, value_at, value-At}
use libtrading.Fix.Kind.{fix_msg_types, fix_msg_types-IsValue, fix_msg_type_parse-fix_msg_types}
use libtrading.Fix.Field.{FieldType, Externals}
use libtrading.Fix.Field.Written.{field_text}
use libtrading.Fix.Message.{
  Message, Flags, done, Outcome, finished, int_field, fix_message_unparse, fix_message_parse,
  parse_rounds, check_message,
}
use libtrading.Fix.Message.Unparsed.{
  texts, body_text, head_text, checksum_text, sum_of, IsSendable, fix_message_unparse-Holds,
  length-checksum_bytes,
}
use libtrading.Fix.Message.Rest.{rest_text, rest_of_message-fields}
use libtrading.Fix.Message.Checked.{
  begin_field, length_field, type_field, length_of, message_text, message_text-append, sum_field,
  at_length, at_type, at_other, with_three, first_three_fields-fields,
}
use libtrading.Fix.Message.Sum.{checksum_step-fields}
use libtrading.Fix.Message.Conveyed.{
  IsDialect, front_fields, back_fields, other_text, IsConveyable, IsReceived, known-ne,
  texts-append, length_lem, whole, sum_bytes,
}

module _ {D : Type 0} (ext : Externals D) (tag_type : ℕ → FieldType)
    (law : PrintsNumbers ext.sprintf) (dialect : IsDialect tag_type) (self : Message (List ℕ) D)
    (c : IsConveyable ext tag_type law self) (b : Buffer) (rest : List ℕ) where
  -- The bytes behind the first three fields, as the loop over the fields takes them.
  rest_bytes :
      (sum : ℕ)
      → other_text ext tag_type law self ++ (field_bytes (decimal 10) (dig 3 sum) ++ rest)
        ≡ rest_text ext tag_type law b
            (front_fields ext tag_type law self)
            (back_fields ext tag_type law self)
            34
            self.msg_seq_num
            10
            sum
            rest
          ++ rest
  rest_bytes sum =
      let fs : List ℕ = texts ext (front_fields ext tag_type law self) in
      let t : List ℕ = field_text ext (int_field ext 34 self.msg_seq_num) in
      let bs : List ℕ = texts ext (back_fields ext tag_type law self) in
      let cs : List ℕ = field_bytes (decimal 10) (dig 3 sum) in
      ap (λ (xs : List ℕ). xs ++ (cs ++ rest))
        (texts-append ext (front_fields ext tag_type law self)
          (int_field ext 34 self.msg_seq_num ∷ back_fields ext tag_type law self))
      ∙ sym (append_assoc (fs ++ (t ++ bs)) cs rest)
      ∙ ap (λ (xs : List ℕ). xs ++ rest)
          (append_assoc fs (t ++ bs) cs ∙ ap (λ (xs : List ℕ). fs ++ xs) (append_assoc t bs cs))

  parse-Received :
      (m : Message ℕ D) (flags : Flags)
      → Holds b (head_text ext self ++ (body_text ext self ++ (checksum_text ext self ++ rest)))
      → (o : Outcome ext tag_type) × (fix_message_parse ext tag_type m b flags ≡ done o)
        × IsReceived ext tag_type law self flags b rest o
  unfolding fix_message_parse check_message parse_rounds
  parse-Received m flags h =
      let ts : List ℕ = fix_msg_types self.type in
      let os : List ℕ = other_text ext tag_type law self in
      let split : head_text ext self ++ (body_text ext self ++ (checksum_text ext self ++ rest))
          ≡ message_text self.begin_string ts os ++ (sum_field self.begin_string ts os ++ rest) =
        sym
          (append_assoc (head_text ext self) (body_text ext self) (checksum_text ext self ++ rest))
        ∙ ap (λ (xs : List ℕ). xs ++ (checksum_text ext self ++ rest))
            (whole ext tag_type law self c)
        ∙ ap (λ (xs : List ℕ). message_text self.begin_string ts os ++ (xs ++ rest))
            (sum_bytes ext tag_type law self c) in
      let h' : Holds b
          (message_text self.begin_string ts os ++ (sum_field self.begin_string ts os ++ rest)) =
        rw split at h in
      let sum : ℕ = total (message_text self.begin_string ts os) % 256 in
      let tail : List ℕ = sum_field self.begin_string ts os ++ rest in
      let b2 : Buffer = at_type self.begin_string ts os b in
      let b3 : Buffer = at_other self.begin_string ts os b in
      let h1 : Holds b (
          begin_field self.begin_string ts os
          ++ (length_field self.begin_string ts os
              ++ (type_field self.begin_string ts os ++ (os ++ tail)))) =
        rw (message_text-append self.begin_string ts os tail) at h' in
      let h2 =
        skip-Holds (at_length self.begin_string ts os b) (length_field self.begin_string ts os) _
          (skip-Holds b (begin_field self.begin_string ts os) _ h1) in
      let type_at = value-At b2 (decimal 35) ts (os ++ tail) 35 h2 in
      let kind =
        fix_msg_type_parse-fix_msg_types self.type b.bytes (value_at b2 (decimal 35))
          (known-ne self.type c.known) type_at in
      let short : length_of self.begin_string ts os ≤ 1280 =
        omega (arith, c.size, length_lem ext tag_type law self c) in
      let three =
        first_three_fields-fields self.begin_string ts os m b self.type flags (os ++ tail) c.begin
          (fix_msg_types-IsValue self.type) short c.known kind h1 in
      let (n, summed) =
        checksum_step-fields self.begin_string ts os m b rest self.type flags short h' in
      let four : Message ℕ D = record (with_three self.begin_string ts os m b self.type flags) {
        check_sum = n;
      } in
      let checks : check_message ext tag_type m b flags ≡ (ok tt, four, b3) =
        rw (three, summed) refl in
      let h3 = rw (rest_bytes sum) at (skip-Holds b2 (type_field self.begin_string ts os) _ h2) in
      let (gs, parsed, same) =
        rest_of_message-fields ext tag_type law b3 (front_fields ext tag_type law self)
          (back_fields ext tag_type law self) 34 self.msg_seq_num 10 sum rest four c.front c.back
          (omega arith, dialect.sequence, c.sequence) (omega arith, dialect.sum) h3 c.room in
      let some_bytes : (buffer_size b == 0) ≡ false = ne→== (buffer_size b) 0 (
        omega (
          arith,
          buffer_size-length _ h,
          length-append (head_text ext self)
              (body_text ext self ++ (checksum_text ext self ++ rest)),
          length-append (body_text ext self) (checksum_text ext self ++ rest),
          length-append (checksum_text ext self) rest,
          length-checksum_bytes (sum_of ext self),
        )) in
      let all : ℕ = length (
        rest_text ext tag_type law b3 (front_fields ext tag_type law self)
          (back_fields ext tag_type law self) 34 self.msg_seq_num 10 sum rest) in
      let o : Outcome ext tag_type =
        finished ext tag_type
          (record four { msg_seq_num = self.msg_seq_num; fields = gs }, skip b3 all) b.start in
      (
        o,
        rw (some_bytes, checks, parsed) refl,
        record {
          success = refl;
          type = refl;
          begin_string = value-At b (decimal 8) self.begin_string _ 8 h1;
          msg_type = type_at;
          body_length = sym (length_lem ext tag_type law self c);
          msg_seq_num = refl;
          fields = same;
          remains = skip-Holds b3 _ rest h3;
        },
      )

  -- What fix_message_unparse leaves in two empty buffers with room for it, the head first, is taken off the
  -- front of a buffer by fix_message_parse, with a dialect that takes the header's tags for what they are, if
  -- the message is of a known type, has a sequence number below 2^31, a begin string without SOH, a
  -- body of at most 1280 bytes and, with sender, target and time, at most 48 fields. Each of them is an
  -- integer, a character or a string, with a tag below 2^32 that has that type in the dialect, and no
  -- character of it is SOH; a field of type float, checksum or string_8 is not allowed. Then the parser finds the
  -- type, or none where the flags ask for none, the sequence number and all these fields, each with its tag
  -- and value, and leaves what lies behind. The values are of
  -- their C types, with strings of bytes, and sprintf prints numbers as its documentation says.
  pub fix_message_parse-fix_message_unparse :
      (head_buf body_buf : Buffer) (m : Message ℕ D) (flags : Flags)
      → IsSendable ext self
      → Holds head_buf []
      → Holds body_buf []
      → length (head_text ext self) ≤ buffer_remaining head_buf
      → length (body_text ext self) + 7 ≤ buffer_remaining body_buf
      → Holds b (
          contents (fix_message_unparse ext self head_buf body_buf).0
          ++ (contents (fix_message_unparse ext self head_buf body_buf).1 ++ rest))
      → (o : Outcome ext tag_type) × (fix_message_parse ext tag_type m b flags ≡ done o)
        × IsReceived ext tag_type law self flags b rest o
  fix_message_parse-fix_message_unparse head_buf body_buf m flags sendable empty empty' head_room
        body_room h =
      let (head, body) =
        fix_message_unparse-Holds ext self head_buf body_buf sendable empty empty' head_room
          body_room in
      let e : contents (fix_message_unparse ext self head_buf body_buf).1 ++ rest
          ≡ body_text ext self ++ (checksum_text ext self ++ rest) =
        ap (λ (xs : List ℕ). xs ++ rest) body.reads
        ∙ append_assoc (body_text ext self) (checksum_text ext self) rest in
      parse-Received m flags (rw (head.reads, e) at h)
