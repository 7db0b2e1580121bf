-- ===== src/Fix/Message.antt =====
-- `struct fix_message`, fix_message_unparse and fix_message_parse of lib/proto/fix_message.c.
-- In a message that is parsed a pointer to a string is an offset into the buffer, and in one that is
-- unparsed it is the characters of the string.
pub mod Unparsed
pub mod Typed
pub mod Rest
pub mod Checked
pub mod Conveyed
pub mod Steps
pub mod Returns
pub mod RoundTrip
pub mod Sum
pub mod Tests
use libtrading.Base.{
  ℕ, zero, suc, ◌+◌, ◌-◌, ◌%◌, ◌^◌, Bool, true, false, ◌||◌, List, [], ◌∷◌, ◌++◌, Option, none,
  some, ltb, leb, ◌==◌, if◌then◌else◌, add64, sub64, int_of, take, length,
}
use libtrading.Buffer.{Buffer, buffer_size, buffer_advance, buffer_sum, buffer_sum_range}
use libtrading.Fix.Scan.{
  State, ok, partial, garbled, soh, readable, fix_uatoi, fix_atoi64, match_field, parse_field,
}
use libtrading.Fix.Kind.{MsgType, unknown, fix_msg_types, fix_msg_type_parse}
use libtrading.Fix.Field.{
  FieldType, int, float, char, string, checksum, msg_seq_num, string_8, Value, int_value,
  float_value, char_value, string_value, checksum_value, Field, Externals, fix_field_unparse,
}

-- `fields` holds the first `nr_fields` elements of the array.
pub record Message (S D : Type 0) : Type 0 where
  pub type : MsgType
  pub begin_string : S
  pub body_length : ℕ
  pub msg_type : S
  pub sender_comp_id : S
  pub target_comp_id : S
  pub msg_seq_num : ℕ
  pub check_sum : S
  pub str_now : S
  pub fields : List (Field S D)

abbrev pub is_unknown : MsgType → Bool
is_unknown unknown = true
is_unknown _ = false

abbrev pub fix_max_message_size : ℕ
fix_max_message_size = 1280

abbrev pub fix_max_field_number : ℕ
fix_max_field_number = 48

module _ {S D : Type 0} where
  unfoldable pub fix_message_add_field : Message S D → Field S D → Message S D
  fix_message_add_field self f =
      if ltb (length self.fields) fix_max_field_number
      then record self { fields = self.fields ++ (f ∷ []) }
      else self

  -- The first field of that tag.
  pub fix_get_field_in : List (Field S D) → ℕ → Option (Field S D)
  fix_get_field_in [] tag = none
  fix_get_field_in (f ∷ fs) tag = if f.tag == tag then some f else fix_get_field_in fs tag

  unfoldable pub fix_get_field : Message S D → ℕ → Option (Field S D)
  unfolding fix_get_field_in
  fix_get_field self tag = fix_get_field_in self.fields tag

module _ {D : Type 0} (ext : Externals D) where
  abbrev pub string_field : ℕ → List ℕ → Field (List ℕ) D
  string_field t s = record { tag = t; value = string_value s }

  abbrev pub int_field : ℕ → ℕ → Field (List ℕ) D
  int_field t n = record { tag = t; value = int_value n }

  unfoldable pub unparse_all : List (Field (List ℕ) D) → Buffer → Buffer
  unparse_all [] b = b
  unparse_all (f ∷ fs) b = unparse_all fs (fix_field_unparse ext f b)

  -- The standard header, and the fields of the body behind it. `buf` takes 64 characters of the time.
  abbrev pub body_fields : Message (List ℕ) D → List (Field (List ℕ) D)
  body_fields self =
      string_field 35 (if is_unknown self.type then self.msg_type else fix_msg_types self.type)
      ∷ string_field 49 self.sender_comp_id
      ∷ string_field 56 self.target_comp_id
      ∷ int_field 34 self.msg_seq_num
      ∷ string_field 52 (take 64 self.str_now)
      ∷ self.fields

  abbrev pub head_fields : Message (List ℕ) D → ℕ → List (Field (List ℕ) D)
  head_fields self len = string_field 8 self.begin_string ∷ int_field 9 len ∷ []

  -- On `self->head_buf` and `self->body_buf`.
  unfoldable pub fix_message_unparse : Message (List ℕ) D → Buffer → Buffer → Buffer × Buffer
  unfolding unparse_all
  fix_message_unparse self head_buf body_buf =
      let body = unparse_all (body_fields self) body_buf in
      let head = unparse_all (head_fields self (buffer_size body)) head_buf in
      let cksum = add64 (buffer_sum head) (buffer_sum body) in
      (head, fix_field_unparse ext (record { tag = 10; value = checksum_value (cksum % 256) }) body)

-- `enum fix_parse_flag`
pub record Flags : Type 0 where
  pub no_csum : Bool
  pub no_type : Bool

-- `len <= 0 || len > FIX_MAX_MESSAGE_SIZE`
abbrev pub bad_length : ℕ → Bool
bad_length len = len == 0 || leb (2 ^ 31) len || ltb fix_max_message_size (int_of len)

-- What becomes of a loop that is given a count of rounds: its result, a write behind the array of the fields, of
-- which C says nothing, or a loop that is not over after that many rounds.
pub data Run (A : Type 0) : Type 0 where
  done : A → Run A
  overrun unfinished : Run A

-- What a call on a message that is being parsed returns, with the message and the buffer behind it.
abbrev pub Step : Type 0 → Type 0
Step D = State (Unit {0}) × Message ℕ D × Buffer

module _ {D : Type 0} where
  -- Behind a match_field: a value that is found is stored and looked at.
  abbrev pub on_value : Message ℕ D → State ℕ × Buffer → (ℕ → Buffer → Step D) → Step D
  on_value self (ok p, b) next = next p b
  on_value self (partial, b) next = (partial, self, b)
  on_value self (garbled, b) next = (garbled, self, b)

  -- `if (ret) goto exit;`
  abbrev pub and_then : Step D → (Message ℕ D → Buffer → Step D) → Step D
  and_then (ok _, self, b) next = next self b
  and_then (partial, self, b) next = (partial, self, b)
  and_then (garbled, self, b) next = (garbled, self, b)

  unfoldable pub parse_begin_string : Message ℕ D → Buffer → Step D
  parse_begin_string self b =
      on_value self (match_field b 8) (λ p b'. (ok tt, record self { begin_string = p }, b'))

  unfoldable pub parse_body_length : Message ℕ D → Buffer → Step D
  parse_body_length self b = on_value self (match_field b 9) (λ ptr b'.
      let len = (fix_uatoi (readable b' ptr) b'.bytes ptr).0 in
      (if bad_length len then garbled else ok tt, record self { body_length = int_of len }, b'))

  unfoldable pub parse_msg_type : Message ℕ D → Buffer → Flags → Step D
  parse_msg_type self b flags = on_value self (match_field b 35) (λ p b'.
      let t = fix_msg_type_parse b'.bytes p soh in
      if flags.no_type
      then (ok tt, record self { msg_type = p; type = unknown }, b')
      else (if is_unknown t then garbled else ok tt, record self { msg_type = p; type = t }, b'))

  unfoldable pub first_three_fields : Message ℕ D → Buffer → Flags → Step D
  first_three_fields self b flags = and_then (parse_begin_string self b) (λ self' b'.
      and_then (parse_body_length self' b') (λ self'' b''. parse_msg_type self'' b'' flags))

  unfoldable pub verify_checksum : Message ℕ D → Buffer → Bool
  verify_checksum self b =
      let cksum = (fix_uatoi (readable b self.check_sum) b.bytes self.check_sum).0 in
      let actual = buffer_sum_range b.bytes (sub64 self.begin_string 2) (sub64 self.check_sum 3) in
      actual == cksum

  -- `start - (self->msg_type - 3)` as an `int`.
  abbrev pub checksum_offset : Message ℕ D → Buffer → ℕ
  checksum_offset self b = int_of (sub64 b.start (sub64 self.msg_type 3))

  unfoldable pub checksum_step : Message ℕ D → Buffer → Flags → Step D
  checksum_step self b flags =
      let offset = checksum_offset self b in
      if ltb (add64 (buffer_size b) offset) (add64 self.body_length 7)
      then (partial, self, b)
      else if flags.no_csum
      then (ok tt, self, b)
      else on_value self (match_field (buffer_advance b (sub64 self.body_length offset)) 10)
          (λ p b'.
            let self' = record self { check_sum = p } in
            if verify_checksum self' b'
            then (ok tt, self', buffer_advance b' (sub64 b.start b'.start))
            else (garbled, self', b'))

module _ {D : Type 0} (ext : Externals D) (tag_type : ℕ → FieldType) where
  -- The `switch (type)` for the field with value at `p`: what it stores, or the end of the message.
  abbrev pub field_of : FieldType → Buffer → ℕ → ℕ → Option (Field ℕ D)
  field_of int b tag p =
      some (record { tag = tag; value = int_value (fix_atoi64 (readable b p) b.bytes p).0 })
  field_of float b tag p = some (record { tag = tag; value = float_value (ext.strtod b.bytes p) })
  field_of char b tag p = some (record { tag = tag; value = char_value (b.bytes p % 256) })
  field_of string b tag p = some (record { tag = tag; value = string_value p })
  field_of checksum b tag p = none
  field_of msg_seq_num b tag p = none
  field_of string_8 b tag p = none

  -- `self->fields[nr_fields++] = ...`, or none where that lies behind the array.
  abbrev pub stored : Option (Field ℕ D) → List (Field ℕ D) → Option (List (Field ℕ D))
  stored none fs = some fs
  stored (some f) fs = if ltb (length fs) fix_max_field_number then some (fs ++ (f ∷ [])) else none

  abbrev pub is_checksum : FieldType → Bool
  is_checksum checksum = true
  is_checksum _ = false

  abbrev pub is_seq_num : FieldType → Bool
  is_seq_num msg_seq_num = true
  is_seq_num _ = false

  -- The rounds behind one that has stored its field.
  abbrev pub go_on :
      (Message ℕ D → List (Field ℕ D) → Buffer → Run (Message ℕ D × Buffer))
      → Message ℕ D
      → Option (List (Field ℕ D))
      → Buffer
      → Run (Message ℕ D × Buffer)
  go_on next self none b = overrun
  go_on next self (some fs) b = next self fs b

  -- A round behind the `retry` label, with the rounds behind it as `next`; `fs` are the fields stored so
  -- far. A field that does not parse leaves `nr_fields` at 0.
  abbrev pub field_round :
      (Message ℕ D → List (Field ℕ D) → Buffer → Run (Message ℕ D × Buffer))
      → Message ℕ D
      → List (Field ℕ D)
      → State (ℕ × ℕ) × Buffer
      → Run (Message ℕ D × Buffer)
  field_round next self fs (ok (tag, p), b) =
      let t = tag_type tag in
      let seq = int_of (fix_uatoi (readable b p) b.bytes p).0 in
      if is_checksum t
      then done (record self { fields = fs }, b)
      else go_on next (if is_seq_num t then record self { msg_seq_num = seq } else self)
          (stored (field_of t b tag p) fs) b
  field_round next self fs (partial, b) = done (record self { fields = [] }, b)
  field_round next self fs (garbled, b) = done (record self { fields = [] }, b)

  unfoldable pub rest_loop :
      ℕ → Message ℕ D → List (Field ℕ D) → Buffer → Run (Message ℕ D × Buffer)
  rest_loop zero self fs b = unfinished
  rest_loop (suc rounds) self fs b = field_round (rest_loop rounds) self fs (parse_field b)

  -- Each round takes a byte.
  unfoldable pub rest_of_message : Message ℕ D → Buffer → Run (Message ℕ D × Buffer)
  rest_of_message self b = rest_loop (suc (buffer_size b)) self [] b

  -- The first three fields and the checksum.
  unfoldable pub check_message : Message ℕ D → Buffer → Flags → Step D
  check_message self b flags =
      and_then (first_three_fields self b flags) (λ self' b'. checksum_step self' b' flags)

  -- What fix_message_parse leaves: 0 or -1, the message, `iov[0]` where it is set, and the buffer.
  pub record Outcome : Type 0 where
    pub success : Bool
    pub self : Message ℕ D
    pub iov : Option (ℕ × ℕ)
    pub buffer : Buffer

  abbrev pub failed : Message ℕ D → ℕ → Buffer → Outcome
  failed self start b = record {
    success = false;
    self = self;
    iov = none;
    buffer = buffer_advance b (sub64 start b.start);
  }

  abbrev pub finished : Message ℕ D × Buffer → ℕ → Outcome
  finished r start = record {
    success = true;
    self = r.0;
    iov = some (start, sub64 r.1.start start);
    buffer = r.1;
  }

  abbrev pub finish : Run (Message ℕ D × Buffer) → ℕ → Run Outcome
  finish (done r) start = done (finished r start)
  finish overrun start = overrun
  finish unfinished start = unfinished

  -- Behind the checks of a round: `next` are the rounds behind it.
  abbrev pub checked : (Message ℕ D → Buffer → Run Outcome) → ℕ → Step D → Run Outcome
  checked next start (ok _, self, b) = finish (rest_of_message self b) start
  checked next start (partial, self, b) = done (failed self start b)
  checked next start (garbled, self, b) = next self b

  -- Behind the `retry` label, over the rounds that are left.
  unfoldable pub parse_rounds : ℕ → Message ℕ D → Buffer → Flags → Run Outcome
  parse_rounds zero self b flags = unfinished
  parse_rounds (suc rounds) self b flags =
      let next =
        checked (λ self' b'. parse_rounds rounds self' b' flags) b.start
          (check_message self b flags) in
      if buffer_size b == 0 then done (failed self b.start b) else next

  -- Each round that is followed by another takes a byte.
  unfoldable pub fix_message_parse : Message ℕ D → Buffer → Flags → Run Outcome
  fix_message_parse self b flags = parse_rounds (suc (buffer_size b)) self b flags
