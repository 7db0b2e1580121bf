-- ===== src/Fix/Session/Delivery.antt =====
-- A message from fix_session_send to fix_session_recv.
use libtrading.Base.{
  ℕ, zero, suc, ◌+◌, ◌-◌, ◌%◌, ◌^◌, ◌≤◌, ◌<◌, ◌≡◌, refl, sym, ap, ◌∙◌, true, false, List, [], ◌∷◌,
  ◌++◌, append_assoc, length, length-append, some, arith, add64, c_string, take, ltb, leb, lt→ltb,
  ◌==◌, ==_iff,
}
use mathlib.Core.Path.{subst}
use libtrading.Buffer.{
  Buffer, IsValid, buffer_remaining, buffer_size, buffer_advance, buffer_reset, buffer_put,
}
use libtrading.Buffer.Contents.{Holds, contents, window, buffer_size-length}
use libtrading.Itoa.Signed.{PrintsNumbers}
use libtrading.Fix.Field.{
  FieldType, Field, Externals, Value, int_value, float_value, char_value, string_value,
  checksum_value, no_value, string_8_value, put_all, unparse_value, fix_field_unparse,
}
use libtrading.Fix.Field.Written.{put_all-Appends}
use libtrading.Fix.Message.{
  Message, Outcome, Flags, done, unparse_all, body_fields, head_fields, fix_message_unparse,
  fix_message_parse, parse_rounds, fix_max_message_size,
}
use libtrading.Fix.Message.Unparsed.{
  sum_of, length-checksum_bytes, checksum_text, head_text, body_text, IsSendable,
  fix_message_unparse-Holds,
}
use libtrading.Fix.Message.Conveyed.{IsDialect, IsConveyable, IsReceived}
use libtrading.Fix.Message.RoundTrip.{fix_message_parse-fix_message_unparse}
use libtrading.Fix.Session.{
  Session, SendFlags, RecvFlags, Reply, bytes, buffer_to_iovec, buffer_recv, recv_count, Sent,
  fix_message_send, fix_session_send, stamped, fix_session_buffer_full, message, try_parse, answer,
  behind_recv, receive_more, fix_session_recv, success,
}
use libtrading.Fix.Session.Receiving.{Serves, counted}

abbrev pub no_flags : SendFlags
no_flags = record { preserve_msg_num = false; preserve_buffer = false }

buffer_reset-Holds : (b : Buffer) → IsValid b → Holds (buffer_reset b) []
unfolding buffer_reset
buffer_reset-Holds b v = record {
  valid = record { ordered = omega arith; bounded = omega arith; addressable = v.addressable };
  reads = refl;
}

room : {n : ℕ} (b : Buffer) → IsValid b → n ≤ b.capacity → n ≤ buffer_remaining (buffer_reset b)
room b v h = unfold buffer_remaining in unfold buffer_reset in omega (arith, v.addressable, h)

-- Writing leaves the start alone.
start-put_all : (cs : List ℕ) (b : Buffer) → (put_all cs b).start ≡ b.start
unfolding put_all buffer_put
start-put_all [] b = refl
start-put_all (c ∷ cs) b = start-put_all cs (buffer_put b c)

module _ {D : Type 0} (ext : Externals D) where
  start-unparse_value :
      (v : Value (List ℕ) D) (b : Buffer) → (unparse_value ext v b).start ≡ b.start
  unfolding unparse_value buffer_put
  start-unparse_value (int_value n) b = refl
  start-unparse_value (float_value x) b = refl
  start-unparse_value (char_value c) b = refl
  start-unparse_value (string_value cs) b = start-put_all cs b
  start-unparse_value (checksum_value n) b = refl
  start-unparse_value no_value b = refl
  start-unparse_value (string_8_value cs) b = start-put_all (c_string (take 8 cs)) b

  start-fix_field_unparse :
      (f : Field (List ℕ) D) (b : Buffer) → (fix_field_unparse ext f b).start ≡ b.start
  unfolding fix_field_unparse buffer_put
  start-fix_field_unparse f b = start-unparse_value f.value _

  start-unparse_all :
      (fs : List (Field (List ℕ) D)) (b : Buffer) → (unparse_all ext fs b).start ≡ b.start
  unfolding unparse_all
  start-unparse_all [] b = refl
  start-unparse_all (f ∷ fs) b =
      start-unparse_all fs (fix_field_unparse ext f b) ∙ start-fix_field_unparse f b

  start-fix_message_unparse :
      (self : Message (List ℕ) D) (head_buf body_buf : Buffer)
      → ((fix_message_unparse ext self head_buf body_buf).0.start ≡ head_buf.start)
        × ((fix_message_unparse ext self head_buf body_buf).1.start ≡ body_buf.start)
  unfolding fix_message_unparse
  start-fix_message_unparse self head_buf body_buf = (
    start-unparse_all
        (head_fields ext self (buffer_size (unparse_all ext (body_fields ext self) body_buf)))
        head_buf,
    start-fix_field_unparse _ (unparse_all ext (body_fields ext self) body_buf)
        ∙ start-unparse_all (body_fields ext self) body_buf,
  )

-- Of a buffer that starts at 0 all that is held goes out.
buffer_to_iovec-contents : (b : Buffer) → b.start ≡ 0 → buffer_to_iovec b ≡ contents b
buffer_to_iovec-contents b e =
    ap (λ (i : ℕ). window b.bytes i b.end) (sym e) ∙ ap (window b.bytes b.start) (omega (arith, e))

-- An attempt on an empty buffer changes nothing.
try_parse-empty :
    {D : Type 0} (ext : Externals D) (tag_type : ℕ → FieldType) (self : Session D)
    (flags : RecvFlags)
    → Holds self.rx_buffer []
    → try_parse ext tag_type self flags ≡ done (false, self)
unfolding try_parse fix_message_parse parse_rounds buffer_advance
try_parse-empty ext tag_type self flags h =
    let size : (buffer_size self.rx_buffer == 0) ≡ true =
      (==_iff (buffer_size self.rx_buffer) 0).1 (buffer_size-length [] h) in
    let v = h.valid in
    let e : (self.rx_buffer.start + (self.rx_buffer.start + 2 ^ 64 - self.rx_buffer.start) % 2 ^ 64)
          % 2 ^ 64
        ≡ self.rx_buffer.start =
      omega (arith, v.ordered, v.bounded, v.addressable) in
    rw size (
      ap
        (λ (i : ℕ). done (false, record self { rx_buffer = record (self.rx_buffer) { start = i } }))
        e)

module _ {D : Type 0} (ext : Externals D) (tag_type : ℕ → FieldType) (flags : RecvFlags) where
  try_parse-found :
      (self : Session D) (o : Outcome ext tag_type)
      → fix_message_parse ext tag_type self.rx_message self.rx_buffer flags.parse ≡ done o
      → o.success ≡ true
      → try_parse ext tag_type self flags
        ≡ done (
          true,
          record self {
            rx_message = o.self;
            rx_buffer = o.buffer;
            rx_timestamp = self.now;
            in_msg_seq_num = counted self flags message;
          },
        )
  unfolding try_parse
  try_parse-found self o e found = rw (e, found) refl

  behind_recv-some :
      (self : Session D) (n : ℕ) (b : Buffer)
      → 0 < n
      → behind_recv ext tag_type self flags (some n, b)
        ≡ answer ext tag_type (try_parse ext tag_type (record self { rx_buffer = b }) flags)
  behind_recv-some self zero b h = absurd (omega arith)
  behind_recv-some self (suc n) b h = refl

module _ {D : Type 0} (ext : Externals D) (tag_type : ℕ → FieldType)
    (law : PrintsNumbers ext.sprintf) (dialect : IsDialect tag_type) (io_sendmsg : List ℕ → ℕ)
    (sender : Session D) (msg : Message (List ℕ) D) where
  abbrev pub sent : Sent ext
  sent = (fix_session_send ext io_sendmsg sender msg no_flags).0

  -- The message that goes out, and a session that can send it.
  abbrev pub sent_message : Message (List ℕ) D
  sent_message = stamped ext sender msg no_flags

  pub record CanSend : Type 0 where
    pub conveyable : IsConveyable ext tag_type law sent_message
    pub sendable : IsSendable ext sent_message
    pub head_valid : IsValid sender.tx_head_buffer
    pub body_valid : IsValid sender.tx_body_buffer
    pub head_room : length (head_text ext sent_message) ≤ sender.tx_head_buffer.capacity
    pub body_room : length (body_text ext sent_message) + 7 ≤ sender.tx_body_buffer.capacity

  -- The buffer that holds what arrives.
  abbrev pub filled : Session D → List ℕ → Buffer
  filled receiver rest = put_all (sent.wire ++ rest) receiver.rx_buffer

  abbrev written : Buffer × Buffer
  written =
      fix_message_unparse ext sent_message (buffer_reset sender.tx_head_buffer)
        (buffer_reset sender.tx_body_buffer)

  wire_bytes : sent.wire ≡ contents written.0 ++ contents written.1
  unfolding fix_session_send fix_message_send buffer_reset
  wire_bytes =
      let (head, body) =
        start-fix_message_unparse ext sent_message (buffer_reset sender.tx_head_buffer)
          (buffer_reset sender.tx_body_buffer) in
      rw (buffer_to_iovec-contents written.0 head, buffer_to_iovec-contents written.1 body) refl

  parse-filled :
      (c : CanSend) (receiver : Session D) (m : Message ℕ D) (flags : Flags) (rest : List ℕ)
      → Holds (filled receiver rest) (sent.wire ++ rest)
      → (o : Outcome ext tag_type) × (fix_message_parse ext tag_type m (filled receiver rest) flags
          ≡ done o)
        × IsReceived ext tag_type law sent_message flags (filled receiver rest) rest o
  parse-filled c receiver m flags rest h =
      fix_message_parse-fix_message_unparse ext tag_type law dialect sent_message c.conveyable
        (filled receiver rest) rest (buffer_reset sender.tx_head_buffer)
        (buffer_reset sender.tx_body_buffer) m flags c.sendable
        (buffer_reset-Holds sender.tx_head_buffer c.head_valid)
        (buffer_reset-Holds sender.tx_body_buffer c.body_valid)
        (room sender.tx_head_buffer c.head_valid c.head_room)
        (room sender.tx_body_buffer c.body_valid c.body_room)
        (subst (λ (xs : List ℕ). Holds (filled receiver rest) xs)
          (ap (λ (xs : List ℕ). xs ++ rest) wire_bytes
            ∙ append_assoc (contents written.0) (contents written.1) rest)
          h)

  -- The bytes that go out.
  pub wire-text :
      CanSend
      → sent.wire
        ≡ head_text ext sent_message
          ++ (body_text ext sent_message ++ checksum_text ext sent_message)
  wire-text c =
      let (head, body) =
        fix_message_unparse-Holds ext sent_message (buffer_reset sender.tx_head_buffer)
          (buffer_reset sender.tx_body_buffer) c.sendable
          (buffer_reset-Holds sender.tx_head_buffer c.head_valid)
          (buffer_reset-Holds sender.tx_body_buffer c.body_valid)
          (room sender.tx_head_buffer c.head_valid c.head_room)
          (room sender.tx_body_buffer c.body_valid c.body_room) in
      wire_bytes
      ∙ ap (λ (xs : List ℕ). xs ++ contents written.1) head.reads
      ∙ ap (λ (xs : List ℕ). head_text ext sent_message ++ xs) body.reads

  some_bytes : CanSend → 0 < length sent.wire
  some_bytes c = omega (
    arith,
    ap length (wire-text c),
    length-append (head_text ext sent_message)
        (body_text ext sent_message ++ checksum_text ext sent_message),
    length-append (body_text ext sent_message) (checksum_text ext sent_message),
    length-checksum_bytes (sum_of ext sent_message),
  )

  -- The session that has received it.
  abbrev pub received_by : Session D → RecvFlags → Outcome ext tag_type → Session D
  received_by receiver flags o = record receiver {
    rx_message = o.self;
    rx_buffer = o.buffer;
    rx_timestamp = receiver.now;
    in_msg_seq_num = counted receiver flags message;
    failure_reason = success;
  }

  -- What fix_session_send hands to the socket with no flags set, fix_session_recv finds as a message in an
  -- empty receive buffer with room for it and for 1280 bytes more, with any bytes behind it: the message that the
  -- session has stamped with its names and its number. That holds for a stamped message of a known type with
  -- a sequence number below 2^31, a begin string without SOH, a body of at most 1280 bytes and,
  -- with sender, target and time, at most 48 fields, each of them an integer, a character or a string whose tag,
  -- below 2^32, has that type in the dialect and that has no SOH; no field is of type float, checksum or string_8.
  -- The values are of their C types, with strings of bytes, the buffers of the sender are valid and have room for
  -- it, io_recv hands it over in one call, and sprintf prints numbers as
  -- its documentation says. The number of the sender has gone up by one, and so has the one that the
  -- receiver expects, if the flags do not keep it; the bytes behind the message stay unread.
  pub fix_session_recv-fix_session_send :
      (receiver : Session D) (flags : RecvFlags) (io_recv : ℕ → Reply) (rest : List ℕ)
      → CanSend
      → Holds receiver.rx_buffer []
      → fix_max_message_size < buffer_remaining receiver.rx_buffer
      → io_recv (buffer_remaining receiver.rx_buffer - fix_max_message_size)
        ≡ bytes (sent.wire ++ rest)
      → Serves
          (buffer_remaining receiver.rx_buffer - fix_max_message_size)
          (bytes (sent.wire ++ rest))
      → (o : Outcome ext tag_type) × (fix_session_recv ext tag_type io_recv receiver flags
          ≡ done (message, received_by receiver flags o))
        × IsReceived ext tag_type law sent_message flags.parse (filled receiver rest) rest o
        × ((fix_session_send ext io_sendmsg sender msg no_flags).1.out_msg_seq_num
            ≡ add64 sender.out_msg_seq_num 1)
  unfolding fix_session_recv receive_more fix_session_buffer_full buffer_recv fix_session_send
  fix_session_recv-fix_session_send receiver flags io_recv rest c empty spare arrives
        (short, chars) =
      let ready : Session D = record receiver { failure_reason = success } in
      let grown =
        put_all-Appends (sent.wire ++ rest) receiver.rx_buffer [] empty chars
          (omega (arith, short)) in
      let (o, e, is) = parse-filled c receiver ready.rx_message flags.parse rest grown.holds in
      let free : leb (buffer_remaining receiver.rx_buffer) fix_max_message_size ≡ false =
        ground (arith, spare) in
      let space : ltb fix_max_message_size (buffer_remaining receiver.rx_buffer) ≡ true =
        lt→ltb _ _ spare in
      let asks : recv_count receiver.rx_buffer
            (buffer_remaining receiver.rx_buffer - fix_max_message_size)
          ≡ buffer_remaining receiver.rx_buffer - fix_max_message_size =
        ground (arith, spare) in
      let held : 0 < length (sent.wire ++ rest) =
        omega (arith, some_bytes c, length-append sent.wire rest) in
      (
        o,
        rw
            (
              try_parse-empty ext tag_type ready flags empty,
              free,
              space,
              asks,
              arrives,
              behind_recv-some ext tag_type flags ready (length (sent.wire ++ rest))
                  (filled receiver rest) held,
              try_parse-found ext tag_type flags (record ready { rx_buffer = filled receiver rest })
                  o e is.success,
            )
            refl,
        is,
        refl,
      )
