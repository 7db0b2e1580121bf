-- ===== src/Fix/Protocol.antt =====
-- The session protocol of tools/fix/fix_common.c: what is sent for heartbeats, test requests, gaps and sequence
-- resets, fix_do_unexpected, fix_session_admin and fix_session_keepalive. fix_session_logout, which waits for
-- its answer, is an argument.
pub mod Numbers
pub mod Alive
mod Tests
use libtrading.Base.{
  ℕ, zero, suc, ◌+◌, ◌-◌, ◌*◌, ◌%◌, ◌^◌, Bool, true, false, ◌&&◌, ◌||◌, not, List, [], ◌∷◌, ◌++◌,
  length, get_or, c_string, Option, none, some, ltb, leb, ◌==◌, if◌then◌else◌, add64, sub64, int_of,
  is_negative,
}
use libtrading.Buffer.Contents.{window}
use libtrading.Itoa.{Memory}
use libtrading.Fix.Kind.{
  MsgType, heartbeat, test_request, resend_request, reject, sequence_reset, new_order_single,
  order_cancel_request, order_cancel_replace, execution_report,
}
use libtrading.Fix.Field.{FieldType, Value, int_value, string_value, Field, Externals}
use libtrading.Fix.Message.{Message, fix_get_field, string_field, int_field}
use libtrading.Fix.Text.{fix_get_string}
use libtrading.Fix.Session.{
  Session, Timespec, SendFlags, fix_session_send, fix_msg_expected, stamped,
}

-- Texts that snprintf makes of the numbers it is given, and what reading `int_value` and `string_value` of a
-- field gives that stores another member.
pub record Formats (D : Type 0) : Type 0 where
  pub too_low : ℕ → ℕ → List ℕ
  pub attempt_to_lower : ℕ → List ℕ
  pub incorrect : ℕ → List ℕ
  pub other_int : Value ℕ D → ℕ
  pub other_string : Value ℕ D → ℕ

-- `struct fix_session` with the members of its protocol; `old_version` is `dialect->version <= FIX_4_1`,
-- and `outbox` has the messages that were handed to fix_session_send, as they were stamped, the last first.
pub record Peer (D : Type 0) : Type 0 where
  pub session : Session D
  pub old_version : Bool
  pub heartbtint : ℕ
  pub testreqid : List ℕ
  pub tr_timestamp : Timespec
  pub tr_pending : Bool
  pub outbox : List (Message (List ℕ) D)

abbrev pub poss_dup_flag : ℕ
poss_dup_flag = 43

abbrev pub begin_seq_no : ℕ
begin_seq_no = 7

abbrev pub end_seq_no : ℕ
end_seq_no = 16

abbrev pub new_seq_no : ℕ
new_seq_no = 36

abbrev pub ref_seq_num : ℕ
ref_seq_num = 45

abbrev pub text_tag : ℕ
text_tag = 58

abbrev pub test_req_id : ℕ
test_req_id = 112

abbrev pub gap_fill_flag : ℕ
gap_fill_flag = 123

abbrev pub no_flags : SendFlags
no_flags = record { preserve_msg_num = false; preserve_buffer = false }

abbrev pub preserve_msg_num : SendFlags
preserve_msg_num = record { preserve_msg_num = true; preserve_buffer = false }

-- A message of which the type, the number and the fields are given.
abbrev pub to_send : {D : Type 0} → MsgType → ℕ → List (Field (List ℕ) D) → Message (List ℕ) D
to_send type number fields = record {
  type = type;
  begin_string = [];
  body_length = 0;
  msg_type = [];
  sender_comp_id = [];
  target_comp_id = [];
  msg_seq_num = number;
  check_sum = [];
  str_now = [];
  fields = fields;
}

-- "Y"
abbrev pub yes_text : List ℕ
yes_text = b'Y' ∷ []

-- `strncmp(p, s, strlen(s)) == 0` for an address `p` in memory.
abbrev pub starts_with : Memory → ℕ → List ℕ → Bool
starts_with f p [] = true
starts_with f p (c ∷ cs) = (f p % 256 == c) && starts_with f (p + 1) cs

-- `now->tv_sec - then.tv_sec` as an int, or 0 where that is negative: it is only compared with numbers that
-- are not.
abbrev pub elapsed : Timespec → Timespec → ℕ
elapsed now before =
    let diff = int_of (sub64 now.tv_sec before.tv_sec) in if is_negative diff then 0 else diff

abbrev pub with_number : {D : Type 0} → Peer D → ℕ → Peer D
with_number self n = record self { session = record (self.session) { in_msg_seq_num = n } }

-- `in_msg_seq_num--`
abbrev pub uncounted : {D : Type 0} → Peer D → Peer D
uncounted self = with_number self (sub64 self.session.in_msg_seq_num 1)

module _ {D : Type 0} (ext : Externals D) (io_sendmsg : List ℕ → ℕ) where
  unfoldable pub send : Peer D → Message (List ℕ) D → SendFlags → Peer D
  send self msg flags = record self {
    session = (fix_session_send ext io_sendmsg self.session msg flags).1;
    outbox = stamped ext self.session msg flags ∷ self.outbox;
  }

  abbrev pub fix_session_heartbeat : Peer D → Option (List ℕ) → Peer D
  fix_session_heartbeat self none = send self (to_send heartbeat 0 []) no_flags
  fix_session_heartbeat self (some id) =
      send self (to_send heartbeat 0 (string_field ext test_req_id id ∷ [])) no_flags

  -- `testreqid` has the characters of `str_now`, which is as long.
  abbrev pub fix_session_test_request : Peer D → Peer D
  fix_session_test_request self =
      send
        (record self {
          testreqid = self.session.str_now;
          tr_timestamp = self.session.now;
          tr_pending = true;
        })
        (to_send test_request 0 (string_field ext test_req_id self.session.str_now ∷ [])) no_flags

  abbrev pub fix_session_resend_request : Peer D → ℕ → ℕ → Peer D
  fix_session_resend_request self bgn end =
      send self
        (to_send resend_request 0
          (int_field ext begin_seq_no bgn ∷ int_field ext end_seq_no end ∷ []))
        no_flags

  abbrev pub fix_session_reject : Peer D → ℕ → List ℕ → Peer D
  fix_session_reject self refseqnum text =
      send self
        (to_send reject 0
          (int_field ext ref_seq_num refseqnum ∷ string_field ext text_tag text ∷ []))
        no_flags

  abbrev pub fix_session_sequence_reset : Peer D → ℕ → ℕ → Bool → Peer D
  fix_session_sequence_reset self number next gap_fill =
      let gap = string_field ext gap_fill_flag yes_text ∷ [] in
      send self
        (to_send sequence_reset number
          (int_field ext new_seq_no next ∷ (if gap_fill then gap else [])))
        preserve_msg_num

  abbrev pub fix_session_new_order_single : Peer D → List (Field (List ℕ) D) → Peer D
  fix_session_new_order_single self fields = send self (to_send new_order_single 0 fields) no_flags

  abbrev pub fix_session_order_cancel_request : Peer D → List (Field (List ℕ) D) → Peer D
  fix_session_order_cancel_request self fields =
      send self (to_send order_cancel_request 0 fields) no_flags

  abbrev pub fix_session_order_cancel_replace : Peer D → List (Field (List ℕ) D) → Peer D
  fix_session_order_cancel_replace self fields =
      send self (to_send order_cancel_replace 0 fields) no_flags

  abbrev pub fix_session_execution_report : Peer D → List (Field (List ℕ) D) → Peer D
  fix_session_execution_report self fields = send self (to_send execution_report 0 fields) no_flags

  unfoldable pub fix_session_keepalive : Peer D → Timespec → Bool × Peer D
  unfolding send
  fix_session_keepalive self now =
      let asked =
        if ltb (12 * self.heartbtint) (10 * elapsed now self.session.rx_timestamp)
        then fix_session_test_request self
        else self in
      let ready = if self.tr_pending then self else asked in
      let beaten =
        if ltb ready.heartbtint (elapsed now ready.session.tx_timestamp)
        then fix_session_heartbeat ready none
        else ready in
      if self.tr_pending && ltb self.heartbtint (2 * elapsed now self.tr_timestamp)
      then (false, self)
      else (true, beaten)

  module _ (formats : Formats D) (logout : Peer D → List ℕ → Peer D) where
    abbrev pub int_of_field : Field ℕ D → ℕ
    int_of_field f = elim f.value [ int_value n ↦ n | v ↦ formats.other_int v ]

    abbrev pub string_of_field : Field ℕ D → ℕ
    string_of_field f = elim f.value [ string_value p ↦ p | v ↦ formats.other_string v ]

    abbrev pub has_field : Message ℕ D → ℕ → Bool
    has_field msg tag = elim (fix_get_field msg tag) [ some f ↦ true | none ↦ false ]

    -- A number below the one that is expected.
    abbrev pub too_low_number : Peer D → Message ℕ D → ℕ → Peer D
    too_low_number self msg expected =
        if has_field msg poss_dup_flag
        then uncounted self
        else logout (uncounted self) (formats.too_low expected msg.msg_seq_num)

    -- Callers on a logout but fix_session_logon do not look at the result.
    unfoldable pub fix_do_unexpected : Peer D → Message ℕ D → Peer D
    unfolding send
    fix_do_unexpected self msg =
        let expected = self.session.in_msg_seq_num in
        if ltb expected msg.msg_seq_num
        then uncounted
            (fix_session_resend_request self expected (if self.old_version then 999999 else 0))
        else if ltb msg.msg_seq_num expected
        then too_low_number self msg expected
        else self

    abbrev pub memory : Peer D → Memory
    memory self = self.session.rx_buffer.bytes

    -- FIX_MSG_TYPE_HEARTBEAT
    abbrev pub on_heartbeat : Peer D → Option (Field ℕ D) → Peer D
    on_heartbeat self none = self
    on_heartbeat self (some f) =
        if starts_with (memory self) (string_of_field f) self.testreqid
        then record self { tr_pending = false }
        else self

    -- `char id[128] = "TestReqID"`
    abbrev pub id_array : Memory
    id_array i = get_or (b'T' ∷ b'e' ∷ b's' ∷ b't' ∷ b'R' ∷ b'e' ∷ b'q' ∷ b'I' ∷ b'D' ∷ []) i 0

    abbrev pub id_text : Option Memory → List ℕ
    id_text none = c_string (window id_array 0 128)
    id_text (some m) = c_string (window m 0 128)

    -- FIX_MSG_TYPE_TEST_REQUEST
    abbrev pub on_test_request : Peer D → Option (Field ℕ D) → Peer D
    on_test_request self none = fix_session_heartbeat self (some (id_text none))
    on_test_request self (some f) =
        fix_session_heartbeat self
          (some (id_text (fix_get_string (memory self) (string_of_field f) id_array 0 128)))

    -- FIX_MSG_TYPE_RESEND_REQUEST, on BeginSeqNo and EndSeqNo.
    abbrev pub on_resend_request : Peer D → Option (Field ℕ D) → Option (Field ℕ D) → Bool × Peer D
    on_resend_request self (some begin') (some end) = (
      true,
      fix_session_sequence_reset self (int_of_field begin') (add64 (int_of_field end) 1) true,
    )
    on_resend_request self _ _ = (false, self)

    -- A gap fill, on its NewSeqNo.
    abbrev pub on_gap_fill : Peer D → Message ℕ D → Option (Field ℕ D) → Peer D
    on_gap_fill self msg none = self
    on_gap_fill self msg (some f) =
        let expected = self.session.in_msg_seq_num in
        let next = int_of_field f in
        if ltb expected msg.msg_seq_num
        then uncounted (fix_session_resend_request self expected msg.msg_seq_num)
        else if ltb msg.msg_seq_num expected
        then too_low_number self msg expected
        else if ltb msg.msg_seq_num next
        then with_number self (sub64 next 1)
        else fix_session_reject self msg.msg_seq_num (formats.attempt_to_lower next)

    -- A reset, on its NewSeqNo.
    abbrev pub on_reset : Peer D → Option (Field ℕ D) → Peer D
    on_reset self none = self
    on_reset self (some f) =
        let expected = self.session.in_msg_seq_num in
        let next = int_of_field f in
        if ltb expected next
        then with_number self (sub64 next 1)
        else if ltb next expected
        then fix_session_reject (uncounted self) expected (formats.incorrect next)
        else self

    abbrev pub says_yes : Peer D → Option (Field ℕ D) → Bool
    says_yes self none = false
    says_yes self (some f) = starts_with (memory self) (string_of_field f) yes_text

    -- FIX_MSG_TYPE_SEQUENCE_RESET
    abbrev pub on_sequence_reset : Peer D → Message ℕ D → Peer D
    on_sequence_reset self msg =
        let next = fix_get_field msg new_seq_no in
        if says_yes self (fix_get_field msg gap_fill_flag)
        then on_gap_fill self msg next
        else on_reset self next

    -- The `switch (msg->type)`.
    abbrev pub on_expected : MsgType → Peer D → Message ℕ D → Bool × Peer D
    on_expected heartbeat self msg = (true, on_heartbeat self (fix_get_field msg test_req_id))
    on_expected test_request self msg = (true, on_test_request self (fix_get_field msg test_req_id))
    on_expected resend_request self msg =
        on_resend_request self (fix_get_field msg begin_seq_no) (fix_get_field msg end_seq_no)
    on_expected sequence_reset self msg = (true, on_sequence_reset self msg)
    on_expected _ self msg = (false, self)

    -- Whether the message is handled.
    unfoldable pub fix_session_admin : Peer D → Message ℕ D → Bool × Peer D
    unfolding fix_do_unexpected
    fix_session_admin self msg =
        if fix_msg_expected self.session msg
        then on_expected msg.type self msg
        else (true, fix_do_unexpected self msg)
