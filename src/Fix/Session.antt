-- ===== src/Fix/Session.antt =====
-- `struct fix_session` with fix_session_send and fix_session_recv of lib/proto/fix_session.c, fix_message_send of
-- lib/proto/fix_message.c and buffer_recv of lib/buffer.c. What io_sendmsg and io_recv do is an argument.
pub mod Receiving
pub mod Delivery
mod Tests
use libtrading.Base.{
  ℕ, zero, suc, ◌+◌, ◌-◌, ◌%◌, ◌^◌, ◌≡◌, ◌≤◌, Bool, true, false, ◌&&◌, ◌||◌, not, List, [], ◌∷◌,
  ◌++◌, length, All, Option, none, some, ltb, leb, ◌==◌, if◌then◌else◌, add64, sub64,
}
use libtrading.Buffer.{Buffer, buffer_remaining, buffer_compact, buffer_reset}
use libtrading.Buffer.Contents.{window}
use libtrading.Fix.Kind.{MsgType, sequence_reset}
use libtrading.Fix.Field.{FieldType, Externals, put_all}
use libtrading.Fix.Message.{
  Message, Flags, Run, done, overrun, unfinished, Outcome, fix_max_message_size,
  fix_message_unparse, fix_message_parse,
}

-- `enum fix_failure_reason`
pub data FailureReason : Type 0 where
  success conn_closed recv_zero_b system garbled : FailureReason

pub record Timespec : Type 0 where
  pub tv_sec : ℕ
  pub tv_nsec : ℕ

-- The members that sending and receiving use.
pub record Session (D : Type 0) : Type 0 where
  pub begin_string : List ℕ
  pub sender_comp_id : List ℕ
  pub target_comp_id : List ℕ
  pub in_msg_seq_num : ℕ
  pub out_msg_seq_num : ℕ
  pub rx_buffer : Buffer
  pub tx_head_buffer : Buffer
  pub tx_body_buffer : Buffer
  pub rx_message : Message ℕ D
  pub now : Timespec
  pub str_now : List ℕ
  pub rx_timestamp : Timespec
  pub tx_timestamp : Timespec
  pub failure_reason : FailureReason

-- `enum fix_send_flag`
pub record SendFlags : Type 0 where
  pub preserve_msg_num : Bool
  pub preserve_buffer : Bool

-- `enum fix_recv_flag`, with the flags that go on to the parser.
pub record RecvFlags : Type 0 where
  pub keep_in_msg_seq_num : Bool
  pub parse : Flags

-- What io_recv returns: an error, or the bytes that it has stored, of which there are none at the end of the
-- connection. It is asked for at most so many bytes.
pub data Reply : Type 0 where
  error : Reply
  bytes : List ℕ → Reply

abbrev pub recv_stored : Buffer → Reply → Option ℕ × Buffer
recv_stored b error = (none, b)
recv_stored b (bytes cs) = (some (length cs), put_all cs b)

-- The bytes that are asked for.
abbrev pub recv_count : Buffer → ℕ → ℕ
recv_count b size = if ltb size (buffer_remaining b) then size else buffer_remaining b

-- The length that is returned where it is not negative.
unfoldable pub buffer_recv : (ℕ → Reply) → Buffer → ℕ → Option ℕ × Buffer
unfolding put_all
buffer_recv io_recv b size = recv_stored b (io_recv (recv_count b size))

-- What io_sendmsg is given.
abbrev pub buffer_to_iovec : Buffer → List ℕ
buffer_to_iovec b = window b.bytes 0 b.end

module _ {D : Type 0} (ext : Externals D) where
  -- The result, an int as its pattern, the buffers, and the bytes that are given to io_sendmsg.
  pub record Sent : Type 0 where
    pub ret : ℕ
    pub head_buf : Buffer
    pub body_buf : Buffer
    pub wire : List ℕ

  unfoldable pub fix_message_send :
      (List ℕ → ℕ) → Message (List ℕ) D → Buffer → Buffer → SendFlags → Sent
  fix_message_send io_sendmsg self head_buf body_buf flags =
      let (head, body) =
        if flags.preserve_buffer
        then (head_buf, body_buf)
        else fix_message_unparse ext self head_buf body_buf in
      let wire = buffer_to_iovec head ++ buffer_to_iovec body in
      let ret = io_sendmsg wire in
      record {
        ret = if ltb ret (2 ^ 31) then (length wire + 2 ^ 64 - ret) % 2 ^ 32 else ret;
        head_buf = head;
        body_buf = body;
        wire = wire;
      }

  -- Any flag keeps the number of the message: `flags && FIX_SEND_FLAG_PRESERVE_MSG_NUM`.
  abbrev pub keeps_number : SendFlags → Bool
  keeps_number flags = flags.preserve_msg_num || flags.preserve_buffer

  -- The message with what the session writes into it.
  abbrev pub stamped : Session D → Message (List ℕ) D → SendFlags → Message (List ℕ) D
  stamped self msg flags = record msg {
    begin_string = self.begin_string;
    sender_comp_id = self.sender_comp_id;
    target_comp_id = self.target_comp_id;
    msg_seq_num = if keeps_number flags then msg.msg_seq_num else self.out_msg_seq_num;
    str_now = self.str_now;
  }

  unfoldable pub fix_session_send :
      (List ℕ → ℕ) → Session D → Message (List ℕ) D → SendFlags → Sent × Session D
  fix_session_send io_sendmsg self msg flags =
      let sent =
        fix_message_send io_sendmsg (stamped self msg flags) (buffer_reset self.tx_head_buffer)
          (buffer_reset self.tx_body_buffer) flags in
      (
        sent,
        record self {
          out_msg_seq_num =
              if keeps_number flags then self.out_msg_seq_num else add64 self.out_msg_seq_num 1;
          tx_head_buffer = sent.head_buf;
          tx_body_buffer = sent.body_buf;
          tx_timestamp = self.now;
        },
      )

unfoldable pub fix_session_buffer_full : {D : Type 0} → Session D → Bool
fix_session_buffer_full session = leb (buffer_remaining session.rx_buffer) fix_max_message_size

unfoldable pub fix_msg_expected : {S D : Type 0} → Session D → Message S D → Bool
fix_msg_expected session msg =
    msg.msg_seq_num == session.in_msg_seq_num || is_sequence_reset msg.type
  where
    is_sequence_reset : MsgType → Bool
    is_sequence_reset sequence_reset = true
    is_sequence_reset _ = false

-- 1 with a message in `rx_message`, 0 and -1.
pub data Received : Type 0 where
  message no_message failure : Received

module _ {D : Type 0} (ext : Externals D) (tag_type : ℕ → FieldType) where
  -- The session behind a call of fix_message_parse, and whether it found a message.
  abbrev pub parsed : Session D → RecvFlags → Run (Outcome ext tag_type) → Run (Bool × Session D)
  parsed self flags unfinished = unfinished
  parsed self flags overrun = overrun
  parsed self flags (done o) = done (
    o.success,
    (if o.success
        then record self {
          rx_message = o.self;
          rx_buffer = o.buffer;
          rx_timestamp = self.now;
          in_msg_seq_num =
              if flags.keep_in_msg_seq_num
              then self.in_msg_seq_num
              else add64 self.in_msg_seq_num 1;
        }
        else record self { rx_message = o.self; rx_buffer = o.buffer }),
  )

  unfoldable pub try_parse : Session D → RecvFlags → Run (Bool × Session D)
  try_parse self flags =
      parsed self flags (fix_message_parse ext tag_type self.rx_message self.rx_buffer flags.parse)

  abbrev pub answer : Run (Bool × Session D) → Run (Received × Session D)
  answer unfinished = unfinished
  answer overrun = overrun
  answer (done (true, self)) = done (message, self)
  answer (done (false, self)) = done (no_message, self)

  abbrev pub behind_recv : Session D → RecvFlags → Option ℕ × Buffer → Run (Received × Session D)
  behind_recv self flags (none, b) =
      done (failure, record self { rx_buffer = b; failure_reason = system })
  behind_recv self flags (some zero, b) =
      done (failure, record self { rx_buffer = b; failure_reason = conn_closed })
  behind_recv self flags (some (suc n), b) =
      answer (try_parse (record self { rx_buffer = b }) flags)

  -- Behind the first attempt to parse.
  unfoldable pub receive_more : (ℕ → Reply) → Session D → RecvFlags → Run (Received × Session D)
  receive_more io_recv self flags =
      let self' =
        if fix_session_buffer_full self
        then record self { rx_buffer = buffer_compact self.rx_buffer }
        else self in
      let size = buffer_remaining self'.rx_buffer in
      if ltb fix_max_message_size size
      then behind_recv self' flags
          (buffer_recv io_recv self'.rx_buffer (size - fix_max_message_size))
      else answer (try_parse self' flags)

  abbrev pub or_more : (ℕ → Reply) → RecvFlags → Run (Bool × Session D) → Run (Received × Session D)
  or_more io_recv flags unfinished = unfinished
  or_more io_recv flags overrun = overrun
  or_more io_recv flags (done (true, self)) = done (message, self)
  or_more io_recv flags (done (false, self)) = receive_more io_recv self flags

  unfoldable pub fix_session_recv : (ℕ → Reply) → Session D → RecvFlags → Run (Received × Session D)
  fix_session_recv io_recv self flags =
      or_more io_recv flags (try_parse (record self { failure_reason = success }) flags)
