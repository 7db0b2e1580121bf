-- ===== src/Fix/Session/Receiving.antt =====
-- fix_session_recv on any bytes that arrive.
use libtrading.Base.{ℕ, suc, ◌*◌, ◌^◌, ◌≤◌, ◌<◌, ◌≡◌, Bool, length, All, ◌⊎◌, add64, if◌then◌else◌}
use libtrading.Buffer.{Buffer, IsValid, buffer_size}
use libtrading.Fix.Field.{FieldType, Externals}
use libtrading.Fix.Message.{
  Message, Run, done, overrun, unfinished, fix_max_field_number, fix_message_parse,
}
use libtrading.Fix.Message.Returns.{Returns}
use libtrading.Fix.Session.{
  Session, RecvFlags, Reply, error, bytes, Received, message, no_message, failure, FailureReason,
  success, system, conn_closed,
}

-- What io_recv is documented to do: it stores as many bytes as it is asked for at most.
abbrev pub Serves : ℕ → Reply → Type 0
Serves n error = Unit {0}
Serves n (bytes cs) = (length cs ≤ n) × All (λ c. c < 256) cs

-- A valid buffer of that capacity.
pub record IsSound (n : ℕ) (b : Buffer) : Type 0 where
  pub valid : IsValid b
  pub capacity : b.capacity ≡ n

abbrev pub FailedBy : Received → FailureReason → Type 0
FailedBy message r = r ≡ success
FailedBy no_message r = r ≡ success
FailedBy failure r = (r ≡ system) ⊎ (r ≡ conn_closed)

module _ {D : Type 0} where
  -- The number that is expected behind a call.
  abbrev pub counted : Session D → RecvFlags → Received → ℕ
  counted self flags message =
      if flags.keep_in_msg_seq_num then self.in_msg_seq_num else add64 self.in_msg_seq_num 1
  counted self flags no_message = self.in_msg_seq_num
  counted self flags failure = self.in_msg_seq_num

  pub record Receives (self : Session D) (flags : RecvFlags) (n : ℕ) (r : Received)
      (self' : Session D) : Type 0 where
    pub sound : IsSound n self'.rx_buffer
    pub number : self'.in_msg_seq_num ≡ counted self flags r
    pub sending : self'.out_msg_seq_num ≡ self.out_msg_seq_num
    pub reason : FailedBy r self'.failure_reason

  module _ (ext : Externals D) (tag_type : ℕ → FieldType) (flags : RecvFlags) (n : ℕ)
      (small : n < 2 ^ 31) where
    -- A parse that writes behind the array of the fields, on a receive buffer of that capacity.
    pub record Overruns : Type 0 where
      pub msg : Message ℕ D
      pub buffer : Buffer
      pub sound : IsSound n buffer
      pub run : fix_message_parse ext tag_type msg buffer flags.parse ≡ overrun
      pub size : 2 * suc fix_max_field_number ≤ buffer_size buffer

    -- What an attempt to parse leaves of a session.
    pub record Parses (self : Session D) (found : Bool) (self' : Session D) : Type 0 where
      pub sound : IsSound n self'.rx_buffer
      pub number : self'.in_msg_seq_num ≡ counted self flags (if found then message else no_message)
      pub sending : self'.out_msg_seq_num ≡ self.out_msg_seq_num
      pub reason : self'.failure_reason ≡ self.failure_reason

    abbrev pub Attempts : Session D → Run (Bool × Session D) → Type 0
    Attempts self (done q) = Parses self q.0 q.1
    Attempts self overrun = Overruns
    Attempts self unfinished = ⊥

    -- The outcome of a call.
    abbrev pub Ends : Session D → Run (Received × Session D) → Type 0
    Ends self (done q) = Receives self flags n q.0 q.1
    Ends self overrun = Overruns
    Ends self unfinished = ⊥

    -- A session at a place in the middle of a call: with the numbers of the start, and no failure.
    record Amid (self self' : Session D) : Type 0 where
      sound : IsSound n self'.rx_buffer
      number : self'.in_msg_seq_num ≡ self.in_msg_seq_num
      sending : self'.out_msg_seq_num ≡ self.out_msg_seq_num
      reason : self'.failure_reason ≡ success
