-- ===== src/Fix/Protocol/Numbers.antt =====
-- The numbers of received messages under fix_session_admin.
use libtrading.Base.{
  ℕ, suc, ◌^◌, ◌≤◌, ◌<◌, ◌≡◌, refl, ap, ◌∙◌, ◌≢◌, Bool, true, inl, inr, List, Option, none, some,
  ltb, ◌==◌, if◌then◌else◌, sub64, arith, Bool-cases, ne→==, ==→ne, lt→ltb, le→ltb, ltb→lt, ltb→le,
}
use libtrading.Fix.Kind.{MsgType, heartbeat, test_request, resend_request, sequence_reset}
use libtrading.Fix.Field.{Field, Externals}
use libtrading.Fix.Message.{Message}
use libtrading.Fix.Session.{Session, SendFlags, fix_session_send, fix_msg_expected}
use libtrading.Fix.Protocol.{
  Formats, Peer, send, has_field, poss_dup_flag, fix_do_unexpected, fix_session_admin, on_expected,
  on_heartbeat, on_test_request, on_resend_request,
}

-- The last number in order, behind a message with the number `k`.
abbrev pub accepted : ℕ → ℕ → ℕ
accepted last k = if k == suc last then suc last else last

module _ {D : Type 0} (ext : Externals D) (io_sendmsg : List ℕ → ℕ) where
  send-number :
      (self : Peer D) (msg : Message (List ℕ) D) (flags : SendFlags)
      → (send ext io_sendmsg self msg flags).session.in_msg_seq_num ≡ self.session.in_msg_seq_num
  unfolding send fix_session_send
  send-number self msg flags = refl

  module _ (formats : Formats D) (logout : Peer D → List ℕ → Peer D) where
    on_heartbeat-number :
        (self : Peer D) (f : Option (Field ℕ D))
        → (on_heartbeat ext io_sendmsg formats logout self f).session.in_msg_seq_num
          ≡ self.session.in_msg_seq_num
    on_heartbeat-number self none = refl
    on_heartbeat-number self (some f) = ground arith

    on_test_request-number :
        (self : Peer D) (f : Option (Field ℕ D))
        → (on_test_request ext io_sendmsg formats logout self f).session.in_msg_seq_num
          ≡ self.session.in_msg_seq_num
    on_test_request-number self none = send-number self _ _
    on_test_request-number self (some f) = send-number self _ _

    on_resend_request-number :
        (self : Peer D) (f g : Option (Field ℕ D))
        → (on_resend_request ext io_sendmsg formats logout self f g).1.session.in_msg_seq_num
          ≡ self.session.in_msg_seq_num
    on_resend_request-number self none g = refl
    on_resend_request-number self (some f) none = refl
    on_resend_request-number self (some f) (some g) = send-number self _ _

    on_expected-number :
        (type : MsgType) (self : Peer D) (msg : Message ℕ D)
        → type ≢ sequence_reset
        → (on_expected ext io_sendmsg formats logout type self msg).1.session.in_msg_seq_num
          ≡ self.session.in_msg_seq_num
    on_expected-number heartbeat self msg ne = on_heartbeat-number self _
    on_expected-number test_request self msg ne = on_test_request-number self _
    on_expected-number resend_request self msg ne = on_resend_request-number self _ _
    on_expected-number sequence_reset self msg ne = absurd (ne refl)
    on_expected-number _ self msg ne = refl

ordinary :
    {S D : Type 0} (self : Session D) (msg : Message S D)
    → msg.type ≢ sequence_reset
    → fix_msg_expected self msg ≡ (msg.msg_seq_num == self.in_msg_seq_num)
unfolding fix_msg_expected
ordinary self msg ne = ground arith

module _ {D : Type 0} (ext : Externals D) (io_sendmsg : List ℕ → ℕ) (formats : Formats D)
    (logout : Peer D → List ℕ → Peer D) (self : Peer D) (msg : Message ℕ D)
    (ne : msg.type ≢ sequence_reset) where
  admin-expected :
      (msg.msg_seq_num == self.session.in_msg_seq_num) ≡ true
      → (fix_session_admin ext io_sendmsg formats logout self msg).1.session.in_msg_seq_num
        ≡ self.session.in_msg_seq_num
  unfolding fix_session_admin
  admin-expected e =
      rw (ordinary self.session msg ne ∙ e)
        (on_expected-number ext io_sendmsg formats logout msg.type self msg ne)

  admin-unexpected :
      msg.msg_seq_num ≢ self.session.in_msg_seq_num
      → fix_session_admin ext io_sendmsg formats logout self msg
        ≡ (true, fix_do_unexpected ext io_sendmsg formats logout self msg)
  unfolding fix_session_admin
  admin-unexpected e = rw (ordinary self.session msg ne ∙ ne→== _ _ e) refl

  unexpected-gap :
      self.session.in_msg_seq_num < msg.msg_seq_num
      → (fix_do_unexpected ext io_sendmsg formats logout self msg).session.in_msg_seq_num
        ≡ sub64 self.session.in_msg_seq_num 1
  unfolding fix_do_unexpected
  unexpected-gap h =
      rw (lt→ltb _ _ h) (ap (λ (n : ℕ). sub64 n 1) (send-number ext io_sendmsg self _ _))

  unexpected-old :
      msg.msg_seq_num < self.session.in_msg_seq_num
      → has_field ext io_sendmsg formats logout msg poss_dup_flag ≡ true
      → (fix_do_unexpected ext io_sendmsg formats logout self msg).session.in_msg_seq_num
        ≡ sub64 self.session.in_msg_seq_num 1
  unfolding fix_do_unexpected
  unexpected-old h dup =
      rw (le→ltb self.session.in_msg_seq_num msg.msg_seq_num (omega arith))
        (rw (lt→ltb _ _ h) (rw dup refl))

-- fix_session_admin keeps the number of the last message in order, when fix_session_recv has counted the message
-- that it is called with: a message of any type but a sequence reset leaves the number one higher
-- exactly when its own number is the next, and else puts the number back, whether messages are
-- missing or it has come before. A message that has come before has the flag PossDup, so that no
-- logout follows, and the numbers are below 2^64.
pub fix_session_admin-accepted :
    {D : Type 0} (ext : Externals D) (io_sendmsg : List ℕ → ℕ) (formats : Formats D)
    (logout : Peer D → List ℕ → Peer D) (self : Peer D) (msg : Message ℕ D) (last : ℕ)
    → msg.type ≢ sequence_reset
    → self.session.in_msg_seq_num ≡ suc last
    → suc last < 2 ^ 64
    → (msg.msg_seq_num ≤ last → has_field ext io_sendmsg formats logout msg poss_dup_flag ≡ true)
    → (fix_session_admin ext io_sendmsg formats logout self msg).1.session.in_msg_seq_num
      ≡ accepted last msg.msg_seq_num
fix_session_admin-accepted ext io_sendmsg formats logout self msg last ne at' small dup =
    elim (Bool-cases (msg.msg_seq_num == suc last)) [
      | inl e ↦ rw e (admin-expected ext io_sendmsg formats logout self msg ne (rw at' e) ∙ at')
      | inr other ↦ rw other (
          ap (λ (r : Bool × Peer _). r.1.session.in_msg_seq_num)
            (admin-unexpected ext io_sendmsg formats logout self msg ne
              (λ e. omega (arith, ==→ne _ _ other, e, at')))
          ∙ elim (Bool-cases (ltb (suc last) msg.msg_seq_num)) [
            | inl gap ↦
                unexpected-gap ext io_sendmsg formats logout self msg ne
                  (omega (arith, at', ltb→lt _ _ gap))
                ∙ back
            | inr old ↦
                unexpected-old ext io_sendmsg formats logout self msg ne
                  (omega (arith, at', ltb→le _ _ old, ==→ne _ _ other))
                  (dup (omega (arith, ltb→le _ _ old, ==→ne _ _ other)))
                ∙ back
          ])
    ]
  where
    back : sub64 self.session.in_msg_seq_num 1 ≡ last
    back = omega (arith, at', small)
