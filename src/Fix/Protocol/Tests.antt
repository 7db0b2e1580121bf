-- ===== src/Fix/Protocol/Tests.antt =====
-- The theorems on the session protocol for two sessions.
use libtrading.Base.{ℕ, ◌≡◌, refl, false, List, [], ◌∷◌, arith}
use libtrading.Buffer.{Buffer}
use libtrading.Fix.Kind.{MsgType, heartbeat}
use libtrading.Fix.Field.{Field, int_value}
use libtrading.Fix.Message.{Message}
use libtrading.Fix.Tests.{no_doubles}
use libtrading.Fix.Message.Tests.{nothing}
use libtrading.Fix.Session.{Timespec, success}
use libtrading.Fix.Protocol.{Formats, Peer, fix_session_admin}
use libtrading.Fix.Protocol.Numbers.{accepted, fix_session_admin-accepted}

abbrev at_second : ℕ → Timespec
at_second n = record { tv_sec = n; tv_nsec = 0 }

abbrev storage : Buffer
storage = record { start = 0; end = 0; capacity = 128; bytes = λ i. b'Y' }

-- A session at second 100 that has heard its peer at second 50, with that number.
abbrev carol : ℕ → Peer ℕ
carol n = record {
  session = record {
    begin_string = b'F' ∷ [];
    sender_comp_id = b'C' ∷ [];
    target_comp_id = b'D' ∷ [];
    in_msg_seq_num = n;
    out_msg_seq_num = 3;
    rx_buffer = storage;
    tx_head_buffer = storage;
    tx_body_buffer = storage;
    rx_message = nothing;
    now = at_second 100;
    str_now = b'T' ∷ [];
    rx_timestamp = at_second 50;
    tx_timestamp = at_second 90;
    failure_reason = success;
  };
  old_version = false;
  heartbtint = 30;
  testreqid = [];
  tr_timestamp = at_second 0;
  tr_pending = false;
  outbox = [];
}

abbrev came : MsgType → ℕ → List (Field ℕ ℕ) → Message ℕ ℕ
came type number fields = record nothing { type = type; msg_seq_num = number; fields = fields }

abbrev number_field : ℕ → ℕ → Field ℕ ℕ
number_field tag n = record { tag = tag; value = int_value n }

abbrev formats : Formats ℕ
formats = record {
  too_low = λ a b. [];
  attempt_to_lower = λ a. [];
  incorrect = λ a. [];
  other_int = λ v. 0;
  other_string = λ v. 0;
}

abbrev sending : List ℕ → ℕ
sending cs = 0

abbrev stays : Peer ℕ → List ℕ → Peer ℕ
stays p text = p

fix_session_admin-accepted_example :
    (fix_session_admin no_doubles sending formats stays
      (carol 5)
      (came heartbeat 9 [])).1.session.in_msg_seq_num
    ≡ accepted 4 9
fix_session_admin-accepted_example =
    fix_session_admin-accepted no_doubles sending formats stays (carol 5) (came heartbeat 9 []) 4
      (λ e. cc) refl (omega arith) (λ h. absurd (omega arith))
