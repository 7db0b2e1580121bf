-- ===== src/Fix/Session/Tests.antt =====
-- The theorems on sessions for a heartbeat that one session sends to another, and for a field that is none.
use libtrading.Base.{
  ℕ, zero, suc, ◌^◌, ◌<◌, ◌≡◌, refl, List, [], ◌∷◌, ◌++◌, length, All, arith, &&→, Bool, true,
  false, ltb, ltb→lt, ◌&&◌, add64,
}
use libtrading.Buffer.{Buffer, IsValid, buffer_remaining}
use libtrading.Itoa.{uilog_10}
use libtrading.Itoa.Tests.{twenty_digits-PrintsNumbers}
use libtrading.Fix.Field.{fix_tag_type}
use libtrading.Fix.Message.{Outcome, done}
use libtrading.Fix.Message.Unparsed.{head_text, body_text, checksum_text}
use libtrading.Fix.Message.Conveyed.{IsReceived}
use libtrading.Fix.Message.Tests.{
  beat, nothing, strict, junk, beat-IsSendable, beat-IsConveyable, fix_tag_type-IsDialect,
}
use libtrading.Fix.Tests.{no_doubles}
use libtrading.Fix.Session.{
  Session, Timespec, Reply, bytes, RecvFlags, message, success, fix_session_send, fix_session_recv,
}
use libtrading.Fix.Session.Receiving.{Serves}
use libtrading.Fix.Session.Delivery.{
  wire-text, no_flags, CanSend, sent, sent_message, filled, received_by,
  fix_session_recv-fix_session_send,
}

abbrev blank : ℕ → Buffer
blank n = record { start = 0; end = 0; capacity = n; bytes = λ i. 0 }

blank-IsValid : (n : ℕ) → n < 2 ^ 31 → IsValid (blank n)
blank-IsValid n small = record {
  ordered = omega arith;
  bounded = omega arith;
  addressable = omega (arith, small);
}

abbrev second : Timespec
second = record { tv_sec = 1; tv_nsec = 0 }

-- A session with that receive buffer.
abbrev alice : Buffer → Session ℕ
alice b = record {
  begin_string = b'F' ∷ b'I' ∷ b'X' ∷ [];
  sender_comp_id = b'A' ∷ [];
  target_comp_id = b'B' ∷ [];
  in_msg_seq_num = 1;
  out_msg_seq_num = 7;
  rx_buffer = b;
  tx_head_buffer = blank 128;
  tx_body_buffer = blank 128;
  rx_message = nothing;
  now = second;
  str_now = b'T' ∷ [];
  rx_timestamp = second;
  tx_timestamp = second;
  failure_reason = success;
}

abbrev counting : RecvFlags
counting = record { keep_in_msg_seq_num = false; parse = strict }

-- A peer that sends one byte.
abbrev trickle : ℕ → Reply
trickle zero = bytes []
trickle (suc k) = bytes (b'9' ∷ [])

-- A socket that takes all.
abbrev takes_all : List ℕ → ℕ
takes_all cs = length cs

can_send :
    CanSend no_doubles fix_tag_type twenty_digits-PrintsNumbers fix_tag_type-IsDialect takes_all
      (alice junk)
      beat
unfolding uilog_10
can_send = record {
  conveyable = beat-IsConveyable;
  sendable = beat-IsSendable;
  head_valid = blank-IsValid 128 (omega arith);
  body_valid = blank-IsValid 128 (omega arith);
  head_room = omega arith;
  body_room = omega arith;
}

abbrev wire : List ℕ
wire =
    (sent no_doubles fix_tag_type twenty_digits-PrintsNumbers fix_tag_type-IsDialect takes_all
      (alice junk) beat).wire

-- A list of bytes.
below : List ℕ → Bool
below [] = true
below (c ∷ cs) = ltb c 256 && below cs

below-lem : (cs : List ℕ) → below cs ≡ true → All (λ c. c < 256) cs
unfolding below
below-lem [] h = tt
below-lem (c ∷ cs) h =
    let (first, others) = &&→ (ltb c 256) (below cs) h in (ltb→lt c 256 first, below-lem cs others)

wire-Serves : Serves 768 (bytes (wire ++ (b'8' ∷ [])))
unfolding uilog_10 below
wire-Serves =
    rw
      (wire-text no_doubles fix_tag_type twenty_digits-PrintsNumbers fix_tag_type-IsDialect
        takes_all (alice junk) beat can_send)
      (
        omega arith,
        below-lem
            ((head_text no_doubles beat
                ++ (body_text no_doubles beat ++ checksum_text no_doubles beat))
              ++ (b'8' ∷ []))
            refl,
      )

fix_session_recv-fix_session_send_example :
    (o : Outcome no_doubles fix_tag_type) × (fix_session_recv no_doubles fix_tag_type
        (λ k. bytes (wire ++ (b'8' ∷ [])))
        (alice (blank 2048))
        counting
      ≡ done (
        message,
        received_by no_doubles fix_tag_type twenty_digits-PrintsNumbers fix_tag_type-IsDialect
            takes_all
            (alice junk)
            beat
            (alice (blank 2048))
            counting
            o,
      ))
    × IsReceived no_doubles fix_tag_type twenty_digits-PrintsNumbers
        (sent_message no_doubles fix_tag_type twenty_digits-PrintsNumbers fix_tag_type-IsDialect
          takes_all
          (alice junk)
          beat)
        strict
        (filled no_doubles fix_tag_type twenty_digits-PrintsNumbers fix_tag_type-IsDialect takes_all
          (alice junk)
          beat
          (alice (blank 2048))
          (b'8' ∷ []))
        (b'8' ∷ [])
        o
    × ((fix_session_send no_doubles takes_all (alice junk) beat no_flags).1.out_msg_seq_num
        ≡ add64 7 1)
unfolding buffer_remaining
fix_session_recv-fix_session_send_example =
    fix_session_recv-fix_session_send no_doubles fix_tag_type twenty_digits-PrintsNumbers
      fix_tag_type-IsDialect takes_all (alice junk) beat (alice (blank 2048)) counting
      (λ k. bytes (wire ++ (b'8' ∷ []))) (b'8' ∷ []) can_send
      (record { valid = blank-IsValid 2048 (omega arith); reads = refl }) (omega arith) refl
      wire-Serves
