-- ===== src/Fast/Message/Tests.antt =====
-- Messages that are encoded and decoded.
use libtrading.Base.{ℕ, ◌≡◌, refl, true, false, List, [], ◌∷◌, ◌++◌, arith, replicate, none, inr}
use libtrading.Buffer.{Buffer, buffer_put, buffer_remaining}
use libtrading.Buffer.Contents.{Holds, contents}
use libtrading.Fast.Samples.{room64, room64-Holds, wire_of, wire_of-Holds}
use libtrading.Fast.Codec.{
  transfer_uint, transfer_int, transfer_size_uint, transfer_size_int, magnitude, put_groups,
}
use libtrading.Fast.Pmap.{pmap_set}
use libtrading.Fast.Field.{Field, copy, delta, optional, mandatory, undefined, assigned}
use libtrading.Fast.Integer.{fast_encode_uint, fast_encode_int}
use libtrading.Fast.Text.{Chars}
use libtrading.Fast.Message.{int, uint, Message}
use libtrading.Fast.Message.Decode.{Session, fast_message_decode, fast_get_msg}
use libtrading.Fast.Message.Encode.{fast_message_encode, encode_run, first_map, trimmed, put_map}
use libtrading.Fast.Message.Arrival.{IsWaiting, MessageReceived}
use libtrading.Fast.Message.Resume.{cut_session, Resumes}
use libtrading.Fast.Message.Split.{fast_message_decode-Resumes}
use libtrading.Fast.Message.RoundTrip.{MessageEnds, fast_message_decode-fast_message_encode}

abbrev unused : Chars
unused i = 0

-- A mandatory price as a difference, and an optional quantity that is copied.
abbrev price : ℕ → Field ℕ
price v = record {
  presence = mandatory;
  op = delta;
  state = assigned;
  state_previous = undefined;
  has_reset = false;
  value = v;
  reset = 0;
  previous = 1000;
}

abbrev quantity : ℕ → Field ℕ
quantity v = record {
  presence = optional;
  op = copy;
  state = undefined;
  state_previous = undefined;
  has_reset = false;
  value = v;
  reset = 0;
  previous = 0;
}

abbrev quote : ℕ → ℕ → Message
quote p q = record { decoded = 0; fields = int (price p) ∷ uint (quantity q) ∷ []; tid = 7 }

abbrev session : Buffer → Session
session b = record {
  last_tid = 0;
  rx_buffer = b;
  tx_pmap_buffer = room64;
  tx_message_buffer = room64;
  nr_messages = 1;
  rx_message = none;
  rx_messages = quote 1000 0 ∷ [];
  preamble = record { is_valid = false; nr_bytes = 0; bytes = [] };
  pmap = record { is_valid = false; pmap_bit = 0; nr_bytes = 0; bytes = replicate 8 0 };
}

-- The map with the bits of the id and of the quantity, the id, the difference -3 and 301.
abbrev quote_bytes : List ℕ
quote_bytes = 0xe0 ∷ 0x87 ∷ 0xfd ∷ 0x02 ∷ 0xad ∷ []

quote_sent :
    contents (fast_message_encode room64 room64 (quote 997 300)).pmap_buf
      ++ contents (fast_message_encode room64 room64 (quote 997 300)).msg_buf
    ≡ quote_bytes
unfolding fast_message_encode encode_run first_map trimmed put_map fast_encode_uint fast_encode_int
    transfer_uint transfer_int transfer_size_uint transfer_size_int magnitude put_groups pmap_set
    buffer_put buffer_remaining
quote_sent = refl

arrived : Buffer
arrived = wire_of (quote_bytes ++ (0x80 ∷ []))

arrived-Holds : Holds arrived (quote_bytes ++ (0x80 ∷ []))
unfolding arrived
arrived-Holds = wire_of-Holds _ (omega arith) refl

session-IsWaiting : (b : Buffer) → IsWaiting (session b) 0 (quote 1000 0)
unfolding fast_get_msg
session-IsWaiting b = record {
  no_preamble = refl;
  no_map = refl;
  room = omega arith;
  between = refl;
  at_start = refl;
  found = refl;
  message = refl;
}

quote-MessageEnds : MessageEnds (quote 997 300) (quote 1000 0)
quote-MessageEnds = record {
  same_tid = refl;
  small_tid = omega arith;
  few = omega arith;
  fields = (
    record {
      same_op = refl;
      same_presence = refl;
      ready = ((inr (omega arith, omega arith), omega arith), omega arith, omega arith);
      agree = refl;
    },
    (
      record {
        same_op = refl;
        same_presence = refl;
        ready = (omega arith, (λ h. cc), (λ h. cc));
        agree = λ h. cc;
      },
      tt,
    ),
  );
}

fast_message_decode-fast_message_encode_example :
    ((fast_message_encode room64 room64 (quote 997 300)).success ≡ true)
    × MessageReceived
        (quote 997 300)
        (fast_message_encode room64 room64 (quote 997 300)).msg.fields
        0
        (0x80 ∷ [])
        (fast_message_decode unused (session arrived))
unfolding fast_message_encode encode_run first_map trimmed put_map fast_encode_uint fast_encode_int
    transfer_uint transfer_int transfer_size_uint transfer_size_int magnitude put_groups pmap_set
    buffer_put buffer_remaining
fast_message_decode-fast_message_encode_example =
    fast_message_decode-fast_message_encode unused (quote 997 300) (quote 1000 0) room64 room64
      (session arrived) 0 (0x80 ∷ []) quote-MessageEnds (session-IsWaiting arrived) room64-Holds
      (omega arith) room64-Holds (omega arith) arrived-Holds

-- The first three bytes of the message, and then all of it.
fast_message_decode-Resumes_example :
    Resumes unused 6
      (fast_message_decode unused (cut_session 3 (session arrived)))
      (fast_message_decode unused (session arrived))
unfolding arrived
fast_message_decode-Resumes_example =
    fast_message_decode-Resumes unused 3 (session arrived)
      (record { valid = arrived-Holds.valid; from = omega arith; to = omega arith })
      (((tt, (tt, tt)), omega arith), tt)
