-- ===== src/Fix/Message/Tests.antt =====
-- The theorems on messages for a heartbeat of two fields.
use libtrading.Fix.Scan.{soh}
use libtrading.Buffer.{IsValid, buffer_size}
use libtrading.Fix.Scan.{parse_field}
use libtrading.Fix.Message.{done, overrun, rest_loop, rest_of_message}
use libtrading.Fix.Message.Returns.{Returns, fix_message_parse-Returns}
use libtrading.Base.{ℕ, ◌≡◌, refl, List, [], ◌∷◌, ◌++◌, arith, get_or, false, ◌*◌, ◌%◌}
use libtrading.Buffer.{Buffer, buffer_remaining}
use libtrading.Buffer.Contents.{Holds}
use libtrading.Itoa.{uilog_10}
use libtrading.Itoa.Tests.{twenty_digits-PrintsNumbers, twenty_digits-small}
use libtrading.Fix.Kind.{heartbeat, unknown}
use libtrading.Fix.Field.{int_value, string_value, fix_tag_type}
use libtrading.Fix.Message.{Message, Flags, Outcome, fix_message_unparse, fix_message_parse}
use libtrading.Fix.Message.Unparsed.{
  head_text, body_text, checksum_text, IsSendable, fix_message_unparse-Holds,
}
use libtrading.Fix.Message.Conveyed.{IsDialect, IsConveyable, IsReceived}
use libtrading.Fix.Message.RoundTrip.{fix_message_parse-fix_message_unparse}
use libtrading.Fix.Tests.{no_doubles}

abbrev pub beat : Message (List ℕ) ℕ
beat = record {
  type = heartbeat;
  begin_string = b'F' ∷ b'I' ∷ b'X' ∷ [];
  body_length = 0;
  msg_type = [];
  sender_comp_id = b'A' ∷ [];
  target_comp_id = b'B' ∷ [];
  msg_seq_num = 7;
  check_sum = [];
  str_now = b'T' ∷ [];
  fields =
      record { tag = 36; value = int_value 5 }
      ∷ record { tag = 112; value = string_value (b'x' ∷ []) }
      ∷ [];
}

abbrev empty : Buffer
empty = record { start = 0; end = 0; capacity = 128; bytes = λ i. 0 }

empty-Holds : Holds empty []
empty-Holds = record {
  valid = record { ordered = omega arith; bounded = omega arith; addressable = omega arith };
  reads = refl;
}

pub beat-IsSendable : IsSendable no_doubles beat
unfolding uilog_10
beat-IsSendable = record {
  body = (
    (omega arith, (omega arith, tt)),
    (
      (omega arith, (omega arith, tt)),
      (
        (omega arith, (omega arith, tt)),
        (
          (omega arith, (omega arith, twenty_digits-small 7)),
          (
            (omega arith, (omega arith, tt)),
            (
              (omega arith, (omega arith, twenty_digits-small 5)),
              ((omega arith, (omega arith, tt)), tt),
            ),
          ),
        ),
      ),
    ),
  );
  head = (
    (omega arith, (omega arith, (omega arith, (omega arith, tt)))),
    ((omega arith, (omega arith, twenty_digits-small 36)), tt),
  );
}

fix_message_unparse-Holds_example :
    Holds (fix_message_unparse no_doubles beat empty empty).0 (head_text no_doubles beat)
    × Holds
        (fix_message_unparse no_doubles beat empty empty).1
        (body_text no_doubles beat ++ checksum_text no_doubles beat)
unfolding uilog_10 buffer_remaining
fix_message_unparse-Holds_example =
    fix_message_unparse-Holds no_doubles beat empty empty beat-IsSendable empty-Holds empty-Holds
      (omega arith) (omega arith)

unparsed :
    Holds (fix_message_unparse no_doubles beat empty empty).0 (head_text no_doubles beat)
    × Holds
        (fix_message_unparse no_doubles beat empty empty).1
        (body_text no_doubles beat ++ checksum_text no_doubles beat)
unfolding uilog_10 buffer_remaining
unparsed =
    fix_message_unparse-Holds no_doubles beat empty empty beat-IsSendable empty-Holds empty-Holds
      (omega arith) (omega arith)

pub fix_tag_type-IsDialect : IsDialect fix_tag_type
unfolding fix_tag_type
fix_tag_type-IsDialect = record {
  sender = refl;
  target = refl;
  time = refl;
  sequence = refl;
  sum = refl;
}

pub beat-IsConveyable : IsConveyable no_doubles fix_tag_type twenty_digits-PrintsNumbers beat
unfolding uilog_10 fix_tag_type
beat-IsConveyable = record {
  known = refl;
  begin = (omega arith, (omega arith, (omega arith, tt)));
  sequence = omega arith;
  front =
      ((omega arith, (refl, (omega arith, tt))), ((omega arith, (refl, (omega arith, tt))), tt));
  back = (
    (omega arith, (refl, (omega arith, tt))),
    ((omega arith, (refl, omega arith)), ((omega arith, (refl, (omega arith, tt))), tt)),
  );
  size = omega arith;
  room = omega arith;
}

-- The message, and the first byte of another.
abbrev wire : List ℕ
wire =
    head_text no_doubles beat
    ++ ((body_text no_doubles beat ++ checksum_text no_doubles beat) ++ (b'8' ∷ []))

abbrev received : Buffer
received = record { start = 0; end = 55; capacity = 64; bytes = λ i. get_or wire i 0 }

received-Holds : Holds received wire
unfolding uilog_10
received-Holds = record {
  valid = record { ordered = omega arith; bounded = omega arith; addressable = omega arith };
  reads = refl;
}

abbrev pub nothing : Message ℕ ℕ
nothing = record {
  type = unknown;
  begin_string = 0;
  body_length = 0;
  msg_type = 0;
  sender_comp_id = 0;
  target_comp_id = 0;
  msg_seq_num = 0;
  check_sum = 0;
  str_now = 0;
  fields = [];
}

abbrev pub strict : Flags
strict = record { no_csum = false; no_type = false }

fix_message_parse-fix_message_unparse_example :
    (o : Outcome no_doubles fix_tag_type) × (fix_message_parse no_doubles fix_tag_type nothing
        received strict
      ≡ done o)
    × IsReceived no_doubles fix_tag_type twenty_digits-PrintsNumbers beat strict received
        (b'8' ∷ [])
        o
unfolding uilog_10 buffer_remaining
fix_message_parse-fix_message_unparse_example =
    fix_message_parse-fix_message_unparse no_doubles fix_tag_type twenty_digits-PrintsNumbers
      fix_tag_type-IsDialect beat beat-IsConveyable received (b'8' ∷ []) empty empty nothing strict
      beat-IsSendable empty-Holds empty-Holds (omega arith) (omega arith)
      (rw (unparsed.0.reads, unparsed.1.reads) received-Holds)

-- A field that is not a BeginString, and no more.
abbrev pub junk : Buffer
junk = record {
  start = 0;
  end = 4;
  capacity = 64;
  bytes = λ i. get_or (b'9' ∷ b'=' ∷ b'1' ∷ soh ∷ []) i 0;
}

pub junk-IsValid : IsValid junk
junk-IsValid = record { ordered = omega arith; bounded = omega arith; addressable = omega arith }

-- A field that is stored 49 times is one too many.
abbrev crowd : ℕ → Buffer
crowd n = record {
  start = 0;
  end = n * 3;
  capacity = 256;
  bytes = λ i. get_or (b'1' ∷ b'=' ∷ soh ∷ []) (i % 3) 0;
}

one_too_many : rest_of_message no_doubles fix_tag_type nothing (crowd 49) ≡ overrun
unfolding rest_of_message rest_loop buffer_size parse_field libtrading.Fix.Scan.parse_tag
    libtrading.Buffer.buffer_find libtrading.Buffer.buffer_peek_8 libtrading.Buffer.buffer_advance
    libtrading.Fix.Scan.fix_uatoi libtrading.Fix.Scan.atoi_loop libtrading.Fix.Scan.parse_value
    fix_tag_type
one_too_many = refl

fix_message_parse-Returns_example :
    Returns no_doubles fix_tag_type junk
      (fix_message_parse no_doubles fix_tag_type nothing junk strict)
fix_message_parse-Returns_example =
    fix_message_parse-Returns no_doubles fix_tag_type nothing junk strict junk-IsValid (omega arith)
