-- ===== src/Fast/Message/Decode.antt =====
-- `struct fast_session` of include/libtrading/proto/fast_session.h as far as messages use it, fast_get_msg
-- and fast_message_decode of lib/proto/fast_message.c.
use libtrading.Base.{
  ℕ, zero, suc, ◌+◌, Bool, true, false, not, ◌&&◌, List, [], ◌∷◌, ◌++◌, set, take, drop, Option,
  none, some, ltb, ◌==◌, int_of, if◌then◌else◌,
}
use mathlib.Core.Option.{map as map_option}
use libtrading.Buffer.{Buffer, buffer_size, buffer_get_n}
use libtrading.Fast.Codec.{Parsed, ok, garbled, partial, parse_uint}
use libtrading.Fast.Pmap.{Pmap, Ret, parse_pmap, pmap_is_set}
use libtrading.Fast.Text.{Chars}
use libtrading.Fast.Message.{Item, Message, Sequence, Taken, Run, decode_item, decode_run, back_to}
use libtrading.Fast.Message.Elements.{fast_decode_sequence}

abbrev pub fast_template_max_number : ℕ
fast_template_max_number = 128

-- `struct fast_preamble`
pub record Preamble : Type 0 where
  pub is_valid : Bool
  pub nr_bytes : ℕ
  pub bytes : List ℕ

-- `rx_message` is an index into `rx_messages`.
pub record Session : Type 0 where
  pub last_tid : ℕ
  pub rx_buffer : Buffer
  pub tx_pmap_buffer : Buffer
  pub tx_message_buffer : Buffer
  pub nr_messages : ℕ
  pub rx_message : Option ℕ
  pub rx_messages : List Message
  pub preamble : Preamble
  pub pmap : Pmap

-- The first of at most `n` messages that has the id.
abbrev pub find_msg : ℕ → List Message → ℕ → Option ℕ
find_msg zero msgs tid = none
find_msg (suc n) [] tid = none
find_msg (suc n) (m ∷ ms) tid =
    let rest = map_option suc (find_msg n ms tid) in if m.tid == tid then some 0 else rest

-- The u64 is passed as an int and then compared with unsigned longs.
unfoldable pub fast_get_msg : List Message → ℕ → Option ℕ
fast_get_msg msgs tid = find_msg fast_template_max_number msgs (int_of tid)

-- A message, by its index, or NULL.
abbrev pub Answer : Type 0
Answer = Option ℕ × Session

abbrev pub get_msg : List Message → ℕ → Option Message
get_msg [] i = none
get_msg (m ∷ ms) zero = some m
get_msg (m ∷ ms) (suc i) = get_msg ms i

abbrev pub decode_field : Chars → Buffer → Pmap → Item Sequence → Taken (Item Sequence)
decode_field scratch = decode_item (fast_decode_sequence scratch) scratch

-- The message behind the run over the fields that were left.
abbrev pub run_message : Run (Item Sequence) → Message → Message
run_message r m = record m {
  decoded = m.decoded + r.decoded;
  fields = take m.decoded m.fields ++ r.fields;
}

-- Behind the loop: the message is complete, or the label `fail` with `msg`.
abbrev pub behind_fields : Ret → ℕ → Run (Item Sequence) → Message → Session → Answer
behind_fields (ok _) i r m self = (
  some i,
  record self {
    rx_buffer = r.buffer;
    last_tid = m.tid;
    rx_message = none;
    preamble = record (self.preamble) { is_valid = false };
    pmap = record (r.pmap) { is_valid = false };
    rx_messages = set self.rx_messages i (record (run_message r m) { decoded = 0 });
  },
)
behind_fields garbled i r m self = (
  none,
  record self {
    rx_buffer = r.buffer;
    pmap = r.pmap;
    rx_messages = set self.rx_messages i (run_message r m);
  },
)
behind_fields partial i r m self = (
  none,
  record self {
    rx_buffer = back_to r.start r.buffer;
    pmap = record (r.pmap) { pmap_bit = r.saved };
    rx_messages = set self.rx_messages i (run_message r m);
  },
)

-- The loop over the fields of the message with the index `i`.
unfoldable pub decode_fields : Chars → ℕ → Message → Session → Answer
unfolding decode_run
decode_fields scratch i m self =
    let r =
      decode_run (decode_field scratch) 0 self.rx_buffer self.pmap (drop m.decoded m.fields) in
    behind_fields r.ret i r m self

abbrev pub with_index : Chars → Session → Option ℕ → Option Message → Answer
with_index scratch self (some i) (some m) =
    decode_fields scratch i m (record self { rx_message = some i })
with_index scratch self _ _ = (none, self)

abbrev pub message_at : List Message → Option ℕ → Option Message
message_at msgs none = none
message_at msgs (some i) = get_msg msgs i

-- Behind the template id; a garbled id leaves NULL in `rx_message`.
abbrev pub behind_tid : Chars → ℕ → Session → Parsed ℕ × Buffer → Answer
behind_tid scratch start self (ok tid, b) =
    let found = fast_get_msg self.rx_messages tid in
    with_index scratch (record self { rx_buffer = b }) found (message_at self.rx_messages found)
behind_tid scratch start self (garbled, b) = (none, record self { rx_buffer = b })
behind_tid scratch start self (partial, b) = (none, record self { rx_buffer = back_to start b })

-- `if (!session->rx_message)`
unfoldable pub decode_tid : Chars → Session → Answer
unfolding decode_fields fast_get_msg
decode_tid scratch self = elim self.rx_message [
  | some i ↦ with_index scratch self (some i) (get_msg self.rx_messages i)
  | none ↦ behind_tid scratch self.rx_buffer.start self (
      if pmap_is_set self.pmap 0
      then parse_uint self.rx_buffer
      else (ok self.last_tid, self.rx_buffer))
]

abbrev pub behind_pmap : Chars → ℕ → Session → Ret × Buffer × Pmap → Answer
behind_pmap scratch start self (ok _, b, p) =
    decode_tid scratch
      (record self { rx_buffer = b; pmap = record p { is_valid = true; pmap_bit = 0 } })
behind_pmap scratch start self (garbled, b, p) = (none, record self { rx_buffer = b; pmap = p })
behind_pmap scratch start self (partial, b, p) =
    (none, record self { rx_buffer = back_to start b; pmap = p })

-- `if (!pmap->is_valid)`
unfoldable pub decode_pmap : Chars → Session → Answer
unfolding decode_tid
decode_pmap scratch self =
    if self.pmap.is_valid
    then decode_tid scratch self
    else behind_pmap scratch self.rx_buffer.start self (parse_pmap self.rx_buffer self.pmap)

-- The preamble's bytes are kept and not looked at.
abbrev pub with_preamble : Session → List ℕ × Buffer → Session
with_preamble self (cs, b) = record self {
  rx_buffer = b;
  preamble = record (self.preamble) { is_valid = true; bytes = cs };
}

-- A short preamble is partial with `start` at the buffer's start, so nothing moves.
unfoldable pub fast_message_decode : Chars → Session → Answer
unfolding decode_pmap
fast_message_decode scratch self =
    if not (self.preamble.nr_bytes == 0) && not self.preamble.is_valid
    then (if ltb (buffer_size self.rx_buffer) self.preamble.nr_bytes
        then (none, record self { rx_buffer = back_to self.rx_buffer.start self.rx_buffer })
        else decode_pmap scratch
            (with_preamble self (buffer_get_n self.rx_buffer self.preamble.nr_bytes)))
    else decode_pmap scratch self
