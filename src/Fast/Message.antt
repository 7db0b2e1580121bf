-- ===== src/Fast/Message.antt =====
-- `struct fast_message` and `struct fast_sequence` of include/libtrading/proto/fast_message.h, and the loop
-- over the fields of a message that fast_message_decode and fast_decode_sequence of
-- lib/proto/fast_message.c both write out.
pub mod Elements
pub mod Marks
pub mod Fields
pub mod Runs
pub mod Wire
pub mod Maps
pub mod Arrival
pub mod RoundTrip
pub mod Cut
pub mod CutFields
pub mod Pauses
pub mod CutMap
pub mod Resume
pub mod Split
mod Tests
pub mod Decode
pub mod Encode
pub mod Reset
use libtrading.Base.{ℕ, zero, suc, ◌+◌, ◌-◌, Bool, true, false, List, [], ◌∷◌, length, add64, sub64}
use libtrading.Buffer.{Buffer, buffer_advance}
use libtrading.Fast.Codec.{ok, garbled, partial}
use libtrading.Fast.Pmap.{Pmap, Ret}
use libtrading.Fast.Field.{Presence, Field, Decoded}
use libtrading.Fast.Integer.{fast_decode_uint, fast_decode_int}
use libtrading.Fast.Text.{Chars, fast_decode_string}
use libtrading.Fast.Vector.{fast_decode_vector}
use libtrading.Fast.Decimal.{DecimalField, fast_decode_decimal}

-- A field by its `type`; `string` has FAST_FIELD_FLAGS_UNICODE, and `S` is what `ptr_value` of a sequence
-- points to.
pub data Item (S : Type 0) : Type 0 where
  int : Field ℕ → Item S
  uint : Field ℕ → Item S
  string : Bool → Field Chars → Item S
  vector : Field Chars → Item S
  decimal : DecimalField → Item S
  sequence : S → Item S

-- `elements[0]`: its fields hold the values between the elements, and `decoded` counts its fields. No sequence
-- in a sequence is read, so nothing is kept of one.
pub record Element : Type 0 where
  pub decoded : ℕ
  pub fields : List (Item (Unit {0}))

-- `struct fast_sequence`, with `presence` and FAST_FIELD_FLAGS_PMAPREQ of its field; `others` are the
-- fields of `elements[1]` and on.
pub record Sequence : Type 0 where
  pub presence : Presence
  pub pmap_required : Bool
  pub pmap : Pmap
  pub decoded : ℕ
  pub length' : Field ℕ
  pub first : Element
  pub others : List (List (Item (Unit {0})))

-- `struct fast_message`; `nr_fields` is the length of `fields`.
pub record Message : Type 0 where
  pub decoded : ℕ
  pub fields : List (Item Sequence)
  pub tid : ℕ

-- What the case of one field leaves: `start` is the place that a caller goes back to.
pub record Taken (F : Type 0) : Type 0 where
  pub ret : Ret
  pub buffer : Buffer
  pub pmap : Pmap
  pub start : ℕ
  pub field : F

abbrev pub taken_as : {V F : Type 0} → (V → F) → ℕ → Ret → Buffer → Pmap → V → Taken F
taken_as make start ret b p f = record {
  ret = ret;
  buffer = b;
  pmap = p;
  start = start;
  field = make f;
}

abbrev pub of_decoded : {V F : Type 0} → (Field V → F) → ℕ → Decoded V → Taken F
of_decoded make start r = taken_as make start r.ret r.buffer r.pmap r.field

-- The `switch (field->type)`. `scratch` is what the local array of fast_decode_ascii holds.
abbrev pub decode_item :
    {S : Type 0} → (Buffer → Pmap → S → Taken S) → Chars → Buffer → Pmap → Item S → Taken (Item S)
decode_item decode_sequence scratch b p (int f) = of_decoded int b.start (fast_decode_int b p f)
decode_item decode_sequence scratch b p (uint f) = of_decoded uint b.start (fast_decode_uint b p f)
decode_item decode_sequence scratch b p (string unicode f) =
    of_decoded (string unicode) b.start (fast_decode_string unicode scratch b p f)
decode_item decode_sequence scratch b p (vector f) =
    of_decoded vector b.start (fast_decode_vector b p f)
decode_item decode_sequence scratch b p (decimal f) =
    let r = fast_decode_decimal b p f in taken_as decimal b.start r.ret r.buffer r.pmap r.result
decode_item decode_sequence scratch b p (sequence s) =
    let r = decode_sequence b p s in taken_as sequence r.start r.ret r.buffer r.pmap r.field

-- Where the loop over the fields ends: `start` and `saved` are the variables `start` and `pmap_bit`
-- (`spmap_bit`), `decoded` counts the fields that were decoded, and `fields` are those from the first on.
pub record Run (F : Type 0) : Type 0 where
  pub ret : Ret
  pub buffer : Buffer
  pub pmap : Pmap
  pub start : ℕ
  pub saved : ℕ
  pub decoded : ℕ
  pub fields : List F

abbrev pub stopped : {F : Type 0} → Ret → ℕ → Taken F → List F → Run F
stopped ret saved r fs = record {
  ret = ret;
  buffer = r.buffer;
  pmap = r.pmap;
  start = r.start;
  saved = saved;
  decoded = 0;
  fields = r.field ∷ fs;
}

abbrev pub one_more : {F : Type 0} → F → Run F → Run F
one_more f r = record r { decoded = suc r.decoded; fields = f ∷ r.fields }

-- Behind a field's case; `rest` is the run over the other fields.
abbrev pub behind_field : {F : Type 0} → Ret → ℕ → Taken F → List F → Run F → Run F
behind_field (ok _) saved r fs rest = one_more r.field rest
behind_field garbled saved r fs rest = stopped garbled saved r fs
behind_field partial saved r fs rest = stopped partial saved r fs

-- `for (; msg->decoded < msg->nr_fields; msg->decoded++)` over the fields that are left.
unfoldable pub decode_run :
    {F : Type 0} → (Buffer → Pmap → F → Taken F) → ℕ → Buffer → Pmap → List F → Run F
decode_run step saved b p [] = record {
  ret = ok tt;
  buffer = b;
  pmap = p;
  start = b.start;
  saved = saved;
  decoded = 0;
  fields = [];
}
decode_run step saved b p (f ∷ fs) =
    let r = step b p f in
    behind_field r.ret p.pmap_bit r fs (decode_run step p.pmap_bit r.buffer r.pmap fs)

-- `buffer_advance(buffer, start - buffer_start(buffer))`
abbrev pub back_to : ℕ → Buffer → Buffer
back_to start b = buffer_advance b (sub64 start b.start)
