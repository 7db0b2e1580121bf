-- ===== src/Fast/Message/RoundTrip.antt =====
-- A message of integer fields between fast_message_encode and fast_message_decode of
-- lib/proto/fast_message.c.
use libtrading.Base.{
  ℕ, suc, ◌*◌, ◌^◌, ◌≤◌, ◌<◌, ◌≡◌, refl, sym, ◌∙◌, true, List, [], ◌++◌, append_assoc, length,
  arith, le→ltb,
}
use libtrading.Buffer.{Buffer, buffer_remaining}
use libtrading.Buffer.Contents.{Holds, contents}
use libtrading.Fast.Codec.{transfer_uint, transfer_size_uint, parse_uint}
use libtrading.Fast.Codec.Groups.{groups}
use libtrading.Fast.Codec.Unsigned.{transfer_uint-Holds, parse_uint-groups, transfer_size_uint-le}
use libtrading.Fast.Pmap.{Pmap, pmap_is_set, parse_pmap}
use libtrading.Fast.Text.{Chars}
use libtrading.Fast.Message.{Item, Sequence, Message, decode_run}
use libtrading.Fast.Message.Decode.{Session, decode_field, fast_message_decode}
use libtrading.Fast.Message.Encode.{
  encode_run, first_map, trimmed, MessageSent, Sent, finish_message, fast_message_encode,
}
use libtrading.Fast.Message.Runs.{AllEnds, IsOpen, RunReads, RunDelivers, run_delivers}
use libtrading.Fast.Message.Wire.{sealed, put_map-Holds, parse_pmap-sealed, length-sealed}
use libtrading.Fast.Message.Maps.{
  trimmed-le, first_map-IsOpen, pmap_bit-first_map, pmap_is_set-first_map, pmap_is_set-sealed,
  trimmed-pos,
}
use libtrading.Fast.Message.Arrival.{
  IsWaiting, MessageReceived, fast_message_decode_lem, pmap_is_set-flags,
}

-- The bytes of the two buffers, and what the decoder's loop makes of the fields'.
record Written (scratch : Chars) (e : Message) (ds : List (Item Sequence)) (out : MessageSent)
    : Type 0 where
  success : out.success ≡ true
  last : Pmap
  last_open : IsOpen last 0
  first : pmap_is_set last 0 ≡ true
  map : Holds out.pmap_buf (sealed (trimmed 8 last.bytes) last.bytes)
  bytes : List ℕ
  body : Holds out.msg_buf (groups (transfer_size_uint e.tid) e.tid ++ bytes)
  reads :
      (saved : ℕ) (src : Buffer) (q : Pmap) (rest : List ℕ)
      → q.pmap_bit ≡ 0
      → ((j : ℕ) → pmap_is_set q j ≡ pmap_is_set last j)
      → Holds src (bytes ++ rest)
      → RunReads e.fields out.msg.fields rest q (decode_run (decode_field scratch) saved src q ds)

-- Behind the template id.
finished :
    (scratch : Chars) (e : Message) (ds : List (Item Sequence)) (pmap_buf : Buffer)
    (out : Sent (List (Item Sequence)))
    → Holds pmap_buf []
    → 8 ≤ buffer_remaining pmap_buf
    → RunDelivers scratch e.fields ds first_map (groups (transfer_size_uint e.tid) e.tid) out
    → Written scratch e ds (finish_message out.success pmap_buf out e)
finished scratch e ds pmap_buf out empty room r =
    let n = trimmed 8 out.pmap.bytes in
    rw r.success (
      rw (le→ltb (buffer_remaining pmap_buf) n (omega (arith, trimmed-le 8 out.pmap.bytes)))
        (record {
          success = refl;
          last = out.pmap;
          last_open = r.last;
          first = r.kept 0 (omega arith) ∙ pmap_is_set-first_map;
          map =
              put_map-Holds n out.pmap.bytes pmap_buf [] r.last.well_formed.in_range empty
                (omega (arith, trimmed-le 8 out.pmap.bytes));
          bytes = r.bytes;
          body = r.written;
          reads = λ saved src q rest place bits h.
              r.reads saved src q rest (place ∙ sym pmap_bit-first_map) bits h;
        }))

fast_message_encode-Written :
    (scratch : Chars) (e : Message) (ds : List (Item Sequence)) (pmap_buf msg_buf : Buffer)
    → e.tid < 2 ^ 31
    → length e.fields < 56
    → AllEnds e.fields ds
    → Holds pmap_buf []
    → 8 ≤ buffer_remaining pmap_buf
    → Holds msg_buf []
    → 9 * suc (length e.fields) ≤ buffer_remaining msg_buf
    → Written scratch e ds (fast_message_encode pmap_buf msg_buf e)
unfolding fast_message_encode
fast_message_encode-Written scratch e ds pmap_buf msg_buf small few ends empty room empty' room' =
    let b = (transfer_uint msg_buf e.tid).1 in
    let (done, held, left) =
      transfer_uint-Holds e.tid msg_buf [] (omega arith) empty'
        (omega (arith, transfer_size_uint-le e.tid (omega arith))) in
    let sent : transfer_uint msg_buf e.tid ≡ (true, b) = λ i. (done i, b) in
    rw sent (
      finished scratch e ds pmap_buf (encode_run b first_map e.fields) empty room (
        run_delivers scratch e.fields ds b first_map (groups (transfer_size_uint e.tid) e.tid) ends
          (first_map-IsOpen (length e.fields) few) held (omega (arith, left))))

-- What the two ends of a message have in common.
pub record MessageEnds (e d : Message) : Type 0 where
  pub same_tid : d.tid ≡ e.tid
  pub small_tid : e.tid < 2 ^ 31
  pub few : length e.fields < 56
  pub fields : AllEnds e.fields d.fields

written_received :
    (scratch : Chars) (e d : Message) (self : Session) (i : ℕ) (rest : List ℕ) (out : MessageSent)
    → MessageEnds e d
    → IsWaiting self i d
    → Written scratch e d.fields out
    → Holds self.rx_buffer (contents out.pmap_buf ++ (contents out.msg_buf ++ rest))
    → MessageReceived e out.msg.fields i rest (fast_message_decode scratch self)
written_received scratch e d self i rest out ends w wr h =
    let n = trimmed 8 wr.last.bytes in
    let used = sealed n wr.last.bytes in
    let body = groups (transfer_size_uint e.tid) e.tid ++ (wr.bytes ++ rest) in
    let whole : Holds self.rx_buffer (used ++ body) =
      rw append_assoc at (rw wr.body.reads at (rw wr.map.reads at h)) in
    let long : n ≤ length wr.last.bytes =
      omega
        (arith, trimmed-le 8 wr.last.bytes, wr.last_open.well_formed.within, wr.last_open.eight) in
    let m =
      parse_pmap-sealed n wr.last.bytes self.rx_buffer self.pmap body
        (trimmed-pos wr.last wr.last_open.eight wr.first) long (trimmed-le 8 wr.last.bytes) w.room
        whole in
    let q = (parse_pmap self.rx_buffer self.pmap).2 in
    let b = (parse_pmap self.rx_buffer self.pmap).1 in
    let (id, left) =
      parse_uint-groups e.tid b (wr.bytes ++ rest) (omega (arith, ends.small_tid)) m.left in
    let bits = λ (j : ℕ).
      pmap_is_set-sealed wr.last q j wr.last_open.well_formed wr.last_open.eight
        (omega (arith, m.size, length-sealed n wr.last.bytes long)) m.bytes in
    fast_message_decode_lem scratch e d out.msg.fields self i rest b (parse_uint b).1 q w
      ends.same_tid (λ k. (m.ret k, b, q)) m.same_length (bits 0 ∙ wr.first)
      (λ k. (id k, (parse_uint b).1))
      (wr.reads 0 (parse_uint b).1 (record q { is_valid = true; pmap_bit = 0 }) rest refl
        (λ j. pmap_is_set-flags q j ∙ bits j) left)

-- A message of int and uint fields that fast_message_encode writes into two empty buffers is decoded by
-- fast_message_decode from the bytes of both, map first, with any bytes behind: every field arrives,
-- empty exactly when the sender's has no value and else with its value, and the two ends of every
-- field agree again; the bytes behind are left, and the session waits for the next message with the
-- template id of this one as its last. It holds for fewer than 56 fields of every operator and presence, each
-- as the field's own round trip asks (its ends agree, its value can be sent), a template id below 2^31 by which
-- the receiver finds its message, room for eight bytes of map and for nine bytes for the id and each
-- field, and a session without preamble that waits for a message.
pub fast_message_decode-fast_message_encode :
    (scratch : Chars) (e d : Message) (pmap_buf msg_buf : Buffer) (self : Session) (i : ℕ)
    (rest : List ℕ)
    → MessageEnds e d
    → IsWaiting self i d
    → Holds pmap_buf []
    → 8 ≤ buffer_remaining pmap_buf
    → Holds msg_buf []
    → 9 * suc (length e.fields) ≤ buffer_remaining msg_buf
    → Holds self.rx_buffer (
        contents (fast_message_encode pmap_buf msg_buf e).pmap_buf
        ++ (contents (fast_message_encode pmap_buf msg_buf e).msg_buf ++ rest))
    → ((fast_message_encode pmap_buf msg_buf e).success ≡ true)
      × MessageReceived e
          (fast_message_encode pmap_buf msg_buf e).msg.fields
          i
          rest
          (fast_message_decode scratch self)
fast_message_decode-fast_message_encode scratch e d pmap_buf msg_buf self i rest ends w empty room
      empty' room' h =
    let wr =
      fast_message_encode-Written scratch e d.fields pmap_buf msg_buf ends.small_tid ends.few
        ends.fields empty room empty' room' in
    (wr.success, written_received scratch e d self i rest _ ends w wr h)
