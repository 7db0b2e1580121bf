-- ===== src/Fast/Message/Arrival.antt =====
-- fast_message_decode on the bytes of a whole message, from the presence map to the last field.
use libtrading.Base.{
  ℕ, zero, suc, ◌≤◌, ◌≡◌, refl, sym, ap, ◌∙◌, true, false, List, [], ◌∷◌, length, set, none, some,
  arith, int_of,
}
use mathlib.Core.Path.{subst}
use libtrading.Buffer.{Buffer}
use libtrading.Buffer.Contents.{Holds}
use libtrading.Fast.Codec.{ok, parse_uint}
use libtrading.Fast.Pmap.{Pmap, pmap_is_set, parse_pmap}
use libtrading.Fast.Text.{Chars}
use libtrading.Fast.Message.{Item, Sequence, Message, Run, decode_run}
use libtrading.Fast.Message.Decode.{
  Session, Answer, fast_get_msg, find_msg, get_msg, decode_field, decode_fields, decode_tid,
  decode_pmap, fast_message_decode, behind_tid, behind_pmap, behind_fields,
  fast_template_max_number,
}
use libtrading.Fast.Message.Runs.{AllReceived, RunReads}

-- A session between two messages, without a preamble, in which the id of `d` finds `d` at `i`.
pub record IsWaiting (self : Session) (i : ℕ) (d : Message) : Type 0 where
  pub no_preamble : self.preamble.nr_bytes ≡ 0
  pub no_map : self.pmap.is_valid ≡ false
  pub room : 8 ≤ length self.pmap.bytes
  pub between : self.rx_message ≡ none
  pub at_start : d.decoded ≡ 0
  pub found : fast_get_msg self.rx_messages d.tid ≡ some i
  pub message : get_msg self.rx_messages i ≡ some d

-- The decoder's answer to the message `e`, whose fields the encoder left as `is'`.
pub record MessageReceived (e : Message) (is' : List (Item Sequence)) (i : ℕ) (rest : List ℕ)
    (r : Answer) : Type 0 where
  pub answer : r.0 ≡ some i
  pub left : Holds r.1.rx_buffer rest
  pub last_tid : r.1.last_tid ≡ e.tid
  pub decoded : Message
  pub waiting : IsWaiting r.1 i decoded
  pub received : AllReceived e.fields is' decoded.fields

module _ (scratch : Chars) (self : Session) where
  at_map :
      self.preamble.nr_bytes ≡ 0
      → self.pmap.is_valid ≡ false
      → fast_message_decode scratch self
        ≡ behind_pmap scratch self.rx_buffer.start self (parse_pmap self.rx_buffer self.pmap)
  unfolding fast_message_decode decode_pmap
  at_map h k = ground arith

  at_id :
      self.rx_message ≡ none
      → pmap_is_set self.pmap 0 ≡ true
      → decode_tid scratch self
        ≡ behind_tid scratch self.rx_buffer.start self (parse_uint self.rx_buffer)
  unfolding decode_tid
  at_id h k = ground arith

  at_fields :
      (start tid i : ℕ) (b : Buffer) (d : Message)
      → fast_get_msg self.rx_messages tid ≡ some i
      → get_msg self.rx_messages i ≡ some d
      → behind_tid scratch start self (ok tid, b)
        ≡ decode_fields scratch i d (record self { rx_buffer = b; rx_message = some i })
  at_fields start tid i b d found message = rw found (rw message refl)

  at_end :
      (i : ℕ) (d : Message)
      → d.decoded ≡ 0
      → decode_fields scratch i d self ≡ (
          let r = decode_run (decode_field scratch) 0 self.rx_buffer self.pmap d.fields in
          behind_fields r.ret i r d self)
  unfolding decode_fields
  at_end i d h = ground arith

pub pmap_is_set-flags :
    (q : Pmap) (j : ℕ)
    → pmap_is_set (record q { is_valid = true; pmap_bit = 0 }) j ≡ pmap_is_set q j
unfolding pmap_is_set
pmap_is_set-flags q j = refl

-- A message is found by its id whatever becomes of its fields.
find_msg-set :
    (n : ℕ) (ms : List Message) (i tid : ℕ) (d d' : Message)
    → get_msg ms i ≡ some d
    → d'.tid ≡ d.tid
    → find_msg n (set ms i d') tid ≡ find_msg n ms tid
find_msg-set zero ms i tid d d' h e = refl
find_msg-set (suc n) [] i tid d d' h e = refl
find_msg-set (suc n) (m ∷ ms) zero tid d d' h e =
    let same : m ≡ d = cc in
    let id : d'.tid ≡ m.tid = e ∙ ap (λ (x : Message). x.tid) (sym same) in rw id refl
find_msg-set (suc n) (m ∷ ms) (suc i) tid d d' h e = rw (find_msg-set n ms i tid d d' h e) refl

get_msg-set :
    (ms : List Message) (i : ℕ) (d d' : Message)
    → get_msg ms i ≡ some d
    → get_msg (set ms i d') i ≡ some d'
get_msg-set [] i d d' h = absurd (cc)
get_msg-set (m ∷ ms) zero d d' h = refl
get_msg-set (m ∷ ms) (suc i) d d' h = get_msg-set ms i d d' h

-- What the loop over the fields leaves is the whole message.
ends :
    (scratch : Chars) (e d : Message) (is' : List (Item Sequence)) (self : Session) (i : ℕ)
    (rest : List ℕ) (r : Run (Item Sequence))
    → self.preamble.nr_bytes ≡ 0
    → 8 ≤ length self.pmap.bytes
    → d.decoded ≡ 0
    → d.tid ≡ e.tid
    → fast_get_msg self.rx_messages d.tid ≡ some i
    → get_msg self.rx_messages i ≡ some d
    → RunReads e.fields is' rest self.pmap r
    → MessageReceived e is' i rest (behind_fields r.ret i r d self)
unfolding fast_get_msg
ends scratch e d is' self i rest r none_before room at_start same found message reads =
    let d' : Message = record d { decoded = 0; fields = r.fields } in
    rw reads.done (
      rw at_start (record {
        answer = refl;
        left = reads.left;
        last_tid = same;
        decoded = d';
        waiting = record {
          no_preamble = none_before;
          no_map = refl;
          room = rw reads.same_bytes room;
          between = refl;
          at_start = refl;
          found =
              find_msg-set fast_template_max_number self.rx_messages i (int_of d.tid) d d' message
                refl
              ∙ found;
          message = get_msg-set self.rx_messages i d d' message;
        };
        received = reads.received;
      }))

-- Behind the presence map `q`: the id and the fields.
pub fast_message_decode_lem :
    (scratch : Chars) (e d : Message) (is' : List (Item Sequence)) (self : Session) (i : ℕ)
    (rest : List ℕ) (b b' : Buffer) (q : Pmap)
    → IsWaiting self i d
    → d.tid ≡ e.tid
    → parse_pmap self.rx_buffer self.pmap ≡ (ok tt, b, q)
    → length q.bytes ≡ length self.pmap.bytes
    → pmap_is_set q 0 ≡ true
    → parse_uint b ≡ (ok e.tid, b')
    → RunReads e.fields is' rest
        (record q { is_valid = true; pmap_bit = 0 })
        (decode_run
          (decode_field scratch)
          0
          b'
          (record q { is_valid = true; pmap_bit = 0 })
          d.fields)
    → MessageReceived e is' i rest (fast_message_decode scratch self)
fast_message_decode_lem scratch e d is' self i rest b b' q w same map long first id reads =
    let p : Pmap = record q { is_valid = true; pmap_bit = 0 } in
    let at' : Session = record self { rx_buffer = b; pmap = p } in
    let open' : Session = record at' { rx_buffer = b'; rx_message = some i } in
    let run = decode_run (decode_field scratch) 0 b' p d.fields in
    let reached : fast_message_decode scratch self ≡ behind_fields run.ret i run d open' =
      at_map scratch self w.no_preamble w.no_map
      ∙ ap (behind_pmap scratch self.rx_buffer.start self) map
      ∙ at_id scratch at' w.between (pmap_is_set-flags q 0 ∙ first)
      ∙ ap (behind_tid scratch b.start at') id
      ∙ at_fields scratch at' b.start e.tid i b' d
          (ap (fast_get_msg self.rx_messages) (sym same) ∙ w.found) w.message
      ∙ at_end scratch open' i d w.at_start in
    subst (MessageReceived e is' i rest) (sym reached) (
      ends scratch e d is' open' i rest run w.no_preamble (omega (arith, long, w.room)) w.at_start
        same w.found w.message reads)
