-- ===== src/Fast/Message/Split.antt =====
-- The stages of fast_message_decode of lib/proto/fast_message.c in front of the fields, on a message that
-- arrives in two parts.
use libtrading.Base.{
  ℕ, zero, suc, ◌+◌, ◌-◌, ◌%◌, ◌^◌, ◌≤◌, ◌<◌, ◌≡◌, refl, sym, ap, ◌∙◌, true, false, inl, inr, arith,
  Bool-cases, ltb, ltb→lt, ltb→le, if◌then◌else◌, List, [], ◌∷◌, All, Option, none, some,
}
use mathlib.Core.Path.{subst, subst₂}
use libtrading.Buffer.{Buffer, buffer_advance, buffer_size, buffer_get_8, buffer_get_n}
use libtrading.Fast.Codec.{Parsed, ok, garbled, partial, parse_uint}
use libtrading.Fast.Pmap.{Pmap, Ret, parse_pmap, pmap_is_set}
use libtrading.Fast.Text.{Chars}
use libtrading.Fast.Message.{Message, back_to}
use libtrading.Fast.Message.Decode.{
  Session, Answer, fast_message_decode, decode_pmap, decode_tid, behind_tid, behind_pmap,
  with_index, with_preamble, get_msg, message_at, fast_get_msg,
}
use libtrading.Fast.Message.Cut.{
  cut, Reaches, CutParse, cut_here, parse_uint-cut, back_to-start, next_start, next-Reaches,
}
use libtrading.Fast.Message.CutMap.{CutPmap, parse_pmap-cut}
use libtrading.Fast.Message.Resume.{
  IsNumeric, cut_session, Resumes, has_preamble, at_map, at_id, IsUnderWay, Resumes-fields,
}

abbrev pub AllNumeric : Session → Type 0
AllNumeric self = All IsNumeric self.rx_messages

get_msg-IsNumeric :
    (ms : List Message) (i : ℕ) (d : Message)
    → All IsNumeric ms
    → get_msg ms i ≡ some d
    → IsNumeric d
get_msg-IsNumeric [] i d h e = absurd (cc)
get_msg-IsNumeric (m ∷ ms) zero d h e = let same : m ≡ d = cc in subst IsNumeric same h.0
get_msg-IsNumeric (m ∷ ms) (suc i) d h e = get_msg-IsNumeric ms i d h.1 e

module _ (scratch : Chars) (m : ℕ) where
  Resumes-found :
      (self : Session) (i : ℕ) (x : Option Message)
      → IsUnderWay self m
      → AllNumeric self
      → get_msg self.rx_messages i ≡ x
      → Resumes scratch self.rx_buffer.end
          (with_index scratch (cut_session m self) (some i) x)
          (with_index scratch self (some i) x)
  Resumes-found self i none w all e = inl refl
  Resumes-found self i (some d) w all e =
      Resumes-fields scratch i m d (record self { rx_message = some i })
        (record { no_preamble = w.no_preamble; has_map = w.has_map; reaches = w.reaches }) refl e
        (get_msg-IsNumeric self.rx_messages i d all e)

  Resumes-index :
      (self : Session) (o : Option ℕ)
      → IsUnderWay self m
      → AllNumeric self
      → Resumes scratch self.rx_buffer.end
          (with_index scratch (cut_session m self) o (message_at self.rx_messages o))
          (with_index scratch self o (message_at self.rx_messages o))
  Resumes-index self none w all = inl refl
  Resumes-index self (some i) w all = Resumes-found self i (get_msg self.rx_messages i) w all refl

  -- Behind the template id.
  Resumes-id :
      (self : Session) (short full : Parsed ℕ × Buffer)
      → IsUnderWay self m
      → AllNumeric self
      → CutParse m self.rx_buffer short full
      → decode_tid scratch self ≡ behind_tid scratch self.rx_buffer.start self full
      → Resumes scratch self.rx_buffer.end
          (behind_tid scratch self.rx_buffer.start (cut_session m self) short)
          (behind_tid scratch self.rx_buffer.start self full)
  Resumes-id self (ok tid, s) full w all c goes = elim c.same [
    | inl e ↦ absurd (cc)
    | inr e ↦
        rw (c.moved, e)
          (Resumes-index (record self { rx_buffer = record (self.rx_buffer) { start = c.place } })
            (fast_get_msg self.rx_messages tid)
            (record { no_preamble = w.no_preamble; has_map = w.has_map; reaches = c.reaches }) all)
  ]
  Resumes-id self (garbled, s) full w all c goes = elim c.same [
    | inl e ↦ absurd (cc)
    | inr e ↦ rw (c.moved, e) (inl refl)
  ]
  Resumes-id self (partial, s) full w all c goes =
      let b = self.rx_buffer in
      let back : back_to b.start s ≡ cut m b =
        ap (back_to b.start) c.moved
        ∙ back_to-start m b.start c.place b
            (omega (
              arith, w.reaches.from, w.reaches.to, w.reaches.valid.bounded,
              w.reaches.valid.addressable,
            ))
            (omega (
              arith, c.reaches.from, c.reaches.to, w.reaches.valid.bounded,
              w.reaches.valid.addressable,
            )) in
      inr (
        refl,
        ap (λ (t : Buffer). fast_message_decode scratch (record self { rx_buffer = cut b.end t }))
              back
            ∙ at_map scratch self w.no_preamble
            ∙ at_id scratch self w.has_map
            ∙ goes,
      )

  decode_tid-open :
      (self : Session) (i : ℕ)
      → self.rx_message ≡ some i
      → decode_tid scratch self ≡ with_index scratch self (some i) (get_msg self.rx_messages i)
  unfolding decode_tid
  decode_tid-open self i h =
      (λ j. decode_tid scratch (record self { rx_message = h j }))
      ∙ sym (λ j.
        with_index scratch (record self { rx_message = h j }) (some i) (get_msg self.rx_messages i))

  abbrev id_of : Session → Parsed ℕ × Buffer
  id_of self =
      if pmap_is_set self.pmap 0
      then parse_uint self.rx_buffer
      else (ok self.last_tid, self.rx_buffer)

  decode_tid-closed :
      (self : Session)
      → self.rx_message ≡ none
      → decode_tid scratch self ≡ behind_tid scratch self.rx_buffer.start self (id_of self)
  unfolding decode_tid
  decode_tid-closed self h =
      (λ j. decode_tid scratch (record self { rx_message = h j }))
      ∙ sym (λ j.
        behind_tid scratch self.rx_buffer.start (record self { rx_message = h j }) (id_of self))

  id_of-cut :
      (self : Session)
      → Reaches m self.rx_buffer
      → CutParse m self.rx_buffer (id_of (cut_session m self)) (id_of self)
  id_of-cut self r = elim (Bool-cases (pmap_is_set self.pmap 0)) [
    | inl sent ↦ rw sent (parse_uint-cut m self.rx_buffer r)
    | inr same ↦ rw same (cut_here m self.rx_buffer (ok self.last_tid) r)
  ]

  Resumes-tid :
      (self : Session) (o : Option ℕ)
      → self.rx_message ≡ o
      → IsUnderWay self m
      → AllNumeric self
      → Resumes scratch self.rx_buffer.end
          (decode_tid scratch (cut_session m self))
          (decode_tid scratch self)
  Resumes-tid self (some i) e w all =
      subst₂ (Resumes scratch self.rx_buffer.end) (sym (decode_tid-open (cut_session m self) i e))
        (sym (decode_tid-open self i e))
        (Resumes-found self i (get_msg self.rx_messages i) w all refl)
  Resumes-tid self none e w all =
      subst₂ (Resumes scratch self.rx_buffer.end) (sym (decode_tid-closed (cut_session m self) e))
        (sym (decode_tid-closed self e))
        (Resumes-id self (id_of (cut_session m self)) (id_of self) w all (id_of-cut self w.reaches)
          (decode_tid-closed self e))

  -- Behind the presence map.
  behind_pmap-map :
      (self : Session) (start : ℕ) (p : Pmap) (x : Ret × Buffer × Pmap)
      → behind_pmap scratch start (record self { pmap = p }) x ≡ behind_pmap scratch start self x
  behind_pmap-map self start p (ok u, b, q) = refl
  behind_pmap-map self start p (garbled, b, q) = refl
  behind_pmap-map self start p (partial, b, q) = refl

  decode_pmap-closed :
      (self : Session)
      → self.pmap.is_valid ≡ false
      → decode_pmap scratch self
        ≡ behind_pmap scratch self.rx_buffer.start self (parse_pmap self.rx_buffer self.pmap)
  unfolding decode_pmap
  decode_pmap-closed self h = rw h refl

  Resumes-pmap :
      (self : Session) (short full : Ret × Buffer × Pmap)
      → has_preamble self ≡ false
      → self.pmap.is_valid ≡ false
      → Reaches m self.rx_buffer
      → AllNumeric self
      → CutPmap m self.rx_buffer self.pmap short full
      → Resumes scratch self.rx_buffer.end
          (behind_pmap scratch self.rx_buffer.start (cut_session m self) short)
          (behind_pmap scratch self.rx_buffer.start self full)
  unfolding buffer_advance
  Resumes-pmap self (ok u, s, p) full none_before closed r all c = elim c.same [
    | inl (e, _) ↦ absurd (cc)
    | inr e ↦
        rw (c.moved, e)
          (Resumes-tid
            (record self {
              rx_buffer = record (self.rx_buffer) { start = c.place };
              pmap = record p { is_valid = true; pmap_bit = 0 };
            })
            self.rx_message refl
            (record { no_preamble = none_before; has_map = refl; reaches = c.reaches }) all)
  ]
  Resumes-pmap self (garbled, s, p) full none_before closed r all c = elim c.same [
    | inl (e, _) ↦ absurd (cc)
    | inr e ↦ rw (c.moved, e) (inl refl)
  ]
  Resumes-pmap self (partial, s, p) full none_before closed r all c = elim c.same [
    | inl (_, once_more) ↦
        let b = self.rx_buffer in
        let next : Session = record self { pmap = p } in
        let back : back_to b.start s ≡ cut m b =
          ap (back_to b.start) c.moved
          ∙ back_to-start m b.start c.place b
              (omega (arith, r.from, r.to, r.valid.bounded, r.valid.addressable))
              (omega (arith, c.reaches.from, c.reaches.to, r.valid.bounded, r.valid.addressable)) in
        inr (
          refl,
          ap (λ (t : Buffer). fast_message_decode scratch (record next { rx_buffer = cut b.end t }))
                back
              ∙ at_map scratch next none_before
              ∙ decode_pmap-closed next (c.flag ∙ closed)
              ∙ ap (behind_pmap scratch b.start next) once_more
              ∙ behind_pmap-map self b.start p full,
        )
    | inr e ↦ rw (c.moved, e) (inl refl)
  ]

  Resumes-map :
      (self : Session)
      → has_preamble self ≡ false
      → Reaches m self.rx_buffer
      → AllNumeric self
      → Resumes scratch self.rx_buffer.end
          (decode_pmap scratch (cut_session m self))
          (decode_pmap scratch self)
  Resumes-map self none_before r all = elim (Bool-cases self.pmap.is_valid) [
    | inl there ↦
        subst₂ (Resumes scratch self.rx_buffer.end) (sym (at_id scratch (cut_session m self) there))
          (sym (at_id scratch self there))
          (Resumes-tid self self.rx_message refl
            (record { no_preamble = none_before; has_map = there; reaches = r }) all)
    | inr closed ↦
        subst₂ (Resumes scratch self.rx_buffer.end)
          (sym (decode_pmap-closed (cut_session m self) closed))
          (sym (decode_pmap-closed self closed))
          (Resumes-pmap self _ _ none_before closed r all
            (parse_pmap-cut m self.rx_buffer self.pmap r))
  ]

-- The bytes of a preamble that has arrived.
record CutBytes (m : ℕ) (b : Buffer) (short full : List ℕ × Buffer) : Type 0 where
  same_bytes : short.0 ≡ full.0
  moved : short.1 ≡ cut m full.1
  reaches : Reaches m full.1
  same_end : full.1.end ≡ b.end

buffer_get_n-cut :
    (n m : ℕ) (b : Buffer)
    → Reaches m b
    → b.start + n ≤ m
    → CutBytes m b (buffer_get_n (cut m b) n) (buffer_get_n b n)
unfolding buffer_get_n buffer_get_8
buffer_get_n-cut zero m b r h = record {
  same_bytes = refl;
  moved = refl;
  reaches = r;
  same_end = refl;
}
buffer_get_n-cut (suc n) m b r h =
    let r' = next-Reaches m b r (omega arith) in
    let c =
      buffer_get_n-cut n m (next_start b) r'
        (omega (arith, r.to, r.valid.bounded, r.valid.addressable, h)) in
    record {
      same_bytes = ap (◌∷◌ (b.bytes b.start % 256)) c.same_bytes;
      moved = c.moved;
      reaches = c.reaches;
      same_end = c.same_end;
    }

module _ (scratch : Chars) (self : Session) (h : has_preamble self ≡ true) where
  decode-short :
      buffer_size self.rx_buffer < self.preamble.nr_bytes
      → fast_message_decode scratch self
        ≡ (none, record self { rx_buffer = back_to self.rx_buffer.start self.rx_buffer })
  unfolding fast_message_decode
  decode-short less = ground arith

  decode-preamble :
      self.preamble.nr_bytes ≤ buffer_size self.rx_buffer
      → fast_message_decode scratch self
        ≡ decode_pmap scratch
            (with_preamble self (buffer_get_n self.rx_buffer self.preamble.nr_bytes))
  unfolding fast_message_decode
  decode-preamble enough = ground arith

buffer_size-cut : (m : ℕ) (b : Buffer) → Reaches m b → buffer_size (cut m b) ≡ m - b.start
unfolding buffer_size
buffer_size-cut m b r = omega (arith, r.from, r.to, r.valid.bounded, r.valid.addressable)

buffer_size-whole : (m : ℕ) (b : Buffer) → Reaches m b → buffer_size b ≡ b.end - b.start
unfolding buffer_size
buffer_size-whole m b r = omega (arith, r.from, r.to, r.valid.bounded, r.valid.addressable)

with_preamble-none :
    (self : Session) (x : List ℕ × Buffer) → has_preamble (with_preamble self x) ≡ false
with_preamble-none self (cs, b) = ground arith

-- However a message is cut in two, fast_message_decode comes to the same: for messages of integer fields, a
-- session anywhere in a message and any part of its bytes, the answer and the session on that part
-- are those on all the bytes, up to the end of the buffer; or there is no answer, and decoding again,
-- when the rest has arrived, gives the answer and the session that all the bytes give at once. The
-- buffer is valid, and no message has decoded more fields than it has.
pub fast_message_decode-Resumes :
    (scratch : Chars) (m : ℕ) (self : Session)
    → Reaches m self.rx_buffer
    → AllNumeric self
    → Resumes scratch self.rx_buffer.end
        (fast_message_decode scratch (cut_session m self))
        (fast_message_decode scratch self)
fast_message_decode-Resumes scratch m self r all = elim (Bool-cases (has_preamble self)) [
  | inr none_before ↦
      subst₂ (Resumes scratch self.rx_buffer.end)
        (sym (at_map scratch (cut_session m self) none_before))
        (sym (at_map scratch self none_before)) (Resumes-map scratch m self none_before r all)
  | inl waits ↦ elim (Bool-cases (ltb (m - self.rx_buffer.start) self.preamble.nr_bytes)) [
    | inl less ↦
        let b = self.rx_buffer in
        let top : b.start < 2 ^ 64 =
          omega (arith, r.from, r.to, r.valid.bounded, r.valid.addressable) in
        subst (λ (s : Answer). Resumes scratch b.end s (fast_message_decode scratch self))
          (sym (
            decode-short scratch (cut_session m self) waits
              (omega (arith, buffer_size-cut m b r, ltb→lt _ _ less))))
          (inr (
            refl,
            ap
                (λ (t : Buffer).
                  fast_message_decode scratch (record self { rx_buffer = cut b.end t }))
                (back_to-start m b.start b.start b top top),
          ))
    | inr enough ↦
        let b = self.rx_buffer in
        let n = self.preamble.nr_bytes in
        let c = buffer_get_n-cut n m b r (omega (arith, r.from, ltb→le _ _ enough)) in
        let next = with_preamble self (buffer_get_n b n) in
        subst₂ (Resumes scratch b.end)
          (sym (
            decode-preamble scratch (cut_session m self) waits
              (omega (arith, buffer_size-cut m b r, ltb→le _ _ enough))))
          (sym (
            decode-preamble scratch self waits
              (omega (arith, buffer_size-whole m b r, r.to, r.from, ltb→le _ _ enough))))
          (subst₂
            (λ (end : ℕ) (s : Session).
              Resumes scratch end (decode_pmap scratch s) (decode_pmap scratch next))
            c.same_end
            (λ i. record self {
              rx_buffer = (sym c.moved) i;
              preamble = record (self.preamble) { is_valid = true; bytes = (sym c.same_bytes) i };
            })
            (Resumes-map scratch m next (with_preamble-none self (buffer_get_n b n)) c.reaches all))
  ]
]
