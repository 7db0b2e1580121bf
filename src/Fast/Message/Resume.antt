-- ===== src/Fast/Message/Resume.antt =====
-- fast_message_decode of lib/proto/fast_message.c on a message that arrives in two parts.
use libtrading.Base.{
  ℕ, zero, suc, ◌+◌, ◌≤◌, ◌≡◌, refl, sym, ap, ◌∙◌, ◌⊎◌, Bool, true, false, inl, inr, not, ◌&&◌,
  arith, ◌==◌, List, [], ◌∷◌, ◌++◌, append_assoc, length, set, take, drop, All, none, some,
}
use mathlib.Core.Path.{subst₂}
use libtrading.Buffer.{Buffer, buffer_advance}
use libtrading.Fast.Codec.{ok, garbled, partial}
use libtrading.Fast.Pmap.{Ret}
use libtrading.Fast.Text.{Chars}
use libtrading.Fast.Message.{Item, Sequence, Message, Run, decode_run, back_to}
use libtrading.Fast.Message.Decode.{
  Session, Answer, fast_message_decode, decode_pmap, decode_tid, decode_fields, decode_field,
  behind_fields, with_index, run_message, get_msg,
}
use libtrading.Fast.Message.Cut.{cut, Reaches, back_to-start}
use libtrading.Fast.Message.Pauses.{IsNumber, IsPaused, glued, again, decode_run-cut}

module _ {ℓ} {A : Type ℓ} where
  drop-take :
      (n k : ℕ) (xs ys : List A) → n ≤ length xs → drop (n + k) (take n xs ++ ys) ≡ drop k ys
  drop-take zero k xs ys h = ap (λ (i : ℕ). drop i ys) (zero_add k)
    where
      zero_add : (k : ℕ) → 0 + k ≡ k
      zero_add k = omega arith
  drop-take (suc n) k [] ys h = absurd (omega arith)
  drop-take (suc n) k (x ∷ xs) ys h =
      let e : suc n + k ≡ suc (n + k) = omega arith in rw e (drop-take n k xs ys (omega arith))

  take-take :
      (n k : ℕ) (xs ys : List A)
      → n ≤ length xs
      → take (n + k) (take n xs ++ ys) ≡ take n xs ++ take k ys
  take-take zero k xs ys h = ap (λ (i : ℕ). take i ys) (zero_add k)
    where
      zero_add : (k : ℕ) → 0 + k ≡ k
      zero_add k = omega arith
  take-take (suc n) k [] ys h = absurd (omega arith)
  take-take (suc n) k (x ∷ xs) ys h =
      let e : suc n + k ≡ suc (n + k) = omega arith in
      rw e (ap (◌∷◌ x) (take-take n k xs ys (omega arith)))

  set-twice : (xs : List A) (i : ℕ) (v w : A) → set (set xs i v) i w ≡ set xs i w
  set-twice [] i v w = refl
  set-twice (x ∷ xs) zero v w = refl
  set-twice (x ∷ xs) (suc i) v w = ap (◌∷◌ x) (set-twice xs i v w)

All-drop : (n : ℕ) (fs : List (Item Sequence)) → All IsNumber fs → All IsNumber (drop n fs)
All-drop zero fs h = h
All-drop (suc n) [] h = h
All-drop (suc n) (f ∷ fs) h = All-drop n fs h.1

get_msg-set :
    (ms : List Message) (i : ℕ) (d d' : Message)
    → get_msg ms i ≡ some d
    → get_msg (set ms i d') i ≡ some d'
get_msg-set [] i d d' h = absurd (cc)
get_msg-set (m ∷ ms) zero d d' h = refl
get_msg-set (m ∷ ms) (suc i) d d' h = get_msg-set ms i d d' h

-- A message of integer fields, as far as it is decoded.
abbrev pub IsNumeric : Message → Type 0
IsNumeric m = All IsNumber m.fields × (m.decoded ≤ length m.fields)

-- The session whose buffer has arrived up to `m`.
abbrev pub cut_session : ℕ → Session → Session
cut_session m self = record self { rx_buffer = cut m self.rx_buffer }

-- The answer on the cut buffer, and the one on the whole: the same, or none, and then decoding again with
-- the rest there gives the whole's.
abbrev pub Resumes : Chars → ℕ → Answer → Answer → Type 0
Resumes scratch end short full =
    (full ≡ (short.0, cut_session end short.1))
    ⊎ ((short.0 ≡ none) × (fast_message_decode scratch (cut_session end short.1) ≡ full))

-- The preamble is there, or there is none.
abbrev pub has_preamble : Session → Bool
has_preamble self = not (self.preamble.nr_bytes == 0) && not self.preamble.is_valid

pub at_map :
    (scratch : Chars) (self : Session)
    → has_preamble self ≡ false
    → fast_message_decode scratch self ≡ decode_pmap scratch self
unfolding fast_message_decode
at_map scratch self h = rw h refl

pub at_id :
    (scratch : Chars) (self : Session)
    → self.pmap.is_valid ≡ true
    → decode_pmap scratch self ≡ decode_tid scratch self
unfolding decode_pmap
at_id scratch self h = rw h refl

at_fields :
    (scratch : Chars) (self : Session) (i : ℕ) (d : Message)
    → self.rx_message ≡ some i
    → get_msg self.rx_messages i ≡ some d
    → decode_tid scratch self ≡ decode_fields scratch i d self
unfolding decode_tid
at_fields scratch self i d h k =
    (λ j. decode_tid scratch (record self { rx_message = h j }))
    ∙ ap (with_index scratch (record self { rx_message = some i }) (some i)) k
    ∙ sym (λ j. decode_fields scratch i d (record self { rx_message = h j }))

-- What is left of a message that the run `r` has stopped in.
run_message-glued :
    (r s : Run (Item Sequence)) (m : Message)
    → m.decoded ≤ length m.fields
    → run_message s (run_message r m) ≡ run_message (glued r s) m
run_message-glued r s m h = λ i. record m { decoded = counts i; fields = joined i }
  where
    counts : m.decoded + r.decoded + s.decoded ≡ m.decoded + (r.decoded + s.decoded)
    counts = omega arith

    joined :
        take (m.decoded + r.decoded) (take m.decoded m.fields ++ r.fields) ++ s.fields
        ≡ take m.decoded m.fields ++ (take r.decoded r.fields ++ s.fields)
    joined =
        ap (λ (fs : List (Item Sequence)). fs ++ s.fields)
          (take-take m.decoded r.decoded m.fields r.fields h)
        ∙ append_assoc (take m.decoded m.fields) (take r.decoded r.fields) s.fields

decode_fields-run :
    (scratch : Chars) (i : ℕ) (d : Message) (self : Session)
    → decode_fields scratch i d self ≡ (
        let r =
          decode_run (decode_field scratch) 0 self.rx_buffer self.pmap (drop d.decoded d.fields) in
        behind_fields r.ret i r d self)
unfolding decode_fields
decode_fields-run scratch i d self = refl

-- Both runs end in the same way.
behind_fields-same :
    (ret : Ret) (i m place : ℕ) (d : Message) (self : Session) (short : Run (Item Sequence))
    → short.buffer ≡ record (self.rx_buffer) { start = place; end = m }
    → behind_fields ret i
        (record short { buffer = record (self.rx_buffer) { start = place } })
        d
        self
      ≡ (
        (behind_fields ret i short d (cut_session m self)).0,
        cut_session self.rx_buffer.end (behind_fields ret i short d (cut_session m self)).1,
      )
unfolding buffer_advance
behind_fields-same (ok u) i m place d self short moved = rw moved refl
behind_fields-same garbled i m place d self short moved = rw moved refl
behind_fields-same partial i m place d self short moved = rw moved refl

-- What a paused run is gone on with.
module _ (scratch : Chars) (i m : ℕ) (d : Message) (self : Session) (r : Run (Item Sequence)) where
  abbrev b : Buffer
  b = self.rx_buffer

  abbrev paused : Session
  paused = record self {
    rx_buffer = record b { start = r.start };
    pmap = record (r.pmap) { pmap_bit = r.saved };
    rx_messages = set self.rx_messages i (run_message r d);
  }

  -- The fields that are left are those behind the pause.
  paused-run :
      d.decoded ≤ length d.fields
      → decode_fields scratch i (run_message r d) paused
        ≡ behind_fields (again scratch b r).ret i (again scratch b r) (run_message r d) paused
  paused-run h =
      decode_fields-run scratch i (run_message r d) paused
      ∙ ap
          (λ (fs : List (Item Sequence)).
            let s = decode_run (decode_field scratch) 0 paused.rx_buffer paused.pmap fs in
            behind_fields s.ret i s (run_message r d) paused)
          (drop-take d.decoded r.decoded d.fields r.fields h)

  stored :
      (x y : Message)
      → x ≡ y
      → set (set self.rx_messages i (run_message r d)) i x ≡ set self.rx_messages i y
  stored x y e = set-twice self.rx_messages i (run_message r d) x ∙ ap (set self.rx_messages i) e

  paused-glued :
      (s : Run (Item Sequence)) (ret : Ret)
      → d.decoded ≤ length d.fields
      → behind_fields ret i s (run_message r d) paused ≡ behind_fields ret i (glued r s) d self
  paused-glued s (ok u) h =
      ap
        (λ (ms : List Message). (
          some i,
          record self {
            rx_buffer = s.buffer;
            last_tid = d.tid;
            rx_message = none;
            preamble = record (self.preamble) { is_valid = false };
            pmap = record (s.pmap) { is_valid = false };
            rx_messages = ms;
          },
        ))
        (stored _ _ (ap (λ (x : Message). record x { decoded = 0 }) (run_message-glued r s d h)))
  paused-glued s garbled h =
      ap
        (λ (ms : List Message).
          (none, record self { rx_buffer = s.buffer; pmap = s.pmap; rx_messages = ms }))
        (stored _ _ (run_message-glued r s d h))
  paused-glued s partial h =
      ap
        (λ (ms : List Message). (
          none,
          record self {
            rx_buffer = back_to s.start s.buffer;
            pmap = record (s.pmap) { pmap_bit = s.saved };
            rx_messages = ms;
          },
        ))
        (stored _ _ (run_message-glued r s d h))

-- The session is in the middle of a message: it has its map, and no preamble to read.
pub record IsUnderWay (self : Session) (m : ℕ) : Type 0 where
  pub no_preamble : has_preamble self ≡ false
  pub has_map : self.pmap.is_valid ≡ true
  pub reaches : Reaches m self.rx_buffer

paused_session :
    (scratch : Chars) (i m : ℕ) (d : Message) (self : Session) (short full : Run (Item Sequence))
    → IsUnderWay self m
    → self.rx_message ≡ some i
    → get_msg self.rx_messages i ≡ some d
    → d.decoded ≤ length d.fields
    → IsPaused scratch m self.rx_buffer self.pmap.is_valid short full
    → ((behind_fields short.ret i short d (cut_session m self)).0 ≡ none)
      × (fast_message_decode scratch (
            cut_session self.rx_buffer.end
              (behind_fields short.ret i short d (cut_session m self)).1)
          ≡ behind_fields full.ret i full d self)
paused_session scratch i m d self short full w open' found fits p =
    let stop = paused scratch i m d self short in
    let r = p.reaches in
    let back : back_to short.start short.buffer
        ≡ record (self.rx_buffer) { start = short.start; end = m } =
      ap (back_to short.start) p.moved
      ∙ back_to-start m short.start short.buffer.start self.rx_buffer
          (omega (arith, r.from, r.to, r.valid.bounded, r.valid.addressable)) p.placed in
    rw p.asks (
      refl,
      ap
            (λ (b : Buffer).
              fast_message_decode scratch (record stop { rx_buffer = cut self.rx_buffer.end b }))
            back
          ∙ at_map scratch stop w.no_preamble
          ∙ at_id scratch stop (p.same_flag ∙ w.has_map)
          ∙ at_fields scratch stop i (run_message short d) open'
              (get_msg-set self.rx_messages i d (run_message short d) found)
          ∙ paused-run scratch i m d self short fits
          ∙ paused-glued scratch i m d self short (again scratch self.rx_buffer short)
              (again scratch self.rx_buffer short).ret fits
          ∙ ap (λ (s : Run (Item Sequence)). behind_fields s.ret i s d self) (sym p.goes_on),
    )

pub Resumes-fields :
    (scratch : Chars) (i m : ℕ) (d : Message) (self : Session)
    → IsUnderWay self m
    → self.rx_message ≡ some i
    → get_msg self.rx_messages i ≡ some d
    → IsNumeric d
    → Resumes scratch self.rx_buffer.end
        (decode_fields scratch i d (cut_session m self))
        (decode_fields scratch i d self)
Resumes-fields scratch i m d self w open' found (numbers, fits) =
    let fs = drop d.decoded d.fields in
    let short = decode_run (decode_field scratch) 0 (cut m self.rx_buffer) self.pmap fs in
    let full = decode_run (decode_field scratch) 0 self.rx_buffer self.pmap fs in
    let c =
      decode_run-cut scratch fs m 0 self.rx_buffer self.pmap (All-drop d.decoded d.fields numbers)
        w.reaches in
    subst₂ (Resumes scratch self.rx_buffer.end)
      (sym (decode_fields-run scratch i d (cut_session m self)))
      (sym (decode_fields-run scratch i d self))
      (elim c.same [
        | inl p ↦ inr (paused_session scratch i m d self short full w open' found fits p)
        | inr e ↦ inl (
            ap (λ (r : Run (Item Sequence)). behind_fields r.ret i r d self) e
            ∙ behind_fields-same short.ret i m c.place d self short c.moved)
      ])
