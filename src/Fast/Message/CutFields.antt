-- ===== src/Fast/Message/CutFields.antt =====
-- The integer decoders of lib/proto/fast_message.c on a buffer of which only a part has arrived.
use libtrading.Base.{ℕ, ◌≡◌, refl, sym, ◌⊎◌, inl, inr, arith, Bool-cases, add64}
use mathlib.Core.Path.{subst₂}
use libtrading.Buffer.{Buffer}
use libtrading.Fast.Codec.{Parsed, ok, garbled, partial, parse_uint, parse_int}
use libtrading.Fast.Pmap.{Pmap, pmap_is_set, next_bit, advance}
use libtrading.Fast.Field.{
  Op, none, copy, incr, delta, default, constant, Field, Decoded, use_previous, use_reset,
  decode_constant,
}
use libtrading.Fast.Integer.{
  store, when_present, decode_switch, fast_decode_uint, fast_decode_int, lower_uint, lower_int,
  add_delta_uint, add_delta_int,
}
use libtrading.Fast.Message.Cut.{cut, Reaches, CutParse, parse_uint-cut, parse_int-cut}

-- A decoder on the cut and on the whole buffer: where it asks for more, the field is as before and the map
-- has at most moved on; else it does the same on both.
pub record CutField (m : ℕ) (b : Buffer) (q : Pmap) (f : Field ℕ) (short full : Decoded ℕ)
    : Type 0 where
  pub place : ℕ
  pub moved : short.buffer ≡ record b { start = place; end = m }
  pub reaches : Reaches m (record b { start = place })
  pub kept : short.ret ≡ partial → short.field ≡ f
  pub place_back : record (short.pmap) { pmap_bit = q.pmap_bit } ≡ q
  pub same : (short.ret ≡ partial) ⊎ (full ≡ record short { buffer = record b { start = place } })

cut_store :
    (m : ℕ) (b : Buffer) (make : ℕ → Field ℕ) (q p : Pmap) (f : Field ℕ)
    (short full : Parsed ℕ × Buffer)
    → record p { pmap_bit = q.pmap_bit } ≡ q
    → CutParse m b short full
    → CutField m b q f (store make short p f) (store make full p f)
cut_store m b make q p f (ok v, s) full back c = record {
  place = c.place;
  moved = c.moved;
  reaches = c.reaches;
  kept = λ e. absurd (cc);
  place_back = back;
  same = elim c.same [ inl e ↦ absurd (cc) | inr e ↦ inr (rw e refl) ];
}
cut_store m b make q p f (garbled, s) full back c = record {
  place = c.place;
  moved = c.moved;
  reaches = c.reaches;
  kept = λ e. refl;
  place_back = back;
  same = elim c.same [ inl e ↦ absurd (cc) | inr e ↦ inr (rw e refl) ];
}
cut_store m b make q p f (partial, s) full back c = record {
  place = c.place;
  moved = c.moved;
  reaches = c.reaches;
  kept = λ e. refl;
  place_back = back;
  same = inl refl;
}

-- Nothing is read.
cut_still :
    (m : ℕ) (b : Buffer) (q : Pmap) (f : Field ℕ) (short full : Decoded ℕ)
    → Reaches m b
    → short.buffer ≡ cut m b
    → (short.ret ≡ partial → short.field ≡ f)
    → record (short.pmap) { pmap_bit = q.pmap_bit } ≡ q
    → full ≡ record short { buffer = b }
    → CutField m b q f short full
cut_still m b q f short full r moved kept back same = record {
  place = b.start;
  moved = moved;
  reaches = r;
  kept = kept;
  place_back = back;
  same = inr same;
}

module _ (m : ℕ) (b : Buffer) (q : Pmap) (f : Field ℕ) (r : Reaches m b) where
  cut_previous :
      (kept : Field ℕ)
      → CutField m b q f
          (use_previous f.reset kept (cut m b) (advance q) f)
          (use_previous f.reset kept b (advance q) f)
  cut_previous kept =
      cut_still m b q f _ _ r (ground arith) (λ e. ground arith) (ground arith) (ground arith)

  cut_reset :
      CutField m b q f
        (use_reset f.reset (cut m b) (advance q) f)
        (use_reset f.reset b (advance q) f)
  cut_reset =
      cut_still m b q f _ _ r (ground arith) (λ e. ground arith) (ground arith) (ground arith)

  cut_constant :
      CutField m b q f (decode_constant f.reset (cut m b) q f) (decode_constant f.reset b q f)
  cut_constant =
      cut_still m b q f _ _ r (ground arith) (λ e. ground arith) (ground arith) (ground arith)

module _ (parse : Buffer → Parsed ℕ × Buffer) (lower add_delta : Field ℕ → ℕ → Field ℕ)
    (parses : (m : ℕ) (b : Buffer) → Reaches m b → CutParse m b (parse (cut m b)) (parse b)) (m : ℕ)
    (b : Buffer) (q : Pmap) (f : Field ℕ) (r : Reaches m b) where
  abbrev run : Buffer → Decoded ℕ
  run c = decode_switch parse lower add_delta c q f

  -- Both runs are those of `step`.
  cut_as :
      (step : Buffer → Decoded ℕ)
      → ((c : Buffer) → run c ≡ step c)
      → CutField m b q f (step (cut m b)) (step b)
      → CutField m b q f (run (cut m b)) (run b)
  cut_as step runs h = subst₂ (CutField m b q f) (sym (runs (cut m b))) (sym (runs b)) h

  cut_present :
      (absent : Buffer → Decoded ℕ)
      → CutField m b q f (absent (cut m b)) (absent b)
      → CutField m b q f
          (when_present parse lower (absent (cut m b)) (cut m b) q f)
          (when_present parse lower (absent b) b q f)
  cut_present absent h = elim (Bool-cases (pmap_is_set q (next_bit q))) [
    | inl set ↦ rw set (cut_store m b (lower f) q (advance q) f _ _ refl (parses m b r))
    | inr clear ↦ rw clear h
  ]

  cut_by : (o : Op) → f.op ≡ o → CutField m b q f (run (cut m b)) (run b)
  cut_by none h =
      cut_as (λ c. store (lower f) (parse c) q f) (λ c. ground arith)
        (cut_store m b (lower f) q q f _ _ refl (parses m b r))
  cut_by copy h =
      let absent = λ (c : Buffer). use_previous f.reset f c (advance q) f in
      cut_as (λ c. when_present parse lower (absent c) c q f) (λ c. ground arith)
        (cut_present absent (cut_previous m b q f r f))
  cut_by incr h =
      let kept : Field ℕ = record f { value = add64 f.value 1 } in
      let absent = λ (c : Buffer). use_previous f.reset kept c (advance q) f in
      cut_as (λ c. when_present parse lower (absent c) c q f) (λ c. ground arith)
        (cut_present absent (cut_previous m b q f r kept))
  cut_by delta h =
      cut_as (λ c. store (add_delta f) (parse_int c) q f) (λ c. ground arith)
        (cut_store m b (add_delta f) q q f _ _ refl (parse_int-cut m b r))
  cut_by default h =
      let absent = λ (c : Buffer). use_reset f.reset c (advance q) f in
      cut_as (λ c. when_present parse lower (absent c) c q f) (λ c. ground arith)
        (cut_present absent (cut_reset m b q f r))
  cut_by constant h =
      cut_as (λ c. decode_constant f.reset c q f) (λ c. ground arith) (cut_constant m b q f r)

pub fast_decode_uint-cut :
    (m : ℕ) (b : Buffer) (q : Pmap) (f : Field ℕ)
    → Reaches m b
    → CutField m b q f (fast_decode_uint (cut m b) q f) (fast_decode_uint b q f)
unfolding fast_decode_uint
fast_decode_uint-cut m b q f r =
    cut_by parse_uint lower_uint add_delta_uint parse_uint-cut m b q f r f.op refl

pub fast_decode_int-cut :
    (m : ℕ) (b : Buffer) (q : Pmap) (f : Field ℕ)
    → Reaches m b
    → CutField m b q f (fast_decode_int (cut m b) q f) (fast_decode_int b q f)
unfolding fast_decode_int
fast_decode_int-cut m b q f r =
    cut_by parse_int lower_int add_delta_int parse_int-cut m b q f r f.op refl
