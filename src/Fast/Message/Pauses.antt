-- ===== src/Fast/Message/Pauses.antt =====
-- The loop over the fields of a message on a buffer of which only a part has arrived.
use libtrading.Base.{
  ℕ, suc, ◌+◌, ◌≤◌, ◌<◌, ◌≡◌, refl, ◌≢◌, sym, ap, ◌∙◌, ◌⊎◌, Bool, ◌^◌, inl, inr, arith, List, [],
  ◌∷◌, ◌++◌, length, take, drop, All,
}
use mathlib.Core.Path.{subst, subst₂}
use libtrading.Buffer.{Buffer}
use libtrading.Fast.Codec.{ok, garbled, partial}
use libtrading.Fast.Pmap.{Pmap, Ret}
use libtrading.Fast.Text.{Chars}
use libtrading.Fast.Message.{
  Item, int, uint, Sequence, Taken, Run, decode_run, behind_field, one_more, stopped,
}
use libtrading.Fast.Message.Decode.{decode_field}
use libtrading.Fast.Message.Cut.{cut, Reaches}
use libtrading.Fast.Message.CutFields.{fast_decode_uint-cut, fast_decode_int-cut}

abbrev pub IsNumber : Item Sequence → Type 0
IsNumber (int f) = Unit {0}
IsNumber (uint f) = Unit {0}
IsNumber _ = ⊥

-- A field on the cut and on the whole buffer.
record CutItem (m : ℕ) (b : Buffer) (q : Pmap) (f : Item Sequence)
    (short full : Taken (Item Sequence)) : Type 0 where
  place : ℕ
  moved : short.buffer ≡ record b { start = place; end = m }
  reaches : Reaches m (record b { start = place })
  started : short.start ≡ b.start
  kept : short.ret ≡ partial → short.field ≡ f
  place_back : record (short.pmap) { pmap_bit = q.pmap_bit } ≡ q
  same : (short.ret ≡ partial) ⊎ (full ≡ record short { buffer = record b { start = place } })

decode_field-cut :
    (scratch : Chars) (m : ℕ) (b : Buffer) (q : Pmap) (f : Item Sequence)
    → IsNumber f
    → Reaches m b
    → CutItem m b q f (decode_field scratch (cut m b) q f) (decode_field scratch b q f)
decode_field-cut scratch m b q (int f) h r =
    let c = fast_decode_int-cut m b q f r in
    record {
      place = c.place;
      moved = c.moved;
      reaches = c.reaches;
      started = refl;
      kept = λ e. ap int (c.kept e);
      place_back = c.place_back;
      same = elim c.same [ inl e ↦ inl e | inr e ↦ inr (rw e refl) ];
    }
decode_field-cut scratch m b q (uint f) h r =
    let c = fast_decode_uint-cut m b q f r in
    record {
      place = c.place;
      moved = c.moved;
      reaches = c.reaches;
      started = refl;
      kept = λ e. ap uint (c.kept e);
      place_back = c.place_back;
      same = elim c.same [ inl e ↦ inl e | inr e ↦ inr (rw e refl) ];
    }
decode_field-cut scratch m b q _ h r = absurd h

-- A run that goes on where `s` has stopped.
abbrev pub glued : Run (Item Sequence) → Run (Item Sequence) → Run (Item Sequence)
glued s r = record r {
  decoded = s.decoded + r.decoded;
  fields = take s.decoded s.fields ++ r.fields;
}

-- The run again from the field that it stopped in, on the whole buffer `b`.
abbrev pub again : Chars → Buffer → Run (Item Sequence) → Run (Item Sequence)
again scratch b s =
    decode_run (decode_field scratch) 0 (record b { start = s.start })
      (record (s.pmap) { pmap_bit = s.saved }) (drop s.decoded s.fields)

-- A run on the cut buffer that asks for more.
pub record IsPaused (scratch : Chars) (m : ℕ) (b : Buffer) (v : Bool)
    (short full : Run (Item Sequence)) : Type 0 where
  pub asks : short.ret ≡ partial
  pub moved : short.buffer ≡ record b { start = short.buffer.start; end = m }
  pub placed : short.buffer.start < 2 ^ 64
  pub same_flag : short.pmap.is_valid ≡ v
  pub reaches : Reaches m (record b { start = short.start })
  pub fits : short.decoded ≤ length short.fields
  pub goes_on : full ≡ glued short (again scratch b short)

pub record CutRun (scratch : Chars) (m : ℕ) (b : Buffer) (v : Bool)
    (short full : Run (Item Sequence)) : Type 0 where
  pub place : ℕ
  pub moved : short.buffer ≡ record b { start = place; end = m }
  pub reaches : Reaches m (record b { start = place })
  pub same :
      IsPaused scratch m b v short full
      ⊎ (full ≡ record short { buffer = record b { start = place } })

glued_none : (r : Run (Item Sequence)) → record r { decoded = 0 + r.decoded } ≡ r
glued_none r =
    let e : 0 + r.decoded ≡ r.decoded = omega arith in ap (λ (n : ℕ). record r { decoded = n }) e

IsPaused-here :
    (scratch : Chars) (m saved : ℕ) (b : Buffer) (q : Pmap) (f : Item Sequence)
    (fs : List (Item Sequence)) (r : Taken (Item Sequence))
    → Reaches m b
    → r.buffer ≡ record b { start = r.buffer.start; end = m }
    → r.buffer.start < 2 ^ 64
    → r.start ≡ b.start
    → r.field ≡ f
    → record (r.pmap) { pmap_bit = q.pmap_bit } ≡ q
    → IsPaused scratch m b q.is_valid
        (stopped partial q.pmap_bit r fs)
        (decode_run (decode_field scratch) saved b q (f ∷ fs))
unfolding decode_run
IsPaused-here scratch m saved b q f fs r reach moved placed started kept back = record {
  asks = refl;
  moved = moved;
  placed = placed;
  same_flag = ap (λ (p : Pmap). p.is_valid) back;
  reaches = rw started reach;
  fits = omega arith;
  goes_on = sym (
      glued_none (again scratch b (stopped partial q.pmap_bit r fs)) ∙ (λ i.
        decode_run (decode_field scratch) 0 (record b { start = started i }) (back i)
          (kept i ∷ fs)));
}

-- A field in front of a run.
IsPaused-behind :
    (scratch : Chars) (m place : ℕ) (b : Buffer) (v : Bool) (f : Item Sequence)
    (short full : Run (Item Sequence))
    → IsPaused scratch m (record b { start = place }) v short full
    → IsPaused scratch m b v (one_more f short) (one_more f full)
IsPaused-behind scratch m place b v f short full p = record {
  asks = p.asks;
  moved = p.moved;
  placed = p.placed;
  same_flag = p.same_flag;
  reaches = p.reaches;
  fits = omega (arith, p.fits);
  goes_on =
      ap (one_more f) p.goes_on
      ∙ ap
          (λ (n : ℕ). record (again scratch b short) {
            decoded = n;
            fields = f ∷ (take short.decoded short.fields ++ (again scratch b short).fields);
          })
          (counts short.decoded (again scratch b short).decoded);
}
  where
    counts : (a c : ℕ) → suc (a + c) ≡ suc a + c
    counts a c = omega arith

cut_behind :
    (scratch : Chars) (m place : ℕ) (b : Buffer) (v : Bool) (f : Item Sequence)
    (short full : Run (Item Sequence))
    → CutRun scratch m (record b { start = place }) v short full
    → CutRun scratch m b v (one_more f short) (one_more f full)
cut_behind scratch m place b v f short full c = record {
  place = c.place;
  moved = c.moved;
  reaches = c.reaches;
  same = elim c.same [
    | inl p ↦ inl (IsPaused-behind scratch m place b v f short full p)
    | inr e ↦ inr (ap (one_more f) e)
  ];
}

-- The loop behind its first field.
abbrev first : Chars → Pmap → List (Item Sequence) → Taken (Item Sequence) → Run (Item Sequence)
first scratch q fs x =
    behind_field x.ret q.pmap_bit x fs
      (decode_run (decode_field scratch) q.pmap_bit x.buffer x.pmap fs)

decode_run-first :
    (scratch : Chars) (saved : ℕ) (b : Buffer) (q : Pmap) (f : Item Sequence)
    (fs : List (Item Sequence))
    → decode_run (decode_field scratch) saved b q (f ∷ fs)
      ≡ first scratch q fs (decode_field scratch b q f)
unfolding decode_run
decode_run-first scratch saved b q f fs = refl

module _ (scratch : Chars) (m saved : ℕ) (b : Buffer) (q : Pmap) (f : Item Sequence)
    (fs : List (Item Sequence)) (short full : Taken (Item Sequence)) (r : Reaches m b)
    (c : CutItem m b q f short full) where
  -- The loop on the fields that are left, on both buffers.
  abbrev Onward : Type 0
  Onward =
      CutRun scratch m (record b { start = c.place }) q.is_valid
        (decode_run (decode_field scratch) q.pmap_bit (record b { start = c.place; end = m })
          short.pmap fs)
        (decode_run (decode_field scratch) q.pmap_bit (record b { start = c.place }) short.pmap fs)

  cut_same :
      full ≡ record short { buffer = record b { start = c.place } }
      → (ret : Ret) → short.ret ≡ ret
      → ret ≢ partial
      → Onward
      → CutRun scratch m b q.is_valid (first scratch q fs short) (first scratch q fs full)
  cut_same e partial is ne more = absurd (ne refl)
  cut_same e garbled is ne more =
      subst
        (λ (x : Taken (Item Sequence)).
          CutRun scratch m b q.is_valid (first scratch q fs short) (first scratch q fs x))
        (sym e)
        (rw is (record { place = c.place; moved = c.moved; reaches = c.reaches; same = inr refl }))
  cut_same e (ok _) is ne more =
      subst
        (λ (x : Taken (Item Sequence)).
          CutRun scratch m b q.is_valid (first scratch q fs short) (first scratch q fs x))
        (sym e)
        (rw is (rw c.moved (cut_behind scratch m c.place b q.is_valid short.field _ _ more)))

  cut_first :
      (decode_run (decode_field scratch) saved b q (f ∷ fs) ≡ first scratch q fs full)
      → (ret : Ret) → short.ret ≡ ret
      → Onward
      → CutRun scratch m b q.is_valid (first scratch q fs short) (first scratch q fs full)
  cut_first begins partial is more =
      subst (CutRun scratch m b q.is_valid (first scratch q fs short)) begins (
        rw is (record {
          place = c.place;
          moved = c.moved;
          reaches = c.reaches;
          same = inl (
              IsPaused-here scratch m saved b q f fs short r (rw c.moved refl)
                (rw c.moved
                  (omega (arith, c.reaches.from, r.to, r.valid.bounded, r.valid.addressable)))
                c.started (c.kept is) c.place_back);
        }))
  cut_first begins garbled is more = elim c.same [
    | inl e ↦ absurd (cc)
    | inr e ↦ cut_same e garbled is (λ h. absurd (cc)) more
  ]
  cut_first begins (ok u) is more = elim c.same [
    | inl e ↦ absurd (cc)
    | inr e ↦ cut_same e (ok u) is (λ h. absurd (cc)) more
  ]

-- The loop over integer fields on the cut buffer either asks for more, and then goes on from the field
-- that it stopped in as the whole loop does, or does what it does on the whole buffer.
pub decode_run-cut :
    (scratch : Chars) (fs : List (Item Sequence)) (m saved : ℕ) (b : Buffer) (q : Pmap)
    → All IsNumber fs
    → Reaches m b
    → CutRun scratch m b q.is_valid
        (decode_run (decode_field scratch) saved (cut m b) q fs)
        (decode_run (decode_field scratch) saved b q fs)
decode_run-cut scratch [] m saved b q h r =
    unfold decode_run in record { place = b.start; moved = refl; reaches = r; same = inr refl }
decode_run-cut scratch (f ∷ fs) m saved b q h r =
    let short = decode_field scratch (cut m b) q f in
    let c = decode_field-cut scratch m b q f h.0 r in
    let flag : short.pmap.is_valid ≡ q.is_valid = ap (λ (p : Pmap). p.is_valid) c.place_back in
    subst₂ (CutRun scratch m b q.is_valid) (sym (decode_run-first scratch saved (cut m b) q f fs))
      (sym (decode_run-first scratch saved b q f fs))
      (cut_first scratch m saved b q f fs short (decode_field scratch b q f) r c
        (decode_run-first scratch saved b q f fs) short.ret refl
        (subst
          (λ (v : Bool).
            CutRun scratch m (record b { start = c.place }) v
              (decode_run (decode_field scratch) q.pmap_bit (record b { start = c.place; end = m })
                short.pmap fs)
              (decode_run (decode_field scratch) q.pmap_bit (record b { start = c.place })
                short.pmap fs))
          flag
          (decode_run-cut scratch fs m q.pmap_bit (record b { start = c.place }) short.pmap h.1
            c.reaches)))
