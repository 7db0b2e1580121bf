-- ===== src/Fast/Message/Cut.antt =====
-- The parsers of lib/proto/fast_message.c on a buffer of which only a part has arrived.
use libtrading.Base.{
  ℕ, zero, suc, ◌+◌, ◌-◌, ◌%◌, ◌^◌, ◌≤◌, ◌<◌, ◌≡◌, refl, sym, ap, ◌⊎◌, true, false, inl, inr, arith,
  Bool-cases, ◌==◌, ==_iff, ==→ne, bit_and, if◌then◌else◌, add64, sub64,
}
use mathlib.Core.Path.{subst, subst₂}
use libtrading.Buffer.{Buffer, IsValid, buffer_size, buffer_get_8, buffer_peek_8, buffer_advance}
use libtrading.Fast.Codec.{
  Parsed, ok, garbled, partial, shift_in, parse_loop, parse_uint, parse_int,
}

-- The buffer up to `m`.
abbrev pub cut : ℕ → Buffer → Buffer
cut m b = record b { end = m }

-- A place up to which the buffer has arrived.
pub record Reaches (m : ℕ) (b : Buffer) : Type 0 where
  pub valid : IsValid b
  pub from : b.start ≤ m
  pub to : m ≤ b.end

-- A parser on the cut and on the whole buffer: it has moved the start alone, and asks for more or gives
-- the same.
pub record CutParse {A : Type 0} (m : ℕ) (b : Buffer) (short full : Parsed A × Buffer)
    : Type 0 where
  pub place : ℕ
  pub moved : short.1 ≡ record b { start = place; end = m }
  pub reaches : Reaches m (record b { start = place })
  pub same : (short.0 ≡ partial) ⊎ (full ≡ (short.0, record b { start = place }))

pub cut_here :
    {A : Type 0} (m : ℕ) (b : Buffer) (x : Parsed A)
    → Reaches m b
    → CutParse m b (x, cut m b) (x, b)
cut_here m b x r = record { place = b.start; moved = refl; reaches = r; same = inr refl }

abbrev pub next_start : Buffer → Buffer
next_start b = record b { start = add64 b.start 1 }

pub next-Reaches : (m : ℕ) (b : Buffer) → Reaches m b → b.start < m → Reaches m (next_start b)
next-Reaches m b r h = record {
  valid = record {
    ordered = omega (arith, r.valid.bounded, r.valid.addressable, r.to, h);
    bounded = r.valid.bounded;
    addressable = r.valid.addressable;
  };
  from = omega (arith, r.valid.bounded, r.valid.addressable, r.to, h);
  to = r.to;
}

module _ (n result : ℕ) (b : Buffer) where
  abbrev byte : ℕ
  byte = b.bytes b.start % 256

  loop-empty : b.end ≡ b.start → b.end < 2 ^ 64 → parse_loop (suc n) result b ≡ (partial, b)
  unfolding parse_loop buffer_size
  loop-empty e h = ground arith

  loop-stop :
      b.start < b.end
      → b.end < 2 ^ 64
      → (bit_and byte 0x80 == 0) ≡ false
      → parse_loop (suc n) result b ≡ (ok (shift_in result (bit_and byte 0x7f)), next_start b)
  unfolding parse_loop buffer_size buffer_get_8
  loop-stop h k stop = ground arith

  loop-more :
      b.start < b.end
      → b.end < 2 ^ 64
      → (bit_and byte 0x80 == 0) ≡ true
      → parse_loop (suc n) result b ≡ parse_loop n (shift_in result byte) (next_start b)
  unfolding parse_loop buffer_size buffer_get_8
  loop-more h k more = ground arith

cut_moved :
    {A : Type 0} (m : ℕ) (b : Buffer) (short full : Parsed A × Buffer)
    → CutParse m (next_start b) short full
    → CutParse m b short full
cut_moved m b short full c = record {
  place = c.place;
  moved = c.moved;
  reaches = c.reaches;
  same = c.same;
}

parse_loop-cut :
    (n result m : ℕ) (b : Buffer)
    → Reaches m b
    → CutParse m b (parse_loop n result (cut m b)) (parse_loop n result b)
parse_loop-cut zero result m b r = unfold parse_loop in cut_here m b garbled r
parse_loop-cut (suc n) result m b r =
    let c = b.bytes b.start % 256 in
    let top : m < 2 ^ 64 = omega (arith, r.to, r.valid.bounded, r.valid.addressable) in
    let top' : b.end < 2 ^ 64 = omega (arith, r.valid.bounded, r.valid.addressable) in
    elim (Bool-cases (m == b.start)) [
      | inl e ↦
          subst (λ (s : Parsed ℕ × Buffer). CutParse m b s (parse_loop (suc n) result b))
            (sym (loop-empty n result (cut m b) ((==_iff _ _).0 e) top))
            (record { place = b.start; moved = refl; reaches = r; same = inl refl })
      | inr ne ↦
          let short : b.start < m = omega (arith, ==→ne _ _ ne, r.from) in
          let long : b.start < b.end = omega (arith, short, r.to) in
          let r' = next-Reaches m b r short in
          elim (Bool-cases (bit_and c 0x80 == 0)) [
            | inl more ↦
                subst₂ (CutParse m b) (sym (loop-more n result (cut m b) short top more))
                  (sym (loop-more n result b long top' more))
                  (cut_moved m b _ _ (parse_loop-cut n (shift_in result c) m (next_start b) r'))
            | inr stop ↦
                subst₂ (CutParse m b) (sym (loop-stop n result (cut m b) short top stop))
                  (sym (loop-stop n result b long top' stop))
                  (cut_moved m b _ _ (cut_here m (next_start b) _ r'))
          ]
    ]

pub parse_uint-cut :
    (m : ℕ) (b : Buffer) → Reaches m b → CutParse m b (parse_uint (cut m b)) (parse_uint b)
unfolding parse_uint
parse_uint-cut m b r = parse_loop-cut 9 0 m b r

parse_int-empty : (b : Buffer) → b.end ≡ b.start → b.end < 2 ^ 64 → parse_int b ≡ (partial, b)
unfolding parse_int buffer_size
parse_int-empty b e h = ground arith

parse_int-more :
    (b : Buffer)
    → b.start < b.end
    → b.end < 2 ^ 64
    → parse_int b
      ≡ parse_loop 10 (if bit_and (b.bytes b.start % 256) 0x40 == 0 then 0 else 2 ^ 64 - 1) b
unfolding parse_int buffer_size buffer_peek_8
parse_int-more b h k = ground arith

pub parse_int-cut :
    (m : ℕ) (b : Buffer) → Reaches m b → CutParse m b (parse_int (cut m b)) (parse_int b)
parse_int-cut m b r =
    let top : m < 2 ^ 64 = omega (arith, r.to, r.valid.bounded, r.valid.addressable) in
    let top' : b.end < 2 ^ 64 = omega (arith, r.valid.bounded, r.valid.addressable) in
    elim (Bool-cases (m == b.start)) [
      | inl e ↦
          subst (λ (s : Parsed ℕ × Buffer). CutParse m b s (parse_int b))
            (sym (parse_int-empty (cut m b) ((==_iff _ _).0 e) top))
            (record { place = b.start; moved = refl; reaches = r; same = inl refl })
      | inr ne ↦
          let short : b.start < m = omega (arith, ==→ne _ _ ne, r.from) in
          subst₂ (CutParse m b) (sym (parse_int-more (cut m b) short top))
            (sym (parse_int-more b (omega (arith, short, r.to)) top')) (parse_loop-cut 10 _ m b r)
    ]

-- Going back to where a parser started gives the cut buffer again.
pub back_to-start :
    (m start place : ℕ) (b : Buffer)
    → start < 2 ^ 64
    → place < 2 ^ 64
    → buffer_advance (record b { start = place; end = m }) (sub64 start place)
      ≡ record b { start = start; end = m }
unfolding buffer_advance
back_to-start m start place b h k =
    let e : (place + (start + 2 ^ 64 - place) % 2 ^ 64) % 2 ^ 64 ≡ start = omega arith in
    ap (λ (s : ℕ). record b { start = s; end = m }) e
