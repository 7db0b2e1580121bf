-- ===== src/Fast/Message/CutMap.antt =====
-- parse_pmap on a buffer of which only a part has arrived, and once more on the whole.
use libtrading.Base.{
  ℕ, zero, suc, ◌%◌, ◌^◌, ◌<◌, ◌≡◌, refl, sym, ap, ◌∙◌, ◌⊎◌, ◌≢◌, true, false, inl, inr, arith,
  Bool-cases, ◌==◌, ==_iff, ==→ne, bit_and, List, [], ◌∷◌, set,
}
use mathlib.Core.Path.{subst, subst₂}
use libtrading.Buffer.{Buffer, buffer_size, buffer_get_8}
use libtrading.Fast.Codec.{ok, garbled, partial}
use libtrading.Fast.Pmap.{Pmap, Ret, parse_pmap, parse_pmap_loop}
use libtrading.Fast.Pmap.Parse.{push}
use libtrading.Fast.Message.Cut.{cut, Reaches, next_start, next-Reaches}

module _ {ℓ} {A : Type ℓ} where
  set-set_self : (xs : List A) (i : ℕ) (v w : A) → set (set xs i v) i w ≡ set xs i w
  set-set_self [] i v w = refl
  set-set_self (x ∷ xs) zero v w = refl
  set-set_self (x ∷ xs) (suc i) v w = ap (◌∷◌ x) (set-set_self xs i v w)

  set-set_ne :
      (xs : List A) (i j : ℕ) (v w : A) → i ≢ j → set (set xs i v) j w ≡ set (set xs j w) i v
  set-set_ne [] i j v w h = refl
  set-set_ne (x ∷ xs) zero zero v w h = absurd (h refl)
  set-set_ne (x ∷ xs) zero (suc j) v w h = refl
  set-set_ne (x ∷ xs) (suc i) zero v w h = refl
  set-set_ne (x ∷ xs) (suc i) (suc j) v w h = ap (◌∷◌ x) (set-set_ne xs i j v w (λ e. h (ap suc e)))

abbrev Step : Type 0
Step = Ret × Buffer × Pmap

module _ (n : ℕ) (b : Buffer) (p : Pmap) where
  abbrev byte : ℕ
  byte = b.bytes b.start % 256

  map-empty : b.end ≡ b.start → b.end < 2 ^ 64 → parse_pmap_loop (suc n) b p ≡ (partial, b, p)
  unfolding parse_pmap_loop buffer_size
  map-empty e h = ground arith

  map-stop :
      b.start < b.end
      → b.end < 2 ^ 64
      → (bit_and byte 0x80 == 0) ≡ false
      → parse_pmap_loop (suc n) b p ≡ (ok tt, next_start b, push p byte)
  unfolding parse_pmap_loop buffer_size buffer_get_8
  map-stop h k stop = ground arith

  map-more :
      b.start < b.end
      → b.end < 2 ^ 64
      → (bit_and byte 0x80 == 0) ≡ true
      → parse_pmap_loop (suc n) b p ≡ parse_pmap_loop n (next_start b) (push p byte)
  unfolding parse_pmap_loop buffer_size buffer_get_8
  map-more h k more = ground arith

-- A byte that has been stored stays, and the flags too.
record Keeps (p : Pmap) (r : Step) : Type 0 where
  flag : r.2.is_valid ≡ p.is_valid
  place : r.2.pmap_bit ≡ p.pmap_bit
  stored : (j v : ℕ) → j < p.nr_bytes → set p.bytes j v ≡ p.bytes → set r.2.bytes j v ≡ r.2.bytes

Keeps-here : (ret : Ret) (b : Buffer) (p : Pmap) → Keeps p (ret, b, p)
Keeps-here ret b p = record { flag = refl; place = refl; stored = λ j v h e. e }

Keeps-push : (p : Pmap) (c : ℕ) (r : Step) → Keeps (push p c) r → Keeps p r
Keeps-push p c r k = record {
  flag = k.flag;
  place = k.place;
  stored = λ j v h e. k.stored j v (omega arith) (
      set-set_ne p.bytes p.nr_bytes j c v (λ q. omega (arith, q, h))
      ∙ ap (λ (cs : List ℕ). set cs p.nr_bytes c) e);
}

parse_pmap_loop-Keeps : (n : ℕ) (b : Buffer) (p : Pmap) → Keeps p (parse_pmap_loop n b p)
unfolding parse_pmap_loop
parse_pmap_loop-Keeps zero b p = Keeps-here garbled b p
parse_pmap_loop-Keeps (suc n) b p =
    let c = (buffer_get_8 b).0 in
    elim (Bool-cases (buffer_size b == 0)) [
      | inl e ↦ rw e (Keeps-here partial b p)
      | inr ne ↦ rw ne (elim (Bool-cases (bit_and c 0x80 == 0)) [
        | inl more ↦
            rw more (Keeps-push p c _ (parse_pmap_loop-Keeps n (buffer_get_8 b).1 (push p c)))
        | inr stop ↦ rw stop (Keeps-push p c _ (Keeps-here (ok tt) (buffer_get_8 b).1 (push p c)))
      ])
    ]

-- The map on the cut and on the whole buffer: it asks for more, and then reads the whole as if it had
-- read nothing, or does the same.
pub record CutMap (n m : ℕ) (b : Buffer) (p : Pmap) (short full : Step) : Type 0 where
  pub place : ℕ
  pub moved : short.1 ≡ record b { start = place; end = m }
  pub reaches : Reaches m (record b { start = place })
  pub same :
      ((short.0 ≡ partial)
        × (parse_pmap_loop n b (record (short.2) { nr_bytes = p.nr_bytes }) ≡ full))
      ⊎ (full ≡ (short.0, record b { start = place }, short.2))

-- The first byte is read again.
read_again :
    (n : ℕ) (b : Buffer) (p : Pmap) (short : Step)
    → b.start < b.end
    → b.end < 2 ^ 64
    → (bit_and (b.bytes b.start % 256) 0x80 == 0) ≡ true
    → Keeps (push p (b.bytes b.start % 256)) short
    → parse_pmap_loop n (next_start b) (record (short.2) { nr_bytes = suc p.nr_bytes })
      ≡ parse_pmap_loop n (next_start b) (push p (b.bytes b.start % 256))
    → parse_pmap_loop (suc n) b (record (short.2) { nr_bytes = p.nr_bytes })
      ≡ parse_pmap_loop n (next_start b) (push p (b.bytes b.start % 256))
read_again n b p short h k more keeps e =
    let c = b.bytes b.start % 256 in
    let stays : set short.2.bytes p.nr_bytes c ≡ short.2.bytes =
      keeps.stored p.nr_bytes c (omega arith) (set-set_self p.bytes p.nr_bytes c c) in
    map-more n b (record (short.2) { nr_bytes = p.nr_bytes }) h k more
    ∙ (λ i.
        parse_pmap_loop n (next_start b)
          (record (short.2) { nr_bytes = suc p.nr_bytes; bytes = stays i }))
    ∙ e

parse_pmap_loop-cut :
    (n m : ℕ) (b : Buffer) (p : Pmap)
    → Reaches m b
    → CutMap n m b p (parse_pmap_loop n (cut m b) p) (parse_pmap_loop n b p)
parse_pmap_loop-cut zero m b p r =
    unfold parse_pmap_loop in record { place = b.start; moved = refl; reaches = r; same = inr refl }
parse_pmap_loop-cut (suc n) m b p r =
    let c = b.bytes b.start % 256 in
    let top : m < 2 ^ 64 = omega (arith, r.to, r.valid.bounded, r.valid.addressable) in
    let top' : b.end < 2 ^ 64 = omega (arith, r.valid.bounded, r.valid.addressable) in
    elim (Bool-cases (m == b.start)) [
      | inl e ↦
          subst (λ (s : Step). CutMap (suc n) m b p s (parse_pmap_loop (suc n) b p))
            (sym (map-empty n (cut m b) p ((==_iff _ _).0 e) top))
            (record { place = b.start; moved = refl; reaches = r; same = inl (refl, refl) })
      | inr ne ↦
          let short : b.start < m = omega (arith, ==→ne _ _ ne, r.from) in
          let long : b.start < b.end = omega (arith, short, r.to) in
          let r' = next-Reaches m b r short in
          elim (Bool-cases (bit_and c 0x80 == 0)) [
            | inl more ↦
                let s = parse_pmap_loop n (cut m (next_start b)) (push p c) in
                let i = parse_pmap_loop-cut n m (next_start b) (push p c) r' in
                subst₂ (CutMap (suc n) m b p) (sym (map-more n (cut m b) p short top more))
                  (sym (map-more n b p long top' more))
                  (record {
                    place = i.place;
                    moved = i.moved;
                    reaches = i.reaches;
                    same = elim i.same [
                      | inl (asks, again) ↦ inl (
                        asks,
                        read_again n b p s long top' more
                            (parse_pmap_loop-Keeps n (cut m (next_start b)) (push p c)) again,
                      )
                      | inr e ↦ inr e
                    ];
                  })
            | inr stop ↦
                subst₂ (CutMap (suc n) m b p) (sym (map-stop n (cut m b) p short top stop))
                  (sym (map-stop n b p long top' stop))
                  (record {
                    place = (next_start b).start;
                    moved = refl;
                    reaches = r';
                    same = inr refl;
                  })
          ]
    ]

-- parse_pmap on the cut and on the whole buffer.
pub record CutPmap (m : ℕ) (b : Buffer) (p : Pmap) (short full : Step) : Type 0 where
  pub place : ℕ
  pub moved : short.1 ≡ record b { start = place; end = m }
  pub reaches : Reaches m (record b { start = place })
  pub flag : short.2.is_valid ≡ p.is_valid
  pub same :
      ((short.0 ≡ partial) × (parse_pmap b short.2 ≡ full))
      ⊎ (full ≡ (short.0, record b { start = place }, short.2))

pub parse_pmap-cut :
    (m : ℕ) (b : Buffer) (p : Pmap)
    → Reaches m b
    → CutPmap m b p (parse_pmap (cut m b) p) (parse_pmap b p)
unfolding parse_pmap
parse_pmap-cut m b p r =
    let c = parse_pmap_loop-cut 8 m b (record p { nr_bytes = 0 }) r in
    let k = parse_pmap_loop-Keeps 8 (cut m b) (record p { nr_bytes = 0 }) in
    record { place = c.place; moved = c.moved; reaches = c.reaches; flag = k.flag; same = c.same }
