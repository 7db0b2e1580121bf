-- ===== src/Fix/Scan/Moves.antt =====
-- How far the scanner moves the start of a buffer, whatever its bytes.
use libtrading.Base.{
  ℕ, zero, suc, ◌+◌, ◌-◌, ◌%◌, ◌^◌, ◌≤◌, ◌<◌, ◌≡◌, refl, sym, ap, ◌∙◌, false, Bool-cases, inl, inr,
  Option, some, none, arith, ==_iff, ==→ne, ◌==◌,
}
use libtrading.Buffer.{
  Buffer, IsValid, buffer_find, find_loop, buffer_advance, buffer_size, buffer_peek_8,
}
use libtrading.Fix.Scan.{
  State, ok, partial, garbled, soh, atoi_loop, fix_uatoi, readable, found_tag, parse_tag,
  found_value, parse_value, found_next, next_tag, match_tag, match_field, with_tag,
  parse_field_value, parse_field,
}

-- The start is at least `n` bytes further on, inside of the window, and nothing else has changed.
pub record Moves (n : ℕ) (b b' : Buffer) : Type 0 where
  pub bytes : b'.bytes ≡ b.bytes
  pub end : b'.end ≡ b.end
  pub capacity : b'.capacity ≡ b.capacity
  pub forward : b.start + n ≤ b'.start
  pub within : b'.start ≤ b'.end

pub Moves-stay : (b : Buffer) → IsValid b → Moves 0 b b
Moves-stay b v = record {
  bytes = refl;
  end = refl;
  capacity = refl;
  forward = omega arith;
  within = v.ordered;
}

pub Moves-trans :
    {m n : ℕ} {b b' b'' : Buffer} (k : ℕ)
    → Moves m b b'
    → Moves n b' b''
    → k ≤ m + n
    → Moves k b b''
Moves-trans k x y h = record {
  bytes = y.bytes ∙ x.bytes;
  end = y.end ∙ x.end;
  capacity = y.capacity ∙ x.capacity;
  forward = omega (arith, x.forward, y.forward);
  within = y.within;
}

pub Moves-IsValid : {n : ℕ} {b b' : Buffer} → Moves n b b' → IsValid b → IsValid b'
Moves-IsValid x v = record {
  ordered = x.within;
  bounded = omega (arith, x.end, x.capacity, v.bounded);
  addressable = omega (arith, x.capacity, v.addressable);
}

pub Moves-less : {m n : ℕ} {b b' : Buffer} → Moves m b b' → n ≤ m → Moves n b b'
Moves-less x h = record {
  bytes = x.bytes;
  end = x.end;
  capacity = x.capacity;
  forward = omega (arith, x.forward);
  within = x.within;
}

-- One byte further on.
pub buffer_advance-Moves :
    (b : Buffer) → IsValid b → b.start < b.end → Moves 1 b (buffer_advance b 1)
unfolding buffer_advance
buffer_advance-Moves b v h = record {
  bytes = refl;
  end = refl;
  capacity = refl;
  forward = omega (arith, small);
  within = omega (arith, small);
}
  where
    small : (b.start + 1) % 2 ^ 64 ≡ b.start + 1
    small = omega (arith, h, v.bounded, v.addressable)

-- Where buffer_find leaves a valid buffer: in front of the byte, or behind all.
abbrev pub StopsAt : ℕ → Buffer → Option ℕ × Buffer → Type 0
StopsAt c b (some p, b') =
    Moves 0 b b' × (p ≡ b'.start) × (b'.start < b'.end) × (b.bytes p % 256 ≡ c)
StopsAt c b (none, b') = Moves 0 b b'

find_loop-StopsAt :
    (n c : ℕ) (b : Buffer) → IsValid b → n ≤ b.end - b.start → StopsAt c b (find_loop n b c)
unfolding find_loop buffer_peek_8
find_loop-StopsAt zero c b v h = Moves-stay b v
find_loop-StopsAt (suc n) c b v h = elim (Bool-cases (b.bytes b.start % 256 == c)) [
  | inl same ↦
      rw same (Moves-stay b v, refl, omega arith, (==_iff (b.bytes b.start % 256) c).0 same)
  | inr apart ↦
      let step = buffer_advance-Moves b v (omega arith) in
      let v' = Moves-IsValid step v in
      rw apart (
        more step (find_loop n (buffer_advance b 1) c) (
          find_loop-StopsAt n c (buffer_advance b 1) v'
            (unfold buffer_advance in omega (arith, v.ordered, v.bounded, v.addressable))))
]
  where
    more : {b' : Buffer} → Moves 1 b b' → (r : Option ℕ × Buffer) → StopsAt c b' r → StopsAt c b r
    more step (some p, b'') (x, at', inside, byte) = (
      Moves-trans 0 step x (omega arith),
      at',
      inside,
      ap (λ (f : ℕ → ℕ). f p % 256) (sym (step.bytes)) ∙ byte,
    )
    more step (none, b'') x = Moves-trans 0 step x (omega arith)

pub buffer_find-StopsAt : (b : Buffer) (c : ℕ) → IsValid b → StopsAt c b (buffer_find b c)
unfolding buffer_find buffer_size
buffer_find-StopsAt b c v =
    find_loop-StopsAt (buffer_size b) c b v (omega (arith, v.ordered, v.bounded, v.addressable))

-- A scan of a buffer that moves at least `n` bytes where it finds what it looks for, at least one where that is
-- garbled, and none back.
abbrev pub Scans : {A : Type 0} → ℕ → Buffer → State A × Buffer → Type 0
Scans n b (ok _, b') = Moves n b b'
Scans n b (partial, b') = Moves 0 b b'
Scans n b (garbled, b') = Moves 1 b b'

-- No digit stands at an '='.
fix_uatoi-stop : (n : ℕ) (f : ℕ → ℕ) (p : ℕ) → f p % 256 ≡ b'=' → (fix_uatoi n f p).1 ≡ p
unfolding fix_uatoi atoi_loop
fix_uatoi-stop zero f p h = refl
fix_uatoi-stop (suc n) f p h = rw h refl

parse_tag-Scans : (b : Buffer) → IsValid b → Scans 1 b (parse_tag b)
unfolding parse_tag
parse_tag-Scans b v = found (buffer_find b b'=') (buffer_find-StopsAt b b'=' v)
  where
    ahead :
        (p : ℕ)
        → b.start ≤ p
        → b.bytes p % 256 ≡ b'='
        → ((fix_uatoi (readable b b.start) b.bytes b.start).1 == p) ≡ false
        → b.start < p
    ahead p le byte apart = elim (Bool-cases (p == b.start)) [
      | inl same ↦
          let e = (==_iff p b.start).0 same in
          absurd (
            ==→ne _ p apart
              (fix_uatoi-stop (readable b b.start) b.bytes b.start (rw e at byte) ∙ sym e))
      | inr further ↦ omega (arith, le, ==→ne p b.start further)
    ]

    found : (r : Option ℕ × Buffer) → StopsAt b'=' b r → Scans 1 b (found_tag b r)
    found (none, b') x = x
    found (some p, b') (x, at', inside, byte) =
        let end : ℕ = (fix_uatoi (readable b b.start) b.bytes b.start).1 in
        let step = buffer_advance-Moves b' (Moves-IsValid x v) inside in
        elim (Bool-cases (end == p)) [
          | inl same ↦ rw (byte, same) (Moves-trans 1 x step (omega arith))
          | inr apart ↦
              rw (byte, apart)
                (record {
                  bytes = x.bytes;
                  end = x.end;
                  capacity = x.capacity;
                  forward = omega (arith, ahead p (omega (arith, x.forward, at')) byte apart, at');
                  within = x.within;
                })
        ]

-- A value starts where the scan for its end does.
abbrev pub ScansValue : Buffer → State ℕ × Buffer → Type 0
ScansValue b (ok p, b') = (p ≡ b.start) × Moves 1 b b'
ScansValue b (partial, b') = Moves 0 b b'
ScansValue b (garbled, b') = ⊥

parse_value-ScansValue : (b : Buffer) → IsValid b → ScansValue b (parse_value b)
unfolding parse_value
parse_value-ScansValue b v = found (buffer_find b soh) (buffer_find-StopsAt b soh v)
  where
    found : (r : Option ℕ × Buffer) → StopsAt soh b r → ScansValue b (found_value b r)
    found (none, b') x = x
    found (some p, b') (x, at', inside, byte) =
        let step = buffer_advance-Moves b' (Moves-IsValid x v) inside in
        rw byte (refl, Moves-trans 1 x step (omega arith))

next_tag-Moves : (b : Buffer) → IsValid b → Moves 0 b (next_tag b)
unfolding next_tag
next_tag-Moves b v = found (buffer_find b soh) (buffer_find-StopsAt b soh v)
  where
    found : (r : Option ℕ × Buffer) → StopsAt soh b r → Moves 0 b (found_next b r)
    found (none, b') x = x
    found (some p, b') (x, at', inside, byte) =
        rw byte (Moves-trans 0 x (buffer_advance-Moves b' (Moves-IsValid x v) inside) (omega arith))

-- What match_field and parse_field find: the value stands behind a tag and in front of its SOH.
abbrev pub Matches : Buffer → State ℕ × Buffer → Type 0
Matches b (ok p, b') = Moves 2 b b' × (b.start < p) × (p < b'.start)
Matches b (partial, b') = Moves 0 b b'
Matches b (garbled, b') = Moves 1 b b'

pub match_field-Matches : (b : Buffer) (tag : ℕ) → IsValid b → Matches b (match_field b tag)
unfolding match_field
match_field-Matches b tag v = matched (parse_tag b) (parse_tag-Scans b v)
  where
    valued : (b' : Buffer) → Moves 1 b b' → (r : State ℕ × Buffer) → ScansValue b' r → Matches b r
    valued b' x (ok p, b'') (at', y) = (
      Moves-trans 2 x y (omega arith),
      omega (arith, at', x.forward),
      omega (arith, at', y.forward),
    )
    valued b' x (partial, b'') y = Moves-trans 0 x y (omega arith)
    valued b' x (garbled, b'') bad = elim bad [ ]

    matched : (r : State ℕ × Buffer) → Scans 1 b r → Matches b (match_tag tag r)
    matched (partial, b') x = Moves-trans 0 x (next_tag-Moves b' (Moves-IsValid x v)) (omega arith)
    matched (garbled, b') x = Moves-trans 1 x (next_tag-Moves b' (Moves-IsValid x v)) (omega arith)
    matched (ok ptag, b') x =
        let v' = Moves-IsValid x v in
        elim (Bool-cases (ptag == tag)) [
          | inl same ↦ rw same (valued b' x (parse_value b') (parse_value-ScansValue b' v'))
          | inr apart ↦ rw apart (Moves-trans 1 x (next_tag-Moves b' v') (omega arith))
        ]

pub parse_field-Scans : (b : Buffer) → IsValid b → Scans 2 b (parse_field b)
unfolding parse_field
parse_field-Scans b v = parsed (parse_tag b) (parse_tag-Scans b v)
  where
    valued :
        (tag : ℕ) (b' : Buffer)
        → Moves 1 b b'
        → (r : State ℕ × Buffer) → ScansValue b' r
        → Scans 2 b (with_tag tag r)
    valued tag b' x (ok p, b'') (at', y) = Moves-trans 2 x y (omega arith)
    valued tag b' x (partial, b'') y = Moves-trans 0 x y (omega arith)
    valued tag b' x (garbled, b'') bad = elim bad [ ]

    parsed : (r : State ℕ × Buffer) → Scans 1 b r → Scans 2 b (parse_field_value r)
    parsed (partial, b') x = Moves-trans 0 x (next_tag-Moves b' (Moves-IsValid x v)) (omega arith)
    parsed (garbled, b') x = Moves-trans 1 x (next_tag-Moves b' (Moves-IsValid x v)) (omega arith)
    parsed (ok tag, b') x =
        valued tag b' x (parse_value b') (parse_value-ScansValue b' (Moves-IsValid x v))
