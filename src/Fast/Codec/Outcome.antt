-- ===== src/Fast/Codec/Outcome.antt =====
-- parse_uint on every input, and transfer_uint on values that nine septets do not hold.
use libtrading.Base.{
  bit_and-0x40, if◌then◌else◌, ℕ, zero, suc, ◌+◌, ◌-◌, ◌*◌, ◌/◌, ◌%◌, ◌^◌, ◌≤◌, ◌<◌, ◌≡◌, refl, sym,
  ap, ◌∙◌, true, List, [], ◌∷◌, ◌++◌, length, All, arith, Bool-cases, ltb, ltb→lt, ltb→le, inl, inr,
  le→ltb,
}
use libtrading.Buffer.{Buffer, buffer_remaining}
use libtrading.Buffer.Contents.{
  Holds, contents, Holds-byte, buffer_size-length, buffer_peek_8-Holds,
}
use libtrading.Fast.Codec.{
  Parsed, parse_int, parse_loop, ok, garbled, partial, parse_uint, transfer_uint,
  transfer_size_uint, put_groups,
}
use libtrading.Fast.Codec.Groups.{groups, read_groups, parse_loop-read_groups, put_groups-Holds}
use libtrading.Fast.Codec.Unsigned.{read_groups-groups}

abbrev pub IsSeptet : ℕ → Type 0
IsSeptet c = c < 128

-- The septets `cs` behind the bits of `r`, as one number.
abbrev pub weigh : ℕ → List ℕ → ℕ
weigh r [] = r
weigh r (c ∷ cs) = weigh (r * 128 + c) cs

-- How the input `cs` splits for each result of a parser that starts from `r`, reads at most `n`
-- bytes and leaves `rest`: up to the first stop bit, with the 64 low bits of what was read; whole when
-- there is none in fewer than `n` bytes; or after `n` bytes without one.
abbrev pub Outcome : ℕ → ℕ → List ℕ → List ℕ → Parsed ℕ → Type 0
Outcome n r cs rest (ok v) =
    (front : List ℕ) × (c : ℕ) × (cs ≡ front ++ (c ∷ rest))
    × All IsSeptet front
    × (128 ≤ c)
    × (length front < n)
    × (v ≡ (weigh r front * 128 + c % 128) % 2 ^ 64)
Outcome n r cs rest garbled =
    (front : List ℕ) × (cs ≡ front ++ rest) × All IsSeptet front × (length front ≡ n)
Outcome n r cs rest partial = (rest ≡ []) × All IsSeptet cs × (length cs < n)

weigh_cong :
    (cs : List ℕ) (r s : ℕ) → r % 2 ^ 64 ≡ s % 2 ^ 64 → weigh r cs % 2 ^ 64 ≡ weigh s cs % 2 ^ 64
weigh_cong [] r s e = e
weigh_cong (c ∷ cs) r s e = weigh_cong cs (r * 128 + c) (s * 128 + c) (omega arith)

read_groups-Outcome :
    (n r : ℕ) (cs : List ℕ) → Outcome n r cs (read_groups n r cs).1 (read_groups n r cs).0
read_groups-Outcome zero r cs = ([], refl, tt, refl)
read_groups-Outcome (suc n) r [] = (refl, tt, omega arith)
read_groups-Outcome (suc n) r (c ∷ cs) =
    let next : ℕ = r * 128 % 2 ^ 64 + c in
    elim (Bool-cases (ltb c 128)) [
      | inl small ↦
          rw small (more (read_groups n next cs) (ltb→lt _ _ small) (read_groups-Outcome n next cs))
      | inr big ↦ rw big ([], c, refl, tt, ltb→le _ _ big, omega arith, omega arith)
    ]
  where
    more :
        (p : Parsed ℕ × List ℕ)
        → c < 128
        → Outcome n (r * 128 % 2 ^ 64 + c) cs p.1 p.0
        → Outcome (suc n) r (c ∷ cs) p.1 p.0
    more (ok v, rest) small (front, d, e, septets, stop, short, value) = (
      c ∷ front,
      d,
      ap (◌∷◌ c) e,
      (small, septets),
      stop,
      omega arith,
      omega (arith, value, weigh_cong front (r * 128 % 2 ^ 64 + c) (r * 128 + c) (omega arith)),
    )
    more (garbled, rest) small (front, e, septets, short) =
        (c ∷ front, ap (◌∷◌ c) e, (small, septets), omega arith)
    more (partial, rest) small (e, septets, short) = (e, (small, septets), omega arith)

-- On every input parse_uint reads up to the first stop bit among the first nine bytes and returns
-- the number whose septets these are, calls the input garbled after nine bytes without one, and
-- partial when it ends before that.
pub parse_uint-Outcome :
    (b : Buffer) (cs : List ℕ)
    → Holds b cs
    → (rest : List ℕ) × Holds (parse_uint b).1 rest × Outcome 9 0 cs rest (parse_uint b).0
unfolding parse_uint
parse_uint-Outcome b cs h =
    let (value, left) = parse_loop-read_groups 9 0 b cs h in
    ((read_groups 9 0 cs).1, left, rw value (read_groups-Outcome 9 0 cs))

-- The bits in front of the first septet: its sign bit, 64 times.
abbrev pub sign_bits : List ℕ → ℕ
sign_bits [] = 0
sign_bits (c ∷ cs) = if ltb (c % 128) 64 then 0 else 2 ^ 64 - 1

parse_int_loop :
    (b : Buffer) (c : ℕ) (cs : List ℕ)
    → Holds b (c ∷ cs)
    → parse_int b ≡ parse_loop 10 (sign_bits (c ∷ cs)) b
unfolding parse_int
parse_int_loop b c cs h = ground (
  arith,
  buffer_size-length (c ∷ cs) h,
  buffer_peek_8-Holds c cs h,
  bit_and-0x40 c (Holds-byte c cs h),
)

-- On every input parse_int reads up to the first stop bit among the first ten bytes and returns the
-- 64 low bits of the number whose septets these are, behind copies of the sign bit of the first;
-- it calls the input garbled after ten bytes without one, and partial when it ends before that.
pub parse_int-Outcome :
    (b : Buffer) (cs : List ℕ)
    → Holds b cs
    → (rest : List ℕ) × Holds (parse_int b).1 rest
      × Outcome 10 (sign_bits cs) cs rest (parse_int b).0
parse_int-Outcome b [] h = rw none_read ([], h, (refl, tt, omega arith))
  where
    none_read : parse_int b ≡ (partial, b)
    none_read = unfold parse_int in ground (arith, buffer_size-length [] h)
parse_int-Outcome b (c ∷ cs) h =
    let start : ℕ = sign_bits (c ∷ cs) in
    let (value, left) = parse_loop-read_groups 10 start b (c ∷ cs) h in
    rw (parse_int_loop b c cs h)
      ((read_groups 10 start (c ∷ cs)).1, left, rw value (read_groups-Outcome 10 start (c ∷ cs)))

groups_top_bit : (x : ℕ) → 2 ^ 63 ≤ x → x < 2 ^ 64 → groups 9 x ≡ groups 9 (x - 2 ^ 63)
groups_top_bit x h k = ground arith

transfer_size_uint_top : (x : ℕ) → 2 ^ 63 ≤ x → x < 2 ^ 64 → transfer_size_uint x ≡ 9
unfolding transfer_size_uint
transfer_size_uint_top x h k = ground arith

read_top :
    (x : ℕ) (rest : List ℕ)
    → 2 ^ 63 ≤ x
    → x < 2 ^ 64
    → read_groups 9 0 (groups 9 x ++ rest) ≡ (ok (x - 2 ^ 63), rest)
read_top x rest h k =
    let y : ℕ = x - 2 ^ 63 in
    let none_above : y / 128 ^ 9 ≡ 0 = omega arith in
    ap (λ (gs : List ℕ). read_groups 9 0 (gs ++ rest)) (groups_top_bit x h k)
    ∙ ap (λ (r : ℕ). read_groups 9 r (groups 9 y ++ rest)) (sym none_above)
    ∙ read_groups-groups 9 9 y rest (omega arith) (omega arith) (omega arith)

-- A u64 from 2 ^ 63 on is sent in nine septets without its top bit: transfer_uint succeeds, and
-- parse_uint returns the value less 2 ^ 63.
pub parse_uint-transfer_uint_top :
    (x : ℕ) (dst src : Buffer) (rest : List ℕ)
    → 2 ^ 63 ≤ x
    → x < 2 ^ 64
    → Holds dst []
    → 9 ≤ buffer_remaining dst
    → Holds src (contents (transfer_uint dst x).1 ++ rest)
    → ((transfer_uint dst x).0 ≡ true) × ((parse_uint src).0 ≡ ok (x - 2 ^ 63))
unfolding transfer_uint parse_uint
parse_uint-transfer_uint_top x dst src rest h k empty room sent =
    let size = transfer_size_uint_top x h k in
    let (done, all, left) = put_groups-Holds 9 dst [] x empty (omega arith) room in
    let written : (put_groups 9 dst x).0 ≡ true = done in
    let sent' : Holds src (contents (put_groups 9 dst x).1 ++ rest) =
      rw (size, le→ltb (buffer_remaining dst) 9 room) at sent in
    let (value, _) = parse_loop-read_groups 9 0 src (groups 9 x ++ rest) (rw all.reads at sent') in
    rw (size, le→ltb (buffer_remaining dst) 9 room) (written, rw (read_top x rest h k) at value)
