-- ===== src/Fast/Codec/Signed.antt =====
-- The septets of an i64 between transfer_int and parse_int of lib/proto/fast_message.c.
use libtrading.Base.{
  ℕ, zero, suc, ◌+◌, ◌-◌, ◌*◌, ◌/◌, ◌%◌, ◌^◌, ◌≤◌, ◌<◌, bit_and, ◌≡◌, ap, true, List, [], ◌++◌,
  length, arith, lt→ltb, le→ltb, ◌⊎◌, inl, inr, bit_and-0x40, ◌==◌, if◌then◌else◌,
}
use libtrading.Buffer.{Buffer, buffer_remaining, buffer_peek_8}
use libtrading.Buffer.Contents.{Holds, contents, buffer_size-length, buffer_peek_8-Holds}
use libtrading.Fast.Codec.{ok, parse_int, parse_loop, transfer_int, transfer_size_int, magnitude}
use libtrading.Fast.Codec.Groups.{groups, read_groups, parse_loop-read_groups, put_groups-Holds}
use libtrading.Fast.Codec.Unsigned.{septet_step, read_groups-groups}
use native.Mathlib.Nat.{div-le_self, div-lt_iff_lt-mul, one-le-pow}

-- The i64 values from -2^62 to 2^62 - 1, which nine septets hold.
abbrev pub IsShortInt : ℕ → Type 0
IsShortInt x = (x < 2 ^ 62) ⊎ ((2 ^ 64 - 2 ^ 62 ≤ x) × (x < 2 ^ 64))

-- The septets of `~u` are the complements of those of `u`.
complement :
    (k u : ℕ) → k ≤ 8 → u < 2 ^ 62 → (2 ^ 64 - 1 - u) / 128 ^ k % 128 ≡ 127 - u / 128 ^ k % 128
complement zero u p h = omega arith
complement (suc zero) u p h = omega arith
complement (suc (suc zero)) u p h = omega arith
complement (suc (suc (suc zero))) u p h = omega arith
complement (suc (suc (suc (suc zero)))) u p h = omega arith
complement (suc (suc (suc (suc (suc zero))))) u p h = omega arith
complement (suc (suc (suc (suc (suc (suc zero)))))) u p h = omega arith
complement (suc (suc (suc (suc (suc (suc (suc zero))))))) u p h = omega arith
complement (suc (suc (suc (suc (suc (suc (suc (suc zero)))))))) u p h = omega arith
complement (suc (suc (suc (suc (suc (suc (suc (suc (suc k))))))))) u p h = absurd (omega arith)

read_groups-complement :
    (n rounds u : ℕ) (rest : List ℕ)
    → 0 < n
    → n ≤ 9
    → n ≤ rounds
    → u < 2 ^ 62
    → read_groups rounds (2 ^ 64 - 1 - u / 128 ^ n) (groups n (2 ^ 64 - 1 - u) ++ rest)
      ≡ (ok (2 ^ 64 - 1 - u), rest)
read_groups-complement zero rounds u rest p s q fits = absurd (omega arith)
read_groups-complement (suc n) zero u rest p s q fits = absurd (omega arith)
read_groups-complement (suc zero) (suc rounds) u rest p s q fits =
    rw (le→ltb ((2 ^ 64 - 1 - u) % 128 + 128) 128 (omega arith))
      (ap (λ (v : ℕ). (ok v, rest)) (omega arith))
read_groups-complement (suc (suc k)) (suc rounds) u rest p s q fits =
    rw (lt→ltb ((2 ^ 64 - 1 - u) / 128 ^ suc k % 128) 128 (omega arith), top)
      (read_groups-complement (suc k) rounds u rest (omega arith) (omega arith) (omega arith) fits)
  where
    top :
        (2 ^ 64 - 1 - u / 128 ^ suc (suc k)) * 128 % 2 ^ 64 + (2 ^ 64 - 1 - u) / 128 ^ suc k % 128
        ≡ 2 ^ 64 - 1 - u / 128 ^ suc k
    top = omega (
      arith,
      complement (suc k) u (omega arith) fits,
      septet_step u (suc k),
      div-le_self u (128 ^ suc k),
    )

magnitude_positive : (x : ℕ) → x < 2 ^ 62 → magnitude x ≡ x
unfolding magnitude
magnitude_positive x h = ground arith

magnitude_negative : (x : ℕ) → 2 ^ 64 - 2 ^ 62 ≤ x → magnitude x ≡ 2 ^ 64 - 1 - x
unfolding magnitude
magnitude_negative x h = ground arith

magnitude-lt : (x : ℕ) → IsShortInt x → magnitude x < 2 ^ 62
magnitude-lt x (inl h) = omega (arith, magnitude_positive x h)
magnitude-lt x (inr (h, k)) = omega (arith, magnitude_negative x h)

transfer_size_int_lem :
    (x : ℕ)
    → magnitude x < 2 ^ 62
    → (0 < transfer_size_int x)
      × (transfer_size_int x ≤ 9)
      × (magnitude x < 64 * 128 ^ (transfer_size_int x - 1))
unfolding transfer_size_int
transfer_size_int_lem x h = ground arith

groups-nonempty : (k x : ℕ) (rest : List ℕ) → 0 < length (groups (suc k) x ++ rest)
groups-nonempty zero x rest = omega arith
groups-nonempty (suc k) x rest = omega arith

-- The sign bit that parse_int peeks at is bit 6 of the highest septet.
peek-groups :
    (k x : ℕ) (b : Buffer) (rest : List ℕ)
    → Holds b (groups (suc k) x ++ rest)
    → bit_and (buffer_peek_8 b) 0x40 ≡ x / 128 ^ k % 128 / 64 * 64
peek-groups zero x b rest h =
    rw (buffer_peek_8-Holds (x % 128 + 128) rest h, bit_and-0x40 (x % 128 + 128) (omega arith))
      (omega arith)
peek-groups (suc k) x b rest h =
    let top = x / 128 ^ suc k % 128 in
    rw (buffer_peek_8-Holds top (groups (suc k) x ++ rest) h, bit_and-0x40 top (omega arith))
      (omega arith)

-- The loop of parse_int, by the sign of what is read.
parse_int_start :
    (k x r : ℕ) (b : Buffer) (rest : List ℕ)
    → Holds b (groups (suc k) x ++ rest)
    → (if x / 128 ^ k % 128 / 64 * 64 == 0 then 0 else 2 ^ 64 - 1) ≡ r
    → parse_int b ≡ parse_loop 10 r b
unfolding parse_int
parse_int_start k x r b rest h e = ground (
  arith,
  buffer_size-length (groups (suc k) x ++ rest) h,
  groups-nonempty k x rest,
  peek-groups k x b rest h,
)

parse_int_positive :
    (k x : ℕ) (b : Buffer) (rest : List ℕ)
    → k ≤ 8
    → x < 64 * 128 ^ k
    → x < 2 ^ 62
    → Holds b (groups (suc k) x ++ rest)
    → ((parse_int b).0 ≡ ok x) × Holds (parse_int b).1 rest
parse_int_positive k x b rest most fits short h =
    let high : x / 128 ^ k < 64 = (div-lt_iff_lt-mul (one-le-pow k 128 (omega arith))).1 fits in
    let none_above : x / 128 ^ suc k ≡ 0 = omega (arith, septet_step x k, high) in
    let read : read_groups 10 0 (groups (suc k) x ++ rest) ≡ (ok x, rest) =
      rw none_above at
        (read_groups-groups (suc k) 10 x rest (omega arith) (omega arith) (omega arith)) in
    let (value, left) = parse_loop-read_groups 10 0 b (groups (suc k) x ++ rest) h in
    rw (parse_int_start k x 0 b rest h (ground (arith, high))) (rw read at value, rw read at left)

parse_int_negative :
    (k u : ℕ) (b : Buffer) (rest : List ℕ)
    → k ≤ 8
    → u < 64 * 128 ^ k
    → u < 2 ^ 62
    → Holds b (groups (suc k) (2 ^ 64 - 1 - u) ++ rest)
    → ((parse_int b).0 ≡ ok (2 ^ 64 - 1 - u)) × Holds (parse_int b).1 rest
parse_int_negative k u b rest most fits short h =
    let high : u / 128 ^ k < 64 = (div-lt_iff_lt-mul (one-le-pow k 128 (omega arith))).1 fits in
    let none_above : u / 128 ^ suc k ≡ 0 = omega (arith, septet_step u k, high) in
    let x : ℕ = 2 ^ 64 - 1 - u in
    let read : read_groups 10 (2 ^ 64 - 1) (groups (suc k) x ++ rest) ≡ (ok x, rest) =
      rw none_above at (
        read_groups-complement (suc k) 10 u rest (omega arith) (omega arith) (omega arith) short) in
    let (value, left) = parse_loop-read_groups 10 (2 ^ 64 - 1) b (groups (suc k) x ++ rest) h in
    rw (parse_int_start k x (2 ^ 64 - 1) b rest h (ground (arith, high, complement k u)))
      (rw read at value, rw read at left)

-- What transfer_int appends, and what parse_int makes of it.
pub transfer_int-Holds :
    (x : ℕ) (b : Buffer) (cs : List ℕ)
    → IsShortInt x
    → Holds b cs
    → transfer_size_int x ≤ buffer_remaining b
    → ((transfer_int b x).0 ≡ true)
      × Holds (transfer_int b x).1 (cs ++ groups (transfer_size_int x) x)
      × (buffer_remaining b ≤ 9 + buffer_remaining (transfer_int b x).1)
unfolding transfer_int
transfer_int-Holds x b cs short h room =
    let (pos, most, fits) = transfer_size_int_lem x (magnitude-lt x short) in
    let (done, all, left) = put_groups-Holds (transfer_size_int x) b cs x h pos room in
    rw (le→ltb (buffer_remaining b) (transfer_size_int x) room)
      (done, all, omega (arith, left, most))

pub parse_int-groups :
    (x : ℕ) (b : Buffer) (rest : List ℕ)
    → IsShortInt x
    → Holds b (groups (transfer_size_int x) x ++ rest)
    → ((parse_int b).0 ≡ ok x) × Holds (parse_int b).1 rest
parse_int-groups x b rest short h =
    let (pos, most, fits) = transfer_size_int_lem x (magnitude-lt x short) in
    at_size (transfer_size_int x - 1) short (omega arith) fits (rw size_suc at h)
  where
    size_suc : transfer_size_int x ≡ suc (transfer_size_int x - 1)
    size_suc = omega (arith, transfer_size_int_lem x (magnitude-lt x short))

    at_size :
        (k : ℕ)
        → IsShortInt x
        → k ≤ 8
        → magnitude x < 64 * 128 ^ k
        → Holds b (groups (suc k) x ++ rest)
        → ((parse_int b).0 ≡ ok x) × Holds (parse_int b).1 rest
    at_size k (inl small) most fits held =
        parse_int_positive k x b rest most (rw (magnitude_positive x small) at fits) small held
    at_size k (inr (low, high)) most fits held =
        let u : ℕ = 2 ^ 64 - 1 - x in
        let e : 2 ^ 64 - 1 - (2 ^ 64 - 1 - x) ≡ x = omega arith in
        rw e at (
          parse_int_negative k u b rest most (rw (magnitude_negative x low) at fits) (omega arith)
            (rw (← e) at held))

-- Written by transfer_int into an empty buffer with room for it, and followed by any bytes, an i64
-- from -2^62 to 2^62 - 1 is what parse_int returns, and it leaves the bytes that follow.
pub parse_int-transfer_int :
    (x : ℕ) (dst src : Buffer) (rest : List ℕ)
    → IsShortInt x
    → Holds dst []
    → transfer_size_int x ≤ buffer_remaining dst
    → Holds src (contents (transfer_int dst x).1 ++ rest)
    → ((transfer_int dst x).0 ≡ true) × ((parse_int src).0 ≡ ok x) × Holds (parse_int src).1 rest
parse_int-transfer_int x dst src rest short empty room sent =
    let (done, written, _) = transfer_int-Holds x dst [] short empty room in
    let (value, left) = parse_int-groups x src rest short (rw written.reads at sent) in
    (done, value, left)

pub transfer_size_int-le : (x : ℕ) → IsShortInt x → transfer_size_int x ≤ 9
transfer_size_int-le x h = (transfer_size_int_lem x (magnitude-lt x h)).1
