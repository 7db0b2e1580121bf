-- ===== src/Fast/Codec/Unsigned.antt =====
-- The septets of a u64 between transfer_uint and parse_uint of lib/proto/fast_message.c.
use libtrading.Base.{
  ℕ, zero, suc, ◌+◌, ◌*◌, ◌/◌, ◌%◌, ◌^◌, ◌≤◌, ◌<◌, ◌≡◌, refl, ap, true, List, [], ◌++◌, arith,
  lt→ltb, le→ltb,
}
use libtrading.Buffer.{Buffer, buffer_remaining}
use libtrading.Buffer.Contents.{Holds, contents}
use libtrading.Fast.Codec.{ok, parse_uint, transfer_uint, transfer_size_uint}
use libtrading.Fast.Codec.Groups.{groups, read_groups, parse_loop-read_groups, put_groups-Holds}
use native.Mathlib.Nat.{div-div-eq-div-mul, div-le_self, div-eq_of_lt, pow-suc}

pub septet_step : (x k : ℕ) → x / 128 ^ suc k ≡ x / 128 ^ k / 128
septet_step x k = rw (pow-suc 128 k, div-div-eq-div-mul x (128 ^ k) 128) refl

-- Reading the `n` lowest septets of `x` behind the septets above them gives `x`.
pub read_groups-groups :
    (n rounds x : ℕ) (rest : List ℕ)
    → 0 < n
    → n ≤ rounds
    → x < 2 ^ 64
    → read_groups rounds (x / 128 ^ n) (groups n x ++ rest) ≡ (ok x, rest)
read_groups-groups zero rounds x rest p q fits = absurd (omega arith)
read_groups-groups (suc n) zero x rest p q fits = absurd (omega arith)
read_groups-groups (suc zero) (suc rounds) x rest p q fits =
    rw (le→ltb (x % 128 + 128) 128 (omega arith)) (ap (λ (v : ℕ). (ok v, rest)) (omega arith))
read_groups-groups (suc (suc k)) (suc rounds) x rest p q fits =
    rw (lt→ltb (x / 128 ^ suc k % 128) 128 (omega arith), top)
      (read_groups-groups (suc k) rounds x rest (omega arith) (omega arith) fits)
  where
    top : x / 128 ^ suc (suc k) * 128 % 2 ^ 64 + x / 128 ^ suc k % 128 ≡ x / 128 ^ suc k
    top = omega (arith, septet_step x (suc k), div-le_self x (128 ^ suc k))

transfer_size_uint_lem :
    (x : ℕ)
    → x < 2 ^ 63
    → (0 < transfer_size_uint x) × (transfer_size_uint x ≤ 9) × (x < 128 ^ transfer_size_uint x)
unfolding transfer_size_uint
transfer_size_uint_lem x h = ground arith

-- What transfer_uint appends, and what parse_uint makes of it.
pub transfer_uint-Holds :
    (x : ℕ) (b : Buffer) (cs : List ℕ)
    → x < 2 ^ 63
    → Holds b cs
    → transfer_size_uint x ≤ buffer_remaining b
    → ((transfer_uint b x).0 ≡ true)
      × Holds (transfer_uint b x).1 (cs ++ groups (transfer_size_uint x) x)
      × (buffer_remaining b ≤ 9 + buffer_remaining (transfer_uint b x).1)
unfolding transfer_uint
transfer_uint-Holds x b cs small h room =
    let (pos, most, fits) = transfer_size_uint_lem x small in
    let (done, all, left) = put_groups-Holds (transfer_size_uint x) b cs x h pos room in
    rw (le→ltb (buffer_remaining b) (transfer_size_uint x) room)
      (done, all, omega (arith, left, most))

pub parse_uint-groups :
    (x : ℕ) (b : Buffer) (rest : List ℕ)
    → x < 2 ^ 63
    → Holds b (groups (transfer_size_uint x) x ++ rest)
    → ((parse_uint b).0 ≡ ok x) × Holds (parse_uint b).1 rest
unfolding parse_uint
parse_uint-groups x b rest small h =
    let (pos, most, fits) = transfer_size_uint_lem x small in
    let size = transfer_size_uint x in
    let read : read_groups 9 0 (groups size x ++ rest) ≡ (ok x, rest) =
      rw (div-eq_of_lt fits) at (read_groups-groups size 9 x rest pos most (omega arith)) in
    let (value, left) = parse_loop-read_groups 9 0 b (groups size x ++ rest) h in
    (rw read at value, rw read at left)

-- Written by transfer_uint into an empty buffer with room for it, and followed by any bytes, a value
-- below 2 ^ 63 is what parse_uint returns, and it leaves the bytes that follow.
pub parse_uint-transfer_uint :
    (x : ℕ) (dst src : Buffer) (rest : List ℕ)
    → x < 2 ^ 63
    → Holds dst []
    → transfer_size_uint x ≤ buffer_remaining dst
    → Holds src (contents (transfer_uint dst x).1 ++ rest)
    → ((transfer_uint dst x).0 ≡ true) × ((parse_uint src).0 ≡ ok x) × Holds (parse_uint src).1 rest
parse_uint-transfer_uint x dst src rest small empty room sent =
    let (pos, most, fits) = transfer_size_uint_lem x small in
    let (done, written, _) = transfer_uint-Holds x dst [] small empty room in
    let (value, left) = parse_uint-groups x src rest small (rw written.reads at sent) in
    (done, value, left)

pub transfer_size_uint-le : (x : ℕ) → x < 2 ^ 63 → transfer_size_uint x ≤ 9
transfer_size_uint-le x h = (transfer_size_uint_lem x h).1
