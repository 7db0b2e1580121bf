-- ===== src/Fast/Codec.antt =====
-- The stop-bit integers of lib/proto/fast_message.c: parse_uint, parse_int, transfer_uint and
-- transfer_int, with the size functions of include/libtrading/proto/fast_message.h.
-- An `i64` is its 64-bit pattern.
pub mod Groups
pub mod Unsigned
pub mod Signed
pub mod Outcome
mod Tests
use libtrading.Base.{
  ℕ, zero, suc, ◌+◌, ◌-◌, ◌*◌, ◌/◌, ◌%◌, ◌^◌, bit_and, bit_or, Bool, true, false, ltb, ◌==◌,
  if◌then◌else◌, is_negative,
}
use libtrading.Buffer.{
  Buffer, buffer_size, buffer_peek_8, buffer_get_8, buffer_put, buffer_remaining,
}

-- What a parser returns: 0 with the value it stores, FAST_MSG_STATE_GARBLED or
-- FAST_MSG_STATE_PARTIAL.
pub data Parsed {ℓ} (A : Type ℓ) : Type ℓ where
  ok : A → Parsed A
  garbled : Parsed A
  partial : Parsed A

-- `(result << 7) | c` on 64 bits
abbrev pub shift_in : ℕ → ℕ → ℕ
shift_in result c = bit_or (result * 128 % 2 ^ 64) c

-- The `for` loop of parse_uint and parse_int, over the rounds that are left.
unfoldable pub parse_loop : ℕ → ℕ → Buffer → Parsed ℕ × Buffer
parse_loop zero result b = (garbled, b)
parse_loop (suc rounds) result b =
    let c = (buffer_get_8 b).0 in
    let b' = (buffer_get_8 b).1 in
    let more = parse_loop rounds (shift_in result c) b' in
    if buffer_size b == 0
    then (partial, b)
    else if bit_and c 0x80 == 0
    then more
    else (ok (shift_in result (bit_and c 0x7f)), b')

unfoldable pub parse_uint : Buffer → Parsed ℕ × Buffer
parse_uint b = parse_loop 9 0 b

-- `result` starts at 0, or at -1 when the first byte has its sign bit set.
unfoldable pub parse_int : Buffer → Parsed ℕ × Buffer
parse_int b =
    if buffer_size b == 0
    then (partial, b)
    else parse_loop 10 (if bit_and (buffer_peek_8 b) 0x40 == 0 then 0 else 2 ^ 64 - 1) b

unfoldable pub transfer_size_uint : ℕ → ℕ
transfer_size_uint x =
    if x / 2 ^ 7 == 0
    then 1
    else if x / 2 ^ 14 == 0
    then 2
    else if x / 2 ^ 21 == 0
    then 3
    else if x / 2 ^ 28 == 0
    then 4
    else if x / 2 ^ 35 == 0
    then 5
    else if x / 2 ^ 42 == 0
    then 6
    else if x / 2 ^ 49 == 0
    then 7
    else if x / 2 ^ 56 == 0
    then 8
    else 9

-- `data >= 0 ? data : ~data`
unfoldable pub magnitude : ℕ → ℕ
magnitude x = if is_negative x then 2 ^ 64 - 1 - x else x

unfoldable pub transfer_size_int : ℕ → ℕ
transfer_size_int x =
    let tmp = magnitude x in
    if tmp / 2 ^ 6 == 0
    then 1
    else if tmp / 2 ^ 13 == 0
    then 2
    else if tmp / 2 ^ 20 == 0
    then 3
    else if tmp / 2 ^ 27 == 0
    then 4
    else if tmp / 2 ^ 34 == 0
    then 5
    else if tmp / 2 ^ 41 == 0
    then 6
    else if tmp / 2 ^ 48 == 0
    then 7
    else if tmp / 2 ^ 55 == 0
    then 8
    else 9

-- The falling-through `switch (size)` of transfer_uint and transfer_int: case `k + 1` puts the bits
-- from 7 * k on, and case 1 the last seven with the stop bit. A septet of the arithmetic shift of
-- an i64 by at most 56 is that of its pattern.
unfoldable pub put_groups : ℕ → Buffer → ℕ → Bool × Buffer
put_groups zero b x = (false, b)
put_groups (suc zero) b x = (true, buffer_put b (bit_or (x % 128) 0x80))
put_groups (suc (suc k)) b x = put_groups (suc k) (buffer_put b (x / 128 ^ suc k % 128)) x

unfoldable pub transfer_uint : Buffer → ℕ → Bool × Buffer
transfer_uint b x =
    let size = transfer_size_uint x in
    if ltb (buffer_remaining b) size then (false, b) else put_groups size b x

unfoldable pub transfer_int : Buffer → ℕ → Bool × Buffer
transfer_int b x =
    let size = transfer_size_int x in
    if ltb (buffer_remaining b) size then (false, b) else put_groups size b x
