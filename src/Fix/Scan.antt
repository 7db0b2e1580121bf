-- ===== src/Fix/Scan.antt =====
-- The scanner of lib/proto/fix_message.c: fix_uatoi, fix_atoi64, parse_tag, parse_value, next_tag,
-- match_field and parse_field. A pointer into a buffer is an offset into its memory; an `int` is its 32-bit
-- pattern. A scan for the end of a number goes on as far as the memory is readable, which is the first
-- argument.
pub mod Numbers
pub mod Memory
pub mod Fields
pub mod Moves
use libtrading.Base.{
  ℕ, zero, suc, ◌+◌, ◌-◌, ◌*◌, ◌%◌, ◌^◌, Bool, ◌&&◌, Option, some, none, ltb, leb, ◌==◌,
  if◌then◌else◌,
}
use libtrading.Buffer.{Buffer, buffer_find, buffer_advance}

-- What a parser returns: 0 with the value that it stores, FIX_MSG_STATE_PARTIAL or
-- FIX_MSG_STATE_GARBLED.
pub data State {ℓ} (A : Type ℓ) : Type ℓ where
  ok : A → State A
  partial : State A
  garbled : State A

abbrev pub is_digit : ℕ → Bool
is_digit c = leb b'0' c && leb c b'9'

-- `while (*p >= '0' && *p <= '9')` on a number of `2 ^ w` values.
unfoldable pub atoi_loop : ℕ → ℕ → (ℕ → ℕ) → ℕ → ℕ → ℕ × ℕ
atoi_loop w zero f p ret = (ret, p)
atoi_loop w (suc n) f p ret =
    let c = f p % 256 in
    let more = atoi_loop w n f (p + 1) ((ret * 10 + (c - b'0')) % 2 ^ w) in
    if is_digit c then more else (ret, p)

-- The number, and the address behind it that is stored to `*end`.
unfoldable pub fix_uatoi : ℕ → (ℕ → ℕ) → ℕ → ℕ × ℕ
fix_uatoi n f p = atoi_loop 32 n f p 0

unfoldable pub fix_atoi64 : ℕ → (ℕ → ℕ) → ℕ → ℕ × ℕ
fix_atoi64 n f p =
    let neg = f p % 256 == b'-' in
    let (ret, end) = atoi_loop 64 n f (if neg then p + 1 else p) 0 in
    (if neg then (2 ^ 64 - ret) % 2 ^ 64 else ret, end)

-- The bytes that can be read from an address on.
abbrev pub readable : Buffer → ℕ → ℕ
readable b p = b.capacity - p

abbrev pub soh : ℕ
soh = 0x01

abbrev pub found_tag : Buffer → Option ℕ × Buffer → State ℕ × Buffer
found_tag b (none, b') = (partial, b')
found_tag b (some delim, b') =
    let (ret, end) = fix_uatoi (readable b b.start) b.bytes b.start in
    if b.bytes delim % 256 == b'='
    then (if end == delim then (ok ret, buffer_advance b' 1) else (garbled, b'))
    else (partial, b')

unfoldable pub parse_tag : Buffer → State ℕ × Buffer
parse_tag b = found_tag b (buffer_find b b'=')

abbrev pub found_value : Buffer → Option ℕ × Buffer → State ℕ × Buffer
found_value b (none, b') = (partial, b')
found_value b (some end, b') =
    if b.bytes end % 256 == soh then (ok b.start, buffer_advance b' 1) else (partial, b')

unfoldable pub parse_value : Buffer → State ℕ × Buffer
parse_value b = found_value b (buffer_find b soh)

abbrev pub found_next : Buffer → Option ℕ × Buffer → Buffer
found_next b (none, b') = b'
found_next b (some delim, b') = if b.bytes delim % 256 == soh then buffer_advance b' 1 else b'

unfoldable pub next_tag : Buffer → Buffer
next_tag b = found_next b (buffer_find b soh)

-- Behind parse_tag, on the tag that is expected.
abbrev pub match_tag : ℕ → State ℕ × Buffer → State ℕ × Buffer
match_tag tag (ok ptag, b) = if ptag == tag then parse_value b else (garbled, next_tag b)
match_tag tag (partial, b) = (partial, next_tag b)
match_tag tag (garbled, b) = (garbled, next_tag b)

unfoldable pub match_field : Buffer → ℕ → State ℕ × Buffer
match_field b tag = match_tag tag (parse_tag b)

-- The tag, which is stored also when there is no value behind it, and the value.
abbrev pub with_tag : ℕ → State ℕ × Buffer → State (ℕ × ℕ) × Buffer
with_tag tag (ok value, b) = (ok (tag, value), b)
with_tag tag (partial, b) = (partial, b)
with_tag tag (garbled, b) = (garbled, b)

abbrev pub parse_field_value : State ℕ × Buffer → State (ℕ × ℕ) × Buffer
parse_field_value (ok tag, b) = with_tag tag (parse_value b)
parse_field_value (partial, b) = (partial, next_tag b)
parse_field_value (garbled, b) = (garbled, next_tag b)

unfoldable pub parse_field : Buffer → State (ℕ × ℕ) × Buffer
parse_field b = parse_field_value (parse_tag b)
