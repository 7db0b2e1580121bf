-- ===== src/Fast/Pmap.antt =====
-- The presence map of include/libtrading/proto/fast_message.h and parse_pmap of
-- lib/proto/fast_message.c.
pub mod Laws
pub mod Parse
mod Tests
use libtrading.Base.{
  ℕ, zero, suc, ◌+◌, ◌-◌, ◌/◌, ◌%◌, ◌^◌, ◌≤◌, bit_and, bit_or, Bool, true, false, not, List, [],
  ◌∷◌, get_or, set, replicate, length, All, ltb, leb, ◌==◌, if◌then◌else◌, add64, ◌≡◌, ◌<◌,
}
use libtrading.Buffer.{Buffer, buffer_size, buffer_get_8}
use libtrading.Fast.Codec.{Parsed, ok, garbled, partial}

-- The return code of a decoder: 0, FAST_MSG_STATE_GARBLED or FAST_MSG_STATE_PARTIAL.
abbrev pub Ret : Type 0
Ret = Parsed (Unit {0})

abbrev pub fast_pmap_max_bytes : ℕ
fast_pmap_max_bytes = 8

-- `struct fast_pmap`. `pmap_bit` is a long, as its 64-bit pattern; `bytes` is the array.
pub record Pmap : Type 0 where
  pub is_valid : Bool
  pub pmap_bit : ℕ
  pub nr_bytes : ℕ
  pub bytes : List ℕ

-- The mask of a bit in its byte: `1 << (6 - bit % 7)`.
abbrev pub mask : ℕ → ℕ
mask bit = 2 ^ (6 - bit % 7)

unfoldable pub pmap_is_set : Pmap → ℕ → Bool
pmap_is_set p bit =
    if leb p.nr_bytes (bit / 7)
    then false
    else not (bit_and (get_or p.bytes (bit / 7) 0) (mask bit) == 0)

-- Callers ignore the `bool` that says whether the bit lies in the map.
unfoldable pub pmap_set : Pmap → ℕ → Pmap
pmap_set p bit =
    if leb p.nr_bytes (bit / 7)
    then p
    else record p { bytes = set p.bytes (bit / 7) (bit_or (get_or p.bytes (bit / 7) 0) (mask bit)) }

-- `pmap->pmap_bit++`
abbrev pub next_bit : Pmap → ℕ
next_bit p = add64 p.pmap_bit 1

abbrev pub advance : Pmap → Pmap
advance p = record p { pmap_bit = next_bit p }

-- What holds of every map: its bytes are bytes, and the used ones lie in the array.
pub record IsPmap (p : Pmap) : Type 0 where
  pub within : p.nr_bytes ≤ length p.bytes
  pub in_range : All (λ c. c < 256) p.bytes

-- The `while` loop of parse_pmap, over the rounds that are left.
unfoldable pub parse_pmap_loop : ℕ → Buffer → Pmap → Ret × Buffer × Pmap
parse_pmap_loop zero b p = (garbled, b, p)
parse_pmap_loop (suc rounds) b p =
    let c = (buffer_get_8 b).0 in
    let b' = (buffer_get_8 b).1 in
    let p' : Pmap = record p { nr_bytes = suc p.nr_bytes; bytes = set p.bytes p.nr_bytes c } in
    let more = parse_pmap_loop rounds b' p' in
    if buffer_size b == 0
    then (partial, b, p)
    else if bit_and c 0x80 == 0
    then more
    else (ok tt, b', p')

unfoldable pub parse_pmap : Buffer → Pmap → Ret × Buffer × Pmap
unfolding parse_pmap_loop
parse_pmap b p = parse_pmap_loop fast_pmap_max_bytes b (record p { nr_bytes = 0 })
