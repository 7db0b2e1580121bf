-- ===== src/Buffer.antt =====
-- include/libtrading/buffer.h and lib/buffer.c: the byte buffer of every protocol.
-- An `unsigned long` is a number below 2 ^ 64 and its arithmetic wraps.
pub mod Contents
pub mod Moves
pub mod Numbers
mod Tests
use libtrading.Base.{
  ℕ, zero, suc, ◌+◌, ◌-◌, ◌*◌, ◌%◌, ◌^◌, ◌≤◌, ◌<◌, bit_or, ◌≡◌, Bool, List, [], ◌∷◌, Option, none,
  some, ltb, leb, ◌==◌, if◌then◌else◌, add64, sub64, IsWord,
}

-- `struct buffer`. `bytes` is the memory from `data` on; a `char` is read modulo 256.
pub record Buffer : Type 0 where
  pub start : ℕ
  pub end : ℕ
  pub capacity : ℕ
  pub bytes : ℕ → ℕ

-- What every operation may rely on: the window lies inside the allocation.
pub record IsValid (b : Buffer) : Type 0 where
  pub ordered : b.start ≤ b.end
  pub bounded : b.end ≤ b.capacity
  pub addressable : IsWord b.capacity

-- A store to `data[i]`.
abbrev pub write_at : (ℕ → ℕ) → ℕ → ℕ → ℕ → ℕ
write_at f i v j = if i == j then v else f j

unfoldable pub buffer_new : ℕ → (ℕ → ℕ) → Buffer
buffer_new capacity memory = record { start = 0; end = 0; capacity = capacity; bytes = memory }

unfoldable pub buffer_peek_8 : Buffer → ℕ
buffer_peek_8 b = b.bytes b.start % 256

unfoldable pub buffer_advance : Buffer → ℕ → Buffer
buffer_advance b n = record b { start = add64 b.start n }

unfoldable pub buffer_advance_end : Buffer → ℕ → Buffer
buffer_advance_end b n = record b { end = add64 b.end n }

unfoldable pub buffer_get_8 : Buffer → ℕ × Buffer
buffer_get_8 b = (b.bytes b.start % 256, record b { start = add64 b.start 1 })

-- `x |= buffer_get_8(self) << k` for one shift after the other.
unfoldable pub gather : List ℕ → ℕ → Buffer → ℕ × Buffer
gather [] x b = (x, b)
gather (k ∷ ks) x b = gather ks (bit_or x ((buffer_get_8 b).0 * 2 ^ k)) (buffer_get_8 b).1

unfoldable pub buffer_get_le16 : Buffer → ℕ × Buffer
unfolding gather
buffer_get_le16 b = gather (0 ∷ 8 ∷ []) 0 b

unfoldable pub buffer_get_le32 : Buffer → ℕ × Buffer
unfolding gather
buffer_get_le32 b = gather (0 ∷ 8 ∷ 16 ∷ 24 ∷ []) 0 b

unfoldable pub buffer_get_le64 : Buffer → ℕ × Buffer
unfolding gather
buffer_get_le64 b = gather (0 ∷ 8 ∷ 16 ∷ 24 ∷ 32 ∷ 40 ∷ 48 ∷ 56 ∷ []) 0 b

-- What is stored behind `dst`.
unfoldable pub buffer_get_n : Buffer → ℕ → List ℕ × Buffer
buffer_get_n b zero = ([], b)
buffer_get_n b (suc n) =
    let (c, b') = buffer_get_8 b in let (cs, b'') = buffer_get_n b' n in (c ∷ cs, b'')

unfoldable pub buffer_put : Buffer → ℕ → Buffer
buffer_put b byte = record b { bytes = write_at b.bytes b.end (byte % 256); end = add64 b.end 1 }

unfoldable pub buffer_size : Buffer → ℕ
buffer_size b = sub64 b.end b.start

unfoldable pub buffer_remaining : Buffer → ℕ
buffer_remaining b = sub64 b.capacity b.end

unfoldable pub buffer_reset : Buffer → Buffer
buffer_reset b = record b { start = 0; end = 0 }

-- `while (buffer_size(buf))`: one round for each byte of the window. The result is the offset
-- behind the pointer that is returned.
unfoldable pub find_loop : ℕ → Buffer → ℕ → Option ℕ × Buffer
find_loop zero b c = (none, b)
find_loop (suc n) b c =
    let rest = find_loop n (buffer_advance b 1) c in
    if buffer_peek_8 b == c then (some b.start, b) else rest

unfoldable pub buffer_find : Buffer → ℕ → Option ℕ × Buffer
unfolding find_loop
buffer_find b c = find_loop (buffer_size b) b c

-- `memmove(buf->data, start, count)`
abbrev pub move_down : (ℕ → ℕ) → ℕ → ℕ → ℕ → ℕ
move_down f from count j = if ltb j count then f (from + j) else f j

unfoldable pub buffer_compact : Buffer → Buffer
buffer_compact b =
    let count = buffer_size b in
    record b { start = 0; end = count; bytes = move_down b.bytes b.start count }

-- `memcpy(dst->data + dst->start, src->data + src->start, len)`
abbrev pub copy_in : (ℕ → ℕ) → ℕ → (ℕ → ℕ) → ℕ → ℕ → ℕ → ℕ
copy_in f at' g from len j =
    if leb at' j then (if ltb j (at' + len) then g (from + (j - at')) else f j) else f j

unfoldable pub buffer_append : Buffer → Buffer → Buffer
buffer_append dst src =
    let size = buffer_size src in
    let room = buffer_remaining dst in
    let len = if ltb room size then room else size in
    record dst {
      bytes = copy_in dst.bytes dst.start src.bytes src.start len;
      start = add64 dst.start len;
      end = add64 dst.end len;
    }

-- The sign-extended `char` that `sum += *ptr` adds to an unsigned long.
abbrev pub sign_extend : ℕ → ℕ
sign_extend c = if ltb c 128 then c else c + (2 ^ 64 - 256)

pub sum_loop : ℕ → (ℕ → ℕ) → ℕ → ℕ → ℕ
sum_loop zero f at' sum = sum
sum_loop (suc n) f at' sum = sum_loop n f (suc at') (add64 sum (sign_extend (f at' % 256)))

-- The pointers are offsets into one buffer's memory; a range that ends before it starts is empty.
unfoldable pub buffer_sum_range : (ℕ → ℕ) → ℕ → ℕ → ℕ
unfolding sum_loop
buffer_sum_range f from to = sum_loop (to - from) f from 0 % 256

unfoldable pub buffer_sum : Buffer → ℕ
buffer_sum b = buffer_sum_range b.bytes b.start b.end
