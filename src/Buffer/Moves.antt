-- ===== src/Buffer/Moves.antt =====
-- buffer_compact, buffer_find, buffer_sum and buffer_append on the bytes that a buffer holds.
use libtrading.Base.{
  ℕ, zero, suc, ◌+◌, ◌-◌, ◌%◌, ◌≤◌, ◌≡◌, ◌≢◌, refl, ap, ◌∙◌, Bool-cases, inl, inr, List, [], ◌∷◌,
  ◌++◌, length, arith, All, Option, none, some, ==_iff, ==→ne, add64, lt→ltb, ◌==◌,
}
use libtrading.Buffer.{
  Buffer, IsValid, move_down, buffer_advance, buffer_get_8, buffer_size, buffer_remaining,
  buffer_compact, buffer_find, find_loop, buffer_sum, buffer_sum_range, sum_loop, sign_extend,
  buffer_append,
}
use libtrading.Buffer.Contents.{
  window, Holds, buffer_size-length, buffer_get_8-Holds, buffer_peek_8-Holds,
}

window-move_down :
    (f : ℕ → ℕ) (from count i n : ℕ)
    → i + n ≤ count
    → window (move_down f from count) i n ≡ window f (from + i) n
window-move_down f from count i zero h = refl
window-move_down f from count i (suc n) h = rw (lt→ltb i count (omega arith)) (
    ap (◌∷◌ (f (from + i) % 256)) (
      window-move_down f from count (suc i) n (omega arith)
      ∙ ap (λ (k : ℕ). window f k n) (omega arith)))

size_lem : {b : Buffer} → IsValid b → buffer_size b ≡ b.end - b.start
unfolding buffer_size
size_lem {b} v = omega (arith, v.ordered, v.bounded, v.addressable)

-- buffer_compact keeps the bytes that a valid buffer holds, moves them to the front of its memory,
-- and leaves all the other memory as room behind them.
pub buffer_compact-Holds :
    (b : Buffer) (cs : List ℕ)
    → Holds b cs
    → Holds (buffer_compact b) cs
      × ((buffer_compact b).start ≡ 0)
      × (buffer_remaining (buffer_compact b) ≡ b.capacity - length cs)
unfolding buffer_compact buffer_remaining
buffer_compact-Holds b cs h = (
  record {
    valid = record {
      ordered = omega arith;
      bounded = omega (arith, size, v.bounded);
      addressable = v.addressable;
    };
    reads =
        ap (window (move_down b.bytes b.start (buffer_size b)) 0) whole
        ∙ window-move_down b.bytes b.start (buffer_size b) 0 (buffer_size b) (omega arith)
        ∙ ap (λ (k : ℕ). window b.bytes k (buffer_size b)) (omega arith)
        ∙ ap (window b.bytes b.start) size
        ∙ h.reads;
  },
  refl,
  omega (arith, buffer_size-length cs h, size, v.bounded, v.addressable),
)
  where
    v : IsValid b
    v = h.valid

    whole : buffer_size b - 0 ≡ buffer_size b
    whole = omega arith

    size : buffer_size b ≡ b.end - b.start
    size = size_lem v

-- What buffer_find makes of the bytes `cs` from offset `start` on.
abbrev pub Finds : ℕ → ℕ → List ℕ → Option ℕ × Buffer → Type 0
Finds c start cs (some at', b) =
    (front rest : List ℕ) × (cs ≡ front ++ (c ∷ rest))
    × All (λ x. x ≢ c) front
    × (at' ≡ start + length front)
    × (b.start ≡ at')
    × Holds b (c ∷ rest)
Finds c start cs (none, b) = All (λ x. x ≢ c) cs × Holds b []

start-buffer_get_8 :
    {b : Buffer} {c : ℕ} {cs : List ℕ} → Holds b (c ∷ cs) → (buffer_get_8 b).1.start ≡ suc b.start
unfolding buffer_get_8
start-buffer_get_8 {b} {c} {cs} h = omega (
  arith,
  h.valid.ordered,
  h.valid.bounded,
  h.valid.addressable,
  buffer_size-length (c ∷ cs) h,
  size_lem h.valid,
)

find_loop-Finds :
    (c n : ℕ) (b : Buffer) (cs : List ℕ)
    → Holds b cs
    → length cs ≡ n
    → Finds c b.start cs (find_loop n b c)
unfolding find_loop buffer_advance buffer_get_8
find_loop-Finds c zero b [] h e = (tt, h)
find_loop-Finds c zero b (x ∷ xs) h e = absurd (omega arith)
find_loop-Finds c (suc n) b [] h e = absurd (omega arith)
find_loop-Finds c (suc n) b (x ∷ xs) h e =
    let first = buffer_peek_8-Holds x xs h in
    let (_, next) = buffer_get_8-Holds x xs h in
    elim (Bool-cases (x == c)) [
      | inl same ↦
          rw (first, same)
            (
              [],
              xs,
              ap (λ (k : ℕ). k ∷ xs) ((==_iff x c).0 same),
              tt,
              omega arith,
              refl,
              rw ((==_iff x c).0 same) at h,
            )
      | inr apart ↦
          rw (first, apart)
            (more (find_loop n (buffer_get_8 b).1 c) (==→ne _ _ apart) step
              (find_loop-Finds c n (buffer_get_8 b).1 xs next (omega arith)))
    ]
  where
    step : (buffer_get_8 b).1.start ≡ suc b.start
    step = start-buffer_get_8 h

    more :
        (r : Option ℕ × Buffer)
        → x ≢ c
        → (buffer_get_8 b).1.start ≡ suc b.start
        → Finds c (buffer_get_8 b).1.start xs r
        → Finds c b.start (x ∷ xs) r
    more (some at', b') ne behind (front, rest, e, none_before, place, moved, held) =
        (x ∷ front, rest, ap (◌∷◌ x) e, (ne, none_before), omega arith, moved, held)
    more (none, b') ne behind (none_at_all, held) = ((ne, none_at_all), held)

-- In a valid buffer buffer_find stops at the first byte of that value, with the bytes before it
-- taken off and the byte itself still unread, and returns its place; when there is none it takes off
-- every byte and returns NULL.
pub buffer_find-Finds :
    (b : Buffer) (c : ℕ) (cs : List ℕ) → Holds b cs → Finds c b.start cs (buffer_find b c)
unfolding buffer_find
buffer_find-Finds b c cs h =
    rw (buffer_size-length cs h) (find_loop-Finds c (length cs) b cs h refl)

-- The sum of the bytes of a list.
abbrev pub total : List ℕ → ℕ
total [] = 0
total (c ∷ cs) = c + total cs

sum_loop-total :
    (n : ℕ) (f : ℕ → ℕ) (at' sum : ℕ)
    → sum_loop n f at' sum % 256 ≡ (sum + total (window f at' n)) % 256
unfolding sum_loop
sum_loop-total zero f at' sum = omega arith
sum_loop-total (suc n) f at' sum = omega (
  arith,
  sum_loop-total n f (suc at') (add64 sum (sign_extend (f at' % 256))),
  extended (f at' % 256),
)
  where
    extended : (c : ℕ) → sign_extend c % 256 ≡ c % 256
    extended c = ground arith

pub buffer_sum_range-total :
    (f : ℕ → ℕ) (from to : ℕ) → buffer_sum_range f from to ≡ total (window f from (to - from)) % 256
unfolding buffer_sum_range
buffer_sum_range-total f from to =
    sum_loop-total (to - from) f from 0 ∙ ap (λ (k : ℕ). k % 256) (omega arith)

-- buffer_sum is the sum of the bytes held, modulo 256: the sign extension of the `char`s and the
-- wrap-around of the sum do not show.
pub buffer_sum-total : (b : Buffer) (cs : List ℕ) → Holds b cs → buffer_sum b ≡ total cs % 256
unfolding buffer_sum
buffer_sum-total b cs h =
    buffer_sum_range-total b.bytes b.start b.end ∙ ap (λ (xs : List ℕ). total xs % 256) h.reads

-- Between valid buffers, buffer_append leaves the destination with as many unread bytes as it had:
-- it moves `start` as far as `end`, so the appended bytes are not among them.
pub buffer_size-buffer_append :
    (dst src : Buffer)
    → IsValid dst
    → IsValid src
    → buffer_size (buffer_append dst src) ≡ buffer_size dst
unfolding buffer_size buffer_append buffer_remaining
buffer_size-buffer_append dst src v w =
    ground (arith, v.ordered, v.bounded, v.addressable, w.ordered, w.bounded, w.addressable)
