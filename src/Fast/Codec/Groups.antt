-- ===== src/Fast/Codec/Groups.antt =====
-- What the loops do to the contents of a buffer.
use libtrading.Base.{
  ℕ, zero, suc, ◌+◌, ◌-◌, ◌*◌, ◌/◌, ◌%◌, ◌^◌, ◌≤◌, ◌<◌, ◌≡◌, refl, true, List, [], ◌∷◌, ◌++◌,
  append_assoc, ltb, if◌then◌else◌, arith, bit_and-0x7f, bit_and-0x80, bit_or-0x80, septet_in,
  Bool-cases, ltb→lt, ltb→le, inl, inr,
}
use libtrading.Buffer.{Buffer, buffer_get_8, buffer_put, buffer_remaining}
use libtrading.Buffer.Contents.{
  Holds, Holds-byte, buffer_size-length, buffer_get_8-Holds, buffer_put-Holds,
}
use libtrading.Fast.Codec.{Parsed, ok, garbled, partial, parse_loop, put_groups}

-- The bytes of the `n` septets of `x`, highest first, the last with the stop bit.
abbrev pub groups : ℕ → ℕ → List ℕ
groups zero x = []
groups (suc zero) x = (x % 128 + 128) ∷ []
groups (suc (suc k)) x = (x / 128 ^ suc k % 128) ∷ groups (suc k) x

pub put_groups-Holds :
    (n : ℕ) (b : Buffer) (cs : List ℕ) (x : ℕ)
    → Holds b cs
    → 0 < n
    → n ≤ buffer_remaining b
    → ((put_groups n b x).0 ≡ true)
      × Holds (put_groups n b x).1 (cs ++ groups n x)
      × (buffer_remaining (put_groups n b x).1 ≡ buffer_remaining b - n)
unfolding put_groups
put_groups-Holds zero b cs x h p room = absurd (omega arith)
put_groups-Holds (suc zero) b cs x h p room = rw (bit_or-0x80 (x % 128) (omega arith)) (
    let (grown, left) = buffer_put-Holds cs (x % 128 + 128) h (omega arith) room in
    (refl, grown, left))
put_groups-Holds (suc (suc k)) b cs x h p room =
    let c = x / 128 ^ suc k % 128 in
    let (grown, left) = buffer_put-Holds cs c h (omega arith) (omega arith) in
    let (done, all, rest) =
      put_groups-Holds (suc k) (buffer_put b c) (cs ++ (c ∷ [])) x grown (omega arith)
        (omega (arith, left)) in
    (done, rw append_assoc at all, omega (arith, left, rest))

-- One round of the loop, on no byte, on a byte without and on a byte with the stop bit.
parse_loop-empty :
    (rounds result : ℕ) (b : Buffer) → Holds b [] → parse_loop (suc rounds) result b ≡ (partial, b)
unfolding parse_loop
parse_loop-empty rounds result b h = ground (arith, buffer_size-length [] h)

parse_loop-more :
    (rounds result : ℕ) (b : Buffer) (c : ℕ) (cs : List ℕ)
    → Holds b (c ∷ cs)
    → c < 128
    → parse_loop (suc rounds) result b
      ≡ parse_loop rounds (result * 128 % 2 ^ 64 + c) (buffer_get_8 b).1
unfolding parse_loop
parse_loop-more rounds result b c cs h small = ground (
  arith,
  buffer_size-length (c ∷ cs) h,
  (buffer_get_8-Holds c cs h).0,
  bit_and-0x80 c,
  septet_in result c,
)

parse_loop-stop :
    (rounds result : ℕ) (b : Buffer) (c : ℕ) (cs : List ℕ)
    → Holds b (c ∷ cs)
    → 128 ≤ c
    → parse_loop (suc rounds) result b ≡ (ok (result * 128 % 2 ^ 64 + c % 128), (buffer_get_8 b).1)
unfolding parse_loop
parse_loop-stop rounds result b c cs h big = ground (
  arith,
  buffer_size-length (c ∷ cs) h,
  (buffer_get_8-Holds c cs h).0,
  Holds-byte c cs h,
  bit_and-0x80 c,
  bit_and-0x7f c,
  septet_in result (c % 128),
)

-- The loop on a list of bytes, in plain arithmetic.
abbrev pub read_groups : ℕ → ℕ → List ℕ → Parsed ℕ × List ℕ
read_groups zero result cs = (garbled, cs)
read_groups (suc rounds) result [] = (partial, [])
read_groups (suc rounds) result (c ∷ cs) =
    if ltb c 128
    then read_groups rounds (result * 128 % 2 ^ 64 + c) cs
    else (ok (result * 128 % 2 ^ 64 + c % 128), cs)

-- The parse loop does to a buffer what `read_groups` does to its contents.
pub parse_loop-read_groups :
    (rounds result : ℕ) (b : Buffer) (cs : List ℕ)
    → Holds b cs
    → ((parse_loop rounds result b).0 ≡ (read_groups rounds result cs).0)
      × Holds (parse_loop rounds result b).1 (read_groups rounds result cs).1
parse_loop-read_groups zero result b cs h = unfold parse_loop in (refl, h)
parse_loop-read_groups (suc rounds) result b [] h =
    rw (parse_loop-empty rounds result b h) (refl, h)
parse_loop-read_groups (suc rounds) result b (c ∷ cs) h =
    let (_, next) = buffer_get_8-Holds c cs h in
    elim (Bool-cases (ltb c 128)) [
      | inl small ↦
          rw (parse_loop-more rounds result b c cs h (ltb→lt _ _ small), small)
            (parse_loop-read_groups rounds (result * 128 % 2 ^ 64 + c) (buffer_get_8 b).1 cs next)
      | inr big ↦ rw (parse_loop-stop rounds result b c cs h (ltb→le _ _ big), big) (refl, next)
    ]
