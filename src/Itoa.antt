-- ===== src/Itoa.antt =====
-- lib/itoa.c: numbers printed to memory. A `char *` is an offset into a memory, and a function that prints
-- returns the count of its characters and the memory behind it. An `unsigned int` is a number below
-- 2 ^ 32, an `int` its pattern there, and an `int64_t` a 64-bit pattern.
pub mod Digits
pub mod Print
pub mod Signed
pub mod Tests
use libtrading.Base.{
  ℕ, zero, suc, ◌+◌, ◌-◌, ◌*◌, ◌/◌, ◌%◌, ◌^◌, Bool, List, [], ◌∷◌, get_or, ltb, leb, ◌==◌,
  if◌then◌else◌,
}
use libtrading.Buffer.{write_at}

abbrev pub Memory : Type 0
Memory = ℕ → ℕ

abbrev pub itoa_tab : List ℕ
itoa_tab =
    b'0' ∷ b'0' ∷ b'0' ∷ b'1' ∷ b'0' ∷ b'2' ∷ b'0' ∷ b'3' ∷ b'0' ∷ b'4' ∷ b'0' ∷ b'5' ∷ b'0' ∷ b'6'
    ∷ b'0' ∷ b'7' ∷ b'0' ∷ b'8' ∷ b'0' ∷ b'9' ∷ b'1' ∷ b'0' ∷ b'1' ∷ b'1' ∷ b'1' ∷ b'2' ∷ b'1'
    ∷ b'3' ∷ b'1' ∷ b'4' ∷ b'1' ∷ b'5' ∷ b'1' ∷ b'6' ∷ b'1' ∷ b'7' ∷ b'1' ∷ b'8' ∷ b'1' ∷ b'9'
    ∷ b'2' ∷ b'0' ∷ b'2' ∷ b'1' ∷ b'2' ∷ b'2' ∷ b'2' ∷ b'3' ∷ b'2' ∷ b'4' ∷ b'2' ∷ b'5' ∷ b'2'
    ∷ b'6' ∷ b'2' ∷ b'7' ∷ b'2' ∷ b'8' ∷ b'2' ∷ b'9' ∷ b'3' ∷ b'0' ∷ b'3' ∷ b'1' ∷ b'3' ∷ b'2'
    ∷ b'3' ∷ b'3' ∷ b'3' ∷ b'4' ∷ b'3' ∷ b'5' ∷ b'3' ∷ b'6' ∷ b'3' ∷ b'7' ∷ b'3' ∷ b'8' ∷ b'3'
    ∷ b'9' ∷ b'4' ∷ b'0' ∷ b'4' ∷ b'1' ∷ b'4' ∷ b'2' ∷ b'4' ∷ b'3' ∷ b'4' ∷ b'4' ∷ b'4' ∷ b'5'
    ∷ b'4' ∷ b'6' ∷ b'4' ∷ b'7' ∷ b'4' ∷ b'8' ∷ b'4' ∷ b'9' ∷ b'5' ∷ b'0' ∷ b'5' ∷ b'1' ∷ b'5'
    ∷ b'2' ∷ b'5' ∷ b'3' ∷ b'5' ∷ b'4' ∷ b'5' ∷ b'5' ∷ b'5' ∷ b'6' ∷ b'5' ∷ b'7' ∷ b'5' ∷ b'8'
    ∷ b'5' ∷ b'9' ∷ b'6' ∷ b'0' ∷ b'6' ∷ b'1' ∷ b'6' ∷ b'2' ∷ b'6' ∷ b'3' ∷ b'6' ∷ b'4' ∷ b'6'
    ∷ b'5' ∷ b'6' ∷ b'6' ∷ b'6' ∷ b'7' ∷ b'6' ∷ b'8' ∷ b'6' ∷ b'9' ∷ b'7' ∷ b'0' ∷ b'7' ∷ b'1'
    ∷ b'7' ∷ b'2' ∷ b'7' ∷ b'3' ∷ b'7' ∷ b'4' ∷ b'7' ∷ b'5' ∷ b'7' ∷ b'6' ∷ b'7' ∷ b'7' ∷ b'7'
    ∷ b'8' ∷ b'7' ∷ b'9' ∷ b'8' ∷ b'0' ∷ b'8' ∷ b'1' ∷ b'8' ∷ b'2' ∷ b'8' ∷ b'3' ∷ b'8' ∷ b'4'
    ∷ b'8' ∷ b'5' ∷ b'8' ∷ b'6' ∷ b'8' ∷ b'7' ∷ b'8' ∷ b'8' ∷ b'8' ∷ b'9' ∷ b'9' ∷ b'0' ∷ b'9'
    ∷ b'1' ∷ b'9' ∷ b'2' ∷ b'9' ∷ b'3' ∷ b'9' ∷ b'4' ∷ b'9' ∷ b'5' ∷ b'9' ∷ b'6' ∷ b'9' ∷ b'7'
    ∷ b'9' ∷ b'8' ∷ b'9' ∷ b'9' ∷ []

abbrev pub tab : ℕ → ℕ
tab i = get_or itoa_tab i 0

unfoldable pub uilog_10 : ℕ → ℕ
uilog_10 n =
    if ltb n 10
    then 1
    else if ltb n 100
    then 2
    else if ltb n 1000
    then 3
    else if ltb n 10000
    then 4
    else if ltb n 100000
    then 5
    else if ltb n 1000000
    then 6
    else if ltb n 10000000
    then 7
    else if ltb n 100000000
    then 8
    else if ltb n 1000000000
    then 9
    else 10

-- Behind the loop: the one or two digits that are left, written down from `p - 1`.
abbrev pub last_digits : ℕ → ℕ → Memory → Memory
last_digits n p m =
    let src = (n + 1) * 2 - 1 in
    if ltb n 10
    then write_at m (p - 1) (tab src)
    else write_at (write_at m (p - 1) (tab src)) (p - 2) (tab (src - 1))

-- `while (n >= ITOA_TAB_SIZE)`, over the rounds that are left, and what follows it.
pub general_loop : ℕ → ℕ → ℕ → Memory → Memory
general_loop zero n p m = last_digits n p m
general_loop (suc rounds) n p m =
    let src = 2 * (n % 100) in
    let m' = write_at (write_at m (p - 2) (tab src)) (p - 1) (tab (src + 1)) in
    let more = general_loop rounds (n / 100) (p - 2) m' in
    if ltb n 100 then last_digits n p m else more

-- Four rounds are enough for an unsigned int, which has at most ten digits.
unfoldable pub uitoa_general : ℕ → Memory → ℕ → ℕ × Memory
unfolding general_loop
uitoa_general n m s = (uilog_10 n, general_loop 4 n (s + uilog_10 n) m)

unfoldable pub uitoa : ℕ → Memory → ℕ → ℕ × Memory
uitoa n m s =
    let src = 2 * n in
    if ltb n 10
    then (1, write_at m s (tab (src + 1)))
    else if ltb n 100
    then (2, write_at (write_at m s (tab src)) (s + 1) (tab (src + 1)))
    else uitoa_general n m s

-- `n < 0` of an int
abbrev pub is_negative_int : ℕ → Bool
is_negative_int n = leb (2 ^ 31) n

unfoldable pub itoa : ℕ → Memory → ℕ → ℕ × Memory
itoa n m s =
    if is_negative_int n
    then (let (count, m') = uitoa (2 ^ 32 - n) (write_at m s b'-') (s + 1) in (count + 1, m'))
    else uitoa n m s

-- What `sprintf` leaves: its characters and a NUL, that it does not count.
unfoldable pub print : List ℕ → Memory → ℕ → ℕ × Memory
print [] m s = (0, write_at m s 0)
print (c ∷ cs) m s = let (count, m') = print cs (write_at m s c) (s + 1) in (suc count, m')

-- The characters of `"%" PRId64` are a parameter.
unfoldable pub i64toa : (ℕ → List ℕ) → ℕ → Memory → ℕ → ℕ × Memory
unfolding print
i64toa sprintf n m s =
    if ltb n (2 ^ 31)
    then itoa n m s
    else if leb (2 ^ 64 - 2 ^ 31) n
    then itoa (n % 2 ^ 32) m s
    else print (sprintf n) m s

unfoldable pub checksumtoa : ℕ → Memory → ℕ → ℕ × Memory
checksumtoa n m s =
    let src = 2 * n in
    if ltb n 100
    then (3, write_at (write_at (write_at m s b'0') (s + 1) (tab src)) (s + 2) (tab (src + 1)))
    else uitoa_general n m s
