-- ===== src/Fix/Text.antt =====
-- fix_get_string of lib/proto/fix_message.c, with the memchr and strncpy that it calls. The value of the field is an
-- address in the memory that was parsed, and `buffer` one in another memory.
pub mod Copied
mod Tests
use libtrading.Base.{ℕ, zero, suc, ◌+◌, ◌-◌, ◌%◌, Option, none, some, ltb, ◌==◌, if◌then◌else◌}
use libtrading.Buffer.{write_at}
use libtrading.Itoa.{Memory}
use libtrading.Fix.Scan.{soh}

unfoldable pub memchr : Memory → ℕ → ℕ → ℕ → Option ℕ
memchr f p c zero = none
memchr f p c (suc n) = let more = memchr f (p + 1) c n in if f p % 256 == c then some p else more

-- A NUL is copied again and again behind the end of a shorter string.
unfoldable pub strncpy : Memory → ℕ → Memory → ℕ → ℕ → Memory
strncpy m d f p zero = m
strncpy m d f p (suc n) =
    let c = f p % 256 in strncpy (write_at m d c) (d + 1) f (if c == 0 then p else p + 1) n

abbrev pub copy_string : Memory → ℕ → Memory → ℕ → ℕ → Option ℕ → Option Memory
copy_string m buffer f start len none = none
copy_string m buffer f start len (some end) =
    let count = end - start in
    if ltb len count
    then none
    else some (write_at (strncpy m buffer f start count) (buffer + count) 0)

-- The memory behind it, or none where NULL is returned.
unfoldable pub fix_get_string : Memory → ℕ → Memory → ℕ → ℕ → Option Memory
unfolding memchr strncpy
fix_get_string f start m buffer len = copy_string m buffer f start len (memchr f start soh len)
