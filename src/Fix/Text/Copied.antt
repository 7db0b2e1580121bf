-- ===== src/Fix/Text/Copied.antt =====
-- fix_get_string on a value and the SOH behind it.
use libtrading.Base.{
  ℕ, zero, suc, ◌+◌, ◌-◌, ◌%◌, ◌≤◌, ◌<◌, ◌≡◌, ◌≢◌, refl, ap, ◌∙◌, List, [], ◌∷◌, ◌++◌, length, All,
  arith, Option, none, some, Bool, false, ltb, ltb→lt, ltb→le, ◌==◌, ==_iff, ne→==, if◌then◌else◌,
  Bool-cases, inl, inr,
}
use libtrading.Buffer.{write_at}
use libtrading.Itoa.{Memory, print}
use libtrading.Itoa.Signed.{Leaves, print-Leaves}
use libtrading.Fix.Scan.{soh}
use libtrading.Fix.Scan.Memory.{At}
use libtrading.Fix.Scan.Fields.{IsValue}
use libtrading.Fix.Text.{memchr, strncpy, fix_get_string}

memchr-found :
    (f : Memory) (p n : ℕ) (cs : List ℕ)
    → At f p (cs ++ (soh ∷ []))
    → IsValue cs
    → length cs < n
    → memchr f p soh n ≡ some (p + length cs)
unfolding memchr
memchr-found f p zero cs h v short = absurd (omega arith)
memchr-found f p (suc n) [] h v short = let e : p + 0 ≡ p = omega arith in rw (h.0, e) refl
memchr-found f p (suc n) (c ∷ cs) h v short =
    let next : p + 1 ≡ suc p = omega arith in
    let e : p + suc (length cs) ≡ suc p + length cs = omega arith in
    rw (h.0, ne→== c soh v.0, next, e) (memchr-found f (suc p) n cs h.1 v.1 (omega arith))

memchr-none :
    (f : Memory) (p n : ℕ) (cs : List ℕ)
    → At f p (cs ++ (soh ∷ []))
    → IsValue cs
    → n ≤ length cs
    → memchr f p soh n ≡ none
unfolding memchr
memchr-none f p zero cs h v long = refl
memchr-none f p (suc n) [] h v long = absurd (omega arith)
memchr-none f p (suc n) (c ∷ cs) h v long =
    let next : p + 1 ≡ suc p = omega arith in
    rw (h.0, ne→== c soh v.0, next) (memchr-none f (suc p) n cs h.1 v.1 (omega arith))

strncpy_step :
    (f m : Memory) (p d c n : ℕ)
    → f p % 256 ≡ c
    → c ≢ 0
    → strncpy m d f p (suc n) ≡ strncpy (write_at m d c) (d + 1) f (suc p) n
unfolding strncpy
strncpy_step f m p d c n e ne =
    ap (λ (x : ℕ). strncpy (write_at m d x) (d + 1) f (if x == 0 then p else p + 1) n) e
    ∙ ap (λ (q : Bool). strncpy (write_at m d c) (d + 1) f (if q then p else p + 1) n)
        (ne→== c 0 ne)
    ∙ ap (λ (q : ℕ). strncpy (write_at m d c) (d + 1) f q n) (omega arith)

-- A copy of a string and the NUL behind it are what print leaves.
strncpy-print :
    (f m : Memory) (p d c : ℕ) (cs : List ℕ)
    → At f p (cs ++ (c ∷ []))
    → All (λ x. x ≢ 0) cs
    → write_at (strncpy m d f p (length cs)) (d + length cs) 0 ≡ (print cs m d).1
unfolding print
strncpy-print f m p d c [] h v = let e : d + 0 ≡ d = omega arith in unfold strncpy in rw e refl
strncpy-print f m p d c (x ∷ cs) h v =
    let e : d + suc (length cs) ≡ d + 1 + length cs = omega arith in
    rw (strncpy_step f m p d x (length cs) h.0 v.0, e)
      (strncpy-print f (write_at m d x) (suc p) (d + 1) c cs h.1 v.1)

-- A copy of `cs` with a NUL behind it, or NULL where there is no room for both.
abbrev pub Copies : Memory → ℕ → ℕ → List ℕ → Option Memory → Type 0
Copies m d len cs (some m') =
    (length cs < len) × Leaves m d cs (length cs, m') × (m' (d + length cs) ≡ 0)
Copies m d len cs none = len ≤ length cs

-- For the value of a field without NUL, fix_get_string returns NULL just where the buffer has no room for it
-- and a NUL. Else it leaves a copy of the value there with a NUL behind it, and nothing changes in front of
-- the buffer.
pub fix_get_string-Copies :
    (f m : Memory) (p d len : ℕ) (cs : List ℕ)
    → At f p (cs ++ (soh ∷ []))
    → IsValue cs
    → All (λ c. c ≢ 0) cs
    → All (λ c. c < 256) cs
    → Copies m d len cs (fix_get_string f p m d len)
unfolding fix_get_string
fix_get_string-Copies f m p d len cs h v text chars = elim (Bool-cases (ltb (length cs) len)) [
  | inl short ↦
      let room = ltb→lt (length cs) len short in
      let size : p + length cs - p ≡ length cs = omega arith in
      let fits : ltb len (length cs) ≡ false = ground (arith, room) in
      let l = print-Leaves cs m d chars in
      rw (memchr-found f p len cs h v room, size, fits, strncpy-print f m p d soh cs h text)
        (
          room,
          record { count = refl; text = l.text; below = l.below },
          rw ((==_iff (d + length cs) (d + length cs)).1 refl) refl,
        )
  | inr long ↦ let full = ltb→le (length cs) len long in rw (memchr-none f p len cs h v full) full
]
