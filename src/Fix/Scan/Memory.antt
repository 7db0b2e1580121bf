-- ===== src/Fix/Scan/Memory.antt =====
-- Bytes at an address, and where buffer_find stops in front of known ones.
use libtrading.Base.{
  ℕ, zero, suc, ◌+◌, ◌-◌, ◌%◌, ◌^◌, ◌≤◌, ◌<◌, ◌≡◌, ◌≢◌, refl, sym, ap, List, [], ◌∷◌, ◌++◌, length,
  All, arith, some, length-append, ==_iff, ne→==,
}
use mathlib.Core.Path.{subst}
use libtrading.Buffer.{Buffer, buffer_find, find_loop, buffer_advance, buffer_size, buffer_get_8}
use libtrading.Buffer.Contents.{
  Holds, window, buffer_size-length, buffer_get_8-Holds, buffer_peek_8-Holds,
}

-- The bytes `cs` lie at `p`.
abbrev pub At : (ℕ → ℕ) → ℕ → List ℕ → Type 0
At f p [] = Unit {0}
At f p (c ∷ cs) = (f p % 256 ≡ c) × At f (suc p) cs

pub At-append :
    (f : ℕ → ℕ) (p : ℕ) (xs ys : List ℕ) → At f p (xs ++ ys) → At f p xs × At f (p + length xs) ys
At-append f p [] ys h = (tt, let e : p + 0 ≡ p = omega arith in rw e h)
At-append f p (x ∷ xs) ys (h, hs) =
    let (front, back) = At-append f (suc p) xs ys hs in
    let e : p + suc (length xs) ≡ suc p + length xs = omega arith in ((h, front), rw e back)

window-At : (f : ℕ → ℕ) (p n : ℕ) (cs : List ℕ) → window f p n ≡ cs → At f p cs
window-At f p zero [] e = tt
window-At f p zero (c ∷ cs) e = cc
window-At f p (suc n) [] e = cc
window-At f p (suc n) (c ∷ cs) e = (cc, window-At f (suc p) n cs (cc))

pub At-window : (f : ℕ → ℕ) (p : ℕ) (cs : List ℕ) → At f p cs → window f p (length cs) ≡ cs
At-window f p [] h = refl
At-window f p (c ∷ cs) (h, hs) =
    let e : window f (suc p) (length cs) ≡ cs = At-window f (suc p) cs hs in cc

pub Holds-At : {b : Buffer} (cs : List ℕ) → Holds b cs → At b.bytes b.start cs
Holds-At {b} cs h = window-At b.bytes b.start (b.end - b.start) cs h.reads

-- `n` bytes further on.
abbrev pub skip : Buffer → ℕ → Buffer
skip b n = record b { start = b.start + n }

pub start_small :
    {b : Buffer} (cs : List ℕ) → Holds b cs → (b.start + length cs ≡ b.end) × (b.end < 2 ^ 64)
start_small {b} cs h = (
  omega (arith, buffer_size-length cs h, size),
  omega (arith, h.valid.bounded, h.valid.addressable),
)
  where
    size : buffer_size b ≡ b.end - b.start
    size =
        unfold buffer_size in omega (arith, h.valid.ordered, h.valid.bounded, h.valid.addressable)

-- The unread bytes lie in the allocation.
pub Holds-capacity : {b : Buffer} (cs : List ℕ) → Holds b cs → b.start + length cs ≤ b.capacity
Holds-capacity {b} cs h = omega (arith, start_small cs h, h.valid.bounded)

pub buffer_get_8-skip :
    {b : Buffer} (c : ℕ) (cs : List ℕ) → Holds b (c ∷ cs) → (buffer_get_8 b).1 ≡ skip b 1
unfolding buffer_get_8
buffer_get_8-skip {b} c cs h =
    let small : (b.start + 1) % 2 ^ 64 ≡ b.start + 1 = omega (arith, start_small (c ∷ cs) h) in
    ap (λ (i : ℕ). record b { start = i }) small

pub skip-Holds : (b : Buffer) (xs ys : List ℕ) → Holds b (xs ++ ys) → Holds (skip b (length xs)) ys
skip-Holds b [] ys h =
    let e : b.start + 0 ≡ b.start = omega arith in
    subst (λ (i : ℕ). Holds (record b { start = i }) ys) (sym e) h
skip-Holds b (x ∷ xs) ys h =
    let next =
      subst (λ (r : Buffer). Holds r (xs ++ ys)) (buffer_get_8-skip x (xs ++ ys) h)
        (buffer_get_8-Holds x (xs ++ ys) h).1 in
    let e : b.start + 1 + length xs ≡ b.start + suc (length xs) = omega arith in
    subst (λ (i : ℕ). Holds (record b { start = i }) ys) e (skip-Holds (skip b 1) xs ys next)

pub buffer_advance-skip :
    (b : Buffer) (n : ℕ) (xs ys : List ℕ)
    → Holds b (xs ++ ys)
    → length xs ≡ n
    → buffer_advance b n ≡ skip b n
unfolding buffer_advance
buffer_advance-skip b n xs ys h e =
    let small : (b.start + n) % 2 ^ 64 ≡ b.start + n =
      omega (arith, start_small (xs ++ ys) h, length-append xs ys) in
    ap (λ (i : ℕ). record b { start = i }) small

find_loop-front :
    (n c : ℕ) (b : Buffer) (front rest : List ℕ)
    → Holds b (front ++ (c ∷ rest))
    → All (λ x. x ≢ c) front
    → length front < n
    → find_loop n b c ≡ (some (b.start + length front), skip b (length front))
unfolding find_loop
find_loop-front zero c b front rest h ne short = absurd (omega arith)
find_loop-front (suc n) c b [] rest h ne short =
    let e : b.start + 0 ≡ b.start = omega arith in
    rw (buffer_peek_8-Holds c rest h, (==_iff c c).1 refl, e) refl
find_loop-front (suc n) c b (x ∷ front) rest h ne short =
    let e : b.start + 1 + length front ≡ b.start + suc (length front) = omega arith in
    rw
      (
        buffer_peek_8-Holds x (front ++ (c ∷ rest)) h,
        ne→== x c ne.0,
        buffer_advance-skip b 1 (x ∷ []) (front ++ (c ∷ rest)) h refl,
        ← e,
      )
      (find_loop-front n c (skip b 1) front rest (skip-Holds b (x ∷ []) (front ++ (c ∷ rest)) h)
        ne.1 (omega arith))

-- buffer_find stops in front of the first such byte.
pub buffer_find-front :
    (c : ℕ) (b : Buffer) (front rest : List ℕ)
    → Holds b (front ++ (c ∷ rest))
    → All (λ x. x ≢ c) front
    → buffer_find b c ≡ (some (b.start + length front), skip b (length front))
unfolding buffer_find
buffer_find-front c b front rest h ne =
    find_loop-front (buffer_size b) c b front rest h ne
      (omega (arith, buffer_size-length (front ++ (c ∷ rest)) h, length-append front (c ∷ rest)))
