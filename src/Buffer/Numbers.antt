-- ===== src/Buffer/Numbers.antt =====
-- The numbers of several bytes in include/libtrading/buffer.h.
use libtrading.Base.{
  ℕ, zero, suc, ◌+◌, ◌*◌, ◌^◌, ◌<◌, bit_or, ◌≡◌, ap, ◌∙◌, List, [], ◌∷◌, ◌++◌, length, arith,
  bit_or-shifted, bit_or_comm,
}
use native.Mathlib.Nat.{pow-suc}
use mathlib.Core.Path.{subst}
use libtrading.Buffer.{
  Buffer, buffer_get_8, gather, buffer_get_le16, buffer_get_le32, buffer_get_le64,
}
use libtrading.Buffer.Contents.{Holds, buffer_get_8-Holds}

-- The value of bytes, the lowest first.
abbrev pub little : List ℕ → ℕ
little [] = 0
little (c ∷ cs) = c + 256 * little cs

-- The shifts from `k` on.
abbrev up : ℕ → ℕ → List ℕ
up k zero = []
up k (suc n) = k ∷ up (suc (suc (suc (suc (suc (suc (suc (suc k)))))))) n

byte_small : {b : Buffer} (c : ℕ) (cs : List ℕ) → Holds b (c ∷ cs) → c < 256
byte_small {b} c cs h = omega (arith, (buffer_get_8-Holds c cs h).0, small)
  where
    small : (buffer_get_8 b).0 < 256
    small = unfold buffer_get_8 in omega arith

pow_byte : (k : ℕ) → 2 ^ suc (suc (suc (suc (suc (suc (suc (suc k))))))) ≡ 2 ^ k * 256
pow_byte k = omega (
  arith,
  pow-suc 2 k,
  pow-suc 2 (suc k),
  pow-suc 2 (suc (suc k)),
  pow-suc 2 (suc (suc (suc k))),
  pow-suc 2 (suc (suc (suc (suc k)))),
  pow-suc 2 (suc (suc (suc (suc (suc k))))),
  pow-suc 2 (suc (suc (suc (suc (suc (suc k)))))),
  pow-suc 2 (suc (suc (suc (suc (suc (suc (suc k))))))),
)

byte_fits : (p d x : ℕ) → d < 256 → x < p → d * p + x < p * 256
byte_fits p d x byte small = grind arith

step : (p d x l : ℕ) → d * p + x + p * 256 * l ≡ x + p * (d + 256 * l)
step p d x l = grind arith

gather-little :
    (k x : ℕ) (ds cs : List ℕ) (b : Buffer)
    → Holds b (ds ++ cs)
    → x < 2 ^ k
    → ((gather (up k (length ds)) x b).0 ≡ x + 2 ^ k * little ds)
      × Holds (gather (up k (length ds)) x b).1 cs
unfolding gather
gather-little k x [] cs b h small = (omega arith, h)
gather-little k x (d ∷ ds) cs b h small =
    let (byte, next) = buffer_get_8-Holds d (ds ++ cs) h in
    let added : bit_or x ((buffer_get_8 b).0 * 2 ^ k) ≡ d * 2 ^ k + x =
      ap (λ (t : ℕ). bit_or x (t * 2 ^ k)) byte
      ∙ bit_or_comm x (d * 2 ^ k)
      ∙ bit_or-shifted k d x small in
    let (value, rest) =
      gather-little _ (bit_or x ((buffer_get_8 b).0 * 2 ^ k)) ds cs (buffer_get_8 b).1 next (
        omega
          (arith, added, pow_byte k, byte_fits (2 ^ k) d x (byte_small d (ds ++ cs) h) small)) in
    (
      value
          ∙ ap (λ (t : ℕ). t + 2 ^ suc (suc (suc (suc (suc (suc (suc (suc k))))))) * little ds)
              added
          ∙ ap (λ (t : ℕ). d * 2 ^ k + x + t * little ds) (pow_byte k)
          ∙ step (2 ^ k) d x (little ds),
      rest,
    )

-- A number that is read from the bytes `ds` in front of `cs`.
abbrev pub IsRead : List ℕ → List ℕ → ℕ × Buffer → Type 0
IsRead ds cs r = (r.0 ≡ little ds) × Holds r.1 cs

gather-IsRead :
    (n : ℕ) (ds cs : List ℕ) (b : Buffer)
    → length ds ≡ n
    → Holds b (ds ++ cs)
    → IsRead ds cs (gather (up 0 n) 0 b)
gather-IsRead n ds cs b e h =
    let (value, rest) = gather-little 0 0 ds cs b h (omega arith) in
    subst (λ (k : ℕ). IsRead ds cs (gather (up 0 k) 0 b)) e (value ∙ omega arith, rest)

pub buffer_get_le16-IsRead :
    (ds cs : List ℕ) (b : Buffer)
    → length ds ≡ 2
    → Holds b (ds ++ cs)
    → IsRead ds cs (buffer_get_le16 b)
unfolding buffer_get_le16
buffer_get_le16-IsRead ds cs b e h = gather-IsRead 2 ds cs b e h

pub buffer_get_le32-IsRead :
    (ds cs : List ℕ) (b : Buffer)
    → length ds ≡ 4
    → Holds b (ds ++ cs)
    → IsRead ds cs (buffer_get_le32 b)
unfolding buffer_get_le32
buffer_get_le32-IsRead ds cs b e h = gather-IsRead 4 ds cs b e h

-- buffer_get_le64 takes the next eight unread bytes for a number, the lowest byte first, and leaves the bytes
-- behind them.
pub buffer_get_le64-IsRead :
    (ds cs : List ℕ) (b : Buffer)
    → length ds ≡ 8
    → Holds b (ds ++ cs)
    → IsRead ds cs (buffer_get_le64 b)
unfolding buffer_get_le64
buffer_get_le64-IsRead ds cs b e h = gather-IsRead 8 ds cs b e h
