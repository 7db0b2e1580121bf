-- ===== src/Buffer/Contents.antt =====
-- The bytes that a buffer holds, and how reading and writing move them.
use libtrading.Base.{
  ℕ, zero, suc, ◌+◌, ◌-◌, ◌%◌, ◌^◌, ◌≤◌, ◌<◌, ◌≡◌, refl, ap, ◌∙◌, List, [], ◌∷◌, ◌++◌, length,
  arith, ne→==,
}
use libtrading.Buffer.{
  Buffer, IsValid, write_at, buffer_get_8, buffer_put, buffer_size, buffer_remaining, buffer_peek_8,
}

-- `n` bytes of memory from offset `at'` on.
abbrev pub window : (ℕ → ℕ) → ℕ → ℕ → List ℕ
window f at' zero = []
window f at' (suc n) = f at' % 256 ∷ window f (suc at') n

abbrev pub contents : Buffer → List ℕ
contents b = window b.bytes b.start (b.end - b.start)

-- A valid buffer with these unread bytes.
pub record Holds (b : Buffer) (cs : List ℕ) : Type 0 where
  pub valid : IsValid b
  pub reads : contents b ≡ cs

pub length-window : (f : ℕ → ℕ) (at' n : ℕ) → length (window f at' n) ≡ n
length-window f at' zero = refl
length-window f at' (suc n) = ap suc (length-window f (suc at') n)

pub buffer_size-length : {b : Buffer} (cs : List ℕ) → Holds b cs → buffer_size b ≡ length cs
unfolding buffer_size
buffer_size-length {b} cs h = omega (
  arith,
  ap length h.reads,
  length-window b.bytes b.start (b.end - b.start),
  h.valid.ordered,
  h.valid.bounded,
  h.valid.addressable,
)

uncons :
    (f : ℕ → ℕ) (at' n c : ℕ) (cs : List ℕ)
    → window f at' n ≡ c ∷ cs
    → (f at' % 256 ≡ c) × (window f (suc at') (n - 1) ≡ cs) × (0 < n)
uncons f at' zero c cs e = cc
uncons f at' (suc n) c cs e = (cc, rw less (cc), omega arith)
  where
    less : suc n - 1 ≡ n
    less = omega arith

-- A byte read is the first of the contents, and the others stay.
pub buffer_get_8-Holds :
    {b : Buffer} (c : ℕ) (cs : List ℕ)
    → Holds b (c ∷ cs)
    → ((buffer_get_8 b).0 ≡ c) × Holds (buffer_get_8 b).1 cs
unfolding buffer_get_8
buffer_get_8-Holds {b} c cs h = (byte, record { valid = moved; reads = rw (wraps, shorter) rest })
  where
    v : IsValid b
    v = h.valid

    byte : b.bytes b.start % 256 ≡ c
    byte = (uncons b.bytes b.start (b.end - b.start) c cs h.reads).0

    rest : window b.bytes (suc b.start) (b.end - b.start - 1) ≡ cs
    rest = (uncons b.bytes b.start (b.end - b.start) c cs h.reads).1

    inside : 0 < b.end - b.start
    inside = (uncons b.bytes b.start (b.end - b.start) c cs h.reads).2

    wraps : (b.start + 1) % 2 ^ 64 ≡ suc b.start
    wraps = omega (arith, inside, v.bounded, v.addressable)

    shorter : b.end - suc b.start ≡ b.end - b.start - 1
    shorter = omega arith

    moved : IsValid (buffer_get_8 b).1
    moved = record {
      ordered = omega (arith, wraps, inside, v.ordered);
      bounded = v.bounded;
      addressable = v.addressable;
    }

pub buffer_peek_8-Holds :
    {b : Buffer} (c : ℕ) (cs : List ℕ) → Holds b (c ∷ cs) → buffer_peek_8 b ≡ c
unfolding buffer_peek_8
buffer_peek_8-Holds {b} c cs h = (uncons b.bytes b.start (b.end - b.start) c cs h.reads).0

pub window-write_at :
    (f : ℕ → ℕ) (i v at' n : ℕ) → at' + n ≤ i → window (write_at f i v) at' n ≡ window f at' n
window-write_at f i v at' zero h = refl
window-write_at f i v at' (suc n) h =
    rw (ne→== i at' (omega arith), window-write_at f i v (suc at') n (omega arith))

pub window-snoc :
    (f : ℕ → ℕ) (at' n : ℕ) → window f at' (suc n) ≡ window f at' n ++ (f (at' + n) % 256 ∷ [])
window-snoc f at' zero = ap (λ i. f i % 256 ∷ []) (omega arith)
window-snoc f at' (suc n) =
    ap (◌∷◌ (f at' % 256))
      (window-snoc f (suc at') n ∙ ap (λ i. window f (suc at') n ++ (f i % 256 ∷ [])) (omega arith))

pub window-add :
    (f : ℕ → ℕ) (at' m n : ℕ) → window f at' (m + n) ≡ window f at' m ++ window f (at' + m) n
window-add f at' zero n =
    let e : 0 + n ≡ n = omega arith in rw e (ap (λ (i : ℕ). window f i n) (omega arith))
window-add f at' (suc m) n =
    let e : suc m + n ≡ suc (m + n) = omega arith in
    rw e (
      ap (◌∷◌ (f at' % 256)) (
        window-add f (suc at') m n
        ∙ ap (λ (i : ℕ). window f (suc at') m ++ window f i n) (omega arith)))

-- Memories that agree on a range have the same window there.
pub window_cong :
    (f g : ℕ → ℕ) (at' n : ℕ)
    → ((i : ℕ) → at' ≤ i → i < at' + n → f i ≡ g i)
    → window f at' n ≡ window g at' n
window_cong f g at' zero e = refl
window_cong f g at' (suc n) e = rw (e at' (omega arith) (omega arith)) (
    ap (◌∷◌ (g at' % 256)) (window_cong f g (suc at') n (λ i p q. e i (omega arith) (omega arith))))

-- A byte put is appended, when there is room for it.
pub buffer_put-Holds :
    {b : Buffer} (cs : List ℕ) (c : ℕ)
    → Holds b cs
    → c < 256
    → 0 < buffer_remaining b
    → Holds (buffer_put b c) (cs ++ (c ∷ []))
      × (buffer_remaining (buffer_put b c) ≡ buffer_remaining b - 1)
unfolding buffer_put buffer_remaining
buffer_put-Holds {b} cs c h byte room =
    (record { valid = kept; reads = grown }, omega (arith, wraps, roomy))
  where
    v : IsValid b
    v = h.valid

    roomy : b.end < b.capacity
    roomy = omega (arith, v.bounded, v.addressable)

    wraps : (b.end + 1) % 2 ^ 64 ≡ suc b.end
    wraps = omega (arith, roomy, v.addressable)

    longer : (b.end + 1) % 2 ^ 64 - b.start ≡ suc (b.end - b.start)
    longer = omega (arith, wraps, v.ordered)

    kept : IsValid (buffer_put b c)
    kept = record {
      ordered = omega (arith, wraps, v.ordered);
      bounded = omega (arith, wraps, roomy);
      addressable = v.addressable;
    }

    last : write_at b.bytes b.end (c % 256) (b.start + (b.end - b.start)) % 256 ≡ c
    last = ground (arith, v.ordered)

    grown : contents (buffer_put b c) ≡ cs ++ (c ∷ [])
    grown = rw longer (
        window-snoc (write_at b.bytes b.end (c % 256)) b.start (b.end - b.start)
        ∙ rw
            (
              window-write_at b.bytes b.end (c % 256) b.start (b.end - b.start)
                  (omega (arith, v.ordered)),
              h.reads,
              last,
            )
            refl)

-- What is read is a byte.
pub Holds-byte : {b : Buffer} (c : ℕ) (cs : List ℕ) → Holds b (c ∷ cs) → c < 256
Holds-byte {b} c cs h = omega (arith, (uncons b.bytes b.start (b.end - b.start) c cs h.reads).0)
