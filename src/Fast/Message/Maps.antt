-- ===== src/Fast/Message/Maps.antt =====
-- The bits of a presence map that fast_message_encode has sent and parse_pmap has read.
use libtrading.Base.{
  ℕ, zero, suc, ◌+◌, ◌-◌, ◌/◌, ◌%◌, ◌^◌, ◌≤◌, ◌<◌, ◌≡◌, refl, sym, ap, ◌∙◌, ◌⊎◌, true, false, List,
  [], ◌∷◌, length, take, get_or, replicate, All, arith, inl, inr, Bool-cases, ltb, ltb→lt, ltb→le,
  ◌==◌, ==_iff, ==→ne, all_below, all_below→, bit_and,
}
use libtrading.Fast.Pmap.{Pmap, mask, pmap_is_set, pmap_set, IsPmap}
use libtrading.Fast.Pmap.Laws.{
  pmap_is_set-pmap_set, pmap_is_set-pmap_set_ne, pmap_set-IsPmap, pmap_bit-pmap_set,
}
use libtrading.Fast.Message.Encode.{trimmed, first_map}
use libtrading.Fast.Message.Wire.{sealed}
use libtrading.Fast.Message.Runs.{IsOpen}

pub trimmed-le : (k : ℕ) (cs : List ℕ) → trimmed k cs ≤ k
unfolding trimmed
trimmed-le zero cs = omega arith
trimmed-le (suc k) cs = ground (arith, trimmed-le k cs)

-- The bytes that are dropped are zero.
get_or-trimmed : (k : ℕ) (cs : List ℕ) (i : ℕ) → trimmed k cs ≤ i → i < k → get_or cs i 0 ≡ 0
unfolding trimmed
get_or-trimmed zero cs i h below = absurd (omega arith)
get_or-trimmed (suc k) cs i h below = elim (Bool-cases (get_or cs k 0 == 0)) [
  | inl dropped ↦ elim (Bool-cases (i == k)) [
    | inl last ↦ rw ((==_iff i k).0 last) ((==_iff _ _).0 dropped)
    | inr before ↦ get_or-trimmed k cs i (rw dropped at h) (omega (arith, ==→ne i k before))
  ]
  | inr kept ↦ absurd (let h' : suc k ≤ i = rw kept at h in omega arith)
]

get_or-take : (n : ℕ) (cs : List ℕ) (i : ℕ) → i < n → get_or (take n cs) i 0 ≡ get_or cs i 0
get_or-take zero cs i h = absurd (omega arith)
get_or-take (suc n) [] i h = refl
get_or-take (suc n) (c ∷ cs) zero h = refl
get_or-take (suc n) (c ∷ cs) (suc i) h = get_or-take n cs i (omega arith)

get_or-sealed :
    (n : ℕ) (cs : List ℕ) (i : ℕ)
    → i < n
    → n ≤ length cs
    → (get_or (sealed n cs) i 0 ≡ get_or cs i 0 % 128)
      ⊎ (get_or (sealed n cs) i 0 ≡ get_or cs i 0 % 128 + 128)
get_or-sealed zero cs i h long = absurd (omega arith)
get_or-sealed (suc n) [] i h long = absurd (omega arith)
get_or-sealed (suc zero) (c ∷ cs) zero h long = inr refl
get_or-sealed (suc zero) (c ∷ cs) (suc i) h long = absurd (omega arith)
get_or-sealed (suc (suc n)) (c ∷ cs) zero h long = inl refl
get_or-sealed (suc (suc n)) (c ∷ cs) (suc i) h long =
    get_or-sealed (suc n) cs i (omega arith) (omega arith)

-- The stop bit is no bit of the map.
low_bits_table :
    all_below 7 (λ k. all_below 256 (λ x. bit_and (x % 128) (2 ^ k) == bit_and x (2 ^ k))) ≡ true
unfolding all_below
low_bits_table = refl

stop_bit_table :
    all_below 7 (λ k. all_below 256 (λ x. bit_and (x % 128 + 128) (2 ^ k) == bit_and x (2 ^ k)))
    ≡ true
unfolding all_below
stop_bit_table = refl

sealed_bit :
    (x y k : ℕ)
    → x < 256
    → k < 7
    → (y ≡ x % 128) ⊎ (y ≡ x % 128 + 128)
    → bit_and y (2 ^ k) ≡ bit_and x (2 ^ k)
sealed_bit x y k h small (inl e) =
    rw e ((==_iff _ _).0 (all_below→ 256 _ (all_below→ 7 _ low_bits_table k small) x h))
sealed_bit x y k h small (inr e) =
    rw e ((==_iff _ _).0 (all_below→ 256 _ (all_below→ 7 _ stop_bit_table k small) x h))

bit_and-zero : (k : ℕ) → k < 7 → bit_and 0 (2 ^ k) ≡ 0
unfolding all_below
bit_and-zero k h = (==_iff _ _).0 (all_below→ 7 (λ j. bit_and 0 (2 ^ j) == 0) refl k h)

get_or-byte : (cs : List ℕ) (i : ℕ) → All (λ c. c < 256) cs → get_or cs i 0 < 256
get_or-byte [] i h = omega arith
get_or-byte (c ∷ cs) zero h = h.0
get_or-byte (c ∷ cs) (suc i) h = get_or-byte cs i h.1

zero_bit : (cs : List ℕ) (i k : ℕ) → get_or cs i 0 ≡ 0 → k < 7 → bit_and (get_or cs i 0) (2 ^ k) ≡ 0
zero_bit cs i k e h = rw e (bit_and-zero k h)

module _ (p q : Pmap) (j : ℕ) (h : IsPmap p) (eight : p.nr_bytes ≡ 8)
    (size : q.nr_bytes ≡ trimmed 8 p.bytes)
    (used : take q.nr_bytes q.bytes ≡ sealed (trimmed 8 p.bytes) p.bytes) where
  sealed_at :
      j / 7 < q.nr_bytes
      → bit_and (get_or q.bytes (j / 7) 0) (mask j) ≡ bit_and (get_or p.bytes (j / 7) 0) (mask j)
  sealed_at inside =
      let same : get_or q.bytes (j / 7) 0 ≡ get_or (sealed (trimmed 8 p.bytes) p.bytes) (j / 7) 0 =
        sym (get_or-take q.nr_bytes q.bytes (j / 7) inside)
        ∙ ap (λ (cs : List ℕ). get_or cs (j / 7) 0) used in
      rw same (
        sealed_bit (get_or p.bytes (j / 7) 0) _ (6 - j % 7) (get_or-byte p.bytes (j / 7) h.in_range)
          (omega arith)
          (get_or-sealed (trimmed 8 p.bytes) p.bytes (j / 7) (omega (arith, size, inside))
            (omega (arith, trimmed-le 8 p.bytes, h.within, eight))))

  dropped_at :
      trimmed 8 p.bytes ≤ j / 7 → j / 7 < 8 → bit_and (get_or p.bytes (j / 7) 0) (mask j) ≡ 0
  dropped_at behind below =
      zero_bit p.bytes (j / 7) (6 - j % 7) (get_or-trimmed 8 p.bytes (j / 7) behind below)
        (omega arith)

  -- A map whose bytes in use are the sealed ones of `p` tests every bit as `p` does.
  pub pmap_is_set-sealed : pmap_is_set q j ≡ pmap_is_set p j
  unfolding pmap_is_set
  pmap_is_set-sealed = elim (Bool-cases (ltb (j / 7) q.nr_bytes)) [
    | inl inside ↦ ground (arith, eight, size, trimmed-le 8 p.bytes, sealed_at (ltb→lt _ _ inside))
    | inr outside ↦ elim (Bool-cases (ltb (j / 7) 8)) [
      | inl below ↦ ground (
        arith,
        eight,
        size,
        dropped_at (omega (arith, size, ltb→le _ _ outside)) (ltb→lt _ _ below),
      )
      | inr above ↦ ground (arith, eight, size, trimmed-le 8 p.bytes)
    ]
  ]

-- A map with a set bit in its first byte has a byte to send.
pub trimmed-pos : (p : Pmap) → p.nr_bytes ≡ 8 → pmap_is_set p 0 ≡ true → 0 < trimmed 8 p.bytes
unfolding pmap_is_set
trimmed-pos p eight h = elim (Bool-cases (trimmed 8 p.bytes == 0)) [
  | inl none ↦ ground (
    arith,
    zero_bit p.bytes 0 6
        (get_or-trimmed 8 p.bytes 0 (omega (arith, (==_iff _ _).0 none)) (omega arith))
        (omega arith),
  )
  | inr some ↦ omega (arith, ==→ne _ _ some)
]

-- The map in front of the first field: the bit of the template id, and no other.
abbrev blank : Pmap
blank = record { is_valid = false; pmap_bit = 0; nr_bytes = 8; bytes = replicate 8 0 }

blank-IsPmap : IsPmap blank
blank-IsPmap = record { within = omega arith; in_range = omega arith }

get_or-replicate : (n i : ℕ) → get_or (replicate n 0) i 0 ≡ zero
get_or-replicate zero i = refl
get_or-replicate (suc n) zero = refl
get_or-replicate (suc n) (suc i) = get_or-replicate n i

blank-clear : (j : ℕ) → pmap_is_set blank j ≡ false
unfolding pmap_is_set
blank-clear j =
    ground (
      arith,
      zero_bit (replicate 8 0) (j / 7) (6 - j % 7) (get_or-replicate 8 (j / 7)) (omega arith),
    )

nr_bytes-first_map : first_map.nr_bytes ≡ 8
unfolding first_map pmap_set
nr_bytes-first_map = refl

pub pmap_bit-first_map : first_map.pmap_bit ≡ 0
unfolding first_map
pmap_bit-first_map = pmap_bit-pmap_set blank 0

pub first_map-IsOpen : (n : ℕ) → n < 56 → IsOpen first_map n
unfolding first_map
first_map-IsOpen n few = record {
  well_formed = pmap_set-IsPmap blank 0 blank-IsPmap;
  eight = nr_bytes-first_map;
  short = omega (arith, pmap_bit-first_map);
  clear = λ j after.
      pmap_is_set-pmap_set_ne blank 0 j blank-IsPmap (λ e. omega (arith, e, after)) ∙ blank-clear j;
}

pub pmap_is_set-first_map : pmap_is_set first_map 0 ≡ true
unfolding first_map
pmap_is_set-first_map = pmap_is_set-pmap_set blank 0 blank-IsPmap (omega arith)
