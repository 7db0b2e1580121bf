-- ===== src/Fast/Pmap/Laws.antt =====
-- pmap_set and pmap_is_set of include/libtrading/proto/fast_message.h.
use libtrading.Base.{
  ℕ, zero, suc, ◌-◌, ◌/◌, ◌%◌, ◌^◌, ◌<◌, bit_and, bit_or, ◌≡◌, refl, ◌≢◌, Bool, true, false, not,
  ◌||◌, List, [], ◌∷◌, get_or, set, All, ltb, leb, ◌==◌, arith, all_below, all_below→,
  get_or-set_self, get_or-set_ne, length-set, ==_iff, Bool-cases, inl, inr, ltb→lt, ne→==, ==→ne,
}
use libtrading.Fast.Pmap.{Pmap, mask, pmap_is_set, pmap_set, IsPmap}

get_or-lt : (xs : List ℕ) (i n : ℕ) → 0 < n → All (λ c. c < n) xs → get_or xs i 0 < n
get_or-lt [] i n p h = p
get_or-lt (x ∷ xs) zero n p h = h.0
get_or-lt (x ∷ xs) (suc i) n p h = get_or-lt xs i n p h.1

All-set : (xs : List ℕ) (i v n : ℕ) → v < n → All (λ c. c < n) xs → All (λ c. c < n) (set xs i v)
All-set [] i v n p h = h
All-set (x ∷ xs) zero v n p h = (p, h.1)
All-set (x ∷ xs) (suc i) v n p h = (h.0, All-set xs i v n p h.1)

-- The bits of a byte, checked at each of its values.
set_self_table :
    all_below 7 (λ j. all_below 256 (λ x. not (bit_and (bit_or x (2 ^ j)) (2 ^ j) == 0))) ≡ true
unfolding all_below
set_self_table = refl

set_other_table :
    all_below 7 (λ j.
      all_below 7 (λ k.
        j == k || all_below 256 (λ x. bit_and (bit_or x (2 ^ j)) (2 ^ k) == bit_and x (2 ^ k))))
    ≡ true
unfolding all_below
set_other_table = refl

set_byte_table : all_below 7 (λ j. all_below 256 (λ x. ltb (bit_or x (2 ^ j)) 256)) ≡ true
unfolding all_below
set_byte_table = refl

set_self : (j x : ℕ) → j < 7 → x < 256 → not (bit_and (bit_or x (2 ^ j)) (2 ^ j) == 0) ≡ true
set_self j x p q = all_below→ 256 _ (all_below→ 7 _ set_self_table j p) x q

set_other :
    (j k x : ℕ)
    → j < 7
    → k < 7
    → j ≢ k
    → x < 256
    → bit_and (bit_or x (2 ^ j)) (2 ^ k) ≡ bit_and x (2 ^ k)
set_other j k x p q ne h = (==_iff _ _).0 (
    all_below→ 256 _
      (second (j == k) (all_below→ 7 _ (all_below→ 7 _ set_other_table j p) k q) (ne→== j k ne)) x
      h)
  where
    second : (b : Bool) {c : Bool} → (b || c) ≡ true → b ≡ false → c ≡ true
    second true e f = cc
    second false e f = e

set_byte : (j x : ℕ) → j < 7 → x < 256 → bit_or x (2 ^ j) < 256
set_byte j x p q = ltb→lt _ _ (all_below→ 256 _ (all_below→ 7 _ set_byte_table j p) x q)

get_byte-lt : (p : Pmap) (i : ℕ) → IsPmap p → get_or p.bytes i 0 < 256
get_byte-lt p i h = get_or-lt p.bytes i 256 (omega arith) h.in_range

-- In a well-formed map, a bit that lies inside the bytes in use tests as set behind pmap_set.
pub pmap_is_set-pmap_set :
    (p : Pmap) (bit : ℕ) → IsPmap p → bit / 7 < p.nr_bytes → pmap_is_set (pmap_set p bit) bit ≡ true
unfolding pmap_is_set pmap_set
pmap_is_set-pmap_set p bit h inside = ground (
  arith,
  get_or-set_self p.bytes (bit / 7) (bit_or (get_or p.bytes (bit / 7) 0) (mask bit)) 0
      (omega (arith, h.within)),
  set_self (6 - bit % 7) (get_or p.bytes (bit / 7) 0) (omega arith) (get_byte-lt p (bit / 7) h),
)

-- In a well-formed map, pmap_set leaves the test of every other bit as it was, inside the bytes in
-- use and outside.
pub pmap_is_set-pmap_set_ne :
    (p : Pmap) (bit other : ℕ)
    → IsPmap p
    → bit ≢ other
    → pmap_is_set (pmap_set p bit) other ≡ pmap_is_set p other
unfolding pmap_is_set pmap_set
pmap_is_set-pmap_set_ne p bit other h ne =
    let x = get_or p.bytes (bit / 7) 0 in
    let v = bit_or x (mask bit) in
    elim (Bool-cases (bit / 7 == other / 7)) [
      | inl same ↦ ground (
        arith,
        (==_iff _ _).0 same,
        get_or-set_self p.bytes (bit / 7) v 0,
        h.within,
        set_other (6 - bit % 7) (6 - other % 7) x (omega arith) (omega arith)
            (omega (arith, ne, (==_iff _ _).0 same)) (get_byte-lt p (bit / 7) h),
      )
      | inr apart ↦
          ground (arith, get_or-set_ne p.bytes {i = bit / 7} {j = other / 7} v 0 (==→ne _ _ apart))
    ]

-- pmap_set keeps a map well formed: its bytes in use lie in the array, and each is below 256.
pub pmap_set-IsPmap : (p : Pmap) (bit : ℕ) → IsPmap p → IsPmap (pmap_set p bit)
unfolding pmap_set
pmap_set-IsPmap p bit h =
    let x = get_or p.bytes (bit / 7) 0 in
    let v = bit_or x (mask bit) in
    elim (Bool-cases (leb p.nr_bytes (bit / 7))) [
      | inl outside ↦ rw outside h
      | inr inside ↦ rw inside (record {
        within = rw (length-set p.bytes (bit / 7) v) h.within;
        in_range =
            All-set p.bytes (bit / 7) v 256
              (set_byte (6 - bit % 7) x (omega arith) (get_byte-lt p (bit / 7) h)) h.in_range;
      })
    ]

pub pmap_bit-pmap_set : (p : Pmap) (bit : ℕ) → (pmap_set p bit).pmap_bit ≡ p.pmap_bit
unfolding pmap_set
pmap_bit-pmap_set p bit = ground arith

-- The position does not enter the test of a bit.
pub pmap_is_set-place :
    (p : Pmap) (place bit : ℕ) → pmap_is_set (record p { pmap_bit = place }) bit ≡ pmap_is_set p bit
unfolding pmap_is_set
pmap_is_set-place p place bit = refl
