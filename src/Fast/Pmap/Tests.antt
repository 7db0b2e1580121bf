-- ===== src/Fast/Pmap/Tests.antt =====
-- The theorems on presence maps at a concrete map.
use libtrading.Base.{[], ◌≡◌, refl, true, false, ◌∷◌, replicate, arith}
use libtrading.Fast.Samples.{wire_of, wire_of-Holds}
use libtrading.Fast.Pmap.Parse.{Reads, parse_pmap-Reads}
use libtrading.Fast.Pmap.{parse_pmap, Pmap, IsPmap, pmap_is_set, pmap_set}
use libtrading.Fast.Pmap.Laws.{pmap_is_set-pmap_set_ne}

-- Two bytes, with the bits 1 and 7 set.
abbrev two_bytes : Pmap
two_bytes = record {
  is_valid = true;
  pmap_bit = 0;
  nr_bytes = 2;
  bytes = 0x20 ∷ 0xc0 ∷ replicate 6 0;
}

two_bytes-IsPmap : IsPmap two_bytes
two_bytes-IsPmap = record { within = omega arith; in_range = omega arith }

pmap_is_set-pmap_set_ne_example : pmap_is_set (pmap_set two_bytes 9) 7 ≡ pmap_is_set two_bytes 7
pmap_is_set-pmap_set_ne_example =
    pmap_is_set-pmap_set_ne two_bytes 9 7 two_bytes-IsPmap (omega arith)

bit_7 : pmap_is_set two_bytes 7 ≡ true
unfolding pmap_is_set
bit_7 = refl

bit_14 : pmap_is_set two_bytes 14 ≡ false
unfolding pmap_is_set
bit_14 = refl

-- A map of two bytes in front of one more byte.
parse_pmap-Reads_example :
    Reads 8 [] (0x40 ∷ 0xa0 ∷ 0x81 ∷ []) (parse_pmap (wire_of (0x40 ∷ 0xa0 ∷ 0x81 ∷ [])) two_bytes)
parse_pmap-Reads_example =
    parse_pmap-Reads (wire_of (0x40 ∷ 0xa0 ∷ 0x81 ∷ [])) two_bytes (0x40 ∷ 0xa0 ∷ 0x81 ∷ [])
      (wire_of-Holds _ (omega arith) refl) refl
