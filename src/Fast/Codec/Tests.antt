-- ===== src/Fast/Codec/Tests.antt =====
-- Runs of the stop-bit coders, and the theorems on them at concrete values.
use libtrading.Base.{ℕ, ◌^◌, ◌+◌, ◌-◌, ◌≡◌, refl, true, List, [], ◌∷◌, arith, inr}
use libtrading.Buffer.{buffer_remaining, buffer_put}
use libtrading.Buffer.Contents.{Holds, contents}
use libtrading.Fast.Samples.{room64, room64-Holds, wire_of, wire_of-Holds}
use libtrading.Fast.Codec.{
  ok, parse_uint, parse_int, transfer_uint, transfer_int, transfer_size_uint, transfer_size_int,
  magnitude, put_groups,
}
use libtrading.Fast.Codec.Unsigned.{parse_uint-transfer_uint}
use libtrading.Fast.Codec.Signed.{parse_int-transfer_int}
use libtrading.Fast.Codec.Outcome.{
  Outcome, parse_uint-Outcome, parse_int-Outcome, parse_uint-transfer_uint_top,
}

-- The example of the FAST specification: 942755 is 0x39 0x45 0xa3.
sent_942755 : contents (transfer_uint room64 942755).1 ≡ 0x39 ∷ 0x45 ∷ 0xa3 ∷ []
unfolding transfer_uint put_groups transfer_size_uint buffer_put buffer_remaining
sent_942755 = refl

wire_942755-Holds :
    Holds (wire_of (0x39 ∷ 0x45 ∷ 0xa3 ∷ 0x81 ∷ [])) (0x39 ∷ 0x45 ∷ 0xa3 ∷ 0x81 ∷ [])
wire_942755-Holds = wire_of-Holds _ (omega arith) refl

parse_uint-transfer_uint_example :
    ((transfer_uint room64 942755).0 ≡ true)
    × ((parse_uint (wire_of (0x39 ∷ 0x45 ∷ 0xa3 ∷ 0x81 ∷ []))).0 ≡ ok 942755)
    × Holds (parse_uint (wire_of (0x39 ∷ 0x45 ∷ 0xa3 ∷ 0x81 ∷ []))).1 (0x81 ∷ [])
unfolding transfer_uint put_groups transfer_size_uint buffer_put buffer_remaining
parse_uint-transfer_uint_example =
    parse_uint-transfer_uint 942755 room64 (wire_of (0x39 ∷ 0x45 ∷ 0xa3 ∷ 0x81 ∷ [])) (0x81 ∷ [])
      (omega arith) room64-Holds (omega arith) wire_942755-Holds

-- -942755 is 0x46 0x3a 0xdd.
parse_int-transfer_int_example :
    ((transfer_int room64 (2 ^ 64 - 942755)).0 ≡ true)
    × ((parse_int (wire_of (0x46 ∷ 0x3a ∷ 0xdd ∷ 0x81 ∷ []))).0 ≡ ok (2 ^ 64 - 942755))
    × Holds (parse_int (wire_of (0x46 ∷ 0x3a ∷ 0xdd ∷ 0x81 ∷ []))).1 (0x81 ∷ [])
unfolding transfer_int put_groups transfer_size_int magnitude buffer_put buffer_remaining
parse_int-transfer_int_example =
    parse_int-transfer_int (2 ^ 64 - 942755) room64 (wire_of (0x46 ∷ 0x3a ∷ 0xdd ∷ 0x81 ∷ []))
      (0x81 ∷ []) (inr (omega arith, omega arith)) room64-Holds (omega arith)
      (wire_of-Holds _ (omega arith) refl)

parse_uint-Outcome_example :
    (rest : List ℕ) × Holds (parse_uint (wire_of (0x39 ∷ 0x45 ∷ []))).1 rest
    × Outcome 9 0 (0x39 ∷ 0x45 ∷ []) rest (parse_uint (wire_of (0x39 ∷ 0x45 ∷ []))).0
parse_uint-Outcome_example =
    parse_uint-Outcome (wire_of (0x39 ∷ 0x45 ∷ [])) (0x39 ∷ 0x45 ∷ [])
      (wire_of-Holds _ (omega arith) refl)

parse_int-Outcome_example :
    (rest : List ℕ) × Holds (parse_int (wire_of (0x46 ∷ 0x3a ∷ 0xdd ∷ 0x81 ∷ []))).1 rest
    × Outcome 10
        (2 ^ 64 - 1)
        (0x46 ∷ 0x3a ∷ 0xdd ∷ 0x81 ∷ [])
        rest
        (parse_int (wire_of (0x46 ∷ 0x3a ∷ 0xdd ∷ 0x81 ∷ []))).0
parse_int-Outcome_example =
    parse_int-Outcome (wire_of (0x46 ∷ 0x3a ∷ 0xdd ∷ 0x81 ∷ [])) (0x46 ∷ 0x3a ∷ 0xdd ∷ 0x81 ∷ [])
      (wire_of-Holds _ (omega arith) refl)

abbrev top_wire : List ℕ
top_wire = 0x00 ∷ 0x00 ∷ 0x00 ∷ 0x00 ∷ 0x00 ∷ 0x00 ∷ 0x00 ∷ 0x00 ∷ 0x85 ∷ []

parse_uint-transfer_uint_top_example :
    ((transfer_uint room64 (2 ^ 63 + 5)).0 ≡ true)
    × ((parse_uint (wire_of top_wire)).0 ≡ ok (2 ^ 63 + 5 - 2 ^ 63))
unfolding transfer_uint put_groups transfer_size_uint buffer_put buffer_remaining
parse_uint-transfer_uint_top_example =
    parse_uint-transfer_uint_top (2 ^ 63 + 5) room64 (wire_of top_wire) [] (omega arith)
      (omega arith) room64-Holds (omega arith) (wire_of-Holds _ (omega arith) refl)
