-- ===== src/Fast/Text/Tests.antt =====
-- The round trip of strings on "BUY".
use libtrading.Base.{ℕ, ◌≡◌, refl, ◌+◌, true, List, [], ◌∷◌, length, arith}
use mathlib.Core.Option.{Option}
use libtrading.Buffer.{Buffer, buffer_put, buffer_remaining}
use libtrading.Buffer.Contents.{Holds}
use libtrading.Fast.Samples.{room64, room64-Holds, wire_of, wire_of-Holds}
use libtrading.Fast.Codec.{ok}
use libtrading.Fast.Text.{Chars, text, parse_string, transfer_string, put_text, put_null}
use libtrading.Fast.Text.Wire.{body_of, parse_string-transfer_string}

abbrev buy : List ℕ
buy = 0x42 ∷ 0x55 ∷ 0x59 ∷ []

-- "BUY", the stop byte, and one more byte.
abbrev buy_wire : Buffer
buy_wire = wire_of (0x42 ∷ 0x55 ∷ 0x59 ∷ 0x80 ∷ 0x83 ∷ [])

-- The array still holds something else.
abbrev dirty : Chars
dirty _ = 0x7a

parse_string-transfer_string_example :
    ((transfer_string room64 (Option.some buy)).0 ≡ true)
    × ((parse_string buy_wire dirty 256).0 ≡ ok (length (body_of buy) + 1))
    × Holds (parse_string buy_wire dirty 256).1 (0x83 ∷ [])
    × (text (parse_string buy_wire dirty 256).2 ≡ buy)
unfolding transfer_string put_text put_null buffer_put buffer_remaining
parse_string-transfer_string_example =
    parse_string-transfer_string buy room64 buy_wire dirty (0x83 ∷ []) (omega arith) (omega arith)
      room64-Holds (omega arith) (wire_of-Holds _ (omega arith) refl)
