-- ===== src/Buffer/Tests.antt =====
-- The buffer theorems on a buffer that holds "8=FIX".
use libtrading.Buffer.{buffer_get_le64}
use libtrading.Buffer.Numbers.{IsRead, buffer_get_le64-IsRead}
use libtrading.Base.{ℕ, suc, ◌-◌, ◌%◌, ◌≡◌, refl, List, [], ◌∷◌, get_or, length, arith}
use libtrading.Buffer.{
  Buffer, buffer_compact, buffer_find, buffer_sum, buffer_append, buffer_size, buffer_remaining,
}
use libtrading.Buffer.Contents.{Holds}
use libtrading.Buffer.Moves.{
  Finds, total, buffer_compact-Holds, buffer_find-Finds, buffer_sum-total,
  buffer_size-buffer_append,
}

abbrev fix : List ℕ
fix = 0x38 ∷ 0x3d ∷ 0x46 ∷ 0x49 ∷ 0x58 ∷ []

-- Behind two bytes that are already read.
abbrev held : Buffer
held = record { start = 2; end = 7; capacity = 16; bytes = λ i. get_or fix (i - 2) 0 }

held-Holds : Holds held fix
held-Holds = record {
  valid = record { ordered = omega arith; bounded = omega arith; addressable = omega arith };
  reads = refl;
}

buffer_compact-Holds_example :
    Holds (buffer_compact held) fix
    × ((buffer_compact held).start ≡ 0)
    × (buffer_remaining (buffer_compact held) ≡ 16 - length fix)
buffer_compact-Holds_example = buffer_compact-Holds held fix held-Holds

buffer_find-Finds_example : Finds 0x3d 2 fix (buffer_find held 0x3d)
buffer_find-Finds_example = buffer_find-Finds held 0x3d fix held-Holds

buffer_sum-total_example : buffer_sum held ≡ total fix % 256
buffer_sum-total_example = buffer_sum-total held fix held-Holds

buffer_size-buffer_append_example : buffer_size (buffer_append held held) ≡ buffer_size held
buffer_size-buffer_append_example =
    buffer_size-buffer_append held held (held-Holds.valid) (held-Holds.valid)

-- The bytes 1 to 8 and another.
abbrev nine : Buffer
nine = record { start = 0; end = 9; capacity = 16; bytes = λ i. suc i }

buffer_get_le64-IsRead_example :
    IsRead (1 ∷ 2 ∷ 3 ∷ 4 ∷ 5 ∷ 6 ∷ 7 ∷ 8 ∷ []) (9 ∷ []) (buffer_get_le64 nine)
buffer_get_le64-IsRead_example =
    buffer_get_le64-IsRead (1 ∷ 2 ∷ 3 ∷ 4 ∷ 5 ∷ 6 ∷ 7 ∷ 8 ∷ []) (9 ∷ []) nine refl (record {
      valid = record { ordered = omega arith; bounded = omega arith; addressable = omega arith };
      reads = refl;
    })
