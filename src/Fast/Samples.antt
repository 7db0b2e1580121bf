-- ===== src/Fast/Samples.antt =====
-- Buffers for the tests: one with room for a message, and one that holds given bytes.
use libtrading.Base.{ℕ, List, [], ◌≡◌, ◌≤◌, refl, length, get_or, arith}
use libtrading.Buffer.{Buffer}
use libtrading.Buffer.Contents.{Holds, contents}

abbrev pub room64 : Buffer
room64 = record { start = 0; end = 0; capacity = 64; bytes = λ i. 0 }

pub room64-Holds : Holds room64 []
room64-Holds = record {
  valid = record { ordered = omega arith; bounded = omega arith; addressable = omega arith };
  reads = refl;
}

abbrev pub wire_of : List ℕ → Buffer
wire_of cs = record { start = 0; end = length cs; capacity = 64; bytes = λ i. get_or cs i 0 }

pub wire_of-Holds :
    (cs : List ℕ) → length cs ≤ 64 → contents (wire_of cs) ≡ cs → Holds (wire_of cs) cs
wire_of-Holds cs short e = record {
  valid = record { ordered = omega arith; bounded = short; addressable = omega arith };
  reads = e;
}
