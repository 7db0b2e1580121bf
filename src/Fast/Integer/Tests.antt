-- ===== src/Fast/Integer/Tests.antt =====
-- Runs of the integer coders, and the round trips at concrete fields.
use libtrading.Base.{ℕ, ◌≡◌, refl, true, false, [], ◌∷◌, arith, replicate, inr}
use libtrading.Buffer.{Buffer, buffer_put, buffer_remaining}
use libtrading.Buffer.Contents.{Holds, contents}
use libtrading.Fast.Samples.{room64, room64-Holds, wire_of, wire_of-Holds}
use libtrading.Fast.Codec.{
  transfer_uint, transfer_int, transfer_size_uint, transfer_size_int, magnitude, put_groups,
}
use libtrading.Fast.Pmap.{Pmap, pmap_is_set, pmap_set}
use libtrading.Fast.Field.{copy, delta, Field, optional, undefined, assigned}
use libtrading.Fast.Integer.{fast_encode_uint, fast_decode_uint, fast_encode_int, fast_decode_int}
use libtrading.Fast.Integer.Decoding.{Accepts}
use libtrading.Fast.Integer.RoundTrip.{
  Maps, fast_decode_uint-fast_encode_uint, fast_decode_int-fast_encode_int,
}

abbrev clear_map : Pmap
clear_map = record { is_valid = true; pmap_bit = 0; nr_bytes = 8; bytes = replicate 8 0 }

-- An optional field with the copy operator, before its first message.
abbrev fresh : Field ℕ
fresh = record {
  presence = optional;
  op = copy;
  state = undefined;
  state_previous = undefined;
  has_reset = false;
  value = 0;
  reset = 0;
  previous = 0;
}

abbrev holding : ℕ → Field ℕ
holding v = record fresh { value = v }

sent_300 : contents (fast_encode_uint room64 clear_map (holding 300)).buffer ≡ 0x02 ∷ 0xad ∷ []
unfolding fast_encode_uint transfer_uint put_groups transfer_size_uint buffer_put buffer_remaining
sent_300 = refl

abbrev wire_300 : Buffer
wire_300 = wire_of (0x02 ∷ 0xad ∷ [])

wire_300-Holds : Holds wire_300 (0x02 ∷ 0xad ∷ [])
wire_300-Holds = wire_of-Holds _ (omega arith) refl

clear_map-Maps : (q : Pmap) → q.pmap_bit ≡ 0 → Maps clear_map q
unfolding pmap_is_set
clear_map-Maps q h = record {
  well_formed = record { within = omega arith; in_range = omega arith };
  inside = omega arith;
  clear = refl;
  same_place = h;
}

-- The map with the bit of the field set.
abbrev set_map : Pmap
set_map = record clear_map { bytes = 32 ∷ replicate 7 0 }

fast_decode_uint-fast_encode_uint_example :
    ((fast_encode_uint room64 clear_map (holding 300)).success ≡ true)
    × Accepts copy
        (holding 300)
        (fast_encode_uint room64 clear_map (holding 300)).field
        (fast_encode_uint room64 clear_map (holding 300)).pmap.pmap_bit
        []
        (fast_decode_uint wire_300 set_map fresh)
unfolding fast_encode_uint transfer_uint put_groups transfer_size_uint buffer_put buffer_remaining
    pmap_set pmap_is_set
fast_decode_uint-fast_encode_uint_example =
    fast_decode_uint-fast_encode_uint (holding 300) fresh room64 wire_300 clear_map set_map []
      (record {
        same_op = refl;
        same_presence = refl;
        ready = (omega arith, (λ h. cc), (λ h. cc));
        agree = λ h. cc;
      })
      (clear_map-Maps set_map refl) room64-Holds (omega arith) refl wire_300-Holds

-- An optional delta field whose last value was 10, and which now has 7.
abbrev base_10 : Field ℕ
base_10 = record fresh {
  op = delta;
  state = assigned;
  state_previous = assigned;
  value = 10;
  previous = 10;
}

abbrev now_7 : Field ℕ
now_7 = record base_10 { value = 7 }

abbrev wire_minus_3 : Buffer
wire_minus_3 = wire_of (0xfd ∷ [])

wire_minus_3-Holds : Holds wire_minus_3 (0xfd ∷ [])
wire_minus_3-Holds = wire_of-Holds _ (omega arith) refl

fast_decode_int-fast_encode_int_example :
    ((fast_encode_int room64 clear_map now_7).success ≡ true)
    × Accepts delta now_7
        (fast_encode_int room64 clear_map now_7).field
        (fast_encode_int room64 clear_map now_7).pmap.pmap_bit
        []
        (fast_decode_int wire_minus_3 clear_map base_10)
unfolding fast_encode_int transfer_int put_groups transfer_size_int magnitude buffer_put
    buffer_remaining pmap_set pmap_is_set
fast_decode_int-fast_encode_int_example =
    fast_decode_int-fast_encode_int now_7 base_10 room64 wire_minus_3 clear_map clear_map []
      (record {
        same_op = refl;
        same_presence = refl;
        ready = ((inr (omega arith, omega arith), omega arith), omega arith, omega arith);
        agree = refl;
      })
      (clear_map-Maps clear_map refl) room64-Holds (omega arith) refl wire_minus_3-Holds
