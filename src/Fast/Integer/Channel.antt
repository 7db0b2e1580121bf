-- ===== src/Fast/Integer/Channel.antt =====
-- What the field coders rely on: how one number is sent and received, and how an optional field
-- makes room for the empty value. The stop-bit integers provide it twice.
use libtrading.Base.{
  ℕ, ◌+◌, ◌-◌, ◌^◌, ◌≤◌, ◌<◌, ◌≡◌, ◌≢◌, Bool, true, List, ◌++◌, arith, sub64, inl, IsWord,
}
use libtrading.Buffer.{Buffer, buffer_remaining}
use libtrading.Buffer.Contents.{Holds}
use libtrading.Fast.Codec.{
  Parsed, ok, parse_uint, parse_int, transfer_uint, transfer_int, transfer_size_uint,
  transfer_size_int,
}
use libtrading.Fast.Codec.Groups.{groups}
use libtrading.Fast.Codec.Unsigned.{transfer_uint-Holds, parse_uint-groups, transfer_size_uint-le}
use libtrading.Fast.Codec.Signed.{
  IsShortInt, transfer_int-Holds, parse_int-groups, transfer_size_int-le,
}
use libtrading.Fast.Field.{Field, optional, assigned, empty}
use native.Mathlib.Nat.{le_trans}
use libtrading.Fast.Integer.{
  lower_uint, lower_int, raise_uint, raise_int, add_delta_uint, add_delta_int,
}

pub record Channel : Type 1 where
  pub send : Buffer → ℕ → Bool × Buffer
  pub parse : Buffer → Parsed ℕ × Buffer
  pub code : ℕ → List ℕ
  pub Fits : ℕ → Type 0
  pub zero_fits : Fits 0
  pub sends :
      (x : ℕ) (b : Buffer) (cs : List ℕ)
      → Fits x
      → Holds b cs
      → 9 ≤ buffer_remaining b
      → ((send b x).0 ≡ true)
        × Holds (send b x).1 (cs ++ code x)
        × (buffer_remaining b ≤ 9 + buffer_remaining (send b x).1)
  pub parses :
      (x : ℕ) (b : Buffer) (rest : List ℕ)
      → Fits x
      → Holds b (code x ++ rest)
      → ((parse b).0 ≡ ok x) × Holds (parse b).1 rest

abbrev pub IsSendableUint : ℕ → Type 0
IsSendableUint v = v < 2 ^ 63 - 1

abbrev pub IsSendableInt : ℕ → Type 0
IsSendableInt v = IsShortInt v × (v ≢ 2 ^ 62 - 1)

pub record Nullable (c : Channel) : Type 1 where
  pub raise : Field ℕ → ℕ → ℕ
  pub lower : Field ℕ → ℕ → Field ℕ
  pub Sendable : ℕ → Type 0
  pub raise_fits : (f : Field ℕ) (v : ℕ) → Sendable v → c.Fits (raise f v)
  pub lower-raise :
      (e d : Field ℕ) (v : ℕ)
      → d.presence ≡ e.presence
      → Sendable v
      → lower d (raise e v) ≡ record d { state = assigned; value = v }
  pub lower-zero :
      (d : Field ℕ) → d.presence ≡ optional → lower d 0 ≡ record d { state = empty; value = 0 }
  pub add_delta : Field ℕ → ℕ → Field ℕ
  pub add_delta-raise :
      (e d : Field ℕ)
      → d.presence ≡ e.presence
      → IsWord e.value
      → IsWord e.previous
      → d.value ≡ e.previous
      → IsSendableInt (sub64 e.value e.previous)
      → add_delta d (raise_int e (sub64 e.value e.previous))
        ≡ record d { state = assigned; value = e.value }
  pub add_delta-zero :
      (d : Field ℕ)
      → d.presence ≡ optional
      → IsWord d.value
      → add_delta d 0 ≡ record d { state = empty; value = d.value }

abbrev pub unsigned : Channel
unsigned = record {
  send = transfer_uint;
  parse = parse_uint;
  code = λ x. groups (transfer_size_uint x) x;
  Fits = λ x. x < 2 ^ 63;
  zero_fits = omega arith;
  sends = λ x b cs fits h room.
      transfer_uint-Holds x b cs fits h (le_trans (transfer_size_uint-le x fits) room);
  parses = parse_uint-groups;
}

abbrev pub signed : Channel
signed = record {
  send = transfer_int;
  parse = parse_int;
  code = λ x. groups (transfer_size_int x) x;
  Fits = IsShortInt;
  zero_fits = inl (omega arith);
  sends = λ x b cs fits h room.
      transfer_int-Holds x b cs fits h (le_trans (transfer_size_int-le x fits) room);
  parses = parse_int-groups;
}

pub raise_uint-fits : (f : Field ℕ) (v : ℕ) → IsSendableUint v → raise_uint f v < 2 ^ 63
raise_uint-fits f v h = ground arith

pub raise_int-fits : (f : Field ℕ) (v : ℕ) → IsSendableInt v → IsShortInt (raise_int f v)
raise_int-fits f v h = ground arith

pub lower_uint-raise_uint :
    (e d : Field ℕ) (v : ℕ)
    → d.presence ≡ e.presence
    → IsSendableUint v
    → lower_uint d (raise_uint e v) ≡ record d { state = assigned; value = v }
lower_uint-raise_uint e d v same h = ground arith

pub lower_int-raise_int :
    (e d : Field ℕ) (v : ℕ)
    → d.presence ≡ e.presence
    → IsSendableInt v
    → lower_int d (raise_int e v) ≡ record d { state = assigned; value = v }
lower_int-raise_int e d v same h = ground arith

pub lower_uint-zero :
    (d : Field ℕ) → d.presence ≡ optional → lower_uint d 0 ≡ record d { state = empty; value = 0 }
lower_uint-zero d h = ground arith

pub lower_int-zero :
    (d : Field ℕ) → d.presence ≡ optional → lower_int d 0 ≡ record d { state = empty; value = 0 }
lower_int-zero d h = ground arith

pub add_delta_uint-raise_int :
    (e d : Field ℕ)
    → d.presence ≡ e.presence
    → IsWord e.value
    → IsWord e.previous
    → d.value ≡ e.previous
    → IsSendableInt (sub64 e.value e.previous)
    → add_delta_uint d (raise_int e (sub64 e.value e.previous))
      ≡ record d { state = assigned; value = e.value }
add_delta_uint-raise_int e d same hv hp agree h = ground arith

pub add_delta_uint-zero :
    (d : Field ℕ)
    → d.presence ≡ optional
    → IsWord d.value
    → add_delta_uint d 0 ≡ record d { state = empty; value = d.value }
add_delta_uint-zero d opt h = ground arith

abbrev pub nullable_uint : Nullable unsigned
nullable_uint = record {
  raise = raise_uint;
  lower = lower_uint;
  Sendable = IsSendableUint;
  raise_fits = raise_uint-fits;
  lower-raise = lower_uint-raise_uint;
  lower-zero = lower_uint-zero;
  add_delta = add_delta_uint;
  add_delta-raise = add_delta_uint-raise_int;
  add_delta-zero = add_delta_uint-zero;
}

pub add_delta_int-raise_int :
    (e d : Field ℕ)
    → d.presence ≡ e.presence
    → IsWord e.value
    → IsWord e.previous
    → d.value ≡ e.previous
    → IsSendableInt (sub64 e.value e.previous)
    → add_delta_int d (raise_int e (sub64 e.value e.previous))
      ≡ record d { state = assigned; value = e.value }
add_delta_int-raise_int e d same hv hp agree h = ground arith

pub add_delta_int-zero :
    (d : Field ℕ)
    → d.presence ≡ optional
    → IsWord d.value
    → add_delta_int d 0 ≡ record d { state = empty; value = d.value }
add_delta_int-zero d opt h = ground arith

abbrev pub nullable_int : Nullable signed
nullable_int = record {
  raise = raise_int;
  lower = lower_int;
  Sendable = IsSendableInt;
  raise_fits = raise_int-fits;
  lower-raise = lower_int-raise_int;
  lower-zero = lower_int-zero;
  add_delta = add_delta_int;
  add_delta-raise = add_delta_int-raise_int;
  add_delta-zero = add_delta_int-zero;
}
