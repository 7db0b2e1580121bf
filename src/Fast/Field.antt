-- ===== src/Fast/Field.antt =====
-- `struct fast_field` of include/libtrading/proto/fast_message.h, and the parts of the field
-- operators that lib/proto/fast_message.c repeats in the coders of every type.
-- `V` is the type of the unions of values: a field's `type` selects one member of each.
use libtrading.Base.{Bool, true, false, if◌then◌else◌, ◌&&◌, not}
use libtrading.Buffer.{Buffer}
use libtrading.Fast.Codec.{ok, garbled}
use libtrading.Fast.Pmap.{Pmap, Ret, pmap_is_set, pmap_set, next_bit, advance}

-- `enum fast_op`
pub data Op : Type 0 where
  none copy incr delta default constant : Op

-- `enum fast_presence`
pub data Presence : Type 0 where
  optional mandatory : Presence

-- `enum fast_state`
pub data State : Type 0 where
  undefined assigned empty : State

pub record Field {ℓ} (V : Type ℓ) : Type ℓ where
  pub presence : Presence
  pub op : Op
  pub state : State
  pub state_previous : State
  pub has_reset : Bool
  pub value : V
  pub reset : V
  pub previous : V

abbrev pub is_mandatory {ℓ} : {V : Type ℓ} → Field V → Bool
is_mandatory f = elim f.presence [ mandatory ↦ true | optional ↦ false ]

abbrev pub is_empty : State → Bool
is_empty empty = true
is_empty _ = false

-- What a decoder leaves: its return code and the objects that it was handed.
pub record Decoded {ℓ} (V : Type ℓ) : Type ℓ where
  pub ret : Ret
  pub buffer : Buffer
  pub pmap : Pmap
  pub field : Field V

module _ {ℓ} {V : Type ℓ} where
  -- The value is absent and there is nothing to copy: the reset value, or none. `loaded` is the
  -- value with the reset value copied over it.
  abbrev pub use_reset : V → Buffer → Pmap → Field V → Decoded V
  use_reset loaded b p f =
      if f.has_reset
      then record {
        ret = ok tt;
        buffer = b;
        pmap = p;
        field = record f { state = assigned; value = loaded };
      }
      else if is_mandatory f
      then record { ret = garbled; buffer = b; pmap = p; field = f }
      else record { ret = ok tt; buffer = b; pmap = p; field = record f { state = empty } }

  -- The `switch (field->state)` of FAST_OP_COPY and FAST_OP_INCR when the map's bit is not set;
  -- `kept` is the field after the case FAST_STATE_ASSIGNED.
  abbrev pub use_previous : V → Field V → Buffer → Pmap → Field V → Decoded V
  use_previous loaded kept b p f = elim f.state [
    | undefined ↦ use_reset loaded b p f
    | assigned ↦ record { ret = ok tt; buffer = b; pmap = p; field = kept }
    | empty ↦ record {
      ret = if is_mandatory f then garbled else ok tt;
      buffer = b;
      pmap = p;
      field = f;
    }
  ]

  -- FAST_OP_CONSTANT of every decoder.
  abbrev pub decode_constant : V → Buffer → Pmap → Field V → Decoded V
  decode_constant loaded b p f =
      let value : V = elim f.state [ assigned ↦ f.value | _ ↦ loaded ] in
      let g : Field V = record f { state = assigned; value = value } in
      if is_mandatory f then record { ret = ok tt; buffer = b; pmap = p; field = g } else record {
        ret = ok tt;
        buffer = b;
        pmap = advance p;
        field = if pmap_is_set p (next_bit p) then g else record g { state = empty };
      }

-- Where the `switch (field->op)` of an encoder leaves to: `goto transfer` and `goto empty` with
-- the variables `tmp` and `pset`, `break` with the field, or `goto fail`.
pub data Exit {ℓ} (T V : Type ℓ) : Type ℓ where
  transfer : Bool → T → Field V → Exit T V
  to_empty : Bool → Field V → Exit T V
  stop : Field V → Exit T V
  fail : Exit T V

pub record Encoded {ℓ} (V : Type ℓ) : Type ℓ where
  pub success : Bool
  pub buffer : Buffer
  pub pmap : Pmap
  pub field : Field V

module _ {ℓ} {T V : Type ℓ} where
  -- `if (!field_is_mandatory(field)) if (field_state_empty(field)) goto empty;`
  abbrev pub or_empty : Bool → Field V → Exit T V → Exit T V
  or_empty pset f next = if not (is_mandatory f) && is_empty f.state then to_empty pset f else next

  -- FAST_OP_NONE and FAST_OP_DELTA: always on the wire, no bit in the map.
  abbrev pub encode_always : T → Field V → Exit T V
  encode_always tmp f = or_empty false f (transfer false tmp (record f { state = assigned }))

  -- FAST_OP_COPY and FAST_OP_INCR: `same` says that the value is the expected one, and `left` is
  -- the field when nothing is sent.
  abbrev pub encode_expected : T → Bool → Field V → Field V → Exit T V
  encode_expected tmp same left f = or_empty true f (elim f.state [
    | undefined ↦ transfer true tmp (record f { state = assigned })
    | assigned ↦
        if is_empty f.state_previous
        then transfer true tmp f
        else if same
        then stop left
        else transfer true tmp f
    | empty ↦ fail
  ])

  abbrev pub encode_default : T → Field V → Exit T V
  encode_default tmp f = or_empty true f (elim f.state [
    | undefined ↦ transfer true tmp (record f { state = assigned })
    | assigned ↦ transfer true tmp (record f { state = assigned })
    | empty ↦ fail
  ])

  -- FAST_OP_CONSTANT, with the map that it leaves.
  abbrev pub encode_constant : Pmap → Field V → Pmap × Exit T V
  encode_constant p f =
      if is_mandatory f
      then (p, stop (record f { state = assigned }))
      else if is_empty f.state
      then (advance p, stop f)
      else (pmap_set (advance p) (next_bit p), stop (record f { state = assigned }))
