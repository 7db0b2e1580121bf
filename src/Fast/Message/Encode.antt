-- ===== src/Fast/Message/Encode.antt =====
-- fast_message_encode of lib/proto/fast_message.c.
use libtrading.Base.{
  ℕ, zero, suc, Bool, true, false, List, [], ◌∷◌, get_or, replicate, ltb, ◌==◌, bit_and, bit_or,
  if◌then◌else◌,
}
use libtrading.Buffer.{Buffer, buffer_put, buffer_remaining}
use libtrading.Fast.Codec.{transfer_uint}
use libtrading.Fast.Pmap.{Pmap, fast_pmap_max_bytes, pmap_set}
use libtrading.Fast.Field.{Field, Encoded}
use libtrading.Fast.Integer.{fast_encode_uint, fast_encode_int}
use libtrading.Fast.Text.{fast_encode_string}
use libtrading.Fast.Decimal.Encoders.{fast_encode_decimal}
use libtrading.Fast.Message.{Item, int, uint, string, vector, decimal, sequence, Message, Sequence}

-- What the case of one field leaves.
pub record Sent (F : Type 0) : Type 0 where
  pub success : Bool
  pub buffer : Buffer
  pub pmap : Pmap
  pub field : F

abbrev pub of_encoded : {V F : Type 0} → (Field V → F) → Encoded V → Sent F
of_encoded make r = record {
  success = r.success;
  buffer = r.buffer;
  pmap = r.pmap;
  field = make r.field;
}

-- The `switch (field->type)`: vectors and sequences are refused.
abbrev pub encode_item : Buffer → Pmap → Item Sequence → Sent (Item Sequence)
encode_item b p (int f) = of_encoded int (fast_encode_int b p f)
encode_item b p (uint f) = of_encoded uint (fast_encode_uint b p f)
encode_item b p (string unicode f) = of_encoded (string unicode) (fast_encode_string b p f)
encode_item b p (vector f) = record { success = false; buffer = b; pmap = p; field = vector f }
encode_item b p (decimal f) =
    let r = fast_encode_decimal b p f in
    record { success = r.success; buffer = r.buffer; pmap = r.pmap; field = decimal r.result }
encode_item b p (sequence s) = record { success = false; buffer = b; pmap = p; field = sequence s }

abbrev pub also : Item Sequence → Sent (List (Item Sequence)) → Sent (List (Item Sequence))
also f r = record { success = r.success; buffer = r.buffer; pmap = r.pmap; field = f ∷ r.field }

abbrev pub behind_sent :
    Bool
    → Sent (Item Sequence)
    → List (Item Sequence)
    → Sent (List (Item Sequence))
    → Sent (List (Item Sequence))
behind_sent true r fs rest = also r.field rest
behind_sent false r fs rest = record {
  success = false;
  buffer = r.buffer;
  pmap = r.pmap;
  field = r.field ∷ fs;
}

-- The loop over the fields.
unfoldable pub encode_run : Buffer → Pmap → List (Item Sequence) → Sent (List (Item Sequence))
encode_run b p [] = record { success = true; buffer = b; pmap = p; field = [] }
encode_run b p (f ∷ fs) =
    let r = encode_item b p f in behind_sent r.success r fs (encode_run r.buffer r.pmap fs)

-- The loop that drops the zero bytes at the end, from the first `i` bytes on.
unfoldable pub trimmed : ℕ → List ℕ → ℕ
trimmed zero cs = 0
trimmed (suc i) cs = let rest = trimmed i cs in if get_or cs i 0 == 0 then rest else suc i

-- The `n` bytes of the map, the last with the stop bit. The bit of the template id is set, so `n` is not 0.
unfoldable pub put_map : ℕ → List ℕ → Buffer → Buffer
put_map zero cs b = b
put_map (suc n) [] b = b
put_map (suc zero) (c ∷ cs) b = buffer_put b (bit_or c 0x80)
put_map (suc (suc n)) (c ∷ cs) b = put_map (suc n) cs (buffer_put b (bit_and c 0x7f))

-- The map before the first field: eight bytes in which only the bit of the template id is set.
unfoldable pub first_map : Pmap
first_map =
    pmap_set
      (record {
        is_valid = false;
        pmap_bit = 0;
        nr_bytes = fast_pmap_max_bytes;
        bytes = replicate fast_pmap_max_bytes 0;
      })
      0

-- The result, the two buffers and the message.
pub record MessageSent : Type 0 where
  pub success : Bool
  pub pmap_buf : Buffer
  pub msg_buf : Buffer
  pub msg : Message

abbrev pub finish_message : Bool → Buffer → Sent (List (Item Sequence)) → Message → MessageSent
finish_message true pmap_buf r m =
    let n = trimmed fast_pmap_max_bytes r.pmap.bytes in
    if ltb (buffer_remaining pmap_buf) n
    then record {
      success = false;
      pmap_buf = pmap_buf;
      msg_buf = r.buffer;
      msg = record m { fields = r.field };
    }
    else record {
      success = true;
      pmap_buf = put_map n r.pmap.bytes pmap_buf;
      msg_buf = r.buffer;
      msg = record m { fields = r.field };
    }
finish_message false pmap_buf r m = record {
  success = false;
  pmap_buf = pmap_buf;
  msg_buf = r.buffer;
  msg = record m { fields = r.field };
}

abbrev pub behind_id : Buffer → Bool × Buffer → Message → MessageSent
behind_id pmap_buf (true, b) m =
    let r = encode_run b first_map m.fields in finish_message r.success pmap_buf r m
behind_id pmap_buf (false, b) m = record {
  success = false;
  pmap_buf = pmap_buf;
  msg_buf = b;
  msg = m;
}

unfoldable pub fast_message_encode : Buffer → Buffer → Message → MessageSent
unfolding encode_run trimmed put_map first_map
fast_message_encode pmap_buf msg_buf m = behind_id pmap_buf (transfer_uint msg_buf m.tid) m
