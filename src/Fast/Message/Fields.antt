-- ===== src/Fast/Message/Fields.antt =====
-- One integer field of a message between fast_message_encode and fast_message_decode.
use libtrading.Base.{ℕ, ◌+◌, ◌≤◌, ◌≡◌, refl, sym, ◌∙◌, true, false, List, [], ◌∷◌, ◌++◌, ◌/◌, ◌<◌}
use mathlib.Core.Path.{subst}
use libtrading.Buffer.{Buffer, buffer_remaining}
use libtrading.Buffer.Contents.{Holds}
use libtrading.Fast.Codec.{ok}
use libtrading.Fast.Pmap.{Pmap, pmap_is_set, next_bit, IsPmap}
use libtrading.Fast.Field.{Field, Encoded, Decoded}
use libtrading.Fast.Integer.{
  fast_decode_uint, fast_decode_int, fast_encode_uint, fast_encode_int, encode_by, decode_switch,
}
use libtrading.Fast.Integer.Channel.{Channel, Nullable, nullable_uint, nullable_int}
use libtrading.Fast.Integer.Encoding.{absent}
use libtrading.Fast.Integer.Decoding.{Agrees, Received, Accepts}
use libtrading.Fast.Integer.RoundTrip.{Ends, Delivers, deliver}
use libtrading.Fast.Text.{Chars}
use libtrading.Fast.Message.{Item, int, uint, Sequence, Taken}
use libtrading.Fast.Message.Decode.{decode_field}
use libtrading.Fast.Message.Encode.{encode_item, Sent}
use libtrading.Fast.Message.Marks.{Marks, encode_by-Marks, decode_switch-bits, decode_switch-bytes}

-- The two ends of an integer field before a message.
abbrev pub ItemEnds : Item Sequence → Item Sequence → Type 0
ItemEnds (int e) (int d) = Ends nullable_int e d
ItemEnds (uint e) (uint d) = Ends nullable_uint e d
ItemEnds _ _ = ⊥

-- The field `e` that was encoded, its new state `e'` and the field `d'` that was decoded: the value
-- arrives, and the ends agree again.
abbrev pub ItemReceived : Item Sequence → Item Sequence → Item Sequence → Type 0
ItemReceived (int e) (int e') (int d') = Received (absent e) e d' × Agrees e.op e' d'
ItemReceived (uint e) (uint e') (uint d') = Received (absent e) e d' × Agrees e.op e' d'
ItemReceived _ _ _ = ⊥

-- The decoder on `rest` behind the field, with the map `q` before it.
pub record ItemReads (i : Item Sequence) (out : Sent (Item Sequence)) (rest : List ℕ) (q : Pmap)
    (r : Taken (Item Sequence)) : Type 0 where
  pub done : r.ret ≡ ok tt
  pub left : Holds r.buffer rest
  pub same_bit : r.pmap.pmap_bit ≡ out.pmap.pmap_bit
  pub same_bytes : r.pmap.bytes ≡ q.bytes
  pub same_map : (j : ℕ) → pmap_is_set r.pmap j ≡ pmap_is_set q j
  pub received : ItemReceived i out.field r.field

-- What the encoder appends for the field `i`, and what the decoder makes of it with the field `j`.
pub record ItemDelivers (scratch : Chars) (i j : Item Sequence) (b : Buffer) (p : Pmap)
    (cs : List ℕ) : Type 0 where
  pub bytes : List ℕ
  pub success : (encode_item b p i).success ≡ true
  pub written : Holds (encode_item b p i).buffer (cs ++ bytes)
  pub left : buffer_remaining b ≤ 9 + buffer_remaining (encode_item b p i).buffer
  pub marks : Marks p (encode_item b p i).pmap
  pub reads :
      (src : Buffer) (q : Pmap) (rest : List ℕ)
      → q.pmap_bit ≡ p.pmap_bit
      → ((encode_item b p i).pmap.pmap_bit ≡ next_bit p
          → pmap_is_set q (next_bit p) ≡ pmap_is_set (encode_item b p i).pmap (next_bit p))
      → Holds src (bytes ++ rest)
      → ItemReads i (encode_item b p i) rest q (decode_field scratch src q j)

-- The encoder's map in front of a field.
pub record IsRoomy (p : Pmap) : Type 0 where
  pub well_formed : IsPmap p
  pub inside : next_bit p / 7 < p.nr_bytes
  pub clear : pmap_is_set p (next_bit p) ≡ false

append_cancel_left : (xs : List ℕ) {ys zs : List ℕ} → xs ++ ys ≡ xs ++ zs → ys ≡ zs
append_cancel_left [] e = e
append_cancel_left (x ∷ xs) e = append_cancel_left xs (cc)

module _ {c : Channel} (n : Nullable c) (e d : Field ℕ) (b : Buffer) (p : Pmap) (cs : List ℕ)
    (ends : Ends n e d) (m : IsRoomy p) (held : Holds b cs) (room : 9 ≤ buffer_remaining b) where
  abbrev out : Encoded ℕ
  out = encode_by c.send n.raise b p e

  abbrev got : Buffer → Pmap → Decoded ℕ
  got src q = decode_switch c.parse n.lower n.add_delta src q d

  both :
      (src : Buffer) (q : Pmap) (rest : List ℕ)
      → q.pmap_bit ≡ p.pmap_bit
      → Delivers e.op e cs p q b src rest out (got src q)
  both src q rest place =
      deliver n e d b src p q cs rest
        (record {
          well_formed = m.well_formed;
          inside = m.inside;
          clear = m.clear;
          same_place = place;
        })
        held room ends.same_presence e.op refl ends.same_op ends.ready ends.agree

  abbrev pub Appends : List ℕ → Type 0
  Appends bytes =
      (out.success ≡ true)
      × Holds out.buffer (cs ++ bytes)
      × (buffer_remaining b ≤ 9 + buffer_remaining out.buffer)
      × Marks p out.pmap
      × ((src : Buffer) (q : Pmap) (rest : List ℕ)
          → q.pmap_bit ≡ p.pmap_bit
          → (out.pmap.pmap_bit ≡ next_bit p
              → pmap_is_set q (next_bit p) ≡ pmap_is_set out.pmap (next_bit p))
          → Holds src (bytes ++ rest)
          → Accepts e.op e out.field out.pmap.pmap_bit rest (got src q)
            × ((got src q).pmap.bytes ≡ q.bytes)
            × ((j : ℕ) → pmap_is_set (got src q).pmap j ≡ pmap_is_set q j))

  pub appends : (bytes : List ℕ) × Appends bytes
  appends =
      let (bytes, success, written, left, _) = both b p [] refl in
      (
        bytes,
        (
          success,
          written,
          left,
          encode_by-Marks c.send n.raise b p e m.well_formed,
          λ src q rest place bit h.
              let (bytes', _, written', _, accepts) = both src q rest place in
              let same : bytes ≡ bytes' =
                append_cancel_left cs (sym written.reads ∙ written'.reads) in
              (
                accepts bit (subst (λ (bs : List ℕ). Holds src (bs ++ rest)) same h),
                decode_switch-bytes c.parse n.lower n.add_delta src q d,
                decode_switch-bits c.parse n.lower n.add_delta src q d,
              ),
        ),
      )

module _ (scratch : Chars) (e d : Field ℕ) (b : Buffer) (p : Pmap) (cs : List ℕ) (m : IsRoomy p)
    (held : Holds b cs) (room : 9 ≤ buffer_remaining b) where
  deliver_int : Ends nullable_int e d → ItemDelivers scratch (int e) (int d) b p cs
  unfolding fast_encode_int fast_decode_int
  deliver_int ends =
      let (bytes, (success, written, left, marks, accepts)) =
        appends nullable_int e d b p cs ends m held room in
      record {
        bytes = bytes;
        success = success;
        written = written;
        left = left;
        marks = marks;
        reads = λ src q rest place bit h.
            let (a, same_bytes, same_map) = accepts src q rest place bit h in
            record {
              done = a.done;
              left = a.left;
              same_bit = a.same_bit;
              same_bytes = same_bytes;
              same_map = same_map;
              received = (a.received, a.agrees);
            };
      }

  deliver_uint : Ends nullable_uint e d → ItemDelivers scratch (uint e) (uint d) b p cs
  unfolding fast_encode_uint fast_decode_uint
  deliver_uint ends =
      let (bytes, (success, written, left, marks, accepts)) =
        appends nullable_uint e d b p cs ends m held room in
      record {
        bytes = bytes;
        success = success;
        written = written;
        left = left;
        marks = marks;
        reads = λ src q rest place bit h.
            let (a, same_bytes, same_map) = accepts src q rest place bit h in
            record {
              done = a.done;
              left = a.left;
              same_bit = a.same_bit;
              same_bytes = same_bytes;
              same_map = same_map;
              received = (a.received, a.agrees);
            };
      }

-- Every integer field.
pub deliver_item :
    (scratch : Chars) (i j : Item Sequence) (b : Buffer) (p : Pmap) (cs : List ℕ)
    → ItemEnds i j
    → IsRoomy p
    → Holds b cs
    → 9 ≤ buffer_remaining b
    → ItemDelivers scratch i j b p cs
deliver_item scratch (int e) (int d) b p cs ends m held room =
    deliver_int scratch e d b p cs m held room ends
deliver_item scratch (uint e) (uint d) b p cs ends m held room =
    deliver_uint scratch e d b p cs m held room ends
deliver_item scratch _ _ b p cs ends m held room = absurd ends
