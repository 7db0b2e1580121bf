-- ===== src/Fix/Message/Unparsed.antt =====
-- The bytes that fix_message_unparse leaves in the two buffers.
use libtrading.Base.{
  ℕ, ◌+◌, ◌%◌, ◌^◌, ◌≤◌, ◌≡◌, refl, List, [], ◌∷◌, ◌++◌, append-nil, length, length-append, All,
  arith,
}
use libtrading.Buffer.{Buffer, buffer_size, buffer_remaining}
use libtrading.Buffer.Contents.{Holds, buffer_size-length}
use libtrading.Buffer.Moves.{total, buffer_sum-total}
use libtrading.Itoa.Digits.{dig, decimal}
use libtrading.Itoa.{uilog_10}
use libtrading.Fix.Scan.Fields.{field_bytes}
use libtrading.Fix.Field.{Field, Externals, checksum_value, fix_field_unparse}
use libtrading.Fix.Field.Written.{
  Appends, Appends-trans, field_text, IsWritable, fix_field_unparse-Appends,
}
use libtrading.Fix.Message.{Message, unparse_all, body_fields, head_fields, fix_message_unparse}

pub length-checksum_bytes : (n : ℕ) → length (field_bytes (decimal 10) (dig 3 n)) ≡ 7
unfolding uilog_10
length-checksum_bytes n = refl

module _ {D : Type 0} (ext : Externals D) where
  abbrev pub texts : List (Field (List ℕ) D) → List ℕ
  texts [] = []
  texts (f ∷ fs) = field_text ext f ++ texts fs

  unparse_all-Appends :
      (fs : List (Field (List ℕ) D)) (b : Buffer) (cs : List ℕ)
      → Holds b cs
      → All (IsWritable ext) fs
      → length (texts fs) ≤ buffer_remaining b
      → Appends b cs (texts fs) (unparse_all ext fs b)
  unfolding unparse_all
  unparse_all-Appends [] b cs h w room = record { holds = rw append-nil h; left = omega arith }
  unparse_all-Appends (f ∷ fs) b cs h w room =
      let size = length-append (field_text ext f) (texts fs) in
      let first = fix_field_unparse-Appends ext f b cs h w.0 (omega (arith, size)) in
      Appends-trans b (fix_field_unparse ext f b) _ cs (field_text ext f) (texts fs) first (
        unparse_all-Appends fs (fix_field_unparse ext f b) (cs ++ field_text ext f) first.holds w.1
          (omega (arith, size, first.left)))

  -- The body, the head, and the checksum field that goes behind the body.
  abbrev pub body_text : Message (List ℕ) D → List ℕ
  body_text self = texts (body_fields ext self)

  abbrev pub head_text : Message (List ℕ) D → List ℕ
  head_text self = texts (head_fields ext self (length (body_text self)))

  abbrev pub sum_of : Message (List ℕ) D → ℕ
  sum_of self = (total (head_text self) + total (body_text self)) % 256

  abbrev pub checksum_text : Message (List ℕ) D → List ℕ
  checksum_text self = field_bytes (decimal 10) (dig 3 (sum_of self))

  -- A message whose fields can be written.
  pub record IsSendable (self : Message (List ℕ) D) : Type 0 where
    pub body : All (IsWritable ext) (body_fields ext self)
    pub head : All (IsWritable ext) (head_fields ext self (length (body_text self)))

  -- On empty buffers with room for it, fix_message_unparse leaves the head in the one, with BodyLength the count
  -- of the bytes of the body, and in the other the body and the three digits of the sum of all these
  -- bytes modulo 256.
  pub fix_message_unparse-Holds :
      (self : Message (List ℕ) D) (head_buf body_buf : Buffer)
      → IsSendable self
      → Holds head_buf []
      → Holds body_buf []
      → length (head_text self) ≤ buffer_remaining head_buf
      → length (body_text self) + 7 ≤ buffer_remaining body_buf
      → Holds (fix_message_unparse ext self head_buf body_buf).0 (head_text self)
        × Holds
            (fix_message_unparse ext self head_buf body_buf).1
            (body_text self ++ checksum_text self)
  unfolding fix_message_unparse
  fix_message_unparse-Holds self head_buf body_buf sendable empty_head empty_body head_room
        body_room =
      let body =
        unparse_all-Appends (body_fields ext self) body_buf [] empty_body sendable.body
          (omega arith) in
      let len : buffer_size (unparse_all ext (body_fields ext self) body_buf)
          ≡ length (body_text self) =
        buffer_size-length (body_text self) body.holds in
      let head =
        unparse_all-Appends (head_fields ext self (length (body_text self))) head_buf [] empty_head
          sendable.head head_room in
      let sum_body = buffer_sum-total _ (body_text self) body.holds in
      let sum_head = buffer_sum-total _ (head_text self) head.holds in
      rw (len, sum_body, sum_head, sums (total (head_text self)) (total (body_text self)))
        (
          head.holds,
          (fix_field_unparse-Appends ext (record { tag = 10; value = checksum_value (sum_of self) })
              (unparse_all ext (body_fields ext self) body_buf) (body_text self) body.holds
              (omega arith, omega arith)
              (omega (arith, body.left, body_room, length-checksum_bytes (sum_of self)))).holds,
        )
    where
      sums : (x y : ℕ) → (x % 256 + y % 256) % 2 ^ 64 % 256 ≡ (x + y) % 256
      sums x y = omega arith
