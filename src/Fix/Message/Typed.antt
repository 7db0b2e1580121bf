-- ===== src/Fix/Message/Typed.antt =====
-- Typed fields as fix_field_unparse writes them, and what rest_of_message stores for them.
use libtrading.Base.{
  some, lt→ltb, inl, inr, ℕ, ◌^◌, ◌<◌, ◌≡◌, ◌≢◌, refl, false, List, [], ◌∷◌, ◌++◌, length, All,
  arith,
}
use libtrading.Buffer.{Buffer}
use libtrading.Itoa.{uilog_10}
use libtrading.Itoa.Digits.{IsDigit, decimal, dig-IsDigit, value_from-decimal}
use libtrading.Itoa.Signed.{Shows, PrintsNumbers, i64_text-Shows}
use libtrading.Fix.Scan.{soh, readable}
use libtrading.Fix.Scan.Memory.{At}
use libtrading.Fix.Scan.Numbers.{fix_atoi64-Shows}
use libtrading.Fix.Scan.Fields.{IsValue, IsTag}
use libtrading.Fix.Field.{
  FieldType, int, char, string, Value, int_value, float_value, char_value, string_value,
  checksum_value, no_value, string_8_value, Field, Externals,
}
use libtrading.Fix.Field.Written.{value_text}
use libtrading.Fix.Message.{field_of, stored, is_checksum, is_seq_num, fix_max_field_number}

pub decimal-IsTag : (n : ℕ) → n < 2 ^ 32 → IsTag (decimal n) n
decimal-IsTag n word = record {
  digits = dig-IsDigit (uilog_10 n) n;
  value = value_from-decimal n word;
  small = word;
}

pub digits-IsValue : (ds : List ℕ) → All IsDigit ds → IsValue ds
digits-IsValue [] h = tt
digits-IsValue (d ∷ ds) h = (omega (arith, h.0), digits-IsValue ds h.1)

Shows-IsValue : (cs : List ℕ) (n : ℕ) → Shows cs n → IsValue cs
Shows-IsValue cs n (inl (small, num)) = digits-IsValue cs num.digits
Shows-IsValue cs n (inr (big, (ds, e, num))) = rw e (omega arith, digits-IsValue ds num.digits)

-- A value that goes over the wire and back in a field of that type: a number, a character, or a string
-- without SOH.
abbrev pub HasType : {D : Type 0} → FieldType → Value (List ℕ) D → Type 0
HasType t (int_value n) = (t ≡ int) × (n < 2 ^ 64)
HasType t (char_value c) = (t ≡ char) × (c < 256) × (c ≢ soh)
HasType t (string_value cs) = (t ≡ string) × IsValue cs
HasType t (float_value x) = ⊥
HasType t (checksum_value n) = ⊥
HasType t no_value = ⊥
HasType t (string_8_value cs) = ⊥

-- The value that is received for one: the same, and for a string the address where it lies, with a SOH
-- behind it.
abbrev pub SameValue : {D : Type 0} → (ℕ → ℕ) → Value (List ℕ) D → Value ℕ D → Type 0
SameValue f (int_value n) (int_value m) = m ≡ n
SameValue f (char_value c) (char_value d) = d ≡ c
SameValue f (string_value cs) (string_value p) = At f p (cs ++ (soh ∷ []))
SameValue f _ _ = ⊥

abbrev pub SameField : {D : Type 0} → (ℕ → ℕ) → Field (List ℕ) D → Field ℕ D → Type 0
SameField f g h = (h.tag ≡ g.tag) × SameValue f g.value h.value

abbrev pub SameFields : {D : Type 0} → (ℕ → ℕ) → List (Field (List ℕ) D) → List (Field ℕ D) → Type 0
SameFields f [] [] = Unit {0}
SameFields f [] (h ∷ hs) = ⊥
SameFields f (g ∷ gs) [] = ⊥
SameFields f (g ∷ gs) (h ∷ hs) = SameField f g h × SameFields f gs hs

module _ {D : Type 0} (ext : Externals D) (tag_type : ℕ → FieldType)
    (law : PrintsNumbers ext.sprintf) where
  abbrev pub IsTyped : Field (List ℕ) D → Type 0
  IsTyped f = (f.tag < 2 ^ 32) × HasType (tag_type f.tag) f.value

  pub value_text-IsValue :
      (t : FieldType) (v : Value (List ℕ) D) → HasType t v → IsValue (value_text ext v)
  value_text-IsValue t (int_value n) (e, word) =
      Shows-IsValue _ n (i64_text-Shows ext.sprintf n law word)
  value_text-IsValue t (char_value c) (e, byte, ne) = (ne, tt)
  value_text-IsValue t (string_value cs) (e, ok') = ok'
  value_text-IsValue t (float_value x) bad = elim bad [ ]
  value_text-IsValue t (checksum_value n) bad = elim bad [ ]
  value_text-IsValue t no_value bad = elim bad [ ]
  value_text-IsValue t (string_8_value cs) bad = elim bad [ ]

  -- The field that the switch stores for a value at `p`.
  pub stored_value :
      (t : FieldType) (b : Buffer) (tag p : ℕ) (v : Value (List ℕ) D) (acc : List (Field ℕ D))
      → HasType t v
      → At b.bytes p (value_text ext v ++ (soh ∷ []))
      → length (value_text ext v) < readable b p
      → length acc < fix_max_field_number
      → (is_checksum ext tag_type t ≡ false)
        × (is_seq_num ext tag_type t ≡ false)
        × ((g : Field ℕ D) × (stored ext tag_type (field_of ext tag_type t b tag p) acc
              ≡ some (acc ++ (g ∷ [])))
            × (g.tag ≡ tag)
            × SameValue b.bytes v g.value)
  stored_value t b tag p (int_value n) acc (e, word) h short spare =
      rw (e, lt→ltb _ _ spare)
        (
          refl,
          refl,
          (
            _,
            refl,
            refl,
            fix_atoi64-Shows (readable b p) b.bytes p soh n _
                (i64_text-Shows ext.sprintf n law word) word h refl short,
          ),
        )
  stored_value t b tag p (char_value c) acc (e, byte, ne) h short spare =
      rw (e, lt→ltb _ _ spare) (refl, refl, (_, refl, refl, h.0))
  stored_value t b tag p (string_value cs) acc (e, ok') h short spare =
      rw (e, lt→ltb _ _ spare) (refl, refl, (_, refl, refl, h))
  stored_value t b tag p (float_value x) acc bad h short spare = elim bad [ ]
  stored_value t b tag p (checksum_value n) acc bad h short spare = elim bad [ ]
  stored_value t b tag p no_value acc bad h short spare = elim bad [ ]
  stored_value t b tag p (string_8_value cs) acc bad h short spare = elim bad [ ]
