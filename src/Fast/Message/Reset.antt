-- ===== src/Fast/Message/Reset.antt =====
-- fast_message_reset of lib/proto/fast_message.c.
use libtrading.Base.{ℕ, List, [], ◌∷◌, if◌then◌else◌, ltb}
use libtrading.Buffer.{write_at}
use libtrading.Fast.Field.{Field}
use libtrading.Fast.Text.{Chars, copy_text}
use libtrading.Fast.Decimal.{Decimal}
use libtrading.Fast.Message.{Item, int, uint, string, vector, decimal, sequence, Sequence, Message}

abbrev pub reset_number : Field ℕ → Field ℕ
reset_number f =
    if f.has_reset
    then record f { value = f.reset; previous = f.reset }
    else record f { value = 0; previous = 0 }

abbrev pub reset_string : Field Chars → Field Chars
reset_string f =
    if f.has_reset
    then record f { value = copy_text f.value f.reset; previous = copy_text f.previous f.reset }
    else record f { value = write_at f.value 0 0; previous = write_at f.previous 0 0 }

-- `memset(…, 0, sizeof(u64))`
abbrev pub cleared : Chars → Chars
cleared s i = if ltb i 8 then 0 else s i

abbrev pub reset_vector : Field Chars → Field Chars
reset_vector f =
    if f.has_reset
    then record f { value = f.reset; previous = f.reset }
    else record f { value = cleared f.value; previous = cleared f.previous }

abbrev pub nought : Decimal
nought = record { exp = 0; mnt = 0 }

abbrev pub reset_decimal : Field Decimal → Field Decimal
reset_decimal f =
    if f.has_reset
    then record f { value = f.reset; previous = f.reset }
    else record f { value = nought; previous = nought }

-- The `switch (field->type)`.
abbrev pub reset_item : {S : Type 0} → (S → S) → Item S → Item S
reset_item reset_sequence (int f) = int (reset_number f)
reset_item reset_sequence (uint f) = uint (reset_number f)
reset_item reset_sequence (string unicode f) = string unicode (reset_string f)
reset_item reset_sequence (vector f) = vector (reset_vector f)
reset_item reset_sequence (decimal f) = decimal (record f { field = reset_decimal f.field })
reset_item reset_sequence (sequence s) = sequence (reset_sequence s)

abbrev pub reset_items : {S : Type 0} → (S → S) → List (Item S) → List (Item S)
reset_items reset_sequence [] = []
reset_items reset_sequence (f ∷ fs) = reset_item reset_sequence f ∷ reset_items reset_sequence fs

-- `fast_message_reset(seq->elements)`
abbrev pub reset_first : Sequence → Sequence
reset_first s = record s {
  first = record (s.first) { fields = reset_items (λ (u : Unit {0}). u) s.first.fields };
}

unfoldable pub fast_message_reset : Message → Message
fast_message_reset m = record m { fields = reset_items reset_first m.fields }
