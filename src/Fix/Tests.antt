-- ===== src/Fix/Tests.antt =====
-- The theorems on numbers, message types and fields at concrete ones.
use libtrading.Base.{ℕ, ◌-◌, ◌^◌, ◌≡◌, ◌≢◌, refl, List, [], ◌∷◌, arith, get_or}
use libtrading.Buffer.{Buffer, buffer_remaining}
use libtrading.Buffer.Contents.{Holds}
use libtrading.Itoa.{i64toa, itoa, uitoa, uilog_10}
use libtrading.Itoa.Digits.{decimal}
use libtrading.Itoa.Tests.{twenty_digits, twenty_digits-PrintsNumbers, twenty_digits-small}
use libtrading.Fix.Scan.{soh, fix_atoi64}
use libtrading.Fix.Scan.Numbers.{fix_atoi64-i64toa}
use libtrading.Fix.Kind.{
  unknown, order_mass_status_request, fix_msg_type_parse, fix_msg_type_parse-fix_msg_types,
}
use libtrading.Fix.Message.Conveyed.{known-ne}
use libtrading.Fix.Field.{Field, Externals, int_value, fix_field_unparse}
use libtrading.Fix.Field.Written.{Appends, field_text, fix_field_unparse-Appends}

-- -12, and a SOH behind it.
abbrev minus_twelve : ℕ → ℕ
minus_twelve i = get_or (b'-' ∷ b'1' ∷ b'2' ∷ soh ∷ []) i 0

abbrev blank : ℕ → ℕ
blank i = 0

fix_atoi64-i64toa_example : (fix_atoi64 4 minus_twelve 0).0 ≡ 2 ^ 64 - 12
unfolding i64toa itoa uitoa
fix_atoi64-i64toa_example =
    fix_atoi64-i64toa twenty_digits (2 ^ 64 - 12) soh 4 0 blank minus_twelve 0
      twenty_digits-PrintsNumbers (twenty_digits-small (2 ^ 64 - 12)) (omega arith) refl
      (omega arith) (refl, (refl, (refl, (refl, tt))))

abbrev status_request : ℕ → ℕ
status_request i = get_or (b'A' ∷ b'F' ∷ soh ∷ []) i 0

status_request-ne : order_mass_status_request ≢ unknown
status_request-ne = known-ne order_mass_status_request refl

fix_msg_type_parse-fix_msg_types_example :
    fix_msg_type_parse status_request 0 soh ≡ order_mass_status_request
fix_msg_type_parse-fix_msg_types_example =
    fix_msg_type_parse-fix_msg_types order_mass_status_request status_request 0 status_request-ne
      (refl, (refl, (refl, tt)))

abbrev pub no_doubles : Externals ℕ
no_doubles = record { sprintf = twenty_digits; modp_dtoa2 = λ x. decimal x; strtod = λ f p. 0 }

abbrev hundred : Field (List ℕ) ℕ
hundred = record { tag = 7; value = int_value 100 }

abbrev empty : Buffer
empty = record { start = 0; end = 0; capacity = 64; bytes = blank }

empty-Holds : Holds empty []
empty-Holds = record {
  valid = record { ordered = omega arith; bounded = omega arith; addressable = omega arith };
  reads = refl;
}

fix_field_unparse-Appends_example :
    Appends empty [] (field_text no_doubles hundred) (fix_field_unparse no_doubles hundred empty)
unfolding uilog_10 buffer_remaining
fix_field_unparse-Appends_example =
    fix_field_unparse-Appends no_doubles hundred empty [] empty-Holds
      (omega arith, (omega arith, twenty_digits-small 100)) (omega arith)
