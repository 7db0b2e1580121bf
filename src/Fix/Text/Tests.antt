-- ===== src/Fix/Text/Tests.antt =====
-- fix_get_string on a value of two characters.
use libtrading.Base.{ℕ, refl, List, [], ◌∷◌, arith, get_or}
use libtrading.Itoa.{Memory}
use libtrading.Fix.Scan.{soh}
use libtrading.Fix.Text.{fix_get_string}
use libtrading.Fix.Text.Copied.{Copies, fix_get_string-Copies}

abbrev ok_text : List ℕ
ok_text = b'O' ∷ b'K' ∷ []

abbrev parsed : Memory
parsed i = get_or (b'O' ∷ b'K' ∷ soh ∷ []) i 0

abbrev blank : Memory
blank i = 7

fix_get_string-Copies_example : Copies blank 4 8 ok_text (fix_get_string parsed 0 blank 4 8)
fix_get_string-Copies_example =
    fix_get_string-Copies parsed blank 0 4 8 ok_text (refl, (refl, (refl, tt)))
      (omega arith, (omega arith, tt)) (omega arith, (omega arith, tt))
      (omega arith, (omega arith, tt))
