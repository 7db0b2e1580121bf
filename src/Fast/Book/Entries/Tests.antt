-- ===== src/Fast/Book/Entries/Tests.antt =====
-- Entries that are applied to an empty book.
use libtrading.Base.{ℕ, ◌≡◌, refl, ap, false, Option, none, some, arith}
use libtrading.Fast.Field.{assigned}
use libtrading.Fast.Decimal.{Decimal}
use libtrading.Fast.Book.{price_align}
use libtrading.Fast.Book.Entries.{
  FastType, int, uint, string, decimal, EntryField, md_entry_type, md_entry_size, md_entry_px,
  md_update_action, Entry, Book, md_increment, md_snapshot,
}
use libtrading.Fast.Book.Entries.Kept.{Fits, Keeps, md_snapshot-Keeps}
use libtrading.OrderBook.{Order, ob_clear, ob_level_lookup, ob_level_modify}
use libtrading.OrderBook.Invariant.{levels}
use libtrading.OrderBook.Implements.{Implements}
use libtrading.OrderBook.Refinement.{ob_clear-IsBook}
use libtrading.OrderBook.Tests.{maps, maps-HashLaws, maps-TreeLaws, new_book, new_book-IsFresh}

abbrev amount : ℕ → Decimal
amount n = record { exp = 0; mnt = n }

abbrev value : FastType → ℕ → EntryField
value type n = record {
  type = type;
  state = assigned;
  int_value = n;
  uint_value = n;
  string_value = λ _. n;
  decimal_value = amount n;
}

-- An offer of 10 at 99.
abbrev offer : Entry
offer md_entry_type = some (value string 49)
offer md_entry_size = some (value int 10)
offer md_entry_px = some (value decimal 99)
offer md_update_action = some (value uint 0)

abbrev empty_book : Book maps
empty_book = record { tick = amount 1; ob = new_book; rptseq = 5; snpseq = 4; flags = 8 }

incremented :
    levels (md_increment (some 1) empty_book offer).1.ob false 99
    ≡ some (record { seq_num = 5; price = 99; size = 10 })
unfolding md_increment ob_level_modify price_align ob_clear
incremented = refl

refused : (md_increment (some 1) empty_book (λ _. none)).0 ≡ false
unfolding md_increment
refused = refl

taken :
    levels (md_snapshot (some 1) empty_book offer).1.ob false 99
    ≡ some (record { seq_num = 4; price = 99; size = 10 })
unfolding md_snapshot ob_level_lookup ob_level_modify price_align ob_clear
taken = refl

abbrev price_of : Option Order → ℕ
price_of none = 0
price_of (some o) = o.price

offer-Fits : Fits (amount 1) 4 offer
unfolding price_align
offer-Fits buy o e = omega (arith, ap price_of e)

md_snapshot-Keeps_example :
    Keeps maps-TreeLaws new_book (md_snapshot (some 1) empty_book offer).1.ob
md_snapshot-Keeps_example =
    md_snapshot-Keeps maps-HashLaws maps-TreeLaws 1 empty_book offer
      (ob_clear-IsBook maps-HashLaws maps-TreeLaws _).0 new_book-IsFresh offer-Fits
