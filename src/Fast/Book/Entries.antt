-- ===== src/Fast/Book/Entries.antt =====
-- `struct fast_book` of include/libtrading/proto/fast_book.h, and md_increment and md_snapshot of
-- lib/proto/fast_book.c, which apply an entry of a message to a book.
pub mod Kept
pub mod Increments
mod Tests
use libtrading.Base.{
  ℕ, Bool, true, false, not, Option, none, some, ltb, leb, ◌==◌, if◌then◌else◌, bit_and, bit_or,
}
use libtrading.Fast.Field.{State, is_empty}
use libtrading.Fast.Text.{Chars}
use libtrading.Fast.Decimal.{Decimal}
use libtrading.Fast.Book.{decimal_to_int, price_align}
use libtrading.OrderBook.Containers.{Glib}
use libtrading.OrderBook.{
  Level, Order, OrderBook, ob_level_lookup, ob_level_modify, ob_level_delete,
}

-- `enum fast_type`
pub data FastType : Type 0 where
  int uint string vector decimal sequence : FastType

-- A field as it is read here, with the members of the union each as it would be read.
pub record EntryField : Type 0 where
  pub type : FastType
  pub state : State
  pub int_value : ℕ
  pub uint_value : ℕ
  pub string_value : Chars
  pub decimal_value : Decimal

-- The names that are looked for in an entry.
pub data Name : Type 0 where
  md_entry_type md_entry_size md_entry_px md_update_action : Name

-- fast_get_field on the table of an entry.
abbrev pub Entry : Type 0
Entry = Name → Option EntryField

-- `struct fast_book`, without what names the book.
pub record Book (g : Glib) : Type 0 where
  pub tick : Decimal
  pub ob : OrderBook g
  pub rptseq : ℕ
  pub snpseq : ℕ
  pub flags : ℕ

-- `!field || field_state_empty(field)` is none.
abbrev pub present : Option EntryField → Option EntryField
present none = none
present (some v) = if is_empty v.state then none else some v

-- What MDEntryType says: a side, that there is no level, or nothing that is known.
pub data Place : Type 0 where
  side : Bool → Place
  no_level unknown : Place

abbrev pub place : Option EntryField → Place
place none = unknown
place (some v) =
    if v.string_value 0 == 48
    then side true
    else if v.string_value 0 == 49
    then side false
    else if v.string_value 0 == 74
    then no_level
    else unknown

abbrev pub entry_size : Option EntryField → Option ℕ
entry_size none = none
entry_size (some v) = elim v.type [
  | int ↦ some v.int_value
  | decimal ↦ decimal_to_int v.decimal_value
  | uint ↦ none
  | string ↦ none
  | vector ↦ none
  | sequence ↦ none
]

abbrev pub entry_price : Decimal → Option EntryField → Option Decimal
entry_price tick none = none
entry_price tick (some v) = price_align v.decimal_value tick

abbrev pub make_order : ℕ → Bool → Option ℕ → Option Decimal → Option Order
make_order seq_num buy none _ = none
make_order seq_num buy (some _) none = none
make_order seq_num buy (some size) (some price) =
    some (record { seq_num = seq_num; price = price.mnt; size = size; buy = buy })

-- The order of an entry, or none where the reading of it fails.
abbrev pub entry_order : Decimal → ℕ → Bool → Entry → Option Order
entry_order tick seq_num buy msg =
    make_order seq_num buy (entry_size (present (msg md_entry_size)))
      (entry_price tick (present (msg md_entry_px)))

module _ {g : Glib} where
  abbrev pub book_add_flags : Book g → ℕ → Book g
  book_add_flags book flags = record book { flags = bit_or book.flags flags }

  abbrev pub book_has_flags : Book g → ℕ → Bool
  book_has_flags book flags = not (bit_and book.flags flags == 0)

  -- 0 or -1, and the book behind.
  abbrev pub with_ob : Book g → Bool × OrderBook g → Bool × Book g
  with_ob book (ok, ob') = (ok, record book { ob = ob' })

  -- By MDUpdateAction.
  abbrev pub apply_action : Option ℕ → Book g → Order → Option EntryField → Bool × Book g
  apply_action calloc book order none = (false, book)
  apply_action calloc book order (some v) =
      if v.uint_value == 0
      then with_ob book (ob_level_modify calloc book.ob order)
      else if v.uint_value == 1
      then with_ob book (ob_level_modify calloc book.ob order)
      else if v.uint_value == 2
      then (if book_has_flags book 2
          then with_ob book (ob_level_delete book.ob order)
          else with_ob book (ob_level_modify calloc book.ob (record order { size = 0 })))
      else (false, book)

  abbrev pub apply_order : Option ℕ → Book g → Option Order → Option EntryField → Bool × Book g
  apply_order calloc book none _ = (false, book)
  apply_order calloc book (some order) action = apply_action calloc book order action

  abbrev pub increment_at : Option ℕ → Book g → Entry → Place → Bool × Book g
  increment_at calloc book msg (side buy) =
      apply_order calloc book (entry_order book.tick book.rptseq buy msg)
        (present (msg md_update_action))
  increment_at calloc book msg no_level = (true, book_add_flags book 4)
  increment_at calloc book msg unknown = (false, book)

  unfoldable pub md_increment : Option ℕ → Book g → Entry → Bool × Book g
  md_increment calloc book msg = increment_at calloc book msg (place (present (msg md_entry_type)))

  -- By the level that is there: it may be later than the snapshot, else it is to have the size.
  abbrev pub check_level : Option ℕ → Book g → Order → Option Level → Bool × Book g
  check_level calloc book order none = with_ob book (ob_level_modify calloc book.ob order)
  check_level calloc book order (some level) =
      if leb level.seq_num book.snpseq
      then (if level.size == order.size then true else false, book)
      else (true, book)

  abbrev pub compare_order : Option ℕ → Book g → Option Order → Bool × Book g
  compare_order calloc book none = (false, book)
  compare_order calloc book (some order) =
      check_level calloc book order (ob_level_lookup book.ob order)

  abbrev pub snapshot_at : Option ℕ → Book g → Entry → Place → Bool × Book g
  snapshot_at calloc book msg (side buy) =
      compare_order calloc book (entry_order book.tick book.snpseq buy msg)
  snapshot_at calloc book msg no_level = (true, book_add_flags book 4)
  snapshot_at calloc book msg unknown = (false, book)

  unfoldable pub md_snapshot : Option ℕ → Book g → Entry → Bool × Book g
  md_snapshot calloc book msg = snapshot_at calloc book msg (place (present (msg md_entry_type)))
