-- ===== src/Fast/Book/Entries/Increments.antt =====
-- What md_increment of lib/proto/fast_book.c makes of the levels of a book.
use libtrading.Base.{ℕ, Bool, true, false, Option, none, some, ◌==◌, ◌||◌, if◌then◌else◌}
use libtrading.Fast.Book.Entries.{
  Book, Entry, EntryField, Place, side, no_level, unknown, present, md_update_action, entry_order,
  book_has_flags,
}
use libtrading.OrderBook.Containers.{Glib}
use libtrading.OrderBook.{Order, OrderBook}
use libtrading.OrderBook.Spec.{Levels, modify, delete}
use libtrading.OrderBook.Invariant.{levels}
use libtrading.OrderBook.Implements.{Implements}

-- An order of size 0.
abbrev pub emptied : Order → Order
emptied o = record o { size = 0 }

-- New and changed levels are set, and removed ones go from a book that is active; a book that is still waiting
-- for its snapshot keeps them with size 0, so that the snapshot does not bring them back.
abbrev pub update : Bool → Levels → Order → ℕ → Bool × Levels
update active v o action =
    if action == 0 || action == 1
    then modify v o
    else if action == 2
    then (if active then delete v o else modify v (emptied o))
    else (false, v)

abbrev pub updated : Bool → Levels → Option Order → Option EntryField → Bool × Levels
updated active v (some o) (some f) = update active v o f.uint_value
updated active v (some o) none = (false, v)
updated active v none f = (false, v)

module _ {g : Glib} where
  abbrev pub increment : Book g → Entry → Place → Bool × Levels
  increment book msg (side buy) =
      updated (book_has_flags book 2) (levels book.ob) (entry_order book.tick book.rptseq buy msg)
        (present (msg md_update_action))
  increment book msg no_level = (true, levels book.ob)
  increment book msg unknown = (false, levels book.ob)

  -- The result, and the levels of the book behind it.
  abbrev pub outcome : Bool × Book g → Bool × OrderBook g
  outcome r = (r.0, r.1.ob)
