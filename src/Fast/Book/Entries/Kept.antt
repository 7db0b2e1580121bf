-- ===== src/Fast/Book/Entries/Kept.antt =====
-- What md_snapshot of lib/proto/fast_book.c leaves of the levels of a book.
use libtrading.Base.{
  ℕ, ◌^◌, ◌<◌, ◌≡◌, refl, sym, ap, ◌∙◌, Bool, Option, none, some, leb, Bool-cases, inl, inr,
}
use libtrading.Fast.Decimal.{Decimal}
use libtrading.Fast.Book.Entries.{
  Book, Entry, Place, side, no_level, unknown, present, place, md_entry_type, entry_order,
  snapshot_at, check_level, compare_order, md_snapshot,
}
use libtrading.OrderBook.Containers.{Glib, HashLaws, TreeLaws}
use libtrading.OrderBook.{Level, Order, OrderBook, g_uint_compare, ob_level_lookup, ob_level_modify}
use libtrading.OrderBook.Spec.{Levels, modify}
use libtrading.OrderBook.Invariant.{levels, hit, hit→, IsBook, IsFresh}
use libtrading.OrderBook.Implements.{Implements}
use libtrading.OrderBook.Refinement.{ob_level_modify-modify}

-- The orders that are read from an entry have prices that fit an unsigned int.
abbrev pub Fits : Decimal → ℕ → Entry → Type 0
Fits tick seq_num msg =
    (buy : Bool) (o : Order) → entry_order tick seq_num buy msg ≡ some o → o.price < 2 ^ 32

module _ {g : Glib} (t : TreeLaws g g_uint_compare) where
  -- A well-formed book that has every level of the other.
  abbrev pub Keeps : OrderBook g → OrderBook g → Type 0
  Keeps ob ob' =
      IsBook t ob'
      × ((b : Bool) (k : ℕ) (l : Level) → levels ob b k ≡ some l → levels ob' b k ≡ some l)

none_ne_some : (x : Option Level) (l : Level) → x ≡ none → x ≡ some l → ⊥
none_ne_some x l e f = cc

modify-kept :
    (v : Levels) (o : Order) (b : Bool) (k : ℕ) (l : Level)
    → v o.buy o.price ≡ none
    → v b k ≡ some l
    → (modify v o).1 b k ≡ some l
modify-kept v o b k l nothing e = elim (Bool-cases (hit o b k)) [
  | inl here ↦
      let (side_same, price_same) = hit→ o b k here in
      absurd (
        none_ne_some (v b k) l
          (sym (ap (λ (c : Bool). v c k) side_same) ∙ sym (ap (v o.buy) price_same) ∙ nothing) e)
  | inr elsewhere ↦ rw (nothing, elsewhere) e
]

module _ {g : Glib} (h : HashLaws g) (t : TreeLaws g g_uint_compare) (a : ℕ) where
  Keeps-ob_level_modify :
      (ob : OrderBook g) (o : Order)
      → IsBook t ob
      → IsFresh ob a
      → o.price < 2 ^ 32
      → levels ob o.buy o.price ≡ none
      → Keeps t ob (ob_level_modify (some a) ob o).1
  unfolding ob_level_lookup
  Keeps-ob_level_modify ob o w fresh small nothing = (made.well_formed, kept)
    where
      made : Implements t (modify (levels ob) o) (ob_level_modify (some a) ob o)
      made = ob_level_modify-modify h t ob o a w fresh small

      kept :
          (b : Bool) (k : ℕ) (l : Level)
          → levels ob b k ≡ some l
          → levels (ob_level_modify (some a) ob o).1 b k ≡ some l
      kept b k l e =
          made.view (record { seq_num = 0; price = k; size = 0; buy = b })
          ∙ modify-kept (levels ob) o b k l nothing e

  Keeps-compare_order :
      (book : Book g) (x : Option Order)
      → IsBook t book.ob
      → IsFresh book.ob a
      → ((o : Order) → x ≡ some o → o.price < 2 ^ 32)
      → Keeps t book.ob (compare_order (some a) book x).1.ob
  unfolding ob_level_lookup
  Keeps-compare_order book none w fresh small = (w, λ b k l e. e)
  Keeps-compare_order book (some o) w fresh small = by_level (levels book.ob o.buy o.price) refl
    where
      by_level :
          (x : Option Level)
          → levels book.ob o.buy o.price ≡ x
          → Keeps t book.ob (check_level (some a) book o x).1.ob
      by_level none e = Keeps-ob_level_modify book.ob o w fresh (small o refl) e
      by_level (some l) e = elim (Bool-cases (leb l.seq_num book.snpseq)) [
        | inl known ↦ rw known (w, λ b k l e. e)
        | inr later ↦ rw later (w, λ b k l e. e)
      ]

-- With containers that do what their documentation says, a pointer from calloc that is not in use and
-- prices that fit an unsigned int, md_snapshot on any entry leaves a well-formed book well formed, and every
-- level that is in the book as it is: a snapshot never overrides what the increments have made.
pub md_snapshot-Keeps :
    {g : Glib} (h : HashLaws g) (t : TreeLaws g g_uint_compare) (a : ℕ) (book : Book g)
    (msg : Entry)
    → IsBook t book.ob
    → IsFresh book.ob a
    → Fits book.tick book.snpseq msg
    → Keeps t book.ob (md_snapshot (some a) book msg).1.ob
unfolding md_snapshot
md_snapshot-Keeps h t a book msg w fresh fits = by_place (place (present (msg md_entry_type)))
  where
    by_place : (p : Place) → Keeps t book.ob (snapshot_at (some a) book msg p).1.ob
    by_place (side buy) = Keeps-compare_order h t a book _ w fresh (fits buy)
    by_place no_level = (w, λ b k l e. e)
    by_place unknown = (w, λ b k l e. e)
