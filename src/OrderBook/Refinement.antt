-- ===== src/OrderBook/Refinement.antt =====
-- ob_clear, ob_level_modify and ob_level_delete of lib/order_book.c against Spec, as ob_level_lookup
-- sees them.
use libtrading.Base.{
  ℕ, ◌^◌, ◌<◌, ◌≡◌, ◌≢◌, refl, sym, ap, ◌∙◌, Bool, true, false, Option, none, some, leb, Bool-cases,
  inl, inr,
}
use libtrading.OrderBook.Containers.{Glib, HashLaws, TreeLaws}
use libtrading.OrderBook.{
  Order, OrderBook, g_uint_compare, side_of, deref, modify_found, delete_found, ob_clear,
  ob_level_lookup, ob_level_modify, ob_level_delete,
}
use libtrading.OrderBook.Spec.{modified, modify, delete}
use libtrading.OrderBook.Invariant.{find, tree_find, levels, IsBook, IsFresh}
use libtrading.OrderBook.Implements.{Implements, seen}
use libtrading.OrderBook.Deleting.{remove_level-Implements, nothing-Implements}
use libtrading.OrderBook.Modifying.{add_level-Implements, update_level-Implements}

-- With containers that do what their documentation says, and a pointer from calloc that is not in use,
-- ob_level_modify on a well-formed book does what the specification says for an order whose
-- price fits an unsigned int: it refuses an order that is not later than the level at its side and
-- price and leaves the view as it is; else it succeeds, the level there is the order's, and the
-- levels at all other places stay. The book is well formed again.
pub ob_level_modify-modify :
    {g : Glib} (h : HashLaws g) (t : TreeLaws g g_uint_compare) (ob : OrderBook g) (o : Order)
    (a : ℕ)
    → IsBook t ob
    → IsFresh ob a
    → o.price < 2 ^ 32
    → Implements t (modify (levels ob) o) (ob_level_modify (some a) ob o)
unfolding ob_level_modify
ob_level_modify-modify {g} h t ob o a w fresh small = by_table (find ob o.buy o.price) refl
  where
    by_table :
        (x : Option ℕ)
        → find ob o.buy o.price ≡ x
        → Implements t (modified (deref ob.heap x) (levels ob) o) (modify_found x (some a) ob o)
    by_table none e = add_level-Implements h t ob o a w fresh small e
    by_table (some c) e = elim (Bool-cases (leb o.seq_num (ob.heap c).seq_num)) [
      | inl late ↦
          rw late (record { answer = refl; view = seen _ _ (λ b k. refl); well_formed = w })
      | inr later ↦ rw later (update_level-Implements h t ob o c w e)
    ]

-- With containers that do what their documentation says, ob_level_delete on a well-formed book
-- succeeds for an order whose price fits an unsigned int: there is no level at its side and price
-- behind it, whether there was one or not, the levels at all other places stay, and the book
-- is well formed again.
pub ob_level_delete-delete :
    {g : Glib} (h : HashLaws g) (t : TreeLaws g g_uint_compare) (ob : OrderBook g) (o : Order)
    → IsBook t ob
    → o.price < 2 ^ 32
    → Implements t (delete (levels ob) o) (ob_level_delete ob o)
unfolding ob_level_delete
ob_level_delete-delete {g} h t ob o w small = by_table (find ob o.buy o.price) refl
  where
    by_table :
        (x : Option ℕ)
        → find ob o.buy o.price ≡ x
        → Implements t (delete (levels ob) o) (delete_found x ob o)
    by_table none e = nothing-Implements h t ob o w e
    by_table (some a) e = remove_level-Implements h t ob o a w small e

-- With containers that do what their documentation says, ob_clear succeeds and leaves a well-formed book in which
-- ob_level_lookup finds no level.
pub ob_clear-IsBook :
    {g : Glib} (h : HashLaws g) (t : TreeLaws g g_uint_compare) (ob : OrderBook g)
    → IsBook t (ob_clear ob).1 × ((q : Order) → ob_level_lookup (ob_clear ob).1 q ≡ none)
unfolding ob_clear
ob_clear-IsBook {g} h t ob = (
  record {
    priced = λ b k a e. absurd (nothing b k a e);
    apart = λ b c k j a e f. absurd (nothing b k a e);
    made = made;
    in_tree = agree;
  },
  seen _ (λ _ _. none) (λ b k. ap (deref ob.heap) (unfound b k)),
)
  where
    unfound : (b : Bool) (k : ℕ) → find (ob_clear ob).1 b k ≡ none
    unfound true k = h.lookup-new k
    unfound false k = h.lookup-new k

    nothing : (b : Bool) (k a : ℕ) → find (ob_clear ob).1 b k ≡ some a → ⊥
    nothing b k a e = none_ne_some (sym (unfound b k) ∙ e)
      where
        none_ne_some : {i : ℕ} → none ≢ some i
        none_ne_some e' = cc

    made : (b : Bool) → t.Made (side_of (ob_clear ob).1 b).tree
    made true = t.new-Made
    made false = t.new-Made

    agree :
        (b : Bool) (k : ℕ) → k < 2 ^ 32 → tree_find (ob_clear ob).1 b k ≡ find (ob_clear ob).1 b k
    agree true k fits = t.lookup-new k ∙ sym (h.lookup-new k)
    agree false k fits = t.lookup-new k ∙ sym (h.lookup-new k)
