-- ===== src/OrderBook/Tests.antt =====
-- Containers that do what GLib documents, and the refinement theorems on a book with two levels.
use libtrading.Base.{
  ℕ, ◌≡◌, ◌≢◌, refl, ap, ◌∙◌, true, false, List, [], ◌∷◌, ◌==◌, if◌then◌else◌, Option, none, some,
  ==_iff, ne→==, arith,
}
use libtrading.OrderBook.Containers.{
  Glib, Compare, less, same, greater, HashLaws, TreeLaws, is_found,
}
use libtrading.OrderBook.{
  Level, Order, OrderBook, g_uint_compare, ob_clear, ob_level_modify, ob_level_delete,
}
use libtrading.OrderBook.Spec.{modify, delete}
use libtrading.OrderBook.Invariant.{IsFresh, levels}
use libtrading.OrderBook.Implements.{Implements}
use libtrading.OrderBook.Refinement.{
  ob_clear-IsBook, ob_level_modify-modify, ob_level_delete-delete,
}

abbrev if_same {ℓ} : {A : Type ℓ} → Compare → A → A → A
if_same same x y = x
if_same less x y = y
if_same greater x y = y

abbrev insert_sorted : List ℕ → ℕ → (ℕ → ℕ → Compare) → List ℕ
insert_sorted [] a f = a ∷ []
insert_sorted (b ∷ bs) a f = put_in (f a b) (insert_sorted bs a f)
  where
    put_in : Compare → List ℕ → List ℕ
    put_in less rest = a ∷ b ∷ bs
    put_in same rest = a ∷ b ∷ bs
    put_in greater rest = b ∷ rest

abbrev remove : List ℕ → ℕ → List ℕ
remove [] a = []
remove (b ∷ bs) a = if a == b then bs else b ∷ remove bs a

-- Tables and trees as functions.
abbrev pub maps : Glib
maps = record {
  Hash = ℕ → Option ℕ;
  g_hash_table_new = λ _. none;
  g_hash_table_lookup = λ m k. m k;
  g_hash_table_insert = λ m k a j. if k == j then some a else m j;
  g_hash_table_remove = λ m k. (is_found (m k), λ j. if k == j then none else m j);
  Tree = (ℕ → ℕ → Compare) × (ℕ → Option ℕ);
  g_tree_new = λ f. (f, λ _. none);
  g_tree_lookup = λ t k. t.1 k;
  g_tree_insert = λ t k a. (t.0, λ j. if_same (t.0 k j) (some a) (t.1 j));
  g_tree_remove = λ t k. (is_found (t.1 k), (t.0, λ j. if_same (t.0 k j) none (t.1 j)));
  g_list_insert_sorted = insert_sorted;
  g_list_remove = remove;
}

pub maps-HashLaws : HashLaws maps
maps-HashLaws = record {
  lookup-new = λ k. refl;
  lookup-insert = λ t k a. rw ((==_iff k k).1 refl) refl;
  lookup-insert_ne = λ t k a j ne. rw (ne→== k j ne) refl;
  remove_lem = λ t k. refl;
  lookup-remove = λ t k. rw ((==_iff k k).1 refl) refl;
  lookup-remove_ne = λ t k j ne. rw (ne→== k j ne) refl;
}

if_same_ne : (c : Compare) (x y : Option ℕ) → c ≢ same → if_same c x y ≡ y
if_same_ne less x y ne = refl
if_same_ne same x y ne = absurd (ne refl)
if_same_ne greater x y ne = refl

module _ (f : ℕ → ℕ → Compare) where
  at_same :
      (c : ℕ → ℕ → Compare) (k j : ℕ) (x y : Option ℕ)
      → c ≡ f
      → f k j ≡ same
      → if_same (c k j) x y ≡ x
  at_same c k j x y e s =
      ap (λ (d : ℕ → ℕ → Compare). if_same (d k j) x y) e ∙ ap (λ (d : Compare). if_same d x y) s

  at_other :
      (c : ℕ → ℕ → Compare) (k j : ℕ) (x y : Option ℕ)
      → c ≡ f
      → f k j ≢ same
      → if_same (c k j) x y ≡ y
  at_other c k j x y e ne =
      ap (λ (d : ℕ → ℕ → Compare). if_same (d k j) x y) e ∙ if_same_ne (f k j) x y ne

pub maps-TreeLaws : TreeLaws maps g_uint_compare
maps-TreeLaws = record {
  Made = λ t. t.0 ≡ g_uint_compare;
  new-Made = refl;
  insert-Made = λ t k a m. m;
  remove-Made = λ t k m. m;
  lookup-new = λ k. refl;
  lookup-insert = λ t k a j m s. at_same g_uint_compare t.0 k j (some a) (t.1 j) m s;
  lookup-insert_ne = λ t k a j m ne. at_other g_uint_compare t.0 k j (some a) (t.1 j) m ne;
  remove_lem = λ t k m. refl;
  lookup-remove = λ t k j m s. at_same g_uint_compare t.0 k j none (t.1 j) m s;
  lookup-remove_ne = λ t k j m ne. at_other g_uint_compare t.0 k j none (t.1 j) m ne;
}

abbrev pub zeroed : Level
zeroed = record { seq_num = 0; price = 0; size = 0 }

abbrev pub new_book : OrderBook maps
new_book =
    (ob_clear (record {
      heap = λ _. zeroed;
      bids = record { hash = λ _. none; tree = (g_uint_compare, λ _. none); list = [] };
      asks = record { hash = λ _. none; tree = (g_uint_compare, λ _. none); list = [] };
    })).1

-- Ten to buy at 99.
abbrev pub bid : Order
bid = record { seq_num = 7; price = 99; size = 10; buy = true }

pub new_book-IsFresh : IsFresh new_book 1
unfolding ob_clear
new_book-IsFresh true k e = cc
new_book-IsFresh false k e = cc

abbrev pub one_level : OrderBook maps
one_level = (ob_level_modify (some 1) new_book bid).1

ob_level_modify-modify_example :
    Implements maps-TreeLaws (modify (levels new_book) bid) (ob_level_modify (some 1) new_book bid)
ob_level_modify-modify_example =
    ob_level_modify-modify maps-HashLaws maps-TreeLaws new_book bid 1
      (ob_clear-IsBook maps-HashLaws maps-TreeLaws _).0 new_book-IsFresh (omega arith)

ob_level_delete-delete_example :
    Implements maps-TreeLaws (delete (levels one_level) bid) (ob_level_delete one_level bid)
ob_level_delete-delete_example =
    ob_level_delete-delete maps-HashLaws maps-TreeLaws one_level bid
      (ob_level_modify-modify maps-HashLaws maps-TreeLaws new_book bid 1
        (ob_clear-IsBook maps-HashLaws maps-TreeLaws _).0 new_book-IsFresh
        (omega arith)).well_formed
      (omega arith)
