-- ===== src/OrderBook.antt =====
-- lib/order_book.c and include/libtrading/order_book.h: the price levels of the two sides of a book.
-- The hash tables, trees and lists are GLib's, and parameters.
pub mod Containers
pub mod Spec
pub mod Invariant
pub mod Implements
pub mod Deleting
pub mod Modifying
pub mod Refinement
pub mod Tests
use libtrading.Base.{
  ℕ, ◌%◌, ◌^◌, Bool, true, false, List, [], ltb, leb, ◌==◌, if◌then◌else◌, Option, none, some,
}
use libtrading.OrderBook.Containers.{Glib, Compare, less, greater, same}

-- `struct ob_level`
pub record Level : Type 0 where
  pub seq_num : ℕ
  pub price : ℕ
  pub size : ℕ

-- `struct ob_order`
pub record Order : Type 0 where
  pub seq_num : ℕ
  pub price : ℕ
  pub size : ℕ
  pub buy : Bool

-- The table, the tree and the list of one side; they share pointers to levels.
pub record Side (g : Glib) : Type 0 where
  pub hash : g.Hash
  pub tree : g.Tree
  pub list : List ℕ

-- `struct order_book`, with the memory that its pointers lead to.
pub record OrderBook (g : Glib) : Type 0 where
  pub heap : ℕ → Level
  pub bids : Side g
  pub asks : Side g

-- On the keys of the tree, that are cut to an unsigned int.
abbrev pub g_uint_compare : ℕ → ℕ → Compare
g_uint_compare pa pb =
    if ltb (pa % 2 ^ 32) (pb % 2 ^ 32)
    then less
    else if ltb (pb % 2 ^ 32) (pa % 2 ^ 32)
    then greater
    else same

abbrev pub g_level_compare : (ℕ → Level) → ℕ → ℕ → Compare
g_level_compare heap pa pb =
    if ltb (heap pa).price (heap pb).price
    then less
    else if ltb (heap pb).price (heap pa).price
    then greater
    else same

-- A store through a pointer to a level.
abbrev pub store_level : (ℕ → Level) → ℕ → Level → ℕ → Level
store_level heap a level b = if a == b then level else heap b

-- The level that a pointer leads to.
abbrev pub deref : (ℕ → Level) → Option ℕ → Option Level
deref heap none = none
deref heap (some a) = some (heap a)

abbrev pub level_of : Order → Level
level_of o = record { seq_num = o.seq_num; price = o.price; size = o.size }

module _ {g : Glib} where
  abbrev pub side_of : OrderBook g → Bool → Side g
  side_of ob true = ob.bids
  side_of ob false = ob.asks

  abbrev pub with_side : OrderBook g → Bool → Side g → OrderBook g
  with_side ob true s = record ob { bids = s }
  with_side ob false s = record ob { asks = s }

  abbrev empty_side : Side g
  empty_side = record { hash = g.g_hash_table_new; tree = g.g_tree_new g_uint_compare; list = [] }

  -- GLib returns no null table and no null tree, so this does not fail.
  abbrev pub ob_init : OrderBook g → Bool × OrderBook g
  ob_init ob = (true, record ob { bids = empty_side; asks = empty_side })

  -- ob_fini in front of it frees what the book has, and changes no pointer in it.
  unfoldable pub ob_clear : OrderBook g → Bool × OrderBook g
  ob_clear ob = ob_init ob

  unfoldable pub ob_level_lookup : OrderBook g → Order → Option Level
  ob_level_lookup ob order =
      deref ob.heap (g.g_hash_table_lookup (side_of ob order.buy).hash order.price)

  -- A new level at the pointer `a` that calloc returns, in all three containers.
  abbrev pub add_level : OrderBook g → Order → ℕ → OrderBook g
  add_level ob order a =
      let heap' = store_level ob.heap a (level_of order) in
      let s = side_of ob order.buy in
      with_side (record ob { heap = heap' }) order.buy
        (record {
          hash = g.g_hash_table_insert s.hash order.price a;
          tree = g.g_tree_insert s.tree order.price a;
          list = g.g_list_insert_sorted s.list a (g_level_compare heap');
        })

  abbrev pub update_level : OrderBook g → Order → ℕ → OrderBook g
  update_level ob order a = record ob {
    heap =
        store_level ob.heap a (record (ob.heap a) { seq_num = order.seq_num; size = order.size });
  }

  -- The two branches, on what the hash table says and on what calloc would return.
  abbrev pub modify_found : Option ℕ → Option ℕ → OrderBook g → Order → Bool × OrderBook g
  modify_found none none ob order = (false, ob)
  modify_found none (some a) ob order = (true, add_level ob order a)
  modify_found (some a) _ ob order =
      if leb order.seq_num (ob.heap a).seq_num then (false, ob) else (true, update_level ob order a)

  unfoldable pub ob_level_modify : Option ℕ → OrderBook g → Order → Bool × OrderBook g
  ob_level_modify calloc ob order =
      modify_found (g.g_hash_table_lookup (side_of ob order.buy).hash order.price) calloc ob order

  -- The table frees the level that it removes; the tree and the list hold its pointer until their own
  -- removal, and do not follow it.
  abbrev pub remove_level : OrderBook g → Order → ℕ → Bool × OrderBook g
  remove_level ob order a =
      let s = side_of ob order.buy in
      let (in_hash, hash') = g.g_hash_table_remove s.hash order.price in
      let (in_tree, tree') = g.g_tree_remove s.tree order.price in
      if in_hash
      then (if in_tree
          then (
            true,
            with_side ob order.buy
                (record { hash = hash'; tree = tree'; list = g.g_list_remove s.list a }),
          )
          else (false, with_side ob order.buy (record s { hash = hash'; tree = tree' })))
      else (false, with_side ob order.buy (record s { hash = hash' }))

  abbrev pub delete_found : Option ℕ → OrderBook g → Order → Bool × OrderBook g
  delete_found none ob order = (true, ob)
  delete_found (some a) ob order = remove_level ob order a

  unfoldable pub ob_level_delete : OrderBook g → Order → Bool × OrderBook g
  ob_level_delete ob order =
      delete_found (g.g_hash_table_lookup (side_of ob order.buy).hash order.price) ob order
