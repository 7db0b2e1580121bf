-- ===== src/OrderBook/Containers.antt =====
-- The containers of GLib that lib/order_book.c calls, as parameters, and what their documentation says
-- of them.
use libtrading.Base.{ℕ, ◌≡◌, ◌≢◌, Bool, true, false, List, Option, none, some}

-- The sign of what a comparison function returns.
pub data Compare : Type 0 where
  less same greater : Compare

-- Tables from keys to pointers, trees ordered by a comparison of their keys, and lists of pointers.
pub record Glib : Type 1 where
  pub Hash : Type 0
  pub g_hash_table_new : Hash
  pub g_hash_table_lookup : Hash → ℕ → Option ℕ
  pub g_hash_table_insert : Hash → ℕ → ℕ → Hash
  pub g_hash_table_remove : Hash → ℕ → Bool × Hash
  pub Tree : Type 0
  pub g_tree_new : (ℕ → ℕ → Compare) → Tree
  pub g_tree_lookup : Tree → ℕ → Option ℕ
  pub g_tree_insert : Tree → ℕ → ℕ → Tree
  pub g_tree_remove : Tree → ℕ → Bool × Tree
  pub g_list_insert_sorted : List ℕ → ℕ → (ℕ → ℕ → Compare) → List ℕ
  pub g_list_remove : List ℕ → ℕ → List ℕ

abbrev pub is_found : Option ℕ → Bool
is_found none = false
is_found (some a) = true

pub record HashLaws (g : Glib) : Type 0 where
  pub lookup-new : (k : ℕ) → g.g_hash_table_lookup g.g_hash_table_new k ≡ none
  pub lookup-insert :
      (t : g.Hash) (k a : ℕ) → g.g_hash_table_lookup (g.g_hash_table_insert t k a) k ≡ some a
  pub lookup-insert_ne :
      (t : g.Hash) (k a j : ℕ)
      → k ≢ j
      → g.g_hash_table_lookup (g.g_hash_table_insert t k a) j ≡ g.g_hash_table_lookup t j
  pub remove_lem :
      (t : g.Hash) (k : ℕ) → (g.g_hash_table_remove t k).0 ≡ is_found (g.g_hash_table_lookup t k)
  pub lookup-remove :
      (t : g.Hash) (k : ℕ) → g.g_hash_table_lookup (g.g_hash_table_remove t k).1 k ≡ none
  pub lookup-remove_ne :
      (t : g.Hash) (k j : ℕ)
      → k ≢ j
      → g.g_hash_table_lookup (g.g_hash_table_remove t k).1 j ≡ g.g_hash_table_lookup t j

-- A tree made with the comparison `f` takes two keys for one when `f` finds them the same.
pub record TreeLaws (g : Glib) (f : ℕ → ℕ → Compare) : Type 1 where
  pub Made : g.Tree → Type 0
  pub new-Made : Made (g.g_tree_new f)
  pub insert-Made : (t : g.Tree) (k a : ℕ) → Made t → Made (g.g_tree_insert t k a)
  pub remove-Made : (t : g.Tree) (k : ℕ) → Made t → Made (g.g_tree_remove t k).1
  pub lookup-new : (k : ℕ) → g.g_tree_lookup (g.g_tree_new f) k ≡ none
  pub lookup-insert :
      (t : g.Tree) (k a j : ℕ)
      → Made t
      → f k j ≡ same
      → g.g_tree_lookup (g.g_tree_insert t k a) j ≡ some a
  pub lookup-insert_ne :
      (t : g.Tree) (k a j : ℕ)
      → Made t
      → f k j ≢ same
      → g.g_tree_lookup (g.g_tree_insert t k a) j ≡ g.g_tree_lookup t j
  pub remove_lem :
      (t : g.Tree) (k : ℕ) → Made t → (g.g_tree_remove t k).0 ≡ is_found (g.g_tree_lookup t k)
  pub lookup-remove :
      (t : g.Tree) (k j : ℕ)
      → Made t
      → f k j ≡ same
      → g.g_tree_lookup (g.g_tree_remove t k).1 j ≡ none
  pub lookup-remove_ne :
      (t : g.Tree) (k j : ℕ)
      → Made t
      → f k j ≢ same
      → g.g_tree_lookup (g.g_tree_remove t k).1 j ≡ g.g_tree_lookup t j
