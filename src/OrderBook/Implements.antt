-- ===== src/OrderBook/Implements.antt =====
-- What it is for a call on a book to implement its specification, and the parts of that which
-- insertion and removal share.
use libtrading.Base.{
  ℕ, ◌^◌, ◌<◌, ◌≡◌, ◌≢◌, refl, sym, ap, ◌∙◌, Bool, true, false, Option, if◌then◌else◌, ==_iff,
  ne→==,
}
use libtrading.OrderBook.Containers.{Glib, HashLaws, TreeLaws}
use libtrading.OrderBook.{
  Level, Order, Side, OrderBook, g_uint_compare, store_level, side_of, with_side, ob_level_lookup,
}
use libtrading.OrderBook.Spec.{Levels}
use libtrading.OrderBook.Invariant.{find, tree_find, levels, IsBook, hit, look-with_side}

-- A result and a book that do what the specification says, by what ob_level_lookup then finds, and a
-- book that is well formed again.
pub record Implements {g : Glib} (t : TreeLaws g g_uint_compare) (spec : Bool × Levels)
    (r : Bool × OrderBook g) : Type 0 where
  pub answer : r.0 ≡ spec.0
  pub view : (q : Order) → ob_level_lookup r.1 q ≡ spec.1 q.buy q.price
  pub well_formed : IsBook t r.1

pub seen :
    {g : Glib} (ob : OrderBook g) (v : Levels)
    → ((b : Bool) (k : ℕ) → levels ob b k ≡ v b k)
    → (q : Order) → ob_level_lookup ob q ≡ v q.buy q.price
unfolding ob_level_lookup
seen ob v e q = e q.buy q.price

pub side_of-heap :
    {g : Glib} (ob : OrderBook g) (m : ℕ → Level) (b : Bool)
    → side_of (record ob { heap = m }) b ≡ side_of ob b
side_of-heap ob m true = refl
side_of-heap ob m false = refl

pub store_level_self : (m : ℕ → Level) (a : ℕ) (l : Level) → store_level m a l a ≡ l
store_level_self m a l = rw ((==_iff a a).1 refl) refl

pub store_level_ne : (m : ℕ → Level) (a c : ℕ) (l : Level) → a ≢ c → store_level m a l c ≡ m c
store_level_ne m a c l ne = rw (ne→== a c ne) refl

module _ {g : Glib} (h : HashLaws g) (t : TreeLaws g g_uint_compare) (ob : OrderBook g)
    (o : Order) where
  pub heap-with_side : (b : Bool) (s : Side g) → (with_side ob b s).heap ≡ ob.heap
  heap-with_side true s = refl
  heap-with_side false s = refl

  pub made-with_side :
      (s : Side g)
      → t.Made s.tree
      → ((b : Bool) → t.Made (side_of ob b).tree)
      → (b c : Bool) → t.Made (side_of (with_side ob c s) b).tree
  made-with_side s m w true true = m
  made-with_side s m w true false = w true
  made-with_side s m w false true = w false
  made-with_side s m w false false = m

  -- The tree of a side that differs at the order's price.
  pub tree_agrees :
      (x : Option ℕ) (s : Side g)
      → ((b : Bool) (k : ℕ) → k < 2 ^ 32 → tree_find ob b k ≡ find ob b k)
      → o.price < 2 ^ 32
      → ((b : Bool) (k : ℕ)
          → find (with_side ob o.buy s) b k ≡ (if hit o b k then x else find ob b k))
      → g.g_tree_lookup s.tree o.price ≡ x
      → ((j : ℕ)
          → j < 2 ^ 32
          → o.price ≢ j
          → g.g_tree_lookup s.tree j ≡ g.g_tree_lookup (side_of ob o.buy).tree j)
      → (b : Bool) (k : ℕ) → k < 2 ^ 32
      → tree_find (with_side ob o.buy s) b k ≡ find (with_side ob o.buy s) b k
  tree_agrees x s w small finds here elsewhere b k fits =
      look-with_side (λ (r : Side g) (j : ℕ). g.g_tree_lookup r.tree j) (λ j. j < 2 ^ 32) x ob s
        o.buy b o.price k fits here elsewhere
      ∙ ap (λ (y : Option ℕ). if hit o b k then x else y) (w b k fits)
      ∙ sym (finds b k)

  pub finds-with_side :
      (x : Option ℕ) (s : Side g)
      → g.g_hash_table_lookup s.hash o.price ≡ x
      → ((j : ℕ) → o.price ≢ j → g.g_hash_table_lookup s.hash j ≡ find ob o.buy j)
      → (b : Bool) (k : ℕ)
      → find (with_side ob o.buy s) b k ≡ (if hit o b k then x else find ob b k)
  finds-with_side x s here elsewhere b k =
      look-with_side (λ (r : Side g) (j : ℕ). g.g_hash_table_lookup r.hash j) (λ j. Unit {0}) x ob s
        o.buy b o.price k tt here (λ j _ ne. elsewhere j ne)
