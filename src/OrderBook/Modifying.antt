-- ===== src/OrderBook/Modifying.antt =====
-- The branches of ob_level_modify.
use libtrading.Base.{
  ℕ, ◌^◌, ◌<◌, ◌≡◌, ◌≢◌, refl, sym, ap, ◌∙◌, Bool, true, false, none, some, if◌then◌else◌,
}
use mathlib.Core.Path.{subst}
use libtrading.OrderBook.Containers.{Glib, HashLaws, TreeLaws}
use libtrading.OrderBook.{
  Level, Order, Side, OrderBook, g_uint_compare, g_level_compare, store_level, side_of, with_side,
  level_of, add_level, update_level,
}
use libtrading.OrderBook.Spec.{put}
use libtrading.OrderBook.Invariant.{
  find, tree_find, levels, IsBook, IsFresh, hit, hit→, hit_self, compare_self, compare_ne, Changes,
  levels-Changes, changed-IsBook,
}
use libtrading.OrderBook.Implements.{
  Implements, seen, side_of-heap, store_level_self, store_level_ne, heap-with_side, made-with_side,
  tree_agrees, finds-with_side,
}

module _ {g : Glib} (h : HashLaws g) (t : TreeLaws g g_uint_compare) (ob : OrderBook g)
    (o : Order) where
  -- ob_level_modify where the table has no level.
  pub add_level-Implements :
      (a : ℕ)
      → IsBook t ob
      → IsFresh ob a
      → o.price < 2 ^ 32
      → find ob o.buy o.price ≡ none
      → Implements t (true, put (levels ob) o (some (level_of o))) (true, add_level ob o a)
  add_level-Implements a w fresh small e = record {
    answer = refl;
    view = seen _ _ (λ b k.
        levels-Changes o (some a) ob ob' b k changes
        ∙ ap (λ (l : Level). put (levels ob) o (some l) b k) stored);
    well_formed =
        changed-IsBook h t o (some a) ob ob' w changes
          (λ c same_pointer. (
            ap (λ (i : ℕ). (ob'.heap i).price) (sym (some_inj same_pointer))
                ∙ ap (λ (l : Level). l.price) stored,
            λ b k f. absurd (fresh b k (f ∙ sym same_pointer)),
          ))
          (λ b.
            made-with_side h t ob1 o s (t.insert-Made old.tree o.price a made_old) made1 b o.buy)
          (λ b k fits.
            tree_agrees h t ob1 o (some a) s agree1 small finds1
              (t.lookup-insert old.tree o.price a o.price made_old (compare_self o.price))
              (λ j fits' ne.
                t.lookup-insert_ne old.tree o.price a j made_old
                  (compare_ne o.price j small fits' ne))
              b k fits);
  }
    where
      heap' : ℕ → Level
      heap' = store_level ob.heap a (level_of o)

      ob1 : OrderBook g
      ob1 = record ob { heap = heap' }

      old : Side g
      old = side_of ob1 o.buy

      s : Side g
      s = record {
        hash = g.g_hash_table_insert old.hash o.price a;
        tree = g.g_tree_insert old.tree o.price a;
        list = g.g_list_insert_sorted old.list a (g_level_compare heap');
      }

      ob' : OrderBook g
      ob' = with_side ob1 o.buy s

      same_sides : (b : Bool) → side_of ob1 b ≡ side_of ob b
      same_sides b = side_of-heap ob heap' b

      made1 : (b : Bool) → t.Made (side_of ob1 b).tree
      made1 b = subst (λ (r : Side g). t.Made r.tree) (sym (same_sides b)) (w.made b)

      made_old : t.Made old.tree
      made_old = made1 o.buy

      agree1 : (b : Bool) (k : ℕ) → k < 2 ^ 32 → tree_find ob1 b k ≡ find ob1 b k
      agree1 b k fits =
          subst (λ (r : Side g). g.g_tree_lookup r.tree k ≡ g.g_hash_table_lookup r.hash k)
            (sym (same_sides b)) (w.in_tree b k fits)

      finds1 : (b : Bool) (k : ℕ) → find ob' b k ≡ (if hit o b k then some a else find ob1 b k)
      finds1 =
          finds-with_side h t ob1 o (some a) s (h.lookup-insert old.hash o.price a)
            (λ j ne. h.lookup-insert_ne old.hash o.price a j ne)

      heap_of : (i : ℕ) → ob'.heap i ≡ heap' i
      heap_of i = ap (λ (m : ℕ → Level). m i) (heap-with_side h t ob1 o o.buy s)

      stored : ob'.heap a ≡ level_of o
      stored = heap_of a ∙ store_level_self ob.heap a (level_of o)

      changes : Changes o (some a) ob ob'
      changes = record {
        finds = λ b k.
            finds1 b k
            ∙ ap (λ (r : Side g). if hit o b k then some a else g.g_hash_table_lookup r.hash k)
                (same_sides b);
        kept = λ b k c f away.
            heap_of c
            ∙ store_level_ne ob.heap a c (level_of o) (λ e'. fresh b k (f ∙ ap some (sym e')));
      }

      some_inj : {i j : ℕ} → some i ≡ some j → i ≡ j
      some_inj e' = cc

module _ {g : Glib} (h : HashLaws g) (t : TreeLaws g g_uint_compare) (ob : OrderBook g)
    (o : Order) where
  -- ob_level_modify where the table has an older level.
  pub update_level-Implements :
      (a : ℕ)
      → IsBook t ob
      → find ob o.buy o.price ≡ some a
      → Implements t (true, put (levels ob) o (some (level_of o))) (true, update_level ob o a)
  update_level-Implements a w e = record {
    answer = refl;
    view = seen _ _ (λ b k.
        levels-Changes o (some a) ob ob' b k changes
        ∙ ap (λ (l : Level). put (levels ob) o (some l) b k) stored);
    well_formed =
        changed-IsBook h t o (some a) ob ob' w changes
          (λ c same_pointer. (
            ap (λ (i : ℕ). (ob'.heap i).price) (sym (some_inj same_pointer))
                ∙ ap (λ (l : Level). l.price) stored,
            λ b k f. only_here b k (f ∙ sym same_pointer),
          ))
          (λ b. subst (λ (r : Side g). t.Made r.tree) (sym (same_sides b)) (w.made b))
          (λ b k fits.
            subst (λ (r : Side g). g.g_tree_lookup r.tree k ≡ g.g_hash_table_lookup r.hash k)
              (sym (same_sides b)) (w.in_tree b k fits));
  }
    where
      new_level : Level
      new_level = record (ob.heap a) { seq_num = o.seq_num; size = o.size }

      ob' : OrderBook g
      ob' = update_level ob o a

      same_sides : (b : Bool) → side_of ob' b ≡ side_of ob b
      same_sides b = side_of-heap ob (store_level ob.heap a new_level) b

      stored : ob'.heap a ≡ level_of o
      stored =
          store_level_self ob.heap a new_level
          ∙ ap (λ (p : ℕ). record { seq_num = o.seq_num; price = p; size = o.size })
              (w.priced o.buy o.price a e)

      only_here : (b : Bool) (k : ℕ) → find ob b k ≡ some a → hit o b k ≡ true
      only_here b k f =
          subst (λ (c : Bool). hit o c k ≡ true) (w.apart o.buy b o.price k a e f)
            (subst (λ (j : ℕ). hit o o.buy j ≡ true)
              (sym (w.priced o.buy o.price a e) ∙ w.priced b k a f) (hit_self o))

      changes : Changes o (some a) ob ob'
      changes = record {
        finds = λ b k.
            ap (λ (r : Side g). g.g_hash_table_lookup r.hash k) (same_sides b)
            ∙ unchanged b k (hit o b k) refl;
        kept = λ b k c f away.
            store_level_ne ob.heap a c new_level
              (λ e'. true_ne_false (sym (only_here b k (f ∙ ap some (sym e'))) ∙ away));
      }
        where
          unchanged :
              (b : Bool) (k : ℕ) (here : Bool)
              → hit o b k ≡ here
              → find ob b k ≡ (if here then some a else find ob b k)
          unchanged b k true f =
              let (side, price) = hit→ o b k f in
              subst (λ (c : Bool). find ob c k ≡ some a) side
                (subst (λ (j : ℕ). find ob o.buy j ≡ some a) price e)
          unchanged b k false f = refl

          true_ne_false : true ≢ false
          true_ne_false e' = cc

      some_inj : {i j : ℕ} → some i ≡ some j → i ≡ j
      some_inj e' = cc
