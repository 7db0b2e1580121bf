-- ===== src/OrderBook/Deleting.antt =====
-- The branches of ob_level_delete.
use libtrading.Base.{ℕ, ◌^◌, ◌<◌, ◌≡◌, refl, ap, ◌∙◌, Bool, true, false, none, some, if◌then◌else◌}
use mathlib.Core.Path.{subst}
use libtrading.OrderBook.Containers.{Glib, HashLaws, TreeLaws, is_found}
use libtrading.OrderBook.{
  Level, Order, Side, OrderBook, g_uint_compare, side_of, with_side, deref, remove_level,
}
use libtrading.OrderBook.Spec.{delete}
use libtrading.OrderBook.Invariant.{
  find, levels, IsBook, hit, hit→, compare_self, compare_ne, Changes, levels-Changes,
  changed-IsBook,
}
use libtrading.OrderBook.Implements.{
  Implements, seen, heap-with_side, made-with_side, tree_agrees, finds-with_side,
}

module _ {g : Glib} (h : HashLaws g) (t : TreeLaws g g_uint_compare) (ob : OrderBook g)
    (o : Order) where
  -- ob_level_delete where the table has a level.
  pub remove_level-Implements :
      (a : ℕ)
      → IsBook t ob
      → o.price < 2 ^ 32
      → find ob o.buy o.price ≡ some a
      → Implements t (delete (levels ob) o) (remove_level ob o a)
  remove_level-Implements a w small e =
      rw (in_hash, in_tree)
        (record {
          answer = refl;
          view = seen _ _ (λ b k. levels-Changes o none ob (with_side ob o.buy s) b k changes);
          well_formed =
              changed-IsBook h t o none ob (with_side ob o.buy s) w changes (λ c bad. cc)
                (λ b.
                  made-with_side h t ob o s (t.remove-Made old.tree o.price (w.made o.buy)) w.made b
                    o.buy)
                (tree_agrees h t ob o none s w.in_tree small changes.finds
                  (t.lookup-remove old.tree o.price o.price (w.made o.buy) (compare_self o.price))
                  (λ j fits ne.
                    t.lookup-remove_ne old.tree o.price j (w.made o.buy)
                      (compare_ne o.price j small fits ne)));
        })
    where
      old : Side g
      old = side_of ob o.buy

      s : Side g
      s = record {
        hash = (g.g_hash_table_remove old.hash o.price).1;
        tree = (g.g_tree_remove old.tree o.price).1;
        list = g.g_list_remove old.list a;
      }

      in_hash : (g.g_hash_table_remove (side_of ob o.buy).hash o.price).0 ≡ true
      in_hash = h.remove_lem (side_of ob o.buy).hash o.price ∙ ap is_found e

      in_tree : (g.g_tree_remove (side_of ob o.buy).tree o.price).0 ≡ true
      in_tree =
          t.remove_lem (side_of ob o.buy).tree o.price (w.made o.buy)
          ∙ ap is_found (w.in_tree o.buy o.price small ∙ e)

      changes : Changes o none ob (with_side ob o.buy s)
      changes = record {
        finds =
            finds-with_side h t ob o none s (h.lookup-remove old.hash o.price)
              (λ j ne. h.lookup-remove_ne old.hash o.price j ne);
        kept = λ b k c f away. ap (λ (m : ℕ → Level). m c) (heap-with_side h t ob o o.buy s);
      }

  -- A level that the tables do not have is deleted at once.
  pub nothing-Implements :
      IsBook t ob → find ob o.buy o.price ≡ none → Implements t (delete (levels ob) o) (true, ob)
  nothing-Implements w e = record {
    answer = refl;
    view = seen _ _ (λ b k. same_view b k (hit o b k) refl);
    well_formed = w;
  }
    where
      same_view :
          (b : Bool) (k : ℕ) (here : Bool)
          → hit o b k ≡ here
          → levels ob b k ≡ (if here then none else levels ob b k)
      same_view b k true f =
          let (side, price) = hit→ o b k f in
          subst (λ (c : Bool). levels ob c k ≡ none) side
            (subst (λ (j : ℕ). levels ob o.buy j ≡ none) price (ap (deref ob.heap) e))
      same_view b k false f = refl
