-- ===== src/OrderBook/Invariant.antt =====
-- When a book is well formed, and how a change at one side and price keeps it so.
use libtrading.Base.{
  &&→, ℕ, ◌^◌, ◌<◌, ◌≡◌, ◌≢◌, refl, sym, ap, ◌∙◌, Bool, true, false, ◌&&◌, Option, none, some, ◌==◌,
  if◌then◌else◌, inl, inr, arith, Bool-cases, ==_iff, ==→ne,
}
use libtrading.OrderBook.Containers.{Glib, same, HashLaws, TreeLaws}
use libtrading.OrderBook.{Level, Order, Side, OrderBook, g_uint_compare, side_of, with_side, deref}
use libtrading.OrderBook.Spec.{Levels, same_side, put}

module _ {g : Glib} where
  abbrev pub find : OrderBook g → Bool → ℕ → Option ℕ
  find ob buy price = g.g_hash_table_lookup (side_of ob buy).hash price

  abbrev pub tree_find : OrderBook g → Bool → ℕ → Option ℕ
  tree_find ob buy price = g.g_tree_lookup (side_of ob buy).tree price

  -- The abstract view of a book.
  abbrev pub levels : OrderBook g → Levels
  levels ob buy price = deref ob.heap (find ob buy price)

  -- What holds of every book whose prices fit an unsigned int: a pointer in a table leads to a level
  -- of that price and is in no other table, and the tree of a side finds what its table finds.
  pub record IsBook (t : TreeLaws g g_uint_compare) (ob : OrderBook g) : Type 0 where
    pub priced : (b : Bool) (k a : ℕ) → find ob b k ≡ some a → (ob.heap a).price ≡ k
    pub apart : (b c : Bool) (k j a : ℕ) → find ob b k ≡ some a → find ob c j ≡ some a → b ≡ c
    pub made : (b : Bool) → t.Made (side_of ob b).tree
    pub in_tree : (b : Bool) (k : ℕ) → k < 2 ^ 32 → tree_find ob b k ≡ find ob b k

  -- The pointer that calloc returns is not in use.
  abbrev pub IsFresh : OrderBook g → ℕ → Type 0
  IsFresh ob a = (b : Bool) (k : ℕ) → find ob b k ≢ some a

abbrev pub hit : Order → Bool → ℕ → Bool
hit o b k = same_side o.buy b && o.price == k

same_side→ : (b c : Bool) → same_side b c ≡ true → b ≡ c
same_side→ true true e = refl
same_side→ true false e = cc
same_side→ false true e = cc
same_side→ false false e = refl

pub hit→ : (o : Order) (b : Bool) (k : ℕ) → hit o b k ≡ true → (o.buy ≡ b) × (o.price ≡ k)
hit→ o b k e =
    let (side, price) = &&→ (same_side o.buy b) (o.price == k) e in
    (same_side→ o.buy b side, (==_iff o.price k).0 price)

pub hit_self : (o : Order) → hit o o.buy o.price ≡ true
hit_self o = go o.buy
  where
    go : (b : Bool) → (same_side b b && o.price == o.price) ≡ true
    go true = (==_iff o.price o.price).1 refl
    go false = (==_iff o.price o.price).1 refl

some_inj : {a b : ℕ} → some a ≡ some b → a ≡ b
some_inj e = cc

-- A side that differs at one key, put in its place.
module _ {ℓ κ} {g : Glib} {A : Type ℓ} (look : Side g → ℕ → A) (fits : ℕ → Type κ) (x : A) where
  pub look-with_side :
      (ob : OrderBook g) (s : Side g) (buy b : Bool) (price k : ℕ)
      → fits k
      → look s price ≡ x
      → ((j : ℕ) → fits j → price ≢ j → look s j ≡ look (side_of ob buy) j)
      → look (side_of (with_side ob buy s) b) k
        ≡ (if same_side buy b && price == k then x else look (side_of ob b) k)
  look-with_side ob s true true price k small at_price elsewhere = elim (Bool-cases (price == k)) [
    | inl e ↦ rw e (ap (look s) (sym ((==_iff price k).0 e)) ∙ at_price)
    | inr e ↦ rw e (elsewhere k small (==→ne price k e))
  ]
  look-with_side ob s true false price k small at_price elsewhere = refl
  look-with_side ob s false true price k small at_price elsewhere = refl
  look-with_side ob s false false price k small at_price elsewhere =
      elim (Bool-cases (price == k)) [
        | inl e ↦ rw e (ap (look s) (sym ((==_iff price k).0 e)) ∙ at_price)
        | inr e ↦ rw e (elsewhere k small (==→ne price k e))
      ]

-- Two prices that fit an unsigned int are the same key of the tree only if they are equal.
pub compare_self : (k : ℕ) → g_uint_compare k k ≡ same
compare_self k = ground arith

pub compare_ne : (k j : ℕ) → k < 2 ^ 32 → j < 2 ^ 32 → k ≢ j → g_uint_compare k j ≢ same
compare_ne k j p q ne = ground arith

-- A book that differs at the place of an order: `x` is the pointer there now.
pub record Changes {g : Glib} (o : Order) (x : Option ℕ) (ob ob' : OrderBook g) : Type 0 where
  pub finds : (b : Bool) (k : ℕ) → find ob' b k ≡ (if hit o b k then x else find ob b k)
  pub kept :
      (b : Bool) (k a : ℕ) → find ob b k ≡ some a → hit o b k ≡ false → ob'.heap a ≡ ob.heap a

pub levels-Changes :
    {g : Glib} (o : Order) (x : Option ℕ) (ob ob' : OrderBook g) (b : Bool) (k : ℕ)
    → Changes o x ob ob'
    → levels ob' b k ≡ put (levels ob) o (deref ob'.heap x) b k
levels-Changes o x ob ob' b k c = elim (Bool-cases (hit o b k)) [
  | inl here ↦ rw here (ap (deref ob'.heap) (c.finds b k ∙ pick here))
  | inr else' ↦
      rw else' (ap (deref ob'.heap) (c.finds b k ∙ skip else') ∙ away (find ob b k) refl else')
]
  where
    pick : hit o b k ≡ true → (if hit o b k then x else find ob b k) ≡ x
    pick e = rw e refl

    skip : hit o b k ≡ false → (if hit o b k then x else find ob b k) ≡ find ob b k
    skip e = rw e refl

    away : (y : Option ℕ) → find ob b k ≡ y → hit o b k ≡ false → deref ob'.heap y ≡ deref ob.heap y
    away none e else' = refl
    away (some a) e else' = ap some (c.kept b k a e else')

module _ {g : Glib} (h : HashLaws g) (t : TreeLaws g g_uint_compare) where
  -- A book is well formed again, when the pointer at the order's place leads to a level of its price
  -- and was not in use elsewhere.
  pub changed-IsBook :
      (o : Order) (x : Option ℕ) (ob ob' : OrderBook g)
      → IsBook t ob
      → Changes o x ob ob'
      → ((a : ℕ)
          → x ≡ some a
          → ((ob'.heap a).price ≡ o.price)
            × ((b : Bool) (k : ℕ) → find ob b k ≡ some a → hit o b k ≡ true))
      → ((b : Bool) → t.Made (side_of ob' b).tree)
      → ((b : Bool) (k : ℕ) → k < 2 ^ 32 → tree_find ob' b k ≡ find ob' b k)
      → IsBook t ob'
  changed-IsBook o x ob ob' s c good made agree = record {
    priced = λ b k a e. elim (Bool-cases (hit o b k)) [
      | inl here ↦ (good a (at_hit b k a here e)).0 ∙ (hit→ o b k here).1
      | inr else' ↦
          ap (λ (l : Level). l.price) (c.kept b k a (off_hit b k a else' e) else')
          ∙ s.priced b k a (off_hit b k a else' e)
    ];
    apart = λ b d k j a e f. elim (Bool-cases (hit o b k)) [
      | inl here ↦ elim (Bool-cases (hit o d j)) [
        | inl there ↦ sym (hit→ o b k here).0 ∙ (hit→ o d j there).0
        | inr else' ↦ absurd (clash d j a (at_hit b k a here e) (off_hit d j a else' f) else')
      ]
      | inr away ↦ elim (Bool-cases (hit o d j)) [
        | inl there ↦ absurd (clash b k a (at_hit d j a there f) (off_hit b k a away e) away)
        | inr else' ↦ s.apart b d k j a (off_hit b k a away e) (off_hit d j a else' f)
      ]
    ];
    made = made;
    in_tree = agree;
  }
    where
      at_hit : (b : Bool) (k a : ℕ) → hit o b k ≡ true → find ob' b k ≡ some a → x ≡ some a
      at_hit b k a here e = rw (c.finds b k, here) at e

      off_hit :
          (b : Bool) (k a : ℕ) → hit o b k ≡ false → find ob' b k ≡ some a → find ob b k ≡ some a
      off_hit b k a else' e = rw (c.finds b k, else') at e

      clash : (b : Bool) (k a : ℕ) → x ≡ some a → find ob b k ≡ some a → hit o b k ≡ false → ⊥
      clash b k a e f else' = absurd (true_ne_false (sym ((good a e).1 b k f) ∙ else'))
        where
          true_ne_false : true ≢ false
          true_ne_false e' = cc
