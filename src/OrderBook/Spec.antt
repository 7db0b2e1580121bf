-- ===== src/OrderBook/Spec.antt =====
-- What an order book promises: a level for each side and price.
use libtrading.Base.{ℕ, Bool, true, false, Option, none, some, leb, ◌==◌, ◌&&◌, if◌then◌else◌}
use libtrading.OrderBook.{Level, Order, level_of}

abbrev pub Levels : Type 0
Levels = Bool → ℕ → Option Level

abbrev pub same_side : Bool → Bool → Bool
same_side true b = b
same_side false true = false
same_side false false = true

abbrev pub put : Levels → Order → Option Level → Levels
put v o l buy price = if same_side o.buy buy && o.price == price then l else v buy price

-- An order without a level makes one, and a later one replaces it; one that is not later is refused.
abbrev pub modified : Option Level → Levels → Order → Bool × Levels
modified none v o = (true, put v o (some (level_of o)))
modified (some l) v o =
    if leb o.seq_num l.seq_num then (false, v) else (true, put v o (some (level_of o)))

abbrev pub modify : Levels → Order → Bool × Levels
modify v o = modified (v o.buy o.price) v o

abbrev pub delete : Levels → Order → Bool × Levels
delete v o = (true, put v o none)
