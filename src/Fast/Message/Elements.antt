-- ===== src/Fast/Message/Elements.antt =====
-- fast_decode_sequence of lib/proto/fast_message.c.
use libtrading.Base.{
  ℕ, zero, suc, ◌+◌, ◌-◌, ◌^◌, Bool, true, false, not, ◌&&◌, List, [], ◌∷◌, ◌++◌, get_or, set, take,
  drop, Option, none, some, leb, ◌==◌, if◌then◌else◌,
}
use libtrading.Buffer.{Buffer}
use libtrading.Fast.Codec.{ok, garbled, partial}
use libtrading.Fast.Pmap.{Pmap, Ret, parse_pmap}
use libtrading.Fast.Field.{is_empty, Decoded, mandatory, optional}
use libtrading.Fast.Integer.{fast_decode_uint}
use libtrading.Fast.Text.{Chars, copy_text}
use libtrading.Fast.Message.{
  Item, int, uint, string, decimal, Sequence, Taken, Run, decode_item, decode_run, back_to,
}

abbrev pub fast_sequence_elements : ℕ
fast_sequence_elements = 128

-- What is stored in the field `cur` of the element, behind a decoded `field`. A vector is not copied.
abbrev pub copy_value : Item (Unit {0}) → Item (Unit {0}) → Item (Unit {0})
copy_value (int f) (int cur) = int (record cur { state = f.state; value = f.value })
copy_value (uint f) (uint cur) = uint (record cur { state = f.state; value = f.value })
copy_value (string unicode f) (string u cur) =
    string u (record cur { state = f.state; value = copy_text cur.value f.value })
copy_value (decimal f) (decimal cur) =
    decimal
      (record cur { field = record (cur.field) { state = f.field.state; value = f.field.value } })
copy_value field cur = cur

-- The first `n` fields.
abbrev pub copy_values :
    ℕ → List (Item (Unit {0})) → List (Item (Unit {0})) → List (Item (Unit {0}))
copy_values zero fs cs = cs
copy_values (suc n) [] cs = cs
copy_values (suc n) (f ∷ fs) [] = []
copy_values (suc n) (f ∷ fs) (c ∷ cs) = copy_value f c ∷ copy_values n fs cs

-- "At the moment we do no support nested sequences"
abbrev pub refuse_nested : Buffer → Pmap → Unit {0} → Taken (Unit {0})
refuse_nested b p s = record { ret = garbled; buffer = b; pmap = p; start = b.start; field = s }

abbrev pub decode_element_field : Chars → Buffer → Pmap → Item (Unit {0}) → Taken (Item (Unit {0}))
decode_element_field = decode_item refuse_nested

abbrev pub opened : Ret × Buffer × Pmap → Ret × Buffer × Pmap
opened (ok _, b, p) = (ok tt, b, record p { is_valid = true; pmap_bit = 2 ^ 64 - 1 })
opened (garbled, b, p) = (garbled, b, p)
opened (partial, b, p) = (partial, b, p)

-- The map of an element, which is read when one is required and none is there.
abbrev pub element_map : Bool → Buffer → Pmap → Ret × Buffer × Pmap
element_map required b p =
    if required && not p.is_valid then opened (parse_pmap b p) else (ok tt, b, p)

-- `if (msg) spmap->pmap_bit = spmap_bit`
abbrev pub restore : Option ℕ → Pmap → Pmap
restore none p = p
restore (some bit) p = record p { pmap_bit = bit }

abbrev pub or_zero : Option ℕ → ℕ
or_zero none = 0
or_zero (some bit) = bit

-- `s` behind the run over the fields of one element.
abbrev pub with_run : Run (Item (Unit {0})) → Sequence → Sequence
with_run r s =
    let done = s.first.decoded in
    let cur : List (Item (Unit {0})) = get_or s.others (s.decoded - 1) [] in
    record s {
      pmap = r.pmap;
      first = record { decoded = done + r.decoded; fields = take done s.first.fields ++ r.fields };
      others =
          set s.others (s.decoded - 1)
            (take done cur ++ copy_values r.decoded r.fields (drop done cur));
    }

-- `spmap->is_valid = false; msg->decoded = 0;` and `seq->decoded++`
abbrev pub next_element : Sequence → Sequence
next_element s = record s {
  pmap = record (s.pmap) { is_valid = false };
  first = record (s.first) { decoded = 0 };
  decoded = suc s.decoded;
}

abbrev pub ElementsRead : Type 0
ElementsRead = Ret × Buffer × Sequence

abbrev pub behind_element :
    (ℕ → Buffer → Sequence → ElementsRead) → Ret → Run (Item (Unit {0})) → Sequence → ElementsRead
behind_element next (ok _) r s = next r.saved r.buffer (next_element (with_run r s))
behind_element next garbled r s = (garbled, r.buffer, with_run r s)
behind_element next partial r s =
    let s' = with_run r s in
    (partial, back_to r.start r.buffer, record s' { pmap = restore (some r.saved) r.pmap })

-- `b` is the buffer before the map was read.
abbrev pub behind_map :
    Chars
    → (ℕ → Buffer → Sequence → ElementsRead)
    → Option ℕ
    → Buffer
    → Ret × Buffer × Pmap
    → Sequence
    → ElementsRead
behind_map scratch next saved b (ok _, b', p) s =
    let fields = drop s.first.decoded s.first.fields in
    let r = decode_run (decode_element_field scratch) (or_zero saved) b' p fields in
    behind_element next r.ret r s
behind_map scratch next saved b (garbled, b', p) s = (garbled, b', record s { pmap = p })
behind_map scratch next saved b (partial, b', p) s =
    (partial, back_to b.start b', record s { pmap = restore saved p })

-- `for (; seq->decoded <= seq->length.uint_value; seq->decoded++)` over the elements that are left;
-- `saved` is `spmap_bit`, or none as long as `msg` is NULL.
unfoldable pub decode_elements : Chars → ℕ → Option ℕ → Buffer → Sequence → ElementsRead
decode_elements scratch zero saved b s = (ok tt, b, record s { decoded = 0 })
decode_elements scratch (suc n) saved b s =
    behind_map scratch (λ bit. decode_elements scratch n (some bit)) saved b
      (element_map s.pmap_required b s.pmap) s

-- The elements from `seq->decoded` to the last.
unfoldable pub elements_left : Sequence → ℕ
elements_left s = suc s.length'.value - s.decoded

abbrev pub sequence_taken : Pmap → ElementsRead → Taken Sequence
sequence_taken p (ret, b, s) = record {
  ret = ret;
  buffer = b;
  pmap = p;
  start = b.start;
  field = s;
}

-- Behind fast_decode_uint of the length.
abbrev pub behind_length : Chars → Buffer → Decoded ℕ → Sequence → Taken Sequence
behind_length scratch b r s =
    let s' : Sequence = record s { length' = r.field } in
    elim r.ret [
      | ok _ ↦
          if is_empty r.field.state
          then sequence_taken r.pmap
              (elim s.presence [ mandatory ↦ garbled | optional ↦ ok tt ], r.buffer, s')
          else if leb fast_sequence_elements r.field.value
          then sequence_taken r.pmap (garbled, r.buffer, s')
          else let begun : Sequence = record s' { decoded = 1 } in
            sequence_taken r.pmap
              (decode_elements scratch (elements_left begun) none r.buffer begun)
      | garbled ↦ sequence_taken r.pmap (garbled, r.buffer, s')
      | partial ↦ sequence_taken r.pmap (partial, back_to b.start r.buffer, s')
    ]

-- A sequence that is under way goes on with the element it stopped in.
unfoldable pub fast_decode_sequence : Chars → Buffer → Pmap → Sequence → Taken Sequence
unfolding elements_left decode_elements
fast_decode_sequence scratch b p s =
    if s.decoded == 0
    then behind_length scratch b (fast_decode_uint b p s.length') s
    else sequence_taken p (decode_elements scratch (elements_left s) none b s)
