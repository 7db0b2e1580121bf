-- ===== src/Fast/Integer/RoundTrip.antt =====
-- The integer fields between fast_encode_uint and fast_decode_uint, and the same of i64.
use libtrading.Base.{
  ℕ, ◌+◌, ◌/◌, ◌≤◌, ◌<◌, ◌≡◌, refl, sym, Bool, true, false, not, List, [], ◌++◌, append-nil, ◌==◌,
  if◌then◌else◌, arith, add64, sub64, ap, ◌∙◌, IsWord,
}
use mathlib.Core.Path.{subst, subst₂}
use libtrading.Buffer.{Buffer, buffer_remaining}
use libtrading.Buffer.Contents.{Holds, contents}
use libtrading.Fast.Pmap.{Pmap, pmap_is_set, pmap_set, next_bit, advance, IsPmap}
use libtrading.Fast.Pmap.Laws.{pmap_is_set-pmap_set, pmap_bit-pmap_set, pmap_is_set-place}
use libtrading.Fast.Field.{
  Op, none, copy, incr, delta, default, constant, Field, is_mandatory, is_empty, Exit, transfer,
  to_empty, stop, fail, Encoded, Decoded, encode_always, encode_expected, encode_default,
}
use libtrading.Fast.Integer.{
  encode_by, decode_switch, run_exit, raise_int, fast_encode_uint, fast_decode_uint,
  fast_encode_int, fast_decode_int,
}
use libtrading.Fast.Integer.Channel.{
  Channel, Nullable, signed, IsSendableInt, raise_int-fits, nullable_uint, nullable_int,
}
use libtrading.Fast.Integer.Encoding.{
  absent, HasValue, IsStarted, wire, exit_field, exit_pmap, FitsExit, run_exit-wire,
  encode_always-FitsExit, encode_default-FitsExit, encode_expected-FitsExit,
}
use libtrading.Fast.Integer.Decoding.{Agrees, Accepts, exit_bit}
use libtrading.Fast.Integer.Operators.{
  decode_none, decode_copy, decode_incr, decode_delta, decode_default, decode_fixed,
}

-- The values that each operator can send, and the states that it sends them in.
abbrev pub Ready : {c : Channel} → Nullable c → Op → Field ℕ → Field ℕ → Type 0
Ready n none e d = n.Sendable e.value
Ready n copy e d = n.Sendable e.value × HasValue e × IsStarted e
Ready n incr e d = n.Sendable e.value × HasValue e × IsStarted e
Ready n delta e d = IsSendableInt (sub64 e.value e.previous) × IsWord e.value × IsWord e.previous
Ready n default e d = n.Sendable e.value × HasValue e
Ready n constant e d = absent e ≡ false → e.value ≡ d.reset

-- The two ends of a field before a message.
pub record Ends {c : Channel} (n : Nullable c) (e d : Field ℕ) : Type 0 where
  pub same_op : d.op ≡ e.op
  pub same_presence : d.presence ≡ e.presence
  pub ready : Ready n e.op e d
  pub agree : Agrees e.op e d

-- The maps of the two ends: the encoder's next bit lies in the map and is clear, and the decoder
-- stands at the same bit.
pub record Maps (p q : Pmap) : Type 0 where
  pub well_formed : IsPmap p
  pub inside : next_bit p / 7 < p.nr_bytes
  pub clear : pmap_is_set p (next_bit p) ≡ false
  pub same_place : q.pmap_bit ≡ p.pmap_bit

exit_pmap-bit :
    (p q : Pmap) (x : Exit ℕ ℕ)
    → Maps p q
    → pmap_is_set (exit_pmap (advance p) x) (next_bit p) ≡ exit_bit x
exit_pmap-bit p q x m = go x
  where
    h : IsPmap (advance p)
    h = record { within = m.well_formed.within; in_range = m.well_formed.in_range }

    set_bit : pmap_is_set (pmap_set (advance p) (next_bit p)) (next_bit p) ≡ true
    set_bit = pmap_is_set-pmap_set (advance p) (next_bit p) h m.inside

    clear_bit : pmap_is_set (advance p) (next_bit p) ≡ false
    clear_bit = pmap_is_set-place p (next_bit p) (next_bit p) ∙ m.clear

    go : (x : Exit ℕ ℕ) → pmap_is_set (exit_pmap (advance p) x) (next_bit p) ≡ exit_bit x
    go (transfer true tmp f) = set_bit
    go (transfer false tmp f) = clear_bit
    go (to_empty true f) = set_bit
    go (to_empty false f) = clear_bit
    go (stop f) = clear_bit
    go fail = clear_bit

exit_pmap-place : (p : Pmap) (x : Exit ℕ ℕ) → (exit_pmap p x).pmap_bit ≡ p.pmap_bit
exit_pmap-place p (transfer true tmp f) = pmap_bit-pmap_set p p.pmap_bit
exit_pmap-place p (transfer false tmp f) = refl
exit_pmap-place p (to_empty true f) = pmap_bit-pmap_set p p.pmap_bit
exit_pmap-place p (to_empty false f) = refl
exit_pmap-place p (stop f) = refl
exit_pmap-place p fail = refl

-- The encoder's half: success, the bytes, the map and the field of the exit `x`.
record Leaves (ch : Channel) (x : Exit ℕ ℕ) (p : Pmap) (b : Buffer) (e : Field ℕ) (cs : List ℕ)
    (out : Encoded ℕ) : Type 0 where
  success : out.success ≡ true
  written : Holds out.buffer (cs ++ wire ch x)
  left : buffer_remaining b ≤ 9 + buffer_remaining out.buffer
  map : out.pmap ≡ exit_pmap p x
  field : out.field ≡ exit_field e x

leaves :
    (ch : Channel) (x : Exit ℕ ℕ) (p : Pmap) (b : Buffer) (e : Field ℕ) (cs : List ℕ)
    (out : Encoded ℕ)
    → FitsExit ch x
    → Holds b cs
    → 9 ≤ buffer_remaining b
    → out ≡ run_exit ch.send b e (p, x)
    → Leaves ch x p b e cs out
leaves ch x p b e cs out fits h room runs =
    let (success, written, left, map, field) = run_exit-wire ch x p b e cs fits h room in
    subst (Leaves ch x p b e cs) (sym runs)
      (record { success = success; written = written; left = left; map = map; field = field })

-- Both halves: the bytes that the encoder appends, and what the decoder makes of them.
abbrev pub Delivers :
    Op → Field ℕ → List ℕ → Pmap → Pmap → Buffer → Buffer → List ℕ → Encoded ℕ → Decoded ℕ → Type 0
Delivers o e cs p q b src rest out r =
    (bytes : List ℕ) × (out.success ≡ true)
    × Holds out.buffer (cs ++ bytes)
    × (buffer_remaining b ≤ 9 + buffer_remaining out.buffer)
    × ((out.pmap.pmap_bit ≡ next_bit p
          → pmap_is_set q (next_bit p) ≡ pmap_is_set out.pmap (next_bit p))
        → Holds src (bytes ++ rest)
        → Accepts o e out.field out.pmap.pmap_bit rest r)

module _ {c : Channel} (n : Nullable c) (e d : Field ℕ) (b src : Buffer) (p q : Pmap)
    (cs rest : List ℕ) (m : Maps p q) (held : Holds b cs) (room : 9 ≤ buffer_remaining b)
    (same : d.presence ≡ e.presence) where
  abbrev out : Encoded ℕ
  out = encode_by c.send n.raise b p e

  abbrev got : Decoded ℕ
  got = decode_switch c.parse n.lower n.add_delta src q d

  -- An operator that uses a bit of the map.
  deliver_bit :
      (o : Op) (x : Exit ℕ ℕ)
      → FitsExit c x
      → out ≡ run_exit c.send b e (advance p, x)
      → (pmap_is_set q (next_bit q) ≡ exit_bit x
          → Holds src (wire c x ++ rest)
          → Accepts o e (exit_field e x) (next_bit q) rest got)
      → Delivers o e cs p q b src rest out got
  deliver_bit o x fits runs accepts = (
    wire c x,
    l.success,
    l.written,
    l.left,
    λ bit h.
        subst₂ (λ (f : Field ℕ) (i : ℕ). Accepts o e f i rest got) (sym l.field) place
          (accepts
            (ap (pmap_is_set q) next
              ∙ bit moved
              ∙ ap (λ (r : Pmap). pmap_is_set r (next_bit p)) l.map
              ∙ exit_pmap-bit p q x m)
            h),
  )
    where
      l : Leaves c x (advance p) b e cs out
      l = leaves c x (advance p) b e cs out fits held room runs

      next : next_bit q ≡ next_bit p
      next = ap (λ (i : ℕ). add64 i 1) m.same_place

      moved : out.pmap.pmap_bit ≡ next_bit p
      moved = ap (λ (r : Pmap). r.pmap_bit) l.map ∙ exit_pmap-place (advance p) x

      place : next_bit q ≡ out.pmap.pmap_bit
      place = next ∙ sym moved

  -- An operator that uses none, over the channel `ch`.
  deliver_bare :
      (ch : Channel) (o : Op) (x : Exit ℕ ℕ)
      → FitsExit ch x
      → out ≡ run_exit ch.send b e (p, x)
      → (Holds src (wire ch x ++ rest) → Accepts o e (exit_field e x) q.pmap_bit rest got)
      → Delivers o e cs p q b src rest out got
  deliver_bare ch o x fits runs accepts = (
    wire ch x,
    l.success,
    l.written,
    l.left,
    λ bit h.
        subst₂ (λ (f : Field ℕ) (i : ℕ). Accepts o e f i rest got) (sym l.field) place (accepts h),
  )
    where
      l : Leaves ch x p b e cs out
      l = leaves ch x p b e cs out fits held room runs

      place : q.pmap_bit ≡ out.pmap.pmap_bit
      place = m.same_place ∙ sym (ap (λ (r : Pmap). r.pmap_bit) l.map ∙ exit_pmap-place p x)

  deliver_fixed :
      e.op ≡ constant
      → d.op ≡ constant
      → Ready n constant e d
      → Agrees constant e d
      → Delivers constant e cs p q b src rest out got
  deliver_fixed eo od value agrees = (
    [],
    ground arith,
    subst (λ (t : Buffer). Holds t (cs ++ [])) (sym stays) (rw append-nil held),
    rw stays (omega arith),
    λ bit h.
        let a = decode_fixed c n e d src q rest (stop e) same od agrees value (flag bit) h in
        record {
          done = a.done;
          left = a.left;
          same_bit = a.same_bit ∙ place;
          received = a.received;
          agrees = a.agrees;
        },
  )
    where
      stays : out.buffer ≡ b
      stays = ground arith

      next : next_bit q ≡ next_bit p
      next = ap (λ (i : ℕ). add64 i 1) m.same_place

      set_bit : pmap_is_set (pmap_set (advance p) (next_bit p)) (next_bit p) ≡ true
      set_bit = exit_pmap-bit p q (transfer true 0 e) m

      clear_bit : pmap_is_set (advance p) (next_bit p) ≡ false
      clear_bit = exit_pmap-bit p q (stop e) m

      place : (if is_mandatory e then q.pmap_bit else next_bit q) ≡ out.pmap.pmap_bit
      place = ground (arith, m.same_place, next, pmap_bit-pmap_set (advance p) (next_bit p))

      flag :
          (out.pmap.pmap_bit ≡ next_bit p
            → pmap_is_set q (next_bit p) ≡ pmap_is_set out.pmap (next_bit p))
          → is_mandatory e ≡ false
          → pmap_is_set q (next_bit q) ≡ not (is_empty e.state)
      flag bit optional' =
          let moved : out.pmap.pmap_bit ≡ next_bit p =
            sym place ∙ ap (λ (t : Bool). if t then q.pmap_bit else next_bit q) optional' ∙ next in
          let same = bit moved in ground (arith, same, next, set_bit, clear_bit)

  -- Every operator.
  pub deliver :
      (o : Op)
      → e.op ≡ o
      → d.op ≡ o
      → Ready n o e d
      → Agrees o e d
      → Delivers o e cs p q b src rest out got
  deliver none eo od s agrees =
      let x = encode_always (n.raise e e.value) e in
      deliver_bare c none x (encode_always-FitsExit c e _ (n.raise_fits e e.value s)) (ground arith)
        (λ h. decode_none c n e d src q rest x same od s refl h)
  deliver copy eo od (s, has, started) agrees =
      let x = encode_expected (n.raise e e.value) (e.value == e.previous) e e in
      deliver_bit copy x (encode_expected-FitsExit c e e _ _ has started (n.raise_fits e e.value s))
        (ground arith)
        (λ bit h. decode_copy c n e d src q rest x same od s agrees has started refl bit h)
  deliver incr eo od (s, has, started) agrees =
      let left : Field ℕ = record e { previous = add64 e.previous 1 } in
      let x = encode_expected (n.raise e e.value) (e.value == add64 e.previous 1) left e in
      deliver_bit incr x
        (encode_expected-FitsExit c e left _ _ has started (n.raise_fits e e.value s))
        (ground arith)
        (λ bit h. decode_incr c n e d src q rest x same od s agrees has started refl bit h)
  deliver delta eo od (s, wv, wp) agrees =
      let x = encode_always (raise_int e (sub64 e.value e.previous)) e in
      deliver_bare signed delta x (encode_always-FitsExit signed e _ (raise_int-fits e _ s))
        (ground arith) (λ h. decode_delta c n e d src q rest x same od s wv wp agrees refl h)
  deliver default eo od (s, has) agrees =
      let x = encode_default (n.raise e e.value) e in
      deliver_bit default x (encode_default-FitsExit c e _ has (n.raise_fits e e.value s))
        (ground arith) (λ bit h. decode_default c n e d src q rest x same od s has refl bit h)
  deliver constant eo od value agrees = deliver_fixed eo od value agrees

deliver_all :
    {c : Channel} (n : Nullable c) (e d : Field ℕ) (b src : Buffer) (p q : Pmap) (rest : List ℕ)
    → Ends n e d
    → Maps p q
    → Holds b []
    → 9 ≤ buffer_remaining b
    → pmap_is_set q (next_bit p) ≡ pmap_is_set (encode_by c.send n.raise b p e).pmap (next_bit p)
    → Holds src (contents (encode_by c.send n.raise b p e).buffer ++ rest)
    → ((encode_by c.send n.raise b p e).success ≡ true)
      × Accepts e.op e
          (encode_by c.send n.raise b p e).field
          (encode_by c.send n.raise b p e).pmap.pmap_bit
          rest
          (decode_switch c.parse n.lower n.add_delta src q d)
deliver_all n e d b src p q rest ends m held room bit sent =
    let (bytes, success, written, _, accepts) =
      deliver n e d b src p q [] rest m held room ends.same_presence e.op refl ends.same_op
        ends.ready ends.agree in
    (success, accepts (λ moved. bit) (rw written.reads at sent))

-- A field that fast_encode_uint writes into an empty message buffer with room for nine bytes is taken
-- over by fast_decode_uint, for every operator and presence: when the two ends agree on what was sent
-- before, the decoder finds the field empty exactly when the encoder's has no value, and else with
-- the encoder's value; it stands at the encoder's bit of the map, leaves the bytes that follow, and
-- the two ends agree again. It holds when the value is below 2^63 - 1;
-- a delta is an i64 from -2^62 to 2^62 - 2; for copy, increment and default a mandatory
-- field has a value, and for copy and increment an assigned one was sent before; a constant is the
-- decoder's reset value; the encoder's next bit lies in its map and is clear, and the decoder's map
-- has at the same place the bit that the encoder leaves.
pub fast_decode_uint-fast_encode_uint :
    (e d : Field ℕ) (b src : Buffer) (p q : Pmap) (rest : List ℕ)
    → Ends nullable_uint e d
    → Maps p q
    → Holds b []
    → 9 ≤ buffer_remaining b
    → pmap_is_set q (next_bit p) ≡ pmap_is_set (fast_encode_uint b p e).pmap (next_bit p)
    → Holds src (contents (fast_encode_uint b p e).buffer ++ rest)
    → ((fast_encode_uint b p e).success ≡ true)
      × Accepts e.op e
          (fast_encode_uint b p e).field
          (fast_encode_uint b p e).pmap.pmap_bit
          rest
          (fast_decode_uint src q d)
unfolding fast_encode_uint fast_decode_uint
fast_decode_uint-fast_encode_uint e d b src p q rest ends m held room bit sent =
    deliver_all nullable_uint e d b src p q rest ends m held room bit sent

-- A field that fast_encode_int writes into an empty message buffer with room for nine bytes is taken
-- over by fast_decode_int, for every operator and presence: when the two ends agree on what was sent
-- before, the decoder finds the field empty exactly when the encoder's has no value, and else with
-- the encoder's value; it stands at the encoder's bit of the map, leaves the bytes that follow, and
-- the two ends agree again. It holds when the value is an i64 from -2^62 to 2^62 - 2;
-- a delta is an i64 from -2^62 to 2^62 - 2; for copy, increment and default a mandatory
-- field has a value, and for copy and increment an assigned one was sent before; a constant is the
-- decoder's reset value; the encoder's next bit lies in its map and is clear, and the decoder's map
-- has at the same place the bit that the encoder leaves.
pub fast_decode_int-fast_encode_int :
    (e d : Field ℕ) (b src : Buffer) (p q : Pmap) (rest : List ℕ)
    → Ends nullable_int e d
    → Maps p q
    → Holds b []
    → 9 ≤ buffer_remaining b
    → pmap_is_set q (next_bit p) ≡ pmap_is_set (fast_encode_int b p e).pmap (next_bit p)
    → Holds src (contents (fast_encode_int b p e).buffer ++ rest)
    → ((fast_encode_int b p e).success ≡ true)
      × Accepts e.op e
          (fast_encode_int b p e).field
          (fast_encode_int b p e).pmap.pmap_bit
          rest
          (fast_decode_int src q d)
unfolding fast_encode_int fast_decode_int
fast_decode_int-fast_encode_int e d b src p q rest ends m held room bit sent =
    deliver_all nullable_int e d b src p q rest ends m held room bit sent
