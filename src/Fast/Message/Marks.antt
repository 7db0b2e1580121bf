-- ===== src/Fast/Message/Marks.antt =====
-- What the integer coders of lib/proto/fast_message.c do to a presence map: the encoders set at most
-- the next bit, and the decoders move only their place.
use libtrading.Base.{
  ℕ, ◌≡◌, refl, sym, ap, ◌∙◌, ◌≢◌, Bool, true, false, ◌⊎◌, inl, inr, arith, add64, sub64, ◌==◌,
}
use mathlib.Core.Path.{subst}
use libtrading.Buffer.{Buffer}
use libtrading.Fast.Codec.{Parsed, ok, garbled, partial, parse_int, transfer_int}
use libtrading.Fast.Pmap.{Pmap, pmap_is_set, pmap_set, next_bit, advance, IsPmap}
use libtrading.Fast.Pmap.Laws.{
  pmap_is_set-pmap_set_ne, pmap_set-IsPmap, pmap_bit-pmap_set, pmap_is_set-place,
}
use libtrading.Fast.Field.{
  Op, none, copy, incr, delta, default, constant, Field, Exit, transfer, to_empty, stop, fail,
  Encoded, encode_always, encode_expected, encode_default,
}
use libtrading.Fast.Integer.{encode_by, run_exit, finish_transfer, decode_switch, store, raise_int}
use libtrading.Fast.Integer.Encoding.{encode_always_cases}

-- A map before and behind a field.
pub record Marks (p p' : Pmap) : Type 0 where
  pub well_formed : IsPmap p'
  pub same_size : p'.nr_bytes ≡ p.nr_bytes
  pub others : (j : ℕ) → j ≢ next_bit p → pmap_is_set p' j ≡ pmap_is_set p j
  pub place :
      ((p'.pmap_bit ≡ p.pmap_bit) × (pmap_is_set p' (next_bit p) ≡ pmap_is_set p (next_bit p)))
      ⊎ (p'.pmap_bit ≡ next_bit p)

Marks-none : (p : Pmap) → IsPmap p → Marks p p
Marks-none p h = record {
  well_formed = h;
  same_size = refl;
  others = λ j ne. refl;
  place = inl (refl, refl);
}

moved-IsPmap : (p : Pmap) → IsPmap p → IsPmap (advance p)
moved-IsPmap p h = record { within = h.within; in_range = h.in_range }

Marks-moved : (p : Pmap) → IsPmap p → Marks p (advance p)
Marks-moved p h = record {
  well_formed = moved-IsPmap p h;
  same_size = refl;
  others = λ j ne. pmap_is_set-place p (next_bit p) j;
  place = inr refl;
}

nr_bytes-pmap_set : (p : Pmap) (bit : ℕ) → (pmap_set p bit).nr_bytes ≡ p.nr_bytes
unfolding pmap_set
nr_bytes-pmap_set p bit = ground arith

Marks-set : (p : Pmap) → IsPmap p → Marks p (pmap_set (advance p) (next_bit p))
Marks-set p h = record {
  well_formed = pmap_set-IsPmap (advance p) (next_bit p) (moved-IsPmap p h);
  same_size = nr_bytes-pmap_set (advance p) (next_bit p);
  others = λ j ne.
      pmap_is_set-pmap_set_ne (advance p) (next_bit p) j (moved-IsPmap p h) (λ e. ne (sym e))
      ∙ pmap_is_set-place p (next_bit p) j;
  place = inr (pmap_bit-pmap_set (advance p) (next_bit p));
}

-- The maps that a field can leave.
abbrev Leaves : Pmap → Pmap → Type 0
Leaves p r = (r ≡ p) ⊎ (r ≡ advance p) ⊎ (r ≡ pmap_set (advance p) (next_bit p))

finish_transfer-pmap :
    (pset : Bool) (s : Bool × Buffer) (p : Pmap) (f : Field ℕ)
    → ((finish_transfer pset s p f).pmap ≡ p)
      ⊎ ((pset ≡ true) × ((finish_transfer pset s p f).pmap ≡ pmap_set p p.pmap_bit))
finish_transfer-pmap true (true, b) p f = inr (refl, refl)
finish_transfer-pmap false (true, b) p f = inl refl
finish_transfer-pmap pset (false, b) p f = inl refl

run_exit-moved :
    (send : Buffer → ℕ → Bool × Buffer) (b : Buffer) (e : Field ℕ) (p : Pmap) (x : Exit ℕ ℕ)
    → Leaves p (run_exit send b e (advance p, x)).pmap
run_exit-moved send b e p (transfer pset tmp f) =
    elim (finish_transfer-pmap pset (send b tmp) (advance p)
      (record f { previous = f.value; state_previous = f.state })) [
        | inl same ↦ inr (inl same)
        | inr (_, set) ↦ inr (inr set)
      ]
run_exit-moved send b e p (to_empty pset f) =
    elim (finish_transfer-pmap pset (send b 0) (advance p)
      (record f { value = f.previous; state_previous = f.state })) [
        | inl same ↦ inr (inl same)
        | inr (_, set) ↦ inr (inr set)
      ]
run_exit-moved send b e p (stop f) = inr (inl refl)
run_exit-moved send b e p fail = inr (inl refl)

run_exit-always :
    (send : Buffer → ℕ → Bool × Buffer) (b : Buffer) (e : Field ℕ) (p : Pmap) (tmp : ℕ)
    → Leaves p (run_exit send b e (p, encode_always tmp e)).pmap
run_exit-always send b e p tmp = elim (encode_always_cases e tmp) [
  | inl (_, leave) ↦ rw leave (elim (finish_transfer-pmap false (send b 0) p _) [
    | inl same ↦ inl same
    | inr (wrong, _) ↦ absurd (cc)
  ])
  | inr (_, leave) ↦ rw leave (elim (finish_transfer-pmap false (send b tmp) p _) [
    | inl same ↦ inl same
    | inr (wrong, _) ↦ absurd (cc)
  ])
]

run_exit-constant :
    (send : Buffer → ℕ → Bool × Buffer) (raise : Field ℕ → ℕ → ℕ) (b : Buffer) (p : Pmap)
    (e : Field ℕ)
    → e.op ≡ constant
    → Leaves p (encode_by send raise b p e).pmap
run_exit-constant send raise b p e h = ground arith

module _ (send : Buffer → ℕ → Bool × Buffer) (raise : Field ℕ → ℕ → ℕ) (b : Buffer) (p : Pmap)
    (e : Field ℕ) where
  Leaves-moved :
      (x : Exit ℕ ℕ)
      → encode_by send raise b p e ≡ run_exit send b e (advance p, x)
      → Leaves p (encode_by send raise b p e).pmap
  Leaves-moved x runs =
      subst (λ (r : Encoded ℕ). Leaves p r.pmap) (sym runs) (run_exit-moved send b e p x)

  Leaves-always :
      (send' : Buffer → ℕ → Bool × Buffer) (tmp : ℕ)
      → encode_by send raise b p e ≡ run_exit send' b e (p, encode_always tmp e)
      → Leaves p (encode_by send raise b p e).pmap
  Leaves-always send' tmp runs =
      subst (λ (r : Encoded ℕ). Leaves p r.pmap) (sym runs) (run_exit-always send' b e p tmp)

  encode_by-Leaves : (o : Op) → e.op ≡ o → Leaves p (encode_by send raise b p e).pmap
  encode_by-Leaves none h = Leaves-always send (raise e e.value) (ground arith)
  encode_by-Leaves copy h =
      Leaves-moved (encode_expected (raise e e.value) (e.value == e.previous) e e) (ground arith)
  encode_by-Leaves incr h =
      let next = add64 e.previous 1 in
      Leaves-moved
        (encode_expected (raise e e.value) (e.value == next) (record e { previous = next }) e)
        (ground arith)
  encode_by-Leaves delta h =
      Leaves-always transfer_int (raise_int e (sub64 e.value e.previous)) (ground arith)
  encode_by-Leaves default h = Leaves-moved (encode_default (raise e e.value) e) (ground arith)
  encode_by-Leaves constant h = run_exit-constant send raise b p e h

  pub encode_by-Marks : IsPmap p → Marks p (encode_by send raise b p e).pmap
  encode_by-Marks h = elim (encode_by-Leaves e.op refl) [
    | inl same ↦ subst (Marks p) (sym same) (Marks-none p h)
    | inr (inl moved) ↦ subst (Marks p) (sym moved) (Marks-moved p h)
    | inr (inr set) ↦ subst (Marks p) (sym set) (Marks-set p h)
  ]

-- The decoders.
store-pmap :
    (make : ℕ → Field ℕ) (r : Parsed ℕ × Buffer) (p : Pmap) (f : Field ℕ)
    → (store make r p f).pmap ≡ p
store-pmap make (ok v, b) p f = refl
store-pmap make (garbled, b) p f = refl
store-pmap make (partial, b) p f = refl

-- A decoder leaves the map, or the map with its place moved on.
pub decode_switch-pmap :
    (parse : Buffer → Parsed ℕ × Buffer) (lower add_delta : Field ℕ → ℕ → Field ℕ) (b : Buffer)
    (q : Pmap) (f : Field ℕ)
    → ((decode_switch parse lower add_delta b q f).pmap ≡ q)
      ⊎ ((decode_switch parse lower add_delta b q f).pmap ≡ advance q)
decode_switch-pmap parse lower add_delta b q f = ground (
  arith,
  store-pmap (lower f) (parse b) q f,
  store-pmap (lower f) (parse b) (advance q) f,
  store-pmap (add_delta f) (parse_int b) q f,
)

pub decode_switch-bytes :
    (parse : Buffer → Parsed ℕ × Buffer) (lower add_delta : Field ℕ → ℕ → Field ℕ) (b : Buffer)
    (q : Pmap) (f : Field ℕ)
    → (decode_switch parse lower add_delta b q f).pmap.bytes ≡ q.bytes
decode_switch-bytes parse lower add_delta b q f =
    elim (decode_switch-pmap parse lower add_delta b q f) [
      | inl same ↦ ap (λ (r : Pmap). r.bytes) same
      | inr moved ↦ ap (λ (r : Pmap). r.bytes) moved
    ]

-- So it tests no bit otherwise.
pub decode_switch-bits :
    (parse : Buffer → Parsed ℕ × Buffer) (lower add_delta : Field ℕ → ℕ → Field ℕ) (b : Buffer)
    (q : Pmap) (f : Field ℕ) (j : ℕ)
    → pmap_is_set (decode_switch parse lower add_delta b q f).pmap j ≡ pmap_is_set q j
decode_switch-bits parse lower add_delta b q f j =
    elim (decode_switch-pmap parse lower add_delta b q f) [
      | inl same ↦ ap (λ (r : Pmap). pmap_is_set r j) same
      | inr moved ↦ ap (λ (r : Pmap). pmap_is_set r j) moved ∙ pmap_is_set-place q (next_bit q) j
    ]
