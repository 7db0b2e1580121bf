-- ===== src/Fast/Message/Runs.antt =====
-- The loops over the fields of a message of integer fields, between fast_message_encode and
-- fast_message_decode.
use libtrading.Base.{
  ℕ, suc, ◌+◌, ◌*◌, ◌≤◌, ◌<◌, ◌≡◌, refl, sym, ◌∙◌, true, false, List, [], ◌∷◌, ◌++◌, append-nil,
  append_assoc, length, arith, inl, inr, Bool-cases, ◌==◌, ==_iff, ==→ne,
}
use mathlib.Core.Path.{subst}
use libtrading.Buffer.{Buffer, buffer_remaining}
use libtrading.Buffer.Contents.{Holds}
use libtrading.Fast.Codec.{ok}
use libtrading.Fast.Pmap.{Pmap, pmap_is_set, next_bit, IsPmap}
use libtrading.Fast.Text.{Chars}
use libtrading.Fast.Message.{Item, Sequence, Taken, Run, decode_run, one_more}
use libtrading.Fast.Message.Decode.{decode_field}
use libtrading.Fast.Message.Encode.{encode_item, encode_run, also, Sent}
use libtrading.Fast.Message.Marks.{Marks}
use libtrading.Fast.Message.Fields.{ItemEnds, ItemReceived, ItemDelivers, IsRoomy, deliver_item}

-- The two ends of a message's fields, one by one.
abbrev pub AllEnds : List (Item Sequence) → List (Item Sequence) → Type 0
AllEnds [] [] = Unit {0}
AllEnds (i ∷ is) (j ∷ js) = ItemEnds i j × AllEnds is js
AllEnds _ _ = ⊥

abbrev pub AllReceived : List (Item Sequence) → List (Item Sequence) → List (Item Sequence) → Type 0
AllReceived [] [] [] = Unit {0}
AllReceived (i ∷ is) (i' ∷ is') (j ∷ js) = ItemReceived i i' j × AllReceived is is' js
AllReceived _ _ _ = ⊥

-- The encoder's map when `n` fields are left: no bit behind its place is set, and they all fit.
pub record IsOpen (p : Pmap) (n : ℕ) : Type 0 where
  pub well_formed : IsPmap p
  pub eight : p.nr_bytes ≡ 8
  pub short : p.pmap_bit + n < 56
  pub clear : (j : ℕ) → p.pmap_bit < j → pmap_is_set p j ≡ false

module _ {p : Pmap} {n : ℕ} (o : IsOpen p (suc n)) where
  next-suc : next_bit p ≡ suc p.pmap_bit
  next-suc = omega (arith, o.short)

  open-IsRoomy : IsRoomy p
  open-IsRoomy = record {
    well_formed = o.well_formed;
    inside = omega (arith, o.short, o.eight);
    clear = o.clear (next_bit p) (omega (arith, next-suc));
  }

  Marks-IsOpen : {p' : Pmap} → Marks p p' → IsOpen p' n
  Marks-IsOpen {p'} m = record {
    well_formed = m.well_formed;
    eight = m.same_size ∙ o.eight;
    short = elim m.place [
      | inl (same, _) ↦ omega (arith, o.short)
      | inr moved ↦ omega (arith, o.short, moved, next-suc)
    ];
    clear = elim m.place [
      | inl (same, kept) ↦ λ j after. elim (Bool-cases (j == next_bit p)) [
        | inl e ↦
            subst (λ (k : ℕ). pmap_is_set p' k ≡ false) (sym ((==_iff _ _).0 e))
              (kept ∙ o.clear (next_bit p) (omega (arith, next-suc)))
        | inr ne ↦ m.others j (==→ne _ _ ne) ∙ o.clear j (omega (arith, same, after))
      ]
      | inr moved ↦ λ j after.
          m.others j (λ e. omega (arith, e, moved, after))
          ∙ o.clear j (omega (arith, moved, next-suc, after))
    ];
  }

-- What the later fields leave of a map: the bits up to its place.
abbrev pub Kept : Pmap → Pmap → Type 0
Kept p last = (j : ℕ) → j ≤ p.pmap_bit → pmap_is_set last j ≡ pmap_is_set p j

Kept-before :
    {n : ℕ} {p p' : Pmap} (last : Pmap) → IsOpen p (suc n) → Marks p p' → Kept p' last → Kept p last
Kept-before last o m kept j h =
    kept j (elim m.place [
      | inl (same, _) ↦ omega (arith, same, h)
      | inr moved ↦ omega (arith, moved, next-suc o, h)
    ])
    ∙ m.others j (λ e. omega (arith, e, next-suc o, h))

-- The decoder's loop behind the fields that the encoder's loop wrote.
pub record RunReads (is is' : List (Item Sequence)) (rest : List ℕ) (q : Pmap)
    (r : Run (Item Sequence)) : Type 0 where
  pub done : r.ret ≡ ok tt
  pub left : Holds r.buffer rest
  pub same_bytes : r.pmap.bytes ≡ q.bytes
  pub received : AllReceived is is' r.fields

pub record RunDelivers (scratch : Chars) (is js : List (Item Sequence)) (p : Pmap) (cs : List ℕ)
    (out : Sent (List (Item Sequence))) : Type 0 where
  pub bytes : List ℕ
  pub success : out.success ≡ true
  pub written : Holds out.buffer (cs ++ bytes)
  pub last : IsOpen out.pmap 0
  pub kept : Kept p out.pmap
  pub reads :
      (saved : ℕ) (src : Buffer) (q : Pmap) (rest : List ℕ)
      → q.pmap_bit ≡ p.pmap_bit
      → ((j : ℕ) → pmap_is_set q j ≡ pmap_is_set out.pmap j)
      → Holds src (bytes ++ rest)
      → RunReads is out.field rest q (decode_run (decode_field scratch) saved src q js)

encode_run-more :
    (b : Buffer) (p : Pmap) (i : Item Sequence) (is : List (Item Sequence))
    → (encode_item b p i).success ≡ true
    → encode_run b p (i ∷ is)
      ≡ also
          (encode_item b p i).field
          (encode_run (encode_item b p i).buffer (encode_item b p i).pmap is)
unfolding encode_run
encode_run-more b p i is h = rw h refl

pub decode_run-more :
    {F : Type 0} (step : Buffer → Pmap → F → Taken F) (saved : ℕ) (b : Buffer) (p : Pmap) (f : F)
    (fs : List F)
    → (step b p f).ret ≡ ok tt
    → decode_run step saved b p (f ∷ fs)
      ≡ one_more
          (step b p f).field
          (decode_run step p.pmap_bit (step b p f).buffer (step b p f).pmap fs)
unfolding decode_run
decode_run-more step saved b p f fs h = rw h refl

-- One field, and the fields behind it.
run_cons :
    (scratch : Chars) (i j : Item Sequence) (is js : List (Item Sequence)) (b : Buffer) (p : Pmap)
    (cs : List ℕ)
    → IsOpen p (suc (length is))
    → (d : ItemDelivers scratch i j b p cs)
    → RunDelivers scratch is js
        (encode_item b p i).pmap
        (cs ++ d.bytes)
        (encode_run (encode_item b p i).buffer (encode_item b p i).pmap is)
    → RunDelivers scratch (i ∷ is) (j ∷ js) p cs (encode_run b p (i ∷ is))
run_cons scratch i j is js b p cs o d r =
    subst (RunDelivers scratch (i ∷ is) (j ∷ js) p cs) (sym (encode_run-more b p i is d.success))
      (record {
        bytes = d.bytes ++ r.bytes;
        success = r.success;
        written = rw append_assoc at r.written;
        last = r.last;
        kept = Kept-before _ o d.marks r.kept;
        reads = λ saved src q rest place bits h.
            let f =
              d.reads src q (r.bytes ++ rest) place
                (λ moved. bits (next_bit p) ∙ r.kept (next_bit p) (omega (arith, moved)))
                (rw append_assoc at h) in
            let g =
              r.reads q.pmap_bit (decode_field scratch src q j).buffer
                (decode_field scratch src q j).pmap rest f.same_bit (λ k. f.same_map k ∙ bits k)
                f.left in
            subst (RunReads (i ∷ is) _ rest q)
              (sym (decode_run-more (decode_field scratch) saved src q j js f.done))
              (record {
                done = g.done;
                left = g.left;
                same_bytes = g.same_bytes ∙ f.same_bytes;
                received = (f.received, g.received);
              });
      })

-- All fields, with nine bytes of room for each.
pub run_delivers :
    (scratch : Chars) (is js : List (Item Sequence)) (b : Buffer) (p : Pmap) (cs : List ℕ)
    → AllEnds is js
    → IsOpen p (length is)
    → Holds b cs
    → 9 * length is ≤ buffer_remaining b
    → RunDelivers scratch is js p cs (encode_run b p is)
run_delivers scratch [] [] b p cs ends o held room =
    unfold encode_run decode_run in
    record {
      bytes = [];
      success = refl;
      written = rw append-nil held;
      last = o;
      kept = λ j h. refl;
      reads = λ saved src q rest place bits h. record {
        done = refl;
        left = h;
        same_bytes = refl;
        received = tt;
      };
    }
run_delivers scratch [] (j ∷ js) b p cs ends o held room = absurd ends
run_delivers scratch (i ∷ is) [] b p cs ends o held room = absurd ends
run_delivers scratch (i ∷ is) (j ∷ js) b p cs ends o held room =
    let d = deliver_item scratch i j b p cs ends.0 (open-IsRoomy o) held (omega arith) in
    run_cons scratch i j is js b p cs o d (
      run_delivers scratch is js (encode_item b p i).buffer (encode_item b p i).pmap (cs ++ d.bytes)
        ends.1 (Marks-IsOpen o d.marks) d.written (omega (arith, d.left)))
