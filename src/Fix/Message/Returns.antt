-- ===== src/Fix/Message/Returns.antt =====
-- How fix_message_parse ends on any bytes.
use libtrading.Base.{
  ℕ, zero, suc, ◌+◌, ◌-◌, ◌*◌, ◌%◌, ◌^◌, ◌≤◌, ◌<◌, ◌≡◌, false, true, Bool-cases, inl, inr, List, [],
  ◌∷◌, ◌++◌, length, length-append, Option, some, none, ltb, ltb→lt, ltb→le, arith, sub64, ◌==◌,
}
use libtrading.Buffer.{Buffer, IsValid, buffer_size, buffer_advance}
use libtrading.Fix.Scan.{State, ok, partial, garbled, parse_field}
use libtrading.Fix.Scan.Moves.{
  Moves, Moves-stay, Moves-trans, Moves-less, Moves-IsValid, Scans, parse_field-Scans,
}
use libtrading.Fix.Field.{FieldType, Field, Externals}
use libtrading.Fix.Message.{
  Message, Flags, Run, done, overrun, unfinished, Step, fix_max_field_number, first_three_fields,
  field_of, stored, is_checksum, go_on, field_round, rest_loop, rest_of_message, check_message,
  Outcome, failed, finish, checked, parse_rounds, fix_message_parse,
}
use libtrading.Fix.Message.Steps.{
  StepMoves, and_then-StepMoves, HasType, first_three_fields-StepMoves, checksum_step-StepMoves,
}

size_lem : {b : Buffer} → IsValid b → buffer_size b ≡ b.end - b.start
unfolding buffer_size
size_lem v = omega (arith, v.ordered, v.bounded, v.addressable)

module _ {D : Type 0} (ext : Externals D) (tag_type : ℕ → FieldType) where
  check_message-StepMoves :
      (self : Message ℕ D) (b : Buffer) (flags : Flags)
      → IsValid b
      → b.capacity < 2 ^ 31
      → StepMoves (λ _ b'. Moves 1 b b') b (check_message ext tag_type self b flags)
  unfolding check_message
  check_message-StepMoves self b flags v small =
      and_then-StepMoves (HasType b) (λ _ b'. Moves 1 b b') b (first_three_fields self b flags) _
        (first_three_fields-StepMoves self b flags v)
        (λ self' b' x. checksum_step-StepMoves self' b b' flags v small x)

  -- How the loop over the fields ends, with `fs` stored: inside of the array, or with more bytes than the
  -- fields that the array has room for can take.
  abbrev pub Rests : List (Field ℕ D) → Buffer → Run (Message ℕ D × Buffer) → Type 0
  Rests fs b (done r) = Moves 0 b r.1 × (length r.0.fields ≤ fix_max_field_number)
  Rests fs b overrun = 2 * suc fix_max_field_number ≤ buffer_size b + 2 * length fs
  Rests fs b unfinished = ⊥

  -- One round of it, with what the rounds behind it do.
  module _ (next : Message ℕ D → List (Field ℕ D) → Buffer → Run (Message ℕ D × Buffer))
      (fs : List (Field ℕ D)) (b : Buffer) (v : IsValid b)
      (h : (self : Message ℕ D) (fs' : List (Field ℕ D)) (b' : Buffer)
        → Moves 2 b b'
        → length fs' ≤ fix_max_field_number
        → Rests fs' b' (next self fs' b'))
      (few : length fs ≤ fix_max_field_number) where
    Rests-back :
        (fs' : List (Field ℕ D)) (b' : Buffer) (r : Run (Message ℕ D × Buffer))
        → Moves 2 b b'
        → length fs' ≤ suc (length fs)
        → Rests fs' b' r
        → Rests fs b r
    Rests-back fs' b' (done r) x more (y, stays) = (Moves-trans 0 x y (omega arith), stays)
    Rests-back fs' b' overrun x more y =
        let v' = Moves-IsValid x v in
        omega (arith, size_lem v, size_lem v', x.end, x.forward, x.within, y, more)
    Rests-back fs' b' unfinished x more bad = bad

    Rests-go_on :
        (self : Message ℕ D) (f : Option (Field ℕ D)) (b' : Buffer)
        → Moves 2 b b'
        → Rests fs b (go_on ext tag_type next self (stored ext tag_type f fs) b')
    Rests-go_on self none b' x = Rests-back fs b' _ x (omega arith) (h self fs b' x few)
    Rests-go_on self (some f) b' x = elim (Bool-cases (ltb (length fs) fix_max_field_number)) [
      | inl room ↦
          let longer = length-append fs (f ∷ []) in
          let held : length (fs ++ (f ∷ [])) ≤ fix_max_field_number =
            omega (arith, ltb→lt _ _ room, longer) in
          rw room (
            Rests-back (fs ++ (f ∷ [])) b' _ x (omega (arith, longer))
              (h self (fs ++ (f ∷ [])) b' x held))
      | inr full ↦ rw full (omega (arith, size_lem v, x.end, x.forward, x.within, ltb→le _ _ full))
    ]

    Rests-field_round :
        (self : Message ℕ D) (r : State (ℕ × ℕ) × Buffer)
        → Scans 2 b r
        → Rests fs b (field_round ext tag_type next self fs r)
    Rests-field_round self (partial, b') x = (x, omega arith)
    Rests-field_round self (garbled, b') x = (Moves-less x (omega arith), omega arith)
    Rests-field_round self (ok (tag, p), b') x =
        elim (Bool-cases (is_checksum ext tag_type (tag_type tag))) [
          | inl last ↦ rw last (Moves-less x (omega arith), few)
          | inr more ↦ rw more (Rests-go_on _ (field_of ext tag_type (tag_type tag) b' tag p) b' x)
        ]

  Rests-rest_loop :
      (n : ℕ) (self : Message ℕ D) (fs : List (Field ℕ D)) (b : Buffer)
      → IsValid b
      → buffer_size b < n
      → length fs ≤ fix_max_field_number
      → Rests fs b (rest_loop ext tag_type n self fs b)
  unfolding rest_loop
  Rests-rest_loop zero self fs b v h few = absurd (omega arith)
  Rests-rest_loop (suc n) self fs b v h few =
      Rests-field_round (rest_loop ext tag_type n) fs b v
        (λ self' fs' b' x few'.
          let v' = Moves-IsValid x v in
          Rests-rest_loop n self' fs' b' v'
            (omega (arith, size_lem v, size_lem v', x.end, x.forward, x.within, h)) few')
        few self (parse_field b) (parse_field-Scans b v)

  -- Where a run of fix_message_parse ends.
  abbrev pub Returns : Buffer → Run (Outcome ext tag_type) → Type 0
  Returns b (done o) =
      Moves 0 b o.buffer × (o.success ≡ true → length o.self.fields ≤ fix_max_field_number)
  Returns b overrun = 2 * suc fix_max_field_number ≤ buffer_size b
  Returns b unfinished = ⊥

  -- Back at the start of a round.
  back :
      (b b' : Buffer)
      → IsValid b
      → Moves 0 b b'
      → Moves 0 b (buffer_advance b' (sub64 b.start b'.start))
  unfolding buffer_advance
  back b b' v x =
      let e : (b'.start + (b.start + 2 ^ 64 - b'.start) % 2 ^ 64) % 2 ^ 64 ≡ b.start =
        omega (arith, x.within, x.end, v.ordered, v.bounded, v.addressable) in
      record {
        bytes = x.bytes;
        end = x.end;
        capacity = x.capacity;
        forward = omega (arith, e);
        within = omega (arith, e, x.end, v.ordered);
      }

  Returns-from :
      (n : ℕ) (b b' : Buffer) (r : Run (Outcome ext tag_type))
      → IsValid b
      → Moves n b b'
      → Returns b' r
      → Returns b r
  Returns-from n b b' (done o) v x (y, room) = (Moves-trans 0 x y (omega arith), room)
  Returns-from n b b' overrun v x y =
      let v' = Moves-IsValid x v in
      omega (arith, size_lem v, size_lem v', x.end, x.forward, x.within, y)
  Returns-from n b b' unfinished v x bad = bad

  Returns-finish :
      (b : Buffer) (r : Run (Message ℕ D × Buffer)) (start : ℕ)
      → Rests [] b r
      → Returns b (finish ext tag_type r start)
  Returns-finish b (done r) start (x, room) = (x, λ _. room)
  Returns-finish b overrun start x = omega (arith, x)
  Returns-finish b unfinished start bad = bad

  Returns-failed :
      (self : Message ℕ D) (b b' : Buffer)
      → IsValid b
      → Moves 0 b b'
      → Returns b (done (failed ext tag_type self b.start b'))
  Returns-failed self b b' v x = (back b b' v x, λ e. absurd (let no : false ≡ true = e in cc))

  Returns-checked :
      (next : Message ℕ D → Buffer → Run (Outcome ext tag_type)) (b : Buffer) (r : Step D)
      → IsValid b
      → ((self' : Message ℕ D) (b' : Buffer) → Moves 1 b b' → Returns b' (next self' b'))
      → StepMoves (λ _ b'. Moves 1 b b') b r
      → Returns b (checked ext tag_type next b.start r)
  unfolding rest_of_message
  Returns-checked next b (ok _, self', b') v h x =
      let v' = Moves-IsValid x v in
      Returns-from 1 b b' _ v x (
        Returns-finish b' _ b.start
          (Rests-rest_loop (suc (buffer_size b')) self' [] b' v' (omega arith) (omega arith)))
  Returns-checked next b (partial, self', b') v h x = Returns-failed self' b b' v x
  Returns-checked next b (garbled, self', b') v h x = Returns-from 1 b b' _ v x (h self' b' x)

  Returns-parse_rounds :
      (n : ℕ) (self : Message ℕ D) (b : Buffer) (flags : Flags)
      → IsValid b
      → b.capacity < 2 ^ 31
      → buffer_size b < n
      → Returns b (parse_rounds ext tag_type n self b flags)
  unfolding parse_rounds
  Returns-parse_rounds zero self b flags v small h = absurd (omega arith)
  Returns-parse_rounds (suc n) self b flags v small h = elim (Bool-cases (buffer_size b == 0)) [
    | inl empty ↦ rw empty (Returns-failed self b b v (Moves-stay b v))
    | inr held ↦ rw held (
        Returns-checked (λ self' b'. parse_rounds ext tag_type n self' b' flags) b
          (check_message ext tag_type self b flags) v
          (λ self' b' x.
            let v' = Moves-IsValid x v in
            Returns-parse_rounds n self' b' flags v' (omega (arith, x.capacity, small))
              (omega (arith, size_lem v, size_lem v', x.end, x.forward, x.within, h)))
          (check_message-StepMoves self b flags v small))
  ]

  -- On any valid buffer of less than 2 GiB, whatever its bytes, the flags and the dialect, fix_message_parse
  -- does not go on for ever: the two loops end by themselves within one round for each unread byte and one more.
  -- It returns, or it writes behind the array of the fields, and that only where there are at least 98
  -- unread bytes, two for each of 49 fields. Where it returns, it leaves the memory, the end and the
  -- capacity of the buffer as they were, its start inside of the window, not in front of where it was, and in a
  -- message that it has found no more fields than the array has room for.
  pub fix_message_parse-Returns :
      (self : Message ℕ D) (b : Buffer) (flags : Flags)
      → IsValid b
      → b.capacity < 2 ^ 31
      → Returns b (fix_message_parse ext tag_type self b flags)
  unfolding fix_message_parse
  fix_message_parse-Returns self b flags v small =
      Returns-parse_rounds (suc (buffer_size b)) self b flags v small (omega arith)
