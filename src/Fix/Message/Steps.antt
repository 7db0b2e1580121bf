-- ===== src/Fix/Message/Steps.antt =====
-- How far the checks of fix_message_parse move the start of the buffer, whatever its bytes.
use libtrading.Base.{
  ℕ, ◌+◌, ◌-◌, ◌%◌, ◌^◌, ◌≤◌, ◌<◌, ◌≡◌, false, Bool-cases, inl, inr, arith, int_of, add64, sub64,
  ltb, ltb→le,
}
use libtrading.Buffer.{Buffer, IsValid, buffer_size, buffer_advance}
use libtrading.Fix.Scan.{State, ok, partial, garbled, soh, readable, fix_uatoi, match_field}
use libtrading.Fix.Scan.Moves.{
  Moves, Moves-trans, Moves-less, Moves-IsValid, Matches, match_field-Matches,
}
use libtrading.Fix.Kind.{fix_msg_type_parse}
use libtrading.Fix.Message.{
  Message, Flags, Step, is_unknown, bad_length, on_value, and_then, parse_begin_string,
  parse_body_length, parse_msg_type, first_three_fields, verify_checksum, checksum_offset,
  checksum_step,
}

-- A jump in the window, to behind a place where the buffer was.
jump :
    {k : ℕ} {b b' : Buffer} (n at' : ℕ)
    → Moves k b b'
    → b.start < at'
    → at' ≤ b'.end
    → (b'.start + n) % 2 ^ 64 ≡ at'
    → Moves 1 b (buffer_advance b' n)
unfolding buffer_advance
jump n at' x after before e = record {
  bytes = x.bytes;
  end = x.end;
  capacity = x.capacity;
  forward = omega (arith, after, e);
  within = omega (arith, before, e);
}

bad_length-lem : (len : ℕ) → bad_length len ≡ false → (0 < int_of len) × (int_of len ≤ 1280)
bad_length-lem len h = ground (arith, h)

module _ {D : Type 0} where
  -- The moves of a step: on a value that is right, on one that ends early, and on one that is garbled.
  abbrev pub StepMoves : (Message ℕ D → Buffer → Type 0) → Buffer → Step D → Type 0
  StepMoves P b (ok _, self, b') = P self b'
  StepMoves P b (partial, self, b') = Moves 0 b b'
  StepMoves P b (garbled, self, b') = Moves 1 b b'

  on_value-StepMoves :
      (P : Message ℕ D → Buffer → Type 0) (self : Message ℕ D) (b : Buffer) (tag : ℕ)
      (next : ℕ → Buffer → Step D)
      → IsValid b
      → ((p : ℕ) (b' : Buffer) → Matches b (ok p, b') → StepMoves P b (next p b'))
      → StepMoves P b (on_value self (match_field b tag) next)
  on_value-StepMoves P self b tag next v h = cases (match_field b tag) (match_field-Matches b tag v)
    where
      cases : (r : State ℕ × Buffer) → Matches b r → StepMoves P b (on_value self r next)
      cases (ok p, b') x = h p b' x
      cases (partial, b') x = x
      cases (garbled, b') x = x

  pub and_then-StepMoves :
      (P Q : Message ℕ D → Buffer → Type 0) (b : Buffer) (r : Step D)
      (next : Message ℕ D → Buffer → Step D)
      → StepMoves P b r
      → ((self : Message ℕ D) (b' : Buffer) → P self b' → StepMoves Q b (next self b'))
      → StepMoves Q b (and_then r next)
  and_then-StepMoves P Q b (ok _, self, b') next x h = h self b' x
  and_then-StepMoves P Q b (partial, self, b') next x h = x
  and_then-StepMoves P Q b (garbled, self, b') next x h = x

  -- From a buffer that has moved `n` bytes already.
  StepMoves-trans :
      (P : Message ℕ D → Buffer → Type 0) (n : ℕ) (b b' : Buffer) (r : Step D)
      → Moves n b b'
      → StepMoves P b' r
      → StepMoves P b r
  StepMoves-trans P n b b' (ok _, self, b'') x y = y
  StepMoves-trans P n b b' (partial, self, b'') x y = Moves-trans 0 x y (omega arith)
  StepMoves-trans P n b b' (garbled, self, b'') x y = Moves-trans 1 x y (omega arith)

  -- Behind the second field and behind the third.
  abbrev HasLength : Buffer → Message ℕ D → Buffer → Type 0
  HasLength b self b' = Moves 4 b b' × (0 < self.body_length) × (self.body_length ≤ 1280)

  abbrev pub HasType : Buffer → Message ℕ D → Buffer → Type 0
  HasType b self b' =
      Moves 6 b b'
      × (0 < self.body_length)
      × (self.body_length ≤ 1280)
      × (b.start + 5 ≤ self.msg_type)
      × (self.msg_type < b'.start)

  parse_body_length-StepMoves :
      (self : Message ℕ D) (b b' : Buffer)
      → IsValid b'
      → Moves 2 b b'
      → StepMoves (HasLength b) b (parse_body_length self b')
  unfolding parse_body_length
  parse_body_length-StepMoves self b b' v x = StepMoves-trans (HasLength b) 2 b b' _ x (
      on_value-StepMoves (HasLength b) self b' 9 _ v (λ p b'' y.
        let len : ℕ = (fix_uatoi (readable b'' p) b''.bytes p).0 in
        elim (Bool-cases (bad_length len)) [
          | inl bad ↦ rw bad (Moves-less y.0 (omega arith))
          | inr good ↦
              let (some_bytes, short) = bad_length-lem len good in
              rw good (Moves-trans 4 x y.0 (omega arith), some_bytes, short)
        ]))

  parse_msg_type-StepMoves :
      (self : Message ℕ D) (b b' : Buffer) (flags : Flags)
      → IsValid b'
      → HasLength b self b'
      → StepMoves (HasType b) b (parse_msg_type self b' flags)
  unfolding parse_msg_type
  parse_msg_type-StepMoves self b b' flags v (x, some_bytes, short) =
      StepMoves-trans (HasType b) 4 b b' _ x (
        on_value-StepMoves (HasType b) self b' 35 _ v (λ p b'' (y, behind, before).
          let t = fix_msg_type_parse b''.bytes p soh in
          let moved : Moves 6 b b''
              × (0 < self.body_length)
              × (self.body_length ≤ 1280)
              × (b.start + 5 ≤ p)
              × (p < b''.start) =
            (
              Moves-trans 6 x y (omega arith),
              some_bytes,
              short,
              omega (arith, behind, x.forward),
              before,
            ) in
          elim (Bool-cases flags.no_type) [
            | inl free ↦ rw free moved
            | inr named ↦ elim (Bool-cases (is_unknown t)) [
              | inl bad ↦ rw (named, bad) (Moves-less y (omega arith))
              | inr good ↦ rw (named, good) moved
            ]
          ]))

  pub first_three_fields-StepMoves :
      (self : Message ℕ D) (b : Buffer) (flags : Flags)
      → IsValid b
      → StepMoves (HasType b) b (first_three_fields self b flags)
  unfolding first_three_fields parse_begin_string
  first_three_fields-StepMoves self b flags v =
      and_then-StepMoves (λ _ b'. Moves 2 b b') (HasType b) b (parse_begin_string self b) _
        (on_value-StepMoves (λ _ b'. Moves 2 b b') self b 8 _ v (λ p b' x. x.0))
        (λ self' b' x.
          and_then-StepMoves (HasLength b) (HasType b) b (parse_body_length self' b') _
            (parse_body_length-StepMoves self' b b' (Moves-IsValid x v) x)
            (λ self'' b'' y. parse_msg_type-StepMoves self'' b b'' flags (Moves-IsValid y.0 v) y))

  pub checksum_step-StepMoves :
      (self : Message ℕ D) (b0 b : Buffer) (flags : Flags)
      → IsValid b0
      → b0.capacity < 2 ^ 31
      → HasType b0 self b
      → StepMoves (λ _ b'. Moves 1 b0 b') b0 (checksum_step self b flags)
  unfolding checksum_step
  checksum_step-StepMoves self b0 b flags v0 small0 (x, some_bytes, short, after, before) =
      elim (Bool-cases (ltb (add64 (buffer_size b) offset) (add64 self.body_length 7))) [
        | inl early ↦ rw early (Moves-less x (omega arith))
        | inr enough ↦ elim (Bool-cases flags.no_csum) [
          | inl free ↦ rw (enough, free) (Moves-less x (omega arith))
          | inr summed ↦
              let b1 : Buffer = buffer_advance b (sub64 self.body_length offset) in
              let there : Moves 1 b0 b1 =
                jump (sub64 self.body_length offset) (self.msg_type - 3 + self.body_length) x
                  (omega (arith, after, some_bytes)) (fits (ltb→le _ _ enough))
                  (omega (arith, offset_lem, after, before, short, v.ordered, v.bounded, small)) in
              rw (enough, summed)
                (StepMoves-trans (λ _ b'. Moves 1 b0 b') 1 b0 b1 _ there
                  (on_value-StepMoves (λ _ b'. Moves 1 b0 b') self b1 10 _ (Moves-IsValid there v0)
                    (λ p b' (y, _, _).
                      elim (Bool-cases (verify_checksum (record self { check_sum = p }) b')) [
                        | inl good ↦ rw good (home b' (Moves-trans 1 there y (omega arith)))
                        | inr bad ↦ rw bad (Moves-less y (omega arith))
                      ])))
        ]
      ]
    where
      v : IsValid b
      v = Moves-IsValid x v0

      small : b.capacity < 2 ^ 31
      small = omega (arith, x.capacity, small0)

      offset : ℕ
      offset = checksum_offset self b

      offset_lem : checksum_offset self b ≡ b.start + 3 - self.msg_type
      offset_lem = ground (arith, after, before, v.ordered, v.bounded, small)

      fits :
          (self.body_length + 7) % 2 ^ 64 ≤ (buffer_size b + checksum_offset self b) % 2 ^ 64
          → self.msg_type - 3 + self.body_length ≤ b.end
      fits h =
          unfold buffer_size in
          omega (arith, h, offset_lem, after, before, short, v.ordered, v.bounded, small)

      home : (b' : Buffer) → Moves 1 b0 b' → Moves 1 b0 (buffer_advance b' (sub64 b.start b'.start))
      home b' y =
          jump (sub64 b.start b'.start) b.start y (omega (arith, x.forward))
            (omega (arith, x.end, y.end, v.ordered))
            (omega (arith, y.within, y.end, x.end, v.ordered, v.bounded, small))
