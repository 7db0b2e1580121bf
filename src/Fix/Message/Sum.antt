-- ===== src/Fix/Message/Sum.antt =====
-- checksum_step and verify_checksum on a message and its checksum field.
use libtrading.Base.{
  ℕ, ◌+◌, ◌-◌, ◌%◌, ◌≤◌, ◌<◌, ◌≡◌, refl, ap, ◌∙◌, true, false, List, ◌++◌, length, length-append,
  arith, add64, sub64, ltb, Bool-cases, inl, inr, ==_iff,
}
use libtrading.Buffer.{Buffer, buffer_size, buffer_advance}
use libtrading.Buffer.Contents.{Holds, buffer_size-length}
use libtrading.Buffer.Moves.{total, buffer_sum_range-total}
use libtrading.Itoa.{uilog_10}
use libtrading.Itoa.Digits.{dig, decimal, dig-IsDigit, value_from-dig}
use libtrading.Fix.Scan.{ok, readable, fix_uatoi}
use libtrading.Fix.Scan.Memory.{
  At, At-append, At-window, Holds-At, skip, skip-Holds, start_small, buffer_advance-skip,
}
use libtrading.Fix.Scan.Fields.{IsTag, value_at, behind, match_field-field}
use libtrading.Fix.Kind.{MsgType}
use libtrading.Fix.Message.{Message, Flags, checksum_offset, verify_checksum, checksum_step}
use libtrading.Fix.Message.Typed.{decimal-IsTag, digits-IsValue}
use libtrading.Fix.Message.Unparsed.{length-checksum_bytes}
use libtrading.Fix.Message.Checked.{
  fix_uatoi-field, type_field, length_of, begin_field, length_field, message_text,
  message_text-append, sum_field, at_length, at_type, at_other, with_three,
}

verify_checksum-total :
    {D : Type 0} (self : Message ℕ D) (b : Buffer) (s : ℕ) (cs : List ℕ)
    → At b.bytes s cs
    → sub64 self.begin_string 2 ≡ s
    → sub64 self.check_sum 3 ≡ s + length cs
    → (fix_uatoi (readable b self.check_sum) b.bytes self.check_sum).0 ≡ total cs % 256
    → verify_checksum self b ≡ true
unfolding verify_checksum
verify_checksum-total self b s cs h from to read =
    let size : s + length cs - s ≡ length cs = omega arith in
    rw
      (
        from,
        to,
        buffer_sum_range-total b.bytes s (s + length cs),
        size,
        At-window b.bytes s cs h,
        read,
      )
      ((==_iff (total cs % 256) (total cs % 256)).1 refl)

-- The three digits of a byte.
byte-IsTag : (n : ℕ) → n < 256 → IsTag (dig 3 n) n
byte-IsTag n byte = record {
  digits = dig-IsDigit 3 n;
  value = value_from-dig 3 n (omega arith);
  small = omega arith;
}

-- The tags 8, 10 and 35 with the '=' behind them.
tag_lengths :
    (length (decimal 8) + 1 ≡ 2) × (length (decimal 10) + 1 ≡ 3) × (length (decimal 35) + 1 ≡ 3)
unfolding uilog_10
tag_lengths = (refl, refl, refl)

module _ (begin type other : List ℕ) {D : Type 0} (self : Message ℕ D) (b : Buffer) (rest : List ℕ)
    (t : MsgType) where
  pub checksum_step-fields :
      (flags : Flags)
      → length_of begin type other ≤ 1280
      → Holds b (message_text begin type other ++ (sum_field begin type other ++ rest))
      → (c : ℕ) × (checksum_step
            (with_three begin type other self b t flags)
            (at_other begin type other b)
            flags
          ≡ (
            ok tt,
            record (with_three begin type other self b t flags) { check_sum = c },
            at_other begin type other b,
          ))
  unfolding checksum_step
  checksum_step-fields flags short h =
      let hs : List ℕ = begin_field begin type other in
      let ls : List ℕ = length_field begin type other in
      let ts : List ℕ = type_field begin type other in
      let three : Message ℕ D = with_three begin type other self b t flags in
      let b2 : Buffer = at_type begin type other b in
      let b3 : Buffer = at_other begin type other b in
      let split = message_text-append begin type other (sum_field begin type other ++ rest) in
      let h3 : Holds b3 (other ++ (sum_field begin type other ++ rest)) =
        skip-Holds b2 ts _
          (skip-Holds (at_length begin type other b) ls _ (skip-Holds b hs _ (rw split at h))) in
      let b4 : Buffer = skip b3 (length other) in
      let h4 : Holds b4 (sum_field begin type other ++ rest) = skip-Holds b3 other _ h3 in
      let b5 : Buffer =
        behind b4 (decimal 10) (dig 3 (total (message_text begin type other) % 256)) in
      let seven = length-checksum_bytes (total (message_text begin type other) % 256) in
      let whole : length (other ++ (sum_field begin type other ++ rest))
          ≡ length other + 7 + length rest =
        omega (
          arith,
          length-append other (sum_field begin type other ++ rest),
          length-append (sum_field begin type other) rest,
          seven,
        ) in
      let size : buffer_size b3 ≡ length other + 7 + length rest =
        buffer_size-length _ h3 ∙ whole in
      let size' : length (message_text begin type other)
          ≡ length hs + length (ls ++ (ts ++ other)) =
        length-append hs (ls ++ (ts ++ other)) in
      let ends = start_small _ h3 in
      let (two, three', three'') = tag_lengths in
      let offset : checksum_offset three b3 ≡ length ts = ground (arith, ends, three'', short) in
      let enough : ltb (add64 (buffer_size b3) (length ts)) (add64 (length_of begin type other) 7)
          ≡ false =
        ground (arith, size, whole, short, ends) in
      let left : sub64 (length_of begin type other) (length ts) ≡ length other =
        omega (arith, short) in
      let forward = buffer_advance-skip b3 (length other) other _ h3 refl in
      let matched =
        match_field-field b4 (decimal 10) (dig 3 (total (message_text begin type other) % 256)) rest
          10 (decimal-IsTag 10 (omega arith))
          (digits-IsValue (dig 3 (total (message_text begin type other) % 256))
            (dig-IsDigit 3 (total (message_text begin type other) % 256)))
          h4 in
      elim (Bool-cases flags.no_csum) [
        | inl free ↦ (three.check_sum, rw (offset, enough, free) refl)
        | inr summed ↦
            let four : Message ℕ D = record three { check_sum = value_at b4 (decimal 10) } in
            let good : verify_checksum four b5 ≡ true =
              verify_checksum-total four b5 b.start (message_text begin type other)
                (At-append b.bytes b.start (message_text begin type other) _ (Holds-At _ h)).0
                (omega (arith, two, ends))
                (omega (
                  arith,
                  three',
                  ends,
                  whole,
                  size',
                  length-append ls (ts ++ other),
                  length-append ts other,
                ))
                (fix_uatoi-field b4 (decimal 10)
                  (dig 3 (total (message_text begin type other) % 256)) rest 10
                  (total (message_text begin type other) % 256)
                  (byte-IsTag (total (message_text begin type other) % 256) (omega arith)) h4) in
            let home : buffer_advance b5 (sub64 b3.start b5.start) ≡ b3 =
              unfold buffer_advance in
              ap (λ (i : ℕ). record b { start = i }) (omega (arith, ends, whole, seven)) in
            (
              value_at b4 (decimal 10),
              rw (offset, enough, summed, left, forward, matched, good, home) refl,
            )
      ]
