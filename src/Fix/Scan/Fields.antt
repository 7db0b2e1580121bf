-- ===== src/Fix/Scan/Fields.antt =====
-- parse_tag, parse_value, match_field and parse_field on a field as FIX writes it: the tag in digits, '=',
-- the value, and a SOH.
use libtrading.Base.{
  false, ℕ, ◌+◌, ◌^◌, ◌<◌, ◌≡◌, ◌≢◌, refl, ap, ◌∙◌, List, [], ◌∷◌, ◌++◌, append_assoc, length,
  length-append, All, arith, ==_iff,
}
use libtrading.Buffer.{Buffer}
use libtrading.Buffer.Contents.{Holds}
use libtrading.Itoa.Digits.{IsDigit, value_from}
use libtrading.Fix.Scan.{
  ok, soh, is_digit, fix_uatoi, readable, parse_tag, parse_value, match_field, parse_field,
}
use libtrading.Fix.Scan.Memory.{
  At, At-append, Holds-At, Holds-capacity, skip, skip-Holds, buffer_advance-skip, buffer_find-front,
}
use libtrading.Fix.Scan.Numbers.{fix_uatoi-value}

-- The bytes of a field.
abbrev pub field_bytes : List ℕ → List ℕ → List ℕ
field_bytes ds vs = ds ++ (b'=' ∷ (vs ++ (soh ∷ [])))

abbrev pub IsValue : List ℕ → Type 0
IsValue vs = All (λ c. c ≢ soh) vs

-- The digits of a tag, or of another 32-bit number.
pub record IsTag (ds : List ℕ) (tag : ℕ) : Type 0 where
  pub digits : All IsDigit ds
  pub value : value_from 0 ds ≡ tag
  pub small : tag < 2 ^ 32

digits-ne : (c : ℕ) (ds : List ℕ) → is_digit c ≡ false → All IsDigit ds → All (λ x. x ≢ c) ds
digits-ne c [] stop h = tt
digits-ne c (d ∷ ds) stop h = (ground (arith, h.0), digits-ne c ds stop h.1)

pub parse_tag-field :
    (b : Buffer) (ds rest : List ℕ) (tag : ℕ)
    → IsTag ds tag
    → Holds b (ds ++ (b'=' ∷ rest))
    → parse_tag b ≡ (ok tag, skip b (length ds + 1))
unfolding parse_tag
parse_tag-field b ds rest tag t h =
    let e : (ds ++ (b'=' ∷ [])) ++ rest ≡ ds ++ (b'=' ∷ rest) = append_assoc ds (b'=' ∷ []) rest in
    let at_tag = (At-append b.bytes b.start (ds ++ (b'=' ∷ [])) rest (rw e (Holds-At _ h))).0 in
    let delim = (At-append b.bytes b.start ds (b'=' ∷ []) at_tag).1.0 in
    let readable_tag : length ds < readable b b.start =
      omega (arith, Holds-capacity _ h, length-append ds (b'=' ∷ rest)) in
    let number : fix_uatoi (readable b b.start) b.bytes b.start ≡ (tag, b.start + length ds) =
      fix_uatoi-value (readable b b.start) b.bytes b.start b'=' ds at_tag t.digits refl readable_tag
        (omega (arith, t.value, t.small))
      ∙ ap (λ (x : ℕ). (x, b.start + length ds)) t.value in
    let next = skip-Holds b ds (b'=' ∷ rest) h in
    rw
      (
        buffer_find-front b'=' b ds rest h (digits-ne b'=' ds refl t.digits),
        number,
        delim,
        (==_iff (b.start + length ds) (b.start + length ds)).1 refl,
        buffer_advance-skip (skip b (length ds)) 1 (b'=' ∷ []) rest next refl,
      )
      (ap (λ (i : ℕ). (ok tag, record b { start = i })) (omega arith))

pub parse_value-field :
    (b : Buffer) (vs rest : List ℕ)
    → IsValue vs
    → Holds b (vs ++ (soh ∷ rest))
    → parse_value b ≡ (ok b.start, skip b (length vs + 1))
unfolding parse_value
parse_value-field b vs rest value h =
    let delim = (At-append b.bytes b.start vs (soh ∷ rest) (Holds-At _ h)).1.0 in
    let next = skip-Holds b vs (soh ∷ rest) h in
    rw
      (
        buffer_find-front soh b vs rest h value,
        delim,
        buffer_advance-skip (skip b (length vs)) 1 (soh ∷ []) rest next refl,
      )
      (ap (λ (i : ℕ). (ok b.start, record b { start = i })) (omega arith))

-- A field at the front of a buffer: where its value lies, and the buffer behind it.
abbrev pub value_at : Buffer → List ℕ → ℕ
value_at b ds = b.start + (length ds + 1)

abbrev pub behind : Buffer → List ℕ → List ℕ → Buffer
behind b ds vs = skip b (length (field_bytes ds vs))

module _ (b : Buffer) (ds vs rest : List ℕ) (tag : ℕ) where
  field_split : field_bytes ds vs ++ rest ≡ ds ++ (b'=' ∷ (vs ++ (soh ∷ rest)))
  field_split =
      append_assoc ds (b'=' ∷ (vs ++ (soh ∷ []))) rest
      ∙ ap (λ (xs : List ℕ). ds ++ (b'=' ∷ xs)) (append_assoc vs (soh ∷ []) rest)

  behind_tag :
      Holds b (field_bytes ds vs ++ rest) → Holds (skip b (length ds + 1)) (vs ++ (soh ∷ rest))
  behind_tag h =
      let e : (ds ++ (b'=' ∷ [])) ++ (vs ++ (soh ∷ rest)) ≡ ds ++ (b'=' ∷ (vs ++ (soh ∷ rest))) =
        append_assoc ds (b'=' ∷ []) (vs ++ (soh ∷ rest)) in
      let next = skip-Holds b (ds ++ (b'=' ∷ [])) (vs ++ (soh ∷ rest)) (rw (e, ← field_split) h) in
      rw (length-append ds (b'=' ∷ [])) at next

  pub length-field_bytes : length (field_bytes ds vs) ≡ length ds + 1 + (length vs + 1)
  length-field_bytes =
      omega (arith, length-append ds (b'=' ∷ (vs ++ (soh ∷ []))), length-append vs (soh ∷ []))

  skipped : skip (skip b (length ds + 1)) (length vs + 1) ≡ behind b ds vs
  skipped = ap (λ (i : ℕ). record b { start = i }) (omega (arith, length-field_bytes))

  pub behind-Holds : Holds b (field_bytes ds vs ++ rest) → Holds (behind b ds vs) rest
  behind-Holds h = skip-Holds b (field_bytes ds vs) rest h

  -- The value that the pointer leads to, up to its SOH.
  pub value-At : Holds b (field_bytes ds vs ++ rest) → At b.bytes (value_at b ds) (vs ++ (soh ∷ []))
  value-At h =
      let e : (vs ++ (soh ∷ [])) ++ rest ≡ vs ++ (soh ∷ rest) = append_assoc vs (soh ∷ []) rest in
      (At-append b.bytes (value_at b ds) (vs ++ (soh ∷ [])) rest
        (rw e (Holds-At _ (behind_tag h)))).0

  pub parse_field-field :
      IsTag ds tag
      → IsValue vs
      → Holds b (field_bytes ds vs ++ rest)
      → parse_field b ≡ (ok (tag, value_at b ds), behind b ds vs)
  parse_field-field t value h =
      unfold parse_field in
      rw
        (
          parse_tag-field b ds (vs ++ (soh ∷ rest)) tag t (rw field_split at h),
          parse_value-field (skip b (length ds + 1)) vs rest value (behind_tag h),
          skipped,
        )
        refl

  pub match_field-field :
      IsTag ds tag
      → IsValue vs
      → Holds b (field_bytes ds vs ++ rest)
      → match_field b tag ≡ (ok (value_at b ds), behind b ds vs)
  match_field-field t value h =
      unfold match_field in
      rw
        (
          parse_tag-field b ds (vs ++ (soh ∷ rest)) tag t (rw field_split at h),
          (==_iff tag tag).1 refl,
          parse_value-field (skip b (length ds + 1)) vs rest value (behind_tag h),
          skipped,
        )
        refl
