-- ===== src/Fix/Message/Rest.antt =====
-- rest_of_message on fields as fix_field_unparse writes them.
use libtrading.Base.{
  some, lt→ltb, ℕ, suc, ◌+◌, ◌-◌, ◌^◌, ◌≤◌, ◌<◌, ◌≡◌, refl, ap, ◌∙◌, false, List, [], ◌∷◌, ◌++◌,
  append_assoc, append-nil, length, length-append, All, arith, int_of,
}
use libtrading.Buffer.{Buffer, buffer_size}
use libtrading.Buffer.Contents.{Holds, buffer_size-length}
use libtrading.Itoa.Digits.{decimal, dig, dig-IsDigit, value_from}
use libtrading.Itoa.Signed.{PrintsNumbers, i64_text}
use libtrading.Fix.Scan.{ok, soh, readable, fix_uatoi, parse_field}
use libtrading.Fix.Scan.Memory.{Holds-capacity, skip, skip-Holds}
use libtrading.Fix.Scan.Numbers.{fix_uatoi-value}
use libtrading.Fix.Scan.Fields.{
  field_bytes, length-field_bytes, value_at, value-At, behind, behind-Holds, parse_field-field,
}
use libtrading.Fix.Field.{FieldType, checksum, msg_seq_num, Field, Externals}
use libtrading.Fix.Field.Written.{field_text, value_text}
use libtrading.Fix.Message.{
  Message, done, fix_max_field_number, int_field, rest_loop, rest_of_message, field_of, stored,
  is_checksum, is_seq_num,
}
use libtrading.Fix.Message.Unparsed.{texts}
use libtrading.Fix.Message.Typed.{
  decimal-IsTag, digits-IsValue, SameField, SameFields, IsTyped, value_text-IsValue, stored_value,
}

module _ {D : Type 0} (ext : Externals D) (tag_type : ℕ → FieldType)
    (law : PrintsNumbers ext.sprintf) where
  -- One round of the loop: a field that is stored or not, the sequence number, and the checksum.
  module _ (n : ℕ) (self : Message ℕ D) (acc : List (Field ℕ D)) (b b' : Buffer) (tag p : ℕ) where
    round-field :
        (acc' : List (Field ℕ D))
        → parse_field b ≡ (ok (tag, p), b')
        → is_checksum ext tag_type (tag_type tag) ≡ false
        → is_seq_num ext tag_type (tag_type tag) ≡ false
        → stored ext tag_type (field_of ext tag_type (tag_type tag) b' tag p) acc ≡ some acc'
        → rest_loop ext tag_type (suc n) self acc b ≡ rest_loop ext tag_type n self acc' b'
    unfolding rest_loop
    round-field acc' parsed no_sum no_seq add = rw (parsed, no_sum, no_seq, add) refl

    round-seq_num :
        parse_field b ≡ (ok (tag, p), b')
        → tag_type tag ≡ msg_seq_num
        → rest_loop ext tag_type (suc n) self acc b
          ≡ rest_loop ext tag_type n
              (record self { msg_seq_num = int_of (fix_uatoi (readable b' p) b'.bytes p).0 })
              acc
              b'
    unfolding rest_loop
    round-seq_num parsed e = rw (parsed, e) refl

    round-checksum :
        parse_field b ≡ (ok (tag, p), b')
        → tag_type tag ≡ checksum
        → rest_loop ext tag_type (suc n) self acc b ≡ done (record self { fields = acc }, b')
    unfolding rest_loop
    round-checksum parsed e = rw (parsed, e) refl

  -- A field in front of others.
  rest_loop-field :
      (n : ℕ) (self : Message ℕ D) (acc : List (Field ℕ D)) (b : Buffer) (f : Field (List ℕ) D)
      (rest : List ℕ)
      → IsTyped ext tag_type law f
      → Holds b (field_text ext f ++ rest)
      → length acc < fix_max_field_number
      → (g : Field ℕ D) × (rest_loop ext tag_type (suc n) self acc b
          ≡ rest_loop ext tag_type n self
              (acc ++ (g ∷ []))
              (behind b (decimal f.tag) (value_text ext f.value)))
        × SameField b.bytes f g
  rest_loop-field n self acc b f rest (word, typed) h spare =
      let ds : List ℕ = decimal f.tag in
      let vs : List ℕ = value_text ext f.value in
      let parsed =
        parse_field-field b ds vs rest f.tag (decimal-IsTag f.tag word)
          (value_text-IsValue ext tag_type law _ f.value typed) h in
      let room : length vs < readable b (value_at b ds) = omega (
        arith,
        Holds-capacity _ h,
        length-append (field_text ext f) rest,
        length-field_bytes b ds vs [] 0,
      ) in
      let (no_sum, no_seq, (g, add, tag, same)) =
        stored_value ext tag_type law (tag_type f.tag) (behind b ds vs) f.tag (value_at b ds)
          f.value acc typed (value-At b ds vs rest f.tag h) room spare in
      (
        g,
        round-field n self acc b (behind b ds vs) f.tag (value_at b ds) (acc ++ (g ∷ [])) parsed
            no_sum no_seq add,
        (tag, same),
      )

  pub SameFields-append :
      (f : ℕ → ℕ) (fs fs' : List (Field (List ℕ) D)) (gs gs' : List (Field ℕ D))
      → SameFields f fs gs
      → SameFields f fs' gs'
      → SameFields f (fs ++ fs') (gs ++ gs')
  SameFields-append f [] fs' [] gs' h h' = h'
  SameFields-append f [] fs' (g ∷ gs) gs' h h' = elim h [ ]
  SameFields-append f (x ∷ fs) fs' [] gs' h h' = elim h [ ]
  SameFields-append f (x ∷ fs) fs' (g ∷ gs) gs' (h, hs) h' =
      (h, SameFields-append f fs fs' gs gs' hs h')

  length-SameFields :
      (m : ℕ → ℕ) (fs : List (Field (List ℕ) D)) (gs : List (Field ℕ D))
      → SameFields m fs gs
      → length gs ≡ length fs
  length-SameFields m [] [] h = refl
  length-SameFields m [] (g ∷ gs) h = elim h [ ]
  length-SameFields m (f ∷ fs) [] h = elim h [ ]
  length-SameFields m (f ∷ fs) (g ∷ gs) (h, hs) = ap suc (length-SameFields m fs gs hs)

  length-text : (f : Field (List ℕ) D) → 0 < length (field_text ext f)
  length-text f =
      omega (arith, length-append (decimal f.tag) (b'=' ∷ (value_text ext f.value ++ (soh ∷ []))))

  length-texts : (fs : List (Field (List ℕ) D)) → length fs ≤ length (texts ext fs)
  length-texts [] = omega arith
  length-texts (f ∷ fs) =
      let whole = length-append (field_text ext f) (texts ext fs) in
      omega (arith, whole, length-texts fs, length-text f)

  -- Fields in front of others.
  rest_loop-fields :
      (n : ℕ) (self : Message ℕ D) (acc : List (Field ℕ D)) (b : Buffer)
      (fs : List (Field (List ℕ) D)) (rest : List ℕ)
      → All (IsTyped ext tag_type law) fs
      → Holds b (texts ext fs ++ rest)
      → length acc + length fs ≤ fix_max_field_number
      → (gs : List (Field ℕ D)) × (rest_loop ext tag_type (length fs + n) self acc b
          ≡ rest_loop ext tag_type n self (acc ++ gs) (skip b (length (texts ext fs))))
        × SameFields b.bytes fs gs
  rest_loop-fields n self acc b [] rest typed h spare =
      let e : b.start + 0 ≡ b.start = omega arith in
      let none_left : 0 + n ≡ n = omega arith in ([], rw (append-nil, e, none_left) refl, tt)
  rest_loop-fields n self acc b (f ∷ fs) rest (first, typed) h spare =
      let h' : Holds b (field_text ext f ++ (texts ext fs ++ rest)) =
        rw (append_assoc (field_text ext f) (texts ext fs) rest) at h in
      let b' : Buffer = behind b (decimal f.tag) (value_text ext f.value) in
      let (g, one, same) =
        rest_loop-field (length fs + n) self acc b f (texts ext fs ++ rest) first h'
          (omega arith) in
      let (gs, more, sames) =
        rest_loop-fields n self (acc ++ (g ∷ [])) b' fs rest typed (behind-Holds b _ _ _ 0 h')
          (omega (arith, length-append acc (g ∷ []))) in
      let at' : b'.start + length (texts ext fs) ≡ b.start + length (texts ext (f ∷ fs)) =
        omega (arith, length-append (field_text ext f) (texts ext fs)) in
      let rounds : suc (length fs) + n ≡ suc (length fs + n) = omega arith in
      (
        g ∷ gs,
        ap (λ (k : ℕ). rest_loop ext tag_type k self acc b) rounds
            ∙ one
            ∙ more
            ∙ ap
                (λ (xs : List (Field ℕ D)).
                  rest_loop ext tag_type n self xs (skip b' (length (texts ext fs))))
                (append_assoc acc (g ∷ []) gs)
            ∙ ap
                (λ (i : ℕ).
                  rest_loop ext tag_type n self (acc ++ (g ∷ gs)) (record b { start = i }))
                at',
        (same, sames),
      )

  -- The sequence number: what i64toa prints of it is read as a 32-bit number.
  rest_loop-seq_num :
      (n : ℕ) (self : Message ℕ D) (acc : List (Field ℕ D)) (b : Buffer) (tag seq : ℕ)
      (rest : List ℕ)
      → tag < 2 ^ 32
      → tag_type tag ≡ msg_seq_num
      → seq < 2 ^ 31
      → Holds b (field_text ext (int_field ext tag seq) ++ rest)
      → rest_loop ext tag_type (suc n) self acc b
        ≡ rest_loop ext tag_type n
            (record self { msg_seq_num = seq })
            acc
            (skip b (length (field_text ext (int_field ext tag seq))))
  rest_loop-seq_num n self acc b tag seq rest word type small h =
      let ds : List ℕ = decimal tag in
      let vs : List ℕ = decimal seq in
      let e : i64_text ext.sprintf seq ≡ vs = rw (lt→ltb seq (2 ^ 31) small) refl in
      let h' : Holds b (field_bytes ds vs ++ rest) = rw e at h in
      let num = decimal-IsTag seq (omega (arith, small)) in
      let value = digits-IsValue vs num.digits in
      let room : length vs < readable b (value_at b ds) = omega (
        arith,
        Holds-capacity _ h',
        length-append (field_bytes ds vs) rest,
        length-field_bytes b ds vs [] 0,
      ) in
      let read : fix_uatoi (readable b (value_at b ds)) b.bytes (value_at b ds)
          ≡ (value_from 0 vs, value_at b ds + length vs) =
        fix_uatoi-value (readable b (value_at b ds)) b.bytes (value_at b ds) soh vs
          (value-At b ds vs rest tag h') num.digits refl room (omega (arith, num.value, small)) in
      let same : int_of (value_from 0 vs) ≡ seq = ground (arith, num.value, small) in
      rw e (
        round-seq_num n self acc b (behind b ds vs) tag (value_at b ds)
          (parse_field-field b ds vs rest tag (decimal-IsTag tag word) value h') type
        ∙ ap
            (λ (x : ℕ).
              rest_loop ext tag_type n (record self { msg_seq_num = x }) acc (behind b ds vs))
            (ap (λ (r : ℕ × ℕ). int_of r.0) read ∙ same))

  -- All fields behind the first three: some, the sequence number, others, and the checksum.
  module _ (b : Buffer) (front back : List (Field (List ℕ) D)) (tag seq sum_tag sum : ℕ)
      (rest : List ℕ) where
    abbrev pub rest_text : List ℕ
    rest_text =
        texts ext front
        ++ (field_text ext (int_field ext tag seq)
            ++ (texts ext back ++ field_bytes (decimal sum_tag) (dig 3 sum)))

    pub rest_of_message-fields :
        (self : Message ℕ D)
        → All (IsTyped ext tag_type law) front
        → All (IsTyped ext tag_type law) back
        → (tag < 2 ^ 32) × (tag_type tag ≡ msg_seq_num) × (seq < 2 ^ 31)
        → (sum_tag < 2 ^ 32) × (tag_type sum_tag ≡ checksum)
        → Holds b (rest_text ++ rest)
        → length (front ++ back) ≤ fix_max_field_number
        → (gs : List (Field ℕ D)) × (rest_of_message ext tag_type self b
            ≡ done (record self { msg_seq_num = seq; fields = gs }, skip b (length rest_text)))
          × SameFields b.bytes (front ++ back) gs
    unfolding rest_of_message
    rest_of_message-fields self typed typed' (word, type, small) (word', type') h spare =
        let fs : List ℕ = texts ext front in
        let t : List ℕ = field_text ext (int_field ext tag seq) in
        let bs : List ℕ = texts ext back in
        let cs : List ℕ = field_bytes (decimal sum_tag) (dig 3 sum) in
        let split : rest_text ++ rest ≡ fs ++ (t ++ (bs ++ (cs ++ rest))) =
          append_assoc fs (t ++ (bs ++ cs)) rest
          ∙ ap (λ (xs : List ℕ). fs ++ xs)
              (append_assoc t (bs ++ cs) rest
                ∙ ap (λ (xs : List ℕ). t ++ xs) (append_assoc bs cs rest)) in
        let size : length rest_text ≡ length fs + (length t + (length bs + length cs)) = omega (
          arith,
          length-append fs (t ++ (bs ++ cs)),
          length-append t (bs ++ cs),
          length-append bs cs,
        ) in
        let k : ℕ = buffer_size b - (length front + length back + 1) in
        let rounds : suc (buffer_size b) ≡ length front + suc (length back + suc k) = omega (
          arith,
          size,
          length-append rest_text rest,
          buffer_size-length (rest_text ++ rest) h,
          length-texts front,
          length-texts back,
          length-text (int_field ext tag seq),
        ) in
        let h1 : Holds b (fs ++ (t ++ (bs ++ (cs ++ rest)))) = rw split at h in
        let b1 : Buffer = skip b (length fs) in
        let h2 : Holds b1 (t ++ (bs ++ (cs ++ rest))) = skip-Holds b fs _ h1 in
        let b2 : Buffer = skip b1 (length t) in
        let h3 : Holds b2 (bs ++ (cs ++ rest)) = skip-Holds b1 t _ h2 in
        let b3 : Buffer = skip b2 (length bs) in
        let h4 : Holds b3 (cs ++ rest) = skip-Holds b2 bs _ h3 in
        let self' : Message ℕ D = record self { msg_seq_num = seq } in
        let (gs, e1, same) =
          rest_loop-fields (suc (length back + suc k)) self [] b front _ typed h1
            (omega (arith, length-append front back)) in
        let e2 = rest_loop-seq_num (length back + suc k) self gs b1 tag seq _ word type small h2 in
        let (gs', e3, same') =
          rest_loop-fields (suc k) self' gs b2 back _ typed' h3
            (omega (arith, length-append front back, length-SameFields b.bytes front gs same)) in
        let e4 =
          round-checksum k self' (gs ++ gs') b3 (behind b3 (decimal sum_tag) (dig 3 sum)) sum_tag
            (value_at b3 (decimal sum_tag))
            (parse_field-field b3 (decimal sum_tag) (dig 3 sum) rest sum_tag
              (decimal-IsTag sum_tag word') (digits-IsValue (dig 3 sum) (dig-IsDigit 3 sum)) h4)
            type' in
        let at' : b3.start + length cs ≡ b.start + length rest_text = omega (arith, size) in
        (
          gs ++ gs',
          ap (λ (r : ℕ). rest_loop ext tag_type r self [] b) rounds
              ∙ e1
              ∙ e2
              ∙ e3
              ∙ e4
              ∙ ap (λ (i : ℕ). done (record self' { fields = gs ++ gs' }, record b { start = i }))
                  at',
          SameFields-append b.bytes front back gs gs' same same',
        )
