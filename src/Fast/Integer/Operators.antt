-- ===== src/Fast/Integer/Operators.antt =====
-- The decoders on what the encoders write, one operator after the other.
use libtrading.Base.{
  ℕ, ◌≡◌, refl, sym, false, not, List, ◌++◌, ◌==◌, ==_iff, Bool-cases, if◌then◌else◌, arith, add64,
  sub64, inl, inr, ap, ◌∙◌, IsWord,
}
use mathlib.Core.Path.{subst}
use libtrading.Buffer.{Buffer}
use libtrading.Buffer.Contents.{Holds}
use libtrading.Fast.Pmap.{Pmap, pmap_is_set, next_bit, advance}
use libtrading.Fast.Field.{
  none, copy, incr, delta, default, constant, Field, is_mandatory, is_empty, Exit, encode_always,
  encode_expected, encode_default, Decoded,
}
use libtrading.Fast.Integer.{decode_switch, raise_int}
use libtrading.Fast.Integer.Channel.{Channel, Nullable, signed, IsSendableInt, raise_int-fits}
use libtrading.Fast.Integer.Encoding.{
  absent, HasValue, IsStarted, wire, exit_field, encode_always_cases, encode_default_cases,
  encode_expected_cases,
}
use libtrading.Fast.Integer.Decoding.{
  Agrees, Accepts, exit_bit, accept_empty, accept_value, accept_kept, accept_read, absent-optional,
}

module _ (c : Channel) (n : Nullable c) (e d : Field ℕ) (src : Buffer) (q : Pmap) (rest : List ℕ)
    (x : Exit ℕ ℕ) (same : d.presence ≡ e.presence) where
  -- What the decoder of the channel makes of the input.
  abbrev decoded : Decoded ℕ
  decoded = decode_switch c.parse n.lower n.add_delta src q d

  -- FAST_OP_NONE
  pub decode_none :
      d.op ≡ none
      → n.Sendable e.value
      → x ≡ encode_always (n.raise e e.value) e
      → Holds src (wire c x ++ rest)
      → Accepts none e (exit_field e x) q.pmap_bit rest decoded
  decode_none op s ex h = elim (encode_always_cases e (n.raise e e.value)) [
    | inl (a, leave) ↦
        accept_empty c n e d src q rest same none _ _ a (rw (ex ∙ leave) at h) (ground arith) tt
    | inr (a, leave) ↦
        accept_value c n e d src q rest same none _ _ a s (rw (ex ∙ leave) at h) (ground arith) tt
  ]

  -- FAST_OP_DEFAULT
  pub decode_default :
      d.op ≡ default
      → n.Sendable e.value
      → HasValue e
      → x ≡ encode_default (n.raise e e.value) e
      → pmap_is_set q (next_bit q) ≡ exit_bit x
      → Holds src (wire c x ++ rest)
      → Accepts default e (exit_field e x) (next_bit q) rest decoded
  decode_default op s has ex bit h = elim (encode_default_cases e (n.raise e e.value) has) [
    | inl (a, leave) ↦
        accept_empty c n e d src (advance q) rest same default _ _ a (rw (ex ∙ leave) at h)
          (ground (arith, ap exit_bit (ex ∙ leave))) tt
    | inr (a, leave) ↦
        accept_value c n e d src (advance q) rest same default _ _ a s (rw (ex ∙ leave) at h)
          (ground (arith, ap exit_bit (ex ∙ leave))) tt
  ]

  -- FAST_OP_COPY
  pub decode_copy :
      d.op ≡ copy
      → n.Sendable e.value
      → Agrees copy e d
      → HasValue e
      → IsStarted e
      → x ≡ encode_expected (n.raise e e.value) (e.value == e.previous) e e
      → pmap_is_set q (next_bit q) ≡ exit_bit x
      → Holds src (wire c x ++ rest)
      → Accepts copy e (exit_field e x) (next_bit q) rest decoded
  decode_copy op s known has started ex bit h =
      elim (encode_expected_cases e e (n.raise e e.value) (e.value == e.previous) has started) [
        | inl (a, leave) ↦
            accept_empty c n e d src (advance q) rest same copy _ _ a (rw (ex ∙ leave) at h)
              (ground (arith, ap exit_bit (ex ∙ leave))) (ground (arith, ex ∙ leave))
        | inr (inl (a, leave)) ↦
            accept_value c n e d src (advance q) rest same copy _ _ a s (rw (ex ∙ leave) at h)
              (ground (arith, ap exit_bit (ex ∙ leave))) (ground (arith, ex ∙ leave))
        | inr (inr (a, leave, equal, sent)) ↦
            let (kept, last) = known sent in
            accept_kept copy e _ d src (advance q) rest _ a (rw (ex ∙ leave) at h)
              (ground (arith, ap exit_bit (ex ∙ leave))) kept (ground (arith, (==_iff _ _).0 equal))
              (ground (arith, ex ∙ leave))
      ]

  -- FAST_OP_INCR
  pub decode_incr :
      d.op ≡ incr
      → n.Sendable e.value
      → Agrees incr e d
      → HasValue e
      → IsStarted e
      → x
        ≡ encode_expected
            (n.raise e e.value)
            (e.value == add64 e.previous 1)
            (record e { previous = add64 e.previous 1 })
            e
      → pmap_is_set q (next_bit q) ≡ exit_bit x
      → Holds src (wire c x ++ rest)
      → Accepts incr e (exit_field e x) (next_bit q) rest decoded
  decode_incr op s known has started ex bit h =
      elim (encode_expected_cases e (record e { previous = add64 e.previous 1 }) (n.raise e e.value)
        (e.value == add64 e.previous 1) has started) [
          | inl (a, leave) ↦
              accept_empty c n e d src (advance q) rest same incr _ _ a (rw (ex ∙ leave) at h)
                (ground (arith, ap exit_bit (ex ∙ leave))) (ground (arith, ex ∙ leave))
          | inr (inl (a, leave)) ↦
              accept_value c n e d src (advance q) rest same incr _ _ a s (rw (ex ∙ leave) at h)
                (ground (arith, ap exit_bit (ex ∙ leave))) (ground (arith, ex ∙ leave))
          | inr (inr (a, leave, equal, sent)) ↦
              let (kept, last) = known sent in
              accept_kept incr e _ (record d { value = add64 d.value 1 }) src (advance q) rest _ a
                (rw (ex ∙ leave) at h) (ground (arith, ap exit_bit (ex ∙ leave))) kept
                (ground (arith, (==_iff _ _).0 equal, last)) (ground (arith, ex ∙ leave, last))
        ]

  -- FAST_OP_DELTA: the difference is an i64 for both types.
  pub decode_delta :
      d.op ≡ delta
      → IsSendableInt (sub64 e.value e.previous)
      → IsWord e.value
      → IsWord e.previous
      → Agrees delta e d
      → x ≡ encode_always (raise_int e (sub64 e.value e.previous)) e
      → Holds src (wire signed x ++ rest)
      → Accepts delta e (exit_field e x) q.pmap_bit rest decoded
  decode_delta op s wv wp base ex h =
      elim (encode_always_cases e (raise_int e (sub64 e.value e.previous))) [
        | inl (a, leave) ↦
            accept_read signed (n.add_delta d) 0 delta e _ d _ src q rest _ signed.zero_fits
              (rw (ex ∙ leave) at h) (ground arith)
              (n.add_delta-zero d (absent-optional e d same a) (omega arith)) (rw a refl)
              (ground (arith, ex ∙ leave))
        | inr (a, leave) ↦
            accept_read signed (n.add_delta d) (raise_int e (sub64 e.value e.previous)) delta e _ d
              _ src q rest _ (raise_int-fits e _ s) (rw (ex ∙ leave) at h) (ground arith)
              (n.add_delta-raise e d same wv wp base s) (rw a (refl, refl))
              (ground (arith, ex ∙ leave))
      ]

  -- FAST_OP_CONSTANT: nothing is sent but the bit of an optional field.
  pub decode_fixed :
      d.op ≡ constant
      → Agrees constant e d
      → (absent e ≡ false → e.value ≡ d.reset)
      → (is_mandatory e ≡ false → pmap_is_set q (next_bit q) ≡ not (is_empty e.state))
      → Holds src rest
      → Accepts constant e e (if is_mandatory e then q.pmap_bit else next_bit q) rest decoded
  decode_fixed op base value bit h = record {
    done = ground arith;
    left = subst (λ (b : Buffer). Holds b rest) (sym stays) h;
    same_bit = ground arith;
    received = elim (Bool-cases (absent e)) [
      | inl a ↦ rw a (ground (arith, bit))
      | inr a ↦ rw a (ground (arith, bit, value a, base), ground (arith, bit, value a, base))
    ];
    agrees = ground (arith, base);
  }
    where
      stays : decoded.buffer ≡ src
      stays = ground arith
