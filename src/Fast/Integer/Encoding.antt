-- ===== src/Fast/Integer/Encoding.antt =====
-- Where the encoders' switch goes for each operator, and what the labels then write.
use libtrading.Base.{
  ℕ, ◌+◌, ◌≤◌, ◌≡◌, refl, ◌≢◌, Bool, true, false, not, ◌&&◌, List, [], ◌++◌, append-nil,
  if◌then◌else◌, arith, ◌⊎◌, inl, inr, sym,
}
use mathlib.Core.Path.{subst}
use libtrading.Buffer.{Buffer, buffer_remaining}
use libtrading.Buffer.Contents.{Holds}
use libtrading.Fast.Pmap.{Pmap, pmap_set}
use libtrading.Fast.Field.{
  undefined, assigned, empty, Field, is_mandatory, is_empty, Exit, transfer, to_empty, stop, fail,
  encode_always, encode_expected, encode_default,
}
use libtrading.Fast.Integer.{run_exit}
use libtrading.Fast.Integer.Channel.{Channel}

-- An optional field that has no value.
abbrev pub absent : Field ℕ → Bool
absent e = not (is_mandatory e) && is_empty e.state

-- What a caller of an encoder sees to: a mandatory field has a value, and a field is marked as
-- assigned only once it has been sent.
abbrev pub HasValue : Field ℕ → Type 0
HasValue e = is_mandatory e ≡ true → e.state ≢ empty

abbrev pub IsStarted : Field ℕ → Type 0
IsStarted e = e.state ≡ assigned → e.state_previous ≢ undefined

-- The bytes, the map and the field that an exit of the switch leads to.
abbrev pub wire : Channel → Exit ℕ ℕ → List ℕ
wire c (transfer pset tmp f) = c.code tmp
wire c (to_empty pset f) = c.code 0
wire c (stop f) = []
wire c fail = []

abbrev pub exit_pmap : Pmap → Exit ℕ ℕ → Pmap
exit_pmap p (transfer pset tmp f) = if pset then pmap_set p p.pmap_bit else p
exit_pmap p (to_empty pset f) = if pset then pmap_set p p.pmap_bit else p
exit_pmap p (stop f) = p
exit_pmap p fail = p

abbrev pub exit_field : Field ℕ → Exit ℕ ℕ → Field ℕ
exit_field old (transfer pset tmp f) = record f { previous = f.value; state_previous = f.state }
exit_field old (to_empty pset f) = record f { value = f.previous; state_previous = f.state }
exit_field old (stop f) = f
exit_field old fail = old

abbrev pub FitsExit : Channel → Exit ℕ ℕ → Type 0
FitsExit c (transfer pset tmp f) = c.Fits tmp
FitsExit c (to_empty pset f) = Unit {0}
FitsExit c (stop f) = Unit {0}
FitsExit c fail = ⊥

-- With room for nine bytes, an exit whose number fits the channel succeeds as described.
pub run_exit-wire :
    (c : Channel) (x : Exit ℕ ℕ) (p : Pmap) (b : Buffer) (old : Field ℕ) (cs : List ℕ)
    → FitsExit c x
    → Holds b cs
    → 9 ≤ buffer_remaining b
    → ((run_exit c.send b old (p, x)).success ≡ true)
      × Holds (run_exit c.send b old (p, x)).buffer (cs ++ wire c x)
      × (buffer_remaining b ≤ 9 + buffer_remaining (run_exit c.send b old (p, x)).buffer)
      × ((run_exit c.send b old (p, x)).pmap ≡ exit_pmap p x)
      × ((run_exit c.send b old (p, x)).field ≡ exit_field old x)
run_exit-wire c (transfer pset tmp f) p b old cs fits h room =
    let (sent, grown, left) = c.sends tmp b cs fits h room in
    let done : c.send b tmp ≡ (true, (c.send b tmp).1) = λ i. (sent i, (c.send b tmp).1) in
    rw done (refl, grown, left, refl, refl)
run_exit-wire c (to_empty pset f) p b old cs fits h room =
    let (sent, grown, left) = c.sends 0 b cs c.zero_fits h room in
    let done : c.send b 0 ≡ (true, (c.send b 0).1) = λ i. (sent i, (c.send b 0).1) in
    rw done (refl, grown, left, refl, refl)
run_exit-wire c (stop f) p b old cs fits h room = (refl, rw append-nil h, omega arith, refl, refl)
run_exit-wire c fail p b old cs fits h room = absurd fits

-- Where the switch goes.
pub encode_always_cases :
    (e : Field ℕ) (tmp : ℕ)
    → ((absent e ≡ true) × (encode_always tmp e ≡ to_empty false e))
      ⊎ ((absent e ≡ false)
          × (encode_always tmp e ≡ transfer false tmp (record e { state = assigned })))
encode_always_cases e tmp = ground arith

pub encode_default_cases :
    (e : Field ℕ) (tmp : ℕ)
    → HasValue e
    → ((absent e ≡ true) × (encode_default tmp e ≡ to_empty true e))
      ⊎ ((absent e ≡ false)
          × (encode_default tmp e ≡ transfer true tmp (record e { state = assigned })))
encode_default_cases e tmp has = ground arith

pub encode_expected_cases :
    (e left : Field ℕ) (tmp : ℕ) (same : Bool)
    → HasValue e
    → IsStarted e
    → ((absent e ≡ true) × (encode_expected tmp same left e ≡ to_empty true e))
      ⊎ ((absent e ≡ false)
          × (encode_expected tmp same left e ≡ transfer true tmp (record e { state = assigned })))
      ⊎ ((absent e ≡ false)
          × (encode_expected tmp same left e ≡ stop left)
          × (same ≡ true)
          × (e.state_previous ≡ assigned))
encode_expected_cases e left tmp same has started = ground arith

-- The number that the switch sends fits the channel.
pub encode_always-FitsExit :
    (c : Channel) (e : Field ℕ) (tmp : ℕ) → c.Fits tmp → FitsExit c (encode_always tmp e)
encode_always-FitsExit c e tmp fits = elim (encode_always_cases e tmp) [
  | inl (a, leave) ↦ subst (FitsExit c) (sym leave) tt
  | inr (a, leave) ↦ subst (FitsExit c) (sym leave) fits
]

pub encode_default-FitsExit :
    (c : Channel) (e : Field ℕ) (tmp : ℕ)
    → HasValue e
    → c.Fits tmp
    → FitsExit c (encode_default tmp e)
encode_default-FitsExit c e tmp has fits = elim (encode_default_cases e tmp has) [
  | inl (a, leave) ↦ subst (FitsExit c) (sym leave) tt
  | inr (a, leave) ↦ subst (FitsExit c) (sym leave) fits
]

pub encode_expected-FitsExit :
    (c : Channel) (e left : Field ℕ) (tmp : ℕ) (same : Bool)
    → HasValue e
    → IsStarted e
    → c.Fits tmp
    → FitsExit c (encode_expected tmp same left e)
encode_expected-FitsExit c e left tmp same has started fits =
    elim (encode_expected_cases e left tmp same has started) [
      | inl (a, leave) ↦ subst (FitsExit c) (sym leave) tt
      | inr (inl (a, leave)) ↦ subst (FitsExit c) (sym leave) fits
      | inr (inr (a, leave, _, _)) ↦ subst (FitsExit c) (sym leave) tt
    ]
