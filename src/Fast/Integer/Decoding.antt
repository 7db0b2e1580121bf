-- ===== src/Fast/Integer/Decoding.antt =====
-- The decoders on what the encoders write, one operator after the other.
use libtrading.Base.{ℕ, ◌≡◌, refl, sym, Bool, true, false, List, ◌++◌, arith, ap, ◌∙◌}
use mathlib.Core.Path.{subst}
use libtrading.Buffer.{Buffer}
use libtrading.Buffer.Contents.{Holds}
use libtrading.Fast.Codec.{Parsed, ok}
use libtrading.Fast.Pmap.{Pmap}
use libtrading.Fast.Field.{
  Op, none, copy, incr, delta, default, constant, assigned, empty, Field, optional, Exit, transfer,
  to_empty, stop, fail, Decoded,
}
use libtrading.Fast.Integer.{store}
use libtrading.Fast.Integer.Channel.{Channel, Nullable}
use libtrading.Fast.Integer.Encoding.{absent}

-- What an encoder's and a decoder's field have in common between two messages, by operator:
-- the last value that was sent, the base of the next difference, or the constant.
abbrev pub Agrees : Op → Field ℕ → Field ℕ → Type 0
Agrees none e d = Unit {0}
Agrees copy e d = e.state_previous ≡ assigned → (d.state ≡ assigned) × (d.value ≡ e.previous)
Agrees incr e d = e.state_previous ≡ assigned → (d.state ≡ assigned) × (d.value ≡ e.previous)
Agrees delta e d = d.value ≡ e.previous
Agrees default e d = Unit {0}
Agrees constant e d = d.state ≡ assigned → d.value ≡ d.reset

-- What the decoder's field says of the encoder's: empty, or its value.
abbrev pub Received : Bool → Field ℕ → Field ℕ → Type 0
Received true e d = d.state ≡ empty
Received false e d = (d.state ≡ assigned) × (d.value ≡ e.value)

-- The decoder took `e` over, left `rest` unread, and stays in step with the encoder's field `e'`.
pub record Accepts (op : Op) (e e' : Field ℕ) (bit : ℕ) (rest : List ℕ) (r : Decoded ℕ)
    : Type 0 where
  pub done : r.ret ≡ ok tt
  pub left : Holds r.buffer rest
  pub same_bit : r.pmap.pmap_bit ≡ bit
  pub received : Received (absent e) e r.field
  pub agrees : Agrees op e' r.field

-- Whether the map's bit is set behind an exit.
abbrev pub exit_bit : Exit ℕ ℕ → Bool
exit_bit (transfer pset tmp f) = pset
exit_bit (to_empty pset f) = pset
exit_bit (stop f) = false
exit_bit fail = false

pub absent-optional :
    (e d : Field ℕ) → d.presence ≡ e.presence → absent e ≡ true → d.presence ≡ optional
absent-optional e d same a = ground arith

pub accept_kept :
    (op : Op) (e e' kept : Field ℕ) (src : Buffer) (q : Pmap) (rest : List ℕ) (r : Decoded ℕ)
    → absent e ≡ false
    → Holds src rest
    → r ≡ record { ret = ok tt; buffer = src; pmap = q; field = kept }
    → kept.state ≡ assigned
    → kept.value ≡ e.value
    → Agrees op e' kept
    → Accepts op e e' q.pmap_bit rest r
accept_kept op e e' kept src q rest r a h keeps st va agrees =
    subst (Accepts op e e' q.pmap_bit rest) (sym keeps)
      (record { done = refl; left = h; same_bit = refl; received = rw a (st, va); agrees = agrees })

-- A number that a channel received, and the field that was made of it.
pub accept_read :
    (c : Channel) (make : ℕ → Field ℕ) (v : ℕ) (op : Op) (e e' d g : Field ℕ) (src : Buffer)
    (q : Pmap) (rest : List ℕ) (r : Decoded ℕ)
    → c.Fits v
    → Holds src (c.code v ++ rest)
    → r ≡ store make (c.parse src) q d
    → make v ≡ g
    → Received (absent e) e g
    → Agrees op e' g
    → Accepts op e e' q.pmap_bit rest r
accept_read c make v op e e' d g src q rest r fits h stores made got agrees =
    subst (Accepts op e e' q.pmap_bit rest) (sym (stores ∙ reads ∙ result)) (record {
      done = refl;
      left = (c.parses v src rest fits h).1;
      same_bit = refl;
      received = got;
      agrees = agrees;
    })
  where
    outcome : Field ℕ → Decoded ℕ
    outcome f = record { ret = ok tt; buffer = (c.parse src).1; pmap = q; field = f }

    reads : store make (c.parse src) q d ≡ outcome (make v)
    reads =
        let value = (c.parses v src rest fits h).0 in
        ap (λ (p : Parsed ℕ × Buffer). store make p q d) (λ i. (value i, (c.parse src).1))

    result : outcome (make v) ≡ outcome g
    result = ap outcome made

module _ (c : Channel) (n : Nullable c) (e d : Field ℕ) (src : Buffer) (q : Pmap) (rest : List ℕ)
    (same : d.presence ≡ e.presence) where
  -- The empty value, and a value, where a number is received.
  pub accept_empty :
      (op : Op) (e' : Field ℕ) (r : Decoded ℕ)
      → absent e ≡ true
      → Holds src (c.code 0 ++ rest)
      → r ≡ store (n.lower d) (c.parse src) q d
      → Agrees op e' (record d { state = empty; value = 0 })
      → Accepts op e e' q.pmap_bit rest r
  accept_empty op e' r a h stores agrees =
      accept_read c (n.lower d) 0 op e e' d _ src q rest r c.zero_fits h stores
        (n.lower-zero d (absent-optional e d same a)) (rw a refl) agrees

  pub accept_value :
      (op : Op) (e' : Field ℕ) (r : Decoded ℕ)
      → absent e ≡ false
      → n.Sendable e.value
      → Holds src (c.code (n.raise e e.value) ++ rest)
      → r ≡ store (n.lower d) (c.parse src) q d
      → Agrees op e' (record d { state = assigned; value = e.value })
      → Accepts op e e' q.pmap_bit rest r
  accept_value op e' r a s h stores agrees =
      accept_read c (n.lower d) (n.raise e e.value) op e e' d _ src q rest r
        (n.raise_fits e e.value s) h stores (n.lower-raise e d e.value same s) (rw a (refl, refl))
        agrees
