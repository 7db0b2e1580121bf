-- ===== src/Fast/Message/Wire.antt =====
-- The presence map of a message between the end of fast_message_encode and parse_pmap.
use libtrading.Base.{
  ℕ, zero, suc, ◌+◌, ◌%◌, ◌≤◌, ◌<◌, ◌≡◌, refl, sym, ap, ◌∙◌, List, [], ◌∷◌, ◌++◌, append-nil,
  append_assoc, length, take, All, arith, ◌==◌, ==_iff, all_below, all_below→, bit_and-0x7f, bit_or,
  take-set, length-set, length-append,
}
use mathlib.Core.Path.{subst}
use libtrading.Buffer.{Buffer, buffer_put, buffer_get_8, buffer_remaining}
use libtrading.Buffer.Contents.{Holds, buffer_put-Holds, buffer_get_8-Holds}
use libtrading.Fast.Codec.{ok}
use libtrading.Fast.Pmap.{Pmap, Ret, parse_pmap, parse_pmap_loop}
use libtrading.Fast.Pmap.Parse.{push, loop-more, loop-stop}
use libtrading.Fast.Message.Encode.{put_map}

-- The first `n` bytes of a map as they are sent.
abbrev pub sealed : ℕ → List ℕ → List ℕ
sealed zero cs = []
sealed (suc n) [] = []
sealed (suc zero) (c ∷ cs) = (c % 128 + 128) ∷ []
sealed (suc (suc n)) (c ∷ cs) = (c % 128) ∷ sealed (suc n) cs

stop_byte : (x : ℕ) → x < 256 → bit_or x 0x80 ≡ x % 128 + 128
unfolding all_below
stop_byte x h = (==_iff _ _).0 (all_below→ 256 (λ y. bit_or y 0x80 == y % 128 + 128) refl x h)

pub put_map-Holds :
    (n : ℕ) (cs : List ℕ) (b : Buffer) (ds : List ℕ)
    → All (λ c. c < 256) cs
    → Holds b ds
    → n ≤ buffer_remaining b
    → Holds (put_map n cs b) (ds ++ sealed n cs)
unfolding put_map
put_map-Holds zero cs b ds h held room = rw append-nil held
put_map-Holds (suc n) [] b ds h held room = rw append-nil held
put_map-Holds (suc zero) (c ∷ cs) b ds h held room =
    rw (stop_byte c h.0) (buffer_put-Holds ds (c % 128 + 128) held (omega arith) (omega arith)).0
put_map-Holds (suc (suc n)) (c ∷ cs) b ds h held room =
    let (grown, left) = buffer_put-Holds ds (c % 128) held (omega arith) (omega arith) in
    rw (bit_and-0x7f c h.0) (
      rw append_assoc at (
        put_map-Holds (suc n) cs (buffer_put b (c % 128)) (ds ++ (c % 128 ∷ [])) h.1 grown
          (omega (arith, left))))

-- What parse_pmap_loop leaves of a sealed map behind the bytes `done`.
pub record Parses (size' : ℕ) (done used rest : List ℕ) (r : Ret × Buffer × Pmap) : Type 0 where
  pub ret : r.0 ≡ ok tt
  pub left : Holds r.1 rest
  pub size : r.2.nr_bytes ≡ length done + length used
  pub same_length : length r.2.bytes ≡ size'
  pub bytes : take r.2.nr_bytes r.2.bytes ≡ done ++ used

Parses-more :
    (k c : ℕ) (done used rest : List ℕ) (r : Ret × Buffer × Pmap)
    → Parses k (done ++ (c ∷ [])) used rest r
    → Parses k done (c ∷ used) rest r
Parses-more k c done used rest r p = record {
  ret = p.ret;
  left = p.left;
  size = omega (arith, p.size, length-append done (c ∷ []));
  same_length = p.same_length;
  bytes = p.bytes ∙ append_assoc done (c ∷ []) used;
}

parse_pmap_loop-sealed :
    (n rounds : ℕ) (cs : List ℕ) (b : Buffer) (p : Pmap) (done rest : List ℕ)
    → 0 < n
    → n ≤ length cs
    → n ≤ rounds
    → Holds b (sealed n cs ++ rest)
    → p.nr_bytes + rounds ≤ length p.bytes
    → p.nr_bytes ≡ length done
    → take p.nr_bytes p.bytes ≡ done
    → Parses (length p.bytes) done (sealed n cs) rest (parse_pmap_loop rounds b p)
parse_pmap_loop-sealed zero rounds cs b p done rest pos long few h room size used =
    absurd (omega arith)
parse_pmap_loop-sealed (suc n) zero cs b p done rest pos long few h room size used =
    absurd (omega arith)
parse_pmap_loop-sealed (suc n) (suc rounds) [] b p done rest pos long few h room size used =
    absurd (omega arith)
parse_pmap_loop-sealed (suc zero) (suc rounds) (c ∷ cs) b p done rest pos long few h room size
      used =
    let d = c % 128 + 128 in
    subst (Parses (length p.bytes) done (d ∷ []) rest)
      (sym (loop-stop rounds b p d rest h (omega arith)))
      (record {
        ret = refl;
        left = (buffer_get_8-Holds d rest h).1;
        size = omega (arith, size);
        same_length = length-set p.bytes p.nr_bytes d;
        bytes =
            take-set p.bytes p.nr_bytes d (omega arith) ∙ ap (λ (xs : List ℕ). xs ++ (d ∷ [])) used;
      })
parse_pmap_loop-sealed (suc (suc n)) (suc rounds) (c ∷ cs) b p done rest pos long few h room size
      used =
    let d = c % 128 in
    let more = sealed (suc n) cs ++ rest in
    subst (Parses (length p.bytes) done (d ∷ sealed (suc n) cs) rest)
      (sym (loop-more rounds b p d more h (omega arith)))
      (Parses-more (length p.bytes) d done (sealed (suc n) cs) rest _ (
        rw (length-set p.bytes p.nr_bytes d) at (
          parse_pmap_loop-sealed (suc n) rounds cs (buffer_get_8 b).1 (push p d) (done ++ (d ∷ []))
            rest (omega arith) (omega arith) (omega arith) (buffer_get_8-Holds d more h).1
            (omega (arith, length-set p.bytes p.nr_bytes d))
            (omega (arith, length-append done (d ∷ [])))
            (take-set p.bytes p.nr_bytes d (omega arith)
              ∙ ap (λ (xs : List ℕ). xs ++ (d ∷ [])) used))))

pub parse_pmap-sealed :
    (n : ℕ) (cs : List ℕ) (b : Buffer) (p : Pmap) (rest : List ℕ)
    → 0 < n
    → n ≤ length cs
    → n ≤ 8
    → 8 ≤ length p.bytes
    → Holds b (sealed n cs ++ rest)
    → Parses (length p.bytes) [] (sealed n cs) rest (parse_pmap b p)
unfolding parse_pmap
parse_pmap-sealed n cs b p rest pos long few room h =
    parse_pmap_loop-sealed n 8 cs b (record p { nr_bytes = 0 }) [] rest pos long few h room refl
      refl

pub length-sealed : (n : ℕ) (cs : List ℕ) → n ≤ length cs → length (sealed n cs) ≡ n
length-sealed zero cs h = refl
length-sealed (suc n) [] h = absurd (omega arith)
length-sealed (suc zero) (c ∷ cs) h = refl
length-sealed (suc (suc n)) (c ∷ cs) h = ap suc (length-sealed (suc n) cs (omega arith))
