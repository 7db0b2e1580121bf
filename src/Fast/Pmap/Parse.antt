-- ===== src/Fast/Pmap/Parse.antt =====
-- What parse_pmap reads and the map that it leaves.
use libtrading.Base.{
  ℕ, zero, suc, ◌+◌, ◌≤◌, ◌<◌, ◌≡◌, refl, ap, ◌∙◌, sym, List, [], ◌∷◌, ◌++◌, append_assoc, length,
  All, arith, set, take, take-set, length-set, length-append, Bool-cases, inl, inr, ltb, ltb→lt,
  ltb→le, bit_and-0x80,
}
use mathlib.Core.Path.{subst}
use libtrading.Buffer.{Buffer, buffer_get_8}
use libtrading.Buffer.Contents.{Holds, Holds-byte, buffer_size-length, buffer_get_8-Holds}
use libtrading.Fast.Codec.{ok, garbled, partial}
use libtrading.Fast.Pmap.{Pmap, Ret, parse_pmap, parse_pmap_loop}

-- The map with one more byte.
abbrev pub push : Pmap → ℕ → Pmap
push p c = record p { nr_bytes = suc p.nr_bytes; bytes = set p.bytes p.nr_bytes c }

-- What is made of the input `cs` behind the bytes `done`, when `n` more fit.
abbrev pub Reads : ℕ → List ℕ → List ℕ → Ret × Buffer × Pmap → Type 0
Reads n done cs (ok _, b, p) =
    (front rest : List ℕ) × (c : ℕ) × (cs ≡ front ++ (c ∷ rest))
    × All (λ x. x < 128) front
    × (128 ≤ c)
    × (length front < n)
    × Holds b rest
    × (p.nr_bytes ≡ length done + length front + 1)
    × (take p.nr_bytes p.bytes ≡ done ++ (front ++ (c ∷ [])))
Reads n done cs (garbled, b, p) =
    (front rest : List ℕ) × (cs ≡ front ++ rest)
    × All (λ x. x < 128) front
    × (length front ≡ n)
    × Holds b rest
Reads n done cs (partial, b, p) = All (λ x. x < 128) cs × (length cs < n) × Holds b []

module _ (n : ℕ) (b : Buffer) (p : Pmap) where
  loop-empty : Holds b [] → parse_pmap_loop (suc n) b p ≡ (partial, b, p)
  unfolding parse_pmap_loop
  loop-empty h = ground (arith, buffer_size-length [] h)

  pub loop-more :
      (c : ℕ) (cs : List ℕ)
      → Holds b (c ∷ cs)
      → c < 128
      → parse_pmap_loop (suc n) b p ≡ parse_pmap_loop n (buffer_get_8 b).1 (push p c)
  unfolding parse_pmap_loop
  loop-more c cs h small =
      ground (arith, buffer_size-length (c ∷ cs) h, (buffer_get_8-Holds c cs h).0, bit_and-0x80 c)

  pub loop-stop :
      (c : ℕ) (cs : List ℕ)
      → Holds b (c ∷ cs)
      → 128 ≤ c
      → parse_pmap_loop (suc n) b p ≡ (ok tt, (buffer_get_8 b).1, push p c)
  unfolding parse_pmap_loop
  loop-stop c cs h big = ground (
    arith,
    buffer_size-length (c ∷ cs) h,
    (buffer_get_8-Holds c cs h).0,
    Holds-byte c cs h,
    bit_and-0x80 c,
  )

-- A septet in front.
Reads-more :
    (n c : ℕ) (done cs : List ℕ) (r : Ret × Buffer × Pmap)
    → c < 128
    → Reads n (done ++ (c ∷ [])) cs r
    → Reads (suc n) done (c ∷ cs) r
Reads-more n c done cs (ok _, b, p) small
      (front, rest, d, e, septets, stop, short, held, size, used) =
    (
      c ∷ front,
      rest,
      d,
      ap (◌∷◌ c) e,
      (small, septets),
      stop,
      omega arith,
      held,
      omega (arith, size, length-append done (c ∷ [])),
      used ∙ append_assoc done (c ∷ []) (front ++ (d ∷ [])),
    )
Reads-more n c done cs (garbled, b, p) small (front, rest, e, septets, short, held) =
    (c ∷ front, rest, ap (◌∷◌ c) e, (small, septets), omega arith, held)
Reads-more n c done cs (partial, b, p) small (septets, short, held) =
    ((small, septets), omega arith, held)

parse_pmap_loop-Reads :
    (n : ℕ) (b : Buffer) (p : Pmap) (done cs : List ℕ)
    → Holds b cs
    → p.nr_bytes + n ≤ length p.bytes
    → p.nr_bytes ≡ length done
    → take p.nr_bytes p.bytes ≡ done
    → Reads n done cs (parse_pmap_loop n b p)
parse_pmap_loop-Reads zero b p done cs h room size used =
    unfold parse_pmap_loop in ([], cs, refl, tt, refl, h)
parse_pmap_loop-Reads (suc n) b p done [] h room size used =
    subst (Reads (suc n) done []) (sym (loop-empty n b p h)) (tt, omega arith, h)
parse_pmap_loop-Reads (suc n) b p done (c ∷ cs) h room size used =
    let (_, next) = buffer_get_8-Holds c cs h in
    let pushed : take (suc p.nr_bytes) (set p.bytes p.nr_bytes c) ≡ done ++ (c ∷ []) =
      take-set p.bytes p.nr_bytes c (omega arith) ∙ ap (λ (xs : List ℕ). xs ++ (c ∷ [])) used in
    elim (Bool-cases (ltb c 128)) [
      | inl small ↦
          subst (Reads (suc n) done (c ∷ cs)) (sym (loop-more n b p c cs h (ltb→lt _ _ small))) (
            Reads-more n c done cs _ (ltb→lt _ _ small) (
              parse_pmap_loop-Reads n (buffer_get_8 b).1 (push p c) (done ++ (c ∷ [])) cs next
                (omega (arith, length-set p.bytes p.nr_bytes c))
                (omega (arith, length-append done (c ∷ []))) pushed))
      | inr big ↦
          subst (Reads (suc n) done (c ∷ cs)) (sym (loop-stop n b p c cs h (ltb→le _ _ big)))
            ([], cs, c, refl, tt, ltb→le _ _ big, omega arith, next, omega arith, pushed)
    ]

-- On every input parse_pmap, on a map whose array has eight bytes, reads up to the first stop bit among the
-- first eight bytes, and the bytes of the map in use are then exactly those read; it calls the input
-- garbled after eight bytes without one, and partial when it ends before that.
pub parse_pmap-Reads :
    (b : Buffer) (p : Pmap) (cs : List ℕ)
    → Holds b cs
    → length p.bytes ≡ 8
    → Reads 8 [] cs (parse_pmap b p)
unfolding parse_pmap
parse_pmap-Reads b p cs h eight =
    parse_pmap_loop-Reads 8 b (record p { nr_bytes = 0 }) [] cs h (omega (arith, eight)) refl refl
