-- ===== src/Fast/Text/Wire.antt =====
-- ASCII strings between transfer_string and parse_string of lib/proto/fast_message.c.
use libtrading.Base.{
  ℕ, zero, suc, ◌+◌, ◌-◌, ◌%◌, ◌≤◌, ◌<◌, ◌≡◌, refl, sym, ap, ◌∙◌, Bool, true, List, [], ◌∷◌, ◌++◌,
  append_assoc, append-nil, length, All, arith, bit_and-0x80,
}
use mathlib.Core.Path.{ap₂, subst}
use mathlib.Core.Option.{Option}
use libtrading.Buffer.{Buffer, write_at, buffer_get_8, buffer_put, buffer_remaining}
use libtrading.Buffer.Contents.{
  Holds, contents, window, window-snoc, window-write_at, buffer_size-length, buffer_get_8-Holds,
  buffer_put-Holds,
}
use libtrading.Fast.Codec.{Parsed, ok}
use libtrading.Fast.Text.{Chars, text, parse_string, parse_string_loop, transfer_string, put_text}
use libtrading.Fast.Text.Arrays.{IsAscii, text-window}

-- The array behind one round.
window-put :
    (f : Chars) (len c : ℕ)
    → c < 256
    → window (write_at f len c) 0 (suc len) ≡ window f 0 len ++ (c ∷ [])
window-put f len c byte =
    window-snoc (write_at f len c) 0 len
    ∙ ap₂ (λ (xs : List ℕ) (x : ℕ). xs ++ (x ∷ [])) (window-write_at f len c 0 len (omega arith))
        last
  where
    last : write_at f len c (0 + len) % 256 ≡ c
    last = ground arith

parse_string_loop-more :
    (rounds len : ℕ) (b : Buffer) (value : Chars) (c : ℕ) (cs : List ℕ)
    → Holds b (c ∷ cs)
    → c < 128
    → parse_string_loop (suc rounds) len b value
      ≡ parse_string_loop rounds (suc len) (buffer_get_8 b).1 (write_at value len c)
unfolding parse_string_loop
parse_string_loop-more rounds len b value c cs h small =
    ground (arith, buffer_size-length (c ∷ cs) h, (buffer_get_8-Holds c cs h).0, bit_and-0x80 c)

parse_string_loop-stop :
    (rounds len : ℕ) (b : Buffer) (value : Chars) (cs : List ℕ)
    → Holds b (0x80 ∷ cs)
    → parse_string_loop (suc rounds) len b value
      ≡ (ok (suc len), (buffer_get_8 b).1, write_at (write_at value len 0) (suc len) 0)
unfolding parse_string_loop
parse_string_loop-stop rounds len b value cs h =
    ground (arith, buffer_size-length (0x80 ∷ cs) h, (buffer_get_8-Holds 0x80 cs h).0)

-- What the loop leaves after a body of septets and the byte 0x80.
abbrev Reads : ℕ → Chars → List ℕ → List ℕ → Parsed ℕ × Buffer × Chars → Type 0
Reads len value body rest r =
    (r.0 ≡ ok (len + length body + 1))
    × Holds r.1 rest
    × (window r.2 0 (len + length body + 1) ≡ window value 0 len ++ (body ++ (0 ∷ [])))

parse_string_loop-Reads :
    (rounds len : ℕ) (b : Buffer) (value : Chars) (body rest : List ℕ)
    → length body < rounds
    → All (λ c. c < 128) body
    → Holds b (body ++ (0x80 ∷ rest))
    → Reads len value body rest (parse_string_loop rounds len b value)
parse_string_loop-Reads zero len b value body rest short septets h = absurd (omega arith)
parse_string_loop-Reads (suc rounds) len b value [] rest short septets h =
    subst (Reads len value [] rest) (sym (parse_string_loop-stop rounds len b value rest h)) (
      ap ok (sym one),
      (buffer_get_8-Holds 0x80 rest h).1,
      ap (window (write_at (write_at value len 0) (suc len) 0) 0) one
          ∙ window-write_at (write_at value len 0) (suc len) 0 0 (suc len) (omega arith)
          ∙ window-put value len 0 (omega arith),
    )
  where
    one : len + 0 + 1 ≡ suc len
    one = omega arith
parse_string_loop-Reads (suc rounds) len b value (c ∷ body) rest short septets h =
    subst (Reads len value (c ∷ body) rest)
      (sym (parse_string_loop-more rounds len b value c (body ++ (0x80 ∷ rest)) h septets.0))
      (let (done, left, filled) =
          parse_string_loop-Reads rounds (suc len) (buffer_get_8 b).1 (write_at value len c) body
            rest (omega arith) septets.1 (buffer_get_8-Holds c (body ++ (0x80 ∷ rest)) h).1 in
        (
          done ∙ ap ok (sym same),
          left,
          ap
                (window
                  (parse_string_loop rounds (suc len) (buffer_get_8 b).1 (write_at value len c)).2
                  0)
                same
              ∙ filled
              ∙ ap (λ (xs : List ℕ). xs ++ (body ++ (0 ∷ [])))
                  (window-put value len c (omega (arith, septets.0)))
              ∙ append_assoc (window value 0 len) (c ∷ []) (body ++ (0 ∷ [])),
        ))
  where
    same : len + suc (length body) + 1 ≡ suc len + length body + 1
    same = omega arith

put_text-Holds :
    (xs : List ℕ) (b : Buffer) (cs : List ℕ)
    → All (λ c. c < 128) xs
    → Holds b cs
    → length xs ≤ buffer_remaining b
    → Holds (put_text xs b) (cs ++ xs)
      × (buffer_remaining (put_text xs b) ≡ buffer_remaining b - length xs)
unfolding put_text
put_text-Holds [] b cs septets h room = (rw append-nil h, omega arith)
put_text-Holds (x ∷ xs) b cs septets h room =
    let (grown, less) = buffer_put-Holds cs x h (omega (arith, septets.0)) (omega arith) in
    let (all, left) =
      put_text-Holds xs (buffer_put b x) (cs ++ (x ∷ [])) septets.1 grown (omega (arith, less)) in
    (rw append_assoc at all, omega (arith, less, left))

-- The bytes before the stop byte: an empty string is sent as a NUL.
abbrev pub body_of : List ℕ → List ℕ
body_of [] = 0 ∷ []
body_of (c ∷ cs) = c ∷ cs

body_of-septets : (cs : List ℕ) → All IsAscii cs → All (λ c. c < 128) (body_of cs)
body_of-septets [] h = (omega arith, tt)
body_of-septets (c ∷ cs) h = go (c ∷ cs) h
  where
    go : (xs : List ℕ) → All IsAscii xs → All (λ c. c < 128) xs
    go [] h = tt
    go (x ∷ xs) h = (h.0.1, go xs h.1)

pub transfer_string-Holds :
    (s : List ℕ) (b : Buffer) (cs : List ℕ)
    → All IsAscii s
    → Holds b cs
    → length (body_of s) < buffer_remaining b
    → ((transfer_string b (Option.some s)).0 ≡ true)
      × Holds (transfer_string b (Option.some s)).1 (cs ++ (body_of s ++ (0x80 ∷ [])))
transfer_string-Holds s b cs ascii h room =
    let (all, left) = put_text-Holds (body_of s) b cs (body_of-septets s ascii) h (omega arith) in
    let (last, _) =
      buffer_put-Holds (cs ++ body_of s) 0x80 all (omega arith) (omega (arith, left, room)) in
    subst (λ (r : Bool × Buffer). (r.0 ≡ true) × Holds r.1 (cs ++ (body_of s ++ (0x80 ∷ []))))
      (sym (steps s room left)) (refl, rw append_assoc at last)
  where
    steps :
        (s : List ℕ)
        → length (body_of s) < buffer_remaining b
        → buffer_remaining (put_text (body_of s) b) ≡ buffer_remaining b - length (body_of s)
        → transfer_string b (Option.some s) ≡ (true, buffer_put (put_text (body_of s) b) 0x80)
    steps [] room left = unfold transfer_string in ground arith
    steps (x ∷ xs) room left = unfold transfer_string in ground arith

length-body_of :
    (s : List ℕ)
    → (length (body_of s) ≤ length s + 1)
      × (length s ≤ length (body_of s))
      × (length s ≤ 254 → length (body_of s) ≤ 254)
length-body_of [] = (omega arith, omega arith, λ h. omega arith)
length-body_of (c ∷ cs) = (omega arith, omega arith, λ h. h)

-- An ASCII string of at most 254 characters, written by transfer_string into an empty buffer with room
-- for it and followed by any bytes, is the string that parse_string leaves in an array of
-- FAST_STRING_MAX_BYTES; the bytes that follow stay unread, and the length that is returned is not
-- the 1 that stands for no string.
pub parse_string-transfer_string :
    (s : List ℕ) (dst src : Buffer) (value : Chars) (rest : List ℕ)
    → All IsAscii s
    → length s ≤ 254
    → Holds dst []
    → length s + 1 < buffer_remaining dst
    → Holds src (contents (transfer_string dst (Option.some s)).1 ++ rest)
    → ((transfer_string dst (Option.some s)).0 ≡ true)
      × ((parse_string src value 256).0 ≡ ok (length (body_of s) + 1))
      × Holds (parse_string src value 256).1 rest
      × (text (parse_string src value 256).2 ≡ s)
parse_string-transfer_string s dst src value rest ascii short empty room sent =
    let (success, written) =
      transfer_string-Holds s dst [] ascii empty (omega (arith, length-body_of s)) in
    let (done, left, filled) =
      parse_string_loop-Reads 255 0 src value (body_of s) rest
        (omega (arith, (length-body_of s).2 short)) (body_of-septets s ascii)
        (rw (append_assoc (body_of s) (0x80 ∷ []) rest) at (rw written.reads at sent)) in
    (
      success,
      unfold parse_string in (done ∙ ap ok (omega arith)),
      unfold parse_string in left,
      unfold parse_string in ends s ascii short (parse_string_loop 255 0 src value).2 filled,
    )
  where
    ends :
        (s : List ℕ)
        → All IsAscii s
        → length s ≤ 254
        → (f : Chars)
        → window f 0 (0 + length (body_of s) + 1) ≡ window value 0 0 ++ (body_of s ++ (0 ∷ []))
        → text f ≡ s
    ends [] ascii short f filled = text-window f [] (0 ∷ []) 2 (omega arith) tt filled
    ends (c ∷ cs) ascii short f filled =
        text-window f (c ∷ cs) [] (0 + suc (length cs) + 1) (omega arith) ascii filled
