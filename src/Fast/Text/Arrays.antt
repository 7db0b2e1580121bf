-- ===== src/Fast/Text/Arrays.antt =====
-- The C string in an array.
use libtrading.Base.{
  c_string, ℕ, ◌+◌, ◌-◌, ◌≤◌, ◌<◌, ◌≡◌, refl, ap, ◌∙◌, List, [], ◌∷◌, ◌++◌, append_assoc, All,
  arith, ne→==,
}
use libtrading.Buffer.Contents.{window, window-add}
use libtrading.Fast.Text.{Chars, text}

-- What an ASCII string is made of: no NUL and no stop bit.
abbrev pub IsAscii : ℕ → Type 0
IsAscii c = (0 < c) × (c < 128)

c_string-stop : (cs more : List ℕ) → All IsAscii cs → c_string (cs ++ (0 ∷ more)) ≡ cs
c_string-stop [] more h = refl
c_string-stop (c ∷ cs) more h =
    rw (ne→== c 0 (omega (arith, h.0))) (ap (◌∷◌ c) (c_string-stop cs more h.1))

-- An array that begins with a string and its NUL holds that string.
c_string-window :
    (bound : ℕ) (f : Chars) (cs more : List ℕ) (n : ℕ)
    → n ≤ bound
    → All IsAscii cs
    → window f 0 n ≡ cs ++ (0 ∷ more)
    → c_string (window f 0 bound) ≡ cs
c_string-window bound f cs more n short ascii e =
    ap (λ (k : ℕ). c_string (window f 0 k)) split
    ∙ ap c_string (window-add f 0 n (bound - n))
    ∙ ap (λ (xs : List ℕ). c_string (xs ++ window f (0 + n) (bound - n))) e
    ∙ ap c_string (append_assoc cs (0 ∷ more) (window f (0 + n) (bound - n)))
    ∙ c_string-stop cs (more ++ window f (0 + n) (bound - n)) ascii
  where
    split : bound ≡ n + (bound - n)
    split = omega arith

pub text-window :
    (f : Chars) (cs more : List ℕ) (n : ℕ)
    → n ≤ 256
    → All IsAscii cs
    → window f 0 n ≡ cs ++ (0 ∷ more)
    → text f ≡ cs
unfolding text
text-window f cs more n short ascii e = c_string-window 256 f cs more n short ascii e
