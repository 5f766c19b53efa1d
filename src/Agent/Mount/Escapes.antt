-- ===== src/Agent/Mount/Escapes.antt =====
-- A path survives the escapes of the table of mounts.
use spawnr.Prelude.{
  not-eq_true, arith, ℕ, ◌+◌, ◌/◌, ◌%◌, ◌≡◌, refl, Bool, true, false, not, ◌&&◌, ◌||◌, List, [],
  ◌∷◌, ◌++◌, ◌==◌, if◌then◌else◌, get_elem?, all, ok, &&-eq_true, Bool-cases, inl, inr,
}
use spawnr.Prelude.Text.{Str, bytes, utf8}
use spawnr.Prelude.Utf8.{IsStr, is_scalar, from_utf8-bytes}
use spawnr.Agent.Mount.{
  is_boundary, is_octal, octal_value, escape_value, unescape_loop, unescape_mountinfo,
}

-- The kernel escapes the tab, the newline, the space and the backslash.
abbrev is_special : ℕ → Bool
is_special c = c == 9 || c == 10 || c == 32 || c == 92

abbrev escaped : ℕ → List ℕ
escaped c = 92 ∷ (48 + c / 64) ∷ (48 + (c / 8) % 8) ∷ (48 + c % 8) ∷ []

abbrev escape_char : ℕ → List ℕ
escape_char c = if is_special c then escaped c else utf8 c

-- What the kernel shows of a path.
unfoldable pub escape_text : Str → List ℕ
escape_text [] = []
escape_text (c ∷ s) = escape_char c ++ escape_text s

utf8_boundary :
    (c : ℕ) (rest : List ℕ)
    → is_scalar c ≡ true
    → is_boundary (get_elem? (escape_char c ++ rest) 0) ≡ true
utf8_boundary c rest h = ground arith

escape_text_boundary : (s : Str) → IsStr s → is_boundary (get_elem? (escape_text s) 0) ≡ true
unfolding escape_text
escape_text_boundary [] h = refl
escape_text_boundary (c ∷ s) (h, hs) = utf8_boundary c (escape_text s) h

utf8_plain : (c : ℕ) → (c == 92) ≡ false → all (λ b. not (b == 92)) (utf8 c) ≡ true
utf8_plain c h = ground arith

escape_octal :
    (c : ℕ)
    → is_special c ≡ true
    → (is_octal (48 + c / 64) && is_octal (48 + (c / 8) % 8) && is_octal (48 + c % 8)) ≡ true
escape_octal c h = ground arith

escape_octal_value :
    (c : ℕ) → is_special c ≡ true → octal_value (48 + c / 64) (48 + (c / 8) % 8) (48 + c % 8) ≡ ok c
escape_octal_value c h = ground arith

unescape-plain :
    (xs rest out : List ℕ)
    → all (λ b. not (b == 92)) xs ≡ true
    → unescape_loop 0 rest ≡ ok out
    → unescape_loop 0 (xs ++ rest) ≡ ok (xs ++ out)
unfolding unescape_loop
unescape-plain [] rest out p h = h
unescape-plain (x ∷ xs) rest out p h =
    let (here, later) = &&-eq_true (not (x == 92)) _ p in
    rw (unescape_loop, not-eq_true (x == 92) here, unescape-plain xs rest out later h) refl

unescape-escaped :
    (c : ℕ) (rest out : List ℕ)
    → is_special c ≡ true
    → is_boundary (get_elem? rest 0) ≡ true
    → unescape_loop 0 rest ≡ ok out
    → unescape_loop 0 (escaped c ++ rest) ≡ ok (c ∷ out)
unfolding unescape_loop escape_value
unescape-escaped c rest out s b h = rw (b, escape_octal c s, escape_octal_value c s, h) refl

special_byte : (c : ℕ) → is_special c ≡ true → utf8 c ≡ c ∷ []
special_byte c h = ground arith

plain_char : (c : ℕ) → is_special c ≡ false → (c == 92) ≡ false
plain_char c h = ground arith

unescape-char :
    (c : ℕ) (rest out : List ℕ)
    → is_boundary (get_elem? rest 0) ≡ true
    → unescape_loop 0 rest ≡ ok out
    → unescape_loop 0 (escape_char c ++ rest) ≡ ok (utf8 c ++ out)
unescape-char c rest out b h = elim (Bool-cases (is_special c)) [
  | inl e ↦ rw (e, special_byte c e) (unescape-escaped c rest out e b h)
  | inr e ↦ rw e (unescape-plain (utf8 c) rest out (utf8_plain c (plain_char c e)) h)
]

unescape_loop-escape_text : (s : Str) → IsStr s → unescape_loop 0 (escape_text s) ≡ ok (bytes s)
unfolding unescape_loop escape_text bytes
unescape_loop-escape_text [] h = refl
unescape_loop-escape_text (c ∷ s) (h, hs) =
    unescape-char c (escape_text s) (bytes s) (escape_text_boundary s hs)
      (unescape_loop-escape_text s hs)

-- A path that the kernel shows with its escapes is read back, for every text.
pub unescape_mountinfo-escape_text : (s : Str) → IsStr s → unescape_mountinfo (escape_text s) ≡ ok s
unfolding unescape_mountinfo
unescape_mountinfo-escape_text s h = rw (unescape_loop-escape_text s h, from_utf8-bytes s h) refl
