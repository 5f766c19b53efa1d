-- ===== src/Prelude/Utf8.antt =====
-- `std::str::from_utf8`, and that it undoes `as_bytes`.
use Prim.Native.Nat.{ℕ, ◌+◌, ◌-◌, ◌*◌}
use mathlib.Core.Path.{◌≡◌, refl, ◌∙◌}
use mathlib.Core.Bool.{Bool, true, not, ◌&&◌, ◌||◌}
use mathlib.Core.Option.{Option, none, some}
use mathlib.Core.List.{List, [], ◌∷◌, ◌++◌}
use native.Mathlib.Omega.{arith}
use spawnr.Prelude.Tests.{ltb, leb, ◌==◌, if◌then◌else◌, in_range}
use spawnr.Prelude.Lists.{All}
use spawnr.Prelude.Text.{Str, bytes, utf8}

-- A Unicode scalar value.
abbrev pub is_scalar : ℕ → Bool
is_scalar c = ltb c 0xD800 || in_range 0xE000 0x10FFFF c

abbrev pub IsStr : Str → Type 0
IsStr = All (λ c. is_scalar c ≡ true)

-- Between two bytes: at a boundary, or with so many continuation bytes due, the bits so far, and
-- the least character that this length may encode.
pub data Progress : Type 0 where
  boundary : Progress
  due : ℕ → ℕ → ℕ → Progress
  bad : Progress

-- What one byte does: where the decoder stands, and the character that it completes.
utf8_step : Progress → ℕ → Progress × Option ℕ
utf8_step bad b = (bad, none)
utf8_step boundary b =
    if ltb b 0x80
    then (boundary, some b)
    else if in_range 0xC0 0xDF b
    then (due 1 (b - 0xC0) 0x80, none)
    else if in_range 0xE0 0xEF b
    then (due 2 (b - 0xE0) 0x800, none)
    else if in_range 0xF0 0xF7 b
    then (due 3 (b - 0xF0) 0x10000, none)
    else (bad, none)
utf8_step (due n acc least) b =
    let acc' = acc * 64 + (b - 0x80) in
    if not (in_range 0x80 0xBF b)
    then (bad, none)
    else if not (n == 1)
    then (due (n - 1) acc' least, none)
    else if leb least acc' && is_scalar acc'
    then (boundary, some acc')
    else (bad, none)

abbrev push : Option ℕ → Option Str → Option Str
push none r = r
push (some c) none = none
push (some c) (some s) = some (c ∷ s)

abbrev at_boundary : Progress → Option Str
at_boundary boundary = some []
at_boundary _ = none

unfoldable pub decode_from : Progress → List ℕ → Option Str
unfolding utf8_step
decode_from p [] = at_boundary p
decode_from p (b ∷ rest) = let (p', made) = utf8_step p b in push made (decode_from p' rest)

unfoldable pub from_utf8 : List ℕ → Option Str
unfolding decode_from
from_utf8 = decode_from boundary

decode_from-utf8 :
    (c : ℕ) (rest : List ℕ)
    → is_scalar c ≡ true
    → decode_from boundary (utf8 c ++ rest) ≡ push (some c) (decode_from boundary rest)
unfolding decode_from
decode_from-utf8 c rest h = ground arith

-- Decoding the bytes of a text gives the text.
pub from_utf8-bytes : (s : Str) → IsStr s → from_utf8 (bytes s) ≡ some s
unfolding from_utf8 bytes
from_utf8-bytes [] h = refl
from_utf8-bytes (c ∷ s) (hc, hs) = decode_from-utf8 c (bytes s) hc ∙ rw (from_utf8-bytes s hs)
