-- ===== src/Prelude/Split.antt =====
-- Laws of `contains` and `split`.
use Prim.Native.Nat.{ℕ}
use mathlib.Core.Path.{◌≡◌, refl}
use mathlib.Core.Bool.{false, ◌||◌}
use mathlib.Core.List.{[], ◌∷◌, ◌++◌}
use native.Mathlib.Omega.{arith}
use spawnr.Prelude.Text.{Str, contains, split}

pub contains-append :
    (d : ℕ) (xs ys : Str) → contains d (xs ++ ys) ≡ (contains d xs || contains d ys)
contains-append d [] ys = refl
contains-append d (x ∷ xs) ys = ground (arith, contains-append d xs ys)

pub split-single : (d : ℕ) (xs : Str) → contains d xs ≡ false → split d xs ≡ xs ∷ []
unfolding split
split-single d [] h = refl
split-single d (x ∷ xs) h = ground (arith, split-single d xs)

pub split-append :
    (d : ℕ) (xs ys : Str) → contains d xs ≡ false → split d (xs ++ (d ∷ ys)) ≡ xs ∷ split d ys
unfolding split
split-append d [] ys h = ground arith
split-append d (x ∷ xs) ys h = ground (arith, split-append d xs ys)
