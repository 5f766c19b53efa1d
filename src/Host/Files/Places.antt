-- ===== src/Host/Files/Places.antt =====
-- Equality of paths, and the tree below one.
use spawnr.Prelude.{
  ◌<◌, ◌≡◌, refl, sym, ap, Bool, true, false, Option, none, [], ◌∷◌, ◌++◌, length, length-append,
  arith, Bool-cases, inl, inr,
}
use spawnr.Prelude.Text.{Str, str_eq_iff}
use spawnr.Host.Files.{PathBuf, Node, Nodes, path_eq, under, set, without}

pub path_eq_refl : (p : PathBuf) → path_eq p p ≡ true
unfolding path_eq
path_eq_refl [] = refl
path_eq_refl (x ∷ p) = ground (arith, path_eq_refl p, str_eq_iff x x)

cons_eq : (x y : Str) (p q : PathBuf) → x ≡ y → p ≡ q → x ∷ p ≡ y ∷ q
cons_eq x y p q e f = cc

pub path_eq-eq : (p q : PathBuf) → path_eq p q ≡ true → p ≡ q
unfolding path_eq
path_eq-eq [] [] h = refl
path_eq-eq [] (y ∷ q) h = cc
path_eq-eq (x ∷ p) [] h = cc
path_eq-eq (x ∷ p) (y ∷ q) h = ground (arith, path_eq-eq p q, str_eq_iff x y, cons_eq x y p q)

path_eq-length : (p q : PathBuf) → path_eq p q ≡ true → length p ≡ length q
path_eq-length p q h = ap length (path_eq-eq p q h)

longer_absurd : (x : Str) (a p : PathBuf) → length p ≡ length (x ∷ (a ++ p)) → ⊥
longer_absurd x a p h = omega (arith, length-append a p)

longer : (x : Str) (a p : PathBuf) → path_eq p (x ∷ (a ++ p)) ≡ false
longer x a p = elim (Bool-cases (path_eq p (x ∷ (a ++ p)))) [
  | inl e ↦ elim (longer_absurd x a p (path_eq-length p (x ∷ (a ++ p)) e)) [ ]
  | inr e ↦ e
]

shorter : (x : Str) (a p : PathBuf) → path_eq (x ∷ (a ++ p)) p ≡ false
shorter x a p = elim (Bool-cases (path_eq (x ∷ (a ++ p)) p)) [
  | inl e ↦ elim (longer_absurd x a p (sym (path_eq-length (x ∷ (a ++ p)) p e))) [ ]
  | inr e ↦ e
]

-- Paths below one root are told apart by their names below it.
pub path_eq-append : (a b p : PathBuf) → path_eq (a ++ p) (b ++ p) ≡ path_eq a b
unfolding path_eq
path_eq-append [] [] p = path_eq_refl p
path_eq-append [] (y ∷ b) p = longer y b p
path_eq-append (x ∷ a) [] p = shorter x a p
path_eq-append (x ∷ a) (y ∷ b) p = ground (arith, path_eq-append a b p)

pub under_refl : (p : PathBuf) → under p p ≡ true
unfolding under path_eq
under_refl [] = refl
under_refl (x ∷ p) = ground (arith, path_eq_refl (x ∷ p))

pub under-append : (top a : PathBuf) → under top (a ++ top) ≡ true
unfolding under
under-append top [] = under_refl top
under-append top (x ∷ a) = ground (arith, under-append top a)

under-length : (top p : PathBuf) → under top p ≡ true → length p < length top → ⊥
unfolding under
under-length top [] h l = omega (arith, path_eq-length top [] h)
under-length top (x ∷ p) h l = ground (arith, path_eq-length top (x ∷ p), under-length top p)

-- Nothing stands below an entry of itself.
pub under-above : (x : Str) (p : PathBuf) → under (x ∷ p) p ≡ false
under-above x p = elim (Bool-cases (under (x ∷ p) p)) [
  | inl e ↦ elim (under-length (x ∷ p) p e (omega arith)) [ ]
  | inr e ↦ e
]

under-step : (x : Str) (top p : PathBuf) → under (x ∷ top) p ≡ true → under top p ≡ true
unfolding under path_eq
under-step x top [] h = cc
under-step x top (y ∷ p) h = ground (arith, under-step x top p, path_eq-eq top p, under_refl top)

pub under_trans : (top p q : PathBuf) → under top p ≡ true → under p q ≡ true → under top q ≡ true
unfolding under
under_trans top [] q h k = ground (arith, path_eq-eq top [])
under_trans top (x ∷ p) q h k =
    ground (arith, path_eq-eq top (x ∷ p), under_trans top p q, under-step x p q)

pub set-same : (p : PathBuf) (new : Option Node) (n : Nodes) → set p new n p ≡ new
unfolding set
set-same p new n = ground (arith, path_eq_refl p)

pub set-other :
    (p q : PathBuf) (new : Option Node) (n : Nodes) → path_eq p q ≡ false → set p new n q ≡ n q
unfolding set
set-other p q new n h = ground arith

pub without-other :
    (top q : PathBuf) (kept : PathBuf → Bool) (n : Nodes)
    → under top q ≡ false
    → without top kept n q ≡ n q
unfolding without
without-other top q kept n h = ground arith

pub without-under :
    (top q : PathBuf) (n : Nodes) → under top q ≡ true → without top (λ x. false) n q ≡ none
unfolding without
without-under top q n h = ground arith
