-- ===== src/Host/Storage/Pieces.antt =====
-- What the writes of a copy leave.
use spawnr.Prelude.{
  ℕ, zero, suc, ◌+◌, ◌-◌, ◌≤◌, ◌<◌, ◌≡◌, refl, sym, ap, ◌∙◌, min, Bool, true, false, Option, none,
  some, List, [], ◌∷◌, ok, err, ensure, ◌==◌, not, length, take, drop, arith, length-take,
}
use spawnr.Prelude.Actions.{Action, give, After, Triple, >>=-Triple, give-Triple, consequence}
use spawnr.Host.Storage.Sparse.{
  CopyError, out_of_fuel, write_zero, Kernel, Bytes, nth, slice, overwrite, wrote, write_at,
  write_all_at,
}

-- The destination has these bytes.
pub record Is (f d : Bytes) : Type 0 where
  pub byte : (i : ℕ) → d i ≡ f i

abbrev pub Gives :
    {A : Type 0} → (Bytes → Type 0) → Action Bytes CopyError A → (A → Bytes → Type 0) → Type 0
Gives P m Q = Triple (λ d. Unit {0}) P m Q

pub length-drop : {A : Type 0} (n : ℕ) (xs : List A) → length (drop n xs) ≡ length xs - n
length-drop zero xs = omega arith
length-drop (suc n) [] = omega arith
length-drop (suc n) (x ∷ xs) = omega (arith, length-drop n xs)

suc_plus : (n i : ℕ) → suc (n + i) ≡ suc n + i
suc_plus n i = omega arith

pub below_zero : (i : ℕ) → i < zero → ⊥
below_zero i h = omega arith

nth-drop : (n : ℕ) (xs : List ℕ) (i : ℕ) → nth (drop n xs) i ≡ nth xs (n + i)
nth-drop zero xs i = ap (nth xs) (omega arith)
nth-drop (suc n) [] i = refl
nth-drop (suc n) (x ∷ xs) i = nth-drop n xs i ∙ ap (nth (x ∷ xs)) (suc_plus n i)

nth-take : (n : ℕ) (xs : List ℕ) (i : ℕ) → i < n → nth (take n xs) i ≡ nth xs i
nth-take zero xs i h = elim (below_zero i h) [ ]
nth-take (suc n) [] i h = refl
nth-take (suc n) (x ∷ xs) zero h = refl
nth-take (suc n) (x ∷ xs) (suc i) h = nth-take n xs i (omega arith)

pub length-slice : (f : Bytes) (p n : ℕ) → length (slice f p n) ≡ n
unfolding slice
length-slice f p zero = refl
length-slice f p (suc n) = omega (arith, length-slice f (p + 1) n)

pub nth-slice : (f : Bytes) (p n i : ℕ) → i < n → nth (slice f p n) i ≡ f (p + i)
unfolding slice
nth-slice f p (suc n) zero h = ap f (omega arith)
nth-slice f p (suc n) (suc i) h = nth-slice f (p + 1) n i (omega arith) ∙ ap f (omega arith)
nth-slice f p zero i h = elim (below_zero i h) [ ]

nth_shift :
    (o n i : ℕ) (text : List ℕ) → o + n ≤ i → nth text (n + (i - (o + n))) ≡ nth text (i - o)
nth_shift o n i text h = ap (nth text) (omega arith)

-- Two writes, one after the other, are one.
overwrite_twice :
    (o n : ℕ) (text : List ℕ) (old : Bytes) (i : ℕ)
    → n ≤ length text
    → overwrite (o + n) (drop n text) (overwrite o (take n text) old) i ≡ overwrite o text old i
unfolding overwrite
overwrite_twice o n text old i h = ground (
  arith,
  length-drop n text,
  length-take n text,
  nth-drop n text (i - (o + n)),
  nth-take n text (i - o),
  nth_shift o n i text,
)

overwrite_same :
    (o : ℕ) (text : List ℕ) (f g : Bytes) (i : ℕ)
    → f i ≡ g i
    → overwrite o text f i ≡ overwrite o text g i
unfolding overwrite
overwrite_same o text f g i h = ground arith

overwrite_none : (o : ℕ) (f : Bytes) (i : ℕ) → overwrite o [] f i ≡ f i
unfolding overwrite
overwrite_none o f i = ground arith

module _ (k : Kernel) where
  write_at-Gives :
      (text : List ℕ) (o : ℕ) (f : Bytes)
      → Gives
          (Is f)
          (write_at k text o)
          (λ n d. (n ≤ length text) × Is (overwrite o (take n text) f) d)
  unfolding write_at wrote
  write_at-Gives text o f = record { holds = λ d h. after (k.writes o) d h }
    where
      after :
          (w : Option ℕ) (d : Bytes)
          → Is f d
          → After
              (λ b. Unit {0})
              (λ n b. (n ≤ length text) × Is (overwrite o (take n text) f) b)
              (wrote w o text d).0
              (wrote w o text d).1
      after none d h = tt
      after (some n) d h = (
        omega arith,
        record { byte = λ i. overwrite_same o (take (min n (length text)) text) d f i (h.byte i) },
      )

  pub kept_by :
      {P : Bytes → Type 0} (b : Bool) (e : CopyError) → Gives P (give (ensure b e)) (λ done. P)
  kept_by {P} b e = give-Triple (ensure b e) (λ d h. after b d h)
    where
      after : (b : Bool) (d : Bytes) → P d → After (λ x. Unit {0}) (λ done. P) (ensure b e) d
      after true d h = h
      after false d h = tt

  pub write_all_at-Gives :
      (fuel : ℕ) (text : List ℕ) (o : ℕ) (f : Bytes)
      → Gives (Is f) (write_all_at k fuel text o) (λ done. Is (overwrite o text f))
  unfolding write_all_at
  write_all_at-Gives fuel [] o f =
      give-Triple (ok tt) (λ d h. record { byte = λ i. h.byte i ∙ sym (overwrite_none o f i) })
  write_all_at-Gives zero (x ∷ xs) o f = give-Triple (err out_of_fuel) (λ d h. tt)
  write_all_at-Gives (suc fuel) (x ∷ xs) o f = >>=-Triple (write_at-Gives (x ∷ xs) o f) (λ n.
      >>=-Triple (kept_by (not (n == 0)) write_zero) (λ done. record {
        holds = λ d (le, is).
            (consequence (λ u h. h) (λ u h. h)
                (λ a u h. record { byte = λ i. h.byte i ∙ overwrite_twice o n (x ∷ xs) f i le })
                (write_all_at-Gives fuel (drop n (x ∷ xs)) (o + n)
                  (overwrite o (take n (x ∷ xs)) f))).holds
              d is;
      }))
