-- ===== src/Host/Storage/Fuel.antt =====
-- The fuel of the copy by extents.
use spawnr.Prelude.{
  ℕ, zero, suc, ◌+◌, ◌-◌, ◌≤◌, ◌<◌, ◌≡◌, refl, min, Bool, true, false, Option, none, some, List, [],
  ◌∷◌, Result, ok, err, ensure, if◌then◌else◌, ltb, leb, ◌==◌, not, length, drop, arith,
  ensure-eq-ok, ok-injective,
}
use spawnr.Prelude.Actions.{Action, rest, ◌>>=◌, ◌>>◌, give}
use spawnr.Host.Storage.Sparse.{
  Seek, at, past_end, unsupported, broken, CopyError, io, out_of_fuel, invalid_extent,
  unexpected_eof, write_zero, Kernel, Bytes, wrote, write_at, write_all_at, received, read_at,
  copy_extent, plain_copy, plainly, hole_of, from_data, copy_loop, resized, sparse_copy, buffer_len,
}
use spawnr.Host.Storage.Pieces.{length-drop}
use spawnr.Host.Storage.Copied.{Extents}

-- The computation does not run out of fuel.
pub record Fueled {A : Type 0} (m : Action Bytes CopyError A) : Type 0 where
  pub enough : (d : Bytes) → (m d).0 ≡ err out_of_fuel → ⊥

same_error :
    {A B : Type 0} (x : CopyError)
    → ◌≡◌ {A = Result CopyError B} (err x) (err out_of_fuel)
    → ◌≡◌ {A = Result CopyError A} (err x) (err out_of_fuel)
same_error x e = cc

rest_enough :
    {A B : Type 0} (v : Result CopyError A) (d : Bytes) (f : A → Action Bytes CopyError B)
    → (v ≡ err out_of_fuel → ⊥)
    → ((a : A) → v ≡ ok a → Fueled (f a))
    → (rest v d f).0 ≡ err out_of_fuel
    → ⊥
rest_enough (ok a) d f h g e = (g a refl).enough d e
rest_enough (err x) d f h g e = h (same_error x e)

>>=-Fueled :
    {A B : Type 0} {m : Action Bytes CopyError A} {f : A → Action Bytes CopyError B}
    → Fueled m
    → ((a : A) (d : Bytes) → (m d).0 ≡ ok a → Fueled (f a))
    → Fueled (m >>= f)
unfolding ◌>>=◌
>>=-Fueled {m = m} {f = f} h g = record {
  enough = λ d e. rest_enough (m d).0 (m d).1 f (h.enough d) (λ a k. g a d k) e;
}

give-Fueled : {A : Type 0} (v : Result CopyError A) → (v ≡ err out_of_fuel → ⊥) → Fueled (give v)
unfolding give
give-Fueled v h = record { enough = λ d e. h e }

ok_fueled : {A : Type 0} {a : A} → ◌≡◌ {A = Result CopyError A} (ok a) (err out_of_fuel) → ⊥
ok_fueled e = cc

branch-Fueled :
    {A : Type 0} (b : Bool) (m n : Action Bytes CopyError A)
    → (b ≡ true → Fueled m)
    → (b ≡ false → Fueled n)
    → Fueled (if b then m else n)
branch-Fueled true m n h g = h refl
branch-Fueled false m n h g = g refl

-- A check with an error of its own.
checked-Fueled : (b : Bool) (e : CopyError) → (e ≡ out_of_fuel → ⊥) → Fueled (give (ensure b e))
checked-Fueled b e h = give-Fueled (ensure b e) (λ q. h (of_ensure b e q))
  where
    of_ensure : (b : Bool) (e : CopyError) → ensure b e ≡ err out_of_fuel → e ≡ out_of_fuel
    of_ensure true e q = cc
    of_ensure false e q = cc

module _ (k : Kernel) where
  -- A sequence that succeeds has passed its check.
  ensured_of :
      {A : Type 0} (b : Bool) (e : CopyError) (m : Action Bytes CopyError A) (u : Bytes) {a : A}
      → ((give (ensure b e) >> m) u).0 ≡ ok a
      → b ≡ true
  unfolding ◌>>=◌ give
  ensured_of true e m u h = refl
  ensured_of false e m u h = cc

  not_zero : (n : ℕ) → not (n == 0) ≡ true → 0 < n
  not_zero n g = ground arith

  no_fuel :
      (b : Bool)
      → b ≡ false
      → ◌≡◌ {A = Result CopyError (Unit {0})}
          (if b then err out_of_fuel else ok tt)
          (err out_of_fuel)
      → ⊥
  no_fuel true h e = cc
  no_fuel false h e = ok_fueled e

  not_below : (p h : ℕ) → h ≤ p + 0 → ltb p h ≡ false
  not_below p h l = ground arith

  write_at-Fueled : (text : List ℕ) (o : ℕ) → Fueled (write_at k text o)
  unfolding write_at wrote
  write_at-Fueled text o = record { enough = λ d e. after (k.writes o) d e }
    where
      after : (w : Option ℕ) (d : Bytes) → (wrote w o text d).0 ≡ err out_of_fuel → ⊥
      after none d e = cc
      after (some n) d e = cc

  -- A write of a text that is not longer than the fuel.
  write_all_at-Fueled :
      (fuel : ℕ) (text : List ℕ) (o : ℕ) → length text ≤ fuel → Fueled (write_all_at k fuel text o)
  unfolding write_all_at give
  write_all_at-Fueled fuel [] o h = give-Fueled (ok tt) ok_fueled
  write_all_at-Fueled zero (x ∷ xs) o h = elim (too_long xs h) [ ]
    where
      too_long : (xs : List ℕ) → suc (length xs) ≤ zero → ⊥
      too_long xs h = omega arith
  write_all_at-Fueled (suc fuel) (x ∷ xs) o h = >>=-Fueled (write_at-Fueled (x ∷ xs) o) (λ n d e.
      >>=-Fueled (checked-Fueled (not (n == 0)) write_zero (λ q. cc)) (λ done u g.
        write_all_at-Fueled fuel (drop n (x ∷ xs)) (o + n)
          (omega (arith, length-drop n (x ∷ xs), h, not_zero n (ensure-eq-ok _ _ g)))))

  module _ (source : Bytes) (size : ℕ) where
    read_at-Fueled : (p count : ℕ) → Fueled (read_at k source size p count)
    unfolding read_at received
    read_at-Fueled p count = give-Fueled _ (after (k.reads p))
      where
        after : (w : Option ℕ) → received k source size w p count ≡ err out_of_fuel → ⊥
        after none e = cc
        after (some n) e = cc

    copy_extent-Fueled : (fuel p h : ℕ) → h ≤ p + fuel → Fueled (copy_extent k source size fuel p h)
    unfolding copy_extent give
    copy_extent-Fueled zero p h l = give-Fueled _ (no_fuel (ltb p h) (not_below p h l))
    copy_extent-Fueled (suc fuel) p h l =
        branch-Fueled (ltb p h) _ _
          (λ lt. >>=-Fueled (read_at-Fueled p (min (h - p) buffer_len)) (λ text d e.
            >>=-Fueled
              (>>=-Fueled (checked-Fueled (not (length text == 0)) unexpected_eof (λ q. cc))
                (λ done u g. write_all_at-Fueled (length text) text p (omega arith)))
              (λ done u g. copy_extent-Fueled fuel (p + length text) h (
                omega (
                  arith,
                  l,
                  not_zero (length text) (ensured_of (not (length text == 0)) unexpected_eof _ u g),
                )))))
          (λ ge. give-Fueled (ok tt) ok_fueled)

    module _ (x : Extents k source size) where
      copy_loop-Fueled : (fuel o : ℕ) → size ≤ o + fuel → Fueled (copy_loop k source size fuel o)
      unfolding copy_loop from_data plain_copy plainly hole_of give
      copy_loop-Fueled zero o l = give-Fueled _ (no_fuel (ltb o size) (not_below o size l))
      copy_loop-Fueled (suc fuel) o l =
          branch-Fueled (ltb o size) _ _
            (λ lt. from (λ hole h. copy_loop-Fueled fuel hole h) (k.seek_data o) refl)
            (λ ge. give-Fueled (ok tt) ok_fueled)
        where
          plain : (b : Bool) → Fueled (plainly k source size b)
          plain true = record { enough = λ d e. ok_fueled e }
          plain false = record { enough = λ d e. cc }

          hole_fueled : (q : Seek) → hole_of k source size q ≡ err out_of_fuel → ⊥
          hole_fueled (at h) e = cc
          hole_fueled past_end e = cc
          hole_fueled unsupported e = cc
          hole_fueled broken e = cc

          after_data :
              (p hole : ℕ)
              → k.seek_data o ≡ at p
              → p < size
              → (q : Seek) → k.seek_hole p ≡ q
              → hole_of k source size q ≡ ok hole
              → p < hole
          after_data p hole d lt (at h) e g =
              omega (arith, x.hole_after o p h d e, ok-injective g, lt)
          after_data p hole d lt past_end e g = omega (arith, ok-injective g, lt)
          after_data p hole d lt unsupported e g = cc
          after_data p hole d lt broken e g = cc

          hole_within : (hole : ℕ) (q : Seek) → hole_of k source size q ≡ ok hole → hole ≤ size
          hole_within hole (at h) g = omega (arith, ok-injective g)
          hole_within hole past_end g = omega (arith, ok-injective g)
          hole_within hole unsupported g = cc
          hole_within hole broken g = cc

          from :
              ((hole : ℕ) → size ≤ hole + fuel → Fueled (copy_loop k source size fuel hole))
              → (q : Seek) → k.seek_data o ≡ q
              → Fueled (from_data k source size (λ hole. copy_loop k source size fuel hole) q)
          from next past_end e = give-Fueled (ok tt) ok_fueled
          from next unsupported e = plain k.copies
          from next broken e = give-Fueled (err io) (λ q. cc)
          from next (at p) e =
              let (le, lt, zeros) = x.data_at o p e in
              >>=-Fueled (give-Fueled _ (hole_fueled (k.seek_hole p))) (λ hole d g.
                >>=-Fueled
                  (>>=-Fueled (checked-Fueled (leb p hole) invalid_extent (λ q. cc)) (λ done u c.
                    copy_extent-Fueled (size + 1) p hole
                      (omega (arith, hole_within hole (k.seek_hole p) g))))
                  (λ done u c.
                    next hole
                      (omega (arith, after_data p hole e lt (k.seek_hole p) refl g, le, l))))

      -- Where the kernel reports extents as lseek(2) documents it: the copy ends with a result of its
      -- own, its loops never run out of the turns that the file's size gives them.
      pub sparse_copy-Fueled : Fueled (sparse_copy k source size)
      unfolding sparse_copy
      sparse_copy-Fueled = record {
        enough = λ old e.
            (copy_loop-Fueled (size + 1) 0 (omega arith)).enough (resized k source size old) e;
      }
