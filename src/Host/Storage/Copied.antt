-- ===== src/Host/Storage/Copied.antt =====
-- What a copy by extents leaves.
use mathlib.Core.Path.{subst}
use spawnr.Prelude.{
  ℕ, zero, suc, ◌+◌, ◌-◌, ◌≤◌, ◌<◌, ◌≡◌, refl, sym, ap, ◌∙◌, min, Bool, true, false, Option, none,
  some, List, Result, ok, err, ensure, if◌then◌else◌, ltb, leb, ◌==◌, not, length, arith, leb→le,
}
use spawnr.Prelude.Actions.{Action, give, After, >>=-Triple, give-Triple}
use spawnr.Host.Storage.Pieces.{
  Is, Gives, length-slice, nth-slice, kept_by, write_all_at-Gives, below_zero,
}
use spawnr.Host.Storage.Sparse.{
  Seek, at, past_end, unsupported, broken, CopyError, io, out_of_fuel, invalid_extent,
  unexpected_eof, Kernel, Bytes, slice, overwrite, received, read_at, copy_extent, plain_copy,
  plainly, hole_of, from_data, copy_loop, resized, sparse_copy, buffer_len,
}

module _ (k : Kernel) where
  module _ (source : Bytes) (size : ℕ) where
    -- The source's bytes below `n`, and nothing from there on.
    pub record Upto (n : ℕ) (d : Bytes) : Type 0 where
      pub below : (i : ℕ) → i < n → d i ≡ source i
      pub above : (i : ℕ) → n ≤ i → d i ≡ 0

    -- A piece of the source, written where it belongs.
    piece :
        (p c : ℕ) (d e : Bytes)
        → Upto p d
        → Is (overwrite p (slice source p c) d) e
        → Upto (p + c) e
    unfolding overwrite
    piece p c d e u is = record {
      below = λ i h.
          is.byte i
          ∙ ground
              (arith, length-slice source p c, nth-slice source p c (i - p), u.below i, back p i);
      above = λ i h. is.byte i ∙ ground (arith, length-slice source p c, u.above i);
    }
      where
        back : (p i : ℕ) → p ≤ i → source (p + (i - p)) ≡ source i
        back p i h = ap source (omega arith)

    branch :
        {P : Bytes → Type 0} {A : Type 0} {Q : A → Bytes → Type 0} (b : Bool)
        (m n : Action Bytes CopyError A)
        → (b ≡ true → Gives P m Q)
        → (b ≡ false → Gives P n Q)
        → Gives P (if b then m else n) Q
    branch true m n h g = h refl
    branch false m n h g = g refl

    -- What is read is a piece of the source, not longer than was asked for.
    pub record Piece (p limit : ℕ) (text : List ℕ) : Type 0 where
      pub count : ℕ
      pub is : text ≡ slice source p count
      pub within : count ≤ limit

    read_at-Gives :
        (p limit : ℕ) {P : Bytes → Type 0}
        → Gives P (read_at k source size p limit) (λ text d. Piece p limit text × P d)
    unfolding read_at received
    read_at-Gives p limit {P} = after (k.reads p)
      where
        after :
            (o : Option ℕ)
            → Gives P (give (received k source size o p limit)) (λ text d. Piece p limit text × P d)
        after none = give-Triple (err io) (λ d h. tt)
        after (some n) = give-Triple (ok (slice source p (min n (min limit (size - p))))) (λ d h.
            (record { count = min n (min limit (size - p)); is = refl; within = omega arith }, h))

    written-Piece :
        (p limit : ℕ) (text : List ℕ) (d e : Bytes) (q : Piece p limit text)
        → Upto p d
        → Is (overwrite p text d) e
        → Upto (p + length text) e
    written-Piece p limit text d e q u is =
        subst (λ x. Upto (p + length x) e) (sym q.is)
          (subst (λ c. Upto (p + c) e) (sym (length-slice source p q.count))
            (piece p q.count d e u (subst (λ x. Is (overwrite p x d) e) q.is is)))

    at_end : (p h : ℕ) → p ≤ h → ltb p h ≡ false → p ≡ h
    at_end p h le ge = ground arith

    -- No fuel is left, and none is needed where the test fails.
    give_branch :
        {P : Bytes → Type 0} {Q : Unit {0} → Bytes → Type 0} (b : Bool)
        → (b ≡ false → (d : Bytes) → P d → Q tt d)
        → Gives P (give (if b then err out_of_fuel else ok tt)) Q
    give_branch true h = give-Triple (err out_of_fuel) (λ d u. tt)
    give_branch false h = give-Triple (ok tt) (λ d u. h refl d u)

    pub copy_extent-Gives :
        (fuel p h : ℕ)
        → p ≤ h
        → Gives (Upto p) (copy_extent k source size fuel p h) (λ done. Upto h)
    unfolding copy_extent
    copy_extent-Gives zero p h le =
        give_branch (ltb p h) (λ ge d u. subst (λ n. Upto n d) (at_end p h le ge) u)
    copy_extent-Gives (suc fuel) p h le =
        branch (ltb p h) _ _
          (λ lt. >>=-Triple (read_at-Gives p (min (h - p) buffer_len)) (λ text. record {
            holds = λ d (q, u).
                (>>=-Triple
                    (>>=-Triple (kept_by k {P = Is d} (not (length text == 0)) unexpected_eof)
                      (λ done. write_all_at-Gives k (length text) text p d))
                    (λ done. record {
                      holds = λ e is.
                          (copy_extent-Gives fuel (p + length text) h (end_within q)).holds e
                            (written-Piece p (min (h - p) buffer_len) text d e q u is);
                    })).holds
                  d (record { byte = λ i. refl });
          }))
          (λ ge. give-Triple (ok tt) (λ d u. subst (λ n. Upto n d) (at_end p h le ge) u))
      where
        end_within : {text : List ℕ} → Piece p (min (h - p) buffer_len) text → p + length text ≤ h
        end_within q = omega (arith, q.within, ap length q.is, length-slice source p q.count, le)

    -- What lseek(2) documents: SEEK_DATA finds the first data at or after the offset, so there is a
    -- hole before it, and SEEK_HOLE the first hole at or after the offset, which is after the offset
    -- where SEEK_DATA found data. Beyond the end of the file nothing is stored.
    pub record Extents : Type 0 where
      pub data_at :
          (o p : ℕ)
          → k.seek_data o ≡ at p
          → (o ≤ p) × (p < size) × ((i : ℕ) → o ≤ i → i < p → source i ≡ 0)
      pub data_end : (o : ℕ) → k.seek_data o ≡ past_end → (i : ℕ) → o ≤ i → source i ≡ 0
      pub hole_after : (o p h : ℕ) → k.seek_data o ≡ at p → k.seek_hole p ≡ at h → p < h
      pub ended : (i : ℕ) → size ≤ i → source i ≡ 0

    -- The rest of the source is a hole.
    all_copied : (o : ℕ) (d : Bytes) → Upto o d → ((i : ℕ) → o ≤ i → source i ≡ 0) → Is source d
    all_copied o d u z = record { byte = λ i. ground (arith, u.below i, u.above i, z i) }

    skip_hole :
        (o p : ℕ) (d : Bytes)
        → o ≤ p
        → ((i : ℕ) → o ≤ i → i < p → source i ≡ 0)
        → Upto o d
        → Upto p d
    skip_hole o p d le z u = record {
      below = λ i h. ground (arith, u.below i, u.above i, z i);
      above = λ i h. u.above i (omega arith);
    }

    past : (o i : ℕ) → ltb o size ≡ false → o ≤ i → size ≤ i
    past o i ge h = ground arith

    module _ (x : Extents) where
      copy_loop-Gives :
          (fuel o : ℕ) → Gives (Upto o) (copy_loop k source size fuel o) (λ done. Is source)
      unfolding copy_loop from_data plain_copy plainly
      copy_loop-Gives zero o =
          give_branch (ltb o size) (λ ge d u. all_copied o d u (λ i h. x.ended i (past o i ge h)))
      copy_loop-Gives (suc fuel) o =
          branch (ltb o size) _ _
            (λ lt. from (λ hole. copy_loop-Gives fuel hole) (k.seek_data o) refl)
            (λ ge. give-Triple (ok tt) (λ d u. all_copied o d u (λ i h. x.ended i (past o i ge h))))
        where
          plain :
              (b : Bool) (d : Bytes)
              → After
                  (λ y. Unit {0})
                  (λ done. Is source)
                  (plainly k source size b d).0
                  (plainly k source size b d).1
          plain true d = record { byte = λ i. refl }
          plain false d = tt

          checked :
              {P : Bytes → Type 0} (b : Bool) (e : CopyError)
              → Gives P (give (ensure b e)) (λ done d. (b ≡ true) × P d)
          checked true e = give-Triple (ok tt) (λ d h. (refl, h))
          checked false e = give-Triple (err e) (λ d h. tt)

          after_hole :
              {p : ℕ} (v : Result CopyError ℕ) (d : Bytes)
              → Upto p d
              → After (λ y. Unit {0}) (λ hole. Upto p) v d
          after_hole (ok hole) d u = u
          after_hole (err e) d u = tt

          from :
              ((hole : ℕ)
                → Gives (Upto hole) (copy_loop k source size fuel hole) (λ done. Is source))
              → (q : Seek) → k.seek_data o ≡ q
              → Gives
                  (Upto o)
                  (from_data k source size (λ hole. copy_loop k source size fuel hole) q)
                  (λ done. Is source)
          from next past_end e = give-Triple (ok tt) (λ d u. all_copied o d u (x.data_end o e))
          from next unsupported e = record { holds = λ d u. plain k.copies d }
          from next broken e = give-Triple (err io) (λ d u. tt)
          from next (at p) e =
              let (le, lt, zeros) = x.data_at o p e in
              >>=-Triple
                (give-Triple {Q = λ hole. Upto p} (hole_of k source size (k.seek_hole p)) (λ d u.
                  after_hole (hole_of k source size (k.seek_hole p)) d
                    (skip_hole o p d le zeros u)))
                (λ hole.
                  >>=-Triple
                    (>>=-Triple (checked (leb p hole) invalid_extent) (λ done. record {
                      holds = λ d (fits, u).
                          (copy_extent-Gives (size + 1) p hole (leb→le p hole fits)).holds d u;
                    }))
                    (λ done. next hole))

      done_Is :
          (v : Result CopyError (Unit {0})) (d : Bytes)
          → After (λ y. Unit {0}) (λ done. Is source) v d
          → v ≡ ok tt
          → Is source d
      done_Is (ok u) d h e = h
      done_Is (err y) d h e = cc

      emptied : (old : Bytes) → Is (λ i. 0) old → Upto 0 (resized k source size old)
      unfolding resized
      emptied old e = record {
        below = λ i lt. elim (below_zero i lt) [ ];
        above = λ i le. ground (arith, e.byte i);
      }

      -- Where the kernel reports extents as lseek(2) documents it, the destination is empty, and
      -- whatever pieces the reads and writes move: a copy that succeeds has every byte of the source,
      -- as a plain copy has.
      pub sparse_copy-Is :
          (old : Bytes)
          → Is (λ i. 0) old
          → (sparse_copy k source size old).0 ≡ ok tt
          → Is source (sparse_copy k source size old).1
      unfolding sparse_copy
      sparse_copy-Is old e h =
          done_Is _ _
            ((copy_loop-Gives (size + 1) 0).holds (resized k source size old) (emptied old e)) h
