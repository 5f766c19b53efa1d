-- ===== src/Host/Storage/Sparse.antt =====
-- `sparse_copy` of crates/spawnr/src/storage.rs. The destination is the state: its bytes as a
-- function, with 0 where nothing is stored. The answers of the kernel are given.
use spawnr.Prelude.{
  ℕ, zero, suc, ◌+◌, ◌-◌, ◌*◌, min, Bool, true, false, Option, none, some, List, [], ◌∷◌, Result,
  ok, err, ensure, if◌then◌else◌, ltb, leb, ◌==◌, ◌&&◌, not, length, take, drop,
}
use spawnr.Prelude.Actions.{Action, ◌>>=◌, ◌>>◌, give}

-- What lseek(2) answers for SEEK_DATA or SEEK_HOLE.
pub data Seek : Type 0 where
  at : ℕ → Seek
  -- ENXIO
  past_end : Seek
  -- EINVAL or ENOTSUP
  unsupported : Seek
  broken : Seek

pub data CopyError : Type 0 where
  io : CopyError
  invalid_extent : CopyError
  unexpected_eof : CopyError
  write_zero : CopyError
  out_of_fuel : CopyError

-- The kernel's answers: the extents, and how much one call reads or writes at most, unless it fails.
pub record Kernel : Type 0 where
  pub seek_data : ℕ → Seek
  pub seek_hole : ℕ → Seek
  pub reads : ℕ → Option ℕ
  pub writes : ℕ → Option ℕ
  pub copies : Bool

abbrev pub Bytes : Type 0
Bytes = ℕ → ℕ

abbrev pub buffer_len : ℕ
buffer_len = 1024 * 1024

abbrev pub nth : List ℕ → ℕ → ℕ
nth [] i = 0
nth (x ∷ xs) zero = x
nth (x ∷ xs) (suc i) = nth xs i

-- `count` bytes from `position` on.
unfoldable pub slice : Bytes → ℕ → ℕ → List ℕ
slice source position zero = []
slice source position (suc count) = source position ∷ slice source (position + 1) count

unfoldable pub overwrite : ℕ → List ℕ → Bytes → Bytes
overwrite offset text old i =
    if leb offset i && ltb i (offset + length text) then nth text (i - offset) else old i

unfoldable pub wrote : Option ℕ → ℕ → List ℕ → Bytes → Result CopyError ℕ × Bytes
wrote none offset text old = (err io, old)
wrote (some n) offset text old =
    let count = min n (length text) in (ok count, overwrite offset (take count text) old)

module _ (k : Kernel) where
  -- pwrite(2)
  unfoldable pub write_at : List ℕ → ℕ → Action Bytes CopyError ℕ
  write_at text offset old = wrote (k.writes offset) offset text old

  -- A turn writes at least one byte: the length of the text is enough fuel.
  unfoldable pub write_all_at : ℕ → List ℕ → ℕ → Action Bytes CopyError (Unit {0})
  write_all_at fuel [] offset = give (ok tt)
  write_all_at zero (x ∷ xs) offset = give (err out_of_fuel)
  write_all_at (suc fuel) (x ∷ xs) offset = write_at (x ∷ xs) offset >>= λ written.
      give (ensure (not (written == 0)) write_zero)
      >> write_all_at fuel (drop written (x ∷ xs)) (offset + written)

  module _ (source : Bytes) (size : ℕ) where
    unfoldable pub received : Option ℕ → ℕ → ℕ → Result CopyError (List ℕ)
    received none position count = err io
    received (some n) position count =
        ok (slice source position (min n (min count (size - position))))

    -- pread(2)
    unfoldable pub read_at : ℕ → ℕ → Action Bytes CopyError (List ℕ)
    read_at position count = give (received (k.reads position) position count)

    -- The bytes from `position` to `hole`; a turn copies at least one.
    unfoldable pub copy_extent : ℕ → ℕ → ℕ → Action Bytes CopyError (Unit {0})
    copy_extent zero position hole = give (if ltb position hole then err out_of_fuel else ok tt)
    copy_extent (suc fuel) position hole =
        if ltb position hole
        then read_at position (min (hole - position) buffer_len) >>= (λ text.
          give (ensure (not (length text == 0)) unexpected_eof)
          >> write_all_at (length text) text position
          >> copy_extent fuel (position + length text) hole)
        else give (ok tt)

    unfoldable pub plainly : Bool → Action Bytes CopyError (Unit {0})
    plainly true old = (ok tt, source)
    plainly false old = (err io, old)

    -- `io::copy` from the start, into the emptied file.
    unfoldable pub plain_copy : Action Bytes CopyError (Unit {0})
    plain_copy old = plainly k.copies old

    -- Where the extent ends that begins at `data`.
    unfoldable pub hole_of : Seek → Result CopyError ℕ
    hole_of (at hole) = ok (min hole size)
    hole_of past_end = ok size
    hole_of unsupported = err io
    hole_of broken = err io

    -- One turn of the loop, and `next` from the end of the extent on.
    unfoldable pub from_data :
        (ℕ → Action Bytes CopyError (Unit {0})) → Seek → Action Bytes CopyError (Unit {0})
    from_data next past_end = give (ok tt)
    from_data next unsupported = plain_copy
    from_data next broken = give (err io)
    from_data next (at position) = give (hole_of (k.seek_hole position)) >>= λ hole.
        give (ensure (leb position hole) invalid_extent)
        >> copy_extent (size + 1) position hole
        >> next hole

    unfoldable pub copy_loop : ℕ → ℕ → Action Bytes CopyError (Unit {0})
    copy_loop zero offset = give (if ltb offset size then err out_of_fuel else ok tt)
    copy_loop (suc fuel) offset =
        if ltb offset size
        then from_data (λ hole. copy_loop fuel hole) (k.seek_data offset)
        else give (ok tt)

    -- `set_len(length)`
    unfoldable pub resized : Bytes → Bytes
    resized old i = if ltb i size then old i else 0

    -- The destination gets the size of the source before the loop.
    unfoldable pub sparse_copy : Action Bytes CopyError (Unit {0})
    sparse_copy old = copy_loop (size + 1) 0 (resized old)
