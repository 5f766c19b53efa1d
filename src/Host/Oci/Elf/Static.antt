-- ===== src/Host/Oci/Elf/Static.antt =====
-- What an executable is that `validate_static_x86_64_elf` accepts.
use spawnr.Prelude.{
  not-eq_true, arith, ℕ, zero, suc, ◌+◌, ◌*◌, ◌^◌, ◌≤◌, ◌<◌, ◌≡◌, Bool, true, false, not, ◌&&◌,
  ◌||◌, some, List, [], ◌∷◌, leb, ◌==◌, length, take, drop, ok, ensure, context, >>=-eq-ok,
  ensure-eq-ok, context-eq_ok, ok-injective, Bool-cases, ==_iff, ap, ◌∙◌, ◌⊎◌, inl, inr,
}
use mathlib.Core.Path.{subst}
use native.Mathlib.Nat.{mul-le-mul_right}
use spawnr.Host.Oci.Elf.{
  read_exact_at, from_le_bytes, field, same_bytes, saturating, is_load, header_offset,
  program_headers, validate_static_x86_64_elf, short, missing_header, not_64_bit, not_x86_64,
  invalid_headers, headers_exceed, has_interpreter,
}

-- The kind of program header `j`.
pub record HasKind (file : List ℕ) (offset kind : ℕ) : Type 0 where
  pub within : offset + 4 ≤ length file
  pub kind_eq : from_le_bytes (take 4 (drop offset file)) ≡ kind

read_within :
    (file : List ℕ) (offset : ℕ) (bs : List ℕ)
    → read_exact_at file offset 4 ≡ some bs
    → offset + 4 ≤ length file
unfolding read_exact_at
read_within file offset bs h = ground arith

read_bytes :
    (file : List ℕ) (offset : ℕ) (bs : List ℕ)
    → read_exact_at file offset 4 ≡ some bs
    → take 4 (drop offset file) ≡ bs
unfolding read_exact_at
read_bytes file offset bs h = ground arith

none_between : (index j : ℕ) → index ≤ j → j < index + 0 → ⊥
none_between index j l u = omega arith

next_le : (index j : ℕ) → index ≤ j → (index == j) ≡ false → index + 1 ≤ j
next_le index j l e = ground arith

next_lt : (index count j : ℕ) → j < index + suc count → j < (index + 1) + count
next_lt index count j u = omega arith

pub read-HasKind :
    (file : List ℕ) (offset : ℕ) (bs : List ℕ)
    → read_exact_at file offset 4 ≡ some bs
    → HasKind file offset (from_le_bytes bs)
unfolding read_exact_at
read-HasKind file offset bs h = record {
  within = read_within file offset bs h;
  kind_eq = ap from_le_bytes (read_bytes file offset bs h);
}

-- Header `j` is not an interpreter.
pub record Plain (file : List ℕ) (offset : ℕ) : Type 0 where
  pub kind : ℕ
  pub has_kind : HasKind file offset kind
  pub no_interpreter : (kind == 3) ≡ false

later_lt : (index count j : ℕ) → j < (index + 1) + count → j < index + suc count
later_lt index count j u = omega arith

here_lt : (index count : ℕ) → index < index + suc count
here_lt index count = omega arith

from_zero : (j count : ℕ) → j < count → j < 0 + count
from_zero j count u = omega arith

to_zero : (j count : ℕ) → j < 0 + count → j < count
to_zero j count u = omega arith

or_second : (a b : Bool) → a ≡ false → (a || b) ≡ true → b ≡ true
or_second a b x y = cc

module _ (file : List ℕ) (program_offset entry_size : ℕ) where
  loop-Plain :
      (index count : ℕ) (found last : Bool)
      → program_headers file program_offset entry_size index count found ≡ ok last
      → (j : ℕ) → index ≤ j
      → j < index + count
      → Plain file (header_offset program_offset entry_size j)
  unfolding program_headers
  loop-Plain index zero found last h j l u = elim (none_between index j l u) [ ]
  loop-Plain index (suc count) found last h j l u =
      let (bs, read, h1) =
        >>=-eq-ok
          (context (read_exact_at file (header_offset program_offset entry_size index) 4) short) _
          h in
      let (_, three, h2) = >>=-eq-ok (ensure (not (from_le_bytes bs == 3)) has_interpreter) _ h1 in
      elim (Bool-cases (index == j)) [
        | inl e ↦
            subst (λ i. Plain file (header_offset program_offset entry_size i))
              ((==_iff index j).0 e)
              (record {
                kind = from_le_bytes bs;
                has_kind = read-HasKind file _ bs (context-eq_ok _ _ read);
                no_interpreter = not-eq_true _ (ensure-eq-ok _ _ three);
              })
        | inr e ↦
            loop-Plain (index + 1) count _ last h2 j (next_le index j l e) (next_lt index count j u)
      ]

  -- The header that the loop has read, or a later one.
  load_step :
      (index count : ℕ) (found : Bool) (bs : List ℕ)
      → HasKind file (header_offset program_offset entry_size index) (from_le_bytes bs)
      → ((is_load (from_le_bytes bs) || found) ≡ true)
        ⊎ ((j : ℕ) × (j < (index + 1) + count)
            × HasKind file (header_offset program_offset entry_size j) 1)
      → (found ≡ true)
        ⊎ ((j : ℕ) × (j < index + suc count)
            × HasKind file (header_offset program_offset entry_size j) 1)
  load_step index count found bs k (inr (j, l, kind)) = inr (j, later_lt index count j l, kind)
  load_step index count found bs k (inl e) = elim (Bool-cases (from_le_bytes bs == 1)) [
    | inl one ↦ inr (
      index,
      here_lt index count,
      subst (λ n. HasKind file (header_offset program_offset entry_size index) n)
          ((==_iff (from_le_bytes bs) 1).0 one) k,
    )
    | inr other ↦ inl (or_second (from_le_bytes bs == 1) found other e)
  ]

  loop_load :
      (index count : ℕ) (found : Bool)
      → program_headers file program_offset entry_size index count found ≡ ok true
      → (found ≡ true)
        ⊎ ((j : ℕ) × (j < index + count)
            × HasKind file (header_offset program_offset entry_size j) 1)
  unfolding program_headers
  loop_load index zero found h = inl (ok-injective h)
  loop_load index (suc count) found h =
      let (bs, read, h1) =
        >>=-eq-ok
          (context (read_exact_at file (header_offset program_offset entry_size index) 4) short) _
          h in
      let (_, _, h2) = >>=-eq-ok (ensure (not (from_le_bytes bs == 3)) has_interpreter) _ h1 in
      load_step index count found bs (read-HasKind file _ bs (context-eq_ok _ _ read))
        (loop_load (index + 1) count _ h2)

-- What a static executable is: its `count` program headers, each of `size` bytes from `offset` on, lie
-- in the file; none is an interpreter, and one is loadable.
pub record IsStatic (file : List ℕ) (offset size count : ℕ) : Type 0 where
  pub fits : offset + size * count ≤ length file
  pub plain : (j : ℕ) → j < count → Plain file (offset + j * size)
  pub load : (j : ℕ) × (j < count) × HasKind file (offset + j * size) 1

header_offset_exact :
    (file : List ℕ) (offset size count j : ℕ)
    → length file < 2 ^ 63
    → offset + size * count ≤ length file
    → j < count
    → header_offset offset size j ≡ offset + j * size
unfolding header_offset
header_offset_exact file offset size count j l f u = ground (arith, mul-le-mul_right size u)

no_saturation : (a p l : ℕ) → l < 2 ^ 63 → leb (saturating (a + saturating p)) l ≡ true → a + p ≤ l
no_saturation a p l s h = ground arith

and_both : (a b : Bool) → a ≡ true → b ≡ true → (a && b) ≡ true
and_both a b x y = cc

headers-IsStatic :
    (file : List ℕ) (offset size count : ℕ)
    → length file < 2 ^ 63
    → offset + size * count ≤ length file
    → program_headers file offset size 0 count false ≡ ok true
    → IsStatic file offset size count
headers-IsStatic file offset size count small fit h = record {
  fits = fit;
  plain = λ j u.
      subst (λ n. Plain file n) (header_offset_exact file offset size count j small fit u)
        (loop-Plain file offset size 0 count false true h j (omega arith) (from_zero j count u));
  load = elim (loop_load file offset size 0 count false h) [
    | inl e ↦ absurd (cc)
    | inr (j, u, kind) ↦ (
      j,
      to_zero j count u,
      subst (λ n. HasKind file n 1)
          (header_offset_exact file offset size count j small fit (to_zero j count u)) kind,
    )
  ];
}

-- The executable that is accepted is 64-bit little-endian x86-64, and its program headers are read in
-- the file, with no offset that wraps around: none is an interpreter and one is loadable. For a file
-- of fewer than 2^63 bytes.
pub validate_static_x86_64_elf-IsStatic :
    (file : List ℕ)
    → length file < 2 ^ 63
    → validate_static_x86_64_elf file ≡ ok tt
    → (header : List ℕ) × (read_exact_at file 0 64 ≡ some header)
      × ((field header 4 5 == 2 && field header 5 6 == 1 && field header 18 20 == 62) ≡ true)
      × IsStatic file (field header 32 40) (field header 54 56) (field header 56 58)
unfolding validate_static_x86_64_elf
validate_static_x86_64_elf-IsStatic file small h =
    let (header, read, h1) = >>=-eq-ok (context (read_exact_at file 0 64) short) _ h in
    let (_, _, h2) =
      >>=-eq-ok
        (ensure (same_bytes (take 4 header) (0x7f ∷ b'E' ∷ b'L' ∷ b'F' ∷ [])) missing_header) _
        h1 in
    let (_, bits, h3) =
      >>=-eq-ok (ensure (field header 4 5 == 2 && field header 5 6 == 1) not_64_bit) _ h2 in
    let (_, arch, h4) = >>=-eq-ok (ensure (field header 18 20 == 62) not_x86_64) _ h3 in
    let (_, _, h5) =
      >>=-eq-ok
        (ensure (leb 56 (field header 54 56) && leb (field header 56 58) 256) invalid_headers) _
        h4 in
    let (_, fits, h6) =
      >>=-eq-ok
        (ensure
          (leb
            (saturating (field header 32 40 + saturating (field header 54 56 * field header 56 58)))
            (length file))
          headers_exceed)
        _ h5 in
    let (found, loop, load) =
      >>=-eq-ok
        (program_headers file (field header 32 40) (field header 54 56) 0 (field header 56 58)
          false)
        _ h6 in
    let fit =
      no_saturation (field header 32 40) (field header 54 56 * field header 56 58) (length file)
        small (ensure-eq-ok _ _ fits) in
    (
      header,
      context-eq_ok _ _ read,
      and_both _ _ (ensure-eq-ok _ _ bits) (ensure-eq-ok _ _ arch),
      headers-IsStatic file (field header 32 40) (field header 54 56) (field header 56 58) small fit
          (loop ∙ ap ok (ensure-eq-ok _ _ load)),
    )
