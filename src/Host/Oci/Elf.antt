-- ===== src/Host/Oci/Elf.antt =====
-- `validate_static_x86_64_elf` of the bytes of a file: its program headers are read where they lie.
pub mod Static
use spawnr.Prelude.{
  arith, ℕ, zero, suc, ◌+◌, ◌-◌, ◌*◌, ◌%◌, ◌^◌, ◌≤◌, ◌<◌, ◌≡◌, Bool, true, false, not, ◌&&◌, ◌||◌,
  Option, none, some, List, [], ◌∷◌, leb, ◌==◌, if◌then◌else◌, length, take, drop, min, Result, ok,
  ◌>>=◌, ◌>>◌, ensure, context, >>=-eq-ok, ensure-eq-ok, context-eq_ok, ok-injective, Bool-cases,
  ==_iff, ap, ◌∙◌, ◌⊎◌, inl, inr,
}
use mathlib.Core.Path.{subst}
use native.Mathlib.Nat.{mul-le-mul_right}

pub data ElfError : Type 0 where
  short missing_header not_64_bit not_x86_64 invalid_headers headers_exceed has_interpreter
        no_load :
      ElfError

-- `read_exact` of `n` bytes at an offset.
unfoldable pub read_exact_at : List ℕ → ℕ → ℕ → Option (List ℕ)
read_exact_at file offset n =
    if leb (offset + n) (length file) then some (take n (drop offset file)) else none

-- `from_le_bytes`
abbrev pub from_le_bytes : List ℕ → ℕ
from_le_bytes [] = 0
from_le_bytes (b ∷ bs) = b + 256 * from_le_bytes bs

abbrev pub field : List ℕ → ℕ → ℕ → ℕ
field header start end = from_le_bytes (take (end - start) (drop start header))

abbrev pub same_bytes : List ℕ → List ℕ → Bool
same_bytes [] [] = true
same_bytes [] (c ∷ cs) = false
same_bytes (b ∷ bs) [] = false
same_bytes (b ∷ bs) (c ∷ cs) = b == c && same_bytes bs cs

abbrev pub saturating : ℕ → ℕ
saturating n = min n (2 ^ 64 - 1)

abbrev pub is_load : ℕ → Bool
is_load kind = kind == 1

-- `program_offset + index * entry_size`, which wraps at 64 bits.
unfoldable pub header_offset : ℕ → ℕ → ℕ → ℕ
header_offset program_offset entry_size index =
    (program_offset + (index * entry_size) % 2 ^ 64) % 2 ^ 64

-- The loop from header `index`, of which `count` are left; the offsets wrap at 64 bits.
unfoldable pub program_headers : List ℕ → ℕ → ℕ → ℕ → ℕ → Bool → Result ElfError Bool
program_headers file program_offset entry_size index zero found = ok found
program_headers file program_offset entry_size index (suc count) found = do
  kind ← context (read_exact_at file (header_offset program_offset entry_size index) 4) short
  ensure (not (from_le_bytes kind == 3)) has_interpreter
  program_headers file program_offset entry_size (index + 1) count
      (is_load (from_le_bytes kind) || found)

unfoldable pub validate_static_x86_64_elf : List ℕ → Result ElfError (Unit {0})
validate_static_x86_64_elf file = do
  header ← context (read_exact_at file 0 64) short
  ensure (same_bytes (take 4 header) (0x7f ∷ b'E' ∷ b'L' ∷ b'F' ∷ [])) missing_header
  ensure (field header 4 5 == 2 && field header 5 6 == 1) not_64_bit
  ensure (field header 18 20 == 62) not_x86_64
  ensure (leb 56 (field header 54 56) && leb (field header 56 58) 256) invalid_headers
  ensure
      (leb (saturating (field header 32 40 + saturating (field header 54 56 * field header 56 58)))
        (length file))
      headers_exceed
  found ←
      program_headers file (field header 32 40) (field header 54 56) 0 (field header 56 58) false
  ensure found no_load
