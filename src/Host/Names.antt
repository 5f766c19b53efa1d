-- ===== src/Host/Names.antt =====
-- crates/spawnr/src/machine.rs: the checks of machine names, repositories and image references,
-- and the names that `clone` allocates. `char::to_lowercase` of the standard library's Unicode
-- tables is the parameter `lowercase`.
pub mod Valid
pub mod Rounds
pub mod Slug
use mathlib.Core.Option
use spawnr.Prelude.{
  ℕ, zero, suc, ◌+◌, ◌-◌, ◌*◌, ◌/◌, ◌%◌, Bool, true, false, not, ◌&&◌, ◌||◌, Option, none, some,
  List, [], ◌∷◌, ◌++◌, min, leb, ltb, ◌==◌, if◌then◌else◌, length, take, all, any, Result, ok, err,
  ◌>>=◌, ◌>>◌, ensure,
}
use spawnr.Prelude.Text.{
  Str, codes, bytes, utf8, len, contains, is_empty, trim_end, str_eq, starts_with,
  is_ascii_lowercase, is_ascii_digit, is_ascii_alphanumeric, is_whitespace,
}

pub data Error : Type 0 where
  name_length invalid_name invalid_repository invalid_reference no_directory : Error
  name_taken : Str → Error
  -- The model's own: the loop of `allocate_clone_names` ran out of rounds.
  out_of_fuel : Error

abbrev pub is_name_byte : ℕ → Bool
is_name_byte b = is_ascii_lowercase b || is_ascii_digit b || b == b'-'

abbrev pub is_name_end : ℕ → Bool
is_name_end b = is_ascii_lowercase b || is_ascii_digit b

-- `bytes[0]` and `bytes[bytes.len() - 1]`, of bytes that are not empty.
abbrev pub first_byte : List ℕ → ℕ
first_byte [] = 0
first_byte (b ∷ _) = b

abbrev pub last_byte : List ℕ → ℕ
last_byte [] = 0
last_byte (b ∷ []) = b
last_byte (b ∷ c ∷ rest) = last_byte (c ∷ rest)

unfoldable pub validate_name : Str → Result Error (Unit {0})
validate_name name = do
  ensure (not (is_empty name || ltb 63 (len name))) name_length
  let b = bytes name
  ensure
      (not (
        not (is_name_end (first_byte b))
        || not (is_name_end (last_byte b))
        || not (all is_name_byte b)))
      invalid_name

unfoldable pub validate_environment_reference : Str → Result Error (Unit {0})
validate_environment_reference reference =
    ensure
      (not (
        is_empty reference
        || starts_with (codes "-") reference
        || any is_whitespace reference
        || contains 0 reference))
      invalid_reference

-- What follows the last '/' or ':'.
abbrev is_separator : ℕ → Bool
is_separator c = c == b'/' || c == b':'

unfoldable pub after_last : Str → Str
after_last [] = []
after_last (c ∷ s) =
    let rest = after_last s in
    if any is_separator s then rest else if is_separator c then s else c ∷ s

-- `str::strip_suffix`
unfoldable pub strip_suffix : Str → Str → Option Str
strip_suffix suffix [] = if is_empty suffix then some [] else none
strip_suffix suffix (c ∷ s) =
    let rest = strip_suffix suffix s in
    if str_eq (c ∷ s) suffix then some [] else Option.map (λ t. c ∷ t) rest

-- The loop of `slug`: the output so far, and whether a separator is due.
unfoldable pub slug_loop : Str → Bool → List ℕ → Str
slug_loop output separator [] = output
slug_loop output separator (c ∷ rest) =
    slug_loop
      (if is_ascii_alphanumeric c
        then (if separator && not (is_empty output)
            then output ++ (b'-' ∷ c ∷ [])
            else output ++ (c ∷ []))
        else output)
      (not (is_ascii_alphanumeric c)) rest

-- `value.to_string()` of a `u32`: the digits of a number, at most as many as the fuel.
unfoldable pub decimal_from : ℕ → ℕ → Str → Str
decimal_from zero n acc = acc
decimal_from (suc fuel) n acc =
    let acc' = (b'0' + n % 10) ∷ acc in
    elim (ltb n 10) [ true ↦ acc' | false ↦ decimal_from fuel (n / 10) acc' ]

unfoldable pub to_string : ℕ → Str
unfolding decimal_from
to_string n = decimal_from (suc n) n []

-- `base.get(..n)`: none inside of a character.
unfoldable pub get_prefix : ℕ → Str → Option Str
get_prefix zero s = some []
get_prefix (suc n) [] = none
get_prefix (suc n) (c ∷ s) =
    let width = length (utf8 c) in
    let rest = get_prefix (suc n - width) s in
    if leb width (suc n) then Option.map (λ t. c ∷ t) rest else none

abbrev pub or_base : Str → Option Str → Str
or_base base none = base
or_base base (some s) = s

-- The candidate of one round.
unfoldable pub candidate : Str → ℕ → Str
unfolding to_string get_prefix
candidate base suffix =
    let maximum_base = 63 - (len (to_string suffix) + 1) in
    let truncated = or_base base (get_prefix (min (len base) maximum_base) base) in
    trim_end b'-' truncated ++ (b'-' ∷ to_string suffix)

abbrev pub occupies : List Str → Str → Bool
occupies names name = any (λ n. str_eq n name) names

-- The loop `while names.len() < count`, on fuel. `u32` is left unbounded: the suffix stays at most
-- one above the number of rounds.
unfoldable pub allocate_loop : ℕ → Str → ℕ → ℕ → List Str → Result Error (List Str)
unfolding candidate
allocate_loop fuel base zero suffix occupied = ok []
allocate_loop zero base (suc missing) suffix occupied = err out_of_fuel
allocate_loop (suc fuel) base (suc missing) suffix occupied =
    let name = candidate base suffix in
    elim (occupies occupied name) [
      | true ↦ allocate_loop fuel base (suc missing) (suffix + 1) occupied
      | false ↦ do
        validate_name name
        names ← allocate_loop fuel base missing (suffix + 1) (name ∷ occupied)
        ok (name ∷ names)
    ]

module _ (lowercase : ℕ → List ℕ) where
  -- `value.chars().flat_map(char::to_lowercase)`
  abbrev pub lower : Str → List ℕ
  lower [] = []
  lower (c ∷ s) = lowercase c ++ lower s

  unfoldable pub slug : Str → Str
  unfolding slug_loop
  slug value = trim_end b'-' (take 50 (slug_loop [] false (lower value)))

  unfoldable pub repository_directory : Str → Result Error Str
  unfolding slug after_last strip_suffix
  repository_directory repository =
      let last = after_last (trim_end b'/' repository) in
      let result = slug (or_base last (strip_suffix (codes ".git") last)) in
      if is_empty result then err no_directory else ok result

  unfoldable pub validate_repository : Str → Result Error (Unit {0})
  unfolding repository_directory
  validate_repository repository = do
    ensure
        (not (
          is_empty repository
          || contains 10 repository
          || contains 13 repository
          || contains 0 repository))
        invalid_repository
    _ ← repository_directory repository
    ok tt

  -- Without a name the base is the repository's directory, whose failure comes first in any case:
  -- `unwrap_or` computes its argument.
  unfoldable pub allocate_clone_names : Option Str → Str → ℕ → List Str → Result Error (List Str)
  unfolding allocate_loop
  allocate_clone_names requested repository count existing =
      let loop = λ (base : Str). allocate_loop (length existing + count) base count 1 existing in
      let derived = λ (name : Str). repository_directory repository >>= λ _. loop name in
      elim requested [
        | none ↦ repository_directory repository >>= loop
        | some name ↦
            if count == 1
            then (if occupies existing name then err (name_taken name) else ok (name ∷ []))
            else derived name
      ]
