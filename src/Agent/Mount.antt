-- ===== src/Agent/Mount.antt =====
-- crates/spawnr-agent/src/mount.rs: the table of mounts, in which the kernel escapes bytes of a path as
-- three octal digits, and the checks of what is mounted.
pub mod Escapes
use spawnr.Prelude.{
  ℕ, zero, suc, ◌+◌, ◌-◌, ◌*◌, Bool, true, false, not, ◌&&◌, ◌||◌, Option, none, some, List, [],
  ◌∷◌, ◌++◌, ltb, leb, ◌==◌, if◌then◌else◌, get_elem?, all, any, Result, ok, err, ◌>>=◌, ◌>>◌,
  ensure, context,
}
use spawnr.Prelude.Text.{
  contains_text, Str, codes, bytes, len, starts_with, strip_prefix, split_once, str_eq,
  is_ascii_alphanumeric,
}
use spawnr.Prelude.Utf8.{from_utf8}

pub data Error : Type 0 where
  io : ℕ → Error
  truncated_escape invalid_escape too_large not_utf8 : Error
  -- `&input[index + 1..index + 4]` where a character straddles the end: a panic.
  not_boundary : Error
  malformed_line no_target no_options no_type no_source : Error
  not_mounted disappeared not_tmpfs not_writable no_nosuid no_nodev : Error

abbrev pub is_octal : ℕ → Bool
is_octal b = leb b'0' b && leb b b'7'

abbrev pub is_boundary : Option ℕ → Bool
is_boundary none = true
is_boundary (some b) = ltb b 128 || leb 192 b

-- `u8::from_str_radix(octal, 8)`, of octal digits.
abbrev pub octal_value : ℕ → ℕ → ℕ → Result Error ℕ
octal_value a b c =
    if leb ((a - 48) * 64 + (b - 48) * 8 + (c - 48)) 255
    then ok ((a - 48) * 64 + (b - 48) * 8 + (c - 48))
    else err too_large

-- What follows a backslash.
unfoldable pub escape_value : List ℕ → Result Error ℕ
escape_value (a ∷ b ∷ c ∷ rest) = do
  ensure (is_boundary (get_elem? rest 0)) not_boundary
  ensure (is_octal a && is_octal b && is_octal c) invalid_escape
  octal_value a b c
escape_value _ = err truncated_escape

-- The loop, with the number of bytes of an escape that are still to be passed over.
unfoldable pub unescape_loop : ℕ → List ℕ → Result Error (List ℕ)
unescape_loop skip [] = ok []
unescape_loop (suc skip) (b ∷ bs) = unescape_loop skip bs
unescape_loop zero (b ∷ bs) = elim (b == 92) [
  | true ↦ escape_value bs >>= λ value. unescape_loop 3 bs >>= λ output. ok (value ∷ output)
  | false ↦ unescape_loop 0 bs >>= λ output. ok (b ∷ output)
]

-- `unescape_mountinfo` of the bytes of a text.
unfoldable pub unescape_mountinfo : List ℕ → Result Error Str
unescape_mountinfo input = do output ← unescape_loop 0 input; context (from_utf8 output) not_utf8

unfoldable pub safe_block_device : Str → Bool
safe_block_device path =
    starts_with (codes "/dev/") path
    && leb (len path) 64
    && not (any (λ c. c == 10 || c == 13 || c == 0) path)
    && all (λ b. is_ascii_alphanumeric b || b == b'/' || b == b'-' || b == b'_' || b == b'.')
        (bytes path)

abbrev pub is_ascii_whitespace : ℕ → Bool
is_ascii_whitespace c = c == 32 || c == 9 || c == 10 || c == 12 || c == 13

unfoldable pub take_field : Str → Str
take_field [] = []
take_field (c ∷ s) = let rest = take_field s in if is_ascii_whitespace c then [] else c ∷ rest

-- Whether the text before was a space.
unfoldable pub fields_from : Bool → Str → List Str
fields_from fresh [] = []
fields_from fresh (c ∷ s) =
    let more = fields_from false s in
    let next = fields_from true s in
    if is_ascii_whitespace c then next else if fresh then (c ∷ take_field s) ∷ more else more

abbrev pub split_ascii_whitespace : Str → List Str
split_ascii_whitespace s = fields_from true s

-- `split_once(" - ")`
unfoldable pub split_dash : Str → Option (Str × Str)
split_dash [] = none
split_dash (c ∷ s) =
    let rest = split_dash s in
    elim (strip_prefix (codes " - ") (c ∷ s)) [
      | some right ↦ some ([], right)
      | none ↦ elim rest [ none ↦ none | some (left, right) ↦ some (c ∷ left, right) ]
    ]

pub record MountEntry : Type 0 where
  pub source : Str
  pub fs_type : Str
  pub options : Str

-- The target of a line, and its entry with the source still escaped.
unfoldable pub parse_line : Str → Result Error (Str × MountEntry)
parse_line line = do
  (left, right) ← context (split_dash line) malformed_line
  target ← context (get_elem? (split_ascii_whitespace left) 4) no_target
  options ← context (get_elem? (split_ascii_whitespace left) 5) no_options
  fs_type ← context (get_elem? (split_ascii_whitespace right) 0) no_type
  source ← context (get_elem? (split_ascii_whitespace right) 1) no_source
  target' ← unescape_mountinfo (bytes target)
  ok (target', record { source = source; fs_type = fs_type; options = options })

unfoldable pub opened : MountEntry → Result Error (Option MountEntry)
opened entry = do
  source ← unescape_mountinfo (bytes entry.source)
  ok (some (record { source = source; fs_type = entry.fs_type; options = entry.options }))

-- The first line for the path; `same_path` is the equality of paths.
unfoldable pub find_line : (Str → Str → Bool) → Str → List Str → Result Error (Option MountEntry)
find_line same_path path [] = ok none
find_line same_path path (line ∷ lines) = do
  (target, entry) ← parse_line line
  elim (same_path target path) [ true ↦ opened entry | false ↦ find_line same_path path lines ]

-- `mount_entry` of a path that was canonicalized, in a table that was read.
unfoldable pub mount_entry :
    (Str → Str → Bool)
    → Result Error Str
    → Result Error (List Str)
    → Result Error (Option MountEntry)
mount_entry same_path path table = do
  canonical ← path
  lines ← table
  find_line same_path canonical lines

abbrev pub is_mounted : Option MountEntry → Bool
is_mounted none = false
is_mounted (some entry) = true

abbrev pub between_commas : Str → Str
between_commas options = b',' ∷ (options ++ (b',' ∷ []))

-- The table is read twice.
unfoldable pub assert_session_is_tmpfs :
    (Str → Str → Bool)
    → Result Error Str
    → Result Error (List Str)
    → Result Error (List Str)
    → Result Error (Unit {0})
assert_session_is_tmpfs same_path path table later = do
  mounted ← mount_entry same_path path table
  ensure (is_mounted mounted) not_mounted
  found ← mount_entry same_path path later
  entry ← context found disappeared
  ensure (str_eq entry.fs_type (codes "tmpfs")) not_tmpfs
  ensure (contains_text (codes ",rw,") (between_commas entry.options)) not_writable
  ensure (contains_text (codes ",nosuid,") (between_commas entry.options)) no_nosuid
  ensure (contains_text (codes ",nodev,") (between_commas entry.options)) no_nodev
