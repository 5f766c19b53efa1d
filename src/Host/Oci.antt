-- ===== src/Host/Oci.antt =====
-- crates/spawnr/src/oci.rs: references and digests of images, the metadata of a cached image with its
-- environment, and the check that an executable is static.
pub mod Environment
pub mod References
pub mod Elf
use spawnr.Prelude.{
  ℕ, ◌+◌, ◌*◌, ◌^◌, ◌-◌, Bool, true, false, not, ◌&&◌, ◌||◌, Option, none, some, List, [], ◌∷◌,
  ◌++◌, min, ltb, leb, ◌==◌, if◌then◌else◌, length, all, any, Result, ok, err, ◌>>=◌, ◌>>◌, ensure,
  context,
}
use spawnr.Prelude.Text.{
  contains_text, Str, codes, bytes, len, contains, is_empty, is_whitespace, is_ascii_hexdigit,
  split, split_once, starts_with, strip_prefix, str_eq,
}
use spawnr.Host.State.{EnvironmentRecord, MachineRecord}

abbrev pub max_guest_environment_items : ℕ
max_guest_environment_items = 512

abbrev pub max_guest_environment_bytes : ℕ
max_guest_environment_bytes = 1024 * 1024

abbrev pub max_guest_environment_json_bytes : ℕ
max_guest_environment_json_bytes = 8 * 1024 * 1024

pub data Error : Type 0 where
  io : ℕ → Error
  too_many size_overflow too_large : Error
  no_separator invalid_name value_nul : ℕ → Error
  invalid_digest not_sha256 invalid_reference unsupported_transport : Error
  unsupported_platform no_environment not_regular not_json wrong_identity digest_mismatch : Error

-- `usize::checked_add`
abbrev pub checked_add : ℕ → ℕ → Option ℕ
checked_add a b = if ltb (a + b) (2 ^ 64) then some (a + b) else none

-- `checked_add(len).and_then(|bytes| bytes.checked_add(1))`
unfoldable pub add_entry : ℕ → ℕ → Option ℕ
add_entry total n = elim (checked_add total n) [ none ↦ none | some bytes ↦ checked_add bytes 1 ]

-- The checks of one entry of the environment.
unfoldable pub check_entry : ℕ → Str → Result Error (Unit {0})
check_entry index entry = do
  (name, value) ← context (split_once b'=' entry) (no_separator index)
  ensure (not (is_empty name) && not (contains 0 name)) (invalid_name index)
  ensure (not (contains 0 value)) (value_nul index)

unfoldable pub validate_loop : ℕ → ℕ → List Str → Result Error (Unit {0})
validate_loop index total [] = ok tt
validate_loop index total (entry ∷ entries) = do
  total' ← context (add_entry total (len entry)) size_overflow
  ensure (leb total' max_guest_environment_bytes) too_large
  check_entry index entry
  validate_loop (index + 1) total' entries

unfoldable pub validate_image_environment : List Str → Result Error (Unit {0})
validate_image_environment environment = do
  ensure (leb (length environment) max_guest_environment_items) too_many
  validate_loop 0 0 environment

abbrev pub is_hex_digest : Str → Bool
is_hex_digest value = len value == 64 && all is_ascii_hexdigit (bytes value)

unfoldable pub ensure_hex_digest : Str → Result Error (Unit {0})
ensure_hex_digest value = ensure (is_hex_digest value) invalid_digest

unfoldable pub ensure_manifest_digest : Str → Result Error (Unit {0})
ensure_manifest_digest value = do
  hexadecimal ← context (strip_prefix (codes "sha256:") value) not_sha256
  ensure_hex_digest hexadecimal

abbrev pub forbidden_local_transports : List Str
forbidden_local_transports =
    codes "docker-daemon:"
    ∷ codes "containers-storage:"
    ∷ codes "dir:"
    ∷ codes "tarball:"
    ∷ codes "ostree:"
    ∷ []

abbrev pub plain_reference : Str → Bool
plain_reference reference =
    not (is_empty reference)
    && not (starts_with (b'-' ∷ []) reference)
    && not (any (λ c. c == 10 || c == 13 || c == 0) reference)
    && not (any is_whitespace reference)

unfoldable pub normalize_reference : Str → Result Error Str
normalize_reference reference = do
  ensure (plain_reference reference) invalid_reference
  ensure (not (any (λ t. starts_with t reference) forbidden_local_transports)) unsupported_transport
  if starts_with (codes "docker://") reference || starts_with (codes "oci:") reference
      then ok reference
      else (ensure (not (contains_text (codes "://") reference)) unsupported_transport
          >> ok (codes "docker://" ++ reference))

unfoldable pub normalize_source_reference : Str → Result Error Str
normalize_source_reference reference = normalize_reference (
    if str_eq reference (codes "ubuntu") then codes "docker.io/library/ubuntu:24.04" else reference)

-- `name.split('@').next()`
abbrev pub before : ℕ → Str → Str
before c [] = []
before c (d ∷ s) = let rest = before c s in if d == c then [] else d ∷ rest

-- The text before the last colon that no slash follows: `rfind(':')`, `rfind('/')` and `truncate`.
unfoldable pub without_tag : Str → Str
without_tag [] = []
without_tag (c ∷ s) =
    let rest = without_tag s in
    if c == b':' && not (contains b'/' s) && not (contains b':' s) then [] else c ∷ rest

abbrev pub pinned : Str → Str → Option Str → Result Error Str
pinned reference digest none = ok reference
pinned reference digest (some name) = do
  ensure (not (is_empty (without_tag (before b'@' name)))) invalid_reference
  ok (codes "docker://" ++ (without_tag (before b'@' name) ++ (b'@' ∷ digest)))

abbrev pub is_manifest_digest : Option Str → Bool
is_manifest_digest none = false
is_manifest_digest (some hex) = is_hex_digest hex

unfoldable pub immutable_pull_reference : Str → Str → Result Error Str
immutable_pull_reference reference digest = do
  ensure (is_manifest_digest (strip_prefix (codes "sha256:") digest)) invalid_digest
  pinned reference digest (strip_prefix (codes "docker://") reference)

pub record PreparedMetadata : Type 0 where
  pub source_reference : Str
  pub source_digest : Str
  pub cache_key : Str
  pub architecture : Str
  pub os : Str
  pub config_env : Option (List Str)

-- A metadata file as it is opened, with the length of what is read and what `serde_json` decodes.
pub record MetadataFile : Type 0 where
  pub is_file : Bool
  pub size : ℕ
  pub encoded : ℕ
  pub content : Result Error PreparedMetadata

abbrev pub validate_config_env : Bool → Option (List Str) → Result Error (Unit {0})
validate_config_env required (some environment) = validate_image_environment environment
validate_config_env true none = err no_environment
validate_config_env false none = ok tt

unfoldable pub validate_prepared_metadata : PreparedMetadata → Bool → Result Error (Unit {0})
validate_prepared_metadata m required = do
  _ ← normalize_source_reference m.source_reference
  ensure_manifest_digest m.source_digest
  ensure_hex_digest m.cache_key
  ensure (str_eq m.architecture (codes "amd64") && str_eq m.os (codes "linux")) unsupported_platform
  validate_config_env required m.config_env

unfoldable pub read_prepared_metadata : Result Error MetadataFile → Result Error PreparedMetadata
read_prepared_metadata opened = do
  f ← opened
  ensure f.is_file not_regular
  ensure (leb f.size max_guest_environment_json_bytes) too_large
  ensure
      (leb (min f.encoded (max_guest_environment_json_bytes + 1)) max_guest_environment_json_bytes)
      too_large
  f.content

abbrev pub check_manifest : Option Str → PreparedMetadata → Result Error (Unit {0})
check_manifest none m = ok tt
check_manifest (some expected) m = ensure (str_eq expected m.source_digest) digest_mismatch

-- `Option::unwrap_or_default`
abbrev pub or_empty : Option (List Str) → List Str
or_empty none = []
or_empty (some environment) = environment

-- `open` is the metadata file of a cache key.
unfoldable pub machine_config_env :
    (Str → Result Error MetadataFile) → MachineRecord → Result Error (List Str)
machine_config_env metadata_file r = do
  cache_key ← context r.environment.base_cache_key wrong_identity
  ensure_hex_digest cache_key
  m ← read_prepared_metadata (metadata_file cache_key)
  validate_prepared_metadata m false
  ensure (str_eq m.cache_key cache_key) wrong_identity
  check_manifest r.environment.manifest_digest m
  validate_image_environment (or_empty m.config_env)
  ok (or_empty m.config_env)

abbrev pub or_false : Result Error Bool → Bool
or_false (ok b) = b
or_false (err e) = false

-- `valid_cache`: whether the directory exists, and whether `validate_ext4_image` accepts the disk.
unfoldable pub valid_cache : Bool → Bool → Result Error MetadataFile → Str → Str → Bool
valid_cache exists disk_valid file digest cache_key =
    exists
    && disk_valid
    && or_false (do
      m ← read_prepared_metadata file
      validate_prepared_metadata m true
      ok (
          str_eq m.source_digest digest
          && str_eq m.cache_key cache_key
          && str_eq m.architecture (codes "amd64")
          && str_eq m.os (codes "linux")))
