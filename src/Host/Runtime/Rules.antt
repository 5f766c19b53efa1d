-- ===== src/Host/Runtime/Rules.antt =====
-- The checks of runtime.rs on one text or one component.
use spawnr.Prelude.{
  ℕ, Bool, true, false, not, ◌&&◌, ◌||◌, Option, none, some, List, [], ◌∷◌, ◌++◌, ltb, ◌==◌,
  in_range, if◌then◌else◌, all, any, find, map, Result, ok, ◌>>=◌, ◌>>◌, ensure, context,
}
use spawnr.Prelude.Text.{
  Str, codes, bytes, len, is_empty, is_ascii_digit, is_ascii_lowercase, is_control, is_whitespace,
  contains, str_eq, strip_prefix, starts_with, last_is, split_once, split,
}
use spawnr.Protocol.{protocol_version}
use spawnr.Host.Runtime.{
  Error, Semver, CliCompatibility, ComponentKind, RuntimeComponent, RuntimeFile, RuntimeLauncher,
  host_executable, guest_kernel, guest_initramfs, guest_executable, data_file, direct, elf_loader,
  unsupported_target, incompatible_protocol, version_syntax, version_has_build, empty_cli_range,
  cli_not_supported, not_sha256, zero_sha256, url_scheme, url_characters, url_host, url_name,
  path_is_empty, path_not_relative, path_has_backslash, path_has_control, path_has_unsafe_component,
  path_outside_layout, directory_has_slash, path_without_file, invalid_component_name, not_sorted,
  not_executable, no_launcher, unexpected_launcher, loader_outside_lib, unlisted_loader,
  loader_not_executable, no_library_path, library_outside_lib, duplicate_library, library_is_empty,
}

abbrev pub one_of : List Str → Str → Bool
one_of names s = any (str_eq s) names

-- The order of `str`: that of the bytes.
unfoldable pub lex_less : List ℕ → List ℕ → Bool
lex_less [] [] = false
lex_less [] (d ∷ t) = true
lex_less (c ∷ s) [] = false
lex_less (c ∷ s) (d ∷ t) = let rest = lex_less s t in ltb c d || (c == d && rest)

abbrev pub str_less : Str → Str → Bool
str_less s t = lex_less (bytes s) (bytes t)

unfoldable pub ends_with : Str → Str → Bool
ends_with suffix [] = str_eq suffix []
ends_with suffix (c ∷ s) = let rest = ends_with suffix s in str_eq suffix (c ∷ s) || rest

unfoldable pub validate_target_protocol : Str → ℕ → Result Error (Unit {0})
validate_target_protocol target version = do
  ensure (str_eq target (codes "x86_64-linux")) unsupported_target
  ensure (version == protocol_version) incompatible_protocol

unfoldable pub parse_version : (v : Semver) → Str → Result Error v.Version
parse_version v value = do
  version ← context (v.parse value) version_syntax
  ensure (not (v.has_build version)) version_has_build
  ok version

unfoldable pub validate_compatibility : Semver → CliCompatibility → Result Error (Unit {0})
validate_compatibility v c = do
  minimum ← parse_version v c.minimum
  maximum ← parse_version v c.maximum_exclusive
  ensure (v.less minimum maximum) empty_cli_range

-- `Version::parse(..).expect(..)` is the error of `parse`, which `validate` has excluded.
unfoldable pub ensure_contains :
    (v : Semver) → CliCompatibility → v.Version → Result Error (Unit {0})
ensure_contains v c cli_version = do
  validate_compatibility v c
  minimum ← context (v.parse c.minimum) version_syntax
  maximum ← context (v.parse c.maximum_exclusive) version_syntax
  ensure (not (v.less cli_version minimum) && v.less cli_version maximum) cli_not_supported

abbrev is_lower_hex : ℕ → Bool
is_lower_hex c = is_ascii_digit c || in_range b'a' b'f' c

unfoldable pub validate_sha256 : Str → Result Error (Unit {0})
validate_sha256 value = do
  ensure (len value == 64 && all is_lower_hex (bytes value)) not_sha256
  ensure (not (all (λ c. c == b'0') (bytes value))) zero_sha256

unfoldable pub validate_download_url : Str → Str → Result Error (Unit {0})
validate_download_url url file_name = do
  ensure (starts_with (codes "https://") url) url_scheme
  ensure (not (any is_whitespace url) && not (contains b'#' url)) url_characters
  remainder ← context (strip_prefix (codes "https://") url) url_scheme
  (authority, path) ← context (split_once b'/' remainder) url_host
  ensure (not (is_empty authority) && not (contains b'@' authority) && not (is_empty path)) url_host
  ensure (ends_with (b'/' ∷ file_name) url) url_name

unfoldable pub validate_component_name : Str → Result Error (Unit {0})
validate_component_name name =
    ensure
      (not (is_empty name)
        && all (λ c. is_ascii_lowercase c || is_ascii_digit c || c == b'-') (bytes name)
        && not (starts_with (codes "-") name)
        && not (last_is b'-' name))
      invalid_component_name

abbrev pub is_safe_component : Str → Bool
is_safe_component s =
    not (is_empty s) && not (str_eq s (b'.' ∷ [])) && not (str_eq s (b'.' ∷ b'.' ∷ []))

-- `split(..).next()`; a split has one piece at least.
abbrev pub top_of : List Str → Str
top_of [] = []
top_of (s ∷ ss) = s

abbrev pub layout_ok : Bool → Str → Result Error (Unit {0})
layout_ok true path = ensure (not (last_is b'/' path)) directory_has_slash
layout_ok false path = ensure (contains b'/' path) path_without_file

unfoldable pub validate_runtime_path : Str → Bool → Result Error (Unit {0})
validate_runtime_path path directory = do
  ensure (not (is_empty path)) path_is_empty
  ensure (not (starts_with (b'/' ∷ []) path)) path_not_relative
  ensure (not (contains 92 path)) path_has_backslash
  ensure (not (any is_control path)) path_has_control
  ensure (all is_safe_component (split b'/' path)) path_has_unsafe_component
  ensure (one_of (map codes ("bin" ∷ "guest" ∷ "lib" ∷ "share" ∷ [])) (top_of (split b'/' path)))
      path_outside_layout
  layout_ok directory path

unfoldable pub ensure_sorted : Option Str → Str → Result Error (Unit {0})
ensure_sorted none current = ok tt
ensure_sorted (some previous) current = ensure (str_less previous current) not_sorted

unfoldable pub expected_component_kind : Str → Option ComponentKind
expected_component_kind name =
    if one_of (map codes ("busybox" ∷ "spawnr-agent" ∷ [])) name
    then some guest_executable
    else if str_eq name (codes "guest-initramfs")
    then some guest_initramfs
    else if str_eq name (codes "guest-kernel")
    then some guest_kernel
    else if one_of
        (map codes (
          "cloud-hypervisor" ∷ "du" ∷ "e2fsck" ∷ "fuse2fs" ∷ "fusermount3" ∷ "mkfs-ext4" ∷ "passt"
          ∷ "skopeo" ∷ "umoci" ∷ "unshare" ∷ []))
        name
    then some host_executable
    else none

abbrev pub has_path : Str → RuntimeFile → Bool
has_path path file = str_eq file.path path

unfoldable pub library_loop : List RuntimeFile → List Str → List Str → Result Error (Unit {0})
library_loop files unique [] = ok tt
library_loop files unique (path ∷ paths) = do
  validate_runtime_path path true
  ensure (str_eq path (codes "lib") || starts_with (codes "lib/") path) library_outside_lib
  ensure (not (one_of unique path)) duplicate_library
  ensure (any (λ file. starts_with (path ++ b'/' ∷ []) file.path) files) library_is_empty
  library_loop files (path ∷ unique) paths

unfoldable pub validate_launcher : List RuntimeFile → RuntimeLauncher → Result Error (Unit {0})
validate_launcher files direct = ok tt
validate_launcher files (elf_loader loader library_paths) = do
  validate_runtime_path loader false
  ensure (starts_with (codes "lib/") loader) loader_outside_lib
  loader_file ← context (find (has_path loader) files) unlisted_loader
  ensure (loader_file.executable) loader_not_executable
  ensure (any (λ path. true) library_paths) no_library_path
  library_loop files [] library_paths

abbrev pub has_launcher : Option RuntimeLauncher → Bool
has_launcher none = false
has_launcher (some launcher) = true

unfoldable pub validate_component_launcher :
    ComponentKind → RuntimeComponent → RuntimeFile → List RuntimeFile → Result Error (Unit {0})
validate_component_launcher host_executable component file files = do
  ensure (file.executable) not_executable
  launcher ← context component.launcher no_launcher
  validate_launcher files launcher
validate_component_launcher guest_executable component file files = do
  ensure (file.executable) not_executable
  ensure (not (has_launcher component.launcher)) unexpected_launcher
validate_component_launcher guest_kernel component file files =
    ensure (not (has_launcher component.launcher)) unexpected_launcher
validate_component_launcher guest_initramfs component file files =
    ensure (not (has_launcher component.launcher)) unexpected_launcher
validate_component_launcher data_file component file files =
    ensure (not (has_launcher component.launcher)) unexpected_launcher
