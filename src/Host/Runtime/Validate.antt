-- ===== src/Host/Runtime/Validate.antt =====
-- `RuntimeLock::validate`, `RuntimeManifest::validate` and `validate_against_lock`.
use spawnr.Prelude.{
  Bool, true, false, not, ◌&&◌, Option, none, some, List, [], ◌∷◌, ◌++◌, ltb, ◌==◌, any, find,
  Result, ok, ◌>>=◌, ◌>>◌, ensure, context,
}
use spawnr.Prelude.Text.{Str, codes, is_empty, is_control, str_eq}
use spawnr.Host.Runtime.{
  Error, Semver, CliCompatibility, ComponentKind, RuntimeLock, RuntimeManifest, RuntimeComponent,
  RuntimeFile, host_executable, guest_kernel, guest_initramfs, guest_executable, data_file,
  unsupported_schema, wrong_release_tag, wrong_archive_name, empty_archive, no_components, no_files,
  hashes_itself, file_is_empty, duplicate_file, duplicate_component, invalid_component_version,
  unexpected_kind, unlisted_file, missing_component, version_mismatch, target_mismatch,
  protocol_mismatch, compatibility_mismatch, required_components,
}
use spawnr.Host.Runtime.Rules.{
  one_of, validate_target_protocol, parse_version, validate_compatibility, ensure_contains,
  validate_sha256, validate_download_url, validate_component_name, validate_runtime_path,
  ensure_sorted, expected_component_kind, has_path, validate_component_launcher,
}

unfoldable pub validate_lock : Semver → RuntimeLock → Result Error (Unit {0})
validate_lock v lock = do
  ensure (lock.schema_version == 1) unsupported_schema
  runtime_version ← parse_version v lock.runtime_version
  validate_target_protocol lock.target lock.protocol_version
  validate_compatibility v lock.cli_compatibility
  ensure (str_eq lock.release_tag (b'v' ∷ v.display runtime_version)) wrong_release_tag
  ensure
      (str_eq lock.archive.file_name (
        codes "spawnr-runtime-"
        ++ v.display runtime_version
        ++ b'-' ∷ lock.target
        ++ codes ".tar.zst"))
      wrong_archive_name
  ensure (ltb 0 lock.archive.size_bytes) empty_archive
  validate_sha256 lock.archive.sha256
  validate_sha256 lock.archive.manifest_sha256
  validate_download_url lock.archive.url lock.archive.file_name

unfoldable pub validate_for_cli : (v : Semver) → RuntimeLock → v.Version → Result Error (Unit {0})
validate_for_cli v lock cli_version = do
  validate_lock v lock
  ensure_contains v lock.cli_compatibility cli_version

abbrev pub kind_eq : ComponentKind → ComponentKind → Bool
kind_eq host_executable host_executable = true
kind_eq guest_kernel guest_kernel = true
kind_eq guest_initramfs guest_initramfs = true
kind_eq guest_executable guest_executable = true
kind_eq data_file data_file = true
kind_eq _ _ = false

-- The loop over the files, with the paths seen and the previous one.
unfoldable pub files_loop : List Str → Option Str → List RuntimeFile → Result Error (Unit {0})
files_loop file_paths previous [] = ok tt
files_loop file_paths previous (file ∷ files) = do
  validate_runtime_path file.path false
  ensure (not (str_eq file.path (codes "manifest.json"))) hashes_itself
  ensure (ltb 0 file.size_bytes) file_is_empty
  validate_sha256 file.sha256
  ensure (not (one_of file_paths file.path)) duplicate_file
  ensure_sorted previous file.path
  files_loop (file.path ∷ file_paths) (some file.path) files

abbrev pub check_kind : Option ComponentKind → ComponentKind → Result Error (Unit {0})
check_kind none kind = ok tt
check_kind (some expected) kind = ensure (kind_eq kind expected) unexpected_kind

-- The rest of the round for one component, after its name was found new and in order.
unfoldable pub validate_component : List RuntimeFile → RuntimeComponent → Result Error (Unit {0})
validate_component files component = do
  ensure (not (is_empty component.version) && not (any is_control component.version))
      invalid_component_version
  check_kind (expected_component_kind component.name) component.kind
  validate_runtime_path component.path false
  component_file ← context (find (has_path component.path) files) unlisted_file
  validate_component_launcher component.kind component component_file files

-- The names of the components are the result.
unfoldable pub components_loop :
    List RuntimeFile → List Str → Option Str → List RuntimeComponent → Result Error (List Str)
components_loop files component_names previous [] = ok component_names
components_loop files component_names previous (component ∷ components) = do
  validate_component_name component.name
  ensure (not (one_of component_names component.name)) duplicate_component
  ensure_sorted previous component.name
  validate_component files component
  components_loop files (component.name ∷ component_names) (some component.name) components

unfoldable pub required_loop : List Str → List Str → Result Error (Unit {0})
required_loop component_names [] = ok tt
required_loop component_names (required ∷ rest) = do
  ensure (one_of component_names required) missing_component
  required_loop component_names rest

abbrev pub is_cons : {A : Type 0} → List A → Bool
is_cons [] = false
is_cons (x ∷ xs) = true

unfoldable pub validate_manifest : Semver → RuntimeManifest → Result Error (Unit {0})
validate_manifest v m = do
  ensure (m.schema_version == 1) unsupported_schema
  runtime_version ← parse_version v m.runtime_version
  validate_target_protocol m.target m.protocol_version
  validate_compatibility v m.cli_compatibility
  ensure (is_cons m.components) no_components
  ensure (is_cons m.files) no_files
  files_loop [] none m.files
  component_names ← components_loop m.files [] none m.components
  required_loop component_names required_components

abbrev pub compatibility_eq : CliCompatibility → CliCompatibility → Bool
compatibility_eq c d = str_eq c.minimum d.minimum && str_eq c.maximum_exclusive d.maximum_exclusive

unfoldable pub validate_against_lock :
    Semver → RuntimeManifest → RuntimeLock → Result Error (Unit {0})
validate_against_lock v m lock = do
  validate_manifest v m
  validate_lock v lock
  ensure (str_eq m.runtime_version lock.runtime_version) version_mismatch
  ensure (str_eq m.target lock.target) target_mismatch
  ensure (m.protocol_version == lock.protocol_version) protocol_mismatch
  ensure (compatibility_eq m.cli_compatibility lock.cli_compatibility) compatibility_mismatch
