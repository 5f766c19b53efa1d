-- ===== src/Host/Runtime.antt =====
-- crates/spawnr/src/runtime.rs: the lock and the manifest of the managed runtime. The crate `semver`
-- is the interface `Semver`; the JSON that serde reads is left out.
pub mod Rules
pub mod Validate
pub mod Paths
pub mod Required
use spawnr.Prelude.{ℕ, Bool, Option, List, [], ◌∷◌, map}
use spawnr.Prelude.Text.{Str, codes}

pub data Error : Type 0 where
  unsupported_schema version_syntax version_has_build unsupported_target incompatible_protocol :
      Error
  empty_cli_range cli_not_supported wrong_release_tag wrong_archive_name empty_archive : Error
  not_sha256 zero_sha256 url_scheme url_characters url_host url_name : Error
  path_is_empty path_not_relative path_has_backslash path_has_control path_has_unsafe_component
        path_outside_layout directory_has_slash path_without_file :
      Error
  invalid_component_name not_sorted no_components no_files hashes_itself file_is_empty
        duplicate_file :
      Error
  duplicate_component invalid_component_version unexpected_kind unlisted_file missing_component :
      Error
  not_executable no_launcher unexpected_launcher loader_outside_lib unlisted_loader
        loader_not_executable :
      Error
  no_library_path library_outside_lib duplicate_library library_is_empty : Error
  version_mismatch target_mismatch protocol_mismatch compatibility_mismatch : Error

pub record CliCompatibility : Type 0 where
  pub minimum : Str
  pub maximum_exclusive : Str

-- `ArchiveFormat` has one value, and is left out.
pub record RuntimeArchive : Type 0 where
  pub file_name : Str
  pub url : Str
  pub size_bytes : ℕ
  pub sha256 : Str
  pub manifest_sha256 : Str

pub record RuntimeLock : Type 0 where
  pub schema_version : ℕ
  pub runtime_version : Str
  pub target : Str
  pub protocol_version : ℕ
  pub cli_compatibility : CliCompatibility
  pub release_tag : Str
  pub archive : RuntimeArchive

pub data ComponentKind : Type 0 where
  host_executable guest_kernel guest_initramfs guest_executable data_file : ComponentKind

pub data RuntimeLauncher : Type 0 where
  direct : RuntimeLauncher
  elf_loader : Str → List Str → RuntimeLauncher

pub record RuntimeComponent : Type 0 where
  pub name : Str
  pub version : Str
  pub kind : ComponentKind
  pub path : Str
  pub launcher : Option RuntimeLauncher

pub record RuntimeFile : Type 0 where
  pub path : Str
  pub size_bytes : ℕ
  pub sha256 : Str
  pub executable : Bool

pub record RuntimeManifest : Type 0 where
  pub schema_version : ℕ
  pub runtime_version : Str
  pub target : Str
  pub protocol_version : ℕ
  pub cli_compatibility : CliCompatibility
  pub components : List RuntimeComponent
  pub files : List RuntimeFile

-- `semver::Version`: `parse`, the order, `Display` and `build.is_empty()`.
pub record Semver : Type 1 where
  pub Version : Type 0
  pub parse : Str → Option Version
  pub less : Version → Version → Bool
  pub display : Version → Str
  pub has_build : Version → Bool

abbrev pub required_components : List Str
required_components = map codes (
    "busybox" ∷ "cloud-hypervisor" ∷ "du" ∷ "e2fsck" ∷ "fuse2fs" ∷ "fusermount3" ∷ "guest-initramfs"
    ∷ "guest-kernel" ∷ "mkfs-ext4" ∷ "passt" ∷ "skopeo" ∷ "spawnr-agent" ∷ "umoci" ∷ "unshare" ∷ [])
