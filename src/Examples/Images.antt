-- ===== src/Examples/Images.antt =====
-- An image, its references, and a small executable.
use spawnr.Prelude.{
  arith, ℕ, zero, suc, ◌≡◌, refl, ◌==◌, ◌&&◌, true, false, none, some, List, [], ◌∷◌, ◌++◌, Result,
  ok, is_ok,
}
use spawnr.Prelude.Text.{contains_text, Str, codes, bytes, contains, strip_prefix}
use spawnr.Agent.Session.{parse_image_environment}
use spawnr.Host.State.{MachineRecord}
use spawnr.Host.Oci
use spawnr.Host.Oci.{
  PreparedMetadata, MetadataFile, machine_config_env, validate_image_environment,
  read_prepared_metadata, validate_prepared_metadata, validate_loop, check_entry, add_entry,
  ensure_hex_digest, ensure_manifest_digest, normalize_source_reference, normalize_reference,
  immutable_pull_reference, is_manifest_digest, without_tag,
}
use spawnr.Host.Oci.Environment.{validate_image_environment-is_ok}
use spawnr.Host.Oci.References.{immutable_pull_reference-digest}
use spawnr.Host.Oci.Elf.{
  validate_static_x86_64_elf, read_exact_at, program_headers, header_offset, field,
}
use spawnr.Host.Oci.Elf.Static.{IsStatic, validate_static_x86_64_elf-IsStatic}

abbrev hex : Str
hex = codes "0123456789abcdef0123456789abcdef0123456789abcdef0123456789abcdef"

abbrev digest : Str
digest = codes "sha256:" ++ hex

abbrev variables : List Str
variables = codes "PATH=/bin" ∷ codes "1X=a=b" ∷ []

validate_image_environment-is_ok_example :
    is_ok (validate_image_environment variables) ≡ is_ok (parse_image_environment variables)
validate_image_environment-is_ok_example = validate_image_environment-is_ok variables

abbrev metadata : PreparedMetadata
metadata = record {
  source_reference = codes "ubuntu";
  source_digest = digest;
  cache_key = hex;
  architecture = codes "amd64";
  os = codes "linux";
  config_env = some variables;
}

abbrev metadata_file : Str → Result Oci.Error MetadataFile
metadata_file key = ok (record { is_file = true; size = 300; encoded = 300; content = ok metadata })

abbrev machine : MachineRecord
machine = record {
  id = 1;
  name = codes "m";
  environment = record {
    reference = codes "ubuntu";
    manifest_digest = some digest;
    base_cache_key = some hex;
  };
  repository = none;
  repository_dir = none;
  workspace_id = 2;
  created_at = 0;
  vsock_cid = 3;
  mac_address = [];
}

environment_sent : machine_config_env metadata_file machine ≡ ok variables
unfolding machine_config_env read_prepared_metadata validate_prepared_metadata
    validate_image_environment validate_loop check_entry add_entry ensure_hex_digest
    ensure_manifest_digest normalize_source_reference normalize_reference contains_text bytes
environment_sent = refl

debian_named : normalize_reference (codes "debian:12") ≡ ok (codes "docker://debian:12")
unfolding normalize_reference contains_text
debian_named = refl

digest_valid : is_manifest_digest (strip_prefix (codes "sha256:") digest) ≡ true
unfolding bytes
digest_valid = refl

debian_pinned :
    immutable_pull_reference (codes "docker://" ++ codes "x@y") digest
    ≡ ok (codes "docker://" ++ (codes "x" ++ (b'@' ∷ digest)))
unfolding immutable_pull_reference without_tag bytes
debian_pinned = refl

immutable_pull_reference-digest_example :
    (image : Str) × (codes "docker://" ++ (codes "x" ++ (b'@' ∷ digest))
      ≡ codes "docker://" ++ (image ++ (b'@' ∷ digest)))
    × (contains b'@' image ≡ false)
    × (is_manifest_digest (strip_prefix (codes "sha256:") digest) ≡ true)
immutable_pull_reference-digest_example =
    immutable_pull_reference-digest (codes "x@y") digest
      (codes "docker://" ++ (codes "x" ++ (b'@' ∷ digest))) debian_pinned

abbrev zeros : ℕ → List ℕ
zeros zero = []
zeros (suc n) = 0 ∷ zeros n

-- A header, and one loadable program header behind it.
abbrev executable : List ℕ
executable =
    (0x7f ∷ b'E' ∷ b'L' ∷ b'F' ∷ 2 ∷ 1 ∷ [])
    ++ zeros 12
    ++ (62 ∷ [])
    ++ zeros 13
    ++ (64 ∷ [])
    ++ zeros 21
    ++ (56 ∷ 0 ∷ 1 ∷ 0 ∷ [])
    ++ zeros 6
    ++ (1 ∷ [])
    ++ zeros 55

executable_accepted : validate_static_x86_64_elf executable ≡ ok tt
unfolding validate_static_x86_64_elf read_exact_at program_headers header_offset
executable_accepted = refl

validate_static_x86_64_elf-IsStatic_example :
    (header : List ℕ) × (read_exact_at executable 0 64 ≡ some header)
    × ((field header 4 5 == 2 && field header 5 6 == 1 && field header 18 20 == 62) ≡ true)
    × IsStatic executable (field header 32 40) (field header 54 56) (field header 56 58)
validate_static_x86_64_elf-IsStatic_example =
    validate_static_x86_64_elf-IsStatic executable (omega arith) executable_accepted
