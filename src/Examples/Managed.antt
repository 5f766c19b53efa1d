-- ===== src/Examples/Managed.antt =====
-- A small runtime, a process, and names of machines.
use spawnr.Prelude.{
  ℕ, ◌+◌, ◌*◌, ◌≡◌, refl, true, false, ◌==◌, not, none, some, List, [], ◌∷◌, ◌++◌, all, map, length,
  ok, if◌then◌else◌, arith,
}
use spawnr.Prelude.Text.{Str, codes, split, str_eq, bytes, is_ascii_uppercase}
use spawnr.Host.Names.{
  validate_name, repository_directory, allocate_clone_names, slug, slug_loop, after_last,
  strip_suffix,
}
use spawnr.Host.Names.Rounds.{Allocates, allocate_clone_names-Allocates}
use spawnr.Host.Names.Slug.{repository_directory_valid}
use spawnr.Host.Process.{
  Host, ProcessIdentity, Read, PidFile, found, not_found, denied, matches_running_process,
  matches_stat, parse_state_and_start_time, after_close, words_from, take_word, read_pid_file,
  read_opened, inspect_pid_file, remove_pid_file, remove_stale_pid_file,
}
use spawnr.Host.Process.Status.{Runs}
use spawnr.Host.Process.Stop.{remove_stale_pid_file_stale}
use spawnr.Host.Runtime
use spawnr.Host.Runtime.{
  Semver, RuntimeManifest, RuntimeComponent, RuntimeFile, host_executable, guest_executable,
  guest_kernel, guest_initramfs, direct, required_components,
}
use spawnr.Host.Runtime.Rules.{
  one_of, top_of, validate_runtime_path, validate_target_protocol, parse_version,
  validate_compatibility, validate_sha256, lex_less, validate_component_name, ensure_sorted,
  expected_component_kind, validate_component_launcher, validate_launcher,
}
use spawnr.Host.Runtime.Paths.{walk, below, validate_runtime_path_inside}
use spawnr.Host.Runtime.Validate.{
  files_loop, components_loop, validate_component, required_loop, validate_manifest,
}
use spawnr.Host.Runtime.Required.{Found, validate_manifest-Found}

path_valid : validate_runtime_path (codes "bin/passt") false ≡ ok tt
unfolding validate_runtime_path split
path_valid = refl

validate_runtime_path_inside_example :
    (walk (codes "spawnr" ∷ []) (split b'/' (codes "bin/passt"))
      ≡ below (codes "spawnr" ∷ []) (split b'/' (codes "bin/passt")))
    × (one_of
          (map codes ("bin" ∷ "guest" ∷ "lib" ∷ "share" ∷ []))
          (top_of (split b'/' (codes "bin/passt")))
        ≡ true)
validate_runtime_path_inside_example =
    validate_runtime_path_inside (codes "bin/passt") false (codes "spawnr" ∷ []) path_valid

-- A version is its length.
abbrev lengths : Semver
lengths = record {
  Version = ℕ;
  parse = λ s. some (length s);
  less = λ a b. if a == b then false else true;
  display = λ v. [];
  has_build = λ v. false;
}

abbrev digest : Str
digest = map (λ c. b'1') (codes "0123456789012345678901234567890123456789012345678901234567890123")

abbrev listed_file : Str → RuntimeFile
listed_file path = record { path = path; size_bytes = 1; sha256 = digest; executable = true }

abbrev program : Str → RuntimeComponent
program name = record {
  name = name;
  version = codes "1";
  kind = host_executable;
  path = codes "bin/" ++ name;
  launcher = some direct;
}

abbrev guest_file : Str → Runtime.ComponentKind → RuntimeComponent
guest_file name kind = record {
  name = name;
  version = codes "1";
  kind = kind;
  path = codes "bin/" ++ name;
  launcher = none;
}

abbrev small_runtime : RuntimeManifest
small_runtime = record {
  schema_version = 1;
  runtime_version = codes "1";
  target = codes "x86_64-linux";
  protocol_version = 1;
  cli_compatibility = record { minimum = codes "1"; maximum_exclusive = codes "10" };
  components =
      guest_file (codes "busybox") guest_executable
      ∷ program (codes "cloud-hypervisor")
      ∷ program (codes "du")
      ∷ program (codes "e2fsck")
      ∷ program (codes "fuse2fs")
      ∷ program (codes "fusermount3")
      ∷ guest_file (codes "guest-initramfs") guest_initramfs
      ∷ guest_file (codes "guest-kernel") guest_kernel
      ∷ program (codes "mkfs-ext4")
      ∷ program (codes "passt")
      ∷ program (codes "skopeo")
      ∷ guest_file (codes "spawnr-agent") guest_executable
      ∷ program (codes "umoci")
      ∷ program (codes "unshare")
      ∷ [];
  files = map (λ name. listed_file (codes "bin/" ++ name)) required_components;
}

small_runtime_valid : validate_manifest lengths small_runtime ≡ ok tt
unfolding validate_manifest validate_target_protocol parse_version validate_compatibility
    validate_sha256 lex_less validate_component_name ensure_sorted expected_component_kind
    validate_component_launcher validate_launcher files_loop components_loop validate_component
    required_loop validate_runtime_path split bytes
small_runtime_valid = refl

validate_manifest-Found_example : Found small_runtime.files small_runtime.components (codes "passt")
validate_manifest-Found_example =
    validate_manifest-Found lengths small_runtime (codes "passt") small_runtime_valid refl

abbrev vmm : ProcessIdentity
vmm = record {
  pid = 7;
  boot_id = codes "b";
  start_time_ticks = 42;
  executable = codes "/bin/vmm";
  executable_device = 1;
  executable_inode = 2;
}

-- One process, in the state `state`; a number is read from its length.
abbrev machine : Str → Host
machine state = record {
  stat = λ pid.
      found (codes "7 (a) b) " ++ state ++ codes " 1 2 3 4 5 6 7 8 9 10 11 12 13 14 15 16 17 18 x");
  exe = λ pid. denied;
  boot_id = ok (codes "b");
  parse_number = λ s. if str_eq s (codes "x") then some 42 else none;
}

abbrev pid_file : Read PidFile
pid_file = found (record { is_file = true; size = 90; mode = 6 * 64; content = ok vmm })

vmm_runs : matches_running_process (machine (codes "S")) vmm ≡ ok true
unfolding matches_running_process matches_stat parse_state_and_start_time after_close words_from
    take_word
vmm_runs = refl

stale_removed : remove_stale_pid_file (machine (codes "Z")) pid_file ≡ ok (true, not_found)
unfolding remove_stale_pid_file inspect_pid_file remove_pid_file read_opened matches_running_process
    matches_stat parse_state_and_start_time after_close words_from take_word
stale_removed = refl

remove_stale_pid_file_stale_example :
    (p : ProcessIdentity) × (read_pid_file pid_file ≡ ok (some p))
    × ¬ (Runs (machine (codes "Z")) p)
    × (◌≡◌ {A = Read PidFile} not_found not_found)
remove_stale_pid_file_stale_example =
    remove_stale_pid_file_stale (machine (codes "Z")) pid_file not_found stale_removed

-- `to_lowercase` on ASCII.
abbrev ascii_lower : ℕ → List ℕ
ascii_lower c = (if is_ascii_uppercase c then c + 32 else c) ∷ []

ascii_law : (c : ℕ) → all (λ d. not (is_ascii_uppercase d)) (ascii_lower c) ≡ true
ascii_law c = ground arith

directory_made :
    repository_directory ascii_lower (codes "https://h/My_Repo.git") ≡ ok (codes "my-repo")
unfolding repository_directory slug slug_loop after_last strip_suffix bytes
directory_made = refl

repository_directory_valid_example : validate_name (codes "my-repo") ≡ ok tt
repository_directory_valid_example =
    repository_directory_valid ascii_lower ascii_law (codes "https://h/My_Repo.git")
      (codes "my-repo") directory_made

no_request : (name : Str) → none ≡ some name → validate_name name ≡ ok tt
no_request name h = absurd (cc)

allocate_clone_names-Allocates_example :
    Allocates
      (codes "r-1" ∷ [])
      2
      (allocate_clone_names ascii_lower none (codes "h:r") 2 (codes "r-1" ∷ []))
allocate_clone_names-Allocates_example =
    allocate_clone_names-Allocates ascii_lower none (codes "h:r") 2 (codes "r-1" ∷ []) no_request
