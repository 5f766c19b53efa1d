-- ===== src/Host/State.antt =====
-- crates/spawnr/src/state.rs: the machine records. The map of machines is an association list in
-- which a name stands once; `time` and the identifiers' randomness are the caller's.
pub mod Laws
pub mod Store
pub mod Saved
pub mod Reread
use spawnr.Prelude.{ℕ, Bool, true, false, Option, none, some, List, [], ◌∷◌, if◌then◌else◌}
use spawnr.Prelude.Text.{Str, str_eq}

abbrev pub schema_version : ℕ
schema_version = 1

pub record EnvironmentRecord : Type 0 where
  pub reference : Str
  pub manifest_digest : Option Str
  pub base_cache_key : Option Str

pub record MachineRecord : Type 0 where
  -- The UUID, as a 128-bit number.
  pub id : ℕ
  pub name : Str
  pub environment : EnvironmentRecord
  pub repository : Option Str
  pub repository_dir : Option Str
  pub workspace_id : ℕ
  pub created_at : ℕ
  pub vsock_cid : ℕ
  -- The six bytes of the address.
  pub mac_address : List ℕ

abbrev pub Machines : Type 0
Machines = List (Str × MachineRecord)

unfoldable pub get : Str → Machines → Option MachineRecord
get name [] = none
get name ((key, record') ∷ rest) = if str_eq key name then some record' else get name rest

abbrev pub contains_key : Str → Machines → Bool
contains_key name machines = elim (get name machines) [ none ↦ false | some _ ↦ true ]

unfoldable pub insert : Str → MachineRecord → Machines → Machines
insert name new [] = (name, new) ∷ []
insert name new ((key, old) ∷ rest) =
    let more = insert name new rest in
    if str_eq key name then (name, new) ∷ rest else (key, old) ∷ more

unfoldable pub remove : Str → Machines → Machines
remove name [] = []
remove name ((key, old) ∷ rest) =
    let more = remove name rest in if str_eq key name then more else (key, old) ∷ more

abbrev pub keys : Machines → List Str
keys [] = []
keys ((key, _) ∷ rest) = key ∷ keys rest

abbrev pub values : Machines → List MachineRecord
values [] = []
values ((_, r) ∷ rest) = r ∷ values rest
