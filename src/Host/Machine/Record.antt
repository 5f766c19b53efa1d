-- ===== src/Host/Machine/Record.antt =====
-- `new_record` of machine.rs.
use spawnr.Prelude.{
  ℕ, zero, suc, ◌+◌, ◌/◌, ◌%◌, ◌^◌, true, false, Option, none, some, List, [], ◌∷◌, ltb, ◌==◌,
  if◌then◌else◌, length, any, Result, ok, err,
}
use spawnr.Prelude.Text.{Str}
use spawnr.Host.State.{MachineRecord, values}
use spawnr.Host.Machine
use spawnr.Host.Machine.{Backend, M, ◌>>=◌, give, on_world, read_machines, out_of_fuel}

abbrev pub used_cids : List MachineRecord → List ℕ
used_cids [] = []
used_cids (r ∷ rs) = r.vsock_cid ∷ used_cids rs

-- `cid.checked_add(1).unwrap_or(4_096)`
abbrev pub next_cid : ℕ → ℕ
next_cid cid = if ltb (cid + 1) (2 ^ 32) then cid + 1 else 4096

-- `while used_cids.contains(&cid)`, on fuel.
unfoldable pub free_cid : ℕ → List ℕ → ℕ → Option ℕ
free_cid zero used cid = none
free_cid (suc fuel) used cid = elim (any (λ u. u == cid) used) [
  | true ↦ free_cid fuel used (next_cid cid)
  | false ↦ some cid
]

-- `4_096 + (u32::from_be_bytes(id[0..4]) & 0x3fff_ffff)`
abbrev pub first_cid : ℕ → ℕ
first_cid id = 4096 + id / 2 ^ 96 % 2 ^ 30

-- The bytes of the format string: 02 and the first five bytes of the identifier.
abbrev pub mac_of : ℕ → List ℕ
mac_of id =
    2
    ∷ id / 2 ^ 120 % 256
    ∷ id / 2 ^ 112 % 256
    ∷ id / 2 ^ 104 % 256
    ∷ id / 2 ^ 96 % 256
    ∷ id / 2 ^ 88 % 256
    ∷ []

abbrev pub cid_or_fail : Option ℕ → Result Machine.Error ℕ
cid_or_fail none = err out_of_fuel
cid_or_fail (some cid) = ok cid

unfoldable pub new_record : (b : Backend) → Str → Str → Option Str → Option Str → M b MachineRecord
new_record b name environment repository repository_dir = do
  id ← on_world (λ w. let (id, w') = b.new_uuid w in (ok id, w'))
  existing ← read_machines
  let used = used_cids (values existing)
  cid ← give (cid_or_fail (free_cid (suc (length used)) used (first_cid id)))
  workspace_id ← on_world (λ w. let (id, w') = b.new_uuid w in (ok id, w'))
  created_at ← on_world (λ w. let (t, w') = b.now w in (ok t, w'))
  give (
      ok (record {
        id = id;
        name = name;
        environment = record {
          reference = environment;
          manifest_digest = none;
          base_cache_key = none;
        };
        repository = repository;
        repository_dir = repository_dir;
        workspace_id = workspace_id;
        created_at = created_at;
        vsock_cid = cid;
        mac_address = mac_of id;
      }))
