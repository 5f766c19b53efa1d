-- ===== src/Host/State/Laws.antt =====
-- Laws of the map of machines.
use spawnr.Prelude.{◌≡◌, refl, none, some, [], ◌∷◌, if◌then◌else◌, arith}
use spawnr.Prelude.Text.{Str, str_eq, str_eq_iff}
use spawnr.Host.State.{MachineRecord, Machines, get, insert, remove}

pub get-insert :
    (name asked : Str) (v : MachineRecord) (m : Machines)
    → get asked (insert name v m) ≡ (if str_eq name asked then some v else get asked m)
unfolding get insert
get-insert name asked v [] = refl
get-insert name asked v ((first, w) ∷ m) = ground (
  arith,
  str_eq_iff name asked,
  str_eq_iff first name,
  str_eq_iff first asked,
  get-insert name asked v m,
)

pub get-remove :
    (name asked : Str) (m : Machines)
    → get asked (remove name m) ≡ (if str_eq name asked then none else get asked m)
unfolding get remove
get-remove name asked [] = ground arith
get-remove name asked ((first, w) ∷ m) = ground (
  arith,
  str_eq_iff name asked,
  str_eq_iff first name,
  str_eq_iff first asked,
  get-remove name asked m,
)

pub get-insert_same :
    (name : Str) (v : MachineRecord) (m : Machines) → get name (insert name v m) ≡ some v
get-insert_same name v m = ground (arith, get-insert name name v m, str_eq_iff name name)
