-- ===== src/Host/Machine/Create.antt =====
-- `rollback_created`, `init` and `clone_machines` of machine.rs.
use spawnr.Prelude.{ℕ, true, false, Option, none, some, List, [], ◌∷◌, ◌++◌, ◌*◌, Result, ok, err}
use spawnr.Prelude.Text.{Str, codes}
use spawnr.Protocol.{Request}
use spawnr.Host.Names.{
  validate_name, validate_environment_reference, validate_repository, repository_directory,
  allocate_clone_names,
}
use spawnr.Host.State.{MachineRecord, Machines, contains_key, keys}
use spawnr.Host.Machine.{
  prepare_storage, Backend, Error, could_not_remove, already_exists, with_rollback, M, ◌>>=◌, ◌>>◌,
  give, attempt, on_world, read_machines, insert_machine, remove_machine, save, lift,
}
use spawnr.Host.Machine.Record.{new_record}
use spawnr.Host.Machine.Power.{start_record, request_ok}

-- What the removal of `r` gave: the record goes, or its name joins the failures.
unfoldable pub after_removal :
    {b : Backend} → MachineRecord → Result Error (Unit {0}) → List Str → M b (List Str)
after_removal r (ok _) failures = remove_machine r.name >>= λ _. give (ok failures)
after_removal r (err e) failures = give (ok (failures ++ r.name ∷ []))

-- The loop over `created.iter().rev()`: the argument is already in reverse.
unfoldable pub remove_all : (b : Backend) → List MachineRecord → List Str → M b (List Str)
remove_all b [] failures = give (ok failures)
remove_all b (r ∷ rs) failures = do
  removed ← attempt (on_world (b.remove_storage r))
  failures' ← after_removal r removed failures
  remove_all b rs failures'

abbrev pub removal_result : List Str → Result Error (Unit {0})
removal_result [] = ok tt
removal_result (name ∷ names) = err (could_not_remove (name ∷ names))

unfoldable pub rollback_created : (b : Backend) → List MachineRecord → M b (Unit {0})
rollback_created b created = do
  failures ← remove_all b created []
  save b
  give (removal_result failures)

-- `return Err(with_rollback(error, self.rollback_created(..)))`
unfoldable pub fail_after : (b : Backend) {A : Type 0} → List MachineRecord → Error → M b A
fail_after b created e = do
  cleanup ← attempt (rollback_created b created)
  give (err (with_rollback e cleanup))

-- `if let Err(error) = m { rollback }`, and the value otherwise.
unfoldable pub or_rollback :
    (b : Backend) {A : Type 0} → List MachineRecord → Result Error A → M b A
or_rollback b created (ok a) = give (ok a)
or_rollback b created (err e) = fail_after b created e

abbrev pub ensure_new : Machines → Str → Result Error (Unit {0})
ensure_new machines name = elim (contains_key name machines) [
  | true ↦ err already_exists
  | false ↦ ok tt
]

unfoldable pub init : (b : Backend) → Str → Str → M b (Unit {0})
init b name environment = do
  give (lift (validate_name name))
  give (lift (validate_environment_reference environment))
  existing ← read_machines
  give (ensure_new existing name)
  r ← new_record b name environment none none
  (prepared, base) ← prepare_storage b r
  on_world b.acquire_block
  on_world (b.commit_storage prepared base)
  insert_machine name prepared
  saved ← attempt (save b)
  or_rollback b (prepared ∷ []) saved

-- `current_cleanup.and(prior_cleanup)`
abbrev pub and_result : Result Error (Unit {0}) → Result Error (Unit {0}) → Result Error (Unit {0})
and_result (ok _) r = r
and_result (err e) r = err e

unfoldable pub forget_if : {b : Backend} → Str → Result Error (Unit {0}) → M b (Unit {0})
forget_if name (ok _) = remove_machine name
forget_if name (err _) = give (ok tt)

-- The rollback when the state with the new record could not be saved.
unfoldable pub saved_or_rollback :
    (b : Backend)
    → Str
    → MachineRecord
    → List MachineRecord
    → Result Error (Unit {0})
    → M b (Unit {0})
saved_or_rollback b name r created (ok _) = give (ok tt)
saved_or_rollback b name r created (err e) = do
  current ← attempt (on_world (b.remove_storage r))
  forget_if name current
  prior ← attempt (rollback_created b created)
  give (err (with_rollback e (and_result current prior)))

module _ (b : Backend) (environment repository repository_dir : Str) where
  -- One round of the loop of `clone_machines`; `created` is in reverse.
  unfoldable pub clone_one : Str → List MachineRecord → M b MachineRecord
  clone_one name created = do
    r ← new_record b name environment (some repository) (some repository_dir)
    preparation ← attempt (prepare_storage b r)
    (prepared, base) ← or_rollback b created preparation
    block ← attempt (on_world b.acquire_block)
    or_rollback b created block
    committed ← attempt (on_world (b.commit_storage prepared base))
    or_rollback b created committed
    insert_machine name prepared
    saved ← attempt (save b)
    saved_or_rollback b name prepared created saved
    started ← attempt (
        start_record b prepared
        >> request_ok b prepared
            (Request.clone_repository repository (codes "/workspace/" ++ repository_dir)) (15 * 60))
    or_rollback b (prepared ∷ created) started >>= λ _. give (ok prepared)

  unfoldable pub clone_loop : List Str → List MachineRecord → M b (Unit {0})
  clone_loop [] created = give (ok tt)
  clone_loop (name ∷ names) created = clone_one name created >>= λ r. clone_loop names (r ∷ created)

abbrev pub validate_requested : Option Str → Result Error (Unit {0})
validate_requested none = ok tt
validate_requested (some name) = lift (validate_name name)

-- `lowercase` is `char::to_lowercase`.
unfoldable pub clone_machines :
    (lowercase : ℕ → List ℕ) (b : Backend) → Str → Str → Option Str → ℕ → M b (Unit {0})
clone_machines lowercase b environment repository requested count = do
  give (lift (validate_environment_reference environment))
  give (lift (validate_repository lowercase repository))
  give (validate_requested requested)
  existing ← read_machines
  names ← give (lift (allocate_clone_names lowercase requested repository count (keys existing)))
  directory ← give (lift (repository_directory lowercase repository))
  clone_loop b environment repository directory names []
