-- ===== src/Host/Storage/Contract.antt =====
-- What the lifecycle of the machines relies on: a set of identifiers, those whose storage exists,
-- with the steps of a commit and of a removal.
use spawnr.Prelude.{
  ℕ, ◌≡◌, ◌==◌, ==_iff, refl, ap, ◌∙◌, Bool, true, false, Option, none, some, ◌∷◌, Result, ok, err,
  if◌then◌else◌, arith,
}
use spawnr.Prelude.Text.{str_eq_iff}
use spawnr.Host.State.{MachineRecord}
use spawnr.Host.Files.{PathBuf, Node, Error, Nodes, Disk, path_eq, under}
use spawnr.Host.Files.Places.{under-above, without-other, without-under, under_refl}
use spawnr.Host.Files.Trees.{WellFormed}
use spawnr.Host.Files.Looks.{Ends}
use spawnr.Host.Storage.{Site, for_record, remove}
use spawnr.Host.Storage.Disks.{commit_machine_storage}
use spawnr.Host.Storage.Removal.{RemoveEnds, remove-RemoveEnds}
use spawnr.Host.Storage.Commit.{Undoable, CommitEnds, commit_machine_storage-CommitEnds}

-- The machines that have storage.
abbrev pub Stored : Type 0
Stored = ℕ → Bool

-- A commit adds the machine, that had none, or fails without a trace.
unfoldable pub Commits : ℕ → Stored → Result Error (Unit {0}) → Stored → Type 0
Commits id a (ok u) b = (a id ≡ false) × ((j : ℕ) → b j ≡ (if j == id then true else a j))
Commits id a (err e) b = (j : ℕ) → b j ≡ a j

-- A removal takes the machine, that had some, and never another one.
unfoldable pub Removes : ℕ → Stored → Result Error (Unit {0}) → Stored → Type 0
Removes id a (ok u) b = (a id ≡ true) × ((j : ℕ) → b j ≡ (if j == id then false else a j))
Removes id a (err e) b = (j : ℕ) → (j == id) ≡ false → b j ≡ a j

pick : (t b c a : Bool) → (t ≡ true → b ≡ c) → (t ≡ false → b ≡ a) → b ≡ (if t then c else a)
pick true b c a h g = h refl
pick false b c a h g = g refl

abbrev is_there : Option Node → Bool
is_there none = false
is_there (some n) = true

module _ (s : Site) where
  -- The entries, seen as the machines whose directory exists.
  unfoldable pub stored : Nodes → Stored
  stored n j = is_there (n (s.uuid_text j ∷ s.machines_dir))

  -- The texts of two identifiers differ.
  unfoldable pub Injective : Type 0
  Injective = (i j : ℕ) → s.uuid_text i ≡ s.uuid_text j → i ≡ j

  module _ (injective : Injective) where
    other_machine :
        (i j : ℕ)
        → (j == i) ≡ false
        → under (s.uuid_text i ∷ s.machines_dir) (s.uuid_text j ∷ s.machines_dir) ≡ false
    unfolding under path_eq Injective
    other_machine i j h = ground (
      arith,
      under-above (s.uuid_text i) s.machines_dir,
      str_eq_iff (s.uuid_text i) (s.uuid_text j),
      injective i j,
      ==_iff j i,
    )

    module _ (r : MachineRecord) where
      commits :
          (before n : Nodes) (v : Result Error (Unit {0}))
          → CommitEnds s r before v n
          → Commits r.id (stored before) v (stored n)
      unfolding CommitEnds Commits stored for_record
      commits before n (ok u) (free, laid, disks, frame) = (
        ap is_there free,
        λ j.
            pick (j == r.id) _ _ _
              (λ e. ap (stored n) ((==_iff j r.id).0 e) ∙ ap is_there laid.owned.directory.is_there)
              (λ e. ap is_there (frame _ (other_machine r.id j e))),
      )
      commits before n (err x) h = λ j. ap is_there (h (s.uuid_text j ∷ s.machines_dir))

      -- Where the texts of identifiers differ, from a well-formed tree, and where no removal and no
      -- read of the roll-back breaks off: the commit adds the machine, which had no storage, to those
      -- that have some, or fails and leaves them as they are.
      pub commit_machine_storage-Commits :
          (t : Disk) (base : PathBuf)
          → WellFormed t.nodes
          → Undoable s r
          → Ends
              (λ v n. Commits r.id (stored t.nodes) v (stored n))
              (commit_machine_storage s r base t)
      commit_machine_storage-Commits t base w d =
          commits t.nodes _ _ (commit_machine_storage-CommitEnds s r t base w d)

      removes :
          (before n : Nodes) (v : Result Error (Unit {0}))
          → RemoveEnds s r before v n
          → Removes r.id (stored before) v (stored n)
      unfolding RemoveEnds Removes stored for_record
      removes before n (ok u) (owned, gone) = (
        ap is_there owned.directory.is_there,
        λ j.
            pick (j == r.id) _ _ _
              (λ e.
                ap (stored n) ((==_iff j r.id).0 e)
                ∙ ap is_there (
                    gone _
                    ∙ without-under (for_record s r).root _ before
                        (under_refl (for_record s r).root)))
              (λ e. ap is_there (
                gone _
                ∙ without-other (for_record s r).root _ (λ p. false) before
                    (other_machine r.id j e))),
      )
      removes before n (err x) (reason, frame) =
          λ j e. ap is_there (frame _ (other_machine r.id j e))

      -- Where the texts of identifiers differ, and whatever breaks off: the removal takes the machine,
      -- which had storage, from those that have some, or it fails; no other machine loses or gets any.
      pub remove-Removes :
          (t : Disk)
          → Ends (λ v n. Removes r.id (stored t.nodes) v (stored n)) (remove s (for_record s r) r t)
      remove-Removes t = removes t.nodes _ _ (remove-RemoveEnds s r t)
