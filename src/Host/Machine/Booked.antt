-- ===== src/Host/Machine/Booked.antt =====
-- The machines whose storage was committed and not removed since, by the journal of the calls, beside
-- the records of the state. Nothing is relied on of the backend.
use spawnr.Prelude.{ℕ, ◌≡◌, Bool, true, Option, List}
use spawnr.Prelude.Text.{Str}
use spawnr.Host.Machine.{Backend, Locked}
use spawnr.Host.Machine.Create.{init, clone_machines}
use spawnr.Host.Machine.Commands.{remove}
use spawnr.Host.Machine.Triples.{HasId, Tracked}
use spawnr.Host.Machine.Cloning.{clone_machines-Tracked}
use spawnr.Host.Machine.Lifecycle.{init-Tracked, remove-Tracked}
use spawnr.Host.Machine.Journal.{booked, journaled, journal_laws}

-- Each of these machines has a record.
abbrev pub Booked : (b : Backend) → Locked (journaled b) → Type 0
Booked b s = (j : ℕ) → booked s.world.1 j ≡ true → HasId j s.machines

module _ (b : Backend) where
  of_Booked : (s : Locked (journaled b)) → Booked b s → Tracked (journal_laws b) s
  of_Booked s h = record { tracks = h }

  -- For every backend, whatever its operations do and whichever of them fail: if before a `clone` each
  -- machine whose storage was committed with success, and not removed with success since, has a record
  -- in the state, so it is after the `clone`, its roll-backs included.
  pub clone_machines-Booked :
      (lowercase : ℕ → List ℕ) (environment repository : Str) (requested : Option Str) (count : ℕ)
      (s : Locked (journaled b))
      → Booked b s
      → Booked b (clone_machines lowercase (journaled b) environment repository requested count s).1
  clone_machines-Booked lowercase environment repository requested count s h =
      (clone_machines-Tracked (journal_laws b) lowercase environment repository requested count s
        (of_Booked s h)).tracks

  -- For every backend, whatever its operations do and whichever of them fail: if before an `init` each
  -- machine whose storage was committed with success, and not removed with success since, has a record
  -- in the state, so it is after the `init`, its roll-back included.
  pub init-Booked :
      (name environment : Str) (s : Locked (journaled b))
      → Booked b s
      → Booked b (init (journaled b) name environment s).1
  init-Booked name environment s h =
      (init-Tracked (journal_laws b) name environment s (of_Booked s h)).tracks

  -- For every backend, whatever its operations do and whichever of them fail: if before an `rm` each
  -- machine whose storage was committed with success, and not removed with success since, has a record
  -- in the state, so it is after the `rm`.
  pub remove-Booked :
      (name : Str) (force : Bool) (s : Locked (journaled b))
      → Booked b s
      → Booked b (remove (journaled b) name force s).1
  remove-Booked name force s h =
      (remove-Tracked (journal_laws b) name force s (of_Booked s h)).tracks
