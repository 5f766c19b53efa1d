-- ===== src/Host/State/Reread.antt =====
-- What is read after a save.
use mathlib.Core.Path.{subst}
use spawnr.Prelude.{
  ℕ, ◌≡◌, ap, ◌∙◌, ==_iff, true, none, some, List, [], ◌∷◌, ◌++◌, ok, err, if◌then◌else◌,
}
use spawnr.Prelude.Actions.{◌>>=◌, give, attempt}
use spawnr.Host.Files.{state_schema, Disk, is_directory, reading, look-works}
use spawnr.Host.Files.Calls.{read_to_end, followed}
use spawnr.Host.Files.Looks.{>>=-goes_on}
use spawnr.Host.State.{schema_version}
use spawnr.Host.State.Saved.{new_file, SaveEnds, save-SaveEnds}
use spawnr.Host.State.Store.{
  State, StateStore, state_file, contents_of, decoded, supported, save, read,
}

module _ (store : StateStore) (state : State) where
  from_file :
      {content : List ℕ}
      → state.schema ≡ schema_version
      → store.json.from_slice content ≡ some state
      → decoded store.json (some content) ≡ ok state
  unfolding decoded
  from_file schema h =
      ap supported h
      ∙ ap (λ b. if b then ok state else err state_schema)
          ((==_iff state.schema schema_version).1 schema)

  read_back :
      (t : Disk)
      → ((now : ℕ) → store.device.breaks now reading (state_file store) ≡ none)
      → state.schema ≡ schema_version
      → t.nodes (state_file store) ≡ some (new_file store state)
      → (read store t).0 ≡ ok state
  unfolding read read_to_end attempt give ◌>>=◌ decoded contents_of
  read_back t works schema there =
      >>=-goes_on (attempt (read_to_end store.device (state_file store)))
        (λ content. give (contents_of content) >>= λ found. give (decoded store.json found)) t
        (ok (store.json.to_vec_pretty state ++ (10 ∷ [])))
        (ap ok (
          look-works store.device reading (state_file store) _ t (works t.clock)
          ∙ ap followed there))
        (from_file schema (store.json.from_slice-to_vec_pretty state))

  -- Where the data directory is there and the state file can be read: a state of this schema that is
  -- saved is what the next read gives.
  pub read-save :
      (t : Disk)
      → is_directory (t.nodes store.root) ≡ true
      → ((now : ℕ) → store.device.breaks now reading (state_file store) ≡ none)
      → state.schema ≡ schema_version
      → (save store state t).0 ≡ ok tt
      → (read store (save store state t).1).0 ≡ ok state
  unfolding SaveEnds
  read-save t rooted works schema saved = read_back (save store state t).1 works schema (
      subst (λ v. SaveEnds store state t.nodes v (save store state t).1.nodes) saved
        (save-SaveEnds store state t rooted))
