-- ===== src/Host/State/Saved.antt =====
-- What a save leaves in the state file, whatever breaks off.
use mathlib.Core.Path.{subst}
use spawnr.Prelude.{
  ◌≡◌, refl, sym, ap, ◌∙◌, ◌⊎◌, inl, inr, true, false, none, some, [], ◌∷◌, ◌++◌, Result, ok, err,
}
use spawnr.Prelude.Text.{Str, codes}
use spawnr.Prelude.Actions.{◌>>◌, After, >>=-Triple}
use spawnr.Host.Files.{PathBuf, Node, file, Error, Nodes, Disk, path_eq, set, is_directory}
use spawnr.Host.Files.Calls.{sync, rename, remove_file}
use spawnr.Host.Files.Places.{path_eq-append, path_eq_refl, set-same, set-other}
use spawnr.Host.Files.Frame.{Zone, Inner, Local, >>=-Local}
use spawnr.Host.Files.Local.{create_new-Local, write_all-Local, sync-Local, remove_file-Local}
use spawnr.Host.Files.Known.{
  Facts, learn, Knows, Learns, create_new-Learns, write_all-Learns, sync-Learns,
}
use spawnr.Host.Files.Trees.{rename-Ends}
use spawnr.Host.Files.Looks.{Ends, >>=-Ends, or_undo-Ends, sync-Looks}
use spawnr.Host.State.Store.{
  State, StateStore, state_file, temporary_state_path, write_temporary, replace, save,
}

module _ (store : StateStore) (state : State) where
  -- The file that a save means to leave.
  abbrev pub new_file : Node
  new_file = file 384 (store.json.to_vec_pretty state ++ (10 ∷ []))

  module _ (uuid : Str) where
    abbrev temporary : PathBuf
    temporary = temporary_state_path store uuid

    abbrev name : PathBuf
    name = (codes ".state.json." ++ store.process_id ++ codes "." ++ uuid ++ codes ".tmp") ∷ []

    abbrev own : Zone
    own = record { inside = λ q. path_eq temporary q; root = store.root }

    own_inner : Inner own temporary
    unfolding path_eq
    own_inner = record {
      inner = path_eq_refl temporary;
      not_root = path_eq-append name [] store.root;
    }

    write_temporary-Local : Local own (write_temporary store temporary state)
    unfolding write_temporary
    write_temporary-Local =
        >>=-Local own
          (>>=-Local own
            (>>=-Local own (create_new-Local own store.device temporary own_inner)
              (λ done. write_all-Local own store.device temporary _ own_inner))
            (λ done. write_all-Local own store.device temporary (10 ∷ []) own_inner))
          (λ done. sync-Local own store.device temporary)

    abbrev written : Facts
    written = learn name new_file (
        learn name (file 384 (store.json.to_vec_pretty state))
          (learn name (file 384 []) (λ q. none)))

    own_write : (p : PathBuf) (new : Node) (k : Facts) → learn p new k p ≡ some (some new)
    own_write p new k = rw (path_eq_refl p) refl

    write_temporary-Learns :
        Learns store.root (λ q. none) (write_temporary store temporary state) written
    unfolding write_temporary
    write_temporary-Learns =
        >>=-Triple
          (>>=-Triple
            (>>=-Triple (create_new-Learns store.root store.device name (λ q. none)) (λ done.
              write_all-Learns store.root store.device name (store.json.to_vec_pretty state) [] 384
                _ (own_write name (file 384 []) (λ q. none))))
            (λ done.
              write_all-Learns store.root store.device name (10 ∷ [])
                (store.json.to_vec_pretty state) 384 _
                (own_write name (file 384 (store.json.to_vec_pretty state))
                  (learn name (file 384 []) (λ q. none)))))
          (λ done. sync-Learns store.root store.device temporary _)

    After-ok :
        (v : Result Error (Unit {0})) (t : Disk) {a : Unit {0}}
        → After (λ u. Unit {0}) (λ b. Knows store.root written) v t
        → v ≡ ok a
        → t.nodes temporary ≡ some new_file
    After-ok (ok u) t h e = h.known name (some new_file) (
        own_write name new_file (
          learn name (file 384 (store.json.to_vec_pretty state))
            (learn name (file 384 []) (λ q. none))))
    After-ok (err x) t h e = cc

    -- No entry but the temporary file and the state file differs, and the state file is the old or
    -- the new one.
    pub record Between (before n : Nodes) : Type 0 where
      pub others :
          (q : PathBuf)
          → path_eq temporary q ≡ false
          → path_eq (state_file store) q ≡ false
          → n q ≡ before q
      pub whole :
          (n (state_file store) ≡ before (state_file store))
          ⊎ (n (state_file store) ≡ some new_file)

    Body : Nodes → Result Error (Unit {0}) → Nodes → Type 0
    Body before (ok u) n = Between before n × (n (state_file store) ≡ some new_file)
    Body before (err e) n = Between before n

    apart_names : path_eq temporary (state_file store) ≡ false
    unfolding path_eq
    apart_names = path_eq-append name (codes "state.json" ∷ []) store.root

    swap_ends :
        (before n m : Nodes)
        → ((q : PathBuf) → path_eq temporary q ≡ false → n q ≡ before q)
        → m ≡ set temporary none (set (state_file store) (some new_file) n)
        → Body before (ok tt) m
    unfolding Body
    swap_ends before n m kept e =
        let there =
          ap (λ f. f (state_file store)) e
          ∙ set-other temporary (state_file store) none _ apart_names
          ∙ set-same (state_file store) (some new_file) n in
        (
          record {
            others = λ q h k.
                ap (λ f. f q) e
                ∙ set-other temporary q none _ h
                ∙ set-other (state_file store) q (some new_file) n k
                ∙ kept q h;
            whole = inr there;
          },
          there,
        )

    kept_Between :
        (before n : Nodes)
        → ((q : PathBuf) → path_eq temporary q ≡ false → n q ≡ before q)
        → Between before n
    kept_Between before n kept = record {
      others = λ q h k. kept q h;
      whole = inl (kept (state_file store) apart_names);
    }

    -- The entries after the temporary file is written: only it differs, and it is complete on success.
    First : Nodes → Result Error (Unit {0}) → Nodes → Type 0
    First before (ok u) n =
        ((q : PathBuf) → path_eq temporary q ≡ false → n q ≡ before q)
        × (n temporary ≡ some new_file)
    First before (err e) n = (q : PathBuf) → path_eq temporary q ≡ false → n q ≡ before q

    First-done :
        (before : Nodes) (v : Result Error (Unit {0})) (t : Disk)
        → After (λ u. Unit {0}) (λ b. Knows store.root written) v t
        → ((q : PathBuf) → path_eq temporary q ≡ false → t.nodes q ≡ before q)
        → First before v t.nodes
    unfolding First
    First-done before (ok u) t h kept = (kept, After-ok (ok u) t h refl)
    First-done before (err e) t h kept = kept

    First-Ends :
        (t : Disk)
        → is_directory (t.nodes store.root) ≡ true
        → Ends (First t.nodes) (write_temporary store temporary state t)
    First-Ends t rooted =
        First-done t.nodes _ _ (write_temporary-Learns.holds t (record { known = λ p n x. cc }))
          (write_temporary-Local.local t rooted).frame

    half-Ends :
        (t : Disk)
        → is_directory (t.nodes store.root) ≡ true
        → Ends (Body t.nodes) (
            (write_temporary store temporary state
                >> rename store.device temporary (state_file store))
              t)
    unfolding Body First
    half-Ends t rooted =
        let n = (write_temporary store temporary state t).1.nodes in
        >>=-Ends (write_temporary store temporary state)
          (λ done. rename store.device temporary (state_file store)) t (Body t.nodes)
          (λ x e. kept_Between t.nodes n (subst (λ v. First t.nodes v n) e (First-Ends t rooted)))
          (λ a e.
            let (kept, there) = subst (λ v. First t.nodes v n) e (First-Ends t rooted) in
            rename-Ends store.device temporary (state_file store) _ (Body t.nodes)
              (λ x. kept_Between t.nodes n kept)
              (λ m old h g.
                swap_ends t.nodes n m kept
                  (g ∙ ap (λ o. set temporary none (set (state_file store) o n)) (sym h ∙ there))))

    synced :
        (before n m : Nodes) (v : Result Error (Unit {0}))
        → Body before (ok tt) n
        → m ≡ n
        → Body before v m
    unfolding Body
    synced before n m (ok u) h e = subst (λ x. Body before (ok tt) x) (sym e) h
    synced before n m (err x) (h, there) e = subst (λ y. Between before y) (sym e) h

    replace-Body :
        (t : Disk)
        → is_directory (t.nodes store.root) ≡ true
        → Ends (Body t.nodes) (replace store temporary state t)
    unfolding replace Body
    replace-Body t rooted =
        let half =
          write_temporary store temporary state
          >> rename store.device temporary (state_file store) in
        >>=-Ends half (λ done. sync store.device store.root) t (Body t.nodes)
          (λ x e. subst (λ v. Body t.nodes v (half t).1.nodes) e (half-Ends t rooted))
          (λ a e.
            synced t.nodes (half t).1.nodes _ _
              (subst (λ v. Body t.nodes v (half t).1.nodes) e (half-Ends t rooted))
              ((sync-Looks store.device store.root).same _))

    removed_Between :
        (before : Nodes) (t : Disk)
        → is_directory (before store.root) ≡ true
        → Between before t.nodes
        → Between before (remove_file store.device temporary t).1.nodes
    unfolding path_eq
    removed_Between before t rooted h =
        let same =
          h.others store.root (path_eq-append name [] store.root)
            (path_eq-append (codes "state.json" ∷ []) [] store.root) in
        let kept =
          (remove_file-Local own store.device temporary own_inner).local t
            (ap is_directory same ∙ rooted) in
        record {
          others = λ q a b. kept.frame q a ∙ h.others q a b;
          whole =
              subst (λ o. (o ≡ before (state_file store)) ⊎ (o ≡ some new_file))
                (sym (kept.frame (state_file store) apart_names)) h.whole;
        }

  -- The state file after a save: the new state on success, and otherwise the old or the new one.
  unfoldable pub SaveEnds : Nodes → Result Error (Unit {0}) → Nodes → Type 0
  SaveEnds before (ok u) n = n (state_file store) ≡ some new_file
  SaveEnds before (err e) n =
      (n (state_file store) ≡ before (state_file store)) ⊎ (n (state_file store) ≡ some new_file)

  -- Where the data directory is there, and whatever breaks off, a kill of the process included: a save
  -- that succeeds leaves exactly the new state in the state file, and any other leaves the old file as
  -- it was or the new one, complete; never a part of one.
  pub save-SaveEnds :
      (t : Disk)
      → is_directory (t.nodes store.root) ≡ true
      → Ends (SaveEnds t.nodes) (save store state t)
  unfolding save SaveEnds Body
  save-SaveEnds t rooted =
      let uuid = store.new_uuid t.clock in
      or_undo-Ends (replace store (temporary uuid) state)
        (remove_file store.device (temporary uuid)) t (SaveEnds t.nodes)
        (λ a e.
          (subst (λ v. Body uuid t.nodes v (replace store (temporary uuid) state t).1.nodes) e
            (replace-Body uuid t rooted)).1)
        (λ x e.
          (removed_Between uuid t.nodes _ rooted (
            subst (λ v. Body uuid t.nodes v (replace store (temporary uuid) state t).1.nodes) e
              (replace-Body uuid t rooted))).whole)
