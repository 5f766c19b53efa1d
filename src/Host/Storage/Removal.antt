-- ===== src/Host/Storage/Removal.antt =====
-- Which directories a removal and a cleared session can change.
use mathlib.Core.Path.{subst}
use spawnr.Prelude.{
  ℕ, ◌≡◌, refl, sym, ap, ◌∙◌, ◌⊎◌, inl, inr, true, false, Option, [], ◌∷◌, Result, ok, err,
  err-ne-ok,
}
use spawnr.Prelude.Text.{codes}
use spawnr.Prelude.Actions.{◌>>=◌, ◌>>◌, give, attempt}
use spawnr.Host.State.{MachineRecord}
use spawnr.Host.Files.{PathBuf, Node, Error, Nodes, Disk, path_eq, under, without, is_directory}
use spawnr.Host.Files.Calls.{Io, remove_dir_all, sync, symlink_metadata, create_private_dir}
use spawnr.Host.Files.Places.{path_eq-append, under_refl, under-append, under-above, without-other}
use spawnr.Host.Files.Frame.{Zone, Inner, Local, >>=-Local, give-Local, attempt-Local}
use spawnr.Host.Files.Local.{
  Tree, remove_dir_all-Local, create_private_dir-Local, sync-Local, symlink_metadata-Local,
}
use spawnr.Host.Files.Trees.{Removable, remove_dir_all-nodes, remove_dir_all-Ends}
use spawnr.Host.Files.Looks.{Ends, >>=-Ends, sync-Looks}
use spawnr.Host.Storage.{
  Site, for_record, assert_owned, discard_session, clear_session, remove, domain_of,
  write_domain_marker, session, domain_file, real_directory,
}
use spawnr.Host.Storage.Layout.{IsPrivate, Owned}
use spawnr.Host.Storage.Checks.{assert_owned-Looks, assert_owned-eq_ok}
use spawnr.Host.Storage.Accepted.{Readable, assert_owned-accepts}
use spawnr.Host.Storage.Region.{write_json_new-Local}

pub is_directory-IsPrivate : {euid : ℕ} {o : Option Node} → IsPrivate euid o → is_directory o ≡ true
is_directory-IsPrivate i = ap is_directory i.is_there

module _ (s : Site) (r : MachineRecord) where
  unfoldable pub RemoveEnds : Nodes → Result Error (Unit {0}) → Nodes → Type 0
  RemoveEnds before (ok u) n =
      Owned s (for_record s r) r before
      × ((q : PathBuf) → n q ≡ without (for_record s r).root (λ p. false) before q)
  RemoveEnds before (err e) n =
      (Owned s (for_record s r) r before ⊎ (n ≡ before))
      × ((q : PathBuf) → under (for_record s r).root q ≡ false → n q ≡ before q)

  TreeEnds : Nodes → Result Error (Unit {0}) → Nodes → Type 0
  TreeEnds before (ok u) n = n ≡ without (for_record s r).root (λ p. false) before
  TreeEnds before (err e) n = (q : PathBuf) → under (for_record s r).root q ≡ false → n q ≡ before q

  tree_ends :
      (t : Disk)
      → Owned s (for_record s r) r t.nodes
      → Ends (TreeEnds t.nodes) (remove_dir_all s.device (for_record s r).root t)
  unfolding TreeEnds
  tree_ends t o =
      remove_dir_all-Ends s.device (for_record s r).root t (TreeEnds t.nodes)
        (is_directory-IsPrivate o.directory) (λ e q h. refl)
        (λ kept q h. without-other (for_record s r).root q kept t.nodes h) refl

  synced :
      (before : Nodes) (v : Result Error (Unit {0})) (n : Nodes)
      → Owned s (for_record s r) r before
      → n ≡ without (for_record s r).root (λ p. false) before
      → RemoveEnds before v n
  unfolding RemoveEnds
  synced before (ok u) n o e = (o, λ q. ap (λ f. f q) e)
  synced before (err x) n o e =
      (inl o, λ q h. ap (λ f. f q) e ∙ without-other (for_record s r).root q (λ p. false) before h)

  tree_failed :
      (before : Nodes) (v : Result Error (Unit {0})) (n : Nodes) {x : Error}
      → Owned s (for_record s r) r before
      → TreeEnds before v n
      → v ≡ err x
      → RemoveEnds before (err x) n
  unfolding TreeEnds RemoveEnds
  tree_failed before (ok u) n o h e = cc
  tree_failed before (err y) n o h e = (inl o, h)

  tree_done :
      (before : Nodes) (v : Result Error (Unit {0})) (n : Nodes) {a : Unit {0}}
      → TreeEnds before v n
      → v ≡ ok a
      → n ≡ without (for_record s r).root (λ p. false) before
  unfolding TreeEnds
  tree_done before (ok u) n h e = h
  tree_done before (err y) n h e = cc

  remove-step :
      (t : Disk)
      → Owned s (for_record s r) r t.nodes
      → Ends
          (RemoveEnds t.nodes)
          ((remove_dir_all s.device (for_record s r).root >> sync s.device s.machines_dir) t)
  remove-step t o =
      >>=-Ends (remove_dir_all s.device (for_record s r).root)
        (λ done. sync s.device s.machines_dir) t (RemoveEnds t.nodes)
        (λ x e. tree_failed t.nodes _ _ o (tree_ends t o) e)
        (λ a e.
          synced t.nodes _ _ o
            ((sync-Looks s.device s.machines_dir).same _ ∙ tree_done t.nodes _ _ (tree_ends t o) e))

  not_removed : (before : Nodes) (x : Error) (n : Nodes) → n ≡ before → RemoveEnds before (err x) n
  unfolding RemoveEnds
  not_removed before x n e = (inr e, λ q h. ap (λ f. f q) e)

  -- Whatever breaks off: a removal that succeeds found the record's marker, and removes the machine's
  -- directory with everything below it and nothing else. One that fails has changed nothing, or found
  -- the marker, and has changed nothing outside the directory.
  pub remove-RemoveEnds : (t : Disk) → Ends (RemoveEnds t.nodes) (remove s (for_record s r) r t)
  unfolding remove for_record ◌>>=◌ give
  remove-RemoveEnds t =
      >>=-Ends (assert_owned s (for_record s r) r)
        (λ done. remove_dir_all s.device (for_record s r).root >> sync s.device s.machines_dir) t
        (RemoveEnds t.nodes)
        (λ x e. not_removed t.nodes x _ ((assert_owned-Looks s (for_record s r) r).same t))
        (λ a e.
          let same = (assert_owned-Looks s (for_record s r) r).same t in
          subst
            (λ n. Ends (RemoveEnds n) (
              (remove_dir_all s.device (for_record s r).root >> sync s.device s.machines_dir)
                (assert_owned s (for_record s r) r t).1))
            same
            (remove-step _ (
              subst (λ n. Owned s (for_record s r) r n) (sym same)
                (assert_owned-eq_ok s (for_record s r) r t e))))

  -- A removal that does not break off removes the directory, whether or not the result says so.
  pub remove-nodes :
      (t : Disk)
      → Owned s (for_record s r) r t.nodes
      → Readable s.device (for_record s r).root
      → Readable s.device (for_record s r).owner_marker
      → Removable s.device (for_record s r).root
      → (remove s (for_record s r) r t).1.nodes ≡ without (for_record s r).root (λ p. false) t.nodes
  unfolding remove for_record ◌>>=◌ give
  remove-nodes t o a b d =
      let root = (for_record s r).root in
      let same = (assert_owned-Looks s (for_record s r) r).same t in
      let accepted = assert_owned-accepts s (for_record s r) r t a b o in
      let gone = λ (u : Disk) (e : u.nodes ≡ t.nodes).
        remove_dir_all-nodes s.device root u d
          (ap (λ n. is_directory (n root)) e ∙ is_directory-IsPrivate o.directory)
        ∙ ap (without root (λ p. false)) e in
      >>=-Ends (assert_owned s (for_record s r) r)
        (λ done. remove_dir_all s.device root >> sync s.device s.machines_dir) t
        (λ v n. n ≡ without root (λ p. false) t.nodes)
        (λ x e. elim (err-ne-ok (sym e ∙ accepted)) [ ])
        (λ u e.
          >>=-Ends (remove_dir_all s.device root) (λ done. sync s.device s.machines_dir) _
            (λ v n. n ≡ without root (λ p. false) t.nodes) (λ x k. gone _ same)
            (λ w k. (sync-Looks s.device s.machines_dir).same _ ∙ gone _ same))

  -- The session's directory, and what stands below it.
  abbrev session_zone : Zone
  session_zone = record {
    inside = under (codes "session" ∷ s.uuid_text r.id ∷ s.machines_dir);
    root = s.uuid_text r.id ∷ s.machines_dir;
  }

  session_inner : Inner session_zone (codes "session" ∷ s.uuid_text r.id ∷ s.machines_dir)
  unfolding path_eq
  session_inner = record {
    inner = under_refl (codes "session" ∷ s.uuid_text r.id ∷ s.machines_dir);
    not_root = path_eq-append (codes "session" ∷ []) [] (s.uuid_text r.id ∷ s.machines_dir);
  }

  marker_inner :
      Inner session_zone (domain_file ∷ codes "session" ∷ s.uuid_text r.id ∷ s.machines_dir)
  unfolding path_eq
  marker_inner = record {
    inner = under-append (codes "session" ∷ s.uuid_text r.id ∷ s.machines_dir) (domain_file ∷ []);
    not_root =
        path_eq-append (domain_file ∷ codes "session" ∷ []) [] (s.uuid_text r.id ∷ s.machines_dir);
  }

  session-Tree : Tree session_zone (codes "session" ∷ s.uuid_text r.id ∷ s.machines_dir)
  session-Tree = record {
    inner = session_inner;
    below = λ q h. h;
    root_out = under-above (codes "session") (s.uuid_text r.id ∷ s.machines_dir);
  }

  discard_session-Local :
      (v : Result Error Node) → Local session_zone (discard_session s (for_record s r) v)
  unfolding discard_session for_record
  discard_session-Local (ok metadata) =
      >>=-Local session_zone (give-Local session_zone (real_directory metadata))
        (λ done. remove_dir_all-Local session_zone s.device _ session-Tree)
  discard_session-Local (err e) = give-Local session_zone (ok tt)

  -- What `clear_session` does after the check of the ownership.
  cleared : Io (Unit {0})
  cleared =
      (attempt (symlink_metadata s.device (for_record s r).session_dir) >>= λ metadata.
      discard_session s (for_record s r) metadata)
      >> create_private_dir s.device (for_record s r).session_dir
      >> write_domain_marker s r session (for_record s r).session_dir
      >> sync s.device (for_record s r).root

  cleared-Local : Local session_zone cleared
  unfolding cleared for_record write_domain_marker
  cleared-Local =
      let z = session_zone in
      >>=-Local z
        (>>=-Local z
          (>>=-Local z
            (>>=-Local z (attempt-Local z (symlink_metadata-Local z s.device _))
              (λ m. discard_session-Local m))
            (λ done.
              create_private_dir-Local z s.device (codes "session")
                (s.uuid_text r.id ∷ s.machines_dir) session_inner refl))
          (λ done. write_json_new-Local s z s.domain_json _ (domain_of r session) marker_inner))
        (λ done. sync-Local z s.device _)

  -- Whatever breaks off and however it ends: the session is cleared only in a directory that carries
  -- the record's marker, where otherwise nothing changes, and every entry outside the session's own
  -- directory, so the disks, the markers and the other machines, stays as it was.
  pub clear_session-confined :
      (t : Disk)
      → Ends
          (λ v n.
            (Owned s (for_record s r) r t.nodes ⊎ (n ≡ t.nodes))
            × ((q : PathBuf) → under (for_record s r).session_dir q ≡ false → n q ≡ t.nodes q))
          (clear_session s (for_record s r) r t)
  unfolding clear_session for_record cleared ◌>>=◌
  clear_session-confined t =
      let same = (assert_owned-Looks s (for_record s r) r).same t in
      >>=-Ends (assert_owned s (for_record s r) r) (λ done. cleared) t
        (λ v n.
          (Owned s (for_record s r) r t.nodes ⊎ (n ≡ t.nodes))
          × ((q : PathBuf) → under (for_record s r).session_dir q ≡ false → n q ≡ t.nodes q))
        (λ x e. (inr same, λ q h. ap (λ f. f q) same))
        (λ a e.
          let o = assert_owned-eq_ok s (for_record s r) r t e in
          let u = (assert_owned s (for_record s r) r t).1 in
          (
            inl o,
            λ q h.
                (cleared-Local.local u (
                    ap (λ n. is_directory (n (for_record s r).root)) same
                    ∙ is_directory-IsPrivate o.directory)).frame
                  q h
                ∙ ap (λ f. f q) same,
          ))
