-- ===== src/Host/Files/Local.antt =====
-- What each operation of `std::fs` changes: at most the entry at its path, or the tree below it.
use spawnr.Prelude.{
  ℕ, ◌≡◌, refl, sym, ap, ◌∙◌, Bool, true, false, Option, none, some, List, [], ◌∷◌, Result, ok, err,
  inl, inr, ◌++◌, ◌⊎◌, take, ok-injective,
}
use mathlib.Core.Path.{subst}
use spawnr.Prelude.Text.{Str}
use spawnr.Host.Files.{
  PathBuf, Node, directory, file, link, nothing, a_file, a_directory, Error, placed, made_all,
  Operation, making, writing, securing, linking, deleting, syncing, reading, inspecting, Break,
  Nodes, Device, under, set, place, make_all, without, removed_tree, removed_file, secured, edited,
  linked_to, change, is_directory, parent_is_directory, path_eq, Disk, change_cases,
}
use spawnr.Host.Files.Calls.{
  symlink_metadata, create_dir, create_dir_all, set_permissions, create_private_dir, remove_dir_all,
  remove_file, create_new, write_all, rewrite, sync, hard_link, read_regular, unchanged, entry,
  regular,
}
use spawnr.Host.Files.Places.{set-same, set-other, without-other}
use spawnr.Host.Files.Frame.{
  Zone, Kept, Kept-refl, Inner, set-Kept, Local, change-Local, look-Local, >>=-Local, apart,
}

-- At most the entry at `p` differs.
abbrev pub OneAt : PathBuf → Nodes → Nodes → Type 0
OneAt p n m = (m ≡ n) ⊎ ((x : Option Node) × (m ≡ set p x n))

-- What a successful operation leaves.
abbrev pub OneIn : PathBuf → Nodes → Result Error Nodes → Type 0
OneIn p n (ok m) = OneAt p n m
OneIn p n (err e) = Unit {0}

one :
    (p : PathBuf) (n : Nodes) (v : Result Error Nodes) {m : Nodes}
    → OneIn p n v
    → v ≡ ok m
    → OneAt p n m
one p n v {m} i e = subst (λ x. OneIn p n x) e i

placed_one :
    (o : Option Node) (b : Bool) (x : Option Node) (p : PathBuf) (n : Nodes)
    → OneIn p n (placed o b (set p x n))
unfolding placed
placed_one (some old) b x p n = tt
placed_one none true x p n = inr (x, refl)
placed_one none false x p n = tt

place_one : (new : Node) (p : PathBuf) (n : Nodes) → OneIn p n (place new p n)
unfolding place
place_one new p n = placed_one (n p) (parent_is_directory p n) (some new) p n

removed_file_one : (o : Option Node) (p : PathBuf) (n : Nodes) → OneIn p n (removed_file o p n)
unfolding removed_file
removed_file_one none p n = tt
removed_file_one (some (directory mode uid)) p n = tt
removed_file_one (some (file mode content)) p n = inr (none, refl)
removed_file_one (some (link t)) p n = inr (none, refl)

secured_one :
    (mode : ℕ) (o : Option Node) (p : PathBuf) (n : Nodes) → OneIn p n (secured mode o p n)
unfolding secured
secured_one mode none p n = tt
secured_one mode (some (directory old uid)) p n = inr (some (directory mode uid), refl)
secured_one mode (some (file old content)) p n = inr (some (file mode content), refl)
secured_one mode (some (link nothing)) p n = tt
secured_one mode (some (link a_file)) p n = inl refl
secured_one mode (some (link a_directory)) p n = inl refl

secured_directory :
    (mode : ℕ) (o : Option Node) (p : PathBuf) (n m : Nodes)
    → is_directory o ≡ true
    → secured mode o p n ≡ ok m
    → (uid : ℕ) × (m ≡ set p (some (directory mode uid)) n)
unfolding secured
secured_directory mode none p n m h e = cc
secured_directory mode (some (directory old uid)) p n m h e = (uid, sym (ok-injective e))
secured_directory mode (some (file old content)) p n m h e = cc
secured_directory mode (some (link l)) p n m h e = cc

edited_one :
    (edit : List ℕ → List ℕ) (o : Option Node) (p : PathBuf) (n : Nodes)
    → OneAt p n (edited edit o p n)
unfolding edited
edited_one edit none p n = inl refl
edited_one edit (some (directory mode uid)) p n = inl refl
edited_one edit (some (file mode content)) p n = inr (some (file mode (edit content)), refl)
edited_one edit (some (link t)) p n = inl refl

linked_one : (o : Option Node) (p : PathBuf) (n : Nodes) → OneIn p n (linked_to o p n)
unfolding linked_to
linked_one none p n = tt
linked_one (some (directory mode uid)) p n = tt
linked_one (some (file mode content)) p n = place_one (file mode content) p n
linked_one (some (link t)) p n = place_one (link t) p n

made_one :
    (o : Option Node) (new : Node) (p : PathBuf) (n : Nodes) → OneIn p n (made_all o new p n (ok n))
unfolding made_all
made_one none new p n = inr (some new, refl)
made_one (some (directory mode uid)) new p n = inl refl
made_one (some (file mode content)) new p n = tt
made_one (some (link nothing)) new p n = tt
made_one (some (link a_file)) new p n = tt
made_one (some (link a_directory)) new p n = inl refl

kept_directory :
    (o : Option Node) (new : Node) (p : PathBuf) (n : Nodes) (v : Result Error Nodes)
    → is_directory o ≡ true
    → made_all o new p n v ≡ ok n
unfolding made_all
kept_directory none new p n v h = cc
kept_directory (some (directory mode uid)) new p n v h = refl
kept_directory (some (file mode content)) new p n v h = cc
kept_directory (some (link t)) new p n v h = cc

pub above_same :
    (new : Node) (p : PathBuf) (n : Nodes) → is_directory (n p) ≡ true → make_all new p n ≡ ok n
unfolding make_all
above_same new [] n h = refl
above_same new (x ∷ p) n h = kept_directory (n (x ∷ p)) new (x ∷ p) n (make_all new p n) h

-- Where the parent is a directory already, no other one is made.
make_all_one :
    (new : Node) (x : Str) (p : PathBuf) (n : Nodes)
    → is_directory (n p) ≡ true
    → OneIn (x ∷ p) n (make_all new (x ∷ p) n)
unfolding make_all
make_all_one new x p n h = rw (above_same new p n h) (made_one (n (x ∷ p)) new (x ∷ p) n)

module _ (z : Zone) where
  OneAt-Kept : (p : PathBuf) (n m : Nodes) → Inner z p → OneAt p n m → Kept z n m
  OneAt-Kept p n m i (inl e) = subst (λ x. Kept z n x) (sym e) (Kept-refl z n)
  OneAt-Kept p n m i (inr (x, e)) = subst (λ y. Kept z n y) (sym e) (set-Kept z p x n i)

  -- A whole tree of the zone.
  pub record Tree (p : PathBuf) : Type 0 where
    pub inner : Inner z p
    pub below : (q : PathBuf) → z.inside q ≡ false → under p q ≡ false
    pub root_out : under p z.root ≡ false

  without-Kept :
      (p : PathBuf) (kept : PathBuf → Bool) (n : Nodes) → Tree p → Kept z n (without p kept n)
  without-Kept p kept n t = record {
    frame = λ q h. without-other p q kept n (t.below q h);
    rooted = λ h. rw (without-other p z.root kept n t.root_out) h;
  }

  removed_tree-Kept :
      (o : Option Node) (p : PathBuf) (n m : Nodes)
      → Tree p
      → removed_tree o p n ≡ ok m
      → Kept z n m
  unfolding removed_tree
  removed_tree-Kept none p n m t e = cc
  removed_tree-Kept (some (directory mode uid)) p n m t e =
      subst (λ x. Kept z n x) (ok-injective e) (without-Kept p (λ q. false) n t)
  removed_tree-Kept (some (file mode content)) p n m t e = cc
  removed_tree-Kept (some (link l)) p n m t e =
      subst (λ x. Kept z n x) (ok-injective e) (set-Kept z p none n t.inner)

  module _ (d : Device) where
    one-Local :
        (op : Operation) (p : PathBuf) (part : Break → Nodes → Nodes)
        (effect : Nodes → Result Error Nodes)
        → Inner z p
        → ((n : Nodes) (b : Break) → OneAt p n (part b n))
        → ((n : Nodes) → is_directory (n z.root) ≡ true → OneIn p n (effect n))
        → Local z (change d op p part effect)
    one-Local op p part effect i broken done =
        change-Local z d op p part effect (λ n b. OneAt-Kept p n (part b n) i (broken n b))
          (λ n m h e. OneAt-Kept p n m i (one p n (effect n) (done n h) e))

    pub create_dir-Local : (p : PathBuf) → Inner z p → Local z (create_dir d p)
    unfolding create_dir
    create_dir-Local p i =
        one-Local making p unchanged (place (directory d.directory_mode d.euid) p) i
          (λ n b. inl refl) (λ n h. place_one (directory d.directory_mode d.euid) p n)

    pub create_dir_all-Local :
        (x : Str) (p : PathBuf) → Inner z (x ∷ p) → z.root ≡ p → Local z (create_dir_all d (x ∷ p))
    unfolding create_dir_all
    create_dir_all-Local x p i e =
        one-Local making (x ∷ p) unchanged (make_all (directory d.directory_mode d.euid) (x ∷ p)) i
          (λ n b. inl refl)
          (λ n h.
            make_all_one (directory d.directory_mode d.euid) x p n
              (subst (λ r. is_directory (n r) ≡ true) e h))

    pub remove_file-Local : (p : PathBuf) → Inner z p → Local z (remove_file d p)
    unfolding remove_file
    remove_file-Local p i =
        one-Local deleting p unchanged (λ n. removed_file (n p) p n) i (λ n b. inl refl)
          (λ n h. removed_file_one (n p) p n)

    pub set_permissions-Local :
        (p : PathBuf) (mode : ℕ) → Inner z p → Local z (set_permissions d p mode)
    unfolding set_permissions
    set_permissions-Local p mode i =
        one-Local securing p unchanged (λ n. secured mode (n p) p n) i (λ n b. inl refl)
          (λ n h. secured_one mode (n p) p n)

    pub create_new-Local : (p : PathBuf) → Inner z p → Local z (create_new d p)
    unfolding create_new
    create_new-Local p i =
        one-Local making p unchanged (place (file 384 []) p) i (λ n b. inl refl)
          (λ n h. place_one (file 384 []) p n)

    pub write_all-Local : (p : PathBuf) (text : List ℕ) → Inner z p → Local z (write_all d p text)
    unfolding write_all
    write_all-Local p text i =
        one-Local writing p (λ b n. edited (λ old. old ++ take b.written text) (n p) p n)
          (λ n. ok (edited (λ old. old ++ text) (n p) p n)) i
          (λ n b. edited_one (λ old. old ++ take b.written text) (n p) p n)
          (λ n h. edited_one (λ old. old ++ text) (n p) p n)

    pub rewrite-Local :
        (p : PathBuf) (edit : List ℕ → List ℕ) → Inner z p → Local z (rewrite d p edit)
    unfolding rewrite
    rewrite-Local p edit i =
        one-Local writing p unchanged (λ n. ok (edited edit (n p) p n)) i (λ n b. inl refl)
          (λ n h. edited_one edit (n p) p n)

    pub hard_link-Local : (t p : PathBuf) → Inner z p → Local z (hard_link d t p)
    unfolding hard_link
    hard_link-Local t p i =
        one-Local linking p unchanged (λ n. linked_to (n t) p n) i (λ n b. inl refl)
          (λ n h. linked_one (n t) p n)

    pub remove_dir_all-Local : (p : PathBuf) → Tree p → Local z (remove_dir_all d p)
    unfolding remove_dir_all
    remove_dir_all-Local p t =
        change-Local z d deleting p (λ b n. without p b.left n) (λ n. removed_tree (n p) p n)
          (λ n b. without-Kept p b.left n t) (λ n m h e. removed_tree-Kept (n p) p n m t e)

    pub sync-Local : (p : PathBuf) → Local z (sync d p)
    unfolding sync
    sync-Local p = look-Local z d syncing p (λ n. ok tt)

    pub symlink_metadata-Local : (p : PathBuf) → Local z (symlink_metadata d p)
    unfolding symlink_metadata
    symlink_metadata-Local p = look-Local z d inspecting p (λ n. entry (n p))

    pub read_regular-Local : (p : PathBuf) → Local z (read_regular d p)
    unfolding read_regular
    read_regular-Local p = look-Local z d reading p (λ n. regular (n p))

    pub create_private_dir-Local :
        (x : Str) (p : PathBuf)
        → Inner z (x ∷ p)
        → z.root ≡ p
        → Local z (create_private_dir d (x ∷ p))
    unfolding create_private_dir
    create_private_dir-Local x p i e =
        >>=-Local z (create_dir_all-Local x p i e) (λ done. set_permissions-Local (x ∷ p) 448 i)

    -- The root itself stays a directory under other permissions.
    pub set_permissions_root-Local :
        (mode : ℕ) → z.inside z.root ≡ true → Local z (set_permissions d z.root mode)
    unfolding set_permissions
    set_permissions_root-Local mode i =
        change-Local z d securing z.root unchanged (λ n. secured mode (n z.root) z.root n)
          (λ n b. Kept-refl z n)
          (λ n m h e.
            let (uid, g) = secured_directory mode (n z.root) z.root n m h e in
            record {
              frame = λ q k.
                  ap (λ f. f q) g
                  ∙ set-other z.root q (some (directory mode uid)) n (apart z z.root q i k);
              rooted = λ k.
                  ap (λ f. is_directory (f z.root)) g
                  ∙ ap is_directory (set-same z.root (some (directory mode uid)) n);
            })

module _ (d : Device) where
  removed_other : (p q : PathBuf) (n m : Nodes) → path_eq p q ≡ false → OneAt p n m → m q ≡ n q
  removed_other p q n m h (inl e) = ap (λ f. f q) e
  removed_other p q n m h (inr (x, e)) = ap (λ f. f q) e ∙ set-other p q x n h

  -- The removal of a file, however it ends, changes no other entry.
  pub remove_file-other :
      (p q : PathBuf) (s : Disk) → path_eq p q ≡ false → (remove_file d p s).1.nodes q ≡ s.nodes q
  unfolding remove_file
  remove_file-other p q s h =
      change_cases d deleting p unchanged (λ n. removed_file (n p) p n) s (λ v n. n q ≡ s.nodes q)
        (λ e. refl) (λ b. refl)
        (λ m e. removed_other p q s.nodes m h (
          one p s.nodes (removed_file (s.nodes p) p s.nodes)
            (removed_file_one (s.nodes p) p s.nodes) e))
