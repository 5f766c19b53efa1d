-- ===== src/Host/Files/Known.antt =====
-- What is known of the entries below one root while operations succeed.
use mathlib.Core.Path.{subst}
use spawnr.Prelude.{
  ℕ, ◌≡◌, refl, sym, ap, ◌∙◌, Bool, true, false, Option, none, some, List, [], ◌∷◌, ◌++◌, take, ◌+◌,
  Result, ok, err, if◌then◌else◌, ok-injective,
}
use spawnr.Prelude.Text.{Str}
use spawnr.Prelude.Actions.{Triple, After}
use spawnr.Host.Files.{
  PathBuf, Node, directory, file, Error, Operation, making, writing, securing, syncing, inspecting,
  Break, Nodes, Disk, Device, path_eq, set, place, placed, make_all, secured, edited, change, look,
  change_cases, is_directory, parent_is_directory, made_all,
}
use spawnr.Host.Files.Calls.{
  Io, create_dir_all, set_permissions, create_new, write_all, sync, symlink_metadata, entry,
  unchanged,
}
use spawnr.Host.Files.Places.{path_eq-eq, path_eq-append}
use spawnr.Host.Files.Local.{above_same}

-- The entries that are known, by their names below the root.
abbrev pub Facts : Type 0
Facts = PathBuf → Option (Option Node)

abbrev pub learn : PathBuf → Node → Facts → Facts
learn p new k q = if path_eq p q then some (some new) else k q

-- No entry is there.
abbrev pub lack : PathBuf → Facts → Facts
lack p k q = if path_eq p q then some none else k q

pub place-eq_ok :
    (new : Node) (p : PathBuf) (n m : Nodes) → place new p n ≡ ok m → m ≡ set p (some new) n
unfolding place
place-eq_ok new p n m h = placed_ok (n p) (parent_is_directory p n) (set p (some new) n) h
  where
    placed_ok : (o : Option Node) (b : Bool) (x : Nodes) → placed o b x ≡ ok m → m ≡ x
    placed_ok (some old) b x e = cc
    placed_ok none true x e = sym (ok-injective e)
    placed_ok none false x e = cc

some_injective : {A : Type 0} {a b : A} → ◌≡◌ {A = Option A} (some a) (some b) → a ≡ b
some_injective h = cc

module _ (root : PathBuf) where
  pub record Knows (k : Facts) (s : Disk) : Type 0 where
    pub known : (p : PathBuf) (n : Option Node) → k p ≡ some n → s.nodes (p ++ root) ≡ n

  -- What a failure leaves is not described here.
  abbrev pub Learns : {A : Type 0} → Facts → Io A → Facts → Type 0
  Learns k m k' = Triple (λ s. Unit {0}) (Knows k) m (λ a. Knows k')

  chosen :
      (b : Bool) (new : Node) (o : Option (Option Node)) (old n : Option Node)
      → (if b then some (some new) else o) ≡ some n
      → (o ≡ some n → old ≡ n)
      → (if b then some new else old) ≡ n
  chosen true new o old n x h = some_injective x
  chosen false new o old n x h = h x

  lacking :
      (b : Bool) (o : Option (Option Node)) (old n : Option Node)
      → (if b then some none else o) ≡ some n
      → (b ≡ true → old ≡ none)
      → (o ≡ some n → old ≡ n)
      → old ≡ n
  lacking true o old n x g h = g refl ∙ some_injective x
  lacking false o old n x g h = h x

  pub lacked :
      (p : PathBuf) (k : Facts) (s : Disk)
      → Knows k s
      → s.nodes (p ++ root) ≡ none
      → Knows (lack p k) s
  lacked p k s h e = record {
    known = λ q n x.
        lacking (path_eq p q) (k q) (s.nodes (q ++ root)) n x
          (λ same. subst (λ a. s.nodes (a ++ root) ≡ none) (path_eq-eq p q same) e) (h.known q n);
  }

  pub learned :
      (p : PathBuf) (new : Node) (k : Facts) (s t : Disk)
      → Knows k s
      → t.nodes ≡ set (p ++ root) (some new) s.nodes
      → Knows (learn p new k) t
  unfolding set
  learned p new k s t h e = record {
    known = λ q n x.
        ap (λ f. f (q ++ root)) e
        ∙ rw (path_eq-append p q root)
            (chosen (path_eq p q) new (k q) (s.nodes (q ++ root)) n x (h.known q n));
  }

  module _ (d : Device) where
    change-Learns :
        (op : Operation) (at p : PathBuf) (new : Node) (k : Facts) (part : Break → Nodes → Nodes)
        (effect : Nodes → Result Error Nodes)
        → ((s : Disk) (m : Nodes)
            → Knows k s
            → effect s.nodes ≡ ok m
            → m ≡ set (p ++ root) (some new) s.nodes)
        → Learns k (change d op at part effect) (learn p new k)
    change-Learns op at p new k part effect h = record {
      holds = λ s known.
          after (change d op at part effect s).0 (change d op at part effect s).1
            (change_cases d op at part effect s
              (λ v n. is_done v → n ≡ set (p ++ root) (some new) s.nodes) (λ e x. elim x [ ])
              (λ b x. elim x [ ]) (λ m e x. h s m known e))
            (λ e. learned p new k s (change d op at part effect s).1 known e);
    }
      where
        is_done : Result Error (Unit {0}) → Type 0
        is_done (ok u) = Unit {0}
        is_done (err e) = ⊥

        after :
            (v : Result Error (Unit {0})) (t : Disk) {E : Type 0}
            → (is_done v → E)
            → (E → Knows (learn p new k) t)
            → After (λ u. Unit {0}) (λ a. Knows (learn p new k)) v t
        after (ok u) t e f = f (e tt)
        after (err x) t e f = tt

    pub look-Learns :
        {A : Type 0} (op : Operation) (p : PathBuf) (k : Facts) (view : Nodes → Result Error A)
        → Learns k (look d op p view) k
    unfolding look
    look-Learns op p k view = record {
      holds = λ s known.
          kept (look d op p view s).0 (record s { clock = s.clock + 1 })
            (record { known = known.known });
    }
      where
        kept :
            {B : Type 0} (v : Result Error B) (t : Disk)
            → Knows k t
            → After (λ u. Unit {0}) (λ a. Knows k) v t
        kept (ok u) t h = h
        kept (err e) t h = tt

    pub sync-Learns : (p : PathBuf) (k : Facts) → Learns k (sync d p) k
    unfolding sync
    sync-Learns p k = look-Learns syncing p k (λ n. ok tt)

    pub symlink_metadata-Learns : (p : PathBuf) (k : Facts) → Learns k (symlink_metadata d p) k
    unfolding symlink_metadata
    symlink_metadata-Learns p k = look-Learns inspecting p k (λ n. entry (n p))

    pub create_new-Learns :
        (p : PathBuf) (k : Facts) → Learns k (create_new d (p ++ root)) (learn p (file 384 []) k)
    unfolding create_new
    create_new-Learns p k =
        change-Learns making (p ++ root) p (file 384 []) k unchanged
          (place (file 384 []) (p ++ root))
          (λ s m known e. place-eq_ok (file 384 []) (p ++ root) s.nodes m e)

    pub write_all-Learns :
        (p : PathBuf) (text old : List ℕ) (mode : ℕ) (k : Facts)
        → k p ≡ some (some (file mode old))
        → Learns k (write_all d (p ++ root) text) (learn p (file mode (old ++ text)) k)
    unfolding write_all edited
    write_all-Learns p text old mode k h =
        change-Learns writing (p ++ root) p (file mode (old ++ text)) k
          (λ b n. edited (λ c. c ++ take b.written text) (n (p ++ root)) (p ++ root) n)
          (λ n. ok (edited (λ c. c ++ text) (n (p ++ root)) (p ++ root) n))
          (λ s m known e.
            sym (ok-injective e)
            ∙ ap (λ o. edited (λ c. c ++ text) o (p ++ root) s.nodes)
                (known.known p (some (file mode old)) h))

    pub set_permissions-Learns :
        (p : PathBuf) (mode old uid : ℕ) (k : Facts)
        → k p ≡ some (some (directory old uid))
        → Learns k (set_permissions d (p ++ root) mode) (learn p (directory mode uid) k)
    unfolding set_permissions secured
    set_permissions-Learns p mode old uid k h =
        change-Learns securing (p ++ root) p (directory mode uid) k unchanged
          (λ n. secured mode (n (p ++ root)) (p ++ root) n)
          (λ s m known e. sym (
            ok-injective (
              sym (
                ap (λ o. secured mode o (p ++ root) s.nodes)
                  (known.known p (some (directory old uid)) h))
              ∙ e)))

    pub create_dir_all-Learns :
        (x : Str) (p : PathBuf) (mode uid : ℕ) (k : Facts)
        → k (x ∷ p) ≡ some none
        → k p ≡ some (some (directory mode uid))
        → Learns k
            (create_dir_all d (x ∷ (p ++ root)))
            (learn (x ∷ p) (directory d.directory_mode d.euid) k)
    unfolding create_dir_all make_all made_all
    create_dir_all-Learns x p mode uid k h g =
        change-Learns making (x ∷ (p ++ root)) (x ∷ p) (directory d.directory_mode d.euid) k
          unchanged (make_all (directory d.directory_mode d.euid) (x ∷ (p ++ root)))
          (λ s m known e. sym (
            ok-injective (
              sym (
                made_here x (p ++ root) s.nodes (known.known (x ∷ p) none h)
                  (ap is_directory (known.known p (some (directory mode uid)) g)))
              ∙ e)))
      where
        made_here :
            (x : Str) (p : PathBuf) (n : Nodes)
            → n (x ∷ p) ≡ none
            → is_directory (n p) ≡ true
            → make_all (directory d.directory_mode d.euid) (x ∷ p) n
              ≡ ok (set (x ∷ p) (some (directory d.directory_mode d.euid)) n)
        made_here x p n h g =
            ap
              (λ o.
                made_all o (directory d.directory_mode d.euid) (x ∷ p) n
                  (make_all (directory d.directory_mode d.euid) p n))
              h
            ∙ ap (λ v. made_all none (directory d.directory_mode d.euid) (x ∷ p) n v)
                (above_same (directory d.directory_mode d.euid) p n g)
