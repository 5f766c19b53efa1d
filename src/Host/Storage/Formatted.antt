-- ===== src/Host/Storage/Formatted.antt =====
-- Files with an ext4 superblock, through the operations that make a disk.
use mathlib.Core.Path.{subst}
use spawnr.Prelude.{
  ℕ, ◌≡◌, sym, ap, ◌∙◌, true, false, Option, none, some, List, Result, ok, ensure-eq-ok,
  ok-injective, err-ne-ok,
}
use spawnr.Prelude.Text.{Str}
use spawnr.Prelude.Actions.{◌>>=◌, give}
use spawnr.Host.Files.{
  PathBuf, Node, file, directory, Error, Nodes, Disk, Device, path_eq, set, secured, linked_to,
  change, change_cases, Operation, Break, link, look-eq_ok, reading, linking, securing,
}
use spawnr.Host.Files.Calls.{
  Io, or_undo, unchanged, set_permissions, hard_link, remove_file, read_regular,
}
use spawnr.Host.Files.Places.{set-same}
use spawnr.Host.Files.Local.{remove_file-other}
use spawnr.Host.Files.Known.{place-eq_ok}
use spawnr.Host.Files.Looks.{
  >>=-Ends, or_undo-Ends, >>=-eq_ok, Looks, >>=-Looks, give-Looks, read_regular-Looks, sync-Looks,
}
use spawnr.Host.Storage.{Site, sync_parent}
use spawnr.Host.Storage.Checks.{regular-eq_ok}
use spawnr.Host.Storage.Disks.{
  has_magic, validate_ext4_image, commit_no_replace, make_image, clone_image_atomic, sibling,
  temporary_sibling, create_ext4_atomic,
}

-- A regular file with the magic of ext4.
pub record Formatted (p : PathBuf) (n : Nodes) : Type 0 where
  pub mode : ℕ
  pub content : List ℕ
  pub is_there : n p ≡ some (file mode content)
  pub magic : has_magic content ≡ true

pub Formatted-same : {p : PathBuf} {n m : Nodes} → Formatted p n → m p ≡ n p → Formatted p m
Formatted-same f e = record {
  mode = f.mode;
  content = f.content;
  is_there = e ∙ f.is_there;
  magic = f.magic;
}

-- What a success leaves; nothing is said of a failure.
pub record Leaves {A : Type 0} (P : Nodes → Type 0) (m : Io A) (Q : Nodes → Type 0) : Type 0 where
  pub leaves : (s : Disk) {a : A} → P s.nodes → (m s).0 ≡ ok a → Q (m s).1.nodes

abbrev pub Anything : Nodes → Type 0
Anything n = Unit {0}

pub then-Leaves :
    {A B : Type 0} {P Q R : Nodes → Type 0} {m : Io A} {f : A → Io B}
    → Leaves P m Q
    → ((a : A) → Leaves Q (f a) R)
    → Leaves P (m >>= f) R
then-Leaves {R = R} {m = m} {f = f} h g = record {
  leaves = λ s {a} p e.
      >>=-Ends m f s (λ v n. v ≡ ok a → R n) (λ x k q. elim (err-ne-ok q) [ ])
        (λ c k q. (g c).leaves (m s).1 (h.leaves s p k) q) e;
}

-- What holds after a computation that only looks.
pub looks-Leaves : {A : Type 0} {P : Nodes → Type 0} {m : Io A} → Looks m → Leaves P m P
looks-Leaves {P = P} l = record { leaves = λ s p e. subst P (sym (l.same s)) p }

pub Anything-Leaves : {A : Type 0} {P : Nodes → Type 0} (m : Io A) → Leaves P m Anything
Anything-Leaves m = record { leaves = λ s p e. tt }

pub or_undo-Leaves :
    {A B : Type 0} {P Q : Nodes → Type 0} {m : Io A} (undo : Io B)
    → Leaves P m Q
    → Leaves P (or_undo m undo) Q
or_undo-Leaves {Q = Q} {m = m} undo h = record {
  leaves = λ s {a} p e.
      or_undo-Ends m undo s (λ v n. v ≡ ok a → Q n) (λ b k q. h.leaves s p k)
        (λ x k q. elim (err-ne-ok q) [ ]) e;
}

-- An effect on a file, where the operation succeeds.
change-Leaves :
    (d : Device) (op : Operation) (at : PathBuf) (part : Break → Nodes → Nodes)
    (effect : Nodes → Result Error Nodes) {P Q : Nodes → Type 0}
    → ((n m : Nodes) → P n → effect n ≡ ok m → Q m)
    → Leaves P (change d op at part effect) Q
change-Leaves d op at part effect {P} {Q} h = record {
  leaves = λ s {a} p e.
      change_cases d op at part effect s (λ v n. v ≡ ok a → Q n) (λ x q. elim (err-ne-ok q) [ ])
        (λ b q. elim (err-ne-ok q) [ ]) (λ m k q. h s.nodes m p k) e;
}

linked-Formatted :
    (o : Option Node) (p : PathBuf) (n m : Nodes) (mode : ℕ) (content : List ℕ)
    → o ≡ some (file mode content)
    → linked_to o p n ≡ ok m
    → m p ≡ some (file mode content)
unfolding linked_to
linked-Formatted none p n m mode content h e = cc
linked-Formatted (some (directory x u)) p n m mode content h e = cc
linked-Formatted (some (file x c)) p n m mode content h e =
    ap (λ f. f p) (place-eq_ok (file x c) p n m e) ∙ set-same p (some (file x c)) n ∙ h
linked-Formatted (some (link t)) p n m mode content h e = cc

same_content :
    {x y : ℕ} {a b : List ℕ} → ◌≡◌ {A = Option Node} (some (file x a)) (some (file y b)) → a ≡ b
same_content h = cc

secured_file :
    (mode : ℕ) (o : Option Node) (p : PathBuf) (n m : Nodes) (old : ℕ) (content : List ℕ)
    → o ≡ some (file old content)
    → secured mode o p n ≡ ok m
    → m ≡ set p (some (file mode content)) n
unfolding secured
secured_file mode none p n m old content h e = cc
secured_file mode (some (directory x u)) p n m old content h e = cc
secured_file mode (some (file x c)) p n m old content h e =
    sym (ok-injective e) ∙ ap (λ b. set p (some (file mode b)) n) (same_content h)
secured_file mode (some (link t)) p n m old content h e = cc

module _ (s : Site) where
  validate_ext4_image-Looks : (p : PathBuf) → Looks (validate_ext4_image s p)
  unfolding validate_ext4_image
  validate_ext4_image-Looks p = >>=-Looks (read_regular-Looks s.device p) (λ c. give-Looks _)

  validate_ext4_image-Leaves :
      {P : Nodes → Type 0} (p : PathBuf) → Leaves P (validate_ext4_image s p) (Formatted p)
  unfolding validate_ext4_image read_regular give
  validate_ext4_image-Leaves p = record {
    leaves = λ t u e.
        let ((mode, content), h, g) = >>=-eq_ok (read_regular s.device p) _ t e in
        record {
          mode = mode;
          content = content;
          is_there =
              ap (λ f. f p) ((validate_ext4_image-Looks p).same t)
              ∙ regular-eq_ok s (t.nodes p) mode content (look-eq_ok s.device reading p _ t h);
          magic = ensure-eq-ok _ _ g;
        };
  }

  sync_parent-Looks : (p : PathBuf) → Looks (sync_parent s p)
  unfolding sync_parent
  sync_parent-Looks p = >>=-Looks (give-Looks _) (λ above. sync-Looks s.device above)

  commit_no_replace-Leaves :
      (t p : PathBuf)
      → path_eq t p ≡ false
      → Leaves (Formatted t) (commit_no_replace s t p) (Formatted p)
  unfolding commit_no_replace hard_link
  commit_no_replace-Leaves t p apart =
      then-Leaves
        (then-Leaves {Q = Formatted p}
          (change-Leaves s.device linking p unchanged (λ n. linked_to (n t) p n)
            (λ n m f e. record {
              mode = f.mode;
              content = f.content;
              is_there = linked-Formatted (n t) p n m f.mode f.content f.is_there e;
              magic = f.magic;
            }))
          (λ done. or_undo-Leaves (remove_file s.device p) (record {
            leaves = λ u f e. Formatted-same f (remove_file-other s.device t p u apart);
          })))
        (λ done. or_undo-Leaves (remove_file s.device p) (looks-Leaves (sync_parent-Looks p)))

  secured-Leaves :
      (p : PathBuf) (mode : ℕ)
      → Leaves (Formatted p) (set_permissions s.device p mode) (Formatted p)
  unfolding set_permissions
  secured-Leaves p mode =
      change-Leaves s.device securing p unchanged (λ n. secured mode (n p) p n)
        (λ n m f e. record {
          mode = mode;
          content = f.content;
          is_there =
              ap (λ g. g p) (secured_file mode (n p) p n m f.mode f.content f.is_there e)
              ∙ set-same p (some (file mode f.content)) n;
          magic = f.magic;
        })

  -- A computation that goes on with a temporary name.
  named_leaves :
      {A : Type 0} {P Q : Nodes → Type 0} (p : PathBuf) (f : PathBuf → Io A)
      → ((uuid : Str) → Leaves P (f (sibling uuid p)) Q)
      → Leaves P (temporary_sibling s p >>= f) Q
  unfolding temporary_sibling ◌>>=◌
  named_leaves p f l = record {
    leaves = λ disk u e. (l (s.uuid_text (s.new_uuid disk.clock))).leaves disk u e;
  }

  module _ (p : PathBuf) (apart : (uuid : Str) → path_eq (sibling uuid p) p ≡ false) where
    make_image-Leaves :
        (uuid : Str) (size : ℕ) (label : Str)
        → Leaves Anything (make_image s (sibling uuid p) p size label) (Formatted p)
    unfolding make_image
    make_image-Leaves uuid size label =
        then-Leaves
          (then-Leaves
            (then-Leaves
              (then-Leaves (Anything-Leaves _)
                (λ done. validate_ext4_image-Leaves (sibling uuid p)))
              (λ done. secured-Leaves (sibling uuid p) 384))
            (λ done. looks-Leaves (sync-Looks s.device (sibling uuid p))))
          (λ done. commit_no_replace-Leaves (sibling uuid p) p (apart uuid))

    pub create_ext4_atomic-Leaves :
        (size : ℕ) (label : Str) → Leaves Anything (create_ext4_atomic s p size label) (Formatted p)
    unfolding create_ext4_atomic
    create_ext4_atomic-Leaves size label =
        then-Leaves (Anything-Leaves _)
          (λ done. named_leaves p _ (λ uuid. or_undo-Leaves _ (make_image-Leaves uuid size label)))

    pub clone_image_atomic-Leaves :
        (base : PathBuf) → Leaves Anything (clone_image_atomic s base p) (Formatted p)
    unfolding clone_image_atomic
    clone_image_atomic-Leaves base = then-Leaves (Anything-Leaves _) (λ done.
        named_leaves p _ (λ uuid. or_undo-Leaves _ (
          then-Leaves
            (then-Leaves (Anything-Leaves _) (λ done. validate_ext4_image-Leaves (sibling uuid p)))
            (λ done. commit_no_replace-Leaves (sibling uuid p) p (apart uuid)))))
