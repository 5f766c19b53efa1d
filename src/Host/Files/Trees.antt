-- ===== src/Host/Files/Trees.antt =====
-- Well-formed trees, and the exact effect of making and removing a directory.
use mathlib.Core.Path.{subst}
use spawnr.Prelude.{
  ℕ, ◌+◌, ◌≡◌, refl, sym, ap, ◌∙◌, Bool, true, false, Option, none, some, [], ◌∷◌, Result, ok, err,
  arith, Bool-cases, inl, inr, ok-injective,
}
use spawnr.Prelude.Text.{Str}
use spawnr.Host.Files.{
  PathBuf, Node, directory, file, link, Error, failed, deleting, making, renaming, renamed, Break,
  Nodes, Disk, Device, path_eq, under, set, place, placed, without, removed_tree, change,
  change_cases, stopped, is_directory, parent_is_directory,
}
use spawnr.Host.Files.Calls.{create_dir, remove_dir_all, rename, unchanged}
use spawnr.Host.Files.Places.{path_eq-eq}
use spawnr.Host.Files.Known.{place-eq_ok}
use spawnr.Host.Files.Looks.{Ends}

-- Every entry stands in a directory.
pub record WellFormed (n : Nodes) : Type 0 where
  pub above : (x : Str) (p : PathBuf) → n p ≡ none → n (x ∷ p) ≡ none

-- No removal of this path breaks off.
pub record Removable (d : Device) (p : PathBuf) : Type 0 where
  pub removable : (t : ℕ) → d.breaks t deleting p ≡ none

pub absent-under :
    {n : Nodes} (top q : PathBuf) → WellFormed n → n top ≡ none → under top q ≡ true → n q ≡ none
unfolding under
absent-under {n = n} top [] w h u = subst (λ p. n p ≡ none) (path_eq-eq top [] u) h
absent-under {n = n} top (x ∷ q) w h u = elim (Bool-cases (path_eq top (x ∷ q))) [
  | inl e ↦ subst (λ p. n p ≡ none) (path_eq-eq top (x ∷ q) e) h
  | inr e ↦ w.above x q (absent-under top q w h (below_or top x q u e))
]
  where
    below_or :
        (top : PathBuf) (x : Str) (q : PathBuf)
        → under top (x ∷ q) ≡ true
        → path_eq top (x ∷ q) ≡ false
        → under top q ≡ true
    below_or top x q u e = ground arith

place-none : (new : Node) (p : PathBuf) (n m : Nodes) → place new p n ≡ ok m → n p ≡ none
unfolding place placed
place-none new p n m h = placed_none (n p) (parent_is_directory p n) (set p (some new) n) h
  where
    placed_none : (o : Option Node) (b : Bool) (x : Nodes) → placed o b x ≡ ok m → o ≡ none
    placed_none (some old) b x e = cc
    placed_none none b x e = refl

-- How a successful or refused creation of a directory ends.
pub create_dir-Ends :
    (d : Device) (p : PathBuf) (t : Disk) (R : Result Error (Unit {0}) → Nodes → Type 0)
    → ((e : Error) → R (err e) t.nodes)
    → ((m : Nodes)
        → t.nodes p ≡ none
        → m ≡ set p (some (directory d.directory_mode d.euid)) t.nodes
        → R (ok tt) m)
    → Ends R (create_dir d p t)
unfolding create_dir
create_dir-Ends d p t R failing done =
    change_cases d making p unchanged (place (directory d.directory_mode d.euid) p) t R failing
      (λ b. failing failed)
      (λ m e.
        done m (place-none (directory d.directory_mode d.euid) p t.nodes m e)
          (place-eq_ok (directory d.directory_mode d.euid) p t.nodes m e))

removed_directory :
    (o : Option Node) (p : PathBuf) (n : Nodes) (part : Break → Nodes) (t : Disk)
    → is_directory o ≡ true
    → (stopped none (removed_tree o p n) part t).1.nodes ≡ without p (λ q. false) n
unfolding stopped removed_tree
removed_directory none p n part t h = cc
removed_directory (some (directory mode uid)) p n part t h = refl
removed_directory (some (file mode content)) p n part t h = cc
removed_directory (some (link l)) p n part t h = cc

removed_directory_ok :
    (o : Option Node) (p : PathBuf) (n m : Nodes)
    → is_directory o ≡ true
    → removed_tree o p n ≡ ok m
    → without p (λ q. false) n ≡ m
unfolding removed_tree
removed_directory_ok none p n m h e = cc
removed_directory_ok (some (directory mode uid)) p n m h e = ok-injective e
removed_directory_ok (some (file mode content)) p n m h e = cc
removed_directory_ok (some (link l)) p n m h e = cc

-- The removal of a directory that does not break off.
pub remove_dir_all-nodes :
    (d : Device) (p : PathBuf) (t : Disk)
    → Removable d p
    → is_directory (t.nodes p) ≡ true
    → (remove_dir_all d p t).1.nodes ≡ without p (λ q. false) t.nodes
unfolding remove_dir_all change stopped removed_tree
remove_dir_all-nodes d p t r h =
    ap
      (λ o.
        (stopped o (removed_tree (t.nodes p) p t.nodes) (λ b. without p b.left t.nodes)
          (record t { clock = t.clock + 1 })).1.nodes)
      (r.removable t.clock)
    ∙ removed_directory (t.nodes p) p t.nodes (λ b. without p b.left t.nodes)
        (record t { clock = t.clock + 1 }) h

pub remove_dir_all-Ends :
    (d : Device) (p : PathBuf) (t : Disk) (R : Result Error (Unit {0}) → Nodes → Type 0)
    → is_directory (t.nodes p) ≡ true
    → ((e : Error) → R (err e) t.nodes)
    → ((kept : PathBuf → Bool) → R (err failed) (without p kept t.nodes))
    → R (ok tt) (without p (λ q. false) t.nodes)
    → Ends R (remove_dir_all d p t)
unfolding remove_dir_all
remove_dir_all-Ends d p t R h failing broken done =
    change_cases d deleting p (λ b n. without p b.left n) (λ n. removed_tree (n p) p n) t R failing
      (λ b. broken b.left)
      (λ m e. subst (λ n. R (ok tt) n) (removed_directory_ok (t.nodes p) p t.nodes m h e) done)

renamed-eq_ok :
    (o : Option Node) (to_directory in_directory : Bool) (t p : PathBuf) (n m : Nodes)
    → renamed o to_directory in_directory t p n ≡ ok m
    → (old : Node) × (o ≡ some old) × (m ≡ set t none (set p (some old) n))
unfolding renamed
renamed-eq_ok none b c t p n m e = cc
renamed-eq_ok (some old) true c t p n m e = cc
renamed-eq_ok (some old) false false t p n m e = cc
renamed-eq_ok (some old) false true t p n m e = (old, refl, sym (ok-injective e))

pub rename-Ends :
    (d : Device) (t p : PathBuf) (s : Disk) (R : Result Error (Unit {0}) → Nodes → Type 0)
    → ((e : Error) → R (err e) s.nodes)
    → ((m : Nodes) (old : Node)
        → s.nodes t ≡ some old
        → m ≡ set t none (set p (some old) s.nodes)
        → R (ok tt) m)
    → Ends R (rename d t p s)
unfolding rename
rename-Ends d t p s R failing done =
    change_cases d renaming p unchanged
      (λ n. renamed (n t) (is_directory (n p)) (parent_is_directory p n) t p n) s R failing
      (λ b. failing failed)
      (λ m e. let (old, h, g) = renamed-eq_ok _ _ _ t p s.nodes m e in done m old h g)
