-- ===== src/Host/Files.antt =====
-- The file operations that crates/spawnr/src/storage.rs, paths.rs and state.rs use, over one tree of
-- entries: `std::fs` as far as the code relies on it. Any operation may break off, at any time; a
-- process that is killed is one whose operations all break off from then on, with no effect.
pub mod Calls
pub mod Places
pub mod Frame
pub mod Local
pub mod Known
pub mod Looks
pub mod Trees
use spawnr.Prelude.{
  ◌≡◌, refl, ap, ℕ, ◌+◌, Bool, true, false, Option, none, some, List, [], ◌∷◌, ◌++◌, ◌&&◌, ◌||◌,
  not, if◌then◌else◌, Result, ok, err, ensure, take, is_ok,
}
use spawnr.Prelude.Text.{Str, str_eq}
use spawnr.Prelude.Actions.{Action, ◌>>=◌, ◌>>◌, give, attempt}

-- An absolute path, as the list of its names from the last one on.
abbrev pub PathBuf : Type 0
PathBuf = List Str

-- `path.join(name)` for one name.
abbrev pub join : PathBuf → Str → PathBuf
join p name = name ∷ p

-- `path.parent()`
abbrev pub parent : PathBuf → Option PathBuf
parent [] = none
parent (name ∷ p) = some p

unfoldable pub path_eq : PathBuf → PathBuf → Bool
path_eq [] [] = true
path_eq [] (y ∷ q) = false
path_eq (x ∷ p) [] = false
path_eq (x ∷ p) (y ∷ q) = str_eq x y && path_eq p q

-- The path is `top` or stands below it.
unfoldable pub under : PathBuf → PathBuf → Bool
under top [] = path_eq top []
under top (x ∷ p) = path_eq top (x ∷ p) || under top p

-- What a symbolic link leads to.
pub data Target : Type 0 where
  nothing : Target
  a_file : Target
  a_directory : Target

-- A directory entry. No path of the model leads through a symbolic link.
pub data Node : Type 0 where
  directory : (mode uid : ℕ) → Node
  file : (mode : ℕ) (content : List ℕ) → Node
  link : Target → Node

pub data Error : Type 0 where
  not_found : Error
  already_exists : Error
  -- any other failure of an operation
  failed : Error
  no_parent : Error
  not_a_directory : Error
  is_insecure : Error
  not_ours : Error
  not_regular : Error
  bad_marker : Error
  other_owner : Error
  other_domain : Error
  would_overwrite : Error
  image_too_small : Error
  bad_label : Error
  mkfs_failed : Error
  not_ext4 : Error
  state_corrupt : Error
  state_schema : Error

pub data Operation : Type 0 where
  inspecting : Operation
  reading : Operation
  making : Operation
  writing : Operation
  securing : Operation
  linking : Operation
  renaming : Operation
  deleting : Operation
  syncing : Operation

-- What an operation that breaks off has done: the entries of a tree that its removal has left, and
-- how much of a text it has written.
pub record Break : Type 0 where
  pub left : PathBuf → Bool
  pub written : ℕ

abbrev pub Nodes : Type 0
Nodes = PathBuf → Option Node

pub record Disk : Type 0 where
  pub nodes : Nodes
  -- The number of operations so far.
  pub clock : ℕ

pub record Device : Type 0 where
  -- Which operations break off.
  pub breaks : ℕ → Operation → PathBuf → Option Break
  -- The effective user.
  pub euid : ℕ
  -- The mode of a new directory under the process's mask.
  pub directory_mode : ℕ

-- The entry at `p` becomes `new`.
unfoldable pub set : PathBuf → Option Node → Nodes → Nodes
set p new n q = if path_eq p q then new else n q

abbrev pub is_directory : Option Node → Bool
is_directory none = false
is_directory (some (directory mode uid)) = true
is_directory (some (file mode content)) = false
is_directory (some (link t)) = false

abbrev pub parent_is_directory : PathBuf → Nodes → Bool
parent_is_directory [] n = false
parent_is_directory (x ∷ p) n = is_directory (n p)

placed : Option Node → Bool → Nodes → Result Error Nodes
placed (some old) b n = err already_exists
placed none true n = ok n
placed none false n = err not_found

-- A new entry, where none is and the parent is a directory.
unfoldable pub place : Node → PathBuf → Nodes → Result Error Nodes
unfolding placed
place new p n = placed (n p) (parent_is_directory p n) (set p (some new) n)

made_all : Option Node → Node → PathBuf → Nodes → Result Error Nodes → Result Error Nodes
made_all none new p n (ok m) = ok (set p (some new) m)
made_all none new p n (err e) = err e
made_all (some (directory mode uid)) new p n above = ok n
made_all (some (file mode content)) new p n above = err already_exists
made_all (some (link nothing)) new p n above = err already_exists
made_all (some (link a_file)) new p n above = err already_exists
made_all (some (link a_directory)) new p n above = ok n

unfoldable pub make_all : Node → PathBuf → Nodes → Result Error Nodes
unfolding made_all
make_all new [] n = ok n
make_all new (x ∷ p) n = made_all (n (x ∷ p)) new (x ∷ p) n (make_all new p n)

-- The tree below `top` goes, but for the entries that are kept.
unfoldable pub without : PathBuf → (PathBuf → Bool) → Nodes → Nodes
without top kept n q = if under top q && not (kept q) then none else n q

removed_tree : Option Node → PathBuf → Nodes → Result Error Nodes
removed_tree none p n = err not_found
removed_tree (some (directory mode uid)) p n = ok (without p (λ q. false) n)
removed_tree (some (file mode content)) p n = err failed
removed_tree (some (link t)) p n = ok (set p none n)

removed_file : Option Node → PathBuf → Nodes → Result Error Nodes
removed_file none p n = err not_found
removed_file (some (directory mode uid)) p n = err failed
removed_file (some (file mode content)) p n = ok (set p none n)
removed_file (some (link t)) p n = ok (set p none n)

unfoldable pub secured : ℕ → Option Node → PathBuf → Nodes → Result Error Nodes
secured mode none p n = err not_found
secured mode (some (directory old uid)) p n = ok (set p (some (directory mode uid)) n)
secured mode (some (file old content)) p n = ok (set p (some (file mode content)) n)
secured mode (some (link nothing)) p n = err not_found
secured mode (some (link a_file)) p n = ok n
secured mode (some (link a_directory)) p n = ok n

-- The content of the file becomes `edit` of what it was.
edited : (List ℕ → List ℕ) → Option Node → PathBuf → Nodes → Nodes
edited edit none p n = n
edited edit (some (directory mode uid)) p n = n
edited edit (some (file mode content)) p n = set p (some (file mode (edit content))) n
edited edit (some (link t)) p n = n

unfoldable pub linked_to : Option Node → PathBuf → Nodes → Result Error Nodes
linked_to none d n = err not_found
linked_to (some (directory mode uid)) d n = err failed
linked_to (some (file mode content)) d n = place (file mode content) d n
linked_to (some (link t)) d n = place (link t) d n

-- rename(2) of a file, which replaces what stands at the destination, but for a directory.
renamed : Option Node → Bool → Bool → PathBuf → PathBuf → Nodes → Result Error Nodes
renamed none to_directory in_directory t d n = err not_found
renamed (some old) true in_directory t d n = err failed
renamed (some old) false false t d n = err not_found
renamed (some old) false true t d n = ok (set t none (set d (some old) n))

stopped :
    Option Break → Result Error Nodes → (Break → Nodes) → Disk → Result Error (Unit {0}) × Disk
stopped none (ok n) part s = (ok tt, record s { nodes = n })
stopped none (err e) part s = (err e, s)
stopped (some b) v part s = (err failed, record s { nodes = part b })

seen : {A : Type 0} → Option Break → Result Error A → Result Error A
seen none v = v
seen (some b) v = err failed

stopped_cases :
    (o : Option Break) (v : Result Error Nodes) (part : Break → Nodes) (s : Disk)
    (R : Result Error (Unit {0}) → Nodes → Type 0)
    → ((e : Error) → R (err e) s.nodes)
    → ((b : Break) → R (err failed) (part b))
    → ((m : Nodes) → v ≡ ok m → R (ok tt) m)
    → R (stopped o v part s).0 (stopped o v part s).1.nodes
unfolding stopped
stopped_cases none (ok n) part s R refused broken done = done n refl
stopped_cases none (err e) part s R refused broken done = refused e
stopped_cases (some b) v part s R refused broken done = broken b

seen-eq_ok :
    {A : Type 0} (o : Option Break) (v : Result Error A) {a : A} → seen o v ≡ ok a → v ≡ ok a
unfolding seen
seen-eq_ok none v h = h
seen-eq_ok (some b) v h = cc

module _ (d : Device) where
  unfoldable pub change :
      Operation
      → PathBuf
      → (Break → Nodes → Nodes)
      → (Nodes → Result Error Nodes)
      → Action Disk Error (Unit {0})
  unfolding stopped
  change op p part effect s =
      stopped (d.breaks s.clock op p) (effect s.nodes) (λ b. part b s.nodes)
        (record s { clock = s.clock + 1 })

  unfoldable pub look :
      {A : Type 0} → Operation → PathBuf → (Nodes → Result Error A) → Action Disk Error A
  unfolding seen
  look op p view s = (seen (d.breaks s.clock op p) (view s.nodes), record s { clock = s.clock + 1 })

  -- What a condition on the result and the entries has to hold of: a refusal or a break, and success.
  pub change_cases :
      (op : Operation) (p : PathBuf) (part : Break → Nodes → Nodes)
      (effect : Nodes → Result Error Nodes) (s : Disk)
      (R : Result Error (Unit {0}) → Nodes → Type 0)
      → ((e : Error) → R (err e) s.nodes)
      → ((b : Break) → R (err failed) (part b s.nodes))
      → ((m : Nodes) → effect s.nodes ≡ ok m → R (ok tt) m)
      → R (change op p part effect s).0 (change op p part effect s).1.nodes
  unfolding change
  change_cases op p part effect s R refused broken done =
      stopped_cases (d.breaks s.clock op p) (effect s.nodes) (λ b. part b s.nodes)
        (record s { clock = s.clock + 1 }) R refused broken done

  pub look-nodes :
      {A : Type 0} (op : Operation) (p : PathBuf) (view : Nodes → Result Error A) (s : Disk)
      → (look op p view s).1.nodes ≡ s.nodes
  unfolding look
  look-nodes op p view s = refl

  pub look-eq_ok :
      {A : Type 0} (op : Operation) (p : PathBuf) (view : Nodes → Result Error A) (s : Disk) {a : A}
      → (look op p view s).0 ≡ ok a
      → view s.nodes ≡ ok a
  unfolding look
  look-eq_ok op p view s h = seen-eq_ok (d.breaks s.clock op p) (view s.nodes) h

  pub look-works :
      {A : Type 0} (op : Operation) (p : PathBuf) (view : Nodes → Result Error A) (s : Disk)
      → d.breaks s.clock op p ≡ none
      → (look op p view s).0 ≡ view s.nodes
  unfolding look seen
  look-works op p view s h = ap (λ o. seen o (view s.nodes)) h
