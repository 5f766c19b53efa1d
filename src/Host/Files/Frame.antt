-- ===== src/Host/Files/Frame.antt =====
-- Computations that change entries of one zone only, and keep one directory.
use spawnr.Prelude.{
  ◌≡◌, refl, ap, ◌∙◌, Bool, true, false, Option, Result, ok, err, arith, Bool-cases, inl, inr,
}
use spawnr.Prelude.Actions.{rest, ◌>>=◌, give, attempt}
use spawnr.Host.Files.{
  PathBuf, Node, Error, Operation, Break, Nodes, Disk, Device, path_eq, set, change, look,
  is_directory, change_cases,
}
use spawnr.Host.Files.Calls.{Io, or_undo, undone}
use spawnr.Host.Files.Places.{path_eq-eq, set-other}

-- The entries of the zone may change; `root` stays a directory.
pub record Zone : Type 0 where
  pub inside : PathBuf → Bool
  pub root : PathBuf

module _ (z : Zone) where
  pub record Kept (m n : Nodes) : Type 0 where
    pub frame : (q : PathBuf) → z.inside q ≡ false → n q ≡ m q
    pub rooted : is_directory (m z.root) ≡ true → is_directory (n z.root) ≡ true

  pub Kept-refl : (n : Nodes) → Kept n n
  Kept-refl n = record { frame = λ q h. refl; rooted = λ h. h }

  pub Kept-trans : {a b c : Nodes} → Kept a b → Kept b c → Kept a c
  Kept-trans f g = record {
    frame = λ q h. g.frame q h ∙ f.frame q h;
    rooted = λ h. g.rooted (f.rooted h);
  }

  -- An entry of the zone, that is not its root.
  pub record Inner (p : PathBuf) : Type 0 where
    pub inner : z.inside p ≡ true
    pub not_root : path_eq p z.root ≡ false

  pub apart : (p q : PathBuf) → z.inside p ≡ true → z.inside q ≡ false → path_eq p q ≡ false
  apart p q h k = elim (Bool-cases (path_eq p q)) [
    | inl e ↦ ground (arith, ap z.inside (path_eq-eq p q e))
    | inr e ↦ e
  ]

  pub set-Kept : (p : PathBuf) (new : Option Node) (n : Nodes) → Inner p → Kept n (set p new n)
  set-Kept p new n i = record {
    frame = λ q h. set-other p q new n (apart p q i.inner h);
    rooted = λ h. rw (set-other p z.root new n i.not_root) h;
  }

  -- From a state in which the root is a directory, only the zone changes.
  pub record Local {A : Type 0} (m : Io A) : Type 0 where
    pub local : (s : Disk) → is_directory (s.nodes z.root) ≡ true → Kept s.nodes (m s).1.nodes

  rest-Local :
      {A B : Type 0} (v : Result Error A) (s : Disk) (f : A → Io B)
      → is_directory (s.nodes z.root) ≡ true
      → ((a : A) → Local (f a))
      → Kept s.nodes (rest v s f).1.nodes
  rest-Local (ok a) s f h g = (g a).local s h
  rest-Local (err e) s f h g = Kept-refl s.nodes

  pub >>=-Local :
      {A B : Type 0} {m : Io A} {f : A → Io B} → Local m → ((a : A) → Local (f a)) → Local (m >>= f)
  unfolding ◌>>=◌
  >>=-Local {m = m} {f = f} l g = record {
    local =
        λ s h. Kept-trans (l.local s h) (rest-Local (m s).0 (m s).1 f ((l.local s h).rooted h) g);
  }

  pub give-Local : {A : Type 0} (v : Result Error A) → Local (give v)
  unfolding give
  give-Local v = record { local = λ s h. Kept-refl s.nodes }

  pub attempt-Local : {A : Type 0} {m : Io A} → Local m → Local (attempt m)
  unfolding attempt
  attempt-Local l = record { local = l.local }

  undone-Local :
      {A B : Type 0} (v : Result Error A) (s : Disk) (undo : Io B)
      → is_directory (s.nodes z.root) ≡ true
      → Local undo
      → Kept s.nodes (undone v s undo).1.nodes
  undone-Local (ok a) s undo h l = Kept-refl s.nodes
  undone-Local (err e) s undo h l = l.local s h

  pub or_undo-Local :
      {A B : Type 0} {m : Io A} {undo : Io B} → Local m → Local undo → Local (or_undo m undo)
  unfolding or_undo
  or_undo-Local {m = m} {undo = undo} l u = record {
    local = λ s h.
        Kept-trans (l.local s h) (undone-Local (m s).0 (m s).1 undo ((l.local s h).rooted h) u);
  }

  module _ (d : Device) where
    pub look-Local :
        {A : Type 0} (op : Operation) (p : PathBuf) (view : Nodes → Result Error A)
        → Local (look d op p view)
    unfolding look
    look-Local op p view = record { local = λ s h. Kept-refl s.nodes }

    pub change-Local :
        (op : Operation) (p : PathBuf) (part : Break → Nodes → Nodes)
        (effect : Nodes → Result Error Nodes)
        → ((n : Nodes) (b : Break) → Kept n (part b n))
        → ((n m : Nodes) → is_directory (n z.root) ≡ true → effect n ≡ ok m → Kept n m)
        → Local (change d op p part effect)
    change-Local op p part effect broken done = record {
      local = λ s h.
          change_cases d op p part effect s (λ v n. Kept s.nodes n) (λ e. Kept-refl s.nodes)
            (λ b. broken s.nodes b) (λ m e. done s.nodes m h e);
    }
