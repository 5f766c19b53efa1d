-- ===== src/Host/Files/Looks.antt =====
-- Computations that change no entry, and how a computation's end depends on its first part.
use spawnr.Prelude.{◌≡◌, refl, ap, ◌∙◌, Result, ok, err}
use spawnr.Prelude.Actions.{rest, ◌>>=◌, give, attempt}
use spawnr.Host.Files.{PathBuf, Error, Nodes, Disk, Device, look}
use spawnr.Host.Files.Calls.{Io, or_undo, undone, symlink_metadata, read_regular, sync, exists}

-- What holds of the result and of the entries that are left.
abbrev pub Ends : {A : Type 0} → (Result Error A → Nodes → Type 0) → Result Error A × Disk → Type 0
Ends R end = R end.0 end.1.nodes

rest-Ends :
    {A B : Type 0} (v : Result Error A) (t : Disk) (f : A → Io B)
    (R : Result Error B → Nodes → Type 0)
    → ((e : Error) → v ≡ err e → R (err e) t.nodes)
    → ((a : A) → v ≡ ok a → Ends R (f a t))
    → Ends R (rest v t f)
rest-Ends (ok a) t f R failing going = going a refl
rest-Ends (err e) t f R failing going = failing e refl

pub >>=-Ends :
    {A B : Type 0} (m : Io A) (f : A → Io B) (t : Disk) (R : Result Error B → Nodes → Type 0)
    → ((e : Error) → (m t).0 ≡ err e → R (err e) (m t).1.nodes)
    → ((a : A) → (m t).0 ≡ ok a → Ends R (f a (m t).1))
    → Ends R ((m >>= f) t)
unfolding ◌>>=◌
>>=-Ends m f t R failing going = rest-Ends (m t).0 (m t).1 f R failing going

undone-Ends :
    {A B : Type 0} (v : Result Error A) (t : Disk) (undo : Io B)
    (R : Result Error A → Nodes → Type 0)
    → ((a : A) → v ≡ ok a → R (ok a) t.nodes)
    → ((e : Error) → v ≡ err e → R (err e) (undo t).1.nodes)
    → Ends R (undone v t undo)
undone-Ends (ok a) t undo R done failing = done a refl
undone-Ends (err e) t undo R done failing = failing e refl

pub or_undo-Ends :
    {A B : Type 0} (m : Io A) (undo : Io B) (t : Disk) (R : Result Error A → Nodes → Type 0)
    → ((a : A) → (m t).0 ≡ ok a → R (ok a) (m t).1.nodes)
    → ((e : Error) → (m t).0 ≡ err e → R (err e) (undo (m t).1).1.nodes)
    → Ends R (or_undo m undo t)
unfolding or_undo
or_undo-Ends m undo t R done failing = undone-Ends (m t).0 (m t).1 undo R done failing

pub record Looks {A : Type 0} (m : Io A) : Type 0 where
  pub same : (t : Disk) → (m t).1.nodes ≡ t.nodes

rest_same :
    {A B : Type 0} (v : Result Error A) (t : Disk) (f : A → Io B)
    → ((a : A) → Looks (f a))
    → (rest v t f).1.nodes ≡ t.nodes
rest_same (ok a) t f h = (h a).same t
rest_same (err e) t f h = refl

pub >>=-Looks :
    {A B : Type 0} {m : Io A} {f : A → Io B} → Looks m → ((a : A) → Looks (f a)) → Looks (m >>= f)
unfolding ◌>>=◌
>>=-Looks {m = m} {f = f} l h = record { same = λ t. rest_same (m t).0 (m t).1 f h ∙ l.same t }

pub give-Looks : {A : Type 0} (v : Result Error A) → Looks (give v)
unfolding give
give-Looks v = record { same = λ t. refl }

pub attempt-Looks : {A : Type 0} {m : Io A} → Looks m → Looks (attempt m)
unfolding attempt
attempt-Looks l = record { same = l.same }

module _ (d : Device) where
  pub symlink_metadata-Looks : (p : PathBuf) → Looks (symlink_metadata d p)
  unfolding symlink_metadata look
  symlink_metadata-Looks p = record { same = λ t. refl }

  pub read_regular-Looks : (p : PathBuf) → Looks (read_regular d p)
  unfolding read_regular look
  read_regular-Looks p = record { same = λ t. refl }

  pub sync-Looks : (p : PathBuf) → Looks (sync d p)
  unfolding sync look
  sync-Looks p = record { same = λ t. refl }

  pub exists-Looks : (p : PathBuf) → Looks (exists d p)
  unfolding exists look
  exists-Looks p = record { same = λ t. refl }

rest-eq_ok :
    {A B : Type 0} (v : Result Error A) (t : Disk) (f : A → Io B) {b : B}
    → (rest v t f).0 ≡ ok b
    → (a : A) × (v ≡ ok a) × ((f a t).0 ≡ ok b)
rest-eq_ok (ok a) t f h = (a, refl, h)
rest-eq_ok (err e) t f h = cc

pub >>=-eq_ok :
    {A B : Type 0} (m : Io A) (f : A → Io B) (t : Disk) {b : B}
    → ((m >>= f) t).0 ≡ ok b
    → (a : A) × ((m t).0 ≡ ok a) × ((f a (m t).1).0 ≡ ok b)
unfolding ◌>>=◌
>>=-eq_ok m f t h = rest-eq_ok (m t).0 (m t).1 f h

-- A first part that succeeds: the rest decides.
pub >>=-goes_on :
    {A B : Type 0} (m : Io A) (f : A → Io B) (t : Disk) (a : A) {v : Result Error B}
    → (m t).0 ≡ ok a
    → (f a (m t).1).0 ≡ v
    → ((m >>= f) t).0 ≡ v
unfolding ◌>>=◌
>>=-goes_on m f t a h g = ap (λ r. (rest r (m t).1 f).0) h ∙ g
