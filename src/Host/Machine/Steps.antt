-- ===== src/Host/Machine/Steps.antt =====
-- Rules for the steps that the commands share.
use spawnr.Prelude.{ℕ, ◌≡◌, refl, Option, Result, ok, err, ok-injective, err-ne-ok}
use spawnr.Prelude.Text.{Str}
use spawnr.Host.State.{MachineRecord, Machines}
use spawnr.Host.Machine.{
  prepare_storage, Backend, Error, M, Locked, rest, ◌>>=◌, give, read_machines,
}
use spawnr.Host.Machine.Record.{new_record}
use spawnr.Host.Machine.Quiet.{Ownership, Quiet}
use spawnr.Host.Machine.Triples.{Tracked, Inv, After, Triple, plain-Triple, consequence}

abbrev pub Named : Str → MachineRecord → Type 0
Named name r = r.name ≡ name

abbrev pub PreparedNamed : Str → MachineRecord × ℕ → Type 0
PreparedNamed name (p, base) = p.name ≡ name

module _ {b : Backend} where
  -- A value that the computation returns has `F`.
  pub record Gives {A : Type 0} (F : A → Type 0) (m : M b A) : Type 0 where
    pub gives : (s : Locked b) (a : A) → (m s).0 ≡ ok a → F a

  pub rest_gives :
      {A B : Type 0} {F : B → Type 0} (v : Result Error A) (t : Locked b) (f : A → M b B)
      → ((a : A) → Gives F (f a))
      → (x : B) → (rest v t f).0 ≡ ok x
      → F x
  rest_gives (ok a) t f hf x h = (hf a).gives t x h
  rest_gives (err e) t f hf x h = absurd (err-ne-ok h)

  pub >>=-Gives :
      {A B : Type 0} {F : B → Type 0} (m : M b A) {f : A → M b B}
      → ((a : A) → Gives F (f a))
      → Gives F (m >>= f)
  unfolding ◌>>=◌
  >>=-Gives m {f = f} hf = record { gives = λ s x h. rest_gives (m s).0 (m s).1 f hf x h }

  pub give-Gives : {A : Type 0} (F : A → Type 0) (a : A) → F a → Gives F (give {b = b} (ok a))
  unfolding give
  give-Gives F a h = record { gives = λ s x eq. rw (← ok-injective eq) h }

  pub new_record-Gives :
      (name environment : Str) (repository directory : Option Str)
      → Gives (Named name) (new_record b name environment repository directory)
  unfolding new_record
  new_record-Gives name environment repository directory = >>=-Gives _ (λ _. >>=-Gives _ (λ _.
      >>=-Gives _ (λ _. >>=-Gives _ (λ _. >>=-Gives _ (λ _. give-Gives (Named name) _ refl)))))

module _ {b : Backend} (laws : Ownership b) where
  pub prepare-Gives :
      (name : Str) (r : MachineRecord)
      → r.name ≡ name
      → Gives (PreparedNamed name) (prepare_storage b r)
  unfolding prepare_storage
  prepare-Gives name r same =
      >>=-Gives _ (λ ((digest, cache_key), base). give-Gives (PreparedNamed name) _ same)

  -- A condition that does not speak of the state.
  pub given :
      {A : Type 0} {E P : Locked b → Type 0} {F : Type 0} {m : M b A} {Q : A → Locked b → Type 0}
      → (F → Triple laws E P m Q)
      → Triple laws E (λ s. P s × F) m Q
  given h = record { holds = λ s x. (h x.1).holds s x.0 }

  pub same_either :
      (Q : Locked b → Type 0) (v : Result Error (Unit {0})) (u : Locked b)
      → After laws Q (λ _. Q) v u
      → Q u
  same_either Q (ok _) u h = h
  same_either Q (err e) u h = h

  -- A quiet step, after which a failure leaves the storage tracked.
  pub step-Triple :
      {A : Type 0} {P : Machines → Type 0} {m : M b A}
      → Quiet laws m
      → Triple laws (Tracked laws) (Inv laws P) m (λ _. Inv laws P)
  step-Triple q = consequence laws (λ u h. h) (λ u h. h.tracked) (λ a u h. h) (plain-Triple laws q)

  pub finish-Triple :
      (Q : MachineRecord → Locked b → Type 0) (p : MachineRecord)
      → Triple laws (Tracked laws) (Q p) (give (ok p)) Q
  unfolding give
  finish-Triple Q p = record { holds = λ s h. h }

  pub of-Tracked :
      (Q : Unit {0} → Locked b → Type 0) (v : Result Error (Unit {0})) (u : Locked b)
      → After laws (Tracked laws) (λ _. Tracked laws) v u
      → Tracked laws u
  of-Tracked Q (ok _) u h = h
  of-Tracked Q (err e) u h = h

  pub start_whole : (s : Locked b) → Tracked laws s → Inv laws (λ n. n ≡ s.machines) s
  start_whole s h = record { tracked = h; facts = refl }

  -- A computation that goes on with the map.
  pub read-Triple :
      {A : Type 0} {f : Machines → M b A} {Q : A → Locked b → Type 0}
      → ((m : Machines) → Triple laws (Tracked laws) (Inv laws (λ n. n ≡ m)) (f m) Q)
      → Triple laws (Tracked laws) (Tracked laws) (read_machines >>= f) Q
  unfolding ◌>>=◌ read_machines
  read-Triple h = record { holds = λ s t. (h s.machines).holds s (start_whole s t) }

  -- A result that is given, and goes on with a fact about the value.
  pub give-Triple :
      {A B : Type 0} {P : Locked b → Type 0} (v : Result Error A) {f : A → M b B}
      {Q : B → Locked b → Type 0}
      → ((s : Locked b) → P s → Tracked laws s)
      → ((a : A) → v ≡ ok a → Triple laws (Tracked laws) P (f a) Q)
      → Triple laws (Tracked laws) P (give v >>= f) Q
  unfolding ◌>>=◌ give
  give-Triple (ok a) t h = record { holds = λ s x. (h a refl).holds s x }
  give-Triple (err e) t h = record { holds = λ s x. t s x }

  pub to-Tracked : {P : Machines → Type 0} (s : Locked b) → Inv laws P s → Tracked laws s
  to-Tracked s h = h.tracked

  pub same-Tracked : (s : Locked b) → Tracked laws s → Tracked laws s
  same-Tracked s h = h
