-- ===== src/Host/Machine/Triples.antt =====
-- Conditions before and after a computation, and the condition that every storage directory belongs
-- to a machine record.
use spawnr.Prelude.{ℕ, ◌≡◌, refl, true, none, some, Result, ok, err, arith}
use spawnr.Prelude.Text.{Str, str_eq_iff}
use spawnr.Host.State.{MachineRecord, Machines, get, insert, remove}
use spawnr.Host.State.Laws.{get-insert, get-remove}
use spawnr.Host.Machine.{Backend, Error, M, Locked, rest, ◌>>=◌, attempt}
use spawnr.Host.Machine.Quiet.{Ownership, Quiet}

-- A record of the map has the identifier `j`.
abbrev pub HasId : ℕ → Machines → Type 0
HasId j m = (k : Str) × (r : MachineRecord) × (get k m ≡ some r) × (r.id ≡ j)

pub insert-HasId :
    (j : ℕ) (k : Str) (p : MachineRecord) (m : Machines)
    → get k m ≡ none
    → HasId j m
    → HasId j (insert k p m)
insert-HasId j k p m free (i, r, at, same) =
    (i, r, ground (arith, get-insert k i p m, str_eq_iff k i), same)

pub inserted-HasId : (k : Str) (p : MachineRecord) (m : Machines) → HasId p.id (insert k p m)
inserted-HasId k p m = (k, p, ground (arith, get-insert k k p m, str_eq_iff k k), refl)

-- `MatchesId k id m`: the record under `k`, if there is one, has the identifier `id`.
abbrev pub MatchesId : Str → ℕ → Machines → Type 0
MatchesId k id m = (r : MachineRecord) → get k m ≡ some r → r.id ≡ id

pub remove-HasId :
    (j : ℕ) (k : Str) (id : ℕ) (m : Machines)
    → MatchesId k id m
    → ((j ≡ id) → ⊥)
    → HasId j m
    → HasId j (remove k m)
remove-HasId j k id m matches other (i, r, at, same) =
    (i, r, ground (arith, get-remove k i m, str_eq_iff k i, matches r), same)

pub remove-MatchesId :
    (i k : Str) (id : ℕ) (m : Machines) → MatchesId i id m → MatchesId i id (remove k m)
remove-MatchesId i k id m h r at = ground (arith, get-remove k i m, h r)

module _ {b : Backend} (laws : Ownership b) where
  -- Every storage directory belongs to a machine of the map.
  pub record Tracked (s : Locked b) : Type 0 where
    pub tracks : (j : ℕ) → laws.owned s.world j ≡ true → HasId j s.machines

  pub record Inv (P : Machines → Type 0) (s : Locked b) : Type 0 where
    pub tracked : Tracked s
    pub facts : P s.machines

  -- The condition on the state that a computation leaves: `Q a` with a value, `E` with a failure.
  abbrev pub After :
      {A : Type 0}
      → (Locked b → Type 0)
      → (A → Locked b → Type 0)
      → Result Error A
      → Locked b
      → Type 0
  After E Q (ok a) t = Q a t
  After E Q (err e) t = E t

  pub record Triple {A : Type 0} (E P : Locked b → Type 0) (m : M b A) (Q : A → Locked b → Type 0)
      : Type 0 where
    pub holds : (s : Locked b) → P s → After E Q (m s).0 (m s).1

  rest-After :
      {A B : Type 0} {E : Locked b → Type 0} {Q : A → Locked b → Type 0} {R : B → Locked b → Type 0}
      (v : Result Error A) (t : Locked b) {f : A → M b B}
      → After E Q v t
      → ((a : A) → Triple E (Q a) (f a) R)
      → After E R (rest v t f).0 (rest v t f).1
  rest-After (ok a) t h hf = (hf a).holds t h
  rest-After (err e) t h hf = h

  pub >>=-Triple :
      {A B : Type 0} {E P : Locked b → Type 0} {m : M b A} {Q : A → Locked b → Type 0}
      {f : A → M b B} {R : B → Locked b → Type 0}
      → Triple E P m Q
      → ((a : A) → Triple E (Q a) (f a) R)
      → Triple E P (m >>= f) R
  unfolding ◌>>=◌
  >>=-Triple {m = m} {f = f} hm hf = record {
    holds = λ s h. rest-After (m s).0 (m s).1 (hm.holds s h) hf;
  }

  pub attempt-Triple :
      {A : Type 0} {E E' P : Locked b → Type 0} {m : M b A} {Q : A → Locked b → Type 0}
      → Triple E' P m Q
      → Triple E P (attempt m) (λ v t. After E' Q v t)
  unfolding attempt
  attempt-Triple hm = record { holds = hm.holds }

  quiet_After :
      {A : Type 0} {P : Machines → Type 0} {F : A → Type 0} (v : Result Error A) (t : Locked b)
      → Inv P t
      → ((a : A) → v ≡ ok a → F a)
      → After (Inv P) (λ a t. Inv P t × F a) v t
  quiet_After (ok a) t h fact = (h, fact a refl)
  quiet_After (err e) t h fact = h

  pub Quiet-Inv :
      {A : Type 0} {P : Machines → Type 0} {m : M b A} (s : Locked b)
      → Quiet laws m
      → Inv P s
      → Inv P (m s).1
  Quiet-Inv {P = P} {m = m} s q h = record {
    tracked = record {
      tracks = λ j o. rw (q.machines_same s) (h.tracked.tracks j (q.creates_none s j o));
    };
    facts = rw (q.machines_same s) h.facts;
  }

  pub Quiet-Triple :
      {A : Type 0} {P : Machines → Type 0} {m : M b A} {F : A → Type 0}
      → Quiet laws m
      → ((s : Locked b) (a : A) → (m s).0 ≡ ok a → F a)
      → Triple (Inv P) (Inv P) m (λ a t. Inv P t × F a)
  Quiet-Triple {m = m} q fact = record {
    holds = λ s h. quiet_After (m s).0 (m s).1 (Quiet-Inv s q h) (fact s);
  }

  simple_After :
      {A : Type 0} (E : Locked b → Type 0) (v : Result Error A) (t : Locked b)
      → E t
      → After E (λ a. E) v t
  simple_After E (ok a) t h = h
  simple_After E (err e) t h = h

  pub plain-Triple :
      {A : Type 0} {P : Machines → Type 0} {m : M b A}
      → Quiet laws m
      → Triple (Inv P) (Inv P) m (λ a. Inv P)
  plain-Triple {m = m} q = record {
    holds = λ s h. simple_After _ (m s).0 (m s).1 (Quiet-Inv s q h);
  }

  weaken_After :
      {A : Type 0} {E E' : Locked b → Type 0} {Q Q' : A → Locked b → Type 0} (v : Result Error A)
      (t : Locked b)
      → ((u : Locked b) → E u → E' u)
      → ((a : A) (u : Locked b) → Q a u → Q' a u)
      → After E Q v t
      → After E' Q' v t
  weaken_After (ok a) t e q h = q a t h
  weaken_After (err x) t e q h = e t h

  pub consequence :
      {A : Type 0} {E E' P P' : Locked b → Type 0} {m : M b A} {Q Q' : A → Locked b → Type 0}
      → ((u : Locked b) → P' u → P u)
      → ((u : Locked b) → E u → E' u)
      → ((a : A) (u : Locked b) → Q a u → Q' a u)
      → Triple E P m Q
      → Triple E' P' m Q'
  consequence {m = m} p e q h = record {
    holds = λ s x. weaken_After (m s).0 (m s).1 e q (h.holds s (p s x));
  }
