-- ===== src/Host/Machine/Tracked.antt =====
-- Rollback: what `rollback_created` and its callers keep of the storage and the records.
use spawnr.Prelude.{
  ℕ, ◌≡◌, refl, sym, ap, ◌∙◌, true, false, none, some, List, [], ◌∷◌, Result, ok, err, arith, inl,
  inr, ◌⊎◌,
}
use spawnr.Prelude.Text.{Str, str_eq_iff}
use spawnr.Host.Names.{occupies}
use spawnr.Host.State.{MachineRecord, Machines, get, insert, remove, keys}
use spawnr.Host.State.Laws.{get-insert}
use spawnr.Host.Machine.{Backend, Error, Locked, on_world, insert_machine, remove_machine}
use spawnr.Host.Machine.Quiet.{Ownership}
use spawnr.Host.Machine.Triples.{
  HasId, MatchesId, insert-HasId, inserted-HasId, remove-HasId, remove-MatchesId, Tracked, Inv,
  After, Triple,
}

-- No name outside `existing` is taken.
abbrev pub Room : List Str → Machines → Type 0
Room existing m = (k : Str) → occupies existing k ≡ false → get k m ≡ none

-- Each of the records is in the map, or another one with its identifier under its name.
pub data AllHeld : List MachineRecord → Machines → Type 0 where
  none_held : {m : Machines} → AllHeld [] m
  one_held :
      {r : MachineRecord} {rs : List MachineRecord} {m : Machines}
      → (r' : MachineRecord) → get r.name m ≡ some r'
      → r'.id ≡ r.id
      → AllHeld rs m
      → AllHeld (r ∷ rs) m

pub data AllMatch : List MachineRecord → Machines → Type 0 where
  none_match : {m : Machines} → AllMatch [] m
  one_match :
      {r : MachineRecord} {rs : List MachineRecord} {m : Machines}
      → MatchesId r.name r.id m
      → AllMatch rs m
      → AllMatch (r ∷ rs) m

pub held-AllMatch : {rs : List MachineRecord} {m : Machines} → AllHeld rs m → AllMatch rs m
held-AllMatch none_held = none_match
held-AllMatch (one_held r' at same rest) =
    one_match (λ r h. ground (arith, at, h, same)) (held-AllMatch rest)

pub remove-AllMatch :
    (k : Str) {rs : List MachineRecord} {m : Machines} → AllMatch rs m → AllMatch rs (remove k m)
remove-AllMatch k none_match = none_match
remove-AllMatch k (one_match {r} h rest) =
    one_match (remove-MatchesId r.name k r.id _ h) (remove-AllMatch k rest)

pub insert-AllHeld :
    (k : Str) (p : MachineRecord) {rs : List MachineRecord} {m : Machines}
    → get k m ≡ none
    → AllHeld rs m
    → AllHeld rs (insert k p m)
insert-AllHeld k p free none_held = none_held
insert-AllHeld k p free (one_held {r} {rs} {m} r' at same rest) =
    one_held r' (ground (arith, get-insert k r.name p m, str_eq_iff k r.name)) same
      (insert-AllHeld k p free rest)

pub insert-Room :
    (k : Str) (p : MachineRecord) (existing : List Str) (m : Machines)
    → Room existing m
    → Room (k ∷ existing) (insert k p m)
insert-Room k p existing m room i h = ground (arith, get-insert k i p m, room i, str_eq_iff k i)

pub keys-Room : (m : Machines) → Room (keys m) m
unfolding get
keys-Room [] k h = refl
keys-Room ((i, r) ∷ m) k h = ground (arith, keys-Room m k, str_eq_iff i k)

module _ {b : Backend} (laws : Ownership b) where
  -- The storage of `p` was committed, and its record is not in the map yet.
  pub record Almost (P : Machines → Type 0) (p : MachineRecord) (s : Locked b) : Type 0 where
    pub tracks : (j : ℕ) → laws.owned s.world j ≡ true → HasId j s.machines ⊎ (p.id ≡ j)
    pub facts : P s.machines

  -- The storage of `p` is gone.
  pub record Gone (P : Machines → Type 0) (p : MachineRecord) (s : Locked b) : Type 0 where
    pub tracked : Tracked laws s
    pub facts : P s.machines
    pub gone : laws.owned s.world p.id ≡ false

  commit_After :
      {P : Machines → Type 0} (p : MachineRecord) (base : ℕ) (s : Locked b)
      (v : Result Error (Unit {0})) (w : b.World)
      → (b.commit_storage p base s.world) ≡ (v, w)
      → Inv laws P s
      → After laws (Inv laws P) (λ _. Almost P p) v (record s { world = w })
  commit_After p base s (ok u) w eq h = record {
    tracks = λ j o. elim (laws.commit_ok p base s.world j (ap (λ x. x.0) eq) (rw eq o)) [
      | inl old ↦ inl (h.tracked.tracks j old)
      | inr new ↦ inr new
    ];
    facts = h.facts;
  }
  commit_After p base s (err e) w eq h = record {
    tracked = record {
      tracks = λ j o.
          h.tracked.tracks j (laws.commit_err p base s.world j e (ap (λ x. x.0) eq) (rw eq o));
    };
    facts = h.facts;
  }

  pub commit-Triple :
      {P : Machines → Type 0} (p : MachineRecord) (base : ℕ)
      → Triple laws (Inv laws P) (Inv laws P) (on_world (b.commit_storage p base)) (λ _. Almost P p)
  unfolding on_world
  commit-Triple p base = record { holds = λ s h. commit_After p base s _ _ refl h }

  remove_After :
      {P : Machines → Type 0} (p : MachineRecord) (s : Locked b) (v : Result Error (Unit {0}))
      (w : b.World)
      → (b.remove_storage p s.world) ≡ (v, w)
      → Inv laws P s
      → After laws (Inv laws P) (λ _. Gone P p) v (record s { world = w })
  remove_After p s (ok u) w eq h = record {
    tracked = record {
      tracks = λ j o. h.tracked.tracks j ((laws.of_remove p).shrinks s.world j (rw eq o));
    };
    facts = h.facts;
    gone = ap (λ x. laws.owned x.1 p.id) (sym eq) ∙ laws.remove_ok p s.world (ap (λ x. x.0) eq);
  }
  remove_After p s (err e) w eq h = record {
    tracked = record {
      tracks = λ j o. h.tracked.tracks j ((laws.of_remove p).shrinks s.world j (rw eq o));
    };
    facts = h.facts;
  }

  pub remove-Triple :
      {P : Machines → Type 0} (p : MachineRecord)
      → Triple laws (Inv laws P) (Inv laws P) (on_world (b.remove_storage p)) (λ _. Gone P p)
  unfolding on_world
  remove-Triple p = record { holds = λ s h. remove_After p s _ _ refl h }

  pub forget-Triple :
      {E : Locked b → Type 0} {P P' : Machines → Type 0} (p : MachineRecord) (k : Str)
      → ((m : Machines) → P m → MatchesId k p.id m × P' (remove k m))
      → Triple laws E (Gone P p) (remove_machine k) (λ _. Inv laws P')
  unfolding remove_machine
  forget-Triple p k kept = record {
    holds = λ s h. record {
      tracked = record {
        tracks = λ j o.
            remove-HasId j k p.id s.machines (kept s.machines h.facts).0
              (λ same. ground (arith, h.gone, o, same)) (h.tracked.tracks j o);
      };
      facts = (kept s.machines h.facts).1;
    };
  }

  pub insert-Triple :
      {E : Locked b → Type 0} {P P' : Machines → Type 0} (p : MachineRecord)
      → ((m : Machines) → P m → (get p.name m ≡ none) × P' (insert p.name p m))
      → Triple laws E (Almost P p) (insert_machine p.name p) (λ _. Inv laws P')
  unfolding insert_machine
  insert-Triple p kept = record {
    holds = λ s h. record {
      tracked = record {
        tracks = λ j o. elim (h.tracks j o) [
          | inl old ↦ insert-HasId j p.name p s.machines (kept s.machines h.facts).0 old
          | inr new ↦ rw (← new) (inserted-HasId p.name p s.machines)
        ];
      };
      facts = (kept s.machines h.facts).1;
    };
  }
