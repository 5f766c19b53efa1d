-- ===== src/Host/Machine/Rollback.antt =====
-- `rollback_created` and the routines that call it keep every storage directory tracked.
use spawnr.Prelude.{◌≡◌, List, [], ◌∷◌, Result, ok, err}
use spawnr.Prelude.Text.{Str}
use spawnr.Host.State.{MachineRecord, Machines, remove}
use spawnr.Host.Machine.{Backend, Error, Locked, give}
use spawnr.Host.Machine.Create.{
  after_removal, remove_all, rollback_created, fail_after, or_rollback, forget_if,
  saved_or_rollback,
}
use spawnr.Host.Machine.Quiet.{Ownership, give-Quiet, save-Quiet}
use spawnr.Host.Machine.Triples.{
  MatchesId, Tracked, Inv, After, Triple, >>=-Triple, attempt-Triple, plain-Triple, consequence,
}
use spawnr.Host.Machine.Tracked.{
  AllMatch, one_match, remove-AllMatch, Gone, remove-Triple, forget-Triple,
}

module _ {b : Backend} (laws : Ownership b) where
  abbrev Matching : List MachineRecord → Locked b → Type 0
  Matching created = Inv laws (AllMatch created)

  tail_match :
      {r : MachineRecord} {rs : List MachineRecord} {m : Machines}
      → AllMatch (r ∷ rs) m
      → AllMatch rs m
  tail_match (one_match h rest) = rest

  forget_match :
      (r : MachineRecord) (rs : List MachineRecord) (m : Machines)
      → AllMatch (r ∷ rs) m
      → MatchesId r.name r.id m × AllMatch rs (remove r.name m)
  forget_match r rs m (one_match h rest) = (h, remove-AllMatch r.name rest)

  to_tail :
      {r : MachineRecord} {rs : List MachineRecord} (s : Locked b)
      → Matching (r ∷ rs) s
      → Matching rs s
  to_tail s h = record { tracked = h.tracked; facts = tail_match h.facts }

  after_removal-Triple :
      (r : MachineRecord) (rs : List MachineRecord) (v : Result Error (Unit {0}))
      (failures : List Str)
      → Triple laws
          (Tracked laws)
          (After laws (Matching (r ∷ rs)) (λ _. Gone laws (AllMatch (r ∷ rs)) r) v)
          (after_removal r v failures)
          (λ _. Matching rs)
  unfolding after_removal
  after_removal-Triple r rs (ok _) failures =
      >>=-Triple laws (forget-Triple laws r r.name (forget_match r rs)) (λ _.
        consequence laws (λ u h. h) (λ u h. h.tracked) (λ a u h. h)
          (plain-Triple laws (give-Quiet laws _)))
  after_removal-Triple r rs (err e) failures =
      consequence laws to_tail (λ u h. h.tracked) (λ a u h. h)
        (plain-Triple laws (give-Quiet laws _))

  remove_all-Triple :
      (rs : List MachineRecord) (failures : List Str)
      → Triple laws (Tracked laws) (Matching rs) (remove_all b rs failures) (λ _. Matching [])
  unfolding remove_all
  remove_all-Triple [] failures =
      consequence laws (λ u h. h) (λ u h. h.tracked) (λ a u h. h)
        (plain-Triple laws (give-Quiet laws _))
  remove_all-Triple (r ∷ rs) failures =
      >>=-Triple laws (attempt-Triple laws (remove-Triple laws r)) (λ v.
        >>=-Triple laws (after_removal-Triple r rs v failures)
          (λ failures'. remove_all-Triple rs failures'))

  pub rollback-Triple :
      (created : List MachineRecord)
      → Triple laws
          (Tracked laws)
          (Matching created)
          (rollback_created b created)
          (λ _. Tracked laws)
  unfolding rollback_created
  rollback-Triple created = >>=-Triple laws (remove_all-Triple created []) (λ failures.
      >>=-Triple laws
        (consequence laws (λ u h. h) (λ u h. h.tracked) (λ a u h. h)
          (plain-Triple laws (save-Quiet laws)))
        (λ _.
          consequence laws (λ u h. h) (λ u h. h.tracked) (λ a u h. h.tracked)
            (plain-Triple laws (give-Quiet laws _))))

  Tracked-After :
      (v : Result Error (Unit {0})) (u : Locked b)
      → After laws (Tracked laws) (λ _. Tracked laws) v u
      → Tracked laws u
  Tracked-After (ok _) u h = h
  Tracked-After (err e) u h = h

  fail-Triple :
      {A : Type 0} (Q : A → Locked b → Type 0) (e : Error)
      → Triple laws (Tracked laws) (Tracked laws) (give {b = b} {A = A} (err e)) Q
  unfolding give
  fail-Triple Q e = record { holds = λ s h. h }

  pub fail_after-Triple :
      {A : Type 0} {Q : A → Locked b → Type 0} (created : List MachineRecord) (e : Error)
      → Triple laws (Tracked laws) (Matching created) (fail_after b {A = A} created e) Q
  unfolding fail_after
  fail_after-Triple {Q = Q} created e =
      >>=-Triple laws (attempt-Triple laws (rollback-Triple created))
        (λ v. consequence laws (Tracked-After v) (λ u h. h) (λ a u h. h) (fail-Triple Q _))

  keep-Triple :
      {A : Type 0} {E : Locked b → Type 0} (Q : A → Locked b → Type 0) (a : A)
      → Triple laws E (Q a) (give (ok a)) Q
  unfolding give
  keep-Triple Q a = record { holds = λ s h. h }

  -- A failure that left `created` in the map is reported after the rollback.
  pub or_rollback-Triple :
      {A : Type 0} {E : Locked b → Type 0} {Q : A → Locked b → Type 0}
      (created : List MachineRecord) (v : Result Error A)
      → ((s : Locked b) → E s → Matching created s)
      → Triple laws (Tracked laws) (After laws E Q v) (or_rollback b created v) Q
  unfolding or_rollback
  or_rollback-Triple {Q = Q} created (ok a) h = keep-Triple Q a
  or_rollback-Triple {Q = Q} created (err e) h =
      consequence laws h (λ u x. x) (λ a u x. x) (fail_after-Triple {Q = Q} created e)

  forget_if-Triple :
      (name : Str) (r : MachineRecord) (same : r.name ≡ name) (created : List MachineRecord)
      (v : Result Error (Unit {0}))
      → Triple laws
          (Tracked laws)
          (After laws (Matching (r ∷ created)) (λ _. Gone laws (AllMatch (r ∷ created)) r) v)
          (forget_if name v)
          (λ _. Matching created)
  unfolding forget_if
  forget_if-Triple name r same created (ok _) =
      forget-Triple laws r name (λ m. rw (← same) (forget_match r created m))
  forget_if-Triple name r same created (err e) =
      consequence laws to_tail (λ u h. h.tracked) (λ a u h. h)
        (plain-Triple laws (give-Quiet laws _))

  pub saved_or_rollback-Triple :
      {Q : Locked b → Type 0} (name : Str) (r : MachineRecord) (same : r.name ≡ name)
      (created : List MachineRecord) (v : Result Error (Unit {0}))
      → ((s : Locked b) → Q s → Matching (r ∷ created) s)
      → Triple laws (Tracked laws) Q (saved_or_rollback b name r created v) (λ _. Q)
  unfolding saved_or_rollback
  saved_or_rollback-Triple {Q} name r same created (ok _) h = keep-Triple (λ _. Q) tt
  saved_or_rollback-Triple {Q} name r same created (err e) h =
      >>=-Triple laws
        (consequence laws h (λ u x. x) (λ a u x. x) (attempt-Triple laws (remove-Triple laws r)))
        (λ v. >>=-Triple laws (forget_if-Triple name r same created v) (λ _.
          >>=-Triple laws (attempt-Triple laws (rollback-Triple created)) (λ w.
            consequence laws (Tracked-After w) (λ u h. h) (λ a u h. h) (fail-Triple (λ _. Q) _))))
