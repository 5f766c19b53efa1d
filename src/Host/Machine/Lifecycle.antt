-- ===== src/Host/Machine/Lifecycle.antt =====
-- `init` and `remove` keep every storage directory in the map.
use spawnr.Prelude.{
  ◌≡◌, refl, Bool, none, some, List, [], ◌∷◌, ok, err-ne-ok, Option-cases, inl, inr, arith,
}
use spawnr.Prelude.Text.{Str}
use spawnr.Host.State.{MachineRecord, Machines, get}
use spawnr.Host.State.Laws.{get-insert_same}
use spawnr.Host.Machine.{Backend, Locked, insert_machine, lookup}
use spawnr.Host.Machine.Create.{init, ensure_new}
use spawnr.Host.Machine.Commands.{remove}
use spawnr.Host.Machine.Quiet.{
  prepare_storage-Quiet, Ownership, save-Quiet, on_world-Quiet, new_record-Quiet, verify_if-Quiet,
  stop_unless-Quiet,
}
use spawnr.Host.Machine.Triples.{
  Tracked, Inv, Triple, >>=-Triple, attempt-Triple, plain-Triple, Quiet-Triple, consequence,
}
use spawnr.Host.Machine.Tracked.{
  AllMatch, AllHeld, none_held, one_held, held-AllMatch, Almost, commit-Triple, remove-Triple,
  forget-Triple, insert-Triple,
}
use spawnr.Host.Machine.Steps.{
  Named, PreparedNamed, new_record-Gives, prepare-Gives, given, step-Triple, of-Tracked,
  read-Triple, give-Triple, to-Tracked, same-Tracked,
}
use spawnr.Host.Machine.Rollback.{or_rollback-Triple}

-- The map has no machine `name`.
record Lacks (name : Str) (m : Machines) : Type 0 where
  lacks : get name m ≡ none

ensure_new_lem :
    (m : Machines) (name : Str) {u : Unit {0}} → ensure_new m name ≡ ok u → get name m ≡ none
ensure_new_lem m name h = elim (Option-cases (get name m)) [
  | inl free ↦ free
  | inr (r, at) ↦ absurd (err-ne-ok (rw (at, ensure_new) at h))
]

lookup-eq_ok :
    (m : Machines) (name : Str) (r : MachineRecord) → lookup m name ≡ ok r → get name m ≡ some r
unfolding lookup
lookup-eq_ok m name r h = ground arith

abbrev Anything : Machines → Type 0
Anything m = Unit {0}

module _ {b : Backend} (laws : Ownership b) where
  to_single :
      (m : Machines) (name : Str) {u : Unit {0}}
      → ensure_new m name ≡ ok u
      → (s : Locked b) → Inv laws (λ n. n ≡ m) s
      → Inv laws (Lacks name) s
  to_single m name new s h = record {
    tracked = h.tracked;
    facts = record { lacks = rw h.facts (ensure_new_lem m name new) };
  }

  insert-Single :
      (p : MachineRecord) (name : Str)
      → p.name ≡ name
      → Triple laws
          (Tracked laws)
          (Almost laws (Lacks name) p)
          (insert_machine name p)
          (λ _. Inv laws (AllHeld (p ∷ [])))
  insert-Single p name same = rw (← same) (
      insert-Triple laws p
        (λ m facts. (facts.lacks, one_held p (get-insert_same p.name p m) refl none_held)))

  held_matching :
      {created : List MachineRecord} (s : Locked b)
      → Inv laws (AllHeld created) s
      → Inv laws (AllMatch created) s
  held_matching s h = record { tracked = h.tracked; facts = held-AllMatch h.facts }

  init-Triple :
      (name environment : Str)
      → Triple laws (Tracked laws) (Tracked laws) (init b name environment) (λ _. Tracked laws)
  unfolding init
  init-Triple name environment = give-Triple laws _ (same-Tracked laws) (λ _ _.
      give-Triple laws _ (same-Tracked laws) (λ _ _. read-Triple laws (λ m.
        give-Triple laws _ (to-Tracked laws) (λ _ new.
          >>=-Triple laws
            (consequence laws (to_single m name new) (λ u h. h.tracked) (λ a u h. h)
              (Quiet-Triple laws {F = Named name} (new_record-Quiet laws name environment none none)
                (new_record-Gives name environment none none).gives))
            (λ r. given laws (λ same.
              >>=-Triple laws
                (consequence laws (λ u h. h) (λ u h. h.tracked) (λ a u h. h)
                  (Quiet-Triple laws {F = PreparedNamed name} (prepare_storage-Quiet laws r)
                    (prepare-Gives laws name r same).gives))
                (λ (p, base). given laws (λ same'.
                  >>=-Triple laws (step-Triple laws (on_world-Quiet laws laws.of_block)) (λ _.
                    >>=-Triple laws
                      (consequence laws (λ u h. h) (λ u h. h.tracked) (λ a u h. h)
                        (commit-Triple laws p base))
                      (λ _. >>=-Triple laws (insert-Single p name same') (λ _.
                        >>=-Triple laws (attempt-Triple laws (plain-Triple laws (save-Quiet laws)))
                          (λ saved.
                            consequence laws (λ u h. h) (λ u h. h) (λ a u h. h.tracked)
                              (or_rollback-Triple laws {Q = λ _. Inv laws (AllHeld (p ∷ []))}
                                (p ∷ []) saved held_matching)))))))))))))

  -- After an `init` that began with every storage directory tracked, whatever failed on the way,
  -- every storage directory belongs to a machine of the map.
  pub init-Tracked :
      (name environment : Str) (s : Locked b)
      → Tracked laws s
      → Tracked laws (init b name environment s).1
  init-Tracked name environment s h =
      of-Tracked laws (λ _. Tracked laws) _ _ ((init-Triple name environment).holds s h)

  abbrev Holds : Str → MachineRecord → Machines → Type 0
  Holds name r m = get name m ≡ some r

  to_holds :
      (m : Machines) (name : Str) (r : MachineRecord)
      → lookup m name ≡ ok r
      → (s : Locked b) → Inv laws (λ n. n ≡ m) s
      → Inv laws (Holds name r) s
  to_holds m name r found s h = record {
    tracked = h.tracked;
    facts = rw h.facts (lookup-eq_ok m name r found);
  }

  remove-Triple' :
      (name : Str) (force : Bool)
      → Triple laws (Tracked laws) (Tracked laws) (remove b name force) (λ _. Tracked laws)
  unfolding remove
  remove-Triple' name force = read-Triple laws (λ m.
      give-Triple laws _ (to-Tracked laws) (λ r found.
        consequence laws (to_holds m name r found) (λ u h. h) (λ a u h. h)
          (>>=-Triple laws (step-Triple laws (on_world-Quiet laws (laws.of_status r))) (λ status.
            >>=-Triple laws (step-Triple laws (verify_if-Quiet laws r _ _)) (λ _.
              >>=-Triple laws (step-Triple laws (on_world-Quiet laws (laws.of_status r)))
                (λ status'. >>=-Triple laws (step-Triple laws (stop_unless-Quiet laws r _)) (λ _.
                  >>=-Triple laws
                    (consequence laws (λ u h. h) (λ u h. h.tracked) (λ a u h. h)
                      (remove-Triple laws r))
                    (λ _.
                      >>=-Triple laws
                        (forget-Triple laws {P' = Anything} r name
                          (λ n at. ((λ r' at'. ground (arith, at, at')), tt)))
                        (λ _.
                          consequence laws (λ u h. h) (λ u h. h) (λ a u h. h.tracked)
                            (step-Triple laws (save-Quiet laws)))))))))))

  -- After an `rm` that began with every storage directory tracked, whatever failed on the way,
  -- every storage directory belongs to a machine of the map.
  pub remove-Tracked :
      (name : Str) (force : Bool) (s : Locked b)
      → Tracked laws s
      → Tracked laws (remove b name force s).1
  remove-Tracked name force s h =
      of-Tracked laws (λ _. Tracked laws) _ _ ((remove-Triple' name force).holds s h)
