-- ===== src/Host/Machine/Cloning.antt =====
-- `clone_machines` keeps every storage directory in the map.
use spawnr.Prelude.{
  ℕ, ◌≡◌, refl, false, Option, none, some, List, [], ◌∷◌, Result, ok, err, ok-injective, err-ne-ok,
}
use spawnr.Prelude.Text.{Str}
use spawnr.Host.Names
use spawnr.Host.Names.{occupies, allocate_clone_names, validate_name}
use spawnr.Host.Names.Valid.{AreFresh, allocate_clone_names_fresh}
use spawnr.Host.State.{MachineRecord, Machines, keys}
use spawnr.Host.State.Laws.{get-insert_same}
use spawnr.Host.Machine.{Backend, Locked, insert_machine, lift}
use spawnr.Host.Machine.Create.{clone_one, clone_loop, clone_machines, validate_requested}
use spawnr.Host.Machine.Quiet.{
  prepare_storage-Quiet, Ownership, give-Quiet, save-Quiet, on_world-Quiet, new_record-Quiet,
  start_record-Quiet, request_ok-Quiet, >>=-Quiet,
}
use spawnr.Host.Machine.Triples.{
  Tracked, Inv, Triple, >>=-Triple, attempt-Triple, plain-Triple, Quiet-Triple, consequence,
}
use spawnr.Host.Machine.Tracked.{
  Room, keys-Room, insert-Room, AllMatch, AllHeld, none_held, one_held, insert-AllHeld,
  held-AllMatch, Almost, commit-Triple, insert-Triple,
}
use spawnr.Host.Machine.Steps.{
  Named, PreparedNamed, new_record-Gives, prepare-Gives, given, same_either, step-Triple,
  finish-Triple, of-Tracked, read-Triple, give-Triple, to-Tracked, same-Tracked,
}
use spawnr.Host.Machine.Rollback.{or_rollback-Triple, saved_or_rollback-Triple}

-- The map has only names of `existing`, and holds each of `created`.
record Loop (existing : List Str) (created : List MachineRecord) (m : Machines) : Type 0 where
  room : Room existing m
  held : AllHeld created m

lift-eq_ok : {A : Type 0} {a : A} (v : Result Names.Error A) → lift v ≡ ok a → v ≡ ok a
lift-eq_ok (ok x) h = rw (ok-injective h) refl
lift-eq_ok (err e) h = absurd (err-ne-ok h)

requested_valid :
    (requested : Option Str) {u : Unit {0}}
    → validate_requested requested ≡ ok u
    → (name : Str) → requested ≡ some name
    → validate_name name ≡ ok tt
requested_valid none h name eq = cc
requested_valid (some n) h name eq = let eq' : n ≡ name = cc in rw (← eq') (lift-eq_ok _ h)

module _ {b : Backend} (laws : Ownership b) where
  to_matching :
      {existing : List Str} {created : List MachineRecord} (s : Locked b)
      → Inv laws (Loop existing created) s
      → Inv laws (AllMatch created) s
  to_matching s h = record { tracked = h.tracked; facts = held-AllMatch h.facts.held }

  -- From a free name on: what is committed, is entered.
  insert-Loop :
      (existing : List Str) (created : List MachineRecord) (p : MachineRecord) (name : Str)
      → occupies existing name ≡ false
      → p.name ≡ name
      → Triple laws
          (Tracked laws)
          (Almost laws (Loop existing created) p)
          (insert_machine name p)
          (λ _. Inv laws (Loop (name ∷ existing) (p ∷ created)))
  insert-Loop existing created p name free same = rw (← same) (
      insert-Triple laws {P' = Loop (p.name ∷ existing) (p ∷ created)} p (λ m facts.
        let none_there = facts.room p.name (rw same free) in
        (
          none_there,
          record {
            room = insert-Room p.name p existing m facts.room;
            held =
                one_held p (get-insert_same p.name p m) refl
                  (insert-AllHeld p.name p none_there facts.held);
          },
        )))

  module _ (environment repository directory : Str) where
    clone_one-Triple :
        (name : Str) (existing : List Str) (created : List MachineRecord)
        → occupies existing name ≡ false
        → Triple laws
            (Tracked laws)
            (Inv laws (Loop existing created))
            (clone_one b environment repository directory name created)
            (λ p. Inv laws (Loop (name ∷ existing) (p ∷ created)))
    unfolding clone_one
    clone_one-Triple name existing created free =
        >>=-Triple laws
          (consequence laws (λ u h. h) (λ u h. h.tracked) (λ a u h. h)
            (Quiet-Triple laws {F = Named name}
              (new_record-Quiet laws name environment (some repository) (some directory))
              (new_record-Gives name environment (some repository) (some directory)).gives))
          (λ r. given laws (λ same.
            >>=-Triple laws
              (attempt-Triple laws (
                Quiet-Triple laws {F = PreparedNamed name} (prepare_storage-Quiet laws r)
                  (prepare-Gives laws name r same).gives))
              (λ preparation.
                >>=-Triple laws (or_rollback-Triple laws created preparation to_matching)
                  (λ (p, base). given laws (λ same'.
                    >>=-Triple laws
                      (attempt-Triple laws (plain-Triple laws (on_world-Quiet laws laws.of_block)))
                      (λ block.
                        >>=-Triple laws (or_rollback-Triple laws created block to_matching) (λ _.
                          >>=-Triple laws (attempt-Triple laws (commit-Triple laws p base))
                            (λ committed.
                              >>=-Triple laws
                                (or_rollback-Triple laws created committed to_matching)
                                (λ _.
                                  >>=-Triple laws (insert-Loop existing created p name free same')
                                    (λ _.
                                      >>=-Triple laws
                                        (attempt-Triple laws (plain-Triple laws (save-Quiet laws)))
                                        (λ saved.
                                          >>=-Triple laws
                                            (consequence laws (same_either laws _ saved) (λ u h. h)
                                              (λ a u h. h)
                                              (saved_or_rollback-Triple laws name p same' created
                                                saved to_matching))
                                            (λ _.
                                              >>=-Triple laws
                                                (attempt-Triple laws (
                                                  plain-Triple laws (
                                                    >>=-Quiet laws (start_record-Quiet laws p)
                                                      (λ _. request_ok-Quiet laws p _ _))))
                                                (λ started.
                                                  >>=-Triple laws
                                                    (or_rollback-Triple laws (p ∷ created) started
                                                      to_matching)
                                                    (λ _.
                                                      finish-Triple laws
                                                        (λ p.
                                                          Inv laws
                                                            (Loop (name ∷ existing) (p ∷ created)))
                                                        p))))))))))))))

    clone_loop-Triple :
        (names existing : List Str) (created : List MachineRecord)
        → AreFresh existing names
        → Triple laws
            (Tracked laws)
            (Inv laws (Loop existing created))
            (clone_loop b environment repository directory names created)
            (λ _. Tracked laws)
    unfolding clone_loop
    clone_loop-Triple [] existing created fresh =
        consequence laws (λ u h. h) (λ u h. h) (λ a u h. h.tracked)
          (step-Triple laws (give-Quiet laws _))
    clone_loop-Triple (name ∷ names) existing created (free, valid, fresh) =
        >>=-Triple laws (clone_one-Triple name existing created free)
          (λ r. clone_loop-Triple names (name ∷ existing) (r ∷ created) fresh)

  to_loop : (m : Machines) (s : Locked b) → Inv laws (λ n. n ≡ m) s → Inv laws (Loop (keys m) []) s
  to_loop m s h = record {
    tracked = h.tracked;
    facts = record { room = rw h.facts (keys-Room m); held = none_held };
  }

  allocated :
      (lowercase : ℕ → List ℕ) (requested : Option Str) (repository : Str) (count : ℕ)
      (existing names : List Str) {u : Unit {0}}
      → validate_requested requested ≡ ok u
      → lift (allocate_clone_names lowercase requested repository count existing) ≡ ok names
      → AreFresh existing names
  allocated lowercase requested repository count existing names valid made =
      (allocate_clone_names_fresh lowercase requested repository count existing names
        (requested_valid requested valid) (lift-eq_ok _ made)).1

  clone_machines-Triple :
      (lowercase : ℕ → List ℕ) (environment repository : Str) (requested : Option Str) (count : ℕ)
      → Triple laws
          (Tracked laws)
          (Tracked laws)
          (clone_machines lowercase b environment repository requested count)
          (λ _. Tracked laws)
  unfolding clone_machines
  clone_machines-Triple lowercase environment repository requested count =
      give-Triple laws _ (same-Tracked laws) (λ _ _. give-Triple laws _ (same-Tracked laws) (λ _ _.
        give-Triple laws _ (same-Tracked laws) (λ u valid. read-Triple laws (λ m.
          give-Triple laws _ (to-Tracked laws) (λ names made.
            give-Triple laws _ (to-Tracked laws) (λ directory _.
              consequence laws (to_loop m) (λ u h. h) (λ a u h. h)
                (clone_loop-Triple environment repository directory names (keys m) []
                  (allocated lowercase requested repository count (keys m) names valid made))))))))

  -- After a `clone` that began with every storage directory tracked, whatever failed on the way,
  -- every storage directory belongs to a machine of the map.
  pub clone_machines-Tracked :
      (lowercase : ℕ → List ℕ) (environment repository : Str) (requested : Option Str) (count : ℕ)
      (s : Locked b)
      → Tracked laws s
      → Tracked laws (clone_machines lowercase b environment repository requested count s).1
  clone_machines-Tracked lowercase environment repository requested count s h =
      of-Tracked laws (λ _. Tracked laws) _ _
        ((clone_machines-Triple lowercase environment repository requested count).holds s h)
