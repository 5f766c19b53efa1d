-- ===== src/Host/Machine/Journal.antt =====
-- A backend that keeps a journal beside its world: the commits and the removals of storage that
-- reported success, the latest first. Every operation is that of the backend.
use spawnr.Prelude.{
  ℕ, ◌≡◌, Bool, true, false, ◌||◌, ◌&&◌, not, ◌==◌, ==_iff, List, [], ◌∷◌, Result, ok, err, ◌⊎◌,
  inl, arith,
}
use spawnr.Host.Machine.{Backend, Error}
use spawnr.Host.Machine.Quiet.{Ownership, Shrinks}

pub data Event : Type 0 where
  committed removed : ℕ → Event

-- The storage of `j` was committed, and not removed since.
unfoldable pub booked : List Event → ℕ → Bool
booked [] j = false
booked (committed i ∷ events) j = i == j || booked events j
booked (removed i ∷ events) j = not (i == j) && booked events j

unfoldable pub note : Event → Result Error (Unit {0}) → List Event → List Event
note event (ok u) events = event ∷ events
note event (err e) events = events

abbrev pub Entries : Type 0 → Type 0
Entries W = W × List Event

-- An operation that is not written down, and one that is if it succeeds.
abbrev pub silent : {W A : Type 0} → (W → A × W) → Entries W → A × Entries W
silent op (w, events) = ((op w).0, ((op w).1, events))

abbrev pub noted :
    {W : Type 0}
    → Event
    → (W → Result Error (Unit {0}) × W)
    → Entries W
    → Result Error (Unit {0}) × Entries W
noted event op (w, events) = ((op w).0, ((op w).1, note event (op w).0 events))

abbrev pub journaled : Backend → Backend
journaled b = record {
  World = Entries b.World;
  prepare_environment = λ r. silent (b.prepare_environment r);
  commit_storage = λ r base. noted (committed r.id) (b.commit_storage r base);
  remove_storage = λ r. noted (removed r.id) (b.remove_storage r);
  acquire_block = silent b.acquire_block;
  machine_status = λ r. silent (b.machine_status r);
  collect = silent b.collect;
  machine_config_env = λ r. silent (b.machine_config_env r);
  expose_ssh_agent = λ c r. silent (b.expose_ssh_agent c r);
  vmm_start = λ r c. silent (b.vmm_start r c);
  vmm_stop = λ r. silent (b.vmm_stop r);
  wait_healthy = λ r t. silent (b.wait_healthy r t);
  request = λ r m t. silent (b.request r m t);
  interactive_exec = λ r m. silent (b.interactive_exec r m);
  publish_environment = λ r s. silent (b.publish_environment r s);
  save = λ m. silent (b.save m);
  new_uuid = silent b.new_uuid;
  now = silent b.now;
}

abbrev pub held : {W : Type 0} → Entries W → ℕ → Bool
held (w, events) j = booked events j

pub quiet : {W A : Type 0} (op : W → A × W) → Shrinks held (silent op)
quiet op = record { shrinks = λ (w, events) j h. h }

pub commit_booked :
    (id j : ℕ) (v : Result Error (Unit {0})) (events : List Event)
    → booked (note (committed id) v events) j ≡ true
    → (booked events j ≡ true) ⊎ (id ≡ j)
unfolding booked note
commit_booked id j (ok u) events h = ground (arith, ==_iff id j)
commit_booked id j (err e) events h = inl h

pub commit_failed :
    (id j : ℕ) (v : Result Error (Unit {0})) (e : Error) (events : List Event)
    → v ≡ err e
    → booked (note (committed id) v events) j ≡ true
    → booked events j ≡ true
unfolding note
commit_failed id j (ok u) e events h g = absurd (cc)
commit_failed id j (err x) e events h g = g

pub removal_booked :
    (id j : ℕ) (v : Result Error (Unit {0})) (events : List Event)
    → booked (note (removed id) v events) j ≡ true
    → booked events j ≡ true
unfolding booked note
removal_booked id j (ok u) events h = ground arith
removal_booked id j (err e) events h = h

pub removal_done :
    (id : ℕ) (v : Result Error (Unit {0})) (events : List Event)
    → v ≡ ok tt
    → booked (note (removed id) v events) id ≡ false
unfolding booked note
removal_done id (ok u) events h = ground (arith, ==_iff id id)
removal_done id (err e) events h = absurd (cc)

-- The laws hold of the journal of any backend.
abbrev pub journal_laws : (b : Backend) → Ownership (journaled b)
journal_laws b = record {
  owned = held;
  of_prepare = λ r. quiet (b.prepare_environment r);
  of_remove = λ r. record { shrinks = λ (w, events) j. removal_booked r.id j _ events };
  of_block = quiet b.acquire_block;
  of_status = λ r. quiet (b.machine_status r);
  of_collect = quiet b.collect;
  of_environment = λ r. quiet (b.machine_config_env r);
  of_expose = λ c r. quiet (b.expose_ssh_agent c r);
  of_start = λ r c. quiet (b.vmm_start r c);
  of_stop = λ r. quiet (b.vmm_stop r);
  of_wait = λ r t. quiet (b.wait_healthy r t);
  of_request = λ r m t. quiet (b.request r m t);
  of_publish = λ r s. quiet (b.publish_environment r s);
  of_save = λ m. quiet (b.save m);
  of_uuid = quiet b.new_uuid;
  of_now = quiet b.now;
  commit_ok = λ r base (w, events) j h. commit_booked r.id j _ events;
  commit_err = λ r base (w, events) j e h. commit_failed r.id j _ e events h;
  remove_ok = λ r (w, events) h. removal_done r.id _ events h;
}
