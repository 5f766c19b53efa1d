-- ===== src/Host/Machine/Quiet.antt =====
-- What the lifecycle relies on of its backend, and the computations that leave the machine map as it
-- is and create no storage.
use spawnr.Prelude.{ℕ, ◌≡◌, refl, ◌∙◌, Bool, true, false, Option, Result, ok, err, ◌⊎◌}
use spawnr.Prelude.Text.{Str}
use spawnr.Protocol.{Request}
use spawnr.Host.State.{MachineRecord, Machines}
use spawnr.Host.Machine.{
  Backend, Error, HostCredentials, M, Locked, rest, ◌>>=◌, give, attempt, on_world, read_machines,
  save, prepare_storage,
}
use spawnr.Host.Machine.Record.{new_record}
use spawnr.Host.Machine.Power.{
  collect_credentials, request_ok, configure_session, or_stop, start_record, stop_record,
  start_unless,
}
use spawnr.Host.Machine.Commands.{stop_unless, verify_workspace, verify_if}

-- The operation creates no storage.
pub record Shrinks {W A : Type 0} (owned : W → ℕ → Bool) (op : W → A × W) : Type 0 where
  pub shrinks : (w : W) (j : ℕ) → owned (op w).1 j ≡ true → owned w j ≡ true

-- `owned w id`: the machine `id` counts as one with storage. Only a commit that succeeds makes it one,
-- and after a removal that succeeds it is none.
pub record Ownership (b : Backend) : Type 0 where
  pub owned : b.World → ℕ → Bool
  pub of_prepare : (r : MachineRecord) → Shrinks owned (b.prepare_environment r)
  pub of_remove : (r : MachineRecord) → Shrinks owned (b.remove_storage r)
  pub of_block : Shrinks owned b.acquire_block
  pub of_status : (r : MachineRecord) → Shrinks owned (b.machine_status r)
  pub of_collect : Shrinks owned b.collect
  pub of_environment : (r : MachineRecord) → Shrinks owned (b.machine_config_env r)
  pub of_expose : (c : HostCredentials) (r : MachineRecord) → Shrinks owned (b.expose_ssh_agent c r)
  pub of_start : (r : MachineRecord) (c : HostCredentials) → Shrinks owned (b.vmm_start r c)
  pub of_stop : (r : MachineRecord) → Shrinks owned (b.vmm_stop r)
  pub of_wait : (r : MachineRecord) (t : ℕ) → Shrinks owned (b.wait_healthy r t)
  pub of_request : (r : MachineRecord) (m : Request) (t : ℕ) → Shrinks owned (b.request r m t)
  pub of_publish : (r : MachineRecord) (s : Str) → Shrinks owned (b.publish_environment r s)
  pub of_save : (m : Machines) → Shrinks owned (b.save m)
  pub of_uuid : Shrinks owned b.new_uuid
  pub of_now : Shrinks owned b.now
  pub commit_ok :
      (r : MachineRecord) (base : ℕ) (w : b.World) (j : ℕ)
      → (b.commit_storage r base w).0 ≡ ok tt
      → owned (b.commit_storage r base w).1 j ≡ true
      → (owned w j ≡ true) ⊎ (r.id ≡ j)
  pub commit_err :
      (r : MachineRecord) (base : ℕ) (w : b.World) (j : ℕ) (e : Error)
      → (b.commit_storage r base w).0 ≡ err e
      → owned (b.commit_storage r base w).1 j ≡ true
      → owned w j ≡ true
  pub remove_ok :
      (r : MachineRecord) (w : b.World)
      → (b.remove_storage r w).0 ≡ ok tt
      → owned (b.remove_storage r w).1 r.id ≡ false

module _ {b : Backend} (laws : Ownership b) where
  -- The computation changes no record and creates no storage.
  pub record Quiet {A : Type 0} (m : M b A) : Type 0 where
    pub machines_same : (s : Locked b) → (m s).1.machines ≡ s.machines
    pub creates_none :
        (s : Locked b) (j : ℕ) → laws.owned (m s).1.world j ≡ true → laws.owned s.world j ≡ true

  rest_machines :
      {A B : Type 0} (r : Result Error A) (t : Locked b) {f : A → M b B}
      → ((a : A) → Quiet (f a))
      → (rest r t f).1.machines ≡ t.machines
  rest_machines (ok a) t hf = (hf a).machines_same t
  rest_machines (err e) t hf = refl

  rest_creates :
      {A B : Type 0} (r : Result Error A) (t : Locked b) {f : A → M b B} (j : ℕ)
      → ((a : A) → Quiet (f a))
      → laws.owned (rest r t f).1.world j ≡ true
      → laws.owned t.world j ≡ true
  rest_creates (ok a) t j hf h = (hf a).creates_none t j h
  rest_creates (err e) t j hf h = h

  pub >>=-Quiet :
      {A B : Type 0} {m : M b A} {f : A → M b B}
      → Quiet m
      → ((a : A) → Quiet (f a))
      → Quiet (m >>= f)
  unfolding ◌>>=◌
  >>=-Quiet {A} {B} {m} {f} hm hf = record {
    machines_same = λ s. rest_machines (m s).0 (m s).1 hf ∙ hm.machines_same s;
    creates_none = λ s j h. hm.creates_none s j (rest_creates (m s).0 (m s).1 j hf h);
  }

  pub give-Quiet : {A : Type 0} (r : Result Error A) → Quiet (give {b = b} r)
  unfolding give
  give-Quiet r = record { machines_same = λ s. refl; creates_none = λ s j h. h }

  pub attempt-Quiet : {A : Type 0} {m : M b A} → Quiet m → Quiet (attempt m)
  unfolding attempt
  attempt-Quiet h = record { machines_same = h.machines_same; creates_none = h.creates_none }

  pub on_world-Quiet :
      {A : Type 0} {op : b.World → Result Error A × b.World}
      → Shrinks laws.owned op
      → Quiet (on_world op)
  unfolding on_world
  on_world-Quiet h = record { machines_same = λ s. refl; creates_none = λ s j. h.shrinks s.world j }

  pub read-Quiet : Quiet read_machines
  unfolding read_machines
  read-Quiet = record { machines_same = λ s. refl; creates_none = λ s j h. h }

  pub save-Quiet : Quiet (save b)
  unfolding save
  save-Quiet = record {
    machines_same = λ s. refl;
    creates_none = λ s j. (laws.of_save s.machines).shrinks s.world j;
  }

  pub prepare_storage-Quiet : (r : MachineRecord) → Quiet (prepare_storage b r)
  unfolding prepare_storage
  prepare_storage-Quiet r = >>=-Quiet (on_world-Quiet (laws.of_prepare r)) (λ found. give-Quiet _)

  collect_credentials-Quiet : (r : MachineRecord) → Quiet (collect_credentials b r)
  unfolding collect_credentials
  collect_credentials-Quiet r =
      >>=-Quiet (on_world-Quiet (record { shrinks = laws.of_collect.shrinks }))
        (λ c. >>=-Quiet (on_world-Quiet (laws.of_environment r)) (λ env. give-Quiet _))

  pub request_ok-Quiet : (r : MachineRecord) (m : Request) (t : ℕ) → Quiet (request_ok b r m t)
  unfolding request_ok
  request_ok-Quiet r m t = >>=-Quiet (on_world-Quiet (laws.of_request r m t)) (λ a. give-Quiet _)

  or_stop-Quiet : (r : MachineRecord) (v : Result Error (Unit {0})) → Quiet (or_stop b r v)
  unfolding or_stop
  or_stop-Quiet r (ok _) = give-Quiet _
  or_stop-Quiet r (err e) =
      >>=-Quiet (attempt-Quiet (on_world-Quiet (laws.of_stop r))) (λ a. give-Quiet _)

  pub configure_session-Quiet : (r : MachineRecord) → Quiet (configure_session b r)
  unfolding configure_session
  configure_session-Quiet r =
      >>=-Quiet (collect_credentials-Quiet r)
        (λ c. >>=-Quiet (on_world-Quiet (laws.of_expose c r)) (λ _. request_ok-Quiet r _ _))

  pub start_record-Quiet : (r : MachineRecord) → Quiet (start_record b r)
  unfolding start_record
  start_record-Quiet r = >>=-Quiet (collect_credentials-Quiet r) (λ c.
      >>=-Quiet (on_world-Quiet (laws.of_start r c)) (λ _.
        >>=-Quiet (attempt-Quiet (on_world-Quiet (laws.of_wait r 30))) (λ h.
          >>=-Quiet (or_stop-Quiet r h)
            (λ _. >>=-Quiet (attempt-Quiet (request_ok-Quiet r _ 5)) (λ v. or_stop-Quiet r v)))))

  pub stop_record-Quiet : (r : MachineRecord) → Quiet (stop_record b r)
  unfolding stop_record
  stop_record-Quiet r =
      >>=-Quiet (attempt-Quiet (request_ok-Quiet r _ 3))
        (λ g. >>=-Quiet (attempt-Quiet (on_world-Quiet (laws.of_stop r))) (λ v. give-Quiet _))

  pub start_unless-Quiet : (r : MachineRecord) (t : Bool) → Quiet (start_unless b r t)
  unfolding start_unless
  start_unless-Quiet r true = give-Quiet _
  start_unless-Quiet r false = start_record-Quiet r

  pub stop_unless-Quiet : (r : MachineRecord) (t : Bool) → Quiet (stop_unless b r t)
  unfolding stop_unless
  stop_unless-Quiet r true = give-Quiet _
  stop_unless-Quiet r false = stop_record-Quiet r

  pub verify_if-Quiet : (r : MachineRecord) (t v : Bool) → Quiet (verify_if b r t v)
  unfolding verify_if verify_workspace
  verify_if-Quiet r t false = give-Quiet _
  verify_if-Quiet r t true = >>=-Quiet (start_unless-Quiet r t) (λ _.
      >>=-Quiet (attempt-Quiet (on_world-Quiet (laws.of_request r _ 30))) (λ a.
        >>=-Quiet (attempt-Quiet (stop_unless-Quiet r t))
          (λ _. >>=-Quiet (give-Quiet a) (λ x. give-Quiet _))))

  pub new_record-Quiet :
      (name environment : Str) (repository directory : Option Str)
      → Quiet (new_record b name environment repository directory)
  unfolding new_record
  new_record-Quiet name environment repository directory =
      >>=-Quiet (on_world-Quiet (record { shrinks = laws.of_uuid.shrinks })) (λ id.
        >>=-Quiet read-Quiet (λ m. >>=-Quiet (give-Quiet _) (λ cid.
          >>=-Quiet (on_world-Quiet (record { shrinks = laws.of_uuid.shrinks })) (λ v.
            >>=-Quiet (on_world-Quiet (record { shrinks = laws.of_now.shrinks }))
              (λ t. give-Quiet _)))))
