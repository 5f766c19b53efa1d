-- ===== src/Host/Machine/Addresses.antt =====
-- The vsock address of a new machine.
use spawnr.Prelude.{
  ℕ, zero, suc, ◌+◌, ◌^◌, ◌≤◌, ◌<◌, ◌≡◌, refl, ap, ◌∙◌, is_ok, true, false, Option, some, List, [],
  ◌∷◌, ◌==◌, leb, if◌then◌else◌, any, length, ok, err-ne-ok, ok-injective, Option-cases, Bool-cases,
  inl, inr, arith,
}
use spawnr.Prelude.Text.{Str}
use spawnr.Host.State.{MachineRecord, values}
use spawnr.Host.Machine.{Backend, Locked, ◌>>=◌, give, on_world, read_machines}
use spawnr.Host.Machine.Record.{used_cids, next_cid, first_cid, free_cid, new_record}

-- An address of no machine, and in the range of the search.
pub record IsFree (used : List ℕ) (cid : ℕ) : Type 0 where
  pub unused : any (λ u. u == cid) used ≡ false
  pub low : 4096 ≤ cid
  pub high : cid < 2 ^ 32

next_cid_bounds : (cid : ℕ) → 4096 ≤ cid → (4096 ≤ next_cid cid) × (next_cid cid < 2 ^ 32)
next_cid_bounds cid low = ground arith

free_cid-IsFree :
    (fuel : ℕ) (used : List ℕ) (cid found : ℕ)
    → 4096 ≤ cid
    → cid < 2 ^ 32
    → free_cid fuel used cid ≡ some found
    → IsFree used found
unfolding free_cid
free_cid-IsFree zero used cid found low high h = absurd (cc)
free_cid-IsFree (suc fuel) used cid found low high h =
    elim (Bool-cases (any (λ u. u == cid) used)) [
      | inl taken ↦
          free_cid-IsFree fuel used (next_cid cid) found (next_cid_bounds cid low).0
            (next_cid_bounds cid low).1 (rw (taken, free_cid) at h)
      | inr unused ↦ here used cid found unused low high (rw (unused, free_cid) at h)
    ]
  where
    here :
        (used : List ℕ) (cid found : ℕ)
        → any (λ u. u == cid) used ≡ false
        → 4096 ≤ cid
        → cid < 2 ^ 32
        → some cid ≡ some found
        → IsFree used found
    here used cid found unused low high h =
        let same : cid ≡ found = cc in
        rw (← same) (record { unused = unused; low = low; high = high })

first_cid_bounds : (id : ℕ) → (4096 ≤ first_cid id) × (first_cid id < 2 ^ 32)
first_cid_bounds id = omega arith

-- The address that a new machine gets is that of no machine of the map, is not below 4096, and is a
-- number of 32 bits.
pub new_record-IsFree :
    (b : Backend) (name environment : Str) (repository directory : Option Str) (s : Locked b)
    (r : MachineRecord)
    → (new_record b name environment repository directory s).0 ≡ ok r
    → IsFree (used_cids (values s.machines)) r.vsock_cid
unfolding new_record ◌>>=◌ give on_world read_machines
new_record-IsFree b name environment repository directory s r h =
    let id = (b.new_uuid s.world).0 in
    elim (Option-cases (
      free_cid (suc (length (used_cids (values s.machines)))) (used_cids (values s.machines))
        (first_cid id))) [
          | inl out ↦ absurd (err-ne-ok (rw (out, new_record) at h))
          | inr (cid, at) ↦ rw (← ap (λ x. x.vsock_cid) (ok-injective (rw (at, new_record) at h))) (
              free_cid-IsFree _ _ (first_cid id) cid (first_cid_bounds id).0 (first_cid_bounds id).1
                at)
        ]

-- How many of the addresses are not below `cid`.
abbrev above : List ℕ → ℕ → ℕ
above [] cid = 0
above (u ∷ us) cid = let rest = above us cid in if leb cid u then suc rest else rest

above_le : (us : List ℕ) (cid : ℕ) → above us (cid + 1) ≤ above us cid
above_le [] cid = omega arith
above_le (u ∷ us) cid = ground (arith, above_le us cid)

above_lt :
    (us : List ℕ) (cid : ℕ) → any (λ u. u == cid) us ≡ true → above us (cid + 1) < above us cid
above_lt [] cid h = absurd (cc)
above_lt (u ∷ us) cid h = ground (arith, above_le us cid, above_lt us cid)

above_le_length : (us : List ℕ) (cid : ℕ) → above us cid ≤ length us
above_le_length [] cid = omega arith
above_le_length (u ∷ us) cid = ground (arith, above_le_length us cid)

next_cid_step : (cid : ℕ) → cid + 1 < 2 ^ 32 → next_cid cid ≡ cid + 1
next_cid_step cid h = ground arith

free_cid_taken :
    (fuel : ℕ) (used : List ℕ) (cid : ℕ)
    → any (λ u. u == cid) used ≡ true
    → free_cid (suc fuel) used cid ≡ free_cid fuel used (next_cid cid)
unfolding free_cid
free_cid_taken fuel used cid taken = ground (arith, taken)

free_cid_returns :
    (fuel : ℕ) (used : List ℕ) (cid : ℕ)
    → above used cid < fuel
    → cid + fuel < 2 ^ 32
    → (found : ℕ) × (free_cid fuel used cid ≡ some found)
unfolding free_cid
free_cid_returns zero used cid enough room = absurd (ground arith)
free_cid_returns (suc fuel) used cid enough room = elim (Bool-cases (any (λ u. u == cid) used)) [
  | inr unused ↦ (cid, ground (arith, unused))
  | inl taken ↦
      let fewer : above used (cid + 1) < fuel = ground (arith, above_lt used cid) in
      let (found, at) = free_cid_returns fuel used (cid + 1) fewer (ground arith) in
      (
        found,
        free_cid_taken fuel used cid taken
            ∙ ap (free_cid fuel used) (next_cid_step cid (ground arith))
            ∙ at,
      )
]

length-used_cids : (rs : List MachineRecord) → length (used_cids rs) ≡ length rs
length-used_cids [] = refl
length-used_cids (r ∷ rs) = ap suc (length-used_cids rs)

first_cid_room : (id : ℕ) → first_cid id < 4096 + 2 ^ 30
first_cid_room id = omega arith

search_room :
    (rs : List MachineRecord) (id : ℕ)
    → length rs < 2 ^ 31
    → first_cid id + suc (length (used_cids rs)) < 2 ^ 32
search_room rs id few = rw (length-used_cids rs) (ground (arith, first_cid_room id))

-- With fewer than 2 ^ 31 machines the search for an address ends, and the new record is returned.
pub new_record_returns :
    (b : Backend) (name environment : Str) (repository directory : Option Str) (s : Locked b)
    → length (values s.machines) < 2 ^ 31
    → is_ok (new_record b name environment repository directory s).0 ≡ true
unfolding new_record ◌>>=◌ give on_world read_machines
new_record_returns b name environment repository directory s few =
    let id = (b.new_uuid s.world).0 in
    let (cid, at) =
      free_cid_returns (suc (length (used_cids (values s.machines))))
        (used_cids (values s.machines)) (first_cid id)
        (ground (arith, above_le_length (used_cids (values s.machines)) (first_cid id)))
        (search_room (values s.machines) id few) in
    rw (at, new_record) refl
