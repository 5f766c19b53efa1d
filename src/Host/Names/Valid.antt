-- ===== src/Host/Names/Valid.antt =====
-- The names that `allocate_clone_names` gives out.
use spawnr.Prelude.{
  ℕ, zero, suc, ◌+◌, ◌≡◌, refl, sym, ap, false, Option, none, some, List, [], ◌∷◌, ◌==◌,
  if◌then◌else◌, length, ok, err, >>=-eq-ok, ok-injective, err-ne-ok, ==_iff, Bool-cases, inl, inr,
}
use spawnr.Prelude.Text.{Str}
use spawnr.Host.Names.{
  validate_name, candidate, occupies, allocate_loop, allocate_clone_names, repository_directory,
  name_taken,
}

-- Names that were free when they were taken, one after another, and that are valid.
abbrev pub AreFresh : List Str → List Str → Type 0
AreFresh occupied [] = Unit {0}
AreFresh occupied (name ∷ names) =
    (occupies occupied name ≡ false)
    × (validate_name name ≡ ok tt)
    × AreFresh (name ∷ occupied) names

allocate_loop_lem :
    (fuel : ℕ) (base : Str) (missing suffix : ℕ) (occupied names : List Str)
    → allocate_loop fuel base missing suffix occupied ≡ ok names
    → (length names ≡ missing) × AreFresh occupied names
unfolding allocate_loop
allocate_loop_lem fuel base zero suffix occupied names h = rw (← ok-injective h) (refl, tt)
allocate_loop_lem zero base (suc missing) suffix occupied names h = cc
allocate_loop_lem (suc fuel) base (suc missing) suffix occupied names h =
    let name = candidate base suffix in
    elim (Bool-cases (occupies occupied name)) [
      | inl taken ↦
          allocate_loop_lem fuel base (suc missing) (suffix + 1) occupied names
            (rw (taken, allocate_loop) at h)
      | inr free ↦
          let h' = rw (free, allocate_loop) at h in
          let (_, valid, h'') = >>=-eq-ok (validate_name name) _ h' in
          let (rest, more, made) =
            >>=-eq-ok (allocate_loop fuel base missing (suffix + 1) (name ∷ occupied)) _ h'' in
          let (count, fresh) =
            allocate_loop_lem fuel base missing (suffix + 1) (name ∷ occupied) rest more in
          rw (← ok-injective made) (ap suc count, (free, valid, fresh))
    ]

requested_lem :
    (name : Str) (count : ℕ) (existing names : List Str)
    → validate_name name ≡ ok tt
    → count ≡ 1
    → (if occupies existing name then err (name_taken name) else ok (name ∷ [])) ≡ ok names
    → (length names ≡ count) × AreFresh existing names
requested_lem name count existing names valid one h = elim (Bool-cases (occupies existing name)) [
  | inl taken ↦ absurd (err-ne-ok (rw taken at h))
  | inr free ↦ rw (← ok-injective (rw free at h)) (sym one, (free, valid, tt))
]

-- The names that `clone` allocates are as many as it was asked for, all different, none of them a
-- machine that exists, and each valid. A single name that was requested is given as it is, so it
-- must be valid itself, which `clone_machines` checks before.
pub allocate_clone_names_fresh :
    (lowercase : ℕ → List ℕ) (requested : Option Str) (repository : Str) (count : ℕ)
    (existing names : List Str)
    → ((name : Str) → requested ≡ some name → validate_name name ≡ ok tt)
    → allocate_clone_names lowercase requested repository count existing ≡ ok names
    → (length names ≡ count) × AreFresh existing names
unfolding allocate_clone_names
allocate_clone_names_fresh lowercase none repository count existing names valid h =
    let (base, _, made) = >>=-eq-ok (repository_directory lowercase repository) _ h in
    allocate_loop_lem _ base count 1 existing names made
allocate_clone_names_fresh lowercase (some name) repository count existing names valid h =
    elim (Bool-cases (count == 1)) [
      | inl one ↦
          requested_lem name count existing names (valid name refl) ((==_iff count 1).0 one)
            (rw (one, allocate_clone_names) at h)
      | inr many ↦
          let h' = rw (many, allocate_clone_names) at h in
          let (base, _, made) = >>=-eq-ok (repository_directory lowercase repository) _ h' in
          allocate_loop_lem _ name count 1 existing names made
    ]
