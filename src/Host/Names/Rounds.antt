-- ===== src/Host/Names/Rounds.antt =====
-- The rounds of `allocate_clone_names`: each takes a new name, or passes one of the names that exist
-- and end in the round's number.
use spawnr.Prelude.{
  ℕ, zero, suc, ◌+◌, ◌-◌, ◌*◌, ◌/◌, ◌%◌, ◌≤◌, ◌<◌, ◌≡◌, refl, ap, ◌∙◌, Bool, true, false, Option,
  none, some, List, [], ◌∷◌, ◌++◌, ◌==◌, leb, ltb, if◌then◌else◌, length, Result, ok, err,
  Bool-cases, ◌>>=◌, ◌≢◌, inl, inr, arith,
}
use spawnr.Prelude.Text.{Str, contains, str_eq, str_eq_iff}
use spawnr.Host.Names.{
  Error, out_of_fuel, validate_name, no_directory, name_taken, decimal_from, to_string, candidate,
  occupies, allocate_loop, allocate_clone_names, repository_directory,
}
use spawnr.Host.Names.Valid.{AreFresh, allocate_clone_names_fresh}

-- The text behind the last '-'.
unfoldable after_dash : Str → Str
after_dash [] = []
after_dash (c ∷ s) =
    let rest = after_dash s in if contains b'-' s then rest else if c == b'-' then s else []

contains-dashed : (s t : Str) → contains b'-' (s ++ (b'-' ∷ t)) ≡ true
contains-dashed [] t = refl
contains-dashed (c ∷ s) t = ground (arith, contains-dashed s t)

after_dash-append : (s t : Str) → contains b'-' t ≡ false → after_dash (s ++ (b'-' ∷ t)) ≡ t
unfolding after_dash
after_dash-append [] t h = ground (arith, h)
after_dash-append (c ∷ s) t h = rw (contains-dashed s t) (after_dash-append s t h)

-- The number that the digits of a text make, after those that made `n`.
unfoldable value : Str → ℕ → ℕ
value [] n = n
value (c ∷ s) n = value s (n * 10 + (c - 48))

last_digit : (n : ℕ) → n / 10 * 10 + (48 + n % 10 - 48) ≡ n
last_digit n = omega arith

value-decimal_from :
    (fuel n : ℕ) (acc : Str) → n < fuel → value (decimal_from fuel n acc) 0 ≡ value acc n
unfolding value decimal_from
value-decimal_from zero n acc h = absurd (ground arith)
value-decimal_from (suc fuel) n acc h = elim (Bool-cases (ltb n 10)) [
  | inl small ↦ rw (small, value, decimal_from) (ap (value acc) (ground arith))
  | inr large ↦
      let less : n / 10 < fuel = ground arith in
      rw (large, value, decimal_from)
        (value-decimal_from fuel (n / 10) ((b'0' + n % 10) ∷ acc) less
          ∙ ap (value acc) (last_digit n))
]

decimal_from_no_dash :
    (fuel n : ℕ) (acc : Str)
    → contains b'-' acc ≡ false
    → contains b'-' (decimal_from fuel n acc) ≡ false
unfolding decimal_from
decimal_from_no_dash zero n acc h = h
decimal_from_no_dash (suc fuel) n acc h =
    let digit : contains b'-' ((b'0' + n % 10) ∷ acc) ≡ false = ground arith in
    elim (Bool-cases (ltb n 10)) [
      | inl small ↦ rw (small, decimal_from) digit
      | inr large ↦ rw (large, decimal_from) (decimal_from_no_dash fuel (n / 10) _ digit)
    ]

-- The number at the end of a name.
unfoldable suffix_of : Str → ℕ
suffix_of name = value (after_dash name) 0

suffix_of-candidate : (base : Str) (suffix : ℕ) → suffix_of (candidate base suffix) ≡ suffix
unfolding suffix_of candidate to_string value
suffix_of-candidate base suffix =
    ap (λ s. value s 0)
      (after_dash-append _ (to_string suffix) (decimal_from_no_dash (suc suffix) suffix [] refl))
    ∙ value-decimal_from (suc suffix) suffix [] (omega arith)

-- How many of the names end in a number that is not below `suffix`.
abbrev later : List Str → ℕ → ℕ
later [] suffix = 0
later (name ∷ names) suffix =
    let rest = later names suffix in if leb suffix (suffix_of name) then suc rest else rest

later_le : (names : List Str) (suffix : ℕ) → later names (suffix + 1) ≤ later names suffix
later_le [] suffix = omega arith
later_le (name ∷ names) suffix = ground (arith, later_le names suffix)

later_lt :
    (names : List Str) (name : Str) (suffix : ℕ)
    → suffix_of name ≡ suffix
    → occupies names name ≡ true
    → later names (suffix + 1) < later names suffix
later_lt [] name suffix e h = absurd (cc)
later_lt (n ∷ names) name suffix e h = elim (Bool-cases (str_eq n name)) [
  | inl same ↦
      let number : suffix_of n ≡ suffix = ap suffix_of ((str_eq_iff n name).0 same) ∙ e in
      ground (arith, later_le names suffix, number)
  | inr other ↦ ground (arith, later_le names suffix, later_lt names name suffix e)
]

later_le_length : (names : List Str) (suffix : ℕ) → later names suffix ≤ length names
later_le_length [] suffix = omega arith
later_le_length (name ∷ names) suffix = ground (arith, later_le_length names suffix)

-- A name that ends in a number below `suffix` does not count.
later_new :
    (names : List Str) (name : Str) (suffix : ℕ)
    → suffix_of name ≡ suffix
    → later (name ∷ names) (suffix + 1) ≤ later names suffix
later_new names name suffix e = ground (arith, later_le names suffix)

name_error :
    (name : Str) (m : Result Error (List Str))
    → (m ≡ err out_of_fuel → ⊥)
    → (validate_name name >>= λ done. m) ≡ err out_of_fuel
    → ⊥
unfolding validate_name
name_error name m h e = ground (arith, h)

made_error :
    (name : Str) (m : Result Error (List Str))
    → (m ≡ err out_of_fuel → ⊥)
    → (m >>= λ names. ok (name ∷ names)) ≡ err out_of_fuel
    → ⊥
made_error name (ok names) h e = cc
made_error name (err x) h e = h (same x e)
  where
    same :
        (x : Error)
        → ◌≡◌ {A = Result Error (List Str)} (err x) (err out_of_fuel)
        → ◌≡◌ {A = Result Error (List Str)} (err x) (err out_of_fuel)
    same x e = e

allocate_loop_rounds :
    (fuel : ℕ) (base : Str) (missing suffix : ℕ) (occupied : List Str)
    → missing + later occupied suffix ≤ fuel
    → allocate_loop fuel base missing suffix occupied ≡ err out_of_fuel
    → ⊥
unfolding allocate_loop
allocate_loop_rounds fuel base zero suffix occupied enough e = cc
allocate_loop_rounds zero base (suc missing) suffix occupied enough e =
    none_left missing (later occupied suffix) enough
  where
    none_left : (n m : ℕ) → suc n + m ≤ zero → ⊥
    none_left n m h = omega arith
allocate_loop_rounds (suc fuel) base (suc missing) suffix occupied enough e =
    let name = candidate base suffix in
    let number : suffix_of name ≡ suffix = suffix_of-candidate base suffix in
    elim (Bool-cases (occupies occupied name)) [
      | inl taken ↦
          allocate_loop_rounds fuel base (suc missing) (suffix + 1) occupied
            (omega (arith, enough, later_lt occupied name suffix number taken))
            (rw (taken, allocate_loop) at e)
      | inr free ↦
          name_error name _
            (made_error name _ (
              allocate_loop_rounds fuel base missing (suffix + 1) (name ∷ occupied)
                (omega (arith, enough, later_new occupied name suffix number))))
            (rw (free, allocate_loop) at e)
    ]

-- What an allocation may end with: as many names as were asked for, that are fresh and valid, or one of
-- the errors of the code, never for want of rounds.
unfoldable pub Allocates : List Str → ℕ → Result Error (List Str) → Type 0
Allocates existing count (ok names) = (length names ≡ count) × AreFresh existing names
Allocates existing count (err e) = e ≢ out_of_fuel

bind_error :
    (v : Result Error Str) (f : Str → Result Error (List Str))
    → (v ≡ err out_of_fuel → ⊥)
    → ((base : Str) → f base ≡ err out_of_fuel → ⊥)
    → (v >>= f) ≡ err out_of_fuel
    → ⊥
bind_error (ok base) f g h e = h base e
bind_error (err x) f g h e = g (same x e)
  where
    same :
        (x : Error)
        → ◌≡◌ {A = Result Error (List Str)} (err x) (err out_of_fuel)
        → ◌≡◌ {A = Result Error Str} (err x) (err out_of_fuel)
    same x e = cc

repository_error :
    (lowercase : ℕ → List ℕ) (repository : Str)
    → repository_directory lowercase repository ≡ err out_of_fuel
    → ⊥
unfolding repository_directory
repository_error lowercase repository e = neither _ _ e
  where
    neither :
        (b : Bool) (s : Str)
        → ◌≡◌ {A = Result Error Str} (if b then err no_directory else ok s) (err out_of_fuel)
        → ⊥
    neither true s e = cc
    neither false s e = cc

directory_error :
    (lowercase : ℕ → List ℕ) (repository : Str) (f : Str → Result Error (List Str))
    → ((base : Str) → f base ≡ err out_of_fuel → ⊥)
    → (repository_directory lowercase repository >>= f) ≡ err out_of_fuel
    → ⊥
directory_error lowercase repository f h =
    bind_error (repository_directory lowercase repository) f (repository_error lowercase repository)
      h

enough_rounds :
    (count : ℕ) (existing : List Str) → count + later existing 1 ≤ length existing + count
enough_rounds count existing = omega (arith, later_le_length existing 1)

single_error :
    (b : Bool) (name : Str)
    → (if b then err (name_taken name) else ok (name ∷ [])) ≡ err out_of_fuel
    → ⊥
single_error true name e = cc
single_error false name e = cc

requested_error :
    (b : Bool) (m n : Result Error (List Str))
    → (m ≡ err out_of_fuel → ⊥)
    → (n ≡ err out_of_fuel → ⊥)
    → (if b then m else n) ≡ err out_of_fuel
    → ⊥
requested_error true m n h g = h
requested_error false m n h g = g

allocated_in_time :
    (lowercase : ℕ → List ℕ) (requested : Option Str) (repository : Str) (count : ℕ)
    (existing : List Str)
    → allocate_clone_names lowercase requested repository count existing ≡ err out_of_fuel
    → ⊥
unfolding allocate_clone_names
allocated_in_time lowercase none repository count existing =
    directory_error lowercase repository _
      (λ base. allocate_loop_rounds _ base count 1 existing (enough_rounds count existing))
allocated_in_time lowercase (some name) repository count existing =
    requested_error (count == 1) _ _ (single_error (occupies existing name) name) (
      directory_error lowercase repository _
        (λ base. allocate_loop_rounds _ name count 1 existing (enough_rounds count existing)))

allocates :
    (existing : List Str) (count : ℕ) (v : Result Error (List Str))
    → (v ≡ err out_of_fuel → ⊥)
    → ((names : List Str) → v ≡ ok names → (length names ≡ count) × AreFresh existing names)
    → Allocates existing count v
unfolding Allocates
allocates existing count (ok names) h g = g names refl
allocates existing count (err e) h g = λ same. h (ap err same)

-- Where a single name that was requested is valid, which `clone_machines` checks before: the allocation
-- ends in the rounds that the names that exist allow. It gives as many names as it was asked for, each
-- valid and none of them a name that exists or an earlier one, or it fails with an error of the code.
pub allocate_clone_names-Allocates :
    (lowercase : ℕ → List ℕ) (requested : Option Str) (repository : Str) (count : ℕ)
    (existing : List Str)
    → ((name : Str) → requested ≡ some name → validate_name name ≡ ok tt)
    → Allocates existing count (allocate_clone_names lowercase requested repository count existing)
allocate_clone_names-Allocates lowercase requested repository count existing valid =
    allocates existing count _ (allocated_in_time lowercase requested repository count existing)
      (λ names made.
        allocate_clone_names_fresh lowercase requested repository count existing names valid made)
