-- ===== src/Host/Names/Slug.antt =====
-- The directory that is derived from a repository.
use spawnr.Prelude.{
  ℕ, zero, suc, ◌≤◌, ◌≡◌, refl, Bool, true, false, not, ◌&&◌, ◌||◌, List, [], ◌∷◌, ◌++◌, ◌==◌,
  if◌then◌else◌, length, take, all, all-append, length-take, ok, arith, Bool-cases, &&-eq_true, inl,
  inr, err-ne-ok, ok-injective,
}
use spawnr.Prelude.Text.{
  Str, codes, bytes, is_empty, trim_end, is_ascii_uppercase, is_ascii_alphanumeric,
}
use spawnr.Host.Names.{
  validate_name, is_name_byte, is_name_end, first_byte, last_byte, slug_loop, slug, lower,
  repository_directory, or_base, strip_suffix, after_last,
}

-- A text of name bytes that does not begin with '-'.
abbrev starts_well : Str → Bool
starts_well s = all is_name_byte s && (is_empty s || is_name_end (first_byte s))

not-true : (b : Bool) → not b ≡ true → b ≡ false
not-true b h = ground arith

bytes-name : (s : Str) → all is_name_byte s ≡ true → bytes s ≡ s
unfolding bytes
bytes-name [] h = refl
bytes-name (c ∷ s) h = ground (arith, bytes-name s)

slug_step :
    (output : Str) (c : ℕ) (separator : Bool)
    → starts_well output ≡ true
    → is_ascii_uppercase c ≡ false
    → is_ascii_alphanumeric c ≡ true
    → starts_well (
        if separator && not (is_empty output)
        then output ++ (b'-' ∷ c ∷ [])
        else output ++ (c ∷ []))
      ≡ true
slug_step [] c separator well lower_case alnum = ground arith
slug_step (d ∷ s) c separator well lower_case alnum =
    ground (arith, all-append is_name_byte s (b'-' ∷ c ∷ []), all-append is_name_byte s (c ∷ []))

slug_loop_well :
    (output : Str) (separator : Bool) (cs : List ℕ)
    → starts_well output ≡ true
    → all (λ c. not (is_ascii_uppercase c)) cs ≡ true
    → starts_well (slug_loop output separator cs) ≡ true
unfolding slug_loop
slug_loop_well output separator [] well low = well
slug_loop_well output separator (c ∷ cs) well low =
    let (low_c, low_cs) = &&-eq_true (not (is_ascii_uppercase c)) _ low in
    elim (Bool-cases (is_ascii_alphanumeric c)) [
      | inl alnum ↦ rw alnum (
          slug_loop_well _ false cs (slug_step output c separator well (not-true _ low_c) alnum)
            low_cs)
      | inr other ↦ rw other (slug_loop_well output true cs well low_cs)
    ]

all-take : (p : ℕ → Bool) (n : ℕ) (s : Str) → all p s ≡ true → all p (take n s) ≡ true
all-take p zero s h = refl
all-take p (suc n) [] h = refl
all-take p (suc n) (c ∷ s) h = ground (arith, all-take p n s)

take_well : (n : ℕ) (s : Str) → starts_well s ≡ true → starts_well (take n s) ≡ true
take_well zero s h = refl
take_well (suc n) [] h = refl
take_well (suc n) (c ∷ s) h = ground (arith, all-take is_name_byte n s)

all-trim_end : (p : ℕ → Bool) (s : Str) → all p s ≡ true → all p (trim_end b'-' s) ≡ true
all-trim_end p [] h = refl
all-trim_end p (c ∷ s) h = ground (arith, all-trim_end p s)

trim_end_well : (s : Str) → starts_well s ≡ true → starts_well (trim_end b'-' s) ≡ true
trim_end_well [] h = refl
trim_end_well (c ∷ s) h = ground (arith, all-trim_end is_name_byte s)

ends_well : Str → Bool
ends_well t = is_empty t || is_name_end (last_byte t)

ends_well-cons :
    (c : ℕ) (t : Str)
    → is_name_byte c ≡ true
    → ends_well t ≡ true
    → (c == b'-' && is_empty t) ≡ false
    → ends_well (c ∷ t) ≡ true
unfolding ends_well
ends_well-cons c [] name h e = ground arith
ends_well-cons c (d ∷ t) name h e = h

ends_well-trim_end : (s : Str) → all is_name_byte s ≡ true → ends_well (trim_end b'-' s) ≡ true
unfolding ends_well
ends_well-trim_end [] h = refl
ends_well-trim_end (c ∷ s) h =
    let (name, names) = &&-eq_true (is_name_byte c) _ h in
    let rest = trim_end b'-' s in
    elim (Bool-cases (c == b'-' && is_empty rest)) [
      | inl gone ↦ rw gone refl
      | inr kept ↦ rw kept (ends_well-cons c rest name (ends_well-trim_end s names) kept)
    ]

length-trim_end : (s : Str) → length (trim_end b'-' s) ≤ length s
length-trim_end [] = omega arith
length-trim_end (c ∷ s) = ground (arith, length-trim_end s)

-- A text that begins and ends well, is not empty and is short enough, is a machine's name.
validate_name-well :
    (t : Str)
    → starts_well t ≡ true
    → ends_well t ≡ true
    → is_empty t ≡ false
    → length t ≤ 63
    → validate_name t ≡ ok tt
unfolding validate_name ends_well
validate_name-well t starts ends some_char short =
    let (names, first) = &&-eq_true (all is_name_byte t) _ starts in
    rw (bytes-name t names, names) (ground arith)

module _ (lowercase : ℕ → List ℕ)
    (law : (c : ℕ) → all (λ d. not (is_ascii_uppercase d)) (lowercase c) ≡ true) where
  lower-low : (s : Str) → all (λ d. not (is_ascii_uppercase d)) (lower lowercase s) ≡ true
  lower-low [] = refl
  lower-low (c ∷ s) = rw (all-append, law c, lower-low s)

  slug_valid :
      (s : Str) → is_empty (slug lowercase s) ≡ false → validate_name (slug lowercase s) ≡ ok tt
  unfolding slug
  slug_valid s some_char =
      let out = slug_loop [] false (lower lowercase s) in
      let well = slug_loop_well [] false (lower lowercase s) refl (lower-low s) in
      let short = take_well 50 out well in
      validate_name-well (trim_end b'-' (take 50 out)) (trim_end_well (take 50 out) short)
        (ends_well-trim_end (take 50 out) (&&-eq_true _ _ short).0) some_char
        (omega (arith, length-trim_end (take 50 out), length-take 50 out))

  -- The workspace directory of a repository is always a valid machine name: lower case letters,
  -- digits and interior dashes, at most 63 bytes, whatever the repository's URL holds.
  pub repository_directory_valid :
      (repository directory : Str)
      → repository_directory lowercase repository ≡ ok directory
      → validate_name directory ≡ ok tt
  unfolding repository_directory
  repository_directory_valid repository directory h =
      let last = after_last (trim_end b'/' repository) in
      let tail = or_base last (strip_suffix (codes ".git") last) in
      elim (Bool-cases (is_empty (slug lowercase tail))) [
        | inl none_left ↦ absurd (err-ne-ok (rw none_left at h))
        | inr some_char ↦ rw (← ok-injective (rw some_char at h)) (slug_valid tail some_char)
      ]
