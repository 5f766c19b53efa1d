-- ===== src/Agent/Reaper.antt =====
-- crates/spawnr-agent/src/reaper.rs: which processes the orphan reaper waits for, in one pass over the
-- entries of /proc; `parse` is `str::parse::<u32>`.
use spawnr.Prelude.{
  not-eq_true, arith, ℕ, ◌≡◌, refl, Bool, true, false, not, ◌||◌, Option, none, some, List, [], ◌∷◌,
  ◌++◌, ◌+◌, leb, ◌==◌, if◌then◌else◌, get_elem?, any, all, &&-eq_true,
}
use spawnr.Prelude.Text.{Str, contains}
use spawnr.Host.Process.{after_close}
use spawnr.Host.Process.Status.{after_close-append}
use spawnr.Agent.Mount.{is_ascii_whitespace, take_field, fields_from, split_ascii_whitespace}

abbrev pub second_field : (Str → Option ℕ) → Option Str → Option ℕ
second_field parse none = none
second_field parse (some field) = parse field

abbrev pub parent_field : (Str → Option ℕ) → Option Str → Option ℕ
parent_field parse none = none
parent_field parse (some rest) = second_field parse (get_elem? (split_ascii_whitespace rest) 1)

unfoldable pub parent_pid : (Str → Option ℕ) → Str → Option ℕ
parent_pid parse stat = parent_field parse (after_close stat)

abbrev pub is_one : Option ℕ → Bool
is_one none = false
is_one (some pid) = pid == 1

-- Whether the reaper waits for a process, by its status file.
abbrev pub is_adopted : (Str → Option ℕ) → Option Str → Bool
is_adopted parse none = false
is_adopted parse (some stat) = is_one (parent_pid parse stat)

-- One entry of /proc, with what the rest of the pass waits for.
abbrev pub reap_entry : (Str → Option ℕ) → List ℕ → (ℕ → Option Str) → Option ℕ → List ℕ → List ℕ
reap_entry parse tracked stat none rest = rest
reap_entry parse tracked stat (some pid) rest =
    if leb pid 1 || any (λ p. p == pid) tracked
    then rest
    else if is_adopted parse (stat pid)
    then pid ∷ rest
    else rest

-- The processes that are waited for, of the entries of /proc in their order. `tracked` gives the
-- processes that are tracked when an entry is looked up, the first one at `now`.
unfoldable pub reap_adopted_children :
    (Str → Option ℕ) → (ℕ → List ℕ) → (ℕ → Option Str) → ℕ → List Str → List ℕ
reap_adopted_children parse tracked stat now [] = []
reap_adopted_children parse tracked stat now (entry ∷ entries) =
    reap_entry parse (tracked now) stat (parse entry)
      (reap_adopted_children parse tracked stat (now + 1) entries)

abbrev is_field : Str → Bool
is_field s = all (λ c. not (is_ascii_whitespace c)) s

take_field-append : (s t : Str) → is_field s ≡ true → take_field (s ++ (b' ' ∷ t)) ≡ s
unfolding take_field
take_field-append [] t h = refl
take_field-append (c ∷ s) t h = ground (arith, take_field-append s t)

second :
    (c d : ℕ) (ds rest : Str)
    → is_field (c ∷ d ∷ ds) ≡ true
    → get_elem? (split_ascii_whitespace (b' ' ∷ c ∷ b' ' ∷ (d ∷ (ds ++ (b' ' ∷ rest))))) 1
      ≡ some (d ∷ ds)
unfolding fields_from take_field
second c d ds rest h =
    let (hc, h1) = &&-eq_true (not (is_ascii_whitespace c)) _ h in
    let (hd, h2) = &&-eq_true (not (is_ascii_whitespace d)) _ h1 in
    rw (not-eq_true _ hc, not-eq_true _ hd, take_field-append ds rest h2) refl

-- The parent is read behind the last parenthesis of a status line, whatever the command's name is, with
-- its spaces and parentheses: for a line of a text, `)`, a state, the parent's digits and more fields,
-- none of which has a parenthesis.
pub parent_pid-eq :
    (parse : Str → Option ℕ) (name : Str) (c d : ℕ) (ds rest : Str)
    → is_field (c ∷ d ∷ ds) ≡ true
    → contains b')' (c ∷ b' ' ∷ (d ∷ (ds ++ (b' ' ∷ rest)))) ≡ false
    → parent_pid parse (name ++ (b')' ∷ b' ' ∷ c ∷ b' ' ∷ (d ∷ (ds ++ (b' ' ∷ rest)))))
      ≡ parse (d ∷ ds)
unfolding parent_pid
parent_pid-eq parse name c d ds rest f h =
    rw (after_close-append name _ h, second c d ds rest f) refl
