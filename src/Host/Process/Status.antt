-- ===== src/Host/Process/Status.antt =====
-- What proc(5) tells of a process that runs, and what the code reads off it.
use spawnr.Prelude.{
  ℕ, ◌≡◌, ◌≢◌, ◌⊎◌, refl, ap, true, false, not, ◌&&◌, ◌||◌, none, some, List, [], ◌∷◌, ◌++◌,
  get_elem?, ok, ◌==◌, arith, inl, inr,
}
use spawnr.Prelude.Text.{Str, contains, str_eq, str_eq_iff}
use spawnr.Host.Process.{
  Host, ProcessIdentity, Read, found, denied, after_close, first_char, split_whitespace,
  parse_state_and_start_time, matches_running_process, matches_stat, same_executable,
}

after_close-none : (s : Str) → contains b')' s ≡ false → after_close s ≡ none
unfolding after_close
after_close-none [] h = refl
after_close-none (c ∷ s) h = ground (arith, after_close-none s)

pub after_close-append :
    (s t : Str) → contains b')' t ≡ false → after_close (s ++ (b')' ∷ t)) ≡ some t
unfolding after_close
after_close-append [] t h = rw (after_close-none t h) refl
after_close-append (c ∷ s) t h = rw (after_close-append s t h) refl

-- The recorded process runs, as procfs tells it: its status line has, behind the last parenthesis, a
-- state that is neither a zombie's nor a dead process's and as the twentieth word the recorded start
-- time, in the recorded boot, and its executable is the recorded one or not shown.
pub record Runs (h : Host) (p : ProcessIdentity) : Type 0 where
  -- The process's number and name, and the words behind them.
  pub name : Str
  pub fields : Str
  pub state : ℕ
  pub start : Str
  pub listed : h.stat p.pid ≡ found (name ++ (b')' ∷ fields))
  pub last : contains b')' fields ≡ false
  pub first : get_elem? (split_whitespace fields) 0 ≡ some (state ∷ [])
  pub twentieth : get_elem? (split_whitespace fields) 19 ≡ some start
  pub number : h.parse_number start ≡ some p.start_time_ticks
  pub booted : h.boot_id ≡ ok p.boot_id
  pub no_zombie : state ≢ b'Z'
  pub not_dead : state ≢ b'X'
  pub shown :
      (h.exe p.pid ≡ found (p.executable_device, p.executable_inode)) ⊎ (h.exe p.pid ≡ denied)

first_char_eq :
    (words : List Str) (c : ℕ) → get_elem? words 0 ≡ some (c ∷ []) → first_char words ≡ some c
first_char_eq [] c h = cc
first_char_eq ([] ∷ words) c h = cc
first_char_eq ((d ∷ word) ∷ words) c h = cc

parsed :
    (h : Host) (p : ProcessIdentity) (r : Runs h p)
    → parse_state_and_start_time h.parse_number (r.name ++ (b')' ∷ r.fields))
      ≡ ok (r.state, p.start_time_ticks)
unfolding parse_state_and_start_time
parsed h p r =
    rw
      (
        after_close-append r.name r.fields r.last,
        first_char_eq (split_whitespace r.fields) r.state r.first,
        r.twentieth,
        r.number,
      )
      refl

shown_same :
    (p : ProcessIdentity) (r : Read (ℕ × ℕ))
    → (r ≡ found (p.executable_device, p.executable_inode)) ⊎ (r ≡ denied)
    → same_executable p r ≡ ok true
shown_same p r (inl e) = rw e (ap ok (both p.executable_device p.executable_inode))
  where
    both : (a b : ℕ) → (a == a && b == b) ≡ true
    both a b = ground arith
shown_same p r (inr e) = rw e refl

matches_stat-Runs :
    (h : Host) (p : ProcessIdentity) (r : Runs h p)
    → matches_stat h p (r.name ++ (b')' ∷ r.fields)) ≡ ok true
unfolding matches_stat
matches_stat-Runs h p r =
    rw (parsed h p r, r.booted, same_identity, alive) (shown_same p (h.exe p.pid) r.shown)
  where
    same_identity :
        (not (str_eq p.boot_id p.boot_id) || not (p.start_time_ticks == p.start_time_ticks)) ≡ false
    same_identity = ground (arith, str_eq_iff p.boot_id p.boot_id)

    alive : (r.state == b'Z' || r.state == b'X') ≡ false
    alive = ground (arith, r.no_zombie, r.not_dead)

-- A process that runs is seen as running.
pub matches_running_process-Runs :
    (h : Host) (p : ProcessIdentity) → Runs h p → matches_running_process h p ≡ ok true
unfolding matches_running_process
matches_running_process-Runs h p r = rw r.listed (matches_stat-Runs h p r)
