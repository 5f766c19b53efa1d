-- ===== src/Agent/Command/Arguments.antt =====
-- What command.rs checks of a request's values: arguments, variables, and the frames that resize a
-- terminal or signal a command.
use spawnr.Prelude.{
  arith, ℕ, ◌+◌, ◌*◌, ◌≤◌, ◌<◌, ◌≡◌, sym, ◌∙◌, ap, Bool, true, not, ◌||◌, Option, none, some, List,
  [], ◌∷◌, max, ltb, leb, ◌==◌, length, All, Result, ok, err, ◌>>=◌, ◌>>◌, ensure, context,
  >>=-eq-ok, ensure-eq-ok, ok-injective, context-eq_ok, leb→le,
}
use spawnr.Prelude.Text.{Str, len, contains, is_empty}
use spawnr.Agent.Session.{
  Env, valid_environment_name, max_environment_items, max_environment_bytes, checked_add,
  saturating_add,
}

abbrev pub max_argv_items : ℕ
max_argv_items = 4096

abbrev pub max_arg_bytes : ℕ
max_arg_bytes = 1024 * 1024

pub data Error : Type 0 where
  empty too_large nul no_executable too_many too_many_bytes invalid_name overflow : Error
  not_four_bytes not_allowed : Error

unfoldable pub validate_text : Str → ℕ → Result Error (Unit {0})
validate_text value maximum = do
  ensure (not (is_empty value)) empty
  ensure (leb (len value) maximum) too_large
  ensure (not (contains 0 value)) nul

-- `iter().map(String::len).sum()`
abbrev pub total_len : List Str → ℕ
total_len [] = 0
total_len (value ∷ values) = len value + total_len values

unfoldable pub validate_texts : List Str → Result Error (Unit {0})
validate_texts [] = ok tt
validate_texts (value ∷ values) = validate_text value max_arg_bytes >> validate_texts values

unfoldable pub validate_argv : List Str → Result Error (Unit {0})
validate_argv argv = do
  ensure (ltb 0 (length argv)) no_executable
  ensure (leb (length argv) max_argv_items) too_many
  ensure (leb (total_len argv) max_arg_bytes) too_many_bytes
  validate_texts argv

unfoldable pub environment_loop : ℕ → Env → Result Error (Unit {0})
environment_loop total [] = ok tt
environment_loop total ((name, value) ∷ env) = do
  ensure (valid_environment_name name) invalid_name
  ensure (not (contains 0 value)) nul
  total' ←
      context (checked_add total (saturating_add (saturating_add (len name) (len value)) 2))
        overflow
  ensure (leb total' max_environment_bytes) too_many_bytes
  environment_loop total' env

unfoldable pub validate_environment : Env → Result Error (Unit {0})
validate_environment env = do
  ensure (leb (length env) max_environment_items) too_many
  environment_loop 0 env

-- `u16::from_be_bytes(..).max(1)` twice: the rows and the columns of the window.
unfoldable pub resize_pty : List ℕ → Result Error (ℕ × ℕ)
resize_pty (a ∷ b ∷ c ∷ d ∷ []) = ok (max (a * 256 + b) 1, max (c * 256 + d) 1)
resize_pty _ = err not_four_bytes

-- `i32::from_be_bytes`: a number of 2^31 or more is negative, and none of the four.
abbrev pub is_allowed : ℕ → Bool
is_allowed signal = signal == 2 || signal == 15 || signal == 1 || signal == 3

-- The signal, which goes to the command's process group `-pid`.
unfoldable pub signal_child : List ℕ → Result Error ℕ
signal_child (a ∷ b ∷ c ∷ d ∷ []) = do
  ensure (is_allowed (((a * 256 + b) * 256 + c) * 256 + d)) not_allowed
  ok (((a * 256 + b) * 256 + c) * 256 + d)
signal_child _ = err not_four_bytes

-- `status.code()`, and the signal that ended the process.
unfoldable pub exit_code : Option ℕ → Option ℕ → ℕ
exit_code (some code) signal = code
exit_code none (some signal) = 128 + signal
exit_code none none = 128

-- The bytes of an environment as `execve` lays it out.
abbrev pub layout_bytes : Env → ℕ
layout_bytes [] = 0
layout_bytes ((name, value) ∷ env) = len name + len value + 2 + layout_bytes env

small_entry :
    (n v total t : ℕ)
    → checked_add total (saturating_add (saturating_add n v) 2) ≡ some t
    → leb t (1024 * 1024) ≡ true
    → t ≡ total + (n + v + 2)
small_entry n v total t h s = ground arith

next_bytes :
    (total n v t rest : ℕ)
    → t ≡ total + (n + v + 2)
    → t + rest ≤ 1024 * 1024
    → total + (n + v + 2 + rest) ≤ 1024 * 1024
next_bytes total n v t rest e h = omega arith

environment_loop_bytes :
    (total : ℕ) (env : Env)
    → environment_loop total env ≡ ok tt
    → total ≤ max_environment_bytes
    → total + layout_bytes env ≤ max_environment_bytes
unfolding environment_loop
environment_loop_bytes total [] h s = omega arith
environment_loop_bytes total ((name, value) ∷ env) h s =
    let (_, _, h1) = >>=-eq-ok (ensure (valid_environment_name name) invalid_name) _ h in
    let (_, _, h2) = >>=-eq-ok (ensure (not (contains 0 value)) nul) _ h1 in
    let (t, counted, h3) =
      >>=-eq-ok
        (context (checked_add total (saturating_add (saturating_add (len name) (len value)) 2))
          overflow)
        _ h2 in
    let (_, small, h4) = >>=-eq-ok (ensure (leb t max_environment_bytes) too_many_bytes) _ h3 in
    let small' = ensure-eq-ok _ _ small in
    let t_eq = small_entry (len name) (len value) total t (context-eq_ok _ _ counted) small' in
    next_bytes total (len name) (len value) t (layout_bytes env) t_eq
      (environment_loop_bytes t env h4 (leb→le t _ small'))

from_zero : (n : ℕ) → 0 + n ≤ 1024 * 1024 → n ≤ 1024 * 1024
from_zero n h = omega arith

-- The variables of a request that are accepted fit in the limit together, counted as `execve` lays
-- them out, and are at most 512; no sum wraps around.
pub validate_environment_bounds :
    (env : Env)
    → validate_environment env ≡ ok tt
    → (length env ≤ max_environment_items) × (layout_bytes env ≤ max_environment_bytes)
unfolding validate_environment
validate_environment_bounds env h =
    let (_, few, h1) = >>=-eq-ok (ensure (leb (length env) max_environment_items) too_many) _ h in
    (
      leb→le _ _ (ensure-eq-ok _ _ few),
      from_zero (layout_bytes env) (environment_loop_bytes 0 env h1 (omega arith)),
    )

low_number : (n : ℕ) → is_allowed n ≡ true → n ≤ 15
low_number n h = ground arith

small_number :
    (a b c d n : ℕ)
    → ((a * 256 + b) * 256 + c) * 256 + d ≡ n
    → ((a * 256 + b) * 256 + c) * 256 + d ≤ 15
    → (a ≡ 0) × (b ≡ 0) × (c ≡ 0) × (d ≡ n)
small_number a b c d n e l = (omega arith, omega arith, omega arith, omega arith)

-- The frames that signal a command are the four bytes of one of the numbers of SIGHUP, SIGINT, SIGQUIT
-- and SIGTERM, for a payload of bytes.
pub signal_child-eq_ok :
    (payload : List ℕ) (signal : ℕ)
    → All (λ b. b < 256) payload
    → signal_child payload ≡ ok signal
    → (payload ≡ 0 ∷ 0 ∷ 0 ∷ signal ∷ []) × (is_allowed signal ≡ true)
unfolding signal_child
signal_child-eq_ok [] signal small h = cc
signal_child-eq_ok (a ∷ []) signal small h = cc
signal_child-eq_ok (a ∷ b ∷ []) signal small h = cc
signal_child-eq_ok (a ∷ b ∷ c ∷ []) signal small h = cc
signal_child-eq_ok (a ∷ b ∷ c ∷ d ∷ []) signal small h =
    let (_, allowed, same) =
      >>=-eq-ok (ensure (is_allowed (((a * 256 + b) * 256 + c) * 256 + d)) not_allowed) _ h in
    let ok_eq = ok-injective same in
    let test = ensure-eq-ok _ _ allowed in
    let (x, y, z, w) = small_number a b c d signal ok_eq (low_number _ test) in
    (λ i. x i ∷ y i ∷ z i ∷ w i ∷ [], ap is_allowed (sym ok_eq) ∙ test)
signal_child-eq_ok (a ∷ b ∷ c ∷ d ∷ e ∷ more) signal small h = cc
