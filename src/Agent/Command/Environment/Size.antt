-- ===== src/Agent/Command/Environment/Size.antt =====
-- `validate_effective_process_size` of command.rs, and the whole of `populate_environment`. The answer of
-- sysconf(_SC_ARG_MAX) is given, with 0 for none.
use spawnr.Prelude.{
  ℕ, Bool, true, false, ◌+◌, ◌-◌, ◌*◌, ◌^◌, ◌≤◌, ◌≡◌, sym, ap, Option, none, some, List, [], ◌∷◌,
  ltb, leb, leb→le, if◌then◌else◌, length, Result, ok, ◌>>=◌, ◌>>◌, ensure, context, arith,
  >>=-eq-ok, ensure-eq-ok, ok-injective,
}
use spawnr.Prelude.Text.{Str, len}
use spawnr.Agent.Session.{Env, max_environment_bytes, checked_add}
use spawnr.Agent.Command.Arguments.{layout_bytes}
use spawnr.Agent.Session.Store.{SessionDir}
use spawnr.Agent.Command.Environment.{
  User, Error, overflow, environment_too_large, arguments_too_large, compose_environment,
}

abbrev pub arg_max_reserve : ℕ
arg_max_reserve = 32 * 1024

-- `usize::checked_mul`
abbrev checked_mul : ℕ → ℕ → Option ℕ
checked_mul a b = if ltb (a * b) (2 ^ 64) then some (a * b) else none

-- The loop over `get_envs`: the items and the bytes.
unfoldable pub environment_size : Env → ℕ → ℕ → Result Error (ℕ × ℕ)
environment_size [] items bytes = ok (items, bytes)
environment_size ((name, value) ∷ env) items bytes = do
  items' ← context (checked_add items 1) overflow
  named ← context (checked_add bytes (len name)) overflow
  valued ← context (checked_add named (len value)) overflow
  bytes' ← context (checked_add valued 2) overflow
  environment_size env items' bytes'

-- The loop over `get_args`.
unfoldable pub arguments_size : List Str → ℕ → ℕ → Result Error (ℕ × ℕ)
arguments_size [] items bytes = ok (items, bytes)
arguments_size (argument ∷ arguments) items bytes = do
  items' ← context (checked_add items 1) overflow
  more ← context (checked_add bytes (len argument)) overflow
  bytes' ← context (checked_add more 1) overflow
  arguments_size arguments items' bytes'

abbrev pub argument_limit : ℕ → ℕ
argument_limit system_limit = if ltb 0 system_limit then system_limit else 2 * 1024 * 1024

module _ (system_limit : ℕ) (program : Str) (arguments : List Str) where
  -- From the environment's items and bytes on.
  unfoldable pub validate_process_bytes : ℕ → ℕ → Result Error (Unit {0})
  validate_process_bytes items bytes = do
    start ← context (checked_add (len program) 1) overflow
    (argument_items, argument_bytes) ← arguments_size arguments 1 start
    both ← context (checked_add argument_items items) overflow
    pointers ← context (checked_add both 2) overflow
    pointer_bytes ← context (checked_mul pointers 8) overflow
    texts ← context (checked_add argument_bytes bytes) overflow
    process_bytes ← context (checked_add texts pointer_bytes) overflow
    ensure (leb process_bytes (argument_limit system_limit - arg_max_reserve)) arguments_too_large

  unfoldable pub validate_effective_process_size : Env → Result Error (Unit {0})
  validate_effective_process_size command = do
    (items, bytes) ← environment_size command 0 0
    ensure (leb bytes max_environment_bytes) environment_too_large
    validate_process_bytes items bytes

  unfoldable pub populate_environment : Str → User → SessionDir → Env → Result Error Env
  populate_environment session_dir user s env = do
    command ← compose_environment session_dir user s env
    validate_effective_process_size command
    ok command

-- The bytes of the arguments, with a NUL each.
abbrev pub argument_bytes : List Str → ℕ
argument_bytes [] = 0
argument_bytes (argument ∷ arguments) = len argument + 1 + argument_bytes arguments

added : (a b : ℕ) {c : ℕ} → context (checked_add a b) overflow ≡ ok c → c ≡ a + b
added a b {c} h = go (ltb (a + b) (2 ^ 64)) (a + b) h
  where
    go :
        (t : Bool) (n : ℕ)
        → ◌≡◌ {A = Result Error ℕ} (context (if t then some n else none) overflow) (ok c)
        → c ≡ n
    go true n h = sym (ok-injective h)
    go false n h = cc

multiplied : (a b : ℕ) {c : ℕ} → context (checked_mul a b) overflow ≡ ok c → c ≡ a * b
multiplied a b {c} h = go (ltb (a * b) (2 ^ 64)) (a * b) h
  where
    go :
        (t : Bool) (n : ℕ)
        → ◌≡◌ {A = Result Error ℕ} (context (if t then some n else none) overflow) (ok c)
        → c ≡ n
    go true n h = sym (ok-injective h)
    go false n h = cc

environment_size_eq :
    (env : Env) (items bytes i b : ℕ)
    → environment_size env items bytes ≡ ok (i, b)
    → (i ≡ items + length env) × (b ≡ bytes + layout_bytes env)
unfolding environment_size
environment_size_eq [] items bytes i b h =
    let e = ok-injective h in
    let e1 = ap (λ x. x.0) e in let e2 = ap (λ x. x.1) e in (omega (arith, e1), omega (arith, e2))
environment_size_eq ((name, value) ∷ env) items bytes i b h =
    let (items', e1, h1) = >>=-eq-ok (context (checked_add items 1) overflow) _ h in
    let (named, e2, h2) = >>=-eq-ok (context (checked_add bytes (len name)) overflow) _ h1 in
    let (valued, e3, h3) = >>=-eq-ok (context (checked_add named (len value)) overflow) _ h2 in
    let (bytes', e4, h4) = >>=-eq-ok (context (checked_add valued 2) overflow) _ h3 in
    let (c, d) = environment_size_eq env items' bytes' i b h4 in
    (
      omega (arith, c, added items 1 e1),
      omega (arith, d, added bytes (len name) e2, added named (len value) e3, added valued 2 e4),
    )

arguments_size_eq :
    (arguments : List Str) (items bytes i b : ℕ)
    → arguments_size arguments items bytes ≡ ok (i, b)
    → (i ≡ items + length arguments) × (b ≡ bytes + argument_bytes arguments)
unfolding arguments_size
arguments_size_eq [] items bytes i b h =
    let e = ok-injective h in
    let e1 = ap (λ x. x.0) e in let e2 = ap (λ x. x.1) e in (omega (arith, e1), omega (arith, e2))
arguments_size_eq (argument ∷ arguments) items bytes i b h =
    let (items', e1, h1) = >>=-eq-ok (context (checked_add items 1) overflow) _ h in
    let (more, e2, h2) = >>=-eq-ok (context (checked_add bytes (len argument)) overflow) _ h1 in
    let (bytes', e3, h3) = >>=-eq-ok (context (checked_add more 1) overflow) _ h2 in
    let (c, d) = arguments_size_eq arguments items' bytes' i b h3 in
    (
      omega (arith, c, added items 1 e1),
      omega (arith, d, added bytes (len argument) e2, added more 1 e3),
    )

module _ (system_limit : ℕ) (program : Str) (arguments : List Str) where
  -- What execve(2) needs for the program with its arguments and this environment: every text with its
  -- NUL, and a pointer of 8 bytes for each, and for both ends.
  abbrev pub execve_bytes : Env → ℕ
  execve_bytes command =
      len program
      + 1
      + argument_bytes arguments
      + layout_bytes command
      + (1 + length arguments + length command + 2) * 8

  process_bytes_bound :
      (items bytes : ℕ) {u : Unit {0}}
      → validate_process_bytes system_limit program arguments items bytes ≡ ok u
      → len program + 1 + argument_bytes arguments + bytes + (1 + length arguments + items + 2) * 8
        ≤ argument_limit system_limit - arg_max_reserve
  unfolding validate_process_bytes
  process_bytes_bound items bytes h =
      let (start, e1, h1) = >>=-eq-ok (context (checked_add (len program) 1) overflow) _ h in
      let ((ai, ab), e2, h2) = >>=-eq-ok (arguments_size arguments 1 start) _ h1 in
      let (both, e3, h3) = >>=-eq-ok (context (checked_add ai items) overflow) _ h2 in
      let (pointers, e4, h4) = >>=-eq-ok (context (checked_add both 2) overflow) _ h3 in
      let (pb, e5, h5) = >>=-eq-ok (context (checked_mul pointers 8) overflow) _ h4 in
      let (texts, e6, h6) = >>=-eq-ok (context (checked_add ab bytes) overflow) _ h5 in
      let (total, e7, h7) = >>=-eq-ok (context (checked_add texts pb) overflow) _ h6 in
      let fits = leb→le total _ (ensure-eq-ok _ _ h7) in
      let (c, d) = arguments_size_eq arguments 1 start ai ab e2 in
      omega (
        arith,
        fits,
        added (len program) 1 e1,
        c,
        d,
        added ai items e3,
        added both 2 e4,
        multiplied pointers 8 e5,
        added ab bytes e6,
        added texts pb e7,
      )

  -- An environment that `populate_environment` returns is the composed one; it fits in the limit of an
  -- environment, and with the program and its arguments in what execve(2) takes, less the reserve. No
  -- sum wraps around.
  pub populate_environment_ok :
      (session_dir : Str) (user : User) (s : SessionDir) (env command : Env)
      → populate_environment system_limit program arguments session_dir user s env ≡ ok command
      → (compose_environment session_dir user s env ≡ ok command)
        × (layout_bytes command ≤ max_environment_bytes)
        × (execve_bytes command ≤ argument_limit system_limit - arg_max_reserve)
  unfolding populate_environment validate_effective_process_size
  populate_environment_ok session_dir user s env command h =
      let (made, composed, h1) = >>=-eq-ok (compose_environment session_dir user s env) _ h in
      let (u, checked, h2) =
        >>=-eq-ok (validate_effective_process_size system_limit program arguments made) _ h1 in
      let same : made ≡ command = ok-injective h2 in
      let ((items, bytes), counted, h3) = >>=-eq-ok (environment_size made 0 0) _ checked in
      let (_, small, h4) = >>=-eq-ok (ensure (leb bytes max_environment_bytes) _) _ h3 in
      let (c, d) = environment_size_eq made 0 0 items bytes counted in
      rw (← same) (
        composed,
        omega (arith, d, leb→le bytes _ (ensure-eq-ok _ _ small)),
        omega (arith, c, d, process_bytes_bound items bytes h4),
      )
