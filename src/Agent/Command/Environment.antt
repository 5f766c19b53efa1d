-- ===== src/Agent/Command/Environment.antt =====
-- `populate_environment` of command.rs with `apply_environment` of session.rs: the environment of
-- a guest command, in layers. A command's environment is kept by the standard library as a map
-- from names to values; `env_remove` after `env_clear` takes a name out of it.
pub mod Layers
pub mod Size
use spawnr.Prelude.{
  ℕ, ◌+◌, ◌-◌, ◌*◌, ◌%◌, ◌==◌, ◌^◌, ◌≤◌, ◌≡◌, refl, sym, ap, ◌∙◌, ◌≢◌, Bool, true, false, not, ◌&&◌,
  Option, none, some, List, [], ◌∷◌, ◌++◌, ltb, leb, if◌then◌else◌, length, Result, ok, err, ◌>>=◌,
  ◌>>◌, ensure, context, arith,
}
use spawnr.Prelude.Text.{Str, codes, len, str_eq, str_eq_iff}
use spawnr.Prelude.Utf8.{from_utf8}
use spawnr.Agent.Session
use spawnr.Agent.Session.{
  Env, insert, lookup, decode_image_environment, max_image_env_file_bytes, max_environment_bytes,
  checked_add,
}
use spawnr.Agent.Session.Store.{SessionDir, Entry, absent, socket, other, is_enabled}

pub record User : Type 0 where
  pub name : Str
  pub home : Str
  pub shell : Str

pub data Error : Type 0 where
  image_environment : Session.Error → Error
  image_environment_too_long image_environment_shared token_not_utf8 overflow environment_too_large
        arguments_too_large :
      Error

-- `Command::env_remove`
unfoldable pub remove : Str → Env → Env
remove k [] = []
remove k ((j, w) ∷ m) = let rest = remove k m in if str_eq j k then rest else (j, w) ∷ rest

-- `for (name, value) in map { command.env(name, value); }`
unfoldable pub extend : Env → Env → Env
extend [] command = command
extend ((name, value) ∷ env) command = extend env (insert name value command)

abbrev pub wrap {ℓ} : {A : Type ℓ} → Result Session.Error A → Result Error A
wrap (ok a) = ok a
wrap (err e) = err (image_environment e)

-- `session::image_environment`: the file is absent, or a regular file of a length within the limit that
-- no other account can access.
unfoldable pub read_image_environment : SessionDir → Result Error Env
read_image_environment s = elim s.image_env [
  | none ↦ ok []
  | some contents ↦ do
    ensure (s.image_env_is_file && leb (length contents) max_image_env_file_bytes)
        image_environment_too_long
    ensure (s.image_env_mode % 64 == 0) image_environment_shared
    wrap (decode_image_environment contents)
]

module _ (session_dir : Str) where
  abbrev pub join : Str → Str
  join file = session_dir ++ (codes "/" ++ file)

  -- `agent.exists() && is_enabled()`
  abbrev pub agent_available : SessionDir → Bool
  agent_available s = elim s.agent_socket [ absent ↦ false | _ ↦ is_enabled s ]

  abbrev pub set_agent : Bool → Env → Env
  set_agent true = insert (codes "SSH_AUTH_SOCK") (join (codes "ssh-agent.sock"))
  set_agent false = remove (codes "SSH_AUTH_SOCK")

  abbrev pub ssh_command : Str
  ssh_command =
      codes
        "ssh -o BatchMode=yes -o StrictHostKeyChecking=yes -o GlobalKnownHostsFile=/dev/null -o UserKnownHostsFile="
      ++ join (codes "ssh-known-hosts")

  abbrev pub set_ssh : Option (List ℕ) → Env → Env
  set_ssh (some _) = insert (codes "GIT_SSH_COMMAND") ssh_command
  set_ssh none = remove (codes "GIT_SSH_COMMAND")

  -- `match fs::read_to_string(&token)`
  unfoldable pub set_token : Option (List ℕ) → Env → Result Error Env
  set_token none command = ok (remove (codes "GH_TOKEN") command)
  set_token (some contents) command = do
    value ← context (from_utf8 contents) token_not_utf8
    ok (insert (codes "GH_TOKEN") value command)

  unfoldable pub apply_environment : SessionDir → Env → Result Error Env
  unfolding set_token
  apply_environment s command = do
    let command = insert (codes "GIT_CONFIG_GLOBAL") (join (codes "gitconfig")) command
    let command = set_agent (agent_available s) command
    let command = set_ssh s.known_hosts command
    let command = remove (codes "GITHUB_TOKEN") command
    set_token s.gh_token command

  abbrev pub default_path : Str
  default_path = codes "/usr/local/sbin:/usr/local/bin:/usr/sbin:/usr/bin:/sbin:/bin"

  abbrev pub identity : User → Env → Env
  identity user command = insert (codes "SHELL") user.shell (
      insert (codes "LOGNAME") user.name
        (insert (codes "USER") user.name (insert (codes "HOME") user.home command)))

  -- `populate_environment`, up to `validate_effective_process_size`.
  unfoldable pub compose_environment : User → SessionDir → Env → Result Error Env
  unfolding apply_environment
  compose_environment user s env = do
    image ← read_image_environment s
    let command = extend image (insert (codes "PATH") default_path [])
    command ← apply_environment s (identity user command)
    ok (extend env command)
