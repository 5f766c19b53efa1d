-- ===== src/Agent/Session/Configure.antt =====
-- `session::configure`: every check comes before the first write, and a session that was
-- configured holds exactly what the request gave.
pub mod Success
use spawnr.Prelude.{
  ℕ, ◌*◌, ◌≡◌, refl, ◌≢◌, Bool, true, false, Option, none, some, List, [], Result, ok, err, arith,
  is_ok, Bool-cases, inl, inr,
}
use mathlib.Core.Option
use spawnr.Prelude.Text.{Str, codes, bytes, str_eq, str_eq_iff}
use spawnr.Protocol.{SessionConfig}
use spawnr.Agent.Session.{Error, encode_image_environment}
use spawnr.Agent.Session.Values.{validate_optional, validate_known_hosts, git_config}
use spawnr.Agent.Session.Store.{
  assert_tmpfs, lock_proxy, switch, SessionDir, Faults, Failure, invalid, Step, ◌>>◌, check,
  write_private, chown_file, replace_secret, remove_file, set_enabled, is_enabled, git_config_file,
  gh_token_file, ssh_known_hosts_file, image_env_file, Operation, attempt, clear_stale_socket,
  start_steps, FileName, Entry, absent, socket, other, inspect_socket, bind_socket, secure_socket,
  spawn_thread,
}

module _ (faults : Faults) (socket_path : Str) where
  -- The files, from `write_git_config` on.
  unfoldable pub write_files : SessionConfig → List ℕ → Step
  write_files config image_environment = do
    write_private faults git_config_file (bytes (git_config config))
    chown_file faults git_config_file
    replace_secret faults gh_token_file config.gh_token
    replace_secret faults ssh_known_hosts_file config.ssh_known_hosts
    write_private faults image_env_file image_environment
    chown_file faults image_env_file

  unfoldable pub install : SessionConfig → List ℕ → Step
  unfolding write_files
  install config image_environment = do
    write_files config image_environment
    set_enabled faults socket_path config.ssh_agent

  -- The `?` on the encoding, and the rest.
  unfoldable pub install_encoded : SessionConfig → Result Error (List ℕ) → Step
  install_encoded config (err e) s = (s, err (invalid e))
  install_encoded config (ok image_environment) s = install config image_environment s

  unfoldable pub configure : SessionConfig → Step
  configure config = do
    attempt faults assert_tmpfs (λ s. s)
    check (validate_optional config.git_user_name 1024)
    check (validate_optional config.git_user_email 1024)
    check (validate_optional config.git_signing_key (16 * 1024))
    check (validate_optional config.gh_token (64 * 1024))
    check (validate_known_hosts config.ssh_known_hosts)
    install_encoded config (encode_image_environment config.image_env)

  -- What a session that was configured holds.
  pub record Holds (config : SessionConfig) (s : SessionDir) : Type 0 where
    pub git : s.git_config ≡ some (bytes (git_config config))
    pub token : s.gh_token ≡ Option.map bytes config.gh_token
    pub hosts : s.known_hosts ≡ Option.map bytes config.ssh_known_hosts
    pub environment :
        (contents : List ℕ) × (s.image_env ≡ some contents)
        × (encode_image_environment config.image_env ≡ ok contents)
    pub agent : is_enabled s ≡ config.ssh_agent

  -- A step that does not report an invalid value.
  record NotInvalid (m : Step) : Type 0 where
    never : (s : SessionDir) (e : Error) → (m s).1 ≢ err (invalid e)

  >>-NotInvalid : {a b : Step} → NotInvalid a → NotInvalid b → NotInvalid (a >> b)
  unfolding ◌>>◌
  >>-NotInvalid {a} {b} ha hb = record {
    never = λ s e h. ground (arith, ha.never s e, hb.never (a s).0 e);
  }

  attempt-NotInvalid :
      (op : Operation) (f : SessionDir → SessionDir) → NotInvalid (attempt faults op f)
  unfolding attempt
  attempt-NotInvalid op f = record { never = λ s e h. ground arith }

  write_private-NotInvalid :
      (name : FileName) (v : List ℕ) → NotInvalid (write_private faults name v)
  unfolding write_private
  write_private-NotInvalid name v = attempt-NotInvalid _ _

  chown_file-NotInvalid : (name : FileName) → NotInvalid (chown_file faults name)
  unfolding chown_file
  chown_file-NotInvalid name = attempt-NotInvalid _ _

  remove_file-NotInvalid : (name : FileName) → NotInvalid (remove_file faults name)
  unfolding remove_file
  remove_file-NotInvalid name = attempt-NotInvalid _ _

  replace_secret-NotInvalid :
      (name : FileName) (v : Option Str) → NotInvalid (replace_secret faults name v)
  unfolding replace_secret
  replace_secret-NotInvalid name none = remove_file-NotInvalid name
  replace_secret-NotInvalid name (some v) =
      >>-NotInvalid (write_private-NotInvalid name (bytes v)) (chown_file-NotInvalid name)

  clear-NotInvalid : (entry : Entry) → NotInvalid (clear_stale_socket faults entry)
  unfolding clear_stale_socket
  clear-NotInvalid absent = record { never = λ s e h. ground arith }
  clear-NotInvalid socket = attempt-NotInvalid _ _
  clear-NotInvalid other = record { never = λ s e h. ground arith }

  start_steps-NotInvalid : (path : Str) (entry : Entry) → NotInvalid (start_steps faults path entry)
  unfolding start_steps
  start_steps-NotInvalid path entry =
      search (>>-NotInvalid, attempt-NotInvalid, clear-NotInvalid) depth 10

  switch-NotInvalid : (enabled : Bool) → NotInvalid (switch faults socket_path enabled)
  unfolding ◌>>◌
  switch-NotInvalid enabled = record {
    never = λ s e h. ground (arith, (start_steps-NotInvalid socket_path s.agent_socket).never s e);
  }

  set_enabled-NotInvalid : (enabled : Bool) → NotInvalid (set_enabled faults socket_path enabled)
  unfolding set_enabled
  set_enabled-NotInvalid enabled =
      >>-NotInvalid (attempt-NotInvalid lock_proxy (λ t. t)) (switch-NotInvalid enabled)

  install-NotInvalid :
      (config : SessionConfig) (contents : List ℕ) → NotInvalid (install config contents)
  unfolding install
  install-NotInvalid config contents =
      search
        (
          >>-NotInvalid, write_private-NotInvalid, chown_file-NotInvalid, replace_secret-NotInvalid,
          set_enabled-NotInvalid,
        )
        depth 12

  -- A step that reports an invalid value only before it touches anything.
  record Keeps (m : Step) : Type 0 where
    kept : (s : SessionDir) (e : Error) → (m s).1 ≡ err (invalid e) → (m s).0 ≡ s

  check-Keeps : (r : Result Error (Unit {0})) (m : Step) → Keeps m → Keeps (check r >> m)
  unfolding ◌>>◌
  check-Keeps (ok _) m h = record { kept = λ s e p. h.kept s e p }
  check-Keeps (err _) m h = record { kept = λ s e p. refl }

  tmpfs-Keeps : (m : Step) → Keeps m → Keeps (attempt faults assert_tmpfs (λ s. s) >> m)
  unfolding ◌>>◌ attempt
  tmpfs-Keeps m h = record { kept = λ s e p. ground (arith, h.kept s e) }

  encoded-Keeps :
      (config : SessionConfig) (r : Result Error (List ℕ)) → Keeps (install_encoded config r)
  unfolding install_encoded
  encoded-Keeps config (ok contents) = record {
    kept = λ s e p. absurd ((install-NotInvalid config contents).never s e p);
  }
  encoded-Keeps config (err _) = record { kept = λ s e p. refl }

  configure-Keeps : (config : SessionConfig) → Keeps (configure config)
  unfolding configure
  configure-Keeps config = search (tmpfs-Keeps, check-Keeps, encoded-Keeps) depth 10

  -- A request that is refused because a value is invalid leaves the session as it was, whatever
  -- operations would fail.
  pub configure_invalid :
      (config : SessionConfig) (s : SessionDir) (e : Error)
      → (configure config s).1 ≡ err (invalid e)
      → (configure config s).0 ≡ s
  configure_invalid config = (configure-Keeps config).kept
