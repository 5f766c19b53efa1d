-- ===== src/Agent/Session/Configure/Success.antt =====
-- What a session holds after `configure` succeeded.
use spawnr.Prelude.{ℕ, ◌≡◌, refl, Bool, Option, none, some, List, Result, ok, err, arith}
use mathlib.Core.Option
use spawnr.Prelude.Text.{Str, bytes}
use spawnr.Protocol.{SessionConfig}
use spawnr.Agent.Session.{Error, encode_image_environment}
use spawnr.Agent.Session.Values.{git_config}
use spawnr.Agent.Session.Store.{
  assert_tmpfs, switch, SessionDir, Faults, Step, ◌>>◌, check, store, write_private, chown_file,
  replace_secret, remove_file, set_enabled, is_enabled, start_steps, clear_stale_socket, attempt,
  FileName, Entry, absent, socket, other, git_config_file, gh_token_file, ssh_known_hosts_file,
  image_env_file, Operation, initialize_proxy, inspect_socket, bind_socket, secure_socket,
  spawn_thread,
}
use spawnr.Agent.Session.Configure.{write_files, install, install_encoded, configure}

-- On success the step takes the directory `s` to `f s`.
record Does (m : Step) (f : SessionDir → SessionDir) : Type 0 where
  does : (s : SessionDir) → (m s).1 ≡ ok tt → (m s).0 ≡ f s

>>-Does :
    {a b : Step} {f g : SessionDir → SessionDir}
    → Does a f
    → Does b g
    → Does (a >> b) (λ s. g (f s))
unfolding ◌>>◌
>>-Does {a} {b} {f} {g} ha hb = record {
  does = λ s h. ground (arith, ha.does s, hb.does (a s).0, hb.does (f s));
}

abbrev pub as_ok : List ℕ → Result Error (List ℕ)
as_ok c = ok c

module _ (faults : Faults) (socket_path : Str) where
  write_private-Does :
      (name : FileName) (v : List ℕ) → Does (write_private faults name v) (store name (some v))
  unfolding write_private
  write_private-Does name v = record { does = λ s h. ground arith }

  chown_file-Does : (name : FileName) → Does (chown_file faults name) (λ s. s)
  unfolding chown_file
  chown_file-Does name = record { does = λ s h. ground arith }

  replace_secret-Does :
      (name : FileName) (v : Option Str)
      → Does (replace_secret faults name v) (store name (Option.map bytes v))
  unfolding replace_secret remove_file
  replace_secret-Does name none = record { does = λ s h. ground arith }
  replace_secret-Does name (some v) =
      >>-Does (write_private-Does name (bytes v)) (chown_file-Does name)

  files_written :
      (config : SessionConfig) (contents : List ℕ)
      → Does (write_files faults socket_path config contents) (λ s.
        store image_env_file (some contents) (
          store ssh_known_hosts_file (Option.map bytes config.ssh_known_hosts) (
            store gh_token_file
              (Option.map bytes config.gh_token)
              (store git_config_file (some (bytes (git_config config))) s))))
  unfolding write_files
  files_written config contents = >>-Does (write_private-Does git_config_file _) (
      >>-Does (chown_file-Does git_config_file) (
        >>-Does (replace_secret-Does gh_token_file config.gh_token) (
          >>-Does (replace_secret-Does ssh_known_hosts_file config.ssh_known_hosts) (
            >>-Does (write_private-Does image_env_file contents)
              (chown_file-Does image_env_file)))))

  attempt-Does : (op : Operation) (f : SessionDir → SessionDir) → Does (attempt faults op f) f
  unfolding attempt
  attempt-Does op f = record { does = λ s h. ground arith }

  abbrev cleared : Entry → SessionDir → SessionDir
  cleared socket s = record s { agent_socket = absent }
  cleared absent s = s
  cleared other s = s

  clear-Does : (entry : Entry) → Does (clear_stale_socket faults entry) (cleared entry)
  unfolding clear_stale_socket
  clear-Does absent = record { does = λ s h. refl }
  clear-Does socket = attempt-Does _ _
  clear-Does other = record { does = λ s h. refl }

  start_steps-Does :
      (path : Str) (entry : Entry)
      → Does
          (start_steps faults path entry)
          (λ s. initialize_proxy faults path (record (cleared entry s) { agent_socket = socket }))
  unfolding start_steps
  start_steps-Does path entry = >>-Does (attempt-Does inspect_socket (λ t. t)) (
      >>-Does (clear-Does entry) (
        >>-Does (attempt-Does bind_socket (λ t. record t { agent_socket = socket })) (
          >>-Does (attempt-Does secure_socket (initialize_proxy faults path))
            (attempt-Does spawn_thread (λ t. t)))))

  switch_ok :
      (enabled : Bool) (s : SessionDir)
      → (switch faults socket_path enabled s).1 ≡ ok tt
      → let t = (switch faults socket_path enabled s).0 in
        (t.git_config ≡ s.git_config)
        × (t.gh_token ≡ s.gh_token)
        × (t.known_hosts ≡ s.known_hosts)
        × (t.image_env ≡ s.image_env)
        × (is_enabled t ≡ enabled)
  unfolding ◌>>◌
  switch_ok enabled s h = ground (arith, (start_steps-Does socket_path s.agent_socket).does s)

  set_enabled_ok :
      (enabled : Bool) (s : SessionDir)
      → (set_enabled faults socket_path enabled s).1 ≡ ok tt
      → let t = (set_enabled faults socket_path enabled s).0 in
        (t.git_config ≡ s.git_config)
        × (t.gh_token ≡ s.gh_token)
        × (t.known_hosts ≡ s.known_hosts)
        × (t.image_env ≡ s.image_env)
        × (is_enabled t ≡ enabled)
  unfolding set_enabled ◌>>◌ attempt
  set_enabled_ok enabled s h = ground (arith, switch_ok enabled s)

  -- On success `m` has done what `n` does.
  record Past (m n : Step) : Type 0 where
    past : (s : SessionDir) → (m s).1 ≡ ok tt → m s ≡ n s

  check-Past : (r : Result Error (Unit {0})) (m n : Step) → Past m n → Past (check r >> m) n
  unfolding ◌>>◌
  check-Past (ok _) m n h = record { past = λ s e. h.past s e }
  check-Past (err _) m n h = record { past = λ s e. cc }

  tmpfs-Past : (m n : Step) → Past m n → Past (attempt faults assert_tmpfs (λ s. s) >> m) n
  unfolding ◌>>◌ attempt
  tmpfs-Past m n h = record { past = λ s e. ground (arith, h.past s, e) }

  here : (m : Step) → Past m m
  here m = record { past = λ s h. refl }

  configure-Past :
      (config : SessionConfig)
      → Past
          (configure faults socket_path config)
          (install_encoded faults socket_path config (encode_image_environment config.image_env))
  unfolding configure
  configure-Past config = search (tmpfs-Past, check-Past, here) depth 10

  install_ok :
      (config : SessionConfig) (contents : List ℕ) (s : SessionDir)
      → (install faults socket_path config contents s).1 ≡ ok tt
      → let t = (install faults socket_path config contents s).0 in
        (t.git_config ≡ some (bytes (git_config config)))
        × (t.gh_token ≡ Option.map bytes config.gh_token)
        × (t.known_hosts ≡ Option.map bytes config.ssh_known_hosts)
        × (t.image_env ≡ some contents)
        × (is_enabled t ≡ config.ssh_agent)
  unfolding install ◌>>◌
  install_ok config contents s h = ground (
    arith,
    (files_written config contents).does s,
    set_enabled_ok config.ssh_agent (write_files faults socket_path config contents s).0,
  )

  encoded_ok :
      (config : SessionConfig) (r : Result Error (List ℕ)) (s : SessionDir)
      → (install_encoded faults socket_path config r s).1 ≡ ok tt
      → let t = (install_encoded faults socket_path config r s).0 in
        (t.git_config ≡ some (bytes (git_config config)))
        × (t.gh_token ≡ Option.map bytes config.gh_token)
        × (t.known_hosts ≡ Option.map bytes config.ssh_known_hosts)
        × (Option.map as_ok t.image_env ≡ some r)
        × (is_enabled t ≡ config.ssh_agent)
  unfolding install_encoded
  encoded_ok config (err e) s h = cc
  encoded_ok config (ok contents) s h =
      let (git, token, hosts, env, agent) = install_ok config contents s h in
      (git, token, hosts, rw env, agent)

  -- A request that succeeds leaves in the session directory exactly what it gave: the Git
  -- configuration, the token and the known hosts (each removed if the request has none), the
  -- encoded image environment, and the SSH-agent proxy switched as the request says.
  pub configure_ok :
      (config : SessionConfig) (s : SessionDir)
      → (configure faults socket_path config s).1 ≡ ok tt
      → let t = (configure faults socket_path config s).0 in
        (t.git_config ≡ some (bytes (git_config config)))
        × (t.gh_token ≡ Option.map bytes config.gh_token)
        × (t.known_hosts ≡ Option.map bytes config.ssh_known_hosts)
        × (Option.map as_ok t.image_env ≡ some (encode_image_environment config.image_env))
        × (is_enabled t ≡ config.ssh_agent)
  configure_ok config s h =
      let same = (configure-Past config).past s h in
      rw same (encoded_ok config (encode_image_environment config.image_env) s (rw same at h))
