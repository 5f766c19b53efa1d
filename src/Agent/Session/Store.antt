-- ===== src/Agent/Session/Store.antt =====
-- The session directory of the guest (`/run/spawnr`) and the operations on it that may fail:
-- `write_private` of lib.rs, `chown` of account.rs, `replace_secret` of session.rs, and the
-- SSH-agent proxy of agent_proxy.rs with its process-wide `PROXY`. Which operations fail is given
-- by `faults`; a failed `write_private` leaves the old file, since the rename comes last.
use spawnr.Prelude.{ℕ, Bool, true, false, Option, none, some, List, Result, ok, err, if◌then◌else◌}
use spawnr.Prelude.Text.{Str, bytes, str_eq}
use spawnr.Agent.Session.{Error}

pub data FileName : Type 0 where
  git_config_file gh_token_file ssh_known_hosts_file image_env_file : FileName

-- What stands at a path.
pub data Entry : Type 0 where
  absent socket other : Entry

pub record SessionDir : Type 0 where
  pub git_config : Option (List ℕ)
  pub gh_token : Option (List ℕ)
  pub known_hosts : Option (List ℕ)
  pub image_env : Option (List ℕ)
  -- The type and the mode of that file.
  pub image_env_is_file : Bool
  pub image_env_mode : ℕ
  pub agent_socket : Entry
  -- `PROXY`: its path and `enabled`, once it was started.
  pub proxy : Option (Str × Bool)

pub data Operation : Type 0 where
  write chown remove : FileName → Operation
  assert_tmpfs lock_proxy inspect_socket remove_socket bind_socket secure_socket spawn_thread :
      Operation

abbrev pub Faults : Type 0
Faults = Operation → Bool

pub data Failure : Type 0 where
  invalid : Error → Failure
  io : Operation → Failure
  other_path not_a_socket : Failure

-- A step returns the directory as it left it, also when it fails.
abbrev pub Step : Type 0
Step = SessionDir → SessionDir × Result Failure (Unit {0})

infixl 5 ◌>>◌
unfoldable pub ◌>>◌ : Step → Step → Step
◌>>◌ a b s = let (s', r) = a s in elim r [ ok _ ↦ b s' | err e ↦ (s', err e) ]

abbrev pub done : Step
done s = (s, ok tt)

abbrev pub fail : Failure → Step
fail e s = (s, err e)

-- `?` on a check that touches nothing.
abbrev pub check : Result Error (Unit {0}) → Step
check (ok _) s = (s, ok tt)
check (err e) s = (s, err (invalid e))

abbrev pub store : FileName → Option (List ℕ) → SessionDir → SessionDir
store git_config_file v s = record s { git_config = v }
store gh_token_file v s = record s { gh_token = v }
store ssh_known_hosts_file v s = record s { known_hosts = v }
store image_env_file v s = record s {
  image_env = v;
  image_env_is_file = true;
  image_env_mode = 384;
}

module _ (faults : Faults) where
  -- An operation that changes the directory by `f` unless it fails.
  unfoldable pub attempt : Operation → (SessionDir → SessionDir) → Step
  attempt op f s = elim (faults op) [ true ↦ (s, err (io op)) | false ↦ (f s, ok tt) ]

  unfoldable pub write_private : FileName → List ℕ → Step
  unfolding attempt
  write_private name contents = attempt (write name) (store name (some contents))

  unfoldable pub chown_file : FileName → Step
  unfolding attempt
  chown_file name = attempt (chown name) (λ s. s)

  -- `remove_file`, where a missing file is no failure.
  unfoldable pub remove_file : FileName → Step
  unfolding attempt
  remove_file name = attempt (remove name) (store name none)

  unfoldable pub replace_secret : FileName → Option Str → Step
  unfolding ◌>>◌
  replace_secret name (some value) = do write_private name (bytes value); chown_file name
  replace_secret name none = remove_file name

  -- `match fs::symlink_metadata(&path)` of `agent_proxy::start`.
  unfoldable pub clear_stale_socket : Entry → Step
  unfolding attempt
  clear_stale_socket socket = attempt remove_socket (λ s. record s { agent_socket = absent })
  clear_stale_socket other = fail not_a_socket
  clear_stale_socket absent = done

  -- `PROXY.get_or_init`
  abbrev pub initialize_proxy : Str → SessionDir → SessionDir
  initialize_proxy path s = elim s.proxy [
    | none ↦ record s { proxy = some (path, false) }
    | some p ↦ s
  ]

  -- `agent_proxy::start`, where `entry` is what stands at the socket's path.
  unfoldable pub start_steps : Str → Entry → Step
  start_steps path entry = do
    attempt inspect_socket (λ t. t)
    clear_stale_socket entry
    attempt bind_socket (λ t. record t { agent_socket = socket })
    attempt secure_socket (initialize_proxy path)
    attempt spawn_thread (λ t. t)

  -- `proxy.enabled.store(enabled)`
  abbrev store_enabled : Bool → Step
  store_enabled enabled s = elim s.proxy [
    | none ↦ (s, ok tt)
    | some (path, _) ↦ (record s { proxy = some (path, enabled) }, ok tt)
  ]

  abbrev pub switch : Str → Bool → Step
  switch path enabled s = elim s.proxy [
    | some (old, was) ↦ if str_eq old path then store_enabled enabled s else (s, err other_path)
    | none ↦ (do start_steps path s.agent_socket; store_enabled enabled) s
  ]

  -- `PROXY` is looked up under its lock.
  unfoldable pub set_enabled : Str → Bool → Step
  unfolding ◌>>◌
  set_enabled path enabled = attempt lock_proxy (λ t. t) >> switch path enabled

-- `agent_proxy::is_enabled`
abbrev pub is_enabled : SessionDir → Bool
is_enabled s = elim s.proxy [ none ↦ false | some (_, enabled) ↦ enabled ]
