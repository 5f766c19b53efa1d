-- ===== src/Agent/Command/Environment/Layers.antt =====
-- Which layer gives a variable of a guest command its value.
use mathlib.Core.Option.{or_else}
use spawnr.Prelude.{
  ℕ, ◌≡◌, refl, sym, ap, ◌∙◌, Bool, true, false, Option, none, some, List, [], ◌∷◌, if◌then◌else◌,
  ok, context, >>=-eq-ok, ok-injective, context-eq_ok, arith,
}
use spawnr.Prelude.Text.{Str, codes, str_eq, str_eq_iff}
use spawnr.Prelude.Utf8.{from_utf8}
use spawnr.Agent.Session.{Env, insert, lookup}
use spawnr.Agent.Session.Environment.{lookup-insert}
use spawnr.Agent.Session.Store.{SessionDir}
use spawnr.Agent.Command.Environment.{
  User, token_not_utf8, remove, extend, read_image_environment, join, agent_available, ssh_command,
  set_token, set_ssh, set_agent, apply_environment, default_path, identity, compose_environment,
}

lookup-remove :
    (k j : Str) (m : Env) → lookup j (remove k m) ≡ (if str_eq k j then none else lookup j m)
unfolding lookup remove
lookup-remove k j [] = ground arith
lookup-remove k j ((i, w) ∷ m) =
    ground (arith, str_eq_iff k j, str_eq_iff i k, str_eq_iff i j, lookup-remove k j m)

lookup-nil : (k : Str) → lookup k [] ≡ none
unfolding lookup
lookup-nil k = refl

or_else-none {ℓ} : {A : Type ℓ} (o : Option A) → or_else o none ≡ o
unfolding or_else
or_else-none none = refl
or_else-none (some a) = refl

-- The value that the last pair for a name gives it.
unfoldable pub last_of : Str → Env → Option Str
last_of k [] = none
last_of k ((name, value) ∷ env) =
    or_else (last_of k env) (if str_eq name k then some value else none)

lookup-extend :
    (k : Str) (env m : Env) → lookup k (extend env m) ≡ or_else (last_of k env) (lookup k m)
unfolding extend last_of or_else
lookup-extend k [] m = refl
lookup-extend k ((name, value) ∷ env) m =
    rw (lookup-extend k env (insert name value m), lookup-insert name k value m) (ground arith)

-- One layer: a variable that it sets, one that it clears, or one that it leaves to the layer below.
abbrev pub set_to : Str → Str → Str → Option Str → Option Str
set_to name value k below = if str_eq name k then some value else below

abbrev set_or_clear : Str → Option Str → Str → Option Str → Option Str
set_or_clear name value k below = if str_eq name k then value else below

module _ (session_dir : Str) where
  lookup-set_token_of :
      (token : Option (List ℕ)) (k : Str) (command result : Env)
      → set_token session_dir token command ≡ ok result
      → lookup k result
        ≡ set_or_clear
            (codes "GH_TOKEN")
            (elim token [ none ↦ none | some contents ↦ from_utf8 contents ])
            k
            (lookup k command)
  unfolding set_token
  lookup-set_token_of none k command result h =
      ap (lookup k) (sym (ok-injective h)) ∙ lookup-remove _ k command
  lookup-set_token_of (some contents) k command result h =
      let (value, read, h') = >>=-eq-ok (context (from_utf8 contents) token_not_utf8) _ h in
      ap (lookup k) (sym (ok-injective h'))
      ∙ rw (context-eq_ok _ _ read) (lookup-insert _ k value command)

  abbrev agent_value : SessionDir → Option Str
  agent_value s =
      if agent_available session_dir s
      then some (join session_dir (codes "ssh-agent.sock"))
      else none

  abbrev ssh_value : SessionDir → Option Str
  ssh_value s = elim s.known_hosts [ none ↦ none | some _ ↦ some (ssh_command session_dir) ]

  abbrev pub token_value : SessionDir → Option Str
  token_value s = elim s.gh_token [ none ↦ none | some contents ↦ from_utf8 contents ]

  -- The layer of the session's capabilities over what stands below it.
  abbrev pub capability : SessionDir → Str → Option Str → Option Str
  capability s k below = set_or_clear (codes "GH_TOKEN") (token_value s) k (
      set_or_clear (codes "GITHUB_TOKEN") none k (
        set_or_clear (codes "GIT_SSH_COMMAND") (ssh_value s) k (
          set_or_clear (codes "SSH_AUTH_SOCK") (agent_value s) k
            (set_to (codes "GIT_CONFIG_GLOBAL") (join session_dir (codes "gitconfig")) k below))))

  -- The layer of the guest identity.
  abbrev pub identity_value : User → Str → Option Str → Option Str
  identity_value user k below = set_to (codes "SHELL") user.shell k (
      set_to (codes "LOGNAME") user.name k
        (set_to (codes "USER") user.name k (set_to (codes "HOME") user.home k below)))

  lookup-set_token :
      (s : SessionDir) (k : Str) (command result : Env)
      → set_token session_dir s.gh_token command ≡ ok result
      → lookup k result ≡ set_or_clear (codes "GH_TOKEN") (token_value s) k (lookup k command)
  lookup-set_token s k command result h = lookup-set_token_of s.gh_token k command result h

  lookup-set_ssh :
      (s : SessionDir) (k : Str) (command : Env)
      → lookup k (set_ssh session_dir s.known_hosts command)
        ≡ set_or_clear (codes "GIT_SSH_COMMAND") (ssh_value s) k (lookup k command)
  lookup-set_ssh s k command = set_ssh_of s.known_hosts
    where
      set_ssh_of :
          (hosts : Option (List ℕ))
          → lookup k (set_ssh session_dir hosts command)
            ≡ set_or_clear
                (codes "GIT_SSH_COMMAND")
                (elim hosts [ none ↦ none | some _ ↦ some (ssh_command session_dir) ])
                k
                (lookup k command)
      set_ssh_of none = lookup-remove _ k command
      set_ssh_of (some _) = lookup-insert _ k _ command

  lookup-set_agent :
      (on : Bool) (k : Str) (command : Env)
      → lookup k (set_agent session_dir on command)
        ≡ set_or_clear
            (codes "SSH_AUTH_SOCK")
            (if on then some (join session_dir (codes "ssh-agent.sock")) else none)
            k
            (lookup k command)
  lookup-set_agent true k command = lookup-insert _ k _ command
  lookup-set_agent false k command = lookup-remove _ k command

  lookup-apply_environment :
      (s : SessionDir) (k : Str) (command result : Env)
      → apply_environment session_dir s command ≡ ok result
      → lookup k result ≡ capability s k (lookup k command)
  unfolding apply_environment
  lookup-apply_environment s k command result h =
      lookup-set_token s k _ result h
      ∙ ap (set_or_clear (codes "GH_TOKEN") (token_value s) k) (
          lookup-remove (codes "GITHUB_TOKEN") k _
          ∙ ap (set_or_clear (codes "GITHUB_TOKEN") none k) (
              lookup-set_ssh s k _
              ∙ ap (set_or_clear (codes "GIT_SSH_COMMAND") (ssh_value s) k) (
                  lookup-set_agent (agent_available session_dir s) k _
                  ∙ ap (set_or_clear (codes "SSH_AUTH_SOCK") (agent_value s) k)
                      (lookup-insert (codes "GIT_CONFIG_GLOBAL") k _ command))))

  lookup-identity :
      (user : User) (k : Str) (command : Env)
      → lookup k (identity session_dir user command) ≡ identity_value user k (lookup k command)
  lookup-identity user k command = rw (lookup-insert, lookup-insert, lookup-insert, lookup-insert)

  -- The environment of a guest command, name by name: a value in the request wins; below it stand
  -- the session's capabilities, which set or clear the variables that they manage; then the guest
  -- identity; then the image's environment; and `PATH` falls back to a fixed value.
  pub lookup-compose_environment :
      (user : User) (s : SessionDir) (env image result : Env) (k : Str)
      → read_image_environment s ≡ ok image
      → compose_environment session_dir user s env ≡ ok result
      → lookup k result
        ≡ or_else (last_of k env) (
            capability s k (
              identity_value user k (
                or_else
                  (last_of k image)
                  (set_to (codes "PATH") (default_path session_dir) k none))))
  unfolding compose_environment
  lookup-compose_environment user s env image result k read h =
      let h' = rw read at h in
      let (applied, capable, h'') =
        >>=-eq-ok
          (apply_environment session_dir s (
            identity session_dir user
              (extend image (insert (codes "PATH") (default_path session_dir) []))))
          _ h' in
      ap (lookup k) (sym (ok-injective h''))
      ∙ lookup-extend k env applied
      ∙ ap (or_else (last_of k env)) (
          lookup-apply_environment s k _ applied capable
          ∙ ap (capability s k) (
              lookup-identity user k _
              ∙ ap (identity_value user k) (
                  lookup-extend k image _
                  ∙ ap (or_else (last_of k image)) (
                      lookup-insert (codes "PATH") k _ []
                      ∙ ap (set_to (codes "PATH") (default_path session_dir) k) (lookup-nil k)))))

  -- Neither token variable can come from the image or the identity: `GITHUB_TOKEN` is set only by
  -- the request, and `GH_TOKEN` is the request's or else the session's.
  pub token_variables :
      (user : User) (s : SessionDir) (env result : Env)
      → compose_environment session_dir user s env ≡ ok result
      → (lookup (codes "GH_TOKEN") result
          ≡ or_else (last_of (codes "GH_TOKEN") env) (token_value s))
        × (lookup (codes "GITHUB_TOKEN") result ≡ last_of (codes "GITHUB_TOKEN") env)
  unfolding compose_environment
  token_variables user s env result h =
      let (image, read, _) = >>=-eq-ok (read_image_environment s) _ h in
      (
        lookup-compose_environment user s env image result (codes "GH_TOKEN") read h,
        lookup-compose_environment user s env image result (codes "GITHUB_TOKEN") read h
            ∙ or_else-none _,
      )
