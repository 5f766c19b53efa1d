-- ===== src/Examples/Guest.antt =====
-- Sessions of the guest.
use spawnr.Prelude.{
  ◌-◌, ◌≤◌, true, ℕ, ◌≡◌, refl, false, none, some, List, [], ◌∷◌, ◌++◌, All, ok, err,
}
use mathlib.Core.Option
use mathlib.Core.Option.{or_else}
use spawnr.Prelude.Text.{Str, codes, bytes, split}
use spawnr.Prelude.Utf8.{IsStr, from_utf8}
use spawnr.Protocol.{SessionConfig}
use spawnr.Agent.Session
use spawnr.Agent.Session.{
  Env, encode_image_environment, decode_image_environment, parse_image_environment, parse_loop,
  parse_entry, lookup, insert, valid_image_environment_name, terminated, max_environment_items,
  max_environment_bytes, max_image_env_file_bytes, invalid_name,
}
use spawnr.Agent.Session.Environment.{decode-encode}
use spawnr.Agent.Session.Values.{
  validate_optional, validate_known_hosts, quote_git_config, git_config, read_quoted,
  read_quoted-quote_git_config,
}
use spawnr.Agent.Session.Store.{
  SessionDir, Faults, invalid, ◌>>◌, attempt, write_private, chown_file, replace_secret,
  remove_file, clear_stale_socket, start_steps, set_enabled, is_enabled, absent,
}
use spawnr.Agent.Session.Configure.{
  write_files, install, install_encoded, configure, configure_invalid,
}
use spawnr.Agent.Session.Configure.Success.{as_ok, configure_ok}
use spawnr.Agent.Command.Arguments.{layout_bytes}
use spawnr.Agent.Command.Environment.Size.{
  populate_environment, validate_effective_process_size, validate_process_bytes, environment_size,
  arguments_size, execve_bytes, argument_limit, arg_max_reserve, populate_environment_ok,
}
use spawnr.Agent.Command.Environment.{
  User, read_image_environment, apply_environment, set_token, extend, remove, compose_environment,
  default_path,
}
use spawnr.Agent.Command.Environment.Layers.{
  last_of, capability, identity_value, set_to, token_value, lookup-compose_environment,
  token_variables,
}

abbrev entries : List Str
entries = codes "A=1" ∷ codes "B=2" ∷ codes "A=3" ∷ []

abbrev contents : List ℕ
contents = codes "A=1" ++ 0 ∷ codes "B=2" ++ 0 ∷ codes "A=3" ++ 0 ∷ []

abbrev parsed : Env
parsed = (codes "A", codes "3") ∷ (codes "B", codes "2") ∷ []

encoded : encode_image_environment entries ≡ ok contents
unfolding encode_image_environment parse_image_environment parse_loop parse_entry
    valid_image_environment_name insert bytes
encoded = refl

entries-parsed : parse_image_environment entries ≡ ok parsed
unfolding parse_image_environment parse_loop parse_entry valid_image_environment_name insert bytes
entries-parsed = refl

entries_texts : All IsStr entries
entries_texts =
    ((refl, (refl, (refl, tt))), ((refl, (refl, (refl, tt))), ((refl, (refl, (refl, tt))), tt)))

decode-encode_example : decode_image_environment contents ≡ parse_image_environment entries
decode-encode_example = decode-encode entries contents entries_texts encoded

quoted : quote_git_config (codes "a\"b") ++ codes ";" ≡ 34 ∷ codes "a\\\"b\";"
unfolding quote_git_config
quoted = refl

accepted : validate_optional (some (codes "a\"b")) 1024 ≡ ok tt
unfolding validate_optional bytes
accepted = refl

read_quoted-quote_git_config_example :
    read_quoted false (codes "a\\\"b\";") ≡ some (codes "a\"b", codes ";")
read_quoted-quote_git_config_example =
    read_quoted-quote_git_config (codes "a\"b") (codes ";") (codes "a\\\"b\";") 1024 accepted quoted

abbrev session : SessionConfig
session = record {
  git_user_name = some (codes "Ada");
  git_user_email = none;
  git_signing_key = none;
  gh_token = some (codes "t");
  ssh_known_hosts = none;
  ssh_agent = false;
  image_env = entries;
}

abbrev bad_session : SessionConfig
bad_session = record session { image_env = codes "=1" ∷ [] }

name_accepted : validate_optional (some (codes "Ada")) 1024 ≡ ok tt
unfolding validate_optional bytes
name_accepted = refl

none_accepted : validate_optional none 1024 ≡ ok tt
unfolding validate_optional bytes
none_accepted = refl

abbrev no_faults : Faults
no_faults operation = false

abbrev fresh : SessionDir
fresh = record {
  git_config = none;
  gh_token = some [];
  known_hosts = none;
  image_env = none;
  image_env_is_file = false;
  image_env_mode = 0;
  agent_socket = absent;
  proxy = none;
}

configured : (configure no_faults (codes "/s") session fresh).1 ≡ ok tt
unfolding configure install_encoded install write_files ◌>>◌ attempt write_private chown_file
    replace_secret remove_file set_enabled validate_optional validate_known_hosts
    encode_image_environment parse_image_environment parse_loop parse_entry
    valid_image_environment_name insert bytes start_steps clear_stale_socket
configured = refl

refused : (configure no_faults (codes "/s") bad_session fresh).1 ≡ err (invalid (invalid_name 0))
unfolding configure install_encoded ◌>>◌ validate_optional validate_known_hosts
    encode_image_environment parse_image_environment parse_loop parse_entry
    valid_image_environment_name bytes attempt
refused = refl

configure_invalid_example : (configure no_faults (codes "/s") bad_session fresh).0 ≡ fresh
configure_invalid_example =
    configure_invalid no_faults (codes "/s") bad_session fresh (invalid_name 0) refused

configure_ok_example :
    let t = (configure no_faults (codes "/s") session fresh).0 in
    (t.git_config ≡ some (bytes (git_config session)))
    × (t.gh_token ≡ Option.map bytes session.gh_token)
    × (t.known_hosts ≡ Option.map bytes session.ssh_known_hosts)
    × (Option.map as_ok t.image_env ≡ some (encode_image_environment session.image_env))
    × (is_enabled t ≡ session.ssh_agent)
configure_ok_example = configure_ok no_faults (codes "/s") session fresh configured

abbrev ada : User
ada = record { name = codes "ada"; home = codes "/home/ada"; shell = codes "/bin/sh" }

abbrev signed_in : SessionDir
signed_in = record fresh {
  gh_token = some (codes "t");
  image_env = some contents;
  image_env_is_file = true;
  image_env_mode = 384;
}

abbrev asked : Env
asked = (codes "B", codes "9") ∷ []

abbrev composed : Env
composed =
    (codes "PATH", default_path (codes "/s"))
    ∷ (codes "A", codes "3")
    ∷ (codes "B", codes "9")
    ∷ (codes "HOME", codes "/home/ada")
    ∷ (codes "USER", codes "ada")
    ∷ (codes "LOGNAME", codes "ada")
    ∷ (codes "SHELL", codes "/bin/sh")
    ∷ (codes "GIT_CONFIG_GLOBAL", codes "/s/gitconfig")
    ∷ (codes "GH_TOKEN", codes "t")
    ∷ []

environment_composed : compose_environment (codes "/s") ada signed_in asked ≡ ok composed
unfolding compose_environment read_image_environment apply_environment set_token extend remove
    insert decode_image_environment parse_image_environment parse_loop parse_entry
    valid_image_environment_name bytes from_utf8 Session.collect_texts split Session.without_last
environment_composed = refl

populated :
    populate_environment 0 (codes "git") (codes "status" ∷ []) (codes "/s") ada signed_in asked
    ≡ ok composed
unfolding populate_environment validate_effective_process_size validate_process_bytes
    environment_size arguments_size compose_environment read_image_environment apply_environment
    set_token extend remove insert decode_image_environment parse_image_environment parse_loop
    parse_entry valid_image_environment_name bytes from_utf8 Session.collect_texts split
    Session.without_last
populated = refl

populate_environment_ok_example :
    (compose_environment (codes "/s") ada signed_in asked ≡ ok composed)
    × (layout_bytes composed ≤ max_environment_bytes)
    × (execve_bytes 0 (codes "git") (codes "status" ∷ []) composed
        ≤ argument_limit 0 - arg_max_reserve)
populate_environment_ok_example =
    populate_environment_ok 0 (codes "git") (codes "status" ∷ []) (codes "/s") ada signed_in asked
      composed populated

image_read : read_image_environment signed_in ≡ ok parsed
unfolding read_image_environment insert decode_image_environment parse_image_environment parse_loop
    parse_entry valid_image_environment_name bytes from_utf8 Session.collect_texts split
    Session.without_last
image_read = refl

lookup-compose_environment_example :
    lookup (codes "B") composed
    ≡ or_else (last_of (codes "B") asked) (
        capability (codes "/s") signed_in (codes "B") (
          identity_value (codes "/s") ada (codes "B") (
            or_else
              (last_of (codes "B") parsed)
              (set_to (codes "PATH") (default_path (codes "/s")) (codes "B") none))))
lookup-compose_environment_example =
    lookup-compose_environment (codes "/s") ada signed_in asked parsed composed (codes "B")
      image_read environment_composed

token_variables_example :
    (lookup (codes "GH_TOKEN") composed
      ≡ or_else (last_of (codes "GH_TOKEN") asked) (token_value (codes "/s") signed_in))
    × (lookup (codes "GITHUB_TOKEN") composed ≡ last_of (codes "GITHUB_TOKEN") asked)
token_variables_example =
    token_variables (codes "/s") ada signed_in asked composed environment_composed
