-- ===== src/Protocol.antt =====
-- crates/spawnr-protocol/src/lib.rs: the control messages and the two framings.
-- A reader is the list of the bytes that the peer has sent; a writer is an interface (`Writer`).
-- serde_json is the interface `Json`.
pub mod Frames
pub mod RoundTrip
use spawnr.Prelude.{ℕ, Bool, Option, List, ◌*◌}
use spawnr.Prelude.Text.{Str}

abbrev pub control_port : ℕ
control_port = 19870

abbrev pub ssh_agent_port : ℕ
ssh_agent_port = 19871

abbrev pub max_control_frame : ℕ
max_control_frame = 8 * 1024 * 1024

abbrev pub protocol_version : ℕ
protocol_version = 1

pub record SessionConfig : Type 0 where
  pub git_user_name : Option Str
  pub git_user_email : Option Str
  pub git_signing_key : Option Str
  pub gh_token : Option Str
  pub ssh_known_hosts : Option Str
  pub ssh_agent : Bool
  pub image_env : List Str

pub data Request : Type 0 where
  health : Request
  configure_session : SessionConfig → Request
  clone_repository : Str → Str → Request
  exec : List Str → Option Str → List (Str × Str) → Bool → ℕ → ℕ → Request
  workspace_status : Str → Request
  shutdown : Request

-- `exit_code` is the 32-bit pattern of the `i32`.
pub data Response : Type 0 where
  health : ℕ → Str → Bool → Response
  ok : Str → Response
  command_result : ℕ → Str → Str → Response
  workspace_status : Bool → Str → Response
  exec_ready : Response
  error : Str → Response

pub data StreamKind : Type 0 where
  stdin stdout stderr resize signal exit : StreamKind
