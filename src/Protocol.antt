-- ===== src/Protocol.antt =====
-- src/protocol.rs: the messages between the command line and the daemon, and the data in them.
-- A path, a name and any other `String` is a `Text`; a `HashMap<String, String>` is a `Map Text`;
-- a time stamp is a number of seconds. Numbers of the types u16, u32, u64 and usize are in ℕ.
pub mod Wire
use nylon_run.Prelude.{ℕ, Bool, Option, List, Text}
use nylon_run.Prelude.Maps.{Map}

pub data ProcessMode : Type 0 where
  bin run : ProcessMode

pub record PortMapping : Type 0 where
  pub host : Option Text
  pub public_port : ℕ
  pub app_port : Option ℕ

pub record SslConfig : Type 0 where
  pub cert_path : Text
  pub key_path : Text

pub record ProcessConfig : Type 0 where
  pub name : Text
  pub path : Text
  pub args : List Text
  pub env_vars : Map Text
  pub env_file : Option Text
  pub mode : ProcessMode
  pub port_mapping : Option PortMapping
  pub spa : Bool
  pub ssl : Option SslConfig
  pub acme : Option Text
  pub deny : List Text
  pub allow : List Text
  pub is_oci : Bool
  pub oci_reference : Option Text
  pub pid_file : Option Text
  pub volumes : List Text

pub data ProcessStatus : Type 0 where
  running stopped errored starting : ProcessStatus

pub record ProcessInfo : Type 0 where
  pub name : Text
  pub pid : Option ℕ
  pub status : ProcessStatus
  pub mode : ProcessMode
  pub path : Text
  pub port_mapping : Option PortMapping
  pub started_at : Option ℕ
  pub restart_count : ℕ
  pub uptime_secs : Option ℕ

-- What `nyrun update` may change; an absent field is left alone.
pub record UpdateFields : Type 0 where
  pub port : Option Text
  pub ssl : Option (List Text)
  pub acme : Option Text
  pub env_file : Option Text
  pub args : Option Text
  pub image : Option Text

pub data Request : Type 0 where
  bin run : ProcessConfig → Request
  ls export save kill unlink metrics_disable : Request
  del restart reload : Text → Request
  update : Text → UpdateFields → Request
  logs : Text → ℕ → Request
  set : Text → Text → Request
  link : Text → Request
  metrics_enable : ℕ → Request

pub data Response : Type 0 where
  ok : Text → Response
  process_list : List ProcessInfo → Response
  config_list : List ProcessConfig → Response
  logs : Text → Response
  error : Text → Response
