-- ===== src/Cloud.antt =====
-- src/cloud.rs: the agent that links the daemon to the cloud. `Config` has what the database keeps of the
-- link, `Agent` the connection and its retries.
pub mod Config
pub mod Agent
use nylon_run.Prelude.{Text}

pub record CloudAgent : Type 0 where
  pub api_key : Text
  pub server_url : Text
