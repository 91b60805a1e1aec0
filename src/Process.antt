-- ===== src/Process.antt =====
-- src/process.rs: the process manager. `State` has its data, `Start` how a process is prepared and
-- started, and `Manager` the operations that the daemon calls.
pub mod State
pub mod Start
pub mod Manager
pub mod Logs
