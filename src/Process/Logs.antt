-- ===== src/Process/Logs.antt =====
-- src/process.rs: the log files of an app, read and rotated. The loop over the rotated files counts
-- down from `LOG_MAX_ROTATED - 1`.
pub mod Rotation
use nylon_run.Prelude.{
  ℕ, zero, suc, ◌+◌, ◌-◌, Bool, ltb, Option, none, some, List, [], ◌∷◌, ◌++◌, Text, Result, ok, err,
  codes, length, drop, unwrap_or, if◌then◌else◌,
}
use nylon_run.Prelude.Decimals.{decimal}
use nylon_run.Prelude.Maps.{Map, contains_key}
use nylon_run.System.{Os}
use nylon_run.Paths.{join_path}
use nylon_run.Process.State.{ManagedProcess, ProcessManager, logs_dir}
use nylon_run.Process.Manager.{not_found}
use nylon_run.Daemon.EnvFile.{lines}

abbrev pub log_max_size : ℕ
log_max_size = 10485760

abbrev pub log_max_rotated : ℕ
log_max_rotated = 5

unfoldable pub last_lines : ℕ → Text → List Text
last_lines n content = let ls = lines content in drop (length ls - n) ls

unfoldable pub push_lines : List Text → Text
push_lines [] = []
push_lines (l ∷ ls) = l ++ codes "\n" ++ push_lines ls

unfoldable pub stdout_part : ℕ → Result Text → Text
unfolding last_lines push_lines
stdout_part n (ok content) = push_lines (last_lines n content)
stdout_part n (err e) = []

headed : List Text → Text
unfolding push_lines
headed [] = []
headed (l ∷ ls) = codes "--- stderr ---\n" ++ push_lines (l ∷ ls)

unfoldable pub stderr_part : ℕ → Result Text → Text
unfolding headed last_lines
stderr_part n (ok content) = headed (last_lines n content)
stderr_part n (err e) = []

or_notice : Text → Text
or_notice [] = codes "(no logs yet)\n"
or_notice (c ∷ s) = c ∷ s

-- `{path}.{i}`.
unfoldable pub rotated : Text → ℕ → Text
rotated path i = path ++ b'.' ∷ decimal i

module _ {W : Type 0} (os : Os W) where
  unfoldable pub get_logs : Text → ℕ → ProcessManager W → Result Text
  unfolding or_notice stdout_part stderr_part
  get_logs name n s =
      if contains_key name s.processes
      then ok (
          or_notice (
            stdout_part n
              (os.read_to_string (join_path (logs_dir name) (codes "stdout.log")) s.world)
            ++ stderr_part n
                (os.read_to_string (join_path (logs_dir name) (codes "stderr.log")) s.world)))
      else err (not_found name)

  -- From `n` down to 1, `{path}.{i}` becomes `{path}.{i + 1}`.
  unfoldable pub shift : Text → ℕ → W → W
  unfolding rotated
  shift path zero w = w
  shift path (suc n) w = shift path n (os.rename (rotated path (n + 1)) (rotated path (n + 2)) w)

  unfoldable pub rotate_log_file : Text → W → W
  unfolding rotated shift
  rotate_log_file path w =
      let w1 = os.remove_file (rotated path log_max_rotated) w in
      let w2 = shift path (log_max_rotated - 1) w1 in
      let w3 = os.rename path (rotated path 1) w2 in os.create path w3

  rotate_if_large : Text → W → W
  unfolding rotate_log_file
  rotate_if_large path w =
      if ltb log_max_size (unwrap_or (os.file_size path w) 0) then rotate_log_file path w else w

  rotate_each : Map ManagedProcess → W → W
  unfolding rotate_if_large
  rotate_each [] w = w
  rotate_each ((name, p) ∷ m) w = rotate_each m (
      rotate_if_large (join_path (logs_dir name) (codes "stderr.log"))
        (rotate_if_large (join_path (logs_dir name) (codes "stdout.log")) w))

  unfoldable pub rotate_logs : ProcessManager W → ProcessManager W
  unfolding rotate_each
  rotate_logs s = record s { world = rotate_each s.processes s.world }
