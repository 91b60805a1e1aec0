-- ===== src/System.antt =====
-- The operating system that the daemon runs on: files, directories, child processes, the clock and
-- the container registry. None of it is code of the repository, so it is a parameter: a state `W` and
-- what each call returns and leaves behind.
pub mod Trees
use nylon_run.Prelude.{ℕ, Bool, Option, List, Text, Result, Action}
use nylon_run.Prelude.Maps.{Map}
use Trees.{Tree}

-- `Stdio`, `pre_exec` and the arguments of a `Command`. The sandbox is the deny and allow lists and
-- the working directory that `apply_sandbox` gets in the child.
pub record Command : Type 0 where
  pub program : Text
  pub args : List Text
  pub env : Map Text
  pub sandbox : Option (List Text × List Text × Text)

pub record Os (W : Type 0) : Type 0 where
  pub exists : Text → W → Bool
  pub is_dir : Text → W → Bool
  pub is_file : Text → W → Bool
  pub read_dir : Text → W → List Text
  pub tree : Text → W → Tree
  pub read_to_string : Text → W → Result Text
  pub create_dir_all : Text → Action W (Unit {0})
  pub copy : Text → Text → Action W (Unit {0})
  pub write : Text → Text → Action W (Unit {0})
  pub create : Text → W → W
  pub rename : Text → Text → W → W
  pub remove_file : Text → W → W
  pub remove_dir_all : Text → W → W
  pub file_size : Text → W → Option ℕ
  pub is_executable : Text → W → Bool
  pub spawn : Command → Action W ℕ
  pub kill : ℕ → W → W
  pub try_wait : ℕ → W → Result (Option Bool)
  pub now : W → ℕ
