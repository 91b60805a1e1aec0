-- ===== src/Process/Start.antt =====
-- src/process.rs, `start_process` and `copy_dir_recursive`. The tasks that capture the output and the
-- log lines are left out.
pub mod Frames
pub mod Keeps
use nylon_run.Prelude.{
  ℕ, ◌==◌, ◌+◌, Bool, true, false, not, ◌&&◌, ◌||◌, Option, none, some, List, [], ◌∷◌, ◌++◌, Text,
  Result, ok, err, Action, codes, any, retain, text_eq, trim_start, split_once, unwrap_or,
  if◌then◌else◌,
}
use nylon_run.Prelude.Actions.{pure, fail, lift, gets, on_error, continue, ◌>>=◌, ◌>>◌}
use nylon_run.Paths.{join_path, file_name, parent}
use nylon_run.Protocol.{ProcessConfig, ProcessStatus, running}
use nylon_run.Metrics.{Metrics}
use nylon_run.System.{Os, Command}
use nylon_run.System.Trees.{Tree, Entries, file, dir, nil, cons}
use nylon_run.Oci.Pull.{Registry, pull_and_extract}
use nylon_run.Oci.Entrypoint.{ImageConfig, find_entrypoint}
use nylon_run.Process.State.{ManagedProcess, ProcessManager, on_world, count, apps_dir, image_dir}

module _ {W : Type 0} (os : Os W) where
  mutual
    copy_tree : Tree → Text → Text → Action W (Unit {0})
    copy_tree file src dst =
        on_error (λ e. codes "failed to copy '" ++ src ++ codes "': " ++ e) (os.copy src dst)
    copy_tree (dir entries) src dst = do
      on_error (λ e. codes "failed to create dir '" ++ dst ++ codes "': " ++ e)
          (os.create_dir_all dst)
      copy_entries entries src dst

    copy_entries : Entries → Text → Text → Action W (Unit {0})
    copy_entries nil src dst = pure tt
    copy_entries (cons name tree rest) src dst = do
      copy_tree tree (join_path src name) (join_path dst name)
      copy_entries rest src dst

  unfoldable pub copy_dir_recursive : Text → Text → Action W (Unit {0})
  unfolding copy_tree copy_entries
  copy_dir_recursive src dst w = copy_tree (os.tree src w) src dst w

  -- A directory is copied into the app's directory, a file under its own name.
  copy_source : Bool → ProcessConfig → Action W Text
  unfolding copy_dir_recursive
  copy_source true config = do
    copy_dir_recursive config.path (apps_dir config.name)
    pure (apps_dir config.name)
  copy_source false config = do
    let dest = join_path (apps_dir config.name) (unwrap_or (file_name config.path) config.name)
    on_error (λ e. codes "failed to copy binary: " ++ e) (os.copy config.path dest)
    pure dest

  copy_app : ProcessConfig → Action W ProcessConfig
  unfolding copy_source
  copy_app config = do
    on_error (λ e. codes "failed to create app dir: " ++ e)
        (os.create_dir_all (apps_dir config.name))
    is_dir ← gets (os.is_dir config.path)
    dest ← copy_source is_dir config
    pure (record config { path = dest })

  -- A local program is run from its copy.
  unfoldable pub install_local : ProcessConfig → Action W ProcessConfig
  unfolding copy_app
  install_local config w =
      if not config.is_oci && not config.spa && os.exists config.path w
      then copy_app config w
      else (ok config, w)

  work_dir : ProcessConfig → Text
  work_dir config = if config.is_oci then image_dir config.name else apps_dir config.name

  make_parent : Option Text → Action W (Unit {0})
  make_parent none = pure tt
  make_parent (some p) =
      on_error (λ e. codes "failed to create dir for volume mount: " ++ e) (os.create_dir_all p)

  copy_volume : Bool → Text → Text → Text → Action W (Unit {0})
  copy_volume true vol host_path container_path = copy_dir_recursive host_path container_path
  copy_volume false vol host_path container_path =
      on_error (λ e. codes "failed to copy volume '" ++ vol ++ codes "': " ++ e)
        (os.copy host_path container_path)

  mount : Text → Text → Text → Bool → Bool → Action W (Unit {0})
  unfolding make_parent copy_volume
  mount vol host_path container_path true is_dir = do
    make_parent (parent container_path)
    copy_volume is_dir vol host_path container_path
  mount vol host_path container_path false is_dir =
      fail (codes "volume source '" ++ host_path ++ codes "' does not exist")

  mount_parts : Text → Text → Option (Text × Text) → Action W (Unit {0})
  unfolding mount
  mount_parts work vol none =
      fail (codes "invalid volume mount '" ++ vol ++ codes "': expected host_path:container_path")
  mount_parts work vol (some (host_path, inner)) = do
    present ← gets (os.exists host_path)
    is_dir ← gets (os.is_dir host_path)
    mount vol host_path (join_path work (trim_start (λ c. c == b'/') inner)) present is_dir

  unfoldable pub mount_volumes : Text → List Text → Action W (Unit {0})
  unfolding mount_parts
  mount_volumes work [] = pure tt
  mount_volumes work (vol ∷ vols) = do
    mount_parts work vol (split_once b':' vol)
    mount_volumes work vols

  sandbox_of : ProcessConfig → Option (List Text × List Text × Text)
  unfolding work_dir
  sandbox_of config = elim config.deny [
    | [] ↦ none
    | d ∷ deny ↦ some (d ∷ deny, config.allow, work_dir config)
  ]

  -- The child runs, and the entry of the table for it.
  unfoldable pub launch : ProcessConfig → Action W ManagedProcess
  unfolding sandbox_of
  launch config = do
    pid ←
        on_error (λ e. codes "failed to spawn '" ++ config.path ++ codes "': " ++ e)
          (os.spawn (record {
            program = config.path;
            args = config.args;
            env = config.env_vars;
            sandbox = sandbox_of config;
          }))
    now ← gets os.now
    pure (record {
      config = config;
      child = some pid;
      pid = some pid;
      status = running;
      started_at = some now;
      restart_count = 0;
      shutdown_tx = true;
    })

has_text : Text → List Text → Bool
has_text t = any (λ s. text_eq s t)

abbrev all_paths : Text
all_paths = codes "all"

-- An image is denied all files but its own, unless it is allowed all or denied io already.
deny_io : Text → ProcessConfig → ProcessConfig
deny_io extract_dir config =
    if not (has_text all_paths config.allow) && not (has_text (codes "io") config.deny)
    then record config {
      deny = config.deny ++ codes "io" ∷ [];
      allow = config.allow ++ extract_dir ∷ [];
    }
    else config

-- To be allowed all is to be denied no io.
lift_io : ProcessConfig → ProcessConfig
lift_io config =
    if has_text all_paths config.allow
    then record config {
      deny = retain (λ d. not (text_eq d (codes "io"))) config.deny;
      allow = retain (λ a. not (text_eq a all_paths)) config.allow;
    }
    else config

unfoldable pub isolate : Text → ProcessConfig → ProcessConfig
unfolding has_text deny_io lift_io
isolate extract_dir config = lift_io (deny_io extract_dir config)

-- The image's program, and its arguments before the user's.
unfoldable pub with_entrypoint : Text × List Text → ProcessConfig → ProcessConfig
with_entrypoint (entrypoint, extra_args) config = record config {
  path = entrypoint;
  args = extra_args ++ config.args;
}

module _ {W : Type 0} (os : Os W) (registry : Registry W)
    (parse_config : Text → Option ImageConfig) where
  count_pull : Result Text × ProcessManager W → Result Text × ProcessManager W
  count_pull (ok d, s) = (ok d, count (λ m. record m { oci_pulls_total = m.oci_pulls_total + 1 }) s)
  count_pull (err e, s) =
      (err e, count (λ m. record m { oci_pull_errors_total = m.oci_pull_errors_total + 1 }) s)

  counted_pull : ProcessConfig → Action (ProcessManager W) Text
  unfolding count_pull
  counted_pull config s = count_pull (
      on_world
        (pull_and_extract os registry (unwrap_or config.oci_reference config.path) config.name) s)

  pull_image : ProcessConfig → Action (ProcessManager W) ProcessConfig
  unfolding counted_pull
  pull_image config = do
    extract_dir ← counted_pull config
    found ← gets (λ s. find_entrypoint os parse_config extract_dir s.world)
    command ← lift found
    pure (isolate extract_dir (with_entrypoint command config))

  unfoldable pub install_image : ProcessConfig → Action (ProcessManager W) ProcessConfig
  unfolding pull_image
  install_image config = if config.is_oci then pull_image config else pure config

  unfoldable pub start_process : ProcessConfig → Action (ProcessManager W) ManagedProcess
  unfolding install_image work_dir
  start_process config = do
    local ← on_world (install_local os config)
    ready ← install_image local
    on_world (mount_volumes os (work_dir os ready) ready.volumes)
    on_world (launch os ready)
