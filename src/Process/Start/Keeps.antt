-- ===== src/Process/Start/Keeps.antt =====
-- src/process.rs: `start_process`, the table it runs beside and the entry it makes.
use nylon_run.Prelude.{
  ℕ, ◌≡◌, refl, ap, ◌∙◌, Bool, true, false, not, ◌&&◌, Option, none, some, List, Text, Result, ok,
  err, arith, if◌then◌else◌,
}
use nylon_run.Protocol.{ProcessConfig, running}
use nylon_run.System.{Os}
use nylon_run.Oci.Pull.{Registry}
use nylon_run.Oci.Entrypoint.{ImageConfig}
use nylon_run.Metrics.{Metrics}
use nylon_run.Process.State.{ManagedProcess, ProcessManager, count}
use nylon_run.Process.Start.{
  start_process, install_image, pull_image, counted_pull, count_pull, install_local, copy_app,
  isolate, with_entrypoint, launch, deny_io, lift_io,
}
use nylon_run.Process.Start.Frames.{
  gauge, IsSpared, Spares, spares_rules, Spares-on_world, Returns, IsResult, Returns-pure,
  Returns-if, Returns-on_world, Returns-bind, Returns-bind_any,
}

-- The configuration has the name.
abbrev pub IsNamed : Text → ProcessConfig → Type 0
IsNamed name config = config.name ≡ name

-- A running child of the name, on record with its pid.
pub record IsStarted (name : Text) (p : ManagedProcess) : Type 0 where
  pub named : IsNamed name p.config
  pub is_running : p.status ≡ running
  pub has_child : (pid : ℕ) × ((p.child ≡ some pid) × (p.pid ≡ some pid))
  pub is_fresh : p.restart_count ≡ 0

isolate-name : (d : Text) (c : ProcessConfig) → (isolate d c).name ≡ c.name
unfolding isolate deny_io lift_io
isolate-name d c = ground arith

module _ {W : Type 0} (os : Os W) where
  copy_app-Returns : (c : ProcessConfig) → Returns (IsNamed c.name) (copy_app os c)
  unfolding copy_app
  copy_app-Returns c = search (Returns-bind_any (IsNamed c.name), Returns-pure (IsNamed c.name))

  install_local-Returns : (c : ProcessConfig) → Returns (IsNamed c.name) (install_local os c)
  unfolding install_local
  install_local-Returns c = record {
    at = λ w. copied w (not c.is_oci && not c.spa && os.exists c.path w);
  }
    where
      copied :
          (w : W) (b : Bool)
          → IsResult (IsNamed c.name) (if b then copy_app os c w else (ok c, w)).0
      copied w true = (copy_app-Returns c).at w
      copied w false = refl

  launch-Returns :
      (name : Text) (c : ProcessConfig) → IsNamed name c → Returns (IsStarted name) (launch os c)
  unfolding launch
  launch-Returns name c h =
      search (Returns-bind_any (IsStarted name), Returns-pure (IsStarted name), entry)
    where
      entry :
          (pid : ℕ) (now : Option ℕ)
          → IsStarted name (record {
            config = c;
            child = some pid;
            pid = some pid;
            status = running;
            started_at = now;
            restart_count = 0;
            shutdown_tx = true;
          })
      entry pid now = record {
        named = h;
        is_running = refl;
        has_child = (pid, (refl, refl));
        is_fresh = refl;
      }

module _ {W : Type 0} where
  -- Counting in another metric leaves the gauge.
  pub gauge-count :
      (f : Metrics → Metrics)
      → ((m : Metrics) → (f m).managed_processes ≡ m.managed_processes)
      → (s : ProcessManager W) → gauge (count f s).metrics ≡ gauge s.metrics
  unfolding count
  gauge-count f h s = same s.metrics
    where
      same : (o : Option Metrics) → gauge (elim o [ none ↦ none | some m ↦ some (f m) ]) ≡ gauge o
      same none = refl
      same (some m) = ap some (h m)

module _ {W : Type 0} (os : Os W) (registry : Registry W)
    (parse_config : Text → Option ImageConfig) where
  count_pull-IsSpared :
      (s : ProcessManager W) (p : Result Text × ProcessManager W)
      → IsSpared s p.1
      → IsSpared s (count_pull os registry parse_config p).1
  unfolding count_pull count
  count_pull-IsSpared s (ok d, s') (p, q) = (p, gauge-count _ (λ m. refl) s' ∙ q)
  count_pull-IsSpared s (err e, s') (p, q) = (p, gauge-count _ (λ m. refl) s' ∙ q)

  counted_pull-Spares : (c : ProcessConfig) → Spares (counted_pull os registry parse_config c)
  unfolding counted_pull
  counted_pull-Spares c = record { at = λ s. count_pull-IsSpared s _ ((Spares-on_world _).at s) }

  pub start_process-Spares : (c : ProcessConfig) → Spares (start_process os registry parse_config c)
  unfolding start_process install_image pull_image
  start_process-Spares c = search (spares_rules, counted_pull-Spares) depth 12

  pull_image-Returns :
      (name : Text) (c : ProcessConfig)
      → IsNamed name c
      → Returns (IsNamed name) (pull_image os registry parse_config c)
  unfolding pull_image with_entrypoint
  pull_image-Returns name c h =
      search (Returns-bind_any (IsNamed name), Returns-pure (IsNamed name), named)
    where
      named :
          (d : Text) (command : Text × List Text)
          → IsNamed name (isolate d (with_entrypoint command c))
      named d command = isolate-name d (with_entrypoint command c) ∙ h

  install_image-Returns :
      (name : Text) (c : ProcessConfig)
      → IsNamed name c
      → Returns (IsNamed name) (install_image os registry parse_config c)
  unfolding install_image
  install_image-Returns name c h =
      search (Returns-if (IsNamed name), Returns-pure (IsNamed name), pull_image-Returns)

  pub start_process-Returns :
      (c : ProcessConfig) → Returns (IsStarted c.name) (start_process os registry parse_config c)
  unfolding start_process
  start_process-Returns c = search (
    Returns-bind (IsNamed c.name) (IsStarted c.name),
    Returns-bind_any (IsStarted c.name),
    Returns-on_world (IsNamed c.name),
    Returns-on_world (IsStarted c.name),
    install_local-Returns,
    install_image-Returns,
    launch-Returns,
  )
