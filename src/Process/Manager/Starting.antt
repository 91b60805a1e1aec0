-- ===== src/Process/Manager/Starting.antt =====
-- src/process.rs: the operations that start a process, and the invariant of the table.
use nylon_run.Prelude.{
  ◌%◌, ◌^◌, ℕ, ◌+◌, ◌≡◌, refl, sym, subst, ◌∙◌, true, false, Option, none, some, List, [], ◌∷◌,
  Text, Result, ok, err, Action, arith, length, text_eq, text_eq_refl, Bool-cases, ◌⊎◌, inl, inr,
}
use nylon_run.Prelude.Maps.{Map, lookup, contains_key, IsDistinct, contains_key-insert}
use nylon_run.Prelude.Actions.{continue}
use nylon_run.Protocol.{ProcessConfig}
use nylon_run.Metrics.{Metrics}
use nylon_run.System.{Os}
use nylon_run.Oci.Pull.{Registry}
use nylon_run.Oci.Entrypoint.{ImageConfig}
use nylon_run.Process.State.{ManagedProcess, ProcessManager, count}
use nylon_run.Process.Start.Frames.{gauge, IsSpared, Spares, spares_rules, IsResult, any_result}
use nylon_run.Process.Start.Keeps.{
  gauge-count, IsStarted, start_process-Spares, start_process-Returns,
}
use nylon_run.Process.Manager.{
  put_process, spawn_process, enter, make_dirs, restart, restart_found, reenter, killed, write_pid,
  kill_if, restore_processes,
}
use nylon_run.Process.Manager.Supervision.{
  check_one, check_all, check_child, exited, check_and_restart, restart_each,
}
use nylon_run.Process.Manager.Invariant.{
  IsNamedMap, IsCounted, IsManaged, spared-IsManaged, replaced-IsManaged, entered-IsManaged,
  lookup_contains,
}

module _ {W : Type 0} where
  counted-IsManaged :
      (f : Metrics → Metrics) (s : ProcessManager W)
      → ((m : Metrics) → (f m).managed_processes ≡ m.managed_processes)
      → IsManaged s
      → IsManaged (count f s)
  counted-IsManaged f s h k =
      spared-IsManaged s (count f s) k (unfold count in refl, gauge-count f h s)

module _ {W A B : Type 0} where
  -- What follows an action that spares the table is only asked about the results that it may have.
  continue-IsManaged :
      (Q : A → Type 0) (f : A → Action (ProcessManager W) B) (s : ProcessManager W)
      (p : Result A × ProcessManager W)
      → IsManaged s
      → IsSpared s p.1
      → IsResult Q p.0
      → ((a : A) (s' : ProcessManager W)
          → Q a
          → s'.processes ≡ s.processes
          → IsManaged s'
          → IsManaged (f a s').1)
      → IsManaged (continue f p).1
  continue-IsManaged Q f s (ok a, s') h k q g = g a s' q k.0 (spared-IsManaged s s' h k)
  continue-IsManaged Q f s (err e, s') h k q g = spared-IsManaged s s' h k

module _ {W : Type 0} (os : Os W) (registry : Registry W)
    (parse_config : Text → Option ImageConfig) where
  enter-IsManaged :
      (name : Text) (p : ManagedProcess) (s : ProcessManager W)
      → contains_key name s.processes ≡ false
      → p.config.name ≡ name
      → IsManaged s
      → IsManaged (enter os registry parse_config name p s).1
  unfolding enter
  enter-IsManaged name p s c e h =
      entered-IsManaged name p _ c e (spared-IsManaged s _ h (refl, refl))

  -- Spawning keeps the table in order, whether it succeeds or fails.
  pub spawn_process-IsManaged :
      (config : ProcessConfig) (s : ProcessManager W)
      → IsManaged s
      → IsManaged (spawn_process os registry parse_config config s).1
  unfolding spawn_process make_dirs
  spawn_process-IsManaged config s h = elim (Bool-cases (contains_key config.name s.processes)) [
    | inl e ↦ rw e h
    | inr e ↦ rw e (
        continue-IsManaged (λ _. Unit) _ s (make_dirs os registry parse_config config.name s) h
          (dirs.at s) (any_result _)
          (λ _ s' _ k h'.
            continue-IsManaged (IsStarted config.name) _ s' _ h'
              ((start_process-Spares os registry parse_config config).at s')
              ((start_process-Returns os registry parse_config config).at s')
              (λ p s'' q k' h''.
                enter-IsManaged config.name p s''
                  (subst (λ m. contains_key config.name m ≡ false) (sym (k' ∙ k)) e) q.named h'')))
  ]
    where
      dirs : Spares (make_dirs os registry parse_config config.name)
      dirs = search spares_rules

  reenter-IsManaged :
      (name : Text) (n : ℕ) (p : ManagedProcess) (s : ProcessManager W)
      → contains_key name s.processes ≡ true
      → p.config.name ≡ name
      → IsManaged s
      → IsManaged (reenter os registry parse_config name n p s).1
  unfolding reenter
  reenter-IsManaged name n p s c e h =
      counted-IsManaged _ _ (λ m. refl)
        (replaced-IsManaged name (record p { restart_count = n })
          (record s { world = write_pid os p.config.pid_file p.pid s.world }) c e
          (spared-IsManaged s _ h (refl, refl)))

  abbrev stopped_state : Text → ManagedProcess → ProcessManager W → ProcessManager W
  stopped_state name p s =
      put_process name (killed os p) (record s { world = kill_if os p.child s.world })

  pub restart-IsManaged :
      (name : Text) (s : ProcessManager W)
      → IsManaged s
      → IsManaged (restart os registry parse_config name s).1
  unfolding restart restart_found put_process
  restart-IsManaged name s h = found (lookup name s.processes) refl
    where
      found :
          (o : Option ManagedProcess)
          → lookup name s.processes ≡ o
          → IsManaged (restart_found os registry parse_config name o s).1
      found none e = h
      found (some p) e =
          continue-IsManaged (IsStarted p.config.name) _ (stopped_state name p s) _
            (replaced-IsManaged name (killed os p) (record s { world = kill_if os p.child s.world })
              (lookup_contains name s.processes p e) (h.named name p e)
              (spared-IsManaged s _ h (refl, refl)))
            ((start_process-Spares os registry parse_config p.config).at (stopped_state name p s))
            ((start_process-Returns os registry parse_config p.config).at (stopped_state name p s))
            (λ q s' st k h'.
              reenter-IsManaged name ((p.restart_count + 1) % 2 ^ 32) q s'
                (subst (λ m. contains_key name m ≡ true) (sym k)
                  (ground (
                    arith,
                    text_eq_refl name,
                    contains_key-insert name name (killed os p) s.processes,
                  )))
                (st.named ∙ h.named name p e) h')

  -- So does the restoring of the processes of a saved state.
  pub restore_processes-IsManaged :
      (configs : List ProcessConfig) (s : ProcessManager W)
      → IsManaged s
      → IsManaged (restore_processes os registry parse_config configs s)
  unfolding restore_processes
  restore_processes-IsManaged [] s h = h
  restore_processes-IsManaged (c ∷ cs) s h =
      restore_processes-IsManaged cs _ (spawn_process-IsManaged c s h)

  restart_each-IsManaged :
      (names : List Text) (s : ProcessManager W)
      → IsManaged s
      → IsManaged (restart_each os registry parse_config names s)
  unfolding restart_each
  restart_each-IsManaged [] s h = h
  restart_each-IsManaged (n ∷ ns) s h = restart_each-IsManaged ns _ (restart-IsManaged n s h)

  check_one-config :
      (p : ManagedProcess) (w : W) → (check_one os registry parse_config p w).0.config ≡ p.config
  unfolding check_one check_child exited
  check_one-config p w = ground arith

  -- The walk changes no name and no configuration.
  pub check_all-lookup :
      (k : Text) (m : Map ManagedProcess) (w : W)
      → (lookup k m ≡ none) × (lookup k (check_all os registry parse_config m w).0 ≡ none)
        ⊎ ((p : ManagedProcess) × (lookup k m ≡ some p)
            × (lookup k (check_all os registry parse_config m w).0
                ≡ some (check_one os registry parse_config p w).0))
  unfolding check_all lookup
  check_all-lookup k [] w = inl (refl, refl)
  check_all-lookup k ((j, p) ∷ m) w = elim (Bool-cases (text_eq j k)) [
    | inl e ↦ rw e (inr (p, refl, refl))
    | inr e ↦ rw e (check_all-lookup k m w)
  ]

  check_all-IsNamedMap :
      (m : Map ManagedProcess) (w : W)
      → IsNamedMap m
      → IsNamedMap (check_all os registry parse_config m w).0
  check_all-IsNamedMap m w h k q e = found (check_all-lookup k m w)
    where
      found :
          (lookup k m ≡ none) × (lookup k (check_all os registry parse_config m w).0 ≡ none)
            ⊎ ((p : ManagedProcess) × (lookup k m ≡ some p)
                × (lookup k (check_all os registry parse_config m w).0
                    ≡ some (check_one os registry parse_config p w).0))
          → q.config.name ≡ k
      found (inl (a, b)) = ground arith
      found (inr (p, a, b)) = ground (arith, h k p, check_one-config p w)

  check_all-contains_key :
      (k : Text) (m : Map ManagedProcess) (w : W)
      → contains_key k (check_all os registry parse_config m w).0 ≡ contains_key k m
  unfolding contains_key
  check_all-contains_key k m w = ground (arith, check_all-lookup k m w)

  check_all-IsDistinct :
      (m : Map ManagedProcess) (w : W)
      → IsDistinct m
      → IsDistinct (check_all os registry parse_config m w).0
  unfolding check_all
  check_all-IsDistinct [] w h = tt
  check_all-IsDistinct ((j, p) ∷ m) w (h, hs) =
      (check_all-contains_key j m w ∙ h, check_all-IsDistinct m w hs)

  length-check_all :
      (m : Map ManagedProcess) (w : W)
      → length (check_all os registry parse_config m w).0 ≡ length m
  unfolding check_all
  length-check_all [] w = refl
  length-check_all ((j, p) ∷ m) w = ground (arith, length-check_all m w)

  check_all-IsManaged :
      (s : ProcessManager W)
      → IsManaged s
      → IsManaged
          (record s { processes = (check_all os registry parse_config s.processes s.world).0 })
  check_all-IsManaged s h = record {
    distinct = check_all-IsDistinct s.processes s.world h.distinct;
    named = check_all-IsNamedMap s.processes s.world h.named;
    counted =
        subst (IsCounted (gauge s.metrics)) (sym (length-check_all s.processes s.world)) h.counted;
  }

  pub check_and_restart-IsManaged :
      (s : ProcessManager W)
      → IsManaged s
      → IsManaged (check_and_restart os registry parse_config s)
  unfolding check_and_restart
  check_and_restart-IsManaged s h =
      restart_each-IsManaged (check_all os registry parse_config s.processes s.world).1 _
        (check_all-IsManaged s h)
