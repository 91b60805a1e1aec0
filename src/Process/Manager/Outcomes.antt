-- ===== src/Process/Manager/Outcomes.antt =====
-- src/process.rs: what spawning and restarting a process do to the table.
use nylon_run.Prelude.{
  ◌%◌, ◌^◌, ◌+◌, ◌≡◌, refl, ap, ◌∙◌, false, Option, none, some, Text, Result, ok, err, Action,
  arith, text_eq, sym, ◌++◌, codes, Bool-cases, inl, inr, if◌then◌else◌,
}
use nylon_run.Prelude.Maps.{Map, lookup, insert, contains_key, lookup-insert, remove, remove_absent}
use nylon_run.Prelude.Actions.{continue}
use nylon_run.Protocol.{ProcessConfig, running, stopped}
use nylon_run.System.{Os}
use nylon_run.Oci.Pull.{Registry}
use nylon_run.Oci.Entrypoint.{ImageConfig}
use nylon_run.Process.State.{ManagedProcess, ProcessManager, count}
use nylon_run.Process.Start.Frames.{IsSpared, Spares, spares_rules, IsResult, any_result}
use nylon_run.Process.Start.Keeps.{IsStarted, start_process-Spares, start_process-Returns}
use nylon_run.Process.Manager.{
  put_process, spawn_process, enter, make_dirs, restart, restart_found, reenter, killed, kill_if,
  register_spa, delete, delete_found, not_found, quote,
}
use nylon_run.Process.Manager.Configs.{ConfigChange, update_config, update_found}
use nylon_run.Process.Manager.Supervision.{check_one}

module _ {W A B : Type 0} where
  -- What holds after an action that spares the table and what follows it.
  continue_cases :
      (Q : A → Type 0) (G : Result B × ProcessManager W → Type 0)
      (f : A → Action (ProcessManager W) B) (s : ProcessManager W) (p : Result A × ProcessManager W)
      → IsSpared s p.1
      → IsResult Q p.0
      → ((a : A) (s' : ProcessManager W) → Q a → s'.processes ≡ s.processes → G (f a s'))
      → ((e : Text) (s' : ProcessManager W) → s'.processes ≡ s.processes → G (err e, s'))
      → G (continue f p)
  continue_cases Q G f s (ok a, s') k q g h = g a s' q k.0
  continue_cases Q G f s (err e, s') k q g h = h e s' k.0

module _ {W : Type 0} where
  -- A running child is in the table under a name that was free, or the table is as it was.
  abbrev pub IsSpawned : ProcessConfig → ProcessManager W → Result Text × ProcessManager W → Type 0
  IsSpawned config s (ok msg, s') =
      (contains_key config.name s.processes ≡ false)
      × ((p : ManagedProcess) × IsStarted config.name p
          × (s'.processes ≡ insert config.name p s.processes))
  IsSpawned config s (err e, s') = s'.processes ≡ s.processes

module _ {W : Type 0} (os : Os W) (registry : Registry W)
    (parse_config : Text → Option ImageConfig) where
  -- Spawning succeeds only for a name that was free, and then adds one running child of that name to
  -- the table; if it fails, whatever the step that fails, the table is as it was.
  pub spawn_process-IsSpawned :
      (config : ProcessConfig) (s : ProcessManager W)
      → IsSpawned config s (spawn_process os registry parse_config config s)
  unfolding spawn_process make_dirs enter count put_process
  spawn_process-IsSpawned config s = elim (Bool-cases (contains_key config.name s.processes)) [
    | inl e ↦ rw e refl
    | inr e ↦ rw e (
        continue_cases (λ _. Unit) (IsSpawned config s) _ s
          (make_dirs os registry parse_config config.name s) (dirs.at s) (any_result _)
          (λ _ s' _ k.
            continue_cases (IsStarted config.name) (IsSpawned config s) _ s' _
              ((start_process-Spares os registry parse_config config).at s')
              ((start_process-Returns os registry parse_config config).at s')
              (λ p s'' q k'. (e, (p, q, ap (insert config.name p) (k' ∙ k))))
              (λ err s'' k'. k' ∙ k))
          (λ err s' k. k))
  ]
    where
      dirs : Spares (make_dirs os registry parse_config config.name)
      dirs = search spares_rules

  -- The entry is stopped, and no check of the running processes will start it again.
  abbrev pub IsAbandoned : ManagedProcess → Type 0
  IsAbandoned p =
      (p.status ≡ stopped) × ((w : W) → check_one os registry parse_config p w ≡ (p, false))

  abbrev pub IsRestarted :
      Text → Option ManagedProcess → ProcessManager W → Result Text × ProcessManager W → Type 0
  IsRestarted name none s (ok msg, s') = ⊥
  IsRestarted name none s (err e, s') = s' ≡ s
  IsRestarted name (some old) s (ok msg, s') =
      (p : ManagedProcess) × (p.status ≡ running)
      × (p.config.name ≡ old.config.name)
      × (p.restart_count ≡ (old.restart_count + 1) % 2 ^ 32)
      × ((k : Text)
          → lookup k s'.processes ≡ (if text_eq name k then some p else lookup k s.processes))
  IsRestarted name (some old) s (err e, s') =
      (p : ManagedProcess) × IsAbandoned p
      × (p.config ≡ old.config)
      × ((k : Text)
          → lookup k s'.processes ≡ (if text_eq name k then some p else lookup k s.processes))

  -- Restarting a process that is in the table ends in one of two ways: it runs again, with one restart
  -- more on its 32-bit count, or the start failed and its entry stays stopped, with its configuration,
  -- and no check of the running processes starts it again. No other entry changes. A name that is not in
  -- the table is an error that changes nothing.
  pub restart-IsRestarted :
      (name : Text) (s : ProcessManager W)
      → IsRestarted name (lookup name s.processes) s (restart os registry parse_config name s)
  unfolding restart restart_found put_process reenter count check_one
  restart-IsRestarted name s = found (lookup name s.processes)
    where
      stopped_state : ManagedProcess → ProcessManager W
      stopped_state old =
          put_process name (killed os old) (record s { world = kill_if os old.child s.world })

      twice :
          (p old : ManagedProcess) (m : Map ManagedProcess)
          → m ≡ insert name (killed os old) s.processes
          → (j : Text)
          → lookup j (insert name p m) ≡ (if text_eq name j then some p else lookup j s.processes)
      twice p old m k j = ground (
        arith,
        lookup-insert name j p m,
        ap (lookup j) k,
        lookup-insert name j (killed os old) s.processes,
      )

      found :
          (o : Option ManagedProcess)
          → IsRestarted name o s (restart_found os registry parse_config name o s)
      found none = refl
      found (some old) =
          continue_cases (IsStarted old.config.name) (IsRestarted name (some old) s) _
            (stopped_state old) _
            ((start_process-Spares os registry parse_config old.config).at (stopped_state old))
            ((start_process-Returns os registry parse_config old.config).at (stopped_state old))
            (λ p s' st k. (
              record p { restart_count = (old.restart_count + 1) % 2 ^ 32 },
              st.is_running,
              st.named,
              refl,
              twice (record p { restart_count = (old.restart_count + 1) % 2 ^ 32 }) old s'.processes
                  k,
            ))
            (λ e s' k. (
              killed os old,
              (refl, λ w. refl),
              refl,
              λ j. (ap (lookup j) k ∙ lookup-insert name j (killed os old) s.processes),
            ))

module _ {W : Type 0} (os : Os W) where
  -- After a deletion the name is free, and no other entry changed.
  pub processes-delete :
      (name : Text) (s : ProcessManager W)
      → (delete os name s).1.processes ≡ remove name s.processes
  unfolding delete delete_found count
  processes-delete name s = found (lookup name s.processes) refl
    where
      found :
          (o : Option ManagedProcess)
          → lookup name s.processes ≡ o
          → (delete_found os name o s).1.processes ≡ remove name s.processes
      found none e = sym (remove_absent name s.processes (unfold contains_key in rw e refl))
      found (some p) e = refl

  -- The only error of a deletion.
  pub delete-not_found :
      (name e : Text) (s : ProcessManager W)
      → (delete os name s).0 ≡ err e
      → (t : Text) × (e ≡ t ++ codes " not found")
  unfolding delete delete_found not_found
  delete-not_found name e s h = found (lookup name s.processes) h
    where
      found :
          (o : Option ManagedProcess)
          → (delete_found os name o s).0 ≡ err e
          → (t : Text) × (e ≡ t ++ codes " not found")
      found none k = (quote name, cc)
      found (some p) k = cc

  -- An entry without a child is in the table under a name that was free, or the table is as it was.
  abbrev pub IsRegistered :
      ProcessConfig → ProcessManager W → Result Text × ProcessManager W → Type 0
  IsRegistered config s (ok msg, s') =
      (contains_key config.name s.processes ≡ false)
      × ((p : ManagedProcess) × (p.child ≡ none)
          × (s'.processes ≡ insert config.name p s.processes))
  IsRegistered config s (err e, s') = s'.processes ≡ s.processes

  pub register_spa-IsRegistered :
      (config : ProcessConfig) (s : ProcessManager W)
      → IsRegistered config s (register_spa os config s)
  unfolding register_spa count put_process
  register_spa-IsRegistered config s = elim (Bool-cases (contains_key config.name s.processes)) [
    | inl e ↦ rw e refl
    | inr e ↦ rw e (e, (_, refl, refl))
  ]

module _ {W : Type 0} where
  pub update_config_unknown :
      (name : Text) (c : ConfigChange) (s : ProcessManager W)
      → lookup name s.processes ≡ none
      → (e : Text) × (update_config name c s ≡ (err e, s))
  unfolding update_config update_found
  update_config_unknown name c s h = (not_found name, rw h refl)
