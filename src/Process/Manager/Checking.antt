-- ===== src/Process/Manager/Checking.antt =====
-- src/process.rs, `ProcessManager::check_and_restart`: what becomes of each entry of the table.
use nylon_run.Prelude.{
  ℕ, ◌%◌, ◌^◌, ◌+◌, ◌≡◌, refl, ap, sym, subst, ◌∙◌, Bool, true, false, Option, none, some, List, [],
  ◌∷◌, Text, Result, ok, err, arith, text_eq, text_eq_iff, Bool-cases, inl, inr, ◌⊎◌, if◌then◌else◌,
}
use nylon_run.Prelude.Maps.{Map, lookup, contains_key, IsDistinct}
use nylon_run.Protocol.{running, errored}
use nylon_run.System.{Os}
use nylon_run.Oci.Pull.{Registry}
use nylon_run.Oci.Entrypoint.{ImageConfig}
use nylon_run.Process.State.{ManagedProcess, ProcessManager}
use nylon_run.Process.Manager.{restart}
use nylon_run.Process.Manager.Supervision.{
  exited, check_child, check_one, check_all, restart_each, check_and_restart,
}
use nylon_run.Process.Manager.Starting.{check_all-lookup}
use nylon_run.Process.Manager.Outcomes.{IsAbandoned, IsRestarted, restart-IsRestarted}

-- Whether a name is in a list.
abbrev named : Text → List Text → Bool
named k [] = false
named k (n ∷ ns) = if text_eq n k then true else named k ns

-- A name that is in a list is in it once.
abbrev IsOnce : Text → List Text → Type 0
IsOnce k [] = Unit
IsOnce k (n ∷ ns) = (text_eq n k ≡ true → named k ns ≡ false) × IsOnce k ns

module _ {W : Type 0} (os : Os W) (registry : Registry W)
    (parse_config : Text → Option ImageConfig) where
  abbrev pub IsHandled : ManagedProcess → Option ManagedProcess → Type 0
  IsHandled old none = ⊥
  IsHandled old (some p) =
      (p.config.name ≡ old.config.name)
      × (((p.status ≡ running) × (p.restart_count ≡ (old.restart_count + 1) % 2 ^ 32))
          ⊎ (IsAbandoned os registry parse_config p × (p.config ≡ old.config)))

  restart_other :
      (n k : Text) (s : ProcessManager W)
      → text_eq n k ≡ false
      → lookup k (restart os registry parse_config n s).1.processes ≡ lookup k s.processes
  restart_other n k s h =
      other (lookup n s.processes) (restart os registry parse_config n s)
        (restart-IsRestarted os registry parse_config n s)
    where
      other :
          (o : Option ManagedProcess) (r : Result Text × ProcessManager W)
          → IsRestarted os registry parse_config n o s r
          → lookup k r.1.processes ≡ lookup k s.processes
      other none (ok msg, s') q = elim q [ ]
      other none (err e, s') q = rw q refl
      other (some old) (ok msg, s') (p, st, cfg, cnt, f) = f k ∙ rw h refl
      other (some old) (err e, s') (p, ab, cfg, f) = f k ∙ rw h refl

  restart_same :
      (n k : Text) (old : ManagedProcess) (s : ProcessManager W)
      → text_eq n k ≡ true
      → lookup n s.processes ≡ some old
      → IsHandled old (lookup k (restart os registry parse_config n s).1.processes)
  restart_same n k old s h e = same (restart os registry parse_config n s) (
      subst (λ o. IsRestarted os registry parse_config n o s (restart os registry parse_config n s))
        e (restart-IsRestarted os registry parse_config n s))
    where
      here :
          (s' : ProcessManager W) (p : ManagedProcess)
          → lookup k s'.processes ≡ (if text_eq n k then some p else lookup k s.processes)
          → lookup k s'.processes ≡ some p
      here s' p f = f ∙ rw h refl

      same :
          (r : Result Text × ProcessManager W)
          → IsRestarted os registry parse_config n (some old) s r
          → IsHandled old (lookup k r.1.processes)
      same (ok msg, s') (p, st, cfg, cnt, f) =
          subst (IsHandled old) (sym (here s' p (f k))) (cfg, inl (st, cnt))
      same (err e, s') (p, ab, cfg, f) =
          subst (IsHandled old) (sym (here s' p (f k))) (ap (λ c. c.name) cfg, inr (ab, cfg))

  restart_each-absent :
      (k : Text) (ns : List Text) (s : ProcessManager W)
      → named k ns ≡ false
      → lookup k (restart_each os registry parse_config ns s).processes ≡ lookup k s.processes
  unfolding restart_each
  restart_each-absent k [] s h = refl
  restart_each-absent k (n ∷ ns) s h =
      restart_each-absent k ns (restart os registry parse_config n s).1 (ground arith)
      ∙ restart_other n k s (ground arith)

  restart_each-once :
      (k : Text) (ns : List Text) (old : ManagedProcess) (s : ProcessManager W)
      → named k ns ≡ true
      → IsOnce k ns
      → lookup k s.processes ≡ some old
      → IsHandled old (lookup k (restart_each os registry parse_config ns s).processes)
  unfolding restart_each
  restart_each-once k [] old s h u e = cc
  restart_each-once k (n ∷ ns) old s h (u, us) e = elim (Bool-cases (text_eq n k)) [
    | inl t ↦
        subst (IsHandled old)
          (sym (restart_each-absent k ns (restart os registry parse_config n s).1 (u t)))
          (restart_same n k old s t (ap (λ j. lookup j s.processes) ((text_eq_iff n k).0 t) ∙ e))
    | inr f ↦
        restart_each-once k ns old (restart os registry parse_config n s).1 (ground arith) us
          (restart_other n k s f ∙ e)
  ]

  abbrev IsChecked : ManagedProcess × Bool → Option ManagedProcess → Type 0
  IsChecked (p, false) o = o ≡ some p
  IsChecked (p, true) o = IsHandled p o

  check_all-named_absent :
      (k : Text) (m : Map ManagedProcess) (w : W)
      → contains_key k m ≡ false
      → named k (check_all os registry parse_config m w).1 ≡ false
  unfolding check_all contains_key lookup
  check_all-named_absent k [] w h = refl
  check_all-named_absent k ((j, p) ∷ m) w h = ground (arith, check_all-named_absent k m w)

  -- The names to restart are those of the entries that the check found dead, each once.
  check_all-named :
      (k : Text) (m : Map ManagedProcess) (w : W) (p : ManagedProcess)
      → IsDistinct m
      → lookup k m ≡ some p
      → named k (check_all os registry parse_config m w).1
        ≡ (check_one os registry parse_config p w).1
  unfolding check_all lookup
  check_all-named k [] w p d e = cc
  check_all-named k ((j, q) ∷ m) w p (a, d) e =
      ground (arith, text_eq_iff j k, check_all-named_absent k m w, check_all-named k m w p d)

  check_all-IsOnce :
      (k : Text) (m : Map ManagedProcess) (w : W)
      → IsDistinct m
      → IsOnce k (check_all os registry parse_config m w).1
  unfolding check_all
  check_all-IsOnce k [] w d = tt
  check_all-IsOnce k ((j, q) ∷ m) w (a, d) =
      ground (arith, text_eq_iff j k, check_all-named_absent k m w, check_all-IsOnce k m w d)

  dead :
      (p : ManagedProcess) (pid : ℕ) (w : W)
      → p.status ≡ running
      → p.child ≡ some pid
      → os.try_wait pid w ≡ ok (some false)
      → check_one os registry parse_config p w ≡ (record p { status = errored }, true)
  unfolding check_one check_child exited
  dead p pid w r c t = rw (r, c, t) refl

  -- What a turn of the health checker leaves of an entry, by what `try_wait` said of it.
  check_and_restart-IsChecked :
      (s : ProcessManager W) (k : Text) (p : ManagedProcess)
      → IsDistinct s.processes
      → lookup k s.processes ≡ some p
      → IsChecked
          (check_one os registry parse_config p s.world)
          (lookup k (check_and_restart os registry parse_config s).processes)
  unfolding check_and_restart
  check_and_restart-IsChecked s k p d e =
      decided (check_one os registry parse_config p s.world)
        (check_all-named k s.processes s.world p d e)
        (found (check_all-lookup os registry parse_config k s.processes s.world))
    where
      walked : ProcessManager W
      walked = record s { processes = (check_all os registry parse_config s.processes s.world).0 }

      names : List Text
      names = (check_all os registry parse_config s.processes s.world).1

      found :
          (lookup k s.processes ≡ none)
              × (lookup k (check_all os registry parse_config s.processes s.world).0 ≡ none)
            ⊎ ((q : ManagedProcess) × (lookup k s.processes ≡ some q)
                × (lookup k (check_all os registry parse_config s.processes s.world).0
                    ≡ some (check_one os registry parse_config q s.world).0))
          → lookup k (check_all os registry parse_config s.processes s.world).0
            ≡ some (check_one os registry parse_config p s.world).0
      found (inl (a, b)) = cc
      found (inr (q, a, b)) = cc

      decided :
          (r : ManagedProcess × Bool)
          → named k names ≡ r.1
          → lookup k walked.processes ≡ some r.0
          → IsChecked r (lookup k (restart_each os registry parse_config names walked).processes)
      decided (q, false) a b = restart_each-absent k names walked a ∙ b
      decided (q, true) a b =
          restart_each-once k names q walked a (check_all-IsOnce k s.processes s.world d) b

  -- Let no name stand twice in the table, and let an app be in it that counts as running while its child
  -- has exited with an error. After a turn of the health checker the app, under the same name, runs again
  -- with one restart more on its 32-bit count, or its restart failed: then it is stopped with its
  -- configuration, and no check of the running processes starts it again.
  pub check_and_restart-IsHandled :
      (s : ProcessManager W) (k : Text) (p : ManagedProcess) (pid : ℕ)
      → IsDistinct s.processes
      → lookup k s.processes ≡ some p
      → p.status ≡ running
      → p.child ≡ some pid
      → os.try_wait pid s.world ≡ ok (some false)
      → IsHandled p (lookup k (check_and_restart os registry parse_config s).processes)
  check_and_restart-IsHandled s k p pid d e r c t =
      subst (λ o. IsChecked o (lookup k (check_and_restart os registry parse_config s).processes))
        (dead p pid s.world r c t) (check_and_restart-IsChecked s k p d e)
