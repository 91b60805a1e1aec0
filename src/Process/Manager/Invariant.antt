-- ===== src/Process/Manager/Invariant.antt =====
-- src/process.rs: the invariant of the process table, and the operations that start no process.
use native.Mathlib.Numerals.{unary_clauses}
use nylon_run.Prelude.{
  ℕ, ◌+◌, ◌≡◌, refl, ap, sym, subst, ◌∙◌, true, false, Option, none, some, Text, arith, length,
  text_eq_iff, Bool-cases, inl, inr,
}
use nylon_run.Prelude.Maps.{
  Map, lookup, insert, remove, contains_key, IsDistinct, lookup-insert, lookup-remove,
  insert-IsDistinct, remove-IsDistinct, length-insert, length-remove,
}
use nylon_run.Protocol.{ProcessConfig}
use nylon_run.Metrics.{Metrics, ℤ, pos, inc, dec, new_registered}
use nylon_run.System.{Os}
use nylon_run.Process.State.{ManagedProcess, ProcessManager, count, new}
use nylon_run.Process.Start.Frames.{gauge, IsSpared}
use nylon_run.Process.Manager.{
  put_process, inc_managed, dec_managed, delete, delete_found, kill_all, register_spa,
}
use nylon_run.Process.Manager.Configs.{
  update_config, update_found, apply_change, ConfigChange, update_oci_config, update_oci_found,
}

-- Every entry stands under the name of its configuration.
abbrev pub IsNamedMap : Map ManagedProcess → Type 0
IsNamedMap m = (k : Text) (p : ManagedProcess) → lookup k m ≡ some p → p.config.name ≡ k

abbrev pub IsCounted : Option ℤ → ℕ → Type 0
IsCounted none n = Unit
IsCounted (some g) n = g ≡ pos n

module _ {W : Type 0} where
  pub record IsManaged (s : ProcessManager W) : Type 0 where
    pub distinct : IsDistinct s.processes
    pub named : IsNamedMap s.processes
    pub counted : IsCounted (gauge s.metrics) (length s.processes)

insert-IsNamedMap :
    (k : Text) (p : ManagedProcess) (m : Map ManagedProcess)
    → p.config.name ≡ k
    → IsNamedMap m
    → IsNamedMap (insert k p m)
insert-IsNamedMap k p m h hs j q e = ground (arith, text_eq_iff k j, lookup-insert k j p m, hs j q)

remove-IsNamedMap : (k : Text) (m : Map ManagedProcess) → IsNamedMap m → IsNamedMap (remove k m)
remove-IsNamedMap k m hs j q e = ground (arith, lookup-remove k j m, hs j q)

pub lookup_contains :
    (name : Text) (m : Map ManagedProcess) (p : ManagedProcess)
    → lookup name m ≡ some p
    → contains_key name m ≡ true
unfolding contains_key
lookup_contains name m p e = rw e refl

dec_suc : (n : ℕ) → dec (pos (n + 1)) ≡ pos n
unfolding dec
dec_suc n = simp unary_clauses refl

module _ {W : Type 0} where
  pub spared-IsManaged : (s s' : ProcessManager W) → IsManaged s → IsSpared s s' → IsManaged s'
  spared-IsManaged s s' h (p, q) = record {
    distinct = subst IsDistinct (sym p) h.distinct;
    named = subst IsNamedMap (sym p) h.named;
    counted =
        subst (λ m. IsCounted (gauge s'.metrics) (length m)) (sym p)
          (subst (λ g. IsCounted g (length s.processes)) (sym q) h.counted);
  }

  -- An entry is put in the place of another of the name.
  pub replaced-IsManaged :
      (name : Text) (p : ManagedProcess) (s : ProcessManager W)
      → contains_key name s.processes ≡ true
      → p.config.name ≡ name
      → IsManaged s
      → IsManaged (put_process name p s)
  unfolding put_process
  replaced-IsManaged name p s c e h = record {
    distinct = insert-IsDistinct name p s.processes h.distinct;
    named = insert-IsNamedMap name p s.processes e h.named;
    counted =
        subst (IsCounted (gauge s.metrics)) (sym (ground (arith, length-insert name p s.processes)))
          h.counted;
  }

  inc-IsCounted :
      (n : ℕ) (s : ProcessManager W)
      → IsCounted (gauge s.metrics) n
      → IsCounted (gauge (count inc_managed s).metrics) (n + 1)
  unfolding count inc_managed inc
  inc-IsCounted n s h = shifted s.metrics h
    where
      shifted :
          (o : Option Metrics)
          → IsCounted (gauge o) n
          → IsCounted (gauge (elim o [ none ↦ none | some m ↦ some (inc_managed m) ])) (n + 1)
      shifted none h = tt
      shifted (some m) h = ap inc h

  dec-IsCounted :
      (n : ℕ) (s : ProcessManager W)
      → IsCounted (gauge s.metrics) (n + 1)
      → IsCounted (gauge (count dec_managed s).metrics) n
  unfolding count dec_managed dec
  dec-IsCounted n s h = shifted s.metrics h
    where
      shifted :
          (o : Option Metrics)
          → IsCounted (gauge o) (n + 1)
          → IsCounted (gauge (elim o [ none ↦ none | some m ↦ some (dec_managed m) ])) n
      shifted none h = tt
      shifted (some m) h = ap dec h ∙ dec_suc n

  -- An entry of a new name is counted.
  pub entered-IsManaged :
      (name : Text) (p : ManagedProcess) (s : ProcessManager W)
      → contains_key name s.processes ≡ false
      → p.config.name ≡ name
      → IsManaged s
      → IsManaged (count inc_managed (put_process name p s))
  unfolding put_process
  entered-IsManaged name p s c e h = record {
    distinct = unfold count in insert-IsDistinct name p s.processes h.distinct;
    named = unfold count in insert-IsNamedMap name p s.processes e h.named;
    counted =
        subst (IsCounted (gauge (count inc_managed (put_process name p s)).metrics))
          (sym (length_entered))
          (inc-IsCounted (length s.processes) (put_process name p s) h.counted);
  }
    where
      length_entered :
          length (count inc_managed (put_process name p s)).processes ≡ length s.processes + 1
      length_entered = unfold count in ground (arith, length-insert name p s.processes)

  removed-IsManaged :
      (name : Text) (s : ProcessManager W) (w : W)
      → contains_key name s.processes ≡ true
      → IsManaged s
      → IsManaged (count dec_managed (record s { world = w; processes = remove name s.processes }))
  unfolding count
  removed-IsManaged name s w c h = record {
    distinct = remove-IsDistinct name s.processes h.distinct;
    named = remove-IsNamedMap name s.processes h.named;
    counted =
        dec-IsCounted (length (remove name s.processes))
          (record s { world = w; processes = remove name s.processes })
          (subst (IsCounted (gauge s.metrics))
            (ground (arith, length-remove name s.processes h.distinct)) h.counted);
  }

  -- A change of its configuration keeps the table in order.
  pub update_config-IsManaged :
      (name : Text) (c : ConfigChange) (s : ProcessManager W)
      → IsManaged s
      → IsManaged (update_config name c s).1
  unfolding update_config update_found apply_change
  update_config-IsManaged name c s h = found (lookup name s.processes) refl
    where
      found :
          (o : Option ManagedProcess)
          → lookup name s.processes ≡ o
          → IsManaged (update_found name c o s).1
      found none e = h
      found (some p) e =
          replaced-IsManaged name (record p { config = apply_change c p.config }) s
            (lookup_contains name s.processes p e) (h.named name p e) h

  pub update_oci_config-IsManaged :
      (name oci_reference entrypoint : Text) (s : ProcessManager W)
      → IsManaged s
      → IsManaged (update_oci_config name oci_reference entrypoint s)
  unfolding update_oci_config update_oci_found
  update_oci_config-IsManaged name oci_reference entrypoint s h =
      found (lookup name s.processes) refl
    where
      found :
          (o : Option ManagedProcess)
          → lookup name s.processes ≡ o
          → IsManaged (update_oci_found name oci_reference entrypoint o s)
      found none e = h
      found (some p) e =
          replaced-IsManaged name _ s (lookup_contains name s.processes p e) (h.named name p e) h

  -- A new manager has no process.
  pub new-IsManaged : (w : W) → IsManaged (new (some new_registered) w)
  unfolding new new_registered lookup
  new-IsManaged w = record { distinct = tt; named = λ k p e. ground arith; counted = refl }

module _ {W : Type 0} (os : Os W) where
  pub delete-IsManaged :
      (name : Text) (s : ProcessManager W) → IsManaged s → IsManaged (delete os name s).1
  unfolding delete delete_found
  delete-IsManaged name s h = found (lookup name s.processes) refl
    where
      found :
          (o : Option ManagedProcess)
          → lookup name s.processes ≡ o
          → IsManaged (delete_found os name o s).1
      found none e = h
      found (some p) e = removed-IsManaged name s _ (lookup_contains name s.processes p e) h

  pub register_spa-IsManaged :
      (config : ProcessConfig) (s : ProcessManager W)
      → IsManaged s
      → IsManaged (register_spa os config s).1
  unfolding register_spa
  register_spa-IsManaged config s h = elim (Bool-cases (contains_key config.name s.processes)) [
    | inl e ↦ rw e h
    | inr e ↦ rw e (entered-IsManaged config.name _ s e refl h)
  ]

  pub kill_all-IsManaged : (s : ProcessManager W) → IsManaged (kill_all os s).1
  unfolding kill_all count lookup
  kill_all-IsManaged s = record {
    distinct = tt;
    named = λ k p e. ground arith;
    counted = zeroed s.metrics;
  }
    where
      zeroed :
          (o : Option Metrics)
          → IsCounted
              (gauge
                (elim o [ none ↦ none | some m ↦ some (record m { managed_processes = pos 0 }) ]))
              0
      zeroed none = tt
      zeroed (some m) = refl
