-- ===== src/Daemon/Requests/Saving.antt =====
-- src/server.rs, `Request::Save`, with src/state.rs: what a daemon that starts later finds.
use mathlib.Core.List.{Perm}
use nylon_run.Prelude.{
  ◌≡◌, refl, ap, ◌∙◌, Bool, false, Option, some, List, [], ◌∷◌, Text, Result, arith, any, ok,
  text_eq, text_eq_iff, text_eq_refl, ℕ, length,
}
use nylon_run.Prelude.Maps.{Map, lookup, contains_key, IsDistinct}
use nylon_run.Protocol.{Response, save}
use nylon_run.System.{Os}
use nylon_run.Tls.{Pki}
use nylon_run.Oci.Pull.{Registry}
use nylon_run.Oci.Entrypoint.{ImageConfig}
use nylon_run.Oci.Settings.{Json}
use nylon_run.Process.State.{ManagedProcess}
use nylon_run.Process.Manager.Configs.{configs_of, get_configs}
use nylon_run.Process.Manager.Invariant.{IsManaged, IsNamedMap}
use nylon_run.State.{Db, Codec, Iter, load, prefix}
use nylon_run.State
use nylon_run.State.Laws.{IsComplete, IsLawful, IsFaithful}
use nylon_run.State.Rows.{HasDistinctNames}
use nylon_run.State.Loading.{save-load}
use nylon_run.Daemon.{Host}
use nylon_run.Daemon.Requests.{Server, handle_request, handle_save, saved}

named_rest :
    (j : Text) (p : ManagedProcess) (m : Map ManagedProcess)
    → contains_key j m ≡ false
    → IsNamedMap ((j, p) ∷ m)
    → IsNamedMap m
unfolding lookup contains_key
named_rest j p m a h k q e = ground (arith, h k q, text_eq_iff j k)

any-configs_of :
    (n : Text) (m : Map ManagedProcess)
    → IsDistinct m
    → IsNamedMap m
    → any (λ c. text_eq c.name n) (configs_of m) ≡ contains_key n m
unfolding contains_key lookup
any-configs_of n [] d h = refl
any-configs_of n ((j, p) ∷ m) (a, d) h =
    ground (arith, any-configs_of n m d (named_rest j p m a h), h j p, text_eq_refl j)

head_named :
    (j : Text) (p : ManagedProcess) (m : Map ManagedProcess)
    → IsNamedMap ((j, p) ∷ m)
    → p.config.name ≡ j
unfolding lookup
head_named j p m h = ground (arith, h j p, text_eq_refl j)

configs_of-HasDistinctNames :
    (m : Map ManagedProcess) → IsDistinct m → IsNamedMap m → HasDistinctNames (configs_of m)
configs_of-HasDistinctNames [] d h = tt
configs_of-HasDistinctNames ((j, p) ∷ m) (a, d) h = (
  ground (arith, any-configs_of p.config.name m d (named_rest j p m a h), head_named j p m h),
  configs_of-HasDistinctNames m d (named_rest j p m a h),
)

module _ {W X509 PKey D B J : Type 0} (os : Os W) (registry : Registry W)
    (parse_config : Text → Option ImageConfig) (pki : Pki X509 PKey) (host : Host W)
    (alphabetic : ℕ → Bool) (shlex_split : Text → Option (List Text)) (idle : Bool) (db : Db D B)
    (codec : Codec B) (json : Json J) where
  -- Let the process table be in order, and let a request to save be answered with Ok. Then a daemon that
  -- loads the database later, in a scan that comes to its end, finds the configurations of exactly the
  -- apps that are managed now, each once, in some order.
  pub load-handle_request :
      (law : IsLawful db) (faithful : IsFaithful codec) (msg : Text) (s s' : Server W X509 PKey D)
      (it : Iter B)
      → IsManaged s.daemon.process_mgr
      → handle_request os registry parse_config pki host alphabetic shlex_split idle db codec json
          save s
        ≡ (some (Response.ok msg), s')
      → db.scan_prefix prefix s'.state_store ≡ ok it
      → IsComplete it
      → Perm (load db codec s'.state_store) (get_configs s.daemon.process_mgr)
  unfolding handle_request handle_save saved get_configs
  load-handle_request law faithful msg s s' it h e q complete =
      answered (State.save db codec (configs_of s.daemon.process_mgr.processes) s.state_store) refl
        e
    where
      answered :
          (r : Result (Unit {0}) × D)
          → State.save db codec (configs_of s.daemon.process_mgr.processes) s.state_store ≡ r
          → saved os registry parse_config pki host alphabetic shlex_split idle db codec json
              (length (configs_of s.daemon.process_mgr.processes))
              r
              s
            ≡ (some (Response.ok msg), s')
          → Perm (load db codec s'.state_store) (configs_of s.daemon.process_mgr.processes)
      answered (Result.err m, d) k e = ground (arith, ap (λ x. x.0) e)
      answered (Result.ok u, d) k e =
          save-load db codec law faithful (configs_of s.daemon.process_mgr.processes) s.state_store
            s'.state_store it
            (configs_of-HasDistinctNames s.daemon.process_mgr.processes h.distinct h.named)
            (k ∙ ap (λ x. (Result.ok tt, x.1.state_store)) e) q complete
