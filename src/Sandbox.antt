-- ===== src/Sandbox.antt =====
-- src/sandbox.rs: what a child restricts itself to before it runs the program. seccomp and Landlock are a
-- parameter: `R` is a seccomp rule, `S` a filter and `F` its program, `H` a Landlock ruleset before and `L` after
-- its creation, and `K` the state of the kernel for the
-- child. `empty_rule` is `SeccompRule::new(vec![])`. Only the Linux variant is modelled.
use nylon_run.Prelude.{
  Bool, true, false, ◌≡◌, refl, ap, sym, subst, ◌∙◌, List, [], ◌∷◌, ◌++◌, ◌⊎◌, inl, inr, Text,
  Result, ok, err, Action, codes, arith, map_err, text_eq, text_eq_iff, if◌then◌else◌, ◌>>=◌, All,
  Bool-cases,
}
use nylon_run.Prelude.Actions

pub data Access : Type 0 where
  read_access full_access : Access

pub data RulesetStatus : Type 0 where
  fully_enforced partially_enforced not_enforced : RulesetStatus

pub record Kernel (K L F R S H : Type 0) : Type 0 where
  pub empty_rule : Result R
  pub target_arch : Result Text
  pub new_filter : List (Text × R) → Text → Result S
  pub compile : S → Result F
  pub apply_filter : F → Action K (Unit {0})
  pub handle_access : Result H
  pub create_ruleset : H → Result L
  pub can_open : Text → K → Bool
  pub add_rule : Text → Access → L → Result L
  pub restrict_self : L → Action K RulesetStatus

-- The system calls are named after their constants in libc.
abbrev pub blocked_syscalls : List Text
blocked_syscalls =
    codes "socket"
    ∷ codes "connect"
    ∷ codes "bind"
    ∷ codes "listen"
    ∷ codes "accept"
    ∷ codes "accept4"
    ∷ codes "sendto"
    ∷ codes "sendmsg"
    ∷ codes "sendmmsg"
    ∷ []

abbrev pub system_read_dirs : List Text
system_read_dirs =
    codes "/lib"
    ∷ codes "/lib64"
    ∷ codes "/usr/lib"
    ∷ codes "/usr/lib64"
    ∷ codes "/usr/local/lib"
    ∷ codes "/etc/ld.so.cache"
    ∷ codes "/etc/ld.so.conf"
    ∷ codes "/etc/ld.so.conf.d"
    ∷ codes "/proc/self"
    ∷ codes "/dev/null"
    ∷ codes "/dev/urandom"
    ∷ codes "/dev/zero"
    ∷ []

abbrev logs_path : Text
logs_path = codes "/var/run/nyrun/logs"

module _ {K L F R S H : Type 0} (kernel : Kernel K L F R S H) where
  -- One rule without conditions for each blocked call.
  unfoldable pub syscall_rules : List Text → Result (List (Text × R))
  syscall_rules [] = ok []
  syscall_rules (syscall ∷ rest) = do
    rule ← map_err (codes "seccomp rule error: ") kernel.empty_rule
    rules ← syscall_rules rest
    ok ((syscall, rule) ∷ rules)

  net_filter : Result F
  unfolding syscall_rules
  net_filter = do
    rules ← syscall_rules blocked_syscalls
    arch ← map_err (codes "unsupported arch: ") kernel.target_arch
    filter ← map_err (codes "seccomp filter error: ") (kernel.new_filter rules arch)
    map_err (codes "seccomp compile error: ") (kernel.compile filter)

  unfoldable pub apply_deny_net : Action K (Unit {0})
  unfolding net_filter
  apply_deny_net =
      Actions.◌>>=◌ (Actions.lift net_filter) (λ bpf.
        Actions.on_error (λ e. codes "seccomp apply error: " ++ e) (kernel.apply_filter bpf))

  -- A path that cannot be opened is passed over.
  unfoldable pub add_paths : Access → List Text → K → L → Result L
  add_paths access [] k created = ok created
  add_paths access (path ∷ paths) k created =
      let skipped = add_paths access paths k created in
      let added = (do
        created' ← map_err (codes "landlock add rule error: ") (kernel.add_rule path access created)
        add_paths access paths k created') in
      if kernel.can_open path k then added else skipped

  io_ruleset : List Text → Text → K → Result L
  unfolding add_paths
  io_ruleset allowed_paths working_dir k = do
    handled ← map_err (codes "landlock ruleset error: ") kernel.handle_access
    created ← map_err (codes "landlock create error: ") (kernel.create_ruleset handled)
    created ← add_paths read_access system_read_dirs k created
    created ← add_paths full_access (working_dir ∷ []) k created
    created ← add_paths full_access allowed_paths k created
    add_paths full_access (logs_path ∷ codes "/tmp" ∷ []) k created

  -- How far the kernel enforces the rules is only logged.
  unfoldable pub apply_deny_io : List Text → Text → Action K (Unit {0})
  unfolding io_ruleset
  apply_deny_io allowed_paths working_dir =
      Actions.◌>>=◌ (λ k. (io_ruleset allowed_paths working_dir k, k))
        (λ created.
          Actions.◌>>=◌
            (Actions.on_error (λ e. codes "landlock restrict error: " ++ e)
              (kernel.restrict_self created))
            (λ status. Actions.pure tt))

  apply_cap : Text → List Text → Text → Action K (Unit {0})
  unfolding apply_deny_net apply_deny_io
  apply_cap cap allow working_dir k =
      if text_eq cap (codes "net")
      then apply_deny_net k
      else if text_eq cap (codes "io")
      then apply_deny_io allow working_dir k
      else (err (codes "unknown deny capability: '" ++ cap ++ codes "'"), k)

  unfoldable pub apply_sandbox : List Text → List Text → Text → Action K (Unit {0})
  unfolding apply_cap
  apply_sandbox [] allow working_dir = Actions.pure tt
  apply_sandbox (cap ∷ deny) allow working_dir =
      Actions.◌>>◌ (apply_cap cap allow working_dir) (apply_sandbox deny allow working_dir)

  -- Denying the network fails wherever a rule without conditions is refused.
  apply_deny_net_refused :
      (e : Text) (k : K)
      → kernel.empty_rule ≡ err e
      → apply_deny_net k ≡ (err (codes "seccomp rule error: " ++ e), k)
  unfolding apply_deny_net net_filter syscall_rules
  apply_deny_net_refused e k h = rw h refl

  apply_cap_known :
      (cap : Text) (allow : List Text) (working_dir : Text) (k k' : K) (e : Text)
      → kernel.empty_rule ≡ err e
      → apply_cap cap allow working_dir k ≡ (ok tt, k')
      → cap ≡ codes "io"
  unfolding apply_cap
  apply_cap_known cap allow working_dir k k' e h q =
      is_net (Bool-cases (text_eq cap (codes "net"))) (Bool-cases (text_eq cap (codes "io"))) q
    where
      Applied : Bool → Bool → Type 0
      Applied n i =
          (if n
            then apply_deny_net k
            else if i
            then apply_deny_io allow working_dir k
            else (err (codes "unknown deny capability: '" ++ cap ++ codes "'"), k))
          ≡ (ok tt, k')

      is_net :
          (text_eq cap (codes "net") ≡ true) ⊎ (text_eq cap (codes "net") ≡ false)
          → (text_eq cap (codes "io") ≡ true) ⊎ (text_eq cap (codes "io") ≡ false)
          → Applied (text_eq cap (codes "net")) (text_eq cap (codes "io"))
          → cap ≡ codes "io"
      is_net n (inl i) q = (text_eq_iff cap (codes "io")).0 i
      is_net (inl n) (inr i) q = ground (
        arith,
        ap (λ r. r.0)
            (sym (apply_deny_net_refused e k h)
              ∙ subst (λ b. Applied b (text_eq cap (codes "io"))) n q),
      )
      is_net (inr n) (inr i) q = ground (
        arith,
        ap (λ r. r.0)
            (subst (Applied false) i (subst (λ b. Applied b (text_eq cap (codes "io"))) n q)),
      )

  -- Let seccomp refuse a rule without conditions, as its documentation says. Then a sandbox is applied with
  -- success only if it denies nothing but `io`: with `net`, or with a capability that is not known, it
  -- is not.
  pub apply_sandbox-io :
      (deny allow : List Text) (working_dir : Text) (k k' : K) (e : Text)
      → kernel.empty_rule ≡ err e
      → apply_sandbox deny allow working_dir k ≡ (ok tt, k')
      → All (λ cap. cap ≡ codes "io") deny
  unfolding apply_sandbox
  apply_sandbox-io [] allow working_dir k k' e h q = tt
  apply_sandbox-io (cap ∷ deny) allow working_dir k k' e h q =
      applied (λ k1. apply_sandbox-io deny allow working_dir k1 k' e h)
        (apply_cap cap allow working_dir k) refl q
    where
      applied :
          ((k1 : K)
            → apply_sandbox deny allow working_dir k1 ≡ (ok tt, k')
            → All (λ cap. cap ≡ codes "io") deny)
          → (r : Result (Unit {0}) × K) → apply_cap cap allow working_dir k ≡ r
          → Actions.continue (λ u. apply_sandbox deny allow working_dir) r ≡ (ok tt, k')
          → All (λ cap. cap ≡ codes "io") (cap ∷ deny)
      applied rest (ok u, k1) p q = (apply_cap_known cap allow working_dir k k1 e h p, rest k1 q)
      applied rest (err m, k1) p q = ground (arith, ap (λ r. r.0) q)
