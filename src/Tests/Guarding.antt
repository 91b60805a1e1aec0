-- ===== src/Tests/Guarding.antt =====
-- Log files, the sandbox and challenges: concrete inputs.
use nylon_run.Prelude.{
  ap, sym, ℕ, ◌⊎◌, ◌+◌, ◌≡◌, refl, true, false, Option, none, some, [], ◌∷◌, Text, ok, err, codes,
  arith, text_eq, text_eq_iff, if◌then◌else◌, All,
}
use nylon_run.Prelude.Maps.{Map, lookup, insert, remove, lookup-insert, lookup-remove}
use nylon_run.System.{Os}
use nylon_run.System.Trees
use nylon_run.Process.Logs.{rotate_log_file}
use nylon_run.Process.Logs.Rotation.{IsFileSystem, IsRotated, rotate_log_file-IsRotated}
use nylon_run.Sandbox.{Kernel, fully_enforced, apply_sandbox, apply_sandbox-io}
use nylon_run.Acme.{Issuer, Order, Issuing, issue_cert, set_challenges}
use nylon_run.Acme.Challenges.{issue_cert-IsClean}
use nylon_run.Tls
use nylon_run.Oci.References.{load_default_registry}
use nylon_run.Oci.Settings
use nylon_run.Oci.Settings.{
  IsJson, named_registry, save_default_registry, load_default_registry-save_default_registry,
}
use nylon_run.Tests.Supervising.{os}
use nylon_run.Tests.Serving.{pki}

-- The files are their contents by path.
abbrev renamed : Text → Text → Option Text → Map Text → Map Text
renamed p q none w = w
renamed p q (some c) w = insert q c (remove p w)

abbrev disk : Os (Map Text)
disk = record {
  exists = λ p w. false;
  is_dir = λ p w. false;
  is_file = λ p w. false;
  read_dir = λ p w. [];
  tree = λ p w. Trees.file;
  read_to_string = λ p w. err (codes "not read");
  create_dir_all = λ p w. (ok tt, w);
  copy = λ p q w. (ok tt, w);
  write = λ p t w. (ok tt, insert p t w);
  create = λ p w. insert p [] w;
  rename = λ p q w. renamed p q (lookup p w) w;
  remove_file = remove;
  remove_dir_all = λ p w. w;
  file_size = λ p w. none;
  is_executable = λ p w. false;
  spawn = λ c w. (ok 1, w);
  kill = λ pid w. w;
  try_wait = λ pid w. ok none;
  now = λ w. 0;
}

view-renamed :
    (p q : Text) (w : Map Text) (j : Text) (o : Option Text)
    → lookup p w ≡ o
    → lookup q w ≡ none
    → lookup j (renamed p q o w)
      ≡ (if text_eq q j then lookup p w else if text_eq p j then none else lookup j w)
view-renamed p q w j none e h = ground (arith, e, h, text_eq_iff q j, text_eq_iff p j)
view-renamed p q w j (some c) e h =
    ground (arith, e, h, lookup-insert q j c (remove p w), lookup-remove p j w)

abbrev files : IsFileSystem disk
files = record {
  view = λ w p. lookup p w;
  view-remove_file = λ p w j. lookup-remove p j w;
  view-rename = λ p q w j d h. view-renamed p q w j (lookup p w) refl h;
  view-create = λ p w j. lookup-insert p j [] w;
}

abbrev logs : Map Text
logs =
    (codes "stdout.log", codes "new")
    ∷ (codes "stdout.log.1", codes "older")
    ∷ (codes "stdout.log.5", codes "oldest")
    ∷ []

rotate_log_file-IsRotated_example :
    IsRotated disk files (codes "stdout.log") logs (rotate_log_file disk (codes "stdout.log") logs)
rotate_log_file-IsRotated_example = rotate_log_file-IsRotated disk files (codes "stdout.log") logs

-- A kernel that counts the rulesets it enforces.
abbrev kernel : Kernel ℕ Text Text Text Text Text
kernel = record {
  empty_rule = err (codes "empty rule");
  target_arch = ok (codes "x86_64");
  new_filter = λ rules arch. ok [];
  compile = λ filter. ok [];
  apply_filter = λ f k. (ok tt, k);
  handle_access = ok [];
  create_ruleset = λ r. ok [];
  can_open = λ p k. true;
  add_rule = λ p a l. ok p;
  restrict_self = λ l k. (ok fully_enforced, k + 1);
}

apply_sandbox-io_example : All (λ cap. cap ≡ codes "io") (codes "io" ∷ [])
apply_sandbox-io_example =
    apply_sandbox-io kernel (codes "io" ∷ []) (codes "/data" ∷ []) (codes "/srv") 0 1
      (codes "empty rule") refl (unfold apply_sandbox in unfold text_eq in refl)

abbrev order : Order
order = record {
  authorizations =
      ok (record { is_valid = false; http01 = some (codes "t1", codes "k1"); set_ready = ok tt })
      ∷ [];
  poll_ready = ok false;
  finalize = ok (codes "key");
  poll_certificate = ok (codes "pem");
}

abbrev issuer : Issuer ℕ
issuer = record {
  is_current = λ pem. none;
  load_account = λ t. ok 1;
  create_account = λ e. ok (1, codes "{}");
  new_order = λ a h. ok order;
}

abbrev before : Issuing ℕ Text Text
before = record {
  world = 7;
  challenges = (codes "t0", codes "k0") ∷ [];
  certs = record { certs = []; default_cert = none };
}

abbrev after : Issuing ℕ Text Text
after = (issue_cert os pki issuer (codes "ops@a.io") (codes "a.io") before).1

issue_cert-IsClean_example :
    (lookup (codes "t1") after.challenges ≡ lookup (codes "t1") before.challenges)
    ⊎ (lookup (codes "t1") after.challenges ≡ none)
issue_cert-IsClean_example =
    issue_cert-IsClean os pki issuer (codes "ops@a.io") (codes "a.io") before after
      (unfold issue_cert in unfold set_challenges in unfold Tls.add_cert_from_pem in refl)
      (codes "t1")

-- A settings file is one text, the default registry.
abbrev settings : Settings.Json Text
settings = record {
  from_str = some;
  empty_object = [];
  get_string = λ k j. some j;
  set_string = λ k v j. some v;
  to_string_pretty = λ j. j;
}

settings-IsJson : IsJson settings
settings-IsJson = record {
  get_string-set_string = λ k v j j' e. sym e;
  from_str-to_string_pretty = λ j. refl;
}

abbrev one_file : Os Text
one_file = record {
  exists = λ p w. true;
  is_dir = λ p w. false;
  is_file = λ p w. true;
  read_dir = λ p w. [];
  tree = λ p w. Trees.file;
  read_to_string = λ p w. ok w;
  create_dir_all = λ p w. (ok tt, w);
  copy = λ p q w. (ok tt, w);
  write = λ p t w. (ok tt, t);
  create = λ p w. [];
  rename = λ p q w. w;
  remove_file = λ p w. w;
  remove_dir_all = λ p w. w;
  file_size = λ p w. none;
  is_executable = λ p w. false;
  spawn = λ c w. (ok 1, w);
  kill = λ pid w. w;
  try_wait = λ pid w. ok none;
  now = λ w. 0;
}

load_default_registry-save_default_registry_example :
    load_default_registry (named_registry one_file settings (codes "ghcr.io")) ≡ codes "ghcr.io"
load_default_registry-save_default_registry_example =
    load_default_registry-save_default_registry one_file settings settings-IsJson
      (λ p t w w' e. ap (λ r. ok r.1) (sym e)) (codes "ghcr.io") (codes "docker.io")
      (codes "ghcr.io") (unfold save_default_registry in refl)
