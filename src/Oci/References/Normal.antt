-- ===== src/Oci/References/Normal.antt =====
-- src/oci.rs: the registry of a normalized reference, and the name of an image.
use nylon_run.Prelude.{
  ◌≡◌, true, false, ◌||◌, Option, ◌∷◌, ◌++◌, append_assoc, Text, codes, contains, text_eq, Lacks,
  All-append, ◌≢◌, arith, if◌then◌else◌, Bool-cases, inl, inr,
}
use nylon_run.Prelude.Splits.{
  first_part-append, first_part-Lacks, contains-append, last_part-Lacks, last_part-append,
}
use nylon_run.Oci.References.{
  has_registry, load_default_registry, normalize_reference, image_name_from_ref,
}

-- A registry is a host name: it has a dot or a port, and no slash.
pub record IsRegistry (registry : Text) : Type 0 where
  pub no_slash : Lacks b'/' registry
  pub dot_or_port : contains b'.' registry || contains b':' registry ≡ true

has_registry-slash :
    (registry rest : Text) → IsRegistry registry → has_registry (registry ++ b'/' ∷ rest) ≡ true
unfolding has_registry
has_registry-slash registry rest h =
    rw (contains-append b'/' registry rest, first_part-append b'/' registry rest h.no_slash)
      h.dot_or_port

-- What stands behind the registry and the slash.
abbrev behind_registry : Option Text → Text → Text
behind_registry settings reference =
    if text_eq (load_default_registry settings) (codes "docker.io")
    then codes "library/" ++ reference
    else reference

registry_prepended :
    (settings : Option Text) (reference : Text)
    → has_registry reference ≡ false
    → normalize_reference settings reference
      ≡ load_default_registry settings ++ b'/' ∷ behind_registry settings reference
unfolding normalize_reference
registry_prepended settings reference h =
    elim (Bool-cases (text_eq (load_default_registry settings) (codes "docker.io"))) [
      | inl e ↦ rw (h, e)
      | inr e ↦ rw (h, e)
    ]

normal_again :
    (settings : Option Text) (r : Text) → has_registry r ≡ true → normalize_reference settings r ≡ r
unfolding normalize_reference
normal_again settings r h = ground (arith, h)

-- Under a default registry that is a host name, every reference is normalised to one with a registry.
has_registry-normalize_reference :
    (settings : Option Text) (reference : Text)
    → IsRegistry (load_default_registry settings)
    → has_registry (normalize_reference settings reference) ≡ true
has_registry-normalize_reference settings reference h = elim (Bool-cases (has_registry reference)) [
  | inl e ↦ rw (normal_again settings reference e) e
  | inr e ↦
      rw (registry_prepended settings reference e)
        (has_registry-slash (load_default_registry settings) (behind_registry settings reference) h)
]

-- With a default registry that is a host name, a normalised reference has a registry and is not
-- changed by normalising it again, also after the default registry was set to another.
pub normalize_reference_idem :
    (settings settings' : Option Text) (reference : Text)
    → IsRegistry (load_default_registry settings)
    → (has_registry (normalize_reference settings reference) ≡ true)
      × (normalize_reference settings' (normalize_reference settings reference)
          ≡ normalize_reference settings reference)
normalize_reference_idem settings settings' reference h = (
  has_registry-normalize_reference settings reference h,
  normal_again settings' (normalize_reference settings reference)
      (has_registry-normalize_reference settings reference h),
)

-- A reference of a path, a name and a tag, with no colon or @ in the path and the name and no slash
-- in the name, gives that name.
pub image_name_from_ref_tagged :
    (path name tag : Text)
    → Lacks b':' path × Lacks b'@' path
    → Lacks b':' name × Lacks b'@' name × Lacks b'/' name
    → image_name_from_ref (path ++ b'/' ∷ (name ++ b':' ∷ tag)) ≡ name
unfolding image_name_from_ref
image_name_from_ref_tagged path name tag (pc, pa) (nc, na, ns) =
    rw (← append_assoc path (b'/' ∷ name) (b':' ∷ tag)) (
      rw
        (
          first_part-append b':' (path ++ b'/' ∷ name) tag
              (All-append (λ c. c ≢ b':') path (b'/' ∷ name) pc ((λ e. omega (arith, e)), nc)),
          first_part-Lacks b'@' (path ++ b'/' ∷ name)
              (All-append (λ c. c ≢ b'@') path (b'/' ∷ name) pa ((λ e. omega (arith, e)), na)),
          last_part-append b'/' path name,
        )
        (last_part-Lacks b'/' name ns))

-- A reference to a registry with a port gives the host of the registry, a text with no colon, @ or
-- slash, whatever the port, the image and the tag.
pub image_name_from_ref_port :
    (host rest : Text)
    → Lacks b':' host
    → Lacks b'@' host
    → Lacks b'/' host
    → image_name_from_ref (host ++ b':' ∷ rest) ≡ host
unfolding image_name_from_ref
image_name_from_ref_port host rest c a s =
    rw (first_part-append b':' host rest c, first_part-Lacks b'@' host a)
      (last_part-Lacks b'/' host s)
