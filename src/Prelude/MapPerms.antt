-- ===== src/Prelude/MapPerms.antt =====
-- Maps that hold the same bindings in different orders.
use mathlib.Core.List.{Perm}
use mathlib.Core.List.Perm
use nylon_run.Prelude.{
  ◌≡◌, subst, true, false, none, some, [], ◌∷◌, Text, arith, inl, inr, text_eq, text_eq_iff,
  text_eq_refl, Bool-cases,
}
use nylon_run.Prelude.Maps.{
  Map, lookup, remove, remove_absent, contains_key, IsDistinct, lookup-remove, remove-IsDistinct,
}

module _ {B : Type 0} where
  pub lookup_absent : (k : Text) (m : Map B) → contains_key k m ≡ false → lookup k m ≡ none
  unfolding contains_key
  lookup_absent k m h = ground arith

  -- One binding found in a map stands at its head, up to the order.
  Perm-lookup :
      (k : Text) (v : B) (m : Map B)
      → IsDistinct m
      → lookup k m ≡ some v
      → Perm m ((k, v) ∷ remove k m)
  unfolding lookup remove
  Perm-lookup k v [] d e = ground arith
  Perm-lookup k v ((j, w) ∷ m) (a, d) e = elim (Bool-cases (text_eq j k)) [
    | inl q ↦
        rw (q, remove_absent k m (subst (λ i. contains_key i m ≡ false) ((text_eq_iff j k).0 q) a))
          (subst (λ x. Perm ((j, w) ∷ m) (x ∷ m)) (same q e) (Perm.refl ((j, w) ∷ m)))
    | inr q ↦ rw q (
        Perm.trans (Perm.cons (j, w) (Perm-lookup k v m d (later q e)))
          (Perm.swap (k, v) (j, w) (remove k m)))
  ]
    where
      same : text_eq j k ≡ true → lookup k ((j, w) ∷ m) ≡ some v → ◌≡◌ {A = Text × B} (j, w) (k, v)
      same q e = ground (arith, text_eq_iff j k)

      later : text_eq j k ≡ false → lookup k ((j, w) ∷ m) ≡ some v → lookup k m ≡ some v
      later q e = ground arith

  -- Two maps with the same bindings hold them in some order each.
  pub Perm-maps :
      (m n : Map B)
      → IsDistinct m
      → IsDistinct n
      → ((j : Text) → lookup j m ≡ lookup j n)
      → Perm m n
  unfolding lookup
  Perm-maps [] [] dm dn h = Perm.refl []
  Perm-maps [] ((k, v) ∷ n) dm dn h = ground (arith, h k, text_eq_refl k)
  Perm-maps ((k, v) ∷ m) n (a, dm) dn h =
      Perm.trans (Perm.cons (k, v) (Perm-maps m (remove k n) dm (remove-IsDistinct k n dn) rest))
        (Perm.symm (Perm-lookup k v n dn (ground (arith, h k, text_eq_refl k))))
    where
      rest : (j : Text) → lookup j m ≡ lookup j (remove k n)
      rest j = ground (arith, h j, lookup-remove k j n, text_eq_iff k j, lookup_absent k m a)
