-- ===== src/State/Rows.antt =====
-- src/state.rs, `save` and `load`: the bindings that a save writes and that a scan yields.
use mathlib.Core.List.{Perm, Permᴰ}
use mathlib.Core.List.Permᴰ
use mathlib.Core.Logic.{∥∥₁_elim}
use nylon_run.Prelude.{
  ◌≡◌, refl, subst, ap, true, false, none, some, List, [], ◌∷◌, Text, Result, ok, err, arith, any,
  starts_with, text_eq, text_eq_iff, if◌then◌else◌,
}
use nylon_run.Prelude.Maps.{Map, lookup, contains_key, is_some, absent_key, IsDistinct}
use nylon_run.Protocol.{ProcessConfig}
use nylon_run.State.{
  Codec, Iter, finished, failed, item, prefix, config_key, old_keys, collect, pushed,
}
use nylon_run.State.Laws.{entries, IsComplete}

-- The configs that the database keeps are told apart by name.
abbrev pub HasDistinctNames : List ProcessConfig → Type 0
HasDistinctNames [] = Unit
HasDistinctNames (c ∷ cs) = (any (λ d. text_eq d.name c.name) cs ≡ false) × HasDistinctNames cs

module _ {B : Type 0} where
  pub contains_old_keys :
      (it : Iter B) (ks : List Text)
      → old_keys it ≡ ok ks
      → (j : Text) → IsComplete it × (any (λ k. text_eq k j) ks ≡ contains_key j (entries it))
  unfolding old_keys entries contains_key lookup
  contains_old_keys finished ks e j = ground arith
  contains_old_keys (failed m) ks e j = ground arith
  contains_old_keys (item k v it) ks e j = before (contains_old_keys it) (old_keys it) ks refl e
    where
      before :
          ((ks : List Text)
            → old_keys it ≡ ok ks
            → (j : Text)
            → IsComplete it × (any (λ k. text_eq k j) ks ≡ contains_key j (entries it)))
          → (r : Result (List Text)) (ks : List Text) → old_keys it ≡ r
          → (elim r [ ok rest ↦ ok (k ∷ rest) | err m ↦ err m ]) ≡ ok ks
          → IsComplete it
            × (any (λ i. text_eq i j) ks
                ≡ is_some (if text_eq k j then some v else lookup j (entries it)))
      before h (ok rest) ks q e = ground (arith, h rest q j)
      before h (err m) ks q e = ground arith

-- What becomes of the first binding.
Permᴰ-pushed :
    (r r' : Result ProcessConfig) (cs ds : List ProcessConfig)
    → r ≡ r'
    → Permᴰ cs ds
    → Permᴰ (pushed r cs) (pushed r' ds)
Permᴰ-pushed r r' cs ds e p = subst (λ r'. Permᴰ (pushed r cs) (pushed r' ds)) e (same r)
  where
    same : (r : Result ProcessConfig) → Permᴰ (pushed r cs) (pushed r ds)
    same (ok c) = Permᴰ.cons refl p
    same (err m) = p

Permᴰ-pushed_twice :
    (r q : Result ProcessConfig) (cs : List ProcessConfig)
    → Permᴰ (pushed r (pushed q cs)) (pushed q (pushed r cs))
Permᴰ-pushed_twice (ok c) (ok d) cs = Permᴰ.swap refl refl
Permᴰ-pushed_twice (ok c) (err m) cs = Permᴰ.refl _
Permᴰ-pushed_twice (err m) q cs = Permᴰ.refl _

module _ {B : Type 0} (parse : B → Result ProcessConfig) where
  abbrev pub parsed : Map B → List ProcessConfig
  parsed [] = []
  parsed (x ∷ m) = pushed (parse x.1) (parsed m)

  pub collect-entries : (it : Iter B) → collect parse it ≡ parsed (entries it)
  unfolding collect entries
  collect-entries finished = refl
  collect-entries (failed e) = refl
  collect-entries (item k v it) = ap (pushed (parse v)) (collect-entries it)

  Permᴰ-parsed : (m n : Map B) → Permᴰ m n → Permᴰ (parsed m) (parsed n)
  Permᴰ-parsed _ _ Permᴰ.nil = Permᴰ.nil
  Permᴰ-parsed (x ∷ m) (y ∷ n) (Permᴰ.cons e p) =
      Permᴰ-pushed (parse x.1) (parse y.1) (parsed m) (parsed n) (ap (λ x. parse x.1) e)
        (Permᴰ-parsed m n p)
  Permᴰ-parsed (x ∷ y ∷ m) (y' ∷ x' ∷ _) (Permᴰ.swap e e') =
      Permᴰ.trans (Permᴰ-pushed_twice (parse x.1) (parse y.1) (parsed m)) (
        Permᴰ-pushed (parse y.1) (parse y'.1) _ _ (ap (λ x. parse x.1) e')
          (Permᴰ-pushed (parse x.1) (parse x'.1) _ _ (ap (λ x. parse x.1) e) (Permᴰ.refl _)))
  Permᴰ-parsed m n (Permᴰ.trans {l₂ = l} p q) =
      Permᴰ.trans (Permᴰ-parsed m l p) (Permᴰ-parsed l n q)

  pub Perm-parsed : (m n : Map B) → Perm m n → Perm (parsed m) (parsed n)
  Perm-parsed m n p = ∥∥₁_elim p (hlevel) (λ q. ∣ Permᴰ-parsed m n q ∣₁)

module _ {B : Type 0} where
  abbrev pub row : Text → Result B → Map B → Map B
  row name (ok v) m = (config_key name, v) ∷ m
  row name (err e) m = m

pub starts_with-config_key : (n : Text) → starts_with prefix (config_key n) ≡ true
unfolding starts_with config_key
starts_with-config_key n = refl

pub text_eq-config_key : (n m : Text) → text_eq (config_key n) (config_key m) ≡ text_eq n m
unfolding text_eq config_key
text_eq-config_key n m = refl

module _ {B : Type 0} (codec : Codec B) where
  -- The bindings that a save writes.
  abbrev pub rows : List ProcessConfig → Map B
  rows [] = []
  rows (c ∷ cs) = row c.name (codec.to_vec c) (rows cs)

  pub lookup-row :
      (n j : Text) (r : Result B) (m : Map B)
      → text_eq (config_key n) j ≡ false
      → lookup j (row n r m) ≡ lookup j m
  unfolding lookup
  lookup-row n j (ok v) m h = rw h refl
  lookup-row n j (err e) m h = refl

  pub lookup-rows_absent :
      (n : Text) (cs : List ProcessConfig)
      → any (λ d. text_eq d.name n) cs ≡ false
      → lookup (config_key n) (rows cs) ≡ none
  unfolding lookup
  lookup-rows_absent n [] h = refl
  lookup-rows_absent n (c ∷ cs) h = ground (
    arith,
    lookup-row c.name (config_key n) (codec.to_vec c) (rows cs),
    text_eq-config_key c.name n,
    lookup-rows_absent n cs,
  )

  pub rows-IsDistinct : (cs : List ProcessConfig) → HasDistinctNames cs → IsDistinct (rows cs)
  rows-IsDistinct [] h = tt
  rows-IsDistinct (c ∷ cs) (a, h) = added (codec.to_vec c) (rows-IsDistinct cs h)
    where
      added : (r : Result B) → IsDistinct (rows cs) → IsDistinct (row c.name r (rows cs))
      added (ok v) d =
          (absent_key (config_key c.name) (rows cs) (lookup-rows_absent c.name cs a), d)
      added (err e) d = d

  pub other_key :
      (j : Text) (cs : List ProcessConfig)
      → starts_with prefix j ≡ false
      → lookup j (rows cs) ≡ none
  unfolding lookup
  other_key j [] h = refl
  other_key j (c ∷ cs) h = ground (
    arith,
    lookup-row c.name j (codec.to_vec c) (rows cs),
    text_eq_iff (config_key c.name) j,
    starts_with-config_key c.name,
    other_key j cs,
  )
