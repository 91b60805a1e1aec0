-- ===== src/Paths/Laws.antt =====
-- Joining a path to a directory, and the component-wise prefix test.
use nylon_run.Prelude.{
  ℕ, ◌≡◌, refl, sym, ap, Bool, true, false, ◌&&◌, List, [], ◌∷◌, ◌++◌, append_assoc, append-nil,
  Text, retain, arith, split, text_eq, text_eq_refl, ◌==◌, Bool-cases, inl, inr, push_head, ◌≢◌,
}
use nylon_run.Prelude.Splits.{split-ne-nil}
use nylon_run.Paths.{
  slash, is_absolute, ends_with_slash, join_path, names, leading_dot, components, is_prefix,
  path_starts_with, same_root,
}

push_head-append :
    (c : ℕ) (ps qs : List Text) → ps ≢ [] → push_head c ps ++ qs ≡ push_head c (ps ++ qs)
push_head-append c [] qs h = absurd (h refl)
push_head-append c (p ∷ ps) qs h = refl

split-slash : (s t : Text) → split slash (s ++ slash ∷ t) ≡ split slash s ++ split slash t
unfolding split
split-slash [] t = refl
split-slash (c ∷ s) t = elim (Bool-cases (c == slash)) [
  | inl e ↦ rw (e, split-slash s t)
  | inr e ↦
      rw (e, split-slash s t)
        (sym (push_head-append c (split slash s) (split slash t) (split-ne-nil slash s)))
]

pub retain-append {ℓ} :
    {A : Type ℓ} (p : A → Bool) (xs ys : List A) → retain p (xs ++ ys) ≡ retain p xs ++ retain p ys
retain-append p [] ys = refl
retain-append p (x ∷ xs) ys = ground (arith, retain-append p xs ys)

names-slash : (s t : Text) → names (s ++ slash ∷ t) ≡ names s ++ names t
unfolding names
names-slash s t = rw (split-slash s t) (retain-append _ (split slash s) (split slash t))

-- What stands before a final slash.
strip_slash : (s : Text) → ends_with_slash s ≡ true → (d : Text) × (s ≡ d ++ slash ∷ [])
unfolding ends_with_slash
strip_slash [] h = cc
strip_slash (c ∷ []) h = ([], ground arith)
strip_slash (c ∷ d ∷ s) h = let (r, e) = strip_slash (d ∷ s) h in (c ∷ r, ap (λ t. c ∷ t) e)

pub names_nil : names [] ≡ []
unfolding names split text_eq
names_nil = refl

names-ends_with_slash :
    (dir p : Text) → ends_with_slash dir ≡ true → names (dir ++ p) ≡ names dir ++ names p
names-ends_with_slash dir p h =
    let (d, e) = strip_slash dir h in
    rw e (
      rw (append_assoc d (slash ∷ []) p, names-slash d p, names-slash d [], names_nil)
        (rw append-nil))

-- Joining a relative path puts its names behind those of the directory.
pub names-join_path :
    (dir p : Text)
    → dir ≢ []
    → is_absolute p ≡ false
    → names (join_path dir p) ≡ names dir ++ names p
unfolding join_path
names-join_path [] p ne h = absurd (ne refl)
names-join_path (c ∷ dir) p ne h = elim (Bool-cases (ends_with_slash (c ∷ dir))) [
  | inl e ↦ rw (h, e) (names-ends_with_slash (c ∷ dir) p e)
  | inr e ↦ rw (h, e) (names-slash (c ∷ dir) p)
]

leading_dot-join_path :
    (dir p : Text)
    → dir ≢ []
    → is_absolute p ≡ false
    → leading_dot (join_path dir p) ≡ leading_dot dir
unfolding join_path leading_dot ends_with_slash
leading_dot-join_path [] p ne h = absurd (ne refl)
leading_dot-join_path (c ∷ []) [] ne h = ground arith
leading_dot-join_path (c ∷ []) (d ∷ p) ne h = ground arith
leading_dot-join_path (c ∷ d ∷ dir) p ne h = ground arith

pub components-join_path :
    (dir p : Text)
    → dir ≢ []
    → is_absolute p ≡ false
    → components (join_path dir p) ≡ components dir ++ names p
unfolding components
components-join_path dir p ne h =
    rw (leading_dot-join_path dir p ne h, names-join_path dir p ne h)
      (sym (append_assoc (leading_dot dir) (names dir) (names p)))

is_prefix-append : (ps qs : List Text) → is_prefix ps (ps ++ qs) ≡ true
unfolding is_prefix
is_prefix-append [] qs = refl
is_prefix-append (p ∷ ps) qs = rw (text_eq_refl p) (is_prefix-append ps qs)

pub is_absolute-join_path :
    (dir p : Text)
    → dir ≢ []
    → is_absolute p ≡ false
    → is_absolute (join_path dir p) ≡ is_absolute dir
unfolding join_path
is_absolute-join_path [] p ne h = absurd (ne refl)
is_absolute-join_path (c ∷ dir) p ne h = ground arith

same_root_refl : (b : Bool) → same_root b b ≡ true
same_root_refl true = refl
same_root_refl false = refl

path_starts_with_lem :
    (p dir : Text)
    → path_starts_with p dir
      ≡ same_root (is_absolute p) (is_absolute dir) && is_prefix (components dir) (components p)
unfolding path_starts_with
path_starts_with_lem p dir = refl

-- A relative path joined to a directory has the directory as its prefix, whatever `..` it holds.
pub path_starts_with-join_path :
    (dir p : Text)
    → dir ≢ []
    → is_absolute p ≡ false
    → path_starts_with (join_path dir p) dir ≡ true
path_starts_with-join_path dir p ne h = rw (
  path_starts_with_lem (join_path dir p) dir,
  components-join_path dir p ne h,
  is_absolute-join_path dir p ne h,
  is_prefix-append (components dir) (names p),
  same_root_refl (is_absolute dir),
)
