-- ===== src/Paths/Parents.antt =====
-- The parent of a path, and the file name that goes with it.
use nylon_run.Prelude.{
  ◌≡◌, ◌≢◌, refl, sym, ap, subst, ◌∙◌, Bool, true, false, Option, none, some, List, [], ◌∷◌, ◌++◌,
  Text, All, Lacks, retain, arith, codes, split, join, text_eq, ◌⊎◌, inl, inr, Bool-cases, ◌||◌,
  if◌then◌else◌,
}
use nylon_run.Prelude.Splits.{split-Lacks, split-append, split-All}
use nylon_run.Paths.{
  slash, is_absolute, is_component, names, leading_dot, components, last_of, file_name_of,
  file_name, without_last, parent_of, parent,
}
use nylon_run.Paths.Laws.{names_nil}

-- A name between two slashes, a `.` included.
abbrev IsPart : Text → Type 0
IsPart x = Lacks slash x × (x ≢ [])

All-append-left {ℓ} :
    {A : Type ℓ} (P : A → Type 0) (xs ys : List A) → All P (xs ++ ys) → All P xs × All P ys
All-append-left P [] ys h = (tt, h)
All-append-left P (x ∷ xs) ys (a, h) = let (l, r) = All-append-left P xs ys h in ((a, l), r)

empty_name : is_component [] ≡ false
unfolding is_component text_eq
empty_name = refl

retain-IsPart : (xs : List Text) → All (Lacks slash) xs → All IsPart (retain is_component xs)
retain-IsPart [] h = tt
retain-IsPart (x ∷ xs) (a, h) = elim (Bool-cases (is_component x)) [
  | inl e ↦
      rw e ((a, λ q. ground (arith, sym e ∙ ap is_component q ∙ empty_name)), retain-IsPart xs h)
  | inr e ↦ rw e (retain-IsPart xs h)
]

retain-holds {ℓ} : {A : Type ℓ} (p : A → Bool) (xs : List A) → All (λ x. p x ≡ true) (retain p xs)
retain-holds p [] = tt
retain-holds p (x ∷ xs) = elim (Bool-cases (p x)) [
  | inl e ↦ rw e (e, retain-holds p xs)
  | inr e ↦ rw e (retain-holds p xs)
]

retain_same {ℓ} :
    {A : Type ℓ} (p : A → Bool) (xs : List A) → All (λ x. p x ≡ true) xs → retain p xs ≡ xs
retain_same p [] h = refl
retain_same p (x ∷ xs) (e, h) = rw (e, retain_same p xs h) refl

names-join : (xs : List Text) → All IsPart xs → names (join (codes "/") xs) ≡ retain is_component xs
unfolding names join
names-join [] h = names_nil
names-join (x ∷ []) ((a, ne), _) = ap (retain is_component) (split-Lacks slash x a)
names-join (x ∷ y ∷ ys) ((a, ne), h) =
    ap (retain is_component) (split-append slash x (join (codes "/") (y ∷ ys)) a)
    ∙ ap (λ l. if is_component x then x ∷ l else l) (names-join (y ∷ ys) h)

is_absolute-join : (xs : List Text) → All IsPart xs → is_absolute (join (codes "/") xs) ≡ false
unfolding is_absolute join
is_absolute-join [] h = refl
is_absolute-join ([] ∷ xs) ((a, ne), h) = absurd (ne refl)
is_absolute-join ((c ∷ x) ∷ []) ((a, ne), h) = ground (arith, a)
is_absolute-join ((c ∷ x) ∷ y ∷ ys) ((a, ne), h) = ground (arith, a)

last_split : (y : Text) (ys : List Text) → y ∷ ys ≡ without_last (y ∷ ys) ++ last_of y ys ∷ []
unfolding last_of
last_split y [] = refl
last_split y (z ∷ ys) = ap (λ l. y ∷ l) (last_split z ys)

leading_cases : (p : Text) → (leading_dot p ≡ []) ⊎ (leading_dot p ≡ codes "." ∷ [])
unfolding leading_dot
leading_cases [] = inl refl
leading_cases (c ∷ []) = ground arith
leading_cases (c ∷ d ∷ p) = ground arith

dot_name : is_component (codes ".") ≡ false
unfolding is_component text_eq
dot_name = refl

dot-IsPart : IsPart (codes ".")
dot-IsPart = (ground arith, λ e. cc)

names-IsPart : (p : Text) → All IsPart (names p)
unfolding names
names-IsPart p = retain-IsPart (split slash p) (split-All slash p)

names-holds : (p : Text) → All (λ x. is_component x ≡ true) (names p)
unfolding names
names-holds p = retain-holds is_component (split slash p)

-- What `parent` and `file_name` say of a relative path with a file name: the names of the path are those of
-- its parent, which is relative, and the file name.
pub record IsParted (p f : Text) : Type 0 where
  pub dir : Text
  pub parent_is : parent p ≡ some dir
  pub dir_relative : is_absolute dir ≡ false
  pub names_are : names p ≡ names dir ++ f ∷ []
  pub plain_name : Lacks slash f

abbrev named : Text → Option Text
named f = if text_eq f (codes "..") || text_eq f (codes ".") then none else some f

-- A `.` at the start changes neither the file name nor the names of the parent.
fronted :
    (y : Text) (ys lead : List Text)
    → (lead ≡ []) ⊎ (lead ≡ codes "." ∷ [])
    → All IsPart (without_last (y ∷ ys))
    → retain is_component (without_last (y ∷ ys)) ≡ without_last (y ∷ ys)
    → (file_name_of (lead ++ y ∷ ys) ≡ named (last_of y ys))
      × (parent_of [] (lead ++ y ∷ ys) ≡ some (join (codes "/") (lead ++ without_last (y ∷ ys))))
      × All IsPart (lead ++ without_last (y ∷ ys))
      × (retain is_component (lead ++ without_last (y ∷ ys)) ≡ without_last (y ∷ ys))
unfolding file_name_of last_of parent_of
fronted y ys lead (inl e) parts whole = rw e (refl, refl, parts, whole)
fronted y ys lead (inr e) parts whole = rw e (refl, refl, (dot-IsPart, parts), rw dot_name whole)

named_some : (f l : Text) → named l ≡ some f → l ≡ f
named_some f l e = ground (arith, e)

parted :
    (p f y : Text) (ys lead : List Text)
    → (lead ≡ []) ⊎ (lead ≡ codes "." ∷ [])
    → is_absolute p ≡ false
    → components p ≡ lead ++ y ∷ ys
    → names p ≡ y ∷ ys
    → file_name p ≡ some f
    → IsParted p f
unfolding file_name parent
parted p f y ys lead l r c n e =
    let q = last_split y ys in
    let (parts, (plain, _)) =
      All-append-left IsPart (without_last (y ∷ ys)) (last_of y ys ∷ [])
        (subst (All IsPart) (n ∙ q) (names-IsPart p)) in
    let (whole, _) =
      All-append-left (λ x. is_component x ≡ true) (without_last (y ∷ ys)) (last_of y ys ∷ [])
        (subst (All (λ x. is_component x ≡ true)) (n ∙ q) (names-holds p)) in
    let (file, above, above_parts, kept) =
      fronted y ys lead l parts (retain_same is_component (without_last (y ∷ ys)) whole) in
    let f_is = named_some f (last_of y ys) (sym (ap file_name_of c ∙ file) ∙ e) in
    let dir_names = names-join (lead ++ without_last (y ∷ ys)) above_parts ∙ kept in
    record {
      dir = join (codes "/") (lead ++ without_last (y ∷ ys));
      parent_is = rw (r, c) above;
      dir_relative = is_absolute-join (lead ++ without_last (y ∷ ys)) above_parts;
      names_are =
          n
          ∙ q
          ∙ ap (λ d. d ++ last_of y ys ∷ []) (sym dir_names)
          ∙ ap (λ g. names (join (codes "/") (lead ++ without_last (y ∷ ys))) ++ g ∷ []) f_is;
      plain_name = subst (Lacks slash) f_is plain.0;
    }

unnamed : (p : Text) → names p ≡ [] → file_name p ≡ none
unfolding file_name components file_name_of last_of text_eq
unnamed p e = elim (leading_cases p) [ inl l ↦ rw (l, e) refl | inr l ↦ rw (l, e) refl ]

pub file_name-IsParted : (p f : Text) → is_absolute p ≡ false → file_name p ≡ some f → IsParted p f
file_name-IsParted p f r e = by_names (names p) refl
  where
    by_names : (ns : List Text) → names p ≡ ns → IsParted p f
    by_names [] n = cc (unnamed p n)
    by_names (y ∷ ys) n =
        parted p f y ys (leading_dot p) (leading_cases p) r
          (unfold components in ap (λ l. leading_dot p ++ l) n) n e
