-- ===== src/Prelude/Splits.antt =====
-- Laws of the functions that cut a text at a separator.
use nylon_run.Prelude.{
  List, All, push_head, ◌==◌, ◌∙◌, ℕ, ◌≡◌, refl, ◌≢◌, none, some, [], ◌∷◌, ◌++◌, Text, arith, Lacks,
  split, first_part, split_once, last_part, contains, Lacks-contains, contains-Lacks, Bool-cases,
  inl, inr, true, is_substring,
}

module _ (sep : ℕ) where
  pub split-Lacks : (s : Text) → Lacks sep s → split sep s ≡ s ∷ []
  unfolding split
  split-Lacks [] h = refl
  split-Lacks (c ∷ s) h = ground (arith, split-Lacks s)

  pub split-append :
      (p rest : Text) → Lacks sep p → split sep (p ++ sep ∷ rest) ≡ p ∷ split sep rest
  unfolding split
  split-append [] rest h = ground arith
  split-append (c ∷ p) rest h = ground (arith, split-append p rest)

  pub first_part-Lacks : (s : Text) → Lacks sep s → first_part sep s ≡ s
  unfolding first_part
  first_part-Lacks [] h = refl
  first_part-Lacks (c ∷ s) h = ground (arith, first_part-Lacks s)

  pub first_part-append : (p rest : Text) → Lacks sep p → first_part sep (p ++ sep ∷ rest) ≡ p
  unfolding first_part
  first_part-append [] rest h = ground arith
  first_part-append (c ∷ p) rest h = ground (arith, first_part-append p rest)

  pub Lacks-first_part : (s : Text) → Lacks sep (first_part sep s)
  unfolding first_part
  Lacks-first_part [] = tt
  Lacks-first_part (c ∷ s) = ground (arith, Lacks-first_part s)

  pub split_once-append :
      (p rest : Text) → Lacks sep p → split_once sep (p ++ sep ∷ rest) ≡ some (p, rest)
  unfolding split_once
  split_once-append [] rest h = ground arith
  split_once-append (c ∷ p) rest h = ground (arith, split_once-append p rest)

  pub split_once-Lacks : (s : Text) → Lacks sep s → split_once sep s ≡ none
  unfolding split_once
  split_once-Lacks [] h = refl
  split_once-Lacks (c ∷ s) h = ground (arith, split_once-Lacks s)

  pub last_part-Lacks : (s : Text) → Lacks sep s → last_part sep s ≡ s
  unfolding last_part
  last_part-Lacks [] h = refl
  last_part-Lacks (c ∷ s) h = ground (arith, Lacks-contains sep s)

  pub contains-append : (p rest : Text) → contains sep (p ++ sep ∷ rest) ≡ true
  unfolding contains
  contains-append [] rest = ground arith
  contains-append (c ∷ p) rest = ground (arith, contains-append p rest)

  last_part_at_sep : (rest : Text) → last_part sep (sep ∷ rest) ≡ last_part sep rest
  unfolding last_part
  last_part_at_sep rest = elim (Bool-cases (contains sep rest)) [
    | inl e ↦ ground (arith, e)
    | inr e ↦ ground (arith, e, last_part-Lacks rest (contains-Lacks sep rest e))
  ]

  last_part_step :
      (c : ℕ) (s : Text) → contains sep s ≡ true → last_part sep (c ∷ s) ≡ last_part sep s
  unfolding last_part
  last_part_step c s h = ground arith

  pub last_part-append : (p rest : Text) → last_part sep (p ++ sep ∷ rest) ≡ last_part sep rest
  last_part-append [] rest = last_part_at_sep rest
  last_part-append (c ∷ p) rest =
      last_part_step c (p ++ sep ∷ rest) (contains-append p rest) ∙ last_part-append p rest

  pub split-ne-nil : (s : Text) → split sep s ≢ []
  unfolding split
  split-ne-nil [] = cc
  split-ne-nil (c ∷ s) = ground (arith, split-ne-nil s)

  push_head-All :
      (c : ℕ) (ps : List Text) → c ≢ sep → All (Lacks sep) ps → All (Lacks sep) (push_head c ps)
  push_head-All c [] h k = ((h, tt), tt)
  push_head-All c (p ∷ ps) h (k, l) = ((h, k), l)

  -- No part holds the separator.
  pub split-All : (s : Text) → All (Lacks sep) (split sep s)
  unfolding split
  split-All [] = (tt, tt)
  split-All (c ∷ s) = elim (Bool-cases (c == sep)) [
    | inl e ↦ rw e (tt, split-All s)
    | inr e ↦ rw e (push_head-All c (split sep s) (ground (arith, e)) (split-All s))
  ]

pub is_substring-append : (p t s : Text) → is_substring p s ≡ true → is_substring p (t ++ s) ≡ true
unfolding is_substring
is_substring-append p [] s h = h
is_substring-append p (c ∷ t) s h = ground (arith, is_substring-append p t s h)
