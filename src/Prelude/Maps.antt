-- ===== src/Prelude/Maps.antt =====
-- A `HashMap<String, V>` as a list of bindings, one for each key. The order of the list stands for
-- the unspecified order in which the map is walked.
use nylon_run.Prelude.{
  ◌+◌, ◌≡◌, refl, Bool, true, false, Option, none, some, List, [], ◌∷◌, Text, arith, length,
  if◌then◌else◌, text_eq, text_eq_iff, text_eq_refl,
}

abbrev pub Map {ℓ} : Type ℓ → Type ℓ
Map V = List (Text × V)

module _ {ℓ} {V : Type ℓ} where
  unfoldable pub lookup : Text → Map V → Option V
  lookup k [] = none
  lookup k ((j, v) ∷ m) = if text_eq j k then some v else lookup k m

  -- A new binding goes to the end, an old one is replaced where it stands.
  unfoldable pub insert : Text → V → Map V → Map V
  insert k v [] = (k, v) ∷ []
  insert k v ((j, w) ∷ m) = if text_eq j k then (k, v) ∷ m else (j, w) ∷ insert k v m

  unfoldable pub remove : Text → Map V → Map V
  remove k [] = []
  remove k ((j, w) ∷ m) = let rest = remove k m in if text_eq j k then rest else (j, w) ∷ rest

  abbrev pub is_some : Option V → Bool
  is_some none = false
  is_some (some v) = true

  unfoldable pub contains_key : Text → Map V → Bool
  unfolding lookup
  contains_key k m = is_some (lookup k m)

module _ {ℓ} {V : Type ℓ} where
  -- No key stands twice.
  abbrev pub IsDistinct : Map V → Type 0
  IsDistinct [] = Unit
  IsDistinct ((k, v) ∷ m) = (contains_key k m ≡ false) × IsDistinct m

  pub lookup-insert :
      (k j : Text) (v : V) (m : Map V)
      → lookup j (insert k v m) ≡ (if text_eq k j then some v else lookup j m)
  unfolding lookup insert
  lookup-insert k j v [] = refl
  lookup-insert k j v ((key, old) ∷ m) =
      ground (arith, text_eq_iff k j, text_eq_iff key k, text_eq_iff key j, lookup-insert k j v m)

  pub lookup-remove :
      (k j : Text) (m : Map V) → lookup j (remove k m) ≡ (if text_eq k j then none else lookup j m)
  unfolding lookup remove
  lookup-remove k j [] = ground arith
  lookup-remove k j ((i, w) ∷ m) =
      ground (arith, text_eq_iff k j, text_eq_iff i k, text_eq_iff i j, lookup-remove k j m)

  pub contains_key-insert :
      (k j : Text) (v : V) (m : Map V)
      → contains_key j (insert k v m) ≡ (if text_eq k j then true else contains_key j m)
  unfolding contains_key
  contains_key-insert k j v m = ground (arith, lookup-insert k j v m)

  pub contains_key-remove :
      (k j : Text) (m : Map V)
      → contains_key j (remove k m) ≡ (if text_eq k j then false else contains_key j m)
  unfolding contains_key
  contains_key-remove k j m = ground (arith, lookup-remove k j m)

  pub insert-IsDistinct : (k : Text) (v : V) (m : Map V) → IsDistinct m → IsDistinct (insert k v m)
  unfolding insert
  insert-IsDistinct k v [] h = (unfold contains_key in refl, tt)
  insert-IsDistinct k v ((j, w) ∷ m) h = ground (
    arith,
    text_eq_iff j k,
    text_eq_iff k j,
    contains_key-insert k j v m,
    insert-IsDistinct k v m,
  )

  pub remove-IsDistinct : (k : Text) (m : Map V) → IsDistinct m → IsDistinct (remove k m)
  unfolding remove
  remove-IsDistinct k [] h = tt
  remove-IsDistinct k ((j, w) ∷ m) h =
      ground
        (arith, text_eq_iff j k, text_eq_iff k j, contains_key-remove k j m, remove-IsDistinct k m)

  pub absent_key : (k : Text) (m : Map V) → lookup k m ≡ none → contains_key k m ≡ false
  unfolding contains_key
  absent_key k m h = ground arith

  pub length-insert :
      (k : Text) (v : V) (m : Map V)
      → length (insert k v m) ≡ (if contains_key k m then length m else length m + 1)
  unfolding insert contains_key
  length-insert k v [] = ground arith
  length-insert k v ((j, w) ∷ m) = ground (arith, length-insert k v m)

  pub remove_absent : (k : Text) (m : Map V) → contains_key k m ≡ false → remove k m ≡ m
  unfolding remove contains_key
  remove_absent k [] h = refl
  remove_absent k ((j, w) ∷ m) h = ground (arith, remove_absent k m)

  pub length-remove :
      (k : Text) (m : Map V)
      → IsDistinct m
      → length m ≡ (if contains_key k m then length (remove k m) + 1 else length (remove k m))
  unfolding remove contains_key
  length-remove k [] h = refl
  length-remove k ((j, w) ∷ m) h =
      ground (arith, text_eq_iff j k, length-remove k m, remove_absent k m)

  -- A binding that was added is taken away again.
  pub remove-insert :
      (k : Text) (v : V) (m : Map V) → contains_key k m ≡ false → remove k (insert k v m) ≡ m
  unfolding remove insert contains_key
  remove-insert k v [] h = ground (arith, text_eq_refl k)
  remove-insert k v ((j, w) ∷ m) h = ground (arith, text_eq_refl k, remove-insert k v m)
