-- ===== src/Process/Logs/Rotation.antt =====
-- src/process.rs, `rotate_log_file`: where the contents of the log files go.
use nylon_run.Prelude.{
  ℕ, zero, suc, ◌+◌, ◌≤◌, ◌<◌, subst, ◌≡◌, ◌≢◌, refl, sym, ◌∙◌, true, false, Option, none, some, [],
  ◌∷◌, ◌++◌, ◌==◌, Bool-cases, inl, inr, Text, arith, text_eq, text_eq_iff, text_eq_refl,
  if◌then◌else◌,
}
use nylon_run.Prelude.Decimals.{decimal, parse_uint-decimal}
use nylon_run.System.{Os}
use nylon_run.Process.Logs.{rotated, shift, rotate_log_file, log_max_rotated}

-- What the rotation relies on of the file system: removing, renaming and creating a file change what
-- stands at the paths they name, and nothing else. Renaming a file that is not there changes nothing.
pub record IsFileSystem {W : Type 0} (os : Os W) : Type 0 where
  pub view : W → Text → Option Text
  pub view-remove_file :
      (p : Text) (w : W) (j : Text)
      → view (os.remove_file p w) j ≡ (if text_eq p j then none else view w j)
  pub view-rename :
      (p q : Text) (w : W) (j : Text)
      → text_eq p q ≡ false
      → view w q ≡ none
      → view (os.rename p q w) j
        ≡ (if text_eq q j then view w p else if text_eq p j then none else view w j)
  pub view-create :
      (p : Text) (w : W) (j : Text)
      → view (os.create p w) j ≡ (if text_eq p j then some [] else view w j)

text_eq-append : (s t u : Text) → text_eq (s ++ t) (s ++ u) ≡ text_eq t u
unfolding text_eq
text_eq-append [] t u = refl
text_eq-append (c ∷ s) t u = ground (arith, text_eq-append s t u)

text_eq-longer : (s t : Text) (c : ℕ) → text_eq s (s ++ c ∷ t) ≡ false
unfolding text_eq
text_eq-longer [] t c = refl
text_eq-longer (a ∷ s) t c = ground (arith, text_eq-longer s t c)

decimal_injective : (n m : ℕ) → decimal n ≡ decimal m → n ≡ m
decimal_injective n m e = ground (
  arith,
  e,
  parse_uint-decimal (n + m) n (omega arith),
  parse_uint-decimal (n + m) m (omega arith),
)

rotated_injective :
    (path : Text) (n m : ℕ) → text_eq (rotated path n) (rotated path m) ≡ true → n ≡ m
unfolding rotated text_eq
rotated_injective path n m e = decimal_injective n m (
    (text_eq_iff (decimal n) (decimal m)).0
      (sym (text_eq-append path (b'.' ∷ decimal n) (b'.' ∷ decimal m)) ∙ e))

path-rotated : (path : Text) (n : ℕ) → text_eq path (rotated path n) ≡ false
unfolding rotated
path-rotated path n = text_eq-longer path (decimal n) 46

module _ {W : Type 0} (os : Os W) (files : IsFileSystem os) where
  abbrev pub HasShifted : Text → ℕ → W → W → Type 0
  HasShifted path n w w' =
      ((k : ℕ)
        → 1 ≤ k
        → k ≤ n
        → files.view w' (rotated path (k + 1)) ≡ files.view w (rotated path k))
      × (files.view w' (rotated path 1) ≡ none)
      × ((j : Text)
          → ((i : ℕ) → 1 ≤ i → i ≤ n + 1 → text_eq (rotated path i) j ≡ false)
          → files.view w' j ≡ files.view w j)

  rotated_apart :
      (path : Text) (n m : ℕ) → n ≢ m → text_eq (rotated path n) (rotated path m) ≡ false
  rotated_apart path n m h = ground (arith, rotated_injective path n m)

  shift-HasShifted :
      (path : Text) (n : ℕ) (w : W)
      → files.view w (rotated path (n + 1)) ≡ none
      → HasShifted path n w (shift os path n w)
  unfolding shift
  shift-HasShifted path zero w h = (λ k a b. ground arith, h, λ j f. refl)
  shift-HasShifted path (suc n) w h =
      let (moved, first, same) = shift-HasShifted path n w1 vacated in
      (
        λ k a b. elim (Bool-cases (k == n + 1)) [
          | inl e ↦
              subst
                (λ i.
                  files.view (shift os path n w1) (rotated path (i + 1))
                  ≡ files.view w (rotated path i))
                (ground (arith, e))
                (subst
                  (λ i.
                    files.view (shift os path n w1) (rotated path i)
                    ≡ files.view w (rotated path (n + 1)))
                  (omega arith) (last same))
          | inr e ↦
              moved k a (ground (arith, b, e))
              ∙ unmoved (rotated path k) (rotated_apart path (n + 2) k (λ q. ground (arith, q, b)))
                  (rotated_apart path (n + 1) k (λ q. ground (arith, q, e)))
        ],
        first,
        λ j f.
            same j (λ i a b. f i a (omega (arith, b)))
            ∙ unmoved j (f (n + 2) (omega arith) (omega arith))
                (f (n + 1) (omega arith) (omega arith)),
      )
    where
      w1 : W
      w1 = os.rename (rotated path (n + 1)) (rotated path (n + 2)) w

      at :
          (j : Text)
          → files.view w1 j ≡ (
              if text_eq (rotated path (n + 2)) j
              then files.view w (rotated path (n + 1))
              else if text_eq (rotated path (n + 1)) j
              then none
              else files.view w j)
      at j =
          files.view-rename (rotated path (n + 1)) (rotated path (n + 2)) w j
            (rotated_apart path (n + 1) (n + 2) (λ e. omega (arith, e)))
            (subst (λ i. files.view w (rotated path i) ≡ none) (omega arith) h)

      unmoved :
          (j : Text)
          → text_eq (rotated path (n + 2)) j ≡ false
          → text_eq (rotated path (n + 1)) j ≡ false
          → files.view w1 j ≡ files.view w j
      unmoved j a b = ground (arith, at j)

      vacated : files.view w1 (rotated path (n + 1)) ≡ none
      vacated = ground (
        arith,
        at (rotated path (n + 1)),
        rotated_apart path (n + 2) (n + 1) (λ e. omega (arith, e)),
        text_eq_refl (rotated path (n + 1)),
      )

      last :
          ((j : Text)
            → ((i : ℕ) → 1 ≤ i → i ≤ n + 1 → text_eq (rotated path i) j ≡ false)
            → files.view (shift os path n w1) j ≡ files.view w1 j)
          → files.view (shift os path n w1) (rotated path (n + 2))
            ≡ files.view w (rotated path (n + 1))
      last same = ground (
        arith,
        same (rotated path (n + 2))
            (λ i a b. rotated_apart path i (n + 2) (λ e. omega (arith, e, b))),
        at (rotated path (n + 2)),
        text_eq_refl (rotated path (n + 2)),
      )

  -- The files `.1` to `.4` move up, the log becomes `.1`, and it is empty.
  abbrev pub IsRotated : Text → W → W → Type 0
  IsRotated path w w' =
      ((k : ℕ)
        → 1 ≤ k
        → k < log_max_rotated
        → files.view w' (rotated path (k + 1)) ≡ files.view w (rotated path k))
      × (files.view w' (rotated path 1) ≡ files.view w path)
      × (files.view w' path ≡ some [])
      × ((j : Text)
          → text_eq path j ≡ false
          → ((i : ℕ) → 1 ≤ i → i ≤ log_max_rotated → text_eq (rotated path i) j ≡ false)
          → files.view w' j ≡ files.view w j)

  -- Let every call on the file system do what it is asked for. After a rotation each of the files `.2` to
  -- `.5` holds what the one before it held, or is missing as that was; `.1` holds what the log held; the
  -- log is there and empty; and every other file is as it was. What `.5` held is gone.
  pub rotate_log_file-IsRotated :
      (path : Text) (w : W) → IsRotated path w (rotate_log_file os path w)
  unfolding rotate_log_file
  rotate_log_file-IsRotated path w =
      let (moved, first, same) = shift-HasShifted path 4 w1 oldest in
      (
        λ k a b. other k (omega (arith, a)) first ∙ moved k a (omega (arith, b)) ∙ kept k b,
        ended first (rotated path 1)
            ∙ ground (
              arith,
              path-rotated path 1,
              text_eq_refl (rotated path 1),
              same path (λ i a b. apart i),
              removed path,
              apart 5,
            ),
        ended first path ∙ ground (arith, text_eq_refl path),
        λ j p f.
            ended first j
            ∙ ground (
              arith,
              p,
              f 1 (omega arith) (omega arith),
              f 5 (omega arith) (omega arith),
              same j f,
              removed j,
            ),
      )
    where
      w1 : W
      w1 = os.remove_file (rotated path 5) w

      w2 : W
      w2 = shift os path 4 w1

      removed :
          (j : Text)
          → files.view w1 j ≡ (if text_eq (rotated path 5) j then none else files.view w j)
      removed j = files.view-remove_file (rotated path 5) w j

      oldest : files.view w1 (rotated path 5) ≡ none
      oldest = ground (arith, removed (rotated path 5), text_eq_refl (rotated path 5))

      apart : (i : ℕ) → text_eq (rotated path i) path ≡ false
      apart i = ground (
        arith,
        path-rotated path i,
        text_eq_iff path (rotated path i),
        text_eq_iff (rotated path i) path,
      )

      kept : (k : ℕ) → k < 5 → files.view w1 (rotated path k) ≡ files.view w (rotated path k)
      kept k b =
          ground
            (arith, removed (rotated path k), rotated_apart path 5 k (λ e. omega (arith, e, b)))

      ended :
          files.view w2 (rotated path 1) ≡ none
          → (j : Text)
          → files.view (rotate_log_file os path w) j ≡ (
              if text_eq path j
              then some []
              else if text_eq (rotated path 1) j
              then files.view w2 path
              else files.view w2 j)
      ended first j = ground (
        arith,
        files.view-create path (os.rename path (rotated path 1) w2) j,
        files.view-rename path (rotated path 1) w2 j (path-rotated path 1) first,
      )

      other :
          (k : ℕ)
          → 1 ≤ k
          → files.view w2 (rotated path 1) ≡ none
          → files.view (rotate_log_file os path w) (rotated path (k + 1))
            ≡ files.view w2 (rotated path (k + 1))
      other k a first =
          ended first (rotated path (k + 1))
          ∙ ground (
            arith,
            path-rotated path (k + 1),
            rotated_apart path 1 (k + 1) (λ e. omega (arith, e, a)),
          )
