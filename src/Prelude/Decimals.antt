-- ===== src/Prelude/Decimals.antt =====
-- Decimal print and parse: `to_string` of an unsigned integer, and `str::parse::<u16>()` and
-- `str::parse::<u64>()`, which differ by the largest value.
use nylon_run.Prelude.{
  ◌∙◌, sym, ◌⊎◌, inl, inr, Bool-cases, ℕ, zero, suc, ◌+◌, ◌-◌, ◌*◌, ◌/◌, ◌%◌, ◌^◌, ◌≤◌, ◌<◌, ◌≡◌,
  refl, ◌≢◌, ◌||◌, Option, none, some, [], ◌∷◌, Text, arith, All, ltb, ◌==◌, if◌then◌else◌,
}

abbrev pub max_u16 : ℕ
max_u16 = 65535

abbrev pub max_u64 : ℕ
max_u64 = 2 ^ 64 - 1

-- The rounds divide by ten, so the number itself bounds how many there are.
emit : ℕ → ℕ → Text → Text
emit zero n out = out
emit (suc fuel) n out =
    let more = emit fuel (n / 10) ((b'0' + n % 10) ∷ out) in
    if ltb n 10 then (b'0' + n) ∷ out else more

unfoldable pub decimal : ℕ → Text
unfolding emit
decimal n = emit (n + 1) n []

-- The digits behind the number read so far; a value past `top` is an error.
scan : ℕ → Text → ℕ → Option ℕ
scan top [] n = some n
scan top (c ∷ s) n =
    if ltb c b'0' || ltb b'9' c
    then none
    else if ltb top (n * 10 + (c - b'0'))
    then none
    else scan top s (n * 10 + (c - b'0'))

scan_digits : ℕ → Text → Option ℕ
scan_digits top [] = none
scan_digits top (c ∷ s) = scan top (c ∷ s) 0

-- A leading `+` is accepted, no digit at all is not.
unfoldable pub parse_uint : ℕ → Text → Option ℕ
unfolding scan scan_digits
parse_uint top [] = none
parse_uint top (c ∷ s) = if c == b'+' then scan_digits top s else scan_digits top (c ∷ s)

abbrev pub IsDigit : ℕ → Type 0
IsDigit c = (b'0' ≤ c) × (c ≤ b'9')

emit-IsDigit : (fuel n : ℕ) (out : Text) → All IsDigit out → All IsDigit (emit fuel n out)
unfolding emit
emit-IsDigit zero n out h = h
emit-IsDigit (suc fuel) n out h = ground (arith, emit-IsDigit fuel (n / 10) ((b'0' + n % 10) ∷ out))

pub decimal-IsDigit : (n : ℕ) → All IsDigit (decimal n)
unfolding decimal
decimal-IsDigit n = emit-IsDigit (n + 1) n [] tt

scan-le : (top : ℕ) (s : Text) (n r : ℕ) → n ≤ top → scan top s n ≡ some r → r ≤ top
unfolding scan
scan-le top [] n r fits h = ground arith
scan-le top (c ∷ s) n r fits h = ground (arith, scan-le top s (n * 10 + (c - b'0')) r)

parse_uint_cases :
    (top c : ℕ) (s : Text)
    → (parse_uint top (c ∷ s) ≡ scan_digits top s)
      ⊎ (parse_uint top (c ∷ s) ≡ scan_digits top (c ∷ s))
unfolding parse_uint
parse_uint_cases top c s = elim (Bool-cases (c == b'+')) [
  | inl e ↦ inl (rw (e, if◌then◌else◌))
  | inr e ↦ inr (rw (e, if◌then◌else◌))
]

parse_uint_nil : (top n : ℕ) → parse_uint top [] ≡ some n → n ≤ top
unfolding parse_uint
parse_uint_nil top n h = cc

scan_digits-le : (top : ℕ) (s : Text) (r : ℕ) → scan_digits top s ≡ some r → r ≤ top
unfolding scan_digits
scan_digits-le top [] r h = cc
scan_digits-le top (c ∷ s) r h = scan-le top (c ∷ s) 0 r (omega arith) h

-- An accepted number is in range.
pub parse_uint-le : (top : ℕ) (s : Text) (n : ℕ) → parse_uint top s ≡ some n → n ≤ top
parse_uint-le top [] n h = parse_uint_nil top n h
parse_uint-le top (c ∷ s) n h = go (parse_uint_cases top c s) h
  where
    go :
        (parse_uint top (c ∷ s) ≡ scan_digits top s)
          ⊎ (parse_uint top (c ∷ s) ≡ scan_digits top (c ∷ s))
        → parse_uint top (c ∷ s) ≡ some n
        → n ≤ top
    go (inl e) h = scan_digits-le top s n (sym e ∙ h)
    go (inr e) h = scan_digits-le top (c ∷ s) n (sym e ∙ h)

-- Reading the last digit of `n` behind the digits before it gives `n`.
scan_last :
    (top n : ℕ) (out : Text) → n ≤ top → scan top ((b'0' + n % 10) ∷ out) (n / 10) ≡ scan top out n
unfolding scan
scan_last top n out h = ground arith

scan-emit :
    (top fuel n : ℕ) (out : Text)
    → n < fuel
    → n ≤ top
    → scan top (emit fuel n out) 0 ≡ scan top out n
unfolding emit
scan-emit top zero n out h fits = absurd (omega arith)
scan-emit top (suc fuel) n out h fits = ground (
  arith,
  scan_small top n out fits,
  scan_last top n out fits,
  scan-emit top fuel (n / 10) ((b'0' + n % 10) ∷ out),
)
  where
    scan_small :
        (top n : ℕ) (out : Text) → n ≤ top → n < 10 → scan top ((b'0' + n) ∷ out) 0 ≡ scan top out n
    scan_small top n out fits h = unfold scan in ground arith

parse_uint_digits : (top : ℕ) (s : Text) → s ≢ [] → All IsDigit s → parse_uint top s ≡ scan top s 0
unfolding parse_uint
parse_uint_digits top [] h _ = absurd (h refl)
parse_uint_digits top (c ∷ s) _ h = ground arith

emit-ne-nil : (fuel n : ℕ) (out : Text) → out ≢ [] → emit fuel n out ≢ []
unfolding emit
emit-ne-nil zero n out h = h
emit-ne-nil (suc fuel) n out h = ground (arith, emit-ne-nil fuel (n / 10) ((b'0' + n % 10) ∷ out))

decimal-ne-nil : (n : ℕ) → decimal n ≢ []
unfolding decimal emit
decimal-ne-nil n = go n (n + 1) (omega arith)
  where
    go : (n fuel : ℕ) → 0 < fuel → emit fuel n [] ≢ []
    go n zero h = absurd (omega arith)
    go n (suc fuel) h = ground (arith, emit-ne-nil fuel (n / 10) ((b'0' + n % 10) ∷ []))

-- Every number in range is read back from its print.
pub parse_uint-decimal : (top n : ℕ) → n ≤ top → parse_uint top (decimal n) ≡ some n
unfolding decimal
parse_uint-decimal top n fits =
    parse_uint_digits top (decimal n) (decimal-ne-nil n) (decimal-IsDigit n)
    ∙ scan-emit top (n + 1) n [] (omega arith) fits
    ∙ unfold scan in refl
