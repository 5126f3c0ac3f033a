-- ===== src/Market/Detection.antt =====
-- The search for a simple fraction of internal/market/adjustments.go finds what there is, and the
-- detector of actions loses no step.
use mathlib.Core.Path.{subst}
use verdict_machine.Base.{
  ℕ, zero, suc, ◌+◌, ◌≤◌, ◌<◌, ◌≡◌, refl, true, false, ◌||◌, Option, none, some, List, [], ◌∷◌,
  ◌==◌, inl, inr, length, All, All-append, length-append, arith, Bool-cases, Option-cases, ==_iff,
  sym,
}
use verdict_machine.Base.Result.{ok, ok-injective}
use verdict_machine.Float.{Float, nought, whole}
use verdict_machine.Market.Actions.{
  StepRow, Adjustment, is_corroborated, adjustment_of, classify_as, DetectionSummary, fraction,
  is_match, is_small, scan_nums, scan_dens, simple_fraction, classify, classify_all,
  detect_adjustments,
}

module _ {F : Type 0} ⦃fl : Float F⦄ (r tol : F) where
  -- `o` is the first numerator of `left` from `num` on that matches over `den`, if one does.
  abbrev IsFirst : ℕ → ℕ → ℕ → Option ℕ → Type 0
  IsFirst den num left none = (n : ℕ) → num ≤ n → n < num + left → is_match r tol n den ≡ false
  IsFirst den num left (some n) = (num ≤ n) × (n < num + left) × (is_match r tol n den ≡ true)

  IsFirst-later :
      (den num left : ℕ) (o : Option ℕ)
      → is_match r tol num den ≡ false
      → IsFirst den (suc num) left o
      → IsFirst den num (suc left) o
  IsFirst-later den num left none missed h = λ n lo hi. elim (Bool-cases (n == num)) [
    | inl e ↦ subst (λ n. is_match r tol n den ≡ false) (sym ((==_iff n num).0 e)) missed
    | inr e ↦ h n (ground arith) (omega arith)
  ]
  IsFirst-later den num left (some n) missed (lo, hi, matched) = (omega arith, omega arith, matched)

  scan_nums-IsFirst : (den num left : ℕ) → IsFirst den num left (scan_nums r tol den num left)
  unfolding scan_nums
  scan_nums-IsFirst den num zero = λ n lo hi. absurd (omega arith)
  scan_nums-IsFirst den num (suc left) = elim (Bool-cases (is_match r tol num den)) [
    | inl e ↦ rw e (omega arith, omega arith, e)
    | inr e ↦ rw e (IsFirst-later den num left _ e (scan_nums-IsFirst den (suc num) left))
  ]

  -- `o` is a fraction in the range that matches, or there is none.
  abbrev pub IsFound : ℕ → ℕ → Option (ℕ × ℕ) → Type 0
  IsFound den left none =
      (p q : ℕ) → 1 ≤ p → p ≤ 20 → den ≤ q → q < den + left → is_match r tol p q ≡ false
  IsFound den left (some (p, q)) =
      (1 ≤ p) × (p ≤ 20) × (den ≤ q) × (q < den + left) × (is_match r tol p q ≡ true)

  IsFound-later :
      (den left : ℕ) (o : Option (ℕ × ℕ))
      → ((n : ℕ) → 1 ≤ n → n < 1 + 20 → is_match r tol n den ≡ false)
      → IsFound (suc den) left o
      → IsFound den (suc left) o
  IsFound-later den left none missed h = λ p q lo hi ql qh. elim (Bool-cases (q == den)) [
    | inl e ↦
        subst (λ q. is_match r tol p q ≡ false) (sym ((==_iff q den).0 e))
          (missed p lo (omega arith))
    | inr e ↦ h p q lo hi (ground arith) (omega arith)
  ]
  IsFound-later den left (some (p, q)) missed (lo, hi, ql, qh, matched) =
      (lo, hi, omega arith, omega arith, matched)

  scan_dens-IsFound : (den left : ℕ) → IsFound den left (scan_dens r tol den left)
  unfolding scan_dens
  scan_dens-IsFound den zero = λ p q lo hi ql qh. absurd (omega arith)
  scan_dens-IsFound den (suc left) = elim (Option-cases (scan_nums r tol den 1 20)) [
    | inl e ↦
        rw (scan_dens, e)
          (IsFound-later den left _ (subst (IsFirst den 1 20) e (scan_nums-IsFirst den 1 20))
            (scan_dens-IsFound (suc den) left))
    | inr (n, e) ↦
        let (lo, hi, matched) = subst (IsFirst den 1 20) e (scan_nums-IsFirst den 1 20) in
        rw (scan_dens, e) (lo, omega arith, omega arith, omega arith, matched)
  ]

-- SimpleFraction, at a ratio that is positive and moves by the least step or more, returns a matching
-- fraction with a numerator in 1..20 and a denominator in 1..10 that differ; where it returns none, no
-- such fraction matches.
pub simple_fraction-IsFound :
    {F : Type 0} ⦃fl : Float F⦄ (r tol : F)
    → is_small r ≡ false
    → IsFound r tol 1 10 (simple_fraction r tol)
unfolding simple_fraction
simple_fraction-IsFound r tol h = rw h (scan_dens-IsFound r tol 1 10)

-- What a match must be for the adjustment made from it to be an action.
abbrev IsMatch : Option (ℕ × ℕ) → Type 0
IsMatch none = Unit
IsMatch (some (num, den)) = (1 ≤ num) × (num ≤ 20) × (1 ≤ den) × (den ≤ 10) × ((num == den) ≡ false)

module _ {F : Type 0} ⦃fl : Float F⦄ where
  -- A ratio of two small numbers that differ.
  abbrev pub IsAction : Adjustment F → Type 0
  IsAction a =
      (1 ≤ a.num)
      × (a.num ≤ 20)
      × (1 ≤ a.den)
      × (a.den ≤ 10)
      × ((a.num == a.den) ≡ false)
      × (a.ratio ≡ fraction a.num a.den)

  -- Every one of the `n` steps is an action or is counted as to why it is none.
  abbrev pub IsDetected : ℕ → DetectionSummary × List (Adjustment F) → Type 0
  IsDetected n (sum, out) =
      (sum.steps ≡ n)
      × (sum.steps ≡ sum.share_actions + sum.unclassified + sum.uncorroborated)
      × (length out ≡ sum.share_actions)
      × All IsAction out

  simple_fraction-small : (r tol : F) → is_small r ≡ true → simple_fraction r tol ≡ none
  unfolding simple_fraction
  simple_fraction-small r tol h = rw h refl

  simple_fraction-bounds :
      (r tol : F) (num den : ℕ)
      → simple_fraction r tol ≡ some (num, den)
      → (1 ≤ num) × (num ≤ 20) × (1 ≤ den) × (den ≤ 10) × ((num == den) ≡ false)
  simple_fraction-bounds r tol num den h = elim (Bool-cases (is_small r)) [
    | inl e ↦ cc (simple_fraction-small r tol e)
    | inr e ↦
        let (lo, hi, ql, qh, matched) =
          subst (IsFound r tol 1 10) h (simple_fraction-IsFound r tol e) in
        (lo, hi, ql, omega arith, ground arith)
  ]

  simple_fraction-IsMatch : (r tol : F) → IsMatch (simple_fraction r tol)
  simple_fraction-IsMatch r tol = elim (Option-cases (simple_fraction r tol)) [
    | inl e ↦ rw e tt
    | inr ((num, den), e) ↦ rw e (simple_fraction-bounds r tol num den e)
  ]

  classify_as-IsDetected :
      (row : StepRow F) (n : ℕ) (seen : DetectionSummary × List (Adjustment F)) (o : Option (ℕ × ℕ))
      → IsMatch o
      → IsDetected n seen
      → IsDetected (n + 1) (classify_as row seen o)
  unfolding classify_as
  classify_as-IsDetected row n (sum, out) none m (steps, split, found, actions) =
      (omega arith, omega arith, found, actions)
  classify_as-IsDetected row n (sum, out) (some (num, den)) (lo, hi, ql, qh, ne)
        (steps, split, found, actions) =
      elim (Bool-cases (is_corroborated row (fraction num den))) [
        | inl e ↦ rw e (
          omega arith,
          omega arith,
          omega (arith, length-append out (adjustment_of row num den ∷ [])),
          All-append IsAction out _ actions ((lo, hi, ql, qh, ne, refl), tt),
        )
        | inr e ↦ rw e (omega arith, omega arith, found, actions)
      ]

  classify_all-IsDetected :
      (tol : F) (rows : List (StepRow F)) (n m : ℕ) (seen : DetectionSummary × List (Adjustment F))
      → n + length rows ≡ m
      → IsDetected n seen
      → IsDetected m (classify_all tol rows seen)
  unfolding classify_all classify
  classify_all-IsDetected tol [] n m seen e h = subst (λ m. IsDetected m seen) (omega arith) h
  classify_all-IsDetected tol (row ∷ rows) n m seen e h =
      classify_all-IsDetected tol rows (n + 1) m (classify tol row seen) (omega arith) (
        classify_as-IsDetected row n seen (simple_fraction row.ratio tol)
          (simple_fraction-IsMatch row.ratio tol) h)

  -- Where DetectAdjustments succeeds, it has counted every row of its query once, as an action, as
  -- unclassified or as uncorroborated; it returns one adjustment for each of the actions, whose ratio
  -- is the quotient of a numerator in 1..20 and of a denominator in 1..10 that differ.
  pub detect_adjustments-IsDetected :
      (rows : List (StepRow F))
      → (min_step frac_tol : F) → (found : DetectionSummary × List (Adjustment F))
      → detect_adjustments rows min_step frac_tol ≡ ok found
      → IsDetected (length rows) found
  unfolding detect_adjustments
  detect_adjustments-IsDetected rows min_step frac_tol found h =
      elim (Bool-cases (fl.le min_step nought || fl.le (whole 1) min_step)) [
        | inl e ↦ cc (rw e at h)
        | inr e ↦ subst (IsDetected (length rows)) (ok-injective _ found (rw e at h)) (
            classify_all-IsDetected frac_tol rows 0 (length rows) _ (omega arith)
              (omega arith, omega arith, refl, tt))
      ]
