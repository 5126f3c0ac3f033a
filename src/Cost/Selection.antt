-- ===== src/Cost/Selection.antt =====
-- Which entry `rateFor` picks: the most specific that applies, and of those the latest.
use verdict_machine.Base.{
  ℕ, ◌<◌, ◌≤◌, ◌≡◌, ◌⊎◌, inl, inr, refl, List, [], ◌∷◌, Option, none, some, Bool, true, false, ◌&&◌,
  ◌||◌, arith, ltb, ◌==◌, All, IsIn, Bool-cases,
}
use verdict_machine.Time.{Time}
use verdict_machine.Cost.Product.{Product}
use verdict_machine.Cost.Side.{Side}
use verdict_machine.Cost.Component.{Component}
use verdict_machine.Cost.Model.{Result, ok, err, no_rate}
use verdict_machine.Cost.Schedule.{
  Rate, Schedule, specificity, applies, is_better, consider, best_of, rate_for,
}

-- `is_better` on the specificity, the day and the time of two entries.
abbrev ahead : (n d t m e u : ℕ) → Bool
ahead n d t m e u = ltb m n || (n == m && (ltb e d || (e == d && ltb u t)))

-- That an entry is not ahead of another.
abbrev IsBehind : (n d t m e u : ℕ) → Type 0
IsBehind n d t m e u = (n < m) ⊎ ((n ≡ m) × ((d < e) ⊎ ((d ≡ e) × (t ≤ u))))

IsBehind-of_ahead : (n d t m e u : ℕ) → ahead n d t m e u ≡ false → IsBehind n d t m e u
IsBehind-of_ahead n d t m e u h = ground arith

ahead_of_IsBehind : (n d t m e u : ℕ) → IsBehind n d t m e u → ahead n d t m e u ≡ false
ahead_of_IsBehind n d t m e u h = ground arith

IsBehind-trans :
    (n d t m e u k f v : ℕ) → IsBehind n d t m e u → IsBehind m e u k f v → IsBehind n d t k f v
IsBehind-trans n d t m e u k f v (inl p) (inl q) = inl (omega arith)
IsBehind-trans n d t m e u k f v (inl p) (inr (q, _)) = inl (omega arith)
IsBehind-trans n d t m e u k f v (inr (p, _)) (inl q) = inl (omega arith)
IsBehind-trans n d t m e u k f v (inr (p, x)) (inr (q, y)) = inr (omega arith, omega arith)

ahead_asym : (n d t m e u : ℕ) → ahead n d t m e u ≡ true → ahead m e u n d t ≡ false
ahead_asym n d t m e u h = ground arith

and-true : (a b : Bool) → (a && b) ≡ true → (a ≡ true) × (b ≡ true)
and-true a b h = ground arith

and-false : (a b : Bool) → (a && b) ≡ false → a ≡ true → b ≡ false
and-false a b h k = ground arith

module _ {F : Type 0} where
  is_better_asym : (a b : Rate F) → is_better a b ≡ true → is_better b a ≡ false
  unfolding is_better
  is_better_asym a b h =
      ahead_asym (specificity a) a.effective_from.day a.effective_from.nanos (specificity b)
        b.effective_from.day b.effective_from.nanos h

  is_better_weak_trans :
      (a b c : Rate F) → is_better a b ≡ false → is_better b c ≡ false → is_better a c ≡ false
  unfolding is_better
  is_better_weak_trans a b c h k =
      let f = λ (r : Rate F). r.effective_from.day in
      let g = λ (r : Rate F). r.effective_from.nanos in
      ahead_of_IsBehind (specificity a) (f a) (g a) (specificity c) (f c) (g c) (
        IsBehind-trans (specificity a) (f a) (g a) (specificity b) (f b) (g b) (specificity c) (f c)
          (g c) (IsBehind-of_ahead (specificity a) (f a) (g a) (specificity b) (f b) (g b) h)
          (IsBehind-of_ahead (specificity b) (f b) (g b) (specificity c) (f c) (g c) k))

  is_better_irrefl : (a : Rate F) → is_better a a ≡ false
  is_better_irrefl a = elim (Bool-cases (is_better a a)) [
    | inl e ↦ is_better_asym a a e
    | inr e ↦ e
  ]

  module _ (fits : Rate F → Bool) where
    -- No entry that fits beats `r`.
    abbrev pub IsUnbeaten : List (Rate F) → Rate F → Type 0
    IsUnbeaten rs r = All (λ r'. fits r' ≡ true → is_better r' r ≡ false) rs

    -- What the loop returns, from the best entry so far.
    abbrev IsPicked : Option (Rate F) → List (Rate F) → Option (Rate F) → Type 0
    IsPicked none rs none = All (λ r. fits r ≡ false) rs
    IsPicked none rs (some r) = (fits r ≡ true) × IsIn r rs × IsUnbeaten rs r
    IsPicked (some best) rs none = ⊥
    IsPicked (some best) rs (some r) =
        ((r ≡ best) ⊎ ((fits r ≡ true) × IsIn r rs)) × (is_better best r ≡ false) × IsUnbeaten rs r

    IsPicked-won :
        (best r : Rate F) (rs : List (Rate F)) (out : Option (Rate F))
        → (fits r && is_better r best) ≡ true
        → IsPicked (some r) rs out
        → IsPicked (some best) (r ∷ rs) out
    IsPicked-won best r rs none e h = h
    IsPicked-won best r rs (some o) e (from, unbeaten_r, rest) =
        let (f, wins) = and-true (fits r) (is_better r best) e in
        (
          inr (kept from f),
          is_better_weak_trans best r o (is_better_asym r best wins) unbeaten_r,
          ((λ _. unbeaten_r), rest),
        )
      where
        kept :
            (o ≡ r) ⊎ ((fits o ≡ true) × IsIn o rs)
            → fits r ≡ true
            → (fits o ≡ true) × IsIn o (r ∷ rs)
        kept (inl same) f = (rw same f, inl same)
        kept (inr (g, m)) f = (g, inr m)

    IsPicked-kept :
        (best r : Rate F) (rs : List (Rate F)) (out : Option (Rate F))
        → (fits r && is_better r best) ≡ false
        → IsPicked (some best) rs out
        → IsPicked (some best) (r ∷ rs) out
    IsPicked-kept best r rs none e h = h
    IsPicked-kept best r rs (some o) e (from, unbeaten_best, rest) = (
      later from,
      unbeaten_best,
      (
        (λ f.
            is_better_weak_trans r best o (and-false (fits r) (is_better r best) e f)
              unbeaten_best),
        rest,
      ),
    )
      where
        later :
            (o ≡ best) ⊎ ((fits o ≡ true) × IsIn o rs)
            → (o ≡ best) ⊎ ((fits o ≡ true) × IsIn o (r ∷ rs))
        later (inl same) = inl same
        later (inr (g, m)) = inr (g, inr m)

    best_of-some :
        (best : Rate F) (rs : List (Rate F)) → IsPicked (some best) rs (best_of fits (some best) rs)
    unfolding best_of consider
    best_of-some best [] = (inl refl, is_better_irrefl best, tt)
    best_of-some best (r ∷ rs) = elim (Bool-cases (fits r && is_better r best)) [
      | inl e ↦ rw e (IsPicked-won best r rs (best_of fits (some r) rs) e (best_of-some r rs))
      | inr e ↦
          rw e (IsPicked-kept best r rs (best_of fits (some best) rs) e (best_of-some best rs))
    ]

    IsPicked-first :
        (r : Rate F) (rs : List (Rate F)) (out : Option (Rate F))
        → fits r ≡ true
        → IsPicked (some r) rs out
        → IsPicked none (r ∷ rs) out
    IsPicked-first r rs none f h = absurd h
    IsPicked-first r rs (some o) f (inl same, unbeaten_r, rest) =
        (rw same f, inl same, ((λ _. unbeaten_r), rest))
    IsPicked-first r rs (some o) f (inr (g, m), unbeaten_r, rest) =
        (g, inr m, ((λ _. unbeaten_r), rest))

    IsPicked-skip :
        (r : Rate F) (rs : List (Rate F)) (out : Option (Rate F))
        → fits r ≡ false
        → IsPicked none rs out
        → IsPicked none (r ∷ rs) out
    IsPicked-skip r rs none f h = (f, h)
    IsPicked-skip r rs (some o) f (g, m, rest) = (g, inr m, ((λ t. cc), rest))

    pub best_of-none : (rs : List (Rate F)) → IsPicked none rs (best_of fits none rs)
    unfolding best_of consider
    best_of-none [] = tt
    best_of-none (r ∷ rs) = elim (Bool-cases (fits r)) [
      | inl e ↦ rw e (IsPicked-first r rs (best_of fits (some r) rs) e (best_of-some r rs))
      | inr e ↦ rw e (IsPicked-skip r rs (best_of fits none rs) e (best_of-none rs))
    ]

  -- What `rateFor` promises of its result: an entry of the table that applies and that no entry
  -- that applies beats; or the refusal, when none applies.
  abbrev pub IsChosen : (Rate F → Bool) → List (Rate F) → Result F (Rate F) → Type 0
  IsChosen fits rs (ok r) = (fits r ≡ true) × IsIn r rs × IsUnbeaten fits rs r
  IsChosen fits rs (err e) = All (λ r. fits r ≡ false) rs

  -- `rateFor` returns an entry of the table that applies to the trade, such that no entry that
  -- applies is more specific, or as specific and in force from a later date; and it returns the error
  -- only if no entry applies.
  pub rate_for-IsChosen :
      (s : Schedule F) (comp : Component) (p : Product) (side : Side) (on : Time)
      → IsChosen (applies s comp p side on) s.rates (rate_for s comp p side on)
  unfolding rate_for
  rate_for-IsChosen s comp p side on = chosen (best_of _ none s.rates) (best_of-none _ s.rates)
    where
      chosen :
          (out : Option (Rate F))
          → IsPicked (applies s comp p side on) none s.rates out
          → IsChosen
              (applies s comp p side on)
              s.rates
              (elim out [ some r ↦ ok r | none ↦ err (no_rate comp p side on s.broker) ])
      chosen none h = h
      chosen (some r) h = h
