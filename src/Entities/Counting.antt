-- ===== src/Entities/Counting.antt =====
-- internal/market/entities/propose.go: the sessions in a gap, which G4 counts by two binary searches.
use verdict_machine.Base.{
  ℕ, suc, ◌-◌, ◌≡◌, refl, sym, ◌∙◌, Bool, true, false, not, ◌&&◌, List, [], ◌∷◌, length, select,
  All, ltb, inl, inr, Bool-cases, if◌then◌else◌, arith,
}
use verdict_machine.Time.{Time, before, after}
use verdict_machine.Entities.Gating.{search, count_between}

-- Each date before all later ones.
abbrev pub IsAscending : List Time → Type 0
IsAscending [] = Unit
IsAscending (t ∷ ts) = All (λ u. before t u ≡ true) ts × IsAscending ts

before_trans : (a b c : Time) → before a b ≡ true → before b c ≡ true → before a c ≡ true
before_trans a b c h k = ground arith

-- Strictly between two dates.
abbrev pub is_between : Time → Time → Time → Bool
is_between from to t = after t from && before t to

module _ (from to : Time) where
  abbrev lo : List Time → ℕ
  lo ts = search (λ t. after t from) ts

  abbrev hi : List Time → ℕ
  hi ts = search (λ t. not (before t to)) ts

  starts_within :
      (t : Time) (ts : List Time)
      → after t from ≡ true
      → All (λ u. before t u ≡ true) ts
      → lo ts ≡ 0
  unfolding search
  starts_within t [] h below = refl
  starts_within t (u ∷ ts) h (first, below) = rw (search, before_trans from t u h first) refl

  past_end :
      (t : Time) (ts : List Time)
      → before t to ≡ false
      → All (λ u. before t u ≡ true) ts
      → length (select (is_between from to) ts) ≡ 0
  past_end t [] h below = refl
  past_end t (u ∷ ts) h (first, below) = elim (Bool-cases (before u to)) [
    | inl e ↦ cc (before_trans t u to first e, h)
    | inr e ↦ elim (Bool-cases (after u from)) [
      | inl f ↦ rw (f, e) (past_end t ts h below)
      | inr f ↦ rw f (past_end t ts h below)
    ]
  ]

abbrev gap : ℕ → ℕ → ℕ
gap a b = if ltb b a then 0 else b - a

gap-suc : (a b : ℕ) → gap (suc a) (suc b) ≡ gap a b
gap-suc a b = ground arith

gap_closed : (a : ℕ) → gap (suc a) 0 ≡ 0
gap_closed a = ground arith

gap_opened : (a b n : ℕ) → a ≡ 0 → gap a b ≡ n → gap 0 (suc b) ≡ suc n
gap_opened a b n e h = ground arith

-- Over sessions in the order of their dates, countBetween is the number of those that are strictly
-- between the two dates.
pub count_between-length :
    (sessions : List Time) (from to : Time)
    → IsAscending sessions
    → count_between sessions from to ≡ length (select (is_between from to) sessions)
unfolding count_between search
count_between-length [] from to h = refl
count_between-length (t ∷ ts) from to (below, h) =
    let rest = count_between-length ts from to h in
    elim (Bool-cases (after t from)) [
      | inl e ↦ elim (Bool-cases (before t to)) [
        | inl f ↦
            rw (count_between, search, e, f)
              (gap_opened (lo from to ts) (hi from to ts) _ (starts_within from to t ts e below)
                rest)
        | inr f ↦ rw (count_between, search, e, f) (sym (past_end from to t ts f below))
      ]
      | inr e ↦ elim (Bool-cases (before t to)) [
        | inl f ↦ rw (count_between, search, e, f) (gap-suc (lo from to ts) (hi from to ts) ∙ rest)
        | inr f ↦
            rw (count_between, search, e, f)
              (gap_closed (lo from to ts) ∙ sym (past_end from to t ts f below))
      ]
    ]
