-- ===== src/Market/Windows.antt =====
-- Share actions of consecutive windows, of internal/market/adjustments.go.
use mathlib.Core.Path.{◌≡◌, refl, sym, ap, ◌∙◌}
use verdict_machine.Base.{
  true, false, List, [], ◌∷◌, ◌++◌, inl, inr, All, All-map, Bool-cases, arith,
}
use verdict_machine.Float.{Float}
use verdict_machine.Time.{Time, before}
use verdict_machine.Market.Actions.{DatedRatio, WindowAdjustment, is_within, ratio_from, ratio_over}

-- By date, as the query orders them.
abbrev pub IsAscending : {F : Type 0} → List (DatedRatio F) → Type 0
IsAscending [] = Unit
IsAscending (x ∷ xs) = All (λ y. before y.date x.date ≡ false) xs × IsAscending xs

before_trans : (a b c : Time) → before a b ≡ false → before b c ≡ false → before a c ≡ false
before_trans a b c h k = ground arith

within_early :
    (a b c d : Time)
    → before b a ≡ false
    → before c b ≡ false
    → before b d ≡ false
    → (is_within a c d ≡ is_within a b d) × (is_within b c d ≡ false)
within_early a b c d h k e = (ground arith, ground arith)

within_late :
    (a b c d : Time)
    → before b a ≡ false
    → before b d ≡ true
    → (is_within a c d ≡ is_within b c d) × (is_within a b d ≡ false)
within_late a b c d h e = (ground arith, ground arith)

module _ {F : Type 0} ⦃fl : Float F⦄ where
  -- No action is past `b`.
  abbrev IsBeyond : Time → List (DatedRatio F) → Type 0
  IsBeyond b xs = All (λ x. before b x.date ≡ true) xs

  -- Beyond `b` nothing is within a window that ends there, and a window from `a` is one from `b`.
  ratio_from_beyond :
      (r : F) (ds : List Time) (xs : List (DatedRatio F)) (a b c : Time)
      → before b a ≡ false
      → IsBeyond b xs
      → (ratio_from r ds xs a b ≡ (r, ds)) × (ratio_from r ds xs a c ≡ ratio_from r ds xs b c)
  unfolding ratio_from
  ratio_from_beyond r ds [] a b c h past = (refl, refl)
  ratio_from_beyond r ds (x ∷ xs) a b c h (p, past) =
      let (same, out) = within_late a b c x.date h p in
      let (ends, skips) = ratio_from_beyond r ds xs a b c h past in
      let (_, counts) =
        ratio_from_beyond (fl.mul r x.ratio) (ds ++ (x.date ∷ [])) xs a b c h past in
      (rw out ends, rw (same, skips, counts) refl)

  IsBeyond-later :
      (b : Time) (x : DatedRatio F) (xs : List (DatedRatio F))
      → before b x.date ≡ true
      → All (λ y. before y.date x.date ≡ false) xs
      → IsBeyond b xs
  IsBeyond-later b x xs p below = All-map _ _ xs (λ y h. ground arith) below

  -- Two consecutive windows, counted one after the other.
  abbrev then_over : List (DatedRatio F) → Time → Time → F × List Time → F × List Time
  then_over xs b c (r, ds) = ratio_from r ds xs b c

  ratio_from_split :
      (r : F) (ds : List Time) (xs : List (DatedRatio F)) (a b c : Time)
      → before b a ≡ false
      → before c b ≡ false
      → IsAscending xs
      → ratio_from r ds xs a c ≡ then_over xs b c (ratio_from r ds xs a b)
  unfolding ratio_from
  ratio_from_split r ds [] a b c h k up = refl
  ratio_from_split r ds (x ∷ xs) a b c h k (below, up) = elim (Bool-cases (before b x.date)) [
    | inl e ↦
        let past : IsBeyond b (x ∷ xs) = (e, IsBeyond-later b x xs e below) in
        let (ends, same) = ratio_from_beyond r ds (x ∷ xs) a b c h past in
        same ∙ sym (ap (then_over (x ∷ xs) b c) ends)
    | inr e ↦
        let (same, out) = within_early a b c x.date h k e in
        elim (Bool-cases (is_within a b x.date)) [
          | inl w ↦
              rw (same, out, w)
                (ratio_from_split (fl.mul r x.ratio) (ds ++ (x.date ∷ [])) xs a b c h k up)
          | inr w ↦ rw (same, out, w) (ratio_from_split r ds xs a b c h k up)
        ]
  ]

  -- Of actions in the order of their dates, RatioOver over a window is RatioOver over its part up to
  -- any session inside it, carried on over the actions of the rest: none is missed, none counted twice,
  -- and the multiplications are the same ones in the same order.
  pub ratio_over-split :
      (w : WindowAdjustment F) (a b c : Time)
      → before b a ≡ false
      → before c b ≡ false
      → IsAscending w.actions
      → ratio_over w a c ≡ ratio_from (ratio_over w a b).0 (ratio_over w a b).1 w.actions b c
  ratio_over-split w a b c h k up = ratio_from_split _ _ w.actions a b c h k up
