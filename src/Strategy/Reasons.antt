-- ===== src/Strategy/Reasons.antt =====
-- internal/strategy/rankers.go: the test for the words of the fence, on the texts that
-- internal/market/series.go writes.
use verdict_machine.Base.{
  ℕ, zero, suc, ◌+◌, ◌/◌, ◌%◌, ◌≡◌, refl, ◌∙◌, Bool, true, false, ◌||◌, ◌==◌, [], ◌∷◌, ◌++◌, inl,
  inr, Bool-cases, any, arith,
}
use verdict_machine.Base.Int.{ℤ, pos}
use verdict_machine.Base.Text.{Text, bytes}
use verdict_machine.Base.Format.{digits_onto, format_int}
use verdict_machine.Base.Map.{Map, int_key}
use verdict_machine.Market.Fence.{BoundaryRefusal}
use verdict_machine.Market.Texts.{refusal_text, refused_window, refused_band, skip_text}
use verdict_machine.Market.Volatility.{Skip, fenced, few_returns, no_bars}
use verdict_machine.Engine.StoreMarket.{with_values}
use verdict_machine.Strategy.Rankers.{contains_text, starts_with, is_fence_refusal, pick_reasons}

contains_text-append :
    (s t part : Text) → contains_text t part ≡ true → contains_text (s ++ t) part ≡ true
contains_text-append [] t part h = h
contains_text-append (c ∷ s) t part h = elim (Bool-cases (starts_with part (c ∷ (s ++ t)))) [
  | inl e ↦ rw e refl
  | inr e ↦ rw e (contains_text-append s t part h)
]

is_fence_refusal-refusal_text : (r : BoundaryRefusal) → is_fence_refusal (refusal_text r) ≡ true
unfolding refusal_text
is_fence_refusal-refusal_text r =
    contains_text-append (refused_window r)
      (bytes " crosses the succession guard band " ++ refused_band r)
      (bytes "succession guard band") refl

-- A byte of "succession guard band" that the other reasons do not have.
abbrev has_c : Text → Bool
has_c s = any (λ d. d == b'c') s

has_c-append : (s t : Text) → has_c (s ++ t) ≡ (has_c s || has_c t)
has_c-append [] t = refl
has_c-append (c ∷ s) t = ground (arith, has_c-append s t)

has_c-digits_onto : (fuel n : ℕ) (acc : Text) → has_c (digits_onto fuel n acc) ≡ has_c acc
unfolding digits_onto
has_c-digits_onto zero n acc = refl
has_c-digits_onto (suc fuel) n acc =
    ground (arith, has_c-digits_onto fuel (n / 10) ((b'0' + n % 10) ∷ acc))

starts_with-has_c : (part s : Text) → starts_with part s ≡ true → has_c part ≡ true → has_c s ≡ true
starts_with-has_c [] s h k = cc
starts_with-has_c (c ∷ cs) [] h k = cc
starts_with-has_c (c ∷ cs) (d ∷ ds) h k = ground (arith, starts_with-has_c cs ds)

contains_text-has_c :
    (s part : Text) → has_c part ≡ true → has_c s ≡ false → contains_text s part ≡ false
contains_text-has_c [] part h k = elim (Bool-cases (starts_with part [])) [
  | inl e ↦ cc (starts_with-has_c part [] e h)
  | inr e ↦ e
]
contains_text-has_c (c ∷ s) part h k = elim (Bool-cases (starts_with part (c ∷ s))) [
  | inl e ↦ cc (starts_with-has_c part (c ∷ s) e h)
  | inr e ↦ rw e (contains_text-has_c s part h (ground arith))
]

has_c-skip_text : (n : ℕ) → has_c (skip_text (few_returns n)) ≡ false
unfolding skip_text format_int
has_c-skip_text n =
    has_c-append (bytes "only ") (format_int (pos n) ++ bytes " usable daily returns in the window")
    ∙ (has_c-append (format_int (pos n)) (bytes " usable daily returns in the window")
        ∙ rw (has_c-digits_onto 20 n []) refl)

is_fence_refusal-few_returns : (n : ℕ) → is_fence_refusal (skip_text (few_returns n)) ≡ false
is_fence_refusal-few_returns n =
    contains_text-has_c (skip_text (few_returns n)) (bytes "succession guard band") refl
      (has_c-skip_text n)

-- The refusals of the fence among the reasons, with their texts.
abbrev pub fenced_texts : Map ℤ Skip → Map ℤ Text
fenced_texts [] = []
fenced_texts ((id, fenced r) ∷ m) = (id, refusal_text r) ∷ fenced_texts m
fenced_texts ((id, few_returns n) ∷ m) = fenced_texts m
fenced_texts ((id, no_bars) ∷ m) = fenced_texts m

-- The other reasons.
abbrev pub short_texts : Map ℤ Skip → Map ℤ Text
short_texts [] = []
short_texts ((id, fenced r) ∷ m) = short_texts m
short_texts ((id, few_returns n) ∷ m) = (id, skip_text (few_returns n)) ∷ short_texts m
short_texts ((id, no_bars) ∷ m) = (id, skip_text no_bars) ∷ short_texts m

pub pick_reasons-fenced :
    (m : Map ℤ Skip) → pick_reasons true (with_values skip_text m) ≡ fenced_texts m
unfolding pick_reasons skip_text
pick_reasons-fenced [] = refl
pick_reasons-fenced ((id, fenced r) ∷ m) =
    rw (is_fence_refusal-refusal_text r, pick_reasons-fenced m) refl
pick_reasons-fenced ((id, few_returns n) ∷ m) =
    rw (is_fence_refusal-few_returns n) (pick_reasons-fenced m)
pick_reasons-fenced ((id, no_bars) ∷ m) = pick_reasons-fenced m

pub pick_reasons-short :
    (m : Map ℤ Skip) → pick_reasons false (with_values skip_text m) ≡ short_texts m
unfolding pick_reasons skip_text
pick_reasons-short [] = refl
pick_reasons-short ((id, fenced r) ∷ m) =
    rw (is_fence_refusal-refusal_text r) (pick_reasons-short m)
pick_reasons-short ((id, few_returns n) ∷ m) =
    rw (is_fence_refusal-few_returns n, pick_reasons-short m) refl
pick_reasons-short ((id, no_bars) ∷ m) = rw (pick_reasons-short m) refl
