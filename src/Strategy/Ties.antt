-- ===== src/Strategy/Ties.antt =====
-- internal/strategy/rankers.go: `byScore` does not depend on the order in which Go ranges its map.
use mathlib.Core.List.{Perm}
use mathlib.Core.Path.{fun_ext}
use mathlib.Core.HLevel.{Discrete}
use verdict_machine.Base.{
  ◌≡◌, ◌⊎◌, refl, ap, ◌∙◌, inl, inr, Bool, true, false, Bool-cases, if◌then◌else◌, arith, All, [],
  ◌∷◌,
}
use verdict_machine.Base.Int.{ℤ, ltb_ℤ, eqb_ℤ, eqb_ℤ_iff}
use verdict_machine.Base.Map.{Map, lookup, keys, int_key}
use verdict_machine.Base.Sort.{sort_by, IsOrder}
use verdict_machine.Base.Unique.{IsTotal, sort_by-perm_eq}
use verdict_machine.Float.{Float, nought}
use verdict_machine.Strategy.Rankers.{score, ahead, score_less, by_score}

-- `<` and `==` of float64: only NaN differs from itself, and of two other values that differ one is
-- less.
pub record IsOrdered (F : Type 0) ⦃fl : Float F⦄ : Type 0 where
  pub eq_sym : (a b : F) → fl.eq a b ≡ true → fl.eq b a ≡ true
  pub eq_trans : (a b c : F) → fl.eq a b ≡ true → fl.eq b c ≡ true → fl.eq a c ≡ true
  pub lt_trans : (a b c : F) → fl.lt a b ≡ true → fl.lt b c ≡ true → fl.lt a c ≡ true
  pub lt-eq_trans : (a b c : F) → fl.lt a b ≡ true → fl.eq b c ≡ true → fl.lt a c ≡ true
  pub eq-lt_trans : (a b c : F) → fl.eq a b ≡ true → fl.lt b c ≡ true → fl.lt a c ≡ true
  pub lt_apart : (a b : F) → fl.lt a b ≡ true → fl.eq a b ≡ false
  pub lt_asym : (a b : F) → fl.lt a b ≡ true → fl.lt b a ≡ false
  pub nought_eq : fl.eq nought nought ≡ true
  pub connex :
      (a b : F)
      → fl.eq a a ≡ true
      → fl.eq b b ≡ true
      → fl.eq a b ≡ false
      → fl.lt a b ≡ false
      → fl.lt b a ≡ true

-- Not NaN.
abbrev pub IsNumber : {F : Type 0} → ⦃fl : Float F⦄ → F → Type 0
IsNumber ⦃fl⦄ a = fl.eq a a ≡ true

ℤ_discrete : Discrete ℤ
ℤ_discrete a b = elim (Bool-cases (eqb_ℤ a b)) [
  | inl e ↦ yes ((eqb_ℤ_iff a b).0 e)
  | inr e ↦ no (λ q. cc ((eqb_ℤ_iff a b).1 q))
]

ltb_ℤ_asym : (i j : ℤ) → ltb_ℤ i j ≡ true → ltb_ℤ j i ≡ false
ltb_ℤ_asym i j h = ground arith

ltb_ℤ_weak_trans : (i j k : ℤ) → ltb_ℤ i j ≡ false → ltb_ℤ j k ≡ false → ltb_ℤ i k ≡ false
ltb_ℤ_weak_trans i j k h l = ground arith

ltb_ℤ_total : (i j : ℤ) → ltb_ℤ i j ≡ false → ltb_ℤ j i ≡ false → i ≡ j
ltb_ℤ_total i j h l = ground arith

module _ {F : Type 0} ⦃fl : Float F⦄ (order : IsOrdered F) where
  -- The order of the ranker's direction, which is as much an order as `<`.
  abbrev directed : Bool → F → F → Bool
  directed ascending a b = if ascending then fl.lt a b else fl.lt b a

  record IsDirected (lt : F → F → Bool) : Type 0 where
    trans : (a b c : F) → lt a b ≡ true → lt b c ≡ true → lt a c ≡ true
    trans_eq : (a b c : F) → lt a b ≡ true → fl.eq b c ≡ true → lt a c ≡ true
    eq_trans : (a b c : F) → fl.eq a b ≡ true → lt b c ≡ true → lt a c ≡ true
    apart : (a b : F) → lt a b ≡ true → fl.eq a b ≡ false
    asym : (a b : F) → lt a b ≡ true → lt b a ≡ false
    connex :
        (a b : F) → IsNumber a → IsNumber b → fl.eq a b ≡ false → lt a b ≡ false → lt b a ≡ true

  eq_ne : (a b : F) → fl.eq a b ≡ false → fl.eq b a ≡ false
  eq_ne a b h = elim (Bool-cases (fl.eq b a)) [ inl e ↦ cc (order.eq_sym b a e) | inr e ↦ e ]

  directed-IsDirected : (ascending : Bool) → IsDirected (directed ascending)
  directed-IsDirected true = record {
    trans = order.lt_trans;
    trans_eq = order.lt-eq_trans;
    eq_trans = order.eq-lt_trans;
    apart = order.lt_apart;
    asym = order.lt_asym;
    connex = order.connex;
  }
  directed-IsDirected false = record {
    trans = λ a b c p q. order.lt_trans c b a q p;
    trans_eq = λ a b c p q. order.eq-lt_trans c b a (order.eq_sym b c q) p;
    eq_trans = λ a b c p q. order.lt-eq_trans c b a q (order.eq_sym a b p);
    apart = λ a b p. eq_ne b a (order.lt_apart b a p);
    asym = λ a b p. order.lt_asym b a p;
    connex = λ a b m n p q. order.connex b a n m (eq_ne a b p) q;
  }

  abbrev IsNotAhead : Bool → F → F → ℤ → ℤ → Type 0
  IsNotAhead ascending a b i j =
      ((fl.eq a b ≡ true) × (ltb_ℤ i j ≡ false))
      ⊎ ((fl.eq a b ≡ false) × (directed ascending b a ≡ true))

  not_ahead :
      (ascending : Bool) (a b : F) (i j : ℤ)
      → IsNumber a
      → IsNumber b
      → ahead ascending a b i j ≡ false
      → IsNotAhead ascending a b i j
  not_ahead ascending a b i j m n h = elim (Bool-cases (fl.eq a b)) [
    | inl e ↦ inl (e, rw (e) at h)
    | inr e ↦ inr (e, (directed-IsDirected ascending).connex a b m n e (rw (e) at h))
  ]

  ahead_of :
      (ascending : Bool) (a b : F) (i j : ℤ)
      → IsNotAhead ascending a b i j
      → ahead ascending a b i j ≡ false
  ahead_of ascending a b i j (inl (e, l)) = rw (e) l
  ahead_of ascending a b i j (inr (e, l)) = rw (e) ((directed-IsDirected ascending).asym b a l)

  IsNotAhead-trans :
      (ascending : Bool) (a b c : F) (i j k : ℤ)
      → IsNotAhead ascending a b i j
      → IsNotAhead ascending b c j k
      → IsNotAhead ascending a c i k
  IsNotAhead-trans ascending a b c i j k (inl (e, l)) (inl (f, m)) =
      inl (order.eq_trans a b c e f, ltb_ℤ_weak_trans i j k l m)
  IsNotAhead-trans ascending a b c i j k (inl (e, l)) (inr (f, m)) =
      let d = (directed-IsDirected ascending).trans_eq c b a m (order.eq_sym a b e) in
      inr (eq_ne c a ((directed-IsDirected ascending).apart c a d), d)
  IsNotAhead-trans ascending a b c i j k (inr (e, l)) (inl (f, m)) =
      let d = (directed-IsDirected ascending).eq_trans c b a (order.eq_sym b c f) l in
      inr (eq_ne c a ((directed-IsDirected ascending).apart c a d), d)
  IsNotAhead-trans ascending a b c i j k (inr (e, l)) (inr (f, m)) =
      let d = (directed-IsDirected ascending).trans c b a m l in
      inr (eq_ne c a ((directed-IsDirected ascending).apart c a d), d)

  ahead_asym :
      (ascending : Bool) (a b : F) (i j : ℤ)
      → ahead ascending a b i j ≡ true
      → ahead ascending b a j i ≡ false
  ahead_asym ascending a b i j h = elim (Bool-cases (fl.eq a b)) [
    | inl e ↦ rw (order.eq_sym a b e) (ltb_ℤ_asym i j (rw (e) at h))
    | inr e ↦ rw (eq_ne a b e) ((directed-IsDirected ascending).asym a b (rw (e) at h))
  ]

  lookup-IsNumber :
      (scores : Map ℤ F) (id : ℤ)
      → All (λ (e : ℤ × F). IsNumber e.1) scores
      → IsNumber (score scores id)
  unfolding lookup
  lookup-IsNumber [] id h = order.nought_eq
  lookup-IsNumber ((k, v) ∷ scores) id (n, h) = elim (Bool-cases (eqb_ℤ k id)) [
    | inl e ↦ rw (score, e) n
    | inr e ↦ rw (score, e) (lookup-IsNumber scores id h)
  ]

  score_less-IsOrder :
      (scores : Map ℤ F) (ascending : Bool)
      → ((id : ℤ) → IsNumber (score scores id))
      → IsOrder (score_less scores ascending)
  score_less-IsOrder scores ascending number = record {
    asym = λ i j h. ahead_asym ascending _ _ i j h;
    weak_trans = λ i j k p q. ahead_of ascending _ _ i k (
        IsNotAhead-trans ascending _ (score scores j) _ i j k
          (not_ahead ascending _ _ i j (number i) (number j) p)
          (not_ahead ascending _ _ j k (number j) (number k) q));
  }

  score_less-IsTotal :
      (scores : Map ℤ F) (ascending : Bool)
      → ((id : ℤ) → IsNumber (score scores id))
      → IsTotal (score_less scores ascending)
  score_less-IsTotal scores ascending number i j p q =
      tied (not_ahead ascending _ _ i j (number i) (number j) p)
        (not_ahead ascending _ _ j i (number j) (number i) q)
    where
      tied :
          IsNotAhead ascending (score scores i) (score scores j) i j
          → IsNotAhead ascending (score scores j) (score scores i) j i
          → i ≡ j
      tied (inl (_, l)) (inl (_, m)) = ltb_ℤ_total i j l m
      tied (inl (e, _)) (inr (f, _)) = cc (order.eq_sym _ _ e)
      tied (inr (e, _)) (inl (f, _)) = cc (order.eq_sym _ _ f)
      tied (inr (_, l)) (inr (_, m)) = cc ((directed-IsDirected ascending).asym _ _ l)

  -- With `<` and `==` as they are on float64, and where no score of the map is NaN: `byScore` returns the
  -- same list for two listings of one map, with the same keys in any order and the same values. The order
  -- in which Go ranges the map does not show.
  pub by_score-perm :
      (scores scores' : Map ℤ F) (ascending : Bool)
      → All (λ (e : ℤ × F). IsNumber e.1) scores
      → Perm (keys scores) (keys scores')
      → ((id : ℤ) → lookup id scores ≡ lookup id scores')
      → by_score scores ascending ≡ by_score scores' ascending
  unfolding by_score
  by_score-perm scores scores' ascending numbers p same =
      sort_by-perm_eq (score_less scores ascending)
        (score_less-IsOrder scores ascending (λ id. lookup-IsNumber scores id numbers))
        (score_less-IsTotal scores ascending (λ id. lookup-IsNumber scores id numbers)) ℤ_discrete p
      ∙ ap (λ less. sort_by less (keys scores'))
          (fun_ext (λ i. fun_ext (λ j. rw (score, same i, same j) refl)))
