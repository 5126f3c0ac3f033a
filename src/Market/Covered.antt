-- ===== src/Market/Covered.antt =====
-- internal/market/series.go: EntityVolatility answers for each entity that it is asked for.
use mathlib.Core.Path.{subst}
use verdict_machine.Base.{
  ℕ, ◌≤◌, ◌≡◌, refl, true, false, ◌⊎◌, Option, none, some, List, [], ◌∷◌, inl, inr, Bool-cases,
  Option-cases, arith, ltb,
}
use verdict_machine.Base.Int.{ℤ, eqb_ℤ, eqb_ℤ_iff}
use verdict_machine.Base.Text.{Text}
use verdict_machine.Base.Sort.{contains}
use verdict_machine.Base.Map.{Map, lookup, insert, lookup-insert, lookup-insert_self, int_key}
use verdict_machine.Base.Result.{Outcome, ok, err, wrap_error, ◌>>=◌}
use verdict_machine.Float.{Float}
use verdict_machine.Time.{Time, before}
use verdict_machine.Market.Fence.{BoundaryRefusal, unique_sorted}
use verdict_machine.Market.Sources.{Store, VolatilityRow, guard_starts, adjustments_between}
use verdict_machine.Market.Returns.{presence}
use verdict_machine.Market.Seen.{contains-unique_sorted}
use verdict_machine.Market.Volatility.{
  Error, Skip, fenced, no_bars, few_returns, min_returns, screen, mark_silent, skip_silent,
  take_volatility, take_volatilities, with_silent, volatility_of, volatilities, entity_volatility,
}

-- `m` has the entity.
abbrev pub IsKey : {V : Type 0} → ℤ → Map ℤ V → Type 0
IsKey k m = 1 ≤ presence m k

presence-insert_self : {V : Type 0} (k : ℤ) (v : V) (m : Map ℤ V) → presence (insert k v m) k ≡ 1
presence-insert_self k v m = rw (presence, lookup-insert_self k v m) refl

presence-insert-le :
    {V : Type 0} (id : ℤ) (v : V) (m : Map ℤ V) (k : ℤ) → presence m k ≤ presence (insert id v m) k
presence-insert-le id v m k = elim (Bool-cases (eqb_ℤ id k)) [
  | inl e ↦ rw (presence, lookup-insert id v m k, e) (presence-le-1 m k)
  | inr e ↦ rw (presence, lookup-insert id v m k, e) (omega arith)
]
  where
    presence-le-1 : {V : Type 0} (m : Map ℤ V) (k : ℤ) → presence m k ≤ 1
    presence-le-1 m k = elim (Option-cases (lookup k m)) [
      | inl e ↦ rw (presence, e) (omega arith)
      | inr (v, e) ↦ rw (presence, e) (omega arith)
    ]

IsKey-insert :
    {V : Type 0} (id : ℤ) (v : V) (m : Map ℤ V) (k : ℤ) → IsKey k m → IsKey k (insert id v m)
IsKey-insert id v m k h = omega (arith, presence-insert-le id v m k)

IsKey-insert_eq :
    {V : Type 0} (id : ℤ) (v : V) (m : Map ℤ V) (k : ℤ)
    → eqb_ℤ id k ≡ true
    → IsKey k (insert id v m)
IsKey-insert_eq id v m k e =
    subst (λ k. IsKey k (insert id v m)) ((eqb_ℤ_iff id k).0 e)
      (omega (arith, presence-insert_self id v m))

-- The entity still waits for an answer, or has one.
abbrev IsOpen : ℤ → Map ℤ Skip × List ℤ → Type 0
IsOpen k (skipped, ids) = (contains eqb_ℤ ids k ≡ true) ⊎ IsKey k skipped

-- Entering an entity leaves the others open.
IsOpen-insert :
    (k id : ℤ) (why : Skip) (skipped : Map ℤ Skip) (ids : List ℤ)
    → IsOpen k (skipped, id ∷ ids)
    → IsOpen k (insert id why skipped, ids)
unfolding contains
IsOpen-insert k id why skipped ids (inl h) = elim (Bool-cases (eqb_ℤ id k)) [
  | inl e ↦ inr (IsKey-insert_eq id why skipped k e)
  | inr e ↦ inl (rw e at h)
]
IsOpen-insert k id why skipped ids (inr h) = inr (IsKey-insert id why skipped k h)

IsOpen-cons :
    (k id : ℤ) (skipped : Map ℤ Skip) (ids : List ℤ)
    → IsOpen k (skipped, ids)
    → IsOpen k (skipped, id ∷ ids)
unfolding contains
IsOpen-cons k id skipped ids (inl h) = inl (ground arith)
IsOpen-cons k id skipped ids (inr h) = inr h

-- An entity that is not the first one stays open without it.
IsOpen-uncons :
    (k id : ℤ) (skipped : Map ℤ Skip) (ids : List ℤ)
    → eqb_ℤ id k ≡ false
    → IsOpen k (skipped, id ∷ ids)
    → IsOpen k (skipped, ids)
unfolding contains
IsOpen-uncons k id skipped ids q (inl h) = inl (rw q at h)
IsOpen-uncons k id skipped ids q (inr h) = inr h

screen-IsOpen :
    (refusal_of : ℤ → Option BoundaryRefusal) (k : ℤ) (skipped : Map ℤ Skip) (ids : List ℤ)
    → IsOpen k (skipped, ids)
    → IsOpen k (screen refusal_of skipped ids)
unfolding screen contains
screen-IsOpen refusal_of k skipped [] h = h
screen-IsOpen refusal_of k skipped (id ∷ ids) h = elim (Option-cases (refusal_of id)) [
  | inr (r, e) ↦
      rw (screen, e)
        (screen-IsOpen refusal_of k (insert id (fenced r) skipped) ids
          (IsOpen-insert k id (fenced r) skipped ids h))
  | inl e ↦ elim (Bool-cases (eqb_ℤ id k)) [
    | inl q ↦ rw (screen, e) (inl (rw q refl))
    | inr q ↦
        rw (screen, e)
          (IsOpen-cons k id _ _
            (screen-IsOpen refusal_of k skipped ids (IsOpen-uncons k id skipped ids q h)))
  ]
]

IsKey-lookup : {V : Type 0} (k : ℤ) (v : V) (m : Map ℤ V) → lookup k m ≡ some v → IsKey k m
IsKey-lookup k v m e = rw (presence, e) (omega arith)

mark_silent-IsKey :
    {V : Type 0} (vols : Map ℤ V) (skipped : Map ℤ Skip) (id k : ℤ) (o : Option V) (p : Option Skip)
    → IsKey k skipped
    → IsKey k (mark_silent id o p skipped)
mark_silent-IsKey vols skipped id k (some v) p h = h
mark_silent-IsKey vols skipped id k none (some why) h = h
mark_silent-IsKey vols skipped id k none none h = IsKey-insert id no_bars skipped k h

mark_silent-answers :
    {V : Type 0} (vols : Map ℤ V) (skipped : Map ℤ Skip) (id : ℤ) (o : Option V) (p : Option Skip)
    → lookup id vols ≡ o
    → lookup id skipped ≡ p
    → IsKey id vols ⊎ IsKey id (mark_silent id o p skipped)
mark_silent-answers vols skipped id (some v) p e q = inl (IsKey-lookup id v vols e)
mark_silent-answers vols skipped id none (some why) e q = inr (IsKey-lookup id why skipped q)
mark_silent-answers vols skipped id none none e q =
    inr (omega (arith, presence-insert_self id no_bars skipped))

skip_silent-IsKey :
    {V : Type 0} (vols : Map ℤ V) (skipped : Map ℤ Skip) (clean : List ℤ) (k : ℤ)
    → IsOpen k (skipped, clean)
    → IsKey k vols ⊎ IsKey k (skip_silent vols skipped clean)
unfolding skip_silent contains
skip_silent-IsKey vols skipped [] k (inl h) = cc
skip_silent-IsKey vols skipped [] k (inr h) = inr h
skip_silent-IsKey vols skipped (id ∷ clean) k h =
    let next = mark_silent id (lookup id vols) (lookup id skipped) skipped in
    elim (Bool-cases (eqb_ℤ id k)) [
      | inr q ↦ skip_silent-IsKey vols next clean k (marked (IsOpen-uncons k id skipped clean q h))
      | inl q ↦ elim (answered q) [
        | inl v ↦ inl v
        | inr s ↦ skip_silent-IsKey vols next clean k (inr s)
      ]
    ]
  where
    marked :
        IsOpen k (skipped, clean)
        → IsOpen k (mark_silent id (lookup id vols) (lookup id skipped) skipped, clean)
    marked (inl h) = inl h
    marked (inr h) = inr (mark_silent-IsKey vols skipped id k _ _ h)

    answered :
        eqb_ℤ id k ≡ true
        → IsKey k vols ⊎ IsKey k (mark_silent id (lookup id vols) (lookup id skipped) skipped)
    answered q =
        subst
          (λ k.
            IsKey k vols ⊎ IsKey k (mark_silent id (lookup id vols) (lookup id skipped) skipped))
          ((eqb_ℤ_iff id k).0 q) (mark_silent-answers vols skipped id _ _ refl refl)

module _ {F : Type 0} where
  take_volatility-IsKey :
      (id : ℤ) (n : ℕ) (sd : Option F) (taken : Map ℤ F × Map ℤ Skip) (k : ℤ)
      → IsKey k taken.1
      → IsKey k (take_volatility id n sd taken).1
  take_volatility-IsKey id n none (vols, skipped) k h = IsKey-insert id (few_returns n) skipped k h
  take_volatility-IsKey id n (some sd) (vols, skipped) k h = elim (Bool-cases (ltb n min_returns)) [
    | inl e ↦ rw e (IsKey-insert id (few_returns n) skipped k h)
    | inr e ↦ rw e h
  ]

  take_volatilities-IsKey :
      (rows : List (VolatilityRow F)) (taken : Map ℤ F × Map ℤ Skip) (k : ℤ)
      → IsKey k taken.1
      → IsKey k (take_volatilities rows taken).1
  unfolding take_volatilities
  take_volatilities-IsKey [] taken k h = h
  take_volatilities-IsKey (r ∷ rows) taken k h =
      take_volatilities-IsKey rows (take_volatility r.entity_id r.n r.sd taken) k
        (take_volatility-IsKey r.entity_id r.n r.sd taken k h)

  -- Each entity has a volatility or a reason.
  abbrev pub IsAnswered : {E : Type 0} → ℤ → Outcome (Error E) (Map ℤ F × Map ℤ Skip) → Type 0
  IsAnswered k (ok (vols, skipped)) = IsKey k vols ⊎ IsKey k skipped
  IsAnswered k (err e) = Unit

  with_silent-IsAnswered :
      (rows : List (VolatilityRow F)) (skipped : Map ℤ Skip) (clean : List ℤ) (k : ℤ)
      → IsOpen k (skipped, clean)
      → IsKey k (with_silent clean (take_volatilities rows ([], skipped))).0
        ⊎ IsKey k (with_silent clean (take_volatilities rows ([], skipped))).1
  with_silent-IsAnswered rows skipped clean k (inl h) = skip_silent-IsKey _ _ clean k (inl h)
  with_silent-IsAnswered rows skipped clean k (inr h) =
      skip_silent-IsKey _ _ clean k (inr (take_volatilities-IsKey rows ([], skipped) k h))

  IsAnswered->>= :
      {E A : Type 0} (k : ℤ) (m : Outcome (Error E) A)
      (f : A → Outcome (Error E) (Map ℤ F × Map ℤ Skip))
      → ((a : A) → IsAnswered k (f a))
      → IsAnswered k (m >>= f)
  IsAnswered->>= k (ok a) f h = h a
  IsAnswered->>= k (err e) f h = tt

  module _ {E : Type 0} ⦃fl : Float F⦄ (st : Store F E) (source : Text) (from to pin : Time) where
    volatility_of-IsAnswered :
        (screened : Map ℤ Skip × List ℤ) (k : ℤ)
        → IsOpen k screened
        → IsAnswered k (volatility_of st source from to pin screened)
    unfolding volatility_of contains
    volatility_of-IsAnswered (skipped, []) k (inl h) = cc
    volatility_of-IsAnswered (skipped, []) k (inr h) = inr h
    volatility_of-IsAnswered (skipped, id ∷ clean) k h =
        IsAnswered->>= k
          (wrap_error Error.store (st.volatility_rows source (id ∷ clean) from to pin)) _
          (λ rows. with_silent-IsAnswered rows skipped (id ∷ clean) k h)

    volatilities-IsAnswered :
        (ids : List ℤ) (k : ℤ)
        → contains eqb_ℤ ids k ≡ true
        → IsAnswered k (volatilities st source from to pin ids)
    unfolding volatilities contains
    volatilities-IsAnswered [] k h = cc
    volatilities-IsAnswered (id ∷ ids) k h = elim (Bool-cases (before from to)) [
      | inr e ↦ rw e tt
      | inl e ↦ rw e (
          IsAnswered->>= k (wrap_error Error.store (st.entity_boundaries (id ∷ ids) pin)) _
            (λ boundaries.
              IsAnswered->>= k (wrap_error Error.store (guard_starts st source boundaries pin)) _
                (λ guards.
                  IsAnswered->>= k
                    (wrap_error Error.store (adjustments_between st (id ∷ ids) from to pin)) _
                    (λ adjs.
                      volatility_of-IsAnswered _ k (screen-IsOpen _ k [] (id ∷ ids) (inl h))))))
    ]

    -- Where EntityVolatility succeeds, each entity of the request has a volatility or the reason why it
    -- has none, whatever rows the queries answer with.
    pub entity_volatility-IsAnswered :
        (ids : List ℤ) (k : ℤ)
        → contains eqb_ℤ ids k ≡ true
        → IsAnswered k (entity_volatility st source from to pin ids)
    unfolding entity_volatility
    entity_volatility-IsAnswered ids k h =
        volatilities-IsAnswered (unique_sorted ids) k (rw (contains-unique_sorted ids k) h)
