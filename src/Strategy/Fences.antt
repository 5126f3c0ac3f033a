-- ===== src/Strategy/Fences.antt =====
-- internal/strategy/rankers.go: VolatilityRanker tells the refusals of the fence from the other reasons by
-- their texts, which internal/market/series.go writes.
use mathlib.Core.Path.{subst}
use verdict_machine.Base.{
  ◌≡◌, ◌⊎◌, refl, sym, ◌∙◌, Bool, true, false, ◌||◌, List, [], ◌∷◌, inl, inr, Bool-cases, ap, leb,
  arith,
}
use verdict_machine.Base.Int.{ℤ, eqb_ℤ}
use verdict_machine.Base.Text.{Text}
use verdict_machine.Base.Sort.{contains}
use verdict_machine.Base.Distinct.{contains-sort_by}
use verdict_machine.Base.Map.{Map, lookup, keys, int_key}
use verdict_machine.Base.Result.{ok, wrap_error, wrap_error-eq-ok, >>=-eq-ok, ok-injective}
use verdict_machine.Float.{Float}
use verdict_machine.Time.{Time, months_before}
use verdict_machine.Market.Texts.{skip_text}
use verdict_machine.Market.Volatility
use verdict_machine.Market.Volatility.{Skip, fenced, few_returns, no_bars, entity_volatility}
use verdict_machine.Market.Returns.{presence}
use verdict_machine.Market.Covered.{IsKey, IsAnswered, entity_volatility-IsAnswered}
use verdict_machine.Engine.Seams.{Member, Session}
use verdict_machine.Engine.StoreMarket.{StoreMarket, with_values, volatility}
use verdict_machine.Strategy.Reasons.{
  fenced_texts, short_texts, pick_reasons-fenced, pick_reasons-short,
}
use verdict_machine.Strategy.Rankers.{
  Ranked, VolatilityRanker, reading, universe_ids, pick_reasons, by_score, score_less,
  volatility_rank,
}

listed : {V : Type 0} (k : ℤ) (m : Map ℤ V) → IsKey k m → contains eqb_ℤ (keys m) k ≡ true
unfolding lookup contains
listed k [] h = absurd (omega (arith, h))
listed k ((j, v) ∷ m) h = elim (Bool-cases (eqb_ℤ j k)) [
  | inl e ↦ rw e refl
  | inr e ↦ rw e (listed k m (rw (presence, e) at h))
]

-- Each reason is in one of the two maps.
listed_once :
    (k : ℤ) (m : Map ℤ Skip)
    → contains eqb_ℤ (keys m) k
      ≡ (contains eqb_ℤ (keys (fenced_texts m)) k || contains eqb_ℤ (keys (short_texts m)) k)
unfolding contains
listed_once k [] = refl
listed_once k ((id, fenced r) ∷ m) = ground (arith, listed_once k m)
listed_once k ((id, few_returns n) ∷ m) = ground (arith, listed_once k m)
listed_once k ((id, no_bars) ∷ m) = ground (arith, listed_once k m)

or_true : (a : Bool) → (a || true) ≡ true
or_true a = ground arith

module _ {F : Type 0} ⦃fl : Float F⦄ where
  placed_somewhere :
      (vols : Map ℤ F) (skipped : Map ℤ Skip) (id : ℤ)
      → (IsKey id vols) ⊎ IsKey id skipped
      → (contains eqb_ℤ (by_score vols true) id
          || (contains eqb_ℤ (keys (fenced_texts skipped)) id
              || contains eqb_ℤ (keys (short_texts skipped)) id))
        ≡ true
  unfolding by_score
  placed_somewhere vols skipped id (inl h) =
      rw (contains-sort_by eqb_ℤ (score_less vols true) (keys vols) id, listed id vols h) refl
  placed_somewhere vols skipped id (inr h) =
      rw (← listed_once id skipped, listed id skipped h) (or_true _)

module _ {F : Type 0} ⦃fl : Float F⦄ {E : Type 0} where
  -- What a ranking makes of the volatilities and the reasons that the store has for the members.
  pub record IsLabelled (m : StoreMarket F E) (from to : Time) (members : List Member)
      (ranked : Ranked) : Type 0 where
    pub vols : Map ℤ F
    pub skipped : Map ℤ Skip
    pub asked :
        entity_volatility m.store m.source from to m.pin (universe_ids members) ≡ ok (vols, skipped)
    pub order : ranked.order ≡ by_score vols true
    pub refused : ranked.refused ≡ fenced_texts skipped
    pub absent : ranked.absent ≡ short_texts skipped
    pub placed :
        (id : ℤ)
        → contains eqb_ℤ (universe_ids members) id ≡ true
        → (contains eqb_ℤ ranked.order id
            || (contains eqb_ℤ (keys ranked.refused) id || contains eqb_ℤ (keys ranked.absent) id))
          ≡ true

  label :
      (m : StoreMarket F E) (from to : Time) (members : List Member) (ranked : Ranked)
      (vols : Map ℤ F) (texts : Map ℤ Text)
      → volatility m (universe_ids members) from to ≡ ok (vols, texts)
      → (record {
        order = by_score vols true;
        refused = pick_reasons true texts;
        absent = pick_reasons false texts;
      })
        ≡ ranked
      → IsLabelled m from to members ranked
  unfolding volatility
  label m from to members ranked vols texts read same =
      let ((found, skipped), asked, out) =
        >>=-eq-ok (entity_volatility m.store m.source from to m.pin (universe_ids members)) _
          (vols, texts) read in
      let both = ok-injective (found, with_values skip_text skipped) (vols, texts) out in
      let fenced_only : pick_reasons true texts ≡ fenced_texts skipped =
        ap (λ p. pick_reasons true p.1) (sym both) ∙ pick_reasons-fenced skipped in
      let short_only : pick_reasons false texts ≡ short_texts skipped =
        ap (λ p. pick_reasons false p.1) (sym both) ∙ pick_reasons-short skipped in
      let by_vols : by_score vols true ≡ by_score found true =
        ap (λ p. by_score p.0 true) (sym both) in
      subst (IsLabelled m from to members) same (record {
        vols = found;
        skipped = skipped;
        asked = asked;
        order = by_vols;
        refused = fenced_only;
        absent = short_only;
        placed = λ id k.
            rw (by_vols, fenced_only, short_only)
              (placed_somewhere found skipped id (
                subst (IsAnswered id) asked (
                  entity_volatility-IsAnswered m.store m.source from to m.pin (universe_ids members)
                    id k)));
      })

  -- Where the market's volatilities are those of the store, a VolatilityRanker that ranks the members takes
  -- for refusals of the fence those reasons of the store that are, with their texts, and the other reasons
  -- for absences, although it has only their texts to go by; the order is that of the volatilities; and
  -- every member is in the order, refused or absent.
  pub volatility_rank-IsLabelled :
      (v : VolatilityRanker) (s : Session F (Volatility.Error E)) (members : List Member)
      (m : StoreMarket F E) (ranked : Ranked)
      → s.market.volatility ≡ volatility m
      → volatility_rank v s members ≡ ok ranked
      → IsLabelled m (months_before s.date v.lookback_months) s.date members ranked
  unfolding volatility_rank volatility
  volatility_rank-IsLabelled v s members m ranked same h =
      elim (Bool-cases (leb v.lookback_months 0)) [
        | inl e ↦ cc (rw e at h)
        | inr e ↦
            let from = months_before s.date v.lookback_months in
            let ids = universe_ids members in
            let (p, read, out) =
              >>=-eq-ok (wrap_error reading (s.market.volatility ids from s.date)) _ ranked
                (rw e at h) in
            label m from s.date members ranked p.0 p.1
              (ap (λ f. f ids from s.date) (sym same)
                ∙ wrap_error-eq-ok reading (s.market.volatility ids from s.date) p read)
              (ok-injective _ ranked out)
      ]
