-- ===== src/Entities/Generated.antt =====
-- internal/market/entities/propose.go: the candidates are pairs of the symbols of the store.
use verdict_machine.Base.{
  ◌≡◌, refl, false, List, [], ◌∷◌, ◌++◌, All, All-append, inl, inr, Bool-cases, Option-cases,
}
use verdict_machine.Base.Text.{Text, bytes}
use verdict_machine.Base.Sort.{sort_by, sort_by-All}
use verdict_machine.Base.Map.{lookup, text_key, int_key, Every, insert-Every, Every-lookup}
use verdict_machine.Float.{Float}
use verdict_machine.Time.{date_only}
use verdict_machine.Entities.Isin.{is_equity_isin, issuer_prefix}
use verdict_machine.Entities.Link.{parse_day}
use verdict_machine.Entities.Lines.{is_none}
use verdict_machine.Entities.Candidate.{SymbolFacts, Candidate, new_candidate}
use verdict_machine.Entities.Proposing.{
  Groups, SeenPairs, is_seen_pair, group_of, add_to, by_prefix, by_ticker, earlier, consecutive,
  candidate_less, add_pairs, add_groups, generate,
}

-- The dates of a symbol are written in a form that reads back.
abbrev pub IsReadable : {F : Type 0} → SymbolFacts F → Type 0
IsReadable f =
    (is_none (parse_day (date_only f.first_date)) ≡ false)
    × (is_none (parse_day (date_only f.last_date)) ≡ false)

module _ {F : Type 0} where
  group_of-All :
      (k : Text) (groups : Groups F)
      → Every (λ k g. All IsReadable g) groups
      → All IsReadable (group_of k groups)
  group_of-All k groups h = elim (Option-cases (lookup k groups)) [
    | inl e ↦ rw (group_of, e) tt
    | inr (g, e) ↦ rw (group_of, e) (Every-lookup (λ k g. All IsReadable g) k g groups h e)
  ]

  add_to-Every :
      (k : Text) (f : SymbolFacts F) (groups : Groups F)
      → IsReadable f
      → Every (λ k g. All IsReadable g) groups
      → Every (λ k g. All IsReadable g) (add_to k f groups)
  add_to-Every k f groups r h =
      insert-Every (λ k g. All IsReadable g) k (group_of k groups ++ (f ∷ [])) groups
        (All-append IsReadable (group_of k groups) (f ∷ []) (group_of-All k groups h) (r, tt)) h

  by_prefix-Every :
      (facts : List (SymbolFacts F)) (groups : Groups F)
      → All IsReadable facts
      → Every (λ k g. All IsReadable g) groups
      → Every (λ k g. All IsReadable g) (by_prefix facts groups)
  unfolding by_prefix
  by_prefix-Every [] groups rs h = h
  by_prefix-Every (f ∷ facts) groups (r, rs) h = elim (Bool-cases (is_equity_isin f.isin)) [
    | inl e ↦
        rw (by_prefix, e)
          (by_prefix-Every facts _ rs (add_to-Every (issuer_prefix f.isin) f groups r h))
    | inr e ↦ rw (by_prefix, e) (by_prefix-Every facts groups rs h)
  ]

  by_ticker-Every :
      (facts : List (SymbolFacts F)) (groups : Groups F)
      → All IsReadable facts
      → Every (λ k g. All IsReadable g) groups
      → Every (λ k g. All IsReadable g) (by_ticker facts groups)
  unfolding by_ticker
  by_ticker-Every [] groups rs h = h
  by_ticker-Every (f ∷ facts) groups (r, rs) h =
      by_ticker-Every facts (add_to f.last_ticker f groups) rs
        (add_to-Every f.last_ticker f groups r h)

  abbrev pub ReadablePair : SymbolFacts F × SymbolFacts F → Type 0
  ReadablePair (p, s) = IsReadable p × IsReadable s

  consecutive-All : (g : List (SymbolFacts F)) → All IsReadable g → All ReadablePair (consecutive g)
  unfolding consecutive
  consecutive-All [] h = tt
  consecutive-All (p ∷ []) h = tt
  consecutive-All (p ∷ s ∷ g) (r, (q, rs)) = ((r, q), consecutive-All (s ∷ g) (q, rs))

module _ {F : Type 0} ⦃fl : Float F⦄ where
  -- A candidate of two symbols whose dates read back.
  abbrev pub IsOfPair : Candidate F → Type 0
  IsOfPair c =
      (generator : Text) × ((p : SymbolFacts F) × ((s : SymbolFacts F) × ReadablePair (p, s)
          × (c ≡ new_candidate generator p s)))

  add_pairs-All :
      (generator : Text) (seen : SeenPairs) (pairs : List (SymbolFacts F × SymbolFacts F))
      → All ReadablePair pairs
      → All IsOfPair (add_pairs generator seen pairs).0
  unfolding add_pairs
  add_pairs-All generator seen [] h = tt
  add_pairs-All generator seen ((p, s) ∷ pairs) (r, h) =
      elim (Bool-cases (is_seen_pair seen p.symbol_id s.symbol_id)) [
        | inl e ↦ rw (add_pairs, e) (add_pairs-All generator seen pairs h)
        | inr e ↦
            rw (add_pairs, e)
              (
                (generator, (p, (s, r, refl))),
                add_pairs-All generator ((p.symbol_id, s.symbol_id) ∷ seen) pairs h,
              )
      ]

  add_groups-All :
      (generator : Text) (seen : SeenPairs) (ks : List Text) (groups : Groups F)
      → Every (λ k g. All IsReadable g) groups
      → All IsOfPair (add_groups generator seen ks groups).0
  unfolding add_groups
  add_groups-All generator seen [] groups h = tt
  add_groups-All generator seen (k ∷ ks) groups h =
      All-append IsOfPair _ _
        (add_pairs-All generator seen _ (
          consecutive-All _
            (sort_by-All earlier IsReadable (group_of k groups) (group_of-All k groups h))))
        (add_groups-All generator
          (add_pairs generator seen (consecutive (sort_by earlier (group_of k groups)))).1 ks groups
          h)

  pub generate-All :
      (facts : List (SymbolFacts F)) → All IsReadable facts → All IsOfPair (generate facts)
  unfolding generate
  generate-All facts h = sort_by-All candidate_less IsOfPair _ (
      All-append IsOfPair _ _
        (add_groups-All (bytes "issuer-prefix") [] _ _ (by_prefix-Every facts [] h tt))
        (add_groups-All (bytes "ticker") _ _ _ (by_ticker-Every facts [] h tt)))
