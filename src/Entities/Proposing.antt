-- ===== src/Entities/Proposing.antt =====
-- internal/market/entities/propose.go: the candidates of a store and the roster of those that pass, over
-- what the queries answer. unlinked.go: the candidates against the store's map. The counts are left out.
use verdict_machine.Base.{
  Bool, false, not, ◌&&◌, Option, none, some, List, [], ◌∷◌, ◌++◌, map, select, any, if◌then◌else◌,
}
use verdict_machine.Base.Int.{ℤ, pos, eqb_ℤ, ltb_ℤ}
use verdict_machine.Base.Text.{Text, bytes, eqb_text, less_text}
use verdict_machine.Base.Sort.{sort_by}
use verdict_machine.Base.Map.{Map, lookup, insert, keys, int_key, text_key}
use verdict_machine.Base.Result.{Outcome, ok, err}
use verdict_machine.Float.{Float}
use verdict_machine.Time.{Time, before, same_time}
use verdict_machine.Entities.Isin.{is_equity_isin, issuer_prefix}
use verdict_machine.Entities.Link.{Roster, roster_version, sort_roster}
use verdict_machine.Entities.Graph.{RosterFault, validate}
use verdict_machine.Entities.Candidate.{
  q_retracted, SymbolFacts, Candidate, accepted, ProposeOptions, link_of, new_candidate,
}
use verdict_machine.Entities.Gating.{sort_gates, archive_holes, gate, apply_path_gate}

-- An overlap that a query counted: two symbols, and the sessions that they share.
pub record Overlap : Type 0 where
  pub first : ℤ
  pub second : ℤ
  pub shared : ℤ

-- When a symbol was retracted, as it is printed, and why.
pub record Retraction : Type 0 where
  pub at : Text
  pub note : Text

-- The later of two rows of a pair is kept.
unfoldable pub overlap_of : ℤ → ℤ → ℤ → List Overlap → ℤ
overlap_of first second shared [] = shared
overlap_of first second shared (o ∷ os) =
    overlap_of first second
      (if eqb_ℤ o.first first && eqb_ℤ o.second second then o.shared else shared) os

abbrev pub Groups : Type 0 → Type 0
Groups F = Map Text (List (SymbolFacts F))

abbrev pub SeenPairs : Type 0
SeenPairs = List (ℤ × ℤ)

abbrev pub is_seen_pair : SeenPairs → ℤ → ℤ → Bool
is_seen_pair seen a b = any (λ k. eqb_ℤ k.0 a && eqb_ℤ k.1 b) seen

pub record Proposal (F : Type 0) : Type 0 where
  pub roster : Roster F
  pub reviewed : List (Candidate F)
  pub fault : Option RosterFault

-- What the map of a store has of the candidates.
pub record Unlinked (F : Type 0) : Type 0 where
  pub linkable : List (Candidate F)
  pub quarantined : List (Candidate F)
  pub stale : List (Candidate F)

abbrev pub are_linked : Option ℤ → Option ℤ → Bool
are_linked (some p) (some s) = eqb_ℤ p s
are_linked _ _ = false

module _ {F : Type 0} where
  abbrev pub group_of : Text → Groups F → List (SymbolFacts F)
  group_of k groups = elim (lookup k groups) [ none ↦ [] | some g ↦ g ]

  abbrev pub add_to : Text → SymbolFacts F → Groups F → Groups F
  add_to k f groups = insert k (group_of k groups ++ (f ∷ [])) groups

  unfoldable pub by_prefix : List (SymbolFacts F) → Groups F → Groups F
  by_prefix [] groups = groups
  by_prefix (f ∷ facts) groups =
      by_prefix facts
        (if is_equity_isin f.isin then add_to (issuer_prefix f.isin) f groups else groups)

  unfoldable pub by_ticker : List (SymbolFacts F) → Groups F → Groups F
  by_ticker [] groups = groups
  by_ticker (f ∷ facts) groups = by_ticker facts (add_to f.last_ticker f groups)

  abbrev pub earlier : SymbolFacts F → SymbolFacts F → Bool
  earlier a b =
      if not (same_time a.first_date b.first_date)
      then before a.first_date b.first_date
      else ltb_ℤ a.symbol_id b.symbol_id

  -- Each member with the next one.
  unfoldable pub consecutive : List (SymbolFacts F) → List (SymbolFacts F × SymbolFacts F)
  consecutive [] = []
  consecutive (p ∷ []) = []
  consecutive (p ∷ s ∷ g) = (p, s) ∷ consecutive (s ∷ g)

  abbrev pub candidate_less : Candidate F → Candidate F → Bool
  candidate_less a b =
      if not (eqb_text a.predecessor b.predecessor)
      then less_text a.predecessor b.predecessor
      else less_text a.successor b.successor

  -- `measureOverlaps`
  abbrev pub with_overlap : List Overlap → Candidate F → Candidate F
  with_overlap overlaps c = record c {
    overlap_dates = overlap_of c.predecessor_id c.successor_id (pos 0) overlaps;
  }

  abbrev pub withdrawn : Candidate F → Retraction → Candidate F
  withdrawn c r = record c {
    retracted_at = r.at;
    retraction_note = r.note;
    failed_gates = sort_gates (c.failed_gates ++ (q_retracted ∷ []));
  }

  abbrev pub with_retraction : Map ℤ Retraction → Candidate F → Candidate F
  with_retraction retracted c = elim (lookup c.successor_id retracted) [
    | none ↦ c
    | some r ↦ withdrawn c r
  ]

  abbrev pub disposed : Candidate F → Candidate F
  disposed c = record c {
    disposition = if accepted c then bytes "accepted" else bytes "quarantined";
  }

  unfoldable pub unlinked_candidates : List (Candidate F) → Map ℤ ℤ → Unlinked F
  unlinked_candidates [] entity_of = record { linkable = []; quarantined = []; stale = [] }
  unlinked_candidates (c ∷ cands) entity_of =
      let rest = unlinked_candidates cands entity_of in
      if are_linked (lookup c.predecessor_id entity_of) (lookup c.successor_id entity_of)
      then (if accepted c then rest else record rest { stale = c ∷ rest.stale })
      else if accepted c
      then record rest { linkable = c ∷ rest.linkable }
      else record rest { quarantined = c ∷ rest.quarantined }

pub data ProposeFault : Type 0 where
  no_bars : ProposeFault
  unsettled_dates : List Time → ProposeFault

unfoldable pub last_of : Time → List Time → Time
last_of t [] = t
last_of t (u ∷ ts) = last_of u ts

abbrev pub unless_holes : {A : Type 0} → List Time → A → Outcome ProposeFault A
unless_holes [] a = ok a
unless_holes (d ∷ holes) a = err (unsettled_dates (d ∷ holes))

module _ {F : Type 0} ⦃fl : Float F⦄ where
  -- The pairs of a group that are new, in order, and those seen after it.
  unfoldable pub add_pairs :
      Text → SeenPairs → List (SymbolFacts F × SymbolFacts F) → List (Candidate F) × SeenPairs
  add_pairs generator seen [] = ([], seen)
  add_pairs generator seen ((p, s) ∷ pairs) =
      let skipped = add_pairs generator seen pairs in
      let rest = add_pairs generator ((p.symbol_id, s.symbol_id) ∷ seen) pairs in
      if is_seen_pair seen p.symbol_id s.symbol_id
      then skipped
      else (new_candidate generator p s ∷ rest.0, rest.1)

  unfoldable pub add_groups :
      Text → SeenPairs → List Text → Groups F → List (Candidate F) × SeenPairs
  add_groups generator seen [] groups = ([], seen)
  add_groups generator seen (k ∷ ks) groups =
      let here = add_pairs generator seen (consecutive (sort_by earlier (group_of k groups))) in
      let rest = add_groups generator here.1 ks groups in (here.0 ++ rest.0, rest.1)

  abbrev pub sorted_keys : Groups F → List Text
  sorted_keys groups = sort_by less_text (keys groups)

  unfoldable pub generate : List (SymbolFacts F) → List (Candidate F)
  generate facts =
      let prefixes = by_prefix facts [] in
      let tickers = by_ticker facts [] in
      let by_issuer = add_groups (bytes "issuer-prefix") [] (sorted_keys prefixes) prefixes in
      let others = add_groups (bytes "ticker") by_issuer.1 (sorted_keys tickers) tickers in
      sort_by candidate_less (by_issuer.0 ++ others.0)

  abbrev pub proposal : ProposeOptions → List (Candidate F) → Proposal F
  proposal opts cands =
      let roster = sort_roster record {
        version = roster_version;
        digest = [];
        links = map (link_of opts) (select accepted cands);
      } in
      record {
        roster = roster;
        reviewed = sort_by candidate_less (map disposed cands);
        fault = validate roster;
      }

  -- The candidates with every gate but G5 measured.
  abbrev pub measured_candidates :
      List (SymbolFacts F)
      → List Time
      → Map Time Bool
      → List Overlap
      → Map ℤ Retraction
      → List (Candidate F)
  measured_candidates facts sessions settled overlaps retracted =
      map (λ c. with_retraction retracted (gate sessions settled (pos 0) (with_overlap overlaps c)))
        (generate facts)

  -- `Propose`: there are no holes when the gates are measured, so none is counted in them.
  unfoldable pub propose :
      ProposeOptions
      → List (SymbolFacts F)
      → List Time
      → Map Time Bool
      → Time
      → List Overlap
      → Map ℤ Retraction
      → Outcome ProposeFault (Proposal F)
  propose opts facts [] settled last_fetch overlaps retracted = err no_bars
  propose opts facts (t ∷ ts) settled last_fetch overlaps retracted =
      unless_holes (archive_holes t (last_of t ts) settled last_fetch).0 (
        proposal opts
          (apply_path_gate (measured_candidates facts (t ∷ ts) settled overlaps retracted)))
