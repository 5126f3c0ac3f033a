-- ===== src/Entities/Paths.antt =====
-- internal/market/entities/roster.go: a roster that validates is a set of paths.
use mathlib.Core.Path.{subst}
use verdict_machine.Base.{
  ◌≡◌, refl, sym, ◌∙◌, Bool, true, false, Option, none, some, List, [], ◌∷◌, length, All, IsIn,
  All-IsIn, inl, inr, Bool-cases, Option-cases, arith,
}
use verdict_machine.Base.Int.{eqb_ℤ}
use verdict_machine.Base.Text.{eqb_text}
use verdict_machine.Base.Sort.{IsNodup}
use verdict_machine.Base.Map.{lookup, text_key, Every, Every-lookup}
use verdict_machine.Base.Result.{Outcome, ok, err, Outcome-cases, Fails, Fails-err}
use verdict_machine.Float.{Float}
use verdict_machine.Entities.Isin.{isin_length}
use verdict_machine.Entities.Link.{Link, Roster, roster_version}
use verdict_machine.Entities.Lines.{first_fault, validate_link}
use verdict_machine.Entities.Graph.{
  GraphFault, Index, out_of_fuel, two_predecessors, two_successors, span_backwards, in_cycle,
  RosterFault, bad_version, bad_line, bad_graph, Seen, is_seen, pair_key, claim_all, first_unseen,
  unseen_fault, validate_graph, validate_links, graph_fault, validate,
}
use verdict_machine.Entities.Claims.{predecessors, successors, lookup-by_self, claim_all-IsClaimed}
use verdict_machine.Entities.Trails.{IsTrail}
use verdict_machine.Entities.Walks.{
  All-of_IsIn, append-prefix, IsReached, IsWalked, walk_all-IsWalked,
}

module _ {F : Type 0} where
  -- Of ISINs: twelve characters.
  abbrev pub IsSized : Link F → Type 0
  IsSized l = length l.predecessor ≡ isin_length

  -- No ISIN is claimed twice, and every line lies on a way from a root: there is no cycle.
  abbrev pub IsForest : List (Link F) → Type 0
  IsForest links =
      IsNodup eqb_text (predecessors links)
      × IsNodup eqb_text (successors links)
      × All (λ l. (vs : List (Link F)) × IsTrail links vs l) links

  -- What the checks of the graph say: a forest, or a fault that is not one of fuel.
  abbrev pub IsChecked : List (Link F) → Option GraphFault → Type 0
  IsChecked links none = IsForest links
  IsChecked links (some out_of_fuel) = ⊥
  IsChecked links (some (two_predecessors a b c)) = Unit
  IsChecked links (some (two_successors a b c)) = Unit
  IsChecked links (some (span_backwards a)) = Unit
  IsChecked links (some (in_cycle a b)) = Unit

  first_unseen-none :
      (seen : Seen) (ls : List (Link F))
      → first_unseen seen ls ≡ none
      → All (λ l. is_seen seen (pair_key l) ≡ true) ls
  unfolding first_unseen
  first_unseen-none seen [] h = tt
  first_unseen-none seen (l ∷ ls) h = elim (Bool-cases (is_seen seen (pair_key l))) [
    | inl e ↦ (e, first_unseen-none seen ls (rw e at h))
    | inr e ↦ cc (rw e at h)
  ]

  module _ (links : List (Link F)) (ps : IsNodup eqb_text (predecessors links)) where
    predecessor-injective :
        (u v : Link F) → IsIn u links → IsIn v links → u.predecessor ≡ v.predecessor → u ≡ v
    predecessor-injective u v hu hv e =
        let at_u = lookup-by_self (λ l. l.predecessor) u links ps hu in
        let at_v = lookup-by_self (λ l. l.predecessor) v links ps hv in cc (rw e at at_u, at_v)

    -- A line that was seen is on a trail.
    seen-IsTrail :
        (seen : Seen) (l : Link F)
        → Every (IsReached links) seen
        → All IsSized links
        → IsIn l links
        → is_seen seen (pair_key l) ≡ true
        → (vs : List (Link F)) × IsTrail links vs l
    seen-IsTrail seen l reached sized here h = elim (Option-cases (lookup (pair_key l) seen)) [
      | inl e ↦ cc (rw (is_seen, e) at h)
      | inr (b, e) ↦
          let (m, vs, there, t, key) =
            Every-lookup (IsReached links) (pair_key l) b seen reached e in
          let same = predecessor-injective m l there here (
            append-prefix m.predecessor l.predecessor _ _
              (All-IsIn IsSized m links sized there ∙ sym (All-IsIn IsSized l links sized here))
              key) in
          (vs, subst (IsTrail links vs) same t)
    ]

  walk-IsChecked :
      (links : List (Link F)) (o : Outcome GraphFault Seen)
      → IsNodup eqb_text (predecessors links)
      → IsNodup eqb_text (successors links)
      → All IsSized links
      → IsWalked links o
      → IsChecked links (unseen_fault links o)
  walk-IsChecked links (ok seen) ps ss sized reached =
      elim (Option-cases (first_unseen seen links)) [
        | inl e ↦
            rw (unseen_fault, e)
              (
                ps,
                ss,
                All-of_IsIn _ links (λ l here.
                    seen-IsTrail links ps seen l reached sized here
                      (All-IsIn _ l links (first_unseen-none seen links e) here)),
              )
        | inr (l, e) ↦ rw (unseen_fault, e) tt
      ]
  walk-IsChecked links (err (two_predecessors a b c)) ps ss sized h = tt
  walk-IsChecked links (err (two_successors a b c)) ps ss sized h = tt
  walk-IsChecked links (err (span_backwards a)) ps ss sized h = tt
  walk-IsChecked links (err (in_cycle a b)) ps ss sized h = tt
  walk-IsChecked links (err out_of_fuel) ps ss sized h = h

  -- Claims are refused by name, never for want of fuel.
  claim_all-Fails :
      (lines links : List (Link F)) (claims : Index F × Index F)
      → Fails (λ e. IsChecked lines (some e)) (claim_all claims links)
  unfolding claim_all
  claim_all-Fails lines [] claims = tt
  claim_all-Fails lines (l ∷ links) (bs, bp) = elim (Option-cases (lookup l.successor bs)) [
    | inr (p, e) ↦ rw (claim_all, e) tt
    | inl e ↦ elim (Option-cases (lookup l.predecessor bp)) [
      | inr (p, q) ↦ rw (claim_all, e, q) tt
      | inl q ↦ rw (claim_all, e, q) (claim_all-Fails lines links _)
    ]
  ]

  pub validate_graph-IsChecked :
      (links : List (Link F)) → All IsSized links → IsChecked links (validate_graph links)
  unfolding validate_graph
  validate_graph-IsChecked links sized = elim (Outcome-cases (claim_all ([], []) links)) [
    | inl (claims, e) ↦
        let (maps, ss, ps) = claim_all-IsClaimed links claims e in
        rw (e, maps)
          (walk-IsChecked links _ ps ss sized
            (walk_all-IsWalked links ss [] links (All-of_IsIn _ links (λ l h. h)) tt))
    | inr (fault, e) ↦
        rw e (
          Fails-err (λ e. IsChecked links (some e)) _ fault (claim_all-Fails links links ([], []))
            e)
  ]

first_fault-none :
    {E : Type 0} (b : Bool) (e : E) (checks : List (Bool × E))
    → first_fault ((b, e) ∷ checks) ≡ none
    → (b ≡ false) × (first_fault checks ≡ none)
unfolding first_fault
first_fault-none true e checks h = cc
first_fault-none false e checks h = (refl, h)

module _ {F : Type 0} ⦃fl : Float F⦄ where
  validate_link-IsSized : (l : Link F) → validate_link l ≡ none → IsSized l
  unfolding validate_link
  validate_link-IsSized l h =
      let (_, more) = first_fault-none _ _ _ h in
      let (_, most) = first_fault-none _ _ _ more in
      let (sized, _) = first_fault-none _ _ _ most in ground arith

  validate_links-IsSized : (links : List (Link F)) → validate_links links ≡ none → All IsSized links
  unfolding validate_links
  validate_links-IsSized [] h = tt
  validate_links-IsSized (l ∷ links) h = elim (Option-cases (validate_link l)) [
    | inl e ↦
        (validate_link-IsSized l e, validate_links-IsSized links (rw (e, validate_links) at h))
    | inr (f, e) ↦ cc (rw (e, validate_links) at h)
  ]

  -- A roster without a fault is a forest; no roster runs out of fuel.
  abbrev pub IsValidated : Roster F → Option RosterFault → Type 0
  IsValidated r none = IsForest r.links
  IsValidated r (some (bad_graph e)) = IsChecked r.links (some e)
  IsValidated r (some (bad_version v)) = Unit
  IsValidated r (some (bad_line p s e)) = Unit

  IsChecked-graph_fault :
      (r : Roster F) (o : Option GraphFault) → IsChecked r.links o → IsValidated r (graph_fault o)
  IsChecked-graph_fault r none h = h
  IsChecked-graph_fault r (some e) h = h

  -- Roster.Validate always ends within the fuel of its walks. Where it returns no error, no ISIN is the
  -- predecessor of two lines or the successor of two, and from each line the way back, predecessor by
  -- predecessor, reaches a line whose predecessor is no line's successor: the roster has no cycle.
  pub validate-IsValidated : (r : Roster F) → IsValidated r (validate r)
  unfolding validate
  validate-IsValidated r = elim (Bool-cases (eqb_ℤ r.version roster_version)) [
    | inr e ↦ rw e tt
    | inl e ↦ elim (Option-cases (validate_links r.links)) [
      | inr ((l, f), q) ↦ rw (e, q) tt
      | inl q ↦
          rw (e, q)
            (IsChecked-graph_fault r (validate_graph r.links)
              (validate_graph-IsChecked r.links (validate_links-IsSized r.links q)))
    ]
  ]
