-- ===== src/Entities/Proposed.antt =====
-- internal/market/entities/propose.go: the lines of the roster that is proposed.
use mathlib.Core.Path.{subst}
use verdict_machine.Base.{
  ◌≡◌, refl, sym, Bool, true, none, List, [], ◌∷◌, ◌++◌, map, select, All, All-of_map, inl, inr,
  Bool-cases, Option-cases, if◌then◌else◌,
}
use verdict_machine.Base.Int.{ℤ, pos}
use verdict_machine.Base.Sort.{sort_by-All}
use verdict_machine.Base.Map.{Map, lookup, text_key, int_key}
use verdict_machine.Base.Result.{ok, ok-injective}
use verdict_machine.Float.{Float}
use verdict_machine.Time.{Time}
use verdict_machine.Entities.Link.{Link, link_less}
use verdict_machine.Entities.Lines.{validate_link}
use verdict_machine.Entities.Graph.{graph_fault, validate_graph, validate_links, validate}
use verdict_machine.Entities.Candidate.{
  Gate, q_retracted, g5, SymbolFacts, Candidate, accepted, ProposeOptions, link_of,
}
use verdict_machine.Entities.Gating.{
  sort_gates, gate, fail_g5, is_contested, path_gated, apply_path_gate,
}
use verdict_machine.Entities.Admission.{gate-validate_link, sort_gates-nil}
use verdict_machine.Entities.Proposing.{
  Overlap, Retraction, Proposal, with_overlap, with_retraction, unless_holes, generate, proposal,
  propose,
}
use verdict_machine.Entities.Generated.{IsReadable, IsOfPair, generate-All}

-- A gate that is added leaves none but failed candidates.
sorted_onto :
    {F : Type 0} (c : Candidate F) (g : Gate) (gates : List Gate)
    → accepted (record c { failed_gates = sort_gates (gates ++ (g ∷ [])) }) ≡ true
    → ⊥
sorted_onto c g gates h =
    append_one g gates
      (sort_gates-nil (gates ++ (g ∷ [])) (nothing (sort_gates (gates ++ (g ∷ []))) h))
  where
    nothing : (gs : List Gate) → accepted (record c { failed_gates = gs }) ≡ true → gs ≡ []
    nothing [] h = refl
    nothing (g ∷ gs) h = cc

    append_one : (g : Gate) (gs : List Gate) → gs ++ (g ∷ []) ≡ [] → ⊥
    append_one g [] h = cc
    append_one g (f ∷ gs) h = cc

module _ {F : Type 0} ⦃fl : Float F⦄ where
  module _ (opts : ProposeOptions) where
    -- The line of a candidate passes, if no gate failed it.
    abbrev IsPassing : Candidate F → Type 0
    IsPassing c = accepted c ≡ true → validate_link (link_of opts c) ≡ none

    gate-IsPassing :
        (sessions : List Time) (settled : Map Time Bool) (overlaps : List Overlap) (c : Candidate F)
        → IsOfPair c
        → IsPassing (gate sessions settled (pos 0) (with_overlap overlaps c))
    gate-IsPassing sessions settled overlaps c (generator, (p, (s, (rp, rs), e))) =
        subst (λ c. IsPassing (gate sessions settled (pos 0) (with_overlap overlaps c))) (sym e)
          (λ h. gate-validate_link opts sessions settled (pos 0) generator p s _ h rp.1 rs.0)

    with_retraction-IsPassing :
        (retracted : Map ℤ Retraction) (c : Candidate F)
        → IsPassing c
        → IsPassing (with_retraction retracted c)
    with_retraction-IsPassing retracted c h =
        elim (Option-cases (lookup c.successor_id retracted)) [
          | inl e ↦ rw (with_retraction, e) h
          | inr (r, e) ↦
              rw (with_retraction, e) (λ t. absurd (sorted_onto c q_retracted c.failed_gates t))
        ]

    fail_g5-IsPassing : (c : Candidate F) → IsPassing (fail_g5 c)
    fail_g5-IsPassing c t = absurd (sorted_onto c g5 c.failed_gates t)

    path_gated-IsPassing :
        (all : List (Candidate F)) (c : Candidate F) → IsPassing c → IsPassing (path_gated all c)
    path_gated-IsPassing all c h = elim (Bool-cases (is_contested (λ c. c.predecessor) all c)) [
      | inl e ↦
          rw (path_gated, e)
            (fail_g5-IsPassing (if is_contested (λ c. c.successor) all c then fail_g5 c else c))
      | inr e ↦ elim (Bool-cases (is_contested (λ c. c.successor) all c)) [
        | inl f ↦ rw (path_gated, e, f) (fail_g5-IsPassing c)
        | inr f ↦ rw (path_gated, e, f) h
      ]
    ]

    links_pass :
        (cands : List (Candidate F))
        → All IsPassing cands
        → All (λ l. validate_link l ≡ none) (map (link_of opts) (select accepted cands))
    links_pass [] h = tt
    links_pass (c ∷ cands) (p, h) = elim (Bool-cases (accepted c)) [
      | inl e ↦ rw e (p e, links_pass cands h)
      | inr e ↦ rw e (links_pass cands h)
    ]

  validate_links-none :
      (links : List (Link F))
      → All (λ l. validate_link l ≡ none) links
      → validate_links links ≡ none
  unfolding validate_links
  validate_links-none [] h = refl
  validate_links-none (l ∷ links) (e, h) = rw (validate_links, e) (validate_links-none links h)

  -- Every line of the roster passes, so only its graph may be at fault.
  abbrev pub IsProposed : Proposal F → Type 0
  IsProposed p =
      All (λ l. validate_link l ≡ none) p.roster.links
      × (p.fault ≡ graph_fault (validate_graph p.roster.links))

  proposal-IsProposed :
      (opts : ProposeOptions) (cands : List (Candidate F))
      → All (IsPassing opts) cands
      → IsProposed (proposal opts cands)
  unfolding validate
  proposal-IsProposed opts cands h =
      let passing =
        sort_by-All link_less (λ l. validate_link l ≡ none) _ (links_pass opts cands h) in
      (passing, rw (validate, validate_links-none _ passing) refl)

  unless_holes-eq : (holes : List Time) (p q : Proposal F) → unless_holes holes p ≡ ok q → p ≡ q
  unless_holes-eq [] p q h = ok-injective p q h
  unless_holes-eq (d ∷ holes) p q h = cc

  -- Where the dates of all symbols are written in a form that reads back and Propose returns a roster,
  -- every line of the roster passes validateLink, and the error that Validate returns with it, if there
  -- is one, is of the graph.
  pub propose-IsProposed :
      (opts : ProposeOptions) (facts : List (SymbolFacts F)) (sessions : List Time)
      (settled : Map Time Bool) (last_fetch : Time) (overlaps : List Overlap)
      (retracted : Map ℤ Retraction) (p : Proposal F)
      → All IsReadable facts
      → propose opts facts sessions settled last_fetch overlaps retracted ≡ ok p
      → IsProposed p
  unfolding propose apply_path_gate
  propose-IsProposed opts facts [] settled last_fetch overlaps retracted p readable h = cc
  propose-IsProposed opts facts (t ∷ ts) settled last_fetch overlaps retracted p readable h =
      subst IsProposed (unless_holes-eq _ _ p h) (
        proposal-IsProposed opts _ (
          All-of_map (IsPassing opts) (IsPassing opts) _ _ (path_gated-IsPassing opts _) (
            All-of_map IsOfPair (IsPassing opts) _ (generate facts)
              (λ c pair.
                with_retraction-IsPassing opts retracted _
                  (gate-IsPassing opts (t ∷ ts) settled overlaps c pair))
              (generate-All facts readable))))
