-- ===== src/Entities/Stores.antt =====
-- A split is applied to an empty store, applied again, and retracted.
use verdict_machine.Base.{◌≡◌, refl, false, none, some, List, [], ◌∷◌, inl, inr}
use verdict_machine.Base.Int.{pos, ◌*ℤ◌, ◌-ℤ◌}
use verdict_machine.Base.Text.{bytes, eqb_text}
use verdict_machine.Base.Map.{lookup, insert}
use verdict_machine.Base.Sort.{sort_by, insert_sorted, contains}
use verdict_machine.Base.Result.{ok, Fails}
use verdict_machine.Float.Fixed.{Fixed, fixed_float}
use verdict_machine.Time.{date}
use verdict_machine.Entities.Ids.{IsRegistry}
use verdict_machine.Entities.Plan.{
  Registry, LinkRow, SymbolLink, current_map, collect_ids, missing, isins_of, resolve_isins,
  predecessors_of, root_of, resolved, plan_lines, unnamed, plan,
}
use verdict_machine.Entities.Apply.{
  reason_retraction, members_of, check_entity_names, take_row, take_rows, ApplyResult, write_all,
  apply_rows, apply_roster, seeded_by_apply,
}
use verdict_machine.Entities.Graph.{
  validate, validate_links, validate_graph, claim_all, walk, walk_all, first_unseen,
}
use verdict_machine.Entities.Lines.{first_fault, validate_link}
use verdict_machine.Entities.Isin.{
  weigh, add_char, sum_from, check_digit_ok, well_formed_isin, issue_serial,
}
use verdict_machine.Entities.Link.{parse_day, days_between, nearest_band, reason_succession}
use verdict_machine.Entities.Retract.{
  RetractResult, read_digits, parse_int, ids_of, resolve_ref, retract_from, retract,
}
use verdict_machine.Entities.Flatness.{IsFlat}
use verdict_machine.Entities.Applied.{apply_roster-IsFlat}
use verdict_machine.Entities.Again.{apply_roster-again}
use verdict_machine.Entities.Ends.{IsOfCode, apply_roster-Fails}
use verdict_machine.Entities.Dissolved.{IsRetracted, retract-IsRetracted}
use verdict_machine.Entities.Samples.{old_isin, new_isin, split_line, one_line}

abbrev registry : Registry
registry = (old_isin, pos 1) ∷ (new_isin, pos 2) ∷ []

registry-IsRegistry : IsRegistry registry
registry-IsRegistry a b id (inl e) (inl f) = cc
registry-IsRegistry a b id (inl e) (inr (inl f)) = cc
registry-IsRegistry a b id (inr (inl e)) (inl f) = cc
registry-IsRegistry a b id (inr (inl e)) (inr (inl f)) = cc
registry-IsRegistry a b id (inl e) (inr (inr f)) = absurd f
registry-IsRegistry a b id (inr (inl e)) (inr (inr f)) = absurd f
registry-IsRegistry a b id (inr (inr e)) f = absurd e

abbrev split_row : LinkRow Fixed
split_row = record {
  symbol_id = pos 2;
  entity_id = pos 1;
  predecessor_id = pos 1;
  boundary = date 2022 7 29;
  reason = reason_succession;
  note = [];
  evidence = record {
    gates = split_line.gates;
    evidence_notgating = split_line.evidence_not_gating;
    ticker_at_boundary = bytes "TATASTEEL";
    ratified_by = [];
    ratified_at = [];
  };
  isin = new_isin;
  predecessor_isin = old_isin;
  entity_isin = old_isin;
  was_retracted = false;
}

abbrev split_link : SymbolLink
split_link = record {
  symbol_id = pos 2;
  state = record {
    entity_id = pos 1;
    boundary = some (date 2022 7 29);
    predecessor = some (pos 1);
  };
  reason = reason_succession;
  roster_sha = bytes "sha";
  seeded_by = seeded_by_apply;
  note = none;
}

abbrev first_result : ApplyResult Fixed
first_result = record { rows = split_row ∷ []; skipped = []; dry_run = false }

split_applies :
    apply_roster registry [] one_line (bytes "sha") [] false ≡ ok (first_result, split_link ∷ [])
unfolding validate validate_links validate_link first_fault well_formed_isin check_digit_ok sum_from
    add_char weigh issue_serial parse_day days_between eqb_text nearest_band validate_graph
    claim_all walk walk_all first_unseen lookup insert apply_roster apply_rows plan resolve_isins
    collect_ids missing plan_lines root_of predecessors_of resolved isins_of unnamed sort_by
    insert_sorted contains current_map members_of check_entity_names take_rows take_row write_all
    ◌*ℤ◌ ◌-ℤ◌
split_applies = refl

apply_roster-IsFlat_example : IsFlat (current_map (split_link ∷ []))
unfolding current_map resolved lookup
apply_roster-IsFlat_example =
    apply_roster-IsFlat registry [] (split_link ∷ []) one_line (bytes "sha") [] false first_result
      registry-IsRegistry (λ k. refl) split_applies

apply_roster-again_example :
    (out' : ApplyResult Fixed) × (apply_roster registry
        (split_link ∷ [])
        one_line
        (bytes "sha")
        []
        false
      ≡ ok (out', split_link ∷ []))
    × (out'.rows ≡ [])
apply_roster-again_example =
    apply_roster-again registry [] (split_link ∷ []) one_line (bytes "sha") [] first_result
      registry-IsRegistry split_applies

apply_roster-Fails_example :
    Fails IsOfCode (apply_roster registry [] one_line (bytes "sha") [] false)
apply_roster-Fails_example = apply_roster-Fails registry [] one_line (bytes "sha") [] false

abbrev split_retraction : RetractResult
split_retraction = record {
  entity_id = pos 1;
  members = record { symbol_id = pos 2; isin = new_isin; was_in = pos 1 } ∷ [];
  remaining = pos 0;
  symbol_scoped = false;
}

abbrev after_retraction : List SymbolLink
after_retraction =
    record {
      symbol_id = pos 2;
      state = record { entity_id = pos 2; boundary = none; predecessor = none };
      reason = reason_retraction;
      roster_sha = [];
      seeded_by = seeded_by_apply;
      note = some (bytes "wrong");
    }
    ∷ split_link
    ∷ []

split_retracts :
    retract registry (split_link ∷ []) new_isin (bytes "wrong") [] false
    ≡ ok (split_retraction, after_retraction)
unfolding retract retract_from resolve_ref parse_int read_digits ids_of isins_of resolved lookup
    insert current_map members_of sort_by insert_sorted contains eqb_text write_all
split_retracts = refl

retract-IsRetracted_example :
    IsRetracted registry (split_link ∷ []) new_isin (split_retraction, after_retraction)
retract-IsRetracted_example =
    retract-IsRetracted registry (split_link ∷ []) after_retraction new_isin (bytes "wrong") []
      false split_retraction split_retracts
