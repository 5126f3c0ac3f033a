-- ===== src/Entities/Apply.antt =====
-- internal/market/entities/apply.go: the rows of a roster are written to symbol_links. A transaction is
-- the table that it leaves: the old one after an error or a dry run.
use verdict_machine.Base.{
  Bool, true, false, not, ◌&&◌, Option, none, some, List, [], ◌∷◌, map, any, if◌then◌else◌,
}
use verdict_machine.Base.Int.{ℤ, eqb_ℤ, ltb_ℤ}
use verdict_machine.Base.Text.{Text, bytes, eqb_text}
use verdict_machine.Base.Sort.{sort_by}
use verdict_machine.Base.Map.{lookup, int_key}
use verdict_machine.Base.Result.{Outcome, ok, err, ◌>>=◌}
use verdict_machine.Float.{Float}
use verdict_machine.Time.{Time, same_time}
use verdict_machine.Entities.Link.{Roster}
use verdict_machine.Entities.Graph.{RosterFault, validate}
use verdict_machine.Entities.Plan.{
  Registry, LinkRow, LinkState, SymbolLink, Current, current_map, Difference, boundary_differs,
  predecessor_differs, ApplyFault, not_valid, no_digest, is_entity, not_a_root, other_entity,
  says_otherwise, plan,
}

-- `SeededBy`
abbrev pub seeded_by_apply : Text
seeded_by_apply = bytes "entities apply v1"

abbrev pub reason_retraction : Text
reason_retraction = bytes "retraction"

abbrev pub nullable : Text → Option Text
nullable s = if eqb_text s [] then none else some s

-- A symbol of another entity than itself.
abbrev pub is_member : ℤ → ℤ → LinkState → Bool
is_member entity symbol st = eqb_ℤ st.entity_id entity && not (eqb_ℤ symbol st.entity_id)

unfoldable pub members_of : ℤ → Current → List ℤ
members_of entity [] = []
members_of entity ((symbol, st) ∷ current) =
    let rest = members_of entity current in
    if is_member entity symbol st then symbol ∷ rest else rest

abbrev pub is_at : Option Time → Time → Bool
is_at none t = false
is_at (some s) t = same_time s t

abbrev pub is_id : Option ℤ → ℤ → Bool
is_id none id = false
is_id (some p) id = eqb_ℤ p id

-- The row under the newer ones.
unfoldable pub write_all : List SymbolLink → List SymbolLink → List SymbolLink
write_all [] table = table
write_all (s ∷ written) table = write_all written (s ∷ table)

-- `retractedSymbols`
abbrev pub is_retracted : List SymbolLink → ℤ → Bool
is_retracted table id = any (λ s. eqb_text s.reason reason_retraction && eqb_ℤ s.symbol_id id) table

abbrev pub stamp : Text → Text
stamp seeded_by = if eqb_text seeded_by [] then seeded_by_apply else seeded_by

abbrev pub unless_fault : {A : Type 0} → Option ApplyFault → A → Outcome ApplyFault A
unless_fault none a = ok a
unless_fault (some e) a = err e

pub record ApplyResult (F : Type 0) : Type 0 where
  pub rows : List (LinkRow F)
  pub skipped : List (LinkRow F)
  pub dry_run : Bool

module _ {F : Type 0} where
  abbrev pub check_row : Current → LinkRow F → List ℤ → Option ApplyFault
  check_row current row (kid ∷ kids) =
      some (is_entity row.symbol_id (sort_by ltb_ℤ (kid ∷ kids)) row.entity_id)
  check_row current row [] = elim (lookup row.entity_id current) [
    | none ↦ none
    | some st ↦
        if not (eqb_ℤ st.entity_id row.entity_id)
        then some (not_a_root row.entity_id row.symbol_id st.entity_id)
        else none
  ]

  unfoldable pub check_entity_names : List (LinkRow F) → Current → Option ApplyFault
  check_entity_names [] current = none
  check_entity_names (row ∷ rows) current =
      elim (check_row current row (members_of row.symbol_id current)) [
        | some e ↦ some e
        | none ↦ check_entity_names rows current
      ]

  abbrev pub boundary_difference : LinkState → LinkRow F → List Difference → List Difference
  boundary_difference st row rest =
      if is_at st.boundary row.boundary
      then rest
      else boundary_differs st.boundary row.boundary ∷ rest

  abbrev pub predecessor_difference : LinkState → LinkRow F → List Difference
  predecessor_difference st row =
      if is_id st.predecessor row.predecessor_id
      then []
      else predecessor_differs st.predecessor row.predecessor_id ∷ []

  unfoldable pub differs_from : LinkState → LinkRow F → List Difference
  differs_from st row = boundary_difference st row (predecessor_difference st row)

  -- A row that the store already has as it is, is skipped.
  abbrev pub skip_unless : LinkRow F → List Difference → Outcome ApplyFault Bool
  skip_unless row [] = ok false
  skip_unless row (d ∷ diffs) = err (says_otherwise row.symbol_id (d ∷ diffs))

  abbrev pub against : LinkState → LinkRow F → Outcome ApplyFault Bool
  against st row =
      if eqb_ℤ st.entity_id row.symbol_id
      then ok true
      else if not (eqb_ℤ st.entity_id row.entity_id)
      then err (other_entity row.symbol_id st.entity_id row.entity_id)
      else skip_unless row (differs_from st row)

  -- Whether the row is written.
  unfoldable pub take_row : Current → LinkRow F → Outcome ApplyFault Bool
  take_row current row = elim (lookup row.symbol_id current) [
    | none ↦ ok true
    | some st ↦ against st row
  ]

  abbrev pub put : Bool → LinkRow F → ApplyResult F → ApplyResult F
  put true row out = record out { rows = row ∷ out.rows }
  put false row out = record out { skipped = row ∷ out.skipped }

  unfoldable pub take_rows : Bool → Current → List (LinkRow F) → Outcome ApplyFault (ApplyResult F)
  take_rows dry_run current [] = ok record { rows = []; skipped = []; dry_run = dry_run }
  take_rows dry_run current (row ∷ rows) = do
    written ← take_row current row
    out ← take_rows dry_run current rows
    ok (put written row out)

  abbrev pub marked : List SymbolLink → LinkRow F → LinkRow F
  marked table row = record row { was_retracted = is_retracted table row.symbol_id }

  abbrev pub state_of : LinkRow F → LinkState
  state_of row = record {
    entity_id = row.entity_id;
    boundary = some row.boundary;
    predecessor = some row.predecessor_id;
  }

  abbrev pub inserted : Text → Text → LinkRow F → SymbolLink
  inserted digest seeded_by row = record {
    symbol_id = row.symbol_id;
    state = state_of row;
    reason = row.reason;
    roster_sha = digest;
    seeded_by = seeded_by;
    note = nullable row.note;
  }

  -- The loop of `Apply`, and the table after it.
  abbrev pub commit :
      Bool → List SymbolLink → Text → Text → ApplyResult F → ApplyResult F × List SymbolLink
  commit dry_run table digest seeded_by out =
      if dry_run
      then (out, table)
      else (out, write_all (map (inserted digest (stamp seeded_by)) out.rows) table)

  unfoldable pub apply_rows :
      List SymbolLink
      → Text
      → Text
      → Bool
      → List (LinkRow F)
      → Outcome ApplyFault (ApplyResult F × List SymbolLink)
  apply_rows table digest seeded_by dry_run rows = do
    checked ← unless_fault (check_entity_names rows (current_map table)) (map (marked table) rows)
    out ← take_rows dry_run (current_map table) checked
    ok (commit dry_run table digest seeded_by out)

abbrev pub invalid : Option RosterFault → Option ApplyFault
invalid none = none
invalid (some e) = some (not_valid e)

module _ {F : Type 0} ⦃fl : Float F⦄ where
  unfoldable pub apply_roster :
      Registry
      → List SymbolLink
      → Roster F
      → Text
      → Text
      → Bool
      → Outcome ApplyFault (ApplyResult F × List SymbolLink)
  apply_roster registry table r digest seeded_by dry_run = do
    links ← unless_fault (invalid (validate r)) r.links
    some_digest ← if eqb_text digest [] then err no_digest else ok digest
    rows ← plan registry links (current_map table)
    apply_rows table some_digest seeded_by dry_run rows
