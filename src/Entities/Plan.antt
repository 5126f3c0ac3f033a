-- ===== src/Entities/Plan.antt =====
-- internal/market/entities/apply.go: the rows that a roster asks for. The two tables that it reads are
-- values: the registry of symbols, as the pairs of an ISIN and an id in any order, and symbol_links,
-- the newest row first.
use verdict_machine.Base.{
  ℕ, zero, suc, Bool, false, not, Option, none, some, List, [], ◌∷◌, map, select, length,
  if◌then◌else◌,
}
use verdict_machine.Base.Int.{ℤ, pos, eqb_ℤ, ltb_ℤ}
use verdict_machine.Base.Text.{Text, eqb_text, less_text}
use verdict_machine.Base.Sort.{contains, sort_by}
use verdict_machine.Base.Map.{Map, lookup, insert, int_key, text_key}
use verdict_machine.Base.Result.{Outcome, ok, err, ◌>>=◌}
use verdict_machine.Time.{Time, before}
use verdict_machine.Entities.Link.{Gates, EvidenceNotGating, Link, reason_of, parse_day}
use verdict_machine.Entities.Graph.{RosterFault}

abbrev pub Registry : Type 0
Registry = List (Text × ℤ)

pub record Evidence (F : Type 0) : Type 0 where
  pub gates : Gates F
  pub evidence_notgating : EvidenceNotGating
  pub ticker_at_boundary : Text
  pub ratified_by : Text
  pub ratified_at : Text

pub record LinkRow (F : Type 0) : Type 0 where
  pub symbol_id : ℤ
  pub entity_id : ℤ
  pub predecessor_id : ℤ
  pub boundary : Time
  pub reason : Text
  pub note : Text
  pub evidence : Evidence F
  pub isin : Text
  pub predecessor_isin : Text
  pub entity_isin : Text
  pub was_retracted : Bool

-- What a symbol resolves to now.
pub record LinkState : Type 0 where
  pub entity_id : ℤ
  pub boundary : Option Time
  pub predecessor : Option ℤ

-- A row of symbol_links, without the columns that nothing reads.
pub record SymbolLink : Type 0 where
  pub symbol_id : ℤ
  pub state : LinkState
  pub reason : Text
  pub roster_sha : Text
  pub seeded_by : Text
  pub note : Option Text

abbrev pub Current : Type 0
Current = Map ℤ LinkState

-- `currentMap`: the latest row of each symbol.
unfoldable pub current_map : List SymbolLink → Current
current_map [] = []
current_map (s ∷ older) = insert s.symbol_id s.state (current_map older)

pub data Difference : Type 0 where
  boundary_differs : Option Time → Time → Difference
  predecessor_differs : Option ℤ → ℤ → Difference

pub data ApplyFault : Type 0 where
  not_valid : RosterFault → ApplyFault
  no_digest : ApplyFault
  two_ids : Text → ℤ → ℤ → ApplyFault
  unregistered : List Text → ApplyFault
  bad_boundary : Text → ApplyFault
  is_entity : ℤ → List ℤ → ℤ → ApplyFault
  not_a_root : ℤ → ℤ → ℤ → ApplyFault
  other_entity : ℤ → ℤ → ℤ → ApplyFault
  says_otherwise : ℤ → List Difference → ApplyFault
  out_of_fuel : ApplyFault

unfoldable pub collect_ids : Registry → Map Text ℤ → Outcome ApplyFault (Map Text ℤ)
collect_ids [] ids = ok ids
collect_ids ((isin, id) ∷ rows) ids =
    let rest = collect_ids rows (insert isin id ids) in
    elim (lookup isin ids) [
      | none ↦ rest
      | some prev ↦ if not (eqb_ℤ prev id) then err (two_ids isin prev id) else rest
    ]

unfoldable pub missing : Map Text ℤ → List Text → List Text
missing ids [] = []
missing ids (isin ∷ want) =
    let rest = missing ids want in elim (lookup isin ids) [ none ↦ isin ∷ rest | some _ ↦ rest ]

abbrev pub all_registered : Map Text ℤ → List Text → Outcome ApplyFault (Map Text ℤ)
all_registered ids [] = ok ids
all_registered ids (isin ∷ isins) = err (unregistered (sort_by less_text (isin ∷ isins)))

-- `ids[isin]`
abbrev pub id_of : Map Text ℤ → Text → ℤ
id_of ids isin = elim (lookup isin ids) [ none ↦ pos 0 | some id ↦ id ]

-- `isinsOf`: the later of two rows of an id is kept.
unfoldable pub isins_of : List ℤ → Registry → Map ℤ Text → Map ℤ Text
isins_of ids [] names = names
isins_of ids ((isin, id) ∷ rows) names =
    isins_of ids rows (if contains eqb_ℤ ids id then insert id isin names else names)

abbrev pub name_in : Map ℤ Text → ℤ → Text
name_in names id = elim (lookup id names) [ none ↦ [] | some isin ↦ isin ]

-- The start of the chain; each round is of another line.
unfoldable pub root_of : ℕ → Map Text Text → Text → Outcome ApplyFault Text
root_of zero preds root = err out_of_fuel
root_of (suc fuel) preds root = elim (lookup root preds) [
  | none ↦ ok root
  | some prev ↦ root_of fuel preds prev
]

-- The entity that the store has for a root, or the root itself.
unfoldable pub resolved : Current → ℤ → ℤ
resolved current id = elim (lookup id current) [ none ↦ id | some st ↦ st.entity_id ]

module _ {F : Type 0} where
  abbrev pub named_isins : List (Link F) → List Text
  named_isins [] = []
  named_isins (l ∷ links) = l.predecessor ∷ l.successor ∷ named_isins links

  unfoldable pub resolve_isins : Registry → List (Link F) → Outcome ApplyFault (Map Text ℤ)
  resolve_isins registry links = do
    ids ← collect_ids (select (λ r. contains eqb_text (named_isins links) r.0) registry) []
    all_registered ids (missing ids (named_isins links))

  -- `predecessorOf`
  unfoldable pub predecessors_of : List (Link F) → Map Text Text → Map Text Text
  predecessors_of [] m = m
  predecessors_of (l ∷ links) m = predecessors_of links (insert l.successor l.predecessor m)

  abbrev pub boundary_of : Link F → Outcome ApplyFault Time
  boundary_of l = elim (parse_day l.effective_from) [
    | none ↦ err (bad_boundary l.effective_from)
    | some t ↦ ok t
  ]

  abbrev pub row_of : Map Text ℤ → Current → Link F → Text → Time → LinkRow F
  row_of ids current l root boundary =
      let entity = resolved current (id_of ids root) in
      record {
        symbol_id = id_of ids l.successor;
        entity_id = entity;
        predecessor_id = id_of ids l.predecessor;
        boundary = boundary;
        reason = reason_of l;
        note = l.note;
        evidence = record {
          gates = l.gates;
          evidence_notgating = l.evidence_not_gating;
          ticker_at_boundary = l.ticker_at_boundary;
          ratified_by = l.ratified_by;
          ratified_at = l.ratified_at;
        };
        isin = l.successor;
        predecessor_isin = l.predecessor;
        entity_isin = if eqb_ℤ entity (id_of ids root) then root else [];
        was_retracted = false;
      }

  unfoldable pub plan_lines :
      ℕ
      → Map Text ℤ
      → Map Text Text
      → Current
      → List (Link F)
      → Outcome ApplyFault (List (LinkRow F))
  plan_lines fuel ids preds current [] = ok []
  plan_lines fuel ids preds current (l ∷ links) = do
    root ← root_of fuel preds l.predecessor
    boundary ← boundary_of l
    rest ← plan_lines fuel ids preds current links
    ok (row_of ids current l root boundary ∷ rest)

  -- The entities that were read off the store are those without a name yet.
  unfoldable pub unnamed : List (LinkRow F) → List ℤ
  unnamed [] = []
  unnamed (row ∷ rows) =
      let rest = unnamed rows in if eqb_text row.entity_isin [] then row.entity_id ∷ rest else rest

  abbrev pub named : Map ℤ Text → LinkRow F → LinkRow F
  named names row =
      if eqb_text row.entity_isin []
      then record row { entity_isin = name_in names row.entity_id }
      else row

  abbrev pub row_less : LinkRow F → LinkRow F → Bool
  row_less a b =
      if not (eqb_ℤ a.entity_id b.entity_id)
      then ltb_ℤ a.entity_id b.entity_id
      else before a.boundary b.boundary

  abbrev pub arranged : Registry → List (LinkRow F) → List (LinkRow F)
  arranged registry rows = sort_by row_less (map (named (isins_of (unnamed rows) registry [])) rows)

  -- A chain has each line once at most, so as many rounds as there are lines, and one, are enough.
  unfoldable pub plan : Registry → List (Link F) → Current → Outcome ApplyFault (List (LinkRow F))
  plan registry links current = do
    ids ← resolve_isins registry links
    rows ← plan_lines (suc (length links)) ids (predecessors_of links []) current links
    ok (arranged registry rows)
