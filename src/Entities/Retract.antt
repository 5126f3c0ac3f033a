-- ===== src/Entities/Retract.antt =====
-- internal/market/entities/apply.go: an entity is dissolved, by one row for each of its members.
use verdict_machine.Base.{
  ℕ, ◌+◌, ◌-◌, ◌*◌, Bool, true, false, not, ◌&&◌, Option, none, some, List, [], ◌∷◌, map, leb, ◌==◌,
  length, if◌then◌else◌,
}
use verdict_machine.Base.Int.{ℤ, pos, sub_ℕ, eqb_ℤ, ltb_ℤ}
use verdict_machine.Base.Text.{Text, eqb_text}
use verdict_machine.Base.Sort.{contains, sort_by}
use verdict_machine.Base.Map.{Map, int_key}
use verdict_machine.Base.Result.{Outcome, ok, err, ◌>>=◌}
use verdict_machine.Entities.Isin.{is_digit}
use verdict_machine.Entities.Plan.{
  Registry, SymbolLink, Current, current_map, resolved, isins_of, name_in,
}
use verdict_machine.Entities.Apply.{members_of, reason_retraction, nullable, stamp, write_all}

pub data RetractFault : Type 0 where
  no_symbol : Text → RetractFault
  many_symbols : Text → List ℤ → RetractFault
  is_root : ℤ → ℤ → List ℤ → RetractFault
  not_linked : ℤ → RetractFault
  not_alone : ℤ → ℤ → List ℤ → RetractFault
  no_members : ℤ → RetractFault

pub record RetractedMember : Type 0 where
  pub symbol_id : ℤ
  pub isin : Text
  pub was_in : ℤ

pub record RetractResult : Type 0 where
  pub entity_id : ℤ
  pub members : List RetractedMember
  pub remaining : ℤ
  pub symbol_scoped : Bool

-- `strconv.ParseInt(ref, 10, 64)`
unfoldable pub read_digits : ℕ → Text → Option ℕ
read_digits n [] = some n
read_digits n (c ∷ s) =
    let rest = read_digits (n * 10 + (c - b'0')) s in if is_digit c then rest else none

abbrev pub within : ℕ → Option ℕ → (ℕ → ℤ) → Option ℤ
within limit none sign = none
within limit (some n) sign = if leb n limit then some (sign n) else none

unfoldable pub parse_int : Text → Option ℤ
parse_int [] = none
parse_int (c ∷ []) = within 9_223_372_036_854_775_807 (read_digits 0 (c ∷ [])) pos
parse_int (c ∷ d ∷ s) =
    if c == b'-'
    then within 9_223_372_036_854_775_808 (read_digits 0 (d ∷ s)) (λ n. sub_ℕ 0 n)
    else if c == b'+'
    then within 9_223_372_036_854_775_807 (read_digits 0 (d ∷ s)) pos
    else within 9_223_372_036_854_775_807 (read_digits 0 (c ∷ d ∷ s)) pos

-- The distinct ids of an ISIN.
unfoldable pub ids_of : Text → Registry → List ℤ
ids_of isin [] = []
ids_of isin ((name, id) ∷ rows) =
    let rest = ids_of isin rows in
    if eqb_text name isin && not (contains eqb_ℤ rest id) then id ∷ rest else rest

abbrev pub the_one : Text → List ℤ → Outcome RetractFault ℤ
the_one ref [] = err (no_symbol ref)
the_one ref (id ∷ []) = ok id
the_one ref (id ∷ other ∷ ids) = err (many_symbols ref (id ∷ other ∷ ids))

unfoldable pub resolve_ref : Registry → Text → Outcome RetractFault ℤ
resolve_ref registry ref = elim (parse_int ref) [
  | some id ↦ ok id
  | none ↦ the_one ref (ids_of ref registry)
]

-- The members that are detached: all of the entity, or the one symbol where it is the only one.
abbrev pub scoped_to : ℤ → ℤ → List ℤ → Outcome RetractFault (List ℤ)
scoped_to target entity [] =
    if eqb_ℤ entity target then err (not_linked target) else ok (target ∷ [])
scoped_to target entity (m ∷ []) =
    if eqb_ℤ entity target then err (is_root target entity (m ∷ [])) else ok (target ∷ [])
scoped_to target entity (m ∷ n ∷ members) =
    if eqb_ℤ entity target
    then err (is_root target entity (m ∷ n ∷ members))
    else err (not_alone target entity (m ∷ n ∷ members))

abbrev pub some_members : ℤ → List ℤ → Outcome RetractFault (List ℤ)
some_members entity [] = err (no_members entity)
some_members entity (m ∷ members) = ok (m ∷ members)

abbrev pub detached : Bool → ℤ → ℤ → List ℤ → Outcome RetractFault (List ℤ)
detached true target entity members = scoped_to target entity members
detached false target entity members = ok members

abbrev pub retraction : Text → Text → ℤ → SymbolLink
retraction note seeded_by symbol = record {
  symbol_id = symbol;
  state = record { entity_id = symbol; boundary = none; predecessor = none };
  reason = reason_retraction;
  roster_sha = [];
  seeded_by = seeded_by;
  note = nullable note;
}

abbrev pub retracted_member : Map ℤ Text → ℤ → ℤ → RetractedMember
retracted_member names entity symbol = record {
  symbol_id = symbol;
  isin = name_in names symbol;
  was_in = entity;
}

-- The members of the entity, in the order of their ids.
abbrev pub listed_members : ℤ → Current → List ℤ
listed_members entity current = sort_by ltb_ℤ (members_of entity current)

abbrev pub retraction_result : Registry → Bool → ℤ → ℕ → List ℤ → RetractResult
retraction_result registry symbol_scoped entity linked members =
    let names = isins_of (entity ∷ members) registry [] in
    record {
      entity_id = entity;
      members = map (retracted_member names entity) members;
      remaining = sub_ℕ linked (length members);
      symbol_scoped = symbol_scoped;
    }

-- `Retract` of a resolved symbol.
unfoldable pub retract_from :
    Registry
    → List SymbolLink
    → ℤ
    → Text
    → Text
    → Bool
    → Outcome RetractFault (RetractResult × List SymbolLink)
retract_from registry table target note seeded_by symbol_scoped =
    let entity = resolved (current_map table) target in
    let linked = listed_members entity (current_map table) in
    do
      chosen ← detached symbol_scoped target entity linked
      members ← some_members entity chosen
      ok (
        retraction_result registry symbol_scoped entity (length linked) members,
        write_all (map (retraction note (stamp seeded_by)) members) table,
      )

unfoldable pub retract :
    Registry
    → List SymbolLink
    → Text
    → Text
    → Text
    → Bool
    → Outcome RetractFault (RetractResult × List SymbolLink)
retract registry table ref note seeded_by symbol_scoped = do
  target ← resolve_ref registry ref
  retract_from registry table target note seeded_by symbol_scoped
