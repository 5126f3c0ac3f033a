-- ===== src/Entities/Rosters.antt =====
-- internal/market/entities/roster.go and manual.go: the hand-written lines of a roster, and how a
-- regenerated one keeps them.
use verdict_machine.Base.{
  ◌≡◌, ◌↔◌, Bool, true, false, not, ◌&&◌, Option, none, some, List, [], ◌∷◌, ◌++◌, map, any, arith,
  if◌then◌else◌,
}
use verdict_machine.Base.Text.{Text, bytes, eqb_text, eqb_text_iff}
use verdict_machine.Base.Map.{Key, Map, lookup, insert, text_key}
use verdict_machine.Base.Result.{Outcome, ok, err, ◌>>=◌}
use verdict_machine.Float.{Float}
use verdict_machine.Entities.Link.{Link, Roster, is_manual, reason_manual, sort_roster}
use verdict_machine.Entities.Lines.{first_fault}
use verdict_machine.Entities.Graph.{RosterFault, validate}
use verdict_machine.Entities.Candidate.{Candidate}

-- Two ISINs, as a key.
abbrev pub Pair : Type 0
Pair = Text × Text

abbrev pub eqb_pair : Pair → Pair → Bool
eqb_pair (a, b) (c, d) = eqb_text a c && eqb_text b d

pub eqb_pair_iff : (p q : Pair) → (eqb_pair p q ≡ true) ↔ (p ≡ q)
eqb_pair_iff (a, b) (c, d) = ground (arith, eqb_text_iff a c, eqb_text_iff b d)

instance abbrev pub pair_key : Key Pair
pair_key = record { eqb = eqb_pair; eqb_iff = eqb_pair_iff }

pub record Adopted (F : Type 0) : Type 0 where
  pub link : Link F
  pub superseded_generated : Bool

-- The lines that disagree, and on what.
pub data AdoptFault : Type 0 where
  other_boundary : Pair → Text → AdoptFault
  same_successor : Pair → Pair → AdoptFault
  same_predecessor : Pair → Pair → AdoptFault

module _ {F : Type 0} where
  abbrev pub pair_of : Link F → Pair
  pair_of l = (l.predecessor, l.successor)

  -- `ManualLinks`
  unfoldable pub manual_links : List (Link F) → List (Link F)
  manual_links [] = []
  manual_links (l ∷ links) = let rest = manual_links links in if is_manual l then l ∷ rest else rest

  -- `sameBoundary`: the field that differs.
  abbrev pub other_field : Link F → Link F → Option Text
  other_field manual generated = first_fault (
      (not (eqb_text manual.effective_from generated.effective_from), bytes "effective_from")
      ∷ (
        not (eqb_text manual.gates.successor_first_bar generated.gates.successor_first_bar),
        bytes "gates.successor_first_bar",
      )
      ∷ (
        not (eqb_text manual.gates.predecessor_last_bar generated.gates.predecessor_last_bar),
        bytes "gates.predecessor_last_bar",
      )
      ∷ [])

  abbrev pub same_boundary : Link F → Link F → Outcome AdoptFault (Adopted F)
  same_boundary manual generated = elim (other_field manual generated) [
    | some field ↦ err (other_boundary (pair_of manual) field)
    | none ↦ ok record { link = manual; superseded_generated = true }
  ]

  -- The maps of the generated lines; a later line takes the place of an earlier one.
  unfoldable pub index :
      {K : Type 0} ⦃key : Key K⦄ → (Link F → K) → List (Link F) → Map K (Link F) → Map K (Link F)
  index name [] m = m
  index name (l ∷ links) m = index name links (insert (name l) l m)

  module _ (generated : List (Link F)) where
    -- A hand-written line that the generator did not produce.
    abbrev pub adopt_new : Link F → Outcome AdoptFault (Adopted F)
    adopt_new m = elim (lookup m.successor (index (λ l. l.successor) generated [])) [
      | some g ↦ err (same_successor (pair_of m) (pair_of g))
      | none ↦ elim (lookup m.predecessor (index (λ l. l.predecessor) generated [])) [
        | some g ↦ err (same_predecessor (pair_of m) (pair_of g))
        | none ↦ ok record { link = m; superseded_generated = false }
      ]
    ]

    unfoldable pub adopt : Link F → Outcome AdoptFault (Adopted F)
    adopt m = elim (lookup (pair_of m) (index pair_of generated [])) [
      | some twin ↦ same_boundary m twin
      | none ↦ adopt_new m
    ]

    unfoldable pub adopt_all : List (Link F) → Outcome AdoptFault (List (Adopted F))
    adopt_all [] = ok []
    adopt_all (m ∷ existing) =
        if is_manual m
        then (do a ← adopt m; rest ← adopt_all existing; ok (a ∷ rest))
        else adopt_all existing

  -- The pair of a line that was kept in place of a generated one.
  abbrev pub is_superseded : List (Adopted F) → Link F → Bool
  is_superseded kept l =
      any (λ a. a.superseded_generated && eqb_pair (pair_of a.link) (pair_of l)) kept

  unfoldable pub drop_superseded : List (Adopted F) → List (Link F) → List (Link F)
  drop_superseded kept [] = []
  drop_superseded kept (l ∷ links) =
      let rest = drop_superseded kept links in if is_superseded kept l then rest else l ∷ rest

  -- With nothing to keep the roster stays as it is.
  unfoldable pub with_adopted : Roster F → List (Adopted F) → Roster F
  with_adopted r [] = r
  with_adopted r (a ∷ kept) =
      sort_roster
        (record r { links = drop_superseded (a ∷ kept) r.links ++ map (λ a. a.link) (a ∷ kept) })

  -- `AdoptManual`; the caller asks for the validation of the roster that it gives.
  unfoldable pub adopt_manual :
      Roster F → List (Link F) → Outcome AdoptFault (Roster F × List (Adopted F))
  adopt_manual r existing = do kept ← adopt_all r.links existing; ok (with_adopted r kept, kept)

-- The line that `AppendManual` writes, on a day.
abbrev pub manual_line : {F : Type 0} → Candidate F → Text → Text → Text → Link F
manual_line c ratified_by today note = record {
  reason = reason_manual;
  predecessor = c.predecessor;
  successor = c.successor;
  ticker_at_boundary = c.ticker_after;
  effective_from = c.successor_span.0;
  gates = c.gates;
  evidence_not_gating = c.evidence_not_gating;
  ratified_by = ratified_by;
  ratified_at = today;
  note = note;
}

pub data AppendFault : Type 0 where
  already_there : Pair → AppendFault
  not_valid : RosterFault → AppendFault

abbrev pub checked_roster :
    {F : Type 0} → Roster F → Option RosterFault → Outcome AppendFault (Roster F)
checked_roster r none = ok r
checked_roster r (some e) = err (not_valid e)

-- `AppendManual`, between the reading and the writing of the file.
unfoldable pub append_manual :
    {F : Type 0} ⦃fl : Float F⦄
    → Roster F
    → Candidate F
    → Text
    → Text
    → Text
    → Outcome AppendFault (Roster F)
append_manual r c ratified_by today note =
    if any (λ l. eqb_text l.predecessor c.predecessor && eqb_text l.successor c.successor) r.links
    then err (already_there (c.predecessor, c.successor))
    else let r' = record r { links = r.links ++ (manual_line c ratified_by today note ∷ []) } in
      checked_roster r' (validate r')
