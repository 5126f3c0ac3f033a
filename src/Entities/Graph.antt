-- ===== src/Entities/Graph.antt =====
-- internal/market/entities/roster.go: G5 over the set of the lines, and the validation of a roster.
use verdict_machine.Base.{
  ℕ, zero, suc, Bool, true, false, not, Option, none, some, List, [], ◌∷◌, ◌++◌, length,
  if◌then◌else◌,
}
use verdict_machine.Base.Int.{ℤ, eqb_ℤ}
use verdict_machine.Base.Text.{Text, bytes}
use verdict_machine.Base.Map.{Map, lookup, insert, text_key}
use verdict_machine.Base.Result.{Outcome, ok, err, ◌>>=◌}
use verdict_machine.Float.{Float}
use verdict_machine.Time.{before}
use verdict_machine.Entities.Link.{Link, Roster, roster_version, parse_day, day_or_zero}
use verdict_machine.Entities.Lines.{Fault, validate_link}

pub data GraphFault : Type 0 where
  -- The ISIN that is claimed twice, and the two that it is claimed with.
  two_predecessors : Text → Text → Text → GraphFault
  two_successors : Text → Text → Text → GraphFault
  span_backwards : Text → GraphFault
  in_cycle : Text → Text → GraphFault
  out_of_fuel : GraphFault

abbrev pub Seen : Type 0
Seen = Map Text Bool

abbrev pub is_seen : Seen → Text → Bool
is_seen seen k = elim (lookup k seen) [ none ↦ false | some b ↦ b ]

abbrev pub Index : Type 0 → Type 0
Index F = Map Text (Link F)

pub data RosterFault : Type 0 where
  bad_version : ℤ → RosterFault
  bad_line : Text → Text → Fault → RosterFault
  bad_graph : GraphFault → RosterFault

abbrev pub graph_fault : Option GraphFault → Option RosterFault
graph_fault none = none
graph_fault (some e) = some (bad_graph e)

module _ {F : Type 0} where
  abbrev pub pair_key : Link F → Text
  pair_key l = l.predecessor ++ (bytes ">" ++ l.successor)

  -- The lines by their successor and by their predecessor; no ISIN is claimed twice.
  unfoldable pub claim_all :
      Index F × Index F → List (Link F) → Outcome GraphFault (Index F × Index F)
  claim_all claims [] = ok claims
  claim_all (by_successor, by_predecessor) (l ∷ links) = elim (lookup l.successor by_successor) [
    | some prev ↦ err (two_predecessors l.successor prev.predecessor l.predecessor)
    | none ↦ elim (lookup l.predecessor by_predecessor) [
      | some prev ↦ err (two_successors l.predecessor prev.successor l.successor)
      | none ↦
          claim_all (insert l.successor l by_successor, insert l.predecessor l by_predecessor) links
    ]
  ]

  -- The next line's predecessor stops trading before it starts.
  abbrev pub is_backwards : Link F → Link F → Bool
  is_backwards cur next =
      before (day_or_zero (parse_day next.gates.predecessor_last_bar))
        (day_or_zero (parse_day cur.gates.successor_first_bar))

  -- Forwards from a root; each round is of another line.
  unfoldable pub walk : ℕ → Index F → Seen → Link F → Outcome GraphFault Seen
  walk zero by_predecessor seen cur = err out_of_fuel
  walk (suc fuel) by_predecessor seen cur = elim (lookup cur.successor by_predecessor) [
    | none ↦ ok (insert (pair_key cur) true seen)
    | some next ↦
        let rest = walk fuel by_predecessor (insert (pair_key cur) true seen) next in
        if is_backwards cur next then err (span_backwards cur.successor) else rest
  ]

  -- Roots are walked from; the others are reached from them.
  abbrev pub walk_root : ℕ → Index F × Index F → Seen → Link F → Outcome GraphFault Seen
  walk_root fuel (by_successor, by_predecessor) seen l = elim (lookup l.predecessor by_successor) [
    | some _ ↦ ok seen
    | none ↦ walk fuel by_predecessor seen l
  ]

  unfoldable pub walk_all : ℕ → Index F × Index F → Seen → List (Link F) → Outcome GraphFault Seen
  walk_all fuel claims seen [] = ok seen
  walk_all fuel claims seen (l ∷ links) = do
    seen' ← walk_root fuel claims seen l
    walk_all fuel claims seen' links

  unfoldable pub first_unseen : Seen → List (Link F) → Option (Link F)
  first_unseen seen [] = none
  first_unseen seen (l ∷ links) =
      let rest = first_unseen seen links in if not (is_seen seen (pair_key l)) then some l else rest

  abbrev pub cycle_fault : Option (Link F) → Option GraphFault
  cycle_fault none = none
  cycle_fault (some l) = some (in_cycle l.predecessor l.successor)

  abbrev pub unseen_fault : List (Link F) → Outcome GraphFault Seen → Option GraphFault
  unseen_fault links (err e) = some e
  unseen_fault links (ok seen) = cycle_fault (first_unseen seen links)

  -- A walk meets each line once at most, so as many rounds as there are lines are enough.
  unfoldable pub validate_graph : List (Link F) → Option GraphFault
  validate_graph links =
      unseen_fault links
        (do claims ← claim_all ([], []) links; walk_all (length links) claims [] links)

  module _ ⦃fl : Float F⦄ where
    -- The first line that has a fault.
    unfoldable pub validate_links : List (Link F) → Option (Link F × Fault)
    validate_links [] = none
    validate_links (l ∷ links) = elim (validate_link l) [
      | some e ↦ some (l, e)
      | none ↦ validate_links links
    ]

    abbrev pub or_graph : List (Link F) → Option (Link F × Fault) → Option RosterFault
    or_graph links (some (l, e)) = some (bad_line l.predecessor l.successor e)
    or_graph links none = graph_fault (validate_graph links)

    unfoldable pub validate : Roster F → Option RosterFault
    validate r =
        if not (eqb_ℤ r.version roster_version)
        then some (bad_version r.version)
        else or_graph r.links (validate_links r.links)
