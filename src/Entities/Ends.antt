-- ===== src/Entities/Ends.antt =====
-- internal/market/entities/apply.go: the walks of the plan end.
use mathlib.Core.Path.{subst}
use verdict_machine.Base.{
  ℕ, suc, ◌≡◌, Bool, Option, none, some, List, [], ◌∷◌, map, length, select, All, All-map, All-zip,
  inl, inr, Bool-cases, Option-cases, if◌then◌else◌, arith,
}
use verdict_machine.Base.Int.{ℤ, eqb_ℤ}
use verdict_machine.Base.Text.{Text, eqb_text}
use verdict_machine.Base.Sort.{contains}
use verdict_machine.Base.Map.{Map, lookup, insert, int_key, text_key}
use verdict_machine.Base.Result.{Outcome, ok, err, ◌>>=◌, Fails, Fails->>=}
use verdict_machine.Float.{Float}
use verdict_machine.Entities.Link.{Link, Roster, parse_day}
use verdict_machine.Entities.Graph.{validate}
use verdict_machine.Entities.Paths.{IsForest}
use verdict_machine.Entities.Trails.{length-IsTrail-lt}
use verdict_machine.Entities.Roots.{root_of-IsTrail}
use verdict_machine.Entities.Plan.{
  Registry, LinkRow, LinkState, SymbolLink, Current, current_map, Difference, ApplyFault,
  out_of_fuel, no_digest, collect_ids, missing, all_registered, named_isins, resolve_isins,
  predecessors_of, root_of, boundary_of, plan_lines, plan,
}
use verdict_machine.Entities.Apply.{
  members_of, check_row, check_entity_names, differs_from, skip_unless, against, take_row,
  take_rows, marked, unless_fault, apply_rows, apply_roster,
}
use verdict_machine.Entities.Planned.{IsIn-all}
use verdict_machine.Entities.Applied.{links-IsForest}

-- Not the error of the model alone.
abbrev pub IsOfCode : ApplyFault → Type 0
IsOfCode out_of_fuel = ⊥
IsOfCode _ = Unit

-- A fault, if there is one, is the code's.
abbrev AnyOfCode : Option ApplyFault → Type 0
AnyOfCode none = Unit
AnyOfCode (some e) = IsOfCode e

unless_fault-Fails :
    {A : Type 0} (o : Option ApplyFault) (a : A) → AnyOfCode o → Fails IsOfCode (unless_fault o a)
unless_fault-Fails none a h = tt
unless_fault-Fails (some e) a h = h

collect_ids-Fails : (rows : Registry) (ids : Map Text ℤ) → Fails IsOfCode (collect_ids rows ids)
unfolding collect_ids
collect_ids-Fails [] ids = tt
collect_ids-Fails ((isin, id) ∷ rows) ids = elim (Option-cases (lookup isin ids)) [
  | inl e ↦ rw (collect_ids, e) (collect_ids-Fails rows (insert isin id ids))
  | inr (prev, e) ↦ elim (Bool-cases (eqb_ℤ prev id)) [
    | inl t ↦ rw (collect_ids, e, t) (collect_ids-Fails rows (insert isin id ids))
    | inr f ↦ rw (collect_ids, e, f) tt
  ]
]

all_registered-Fails :
    (ids : Map Text ℤ) (gone : List Text) → Fails IsOfCode (all_registered ids gone)
all_registered-Fails ids [] = tt
all_registered-Fails ids (g ∷ gone) = tt

module _ {F : Type 0} where
  boundary_of-Fails : (l : Link F) → Fails IsOfCode (boundary_of l)
  boundary_of-Fails l = elim (Option-cases (parse_day l.effective_from)) [
    | inl e ↦ rw (boundary_of, e) tt
    | inr (t, e) ↦ rw (boundary_of, e) tt
  ]

  plan_lines-Fails :
      (n : ℕ) (ids : Map Text ℤ) (preds : Map Text Text) (c : Current) (ls : List (Link F))
      → All (λ l. (root : Text) × (root_of n preds l.predecessor ≡ ok root)) ls
      → Fails IsOfCode (plan_lines n ids preds c ls)
  unfolding plan_lines
  plan_lines-Fails n ids preds c [] h = tt
  plan_lines-Fails n ids preds c (l ∷ ls) ((root, e), h) =
      rw (plan_lines, e)
        (Fails->>= IsOfCode (boundary_of l) _ (boundary_of-Fails l) (λ t.
          Fails->>= IsOfCode (plan_lines n ids preds c ls) _ (plan_lines-Fails n ids preds c ls h)
            (λ rest. tt)))

  -- In a forest every line has a start of its chain within the fuel.
  starts :
      (links : List (Link F))
      → IsForest links
      → All
          (λ l.
            (root : Text) × (root_of (suc (length links)) (predecessors_of links []) l.predecessor
              ≡ ok root))
          links
  starts links (_, nd, trails) =
      All-map _ _ links
        (λ l (there, (vs, t)).
          root_of-IsTrail links nd (suc (length links)) vs l t
            (omega (arith, length-IsTrail-lt links nd vs l there t)))
        (All-zip _ _ links (IsIn-all links) trails)

  plan-Fails :
      (registry : Registry) (links : List (Link F)) (c : Current)
      → IsForest links
      → Fails IsOfCode (plan registry links c)
  unfolding plan resolve_isins
  plan-Fails registry links c forest =
      Fails->>= IsOfCode (resolve_isins registry links) _
        (Fails->>= IsOfCode
          (collect_ids (select (λ r. contains eqb_text (named_isins links) r.0) registry) []) _
          (collect_ids-Fails _ [])
          (λ ids. all_registered-Fails ids (missing ids (named_isins links))))
        (λ ids.
          Fails->>= IsOfCode
            (plan_lines (suc (length links)) ids (predecessors_of links []) c links) _
            (plan_lines-Fails (suc (length links)) ids (predecessors_of links []) c links
              (starts links forest))
            (λ rows. tt))

  check_row-AnyOfCode :
      (c : Current) (row : LinkRow F) (kids : List ℤ) → AnyOfCode (check_row c row kids)
  check_row-AnyOfCode c row (kid ∷ kids) = tt
  check_row-AnyOfCode c row [] = elim (Option-cases (lookup row.entity_id c)) [
    | inl e ↦ rw (check_row, e) tt
    | inr (st, e) ↦ elim (Bool-cases (eqb_ℤ st.entity_id row.entity_id)) [
      | inl t ↦ rw (check_row, e, t) tt
      | inr f ↦ rw (check_row, e, f) tt
    ]
  ]

  check_entity_names-AnyOfCode :
      (rs : List (LinkRow F)) (c : Current) → AnyOfCode (check_entity_names rs c)
  unfolding check_entity_names
  check_entity_names-AnyOfCode [] c = tt
  check_entity_names-AnyOfCode (row ∷ rs) c =
      elim (Option-cases (check_row c row (members_of row.symbol_id c))) [
        | inl e ↦ rw (check_entity_names, e) (check_entity_names-AnyOfCode rs c)
        | inr (f, e) ↦
            rw (check_entity_names, e)
              (subst AnyOfCode e (check_row-AnyOfCode c row (members_of row.symbol_id c)))
      ]

  skip_unless-Fails : (row : LinkRow F) (ds : List Difference) → Fails IsOfCode (skip_unless row ds)
  skip_unless-Fails row [] = tt
  skip_unless-Fails row (d ∷ ds) = tt

  against-Fails : (st : LinkState) (row : LinkRow F) → Fails IsOfCode (against st row)
  against-Fails st row = elim (Bool-cases (eqb_ℤ st.entity_id row.symbol_id)) [
    | inl e ↦ rw (against, e) tt
    | inr e ↦ elim (Bool-cases (eqb_ℤ st.entity_id row.entity_id)) [
      | inl t ↦ rw (against, e, t) (skip_unless-Fails row (differs_from st row))
      | inr f ↦ rw (against, e, f) tt
    ]
  ]

  take_row-Fails : (c : Current) (row : LinkRow F) → Fails IsOfCode (take_row c row)
  unfolding take_row
  take_row-Fails c row = elim (Option-cases (lookup row.symbol_id c)) [
    | inl e ↦ rw (take_row, e) tt
    | inr (st, e) ↦ rw (take_row, e) (against-Fails st row)
  ]

  take_rows-Fails :
      (dry_run : Bool) (c : Current) (rs : List (LinkRow F))
      → Fails IsOfCode (take_rows dry_run c rs)
  unfolding take_rows
  take_rows-Fails dry_run c [] = tt
  take_rows-Fails dry_run c (row ∷ rs) =
      Fails->>= IsOfCode (take_row c row) _ (take_row-Fails c row) (λ written.
        Fails->>= IsOfCode (take_rows dry_run c rs) _ (take_rows-Fails dry_run c rs) (λ out. tt))

  apply_rows-Fails :
      (table : List SymbolLink) (digest seeded_by : Text) (dry_run : Bool) (rows : List (LinkRow F))
      → Fails IsOfCode (apply_rows table digest seeded_by dry_run rows)
  unfolding apply_rows
  apply_rows-Fails table digest seeded_by dry_run rows =
      Fails->>= IsOfCode
        (unless_fault (check_entity_names rows (current_map table)) (map (marked table) rows)) _
        (unless_fault-Fails _ _ (check_entity_names-AnyOfCode rows (current_map table)))
        (λ rs.
          Fails->>= IsOfCode (take_rows dry_run (current_map table) rs) _
            (take_rows-Fails dry_run (current_map table) rs) (λ out. tt))

with_digest :
    {A : Type 0} (digest : Text) (f : Text → Outcome ApplyFault A)
    → ((d : Text) → Fails IsOfCode (f d))
    → Fails IsOfCode ((if eqb_text digest [] then err no_digest else ok digest) >>= f)
with_digest digest f h = elim (Bool-cases (eqb_text digest [])) [
  | inl e ↦ rw e tt
  | inr e ↦ rw e (h digest)
]

-- The walks of Apply from the lines back to the starts of their chains never run out of fuel: what Apply
-- returns is what it wrote and skipped, or an error of the code.
pub apply_roster-Fails :
    {F : Type 0} ⦃fl : Float F⦄ (registry : Registry) (table : List SymbolLink) (r : Roster F)
    (digest seeded_by : Text) (dry_run : Bool)
    → Fails IsOfCode (apply_roster registry table r digest seeded_by dry_run)
unfolding apply_roster
apply_roster-Fails registry table r digest seeded_by dry_run = elim (Option-cases (validate r)) [
  | inr (e, q) ↦ rw (apply_roster, q) tt
  | inl q ↦
      rw (apply_roster, q)
        (with_digest digest _ (λ d.
          Fails->>= IsOfCode (plan registry r.links (current_map table)) _
            (plan-Fails registry r.links (current_map table) (links-IsForest r q))
            (λ rows. apply_rows-Fails table d seeded_by dry_run rows)))
]
