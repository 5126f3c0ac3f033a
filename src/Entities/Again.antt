-- ===== src/Entities/Again.antt =====
-- internal/market/entities/apply.go: a roster that was applied is applied again.
use mathlib.Core.Path.{subst}
use verdict_machine.Base.{
  suc, ◌≡◌, refl, sym, ap, ◌∙◌, false, none, List, [], ◌∷◌, map, length, All, All-IsIn, IsIn, inl,
  inr,
}
use verdict_machine.Base.Int.{ℤ}
use verdict_machine.Base.Text.{Text}
use verdict_machine.Base.Map.{Map, int_key, text_key}
use verdict_machine.Base.Result.{ok, Outcome-cases}
use verdict_machine.Float.{Float}
use verdict_machine.Time.{Time}
use verdict_machine.Entities.Link.{Link, Roster}
use verdict_machine.Entities.Ids.{IsRegistry, resolve_isins-IsResolved}
use verdict_machine.Entities.Plan.{
  Registry, LinkRow, SymbolLink, Current, current_map, id_of, resolve_isins, predecessors_of,
  root_of, resolved, plan_lines, plan, boundary_of, row_of,
}
use verdict_machine.Entities.Apply.{
  check_entity_names, differs_from, take_row, ApplyResult, marked, inserted, stamp, write_all,
  apply_rows, apply_roster,
}
use verdict_machine.Entities.Written.{current_map-write_all, current_map-IsMap, resolved-same}
use verdict_machine.Entities.Planned.{fuel, preds, plan-IsPlanned, IsPlanned-root_apart, IsIn-all}
use verdict_machine.Entities.Flatness.{
  IsIn-map, IsIn-of_map, check_entity_names-IsIn, check_entity_names-none, IsSound,
  lookup-after_other,
}
use verdict_machine.Entities.Repeats.{take_rows-skipped, second, again_skipped, again_checked}
use verdict_machine.Entities.Applied.{
  Applied, apply_roster-Applied, links-IsForest, plan-IsSound, marked-checked,
}

module _ {F : Type 0} where
  take_row-marked :
      (c : Current) (table : List SymbolLink) (row : LinkRow F)
      → take_row c (marked table row) ≡ take_row c row
  unfolding take_row differs_from
  take_row-marked c table row = refl

  row_of-same :
      (ids : Map Text ℤ) (c d : Current) (l : Link F) (root : Text)
      → resolved d (id_of ids root) ≡ resolved c (id_of ids root)
      → (t : Time) → row_of ids d l root t ≡ row_of ids c l root t
  row_of-same ids c d l root e t = rw e refl

  -- A plan depends on the map only by what the starts of the chains resolve to.
  module _ (ids : Map Text ℤ) (links : List (Link F)) (c d : Current)
      (kept : (l : Link F) (root : Text)
        → IsIn l links
        → root_of (fuel ids links c) (preds ids links c) l.predecessor ≡ ok root
        → resolved d (id_of ids root) ≡ resolved c (id_of ids root)) where
    plan_lines-same :
        (ls : List (Link F))
        → All (λ l. IsIn l links) ls
        → plan_lines (fuel ids links c) ids (preds ids links c) d ls
          ≡ plan_lines (fuel ids links c) ids (preds ids links c) c ls
    unfolding plan_lines
    plan_lines-same [] within = refl
    plan_lines-same (l ∷ ls) (there, within) =
        elim (Outcome-cases (root_of (fuel ids links c) (preds ids links c) l.predecessor)) [
          | inr (e, q) ↦ rw (plan_lines, q) refl
          | inl (root, q) ↦ elim (Outcome-cases (boundary_of l)) [
            | inr (e, b) ↦ rw (plan_lines, q, b) refl
            | inl (t, b) ↦
                rw
                  (
                    plan_lines,
                    q,
                    b,
                    row_of-same ids c d l root (kept l root there q) t,
                    plan_lines-same ls within,
                  )
                  refl
          ]
        ]

  pub plan-same :
      (registry : Registry) (links : List (Link F)) (c d : Current) (rows : List (LinkRow F))
      (ids : Map Text ℤ)
      → resolve_isins registry links ≡ ok ids
      → ((l : Link F) (root : Text)
          → IsIn l links
          → root_of (suc (length links)) (predecessors_of links []) l.predecessor ≡ ok root
          → resolved d (id_of ids root) ≡ resolved c (id_of ids root))
      → plan registry links d ≡ plan registry links c
  unfolding plan
  plan-same registry links c d rows ids found kept =
      rw (plan, found, plan_lines-same ids links c d kept links (IsIn-all links)) refl

  unmarked-checked :
      (c : Current) (table : List SymbolLink) (rows : List (LinkRow F))
      → check_entity_names (map (marked table) rows) c ≡ none
      → check_entity_names rows c ≡ none
  unmarked-checked c table rows h = check_entity_names-none rows c (λ b there.
      check_entity_names-IsIn (map (marked table) rows) c (marked table b) h
        (IsIn-of_map (marked table) b rows there))

  -- The loop of Apply, over a map in which every row is there as it is.
  repeats :
      (table : List SymbolLink) (digest seeded_by : Text) (rows : List (LinkRow F))
      → check_entity_names rows (current_map table) ≡ none
      → ((b : LinkRow F) → IsIn b rows → take_row (current_map table) b ≡ ok false)
      → (out : ApplyResult F) × (apply_rows table digest seeded_by false rows ≡ ok (out, table))
        × (out.rows ≡ [])
  unfolding apply_rows write_all
  repeats table digest seeded_by rows checked skipped =
      let (out, e, empty, _) =
        take_rows-skipped false (current_map table) (map (marked table) rows) (λ b there.
          let (x, known, same) = IsIn-map (marked table) b rows there in
          ap (take_row (current_map table)) same
          ∙ (take_row-marked (current_map table) table x ∙ skipped x known)) in
      (out, rw (apply_rows, checked, e, empty) refl, empty)

module _ {F : Type 0} ⦃fl : Float F⦄ (registry : Registry) (table table' : List SymbolLink)
    (r : Roster F) (digest seeded_by : Text) (out : ApplyResult F) (reg : IsRegistry registry)
    (a : Applied registry table table' r digest seeded_by false out) where
  abbrev c : Current
  c = current_map table

  abbrev rs : List (LinkRow F)
  rs = map (marked table) a.rows

  sound : IsSound c rs
  sound = plan-IsSound registry r c table a.rows reg a.valid a.planned

  checked : check_entity_names rs c ≡ none
  checked = marked-checked c table a.rows a.loop.checked

  abbrev d : Current
  d = second c rs sound checked out a.loop.taken digest (stamp seeded_by)

  left : current_map table' ≡ d
  left =
      ap current_map (sym (ap (λ p. p.1) a.loop.left))
      ∙ current_map-write_all (map (inserted digest (stamp seeded_by)) out.rows) table

  planned_again : plan registry r.links d ≡ ok a.rows
  planned_again =
      let (ids, found, all_of) = plan-IsPlanned registry r.links c a.rows a.planned in
      plan-same registry r.links c d a.rows ids found (λ l root known walked.
        resolved-same c d (id_of ids root) (
          lookup-after_other c rs sound checked out.rows (λ b there. (a.loop.taken.0 b there).0)
            digest (stamp seeded_by) (id_of ids root)
            (λ b there.
              let (x, here, e) = IsIn-map (marked table) b a.rows ((a.loop.taken.0 b there).0) in
              λ same.
                IsPlanned-root_apart ids r.links c
                  (resolve_isins-IsResolved registry r.links ids reg found)
                  (links-IsForest r a.valid).1 l root x known walked
                  (All-IsIn _ x a.rows all_of here) (ap (λ t. t.symbol_id) (sym e) ∙ same))))
      ∙ a.planned

  repeated :
      (out' : ApplyResult F) × (apply_rows table' digest seeded_by false a.rows ≡ ok (out', table'))
      × (out'.rows ≡ [])
  repeated =
      repeats table' digest seeded_by a.rows
        (subst (λ m. check_entity_names a.rows m ≡ none) (sym left)
          (unmarked-checked d table a.rows (
            again_checked c rs sound checked out a.loop.taken digest (stamp seeded_by)
              (current_map-IsMap table))))
        (λ b there.
          subst (λ m. take_row m b ≡ ok false) (sym left)
            (sym (take_row-marked d table b)
              ∙ again_skipped c rs sound checked out a.loop.taken digest (stamp seeded_by)
                  (marked table b) (IsIn-of_map (marked table) b a.rows there)))

  second_apply :
      (out' : ApplyResult F) × (apply_roster registry table' r digest seeded_by false
        ≡ ok (out', table'))
      × (out'.rows ≡ [])
  unfolding apply_roster
  second_apply =
      let (out', e, empty) = repeated in
      (out', rw (apply_roster, a.valid, a.has_digest, left, planned_again) e, empty)

-- Where the registry has no id for two ISINs: a roster that Apply wrote can be applied again, and the
-- second Apply returns without an error, writes no row and leaves the store as it is.
pub apply_roster-again :
    {F : Type 0} ⦃fl : Float F⦄ (registry : Registry) (table table' : List SymbolLink)
    (r : Roster F) (digest seeded_by : Text) (out : ApplyResult F)
    → IsRegistry registry
    → apply_roster registry table r digest seeded_by false ≡ ok (out, table')
    → (out' : ApplyResult F) × (apply_roster registry table' r digest seeded_by false
        ≡ ok (out', table'))
      × (out'.rows ≡ [])
apply_roster-again registry table table' r digest seeded_by out reg h =
    second_apply registry table table' r digest seeded_by out reg
      (apply_roster-Applied registry table table' r digest seeded_by false out h)
