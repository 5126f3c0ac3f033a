-- ===== src/Entities/Applied.antt =====
-- internal/market/entities/apply.go: what Apply leaves in the store, and that it can be run again.
use mathlib.Core.Path.{subst}
use verdict_machine.Base.{
  ◌≡◌, refl, sym, ap, ◌∙◌, Bool, true, false, Option, none, some, List, [], map, All, All-IsIn,
  All-of_map, if◌then◌else◌, inl, inr, Bool-cases,
}
use verdict_machine.Base.Int.{ℤ}
use verdict_machine.Base.Text.{Text, eqb_text}
use verdict_machine.Base.Sort.{IsNodup}
use verdict_machine.Base.Map.{Map, int_key, text_key}
use verdict_machine.Base.Result.{ok, err, >>=-eq-ok, ok-injective}
use verdict_machine.Float.{Float}
use verdict_machine.Entities.Link.{Link, Roster}
use verdict_machine.Entities.Graph.{RosterFault, validate}
use verdict_machine.Entities.Claims.{successors}
use verdict_machine.Entities.Paths.{IsForest, IsValidated, validate-IsValidated}
use verdict_machine.Entities.Ids.{IsRegistry, IsResolved, resolve_isins-IsResolved}
use verdict_machine.Entities.Plan.{
  Registry, LinkRow, SymbolLink, Current, current_map, ApplyFault, no_digest, id_of, named_isins,
  resolved, plan,
}
use verdict_machine.Entities.Apply.{
  members_of, check_entity_names, take_rows, ApplyResult, marked, inserted, stamp, commit,
  unless_fault, apply_rows, invalid, apply_roster,
}
use verdict_machine.Entities.Written.{current_map-write_all}
use verdict_machine.Entities.Planned.{
  IsPlanned, plan-IsPlanned, IsPlanned-root_apart, IsPlanned-same,
}
use verdict_machine.Entities.Flatness.{
  IsIn-map, check_entity_names-IsIn, check_entity_names-none, IsFlat, IsSound, after-IsFlat,
}
use verdict_machine.Entities.Repeats.{IsTaken, take_rows-IsTaken}

unless_fault-eq :
    {A : Type 0} (o : Option ApplyFault) (a b : A) → unless_fault o a ≡ ok b → (o ≡ none) × (a ≡ b)
unless_fault-eq none a b h = (refl, ok-injective a b h)
unless_fault-eq (some e) a b h = cc

module _ {F : Type 0} where
  committed :
      (dry_run : Bool) (table : List SymbolLink) (digest seeded_by : Text)
      (out' out : ApplyResult F) (table' : List SymbolLink)
      → commit dry_run table digest seeded_by out' ≡ (out, table')
      → out' ≡ out
  committed true table digest seeded_by out' out table' h = ap (λ p. p.0) h
  committed false table digest seeded_by out' out table' h = ap (λ p. p.0) h

  planned-IsSound :
      (ids : Map Text ℤ) (links : List (Link F)) (c : Current)
      → IsResolved (named_isins links) ids
      → IsNodup eqb_text (successors links)
      → (rows : List (LinkRow F)) → All (IsPlanned ids links c) rows
      → IsSound c rows
  planned-IsSound ids links c apart nd rows all_of = (
    λ a b here there same.
        IsPlanned-same ids links c apart nd a b (All-IsIn _ a rows all_of here)
          (All-IsIn _ b rows all_of there) same,
    λ a here.
        let (l, known, (root, (_, found, entity, _, _))) = All-IsIn _ a rows all_of here in
        (
          id_of ids root,
          entity,
          λ b there.
              IsPlanned-root_apart ids links c apart nd l root b known found
                (All-IsIn _ b rows all_of there),
        ),
  )

  marked-IsPlanned :
      (ids : Map Text ℤ) (links : List (Link F)) (c : Current) (table : List SymbolLink)
      (rows : List (LinkRow F))
      → All (IsPlanned ids links c) rows
      → All (IsPlanned ids links c) (map (marked table) rows)
  marked-IsPlanned ids links c table rows h =
      All-of_map (IsPlanned ids links c) (IsPlanned ids links c) (marked table) rows (λ row h. h) h

  pub marked-checked :
      (c : Current) (table : List SymbolLink) (rows : List (LinkRow F))
      → check_entity_names rows c ≡ none
      → check_entity_names (map (marked table) rows) c ≡ none
  marked-checked c table rows h = check_entity_names-none (map (marked table) rows) c (λ b there.
      let (x, known, e) = IsIn-map (marked table) b rows there in
      subst (λ b. (members_of b.symbol_id c ≡ []) × (resolved c b.entity_id ≡ b.entity_id)) (sym e)
        (check_entity_names-IsIn rows c x h known))

  -- What the loop of Apply returned over rows.
  pub record Loop (table table' : List SymbolLink) (digest seeded_by : Text) (dry_run : Bool)
      (rows : List (LinkRow F)) (out : ApplyResult F) : Type 0 where
    pub checked : check_entity_names rows (current_map table) ≡ none
    pub taken : IsTaken dry_run (current_map table) (map (marked table) rows) out
    pub left : commit dry_run table digest seeded_by out ≡ (out, table')

  apply_rows-Loop :
      (table table' : List SymbolLink) (digest seeded_by : Text) (dry_run : Bool)
      (rows : List (LinkRow F)) (out : ApplyResult F)
      → apply_rows table digest seeded_by dry_run rows ≡ ok (out, table')
      → Loop table table' digest seeded_by dry_run rows out
  unfolding apply_rows
  apply_rows-Loop table table' digest seeded_by dry_run rows out h =
      let c = current_map table in
      let rs = map (marked table) rows in
      let (checked, e, h1) =
        >>=-eq-ok (unless_fault (check_entity_names rows c) rs) _ (out, table') h in
      let (out', e1, h2) = >>=-eq-ok (take_rows dry_run c checked) _ (out, table') h1 in
      let (fine, same) = unless_fault-eq (check_entity_names rows c) rs checked e in
      let left = ok-injective _ (out, table') h2 in
      let one : out' ≡ out = committed dry_run table digest seeded_by out' out table' left in
      record {
        checked = fine;
        taken = subst (IsTaken dry_run c rs) one (
            take_rows-IsTaken dry_run c rs out'
              (subst (λ r. take_rows dry_run c r ≡ ok out') (sym same) e1));
        left = subst (λ o. commit dry_run table digest seeded_by o ≡ (out, table')) one left;
      }

invalid-none :
    {A : Type 0} (o : Option RosterFault) (a b : A)
    → unless_fault (invalid o) a ≡ ok b
    → (o ≡ none) × (a ≡ b)
invalid-none none a b h = (refl, ok-injective a b h)
invalid-none (some e) a b h = cc

some_digest-eq :
    (digest d : Text)
    → (if eqb_text digest [] then err no_digest else ok digest) ≡ ok d
    → digest ≡ d
some_digest-eq digest d h = elim (Bool-cases (eqb_text digest [])) [
  | inl e ↦ cc (rw e at h)
  | inr e ↦ ok-injective digest d (rw e at h)
]

module _ {F : Type 0} ⦃fl : Float F⦄ (registry : Registry) (table table' : List SymbolLink)
    (r : Roster F) (digest seeded_by : Text) (dry_run : Bool) (out : ApplyResult F) where
  -- What Apply went through on its way to a result.
  pub record Applied : Type 0 where
    pub valid : validate r ≡ none
    pub has_digest : (if eqb_text digest [] then err no_digest else ok digest) ≡ ok digest
    pub rows : List (LinkRow F)
    pub planned : plan registry r.links (current_map table) ≡ ok rows
    pub loop : Loop table table' digest seeded_by dry_run rows out

  pub apply_roster-Applied :
      apply_roster registry table r digest seeded_by dry_run ≡ ok (out, table') → Applied
  unfolding apply_roster
  apply_roster-Applied h =
      let (links, e, h1) =
        >>=-eq-ok (unless_fault (invalid (validate r)) r.links) _ (out, table') h in
      let (d, e1, h2) =
        >>=-eq-ok (if eqb_text digest [] then err no_digest else ok digest) _ (out, table') h1 in
      let (rows, e2, h3) = >>=-eq-ok (plan registry links (current_map table)) _ (out, table') h2 in
      let (fine, same) = invalid-none (validate r) r.links links e in
      let joined = some_digest-eq digest d e1 in
      record {
        valid = fine;
        has_digest = e1 ∙ ap ok (sym joined);
        rows = rows;
        planned = subst (λ ls. plan registry ls (current_map table) ≡ ok rows) (sym same) e2;
        loop = apply_rows-Loop table table' digest seeded_by dry_run rows out (
            subst (λ d. apply_rows table d seeded_by dry_run rows ≡ ok (out, table')) (sym joined)
              h3);
      }

pub links-IsForest :
    {F : Type 0} ⦃fl : Float F⦄ (r : Roster F) → validate r ≡ none → IsForest r.links
links-IsForest r e = subst (IsValidated r) e (validate-IsValidated r)

module _ {F : Type 0} ⦃fl : Float F⦄ where
  pub plan-IsSound :
      (registry : Registry) (r : Roster F) (c : Current) (table : List SymbolLink)
      (rows : List (LinkRow F))
      → IsRegistry registry
      → validate r ≡ none
      → plan registry r.links c ≡ ok rows
      → IsSound c (map (marked table) rows)
  plan-IsSound registry r c table rows reg valid planned =
      let (ids, found, all_of) = plan-IsPlanned registry r.links c rows planned in
      planned-IsSound ids r.links c (resolve_isins-IsResolved registry r.links ids reg found)
        (links-IsForest r valid).1 (map (marked table) rows)
        (marked-IsPlanned ids r.links c table rows all_of)

  left-IsFlat :
      (dry_run : Bool) (table table' : List SymbolLink) (digest seeded_by : Text)
      (rows : List (LinkRow F)) (out : ApplyResult F)
      → IsSound (current_map table) (map (marked table) rows)
      → Loop table table' digest seeded_by dry_run rows out
      → IsFlat (current_map table)
      → IsFlat (current_map table')
  left-IsFlat true table table' digest seeded_by rows out sound loop flat =
      subst (λ t. IsFlat (current_map t)) (ap (λ p. p.1) loop.left) flat
  left-IsFlat false table table' digest seeded_by rows out sound loop flat =
      subst (λ t. IsFlat (current_map t)) (ap (λ p. p.1) loop.left)
        (subst IsFlat
          (sym (current_map-write_all (map (inserted digest (stamp seeded_by)) out.rows) table))
          (after-IsFlat (current_map table) (map (marked table) rows) sound
            (marked-checked (current_map table) table rows loop.checked) out.rows
            (λ b there. (loop.taken.0 b there).0) digest (stamp seeded_by) flat))

  -- Where the registry has no id for two ISINs and resolution through the store's map is one hop, it is
  -- one hop after every Apply that returns: the entity of a symbol is its own entity.
  pub apply_roster-IsFlat :
      (registry : Registry) (table table' : List SymbolLink) (r : Roster F)
      (digest seeded_by : Text) (dry_run : Bool) (out : ApplyResult F)
      → IsRegistry registry
      → IsFlat (current_map table)
      → apply_roster registry table r digest seeded_by dry_run ≡ ok (out, table')
      → IsFlat (current_map table')
  apply_roster-IsFlat registry table table' r digest seeded_by dry_run out reg flat h =
      let a = apply_roster-Applied registry table table' r digest seeded_by dry_run out h in
      left-IsFlat dry_run table table' digest seeded_by a.rows out
        (plan-IsSound registry r (current_map table) table a.rows reg a.valid a.planned) a.loop flat
