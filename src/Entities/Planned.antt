-- ===== src/Entities/Planned.antt =====
-- internal/market/entities/apply.go: the rows that are planned, and the lines that they are of.
use mathlib.Core.Path.{subst}
use verdict_machine.Base.{
  ℕ, suc, ◌≡◌, refl, sym, ap, ◌∙◌, ◌≢◌, true, ◌||◌, List, [], ◌∷◌, length, All, All-map, All-of_map,
  IsIn, inl, inr, Bool-cases, arith,
}
use verdict_machine.Base.Int.{ℤ}
use verdict_machine.Base.Text.{Text, eqb_text}
use verdict_machine.Base.Sort.{contains, IsNodup, sort_by-All}
use verdict_machine.Base.Map.{Map, text_key}
use verdict_machine.Base.Result.{ok, >>=-eq-ok, ok-injective}
use verdict_machine.Entities.Link.{Link}
use verdict_machine.Entities.Claims.{predecessors, successors, lookup-by_self, contains-names}
use verdict_machine.Entities.Roots.{root_of-free, root_of-contains}
use verdict_machine.Entities.Ids.{IsResolved}
use verdict_machine.Entities.Plan.{
  Registry, LinkRow, Current, id_of, named_isins, resolve_isins, predecessors_of, root_of,
  boundary_of, resolved, plan_lines, isins_of, unnamed, named, row_less, arranged, plan,
}
use verdict_machine.Entities.Apply.{state_of}

module _ {F : Type 0} where
  contains-named_isins :
      (links : List (Link F)) (a : Text)
      → contains eqb_text (named_isins links) a
        ≡ (contains eqb_text (predecessors links) a || contains eqb_text (successors links) a)
  unfolding contains
  contains-named_isins [] a = refl
  contains-named_isins (l ∷ links) a = ground (arith, contains-named_isins links a)

  module _ (ids : Map Text ℤ) (links : List (Link F)) (c : Current) where
    abbrev pub fuel : ℕ
    fuel = suc (length links)

    abbrev pub preds : Map Text Text
    preds = predecessors_of links []

    -- The row of a line: the entity is that of the start of its chain.
    abbrev pub IsOfLine : LinkRow F → Link F → Text → Type 0
    IsOfLine row l root =
        (row.symbol_id ≡ id_of ids l.successor)
        × (root_of fuel preds l.predecessor ≡ ok root)
        × (row.entity_id ≡ resolved c (id_of ids root))
        × (boundary_of l ≡ ok row.boundary)
        × (row.predecessor_id ≡ id_of ids l.predecessor)

    abbrev pub IsPlanned : LinkRow F → Type 0
    IsPlanned row = (l : Link F) × IsIn l links × ((root : Text) × IsOfLine row l root)

    plan_lines-IsPlanned :
        (ls : List (Link F)) (rows : List (LinkRow F))
        → All (λ l. IsIn l links) ls
        → plan_lines fuel ids preds c ls ≡ ok rows
        → All IsPlanned rows
    unfolding plan_lines
    plan_lines-IsPlanned [] rows within h = subst (All IsPlanned) (ok-injective [] rows h) tt
    plan_lines-IsPlanned (l ∷ ls) rows (there, within) h =
        let (root, e, h1) = >>=-eq-ok (root_of fuel preds l.predecessor) _ rows h in
        let (t, e1, h2) = >>=-eq-ok (boundary_of l) _ rows h1 in
        let (rest, e2, h3) = >>=-eq-ok (plan_lines fuel ids preds c ls) _ rows h2 in
        subst (All IsPlanned) (ok-injective _ rows h3)
          ((l, there, (root, (refl, e, refl, e1, refl))), plan_lines-IsPlanned ls rest within e2)

    named-IsPlanned :
        (names : Map ℤ Text) (row : LinkRow F) → IsPlanned row → IsPlanned (named names row)
    named-IsPlanned names row h = elim (Bool-cases (eqb_text row.entity_isin [])) [
      | inl e ↦ rw e h
      | inr e ↦ rw e h
    ]

  pub IsIn-all : (ls : List (Link F)) → All (λ l. IsIn l ls) ls
  IsIn-all [] = tt
  IsIn-all (l ∷ ls) = (inl refl, All-map _ _ ls (λ k h. inr h) (IsIn-all ls))

  pub plan-IsPlanned :
      (registry : Registry) (links : List (Link F)) (c : Current) (rows : List (LinkRow F))
      → plan registry links c ≡ ok rows
      → (ids : Map Text ℤ) × (resolve_isins registry links ≡ ok ids)
        × All (IsPlanned ids links c) rows
  unfolding plan
  plan-IsPlanned registry links c rows h =
      let (ids, e, h1) = >>=-eq-ok (resolve_isins registry links) _ rows h in
      let (drafts, e1, h2) =
        >>=-eq-ok (plan_lines (fuel ids links c) ids (preds ids links c) c links) _ rows h1 in
      (
        ids,
        e,
        subst (All (IsPlanned ids links c)) (ok-injective (arranged registry drafts) rows h2) (
            sort_by-All row_less (IsPlanned ids links c) _ (
              All-of_map _ _ (named (isins_of (unnamed drafts) registry [])) drafts
                (named-IsPlanned ids links c _)
                (plan_lines-IsPlanned ids links c links drafts (IsIn-all links) e1))),
      )

  module _ (ids : Map Text ℤ) (links : List (Link F)) (c : Current)
      (apart : IsResolved (named_isins links) ids) (nd : IsNodup eqb_text (successors links)) where
    is_named_successor :
        (l : Link F) → IsIn l links → contains eqb_text (named_isins links) l.successor ≡ true
    is_named_successor l there =
        rw (contains-named_isins links l.successor, contains-names (λ l. l.successor) l links there)
          (ground arith)

    -- The start of the chain of a planned row is no row's symbol.
    pub IsPlanned-root_apart :
        (l : Link F) (root : Text) (row : LinkRow F)
        → IsIn l links
        → root_of (suc (length links)) (predecessors_of links []) l.predecessor ≡ ok root
        → IsPlanned ids links c row
        → row.symbol_id ≢ id_of ids root
    IsPlanned-root_apart l root row there found (k, known, (r, (symbol, _, _, _, _))) same =
        let start =
          root_of-contains links nd (suc (length links)) l.predecessor root found
            (contains-names (λ l. l.predecessor) l links there) in
        let free = root_of-free links nd (suc (length links)) l.predecessor root found in
        let joined : k.successor ≡ root =
          apart k.successor root (is_named_successor k known)
            (rw (contains-named_isins links root, start) refl) (sym symbol ∙ same) in
        cc (free, joined, contains-names (λ l. l.successor) k links known)

    -- Two planned rows of a symbol write the same state.
    pub IsPlanned-same :
        (a b : LinkRow F)
        → IsPlanned ids links c a
        → IsPlanned ids links c b
        → a.symbol_id ≡ b.symbol_id
        → state_of a ≡ state_of b
    IsPlanned-same a b (l, there, (root, (sa, ra, ea, ba, pa)))
          (k, known, (root', (sb, rb, eb, bb, pb))) same =
        let joined : l.successor ≡ k.successor =
          apart l.successor k.successor (is_named_successor l there) (is_named_successor k known)
            (sym sa ∙ (same ∙ sb)) in
        let line : l ≡ k = cc (
          lookup-by_self (λ l. l.successor) l links nd there,
          lookup-by_self (λ l. l.successor) k links nd known,
          joined,
        ) in
        let roots : root ≡ root' = ok-injective _ _ (
          sym ra
          ∙ (ap (λ l. root_of (suc (length links)) (predecessors_of links []) l.predecessor) line
              ∙ rb)) in
        let boundaries : a.boundary ≡ b.boundary =
          ok-injective _ _ (sym ba ∙ (ap boundary_of line ∙ bb)) in
        cc (ea, eb, pa, pb, boundaries, roots, line)
