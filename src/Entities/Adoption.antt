-- ===== src/Entities/Adoption.antt =====
-- internal/market/entities/roster.go: a regenerated roster loses no hand-written line.
use mathlib.Core.Path.{subst}
use verdict_machine.Base.{
  ◌≡◌, refl, sym, ap, ◌⊎◌, Bool, true, List, [], ◌∷◌, ◌++◌, map, IsIn, inl, inr, Bool-cases,
  Option-cases,
}
use verdict_machine.Base.Sort.{insert_sorted, sort_by}
use verdict_machine.Base.Map.{lookup, text_key}
use verdict_machine.Base.Result.{ok, >>=-eq-ok, ok-injective}
use verdict_machine.Entities.Link.{Link, Roster, is_manual, link_less}
use verdict_machine.Entities.Rosters.{
  pair_key, pair_of, Adopted, other_field, same_boundary, index, manual_links, adopt_new, adopt,
  adopt_all, is_superseded, drop_superseded, with_adopted, adopt_manual,
}

module _ {A : Type 0} where
  IsIn-append_left : (x : A) (xs ys : List A) → IsIn x xs → IsIn x (xs ++ ys)
  IsIn-append_left x [] ys h = absurd h
  IsIn-append_left x (y ∷ xs) ys (inl e) = inl e
  IsIn-append_left x (y ∷ xs) ys (inr h) = inr (IsIn-append_left x xs ys h)

  IsIn-append_right : (x : A) (xs ys : List A) → IsIn x ys → IsIn x (xs ++ ys)
  IsIn-append_right x [] ys h = h
  IsIn-append_right x (y ∷ xs) ys h = inr (IsIn-append_right x xs ys h)

  module _ (less : A → A → Bool) where
    IsIn-insert_sorted :
        (x y : A) (ys : List A) → IsIn x (y ∷ ys) → IsIn x (insert_sorted less y ys)
    unfolding insert_sorted
    IsIn-insert_sorted x y [] h = h
    IsIn-insert_sorted x y (z ∷ ys) (inl e) = elim (Bool-cases (less z y)) [
      | inl t ↦ rw t (inr (IsIn-insert_sorted x y ys (inl e)))
      | inr t ↦ rw t (inl e)
    ]
    IsIn-insert_sorted x y (z ∷ ys) (inr (inl e)) = elim (Bool-cases (less z y)) [
      | inl t ↦ rw t (inl e)
      | inr t ↦ rw t (inr (inl e))
    ]
    IsIn-insert_sorted x y (z ∷ ys) (inr (inr h)) = elim (Bool-cases (less z y)) [
      | inl t ↦ rw t (inr (IsIn-insert_sorted x y ys (inr h)))
      | inr t ↦ rw t (inr (inr h))
    ]

    IsIn-sort_by : (x : A) (xs : List A) → IsIn x xs → IsIn x (sort_by less xs)
    unfolding sort_by
    IsIn-sort_by x [] h = absurd h
    IsIn-sort_by x (y ∷ ys) (inl e) = IsIn-insert_sorted x y (sort_by less ys) (inl e)
    IsIn-sort_by x (y ∷ ys) (inr h) =
        IsIn-insert_sorted x y (sort_by less ys) (inr (IsIn-sort_by x ys h))

module _ {F : Type 0} where
  same_boundary-link : (m twin : Link F) (a : Adopted F) → same_boundary m twin ≡ ok a → a.link ≡ m
  same_boundary-link m twin a h = elim (Option-cases (other_field m twin)) [
    | inr (field, e) ↦ cc (rw (same_boundary, e) at h)
    | inl e ↦ ap (λ a. a.link) (sym (ok-injective _ a (rw (same_boundary, e) at h)))
  ]

  adopt_new-link :
      (generated : List (Link F)) (m : Link F) (a : Adopted F)
      → adopt_new generated m ≡ ok a
      → a.link ≡ m
  adopt_new-link generated m a h =
      elim (Option-cases (lookup m.successor (index (λ l. l.successor) generated []))) [
        | inr (g, e) ↦ cc (rw (adopt_new, e) at h)
        | inl e ↦
            elim (Option-cases (lookup m.predecessor (index (λ l. l.predecessor) generated []))) [
              | inr (g, q) ↦ cc (rw (adopt_new, e, q) at h)
              | inl q ↦ ap (λ a. a.link) (sym (ok-injective _ a (rw (adopt_new, e, q) at h)))
            ]
      ]

  adopt-link :
      (generated : List (Link F)) (m : Link F) (a : Adopted F)
      → adopt generated m ≡ ok a
      → a.link ≡ m
  unfolding adopt
  adopt-link generated m a h =
      elim (Option-cases (lookup (pair_of m) (index pair_of generated []))) [
        | inr (twin, e) ↦ same_boundary-link m twin a (rw (adopt, e) at h)
        | inl e ↦ adopt_new-link generated m a (rw (adopt, e) at h)
      ]

  abbrev adopted_links : List (Adopted F) → List (Link F)
  adopted_links kept = map (λ a. a.link) kept

  -- What is kept are the hand-written lines, in order.
  adopt_all-manual_links :
      (generated existing : List (Link F)) (kept : List (Adopted F))
      → adopt_all generated existing ≡ ok kept
      → adopted_links kept ≡ manual_links existing
  unfolding adopt_all manual_links
  adopt_all-manual_links generated [] kept h = ap adopted_links (sym (ok-injective [] kept h))
  adopt_all-manual_links generated (m ∷ existing) kept h = elim (Bool-cases (is_manual m)) [
    | inr e ↦ rw e (adopt_all-manual_links generated existing kept (rw e at h))
    | inl e ↦
        let (a, first, more) = >>=-eq-ok (adopt generated m) _ kept (rw e at h) in
        let (rest, others, last) = >>=-eq-ok (adopt_all generated existing) _ kept more in
        let same = ok-injective (a ∷ rest) kept last in
        rw
          (
            e,
            ← same,
            adopt-link generated m a first,
            adopt_all-manual_links generated existing rest others,
          )
          refl
  ]

  drop_superseded-IsIn :
      (kept : List (Adopted F)) (l : Link F) (links : List (Link F))
      → IsIn l links
      → IsIn l (drop_superseded kept links) ⊎ (is_superseded kept l ≡ true)
  unfolding drop_superseded
  drop_superseded-IsIn kept l [] h = absurd h
  drop_superseded-IsIn kept l (g ∷ links) (inl e) = elim (Bool-cases (is_superseded kept g)) [
    | inl s ↦ inr (rw e s)
    | inr s ↦ rw s (inl (inl e))
  ]
  drop_superseded-IsIn kept l (g ∷ links) (inr h) = elim (Bool-cases (is_superseded kept g)) [
    | inl s ↦ rw s (drop_superseded-IsIn kept l links h)
    | inr s ↦ rw s (elim (drop_superseded-IsIn kept l links h) [
      | inl there ↦ inl (inr there)
      | inr gone ↦ inr gone
    ])
  ]

  -- The hand-written lines are all there, and a generated line is, unless one of them took its place.
  abbrev pub IsAdopted : Roster F → List (Link F) → List (Adopted F) → Roster F → Type 0
  IsAdopted r existing kept r' =
      ((m : Link F) → IsIn m (manual_links existing) → IsIn m r'.links)
      × ((l : Link F) → IsIn l r.links → IsIn l r'.links ⊎ (is_superseded kept l ≡ true))

  with_adopted-IsAdopted :
      (r : Roster F) (existing : List (Link F)) (kept : List (Adopted F))
      → adopted_links kept ≡ manual_links existing
      → IsAdopted r existing kept (with_adopted r kept)
  unfolding with_adopted
  with_adopted-IsAdopted r existing [] e = ((λ m h. absurd (rw (← e) at h)), (λ l h. inl h))
  with_adopted-IsAdopted r existing (a ∷ kept) e = (
    λ m h. IsIn-sort_by link_less m _ (
        IsIn-append_right m (drop_superseded (a ∷ kept) r.links) (adopted_links (a ∷ kept))
          (subst (λ ms. IsIn m ms) (sym e) h)),
    λ l h. elim (drop_superseded-IsIn (a ∷ kept) l r.links h) [
      | inl there ↦ inl (IsIn-sort_by link_less l _ (IsIn-append_left l _ _ there))
      | inr gone ↦ inr gone
    ],
  )

  -- Where AdoptManual returns, what it kept are the hand-written lines of the old roster, in order; each
  -- of them is in the new roster, and so is each generated line, unless a kept line of the same pair,
  -- which then is marked so, took its place.
  pub adopt_manual-IsAdopted :
      (r r' : Roster F) (existing : List (Link F)) (kept : List (Adopted F))
      → adopt_manual r existing ≡ ok (r', kept)
      → (map (λ a. a.link) kept ≡ manual_links existing) × IsAdopted r existing kept r'
  unfolding adopt_manual
  adopt_manual-IsAdopted r r' existing kept h =
      let (found, e, out) = >>=-eq-ok (adopt_all r.links existing) _ (r', kept) h in
      let both = ok-injective (with_adopted r found, found) (r', kept) out in
      let lines = adopt_all-manual_links r.links existing found e in
      subst (λ p. (map (λ a. a.link) p.1 ≡ manual_links existing) × IsAdopted r existing p.1 p.0)
        both (lines, with_adopted-IsAdopted r existing found lines)
