-- ===== src/Entities/Ids.antt =====
-- internal/market/entities/apply.go: the ids of the ISINs of a roster.
use mathlib.Core.Path.{subst}
use verdict_machine.Base.{
  ◌≡◌, refl, Bool, true, some, List, [], ◌∷◌, select, IsIn, inl, inr, Bool-cases, Option-cases,
}
use verdict_machine.Base.Int.{ℤ, eqb_ℤ}
use verdict_machine.Base.Text.{Text, eqb_text, eqb_text_iff}
use verdict_machine.Base.Sort.{contains}
use verdict_machine.Base.Map.{Map, lookup, insert, text_key, lookup-insert}
use verdict_machine.Base.Result.{ok, >>=-eq-ok, ok-injective}
use verdict_machine.Entities.Link.{Link}
use verdict_machine.Entities.Plan.{
  Registry, collect_ids, missing, all_registered, id_of, named_isins, resolve_isins,
}

-- No id is of two ISINs.
abbrev pub IsRegistry : Registry → Type 0
IsRegistry registry = (a b : Text) (id : ℤ) → IsIn (a, id) registry → IsIn (b, id) registry → a ≡ b

-- Every id of the map is of the registry.
abbrev IsOf : Map Text ℤ → Registry → Type 0
IsOf ids registry = (isin : Text) (id : ℤ) → lookup isin ids ≡ some id → IsIn (isin, id) registry

collect_ids-step :
    (name : Text) (key : ℤ) (rows : Registry) (ids found : Map Text ℤ)
    → collect_ids ((name, key) ∷ rows) ids ≡ ok found
    → collect_ids rows (insert name key ids) ≡ ok found
unfolding collect_ids
collect_ids-step name key rows ids found h = elim (Option-cases (lookup name ids)) [
  | inl e ↦ rw (collect_ids, e) at h
  | inr (prev, e) ↦ elim (Bool-cases (eqb_ℤ prev key)) [
    | inl t ↦ rw (collect_ids, e, t) at h
    | inr f ↦ cc (rw (collect_ids, e, f) at h)
  ]
]

-- An id that was collected is one of the registry's.
collect_ids-IsIn :
    (rows registry : Registry) (ids found : Map Text ℤ)
    → ((isin : Text) (id : ℤ) → IsIn (isin, id) rows → IsIn (isin, id) registry)
    → IsOf ids registry
    → collect_ids rows ids ≡ ok found
    → IsOf found registry
unfolding collect_ids
collect_ids-IsIn [] registry ids found of_rows of_ids h =
    subst (λ m. IsOf m registry) (ok-injective ids found h) of_ids
collect_ids-IsIn ((name, key) ∷ rows) registry ids found of_rows of_ids h =
    collect_ids-IsIn rows registry (insert name key ids) found
      (λ isin id there. of_rows isin id (inr there))
      (λ isin id e. elim (Bool-cases (eqb_text name isin)) [
        | inl t ↦
            let same : key ≡ id = cc (rw (lookup-insert name key ids isin, t) at e) in
            of_rows isin id (inl (cc (same, (eqb_text_iff name isin).0 t)))
        | inr f ↦ of_ids isin id (rw (lookup-insert name key ids isin, f) at e)
      ])
      (collect_ids-step name key rows ids found h)

select-IsIn : {A : Type 0} (p : A → Bool) (x : A) (xs : List A) → IsIn x (select p xs) → IsIn x xs
select-IsIn p x [] h = absurd h
select-IsIn p x (y ∷ ys) h = elim (Bool-cases (p y)) [
  | inl e ↦ elim (rw e at h) [ inl same ↦ inl same | inr there ↦ inr (select-IsIn p x ys there) ]
  | inr e ↦ inr (select-IsIn p x ys (rw e at h))
]

missing-none :
    (ids : Map Text ℤ) (want : List Text) (isin : Text)
    → missing ids want ≡ []
    → contains eqb_text want isin ≡ true
    → (id : ℤ) × (lookup isin ids ≡ some id)
unfolding missing contains
missing-none ids [] isin h there = cc
missing-none ids (w ∷ want) isin h there = elim (Option-cases (lookup w ids)) [
  | inl e ↦ cc (rw (missing, e) at h)
  | inr (id, e) ↦ elim (Bool-cases (eqb_text w isin)) [
    | inl t ↦ (id, subst (λ k. lookup k ids ≡ some id) ((eqb_text_iff w isin).0 t) e)
    | inr f ↦ missing-none ids want isin (rw (missing, e) at h) (rw f at there)
  ]
]

all_registered-eq :
    (ids found : Map Text ℤ) (gone : List Text)
    → all_registered ids gone ≡ ok found
    → (gone ≡ []) × (ids ≡ found)
all_registered-eq ids found [] h = (refl, ok-injective ids found h)
all_registered-eq ids found (g ∷ gone) h = cc

-- No two of the ISINs have the same id.
abbrev pub IsResolved : List Text → Map Text ℤ → Type 0
IsResolved names ids =
    (a b : Text)
    → contains eqb_text names a ≡ true
    → contains eqb_text names b ≡ true
    → id_of ids a ≡ id_of ids b
    → a ≡ b

apart :
    (registry : Registry) (names : List Text) (ids : Map Text ℤ)
    → IsRegistry registry
    → IsOf ids registry
    → missing ids names ≡ []
    → IsResolved names ids
apart registry names ids reg of there a b na nb same =
    let (i, ea) = missing-none ids names a there na in
    let (j, eb) = missing-none ids names b there nb in
    reg a b j (subst (λ k. IsIn (a, k) registry) (rw (id_of, ea, eb) at same) (of a i ea))
      (of b j eb)

empty : (registry : Registry) → IsOf [] registry
unfolding lookup
empty registry isin id h = cc

pub resolve_isins-IsResolved :
    {F : Type 0} (registry : Registry) (links : List (Link F)) (ids : Map Text ℤ)
    → IsRegistry registry
    → resolve_isins registry links ≡ ok ids
    → IsResolved (named_isins links) ids
unfolding resolve_isins
resolve_isins-IsResolved registry links ids reg h =
    let rows = select (λ r. contains eqb_text (named_isins links) r.0) registry in
    let (found, e, h1) = >>=-eq-ok (collect_ids rows []) _ ids h in
    let (there, joined) = all_registered-eq found ids (missing found (named_isins links)) h1 in
    subst (λ m. IsResolved (named_isins links) m) joined
      (apart registry (named_isins links) found reg
        (collect_ids-IsIn rows registry [] found (λ isin id. select-IsIn _ (isin, id) registry)
          (empty registry) e)
        there)
