-- ===== src/Entities/Flatness.antt =====
-- internal/market/entities/apply.go: the store's map stays flat under the writing of rows.
use mathlib.Core.Path.{subst}
use verdict_machine.Base.{
  ◌≡◌, refl, sym, ap, ◌∙◌, ◌≢◌, ◌⊎◌, true, none, some, List, [], ◌∷◌, map, All-IsIn, IsIn, inl, inr,
  Bool-cases, Option-cases, arith,
}
use verdict_machine.Base.Int.{ℤ, eqb_ℤ, eqb_ℤ_iff}
use verdict_machine.Base.Text.{Text}
use verdict_machine.Base.Sort.{contains}
use verdict_machine.Base.Map.{lookup, int_key}
use verdict_machine.Entities.Plan.{LinkRow, LinkState, Current, resolved}
use verdict_machine.Entities.Apply.{
  is_member, members_of, check_row, check_entity_names, state_of, inserted,
}
use verdict_machine.Entities.Written.{
  writes, lookup-writes, lookup-writes_other, resolved-none, resolved-some, resolved-same,
  members_of-lookup,
}

-- Resolution is one hop: what a symbol resolves to resolves to itself.
abbrev pub IsFlat : Current → Type 0
IsFlat c = (k : ℤ) → resolved c (resolved c k) ≡ resolved c k

pub IsIn-map :
    {A B : Type 0} (f : A → B) (y : B) (xs : List A)
    → IsIn y (map f xs)
    → (x : A) × IsIn x xs × (y ≡ f x)
IsIn-map f y [] h = absurd h
IsIn-map f y (x ∷ xs) (inl e) = (x, inl refl, e)
IsIn-map f y (x ∷ xs) (inr h) = let (w, there, e) = IsIn-map f y xs h in (w, inr there, e)

no_member :
    (c : Current) (entity k : ℤ) (st : LinkState)
    → members_of entity c ≡ []
    → lookup k c ≡ some st
    → st.entity_id ≡ entity
    → k ≢ entity
    → ⊥
unfolding contains
no_member c entity k st none_of found joined ne =
    let member : is_member entity k st ≡ true =
      ground (arith, eqb_ℤ_iff st.entity_id entity, eqb_ℤ_iff k st.entity_id, joined, ne) in
    cc (rw none_of at (members_of-lookup entity k st c found member))

pub IsIn-of_map :
    {A B : Type 0} (f : A → B) (x : A) (xs : List A) → IsIn x xs → IsIn (f x) (map f xs)
IsIn-of_map f x [] h = absurd h
IsIn-of_map f x (y ∷ xs) (inl e) = inl (ap f e)
IsIn-of_map f x (y ∷ xs) (inr h) = inr (IsIn-of_map f x xs h)

module _ {F : Type 0} where
  -- Rows of one symbol write one state, and the entity of a row is that of a symbol that no row is of.
  abbrev pub IsSound : Current → List (LinkRow F) → Type 0
  IsSound c rs =
      ((a b : LinkRow F)
        → IsIn a rs
        → IsIn b rs
        → a.symbol_id ≡ b.symbol_id
        → state_of a ≡ state_of b)
      × ((a : LinkRow F)
          → IsIn a rs
          → (root : ℤ) × (a.entity_id ≡ resolved c root)
            × ((b : LinkRow F) → IsIn b rs → b.symbol_id ≢ root))

  check_row-eq :
      (c : Current) (row : LinkRow F) (kids : List ℤ)
      → check_row c row kids ≡ none
      → (kids ≡ []) × (resolved c row.entity_id ≡ row.entity_id)
  check_row-eq c row (kid ∷ kids) h = cc
  check_row-eq c row [] h = elim (Option-cases (lookup row.entity_id c)) [
    | inl e ↦ (refl, resolved-none c row.entity_id e)
    | inr (st, e) ↦ elim (Bool-cases (eqb_ℤ st.entity_id row.entity_id)) [
      | inl t ↦
          (refl, resolved-some c row.entity_id st e ∙ (eqb_ℤ_iff st.entity_id row.entity_id).0 t)
      | inr f ↦ cc (rw (check_row, e, f) at h)
    ]
  ]

  pub check_entity_names-IsIn :
      (rs : List (LinkRow F)) (c : Current) (b : LinkRow F)
      → check_entity_names rs c ≡ none
      → IsIn b rs
      → (members_of b.symbol_id c ≡ []) × (resolved c b.entity_id ≡ b.entity_id)
  unfolding check_entity_names
  check_entity_names-IsIn [] c b h there = absurd there
  check_entity_names-IsIn (row ∷ rs) c b h there =
      elim (Option-cases (check_row c row (members_of row.symbol_id c))) [
        | inr (e, q) ↦ cc (rw (check_entity_names, q) at h)
        | inl q ↦ elim there [
          | inl same ↦
              subst (λ r. (members_of r.symbol_id c ≡ []) × (resolved c r.entity_id ≡ r.entity_id))
                (sym same) (check_row-eq c row (members_of row.symbol_id c) q)
          | inr later ↦ check_entity_names-IsIn rs c b (rw (check_entity_names, q) at h) later
        ]
      ]

  check_row-none :
      (c : Current) (row : LinkRow F) (kids : List ℤ)
      → kids ≡ []
      → resolved c row.entity_id ≡ row.entity_id
      → check_row c row kids ≡ none
  check_row-none c row (kid ∷ kids) h e = cc
  check_row-none c row [] h e = elim (Option-cases (lookup row.entity_id c)) [
    | inl q ↦ rw (check_row, q) refl
    | inr (st, q) ↦
        rw
          (
            check_row,
            q,
            (eqb_ℤ_iff st.entity_id row.entity_id).1 (sym (resolved-some c row.entity_id st q) ∙ e),
          )
          refl
  ]

  pub check_entity_names-none :
      (rs : List (LinkRow F)) (c : Current)
      → ((b : LinkRow F)
          → IsIn b rs
          → (members_of b.symbol_id c ≡ []) × (resolved c b.entity_id ≡ b.entity_id))
      → check_entity_names rs c ≡ none
  unfolding check_entity_names
  check_entity_names-none [] c h = refl
  check_entity_names-none (row ∷ rs) c h =
      let (kids, own) = h row (inl refl) in
      rw (check_entity_names, check_row-none c row (members_of row.symbol_id c) kids own)
        (check_entity_names-none rs c (λ b there. h b (inr there)))

  module _ (c : Current) (rs : List (LinkRow F)) (sound : IsSound c rs)
      (checked : check_entity_names rs c ≡ none) where
    -- No row is of a symbol that is the entity of a row.
    pub entity_apart : (a b : LinkRow F) → IsIn a rs → IsIn b rs → b.symbol_id ≢ a.entity_id
    entity_apart a b here there same =
        let (root, e, free) = sound.1 a here in
        let (none_of, _) = check_entity_names-IsIn rs c b checked there in
        elim (Option-cases (lookup root c)) [
          | inl q ↦ free b there (same ∙ (e ∙ resolved-none c root q))
          | inr (st, q) ↦
              no_member c b.symbol_id root st none_of q
                (sym (same ∙ (e ∙ resolved-some c root st q))) (λ eq. free b there (sym eq))
        ]

    module _ (ws : List (LinkRow F)) (within : (b : LinkRow F) → IsIn b ws → IsIn b rs)
        (digest seeded_by : Text) where
      abbrev pub after : Current
      after = writes (map (inserted digest seeded_by) ws) c

      pub lookup-after :
          (k : ℤ)
          → (lookup k after ≡ lookup k c)
            ⊎ ((b : LinkRow F) × IsIn b ws
                × (b.symbol_id ≡ k)
                × (lookup k after ≡ some (state_of b)))
      lookup-after k = elim (lookup-writes (map (inserted digest seeded_by) ws) c k) [
        | inl others ↦ inl (lookup-writes_other (map (inserted digest seeded_by) ws) c k others)
        | inr (s, there, named, found) ↦
            let (b, known, e) = IsIn-map (inserted digest seeded_by) s ws there in
            inr (b, known, sym (ap (λ t. t.symbol_id) e) ∙ named, found ∙ ap (λ t. some t.state) e)
      ]

      pub lookup-after_written :
          (a : LinkRow F)
          → IsIn a ws
          → (b : LinkRow F) × IsIn b ws
            × (b.symbol_id ≡ a.symbol_id)
            × (lookup a.symbol_id after ≡ some (state_of b))
      lookup-after_written a here =
          elim (lookup-writes (map (inserted digest seeded_by) ws) c a.symbol_id) [
            | inl others ↦ absurd (
                All-IsIn _ (inserted digest seeded_by a) (map (inserted digest seeded_by) ws) others
                  (IsIn-of_map (inserted digest seeded_by) a ws here) refl)
            | inr (s, there, named, found) ↦
                let (b, known, e) = IsIn-map (inserted digest seeded_by) s ws there in
                (b, known, sym (ap (λ t. t.symbol_id) e) ∙ named, found ∙ ap (λ t. some t.state) e)
          ]

      -- A symbol that no row is of is as it was.
      pub lookup-after_other :
          (k : ℤ) → ((b : LinkRow F) → IsIn b ws → b.symbol_id ≢ k) → lookup k after ≡ lookup k c
      lookup-after_other k none_of = elim (lookup-after k) [
        | inl e ↦ e
        | inr (b, there, named, _) ↦ absurd (none_of b there named)
      ]

      pub entity_kept :
          (a : LinkRow F) → IsIn a rs → lookup a.entity_id after ≡ lookup a.entity_id c
      entity_kept a here =
          lookup-after_other a.entity_id (λ b there. entity_apart a b here (within b there))

      pub after-IsFlat : IsFlat c → IsFlat after
      after-IsFlat flat k = elim (lookup-after k) [
        | inr (b, there, named, found) ↦ rw (resolved-some after k (state_of b) found) (
            resolved-same c after b.entity_id (entity_kept b (within b there))
            ∙ (check_entity_names-IsIn rs c b checked (within b there)).1)
        | inl same ↦ rw (resolved-same c after k same) (elim (lookup-after (resolved c k)) [
          | inl e ↦ resolved-same c after (resolved c k) e ∙ flat k
          | inr (b, there, named, found) ↦ elim (Bool-cases (eqb_ℤ (resolved c k) k)) [
            | inl e ↦
                ap (resolved after) ((eqb_ℤ_iff (resolved c k) k).0 e)
                ∙ resolved-same c after k same
            | inr e ↦ elim (Option-cases (lookup k c)) [
              | inl q ↦ cc (rw (resolved-none c k q, (eqb_ℤ_iff k k).1 refl) at e)
              | inr (st, q) ↦ absurd (
                  no_member c b.symbol_id k st
                    (check_entity_names-IsIn rs c b checked (within b there)).0 q
                    (sym (named ∙ resolved-some c k st q))
                    (λ eq. cc (rw ((eqb_ℤ_iff (resolved c k) k).1 (sym (eq ∙ named))) at e)))
            ]
          ]
        ])
      ]
