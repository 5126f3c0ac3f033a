-- ===== src/Entities/Repeats.antt =====
-- internal/market/entities/apply.go: rows that were written are skipped when they come again.
use mathlib.Core.Path.{subst}
use verdict_machine.Base.{
  ◌≡◌, refl, sym, ap, ◌∙◌, ◌≢◌, ◌⊎◌, Bool, true, false, none, some, List, [], ◌∷◌, map, IsIn, inl,
  inr, arith,
}
use verdict_machine.Base.Int.{ℤ, eqb_ℤ, eqb_ℤ_iff}
use verdict_machine.Base.Text.{Text}
use verdict_machine.Base.Sort.{contains}
use verdict_machine.Base.Map.{lookup, int_key, IsMap}
use verdict_machine.Base.Result.{ok, >>=-eq-ok, ok-injective}
use verdict_machine.Time.{Time, same_time}
use verdict_machine.Entities.Plan.{LinkRow, LinkState, Current}
use verdict_machine.Entities.Apply.{
  is_member, members_of, check_entity_names, differs_from, take_row, ApplyResult, inserted, put,
  take_rows, state_of,
}
use verdict_machine.Entities.Written.{
  members_of-lookup, lookup-members_of, writes-IsMap, resolved-same,
}
use verdict_machine.Entities.Flatness.{
  IsSound, check_entity_names-IsIn, check_entity_names-none, entity_apart, after, lookup-after,
  lookup-after_written, entity_kept,
}

module _ {F : Type 0} (dry_run : Bool) (c : Current) where
  -- What was written is what the loop takes, and nothing else.
  abbrev pub IsTaken : List (LinkRow F) → ApplyResult F → Type 0
  IsTaken rs out =
      ((b : LinkRow F) → IsIn b out.rows → IsIn b rs × (take_row c b ≡ ok true))
      × ((b : LinkRow F)
          → IsIn b rs
          → (IsIn b out.rows × (take_row c b ≡ ok true)) ⊎ (take_row c b ≡ ok false))

  put-IsTaken :
      (row : LinkRow F) (rs : List (LinkRow F)) (written : Bool) (out : ApplyResult F)
      → take_row c row ≡ ok written
      → IsTaken rs out
      → IsTaken (row ∷ rs) (put written row out)
  put-IsTaken row rs true out e (only, each) = (
    λ b there. elim there [
      | inl same ↦ (inl same, subst (λ b. take_row c b ≡ ok true) (sym same) e)
      | inr later ↦ let (known, taken) = only b later in (inr known, taken)
    ],
    λ b there. elim there [
      | inl same ↦ inl (inl same, subst (λ b. take_row c b ≡ ok true) (sym same) e)
      | inr later ↦ elim (each b later) [
        | inl (known, taken) ↦ inl (inr known, taken)
        | inr skipped ↦ inr skipped
      ]
    ],
  )
  put-IsTaken row rs false out e (only, each) = (
    λ b there. let (known, taken) = only b there in (inr known, taken),
    λ b there. elim there [
      | inl same ↦ inr (subst (λ b. take_row c b ≡ ok false) (sym same) e)
      | inr later ↦ each b later
    ],
  )

  pub take_rows-IsTaken :
      (rs : List (LinkRow F)) (out : ApplyResult F)
      → take_rows dry_run c rs ≡ ok out
      → IsTaken rs out
  unfolding take_rows
  take_rows-IsTaken [] out h =
      subst (IsTaken []) (ok-injective _ out h) (λ b there. absurd there, λ b there. absurd there)
  take_rows-IsTaken (row ∷ rs) out h =
      let (written, e, h1) = >>=-eq-ok (take_row c row) _ out h in
      let (rest, e1, h2) = >>=-eq-ok (take_rows dry_run c rs) _ out h1 in
      subst (IsTaken (row ∷ rs)) (ok-injective _ out h2)
        (put-IsTaken row rs written rest e (take_rows-IsTaken rs rest e1))

  -- Where every row is skipped, none is written.
  pub take_rows-skipped :
      (rs : List (LinkRow F))
      → ((b : LinkRow F) → IsIn b rs → take_row c b ≡ ok false)
      → (out : ApplyResult F) × (take_rows dry_run c rs ≡ ok out)
        × (out.rows ≡ [])
        × (out.skipped ≡ rs)
  unfolding take_rows
  take_rows-skipped [] h = (record { rows = []; skipped = []; dry_run = dry_run }, refl, refl, refl)
  take_rows-skipped (row ∷ rs) h =
      let (out, e, empty, all_of) = take_rows-skipped rs (λ b there. h b (inr there)) in
      (put false row out, rw (h row (inl refl), e) refl, empty, ap (λ t. row ∷ t) all_of)

same_time_self : (t : Time) → same_time t t ≡ true
same_time_self t = ground arith

off : (a b : ℤ) → a ≢ b → eqb_ℤ b a ≡ false
off a b ne = ground (arith, eqb_ℤ_iff b a, ne)

nothing_in : (ks : List ℤ) → ((k : ℤ) → contains eqb_ℤ ks k ≡ true → ⊥) → ks ≡ []
unfolding contains
nothing_in [] h = refl
nothing_in (k ∷ ks) h = absurd (h k (rw ((eqb_ℤ_iff k k).1 refl) refl))

not_there : (ks : List ℤ) (k : ℤ) → ks ≡ [] → contains eqb_ℤ ks k ≡ true → ⊥
unfolding contains
not_there [] k e h = cc
not_there (j ∷ ks) k e h = cc

module _ {F : Type 0} where
  entity_of :
      (entity k : ℤ) (st : LinkState) (w : LinkRow F)
      → state_of w ≡ st
      → is_member entity k st ≡ true
      → entity ≡ w.entity_id
  entity_of entity k st w e h =
      let joined : st.entity_id ≡ entity = (eqb_ℤ_iff st.entity_id entity).0 (ground arith) in
      sym (ap (λ t. t.entity_id) e ∙ joined)

  -- The state that a row wrote says the same as the row.
  differs_from-state_of : (a : LinkRow F) → differs_from (state_of a) a ≡ []
  unfolding differs_from
  differs_from-state_of a =
      rw
        (
          differs_from,
          same_time_self a.boundary,
          (eqb_ℤ_iff a.predecessor_id a.predecessor_id).1 refl,
        )
        refl

  skips :
      (c : Current) (a : LinkRow F)
      → lookup a.symbol_id c ≡ some (state_of a)
      → a.symbol_id ≢ a.entity_id
      → take_row c a ≡ ok false
  unfolding take_row
  skips c a found ne =
      rw
        (
          take_row,
          found,
          off a.symbol_id a.entity_id ne,
          (eqb_ℤ_iff a.entity_id a.entity_id).1 refl,
          differs_from-state_of a,
        )
        refl

  take_row-same :
      (c d : Current) (a : LinkRow F)
      → lookup a.symbol_id d ≡ lookup a.symbol_id c
      → take_row d a ≡ take_row c a
  unfolding take_row
  take_row-same c d a e = rw (take_row, e) refl

  module _ (c : Current) (rs : List (LinkRow F)) (sound : IsSound c rs)
      (checked : check_entity_names rs c ≡ none) (out : ApplyResult F)
      (taken : IsTaken false c rs out) (digest seeded_by : Text) where
    pub of_rows : (b : LinkRow F) → IsIn b out.rows → IsIn b rs
    of_rows b there = (taken.0 b there).0

    abbrev pub second : Current
    second = after c rs sound checked out.rows of_rows digest seeded_by

    wrote :
        (a b : LinkRow F)
        → IsIn a rs
        → IsIn b out.rows
        → b.symbol_id ≡ a.symbol_id
        → lookup a.symbol_id second ≡ some (state_of b)
        → take_row second a ≡ ok false
    wrote a b here there named found =
        skips second a (found ∙ ap some (sound.0 b a (of_rows b there) here named))
          (entity_apart c rs sound checked a a here here)

    pub again_skipped : (a : LinkRow F) → IsIn a rs → take_row second a ≡ ok false
    again_skipped a here =
        elim (lookup-after c rs sound checked out.rows of_rows digest seeded_by a.symbol_id) [
          | inr (b, there, named, found) ↦ wrote a b here there named found
          | inl same ↦ elim (taken.1 a here) [
            | inr skipped ↦ take_row-same c second a same ∙ skipped
            | inl (there, _) ↦
                let (b, known, named, found) =
                  lookup-after_written c rs sound checked out.rows of_rows digest seeded_by a
                    there in
                wrote a b here known named found
          ]
        ]

    no_new_member : IsMap c → (b : LinkRow F) → IsIn b rs → members_of b.symbol_id second ≡ []
    no_new_member unique b here = nothing_in (members_of b.symbol_id second) (λ k member.
        let (st, found, joined) =
          lookup-members_of b.symbol_id k second
            (writes-IsMap (map (inserted digest seeded_by) out.rows) c unique) member in
        elim (lookup-after c rs sound checked out.rows of_rows digest seeded_by k) [
          | inr (w, there, named, state) ↦
              entity_apart c rs sound checked w b (of_rows w there) here
                (entity_of b.symbol_id k st w (cc (state, found)) joined)
          | inl same ↦
              not_there (members_of b.symbol_id c) k (check_entity_names-IsIn rs c b checked here).0
                (members_of-lookup b.symbol_id k st c (sym same ∙ found) joined)
        ])

    -- The checks of the names hold again.
    pub again_checked : IsMap c → check_entity_names rs second ≡ none
    again_checked unique = check_entity_names-none rs second (λ b here. (
      no_new_member unique b here,
      resolved-same c second b.entity_id
            (entity_kept c rs sound checked out.rows of_rows digest seeded_by b here)
          ∙ (check_entity_names-IsIn rs c b checked here).1,
    ))
