-- ===== src/Entities/Dissolved.antt =====
-- internal/market/entities/apply.go: what a retraction leaves of the entity.
use mathlib.Core.Path.{subst}
use verdict_machine.Base.{
  ℕ, ◌≡◌, refl, sym, ap, ◌∙◌, ◌≢◌, Bool, true, false, some, List, [], ◌∷◌, map, length, All, IsIn,
  inl, inr, Bool-cases, Option-cases, arith,
}
use verdict_machine.Base.Int.{ℤ, pos, sub_ℕ, eqb_ℤ, eqb_ℤ_iff, ltb_ℤ}
use verdict_machine.Base.Text.{Text}
use verdict_machine.Base.Sort.{contains}
use verdict_machine.Base.Distinct.{contains-sort_by}
use verdict_machine.Base.Map.{Map, lookup, int_key}
use verdict_machine.Base.Result.{ok, >>=-eq-ok, ok-injective}
use verdict_machine.Entities.Plan.{
  Registry, isins_of, LinkState, SymbolLink, Current, current_map, resolved,
}
use verdict_machine.Entities.Apply.{is_member, members_of, stamp, write_all}
use verdict_machine.Entities.Retract.{
  RetractResult, retracted_member, scoped_to, detached, some_members, listed_members, retraction,
  retraction_result, retract_from, resolve_ref, retract,
}
use verdict_machine.Entities.Written.{
  writes, current_map-write_all, lookup-writes_other, lookup-writes, resolved-none, resolved-some,
  members_of-lookup,
}

-- No symbol but the entity itself resolves to it, and the symbols that did not before are as they were.
abbrev pub IsDissolved : ℤ → Current → Current → Type 0
IsDissolved entity c d =
    ((k : ℤ) (st : LinkState) → lookup k d ≡ some st → is_member entity k st ≡ false)
    × ((k : ℤ) → contains eqb_ℤ (members_of entity c) k ≡ false → lookup k d ≡ lookup k c)

apart :
    (ms : List ℤ) (k : ℤ) (note seeded_by : Text)
    → contains eqb_ℤ ms k ≡ false
    → All (λ s. s.symbol_id ≢ k) (map (retraction note seeded_by) ms)
unfolding contains
apart [] k note seeded_by h = tt
apart (m ∷ ms) k note seeded_by h =
    (λ same. ground (arith, eqb_ℤ_iff m k), apart ms k note seeded_by (ground arith))

present :
    (ms : List ℤ) (k : ℤ) (note seeded_by : Text)
    → contains eqb_ℤ ms k ≡ true
    → All (λ s. s.symbol_id ≢ k) (map (retraction note seeded_by) ms)
    → ⊥
unfolding contains
present [] k note seeded_by h none_of = cc
present (m ∷ ms) k note seeded_by h (ne, none_of) = elim (Bool-cases (eqb_ℤ m k)) [
  | inl e ↦ ne ((eqb_ℤ_iff m k).0 e)
  | inr e ↦ present ms k note seeded_by (rw e at h) none_of
]

-- A row of the retraction is of a symbol as its own entity.
own :
    (ms : List ℤ) (s : SymbolLink) (note seeded_by : Text)
    → IsIn s (map (retraction note seeded_by) ms)
    → s.state.entity_id ≡ s.symbol_id
own [] s note seeded_by h = absurd h
own (m ∷ ms) s note seeded_by (inl e) = rw e refl
own (m ∷ ms) s note seeded_by (inr h) = own ms s note seeded_by h

not_member : (entity k : ℤ) (st : LinkState) → st.entity_id ≡ k → is_member entity k st ≡ false
not_member entity k st e = rw (e, (eqb_ℤ_iff k k).1 refl) (ground arith)

module _ (entity : ℤ) (c : Current) (note seeded_by : Text) where
  -- The map after the retraction of `ms`.
  abbrev after_all : List ℤ → Current
  after_all ms = writes (map (retraction note seeded_by) ms) c

  dissolves :
      (ms : List ℤ)
      → ((k : ℤ) → contains eqb_ℤ ms k ≡ contains eqb_ℤ (members_of entity c) k)
      → IsDissolved entity c (after_all ms)
  dissolves ms same = (
    λ k st found. elim (lookup-writes (map (retraction note seeded_by) ms) c k) [
      | inr (s, there, named, written) ↦
          let state : s.state ≡ st = cc (sym written ∙ found) in
          not_member entity k st
            (ap (λ t. t.entity_id) (sym state) ∙ (own ms s note seeded_by there ∙ named))
      | inl others ↦ elim (Bool-cases (is_member entity k st)) [
        | inr e ↦ e
        | inl e ↦ absurd (
            present ms k note seeded_by
              (same k
                ∙ members_of-lookup entity k st c
                    (sym (lookup-writes_other (map (retraction note seeded_by) ms) c k others)
                      ∙ found)
                    e)
              others)
      ]
    ],
    λ k out.
        lookup-writes_other (map (retraction note seeded_by) ms) c k
          (apart ms k note seeded_by (same k ∙ out)),
  )

-- A symbol that is retracted on its own is the only member there is.
scoped_to-eq :
    (target entity : ℤ) (members chosen : List ℤ)
    → (eqb_ℤ entity target ≡ false → contains eqb_ℤ members target ≡ true)
    → scoped_to target entity members ≡ ok chosen
    → chosen ≡ members
unfolding contains
scoped_to-eq target entity [] chosen known h = ground (arith, known)
scoped_to-eq target entity (m ∷ []) chosen known h = elim (Bool-cases (eqb_ℤ entity target)) [
  | inl e ↦ cc (rw e at h)
  | inr e ↦
      let one : (target ∷ []) ≡ chosen = ok-injective _ _ (rw e at h) in
      let same : m ≡ target = (eqb_ℤ_iff m target).0 (ground (arith, known e)) in
      sym one ∙ ap (λ t. t ∷ []) (sym same)
]
scoped_to-eq target entity (m ∷ n ∷ members) chosen known h =
    elim (Bool-cases (eqb_ℤ entity target)) [ inl e ↦ cc (rw e at h) | inr e ↦ cc (rw e at h) ]

detached-eq :
    (scoped : Bool) (target entity : ℤ) (members chosen : List ℤ)
    → (eqb_ℤ entity target ≡ false → contains eqb_ℤ members target ≡ true)
    → detached scoped target entity members ≡ ok chosen
    → chosen ≡ members
detached-eq true target entity members chosen known h =
    scoped_to-eq target entity members chosen known h
detached-eq false target entity members chosen known h = sym (ok-injective _ _ h)

some_members-eq :
    (entity : ℤ) (chosen members : List ℤ)
    → some_members entity chosen ≡ ok members
    → members ≡ chosen
some_members-eq entity [] members h = cc
some_members-eq entity (m ∷ chosen) members h = sym (ok-injective _ _ h)

-- What a symbol resolves to has it as a member, unless that is itself.
is_listed :
    (c : Current) (target : ℤ)
    → eqb_ℤ (resolved c target) target ≡ false
    → contains eqb_ℤ (listed_members (resolved c target) c) target ≡ true
is_listed c target ne = elim (Option-cases (lookup target c)) [
  | inl e ↦ cc (rw (resolved-none c target e, (eqb_ℤ_iff target target).1 refl) at ne)
  | inr (st, found) ↦ rw (contains-sort_by eqb_ℤ ltb_ℤ (members_of (resolved c target) c) target) (
      members_of-lookup (resolved c target) target st c found
        (member st (resolved c target) (resolved-some c target st found) ne))
]
  where
    member :
        (st : LinkState) (entity : ℤ)
        → entity ≡ st.entity_id
        → eqb_ℤ entity target ≡ false
        → is_member entity target st ≡ true
    member st entity e ne = ground (
      arith,
      eqb_ℤ_iff st.entity_id entity,
      eqb_ℤ_iff target st.entity_id,
      eqb_ℤ_iff entity target,
    )

ids_of_retracted :
    (names : Map ℤ Text) (entity : ℤ) (ms : List ℤ)
    → map (λ m. m.symbol_id) (map (retracted_member names entity) ms) ≡ ms
ids_of_retracted names entity [] = refl
ids_of_retracted names entity (m ∷ ms) = ap (λ t. m ∷ t) (ids_of_retracted names entity ms)

none_left : (n m : ℕ) → m ≡ n → sub_ℕ n m ≡ pos 0
none_left n m e = ground arith

-- What is returned, and the table.
abbrev pub IsRetracted :
    Registry → List SymbolLink → Text → RetractResult × List SymbolLink → Type 0
IsRetracted registry table ref (res, table') =
    ((target : ℤ) × (resolve_ref registry ref ≡ ok target)
      × (res.entity_id ≡ resolved (current_map table) target))
    × (map (λ m. m.symbol_id) res.members ≡ listed_members res.entity_id (current_map table))
    × (res.remaining ≡ pos 0)
    × IsDissolved res.entity_id (current_map table) (current_map table')

module _ (registry : Registry) (table : List SymbolLink) (ref note seeded_by : Text)
    (scoped : Bool) where
  abbrev c : Current
  c = current_map table

  concluded :
      (target : ℤ) (ms : List ℤ)
      → resolve_ref registry ref ≡ ok target
      → ms ≡ listed_members (resolved c target) c
      → IsRetracted registry table ref (
        retraction_result registry scoped
            (resolved c target)
            (length (listed_members (resolved c target) c))
            ms,
        write_all (map (retraction note seeded_by) ms) table,
      )
  concluded target ms found e = (
    (target, found, refl),
    ids_of_retracted (isins_of (resolved c target ∷ ms) registry []) (resolved c target) ms ∙ e,
    none_left _ _ (ap length e),
    subst (λ d. IsDissolved (resolved c target) c d)
        (sym (current_map-write_all (map (retraction note seeded_by) ms) table))
        (dissolves (resolved c target) c note seeded_by ms (λ k.
          ap (λ ns. contains eqb_ℤ ns k) e
          ∙ contains-sort_by eqb_ℤ ltb_ℤ (members_of (resolved c target) c) k)),
  )

-- Where Retract returns, whichever its scope: it wrote a row for every member of the entity that the
-- symbol resolved to, and none remains; no symbol but the entity itself resolves to it then, and every
-- symbol that did not before is as it was.
pub retract-IsRetracted :
    (registry : Registry) (table table' : List SymbolLink) (ref note seeded_by : Text)
    (scoped : Bool) (res : RetractResult)
    → retract registry table ref note seeded_by scoped ≡ ok (res, table')
    → IsRetracted registry table ref (res, table')
unfolding retract retract_from
retract-IsRetracted registry table table' ref note seeded_by scoped res h =
    let (target, found, h1) = >>=-eq-ok (resolve_ref registry ref) _ (res, table') h in
    let entity = resolved (current_map table) target in
    let linked = listed_members entity (current_map table) in
    let (chosen, e, h2) = >>=-eq-ok (detached scoped target entity linked) _ (res, table') h1 in
    let (ms, e2, h3) = >>=-eq-ok (some_members entity chosen) _ (res, table') h2 in
    subst (λ p. IsRetracted registry table ref p) (ok-injective _ (res, table') h3)
      (concluded registry table ref note (stamp seeded_by) scoped target ms found (
        some_members-eq entity chosen ms e2
        ∙ detached-eq scoped target entity linked chosen (is_listed (current_map table) target) e))
