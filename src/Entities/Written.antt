-- ===== src/Entities/Written.antt =====
-- internal/market/entities/apply.go: the map of symbol_links after rows are written to it.
use mathlib.Core.Path.{subst}
use verdict_machine.Base.{
  ◌≡◌, refl, ◌≢◌, ◌⊎◌, Bool, true, false, none, some, List, [], ◌∷◌, All, IsIn, inl, inr,
  Bool-cases, arith,
}
use verdict_machine.Base.Int.{ℤ, eqb_ℤ, eqb_ℤ_iff}
use verdict_machine.Base.Sort.{contains}
use verdict_machine.Base.Map.{
  lookup, insert, int_key, lookup-insert, lookup-insert_ne, insert-IsMap, IsMap, keys,
}
use verdict_machine.Entities.Plan.{LinkState, SymbolLink, Current, current_map, resolved}
use verdict_machine.Entities.Apply.{is_member, members_of, write_all}

-- The map with rows written to it, one after the other.
abbrev pub writes : List SymbolLink → Current → Current
writes [] c = c
writes (s ∷ ws) c = writes ws (insert s.symbol_id s.state c)

pub current_map-write_all :
    (ws table : List SymbolLink) → current_map (write_all ws table) ≡ writes ws (current_map table)
unfolding current_map write_all
current_map-write_all [] table = refl
current_map-write_all (s ∷ ws) table = current_map-write_all ws (s ∷ table)

pub current_map-IsMap : (table : List SymbolLink) → IsMap (current_map table)
unfolding current_map
current_map-IsMap [] = tt
current_map-IsMap (s ∷ table) =
    insert-IsMap s.symbol_id s.state (current_map table) (current_map-IsMap table)

pub writes-IsMap : (ws : List SymbolLink) (c : Current) → IsMap c → IsMap (writes ws c)
writes-IsMap [] c h = h
writes-IsMap (s ∷ ws) c h =
    writes-IsMap ws (insert s.symbol_id s.state c) (insert-IsMap s.symbol_id s.state c h)

-- A symbol that no row is of keeps its state.
pub lookup-writes_other :
    (ws : List SymbolLink) (c : Current) (k : ℤ)
    → All (λ s. s.symbol_id ≢ k) ws
    → lookup k (writes ws c) ≡ lookup k c
lookup-writes_other [] c k h = refl
lookup-writes_other (s ∷ ws) c k (ne, h) =
    rw (lookup-writes_other ws (insert s.symbol_id s.state c) k h)
      (lookup-insert_ne s.symbol_id s.state c k ne)

-- The others have the state of a row, the last one of theirs.
pub lookup-writes :
    (ws : List SymbolLink) (c : Current) (k : ℤ)
    → All (λ s. s.symbol_id ≢ k) ws
      ⊎ ((s : SymbolLink) × IsIn s ws × (s.symbol_id ≡ k) × (lookup k (writes ws c) ≡ some s.state))
lookup-writes [] c k = inl tt
lookup-writes (s ∷ ws) c k = elim (lookup-writes ws (insert s.symbol_id s.state c) k) [
  | inr (w, there, named, found) ↦ inr (w, inr there, named, found)
  | inl others ↦ elim (Bool-cases (eqb_ℤ s.symbol_id k)) [
    | inr e ↦ inl (λ same. ground (arith, eqb_ℤ_iff s.symbol_id k), others)
    | inl e ↦ inr (
      s,
      inl refl,
      (eqb_ℤ_iff s.symbol_id k).0 e,
      rw
          (
            lookup-writes_other ws (insert s.symbol_id s.state c) k others,
            lookup-insert s.symbol_id s.state c k,
            e,
          )
          refl,
    )
  ]
]

pub resolved-none : (c : Current) (k : ℤ) → lookup k c ≡ none → resolved c k ≡ k
unfolding resolved
resolved-none c k e = rw (resolved, e) refl

pub resolved-some :
    (c : Current) (k : ℤ) (st : LinkState) → lookup k c ≡ some st → resolved c k ≡ st.entity_id
unfolding resolved
resolved-some c k st e = rw (resolved, e) refl

pub resolved-same : (c d : Current) (k : ℤ) → lookup k d ≡ lookup k c → resolved d k ≡ resolved c k
unfolding resolved
resolved-same c d k e = rw (resolved, e) refl

-- A symbol that resolves to an entity other than itself is one of its members.
pub members_of-lookup :
    (entity k : ℤ) (st : LinkState) (c : Current)
    → lookup k c ≡ some st
    → is_member entity k st ≡ true
    → contains eqb_ℤ (members_of entity c) k ≡ true
unfolding lookup members_of contains
members_of-lookup entity k st [] e h = cc
members_of-lookup entity k st ((j, w) ∷ c) e h = elim (Bool-cases (eqb_ℤ j k)) [
  | inl t ↦
      let same : w ≡ st = cc (rw t at e) in
      let joined : j ≡ k = (eqb_ℤ_iff j k).0 t in
      let member : is_member entity j w ≡ true = rw (joined, same) h in rw (member, t) refl
  | inr f ↦
      let there = members_of-lookup entity k st c (rw f at e) h in
      elim (Bool-cases (is_member entity j w)) [ inl m ↦ rw (m, f) there | inr m ↦ rw m there ]
]

keys-lookup :
    (k : ℤ) (st : LinkState) (c : Current) → lookup k c ≡ some st → contains eqb_ℤ (keys c) k ≡ true
unfolding lookup contains
keys-lookup k st [] e = cc
keys-lookup k st ((j, w) ∷ c) e = elim (Bool-cases (eqb_ℤ j k)) [
  | inl t ↦ rw t refl
  | inr f ↦ rw f (keys-lookup k st c (rw f at e))
]

-- And only those are.
pub lookup-members_of :
    (entity k : ℤ) (c : Current)
    → IsMap c
    → contains eqb_ℤ (members_of entity c) k ≡ true
    → (st : LinkState) × (lookup k c ≡ some st) × (is_member entity k st ≡ true)
unfolding lookup members_of contains
lookup-members_of entity k [] h e = cc
lookup-members_of entity k ((j, w) ∷ c) (fresh, h) e = elim (Bool-cases (eqb_ℤ j k)) [
  | inl t ↦ elim (Bool-cases (is_member entity j w)) [
    | inl m ↦ (w, rw t refl, subst (λ i. is_member entity i w ≡ true) ((eqb_ℤ_iff j k).0 t) m)
    | inr m ↦
        let (st, found, member) = lookup-members_of entity k c h (rw m at e) in
        absurd (
          clash _ (subst (λ i. contains eqb_ℤ (keys c) i ≡ false) ((eqb_ℤ_iff j k).0 t) fresh)
            (keys-lookup k st c found))
  ]
  | inr f ↦
      let (st, found, member) = lookup-members_of entity k c h (past j w f e) in
      (st, rw f found, member)
]
  where
    clash : (b : Bool) → b ≡ false → b ≡ true → ⊥
    clash b h k = cc

    past :
        (j : ℤ) (w : LinkState)
        → eqb_ℤ j k ≡ false
        → contains eqb_ℤ (members_of entity ((j, w) ∷ c)) k ≡ true
        → contains eqb_ℤ (members_of entity c) k ≡ true
    past j w f e = elim (Bool-cases (is_member entity j w)) [
      | inl m ↦ rw f at (rw m at e)
      | inr m ↦ rw m at e
    ]
