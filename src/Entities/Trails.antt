-- ===== src/Entities/Trails.antt =====
-- internal/market/entities/roster.go: the lines that a walk from a root has met, where no ISIN is
-- claimed twice.
use mathlib.Core.Path.{subst}
use verdict_machine.Base.{
  ◌+◌, ◌≤◌, ◌≡◌, refl, sym, ap, ◌∙◌, ◌⊎◌, true, false, none, List, [], ◌∷◌, map, length, length-map,
  IsIn, inl, inr, Bool-cases, arith,
}
use verdict_machine.Base.Text.{Text, eqb_text, eqb_text_iff}
use verdict_machine.Base.Sort.{contains, IsNodup}
use verdict_machine.Base.Pigeons.{length-IsNodup-le}
use verdict_machine.Base.Map.{lookup, text_key}
use verdict_machine.Entities.Link.{Link}
use verdict_machine.Entities.Claims.{
  predecessors, successors, by_succ, lookup-by_self, contains-names,
}

module _ {F : Type 0} where
  -- A name of the list is that of one of its lines.
  contains-find :
      (key : Link F → Text) (k : Text) (vs : List (Link F))
      → contains eqb_text (map key vs) k ≡ true
      → (w : Link F) × IsIn w vs × (key w ≡ k)
  unfolding contains
  contains-find key k [] h = cc
  contains-find key k (v ∷ vs) h = elim (Bool-cases (eqb_text (key v) k)) [
    | inl e ↦ (v, inl refl, (eqb_text_iff (key v) k).0 e)
    | inr e ↦ let (w, there, named) = contains-find key k vs (rw e at h) in (w, inr there, named)
  ]

  abbrev tail : List (Link F) → List (Link F)
  tail [] = []
  tail (v ∷ vs) = vs

  IsIn-tail : (u : Link F) (vs : List (Link F)) → IsIn u (tail vs) → IsIn u vs
  IsIn-tail u [] h = absurd h
  IsIn-tail u (v ∷ vs) h = inr h

  module _ (links : List (Link F)) where
    -- The lines before `cur` on the way from a root, latest first.
    abbrev pub IsTrail : List (Link F) → Link F → Type 0
    IsTrail [] cur = lookup cur.predecessor (by_succ links) ≡ none
    IsTrail (v ∷ vs) cur = IsIn v links × (v.successor ≡ cur.predecessor) × IsTrail vs v

    IsTrail-IsIn : (vs : List (Link F)) (cur w : Link F) → IsTrail vs cur → IsIn w vs → IsIn w links
    IsTrail-IsIn [] cur w t h = absurd h
    IsTrail-IsIn (v ∷ vs) cur w (there, joined, t) (inl e) = subst (λ w. IsIn w links) (sym e) there
    IsTrail-IsIn (v ∷ vs) cur w (there, joined, t) (inr h) = IsTrail-IsIn vs v w t h

    IsTrail-known :
        (vs : List (Link F)) (cur w : Link F)
        → IsIn cur links
        → IsTrail vs cur
        → IsIn w (cur ∷ vs)
        → IsIn w links
    IsTrail-known vs cur w here t (inl e) = subst (λ w. IsIn w links) (sym e) here
    IsTrail-known vs cur w here t (inr h) = IsTrail-IsIn vs cur w t h

    -- The line behind one of a trail.
    abbrev IsBehind : List (Link F) → Link F → Type 0
    IsBehind vs w =
        (lookup w.predecessor (by_succ links) ≡ none)
        ⊎ ((u : Link F) × IsIn u (tail vs) × IsIn u links × (u.successor ≡ w.predecessor))

    IsBehind-first : (vs : List (Link F)) (v : Link F) → IsTrail vs v → IsBehind (v ∷ vs) v
    IsBehind-first [] v t = inl t
    IsBehind-first (u ∷ us) v (there, joined, t) = inr (u, inl refl, there, joined)

    behind : (vs : List (Link F)) (cur w : Link F) → IsTrail vs cur → IsIn w vs → IsBehind vs w
    behind [] cur w t h = absurd h
    behind (v ∷ vs) cur w (there, joined, t) (inl e) =
        subst (IsBehind (v ∷ vs)) (sym e) (IsBehind-first vs v t)
    behind (v ∷ vs) cur w (there, joined, t) (inr h) = elim (behind vs v w t h) [
      | inl root ↦ inl root
      | inr (u, at, known, before) ↦ inr (u, IsIn-tail u vs at, known, before)
    ]

    module _ (ss : IsNodup eqb_text (successors links)) where
      successor-injective :
          (u v : Link F) → IsIn u links → IsIn v links → u.successor ≡ v.successor → u ≡ v
      unfolding lookup
      successor-injective u v hu hv e =
          let at_u = lookup-by_self (λ l. l.successor) u links ss hu in
          let at_v = lookup-by_self (λ l. l.successor) v links ss hv in cc (rw e at at_u, at_v)

      -- A trail does not come back.
      IsTrail-fresh :
          (vs : List (Link F)) (cur w : Link F)
          → IsTrail vs cur
          → IsIn w vs
          → w.predecessor ≡ cur.predecessor
          → ⊥
      IsTrail-fresh [] cur w t h e = absurd h
      IsTrail-fresh (v ∷ vs) cur w (there, joined, t) h e =
          elim (behind (v ∷ vs) cur w (there, joined, t) h) [
            | inl root ↦
                let found = lookup-by_self (λ l. l.successor) v links ss there in
                cc (rw (joined, ← e) at found)
            | inr (u, at, known, before) ↦
                let same = successor-injective u v known there (before ∙ e ∙ sym joined) in
                IsTrail-fresh vs v u t at (ap (λ l. l.predecessor) same)
          ]

      IsTrail-new :
          (vs : List (Link F)) (cur : Link F)
          → IsTrail vs cur
          → contains eqb_text (predecessors vs) cur.predecessor ≡ false
      IsTrail-new vs cur t =
          elim (Bool-cases (contains eqb_text (predecessors vs) cur.predecessor)) [
            | inr h ↦ h
            | inl h ↦
                let (w, there, named) = contains-find (λ l. l.predecessor) cur.predecessor vs h in
                absurd (IsTrail-fresh vs cur w t there named)
          ]

      IsTrail-IsNodup :
          (vs : List (Link F)) (cur : Link F)
          → IsTrail vs cur
          → IsNodup eqb_text (predecessors (cur ∷ vs))
      IsTrail-IsNodup [] cur t = (IsTrail-new [] cur t, tt)
      IsTrail-IsNodup (v ∷ vs) cur (there, joined, t) =
          (IsTrail-new (v ∷ vs) cur (there, joined, t), IsTrail-IsNodup vs v t)

      predecessors-IsTrail :
          (vs : List (Link F)) (cur : Link F)
          → IsIn cur links
          → IsTrail vs cur
          → (k : Text) → contains eqb_text (predecessors (cur ∷ vs)) k ≡ true
          → contains eqb_text (predecessors links) k ≡ true
      predecessors-IsTrail vs cur here t k h =
          let (w, there, named) = contains-find (λ l. l.predecessor) k (cur ∷ vs) h in
          subst (λ k. contains eqb_text (predecessors links) k ≡ true) named
            (contains-names (λ l. l.predecessor) w links (IsTrail-known vs cur w here t there))

      -- So it is no longer than the list of the lines.
      pub length-IsTrail-lt :
          (vs : List (Link F)) (cur : Link F)
          → IsIn cur links
          → IsTrail vs cur
          → length vs + 1 ≤ length links
      length-IsTrail-lt vs cur here t = omega (
        arith,
        length-IsNodup-le eqb_text eqb_text_iff (predecessors (cur ∷ vs)) (predecessors links)
            (IsTrail-IsNodup vs cur t) (predecessors-IsTrail vs cur here t),
        length-map vs (λ l. l.predecessor),
        length-map links (λ l. l.predecessor),
      )
