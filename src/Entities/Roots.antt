-- ===== src/Entities/Roots.antt =====
-- internal/market/entities/apply.go: the start of a chain, and the ids of the ISINs of a roster.
use mathlib.Core.Path.{subst}
use verdict_machine.Base.{
  ℕ, zero, suc, ◌≤◌, ◌≡◌, refl, ◌∙◌, Bool, true, false, Option, none, some, List, [], ◌∷◌, length,
  inl, inr, Bool-cases, Option-cases, arith,
}
use verdict_machine.Base.Text.{Text, eqb_text, eqb_text_iff}
use verdict_machine.Base.Sort.{contains, IsNodup}
use verdict_machine.Base.Map.{Map, lookup, insert, text_key, lookup-insert}
use verdict_machine.Base.Result.{ok, ok-injective}
use verdict_machine.Entities.Link.{Link}
use verdict_machine.Entities.Claims.{
  predecessors, successors, by_succ, lookup-by-some, lookup-by-none, lookup-by_self, contains-names,
}
use verdict_machine.Entities.Trails.{IsTrail}
use verdict_machine.Entities.Plan.{predecessors_of, root_of}

clash : (b : Bool) → b ≡ false → b ≡ true → ⊥
clash b h k = cc

module _ {F : Type 0} where
  abbrev from_line : Option (Link F) → Option Text → Option Text
  from_line none rest = rest
  from_line (some l) rest = some l.predecessor

  by_succ_fresh :
      (k : Text) (links : List (Link F))
      → contains eqb_text (successors links) k ≡ false
      → lookup k (by_succ links) ≡ none
  by_succ_fresh k links h = elim (Option-cases (lookup k (by_succ links))) [
    | inl e ↦ e
    | inr (l, e) ↦
        let (there, named) = lookup-by-some (λ l. l.successor) k l links e in
        absurd (
          clash _ h (
            subst (λ k. contains eqb_text (successors links) k ≡ true) named
              (contains-names (λ l. l.successor) l links there)))
  ]

  -- Where no ISIN is a successor twice, the map has the predecessor of the line of a successor.
  lookup-predecessors_of :
      (links : List (Link F)) (m : Map Text Text) (k : Text)
      → IsNodup eqb_text (successors links)
      → lookup k (predecessors_of links m) ≡ from_line (lookup k (by_succ links)) (lookup k m)
  unfolding lookup predecessors_of contains
  lookup-predecessors_of [] m k nd = refl
  lookup-predecessors_of (l ∷ links) m k (fresh, nd) =
      lookup-predecessors_of links (insert l.successor l.predecessor m) k nd
      ∙ elim (Bool-cases (eqb_text l.successor k)) [
        | inl e ↦
            rw
              (
                lookup-insert l.successor l.predecessor m k,
                e,
                by_succ_fresh k links (
                    subst (λ k. contains eqb_text (successors links) k ≡ false)
                      ((eqb_text_iff l.successor k).0 e) fresh),
              )
              refl
        | inr e ↦ rw (lookup-insert l.successor l.predecessor m k, e) refl
      ]

  module _ (links : List (Link F)) (nd : IsNodup eqb_text (successors links)) where
    no_line :
        (x : Text)
        → lookup x (predecessors_of links []) ≡ none
        → contains eqb_text (successors links) x ≡ false
    no_line x e = elim (Option-cases (lookup x (by_succ links))) [
      | inl f ↦ lookup-by-none (λ l. l.successor) x links f
      | inr (l, f) ↦ cc (e, rw f at (lookup-predecessors_of links [] x nd))
    ]

    line_before :
        (x prev : Text)
        → lookup x (predecessors_of links []) ≡ some prev
        → contains eqb_text (predecessors links) prev ≡ true
    unfolding lookup
    line_before x prev e = elim (Option-cases (lookup x (by_succ links))) [
      | inl f ↦ cc (e, rw f at (lookup-predecessors_of links [] x nd))
      | inr (l, f) ↦
          let (there, named) = lookup-by-some (λ l. l.successor) x l links f in
          subst (λ k. contains eqb_text (predecessors links) k ≡ true)
            (cc (e, rw f at (lookup-predecessors_of links [] x nd)))
            (contains-names (λ l. l.predecessor) l links there)
    ]

    -- The way back along a trail ends at its root.
    pub root_of-IsTrail :
        (n : ℕ) (vs : List (Link F)) (cur : Link F)
        → IsTrail links vs cur
        → suc (length vs) ≤ n
        → (root : Text) × (root_of n (predecessors_of links []) cur.predecessor ≡ ok root)
    unfolding root_of lookup
    root_of-IsTrail zero vs cur t h = absurd (omega (arith, h))
    root_of-IsTrail (suc n) [] cur t h =
        (cur.predecessor, rw (root_of, lookup-predecessors_of links [] cur.predecessor nd, t) refl)
    root_of-IsTrail (suc n) (v ∷ vs) cur (there, joined, t) h =
        let (root, found) = root_of-IsTrail n vs v t (omega (arith, h)) in
        (
          root,
          rw
              (
                root_of,
                lookup-predecessors_of links [] cur.predecessor nd,
                subst (λ k. lookup k (by_succ links) ≡ some v) joined
                    (lookup-by_self (λ l. l.successor) v links nd there),
              )
              found,
        )

    -- The start of a chain is no successor, and is a predecessor where the walk starts at one.
    pub root_of-free :
        (n : ℕ) (x root : Text)
        → root_of n (predecessors_of links []) x ≡ ok root
        → contains eqb_text (successors links) root ≡ false
    unfolding root_of lookup
    root_of-free zero x root h = cc
    root_of-free (suc n) x root h = elim (Option-cases (lookup x (predecessors_of links []))) [
      | inr (prev, e) ↦ root_of-free n prev root (rw (root_of, e) at h)
      | inl e ↦
          subst (λ r. contains eqb_text (successors links) r ≡ false)
            (ok-injective x root (rw (root_of, e) at h)) (no_line x e)
    ]

    pub root_of-contains :
        (n : ℕ) (x root : Text)
        → root_of n (predecessors_of links []) x ≡ ok root
        → contains eqb_text (predecessors links) x ≡ true
        → contains eqb_text (predecessors links) root ≡ true
    unfolding root_of lookup
    root_of-contains zero x root h here = cc
    root_of-contains (suc n) x root h here =
        elim (Option-cases (lookup x (predecessors_of links []))) [
          | inr (prev, e) ↦
              root_of-contains n prev root (rw (root_of, e) at h) (line_before x prev e)
          | inl e ↦
              subst (λ r. contains eqb_text (predecessors links) r ≡ true)
                (ok-injective x root (rw (root_of, e) at h)) here
        ]
