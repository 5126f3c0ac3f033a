-- ===== src/Entities/Claims.antt =====
-- internal/market/entities/roster.go: what it says of a roster that no ISIN is claimed twice.
use mathlib.Core.Path.{subst}
use mathlib.Core.List.{append_assoc, append-nil}
use verdict_machine.Base.{
  ◌≡◌, refl, sym, ap, ◌∙◌, Bool, true, false, none, some, List, [], ◌∷◌, ◌++◌, map, IsIn, inl, inr,
  Bool-cases, Option-cases, arith,
}
use verdict_machine.Base.Text.{Text, eqb_text, eqb_text_iff}
use verdict_machine.Base.Sort.{contains, IsNodup}
use verdict_machine.Base.Distinct.{contains-append}
use verdict_machine.Base.Map.{Map, lookup, insert, text_key}
use verdict_machine.Base.Result.{ok}
use verdict_machine.Entities.Link.{Link}
use verdict_machine.Entities.Graph.{Index, claim_all}

module _ {V : Type 0} where
  insert_fresh :
      (k : Text) (v : V) (m : Map Text V) → lookup k m ≡ none → insert k v m ≡ m ++ ((k, v) ∷ [])
  unfolding lookup insert
  insert_fresh k v [] h = refl
  insert_fresh k v ((j, w) ∷ m) h = elim (Bool-cases (eqb_text j k)) [
    | inl e ↦ cc (rw e at h)
    | inr e ↦ rw e (ap (λ t. (j, w) ∷ t) (insert_fresh k v m (rw e at h)))
  ]

clash : {A : Type 0} (b : Bool) → b ≡ false → b ≡ true → A
clash b h k = cc

module _ {F : Type 0} (key : Link F → Text) where
  -- The map that a range over the lines fills.
  abbrev pub by : List (Link F) → Index F
  by [] = []
  by (l ∷ links) = (key l, l) ∷ by links

  abbrev pub names : List (Link F) → List Text
  names links = map key links

  by-append : (ks ls : List (Link F)) → by (ks ++ ls) ≡ by ks ++ by ls
  by-append [] ls = refl
  by-append (k ∷ ks) ls = ap (λ t. (key k, k) ∷ t) (by-append ks ls)

  pub lookup-by-none :
      (k : Text) (links : List (Link F))
      → lookup k (by links) ≡ none
      → contains eqb_text (names links) k ≡ false
  unfolding lookup contains
  lookup-by-none k [] h = refl
  lookup-by-none k (l ∷ links) h = elim (Bool-cases (eqb_text (key l) k)) [
    | inl e ↦ cc (rw e at h)
    | inr e ↦ rw e (lookup-by-none k links (rw e at h))
  ]

  -- What is found under a name is a line of that name.
  pub lookup-by-some :
      (k : Text) (l : Link F) (links : List (Link F))
      → lookup k (by links) ≡ some l
      → IsIn l links × (key l ≡ k)
  unfolding lookup
  lookup-by-some k l [] h = cc
  lookup-by-some k l (m ∷ links) h = elim (Bool-cases (eqb_text (key m) k)) [
    | inl e ↦
        let same : m ≡ l = cc (rw e at h) in
        (inl (sym same), subst (λ m. key m ≡ k) same ((eqb_text_iff (key m) k).0 e))
    | inr e ↦ let (there, named) = lookup-by-some k l links (rw e at h) in (inr there, named)
  ]

  pub contains-names :
      (l : Link F) (links : List (Link F))
      → IsIn l links
      → contains eqb_text (names links) (key l) ≡ true
  unfolding contains
  contains-names l [] h = absurd h
  contains-names l (m ∷ links) (inl e) = rw (e, (eqb_text_iff (key m) (key m)).1 refl) refl
  contains-names l (m ∷ links) (inr h) = ground (arith, contains-names l links h)

  -- Each line is found under its name.
  pub lookup-by_self :
      (l : Link F) (links : List (Link F))
      → IsNodup eqb_text (names links)
      → IsIn l links
      → lookup (key l) (by links) ≡ some l
  unfolding lookup
  lookup-by_self l [] nd h = absurd h
  lookup-by_self l (m ∷ links) (fresh, rest) (inl e) =
      rw (e, (eqb_text_iff (key m) (key m)).1 refl) refl
  lookup-by_self l (m ∷ links) (fresh, rest) (inr h) =
      elim (Bool-cases (eqb_text (key m) (key l))) [
        | inl e ↦
            clash _
              (subst (λ k. contains eqb_text (names links) k ≡ false)
                ((eqb_text_iff (key m) (key l)).0 e) fresh)
              (contains-names l links h)
        | inr e ↦ rw e (lookup-by_self l links rest h)
      ]

  IsNodup-snoc :
      (ks : List Text) (k : Text)
      → IsNodup eqb_text ks
      → contains eqb_text ks k ≡ false
      → IsNodup eqb_text (ks ++ (k ∷ []))
  unfolding contains
  IsNodup-snoc [] k h new = (refl, tt)
  IsNodup-snoc (j ∷ ks) k (fresh, rest) new = (
    ground (arith, contains-append eqb_text ks (k ∷ []) j, eqb_text_iff k j, eqb_text_iff j k),
    IsNodup-snoc ks k rest (ground arith),
  )

  names-snoc : (ls : List (Link F)) (l : Link F) → names (ls ++ (l ∷ [])) ≡ names ls ++ (key l ∷ [])
  names-snoc [] l = refl
  names-snoc (k ∷ ls) l = ap (λ t. key k ∷ t) (names-snoc ls l)

  -- One line more, of a new name.
  by-snoc :
      (done : List (Link F)) (l : Link F)
      → lookup (key l) (by done) ≡ none
      → IsNodup eqb_text (names done)
      → (insert (key l) l (by done) ≡ by (done ++ (l ∷ [])))
        × IsNodup eqb_text (names (done ++ (l ∷ [])))
  by-snoc done l h nd = (
    insert_fresh (key l) l (by done) h ∙ sym (by-append done (l ∷ [])),
    rw (names-snoc done l) (IsNodup-snoc (names done) (key l) nd (lookup-by-none (key l) done h)),
  )

module _ {F : Type 0} where
  abbrev pub predecessors : List (Link F) → List Text
  predecessors links = map (λ l. l.predecessor) links

  abbrev pub successors : List (Link F) → List Text
  successors links = map (λ l. l.successor) links

  abbrev pub by_succ : List (Link F) → Index F
  by_succ links = by (λ l. l.successor) links

  abbrev pub by_pred : List (Link F) → Index F
  by_pred links = by (λ l. l.predecessor) links

  -- No ISIN is claimed twice, and the maps are those of all the lines.
  abbrev pub IsClaimed : List (Link F) → Index F × Index F → Type 0
  IsClaimed links claims =
      (claims ≡ (by_succ links, by_pred links))
      × IsNodup eqb_text (successors links)
      × IsNodup eqb_text (predecessors links)

  claim_all-onto :
      (done links : List (Link F)) (claims : Index F × Index F)
      → IsNodup eqb_text (successors done)
      → IsNodup eqb_text (predecessors done)
      → claim_all (by_succ done, by_pred done) links ≡ ok claims
      → IsClaimed (done ++ links) claims
  unfolding claim_all
  claim_all-onto done [] claims ss ps h = rw (append-nil done) (cc, ss, ps)
  claim_all-onto done (l ∷ links) claims ss ps h =
      elim (Option-cases (lookup l.successor (by_succ done))) [
        | inr (prev, e) ↦ cc (rw (e, claim_all) at h)
        | inl e ↦ elim (Option-cases (lookup l.predecessor (by_pred done))) [
          | inr (prev, q) ↦ cc (rw (e, q, claim_all) at h)
          | inl q ↦
              let (se, sn) = by-snoc (λ l. l.successor) done l e ss in
              let (pe, pn) = by-snoc (λ l. l.predecessor) done l q ps in
              subst (λ ls. IsClaimed ls claims) (append_assoc done (l ∷ []) links)
                (claim_all-onto (done ++ (l ∷ [])) links claims sn pn
                  (rw (claim_all, e, q, se, pe) at h))
        ]
      ]

  pub claim_all-IsClaimed :
      (links : List (Link F)) (claims : Index F × Index F)
      → claim_all ([], []) links ≡ ok claims
      → IsClaimed links claims
  unfolding contains
  claim_all-IsClaimed links claims h = claim_all-onto [] links claims tt tt h
