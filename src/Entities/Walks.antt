-- ===== src/Entities/Walks.antt =====
-- internal/market/entities/roster.go: a roster that validates is a set of paths, and its walks end.
use verdict_machine.Base.{
  ℕ, zero, suc, ◌+◌, ◌≡◌, refl, sym, Bool, true, List, [], ◌∷◌, ◌++◌, length, All, IsIn, inl, inr,
  Bool-cases, Option-cases, arith,
}
use verdict_machine.Base.Text.{Text, eqb_text}
use verdict_machine.Base.Sort.{IsNodup}
use verdict_machine.Base.Map.{lookup, insert, text_key, Every, insert-Every}
use verdict_machine.Base.Result.{Outcome, ok, err, ◌>>=◌}
use verdict_machine.Entities.Link.{Link}
use verdict_machine.Entities.Graph.{
  GraphFault, out_of_fuel, two_predecessors, two_successors, span_backwards, in_cycle, Seen,
  pair_key, is_backwards, walk, walk_root, walk_all,
}
use verdict_machine.Entities.Claims.{successors, by_succ, by_pred, lookup-by-some}
use verdict_machine.Entities.Trails.{IsTrail, length-IsTrail-lt}

pub All-of_IsIn :
    {A : Type 0} (P : A → Type 0) (xs : List A) → ((x : A) → IsIn x xs → P x) → All P xs
All-of_IsIn P [] f = tt
All-of_IsIn P (x ∷ xs) f = (f x (inl refl), All-of_IsIn P xs (λ y h. f y (inr h)))

pub append-prefix : {A : Type 0} (a b x y : List A) → length a ≡ length b → a ++ x ≡ b ++ y → a ≡ b
append-prefix [] [] x y n h = refl
append-prefix [] (c ∷ b) x y n h = absurd (omega arith)
append-prefix (c ∷ a) [] x y n h = absurd (omega arith)
append-prefix (c ∷ a) (d ∷ b) x y n h = let ends = append-prefix a b x y (omega arith) cc in cc

module _ {F : Type 0} (links : List (Link F)) where
  -- A line with this key lies on a way from a root.
  abbrev pub IsReached : Text → Bool → Type 0
  IsReached k b =
      (l : Link F) × (vs : List (Link F)) × IsIn l links × IsTrail links vs l × (pair_key l ≡ k)

  -- Fuel was enough, and what was seen is reached.
  abbrev pub IsWalked : Outcome GraphFault Seen → Type 0
  IsWalked (ok seen) = Every IsReached seen
  IsWalked (err out_of_fuel) = ⊥
  IsWalked (err (two_predecessors a b c)) = Unit
  IsWalked (err (two_successors a b c)) = Unit
  IsWalked (err (span_backwards a)) = Unit
  IsWalked (err (in_cycle a b)) = Unit

  IsWalked->>= :
      (m : Outcome GraphFault Seen) (f : Seen → Outcome GraphFault Seen)
      → IsWalked m
      → ((seen : Seen) → Every IsReached seen → IsWalked (f seen))
      → IsWalked (m >>= f)
  IsWalked->>= (ok seen) f h next = next seen h
  IsWalked->>= (err e) f h next = h

  module _ (ss : IsNodup eqb_text (successors links)) where
    walk-IsWalked :
        (fuel : ℕ) (vs : List (Link F)) (seen : Seen) (cur : Link F)
        → IsIn cur links
        → IsTrail links vs cur
        → fuel + length vs ≡ length links
        → Every IsReached seen
        → IsWalked (walk fuel (by_pred links) seen cur)
    unfolding walk
    walk-IsWalked zero vs seen cur here t n reached =
        absurd (omega (arith, length-IsTrail-lt links ss vs cur here t))
    walk-IsWalked (suc fuel) vs seen cur here t n reached =
        let seen' = insert (pair_key cur) true seen in
        let reached' : Every IsReached seen' =
          insert-Every IsReached (pair_key cur) true seen (cur, vs, here, t, refl) reached in
        elim (Option-cases (lookup cur.successor (by_pred links))) [
          | inl e ↦ rw (walk, e) reached'
          | inr (next, e) ↦ elim (Bool-cases (is_backwards cur next)) [
            | inl b ↦ rw (walk, e, b) tt
            | inr b ↦
                let (there, named) =
                  lookup-by-some (λ l. l.predecessor) cur.successor next links e in
                rw (walk, e, b)
                  (walk-IsWalked fuel (cur ∷ vs) seen' next there (here, sym named, t) (omega arith)
                    reached')
          ]
        ]

    walk_root-IsWalked :
        (seen : Seen) (l : Link F)
        → IsIn l links
        → Every IsReached seen
        → IsWalked (walk_root (length links) (by_succ links, by_pred links) seen l)
    walk_root-IsWalked seen l here reached =
        elim (Option-cases (lookup l.predecessor (by_succ links))) [
          | inr (p, e) ↦ rw (walk_root, e) reached
          | inl e ↦
              rw (walk_root, e)
                (walk-IsWalked (length links) [] seen l here e (omega arith) reached)
        ]

    pub walk_all-IsWalked :
        (seen : Seen) (ls : List (Link F))
        → All (λ l. IsIn l links) ls
        → Every IsReached seen
        → IsWalked (walk_all (length links) (by_succ links, by_pred links) seen ls)
    unfolding walk_all
    walk_all-IsWalked seen [] here reached = reached
    walk_all-IsWalked seen (l ∷ ls) (here, rest) reached =
        IsWalked->>= (walk_root (length links) (by_succ links, by_pred links) seen l) _
          (walk_root-IsWalked seen l here reached)
          (λ seen' reached'. walk_all-IsWalked seen' ls rest reached')
