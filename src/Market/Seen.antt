-- ===== src/Market/Seen.antt =====
-- internal/market/series.go: how often the maps of a set of returns have an entity.
use mathlib.Core.Path.{subst}
use verdict_machine.Base.{
  ℕ, ◌+◌, ◌≡◌, refl, Bool, true, false, List, [], ◌∷◌, select, inl, inr, Bool-cases, arith,
  if◌then◌else◌,
}
use verdict_machine.Base.Int.{ℤ, eqb_ℤ, eqb_ℤ_iff, ltb_ℤ}
use verdict_machine.Base.Sort.{contains, dedupe_from}
use verdict_machine.Base.Distinct.{contains-sort_by, contains-dedupe_from}
use verdict_machine.Base.Map.{Map, lookup, insert, lookup-insert, keys, int_key}
use verdict_machine.Market.Fence.{unique_sorted}
use verdict_machine.Market.Returns.{
  ReturnSet, Verdict, is_priced, is_refused, is_absent, presence, times_seen, record_verdict,
}

-- 1 for a requested entity, 0 for another.
abbrev pub requested : List ℤ → ℤ → ℕ
requested ids id = if contains eqb_ℤ ids id then 1 else 0

absent_as :
    {V : Type 0} (id : ℤ) (m : Map ℤ V) (k : ℤ)
    → presence m id ≡ 0
    → eqb_ℤ id k ≡ true
    → presence m k ≡ 0
absent_as id m k h e = subst (λ k. presence m k ≡ 0) ((eqb_ℤ_iff id k).0 e) h

presence-insert :
    {V : Type 0} (id : ℤ) (v : V) (m : Map ℤ V) (k : ℤ)
    → presence m id ≡ 0
    → presence (insert id v m) k ≡ presence m k + (if eqb_ℤ id k then 1 else 0)
presence-insert id v m k h = elim (Bool-cases (eqb_ℤ id k)) [
  | inl e ↦ rw (presence, lookup-insert id v m k, e) (omega (arith, absent_as id m k h e))
  | inr e ↦ rw (presence, lookup-insert id v m k, e) (omega arith)
]

pub presence-keys :
    {V : Type 0} (m : Map ℤ V) (k : ℤ) → contains eqb_ℤ (keys m) k ≡ true → presence m k ≡ 1
unfolding lookup contains
presence-keys [] k h = cc
presence-keys ((j, v) ∷ m) k h = elim (Bool-cases (eqb_ℤ j k)) [
  | inl e ↦ rw (presence, e) refl
  | inr e ↦ rw (presence, e) (presence-keys m k (rw e at h))
]

-- A test that fails on all that the list has selects nothing.
pub select_none :
    (p : ℤ → Bool) (xs : List ℤ)
    → ((k : ℤ) → contains eqb_ℤ xs k ≡ true → p k ≡ false)
    → select p xs ≡ []
unfolding contains
select_none p [] f = refl
select_none p (x ∷ xs) f =
    rw (f x (rw ((eqb_ℤ_iff x x).1 refl) refl)) (select_none p xs (λ k h. f k (ground arith)))

pub requested-cons :
    (id : ℤ) (ids : List ℤ) (k : ℤ)
    → contains eqb_ℤ ids id ≡ false
    → requested (id ∷ ids) k ≡ (if eqb_ℤ id k then 1 else 0) + requested ids k
unfolding contains
requested-cons id ids k fresh = elim (Bool-cases (eqb_ℤ id k)) [
  | inl e ↦
      rw (e, subst (λ k. contains eqb_ℤ ids k ≡ false) ((eqb_ℤ_iff id k).0 e) fresh) (omega arith)
  | inr e ↦ rw e (omega arith)
]

-- Entering one entity leaves the others as they were.
pub still_new :
    (id : ℤ) (ids : List ℤ) (k : ℤ) (n m : ℕ)
    → contains eqb_ℤ ids id ≡ false
    → contains eqb_ℤ ids k ≡ true
    → n ≡ 0
    → m ≡ n + (if eqb_ℤ id k then 1 else 0)
    → m ≡ 0
still_new id ids k n m fresh there h e = elim (Bool-cases (eqb_ℤ id k)) [
  | inl t ↦ cc ((eqb_ℤ_iff id k).0 t)
  | inr f ↦ omega (arith, rw f at e)
]

pub contains-unique_sorted :
    (ids : List ℤ) (k : ℤ) → contains eqb_ℤ (unique_sorted ids) k ≡ contains eqb_ℤ ids k
unfolding contains
contains-unique_sorted ids k = ground (
  arith,
  contains-sort_by eqb_ℤ ltb_ℤ (dedupe_from eqb_ℤ [] ids) k,
  contains-dedupe_from eqb_ℤ eqb_ℤ_iff [] ids k,
)

module _ {F : Type 0} where
  pub record_verdict-times_seen :
      (id : ℤ) (v : Verdict F) (rs : ReturnSet F) (k : ℤ)
      → times_seen rs id ≡ 0
      → times_seen (record_verdict id v rs) k ≡ times_seen rs k + (if eqb_ℤ id k then 1 else 0)
  unfolding record_verdict
  record_verdict-times_seen id (is_priced r) rs k h =
      omega (arith, presence-insert id r rs.priced k (omega arith))
  record_verdict-times_seen id (is_refused r) rs k h =
      omega (arith, presence-insert id r rs.refused k (omega arith))
  record_verdict-times_seen id (is_absent why) rs k h =
      omega (arith, presence-insert id why rs.absent k (omega arith))
