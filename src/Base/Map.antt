-- ===== src/Base/Map.antt =====
-- A Go map as an association list. Its order is the order in which a `range` meets the keys, which
-- Go leaves open: theorems hold for every order.
use mathlib.Core.Path.{◌≡◌, refl, subst}
use mathlib.Core.Logic.{◌≢◌, ◌↔◌, inl, inr}
use mathlib.Core.Bool.{false, Bool, true, ◌||◌}
use mathlib.Core.List.{List, [], ◌∷◌}
use mathlib.Core.Option.{Option, none, some, some-injective}
use native.Mathlib.Omega.{arith}
use Prim.Native.Nat.{◌+◌, ◌≤◌}
use verdict_machine.Base.Lists.{length, All, All-map, All-zip}
use verdict_machine.Base.Tests.{if◌then◌else◌, Bool-cases}
use verdict_machine.Base.Sort.{contains, IsNodup}
use verdict_machine.Base.Text.{Text, eqb_text, eqb_text_iff}
use verdict_machine.Base.Int.{ℤ, eqb_ℤ, eqb_ℤ_iff}

pub record Key {ℓ} (K : Type ℓ) : Type ℓ where
  pub eqb : K → K → Bool
  pub eqb_iff : (a b : K) → (eqb a b ≡ true) ↔ (a ≡ b)

instance abbrev pub int_key : Key ℤ
int_key = record { eqb = eqb_ℤ; eqb_iff = eqb_ℤ_iff }

instance abbrev pub text_key : Key Text
text_key = record { eqb = eqb_text; eqb_iff = eqb_text_iff }

abbrev pub Map {ℓ κ} : Type ℓ → Type κ → Type (ℓ ⊔ κ)
Map K V = List (K × V)

module _ {ℓ κ} {K : Type ℓ} {V : Type κ} ⦃key : Key K⦄ where
  unfoldable pub lookup : K → Map K V → Option V
  lookup k [] = none
  lookup k ((j, v) ∷ m) = if key.eqb j k then some v else lookup k m

  -- `m[k] = v`
  unfoldable pub insert : K → V → Map K V → Map K V
  insert k v [] = (k, v) ∷ []
  insert k v ((j, w) ∷ m) = if key.eqb j k then (k, v) ∷ m else (j, w) ∷ insert k v m

  -- `delete(m, k)`
  unfoldable pub erase : K → Map K V → Map K V
  erase k [] = []
  erase k ((j, w) ∷ m) = if key.eqb j k then erase k m else (j, w) ∷ erase k m

  pub lookup-insert_self : (k : K) (v : V) (m : Map K V) → lookup k (insert k v m) ≡ some v
  unfolding lookup insert
  lookup-insert_self k v [] = rw ((key.eqb_iff k k).1 refl)
  lookup-insert_self k v ((j, w) ∷ m) = elim (Bool-cases (key.eqb j k)) [
    | inl e ↦ rw (e, (key.eqb_iff k k).1 refl)
    | inr e ↦ rw (e, e) (lookup-insert_self k v m)
  ]

  abbrev pub keys : Map K V → List K
  keys [] = []
  keys ((j, v) ∷ m) = j ∷ keys m

  -- No key is listed twice.
  abbrev pub IsMap : Map K V → Type 0
  IsMap m = IsNodup key.eqb (keys m)

  pub contains-keys-insert :
      (k : K) (v : V) (m : Map K V) (a : K)
      → contains key.eqb (keys (insert k v m)) a ≡ (key.eqb k a || contains key.eqb (keys m) a)
  unfolding contains insert
  contains-keys-insert k v [] a = refl
  contains-keys-insert k v ((j, w) ∷ m) a =
      ground (arith, contains-keys-insert k v m a, key.eqb_iff j k)

  pub insert-IsMap : (k : K) (v : V) (m : Map K V) → IsMap m → IsMap (insert k v m)
  unfolding contains insert
  insert-IsMap k v [] h = (refl, tt)
  insert-IsMap k v ((j, w) ∷ m) (fresh, rest) = elim (Bool-cases (key.eqb j k)) [
    | inl e ↦ rw e (rw (← (key.eqb_iff j k).0 e) fresh, rest)
    | inr e ↦ rw e (
      ground (arith, contains-keys-insert k v m j, key.eqb_iff j k, key.eqb_iff k j),
      insert-IsMap k v m rest,
    )
  ]

  pub length-erase-le : (k : K) (m : Map K V) → length (erase k m) ≤ length m
  unfolding erase
  length-erase-le k [] = omega arith
  length-erase-le k ((j, w) ∷ m) = ground (arith, length-erase-le k m)

  pub length-insert-le : (k : K) (v : V) (m : Map K V) → length (insert k v m) ≤ length m + 1
  unfolding insert
  length-insert-le k v [] = omega arith
  length-insert-le k v ((j, w) ∷ m) = ground (arith, length-insert-le k v m)

  -- Writing to a key that is there adds none.
  pub length-insert_old :
      (k : K) (v u : V) (m : Map K V) → lookup k m ≡ some u → length (insert k v m) ≡ length m
  unfolding lookup insert
  length-insert_old k v u [] h = cc
  length-insert_old k v u ((j, w) ∷ m) h = ground (arith, length-insert_old k v u m)

  pub lookup-insert :
      (k : K) (v : V) (m : Map K V) (j : K)
      → lookup j (insert k v m) ≡ (if key.eqb k j then some v else lookup j m)
  unfolding lookup insert
  lookup-insert k v [] j = refl
  lookup-insert k v ((i, w) ∷ m) j =
      ground (arith, lookup-insert k v m j, key.eqb_iff i k, key.eqb_iff i j, key.eqb_iff k j)

  pub lookup-erase :
      (k : K) (m : Map K V) (j : K)
      → lookup j (erase k m) ≡ (if key.eqb k j then none else lookup j m)
  unfolding lookup erase
  lookup-erase k [] j = ground arith
  lookup-erase k ((i, w) ∷ m) j =
      ground (arith, lookup-erase k m j, key.eqb_iff i k, key.eqb_iff i j, key.eqb_iff k j)

  pub lookup-insert_ne :
      (k : K) (v : V) (m : Map K V) (j : K) → k ≢ j → lookup j (insert k v m) ≡ lookup j m
  lookup-insert_ne k v m j ne = elim (Bool-cases (key.eqb k j)) [
    | inl e ↦ absurd (ne ((key.eqb_iff k j).0 e))
    | inr e ↦ rw (lookup-insert k v m j, e)
  ]

  pub lookup-erase_ne : (k : K) (m : Map K V) (j : K) → k ≢ j → lookup j (erase k m) ≡ lookup j m
  lookup-erase_ne k m j ne = elim (Bool-cases (key.eqb k j)) [
    | inl e ↦ absurd (ne ((key.eqb_iff k j).0 e))
    | inr e ↦ rw (lookup-erase k m j, e)
  ]

  pub lookup-erase_self : (k : K) (m : Map K V) → lookup k (erase k m) ≡ none
  lookup-erase_self k m = rw (lookup-erase k m k, (key.eqb_iff k k).1 refl)

  contains-keys-erase :
      (k : K) (m : Map K V) (a : K)
      → contains key.eqb (keys m) a ≡ false
      → contains key.eqb (keys (erase k m)) a ≡ false
  unfolding contains erase
  contains-keys-erase k [] a h = refl
  contains-keys-erase k ((j, w) ∷ m) a h = ground (arith, contains-keys-erase k m a)

  pub erase-IsMap : (k : K) (m : Map K V) → IsMap m → IsMap (erase k m)
  unfolding erase
  erase-IsMap k [] h = tt
  erase-IsMap k ((j, w) ∷ m) (fresh, rest) = elim (Bool-cases (key.eqb j k)) [
    | inl e ↦ rw e (erase-IsMap k m rest)
    | inr e ↦ rw e (contains-keys-erase k m j fresh, erase-IsMap k m rest)
  ]

  module _ {ι} (P : K → V → Type ι) where
    -- `P` holds of every entry.
    abbrev pub Every : Map K V → Type ι
    Every [] = Unit
    Every ((k, v) ∷ m) = P k v × Every m

    pub insert-Every : (k : K) (v : V) (m : Map K V) → P k v → Every m → Every (insert k v m)
    unfolding insert
    insert-Every k v [] p h = (p, tt)
    insert-Every k v ((j, w) ∷ m) p (q, rest) = elim (Bool-cases (key.eqb j k)) [
      | inl e ↦ rw e (p, rest)
      | inr e ↦ rw e (q, insert-Every k v m p rest)
    ]

    pub erase-Every : (k : K) (m : Map K V) → Every m → Every (erase k m)
    unfolding erase
    erase-Every k [] h = tt
    erase-Every k ((j, w) ∷ m) (q, rest) = elim (Bool-cases (key.eqb j k)) [
      | inl e ↦ rw e (erase-Every k m rest)
      | inr e ↦ rw e (q, erase-Every k m rest)
    ]

    pub Every-lookup : (k : K) (v : V) (m : Map K V) → Every m → lookup k m ≡ some v → P k v
    unfolding lookup
    Every-lookup k v [] h e = cc
    Every-lookup k v ((j, w) ∷ m) (q, rest) e = elim (Bool-cases (key.eqb j k)) [
      | inl t ↦
          subst (λ a. P k a) (some-injective w v (rw t at e))
            (subst (λ a. P a w) ((key.eqb_iff j k).0 t) q)
      | inr f ↦ Every-lookup k v m rest (rw f at e)
    ]

    pub Every-All : (m : Map K V) → Every m → All (λ e. P e.0 e.1) m
    Every-All [] h = tt
    Every-All ((k, v) ∷ m) (p, rest) = (p, Every-All m rest)

  fresh-All :
      (k : K) (m : Map K V)
      → contains key.eqb (keys m) k ≡ false
      → All (λ e. key.eqb k e.0 ≡ false) m
  unfolding contains
  fresh-All k [] h = tt
  fresh-All k ((j, w) ∷ m) h =
      (ground (arith, key.eqb_iff j k, key.eqb_iff k j), fresh-All k m (ground arith))

  -- Each entry is what its key reads as.
  pub lookup-All : (m : Map K V) → IsMap m → All (λ e. lookup e.0 m ≡ some e.1) m
  unfolding lookup
  lookup-All [] h = tt
  lookup-All ((k, v) ∷ m) (fresh, rest) = (
    rw ((key.eqb_iff k k).1 refl) refl,
    All-map _ _ m (λ e (off, found). rw (off) found)
        (All-zip _ _ m (fresh-All k m fresh) (lookup-All m rest)),
  )
