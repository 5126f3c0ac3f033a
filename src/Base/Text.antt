-- ===== src/Base/Text.antt =====
-- Go strings as their bytes, with `==` and the bytewise `<`.
use Prim.Native.Char.{code}
use Prim.Native.String.{String}
use Prim.Native.Nat.{ℕ}
use mathlib.Core.Path.{◌≡◌, refl}
use mathlib.Core.Logic.{◌↔◌}
use mathlib.Core.Bool.{Bool, true, false, ◌&&◌}
use mathlib.Core.List.{List, [], ◌∷◌}
use native.Mathlib.Omega.{arith}
use verdict_machine.Base.Tests.{ltb, ◌==◌, if◌then◌else◌}

abbrev pub Text : Type 0
Text = List ℕ

-- The bytes of an ASCII literal.
abbrev pub bytes : String → Text
bytes String.[] = []
bytes (String.◌∷◌ c s) = code c ∷ bytes s

unfoldable pub eqb_text : Text → Text → Bool
eqb_text [] [] = true
eqb_text [] (y ∷ ys) = false
eqb_text (x ∷ xs) [] = false
eqb_text (x ∷ xs) (y ∷ ys) = x == y && eqb_text xs ys

unfoldable pub less_text : Text → Text → Bool
less_text xs [] = false
less_text [] (y ∷ ys) = true
less_text (x ∷ xs) (y ∷ ys) = if ltb x y then true else x == y && less_text xs ys

eqb_text-to : (s t : Text) → eqb_text s t ≡ true → s ≡ t
unfolding eqb_text
eqb_text-to [] [] h = refl
eqb_text-to [] (y ∷ ys) h = cc
eqb_text-to (x ∷ xs) [] h = cc
eqb_text-to (x ∷ xs) (y ∷ ys) h = ground (arith, eqb_text-to xs ys)

pub eqb_text_refl : (s : Text) → eqb_text s s ≡ true
unfolding eqb_text
eqb_text_refl [] = refl
eqb_text_refl (x ∷ xs) = ground (arith, eqb_text_refl xs)

pub eqb_text_iff : (s t : Text) → (eqb_text s t ≡ true) ↔ (s ≡ t)
eqb_text_iff s t = (eqb_text-to s t, λ e. rw e (eqb_text_refl t))

pub less_text_asym : (s t : Text) → less_text s t ≡ true → less_text t s ≡ false
unfolding less_text
less_text_asym [] [] h = refl
less_text_asym [] (y ∷ ys) h = refl
less_text_asym (x ∷ xs) [] h = cc
less_text_asym (x ∷ xs) (y ∷ ys) h = ground (arith, less_text_asym xs ys)

pub less_text_total : (s t : Text) → less_text s t ≡ false → less_text t s ≡ false → s ≡ t
unfolding less_text
less_text_total [] [] h k = refl
less_text_total [] (y ∷ ys) h k = cc
less_text_total (x ∷ xs) [] h k = cc
less_text_total (x ∷ xs) (y ∷ ys) h k = ground (arith, less_text_total xs ys)

-- `s` is not below `t`, `t` not below `u`, so `s` is not below `u`.
pub less_text_weak_trans :
    (s t u : Text) → less_text s t ≡ false → less_text t u ≡ false → less_text s u ≡ false
unfolding less_text
less_text_weak_trans s t [] h k = refl
less_text_weak_trans [] [] (z ∷ zs) h k = cc
less_text_weak_trans [] (y ∷ ys) (z ∷ zs) h k = cc
less_text_weak_trans (x ∷ xs) [] (z ∷ zs) h k = cc
less_text_weak_trans (x ∷ xs) (y ∷ ys) (z ∷ zs) h k = ground (arith, less_text_weak_trans xs ys zs)
