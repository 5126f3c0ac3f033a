-- ===== src/Base/Format.antt =====
-- `strconv.FormatInt` in base 10.
use verdict_machine.Base.Tests.{ltb, if◌then◌else◌}
use verdict_machine.Base.Int.{ℤ, pos, negsuc}
use verdict_machine.Base.Text.{Text, bytes}
use Prim.Native.Nat.{ℕ, zero, suc, ◌+◌, ◌/◌, ◌%◌}
use mathlib.Core.Path.{◌≡◌, refl}
use mathlib.Core.List.{[], ◌∷◌}

-- The digits of `n` before `acc`; twenty rounds serve every 64-bit number.
unfoldable pub digits_onto : ℕ → ℕ → Text → Text
digits_onto zero n acc = acc
digits_onto (suc fuel) n acc =
    let text = (b'0' + n % 10) ∷ acc in
    let rest = digits_onto fuel (n / 10) text in if ltb n 10 then text else rest

unfoldable pub format_int : ℤ → Text
unfolding digits_onto
format_int (pos n) = digits_onto 20 n []
format_int (negsuc n) = b'-' ∷ digits_onto 20 (suc n) []

formatted : (format_int (pos 1030) ≡ bytes "1030") × (format_int (negsuc 6) ≡ bytes "-7")
unfolding format_int
formatted = (refl, refl)
