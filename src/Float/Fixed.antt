-- ===== src/Float/Fixed.antt =====
-- An instance of `Float` that runs: integers in units of 10^-12, products and quotients cut towards
-- zero. It is not IEEE arithmetic, and serves to evaluate the model at concrete inputs.
use verdict_machine.Base.{ℕ, suc, ◌+◌, ◌-◌, ◌*◌, ◌/◌, ◌^◌, ◌≡◌, refl}
use verdict_machine.Base.Int.{
  ℤ, pos, negsuc, pos_part, neg_part, sub_ℕ, ◌+ℤ◌, ◌-ℤ◌, ◌*ℤ◌, ltb_ℤ, leb_ℤ, eqb_ℤ, wrap64,
}
use verdict_machine.Float.Defs.{Float}

abbrev pub Fixed : Type 0
Fixed = ℤ

abbrev unit : ℕ
unit = 10 ^ 12

-- `f` on the magnitude, the sign kept.
abbrev signed : (ℕ → ℕ) → ℤ → ℤ
signed f (pos n) = pos (f n)
signed f (negsuc n) = sub_ℕ 0 (f (suc n))

abbrev quotient : ℤ → ℤ → ℤ
quotient a (pos b) = signed (λ n. n * unit / b) a
quotient a (negsuc b) = pos 0 -ℤ signed (λ n. n * unit / suc b) a

abbrev floor_unit : ℤ → ℤ
floor_unit (pos n) = pos (n / unit * unit)
floor_unit (negsuc n) = sub_ℕ 0 ((n / unit + 1) * unit)

instance abbrev pub fixed_float : Float Fixed
fixed_float = record {
  add = ◌+ℤ◌;
  sub = ◌-ℤ◌;
  mul = λ a b. signed (λ n. n / unit) (a *ℤ b);
  div = quotient;
  lt = ltb_ℤ;
  le = leb_ℤ;
  eq = eqb_ℤ;
  of_int = λ z. z *ℤ pos unit;
  to_int = λ a. wrap64 (signed (λ n. n / unit) a);
  round = signed (λ n. (n + unit / 2) / unit * unit);
  floor = floor_unit;
  abs = λ a. pos (pos_part a + neg_part a);
  inf = pos (10 ^ 60);
  decimal = λ m e. pos (m * 10 ^ (12 - e));
}

rounds_half_away :
    (fixed_float.round (fixed_float.decimal 25 1) ≡ fixed_float.of_int (pos 3))
    × (fixed_float.floor (sub_ℕ 0 (25 * 10 ^ 11)) ≡ fixed_float.of_int (negsuc 2))
unfolding ◌*ℤ◌
rounds_half_away = (refl, refl)
