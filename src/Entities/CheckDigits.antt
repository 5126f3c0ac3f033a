-- ===== src/Entities/CheckDigits.antt =====
-- internal/market/entities/isin.go: the check digit catches every mistyped digit.
use verdict_machine.Base.{
  ℕ, ◌+◌, ◌-◌, ◌%◌, ◌≤◌, ◌≡◌, ◌≢◌, refl, ap, true, false, Option, none, some, [], ◌∷◌, ◌++◌, inl,
  inr, Bool-cases, Option-cases, arith,
}
use verdict_machine.Base.Text.{Text}
use verdict_machine.Entities.Isin.{
  Sum, is_digit, is_upper, weigh, add_char, add_next, sum_from, is_round, check_digit_ok,
}

weigh-cancel :
    (place a b n : ℕ) → a ≤ 9 → b ≤ 9 → (n + weigh place a) % 10 ≡ (n + weigh place b) % 10 → a ≡ b
unfolding weigh
weigh-cancel place a b n ha hb h = ground arith

-- From two sums at one place, the same text adds the same, or ends both.
abbrev IsShifted : ℕ → ℕ → Option Sum → Option Sum → Type 0
IsShifted a b none none = Unit
IsShifted a b (some (x, p)) (some (y, q)) = (p ≡ q) × (x + b ≡ y + a)
IsShifted a b _ _ = ⊥

add_char-IsShifted :
    (a b x y p q c : ℕ)
    → p ≡ q
    → x + b ≡ y + a
    → IsShifted a b (add_char c (x, p)) (add_char c (y, q))
unfolding add_char
add_char-IsShifted a b x y p q c e h = elim (Bool-cases (is_digit c)) [
  | inl d ↦ rw d (rw e refl, rw e (omega arith))
  | inr d ↦ elim (Bool-cases (is_upper c)) [
    | inl u ↦ rw (d, u) (rw e refl, rw e (omega arith))
    | inr u ↦ rw (d, u) tt
  ]
]

add_next-IsShifted :
    (a b c : ℕ) (o o' : Option Sum)
    → IsShifted a b o o'
    → IsShifted a b (add_next c o) (add_next c o')
add_next-IsShifted a b c none none h = tt
add_next-IsShifted a b c (some (x, p)) (some (y, q)) (e, h) = add_char-IsShifted a b x y p q c e h
add_next-IsShifted a b c none (some s) h = absurd h
add_next-IsShifted a b c (some s) none h = absurd h

sum_from-IsShifted : (a b p : ℕ) (s : Text) → IsShifted a b (sum_from (a, p) s) (sum_from (b, p) s)
unfolding sum_from
sum_from-IsShifted a b p [] = (refl, omega arith)
sum_from-IsShifted a b p (c ∷ s) =
    add_next-IsShifted a b c (sum_from (a, p) s) (sum_from (b, p) s) (sum_from-IsShifted a b p s)

sum_from-append :
    (start end : Sum) (s t : Text)
    → sum_from start t ≡ some end
    → sum_from start (s ++ t) ≡ sum_from end s
unfolding sum_from
sum_from-append start end [] t h = h
sum_from-append start end (c ∷ s) t h = ap (add_next c) (sum_from-append start end s t h)

sum_from-append_none :
    (start : Sum) (s t : Text) → sum_from start t ≡ none → sum_from start (s ++ t) ≡ none
unfolding sum_from
sum_from-append_none start [] t h = h
sum_from-append_none start (c ∷ s) t h = ap (add_next c) (sum_from-append_none start s t h)

add_char-digit :
    (c n p : ℕ) → is_digit c ≡ true → add_char c (n, p) ≡ some (n + weigh p (c - b'0'), p + 1)
unfolding add_char
add_char-digit c n p h = rw h refl

-- Shifted sums that are both round shift by a multiple of ten.
both_round :
    (a b : ℕ) (o o' : Option Sum)
    → IsShifted a b o o'
    → is_round o ≡ true
    → is_round o' ≡ true
    → a % 10 ≡ b % 10
both_round a b none o' s h k = cc
both_round a b (some (x, p)) none s h k = cc
both_round a b (some (x, p)) (some (y, q)) (e, s) h k = ground arith

-- The digit at one place is told by the roundness of the sum.
sum_from-digit :
    (s t : Text) (c c' n p : ℕ)
    → sum_from (0, 0) t ≡ some (n, p)
    → is_digit c ≡ true
    → is_digit c' ≡ true
    → is_round (sum_from (0, 0) (s ++ (c ∷ t))) ≡ true
    → is_round (sum_from (0, 0) (s ++ (c' ∷ t))) ≡ true
    → c ≡ c'
unfolding sum_from
sum_from-digit s t c c' n p e d d' h h' =
    let a = n + weigh p (c - b'0') in
    let b = n + weigh p (c' - b'0') in
    let at_c = sum_from-append (0, 0) (a, p + 1) s (c ∷ t) (rw e (add_char-digit c n p d)) in
    let at_c' = sum_from-append (0, 0) (b, p + 1) s (c' ∷ t) (rw e (add_char-digit c' n p d')) in
    let same =
      both_round a b _ _ (sum_from-IsShifted a b (p + 1) s) (rw at_c at h) (rw at_c' at h') in
    let digit = weigh-cancel p (c - b'0') (c' - b'0') n (ground arith) (ground arith) same in
    ground arith

-- The check digit catches one mistyped digit: where an identifier passes the check, the identifier with
-- a digit of it replaced by another digit does not.
pub check_digit_ok-substitute :
    (s t : Text) (c c' : ℕ)
    → is_digit c ≡ true
    → is_digit c' ≡ true
    → c ≢ c'
    → check_digit_ok (s ++ (c ∷ t)) ≡ true
    → check_digit_ok (s ++ (c' ∷ t)) ≡ false
unfolding check_digit_ok sum_from
check_digit_ok-substitute s t c c' d d' ne h = elim (Bool-cases (check_digit_ok (s ++ (c' ∷ t)))) [
  | inr e ↦ e
  | inl e ↦ elim (Option-cases (sum_from (0, 0) t)) [
    | inr ((n, p), q) ↦
        absurd (ne (sum_from-digit s t c c' n p q d d' (ground arith) (ground arith)))
    | inl q ↦
        let none_left = sum_from-append_none (0, 0) s (c' ∷ t) (rw q refl) in
        rw none_left (ground arith)
  ]
]
