-- ===== src/Entities/Isin.antt =====
-- internal/market/entities/isin.go: the parts of an ISIN and its check digit.
use verdict_machine.Base.{
  ℕ, ◌+◌, ◌-◌, ◌*◌, ◌/◌, ◌%◌, Bool, false, ◌&&◌, ◌||◌, Option, none, some, [], ◌∷◌, ltb, leb, ◌==◌,
  length, take, drop, all, if◌then◌else◌,
}
use verdict_machine.Base.Text.{Text, bytes, eqb_text}

abbrev pub isin_length : ℕ
isin_length = 12

abbrev pub prefix_len : ℕ
prefix_len = 9

abbrev pub serial_start : ℕ
serial_start = 9

abbrev pub serial_end : ℕ
serial_end = 11

abbrev pub is_upper : ℕ → Bool
is_upper c = leb b'A' c && leb c b'Z'

abbrev pub is_digit : ℕ → Bool
is_digit c = leb b'0' c && leb c b'9'

-- The running sum of the check and the number of digits summed.
abbrev pub Sum : Type 0
Sum = ℕ × ℕ

-- Every second digit from the right is doubled, and the digits of the double are summed.
unfoldable pub weigh : ℕ → ℕ → ℕ
weigh place d = if place % 2 == 1 then (if ltb 9 (d * 2) then d * 2 - 9 else d * 2) else d

abbrev pub add_digit : ℕ → Sum → Sum
add_digit d (sum, place) = (sum + weigh place d, place + 1)

-- A letter stands for two digits, the lower one first.
unfoldable pub add_char : ℕ → Sum → Option Sum
add_char c sum =
    let v = c - b'A' + 10 in
    if is_digit c
    then some (add_digit (c - b'0') sum)
    else if is_upper c
    then some (add_digit (v / 10) (add_digit (v % 10) sum))
    else none

abbrev pub add_next : ℕ → Option Sum → Option Sum
add_next c none = none
add_next c (some sum) = add_char c sum

-- From the right end of `s`.
unfoldable pub sum_from : Sum → Text → Option Sum
sum_from start [] = some start
sum_from start (c ∷ s) = add_next c (sum_from start s)

abbrev pub is_round : Option Sum → Bool
is_round none = false
is_round (some (sum, place)) = sum % 10 == 0

unfoldable pub check_digit_ok : Text → Bool
check_digit_ok s = length s == isin_length && is_round (sum_from (0, 0) s)

unfoldable pub well_formed_isin : Text → Bool
well_formed_isin s =
    length s == isin_length
    && all is_upper (take 2 s)
    && all (λ c. is_upper c || is_digit c) (take 9 (drop 2 s))
    && all is_digit (drop 11 s)
    && check_digit_ok s

abbrev pub issuer_prefix : Text → Text
issuer_prefix s = if ltb (length s) prefix_len then s else take prefix_len s

abbrev pub read_serial : Text → Option ℕ
read_serial (a ∷ b ∷ []) =
    if is_digit a && is_digit b then some ((a - b'0') * 10 + (b - b'0')) else none
read_serial _ = none

unfoldable pub issue_serial : Text → Option ℕ
issue_serial s =
    if ltb (length s) serial_end then none else read_serial (take 2 (drop serial_start s))

abbrev pub is_equity_isin : Text → Bool
is_equity_isin s = eqb_text (take 3 s) (bytes "INE")
