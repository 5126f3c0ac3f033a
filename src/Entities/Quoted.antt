-- ===== src/Entities/Quoted.antt =====
-- internal/market/entities/canonical.go: a string in its canonical form is read back.
use verdict_machine.Base.{
  ℕ, zero, suc, ◌+◌, ◌-◌, ◌*◌, ◌/◌, ◌%◌, ◌<◌, ◌≡◌, refl, ap, ◌∙◌, true, false, Option, none, some,
  [], ◌∷◌, ◌++◌, ltb, leb, ◌==◌, if◌then◌else◌, Bool, ◌&&◌, inl, inr, Bool-cases, arith,
}
use verdict_machine.Base.Text.{Text}
use mathlib.Core.List.{append_assoc}
use mathlib.Core.Path.{subst}
use verdict_machine.Entities.Canonical.{
  quote, backslash, hex_digit, long_escape, escape, escape_all, write_canonical_string,
}

-- A reader of the strings of the JSON grammar: outside an escape, after a backslash, or with `n + 1`
-- digits of a `\u` to come.
pub data Mode : Type 0 where
  plain : Mode
  escaped : Mode
  hex : ℕ → ℕ → Mode

-- A hexadecimal digit of either case.
abbrev pub hex_value : ℕ → Option ℕ
hex_value c =
    if leb b'0' c && leb c b'9'
    then some (c - b'0')
    else if leb b'a' c && leb c b'f'
    then some (c - b'a' + 10)
    else if leb b'A' c && leb c b'F'
    then some (c - b'A' + 10)
    else none

-- What a short escape stands for. No other rune than these and `u` may follow a backslash.
abbrev pub unescaped : ℕ → Option ℕ
unescaped c =
    if c == quote
    then some quote
    else if c == backslash
    then some backslash
    else if c == b'/'
    then some b'/'
    else if c == b'b'
    then some 8
    else if c == b'f'
    then some 12
    else if c == b'n'
    then some 10
    else if c == b'r'
    then some 13
    else if c == b't'
    then some 9
    else none

abbrev pub push : ℕ → Option (Text × Text) → Option (Text × Text)
push r none = none
push r (some (s, rest)) = some (r ∷ s, rest)

abbrev pub push_read : Option ℕ → Option (Text × Text) → Option (Text × Text)
push_read none after = none
push_read (some r) after = push r after

-- A half of a rune above U+FFFF. A `\u` that names one is not read, also not as one of a pair.
abbrev pub is_surrogate : ℕ → Bool
is_surrogate r = leb 55_296 r && ltb r 57_344

-- A control character that is not escaped, an escape that the grammar does not have, and a `\u` without
-- four hexadecimal digits, are no string.
unfoldable pub read : Mode → Text → Option (Text × Text)
read m [] = none
read plain (c ∷ s) =
    let escape_read = read escaped s in
    let plain_read = push c (read plain s) in
    if c == quote
    then some ([], s)
    else if c == backslash
    then escape_read
    else if ltb c 32
    then none
    else plain_read
read escaped (c ∷ s) =
    let long = read (hex 3 0) s in
    let short = push_read (unescaped c) (read plain s) in if c == b'u' then long else short
read (hex zero v) (c ∷ s) = elim (hex_value c) [
  | none ↦ none
  | some d ↦
      let after = push (v * 16 + d) (read plain s) in
      if is_surrogate (v * 16 + d) then none else after
]
read (hex (suc n) v) (c ∷ s) = elim (hex_value c) [
  | none ↦ none
  | some d ↦ read (hex n (v * 16 + d)) s
]

-- A quoted string, and what stands after it.
unfoldable pub read_string : Text → Option (Text × Text)
unfolding read
read_string [] = none
read_string (c ∷ s) = let inner = read plain s in if c == quote then inner else none

hex_value-hex_digit : (d : ℕ) → d < 16 → hex_value (hex_digit d) ≡ some d
hex_value-hex_digit d h = ground arith

read-long : (r : ℕ) (t : Text) → r < 32 → read plain (long_escape r ++ t) ≡ push r (read plain t)
unfolding read
read-long r t h =
    rw (hex_value-hex_digit (r / 16) (omega (arith, h)), hex_value-hex_digit (r % 16) (omega arith))
      (ground arith)

-- A rune is read back from its escape.
abbrev IsReadBack : ℕ → Type 0
IsReadBack r = (t : Text) → read plain (escape r ++ t) ≡ push r (read plain t)

when : (n r : ℕ) → (r == n) ≡ true → IsReadBack n → IsReadBack r
when n r e h = let same : n ≡ r = ground arith in subst IsReadBack same h

read-literal :
    (r : ℕ) (t : Text)
    → (r == quote) ≡ false
    → (r == backslash) ≡ false
    → ltb r 32 ≡ false
    → read plain (r ∷ t) ≡ push r (read plain t)
unfolding read
read-literal r t e f l = rw (e, f, l) refl

read-escape : (r : ℕ) → IsReadBack r
unfolding read escape
read-escape r = elim (Bool-cases (r == quote)) [
  | inl e ↦ when quote r e (λ t. refl)
  | inr e ↦ elim (Bool-cases (r == backslash)) [
    | inl f ↦ when backslash r f (λ t. refl)
    | inr f ↦ elim (Bool-cases (r == 8)) [
      | inl g ↦ when 8 r g (λ t. refl)
      | inr g ↦ elim (Bool-cases (r == 12)) [
        | inl h ↦ when 12 r h (λ t. refl)
        | inr h ↦ elim (Bool-cases (r == 10)) [
          | inl i ↦ when 10 r i (λ t. refl)
          | inr i ↦ elim (Bool-cases (r == 13)) [
            | inl j ↦ when 13 r j (λ t. refl)
            | inr j ↦ elim (Bool-cases (r == 9)) [
              | inl k ↦ when 9 r k (λ t. refl)
              | inr k ↦ elim (Bool-cases (ltb r 32)) [
                | inl l ↦ λ t. rw (escape, e, f, g, h, i, j, k, l) (read-long r t (ground arith))
                | inr l ↦ λ t. rw (escape, e, f, g, h, i, j, k, l) (read-literal r t e f l)
              ]
            ]
          ]
        ]
      ]
    ]
  ]
]

read-escape_all : (s rest : Text) → read plain (escape_all s ++ (quote ∷ rest)) ≡ some (s, rest)
unfolding read escape_all
read-escape_all [] rest = refl
read-escape_all (r ∷ s) rest =
    rw (append_assoc (escape r) (escape_all s) (quote ∷ rest))
      (read-escape r (escape_all s ++ (quote ∷ rest)) ∙ ap (push r) (read-escape_all s rest))

-- Whatever stands after it, the canonical form of a string is read back as that string, by a reader of the
-- strings of the JSON grammar that leaves the rest.
pub read_string-write_canonical_string :
    (s rest : Text) → read_string (write_canonical_string s ++ rest) ≡ some (s, rest)
unfolding read_string write_canonical_string
read_string-write_canonical_string s rest =
    rw (append_assoc (escape_all s) (quote ∷ []) rest) (read-escape_all s rest)
