-- ===== src/Entities/Canonical.antt =====
-- internal/market/entities/canonical.go: the canonical form of a JSON tree. A text is the list of its
-- runes: the JSON decoder gives valid UTF-8 only. A number is the float64 that its literal is read as.
use verdict_machine.Base.{
  ℕ, ◌+◌, ◌-◌, ◌^◌, ◌/◌, ◌%◌, Bool, true, false, not, ◌&&◌, ◌||◌, List, [], ◌∷◌, ◌++◌, ltb, ◌==◌,
  if◌then◌else◌,
}
use verdict_machine.Base.Text.{Text, bytes, less_text}
use verdict_machine.Base.Sort.{sort_by}
use verdict_machine.Base.Result.{Outcome, ok, err, ◌>>=◌}
use verdict_machine.Float.{Float, nought, whole}

abbrev pub quote : ℕ
quote = 34

abbrev pub backslash : ℕ
backslash = 92

abbrev pub hex_digit : ℕ → ℕ
hex_digit d = if ltb d 10 then b'0' + d else b'a' + (d - 10)

-- `\u%04x` of a control character.
abbrev pub long_escape : ℕ → Text
long_escape r = backslash ∷ b'u' ∷ b'0' ∷ b'0' ∷ hex_digit (r / 16) ∷ hex_digit (r % 16) ∷ []

abbrev pub short_escape : ℕ → Text
short_escape c = backslash ∷ c ∷ []

unfoldable pub escape : ℕ → Text
escape r =
    if r == quote
    then short_escape quote
    else if r == backslash
    then short_escape backslash
    else if r == 8
    then short_escape b'b'
    else if r == 12
    then short_escape b'f'
    else if r == 10
    then short_escape b'n'
    else if r == 13
    then short_escape b'r'
    else if r == 9
    then short_escape b't'
    else if ltb r 32
    then long_escape r
    else r ∷ []

unfoldable pub escape_all : Text → Text
escape_all [] = []
escape_all (r ∷ s) = escape r ++ escape_all s

unfoldable pub write_canonical_string : Text → Text
write_canonical_string s = quote ∷ (escape_all s ++ (quote ∷ []))

-- `utf16.Encode` of a rune.
abbrev pub utf16_of : ℕ → List ℕ
utf16_of r =
    if ltb r 65_536
    then r ∷ []
    else (55_296 + (r - 65_536) / 1024) ∷ (56_320 + (r - 65_536) % 1024) ∷ []

unfoldable pub utf16 : Text → List ℕ
utf16 [] = []
utf16 (r ∷ s) = utf16_of r ++ utf16 s

abbrev pub less_utf16 : Text → Text → Bool
less_utf16 a b = less_text (utf16 a) (utf16 b)

-- A number that has no canonical form.
pub data CanonicalFault (F : Type 0) : Type 0 where
  not_representable : F → CanonicalFault F

mutual
  pub data Json (F : Type 0) : Type 0 where
    null : Json F
    boolean : Bool → Json F
    text : Text → Json F
    number : F → Json F
    array : Elements F → Json F
    object : Members F → Json F

  pub data Elements (F : Type 0) : Type 0 where
    no_more : Elements F
    element : Json F → Elements F → Elements F

  -- The entries of a map, in any order.
  pub data Members (F : Type 0) : Type 0 where
    no_member : Members F
    member : Text → Json F → Members F → Members F

-- `strconv.FormatFloat` of the shortest digits, plain and with an exponent.
pub record FormatFloat (F : Type 0) : Type 0 where
  pub plain : F → Text
  pub with_exponent : F → Text

unfoldable pub trim_zeros : Text → Text
trim_zeros [] = []
trim_zeros (c ∷ s) = let rest = trim_zeros s in if c == b'0' then rest else c ∷ s

abbrev pub or_zero : Text → Text
or_zero [] = b'0' ∷ []
or_zero (c ∷ s) = c ∷ s

-- The sign and the digits after the `e`.
abbrev pub short_exponent : Text → Text
short_exponent [] = []
short_exponent (sign ∷ digits) = sign ∷ or_zero (trim_zeros digits)

unfoldable pub es6_exponent : Text → Text
es6_exponent [] = []
es6_exponent (c ∷ s) =
    let rest = es6_exponent s in if c == b'e' then c ∷ short_exponent s else c ∷ rest

module _ {F : Type 0} ⦃fl : Float F⦄ (format : FormatFloat F) where
  unfoldable pub es6_number : F → Outcome (CanonicalFault F) Text
  es6_number f =
      if not (fl.eq f f) || fl.eq (fl.abs f) fl.inf
      then err (not_representable f)
      else if fl.eq f nought
      then ok (b'0' ∷ [])
      else if fl.le (fl.decimal 1 6) (fl.abs f) && fl.lt (fl.abs f) (whole (10 ^ 21))
      then ok (format.plain f)
      else ok (es6_exponent (format.with_exponent f))

  -- What a value is written as, under its key.
  abbrev pub Written : Type 0
  Written = Text × Outcome (CanonicalFault F) Text

  abbrev pub entry_text : Written → Outcome (CanonicalFault F) Text
  entry_text (k, o) = do value ← o; ok (write_canonical_string k ++ (b':' ∷ value))

  unfoldable pub join_entries : List Written → Outcome (CanonicalFault F) Text
  join_entries [] = ok []
  join_entries (e ∷ []) = entry_text e
  join_entries (e ∷ d ∷ es) = do
    first ← entry_text e
    rest ← join_entries (d ∷ es)
    ok (first ++ (b',' ∷ rest))

  abbrev pub enclosed : ℕ → ℕ → Outcome (CanonicalFault F) Text → Outcome (CanonicalFault F) Text
  enclosed opening closing o = do inner ← o; ok (opening ∷ (inner ++ (closing ∷ [])))

  unfoldable mutual
    unfolding join_entries es6_number

    pub write_canonical : Json F → Outcome (CanonicalFault F) Text
    write_canonical null = ok (bytes "null")
    write_canonical (boolean true) = ok (bytes "true")
    write_canonical (boolean false) = ok (bytes "false")
    write_canonical (text s) = ok (write_canonical_string s)
    write_canonical (number f) = es6_number f
    write_canonical (array es) = enclosed b'[' b']' (write_elements es)
    write_canonical (object ms) =
        enclosed b'{' b'}' (join_entries (sort_by (λ a b. less_utf16 a.0 b.0) (write_members ms)))

    write_elements : Elements F → Outcome (CanonicalFault F) Text
    write_elements no_more = ok []
    write_elements (element v no_more) = write_canonical v
    write_elements (element v (element w es)) = do
      first ← write_canonical v
      rest ← write_elements (element w es)
      ok (first ++ (b',' ∷ rest))

    write_members : Members F → List Written
    write_members no_member = []
    write_members (member k v ms) = (k, write_canonical v) ∷ write_members ms
