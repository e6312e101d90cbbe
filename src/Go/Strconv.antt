-- ===== src/Go/Strconv.antt =====
-- Package strconv: Atoi and Quote.
use containerdisks.Base.{
  ℕ, zero, suc, ◌≡◌, ◌<◌, true, false, arith, ◌+◌, ◌-◌, ◌*◌, ◌/◌, ◌%◌, ◌^◌, Bool, ◌&&◌, ◌||◌,
  Option, none, some, [], ◌∷◌, ◌++◌, Text, codes, ltb, leb, ◌==◌, nat_eq, if◌then◌else◌,
}

-- `negsuc n` is -(n + 1).
pub data ℤ : Type 0 where
  pos : ℕ → ℤ
  negsuc : ℕ → ℤ

unfoldable pub is_digit : ℕ → Bool
is_digit c = leb b'0' c && leb c b'9'

-- The number that digits spell behind `n`, and nothing for any other character.
unfoldable pub digits_value : ℕ → Text → Option ℕ
unfolding is_digit
digits_value n [] = some n
digits_value n (c ∷ s) =
    let rest = digits_value (n * 10 + (c - b'0')) s in if is_digit c then rest else none

unfoldable pub magnitude : Text → Option ℕ
unfolding digits_value
magnitude [] = none
magnitude (c ∷ s) = digits_value 0 (c ∷ s)

abbrev pub max_int : ℕ
max_int = 2 ^ 63 - 1

abbrev positive : Option ℕ → Option ℤ
positive none = none
positive (some n) = if ltb max_int n then none else some (pos n)

abbrev negative : Option ℕ → Option ℤ
negative none = none
negative (some n) =
    if n == 0 then some (pos 0) else if ltb (max_int + 1) n then none else some (negsuc (n - 1))

-- An optional sign, then digits, with a value that an int64 holds. The error is left out, since
-- the callers only ask whether there is one.
unfoldable pub atoi : Text → Option ℤ
unfolding magnitude
atoi [] = none
atoi (c ∷ s) =
    if c == b'-'
    then negative (magnitude s)
    else if c == b'+'
    then positive (magnitude s)
    else positive (magnitude (c ∷ s))

abbrev hex_digit : ℕ → ℕ
hex_digit d = if ltb d 10 then b'0' + d else 87 + d

-- A byte between the quotation marks of `%q`.
unfoldable pub quote_byte : ℕ → Text
quote_byte c =
    if c == b'"' || c == 92
    then 92 ∷ c ∷ []
    else if c == 7
    then codes "\\a"
    else if c == 8
    then codes "\\b"
    else if c == 12
    then codes "\\f"
    else if c == 10
    then codes "\\n"
    else if c == 13
    then codes "\\r"
    else if c == 9
    then codes "\\t"
    else if c == 11
    then codes "\\v"
    else if ltb c 32 || c == 127
    then codes "\\x" ++ hex_digit (c / 16) ∷ hex_digit (c % 16) ∷ []
    else c ∷ []

unfoldable pub quote_bytes : Text → Text
unfolding quote_byte
quote_bytes [] = b'"' ∷ []
quote_bytes (c ∷ s) = quote_byte c ++ quote_bytes s

-- `%q`
unfoldable pub quote : Text → Text
unfolding quote_bytes
quote s = b'"' ∷ quote_bytes s

-- The digits of `n` before `rest`, by the number of digits that may still come.
unfoldable pub format_digits : ℕ → ℕ → Text → Text
format_digits zero n rest = rest
format_digits (suc f) n rest = elim (ltb n 10) [
  | true ↦ (b'0' + n) ∷ rest
  | false ↦ format_digits f (n / 10) ((b'0' + n % 10) ∷ rest)
]

-- `%v` of a number. It has fewer digits than its successor.
unfoldable pub format_decimal : ℕ → Text
unfolding format_digits
format_decimal n = format_digits (suc n) n []

digits_value-digit :
    (acc d : ℕ) (rest : Text)
    → d < 10
    → digits_value acc ((b'0' + d) ∷ rest) ≡ digits_value (acc * 10 + d) rest
unfolding digits_value is_digit
digits_value-digit acc d rest h =
    let same : acc * 10 + (48 + d - 48) ≡ acc * 10 + d = omega arith in rw same (ground arith)

digits_value-format_digits :
    (f n : ℕ) (rest : Text) → n < f → digits_value 0 (format_digits f n rest) ≡ digits_value n rest
unfolding format_digits
digits_value-format_digits zero n rest h = absurd (omega (arith, h))
digits_value-format_digits (suc f) n rest h = ground (
  arith,
  digits_value-digit 0 n rest,
  digits_value-digit (n / 10) (n % 10) rest,
  digits_value-format_digits f (n / 10) ((b'0' + n % 10) ∷ rest),
)

-- The fuel is enough: a number that is written is read back.
pub digits_value-format_decimal : (n : ℕ) → digits_value 0 (format_decimal n) ≡ some n
unfolding format_decimal digits_value
digits_value-format_decimal n = digits_value-format_digits (suc n) n [] (omega arith)
