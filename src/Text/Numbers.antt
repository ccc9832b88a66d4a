-- ===== src/Text/Numbers.antt =====
-- strconv.Itoa, strconv.Atoi, strconv.Quote (the `%q` verb) and the `%.2f` verb, over byte lists.
pub mod RoundTrip
use k8s_ai_remediator.Prelude.{
  ℕ, zero, suc, ◌+◌, ◌-◌, ◌*◌, ◌/◌, ◌%◌, ◌^◌, Bool, ◌&&◌, [], ◌∷◌, ◌++◌, Option, none, some, Bytes,
  codes, ℤ, pos, negsuc, ltb, leb, ◌==◌, if◌then◌else◌,
}
use k8s_ai_remediator.Result.{Result, ok, fail}

-- The decimal digits of `n` before `out`; each round divides by ten, so `n` rounds are enough.
digits_of : ℕ → ℕ → Bytes → Bytes
digits_of zero n out = out
digits_of (suc fuel) n out =
    let rest = digits_of fuel (n / 10) ((b'0' + n % 10) ∷ out) in if n == 0 then out else rest

unfoldable pub decimal : ℕ → Bytes
unfolding digits_of
decimal n = if n == 0 then b'0' ∷ [] else digits_of n n []

-- strconv.Itoa
unfoldable pub itoa : ℤ → Bytes
unfolding decimal
itoa (pos n) = decimal n
itoa (negsuc n) = b'-' ∷ decimal (suc n)

unfoldable pub is_digit : ℕ → Bool
is_digit c = leb b'0' c && leb c b'9'

unfoldable pub value_of : ℕ → Bytes → Option ℕ
unfolding is_digit
value_of n [] = some n
value_of n (c ∷ s) =
    let rest = value_of (n * 10 + (c - b'0')) s in if is_digit c then rest else none

abbrev hex_digit : ℕ → ℕ
hex_digit d = if ltb d 10 then b'0' + d else b'a' + (d - 10)

unfoldable pub quote_byte : ℕ → Bytes
quote_byte c =
    if c == b'"'
    then b'\\' ∷ b'"' ∷ []
    else if c == b'\\'
    then b'\\' ∷ b'\\' ∷ []
    else if leb 32 c && ltb c 127
    then c ∷ []
    else if c == 7
    then b'\\' ∷ b'a' ∷ []
    else if c == 8
    then b'\\' ∷ b'b' ∷ []
    else if c == 9
    then b'\\' ∷ b't' ∷ []
    else if c == 10
    then b'\\' ∷ b'n' ∷ []
    else if c == 11
    then b'\\' ∷ b'v' ∷ []
    else if c == 12
    then b'\\' ∷ b'f' ∷ []
    else if c == 13
    then b'\\' ∷ b'r' ∷ []
    else if leb 128 c
    then c ∷ []
    else b'\\' ∷ b'x' ∷ hex_digit (c / 16) ∷ hex_digit (c % 16) ∷ []

quote_body : Bytes → Bytes
unfolding quote_byte
quote_body [] = []
quote_body (c ∷ s) = quote_byte c ++ quote_body s

-- strconv.Quote; bytes above 127 are left as they are, as Go leaves printable characters.
unfoldable pub quote : Bytes → Bytes
unfolding quote_body
quote s = (b'"' ∷ quote_body s) ++ b'"' ∷ []

unfoldable pub int_max : ℕ
int_max = 2 ^ 63 - 1

abbrev syntax_error : Bytes → Result ℤ
syntax_error s = fail (codes "strconv.Atoi: parsing " ++ (quote s ++ codes ": invalid syntax"))

abbrev range_error : Bytes → Result ℤ
range_error s = fail (codes "strconv.Atoi: parsing " ++ (quote s ++ codes ": value out of range"))

unsigned : Bytes → Bytes → Result ℤ
unsigned s [] = syntax_error s
unsigned s (c ∷ r) = elim (value_of 0 (c ∷ r)) [
  | none ↦ syntax_error s
  | some n ↦ if leb n int_max then ok (pos n) else range_error s
]

negated : Bytes → Bytes → Result ℤ
negated s [] = syntax_error s
negated s (c ∷ r) = elim (value_of 0 (c ∷ r)) [
  | none ↦ syntax_error s
  | some zero ↦ ok (pos zero)
  | some (suc n) ↦ if leb n int_max then ok (negsuc n) else range_error s
]

-- strconv.Atoi on a platform whose int has 64 bits
unfoldable pub atoi : Bytes → Result ℤ
unfolding unsigned negated value_of quote int_max
atoi [] = syntax_error []
atoi (c ∷ s) =
    if c == b'-'
    then negated (c ∷ s) s
    else if c == b'+'
    then unsigned (c ∷ s) s
    else unsigned (c ∷ s) (c ∷ s)
