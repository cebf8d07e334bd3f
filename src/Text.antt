-- ===== src/Text.antt =====
-- Texts as the code takes them apart: strings.Split at one character, the two patterns of a port
-- range, and strconv.ParseUint(s, 10, 16).
use Prim.Native.String.{◌++◌ as then_text}
use Prim.Native.Char.{Char, code}
use everoute.Common.{
  ℕ, ◌+◌, ◌-◌, ◌*◌, String, Bool, true, ◌&&◌, List, [], ◌∷◌, leb, ltb, ◌==◌, nat_eq, if◌then◌else◌,
  zero, suc, ◌/◌, ◌%◌, ◌^◌,
}

-- a character in front of the first piece
abbrev pub push : Char → List String → List String
push c [] = String.◌∷◌ c "" ∷ []
push c (p ∷ ps) = String.◌∷◌ c p ∷ ps

-- strings.Split(s, sep), for a separator of one character
unfoldable pub split : ℕ → String → List String
split sep String.[] = "" ∷ []
split sep (String.◌∷◌ c s) =
    let rest = split sep s in if code c == sep then "" ∷ rest else push c rest

abbrev pub is_digit : ℕ → Bool
is_digit c = leb b'0' c && leb c b'9'

unfoldable pub all_digits : String → Bool
all_digits String.[] = true
all_digits (String.◌∷◌ c s) = is_digit (code c) && all_digits s

unfoldable pub text_length : String → ℕ
text_length String.[] = 0
text_length (String.◌∷◌ c s) = text_length s + 1

-- ^\d{1,5}$
unfoldable pub is_number : String → Bool
unfolding all_digits text_length
is_number s = all_digits s && leb 1 (text_length s) && leb (text_length s) 5

unfoldable pub decimal : ℕ → String → ℕ
decimal n String.[] = n
decimal n (String.◌∷◌ c s) = decimal (n * 10 + (code c - b'0')) s

-- strconv.ParseUint(s, 10, 16) of digits, its error dropped: a value out of range is the largest
unfoldable pub parse_uint16 : String → ℕ
unfolding decimal
parse_uint16 s = if ltb 65535 (decimal 0 s) then 65535 else decimal 0 s

-- the decimal digits of a number in front of a text, on fuel for the digits
abbrev pub digit_text : ℕ → String
digit_text d =
    if d == 0
    then "0"
    else if d == 1
    then "1"
    else if d == 2
    then "2"
    else if d == 3
    then "3"
    else if d == 4
    then "4"
    else if d == 5
    then "5"
    else if d == 6
    then "6"
    else if d == 7
    then "7"
    else if d == 8
    then "8"
    else "9"

unfoldable pub digits_text : ℕ → ℕ → String → String
digits_text zero n rest = rest
digits_text (suc fuel) n rest =
    let more = digits_text fuel (n / 10) (then_text (digit_text (n % 10)) rest) in
    if ltb n 10 then then_text (digit_text n) rest else more

-- %d of an int32, whose digits are at most ten
unfoldable pub int32_text : ℕ → String
unfolding digits_text
int32_text n =
    if ltb n (2 ^ 31) then digits_text 10 n "" else then_text "-" (digits_text 10 (2 ^ 32 - n) "")
