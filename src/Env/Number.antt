-- ===== src/Env/Number.antt =====
-- strconv.Atoi and strconv.Itoa, with a 64-bit `int`, and strconv.ParseBool and FormatBool.
pub mod RoundTrip
use Prim.Native.Char.{code}
use Prim.Native.String.{[] as empty, ◌∷◌ as char}
use fast_platform_modular.Base.{
  ℕ, zero, suc, ◌+◌, ◌-◌, ◌*◌, ◌/◌, ◌%◌, ◌^◌, String, Bool, true, false, ◌&&◌, ◌||◌, Option, none,
  some, concat, leb, ltb, nat_eq, ◌==◌, if◌then◌else◌, List, [], ◌∷◌, any,
}
use fast_platform_modular.Base.Int.{ℤ, pos, negsuc, neg}

unfoldable pub is_digit : ℕ → Bool
is_digit c = leb b'0' c && leb c b'9'

unfoldable pub starts_digit : String → Bool
unfolding is_digit
starts_digit empty = false
starts_digit (char c s) = is_digit (code c)

-- the digits after `n`
unfoldable pub digits_from : ℕ → String → Option ℕ
unfolding is_digit
digits_from n empty = some n
digits_from n (char c s) =
    let rest = digits_from (n * 10 + (code c - b'0')) s in if is_digit (code c) then rest else none

-- at least one digit
unfoldable pub digits : String → Option ℕ
digits s = if s == "" then none else digits_from 0 s

non_negative : Option ℕ → Option ℤ
non_negative none = none
non_negative (some n) = if ltb n (2 ^ 63) then some (pos n) else none

negative : Option ℕ → Option ℤ
negative none = none
negative (some n) = if leb n (2 ^ 63) then some (neg n) else none

-- strconv.Atoi; `none` is an error
unfoldable pub atoi : String → Option ℤ
unfolding non_negative negative
atoi empty = none
atoi (char c s) =
    if nat_eq (code c) b'-'
    then negative (digits s)
    else if nat_eq (code c) b'+'
    then non_negative (digits s)
    else non_negative (digits (char c s))

nth_digit : List String → ℕ → String
nth_digit [] n = ""
nth_digit (d ∷ ds) zero = d
nth_digit (d ∷ ds) (suc n) = nth_digit ds n

abbrev ten_digits : List String
ten_digits = "0" ∷ "1" ∷ "2" ∷ "3" ∷ "4" ∷ "5" ∷ "6" ∷ "7" ∷ "8" ∷ "9" ∷ []

unfoldable pub digit : ℕ → String
unfolding nth_digit
digit n = nth_digit ten_digits n

-- The decimal digits of `n`; the fuel `n` is enough, since each round divides by ten.
unfoldable pub format_from : ℕ → ℕ → String
unfolding digit
format_from zero n = digit n
format_from (suc f) n =
    let front = format_from f (n / 10) in
    if ltb n 10 then digit n else concat front (digit (n % 10))

unfoldable pub format : ℕ → String
unfolding format_from
format n = format_from n n

-- strconv.Itoa
unfoldable pub itoa : ℤ → String
itoa (pos n) = format n
itoa (negsuc n) = concat "-" (format (suc n))

-- strconv.ParseBool
unfoldable pub parse_bool : String → Option Bool
parse_bool s =
    if any (λ t. s == t) ("1" ∷ "t" ∷ "T" ∷ "true" ∷ "TRUE" ∷ "True" ∷ [])
    then some true
    else if any (λ t. s == t) ("0" ∷ "f" ∷ "F" ∷ "false" ∷ "FALSE" ∷ "False" ∷ [])
    then some false
    else none

-- strconv.FormatBool
unfoldable pub format_bool : Bool → String
format_bool true = "true"
format_bool false = "false"
