-- ===== src/Env/Duration/Clock.antt =====
-- Go's fmt.Sscanf with the format "%d:%d:%d", and the sum that `Duration` of env/env.go makes of the
-- three numbers.
use Prim.Native.Char.{code}
use Prim.Native.String.{[] as empty, ◌∷◌ as char}
use fast_platform_modular.Base.{
  ℕ, suc, ◌+◌, ◌-◌, ◌*◌, ◌%◌, ◌^◌, String, ◌>>=◌, Option, none, some, concat, is_space, ltb, nat_eq,
  ◌==◌, if◌then◌else◌,
}
use fast_platform_modular.Base.Int.{ℤ, pos, negsuc, neg}
use fast_platform_modular.Env.Number.{is_digit, atoi}

-- SkipSpace, where a newline is an error
unfoldable pub skip_space : String → Option String
unfolding is_space
skip_space empty = some empty
skip_space (char c s) =
    let rest = skip_space s in
    if nat_eq (code c) b'\n' then none else if is_space (code c) then rest else some (char c s)

-- the sign that `accept` takes, and the rest
unfoldable pub take_sign : String → String × String
take_sign empty = ("", empty)
take_sign (char c s) =
    if nat_eq (code c) b'+'
    then ("+", s)
    else if nat_eq (code c) b'-'
    then ("-", s)
    else ("", char c s)

-- the digits in front, and the rest
unfoldable pub take_digits : String → String × String
unfolding is_digit
take_digits empty = (empty, empty)
take_digits (char c s) =
    let (token, rest) = take_digits s in
    if is_digit (code c) then (char c token, rest) else (empty, char c s)

unfoldable pub number : String → String × String → Option (ℤ × String)
unfolding atoi
number sign (token, rest) =
    if token == ""
    then none
    else elim (atoi (concat sign token)) [ none ↦ none | some n ↦ some (n, rest) ]

unfoldable pub after_sign : String × String → Option (ℤ × String)
unfolding take_digits number
after_sign (sign, s) = number sign (take_digits s)

-- scanInt for the verb %d: a number and the rest of the text
unfoldable pub scan_int : String → Option (ℤ × String)
unfolding skip_space take_sign after_sign
scan_int s = elim (skip_space s) [ none ↦ none | some t ↦ after_sign (take_sign t) ]

-- the literal ':' of the format
unfoldable pub colon : String → Option String
colon empty = none
colon (char c s) = if nat_eq (code c) b':' then some s else none

-- fmt.Sscanf with "%d:%d:%d"; what follows the third number is not read
unfoldable pub sscanf_clock : String → Option (ℤ × ℤ × ℤ)
unfolding scan_int colon
sscanf_clock raw = do
  (h, after_h) ← scan_int raw
  at_m ← colon after_h
  (m, after_m) ← scan_int at_m
  at_s ← colon after_m
  (s, _) ← scan_int at_s
  some (h, m, s)

-- two's complement with 64 bits
unfoldable pub to_u64 : ℤ → ℕ
to_u64 (pos n) = n % 2 ^ 64
to_u64 (negsuc n) = (2 ^ 64 - suc n % 2 ^ 64) % 2 ^ 64

unfoldable pub from_u64 : ℕ → ℤ
from_u64 n = if ltb n (2 ^ 63) then pos n else neg (2 ^ 64 - n)

-- time.Duration(h)*time.Hour + time.Duration(m)*time.Minute + time.Duration(s)*time.Second
unfoldable pub of_clock : ℤ × ℤ × ℤ → ℤ
unfolding to_u64 from_u64
of_clock (h, m, s) =
    from_u64 ((to_u64 h * (3600 * 10 ^ 9) + to_u64 m * (60 * 10 ^ 9) + to_u64 s * 10 ^ 9) % 2 ^ 64)
