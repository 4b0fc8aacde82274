-- ===== src/Env/Duration/Parse.antt =====
-- Go's time.ParseDuration, which `Duration` of env/env.go calls: a duration is its number of
-- nanoseconds, and a `none` is an error.
use Prim.Native.Char.{code}
use Prim.Native.String.{[] as empty, ◌∷◌ as char}
use fast_platform_modular.Base.{
  ℕ, zero, suc, ◌+◌, ◌-◌, ◌*◌, ◌/◌, ◌%◌, ◌^◌, String, Bool, true, false, not, ◌&&◌, ◌||◌, Option,
  none, some, ltb, nat_eq, ◌==◌, if◌then◌else◌,
}
use fast_platform_modular.Base.Int.{ℤ, pos, neg}
use fast_platform_modular.Env.Number.{is_digit, starts_digit}

unfoldable pub characters : String → ℕ
characters empty = 0
characters (char c s) = suc (characters s)

-- leadingInt: the number behind `x` and the rest of the text; `none` is an overflow
unfoldable pub leading_int : ℕ → String → Option (ℕ × String)
unfolding is_digit
leading_int x empty = some (x, empty)
leading_int x (char c s) =
    let y = x * 10 + (code c - b'0') in
    let rest = leading_int y s in
    if not (is_digit (code c))
    then some (x, char c s)
    else if ltb (2 ^ 63 / 10) x || ltb (2 ^ 63) y
    then none
    else rest

-- leadingFraction: the digits that fit, the power of ten that scales them, and the rest of the text
unfoldable pub leading_fraction : ℕ → ℕ → Bool → String → ℕ × ℕ × String
unfolding is_digit
leading_fraction x scale overflow empty = (x, scale, empty)
leading_fraction x scale overflow (char c s) =
    let y = x * 10 + (code c - b'0') in
    let full = overflow || ltb ((2 ^ 63 - 1) / 10) x || ltb (2 ^ 63) y in
    let rest =
      leading_fraction (if full then x else y) (if full then scale else scale * 10) full s in
    if not (is_digit (code c)) then (x, scale, char c s) else rest

-- `(\.[0-9]*)?`, and whether a digit follows the point
unfoldable pub after_point : String → ℕ × ℕ × String × Bool
unfolding leading_fraction starts_digit
after_point empty = (0, 1, empty, false)
after_point (char c s) =
    let (f, scale, rest) = leading_fraction 0 1 false s in
    if nat_eq (code c) b'.' then (f, scale, rest, starts_digit s) else (0, 1, char c s, false)

-- the text up to the next point or digit, and the rest
unfoldable pub take_unit : String → String × String
unfolding is_digit
take_unit empty = (empty, empty)
take_unit (char c s) =
    let (u, rest) = take_unit s in
    if nat_eq (code c) b'.' || is_digit (code c) then (empty, char c s) else (char c u, rest)

-- unitMap
unfoldable pub unit_of : String → Option ℕ
unit_of u =
    if u == "ns"
    then some 1
    else if u == "us" || u == "µs" || u == "μs"
    then some (10 ^ 3)
    else if u == "ms"
    then some (10 ^ 6)
    else if u == "s"
    then some (10 ^ 9)
    else if u == "m"
    then some (60 * 10 ^ 9)
    else if u == "h"
    then some (3600 * 10 ^ 9)
    else none

unfoldable pub starts_part : String → Bool
unfolding is_digit
starts_part empty = false
starts_part (char c s) = nat_eq (code c) b'.' || is_digit (code c)

-- How the loop ends.
pub data Scan : Type 0 where
  out_of_fuel : Scan
  invalid : Scan
  total : ℕ → Scan

unfoldable pub signed : Bool → Scan → Option ℤ
signed sign out_of_fuel = none
signed sign invalid = none
signed true (total d) = some (neg d)
signed false (total d) = if ltb (2 ^ 63 - 1) d then none else some (pos d)

-- `scaled f unit scale` is uint64(float64(f) * (float64(unit) / scale)).
module _ (scaled : ℕ → ℕ → ℕ → ℕ) where
  -- `v * unit` and the fraction of it, with the two tests for overflow
  unfoldable pub amount : ℕ → ℕ → ℕ → ℕ → Option ℕ
  amount v f scale unit =
      let sum = (v * unit + scaled f unit scale) % 2 ^ 64 in
      if ltb (2 ^ 63 / unit) v
      then none
      else if ltb 0 f
      then (if ltb (2 ^ 63) sum then none else some sum)
      else some (v * unit)

  unfoldable pub measured : ℕ → ℕ → ℕ → String × String → Option (ℕ × String)
  unfolding amount
  measured v f scale (u, rest) = if u == "" then none else elim (unit_of u) [
    | none ↦ none
    | some unit ↦ elim (amount v f scale unit) [ none ↦ none | some w ↦ some (w, rest) ]
  ]

  unfoldable pub with_fraction : Bool → ℕ → ℕ × ℕ × String × Bool → Option (ℕ × String)
  unfolding measured take_unit
  with_fraction pre v (f, scale, rest, post) =
      if not pre && not post then none else measured v f scale (take_unit rest)

  -- one round of the loop: a number with its unit, in nanoseconds, and the rest of the text
  unfoldable pub part : String → Option (ℕ × String)
  unfolding with_fraction starts_part after_point starts_digit
  part s = if not (starts_part s) then none else elim (leading_int 0 s) [
    | none ↦ none
    | some (v, rest) ↦ with_fraction (starts_digit s) v (after_point rest)
  ]

  -- the loop, `d` being the sum so far; each round takes one unit of fuel
  unfoldable pub parts : ℕ → ℕ → String → Scan
  parts zero d s = out_of_fuel
  parts (suc fuel) d s = if s == "" then total d else elim (part s) [
    | none ↦ invalid
    | some (v, rest) ↦
        let sum = (d + v) % 2 ^ 64 in
        elim (ltb (2 ^ 63) sum) [ true ↦ invalid | false ↦ parts fuel sum rest ]
  ]

  -- what follows the sign
  unfoldable pub parse_unsigned : Bool → String → Option ℤ
  unfolding parts signed characters
  parse_unsigned sign s =
      if s == "0"
      then some (pos 0)
      else if s == ""
      then none
      else signed sign (parts (suc (characters s)) 0 s)

  -- time.ParseDuration; the loop has a unit of fuel for each character, and one for the end
  unfoldable pub parse_duration : String → Option ℤ
  unfolding parse_unsigned
  parse_duration empty = none
  parse_duration (char c s) =
      if nat_eq (code c) b'-'
      then parse_unsigned true s
      else if nat_eq (code c) b'+'
      then parse_unsigned false s
      else parse_unsigned false (char c s)
