-- ===== src/Env/Duration/Text.antt =====
-- Go's Duration.String.
use fast_platform_modular.Base.{
  ℕ, zero, suc, ◌/◌, ◌%◌, ◌^◌, String, Bool, false, not, ◌||◌, concat, ltb, nat_eq, if◌then◌else◌,
}
use fast_platform_modular.Base.Int.{ℤ, pos, negsuc}
use fast_platform_modular.Env.Number.{digit, format}

-- fmtFrac on `prec` digits of `v`, in front of `text`; `print` tells whether one of them was not zero
unfoldable pub fmt_frac : ℕ → ℕ → Bool → String → String × ℕ
unfolding digit
fmt_frac zero v print text = (if print then concat "." text else text, v)
fmt_frac (suc prec) v print text =
    let now = print || not (nat_eq (v % 10) 0) in
    fmt_frac prec (v / 10) now (if now then concat (digit (v % 10)) text else text)

-- fmtInt
unfoldable fmt_int : String × ℕ → String
unfolding format
fmt_int (text, v) = concat (format v) text

unfoldable pub hours : ℕ → String → String
unfolding format
hours u text = if ltb 0 u then concat (format u) (concat "h" text) else text

unfoldable pub minutes : ℕ → String → String
unfolding format hours
minutes u text =
    if ltb 0 u then hours (u / 60) (concat (format (u % 60)) (concat "m" text)) else text

unfoldable pub clock_parts : String × ℕ → String
unfolding format minutes
clock_parts (text, u) = minutes (u / 60) (concat (format (u % 60)) text)

-- the duration without its sign
unfoldable pub magnitude : ℕ → String
unfolding fmt_frac fmt_int clock_parts
magnitude u =
    if nat_eq u 0
    then "0s"
    else if ltb u (10 ^ 3)
    then fmt_int (fmt_frac 0 u false "ns")
    else if ltb u (10 ^ 6)
    then fmt_int (fmt_frac 3 u false "µs")
    else if ltb u (10 ^ 9)
    then fmt_int (fmt_frac 6 u false "ms")
    else clock_parts (fmt_frac 9 u false "s")

-- Duration.String
unfoldable pub duration_text : ℤ → String
unfolding magnitude
duration_text (pos n) = magnitude n
duration_text (negsuc n) = concat "-" (magnitude (suc n))
