-- ===== src/Env/Duration/Shown.antt =====
-- What Duration.String prints of whole seconds, and the units that take_unit leaves in front of a number.
use fast_platform_modular.Base.{
  ℕ, zero, suc, ◌*◌, ◌/◌, ◌%◌, ◌^◌, ◌<◌, ◌≡◌, refl, ap, true, false, ltb, String, concat, arith,
  Bool-cases, inl, inr, nat_eq, ◌==◌,
}
use fast_platform_modular.Base.Int.{neg}
use fast_platform_modular.Env.Duration.Parse.{take_unit}
use fast_platform_modular.Env.Duration.Text.{
  fmt_frac, hours, minutes, clock_parts, magnitude, duration_text,
}
use fast_platform_modular.Env.Duration.Numbers.{
  take_unit-digit, digit_first-ne-empty, format-starts_digit,
}
use fast_platform_modular.Env.Number.{starts_digit, format}

-- `n` with `p` zeros behind it
zeros : ℕ → ℕ → ℕ
zeros zero n = n
zeros (suc p) n = 10 * zeros p n

fmt_frac-zeros : (p n : ℕ) (t : String) → fmt_frac p (zeros p n) false t ≡ (t, n)
unfolding fmt_frac zeros
fmt_frac-zeros zero n t = refl
fmt_frac-zeros (suc p) n t =
    let k = zeros p n in
    let no_rest : (10 * k) % 10 ≡ 0 = omega arith in
    let tenth : (10 * k) / 10 ≡ k = omega arith in rw (no_rest, tenth) (fmt_frac-zeros p n t)

fmt_frac-seconds : (n : ℕ) (t : String) → fmt_frac 9 (n * 10 ^ 9) false t ≡ (t, n)
unfolding zeros
fmt_frac-seconds n t = let e : n * 10 ^ 9 ≡ zeros 9 n = omega arith in rw e (fmt_frac-zeros 9 n t)

-- The text of a positive number of seconds.
pub magnitude-seconds : (n : ℕ) → 0 < n → magnitude (n * 10 ^ 9) ≡ clock_parts ("s", n)
unfolding magnitude
magnitude-seconds n h =
    let a : nat_eq (n * 10 ^ 9) 0 ≡ false = ground arith in
    let b : ltb (n * 10 ^ 9) (10 ^ 3) ≡ false = ground arith in
    let c : ltb (n * 10 ^ 9) (10 ^ 6) ≡ false = ground arith in
    let d : ltb (n * 10 ^ 9) (10 ^ 9) ≡ false = ground arith in
    rw (a, b, c, d) (ap clock_parts (fmt_frac-seconds n "s"))

pub take_unit-format :
    (n : ℕ) (t : String) → take_unit (concat (format n) t) ≡ ("", concat (format n) t)
take_unit-format n t = take_unit-digit (concat (format n) t) (format-starts_digit n t)

pub format-ne-empty : (n : ℕ) (t : String) → concat (format n) t == "" ≡ false
format-ne-empty n t = digit_first-ne-empty (concat (format n) t) (format-starts_digit n t)

pub clock_parts-starts_digit : (n : ℕ) → starts_digit (clock_parts ("s", n)) ≡ true
unfolding clock_parts minutes hours
clock_parts-starts_digit n = elim (Bool-cases (ltb 0 (n / 60))) [
  | inl e ↦ elim (Bool-cases (ltb 0 (n / 60 / 60))) [
    | inl e' ↦ rw (e, e') (format-starts_digit (n / 60 / 60) _)
    | inr e' ↦ rw (e, e') (format-starts_digit ((n / 60) % 60) _)
  ]
  | inr e ↦ rw e (format-starts_digit (n % 60) "s")
]

pub duration_text-neg : (m : ℕ) → 0 < m → duration_text (neg m) ≡ concat "-" (magnitude m)
unfolding duration_text
duration_text-neg zero h = absurd (omega (arith, h))
duration_text-neg (suc m) h = refl
