-- ===== src/Env/Duration/Seconds.antt =====
-- time.ParseDuration reads what Duration.String prints of whole seconds, such as the fallbacks of
-- platform/platform.go.
use Prim.Native.Char.{Char, code}
use Prim.Native.String.{[] as empty, ◌∷◌ as char}
use text.Mathlib.TextLemmas.{nil-append, cons-append}
use mathlib.Core.Path.{subst}
use fast_platform_modular.Base.{
  ℕ, zero, suc, ◌+◌, ◌-◌, ◌*◌, ◌/◌, ◌%◌, ◌^◌, ◌≤◌, ◌<◌, ◌≡◌, refl, ◌∙◌, ap, Bool, true, false, ltb,
  none, some, String, concat, arith, Bool-cases, inl, inr, nat_eq, ◌==◌, eq_iff, ◌≢◌, if◌then◌else◌,
}
use fast_platform_modular.Base.Int.{pos, neg}
use fast_platform_modular.Env.Duration.Parse.{
  characters, take_unit, unit_of, part, measured, amount, with_fraction, after_point, starts_part,
  leading_int, total, parts, signed, parse_unsigned, parse_duration,
}
use fast_platform_modular.Env.Duration.Text.{hours, minutes, clock_parts, magnitude, duration_text}
use fast_platform_modular.Env.Duration.Numbers.{
  part-number, parse_duration-digit, digit_first-ne-empty,
}
use fast_platform_modular.Env.Duration.Termination.{parts-Terminates}
use fast_platform_modular.Env.Number.{is_digit, starts_digit, format}
use fast_platform_modular.Env.Duration.Shown.{
  magnitude-seconds, take_unit-format, format-ne-empty, clock_parts-starts_digit, duration_text-neg,
}

module _ (scaled : ℕ → ℕ → ℕ → ℕ) where
  round :
      (c : Char) (f d v unit : ℕ) (rest : String)
      → unit_of (char c empty) ≡ some unit
      → (nat_eq (code c) b'.' ≡ false) × (is_digit (code c) ≡ false)
      → take_unit rest ≡ ("", rest)
      → ltb (2 ^ 63 / unit) v ≡ false
      → v ≤ 2 ^ 63
      → d + v * unit ≤ 2 ^ 63
      → parts scaled (suc f) d (concat (format v) (char c rest))
        ≡ parts scaled f (d + v * unit) rest
  unfolding parts
  round c f d v unit rest u letter stops fits le bound =
      let e = part-number scaled c v unit rest u letter stops le fits in
      let sum : (d + v * unit) % 2 ^ 64 ≡ d + v * unit = omega (arith, bound) in
      let low : ltb (2 ^ 63) ((d + v * unit) % 2 ^ 64) ≡ false = ground (arith, bound) in
      rw (format-ne-empty v (char c rest), e, low) (ap (λ x. parts scaled f x rest) sum)

  -- The last part, and the parts in front of it.
  seconds_part :
      (f d v : ℕ)
      → d + v * 10 ^ 9 ≤ 2 ^ 63
      → parts scaled (suc (suc f)) d (concat (format v) "s") ≡ total (d + v * 10 ^ 9)
  unfolding parts take_unit unit_of is_digit
  seconds_part f d v h =
      round "s" (suc f) d v (10 ^ 9) "" refl (refl, refl) refl (ground (arith, h))
        (omega (arith, h)) h

  minutes_part :
      (f d v : ℕ) (n : ℕ) (t : String)
      → d + v * (60 * 10 ^ 9) ≤ 2 ^ 63
      → parts scaled (suc f) d (concat (format v) (concat "m" (concat (format n) t)))
        ≡ parts scaled f (d + v * (60 * 10 ^ 9)) (concat (format n) t)
  unfolding unit_of is_digit
  minutes_part f d v n t h =
      rw (cons-append "m" "" (concat (format n) t), nil-append (concat (format n) t))
        (round "m" f d v (60 * 10 ^ 9) (concat (format n) t) refl (refl, refl)
          (take_unit-format n t) (ground (arith, h)) (omega (arith, h)) h)

  hours_part :
      (f d v : ℕ) (n : ℕ) (t : String)
      → d + v * (3600 * 10 ^ 9) ≤ 2 ^ 63
      → parts scaled (suc f) d (concat (format v) (concat "h" (concat (format n) t)))
        ≡ parts scaled f (d + v * (3600 * 10 ^ 9)) (concat (format n) t)
  unfolding unit_of is_digit
  hours_part f d v n t h =
      rw (cons-append "h" "" (concat (format n) t), nil-append (concat (format n) t))
        (round "h" f d v (3600 * 10 ^ 9) (concat (format n) t) refl (refl, refl)
          (take_unit-format n t) (ground (arith, h)) (omega (arith, h)) h)

  clock_parts-seconds :
      (f n : ℕ)
      → n * 10 ^ 9 ≤ 2 ^ 63
      → parts scaled (suc (suc (suc (suc f)))) 0 (clock_parts ("s", n)) ≡ total (n * 10 ^ 9)
  unfolding clock_parts minutes hours
  clock_parts-seconds f n h =
      let s = n % 60 in
      let m = (n / 60) % 60 in
      let k = n / 60 / 60 in
      let tail = concat (format s) "s" in
      elim (Bool-cases (ltb 0 (n / 60))) [
        | inl e ↦ elim (Bool-cases (ltb 0 k)) [
          | inl e' ↦
              let whole : 0 + k * (3600 * 10 ^ 9) + m * (60 * 10 ^ 9) + s * 10 ^ 9 ≡ n * 10 ^ 9 =
                omega arith in
              rw (e, e')
                (hours_part (suc (suc (suc f))) 0 k m (concat "m" tail) (omega (arith, h))
                  ∙ minutes_part (suc (suc f)) (0 + k * (3600 * 10 ^ 9)) m s "s" (omega (arith, h))
                  ∙ seconds_part f (0 + k * (3600 * 10 ^ 9) + m * (60 * 10 ^ 9)) s
                      (omega (arith, h))
                  ∙ ap total whole)
          | inr e' ↦
              let whole : 0 + m * (60 * 10 ^ 9) + s * 10 ^ 9 ≡ n * 10 ^ 9 = ground arith in
              rw (e, e')
                (minutes_part (suc (suc (suc f))) 0 m s "s" (omega (arith, h))
                  ∙ seconds_part (suc f) (0 + m * (60 * 10 ^ 9)) s (omega (arith, h, whole))
                  ∙ ap total whole)
        ]
        | inr e ↦
            let whole : 0 + s * 10 ^ 9 ≡ n * 10 ^ 9 = ground arith in
            rw e (seconds_part (suc (suc f)) 0 s (omega (arith, h, whole)) ∙ ap total whole)
      ]

  -- What the loop sums, it sums with the fuel of ParseDuration.
  parts-fuel :
      (f d : ℕ) (s : String)
      → ((k : ℕ) → parts scaled (f + k) 0 s ≡ total d)
      → parts scaled (suc (characters s)) 0 s ≡ total d
  parts-fuel f d s h =
      let (same, _) =
        parts-Terminates scaled (suc (characters s)) (f + suc (characters s)) 0 s (omega arith)
          (omega arith) in
      same ∙ h (suc (characters s))

  zero_invalid : (d : ℕ) → parts scaled (suc (characters "0")) 0 "0" ≢ total d
  unfolding parts part measured with_fraction after_point starts_part leading_int take_unit
      characters is_digit
  zero_invalid d e = cc

  four : (k : ℕ) → 4 + k ≡ suc (suc (suc (suc k)))
  four k = omega arith

  not_zero :
      (d : ℕ) (s : String) → parts scaled (suc (characters s)) 0 s ≡ total d → s == "0" ≡ false
  not_zero d s h = elim (Bool-cases (s == "0")) [
    | inl e ↦ absurd (
        zero_invalid d
          (subst (λ x. parts scaled (suc (characters x)) 0 x ≡ total d) ((eq_iff s "0").0 e) h))
    | inr e ↦ e
  ]

  parse_unsigned-total :
      (sign : Bool) (d : ℕ) (s : String)
      → starts_digit s ≡ true
      → parts scaled (suc (characters s)) 0 s ≡ total d
      → parse_unsigned scaled sign s ≡ signed sign (total d)
  unfolding parse_unsigned
  parse_unsigned-total sign d s starts h =
      let sum = signed sign (parts scaled (suc (characters s)) 0 s) in
      ap (λ b. if b then some (pos 0) else (if s == "" then none else sum)) (not_zero d s h)
      ∙ ap (λ b. if b then none else sum) (digit_first-ne-empty s starts)
      ∙ ap (signed sign) h

  parse_duration-minus :
      (s : String) → parse_duration scaled (concat "-" s) ≡ parse_unsigned scaled true s
  unfolding parse_duration
  parse_duration-minus s =
      ap (parse_duration scaled) (cons-append "-" "" s ∙ ap (char "-") (nil-append s))

  positive_seconds :
      (n : ℕ)
      → 0 < n
      → n * 10 ^ 9 < 2 ^ 63
      → (parse_duration scaled (duration_text (pos (n * 10 ^ 9))) ≡ some (pos (n * 10 ^ 9)))
        × (parse_duration scaled (concat "-" (magnitude (n * 10 ^ 9))) ≡ some (neg (n * 10 ^ 9)))
  unfolding duration_text signed
  positive_seconds n h bound =
      let t = clock_parts ("s", n) in
      let starts = clock_parts-starts_digit n in
      let sum =
        parts-fuel 4 (n * 10 ^ 9) t
          (λ k. rw (four k) (clock_parts-seconds k n (omega (arith, bound)))) in
      let fits : ltb (2 ^ 63 - 1) (n * 10 ^ 9) ≡ false = ground (arith, bound) in
      rw (magnitude-seconds n h) (
        parse_duration-digit scaled t starts
            ∙ parse_unsigned-total false (n * 10 ^ 9) t starts sum
            ∙ rw fits refl,
        parse_duration-minus t ∙ parse_unsigned-total true (n * 10 ^ 9) t starts sum,
      )

  zero_text : parse_duration scaled (duration_text (pos 0)) ≡ some (pos 0)
  unfolding parse_duration parse_unsigned duration_text magnitude parts part measured with_fraction
      after_point starts_part leading_int take_unit characters is_digit amount unit_of signed
      starts_digit
  zero_text = refl

  -- ParseDuration gives back every duration of whole seconds that String prints, with either sign.
  pub parse_duration-duration_text :
      (n : ℕ)
      → n * 10 ^ 9 < 2 ^ 63
      → (parse_duration scaled (duration_text (pos (n * 10 ^ 9))) ≡ some (pos (n * 10 ^ 9)))
        × (parse_duration scaled (duration_text (neg (n * 10 ^ 9))) ≡ some (neg (n * 10 ^ 9)))
  parse_duration-duration_text zero h = (zero_text, zero_text)
  parse_duration-duration_text (suc n) h =
      let (plus, minus) = positive_seconds (suc n) (omega arith) h in
      (plus, ap (parse_duration scaled) (duration_text-neg (suc n * 10 ^ 9) (omega arith)) ∙ minus)
