-- ===== src/Env/Duration/Times.antt =====
-- The form "h:m:s" that `Duration` of env/env.go also reads.
use Prim.Native.Char.{code}
use Prim.Native.String.{[] as empty, ◌∷◌ as char}
use text.Mathlib.TextLemmas.{nil-append, append-nil, cons-append}
use fast_platform_modular.Base.{
  ℕ, ◌+◌, ◌^◌, ◌<◌, ◌≡◌, ◌≢◌, refl, sym, ◌∙◌, ap, true, false, none, some, String, concat, arith,
  Bool-cases, inl, inr, nat_eq, ◌==◌, eq_iff, is_space,
}
use fast_platform_modular.Base.Int.{pos}
use fast_platform_modular.Env.Duration.Parse.{
  characters, unit_of, part, measured, with_fraction, parts, signed, parse_unsigned, parse_duration,
}
use fast_platform_modular.Env.Duration.Clock.{
  skip_space, take_sign, number, after_sign, scan_int, colon, sscanf_clock,
}
use fast_platform_modular.Env.Duration.Numbers.{
  leading_int-concat, take_digits-concat, starts_part-digit, after_point-char, take_unit-char,
  take_unit-digit, digit_first-ne-empty, parse_duration-digit, format-starts_digit,
}
use fast_platform_modular.Env.Number.{is_digit, starts_digit, format}
use fast_platform_modular.Env.Number.RoundTrip.{format-read, atoi_of_digits}

-- A text that starts with a digit has no space and no sign in front.
digit_first :
    (s : String) → starts_digit s ≡ true → (skip_space s ≡ some s) × (take_sign s ≡ ("", s))
unfolding skip_space take_sign starts_digit is_digit is_space
digit_first empty h = cc
digit_first (char c s) h =
    let line : nat_eq (code c) b'\n' ≡ false = ground (arith, h) in
    let plus : nat_eq (code c) b'+' ≡ false = ground (arith, h) in
    let minus : nat_eq (code c) b'-' ≡ false = ground (arith, h) in
    let space : is_space (code c) ≡ false = ground (arith, h) in
    (rw (line, space) refl, rw (plus, minus) refl)

number-format : (n : ℕ) (t : String) → n < 2 ^ 63 → number "" (format n, t) ≡ some (pos n, t)
unfolding number
number-format n t h =
    let (read, starts) = format-read n in
    rw
      (
        digit_first-ne-empty (format n) starts,
        nil-append (format n),
        atoi_of_digits (format n) n read starts h,
      )
      refl

-- `%d` reads a decimal number of 63 bits up to the text that follows.
scan_int-format :
    (n : ℕ) (t : String)
    → n < 2 ^ 63
    → starts_digit t ≡ false
    → scan_int (concat (format n) t) ≡ some (pos n, t)
unfolding scan_int after_sign
scan_int-format n t h stops =
    let (read, _) = format-read n in
    let (space, sign) = digit_first (concat (format n) t) (format-starts_digit n t) in
    rw (scan_int, space)
      (ap after_sign sign
        ∙ ap (number "") (take_digits-concat 0 n (format n) t read stops)
        ∙ number-format n t h)

colon-char : (s : String) → colon (concat ":" s) ≡ some s
unfolding colon
colon-char s = ap colon (cons-append ":" "" s ∙ ap (char ":") (nil-append s))

abbrev pub clock_text : ℕ → ℕ → ℕ → String
clock_text h m s = concat (format h) (concat ":" (concat (format m) (concat ":" (format s))))

scan_int-colon :
    (n : ℕ) (t : String)
    → n < 2 ^ 63
    → scan_int (concat (format n) (concat ":" t)) ≡ some (pos n, concat ":" t)
unfolding starts_digit is_digit
scan_int-colon n t h = scan_int-format n (concat ":" t) h (rw (cons-append ":" "" t) refl)

scan_int-last : (n : ℕ) → n < 2 ^ 63 → scan_int (format n) ≡ some (pos n, "")
unfolding starts_digit
scan_int-last n h = ap scan_int (sym (append-nil (format n))) ∙ scan_int-format n "" h refl

pub sscanf_clock-clock_text :
    (h m s : ℕ)
    → h < 2 ^ 63
    → m < 2 ^ 63
    → s < 2 ^ 63
    → sscanf_clock (clock_text h m s) ≡ some (pos h, pos m, pos s)
unfolding sscanf_clock
sscanf_clock-clock_text h m s bh bm bs =
    rw
      (
        scan_int-colon h (concat (format m) (concat ":" (format s))) bh,
        colon-char (concat (format m) (concat ":" (format s))),
        scan_int-colon m (format s) bm,
        colon-char (format s),
        scan_int-last s bs,
      )
      refl

characters-concat : (s t : String) → characters (concat s t) ≡ characters s + characters t
unfolding characters
characters-concat empty t = ap characters (nil-append t) ∙ omega arith
characters-concat (char c s) t =
    ap characters (cons-append c s t) ∙ omega (arith, characters-concat s t)

digit_first-characters : (s : String) → starts_digit s ≡ true → 0 < characters s
unfolding starts_digit characters
digit_first-characters empty h = cc
digit_first-characters (char c s) h = omega arith

two_characters : (n : ℕ) (t : String) → 1 < characters (concat (format n) (concat ":" t))
unfolding characters
two_characters n t = omega (
  arith,
  characters-concat (format n) (concat ":" t),
  characters-concat ":" t,
  digit_first-characters (format n) (format-read n).1,
)

-- ParseDuration refuses the form: what follows the first number is no unit.
module _ (scaled : ℕ → ℕ → ℕ → ℕ) where
  no_unit :
      (v : ℕ) (t : String)
      → starts_digit t ≡ true
      → with_fraction scaled true v (0, 1, char ":" t, false) ≡ none
  unfolding with_fraction measured unit_of is_digit
  no_unit v t h =
      ap (measured scaled v 0 1) (take_unit-char ":" t refl (take_unit-digit t h)) ∙ refl

  part-colon :
      (n : ℕ) (t : String)
      → n < 2 ^ 63
      → starts_digit t ≡ true
      → part scaled (concat (format n) (concat ":" t)) ≡ none
  unfolding part starts_digit is_digit
  part-colon n t h digit =
      let (read, starts) = format-read n in
      let begins = format-starts_digit n (char ":" t) in
      ap (λ x. part scaled (concat (format n) x))
        (cons-append ":" "" t ∙ ap (char ":") (nil-append t))
      ∙ rw
          (
            starts_part-digit (concat (format n) (char ":" t)) begins,
            leading_int-concat 0 n (format n) (char ":" t) read (omega (arith, h)) refl,
            begins,
          )
          (ap (with_fraction scaled true n) (after_point-char ":" t refl) ∙ no_unit n t digit)

  parse_unsigned-stops :
      (s : String) → 1 < characters s → part scaled s ≡ none → parse_unsigned scaled false s ≡ none
  unfolding parse_unsigned parts signed characters
  parse_unsigned-stops s h e = elim (Bool-cases (s == "0")) [
    | inl k ↦ absurd (omega (arith, h, ap characters ((eq_iff s "0").0 k)))
    | inr k ↦ elim (Bool-cases (s == "")) [ inl q ↦ rw (k, q) refl | inr q ↦ rw (k, q, e) refl ]
  ]

  pub parse_duration-clock_text :
      (h m s : ℕ) → h < 2 ^ 63 → parse_duration scaled (clock_text h m s) ≡ none
  parse_duration-clock_text h m s bound =
      let t = clock_text h m s in
      let tail = concat (format m) (concat ":" (format s)) in
      let starts = format-starts_digit h (concat ":" tail) in
      let e = part-colon h tail bound (format-starts_digit m (concat ":" (format s))) in
      parse_duration-digit scaled t starts ∙ parse_unsigned-stops t (two_characters h tail) e

pub clock_text-ne-empty : (h m s : ℕ) → clock_text h m s ≢ ""
clock_text-ne-empty h m s e =
    let t = clock_text h m s in
    let starts = format-starts_digit h (concat ":" (concat (format m) (concat ":" (format s)))) in
    ground (arith, digit_first-ne-empty t starts, eq_iff t "", e)
