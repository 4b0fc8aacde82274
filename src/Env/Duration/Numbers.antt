-- ===== src/Env/Duration/Numbers.antt =====
-- What the scanners of durations read of a decimal number with a text after it.
use Prim.Native.Char.{Char, code}
use Prim.Native.String.{[] as empty, ◌∷◌ as char}
use text.Mathlib.TextLemmas.{nil-append, cons-append, cons-ne-nil}
use fast_platform_modular.Base.{
  ℕ, ◌+◌, ◌-◌, ◌*◌, ◌/◌, ◌^◌, ◌≤◌, ◌≡◌, refl, true, false, ◌||◌, ltb, some, String, concat, arith,
  nat_eq, eq_iff, ◌==◌, ap, ◌∙◌,
}
use fast_platform_modular.Env.Duration.Parse.{
  parse_unsigned, parse_duration, leading_int, after_point, take_unit, amount, unit_of, measured,
  with_fraction, starts_part, part,
}
use fast_platform_modular.Env.Duration.Clock.{take_digits}
use fast_platform_modular.Env.Number.{is_digit, starts_digit, digits_from, format}
use fast_platform_modular.Env.Number.RoundTrip.{format-read, starts_digit-concat}

-- Reading digits never makes the number smaller.
digits_from-grows : (n v : ℕ) (s : String) → digits_from n s ≡ some v → n ≤ v
unfolding digits_from
digits_from-grows n v empty h = ground arith
digits_from-grows n v (char c s) h =
    ground (arith, digits_from-grows (n * 10 + (code c - b'0')) v s)

first_digit :
    (c : Char) (s : String) (x v : ℕ)
    → digits_from x (char c s) ≡ some v
    → (is_digit (code c) ≡ true) × (digits_from (x * 10 + (code c - b'0')) s ≡ some v)
unfolding digits_from
first_digit c s x v h = ground arith

some_value : (x v : ℕ) → digits_from x "" ≡ some v → x ≡ v
unfolding digits_from
some_value x v h = ground arith

leading_int-stops : (x : ℕ) (t : String) → starts_digit t ≡ false → leading_int x t ≡ some (x, t)
unfolding leading_int starts_digit
leading_int-stops x empty k = refl
leading_int-stops x (char c t) k = rw k refl

-- leadingInt reads a number of at most 2^63 up to the text that follows.
pub leading_int-concat :
    (x v : ℕ) (s t : String)
    → digits_from x s ≡ some v
    → v ≤ 2 ^ 63
    → starts_digit t ≡ false
    → leading_int x (concat s t) ≡ some (v, t)
unfolding leading_int
leading_int-concat x v empty t h le k =
    rw (nil-append t, some_value x v h) (leading_int-stops v t k)
leading_int-concat x v (char c s) t h le k =
    let (d, h') = first_digit c s x v h in
    let y = x * 10 + (code c - b'0') in
    let small : ltb (2 ^ 63 / 10) x || ltb (2 ^ 63) y ≡ false =
      ground (arith, digits_from-grows y v s h') in
    rw (cons-append c s t, d, small) (leading_int-concat y v s t h' le k)

take_digits-stops : (t : String) → starts_digit t ≡ false → take_digits t ≡ ("", t)
unfolding take_digits starts_digit
take_digits-stops empty k = refl
take_digits-stops (char c t) k = rw k refl

pub take_digits-concat :
    (x v : ℕ) (s t : String)
    → digits_from x s ≡ some v
    → starts_digit t ≡ false
    → take_digits (concat s t) ≡ (s, t)
unfolding take_digits
take_digits-concat x v empty t h k = rw (nil-append t) (take_digits-stops t k)
take_digits-concat x v (char c s) t h k =
    let (d, h') = first_digit c s x v h in
    rw (cons-append c s t, d, take_digits-concat (x * 10 + (code c - b'0')) v s t h' k) refl

pub starts_part-digit : (s : String) → starts_digit s ≡ true → starts_part s ≡ true
unfolding starts_digit starts_part
starts_part-digit empty h = cc
starts_part-digit (char c s) h = ground (arith, h)

pub after_point-char :
    (c : Char) (s : String)
    → nat_eq (code c) b'.' ≡ false
    → after_point (char c s) ≡ (0, 1, char c s, false)
unfolding after_point
after_point-char c s h = rw h refl

cons-ne-empty : (c : Char) (s : String) → char c s == "" ≡ false
cons-ne-empty c s = ground (arith, eq_iff (char c s) "", cons-ne-nil c s)

pub digit_first-ne-empty : (s : String) → starts_digit s ≡ true → s == "" ≡ false
unfolding starts_digit
digit_first-ne-empty empty h = cc
digit_first-ne-empty (char c s) h = cons-ne-empty c s

pub format-starts_digit : (n : ℕ) (t : String) → starts_digit (concat (format n) t) ≡ true
format-starts_digit n t = starts_digit-concat (format n) t (format-read n).1

pub take_unit-char :
    (c : Char) (rest : String)
    → nat_eq (code c) b'.' || is_digit (code c) ≡ false
    → take_unit rest ≡ ("", rest)
    → take_unit (char c rest) ≡ (char c "", rest)
unfolding take_unit
take_unit-char c rest letter stops = rw letter (ap (λ p. (char c p.0, p.1)) stops)

-- In front of a digit a unit ends.
pub take_unit-digit : (s : String) → starts_digit s ≡ true → take_unit s ≡ ("", s)
unfolding take_unit starts_digit
take_unit-digit empty h = cc
take_unit-digit (char c s) h =
    let stop : nat_eq (code c) b'.' || is_digit (code c) ≡ true = ground (arith, h) in rw stop refl

module _ (scaled : ℕ → ℕ → ℕ → ℕ) where
  whole_number :
      (c : Char) (v unit : ℕ) (rest : String)
      → unit_of (char c empty) ≡ some unit
      → nat_eq (code c) b'.' || is_digit (code c) ≡ false
      → take_unit rest ≡ ("", rest)
      → ltb (2 ^ 63 / unit) v ≡ false
      → with_fraction scaled true v (0, 1, char c rest, false) ≡ some (v * unit, rest)
  unfolding with_fraction measured amount
  whole_number c v unit rest u letter stops fits =
      ap (measured scaled v 0 1) (take_unit-char c rest letter stops)
      ∙ rw (cons-ne-empty c "", u, fits) refl

  -- A number with a unit of one character, which the next part or the end follows.
  pub part-number :
      (c : Char) (v unit : ℕ) (rest : String)
      → unit_of (char c empty) ≡ some unit
      → (nat_eq (code c) b'.' ≡ false) × (is_digit (code c) ≡ false)
      → take_unit rest ≡ ("", rest)
      → v ≤ 2 ^ 63
      → ltb (2 ^ 63 / unit) v ≡ false
      → part scaled (concat (format v) (char c rest)) ≡ some (v * unit, rest)
  unfolding part starts_digit
  part-number c v unit rest u (point, letter) stops le fits =
      let (read, starts) = format-read v in
      let t = char c rest in
      let begins = starts_digit-concat (format v) t starts in
      rw
        (
          starts_part-digit (concat (format v) t) begins,
          leading_int-concat 0 v (format v) t read le letter,
          begins,
        )
        (ap (with_fraction scaled true v) (after_point-char c rest point)
          ∙ whole_number c v unit rest u (ground (arith, point, letter)) stops fits)

  pub parse_duration-digit :
      (s : String) → starts_digit s ≡ true → parse_duration scaled s ≡ parse_unsigned scaled false s
  unfolding parse_duration starts_digit is_digit
  parse_duration-digit empty h = cc
  parse_duration-digit (char c s) h = ground (arith, h)
