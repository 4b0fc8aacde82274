-- ===== src/Env/Number/RoundTrip.antt =====
-- Atoi reads what Itoa prints.
use Prim.Native.Char.{code}
use Prim.Native.String.{[] as empty, ◌∷◌ as char}
use text.Mathlib.TextLemmas.{nil-append, cons-append, cons-ne-nil}
use fast_platform_modular.Base.{
  ℕ, zero, suc, ◌+◌, ◌-◌, ◌*◌, ◌/◌, ◌%◌, ◌^◌, ◌≤◌, ◌<◌, String, ◌≡◌, true, Option, none, some,
  concat, ltb, eq_iff, arith, Bool-cases, inl, inr,
}
use fast_platform_modular.Base.Int.{ℤ, pos, negsuc}
use fast_platform_modular.Env.Number.{
  is_digit, starts_digit, digits_from, digits, atoi, digit, format_from, format, itoa,
}

abbrev then_digits : Option ℕ → String → Option ℕ
then_digits none t = none
then_digits (some n) t = digits_from n t

digits_from-concat :
    (n : ℕ) (s t : String) → digits_from n (concat s t) ≡ then_digits (digits_from n s) t
unfolding digits_from
digits_from-concat n empty t = rw nil-append
digits_from-concat n (char c s) t =
    rw cons-append (ground (arith, digits_from-concat (n * 10 + (code c - b'0')) s t))

pub starts_digit-concat : (s t : String) → starts_digit s ≡ true → starts_digit (concat s t) ≡ true
unfolding starts_digit
starts_digit-concat empty t h = cc
starts_digit-concat (char c s) t h = rw cons-append h

-- Each of the ten digits reads as itself.
below_ten :
    (n a : ℕ)
    → n < 10
    → (digits_from a (digit n) ≡ some (a * 10 + n)) × (starts_digit (digit n) ≡ true)
unfolding digits_from digit starts_digit is_digit
below_ten zero a h = ground arith
below_ten (suc zero) a h = ground arith
below_ten (suc (suc zero)) a h = ground arith
below_ten (suc (suc (suc zero))) a h = ground arith
below_ten (suc (suc (suc (suc zero)))) a h = ground arith
below_ten (suc (suc (suc (suc (suc zero))))) a h = ground arith
below_ten (suc (suc (suc (suc (suc (suc zero)))))) a h = ground arith
below_ten (suc (suc (suc (suc (suc (suc (suc zero))))))) a h = ground arith
below_ten (suc (suc (suc (suc (suc (suc (suc (suc zero)))))))) a h = ground arith
below_ten (suc (suc (suc (suc (suc (suc (suc (suc (suc zero))))))))) a h = ground arith
below_ten (suc (suc (suc (suc (suc (suc (suc (suc (suc (suc n)))))))))) a h = absurd (omega arith)

format_from-read :
    (f n : ℕ)
    → n ≤ f
    → (digits_from 0 (format_from f n) ≡ some n) × (starts_digit (format_from f n) ≡ true)
unfolding format_from
format_from-read zero n h =
    let (read, starts) = below_ten n 0 (omega arith) in (rw read (ground arith), starts)
format_from-read (suc f) n h = elim (Bool-cases (ltb n 10)) [
  | inl small ↦
      let (read, starts) = below_ten n 0 (ground arith) in rw small (rw read (ground arith), starts)
  | inr large ↦
      let (front, starts) = format_from-read f (n / 10) (ground arith) in
      let (last, _) = below_ten (n % 10) (n / 10) (omega arith) in
      rw large (
        rw (digits_from-concat 0 (format_from f (n / 10)) (digit (n % 10)), front, last)
            (ground arith),
        starts_digit-concat (format_from f (n / 10)) (digit (n % 10)) starts,
      )
]

pub format-read : (n : ℕ) → (digits_from 0 (format n) ≡ some n) × (starts_digit (format n) ≡ true)
unfolding format
format-read n = format_from-read n n (omega arith)

digits-format :
    (s : String) (n : ℕ) → digits_from 0 s ≡ some n → starts_digit s ≡ true → digits s ≡ some n
unfolding digits starts_digit
digits-format empty n h k = cc
digits-format (char c s) n h k = ground (arith, eq_iff (char c s) "", cons-ne-nil c s)

pub atoi_of_digits :
    (s : String) (n : ℕ)
    → digits_from 0 s ≡ some n
    → starts_digit s ≡ true
    → n < 2 ^ 63
    → atoi s ≡ some (pos n)
unfolding atoi starts_digit is_digit
atoi_of_digits empty n h k lt = cc
atoi_of_digits (char c s) n h k lt = ground (arith, digits-format (char c s) n h k)

-- The 64-bit integers.
abbrev pub IsInt64 : ℤ → Type 0
IsInt64 (pos n) = n < 2 ^ 63
IsInt64 (negsuc n) = n < 2 ^ 63

atoi_negative :
    (s : String) (n : ℕ)
    → digits s ≡ some (suc n)
    → n < 2 ^ 63
    → atoi (concat "-" s) ≡ some (negsuc n)
unfolding atoi
atoi_negative s n h lt = rw (cons-append, nil-append) (ground (arith, h))

format-digits : (n : ℕ) → digits (format n) ≡ some n
format-digits n = let (read, starts) = format-read n in digits-format (format n) n read starts

-- Atoi reads what Itoa prints, for every 64-bit integer.
pub atoi-itoa : (n : ℤ) → IsInt64 n → atoi (itoa n) ≡ some n
unfolding itoa
atoi-itoa (pos n) h =
    let (read, starts) = format-read n in atoi_of_digits (format n) n read starts h
atoi-itoa (negsuc n) h = atoi_negative (format (suc n)) n (format-digits (suc n)) h
