-- ===== src/Base/Int.antt =====
-- Signed integers over the native numbers, under the library's names: what the program does with an
-- `int` is to read it, to print it and to compare it.
use fast_platform_modular.Base.{ℕ, suc, Bool, ltb, true, false, zero}

-- `negsuc n` is -(n + 1).
pub data ℤ : Type 0 where
  pos : ℕ → ℤ
  negsuc : ℕ → ℤ

-- -n
abbrev pub neg : ℕ → ℤ
neg zero = pos zero
neg (suc n) = negsuc n

-- a < n, for a natural number n
abbrev pub ltb_ℤ : ℤ → ℕ → Bool
ltb_ℤ (pos a) n = ltb a n
ltb_ℤ (negsuc a) n = true

-- n < a, for a natural number n
abbrev pub gtb_ℤ : ℤ → ℕ → Bool
gtb_ℤ (pos a) n = ltb n a
gtb_ℤ (negsuc a) n = false
