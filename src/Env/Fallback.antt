-- ===== src/Env/Fallback.antt =====
-- When the fallback of an environment variable applies.
use fast_platform_modular.Base.{
  String, ◌≡◌, ◌≢◌, refl, ◌⊎◌, Bool, true, false, none, some, arith, eq_iff,
}
use fast_platform_modular.Base.Int.{ℤ}
use fast_platform_modular.Env.Number.{atoi, parse_bool, format_bool}
use fast_platform_modular.Env.Number.RoundTrip.{IsInt64, atoi-itoa}
use fast_platform_modular.Env.{Environ, string, int, bool}

module _ (getenv : Environ) (key : String) where
  -- An integer variable that is not set or does not parse gives the fallback, one that parses gives
  -- its value. The fallback has 64 bits.
  pub int_lem :
      (fallback : ℤ)
      → IsInt64 fallback
      → ((getenv key ≡ "") ⊎ (atoi (getenv key) ≡ none) → int getenv key fallback ≡ fallback)
        × ((n : ℤ) → getenv key ≢ "" → atoi (getenv key) ≡ some n → int getenv key fallback ≡ n)
  unfolding int string
  int_lem fallback h = (
    λ c. ground (arith, eq_iff (getenv key) "", atoi-itoa fallback h),
    λ n set e. ground (arith, eq_iff (getenv key) ""),
  )

  parse_bool-format_bool : (b : Bool) → parse_bool (format_bool b) ≡ some b
  unfolding parse_bool format_bool
  parse_bool-format_bool true = refl
  parse_bool-format_bool false = refl

  -- So does a Boolean variable.
  pub bool_lem :
      (fallback : Bool)
      → ((getenv key ≡ "") ⊎ (parse_bool (getenv key) ≡ none) → bool getenv key fallback ≡ fallback)
        × ((b : Bool)
            → getenv key ≢ ""
            → parse_bool (getenv key) ≡ some b
            → bool getenv key fallback ≡ b)
  unfolding bool string
  bool_lem fallback = (
    λ c. ground (arith, eq_iff (getenv key) "", parse_bool-format_bool fallback),
    λ n set e. ground (arith, eq_iff (getenv key) ""),
  )
