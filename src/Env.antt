-- ===== src/Env.antt =====
-- env/env.go: environment variables. `os.Getenv` is a function that gives "" for a variable that is
-- not set.
pub mod Number
pub mod Fallback
pub mod Duration
pub mod DurationFallback
use fast_platform_modular.Base.{
  ℕ, String, Bool, true, false, not, ◌&&◌, Option, none, some, List, [], ◌∷◌, ◌==◌, if◌then◌else◌,
}
use fast_platform_modular.Base.Int.{ℤ}
use fast_platform_modular.Errors.{Error}
use fast_platform_modular.Env.Duration.Parse.{parse_duration}
use fast_platform_modular.Env.Duration.Text.{duration_text}
use fast_platform_modular.Env.Duration.Clock.{sscanf_clock, of_clock}
use fast_platform_modular.Env.Number.{atoi, itoa, parse_bool, format_bool}

abbrev pub Environ : Type 0
Environ = String → String

-- String
unfoldable pub string : Environ → String → String → String
string getenv key fallback = let value = getenv key in if not (value == "") then value else fallback

-- Int
unfoldable pub int : Environ → String → ℤ → ℤ
int getenv key fallback = elim (atoi (string getenv key (itoa fallback))) [
  | none ↦ fallback
  | some value ↦ value
]

-- Bool
unfoldable pub bool : Environ → String → Bool → Bool
bool getenv key fallback = elim (parse_bool (string getenv key (format_bool fallback))) [
  | none ↦ fallback
  | some value ↦ value
]

-- Duration, in nanoseconds. `scaled f unit scale` is uint64(float64(f) * (float64(unit) / scale)), which
-- a fraction in the text needs.
module _ (scaled : ℕ → ℕ → ℕ → ℕ) where
  unfoldable pub read_duration : ℤ → String → ℤ
  unfolding parse_duration sscanf_clock of_clock
  read_duration fallback raw = elim (parse_duration scaled raw) [
    | some value ↦ value
    | none ↦ elim (sscanf_clock raw) [ none ↦ fallback | some clock ↦ of_clock clock ]
  ]

  unfoldable pub duration : Environ → String → ℤ → ℤ
  unfolding read_duration duration_text string
  duration getenv key fallback = read_duration fallback (string getenv key (duration_text fallback))

-- The paths of `load`: the values of the variables that `files` names, without the empty ones.
unfoldable pub paths : Environ → List String → List String
paths getenv [] = []
paths getenv (key ∷ files) =
    let rest = paths getenv files in
    let value = getenv key in if not (value == "") then value ∷ rest else rest

-- Environment. `godotenv` is godotenv.Load on a list of paths, where the empty list is the call with
-- no argument, and `is_not_exist` is errors.Is with fs.ErrNotExist; `none` is nil.
unfoldable pub environment :
    (List String → Option Error) → (Error → Bool) → Environ → List String → Option Error
unfolding paths
environment godotenv is_not_exist getenv files = elim (godotenv (paths getenv files)) [
  | none ↦ none
  | some e ↦ if not (is_not_exist e) then some e else none
]
