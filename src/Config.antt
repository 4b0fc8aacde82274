-- ===== src/Config.antt =====
-- platform/platform.go: Config, its Validate, csvEnv, and the engine that NewRouter builds from it.
-- A time.Duration is its number of nanoseconds.
pub mod Valid
pub mod Lists
pub mod Load
pub mod Defaults
use Prim.Native.Char.{code}
use Prim.Native.String.{[] as empty, ◌∷◌ as char, ◌++◌ as append}
use fast_platform_modular.Base.{
  ℕ, ◌^◌, String, Bool, true, false, not, ◌&&◌, ◌||◌, Option, none, some, List, [], ◌∷◌, ◌++◌,
  concat, nat_eq, trim_space, ◌==◌, if◌then◌else◌,
}
use fast_platform_modular.Base.Int.{ℤ, pos, negsuc, ltb_ℤ, gtb_ℤ}
use fast_platform_modular.Env.{Environ, string}
use fast_platform_modular.Env.Number.{atoi}

pub record Config : Type 0 where
  pub name : String
  pub env : String
  pub port : String
  pub shutdown_timeout : ℤ
  pub read_timeout : ℤ
  pub write_timeout : ℤ
  pub idle_timeout : ℤ
  pub read_header_timeout : ℤ
  pub cors_allowed_origins : List String
  pub body_limit : ℤ
  pub release_mode : Bool
  pub trusted_proxies : List String

-- The four errors of Validate.
pub data Problem : Type 0 where
  bad_port no_name bad_timeout bad_body_limit : Problem

-- a ≤ 0
abbrev not_positive : ℤ → Bool
not_positive a = not (gtb_ℤ a 0)

unfoldable pub bad_port_number : Option ℤ → Bool
bad_port_number none = true
bad_port_number (some port) = ltb_ℤ port 1 || gtb_ℤ port 65535

-- Validate; `none` is nil
unfoldable pub validate : Config → Option Problem
validate c =
    if bad_port_number (atoi c.port)
    then some bad_port
    else if trim_space c.name == ""
    then some no_name
    else if not_positive c.shutdown_timeout
        || not_positive c.read_timeout
        || not_positive c.write_timeout
        || not_positive c.idle_timeout
        || not_positive c.read_header_timeout
    then some bad_timeout
    else if not_positive c.body_limit
    then some bad_body_limit
    else none

-- strings.Split with the separator ","; `cur` is the text since the last comma
unfoldable pub split_commas : String → String → List String
split_commas cur empty = cur ∷ []
split_commas cur (char c s) =
    let closed = cur ∷ split_commas "" s in
    let longer = split_commas (append cur (char c empty)) s in
    if nat_eq (code c) b',' then closed else longer

-- the loop of csvEnv
unfoldable pub filled : List String → List String
filled [] = []
filled (value ∷ values) =
    let rest = filled values in
    let trimmed = trim_space value in if not (trimmed == "") then trimmed ∷ rest else rest

-- csvEnv
unfoldable pub csv_env : Environ → String → List String
csv_env getenv key =
    let raw = trim_space (string getenv key "") in
    if raw == "" then [] else filled (split_commas "" raw)
