-- ===== src/Config/Valid.antt =====
-- What Validate accepts, and what csvEnv yields.
use fast_platform_modular.Base.{
  ℕ, ◌≤◌, ◌<◌, String, ◌≡◌, ◌≢◌, ◌↔◌, false, none, some, List, [], ◌∷◌, arith, All, trim_space,
  eq_iff, Option-cases, inl, inr,
}
use fast_platform_modular.Base.Int.{ℤ, pos, negsuc}
use fast_platform_modular.Env.Number.{atoi}
use fast_platform_modular.Config.{Config, validate, bad_port_number, filled}

-- 0 < a
abbrev IsPositive : ℤ → Type 0
IsPositive (pos n) = 0 < n
IsPositive (negsuc n) = ⊥

pub record IsValid (c : Config) : Type 0 where
  pub port : ℕ
  pub port_read : atoi c.port ≡ some (pos port)
  pub port_low : 1 ≤ port
  pub port_high : port ≤ 65535
  pub name : trim_space c.name ≢ ""
  pub shutdown_timeout : IsPositive c.shutdown_timeout
  pub read_timeout : IsPositive c.read_timeout
  pub write_timeout : IsPositive c.write_timeout
  pub idle_timeout : IsPositive c.idle_timeout
  pub read_header_timeout : IsPositive c.read_header_timeout
  pub body_limit : IsPositive c.body_limit

record HasPort (c : Config) : Type 0 where
  port : ℕ
  port_read : atoi c.port ≡ some (pos port)
  port_low : 1 ≤ port
  port_high : port ≤ 65535

good_port : (c : Config) → bad_port_number (atoi c.port) ≡ false → HasPort c
unfolding bad_port_number
good_port c h = elim (Option-cases (atoi c.port)) [
  | inl e ↦ absurd (ground arith)
  | inr (pos n, e) ↦ record {
    port = n;
    port_read = e;
    port_low = ground arith;
    port_high = ground arith;
  }
  | inr (negsuc n, e) ↦ absurd (ground arith)
]

validate_to : (c : Config) → validate c ≡ none → IsValid c
unfolding validate
validate_to c h =
    let has = good_port c (ground arith) in
    record {
      port = has.port;
      port_read = has.port_read;
      port_low = has.port_low;
      port_high = has.port_high;
      name = λ e. ground (arith, eq_iff (trim_space c.name) "");
      shutdown_timeout = ground arith;
      read_timeout = ground arith;
      write_timeout = ground arith;
      idle_timeout = ground arith;
      read_header_timeout = ground arith;
      body_limit = ground arith;
    }

validate_from : (c : Config) → IsValid c → validate c ≡ none
unfolding validate bad_port_number
validate_from c v = ground (arith, eq_iff (trim_space c.name) "")

-- Validate accepts a configuration exactly when its port is a number from 1 to 65535, its name is not
-- blank, and its timeouts and its body limit are positive.
pub validate_iff : (c : Config) → (validate c ≡ none) ↔ IsValid c
validate_iff c = (validate_to c, validate_from c)

-- Every value of a list variable is trimmed text that is not empty.
filled-filled : (values : List String) → All (λ v. v ≢ "") (filled values)
unfolding filled
filled-filled [] = tt
filled-filled (v ∷ vs) = ground (arith, filled-filled vs, eq_iff (trim_space v) "")
