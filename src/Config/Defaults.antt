-- ===== src/Config/Defaults.antt =====
-- Which configuration NewConfig gives.
use mathlib.Core.Path.{subst}
use mathlib.Core.Sum.{inr-injective, inl-ne-inr}
use mathlib.Core.Option.{some-ne-none}
use fast_platform_modular.Base.{
  ℕ, ◌*◌, ◌^◌, ◌<◌, String, ◌≡◌, ◌≢◌, ◌↔◌, refl, sym, ap, ◌∙◌, inl, inr, false, not, none, some, [],
  arith, trim_space, Option-cases, ◌==◌,
}
use fast_platform_modular.Base.Int.{pos}
use fast_platform_modular.Base.Trim.{trim_space_idem}
use fast_platform_modular.Env.{Environ, duration}
use fast_platform_modular.Env.Number.{atoi, itoa, format}
use fast_platform_modular.Env.DurationFallback.{duration_lem, not_set}
use fast_platform_modular.Env.Fallback.{int_lem}
use fast_platform_modular.Trace.{eq_fold}
use fast_platform_modular.Env.Number.RoundTrip.{atoi-itoa}
use fast_platform_modular.Config.Lists.{string-unset}
use fast_platform_modular.Config.{Config, Problem, validate, csv_env}
use fast_platform_modular.Config.Valid.{IsValid, validate_iff}
use fast_platform_modular.Config.Load.{seconds, checked, read_config, new_config}

module _ (c d : Config) where
  accepted : validate c ≡ none → (checked c (validate c) ≡ inr d) ↔ ((c ≡ d) × IsValid d)
  unfolding checked
  accepted e = rw e (
    λ q. let p = inr-injective c d q in (p, subst IsValid p ((validate_iff c).0 e)),
    λ q. ap inr q.0,
  )

  refused :
      (problem : Problem)
      → validate c ≡ some problem
      → (checked c (validate c) ≡ inr d) ↔ ((c ≡ d) × IsValid d)
  unfolding checked
  refused problem e = rw e (
    λ q. absurd (inl-ne-inr q),
    λ q.
        let valid = subst IsValid (sym q.0) q.1 in
        absurd (some-ne-none problem (sym e ∙ (validate_iff c).1 valid)),
  )

  checked-inr : (checked c (validate c) ≡ inr d) ↔ ((c ≡ d) × IsValid d)
  checked-inr = elim (Option-cases (validate c)) [
    | inl e ↦ accepted e
    | inr (problem, e) ↦ refused problem e
  ]

-- The configuration with every default, for a service of the given name.
abbrev pub default_config : String → Config
default_config name = record {
  name = name;
  env = "Development";
  port = "8080";
  shutdown_timeout = seconds 10;
  read_timeout = seconds 15;
  write_timeout = seconds 30;
  idle_timeout = seconds 120;
  read_header_timeout = seconds 10;
  cors_allowed_origins = [];
  body_limit = pos 1048576;
  release_mode = false;
  trusted_proxies = [];
}

module _ (scaled : ℕ → ℕ → ℕ → ℕ) (getenv : Environ) where
  -- NewConfig gives a configuration exactly if it is the one that the environment holds and Validate's
  -- conditions hold of it.
  pub new_config_iff :
      (c : Config)
      → (new_config scaled getenv ≡ inr c) ↔ ((read_config scaled getenv ≡ c) × IsValid c)
  unfolding new_config
  new_config_iff c = checked-inr (read_config scaled getenv) c

  csv_env-unset : (key : String) → getenv key ≡ "" → csv_env getenv key ≡ []
  unfolding csv_env trim_space
  csv_env-unset key e = rw (not_set getenv key "" e) refl

  duration-unset :
      (key : String) (n : ℕ)
      → n * 10 ^ 9 < 2 ^ 63
      → getenv key ≡ ""
      → duration scaled getenv key (seconds n) ≡ seconds n
  duration-unset key n h e = (duration_lem scaled getenv key n h).0 e

  -- If no variable but HELLNET_SERVICE is set, NewConfig reads the defaults.
  read_config-defaults :
      ((key : String) → key == "HELLNET_SERVICE" ≡ false → getenv key ≡ "")
      → read_config scaled getenv ≡ default_config (trim_space (getenv "HELLNET_SERVICE"))
  unfolding read_config trim_space
  read_config-defaults unset =
      let at = λ (key : String) (h : key == "HELLNET_SERVICE" ≡ false) (fallback : String).
        not_set getenv key fallback (unset key h) in
      λ i. record {
        name = trim_space (string-unset getenv "HELLNET_SERVICE" i);
        env = trim_space (at "HELLNET_ENVIRONMENT" refl "Development" i);
        port = at "HELLNET_PORT" refl "8080" i;
        shutdown_timeout =
            duration-unset "SHUTDOWN_TIMEOUT" 10 (omega arith) (unset "SHUTDOWN_TIMEOUT" refl) i;
        read_timeout = duration-unset "READ_TIMEOUT" 15 (omega arith) (unset "READ_TIMEOUT" refl) i;
        write_timeout =
            duration-unset "WRITE_TIMEOUT" 30 (omega arith) (unset "WRITE_TIMEOUT" refl) i;
        idle_timeout =
            duration-unset "IDLE_TIMEOUT" 120 (omega arith) (unset "IDLE_TIMEOUT" refl) i;
        read_header_timeout =
            duration-unset "READ_HEADER_TIMEOUT" 10 (omega arith) (unset "READ_HEADER_TIMEOUT" refl)
              i;
        cors_allowed_origins =
            csv_env-unset "CORS_ALLOWED_ORIGINS" (unset "CORS_ALLOWED_ORIGINS" refl) i;
        body_limit =
            (int_lem getenv "BODY_LIMIT" (pos 1048576) (omega arith)).0
              (inl (unset "BODY_LIMIT" refl)) i;
        release_mode =
            not
              (eq_fold (trim_space (at "HELLNET_ENVIRONMENT" refl "Development" i)) "Development");
        trusted_proxies = csv_env-unset "TRUSTED_PROXIES" (unset "TRUSTED_PROXIES" refl) i;
      }

  default_port : atoi "8080" ≡ some (pos 8080)
  unfolding itoa format
  default_port = atoi-itoa (pos 8080) (omega arith)

  -- If HELLNET_SERVICE is not blank and no other variable is set, NewConfig gives the defaults for
  -- this service, and they are valid.
  pub new_config-defaults :
      ((key : String) → key == "HELLNET_SERVICE" ≡ false → getenv key ≡ "")
      → trim_space (getenv "HELLNET_SERVICE") ≢ ""
      → new_config scaled getenv ≡ inr (default_config (trim_space (getenv "HELLNET_SERVICE")))
  new_config-defaults unset named =
      (new_config_iff (default_config (trim_space (getenv "HELLNET_SERVICE")))).1 (
        read_config-defaults unset,
        record {
          port = 8080;
          port_read = default_port;
          port_low = omega arith;
          port_high = omega arith;
          name = λ e. named (sym (trim_space_idem (getenv "HELLNET_SERVICE")) ∙ e);
          shutdown_timeout = omega arith;
          read_timeout = omega arith;
          write_timeout = omega arith;
          idle_timeout = omega arith;
          read_header_timeout = omega arith;
          body_limit = omega arith;
        },
      )
