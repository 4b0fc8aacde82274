-- ===== src/Config/Load.antt =====
-- NewConfig of platform/platform.go.
use fast_platform_modular.Base.{ℕ, ◌*◌, ◌^◌, ◌⊎◌, inl, inr, not, Option, none, some, trim_space}
use fast_platform_modular.Base.Int.{ℤ, pos}
use fast_platform_modular.Env.{Environ, string, int, duration}
use fast_platform_modular.Trace.{eq_fold}
use fast_platform_modular.Config.{Config, Problem, validate, csv_env}

-- time.Second
abbrev pub seconds : ℕ → ℤ
seconds n = pos (n * 10 ^ 9)

unfoldable pub checked : Config → Option Problem → Problem ⊎ Config
checked c none = inr c
checked c (some problem) = inl problem

-- `scaled` is the step of time.ParseDuration that uses floating point.
module _ (scaled : ℕ → ℕ → ℕ → ℕ) (getenv : Environ) where
  -- What NewConfig reads; strings.EqualFold is applied to a word in which only letters of ASCII fold.
  unfoldable pub read_config : Config
  unfolding string duration int csv_env eq_fold trim_space
  read_config =
      let environment_name = trim_space (string getenv "HELLNET_ENVIRONMENT" "Development") in
      record {
        name = trim_space (string getenv "HELLNET_SERVICE" "");
        env = environment_name;
        port = string getenv "HELLNET_PORT" "8080";
        shutdown_timeout = duration scaled getenv "SHUTDOWN_TIMEOUT" (seconds 10);
        read_timeout = duration scaled getenv "READ_TIMEOUT" (seconds 15);
        write_timeout = duration scaled getenv "WRITE_TIMEOUT" (seconds 30);
        idle_timeout = duration scaled getenv "IDLE_TIMEOUT" (seconds 120);
        read_header_timeout = duration scaled getenv "READ_HEADER_TIMEOUT" (seconds 10);
        cors_allowed_origins = csv_env getenv "CORS_ALLOWED_ORIGINS";
        body_limit = int getenv "BODY_LIMIT" (pos 1048576);
        release_mode = not (eq_fold environment_name "Development");
        trusted_proxies = csv_env getenv "TRUSTED_PROXIES";
      }

  -- NewConfig
  unfoldable pub new_config : Problem ⊎ Config
  unfolding checked validate read_config
  new_config = checked read_config (validate read_config)
