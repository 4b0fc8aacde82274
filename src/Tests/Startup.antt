-- ===== src/Tests/Startup.antt =====
-- Durations in the environment, the configuration of a service with a name alone, and a process that
-- starts, serves and stops.
use fast_platform_modular.Base.{
  ℕ, ◌+◌, ◌*◌, ◌/◌, ◌^◌, String, ◌≡◌, ◌≢◌, ◌↔◌, refl, false, none, some, [], ◌==◌, inr, arith,
  if◌then◌else◌, trim_space,
}
use fast_platform_modular.Base.Int.{pos, neg}
use fast_platform_modular.Errors.{opaque}
use fast_platform_modular.Env.{Environ, duration}
use fast_platform_modular.Env.Number.{format}
use fast_platform_modular.Env.Duration.Parse.{part, leading_int, unit_of, parse_duration}
use fast_platform_modular.Env.Duration.Text.{duration_text}
use fast_platform_modular.Env.Duration.Clock.{of_clock}
use fast_platform_modular.Env.DurationFallback.{duration-clock_text}
use fast_platform_modular.Config.Load.{new_config}
use fast_platform_modular.Config.Defaults.{default_config, new_config-defaults}
use fast_platform_modular.Process.{returned, context_done}
use fast_platform_modular.Process.Startup.{Outside, main, success}
use fast_platform_modular.Process.Cleanup.{still_open, main-closes}
use fast_platform_modular.Process.Exits.{Succeeds, main-success}

-- The step of ParseDuration with a fraction, in exact numbers.
abbrev exact : ℕ → ℕ → ℕ → ℕ
exact f unit scale = f * unit / scale

abbrev ninety : Environ
ninety key = "1:30:5"

duration-clock_text_example :
    duration exact ninety "READ_TIMEOUT" (pos 0)
    ≡ pos (1 * (3600 * 10 ^ 9) + 30 * (60 * 10 ^ 9) + 5 * 10 ^ 9)
unfolding format
duration-clock_text_example =
    duration-clock_text exact ninety "READ_TIMEOUT" 1 30 5 (pos 0) refl (omega arith)

-- Only HELLNET_SERVICE is set.
abbrev named : Environ
named key = if key == "HELLNET_SERVICE" then "rides" else ""

unset : (key : String) → key == "HELLNET_SERVICE" ≡ false → named key ≡ ""
unset key h = rw h refl

has_name : trim_space (named "HELLNET_SERVICE") ≢ ""
unfolding trim_space
has_name e = cc

new_config-defaults_example : new_config exact named ≡ inr (default_config (trim_space "rides"))
new_config-defaults_example = new_config-defaults exact named unset has_name

-- No file to load, clients that can be made, and a shutdown in time.
abbrev calm : Outside
calm = record {
  godotenv = λ paths. none;
  is_not_exist = λ e. false;
  before = named;
  getenv = named;
  scaled = exact;
  quote = λ s. s;
  telemetry_new = none;
  database_new = none;
  cache_new = none;
  ping = returned (some (opaque "connection refused"));
  ping_ms = 3;
  is_server_closed = λ e. false;
  event = λ server. context_done none;
}

main-closes_example : still_open [] (main calm).0 ≡ some []
main-closes_example = main-closes calm

main-success_example : ((main calm).1 ≡ success) ↔ Succeeds calm
main-success_example = main-success calm

minutes_shown : duration_text (pos (120 * 10 ^ 9)) ≡ "2m0s"
unfolding duration_text
minutes_shown = refl

fraction_shown : duration_text (pos (1500 * 10 ^ 6)) ≡ "1.5s"
unfolding duration_text
fraction_shown = refl

fraction_read : parse_duration exact "1.5h" ≡ some (pos (5400 * 10 ^ 9))
unfolding parse_duration part leading_int unit_of
fraction_read = refl

two_parts_read : parse_duration exact "-1h30m" ≡ some (neg (5400 * 10 ^ 9))
unfolding parse_duration part leading_int unit_of
two_parts_read = refl

-- The hours wrap around.
hours_wrap : of_clock (pos 2562048, pos 0, pos 0) ≡ neg 9223371273709551616
unfolding of_clock
hours_wrap = refl
