-- ===== src/Process/Exits.antt =====
-- When the process exits without an error.
use mathlib.Core.Path.{subst}
use fast_platform_modular.Base.{
  String, ◌≡◌, ◌↔◌, refl, sym, ap, true, ℕ, Option, none, some, [], ◌⊎◌, inl, inr, arith,
}
use fast_platform_modular.Errors.{Error}
use fast_platform_modular.Env.{environment}
use fast_platform_modular.Config.{Config, Problem}
use fast_platform_modular.Config.Load.{new_config, read_config}
use fast_platform_modular.Config.Valid.{IsValid}
use fast_platform_modular.Config.Defaults.{new_config_iff}
use fast_platform_modular.Process.{Ended, returned, panicked, warmup, new_server}
use fast_platform_modular.Process.Ending.{EndsWell, exit_error-run_server}
use fast_platform_modular.Process.Startup.{
  Resource, telemetry, database, cache, Stretch, Outside, acquire, in_context, after_warmup,
  serving, configured, with_config, run, success, exit_of, main,
}

-- The stretch ends without an error.
abbrev IsFine : Stretch → Type 0
IsFine s = s.1 ≡ returned none

acquire-IsFine :
    (r : Resource) (error : Option Error) (rest : Stretch)
    → IsFine (acquire r error rest) ↔ ((error ≡ none) × IsFine rest)
unfolding acquire
acquire-IsFine r none rest = ground arith
acquire-IsFine r (some e) rest = ground arith

in_context-IsFine :
    (error : Option Error) (rest : Stretch)
    → IsFine (in_context error rest) ↔ ((error ≡ none) × IsFine rest)
unfolding in_context acquire
in_context-IsFine none rest = ground arith
in_context-IsFine (some e) rest = ground arith

-- The attempt to reach the database ends, in whatever way but a panic.
abbrev HasReturned : Ended → Type 0
HasReturned (returned e) = Unit {0}
HasReturned (panicked text) = ⊥

after_warmup-IsFine :
    (name : String) (ms : ℕ) (ping : Ended) (rest : Stretch)
    → IsFine (after_warmup (warmup true name ms ping) rest) ↔ (HasReturned ping × IsFine rest)
unfolding after_warmup warmup
after_warmup-IsFine name ms (returned e) rest = ground arith
after_warmup-IsFine name ms (panicked text) rest = ground arith

exit_of-success : (ended : Ended) → (exit_of ended ≡ success) ↔ (ended ≡ returned none)
unfolding exit_of
exit_of-success (returned none) = ground arith
exit_of-success (returned (some e)) = ground arith
exit_of-success (panicked text) = ground arith

error_in : Ended → Option Error
error_in (returned e) = e
error_in (panicked text) = none

returned-injective : {e f : Option Error} → returned e ≡ returned f → e ≡ f
unfolding error_in
returned-injective h = ap error_in h

module _ (out : Outside) where
  -- The configuration that the environment holds.
  abbrev pub config_of : Config
  config_of = read_config out.scaled out.getenv

  -- What makes a process end well: the environment files load, the configuration is valid, the three
  -- clients can be made, the warm-up does not panic, and the server ends well.
  pub record Succeeds : Type 0 where
    pub environment_loaded : environment out.godotenv out.is_not_exist out.before [] ≡ none
    pub valid : IsValid config_of
    pub telemetry_made : out.telemetry_new ≡ none
    pub database_made : out.database_new ≡ none
    pub warmed_up : HasReturned out.ping
    pub cache_made : out.cache_new ≡ none
    pub ended_well : EndsWell out.is_server_closed (out.event (new_server config_of))

  serving-IsFine :
      (cfg : Config)
      → IsFine (serving out cfg) ↔ EndsWell out.is_server_closed (out.event (new_server cfg))
  unfolding serving
  serving-IsFine cfg =
      let ends = exit_error-run_server out.is_server_closed (out.event (new_server cfg)) in
      (λ h. ends.0 (returned-injective h), λ h. ap (λ e. returned e) (ends.1 h))

  with_config-IsFine :
      (c : Problem ⊎ Config)
      → IsFine (with_config out c)
      → (cfg : Config) × (c ≡ inr cfg) × IsFine (configured out cfg)
  unfolding with_config
  with_config-IsFine (inl problem) h = absurd (ground (arith, h))
  with_config-IsFine (inr cfg) h = (cfg, refl, h)

  new_config-valid : IsValid config_of → new_config out.scaled out.getenv ≡ inr config_of
  new_config-valid v = (new_config_iff out.scaled out.getenv config_of).1 (refl, v)

  run_to : IsFine (run out) → Succeeds
  unfolding run configured
  run_to h =
      let loaded = (in_context-IsFine _ _).0 h in
      let (cfg, e, fine) = with_config-IsFine _ loaded.1 in
      let (same, valid) = (new_config_iff out.scaled out.getenv cfg).0 e in
      let tel = (acquire-IsFine telemetry out.telemetry_new _).0 fine in
      let db = (acquire-IsFine database out.database_new _).0 tel.1 in
      let warm = (after_warmup-IsFine "database" out.ping_ms out.ping _).0 db.1 in
      let made = (acquire-IsFine cache out.cache_new _).0 warm.1 in
      record {
        environment_loaded = loaded.0;
        valid = subst IsValid (sym same) valid;
        telemetry_made = tel.0;
        database_made = db.0;
        warmed_up = warm.0;
        cache_made = made.0;
        ended_well =
            subst (λ c. EndsWell out.is_server_closed (out.event (new_server c))) (sym same)
              ((serving-IsFine cfg).0 made.1);
      }

  run_from : Succeeds → IsFine (run out)
  unfolding run configured with_config
  run_from s =
      let made =
        (acquire-IsFine cache out.cache_new _).1
          (s.cache_made, (serving-IsFine config_of).1 s.ended_well) in
      let warm = (after_warmup-IsFine "database" out.ping_ms out.ping _).1 (s.warmed_up, made) in
      let db = (acquire-IsFine database out.database_new _).1 (s.database_made, warm) in
      let tel : IsFine (configured out config_of) =
        (acquire-IsFine telemetry out.telemetry_new _).1 (s.telemetry_made, db) in
      (in_context-IsFine _ _).1 (
        s.environment_loaded,
        subst (λ c. IsFine (with_config out c)) (sym (new_config-valid s.valid)) tel,
      )

  -- The process exits with status 0 exactly if the environment files load, the configuration in the
  -- environment is valid, the clients of telemetry, database and cache can be made, the warm-up does
  -- not panic, and the server ends well.
  pub main-success : ((main out).1 ≡ success) ↔ Succeeds
  unfolding main
  main-success =
      let ends = exit_of-success (run out).1 in (λ h. run_to (ends.0 h), λ s. ends.1 (run_from s))
