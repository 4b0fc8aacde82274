-- ===== src/Process/Cleanup.antt =====
-- The process closes what it opened, and when it exits without an error.
use fast_platform_modular.Base.{
  String, ◌≡◌, refl, ap, ◌∙◌, Bool, true, false, Option, none, some, List, [], ◌∷◌, ◌++◌, map, ◌⊎◌,
  inl, inr, Bool-cases, if◌then◌else◌, ◌>>=◌,
}
use fast_platform_modular.Errors.{Error}
use fast_platform_modular.Env.{environment}
use fast_platform_modular.Config.{Config, Problem}
use fast_platform_modular.Config.Load.{new_config}
use fast_platform_modular.Process.{Line, warmup}
use fast_platform_modular.Process.Startup.{
  Resource, signals, telemetry, database, cache, Effect, opened, closed, logged, mounted, started,
  runtime_error, Stretch, Outside, acquire, in_context, after_warmup, report, order_routes,
  driver_routes, probe_routes, serving, configured, with_config, run, main,
}

-- Which of two resources are the same.
unfoldable pub same : Resource → Resource → Bool
same signals signals = true
same telemetry telemetry = true
same database database = true
same cache cache = true
same _ _ = false

-- The open resources after the calls, the latest first; `none` if one is closed that is not the latest.
unfoldable pub still_open : List Resource → List Effect → Option (List Resource)
unfolding same
still_open stack [] = some stack
still_open stack (opened r ∷ effects) = still_open (r ∷ stack) effects
still_open [] (closed r ∷ effects) = none
still_open (s ∷ stack) (closed r ∷ effects) =
    let rest = still_open stack effects in if same r s then rest else none
still_open stack (logged l ∷ effects) = still_open stack effects
still_open stack (mounted m p ∷ effects) = still_open stack effects
still_open stack (started p ∷ effects) = still_open stack effects
still_open stack (runtime_error e ∷ effects) = still_open stack effects

still_open-bind :
    (xs ys : List Effect) (stack : List Resource)
    → still_open stack (xs ++ ys) ≡ (still_open stack xs >>= λ s. still_open s ys)
unfolding still_open
still_open-bind [] ys stack = refl
still_open-bind (opened r ∷ xs) ys stack = still_open-bind xs ys (r ∷ stack)
still_open-bind (closed r ∷ xs) ys [] = refl
still_open-bind (closed r ∷ xs) ys (s ∷ stack) = elim (Bool-cases (same r s)) [
  | inl e ↦ rw e (still_open-bind xs ys stack)
  | inr e ↦ rw e refl
]
still_open-bind (logged l ∷ xs) ys stack = still_open-bind xs ys stack
still_open-bind (mounted m p ∷ xs) ys stack = still_open-bind xs ys stack
still_open-bind (started p ∷ xs) ys stack = still_open-bind xs ys stack
still_open-bind (runtime_error e ∷ xs) ys stack = still_open-bind xs ys stack

-- Calls that leave the open resources as they were.
abbrev Balanced : List Effect → Type 0
Balanced effects = (stack : List Resource) → still_open stack effects ≡ some stack

still_open-append :
    (xs ys : List Effect)
    → Balanced xs
    → (stack : List Resource) → still_open stack (xs ++ ys) ≡ still_open stack ys
still_open-append xs ys h stack =
    still_open-bind xs ys stack ∙ ap (λ o. o >>= λ s. still_open s ys) (h stack)

same_refl : (r : Resource) → same r r ≡ true
unfolding same
same_refl signals = refl
same_refl telemetry = refl
same_refl database = refl
same_refl cache = refl

opened-Balanced :
    (r : Resource) (effects : List Effect)
    → Balanced effects
    → Balanced (opened r ∷ (effects ++ closed r ∷ []))
unfolding still_open
opened-Balanced r effects h stack =
    still_open-append effects (closed r ∷ []) h (r ∷ stack) ∙ rw (same_refl r) refl

acquire-Balanced :
    (r : Resource) (error : Option Error) (rest : Stretch)
    → Balanced rest.0
    → Balanced (acquire r error rest).0
unfolding acquire still_open
acquire-Balanced r none (effects, ended) h = opened-Balanced r effects h
acquire-Balanced r (some e) rest h = λ stack. refl

in_context-Balanced :
    (error : Option Error) (rest : Stretch) → Balanced rest.0 → Balanced (in_context error rest).0
unfolding in_context still_open same
in_context-Balanced none rest h = acquire-Balanced signals none rest h
in_context-Balanced (some e) rest h = λ stack. refl

logged-Balanced : (lines : List Line) → Balanced (map (λ l. logged l) lines)
unfolding still_open
logged-Balanced [] stack = refl
logged-Balanced (l ∷ lines) stack = logged-Balanced lines stack

after_warmup-Balanced :
    (lines : List Line) (panic : Option String) (rest : Stretch)
    → Balanced rest.0
    → Balanced (after_warmup (record { lines = lines; panic = panic }) rest).0
unfolding after_warmup
after_warmup-Balanced lines none (effects, ended) h stack =
    still_open-append (map (λ l. logged l) lines) effects (logged-Balanced lines) stack ∙ h stack
after_warmup-Balanced lines (some text) rest h stack = logged-Balanced lines stack

report-Balanced : (error : Option Error) → Balanced (report error)
unfolding report still_open
report-Balanced none stack = refl
report-Balanced (some e) stack = refl

module _ (out : Outside) where
  serving-Balanced : (cfg : Config) → Balanced (serving out cfg).0
  unfolding serving order_routes driver_routes probe_routes still_open
  serving-Balanced cfg stack = report-Balanced _ stack

  configured-Balanced : (cfg : Config) → Balanced (configured out cfg).0
  unfolding configured
  configured-Balanced cfg =
      let log = warmup true "database" out.ping_ms out.ping in
      acquire-Balanced telemetry out.telemetry_new _ (
        acquire-Balanced database out.database_new _ (
          after_warmup-Balanced log.lines log.panic _
            (acquire-Balanced cache out.cache_new _ (serving-Balanced cfg))))

  with_config-Balanced : (c : Problem ⊎ Config) → Balanced (with_config out c).0
  unfolding with_config still_open
  with_config-Balanced (inl problem) stack = refl
  with_config-Balanced (inr cfg) stack = configured-Balanced cfg stack

  -- However the process ends, with an error and a panic included, every resource that it opened is
  -- closed, once, and the resources are closed in the reverse of the order in which they were opened.
  pub main-closes : still_open [] (main out).0 ≡ some []
  unfolding main run
  main-closes =
      in_context-Balanced (environment out.godotenv out.is_not_exist out.before []) _
        (with_config-Balanced (new_config out.scaled out.getenv)) []
