-- ===== src/Process/Startup.antt =====
-- The start and the end of the process: Context and Fatal of platform/process.go, and `main` and `run` of
-- cmd/platform/main.go with their deferred calls. What the libraries do is given by `Outside`.
use fast_platform_modular.Base.{
  ℕ, String, Bool, true, Option, none, some, List, [], ◌∷◌, ◌++◌, map, concat, ◌⊎◌, inl, inr,
}
use fast_platform_modular.Errors.{Error, opaque, wrapped, error_text}
use fast_platform_modular.Env.{Environ, string, environment}
use fast_platform_modular.Config.{Config, Problem, bad_port, no_name, bad_timeout, bad_body_limit}
use fast_platform_modular.Config.Load.{new_config}
use fast_platform_modular.Process.{
  Ended, returned, panicked, Line, Log, warmup, Server, new_server, Event, run_server, exit_error,
}

-- What `run` opens and leaves to a deferred call: the signal context, whose end is `stop`, and the
-- clients of the libraries.
pub data Resource : Type 0 where
  signals telemetry database cache : Resource

-- The calls that can be seen from outside, in their order: `closed` is the end of a resource, `logged`
-- a line of Warmup, `mounted` a route with its method, `started` and `runtime_error` the two lines of
-- `run`.
pub data Effect : Type 0 where
  opened : Resource → Effect
  closed : Resource → Effect
  logged : Line → Effect
  mounted : String → String → Effect
  started : String → Effect
  runtime_error : Error → Effect

-- A stretch of `run`, and how it ends.
abbrev pub Stretch : Type 0
Stretch = List Effect × Ended

-- godotenv.Load and errors.Is with fs.ErrNotExist; the variables before and after the files are loaded;
-- the step of time.ParseDuration in floating point; strconv.Quote; the error of each client's
-- constructor; how PingContext ends and in how many milliseconds; errors.Is with
-- http.ErrServerClosed; and what happens to the server.
pub record Outside : Type 0 where
  pub godotenv : List String → Option Error
  pub is_not_exist : Error → Bool
  pub before : Environ
  pub getenv : Environ
  pub scaled : ℕ → ℕ → ℕ → ℕ
  pub quote : String → String
  pub telemetry_new : Option Error
  pub database_new : Option Error
  pub cache_new : Option Error
  pub ping : Ended
  pub ping_ms : ℕ
  pub is_server_closed : Error → Bool
  pub event : Server → Event

-- the errors of Validate
unfoldable problem_error : (String → String) → String → Problem → Error
problem_error quote port bad_port =
    opaque (concat "config: HELLNET_PORT " (concat (quote port) " is invalid"))
problem_error quote port no_name = opaque "config: HELLNET_SERVICE cannot be empty"
problem_error quote port bad_timeout = opaque "config: timeouts must be positive"
problem_error quote port bad_body_limit = opaque "config: BODY_LIMIT must be positive"

-- A client is opened, the rest of `run` runs, and the deferred call closes the client, also when a
-- panic passes; if the constructor fails, `run` returns its error.
unfoldable pub acquire : Resource → Option Error → Stretch → Stretch
acquire r none (effects, ended) = (opened r ∷ (effects ++ closed r ∷ []), ended)
acquire r (some e) rest = ([], returned (some e))

-- Context; an error stops the notification at once.
unfoldable pub in_context : Option Error → Stretch → Stretch
unfolding acquire
in_context none rest = acquire signals none rest
in_context (some e) rest =
    (opened signals ∷ closed signals ∷ [], returned (some (wrapped "load environment: " e)))

-- The rest of `run` after Warmup, unless a panic left it.
unfoldable pub after_warmup : Log → Stretch → Stretch
after_warmup log (effects, ended) = elim log.panic [
  | some text ↦ (map (λ l. logged l) log.lines, panicked text)
  | none ↦ (map (λ l. logged l) log.lines ++ effects, ended)
]

-- Register of both handlers, on the group /api/v1
abbrev pub v1 : String → String
v1 path = concat "/api/v1" path

unfoldable pub order_routes : List Effect
order_routes = mounted "POST" (v1 "/orders") ∷ mounted "GET" (v1 "/orders/:orderId") ∷ []

unfoldable pub driver_routes : List Effect
driver_routes = mounted "POST" (v1 "/orders/:orderId/accept") ∷ []

unfoldable pub probe_routes : List Effect
probe_routes = mounted "GET" "/live" ∷ mounted "GET" "/ready" ∷ mounted "GET" "/health" ∷ []

unfoldable pub report : Option Error → List Effect
report none = []
report (some e) = runtime_error e ∷ []

module _ (out : Outside) where
  -- from the router to the end
  unfoldable pub serving : Config → Stretch
  unfolding order_routes driver_routes probe_routes report new_server run_server exit_error
  serving cfg =
      let error = exit_error (run_server out.is_server_closed (out.event (new_server cfg))) in
      (
        order_routes ++ driver_routes ++ probe_routes ++ started cfg.port ∷ report error,
        returned error,
      )

  -- what `run` does with a configuration
  unfoldable pub configured : Config → Stretch
  unfolding acquire after_warmup warmup serving
  configured cfg = acquire telemetry out.telemetry_new (
      acquire database out.database_new (
        after_warmup (warmup true "database" out.ping_ms out.ping)
          (acquire cache out.cache_new (serving cfg))))

  unfoldable pub with_config : Problem ⊎ Config → Stretch
  unfolding configured problem_error string
  with_config (inl problem) = (
    [],
    returned (some (problem_error out.quote (string out.getenv "HELLNET_PORT" "8080") problem)),
  )
  with_config (inr cfg) = configured cfg

  -- run
  unfoldable pub run : Stretch
  unfolding in_context with_config environment new_config
  run =
      in_context (environment out.godotenv out.is_not_exist out.before [])
        (with_config (new_config out.scaled out.getenv))

-- How the process exits: with status 0, with status 1 and the line of Fatal on stderr, or by a panic.
pub data Exit : Type 0 where
  success : Exit
  failure : String → Exit
  crash : String → Exit

-- Fatal, what it writes
unfoldable fatal : String → Error → String
fatal name e = concat name (concat ": " (concat (error_text e) "\n"))

unfoldable pub exit_of : Ended → Exit
unfolding fatal
exit_of (returned none) = success
exit_of (returned (some e)) = failure (fatal "fast-platform" e)
exit_of (panicked text) = crash text

-- main
unfoldable pub main : Outside → List Effect × Exit
unfolding run exit_of
main out = let (effects, ended) = run out in (effects, exit_of ended)
