-- ===== src/Process.antt =====
-- The life of a process: Warmup and Consume of platform/process.go, NewServer and Run of
-- platform/platform.go, and what `run` of cmd/platform/main.go makes of Run's error.
pub mod Ending
pub mod Startup
pub mod Cleanup
pub mod Exits
use fast_platform_modular.Base.{
  ℕ, ◌^◌, String, Bool, not, ◌&&◌, Option, none, some, List, [], ◌∷◌, ◌++◌, concat, if◌then◌else◌,
}
use fast_platform_modular.Base.Int.{ℤ}
use fast_platform_modular.Errors.{Error, wrapped, error_text, is_canceled}
use fast_platform_modular.Config.{Config}

-- How a call of a function value ends: with its error, which may be nil, or in a panic.
pub data Ended : Type 0 where
  returned : Option Error → Ended
  panicked : String → Ended

-- The lines of the logger: of Warmup with the dependency, of Consume with the consumer.
pub data Line : Type 0 where
  warm_up_failed : String → Error → Line
  warm_up_completed : String → ℕ → Line
  consumer_started : String → Line
  consumer_panicked : String → String → Line
  consumer_failed : String → String → Line
  consumer_stopped : String → Line

-- What a function logs, and the panic that leaves it.
pub record Log : Type 0 where
  pub lines : List Line
  pub panic : Option String

-- A line is logged where there is a telemetry client.
abbrev log_line : Bool → Line → List Line
log_line ops line = if ops then line ∷ [] else []

warm_up_line : String → ℕ → Option Error → Line
warm_up_line name ms none = warm_up_completed name ms
warm_up_line name ms (some e) = warm_up_failed name e

-- Warmup; `call` is how the connection attempt ends, `ms` the time that it took.
unfoldable pub warmup : Bool → String → ℕ → Ended → Log
unfolding warm_up_line
warmup ops name ms (panicked text) = record { lines = []; panic = some text }
warmup ops name ms (returned e) = record {
  lines = log_line ops (warm_up_line name ms e);
  panic = none;
}

-- The last line of Consume, where the loop returned; `done` says whether the context was done then.
unfoldable consumer_end : String → Bool → Option Error → Line
consumer_end name done none = consumer_stopped name
consumer_end name done (some e) =
    if not done then consumer_failed name (error_text e) else consumer_stopped name

-- the body of Consume, around the loop
unfoldable consume_body : Bool → String → Bool → Ended → Log
unfolding consumer_end
consume_body ops name done (panicked text) = record {
  lines = log_line ops (consumer_started name);
  panic = some text;
}
consume_body ops name done (returned e) = record {
  lines = log_line ops (consumer_started name) ++ log_line ops (consumer_end name done e);
  panic = none;
}

-- the deferred function
unfoldable consume_recovered : Bool → String → Log → Log
consume_recovered ops name log = elim log.panic [
  | none ↦ log
  | some text ↦ record {
    lines = log.lines ++ log_line ops (consumer_panicked name text);
    panic = none;
  }
]

-- Consume
unfoldable consume : Bool → String → Bool → Ended → Log
unfolding consume_body consume_recovered
consume ops name done loop = consume_recovered ops name (consume_body ops name done loop)

-- http.Server as NewServer fills it; durations in nanoseconds
pub record Server : Type 0 where
  pub address : String
  pub read_header_timeout : ℤ
  pub read_timeout : ℤ
  pub write_timeout : ℤ
  pub idle_timeout : ℤ
  pub max_header_bytes : ℕ

-- NewServer
unfoldable pub new_server : Config → Server
new_server cfg = record {
  address = concat ":" cfg.port;
  read_header_timeout = cfg.read_header_timeout;
  read_timeout = cfg.read_timeout;
  write_timeout = cfg.write_timeout;
  idle_timeout = cfg.idle_timeout;
  max_header_bytes = 2 ^ 20;
}

-- What the select of Run receives: the error of ListenAndServe, which is never nil, or the end of the
-- context, after which Shutdown returns the given error or nil.
pub data Event : Type 0 where
  served : Error → Event
  context_done : Option Error → Event

module _ (is_server_closed : Error → Bool) where
  -- Run; `is_server_closed` is errors.Is with http.ErrServerClosed.
  unfoldable pub run_server : Event → Option Error
  run_server (served e) =
      if is_server_closed e then none else some (wrapped "server: listenAndServe failed: " e)
  run_server (context_done none) = none
  run_server (context_done (some e)) = some (wrapped "server: graceful shutdown incomplete: " e)

-- the end of `run`: the error that the process reports
unfoldable pub exit_error : Option Error → Option Error
exit_error none = none
exit_error (some e) = if not (is_canceled e) then some e else none
