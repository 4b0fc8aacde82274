-- ===== src/Runtime.antt =====
-- What the use cases are given by the process and by libraries that are not in the repository: the
-- environment, the clock, fresh UUIDs, the trace context, and the telemetry client.
pub mod Signals
use fast_platform_modular.Base.{ℕ, String, Option, none, some, if◌then◌else◌}
use fast_platform_modular.Errors.{Error, Result, ok, err, error_of, is_client_error}
use fast_platform_modular.Env.{Environ}
use fast_platform_modular.Trace.{Carrier}

-- The telemetry client. `worker_context e` is what WorkerContext returns for a job that returned `e`.
pub record Telemetry : Type 0 where
  pub worker_context : Option Error → Option Error

-- One call of a use case: the environment, the time in milliseconds, what the trace propagator writes
-- for the context, what each uuid.New().String() of the call gives, and the time since its start at
-- which it is measured.
pub record Call : Type 0 where
  pub getenv : Environ
  pub now : ℕ
  pub carrier : Carrier
  pub new_order_id : String
  pub new_rider_id : String
  pub new_acceptance_id : String
  pub new_history_id : String
  pub new_outbox_id : String
  pub elapsed : ℕ

-- What a use case does: the new state of what it writes to, the `status` of its metrics, and its
-- result.
pub record Outcome (S A : Type 0) : Type 0 where
  pub state : S
  pub label : String
  pub result : Result A

-- The error that the function `work` of both services returns.
abbrev pub job_error : Option Error → Option Error
job_error e = if is_client_error e then none else e

unfoldable pub or_error {ℓ} : {A : Type ℓ} → Result A → Option Error → Result A
or_error (ok a) none = ok a
or_error (ok a) (some e) = err e
or_error (err e) worker = err e

-- The call of a use case through WorkerContext, where a telemetry client is there: Service.Requested
-- and Service.Accepted.
unfoldable pub observed {ℓ} : {A : Type ℓ} → Option Telemetry → Result A → Result A
unfolding or_error
observed none r = r
observed (some tel) r = or_error r (tel.worker_context (job_error (error_of r)))
