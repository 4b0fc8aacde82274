-- ===== src/Http.antt =====
-- What a handler reads of a gin context and what it answers. gin is not in the repository: a handler
-- is a function from what it reads to the one answer that it writes.
use fast_platform_modular.Base.{ℕ, ◌≤◌, ◌<◌, String, Bool, some}
use fast_platform_modular.Errors.{Error}
use fast_platform_modular.Errors.Abort.{Abort, abort_error}

-- `header` is GetHeader and `param` is Param; `ops` says whether the context has a telemetry client.
pub record Request : Type 0 where
  pub method : String
  pub path : String
  pub header : String → String
  pub param : String → String
  pub ops : Bool

-- `json` is c.JSON with the status and the body; `aborted` is platform.AbortError.
pub data Answer (A : Type 0) : Type 0 where
  json : ℕ → A → Answer A
  aborted : Abort → Answer A

-- `platform.AbortError(c, err); return`
abbrev pub abort : {A : Type 0} → Request → Error → Answer A
abort r e = aborted (abort_error r.ops r.method r.path (some e))

-- An answer other than a failure of the service: a result, or an error of the caller.
abbrev pub IsExpected : {A : Type 0} → Answer A → Type 0
IsExpected (json status a) = Unit {0}
IsExpected (aborted a) = (400 ≤ a.status) × (a.status < 500)
