-- ===== src/Middleware.antt =====
-- platform/middleware.go: the middlewares of the gin engine, and the order in which NewRouter of
-- platform/platform.go puts them. gin is not in the repository: a run is the calls that the code makes
-- on the context, in their order, and the panic that leaves it, if one does.
pub mod RequestId
pub mod Cors
pub mod Chain
pub mod Observed
use fast_platform_modular.Base.{
  ℕ, String, Bool, true, false, Option, none, some, List, [], ◌∷◌, ◌++◌, any, ◌==◌, if◌then◌else◌,
}
use fast_platform_modular.Errors.Abort.{LogLine, sanitize_for_log}

-- What is kept in the context: a telemetry client, with whether there is one (`client false` is a nil
-- client), or a value of another type.
pub data Value : Type 0 where
  client : Bool → Value
  other : Value

-- What the code reads of the context: the request, and the value under "telemetry", if one was set.
pub record Incoming : Type 0 where
  pub method : String
  pub path : String
  pub header : String → String
  pub telemetry : Option Value

-- telemetryFromContext: whether there is a client for AbortError to log with
unfoldable pub telemetry_from_context : Incoming → Bool
telemetry_from_context r = elim r.telemetry [
  | none ↦ false
  | some v ↦ elim v [ client ops ↦ ops | other ↦ false ]
]

-- c.Set("telemetry", ops), c.Header, c.AbortWithStatus, c.AbortWithStatusJSON with the error envelope,
-- c.JSON and its body, and the calls of the logger: the line of AbortError, and "panic recovered" with
-- the method, the path and the panic.
pub data Action : Type 0 where
  set_telemetry : Action
  set_header : String → String → Action
  abort_status : ℕ → Action
  abort_json : ℕ → String → String → Action
  answer_json : ℕ → String → Action
  log : LogLine → Action
  log_panic : String → String → String → Action

pub record Run : Type 0 where
  pub actions : List Action
  pub panic : Option String

-- a gin.HandlerFunc, up to and with what c.Next() runs
abbrev pub Handler : Type 0
Handler = Incoming → Run

abbrev pub Middleware : Type 0
Middleware = Handler → Handler

-- the calls before c.Next(), then what it does
infixr 20 ◌▸◌
abbrev pub ◌▸◌ : List Action → Run → Run
before ▸ run = record run { actions = before ++ run.actions }

-- securityHeaders
abbrev pub security_actions : List Action
security_actions =
    set_header "X-Content-Type-Options" "nosniff"
    ∷ set_header "X-Frame-Options" "DENY"
    ∷ set_header "Referrer-Policy" "strict-origin-when-cross-origin"
    ∷ set_header "Content-Security-Policy" "default-src 'none'; frame-ancestors 'none'"
    ∷ set_header "Cross-Origin-Resource-Policy" "same-origin"
    ∷ []

unfoldable pub security_headers : Middleware
security_headers next r = security_actions ▸ next r

abbrev pub internal_abort : Action
internal_abort = abort_json 500 "INTERNAL_ERROR" "internal server error"

-- the deferred function of `recovery`
unfoldable pub recovered : Bool → Incoming → Run → Run
recovered ops r run = elim run.panic [
  | none ↦ run
  | some text ↦ record {
    actions =
        run.actions
        ++ (if ops
            then log_panic r.method (sanitize_for_log r.path) text ∷ internal_abort ∷ []
            else internal_abort ∷ []);
    panic = none;
  }
]

-- recovery; `ops` says whether there is a telemetry client
unfoldable pub recovery : Bool → Middleware
unfolding recovered
recovery ops next r = recovered ops r (next r)

-- probePaths
abbrev probe_paths : List String
probe_paths = "/live" ∷ "/ready" ∷ "/health" ∷ []

abbrev pub is_probe : String → Bool
is_probe path = any (λ p. p == path) probe_paths

-- What telemetry.Middleware makes of the handler that it is given; the handler is told whether the
-- context of the request that the library hands it still holds the gin context.
abbrev pub Instrument : Type 0
Instrument = (Bool → Run) → Incoming → Run

-- The handler that telemetryMiddleware gives to telemetry.Middleware; its writer is in Observed.
abbrev pub adapted : Handler → Incoming → Bool → Run
adapted next r found = if found then next r else record { actions = []; panic = none }

-- telemetryMiddleware; `tel` is the instrumentation, where there is a client. The clone of the request,
-- with the pattern of its route, has the method, the path and the headers of the request.
unfoldable pub telemetry_middleware : Option Instrument → Middleware
telemetry_middleware none next r = next r
telemetry_middleware (some instrument) next r =
    if is_probe r.path then next r else instrument (adapted next r) r
