-- ===== src/Middleware/Chain.antt =====
-- NewRouter of platform/platform.go: the settings of the engine, and its middlewares in their order.
pub mod Safety
pub mod Unknown
use fast_platform_modular.Base.{
  ℕ, ◌^◌, String, Bool, true, false, not, Option, none, some, List, [], ◌∷◌, ◌++◌, if◌then◌else◌,
}
use fast_platform_modular.Base.Int.{ℤ, pos, gtb_ℤ}
use fast_platform_modular.Errors.{to_error, new_error}
use fast_platform_modular.Errors.Abort.{LogLine, Abort, abort_error}
use fast_platform_modular.Config.{Config}
use fast_platform_modular.Middleware.{
  Incoming, client, telemetry_from_context, Action, set_telemetry, abort_json, log, Run, Handler,
  Middleware, Instrument, ◌▸◌, security_headers, recovery, telemetry_middleware,
}
use fast_platform_modular.Middleware.RequestId.{request_id}
use fast_platform_modular.Middleware.Cors.{cors}

abbrev pub kept : Bool → Incoming → Incoming
kept ops r = record r { telemetry = some (client ops) }

-- the middleware that keeps the telemetry client in the context
abbrev keep_telemetry : Bool → Middleware
keep_telemetry ops next r = (set_telemetry ∷ []) ▸ next (kept ops r)

-- The telemetry client as the instrumentation that it gives; `none` is a nil client.
abbrev pub is_there : Option Instrument → Bool
is_there none = false
is_there (some instrument) = true

unfoldable pub cors_of : List String → List Middleware
cors_of [] = []
cors_of (origin ∷ origins) = cors (origin ∷ origins) ∷ []

-- the calls of engine.Use; `random` is what rand.Read gives for the request
unfoldable pub middlewares : Config → Option Instrument → Option (List ℕ) → List Middleware
middlewares cfg tel random =
    telemetry_middleware tel
    ∷ keep_telemetry (is_there tel)
    ∷ request_id random
    ∷ security_headers
    ∷ (cors_of cfg.cors_allowed_origins ++ recovery (is_there tel) ∷ [])

-- A chain of handlers: c.Next() of each runs those behind it.
unfoldable pub run_chain : List Middleware → Handler → Handler
run_chain [] handler = handler
run_chain (m ∷ ms) handler = m (run_chain ms handler)

-- The calls that AbortError makes.
unfoldable pub log_actions : Option LogLine → List Action
log_actions none = []
log_actions (some line) = log line ∷ []

unfoldable pub abort_actions : Abort → List Action
unfolding log_actions
abort_actions a = log_actions a.log ++ abort_json a.status a.code a.message ∷ []

-- NoRoute and NoMethod
unfoldable no_route : Handler
no_route r = record {
  actions = abort_actions (
      abort_error (telemetry_from_context r) r.method r.path
        (some (to_error (new_error 404 "NOT_FOUND" "route not found"))));
  panic = none;
}

unfoldable no_method : Handler
no_method r = record {
  actions = abort_actions (
      abort_error (telemetry_from_context r) r.method r.path (
        some
          (to_error (new_error 405 "METHOD_NOT_ALLOWED" "method not allowed for this resource"))));
  panic = none;
}

-- What gin found wrong with the method and the path: nothing under the path, or only other methods.
pub data Unmatched : Type 0 where
  unknown_path : Unmatched
  other_method : Unmatched

-- the handler that gin calls then
unfoldable pub unmatched : Unmatched → Handler
unfolding no_route no_method
unmatched unknown_path = no_route
unmatched other_method = no_method

-- What NewRouter sets on gin and on the engine: the mode, HandleMethodNotAllowed, MaxMultipartMemory
-- and the trusted proxies, where `none` is a call with nil.
record Engine : Type 0 where
  pub release : Bool
  pub method_not_allowed : Bool
  pub multipart_memory : ℤ
  pub trusted_proxies : Option (List String)

proxies_of : List String → Option (List String)
proxies_of [] = none
proxies_of (p ∷ ps) = some (p ∷ ps)

unfoldable new_engine : Config → Engine
unfolding proxies_of
new_engine cfg = record {
  release = cfg.release_mode;
  method_not_allowed = true;
  multipart_memory = if not (gtb_ℤ cfg.body_limit 0) then pos (2 ^ 20) else cfg.body_limit;
  trusted_proxies = proxies_of cfg.trusted_proxies;
}
