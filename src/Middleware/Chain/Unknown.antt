-- ===== src/Middleware/Chain/Unknown.antt =====
-- NoRoute and NoMethod of NewRouter in platform/platform.go, behind the middlewares.
use fast_platform_modular.Base.{
  ℕ, String, ◌≡◌, refl, ◌∙◌, Bool, true, false, Option, none, some, List, [], ◌∷◌, ◌++◌, ap,
  if◌then◌else◌,
}
use fast_platform_modular.Errors.{
  new_error, to_error, map_error, as_http, or_internal, error_cause, is_canceled,
}
use fast_platform_modular.Errors.Abort.{
  abort_error, or_internal_error, log_line, request_rejected, sanitize_for_log,
}
use fast_platform_modular.Config.{Config}
use fast_platform_modular.Middleware.{
  Incoming, Action, abort_json, log, Run, Instrument, ◌▸◌, telemetry_from_context,
}
use fast_platform_modular.Middleware.RequestId.{chosen_id}
use fast_platform_modular.Middleware.Cors.Preflight.{IsPreflight, IsCorsOf}
use fast_platform_modular.Middleware.Chain.{
  middlewares, run_chain, is_there, kept, Unmatched, unknown_path, other_method, unmatched,
  abort_actions, log_actions,
}
use fast_platform_modular.Middleware.Chain.Safety.{common, Passes, chain-calm}

-- The answer with its line in the log, with a client or without one.
abbrev pub refusal : ℕ → String → String → Bool → Incoming → Run
refusal status code message ops r = record {
  actions =
      (if ops
        then log (request_rejected r.method (sanitize_for_log r.path) status code message) ∷ []
        else [])
      ++ abort_json status code message ∷ [];
  panic = none;
}

abbrev pub refused : Unmatched → Bool → Incoming → Run
refused unknown_path = refusal 404 "NOT_FOUND" "route not found"
refused other_method = refusal 405 "METHOD_NOT_ALLOWED" "method not allowed for this resource"

refused-calm : (u : Unmatched) (ops : Bool) (r : Incoming) → (refused u ops r).panic ≡ none
refused-calm unknown_path ops r = refl
refused-calm other_method ops r = refl

unmatched-kept :
    (u : Unmatched) (ops : Bool) (r : Incoming) → unmatched u (kept ops r) ≡ refused u ops r
unfolding unmatched abort_actions abort_error telemetry_from_context or_internal_error log_line
    map_error error_cause log_actions as_http or_internal is_canceled to_error new_error
unmatched-kept unknown_path false r = refl
unmatched-kept unknown_path true r = refl
unmatched-kept other_method false r = refl
unmatched-kept other_method true r = refl

-- A request that meets no route, and one that meets only routes of other methods, is answered with 404
-- NOT_FOUND or 405 METHOD_NOT_ALLOWED, unless it is a preflight, behind the request ID, the security
-- headers, and those of CORS where the origin is granted; the telemetry client that NewRouter was
-- given, if there is one, gets one line of it. The instrumentation, if there is one, passes on to the
-- rest of the chain.
pub unmatched-chain :
    (u : Unmatched) (cfg : Config) (tel : Option Instrument) (random : Option (List ℕ))
    (r : Incoming)
    → ((instrument : Instrument) → tel ≡ some instrument → Passes instrument)
    → ¬ IsPreflight r
    → (before : List Action) × IsCorsOf cfg.cors_allowed_origins r before
      × (run_chain (middlewares cfg tel random) (unmatched u) r
          ≡ common (chosen_id random r) ▸ before ▸ refused u (is_there tel) r)
unmatched-chain u cfg tel random r passes p =
    let ops = is_there tel in
    let same = unmatched-kept u ops r in
    let calm = ap (λ run. run.panic) same ∙ refused-calm u ops r in
    let (before, is_cors, on) = chain-calm cfg tel random (unmatched u) r passes p calm in
    (before, is_cors, on ∙ ap (λ run. common (chosen_id random r) ▸ before ▸ run) same)
