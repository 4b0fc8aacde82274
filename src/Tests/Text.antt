-- ===== src/Tests/Text.antt =====
-- Values that are read from texts and errors that are flattened to them.
use fast_platform_modular.Base.{◌≡◌, refl, ◌↔◌, true, none, some, [], ◌∷◌, ◌==◌, if◌then◌else◌}
use fast_platform_modular.Json.{text, object, field, end}
use fast_platform_modular.Errors.{wrapped, opaque, as_http}
use fast_platform_modular.Errors.Abort.{sanitize_for_log, abort_error}
use fast_platform_modular.Errors.Abort.Hiding.{
  IsOneLine, sanitize_for_log-IsOneLine, internal_line, abort_error-internal,
}
use fast_platform_modular.Env.{Environ}
use fast_platform_modular.Trace.{inject_trace_context, extract_trace_context, eq_fold}
use fast_platform_modular.Trace.RoundTrip.{extract-inject}
use fast_platform_modular.Config.{validate}
use fast_platform_modular.Config.Valid.{IsValid, validate_iff}
use fast_platform_modular.Tests.Web.{cfg}

extract-inject_example :
    extract_trace_context (
      inject_trace_context
        (("traceparent", "00-1-2-01") ∷ ("tracestate", "a=b") ∷ [])
        (object (field "orderId" (text "o1") end)))
    ≡ some (("traceparent", "00-1-2-01") ∷ ("tracestate", "a=b") ∷ [])
unfolding eq_fold
extract-inject_example =
    extract-inject ("traceparent", "00-1-2-01") (("tracestate", "a=b") ∷ [])
      (field "orderId" (text "o1") end) (tt, ((refl, tt), tt)) (refl, tt)

validate_iff_example : (validate cfg ≡ none) ↔ IsValid cfg
validate_iff_example = validate_iff cfg

abbrev getenv : Environ
getenv key = if key == "PORT" then "80x" else if key == "DEBUG" then "T" else ""

sanitize_for_log-IsOneLine_example :
    IsOneLine (sanitize_for_log "/x\n/y")
    × (IsOneLine "/x\n/y" → sanitize_for_log "/x\n/y" ≡ "/x\n/y")
sanitize_for_log-IsOneLine_example = sanitize_for_log-IsOneLine "/x\n/y"

abort_error-internal_example :
    abort_error true "GET" "/x\n/y" (some (wrapped "query: " (opaque "connection refused")))
    ≡ record {
      log = some (
          internal_line "GET"
            (sanitize_for_log "/x\n/y")
            (wrapped "query: " (opaque "connection refused")));
      status = 500;
      code = "INTERNAL_ERROR";
      message = "internal server error";
    }
unfolding as_http
abort_error-internal_example =
    abort_error-internal true "GET" "/x\n/y" (wrapped "query: " (opaque "connection refused")) refl

abbrev origins_env : Environ
origins_env key =
    if key == "CORS_ALLOWED_ORIGINS" then " https://a.example,https://b.example " else ""
