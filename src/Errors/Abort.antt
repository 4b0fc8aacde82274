-- ===== src/Errors/Abort.antt =====
-- AbortError of platform/platform.go: what it logs and what it answers.
pub mod Hiding
use Prim.Native.Char.{code}
use Prim.Native.String.{[], ◌∷◌}
use fast_platform_modular.Base.{ℕ, String, Bool, not, Option, none, some, nat_eq, if◌then◌else◌}
use fast_platform_modular.Errors.{
  Error, HttpError, map_error, internal_error, error_cause, is_canceled,
}

-- strings.ReplaceAll(value, old, "") for a text `old` of one character
remove_char : ℕ → String → String
remove_char old [] = []
remove_char old (c ∷ s) =
    let rest = remove_char old s in if nat_eq (code c) old then rest else c ∷ rest

-- sanitizeForLog
unfoldable pub sanitize_for_log : String → String
unfolding remove_char
sanitize_for_log value = remove_char 13 (remove_char 10 value)

-- A line of the structured log: Error("request failed", …) or Warn("request rejected", …), with the
-- method, the path, the status, the code, and the cause or the message.
pub data LogLine : Type 0 where
  request_failed : String → String → ℕ → String → Error → LogLine
  request_rejected : String → String → ℕ → String → String → LogLine

-- The error envelope is `status`, `code` and `message`; `log` is what the telemetry client received.
pub record Abort : Type 0 where
  pub log : Option LogLine
  pub status : ℕ
  pub code : String
  pub message : String

unfoldable pub or_internal_error : Option HttpError → HttpError
unfolding internal_error
or_internal_error none = internal_error
or_internal_error (some e) = e

-- The log line, where a telemetry client is there.
unfoldable pub log_line : String → String → HttpError → Option Error → LogLine
log_line method path mapped none =
    request_rejected method path mapped.status mapped.code mapped.message
log_line method path mapped (some cause) =
    if not (is_canceled cause)
    then request_failed method path mapped.status mapped.code cause
    else request_rejected method path mapped.status mapped.code mapped.message

-- `ops` says whether the gin context holds a telemetry client.
unfoldable pub abort_error : Bool → String → String → Option Error → Abort
unfolding or_internal_error log_line map_error error_cause is_canceled sanitize_for_log
abort_error ops method url_path err =
    let mapped = or_internal_error (map_error err) in
    let path = sanitize_for_log url_path in
    record {
      log = if ops then some (log_line method path mapped (error_cause (some mapped))) else none;
      status = mapped.status;
      code = mapped.code;
      message = mapped.message;
    }
