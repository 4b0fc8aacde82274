-- ===== src/Errors/Abort/Hiding.antt =====
-- What AbortError lets out: one line of log, and no internal error.
use Prim.Native.Char.{code}
use Prim.Native.String.{[], ◌∷◌}
use fast_platform_modular.Base.{
  ℕ, String, ◌≡◌, ◌≢◌, refl, ap, ◌∙◌, Bool, none, some, arith, if◌then◌else◌, Bool-cases, inl, inr,
  nat_eq,
}
use fast_platform_modular.Errors.{
  Error, as_http, is_canceled, map_error, internal_error, new_error, wrap_error,
}
use fast_platform_modular.Errors.Abort.{
  remove_char, log_line, or_internal_error, sanitize_for_log, LogLine, request_failed,
  request_rejected, abort_error,
}

-- No character of the text is `c`.
abbrev IsFree : ℕ → String → Type 0
IsFree c [] = Unit {0}
IsFree c (d ∷ s) = (code d ≢ c) × IsFree c s

-- No line feed and no carriage return.
abbrev pub IsOneLine : String → Type 0
IsOneLine s = IsFree 10 s × IsFree 13 s

remove_char-IsFree : (c : ℕ) (s : String) → IsFree c (remove_char c s)
unfolding remove_char
remove_char-IsFree c [] = tt
remove_char-IsFree c (d ∷ s) = elim (Bool-cases (nat_eq (code d) c)) [
  | inl same ↦ rw same (remove_char-IsFree c s)
  | inr other ↦ rw other (λ e. ground arith, remove_char-IsFree c s)
]

remove_char_keeps-IsFree : (b c : ℕ) (s : String) → IsFree b s → IsFree b (remove_char c s)
unfolding remove_char
remove_char_keeps-IsFree b c [] h = tt
remove_char_keeps-IsFree b c (d ∷ s) (n, h) = elim (Bool-cases (nat_eq (code d) c)) [
  | inl same ↦ rw same (remove_char_keeps-IsFree b c s h)
  | inr other ↦ rw other (n, remove_char_keeps-IsFree b c s h)
]

remove_char-free : (c : ℕ) (s : String) → IsFree c s → remove_char c s ≡ s
unfolding remove_char
remove_char-free c [] h = refl
remove_char-free c (d ∷ s) (n, h) = ground (arith, remove_char-free c s h)

-- A path that is logged is one line, whatever the client sent, and a path that is one line is logged as
-- it is: no client can forge a line of the log.
pub sanitize_for_log-IsOneLine :
    (value : String)
    → IsOneLine (sanitize_for_log value) × (IsOneLine value → sanitize_for_log value ≡ value)
unfolding sanitize_for_log
sanitize_for_log-IsOneLine value = (
  (
    remove_char_keeps-IsFree 10 13 (remove_char 10 value) (remove_char-IsFree 10 value),
    remove_char-IsFree 13 (remove_char 10 value),
  ),
  λ (h, k). ap (remove_char 13) (remove_char-free 10 value h) ∙ remove_char-free 13 value k,
)

-- The line that is logged for an error that is no HTTPError.
abbrev pub internal_line : String → String → Error → LogLine
internal_line method path e =
    if is_canceled e
    then request_rejected method path 500 "INTERNAL_ERROR" "internal server error"
    else request_failed method path 500 "INTERNAL_ERROR" e

-- An error with no HTTPError in its chain is answered with 500 INTERNAL_ERROR and a fixed message: its
-- text goes to the log only, and not even there if the client had gone.
pub abort_error-internal :
    (ops : Bool) (method path : String) (e : Error)
    → as_http e ≡ none
    → abort_error ops method path (some e) ≡ record {
      log = if ops then some (internal_line method (sanitize_for_log path) e) else none;
      status = 500;
      code = "INTERNAL_ERROR";
      message = "internal server error";
    }
unfolding abort_error log_line or_internal_error map_error internal_error new_error wrap_error
abort_error-internal ops method path e h = elim (Bool-cases (is_canceled e)) [
  | inl gone ↦ rw (h, gone) refl
  | inr there ↦ rw (h, there) refl
]
