-- ===== src/Errors/Codes.antt =====
-- Which errors carry a code and which are the caller's.
use fast_platform_modular.Base.{
  ◌≤◌, ◌<◌, String, ◌≡◌, sym, ap, ◌∙◌, ◌↔◌, true, some, arith, concat, Option-cases, inl, inr,
}
use text.Mathlib.TextLemmas.{append_assoc}
use text.Mathlib.TextPositions.{starts_with-append}
use fast_platform_modular.Errors.{
  Error, opaque, HttpError, as_http, error_text, is_client_error, has_code, to_error,
}

-- An error is the caller's exactly when an HTTPError in its chain has a status from 400 to 499.
pub is_client_error_iff :
    (err : Error)
    → (is_client_error (some err) ≡ true)
      ↔ ((e : HttpError) × (as_http err ≡ some e) × (400 ≤ e.status) × (e.status < 500))
unfolding is_client_error
is_client_error_iff err = elim (Option-cases (as_http err)) [
  | inl e ↦ ground (arith, e)
  | inr (h, e) ↦ (λ ok. (h, e, ground arith, ground arith), λ (x, found, lo, hi). ground arith)
]

-- The typed error is found again behind the interface `error`.
pub as_http-to_error : (e : HttpError) → as_http (to_error e) ≡ some e
unfolding as_http to_error
as_http-to_error e = ground arith

code_and_message : (c m : String) → concat c (concat ": " m) ≡ concat (concat c ":") (concat " " m)
code_and_message c m =
    sym (append_assoc c ":" (concat " " m) ∙ ap (concat c) (sym (append_assoc ":" " " m)))

error_text-to_error :
    (e : HttpError) → error_text (to_error e) ≡ concat (concat e.code ":") (concat " " e.message)
unfolding error_text to_error
error_text-to_error e = ground (arith, code_and_message e.code e.message)

-- A code is still found after the error was flattened to its text.
pub has_code-flattened :
    (e : HttpError) → has_code (some (opaque (error_text (to_error e)))) e.code ≡ true
unfolding has_code
has_code-flattened e =
    rw (error_text-to_error e) (starts_with-append (concat e.code ":") (concat " " e.message))
