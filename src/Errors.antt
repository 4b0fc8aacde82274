-- ===== src/Errors.antt =====
-- platform/platform.go, the typed HTTP errors, and the Go errors of other packages that reach them.
-- A value of Go's interface `error` that may be nil is an `Option Error`. The proofs are in
-- Errors/Codes.antt and Errors/Abort.antt.
pub mod Codes
pub mod Abort
use fast_platform_modular.Base.{
  ℕ, String, Bool, true, false, ◌&&◌, Option, none, some, leb, ltb, concat, ◌==◌, starts_with,
  if◌then◌else◌, ◌≡◌, refl, ◌⊎◌, inl, inr,
}

-- The errors that the program makes or inspects. `http` and `http_because` are the two forms of
-- *HTTPError: with no cause, and with one. `pg` is a *pgconn.PgError, with its SQLSTATE, its
-- constraint and the text that its Error method gives; `wrapped` is the result of
-- fmt.Errorf with a text and %w, `opaque` any other error, of which only the text is seen.
pub data Error : Type 0 where
  http : ℕ → String → String → Error
  http_because : ℕ → String → String → Error → Error
  pg : String → String → String → Error
  wrapped : String → Error → Error
  canceled : Error
  opaque : String → Error

-- HTTPError
pub record HttpError : Type 0 where
  pub status : ℕ
  pub code : String
  pub message : String
  pub cause : Option Error

-- the pointer as a value of the interface `error`
unfoldable pub to_error : HttpError → Error
to_error e = elim e.cause [
  | none ↦ http e.status e.code e.message
  | some c ↦ http_because e.status e.code e.message c
]

unfoldable pub new_error : ℕ → String → String → HttpError
new_error s c m = record { status = s; code = c; message = m; cause = none }

unfoldable pub wrap_error : HttpError → Error → HttpError
wrap_error e c = record { status = e.status; code = e.code; message = e.message; cause = some c }

-- ErrorCause; the argument may be nil
unfoldable pub error_cause : Option HttpError → Option Error
error_cause none = none
error_cause (some e) = e.cause

-- errors.As with a target of type *HTTPError, and errors.AsType[*HTTPError]
unfoldable pub as_http : Error → Option HttpError
as_http (http s c m) = some (record { status = s; code = c; message = m; cause = none })
as_http (http_because s c m e) = some (record { status = s; code = c; message = m; cause = some e })
as_http (wrapped text e) = as_http e
as_http (pg code constraint message) = none
as_http canceled = none
as_http (opaque text) = none

-- The Error methods: HTTPError's own, and the texts of the other errors.
unfoldable pub error_text : Error → String
error_text (http s c m) = concat c (concat ": " m)
error_text (http_because s c m e) = concat c (concat ": " m)
error_text (pg code constraint shown) = shown
error_text (wrapped text e) = concat text (error_text e)
error_text canceled = "context canceled"
error_text (opaque text) = text

-- errors.Is(err, context.Canceled)
unfoldable pub is_canceled : Error → Bool
is_canceled canceled = true
is_canceled (http_because s c m e) = is_canceled e
is_canceled (wrapped text e) = is_canceled e
is_canceled (http s c m) = false
is_canceled (pg code constraint message) = false
is_canceled (opaque text) = false

is_4xx : Option HttpError → Bool
is_4xx none = false
is_4xx (some e) = leb 400 e.status && ltb e.status 500

unfoldable pub is_client_error : Option Error → Bool
unfolding is_4xx as_http
is_client_error none = false
is_client_error (some err) = is_4xx (as_http err)

carries : Option HttpError → Error → String → Bool
carries (some e) err code = e.code == code
carries none err code = starts_with (error_text err) (concat code ":")

unfoldable pub has_code : Option Error → String → Bool
unfolding carries as_http error_text
has_code none code = false
has_code (some err) code = carries (as_http err) err code

-- http.StatusBadRequest and the text of fmt.Sprintf("field %q %s", f, r), where %q puts the field
-- between quotes: every call passes a plain name.
unfoldable pub validation_error : String → String → HttpError
unfolding new_error
validation_error f r =
    new_error 400 "VALIDATION_ERROR" (concat "field \"" (concat f (concat "\" " r)))

unfoldable pub internal_error : HttpError
unfolding new_error
internal_error = new_error 500 "INTERNAL_ERROR" "internal server error"

unfoldable pub or_internal : Option HttpError → Error → HttpError
unfolding internal_error wrap_error
or_internal (some a) e = a
or_internal none e = wrap_error internal_error e

unfoldable pub map_error : Option Error → Option HttpError
unfolding or_internal as_http
map_error none = none
map_error (some e) = some (or_internal (as_http e) e)

-- Go's pair of a value and an error: `err e` is a non-nil error, beside which no caller reads the
-- value.
pub data Result {ℓ} (A : Type ℓ) : Type ℓ where
  ok : A → Result A
  err : Error → Result A

-- the error of the pair
abbrev pub error_of {ℓ} : {A : Type ℓ} → Result A → Option Error
error_of (ok a) = none
error_of (err e) = some e

pub Result-cases {ℓ} :
    {A : Type ℓ} (r : Result A) → ((a : A) × (r ≡ ok a)) ⊎ ((e : Error) × (r ≡ err e))
Result-cases (ok a) = inl (a, refl)
Result-cases (err e) = inr (e, refl)
