-- ===== src/Middleware/Observed.antt =====
-- observedWriter of platform/middleware.go, over gin's writer and the telemetry library's, which are
-- not in the repository.
pub mod Status
use fast_platform_modular.Base.{ℕ, String, Bool, not, List, [], ◌∷◌, if◌then◌else◌}
use fast_platform_modular.Errors.{Result}

-- The two writers on their common state: Written, Status, WriteHeader and WriteHeaderNow of gin, and
-- WriteHeader and Write of `w`, the wrapper of the telemetry library.
pub record Writers (S : Type 0) : Type 0 where
  pub written : S → Bool
  pub status : S → ℕ
  pub gin_write_header : ℕ → S → S
  pub gin_write_header_now : S → S
  pub wrapper_write_header : ℕ → S → S
  pub wrapper_write : String → S → S × Result ℕ

module _ {S : Type 0} (w : Writers S) where
  -- WriteHeaderNow
  unfoldable pub write_header_now : S → S
  write_header_now s =
      w.gin_write_header_now
        (if not (w.written s) then w.wrapper_write_header (w.status s) s else s)

  -- Write, and WriteString, which io.WriteString turns into a write of the text
  unfoldable pub write_body : String → S → S × Result ℕ
  unfolding write_header_now
  write_body text s = w.wrapper_write text (write_header_now s)

-- What a handler does with the writer of its context: c.Status, which is gin's WriteHeader, and the
-- three methods. The methods of gin's writer that observedWriter does not define, Flush and Hijack
-- among them, are called by no handler of the repository.
pub data WriterCall : Type 0 where
  set_status : ℕ → WriterCall
  header_now : WriterCall
  body : String → WriterCall

module _ {S : Type 0} (w : Writers S) where
  unfoldable pub run_call : WriterCall → S → S
  unfolding write_header_now write_body
  run_call (set_status code) s = w.gin_write_header code s
  run_call header_now s = write_header_now w s
  run_call (body text) s = (write_body w text s).0

  -- the handler, and then the call of WriteHeaderNow in telemetryMiddleware
  unfoldable pub run_calls : List WriterCall → S → S
  unfolding run_call
  run_calls [] s = write_header_now w s
  run_calls (c ∷ calls) s = run_calls calls (run_call c s)
