-- ===== src/Process/Ending.antt =====
-- When the process reports an error: Run of platform/platform.go and the end of run of
-- cmd/platform/main.go.
use fast_platform_modular.Base.{◌≡◌, ◌↔◌, ◌⊎◌, Bool, true, none, some, arith}
use fast_platform_modular.Errors.{Error, is_canceled}
use fast_platform_modular.Process.{Event, served, context_done, run_server, exit_error}

-- The ends of Run that are no failure of the process.
abbrev pub EndsWell : (Error → Bool) → Event → Type 0
EndsWell is_server_closed (served e) = (is_server_closed e ≡ true) ⊎ (is_canceled e ≡ true)
EndsWell is_server_closed (context_done none) = Unit {0}
EndsWell is_server_closed (context_done (some e)) = is_canceled e ≡ true

-- The process ends without an error exactly if the server was closed, or it was drained in time after
-- the context was done, or the error of either is a cancellation.
pub exit_error-run_server :
    (is_server_closed : Error → Bool) (event : Event)
    → (exit_error (run_server is_server_closed event) ≡ none) ↔ EndsWell is_server_closed event
unfolding exit_error run_server is_canceled
exit_error-run_server is_server_closed (served e) = ground arith
exit_error-run_server is_server_closed (context_done none) = ground arith
exit_error-run_server is_server_closed (context_done (some e)) = ground arith
