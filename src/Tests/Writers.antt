-- ===== src/Tests/Writers.antt =====
-- A writer whose handler sets a status, writes twice, and sets another status too late.
use fast_platform_modular.Base.{
  ℕ, ◌+◌, ◌≡◌, refl, Bool, true, false, List, [], ◌∷◌, ◌++◌, if◌then◌else◌,
}
use fast_platform_modular.Errors.{ok}
use fast_platform_modular.Middleware.Observed.{Writers, WriterCall, set_status, body, run_calls}
use fast_platform_modular.Middleware.Observed.Status.{Laws, run_calls-told}

record Wire : Type 0 where
  written : Bool
  status : ℕ
  told : List ℕ
  writes : ℕ

abbrev writers : Writers Wire
writers = record {
  written = λ s. s.written;
  status = λ s. s.status;
  gin_write_header = λ code s. record s { status = if s.written then s.status else code };
  gin_write_header_now = λ s. record s { written = true };
  wrapper_write_header = λ code s. record s { told = s.told ++ code ∷ [] };
  wrapper_write = λ text s. (record s { writes = s.writes + 1 }, ok 1);
}

writers-Laws : Laws writers (λ s. s.told)
writers-Laws = record {
  set_written = λ code s. refl;
  set_told = λ code s. refl;
  set_late = λ code s e. rw e refl;
  now_written = λ s. refl;
  now_status = λ s. refl;
  now_told = λ s. refl;
  note_status = λ s. refl;
  note_told = λ code s. refl;
  write_written = λ text s e. e;
  write_status = λ text s e. refl;
  write_told = λ text s e. refl;
}

abbrev fresh : Wire
fresh = record { written = false; status = 200; told = []; writes = 0 }

abbrev handler : List WriterCall
handler = set_status 201 ∷ body "{}" ∷ set_status 500 ∷ body "late" ∷ []

run_calls-told_example :
    ((run_calls writers handler fresh).written ≡ true)
    × ((run_calls writers handler fresh).told ≡ (run_calls writers handler fresh).status ∷ [])
run_calls-told_example = run_calls-told writers (λ s. s.told) writers-Laws handler fresh refl refl
